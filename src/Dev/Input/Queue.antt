-- ===== src/Dev/Input/Queue.antt =====
-- The ring of kernel/src/dev/dev_input.c is a queue of at most 127 events.
use oslab.Prelude.{
  ℕ, ◌+◌, ◌-◌, ◌%◌, ◌≤◌, ◌<◌, ◌≡◌, List, [], ◌∷◌, ◌++◌, arith, returns, panics, spins, suc, update,
  ap, zero, refl, update_ne, ◌∙◌, update_self,
}
use oslab.Kmt.{Cpu, spin_lock, spin_unlock, sem_wait, sem_signal}
use oslab.Dev.Input.{InputEvent, Input, push_event, pop_event}
use mathlib.Core.Path.{ap₂}

-- The events from `front` on, as many as `len`.
abbrev pub window : (ℕ → InputEvent) → ℕ → ℕ → List InputEvent
window events front zero = []
window events front (suc len) = events front ∷ window events ((front + 1) % 128) len

abbrev pub held : Input → ℕ
held inp = (inp.rear + 128 - inp.front) % 128

abbrev pub contents : Input → List InputEvent
contents inp = window inp.events inp.front (held inp)

-- Between calls the locks are free, the indices are in range, and the semaphore counts the events.
pub record IsInput (c : Cpu) (inp : Input) : Type 0 where
  pub idle : c.nest ≡ 0
  pub unlocked : inp.lock.flag ≡ 0
  pub sem_unlocked : inp.event_sem.lk.flag ≡ 0
  pub front_lt : inp.front < 128
  pub rear_lt : inp.rear < 128
  pub counted : inp.event_sem.value ≡ held inp

-- A store at an index that the window does not reach.
window-spare :
    (events : ℕ → InputEvent) (n front i : ℕ) (ev : InputEvent)
    → front < 128
    → i < 128
    → n ≤ (i + 128 - front) % 128
    → window (update events i ev) front n ≡ window events front n
window-spare events zero front i ev lf li h = refl
window-spare events (suc n) front i ev lf li h =
    ap₂ ◌∷◌ (update_ne events i ev front (λ e. absurd (omega arith)))
      (window-spare events n ((front + 1) % 128) i ev (omega arith) li (omega arith))

-- A store at the end of the window extends it.
window-push :
    (events : ℕ → InputEvent) (n front i : ℕ) (ev : InputEvent)
    → front < 128
    → i ≡ (front + n) % 128
    → n < 127
    → window (update events i ev) front (suc n) ≡ window events front n ++ (ev ∷ [])
window-push events zero front i ev lf e lt =
    ap (λ x. x ∷ []) (ap (update events i ev) {y = i} (omega arith) ∙ update_self events i ev)
window-push events (suc n) front i ev lf e lt =
    ap₂ ◌∷◌ (update_ne events i ev front (λ q. absurd (omega arith)))
      (window-push events n ((front + 1) % 128) i ev (omega arith) (omega arith) (omega arith))

-- `push_event` on a queue of fewer than 127 events that keeps the invariant returns, appends the
-- event, and keeps the invariant and the interrupt flag.
pub push_refines :
    (ev : InputEvent) (c : Cpu) (inp : Input)
    → IsInput c inp
    → held inp < 127
    → (c' : Cpu) × (inp' : Input) × (push_event ev (c, inp) ≡ returns (c', inp'))
      × IsInput c' inp'
      × (contents inp' ≡ contents inp ++ (ev ∷ []))
      × (c'.ienabled ≡ c.ienabled)
unfolding push_event spin_lock spin_unlock sem_signal
push_refines ev c inp v room = (
  record c { intenb = c.ienabled },
  record inp {
    lock = record { flag = 0 };
    event_sem = record { lk = record { flag = 0 }; value = inp.event_sem.value + 1 };
    events = update inp.events inp.rear ev;
    rear = (inp.rear + 1) % 128;
  },
  ground arith,
  record {
    idle = v.idle;
    unlocked = refl;
    sem_unlocked = refl;
    front_lt = v.front_lt;
    rear_lt = omega arith;
    counted = omega arith;
  },
  ap (window (update inp.events inp.rear ev) inp.front) {y = suc (held inp)} (omega arith)
      ∙ window-push inp.events (held inp) inp.front inp.rear ev v.front_lt (omega arith) room,
  refl,
)

-- `push_event` on a queue of 127 events that keeps the invariant panics.
pub push_full :
    (ev : InputEvent) (c : Cpu) (inp : Input)
    → IsInput c inp
    → held inp ≡ 127
    → push_event ev (c, inp) ≡ panics
unfolding push_event spin_lock spin_unlock sem_signal
push_full ev c inp v full = ground arith

-- `pop_event` on a queue that keeps the invariant and is not empty returns the oldest event,
-- leaves the others in their order, and keeps the invariant and the interrupt flag.
pub pop_refines :
    (c : Cpu) (inp : Input)
    → IsInput c inp
    → 0 < held inp
    → (ev : InputEvent) × (c' : Cpu) × (inp' : Input) × (pop_event (c, inp)
        ≡ returns (ev, c', inp'))
      × IsInput c' inp'
      × (contents inp ≡ ev ∷ contents inp')
      × (c'.ienabled ≡ c.ienabled)
unfolding pop_event spin_lock spin_unlock sem_wait
pop_refines c inp v some_held = (
  inp.events inp.front,
  record c { intenb = c.ienabled },
  record inp {
    lock = record { flag = 0 };
    event_sem = record { lk = record { flag = 0 }; value = inp.event_sem.value - 1 };
    front = (inp.front + 1) % 128;
  },
  ground arith,
  record {
    idle = v.idle;
    unlocked = refl;
    sem_unlocked = refl;
    front_lt = omega arith;
    rear_lt = v.rear_lt;
    counted = omega arith;
  },
  ap (window inp.events inp.front) {y = suc ((inp.rear + 128 - (inp.front + 1) % 128) % 128)}
      (omega arith),
  refl,
)

-- `pop_event` on an empty queue that keeps the invariant waits on the semaphore and does not
-- panic.
pub pop_empty : (c : Cpu) (inp : Input) → IsInput c inp → held inp ≡ 0 → pop_event (c, inp) ≡ spins
unfolding pop_event sem_wait
pop_empty c inp v none_held = ground arith
