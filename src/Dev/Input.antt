-- ===== src/Dev/Input.antt =====
-- kernel/src/dev/dev_input.c with `input_t` and `struct input_event` of kernel/include/devices.h:
-- the queue of keyboard events, under a spin lock and a semaphore, and the keyboard's state.
pub mod Keyboard
pub mod Queue
pub mod Task
use oslab.Prelude.{
  ℕ, ◌+◌, ◌%◌, ◌^◌, Bool, true, false, ◌==◌, if◌then◌else◌, update, Outcome, returns, panics, ◌>>=◌,
  ◌>>◌, assert, not, Option, leb, some, none,
}
use oslab.Kmt.{
  Spinlock, Cpu, Sem, spin_init, spin_lock, spin_unlock, sem_init, sem_wait, sem_signal,
}

-- The bit fields `ctrl: 1, alt: 1` and `data: 16`.
pub record InputEvent : Type 0 where
  pub ctrl : ℕ
  pub alt : ℕ
  pub word : ℕ

abbrev pub nevents : ℕ
nevents = 128

-- `input_t`; the pairs `shift_down[2]`, `ctrl_down[2]`, `alt_down[2]` are the left and right keys.
pub record Input : Type 0 where
  pub lock : Spinlock
  pub event_sem : Sem
  pub events : ℕ → InputEvent
  pub front : ℕ
  pub rear : ℕ
  pub capslock : Bool
  pub shift_left : Bool
  pub shift_right : Bool
  pub ctrl_left : Bool
  pub ctrl_right : Bool
  pub alt_left : Bool
  pub alt_right : Bool

-- The fields keep the low bits of the `int` arguments.
unfoldable pub event : ℕ → ℕ → ℕ → InputEvent
event ctrl alt word = record { ctrl = ctrl % 2; alt = alt % 2; word = word % 2 ^ 16 }

abbrev pub is_empty : Input → Bool
is_empty inp = inp.rear == inp.front

unfoldable pub push_event : InputEvent → Cpu × Input → Outcome (Cpu × Input)
push_event ev (c, inp) = do
  (lk, c1) ← spin_lock inp.lock c
  let inp1 : Input = record inp {
    lock = lk;
    events = update inp.events inp.rear ev;
    rear = (inp.rear + 1) % nevents;
  }
  assert (not (is_empty inp1))
  (lk', c2) ← spin_unlock lk c1
  sem ← sem_signal inp.event_sem
  returns (c2, record inp1 { lock = lk'; event_sem = sem })

unfoldable pub pop_event : Cpu × Input → Outcome (InputEvent × Cpu × Input)
pop_event (c, inp) = do
  sem ← sem_wait inp.event_sem
  (lk, c1) ← spin_lock inp.lock c
  assert (not (is_empty inp))
  (lk', c2) ← spin_unlock lk c1
  returns (
    inp.events inp.front,
    c2,
    record inp { lock = lk'; event_sem = sem; front = (inp.front + 1) % nevents },
  )

-- `*in = (input_t) {}`, then the buffer, whose contents `pmm->alloc` leaves as they are, the lock and
-- the semaphore.
unfoldable pub input_init : (ℕ → InputEvent) → Input
unfolding spin_init sem_init
input_init buf = record {
  lock = spin_init;
  event_sem = sem_init 0;
  events = buf;
  front = 0;
  rear = 0;
  capslock = false;
  shift_left = false;
  shift_right = false;
  ctrl_left = false;
  ctrl_right = false;
  alt_left = false;
  alt_right = false;
}

-- The `int` that `input_read` returns, and the event that it stores in `buf` if that is large enough;
-- `sizeof(ev)` is 4.
unfoldable pub input_read : ℕ → Cpu × Input → Outcome (ℕ × Option InputEvent × Cpu × Input)
unfolding pop_event
input_read count s = do
  (ev, c, inp) ← pop_event s
  returns (if leb 4 count then (4, some ev, c, inp) else (0, none, c, inp))
