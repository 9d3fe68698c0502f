-- ===== src/Libco.antt =====
-- libco/co.c: the coroutines. Their stacks and contexts are switched by setjmp, longjmp and assembly, so
-- `co_yield` says where the run goes on. A coroutine is the address of its `struct co`.
pub mod Runs
pub mod Turns
mod Tests
use oslab.Prelude.{
  ℕ, ◌≡◌, ◌≢◌, sym, Bool, true, false, ◌==◌, if◌then◌else◌, update, update_ne, List, ◌∷◌, ◌++◌, has,
  arith, Option, some, none,
}
use oslab.Ring.{IsRing}
use oslab.Ring.Insert.{insert-IsRing}
use oslab.Ring.Remove.{unlink-IsRing}
use mathlib.Core.Path.{subst}

-- `enum co_status`
pub data CoStatus : Type 0 where
  co_new co_running co_waiting co_dead : CoStatus

-- The fields of all `struct co` and the variable `current`; a null `waiter` is `none`.
pub record Coroutines : Type 0 where
  pub current : ℕ
  pub status : ℕ → CoStatus
  pub waiter : ℕ → Option ℕ
  pub next : ℕ → ℕ
  pub front : ℕ → ℕ

-- The constructor `ready`, with what `malloc` returned for the main coroutine; the other structures
-- do not exist yet.
unfoldable pub ready : ℕ → Coroutines → Coroutines
ready mainco s = record {
  current = mainco;
  status = update s.status mainco co_running;
  waiter = update s.waiter mainco none;
  next = update s.next mainco mainco;
  front = update s.front mainco mainco;
}

-- `co_start`, with what `malloc` returned for the new coroutine.
unfoldable pub co_start : ℕ → Coroutines → Coroutines
co_start newco s =
    let next1 : ℕ → ℕ = update s.next newco (s.next s.current) in
    let front1 : ℕ → ℕ = update s.front newco s.current in
    record s {
      status = update s.status newco co_new;
      waiter = update s.waiter newco none;
      next = update next1 s.current newco;
      front = update front1 (next1 s.current) newco;
    }

-- Where the run goes on behind `co_yield`: at the start of the function of the new coroutine, behind
-- the last `co_yield` of the one that is resumed, or behind this very call.
pub data Jump : Type 0 where
  enters resumes stays : Jump

unfoldable pub yield_to : CoStatus → ℕ → Coroutines → Jump × Coroutines
yield_to co_new co s = (enters, record s { current = co; status = update s.status co co_running })
yield_to co_running co s = (resumes, record s { current = co })
yield_to co_waiting co s = (resumes, record s { current = co })
yield_to co_dead co s = (stays, record s { current = co })

unfoldable pub co_yield : Coroutines → Jump × Coroutines
co_yield s = yield_to (s.status (s.next s.current)) (s.next s.current) s

-- `wrapper` when the function has returned.
unfoldable pub finish : ℕ → Coroutines → Jump × Coroutines
finish cur s = co_yield (record s { status = update s.status cur co_dead })

-- The two statements before the loop of `co_wait`, its condition, and the statements behind it; then the
-- coroutine is freed. A waiter is there, since `co_wait` has stored it.
unfoldable pub wait_start : ℕ → Coroutines → Coroutines
wait_start co s = record s {
  status = update s.status s.current co_waiting;
  waiter = update s.waiter co (some s.current);
}

unfoldable pub is_dead : CoStatus → Bool
is_dead co_new = false
is_dead co_running = false
is_dead co_waiting = false
is_dead co_dead = true

unfoldable pub wake : Option ℕ → (ℕ → CoStatus) → ℕ → CoStatus
wake none status = status
wake (some w) status = update status w co_running

unfoldable pub wait_end : ℕ → Coroutines → Coroutines
wait_end co s =
    let next1 : ℕ → ℕ = update s.next (s.front co) (s.next co) in
    record s {
      status = wake (s.waiter co) s.status;
      next = next1;
      front = update s.front (next1 co) (s.front co);
    }

-- The loop of `co_wait`: behind each `co_yield` the condition is read again.
unfoldable pub wait_round : ℕ → Coroutines → Option Jump × Coroutines
wait_round co s =
    if is_dead (s.status co) then (none, wait_end co s) else (some (co_yield s).0, (co_yield s).1)

-- The condition of the loop of the destructor `join`: the coroutine that it waits for next.
unfoldable pub join_next : Coroutines → Option ℕ
join_next s = if s.next s.current == s.current then none else some (s.next s.current)

-- `co_start` puts a coroutine that is not on the ring behind the current one.
pub co_start-IsRing :
    (newco : ℕ) (s : Coroutines) (xs : List ℕ)
    → IsRing s.next s.front s.current xs
    → has newco (s.current ∷ xs) ≡ false
    → IsRing (co_start newco s).next (co_start newco s).front s.current (newco ∷ xs)
unfolding co_start
co_start-IsRing newco s xs r fresh =
    let apart : newco ≢ s.current = λ e. absurd (ground (arith, e, fresh)) in
    subst
      (λ (a : ℕ).
        IsRing (update (update s.next newco (s.next s.current)) s.current newco)
          (update (update s.front newco s.current) a newco) s.current (newco ∷ xs))
      (sym (update_ne s.next newco (s.next s.current) s.current apart))
      (insert-IsRing newco r fresh)

-- What follows the loop of `co_wait` takes the coroutine out of the ring of the waiting one, and keeps
-- the order of the others.
pub wait_end-IsRing :
    (co : ℕ) (s : Coroutines) (xs ys : List ℕ)
    → IsRing s.next s.front s.current (xs ++ co ∷ ys)
    → s.front co ≢ co
    → IsRing (wait_end co s).next (wait_end co s).front s.current (xs ++ ys)
unfolding wait_end
wait_end-IsRing co s xs ys r apart =
    subst
      (λ (a : ℕ).
        IsRing (update s.next (s.front co) (s.next co)) (update s.front a (s.front co)) s.current
          (xs ++ ys))
      (sym (update_ne s.next (s.front co) (s.next co) co apart)) (unlink-IsRing co xs ys r)
