-- ===== src/Libco/Tests.antt =====
-- Three coroutines of libco/co.c: the main one is 1, and it starts 2 and 3.
use oslab.Prelude.{ℕ, ◌≡◌, refl, arith, true, false, ◌==◌, ◌||◌, if◌then◌else◌, none, List}
use oslab.Libco.{co_new, Coroutines, ready, co_start, yield_to, co_yield, finish, is_dead, wait_end}
use oslab.Libco.Runs.{Reached, started, creates, yields, finishes, frees, IsLive, Reached-IsLive}

abbrev nothing : Coroutines
nothing = record {
  current = 0;
  status = λ a. co_new;
  waiter = λ a. none;
  next = λ a. 0;
  front = λ a. 0;
}

-- The coroutine 2 runs and finishes, the main one goes on and frees it.
abbrev first : Coroutines
first = co_start 2 (ready 1 nothing)

abbrev ended : Coroutines
ended = (finish (co_yield first).1.current (co_yield first).1).1

ended_dead : (is_dead (ended.status 2) ≡ true) × (ended.current ≡ 1)
unfolding finish co_yield yield_to co_start ready is_dead
ended_dead = (refl, refl)

ended-Reached : Reached (λ a. (a == 2) || (a == 1)) ended
ended-Reached = finishes (yields (creates 2 refl (started 1 nothing)))

Reached-IsLive_example :
    (xs : List ℕ) × IsLive
      (λ a. if a == 2 then false else (a == 2) || (a == 1))
      (wait_end 2 ended)
      xs
Reached-IsLive_example =
    Reached-IsLive
      (frees 2 refl ended_dead.0 (λ e. absurd (omega (arith, e, ended_dead.1))) ended-Reached)

abbrev second : Coroutines
second = co_start 3 first
