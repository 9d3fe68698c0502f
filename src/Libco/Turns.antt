-- ===== src/Libco/Turns.antt =====
-- The turns of the coroutines of libco/co.c: `co_yield` goes round the ring.
use oslab.Prelude.{ℕ, zero, suc, List}
use oslab.Libco.{
  CoStatus, co_new, co_running, co_waiting, co_dead, Coroutines, Jump, enters, resumes, stays,
  co_yield,
}

-- So many calls of `co_yield` in a row, each by the coroutine that the one before has switched to.
unfoldable pub yield_times : ℕ → Coroutines → Coroutines
yield_times zero s = s
yield_times (suc n) s = yield_times n (co_yield s).1

-- Where the run of a coroutine with the status goes on when it becomes the current one: a new one at the
-- start of its function, one that has run behind its own last call, and one that has died nowhere, so
-- that the call returns to its caller.
pub data GoesOn : CoStatus → Jump → Type 0 where
  at_start : GoesOn co_new enters
  behind_yield : GoesOn co_running resumes
  behind_wait : GoesOn co_waiting resumes
  at_caller : GoesOn co_dead stays
