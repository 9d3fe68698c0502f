-- ===== src/Kmt/SemLaws.antt =====
-- The semaphores of kernel/src/kmt.c under any interleaving of the rounds of `sem_wait` and the
-- calls of `sem_signal`; each of these runs under the semaphore's lock.
use oslab.Prelude.{ℕ, ◌+◌, ◌≤◌, ◌≡◌, true, false, arith, returns, suc, ltb, if◌then◌else◌, ◌-◌}
use oslab.Kmt.{Sem, sem_init, sem_try, sem_signal}
use oslab.Lock.{lock}
use oslab.Lock.{unlock}

-- From `sem_init(start)`, after `passed` waits have returned and `signals` calls have been made.
pub data Reach (start : ℕ) : ℕ → ℕ → Sem → Type 0 where
  init : (s : Sem) → s ≡ sem_init start → Reach start 0 0 s
  pass :
      {passed signals : ℕ} {s t : Sem}
      → Reach start passed signals s
      → sem_try s ≡ returns (true, t)
      → Reach start (suc passed) signals t
  again :
      {passed signals : ℕ} {s t : Sem}
      → Reach start passed signals s
      → sem_try s ≡ returns (false, t)
      → Reach start passed signals t
  signal :
      {passed signals : ℕ} {s t : Sem}
      → Reach start passed signals s
      → sem_signal s ≡ returns t
      → Reach start passed (suc signals) t

-- The value counts the waits that can still pass, and the lock is free between calls.
record Counts (start passed signals : ℕ) (s : Sem) : Type 0 where
  unlocked : s.lk.flag ≡ 0
  balance : s.value + passed ≡ start + signals

Reach-Counts :
    {start passed signals : ℕ} {s : Sem}
    → Reach start passed signals s
    → Counts start passed signals s
unfolding sem_init sem_try sem_signal
Reach-Counts (init s e) = ground arith
Reach-Counts (pass r run) = let v = Reach-Counts r in ground arith
Reach-Counts (again r run) = let v = Reach-Counts r in ground arith
Reach-Counts (signal r run) = let v = Reach-Counts r in ground arith

-- However the calls interleave, no more waits pass than the start value and the signals together,
-- and the next round of a wait returns, and passes exactly if fewer have.
pub sem_balance :
    {start passed signals : ℕ} {s : Sem}
    → Reach start passed signals s
    → (passed ≤ start + signals)
      × ((t : Sem) × (sem_try s ≡ returns (ltb passed (start + signals), t)))
unfolding sem_try lock unlock
sem_balance {start} {passed} {signals} {s} r =
    let v = Reach-Counts r in
    (
      omega (arith, v.balance),
      (
        record { lk = record { flag = 0 }; value = if ltb 0 s.value then s.value - 1 else s.value },
        ground (arith, v.unlocked, v.balance),
      ),
    )
