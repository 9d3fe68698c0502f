-- ===== src/Lock/Tests.antt =====
-- Runs of the functions of kernel/src/lock.c.
use oslab.Prelude.{ℕ, ◌≡◌, refl, arith, some, update, ◌⊎◌}
use oslab.Lock.{lockinit, round_self, round_self_loop}
use oslab.Lock.Round.{IsRound, round_self-IsRound}
use oslab.Lock.Mutex.{
  inside, outside, System, Step, Reach, init, next, acquire, retry, mutual_exclusion,
  lock_available,
}

round_self_100 : round_self 100 ≡ some 7
unfolding round_self round_self_loop
round_self_100 = refl

round_self-IsRound_example : (c : ℕ) × (round_self 100 ≡ some c) × IsRound 100 c
round_self-IsRound_example = round_self-IsRound 100 (omega arith)

-- Thread 1 takes the lock, and thread 2 tries in vain.
abbrev taken : System
taken = record { m = record { flag = 1 }; at = update (λ i. outside) 1 inside }

first_takes : Step (record { m = record { flag = 0 }; at = λ i. outside }) taken
first_takes = acquire 1 refl refl

taken-Reach : Reach taken
unfolding lockinit
taken-Reach = next (next init first_takes) (retry 2 refl refl)

mutual_exclusion_example : ◌≡◌ {A = ℕ} 1 1
mutual_exclusion_example = mutual_exclusion {s = taken} taken-Reach 1 1 refl refl

lock_available_example :
    ((j : ℕ) × (taken.at j ≡ inside)) ⊎ ((t : System) × Step taken t × (t.at 2 ≡ inside))
lock_available_example = lock_available {s = taken} taken-Reach 2 refl
