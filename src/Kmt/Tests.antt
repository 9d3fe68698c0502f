-- ===== src/Kmt/Tests.antt =====
-- Runs of the locks and semaphores of kernel/src/kmt.c.
use oslab.Prelude.{ℕ, ◌≡◌, refl, arith, inl, returns, true, false, ◌≤◌, ◌>>=◌, ◌+◌, ltb}
use oslab.Lock.{lock, unlock}
use oslab.Kmt.{Spinlock, Cpu, Sem, sem_init, sem_try, sem_signal, spin_lock, spin_unlock}
use oslab.Kmt.SpinLaws.{
  IsCpu, lock_then_unlock, spin_lock-IsCpu, spin_unlock-IsCpu, nested_lock_skips,
}
use oslab.Kmt.SemLaws.{Reach, init, pass, signal, sem_balance}

-- No lock is held and interrupts are on.
abbrev idle_cpu : Cpu
idle_cpu = record { intenb = false; ienabled = true; nest = 0 }

-- One lock is held.
abbrev busy_cpu : Cpu
busy_cpu = record { intenb = true; ienabled = false; nest = 1 }

busy_cpu-IsCpu : IsCpu busy_cpu
busy_cpu-IsCpu = record { off = λ h. refl }

idle_cpu-IsCpu : IsCpu idle_cpu
idle_cpu-IsCpu = record { off = λ h. absurd (omega arith) }

abbrev clear : Spinlock
clear = record { flag = 0 }

abbrev set : Spinlock
set = record { flag = 1 }

lock_then_unlock_example :
    (c' : Cpu) × ((spin_lock clear idle_cpu >>= λ r. spin_unlock r.0 r.1) ≡ returns (clear, c'))
    × (c'.ienabled ≡ true)
    × (c'.nest ≡ 0)
lock_then_unlock_example = lock_then_unlock clear idle_cpu idle_cpu-IsCpu (inl refl)

locks : spin_lock clear idle_cpu ≡ returns (set, busy_cpu)
unfolding spin_lock
locks = refl

unlocks : spin_unlock set busy_cpu ≡ returns (clear, record busy_cpu { ienabled = true; nest = 0 })
unfolding spin_unlock
unlocks = refl

spin_lock-IsCpu_example : IsCpu busy_cpu × (1 ≡ 0 + 1) × (busy_cpu.ienabled ≡ false)
spin_lock-IsCpu_example = spin_lock-IsCpu clear set idle_cpu busy_cpu locks

spin_unlock-IsCpu_example : IsCpu (record busy_cpu { ienabled = true; nest = 0 }) × (0 + 1 ≡ 1)
spin_unlock-IsCpu_example =
    spin_unlock-IsCpu set clear busy_cpu (record busy_cpu { ienabled = true; nest = 0 })
      busy_cpu-IsCpu unlocks

nested_lock_skips_example : (c' : Cpu) × (spin_lock set busy_cpu ≡ returns (set, c'))
nested_lock_skips_example = nested_lock_skips set busy_cpu (omega arith)

abbrev sem_at : ℕ → Sem
sem_at value = record { lk = record { flag = 0 }; value = value }

one_passes : sem_try (sem_at 1) ≡ returns (true, sem_at 0)
unfolding sem_try lock unlock
one_passes = refl

one_signals : sem_signal (sem_at 0) ≡ returns (sem_at 1)
unfolding sem_signal lock unlock
one_signals = refl

passed-Reach : Reach 0 1 1 (sem_at 0)
unfolding sem_init
passed-Reach = pass (signal (init (sem_at 0) refl) one_signals) one_passes

sem_balance_example : (1 ≤ 0 + 1) × ((t : Sem) × (sem_try (sem_at 0) ≡ returns (ltb 1 (0 + 1), t)))
sem_balance_example = sem_balance passed-Reach
