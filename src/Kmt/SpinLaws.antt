-- ===== src/Kmt/SpinLaws.antt =====
-- How the spin locks of kernel/src/kmt.c nest.
use oslab.Prelude.{◌+◌, ◌<◌, ◌≡◌, false, arith, returns, ◌>>=◌, ◌⊎◌, if◌then◌else◌, ◌==◌}
use oslab.Kmt.{Spinlock, Cpu, spin_lock, spin_unlock}

-- While a CPU holds a lock its interrupts are off.
pub record IsCpu (c : Cpu) : Type 0 where
  pub off : 0 < c.nest → c.ienabled ≡ false

-- The CPU after a lock and an unlock: only the outermost lock records the interrupt flag.
after_both : Cpu → Cpu
after_both c = if c.nest == 0 then record c { intenb = c.ienabled } else c

-- `spin_unlock` after `spin_lock` of a free lock, or of any lock while the CPU holds one, gives back
-- the lock, the nesting and the interrupt flag as they were.
pub lock_then_unlock :
    (lk : Spinlock) (c : Cpu)
    → IsCpu c
    → (lk.flag ≡ 0) ⊎ (0 < c.nest)
    → (c' : Cpu) × ((spin_lock lk c >>= λ r. spin_unlock r.0 r.1) ≡ returns (lk, c'))
      × (c'.ienabled ≡ c.ienabled)
      × (c'.nest ≡ c.nest)
unfolding spin_lock spin_unlock after_both
lock_then_unlock lk c v free = (after_both c, ground arith, ground arith, ground arith)

-- `spin_lock` raises the nesting by one and leaves the interrupts off.
pub spin_lock-IsCpu :
    (lk lk' : Spinlock) (c c' : Cpu)
    → spin_lock lk c ≡ returns (lk', c')
    → IsCpu c' × (c'.nest ≡ c.nest + 1) × (c'.ienabled ≡ false)
unfolding spin_lock
spin_lock-IsCpu lk lk' c c' run = ground arith

-- `spin_unlock` lowers the nesting by one and keeps the interrupts off while a lock is held.
pub spin_unlock-IsCpu :
    (lk lk' : Spinlock) (c c' : Cpu)
    → IsCpu c
    → spin_unlock lk c ≡ returns (lk', c')
    → IsCpu c' × (c'.nest + 1 ≡ c.nest)
unfolding spin_unlock
spin_unlock-IsCpu lk lk' c c' v run = ground arith

-- On a CPU that holds a lock, `spin_lock` of any other lock returns at once and leaves that lock's
-- flag alone, set or clear.
pub nested_lock_skips :
    (lk : Spinlock) (c : Cpu) → 0 < c.nest → (c' : Cpu) × (spin_lock lk c ≡ returns (lk, c'))
unfolding spin_lock
nested_lock_skips lk c held = (record c { ienabled = false; nest = c.nest + 1 }, ground arith)
