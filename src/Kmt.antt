-- ===== src/Kmt.antt =====
-- kernel/src/kmt.c: the spin locks that nest on a CPU, and the semaphores.
pub mod SpinLaws
mod Tests
pub mod SemLaws
use oslab.Prelude.{
  ℕ, zero, suc, ◌+◌, ◌-◌, ◌^◌, Bool, true, false, not, ltb, ◌==◌, if◌then◌else◌, Outcome, returns,
  panics, spins, undefined, ◌>>=◌, ◌>>◌, assert,
}
use oslab.Lock.{LockT, lockinit, lock, unlock, atomic_xchg}

-- `spinlock_t`; its name is only for messages.
pub record Spinlock : Type 0 where
  pub flag : ℕ

-- What `spin_lock` keeps of a CPU: the interrupt flag, `nest[c]` and `intenb[c]`.
pub record Cpu : Type 0 where
  pub ienabled : Bool
  pub nest : ℕ
  pub intenb : Bool

unfoldable pub spin_init : Spinlock
spin_init = record { flag = 0 }

-- `while(atomic_xchg(&(lk -> flag), 1));` with no other CPU that releases the lock
unfoldable pub spin_acquire : Spinlock → Outcome Spinlock
spin_acquire lk = if lk.flag == 0 then returns (record { flag = 1 }) else spins

unfoldable pub spin_lock : Spinlock → Cpu → Outcome (Spinlock × Cpu)
unfolding spin_acquire
spin_lock lk c =
    let c1 : Cpu = record c { ienabled = false; nest = c.nest + 1 } in
    if c1.nest == 1
    then (do lk' ← spin_acquire lk; returns (lk', record c1 { intenb = c.ienabled }))
    else returns (lk, c1)

-- `nest[c]--; assert(nest[c] >= 0)` fails exactly if it was 0.
unfoldable pub spin_unlock : Spinlock → Cpu → Outcome (Spinlock × Cpu)
spin_unlock lk c = do
  assert (not (c.nest == 0))
  let c1 : Cpu = record c { nest = c.nest - 1 }
  if c1.nest == 0
      then (do
        assert (not c1.ienabled)
        returns (record { flag = 0 }, (if c1.intenb then record c1 { ienabled = true } else c1)))
      else returns (lk, c1)

-- `sem_t`; its name is only for messages. `value` is an `int` that never falls below its start.
pub record Sem : Type 0 where
  pub lk : LockT
  pub value : ℕ

unfoldable pub sem_init : ℕ → Sem
unfolding lockinit
sem_init value = record { lk = lockinit; value = value }

-- One round of the loop of `sem_wait`: the semaphore after it, and `acquire`.
unfoldable pub sem_try : Sem → Outcome (Bool × Sem)
unfolding lock unlock
sem_try s = do
  held ← lock s.lk
  returns (
      if ltb 0 s.value
      then (true, record { lk = unlock held; value = s.value - 1 })
      else (false, record { lk = unlock held; value = s.value }))

-- `sem_wait` where no other task signals: a failed round is repeated for ever.
unfoldable pub sem_wait : Sem → Outcome Sem
unfolding sem_try
sem_wait s = do (acquire, s') ← sem_try s; if acquire then returns s' else spins

-- `value ++` on the largest `int` is undefined.
unfoldable pub sem_signal : Sem → Outcome Sem
unfolding lock unlock
sem_signal s = do
  held ← lock s.lk
  if s.value == 2 ^ 31 - 1
      then undefined
      else returns (record { lk = unlock held; value = s.value + 1 })
