-- ===== src/Lock.antt =====
-- kernel/src/lock.c: the power of two of a size, and the spin lock over `atomic_xchg`.
pub mod Mutex
pub mod Round
mod Tests
use oslab.Prelude.{
  ℕ, zero, suc, ◌+◌, ◌*◌, ◌%◌, ◌^◌, Bool, Option, none, some, Outcome, returns, spins, ltb, ◌==◌,
  if◌then◌else◌,
}

-- `while (i < x) { i = i << 1; count++; }` over `uint64_t i`; `none` means that the fuel ran out.
unfoldable pub round_self_loop : ℕ → ℕ → ℕ → ℕ → Option ℕ
round_self_loop zero x i count = none
round_self_loop (suc fuel) x i count =
    let rest = round_self_loop fuel x ((i * 2) % 2 ^ 64) (count + 1) in
    if ltb i x then rest else some count

-- 65 rounds: the 64 values of `count` at which the loop can stop, and the last test.
unfoldable pub round_self : ℕ → Option ℕ
unfolding round_self_loop
round_self x = round_self_loop 65 x 1 0

-- `lock_t`
pub record LockT : Type 0 where
  pub flag : ℕ

unfoldable pub lockinit : LockT
lockinit = record { flag = 0 }

-- `atomic_xchg(&m->flag, newval)`: the old value, and the lock after.
abbrev pub atomic_xchg : LockT → ℕ → ℕ × LockT
atomic_xchg m newval = (m.flag, record { flag = newval })

-- `lock` where no other thread runs: the exchange is repeated while the old value is not 0, and
-- with the flag set it always reads the 1 that it has written itself.
unfoldable pub lock : LockT → Outcome LockT
lock m = let (old, m') = atomic_xchg m 1 in if old == 0 then returns m' else spins

unfoldable pub unlock : LockT → LockT
unlock m = (atomic_xchg m 0).1
