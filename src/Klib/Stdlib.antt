-- ===== src/Klib/Stdlib.antt =====
-- abstract-machine/klib/src/stdlib.c: random numbers, `atoi` and `malloc`.
use oslab.Prelude.{
  ℕ, zero, suc, ◌+◌, ◌-◌, ◌*◌, ◌/◌, ◌%◌, ◌^◌, ltb, leb, ◌&&◌, ◌==◌, if◌then◌else◌, Outcome, returns,
  undefined, no_fuel, ◌>>=◌,
}
use oslab.Pmm.{Area, roundup}
use oslab.Klib.Mem.{Memory}

-- The random number and the new `next`, an `unsigned long` of 64 bits.
unfoldable pub rand : ℕ → ℕ × ℕ
rand next =
    let next1 = (next * 1103515245 + 12345) % 2 ^ 64 in (next1 / 65536 % 2 ^ 32 % 32768, next1)

-- The new `next` for a 32-bit seed.
unfoldable pub srand : ℕ → ℕ
srand seed = seed % 2 ^ 32

-- `x` is a bit pattern of 32 bits; `-x` of the least `int` is undefined.
unfoldable pub abs : ℕ → Outcome ℕ
abs x =
    if ltb x (2 ^ 31) then returns x else if x == 2 ^ 31 then undefined else returns (2 ^ 32 - x)

unfoldable pub skip_spaces : ℕ → ℕ → Memory → Outcome ℕ
skip_spaces zero nptr mem = no_fuel
skip_spaces (suc fuel) nptr mem =
    let rest = skip_spaces fuel (nptr + 1) mem in if mem nptr == 32 then rest else returns nptr

-- The second loop of `atoi`; `x * 10 + *nptr` beyond the largest `int` is undefined.
unfoldable pub atoi_loop : ℕ → ℕ → ℕ → Memory → Outcome ℕ
atoi_loop zero x nptr mem = no_fuel
atoi_loop (suc fuel) x nptr mem =
    let rest = atoi_loop fuel (x * 10 + mem nptr - 48) (nptr + 1) mem in
    if leb 48 (mem nptr) && leb (mem nptr) 57
    then if ltb (x * 10 + mem nptr) (2 ^ 31) then rest else undefined
    else returns x

unfoldable pub atoi : ℕ → ℕ → Memory → Outcome ℕ
atoi fuel nptr mem = do start ← skip_spaces fuel nptr mem; atoi_loop fuel 0 start mem

-- The block and the new `addr_rec`, which starts as null.
unfoldable pub malloc : Area → ℕ → ℕ → ℕ × ℕ
malloc heap size addr_rec =
    let rec1 = if addr_rec == 0 then heap.start else addr_rec in
    (rec1, (rec1 + roundup size 8) % 2 ^ 64)
