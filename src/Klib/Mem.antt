-- ===== src/Klib/Mem.antt =====
-- The block functions of abstract-machine/klib/src/string.c. The memory gives the byte at each
-- address; a `size_t` count that a loop counts down is the number of its rounds.
pub mod Copy
use oslab.Prelude.{
  ℕ, zero, suc, ◌+◌, ◌-◌, ◌%◌, Bool, true, false, ltb, ◌==◌, not, if◌then◌else◌, update, Outcome,
  returns, panics, ◌>>=◌, ◌>>◌, assert, ◌&&◌, ◌^◌,
}

abbrev pub Memory : Type 0
Memory = ℕ → ℕ

-- `while(n--) { *tmp1 = *tmp2; tmp1++, tmp2++; }`
unfoldable pub copy_up : ℕ → ℕ → ℕ → Memory → Memory
copy_up zero dst src mem = mem
copy_up (suc n) dst src mem = copy_up n (dst + 1) (src + 1) (update mem dst (mem src))

-- `while(n--) { *tmp1 = *tmp2; tmp1--, tmp2--; }` from the last bytes `dst + n - 1`, `src + n - 1`
unfoldable pub copy_down : ℕ → ℕ → ℕ → Memory → Memory
copy_down zero dst src mem = mem
copy_down (suc n) dst src mem = copy_down n dst src (update mem (dst + n) (mem (src + n)))

unfoldable pub memcpy : ℕ → ℕ → ℕ → Memory → Memory
memcpy out from n mem = copy_up n out from mem

unfoldable pub memmove : ℕ → ℕ → ℕ → Memory → Outcome Memory
memmove dst src n mem = do
  assert (not (dst == 0) && not (src == 0))
  returns (
      if ltb src dst
      then copy_up n dst src mem
      else if ltb dst src
      then copy_down n dst src mem
      else mem)

-- `*tmp = (char) c`: the low byte of an `int`, given as its bit pattern.
unfoldable pub memset : ℕ → ℕ → ℕ → Memory → Memory
memset s c zero mem = mem
memset s c (suc n) mem = memset (s + 1) c n (update mem s (c % 2 ^ 8))

-- The results -1, 0 and 1 of the comparing functions.
pub data Sign : Type 0 where
  negative none positive : Sign

-- On a difference at `tmp1`, `tmp2` the code compares the bytes at `s1`, `s2`; `&& tmp1` stops at a
-- pointer that has wrapped round to null.
unfoldable pub memcmp_loop : ℕ → ℕ → ℕ → ℕ → ℕ → Memory → Sign
memcmp_loop zero s1 s2 tmp1 tmp2 mem = Sign.none
memcmp_loop (suc n) s1 s2 tmp1 tmp2 mem =
    let later = memcmp_loop n s1 s2 ((tmp1 + 1) % 2 ^ 64) ((tmp2 + 1) % 2 ^ 64) mem in
    if tmp1 == 0
    then Sign.none
    else if not (mem tmp1 == mem tmp2)
    then if ltb (mem s2) (mem s1) then positive else negative
    else later

unfoldable pub memcmp : ℕ → ℕ → ℕ → Memory → Outcome Sign
memcmp s1 s2 n mem = do
  assert (not (s1 == 0))
  assert (not (s2 == 0))
  returns (memcmp_loop n s1 s2 s1 s2 mem)
