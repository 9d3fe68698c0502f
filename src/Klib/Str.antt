-- ===== src/Klib/Str.antt =====
-- The string functions of abstract-machine/klib/src/string.c. A loop is given fuel, and `none` says
-- that it ran out; `Klib.Str.Laws` says how much a terminated string needs. The assertions on null
-- pointers are in front of each loop; a string that is not terminated is read on and on.
pub mod Laws
use oslab.Prelude.{
  ℕ, zero, suc, ◌+◌, ◌%◌, Bool, Option, none, some, ltb, ◌==◌, not, if◌then◌else◌, update, Outcome,
  ◌||◌, assert, ◌>>◌, or_fuel, returns, ◌>>=◌,
}
use oslab.Klib.Mem.{Memory, Sign, negative, positive}

-- `char` is signed on x86: bytes from 128 on stand for negative numbers.
abbrev pub char_lt : ℕ → ℕ → Bool
char_lt a b = ltb ((a + 128) % 256) ((b + 128) % 256)

-- `for(size_t i = 0; ; i++) if(s[i] == '\0') return i;`
unfoldable pub strlen_loop : ℕ → ℕ → ℕ → Memory → Option ℕ
strlen_loop zero i s mem = none
strlen_loop (suc f) i s mem =
    let later = strlen_loop f (i + 1) s mem in if mem (s + i) == 0 then some i else later

unfoldable pub strlen : ℕ → ℕ → Memory → Outcome ℕ
strlen fuel s mem = assert (not (s == 0)) >> or_fuel (strlen_loop fuel 0 s mem)

-- `for(i = 0;;i++) if(src[i] != '\0') dst[i] = src[i]; else { dst[i] = '\0'; return dst; }`
unfoldable pub strcpy_loop : ℕ → ℕ → ℕ → ℕ → Memory → Option Memory
strcpy_loop zero i dst src mem = none
strcpy_loop (suc f) i dst src mem =
    let later = strcpy_loop f (i + 1) dst src (update mem (dst + i) (mem (src + i))) in
    if not (mem (src + i) == 0) then later else some (update mem (dst + i) 0)

unfoldable pub strcpy : ℕ → ℕ → ℕ → Memory → Outcome Memory
strcpy fuel dst src mem = do
  assert (not (dst == 0))
  assert (not (src == 0))
  or_fuel (strcpy_loop fuel 0 dst src mem)

-- `for (i = 0; i < n; i++) dst[i] = src[i];` by the rounds that are left
unfoldable pub strncpy_loop : ℕ → ℕ → ℕ → ℕ → Memory → Memory
strncpy_loop zero i dst src mem = mem
strncpy_loop (suc n) i dst src mem =
    strncpy_loop n (i + 1) dst src (update mem (dst + i) (mem (src + i)))

-- The store behind the loop is at `dst[n]`.
unfoldable pub strncpy : ℕ → ℕ → ℕ → Memory → Outcome Memory
strncpy dst src n mem = do
  assert (not (dst == 0))
  assert (not (src == 0))
  returns (update (strncpy_loop n 0 dst src mem) (dst + n) 0)

-- The first loop of `strcat` is that of `strlen`, and the second with the store behind it that of
-- `strcpy`, at `dst + len1`.
unfoldable pub strcat : ℕ → ℕ → ℕ → Memory → Outcome Memory
strcat fuel dst src mem = do
  len1 ← or_fuel (strlen_loop fuel 0 dst mem)
  or_fuel (strcpy_loop fuel 0 (dst + len1) src mem)

-- The tests behind the loop of `strcmp`.
unfoldable pub strcmp_end : ℕ → ℕ → Sign
strcmp_end a b =
    if (a == 0) || char_lt a b
    then negative
    else if (b == 0) || char_lt b a
    then positive
    else Sign.none

unfoldable pub strcmp_loop : ℕ → ℕ → ℕ → Memory → Option Sign
strcmp_loop zero tmp1 tmp2 mem = none
strcmp_loop (suc f) tmp1 tmp2 mem =
    let later = strcmp_loop f (tmp1 + 1) (tmp2 + 1) mem in
    if mem tmp1 == mem tmp2
    then if mem tmp1 == 0 then some Sign.none else later
    else some (strcmp_end (mem tmp1) (mem tmp2))

unfoldable pub strcmp : ℕ → ℕ → ℕ → Memory → Outcome Sign
strcmp fuel s1 s2 mem = do
  assert (not (s1 == 0))
  assert (not (s2 == 0))
  or_fuel (strcmp_loop fuel s1 s2 mem)

-- `while(*s1 == *s2 && cnt < n)`: the rounds that are left stand for `n - cnt`.
unfoldable pub strncmp_loop : ℕ → ℕ → ℕ → Memory → Sign
strncmp_loop zero s1 s2 mem = Sign.none
strncmp_loop (suc n) s1 s2 mem =
    let later = strncmp_loop n (s1 + 1) (s2 + 1) mem in
    if mem s1 == mem s2 then later else strcmp_end (mem s1) (mem s2)

unfoldable pub strncmp : ℕ → ℕ → ℕ → Memory → Outcome Sign
strncmp s1 s2 n mem = do
  assert (not (s1 == 0))
  assert (not (s2 == 0))
  returns (strncmp_loop n s1 s2 mem)
