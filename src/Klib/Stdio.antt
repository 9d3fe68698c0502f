-- ===== src/Klib/Stdio.antt =====
-- abstract-machine/klib/src/stdio.c: formatted printing. The format, the strings and the output stand in
-- one memory; an `int` argument is its sign and its magnitude.
use oslab.Prelude.{
  ℕ, zero, suc, ◌+◌, ◌-◌, ◌/◌, ◌%◌, Bool, not, ltb, ◌==◌, if◌then◌else◌, update, Option, none, some,
  Outcome, returns, undefined, no_fuel, or_fuel, ◌>>=◌, ◌>>◌, assert, List, [], ◌∷◌, ◌++◌, length,
  replicate,
}
use oslab.Klib.Mem.{Memory, copy_up}
use oslab.Klib.Str.{strlen}

-- What `va_arg` takes: an `int`, negative or not, or the address of a string.
pub data Arg : Type 0 where
  number : Bool → ℕ → Arg
  string : ℕ → Arg

-- `temp % base + '0'`, where the remainder has the sign of `temp`.
unfoldable pub digit : Bool → ℕ → ℕ
digit neg d = if neg then 48 - d else 48 + d

-- `for(i = 0; temp != 0; i++) { buf[i] = temp % base + '0'; temp = temp / base; }`: the characters of
-- `buf`, the last one first, before `acc`.
unfoldable pub digits : ℕ → ℕ → Bool → ℕ → List ℕ → Option (List ℕ)
digits zero base neg temp acc = none
digits (suc fuel) base neg temp acc =
    let more = digits fuel base neg (temp / base) (digit neg (temp % base) ∷ acc) in
    if temp == 0 then some acc else more

-- `*str++ = c` for each of the characters
unfoldable pub emit : List ℕ → ℕ → Memory → ℕ × Memory
emit [] str mem = (str, mem)
emit (c ∷ cs) str mem = emit cs (str + 1) (update mem str c)

-- The cases 'd' and 'x'; an `int` has at most 10 digits, so 32 rounds are enough.
unfoldable pub put_int : ℕ → Bool → ℕ → ℕ → Memory → Outcome (ℕ × Memory)
put_int base neg temp str mem =
    if temp == 0
    then returns (str + 1, update mem str 48)
    else (do buf ← or_fuel (digits 32 base neg temp []); returns (emit buf str mem))

-- The case '0': the digits, filled up with zeros to `len` characters.
unfoldable pub put_padded : ℕ → ℕ → Bool → ℕ → ℕ → Memory → Outcome (ℕ × Memory)
put_padded len base neg temp str mem = do
  buf ← or_fuel (digits 32 base neg temp [])
  returns (emit (replicate (len - length buf) 48 ++ buf) str mem)

-- `*fmt - '0'`; below 0, and for the bytes that are negative as a `char`, it pads as little as 0 does.
unfoldable pub width : ℕ → ℕ
width c = if ltb c 128 then c - 48 else 0

-- What a directive leaves: the format pointer at the last character that it has read, the arguments
-- that are left, the output pointer and the memory.
abbrev pub After : Type 0
After = ℕ × List Arg × ℕ × Memory

-- The cases that print a number with `put`.
unfoldable pub take_int :
    (Bool → ℕ → ℕ → Memory → Outcome (ℕ × Memory)) → ℕ → List Arg → ℕ → Memory → Outcome After
take_int put fmt [] str mem = undefined
take_int put fmt (string s ∷ args) str mem = undefined
take_int put fmt (number neg temp ∷ args) str mem = do
  (str1, mem1) ← put neg temp str mem
  returns (fmt, args, str1, mem1)

unfoldable pub take_string : ℕ → ℕ → List Arg → ℕ → Memory → Outcome After
take_string fuel fmt [] str mem = undefined
take_string fuel fmt (number neg temp ∷ args) str mem = undefined
take_string fuel fmt (string s ∷ args) str mem = do
  len ← strlen fuel s mem
  returns (fmt, args, str + len, copy_up len str s mem)

-- The switch on the character at `fmt`, behind the '%': 's' is 115, 'd' 100, 'x' 120, '0' 48, '\\' 92,
-- 'n' 110 and '\n' 10.
unfoldable pub directive : ℕ → ℕ → List Arg → ℕ → Memory → Outcome After
directive fuel fmt args str mem =
    if mem fmt == 115
    then take_string fuel fmt args str mem
    else if mem fmt == 100
    then take_int (put_int 10) fmt args str mem
    else if mem fmt == 120
    then take_int (put_int 16) fmt args str mem
    else if mem fmt == 48
    then (if mem (fmt + 2) == 100
        then take_int (put_padded (width (mem (fmt + 1))) 10) (fmt + 2) args str mem
        else if mem (fmt + 2) == 120
        then take_int (put_padded (width (mem (fmt + 1))) 16) (fmt + 2) args str mem
        else returns (fmt + 2, args, str, mem))
    else if mem fmt == 92
    then returns (
      fmt + 1,
      args,
      str + 1,
      update mem str (if mem (fmt + 1) == 110 then 10 else mem (fmt + 1)),
    )
    else returns (fmt, args, str, mem)

-- The loop over the format, one round of fuel for each of its characters and directives; the strings
-- get as much.
unfoldable pub format_loop : ℕ → ℕ → List Arg → ℕ → Memory → Outcome (ℕ × Memory)
format_loop zero fmt args str mem = no_fuel
format_loop (suc fuel) fmt args str mem =
    let plain = format_loop fuel (fmt + 1) args (str + 1) (update mem str (mem fmt)) in
    if mem fmt == 0 then returns (str, mem) else if not (mem fmt == 37) then plain else (do
      (fmt1, args1, str1, mem1) ← directive fuel (fmt + 1) args str mem
      format_loop fuel (fmt1 + 1) args1 str1 mem1)

-- The number of the characters written, and the memory.
unfoldable pub vsprintf : ℕ → ℕ → ℕ → List Arg → Memory → Outcome (ℕ × Memory)
vsprintf fuel out fmt args mem = do
  (str, mem1) ← format_loop fuel fmt args out mem
  returns (str - out, update mem1 str 0)

abbrev pub sprintf : ℕ → ℕ → ℕ → List Arg → Memory → Outcome (ℕ × Memory)
sprintf = vsprintf

-- The loop of `printf`, which passes the terminator to `putch` as well.
unfoldable pub sent : ℕ → ℕ → Memory → List ℕ
sent zero p mem = []
sent (suc n) p mem = mem p ∷ sent n (p + 1) mem

-- `buf` is the address of the local buffer of 1025 bytes; the characters go to `putch`.
unfoldable pub printf : ℕ → ℕ → ℕ → List Arg → Memory → Outcome (ℕ × List ℕ)
printf fuel buf fmt args mem = do
  assert (not (fmt == 0))
  (i, mem1) ← vsprintf fuel buf fmt args mem
  returns (i, sent (i + 1) buf mem1)
