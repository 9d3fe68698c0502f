-- ===== src/Klib/Tests.antt =====
-- Runs of abstract-machine/klib/src/string.c on a memory whose byte at `a` is the low byte of `a`,
-- and on one with strings at 100 and 200.
use oslab.Prelude.{
  ◌≡◌, refl, arith, inl, inr, returns, [], ◌∷◌, ◌%◌, if◌then◌else◌, ◌==◌, update, ℕ, false, ◌≤◌,
  ◌+◌,
}
use oslab.Klib.Stdio.{number, digit, vsprintf}
use oslab.Klib.Stdlib.{atoi}
use oslab.Klib.Decimal.{atoi-vsprintf}
use oslab.Klib.Mem.{Memory, memcpy, memmove, memset, negative}
use oslab.Klib.Mem.Copy.{memcpy_lem, memmove_behind, memmove_before, memmove_lem, memset_lem}
use oslab.Klib.Str.{strlen, strcpy, strcmp}
use oslab.Klib.Str.Laws.{Chars, strlen_lem, strcpy_lem, strcmp_lem}

abbrev bytes : Memory
bytes a = a % 256

memcpy_lem_example : memcpy 10 20 5 bytes 12 ≡ 22
memcpy_lem_example = memcpy_lem 10 20 5 12 bytes (inl (omega arith))

memmove_behind_example :
    (mem' : Memory) × (memmove 22 20 5 bytes ≡ returns mem') × (mem' 25 ≡ bytes 21)
memmove_behind_example = memmove_behind 20 2 5 3 bytes (omega arith) (omega arith) (omega arith)

memmove_before_example :
    (mem' : Memory) × (memmove 20 22 5 bytes ≡ returns mem') × (mem' 21 ≡ bytes 25)
memmove_before_example = memmove_before 20 2 5 3 bytes (omega arith) (omega arith) (omega arith)

memmove_lem_example : (mem' : Memory) × (memmove 10 20 5 bytes ≡ returns mem') × (mem' 12 ≡ 22)
memmove_lem_example =
    memmove_lem 10 20 5 12 bytes (omega arith) (omega arith) (omega arith) (inl (omega arith))

memset_lem_example : memset 10 300 5 bytes 12 ≡ 44
memset_lem_example = memset_lem 10 300 5 12 bytes

-- "ab" at 100 and "ac" at 200.
abbrev strings : Memory
strings a =
    if a == 100
    then 97
    else if a == 101
    then 98
    else if a == 200
    then 97
    else if a == 201
    then 99
    else 0

ab-Chars : Chars strings 100 (97 ∷ 98 ∷ [])
ab-Chars = (refl, omega arith, (refl, omega arith, refl))

ac-Chars : Chars strings 200 (97 ∷ 99 ∷ [])
ac-Chars = (refl, omega arith, (refl, omega arith, refl))

strlen_lem_example : strlen 3 100 strings ≡ returns 2
strlen_lem_example = strlen_lem 3 100 strings (97 ∷ 98 ∷ []) (omega arith) ab-Chars (omega arith)

strcpy_lem_example :
    (mem' : Memory) × (strcpy 3 300 100 strings ≡ returns mem')
    × Chars mem' 300 (97 ∷ 98 ∷ [])
    × (mem' 200 ≡ 97)
strcpy_lem_example =
    strcpy_lem 3 300 100 200 strings (97 ∷ 98 ∷ []) (omega arith) (omega arith) ab-Chars
      (omega arith) (inr (omega arith))

strcmp_lem_example : strcmp 3 100 200 strings ≡ returns negative
strcmp_lem_example =
    strcmp_lem 3 100 200 strings (97 ∷ 98 ∷ []) (97 ∷ 99 ∷ []) (omega arith) (omega arith) ab-Chars
      ac-Chars (omega arith, (omega arith, tt)) (omega arith, (omega arith, tt)) (omega arith)

-- The format "%d" at 100.
abbrev format : Memory
format = update (update (λ a. 0) 100 37) 101 100

atoi-vsprintf_example :
    (len : ℕ) × (mem' : Memory) × (vsprintf 3 200 100 (number false 2022 ∷ []) format
      ≡ returns (len, mem'))
    × (len ≤ 10)
    × (mem' (200 + len) ≡ 0)
    × (atoi 12 200 mem' ≡ returns 2022)
atoi-vsprintf_example =
    atoi-vsprintf 2022 200 100 format (omega arith) refl refl refl (inl (omega arith))

-- The case 'x' prints the digit 10 as ':'.
hex_digit : digit false 10 ≡ 58
unfolding digit
hex_digit = refl
