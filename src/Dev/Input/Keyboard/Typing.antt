-- ===== src/Dev/Input/Keyboard/Typing.antt =====
-- What typing at the keyboard of kernel/src/dev/dev_input.c puts in the queue of events.
use mathlib.Core.Bool.{xor, not}
use oslab.Prelude.{
  ℕ, zero, suc, Bool, true, false, ◌≡◌, arith, ◌&&◌, ◌||◌, refl, leb, ◌<◌, ◌+◌, if◌then◌else◌, ◌-◌,
  ◌==◌,
}
use oslab.Dev.Input.{Input, event, push_event}
use oslab.Dev.Input.Keyboard.{plain, shifted, Key, other, key_of, type_key, input_keydown, key_down}
use oslab.Kmt.{Cpu}

abbrev pub is_letter : ℕ → Bool
is_letter ch = leb b'a' ch && leb ch b'z'

all_below : ℕ → (ℕ → Bool) → Bool
all_below zero p = true
all_below (suc n) p = p n && all_below n p

all_below-at : (n : ℕ) (p : ℕ → Bool) (x : ℕ) → all_below n p ≡ true → x < n → p x ≡ true
unfolding all_below
all_below-at zero p x h lt = absurd (omega arith)
all_below-at (suc n) p x h lt = ground (arith, all_below-at n p x)

is_other : Key → Bool
is_other other = true
is_other k = false

is_other-eq : (k : Key) → is_other k ≡ true → k ≡ other
unfolding is_other
is_other-eq other h = refl
is_other-eq k h = cc

-- The table of the letters: behind a lower case letter stands its capital, and no letter key is a
-- modifier.
letter_entry : ℕ → Bool
letter_entry code =
    not (is_letter (plain code)) || ((shifted code + 32 == plain code) && is_other (key_of code))

letter_table : all_below 256 letter_entry ≡ true
unfolding all_below letter_entry plain shifted key_of is_other
letter_table = refl

letter_lem :
    (code : ℕ)
    → code < 256
    → is_letter (plain code) ≡ true
    → (shifted code + 32 ≡ plain code) × (key_of code ≡ other)
unfolding letter_entry
letter_lem code lt letter =
    ground (arith, all_below-at 256 letter_entry code letter_table lt, is_other-eq (key_of code))

-- A letter key that goes down while no control and no alternate key is held queues one event: the
-- capital if exactly one of a shift key and the caps lock is on, else the lower case letter.
pub letter_typed :
    (code : ℕ) (c : Cpu) (inp : Input)
    → code < 256
    → is_letter (plain code) ≡ true
    → (inp.ctrl_left || inp.ctrl_right) ≡ false
    → (inp.alt_left || inp.alt_right) ≡ false
    → input_keydown true code (c, inp)
      ≡ push_event
          (event 0 0 (
            if xor (inp.shift_left || inp.shift_right) inp.capslock
            then plain code - 32
            else plain code))
          (c, inp)
unfolding input_keydown type_key key_down
letter_typed code c inp lt letter no_ctrl no_alt =
    let (e, k) = letter_lem code lt letter in rw k (ground arith)
