-- ===== src/Dev/Input/Keyboard.antt =====
-- The keyboard of kernel/src/dev/dev_input.c: `keymap` and `input_keydown`. The key codes are those of
-- the enumeration AM_KEYS in abstract-machine/am/include/amdev.h, in its order.
pub mod Typing
mod Tests
use oslab.Prelude.{
  ℕ, zero, suc, Bool, true, false, ◌==◌, ◌&&◌, ◌||◌, if◌then◌else◌, leb, ltb, List, [], ◌∷◌,
  Outcome, returns, undefined, get_or, not, ◌≡◌, ◌<◌, ◌+◌, arith,
}
use mathlib.Core.Bool.{xor}
use oslab.Kmt.{Cpu}
use oslab.Dev.Input.{InputEvent, Input, event, push_event}

-- `keymap[code][0]` for the codes from 0 on; behind the list, up to 255, the entries are 0.
keymap_plain : List ℕ
keymap_plain =
    0 ∷ 0 ∷ 0 ∷ 0 ∷ 0 ∷ 0 ∷ 0 ∷ 0 ∷ 0 ∷ 0 ∷ 0 ∷ 0 ∷ 0 ∷ 0 ∷ 96 ∷ 49 ∷ 50 ∷ 51 ∷ 52 ∷ 53 ∷ 54 ∷ 55
    ∷ 56 ∷ 57 ∷ 48 ∷ 45 ∷ 61 ∷ 8 ∷ 0 ∷ 113 ∷ 119 ∷ 101 ∷ 114 ∷ 116 ∷ 121 ∷ 117 ∷ 105 ∷ 111 ∷ 112
    ∷ 91 ∷ 93 ∷ 92 ∷ 0 ∷ 97 ∷ 115 ∷ 100 ∷ 102 ∷ 103 ∷ 104 ∷ 106 ∷ 107 ∷ 108 ∷ 59 ∷ 39 ∷ 10 ∷ 0 ∷ 122
    ∷ 120 ∷ 99 ∷ 118 ∷ 98 ∷ 110 ∷ 109 ∷ 44 ∷ 46 ∷ 47 ∷ 0 ∷ 0 ∷ 0 ∷ 0 ∷ 32 ∷ []

-- `keymap[code][1]`
keymap_shifted : List ℕ
keymap_shifted =
    0 ∷ 0 ∷ 0 ∷ 0 ∷ 0 ∷ 0 ∷ 0 ∷ 0 ∷ 0 ∷ 0 ∷ 0 ∷ 0 ∷ 0 ∷ 0 ∷ 126 ∷ 33 ∷ 64 ∷ 35 ∷ 36 ∷ 37 ∷ 94 ∷ 38
    ∷ 42 ∷ 40 ∷ 41 ∷ 95 ∷ 43 ∷ 8 ∷ 0 ∷ 81 ∷ 87 ∷ 69 ∷ 82 ∷ 84 ∷ 89 ∷ 85 ∷ 73 ∷ 79 ∷ 80 ∷ 123 ∷ 125
    ∷ 124 ∷ 0 ∷ 65 ∷ 83 ∷ 68 ∷ 70 ∷ 71 ∷ 72 ∷ 74 ∷ 75 ∷ 76 ∷ 58 ∷ 34 ∷ 10 ∷ 0 ∷ 90 ∷ 88 ∷ 67 ∷ 86
    ∷ 66 ∷ 78 ∷ 77 ∷ 60 ∷ 62 ∷ 63 ∷ 0 ∷ 0 ∷ 0 ∷ 0 ∷ 32 ∷ []

unfoldable pub plain : ℕ → ℕ
unfolding keymap_plain
plain code = get_or keymap_plain code 0

unfoldable pub shifted : ℕ → ℕ
unfolding keymap_shifted
shifted code = get_or keymap_shifted code 0

-- A key that sets or clears a flag of `input_t`, or any other.
pub data Key : Type 0 where
  capslock lctrl rctrl lalt ralt lshift rshift other : Key

unfoldable pub key_of : ℕ → Key
key_of code =
    if code == 42
    then capslock
    else if code == 67
    then lctrl
    else if code == 72
    then rctrl
    else if code == 69
    then lalt
    else if code == 71
    then ralt
    else if code == 55
    then lshift
    else if code == 66
    then rshift
    else other

abbrev pub bit : Bool → ℕ
bit b = if b then 1 else 0

-- The `default` case of the `switch` for a key that goes down, from `if (ch)` on.
unfoldable pub type_key : ℕ → Cpu × Input → Outcome (Cpu × Input)
type_key code (c, inp) =
    let ch = plain code in
    let shift = inp.shift_left || inp.shift_right in
    let ctrl = inp.ctrl_left || inp.ctrl_right in
    let alt = inp.alt_left || inp.alt_right in
    let shift' : Bool = if leb b'a' ch && leb ch b'z' then xor shift inp.capslock else shift in
    if ch == 0
    then returns (c, inp)
    else if ctrl || alt
    then push_event (event (bit ctrl) (bit alt) ch) (c, inp)
    else if shift'
    then push_event (event 0 0 (shifted code)) (c, inp)
    else push_event (event 0 0 ch) (c, inp)

-- A key goes down. A code outside `keymap[256]` is undefined behaviour.
unfoldable pub key_down : Key → ℕ → Cpu × Input → Outcome (Cpu × Input)
key_down capslock code (c, inp) = returns (c, record inp { capslock = not inp.capslock })
key_down lctrl code (c, inp) = returns (c, record inp { ctrl_left = true })
key_down rctrl code (c, inp) = returns (c, record inp { ctrl_right = true })
key_down lalt code (c, inp) = returns (c, record inp { alt_left = true })
key_down ralt code (c, inp) = returns (c, record inp { alt_right = true })
key_down lshift code (c, inp) = returns (c, record inp { shift_left = true })
key_down rshift code (c, inp) = returns (c, record inp { shift_right = true })
key_down other code s = if ltb code 256 then type_key code s else undefined

-- A key comes up.
unfoldable pub key_up : Key → Input → Input
key_up capslock inp = inp
key_up lctrl inp = record inp { ctrl_left = false }
key_up rctrl inp = record inp { ctrl_right = false }
key_up lalt inp = record inp { alt_left = false }
key_up ralt inp = record inp { alt_right = false }
key_up lshift inp = record inp { shift_left = false }
key_up rshift inp = record inp { shift_right = false }
key_up other inp = inp

unfoldable pub input_keydown : Bool → ℕ → Cpu × Input → Outcome (Cpu × Input)
unfolding key_of key_up key_down
input_keydown keydown code (c, inp) =
    if keydown then key_down (key_of code) code (c, inp) else returns (c, key_up (key_of code) inp)
