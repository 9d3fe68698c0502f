-- ===== src/Dev/Input/Keyboard/Tests.antt =====
-- Runs of kernel/src/dev/dev_input.c on a queue that holds a given number of equal events.
use oslab.Prelude.{
  ℕ, ◌≡◌, refl, arith, returns, panics, spins, [], ◌∷◌, false, ◌+◌, ◌<◌, true, ◌%◌, List, map, ◌++◌,
}
use oslab.Kmt.{Cpu}
use oslab.Dev.Input.{InputEvent, Input, event, push_event, pop_event}
use oslab.Dev.Input.Queue.{IsInput, contents, push_refines, push_full, pop_refines, pop_empty}
use oslab.Dev.Input.Keyboard.{input_keydown, plain, keymap_plain}
use oslab.Dev.Input.Keyboard.Typing.{letter_typed}
use oslab.Dev.Input.Task.{pressed, letter_event, drain_keys, word_typed}

abbrev idle_cpu : Cpu
idle_cpu = record { intenb = false; ienabled = true; nest = 0 }

abbrev key_a : InputEvent
key_a = record { ctrl = 0; alt = 0; word = 97 }

abbrev capital_a : InputEvent
capital_a = record { ctrl = 0; alt = 0; word = 65 }

-- The queue starts at 100; the left shift key is down.
abbrev filled : ℕ → Input
filled n = record {
  lock = record { flag = 0 };
  event_sem = record { lk = record { flag = 0 }; value = n };
  events = λ i. key_a;
  front = 100;
  rear = (100 + n) % 128;
  capslock = false;
  shift_left = true;
  shift_right = false;
  ctrl_left = false;
  ctrl_right = false;
  alt_left = false;
  alt_right = false;
}

filled-IsInput : (n : ℕ) → n < 128 → IsInput idle_cpu (filled n)
filled-IsInput n lt = record {
  idle = refl;
  unlocked = refl;
  sem_unlocked = refl;
  front_lt = omega arith;
  rear_lt = omega arith;
  counted = omega arith;
}

push_refines_example :
    (c' : Cpu) × (inp' : Input) × (push_event capital_a (idle_cpu, filled 2) ≡ returns (c', inp'))
    × IsInput c' inp'
    × (contents inp' ≡ key_a ∷ key_a ∷ capital_a ∷ [])
    × (c'.ienabled ≡ true)
push_refines_example =
    push_refines capital_a idle_cpu (filled 2) (filled-IsInput 2 (omega arith)) (omega arith)

push_full_example : push_event capital_a (idle_cpu, filled 127) ≡ panics
push_full_example =
    push_full capital_a idle_cpu (filled 127) (filled-IsInput 127 (omega arith)) (omega arith)

pop_refines_example :
    (ev : InputEvent) × (c' : Cpu) × (inp' : Input) × (pop_event (idle_cpu, filled 2)
      ≡ returns (ev, c', inp'))
    × IsInput c' inp'
    × (contents (filled 2) ≡ ev ∷ contents inp')
    × (c'.ienabled ≡ true)
pop_refines_example = pop_refines idle_cpu (filled 2) (filled-IsInput 2 (omega arith)) (omega arith)

pop_empty_example : pop_event (idle_cpu, filled 0) ≡ spins
pop_empty_example = pop_empty idle_cpu (filled 0) (filled-IsInput 0 (omega arith)) refl

letter_typed_example :
    input_keydown true 43 (idle_cpu, filled 2) ≡ push_event capital_a (idle_cpu, filled 2)
unfolding plain keymap_plain event mathlib.Core.Bool.xor
letter_typed_example = letter_typed 43 idle_cpu (filled 2) (omega arith) refl refl refl

-- The keys A, S and A again.
abbrev word : List ℕ
word = 43 ∷ 44 ∷ 43 ∷ []

word_typed_example :
    (c' : Cpu) × (inp' : Input) × (drain_keys (map pressed word) (idle_cpu, filled 2)
      ≡ returns (c', inp'))
    × IsInput c' inp'
    × (contents inp' ≡ contents (filled 2) ++ map (letter_event (filled 2)) word)
unfolding plain keymap_plain
word_typed_example =
    word_typed word idle_cpu (filled 2)
      ((omega arith, refl), ((omega arith, refl), ((omega arith, refl), tt)))
      (filled-IsInput 2 (omega arith)) (omega arith) refl refl
