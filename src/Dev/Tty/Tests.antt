-- ===== src/Dev/Tty/Tests.antt =====
-- A terminal of two lines of two cells.
use oslab.Prelude.{
  ℕ, ◌+◌, ◌-◌, ◌*◌, ◌%◌, ◌≤◌, ◌<◌, ◌≡◌, refl, arith, true, returns, List, [], ◌∷◌, length, All,
}
use oslab.Klib.Mem.{Memory}
use oslab.Kmt.{sem_init}
use oslab.Dev.TtyQueue.{tty_pop_back}
use oslab.Dev.TtyCells.{Tty, tty_upd_scrollup}
use oslab.Dev.TtyCells.Screen.{IsLayout}
use oslab.Dev.TtyCells.Bounds.{IsScreen, Drawn}
use oslab.Dev.TtyCells.Scroll.{scroll_repeats}
use oslab.Dev.Tty.{Sprite, tty_read, tty_write, tty_init}
use oslab.Dev.Tty.Typing.{cook_all, IsPlain, IsTyped, tty_read-cook_all}
use oslab.Dev.Tty.Writing.{tty_write-Drawn, tty_init-IsScreen}

abbrev text : Memory
text a = a % 8

abbrev screen : ℕ → Tty
screen cursor = record {
  lock = sem_init 1;
  cooked = sem_init 0;
  display = 0;
  lines = 2;
  columns = 2;
  size = 4;
  buf = 1000;
  limit = 1032;
  cursor = cursor;
  queue = record { buf = 3000; limit = 4024; front = 3000; rear = 3000 };
  dirty = 2000;
  mem = text;
}

layout : (cursor : ℕ) → IsLayout (screen cursor)
layout cursor = record {
  columns_pos = omega arith;
  counted = refl;
  two_cells = omega arith;
  ends = refl;
  buf_pos = omega arith;
  dirty_pos = omega arith;
}

start-IsScreen : IsScreen (screen 1008)
start-IsScreen = record { layout = layout 1008; cell = 1; at = refl; cell_lt = omega arith }

start-IsTyped : IsTyped (screen 1000) 0 0 0
start-IsTyped = record {
  unlocked = refl;
  complete = refl;
  queued = record { sized = refl; offset = omega arith; front_at = refl; rear_at = refl };
}

letters-IsPlain : All IsPlain (104 ∷ 105 ∷ [])
letters-IsPlain = (
  record { no_null = omega arith; no_newline = omega arith; no_backspace = omega arith },
  (record { no_null = omega arith; no_newline = omega arith; no_backspace = omega arith }, tt),
)

tty_read-cook_all_example :
    (t1 t2 : Tty) × (cook_all (104 ∷ 105 ∷ 10 ∷ []) (screen 1000) ≡ returns t1)
    × (tty_read 4 2 t1 ≡ returns (104 ∷ 105 ∷ [], t2))
    × IsTyped t2 0 4 0
tty_read-cook_all_example =
    tty_read-cook_all (104 ∷ 105 ∷ []) (screen 1000) 2 0 letters-IsPlain (omega arith) start-IsTyped

tty_write-Drawn_example :
    (sprites : List Sprite) × (t' : Tty) × (tty_write true (65 ∷ 66 ∷ 10 ∷ 67 ∷ []) (screen 1008)
      ≡ returns (sprites, t'))
    × Drawn (screen 1008) t'
    × (length sprites ≤ 8)
    × ((j : ℕ) → j < 4 → t'.mem (2000 + j) ≡ 0)
tty_write-Drawn_example =
    tty_write-Drawn true (65 ∷ 66 ∷ 10 ∷ 67 ∷ []) (screen 1008) start-IsScreen refl

tty_init-IsScreen_example :
    (sprites : List Sprite) × (t : Tty) × (tty_init true 1 640 480 1000 90000 99000 text
      ≡ returns (sprites, t))
    × IsScreen t
    × (t.lock ≡ sem_init 1)
    × (t.queue.front ≡ t.queue.rear)
    × ((j : ℕ) → j < t.size → t.mem (t.dirty + j) ≡ 0)
tty_init-IsScreen_example =
    tty_init-IsScreen true 1 640 480 1000 90000 99000 text (omega arith) (omega arith) (omega arith)
      (omega arith)

scroll_repeats_example :
    (t' : Tty) × (tty_upd_scrollup (screen 1032) ≡ returns t')
    × (t'.mem (1000 + 8 * (2 * 0 + 1) + 4) ≡ text (1000 + 8 * (2 * (2 - 1) + 1) + 4))
scroll_repeats_example =
    scroll_repeats (screen 1032) 0 1 (layout 1032) refl (omega arith) (omega arith) (omega arith)

-- A backspace on a fresh queue whose last byte is not 0 moves `rear` before `front`.
fresh_backspace :
    (tty_pop_back (record { buf = 3000; limit = 4024; front = 3000; rear = 3000 }, text)).1.rear
    ≡ 4023
unfolding tty_pop_back
fresh_backspace = refl
