-- ===== src/Dev/Tests.antt =====
-- The terminal of two lines of two cells and a display device with a font of bars.
use oslab.Prelude.{
  ℕ, ◌+◌, ◌%◌, ◌<◌, ◌≡◌, refl, arith, Bool, true, returns, List, [], ◌∷◌, ◌++◌, map, All, get_or,
  some, none, ◌≢◌, false, panics, ◌⊎◌,
}
use mathlib.Core.List.{Memᴰ, replicate}
use oslab.Klib.Mem.{Memory}
use oslab.Kmt.{sem_init}
use oslab.Dev.TtyCells.{Tty}
use oslab.Dev.TtyCells.Text.{IsText}
use oslab.Dev.Tty.{Sprite, tty_write}
use oslab.Dev.Video.{Fb, Draw, fb_init, fb_write, font_load, sprite_brk}
use oslab.Dev.Shown.{Glyph, sprite_buffer, text_drawn}
use oslab.Dev.Input.{InputEvent}
use oslab.Dev.TtyTask.{TtyTask, FbWrite, tty_round}
use oslab.Dev.TtyTask.Ready.{IsReady}
use oslab.Dev.TtyTask.Round.{types, AreReady, tty_round-AreReady}
use oslab.Dev.Table.{input_ops, fb_ops, Device, IsNamed, dev_lookup, dev_lookup_first}
use oslab.Klib.Str.Laws.{Chars}

abbrev blank_mem : Memory
blank_mem a = 0

abbrev bars : ℕ → ℕ
bars a = a % 256

abbrev screen : Tty
screen = record {
  lock = sem_init 1;
  cooked = sem_init 0;
  display = 0;
  lines = 2;
  columns = 2;
  size = 4;
  buf = 1000;
  limit = 1032;
  cursor = 1000;
  queue = record { buf = 3000; limit = 4024; front = 3000; rear = 3000 };
  dirty = 2000;
  mem = blank_mem;
}

abbrev display : Fb
display = record {
  sem = sem_init 1;
  info = record {
    width = 640;
    height = 480;
    num_displays = 8;
    current = 0;
    num_textures = 16384;
    num_sprites = 16384;
  };
  textures = 100000;
  mem = font_load 100000 bars blank_mem;
}

fb_init_lem : fb_init 640 480 100000 bars blank_mem ≡ display
unfolding fb_init
fb_init_lem = refl

abbrev hi : List ℕ
hi = 104 ∷ 105 ∷ []

hi-IsText : All IsText hi
hi-IsText = (
  record { no_return = omega arith; no_backspace = omega arith; no_newline = omega arith },
  (record { no_return = omega arith; no_backspace = omega arith; no_newline = omega arith }, tt),
)

text_drawn_example :
    (sprites : List Sprite) × (t' : Tty) × (draws : List Draw) × (fb' : Fb) × (tty_write true hi
        screen
      ≡ returns (sprites, t'))
    × (fb_write sprite_brk (sprite_buffer sprites) display ≡ returns (draws, fb'))
    × ((i : ℕ) (lower : Bool)
        → i < 2
        → (d : Draw) × Memᴰ d draws × Glyph 2 (0 + i) (get_or hi i 0) lower bars d)
text_drawn_example =
    text_drawn true hi screen 0 display bars blank_mem
      (record {
        columns_pos = omega arith;
        counted = refl;
        two_cells = omega arith;
        ends = refl;
        buf_pos = omega arith;
        dirty_pos = omega arith;
      })
      refl refl (omega arith) (omega arith) hi-IsText (omega arith, (omega arith, tt)) refl refl
      refl

-- "input" stands at 20, "fb" at 10 and at 30.
abbrev names : Memory
names a =
    get_or
      (replicate 10 0
        ++ (102 ∷ 98 ∷ [])
        ++ replicate 8 0
        ++ (105 ∷ 110 ∷ 112 ∷ 117 ∷ 116 ∷ [])
        ++ replicate 5 0
        ++ (102 ∷ 98 ∷ []))
      a 0

abbrev input_device : Device
input_device = record { name = 20; id = 1; ptr = 5000; ops = input_ops }

abbrev fb_device : Device
fb_device = record { name = 10; id = 1; ptr = 6000; ops = fb_ops }

abbrev fb_name : List ℕ
fb_name = 102 ∷ 98 ∷ []

fb-IsNamed : (name : ℕ) → name ≢ 0 → Chars names name fb_name → IsNamed 9 names name fb_name
fb-IsNamed name n c = record {
  non_null = n;
  chars = c;
  ascii = (omega arith, (omega arith, tt));
  short = omega arith;
}

dev_lookup_first_example :
    dev_lookup 9 (map some (input_device ∷ []) ++ (some fb_device ∷ none ∷ [])) 30 names
    ≡ returns fb_device
dev_lookup_first_example =
    dev_lookup_first 9 30 names fb_name (input_device ∷ []) fb_device (none ∷ [])
      (fb-IsNamed 30 (omega arith) (refl, omega arith, (refl, omega arith, refl)))
      (
        (
          105 ∷ 110 ∷ 112 ∷ 117 ∷ 116 ∷ [],
          record {
            non_null = omega arith;
            chars = (
              refl,
              omega arith,
              (
                refl,
                omega arith,
                (refl, omega arith, (refl, omega arith, (refl, omega arith, refl))),
              ),
            );
            ascii = ground arith;
            short = omega arith;
          },
          λ e. ground (arith, e),
        ),
        tt,
      )
      (fb-IsNamed 10 (omega arith) (refl, omega arith, (refl, omega arith, refl)))

screen-IsReady : IsReady 0 screen
screen-IsReady = record {
  screen = record {
    layout = record {
      columns_pos = omega arith;
      counted = refl;
      two_cells = omega arith;
      ends = refl;
      buf_pos = omega arith;
      dirty_pos = omega arith;
    };
    cell = 0;
    at = refl;
    cell_lt = omega arith;
  };
  unlocked = refl;
  lines = 0;
  lines_le = omega arith;
  complete = refl;
}

abbrev daemon : TtyTask
daemon = record {
  tty1 = screen;
  tty2 = screen;
  on_second = false;
  show_cursor = true;
  known_time = 5;
}

abbrev key_a : InputEvent
key_a = record { ctrl = 0; alt = 0; word = 97 }

tty_round-AreReady_example :
    ((types key_a ≡ true) × (tty_round 700 key_a daemon ≡ panics))
    ⊎ ((out : List FbWrite) × (s' : TtyTask) × (tty_round 700 key_a daemon ≡ returns (out, s'))
        × AreReady 1 s')
tty_round-AreReady_example =
    tty_round-AreReady 700 key_a daemon (record { first = screen-IsReady; second = screen-IsReady })
      (omega arith)
