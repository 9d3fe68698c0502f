-- ===== src/Dev/Tty.antt =====
-- kernel/src/dev/dev_tty.c with `struct sprite` of kernel/include/devices.h: rendering, the three
-- operations of the terminal device, and the typing of a character.
mod Tests
pub mod Typing
pub mod Writing
pub mod Listed
use oslab.Prelude.{
  ℕ, zero, suc, ◌+◌, ◌-◌, ◌*◌, ◌/◌, ◌%◌, ◌^◌, Bool, ◌&&◌, ◌==◌, if◌then◌else◌, Outcome, returns,
  ◌>>=◌, List, [], ◌∷◌, ◌++◌, map,
}
use oslab.Klib.Mem.{Memory, memset}
use oslab.Kmt.{sem_init, sem_wait, sem_signal}
use oslab.Dev.TtyQueue.{tty_enqueue, tty_pop_back, read_line}
use oslab.Dev.TtyCells.{Tty, blank_cells, put_all}

-- `struct sprite`; `z` is always 0.
pub record Sprite : Type 0 where
  pub texture : ℕ
  pub x : ℕ
  pub y : ℕ
  pub display : ℕ

-- The two sprites of the cell at `p` in column `x` and line `y`, the cursor as a block.
unfoldable pub cell_sprites : Bool → Tty → ℕ → ℕ → ℕ → List Sprite
cell_sprites show_cursor t p x y =
    let draw = if p == t.cursor && show_cursor then 219 else t.mem (p + 4) in
    record {
      texture = (draw * 2 + 1) % 2 ^ 16;
      x = x * 8 % 2 ^ 16;
      y = y * 16 % 2 ^ 16;
      display = t.display % 2 ^ 4;
    }
    ∷ record {
      texture = (draw * 2 + 2) % 2 ^ 16;
      x = x * 8 % 2 ^ 16;
      y = (y * 16 + 8) % 2 ^ 16;
      display = t.display % 2 ^ 4;
    }
    ∷ []

-- The loops of `tty_render` over the columns of a line and over the lines: the sprites of the cells
-- whose mark is set, with `p` and `d` the pointers `ch` and `d`.
unfoldable pub render_line : Bool → Tty → ℕ → ℕ → ℕ → ℕ → ℕ → List Sprite
render_line show_cursor t zero p d x y = []
render_line show_cursor t (suc n) p d x y =
    (if t.mem d == 0 then [] else cell_sprites show_cursor t p x y)
    ++ render_line show_cursor t n (p + 8) (d + 1) (x + 1) y

unfoldable pub render_lines : Bool → Tty → ℕ → ℕ → ℕ → ℕ → List Sprite
unfolding render_line
render_lines show_cursor t zero p d y = []
render_lines show_cursor t (suc n) p d y =
    render_line show_cursor t t.columns p d 0 y
    ++ render_lines show_cursor t n (p + 8 * t.columns) (d + t.columns) (y + 1)

-- The sprites are written to the display device.
unfoldable pub tty_render : Bool → Tty → Outcome (List Sprite × Tty)
unfolding render_lines
tty_render show_cursor t = do
  lk ← sem_wait t.lock
  let sprites : List Sprite = render_lines show_cursor t t.lines t.buf t.dirty 0
  lk' ← sem_signal lk
  returns (sprites, record t { lock = lk'; mem = memset t.dirty 0 t.size t.mem })

-- What `tty_write` sends to the display; it returns `count`, the number of the characters.
unfoldable pub tty_write : Bool → List ℕ → Tty → Outcome (List Sprite × Tty)
unfolding put_all tty_render
tty_write show_cursor chs t = do
  lk ← sem_wait t.lock
  t1 ← put_all chs (record t { lock = lk })
  lk' ← sem_signal t1.lock
  tty_render show_cursor (record t1 { lock = lk' })

-- The `int` that is returned, 0 if the character is to be shown.
unfoldable pub tty_cook : ℕ → Tty → Outcome (ℕ × Tty)
tty_cook ch t = do
  lk ← sem_wait t.lock
  (ret, q, mem, cooked) ←
      (if ch == 10
        then (do
          s1 ← tty_enqueue ch (t.queue, t.mem)
          (q2, mem2) ← tty_enqueue 0 s1
          cooked ← sem_signal t.cooked
          returns (0, q2, mem2, cooked))
        else if ch == 8
        then (let (ret, q1, mem1) = tty_pop_back (t.queue, t.mem) in
            returns (ret, q1, mem1, t.cooked))
        else (do (q1, mem1) ← tty_enqueue ch (t.queue, t.mem); returns (0, q1, mem1, t.cooked)))
  lk' ← sem_signal lk
  returns (ret, record t { lock = lk'; cooked = cooked; queue = q; mem = mem })

-- The characters that are stored in `buf`; `tty_read` returns their number.
unfoldable pub tty_read : ℕ → ℕ → Tty → Outcome (List ℕ × Tty)
unfolding read_line
tty_read fuel count t = do
  cooked ← sem_wait t.cooked
  lk ← sem_wait t.lock
  (line, q) ← read_line fuel count t.mem t.queue
  lk' ← sem_signal lk
  returns (line, record t { cooked = cooked; lock = lk'; queue = q })

-- The switch of `welcome`: the box-drawing characters that the digits stand for.
unfoldable pub glyph : ℕ → ℕ
glyph ch =
    if ch == 49
    then 219
    else if ch == 50
    then 187
    else if ch == 51
    then 205
    else if ch == 52
    then 186
    else if ch == 53
    then 201
    else if ch == 54
    then 188
    else if ch == 55
    then 200
    else ch

abbrev welcome_line1 : List ℕ
welcome_line1 =
    32 ∷ 49 ∷ 49 ∷ 49 ∷ 49 ∷ 49 ∷ 49 ∷ 50 ∷ 32 ∷ 49 ∷ 49 ∷ 49 ∷ 49 ∷ 49 ∷ 49 ∷ 49 ∷ 50 ∷ 49 ∷ 49
    ∷ 50 ∷ 32 ∷ 32 ∷ 32 ∷ 32 ∷ 32 ∷ 32 ∷ 49 ∷ 49 ∷ 49 ∷ 49 ∷ 49 ∷ 50 ∷ 32 ∷ 49 ∷ 49 ∷ 49 ∷ 49 ∷ 49
    ∷ 49 ∷ 50 ∷ 32 ∷ 10 ∷ []

abbrev welcome_line2 : List ℕ
welcome_line2 =
    49 ∷ 49 ∷ 53 ∷ 51 ∷ 51 ∷ 51 ∷ 49 ∷ 49 ∷ 50 ∷ 49 ∷ 49 ∷ 53 ∷ 51 ∷ 51 ∷ 51 ∷ 51 ∷ 54 ∷ 49 ∷ 49
    ∷ 52 ∷ 32 ∷ 32 ∷ 32 ∷ 32 ∷ 32 ∷ 49 ∷ 49 ∷ 53 ∷ 51 ∷ 51 ∷ 49 ∷ 49 ∷ 50 ∷ 49 ∷ 49 ∷ 53 ∷ 51 ∷ 51
    ∷ 49 ∷ 49 ∷ 50 ∷ 10 ∷ []

abbrev welcome_line3 : List ℕ
welcome_line3 =
    49 ∷ 49 ∷ 52 ∷ 32 ∷ 32 ∷ 32 ∷ 49 ∷ 49 ∷ 52 ∷ 49 ∷ 49 ∷ 49 ∷ 49 ∷ 49 ∷ 49 ∷ 49 ∷ 50 ∷ 49 ∷ 49
    ∷ 52 ∷ 32 ∷ 32 ∷ 32 ∷ 32 ∷ 32 ∷ 49 ∷ 49 ∷ 49 ∷ 49 ∷ 49 ∷ 49 ∷ 49 ∷ 52 ∷ 49 ∷ 49 ∷ 49 ∷ 49 ∷ 49
    ∷ 49 ∷ 53 ∷ 54 ∷ 10 ∷ []

abbrev welcome_line4 : List ℕ
welcome_line4 =
    49 ∷ 49 ∷ 52 ∷ 32 ∷ 32 ∷ 32 ∷ 49 ∷ 49 ∷ 52 ∷ 55 ∷ 51 ∷ 51 ∷ 51 ∷ 51 ∷ 49 ∷ 49 ∷ 52 ∷ 49 ∷ 49
    ∷ 52 ∷ 32 ∷ 32 ∷ 32 ∷ 32 ∷ 32 ∷ 49 ∷ 49 ∷ 53 ∷ 51 ∷ 51 ∷ 49 ∷ 49 ∷ 52 ∷ 49 ∷ 49 ∷ 53 ∷ 51 ∷ 51
    ∷ 49 ∷ 49 ∷ 50 ∷ 10 ∷ []

abbrev welcome_line5 : List ℕ
welcome_line5 =
    55 ∷ 49 ∷ 49 ∷ 49 ∷ 49 ∷ 49 ∷ 49 ∷ 53 ∷ 54 ∷ 49 ∷ 49 ∷ 49 ∷ 49 ∷ 49 ∷ 49 ∷ 49 ∷ 52 ∷ 49 ∷ 49
    ∷ 49 ∷ 49 ∷ 49 ∷ 49 ∷ 49 ∷ 50 ∷ 49 ∷ 49 ∷ 52 ∷ 32 ∷ 32 ∷ 49 ∷ 49 ∷ 52 ∷ 49 ∷ 49 ∷ 49 ∷ 49 ∷ 49
    ∷ 49 ∷ 53 ∷ 54 ∷ 10 ∷ []

abbrev welcome_line6 : List ℕ
welcome_line6 =
    32 ∷ 55 ∷ 51 ∷ 51 ∷ 51 ∷ 51 ∷ 51 ∷ 54 ∷ 32 ∷ 55 ∷ 51 ∷ 51 ∷ 51 ∷ 51 ∷ 51 ∷ 51 ∷ 54 ∷ 55 ∷ 51
    ∷ 51 ∷ 51 ∷ 51 ∷ 51 ∷ 51 ∷ 54 ∷ 55 ∷ 51 ∷ 54 ∷ 32 ∷ 32 ∷ 55 ∷ 51 ∷ 54 ∷ 55 ∷ 51 ∷ 51 ∷ 51 ∷ 51
    ∷ 51 ∷ 54 ∷ 32 ∷ 10 ∷ []

-- `welcome_text` up to its last newline.
abbrev pub welcome_text : List ℕ
welcome_text =
    welcome_line1 ++ welcome_line2 ++ welcome_line3 ++ welcome_line4 ++ welcome_line5
    ++ welcome_line6

unfoldable pub welcome : Bool → Tty → Outcome (List Sprite × Tty)
unfolding tty_write glyph
welcome show_cursor t = tty_write show_cursor (map glyph welcome_text) t

-- The state before `welcome`: `width` and `height` are of the display, and `buf`, `dirty` and `qbuf`
-- are what `pmm->alloc` returned.
unfoldable pub tty_fresh : ℕ → ℕ → ℕ → ℕ → ℕ → ℕ → Memory → Tty
unfolding blank_cells memset sem_init
tty_fresh id width height buf dirty qbuf mem =
    let lines = height / 16 in
    let columns = width / 8 in
    record {
      lock = sem_init 1;
      cooked = sem_init 0;
      display = id - 1;
      lines = lines;
      columns = columns;
      size = columns * lines;
      buf = buf;
      limit = buf + 8 * (columns * lines);
      cursor = buf;
      queue = record { buf = qbuf; limit = qbuf + 1024; front = qbuf; rear = qbuf };
      dirty = dirty;
      mem = memset dirty 0 (columns * lines) (blank_cells (columns * lines) buf mem);
    }

unfoldable pub tty_init : Bool → ℕ → ℕ → ℕ → ℕ → ℕ → ℕ → Memory → Outcome (List Sprite × Tty)
unfolding tty_fresh welcome
tty_init show_cursor id width height buf dirty qbuf mem =
    welcome show_cursor (tty_fresh id width height buf dirty qbuf mem)
