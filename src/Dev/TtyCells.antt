-- ===== src/Dev/TtyCells.antt =====
-- kernel/src/dev/dev_tty.c with `tty_t` and `struct character` of kernel/include/devices.h: the state of
-- a terminal and its screen. The cells of the screen, the dirty marks and the typed characters stand in
-- one memory of bytes; a cell has 8 bytes, its character is the fifth.
pub mod Bounds
pub mod Screen
pub mod Text
pub mod Scroll
use oslab.Prelude.{
  ℕ, zero, suc, ◌+◌, ◌-◌, ◌*◌, ◌/◌, ◌%◌, ltb, ◌==◌, if◌then◌else◌, update, Outcome, returns, ◌>>=◌,
  List, [], ◌∷◌, Bool, ◌++◌, ◌&&◌, map, ◌^◌,
}
use oslab.Klib.Mem.{Memory, memmove, memset}
use oslab.Kmt.{Sem, sem_wait, sem_init, sem_signal}
use oslab.Dev.TtyQueue.{TtyQueue, read_line, tty_enqueue, tty_pop_back}

-- `tty_t`, without the pointers to the display device and to the buffer of the sprites, and with the
-- memory that its other pointers lead to. `limit` is the field `end`.
pub record Tty : Type 0 where
  pub lock : Sem
  pub cooked : Sem
  pub display : ℕ
  pub lines : ℕ
  pub columns : ℕ
  pub size : ℕ
  pub buf : ℕ
  pub limit : ℕ
  pub cursor : ℕ
  pub queue : TtyQueue
  pub dirty : ℕ
  pub mem : Memory

-- A cell `tty_defaultch()`: the four bytes of `metadata` and `ch`; the padding stays.
unfoldable pub blank : ℕ → Memory → Memory
unfolding memset
blank p mem = memset p 0 5 mem

unfoldable pub blank_cells : ℕ → ℕ → Memory → Memory
unfolding blank
blank_cells zero p mem = mem
blank_cells (suc n) p mem = blank_cells n (p + 8) (blank p mem)

-- The number of the cell at `p`.
unfoldable pub cell_no : Tty → ℕ → ℕ
cell_no t p = (p - t.buf) / 8

unfoldable pub tty_upd_scrollup : Tty → Outcome Tty
unfolding memmove blank_cells
tty_upd_scrollup t = do
  let move_sz : ℕ = t.columns * (t.lines - 1)
  mem1 ← memmove t.buf (t.buf + 8 * t.columns) (8 * move_sz) t.mem
  mem2 ← memmove t.dirty (t.dirty + t.columns) move_sz mem1
  let cursor : ℕ = t.cursor - 8 * t.columns
  returns (record t { cursor = cursor; mem = blank_cells t.columns cursor mem2 })

unfoldable pub tty_upd_cr : Tty → Tty
unfolding cell_no
tty_upd_cr t = record t { cursor = t.cursor - 8 * (cell_no t t.cursor % t.columns) }

unfoldable pub tty_upd_lf : Tty → Tty
tty_upd_lf t = record t { cursor = t.cursor + 8 * t.columns }

unfoldable pub tty_upd_backsp : Tty → Tty
tty_upd_backsp t =
    if ltb t.buf t.cursor
    then record t { cursor = t.cursor - 8; mem = update t.mem (t.cursor - 8 + 4) 0 }
    else t

unfoldable pub tty_upd_putc : ℕ → Tty → Tty
tty_upd_putc ch t = record t { cursor = t.cursor + 8; mem = update t.mem (t.cursor + 4) ch }

unfoldable pub tty_mark : ℕ → Tty → Tty
unfolding cell_no
tty_mark p t = record t { mem = update t.mem (t.dirty + cell_no t p) 1 }

-- `tty_mark` of as many cells from `p` on
unfoldable pub mark_cells : ℕ → ℕ → Tty → Tty
unfolding tty_mark
mark_cells zero p t = t
mark_cells (suc n) p t = mark_cells n (p + 8) (tty_mark p t)

unfoldable pub tty_mark_line : ℕ → Tty → Tty
unfolding mark_cells cell_no
tty_mark_line p t = mark_cells t.columns (p - 8 * (cell_no t p % t.columns)) t

unfoldable pub tty_mark_all : Tty → Tty
unfolding mark_cells
tty_mark_all t = mark_cells t.size t.buf t

-- The default case of `tty_putc` and its cases `'\n'` (10), `'\b'` (8) and `'\r'` (13).
unfoldable pub put_char : ℕ → Tty → Outcome Tty
unfolding tty_upd_putc tty_upd_scrollup tty_mark_all tty_mark
put_char ch t = do
  let t1 : Tty = tty_upd_putc ch t
  if t1.cursor == t1.limit
      then (do t2 ← tty_upd_scrollup t1; returns (tty_mark_all t2))
      else returns (tty_mark t1.cursor (tty_mark (t1.cursor - 8) t1))

unfoldable pub put_newline : Tty → Outcome Tty
unfolding tty_upd_cr tty_upd_lf tty_upd_scrollup tty_mark_all tty_mark_line
put_newline t = do
  let t1 : Tty = tty_upd_lf (tty_upd_cr t)
  if t1.cursor == t1.limit
      then (do t2 ← tty_upd_scrollup t1; returns (tty_mark_all t2))
      else returns (tty_mark_line t1.cursor (tty_mark_line (t1.cursor - 8 * t1.columns) t1))

unfoldable pub put_backspace : Tty → Tty
unfolding tty_upd_backsp tty_mark
put_backspace t = let t1 = tty_upd_backsp t in tty_mark (t1.cursor + 8) (tty_mark t1.cursor t1)

unfoldable pub put_return : Tty → Tty
unfolding tty_upd_cr tty_mark_line
put_return t = let t1 = tty_upd_cr t in tty_mark_line t1.cursor t1

unfoldable pub tty_putc : ℕ → Tty → Outcome Tty
unfolding put_char put_newline put_backspace put_return
tty_putc ch t =
    if ch == 13
    then returns (put_return t)
    else if ch == 8
    then returns (put_backspace t)
    else if ch == 10
    then put_newline t
    else put_char ch t

-- The loop of `tty_write` over the characters of its buffer.
unfoldable pub put_all : List ℕ → Tty → Outcome Tty
unfolding tty_putc
put_all [] t = returns t
put_all (ch ∷ chs) t = do t1 ← tty_putc ch t; put_all chs t1
