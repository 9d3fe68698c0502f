-- ===== src/Dev/Tty/Writing.antt =====
-- `tty_write` and `tty_init`: the cursor stays on the screen, the writes stay in the terminal's
-- buffers, and the sprites fit in theirs.
use oslab.Prelude.{
  ℕ, zero, suc, ◌+◌, ◌*◌, ◌/◌, ◌≤◌, ◌<◌, ◌≡◌, refl, sym, ap, ◌∙◌, inl, inr, arith, Bool, returns,
  List, [], ◌∷◌, length, length-append, Bool-cases, ◌==◌, bind_eq, map,
}
use native.Mathlib.Nat.{mul-suc, mul-le-mul}
use mathlib.Core.Path.{subst}
use oslab.Klib.Mem.{Memory, memset}
use oslab.Klib.Mem.Copy.{memset_lem}
use oslab.Kmt.{Sem, sem_init, sem_wait, sem_signal}
use oslab.Dev.TtyCells.{Tty, put_all}
use oslab.Dev.TtyCells.Screen.{SameBeside, relocked-IsLayout}
use oslab.Dev.TtyCells.Bounds.{IsScreen, Drawn, tty_putc-Drawn}
use oslab.Dev.Tty.{
  Sprite, cell_sprites, render_line, render_lines, tty_render, tty_write, tty_init, tty_fresh,
  welcome, welcome_text, glyph,
}
use oslab.Dev.Tty.Typing.{wait_init, signal_init}

Drawn-trans : (t t1 t2 : Tty) → Drawn t t1 → Drawn t1 t2 → Drawn t t2
Drawn-trans t t1 t2 d1 d2 = record {
  kept = d2.kept ∙ ap (λ (u : Tty). record u { cursor = t2.cursor; mem = t2.mem }) d1.kept;
  screen = d2.screen;
  beside = λ a o1 o2.
      subst (λ (u : Tty). SameBeside u t1.mem t2.mem) d1.kept d2.beside a o1 o2 ∙ d1.beside a o1 o2;
}

relocked :
    (t : Tty) (lk : Sem) (mem : Memory) → IsScreen t → IsScreen (record t { lock = lk; mem = mem })
relocked t lk mem scr = record {
  layout = relocked-IsLayout t scr.layout lk t.cursor mem;
  cell = scr.cell;
  at = scr.at;
  cell_lt = scr.cell_lt;
}

put_all-Drawn :
    (chs : List ℕ) (t : Tty) → IsScreen t → (t' : Tty) × (put_all chs t ≡ returns t') × Drawn t t'
unfolding put_all
put_all-Drawn [] t scr = (t, refl, record { kept = refl; screen = scr; beside = λ a o1 o2. refl })
put_all-Drawn (ch ∷ chs) t scr =
    let one = tty_putc-Drawn ch t scr in
    let ih = put_all-Drawn chs one.0 one.2.screen in
    (ih.0, bind_eq _ one.1 ∙ ih.1, Drawn-trans t one.0 ih.0 one.2 ih.2)

render_line-length :
    (b : Bool) (t : Tty) (n p d x y : ℕ) → length (render_line b t n p d x y) ≤ 2 * n
unfolding render_line cell_sprites
render_line-length b t zero p d x y = omega arith
render_line-length b t (suc n) p d x y =
    let ih = render_line-length b t n (p + 8) (d + 1) (x + 1) y in
    elim (Bool-cases (t.mem d == 0)) [
      | inl e ↦ rw e (omega (arith, ih))
      | inr e ↦ rw e (omega (arith, ih))
    ]

render_lines-length :
    (b : Bool) (t : Tty) (n p d y : ℕ) → length (render_lines b t n p d y) ≤ 2 * (t.columns * n)
unfolding render_lines
render_lines-length b t zero p d y = omega arith
render_lines-length b t (suc n) p d y = omega (
  arith,
  length-append (render_line b t t.columns p d 0 y)
      (render_lines b t n (p + 8 * t.columns) (d + t.columns) (y + 1)),
  render_line-length b t t.columns p d 0 y,
  render_lines-length b t n (p + 8 * t.columns) (d + t.columns) (y + 1),
  mul-suc t.columns n,
)

-- Rendering with the lock free sends at most two sprites for each cell, and clears the marks.
render_lem :
    (b : Bool) (t : Tty)
    → IsScreen t
    → t.lock ≡ sem_init 1
    → (sprites : List Sprite) × (t' : Tty) × (tty_render b t ≡ returns (sprites, t'))
      × Drawn t t'
      × (length sprites ≤ 2 * t.size)
      × ((j : ℕ) → j < t.size → t'.mem (t.dirty + j) ≡ 0)
unfolding tty_render
render_lem b t scr free = (
  render_lines b t t.lines t.buf t.dirty 0,
  record t { mem = memset t.dirty 0 t.size t.mem },
  bind_eq _ (ap sem_wait free ∙ wait_init 0)
      ∙ bind_eq _ (signal_init 0 (omega arith))
      ∙ ap
          (λ (lk : Sem). returns (
            render_lines b t t.lines t.buf t.dirty 0,
            record t { lock = lk; mem = memset t.dirty 0 t.size t.mem },
          ))
          (sym free),
  record {
    kept = refl;
    screen = relocked t t.lock (memset t.dirty 0 t.size t.mem) scr;
    beside = λ a o1 o2. memset_lem t.dirty 0 t.size a t.mem ∙ ground arith;
  },
  omega (arith, render_lines-length b t t.lines t.buf t.dirty 0, scr.layout.counted),
  λ j lt. memset_lem t.dirty 0 t.size (t.dirty + j) t.mem ∙ ground arith,
)

-- `tty_write` of any characters on a terminal whose lock is free and whose cursor is on the screen
-- returns: the lock is free again, the cursor is on the screen, only cells and marks are written, all
-- marks are clear, and at most two sprites for each cell are sent, which the sprite buffer holds.
pub tty_write-Drawn :
    (b : Bool) (chs : List ℕ) (t : Tty)
    → IsScreen t
    → t.lock ≡ sem_init 1
    → (sprites : List Sprite) × (t' : Tty) × (tty_write b chs t ≡ returns (sprites, t'))
      × Drawn t t'
      × (length sprites ≤ 2 * t.size)
      × ((j : ℕ) → j < t.size → t'.mem (t.dirty + j) ≡ 0)
unfolding tty_write
tty_write-Drawn b chs t scr free =
    let put =
      put_all-Drawn chs (record t { lock = sem_init 0 }) (relocked t (sem_init 0) t.mem scr) in
    let t1 : Tty = put.0 in
    let t2 : Tty = record t1 { lock = sem_init 1 } in
    let mid : Drawn t t2 = record {
      kept =
          ap (λ (u : Tty). record u { lock = sem_init 1 }) put.2.kept
          ∙ ap (λ (lk : Sem). record t { lock = lk; cursor = t1.cursor; mem = t1.mem }) (sym free);
      screen = relocked t1 (sem_init 1) t1.mem put.2.screen;
      beside = put.2.beside;
    } in
    let ren = render_lem b t2 mid.screen refl in
    (
      ren.0,
      ren.1,
      bind_eq _ (ap sem_wait free ∙ wait_init 0)
          ∙ bind_eq _ put.1
          ∙ bind_eq _
              (ap sem_signal (ap (λ (u : Tty). u.lock) put.2.kept) ∙ signal_init 0 (omega arith))
          ∙ ren.2,
      Drawn-trans t t2 ren.1 mid ren.3,
      subst (λ (u : Tty). length ren.0 ≤ 2 * u.size) mid.kept ren.4,
      subst (λ (u : Tty). (j : ℕ) → j < u.size → ren.1.mem (u.dirty + j) ≡ 0) mid.kept ren.5,
    )

-- `tty_init` on a display of 16 by 16 pixels or more, with non-null buffers, returns with a free lock,
-- the cursor on the screen, an empty queue and all marks clear.
pub tty_init-IsScreen :
    (b : Bool) (id width height buf dirty qbuf : ℕ) (mem : Memory)
    → 16 ≤ width
    → 16 ≤ height
    → 0 < buf
    → 0 < dirty
    → (sprites : List Sprite) × (t : Tty) × (tty_init b id width height buf dirty qbuf mem
        ≡ returns (sprites, t))
      × IsScreen t
      × (t.lock ≡ sem_init 1)
      × (t.queue.front ≡ t.queue.rear)
      × ((j : ℕ) → j < t.size → t.mem (t.dirty + j) ≡ 0)
unfolding tty_init tty_fresh welcome
tty_init-IsScreen b id width height buf dirty qbuf mem wide high bp dp =
    let t0 = tty_fresh id width height buf dirty qbuf mem in
    let w : 2 ≤ width / 8 = omega arith in
    let h : 1 ≤ height / 16 = omega arith in
    let two : 2 ≤ width / 8 * (height / 16) =
      omega (arith, mul-le-mul {n₁ = 2} {m₁ = 1} {n₂ = width / 8} {m₂ = height / 16} w h) in
    let scr : IsScreen t0 = record {
      layout = record {
        columns_pos = omega arith;
        counted = refl;
        two_cells = two;
        ends = refl;
        buf_pos = bp;
        dirty_pos = dp;
      };
      cell = 0;
      at = omega arith;
      cell_lt = omega (arith, two);
    } in
    let wr = tty_write-Drawn b (map glyph welcome_text) t0 scr refl in
    (
      wr.0,
      wr.1,
      wr.2,
      wr.3.screen,
      ap (λ (u : Tty). u.lock) wr.3.kept,
      ap (λ (u : Tty). u.queue.front) wr.3.kept ∙ sym (ap (λ (u : Tty). u.queue.rear) wr.3.kept),
      subst (λ (u : Tty). (j : ℕ) → j < u.size → wr.1.mem (u.dirty + j) ≡ 0) (sym wr.3.kept) wr.5,
    )
