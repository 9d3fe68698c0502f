-- ===== src/Dev/TtyCells/Screen.antt =====
-- The layout of a terminal's screen in the memory, and what the parts of `tty_putc` write to it.
use oslab.Prelude.{
  ℕ, zero, suc, ◌+◌, ◌-◌, ◌*◌, ◌/◌, ◌%◌, ◌≤◌, ◌<◌, ◌≡◌, refl, sym, ap, ◌∙◌, ◌⊎◌, inl, inr, arith,
  returns, update, update_ne, bind_eq, ◌>>=◌, Bool-cases, ◌==◌,
}
use native.Mathlib.Nat.{div-add-mod, mul-suc, mul-le-mul_left, mod-le, div-lt_iff_lt-mul, mul_comm}
use oslab.Klib.Mem.{Memory, memset, copy_down}
use oslab.Klib.Mem.Copy.{memmove_down, copy_down-outside, memset_lem}
use oslab.Dev.TtyCells.{
  Tty, blank, blank_cells, cell_no, tty_upd_scrollup, tty_mark, mark_cells, tty_mark_line,
  tty_mark_all,
}
use oslab.Kmt.{Sem}

-- The two memories agree except on the `n` bytes from `b` on.
abbrev pub SameOutside : ℕ → ℕ → Memory → Memory → Type 0
SameOutside b n mem mem' = (a : ℕ) → (a < b) ⊎ (b + n ≤ a) → mem' a ≡ mem a

-- The two memories agree except on the cells and the marks of the terminal.
abbrev pub SameBeside : Tty → Memory → Memory → Type 0
SameBeside t mem mem' =
    (a : ℕ)
    → (a < t.buf) ⊎ (t.buf + 8 * t.size ≤ a)
    → (a < t.dirty) ⊎ (t.dirty + t.size ≤ a)
    → mem' a ≡ mem a

-- What `tty_init` establishes and no operation changes; a screen has two cells at least.
pub record IsLayout (t : Tty) : Type 0 where
  pub columns_pos : 0 < t.columns
  pub counted : t.size ≡ t.columns * t.lines
  pub two_cells : 2 ≤ t.size
  pub ends : t.limit ≡ t.buf + 8 * t.size
  pub buf_pos : 0 < t.buf
  pub dirty_pos : 0 < t.dirty

-- It does not depend on the lock, the cursor and the memory.
pub relocked-IsLayout :
    (t : Tty) (lay : IsLayout t) (lk : Sem) (p : ℕ) (mem : Memory)
    → IsLayout (record t { lock = lk; cursor = p; mem = mem })
relocked-IsLayout t lay lk p mem = record {
  columns_pos = lay.columns_pos;
  counted = lay.counted;
  two_cells = lay.two_cells;
  ends = lay.ends;
  buf_pos = lay.buf_pos;
  dirty_pos = lay.dirty_pos;
}

pub moved-IsLayout :
    (t : Tty) (lay : IsLayout t) (p : ℕ) (mem : Memory)
    → IsLayout (record t { cursor = p; mem = mem })
moved-IsLayout t lay p mem = relocked-IsLayout t lay t.lock p mem

-- The first cell of a line and the cells of that line are on the screen.
pub line_fits : (k c l : ℕ) → 0 < c → k < c * l → k - k % c + c ≤ c * l
line_fits k c l pos lt =
    let row : k / c < l = (div-lt_iff_lt-mul {x = k} {y = l} pos).1 (omega (arith, mul_comm c l)) in
    let whole : c * suc (k / c) ≤ c * l = mul-le-mul_left {m = suc (k / c)} {n = l} c row in
    omega (arith, whole, mul-suc c (k / c), div-add-mod k c)

pub one_line_less : (c l : ℕ) → 0 < c * l → c * (l - 1) + c ≡ c * l
one_line_less c zero h = absurd (omega arith)
one_line_less c (suc l) h = ap (λ (p : ℕ). c * p + c) {y = l} (omega arith) ∙ sym (mul-suc c l)

-- `tty_mark` of the cell `i`, and of the cells `i` and `i + 1`.
mark_lem :
    (i : ℕ) (t : Tty) → tty_mark (t.buf + 8 * i) t ≡ record t { mem = update t.mem (t.dirty + i) 1 }
unfolding tty_mark cell_no
mark_lem i t = ap (λ (u : ℕ). record t { mem = update t.mem (t.dirty + u) 1 }) {y = i} (omega arith)

abbrev pub two_marks : ℕ → Tty → Memory
two_marks i t = update (update t.mem (t.dirty + i) 1) (t.dirty + i + 1) 1

pub two_marks_lem :
    (i p q : ℕ) (t : Tty)
    → p ≡ t.buf + 8 * i
    → q ≡ t.buf + 8 * (i + 1)
    → tty_mark q (tty_mark p t) ≡ record t { mem = two_marks i t }
two_marks_lem i p q t ep eq =
    ap (λ (a : ℕ). tty_mark q (tty_mark a t)) ep
    ∙ ap (λ u. tty_mark q u) (mark_lem i t)
    ∙ ap (λ (a : ℕ). tty_mark a (record t { mem = update t.mem (t.dirty + i) 1 })) eq
    ∙ mark_lem (i + 1) (record t { mem = update t.mem (t.dirty + i) 1 })
    ∙ ap (λ (a : ℕ). record t { mem = update (update t.mem (t.dirty + i) 1) a 1 })
        {y = t.dirty + i + 1} (omega arith)

pub two_marks-outside :
    (i : ℕ) (t : Tty) → i + 1 < t.size → SameOutside t.dirty t.size t.mem (two_marks i t)
two_marks-outside i t lt a out =
    update_ne (update t.mem (t.dirty + i) 1) (t.dirty + i + 1) 1 a (ground arith)
    ∙ update_ne t.mem (t.dirty + i) 1 a (ground arith)

-- Marks are written between `dirty` and `dirty + size`, and a marked cell stays marked.
pub mark_cells_lem :
    (n i : ℕ) (t : Tty)
    → i + n ≤ t.size
    → (mem' : Memory) × (mark_cells n (t.buf + 8 * i) t ≡ record t { mem = mem' })
      × SameOutside t.dirty t.size t.mem mem'
      × ((j : ℕ) → (i ≤ j) × (j < i + n) ⊎ (t.mem (t.dirty + j) ≡ 1) → mem' (t.dirty + j) ≡ 1)
unfolding mark_cells tty_mark cell_no
mark_cells_lem zero i t le = (t.mem, refl, λ a o. refl, λ j h. ground arith)
mark_cells_lem (suc n) i t le =
    let t1 : Tty = record t { mem = update t.mem (t.dirty + i) 1 } in
    let ih = mark_cells_lem n (i + 1) t1 (omega arith) in
    (
      ih.0,
      ap (λ (p : ℕ). mark_cells n p (tty_mark (t.buf + 8 * i) t)) {y = t.buf + 8 * (i + 1)}
            (omega arith)
          ∙ ap
              (λ (u : ℕ).
                mark_cells n (t.buf + 8 * (i + 1))
                  (record t { mem = update t.mem (t.dirty + u) 1 }))
              {y = i} (omega arith)
          ∙ ih.1,
      λ a out. ih.2 a out ∙ update_ne t.mem (t.dirty + i) 1 a (ground arith),
      λ j h. ih.3 j (elim (Bool-cases (t.dirty + i == t.dirty + j)) [
        | inl e ↦ inr (rw e refl)
        | inr n ↦ elim h [ inl r ↦ inl (ground arith) | inr m ↦ inr (rw n m) ]
      ]),
    )

module _ (t : Tty) (lay : IsLayout t) where
  -- The line of the cell `i` is marked, and nothing else is written.
  pub mark_line_lem :
      (i : ℕ)
      → i < t.size
      → (mem' : Memory) × (tty_mark_line (t.buf + 8 * i) t ≡ record t { mem = mem' })
        × SameOutside t.dirty t.size t.mem mem'
  unfolding tty_mark_line cell_no
  mark_line_lem i lt =
      let fits = line_fits i t.columns t.lines lay.columns_pos (omega (arith, lay.counted)) in
      let res = mark_cells_lem t.columns (i - i % t.columns) t (omega (arith, lay.counted)) in
      (
        res.0,
        ap (λ (u : ℕ). mark_cells t.columns (t.buf + 8 * i - 8 * (u % t.columns)) t) {y = i}
              (omega arith)
            ∙ ap (λ (p : ℕ). mark_cells t.columns p t) {y = t.buf + 8 * (i - i % t.columns)}
                (omega (arith, mod-le i t.columns))
            ∙ res.1,
        res.2,
      )

  pub mark_all_lem :
      (mem' : Memory) × (tty_mark_all t ≡ record t { mem = mem' })
      × SameOutside t.dirty t.size t.mem mem'
      × ((j : ℕ) → j < t.size → mem' (t.dirty + j) ≡ 1)
  unfolding tty_mark_all
  mark_all_lem =
      let res = mark_cells_lem t.size 0 t (omega arith) in
      (
        res.0,
        ap (λ (p : ℕ). mark_cells t.size p t) {y = t.buf + 8 * 0} (omega arith) ∙ res.1,
        res.2,
        λ j lt. res.3 j (inl (omega arith, omega arith)),
      )

pub blank_cells-outside :
    (n p a : ℕ) (mem : Memory) → (a < p) ⊎ (p + 8 * n ≤ a) → blank_cells n p mem a ≡ mem a
unfolding blank_cells blank
blank_cells-outside zero p a mem out = refl
blank_cells-outside (suc n) p a mem out =
    blank_cells-outside n (p + 8) a (memset p 0 5 mem) (ground arith)
    ∙ memset_lem p 0 5 a mem
    ∙ ground arith

module _ (t : Tty) (lay : IsLayout t) where
  abbrev pub above : ℕ
  above = t.columns * (t.lines - 1)

  -- The memory after the first copy, and after the scroll.
  abbrev pub lines_moved : Memory
  lines_moved = copy_down (8 * above) t.buf (t.buf + 8 * t.columns) t.mem

  abbrev pub scrolled : Memory
  scrolled =
      blank_cells t.columns (t.buf + 8 * (t.size - t.columns))
        (copy_down above t.dirty (t.dirty + t.columns) lines_moved)

  pub above_lem : above + t.columns ≡ t.size
  above_lem =
      one_line_less t.columns t.lines (omega (arith, lay.counted, lay.two_cells)) ∙ sym lay.counted

  -- With the cursor behind the last cell the screen scrolls: the cursor is at the start of the last
  -- line, and only cells and marks are written.
  pub scrollup_run :
      t.cursor ≡ t.limit
      → tty_upd_scrollup t
        ≡ returns (record t { cursor = t.buf + 8 * (t.size - t.columns); mem = scrolled })
  unfolding tty_upd_scrollup
  scrollup_run at =
      bind_eq _ (
        memmove_down t.buf (t.buf + 8 * t.columns) (8 * above) t.mem lay.buf_pos
          (omega (arith, lay.columns_pos)))
      ∙ bind_eq _ (
          memmove_down t.dirty (t.dirty + t.columns) above lines_moved lay.dirty_pos
            (omega (arith, lay.columns_pos)))
      ∙ ap
          (λ (p : ℕ). returns (record t {
            cursor = p;
            mem =
                blank_cells t.columns p (copy_down above t.dirty (t.dirty + t.columns) lines_moved);
          }))
          {x = t.cursor - 8 * t.columns} (omega (arith, lay.ends, at, above_lem))

  scrolled-beside : SameBeside t t.mem scrolled
  scrolled-beside a o1 o2 =
      blank_cells-outside t.columns (t.buf + 8 * (t.size - t.columns)) a
        (copy_down above t.dirty (t.dirty + t.columns) lines_moved) (ground (arith, above_lem))
      ∙ copy_down-outside above t.dirty (t.dirty + t.columns) a lines_moved
          (ground (arith, above_lem))
      ∙ copy_down-outside (8 * above) t.buf (t.buf + 8 * t.columns) a t.mem
          (ground (arith, above_lem))

  -- The scrolled screen is marked whole.
  pub scroll_all_lem :
      t.cursor ≡ t.limit
      → (mem' : Memory) × ((tty_upd_scrollup t >>= λ t2. returns (tty_mark_all t2))
          ≡ returns (record t { cursor = t.buf + 8 * (t.size - t.columns); mem = mem' }))
        × SameBeside t t.mem mem'
  scroll_all_lem at =
      let all =
        mark_all_lem (record t { cursor = t.buf + 8 * (t.size - t.columns); mem = scrolled })
          (moved-IsLayout t lay (t.buf + 8 * (t.size - t.columns)) scrolled) in
      (
        all.0,
        bind_eq _ (scrollup_run at) ∙ ap returns all.1,
        λ a o1 o2. all.2 a o2 ∙ scrolled-beside a o1 o2,
      )
