-- ===== src/Dev/TtyCells/Bounds.antt =====
-- `tty_putc` and the loop of `tty_write` keep the cursor on the screen and write only to the cells and
-- the marks.
use oslab.Prelude.{
  ℕ, ◌+◌, ◌-◌, ◌*◌, ◌%◌, ◌≤◌, ◌<◌, ◌≡◌, refl, ap, ◌∙◌, inl, inr, arith, Outcome, returns, update,
  update_ne, Bool-cases, ◌==◌, ==_iff, ◌>>=◌, if◌then◌else◌, ltb,
}
use native.Mathlib.Nat.{mod-le}
use oslab.Klib.Mem.{Memory}
use oslab.Dev.TtyCells.{
  Tty, cell_no, tty_upd_cr, tty_upd_lf, tty_upd_backsp, tty_upd_putc, tty_upd_scrollup,
  tty_mark_line, tty_mark_all, put_char, put_newline, put_backspace, put_return, tty_putc,
}
use oslab.Dev.TtyCells.Screen.{
  SameBeside, IsLayout, line_fits, mark_line_lem, scroll_all_lem, two_marks, two_marks_lem,
  two_marks-outside, moved-IsLayout,
}

-- The layout is right and the cursor is at a cell of the screen.
pub record IsScreen (t : Tty) : Type 0 where
  pub layout : IsLayout t
  pub cell : ℕ
  pub at : t.cursor ≡ t.buf + 8 * cell
  pub cell_lt : cell < t.size

-- Only the cursor and the memory differ, the cursor is on the screen, and only cells and marks are
-- written.
pub record Drawn (t t' : Tty) : Type 0 where
  pub kept : t' ≡ record t { cursor = t'.cursor; mem = t'.mem }
  pub screen : IsScreen t'
  pub beside : SameBeside t t.mem t'.mem

abbrev Draws : Tty → Outcome Tty → Type 0
Draws t o = (t' : Tty) × (o ≡ returns t') × Drawn t t'

module _ (t : Tty) (lay : IsLayout t) where
  -- A call that leaves the cursor at the cell `k`.
  draws :
      (o : Outcome Tty) (k : ℕ) (mem : Memory)
      → o ≡ returns (record t { cursor = t.buf + 8 * k; mem = mem })
      → k < t.size
      → SameBeside t t.mem mem
      → Draws t o
  draws o k mem eq lt same = (
    record t { cursor = t.buf + 8 * k; mem = mem },
    eq,
    record {
      kept = refl;
      screen = record {
        layout = moved-IsLayout t lay (t.buf + 8 * k) mem;
        cell = k;
        at = refl;
        cell_lt = lt;
      };
      beside = same;
    },
  )

  -- The cursor at the start of its line.
  cr_lem :
      (k : ℕ)
      → t.cursor ≡ t.buf + 8 * k
      → tty_upd_cr t ≡ record t { cursor = t.buf + 8 * (k - k % t.columns) }
  unfolding tty_upd_cr cell_no
  cr_lem k at =
      ap (λ (u : ℕ). record t { cursor = t.cursor - 8 * (u % t.columns) }) {y = k}
        (omega (arith, at))
      ∙ ap (λ (u : ℕ). record t { cursor = u }) {y = t.buf + 8 * (k - k % t.columns)}
          (omega (arith, at, mod-le k t.columns))

  put_return-Draws :
      (k : ℕ) → t.cursor ≡ t.buf + 8 * k → k < t.size → Draws t (returns (put_return t))
  unfolding put_return
  put_return-Draws k at lt =
      let i = k - k % t.columns in
      let ln =
        mark_line_lem (record t { cursor = t.buf + 8 * i })
          (moved-IsLayout t lay (t.buf + 8 * i) t.mem) i (omega arith) in
      draws (returns (put_return t)) i ln.0
        (ap (λ (t1 : Tty). returns (tty_mark_line t1.cursor t1)) (cr_lem k at) ∙ ap returns ln.1)
        (omega arith) (λ a o1 o2. ln.2 a o2)

  put_newline-Draws : (k : ℕ) → t.cursor ≡ t.buf + 8 * k → k < t.size → Draws t (put_newline t)
  unfolding put_newline tty_upd_lf
  put_newline-Draws k at lt =
      let i = k - k % t.columns in
      let fits : i + t.columns ≤ t.size = omega (
        arith,
        line_fits k t.columns t.lines lay.columns_pos (omega (arith, lay.counted)),
        lay.counted,
      ) in
      let t1 : Tty = record t { cursor = t.buf + 8 * i + 8 * t.columns } in
      let rest : Tty → Outcome Tty = λ u.
        if u.cursor == u.limit
        then (tty_upd_scrollup u >>= λ t2. returns (tty_mark_all t2))
        else returns (tty_mark_line u.cursor (tty_mark_line (u.cursor - 8 * u.columns) u)) in
      let step : put_newline t ≡ rest t1 = ap (λ u. rest (tty_upd_lf u)) (cr_lem k at) in
      elim (Bool-cases (t1.cursor == t1.limit)) [
        | inl e ↦
            (let sc =
                scroll_all_lem t1 (moved-IsLayout t lay t1.cursor t.mem)
                  ((==_iff t1.cursor t1.limit).0 e) in
              draws (put_newline t) (t.size - t.columns) sc.0 (step ∙ rw e sc.1)
                (omega (arith, lay.columns_pos, lay.two_cells)) sc.2)
        | inr n ↦
            (let l1 = mark_line_lem t1 (moved-IsLayout t lay t1.cursor t.mem) i (omega arith) in
              let t2 : Tty = record t1 { mem = l1.0 } in
              let l2 =
                mark_line_lem t2 (moved-IsLayout t lay t1.cursor l1.0) (i + t.columns)
                  (ground (arith, fits, lay.ends)) in
              draws (put_newline t) (i + t.columns) l2.0
                (step
                  ∙ rw n (
                      ap (λ (p : ℕ). returns (tty_mark_line t1.cursor (tty_mark_line p t1)))
                        {y = t.buf + 8 * i} (omega arith)
                      ∙ ap (λ u. returns (tty_mark_line t1.cursor u)) l1.1
                      ∙ ap (λ (p : ℕ). returns (tty_mark_line p t2))
                          {y = t.buf + 8 * (i + t.columns)} (omega arith)
                      ∙ ap returns l2.1
                      ∙ ap (λ (p : ℕ). returns (record t { cursor = p; mem = l2.0 }))
                          {y = t.buf + 8 * (i + t.columns)} (omega arith)))
                (ground (arith, fits, lay.ends)) (λ a o1 o2. l2.2 a o2 ∙ l1.2 a o2))
      ]

  put_backspace-Draws :
      (k : ℕ) → t.cursor ≡ t.buf + 8 * k → k < t.size → Draws t (returns (put_backspace t))
  unfolding put_backspace tty_upd_backsp
  put_backspace-Draws k at lt = elim (Bool-cases (ltb t.buf t.cursor)) [
    | inl e ↦
        (let t1 : Tty = record t {
          cursor = t.buf + 8 * (k - 1);
          mem = update t.mem (t.cursor - 8 + 4) 0;
        } in
          draws (returns (put_backspace t)) (k - 1) (two_marks (k - 1) t1)
            (rw e (
              ap returns (
                two_marks_lem (k - 1) (t.cursor - 8) (t.cursor - 8 + 8)
                  (record t1 { cursor = t.cursor - 8 }) (ground (arith, at)) (ground (arith, at))
                ∙ ap (λ (p : ℕ). record t { cursor = p; mem = two_marks (k - 1) t1 })
                    {y = t.buf + 8 * (k - 1)} (ground (arith, at)))))
            (omega arith)
            (λ a o1 o2.
              two_marks-outside (k - 1) t1 (ground (arith, at)) a o2
              ∙ update_ne t.mem (t.cursor - 8 + 4) 0 a (ground (arith, at))))
    | inr n ↦
        draws (returns (put_backspace t)) 0 (two_marks 0 t)
          (rw n (
            ap returns (
              two_marks_lem 0 t.cursor (t.cursor + 8) t (ground (arith, at)) (ground (arith, at))
              ∙ ap (λ (p : ℕ). record t { cursor = p; mem = two_marks 0 t }) {y = t.buf + 8 * 0}
                  (ground (arith, at)))))
          (omega arith) (λ a o1 o2. two_marks-outside 0 t (omega (arith, lay.two_cells)) a o2)
  ]

  put_char-Draws : (ch k : ℕ) → t.cursor ≡ t.buf + 8 * k → k < t.size → Draws t (put_char ch t)
  unfolding put_char tty_upd_putc
  put_char-Draws ch k at lt =
      let t1 : Tty = tty_upd_putc ch t in
      elim (Bool-cases (t1.cursor == t1.limit)) [
        | inl e ↦
            (let sc =
                scroll_all_lem t1 (moved-IsLayout t lay t1.cursor t1.mem)
                  ((==_iff t1.cursor t1.limit).0 e) in
              draws (put_char ch t) (t.size - t.columns) sc.0 (rw e sc.1)
                (omega (arith, lay.columns_pos, lay.two_cells))
                (λ a o1 o2.
                  sc.2 a o1 o2 ∙ update_ne t.mem (t.cursor + 4) ch a (ground (arith, at))))
        | inr n ↦
            draws (put_char ch t) (k + 1) (two_marks k t1)
              (rw n (
                ap returns (
                  two_marks_lem k (t1.cursor - 8) t1.cursor t1 (omega (arith, at))
                    (omega (arith, at))
                  ∙ ap (λ (p : ℕ). record t { cursor = p; mem = two_marks k t1 })
                      {y = t.buf + 8 * (k + 1)} (omega (arith, at)))))
              (ground (arith, at, lay.ends))
              (λ a o1 o2.
                two_marks-outside k t1 (ground (arith, at, lay.ends)) a o2
                ∙ update_ne t.mem (t.cursor + 4) ch a (ground (arith, at)))
      ]

-- `tty_putc` of any character returns, keeps the cursor on the screen and the layout, and writes only to cells and marks.
pub tty_putc-Drawn : (ch : ℕ) (t : Tty) → IsScreen t → Draws t (tty_putc ch t)
unfolding tty_putc
tty_putc-Drawn ch t scr = elim (Bool-cases (ch == 13)) [
  | inl e ↦ rw e (put_return-Draws t scr.layout scr.cell scr.at scr.cell_lt)
  | inr n1 ↦ elim (Bool-cases (ch == 8)) [
    | inl e ↦ rw n1 (rw e (put_backspace-Draws t scr.layout scr.cell scr.at scr.cell_lt))
    | inr n2 ↦ elim (Bool-cases (ch == 10)) [
      | inl e ↦ rw n1 (rw n2 (rw e (put_newline-Draws t scr.layout scr.cell scr.at scr.cell_lt)))
      | inr n3 ↦ rw n1 (rw n2 (rw n3 (put_char-Draws t scr.layout ch scr.cell scr.at scr.cell_lt)))
    ]
  ]
]
