-- ===== src/Dev/TtyCells/Scroll.antt =====
-- `tty_upd_scrollup` relies on `memmove` to a place before the source, which repeats the last bytes.
use oslab.Prelude.{ℕ, suc, ◌+◌, ◌-◌, ◌*◌, ◌%◌, ◌≤◌, ◌<◌, ◌≡◌, ap, ◌∙◌, inl, arith, returns}
use native.Mathlib.Nat.{
  mul-suc, mod-eq_of_lt, mul-add, mul_assoc, add-mul-mod_self_left, mul-add, mul_assoc,
}
use oslab.Klib.Mem.{copy_down}
use oslab.Klib.Mem.Copy.{copy_down-outside, copy_down_smear}
use oslab.Dev.TtyCells.{Tty, tty_upd_scrollup}
use oslab.Dev.TtyCells.Screen.{
  IsLayout, scrollup_run, scrolled, above, above_lem, lines_moved, blank_cells-outside,
}

split : (c y m l : ℕ) → l ≡ y + 1 + m → c * l ≡ c * y + c + c * m
split c y m l e =
    ap (λ (a : ℕ). c * a) e
    ∙ mul-add c (y + 1) m
    ∙ ap (λ (a : ℕ). a + c * m) (ap (λ (a : ℕ). c * a) {y = suc y} (omega arith) ∙ mul-suc c y)

-- With the cursor behind the last cell, scrolling a screen of two lines at least, with the marks behind
-- the cells, copies the characters of the last line over every line above it.
pub scroll_repeats :
    (t : Tty) (y x : ℕ)
    → IsLayout t
    → t.cursor ≡ t.limit
    → t.buf + 8 * t.size ≤ t.dirty
    → x < t.columns
    → y + 2 ≤ t.lines
    → (t' : Tty) × (tty_upd_scrollup t ≡ returns t')
      × (t'.mem (t.buf + 8 * (t.columns * y + x) + 4)
          ≡ t.mem (t.buf + 8 * (t.columns * (t.lines - 1) + x) + 4))
scroll_repeats t y x lay at apart xc yl =
    let c = t.columns in
    let k = 8 * c in
    let m = t.lines - 1 - (y + 1) in
    let n = 8 * above t lay in
    let off = 8 * (c * y + x) + 4 in
    let r = k - 1 - (8 * x + 4) in
    let rows : c * (t.lines - 1) ≡ c * y + c + c * m = split c y m (t.lines - 1) (omega arith) in
    let km : k * m ≡ 8 * (c * m) = mul_assoc 8 c m in
    let rest : (n - 1 - off) % k ≡ r =
      ap (λ (j : ℕ). j % k) {y = r + k * m} (omega (arith, rows, km))
      ∙ add-mul-mod_self_left r k m
      ∙ mod-eq_of_lt {n = r} (omega (arith, xc)) in
    (
      record t { cursor = t.buf + 8 * (t.size - t.columns); mem = scrolled t lay },
      scrollup_run t lay at,
      blank_cells-outside c (t.buf + 8 * (t.size - c)) (t.buf + 8 * (c * y + x) + 4)
            (copy_down (above t lay) t.dirty (t.dirty + c) (lines_moved t lay))
            (inl (omega (arith, rows, above_lem t lay, xc)))
          ∙ copy_down-outside (above t lay) t.dirty (t.dirty + c) (t.buf + 8 * (c * y + x) + 4)
              (lines_moved t lay) (inl (omega (arith, rows, above_lem t lay, xc)))
          ∙ ap (lines_moved t lay) {y = t.buf + off} (omega arith)
          ∙ copy_down_smear n k t.buf off (n - 1 - off) t.mem (omega (arith, xc))
              (omega (arith, rows, xc))
          ∙ ap t.mem (omega (arith, rest, rows, xc)),
    )
