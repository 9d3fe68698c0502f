-- ===== src/Dev/TtyCells/Text.antt =====
-- Text that fits on the screen, and what it leaves there.
use oslab.Prelude.{
  ℕ, zero, suc, ◌+◌, ◌-◌, ◌*◌, ◌≤◌, ◌<◌, ◌≡◌, ◌≢◌, refl, ap, ◌∙◌, ◌⊎◌, inl, inr, arith, returns,
  List, [], ◌∷◌, length, All, bind_eq, ◌==◌, false, get_or, if◌then◌else◌, ◌||◌, Bool-cases, ltb,
}
use oslab.Klib.Mem.{Memory}
use oslab.Dev.TtyCells.{Tty, tty_upd_putc, put_char, tty_putc, put_all}
use oslab.Dev.TtyCells.Screen.{IsLayout, two_marks, two_marks_lem, moved-IsLayout}

-- The characters that `tty_putc` puts on the screen.
pub record IsText (ch : ℕ) : Type 0 where
  pub no_return : ch ≢ 13
  pub no_backspace : ch ≢ 8
  pub no_newline : ch ≢ 10

abbrev pub char_at : Tty → Memory → ℕ → ℕ
char_at t mem i = mem (t.buf + 8 * i + 4)

-- The screen after a text at the cell `k`.
pub record Holds (t : Tty) (k : ℕ) (chs : List ℕ) (mem : Memory) : Type 0 where
  pub text : (i : ℕ) → i < length chs → char_at t mem (k + i) ≡ get_or chs i 0
  pub others :
      (i : ℕ) → i < t.size → (i < k) ⊎ (k + length chs ≤ i) → char_at t mem i ≡ char_at t t.mem i
  pub marked : (i : ℕ) → k ≤ i → i ≤ k + length chs → 0 < length chs → mem (t.dirty + i) ≡ 1
  pub marks_kept : (i : ℕ) → i < t.size → t.mem (t.dirty + i) ≡ 1 → mem (t.dirty + i) ≡ 1

module _ (t : Tty) (k : ℕ) (lay : IsLayout t) (at : t.cursor ≡ t.buf + 8 * k) where
  -- A character before the last cell.
  put_char_plain :
      (ch : ℕ)
      → k + 1 < t.size
      → put_char ch t
        ≡ returns (record t { cursor = t.buf + 8 * (k + 1); mem = two_marks k (tty_upd_putc ch t) })
  unfolding put_char tty_upd_putc
  put_char_plain ch lt =
      let n : (t.cursor + 8 == t.limit) ≡ false = ground (arith, at, lay.ends) in
      let t1 : Tty = tty_upd_putc ch t in
      rw n (
        ap returns (
          two_marks_lem k (t1.cursor - 8) t1.cursor t1 (omega (arith, at)) (omega (arith, at))
          ∙ ap (λ (p : ℕ). record t { cursor = p; mem = two_marks k t1 }) {y = t.buf + 8 * (k + 1)}
              (omega (arith, at))))

  tty_putc_plain :
      (ch : ℕ)
      → IsText ch
      → k + 1 < t.size
      → tty_putc ch t
        ≡ returns (record t { cursor = t.buf + 8 * (k + 1); mem = two_marks k (tty_upd_putc ch t) })
  unfolding tty_putc
  tty_putc_plain ch p lt =
      rw (no p.no_return) (rw (no p.no_backspace) (rw (no p.no_newline) (put_char_plain ch lt)))
    where
      no : {a b : ℕ} → a ≢ b → (a == b) ≡ false
      no n = ground arith

  -- What one character writes.
  plain_char :
      (ch i : ℕ)
      → k + 1 < t.size
      → i < t.size
      → t.buf + 8 * t.size ≤ t.dirty
      → char_at t (two_marks k (tty_upd_putc ch t)) i ≡ (if k == i then ch else char_at t t.mem i)
  unfolding tty_upd_putc
  plain_char ch i lt li apart = ground (arith, at)

  plain_mark :
      (ch i : ℕ)
      → k + 1 < t.size
      → i < t.size
      → t.buf + 8 * t.size ≤ t.dirty
      → two_marks k (tty_upd_putc ch t) (t.dirty + i)
        ≡ (if (i == k) || (i == k + 1) then 1 else t.mem (t.dirty + i))
  unfolding tty_upd_putc
  plain_mark ch i lt li apart = ground (arith, at)

-- The characters behind the first one.
text_step :
    (t : Tty) (k ch i : ℕ) (chs : List ℕ) (mem : Memory)
    → char_at t mem k ≡ ch
    → ((j : ℕ) → j < length chs → char_at t mem (k + 1 + j) ≡ get_or chs j 0)
    → i < suc (length chs)
    → char_at t mem (k + i) ≡ get_or (ch ∷ chs) i 0
text_step t k ch zero chs mem e h lt = ap (char_at t mem) {y = k} (omega arith) ∙ e
text_step t k ch (suc i) chs mem e h lt =
    ap (char_at t mem) {y = k + 1 + i} (omega arith) ∙ h i (omega arith)

-- A text that ends before the last cell stands in the cells from the cursor on, leaves the other
-- cells, and marks its own.
pub put_all_text :
    (chs : List ℕ) (t : Tty) (k : ℕ)
    → IsLayout t
    → t.cursor ≡ t.buf + 8 * k
    → k + length chs < t.size
    → t.buf + 8 * t.size ≤ t.dirty
    → All IsText chs
    → (mem : Memory) × (put_all chs t
        ≡ returns (record t { cursor = t.buf + 8 * (k + length chs); mem = mem }))
      × Holds t k chs mem
unfolding put_all
put_all_text [] t k lay at lt apart ps = (
  t.mem,
  ap (λ (p : ℕ). returns (record t { cursor = p })) {y = t.buf + 8 * (k + 0)} (omega (arith, at)),
  record {
    text = λ i li. absurd (omega arith);
    others = λ i li out. refl;
    marked = λ i ge le pos. absurd (omega arith);
    marks_kept = λ i li m. m;
  },
)
put_all_text (ch ∷ chs) t k lay at lt apart ps =
    let mem1 = two_marks k (tty_upd_putc ch t) in
    let t1 : Tty = record t { cursor = t.buf + 8 * (k + 1); mem = mem1 } in
    let ih =
      put_all_text chs t1 (k + 1) (moved-IsLayout t lay (t.buf + 8 * (k + 1)) mem1) refl
        (omega arith) apart ps.1 in
    let h = ih.2 in
    (
      ih.0,
      bind_eq _ (tty_putc_plain t k lay at ch ps.0 (omega arith))
          ∙ ih.1
          ∙ ap (λ (p : ℕ). returns (record t { cursor = p; mem = ih.0 }))
              {y = t.buf + 8 * (k + suc (length chs))} (omega arith),
      record {
        text = λ i li.
            text_step t k ch i chs ih.0
              (h.others k (omega arith) (inl (omega arith))
                ∙ plain_char t k lay at ch k (omega arith) (omega arith) apart
                ∙ ground arith)
              h.text li;
        others = λ i li out.
            h.others i li (ground arith)
            ∙ plain_char t k lay at ch i (omega arith) li apart
            ∙ ground arith;
        marked = λ i ge le pos. elim (Bool-cases (ltb (k + 1) i)) [
          | inl far ↦ h.marked i (ground arith) (omega arith) (ground arith)
          | inr near ↦
              h.marks_kept i (omega arith)
                (plain_mark t k lay at ch i (omega arith) (omega arith) apart ∙ ground arith)
        ];
        marks_kept = λ i li m.
            h.marks_kept i li
              (plain_mark t k lay at ch i (omega arith) li apart ∙ ground (arith, m));
      },
    )
