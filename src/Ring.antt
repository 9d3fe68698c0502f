-- ===== src/Ring.antt =====
-- Doubly linked rings: the tasks of a CPU in the kernel (kernel/src/kmt.c, `next` and `prev`) and the
-- coroutines of libco/co.c (`next` and `front`). A ring is its nodes in order from one of them on.
pub mod Insert
pub mod Rotate
pub mod Remove
pub mod Many
use oslab.Prelude.{ℕ, ◌≡◌, List, [], ◌∷◌, true, false, refl, has, Distinct, ◌==◌, ◌||◌, arith, ◌∙◌}

abbrev pub Link : (ℕ → ℕ) → (ℕ → ℕ) → ℕ → ℕ → Type 0
Link next prev p q = (next p ≡ q) × (prev q ≡ p)

-- From `p` through the nodes `xs` to `q`.
abbrev pub Seg : (ℕ → ℕ) → (ℕ → ℕ) → ℕ → List ℕ → ℕ → Type 0
Seg next prev p [] q = Link next prev p q
Seg next prev p (x ∷ xs) q = Link next prev p x × Seg next prev x xs q

pub record IsRing (next prev : ℕ → ℕ) (h : ℕ) (xs : List ℕ) : Type 0 where
  pub seg : Seg next prev h xs h
  pub distinct : Distinct (h ∷ xs)

-- A segment survives a change of the links that spares its own.
pub Seg-frame :
    (next prev next' prev' : ℕ → ℕ) (p q : ℕ) (xs : List ℕ)
    → ((a : ℕ) → has a (p ∷ xs) ≡ true → next' a ≡ next a)
    → ((a : ℕ) → has a (q ∷ xs) ≡ true → prev' a ≡ prev a)
    → Seg next prev p xs q
    → Seg next' prev' p xs q
Seg-frame next prev next' prev' p q [] n b s = (n p (ground arith) ∙ s.0, b q (ground arith) ∙ s.1)
Seg-frame next prev next' prev' p q (x ∷ xs) n b (l, s) = (
  (n p (ground arith) ∙ l.0, b x (ground arith) ∙ l.1),
  Seg-frame next prev next' prev' x q xs (λ a m. n a (ground arith)) (λ a m. b a (ground arith)) s,
)

-- So a ring does, if its own nodes are spared.
pub IsRing-frame :
    {next prev : ℕ → ℕ} {h : ℕ} {xs : List ℕ} (next' prev' : ℕ → ℕ)
    → IsRing next prev h xs
    → ((a : ℕ) → has a (h ∷ xs) ≡ true → (next' a ≡ next a) × (prev' a ≡ prev a))
    → IsRing next' prev' h xs
IsRing-frame {next} {prev} {h} {xs} next' prev' r same = record {
  seg = Seg-frame next prev next' prev' h h xs (λ a m. (same a m).0) (λ a m. (same a m).1) r.seg;
  distinct = r.distinct;
}
