-- ===== src/Ring/Rotate.antt =====
-- A ring can be read from each of its nodes on.
use oslab.Prelude.{ℕ, ◌≡◌, List, [], ◌∷◌, ◌++◌, false, refl, has, Distinct, ◌||◌, arith}
use oslab.Ring.{Seg, IsRing}

pub has-append : (a : ℕ) (xs ys : List ℕ) → has a (xs ++ ys) ≡ (has a xs || has a ys)
has-append a [] ys = refl
has-append a (x ∷ xs) ys = ground (arith, has-append a xs ys)

Distinct-middle :
    (x : ℕ) (ys xs : List ℕ)
    → has x (ys ++ xs) ≡ false
    → Distinct (ys ++ xs)
    → Distinct (ys ++ x ∷ xs)
Distinct-middle x [] xs n d = (n, d)
Distinct-middle x (y ∷ ys) xs n d = (
  ground (arith, has-append y ys xs, has-append y ys (x ∷ xs)),
  Distinct-middle x ys xs (ground arith) d.1,
)

pub append_nil : (xs : List ℕ) → xs ++ [] ≡ xs
append_nil [] = refl
append_nil (x ∷ xs) = rw (append_nil xs)

pub Distinct-swap : (xs ys : List ℕ) → Distinct (xs ++ ys) → Distinct (ys ++ xs)
Distinct-swap [] ys d = rw (append_nil ys) d
Distinct-swap (x ∷ xs) ys d =
    Distinct-middle x ys xs (ground (arith, has-append x xs ys, has-append x ys xs))
      (Distinct-swap xs ys d.1)

module _ (next prev : ℕ → ℕ) where
  pub Seg-split :
      (p q t : ℕ) (xs ys : List ℕ)
      → Seg next prev p (xs ++ t ∷ ys) q
      → Seg next prev p xs t × Seg next prev t ys q
  Seg-split p q t [] ys s = s
  Seg-split p q t (x ∷ xs) ys (l, s) = let (a, b) = Seg-split x q t xs ys s in ((l, a), b)

  pub Seg-join :
      (p q t : ℕ) (xs ys : List ℕ)
      → Seg next prev p xs t
      → Seg next prev t ys q
      → Seg next prev p (xs ++ t ∷ ys) q
  Seg-join p q t [] ys a b = (a, b)
  Seg-join p q t (x ∷ xs) ys (l, a) b = (l, Seg-join x q t xs ys a b)

module _ {next prev : ℕ → ℕ} where
  pub rotate-IsRing :
      {h t : ℕ} (xs ys : List ℕ)
      → IsRing next prev h (xs ++ t ∷ ys)
      → IsRing next prev t (ys ++ h ∷ xs)
  rotate-IsRing {h} {t} xs ys r =
      let (a, b) = Seg-split next prev h h t xs ys r.seg in
      record {
        seg = Seg-join next prev t t h ys xs b a;
        distinct = Distinct-swap (h ∷ xs) (t ∷ ys) r.distinct;
      }

  -- The links of the first node.
  pub IsRing-next : {h y : ℕ} {ys : List ℕ} → IsRing next prev h (y ∷ ys) → next h ≡ y
  IsRing-next r = r.seg.0.0
