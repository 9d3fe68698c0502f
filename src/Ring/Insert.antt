-- ===== src/Ring/Insert.antt =====
-- A new node behind the first one of a ring: `kcreate`, `ucreate` and `co_start` link it like this.
use oslab.Prelude.{ℕ, ◌≡◌, ◌≢◌, List, [], ◌∷◌, true, false, has, arith, update}
use oslab.Ring.{IsRing, Seg-frame}

pub spared : (x a : ℕ) (xs : List ℕ) → has x xs ≡ false → has a xs ≡ true → x ≢ a
spared x a xs n m e = cc (n, m, e)

pub insert-IsRing :
    {next prev : ℕ → ℕ} {h : ℕ} {xs : List ℕ} (n : ℕ)
    → IsRing next prev h xs
    → has n (h ∷ xs) ≡ false
    → IsRing (update (update next n (next h)) h n) (update (update prev n h) (next h) n) h (n ∷ xs)
insert-IsRing {next} {prev} {h} {xs = []} n r new = record {
  seg = ((ground arith, ground arith), (ground arith, ground arith));
  distinct = ground arith;
}
insert-IsRing {next} {prev} {h} {xs = y ∷ ys} n r new =
    let (l, s) = r.seg in
    record {
      seg = (
        (ground arith, ground arith),
        (
          (ground arith, ground arith),
          Seg-frame next prev _ _ y h ys
              (λ a m. ground (arith, spared h a (y ∷ ys), spared n a (y ∷ ys)))
              (λ a m. ground (arith, spared n a (h ∷ ys), spared y a (h ∷ ys))) s,
        ),
      );
      distinct = ground arith;
    }
