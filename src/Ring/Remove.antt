-- ===== src/Ring/Remove.antt =====
-- Unlinking a node from a ring: `kteardown` and `co_wait` do it like this.
use mathlib.Core.Path.{subst}
use oslab.Prelude.{ℕ, ◌≡◌, ◌≢◌, List, [], ◌∷◌, ◌++◌, true, false, has, Distinct, arith, update}
use oslab.Ring.{Seg, IsRing}
use oslab.Ring.Rotate.{rotate-IsRing, append_nil}

-- The last node of a segment leads to another end.
retarget-Seg :
    (next prev : ℕ → ℕ) (y t q : ℕ) (zs : List ℕ)
    → Distinct (y ∷ zs)
    → has q zs ≡ false
    → Seg next prev y zs t
    → Seg (update next (prev t) q) (update prev q (prev t)) y zs q × (has (prev t) (y ∷ zs) ≡ true)
retarget-Seg next prev y t q [] d n s = ((ground arith, ground arith), ground arith)
retarget-Seg next prev y t q (z ∷ zs) d n (l, s) =
    let (s', m) = retarget-Seg next prev z t q zs d.1 (ground arith) s in
    (((ground arith, ground arith), s'), ground arith)

unlink_first :
    {next prev : ℕ → ℕ} {t y : ℕ} {zs : List ℕ}
    → IsRing next prev t (y ∷ zs)
    → IsRing (update next (prev t) (next t)) (update prev (next t) (prev t)) y zs
unlink_first {next} {prev} {t} {y} {zs} r =
    let (l, s) = r.seg in
    record {
      seg = rw l.0 (retarget-Seg next prev y t y zs r.distinct.1 r.distinct.1.0 s).0;
      distinct = r.distinct.1;
    }

-- `t` is not the node that the ring is read from.
pub unlink-IsRing :
    {next prev : ℕ → ℕ} {h : ℕ} (t : ℕ) (xs ys : List ℕ)
    → IsRing next prev h (xs ++ t ∷ ys)
    → IsRing (update next (prev t) (next t)) (update prev (next t) (prev t)) h (xs ++ ys)
unlink-IsRing t xs [] r = rw (append_nil xs) (unlink_first (rotate-IsRing xs [] r))
unlink-IsRing t xs (y ∷ ys) r = rotate-IsRing ys xs (unlink_first (rotate-IsRing xs (y ∷ ys) r))

prev_first : {next prev : ℕ → ℕ} {t y : ℕ} {zs : List ℕ} → IsRing next prev t (y ∷ zs) → prev t ≢ t
prev_first {next} {prev} {t} {y} {zs} r e =
    let m = (retarget-Seg next prev y t y zs r.distinct.1 r.distinct.1.0 r.seg.1).1 in
    absurd (ground (arith, r.distinct.0, subst (λ (u : ℕ). has u (y ∷ zs) ≡ true) e m))

-- A node beside another one is not its own neighbour.
pub prev_other :
    {next prev : ℕ → ℕ} {h : ℕ} (t : ℕ) (xs ys : List ℕ)
    → IsRing next prev h (xs ++ t ∷ ys)
    → prev t ≢ t
prev_other t xs [] r = prev_first (rotate-IsRing xs [] r)
prev_other t xs (y ∷ ys) r = prev_first (rotate-IsRing xs (y ∷ ys) r)
