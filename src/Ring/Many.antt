-- ===== src/Ring/Many.antt =====
-- Several rings that share no node, such as the tasks of the CPUs.
use oslab.Prelude.{
  ℕ, ◌<◌, ◌≡◌, ◌≢◌, List, [], ◌∷◌, ◌++◌, true, false, refl, has, ◌==◌, arith, update, ◌∙◌, sym,
  ℕ_discrete, Bool-cases, update_self, inl, update_ne, inr, ==_iff,
}
use oslab.Ring.{Seg, IsRing, IsRing-frame}
use oslab.Ring.Insert.{insert-IsRing}
use oslab.Ring.Rotate.{rotate-IsRing, has-append}
use oslab.Ring.Remove.{unlink-IsRing}
use mathlib.Core.Path.{subst}

-- Ring `i` is read from `heads i` on, and its other nodes are `tasks i`.
pub record AreRings (next prev : ℕ → ℕ) (n : ℕ) (heads : ℕ → ℕ) (tasks : ℕ → List ℕ) : Type 0 where
  pub ring : (i : ℕ) → i < n → IsRing next prev (heads i) (tasks i)
  pub apart :
      (i j a : ℕ)
      → i < n
      → j < n
      → i ≢ j
      → has a (heads i ∷ tasks i) ≡ true
      → has a (heads j ∷ tasks j) ≡ false

last-has :
    (next prev : ℕ → ℕ) (h y : ℕ) (ys : List ℕ)
    → Seg next prev y ys h
    → has (prev h) (y ∷ ys) ≡ true
last-has next prev h y [] s = ground arith
last-has next prev h y (z ∷ zs) s = ground (arith, last-has next prev h z zs s.1)

first-has :
    (next prev : ℕ → ℕ) (h q : ℕ) (xs : List ℕ)
    → Seg next prev h xs q
    → has (next h) (q ∷ xs) ≡ true
first-has next prev h q [] s = ground (arith, s.0)
first-has next prev h q (x ∷ xs) s = ground (arith, s.0.0)

-- The neighbours of a node are nodes of its ring.
pub neighbours-has :
    {next prev : ℕ → ℕ} {h : ℕ} {xs : List ℕ}
    → IsRing next prev h xs
    → (has (next h) (h ∷ xs) ≡ true) × (has (prev h) (h ∷ xs) ≡ true)
neighbours-has {next} {prev} {h} {xs} r =
    (first-has next prev h h xs r.seg, last-has next prev h h xs r.seg)

around_has :
    (t h a : ℕ) (xs ys : List ℕ) → has a (t ∷ ys ++ h ∷ xs) ≡ true → has a (h ∷ xs ++ t ∷ ys) ≡ true
around_has t h a xs ys m = ground (arith, has-append a ys (h ∷ xs), has-append a xs (t ∷ ys))

module _ {next prev : ℕ → ℕ} {n : ℕ} {heads : ℕ → ℕ} {tasks : ℕ → List ℕ}
    (r : AreRings next prev n heads tasks) where
  -- Ring `i` becomes another one, of nodes that the other rings have not.
  pub replace-AreRings :
      (i : ℕ) {next' prev' heads' : ℕ → ℕ} {tasks' : ℕ → List ℕ}
      → IsRing next' prev' (heads' i) (tasks' i)
      → ((j : ℕ) → i ≢ j → (heads' j ≡ heads j) × (tasks' j ≡ tasks j))
      → ((j a : ℕ)
          → j < n
          → i ≢ j
          → has a (heads' i ∷ tasks' i) ≡ true
          → has a (heads j ∷ tasks j) ≡ false)
      → ((j a : ℕ)
          → j < n
          → i ≢ j
          → has a (heads j ∷ tasks j) ≡ true
          → (next' a ≡ next a) × (prev' a ≡ prev a))
      → AreRings next' prev' n heads' tasks'
  replace-AreRings i {next'} {prev'} {heads'} {tasks'} ri same fresh spare = record {
    ring = λ j lj. elim (ℕ_discrete i j) [
      | yes e ↦ subst (λ k. IsRing next' prev' (heads' k) (tasks' k)) e ri
      | no ne ↦
          rw ((same j ne).0, (same j ne).1)
            (IsRing-frame next' prev' (r.ring j lj) (λ a m. spare j a lj ne m))
    ];
    apart = λ j k a lj lk ne m. elim (ℕ_discrete i j) [
      | yes e ↦
          rw ((same k (λ f. ne (sym e ∙ f))).0, (same k (λ f. ne (sym e ∙ f))).1)
            (fresh k a lk (λ f. ne (sym e ∙ f))
              (subst (λ b. has a (heads' b ∷ tasks' b) ≡ true) (sym e) m))
      | no nj ↦ elim (ℕ_discrete i k) [
        | yes e ↦ elim (Bool-cases (has a (heads' k ∷ tasks' k))) [
          | inl on ↦
              let off =
                fresh j a lj nj (subst (λ b. has a (heads' b ∷ tasks' b) ≡ true) (sym e) on) in
              absurd (ground (arith, off, (same j nj).0, (same j nj).1))
          | inr off ↦ off
        ]
        | no nk ↦
            rw ((same k nk).0, (same k nk).1)
              (r.apart j k a lj lk ne (rw ((same j nj).0, (same j nj).1) at m))
      ]
    ];
  }

  -- Nodes of two rings are different.
  other :
      (i j a b : ℕ)
      → i < n
      → j < n
      → i ≢ j
      → has b (heads i ∷ tasks i) ≡ true
      → has a (heads j ∷ tasks j) ≡ true
      → b ≢ a
  other i j a b li lj ne on m e = cc (r.apart i j b li lj ne on, m, e)

  -- A new node behind the head of ring `i`.
  pub insert-AreRings :
      (i t : ℕ)
      → i < n
      → ((j : ℕ) → j < n → has t (heads j ∷ tasks j) ≡ false)
      → AreRings
          (update (update next t (next (heads i))) (heads i) t)
          (update (update prev t (heads i)) (next (heads i)) t)
          n
          heads
          (update tasks i (t ∷ tasks i))
  insert-AreRings i t lt new =
      let ri = r.ring i lt in
      replace-AreRings i {heads' = heads} {tasks' = update tasks i (t ∷ tasks i)}
        (rw (update_self tasks i (t ∷ tasks i)) (insert-IsRing t ri (new i lt)))
        (λ j ne. (refl, update_ne tasks i (t ∷ tasks i) j ne))
        (λ j a lj ne m. elim (Bool-cases (a == t)) [
          | inl e ↦
              subst (λ b. has b (heads j ∷ tasks j) ≡ false) (sym ((==_iff a t).0 e)) (new j lj)
          | inr n ↦ r.apart i j a lt lj ne (ground (arith, update_self tasks i (t ∷ tasks i)))
        ])
        (λ j a lj ne m.
          let n1 = other i j a (heads i) lt lj ne (ground arith) m in
          let n2 = other i j a (next (heads i)) lt lj ne (neighbours-has ri).0 m in
          let n3 : t ≢ a = λ e. cc (new j lj, m, e) in
          (
            update_ne (update next t (next (heads i))) (heads i) t a n1
                ∙ update_ne next t (next (heads i)) a n3,
            update_ne (update prev t (heads i)) (next (heads i)) t a n2
                ∙ update_ne prev t (heads i) a n3,
          ))

  -- A node of ring `i` but its head goes.
  pub unlink-AreRings :
      (i t : ℕ) (xs ys : List ℕ)
      → i < n
      → tasks i ≡ xs ++ t ∷ ys
      → AreRings
          (update next (prev t) (next t))
          (update prev (next t) (prev t))
          n
          heads
          (update tasks i (xs ++ ys))
  unlink-AreRings i t xs ys lt e =
      let ri : IsRing next prev (heads i) (xs ++ t ∷ ys) =
        subst (IsRing next prev (heads i)) e (r.ring i lt) in
      replace-AreRings i {heads' = heads} {tasks' = update tasks i (xs ++ ys)}
        (rw (update_self tasks i (xs ++ ys)) (unlink-IsRing t xs ys ri))
        (λ j ne. (refl, update_ne tasks i (xs ++ ys) j ne))
        (λ j a lj ne m. r.apart i j a lt lj ne (
          rw e (
            ground (
              arith,
              update_self tasks i (xs ++ ys),
              has-append a xs ys,
              has-append a xs (t ∷ ys),
            ))))
        (λ j a lj ne m.
          let around = neighbours-has (rotate-IsRing xs ys ri) in
          let n1 =
            other i j a (next t) lt lj ne (rw e (around_has t (heads i) (next t) xs ys around.0))
              m in
          let n2 =
            other i j a (prev t) lt lj ne (rw e (around_has t (heads i) (prev t) xs ys around.1))
              m in
          (update_ne next (prev t) (next t) a n2, update_ne prev (next t) (prev t) a n1))

  -- Ring `i` read from another node on.
  pub rotate-AreRings :
      (i t : ℕ) (xs ys : List ℕ)
      → i < n
      → tasks i ≡ xs ++ t ∷ ys
      → AreRings next prev n (update heads i t) (update tasks i (ys ++ heads i ∷ xs))
  rotate-AreRings i t xs ys lt e =
      let ri : IsRing next prev (heads i) (xs ++ t ∷ ys) =
        subst (IsRing next prev (heads i)) e (r.ring i lt) in
      replace-AreRings i {heads' = update heads i t} {tasks' = update tasks i (ys ++ heads i ∷ xs)}
        (rw (update_self heads i t, update_self tasks i (ys ++ heads i ∷ xs))
          (rotate-IsRing xs ys ri))
        (λ j ne. (update_ne heads i t j ne, update_ne tasks i (ys ++ heads i ∷ xs) j ne))
        (λ j a lj ne m. r.apart i j a lt lj ne (
          rw e (
            around_has t (heads i) a xs ys
              (rw (update_self heads i t, update_self tasks i (ys ++ heads i ∷ xs)) at m))))
        (λ j a lj ne m. (refl, refl))
