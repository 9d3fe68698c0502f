-- ===== src/Pmm/Client/Owned.antt =====
-- What holds of the blocks that the clients of kernel/src/pmm.c hold.
use oslab.Prelude.{
  ℕ, List, has, ◌<◌, ◌∷◌, All, ◌≡◌, ◌≢◌, false, dec_lt, arith, update, true, Bool-cases, ◌≤◌, ◌+◌,
  ℕ_discrete, ◌⊎◌, ◌==◌, inl, some, [], inr, refl,
}
use oslab.Pmm.{Area}
use oslab.Pmm.Client.{World, Held, holds, drop_block, size_at, subst}
use oslab.Pmm.Layout.{IsHeap, IsBlock, bsize, hi-le-lo, bsize_bounds}
use oslab.Pmm.Inv.{IsPmm}
use oslab.Pmm.Alloc.{take_from}
use oslab.Pmm.Chain.{rest}
use oslab.Pmm.Free.{blocks_apart}

-- A held block belongs to some list, is large enough, and is not on its list.
pub record IsHeld (heap : Area) (lists : ℕ → List ℕ) (b : Held) : Type 0 where
  pub list : ℕ
  pub low : list < 10
  pub block : IsBlock heap list b.at
  pub fits : b.size ≤ bsize list
  pub off : has b.at (lists list) ≡ false

abbrev pub Apart : List Held → Type 0
Apart [] = Unit
Apart (b ∷ bs) = (holds b.at bs ≡ false) × Apart bs

pub record Inv (heap : Area) (w : World) : Type 0 where
  pub free : ℕ → List ℕ
  pub pmm : IsPmm heap w.s free
  pub held : All (IsHeld heap free) w.live
  pub apart : Apart w.live

not-has-rest : (a : ℕ) (xs : List ℕ) → has a xs ≡ false → has a (rest xs) ≡ false
not-has-rest a [] n = n
not-has-rest a (x ∷ xs) n = ground arith

module _ {heap : Area} (h : IsHeap heap) where
  -- Two held blocks at different addresses do not share a byte.
  pub held_apart :
      {free : ℕ → List ℕ} {b c : Held}
      → IsHeld heap free b
      → IsHeld heap free c
      → b.at ≢ c.at
      → (b.at + b.size ≤ c.at) ⊎ (c.at + c.size ≤ b.at)
  held_apart {b = b} {c = c} i j n =
      elim (blocks_apart h i.list j.list b.at c.at i.low j.low i.block j.block n) [
        | inl l ↦ inl (omega (arith, i.fits))
        | inr l ↦ inr (omega (arith, j.fits))
      ]

  -- A block has one list.
  pub same_list : (j k p : ℕ) → j < 10 → k < 10 → IsBlock heap j p → IsBlock heap k p → j ≡ k
  same_list j k p tj tk bj bk = elim (dec_lt j k) [
    | yes less ↦
        absurd (omega (arith, bj.below, bk.above, hi-le-lo h j k less tk, (bsize_bounds j).0))
    | no more ↦ elim (dec_lt k j) [
      | yes less ↦
          absurd (omega (arith, bk.below, bj.above, hi-le-lo h k j less tj, (bsize_bounds k).0))
      | no same ↦ omega arith
    ]
  ]

  pub IsHeld-take :
      {free : ℕ → List ℕ} {b : Held} (k : ℕ) → IsHeld heap free b → IsHeld heap (take_from free k) b
  IsHeld-take {free} {b} k i = record {
    list = i.list;
    low = i.low;
    block = i.block;
    fits = i.fits;
    off = ground (arith, not-has-rest b.at (free k), i.off);
  }

  pub IsHeld-give :
      {free : ℕ → List ℕ} {b : Held} (k p : ℕ)
      → b.at ≢ p
      → IsHeld heap free b
      → IsHeld heap (update free k (p ∷ free k)) b
  IsHeld-give {free} {b} k p n i = record {
    list = i.list;
    low = i.low;
    block = i.block;
    fits = i.fits;
    off = ground (arith, i.off);
  }

  -- A block that `kalloc` has just returned is not among the held ones.
  pub fresh_block :
      (lists : ℕ → List ℕ) (k p : ℕ) (live : List Held)
      → k < 10
      → IsBlock heap k p
      → has p (lists k) ≡ true
      → All (IsHeld heap lists) live
      → holds p live ≡ false
  fresh_block lists k p [] top b on held = refl
  fresh_block lists k p (c ∷ live) top b on (i, held) = elim (ℕ_discrete p c.at) [
    | yes e ↦
        ground
          (arith, same_list k i.list c.at top i.low (subst (IsBlock heap k) e b) i.block, i.off)
    | no n ↦ ground (arith, fresh_block lists k p live top b on held)
  ]

  pub Held-drop :
      (lists : ℕ → List ℕ) (k p : ℕ) (live : List Held)
      → All (IsHeld heap lists) live
      → All (IsHeld heap (update lists k (p ∷ lists k))) (drop_block p live)
  Held-drop lists k p [] held = tt
  Held-drop lists k p (c ∷ live) (i, held) = elim (Bool-cases (p == c.at)) [
    | inl e ↦ rw e (Held-drop lists k p live held)
    | inr n ↦ rw n (IsHeld-give k p (ground arith) i, Held-drop lists k p live held)
  ]

  holds-drop :
      (q p : ℕ) (live : List Held) → holds q live ≡ false → holds q (drop_block p live) ≡ false
  holds-drop q p [] n = refl
  holds-drop q p (c ∷ live) n = ground (arith, holds-drop q p live)

  pub Apart-drop : (p : ℕ) (live : List Held) → Apart live → Apart (drop_block p live)
  Apart-drop p [] a = tt
  Apart-drop p (c ∷ live) a = elim (Bool-cases (p == c.at)) [
    | inl e ↦ rw e (Apart-drop p live a.1)
    | inr n ↦ rw n (holds-drop c.at p live a.0, Apart-drop p live a.1)
  ]

  -- The entry of a held address.
  pub held_at :
      (lists : ℕ → List ℕ) (p : ℕ) (live : List Held)
      → All (IsHeld heap lists) live
      → holds p live ≡ true
      → (b : Held) × (b.at ≡ p) × IsHeld heap lists b × (size_at p live ≡ some b.size)
  held_at lists p [] held on = absurd (ground arith)
  held_at lists p (c ∷ live) (i, held) on = elim (Bool-cases (p == c.at)) [
    | inl e ↦ (c, ground arith, i, rw e)
    | inr n ↦ rw n (held_at lists p live held (ground arith))
  ]

  -- The entry of a held address by its size.
  pub sized_at :
      (lists : ℕ → List ℕ) (p size : ℕ) (live : List Held)
      → All (IsHeld heap lists) live
      → size_at p live ≡ some size
      → (b : Held) × (b.at ≡ p) × (b.size ≡ size) × IsHeld heap lists b
  sized_at lists p size [] held on = absurd (ground arith)
  sized_at lists p size (c ∷ live) (i, held) on = elim (Bool-cases (p == c.at)) [
    | inl e ↦ (c, ground arith, ground arith, i)
    | inr n ↦ sized_at lists p size live held (ground arith)
  ]
