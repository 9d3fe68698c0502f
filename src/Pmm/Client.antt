-- ===== src/Pmm/Client.antt =====
-- Clients of the allocator of kernel/src/pmm.c: any sequence of calls of `kalloc` for at most
-- 8 KiB and of `kfree`, and of stores by the owners of the blocks.
pub mod Owned
pub mod Safety
use oslab.Prelude.{
  ℕ, ◌+◌, ◌≤◌, ◌<◌, ◌≡◌, ◌≢◌, List, [], ◌∷◌, arith, Bool, returns, if◌then◌else◌, ◌^◌, false, true,
  ◌==◌, ◌||◌, Option, some, has, All, ◌⊎◌, update, none, inl, inr, dec_lt, ℕ_discrete, Bool-cases,
  refl, ==_iff, All-imp,
}
use oslab.Pmm.{Area, Pmm, kinit, kalloc, kfree, pagestart}
use oslab.Pmm.Layout.{IsHeap, IsBlock, bsize, hi-le-lo, bsize_bounds}
use oslab.Pmm.Inv.{IsPmm}
use oslab.Pmm.Alloc.{take_from, kalloc-IsBlock, kalloc-Allocated, list_of}
use oslab.Pmm.Free.{kfree-IsPmm, blocks_apart}
use oslab.Pmm.Chain.{rest}
use mathlib.Core.Path.{subst}

-- A block that a client holds: its address and the size that was asked for.
pub record Held : Type 0 where
  pub at : ℕ
  pub size : ℕ

pub record World : Type 0 where
  pub s : Pmm
  pub live : List Held

abbrev pub holds : ℕ → List Held → Bool
holds p [] = false
holds p (b ∷ bs) = (p == b.at) || holds p bs

abbrev pub size_at : ℕ → List Held → Option ℕ
size_at p [] = none
size_at p (b ∷ bs) = if p == b.at then some b.size else size_at p bs

abbrev pub drop_block : ℕ → List Held → List Held
drop_block p [] = []
drop_block p (b ∷ bs) = if p == b.at then drop_block p bs else b ∷ drop_block p bs

-- The steps. A block at PAGESTART is never freed: `Free.kfree_first_page`.
pub data Step (heap : Area) (w : World) : World → Type 0 where
  alloc :
      (size p : ℕ) (t : Pmm)
      → size ≤ 2 ^ 13
      → kalloc heap size w.s ≡ returns (p, t)
      → p ≢ 0
      → Step heap w (record { s = t; live = record { at = p; size = size } ∷ w.live })
  refuse :
      (size : ℕ) (t : Pmm)
      → size ≤ 2 ^ 13
      → kalloc heap size w.s ≡ returns (0, t)
      → Step heap w (record { s = t; live = w.live })
  free :
      (p : ℕ) (t : Pmm)
      → holds p w.live ≡ true
      → p ≢ pagestart heap
      → kfree heap p w.s ≡ returns t
      → Step heap w (record { s = t; live = drop_block p w.live })
  store :
      (p size a v : ℕ)
      → size_at p w.live ≡ some size
      → p ≤ a
      → a < p + size
      → Step heap w (record { s = record w.s { nxt = update w.s.nxt a v }; live = w.live })

-- From the state that `kinit` leaves, nothing held.
pub data Reach (heap : Area) : World → Type 0 where
  boot : (s t : Pmm) → kinit heap s ≡ returns t → Reach heap (record { s = t; live = [] })
  next : {w x : World} → Reach heap w → Step heap w x → Reach heap x
