-- ===== src/Pmm/Client/Safety.antt =====
-- Whatever its clients do, the allocator of kernel/src/pmm.c keeps its invariant, and the blocks
-- that are held at the same time do not overlap.
use oslab.Prelude.{
  ℕ, ◌<◌, All-imp, ◌≡◌, some, ◌≤◌, ◌+◌, has, true, ◌≢◌, false, update, ◌∷◌, update_ne, All-has,
  ℕ_discrete, ◌⊎◌, arith, inl, inr,
}
use oslab.Pmm.{Area}
use oslab.Pmm.Client.{World, Step, Reach, alloc, refuse, free, store, boot, next, size_at, subst}
use oslab.Pmm.Layout.{IsHeap, IsBlock, start-le-lo, bsize_bounds, lo-le-end}
use oslab.Pmm.Client.Owned.{
  Inv, IsHeld-take, fresh_block, held_at, Held-drop, Apart-drop, sized_at, Apart, same_list,
  held_apart,
}
use oslab.Pmm.Alloc.{kalloc-IsBlock, take_from, kalloc-Allocated, list_of}
use oslab.Pmm.Free.{kfree-IsPmm, blocks_apart}
use oslab.Pmm.Init.{kinit-Initial, Initial-IsPmm}
use oslab.Pmm.Inv.{Pool-spare}

module _ {heap : Area} (h : IsHeap heap) where
  -- A store inside a held block hits no free block's first word.
  store_spares :
      {w : World} (v : Inv heap w) (k : ℕ)
      → k < 10
      → (p size a y : ℕ) → size_at p w.live ≡ some size
      → p ≤ a
      → a < p + size
      → has y (v.free k) ≡ true
      → a ≢ y
  store_spares {w} v k top p size a y e l u m same =
      let (b, eb, es, i) = sized_at h v.free p size w.live v.held e in
      let pool = v.pmm.pools k top in
      let y_block : IsBlock heap k y = All-has (IsBlock heap k) (v.free k) y pool.blocks m in
      elim (ℕ_discrete y b.at) [
        | yes q ↦ cc (
          m,
          i.off,
          q,
          same_list h k i.list b.at top i.low (subst (IsBlock heap k) q y_block) i.block,
        )
        | no q ↦ elim (blocks_apart h k i.list y b.at top i.low y_block i.block q) [
          | inl z ↦ omega (arith, (bsize_bounds k).0)
          | inr z ↦ omega (arith, i.fits)
        ]
      ]

  Step-Inv : {w x : World} → Step heap w x → Inv heap w → Inv heap x
  Step-Inv {w} (alloc size p t le run n) v =
      let (k, low, fits, block, on, pmm, off) = kalloc-IsBlock size p le v.pmm run n in
      record {
        free = take_from v.free k;
        pmm = pmm;
        held = (
          record { list = k; low = low; block = block; fits = fits; off = off },
          All-imp w.live (λ b i. IsHeld-take h k i) v.held,
        );
        apart = (fresh_block h v.free k p w.live low block on v.held, v.apart);
      }
  Step-Inv {w} (refuse size t le run) v =
      let a = kalloc-Allocated size le v.pmm in
      let e : t ≡ a.after = cc (run, a.run) in
      record {
        free = take_from v.free (list_of a.exponent);
        pmm = rw e a.valid;
        held = All-imp w.live (λ b i. IsHeld-take h (list_of a.exponent) i) v.held;
        apart = v.apart;
      }
  Step-Inv {w} (free p t on n run) v =
      let (b, e, i, sized) = held_at h v.free p w.live v.held on in
      let (t', run', pmm, same, bound) =
        kfree-IsPmm h i.list p v.pmm i.low (subst (IsBlock heap i.list) e i.block)
          (subst (λ a. has a (v.free i.list) ≡ false) e i.off) n in
      let et : t ≡ t' = cc (run, run') in
      record {
        free = update v.free i.list (p ∷ v.free i.list);
        pmm = rw et pmm;
        held = Held-drop h v.free i.list p w.live v.held;
        apart = Apart-drop h p w.live v.apart;
      }
  Step-Inv {w} (store p size a x e l u) v = record {
    free = v.free;
    pmm = record {
      unlocked = v.pmm.unlocked;
      pools = λ k top.
          Pool-spare (update w.s.nxt a x) (v.pmm.pools k top)
            (λ y m. update_ne w.s.nxt a x y (store_spares v k top p size a y e l u m));
    };
    held = v.held;
    apart = v.apart;
  }

  Reach-Inv : {w : World} → Reach heap w → Inv heap w
  Reach-Inv (boot s t run) =
      let (t', run', i) = kinit-Initial h s in
      let e : t ≡ t' = cc (run, run') in
      let (lists, pmm) = Initial-IsPmm i in
      rw e (record { free = lists; pmm = pmm; held = tt; apart = tt })
  Reach-Inv (next r st) = Step-Inv st (Reach-Inv r)

  -- After `kinit` and any sequence of calls of `kalloc` for at most 8 KiB, of `kfree` of held blocks
  -- (not of PAGESTART), and of stores into held blocks, two blocks that are held at different
  -- addresses do not share a byte.
  pub live_disjoint :
      {w : World} (p m q n : ℕ)
      → Reach heap w
      → size_at p w.live ≡ some m
      → size_at q w.live ≡ some n
      → p ≢ q
      → (p + m ≤ q) ⊎ (q + n ≤ p)
  live_disjoint {w} p m q n r ep eq ne =
      let v = Reach-Inv r in
      let (b, eb, sb, ib) = sized_at h v.free p m w.live v.held ep in
      let (c, ec, sc, ic) = sized_at h v.free q n w.live v.held eq in
      elim (held_apart h ib ic (λ e. ne (cc (eb, ec, e)))) [
        | inl z ↦ inl (omega arith)
        | inr z ↦ inr (omega arith)
      ]

  -- After any such sequence no two holders have the same address, and each held block lies inside
  -- the heap.
  pub live_once :
      {w : World} (p m : ℕ)
      → Reach heap w
      → size_at p w.live ≡ some m
      → Apart w.live × (heap.start ≤ p) × (p + m ≤ heap.end)
  live_once {w} p m r ep =
      let v = Reach-Inv r in
      let (b, eb, sb, i) = sized_at h v.free p m w.live v.held ep in
      (
        v.apart,
        omega (arith, i.block.above, start-le-lo h i.list i.low),
        omega (arith, i.block.below, i.fits, lo-le-end h i.list i.low),
      )
