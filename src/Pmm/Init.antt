-- ===== src/Pmm/Init.antt =====
-- `kinit` of kernel/src/pmm.c: it returns, and every aligned block of every region is on its list.
use oslab.Prelude.{
  ℕ, ◌+◌, ◌≤◌, ◌<◌, ◌≡◌, arith, List, ◌⊎◌, returns, has, true, update, refl, sym, suc, zero, inl,
  ℕ_discrete, update_self, update_ne, dec_lt, [],
}
use oslab.Pmm.{
  Area, Pmm, Kmem, kinit, fill, roundup, fill_fuel, kinit_small, startaddr, kinit_smalls, hugestart,
  kinit_page, page_size, pagestart, mpagestart, mpage_size,
}
use oslab.Pmm.Layout.{
  IsHeap, IsBlock, kmem_of, lo, hi, bsize, bsize_bounds, small_bounds, lo-le-end, lo-ne-zero,
  heapsize_lem, start-le-lo, hi-le-lo, kmem_small,
}
use oslab.Pmm.Fill.{fill_region}
use oslab.Pmm.Inv.{Pool, Pool-frame, IsPmm}
use oslab.Lock.{lockinit}
use mathlib.Core.Path.{subst}

abbrev unused : Kmem
unused = record { m = record { flag = 0 }; freelist = 0 }

-- List `k` is set up: it holds each block of its region once.
pub record Ready (heap : Area) (k : ℕ) (nxt : ℕ → ℕ) (mem : Kmem) : Type 0 where
  pub free : List ℕ
  pub pool : Pool heap k nxt mem free
  pub complete : (a : ℕ) → IsBlock heap k a → has a free ≡ true

Ready-frame :
    {heap : Area} {k : ℕ} {nxt : ℕ → ℕ} {mem : Kmem} (nxt' : ℕ → ℕ)
    → Ready heap k nxt mem
    → ((a : ℕ) → lo heap k ≤ a → a < hi heap k → nxt' a ≡ nxt a)
    → Ready heap k nxt' mem
Ready-frame nxt' r same = record {
  free = r.free;
  pool = Pool-frame nxt' r.pool same;
  complete = r.complete;
}

-- What cutting region `k` does to the lists: this one is ready, and memory outside is as before.
record Laid (heap : Area) (k : ℕ) (old nxt : ℕ → ℕ) (mem : Kmem) : Type 0 where
  ready : Ready heap k nxt mem
  same : (a : ℕ) → (a < lo heap k) ⊎ (hi heap k ≤ a) → nxt a ≡ old a

module _ {heap : Area} (h : IsHeap heap) where
  -- The lists before `i` are not touched by the cutting of region `i`.
  Ready-below :
      {i k : ℕ} {old nxt : ℕ → ℕ} {mem other : Kmem}
      → Laid heap i old nxt mem
      → k < i
      → i < 10
      → Ready heap k old other
      → Ready heap k nxt other
  Ready-below {i} {k} {nxt = nxt} laid lt top r =
      Ready-frame nxt r (λ a l u. laid.same a (inl (omega (arith, hi-le-lo h k i lt top))))

  Ready-update :
      (i k : ℕ) (mems : ℕ → Kmem) {old nxt : ℕ → ℕ} {mem : Kmem}
      → Laid heap i old nxt mem
      → ((j : ℕ) → j < i → Ready heap j old (mems j))
      → i < 8
      → k < i + 1
      → Ready heap k nxt (update mems i mem k)
  Ready-update i k mems {nxt = nxt} {mem = mem} laid ready top lt = elim (ℕ_discrete i k) [
    | yes e ↦
        subst (λ j. Ready heap j nxt (update mems i mem j)) e
          (rw (update_self mems i mem) laid.ready)
    | no n ↦
        rw (update_ne mems i mem k n)
          (Ready-below laid (omega arith) (omega arith) (ready k (omega arith)))
  ]

  region_lem :
      (k : ℕ) (nxt : ℕ → ℕ)
      → k < 10
      → (mem' : Kmem) × (nxt' : ℕ → ℕ) × (fill
            (fill_fuel heap)
            (bsize k)
            (hi heap k)
            (roundup (lo heap k) (bsize k))
            unused
            nxt
          ≡ returns (mem', nxt'))
        × Laid heap k nxt nxt' mem'
  region_lem k nxt top =
      let (big, small) = bsize_bounds k in
      let (mem', nxt', run, cut) =
        fill_region (bsize k) (lo heap k) (hi heap k) nxt (omega arith) (lo-ne-zero h k top)
          (omega (arith, small top, lo-le-end h k top, h.room)) (fill_fuel heap) unused
          (omega (arith, heapsize_lem h, lo-le-end h k top, start-le-lo h k top))
          (omega (arith, small top, lo-le-end h k top, h.room)) refl refl in
      (
        mem',
        nxt',
        run,
        record {
          ready = record {
            free = cut.blocks;
            pool = record { free = cut.free; blocks = cut.within; distinct = cut.distinct };
            complete = cut.complete;
          };
          same = cut.same;
        },
      )

  region :
      (k from bound : ℕ) (nxt : ℕ → ℕ)
      → k < 10
      → from ≡ lo heap k
      → bound ≡ hi heap k
      → (mem' : Kmem) × (nxt' : ℕ → ℕ) × (fill
            (fill_fuel heap)
            (bsize k)
            bound
            (roundup from (bsize k))
            unused
            nxt
          ≡ returns (mem', nxt'))
        × Laid heap k nxt nxt' mem'
  region k from bound nxt top ef eb = rw (ef, eb) (region_lem k nxt top)

  small :
      (i : ℕ) (s : Pmm)
      → i < 8
      → (mem : Kmem) × (nxt : ℕ → ℕ) × (kinit_small heap i s
          ≡ returns (record s { smallmem = update s.smallmem i mem; nxt = nxt }))
        × Laid heap i s.nxt nxt mem
  unfolding kinit_small lockinit
  small i s lt =
      let (mem, nxt, run, set) =
        region i (startaddr heap i) (startaddr heap (i + 1)) s.nxt (omega arith)
          (sym (small_bounds heap i lt).0) (sym (small_bounds heap i lt).1) in
      (mem, nxt, rw run, set)

  -- All lists before `i` are ready, and what the loop does not touch is as it was.
  smalls :
      (n i : ℕ) (s : Pmm)
      → i + n ≡ 8
      → ((k : ℕ) → k < i → Ready heap k s.nxt (s.smallmem k))
      → (t : Pmm) × (kinit_smalls heap n i s ≡ returns t)
        × ((k : ℕ) → k < 8 → Ready heap k t.nxt (t.smallmem k))
        × (t.g_lock ≡ s.g_lock)
        × (t.hbound ≡ s.hbound)
  unfolding kinit_smalls
  smalls zero i s e ready = (s, refl, λ k lt. ready k (omega arith), refl, refl)
  smalls (suc n) i s e ready =
      let (mem, nxt, run, set) = small i s (omega arith) in
      let (t, run', ready', g, b) =
        smalls n (i + 1) (record s { smallmem = update s.smallmem i mem; nxt = nxt }) (omega arith)
          (λ k lt. Ready-update i k s.smallmem set ready (omega arith) lt) in
      (t, rw run run', ready', g, b)

-- What `kinit` leaves behind: all locks free, every list holding each block of its region, the
-- bound of the huge blocks at the start of their region.
pub record Initial (heap : Area) (s : Pmm) : Type 0 where
  pub unlocked : s.g_lock.flag ≡ 0
  pub bound : s.hbound ≡ hugestart heap
  pub ready : (k : ℕ) → k < 10 → Ready heap k s.nxt (kmem_of s k)

module _ {heap : Area} (h : IsHeap heap) where
  page :
      (k j sz from bound : ℕ) (s : Pmm)
      → k < 10
      → sz ≡ bsize k
      → from ≡ lo heap k
      → bound ≡ hi heap k
      → (mem : Kmem) × (nxt : ℕ → ℕ) × (kinit_page heap j sz from bound s
          ≡ returns (record s { pagemem = update s.pagemem j mem; nxt = nxt }))
        × Laid heap k s.nxt nxt mem
  unfolding kinit_page lockinit
  page k j sz from bound s top es ef eb =
      let (mem, nxt, run, laid) = region h k from bound s.nxt top ef eb in
      (mem, nxt, rw (es, run), laid)

  -- The ten lists after the last region is cut.
  all-Ready :
      (t : Pmm) (mem2 mem3 : Kmem) (nxt2 : ℕ → ℕ) {nxt1 : ℕ → ℕ}
      → ((k : ℕ) → k < 8 → Ready heap k nxt1 (t.smallmem k))
      → Laid heap 8 nxt1 nxt2 mem2
      → Laid heap 9 nxt2 t.nxt mem3
      → t.pagemem 0 ≡ mem2
      → t.pagemem 1 ≡ mem3
      → (k : ℕ) → k < 10
      → Ready heap k t.nxt (kmem_of t k)
  all-Ready t mem2 mem3 nxt2 ready laid2 laid3 e2 e3 k lt = elim (dec_lt k 8) [
    | yes small ↦ rw (kmem_small t k small) (
        Ready-below h laid3 (omega arith) (omega arith)
          (Ready-below h laid2 (omega arith) (omega arith) (ready k small)))
    | no big ↦ elim (ℕ_discrete 8 k) [
      | yes e ↦
          subst (λ j. Ready heap j t.nxt (kmem_of t j)) e
            (rw e2 (Ready-below h laid3 (omega arith) (omega arith) laid2.ready))
      | no n ↦
          subst (λ j. Ready heap j t.nxt (kmem_of t j)) {x = 9} (omega arith) (rw e3 laid3.ready)
    ]
  ]

  -- `kinit` returns from every state on every heap as in `IsHeap`: no lock is left taken, each
  -- aligned block of each region is on the free list of its size, once, and the bound of the huge
  -- blocks stands at the start of their region.
  pub kinit-Initial : (s : Pmm) → (t : Pmm) × (kinit heap s ≡ returns t) × Initial heap t
  unfolding kinit lockinit
  kinit-Initial s =
      let s0 : Pmm = record s { hbound = hugestart heap; g_lock = lockinit } in
      let (s1, run1, ready1, g1, b1) =
        smalls h 8 0 s0 (omega arith) (λ k lt. absurd (omega arith)) in
      let (mem2, nxt2, run2, laid2) =
        page 8 0 page_size (pagestart heap) (mpagestart heap) s1 (omega arith) refl refl refl in
      let s2 : Pmm = record s1 { pagemem = update s1.pagemem 0 mem2; nxt = nxt2 } in
      let (mem3, nxt3, run3, laid3) =
        page 9 1 mpage_size (mpagestart heap) (hugestart heap) s2 (omega arith) refl refl refl in
      let t : Pmm = record s2 { pagemem = update s2.pagemem 1 mem3; nxt = nxt3 } in
      (
        t,
        rw (run1, run2, run3),
        record {
          unlocked = rw g1;
          bound = b1;
          ready = all-Ready t mem2 mem3 nxt2 ready1 laid2 laid3 refl refl;
        },
      )

-- The blocks of each list of an allocator that is set up.
blocks_if : {heap : Area} {s : Pmm} → Initial heap s → (k : ℕ) → Dec (k < 10) → List ℕ
blocks_if i k (yes lt) = (i.ready k lt).free
blocks_if i k (no ge) = []

blocks_if-Pool :
    {heap : Area} {s : Pmm} (i : Initial heap s) (k : ℕ) (d : Dec (k < 10))
    → k < 10
    → Pool heap k s.nxt (kmem_of s k) (blocks_if i k d)
unfolding blocks_if
blocks_if-Pool i k (yes lt) top = (i.ready k lt).pool
blocks_if-Pool i k (no ge) top = absurd (ge top)

-- So the allocator that `kinit` sets up meets the invariant.
pub Initial-IsPmm :
    {heap : Area} {s : Pmm} → Initial heap s → (free : ℕ → List ℕ) × IsPmm heap s free
Initial-IsPmm i = (
  (λ k. blocks_if i k (dec_lt k 10)),
  record { unlocked = i.unlocked; pools = λ k top. blocks_if-Pool i k (dec_lt k 10) top },
)
