-- ===== src/Pmm/Free.antt =====
-- `kfree` of kernel/src/pmm.c: it finds the list of a block by its address.
use oslab.Prelude.{
  ℕ, zero, suc, ◌+◌, ◌≤◌, ◌<◌, ◌≡◌, ◌≢◌, Option, none, some, arith, returns, dec_lt, ℕ_discrete,
  List, ◌⊎◌, ◌-◌, inl, has, panics, false, inr, update, ◌∷◌, sym, update_self, update_ne, refl,
}
use oslab.Pmm.{Area, Pmm, startaddr, pagestart, hugestart, find_id, sfree, kfree, Kmem, give}
use oslab.Pmm.Layout.{
  IsHeap, IsBlock, startaddr_mono, kmem_of, lo, small_bounds, startaddr-le-pagestart, hi,
  pages_order, bsize_bounds, hi-le-hugestart, bsize, hi-le-lo, lo-ne-zero, pagestart-lt-hugestart,
}
use oslab.Pmm.Inv.{
  put_kmem, IsPmm, put_kmem-same, Pool, kmem_of-put_self, kmem_of-put_ne, Pool-frame,
}
use oslab.Pmm.Chain.{give-IsFree}
use oslab.Pmm.Fill.{aligned_gap}
use mathlib.Core.Path.{subst}

module _ {heap : Area} (h : IsHeap heap) where
  -- The search through the eight regions ends with the one that holds the address.
  find_id-some :
      (n i k p : ℕ) (id : Option ℕ)
      → i + n ≡ 8
      → k < 8
      → startaddr heap k ≤ p
      → p < startaddr heap (k + 1)
      → (k < i → id ≡ some k)
      → find_id heap n i p id ≡ some k
  unfolding find_id
  find_id-some zero i k p id e lt l u found = found (omega arith)
  find_id-some (suc n) i k p id e lt l u found =
      find_id-some n (i + 1) k p _ (omega arith) lt l u
        (λ b. ground (arith, found, startaddr_mono h (i + 1) k, startaddr_mono h (k + 1) i))

  -- An address behind the eight regions is in none.
  find_id-none :
      (n i p : ℕ) (id : Option ℕ)
      → i + n ≡ 8
      → startaddr heap 8 ≤ p
      → id ≡ none
      → find_id heap n i p id ≡ none
  unfolding find_id
  find_id-none zero i p id e l found = found
  find_id-none (suc n) i p id e l found =
      find_id-none n (i + 1) p _ (omega arith) l (ground (arith, startaddr_mono h (i + 1) 8))

  block_bounds :
      (k p : ℕ)
      → k < 10
      → IsBlock heap k p
      → (lo heap k ≤ p) × (p < hi heap k) × (p < hugestart heap)
  block_bounds k p top b = (
    b.above,
    omega (arith, (bsize_bounds k).0, b.below),
    omega (arith, (bsize_bounds k).0, b.below, hi-le-hugestart h k top),
  )

  small_block :
      (k p : ℕ)
      → k < 8
      → IsBlock heap k p
      → (startaddr heap k ≤ p) × (p < startaddr heap (k + 1)) × (p < startaddr heap 8)
  small_block k p lt b =
      let e = small_bounds heap k lt in
      let (above, below, huge) = block_bounds k p (omega arith) b in
      (
        rw e.0 at above,
        rw e.1 at below,
        omega (arith, rw e.1 at below, startaddr_mono h (k + 1) 8 (omega arith) (omega arith)),
      )

  -- Which list `kfree` writes: the branches of `kfree` and `sfree` together.
  kfree-give :
      (k p : ℕ) (s : Pmm) (mem : Kmem) (nxt : ℕ → ℕ)
      → k < 10
      → IsBlock heap k p
      → p ≢ pagestart heap
      → give p (kmem_of s k) s.nxt ≡ returns (mem, nxt)
      → kfree heap p s ≡ returns (record (put_kmem s k mem) { nxt = nxt })
  unfolding kfree sfree
  kfree-give k p s mem nxt top b ne given = elim (dec_lt k 8) [
    | yes small ↦ ground (
      arith,
      small_block k p small b,
      block_bounds k p top b,
      startaddr-le-pagestart h,
      find_id-some 8 0 k p none,
    )
    | no big ↦ elim (ℕ_discrete k 8) [
      | yes page ↦ ground (arith, block_bounds k p top b)
      | no mpage ↦ ground (arith, block_bounds k p top b, pages_order h)
    ]
  ]

  -- Blocks of two lists, and two blocks of one list, do not share a byte.
  pub blocks_apart :
      (j k a p : ℕ)
      → j < 10
      → k < 10
      → IsBlock heap j a
      → IsBlock heap k p
      → a ≢ p
      → (a + bsize j ≤ p) ⊎ (p + bsize k ≤ a)
  blocks_apart j k a p tj tk ba bp ne = elim (ℕ_discrete j k) [
    | yes e ↦ elim (dec_lt a p) [
      | yes less ↦ inl (aligned_gap (bsize j) a p ba.aligned (rw e bp.aligned) less)
      | no more ↦ inr (aligned_gap (bsize k) p a bp.aligned (rw (sym e) ba.aligned) (omega arith))
    ]
    | no n ↦ elim (dec_lt j k) [
      | yes less ↦ inl (omega (arith, ba.below, bp.above, hi-le-lo h j k less tk))
      | no more ↦ inr (omega (arith, bp.below, ba.above, hi-le-lo h k j (omega arith) tj))
    ]
  ]

  not_in_other :
      (k j p a : ℕ)
      → k < 10
      → j < 10
      → IsBlock heap k p
      → k ≢ j
      → lo heap j ≤ a
      → a < hi heap j
      → p ≢ a
  not_in_other k j p a tk tj b n l u e =
      grind (arith, block_bounds k p tk b, hi-le-lo h k j, hi-le-lo h j k)

  -- `kfree` of a block that is not free, and is not the page at PAGESTART, puts it in front of the
  -- list that it came from, keeps the invariant of the allocator, writes the block's first word only,
  -- and leaves the bound of the huge blocks.
  pub kfree-IsPmm :
      {s : Pmm} {free : ℕ → List ℕ} (k p : ℕ)
      → IsPmm heap s free
      → k < 10
      → IsBlock heap k p
      → has p (free k) ≡ false
      → p ≢ pagestart heap
      → (t : Pmm) × (kfree heap p s ≡ returns t)
        × IsPmm heap t (update free k (p ∷ free k))
        × (t.nxt ≡ update s.nxt p (kmem_of s k).freelist)
        × (t.hbound ≡ s.hbound)
  kfree-IsPmm {s} {free} k p v top b new ne =
      let pool = v.pools k top in
      let (mem, given, f) =
        give-IsFree p (kmem_of s k) s.nxt (free k) pool.free
          (omega (arith, b.above, lo-ne-zero h k top)) new in
      let nxt : ℕ → ℕ = update s.nxt p (kmem_of s k).freelist in
      (
        record (put_kmem s k mem) { nxt = nxt },
        kfree-give k p s mem nxt top b ne given,
        record {
          unlocked = rw (put_kmem-same s k mem).2 v.unlocked;
          pools = λ j lt. elim (ℕ_discrete k j) [
            | yes e ↦
                subst
                  (λ i.
                    Pool heap i nxt (kmem_of (put_kmem s k mem) i) (update free k (p ∷ free k) i))
                  e
                  (rw (kmem_of-put_self s k mem, update_self free k (p ∷ free k))
                    (record {
                      free = f;
                      blocks = (b, pool.blocks);
                      distinct = (new, pool.distinct);
                    }))
            | no n ↦
                rw (kmem_of-put_ne s k j mem n, update_ne free k (p ∷ free k) j n)
                  (Pool-frame nxt (v.pools j lt) (λ a l u.
                    update_ne s.nxt p (kmem_of s k).freelist a
                      (not_in_other k j p a top lt b n l u)))
          ];
        },
        refl,
        (put_kmem-same s k mem).1,
      )

  -- On a heap of 8 bytes at least, `kfree` of the address PAGESTART, where the region of the pages
  -- starts, panics in every state.
  pub kfree_first_page :
      (s : Pmm) → 8 ≤ heap.end - heap.start → kfree heap (pagestart heap) s ≡ panics
  unfolding kfree sfree
  kfree_first_page s big = ground (
    arith,
    find_id-none 8 0 (pagestart heap) none,
    startaddr-le-pagestart h,
    pagestart-lt-hugestart h big,
  )
