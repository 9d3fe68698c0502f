-- ===== src/Pmm/Inv.antt =====
-- The invariant of the allocator of kernel/src/pmm.c: every free list is a chain of distinct blocks
-- of its own region, and every lock is free between calls.
use oslab.Prelude.{
  ℕ, ◌≤◌, ◌<◌, ◌≡◌, List, arith, All, Distinct, All-has, ◌≢◌, if◌then◌else◌, ltb, update, ◌-◌, has,
  true,
}
use oslab.Pmm.{Area, Pmm, Kmem}
use oslab.Pmm.Layout.{IsBlock, kmem_of, lo, hi, bsize_bounds}
use oslab.Pmm.Chain.{IsFree, Chain-frame}

-- Free list `k` holds exactly the blocks `xs`.
pub record Pool (heap : Area) (k : ℕ) (nxt : ℕ → ℕ) (mem : Kmem) (xs : List ℕ) : Type 0 where
  pub free : IsFree nxt mem xs
  pub blocks : All (IsBlock heap k) xs
  pub distinct : Distinct xs

-- A pool survives a change of the memory that spares its free blocks.
pub Pool-spare :
    {heap : Area} {k : ℕ} {nxt : ℕ → ℕ} {mem : Kmem} {xs : List ℕ} (nxt' : ℕ → ℕ)
    → Pool heap k nxt mem xs
    → ((a : ℕ) → has a xs ≡ true → nxt' a ≡ nxt a)
    → Pool heap k nxt' mem xs
Pool-spare {nxt} {mem} {xs} nxt' p same = record {
  free = record {
    unlocked = p.free.unlocked;
    chain = Chain-frame nxt nxt' mem.freelist xs same p.free.chain;
  };
  blocks = p.blocks;
  distinct = p.distinct;
}

-- So it survives a change outside its region.
pub Pool-frame :
    {heap : Area} {k : ℕ} {nxt : ℕ → ℕ} {mem : Kmem} {xs : List ℕ} (nxt' : ℕ → ℕ)
    → Pool heap k nxt mem xs
    → ((a : ℕ) → lo heap k ≤ a → a < hi heap k → nxt' a ≡ nxt a)
    → Pool heap k nxt' mem xs
Pool-frame {heap} {k} {xs = xs} nxt' p same = Pool-spare nxt' p (λ a m.
    let b : IsBlock heap k a = All-has (IsBlock heap k) xs a p.blocks m in
    same a b.above (omega (arith, (bsize_bounds k).0, b.below)))

-- The whole allocator, with the blocks of each list.
pub record IsPmm (heap : Area) (s : Pmm) (free : ℕ → List ℕ) : Type 0 where
  pub unlocked : s.g_lock.flag ≡ 0
  pub pools : (k : ℕ) → k < 10 → Pool heap k s.nxt (kmem_of s k) (free k)

-- Putting back list `k`.
abbrev pub put_kmem : Pmm → ℕ → Kmem → Pmm
put_kmem s k mem =
    if ltb k 8
    then record s { smallmem = update s.smallmem k mem }
    else record s { pagemem = update s.pagemem (k - 8) mem }

pub kmem_of-put_self : (s : Pmm) (k : ℕ) (mem : Kmem) → kmem_of (put_kmem s k mem) k ≡ mem
kmem_of-put_self s k mem = ground arith

pub kmem_of-put_ne :
    (s : Pmm) (k j : ℕ) (mem : Kmem) → k ≢ j → kmem_of (put_kmem s k mem) j ≡ kmem_of s j
kmem_of-put_ne s k j mem n = ground arith

pub put_kmem-same :
    (s : Pmm) (k : ℕ) (mem : Kmem)
    → ((put_kmem s k mem).nxt ≡ s.nxt)
      × ((put_kmem s k mem).hbound ≡ s.hbound)
      × ((put_kmem s k mem).g_lock ≡ s.g_lock)
put_kmem-same s k mem = ground arith
