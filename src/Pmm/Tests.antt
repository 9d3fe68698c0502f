-- ===== src/Pmm/Tests.antt =====
-- Runs of the allocator of kernel/src/pmm.c on a heap of 4 KiB, whose eight small regions have 256
-- bytes each.
use oslab.Prelude.{
  ℕ, [], ◌∷◌, ◌≡◌, refl, Outcome, returns, panics, arith, ◌≤◌, ◌+◌, ◌<◌, ◌⊎◌, true, false, has,
  update,
}
use oslab.Lock.{lockinit, lock, unlock, round_self, round_self_loop}
use oslab.Pmm.{
  Pmm, kinit, kinit_smalls, kinit_small, kinit_page, kalloc, smallalloc, fill, give, grab, roundup,
  heapsize, startaddr, pagestart, mpagestart, hugestart, kfree,
}
use oslab.Pmm.Layout.{IsBlock, kmem_of, bsize}
use oslab.Pmm.Client.{Reach, World, boot, next, alloc}
use oslab.Pmm.Client.Safety.{live_disjoint, live_once}
use oslab.Pmm.Client.Owned.{Apart}
use oslab.Pmm.Init.{Initial, kinit-Initial}
use oslab.Pmm.Inv.{IsPmm}
use oslab.Pmm.Alloc.{Allocated, kalloc-Allocated, take_from, kalloc-IsBlock}
use oslab.Pmm.Free.{kfree_first_page, kfree-IsPmm}
use oslab.Pmm.Samples.{heap, heap-IsHeap, lone, lone_free, lone-IsPmm, other-IsBlock, not_pagestart}

abbrev blank : Pmm
blank = record {
  g_lock = record { flag = 7 };
  smallmem = λ i. record { m = record { flag = 7 }; freelist = 5 };
  pagemem = λ i. record { m = record { flag = 7 }; freelist = 5 };
  hbound = 3;
  nxt = λ a. 9;
}

abbrev state_of : Outcome Pmm → Pmm
state_of (returns s) = s
state_of o = blank

abbrev block_of : Outcome (ℕ × Pmm) → ℕ × Pmm
block_of (returns r) = r
block_of o = (0, blank)

abbrev start_state : Pmm
unfolding kinit kinit_smalls kinit_small kinit_page fill give lock lockinit unlock roundup heapsize
    startaddr pagestart mpagestart hugestart
start_state = state_of (kinit heap blank)

boots : kinit heap blank ≡ returns start_state
unfolding kinit kinit_smalls kinit_small kinit_page fill give lock lockinit unlock roundup heapsize
    startaddr pagestart mpagestart hugestart
boots = refl

abbrev one : ℕ × Pmm
unfolding kalloc smallalloc grab lock unlock round_self round_self_loop
one = block_of (kalloc heap 100 start_state)

abbrev two : ℕ × Pmm
unfolding kalloc smallalloc grab lock unlock round_self round_self_loop
two = block_of (kalloc heap 120 one.1)

one_runs : kalloc heap 100 start_state ≡ returns (0x100380, one.1)
unfolding kalloc smallalloc grab lock unlock round_self round_self_loop start_state
one_runs = refl

two_runs : kalloc heap 120 one.1 ≡ returns (0x100300, two.1)
unfolding kalloc smallalloc grab lock unlock round_self round_self_loop start_state
two_runs = refl

abbrev two_held : World
two_held = record {
  s = two.1;
  live = record { at = 0x100300; size = 120 } ∷ record { at = 0x100380; size = 100 } ∷ [];
}

two_held-Reach : Reach heap two_held
two_held-Reach =
    next
      (next (boot blank start_state boots)
        (alloc 100 0x100380 one.1 (omega arith) one_runs (omega arith)))
      (alloc 120 0x100300 two.1 (omega arith) two_runs (omega arith))

live_disjoint_example : (0x100300 + 120 ≤ 0x100380) ⊎ (0x100380 + 100 ≤ 0x100300)
live_disjoint_example =
    live_disjoint heap-IsHeap {w = two_held} 0x100300 120 0x100380 100 two_held-Reach refl refl
      (omega arith)

live_once_example : Apart two_held.live × (heap.start ≤ 0x100380) × (0x100380 + 100 ≤ heap.end)
live_once_example = live_once heap-IsHeap {w = two_held} 0x100380 100 two_held-Reach refl

kinit-Initial_example : (t : Pmm) × (kinit heap blank ≡ returns t) × Initial heap t
kinit-Initial_example = kinit-Initial heap-IsHeap blank

kalloc-Allocated_example : Allocated heap 100 lone lone_free
kalloc-Allocated_example = kalloc-Allocated 100 (omega arith) lone-IsPmm

abbrev taken : ℕ × Pmm
unfolding kalloc smallalloc grab lock unlock round_self round_self_loop
taken = block_of (kalloc heap 100 lone)

taken_runs : kalloc heap 100 lone ≡ returns (0x100300, taken.1)
unfolding kalloc smallalloc grab lock unlock round_self round_self_loop
taken_runs = refl

kalloc-IsBlock_example :
    (k : ℕ) × (k < 10)
    × (100 ≤ bsize k)
    × IsBlock heap k 0x100300
    × (has 0x100300 (lone_free k) ≡ true)
    × IsPmm heap taken.1 (take_from lone_free k)
    × (has 0x100300 (take_from lone_free k k) ≡ false)
kalloc-IsBlock_example =
    kalloc-IsBlock 100 0x100300 (omega arith) lone-IsPmm taken_runs (omega arith)

kfree-IsPmm_example :
    (t : Pmm) × (kfree heap 0x100280 lone ≡ returns t)
    × IsPmm heap t (update lone_free 2 (0x100280 ∷ lone_free 2))
    × (t.nxt ≡ update lone.nxt 0x100280 (kmem_of lone 2).freelist)
    × (t.hbound ≡ lone.hbound)
kfree-IsPmm_example =
    kfree-IsPmm heap-IsHeap 2 0x100280 lone-IsPmm (omega arith) other-IsBlock refl not_pagestart

kfree_first_page_example : kfree heap (pagestart heap) lone ≡ panics
kfree_first_page_example = kfree_first_page heap-IsHeap lone (omega arith)
