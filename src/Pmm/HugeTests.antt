-- ===== src/Pmm/HugeTests.antt =====
-- Runs of `hugealloc` of kernel/src/pmm.c on a heap of 16 MiB.
use oslab.Prelude.{ℕ, ◌≡◌, ◌≤◌, ◌<◌, returns, ◌+◌, arith, refl, ◌^◌}
use oslab.Lock.{lock, unlock}
use oslab.Pmm.{Area, Pmm, hugealloc, roundup}
use oslab.Pmm.Huge.{moved, hugealloc_lem, huge_disjoint, huge_overlap}

abbrev heap : Area
heap = record { start = 0x200000; end = 0x1200000 }

-- The bound of the huge blocks stands at `bound`.
abbrev at_bound : ℕ → Pmm
at_bound bound = record {
  g_lock = record { flag = 0 };
  smallmem = λ i. record { m = record { flag = 0 }; freelist = 0 };
  pagemem = λ i. record { m = record { flag = 0 }; freelist = 0 };
  hbound = bound;
  nxt = λ a. 0;
}

hugealloc_lem_example :
    hugealloc heap 20 (at_bound 0x1000000)
    ≡ returns (0x1000000, moved (at_bound 0x1000000) 0x1100000)
unfolding roundup
hugealloc_lem_example = hugealloc_lem heap 20 (at_bound 0x1000000) (omega arith) refl (omega arith)

abbrev state_at : ℕ → Pmm
state_at bound = moved (at_bound 0) bound

aligned_one : hugealloc heap 16 (state_at 0x1000000) ≡ returns (0x1000000, state_at 0x1010000)
unfolding hugealloc lock unlock roundup
aligned_one = refl

aligned_two : hugealloc heap 14 (state_at 0x1010000) ≡ returns (0x1010000, state_at 0x1014000)
unfolding hugealloc lock unlock roundup
aligned_two = refl

huge_disjoint_example :
    (0x1000000 ≤ 0x1000000) × (0x1000000 + 2 ^ 16 ≤ 0x1010000) × (0x1010000 + 2 ^ 14 ≤ heap.end)
huge_disjoint_example =
    huge_disjoint heap 16 14 (state_at 0x1000000) (state_at 0x1010000) (state_at 0x1014000)
      0x1000000 0x1010000 (omega arith) (omega arith) refl (omega arith) (omega arith) aligned_one
      aligned_two refl

unaligned_one : hugealloc heap 16 (state_at 0x1004000) ≡ returns (0x1010000, state_at 0x1014000)
unfolding hugealloc lock unlock roundup
unaligned_one = refl

unaligned_two : hugealloc heap 14 (state_at 0x1014000) ≡ returns (0x1014000, state_at 0x1018000)
unfolding hugealloc lock unlock roundup
unaligned_two = refl

huge_overlap_example : (0x1010000 < 0x1014000) × (0x1014000 < 0x1010000 + 2 ^ 16)
huge_overlap_example =
    huge_overlap heap 16 14 (state_at 0x1004000) (state_at 0x1014000) (state_at 0x1018000) 0x1010000
      0x1014000 (omega arith) (omega arith) refl (omega arith) (omega arith) unaligned_one
      unaligned_two refl (omega arith)
