-- ===== src/Pmm/Samples.antt =====
-- A heap of 4 KiB for the allocator of kernel/src/pmm.c, and an allocator with one free block.
use oslab.Prelude.{ℕ, List, [], ◌∷◌, ◌≡◌, ◌≢◌, refl, arith, if◌then◌else◌, ◌==◌, ℕ_discrete}
use oslab.Pmm.{Area, Pmm, heapsize, startaddr, pagestart}
use oslab.Pmm.Layout.{IsHeap, IsBlock, kmem_of}
use oslab.Pmm.Inv.{IsPmm, Pool}
use mathlib.Core.Path.{subst, sym}

abbrev pub heap : Area
heap = record { start = 0x100000; end = 0x101000 }

pub heap-IsHeap : IsHeap heap
heap-IsHeap = record { pos = omega arith; le = omega arith; room = omega arith }

-- An allocator whose only free block is the one of 128 bytes at 0x100300.
abbrev pub lone : Pmm
lone = record {
  g_lock = record { flag = 0 };
  smallmem = λ i. record { m = record { flag = 0 }; freelist = if i == 3 then 0x100300 else 0 };
  pagemem = λ i. record { m = record { flag = 0 }; freelist = 0 };
  hbound = 0x100f00;
  nxt = λ a. 0;
}

abbrev pub lone_free : ℕ → List ℕ
lone_free k = if k == 3 then 0x100300 ∷ [] else []

pub lone-IsBlock : IsBlock heap 3 0x100300
unfolding startaddr heapsize
lone-IsBlock = record { above = omega arith; below = omega arith; aligned = refl }

lone_list : Pool heap 3 lone.nxt (kmem_of lone 3) (lone_free 3)
lone_list = record {
  free = record { unlocked = refl; chain = (refl, omega arith, refl) };
  blocks = (lone-IsBlock, tt);
  distinct = (refl, tt);
}

lone_other :
    (k : ℕ)
    → k ≢ 3
    → (lone_free k ≡ []) × (kmem_of lone k ≡ record { m = record { flag = 0 }; freelist = 0 })
lone_other k n = (ground arith, ground arith)

pub lone-IsPmm : IsPmm heap lone lone_free
lone-IsPmm = record {
  unlocked = refl;
  pools = λ k lt. elim (ℕ_discrete k 3) [
    | yes e ↦ subst (λ i. Pool heap i lone.nxt (kmem_of lone i) (lone_free i)) (sym e) lone_list
    | no n ↦
        rw ((lone_other k n).0, (lone_other k n).1)
          (record { free = record { unlocked = refl; chain = refl }; blocks = tt; distinct = tt })
  ];
}

pub other-IsBlock : IsBlock heap 2 0x100280
unfolding startaddr heapsize
other-IsBlock = record { above = omega arith; below = omega arith; aligned = refl }

pub not_pagestart : 0x100280 ≢ pagestart heap
unfolding pagestart heapsize
not_pagestart = omega arith
