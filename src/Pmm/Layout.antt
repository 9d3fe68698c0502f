-- ===== src/Pmm/Layout.antt =====
-- The division of the heap into the regions of the allocator of kernel/src/pmm.c: eight for small
-- blocks of 2^4 to 2^11 bytes, one for pages, one for double pages, and what is left for huge
-- blocks. The ten free lists are numbered, `smallmem` first.
use native.Mathlib.Nat.{pow-le-pow_right}
use oslab.Prelude.{ℕ, ◌+◌, ◌-◌, ◌*◌, ◌/◌, ◌%◌, ◌^◌, ◌≤◌, ◌<◌, ◌≡◌, arith, ltb, ◌==◌, if◌then◌else◌}
use oslab.Pmm.{Area, Pmm, Kmem, heapsize, startaddr, pagestart, mpagestart, hugestart}

-- What AM promises of `heap`: it does not hold the null pointer, and ends well below 2^64.
pub record IsHeap (heap : Area) : Type 0 where
  pub pos : 0 < heap.start
  pub le : heap.start ≤ heap.end
  pub room : heap.end + 2 ^ 32 ≤ 2 ^ 64

abbrev pub bsize : ℕ → ℕ
bsize k = 2 ^ (4 + k)

abbrev pub lo : Area → ℕ → ℕ
lo heap k = if ltb k 8 then startaddr heap k else if k == 8 then pagestart heap else mpagestart heap

abbrev pub hi : Area → ℕ → ℕ
hi heap k =
    if ltb k 8 then startaddr heap (k + 1) else if k == 8 then mpagestart heap else hugestart heap

abbrev pub kmem_of : Pmm → ℕ → Kmem
kmem_of s k = if ltb k 8 then s.smallmem k else s.pagemem (k - 8)

-- A block of the region from `from` to `bound`.
pub record IsCut (sz from bound a : ℕ) : Type 0 where
  pub above : from ≤ a
  pub below : a + sz ≤ bound
  pub aligned : a % sz ≡ 0

-- A block of list `k`: aligned to its size and inside its region.
abbrev pub IsBlock : Area → ℕ → ℕ → Type 0
IsBlock heap k p = IsCut (bsize k) (lo heap k) (hi heap k) p

-- Each block is longer than a pointer, and a double page is the longest.
pub bsize_bounds : (k : ℕ) → (2 ^ 4 ≤ bsize k) × (k < 10 → bsize k ≤ 2 ^ 13)
bsize_bounds k = (
  pow-le-pow_right {n = 2} (omega arith) {i = 4} {j = 4 + k} (omega arith),
  λ h. pow-le-pow_right {n = 2} (omega arith) {i = 4 + k} {j = 13} (omega arith),
)

mul_mono : (q i j : ℕ) → i ≤ j → q * i ≤ q * j
mul_mono q i j h = grind arith

module _ {heap : Area} (h : IsHeap heap) where
  pub heapsize_lem : heapsize heap ≡ heap.end - heap.start
  unfolding heapsize
  heapsize_lem = omega arith

  pub startaddr_lem :
      (i : ℕ) → i ≤ 8 → startaddr heap i ≡ heap.start + (heap.end - heap.start) / 16 * i
  unfolding startaddr
  startaddr_lem i le =
      rw heapsize_lem (omega (arith, mul_mono ((heap.end - heap.start) / 16) i 8 le))

  pub startaddr_mono : (i j : ℕ) → i ≤ j → j ≤ 8 → startaddr heap i ≤ startaddr heap j
  startaddr_mono i j le top =
      rw (startaddr_lem i (omega arith), startaddr_lem j top)
        (omega (arith, mul_mono ((heap.end - heap.start) / 16) i j le))

  pub startaddr-le-pagestart : startaddr heap 8 ≤ pagestart heap
  unfolding pagestart
  startaddr-le-pagestart = rw (startaddr_lem 8 (omega arith), heapsize_lem) (omega arith)

  pub start-le-startaddr : (i : ℕ) → i ≤ 8 → heap.start ≤ startaddr heap i
  start-le-startaddr i le = rw (startaddr_lem i le) (omega arith)

  pub pages_order :
      (pagestart heap ≤ mpagestart heap)
      × (mpagestart heap ≤ hugestart heap)
      × (hugestart heap ≤ heap.end)
      × (heap.start ≤ pagestart heap)
  unfolding pagestart mpagestart hugestart
  pages_order = rw heapsize_lem (omega arith)

  pub pagestart-lt-hugestart : 8 ≤ heap.end - heap.start → pagestart heap < hugestart heap
  unfolding pagestart mpagestart hugestart
  pagestart-lt-hugestart big = rw heapsize_lem (omega arith)

  pub hi-le-lo : (j k : ℕ) → j < k → k < 10 → hi heap j ≤ lo heap k
  hi-le-lo j k lt top = ground (
    arith,
    startaddr_mono (j + 1) k,
    startaddr_mono (j + 1) 8,
    startaddr-le-pagestart,
    pages_order,
  )

  pub lo-ne-zero : (k : ℕ) → k < 10 → 0 < lo heap k
  lo-ne-zero k top = ground (arith, start-le-startaddr k, pages_order, h.pos)

  pub hi-le-hugestart : (k : ℕ) → k < 10 → hi heap k ≤ hugestart heap
  hi-le-hugestart k top =
      ground (arith, startaddr_mono (k + 1) 8, startaddr-le-pagestart, pages_order)

  pub lo-le-end : (k : ℕ) → k < 10 → (lo heap k ≤ heap.end) × (hi heap k ≤ heap.end)
  lo-le-end k top =
      ground
        (arith, startaddr_mono k 8, startaddr_mono (k + 1) 8, startaddr-le-pagestart, pages_order)

  pub start-le-lo : (k : ℕ) → k < 10 → heap.start ≤ lo heap k
  start-le-lo k top = ground (arith, start-le-startaddr k, pages_order)

pub small_bounds :
    (heap : Area) (k : ℕ)
    → k < 8
    → (lo heap k ≡ startaddr heap k) × (hi heap k ≡ startaddr heap (k + 1))
small_bounds heap k h = (ground arith, ground arith)

pub kmem_small : (s : Pmm) (k : ℕ) → k < 8 → kmem_of s k ≡ s.smallmem k
kmem_small s k h = ground arith
