-- ===== src/Pmm.antt =====
-- kernel/src/pmm.c with the macros and records of kernel/include/common.h: the allocator of the
-- kernel's heap. Addresses are native numbers, and `uintptr_t` arithmetic is written modulo 2^64.
-- The heap's bounds are AM's `heap`. A store through `list *` is a store in `nxt`, the words of
-- the memory at the addresses of blocks.
pub mod Chain
pub mod Layout
pub mod Fill
pub mod Inv
pub mod Init
pub mod Alloc
pub mod Free
pub mod Huge
pub mod Client
pub mod Samples
mod Tests
mod HugeTests
use oslab.Prelude.{
  ℕ, zero, suc, ◌+◌, ◌-◌, ◌*◌, ◌/◌, ◌%◌, ◌^◌, Bool, true, false, Option, none, some, ◌&&◌, ltb, leb,
  ◌==◌, if◌then◌else◌, Outcome, returns, panics, spins, undefined, no_fuel, ◌>>=◌, ◌>>◌, assert,
  update, ◌||◌,
}
use oslab.Lock.{LockT, round_self, lockinit, lock, unlock}

-- AM's `Area heap`
pub record Area : Type 0 where
  pub start : ℕ
  pub end : ℕ

-- `kmem`, a lock and a free list; the null pointer is 0.
pub record Kmem : Type 0 where
  pub m : LockT
  pub freelist : ℕ

-- The global variables of the allocator and the memory that the free lists run through.
pub record Pmm : Type 0 where
  pub g_lock : LockT
  pub smallmem : ℕ → Kmem
  pub pagemem : ℕ → Kmem
  pub hbound : ℕ
  pub nxt : ℕ → ℕ

abbrev pub page_size : ℕ
page_size = 2 ^ 12

abbrev pub mpage_size : ℕ
mpage_size = 2 ^ 13

-- `ROUNDUP(a, sz)`: for a power of two the mask `& ~(sz - 1)` clears the low bits.
unfoldable pub roundup : ℕ → ℕ → ℕ
roundup a sz = (a + sz - 1) % 2 ^ 64 / sz * sz

-- `HEAPSIZE`, `STARTADDR(i)`, `PAGESTART`, `MPAGESTART`, `HUGESTART`
unfoldable pub heapsize : Area → ℕ
heapsize heap = (2 ^ 64 + heap.end - heap.start) % 2 ^ 64

unfoldable pub startaddr : Area → ℕ → ℕ
startaddr heap i = (heap.start + heapsize heap / 16 * i) % 2 ^ 64

unfoldable pub pagestart : Area → ℕ
pagestart heap = (heap.start + heapsize heap / 2) % 2 ^ 64

unfoldable pub mpagestart : Area → ℕ
mpagestart heap = (pagestart heap + heapsize heap / 4) % 2 ^ 64

unfoldable pub hugestart : Area → ℕ
hugestart heap = (mpagestart heap + heapsize heap / 8) % 2 ^ 64

-- Both push a block on a free list under the list's lock: `kinit` and `sfree` have this text.
unfoldable pub give : ℕ → Kmem → (ℕ → ℕ) → Outcome (Kmem × (ℕ → ℕ))
give p mem nxt = do
  held ← lock mem.m
  returns (record { m = unlock held; freelist = p }, update nxt p mem.freelist)

-- `list *r = NULL; lock; if (freelist) { r = freelist; freelist = r->nxt; } unlock; return r`
unfoldable pub grab : Kmem → (ℕ → ℕ) → Outcome (ℕ × Kmem)
grab mem nxt = do
  held ← lock mem.m
  if mem.freelist == 0
      then returns (0, record { m = unlock held; freelist = mem.freelist })
      else returns (mem.freelist, record { m = unlock held; freelist = nxt mem.freelist })

-- `for ( ; p + sz <= bound; p += sz) { assert; assert; push p }`
unfoldable pub fill : ℕ → ℕ → ℕ → ℕ → Kmem → (ℕ → ℕ) → Outcome (Kmem × (ℕ → ℕ))
fill zero sz bound p mem nxt = no_fuel
fill (suc fuel) sz bound p mem nxt = elim (leb ((p + sz) % 2 ^ 64) bound) [
  | false ↦ returns (mem, nxt)
  | true ↦ do
    assert (p % sz == 0)
    assert (leb p bound)
    (mem', nxt') ← give p mem nxt
    fill fuel sz bound ((p + sz) % 2 ^ 64) mem' nxt'
]

abbrev pub fresh : Kmem
unfolding lockinit
fresh = record { m = lockinit; freelist = 0 }

module _ (heap : Area) where
  -- The fuel: a block has 16 bytes at least, so the heap's size is more rounds than any loop makes.
  abbrev pub fill_fuel : ℕ
  fill_fuel = heapsize heap + 1

  -- The body of `for (int i = 0; i < 8; i++)` in `kinit`.
  unfoldable pub kinit_small : ℕ → Pmm → Outcome Pmm
  kinit_small i s = do
    let sz = 2 ^ (4 + i)
    (mem, nxt) ←
        fill fill_fuel sz (startaddr heap (i + 1)) (roundup (startaddr heap i) sz)
          (record { m = lockinit; freelist = 0 }) s.nxt
    returns (record s { smallmem = update s.smallmem i mem; nxt = nxt })

  unfoldable pub kinit_smalls : ℕ → ℕ → Pmm → Outcome Pmm
  kinit_smalls zero i s = returns s
  kinit_smalls (suc n) i s = kinit_small i s >>= kinit_smalls n (i + 1)

  -- The parts of `kinit` for `pagemem[0]` and `pagemem[1]`.
  unfoldable pub kinit_page : ℕ → ℕ → ℕ → ℕ → Pmm → Outcome Pmm
  kinit_page j sz from bound s = do
    (mem, nxt) ←
        fill fill_fuel sz bound (roundup from sz) (record { m = lockinit; freelist = 0 }) s.nxt
    returns (record s { pagemem = update s.pagemem j mem; nxt = nxt })

  unfoldable pub kinit : Pmm → Outcome Pmm
  kinit s = do
    s ← kinit_smalls 8 0 (record s { hbound = hugestart heap; g_lock = lockinit })
    s ← kinit_page 0 page_size (pagestart heap) (mpagestart heap) s
    kinit_page 1 mpage_size (mpagestart heap) (hugestart heap) s

-- An index outside `smallmem[8]` is undefined behaviour; `sz - 4` is `size_t` arithmetic.
unfoldable pub smallalloc : ℕ → Pmm → Outcome (ℕ × Pmm)
smallalloc sz s =
    let i = (2 ^ 64 + sz - 4) % 2 ^ 64 in
    if ltb i 8
    then (do
      (r, mem) ← grab (s.smallmem i) s.nxt
      returns (r, record s { smallmem = update s.smallmem i mem }))
    else undefined

unfoldable pub pagealloc : ℕ → Pmm → Outcome (ℕ × Pmm)
pagealloc sz s =
    if sz == 12
    then (do
      (r, mem) ← grab (s.pagemem 0) s.nxt
      returns (r, record s { pagemem = update s.pagemem 0 mem }))
    else if sz == 13
    then (do
      (r, mem) ← grab (s.pagemem 1) s.nxt
      returns (r, record s { pagemem = update s.pagemem 1 mem }))
    else returns (0, s)

module _ (heap : Area) where
  -- `1 << sz` is an `int`, undefined from 31 on. The bound is read again after the unlock.
  unfoldable pub hugealloc : ℕ → Pmm → Outcome (ℕ × Pmm)
  hugealloc sz s =
      if ltb sz 31
      then (do
        let tsz = 2 ^ sz
        held ← lock s.g_lock
        let bound = (s.hbound + tsz) % 2 ^ 64
        let s' : Pmm = record s { g_lock = unlock held; hbound = bound }
        if ltb heap.end bound then returns (0, s') else returns (roundup s.hbound tsz, s'))
      else undefined

  -- `id = -1; for (i = 0; i < 8; i++) if (STARTADDR(i) <= ptr < STARTADDR(i + 1)) id = i;`
  unfoldable pub find_id : ℕ → ℕ → ℕ → Option ℕ → Option ℕ
  find_id zero i ptr id = id
  find_id (suc n) i ptr id =
      find_id n (i + 1) ptr
        (if leb (startaddr heap i) ptr && ltb ptr (startaddr heap (i + 1)) then some i else id)

  unfoldable pub sfree : ℕ → Pmm → Outcome Pmm
  sfree ptr s =
      if leb ptr (pagestart heap)
      then elim (find_id 8 0 ptr none) [
        | none ↦ panics
        | some id ↦ do
          (mem, nxt) ← give ptr (s.smallmem id) s.nxt
          returns (record s { smallmem = update s.smallmem id mem; nxt = nxt })
      ]
      else (do
        let id : ℕ = if leb (mpagestart heap) ptr then 1 else 0
        (mem, nxt) ← give ptr (s.pagemem id) s.nxt
        returns (record s { pagemem = update s.pagemem id mem; nxt = nxt }))

  unfoldable pub hfree : ℕ → Pmm → Outcome Pmm
  hfree ptr s = returns s

  -- `ROUND_SELF` does not return above 2^63.
  unfoldable pub kalloc : ℕ → Pmm → Outcome (ℕ × Pmm)
  kalloc size s = elim (round_self size) [
    | none ↦ spins
    | some sz ↦
        if leb sz 4
        then smallalloc 4 s
        else if ltb sz 12
        then smallalloc sz s
        else if (sz == 12) || (sz == 13)
        then pagealloc sz s
        else hugealloc sz s
  ]

  unfoldable pub kfree : ℕ → Pmm → Outcome Pmm
  kfree ptr s = if leb (hugestart heap) ptr then hfree ptr s else sfree ptr s

  -- The interrupt flag of the CPU stands beside the state: `ienabled()` reads it, `iset` sets it.
  unfoldable pub safe_kalloc : ℕ → Bool × Pmm → Outcome (ℕ × Bool × Pmm)
  safe_kalloc size (i, s) = do
    (ret, s') ← kalloc size s
    returns (ret, (if i then true else false), s')

  unfoldable pub safe_kfree : ℕ → Bool × Pmm → Outcome (Bool × Pmm)
  safe_kfree ptr (i, s) = do s' ← kfree ptr s; returns ((if i then true else false), s')
