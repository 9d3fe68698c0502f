-- ===== src/Pmm/Alloc.antt =====
-- `kalloc` of kernel/src/pmm.c for sizes up to 8 KiB: it takes the first block of the free list of
-- the least fitting size.
use native.Mathlib.Nat.{pow-le-pow_right}
use oslab.Prelude.{
  ℕ, ◌-◌, ◌≡◌, arith, List, update, leb, if◌then◌else◌, ltb, ◌≢◌, ◌∷◌, [], ◌≤◌, ◌<◌, some, ◌^◌,
  ℕ_discrete, dec_lt, returns, update_self, update_ne, ◌+◌, ◌%◌, lt→ltb, ◌⊎◌, inl, ◌==◌, inr, ◌||◌,
  has, true, false, All, ◌∙◌, Distinct, refl,
}
use oslab.Lock.{round_self}
use oslab.Lock.Round.{IsRound, round_self-IsRound}
use mathlib.Core.Path.{subst}
use oslab.Pmm.{Area, Pmm, Kmem, grab, kalloc, smallalloc, pagealloc, hugealloc}
use oslab.Pmm.Layout.{kmem_of, bsize, IsBlock}
use oslab.Pmm.Chain.{rest, IsFree, first, grab-IsFree}
use oslab.Pmm.Inv.{Pool, IsPmm, put_kmem, put_kmem-same, kmem_of-put_self, kmem_of-put_ne}

-- The list that serves blocks of `2 ^ c` bytes.
abbrev pub list_of : ℕ → ℕ
list_of c = if leb c 4 then 0 else c - 4

-- The blocks after one is taken from list `k`.
abbrev pub take_from : (ℕ → List ℕ) → ℕ → ℕ → List ℕ
take_from free k = update free k (rest (free k))

Pool-rest :
    {heap : Area} {k : ℕ} {nxt : ℕ → ℕ} {mem mem' : Kmem} {xs : List ℕ}
    → Pool heap k nxt mem xs
    → IsFree nxt mem' (rest xs)
    → Pool heap k nxt mem' (rest xs)
Pool-rest {xs = []} p f = record { free = f; blocks = tt; distinct = tt }
Pool-rest {xs = x ∷ xs} p f = record { free = f; blocks = p.blocks.1; distinct = p.distinct.1 }

-- Taking a block of list `k` leaves the other lists as they are.
put-IsPmm :
    {heap : Area} {s : Pmm} {free : ℕ → List ℕ} (k : ℕ) (mem : Kmem)
    → IsPmm heap s free
    → k < 10
    → IsFree s.nxt mem (rest (free k))
    → IsPmm heap (put_kmem s k mem) (take_from free k)
put-IsPmm {heap} {s} {free} k mem v top f = record {
  unlocked = rw (put_kmem-same s k mem).2 v.unlocked;
  pools = λ j lt. elim (ℕ_discrete k j) [
    | yes e ↦
        subst
          (λ i.
            Pool heap i (put_kmem s k mem).nxt (kmem_of (put_kmem s k mem) i) (take_from free k i))
          e
          (rw
            (
              (put_kmem-same s k mem).0,
              kmem_of-put_self s k mem,
              update_self free k (rest (free k)),
            )
            (Pool-rest (v.pools k top) f))
    | no n ↦
        rw
          (
            (put_kmem-same s k mem).0,
            kmem_of-put_ne s k j mem n,
            update_ne free k (rest (free k)) j n,
          )
          (v.pools j lt)
  ];
}

round-le : (size c : ℕ) → size ≤ 2 ^ 13 → IsRound size c → c ≤ 13
round-le size c h r = elim (dec_lt 13 c) [
  | yes big ↦ absurd (
      omega (
        arith,
        r.least (omega arith),
        pow-le-pow_right {n = 2} (omega arith) {i = 13} {j = c - 1} (omega arith),
      ))
  | no small ↦ omega arith
]

smallalloc-grab :
    (sz r : ℕ) (s : Pmm) (mem : Kmem)
    → 4 ≤ sz
    → sz < 12
    → grab (s.smallmem (sz - 4)) s.nxt ≡ returns (r, mem)
    → smallalloc sz s ≡ returns (r, record s { smallmem = update s.smallmem (sz - 4) mem })
unfolding smallalloc
smallalloc-grab sz r s mem low high got =
    let e : (2 ^ 64 + sz - 4) % 2 ^ 64 ≡ sz - 4 = omega arith in
    rw (e, lt→ltb (sz - 4) 8 (omega arith), got)

pagealloc-grab :
    (sz r : ℕ) (s : Pmm) (mem : Kmem)
    → (sz ≡ 12) ⊎ (sz ≡ 13)
    → grab (s.pagemem (sz - 12)) s.nxt ≡ returns (r, mem)
    → pagealloc sz s ≡ returns (r, record s { pagemem = update s.pagemem (sz - 12) mem })
unfolding pagealloc
pagealloc-grab sz r s mem (inl e) got = rw e (rw (rw e at got))
pagealloc-grab sz r s mem (inr e) got = rw e (rw (rw e at got))

-- Which list `kalloc` reads: the branches of `kalloc`, `smallalloc` and `pagealloc` together.
kalloc-grab :
    (heap : Area) (size c r : ℕ) (s : Pmm) (mem : Kmem)
    → round_self size ≡ some c
    → c ≤ 13
    → grab (kmem_of s (list_of c)) s.nxt ≡ returns (r, mem)
    → kalloc heap size s ≡ returns (r, put_kmem s (list_of c) mem)
unfolding kalloc
kalloc-grab heap size c r s mem e le got =
    rw (e, kalloc)
      (elim (dec_lt c 12) [
        | yes small ↦ ground (arith, smallalloc-grab 4 r s mem, smallalloc-grab c r s mem)
        | no big ↦ page_case (omega arith)
      ])
  where
    page_case :
        (c ≡ 12) ⊎ (c ≡ 13)
        → (if leb c 4
            then smallalloc 4 s
            else if ltb c 12
            then smallalloc c s
            else if (c == 12) || (c == 13)
            then pagealloc c s
            else hugealloc heap c s)
          ≡ returns (r, put_kmem s (list_of c) mem)
    page_case h = ground (arith, pagealloc-grab c r s mem h)

-- What a call of `kalloc` for at most 8 KiB does to the blocks `free` of the lists.
pub record Allocated (heap : Area) (size : ℕ) (s : Pmm) (free : ℕ → List ℕ) : Type 0 where
  pub exponent : ℕ
  pub round : IsRound size exponent
  pub low : list_of exponent < 10
  pub after : Pmm
  pub run : kalloc heap size s ≡ returns (first (free (list_of exponent)), after)
  pub valid : IsPmm heap after (take_from free (list_of exponent))
  pub same : (after.nxt ≡ s.nxt) × (after.hbound ≡ s.hbound)

-- `kalloc` of at most 8 KiB returns the first block of the list of the least power of two that
-- holds the size (16 at least), or the null pointer if that list is empty; it takes this block
-- off, keeps the invariant of the allocator, and writes no memory.
pub kalloc-Allocated :
    {heap : Area} {s : Pmm} {free : ℕ → List ℕ} (size : ℕ)
    → size ≤ 2 ^ 13
    → IsPmm heap s free
    → Allocated heap size s free
kalloc-Allocated {heap} {s} {free} size h v =
    let (c, e, round) = round_self-IsRound size (omega arith) in
    let le : c ≤ 13 = round-le size c h round in
    let low : list_of c < 10 = ground arith in
    let (mem, got, f) =
      grab-IsFree (kmem_of s (list_of c)) s.nxt (free (list_of c)) (v.pools (list_of c) low).free in
    record {
      exponent = c;
      round = round;
      low = low;
      after = put_kmem s (list_of c) mem;
      run = kalloc-grab heap size c (first (free (list_of c))) s mem e le got;
      valid = put-IsPmm (list_of c) mem v low f;
      same = ((put_kmem-same s (list_of c) mem).0, (put_kmem-same s (list_of c) mem).1);
    }

fits_block : (size c : ℕ) → IsRound size c → size ≤ bsize (list_of c)
fits_block size c r = omega (
  arith,
  r.fits,
  pow-le-pow_right {n = 2} (omega arith) {i = c} {j = 4 + list_of c} (ground arith),
)

first_block :
    (P : ℕ → Type 0) (xs : List ℕ)
    → first xs ≢ 0
    → All P xs
    → Distinct xs
    → P (first xs) × (has (first xs) xs ≡ true) × (has (first xs) (rest xs) ≡ false)
first_block P [] n h d = absurd (n refl)
first_block P (x ∷ xs) n h d = (h.0, ground arith, d.0)

-- A block that `kalloc` returns for at most 8 KiB is large enough, aligned to its size and inside
-- the region of its list, and `kalloc` has taken it off the free blocks.
pub kalloc-IsBlock :
    {heap : Area} {s t : Pmm} {free : ℕ → List ℕ} (size p : ℕ)
    → size ≤ 2 ^ 13
    → IsPmm heap s free
    → kalloc heap size s ≡ returns (p, t)
    → p ≢ 0
    → (k : ℕ) × (k < 10)
      × (size ≤ bsize k)
      × IsBlock heap k p
      × (has p (free k) ≡ true)
      × IsPmm heap t (take_from free k)
      × (has p (take_from free k k) ≡ false)
kalloc-IsBlock {heap} {s} {t} {free} size p h v run ne =
    let a = kalloc-Allocated size h v in
    let k = list_of a.exponent in
    let e : p ≡ first (free k) = cc (run, a.run) in
    let et : t ≡ a.after = cc (run, a.run) in
    let pool = v.pools k a.low in
    let (block, on, off) =
      first_block (IsBlock heap k) (free k) (λ z. ne (e ∙ z)) pool.blocks pool.distinct in
    (
      k,
      a.low,
      fits_block size a.exponent a.round,
      rw e block,
      rw e on,
      rw et a.valid,
      rw (e, update_self free k (rest (free k))) off,
    )
