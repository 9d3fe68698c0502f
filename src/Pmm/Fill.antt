-- ===== src/Pmm/Fill.antt =====
-- The loop of `kinit` in kernel/src/pmm.c that cuts a region into blocks.
use native.Mathlib.Nat.{div-add-mod, div-add-mod', mod-lt, add-mod_right, mul-mod_left}
use oslab.Prelude.{
  ℕ, ◌+◌, ◌-◌, ◌*◌, ◌/◌, ◌%◌, ◌^◌, ◌≤◌, ◌<◌, ◌≡◌, inl, inr, arith, ltb, ltb→lt, ltb_false→le, ◌∙◌,
  Bool-cases, List, returns, suc, All, update, Distinct, ◌∷◌, has, All-imp, true, not-has, ◌⊎◌, leb,
  false, leb→le, ◌==◌, leb_false→lt, zero, ==_iff, le→leb, ap, [], refl,
}
use oslab.Pmm.{roundup, Kmem, fill, give}
use oslab.Pmm.Layout.{IsCut}
use oslab.Pmm.Chain.{IsFree, give-IsFree}

mul_mono : (a b n : ℕ) → a ≤ b → a * n ≤ b * n
mul_mono a b n h = grind arith

multiple : (a sz : ℕ) → a % sz ≡ 0 → a ≡ a / sz * sz
multiple a sz h = grind (arith, div-add-mod)

-- Of two multiples of `sz` the smaller is smaller by `sz` at least.
pub aligned_gap : (sz a p : ℕ) → a % sz ≡ 0 → p % sz ≡ 0 → a < p → a + sz ≤ p
aligned_gap sz a p ha hp lt = elim (Bool-cases (ltb (a / sz) (p / sz))) [
  | inl less ↦ omega (
    arith,
    multiple a sz ha,
    multiple p sz hp,
    mul_mono (a / sz + 1) (p / sz) sz (omega (arith, ltb→lt (a / sz) (p / sz) less)),
  )
  | inr more ↦ absurd (
      omega (
        arith,
        multiple a sz ha,
        multiple p sz hp,
        mul_mono (p / sz) (a / sz) sz (ltb_false→le (a / sz) (p / sz) more),
      ))
]

pub mod-add_self : (a n : ℕ) → a % n ≡ 0 → (a + n) % n ≡ 0
mod-add_self a n h = add-mod_right a n ∙ h

module _ (sz : ℕ) (pos : 0 < sz) where
  pub roundup_bounds :
      (a : ℕ)
      → a + sz < 2 ^ 64
      → (a ≤ roundup a sz) × (roundup a sz < a + sz) × (roundup a sz % sz ≡ 0)
  unfolding roundup
  roundup_bounds a h =
      let e : (a + sz - 1) % 2 ^ 64 ≡ a + sz - 1 = omega arith in
      rw e (
        omega (arith, div-add-mod' (a + sz - 1) sz, mod-lt (a + sz - 1) pos),
        omega (arith, div-add-mod' (a + sz - 1) sz, mod-lt (a + sz - 1) pos),
        mul-mod_left ((a + sz - 1) / sz) sz,
      )

-- What the loop has done when it stops: the free list holds each block of the region once, and
-- memory outside the region is as before.
pub record Cut (sz from bound : ℕ) (old : ℕ → ℕ) (mem : Kmem) (nxt : ℕ → ℕ) : Type 0 where
  pub blocks : List ℕ
  pub free : IsFree nxt mem blocks
  pub within : All (IsCut sz from bound) blocks
  pub distinct : Distinct blocks
  pub complete : (a : ℕ) → IsCut sz from bound a → has a blocks ≡ true
  pub same : (a : ℕ) → (a < from) ⊎ (bound ≤ a) → nxt a ≡ old a

-- The same while the loop is at `p`.
record Cutting (sz from bound p : ℕ) (old : ℕ → ℕ) (mem : Kmem) (nxt : ℕ → ℕ) (blocks : List ℕ)
    : Type 0 where
  free : IsFree nxt mem blocks
  within : All (IsCut sz from bound) blocks
  before : All (λ a. a < p) blocks
  distinct : Distinct blocks
  complete : (a : ℕ) → IsCut sz from bound a → a < p → has a blocks ≡ true
  same : (a : ℕ) → (a < from) ⊎ (bound ≤ a) → nxt a ≡ old a

fill-stop :
    (fuel sz bound p : ℕ) (mem : Kmem) (nxt : ℕ → ℕ)
    → leb ((p + sz) % 2 ^ 64) bound ≡ false
    → fill (suc fuel) sz bound p mem nxt ≡ returns (mem, nxt)
unfolding fill
fill-stop fuel sz bound p mem nxt stop = ground arith

fill-more :
    (fuel sz bound p : ℕ) (mem : Kmem) (nxt : ℕ → ℕ) (mem' : Kmem) (nxt' : ℕ → ℕ)
    → leb ((p + sz) % 2 ^ 64) bound ≡ true
    → (p % sz == 0) ≡ true
    → leb p bound ≡ true
    → give p mem nxt ≡ returns (mem', nxt')
    → fill (suc fuel) sz bound p mem nxt ≡ fill fuel sz bound ((p + sz) % 2 ^ 64) mem' nxt'
unfolding fill
fill-more fuel sz bound p mem nxt mem' nxt' more aligned inside given = ground arith

module _ (sz from bound : ℕ) (old : ℕ → ℕ) (pos : 0 < sz) (null : 0 < from)
    (room : bound + sz < 2 ^ 64) where
  Cutting-give :
      {p : ℕ} {mem mem' : Kmem} {nxt : ℕ → ℕ} {blocks : List ℕ}
      → Cutting sz from bound p old mem nxt blocks
      → IsCut sz from bound p
      → IsFree (update nxt p mem.freelist) mem' (p ∷ blocks)
      → Cutting sz from bound (p + sz) old mem' (update nxt p mem.freelist) (p ∷ blocks)
  Cutting-give {p} {mem} {nxt} {blocks} c cut free = record {
    free = free;
    within = (cut, c.within);
    before = (omega arith, All-imp blocks (λ a h. omega arith) c.before);
    distinct = (not-has (λ a. a < p) blocks p c.before (λ h. omega arith), c.distinct);
    complete = λ a b lt. ground (arith, c.complete a b, aligned_gap sz p a cut.aligned b.aligned);
    same = λ a h. ground (arith, c.same a h);
  }

  fill-Cut :
      (fuel p : ℕ) (mem : Kmem) (nxt : ℕ → ℕ) (blocks : List ℕ)
      → bound - p < fuel
      → p + sz < 2 ^ 64
      → from ≤ p
      → p % sz ≡ 0
      → Cutting sz from bound p old mem nxt blocks
      → (mem' : Kmem) × (nxt' : ℕ → ℕ) × (fill fuel sz bound p mem nxt ≡ returns (mem', nxt'))
        × Cut sz from bound old mem' nxt'
  fill-Cut zero p mem nxt blocks f r l a c = absurd (omega arith)
  fill-Cut (suc fuel) p mem nxt blocks f r l a c =
      elim (Bool-cases (leb ((p + sz) % 2 ^ 64) bound)) [
        | inl more ↦
            (let cut : IsCut sz from bound p = record {
              above = l;
              below = omega (arith, leb→le _ _ more);
              aligned = a;
            } in
              let (mem', given, free) =
                give-IsFree p mem nxt blocks c.free (omega arith)
                  (not-has (λ a. a < p) blocks p c.before (λ h. omega arith)) in
              let (mem2, nxt2, run, done) =
                fill-Cut fuel (p + sz) mem' (update nxt p mem.freelist) (p ∷ blocks) (omega arith)
                  (omega arith) (omega arith) (mod-add_self p sz a) (Cutting-give c cut free) in
              (
                mem2,
                nxt2,
                fill-more fuel sz bound p mem nxt mem' _ more ((==_iff (p % sz) 0).1 a)
                      (le→leb p bound (omega arith)) given
                    ∙ (ap (λ q. fill fuel sz bound q mem' (update nxt p mem.freelist)) (omega arith)
                        ∙ run),
                done,
              ))
        | inr stop ↦ (
          mem,
          nxt,
          fill-stop fuel sz bound p mem nxt stop,
          record {
            blocks = blocks;
            free = c.free;
            within = c.within;
            distinct = c.distinct;
            complete = λ x h. c.complete x h (omega (arith, leb_false→lt _ _ stop));
            same = c.same;
          },
        )
      ]

  -- The whole loop on an empty list, from the first multiple of `sz` on.
  pub fill_region :
      (fuel : ℕ) (mem : Kmem)
      → bound - from < fuel
      → from + sz + sz < 2 ^ 64
      → mem.m.flag ≡ 0
      → mem.freelist ≡ 0
      → (mem' : Kmem) × (nxt' : ℕ → ℕ) × (fill fuel sz bound (roundup from sz) mem old
          ≡ returns (mem', nxt'))
        × Cut sz from bound old mem' nxt'
  fill_region fuel mem f r unlocked empty =
      let (up, near, aligned) = roundup_bounds sz pos from (omega arith) in
      fill-Cut fuel (roundup from sz) mem old [] (omega arith) (omega arith) up aligned (record {
        free = record { unlocked = unlocked; chain = empty };
        within = tt;
        before = tt;
        distinct = tt;
        complete = λ a cut lt.
            absurd
              (omega (arith, aligned_gap sz a (roundup from sz) cut.aligned aligned lt, cut.above));
        same = λ a out. refl;
      })
