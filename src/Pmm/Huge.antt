-- ===== src/Pmm/Huge.antt =====
-- `hugealloc` of kernel/src/pmm.c, which serves sizes above 8 KiB.
use native.Mathlib.Nat.{
  div-add-mod', mul-mod_left, pow-suc, add-mul-mod_self_right, pow-le-pow_right,
}
use oslab.Prelude.{
  ℕ, ◌+◌, ◌-◌, ◌*◌, ◌%◌, ◌^◌, ◌≤◌, ◌<◌, ◌≡◌, ◌≢◌, arith, returns, if◌then◌else◌, ltb, lt→ltb,
  dec_lt, ℕ_discrete, pow_eq, sym, suc, ◌∙◌, zero, ap, refl, ◌/◌,
}
use oslab.Lock.{lock, unlock}
use oslab.Pmm.{Area, Pmm, roundup, hugealloc}
use oslab.Pmm.Fill.{roundup_bounds, aligned_gap}

-- The state after a call that moves the bound.
abbrev pub moved : Pmm → ℕ → Pmm
moved s b = record s { hbound = b; g_lock = record { flag = 0 } }

module _ (heap : Area) (sz : ℕ) (s : Pmm) (lt : sz < 31) (free : s.g_lock.flag ≡ 0)
    (room : s.hbound + 2 ^ sz < 2 ^ 64) where
  -- With the lock free, a size below 2^31 and no wrap-around, `hugealloc` returns the bound
  -- rounded up to the size, or the null pointer if the new bound lies behind the heap's end, and
  -- moves the bound by the size on both paths.
  pub hugealloc_lem :
      hugealloc heap sz s
      ≡ returns (
        (if ltb heap.end (s.hbound + 2 ^ sz) then 0 else roundup s.hbound (2 ^ sz)),
        moved s (s.hbound + 2 ^ sz),
      )
  unfolding hugealloc lock unlock
  hugealloc_lem =
      let e : (s.hbound + 2 ^ sz) % 2 ^ 64 ≡ s.hbound + 2 ^ sz = omega arith in
      rw (lt→ltb sz 31 lt, e, free) (ground arith)

-- A multiple of the size is its own rounding.
roundup_aligned : (a sz : ℕ) → 0 < sz → a + sz < 2 ^ 64 → a % sz ≡ 0 → roundup a sz ≡ a
roundup_aligned a sz pos room al =
    let (up, near, aligned) = roundup_bounds sz pos a room in
    elim (dec_lt a (roundup a sz)) [
      | yes less ↦ absurd (omega (arith, aligned_gap sz a (roundup a sz) al aligned less))
      | no same ↦ omega arith
    ]

roundup_strict : (a sz : ℕ) → 0 < sz → a + sz < 2 ^ 64 → a % sz ≢ 0 → a < roundup a sz
roundup_strict a sz pos room al =
    let (up, near, aligned) = roundup_bounds sz pos a room in
    elim (ℕ_discrete a (roundup a sz)) [
      | yes e ↦ absurd (al (rw (sym e) at aligned))
      | no n ↦ omega arith
    ]

pow-add : (b d : ℕ) → 2 ^ (d + b) ≡ 2 ^ d * 2 ^ b
pow-add b zero = omega (arith, pow_eq 2 {a = 0 + b} {b = b} (omega arith))
pow-add b (suc d) = omega (
  arith,
  ap (λ (t : ℕ). t * 2) (pow-add b d),
  ap (λ (t : ℕ). t * 2 ^ b) (pow-suc 2 d),
  pow-suc 2 (d + b),
  pow_eq 2 {a = suc d + b} {b = suc (d + b)} (omega arith),
)

-- A bound that is a multiple of 2^b stays one when a block of 2^a bytes, a ≥ b, is cut off.
bound_aligned : (n a b : ℕ) → b ≤ a → n % 2 ^ b ≡ 0 → (n + 2 ^ a) % 2 ^ b ≡ 0
bound_aligned n a b le al =
    let e : 2 ^ a ≡ 2 ^ (a - b) * 2 ^ b =
      pow_eq 2 {a = a} {b = a - b + b} (omega arith) ∙ pow-add b (a - b) in
    rw (e, add-mul-mod_self_right n (2 ^ (a - b)) (2 ^ b)) al

coarser : (n a b : ℕ) → b ≤ a → n % 2 ^ a ≡ 0 → n % 2 ^ b ≡ 0
coarser n a b le al =
    let e : 2 ^ a ≡ 2 ^ (a - b) * 2 ^ b =
      pow_eq 2 {a = a} {b = a - b + b} (omega arith) ∙ pow-add b (a - b) in
    let m : n ≡ n / 2 ^ a * 2 ^ (a - b) * 2 ^ b =
      omega (arith, div-add-mod' n (2 ^ a), ap (λ (t : ℕ). n / 2 ^ a * t) e) in
    ap (λ (t : ℕ). t % 2 ^ b) m ∙ mul-mod_left (n / 2 ^ a * 2 ^ (a - b)) (2 ^ b)

hugealloc_ok :
    (heap : Area) (sz : ℕ) (s : Pmm)
    → sz < 31
    → s.g_lock.flag ≡ 0
    → heap.end + 2 ^ 32 ≤ 2 ^ 64
    → s.hbound + 2 ^ sz ≤ heap.end
    → hugealloc heap sz s ≡ returns (roundup s.hbound (2 ^ sz), moved s (s.hbound + 2 ^ sz))
hugealloc_ok heap sz s lt free room fits =
    rw (hugealloc_lem heap sz s lt free (omega arith)) (ground arith)

pow_bounds : (c : ℕ) → c < 31 → (0 < 2 ^ c) × (2 ^ c < 2 ^ 31)
pow_bounds c h = (
  pow-le-pow_right {n = 2} (omega arith) {i = 0} {j = c} (omega arith),
  omega (arith, pow-le-pow_right {n = 2} (omega arith) {i = c} {j = 30} (omega arith)),
)

-- Two calls one after the other, for blocks of 2^a and then 2^b bytes, that both fit.
module _ (heap : Area) (a b : ℕ) (s t u : Pmm) (p q : ℕ) (la : a < 31) (le : b ≤ a)
    (free : s.g_lock.flag ≡ 0) (room : heap.end + 2 ^ 32 ≤ 2 ^ 64)
    (fits : s.hbound + 2 ^ a + 2 ^ b ≤ heap.end) (one : hugealloc heap a s ≡ returns (p, t))
    (two : hugealloc heap b t ≡ returns (q, u)) where
  one_lem : (p ≡ roundup s.hbound (2 ^ a)) × (t ≡ moved s (s.hbound + 2 ^ a))
  one_lem = let e = hugealloc_ok heap a s la free room (omega arith) in (cc (one, e), cc (one, e))

  two_lem : q ≡ roundup (s.hbound + 2 ^ a) (2 ^ b)
  two_lem =
      let e = hugealloc_ok heap b (moved s (s.hbound + 2 ^ a)) (omega arith) refl room fits in
      let f : hugealloc heap b (moved s (s.hbound + 2 ^ a)) ≡ returns (q, u) =
        rw (sym one_lem.1) two in
      cc (e, f)

  -- Of two calls of `hugealloc` in a row that fit into the heap, the second for a size that is not
  -- larger: if the bound is a multiple of the first size, the two blocks lie one behind the other
  -- between the old bound and the end of the heap.
  pub huge_disjoint :
      s.hbound % 2 ^ a ≡ 0 → (s.hbound ≤ p) × (p + 2 ^ a ≤ q) × (q + 2 ^ b ≤ heap.end)
  huge_disjoint al =
      let e =
        roundup_aligned s.hbound (2 ^ a) (pow_bounds a la).0 (omega (arith, pow_bounds a la)) al in
      let f =
        roundup_aligned (s.hbound + 2 ^ a) (2 ^ b) (pow_bounds b (omega arith)).0
          (omega (arith, pow_bounds b (omega arith)))
          (bound_aligned s.hbound a b le (coarser s.hbound a b le al)) in
      (
        omega (arith, one_lem.0, e),
        omega (arith, one_lem.0, two_lem, e, f),
        omega (arith, two_lem, f),
      )

  -- Of two such calls: if the bound is a multiple of the second size and not of the first, the
  -- second block starts inside the first, behind its start.
  pub huge_overlap : s.hbound % 2 ^ b ≡ 0 → s.hbound % 2 ^ a ≢ 0 → (p < q) × (q < p + 2 ^ a)
  huge_overlap al n =
      let f =
        roundup_aligned (s.hbound + 2 ^ a) (2 ^ b) (pow_bounds b (omega arith)).0
          (omega (arith, pow_bounds b (omega arith))) (bound_aligned s.hbound a b le al) in
      let room' : s.hbound + 2 ^ a < 2 ^ 64 = omega (arith, pow_bounds a la) in
      let (up, near, aligned) = roundup_bounds (2 ^ a) (pow_bounds a la).0 s.hbound room' in
      let more = roundup_strict s.hbound (2 ^ a) (pow_bounds a la).0 room' n in
      (omega (arith, one_lem.0, two_lem, f), omega (arith, one_lem.0, two_lem, f))
