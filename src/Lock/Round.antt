-- ===== src/Lock/Round.antt =====
-- `ROUND_SELF` of kernel/src/lock.c: it finds the least power of two that is large enough.
use oslab.Prelude.{
  ℕ, zero, suc, ◌+◌, ◌-◌, ◌*◌, ◌%◌, ◌^◌, ◌≤◌, ◌<◌, ◌≡◌, refl, ◌∙◌, inl, inr, some, arith, ltb,
  ltb→lt, ltb_false→le, Bool-cases, pow_eq, pow-add_one, false, true,
}
use oslab.Lock.{round_self_loop, round_self}

-- `c` is the least exponent of a power of two that is not below `x`.
pub record IsRound (x c : ℕ) : Type 0 where
  pub fits : x ≤ 2 ^ c
  pub least : 0 < c → 2 ^ (c - 1) < x
  pub small : c ≤ 63

pow_63 : (c i : ℕ) → c + 0 ≡ 63 → i ≡ 2 ^ c → i ≡ 2 ^ 63
pow_63 c i h e = e ∙ pow_eq 2 {a = c} {b = 63} (omega arith)

double : (c i : ℕ) → i ≡ 2 ^ c → i < 2 ^ 63 → (i * 2) % 2 ^ 64 ≡ 2 ^ (c + 1)
double c i e h = omega (arith, pow-add_one c)

IsRound-stop :
    (x i c : ℕ) → i ≡ 2 ^ c → c ≤ 63 → (0 < c → 2 ^ (c - 1) < x) → ltb i x ≡ false → IsRound x c
IsRound-stop x i c e s l done = record {
  fits = omega (arith, ltb_false→le i x done);
  least = l;
  small = s;
}

round_next : (x i c : ℕ) → i ≡ 2 ^ c → ltb i x ≡ true → 0 < c + 1 → 2 ^ (c + 1 - 1) < x
round_next x i c e more p =
    omega (arith, ltb→lt i x more, pow_eq 2 {a = c + 1 - 1} {b = c} (omega arith))

loop-IsRound :
    (k fuel x i c : ℕ)
    → c + k ≡ 63
    → k < fuel
    → x ≤ 2 ^ 63
    → i ≡ 2 ^ c
    → (0 < c → 2 ^ (c - 1) < x)
    → (r : ℕ) × (round_self_loop fuel x i c ≡ some r) × IsRound x r
unfolding round_self_loop
loop-IsRound k zero x i c h f b e l = absurd (omega arith)
loop-IsRound zero (suc fuel) x i c h f b e l = elim (Bool-cases (ltb i x)) [
  | inl more ↦ absurd (omega (arith, ltb→lt i x more, pow_63 c i h e))
  | inr done ↦ (c, rw done, IsRound-stop x i c e (omega arith) l done)
]
loop-IsRound (suc k) (suc fuel) x i c h f b e l = elim (Bool-cases (ltb i x)) [
  | inl more ↦ rw more (
      loop-IsRound k fuel x ((i * 2) % 2 ^ 64) (c + 1) (omega arith) (omega arith) b
        (double c i e (omega (arith, ltb→lt i x more))) (round_next x i c e more))
  | inr done ↦ (c, rw done, IsRound-stop x i c e (omega arith) l done)
]

-- `ROUND_SELF` returns for every size up to 2^63, and what it returns is the least exponent of a power
-- of two that is not below the size.
pub round_self-IsRound : (x : ℕ) → x ≤ 2 ^ 63 → (c : ℕ) × (round_self x ≡ some c) × IsRound x c
unfolding round_self
round_self-IsRound x h =
    loop-IsRound 63 65 x 1 0 (omega arith) (omega arith) h refl (λ p. absurd (omega arith))
