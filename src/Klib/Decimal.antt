-- ===== src/Klib/Decimal.antt =====
-- Printing a number with `sprintf` of stdio.c and reading it with `atoi` of stdlib.c.
use oslab.Prelude.{
  ℕ, zero, suc, ◌+◌, ◌-◌, ◌*◌, ◌/◌, ◌%◌, ◌^◌, ◌≤◌, ◌<◌, ◌≡◌, refl, ap, ◌∙◌, ◌⊎◌, inl, inr, arith,
  true, false, some, returns, update, update_ne, update_self, List, [], ◌∷◌, length, All,
  Bool-cases, ◌==◌, bind_eq, or_fuel, ◌&&◌, leb, ltb,
}
use native.Mathlib.Nat.{pow-suc}
use oslab.Klib.Mem.{Memory}
use oslab.Klib.Stdio.{
  Arg, number, digit, digits, emit, put_int, directive, take_int, format_loop, vsprintf,
}
use oslab.Klib.Stdlib.{skip_spaces, atoi_loop, atoi}

-- The number that `atoi_loop` computes from the characters.
abbrev value : ℕ → List ℕ → ℕ
value x [] = x
value x (c ∷ cs) = value (x * 10 + c - 48) cs

abbrev IsDigit : ℕ → Type 0
IsDigit c = (48 ≤ c) × (c ≤ 57)

-- The characters stand at `p`.
abbrev Stored : Memory → ℕ → List ℕ → Type 0
Stored mem p [] = Unit
Stored mem p (c ∷ cs) = (mem p ≡ c) × Stored mem (p + 1) cs

value-le : (cs : List ℕ) (x : ℕ) → All IsDigit cs → x ≤ value x cs
value-le [] x ds = omega arith
value-le (c ∷ cs) x ds = omega (arith, value-le cs (x * 10 + c - 48) ds.1, ds.0.0)

digits_lem :
    (k fuel n : ℕ) (acc : List ℕ)
    → n < 10 ^ k
    → k < fuel
    → All IsDigit acc
    → (cs : List ℕ) × (digits fuel 10 false n acc ≡ some cs)
      × (value 0 cs ≡ value n acc)
      × All IsDigit cs
      × (length cs ≤ k + length acc)
unfolding digits digit
digits_lem k zero n acc lt lf ds = absurd (omega arith)
digits_lem zero (suc fuel) n acc lt lf ds = (
  acc,
  (let z : n ≡ 0 = omega arith in ground (arith, z)),
  ap (λ (x : ℕ). value x acc) {y = n} (omega arith),
  ds,
  omega arith,
)
digits_lem (suc k) (suc fuel) n acc lt lf ds = elim (Bool-cases (n == 0)) [
  | inl e ↦ (acc, rw e refl, ap (λ (x : ℕ). value x acc) {y = n} (ground arith), ds, omega arith)
  | inr ne ↦
      (let ih =
          digits_lem k fuel (n / 10) ((48 + n % 10) ∷ acc) (omega (arith, pow-suc 10 k))
            (omega arith) ((omega arith, omega arith), ds) in
        (
          ih.0,
          rw ne ih.1,
          ih.2 ∙ ap (λ (x : ℕ). value x acc) {y = n} (omega arith),
          ih.3,
          omega (arith, ih.4),
        ))
]

emit_lem :
    (cs : List ℕ) (p : ℕ) (mem : Memory)
    → (mem' : Memory) × (emit cs p mem ≡ (p + length cs, mem'))
      × Stored mem' p cs
      × ((a : ℕ) → (a < p) ⊎ (p + length cs ≤ a) → mem' a ≡ mem a)
unfolding emit
emit_lem [] p mem = (mem, ap (λ (q : ℕ). (q, mem)) (omega arith), tt, λ a o. refl)
emit_lem (c ∷ cs) p mem =
    let ih = emit_lem cs (p + 1) (update mem p c) in
    (
      ih.0,
      ih.1 ∙ ap (λ (q : ℕ). (q, ih.0)) (omega arith),
      (ih.3 p (inl (omega arith)) ∙ update_self mem p c, ih.2),
      λ a o. ih.3 a (ground arith) ∙ update_ne mem p c a (ground arith),
    )

Stored-after :
    (cs : List ℕ) (p v a : ℕ) (mem : Memory)
    → p + length cs ≤ a
    → Stored mem p cs
    → Stored (update mem a v) p cs
Stored-after [] p v a mem le st = tt
Stored-after (c ∷ cs) p v a mem le st = (
  update_ne mem a v p (λ e. absurd (omega arith)) ∙ st.0,
  Stored-after cs (p + 1) v a mem (omega arith) st.1,
)

atoi_loop_lem :
    (cs : List ℕ) (fuel x p : ℕ) (mem : Memory)
    → All IsDigit cs
    → Stored mem p cs
    → mem (p + length cs) ≡ 0
    → length cs < fuel
    → value x cs < 2 ^ 31 - 48
    → atoi_loop fuel x p mem ≡ returns (value x cs)
unfolding atoi_loop
atoi_loop_lem [] (suc fuel) x p mem ds st z lf lt =
    (let e : mem p ≡ 0 = ap mem {y = p + 0} (omega arith) ∙ z in ground (arith, e))
atoi_loop_lem (c ∷ cs) (suc fuel) x p mem ds st z lf lt =
    let ih =
      atoi_loop_lem cs fuel (x * 10 + c - 48) (p + 1) mem ds.1 st.1 (ap mem (omega arith) ∙ z)
        (omega arith) lt in
    let bound = value-le cs (x * 10 + c - 48) ds.1 in
    let shown : (leb 48 (mem p) && leb (mem p) 57) ≡ true = ground (arith, st.0, ds.0.0, ds.0.1) in
    let fits : ltb (x * 10 + mem p) (2 ^ 31) ≡ true = ground (arith, st.0, bound, lt, ds.0.0) in
    rw shown (rw fits (ap (λ (d : ℕ). atoi_loop fuel (x * 10 + d - 48) (p + 1) mem) st.0 ∙ ih))
atoi_loop_lem cs zero x p mem ds st z lf lt = absurd (omega arith)

-- What the case 'd' prints for `n`.
record Printed (n p : ℕ) (mem mem' : Memory) (cs : List ℕ) : Type 0 where
  shown : value 0 cs ≡ n
  all_digits : All IsDigit cs
  short : length cs ≤ 10
  stored : Stored mem' p cs
  outside : (a : ℕ) → (a < p) ⊎ (p + length cs ≤ a) → mem' a ≡ mem a

put_int_lem :
    (n p : ℕ) (mem : Memory)
    → n < 2 ^ 31
    → (cs : List ℕ) × (mem' : Memory) × (put_int 10 false n p mem ≡ returns (p + length cs, mem'))
      × Printed n p mem mem' cs
unfolding put_int
put_int_lem n p mem lt = elim (Bool-cases (n == 0)) [
  | inl e ↦ (
    48 ∷ [],
    update mem p 48,
    rw e refl,
    record {
      shown = ground arith;
      all_digits = ((omega arith, omega arith), tt);
      short = omega arith;
      stored = (update_self mem p 48, tt);
      outside = λ a o. update_ne mem p 48 a (ground arith);
    },
  )
  | inr ne ↦
      (let ds = digits_lem 10 32 n [] (omega arith) (omega arith) tt in
        let em = emit_lem ds.0 p mem in
        (
          ds.0,
          em.0,
          rw ne (bind_eq _ (ap or_fuel ds.1) ∙ ap returns em.1),
          record {
            shown = ds.2;
            all_digits = ds.3;
            short = omega (arith, ds.4);
            stored = em.2;
            outside = em.3;
          },
        ))
]

end_lem :
    (k f str : ℕ) (args : List Arg) (mem : Memory)
    → mem f ≡ 0
    → format_loop (suc k) f args str mem ≡ returns (str, mem)
unfolding format_loop
end_lem k f str args mem e = rw e refl

directive_lem :
    (k f str n str1 : ℕ) (mem mem1 : Memory)
    → mem f ≡ 37
    → mem (f + 1) ≡ 100
    → put_int 10 false n str mem ≡ returns (str1, mem1)
    → format_loop (suc k) f (number false n ∷ []) str mem ≡ format_loop k (f + 1 + 1) [] str1 mem1
unfolding format_loop directive take_int
directive_lem k f str n str1 mem mem1 e1 e2 e3 = rw e1 (rw e2 (bind_eq _ (bind_eq _ e3)))

skip_lem :
    (cs : List ℕ) (k p : ℕ) (mem : Memory)
    → All IsDigit cs
    → Stored mem p cs
    → mem (p + length cs) ≡ 0
    → skip_spaces (suc k) p mem ≡ returns p
unfolding skip_spaces
skip_lem [] k p mem ds st z = rw (ap mem {x = p} (omega arith) ∙ z) refl
skip_lem (c ∷ cs) k p mem ds st z =
    (let e : (mem p == 32) ≡ false = ground (arith, st.0, ds.0.0) in rw e refl)

-- `vsprintf` of a number below 2^31 - 48 with a format "%d" that stands apart from the output returns at
-- most 10 for the length, terminates its output, and `atoi` of the output returns the number.
pub atoi-vsprintf :
    (n out fmt : ℕ) (mem : Memory)
    → n < 2 ^ 31 - 48
    → mem fmt ≡ 37
    → mem (fmt + 1) ≡ 100
    → mem (fmt + 2) ≡ 0
    → (fmt + 2 < out) ⊎ (out + 11 ≤ fmt)
    → (len : ℕ) × (mem' : Memory) × (vsprintf 3 out fmt (number false n ∷ []) mem
        ≡ returns (len, mem'))
      × (len ≤ 10)
      × (mem' (out + len) ≡ 0)
      × (atoi 12 out mem' ≡ returns n)
unfolding vsprintf atoi
atoi-vsprintf n out fmt mem lt m0 m1 m2 apart =
    let pr = put_int_lem n out mem (omega arith) in
    let cs = pr.0 in
    let mem1 = pr.1 in
    let end = out + length cs in
    let mem2 = update mem1 end 0 in
    let got = pr.3 in
    let st2 = Stored-after cs out 0 end mem1 (omega arith) got.stored in
    (
      length cs,
      mem2,
      bind_eq _ (
            directive_lem 2 fmt out n end mem mem1 m0 m1 pr.2
            ∙ end_lem 1 (fmt + 1 + 1) end [] mem1
                (got.outside (fmt + 1 + 1) (ground (arith, got.short)) ∙ ap mem (omega arith) ∙ m2))
          ∙ ap (λ (l : ℕ). returns (l, mem2)) {y = length cs} (omega arith),
      got.short,
      update_self mem1 end 0,
      bind_eq _ (skip_lem cs 11 out mem2 got.all_digits st2 (update_self mem1 end 0))
          ∙ atoi_loop_lem cs 12 0 out mem2 got.all_digits st2 (update_self mem1 end 0)
              (omega (arith, got.short)) (omega (arith, got.shown, lt))
          ∙ ap returns got.shown,
    )
