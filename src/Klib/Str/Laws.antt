-- ===== src/Klib/Str/Laws.antt =====
-- The string functions of abstract-machine/klib/src/string.c on terminated strings.
use oslab.Prelude.{
  ℕ, zero, suc, ◌+◌, ◌≡◌, ◌≢◌, List, [], ◌∷◌, arith, length, ◌<◌, some, returns, ==_false, sym, ◌∙◌,
  ◌⊎◌, update, All, update_self, update_ne, if◌then◌else◌, inl, ◌==◌, ltb, leb, ◌&&◌,
}
use oslab.Klib.Mem.{Memory, Sign, negative, positive}
use oslab.Klib.Str.{strlen_loop, strlen, strcpy_loop, strcpy, strcmp_loop, strcmp, strcmp_end}
use mathlib.Core.Path.{subst, ap}

-- At `s` stands the string of the characters `xs`, terminated.
abbrev pub Chars : Memory → ℕ → List ℕ → Type 0
Chars mem s [] = mem s ≡ 0
Chars mem s (x ∷ xs) = (mem s ≡ x) × (x ≢ 0) × Chars mem (s + 1) xs

strlen_loop_lem :
    (f i s : ℕ) (mem : Memory) (xs : List ℕ)
    → Chars mem (s + i) xs
    → length xs < f
    → strlen_loop f i s mem ≡ some (i + length xs)
unfolding strlen_loop
strlen_loop_lem zero i s mem xs c lt = absurd (omega arith)
strlen_loop_lem (suc f) i s mem [] c lt = ground arith
strlen_loop_lem (suc f) i s mem (x ∷ xs) (e, n, c) lt =
    rw ((==_false (mem (s + i)) 0 (λ z. n (sym e ∙ z)))) (
      strlen_loop_lem f (i + 1) s mem xs (subst (λ p. Chars mem p xs) (omega arith) c) (omega arith)
      ∙ ap some (omega arith))

-- `strlen` of a terminated string returns its length; one round more than that suffices.
pub strlen_lem :
    (fuel s : ℕ) (mem : Memory) (xs : List ℕ)
    → s ≢ 0
    → Chars mem s xs
    → length xs < fuel
    → strlen fuel s mem ≡ returns (length xs)
unfolding strlen
strlen_lem fuel s mem xs n c lt =
    rw
      (
        ==_false s 0 n,
        strlen_loop_lem fuel 0 s mem xs (subst (λ p. Chars mem p xs) (omega arith) c) lt,
      )
      (ap returns (omega arith))

-- A string survives a store outside it.
Chars-update :
    (mem : Memory) (p a v : ℕ) (xs : List ℕ)
    → (a < p) ⊎ (p + length xs < a)
    → Chars mem p xs
    → Chars (update mem a v) p xs
Chars-update mem p a v [] out c = ground arith
Chars-update mem p a v (x ∷ xs) out (e, n, c) =
    (ground arith, n, Chars-update mem (p + 1) a v xs (ground arith) c)

strcpy_loop_lem :
    (f i dst src : ℕ) (mem : Memory) (xs : List ℕ)
    → Chars mem (src + i) xs
    → length xs < f
    → (dst + i + length xs < src + i) ⊎ (src + i + length xs < dst + i)
    → (mem' : Memory) × (strcpy_loop f i dst src mem ≡ some mem')
      × Chars mem' (dst + i) xs
      × ((a : ℕ) → (a < dst + i) ⊎ (dst + i + length xs < a) → mem' a ≡ mem a)
unfolding strcpy_loop
strcpy_loop_lem zero i dst src mem xs c lt apart = absurd (omega arith)
strcpy_loop_lem (suc f) i dst src mem [] c lt apart = (
  update mem (dst + i) 0,
  ground arith,
  update_self mem (dst + i) 0,
  λ a out. update_ne mem (dst + i) 0 a (ground arith),
)
strcpy_loop_lem (suc f) i dst src mem (x ∷ xs) (e, n, c) lt apart =
    let mem1 : Memory = update mem (dst + i) (mem (src + i)) in
    let c1 : Chars mem1 (src + (i + 1)) xs =
      subst (λ p. Chars mem1 p xs) {x = src + i + 1} (omega arith)
        (Chars-update mem (src + i + 1) (dst + i) (mem (src + i)) xs (ground arith) c) in
    let (mem', run, there, same) =
      strcpy_loop_lem f (i + 1) dst src mem1 xs c1 (omega arith) (ground arith) in
    (
      mem',
      rw (==_false (mem (src + i)) 0 (λ z. n (sym e ∙ z))) run,
      (
        same (dst + i) (inl (omega arith)) ∙ update_self mem (dst + i) (mem (src + i)) ∙ e,
        n,
        subst (λ p. Chars mem' p xs) {x = dst + (i + 1)} (omega arith) there,
      ),
      λ a out. same a (ground arith) ∙ update_ne mem (dst + i) (mem (src + i)) a (ground arith),
    )

-- `strcpy` between places that do not overlap leaves a copy of the string, with its terminator, and
-- writes no address `a` outside the copy; one round more than the length suffices.
pub strcpy_lem :
    (fuel dst src a : ℕ) (mem : Memory) (xs : List ℕ)
    → dst ≢ 0
    → src ≢ 0
    → Chars mem src xs
    → length xs < fuel
    → (dst + length xs < src) ⊎ (src + length xs < dst)
    → (mem' : Memory) × (strcpy fuel dst src mem ≡ returns mem')
      × Chars mem' dst xs
      × (mem' a ≡ (if leb dst a && leb a (dst + length xs) then mem' a else mem a))
unfolding strcpy
strcpy_lem fuel dst src a mem xs dn sn c lt apart =
    let (mem', run, there, same) =
      strcpy_loop_lem fuel 0 dst src mem xs (subst (λ p. Chars mem p xs) (omega arith) c) lt
        (ground arith) in
    (
      mem',
      rw (==_false dst 0 dn, ==_false src 0 sn, run),
      subst (λ p. Chars mem' p xs) {x = dst + 0} (omega arith) there,
      ground (arith, same a),
    )

-- Lexicographic order, the empty string first.
abbrev pub compare_chars : List ℕ → List ℕ → Sign
compare_chars [] [] = Sign.none
compare_chars [] (y ∷ ys) = negative
compare_chars (x ∷ xs) [] = positive
compare_chars (x ∷ xs) (y ∷ ys) =
    if x == y then compare_chars xs ys else if ltb x y then negative else positive

strcmp_loop_lem :
    (f p q : ℕ) (mem : Memory) (xs ys : List ℕ)
    → Chars mem p xs
    → Chars mem q ys
    → All (λ c. c < 128) xs
    → All (λ c. c < 128) ys
    → length xs < f
    → strcmp_loop f p q mem ≡ some (compare_chars xs ys)
unfolding strcmp_loop strcmp_end
strcmp_loop_lem zero p q mem xs ys c d ax ay lt = absurd (omega arith)
strcmp_loop_lem (suc f) p q mem [] [] c d ax ay lt = ground arith
strcmp_loop_lem (suc f) p q mem [] (y ∷ ys) c d ax ay lt = ground arith
strcmp_loop_lem (suc f) p q mem (x ∷ xs) [] c d ax ay lt = ground arith
strcmp_loop_lem (suc f) p q mem (x ∷ xs) (y ∷ ys) c d ax ay lt =
    ground (arith, strcmp_loop_lem f (p + 1) (q + 1) mem xs ys c.2 d.2 ax.1 ay.1)

-- `strcmp` of terminated ASCII strings returns the sign of their lexicographic order; one round more
-- than the length of the first suffices.
pub strcmp_lem :
    (fuel s1 s2 : ℕ) (mem : Memory) (xs ys : List ℕ)
    → s1 ≢ 0
    → s2 ≢ 0
    → Chars mem s1 xs
    → Chars mem s2 ys
    → All (λ c. c < 128) xs
    → All (λ c. c < 128) ys
    → length xs < fuel
    → strcmp fuel s1 s2 mem ≡ returns (compare_chars xs ys)
unfolding strcmp
strcmp_lem fuel s1 s2 mem xs ys n1 n2 c d ax ay lt =
    rw (==_false s1 0 n1, ==_false s2 0 n2, strcmp_loop_lem fuel s1 s2 mem xs ys c d ax ay lt)
