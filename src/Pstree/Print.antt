-- ===== src/Pstree/Print.antt =====
-- What `P` of pstree/pstree.c prints for the processes below one.
use oslab.Prelude.{
  ℕ, zero, suc, ◌+◌, ◌*◌, ◌≤◌, ◌<◌, ◌≡◌, refl, sym, ap, ◌∙◌, arith, Bool, returns, bind_eq, Option,
  none, some, List, [], ◌∷◌, ◌++◌, replicate,
}
use mathlib.Core.List.{append_assoc}
use oslab.Pstree.{Procs, indent, label, print_bros, print_proc}

-- Processes beside one another, each with those below it.
pub data Forest : Type 0 where
  end : Forest
  tree : ℕ → Forest → Forest → Forest

-- They are what the pointer `p` and the pointers behind it reach.
unfoldable pub IsForest : Procs → Forest → Option ℕ → Type 0
IsForest ps end p = p ≡ none
IsForest ps (tree r kids rest) p =
    (p ≡ some r) × IsForest ps kids (ps.child r) × IsForest ps rest (ps.bros r)

unfoldable pub size : Forest → ℕ
size end = 0
size (tree r kids rest) = 1 + size kids + size rest

-- The processes with their depths, each before those below it and these before the next.
unfoldable pub preorder : ℕ → Forest → List (ℕ × ℕ)
preorder depth end = []
preorder depth (tree r kids rest) = (depth, r) ∷ (preorder (depth + 1) kids ++ preorder depth rest)

module _ (decimal : ℕ → List ℕ) (p : Bool) (ps : Procs) where
  -- A line for each of them, two spaces for each level.
  unfoldable pub text : List (ℕ × ℕ) → List ℕ
  text [] = []
  text ((depth, r) ∷ ls) =
      10 ∷ (replicate (2 * (depth + 1)) 32 ++ (label decimal p ps r ++ text ls))

  text-append : (xs ys : List (ℕ × ℕ)) → text (xs ++ ys) ≡ text xs ++ text ys
  unfolding text
  text-append [] ys = refl
  text-append ((depth, r) ∷ xs) ys =
      let s = replicate (2 * (depth + 1)) 32 in
      let l = label decimal p ps r in
      ap (λ (u : List ℕ). 10 ∷ (s ++ (l ++ u))) (text-append xs ys)
      ∙ ap (λ (u : List ℕ). 10 ∷ (s ++ u)) (sym (append_assoc l (text xs) (text ys)))
      ∙ ap (λ (u : List ℕ). 10 ∷ u) (sym (append_assoc s (l ++ text xs) (text ys)))

  indent_lem : (depth : ℕ) → indent depth ≡ replicate (2 * (depth + 1)) 32
  unfolding indent
  indent_lem zero = refl
  indent_lem (suc depth) =
      ap (λ (u : List ℕ). 32 ∷ 32 ∷ u) (indent_lem depth)
      ∙ ap (λ (n : ℕ). replicate n 32) {x = suc (suc (2 * (depth + 1)))} (omega arith)

  print_bros_lem :
      (f g depth : ℕ) (ts : Forest) (q : Option ℕ)
      → size ts ≤ f
      → size ts ≤ g
      → IsForest ps ts q
      → print_bros decimal p ps f (λ tmp. print_proc decimal p ps g tmp (depth + 1)) depth q
        ≡ returns (text (preorder depth ts))
  unfolding print_bros print_proc size IsForest preorder text
  print_bros_lem f g depth end q lf lg t = rw t refl
  print_bros_lem zero g depth (tree r kids rest) q lf lg t = absurd (omega arith)
  print_bros_lem (suc f) zero depth (tree r kids rest) q lf lg t = absurd (omega arith)
  print_bros_lem (suc f) (suc g) depth (tree r kids rest) q lf lg t =
      let below =
        print_bros_lem g g (depth + 1) kids (ps.child r) (omega arith) (omega arith) t.1 in
      let later = print_bros_lem f (suc g) depth rest (ps.bros r) (omega arith) (omega arith) t.2 in
      let l = label decimal p ps r in
      let a = preorder (depth + 1) kids in
      rw t.0 (
        bind_eq _ (bind_eq _ below)
        ∙ bind_eq _ later
        ∙ ap (λ (u : List ℕ). returns (10 ∷ (u ++ ((l ++ text a) ++ text (preorder depth rest)))))
            (indent_lem depth)
        ∙ ap (λ (u : List ℕ). returns (10 ∷ (replicate (2 * (depth + 1)) 32 ++ u)))
            (append_assoc l (text a) (text (preorder depth rest))
              ∙ ap (λ (u : List ℕ). l ++ u) (sym (text-append a (preorder depth rest)))))

  -- `P` prints the process, and below it a line for each process that its pointers reach, every one before those below it and
  -- these before its next brother, with two spaces for each level; a round of fuel for each process is enough.
  pub print_proc_lem :
      (fuel r depth : ℕ) (kids : Forest)
      → IsForest ps kids (ps.child r)
      → size kids < fuel
      → print_proc decimal p ps fuel r depth
        ≡ returns (label decimal p ps r ++ text (preorder depth kids))
  unfolding print_proc
  print_proc_lem zero r depth kids t enough = absurd (omega arith)
  print_proc_lem (suc fuel) r depth kids t enough =
      bind_eq _ (print_bros_lem fuel fuel depth kids (ps.child r) (omega arith) (omega arith) t)
