-- ===== src/Pstree/Tests.antt =====
-- The processes 1, 2 and 3 of pstree/pstree.c, the first of which has started the others.
use oslab.Prelude.{
  map, ℕ, ◌+◌, ◌≤◌, ◌<◌, ◌≡◌, refl, arith, true, false, ◌==◌, if◌then◌else◌, update, returns,
  Option, none, some, List, [], ◌∷◌, ◌++◌,
}
use oslab.Pstree.{Procs, scan_start, read_stat, print_proc, label}
use oslab.Pstree.Build.{children}
use oslab.Pstree.Listed.{process_names, index_of}
use oslab.Pstree.Stat.{StatFile, parent_number, IsPlain, IsMiddle, number, read_stat_lem}
use oslab.Pstree.Print.{Forest, end, tree, IsForest, size, preorder, text, print_proc_lem}

abbrev entries : List (List ℕ)
entries = (49 ∷ []) ∷ (46 ∷ []) ∷ (50 ∷ []) ∷ (51 ∷ []) ∷ []

-- The names are "a", "b" and "c".
abbrev stat : List ℕ → Option (List ℕ)
stat [] = none
stat (c ∷ cs) =
    some (c ∷ 32 ∷ 40 ∷ (c + 48) ∷ 41 ∷ 32 ∷ 83 ∷ 32 ∷ (if c == 49 then 48 else 49) ∷ 32 ∷ [])

char-IsPlain : (c : ℕ) → 42 ≤ c → c < 255 → IsPlain c
char-IsPlain c l u = record {
  no_open = λ e. absurd (omega (arith, e));
  no_close = λ e. absurd (omega (arith, e));
  no_eof = λ e. absurd (omega (arith, e));
}

space-IsMiddle : IsMiddle 32
space-IsMiddle = record { no_digit = refl; no_eof = λ e. absurd (omega (arith, e)) }

abbrev files : ℕ → StatFile
files i = record {
  front = (49 + i) ∷ 32 ∷ [];
  name = (97 + i) ∷ [];
  middle = 32 ∷ 83 ∷ 32 ∷ [];
  first = if i == 0 then 48 else 49;
  digits = [];
  rest = [];
}

-- The children of the first are the other two.
children_first :
    children (λ i. index_of (parent_number (files i)) (map (number 0) (process_names entries))) 3 0
    ≡ 1 ∷ 2 ∷ []
unfolding children number
children_first = refl

-- "7(ab) S 12 0"
read_stat_lem_example :
    read_stat (55 ∷ 40 ∷ 97 ∷ 98 ∷ 41 ∷ 32 ∷ 83 ∷ 32 ∷ 49 ∷ 50 ∷ 32 ∷ 48 ∷ []) scan_start
    ≡ record { name = 97 ∷ 98 ∷ []; f = false; st = false; end = true; ppid = 12 }
unfolding number
read_stat_lem_example =
    read_stat_lem (55 ∷ []) (97 ∷ 98 ∷ []) (32 ∷ 83 ∷ 32 ∷ []) (50 ∷ []) (48 ∷ []) 49
      (char-IsPlain 55 (omega arith) (omega arith), tt)
      (
        char-IsPlain 97 (omega arith) (omega arith),
        (char-IsPlain 98 (omega arith) (omega arith), tt),
      )
      (
        space-IsMiddle,
        (record { no_digit = refl; no_eof = λ e. absurd (omega (arith, e)) }, (space-IsMiddle, tt)),
      )
      ((omega arith, omega arith), ((omega arith, omega arith), tt))

abbrev built : Procs
built = record {
  count = 3;
  root = some 0;
  pid = λ i. i + 1;
  child = update (λ i. none) 0 (some 1);
  bros = update (λ i. none) 1 (some 2);
  spid = λ i. (49 + i) ∷ [];
  name = λ i. (97 + i) ∷ [];
}

abbrev two : Forest
two = tree 1 end (tree 2 end end)

two-IsForest : IsForest built two (built.child 0)
unfolding IsForest
two-IsForest = (refl, refl, (refl, refl, refl))

two_size : size two ≡ 2
unfolding size
two_size = refl

print_proc_lem_example :
    print_proc (λ n. (48 + n) ∷ []) true built 3 0 1
    ≡ returns (
        label (λ n. (48 + n) ∷ []) true built 0
        ++ text (λ n. (48 + n) ∷ []) true built (preorder 1 two))
print_proc_lem_example =
    print_proc_lem (λ n. (48 + n) ∷ []) true built 3 0 1 two two-IsForest (omega (arith, two_size))
