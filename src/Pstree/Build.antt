-- ===== src/Pstree/Build.antt =====
-- The tree that `init` of pstree/pstree.c builds: the children of a process are those that name it as
-- their parent, in the order of the array.
use oslab.Prelude.{
  ℕ, zero, suc, ◌+◌, ◌≤◌, ◌<◌, ◌≡◌, ◌≢◌, refl, sym, ap, ◌∙◌, inl, inr, arith, Bool-cases, ◌==◌,
  ==_iff, if◌then◌else◌, update, update_self, update_ne, returns, or_fuel, bind_eq, Option, none,
  some, List, [], ◌∷◌, ◌++◌, length, length-append, All, All-imp, ==_false,
}
use mathlib.Core.Path.{subst}
use oslab.Pstree.{Procs, follow, last_bro, add_child}

-- The list that the pointer `p` starts.
abbrev pub Bros : (ℕ → Option ℕ) → Option ℕ → List ℕ → Type 0
Bros bros p [] = p ≡ none
Bros bros p (x ∷ xs) = (p ≡ some x) × Bros bros (bros x) xs

-- The indices ascend from `k` on.
abbrev Ascending : ℕ → List ℕ → Type 0
Ascending k [] = Unit
Ascending k (x ∷ xs) = (k ≤ x) × Ascending (x + 1) xs

-- The processes before `i` whose parent is `j`, in order.
unfoldable pub children : (ℕ → ℕ) → ℕ → ℕ → List ℕ
children parent zero j = []
children parent (suc i) j =
    let before = children parent i j in if parent i == j then before ++ (i ∷ []) else before

All-snoc : (P : ℕ → Type 0) (xs : List ℕ) (i : ℕ) → All P xs → P i → All P (xs ++ (i ∷ []))
All-snoc P [] i h p = (p, tt)
All-snoc P (x ∷ xs) i h p = (h.0, All-snoc P xs i h.1 p)

Ascending-snoc :
    (k : ℕ) (xs : List ℕ) (i : ℕ)
    → Ascending k xs
    → All (λ x. x < i) xs
    → k ≤ i
    → Ascending k (xs ++ (i ∷ []))
Ascending-snoc k [] i a lt le = (le, tt)
Ascending-snoc k (x ∷ xs) i a lt le =
    (a.0, Ascending-snoc (x + 1) xs i a.1 lt.1 (omega (arith, lt.0)))

children-All :
    (parent : ℕ → ℕ) (i j : ℕ) → All (λ x. (x < i) × (parent x ≡ j)) (children parent i j)
unfolding children
children-All parent zero j = tt
children-All parent (suc i) j =
    let old : All (λ x. (x < suc i) × (parent x ≡ j)) (children parent i j) =
      All-imp (children parent i j) (λ x h. (omega (arith, h.0), h.1)) (children-All parent i j) in
    elim (Bool-cases (parent i == j)) [
      | inl e ↦ rw e (
          All-snoc (λ x. (x < suc i) × (parent x ≡ j)) (children parent i j) i old
            (omega arith, (==_iff (parent i) j).0 e))
      | inr n ↦ rw n old
    ]

children-Ascending : (parent : ℕ → ℕ) (i j : ℕ) → Ascending 0 (children parent i j)
unfolding children
children-Ascending parent zero j = tt
children-Ascending parent (suc i) j = elim (Bool-cases (parent i == j)) [
  | inl e ↦ rw e (
      Ascending-snoc 0 (children parent i j) i (children-Ascending parent i j)
        (All-imp (children parent i j) (λ x h. h.0) (children-All parent i j)) (omega arith))
  | inr n ↦ rw n (children-Ascending parent i j)
]

length-children : (parent : ℕ → ℕ) (i j : ℕ) → length (children parent i j) ≤ i
unfolding children
length-children parent zero j = omega arith
length-children parent (suc i) j = elim (Bool-cases (parent i == j)) [
  | inl e ↦
      rw e (omega (arith, length-append (children parent i j) (i ∷ []), length-children parent i j))
  | inr n ↦ rw n (omega (arith, length-children parent i j))
]

-- A list is kept if the pointers of its members are.
Bros-frame :
    (bros bros' : ℕ → Option ℕ) (p : Option ℕ) (xs : List ℕ)
    → All (λ x. bros' x ≡ bros x) xs
    → Bros bros p xs
    → Bros bros' p xs
Bros-frame bros bros' p [] same b = b
Bros-frame bros bros' p (x ∷ xs) same b = (
  b.0,
  subst (λ (q : Option ℕ). Bros bros' q xs) (sym same.0)
      (Bros-frame bros bros' (bros x) xs same.1 b.1),
)

-- The walk along the brothers of `x` ends at the last one, and a process is appended there.
pub record Appended (P : ℕ → Type 0) (fuel i x : ℕ) (xs : List ℕ) (bros : ℕ → Option ℕ) (l : ℕ)
    : Type 0 where
  pub walk : last_bro fuel x bros ≡ some l
  pub after : x ≤ l
  pub member : P l
  pub joined : Bros (update bros l (some i)) (update bros l (some i) x) (xs ++ (i ∷ []))

last_bro-Appended :
    (P : ℕ → Type 0) (fuel i x : ℕ) (xs : List ℕ) (bros : ℕ → Option ℕ)
    → Bros bros (bros x) xs
    → Ascending (x + 1) xs
    → length xs < fuel
    → bros i ≡ none
    → (x < i) × All (λ y. y < i) xs
    → P x × All P xs
    → (l : ℕ) × Appended P fuel i x xs bros l
unfolding last_bro follow
last_bro-Appended P zero i x xs bros b asc enough fresh lt m = absurd (omega arith)
last_bro-Appended P (suc fuel) i x [] bros b asc enough fresh lt m = (
  x,
  record {
    walk = rw b refl;
    after = omega arith;
    member = m.0;
    joined = (
      update_self bros x (some i),
      update_ne bros x (some i) i (λ e. absurd (omega (arith, lt.0, e))) ∙ fresh,
    );
  },
)
last_bro-Appended P (suc fuel) i x (y ∷ ys) bros b asc enough fresh lt m =
    let ih = last_bro-Appended P fuel i y ys bros b.1 asc.1 (omega arith) fresh lt.1 m.1 in
    let l = ih.0 in
    (
      l,
      record {
        walk = rw b.0 ih.1.walk;
        after = omega (arith, ih.1.after, asc.0);
        member = ih.1.member;
        joined = (
          update_ne bros l (some i) x (λ e. absurd (omega (arith, e, ih.1.after, asc.0))) ∙ b.0,
          ih.1.joined,
        );
      },
    )

-- The lists of the processes before `i`; the others have no brothers yet.
pub record Built (parent : ℕ → ℕ) (i : ℕ) (ps : Procs) : Type 0 where
  pub kids : (j : ℕ) → Bros ps.bros (ps.child j) (children parent i j)
  pub fresh : (x : ℕ) → i ≤ x → ps.bros x ≡ none

children_self :
    (parent : ℕ → ℕ) (i : ℕ)
    → children parent (suc i) (parent i) ≡ children parent i (parent i) ++ (i ∷ [])
unfolding children
children_self parent i = rw ((==_iff (parent i) (parent i)).1 refl) refl

children_other :
    (parent : ℕ → ℕ) (i j : ℕ) → parent i ≢ j → children parent (suc i) j ≡ children parent i j
unfolding children
children_other parent i j n = rw (==_false (parent i) j n) refl

-- What the loop on the files does not change.
pub record Kept (ps ps' : Procs) : Type 0 where
  pub count : ps'.count ≡ ps.count
  pub pid : ps'.pid ≡ ps.pid
  pub spid : ps'.spid ≡ ps.spid

module _ (parent : ℕ → ℕ) (i : ℕ) (ps : Procs) (b : Built parent i ps) where
  -- The lists of the next round, from that of the parent and those of the others.
  kids_suc :
      (ps' : Procs)
      → Bros ps'.bros (ps'.child (parent i)) (children parent i (parent i) ++ (i ∷ []))
      → ((j : ℕ) → parent i ≢ j → Bros ps'.bros (ps'.child j) (children parent i j))
      → (j : ℕ) → Bros ps'.bros (ps'.child j) (children parent (suc i) j)
  kids_suc ps' own others j = elim (Bool-cases (parent i == j)) [
    | inl e ↦
        subst (λ (k : ℕ). Bros ps'.bros (ps'.child k) (children parent (suc i) k))
          ((==_iff (parent i) j).0 e) (rw (children_self parent i) own)
    | inr n ↦
        (let ne : parent i ≢ j = λ e. absurd (ground (arith, n, e)) in
          rw (children_other parent i j ne) (others j ne))
  ]

  pub add_child-Built :
      (fuel : ℕ) (xs : List ℕ)
      → i < fuel
      → children parent i (parent i) ≡ xs
      → (ps' : Procs) × (add_child fuel (ps.child (parent i)) (parent i) i ps ≡ returns ps')
        × Built parent (suc i) ps'
        × Kept ps ps'
  unfolding add_child
  add_child-Built fuel [] enough e =
      let child : ps.child (parent i) ≡ none =
        subst (λ l. Bros ps.bros (ps.child (parent i)) l) e (b.kids (parent i)) in
      let ps' : Procs = record ps { child = update ps.child (parent i) (some i) } in
      (
        ps',
        rw child refl,
        record {
          kids =
              kids_suc ps'
                (rw e (update_self ps.child (parent i) (some i), b.fresh i (omega arith)))
                (λ j ne.
                  subst (λ (q : Option ℕ). Bros ps.bros q (children parent i j))
                    (sym (update_ne ps.child (parent i) (some i) j ne)) (b.kids j));
          fresh = λ x le. b.fresh x (omega (arith, le));
        },
        record { count = refl; pid = refl; spid = refl },
      )
  add_child-Built fuel (x ∷ xs) enough e =
      let own : Bros ps.bros (ps.child (parent i)) (x ∷ xs) =
        subst (λ l. Bros ps.bros (ps.child (parent i)) l) e (b.kids (parent i)) in
      let asc : Ascending 0 (x ∷ xs) =
        subst (λ l. Ascending 0 l) e (children-Ascending parent i (parent i)) in
      let of_parent : All (λ y. (y < i) × (parent y ≡ parent i)) (x ∷ xs) =
        subst (λ l. All (λ y. (y < i) × (parent y ≡ parent i)) l) e
          (children-All parent i (parent i)) in
      let few : length (x ∷ xs) ≤ i =
        subst (λ l. length l ≤ i) e (length-children parent i (parent i)) in
      let (l, app) =
        last_bro-Appended (λ y. (y < i) × (parent y ≡ parent i)) fuel i x xs ps.bros own.1 asc.1
          (omega (arith, few)) (b.fresh i (omega arith)) (All-imp (x ∷ xs) (λ y h. h.0) of_parent)
          of_parent in
      let ps' : Procs = record ps { bros = update ps.bros l (some i) } in
      (
        ps',
        rw own.0 (bind_eq _ (ap or_fuel app.walk)),
        record {
          kids = kids_suc ps' (rw e (own.0, app.joined)) (λ j ne.
              Bros-frame ps.bros ps'.bros (ps.child j) (children parent i j)
                (All-imp (children parent i j)
                  (λ y h.
                    update_ne ps.bros l (some i) y (λ q. ne (sym app.member.1 ∙ ap parent q ∙ h.1)))
                  (children-All parent i j))
                (b.kids j));
          fresh = λ y le.
              update_ne ps.bros l (some i) y (λ q. absurd (omega (arith, q, le, app.member.0)))
              ∙ b.fresh y (omega (arith, le));
        },
        record { count = refl; pid = refl; spid = refl },
      )
