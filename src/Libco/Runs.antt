-- ===== src/Libco/Runs.antt =====
-- Runs of libco/co.c: any sequence of the steps of its functions, by any of the coroutines.
use oslab.Prelude.{
  ℕ, ◌≡◌, ◌≢◌, refl, sym, ap, ◌∙◌, inl, inr, arith, Bool, true, false, Bool-cases, ◌==◌, ==_iff,
  ◌||◌, if◌then◌else◌, update, update_self, List, [], ◌∷◌, ◌++◌, has, Distinct,
}
use mathlib.Core.Path.{subst}
use oslab.Ring.{IsRing}
use oslab.Ring.Rotate.{has-append, rotate-IsRing, IsRing-next}
use oslab.Ring.Remove.{prev_other}
use oslab.Libco.{
  CoStatus, co_new, co_running, co_waiting, co_dead, Coroutines, ready, co_start, yield_to,
  co_yield, finish, wait_start, is_dead, wait_end, co_start-IsRing, wait_end-IsRing,
}

-- The states that the functions lead to, with the structures that are allocated: `malloc` returns one
-- that is not, and a coroutine that `co_wait` frees has died and is not the current one.
pub data Reached : (ℕ → Bool) → Coroutines → Type 0 where
  started : (m : ℕ) (s : Coroutines) → Reached (λ a. a == m) (ready m s)
  creates :
      {live : ℕ → Bool} {s : Coroutines} (n : ℕ)
      → live n ≡ false
      → Reached live s
      → Reached (λ a. (a == n) || live a) (co_start n s)
  yields : {live : ℕ → Bool} {s : Coroutines} → Reached live s → Reached live (co_yield s).1
  finishes :
      {live : ℕ → Bool} {s : Coroutines} → Reached live s → Reached live (finish s.current s).1
  waits :
      {live : ℕ → Bool} {s : Coroutines} (co : ℕ)
      → live co ≡ true
      → Reached live s
      → Reached live (wait_start co s)
  frees :
      {live : ℕ → Bool} {s : Coroutines} (co : ℕ)
      → live co ≡ true
      → is_dead (s.status co) ≡ true
      → co ≢ s.current
      → Reached live s
      → Reached (λ a. if a == co then false else live a) (wait_end co s)

-- The allocated coroutines stand on one ring, once each, with the current one.
pub record IsLive (live : ℕ → Bool) (s : Coroutines) (xs : List ℕ) : Type 0 where
  pub ring : IsRing s.next s.front s.current xs
  pub members : (a : ℕ) → has a (s.current ∷ xs) ≡ live a

-- `co_yield` moves on along the same ring.
yield_to-ring :
    (st : CoStatus) (co : ℕ) (s : Coroutines)
    → ((yield_to st co s).1.current ≡ co)
      × ((yield_to st co s).1.next ≡ s.next)
      × ((yield_to st co s).1.front ≡ s.front)
unfolding yield_to
yield_to-ring co_new co s = (refl, refl, refl)
yield_to-ring co_running co s = (refl, refl, refl)
yield_to-ring co_waiting co s = (refl, refl, refl)
yield_to-ring co_dead co s = (refl, refl, refl)

pub co_yield-ring :
    (s : Coroutines)
    → ((co_yield s).1.current ≡ s.next s.current)
      × ((co_yield s).1.next ≡ s.next)
      × ((co_yield s).1.front ≡ s.front)
unfolding co_yield
co_yield-ring s = yield_to-ring (s.status (s.next s.current)) (s.next s.current) s

pub co_yield-IsRing :
    (s : Coroutines) (y : ℕ) (ys : List ℕ)
    → IsRing s.next s.front s.current (y ∷ ys)
    → ((co_yield s).1.current ≡ y)
      × IsRing (co_yield s).1.next (co_yield s).1.front y (ys ++ (s.current ∷ []))
co_yield-IsRing s y ys r =
    let (c, n, f) = co_yield-ring s in (c ∙ IsRing-next r, rw (n, f) (rotate-IsRing [] ys r))

yield-IsLive :
    (live : ℕ → Bool) (s : Coroutines) (xs : List ℕ)
    → IsLive live s xs
    → (ys : List ℕ) × IsLive live (co_yield s).1 ys
yield-IsLive live s [] l =
    let (c, n, f) = co_yield-ring s in
    let same : (co_yield s).1.current ≡ s.current = c ∙ l.ring.seg.0 in
    ([], record { ring = rw (n, f, same) l.ring; members = λ a. rw same (l.members a) })
yield-IsLive live s (y ∷ ys) l =
    let (c, r) = co_yield-IsRing s y ys l.ring in
    (
      ys ++ (s.current ∷ []),
      record {
        ring = rw c r;
        members = λ a. rw c (ground (arith, has-append a ys (s.current ∷ []), l.members a));
      },
    )

-- A member of a list parts it.
has-part :
    (a : ℕ) (xs : List ℕ) → has a xs ≡ true → (us : List ℕ) × (vs : List ℕ) × (xs ≡ us ++ a ∷ vs)
has-part a [] m = absurd (ground arith)
has-part a (x ∷ xs) m = elim (Bool-cases (a == x)) [
  | inl e ↦ ([], xs, ap (λ (u : ℕ). u ∷ xs) (sym ((==_iff a x).0 e)))
  | inr n ↦
      (let (us, vs, e) = has-part a xs (ground arith) in (x ∷ us, vs, ap (λ (l : List ℕ). x ∷ l) e))
]

Distinct-middle_has : (a : ℕ) (us vs : List ℕ) → Distinct (us ++ a ∷ vs) → has a (us ++ vs) ≡ false
Distinct-middle_has a [] vs d = d.0
Distinct-middle_has a (x ∷ us) vs d =
    ground (arith, d.0, has-append x us (a ∷ vs), Distinct-middle_has a us vs d.1)

free-IsLive :
    (co : ℕ) (live : ℕ → Bool) (s : Coroutines) (us vs : List ℕ)
    → co ≢ s.current
    → IsLive live s (us ++ co ∷ vs)
    → IsLive (λ a. if a == co then false else live a) (wait_end co s) (us ++ vs)
unfolding wait_end
free-IsLive co live s us vs other l = record {
  ring = wait_end-IsRing co s us vs l.ring (prev_other co us vs l.ring);
  members = λ a. elim (Bool-cases (a == co)) [
    | inl e ↦
        rw e (ground (arith, (==_iff a co).0 e, Distinct-middle_has co us vs l.ring.distinct.1))
    | inr n ↦ rw n (ground (arith, l.members a, has-append a us (co ∷ vs), has-append a us vs))
  ];
}

-- Whatever the coroutines do, those that are allocated stand on one ring with the current one, each
-- of them once.
pub Reached-IsLive :
    {live : ℕ → Bool} {s : Coroutines} → Reached live s → (xs : List ℕ) × IsLive live s xs
unfolding ready co_start finish wait_start
Reached-IsLive (started m s) = (
  [],
  record {
    ring = record {
      seg = (update_self s.next m m, update_self s.front m m);
      distinct = (refl, tt);
    };
    members = λ a. ground arith;
  },
)
Reached-IsLive (creates {s} n fresh r) =
    let (xs, l) = Reached-IsLive r in
    (
      n ∷ xs,
      record {
        ring = co_start-IsRing n s xs l.ring (l.members n ∙ fresh);
        members = λ a. ground (arith, l.members a);
      },
    )
Reached-IsLive (yields {live} {s} r) = let (xs, l) = Reached-IsLive r in yield-IsLive live s xs l
Reached-IsLive (finishes {live} {s} r) =
    let (xs, l) = Reached-IsLive r in
    yield-IsLive live (record s { status = update s.status s.current co_dead }) xs
      (record { ring = l.ring; members = l.members })
Reached-IsLive (waits co m r) =
    let (xs, l) = Reached-IsLive r in (xs, record { ring = l.ring; members = l.members })
Reached-IsLive (frees {live} {s} co m dead other r) =
    let (xs, l) = Reached-IsLive r in
    let (us, vs, e) = has-part co xs (ground (arith, l.members co)) in
    (us ++ vs, free-IsLive co live s us vs other (subst (λ (zs : List ℕ). IsLive live s zs) e l))
