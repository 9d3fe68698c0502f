-- ===== src/Os/Trap/Schedule.antt =====
-- The loop of the schedule in kernel/src/os.c, against the order of the ring.
use oslab.Prelude.{
  Bool, not, sym, ◌∙◌, ℕ, zero, suc, ◌<◌, ◌≡◌, ◌⊎◌, inl, inr, List, [], ◌∷◌, ◌++◌, true, false,
  Option, none, some, arith, refl, has, All, length, Bool-cases, if◌then◌else◌, Option-cases, ap,
}
use oslab.Ring.{Seg, IsRing}
use oslab.Os.{Status, running, sleeping, waiting, zombie}
use oslab.Os.Trap.{is_blocked, schedule_loop}

-- A task with the status may run: it is neither a zombie nor waiting.
abbrev pub may_run : Status → Bool
may_run running = true
may_run sleeping = true
may_run waiting = false
may_run zombie = false

-- The first task of a list that may run.
abbrev pub first_ready : (ℕ → Status) → List ℕ → Option ℕ
first_ready st [] = none
first_ready st (x ∷ xs) = if may_run (st x) then some x else first_ready st xs

-- The test of the loop is the opposite of it.
is_blocked_lem : (st : Status) → is_blocked st ≡ not (may_run st)
is_blocked_lem running = refl
is_blocked_lem sleeping = refl
is_blocked_lem waiting = refl
is_blocked_lem zombie = refl

-- The search that the loop makes.
abbrev first_unblocked : (ℕ → Status) → List ℕ → Option ℕ
first_unblocked st [] = none
first_unblocked st (x ∷ xs) = if is_blocked (st x) then first_unblocked st xs else some x

first_unblocked-ready : (st : ℕ → Status) (xs : List ℕ) → first_unblocked st xs ≡ first_ready st xs
first_unblocked-ready st [] = refl
first_unblocked-ready st (x ∷ xs) =
    rw (is_blocked_lem (st x), first_unblocked-ready st xs)
      (if_not (may_run (st x)) (first_ready st xs) (some x))
  where
    if_not : (c : Bool) (a b : Option ℕ) → (if not c then a else b) ≡ (if c then b else a)
    if_not true a b = refl
    if_not false a b = refl

schedule_along :
    (next prev : ℕ → ℕ) (st : ℕ → Status) (fuel p q t : ℕ) (xs : List ℕ)
    → Seg next prev p xs q
    → length xs < fuel
    → first_unblocked st (xs ++ q ∷ []) ≡ some t
    → schedule_loop fuel next st p ≡ some t
unfolding schedule_loop
schedule_along next prev st zero p q t xs s lt e = absurd (omega arith)
schedule_along next prev st (suc fuel) p q t [] s lt e = rw s.0 (ground arith)
schedule_along next prev st (suc fuel) p q t (x ∷ xs) (l, s) lt e =
    rw l.0 (ground (arith, schedule_along next prev st fuel x q t xs s))

next_on_ring :
    (next prev : ℕ → ℕ) (p q a : ℕ) (xs : List ℕ)
    → Seg next prev p xs q
    → has a (p ∷ xs) ≡ true
    → has (next a) (q ∷ xs) ≡ true
next_on_ring next prev p q a [] s m = ground (arith, s.0)
next_on_ring next prev p q a (x ∷ xs) (l, s) m =
    ground (arith, l.0, next_on_ring next prev x q a xs s)

blocked_on_ring :
    (st : ℕ → Status) (a q : ℕ) (xs : List ℕ)
    → first_unblocked st (xs ++ q ∷ []) ≡ none
    → has a (q ∷ xs) ≡ true
    → is_blocked (st a) ≡ true
blocked_on_ring st a q [] e m = ground arith
blocked_on_ring st a q (x ∷ xs) e m = ground (arith, blocked_on_ring st a q xs)

schedule_around :
    {next prev : ℕ → ℕ} {h : ℕ} {xs : List ℕ} (st : ℕ → Status) (fuel a : ℕ)
    → IsRing next prev h xs
    → first_unblocked st (xs ++ h ∷ []) ≡ none
    → has a (h ∷ xs) ≡ true
    → schedule_loop fuel next st a ≡ none
unfolding schedule_loop
schedule_around st zero a r e m = refl
schedule_around {next} {prev} {h} {xs} st (suc fuel) a r e m =
    let on = next_on_ring next prev h h a xs r.seg m in
    rw (blocked_on_ring st (next a) h xs e on) (schedule_around st fuel (next a) r e on)

-- The loop of the schedule is a search of the ring in its order: it ends, after as many rounds as the ring
-- has tasks at most, with the first task behind the current one that is neither a zombie nor waiting,
-- the current one being the last; and if there is none, no number of rounds is enough.
pub schedule_lem :
    {next prev : ℕ → ℕ} {h : ℕ} {xs : List ℕ} (st : ℕ → Status) (fuel : ℕ)
    → IsRing next prev h xs
    → length xs < fuel
    → schedule_loop fuel next st h ≡ first_ready st (xs ++ h ∷ [])
schedule_lem {next} {prev} {h} {xs} st fuel r lt =
    elim (Option-cases (first_unblocked st (xs ++ h ∷ []))) [
      | inl e ↦ schedule_around st fuel h r e (ground arith) ∙ sym e
      | inr (t, e) ↦ schedule_along next prev st fuel h h t xs r.seg lt e ∙ sym e
    ]
    ∙ first_unblocked-ready st (xs ++ h ∷ [])

-- How the tasks of a ring stand when `t` is the first that is ready.
pub record Turn (st : ℕ → Status) (xs : List ℕ) (h t : ℕ) : Type 0 where
  pub before : List ℕ
  pub rest : List ℕ
  pub order : xs ++ h ∷ [] ≡ before ++ t ∷ rest
  pub blocked : All (λ a. may_run (st a) ≡ false) before
  pub ready : may_run (st t) ≡ true
  pub place :
      ((rest ≡ []) × (t ≡ h) × (xs ≡ before))
      ⊎ ((ys : List ℕ) × (rest ≡ ys ++ h ∷ []) × (xs ≡ before ++ t ∷ ys))

pub Turn-to :
    (st : ℕ → Status) (xs : List ℕ) (h t : ℕ)
    → first_ready st (xs ++ h ∷ []) ≡ some t
    → Turn st xs h t
Turn-to st [] h t e = record {
  before = [];
  rest = [];
  order = ground arith;
  blocked = tt;
  ready = ground arith;
  place = inl (refl, ground arith, refl);
}
Turn-to st (x ∷ xs) h t e = elim (Bool-cases (may_run (st x))) [
  | inr b ↦
      let u = Turn-to st xs h t (ground arith) in
      record {
        before = x ∷ u.before;
        rest = u.rest;
        order = ap (λ l. x ∷ l) u.order;
        blocked = (b, u.blocked);
        ready = u.ready;
        place = elim u.place [
          | inl (a, b', c) ↦ inl (a, b', ap (λ l. x ∷ l) c)
          | inr (ys, a, c) ↦ inr (ys, a, ap (λ l. x ∷ l) c)
        ];
      }
  | inl b ↦ record {
    before = [];
    rest = xs ++ h ∷ [];
    order = ground arith;
    blocked = tt;
    ready = ground arith;
    place = inr (xs, refl, ground arith);
  }
]
