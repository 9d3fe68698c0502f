-- ===== src/Lock/Mutex.antt =====
-- Several threads at the lock of kernel/src/lock.c, as interleavings of their atomic exchanges.
use oslab.Prelude.{ℕ, ◌≡◌, refl, true, false, arith, ◌==◌, ◌≢◌, ◌⊎◌, inl, inr, Bool-cases, update}
use oslab.Lock.{LockT, atomic_xchg, lockinit, unlock}

-- A thread is before the loop of `lock`, or past it.
pub data Where : Type 0 where
  outside inside : Where

pub record System : Type 0 where
  pub m : LockT
  pub at : ℕ → Where

-- One exchange of one thread: a failed round of the loop of `lock`, its last round, or `unlock`.
pub data Step (s : System) : System → Type 0 where
  retry :
      (i : ℕ)
      → s.at i ≡ outside
      → ((atomic_xchg s.m 1).0 == 0) ≡ false
      → Step s (record s { m = (atomic_xchg s.m 1).1 })
  acquire :
      (i : ℕ)
      → s.at i ≡ outside
      → ((atomic_xchg s.m 1).0 == 0) ≡ true
      → Step s (record { m = (atomic_xchg s.m 1).1; at = update s.at i inside })
  release :
      (i : ℕ) → s.at i ≡ inside → Step s (record { m = unlock s.m; at = update s.at i outside })

pub data Reach : System → Type 0 where
  init : Reach (record { m = lockinit; at = λ i. outside })
  next : {s t : System} → Reach s → Step s t → Reach t

-- The flag is set exactly while some thread is inside, and there is one such thread at most.
record Inv (s : System) : Type 0 where
  free : s.m.flag ≡ 0 → (i : ℕ) → s.at i ≡ outside
  held : s.m.flag ≢ 0 → (i : ℕ) × (s.at i ≡ inside)
  one : (i j : ℕ) → s.at i ≡ inside → s.at j ≡ inside → i ≡ j

Where-cases : (w : Where) → (w ≡ outside) ⊎ (w ≡ inside)
Where-cases outside = inl refl
Where-cases inside = inr refl

Step-Inv : {s t : System} → Step s t → Inv s → Inv t
unfolding unlock
Step-Inv (retry i o e) v = record {
  free = λ h. ground arith;
  held = λ h. v.held (ground arith);
  one = v.one;
}
Step-Inv {s} (acquire i o e) v = record {
  free = λ h. ground arith;
  held = λ h. (i, ground arith);
  one = λ j k p q. ground (arith, v.free (ground arith) j, v.free (ground arith) k);
}
Step-Inv {s} (release i h) v = record {
  free = λ z j. elim (Where-cases (s.at j)) [
    | inl p ↦ ground arith
    | inr p ↦ ground (arith, v.one i j)
  ];
  held = λ n. absurd (n refl);
  one = λ j k p q. ground (arith, v.one j k);
}

Reach-Inv : {s : System} → Reach s → Inv s
unfolding lockinit
Reach-Inv init = record {
  free = λ h i. refl;
  held = λ h. absurd (h refl);
  one = λ i j p q. absurd (ground arith);
}
Reach-Inv (next r st) = Step-Inv st (Reach-Inv r)

-- However the exchanges of the threads interleave, two threads never hold the lock together.
pub mutual_exclusion :
    {s : System} → Reach s → (i j : ℕ) → s.at i ≡ inside → s.at j ≡ inside → i ≡ j
mutual_exclusion r i j p q = (Reach-Inv r).one i j p q

-- In every state that the exchanges of the threads can reach, a thread that is outside gets the
-- lock by its next exchange, or some thread holds it.
pub lock_available :
    {s : System}
    → Reach s
    → (i : ℕ) → s.at i ≡ outside
    → ((j : ℕ) × (s.at j ≡ inside)) ⊎ ((t : System) × Step s t × (t.at i ≡ inside))
lock_available {s} r i o = elim (Bool-cases (s.m.flag == 0)) [
  | inl z ↦ inr (_, acquire i o z, ground arith)
  | inr h ↦ inl ((Reach-Inv r).held (ground arith))
]
