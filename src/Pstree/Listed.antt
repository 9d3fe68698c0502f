-- ===== src/Pstree/Listed.antt =====
-- The processes that `init` of pstree/pstree.c finds under /proc, and the place of the parent of one.
use oslab.Prelude.{
  ℕ, zero, suc, ◌+◌, ◌-◌, ◌*◌, ◌<◌, ◌≡◌, ◌≢◌, refl, ap, ◌∙◌, inl, inr, arith, Bool, true, false,
  Bool-cases, ltb, ◌&&◌, ◌==◌, ◌||◌, if◌then◌else◌, update, update_self, update_ne, returns,
  bind_eq, none, some, List, [], ◌∷◌, length, get_or, All,
}
use oslab.Pstree.{Procs, read_pid, add_proc, scan_entries, find_parent, is_digit}
use oslab.Pstree.Stat.{number}

-- An entry of /proc is a process if it consists of digits.
abbrev pub only_digits : List ℕ → Bool
only_digits [] = true
only_digits (c ∷ cs) = (ltb 47 c && ltb c 58) && only_digits cs

abbrev pub process_names : List (List ℕ) → List (List ℕ)
process_names [] = []
process_names (s ∷ ss) = if only_digits s then s ∷ process_names ss else process_names ss

-- The place of the first number that is equal, or the length if there is none.
abbrev pub index_of : ℕ → List ℕ → ℕ
index_of a [] = 0
index_of a (x ∷ xs) = if x == a then 0 else suc (index_of a xs)

read_pid_lem :
    (s : List ℕ) (n : ℕ) → read_pid s n ≡ (if only_digits s then some (number n s) else none)
unfolding read_pid number
read_pid_lem [] n = refl
read_pid_lem (c ∷ cs) n =
    let same : is_digit c ≡ (ltb 47 c && ltb c 58) = ground arith in
    elim (Bool-cases (ltb 47 c && ltb c 58)) [
      | inl y ↦ rw (same, y) (read_pid_lem cs (n * 10 + (c - 48)))
      | inr other ↦ rw (same, other) refl
    ]

-- The loop over the entries has added processes of these names behind those that were there.
pub record Scanned (names : List (List ℕ)) (ps ps' : Procs) : Type 0 where
  pub counted : ps'.count ≡ ps.count + length names
  pub spids : (k : ℕ) → k < length names → ps'.spid (ps.count + k) ≡ get_or names k []
  pub pids : (k : ℕ) → k < length names → ps'.pid (ps.count + k) ≡ number 0 (get_or names k [])
  pub kept : (j : ℕ) → j < ps.count → (ps'.spid j ≡ ps.spid j) × (ps'.pid j ≡ ps.pid j)

-- The process that an entry adds.
abbrev added : List ℕ → ℕ → Procs → Procs
added s pid ps = record {
  count = ps.count + 1;
  root = if pid == 1 then some ps.count else ps.root;
  pid = update ps.pid ps.count pid;
  child = update ps.child ps.count none;
  bros = update ps.bros ps.count none;
  spid = update ps.spid ps.count s;
  name = update ps.name ps.count [];
}

Scanned-added :
    (s : List ℕ) (names : List (List ℕ)) (ps ps' : Procs)
    → Scanned names (added s (number 0 s) ps) ps'
    → Scanned (s ∷ names) ps ps'
Scanned-added s names ps ps' h = record {
  counted = omega (arith, h.counted);
  spids = spid_at;
  pids = pid_at;
  kept = λ j lt.
      let old = h.kept j (omega (arith, lt)) in
      let ne : ps.count ≢ j = λ e. absurd (omega (arith, e, lt)) in
      (
        old.0 ∙ update_ne ps.spid ps.count s j ne,
        old.1 ∙ update_ne ps.pid ps.count (number 0 s) j ne,
      );
}
  where
    spid_at : (k : ℕ) → k < suc (length names) → ps'.spid (ps.count + k) ≡ get_or (s ∷ names) k []
    spid_at zero lt =
        ap ps'.spid {y = ps.count} (omega arith)
        ∙ (h.kept ps.count (omega arith)).0
        ∙ update_self ps.spid ps.count s
    spid_at (suc k) lt =
        ap ps'.spid {y = ps.count + 1 + k} (omega arith) ∙ h.spids k (omega (arith, lt))

    pid_at :
        (k : ℕ)
        → k < suc (length names)
        → ps'.pid (ps.count + k) ≡ number 0 (get_or (s ∷ names) k [])
    pid_at zero lt =
        ap ps'.pid {y = ps.count} (omega arith)
        ∙ (h.kept ps.count (omega arith)).1
        ∙ update_self ps.pid ps.count (number 0 s)
    pid_at (suc k) lt =
        ap ps'.pid {y = ps.count + 1 + k} (omega arith) ∙ h.pids k (omega (arith, lt))

add_proc-added :
    (s : List ℕ) (ps : Procs)
    → only_digits s ≡ true
    → length s < 6
    → ps.count < 1000
    → add_proc s (read_pid s 0) ps ≡ returns (added s (number 0 s) ps)
unfolding add_proc
add_proc-added s ps digits short few =
    let fits : (ltb 999 ps.count || ltb 5 (length s)) ≡ false = ground (arith, short, few) in
    rw (read_pid_lem s 0, digits) (rw fits refl)

add_proc-skips :
    (s : List ℕ) (ps : Procs) → only_digits s ≡ false → add_proc s (read_pid s 0) ps ≡ returns ps
unfolding add_proc
add_proc-skips s ps other = rw (read_pid_lem s 0, other) refl

pub scan_entries-Scanned :
    (ss : List (List ℕ)) (ps : Procs)
    → All (λ s. length s < 30) ss
    → All (λ s. length s < 6) (process_names ss)
    → ps.count + length (process_names ss) < 1000
    → (ps' : Procs) × (scan_entries ss ps ≡ returns ps') × Scanned (process_names ss) ps ps'
unfolding scan_entries
scan_entries-Scanned [] ps fit short few = (
  ps,
  refl,
  record {
    counted = omega arith;
    spids = λ k lt. absurd (omega (arith, lt));
    pids = λ k lt. absurd (omega (arith, lt));
    kept = λ j lt. (refl, refl);
  },
)
scan_entries-Scanned (s ∷ ss) ps fit short few =
    let room : ltb 29 (length s) ≡ false = ground (arith, fit.0) in
    elim (Bool-cases (only_digits s)) [
      | inl y ↦
          (let short1 : All (λ n. length n < 6) (s ∷ process_names ss) = rw y at short in
            let few1 : ps.count + suc (length (process_names ss)) < 1000 = rw y at few in
            let (ps', run, h) =
              scan_entries-Scanned ss (added s (number 0 s) ps) fit.1 short1.1
                (omega (arith, few1)) in
            rw y (
              ps',
              rw room (bind_eq _ (add_proc-added s ps y short1.0 (omega (arith, few1))) ∙ run),
              Scanned-added s (process_names ss) ps ps' h,
            ))
      | inr n ↦
          (let (ps', run, h) = scan_entries-Scanned ss ps fit.1 (rw n at short) (rw n at few) in
            rw n (ps', rw room (bind_eq _ (add_proc-skips s ps n) ∙ run), h))
    ]

-- The search for the parent finds the first process of the number.
pub find_parent_lem :
    (xs : List ℕ) (n idx ppid : ℕ) (pid : ℕ → ℕ)
    → n ≡ length xs
    → ((k : ℕ) → k < length xs → pid (idx + k) ≡ get_or xs k 0)
    → find_parent n idx ppid pid ≡ idx + index_of ppid xs
unfolding find_parent
find_parent_lem [] zero idx ppid pid e at = omega arith
find_parent_lem [] (suc n) idx ppid pid e at = absurd (omega (arith, e))
find_parent_lem (x ∷ xs) zero idx ppid pid e at = absurd (omega (arith, e))
find_parent_lem (x ∷ xs) (suc n) idx ppid pid e at =
    let here : pid idx ≡ x = ap pid {y = idx + 0} (omega arith) ∙ at 0 (omega arith) in
    elim (Bool-cases (x == ppid)) [
      | inl y ↦ rw (here, y) (omega arith)
      | inr other ↦
          rw (here, other)
            (find_parent_lem xs n (idx + 1) ppid pid (omega (arith, e))
                (λ k lt. ap pid {y = idx + suc k} (omega arith) ∙ at (suc k) (omega (arith, lt)))
              ∙ omega arith)
    ]
