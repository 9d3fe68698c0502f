-- ===== src/Frecov/Traverse.antt =====
-- The loops of `Traverse_Dir` and `main` of frecov/frecov.c end.
use oslab.Prelude.{
  Ends, bind-Ends, returns-Ends, undefined-Ends, if-Ends, ℕ, zero, suc, ◌+◌, ◌*◌, ◌%◌, ◌≤◌, ◌<◌,
  ◌≡◌, refl, ◌⊎◌, inl, inr, arith, if◌then◌else◌, List, [], ◌∷◌, ◌++◌, leb, ltb, ◌==◌, ◌||◌,
  Bool-cases, Outcome, returns, undefined, ◌>>=◌, length, ◌^◌, ◌-◌,
}
use oslab.Klib.Mem.{Memory}
use oslab.Frecov.Names.{not_named}
use oslab.Frecov.{
  u16, data_sec, Header, bytes_per_clus, cluster_to_sec, get_data_clus, attr, attr_archive,
  attr_long_name, count_entries, Recovered, c_string, read_text, file_recovery, Step, stop, named,
  next_name, traverse_dir, scan_clusters, recover, header, is_fat, visit,
}

read_text-Ends : (n a : ℕ) (mem : Memory) → Ends (read_text n a mem)
unfolding read_text
read_text-Ends zero a mem = undefined-Ends
read_text-Ends (suc n) a mem =
    if-Ends (mem a == 0) (returns []) (read_text n (a + 1) mem >>= λ cs. returns (mem a ∷ cs))
      (returns-Ends [])
      (bind-Ends (read_text n (a + 1) mem) (λ cs. returns (mem a ∷ cs))
        (read_text-Ends n (a + 1) mem) (λ cs. returns-Ends (mem a ∷ cs)))

file_recovery-Ends :
    (hdr : Header) (entry : ℕ) (name : List ℕ) (mem : Memory)
    → Ends (file_recovery hdr entry name mem)
unfolding file_recovery
file_recovery-Ends hdr entry name mem =
    if-Ends (ltb 4096 (bytes_per_clus hdr) || ltb 114 (length (c_string name))) undefined _
      undefined-Ends
      (bind-Ends
        (read_text (bytes_per_clus hdr)
          (cluster_to_sec (u16 mem (entry + 26) + 65536 * u16 mem (entry + 20)) hdr) mem)
        _
        (read_text-Ends (bytes_per_clus hdr)
          (cluster_to_sec (u16 mem (entry + 26) + 65536 * u16 mem (entry + 20)) hdr) mem)
        (λ text. returns-Ends _))

named_short : {n1 n2 : List ℕ} {a1 a2 : ℕ} → named n1 a1 ≡ named n2 a2 → a1 ≡ a2
named_short e = cc e

Step-cases : (s : Step) → (s ≡ stop) ⊎ ((name : List ℕ) × (short : ℕ) × (s ≡ named name short))
Step-cases stop = inl refl
Step-cases (named name short) = inr (name, short, refl)

-- The next short entry is not before the current one.
next_name-le :
    (clus_end cur short : ℕ) (name : List ℕ) (mem : Memory)
    → next_name clus_end cur mem ≡ named name short
    → cur ≤ short
unfolding next_name
next_name-le clus_end cur short name mem e = elim (Bool-cases (attr mem cur == attr_long_name)) [
  | inl l ↦ elim (Bool-cases (ltb clus_end (cur + 32 * (mem cur % 16)))) [
    | inl f ↦ absurd (not_named (rw (l, f) at e))
    | inr f ↦ omega (arith, named_short (rw (l, f) at e))
  ]
  | inr l ↦ omega (arith, named_short (rw l at e))
]

visit-Ends :
    (hdr : Header) (mem : Memory) (clus_end cur : ℕ) (rest : ℕ → Outcome (List Recovered))
    → ((next : ℕ) → cur + 32 ≤ next → Ends (rest next))
    → Ends (visit hdr mem (next_name clus_end cur mem) rest)
unfolding visit
visit-Ends hdr mem clus_end cur rest h = elim (Step-cases (next_name clus_end cur mem)) [
  | inl e ↦ rw e (returns-Ends [])
  | inr (name, short, e) ↦
      (let ih = h (short + 32) (omega (arith, next_name-le clus_end cur short name mem e)) in
        rw e (
          if-Ends (attr mem short == attr_archive) _ (rest (short + 32))
            (bind-Ends (file_recovery hdr short name mem) _ (file_recovery-Ends hdr short name mem)
              (λ file. bind-Ends (rest (short + 32)) _ ih (λ files. returns-Ends (file ∷ files))))
            ih))
]

-- Each round of `Traverse_Dir` goes on by 32 bytes at least, so a round of fuel for each entry of the
-- cluster and two more are enough.
pub traverse_dir-Ends :
    (fuel : ℕ) (hdr : Header) (clus_end cur : ℕ) (mem : Memory)
    → clus_end + 32 < cur + 32 * fuel
    → 0 < fuel
    → Ends (traverse_dir fuel hdr clus_end cur mem)
unfolding traverse_dir
traverse_dir-Ends zero hdr clus_end cur mem enough pos = absurd (omega arith)
traverse_dir-Ends (suc fuel) hdr clus_end cur mem enough pos =
    elim (Bool-cases (leb cur clus_end)) [
      | inr out ↦ rw out (returns-Ends [])
      | inl within ↦ rw within (
          visit-Ends hdr mem clus_end cur (λ next. traverse_dir fuel hdr clus_end next mem)
            (λ next le.
              traverse_dir-Ends fuel hdr clus_end next mem (ground (arith, le)) (ground arith)))
    ]

scan_clusters-Ends :
    (fuel n i : ℕ) (hdr : Header) (mem : Memory)
    → bytes_per_clus hdr + 32 < 32 * fuel
    → Ends (scan_clusters fuel n i hdr mem)
unfolding scan_clusters
scan_clusters-Ends fuel zero i hdr mem enough = returns-Ends []
scan_clusters-Ends fuel (suc n) i hdr mem enough =
    let dir = cluster_to_sec i hdr in
    bind-Ends
      (if leb 32 (count_entries 128 dir mem)
        then traverse_dir fuel hdr (dir + bytes_per_clus hdr) dir mem
        else returns [])
      _
      (if-Ends (leb 32 (count_entries 128 dir mem))
        (traverse_dir fuel hdr (dir + bytes_per_clus hdr) dir mem) (returns [])
        (traverse_dir-Ends fuel hdr (dir + bytes_per_clus hdr) dir mem (omega arith) (omega arith))
        (returns-Ends []))
      (λ files.
        bind-Ends (scan_clusters fuel n (i + 1) hdr mem) _
          (scan_clusters-Ends fuel n (i + 1) hdr mem enough)
          (λ later. returns-Ends (files ++ later)))

get_data_clus-Ends : (size : ℕ) (hdr : Header) → Ends (get_data_clus size hdr)
unfolding get_data_clus
get_data_clus-Ends size hdr = if-Ends (bytes_per_clus hdr == 0) undefined _ undefined-Ends (
    if-Ends (leb (data_sec hdr * hdr.byts_per_sec % 2 ^ 32) size) _ _ (returns-Ends _)
      (returns-Ends _))

-- On every image the search ends, with a round of fuel for each entry of a cluster and two more.
pub recover-Ends :
    (fuel size : ℕ) (mem : Memory)
    → bytes_per_clus (header mem) + 32 < 32 * fuel
    → Ends (recover fuel size mem)
unfolding recover
recover-Ends fuel size mem enough =
    if-Ends (is_fat size (header mem)) _ (returns [])
      (bind-Ends (get_data_clus size (header mem)) _ (get_data_clus-Ends size (header mem))
        (λ n. scan_clusters-Ends fuel ((n + 2) % 2 ^ 32 - 2) 2 (header mem) mem enough))
      (returns-Ends [])
