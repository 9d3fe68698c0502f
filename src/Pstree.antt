-- ===== src/Pstree.antt =====
-- pstree/pstree.c: reading the processes under /proc, building their tree with pointers, and printing it. A
-- process is its index in `procs`; a null pointer is `none`. What `readdir` gives and what the files hold
-- are arguments, and so is what printf writes for "%d".
pub mod Stat
pub mod Build
pub mod Listed
pub mod Init
pub mod Print
mod Tests
use oslab.Prelude.{
  ℕ, zero, suc, ◌+◌, ◌-◌, ◌*◌, ◌^◌, Bool, true, false, ltb, leb, ◌&&◌, ◌||◌, ◌==◌, if◌then◌else◌,
  update, Outcome, returns, panics, undefined, no_fuel, or_fuel, ◌>>=◌, Option, none, some, List,
  [], ◌∷◌, ◌++◌, length,
}

-- The arrays of the fields of `struct proc`; `count` is `num + 1`.
pub record Procs : Type 0 where
  pub count : ℕ
  pub root : Option ℕ
  pub pid : ℕ → ℕ
  pub child : ℕ → Option ℕ
  pub bros : ℕ → Option ℕ
  pub spid : ℕ → List ℕ
  pub name : ℕ → List ℕ

-- The global variables at the start.
abbrev pub no_procs : Procs
no_procs = record {
  count = 0;
  root = none;
  pid = λ i. 0;
  child = λ i. none;
  bros = λ i. none;
  spid = λ i. [];
  name = λ i. [];
}

abbrev pub is_digit : ℕ → Bool
is_digit c = leb 48 c && leb c 57

-- The loop over the characters of the entry: `none` if `flag` is cleared.
unfoldable pub read_pid : List ℕ → ℕ → Option ℕ
read_pid [] pid = some pid
read_pid (c ∷ cs) pid =
    let rest = read_pid cs (pid * 10 + (c - 48)) in if is_digit c then rest else none

-- There are 1000 places, and `spid` has 6 characters.
unfoldable pub add_proc : List ℕ → Option ℕ → Procs → Outcome Procs
add_proc s none ps = returns ps
add_proc s (some pid) ps =
    if ltb 999 ps.count || ltb 5 (length s)
    then undefined
    else returns (record {
      count = ps.count + 1;
      root = if pid == 1 then some ps.count else ps.root;
      pid = update ps.pid ps.count pid;
      child = update ps.child ps.count none;
      bros = update ps.bros ps.count none;
      spid = update ps.spid ps.count s;
      name = update ps.name ps.count [];
    })

-- The loop over the entries of /proc, which are copied to 30 characters.
unfoldable pub scan_entries : List (List ℕ) → Procs → Outcome Procs
scan_entries [] ps = returns ps
scan_entries (s ∷ ss) ps = do
  ps1 ← (if ltb 29 (length s) then undefined else add_proc s (read_pid s 0) ps)
  scan_entries ss ps1

-- The variables of the loop over a file `stat`; `name` is what it has stored so far.
pub record Scan : Type 0 where
  pub name : List ℕ
  pub f : Bool
  pub st : Bool
  pub end : Bool
  pub ppid : ℕ

abbrev pub scan_start : Scan
scan_start = record { name = []; f = true; st = false; end = false; ppid = 0 }

-- The body of the loop, and whether it goes on; 40 and 41 are the parentheses. The character 255 is EOF.
unfoldable pub scan_char : ℕ → Scan → Bool × Scan
scan_char ch sc =
    if ch == 255
    then (false, sc)
    else if sc.f
    then if ch == 40
      then (true, record sc { st = true })
      else if ch == 41
      then (true, record sc { f = false; st = false })
      else if sc.st
      then (true, record sc { name = sc.name ++ (ch ∷ []) })
      else (true, sc)
    else if is_digit ch
    then (true, record sc { end = true; ppid = sc.ppid * 10 + (ch - 48) })
    else (if sc.end then false else true, sc)

unfoldable pub read_stat : List ℕ → Scan → Scan
read_stat [] sc = sc
read_stat (ch ∷ chs) sc =
    let (go, sc1) = scan_char ch sc in let rest = read_stat chs sc1 in if go then rest else sc1

-- The search for the parent among the `n` processes from `idx` on; without one it ends behind the last.
unfoldable pub find_parent : ℕ → ℕ → ℕ → (ℕ → ℕ) → ℕ
find_parent zero idx ppid pid = idx
find_parent (suc n) idx ppid pid =
    let rest = find_parent n (idx + 1) ppid pid in if pid idx == ppid then idx else rest

-- `while(tmp -> bros != NULL) tmp = tmp -> bros`
unfoldable pub follow : Option ℕ → ℕ → (ℕ → Option ℕ) → Option ℕ
follow none tmp next = some tmp
follow (some b) tmp next = next b

unfoldable pub last_bro : ℕ → ℕ → (ℕ → Option ℕ) → Option ℕ
last_bro zero tmp bros = none
last_bro (suc fuel) tmp bros = follow (bros tmp) tmp (λ b. last_bro fuel b bros)

-- The tree building, on `procs[idx].child`.
unfoldable pub add_child : ℕ → Option ℕ → ℕ → ℕ → Procs → Outcome Procs
add_child fuel none idx i ps = returns (record ps { child = update ps.child idx (some i) })
add_child fuel (some c) idx i ps = do
  tmp ← or_fuel (last_bro fuel c ps.bros)
  returns (record ps { bros = update ps.bros tmp (some i) })

-- The second loop of `init` for the process `i`, whose file holds the characters. A name of 30
-- characters or more does not end in its array.
unfoldable pub place : ℕ → ℕ → Scan → Procs → Outcome Procs
place fuel i sc ps =
    let idx = find_parent ps.count 0 sc.ppid ps.pid in
    if ltb 29 (length sc.name) || ltb (2 ^ 31 - 1) sc.ppid || ltb 999 idx
    then undefined
    else add_child fuel (ps.child idx) idx i (record ps { name = update ps.name i sc.name })

unfoldable pub read_proc : ℕ → Option (List ℕ) → ℕ → Procs → Outcome Procs
read_proc fuel none i ps = panics
read_proc fuel (some text) i ps = place fuel i (read_stat text scan_start) ps

-- `stat` is the files by the names of their directories.
unfoldable pub read_procs : ℕ → (List ℕ → Option (List ℕ)) → ℕ → ℕ → Procs → Outcome Procs
read_procs fuel stat zero i ps = returns ps
read_procs fuel stat (suc n) i ps = do
  ps1 ← read_proc fuel (stat (ps.spid i)) i ps
  read_procs fuel stat n (i + 1) ps1

unfoldable pub init : ℕ → (List ℕ → Option (List ℕ)) → List (List ℕ) → Outcome Procs
init fuel stat entries = do ps ← scan_entries entries no_procs; read_procs fuel stat ps.count 0 ps

-- Two spaces for each level from 0 to the depth.
unfoldable pub indent : ℕ → List ℕ
indent zero = 32 ∷ 32 ∷ []
indent (suc depth) = 32 ∷ 32 ∷ indent depth

module _ (decimal : ℕ → List ℕ) (p : Bool) (ps : Procs) where
  -- What is printed for a process itself.
  unfoldable pub label : ℕ → List ℕ
  label r = if p then ps.name r ++ (40 ∷ (decimal (ps.pid r) ++ (41 ∷ []))) else ps.name r

  -- The loop of `P` over the brothers, with `print` for the recursive call.
  unfoldable pub print_bros : ℕ → (ℕ → Outcome (List ℕ)) → ℕ → Option ℕ → Outcome (List ℕ)
  print_bros fuel print depth none = returns []
  print_bros zero print depth (some tmp) = no_fuel
  print_bros (suc fuel) print depth (some tmp) = do
    sub ← print tmp
    rest ← print_bros fuel print depth (ps.bros tmp)
    returns (10 ∷ (indent depth ++ (sub ++ rest)))

  -- `P` without the option -V.
  unfoldable pub print_proc : ℕ → ℕ → ℕ → Outcome (List ℕ)
  print_proc zero r depth = no_fuel
  print_proc (suc fuel) r depth = do
    subs ← print_bros fuel (λ tmp. print_proc fuel tmp (depth + 1)) depth (ps.child r)
    returns (label r ++ subs)

-- The options `p`, `n` and `v`.
pub record Options : Type 0 where
  pub p : Bool
  pub n : Bool
  pub v : Bool

unfoldable pub same : List ℕ → List ℕ → Bool
same [] [] = true
same [] (y ∷ ys) = false
same (x ∷ xs) [] = false
same (x ∷ xs) (y ∷ ys) = let rest = same xs ys in if x == y then rest else false

-- "-p", "--show-pids", "-n", "--numeric-sort", "-V" and "--version"
unfoldable pub read_options : List (List ℕ) → Options → Options
read_options [] o = o
read_options (a ∷ rest) o =
    let o1 : Options = record {
      p =
          o.p
          || same a (45 ∷ 112 ∷ [])
          || same a (45 ∷ 45 ∷ 115 ∷ 104 ∷ 111 ∷ 119 ∷ 45 ∷ 112 ∷ 105 ∷ 100 ∷ 115 ∷ []);
      n =
          o.n
          || same a (45 ∷ 110 ∷ [])
          || same a
              (45 ∷ 45 ∷ 110 ∷ 117 ∷ 109 ∷ 101 ∷ 114 ∷ 105 ∷ 99 ∷ 45 ∷ 115 ∷ 111 ∷ 114 ∷ 116 ∷ []);
      v =
          o.v
          || same a (45 ∷ 86 ∷ [])
          || same a (45 ∷ 45 ∷ 118 ∷ 101 ∷ 114 ∷ 115 ∷ 105 ∷ 111 ∷ 110 ∷ []);
    } in
    read_options rest o1

-- What `P(root, 1)` writes to the output; the version goes to the errors.
unfoldable pub print_root : ℕ → (ℕ → List ℕ) → Options → Option ℕ → Procs → Outcome (List ℕ)
print_root fuel decimal o none ps = if o.v then returns [] else undefined
print_root fuel decimal o (some r) ps =
    if o.v then returns [] else print_proc decimal o.p ps fuel r 1

unfoldable pub pstree :
    ℕ → (ℕ → List ℕ) → (List ℕ → Option (List ℕ)) → List (List ℕ) → List (List ℕ) → Outcome (List ℕ)
pstree fuel decimal stat args entries = do
  let o : Options = read_options args (record { p = false; n = false; v = false })
  ps ← init fuel stat entries
  print_root fuel decimal o ps.root ps
