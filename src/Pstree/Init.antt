-- ===== src/Pstree/Init.antt =====
-- `init` of pstree/pstree.c as a whole.
use oslab.Prelude.{ℕ, ◌^◌, ◌<◌, ◌≡◌, Option, none, some, List, length}
use oslab.Pstree.{Procs, Scan, scan_start, read_stat, find_parent}

-- No process has a child or a brother.
pub record IsBlank (ps : Procs) : Type 0 where
  pub no_child : (x : ℕ) → ps.child x ≡ none
  pub no_bros : (x : ℕ) → ps.bros x ≡ none

-- What the file of a process tells.
unfoldable pub scan_of : Option (List ℕ) → Scan
scan_of none = scan_start
scan_of (some text) = read_stat text scan_start

-- The place of the parent of a process, behind all processes if there is none.
abbrev pub parent_of : (List ℕ → Option (List ℕ)) → Procs → ℕ → ℕ
parent_of stat ps i = find_parent ps.count 0 (scan_of (stat (ps.spid i))).ppid ps.pid

-- The file of a process is there, and its fields fit.
pub record IsReadable (file : Option (List ℕ)) : Type 0 where
  pub there : (text : List ℕ) × (file ≡ some text)
  pub name_fits : length (scan_of file).name < 30
  pub ppid_fits : (scan_of file).ppid < 2 ^ 31
