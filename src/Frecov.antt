-- ===== src/Frecov.antt =====
-- frecov/frecov.c: finding directories in a damaged FAT32 image and recovering their files. The image is
-- a memory of bytes, and an address is relative to `hdr`, the start of the mapped image.
pub mod Names
pub mod Clusters
pub mod Traverse
mod Tests
use oslab.Prelude.{
  ℕ, zero, suc, ◌+◌, ◌-◌, ◌*◌, ◌/◌, ◌%◌, ◌^◌, Bool, true, false, ltb, leb, ◌&&◌, ◌||◌, ◌==◌,
  if◌then◌else◌, Outcome, returns, undefined, no_fuel, ◌>>=◌, List, [], ◌∷◌, ◌++◌, length,
}
use oslab.Klib.Mem.{Memory}

-- Little-endian fields.
unfoldable pub u16 : Memory → ℕ → ℕ
u16 mem a = mem a + 256 * mem (a + 1)

unfoldable pub u32 : Memory → ℕ → ℕ
u32 mem a = u16 mem a + 65536 * u16 mem (a + 2)

-- The fields of `struct fat32hdr` that the program reads.
pub record Header : Type 0 where
  pub byts_per_sec : ℕ
  pub sec_per_clus : ℕ
  pub rsvd_sec_cnt : ℕ
  pub num_fats : ℕ
  pub tot_sec32 : ℕ
  pub fatsz32 : ℕ
  pub signature_word : ℕ

unfoldable pub header : Memory → Header
header mem = record {
  byts_per_sec = u16 mem 11;
  sec_per_clus = mem 13;
  rsvd_sec_cnt = u16 mem 14;
  num_fats = mem 16;
  tot_sec32 = u32 mem 32;
  fatsz32 = u32 mem 36;
  signature_word = u16 mem 510;
}

-- The test of `map_disk` that the image, of `size` bytes, is one of a FAT file system.
unfoldable pub is_fat : ℕ → Header → Bool
is_fat size hdr =
    (hdr.signature_word == 43605) && (hdr.tot_sec32 * hdr.byts_per_sec % 2 ^ 32 == size)

-- `BytesPerClus`
unfoldable pub bytes_per_clus : Header → ℕ
bytes_per_clus hdr = hdr.byts_per_sec * hdr.sec_per_clus

-- The first sector of the data region.
unfoldable pub data_sec : Header → ℕ
data_sec hdr = (hdr.rsvd_sec_cnt + hdr.num_fats * hdr.fatsz32) % 2 ^ 32

-- The address of the cluster `n`; `n - 2` is an `int`, which may be negative, and its product wraps.
unfoldable pub cluster_to_sec : ℕ → Header → ℕ
cluster_to_sec n hdr =
    (data_sec hdr + (n + 2 ^ 32 - 2) * hdr.sec_per_clus) % 2 ^ 32 * hdr.byts_per_sec % 2 ^ 32

-- A division by zero is undefined; `size - ...` is negative if the data region starts behind the image.
unfoldable pub get_data_clus : ℕ → Header → Outcome ℕ
get_data_clus size hdr =
    let start = data_sec hdr * hdr.byts_per_sec % 2 ^ 32 in
    if bytes_per_clus hdr == 0
    then undefined
    else if leb start size
    then returns ((size - start) / bytes_per_clus hdr % 2 ^ 32)
    else returns ((2 ^ 32 - (start - size) / bytes_per_clus hdr % 2 ^ 32) % 2 ^ 32)

-- Entries of a directory have 32 bytes; `DIR_Attr` and `LDIR_Attr` are the same byte.
unfoldable pub attr : Memory → ℕ → ℕ
attr mem entry = mem (entry + 11)

-- `ATTR_READ_ONLY`, `ATTR_DIRECTORY`, `ATTR_ARCHIVE`, `ATTR_LONG_NAME`
abbrev pub attr_read_only : ℕ
attr_read_only = 1

abbrev pub attr_directory : ℕ
attr_directory = 16

abbrev pub attr_archive : ℕ
attr_archive = 32

abbrev pub attr_long_name : ℕ
attr_long_name = 15

-- `sup` of `main`: how many of the entries from `entry` on look like entries of a directory.
unfoldable pub count_entries : ℕ → ℕ → Memory → ℕ
count_entries zero entry mem = 0
count_entries (suc n) entry mem =
    let later = count_entries n (entry + 32) mem in
    let a = attr mem entry in
    if (a == attr_long_name)
      || (a == attr_archive)
      || (a == attr_directory)
      || (a == attr_read_only)
    then later + 1
    else later

-- The loops over the characters of `LDIR_Name1`, `LDIR_Name2` and `LDIR_Name3`: what they append to the
-- name, and `flag`.
unfoldable pub copy_name : ℕ → ℕ → Memory → List ℕ × Bool
copy_name zero a mem = ([], false)
copy_name (suc n) a mem =
    let (chars, flag) = copy_name n (a + 2) mem in
    if u16 mem a == 65535 then ([], true) else (u16 mem a % 256 ∷ chars, flag)

-- The three parts of the name of a long entry.
unfoldable pub copy_entry : ℕ → Memory → List ℕ × Bool
copy_entry entry mem =
    let (chars1, flag1) = copy_name 5 (entry + 1) mem in
    let (chars2, flag2) = copy_name 6 (entry + 14) mem in
    let (chars3, flag3) = copy_name 2 (entry + 28) mem in
    if flag1
    then (chars1, true)
    else if flag2
    then (chars1 ++ chars2, true)
    else (chars1 ++ (chars2 ++ chars3), flag3)

-- `while(LdentNum --)`, from the entry before the short one downwards.
unfoldable pub long_name : ℕ → ℕ → Memory → List ℕ
long_name zero entry mem = []
long_name (suc n) entry mem =
    let (chars, flag) = copy_entry entry mem in
    let later = long_name n (entry - 32) mem in if flag then chars else chars ++ later

-- The loop over `DIR_Name` from the character `i` on; 32 is the space, 46 the dot.
unfoldable pub short_name : ℕ → ℕ → ℕ → Memory → List ℕ
short_name zero i entry mem = []
short_name (suc n) i entry mem =
    let later = short_name n (i + 1) entry mem in
    if mem (entry + i) == 32
    then later
    else if i == 8
    then 46 ∷ mem (entry + i) ∷ later
    else mem (entry + i) ∷ later

-- A file that `file_recovery` has appended to: the characters of its name, up to the terminator, and
-- what is written to it.
pub record Recovered : Type 0 where
  pub name : List ℕ
  pub content : List ℕ

-- The characters before the first null.
unfoldable pub c_string : List ℕ → List ℕ
c_string [] = []
c_string (c ∷ cs) = let later = c_string cs in if c == 0 then [] else c ∷ later

-- `fprintf(fp, "%s", databuf)`: the `n` bytes that have been copied to `databuf` hold a terminator, or
-- what stands behind them is printed as well.
unfoldable pub read_text : ℕ → ℕ → Memory → Outcome (List ℕ)
read_text zero a mem = undefined
read_text (suc n) a mem =
    let later = read_text n (a + 1) mem in
    if mem a == 0 then returns [] else (do cs ← later; returns (mem a ∷ cs))

-- The first cluster of the file goes through a buffer of 4096 bytes, and the command "sha1sum " with
-- the path "/tmp/" and the name through one of 128.
unfoldable pub file_recovery : Header → ℕ → List ℕ → Memory → Outcome Recovered
file_recovery hdr entry name mem =
    let clus = u16 mem (entry + 26) + 65536 * u16 mem (entry + 20) in
    if ltb 4096 (bytes_per_clus hdr) || ltb 114 (length (c_string name)) then undefined else (do
      text ← read_text (bytes_per_clus hdr) (cluster_to_sec clus hdr) mem
      returns (record { name = c_string name; content = text }))

-- The name of the entry at `cur` and the address of its short entry; for a long name that leaves the
-- cluster the loop ends.
pub data Step : Type 0 where
  stop : Step
  named : List ℕ → ℕ → Step

unfoldable pub next_name : ℕ → ℕ → Memory → Step
next_name clus_end cur mem =
    let num = mem cur % 16 in
    let short = cur + 32 * num in
    if attr mem cur == attr_long_name
    then if ltb clus_end short then stop else named (long_name num (short - 32) mem) short
    else named (short_name 11 0 cur mem) cur

-- What the loop does with an entry, and `rest` from the next one on.
unfoldable pub visit :
    Header → Memory → Step → (ℕ → Outcome (List Recovered)) → Outcome (List Recovered)
visit hdr mem stop rest = returns []
visit hdr mem (named name short) rest =
    let later = rest (short + 32) in
    if attr mem short == attr_archive
    then (do file ← file_recovery hdr short name mem; files ← later; returns (file ∷ files))
    else later

-- `Traverse_Dir`: the files that it recovers. At the head of the loop both pointers are the same.
unfoldable pub traverse_dir : ℕ → Header → ℕ → ℕ → Memory → Outcome (List Recovered)
traverse_dir zero hdr clus_end cur mem = no_fuel
traverse_dir (suc fuel) hdr clus_end cur mem =
    let rest : ℕ → Outcome (List Recovered) = λ next. traverse_dir fuel hdr clus_end next mem in
    if leb cur clus_end then visit hdr mem (next_name clus_end cur mem) rest else returns []

-- The loop of `main` from the cluster `i` on; a cluster with 32 entries is taken for a directory.
unfoldable pub scan_clusters : ℕ → ℕ → ℕ → Header → Memory → Outcome (List Recovered)
scan_clusters fuel zero i hdr mem = returns []
scan_clusters fuel (suc n) i hdr mem = do
  let dir : ℕ = cluster_to_sec i hdr
  files ←
      (if leb 32 (count_entries 128 dir mem)
        then traverse_dir fuel hdr (dir + bytes_per_clus hdr) dir mem
        else returns [])
  later ← scan_clusters fuel n (i + 1) hdr mem
  returns (files ++ later)

-- `main` on an image of `size` bytes; `none` of the files if it is not one of a FAT file system, where
-- the program exits.
unfoldable pub recover : ℕ → ℕ → Memory → Outcome (List Recovered)
recover fuel size mem =
    let hdr = header mem in
    if is_fat size hdr
    then (do
      clusters ← get_data_clus size hdr
      scan_clusters fuel ((clusters + 2) % 2 ^ 32 - 2) 2 hdr mem)
    else returns []
