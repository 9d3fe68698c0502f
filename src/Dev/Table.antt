-- ===== src/Dev/Table.antt =====
-- kernel/src/dev/dev.c with `struct device` of kernel/include/devices.h: the table of the devices. What a
-- driver's `init` does is a parameter, since it changes the state of its driver.
use oslab.Prelude.{
  ℕ, ◌+◌, ◌<◌, ◌≡◌, ◌≢◌, refl, ap, ◌∙◌, arith, Bool, true, false, if◌then◌else◌, Option, none, some,
  Outcome, returns, panics, undefined, ◌>>=◌, List, [], ◌∷◌, ◌++◌, map, set, length, All, bind_eq,
  Bool-cases, ◌==◌, inl, ==_iff, inr, ltb,
}
use oslab.Klib.Mem.{Memory, Sign, negative, positive}
use oslab.Klib.Str.{strcmp}
use oslab.Klib.Str.Laws.{Chars, strcmp_lem, compare_chars}
use mathlib.Core.Path.{ap₂}

-- The drivers, whose tables of operations the devices point to.
pub data Driver : Type 0 where
  input_ops fb_ops tty_ops sd_ops : Driver

-- `device_t`; its name and its state are addresses.
pub record Device : Type 0 where
  pub name : ℕ
  pub id : ℕ
  pub ptr : ℕ
  pub ops : Driver

unfoldable pub is_equal : Sign → Bool
is_equal negative = false
is_equal Sign.none = true
is_equal positive = false

-- The loop over the table; a null pointer in it must not be followed.
unfoldable pub dev_lookup : ℕ → List (Option Device) → ℕ → Memory → Outcome Device
dev_lookup fuel [] name mem = panics
dev_lookup fuel (none ∷ ds) name mem = undefined
dev_lookup fuel (some d ∷ ds) name mem =
    let rest = dev_lookup fuel ds name mem in
    strcmp fuel d.name name mem >>= λ s. if is_equal s then returns d else rest

-- `dev_create` with what `pmm->alloc` returned for the state; the device itself is a value here.
unfoldable pub dev_create : ℕ → ℕ → ℕ → Driver → Device
dev_create ptr name id ops = record { name = name; id = id; ptr = ptr; ops = ops }

-- A line of `DEVICES`: the name, the number and the driver.
pub record Entry : Type 0 where
  pub name : ℕ
  pub id : ℕ
  pub ops : Driver

-- The table with the addresses of the strings "input", "fb", "tty1", "tty2" and "sda".
unfoldable pub device_entries : ℕ → ℕ → ℕ → ℕ → ℕ → List Entry
device_entries input fb tty1 tty2 sda =
    record { name = input; id = 1; ops = input_ops }
    ∷ record { name = fb; id = 1; ops = fb_ops }
    ∷ record { name = tty1; id = 1; ops = tty_ops }
    ∷ record { name = tty2; id = 2; ops = tty_ops }
    ∷ record { name = sda; id = 1; ops = sd_ops }
    ∷ []

module _ {S : Type 0} (alloc : S → ℕ × S)
    (init : Device → List (Option Device) → S → Outcome S) where
  -- `INIT` for the entries from place `i` on.
  unfoldable pub init_all :
      ℕ → List Entry → List (Option Device) → S → Outcome (List (Option Device) × S)
  init_all i [] table s = returns (table, s)
  init_all i (e ∷ es) table s = do
    let got : ℕ × S = alloc s
    let d : Device = dev_create got.0 e.name e.id e.ops
    let table1 : List (Option Device) = set table i (some d)
    s1 ← init d table1 got.1
    init_all (i + 1) es table1 s1

  -- `dev_init` without the tasks, which `kmt->create` starts.
  unfoldable pub dev_init : List Entry → S → Outcome (List (Option Device) × S)
  dev_init es s = init_all 0 es (map (λ e. none) es) s

-- The device is called `xs`, in ASCII and shorter than the fuel.
pub record IsNamed (fuel : ℕ) (mem : Memory) (name : ℕ) (xs : List ℕ) : Type 0 where
  pub non_null : name ≢ 0
  pub chars : Chars mem name xs
  pub ascii : All (λ c. c < 128) xs
  pub short : length xs < fuel

-- The devices have other names than `xs`.
abbrev pub OtherNames : ℕ → Memory → List ℕ → List Device → Type 0
OtherNames fuel mem xs ds =
    All (λ (d : Device). (ys : List ℕ) × IsNamed fuel mem d.name ys × (ys ≢ xs)) ds

compare_same : (xs : List ℕ) → compare_chars xs xs ≡ Sign.none
compare_same [] = refl
compare_same (x ∷ xs) = ground (arith, compare_same xs)

compare_other : (xs ys : List ℕ) → ys ≢ xs → is_equal (compare_chars ys xs) ≡ false
unfolding is_equal
compare_other [] [] ne = absurd (ne refl)
compare_other (x ∷ xs) [] ne = refl
compare_other [] (y ∷ ys) ne = refl
compare_other (x ∷ xs) (y ∷ ys) ne = elim (Bool-cases (y == x)) [
  | inl e ↦
      rw e
        (compare_other xs ys (λ q. ne (ap₂ (λ (a : ℕ) (b : List ℕ). a ∷ b) ((==_iff y x).0 e) q)))
  | inr n ↦ rw n (elim (Bool-cases (ltb y x)) [ inl l ↦ rw l refl | inr g ↦ rw g refl ])
]

-- `dev_lookup` passes over the devices of other names, and returns the first of the name. Devices behind
-- it need not be there yet: so `tty_init` finds "fb" while the table is being filled.
pub dev_lookup_first :
    (fuel name : ℕ) (mem : Memory) (xs : List ℕ) (before : List Device) (d : Device)
    (rest : List (Option Device))
    → IsNamed fuel mem name xs
    → OtherNames fuel mem xs before
    → IsNamed fuel mem d.name xs
    → dev_lookup fuel (map some before ++ (some d ∷ rest)) name mem ≡ returns d
unfolding dev_lookup is_equal
dev_lookup_first fuel name mem xs [] d rest n os m =
    bind_eq _ (
      strcmp_lem fuel d.name name mem xs xs m.non_null n.non_null m.chars n.chars m.ascii n.ascii
        m.short)
    ∙ ap (λ (s : Sign). if is_equal s then returns d else dev_lookup fuel rest name mem)
        (compare_same xs)
dev_lookup_first fuel name mem xs (b ∷ before) d rest n os m =
    let (ys, o, ne) = os.0 in
    let later = dev_lookup fuel (map some before ++ (some d ∷ rest)) name mem in
    bind_eq _ (
      strcmp_lem fuel b.name name mem ys xs o.non_null n.non_null o.chars n.chars o.ascii n.ascii
        o.short)
    ∙ ap (λ (t : Bool). if t then returns b else later) (compare_other xs ys ne)
    ∙ dev_lookup_first fuel name mem xs before d rest n os.1 m
