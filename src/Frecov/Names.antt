-- ===== src/Frecov/Names.antt =====
-- The names of directory entries: what the loops of `Traverse_Dir` of frecov/frecov.c read.
use oslab.Prelude.{
  ℕ, zero, suc, ◌+◌, ◌-◌, ◌*◌, ◌%◌, ◌≤◌, ◌<◌, ◌≡◌, refl, sym, ap, ◌∙◌, inl, inr, arith, Bool, true,
  false, if◌then◌else◌, List, [], ◌∷◌, ◌++◌, length, length-append, replicate, ◌==◌, Bool-cases,
  ltb,
}
use oslab.Klib.Mem.{Memory}
use oslab.Frecov.{
  u16, copy_name, copy_entry, long_name, short_name, stop, named, next_name, attr, attr_long_name,
}

-- The characters of a long name as FAT32 stores them: 13 words in three parts of an entry, the entries
-- in descending order before the short one.
unfoldable pub words : ℕ → ℕ → Memory → List ℕ
words zero a mem = []
words (suc n) a mem = u16 mem a ∷ words n (a + 2) mem

unfoldable pub entry_words : ℕ → Memory → List ℕ
entry_words entry mem =
    words 5 (entry + 1) mem ++ (words 6 (entry + 14) mem ++ words 2 (entry + 28) mem)

unfoldable pub name_words : ℕ → ℕ → Memory → List ℕ
name_words zero entry mem = []
name_words (suc n) entry mem = entry_words entry mem ++ name_words n (entry - 32) mem

-- The low bytes before the first word 0xffff, and whether there is one.
unfoldable cut : List ℕ → List ℕ × Bool
cut [] = ([], false)
cut (w ∷ ws) =
    let (chars, flag) = cut ws in if w == 65535 then ([], true) else (w % 256 ∷ chars, flag)

cut_nil : (cut []).0 ≡ []
unfolding cut
cut_nil = refl

cut-append :
    (xs ys : List ℕ)
    → cut (xs ++ ys) ≡ (if (cut xs).1 then cut xs else ((cut xs).0 ++ (cut ys).0, (cut ys).1))
unfolding cut
cut-append [] ys = refl
cut-append (w ∷ ws) ys = elim (Bool-cases (w == 65535)) [
  | inl e ↦ rw e refl
  | inr n ↦
      rw (n, cut-append ws ys)
        (elim (Bool-cases (cut ws).1) [
          | inl f ↦ rw f (ap (λ (g : Bool). (w % 256 ∷ (cut ws).0, g)) f)
          | inr f ↦ rw f refl
        ])
]

if_map : (b : Bool) (x y : List ℕ × Bool) → (if b then x else y).0 ≡ (if b then x.0 else y.0)
if_map true x y = refl
if_map false x y = refl

copy_name-cut : (n a : ℕ) (mem : Memory) → copy_name n a mem ≡ cut (words n a mem)
unfolding copy_name cut words
copy_name-cut zero a mem = refl
copy_name-cut (suc n) a mem = rw (copy_name-cut n (a + 2) mem) refl

cut_three :
    (xs ys zs : List ℕ)
    → (if (cut xs).1
        then ((cut xs).0, true)
        else if (cut ys).1
        then ((cut xs).0 ++ (cut ys).0, true)
        else ((cut xs).0 ++ ((cut ys).0 ++ (cut zs).0), (cut zs).1))
      ≡ cut (xs ++ (ys ++ zs))
cut_three xs ys zs = elim (Bool-cases (cut xs).1) [
  | inl f ↦
      rw f (ap (λ (g : Bool). ((cut xs).0, g)) (sym f) ∙ sym (cut-append xs (ys ++ zs) ∙ rw f refl))
  | inr f ↦ elim (Bool-cases (cut ys).1) [
    | inl g ↦
        rw (f, g)
          (ap (λ (b : Bool). ((cut xs).0 ++ (cut ys).0, b)) (sym g)
            ∙ sym (cut-append xs (ys ++ zs) ∙ rw (f, cut-append ys zs) (rw g refl)))
    | inr g ↦ rw (f, g) (sym (cut-append xs (ys ++ zs) ∙ rw (f, cut-append ys zs) (rw g refl)))
  ]
]

copy_entry-cut : (entry : ℕ) (mem : Memory) → copy_entry entry mem ≡ cut (entry_words entry mem)
unfolding copy_entry entry_words
copy_entry-cut entry mem =
    rw
      (
        copy_name-cut 5 (entry + 1) mem,
        copy_name-cut 6 (entry + 14) mem,
        copy_name-cut 2 (entry + 28) mem,
      )
      (cut_three (words 5 (entry + 1) mem) (words 6 (entry + 14) mem) (words 2 (entry + 28) mem))

-- The name that is read is what stands before the first word 0xffff.
long_name-cut :
    (n entry : ℕ) (mem : Memory) → long_name n entry mem ≡ (cut (name_words n entry mem)).0
unfolding long_name name_words
long_name-cut zero entry mem = sym cut_nil
long_name-cut (suc n) entry mem =
    rw (copy_entry-cut entry mem, long_name-cut n (entry - 32) mem)
      (sym (
        ap (λ (r : List ℕ × Bool). r.0)
          (cut-append (entry_words entry mem) (name_words n (entry - 32) mem))
        ∙ if_map (cut (entry_words entry mem)).1 (cut (entry_words entry mem)) _))

-- A character of a name that the program can tell.
abbrev pub IsNameChar : ℕ → Type 0
IsNameChar c = (0 < c) × (c < 256)

-- What fills the last entry behind a name.
pub data Padding : List ℕ → Type 0 where
  full : Padding []
  filled : (k : ℕ) → Padding (0 ∷ replicate k 65535)

cut-length : (ws : List ℕ) → length (cut ws).0 ≤ length ws
unfolding cut
cut-length [] = omega arith
cut-length (w ∷ ws) = elim (Bool-cases (w == 65535)) [
  | inl e ↦ rw e (omega arith)
  | inr n ↦ rw n (omega (arith, cut-length ws))
]

length-words : (n a : ℕ) (mem : Memory) → length (words n a mem) ≡ n
unfolding words
length-words zero a mem = refl
length-words (suc n) a mem = ap suc (length-words n (a + 2) mem)

length-name_words : (n entry : ℕ) (mem : Memory) → length (name_words n entry mem) ≡ 13 * n
unfolding name_words entry_words
length-name_words zero entry mem = omega arith
length-name_words (suc n) entry mem = omega (
  arith,
  length-append (words 5 (entry + 1) mem ++ (words 6 (entry + 14) mem ++ words 2 (entry + 28) mem))
      (name_words n (entry - 32) mem),
  length-append (words 5 (entry + 1) mem) (words 6 (entry + 14) mem ++ words 2 (entry + 28) mem),
  length-append (words 6 (entry + 14) mem) (words 2 (entry + 28) mem),
  length-words 5 (entry + 1) mem,
  length-words 6 (entry + 14) mem,
  length-words 2 (entry + 28) mem,
  length-name_words n (entry - 32) mem,
)

short_name-length : (n i entry : ℕ) (mem : Memory) → length (short_name n i entry mem) ≤ 2 * n
unfolding short_name
short_name-length zero i entry mem = omega arith
short_name-length (suc n) i entry mem =
    let ih = short_name-length n (i + 1) entry mem in
    elim (Bool-cases (mem (entry + i) == 32)) [
      | inl e ↦ rw e (omega (arith, ih))
      | inr ns ↦ rw ns (elim (Bool-cases (i == 8)) [
        | inl e ↦ rw e (omega (arith, ih))
        | inr k ↦ rw k (omega (arith, ih))
      ])
    ]

pub not_named : {name : List ℕ} {a : ℕ} → stop ≡ named name a → ⊥
not_named e = cc e

named_inj : {n1 n2 : List ℕ} {a1 a2 : ℕ} → named n1 a1 ≡ named n2 a2 → n1 ≡ n2
named_inj e = cc e

-- Every name that `Traverse_Dir` puts together, long or short, fits in its buffer of 256 characters
-- with the terminator.
pub next_name-length :
    (clus_end cur short : ℕ) (name : List ℕ) (mem : Memory)
    → next_name clus_end cur mem ≡ named name short
    → length name < 256
unfolding next_name
next_name-length clus_end cur short name mem e =
    elim (Bool-cases (attr mem cur == attr_long_name)) [
      | inl l ↦ elim (Bool-cases (ltb clus_end (cur + 32 * (mem cur % 16)))) [
        | inl f ↦ absurd (not_named (rw (l, f) at e))
        | inr f ↦
            (let x = named_inj (rw (l, f) at e) in
              omega (
                arith,
                ap length
                    (sym x ∙ long_name-cut (mem cur % 16) (cur + 32 * (mem cur % 16) - 32) mem),
                cut-length (name_words (mem cur % 16) (cur + 32 * (mem cur % 16) - 32) mem),
                length-name_words (mem cur % 16) (cur + 32 * (mem cur % 16) - 32) mem,
              ))
      ]
      | inr l ↦
          (let x = named_inj (rw l at e) in
            omega (arith, ap length x, short_name-length 11 0 cur mem))
    ]
