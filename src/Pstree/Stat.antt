-- ===== src/Pstree/Stat.antt =====
-- The file `stat` of a process, as the kernel writes it, and what `init` of pstree/pstree.c reads of it.
use oslab.Prelude.{
  length, ◌^◌, ℕ, ◌+◌, ◌-◌, ◌*◌, ◌≤◌, ◌≡◌, ◌≢◌, refl, sym, ap, ◌∙◌, arith, Bool, true, false, ◌==◌,
  ==_false, List, [], ◌∷◌, ◌++◌, All, append_snoc, ◌<◌,
}
use mathlib.Core.List.{append-nil}
use oslab.Pstree.{Scan, scan_start, scan_char, read_stat, is_digit}

-- A character before or in the name.
pub record IsPlain (c : ℕ) : Type 0 where
  pub no_open : c ≢ 40
  pub no_close : c ≢ 41
  pub no_eof : c ≢ 255

abbrev pub IsDigit : ℕ → Type 0
IsDigit c = (48 ≤ c) × (c ≤ 57)

-- A character between the name and the number of the parent.
pub record IsMiddle (c : ℕ) : Type 0 where
  pub no_digit : is_digit c ≡ false
  pub no_eof : c ≢ 255

-- The number that the digits continue.
unfoldable pub number : ℕ → List ℕ → ℕ
number n [] = n
number n (c ∷ cs) = number (n * 10 + (c - 48)) cs

abbrev in_name : List ℕ → Scan
in_name xs = record { name = xs; f = true; st = true; end = false; ppid = 0 }

abbrev behind : List ℕ → Bool → ℕ → Scan
behind xs end n = record { name = xs; f = false; st = false; end = end; ppid = n }

read_front :
    (xs rest : List ℕ)
    → All IsPlain xs
    → read_stat (xs ++ rest) scan_start ≡ read_stat rest scan_start
unfolding read_stat scan_char
read_front [] rest h = refl
read_front (c ∷ xs) rest h =
    rw (==_false c 255 h.0.no_eof)
      (rw (==_false c 40 h.0.no_open) (rw (==_false c 41 h.0.no_close) (read_front xs rest h.1)))

read_name :
    (ys xs rest : List ℕ)
    → All IsPlain xs
    → read_stat (xs ++ rest) (in_name ys) ≡ read_stat rest (in_name (ys ++ xs))
unfolding read_stat scan_char
read_name ys [] rest h = ap (λ l. read_stat rest (in_name l)) (sym (append-nil ys))
read_name ys (c ∷ xs) rest h = rw (==_false c 255 h.0.no_eof) (
    rw (==_false c 40 h.0.no_open) (
      rw (==_false c 41 h.0.no_close) (
        read_name (ys ++ (c ∷ [])) xs rest h.1
        ∙ ap (λ l. read_stat rest (in_name l)) (append_snoc ys c xs))))

read_middle :
    (nm xs rest : List ℕ)
    → All IsMiddle xs
    → read_stat (xs ++ rest) (behind nm false 0) ≡ read_stat rest (behind nm false 0)
unfolding read_stat scan_char
read_middle nm [] rest h = refl
read_middle nm (c ∷ xs) rest h =
    rw (==_false c 255 h.0.no_eof) (rw h.0.no_digit (read_middle nm xs rest h.1))

read_digits :
    (nm ds rest : List ℕ) (n : ℕ)
    → All IsDigit ds
    → read_stat (ds ++ (32 ∷ rest)) (behind nm true n) ≡ behind nm true (number n ds)
unfolding read_stat scan_char number
read_digits nm [] rest n h = refl
read_digits nm (d ∷ ds) rest n h =
    let eof : (d == 255) ≡ false = ground (arith, h.0) in
    let digit : is_digit d ≡ true = ground (arith, h.0) in
    rw eof (rw digit (read_digits nm ds rest (n * 10 + (d - 48)) h.1))

-- The file is a number and the name in parentheses, the state, the number of the parent behind the next digit, and
-- more; if the name has no parentheses, the loop reads the name and the number of the parent.
pub read_stat_lem :
    (front name middle digits rest : List ℕ) (d : ℕ)
    → All IsPlain front
    → All IsPlain name
    → All IsMiddle middle
    → All IsDigit (d ∷ digits)
    → read_stat
        (front ++ (40 ∷ (name ++ (41 ∷ (middle ++ ((d ∷ digits) ++ (32 ∷ rest)))))))
        scan_start
      ≡ record { name = name; f = false; st = false; end = true; ppid = number 0 (d ∷ digits) }
unfolding read_stat scan_char number
read_stat_lem front name middle digits rest d hf hn hm hd =
    let eof : (d == 255) ≡ false = ground (arith, hd.0) in
    let digit : is_digit d ≡ true = ground (arith, hd.0) in
    read_front front (40 ∷ (name ++ (41 ∷ (middle ++ ((d ∷ digits) ++ (32 ∷ rest)))))) hf
    ∙ read_name [] name (41 ∷ (middle ++ ((d ∷ digits) ++ (32 ∷ rest)))) hn
    ∙ read_middle name middle ((d ∷ digits) ++ (32 ∷ rest)) hm
    ∙ rw eof (rw digit (read_digits name digits rest (0 * 10 + (d - 48)) hd.1))

-- The parts of such a file.
pub record StatFile : Type 0 where
  pub front : List ℕ
  pub name : List ℕ
  pub middle : List ℕ
  pub first : ℕ
  pub digits : List ℕ
  pub rest : List ℕ

abbrev pub stat_text : StatFile → List ℕ
stat_text f =
    f.front ++ (40 ∷ (f.name ++ (41 ∷ (f.middle ++ ((f.first ∷ f.digits) ++ (32 ∷ f.rest))))))

abbrev pub parent_number : StatFile → ℕ
parent_number f = number 0 (f.first ∷ f.digits)

-- They are as the kernel writes them, and the name and the number of the parent fit.
pub record IsStatFile (f : StatFile) : Type 0 where
  pub front_plain : All IsPlain f.front
  pub name_plain : All IsPlain f.name
  pub middle_plain : All IsMiddle f.middle
  pub are_digits : All IsDigit (f.first ∷ f.digits)
  pub name_fits : length f.name < 30
  pub parent_fits : parent_number f < 2 ^ 31

pub stat_text_lem :
    (f : StatFile)
    → IsStatFile f
    → read_stat (stat_text f) scan_start
      ≡ record { name = f.name; f = false; st = false; end = true; ppid = parent_number f }
stat_text_lem f v =
    read_stat_lem f.front f.name f.middle f.digits f.rest f.first v.front_plain v.name_plain
      v.middle_plain v.are_digits
