-- ===== src/Klib/Mem/Copy.antt =====
-- What the copying functions of abstract-machine/klib/src/string.c do, on blocks that do not
-- overlap and on blocks that do.
use native.Mathlib.Nat.{mod-add-mod, mod-eq_of_lt, mod-lt, mod_self, mod-le}
use oslab.Prelude.{
  ℕ, zero, suc, ◌+◌, ◌-◌, ◌%◌, ◌≤◌, ◌<◌, ◌≡◌, ◌≢◌, ◌⊎◌, inl, inr, refl, arith, update, ◌∙◌,
  update_ne, ap, sym, update_self, ℕ_discrete, returns, if◌then◌else◌, leb, ◌&&◌, ltb, Bool-cases,
  ◌^◌,
}
use oslab.Klib.Mem.{Memory, copy_up, copy_down, memcpy, memmove, memset}

-- The bytes that `copy_up` does not write.
copy_up-outside : (n d s a : ℕ) (mem : Memory) → (a < d) ⊎ (d + n ≤ a) → copy_up n d s mem a ≡ mem a
unfolding copy_up
copy_up-outside zero d s a mem out = refl
copy_up-outside (suc n) d s a mem out =
    copy_up-outside n (d + 1) (s + 1) a (update mem d (mem s)) (ground arith)
    ∙ update_ne mem d (mem s) a (ground arith)

pub copy_down-outside :
    (n d s a : ℕ) (mem : Memory) → (a < d) ⊎ (d + n ≤ a) → copy_down n d s mem a ≡ mem a
unfolding copy_down
copy_down-outside zero d s a mem out = refl
copy_down-outside (suc n) d s a mem out =
    copy_down-outside n d s a (update mem (d + n) (mem (s + n))) (ground arith)
    ∙ update_ne mem (d + n) (mem (s + n)) a (ground arith)

-- Copying upwards is right unless the destination starts inside the source behind its start.
copy_up-inside :
    (n d s j : ℕ) (mem : Memory)
    → j < n
    → (d ≤ s) ⊎ (s + n ≤ d)
    → copy_up n d s mem (d + j) ≡ mem (s + j)
unfolding copy_up
copy_up-inside zero d s j mem lt apart = absurd (omega arith)
copy_up-inside (suc n) d s zero mem lt apart =
    ap (copy_up n (d + 1) (s + 1) (update mem d (mem s))) {y = d} (omega arith)
    ∙ copy_up-outside n (d + 1) (s + 1) d (update mem d (mem s)) (inl (omega arith))
    ∙ update_self mem d (mem s)
    ∙ ap mem (omega arith)
copy_up-inside (suc n) d s (suc j) mem lt apart =
    ap (copy_up n (d + 1) (s + 1) (update mem d (mem s))) {y = d + 1 + j} (omega arith)
    ∙ copy_up-inside n (d + 1) (s + 1) j (update mem d (mem s)) (omega arith) (ground arith)
    ∙ update_ne mem d (mem s) (s + 1 + j) (ground arith)
    ∙ ap mem (omega arith)

suc-mod : (j k : ℕ) → suc j % k ≡ (j % k + 1) % k
suc-mod j k = ap (λ (t : ℕ). t % k) {y = j + 1} (omega arith) ∙ sym (mod-add-mod j k 1)

mod_step : (j k : ℕ) → 0 < k → j % k + 1 ≢ k → suc j % k ≡ j % k + 1
mod_step j k pos n =
    suc-mod j k ∙ mod-eq_of_lt {n = j % k + 1} {m = k} (omega (arith, mod-lt j pos))

mod_wrap : (j k : ℕ) → j % k + 1 ≡ k → suc j % k ≡ 0
mod_wrap j k e = suc-mod j k ∙ (ap (λ (t : ℕ). t % k) e ∙ mod_self k)

-- Copying upwards to `k` bytes behind the source repeats the first `k` bytes.
copy_up_smear :
    (n k s j : ℕ) (mem : Memory)
    → 0 < k
    → j < n
    → copy_up n (s + k) s mem (s + k + j) ≡ mem (s + j % k)
unfolding copy_up
copy_up_smear zero k s j mem pos lt = absurd (omega arith)
copy_up_smear (suc n) k s zero mem pos lt =
    ap (copy_up n (s + k + 1) (s + 1) (update mem (s + k) (mem s))) {y = s + k} (omega arith)
    ∙ copy_up-outside n (s + k + 1) (s + 1) (s + k) (update mem (s + k) (mem s)) (inl (omega arith))
    ∙ update_self mem (s + k) (mem s)
    ∙ ap mem (omega (arith, mod-eq_of_lt {n = 0} {m = k} pos))
copy_up_smear (suc n) k s (suc j) mem pos lt =
    ap (λ d. copy_up n d (s + 1) mem1 (s + k + suc j)) {y = s + 1 + k} (omega arith)
    ∙ ap (copy_up n (s + 1 + k) (s + 1) mem1) {y = s + 1 + k + j} (omega arith)
    ∙ copy_up_smear n k (s + 1) j mem1 pos (omega arith)
    ∙ elim (ℕ_discrete (j % k + 1) k) [
      | yes e ↦
          ap mem1 {y = s + k} (omega arith)
          ∙ update_self mem (s + k) (mem s)
          ∙ ap mem (omega (arith, mod_wrap j k e))
      | no e ↦
          update_ne mem (s + k) (mem s) (s + 1 + j % k) (λ q. e (omega arith))
          ∙ ap mem (omega (arith, mod_step j k pos e))
    ]
  where
    mem1 : Memory
    mem1 = update mem (s + k) (mem s)

-- Copying downwards to `k` bytes before the source repeats the last `k` bytes; `j` counts from the
-- last byte.
pub copy_down_smear :
    (n k d i j : ℕ) (mem : Memory)
    → 0 < k
    → i + j + 1 ≡ n
    → copy_down n d (d + k) mem (d + i) ≡ mem (d + k + (n - 1 - j % k))
unfolding copy_down
copy_down_smear zero k d i j mem pos e = absurd (omega arith)
copy_down_smear (suc n) k d i zero mem pos e =
    ap (copy_down n d (d + k) (update mem (d + n) (mem (d + k + n)))) {y = d + n} (omega arith)
    ∙ copy_down-outside n d (d + k) (d + n) (update mem (d + n) (mem (d + k + n)))
        (inr (omega arith))
    ∙ update_self mem (d + n) (mem (d + k + n))
    ∙ ap mem (omega (arith, mod-eq_of_lt {n = 0} {m = k} pos))
copy_down_smear (suc n) k d i (suc j) mem pos e =
    copy_down_smear n k d i j mem1 pos (omega arith) ∙ elim (ℕ_discrete (j % k + 1) k) [
      | yes w ↦
          ap mem1 {y = d + n} (omega (arith, small))
          ∙ update_self mem (d + n) (mem (d + k + n))
          ∙ ap mem (omega (arith, mod_wrap j k w))
      | no w ↦
          update_ne mem (d + n) (mem (d + k + n)) (d + k + (n - 1 - j % k))
            (λ q. w (omega (arith, small, mod-lt j pos)))
          ∙ ap mem (omega (arith, mod_step j k pos w, small))
    ]
  where
    mem1 : Memory
    mem1 = update mem (d + n) (mem (d + k + n))

    small : j % k ≤ j
    small = mod-le j k

-- `memcpy` copies `n` bytes and writes nothing else, unless the destination starts inside the
-- source behind its start.
pub memcpy_lem :
    (out from n a : ℕ) (mem : Memory)
    → (out ≤ from) ⊎ (from + n ≤ out)
    → memcpy out from n mem a
      ≡ (if leb out a && ltb a (out + n) then mem (from + (a - out)) else mem a)
unfolding memcpy
memcpy_lem out from n a mem apart = elim (Bool-cases (leb out a && ltb a (out + n))) [
  | inl inside ↦ rw inside (
      ap (copy_up n out from mem) {y = out + (a - out)} (ground arith)
      ∙ copy_up-inside n out from (a - out) mem (ground arith) apart)
  | inr outside ↦ rw outside (copy_up-outside n out from a mem (ground arith))
]

memmove_up :
    (dst src n : ℕ) (mem : Memory)
    → 0 < src
    → src < dst
    → memmove dst src n mem ≡ returns (copy_up n dst src mem)
unfolding memmove
memmove_up dst src n mem pos lt = ground arith

pub memmove_down :
    (dst src n : ℕ) (mem : Memory)
    → 0 < dst
    → dst < src
    → memmove dst src n mem ≡ returns (copy_down n dst src mem)
unfolding memmove
memmove_down dst src n mem pos lt = ground arith

-- `memmove` to a place `k` bytes behind the source copies upwards: byte `j` of the destination gets
-- byte `j % k` of the source, the right one only for `j < k`, that is, if the blocks are apart.
pub memmove_behind :
    (src k n j : ℕ) (mem : Memory)
    → 0 < src
    → 0 < k
    → j < n
    → (mem' : Memory) × (memmove (src + k) src n mem ≡ returns mem')
      × (mem' (src + k + j) ≡ mem (src + j % k))
memmove_behind src k n j mem null pos lt = (
  copy_up n (src + k) src mem,
  memmove_up (src + k) src n mem null (omega arith),
  copy_up_smear n k src j mem pos lt,
)

-- `memmove` to a place `k` bytes before the source copies downwards: the byte that is `j` before the
-- last of the destination gets the byte that is `j % k` before the last of the source.
pub memmove_before :
    (dst k n j : ℕ) (mem : Memory)
    → 0 < dst
    → 0 < k
    → j < n
    → (mem' : Memory) × (memmove dst (dst + k) n mem ≡ returns mem')
      × (mem' (dst + (n - 1 - j)) ≡ mem (dst + k + (n - 1 - j % k)))
memmove_before dst k n j mem null pos lt = (
  copy_down n dst (dst + k) mem,
  memmove_down dst (dst + k) n mem null (omega arith),
  copy_down_smear n k dst (n - 1 - j) j mem pos (omega arith),
)

copy_down-inside :
    (n d s j : ℕ) (mem : Memory) → j < n → d + n ≤ s → copy_down n d s mem (d + j) ≡ mem (s + j)
copy_down-inside n d s j mem lt before =
    ap (λ t. copy_down n d t mem (d + j)) {y = d + (s - d)} (omega arith)
    ∙ copy_down_smear n (s - d) d j (n - 1 - j) mem (omega arith) (omega arith)
    ∙ ap mem (omega (arith, mod-eq_of_lt {n = n - 1 - j} {m = s - d} (omega arith)))

-- Between blocks that do not overlap `memmove` copies the bytes and writes nothing else.
pub memmove_lem :
    (dst src n a : ℕ) (mem : Memory)
    → 0 < dst
    → 0 < src
    → 0 < n
    → (dst + n ≤ src) ⊎ (src + n ≤ dst)
    → (mem' : Memory) × (memmove dst src n mem ≡ returns mem')
      × (mem' a ≡ (if leb dst a && ltb a (dst + n) then mem (src + (a - dst)) else mem a))
unfolding memcpy
memmove_lem dst src n a mem dn sn pos (inr behind) = (
  copy_up n dst src mem,
  memmove_up dst src n mem sn (omega arith),
  memcpy_lem dst src n a mem (inr behind),
)
memmove_lem dst src n a mem dn sn pos (inl before) = (
  copy_down n dst src mem,
  memmove_down dst src n mem dn (omega arith),
  elim (Bool-cases (leb dst a && ltb a (dst + n))) [
    | inl inside ↦ rw inside (
        ap (copy_down n dst src mem) {y = dst + (a - dst)} (ground arith)
        ∙ copy_down-inside n dst src (a - dst) mem (ground arith) before)
    | inr outside ↦ rw outside (copy_down-outside n dst src a mem (ground arith))
  ],
)

-- `memset` stores the low byte of `c` in each of the `n` bytes and writes nothing else.
pub memset_lem :
    (s c n a : ℕ) (mem : Memory)
    → memset s c n mem a ≡ (if leb s a && ltb a (s + n) then c % 2 ^ 8 else mem a)
unfolding memset
memset_lem s c zero a mem = ground arith
memset_lem s c (suc n) a mem = memset_lem (s + 1) c n a (update mem s (c % 2 ^ 8)) ∙ ground arith
