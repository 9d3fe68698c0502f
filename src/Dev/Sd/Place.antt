-- ===== src/Dev/Sd/Place.antt =====
-- Where the rounds of `sd_read` and `sd_write` of kernel/src/dev/dev_sd.c stand on the disk.
use native.Mathlib.Nat.{
  div-add-mod', mul-mod_left, mod-lt, add-mul-div_right, add-mul-mod_self_right, div-eq_of_lt,
  mod-eq_of_lt, mod-lt,
}
use mathlib.Core.Path.{ap₂, ap}
use oslab.Prelude.{ℕ, ◌+◌, ◌-◌, ◌*◌, ◌/◌, ◌%◌, ◌^◌, ◌≤◌, ◌<◌, ◌≡◌, arith, ltb, if◌then◌else◌, ◌∙◌}
use oslab.Dev.Sd.{Disk, chunk, sub32, rounddown}

-- The byte of the disk at an absolute position.
abbrev pub byte_at : Disk → ℕ → ℕ → ℕ
byte_at disk blksz a = disk (a / blksz) (a % blksz)

-- Where a round of a transfer stands: `offset` lies in the block at `st` and belongs to position `pos`.
pub record IsPlace (from blksz st offset pos : ℕ) : Type 0 where
  pub here : offset ≡ from + pos
  pub block : st % blksz ≡ 0
  pub start : st ≤ offset
  pub inside : offset < st + blksz

pub block_start : (blksz st : ℕ) → st % blksz ≡ 0 → st ≡ st / blksz * blksz
block_start blksz st al = omega (arith, div-add-mod' st blksz)

-- A byte in the block at `st`.
pub block_byte :
    (disk : Disk) (blksz st i : ℕ)
    → 0 < blksz
    → st % blksz ≡ 0
    → i < blksz
    → disk (st / blksz) i ≡ byte_at disk blksz (st + i)
block_byte disk blksz st i pos al lt =
    let e : st + i ≡ i + st / blksz * blksz = omega (arith, block_start blksz st al) in
    ap₂ disk
      (omega
        (arith, ap (λ (t : ℕ). t / blksz) e, add-mul-div_right i (st / blksz) pos, div-eq_of_lt lt))
      (omega (
        arith,
        ap (λ (t : ℕ). t % blksz) e,
        add-mul-mod_self_right i (st / blksz) blksz,
        mod-eq_of_lt lt,
      ))

pub sub32_lem : (a b : ℕ) → b ≤ a → a < 2 ^ 31 → sub32 a b ≡ a - b
sub32_lem a b le lt = omega arith

-- The bytes of a round: what is left of the block, or of the count.
chunk_lem :
    (blksz count st offset pos from : ℕ)
    → from + count + blksz < 2 ^ 31
    → pos < count
    → IsPlace from blksz st offset pos
    → chunk blksz offset st count pos
      ≡ (if ltb (count - pos) (st + blksz - offset) then count - pos else st + blksz - offset)
unfolding chunk
chunk_lem blksz count st offset pos from room more r =
    rw
      (
        sub32_lem offset st r.start (omega (arith, r.here)),
        sub32_lem blksz (offset - st) (omega (arith, r.start, r.inside)) (omega arith),
        sub32_lem count pos (omega arith) (omega arith),
      )
      (ground (arith, r.start, r.inside))

-- A round of `n` bytes at `pos`.
pub record IsChunk (blksz count st offset pos n : ℕ) : Type 0 where
  pub some_bytes : 0 < n
  pub fits : pos + n ≤ count
  pub in_block : offset + n ≤ st + blksz
  pub goes_on : pos + n < count → offset + n ≡ st + blksz

pub chunk-IsChunk :
    (blksz count st offset pos from : ℕ)
    → from + count + blksz < 2 ^ 31
    → pos < count
    → IsPlace from blksz st offset pos
    → IsChunk blksz count st offset pos (chunk blksz offset st count pos)
chunk-IsChunk blksz count st offset pos from room more r =
    rw (chunk_lem blksz count st offset pos from room more r) (record {
      some_bytes = ground (arith, r.start, r.inside);
      fits = ground (arith, r.start, r.inside);
      in_block = ground (arith, r.start, r.inside);
      goes_on = λ h. ground (arith, r.start, r.inside);
    })

-- The next round starts at the next block.
pub next-IsPlace :
    (from blksz count st offset pos n : ℕ)
    → 0 < blksz
    → IsPlace from blksz st offset pos
    → IsChunk blksz count st offset pos n
    → pos + n < count
    → IsPlace from blksz (st + blksz) (st + blksz) (pos + n)
next-IsPlace from blksz count st offset pos n positive r c more = record {
  here = omega (arith, r.here, c.goes_on more);
  block =
      ap (λ (t : ℕ). (st + t) % blksz) {y = 1 * blksz} (omega arith)
      ∙ add-mul-mod_self_right st 1 blksz
      ∙ r.block;
  start = omega arith;
  inside = omega arith;
}

-- The first round.
pub first-IsPlace : (from blksz : ℕ) → 0 < blksz → IsPlace from blksz (rounddown from blksz) from 0
first-IsPlace from blksz positive = record {
  here = omega arith;
  block = mul-mod_left (from / blksz) blksz;
  start = omega (arith, div-add-mod' from blksz);
  inside = omega (arith, div-add-mod' from blksz, mod-lt from positive);
}
