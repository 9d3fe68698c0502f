-- ===== src/Dev/Sd.antt =====
-- kernel/src/dev/dev_sd.c with `sd_t` of kernel/include/devices.h: reading and writing any range of
-- bytes of a disk that transfers whole blocks. The disk is AM's device, a function from the number of
-- a block and the place in it to a byte: `blk_read` and `blk_write` wait until a transfer is done.
pub mod Place
pub mod ReadLaws
pub mod WriteLaws
mod Tests
use oslab.Prelude.{
  ℕ, zero, suc, ◌+◌, ◌-◌, ◌*◌, ◌/◌, ◌%◌, ◌^◌, ◌&&◌, ltb, leb, ◌==◌, if◌then◌else◌, Option, none,
  some, Outcome, panics, or_fuel, Bool,
}

abbrev pub Disk : Type 0
Disk = ℕ → ℕ → ℕ

-- `sd_t`
pub record Sd : Type 0 where
  pub blkcnt : ℕ
  pub blksz : ℕ
  pub buf : ℕ → ℕ

-- `sd_init` with the fields of AM's disk configuration, and the block that `pmm->alloc` returned.
unfoldable pub sd_init : Bool → ℕ → ℕ → (ℕ → ℕ) → Option Sd
sd_init present blkcnt blksz buf =
    if present then some (record { blkcnt = blkcnt; blksz = blksz; buf = buf }) else none

-- `uint32_t` subtraction and addition
abbrev pub sub32 : ℕ → ℕ → ℕ
sub32 a b = (a + 2 ^ 32 - b) % 2 ^ 32

abbrev pub add32 : ℕ → ℕ → ℕ
add32 a b = (a + b) % 2 ^ 32

-- `ROUNDDOWN(a, sz)` for a power of two
abbrev pub rounddown : ℕ → ℕ → ℕ
rounddown a sz = a / sz * sz

-- `memcpy` between two buffers that are apart: `n` bytes from `src + from` to `dst + to`.
abbrev pub blit : (ℕ → ℕ) → ℕ → (ℕ → ℕ) → ℕ → ℕ → ℕ → ℕ
blit dst to src from n j = if leb to j && ltb j (to + n) then src (from + (j - to)) else dst j

-- One block goes into `sd->buf`, or comes from it.
unfoldable pub blk_read : Disk → ℕ → Sd → Sd
blk_read disk blkno sd = record sd { buf = λ i. if ltb i sd.blksz then disk blkno i else sd.buf i }

unfoldable pub blk_write : Disk → ℕ → Sd → Disk
blk_write disk blkno sd b =
    if b == blkno then (λ i. if ltb i sd.blksz then sd.buf i else disk b i) else disk b

-- How many bytes of the block at `st` a round moves: `blksz - (offset - st)`, but not more than are
-- left.
unfoldable pub chunk : ℕ → ℕ → ℕ → ℕ → ℕ → ℕ
chunk blksz offset st count pos =
    let n = sub32 blksz (sub32 offset st) in if ltb (sub32 count pos) n then sub32 count pos else n

unfoldable pub read_loop : Disk → ℕ → ℕ → ℕ → ℕ → ℕ → Sd → (ℕ → ℕ) → Option (ℕ × Sd × (ℕ → ℕ))
read_loop disk zero count pos st offset sd out = none
read_loop disk (suc fuel) count pos st offset sd out =
    let n = chunk sd.blksz offset st count pos in
    let sd' = blk_read disk (st / sd.blksz) sd in
    let next = add32 st sd.blksz in
    let rest =
      read_loop disk fuel count (add32 pos n) next next sd'
        (blit out pos sd'.buf (sub32 offset st) n) in
    if ltb pos count then rest else some (pos, sd, out)

-- The fuel: each round moves one byte at least. Without a disk `dev->ptr` is null.
unfoldable pub sd_read : Disk → Option Sd → ℕ → ℕ → (ℕ → ℕ) → Outcome (ℕ × Sd × (ℕ → ℕ))
sd_read disk none offset count out = panics
sd_read disk (some sd) offset count out =
    or_fuel (read_loop disk (count + 1) count 0 (rounddown offset sd.blksz) offset sd out)

unfoldable pub write_loop : ℕ → (ℕ → ℕ) → ℕ → ℕ → ℕ → ℕ → Sd → Disk → Option (ℕ × Sd × Disk)
write_loop zero from count pos st offset sd disk = none
write_loop (suc fuel) from count pos st offset sd disk =
    let n = chunk sd.blksz offset st count pos in
    let sd1 : Sd = if ltb n sd.blksz then blk_read disk (st / sd.blksz) sd else sd in
    let sd2 : Sd = record sd1 { buf = blit sd1.buf (sub32 offset st) from pos n } in
    let next = add32 st sd.blksz in
    let rest =
      write_loop fuel from count (add32 pos n) next next sd2 (blk_write disk (st / sd.blksz) sd2) in
    if ltb pos count then rest else some (pos, sd, disk)

unfoldable pub sd_write : Disk → Option Sd → ℕ → ℕ → (ℕ → ℕ) → Outcome (ℕ × Sd × Disk)
sd_write disk none offset count from = panics
sd_write disk (some sd) offset count from =
    or_fuel (write_loop (count + 1) from count 0 (rounddown offset sd.blksz) offset sd disk)
