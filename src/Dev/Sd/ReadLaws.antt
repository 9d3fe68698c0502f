-- ===== src/Dev/Sd/ReadLaws.antt =====
-- `sd_read` of kernel/src/dev/dev_sd.c reads the bytes of the disk from any offset on.

use mathlib.Core.Path.{ap}
use native.Mathlib.Nat.{pow-le-pow_right}
use oslab.Prelude.{
  ℕ, ◌+◌, ◌-◌, ◌/◌, ◌^◌, ◌≤◌, ◌<◌, ◌≡◌, arith, ltb, if◌then◌else◌, leb, ◌&&◌, Bool-cases, inl,
  lt→ltb, ◌∙◌, inr, refl, some, suc, ltb→lt, zero, false, true, ltb_false→le, returns,
}
use oslab.Dev.Sd.{Disk, chunk, sub32, blk_read, Sd, blit, read_loop, add32, rounddown, sd_read}
use oslab.Dev.Sd.Place.{
  byte_at, IsPlace, IsChunk, block_byte, sub32_lem, chunk-IsChunk, next-IsPlace, first-IsPlace,
}

-- What a round stores at position `j`.
round_byte :
    (disk : Disk) (sd : Sd) (from count st offset pos n j : ℕ) (out : ℕ → ℕ)
    → 0 < sd.blksz
    → IsPlace from sd.blksz st offset pos
    → IsChunk sd.blksz count st offset pos n
    → blit out pos (blk_read disk (st / sd.blksz) sd).buf (offset - st) n j
      ≡ (if leb pos j && ltb j (pos + n) then byte_at disk sd.blksz (from + j) else out j)
unfolding blk_read
round_byte disk sd from count st offset pos n j out positive r c =
    elim (Bool-cases (leb pos j && ltb j (pos + n))) [
      | inl inside ↦
          let i : ℕ = offset - st + (j - pos) in
          let lt : i < sd.blksz = ground (arith, c.in_block, r.start) in
          rw (inside, lt→ltb i sd.blksz lt)
            (block_byte disk sd.blksz st i positive r.block lt
              ∙ ap (byte_at disk sd.blksz) (ground (arith, r.here, r.start)))
      | inr outside ↦ rw outside refl
    ]

-- A read of `count` bytes from `from` on that stands at `pos`.
record IsRead (disk : Disk) (from count pos j blksz fuel st offset : ℕ) (sd : Sd) (out : ℕ → ℕ)
    : Type 0 where
  after : Sd
  bytes : ℕ → ℕ
  run : read_loop disk fuel count pos st offset sd out ≡ some (count, after, bytes)
  right : bytes j ≡ (if leb pos j && ltb j count then byte_at disk blksz (from + j) else out j)

-- The two branches of the loop's test.
read_done :
    (disk : Disk) (fuel count pos st offset : ℕ) (sd : Sd) (out : ℕ → ℕ)
    → ltb pos count ≡ false
    → read_loop disk (suc fuel) count pos st offset sd out ≡ some (pos, sd, out)
unfolding read_loop
read_done disk fuel count pos st offset sd out done = rw done refl

read_round :
    (disk : Disk) (fuel count pos st offset n : ℕ) (sd : Sd) (out : ℕ → ℕ)
    → ltb pos count ≡ true
    → n ≡ chunk sd.blksz offset st count pos
    → read_loop disk (suc fuel) count pos st offset sd out
      ≡ read_loop disk fuel count
          (add32 pos n)
          (add32 st sd.blksz)
          (add32 st sd.blksz)
          (blk_read disk (st / sd.blksz) sd)
          (blit out pos (blk_read disk (st / sd.blksz) sd).buf (sub32 offset st) n)
unfolding read_loop blk_read
read_round disk fuel count pos st offset n sd out more e = rw (more, e) refl

-- One round in front of a read.
IsRead-round :
    (disk : Disk) (from count j fuel pos st offset n : ℕ) (sd : Sd) (out : ℕ → ℕ)
    → 0 < sd.blksz
    → from + count + sd.blksz < 2 ^ 31
    → ltb pos count ≡ true
    → n ≡ chunk sd.blksz offset st count pos
    → IsPlace from sd.blksz st offset pos
    → IsChunk sd.blksz count st offset pos n
    → IsRead disk from count
        (pos + n)
        j
        sd.blksz
        fuel
        (st + sd.blksz)
        (st + sd.blksz)
        (blk_read disk (st / sd.blksz) sd)
        (blit out pos (blk_read disk (st / sd.blksz) sd).buf (offset - st) n)
    → IsRead disk from count pos j sd.blksz (suc fuel) st offset sd out
IsRead-round disk from count j fuel pos st offset n sd out positive room more e r c rest =
    let e1 : add32 pos n ≡ pos + n = omega (arith, c.fits) in
    let e2 : add32 st sd.blksz ≡ st + sd.blksz =
      omega (arith, r.here, r.start, ltb→lt pos count more) in
    let e3 = sub32_lem offset st r.start (omega (arith, r.here, ltb→lt pos count more)) in
    record {
      after = rest.after;
      bytes = rest.bytes;
      run = read_round disk fuel count pos st offset n sd out more e ∙ rw (e1, e2, e3) rest.run;
      right =
          rest.right
          ∙ rw (round_byte disk sd from count st offset pos n j out positive r c)
              (ground (arith, c.fits));
    }

read_loop_lem :
    (disk : Disk) (from count j fuel pos st offset : ℕ) (sd : Sd) (out : ℕ → ℕ)
    → 0 < sd.blksz
    → from + count + sd.blksz < 2 ^ 31
    → pos ≤ count
    → count < fuel + pos
    → (pos < count → IsPlace from sd.blksz st offset pos)
    → IsRead disk from count pos j sd.blksz fuel st offset sd out
unfolding blk_read
read_loop_lem disk from count j zero pos st offset sd out positive room le enough place =
    absurd (omega arith)
read_loop_lem disk from count j (suc fuel) pos st offset sd out positive room le enough place =
    elim (Bool-cases (ltb pos count)) [
      | inr done ↦ record {
        after = sd;
        bytes = out;
        run =
            read_done disk fuel count pos st offset sd out done
            ∙ ap (λ (p : ℕ). some (p, sd, out)) (omega (arith, ltb_false→le pos count done));
        right = ground arith;
      }
      | inl more ↦
          let lt = ltb→lt pos count more in
          let r = place lt in
          let n : ℕ = chunk sd.blksz offset st count pos in
          let c = chunk-IsChunk sd.blksz count st offset pos from room lt r in
          IsRead-round disk from count j fuel pos st offset n sd out positive room more refl r c (
            read_loop_lem disk from count j fuel (pos + n) (st + sd.blksz) (st + sd.blksz)
              (blk_read disk (st / sd.blksz) sd)
              (blit out pos (blk_read disk (st / sd.blksz) sd).buf (offset - st) n) positive room
              c.fits (omega (arith, c.some_bytes))
              (λ h. next-IsPlace from sd.blksz count st offset pos n positive r c h))
    ]

-- `sd_read` of `count` bytes from `offset` on, with a block size that is a power of two and the end
-- and a block more below 2^31, returns `count`; byte `j` of the buffer is then the byte of the disk at `offset + j` for `j < count`, and
-- as before for the others.
pub sd_read_lem :
    (disk : Disk) (sd : Sd) (k offset count j : ℕ) (out : ℕ → ℕ)
    → sd.blksz ≡ 2 ^ k
    → offset + count + sd.blksz < 2 ^ 31
    → (sd' : Sd) × (out' : ℕ → ℕ) × (sd_read disk (some sd) offset count out
        ≡ returns (count, sd', out'))
      × (out' j ≡ (if ltb j count then byte_at disk sd.blksz (offset + j) else out j))
unfolding sd_read
sd_read_lem disk sd k offset count j out pow room =
    let positive : 0 < sd.blksz =
      omega (arith, pow, pow-le-pow_right {n = 2} (omega arith) {i = 0} {j = k} (omega arith)) in
    let i =
      read_loop_lem disk offset count j (count + 1) 0 (rounddown offset sd.blksz) offset sd out
        positive room (omega arith) (omega arith) (λ h. first-IsPlace offset sd.blksz positive) in
    (i.after, i.bytes, rw i.run refl, i.right ∙ ground arith)
