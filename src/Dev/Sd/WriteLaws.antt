-- ===== src/Dev/Sd/WriteLaws.antt =====
-- `sd_write` of kernel/src/dev/dev_sd.c writes the bytes of the disk from any offset on, and keeps the rest
-- of the blocks that it writes in part.
use native.Mathlib.Nat.{div-add-mod', mod-lt, pow-le-pow_right}
use mathlib.Core.Path.{ap}
use oslab.Prelude.{
  ℕ, suc, ◌+◌, ◌-◌, ◌*◌, ◌/◌, ◌%◌, ◌<◌, ◌≡◌, refl, arith, true, false, ltb, leb, Bool-cases, some,
  inl, inr, if◌then◌else◌, ◌&&◌, ℕ_discrete, ◌^◌, ltb→lt, ◌≤◌, returns, ◌∙◌, ltb_false→le, zero,
}
use oslab.Dev.Sd.{
  Disk, Sd, blk_read, blk_write, chunk, write_loop, sub32, add32, blit, sd_write, rounddown,
}
use oslab.Dev.Sd.Place.{
  byte_at, IsPlace, IsChunk, block_start, block_byte, sub32_lem, chunk-IsChunk, first-IsPlace,
  next-IsPlace,
}

-- The buffer of a round before it is written: the block's old bytes, unless all are replaced, and the
-- new ones.
abbrev filled : Disk → ℕ → ℕ → ℕ → ℕ → ℕ → Sd → (ℕ → ℕ) → Sd
filled disk blksz b o pos n sd src =
    let sd1 : Sd = if ltb n blksz then blk_read disk b sd else sd in
    record sd1 { buf = blit sd1.buf o src pos n }

filled-blksz :
    (disk : Disk) (blksz b o pos n : ℕ) (sd : Sd) (src : ℕ → ℕ)
    → (filled disk blksz b o pos n sd src).blksz ≡ sd.blksz
unfolding blk_read
filled-blksz disk blksz b o pos n sd src = ground arith

write_done :
    (src : ℕ → ℕ) (fuel count pos st offset : ℕ) (sd : Sd) (disk : Disk)
    → ltb pos count ≡ false
    → write_loop (suc fuel) src count pos st offset sd disk ≡ some (pos, sd, disk)
unfolding write_loop
write_done src fuel count pos st offset sd disk done = rw done refl

write_round :
    (src : ℕ → ℕ) (fuel count pos st offset n blksz : ℕ) (sd : Sd) (disk : Disk)
    → sd.blksz ≡ blksz
    → ltb pos count ≡ true
    → n ≡ chunk blksz offset st count pos
    → write_loop (suc fuel) src count pos st offset sd disk
      ≡ write_loop fuel src count
          (add32 pos n)
          (add32 st blksz)
          (add32 st blksz)
          (filled disk blksz (st / blksz) (sub32 offset st) pos n sd src)
          (blk_write disk
            (st / blksz)
            (filled disk blksz (st / blksz) (sub32 offset st) pos n sd src))
unfolding write_loop
write_round src fuel count pos st offset n blksz sd disk e more en = rw (more, e, en) refl

-- What a round leaves at an absolute position.
written_byte :
    (disk : Disk) (sd : Sd) (from blksz count st offset pos n a : ℕ) (src : ℕ → ℕ)
    → sd.blksz ≡ blksz
    → 0 < blksz
    → IsPlace from blksz st offset pos
    → IsChunk blksz count st offset pos n
    → byte_at
        (blk_write disk (st / blksz) (filled disk blksz (st / blksz) (offset - st) pos n sd src))
        blksz
        a
      ≡ (if leb (from + pos) a && ltb a (from + (pos + n))
          then src (a - from)
          else byte_at disk blksz a)
unfolding blk_write blk_read
written_byte disk sd from blksz count st offset pos n a src e positive r c =
    elim (ℕ_discrete (a / blksz) (st / blksz)) [
      | yes same ↦
          let at : a ≡ st + a % blksz = omega (
            arith,
            block_start blksz st r.block,
            div-add-mod' a blksz,
            ap (λ (t : ℕ). t * blksz) same,
          ) in
          let lt : a % blksz < blksz = mod-lt a positive in
          elim (Bool-cases (leb (from + pos) a && ltb a (from + (pos + n)))) [
            | inl inside ↦
                let arg : pos + (a % blksz - (offset - st)) ≡ a - from =
                  ground (arith, r.here, r.start) in
                rw inside (
                  ground (
                    arith,
                    ap src arg,
                    r.here,
                    r.start,
                    filled-blksz disk blksz (st / blksz) (offset - st) pos n sd src,
                  ))
            | inr outside ↦ rw outside (ground (arith, r.here, r.start, c.in_block))
          ]
      | no other ↦
          let out : (leb (from + pos) a && ltb a (from + (pos + n))) ≡ false = ground (
            arith,
            r.here,
            r.start,
            c.in_block,
            block_byte (λ b i. b) blksz st (a - st) positive r.block,
            ap (λ (t : ℕ). t / blksz) {x = st + (a - st)} {y = a},
          ) in
          rw out (ground arith)
    ]

-- A write of `count` bytes from `from` on that stands at `pos`.
record IsWrite (src : ℕ → ℕ) (from count pos a blksz fuel st offset : ℕ) (sd : Sd) (disk : Disk)
    : Type 0 where
  after : Sd
  result : Disk
  run : write_loop fuel src count pos st offset sd disk ≡ some (count, after, result)
  right : byte_at result blksz a ≡ (
      if leb (from + pos) a && ltb a (from + count) then src (a - from) else byte_at disk blksz a)

-- One round in front of a write.
IsWrite-round :
    (src : ℕ → ℕ) (from count a fuel pos st offset n blksz : ℕ) (sd : Sd) (disk : Disk)
    → sd.blksz ≡ blksz
    → 0 < blksz
    → from + count + blksz < 2 ^ 31
    → ltb pos count ≡ true
    → n ≡ chunk blksz offset st count pos
    → IsPlace from blksz st offset pos
    → IsChunk blksz count st offset pos n
    → IsWrite src from count
        (pos + n)
        a
        blksz
        fuel
        (st + blksz)
        (st + blksz)
        (filled disk blksz (st / blksz) (offset - st) pos n sd src)
        (blk_write disk (st / blksz) (filled disk blksz (st / blksz) (offset - st) pos n sd src))
    → IsWrite src from count pos a blksz (suc fuel) st offset sd disk
IsWrite-round src from count a fuel pos st offset n blksz sd disk e positive room more en r c rest =
    let e1 : add32 pos n ≡ pos + n = omega (arith, c.fits) in
    let e2 : add32 st blksz ≡ st + blksz = omega (arith, r.here, r.start, ltb→lt pos count more) in
    let e3 = sub32_lem offset st r.start (omega (arith, r.here, ltb→lt pos count more)) in
    record {
      after = rest.after;
      result = rest.result;
      run =
          write_round src fuel count pos st offset n blksz sd disk e more en
          ∙ rw (e1, e2, e3) rest.run;
      right =
          rest.right
          ∙ rw (written_byte disk sd from blksz count st offset pos n a src e positive r c)
              (ground (arith, c.fits));
    }

write_loop_lem :
    (src : ℕ → ℕ) (from count a blksz fuel pos st offset : ℕ) (sd : Sd) (disk : Disk)
    → sd.blksz ≡ blksz
    → 0 < blksz
    → from + count + blksz < 2 ^ 31
    → pos ≤ count
    → count < fuel + pos
    → (pos < count → IsPlace from blksz st offset pos)
    → IsWrite src from count pos a blksz fuel st offset sd disk
write_loop_lem src from count a blksz zero pos st offset sd disk e positive room le enough place =
    absurd (omega arith)
write_loop_lem src from count a blksz (suc fuel) pos st offset sd disk e positive room le enough
      place =
    elim (Bool-cases (ltb pos count)) [
      | inr done ↦ record {
        after = sd;
        result = disk;
        run =
            write_done src fuel count pos st offset sd disk done
            ∙ ap (λ (p : ℕ). some (p, sd, disk)) (omega (arith, ltb_false→le pos count done));
        right = ground arith;
      }
      | inl more ↦
          let r = place (ltb→lt pos count more) in
          let n : ℕ = chunk blksz offset st count pos in
          let c = chunk-IsChunk blksz count st offset pos from room (ltb→lt pos count more) r in
          let sd' : Sd = filled disk blksz (st / blksz) (offset - st) pos n sd src in
          IsWrite-round src from count a fuel pos st offset n blksz sd disk e positive room more
            refl r c
            (write_loop_lem src from count a blksz fuel (pos + n) (st + blksz) (st + blksz) sd'
              (blk_write disk (st / blksz) sd')
              (filled-blksz disk blksz (st / blksz) (offset - st) pos n sd src ∙ e) positive room
              c.fits (omega (arith, c.some_bytes))
              (λ h. next-IsPlace from blksz count st offset pos n positive r c h))
    ]

-- `sd_write` of `count` bytes from `offset` on, with a block size that is a power of two and the end
-- and a block more below 2^31, returns `count`; the byte of the disk at `a` is then the byte
-- `a - offset` of the buffer if `a` lies in the range, and as before if not.
pub sd_write_lem :
    (disk : Disk) (sd : Sd) (k offset count a : ℕ) (src : ℕ → ℕ)
    → sd.blksz ≡ 2 ^ k
    → offset + count + sd.blksz < 2 ^ 31
    → (sd' : Sd) × (disk' : Disk) × (sd_write disk (some sd) offset count src
        ≡ returns (count, sd', disk'))
      × (byte_at disk' sd.blksz a ≡ (
          if leb offset a && ltb a (offset + count)
          then src (a - offset)
          else byte_at disk sd.blksz a))
unfolding sd_write
sd_write_lem disk sd k offset count a src pow room =
    let positive : 0 < sd.blksz =
      omega (arith, pow, pow-le-pow_right {n = 2} (omega arith) {i = 0} {j = k} (omega arith)) in
    let i =
      write_loop_lem src offset count a sd.blksz (count + 1) 0 (rounddown offset sd.blksz) offset sd
        disk refl positive room (omega arith) (omega arith)
        (λ h. first-IsPlace offset sd.blksz positive) in
    (i.after, i.result, rw i.run refl, i.right ∙ ground arith)
