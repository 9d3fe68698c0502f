-- ===== src/Dev/Sd/Tests.antt =====
-- A read and a write of kernel/src/dev/dev_sd.c over the edge of a block of 512 bytes.
use oslab.Prelude.{ℕ, ◌≡◌, refl, arith, some, returns, ◌*◌, ◌+◌}
use oslab.Dev.Sd.{Disk, Sd, sd_read, sd_write}
use oslab.Dev.Sd.Place.{byte_at}
use oslab.Dev.Sd.WriteLaws.{sd_write_lem}
use oslab.Dev.Sd.ReadLaws.{sd_read_lem}

-- Byte `i` of block `b` is `1000 * b + i`.
abbrev disk : Disk
disk b i = 1000 * b + i

abbrev sd : Sd
sd = record { blkcnt = 8; blksz = 512; buf = λ i. 7 }

-- Position 20 of a read from 1010 on is the byte 6 of block 2.
sd_read_lem_example :
    (sd' : Sd) × (out' : ℕ → ℕ) × (sd_read disk (some sd) 1010 30 (λ j. 9)
      ≡ returns (30, sd', out'))
    × (out' 20 ≡ 2006)
sd_read_lem_example = sd_read_lem disk sd 9 1010 30 20 (λ j. 9) refl (omega arith)

-- A write over the same edge: the byte 6 of block 2 is byte 20 of the buffer.
sd_write_lem_example :
    (sd' : Sd) × (disk' : Disk) × (sd_write disk (some sd) 1010 30 (λ j. j)
      ≡ returns (30, sd', disk'))
    × (byte_at disk' 512 1030 ≡ 20)
sd_write_lem_example = sd_write_lem disk sd 9 1010 30 1030 (λ j. j) refl (omega arith)
