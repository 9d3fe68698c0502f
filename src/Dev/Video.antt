-- ===== src/Dev/Video.antt =====
-- kernel/src/dev/dev_video.c with `fb_t`, `struct display_info` and the bounds of
-- kernel/include/devices.h: the display device, whose textures stand in the memory. A texture is 64
-- pixels of four bytes, the low byte first. The font is a table of 16 bytes for each character.
pub mod Font
use oslab.Prelude.{
  ℕ, zero, suc, ◌+◌, ◌-◌, ◌*◌, ◌/◌, ◌%◌, ◌^◌, Bool, true, false, ltb, ◌&&◌, ◌==◌, if◌then◌else◌,
  update, Outcome, returns, ◌>>=◌, List, [], ◌∷◌, ◌++◌,
}
use oslab.Klib.Mem.{Memory}
use oslab.Kmt.{Sem, sem_init, sem_wait, sem_signal}
use oslab.Dev.Tty.{Sprite}

-- `struct display_info`
pub record DisplayInfo : Type 0 where
  pub width : ℕ
  pub height : ℕ
  pub num_displays : ℕ
  pub current : ℕ
  pub num_textures : ℕ
  pub num_sprites : ℕ

-- `fb_t` and `fb_sem`: `textures` is an address; the buffer `sprites` is never used.
pub record Fb : Type 0 where
  pub sem : Sem
  pub info : DisplayInfo
  pub textures : ℕ
  pub mem : Memory

-- A store and a load of a `uint32_t`.
unfoldable pub put_word : ℕ → ℕ → Memory → Memory
put_word a v mem =
    update
      (update (update (update mem a (v % 256)) (a + 1) (v / 256 % 256)) (a + 2) (v / 65536 % 256))
      (a + 3) (v / 16777216 % 256)

unfoldable pub get_word : Memory → ℕ → ℕ
get_word mem a = mem a + 256 * mem (a + 1) + 65536 * mem (a + 2) + 16777216 * mem (a + 3)

-- `((bitmask >> (7 - x)) & 1) ? fg : bg`
unfoldable pub pixel_color : ℕ → ℕ → ℕ → ℕ → ℕ
pixel_color bitmask x fg bg = if bitmask / 2 ^ (7 - x) % 2 == 1 then fg else bg

-- The loops of `texture_fill` over the columns from `x` on and over the lines from `y` on.
unfoldable pub fill_line : ℕ → ℕ → ℕ → ℕ → ℕ → ℕ → Memory → Memory
fill_line zero x bitmask fg bg px mem = mem
fill_line (suc n) x bitmask fg bg px mem =
    fill_line n (x + 1) bitmask fg bg (px + 4) (put_word px (pixel_color bitmask x fg bg) mem)

unfoldable pub fill_lines : ℕ → ℕ → Bool → (ℕ → ℕ) → ℕ → ℕ → ℕ → ℕ → Memory → Memory
fill_lines zero y top font bits fg bg px mem = mem
fill_lines (suc n) y top font bits fg bg px mem =
    fill_lines n (y + 1) top font bits fg bg (px + 32)
      (fill_line 8 0 (font (if top then bits + (y + 8) else bits + y)) fg bg px mem)

-- `bits` is an index of the font.
unfoldable pub texture_fill : ℕ → Bool → (ℕ → ℕ) → ℕ → ℕ → ℕ → Memory → Memory
texture_fill tx top font bits fg bg mem = fill_lines 8 0 top font bits fg bg tx mem

-- 0xeeeeee
abbrev pub white : ℕ
white = 15658734

-- The loop over the characters from `ch` on.
unfoldable pub load_chars : ℕ → ℕ → ℕ → (ℕ → ℕ) → Memory → Memory
load_chars zero ch textures font mem = mem
load_chars (suc n) ch textures font mem = load_chars n (ch + 1) textures font (
    texture_fill (textures + 256 * (ch * 2 + 2)) true font (16 * ch) white 0
      (texture_fill (textures + 256 * (ch * 2 + 1)) false font (16 * ch) white 0 mem))

unfoldable pub font_load : ℕ → (ℕ → ℕ) → Memory → Memory
font_load textures font mem = load_chars 256 0 textures font mem

-- `width` and `height` are of the machine's display, and `textures` is what `pmm->alloc` returned.
unfoldable pub fb_init : ℕ → ℕ → ℕ → (ℕ → ℕ) → Memory → Fb
fb_init width height textures font mem = record {
  sem = sem_init 1;
  info = record {
    width = width;
    height = height;
    num_displays = 8;
    current = 0;
    num_textures = 16384;
    num_sprites = 16384;
  };
  textures = textures;
  mem = font_load textures font mem;
}

-- What `fb_read` stores in its buffer; it returns 0 always. The information has 24 bytes.
unfoldable pub fb_read : ℕ → ℕ → Fb → List DisplayInfo
fb_read offset count fb = if (offset == 0) && (count == 24) then fb.info ∷ [] else []

-- The buffer of `fb_write` as each of its branches reads it: the field `current` of an information,
-- the bytes, the sprites.
pub record Buffer : Type 0 where
  pub shown : ℕ
  pub bytes : List ℕ
  pub sprites : List Sprite

-- One `io_write(AM_GPU_FBDRAW, ...)` of 8 by 8 pixels.
pub record Draw : Type 0 where
  pub x : ℕ
  pub y : ℕ
  pub pixels : ℕ → ℕ

-- The pixels of a texture.
unfoldable pub pixels_of : Fb → ℕ → ℕ → ℕ
pixels_of fb texture i = get_word fb.mem (fb.textures + 256 * texture + 4 * i)

unfoldable pub draw_sprites : Fb → List Sprite → List Draw
draw_sprites fb [] = []
draw_sprites fb (sp ∷ sps) =
    let rest = draw_sprites fb sps in
    if ltb 0 sp.texture && (sp.display == fb.info.current)
    then record { x = sp.x; y = sp.y; pixels = pixels_of fb sp.texture } ∷ rest
    else rest

unfoldable pub store_bytes : List ℕ → ℕ → Memory → Memory
store_bytes [] a mem = mem
store_bytes (b ∷ bs) a mem = store_bytes bs (a + 1) (update mem a b)

-- `SPRITE_BRK`
abbrev pub sprite_brk : ℕ
sprite_brk = 16777216

-- The branches on `offset`.
unfoldable pub fb_store : ℕ → Buffer → Fb → List Draw × Fb
fb_store offset buf fb =
    if offset == 0
    then ([], record fb { info = record fb.info { current = buf.shown } })
    else if ltb offset sprite_brk
    then ([], record fb { mem = store_bytes buf.bytes (fb.textures + offset) fb.mem })
    else (draw_sprites fb buf.sprites, fb)

unfoldable pub fb_write : ℕ → Buffer → Fb → Outcome (List Draw × Fb)
fb_write offset buf fb = do
  held ← sem_wait fb.sem
  let stored : List Draw × Fb = fb_store offset buf fb
  sem ← sem_signal held
  returns (stored.0, record stored.1 { sem = sem })
