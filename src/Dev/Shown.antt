-- ===== src/Dev/Shown.antt =====
-- From the terminal to the display: `tty_render` of kernel/src/dev/dev_tty.c writes its sprites with
-- `fb_write` of kernel/src/dev/dev_video.c.
use oslab.Prelude.{
  ℕ, ◌+◌, ◌-◌, ◌*◌, ◌/◌, ◌%◌, ◌^◌, ◌≤◌, ◌<◌, ◌≡◌, ◌≢◌, refl, sym, ap, ◌∙◌, inl, inr, arith, Bool,
  true, false, returns, List, [], ◌∷◌, length, All, bind_eq, ◌==◌, get_or, Bool-cases, ltb,
  if◌then◌else◌, ◌&&◌, ==_false, All-get_or,
}
use native.Mathlib.Nat.{div-add-mod, mod-lt, div-lt_iff_lt-mul, mul_comm}
use mathlib.Core.List.{Memᴰ}
use mathlib.Core.List.Memᴰ
use oslab.Klib.Mem.{Memory, memset}
use oslab.Dev.TtyCells.{Tty}
use oslab.Dev.Tty.{Sprite, cell_sprites, render_lines, tty_write, tty_render}
use oslab.Dev.Video.{
  Fb, Draw, draw_sprites, pixels_of, white, font_load, get_word, Buffer, fb_write, fb_store,
  sprite_brk,
}
use mathlib.Core.Path.{subst}
use oslab.Dev.TtyCells.Screen.{IsLayout, relocked-IsLayout}
use oslab.Dev.Video.Font.{font_load_lem}
use oslab.Kmt.{sem_init, sem_wait}
use oslab.Dev.TtyCells.Text.{IsText, put_all_text}
use oslab.Dev.Tty.Typing.{wait_init, signal_init}
use oslab.Dev.Tty.Listed.{render_lines-Mem}

-- A sprite of the shown display with a texture is drawn.
draw_sprites-Mem :
    (fb : Fb) (s : Sprite) (sps : List Sprite)
    → 0 < s.texture
    → s.display ≡ fb.info.current
    → Memᴰ s sps
    → Memᴰ (record { x = s.x; y = s.y; pixels = pixels_of fb s.texture }) (draw_sprites fb sps)
unfolding draw_sprites
draw_sprites-Mem fb s [] pos shown m = elim m [ ]
draw_sprites-Mem fb s (a ∷ sps) pos shown m = elim (Memᴰ.cases_cons m) [
  | inl e ↦
      (let tests : (ltb 0 a.texture && (a.display == fb.info.current)) ≡ true = ground (
        arith,
        subst (λ (u : Sprite). 0 < u.texture) e pos,
        sym (ap (λ (u : Sprite). u.display) e) ∙ shown,
      ) in
        rw tests (
          Memᴰ.head
            (ap (λ (u : Sprite). record { x = u.x; y = u.y; pixels = pixels_of fb u.texture }) e)))
  | inr later ↦ elim (Bool-cases (ltb 0 a.texture && (a.display == fb.info.current))) [
    | inl y ↦ rw y (Memᴰ.tail (draw_sprites-Mem fb s sps pos shown later))
    | inr n ↦ rw n (draw_sprites-Mem fb s sps pos shown later)
  ]
]

-- A half of the character `ch` at the cell `c` of a screen of so many columns.
pub record Glyph (columns c ch : ℕ) (lower : Bool) (font : ℕ → ℕ) (d : Draw) : Type 0 where
  pub column : d.x ≡ c % columns * 8 % 2 ^ 16
  pub line : d.y ≡ (c / columns * 16 + (if lower then 8 else 0)) % 2 ^ 16
  pub pixel :
      (j i : ℕ)
      → j < 8
      → i < 8
      → d.pixels (8 * j + i) ≡ (
          if font (16 * ch + (if lower then 8 + j else j)) / 2 ^ (7 - i) % 2 == 1 then white else 0)

-- The sprite of a half of a character.
unfoldable half_sprite : Tty → ℕ → ℕ → ℕ → Bool → Sprite
half_sprite t ch x y lower = record {
  texture = (if lower then ch * 2 + 2 else ch * 2 + 1) % 2 ^ 16;
  x = x * 8 % 2 ^ 16;
  y = (y * 16 + (if lower then 8 else 0)) % 2 ^ 16;
  display = t.display % 2 ^ 4;
}

half_sprite_texture :
    (t : Tty) (ch x y : ℕ) (lower : Bool) → ch < 256 → 0 < (half_sprite t ch x y lower).texture
unfolding half_sprite
half_sprite_texture t ch x y true small = omega arith
half_sprite_texture t ch x y false small = omega arith

half_sprite_display :
    (t : Tty) (ch x y : ℕ) (lower : Bool) → (half_sprite t ch x y lower).display ≡ t.display % 2 ^ 4
unfolding half_sprite
half_sprite_display t ch x y lower = refl

half_sprite-Mem :
    (b : Bool) (t : Tty) (c x y : ℕ) (lower : Bool)
    → t.buf + 8 * c ≢ t.cursor
    → Memᴰ
        (half_sprite t (t.mem (t.buf + 8 * c + 4)) x y lower)
        (cell_sprites b t (t.buf + 8 * c) x y)
unfolding half_sprite cell_sprites
half_sprite-Mem b t c x y true off =
    rw (==_false (t.buf + 8 * c) t.cursor off) (Memᴰ.tail (Memᴰ.head refl))
half_sprite-Mem b t c x y false off = rw (==_false (t.buf + 8 * c) t.cursor off) (
    Memᴰ.head (
      ap
        (λ (v : ℕ). record {
          texture = (t.mem (t.buf + 8 * c + 4) * 2 + 1) % 2 ^ 16;
          x = x * 8 % 2 ^ 16;
          y = v % 2 ^ 16;
          display = t.display % 2 ^ 4;
        })
        {y = y * 16} (omega arith)))

half_sprite_pixel :
    (t : Tty) (fb : Fb) (font : ℕ → ℕ) (mem : Memory) (ch x y j i : ℕ) (lower : Bool)
    → ch < 256
    → fb.mem ≡ font_load fb.textures font mem
    → j < 8
    → i < 8
    → pixels_of fb (half_sprite t ch x y lower).texture (8 * j + i)
      ≡ (if font (16 * ch + (if lower then 8 + j else j)) / 2 ^ (7 - i) % 2 == 1 then white else 0)
unfolding half_sprite pixels_of
half_sprite_pixel t fb font mem ch x y j i lower small loaded lj li =
    ap
      (λ (m : Memory). get_word m (
        fb.textures
        + 256 * ((if lower then ch * 2 + 2 else ch * 2 + 1) % 2 ^ 16)
        + 4 * (8 * j + i)))
      loaded
    ∙ ap
        (λ (u : ℕ).
          get_word (font_load fb.textures font mem) (fb.textures + 256 * u + 4 * (8 * j + i)))
        {y = if lower then ch * 2 + 2 else ch * 2 + 1} (texture_lt lower)
    ∙ font_load_lem fb.textures ch j i lower font mem small lj li
  where
    texture_lt :
        (low : Bool)
        → (if low then ch * 2 + 2 else ch * 2 + 1) % 2 ^ 16
          ≡ (if low then ch * 2 + 2 else ch * 2 + 1)
    texture_lt true = omega arith
    texture_lt false = omega arith

-- A marked cell other than the cursor is drawn by two glyphs.
drawn_cell :
    (b lower : Bool) (t : Tty) (fb : Fb) (font : ℕ → ℕ) (mem : Memory) (c : ℕ)
    → IsLayout t
    → c < t.size
    → t.buf + 8 * c ≢ t.cursor
    → t.mem (t.dirty + c) ≡ 1
    → t.mem (t.buf + 8 * c + 4) < 256
    → t.display % 2 ^ 4 ≡ fb.info.current
    → fb.mem ≡ font_load fb.textures font mem
    → (d : Draw) × Memᴰ d (draw_sprites fb (render_lines b t t.lines t.buf t.dirty 0))
      × Glyph t.columns c (t.mem (t.buf + 8 * c + 4)) lower font d
unfolding half_sprite
drawn_cell b lower t fb font mem c lay lt off m small disp loaded =
    let ch = t.mem (t.buf + 8 * c + 4) in
    let x = c % t.columns in
    let y = c / t.columns in
    let s : Sprite = half_sprite t ch x y lower in
    let row : y < t.lines =
      (div-lt_iff_lt-mul {x = c} {y = t.lines} lay.columns_pos).1
        (omega (arith, lay.counted, mul_comm t.columns t.lines)) in
    let listed =
      render_lines-Mem b t s t.lines t.buf t.dirty 0 y x (t.buf + 8 * c) (t.dirty + c) y row
        (mod-lt c lay.columns_pos) m (omega (arith, div-add-mod c t.columns))
        (omega (arith, div-add-mod c t.columns)) (omega arith)
        (half_sprite-Mem b t c x y lower off) in
    (
      record { x = s.x; y = s.y; pixels = pixels_of fb s.texture },
      draw_sprites-Mem fb s (render_lines b t t.lines t.buf t.dirty 0)
          (half_sprite_texture t ch x y lower small) (half_sprite_display t ch x y lower ∙ disp)
          listed,
      record {
        column = refl;
        line = refl;
        pixel = λ j i lj li. half_sprite_pixel t fb font mem ch x y j i lower small loaded lj li;
      },
    )

-- A sprite buffer for `fb_write`.
abbrev pub sprite_buffer : List Sprite → Buffer
sprite_buffer sprites = record { shown = 0; bytes = []; sprites = sprites }

-- A text of characters below 256 that ends before the last cell, written by `tty_write` to a terminal with a free lock, is drawn when
-- its sprites are written to a free display device that shows the terminal and has the font: at the place
-- of each character stand the two halves of its glyph, pixel by pixel.
pub text_drawn :
    (b : Bool) (chs : List ℕ) (t : Tty) (k : ℕ) (fb : Fb) (font : ℕ → ℕ) (mem : Memory)
    → IsLayout t
    → t.lock ≡ sem_init 1
    → t.cursor ≡ t.buf + 8 * k
    → k + length chs < t.size
    → t.buf + 8 * t.size ≤ t.dirty
    → All IsText chs
    → All (λ ch. ch < 256) chs
    → fb.sem ≡ sem_init 1
    → t.display % 2 ^ 4 ≡ fb.info.current
    → fb.mem ≡ font_load fb.textures font mem
    → (sprites : List Sprite) × (t' : Tty) × (draws : List Draw) × (fb' : Fb) × (tty_write b chs t
        ≡ returns (sprites, t'))
      × (fb_write sprite_brk (sprite_buffer sprites) fb ≡ returns (draws, fb'))
      × ((i : ℕ) (lower : Bool)
          → i < length chs
          → (d : Draw) × Memᴰ d draws × Glyph t.columns (k + i) (get_or chs i 0) lower font d)
unfolding tty_write tty_render fb_write fb_store
text_drawn b chs t k fb font mem lay free at fits apart texts bytes ready disp loaded =
    let t0 : Tty = record t { lock = sem_init 0 } in
    let put =
      put_all_text chs t0 k (relocked-IsLayout t lay (sem_init 0) t.cursor t.mem) at fits apart
        texts in
    let t2 : Tty = record t {
      lock = sem_init 1;
      cursor = t.buf + 8 * (k + length chs);
      mem = put.0;
    } in
    let sprites = render_lines b t2 t.lines t.buf t.dirty 0 in
    (
      sprites,
      record t2 { mem = memset t.dirty 0 t.size put.0 },
      draw_sprites fb sprites,
      record fb { sem = sem_init 1 },
      bind_eq _ (ap sem_wait free ∙ wait_init 0)
          ∙ bind_eq _ put.1
          ∙ bind_eq _ (signal_init 0 (omega arith))
          ∙ bind_eq _ (wait_init 0)
          ∙ bind_eq _ (signal_init 0 (omega arith)),
      bind_eq _ (ap sem_wait ready ∙ wait_init 0) ∙ bind_eq _ (signal_init 0 (omega arith)),
      λ i lower li.
          let ch : put.0 (t.buf + 8 * (k + i) + 4) ≡ get_or chs i 0 = put.2.text i li in
          subst
            (λ (u : ℕ).
              (d : Draw) × Memᴰ d (draw_sprites fb sprites)
              × Glyph t.columns (k + i) u lower font d)
            ch
            (drawn_cell b lower t2 fb font mem (k + i)
              (relocked-IsLayout t lay (sem_init 1) t2.cursor put.0) (omega arith)
              (λ e. absurd (omega arith))
              (put.2.marked (k + i) (omega arith) (omega arith) (omega arith))
              (subst (λ (u : ℕ). u < 256) (sym ch) (All-get_or (λ u. u < 256) chs i 0 bytes li))
              disp loaded),
    )
