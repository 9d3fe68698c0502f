-- ===== src/Dev/Video/Font.antt =====
-- The textures that `font_load` fills: each character has two, its upper and its lower half.
use oslab.Prelude.{
  ℕ, zero, suc, ◌+◌, ◌*◌, ◌^◌, ◌≤◌, ◌<◌, ◌≡◌, refl, ap, ◌∙◌, ◌⊎◌, inl, arith, Bool, if◌then◌else◌,
  true, false, ◌/◌, ◌-◌, ◌%◌, ◌==◌,
}
use oslab.Klib.Mem.{Memory}
use oslab.Dev.Video.{
  put_word, get_word, pixel_color, fill_line, fill_lines, texture_fill, white, load_chars,
  font_load,
}
use mathlib.Core.Path.{ap₂}

put_word-outside : (a v b : ℕ) (mem : Memory) → (b < a) ⊎ (a + 4 ≤ b) → put_word a v mem b ≡ mem b
unfolding put_word
put_word-outside a v b mem out = ground arith

-- The words whose bytes are the same are the same.
get_word_same :
    (m1 m2 : Memory) (a : ℕ)
    → ((j : ℕ) → j < 4 → m1 (a + j) ≡ m2 (a + j))
    → get_word m1 a ≡ get_word m2 a
unfolding get_word
get_word_same m1 m2 a same = omega (
  arith,
  ap m1 {x = a} {y = a + 0} (omega arith),
  ap m2 {x = a} {y = a + 0} (omega arith),
  same 0 (omega arith),
  same 1 (omega arith),
  same 2 (omega arith),
  same 3 (omega arith),
)

get_word-put_word : (a v : ℕ) (mem : Memory) → v < 2 ^ 32 → get_word (put_word a v mem) a ≡ v
unfolding get_word put_word
get_word-put_word a v mem lt = ground arith

pixel_color_lt : (bm x fg bg : ℕ) → fg < 2 ^ 32 → bg < 2 ^ 32 → pixel_color bm x fg bg < 2 ^ 32
unfolding pixel_color
pixel_color_lt bm x fg bg f b = ground arith

module _ (fg bg : ℕ) (fl : fg < 2 ^ 32) (bl : bg < 2 ^ 32) where
  fill_line-outside :
      (n x bm px a : ℕ) (mem : Memory)
      → (a < px) ⊎ (px + 4 * n ≤ a)
      → fill_line n x bm fg bg px mem a ≡ mem a
  unfolding fill_line
  fill_line-outside zero x bm px a mem out = refl
  fill_line-outside (suc n) x bm px a mem out =
      fill_line-outside n (x + 1) bm (px + 4) a (put_word px (pixel_color bm x fg bg) mem)
        (ground arith)
      ∙ put_word-outside px (pixel_color bm x fg bg) a mem (ground arith)

  fill_line_lem :
      (n x bm px j : ℕ) (mem : Memory)
      → j < n
      → get_word (fill_line n x bm fg bg px mem) (px + 4 * j) ≡ pixel_color bm (x + j) fg bg
  unfolding fill_line
  fill_line_lem zero x bm px j mem lt = absurd (omega arith)
  fill_line_lem (suc n) x bm px zero mem lt =
      let mem1 = put_word px (pixel_color bm x fg bg) mem in
      get_word_same (fill_line n (x + 1) bm fg bg (px + 4) mem1) mem1 (px + 4 * 0)
        (λ i li. fill_line-outside n (x + 1) bm (px + 4) (px + 4 * 0 + i) mem1 (inl (omega arith)))
      ∙ ap (get_word mem1) {y = px} (omega arith)
      ∙ get_word-put_word px (pixel_color bm x fg bg) mem (pixel_color_lt bm x fg bg fl bl)
      ∙ ap (λ (i : ℕ). pixel_color bm i fg bg) {y = x + 0} (omega arith)
  fill_line_lem (suc n) x bm px (suc j) mem lt =
      let mem1 = put_word px (pixel_color bm x fg bg) mem in
      ap (get_word (fill_line n (x + 1) bm fg bg (px + 4) mem1)) {y = px + 4 + 4 * j} (omega arith)
      ∙ fill_line_lem n (x + 1) bm (px + 4) j mem1 (omega arith)
      ∙ ap (λ (i : ℕ). pixel_color bm i fg bg) {y = x + suc j} (omega arith)

  module _ (top : Bool) (font : ℕ → ℕ) (bits : ℕ) where
    abbrev pub row : ℕ → ℕ
    row y = font (if top then bits + (y + 8) else bits + y)

    fill_lines-outside :
        (n y px a : ℕ) (mem : Memory)
        → (a < px) ⊎ (px + 32 * n ≤ a)
        → fill_lines n y top font bits fg bg px mem a ≡ mem a
    unfolding fill_lines
    fill_lines-outside zero y px a mem out = refl
    fill_lines-outside (suc n) y px a mem out =
        fill_lines-outside n (y + 1) (px + 32) a (fill_line 8 0 (row y) fg bg px mem) (ground arith)
        ∙ fill_line-outside 8 0 (row y) px a mem (ground arith)

    fill_lines_lem :
        (n y px j i : ℕ) (mem : Memory)
        → j < n
        → i < 8
        → get_word (fill_lines n y top font bits fg bg px mem) (px + 32 * j + 4 * i)
          ≡ pixel_color (row (y + j)) i fg bg
    unfolding fill_lines
    fill_lines_lem zero y px j i mem lt li = absurd (omega arith)
    fill_lines_lem (suc n) y px zero i mem lt li =
        let mem1 = fill_line 8 0 (row y) fg bg px mem in
        get_word_same (fill_lines n (y + 1) top font bits fg bg (px + 32) mem1) mem1
          (px + 32 * 0 + 4 * i)
          (λ d ld.
            fill_lines-outside n (y + 1) (px + 32) (px + 32 * 0 + 4 * i + d) mem1
              (inl (omega arith)))
        ∙ ap (get_word mem1) {y = px + 4 * i} (omega arith)
        ∙ fill_line_lem 8 0 (row y) px i mem li
        ∙ ap₂ (λ (r : ℕ) (c : ℕ). pixel_color r c fg bg) (ap row {y = y + 0} (omega arith))
            (omega arith)
    fill_lines_lem (suc n) y px (suc j) i mem lt li =
        let mem1 = fill_line 8 0 (row y) fg bg px mem in
        ap (get_word (fill_lines n (y + 1) top font bits fg bg (px + 32) mem1))
          {y = px + 32 + 32 * j + 4 * i} (omega arith)
        ∙ fill_lines_lem n (y + 1) (px + 32) j i mem1 (omega arith) li
        ∙ ap (λ (u : ℕ). pixel_color (row u) i fg bg) {y = y + suc j} (omega arith)

module _ (textures : ℕ) (font : ℕ → ℕ) where
  -- The texture of a half of the character `ch`.
  abbrev pub half : Bool → ℕ → ℕ
  half top ch = if top then ch * 2 + 2 else ch * 2 + 1

  half-le : (top : Bool) (ch : ℕ) → half top ch ≤ ch * 2 + 2
  half-le true ch = omega arith
  half-le false ch = omega arith

  abbrev loaded : ℕ → Memory → Memory
  loaded ch mem =
      texture_fill (textures + 256 * (ch * 2 + 2)) true font (16 * ch) white 0
        (texture_fill (textures + 256 * (ch * 2 + 1)) false font (16 * ch) white 0 mem)

  white_lt : white < 2 ^ 32
  white_lt = omega arith

  load_chars-outside :
      (n ch a : ℕ) (mem : Memory)
      → (a < textures + 256 * (ch * 2 + 1)) ⊎ (textures + 256 * ((ch + n) * 2 + 1) ≤ a)
      → load_chars n ch textures font mem a ≡ mem a
  unfolding load_chars texture_fill
  load_chars-outside zero ch a mem out = refl
  load_chars-outside (suc n) ch a mem out =
      let low = texture_fill (textures + 256 * (ch * 2 + 1)) false font (16 * ch) white 0 mem in
      load_chars-outside n (ch + 1) a (loaded ch mem) (ground arith)
      ∙ fill_lines-outside white 0 white_lt (omega arith) true font (16 * ch) 8 0
          (textures + 256 * (ch * 2 + 2)) a low (ground arith)
      ∙ fill_lines-outside white 0 white_lt (omega arith) false font (16 * ch) 8 0
          (textures + 256 * (ch * 2 + 1)) a mem (ground arith)

  -- One round of the loop fills both textures.
  loaded_lem :
      (ch j i : ℕ) (top : Bool) (mem : Memory)
      → j < 8
      → i < 8
      → get_word (loaded ch mem) (textures + 256 * half top ch + 32 * j + 4 * i)
        ≡ pixel_color (row white 0 white_lt (omega arith) top font (16 * ch) j) i white 0
  unfolding texture_fill
  loaded_lem ch j i true mem lj li =
      let low = texture_fill (textures + 256 * (ch * 2 + 1)) false font (16 * ch) white 0 mem in
      fill_lines_lem white 0 white_lt (omega arith) true font (16 * ch) 8 0
        (textures + 256 * (ch * 2 + 2)) j i low lj li
      ∙ ap (λ (u : ℕ). pixel_color (font (16 * ch + (u + 8))) i white 0) {y = j} (omega arith)
  loaded_lem ch j i false mem lj li =
      let low = texture_fill (textures + 256 * (ch * 2 + 1)) false font (16 * ch) white 0 mem in
      get_word_same (loaded ch mem) low (textures + 256 * (ch * 2 + 1) + 32 * j + 4 * i) (λ d ld.
        fill_lines-outside white 0 white_lt (omega arith) true font (16 * ch) 8 0
          (textures + 256 * (ch * 2 + 2)) (textures + 256 * (ch * 2 + 1) + 32 * j + 4 * i + d) low
          (inl (omega arith)))
      ∙ fill_lines_lem white 0 white_lt (omega arith) false font (16 * ch) 8 0
          (textures + 256 * (ch * 2 + 1)) j i mem lj li
      ∙ ap (λ (u : ℕ). pixel_color (font (16 * ch + u)) i white 0) {y = j} (omega arith)

  load_chars_lem :
      (n ch c j i : ℕ) (top : Bool) (mem : Memory)
      → c < n
      → j < 8
      → i < 8
      → get_word
          (load_chars n ch textures font mem)
          (textures + 256 * half top (ch + c) + 32 * j + 4 * i)
        ≡ pixel_color (row white 0 white_lt (omega arith) top font (16 * (ch + c)) j) i white 0
  unfolding load_chars
  load_chars_lem zero ch c j i top mem lt lj li = absurd (omega arith)
  load_chars_lem (suc n) ch zero j i top mem lt lj li =
      let later = load_chars n (ch + 1) textures font (loaded ch mem) in
      ap (λ (u : ℕ). get_word later (textures + 256 * half top u + 32 * j + 4 * i)) {y = ch}
        (omega arith)
      ∙ get_word_same later (loaded ch mem) (textures + 256 * half top ch + 32 * j + 4 * i) (λ d ld.
        load_chars-outside n (ch + 1) (textures + 256 * half top ch + 32 * j + 4 * i + d)
          (loaded ch mem) (inl (omega (arith, half-le top ch))))
      ∙ loaded_lem ch j i top mem lj li
      ∙ ap
          (λ (u : ℕ).
            pixel_color (row white 0 white_lt (omega arith) top font (16 * u) j) i white 0)
          {y = ch + 0} (omega arith)
  load_chars_lem (suc n) ch (suc c) j i top mem lt lj li =
      ap
        (λ (u : ℕ).
          get_word (load_chars n (ch + 1) textures font (loaded ch mem))
            (textures + 256 * half top u + 32 * j + 4 * i))
        {y = ch + 1 + c} (omega arith)
      ∙ load_chars_lem n (ch + 1) c j i top (loaded ch mem) (omega arith) lj li
      ∙ ap
          (λ (u : ℕ).
            pixel_color (row white 0 white_lt (omega arith) top font (16 * u) j) i white 0)
          {y = ch + suc c} (omega arith)

-- After `font_load` the pixel in line `j` and column `i` of either texture of a character is white if
-- its bit of the font is set, and black otherwise; the lower texture has the second 8 bytes.
pub font_load_lem :
    (textures ch j i : ℕ) (top : Bool) (font : ℕ → ℕ) (mem : Memory)
    → ch < 256
    → j < 8
    → i < 8
    → get_word
        (font_load textures font mem)
        (textures + 256 * (if top then ch * 2 + 2 else ch * 2 + 1) + 4 * (8 * j + i))
      ≡ (if font (16 * ch + (if top then 8 + j else j)) / 2 ^ (7 - i) % 2 == 1 then white else 0)
unfolding font_load pixel_color
font_load_lem textures ch j i true font mem lc lj li =
    ap (get_word (font_load textures font mem))
      {y = textures + 256 * ((0 + ch) * 2 + 2) + 32 * j + 4 * i} (omega arith)
    ∙ load_chars_lem textures font 256 0 ch j i true mem lc lj li
    ∙ ap (λ (u : ℕ). pixel_color (font u) i white 0) {x = 16 * (0 + ch) + (j + 8)} (omega arith)
font_load_lem textures ch j i false font mem lc lj li =
    ap (get_word (font_load textures font mem))
      {y = textures + 256 * ((0 + ch) * 2 + 1) + 32 * j + 4 * i} (omega arith)
    ∙ load_chars_lem textures font 256 0 ch j i false mem lc lj li
    ∙ ap (λ (u : ℕ). pixel_color (font u) i white 0) {x = 16 * (0 + ch) + j} (omega arith)
