-- ===== src/Dev/Tty/Listed.antt =====
-- What `tty_render` of kernel/src/dev/dev_tty.c lists.
use oslab.Prelude.{ℕ, zero, suc, ◌+◌, ◌*◌, ◌<◌, ◌≡◌, ap, ◌∙◌, arith, Bool, [], ◌==◌, if◌then◌else◌}
use native.Mathlib.Nat.{mul-suc}
use mathlib.Core.List.{Memᴰ}
use mathlib.Core.List.Memᴰ
use oslab.Dev.TtyCells.{Tty}
use oslab.Dev.Tty.{Sprite, cell_sprites, render_line, render_lines}
use mathlib.Core.Path.{subst}

-- The sprites of a marked cell are among those of its line, and those of the lines.
render_line-Mem :
    (b : Bool) (t : Tty) (s : Sprite) (n p d x y j q u : ℕ)
    → j < n
    → t.mem (d + j) ≡ 1
    → q ≡ p + 8 * j
    → u ≡ x + j
    → Memᴰ s (cell_sprites b t q u y)
    → Memᴰ s (render_line b t n p d x y)
unfolding render_line
render_line-Mem b t s zero p d x y j q u lt m eq eu c = absurd (omega arith)
render_line-Mem b t s (suc n) p d x y zero q u lt m eq eu c =
    let m0 : t.mem d ≡ 1 = ap t.mem {y = d + 0} (omega arith) ∙ m in
    let c1 : Memᴰ s (cell_sprites b t p x y) =
      subst (λ (a : ℕ). Memᴰ s (cell_sprites b t p a y)) {x = u} (omega arith)
        (subst (λ (a : ℕ). Memᴰ s (cell_sprites b t a u y)) {x = q} (omega arith) c) in
    Memᴰ.append_left (render_line b t n (p + 8) (d + 1) (x + 1) y) (rw m0 c1)
render_line-Mem b t s (suc n) p d x y (suc j) q u lt m eq eu c =
    Memᴰ.append_right (if t.mem d == 0 then [] else cell_sprites b t p x y) (
      render_line-Mem b t s n (p + 8) (d + 1) (x + 1) y j q u (omega arith)
        (ap t.mem (omega arith) ∙ m) (omega arith) (omega arith) c)

pub render_lines-Mem :
    (b : Bool) (t : Tty) (s : Sprite) (n p d y j x q d1 v : ℕ)
    → j < n
    → x < t.columns
    → t.mem d1 ≡ 1
    → q ≡ p + 8 * (t.columns * j + x)
    → d1 ≡ d + (t.columns * j + x)
    → v ≡ y + j
    → Memᴰ s (cell_sprites b t q x v)
    → Memᴰ s (render_lines b t n p d y)
unfolding render_lines
render_lines-Mem b t s zero p d y j x q d1 v lt lx m eq ed ev c = absurd (omega arith)
render_lines-Mem b t s (suc n) p d y zero x q d1 v lt lx m eq ed ev c =
    Memᴰ.append_left (render_lines b t n (p + 8 * t.columns) (d + t.columns) (y + 1)) (
      render_line-Mem b t s t.columns p d 0 y x q x lx (ap t.mem {y = d1} (omega arith) ∙ m)
        (omega arith) (omega arith)
        (subst (λ (a : ℕ). Memᴰ s (cell_sprites b t q x a)) {x = v} (omega arith) c))
render_lines-Mem b t s (suc n) p d y (suc j) x q d1 v lt lx m eq ed ev c =
    Memᴰ.append_right (render_line b t t.columns p d 0 y) (
      render_lines-Mem b t s n (p + 8 * t.columns) (d + t.columns) (y + 1) j x q d1 v (omega arith)
        lx m (omega (arith, eq, mul-suc t.columns j)) (omega (arith, ed, mul-suc t.columns j))
        (omega arith) c)
