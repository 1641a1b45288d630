-- ===== src/Raster/Draw.antt =====
-- The drawing routines of core/raster.c. A row pointer is the index of its first word in `pixels`.
use instagram_on_nt.Prelude.{
  ℕ, zero, suc, ◌+◌, ◌-◌, ◌*◌, ◌/◌, ◌%◌, ◌==◌, ◌||◌, List, Option, none, some, get_or, set,
  if◌then◌else◌, min,
}
use instagram_on_nt.Prelude.Int.{ℤ, pos, pos_part, ◌+ℤ◌, ◌-ℤ◌, ltb_ℤ, leb_ℤ, int32}
use instagram_on_nt.Raster.{Surface, ras_argb, ras_a, ras_r, ras_g, ras_b}

pub record Rect : Type 0 where
  pub x : ℤ
  pub y : ℤ
  pub w : ℤ
  pub h : ℤ

-- One axis of clip_rect: from and to which coordinate, for an origin, an extent and a limit.
pub record Extent : Type 0 where
  pub from : ℤ
  pub to : ℤ

unfoldable pub clip_axis : ℤ → ℤ → ℕ → Extent
clip_axis v extent limit =
    let end = int32 (v +ℤ extent) in
    record {
      from = if ltb_ℤ v (pos 0) then pos 0 else v;
      to = if ltb_ℤ (pos limit) end then pos limit else end;
    }

-- `none` is the result 0.
unfoldable pub clip_rect : Surface → Rect → Option Rect
unfolding clip_axis
clip_rect s r =
    let ex = clip_axis r.x r.w s.w in
    let ey = clip_axis r.y r.h s.h in
    if leb_ℤ ex.to ex.from || leb_ℤ ey.to ey.from
    then none
    else some (record { x = ex.from; y = ey.from; w = ex.to -ℤ ex.from; h = ey.to -ℤ ey.from })

-- One channel of a blend, rounded.
unfoldable pub mix : ℕ → ℕ → ℕ → ℕ → ℕ
mix s sa d ia = (s * sa + d * ia + 127) / 255

unfoldable pub blend_over : ℕ → ℕ → ℕ
unfolding ras_argb ras_a ras_r ras_g ras_b mix
blend_over dst src =
    let sa = ras_a src in
    let ia = 255 - sa in
    if sa == 0
    then dst
    else if sa == 255
    then src
    else ras_argb (min 255 (sa + (ras_a dst * ia + 127) / 255) % 256)
        (mix (ras_r src) sa (ras_r dst) ia % 256) (mix (ras_g src) sa (ras_g dst) ia % 256)
        (mix (ras_b src) sa (ras_b dst) ia % 256)

-- `for (x) row[x] = f(row[x])` over `n` words from index `i` on.
unfoldable pub row_loop : (ℕ → ℕ) → List ℕ → ℕ → ℕ → List ℕ
row_loop f ps i zero = ps
row_loop f ps i (suc n) = row_loop f (set ps i (f (get_or ps i 0))) (i + 1) n

-- The rows from `y` on, of `w` words each from column `x` on.
unfoldable pub rows_loop : (ℕ → ℕ) → List ℕ → ℕ → ℕ → ℕ → ℕ → ℕ → List ℕ
unfolding row_loop
rows_loop f ps stride x y w zero = ps
rows_loop f ps stride x y w (suc h) =
    rows_loop f (row_loop f ps (y * stride + x) w) stride x (y + 1) w h

unfoldable pub surface_fill : Surface → ℕ → Surface
unfolding rows_loop
surface_fill s color = record s { pixels = rows_loop (λ _. color) s.pixels s.stride 0 0 s.w s.h }

-- The body of surface_fill_rect and of surface_blend_rect, after the clip.
unfoldable pub draw_clipped : (ℕ → ℕ) → Surface → Option Rect → Surface
unfolding rows_loop
draw_clipped f s none = s
draw_clipped f s (some r) = record s {
  pixels =
      rows_loop f s.pixels s.stride (pos_part r.x) (pos_part r.y) (pos_part r.w) (pos_part r.h);
}

unfoldable pub surface_fill_rect : Surface → Rect → ℕ → Surface
unfolding draw_clipped clip_rect
surface_fill_rect s r color = draw_clipped (λ _. color) s (clip_rect s r)

unfoldable pub surface_blend_rect : Surface → Rect → ℕ → Surface
unfolding draw_clipped clip_rect blend_over
surface_blend_rect s r color = draw_clipped (λ p. blend_over p color) s (clip_rect s r)

unfoldable pub surface_hline : Surface → ℤ → ℤ → ℤ → ℕ → Surface
unfolding surface_fill_rect
surface_hline s x y w color = surface_fill_rect s (record { x = x; y = y; w = w; h = pos 1 }) color

unfoldable pub surface_vline : Surface → ℤ → ℤ → ℤ → ℕ → Surface
unfolding surface_fill_rect
surface_vline s x y h color = surface_fill_rect s (record { x = x; y = y; w = pos 1; h = h }) color

-- `v + extent - 1`
abbrev pub last_of : ℤ → ℤ → ℤ
last_of v extent = int32 (int32 (v +ℤ extent) -ℤ pos 1)

unfoldable pub surface_frame : Surface → Rect → ℕ → Surface
unfolding surface_hline surface_vline
surface_frame s r color =
    let s₁ = surface_hline s r.x r.y r.w color in
    let s₂ = surface_hline s₁ r.x (last_of r.y r.h) r.w color in
    let s₃ = surface_vline s₂ r.x r.y r.h color in
    let s₄ = surface_vline s₃ (last_of r.x r.w) r.y r.h color in
    if leb_ℤ r.w (pos 0) || leb_ℤ r.h (pos 0) then s else s₄

unfoldable pub surface_bevel : Surface → Rect → ℕ → ℕ → Surface
unfolding surface_hline surface_vline
surface_bevel s r light dark =
    let s₁ = surface_hline s r.x r.y r.w light in
    let s₂ = surface_vline s₁ r.x r.y r.h light in
    let s₃ = surface_hline s₂ r.x (last_of r.y r.h) r.w dark in
    let s₄ = surface_vline s₃ (last_of r.x r.w) r.y r.h dark in
    if leb_ℤ r.w (pos 0) || leb_ℤ r.h (pos 0) then s else s₄
