-- ===== src/Tests/Raster.antt =====
-- Runs of core/raster.c, and its properties at a concrete surface.
use instagram_on_nt.Prelude.{◌≡◌, refl, arith, [], ◌∷◌, if◌then◌else◌}
use instagram_on_nt.Prelude.Int.{pos, neg, int32, uint32, ◌+ℤ◌, ◌-ℤ◌}
use instagram_on_nt.Raster.{Surface, ras_argb, ras_a, ras_r, ras_g, ras_b}
use instagram_on_nt.Raster.Draw.{
  Rect, blend_over, surface_fill_rect, surface_blend_rect, clip_rect, clip_axis, draw_clipped,
  rows_loop, row_loop,
}
use instagram_on_nt.Raster.Blit.{
  surface_downscale, scale_rows, scale_row, box_pixel, box_from, box_to, sum_box, sum_row,
  add_pixel, average,
}
use instagram_on_nt.Raster.Clip.{IsSurface, pixel_at, inside, surface_rects-pixel}
use instagram_on_nt.Raster.Blend.{Blended, blend_over-Blended}

abbrev canvas : Surface
canvas = record { pixels = 1 ∷ 2 ∷ 9 ∷ 3 ∷ 4 ∷ 9 ∷ []; w = 2; h = 2; stride = 3; owns = 0 }

-- From the column left of the surface to the first column.
abbrev strip : Rect
strip = record { x = neg 1; y = pos 0; w = pos 2; h = pos 5 }

strip_lem : (surface_fill_rect canvas strip 7).pixels ≡ 7 ∷ 2 ∷ 9 ∷ 7 ∷ 4 ∷ 9 ∷ []
unfolding surface_fill_rect clip_rect clip_axis draw_clipped rows_loop row_loop int32 uint32 ◌+ℤ◌
    ◌-ℤ◌
strip_lem = refl

canvas-IsSurface : IsSurface canvas
canvas-IsSurface = record { row_fits = omega arith; rows_fit = omega arith }

surface_rects-pixel_example :
    (pixel_at (surface_fill_rect canvas strip 7) 0 1
      ≡ (if inside strip 0 1 then 7 else pixel_at canvas 0 1))
    × (pixel_at (surface_blend_rect canvas strip 7) 0 1
        ≡ (if inside strip 0 1 then blend_over (pixel_at canvas 0 1) 7 else pixel_at canvas 0 1))
unfolding ◌+ℤ◌
surface_rects-pixel_example =
    surface_rects-pixel canvas strip 7 0 1 canvas-IsSurface (omega arith) (omega arith)
      (omega arith, omega arith) (omega arith, omega arith)

blend_over-Blended_example : Blended 0xFF000000 0x80FF0000 (blend_over 0xFF000000 0x80FF0000)
blend_over-Blended_example = blend_over-Blended 0xFF000000 0x80FF0000

abbrev dot : Surface
dot = record { pixels = 0 ∷ []; w = 1; h = 1; stride = 1; owns = 1 }

downscale_lem : (surface_downscale dot canvas).pixels ≡ 2 ∷ []
unfolding surface_downscale scale_rows scale_row box_pixel box_from box_to sum_box sum_row add_pixel
    average ras_argb ras_a ras_r ras_g ras_b
downscale_lem = refl
