-- ===== src/Feed/Panels.antt =====
-- ui/feed.c: the palette, the panels and the gradient.
use instagram_on_nt.Prelude.{ℕ, zero, suc, ◌+◌, ◌-◌, ◌*◌, ◌/◌, ◌%◌, ◌==◌, if◌then◌else◌}
use instagram_on_nt.Prelude.Int.{pos, pos_part, leb_ℤ, add_int, sub_int}
use instagram_on_nt.Raster.{Surface, ras_rgb, ras_r, ras_g, ras_b}
use instagram_on_nt.Raster.Draw.{Rect, surface_hline, surface_bevel}

-- The colours C_FACE, C_HILIGHT and the others.
unfoldable pub c_face : ℕ
unfolding ras_rgb
c_face = ras_rgb 192 192 192

unfoldable pub c_hilight : ℕ
unfolding ras_rgb
c_hilight = ras_rgb 255 255 255

unfoldable pub c_light : ℕ
unfolding ras_rgb
c_light = ras_rgb 223 223 223

unfoldable pub c_shadow : ℕ
unfolding ras_rgb
c_shadow = ras_rgb 128 128 128

unfoldable pub c_dark : ℕ
unfolding ras_rgb
c_dark = ras_rgb 64 64 64

unfoldable pub c_white : ℕ
unfolding ras_rgb
c_white = ras_rgb 255 255 255

unfoldable pub c_ink : ℕ
unfolding ras_rgb
c_ink = ras_rgb 80 80 80

unfoldable pub c_text : ℕ
unfolding ras_rgb
c_text = ras_rgb 20 20 20

unfoldable pub c_ig_blue : ℕ
unfolding ras_rgb
c_ig_blue = ras_rgb 0 60 128

-- The rectangle that lies `d` within `r` on every side.
abbrev pub inset : ℕ → Rect → Rect
inset d r = record {
  x = add_int r.x (pos d);
  y = add_int r.y (pos d);
  w = sub_int r.w (pos (2 * d));
  h = sub_int r.h (pos (2 * d));
}

unfoldable pub panel_raised : Surface → Rect → Surface
unfolding surface_bevel c_hilight c_dark c_light c_shadow
panel_raised s r = surface_bevel (surface_bevel s r c_hilight c_dark) (inset 1 r) c_light c_shadow

unfoldable pub panel_sunken : Surface → Rect → Surface
unfolding surface_bevel c_hilight c_dark c_light c_shadow
panel_sunken s r = surface_bevel (surface_bevel s r c_shadow c_hilight) (inset 1 r) c_dark c_light

-- One channel at `t` of 255 on the way from `top` to `bot`.
unfoldable pub fade : ℕ → ℕ → ℕ → ℕ
fade top bot t = (top * (255 - t) + bot * t) / 255 % 256

-- The rows from `y` on of a gradient `h` high, of which `n` are left.
unfoldable pub gradient_rows : Surface → Rect → ℕ → ℕ → ℕ → ℕ → ℕ → Surface
unfolding fade ras_rgb ras_r ras_g ras_b surface_hline add_int
gradient_rows s r top bot h y zero = s
gradient_rows s r top bot h y (suc n) =
    let t = if h == 1 then 0 else y * 255 / (h - 1) in
    let color =
      ras_rgb (fade (ras_r top) (ras_r bot) t) (fade (ras_g top) (ras_g bot) t)
        (fade (ras_b top) (ras_b bot) t) in
    gradient_rows (surface_hline s r.x (add_int r.y (pos y)) r.w color) r top bot h (y + 1) n

-- A rectangle is taken to be so low that `y * 255` is an `int`.
unfoldable pub gradient_v : Surface → Rect → ℕ → ℕ → Surface
unfolding gradient_rows
gradient_v s r top bot =
    if leb_ℤ r.h (pos 0) then s else gradient_rows s r top bot (pos_part r.h) 0 (pos_part r.h)
