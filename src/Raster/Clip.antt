-- ===== src/Raster/Clip.antt =====
-- The clip of core/raster.c, and what a clipped rectangle draws.
use instagram_on_nt.Prelude.{
  ℕ, ◌+◌, ◌*◌, ◌^◌, ◌<◌, ◌≤◌, ◌≡◌, sym, ap, ◌∙◌, arith, ◌&&◌, ◌||◌, Bool, true, false, Option, none,
  some, get_or, if◌then◌else◌, length, Bool-cases, inl, inr, ◌⊎◌, and_true,
}
use mathlib.Core.Path.{ap₂}
use instagram_on_nt.Prelude.Int.{ℤ, pos, pos_part, neg_part, ◌+ℤ◌, ◌-ℤ◌, ltb_ℤ, leb_ℤ, int32_small}
use instagram_on_nt.Raster.{Surface}
use instagram_on_nt.Raster.Draw.{
  Rect, Extent, clip_axis, clip_rect, rows_loop, draw_clipped, surface_fill_rect,
  surface_blend_rect, blend_over,
}
use instagram_on_nt.Raster.Cover.{between_ℕ, rows_loop-inside, rows_loop-outside}

-- `v ≤ p < v + extent`
abbrev pub covers : ℤ → ℤ → ℕ → Bool
covers v extent p = leb_ℤ v (pos p) && ltb_ℤ (pos p) (v +ℤ extent)

-- The pixel lies in the rectangle.
abbrev pub inside : Rect → ℕ → ℕ → Bool
inside r px py = covers r.y r.h py && covers r.x r.w px

abbrev pub IsInt : ℤ → Type 0
IsInt v = (pos_part v < 2 ^ 31) × (neg_part v ≤ 2 ^ 31)

module _ (v extent : ℤ) (limit p : ℕ) (int : IsInt (v +ℤ extent)) (below : p < limit) where
  axis-empty :
      leb_ℤ (clip_axis v extent limit).to (clip_axis v extent limit).from ≡ true
      → covers v extent p ≡ false
  unfolding clip_axis
  axis-empty h = let e = int32_small (v +ℤ extent) int.0 int.1 in ground (arith, e)

  axis-covers :
      leb_ℤ (clip_axis v extent limit).to (clip_axis v extent limit).from ≡ false
      → between_ℕ
          (pos_part (clip_axis v extent limit).from)
          (pos_part ((clip_axis v extent limit).to -ℤ (clip_axis v extent limit).from))
          p
        ≡ covers v extent p
  unfolding clip_axis ◌-ℤ◌
  axis-covers h = let e = int32_small (v +ℤ extent) int.0 int.1 in ground (arith, e)

  axis-fits :
      leb_ℤ (clip_axis v extent limit).to (clip_axis v extent limit).from ≡ false
      → pos_part (clip_axis v extent limit).from
          + pos_part ((clip_axis v extent limit).to -ℤ (clip_axis v extent limit).from)
        ≤ limit
  unfolding clip_axis ◌-ℤ◌
  axis-fits h = ground arith

-- Rows of at least the width, all of them within the buffer.
pub record IsSurface (s : Surface) : Type 0 where
  pub row_fits : s.w ≤ s.stride
  pub rows_fit : s.h * s.stride ≤ length s.pixels

abbrev pub pixel_at : Surface → ℕ → ℕ → ℕ
pixel_at s px py = get_or s.pixels (py * s.stride + px) 0

abbrev axis_x : Surface → Rect → Extent
axis_x s r = clip_axis r.x r.w s.w

abbrev axis_y : Surface → Rect → Extent
axis_y s r = clip_axis r.y r.h s.h

clip_rect-empty :
    (s : Surface) (r : Rect)
    → (leb_ℤ (axis_x s r).to (axis_x s r).from || leb_ℤ (axis_y s r).to (axis_y s r).from) ≡ true
    → clip_rect s r ≡ none
unfolding clip_rect
clip_rect-empty s r h = rw h

clip_rect-some :
    (s : Surface) (r : Rect)
    → (leb_ℤ (axis_x s r).to (axis_x s r).from || leb_ℤ (axis_y s r).to (axis_y s r).from) ≡ false
    → clip_rect s r
      ≡ some (record {
        x = (axis_x s r).from;
        y = (axis_y s r).from;
        w = (axis_x s r).to -ℤ (axis_x s r).from;
        h = (axis_y s r).to -ℤ (axis_y s r).from;
      })
unfolding clip_rect
clip_rect-some s r h = rw h

or_cases : (a b : Bool) → (a || b) ≡ true → (a ≡ true) ⊎ (b ≡ true)
or_cases a b h = ground arith

or_none : (a b : Bool) → (a || b) ≡ false → (a ≡ false) × (b ≡ false)
or_none a b h = ground arith

and_left : (a b : Bool) → a ≡ false → (a && b) ≡ false
and_left a b h = ground arith

and_right : (a b : Bool) → b ≡ false → (a && b) ≡ false
and_right a b h = ground arith

rows_fit_all : (n h stride room : ℕ) → n ≤ h → h * stride ≤ room → n * stride ≤ room
rows_fit_all n h stride room p q = grind arith

module _ (f : ℕ → ℕ) (s : Surface) (r : Rect) (px py : ℕ) (surface : IsSurface s)
    (column : px < s.w) (row : py < s.h) (int_x : IsInt (r.x +ℤ r.w))
    (int_y : IsInt (r.y +ℤ r.h)) where
  -- An empty clip meets no pixel of the surface.
  empty-inside :
      (leb_ℤ (axis_x s r).to (axis_x s r).from || leb_ℤ (axis_y s r).to (axis_y s r).from) ≡ true
      → inside r px py ≡ false
  empty-inside e = elim (or_cases _ _ e) [
    | inl u ↦ and_right (covers r.y r.h py) _ (axis-empty r.x r.w s.w px int_x column u)
    | inr u ↦ and_left _ (covers r.x r.w px) (axis-empty r.y r.h s.h py int_y row u)
  ]

  -- The pixels that the clipped loop changes.
  clipped-pixel :
      leb_ℤ (axis_x s r).to (axis_x s r).from ≡ false
      → leb_ℤ (axis_y s r).to (axis_y s r).from ≡ false
      → get_or
          (rows_loop f s.pixels s.stride
            (pos_part (axis_x s r).from)
            (pos_part (axis_y s r).from)
            (pos_part ((axis_x s r).to -ℤ (axis_x s r).from))
            (pos_part ((axis_y s r).to -ℤ (axis_y s r).from)))
          (py * s.stride + px)
          0
        ≡ (if inside r px py then f (pixel_at s px py) else pixel_at s px py)
  clipped-pixel a b =
      let old = pixel_at s px py in
      let x = pos_part (axis_x s r).from in
      let w = pos_part ((axis_x s r).to -ℤ (axis_x s r).from) in
      let y = pos_part (axis_y s r).from in
      let h = pos_part ((axis_y s r).to -ℤ (axis_y s r).from) in
      let fx : x + w ≤ s.w = axis-fits r.x r.w s.w px int_x column a in
      let fy : y + h ≤ s.h = axis-fits r.y r.h s.h py int_y row b in
      let ex : between_ℕ x w px ≡ covers r.x r.w px = axis-covers r.x r.w s.w px int_x column a in
      let ey : between_ℕ y h py ≡ covers r.y r.h py = axis-covers r.y r.h s.h py int_y row b in
      let fits : x + w ≤ s.stride = omega (arith, surface.row_fits) in
      let wide : px < s.stride = omega (arith, surface.row_fits) in
      let both = ap₂ (λ u v. u && v) ey ex in
      elim (Bool-cases (inside r px py)) [
        | inl i ↦
            let c = and_true (covers r.y r.h py) (covers r.x r.w px) i in
            rows_loop-inside f s.stride x w px py fits wide s.pixels y h (ey ∙ c.0) (ex ∙ c.1)
              (rows_fit_all (y + h) s.h s.stride (length s.pixels) fy surface.rows_fit)
            ∙ ap (λ t. if t then f old else old) (sym i)
        | inr i ↦
            rows_loop-outside f s.stride x w px py fits wide s.pixels y h (both ∙ i)
            ∙ ap (λ t. if t then f old else old) (sym i)
      ]

  -- On a surface whose rows fit its buffer, a rectangle whose far edges are `int`s, drawn with `f`
  -- after the clip, replaces each pixel of the surface that lies in the rectangle by what `f` makes of
  -- it, and keeps every other.
  pub draw_clipped-pixel :
      pixel_at (draw_clipped f s (clip_rect s r)) px py
      ≡ (if inside r px py then f (pixel_at s px py) else pixel_at s px py)
  unfolding draw_clipped
  draw_clipped-pixel =
      let old = pixel_at s px py in
      let at : Option Rect → ℕ = λ o. pixel_at (draw_clipped f s o) px py in
      elim (Bool-cases
        (leb_ℤ (axis_x s r).to (axis_x s r).from || leb_ℤ (axis_y s r).to (axis_y s r).from)) [
          | inl e ↦
              ap at (clip_rect-empty s r e)
              ∙ ap (λ t. if t then f old else old) (sym (empty-inside e))
          | inr e ↦ let n = or_none _ _ e in ap at (clip_rect-some s r e) ∙ clipped-pixel n.0 n.1
        ]

-- On a surface whose rows fit its buffer, and for a rectangle whose far edges are `int`s,
-- surface_fill_rect gives the colour to each pixel of the surface that lies in the rectangle,
-- surface_blend_rect blends the colour over it, and both keep every other pixel.
pub surface_rects-pixel :
    (s : Surface) (r : Rect) (color px py : ℕ)
    → IsSurface s
    → px < s.w
    → py < s.h
    → IsInt (r.x +ℤ r.w)
    → IsInt (r.y +ℤ r.h)
    → (pixel_at (surface_fill_rect s r color) px py
        ≡ (if inside r px py then color else pixel_at s px py))
      × (pixel_at (surface_blend_rect s r color) px py
          ≡ (if inside r px py then blend_over (pixel_at s px py) color else pixel_at s px py))
unfolding surface_fill_rect surface_blend_rect
surface_rects-pixel s r color px py k p q u v = (
  draw_clipped-pixel (λ _. color) s r px py k p q u v,
  draw_clipped-pixel (λ p. blend_over p color) s r px py k p q u v,
)
