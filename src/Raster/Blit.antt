-- ===== src/Raster/Blit.antt =====
-- The blits of core/raster.c and its box filter.
use instagram_on_nt.Prelude.{
  ℕ, zero, suc, ◌+◌, ◌-◌, ◌*◌, ◌/◌, ◌%◌, ◌^◌, ◌==◌, ◌||◌, List, Option, none, some, leb, get_or,
  set, if◌then◌else◌, min,
}
use instagram_on_nt.Prelude.Int.{ℤ, pos, pos_part, ◌+ℤ◌, ◌-ℤ◌, ltb_ℤ, leb_ℤ, int32}
use instagram_on_nt.Raster.{Surface, ras_argb, ras_a, ras_r, ras_g, ras_b}
use instagram_on_nt.Raster.Draw.{Rect, blend_over}

-- One axis of a blit: the target's and the source's coordinate, and the extent.
pub record Overlap : Type 0 where
  pub d : ℤ
  pub s : ℤ
  pub n : ℤ

-- `if (s < 0) { d -= s; n += s; s = 0; } if (s + n > limit) n = limit - s;`
unfoldable pub clip_source : ℕ → Overlap → Overlap
clip_source limit v =
    let v =
      (if ltb_ℤ v.s (pos 0)
        then record { d = int32 (v.d -ℤ v.s); s = pos 0; n = int32 (v.n +ℤ v.s) }
        else v) in
    if ltb_ℤ (pos limit) (int32 (v.s +ℤ v.n)) then record v { n = int32 (pos limit -ℤ v.s) } else v

-- `if (d < 0) { s -= d; n += d; d = 0; } if (d + n > limit) n = limit - d;`
unfoldable pub clip_target : ℕ → Overlap → Overlap
clip_target limit v =
    let v =
      (if ltb_ℤ v.d (pos 0)
        then record { d = pos 0; s = int32 (v.s -ℤ v.d); n = int32 (v.n +ℤ v.d) }
        else v) in
    if ltb_ℤ (pos limit) (int32 (v.d +ℤ v.n)) then record v { n = int32 (pos limit -ℤ v.d) } else v

-- `for (x) drow[x] = f(drow[x], srow[x])` over `n` words.
unfoldable pub copy_row : (ℕ → ℕ → ℕ) → List ℕ → List ℕ → ℕ → ℕ → ℕ → List ℕ
copy_row f src dst i j zero = dst
copy_row f src dst i j (suc n) =
    copy_row f src (set dst j (f (get_or dst j 0) (get_or src i 0))) (i + 1) (j + 1) n

-- The rows from `sy` and `dy` on.
unfoldable pub copy_rows : (ℕ → ℕ → ℕ) → Surface → ℕ → ℕ → List ℕ → ℕ → ℕ → ℕ → ℕ → ℕ → List ℕ
unfolding copy_row
copy_rows f src sx sy dst stride dx dy w zero = dst
copy_rows f src sx sy dst stride dx dy w (suc h) =
    copy_rows f src sx (sy + 1)
      (copy_row f src.pixels dst (sy * src.stride + sx) (dy * stride + dx) w) stride dx (dy + 1) w h

unfoldable pub copy_clipped : (ℕ → ℕ → ℕ) → Surface → Surface → Overlap → Overlap → Surface
unfolding copy_rows
copy_clipped f dst src x y = if leb_ℤ x.n (pos 0) || leb_ℤ y.n (pos 0) then dst else record dst {
  pixels =
      copy_rows f src (pos_part x.s) (pos_part y.s) dst.pixels dst.stride (pos_part x.d)
        (pos_part y.d) (pos_part x.n) (pos_part y.n);
}

abbrev pub whole : Surface → Rect
whole s = record { x = pos 0; y = pos 0; w = pos s.w; h = pos s.h }

-- `srcrect ? *srcrect : (Rect){ 0, 0, src->w, src->h }`
abbrev pub source_rect : Surface → Option Rect → Rect
source_rect src none = whole src
source_rect src (some r) = r

-- `srcrect` is none for NULL. The two surfaces are taken to share no memory, as memcpy asks.
unfoldable pub surface_blit : Surface → ℤ → ℤ → Surface → Option Rect → Surface
unfolding clip_source clip_target copy_clipped
surface_blit dst dx dy src srcrect =
    let sr = source_rect src srcrect in
    let x = clip_source src.w (record { d = dx; s = sr.x; n = sr.w }) in
    let y = clip_source src.h (record { d = dy; s = sr.y; n = sr.h }) in
    if leb_ℤ x.n (pos 0) || leb_ℤ y.n (pos 0)
    then dst
    else copy_clipped (λ _ p. p) dst src (clip_target dst.w x) (clip_target dst.h y)

unfoldable pub surface_blit_alpha : Surface → ℤ → ℤ → Surface → Surface
unfolding clip_target copy_clipped blend_over
surface_blit_alpha dst dx dy src =
    copy_clipped blend_over dst src
      (clip_target dst.w (record { d = dx; s = pos 0; n = pos src.w }))
      (clip_target dst.h (record { d = dy; s = pos 0; n = pos src.h }))

-- The sums of the box filter.
pub record Sums : Type 0 where
  pub ar : ℕ
  pub ag : ℕ
  pub ab : ℕ
  pub aa : ℕ
  pub n : ℕ

-- The sums are `uint32_t`.
unfoldable pub add_pixel : Sums → ℕ → Sums
unfolding ras_a ras_r ras_g ras_b
add_pixel t p = record {
  ar = (t.ar + ras_r p) % 2 ^ 32;
  ag = (t.ag + ras_g p) % 2 ^ 32;
  ab = (t.ab + ras_b p) % 2 ^ 32;
  aa = (t.aa + ras_a p) % 2 ^ 32;
  n = (t.n + 1) % 2 ^ 32;
}

unfoldable pub sum_row : List ℕ → ℕ → ℕ → Sums → Sums
unfolding add_pixel
sum_row ps i zero t = t
sum_row ps i (suc n) t = sum_row ps (i + 1) n (add_pixel t (get_or ps i 0))

unfoldable pub sum_box : Surface → ℕ → ℕ → ℕ → ℕ → Sums → Sums
unfolding sum_row
sum_box src sx sy w zero t = t
sum_box src sx sy w (suc h) t =
    sum_box src sx (sy + 1) w h (sum_row src.pixels (sy * src.stride + sx) w t)

-- From and to which source coordinate the target coordinate `d` reaches. The products are 64-bit.
unfoldable pub box_from : ℕ → ℕ → ℕ → ℕ
box_from d n m = d * n / m

unfoldable pub box_to : ℕ → ℕ → ℕ → ℕ
unfolding box_from
box_to d n m =
    let e = (d + 1) * n / m in min n (if leb e (box_from d n m) then box_from d n m + 1 else e)

unfoldable pub average : Sums → ℕ
unfolding ras_argb
average t =
    let n = if t.n == 0 then 1 else t.n in
    ras_argb (t.aa / n % 256) (t.ar / n % 256) (t.ag / n % 256) (t.ab / n % 256)

-- The word that is written at a target's coordinates.
unfoldable pub box_pixel : Surface → Surface → ℕ → ℕ → ℕ
unfolding box_from box_to sum_box average
box_pixel dst src dx dy =
    let x = box_from dx src.w dst.w in
    let y = box_from dy src.h dst.h in
    average (
      sum_box src x y (box_to dx src.w dst.w - x) (box_to dy src.h dst.h - y)
        (record { ar = 0; ag = 0; ab = 0; aa = 0; n = 0 }))

unfoldable pub scale_row : Surface → Surface → List ℕ → ℕ → ℕ → ℕ → List ℕ
unfolding box_pixel
scale_row dst src ps dx dy zero = ps
scale_row dst src ps dx dy (suc n) =
    scale_row dst src (set ps (dy * dst.stride + dx) (box_pixel dst src dx dy)) (dx + 1) dy n

unfoldable pub scale_rows : Surface → Surface → List ℕ → ℕ → ℕ → List ℕ
unfolding scale_row
scale_rows dst src ps dy zero = ps
scale_rows dst src ps dy (suc n) = scale_rows dst src (scale_row dst src ps 0 dy dst.w) (dy + 1) n

unfoldable pub surface_downscale : Surface → Surface → Surface
unfolding scale_rows
surface_downscale dst src =
    if dst.w == 0 || (dst.h == 0 || (src.w == 0 || src.h == 0))
    then dst
    else record dst { pixels = scale_rows dst src dst.pixels 0 dst.h }
