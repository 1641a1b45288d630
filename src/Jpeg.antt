-- ===== src/Jpeg.antt =====
-- jpeg_decode of img/jpeg.c. stb_image is a parameter: what stbi_load_from_memory returns for the data
-- when four channels are asked for.
pub mod Pixels
use instagram_on_nt.Prelude.{ℕ, zero, suc, ◌+◌, ◌*◌, List, Option, none, some, get_or, set, drop}
use instagram_on_nt.Prelude.Int.{ℤ}
use instagram_on_nt.Raster.{Surface, surface_alloc, ras_argb}

-- `bytes` are the w * h pixels, row by row, four bytes to a pixel: R, G, B and A.
pub record Decoded : Type 0 where
  pub w : ℤ
  pub h : ℤ
  pub bytes : List ℕ

abbrev pub Stb : Type 0
Stb = List ℕ → Option Decoded

-- The pixel that the four bytes from `src` on make.
abbrev pub packed : List ℕ → ℕ
packed src = ras_argb (get_or src 3 0) (get_or src 0 0) (get_or src 1 0) (get_or src 2 0)

-- The inner loop: `n` pixels from the index `at` on. What `src` is after it, and the buffer.
unfoldable pub repack_row : ℕ → List ℕ → ℕ → List ℕ → List ℕ × List ℕ
unfolding ras_argb
repack_row zero src at px = (src, px)
repack_row (suc n) src at px = repack_row n (drop 4 src) (at + 1) (set px at (packed src))

-- The outer loop: `n` rows from the row `y` on.
unfoldable pub repack_rows : ℕ → ℕ → ℕ → ℕ → List ℕ → List ℕ → List ℕ
unfolding repack_row
repack_rows zero w stride y src px = px
repack_rows (suc n) w stride y src px =
    let r = repack_row w src (y * stride) px in repack_rows n w stride (y + 1) r.0 r.1

-- `out` after the repacking of an image into the surface that surface_alloc has made.
unfoldable pub repack : Decoded → Option Surface → Option Surface
unfolding repack_rows
repack d none = none
repack d (some s) = some (record s { pixels = repack_rows s.h s.w s.stride 0 d.bytes s.pixels })

-- `if (!pixels) return -1`
unfoldable pub decoded : Option Decoded → Option Surface
unfolding surface_alloc repack
decoded none = none
decoded (some d) = repack d (surface_alloc d.w d.h)

-- `none` is the result -1.
unfoldable pub jpeg_decode : Stb → List ℕ → Option Surface
unfolding decoded
jpeg_decode stb jpeg = decoded (stb jpeg)
