-- ===== src/Raster.antt =====
-- core/raster.h and core/raster.c: pixels as words and the surface that holds them.
pub mod Draw
pub mod Blit
pub mod Cover
pub mod Clip
pub mod Blend
use instagram_on_nt.Prelude.{
  ℕ, ◌+◌, ◌*◌, ◌/◌, ◌%◌, ◌^◌, ◌<◌, ◌≡◌, arith, List, Option, none, some, ◌||◌, replicate, ltb,
  if◌then◌else◌,
}
use instagram_on_nt.Prelude.Int.{ℤ, pos, pos_part, leb_ℤ}

-- A pixel is the word 0xAARRGGBB. The four bytes stand on disjoint bits, so `|` adds them.
unfoldable pub ras_argb : ℕ → ℕ → ℕ → ℕ → ℕ
ras_argb a r g b = a * 2 ^ 24 + r * 2 ^ 16 + g * 2 ^ 8 + b

unfoldable pub ras_rgb : ℕ → ℕ → ℕ → ℕ
unfolding ras_argb
ras_rgb r g b = ras_argb 0xFF r g b

unfoldable pub ras_a : ℕ → ℕ
ras_a p = p / 2 ^ 24 % 256

unfoldable pub ras_r : ℕ → ℕ
ras_r p = p / 2 ^ 16 % 256

unfoldable pub ras_g : ℕ → ℕ
ras_g p = p / 2 ^ 8 % 256

unfoldable pub ras_b : ℕ → ℕ
ras_b p = p % 256

-- `pixels` is the buffer from the surface's first pixel on, `stride` words to a row.
pub record Surface : Type 0 where
  pub pixels : List ℕ
  pub w : ℕ
  pub h : ℕ
  pub stride : ℕ
  pub owns : ℕ

-- `none` is the result -1. The heap is taken to have room.
unfoldable pub surface_alloc : ℤ → ℤ → Option Surface
surface_alloc w h =
    let w' = pos_part w in
    let h' = pos_part h in
    if leb_ℤ w (pos 0) || leb_ℤ h (pos 0)
    then none
    else if ltb (2 ^ 28) (w' * h')
    then none
    else some (record { pixels = replicate (w' * h') 0; w = w'; h = h'; stride = w'; owns = 1 })

-- Packing the four bytes of a word gives the word, and the bytes of a packed word are its parts.
pub argb_unpack : (p : ℕ) → p < 2 ^ 32 → ras_argb (ras_a p) (ras_r p) (ras_g p) (ras_b p) ≡ p
unfolding ras_argb ras_a ras_r ras_g ras_b
argb_unpack p h = omega arith
