-- ===== src/Qoi/Signed.antt =====
-- Differences of bytes in img/qoi.c, on signed and unsigned characters.
use instagram_on_nt.Prelude.{ℕ, ◌+◌, ◌-◌, ◌*◌, ◌%◌, ◌≤◌, ◌<◌, ◌≡◌, arith, bit_and_63}
use instagram_on_nt.Prelude.Int.{
  ℤ, pos, pos_part, neg_part, ◌+ℤ◌, ◌-ℤ◌, uchar, schar, +ℤ_parts, -ℤ_parts, int_laws,
}
use instagram_on_nt.Qoi.{Pixel, bump, qoi_hash, biased}

-- The bytes of a pixel are bytes.
pub record IsPixel (p : Pixel) : Type 0 where
  pub r_byte : p.r < 256
  pub g_byte : p.g < 256
  pub b_byte : p.b < 256
  pub a_byte : p.a < 256

pub qoi_hash-lt : (p : Pixel) → IsPixel p → qoi_hash p < 64
unfolding qoi_hash
qoi_hash-lt p h = omega (arith, bit_and_63 (p.r * 3 + p.g * 5 + p.b * 7 + p.a * 11) (omega arith))

-- Adding the difference back gives the byte.
pub bump-schar : (x y : ℕ) → x < 256 → y < 256 → bump y (schar (pos x -ℤ pos y)) ≡ x
unfolding bump schar uchar ◌+ℤ◌ ◌-ℤ◌
bump-schar x y p q = ground arith

pub uchar_mod : (d : ℤ) → uchar d ≡ (pos_part d + 255 * neg_part d) % 256
unfolding uchar
uchar_mod d = omega arith

pub schar_mod :
    (d : ℤ) → (pos_part (schar d) + neg_part d) % 256 ≡ (pos_part d + neg_part (schar d)) % 256
unfolding schar uchar
schar_mod d = ground arith

-- The same through the green channel's difference.
pub bump-schar_via :
    (x y : ℕ) (v : ℤ) → x < 256 → bump y (v +ℤ schar (schar (pos x -ℤ pos y) -ℤ v)) ≡ x
unfolding bump
bump-schar_via x y v p =
    let d = pos x -ℤ pos y in
    let e = schar d -ℤ v in
    omega (
      arith,
      uchar_mod (pos y +ℤ (v +ℤ schar e)),
      +ℤ_parts (pos y) (v +ℤ schar e),
      +ℤ_parts v (schar e),
      schar_mod e,
      -ℤ_parts (schar d) v,
      schar_mod d,
      -ℤ_parts (pos x) (pos y),
    )

pub biased_lem : (v : ℤ) (k : ℕ) → neg_part v ≤ k → biased v k ≡ pos_part v + k - neg_part v
unfolding ◌+ℤ◌
biased_lem v k h = ground arith

pub unbias : (v : ℤ) (k : ℕ) → neg_part v ≤ k → pos (biased v k) -ℤ pos k ≡ v
unbias v k h = omega (int_laws, biased_lem v k h)

pub unbias_via : (u v : ℤ) (k : ℕ) → neg_part v ≤ k → u +ℤ pos (biased v k) -ℤ pos k ≡ u +ℤ v
unbias_via u v k h = omega (int_laws, biased_lem v k h)
