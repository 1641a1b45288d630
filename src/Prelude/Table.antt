-- ===== src/Prelude/Table.antt =====
-- Bit operations of C on small operands, as arithmetic. The facts are read off tables that are
-- evaluated entry by entry.
use Prim.Native.Nat.{ℕ, zero, suc, ◌+◌, ◌*◌, ◌/◌, ◌%◌, ◌<◌, bit_and, bit_or}
use mathlib.Core.Path.{◌≡◌, refl}
use mathlib.Core.Bool.{Bool, true, ◌&&◌}
use native.Mathlib.Omega.{arith}
use instagram_on_nt.Prelude.Tests.{◌==◌, ==_iff}

-- Two functions agree at each of the first `n` numbers.
unfoldable pub tabulated : (f g : ℕ → ℕ) → ℕ → Bool
tabulated f g zero = true
tabulated f g (suc n) = f n == g n && tabulated f g n

pub agree : (n : ℕ) (f g : ℕ → ℕ) → tabulated f g n ≡ true → (x : ℕ) → x < n → f x ≡ g x
unfolding tabulated
agree zero f g t x h = absurd (omega arith)
agree (suc n) f g t x h =
    let below : tabulated f g n ≡ true → x < n → f x ≡ g x = λ u v. agree n f g u x v in
    let at : (f n == g n) ≡ true → f n ≡ g n = (==_iff (f n) (g n)).0 in ground (arith, below, at)

t_top : tabulated (λ x. bit_and x 0xC0) (λ x. x / 64 * 64) 256 ≡ true
unfolding tabulated
t_top = refl

-- x & 0xC0 keeps the top two bits of a byte.
pub bit_and_top2 : (x : ℕ) → x < 256 → bit_and x 0xC0 ≡ x / 64 * 64
bit_and_top2 = agree 256 (λ x. bit_and x 0xC0) (λ x. x / 64 * 64) t_top

t_63 : tabulated (λ x. bit_and x 63) (λ x. x % 64) 7000 ≡ true
unfolding tabulated
t_63 = refl

pub bit_and_63 : (x : ℕ) → x < 7000 → bit_and x 63 ≡ x % 64
bit_and_63 = agree 7000 (λ x. bit_and x 63) (λ x. x % 64) t_63

t_3 : tabulated (λ x. bit_and x 3) (λ x. x % 4) 256 ≡ true
unfolding tabulated
t_3 = refl

pub bit_and_3 : (x : ℕ) → x < 256 → bit_and x 3 ≡ x % 4
bit_and_3 = agree 256 (λ x. bit_and x 3) (λ x. x % 4) t_3

t_15 : tabulated (λ x. bit_and x 15) (λ x. x % 16) 256 ≡ true
unfolding tabulated
t_15 = refl

pub bit_and_15 : (x : ℕ) → x < 256 → bit_and x 15 ≡ x % 16
bit_and_15 = agree 256 (λ x. bit_and x 15) (λ x. x % 16) t_15

t_or_run : tabulated (λ x. bit_or 0xC0 x) (λ x. 192 + x) 64 ≡ true
unfolding tabulated
t_or_run = refl

pub bit_or_run : (x : ℕ) → x < 64 → bit_or 0xC0 x ≡ 192 + x
bit_or_run = agree 64 (λ x. bit_or 0xC0 x) (λ x. 192 + x) t_or_run

t_or_luma : tabulated (λ x. bit_or 0x80 x) (λ x. 128 + x) 64 ≡ true
unfolding tabulated
t_or_luma = refl

pub bit_or_luma : (x : ℕ) → x < 64 → bit_or 0x80 x ≡ 128 + x
bit_or_luma = agree 64 (λ x. bit_or 0x80 x) (λ x. 128 + x) t_or_luma

t_or_index : tabulated (λ x. bit_or 0 x) (λ x. x) 64 ≡ true
unfolding tabulated
t_or_index = refl

pub bit_or_index : (x : ℕ) → x < 64 → bit_or 0 x ≡ x
bit_or_index = agree 64 (λ x. bit_or 0 x) (λ x. x) t_or_index

t_or_nibbles : tabulated (λ x. bit_or (x / 16 * 16) (x % 16)) (λ x. x) 256 ≡ true
unfolding tabulated
t_or_nibbles = refl

-- (hi << 4) | lo of two nibbles.
pub bit_or_nibbles : (hi lo : ℕ) → hi < 16 → lo < 16 → bit_or (hi * 16) lo ≡ hi * 16 + lo
bit_or_nibbles hi lo p q =
    let e =
      agree 256 (λ x. bit_or (x / 16 * 16) (x % 16)) (λ x. x) t_or_nibbles (hi * 16 + lo)
        (omega arith) in
    let a : (hi * 16 + lo) / 16 ≡ hi = omega arith in
    let b : (hi * 16 + lo) % 16 ≡ lo = omega arith in ground (arith, e, a, b)

t_or_diff :
    tabulated
      (λ x. bit_or (bit_or (bit_or 0x40 (x / 16 * 16)) (x / 4 % 4 * 4)) (x % 4))
      (λ x. 64 + x)
      64
    ≡ true
unfolding tabulated
t_or_diff = refl

-- 0x40 | (x << 4) | (y << 2) | z of three two-bit fields.
pub bit_or_diff :
    (x y z : ℕ)
    → x < 4
    → y < 4
    → z < 4
    → bit_or (bit_or (bit_or 0x40 (x * 16)) (y * 4)) z ≡ 64 + x * 16 + y * 4 + z
bit_or_diff x y z p q r =
    let n = x * 16 + y * 4 + z in
    let e =
      agree 64 (λ x. bit_or (bit_or (bit_or 0x40 (x / 16 * 16)) (x / 4 % 4 * 4)) (x % 4))
        (λ x. 64 + x) t_or_diff n (omega arith) in
    let a : n / 16 ≡ x = omega arith in
    let b : n / 4 % 4 ≡ y = omega arith in
    let c : n % 4 ≡ z = omega arith in ground (arith, e, a, b, c)
