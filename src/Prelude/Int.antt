-- ===== src/Prelude/Int.antt =====
-- Signed integers over the native numbers, under the library's names (its ℤ stands on the unary ℕ).
-- Sums and orders go through the two parts of an integer, which are numbers that `omega` reads.
use Prim.Native.Nat.{ℕ, suc, ◌+◌, ◌-◌, ◌*◌, ◌%◌, ◌^◌, ◌≤◌, ◌<◌}
use mathlib.Core.Path.{◌≡◌, ap, ◌∙◌}
use mathlib.Core.Bool.{Bool}
use native.Mathlib.Omega.{arith}
use instagram_on_nt.Prelude.Tests.{ltb, leb, ◌==◌, if◌then◌else◌}

-- `negsuc n` is -(n + 1).
pub data ℤ : Type 0 where
  pos : ℕ → ℤ
  negsuc : ℕ → ℤ

abbrev pub pos_part : ℤ → ℕ
pos_part (pos n) = n
pos_part (negsuc n) = 0

abbrev pub neg_part : ℤ → ℕ
neg_part (pos n) = 0
neg_part (negsuc n) = suc n

-- a - b, as an integer.
abbrev pub sub_ℕ : ℕ → ℕ → ℤ
sub_ℕ a b = if leb b a then pos (a - b) else negsuc (b - a - 1)

-- -n, as an integer.
abbrev pub neg : ℕ → ℤ
neg n = sub_ℕ 0 n

infixl 65 ◌+ℤ◌ ◌-ℤ◌
infixl 70 ◌*ℤ◌
infix 50 ◌≤ℤ◌ ◌<ℤ◌
unfoldable pub ◌+ℤ◌ : ℤ → ℤ → ℤ
a +ℤ b = sub_ℕ (pos_part a + pos_part b) (neg_part a + neg_part b)

unfoldable pub ◌-ℤ◌ : ℤ → ℤ → ℤ
a -ℤ b = sub_ℕ (pos_part a + neg_part b) (neg_part a + pos_part b)

unfoldable pub ◌*ℤ◌ : ℤ → ℤ → ℤ
a *ℤ b =
    sub_ℕ (pos_part a * pos_part b + neg_part a * neg_part b)
      (pos_part a * neg_part b + neg_part a * pos_part b)

abbrev pub ◌≤ℤ◌ : ℤ → ℤ → Type 0
a ≤ℤ b = pos_part a + neg_part b ≤ pos_part b + neg_part a

abbrev pub ◌<ℤ◌ : ℤ → ℤ → Type 0
a <ℤ b = pos_part a + neg_part b < pos_part b + neg_part a

abbrev pub ltb_ℤ : ℤ → ℤ → Bool
ltb_ℤ a b = ltb (pos_part a + neg_part b) (pos_part b + neg_part a)

abbrev pub leb_ℤ : ℤ → ℤ → Bool
leb_ℤ a b = leb (pos_part a + neg_part b) (pos_part b + neg_part a)

abbrev pub eqb_ℤ : ℤ → ℤ → Bool
eqb_ℤ a b = pos_part a + neg_part b == pos_part b + neg_part a

-- (unsigned char)d: the residue by 256.
unfoldable pub uchar : ℤ → ℕ
uchar d = (pos_part d + (256 - neg_part d % 256)) % 256

-- (signed char)d: the residue by 256 that lies in -128 .. 127.
unfoldable pub schar : ℤ → ℤ
unfolding uchar
schar d = if ltb (uchar d) 128 then pos (uchar d) else negsuc (255 - uchar d)

-- The residue by 2^32 of an integer, as `unsigned` and as `int`.
unfoldable pub uint32 : ℤ → ℕ
uint32 d = (pos_part d + (2 ^ 32 - neg_part d % 2 ^ 32)) % 2 ^ 32

unfoldable pub int32 : ℤ → ℤ
unfolding uint32
int32 d = if ltb (uint32 d) (2 ^ 31) then pos (uint32 d) else negsuc (2 ^ 32 - 1 - uint32 d)

pub int32_small : (d : ℤ) → pos_part d < 2 ^ 31 → neg_part d ≤ 2 ^ 31 → int32 d ≡ d
unfolding int32 uint32
int32_small d h k = ground arith

pub int32_range : (d : ℤ) → (pos_part (int32 d) < 2 ^ 31) × (neg_part (int32 d) ≤ 2 ^ 31)
unfolding int32 uint32
int32_range d = (ground arith, ground arith)

-- `+` and `-` of two operands of type `int`.
unfoldable pub add_int : ℤ → ℤ → ℤ
unfolding int32 ◌+ℤ◌
add_int a b = int32 (a +ℤ b)

unfoldable pub sub_int : ℤ → ℤ → ℤ
unfolding int32 ◌-ℤ◌
sub_int a b = int32 (a -ℤ b)

-- One lemma for each operation lets `omega` work with the operations shut, at any depth.
pub +ℤ_parts :
    (a b : ℤ)
    → pos_part (a +ℤ b) + neg_part a + neg_part b ≡ neg_part (a +ℤ b) + pos_part a + pos_part b
unfolding ◌+ℤ◌
+ℤ_parts a b = ground arith

pub -ℤ_parts :
    (a b : ℤ)
    → pos_part (a -ℤ b) + neg_part a + pos_part b ≡ neg_part (a -ℤ b) + pos_part a + neg_part b
unfolding ◌-ℤ◌
-ℤ_parts a b = ground arith

pub eq_of_parts : (a b : ℤ) → pos_part a + neg_part b ≡ pos_part b + neg_part a → a ≡ b
eq_of_parts a b h = ground arith

pub ruleset int_laws = (arith, +ℤ_parts, -ℤ_parts, eq_of_parts)

int32_eq : (a b : ℤ) → uint32 a ≡ uint32 b → int32 a ≡ int32 b
unfolding int32
int32_eq a b e = rw (e)

uint32_add_left : (a b : ℤ) → uint32 (int32 a +ℤ b) ≡ uint32 (a +ℤ b)
unfolding int32 uint32
uint32_add_left a b = ground (arith, +ℤ_parts a b, +ℤ_parts (int32 a) b)

+ℤ_comm : (a b : ℤ) → a +ℤ b ≡ b +ℤ a
+ℤ_comm a b = omega int_laws

+ℤ_assoc : (a b c : ℤ) → (a +ℤ b) +ℤ c ≡ a +ℤ (b +ℤ c)
+ℤ_assoc a b c = omega int_laws

int32_add_left : (a b : ℤ) → int32 (int32 a +ℤ b) ≡ int32 (a +ℤ b)
int32_add_left a b = int32_eq _ _ (uint32_add_left a b)

int32_add_right : (a b : ℤ) → int32 (a +ℤ int32 b) ≡ int32 (a +ℤ b)
int32_add_right a b = rw (+ℤ_comm a (int32 b), int32_add_left b a, +ℤ_comm b a)

pub add_int_assoc : (a b c : ℤ) → add_int (add_int a b) c ≡ add_int a (add_int b c)
unfolding add_int
add_int_assoc a b c = rw (int32_add_left (a +ℤ b) c, int32_add_right a (b +ℤ c), +ℤ_assoc a b c)

uint32_sub_left : (a b : ℤ) → uint32 (int32 a -ℤ b) ≡ uint32 (a -ℤ b)
unfolding int32 uint32
uint32_sub_left a b = ground (arith, -ℤ_parts a b, -ℤ_parts (int32 a) b)

-ℤ_pos : (a : ℤ) (m n : ℕ) → (a -ℤ pos m) -ℤ pos n ≡ a -ℤ pos (m + n)
-ℤ_pos a m n = omega int_laws

pub sub_int-pos : (a : ℤ) (m n : ℕ) → sub_int (sub_int a (pos m)) (pos n) ≡ sub_int a (pos (m + n))
unfolding sub_int
sub_int-pos a m n =
    int32_eq (int32 (a -ℤ pos m) -ℤ pos n) (a -ℤ pos m -ℤ pos n)
      (uint32_sub_left (a -ℤ pos m) (pos n))
    ∙ ap int32 (-ℤ_pos a m n)

pub add_int-pos : (a : ℤ) (m n : ℕ) → add_int (add_int a (pos m)) (pos n) ≡ add_int a (pos (m + n))
unfolding add_int uint32
add_int-pos a m n = ground arith

pub sub_int-add_int : (a : ℤ) (n : ℕ) → n < 2 ^ 31 → sub_int (add_int a (pos n)) a ≡ pos n
unfolding add_int sub_int uint32
sub_int-add_int a n h = ground arith

-- Where the sum lies in the range of `int` it does not wrap.
pub add_int_small :
    (a b : ℤ) → pos_part (a +ℤ b) < 2 ^ 31 → neg_part (a +ℤ b) ≤ 2 ^ 31 → add_int a b ≡ a +ℤ b
unfolding add_int
add_int_small a b h k = int32_small (a +ℤ b) h k

pub sub_int_small :
    (a b : ℤ) → pos_part (a -ℤ b) < 2 ^ 31 → neg_part (a -ℤ b) ≤ 2 ^ 31 → sub_int a b ≡ a -ℤ b
unfolding sub_int
sub_int_small a b h k = int32_small (a -ℤ b) h k
