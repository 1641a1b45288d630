-- ===== src/Http/Decimal.antt =====
-- Decimal numbers of core/http.c: what put_uint writes, parse_long reads.
use instagram_on_nt.Prelude.{
  ℕ, zero, suc, ◌+◌, ◌-◌, ◌*◌, ◌/◌, ◌%◌, ◌^◌, ◌≤◌, ◌<◌, ◌≡◌, refl, ap, ◌∙◌, arith, ◌==◌, Bool, true,
  false, List, [], ◌∷◌, ◌++◌, leb, if◌then◌else◌, if_elim, length,
}
use instagram_on_nt.Prelude.Int.{pos, int32, int32_small}
use instagram_on_nt.Http.{
  put_digits, put_uint, long_loop, signed_long, parse_long, skip_blanks, is_blank, is_decimal,
}

-- The text in front of which a number stands does not start with a digit.
pub data EndsDigits : List ℕ → Type 0 where
  at_end : EndsDigits []
  at_byte : {c : ℕ} {s : List ℕ} → is_decimal c ≡ false → EndsDigits (c ∷ s)

long_loop-EndsDigits : (n : ℕ) {s : List ℕ} → EndsDigits s → long_loop n s ≡ n
unfolding long_loop
long_loop-EndsDigits n at_end = refl
long_loop-EndsDigits n (at_byte e) = rw e

long_loop-digit :
    (n d : ℕ) (s : List ℕ)
    → d < 10
    → long_loop n ((b'0' + d) ∷ s) ≡ long_loop ((n * 10 + d) % 2 ^ 32) s
unfolding long_loop is_decimal
long_loop-digit n d s h =
    let a : leb 48 (48 + d) ≡ true = ground arith in
    let b : leb (48 + d) 57 ≡ true = ground arith in
    let e : 48 + d - 48 ≡ d = omega arith in rw (a, b, e)

long_loop-put_digits :
    (fuel v : ℕ) (s : List ℕ)
    → v ≤ fuel
    → v < 2 ^ 32
    → long_loop 0 (put_digits fuel v s) ≡ long_loop v s
unfolding put_digits
long_loop-put_digits zero v s h k = let e : 0 ≡ v = omega arith in ap (λ n. long_loop n s) e
long_loop-put_digits (suc fuel) v s h k =
    if_elim (λ t. long_loop 0 t ≡ long_loop v s) (v == 0)
      (λ e. let z : 0 ≡ v = ground arith in ap (λ n. long_loop n s) z)
      (λ e.
        let m : (v / 10 * 10 + v % 10) % 2 ^ 32 ≡ v = omega arith in
        long_loop-put_digits fuel (v / 10) ((b'0' + v % 10) ∷ s) (ground arith) (omega arith)
        ∙ long_loop-digit (v / 10) (v % 10) s (omega arith)
        ∙ ap (λ n. long_loop n s) m)

-- The first byte is a digit.
pub data StartsDigit : List ℕ → Type 0 where
  digit : {c : ℕ} {s : List ℕ} → b'0' ≤ c → c ≤ b'9' → StartsDigit (c ∷ s)

put_digits-StartsDigit :
    (fuel v : ℕ) (s : List ℕ)
    → (v ≡ 0 → StartsDigit s)
    → v ≤ fuel
    → StartsDigit (put_digits fuel v s)
unfolding put_digits
put_digits-StartsDigit zero v s o h = o (omega arith)
put_digits-StartsDigit (suc fuel) v s o h =
    if_elim StartsDigit (v == 0) (λ e. o (ground arith))
      (λ e.
        put_digits-StartsDigit fuel (v / 10) ((b'0' + v % 10) ∷ s)
          (λ _. digit (omega arith) (omega arith)) (ground arith))

parse_long-StartsDigit : {s : List ℕ} → StartsDigit s → parse_long s ≡ int32 (pos (long_loop 0 s))
unfolding parse_long signed_long skip_blanks is_blank
parse_long-StartsDigit (digit {c = c} {s = s} p q) =
    let a : (c == 32) ≡ false = ground arith in
    let b : (c == 9) ≡ false = ground arith in
    let d : (c == 45) ≡ false = ground arith in
    let e : (c == 43) ≡ false = ground arith in rw (a, b, d, e)

-- The digits of a nonzero number, and what they start with.
put_uint-nonzero : (v : ℕ) → 0 < v → put_uint v ≡ put_digits v v []
unfolding put_uint
put_uint-nonzero v h = let e : (v == 0) ≡ false = ground arith in rw e

if_append : (b : Bool) (x y t : List ℕ) → (if b then x else y) ++ t ≡ (if b then x ++ t else y ++ t)
if_append true x y t = refl
if_append false x y t = refl

put_uint-zero : put_uint 0 ≡ b'0' ∷ []
unfolding put_uint
put_uint-zero = refl

put_digits-append :
    (fuel v : ℕ) (s t : List ℕ) → put_digits fuel v s ++ t ≡ put_digits fuel v (s ++ t)
unfolding put_digits
put_digits-append zero v s t = refl
put_digits-append (suc fuel) v s t =
    if_append (v == 0) s (put_digits fuel (v / 10) ((b'0' + v % 10) ∷ s)) t
    ∙ ap (λ u. if v == 0 then s ++ t else u)
        (put_digits-append fuel (v / 10) ((b'0' + v % 10) ∷ s) t)

-- A number of at most 31 bits that put_uint writes, in front of a text that starts with no digit, is
-- read back by parse_long.
pub parse_long-put_uint :
    (v : ℕ) (t : List ℕ) → v < 2 ^ 31 → EndsDigits t → parse_long (put_uint v ++ t) ≡ pos v
parse_long-put_uint zero t h e =
    ap (λ s. parse_long (s ++ t)) put_uint-zero
    ∙ parse_long-StartsDigit (digit (omega arith) (omega arith))
    ∙ ap (λ m. int32 (pos m)) (long_loop-digit 0 0 t (omega arith) ∙ long_loop-EndsDigits 0 e)
    ∙ int32_small (pos 0) (omega arith) (omega arith)
parse_long-put_uint (suc n) t h e =
    let v = suc n in
    ap (λ s. parse_long (s ++ t)) (put_uint-nonzero v (omega arith))
    ∙ ap parse_long (put_digits-append v v [] t)
    ∙ parse_long-StartsDigit
        (put_digits-StartsDigit v v t (λ z. absurd (omega arith)) (omega arith))
    ∙ ap (λ m. int32 (pos m))
        (long_loop-put_digits v v t (omega arith) (omega arith) ∙ long_loop-EndsDigits v e)
    ∙ int32_small (pos v) (omega arith) (omega arith)

-- put_uint writes at most as many digits as bound its argument.
put_digits-length :
    (fuel k v : ℕ) (s : List ℕ) → v < 10 ^ k → length (put_digits fuel v s) ≤ k + length s
unfolding put_digits
put_digits-length zero k v s h = omega arith
put_digits-length (suc fuel) zero v s h =
    if_elim (λ (t : List ℕ). length t ≤ 0 + length s) (v == 0) (λ e. omega arith)
      (λ e. absurd (ground arith))
put_digits-length (suc fuel) (suc k) v s h =
    if_elim (λ (t : List ℕ). length t ≤ suc k + length s) (v == 0) {x = s} (λ e. omega arith)
      (λ e. omega (arith, put_digits-length fuel k (v / 10) ((b'0' + v % 10) ∷ s) (omega arith)))

-- put_uint writes at most 10 bytes of an `unsigned`, which fit its 12-byte buffer.
pub put_uint-length : (v : ℕ) → v < 2 ^ 32 → length (put_uint v) ≤ 10
unfolding put_uint
put_uint-length v h =
    if_elim (λ (t : List ℕ). length t ≤ 10) (v == 0) {x = b'0' ∷ []} (λ e. omega arith)
      (λ e. omega (arith, put_digits-length v 10 v [] (omega arith)))
