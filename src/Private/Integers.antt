-- ===== src/Private/Integers.antt =====
-- The numbers in the body of a timeline request of net/ig_private.c are integers of JSON.
use instagram_on_nt.Prelude.{
  ℕ, zero, suc, ◌+◌, ◌-◌, ◌/◌, ◌%◌, ◌^◌, ◌<◌, ◌≤◌, ◌≡◌, refl, sym, ap, ◌∙◌, arith, ◌==◌, true,
  false, List, [], ◌∷◌, Option, if_elim, length, take_all,
}
use mathlib.Core.Path.{subst}
use instagram_on_nt.Http.{put_uint, put_digits}
use instagram_on_nt.Http.Decimal.{put_uint-length}
use instagram_on_nt.Json.Number.{is_digit}
use instagram_on_nt.Json.Print.Numbers.{AllDigits, IsInteger, positive}
use instagram_on_nt.Platform.Numbers.{printed-d}
use instagram_on_nt.Private.{ig_rand_range, ig_random_bytes, word_of}
use instagram_on_nt.Private.Body.{printed_int}

digit_is_digit : (d : ℕ) → d < 10 → is_digit (b'0' + d) ≡ true
unfolding is_digit
digit_is_digit d h = ground arith

put_digits-AllDigits : (fuel v : ℕ) (s : List ℕ) → AllDigits s → AllDigits (put_digits fuel v s)
unfolding put_digits
put_digits-AllDigits zero v s h = h
put_digits-AllDigits (suc fuel) v s h =
    if_elim AllDigits (v == 0) (λ _. h)
      (λ _.
        put_digits-AllDigits fuel (v / 10) ((b'0' + v % 10) ∷ s)
          (digit_is_digit (v % 10) (omega arith), h))

put_digits-longer : (fuel v : ℕ) (s : List ℕ) → length s ≤ length (put_digits fuel v s)
unfolding put_digits
put_digits-longer zero v s = omega arith
put_digits-longer (suc fuel) v s =
    if_elim (λ (t : List ℕ). length s ≤ length t) (v == 0) (λ _. omega arith)
      (λ _. omega (arith, put_digits-longer fuel (v / 10) ((b'0' + v % 10) ∷ s)))

AllDigits-IsInteger : (s : List ℕ) → AllDigits s → 0 < length s → IsInteger s
AllDigits-IsInteger [] h p = absurd (omega arith)
AllDigits-IsInteger (c ∷ s) h p = positive c s h.0 h.1

put_uint-IsInteger : (v : ℕ) → IsInteger (put_uint v)
unfolding put_uint put_digits
put_uint-IsInteger zero = positive b'0' [] (unfold is_digit in refl) tt
put_uint-IsInteger (suc v) =
    let s = (b'0' + suc v % 10) ∷ [] in
    let some_left : (suc v == 0) ≡ false = ground arith in
    rw some_left (
      AllDigits-IsInteger (put_digits v (suc v / 10) s)
        (put_digits-AllDigits v (suc v / 10) s (digit_is_digit (suc v % 10) (omega arith), tt))
        (omega (arith, put_digits-longer v (suc v / 10) s)))

printed_int-put_uint :
    (size v : ℕ)
    → size < 2 ^ 31
    → v < 2 ^ 31
    → length (put_uint v) < size
    → printed_int size v ≡ put_uint v
unfolding printed_int
printed_int-put_uint size v small h l =
    ap (λ (r : List ℕ × ℕ). r.0) (printed-d size v small h)
    ∙ take_all (size - 1) (put_uint v) (omega arith)

pub printed_int-IsInteger : (v : ℕ) → v < 2 ^ 31 → IsInteger (printed_int 16 v)
printed_int-IsInteger v h =
    subst IsInteger
      (sym (
        printed_int-put_uint 16 v (omega arith) h (omega (arith, put_uint-length v (omega arith)))))
      (put_uint-IsInteger v)

-- A value of ig_rand_range lies in the range.
pub ig_rand_range-range :
    (random : Option (List ℕ)) (lo hi : ℕ)
    → lo ≤ hi
    → hi < 2 ^ 31
    → (lo ≤ ig_rand_range random lo hi) × (ig_rand_range random lo hi ≤ hi)
unfolding ig_rand_range
ig_rand_range-range random lo hi h k =
    let v = word_of (ig_random_bytes random 4) in
    let n : (hi + 2 ^ 32 - lo + 1) % 2 ^ 32 ≡ hi - lo + 1 = omega arith in rw n (grind arith)

flag_text : (v : ℕ) → v ≤ 1 → IsInteger (printed_int 4 v)
flag_text zero h =
    subst IsInteger
      (sym (printed_int-put_uint 4 0 (omega arith) (omega arith) (unfold put_uint in omega arith)))
      (put_uint-IsInteger 0)
flag_text (suc zero) h =
    subst IsInteger
      (sym (
        printed_int-put_uint 4 1 (omega arith) (omega arith)
          (unfold put_uint put_digits in omega arith)))
      (put_uint-IsInteger 1)
flag_text (suc (suc v)) h = absurd (omega arith)

pub sound_text-IsInteger :
    (sound : Option (List ℕ)) → IsInteger (printed_int 4 (ig_rand_range sound 0 1))
sound_text-IsInteger sound =
    flag_text (ig_rand_range sound 0 1)
      (ig_rand_range-range sound 0 1 (omega arith) (omega arith)).1
