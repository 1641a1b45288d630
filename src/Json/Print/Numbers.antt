-- ===== src/Json/Print/Numbers.antt =====
-- Integers in decimal, read back by parse_number (core/json.c).
use instagram_on_nt.Prelude.{
  ℕ, ◌≡◌, refl, ap, ◌∙◌, arith, true, false, List, [], ◌∷◌, ◌++◌, append-nil,
}
use instagram_on_nt.Prelude.Result.{ok}
use instagram_on_nt.Json.Number.{
  Span, is_digit, digits, one, is_minus, is_dot, is_exp, fraction, exponent, number_text,
  parse_number, ◌⨾◌, no_number,
}

abbrev pub AllDigits : List ℕ → Type 0
AllDigits [] = Unit {0}
AllDigits (c ∷ s) = (is_digit c ≡ true) × AllDigits s

-- Digits, behind a minus or not.
pub data IsInteger : List ℕ → Type 0 where
  positive : (c : ℕ) (s : List ℕ) → is_digit c ≡ true → AllDigits s → IsInteger (c ∷ s)
  negative : (c : ℕ) (s : List ℕ) → is_digit c ≡ true → AllDigits s → IsInteger (b'-' ∷ c ∷ s)

-- What may stand behind a number without becoming part of it.
abbrev pub EndsNumber : List ℕ → Type 0
EndsNumber [] = Unit {0}
EndsNumber (c ∷ ts) = (is_digit c ≡ false) × (is_dot c ≡ false) × (is_exp c ≡ false)

digits-all : (s rest : List ℕ) → AllDigits s → EndsNumber rest → digits (s ++ rest) ≡ (s, rest)
unfolding digits
digits-all [] [] h e = refl
digits-all [] (c ∷ rest) h e = rw (e.0)
digits-all (c ∷ s) rest h e = rw (h.0) (ap (λ (p : Span). (c ∷ p.0, p.1)) (digits-all s rest h.1 e))

no_fraction : (rest : List ℕ) → EndsNumber rest → fraction rest ≡ ([], rest)
unfolding one
no_fraction [] e = refl
no_fraction (c ∷ rest) e = ground arith

no_exponent : (rest : List ℕ) → EndsNumber rest → exponent rest ≡ ([], rest)
unfolding one
no_exponent [] e = refl
no_exponent (c ∷ rest) e = ground arith

module _ (p q : List ℕ → Span) {ts a r b r' : List ℕ} where
  ⨾-eq : p ts ≡ (a, r) → q r ≡ (b, r') → (p ⨾ q) ts ≡ (a ++ b, r')
  ⨾-eq e f = rw (e, f)

-- Behind the digits there is neither a fraction nor an exponent.
digits_only :
    (s rest : List ℕ)
    → AllDigits s
    → EndsNumber rest
    → (digits ⨾ fraction ⨾ exponent) (s ++ rest) ≡ (s, rest)
digits_only s rest a e =
    ⨾-eq digits (fraction ⨾ exponent) (digits-all s rest a e)
      (⨾-eq fraction exponent (no_fraction rest e) (no_exponent rest e))
    ∙ ap (λ t. (t, rest)) (append-nil s)

number_text-IsInteger :
    {s : List ℕ} (rest : List ℕ)
    → IsInteger s
    → EndsNumber rest
    → number_text (s ++ rest) ≡ (s, rest)
unfolding number_text
number_text-IsInteger rest (positive c s h a) e =
    let t : one is_minus (c ∷ (s ++ rest)) ≡ ([], c ∷ (s ++ rest)) =
      unfold one is_digit in ground arith in
    ⨾-eq (one is_minus) (digits ⨾ fraction ⨾ exponent) t (digits_only (c ∷ s) rest (h, a) e)
number_text-IsInteger rest (negative c s h a) e =
    let t : one is_minus (b'-' ∷ c ∷ (s ++ rest)) ≡ (b'-' ∷ [], c ∷ (s ++ rest)) =
      unfold one in refl in
    ⨾-eq (one is_minus) (digits ⨾ fraction ⨾ exponent) t (digits_only (c ∷ s) rest (h, a) e)

IsInteger-number : {s : List ℕ} → IsInteger s → no_number s ≡ false
unfolding is_digit
IsInteger-number (positive c [] h a) = ground arith
IsInteger-number (positive c (d ∷ s) h a) = ground arith
IsInteger-number (negative c s h a) = ground arith

-- An integer is read back in front of anything that cannot belong to a number.
pub parse_number-IsInteger :
    {s : List ℕ} (rest : List ℕ)
    → IsInteger s
    → EndsNumber rest
    → parse_number (s ++ rest) ≡ ok (s, rest)
unfolding parse_number
parse_number-IsInteger rest i e = rw (number_text-IsInteger rest i e) (rw (IsInteger-number i))
