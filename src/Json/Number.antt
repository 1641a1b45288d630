-- ===== src/Json/Number.antt =====
-- core/json.c: numbers, kept as text, and their value as an integer.
use instagram_on_nt.Prelude.{
  ℕ, ◌+◌, ◌-◌, ◌*◌, ◌%◌, ◌^◌, ◌==◌, ◌||◌, ◌&&◌, Bool, true, false, List, [], ◌∷◌, ◌++◌, leb,
  if◌then◌else◌, length, get_or,
}
use instagram_on_nt.Prelude.Result.{Result, ok, failed}
use instagram_on_nt.Prelude.Int.{ℤ, pos, neg, int32}

unfoldable pub is_digit : ℕ → Bool
is_digit c = leb b'0' c && leb c b'9'

-- What a pointer passes over, and what is left.
abbrev pub Span : Type 0
Span = List ℕ × List ℕ

-- `while (p < end && is_digit(*p)) p++`
unfoldable pub digits : List ℕ → Span
unfolding is_digit
digits [] = ([], [])
digits (c ∷ rest) = if is_digit c then (c ∷ (digits rest).0, (digits rest).1) else ([], c ∷ rest)

-- `if (p < end && test(*p)) p++`
unfoldable pub one : (ℕ → Bool) → List ℕ → Span
one test [] = ([], [])
one test (c ∷ rest) = if test c then (c ∷ [], rest) else ([], c ∷ rest)

-- Passes over what `p` does, then over what `q` does.
abbrev pub ◌⨾◌ : (List ℕ → Span) → (List ℕ → Span) → List ℕ → Span
◌⨾◌ p q ts = let (a, r) = p ts in let (b, r') = q r in (a ++ b, r')

infixr 60 ◌⨾◌
-- The same, if there was something for `p`.
abbrev pub if_some : (List ℕ → Span) → (List ℕ → Span) → List ℕ → Span
if_some p q ts = elim ((p ts).0) [ [] ↦ ([], ts) | c ∷ cs ↦ (p ⨾ q) ts ]

abbrev pub is_minus : ℕ → Bool
is_minus c = c == b'-'

abbrev pub is_exp : ℕ → Bool
is_exp c = c == b'e' || c == b'E'

abbrev pub is_sign : ℕ → Bool
is_sign c = c == b'+' || c == b'-'

abbrev pub is_dot : ℕ → Bool
is_dot c = c == b'.'

-- `if (*x->p == '.') { p++; digits }` and `if (*x->p is e or E) { p++; sign; digits }`
abbrev pub fraction : List ℕ → Span
fraction = if_some (one is_dot) digits

abbrev pub exponent : List ℕ → Span
exponent = if_some (one is_exp) (one is_sign ⨾ digits)

-- The text that parse_number passes over.
unfoldable pub number_text : List ℕ → Span
number_text = one is_minus ⨾ digits ⨾ fraction ⨾ exponent

-- `n == 0 || (n == 1 && s[0] == '-')`
abbrev pub no_number : List ℕ → Bool
no_number s = length s == 0 || (length s == 1 && get_or s 0 0 == b'-')

unfoldable pub parse_number : List ℕ → Result (List ℕ × List ℕ)
parse_number ts = let (s, rest) = number_text ts in if no_number s then failed else ok (s, rest)

-- `while (*s >= '0' && *s <= '9') n = n * 10 + (*s - '0')` in 32 bits, up to the text's end.
unfoldable pub int_loop : ℕ → List ℕ → ℕ
int_loop n [] = n
int_loop n (c ∷ s) = elim (is_digit c) [
  | true ↦ int_loop ((n * 10 + (c - b'0')) % 2 ^ 32) s
  | false ↦ n
]

-- The value of a number's text, as a `long` of 32 bits.
unfoldable pub int_text : List ℕ → ℤ
unfolding int_loop is_digit
int_text [] = pos 0
int_text (c ∷ s) =
    if is_minus c then int32 (neg (int_loop 0 s)) else int32 (pos (int_loop 0 (c ∷ s)))
