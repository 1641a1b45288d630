-- ===== src/Json/Print/Starts.antt =====
-- The first byte of a printed value (core/json.c's switch looks at it).
use instagram_on_nt.Prelude.{ℕ, ◌≡◌, refl, ap, arith, ◌==◌, true, false, List, ◌∷◌, ◌++◌}
use instagram_on_nt.Json.{Value, null, bool, num, str, arr, obj}
use instagram_on_nt.Json.Text.{skip_ws, is_ws, starts}
use instagram_on_nt.Json.Number.{is_digit}
use instagram_on_nt.Json.Print.{print, Integers}
use instagram_on_nt.Json.Print.Strings.{quote}
use instagram_on_nt.Json.Print.Numbers.{IsInteger, positive, negative}

-- A printed value begins with a byte that is neither white space nor a closing bracket.
pub record Starts (ts : List ℕ) : Type 0 where
  pub first : ℕ
  pub others : List ℕ
  pub text : ts ≡ first ∷ others
  pub solid : is_ws first ≡ false
  pub no_bracket : (first == b']') ≡ false
  pub no_brace : (first == b'}') ≡ false

pub Starts-append : (ts us : List ℕ) → Starts ts → Starts (ts ++ us)
Starts-append ts us s = record {
  first = s.first;
  others = s.others ++ us;
  text = ap (λ t. t ++ us) s.text;
  solid = s.solid;
  no_bracket = s.no_bracket;
  no_brace = s.no_brace;
}

Starts-with :
    (c : ℕ) (s : List ℕ)
    → is_ws c ≡ false
    → (c == b']') ≡ false
    → (c == b'}') ≡ false
    → Starts (c ∷ s)
Starts-with c s w b b' = record {
  first = c;
  others = s;
  text = refl;
  solid = w;
  no_bracket = b;
  no_brace = b';
}

digit-Starts : (c : ℕ) (s : List ℕ) → is_digit c ≡ true → Starts (c ∷ s)
unfolding is_digit is_ws
digit-Starts c s h = Starts-with c s (ground arith) (ground arith) (ground arith)

pub IsInteger-Starts : {s : List ℕ} → IsInteger s → Starts s
unfolding is_ws
IsInteger-Starts (positive c s h a) = digit-Starts c s h
IsInteger-Starts (negative c s h a) = Starts-with b'-' (c ∷ s) refl refl refl

pub quote-Starts : (s : List ℕ) → Starts (quote s)
unfolding quote is_ws
quote-Starts s = Starts-with b'"' _ refl refl refl

pub print-Starts : (v : Value) → Integers v → Starts (print v)
unfolding print is_ws
print-Starts null h = Starts-with _ _ refl refl refl
print-Starts (bool true) h = Starts-with _ _ refl refl refl
print-Starts (bool false) h = Starts-with _ _ refl refl refl
print-Starts (num s) h = IsInteger-Starts h
print-Starts (str s) h = quote-Starts s
print-Starts (arr xs) h = Starts-with _ _ refl refl refl
print-Starts (obj fs) h = Starts-with _ _ refl refl refl

pub skip_ws-Starts : (ts : List ℕ) → Starts ts → skip_ws ts ≡ ts
unfolding skip_ws
skip_ws-Starts ts s = rw (s.text) (rw (s.solid))

pub starts_bracket : (ts : List ℕ) → Starts ts → starts b']' ts ≡ false
unfolding starts
starts_bracket ts s = rw (s.text) s.no_bracket

pub starts_brace : (ts : List ℕ) → Starts ts → starts b'}' ts ≡ false
unfolding starts
starts_brace ts s = rw (s.text) s.no_brace
