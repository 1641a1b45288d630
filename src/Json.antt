-- ===== src/Json.antt =====
-- core/json.c: the recursive-descent parser. `x->p .. x->end` is the list of the bytes left, and
-- `x->depth` is an argument, since a call that succeeds restores it and one that fails ends the parse.
pub mod Text
pub mod Number
pub mod Total
pub mod Access
pub mod Print
pub mod Depth
use instagram_on_nt.Prelude.{
  ℕ, zero, suc, ◌+◌, ◌*◌, ◌<◌, ◌==◌, ◌||◌, Bool, true, false, List, [], ◌∷◌, ltb, if◌then◌else◌,
  length, Option, none, some,
}
use instagram_on_nt.Prelude.Result.{Result, ok, failed, out_of_fuel, ◌>>=◌, from_option}
use mathlib.Core.List.{tail}
use Text.{skip_ws, parse_string_raw, starts}
use Number.{is_digit, parse_number}

-- JsonValue: a number keeps its text, a string its decoded bytes.
mutual
  pub data Value : Type 0 where
    null : Value
    bool : Bool → Value
    num : List ℕ → Value
    str : List ℕ → Value
    arr : Items → Value
    obj : Fields → Value

  pub data Items : Type 0 where
    no_items : Items
    item : Value → Items → Items

  pub data Fields : Type 0 where
    no_fields : Fields
    field : List ℕ → Value → Fields → Fields

abbrev pub Parser {ℓ} : Type ℓ → Type ℓ
Parser A = List ℕ → Result (A × List ℕ)

abbrev pub max_depth : ℕ
max_depth = 128

-- The text behind `lit`, if the input starts with it.
unfoldable pub strip : List ℕ → List ℕ → Option (List ℕ)
strip [] ts = some ts
strip (c ∷ lit) [] = none
strip (c ∷ lit) (t ∷ ts) = if t == c then strip lit ts else none

unfoldable pub parse_lit : List ℕ → Value → Parser Value
unfolding strip
parse_lit lit v ts = elim (strip lit ts) [ none ↦ failed | some rest ↦ ok (v, rest) ]

-- What stands behind an item or a member: `more` behind a comma, the end behind `close`.
unfoldable pub after_item {ℓ} :
    {A : Type ℓ} → ℕ → (List ℕ → Result A) → (List ℕ → A) → List ℕ → Result A
after_item close more done [] = failed
after_item close more done (c ∷ rest) =
    if c == b',' then more rest else if c == close then ok (done rest) else failed

unfoldable pub expect : ℕ → List ℕ → Result (List ℕ)
expect p [] = failed
expect p (c ∷ rest) = if c == p then ok rest else failed

unfoldable pub parse_string : Parser Value
parse_string ts = parse_string_raw ts >>= λ (s, rest). ok (str s, rest)

abbrev pub true_text : List ℕ
true_text = b't' ∷ b'r' ∷ b'u' ∷ b'e' ∷ []

abbrev pub false_text : List ℕ
false_text = b'f' ∷ b'a' ∷ b'l' ∷ b's' ∷ b'e' ∷ []

abbrev pub null_text : List ℕ
null_text = b'n' ∷ b'u' ∷ b'l' ∷ b'l' ∷ []

-- The cases of the switch that do not recurse, by the first byte `c` of `ts`.
unfoldable pub parse_scalar : ℕ → Parser Value
parse_scalar c ts =
    if c == b'"'
    then parse_string ts
    else if c == b't'
    then parse_lit true_text (bool true) ts
    else if c == b'f'
    then parse_lit false_text (bool false) ts
    else if c == b'n'
    then parse_lit null_text null ts
    else if c == b'-' || is_digit c
    then (parse_number ts >>= λ (s, rest). ok (num s, rest))
    else failed

-- The text from behind `[`, at the depth that it has reached; `items` is the loop.
unfoldable pub parse_array : ℕ → Parser Items → Parser Value
parse_array depth items rest =
    if ltb max_depth depth
    then failed
    else if starts b']' (skip_ws rest)
    then ok (arr no_items, tail (skip_ws rest))
    else items (skip_ws rest) >>= λ (xs, r). ok (arr xs, r)

unfoldable pub parse_object : ℕ → Parser Fields → Parser Value
parse_object depth fields rest =
    if ltb max_depth depth
    then failed
    else if starts b'}' (skip_ws rest)
    then ok (obj no_fields, tail (skip_ws rest))
    else fields (skip_ws rest) >>= λ (fs, r). ok (obj fs, r)

-- The switch of parse_value. `depth` is the depth inside a bracket.
unfoldable pub parse_at : ℕ → Parser Items → Parser Fields → Parser Value
parse_at depth items fields [] = failed
parse_at depth items fields (c ∷ rest) =
    if c == b'{'
    then parse_object depth fields rest
    else if c == b'['
    then parse_array depth items rest
    else parse_scalar c (c ∷ rest)

-- `depth` is `x->depth` at the call. A loop's round takes a unit of fuel, and so does a value.
unfoldable mutual
  pub parse_value : ℕ → ℕ → Parser Value
  parse_value zero depth ts = out_of_fuel
  parse_value (suc f) depth ts =
      parse_at (depth + 1) (parse_items f (depth + 1)) (parse_fields f (depth + 1)) (skip_ws ts)

  pub parse_items : ℕ → ℕ → Parser Items
  parse_items zero depth ts = out_of_fuel
  parse_items (suc f) depth ts = parse_value f depth ts >>= λ (v, r).
      after_item b']' (λ r'. parse_items f depth r' >>= λ (xs, r''). ok (item v xs, r''))
        (λ r'. (item v no_items, r')) (skip_ws r)

  pub parse_fields : ℕ → ℕ → Parser Fields
  parse_fields zero depth ts = out_of_fuel
  parse_fields (suc f) depth ts = parse_string_raw (skip_ws ts) >>= λ (k, r).
      (expect b':' (skip_ws r) >>= λ r'.
      (parse_value f depth r' >>= λ (v, r₁).
      after_item b'}' (λ r₂. parse_fields f depth r₂ >>= λ (fs, r₃). ok (field k v fs, r₃))
        (λ r₂. (field k v no_fields, r₂)) (skip_ws r₁)))

-- Trailing text is an error.
unfoldable pub finish : Value → List ℕ → Result Value
finish v [] = ok v
finish v (_ ∷ _) = failed

-- The fuel is enough: see Json.Total.
unfoldable pub json_parse : List ℕ → Result Value
unfolding parse_value finish
json_parse [] = failed
json_parse (c ∷ rest) =
    let ts = c ∷ rest in parse_value (2 * length ts + 1) 0 ts >>= λ (v, r). finish v (skip_ws r)
