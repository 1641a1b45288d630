-- ===== src/Json/Print/Reads.antt =====
-- What it means that core/json.c reads a printed value back, and its scalars and brackets.
use instagram_on_nt.Prelude.{
  ℕ, zero, suc, ◌+◌, ◌*◌, ◌<◌, ◌≤◌, ◌≡◌, refl, ap, ◌∙◌, arith, Bool, true, false, List, ◌∷◌, ◌++◌,
  ltb, length,
}
use instagram_on_nt.Prelude.Result.{ok}
use instagram_on_nt.Json.{
  Value, Items, Fields, Parser, null, bool, num, str, arr, obj, no_items, item, no_fields, field,
}
use instagram_on_nt.Json.{
  parse_value, parse_items, parse_fields, parse_at, parse_array, parse_object, parse_scalar,
  parse_lit, parse_string, max_depth, true_text, false_text, null_text,
}
use instagram_on_nt.Json.Text.{skip_ws, is_ws, starts}
use instagram_on_nt.Json.Number.{is_digit}
use instagram_on_nt.Json.Depth.{depth_of, items_depth, fields_depth}
use instagram_on_nt.Json.Print.Strings.{quote, parse_string_raw-quote}
use instagram_on_nt.Json.Print.Numbers.{
  IsInteger, positive, negative, EndsNumber, parse_number-IsInteger,
}
use instagram_on_nt.Json.Print.{
  print, print_items, print_fields, Integers, ItemsIntegers, FieldsIntegers,
}
use instagram_on_nt.Json.Print.Starts.{
  Starts, Starts-append, print-Starts, quote-Starts, skip_ws-Starts, starts_bracket, starts_brace,
}

abbrev pub ReadsValue : Value → Type 0
ReadsValue v =
    (d f : ℕ) (rest : List ℕ)
    → Integers v
    → depth_of v + d ≤ 128
    → EndsNumber rest
    → 2 * length (print v) < f
    → parse_value f d (print v ++ rest) ≡ ok (v, rest)

abbrev pub ReadsItems : Items → Type 0
ReadsItems no_items = Unit {0}
ReadsItems (item v xs) =
    (d f : ℕ) (rest : List ℕ)
    → ItemsIntegers (item v xs)
    → items_depth (item v xs) + d ≤ 128
    → 2 * length (print_items (item v xs)) < f
    → parse_items f d (print_items (item v xs) ++ rest) ≡ ok (item v xs, rest)

abbrev pub ReadsFields : Fields → Type 0
ReadsFields no_fields = Unit {0}
ReadsFields (field k v fs) =
    (d f : ℕ) (rest : List ℕ)
    → FieldsIntegers (field k v fs)
    → fields_depth (field k v fs) + d ≤ 128
    → 2 * length (print_fields (field k v fs)) < f
    → parse_fields f d (print_fields (field k v fs) ++ rest) ≡ ok (field k v fs, rest)

-- A scalar goes through the switch.
pub value_at :
    (f d : ℕ) (ts : List ℕ)
    → skip_ws ts ≡ ts
    → parse_value (suc f) d ts
      ≡ parse_at (d + 1) (parse_items f (d + 1)) (parse_fields f (d + 1)) ts
unfolding parse_value
value_at f d ts e = ap (parse_at (d + 1) (parse_items f (d + 1)) (parse_fields f (d + 1))) e

module _ (d : ℕ) (items : Parser Items) (fields : Parser Fields) (rest : List ℕ) where
  pub null_at : parse_at d items fields (null_text ++ rest) ≡ ok (null, rest)
  unfolding parse_at parse_scalar parse_lit
  null_at = refl

  pub true_at : parse_at d items fields (true_text ++ rest) ≡ ok (bool true, rest)
  unfolding parse_at parse_scalar parse_lit
  true_at = refl

  pub false_at : parse_at d items fields (false_text ++ rest) ≡ ok (bool false, rest)
  unfolding parse_at parse_scalar parse_lit
  false_at = refl

  pub bool_at : (b : Bool) → parse_at d items fields (print (bool b) ++ rest) ≡ ok (bool b, rest)
  unfolding print
  bool_at true = true_at
  bool_at false = false_at

  pub str_at : (s : List ℕ) → parse_at d items fields (quote s ++ rest) ≡ ok (str s, rest)
  unfolding parse_at parse_scalar parse_string quote
  str_at s = let e = parse_string_raw-quote s rest in rw e

  pub num_at :
      {s : List ℕ}
      → IsInteger s
      → EndsNumber rest
      → parse_at d items fields (s ++ rest) ≡ ok (num s, rest)
  unfolding parse_at parse_scalar is_digit
  num_at (positive c s h a) e = ground (arith, parse_number-IsInteger rest (positive c s h a) e)
  num_at (negative c s h a) e = rw (parse_number-IsInteger rest (negative c s h a) e)

  -- The brackets, given what the loops return.
  pub arr_at :
      (ts : List ℕ) (xs : Items)
      → d ≤ 128
      → Starts ts
      → items (ts ++ rest) ≡ ok (xs, rest)
      → parse_at d items fields (b'[' ∷ (ts ++ rest)) ≡ ok (arr xs, rest)
  unfolding parse_at parse_array
  arr_at ts xs h s e =
      let t = Starts-append ts rest s in
      let l : ltb max_depth d ≡ false = ground arith in
      rw (skip_ws-Starts (ts ++ rest) t, l, starts_bracket (ts ++ rest) t, e)

  pub obj_at :
      (ts : List ℕ) (fs : Fields)
      → d ≤ 128
      → Starts ts
      → fields (ts ++ rest) ≡ ok (fs, rest)
      → parse_at d items fields (b'{' ∷ (ts ++ rest)) ≡ ok (obj fs, rest)
  unfolding parse_at parse_object
  obj_at ts fs h s e =
      let t = Starts-append ts rest s in
      let l : ltb max_depth d ≡ false = ground arith in
      rw (skip_ws-Starts (ts ++ rest) t, l, starts_brace (ts ++ rest) t, e)

  pub no_items_at : d ≤ 128 → parse_at d items fields (b'[' ∷ b']' ∷ rest) ≡ ok (arr no_items, rest)
  unfolding parse_at parse_array skip_ws starts
  no_items_at h = let l : ltb max_depth d ≡ false = ground arith in rw l

  pub no_fields_at :
      d ≤ 128 → parse_at d items fields (b'{' ∷ b'}' ∷ rest) ≡ ok (obj no_fields, rest)
  unfolding parse_at parse_object skip_ws starts
  no_fields_at h = let l : ltb max_depth d ≡ false = ground arith in rw l

pub print_items-Starts : (v : Value) (xs : Items) → Integers v → Starts (print_items (item v xs))
unfolding print_items
print_items-Starts v no_items h = Starts-append (print v) _ (print-Starts v h)
print_items-Starts v (item w xs) h = Starts-append (print v) _ (print-Starts v h)

pub print_fields-Starts :
    (k : List ℕ) (v : Value) (fs : Fields) → Starts (print_fields (field k v fs))
unfolding print_fields
print_fields-Starts k v no_fields = Starts-append (quote k) _ (quote-Starts k)
print_fields-Starts k v (field j w fs) = Starts-append (quote k) _ (quote-Starts k)

pub solid : (c : ℕ) (ts : List ℕ) → is_ws c ≡ false → skip_ws (c ∷ ts) ≡ c ∷ ts
unfolding skip_ws
solid c ts h = rw h

pub value_Reads :
    (v : Value) (d f : ℕ) (rest : List ℕ)
    → Integers v
    → ((items : Parser Items) (fields : Parser Fields)
        → parse_at (d + 1) items fields (print v ++ rest) ≡ ok (v, rest))
    → parse_value (suc f) d (print v ++ rest) ≡ ok (v, rest)
value_Reads v d f rest h e =
    value_at f d (print v ++ rest)
      (skip_ws-Starts _ (Starts-append (print v) rest (print-Starts v h)))
    ∙ e (parse_items f (d + 1)) (parse_fields f (d + 1))

pub arr_Reads : (xs : Items) → ReadsItems xs → ReadsValue (arr xs)
unfolding print depth_of
arr_Reads xs ih d zero rest h k e b = absurd (omega arith)
arr_Reads no_items ih d (suc f) rest h k e b =
    value_at f d _ (solid b'[' _ (unfold is_ws in refl))
    ∙ no_items_at (d + 1) _ _ rest (omega arith)
arr_Reads (item v xs) ih d (suc f) rest h k e b =
    value_at f d _ (solid b'[' _ (unfold is_ws in refl))
    ∙ arr_at (d + 1) _ _ rest (print_items (item v xs)) (item v xs) (omega arith)
        (print_items-Starts v xs h.0) (ih (d + 1) f rest h (omega arith) (omega arith))

pub obj_Reads : (fs : Fields) → ReadsFields fs → ReadsValue (obj fs)
unfolding print depth_of
obj_Reads fs ih d zero rest h k e b = absurd (omega arith)
obj_Reads no_fields ih d (suc f) rest h k e b =
    value_at f d _ (solid b'{' _ (unfold is_ws in refl))
    ∙ no_fields_at (d + 1) _ _ rest (omega arith)
obj_Reads (field j v fs) ih d (suc f) rest h k e b =
    value_at f d _ (solid b'{' _ (unfold is_ws in refl))
    ∙ obj_at (d + 1) _ _ rest (print_fields (field j v fs)) (field j v fs) (omega arith)
        (print_fields-Starts j v fs) (ih (d + 1) f rest h (omega arith) (omega arith))
