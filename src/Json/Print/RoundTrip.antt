-- ===== src/Json/Print/RoundTrip.antt =====
-- Printed values of core/json.c are read back.
use instagram_on_nt.Prelude.{
  ℕ, zero, suc, ◌+◌, ◌*◌, ◌<◌, ◌≤◌, ◌≡◌, refl, ap, ◌∙◌, arith, List, [], ◌∷◌, ◌++◌, length,
  append_assoc, append-nil, length-append,
}
use instagram_on_nt.Prelude.Result.{ok}
use instagram_on_nt.Json.{
  Value, Items, Fields, Parser, null, bool, num, str, arr, obj, no_items, item, no_fields, field,
}
use instagram_on_nt.Json.{
  parse_value, parse_items, parse_fields, parse_at, after_item, expect, json_parse,
}
use instagram_on_nt.Json.Text.{skip_ws, parse_string_raw}
use instagram_on_nt.Json.Number.{is_digit}
use instagram_on_nt.Json.Depth.{depth_of, items_depth, fields_depth}
use instagram_on_nt.Json.Print.Strings.{quote, parse_string_raw-quote}
use instagram_on_nt.Json.Print.Numbers.{EndsNumber}
use instagram_on_nt.Json.Print.{print, print_items, print_fields, Integers}
use instagram_on_nt.Json.Print.Starts.{
  Starts, Starts-append, print-Starts, quote-Starts, skip_ws-Starts,
}
use instagram_on_nt.Json.Print.Reads.{
  ReadsValue, ReadsItems, ReadsFields, value_Reads, arr_Reads, obj_Reads, null_at, bool_at, str_at,
  num_at,
}

-- One round of each loop, by what parse_value returns.
module _ (f d : ℕ) (ts : List ℕ) (v : Value) (r : List ℕ) where
  last_item :
      parse_value f d ts ≡ ok (v, b']' ∷ r) → parse_items (suc f) d ts ≡ ok (item v no_items, r)
  unfolding parse_items after_item skip_ws
  last_item e = rw e

  more_items :
      (xs : Items) (r' : List ℕ)
      → parse_value f d ts ≡ ok (v, b',' ∷ r)
      → parse_items f d r ≡ ok (xs, r')
      → parse_items (suc f) d ts ≡ ok (item v xs, r')
  unfolding parse_items after_item skip_ws
  more_items xs r' e g = rw e (rw g)

-- One round of the loop over members, up to the value.
module _ (f d : ℕ) (ts k : List ℕ) (r₁ : List ℕ) (v : Value) (r : List ℕ)
    (key : parse_string_raw (skip_ws ts) ≡ ok (k, b':' ∷ r₁)) where
  last_field :
      parse_value f d r₁ ≡ ok (v, b'}' ∷ r)
      → parse_fields (suc f) d ts ≡ ok (field k v no_fields, r)
  unfolding parse_fields after_item skip_ws expect
  last_field e = rw key (rw e)

  more_fields :
      (fs : Fields) (r' : List ℕ)
      → parse_value f d r₁ ≡ ok (v, b',' ∷ r)
      → parse_fields f d r ≡ ok (fs, r')
      → parse_fields (suc f) d ts ≡ ok (field k v fs, r')
  unfolding parse_fields after_item skip_ws expect
  more_fields fs r' e g = rw key (rw e (rw g))

items_Reads : (v : Value) (xs : Items) → ReadsValue v → ReadsItems xs → ReadsItems (item v xs)
unfolding print_items items_depth
items_Reads v xs hv hx d zero rest h k b = absurd (omega arith)
items_Reads v no_items hv hx d (suc f) rest h k b =
    ap (parse_items (suc f) d) (append_assoc (print v) (b']' ∷ []) rest)
    ∙ last_item f d (print v ++ b']' ∷ rest) v rest (
        hv d f (b']' ∷ rest) h.0 (omega arith) (unfold is_digit in (refl, refl, refl))
          (omega (arith, length-append (print v) (b']' ∷ []))))
items_Reads v (item w xs) hv hx d (suc f) rest h k b =
    let more = print_items (item w xs) in
    ap (parse_items (suc f) d) (append_assoc (print v) (b',' ∷ more) rest)
    ∙ more_items f d (print v ++ b',' ∷ (more ++ rest)) v (more ++ rest) (item w xs) rest
        (hv d f (b',' ∷ (more ++ rest)) h.0 (omega arith) (unfold is_digit in (refl, refl, refl))
          (omega (arith, length-append (print v) (b',' ∷ more))))
        (hx d f rest h.1 (omega arith) (omega (arith, length-append (print v) (b',' ∷ more))))

-- A key and its colon, in front of what stands behind them.
key_reads : (k ts : List ℕ) → parse_string_raw (skip_ws (quote k ++ b':' ∷ ts)) ≡ ok (k, b':' ∷ ts)
key_reads k ts =
    ap parse_string_raw (skip_ws-Starts _ (Starts-append (quote k) (b':' ∷ ts) (quote-Starts k)))
    ∙ parse_string_raw-quote k (b':' ∷ ts)

fields_Reads :
    (k : List ℕ) (v : Value) (fs : Fields)
    → ReadsValue v
    → ReadsFields fs
    → ReadsFields (field k v fs)
unfolding print_fields fields_depth
fields_Reads k v fs hv hx d zero rest h l b = absurd (omega arith)
fields_Reads k v no_fields hv hx d (suc f) rest h l b =
    let ts = print v ++ b'}' ∷ rest in
    ap (parse_fields (suc f) d) (
      append_assoc (quote k) (b':' ∷ (print v ++ b'}' ∷ [])) rest
      ∙ ap (λ t. quote k ++ b':' ∷ t) (append_assoc (print v) (b'}' ∷ []) rest))
    ∙ last_field f d (quote k ++ b':' ∷ ts) k ts v rest (key_reads k ts) (
        hv d f (b'}' ∷ rest) h.0 (omega arith) (unfold is_digit in (refl, refl, refl)) (
          omega (
            arith,
            length-append (quote k) (b':' ∷ (print v ++ b'}' ∷ [])),
            length-append (print v) (b'}' ∷ []),
          )))
fields_Reads k v (field j w fs) hv hx d (suc f) rest h l b =
    let more = print_fields (field j w fs) in
    let ts = print v ++ b',' ∷ (more ++ rest) in
    ap (parse_fields (suc f) d) (
      append_assoc (quote k) (b':' ∷ (print v ++ b',' ∷ more)) rest
      ∙ ap (λ t. quote k ++ b':' ∷ t) (append_assoc (print v) (b',' ∷ more) rest))
    ∙ more_fields f d (quote k ++ b':' ∷ ts) k ts v (more ++ rest) (key_reads k ts) (field j w fs)
        rest
        (hv d f (b',' ∷ (more ++ rest)) h.0 (omega arith) (unfold is_digit in (refl, refl, refl)) (
          omega (
            arith,
            length-append (quote k) (b':' ∷ (print v ++ b',' ∷ more)),
            length-append (print v) (b',' ∷ more),
          )))
        (hx d f rest h.1 (omega arith) (
          omega (
            arith,
            length-append (quote k) (b':' ∷ (print v ++ b',' ∷ more)),
            length-append (print v) (b',' ∷ more),
          )))

scalar_Reads :
    (v : Value)
    → ((d : ℕ) (rest : List ℕ)
        → Integers v
        → EndsNumber rest
        → (items : Parser Items) (fields : Parser Fields)
        → parse_at d items fields (print v ++ rest) ≡ ok (v, rest))
    → ReadsValue v
scalar_Reads v e d zero rest h k n b = absurd (omega arith)
scalar_Reads v e d (suc f) rest h k n b = value_Reads v d f rest h (e (d + 1) rest h n)

all_Reads : (v : Value) → ReadsValue v
unfolding print
all_Reads v = elim v as ReadsValue ReadsItems ReadsFields [
  | null ↦ scalar_Reads null (λ d rest h n items fields. null_at d items fields rest)
  | bool b ↦ scalar_Reads (bool b) (λ d rest h n items fields. bool_at d items fields rest b)
  | num s ↦ scalar_Reads (num s) (λ d rest h n items fields. num_at d items fields rest h n)
  | str s ↦ scalar_Reads (str s) (λ d rest h n items fields. str_at d items fields rest s)
  | arr (xs → ih) ↦ arr_Reads xs ih
  | obj (fs → ih) ↦ obj_Reads fs ih
  | no_items ↦ tt
  | item (w → ih) (xs → ihs) ↦ items_Reads w xs ih ihs
  | no_fields ↦ tt
  | field k (w → ih) (fs → ihs) ↦ fields_Reads k w fs ih ihs
]

-- A printed value, in front of anything that ends a number, is read back with enough fuel.
pub parse_value-print :
    (v : Value) (d f : ℕ) (rest : List ℕ)
    → Integers v
    → depth_of v + d ≤ 128
    → EndsNumber rest
    → 2 * length (print v) < f
    → parse_value f d (print v ++ rest) ≡ ok (v, rest)
parse_value-print v = all_Reads v

parsed_whole :
    (ts : List ℕ) (v : Value)
    → Starts ts
    → parse_value (2 * length ts + 1) 0 ts ≡ ok (v, [])
    → json_parse ts ≡ ok v
unfolding json_parse skip_ws
parsed_whole [] v s e = cc (s.text)
parsed_whole (c ∷ ts) v s e = rw e

-- A value whose numbers are integers and whose nesting keeps the limit is read back from its text.
pub json_parse-print : (v : Value) → Integers v → depth_of v ≤ 128 → json_parse (print v) ≡ ok v
json_parse-print v h k =
    let e = parse_value-print v 0 (2 * length (print v) + 1) [] h (omega arith) tt (omega arith) in
    parsed_whole (print v) v (print-Starts v h) (rw append-nil at e)
