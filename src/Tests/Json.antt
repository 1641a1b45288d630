-- ===== src/Tests/Json.antt =====
-- Runs of core/json.c, and the properties at concrete texts.
use instagram_on_nt.Prelude.{ℕ, ◌≤◌, ◌≡◌, ◌≢◌, refl, arith, List, [], ◌∷◌, some}
use instagram_on_nt.Prelude.Result.{ok, out_of_fuel}
use instagram_on_nt.Json.{
  Value, Items, Fields, null, arr, obj, num, item, field, no_items, no_fields, json_parse, parse_at,
  parse_array, parse_object, parse_scalar, expect, after_item,
}
use instagram_on_nt.Json.Text.{skip_ws, starts, parse_string_raw}
use instagram_on_nt.Json.Number.{parse_number, is_digit, number_text, one, digits}
use instagram_on_nt.Json.Access.{json_get, FirstMatch, json_get_iff}
use instagram_on_nt.Json.Depth.{depth_of, json_parse-depth}
use instagram_on_nt.Json.Total.{json_parse_total}
use instagram_on_nt.Json.Print.{print}
use instagram_on_nt.Json.Print.Strings.{quote}
use instagram_on_nt.Json.Print.Numbers.{positive}
use instagram_on_nt.Json.Print.RoundTrip.{json_parse-print}

quoted :
    parse_string_raw (b'"' ∷ b'a' ∷ 92 ∷ b'u' ∷ b'd' ∷ b'5' ∷ b'5' ∷ b'c' ∷ b'"' ∷ b'!' ∷ [])
    ≡ ok (b'a' ∷ 0xED ∷ 0x95 ∷ 0x9C ∷ [], b'!' ∷ [])
unfolding parse_string_raw
quoted = refl

sample :
    json_parse (
      b'[' ∷ b'1' ∷ b',' ∷ b' ' ∷ b'{' ∷ b'"' ∷ b'a' ∷ b'"' ∷ b':' ∷ b'[' ∷ b']' ∷ b'}' ∷ b']' ∷ [])
    ≡ ok (
        arr (
          item
            (num (b'1' ∷ []))
            (item (obj (field (b'a' ∷ []) (arr no_items) no_fields)) no_items)))
unfolding json_parse parse_at parse_array parse_object parse_scalar parse_number parse_string_raw
    skip_ws starts expect after_item is_digit number_text one digits
sample = refl

-- [1,{"a":[]}]
abbrev text : List ℕ
text = b'[' ∷ b'1' ∷ b',' ∷ b'{' ∷ b'"' ∷ b'a' ∷ b'"' ∷ b':' ∷ b'[' ∷ b']' ∷ b'}' ∷ b']' ∷ []

abbrev members : Fields
members = field (b'a' ∷ []) (arr no_items) no_fields

abbrev value : Value
value = arr (item (num (b'1' ∷ [])) (item (obj members) no_items))

print_lem : print value ≡ text
unfolding print quote
print_lem = refl

parsed : json_parse (print value) ≡ ok value
unfolding is_digit depth_of
parsed = json_parse-print value (positive b'1' [] refl tt, ((tt, tt), tt)) (omega arith)

json_parse-print_example : json_parse (print value) ≡ ok value
unfolding is_digit depth_of
json_parse-print_example =
    json_parse-print value (positive b'1' [] refl tt, ((tt, tt), tt)) (omega arith)

json_parse_total_example : json_parse text ≢ out_of_fuel
json_parse_total_example = json_parse_total text

json_parse-depth_example : depth_of value ≤ 128
json_parse-depth_example = json_parse-depth (print value) value parsed

json_get_iff_example :
    (json_get (some (obj members)) (b'a' ∷ []) ≡ some (arr no_items)
      → FirstMatch (b'a' ∷ []) (arr no_items) members)
    × (FirstMatch (b'a' ∷ []) (arr no_items) members
        → json_get (some (obj members)) (b'a' ∷ []) ≡ some (arr no_items))
json_get_iff_example = json_get_iff members (b'a' ∷ []) (arr no_items)

abbrev one_item : Items
one_item = item null no_items
