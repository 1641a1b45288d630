-- ===== src/Json/Print.antt =====
-- A printer for the values of core/json.c, with the fewest escapes, and what it promises: the parser
-- reads every printed value back. The program has no printer; this one is the specification's.
pub mod Strings
pub mod Numbers
mod Starts
mod Reads
pub mod RoundTrip
use instagram_on_nt.Prelude.{
  ℕ, zero, suc, ◌+◌, ◌-◌, ◌*◌, ◌<◌, ◌≤◌, ◌≡◌, ◌≢◌, refl, sym, ap, ◌∙◌, arith, ◌==◌, ◌||◌, ◌&&◌,
  Bool, true, false, List, [], ◌∷◌, ◌++◌, ltb, if◌then◌else◌, length, Option, none, some,
  Bool-cases, inl, inr, max, append_assoc, append-nil, length-append,
}
use instagram_on_nt.Prelude.Result.{ok}
use instagram_on_nt.Json.{
  Value, Items, Fields, Parser, null, bool, num, str, arr, obj, no_items, item, no_fields, field,
}
use instagram_on_nt.Json.{
  parse_value, parse_items, parse_fields, parse_at, parse_array, parse_object, parse_scalar,
  parse_lit, parse_string, strip, after_item, expect, finish, json_parse, max_depth, true_text,
  false_text, null_text,
}
use instagram_on_nt.Json.Text.{skip_ws, is_ws, starts, parse_string_raw}
use instagram_on_nt.Json.Number.{is_digit, is_dot, is_exp, parse_number}
use instagram_on_nt.Json.Depth.{depth_of, items_depth, fields_depth}
use Strings.{quote, parse_string_raw-quote}
use Numbers.{IsInteger, positive, negative, EndsNumber, parse_number-IsInteger}

-- Elements and members are printed from the first to behind the closing bracket.
unfoldable mutual
  pub print : Value → List ℕ
  print null = null_text
  print (bool true) = true_text
  print (bool false) = false_text
  print (num s) = s
  print (str s) = quote s
  print (arr xs) = b'[' ∷ print_items xs
  print (obj fs) = b'{' ∷ print_fields fs

  pub print_items : Items → List ℕ
  print_items no_items = b']' ∷ []
  print_items (item v no_items) = print v ++ b']' ∷ []
  print_items (item v xs) = print v ++ b',' ∷ print_items xs

  pub print_fields : Fields → List ℕ
  print_fields no_fields = b'}' ∷ []
  print_fields (field k v no_fields) = quote k ++ b':' ∷ (print v ++ b'}' ∷ [])
  print_fields (field k v fs) = quote k ++ b':' ∷ (print v ++ b',' ∷ print_fields fs)

-- Every number in the value is an integer.
abbrev mutual
  pub Integers : Value → Type 0
  Integers (num s) = IsInteger s
  Integers (arr xs) = ItemsIntegers xs
  Integers (obj fs) = FieldsIntegers fs
  Integers _ = Unit {0}

  pub ItemsIntegers : Items → Type 0
  ItemsIntegers no_items = Unit {0}
  ItemsIntegers (item v xs) = Integers v × ItemsIntegers xs

  pub FieldsIntegers : Fields → Type 0
  FieldsIntegers no_fields = Unit {0}
  FieldsIntegers (field k v fs) = Integers v × FieldsIntegers fs
