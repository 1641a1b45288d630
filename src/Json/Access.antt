-- ===== src/Json/Access.antt =====
-- core/json.c: the read access to a parsed value. `none` for a value is NULL, and so is a NULL handed
-- to an accessor.
use instagram_on_nt.Prelude.{
  ℕ, zero, suc, ◌+◌, ◌<◌, ◌≡◌, refl, arith, ◌==◌, ◌&&◌, Bool, true, false, List, [], ◌∷◌, ltb,
  if◌then◌else◌, Option, none, some, lt→ltb, ◌≢◌, Bool-cases, inl, inr,
}
use instagram_on_nt.Prelude.Int.{ℤ, pos, negsuc, pos_part, ◌≤ℤ◌}
use instagram_on_nt.Json.{
  Value, Items, Fields, null, bool, num, str, arr, obj, no_items, item, no_fields, field,
}
use instagram_on_nt.Json.Number.{int_text}

pub data JsonType : Type 0 where
  type_null type_bool type_num type_str type_arr type_obj : JsonType

unfoldable pub json_type : Option Value → JsonType
json_type none = type_null
json_type (some null) = type_null
json_type (some (bool b)) = type_bool
json_type (some (num s)) = type_num
json_type (some (str s)) = type_str
json_type (some (arr xs)) = type_arr
json_type (some (obj fs)) = type_obj

-- The bytes of a buffer as a C string: up to the first NUL.
unfoldable pub c_string : List ℕ → List ℕ
c_string [] = []
c_string (c ∷ s) = if c == 0 then [] else c ∷ c_string s

unfoldable pub bytes_eq : List ℕ → List ℕ → Bool
bytes_eq [] [] = true
bytes_eq (a ∷ s) (b ∷ t) = a == b && bytes_eq s t
bytes_eq _ _ = false

-- `strcmp(a, b) == 0` on two NUL-terminated buffers.
unfoldable pub str_eq : List ℕ → List ℕ → Bool
unfolding c_string bytes_eq
str_eq a b = bytes_eq (c_string a) (c_string b)

unfoldable pub get_field : Fields → List ℕ → Option Value
unfolding str_eq
get_field no_fields key = none
get_field (field k v fs) key = if str_eq k key then some v else get_field fs key

unfoldable pub json_get : Option Value → List ℕ → Option Value
unfolding get_field
json_get (some (obj fs)) key = get_field fs key
json_get _ key = none

unfoldable pub items_count : Items → ℕ
items_count no_items = 0
items_count (item v xs) = items_count xs + 1

unfoldable pub fields_count : Fields → ℕ
fields_count no_fields = 0
fields_count (field k v fs) = fields_count fs + 1

-- `arr->vals[index]`
unfoldable pub nth_item : Items → ℕ → Option Value
nth_item no_items i = none
nth_item (item v xs) zero = some v
nth_item (item v xs) (suc i) = nth_item xs i

unfoldable pub json_at : Option Value → ℤ → Option Value
unfolding nth_item items_count
json_at (some (arr xs)) (pos i) = if ltb i (items_count xs) then nth_item xs i else none
json_at _ index = none

unfoldable pub json_count : Option Value → ℕ
unfolding items_count fields_count
json_count (some (arr xs)) = items_count xs
json_count (some (obj fs)) = fields_count fs
json_count _ = 0

unfoldable pub json_string : Option Value → Option (List ℕ)
json_string (some (str s)) = some s
json_string _ = none

unfoldable pub json_int : Option Value → ℤ → ℤ
unfolding int_text
json_int (some (num s)) def = int_text s
json_int _ def = def

unfoldable pub json_bool : Option Value → Bool → Bool
json_bool (some (bool b)) def = b
json_bool _ def = def

unfoldable pub json_get_str : Option Value → List ℕ → Option (List ℕ)
unfolding json_string json_get
json_get_str v key = json_string (json_get v key)

unfoldable pub json_get_int : Option Value → List ℕ → ℤ → ℤ
unfolding json_int json_get
json_get_int v key def = json_int (json_get v key) def

nth_item-lt : (xs : Items) (i : ℕ) → i < items_count xs → (v : Value) × (nth_item xs i ≡ some v)
unfolding nth_item items_count
nth_item-lt no_items i h = absurd (omega arith)
nth_item-lt (item v xs) zero h = (v, refl)
nth_item-lt (item v xs) (suc i) h = nth_item-lt xs i (omega arith)

-- json_at returns an element of an array exactly at the indices from 0 up to json_count.
pub json_at_iff :
    (xs : Items) (i : ℤ)
    → let a : Option Value = some (arr xs) in
      ((pos 0 ≤ℤ i) × (pos_part i < json_count a) → (v : Value) × (json_at a i ≡ some v))
      × ((v : Value) → json_at a i ≡ some v → (pos 0 ≤ℤ i) × (pos_part i < json_count a))
unfolding json_at json_count
json_at_iff xs (pos i) = (
  λ h. let found = nth_item-lt xs i h.1 in (found.0, rw (lt→ltb _ _ h.1) found.1),
  λ v e. ground arith,
)
json_at_iff xs (negsuc i) = ((λ h. absurd (omega arith)), (λ v e. ground arith))

bytes_eq→eq : (s t : List ℕ) → bytes_eq s t ≡ true → s ≡ t
unfolding bytes_eq
bytes_eq→eq [] [] h = refl
bytes_eq→eq [] (b ∷ t) h = ground arith
bytes_eq→eq (a ∷ s) [] h = ground arith
bytes_eq→eq (a ∷ s) (b ∷ t) h = ground (arith, bytes_eq→eq s t)

bytes_eq_refl : (s : List ℕ) → bytes_eq s s ≡ true
unfolding bytes_eq
bytes_eq_refl [] = refl
bytes_eq_refl (a ∷ s) = ground (arith, bytes_eq_refl s)

pub str_eq_iff :
    (a b : List ℕ)
    → ((str_eq a b ≡ true) → c_string a ≡ c_string b)
      × (c_string a ≡ c_string b → str_eq a b ≡ true)
unfolding str_eq
str_eq_iff a b = (bytes_eq→eq (c_string a) (c_string b), λ e. rw e (bytes_eq_refl (c_string b)))

-- The members of an object in order; `v` is the value of the first one whose key is `key`.
pub data FirstMatch (key : List ℕ) (v : Value) : Fields → Type 0 where
  here : {k : List ℕ} {fs : Fields} → c_string k ≡ c_string key → FirstMatch key v (field k v fs)
  there :
      {k : List ℕ} {w : Value} {fs : Fields}
      → c_string k ≢ c_string key
      → FirstMatch key v fs
      → FirstMatch key v (field k w fs)

get_field-FirstMatch :
    (fs : Fields) (key : List ℕ) (v : Value) → get_field fs key ≡ some v → FirstMatch key v fs
unfolding get_field
get_field-FirstMatch no_fields key v e = cc
get_field-FirstMatch (field k w fs) key v e = elim (Bool-cases (str_eq k key)) [
  | inl t ↦
      let found : some w ≡ some v = rw t at e in
      let same : w ≡ v = cc in rw same (here ((str_eq_iff k key).0 t))
  | inr t ↦ there (λ c. cc (t, (str_eq_iff k key).1 c)) (get_field-FirstMatch fs key v (rw t at e))
]

FirstMatch-get_field :
    {key : List ℕ} {v : Value} {fs : Fields} → FirstMatch key v fs → get_field fs key ≡ some v
unfolding get_field
FirstMatch-get_field (here {k} e) = rw ((str_eq_iff k _).1 e)
FirstMatch-get_field {key} (there {k} ne m) = elim (Bool-cases (str_eq k key)) [
  | inl t ↦ absurd (ne ((str_eq_iff k key).0 t))
  | inr t ↦ rw t (FirstMatch-get_field m)
]

-- json_get on an object finds exactly the first member with that key, as C strings compare.
pub json_get_iff :
    (fs : Fields) (key : List ℕ) (v : Value)
    → (json_get (some (obj fs)) key ≡ some v → FirstMatch key v fs)
      × (FirstMatch key v fs → json_get (some (obj fs)) key ≡ some v)
unfolding json_get
json_get_iff fs key v = (get_field-FirstMatch fs key v, FirstMatch-get_field)
