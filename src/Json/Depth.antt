-- ===== src/Json/Depth.antt =====
-- The nesting limit of core/json.c.
use instagram_on_nt.Prelude.{
  ℕ, zero, suc, ◌+◌, ◌*◌, ◌≤◌, ◌≡◌, refl, arith, ◌==◌, ◌||◌, List, [], ◌∷◌, ltb, length, Option,
  none, some, max,
}
use instagram_on_nt.Prelude.Result.{Result, ok, failed, IfOk, IfOk-bind, IfOk-if, IfOk-any, IfOk-ok}
use instagram_on_nt.Json.{
  Value, Items, Fields, Parser, null, bool, num, str, arr, obj, no_items, item, no_fields, field,
  parse_value, parse_items, parse_fields, parse_at, parse_array, parse_object, parse_scalar,
  json_parse, max_depth, finish, parse_lit, strip, after_item, expect, parse_string,
}
use instagram_on_nt.Json.Text.{parse_string_raw, skip_ws, starts}
use instagram_on_nt.Json.Number.{parse_number, is_digit}

-- How many brackets stand around the innermost value.
unfoldable mutual
  pub depth_of : Value → ℕ
  depth_of null = 0
  depth_of (bool b) = 0
  depth_of (num s) = 0
  depth_of (str s) = 0
  depth_of (arr xs) = suc (items_depth xs)
  depth_of (obj fs) = suc (fields_depth fs)

  pub items_depth : Items → ℕ
  items_depth no_items = 0
  items_depth (item v xs) = max (depth_of v) (items_depth xs)

  pub fields_depth : Fields → ℕ
  fields_depth no_fields = 0
  fields_depth (field k v fs) = max (depth_of v) (fields_depth fs)

-- Inside `d` brackets, a value with room for its own.
abbrev Room : ℕ → ℕ → Type 0
Room d n = n + d ≤ 128

abbrev RoomFor {ℓ} : {A : Type ℓ} → (A → ℕ) → ℕ → A × List ℕ → Type 0
RoomFor size d p = Room d (size p.0)

parse_lit-Room :
    (d : ℕ) (lit : List ℕ) (v : Value) (ts : List ℕ)
    → d ≤ 128
    → depth_of v ≡ 0
    → IfOk (RoomFor depth_of d) (parse_lit lit v ts)
unfolding parse_lit
parse_lit-Room d lit v ts h e = go (strip lit ts)
  where
    go :
        (o : Option (List ℕ))
        → IfOk (RoomFor depth_of d) (elim o [ none ↦ failed | some rest ↦ ok (v, rest) ])
    go none = tt
    go (some r) = omega (arith, e)

parse_scalar-Room :
    (d c : ℕ) (ts : List ℕ) → d ≤ 128 → IfOk (RoomFor depth_of d) (parse_scalar c ts)
unfolding parse_scalar parse_string depth_of
parse_scalar-Room d c ts h =
    let Q = RoomFor depth_of d in
    IfOk-if Q (c == b'"') _ _
      (λ _.
        IfOk-bind (λ _. Unit {0}) Q (parse_string_raw ts) _ (IfOk-any (parse_string_raw ts))
          (λ p _. omega arith))
      (λ _.
        IfOk-if Q (c == b't') _ _ (λ _. parse_lit-Room d _ _ ts h refl)
          (λ _.
            IfOk-if Q (c == b'f') _ _ (λ _. parse_lit-Room d _ _ ts h refl)
              (λ _.
                IfOk-if Q (c == b'n') _ _ (λ _. parse_lit-Room d _ _ ts h refl)
                  (λ _.
                    IfOk-if Q (c == b'-' || is_digit c) _ _
                      (λ _.
                        IfOk-bind (λ _. Unit {0}) Q (parse_number ts) _ (IfOk-any (parse_number ts))
                          (λ p _. omega arith))
                      (λ _. tt)))))

after_item-IfOk :
    {A : Type 0} (Q : A × List ℕ → Type 0) (close : ℕ) (more : List ℕ → Result (A × List ℕ))
    (done : List ℕ → A × List ℕ) (ts : List ℕ)
    → ((r : List ℕ) → IfOk Q (more r))
    → ((r : List ℕ) → Q (done r))
    → IfOk Q (after_item close more done ts)
unfolding after_item
after_item-IfOk Q close more done [] hm hd = tt
after_item-IfOk Q close more done (c ∷ rest) hm hd =
    IfOk-if Q (c == b',') _ _ (λ _. hm rest)
      (λ _. IfOk-if Q (c == close) _ _ (λ _. hd rest) (λ _. tt))

parse_at-Room :
    (d : ℕ) (items : Parser Items) (fields : Parser Fields) (ts : List ℕ)
    → d ≤ 128
    → (suc d ≤ 128 → (r : List ℕ) → IfOk (RoomFor items_depth (d + 1)) (items r))
    → (suc d ≤ 128 → (r : List ℕ) → IfOk (RoomFor fields_depth (d + 1)) (fields r))
    → IfOk (RoomFor depth_of d) (parse_at (d + 1) items fields ts)
unfolding parse_at parse_array parse_object depth_of
parse_at-Room d items fields [] h hi hf = tt
parse_at-Room d items fields (c ∷ rest) h hi hf =
    let Q = RoomFor depth_of d in
    IfOk-if Q (c == b'{') _ _
      (λ _.
        IfOk-if Q (ltb max_depth (d + 1)) _ _ (λ _. tt)
          (λ l.
            IfOk-if Q (starts b'}' (skip_ws rest)) _ _ (λ _. ground arith)
              (λ _.
                IfOk-bind (RoomFor fields_depth (d + 1)) Q (fields (skip_ws rest)) _
                  (hf (ground arith) (skip_ws rest)) (λ p k. omega arith))))
      (λ _.
        IfOk-if Q (c == b'[') _ _
          (λ _.
            IfOk-if Q (ltb max_depth (d + 1)) _ _ (λ _. tt)
              (λ l.
                IfOk-if Q (starts b']' (skip_ws rest)) _ _ (λ _. ground arith)
                  (λ _.
                    IfOk-bind (RoomFor items_depth (d + 1)) Q (items (skip_ws rest)) _
                      (hi (ground arith) (skip_ws rest)) (λ p k. omega arith))))
          (λ _. parse_scalar-Room d c (c ∷ rest) h))

abbrev AllRoom : ℕ → Type 0
AllRoom f =
    ((d : ℕ) (ts : List ℕ) → d ≤ 128 → IfOk (RoomFor depth_of d) (parse_value f d ts))
    × ((d : ℕ) (ts : List ℕ) → d ≤ 128 → IfOk (RoomFor items_depth d) (parse_items f d ts))
    × ((d : ℕ) (ts : List ℕ) → d ≤ 128 → IfOk (RoomFor fields_depth d) (parse_fields f d ts))

module _ (f : ℕ) (ih : AllRoom f) (d : ℕ) (ts : List ℕ) (h : d ≤ 128) where
  value_step : IfOk (RoomFor depth_of d) (parse_value (suc f) d ts)
  unfolding parse_value
  value_step =
      parse_at-Room d (parse_items f (d + 1)) (parse_fields f (d + 1)) (skip_ws ts) h
        (λ l r. ih.1 (d + 1) r (omega arith)) (λ l r. ih.2 (d + 1) r (omega arith))

  items_step : IfOk (RoomFor items_depth d) (parse_items (suc f) d ts)
  unfolding parse_items items_depth
  items_step =
      let Q = RoomFor items_depth d in
      IfOk-bind (RoomFor depth_of d) Q (parse_value f d ts) _ (ih.0 d ts h) λ p l.
        after_item-IfOk Q b']' _ _ (skip_ws p.1)
          (λ r. IfOk-bind Q Q (parse_items f d r) _ (ih.1 d r h) (λ q m. omega arith))
          (λ r. omega arith)

  fields_step : IfOk (RoomFor fields_depth d) (parse_fields (suc f) d ts)
  unfolding parse_fields fields_depth
  fields_step =
      let Q = RoomFor fields_depth d in
      IfOk-bind (λ _. Unit {0}) Q (parse_string_raw (skip_ws ts)) _
        (IfOk-any (parse_string_raw (skip_ws ts)))
        λ k _.
          IfOk-bind (λ _. Unit {0}) Q (expect b':' (skip_ws k.1)) _
            (IfOk-any (expect b':' (skip_ws k.1)))
            λ r' _. IfOk-bind (RoomFor depth_of d) Q (parse_value f d r') _ (ih.0 d r' h) λ p l.
              after_item-IfOk Q b'}' _ _ (skip_ws p.1)
                (λ r. IfOk-bind Q Q (parse_fields f d r) _ (ih.2 d r h) (λ q m. omega arith))
                (λ r. omega arith)

all_room : (f : ℕ) → AllRoom f
unfolding parse_value
all_room zero = (λ d ts h. tt, λ d ts h. tt, λ d ts h. tt)
all_room (suc f) = let ih = all_room f in (value_step f ih, items_step f ih, fields_step f ih)

finish-IfOk :
    (v : Value) (ts : List ℕ) → depth_of v ≤ 128 → IfOk (λ w. depth_of w ≤ 128) (finish v ts)
unfolding finish
finish-IfOk v [] h = h
finish-IfOk v (c ∷ ts) h = tt

-- A value that json_parse returns has arrays and objects nested at most 128 deep.
pub json_parse-depth : (ts : List ℕ) (v : Value) → json_parse ts ≡ ok v → depth_of v ≤ 128
json_parse-depth ts v = IfOk-ok (λ w. depth_of w ≤ 128) (json_parse ts) v (shallow ts)
  where
    shallow : (ts : List ℕ) → IfOk (λ w. depth_of w ≤ 128) (json_parse ts)
    shallow [] = unfold json_parse in tt
    shallow (c ∷ rest) =
        unfold json_parse in
        IfOk-bind (RoomFor depth_of 0) (λ w. depth_of w ≤ 128)
          (parse_value (2 * length (c ∷ rest) + 1) 0 (c ∷ rest)) _
          ((all_room (2 * length (c ∷ rest) + 1)).0 0 (c ∷ rest) (omega arith))
          (λ p l. finish-IfOk p.0 (skip_ws p.1) (omega arith))
