-- ===== src/Json/Total.antt =====
-- The parser of core/json.c ends on every text: each routine takes bytes off its input, and the
-- fuel of json_parse pays for every call.
pub mod Lexemes
use instagram_on_nt.Prelude.{
  ℕ, zero, suc, ◌+◌, ◌-◌, ◌*◌, ◌≤◌, ◌<◌, ◌≡◌, ◌≢◌, refl, arith, ◌==◌, ◌||◌, ◌&&◌, Bool, true, false,
  List, [], ◌∷◌, ◌++◌, leb, ltb, if◌then◌else◌, length, length-append, Option, none, some,
  Bool-cases, inl, inr, ap, if_elim,
}
use instagram_on_nt.Prelude.Result.{Result, ok, failed, out_of_fuel, ◌>>=◌, Ensures, Ensures-bind}
use instagram_on_nt.Json.{
  Value, Items, Fields, Parser, item, no_items, field, no_fields, parse_value, parse_items,
  parse_fields, parse_at, parse_array, parse_object, parse_scalar, parse_string, parse_lit,
  after_item, expect, finish, max_depth, json_parse, true_text, false_text, null_text, strip,
}
use mathlib.Core.List.{tail}
use instagram_on_nt.Prelude.Result.{Ensures-if, Ensures-map}
use instagram_on_nt.Json.Text.{skip_ws, starts, parse_string_raw}
use instagram_on_nt.Json.Number.{Span, is_digit, parse_number}
use Lexemes.{Shorter, skip_ws-le, parse_string_raw-Ensures, parse_number-Ensures, strip_lem, Fits}

parse_lit-Shorter :
    (c : ℕ) (lit : List ℕ) (v : Value) (ts : List ℕ)
    → Ensures (Shorter ts) (parse_lit (c ∷ lit) v ts)
unfolding parse_lit
parse_lit-Shorter c lit v ts = go (strip (c ∷ lit) ts) refl
  where
    go :
        (o : Option (List ℕ))
        → strip (c ∷ lit) ts ≡ o
        → Ensures (Shorter ts) (elim o [ none ↦ failed | some rest ↦ ok (v, rest) ])
    go none e = tt
    go (some r) e = omega (arith, ap length (strip_lem (c ∷ lit) ts r e), length-append lit r)

parse_scalar-Shorter : (c : ℕ) (ts : List ℕ) → Ensures (Shorter ts) (parse_scalar c ts)
unfolding parse_scalar parse_string
parse_scalar-Shorter c ts =
    let Q = Shorter {A = Value} ts in
    Ensures-if Q (c == b'"') _ _
      (λ _.
        Ensures-bind (λ p. Fits (length ts) (b'"' ∷ p.0, p.1)) Q (parse_string_raw ts) _
          (parse_string_raw-Ensures ts) (λ p h. omega arith))
      (λ _.
        Ensures-if Q (c == b't') _ _ (λ _. parse_lit-Shorter _ _ _ ts)
          (λ _.
            Ensures-if Q (c == b'f') _ _ (λ _. parse_lit-Shorter _ _ _ ts)
              (λ _.
                Ensures-if Q (c == b'n') _ _ (λ _. parse_lit-Shorter _ _ _ ts)
                  (λ _.
                    Ensures-if Q (c == b'-' || is_digit c) _ _
                      (λ _.
                        Ensures-bind (λ (p : Span). (p.0 ++ p.1 ≡ ts) × (0 < length p.0)) Q
                          (parse_number ts) _ (parse_number-Ensures ts)
                          (λ p h. omega (arith, ap length h.0, length-append p.0 p.1)))
                      (λ _. tt)))))

after_item-Shorter :
    {A : Type 0} (close : ℕ) (more : List ℕ → Result (A × List ℕ)) (done : List ℕ → A × List ℕ)
    (ts : List ℕ)
    → ((r : List ℕ) → length r < length ts → Ensures (Shorter ts) (more r))
    → ((r : List ℕ) → (done r).1 ≡ r)
    → Ensures (Shorter ts) (after_item close more done ts)
unfolding after_item
after_item-Shorter close more done [] hm hd = tt
after_item-Shorter {A} close more done (c ∷ rest) hm hd =
    let Q = Shorter {A = A} (c ∷ rest) in
    Ensures-if Q (c == b',') _ _ (λ _. hm rest (omega arith))
      (λ _. Ensures-if Q (c == close) _ _ (λ _. omega (arith, ap length (hd rest))) (λ _. tt))

expect-lt : (p : ℕ) (ts : List ℕ) → Ensures (λ r. length r < length ts) (expect p ts)
unfolding expect
expect-lt p [] = tt
expect-lt p (c ∷ rest) =
    Ensures-if (λ r. length r < suc (length rest)) (c == p) _ _ (λ _. omega arith) (λ _. tt)

-- A bracket's routine, given that its loop takes bytes off.
abbrev Loop {ℓ} : {A : Type ℓ} → (List ℕ → Result (A × List ℕ)) → List ℕ → Type 0
Loop p ts = (r : List ℕ) → length r ≤ length ts → Ensures (Shorter r) (p r)

length-tail_starts : (p : ℕ) (ts : List ℕ) → length (tail ts) ≤ length ts
length-tail_starts p [] = omega arith
length-tail_starts p (c ∷ ts) = omega arith

module _ (depth : ℕ) (items : Parser Items) (fields : Parser Fields) where
  parse_array-Shorter :
      (c : ℕ) (rest : List ℕ)
      → Loop items rest
      → Ensures (Shorter (c ∷ rest)) (parse_array depth items rest)
  unfolding parse_array
  parse_array-Shorter c rest h =
      let Q = Shorter {A = Value} (c ∷ rest) in
      Ensures-if Q (ltb max_depth depth) _ _ (λ _. tt)
        (λ _.
          Ensures-if Q (starts b']' (skip_ws rest)) _ _
            (λ _. omega (arith, length-tail_starts 0 (skip_ws rest), skip_ws-le rest))
            (λ _.
              Ensures-bind (Shorter (skip_ws rest)) Q (items (skip_ws rest)) _
                (h (skip_ws rest) (skip_ws-le rest)) (λ p l. omega (arith, l, skip_ws-le rest))))

  parse_object-Shorter :
      (c : ℕ) (rest : List ℕ)
      → Loop fields rest
      → Ensures (Shorter (c ∷ rest)) (parse_object depth fields rest)
  unfolding parse_object
  parse_object-Shorter c rest h =
      let Q = Shorter {A = Value} (c ∷ rest) in
      Ensures-if Q (ltb max_depth depth) _ _ (λ _. tt)
        (λ _.
          Ensures-if Q (starts b'}' (skip_ws rest)) _ _
            (λ _. omega (arith, length-tail_starts 0 (skip_ws rest), skip_ws-le rest))
            (λ _.
              Ensures-bind (Shorter (skip_ws rest)) Q (fields (skip_ws rest)) _
                (h (skip_ws rest) (skip_ws-le rest)) (λ p l. omega (arith, l, skip_ws-le rest))))

  parse_at-Shorter :
      (c : ℕ) (rest : List ℕ)
      → Loop items rest
      → Loop fields rest
      → Ensures (Shorter (c ∷ rest)) (parse_at depth items fields (c ∷ rest))
  unfolding parse_at
  parse_at-Shorter c rest hi hf =
      let Q = Shorter {A = Value} (c ∷ rest) in
      Ensures-if Q (c == b'{') _ _ (λ _. parse_object-Shorter c rest hf)
        (λ _.
          Ensures-if Q (c == b'[') _ _ (λ _. parse_array-Shorter c rest hi)
            (λ _. parse_scalar-Shorter c (c ∷ rest)))

-- Two units of fuel for each byte, and one more for a loop.
abbrev ValueEnds : ℕ → Type 0
ValueEnds f =
    (depth : ℕ) (ts : List ℕ) → 2 * length ts < f → Ensures (Shorter ts) (parse_value f depth ts)

abbrev ItemsEnd : ℕ → Type 0
ItemsEnd f =
    (depth : ℕ) (ts : List ℕ)
    → 2 * length ts + 1 < f
    → Ensures (Shorter ts) (parse_items f depth ts)

abbrev FieldsEnd : ℕ → Type 0
FieldsEnd f =
    (depth : ℕ) (ts : List ℕ)
    → 2 * length ts + 1 < f
    → Ensures (Shorter ts) (parse_fields f depth ts)

value_step : (f : ℕ) → ItemsEnd f → FieldsEnd f → ValueEnds (suc f)
unfolding parse_value
value_step f hi hf depth ts h = go (skip_ws ts) (skip_ws-le ts)
  where
    go :
        (us : List ℕ)
        → length us ≤ length ts
        → Ensures
            (Shorter ts)
            (parse_at (depth + 1) (parse_items f (depth + 1)) (parse_fields f (depth + 1)) us)
    go [] l = unfold parse_at in tt
    go (c ∷ rest) l =
        Ensures-map
          (parse_at (depth + 1) (parse_items f (depth + 1)) (parse_fields f (depth + 1)) (c ∷ rest))
          (parse_at-Shorter (depth + 1) (parse_items f (depth + 1)) (parse_fields f (depth + 1)) c
            rest (λ r k. hi (depth + 1) r (omega arith)) (λ r k. hf (depth + 1) r (omega arith)))
          (λ p k. omega arith)

items_step : (f : ℕ) → ValueEnds f → ItemsEnd f → ItemsEnd (suc f)
unfolding parse_items
items_step f hv hi depth ts h =
    Ensures-bind (Shorter ts) _ (parse_value f depth ts) _ (hv depth ts (omega arith)) λ p l.
      Ensures-map
        (after_item b']' (λ r'. parse_items f depth r' >>= λ (xs, r''). ok (item p.0 xs, r''))
          (λ r'. (item p.0 no_items, r')) (skip_ws p.1))
        (after_item-Shorter b']' _ _ (skip_ws p.1)
          (λ r k.
            Ensures-bind (Shorter r) _ (parse_items f depth r) _
              (hi depth r (omega (arith, skip_ws-le p.1))) (λ q m. omega arith))
          (λ r. refl))
        (λ q m. omega (arith, skip_ws-le p.1))

fields_step : (f : ℕ) → ValueEnds f → FieldsEnd f → FieldsEnd (suc f)
unfolding parse_fields
fields_step f hv hf depth ts h =
    Ensures-bind (λ p. Fits (length (skip_ws ts)) (b'"' ∷ p.0, p.1)) _
      (parse_string_raw (skip_ws ts)) _ (parse_string_raw-Ensures (skip_ws ts))
      λ p l.
        Ensures-bind (λ r. length r < length (skip_ws p.1)) _ (expect b':' (skip_ws p.1)) _
          (expect-lt b':' (skip_ws p.1))
          λ r' m.
            Ensures-bind (Shorter r') _ (parse_value f depth r') _
              (hv depth r' (omega (arith, skip_ws-le ts, skip_ws-le p.1)))
              λ q n.
                Ensures-map
                  (after_item b'}'
                    (λ r₂. parse_fields f depth r₂ >>= λ (fs, r₃). ok (field p.0 q.0 fs, r₃))
                    (λ r₂. (field p.0 q.0 no_fields, r₂)) (skip_ws q.1))
                  (after_item-Shorter b'}' _ _ (skip_ws q.1)
                    (λ r k.
                      Ensures-bind (Shorter r) _ (parse_fields f depth r) _
                        (hf depth r (omega (arith, skip_ws-le ts, skip_ws-le p.1, skip_ws-le q.1)))
                        (λ q' m'. omega arith))
                    (λ r. refl))
                  (λ q' m'. omega (arith, skip_ws-le ts, skip_ws-le p.1, skip_ws-le q.1))

all_end : (f : ℕ) → ValueEnds f × ItemsEnd f × FieldsEnd f
all_end zero = (λ d ts h. elim h [ ], λ d ts h. elim h [ ], λ d ts h. elim h [ ])
all_end (suc f) =
    let (v, i, o) = all_end f in (value_step f i o, items_step f v i, fields_step f v o)

-- With two units of fuel for each byte, and one more, parse_value ends; a value that it returns has
-- taken a byte at least.
pub parse_value-Shorter :
    (f depth : ℕ) (ts : List ℕ) → 2 * length ts < f → Ensures (Shorter ts) (parse_value f depth ts)
parse_value-Shorter f = (all_end f).0

finish-Ends : (v : Value) (ts : List ℕ) → Ensures (λ _. Unit {0}) (finish v ts)
unfolding finish
finish-Ends v [] = tt
finish-Ends v (c ∷ ts) = tt

json_parse-Ends : (ts : List ℕ) → Ensures (λ _. Unit {0}) (json_parse ts)
unfolding json_parse
json_parse-Ends [] = tt
json_parse-Ends (c ∷ rest) =
    Ensures-bind (Shorter (c ∷ rest)) (λ _. Unit {0})
      (parse_value (2 * length (c ∷ rest) + 1) 0 (c ∷ rest)) _
      (parse_value-Shorter (2 * length (c ∷ rest) + 1) 0 (c ∷ rest) (omega arith))
      (λ p l. finish-Ends p.0 (skip_ws p.1))

-- json_parse ends on every text: its fuel does not run out.
pub json_parse_total : (ts : List ℕ) → json_parse ts ≢ out_of_fuel
json_parse_total ts e = rw e at (json_parse-Ends ts)
