-- ===== src/Private/Members.antt =====
-- The members of the body of net/ig_private.c, as a printed JSON object.
use instagram_on_nt.Prelude.{
  ℕ, suc, ◌≡◌, refl, sym, ap, ◌∙◌, arith, ◌==◌, ◌||◌, Bool, true, false, List, [], ◌∷◌, ◌++◌,
  append_assoc, if◌then◌else◌, codes,
}
use instagram_on_nt.Json.{Value, Fields, num, str, obj, no_fields, field}
use instagram_on_nt.Json.Depth.{depth_of, fields_depth}
use instagram_on_nt.Json.Print.{print, print_fields, FieldsIntegers}
use instagram_on_nt.Json.Print.Strings.{escaped, quote}
use instagram_on_nt.Json.Print.Numbers.{IsInteger}
use instagram_on_nt.Private.Body.{
  Entry, str_field, num_field, time_field, text_key, entry_pieces, entries_pieces, Session,
  body_entries, body_pieces,
}
use instagram_on_nt.Private.Texts.{joined}

-- A text that stands for itself between quotes.
unfoldable pub is_plain : List ℕ → Bool
is_plain [] = true
is_plain (c ∷ s) = if c == b'"' || c == 92 then false else is_plain s

escaped-plain : (s : List ℕ) → is_plain s ≡ true → escaped s ≡ s
unfolding escaped is_plain
escaped-plain [] h = refl
escaped-plain (c ∷ s) h = grind (arith, escaped-plain s)

-- The member of an object that an entry is meant to be.
abbrev pub field_of : Entry → Fields → Fields
field_of (str_field k v) fs = field k (str v) fs
field_of (num_field k n) fs = field k (num n) fs
field_of (time_field k t) fs = field k (str t) fs

abbrev pub fields_of : List Entry → Fields → Fields
fields_of [] fs = fs
fields_of (e ∷ es) fs = field_of e (fields_of es fs)

-- Its key and its value may stand between quotes, and a number is one.
abbrev pub IsClean : Entry → Type 0
IsClean (str_field k v) = (is_plain k ≡ true) × (is_plain v ≡ true)
IsClean (num_field k n) = (is_plain k ≡ true) × IsInteger n
IsClean (time_field k t) = (is_plain k ≡ true) × (is_plain t ≡ true)

abbrev pub AreClean : List Entry → Type 0
AreClean [] = Unit {0}
AreClean (e ∷ es) = IsClean e × AreClean es

quote-plain : (s : List ℕ) → is_plain s ≡ true → quote s ≡ b'"' ∷ (s ++ (b'"' ∷ []))
unfolding quote
quote-plain s h = rw (escaped-plain s h)

joined-append : (ss ts : List (List ℕ)) → joined (ss ++ ts) ≡ joined ss ++ joined ts
joined-append [] ts = refl
joined-append (s ∷ ss) ts =
    ap (λ t. s ++ t) (joined-append ss ts) ∙ sym (append_assoc s (joined ss) (joined ts))

-- Fields that are not the last.
data HasMore : Fields → Type 0 where
  more : (k : List ℕ) (v : Value) (fs : Fields) → HasMore (field k v fs)

-- A member with a text, in front of `c`, and one with a number.
text_member :
    (k v rest : List ℕ) (c : ℕ)
    → is_plain k ≡ true
    → is_plain v ≡ true
    → quote k ++ b':' ∷ (quote v ++ c ∷ rest)
      ≡ b'"' ∷ (k ++ b'"' ∷ b':' ∷ b'"' ∷ (v ++ b'"' ∷ c ∷ rest))
text_member k v rest c p q = rw (quote-plain k p, quote-plain v q) (simp (append_assoc))

number_member :
    (k n rest : List ℕ)
    → is_plain k ≡ true
    → quote k ++ b':' ∷ (n ++ b',' ∷ rest) ≡ b'"' ∷ (k ++ b'"' ∷ b':' ∷ (n ++ b',' ∷ rest))
number_member k n rest p = rw (quote-plain k p) (simp (append_assoc))

-- The members in front of the last one are printed as they are appended.
print_entry :
    (e : Entry) (fs : Fields)
    → IsClean e
    → HasMore fs
    → joined (entry_pieces e) ++ print_fields fs ≡ print_fields (field_of e fs)
unfolding entry_pieces print_fields print
print_entry (str_field k v) fs h (more k' v' fs') =
    simp (append_assoc) (sym (text_member k v (print_fields (field k' v' fs')) b',' h.0 h.1))
print_entry (num_field k n) fs h (more k' v' fs') =
    simp (append_assoc) (sym (number_member k n (print_fields (field k' v' fs')) h.0))
print_entry (time_field k t) fs h (more k' v' fs') =
    simp (append_assoc) (sym (text_member k t (print_fields (field k' v' fs')) b',' h.0 h.1))

fields_of-HasMore : (es : List Entry) (fs : Fields) → HasMore fs → HasMore (fields_of es fs)
fields_of-HasMore [] fs h = h
fields_of-HasMore (str_field k v ∷ es) fs h = more k (str v) (fields_of es fs)
fields_of-HasMore (num_field k n ∷ es) fs h = more k (num n) (fields_of es fs)
fields_of-HasMore (time_field k t ∷ es) fs h = more k (str t) (fields_of es fs)

print_entries :
    (es : List Entry) (fs : Fields)
    → AreClean es
    → HasMore fs
    → joined (entries_pieces es) ++ print_fields fs ≡ print_fields (fields_of es fs)
unfolding entries_pieces
print_entries [] fs h m = refl
print_entries (e ∷ es) fs h m =
    ap (λ t. t ++ print_fields fs) (joined-append (entry_pieces e) (entries_pieces es))
    ∙ append_assoc (joined (entry_pieces e)) (joined (entries_pieces es)) (print_fields fs)
    ∙ ap (λ t. joined (entry_pieces e) ++ t) (print_entries es fs h.1 m)
    ∙ print_entry e (fields_of es fs) h.0 (fields_of-HasMore es fs m)

-- The last member, with the closing brace.
print_last :
    (k v : List ℕ)
    → is_plain k ≡ true
    → is_plain v ≡ true
    → joined (text_key k ∷ v ∷ (b'"' ∷ []) ∷ (b'}' ∷ []) ∷ [])
      ≡ print_fields (field k (str v) no_fields)
unfolding print_fields print
print_last k v p q = simp (append_assoc) (sym (text_member k v [] b'}' p q))

-- The object that the body is meant to be.
abbrev pub body_object : Session → List ℕ → ℕ → Value
body_object s ts will_sound_on = obj (
    fields_of (body_entries s ts will_sound_on)
      (field (codes "is_pull_to_refresh") (str s.is_pull_to_refresh) no_fields))

pub joined-body_pieces :
    (s : Session) (ts : List ℕ) (will : ℕ)
    → AreClean (body_entries s ts will)
    → is_plain s.is_pull_to_refresh ≡ true
    → joined (body_pieces s ts will) ≡ print (body_object s ts will)
unfolding body_pieces print
joined-body_pieces s ts will h q =
    let es = body_entries s ts will in
    let key = codes "is_pull_to_refresh" in
    let v = s.is_pull_to_refresh in
    ap (λ t. b'{' ∷ t)
      (joined-append (entries_pieces es) (text_key key ∷ v ∷ (b'"' ∷ []) ∷ (b'}' ∷ []) ∷ [])
        ∙ ap (λ t. joined (entries_pieces es) ++ t) (print_last key v (unfold is_plain in refl) q)
        ∙ print_entries es (field key (str v) no_fields) h (more key (str v) no_fields))

-- No member is itself nested, and the numbers are integers.
field_of-Integers :
    (e : Entry) (fs : Fields) → IsClean e → FieldsIntegers fs → FieldsIntegers (field_of e fs)
field_of-Integers (str_field k v) fs h i = (tt, i)
field_of-Integers (num_field k n) fs h i = (h.1, i)
field_of-Integers (time_field k t) fs h i = (tt, i)

pub fields_of-Integers :
    (es : List Entry) (fs : Fields)
    → AreClean es
    → FieldsIntegers fs
    → FieldsIntegers (fields_of es fs)
fields_of-Integers [] fs h i = i
fields_of-Integers (e ∷ es) fs h i =
    field_of-Integers e (fields_of es fs) h.0 (fields_of-Integers es fs h.1 i)

field_of-depth : (e : Entry) (fs : Fields) → fields_depth (field_of e fs) ≡ fields_depth fs
unfolding fields_depth depth_of
field_of-depth (str_field k v) fs = omega arith
field_of-depth (num_field k n) fs = omega arith
field_of-depth (time_field k t) fs = omega arith

fields_of-depth : (es : List Entry) (fs : Fields) → fields_depth (fields_of es fs) ≡ fields_depth fs
fields_of-depth [] fs = refl
fields_of-depth (e ∷ es) fs = field_of-depth e (fields_of es fs) ∙ fields_of-depth es fs

pub body_object-depth :
    (s : Session) (ts : List ℕ) (will : ℕ) → depth_of (body_object s ts will) ≡ 1
unfolding depth_of
body_object-depth s ts will = ap suc (
    fields_of-depth (body_entries s ts will)
      (field (codes "is_pull_to_refresh") (str s.is_pull_to_refresh) no_fields))
