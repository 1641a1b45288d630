-- ===== src/Json/Total/Lexemes.antt =====
-- White space, strings and numbers of core/json.c take bytes off the input.
use instagram_on_nt.Prelude.{
  ℕ, zero, suc, ◌+◌, ◌*◌, ◌≤◌, ◌<◌, ◌^◌, ◌⊎◌, ◌≡◌, refl, arith, ◌==◌, Bool, List, [], ◌∷◌, ◌++◌,
  length, Option, none, some, ap, length-append, append_assoc, ◌∙◌,
}
use instagram_on_nt.Prelude.Result.{
  ok, failed, ◌>>=◌, Ensures, Ensures-bind, Ensures-if, Ensures-map, from_option,
}
use native.Mathlib.Nat.{pow-suc}
use instagram_on_nt.Json.{strip}
use instagram_on_nt.Json.Number.{
  Span, digits, one, ◌⨾◌, if_some, number_text, parse_number, no_number, is_minus, is_dot, is_exp,
  is_sign, fraction, exponent,
}
use instagram_on_nt.Json.Text.{
  skip_ws, hex_loop, hex_digit, read_low, read_unicode, utf8, escape, decode, scan,
  parse_string_raw,
}

abbrev pub Shorter {ℓ} : {A : Type ℓ} → List ℕ → A × List ℕ → Type 0
Shorter ts p = length p.1 < length ts

-- What is decoded and what is left fit `n` bytes.
abbrev pub Fits : ℕ → List ℕ × List ℕ → Type 0
Fits n p = length p.0 + length p.1 < n

pub skip_ws-le : (ts : List ℕ) → length (skip_ws ts) ≤ length ts
unfolding skip_ws
skip_ws-le [] = omega arith
skip_ws-le (c ∷ rest) = ground (arith, skip_ws-le rest)

hex_loop-length :
    (n cp : ℕ) (ts : List ℕ) (cp' : ℕ) (r : List ℕ)
    → hex_loop n cp ts ≡ some (cp', r)
    → length r + n ≡ length ts
unfolding hex_loop
hex_loop-length zero cp ts cp' r e = ground arith
hex_loop-length (suc n) cp [] cp' r e = ground arith
hex_loop-length (suc n) cp (h ∷ rest) cp' r e = go (hex_digit h) refl (hex_loop-length n)
  where
    go :
        (d : Option ℕ)
        → hex_digit h ≡ d
        → ((cp : ℕ) (ts : List ℕ) (cp' : ℕ) (r : List ℕ)
            → hex_loop n cp ts ≡ some (cp', r)
            → length r + n ≡ length ts)
        → length r + suc n ≡ suc (length rest)
    go none h ih = ground arith
    go (some d) h ih = ground (arith, ih (cp * 16 + d) rest cp' r)

length-utf8 : (cp : ℕ) → length (utf8 cp) ≤ 4
unfolding utf8
length-utf8 cp = ground arith

length-utf8_short : (cp : ℕ) → cp < 0x10000 → length (utf8 cp) ≤ 3
unfolding utf8
length-utf8_short cp h = ground arith

-- A digit is below 16, so four of them are below 2 ^ 16.
hex_digit-lt : (h d : ℕ) → hex_digit h ≡ some d → d < 16
unfolding hex_digit
hex_digit-lt h d e = ground arith

read_low-le :
    (cp : ℕ) (ts : List ℕ) (cp' : ℕ) (r : List ℕ)
    → read_low cp ts ≡ some (cp', r)
    → (cp' ≡ cp) × (r ≡ ts) ⊎ (length r + 6 ≡ length ts)
unfolding read_low
read_low-le cp [] cp' r e = ground arith
read_low-le cp (b ∷ []) cp' r e = ground arith
read_low-le cp (b ∷ u ∷ rest) cp' r e = go (hex_loop 4 0 rest) refl
  where
    go :
        (o : Option (ℕ × List ℕ))
        → hex_loop 4 0 rest ≡ o
        → (cp' ≡ cp) × (r ≡ b ∷ u ∷ rest) ⊎ (length r + 6 ≡ suc (suc (length rest)))
    go none h = ground arith
    go (some (lo, rest')) h = ground (arith, hex_loop-length 4 0 rest lo rest')

hex_loop-lt :
    (n cp k : ℕ) (ts : List ℕ) (cp' : ℕ) (r : List ℕ)
    → cp < k
    → hex_loop n cp ts ≡ some (cp', r)
    → cp' < k * 16 ^ n
unfolding hex_loop
hex_loop-lt zero cp k ts cp' r h e = ground arith
hex_loop-lt (suc n) cp k [] cp' r h e = ground arith
hex_loop-lt (suc n) cp k (t ∷ rest) cp' r h e = go (hex_digit t) refl (hex_loop-lt n)
  where
    go :
        (d : Option ℕ)
        → hex_digit t ≡ d
        → ((cp k : ℕ) (ts : List ℕ) (cp' : ℕ) (r : List ℕ)
            → cp < k
            → hex_loop n cp ts ≡ some (cp', r)
            → cp' < k * 16 ^ n)
        → cp' < k * 16 ^ suc n
    go none q ih = ground arith
    go (some d) q ih =
        let b = hex_digit-lt t d q in
        let i = ih (cp * 16 + d) (k * 16) rest cp' r (omega arith) (ground arith) in
        omega (arith, i, ap (λ (u : ℕ). k * u) (pow-suc 16 n))

read_unicode-le :
    (ts : List ℕ) (cp : ℕ) (r : List ℕ)
    → read_unicode ts ≡ some (cp, r)
    → length (utf8 cp) + length r < length ts
unfolding read_unicode
read_unicode-le ts cp r e = go (hex_loop 4 0 ts) refl
  where
    go : (o : Option (ℕ × List ℕ)) → hex_loop 4 0 ts ≡ o → length (utf8 cp) + length r < length ts
    go none h = ground arith
    go (some (cp₀, rest)) h = ground (
      arith,
      hex_loop-length 4 0 ts cp₀ rest,
      hex_loop-lt 4 0 1 ts cp₀ rest,
      read_low-le cp₀ rest cp r,
      length-utf8 cp,
      length-utf8_short cp,
    )

-- An escape yields no more bytes than it takes, the backslash included.
pub escape-le :
    (ts out r : List ℕ)
    → escape ts ≡ some (out, r)
    → (length out + length r ≤ length ts) × (length r < length ts)
unfolding escape
escape-le [] out r e = ground arith
escape-le (c ∷ rest) out r e = go (read_unicode rest) refl
  where
    go :
        (o : Option (ℕ × List ℕ))
        → read_unicode rest ≡ o
        → (length out + length r ≤ suc (length rest)) × (length r < suc (length rest))
    go none h = ground arith
    go (some (cp, rest')) h = ground (arith, read_unicode-le rest cp rest')

-- With a round for each byte the second pass ends, and what it decodes fits what it has read.
pub decode-Ensures :
    (f : ℕ) (ts : List ℕ) → length ts < f → Ensures (Fits (length ts)) (decode f ts)
unfolding decode
decode-Ensures zero ts h = elim h [ ]
decode-Ensures (suc f) [] h = tt
decode-Ensures (suc f) (c ∷ rest) h =
    let Q = Fits (suc (length rest)) in
    Ensures-if Q (c == b'"') _ _ (λ _. omega arith)
      (λ _.
        Ensures-if Q (c == 92) _ _ (λ _. escaped (escape rest) refl (λ ts l. decode-Ensures f ts l))
          (λ _.
            Ensures-bind (Fits (length rest)) Q (decode f rest) _
              (decode-Ensures f rest (omega arith)) (λ p l. omega arith)))
  where
    escaped :
        (o : Option (List ℕ × List ℕ))
        → escape rest ≡ o
        → ((ts : List ℕ) → length ts < f → Ensures (Fits (length ts)) (decode f ts))
        → Ensures (Fits (suc (length rest))) (
            from_option o >>= λ (bytes, rest').
            (decode f rest' >>= λ (out, r). ok (bytes ++ out, r)))
    escaped none e ih = tt
    escaped (some (bytes, rest')) e ih =
        let l = escape-le rest bytes rest' e in
        Ensures-bind (Fits (length rest')) _ (decode f rest') _ (ih rest' (omega arith))
          (λ p k. omega (arith, l, length-append bytes p.0))

-- parse_string_raw ends within its fuel on every text, and a string that it returns, its quotes and the
-- text behind it are together no longer than that text.
pub parse_string_raw-Ensures :
    (ts : List ℕ) → Ensures (λ p. Fits (length ts) (b'"' ∷ p.0, p.1)) (parse_string_raw ts)
unfolding parse_string_raw
parse_string_raw-Ensures [] = tt
parse_string_raw-Ensures (c ∷ rest) =
    let Q = λ (p : List ℕ × List ℕ). Fits (suc (length rest)) (b'"' ∷ p.0, p.1) in
    Ensures-if Q (c == b'"') _ _ (λ _. go (scan rest)) (λ _. tt)
  where
    go :
        (o : Option ℕ)
        → Ensures
            (λ p. Fits (suc (length rest)) (b'"' ∷ p.0, p.1))
            (elim o [ none ↦ failed | some n ↦ decode (length rest + 1) rest ])
    go none = tt
    go (some n) =
        Ensures-map (decode (length rest + 1) rest)
          (decode-Ensures (length rest + 1) rest (omega arith)) (λ p h. omega arith)

-- `p` passes over a prefix of the text.
abbrev Splits : (List ℕ → Span) → Type 0
Splits p = (ts : List ℕ) → (p ts).0 ++ (p ts).1 ≡ ts

digits-Splits : Splits digits
unfolding digits
digits-Splits [] = refl
digits-Splits (c ∷ rest) = ground (arith, digits-Splits rest)

one-Splits : (test : ℕ → Bool) → Splits (one test)
unfolding one
one-Splits test [] = refl
one-Splits test (c ∷ rest) = ground arith

⨾-Splits : (p q : List ℕ → Span) → Splits p → Splits q → Splits (p ⨾ q)
⨾-Splits p q hp hq ts = append_assoc (p ts).0 _ _ ∙ ap (λ t. (p ts).0 ++ t) (hq (p ts).1) ∙ hp ts

if_some-Splits : (p q : List ℕ → Span) → Splits p → Splits q → Splits (if_some p q)
if_some-Splits p q hp hq ts = go ((p ts).0)
  where
    go :
        (s : List ℕ)
        → let r : Span = elim s [ [] ↦ ([], ts) | c ∷ cs ↦ (p ⨾ q) ts ] in r.0 ++ r.1 ≡ ts
    go [] = refl
    go (c ∷ cs) = ⨾-Splits p q hp hq ts

number_text-Splits : Splits number_text
unfolding number_text
number_text-Splits = ⨾-Splits (one is_minus) (digits ⨾ fraction ⨾ exponent) (one-Splits is_minus) (
    ⨾-Splits digits (fraction ⨾ exponent) digits-Splits (
      ⨾-Splits fraction exponent
        (if_some-Splits (one is_dot) digits (one-Splits is_dot) digits-Splits)
        (if_some-Splits (one is_exp) (one is_sign ⨾ digits) (one-Splits is_exp)
          (⨾-Splits (one is_sign) digits (one-Splits is_sign) digits-Splits))))

-- A number is a non-empty prefix of the text, kept as it stands.
pub parse_number-Ensures :
    (ts : List ℕ) → Ensures (λ (p : Span). (p.0 ++ p.1 ≡ ts) × (0 < length p.0)) (parse_number ts)
unfolding parse_number
parse_number-Ensures ts =
    Ensures-if (λ (p : Span). (p.0 ++ p.1 ≡ ts) × (0 < length p.0)) (no_number (number_text ts).0) _
      _ (λ _. tt) (λ h. (number_text-Splits ts, ground arith))

pub strip_lem : (lit ts r : List ℕ) → strip lit ts ≡ some r → lit ++ r ≡ ts
unfolding strip
strip_lem [] ts r e = ground arith
strip_lem (c ∷ lit) [] r e = ground arith
strip_lem (c ∷ lit) (t ∷ ts) r e = ground (arith, strip_lem lit ts r)
