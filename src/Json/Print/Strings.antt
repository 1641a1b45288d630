-- ===== src/Json/Print/Strings.antt =====
-- Quoted strings, read back by both passes of parse_string_raw (core/json.c).
use instagram_on_nt.Prelude.{
  ℕ, zero, suc, ◌+◌, ◌<◌, ◌≤◌, ◌≡◌, refl, ap, ◌∙◌, arith, ◌==◌, ◌||◌, false, List, [], ◌∷◌, ◌++◌,
  if◌then◌else◌, length, some, Bool-cases, inl, inr, append_assoc, length-append,
}
use mathlib.Core.Option
use instagram_on_nt.Prelude.Result.{ok}
use instagram_on_nt.Json.Text.{scan, decode, escape, parse_string_raw}

-- A quote or a backslash takes a backslash, any other byte stands for itself.
unfoldable pub escaped : List ℕ → List ℕ
escaped [] = []
escaped (c ∷ s) = if c == b'"' || c == 92 then 92 ∷ c ∷ escaped s else c ∷ escaped s

unfoldable pub quote : List ℕ → List ℕ
unfolding escaped
quote s = b'"' ∷ (escaped s ++ b'"' ∷ [])

scan_plain :
    (c : ℕ) (ts : List ℕ)
    → (c == b'"') ≡ false
    → (c == 92) ≡ false
    → scan (c ∷ ts) ≡ Option.map (λ (n : ℕ). n + 1) (scan ts)
unfolding scan
scan_plain c [] p q = rw p
scan_plain c (d ∷ ts) p q = rw (p, q)

scan_hidden : (d : ℕ) (ts : List ℕ) → scan (92 ∷ d ∷ ts) ≡ Option.map (λ (n : ℕ). n + 2) (scan ts)
unfolding scan
scan_hidden d ts = refl

-- The first pass finds the closing quote.
scan-escaped : (s rest : List ℕ) → (n : ℕ) × (scan (escaped s ++ b'"' ∷ rest) ≡ some n)
unfolding escaped
scan-escaped [] [] = (0, unfold scan in refl)
scan-escaped [] (d ∷ rest) = (0, unfold scan in refl)
scan-escaped (c ∷ s) rest =
    let ih = scan-escaped s rest in
    elim (Bool-cases (c == b'"' || c == 92)) [
      | inl t ↦ (ih.0 + 2, rw t (scan_hidden c _ ∙ (rw (ih.1))))
      | inr t ↦ (ih.0 + 1, rw t (scan_plain c _ (ground arith) (ground arith) ∙ (rw (ih.1))))
    ]

-- The second pass decodes to the string, with a round for each byte.
decode-escaped :
    (s rest : List ℕ) (f : ℕ) → length s < f → decode f (escaped s ++ b'"' ∷ rest) ≡ ok (s, rest)
unfolding escaped decode
decode-escaped s rest zero h = elim h [ ]
decode-escaped [] rest (suc f) h = refl
decode-escaped (c ∷ s) rest (suc f) h =
    let ih = decode-escaped s rest f (omega arith) in
    elim (Bool-cases (c == b'"' || c == 92)) [
      | inl t ↦ rw t (
          let e : escape (c ∷ (escaped s ++ b'"' ∷ rest))
              ≡ some (c ∷ [], escaped s ++ b'"' ∷ rest) =
            (unfold escape in ground arith) in
          rw e (rw ih))
      | inr t ↦
          let p : (c == b'"') ≡ false = ground arith in
          let q : (c == 92) ≡ false = ground arith in rw t (rw (p, q, ih))
    ]

length-escaped : (s : List ℕ) → length s ≤ length (escaped s)
unfolding escaped
length-escaped [] = omega arith
length-escaped (c ∷ s) = ground (arith, length-escaped s)

terminated :
    (ts : List ℕ) (n : ℕ)
    → scan ts ≡ some n
    → parse_string_raw (b'"' ∷ ts) ≡ decode (length ts + 1) ts
unfolding parse_string_raw
terminated ts n e = rw e

-- Any bytes, quoted, are read back, whatever stands behind the closing quote.
pub parse_string_raw-quote : (s rest : List ℕ) → parse_string_raw (quote s ++ rest) ≡ ok (s, rest)
unfolding quote
parse_string_raw-quote s rest =
    let ts = escaped s ++ b'"' ∷ rest in
    ap (λ t. parse_string_raw (b'"' ∷ t)) (append_assoc (escaped s) (b'"' ∷ []) rest)
    ∙ terminated ts (scan-escaped s rest).0 (scan-escaped s rest).1
    ∙ decode-escaped s rest (length ts + 1)
        (omega (arith, length-escaped s, length-append (escaped s) (b'"' ∷ rest)))
