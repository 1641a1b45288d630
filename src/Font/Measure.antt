-- ===== src/Font/Measure.antt =====
-- measure of core/font.c passes over whole symbols within the string.
use instagram_on_nt.Prelude.{
  ℕ, zero, suc, ◌+◌, ◌-◌, ◌<◌, ◌≤◌, ◌≡◌, ◌≢◌, refl, arith, ◌==◌, ◌&&◌, ◌||◌, not, Bool, true, false,
  List, [], ◌∷◌, Option, none, some, ltb, if◌then◌else◌, if_elim, get_or, length, drop, length-drop,
  bit_and, Bool-cases, inl, inr,
}
use instagram_on_nt.Prelude.Int.{ℤ, pos, pos_part, leb_ℤ}
use instagram_on_nt.Font.{
  HangulFont, Symbol, Measured, utf8_seq_len, utf8_seq_valid, valid_loop, seq_len, symbol_at,
  hangul_symbol, hangul_lookup, codepoint, is_ascii, measure_loop, measure, font_fit_width,
}

get_or-lt : (p : List ℕ) (i : ℕ) → get_or p i 0 ≢ 0 → i < length p
get_or-lt [] i h = absurd (h refl)
get_or-lt (c ∷ p) zero h = omega arith
get_or-lt (c ∷ p) (suc i) h = omega (arith, get_or-lt p i h)

or_split : (a b : Bool) → (a || b) ≡ false → a ≡ false
or_split a b h = ground arith

if_false : (b r : Bool) → (if b then false else r) ≡ true → (b ≡ false) × (r ≡ true)
if_false b r h = ground arith

when_long : (a v : Bool) → (a && not v) ≡ false → a ≡ true → v ≡ true
when_long a v h k = ground arith

-- A sequence whose bytes are all there ends within the string.
valid_loop-length : (p : List ℕ) (i n : ℕ) → valid_loop p i n ≡ true → 0 < n → i + n ≤ length p
unfolding valid_loop
valid_loop-length p i zero h k = absurd (omega arith)
valid_loop-length p i (suc zero) h k =
    let here = if_false _ _ h in
    let a : (get_or p i 0 == 0) ≡ false = or_split _ _ here.0 in
    omega (arith, get_or-lt p i (ground arith))
valid_loop-length p i (suc (suc n)) h k =
    let bad = get_or p i 0 == 0 || not (bit_and (get_or p i 0) 0xC0 == 0x80) in
    let later = (if_false bad (valid_loop p (i + 1) (suc n)) h).1 in
    let l = valid_loop-length p (i + 1) (suc n) later (omega arith) in omega (arith, l)

utf8_seq_len-low : (c : ℕ) → 1 ≤ utf8_seq_len c
unfolding utf8_seq_len
utf8_seq_len-low c = ground arith

-- A symbol takes a byte at least, and no more than there are.
abbrev InString : List ℕ → ℕ → Type 0
InString p n = (1 ≤ n) × (n ≤ length p)

valid_length : (p : List ℕ) (n : ℕ) → utf8_seq_valid p n ≡ true → 1 < n → n ≤ length p
unfolding utf8_seq_valid
valid_length p n h k = omega (arith, valid_loop-length p 1 (n - 1) h (omega arith))

seq_len-InString : (c : ℕ) (s : List ℕ) → InString (c ∷ s) (seq_len c (c ∷ s))
unfolding seq_len
seq_len-InString c s =
    let p = c ∷ s in
    let n = utf8_seq_len c in
    let low = utf8_seq_len-low c in
    if_elim (InString p) (ltb 1 n && not (utf8_seq_valid p n)) (λ _. (omega arith, omega arith))
      (λ e. elim (Bool-cases (ltb 1 n)) [
        | inl t ↦
            let l = valid_length p n (when_long _ _ e t) (ground arith) in
            (omega (arith, low), omega (arith, l, low))
        | inr f ↦ (omega (arith, low), ground arith)
      ])

hangul_symbol-len : (font : HangulFont) (n : ℕ) (o : Option ℕ) → (hangul_symbol font n o).len ≡ n
unfolding hangul_symbol
hangul_symbol-len font n none = refl
hangul_symbol-len font n (some i) = refl

symbol_at-InString :
    (font : HangulFont) (c : ℕ) (s : List ℕ) → InString (c ∷ s) (symbol_at font c (c ∷ s)).len
unfolding symbol_at
symbol_at-InString font c s =
    let p = c ∷ s in
    let n = seq_len c p in
    let fits = seq_len-InString c s in
    let P : Symbol → Type 0 = λ y. InString p y.len in
    if_elim P (is_ascii c) (λ _. (omega arith, omega arith))
      (λ _.
        if_elim P (n == 3)
          (λ _.
            let e = hangul_symbol-len font n (hangul_lookup font.codepoints (codepoint c p)) in
            (omega (arith, e, fits.0), omega (arith, e, fits.1)))
          (λ _. fits))

-- How far a walk over `p` moves the end.
abbrev Moves : Measured → List ℕ → Measured → Type 0
Moves m p r = (m.out_len ≤ r.out_len) × (r.out_len ≤ m.out_len + length p)

stays : (m : Measured) (p : List ℕ) → Moves m p m
stays m p = (omega arith, omega arith)

measure_loop-Moves :
    (fuel : ℕ) (font : HangulFont) (max_w : ℤ) (m : Measured) (p : List ℕ)
    → Moves m p (measure_loop fuel font max_w m p)
unfolding measure_loop
measure_loop-Moves zero font max_w m p = stays m p
measure_loop-Moves (suc fuel) font max_w m [] = stays m []
measure_loop-Moves (suc fuel) font max_w m (c ∷ s) =
    let p = c ∷ s in
    let y = symbol_at font c p in
    let next : Measured = record {
      width = m.width + y.adv;
      any = true;
      out_len = m.out_len + y.len;
    } in
    let fits = symbol_at-InString font c s in
    let more = measure_loop-Moves fuel font max_w next (drop y.len p) in
    if_elim (Moves m p) (c == 10) (λ _. stays m p)
      (λ _.
        if_elim (Moves m p)
          (leb_ℤ (pos 0) max_w && (m.any && ltb (pos_part max_w) (m.width + y.adv - 1)))
          (λ _. stays m p)
          (λ _.
            (omega (arith, more.0, fits.0), omega (arith, more.1, fits.1, length-drop y.len p))))

never : (a : Bool) → (a && false) ≡ true → ⊥
never a h = ground arith

-- The first symbol is taken whatever its width.
measure_loop-first :
    (fuel : ℕ) (font : HangulFont) (max_w : ℤ) (c : ℕ) (s : List ℕ)
    → c ≢ 10
    → 1
      ≤ (measure_loop
          (suc fuel)
          font
          max_w
          (record { width = 0; any = false; out_len = 0 })
          (c ∷ s)).out_len
unfolding measure_loop
measure_loop-first fuel font max_w c s h =
    let p = c ∷ s in
    let y = symbol_at font c p in
    let next : Measured = record { width = 0 + y.adv; any = true; out_len = 0 + y.len } in
    let P : Measured → Type 0 = λ r. 1 ≤ r.out_len in
    let fits = symbol_at-InString font c s in
    let more = measure_loop-Moves fuel font max_w next (drop y.len p) in
    if_elim P (c == 10) (λ e. absurd (h (ground arith)))
      (λ _.
        if_elim P (leb_ℤ (pos 0) max_w && (false && ltb (pos_part max_w) (0 + y.adv - 1)))
          (λ e. absurd (never _ e)) (λ _. omega (arith, more.0, fits.0)))

-- On a string that starts with a byte that is no line feed, font_fit_width passes over one byte at
-- least, and over no more bytes than the string has.
pub font_fit_width-progress :
    (font : HangulFont) (c : ℕ) (s : List ℕ) (max_w : ℤ)
    → c ≢ 10
    → (1 ≤ (font_fit_width font (c ∷ s) max_w).1)
      × ((font_fit_width font (c ∷ s) max_w).1 ≤ length (c ∷ s))
unfolding font_fit_width measure
font_fit_width-progress font c s max_w h =
    let start : Measured = record { width = 0; any = false; out_len = 0 } in
    let end = measure_loop-Moves (suc (length s)) font max_w start (c ∷ s) in
    (measure_loop-first (length s) font max_w c s h, omega (arith, end.1))

-- Within the string, whatever it starts with.
pub font_fit_width-bound :
    (font : HangulFont) (str : List ℕ) (max_w : ℤ) → (font_fit_width font str max_w).1 ≤ length str
unfolding font_fit_width measure
font_fit_width-bound font str max_w =
    let start : Measured = record { width = 0; any = false; out_len = 0 } in
    let end = measure_loop-Moves (length str) font max_w start str in omega (arith, end.1)
