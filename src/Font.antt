-- ===== src/Font.antt =====
-- core/font.c: the bitmap font. `str` is the list of the bytes in front of its NUL, so a byte behind
-- its end reads as 0. The generated Hangul table is a parameter. Text is taken to be narrower than an
-- `int` counts.
pub mod Latin
pub mod Lookup
pub mod Measure
use instagram_on_nt.Prelude.{
  ℕ, zero, suc, ◌+◌, ◌-◌, ◌*◌, ◌/◌, ◌%◌, ◌^◌, ◌==◌, ◌&&◌, ◌||◌, not, Bool, true, false, List, [],
  ◌∷◌, Option, none, some, ltb, leb, if◌then◌else◌, get_or, drop, length, bit_and, bit_or,
}
use instagram_on_nt.Prelude.Int.{ℤ, pos, pos_part, ◌+ℤ◌, ◌-ℤ◌, ◌*ℤ◌, leb_ℤ, ltb_ℤ, int32}
use instagram_on_nt.Raster.{Surface}
use instagram_on_nt.Raster.Draw.{Rect, surface_blend_rect}
use Latin.{latin_font}

-- HANGUL_CODEPOINTS, HANGUL_GLYPHS and HANGUL_W; a glyph has a word for each of its rows.
pub record HangulFont : Type 0 where
  pub codepoints : List ℕ
  pub glyphs : List (List ℕ)
  pub glyph_w : ℕ

-- The binary search from `lo` up to `hi`, which is -1 in the source where `end` is 0 here.
unfoldable pub lookup_loop : ℕ → List ℕ → ℕ → ℕ → ℕ → Option ℕ
lookup_loop zero table cp lo end = none
lookup_loop (suc fuel) table cp lo end =
    let mid = (lo + (end - 1)) / 2 in
    let v = get_or table mid 0 in
    let above = lookup_loop fuel table cp (mid + 1) end in
    let below = lookup_loop fuel table cp lo mid in
    if leb end lo then none else if v == cp then some mid else if ltb v cp then above else below

unfoldable pub hangul_lookup : List ℕ → ℕ → Option ℕ
unfolding lookup_loop
hangul_lookup table cp = lookup_loop (length table + 1) table cp 0 (length table)

unfoldable pub utf8_seq_len : ℕ → ℕ
utf8_seq_len c =
    if bit_and c 0xE0 == 0xC0
    then 2
    else if bit_and c 0xF0 == 0xE0
    then 3
    else if bit_and c 0xF8 == 0xF0
    then 4
    else 1

-- The loop over `n` bytes from `p[i]` on.
unfoldable pub valid_loop : List ℕ → ℕ → ℕ → Bool
valid_loop p i zero = true
valid_loop p i (suc n) =
    let rest = valid_loop p (i + 1) n in
    if get_or p i 0 == 0 || not (bit_and (get_or p i 0) 0xC0 == 0x80) then false else rest

unfoldable pub utf8_seq_valid : List ℕ → ℕ → Bool
unfolding valid_loop
utf8_seq_valid p seqlen = valid_loop p 1 (seqlen - 1)

abbrev pub font_w : ℕ
font_w = 5

abbrev pub font_adv : ℕ
font_adv = 6

abbrev pub font_line : ℕ
font_line = 8

-- The bytes of a sequence, or 1 if it is cut short.
unfoldable pub seq_len : ℕ → List ℕ → ℕ
unfolding utf8_seq_len utf8_seq_valid
seq_len c p = let n = utf8_seq_len c in if ltb 1 n && not (utf8_seq_valid p n) then 1 else n

unfoldable pub codepoint : ℕ → List ℕ → ℕ
codepoint c p =
    bit_or (bit_or (bit_and c 0x0F * 2 ^ 12) (bit_and (get_or p 1 0) 0x3F * 2 ^ 6))
      (bit_and (get_or p 2 0) 0x3F)

abbrev pub is_ascii : ℕ → Bool
is_ascii c = leb 32 c && leb c 126

-- What stands at `p`: its bytes, its advance, and the index of its Hangul glyph.
pub record Symbol : Type 0 where
  pub len : ℕ
  pub adv : ℕ
  pub glyph : Option ℕ

unfoldable pub hangul_symbol : HangulFont → ℕ → Option ℕ → Symbol
hangul_symbol font n none = record { len = n; adv = font_adv; glyph = none }
hangul_symbol font n (some i) = record { len = n; adv = font.glyph_w + 1; glyph = some i }

unfoldable pub symbol_at : HangulFont → ℕ → List ℕ → Symbol
unfolding seq_len codepoint hangul_symbol hangul_lookup
symbol_at font c p =
    let n = seq_len c p in
    if is_ascii c
    then record { len = 1; adv = font_adv; glyph = none }
    else if n == 3
    then hangul_symbol font n (hangul_lookup font.codepoints (codepoint c p))
    else record { len = n; adv = font_adv; glyph = none }

-- `width`, `any`, and the bytes that have been passed.
pub record Measured : Type 0 where
  pub width : ℕ
  pub any : Bool
  pub out_len : ℕ

unfoldable pub measure_loop : ℕ → HangulFont → ℤ → Measured → List ℕ → Measured
unfolding symbol_at
measure_loop zero font max_w m p = m
measure_loop (suc fuel) font max_w m [] = m
measure_loop (suc fuel) font max_w m (c ∷ s) =
    let y = symbol_at font c (c ∷ s) in
    let next =
      measure_loop fuel font max_w
        (record { width = m.width + y.adv; any = true; out_len = m.out_len + y.len })
        (drop y.len (c ∷ s)) in
    if c == 10
    then m
    else if leb_ℤ (pos 0) max_w && (m.any && ltb (pos_part max_w) (m.width + y.adv - 1))
    then m
    else next

-- The width and `*out_len`.
unfoldable pub measure : HangulFont → List ℕ → ℤ → ℕ × ℕ
unfolding measure_loop
measure font str max_w =
    let m =
      measure_loop (length str) font max_w (record { width = 0; any = false; out_len = 0 }) str in
    (if m.any then m.width - 1 else 0, m.out_len)

unfoldable pub font_text_width : HangulFont → List ℕ → ℤ → ℤ
unfolding measure
font_text_width font str scale =
    let scale = if ltb_ℤ scale (pos 1) then pos 1 else scale in
    pos (measure font str (pos 0 -ℤ pos 1)).0 *ℤ scale

unfoldable pub font_fit_width : HangulFont → List ℕ → ℤ → ℕ × ℕ
unfolding measure
font_fit_width font str max_w = measure font str max_w

abbrev pub bit_at : ℕ → ℕ → Bool
bit_at bits i = bits / 2 ^ i % 2 == 1

-- The columns of a glyph's row from `col` on; `n` are left.
unfoldable pub draw_row : Surface → ℤ → ℤ → ℤ → ℕ → ℕ → ℕ → ℕ → Surface
draw_row s x y scale color bits col zero = s
draw_row s x y scale color bits col (suc n) =
    let r : Rect = record {
      x = int32 (x +ℤ int32 (pos col *ℤ scale));
      y = y;
      w = scale;
      h = scale;
    } in
    let t = if bit_at bits n then surface_blend_rect s r color else s in
    draw_row t x y scale color bits (col + 1) n

-- The rows of a glyph of width `w` from `row` on.
unfoldable pub draw_rows : Surface → ℤ → ℤ → ℤ → ℕ → ℕ → ℕ → List ℕ → Surface
unfolding draw_row
draw_rows s x y scale color w row [] = s
draw_rows s x y scale color w row (bits ∷ glyph) =
    draw_rows (draw_row s x (int32 (y +ℤ int32 (pos row *ℤ scale))) scale color bits 0 w) x y scale
      color w (row + 1) glyph

unfoldable pub draw_symbol : HangulFont → Surface → ℤ → ℤ → ℤ → ℕ → ℕ → Option ℕ → Surface
unfolding draw_rows
draw_symbol font s x y scale color c (some i) =
    draw_rows s x y scale color font.glyph_w 0 (get_or font.glyphs i [])
draw_symbol font s x y scale color c none =
    if is_ascii c then draw_rows s x y scale color font_w 0 (get_or latin_font (c - 32) []) else s

-- The loop, at the cursor `cx`, `y`; `x` is where a line starts.
unfoldable pub draw_loop : ℕ → HangulFont → Surface → ℤ → ℤ → ℤ → ℤ → ℕ → List ℕ → Surface
unfolding symbol_at draw_symbol
draw_loop zero font s x cx y scale color p = s
draw_loop (suc fuel) font s x cx y scale color [] = s
draw_loop (suc fuel) font s x cx y scale color (c ∷ p) =
    let v = symbol_at font c (c ∷ p) in
    let line =
      draw_loop fuel font s x x (int32 (y +ℤ int32 (pos font_line *ℤ scale))) scale color p in
    let next =
      draw_loop fuel font (draw_symbol font s cx y scale color c v.glyph) x
        (int32 (cx +ℤ int32 (pos v.adv *ℤ scale))) y scale color (drop v.len (c ∷ p)) in
    if c == 10 then line else next

unfoldable pub font_draw_scaled : HangulFont → Surface → ℤ → ℤ → List ℕ → ℕ → ℤ → Surface
unfolding draw_loop
font_draw_scaled font s x y str color scale =
    let scale = if ltb_ℤ scale (pos 1) then pos 1 else scale in
    draw_loop (length str) font s x x y scale color str

unfoldable pub font_draw : HangulFont → Surface → ℤ → ℤ → List ℕ → ℕ → Surface
unfolding font_draw_scaled
font_draw font s x y str color = font_draw_scaled font s x y str color (pos 1)
