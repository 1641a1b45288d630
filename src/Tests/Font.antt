-- ===== src/Tests/Font.antt =====
-- Runs of core/font.c, and its properties at a table of two code points.
use instagram_on_nt.Prelude.{
  ℕ, zero, suc, ◌≤◌, ◌<◌, ◌≡◌, ◌↔◌, refl, arith, List, [], ◌∷◌, some, length, get_or,
}
use instagram_on_nt.Prelude.Int.{pos}
use instagram_on_nt.Font.{
  HangulFont, hangul_lookup, lookup_loop, measure, measure_loop, symbol_at, hangul_symbol, seq_len,
  utf8_seq_len, utf8_seq_valid, valid_loop, codepoint, font_fit_width,
}
use instagram_on_nt.Font.Lookup.{Ascends, hangul_lookup_iff}
use instagram_on_nt.Font.Measure.{font_fit_width-progress}

abbrev table : List ℕ
table = 0xAC00 ∷ 0xD55C ∷ []

abbrev font : HangulFont
font = record { codepoints = table; glyphs = [] ∷ [] ∷ []; glyph_w = 18 }

-- A letter and the syllable U+D55C.
abbrev mixed : List ℕ
mixed = b'a' ∷ 0xED ∷ 0x95 ∷ 0x9C ∷ []

mixed_lem : measure font mixed (pos 100) ≡ (24, 4)
unfolding measure measure_loop symbol_at hangul_symbol seq_len utf8_seq_len utf8_seq_valid
    valid_loop codepoint hangul_lookup lookup_loop
mixed_lem = refl

table-Ascends : Ascends table
table-Ascends zero zero h k = absurd (omega arith)
table-Ascends zero (suc zero) h k = omega arith
table-Ascends zero (suc (suc j)) h k = absurd (omega arith)
table-Ascends (suc i) zero h k = absurd (omega arith)
table-Ascends (suc i) (suc zero) h k = absurd (omega arith)
table-Ascends (suc i) (suc (suc j)) h k = absurd (omega arith)

hangul_lookup_iff_example :
    (hangul_lookup table 0xD55C ≡ some 1) ↔ ((1 < length table) × (get_or table 1 0 ≡ 0xD55C))
hangul_lookup_iff_example = hangul_lookup_iff table 0xD55C 1 table-Ascends

font_fit_width-progress_example :
    (1 ≤ (font_fit_width font mixed (pos 3)).1)
    × ((font_fit_width font mixed (pos 3)).1 ≤ length mixed)
font_fit_width-progress_example =
    font_fit_width-progress font b'a' (0xED ∷ 0x95 ∷ 0x9C ∷ []) (pos 3) (omega arith)
