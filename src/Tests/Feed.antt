-- ===== src/Tests/Feed.antt =====
-- Runs of ui/feed.c, and its property at a concrete caption.
use instagram_on_nt.Prelude.{◌≤◌, ◌≡◌, refl, [], ◌∷◌, length, codes}
use instagram_on_nt.Prelude.Int.{pos}
use instagram_on_nt.Font.{
  HangulFont, font_fit_width, measure, measure_loop, symbol_at, hangul_symbol, seq_len,
  utf8_seq_len, utf8_seq_valid, valid_loop, codepoint, hangul_lookup, lookup_loop,
}
use instagram_on_nt.Feed.{format_likes, likes_digits, wrap_caption, wrap_loop, lines_hard_cap}
use instagram_on_nt.Feed.Wrap.{InOrder, wrap_caption-InOrder}

likes_lem : format_likes 32 (pos 1204) ≡ codes "1204 likes"
unfolding format_likes likes_digits
likes_lem = refl

abbrev plain_font : HangulFont
plain_font = record { codepoints = []; glyphs = []; glyph_w = 18 }

-- Four letters fit a width of 24, and a line feed ends a line.
wrap_lem :
    wrap_caption plain_font (codes "abcdef\ngh") (pos 24)
    ≡ record { off = 0; len = 4 } ∷ record { off = 4; len = 2 } ∷ record { off = 7; len = 2 } ∷ []
unfolding wrap_caption wrap_loop font_fit_width measure measure_loop symbol_at hangul_symbol seq_len
    utf8_seq_len utf8_seq_valid valid_loop codepoint hangul_lookup lookup_loop
wrap_lem = refl

wrap_caption-InOrder_example :
    (length (wrap_caption plain_font (codes "abcdef\ngh") (pos 24)) ≤ lines_hard_cap)
    × InOrder 0
        (length (codes "abcdef\ngh"))
        (wrap_caption plain_font (codes "abcdef\ngh") (pos 24))
wrap_caption-InOrder_example = wrap_caption-InOrder plain_font (codes "abcdef\ngh") (pos 24)
