-- ===== src/Feed/Card.antt =====
-- ui/feed.c: the caption block of a card, drawn and measured; the measuring run has no surface.
use instagram_on_nt.Prelude.{
  ℕ, ◌+◌, ◌-◌, ◌*◌, Bool, true, false, ◌&&◌, ◌||◌, not, List, [], ◌∷◌, Option, none, some, ltb, leb,
  if◌then◌else◌, length, take, drop, min,
}
use instagram_on_nt.Prelude.Int.{ℤ, pos, ltb_ℤ, add_int, sub_int}
use instagram_on_nt.Raster.{Surface}
use instagram_on_nt.Font.{HangulFont, font_draw, font_text_width, font_fit_width, font_line}
use instagram_on_nt.Feed.{CapLine, lines_collapsed, wrap_caption}
use instagram_on_nt.Feed.Panels.{c_shadow, c_ink, c_text}

-- FONT_WIDE_LINE
abbrev pub font_wide_line : ℕ
font_wide_line = 19

-- The bytes of " 더보기" in UTF-8.
abbrev pub more_label : List ℕ
more_label = 0x20 ∷ 0xEB ∷ 0x8D ∷ 0x94 ∷ 0xEB ∷ 0xB3 ∷ 0xB4 ∷ 0xEA ∷ 0xB8 ∷ 0xB0 ∷ []

abbrev pub line_buf_cap : ℕ
line_buf_cap = 512

-- The `len` bytes of a line, as far as `buf` holds them.
abbrev pub line_text : List ℕ → ℕ → List ℕ
line_text text len = take (min len (line_buf_cap - 1)) text

unfoldable pub draw_line : HangulFont → Surface → ℤ → ℤ → List ℕ → ℕ → ℕ → Surface
unfolding font_draw
draw_line font s x y text len color = font_draw font s x y (line_text text len) color

unfoldable pub draw_line_with_suffix :
    HangulFont → Surface → ℤ → ℤ → List ℕ → ℕ → List ℕ → ℕ → ℕ → Surface
unfolding font_draw font_text_width add_int
draw_line_with_suffix font s x y text len suffix text_color suffix_color =
    let buf = line_text text len in
    let s = font_draw font s x y buf text_color in
    font_draw font s (add_int x (font_text_width font buf (pos 1))) y suffix suffix_color

-- `if (s)`; `none` is NULL.
abbrev pub on_surface : Option Surface → (Surface → Surface) → Option Surface
on_surface none draw = none
on_surface (some s) draw = some (draw s)

-- `if (text)`, for a text that is drawn.
abbrev pub draw_text : HangulFont → ℤ → ℤ → ℕ → Option (List ℕ) → Surface → Surface
draw_text font x y color none s = s
draw_text font x y color (some text) s = font_draw font s x y text color

-- The bytes of a caption; NULL has no lines, as an empty one.
abbrev pub bytes_of : Option (List ℕ) → List ℕ
bytes_of none = []
bytes_of (some text) = text

-- What the loop's body draws; `cut` is that a longer caption ends in this line.
unfoldable pub draw_caption_line :
    HangulFont → ℤ → ℤ → ℤ → List ℕ → Bool → CapLine → Surface → Surface
unfolding draw_line draw_line_with_suffix font_fit_width font_text_width sub_int c_ink c_shadow
draw_caption_line font cx y cw caption cut line s =
    let text = drop line.off caption in
    let room = sub_int cw (font_text_width font more_label (pos 1)) in
    let budget = if ltb_ℤ room (pos 0) then pos 0 else room in
    let len = (font_fit_width font text budget).1 in
    if cut
    then draw_line_with_suffix font s cx y text len more_label c_ink c_shadow
    else draw_line font s cx y text line.len c_ink

abbrev pub is_last : List CapLine → Bool
is_last [] = true
is_last (l ∷ ls) = false

-- The visible lines that are left, from `y` on; the surface and `y` at the end.
unfoldable pub caption_lines :
    HangulFont → Option Surface → ℤ → ℤ → ℤ → List ℕ → Bool → List CapLine → Option Surface × ℤ
unfolding draw_caption_line add_int
caption_lines font s cx y cw caption truncated [] = (s, y)
caption_lines font s cx y cw caption truncated (line ∷ lines) =
    let cut = truncated && is_last lines in
    caption_lines font (on_surface s (draw_caption_line font cx y cw caption cut line)) cx
      (add_int y (pos font_wide_line)) cw caption truncated lines

-- `visible`, for a caption of `total` lines.
unfoldable pub visible_lines : ℕ → Bool → ℕ
visible_lines total expanded =
    if expanded || leb total lines_collapsed then total else lines_collapsed

-- The comments line, and the height that is returned.
unfoldable pub caption_end :
    HangulFont → ℤ → ℤ → Option (List ℕ) → Option Surface × ℤ → Option Surface × ℤ
unfolding font_draw c_shadow add_int sub_int
caption_end font cx cy none (s, y) = (s, sub_int y cy)
caption_end font cx cy (some comments) (s, y) = (
  on_surface s (λ s. font_draw font s cx y comments c_shadow),
  sub_int (add_int y (pos font_line)) cy,
)

unfoldable pub caption_block :
    HangulFont
    → Option Surface
    → ℤ
    → ℤ
    → ℤ
    → List ℕ
    → List ℕ
    → Option (List ℕ)
    → Option (List ℕ)
    → Bool
    → Option Surface × ℤ
unfolding font_draw c_text add_int wrap_caption visible_lines caption_lines caption_end
caption_block font s cx cy cw likes user caption comments expanded =
    let s = on_surface s (λ s. font_draw font s cx cy likes c_text) in
    let y = add_int cy (pos (font_line + 1)) in
    let s = on_surface s (λ s. font_draw font s cx y user c_text) in
    let y = add_int y (pos font_wide_line) in
    let lines = wrap_caption font (bytes_of caption) cw in
    let total = length lines in
    let truncated = not expanded && ltb lines_collapsed total in
    caption_end font cx cy comments (
      caption_lines font s cx y cw (bytes_of caption) truncated
        (take (visible_lines total expanded) lines))

abbrev pub post_pad : ℕ
post_pad = 8

-- POST_GAP
abbrev pub post_gap : ℕ
post_gap = 6

-- `w - 2 * POST_PAD`
abbrev pub content_width : ℤ → ℤ
content_width w = sub_int w (pos (2 * post_pad))

unfoldable pub post_card_height :
    HangulFont → ℤ → List ℕ → List ℕ → Option (List ℕ) → Option (List ℕ) → Bool → ℤ
unfolding caption_block add_int sub_int
post_card_height font w likes user caption comments expanded =
    let photo_h = content_width w in
    let cap_h =
      (caption_block font none (pos 0) (pos 0) (content_width w) likes user caption comments
        expanded).1 in
    add_int (add_int (add_int (add_int (pos 40) photo_h) (pos 26)) cap_h) (pos post_pad)
