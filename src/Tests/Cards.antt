-- ===== src/Tests/Cards.antt =====
-- Runs of the cards and the clicks of ui/feed.c, and their properties at concrete posts.
use instagram_on_nt.Prelude.{
  ℕ, List, ◌≡◌, refl, ap, arith, true, false, [], ◌∷◌, Option, none, some, codes,
}
use instagram_on_nt.Prelude.Int.{pos, pos_part, uint32, ◌+ℤ◌, ◌-ℤ◌, add_int, sub_int}
use instagram_on_nt.Raster.{Surface}
use instagram_on_nt.Font.{
  HangulFont, font_fit_width, measure, measure_loop, symbol_at, hangul_symbol, seq_len,
  utf8_seq_len, utf8_seq_valid, valid_loop, codepoint, hangul_lookup, lookup_loop,
}
use instagram_on_nt.Feed.{wrap_caption, wrap_loop, format_likes, likes_digits}
use instagram_on_nt.Feed.Card.{
  caption_block, caption_lines, caption_end, visible_lines, post_card_height,
}
use instagram_on_nt.Feed.View.{
  FeedPost, FeedData, FeedImages, content_y, real_card_height, click_loop, ui_feed_content_height,
  ui_feed_content_height_real, ui_feed_click_real,
}
use instagram_on_nt.Feed.Render.{fill_mock_posts, fill_real_posts}
use instagram_on_nt.Feed.Heights.{fill_posts-height}
use instagram_on_nt.Feed.Clicks.{
  Clicked, clicked_posts, toggled, ui_feed_click_real-Clicked, ui_feed_click_real-app_bar,
}

abbrev small_font : HangulFont
small_font = record { codepoints = []; glyphs = []; glyph_w = 18 }

abbrev long_caption : Option (List ℕ)
long_caption = some (codes "one two three four five six seven eight nine ten eleven twelve")

abbrev long_post : FeedPost
long_post = record {
  username = codes "a";
  caption = long_caption;
  like_count = pos 7;
  photo = none;
  expanded = false;
}

abbrev short_post : FeedPost
short_post = record {
  username = codes "b";
  caption = none;
  like_count = pos 0;
  photo = none;
  expanded = false;
}

-- At the width 112 the content is 84 wide, and two of the caption's five lines show.
long_post_height : real_card_height small_font (pos 100) long_post ≡ pos 224
unfolding real_card_height post_card_height caption_block caption_lines caption_end visible_lines
    format_likes likes_digits wrap_caption wrap_loop font_fit_width measure measure_loop symbol_at
    hangul_symbol seq_len utf8_seq_len utf8_seq_valid valid_loop codepoint hangul_lookup lookup_loop
    add_int sub_int uint32 ◌+ℤ◌ ◌-ℤ◌
long_post_height = refl

abbrev posts : FeedData
posts = long_post ∷ short_post ∷ []

-- A click on the second card, at 240 of the content.
second_click :
    ui_feed_click_real small_font (pos 50) (pos 170) (pos 100) (pos 112) (some posts)
    ≡ (true, some (long_post ∷ toggled short_post ∷ []))
unfolding ui_feed_click_real click_loop real_card_height post_card_height caption_block
    caption_lines caption_end visible_lines format_likes likes_digits wrap_caption wrap_loop
    font_fit_width measure measure_loop symbol_at hangul_symbol seq_len utf8_seq_len utf8_seq_valid
    valid_loop codepoint hangul_lookup lookup_loop add_int sub_int uint32 ◌+ℤ◌ ◌-ℤ◌
second_click = refl

abbrev canvas : Surface
canvas = record { pixels = []; w = 112; h = 0; stride = 112; owns = 0 }

fill_posts-height_example :
    ((imgs : Option FeedImages)
      → (fill_mock_posts small_font imgs canvas).1 ≡ ui_feed_content_height small_font (pos 112))
    × ((user : Option FeedData)
        → (fill_real_posts small_font user canvas).1
          ≡ ui_feed_content_height_real small_font (pos 112) user)
fill_posts-height_example = fill_posts-height small_font canvas

ui_feed_click_real-Clicked_example :
    Clicked small_font (sub_int (pos 112) (pos 12)) (pos 6) posts (content_y (pos 170) (pos 100)) (
      clicked_posts
        (ui_feed_click_real small_font (pos 50) (pos 170) (pos 100) (pos 112) (some posts)))
unfolding add_int sub_int uint32 ◌+ℤ◌ ◌-ℤ◌
ui_feed_click_real-Clicked_example =
    ui_feed_click_real-Clicked small_font (pos 50) (pos 170) (pos 100) (pos 112) posts (omega arith)

ui_feed_click_real-app_bar_example :
    ui_feed_click_real small_font (pos 500) (pos 20) (pos 86) (pos 112) (some posts)
    ≡ (true, some (toggled long_post ∷ short_post ∷ []))
unfolding sub_int uint32 ◌-ℤ◌
ui_feed_click_real-app_bar_example =
    ui_feed_click_real-app_bar small_font (pos 500) 20 70 (pos 112) long_post (short_post ∷ [])
      (omega arith) (omega (arith, ap pos_part long_post_height))
      (omega (arith, ap pos_part long_post_height))
