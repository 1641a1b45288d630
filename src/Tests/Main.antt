-- ===== src/Tests/Main.antt =====
-- The window of ui/main.c at a concrete feed.
use instagram_on_nt.Prelude.{
  ◌≡◌, refl, arith, true, false, List, [], ◌∷◌, Option, none, some, codes,
}
use instagram_on_nt.Prelude.Int.{pos, uint32, ◌+ℤ◌, ◌-ℤ◌, add_int, sub_int}
use instagram_on_nt.Raster.{Surface}
use instagram_on_nt.Font.{HangulFont}
use instagram_on_nt.Feed.View.{
  FeedData, real_height, real_card_height, ui_feed_content_height_real, ui_feed_chrome_height,
}
use instagram_on_nt.Feed.{wrap_caption, wrap_loop}
use instagram_on_nt.Feed.Card.{
  caption_block, caption_lines, caption_end, visible_lines, post_card_height,
}
use instagram_on_nt.Window.{
  Message, wndproc, run, start, create, key_press, key_end, create_backbuffer, destroy_backbuffer,
  paint_message, new_section, sync_scrollbar, on_key, scroll_by, move_to, max_scroll, clamp,
  page_of,
}
use instagram_on_nt.Window.Scrolling.{InRange}
use instagram_on_nt.Main.{real_app}
use instagram_on_nt.Main.Scrolling.{frame_from, real_app-scroll}

abbrev any_font : HangulFont
any_font = record { codepoints = []; glyphs = []; glyph_w = 18 }

abbrev feed : Option FeedData
feed = some (
    record {
      username = codes "a";
      caption = none;
      like_count = pos 7;
      photo = none;
      expanded = false;
    }
    ∷ [])

abbrev messages : List Message
messages = create (pos 340) (pos 100) true true ∷ key_press key_end ∷ []

abbrev frame : Surface
frame = new_section 340 100

real_app-scroll_example :
    let s = run (real_app any_font) (start ui_feed_chrome_height feed) messages in
    InRange (real_app any_font).content_height s
    × ((wndproc (real_app any_font) s paint_message).pw.fb
        ≡ some (frame_from any_font frame s.pw.scroll_y s.pw.user))
unfolding run wndproc start create_backbuffer destroy_backbuffer sync_scrollbar on_key scroll_by
    move_to max_scroll clamp page_of ui_feed_chrome_height ui_feed_content_height_real real_height
    real_card_height post_card_height caption_block caption_lines caption_end visible_lines
    wrap_caption wrap_loop add_int sub_int uint32 ◌+ℤ◌ ◌-ℤ◌
real_app-scroll_example =
    real_app-scroll any_font feed messages frame refl refl refl refl (omega arith)
