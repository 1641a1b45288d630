-- ===== src/Main.antt =====
-- ui/main.c: the two applications that WinMain hands to the window.
pub mod Scrolling
pub mod Photos
pub mod Boot
use instagram_on_nt.Prelude.{ℕ, Option, none, some}
use instagram_on_nt.Prelude.Int.{ℤ, pos}
use instagram_on_nt.Font.{HangulFont}
use instagram_on_nt.Feed.View.{
  FeedData, FeedImages, ui_feed_content_height, ui_feed_content_height_real, ui_feed_click_real,
}
use instagram_on_nt.Feed.Render.{ui_feed_render, ui_feed_render_real}
use instagram_on_nt.Window.{App}

-- The callbacks for the real feed and for the demo feed. The render callbacks only read what `user`
-- points to.
abbrev pub real_app : HangulFont → App (Option FeedData)
real_app font = record {
  content_height = some (ui_feed_content_height_real font);
  click = some (ui_feed_click_real font);
  render = some (λ fb scroll user. (ui_feed_render_real font fb scroll user, user));
}

abbrev pub mock_app : HangulFont → App (Option FeedImages)
mock_app font = record {
  content_height = some (λ width user. ui_feed_content_height font width);
  click = none;
  render = some (λ fb scroll user. (ui_feed_render font fb scroll user, user));
}
