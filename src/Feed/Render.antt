-- ===== src/Feed/Render.antt =====
-- ui/feed.c: the two feeds rendered into a frame buffer, under their chrome.
use instagram_on_nt.Prelude.{
  ℕ, zero, suc, ◌+◌, ◌*◌, ◌/◌, ◌==◌, false, List, [], ◌∷◌, Option, none, some, ltb, if◌then◌else◌,
  codes, get_or, map,
}
use instagram_on_nt.Prelude.Int.{ℤ, pos, ltb_ℤ, add_int, sub_int}
use instagram_on_nt.Raster.{Surface, surface_alloc}
use instagram_on_nt.Raster.Draw.{
  Rect, surface_fill, surface_fill_rect, surface_hline, surface_frame,
}
use instagram_on_nt.Raster.Blit.{surface_blit}
use instagram_on_nt.Font.{HangulFont, font_draw_scaled}
use instagram_on_nt.Feed.{format_likes, gradient_from_name}
use instagram_on_nt.Feed.Panels.{c_face, c_hilight, c_shadow, c_dark, c_white, c_ink, c_ig_blue}
use instagram_on_nt.Feed.Card.{post_gap}
use instagram_on_nt.Feed.Post.{PostView, draw_post}
use instagram_on_nt.Feed.View.{
  MockPost, FeedPost, FeedData, FeedImages, k_posts, bar_h, nav_h, likes_cap, posts_of,
  ui_feed_content_height, ui_feed_content_height_real,
}

-- The icons of the nav bar at `y`, from icon `i` on; `n` are left of 5.
unfoldable pub nav_icons : Surface → ℤ → ℕ → ℕ → Surface
unfolding surface_frame add_int sub_int c_ig_blue c_ink
nav_icons fb y i zero = fb
nav_icons fb y i (suc n) =
    let ix = sub_int (pos (fb.w / 5 * i + fb.w / 5 / 2)) (pos 8) in
    let icon : Rect = record { x = ix; y = y; w = pos 16; h = pos 14 } in
    nav_icons (surface_frame fb icon (if i == 0 then c_ig_blue else c_ink)) y (i + 1) n

unfoldable pub draw_chrome : HangulFont → Surface → Surface
unfolding surface_fill_rect surface_hline surface_frame font_draw_scaled nav_icons add_int sub_int
    c_ig_blue c_dark c_white c_face c_hilight c_shadow
draw_chrome font fb =
    let w = pos fb.w in
    let bar : Rect = record { x = pos 0; y = pos 0; w = w; h = pos bar_h } in
    let fb₁ = surface_fill_rect fb bar c_ig_blue in
    let fb₂ = surface_hline fb₁ (pos 0) (pos bar_h) w c_dark in
    let fb₃ = font_draw_scaled font fb₂ (pos 10) (pos 8) (codes "Instagram") c_white (pos 2) in
    let dm : Rect = record { x = sub_int w (pos 26); y = pos 8; w = pos 16; h = pos 14 } in
    let fb₄ = surface_frame fb₃ dm c_white in
    let nav : Rect = record {
      x = pos 0;
      y = sub_int (pos fb.h) (pos nav_h);
      w = w;
      h = pos nav_h;
    } in
    let fb₅ = surface_fill_rect fb₄ nav c_face in
    let fb₆ = surface_hline fb₅ (pos 0) nav.y w c_hilight in
    let fb₇ = surface_hline fb₆ (pos 0) (add_int nav.y (pos 1)) w c_shadow in
    nav_icons fb₇ (add_int nav.y (pos 8)) 0 5

-- `scroll_y` as draw_scrollable clamps it.
unfoldable pub view_scroll : ℤ → ℤ → ℤ → ℤ
unfolding sub_int
view_scroll content_h view_h scroll_y =
    let over = sub_int content_h view_h in
    let maxscroll = if ltb_ℤ over (pos 0) then pos 0 else over in
    let y = if ltb_ℤ scroll_y (pos 0) then pos 0 else scroll_y in
    if ltb_ℤ maxscroll y then maxscroll else y

-- `content`, where it could be allocated, is filled and shown from `y` on.
unfoldable pub show_content : Surface → ℤ → ℤ → (Surface → Surface) → Option Surface → Surface
unfolding surface_blit
show_content fb y view_h fill_content none = fb
show_content fb y view_h fill_content (some content) =
    let src : Rect = record { x = pos 0; y = y; w = pos fb.w; h = view_h } in
    surface_blit fb (pos 0) (pos bar_h) (fill_content content) (some src)

-- `fb->h - BAR_H - NAV_H`
abbrev pub view_height : Surface → ℤ
view_height fb = sub_int (sub_int (pos fb.h) (pos bar_h)) (pos nav_h)

unfoldable pub draw_scrollable : HangulFont → Surface → ℤ → ℤ → (Surface → Surface) → Surface
unfolding surface_fill c_face view_scroll show_content surface_alloc draw_chrome sub_int
draw_scrollable font fb scroll_y content_h fill_content =
    let filled = surface_fill fb c_face in
    let view_h = view_height fb in
    let content = surface_alloc (pos fb.w) (if ltb_ℤ (pos 0) content_h then content_h else pos 1) in
    let shown =
      show_content filled (view_scroll content_h view_h scroll_y) view_h fill_content content in
    draw_chrome font (if ltb_ℤ (pos 0) view_h then shown else filled)

-- A post of the mock feed, with its photo.
unfoldable pub mock_view : MockPost → Option Surface → PostView
mock_view mp photo = record {
  grad_top = mp.grad_top;
  grad_bot = mp.grad_bot;
  user = mp.user;
  loc = some mp.loc;
  likes = mp.likes;
  caption = some mp.caption;
  comments = some mp.comments;
  liked = mp.liked;
  expanded = false;
  photo = photo;
}

-- A post of the real feed.
unfoldable pub real_view : FeedPost → PostView
unfolding gradient_from_name format_likes
real_view fp =
    let grad = gradient_from_name fp.username in
    record {
      grad_top = grad.0;
      grad_bot = grad.1;
      user = fp.username;
      loc = none;
      likes = format_likes likes_cap fp.like_count;
      caption = fp.caption;
      comments = none;
      liked = false;
      expanded = fp.expanded;
      photo = fp.photo;
    }

-- The posts from `y` on; the surface, and `y` after them.
unfoldable pub draw_posts : HangulFont → Surface → ℤ → ℤ → List PostView → Surface × ℤ
unfolding draw_post
draw_posts font s w y [] = (s, y)
draw_posts font s w y (p ∷ ps) =
    let r = draw_post font s (pos 6) y w p in draw_posts font r.0 w r.1 ps

-- `(imgs && i < 8) ? imgs->photos[i] : NULL`
abbrev pub photo_at : Option FeedImages → ℕ → Option Surface
photo_at none i = none
photo_at (some photos) i = if ltb i 8 then get_or photos i none else none

-- The views of the mock posts from index `i` on.
unfoldable pub mock_views : Option FeedImages → ℕ → List MockPost → List PostView
unfolding mock_view
mock_views imgs i [] = []
mock_views imgs i (mp ∷ posts) = mock_view mp (photo_at imgs i) ∷ mock_views imgs (i + 1) posts

-- A fill routine: the surface, and `y` after the last post.
unfoldable pub fill_posts : HangulFont → List PostView → Surface → Surface × ℤ
unfolding surface_fill c_face draw_posts sub_int
fill_posts font ps content =
    draw_posts font (surface_fill content c_face) (sub_int (pos content.w) (pos 12)) (pos post_gap)
      ps

unfoldable pub fill_mock_posts : HangulFont → Option FeedImages → Surface → Surface × ℤ
unfolding fill_posts mock_views k_posts
fill_mock_posts font imgs content = fill_posts font (mock_views imgs 0 k_posts) content

unfoldable pub fill_real_posts : HangulFont → Option FeedData → Surface → Surface × ℤ
unfolding fill_posts real_view
fill_real_posts font user content = fill_posts font (map real_view (posts_of user)) content

unfoldable pub ui_feed_render : HangulFont → Surface → ℤ → Option FeedImages → Surface
unfolding draw_scrollable ui_feed_content_height fill_mock_posts
ui_feed_render font fb scroll_y user =
    draw_scrollable font fb scroll_y (ui_feed_content_height font (pos fb.w))
      (λ content. (fill_mock_posts font user content).0)

unfoldable pub ui_feed_render_real : HangulFont → Surface → ℤ → Option FeedData → Surface
unfolding draw_scrollable ui_feed_content_height_real fill_real_posts
ui_feed_render_real font fb scroll_y user =
    draw_scrollable font fb scroll_y (ui_feed_content_height_real font (pos fb.w) user)
      (λ content. (fill_real_posts font user content).0)
