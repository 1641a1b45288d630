-- ===== src/Feed/Heights.antt =====
-- The heights of ui/feed.c: what is measured is what is drawn.
use instagram_on_nt.Prelude.{
  ℕ, ◌+◌, ◌*◌, ◌<◌, ◌≡◌, refl, ap, arith, ◌∙◌, Bool, true, false, List, [], ◌∷◌, Option, none, some,
  length, take, length-take, map, min,
}
use instagram_on_nt.Prelude.Int.{ℤ, pos, add_int, add_int_assoc, add_int-pos, sub_int-add_int}
use instagram_on_nt.Raster.{Surface}
use instagram_on_nt.Raster.Draw.{surface_fill}
use instagram_on_nt.Font.{HangulFont}
use instagram_on_nt.Feed.Panels.{c_face}
use instagram_on_nt.Feed.{CapLine, wrap_caption}
use instagram_on_nt.Feed.Wrap.{wrap_caption-InOrder}
use instagram_on_nt.Feed.Card.{
  on_surface, draw_caption_line, caption_lines, visible_lines, caption_end, caption_block, bytes_of,
  font_wide_line, post_gap,
}
use instagram_on_nt.Feed.Post.{PostView, card_height, draw_post}
use instagram_on_nt.Feed.View.{
  MockPost, FeedPost, FeedData, FeedImages, mock_height, real_height, real_card_height,
  ui_feed_content_height, ui_feed_content_height_real, posts_of, k_posts,
}
use instagram_on_nt.Feed.Render.{
  mock_view, real_view, draw_posts, mock_views, photo_at, fill_posts, fill_mock_posts,
  fill_real_posts,
}

-- Each visible line takes 19, from `k` below `cy` on.
caption_lines-y :
    (font : HangulFont) (s : Option Surface) (cx cy y : ℤ) (k : ℕ) (cw : ℤ) (caption : List ℕ)
    (t : Bool) (lines : List CapLine)
    → y ≡ add_int cy (pos k)
    → (caption_lines font s cx y cw caption t lines).1 ≡ add_int cy (pos (k + 19 * length lines))
unfolding caption_lines
caption_lines-y font s cx cy y k cw caption t [] e = e ∙ ap (λ n. add_int cy (pos n)) (omega arith)
caption_lines-y font s cx cy y k cw caption t (l ∷ lines) e =
    caption_lines-y font (on_surface s (draw_caption_line font cx y cw caption _ l)) cx cy
      (add_int y (pos font_wide_line)) (k + 19) cw caption t lines
      (ap (λ v. add_int v (pos font_wide_line)) e ∙ add_int-pos cy k font_wide_line)
    ∙ ap (λ n. add_int cy (pos n)) (omega arith)

-- The lines that a caption of `total` lines shows.
abbrev pub lines_shown : ℕ → Bool → ℕ
lines_shown total true = total
lines_shown total false = min 2 total

abbrev pub comments_height : Option (List ℕ) → ℕ
comments_height none = 0
comments_height (some comments) = 8

visible_lines-le :
    (lines : List CapLine) (expanded : Bool)
    → length (take (visible_lines (length lines) expanded) lines)
      ≡ lines_shown (length lines) expanded
unfolding visible_lines
visible_lines-le lines true = omega (arith, length-take (length lines) lines)
visible_lines-le lines false = ground (arith, length-take (length lines) lines, length-take 2 lines)

caption_end-height :
    (font : HangulFont) (cx cy : ℤ) (comments : Option (List ℕ)) (r : Option Surface × ℤ) (k : ℕ)
    → r.1 ≡ add_int cy (pos k)
    → k < 2000
    → (caption_end font cx cy comments r).1 ≡ pos (k + comments_height comments)
unfolding caption_end
caption_end-height font cx cy none (s, y) k e h =
    rw e (sub_int-add_int cy k (omega arith) ∙ ap pos (omega arith))
caption_end-height font cx cy (some comments) (s, y) k e h =
    rw e (rw (add_int-pos cy k 8) (sub_int-add_int cy (k + 8) (omega arith)))

-- The caption block returns 28, and 19 for each line of the caption that it shows, which are two at
-- most unless the post is expanded, and 8 for a comments line: whether it draws or measures, and
-- wherever it stands.
pub caption_block-height :
    (font : HangulFont) (s : Option Surface) (cx cy cw : ℤ) (likes user : List ℕ)
    (caption comments : Option (List ℕ)) (expanded : Bool)
    → (caption_block font s cx cy cw likes user caption comments expanded).1
      ≡ pos (
          28
          + 19 * lines_shown (length (wrap_caption font (bytes_of caption) cw)) expanded
          + comments_height comments)
unfolding caption_block
caption_block-height font s cx cy cw likes user caption comments expanded =
    let lines = wrap_caption font (bytes_of caption) cw in
    let bound = (wrap_caption-InOrder font (bytes_of caption) cw).0 in
    let shown = take (visible_lines (length lines) expanded) lines in
    let n = visible_lines-le lines expanded in
    caption_end-height font cx cy comments _ (28 + 19 * lines_shown (length lines) expanded)
      (caption_lines-y font _ cx cy _ 28 cw (bytes_of caption) _ shown
          (add_int-pos cy 9 font_wide_line)
        ∙ ap (λ k. add_int cy (pos (28 + 19 * k))) n)
      (grind arith)

-- A post ends below its card and the gap, where the next one begins.
draw_post-y :
    (font : HangulFont) (s : Surface) (x y w : ℤ) (p : PostView)
    → (draw_post font s x y w p).1 ≡ add_int y (add_int (card_height font w p) (pos post_gap))
unfolding draw_post
draw_post-y font s x y w p = add_int_assoc y (card_height font w p) (pos post_gap)

draw_posts-real :
    (font : HangulFont) (s : Surface) (w y : ℤ) (posts : List FeedPost)
    → (draw_posts font s w y (map real_view posts)).1 ≡ real_height font w posts y
unfolding draw_posts real_height real_card_height real_view
draw_posts-real font s w y [] = refl
draw_posts-real font s w y (fp ∷ posts) =
    let r = draw_post font s (pos 6) y w (real_view fp) in
    draw_posts-real font r.0 w r.1 posts
    ∙ ap (real_height font w posts) (draw_post-y font s (pos 6) y w (real_view fp))

draw_posts-mock :
    (font : HangulFont) (s : Surface) (w y : ℤ) (imgs : Option FeedImages) (i : ℕ)
    (posts : List MockPost)
    → (draw_posts font s w y (mock_views imgs i posts)).1 ≡ mock_height font w posts y
unfolding draw_posts mock_height mock_views mock_view
draw_posts-mock font s w y imgs i [] = refl
draw_posts-mock font s w y imgs i (mp ∷ posts) =
    let p = mock_view mp (photo_at imgs i) in
    let r = draw_post font s (pos 6) y w p in
    draw_posts-mock font r.0 w r.1 imgs (i + 1) posts
    ∙ ap (mock_height font w posts) (draw_post-y font s (pos 6) y w p)

-- Both fill routines end at the height that the content was allocated with: after the last post and
-- its gap `y` is what ui_feed_content_height, or ui_feed_content_height_real, gives for the width of
-- the surface.
pub fill_posts-height :
    (font : HangulFont) (content : Surface)
    → ((imgs : Option FeedImages)
        → (fill_mock_posts font imgs content).1 ≡ ui_feed_content_height font (pos content.w))
      × ((user : Option FeedData)
          → (fill_real_posts font user content).1
            ≡ ui_feed_content_height_real font (pos content.w) user)
unfolding fill_mock_posts fill_real_posts fill_posts ui_feed_content_height
    ui_feed_content_height_real
fill_posts-height font content = (
  λ imgs. draw_posts-mock font (surface_fill content c_face) _ (pos post_gap) imgs 0 k_posts,
  λ user. draw_posts-real font (surface_fill content c_face) _ (pos post_gap) (posts_of user),
)
