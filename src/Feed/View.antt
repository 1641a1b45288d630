-- ===== src/Feed/View.antt =====
-- ui/feed.c: the posts of the two feeds, their heights, and the click on a post.
use instagram_on_nt.Prelude.{
  ℕ, ◌+◌, Bool, true, false, ◌&&◌, not, List, [], ◌∷◌, Option, none, some, if◌then◌else◌, codes,
}
use instagram_on_nt.Prelude.Int.{ℤ, pos, leb_ℤ, ltb_ℤ, add_int, sub_int}
use instagram_on_nt.Raster.{Surface, ras_rgb}
use instagram_on_nt.Font.{HangulFont}
use instagram_on_nt.Feed.{format_likes}
use instagram_on_nt.Feed.Card.{post_card_height, post_gap}

abbrev pub bar_h : ℕ
bar_h = 30

abbrev pub nav_h : ℕ
nav_h = 28

-- `likes_buf`
abbrev pub likes_cap : ℕ
likes_cap = 24

pub record MockPost : Type 0 where
  pub grad_top : ℕ
  pub grad_bot : ℕ
  pub user : List ℕ
  pub loc : List ℕ
  pub likes : List ℕ
  pub caption : List ℕ
  pub comments : List ℕ
  pub liked : Bool

unfoldable pub k_posts : List MockPost
unfolding ras_rgb
k_posts =
    record {
      grad_top = ras_rgb 255 180 90;
      grad_bot = ras_rgb 200 60 120;
      user = codes "jun.photo";
      loc = codes "Busan, Korea";
      likes = codes "1,204 likes";
      caption = codes "golden hour never gets old";
      comments = codes "View all 48 comments";
      liked = true;
    }
    ∷ record {
      grad_top = ras_rgb 120 200 255;
      grad_bot = ras_rgb 20 80 160;
      user = codes "skywatch";
      loc = codes "Jeju Island";
      likes = codes "892 likes";
      caption = codes "endless blue";
      comments = codes "View all 12 comments";
      liked = false;
    }
    ∷ record {
      grad_top = ras_rgb 160 220 160;
      grad_bot = ras_rgb 30 110 60;
      user = codes "greentrail";
      loc = codes "Seoraksan";
      likes = codes "2,317 likes";
      caption = codes "morning hike before the crowds";
      comments = codes "View all 73 comments";
      liked = true;
    }
    ∷ record {
      grad_top = ras_rgb 230 230 235;
      grad_bot = ras_rgb 120 120 140;
      user = codes "citypulse";
      loc = codes "Seoul";
      likes = codes "560 likes";
      caption = codes "concrete jungle at night";
      comments = codes "View all 9 comments";
      liked = false;
    }
    ∷ []

pub record FeedPost : Type 0 where
  pub username : List ℕ
  pub caption : Option (List ℕ)
  pub like_count : ℤ
  pub photo : Option Surface
  pub expanded : Bool

-- The `count` posts of a FeedData.
abbrev pub FeedData : Type 0
FeedData = List FeedPost

-- FeedImages: the photos, of which a missing one is NULL.
abbrev pub FeedImages : Type 0
FeedImages = List (Option Surface)

unfoldable pub mock_height : HangulFont → ℤ → List MockPost → ℤ → ℤ
unfolding post_card_height add_int
mock_height font w [] total = total
mock_height font w (mp ∷ posts) total =
    let h = post_card_height font w mp.likes mp.user (some mp.caption) (some mp.comments) false in
    mock_height font w posts (add_int total (add_int h (pos post_gap)))

unfoldable pub ui_feed_content_height : HangulFont → ℤ → ℤ
unfolding mock_height k_posts sub_int
ui_feed_content_height font width = mock_height font (sub_int width (pos 12)) k_posts (pos post_gap)

-- The card's height of a post of the real feed.
unfoldable pub real_card_height : HangulFont → ℤ → FeedPost → ℤ
unfolding post_card_height format_likes
real_card_height font w fp =
    post_card_height font w (format_likes likes_cap fp.like_count) fp.username fp.caption none
      fp.expanded

unfoldable pub real_height : HangulFont → ℤ → List FeedPost → ℤ → ℤ
unfolding real_card_height add_int
real_height font w [] total = total
real_height font w (fp ∷ posts) total =
    real_height font w posts (add_int total (add_int (real_card_height font w fp) (pos post_gap)))

-- `data ? data->count : 0`
abbrev pub posts_of : Option FeedData → List FeedPost
posts_of none = []
posts_of (some posts) = posts

unfoldable pub ui_feed_content_height_real : HangulFont → ℤ → Option FeedData → ℤ
unfolding real_height sub_int
ui_feed_content_height_real font width user =
    real_height font (sub_int width (pos 12)) (posts_of user) (pos post_gap)

unfoldable pub ui_feed_chrome_height : ℤ
ui_feed_chrome_height = pos (bar_h + nav_h)

-- The posts from `y` on: whether one was clicked, and the posts afterwards.
unfoldable pub click_loop : HangulFont → ℤ → ℤ → ℤ → List FeedPost → Bool × List FeedPost
unfolding real_card_height add_int
click_loop font w y_content y [] = (false, [])
click_loop font w y_content y (fp ∷ posts) =
    let h = real_card_height font w fp in
    let rest = click_loop font w y_content (add_int y (add_int h (pos post_gap))) posts in
    if leb_ℤ y y_content && ltb_ℤ y_content (add_int y h)
    then (true, record fp { expanded = not fp.expanded } ∷ posts)
    else (rest.0, fp ∷ rest.1)

-- `y_window - BAR_H + scroll_y`
abbrev pub content_y : ℤ → ℤ → ℤ
content_y y_window scroll_y = add_int (sub_int y_window (pos bar_h)) scroll_y

-- What is returned, and the data afterwards.
unfoldable pub ui_feed_click_real :
    HangulFont → ℤ → ℤ → ℤ → ℤ → Option FeedData → Bool × Option FeedData
unfolding click_loop add_int sub_int
ui_feed_click_real font x_window y_window scroll_y width none = (false, none)
ui_feed_click_real font x_window y_window scroll_y width (some posts) =
    let y_content = content_y y_window scroll_y in
    let r = click_loop font (sub_int width (pos 12)) y_content (pos post_gap) posts in
    if ltb_ℤ y_content (pos post_gap) then (false, some posts) else (r.0, some r.1)
