-- ===== src/Feed/Clicks.antt =====
-- The click of ui/feed.c: which post it toggles.
use instagram_on_nt.Prelude.{
  ℕ, zero, suc, ◌+◌, ◌-◌, ◌^◌, ◌<◌, ◌≡◌, refl, ap, arith, Bool, true, false, ◌&&◌, not, List, [],
  ◌∷◌, Option, some, length, take, get_elem?, set, if_elim,
}
use mathlib.Core.Path.{subst}
use instagram_on_nt.Prelude.Int.{
  ℤ, pos, pos_part, uint32, ◌≤ℤ◌, ◌<ℤ◌, leb_ℤ, ltb_ℤ, add_int, sub_int,
}
use instagram_on_nt.Font.{HangulFont}
use instagram_on_nt.Feed.Card.{post_gap}
use instagram_on_nt.Feed.View.{
  FeedPost, FeedData, bar_h, real_height, real_card_height, posts_of, click_loop, content_y,
  ui_feed_click_real,
}

-- The top of post `i`: the height of the posts in front of it.
abbrev pub top_of : HangulFont → ℤ → ℤ → List FeedPost → ℕ → ℤ
top_of font w y posts i = real_height font w (take i posts) y

-- The point at height `v` lies on the card of post `i`.
abbrev pub OnCard : HangulFont → ℤ → ℤ → List FeedPost → ℤ → ℕ → FeedPost → Type 0
OnCard font w y posts v i fp =
    (top_of font w y posts i ≤ℤ v)
    × (v <ℤ add_int (top_of font w y posts i) (real_card_height font w fp))

abbrev pub toggled : FeedPost → FeedPost
toggled fp = record fp { expanded = not fp.expanded }

-- None of the first `n` cards is under the point.
abbrev pub NoneOf : HangulFont → ℤ → ℤ → List FeedPost → ℤ → ℕ → Type 0
NoneOf font w y posts v n =
    (j : ℕ) (q : FeedPost) → j < n → get_elem? posts j ≡ some q → OnCard font w y posts v j q → ⊥

-- A click on no post, and a click on the first post that the point lies on.
abbrev pub Misses : HangulFont → ℤ → ℤ → List FeedPost → ℤ → List FeedPost → Type 0
Misses font w y posts v after = (after ≡ posts) × NoneOf font w y posts v (length posts)

abbrev pub Hits : HangulFont → ℤ → ℤ → List FeedPost → ℤ → List FeedPost → Type 0
Hits font w y posts v after =
    (i : ℕ) × (fp : FeedPost) × (get_elem? posts i ≡ some fp)
    × OnCard font w y posts v i fp
    × (after ≡ set posts i (toggled fp))
    × NoneOf font w y posts v i

abbrev pub Clicked : HangulFont → ℤ → ℤ → List FeedPost → ℤ → Bool × List FeedPost → Type 0
Clicked font w y posts v (true, after) = Hits font w y posts v after
Clicked font w y posts v (false, after) = Misses font w y posts v after

some_injective : (p q : FeedPost) → some p ≡ some q → p ≡ q
some_injective p q e = cc

within : (y v end : ℤ) → (leb_ℤ y v && ltb_ℤ v end) ≡ true → (y ≤ℤ v) × (v <ℤ end)
within y v end h = (ground arith, ground arith)

outside : (y v end : ℤ) → (leb_ℤ y v && ltb_ℤ v end) ≡ false → y ≤ℤ v → v <ℤ end → ⊥
outside y v end h a b = ground arith

-- The point is not on the first card, nor on the next `n`.
NoneOf-suc :
    (font : HangulFont) (w y v : ℤ) (fp : FeedPost) (posts : List FeedPost) (n : ℕ)
    → (leb_ℤ y v && ltb_ℤ v (add_int y (real_card_height font w fp))) ≡ false
    → NoneOf font w (add_int y (add_int (real_card_height font w fp) (pos post_gap))) posts v n
    → NoneOf font w y (fp ∷ posts) v (suc n)
unfolding real_height
NoneOf-suc font w y v fp posts n past k zero q lt here on =
    outside y v (add_int y (real_card_height font w q))
      (subst (λ p. (leb_ℤ y v && ltb_ℤ v (add_int y (real_card_height font w p))) ≡ false)
        (some_injective fp q here) past)
      on.0 on.1
NoneOf-suc font w y v fp posts n past k (suc j) q lt here on = k j q (omega arith) here on

later :
    (font : HangulFont) (w y v : ℤ) (fp : FeedPost) (posts : List FeedPost)
    → (leb_ℤ y v && ltb_ℤ v (add_int y (real_card_height font w fp))) ≡ false
    → (r : Bool × List FeedPost)
    → Clicked font w (add_int y (add_int (real_card_height font w fp) (pos post_gap))) posts v r
    → Clicked font w y (fp ∷ posts) v (r.0, fp ∷ r.1)
unfolding real_height
later font w y v fp posts past (false, after) (e, none_on) =
    (ap (◌∷◌ fp) e, NoneOf-suc font w y v fp posts (length posts) past none_on)
later font w y v fp posts past (true, after) (i, q, here, on, e, first) =
    (suc i, q, here, on, ap (◌∷◌ fp) e, NoneOf-suc font w y v fp posts i past first)

-- The loop toggles the first post whose card the point lies on, and no other.
pub click_loop-Clicked :
    (font : HangulFont) (w y v : ℤ) (posts : List FeedPost)
    → Clicked font w y posts v (click_loop font w v y posts)
unfolding click_loop real_height
click_loop-Clicked font w y v [] = (refl, λ j q lt here on. omega arith)
click_loop-Clicked font w y v (fp ∷ posts) =
    if_elim (Clicked font w y (fp ∷ posts) v)
      (leb_ℤ y v && ltb_ℤ v (add_int y (real_card_height font w fp)))
      (λ e. (
        0,
        fp,
        refl,
        within y v (add_int y (real_card_height font w fp)) e,
        refl,
        λ j q lt here on. omega arith,
      ))
      (λ e. later font w y v fp posts e _ (
        click_loop-Clicked font w (add_int y (add_int (real_card_height font w fp) (pos post_gap)))
          v posts))

-- The posts of the data after a click.
abbrev pub clicked_posts : Bool × Option FeedData → Bool × List FeedPost
clicked_posts (b, user) = (b, posts_of user)

-- A click at or below the top of the first card toggles `expanded` of one post and returns 1 if a
-- card is under the point, and it is the first such post; if none is, it returns 0 and changes
-- nothing. The card of post `i` begins at the content height of the `i` posts in front of it.
pub ui_feed_click_real-Clicked :
    (font : HangulFont) (x_window y_window scroll_y width : ℤ) (posts : List FeedPost)
    → pos post_gap ≤ℤ content_y y_window scroll_y
    → Clicked font
        (sub_int width (pos 12))
        (pos post_gap)
        posts
        (content_y y_window scroll_y)
        (clicked_posts (ui_feed_click_real font x_window y_window scroll_y width (some posts)))
unfolding ui_feed_click_real
ui_feed_click_real-Clicked font x_window y_window scroll_y width posts h =
    let v = content_y y_window scroll_y in
    let w = sub_int width (pos 12) in
    let r = click_loop font w v (pos post_gap) posts in
    if_elim (λ t. Clicked font w (pos post_gap) posts v (clicked_posts t)) (ltb_ℤ v (pos post_gap))
      (λ e. absurd (ground arith)) (λ _. click_loop-Clicked font w (pos post_gap) v posts)

first_card :
    (font : HangulFont) (w v : ℤ) (fp : FeedPost) (posts : List FeedPost)
    → (leb_ℤ (pos post_gap) v && ltb_ℤ v (add_int (pos post_gap) (real_card_height font w fp)))
      ≡ true
    → click_loop font w v (pos post_gap) (fp ∷ posts) ≡ (true, toggled fp ∷ posts)
unfolding click_loop
first_card font w v fp posts e = rw e

content_y-sum : (y d : ℕ) → y < 30 → d < 2 ^ 30 → content_y (pos y) (pos (36 - y + d)) ≡ pos (6 + d)
unfolding add_int sub_int uint32
content_y-sum y d h k = ground arith

card_tests :
    (d : ℕ) (h : ℤ)
    → d < pos_part h
    → pos_part h < 2 ^ 30
    → (leb_ℤ (pos 6) (pos (6 + d)) && ltb_ℤ (pos (6 + d)) (add_int (pos 6) h)) ≡ true
unfolding add_int uint32
card_tests d h k l = ground arith

click_from_loop :
    (font : HangulFont) (x y scroll width v : ℤ) (posts : List FeedPost) (r : Bool × List FeedPost)
    → content_y y scroll ≡ v
    → ltb_ℤ v (pos post_gap) ≡ false
    → click_loop font (sub_int width (pos 12)) v (pos post_gap) posts ≡ r
    → ui_feed_click_real font x y scroll width (some posts) ≡ (r.0, some r.1)
unfolding ui_feed_click_real
click_from_loop font x y scroll width v posts r e f g = rw (e, f, g)

below_gap : (d : ℕ) → ltb_ℤ (pos (6 + d)) (pos 6) ≡ false
below_gap d = ground arith

-- A click in the app bar is not told from one on the content that is scrolled under it: at any x and
-- at any y of the bar, when the content is scrolled so far that the first card, at its height `d`,
-- lies under that y, the click toggles the first post and returns 1.
pub ui_feed_click_real-app_bar :
    (font : HangulFont) (x_window : ℤ) (y d : ℕ) (width : ℤ) (fp : FeedPost) (posts : List FeedPost)
    → y < bar_h
    → d < pos_part (real_card_height font (sub_int width (pos 12)) fp)
    → pos_part (real_card_height font (sub_int width (pos 12)) fp) < 2 ^ 30
    → ui_feed_click_real font x_window
        (pos y)
        (pos (post_gap + bar_h - y + d))
        width
        (some (fp ∷ posts))
      ≡ (true, some (toggled fp ∷ posts))
ui_feed_click_real-app_bar font x_window y d width fp posts h k l =
    let w = sub_int width (pos 12) in
    click_from_loop font x_window (pos y) (pos (36 - y + d)) width (pos (6 + d)) (fp ∷ posts)
      (true, toggled fp ∷ posts) (content_y-sum y d h (omega arith)) (below_gap d)
      (first_card font w (pos (6 + d)) fp posts (card_tests d (real_card_height font w fp) k l))
