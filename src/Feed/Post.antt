-- ===== src/Feed/Post.antt =====
-- ui/feed.c: a post's view and its card.
use instagram_on_nt.Prelude.{
  ℕ, zero, suc, ◌+◌, ◌*◌, Bool, ◌&&◌, List, Option, none, some, ltb, if◌then◌else◌,
}
use instagram_on_nt.Prelude.Int.{ℤ, pos, add_int, sub_int}
use instagram_on_nt.Raster.{Surface, ras_rgb, surface_alloc}
use instagram_on_nt.Raster.Draw.{Rect, surface_fill_rect, surface_frame}
use instagram_on_nt.Raster.Blit.{surface_blit, surface_downscale}
use instagram_on_nt.Font.{HangulFont, font_draw}
use instagram_on_nt.Feed.Panels.{
  panel_raised, panel_sunken, inset, gradient_v, c_shadow, c_ink, c_text,
}
use instagram_on_nt.Feed.Card.{caption_block, post_card_height, content_width, post_pad, draw_text}

pub record PostView : Type 0 where
  pub grad_top : ℕ
  pub grad_bot : ℕ
  pub user : List ℕ
  pub loc : Option (List ℕ)
  pub likes : List ℕ
  pub caption : Option (List ℕ)
  pub comments : Option (List ℕ)
  pub liked : Bool
  pub expanded : Bool
  pub photo : Option Surface

-- The height of a post's card.
abbrev pub card_height : HangulFont → ℤ → PostView → ℤ
card_height font w p = post_card_height font w p.likes p.user p.caption p.comments p.expanded

-- The three-dot menu, from dot `i` on.
unfoldable pub menu_dots : Surface → ℤ → ℤ → ℕ → ℕ → Surface
unfolding surface_fill_rect sub_int c_ink
menu_dots s x y i zero = s
menu_dots s x y i (suc n) =
    let dot : Rect = record { x = sub_int x (pos (i * 6)); y = y; w = pos 3; h = pos 3 } in
    menu_dots (surface_fill_rect s dot c_ink) x y (i + 1) n

-- A photo in its well, where the scratch surface could be allocated.
unfoldable pub scaled_photo : Surface → Rect → Surface → Option Surface → Surface
unfolding surface_blit surface_downscale add_int
scaled_photo s well photo none = s
scaled_photo s well photo (some tmp) =
    surface_blit s (add_int well.x (pos 2)) (add_int well.y (pos 2)) (surface_downscale tmp photo)
      none

unfoldable pub fill_well : Surface → Rect → ℕ → ℕ → Option Surface → Surface
unfolding gradient_v scaled_photo surface_alloc add_int sub_int
fill_well s well top bot none = gradient_v s (inset 2 well) top bot
fill_well s well top bot (some photo) =
    if ltb 0 photo.w && ltb 0 photo.h
    then scaled_photo s well photo (surface_alloc (sub_int well.w (pos 4)) (sub_int well.h (pos 4)))
    else gradient_v s (inset 2 well) top bot

abbrev icon_at : ℤ → ℤ → ℕ → Rect
icon_at y x w = record { x = x; y = y; w = pos w; h = pos 12 }

-- The icons of the action bar at `cx`, `iy`.
unfoldable pub draw_actions : Surface → ℤ → ℤ → ℤ → Bool → Surface
unfolding surface_fill_rect surface_frame ras_rgb c_ink add_int sub_int
draw_actions s cx cw iy liked =
    let s = surface_fill_rect s (icon_at iy cx 14) (if liked then ras_rgb 220 30 60 else c_ink) in
    let s = surface_frame s (icon_at iy (add_int cx (pos 22)) 14) c_ink in
    let s = surface_frame s (icon_at iy (add_int cx (pos 44)) 16) c_ink in
    surface_frame s (icon_at iy (sub_int (add_int cx cw) (pos 12)) 10) c_ink

abbrev surface_or : Surface → Option Surface → Surface
surface_or s none = s
surface_or s (some t) = t

-- The caption block on a surface.
unfoldable pub drawn_block : HangulFont → Surface → ℤ → ℤ → ℤ → PostView → Surface
unfolding caption_block
drawn_block font s cx cy cw p =
    surface_or s
      (caption_block font (some s) cx cy cw p.likes p.user p.caption p.comments p.expanded).0

-- The surface, and `y` after the post.
unfoldable pub draw_post : HangulFont → Surface → ℤ → ℤ → ℤ → PostView → Surface × ℤ
unfolding post_card_height panel_raised panel_sunken gradient_v font_draw menu_dots fill_well
    draw_actions drawn_block c_shadow c_ink c_text add_int sub_int
draw_post font s x y w p =
    let card : Rect = record { x = x; y = y; w = w; h = card_height font w p } in
    let s = panel_raised s card in
    let cx = add_int x (pos post_pad) in
    let cw = content_width w in
    let cy = add_int y (pos post_pad) in
    let avatar : Rect = record { x = cx; y = cy; w = pos 24; h = pos 24 } in
    let s = panel_sunken s avatar in
    let s = gradient_v s (inset 2 avatar) p.grad_top p.grad_bot in
    let s = font_draw font s (add_int cx (pos 32)) (add_int cy (pos 3)) p.user c_text in
    let s = draw_text font (add_int cx (pos 32)) (add_int cy (pos 13)) c_shadow p.loc s in
    let s = menu_dots s (sub_int (add_int cx cw) (pos 4)) (add_int cy (pos 10)) 0 3 in
    let cy = add_int y (pos 40) in
    let well : Rect = record { x = cx; y = cy; w = cw; h = cw } in
    let s = panel_sunken s well in
    let s = fill_well s well p.grad_top p.grad_bot p.photo in
    let cy = add_int cy cw in
    let s = draw_actions s cx cw (add_int cy (pos 6)) p.liked in
    let cy = add_int cy (pos 26) in
    (drawn_block font s cx cy cw p, add_int (add_int y card.h) (pos 6))
