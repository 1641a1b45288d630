-- ===== src/Main/Scrolling.antt =====
-- The feed of ui/feed.c in the window of pal/pal_win32.c, as ui/main.c puts them together.
use instagram_on_nt.Prelude.{
  ◌≡◌, refl, sym, ap, arith, ◌∙◌, Bool, true, false, List, Option, none, some, if◌then◌else◌,
}
use mathlib.Core.Path.{subst}
use instagram_on_nt.Prelude.Int.{ℤ, pos, ◌≤ℤ◌, ◌<ℤ◌, ◌-ℤ◌, int32, ltb_ℤ, sub_int, sub_int-pos}
use instagram_on_nt.Raster.{Surface, surface_alloc}
use instagram_on_nt.Raster.Draw.{surface_fill}
use instagram_on_nt.Raster.Blit.{surface_blit}
use instagram_on_nt.Font.{HangulFont}
use instagram_on_nt.Feed.Card.{post_gap}
use instagram_on_nt.Feed.View.{
  FeedPost, FeedData, bar_h, nav_h, click_loop, content_y, ui_feed_chrome_height,
  ui_feed_content_height_real, ui_feed_click_real,
}
use instagram_on_nt.Feed.Render.{
  view_scroll, view_height, show_content, draw_scrollable, draw_chrome, fill_real_posts,
  ui_feed_render_real,
}
use instagram_on_nt.Feed.Panels.{c_face}
use instagram_on_nt.Feed.Clicks.{Clicked, click_loop-Clicked}
use instagram_on_nt.Window.{
  positive_part, at_least, PalWindow, State, Message, paint_message, wndproc, paint, paint_on,
  paint, run, start, max_scroll,
}
use instagram_on_nt.Window.Chrome.{run-chrome_h}
use instagram_on_nt.Window.Scrolling.{KeepsHeight, InRange, run-InRange}
use instagram_on_nt.Main.{real_app, mock_app}

Clicked-false :
    (font : HangulFont) (w y v : ℤ) (posts : List FeedPost) (r : Bool × List FeedPost)
    → r.0 ≡ false
    → Clicked font w y posts v r
    → r.1 ≡ posts
Clicked-false font w y v posts (true, after) e h = absurd (ground arith)
Clicked-false font w y v posts (false, after) e h = h.0

if_flag :
    {U : Type 0} (b : Bool) (u v : U) (c : Bool)
    → (c ≡ false → v ≡ u)
    → (let r : Bool × U = if b then (false, u) else (c, v) in r.0 ≡ false → r.1 ≡ u)
if_flag true u v c h e = refl
if_flag false u v c h e = h e

-- A click that returns 0 has changed nothing.
click_unchanged :
    (font : HangulFont) (x y scroll w : ℤ) (user : Option FeedData)
    → (ui_feed_click_real font x y scroll w user).0 ≡ false
    → (ui_feed_click_real font x y scroll w user).1 ≡ user
unfolding ui_feed_click_real
click_unchanged font x y scroll w none e = refl
click_unchanged font x y scroll w (some posts) e =
    let v = content_y y scroll in
    let r = click_loop font (sub_int w (pos 12)) v (pos post_gap) posts in
    if_flag (ltb_ℤ v (pos post_gap)) (some posts) (some r.1) r.0
      (λ k. ap some (
        Clicked-false font (sub_int w (pos 12)) (pos post_gap) v posts r k
          (click_loop-Clicked font (sub_int w (pos 12)) (pos post_gap) v posts)))
      e

abbrev or_else {ℓ} : {A : Type ℓ} → A → Option A → A
or_else a none = a
or_else a (some b) = b

real_app-KeepsHeight : (font : HangulFont) → KeepsHeight (real_app font)
real_app-KeepsHeight font = record {
  click_keeps = λ f e x y scroll w u n width. ap (ui_feed_content_height_real font width) (
      subst (λ g. (g x y scroll w u).0 ≡ false → (g x y scroll w u).1 ≡ u)
        (ap (or_else (ui_feed_click_real font)) e) (click_unchanged font x y scroll w u) n);
  render_keeps = λ f e fb scroll u width.
      ap (ui_feed_content_height_real font width)
        (subst (λ g. (g fb scroll u).1 ≡ u) (ap (or_else (λ b s v. (b, v))) e) refl);
}

mock_app-KeepsHeight : (font : HangulFont) → KeepsHeight (mock_app font)
mock_app-KeepsHeight font = record {
  click_keeps = λ f e x y scroll w u n width. refl;
  render_keeps = λ f e fb scroll u width. refl;
}

-- draw_scrollable's clamp leaves an offset alone that the window's clamp allows.
clamp_unchanged :
    (m y : ℤ)
    → pos 0 ≤ℤ y
    → y ≤ℤ positive_part m
    → (let maxscroll = if ltb_ℤ m (pos 0) then pos 0 else m in
        let y' = if ltb_ℤ y (pos 0) then pos 0 else y in
        if ltb_ℤ maxscroll y' then maxscroll else y')
      ≡ y
clamp_unchanged m y low high = ground arith

at_least-pos : (v : ℤ) → pos 0 <ℤ v → at_least (pos 0) v ≡ v
at_least-pos v h = ground arith

view_scroll_unchanged :
    (content view y : ℤ)
    → pos 0 <ℤ view
    → pos 0 ≤ℤ y
    → y ≤ℤ positive_part (int32 (content -ℤ at_least (pos 0) view))
    → view_scroll content view y ≡ y
unfolding view_scroll sub_int
view_scroll_unchanged content view y h low high =
    clamp_unchanged (int32 (content -ℤ view)) y low
      (subst (λ v. y ≤ℤ positive_part (int32 (content -ℤ v))) (at_least-pos view h) high)

module _ (font : HangulFont) (pw : PalWindow (Option FeedData)) (fb : Surface) where
  render_scroll :
      pos fb.w ≡ pw.w
      → pos fb.h ≡ pw.h
      → pw.chrome_h ≡ pos 58
      → pos 0 <ℤ view_height fb
      → pos 0 ≤ℤ pw.scroll_y
      → pw.scroll_y ≤ℤ max_scroll (some (ui_feed_content_height_real font)) pw
      → view_scroll
          (ui_feed_content_height_real font (pos fb.w) pw.user)
          (view_height fb)
          pw.scroll_y
        ≡ pw.scroll_y
  unfolding max_scroll sub_int
  render_scroll ew eh ch room low high =
      let ev : view_height fb ≡ sub_int pw.h pw.chrome_h =
        sub_int-pos (pos fb.h) bar_h nav_h ∙ (λ i. sub_int (eh i) (sym ch i)) in
      (λ i. view_scroll (ui_feed_content_height_real font (ew i) pw.user) (ev i) pw.scroll_y)
      ∙ view_scroll_unchanged (ui_feed_content_height_real font pw.w pw.user)
          (sub_int pw.h pw.chrome_h) pw.scroll_y (subst (λ v. pos 0 <ℤ v) ev room) low high

-- The background, and on it what `content` holds from the row `y` on.
abbrev pub content_from : Surface → ℤ → (Surface → Surface) → Option Surface → Surface
content_from fb y fill none = surface_fill fb c_face
content_from fb y fill (some content) =
    surface_blit (surface_fill fb c_face) (pos 0) (pos bar_h) (fill content)
      (some (record { x = pos 0; y = y; w = pos fb.w; h = view_height fb }))

-- The frame that shows the posts from the row `y` of the content on, between the two bars.
abbrev pub frame_from : HangulFont → Surface → ℤ → Option FeedData → Surface
frame_from font fb y user =
    let content_h = ui_feed_content_height_real font (pos fb.w) user in
    draw_chrome font (
      content_from fb y (λ content. (fill_real_posts font user content).0)
        (surface_alloc (pos fb.w) (if ltb_ℤ (pos 0) content_h then content_h else pos 1)))

show_content-content_from :
    (fb : Surface) (y : ℤ) (fill : Surface → Surface) (content : Option Surface)
    → show_content (surface_fill fb c_face) y (view_height fb) fill content
      ≡ content_from fb y fill content
unfolding show_content surface_fill
show_content-content_from fb y fill none = refl
show_content-content_from fb y fill (some content) = refl

ui_feed_render_real-frame_from :
    (font : HangulFont) (fb : Surface) (y : ℤ) (user : Option FeedData)
    → pos 0 <ℤ view_height fb
    → view_scroll (ui_feed_content_height_real font (pos fb.w) user) (view_height fb) y ≡ y
    → ui_feed_render_real font fb y user ≡ frame_from font fb y user
unfolding ui_feed_render_real draw_scrollable
ui_feed_render_real-frame_from font fb y user room e =
    let content_h = ui_feed_content_height_real font (pos fb.w) user in
    let content = surface_alloc (pos fb.w) (if ltb_ℤ (pos 0) content_h then content_h else pos 1) in
    let fill : Surface → Surface = λ content. (fill_real_posts font user content).0 in
    let view : ltb_ℤ (pos 0) (view_height fb) ≡ true = ground arith in
    rw (view, e) (ap (draw_chrome font) (show_content-content_from fb y fill content))

painted :
    (font : HangulFont) (s : State (Option FeedData)) (fb : Surface)
    → s.attached ≡ true
    → s.pw.fb ≡ some fb
    → (wndproc (real_app font) s paint_message).pw.fb
      ≡ some (ui_feed_render_real font fb s.pw.scroll_y s.pw.user)
unfolding wndproc paint
painted font s fb a e =
    ap (λ (b : Bool). (if b then paint (real_app font).render s else s).pw.fb) a
    ∙ ap (λ b. (paint_on (real_app font).render b s).pw.fb) e

module _ (font : HangulFont) (user : Option FeedData) (ms : List Message) (fb : Surface) where
  -- After any sequence of messages to the window of the real feed, the offset that the window keeps is
  -- within the content and on the scroll bar; and if the window has a frame buffer of its size, with
  -- room between the two bars, then WM_PAINT draws in it the frame that shows the posts from exactly
  -- that row on.
  pub real_app-scroll :
      let s = run (real_app font) (start ui_feed_chrome_height user) ms in
      s.attached ≡ true
      → s.pw.fb ≡ some fb
      → pos fb.w ≡ s.pw.w
      → pos fb.h ≡ s.pw.h
      → pos 0 <ℤ view_height fb
      → InRange (real_app font).content_height s
        × ((wndproc (real_app font) s paint_message).pw.fb
            ≡ some (frame_from font fb s.pw.scroll_y s.pw.user))
  unfolding ui_feed_chrome_height
  real_app-scroll attached buffer ew eh room =
      let s = run (real_app font) (start ui_feed_chrome_height user) ms in
      let r =
        run-InRange (real_app font) (real_app-KeepsHeight font) ui_feed_chrome_height user ms in
      let ch = run-chrome_h (real_app font) ui_feed_chrome_height user ms in
      let same = render_scroll font s.pw fb ew eh ch room r.low r.high in
      (
        r,
        painted font s fb attached buffer
            ∙ ap some (ui_feed_render_real-frame_from font fb s.pw.scroll_y s.pw.user room same),
      )
