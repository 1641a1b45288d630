-- ===== src/Tests/Window.antt =====
-- Runs of pal/pal_win32.c, and its properties on an application whose clicks change its height.
use instagram_on_nt.Prelude.{
  ℕ, ◌≡◌, ◌≢◌, refl, ap, arith, Bool, true, false, List, [], ◌∷◌, Option, none, some,
}
use mathlib.Core.Path.{subst}
use instagram_on_nt.Prelude.Int.{ℤ, pos, negsuc, neg, int32, uint32, ◌+ℤ◌, ◌-ℤ◌, ◌*ℤ◌}
use instagram_on_nt.Window.{
  App, State, Message, wndproc, run, start, create, button_down, vscroll, key_press, key_home,
  key_end, key_up, page_down, to_top, to_bottom, mouse_wheel, paint_message, max_scroll,
  sync_scrollbar, create_backbuffer, destroy_backbuffer, move_to, scroll_by, scroll_target, on_key,
  on_click, paint, clamp, page_of, wheel_delta,
}
use instagram_on_nt.Window.Scrolling.{KeepsHeight, InRange, run-InRange}
use instagram_on_nt.Window.Ends.{wndproc-ends, wndproc-Repainted, Repainted}

-- A click with a negative x collapses the content to the height 500.
abbrev demo_click : ℤ → ℤ → ℤ → ℤ → ℕ → Bool × ℕ
demo_click (pos x) y scroll w u = (false, u)
demo_click _ y scroll w u = (true, 500)

abbrev demo : App ℕ
demo = record {
  content_height = some (λ w u. pos u);
  click = some demo_click;
  render = some (λ fb scroll u. (fb, u));
}

demo_click_keeps :
    (x y scroll w : ℤ) (u : ℕ)
    → (demo_click x y scroll w u).0 ≡ false
    → (demo_click x y scroll w u).1 ≡ u
demo_click_keeps (pos x) y scroll w u e = refl
demo_click_keeps (negsuc x) y scroll w u e = ground arith

abbrev or_else {ℓ} : {A : Type ℓ} → A → Option A → A
or_else a none = a
or_else a (some b) = b

demo-KeepsHeight : KeepsHeight demo
demo-KeepsHeight = record {
  click_keeps = λ f e x y scroll w u n width.
      subst (λ g. (g x y scroll w u).0 ≡ false → pos (g x y scroll w u).1 ≡ pos u)
        (ap (or_else demo_click) e) (λ k. ap pos (demo_click_keeps x y scroll w u k)) n;
  render_keeps = λ f e fb scroll u width.
      subst (λ g. pos (g fb scroll u).1 ≡ pos u) (ap (or_else (λ b s v. (b, v))) e) refl;
}

abbrev messages : List Message
messages =
    create (pos 480) (pos 400) true true
    ∷ key_press key_end
    ∷ vscroll page_down
    ∷ mouse_wheel (pos 120)
    ∷ button_down (neg 1) (pos 5)
    ∷ paint_message
    ∷ []

messages_lem : (run demo (start (pos 60) 1000) messages).pw.scroll_y ≡ pos 160
unfolding run wndproc start create_backbuffer destroy_backbuffer sync_scrollbar max_scroll clamp
    move_to scroll_by scroll_target on_key on_click paint page_of wheel_delta int32 uint32 ◌+ℤ◌ ◌-ℤ◌
    ◌*ℤ◌
messages_lem = refl

run-InRange_example : InRange demo.content_height (run demo (start (pos 60) 1000) messages)
run-InRange_example = run-InRange demo demo-KeepsHeight (pos 60) 1000 messages

abbrev opened : State ℕ
opened = record {
  attached = true;
  pw = record {
    user = 1000;
    dib = true;
    mem_dc = true;
    fb = none;
    w = pos 480;
    h = pos 400;
    chrome_h = pos 60;
    scroll_y = pos 100;
  };
  bar = record { n_max = pos 999; n_page = pos 340; n_pos = pos 100 };
  invalid = false;
  quit = false;
}

opened-InRange : InRange demo.content_height opened
unfolding max_scroll int32 uint32 ◌-ℤ◌
opened-InRange = record { low = omega arith; high = omega arith; shown = refl }

wndproc-ends_example :
    ((wndproc demo opened (key_press key_home)).pw.scroll_y ≡ pos 0)
    × ((wndproc demo opened (vscroll to_top)).pw.scroll_y ≡ pos 0)
    × ((wndproc demo opened (key_press key_end)).pw.scroll_y
        ≡ max_scroll demo.content_height opened.pw)
    × ((wndproc demo opened (vscroll to_bottom)).pw.scroll_y
        ≡ max_scroll demo.content_height opened.pw)
unfolding max_scroll int32 uint32 ◌-ℤ◌
wndproc-ends_example = wndproc-ends demo opened refl opened-InRange (omega arith)

press_not_create : (w h : ℤ) (a b : Bool) → key_press key_up ≢ create w h a b
press_not_create w h a b e = ground arith

wndproc-Repainted_example : Repainted opened (wndproc demo opened (key_press key_up))
wndproc-Repainted_example = wndproc-Repainted demo opened (key_press key_up) press_not_create
