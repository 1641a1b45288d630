-- ===== src/Window/Scrolling.antt =====
-- The scroll offset of pal/pal_win32.c through every run of the message handler.
use instagram_on_nt.Prelude.{
  ◌≡◌, refl, sym, ◌∙◌, arith, Bool, true, false, List, [], ◌∷◌, Option, none, some, if_elim,
}
use instagram_on_nt.Prelude.Int.{ℤ, pos, ◌≤ℤ◌, eqb_ℤ}
use instagram_on_nt.Raster.{Surface}
use instagram_on_nt.Window.{
  paint_on, App, PalWindow, State, Key, Message, wndproc, run, start, max_scroll, clamp,
  sync_scrollbar, move_to, scroll_by, on_key, on_click, paint, create_backbuffer,
  destroy_backbuffer, create, size, vscroll, key_press, mouse_wheel, button_down, erase_background,
  paint_message, destroy, other_message, key_up, key_down, key_prior, key_next, key_home, key_end,
  other_key,
}

abbrev pub height {ℓ} : {U : Type ℓ} → Option (ℤ → U → ℤ) → ℤ → U → ℤ
height none w u = pos 0
height (some f) w u = f w u

-- What pal.h asks of the callbacks: a click that returns 0, and a paint, leave the height alone.
pub record KeepsHeight {ℓ} {U : Type ℓ} (app : App U) : Type ℓ where
  pub click_keeps :
      (f : ℤ → ℤ → ℤ → ℤ → U → Bool × U)
      → app.click ≡ some f
      → (x y scroll w : ℤ) (u : U) → (f x y scroll w u).0 ≡ false
      → (width : ℤ)
      → height app.content_height width (f x y scroll w u).1 ≡ height app.content_height width u
  pub render_keeps :
      (f : Surface → ℤ → U → Surface × U)
      → app.render ≡ some f
      → (fb : Surface) (scroll : ℤ) (u : U) (width : ℤ)
      → height app.content_height width (f fb scroll u).1 ≡ height app.content_height width u

-- The offset lies within the content, and the scroll bar shows it.
pub record InRange {ℓ} {U : Type ℓ} (c : Option (ℤ → U → ℤ)) (s : State U) : Type 0 where
  pub low : pos 0 ≤ℤ s.pw.scroll_y
  pub high : s.pw.scroll_y ≤ℤ max_scroll c s.pw
  pub shown : s.bar.n_pos ≡ s.pw.scroll_y

clamp-low : (m y : ℤ) → pos 0 ≤ℤ clamp m y
unfolding clamp
clamp-low m y = ground arith

clamp-high : (m y : ℤ) → pos 0 ≤ℤ m → clamp m y ≤ℤ m
unfolding clamp
clamp-high m y h = ground arith

module _ {ℓ} {U : Type ℓ} where
  pub max_scroll-low : (c : Option (ℤ → U → ℤ)) (pw : PalWindow U) → pos 0 ≤ℤ max_scroll c pw
  unfolding max_scroll
  max_scroll-low none pw = omega arith
  max_scroll-low (some f) pw = ground arith

  max_scroll-scrolled :
      (c : Option (ℤ → U → ℤ)) (pw : PalWindow U) (y : ℤ)
      → max_scroll c (record pw { scroll_y = y }) ≡ max_scroll c pw
  unfolding max_scroll
  max_scroll-scrolled none pw y = refl
  max_scroll-scrolled (some f) pw y = refl

  -- A window that shows the clamped offset.
  clamped-InRange :
      (c : Option (ℤ → U → ℤ)) (s : State U) (m y : ℤ)
      → max_scroll c s.pw ≡ m
      → s.pw.scroll_y ≡ clamp m y
      → s.bar.n_pos ≡ s.pw.scroll_y
      → InRange c s
  clamped-InRange c s m y e p b =
      let l = clamp-low m y in
      let k : pos 0 ≤ℤ m = rw (sym e) (max_scroll-low c s.pw) in
      let u = clamp-high m y k in
      record { low = ground (arith, l, p); high = ground (arith, u, p, e); shown = b }

  move_to-InRange :
      (c : Option (ℤ → U → ℤ)) (s : State U) (y : ℤ) → InRange c s → InRange c (move_to c s y)
  unfolding move_to
  move_to-InRange c s y h =
      if_elim (InRange c) (eqb_ℤ (clamp (max_scroll c s.pw) y) s.pw.scroll_y) (λ _. h)
        (λ _. clamped-InRange c _ (max_scroll c s.pw) y (max_scroll-scrolled c s.pw _) refl refl)

  -- Fields that the range does not depend on.
  InRange-with :
      (c : Option (ℤ → U → ℤ)) (s t : State U)
      → InRange c s
      → t.pw.scroll_y ≡ s.pw.scroll_y
      → t.bar.n_pos ≡ s.bar.n_pos
      → max_scroll c t.pw ≡ max_scroll c s.pw
      → InRange c t
  InRange-with c s t h p b e = record {
    low = ground (arith, h.low, p);
    high = ground (arith, h.high, p, e);
    shown = b ∙ h.shown ∙ sym p;
  }

  -- A window that has been changed, when its scroll bar is synchronized.
  sync_scrollbar-InRange :
      (c : Option (ℤ → U → ℤ)) (s t : State U)
      → InRange c s
      → t.pw.scroll_y ≡ s.pw.scroll_y
      → t.bar.n_pos ≡ s.bar.n_pos
      → InRange c (sync_scrollbar c t)
  unfolding sync_scrollbar max_scroll
  sync_scrollbar-InRange none s t h p b = InRange-with none s t h p b refl
  sync_scrollbar-InRange (some f) s t h p b =
      let m = max_scroll (some f) t.pw in
      clamped-InRange (some f) _ m t.pw.scroll_y
        (max_scroll-scrolled (some f) t.pw (clamp m t.pw.scroll_y)) refl refl

  max_scroll-user :
      (c : Option (ℤ → U → ℤ)) (pw : PalWindow U) (u : U)
      → height c pw.w u ≡ height c pw.w pw.user
      → max_scroll c (record pw { user = u }) ≡ max_scroll c pw
  unfolding max_scroll
  max_scroll-user none pw u e = refl
  max_scroll-user (some f) pw u e = rw e

  create_backbuffer-scroll_y :
      (pw : PalWindow U) (w h : ℤ) (a b : Bool)
      → (create_backbuffer pw w h a b).scroll_y ≡ pw.scroll_y
  unfolding create_backbuffer destroy_backbuffer
  create_backbuffer-scroll_y pw w h false b = refl
  create_backbuffer-scroll_y pw w h true false = refl
  create_backbuffer-scroll_y pw w h true true = refl

  destroy_backbuffer-InRange :
      (c : Option (ℤ → U → ℤ)) (s : State U)
      → InRange c s
      → InRange c (record s { pw = destroy_backbuffer s.pw })
  unfolding destroy_backbuffer max_scroll
  destroy_backbuffer-InRange none s h = InRange-with none s _ h refl refl refl
  destroy_backbuffer-InRange (some f) s h = InRange-with (some f) s _ h refl refl refl

  on_key-InRange :
      (c : Option (ℤ → U → ℤ)) (s : State U) (k : Key) → InRange c s → InRange c (on_key c s k)
  unfolding on_key scroll_by
  on_key-InRange c s key_up h = move_to-InRange c s _ h
  on_key-InRange c s key_down h = move_to-InRange c s _ h
  on_key-InRange c s key_prior h = move_to-InRange c s _ h
  on_key-InRange c s key_next h = move_to-InRange c s _ h
  on_key-InRange c s key_home h = move_to-InRange c s _ h
  on_key-InRange c s key_end h = move_to-InRange c s _ h
  on_key-InRange c s other_key h = h

  on_click-InRange :
      (c : Option (ℤ → U → ℤ)) (o : Option (ℤ → ℤ → ℤ → ℤ → U → Bool × U)) (s : State U) (x y : ℤ)
      → ((f : ℤ → ℤ → ℤ → ℤ → U → Bool × U)
          → o ≡ some f
          → (x y scroll w : ℤ) (u : U) → (f x y scroll w u).0 ≡ false
          → (width : ℤ) → height c width (f x y scroll w u).1 ≡ height c width u)
      → InRange c s
      → InRange c (on_click c o s x y)
  unfolding on_click
  on_click-InRange c none s x y k h = h
  on_click-InRange c (some f) s x y k h =
      let r = f x y s.pw.scroll_y s.pw.w s.pw.user in
      let clicked : State U = record s { pw = record s.pw { user = r.1 } } in
      if_elim (InRange c) r.0
        (λ _.
          InRange-with c (sync_scrollbar c clicked) _
            (sync_scrollbar-InRange c s clicked h refl refl) refl refl refl)
        (λ e.
          InRange-with c s clicked h refl refl
            (max_scroll-user c s.pw r.1 (k f refl x y s.pw.scroll_y s.pw.w s.pw.user e s.pw.w)))

  max_scroll-painted :
      (c : Option (ℤ → U → ℤ)) (pw : PalWindow U) (fb : Surface) (u : U)
      → height c pw.w u ≡ height c pw.w pw.user
      → max_scroll c (record pw { fb = some fb; user = u }) ≡ max_scroll c pw
  unfolding max_scroll
  max_scroll-painted none pw fb u e = refl
  max_scroll-painted (some f) pw fb u e = rw e

  paint_on-InRange :
      (c : Option (ℤ → U → ℤ)) (o : Option (Surface → ℤ → U → Surface × U)) (fb : Option Surface)
      (s : State U)
      → ((f : Surface → ℤ → U → Surface × U)
          → o ≡ some f
          → (fb : Surface) (scroll : ℤ) (u : U) (width : ℤ)
          → height c width (f fb scroll u).1 ≡ height c width u)
      → InRange c s
      → InRange c (paint_on o fb s)
  paint_on-InRange c o none s k h = h
  paint_on-InRange c none (some fb) s k h = InRange-with c s _ h refl refl refl
  paint_on-InRange c (some f) (some fb) s k h =
      InRange-with c s _ h refl refl
        (max_scroll-painted c s.pw _ _ (k f refl fb s.pw.scroll_y s.pw.user s.pw.w))

module _ {ℓ} {U : Type ℓ} (app : App U) (keeps : KeepsHeight app) where
  -- Each message keeps the offset within the content.
  wndproc-InRange :
      (s : State U) (m : Message)
      → InRange app.content_height s
      → InRange app.content_height (wndproc app s m)
  unfolding wndproc
  wndproc-InRange s (create w h a b) k =
      sync_scrollbar-InRange app.content_height s _ k (create_backbuffer-scroll_y s.pw w h a b) refl
  wndproc-InRange s (size w h a b) k =
      if_elim (InRange app.content_height) s.attached
        (λ _.
          InRange-with app.content_height _ _
            (sync_scrollbar-InRange app.content_height s _ k
              (create_backbuffer-scroll_y s.pw w h a b) refl)
            refl refl refl)
        (λ _. k)
  wndproc-InRange s (vscroll code) k =
      if_elim (InRange app.content_height) s.attached
        (λ _. move_to-InRange app.content_height s _ k) (λ _. k)
  wndproc-InRange s (key_press key) k =
      if_elim (InRange app.content_height) s.attached
        (λ _. on_key-InRange app.content_height s key k) (λ _. k)
  wndproc-InRange s (mouse_wheel hi) k =
      if_elim (InRange app.content_height) s.attached
        (λ _. unfold scroll_by in move_to-InRange app.content_height s _ k) (λ _. k)
  wndproc-InRange s (button_down x y) k =
      if_elim (InRange app.content_height) s.attached
        (λ _. on_click-InRange app.content_height app.click s x y keeps.click_keeps k) (λ _. k)
  wndproc-InRange s erase_background k = k
  wndproc-InRange s paint_message k =
      if_elim (InRange app.content_height) s.attached
        (λ _.
          unfold paint in
          paint_on-InRange app.content_height app.render s.pw.fb s keeps.render_keeps k)
        (λ _. k)
  wndproc-InRange s destroy k =
      InRange-with app.content_height _ _
        (if_elim (InRange app.content_height) s.attached
          (λ _. destroy_backbuffer-InRange app.content_height s k) (λ _. k))
        refl refl refl
  wndproc-InRange s other_message k = k

  run-InRange_from :
      (s : State U) (ms : List Message)
      → InRange app.content_height s
      → InRange app.content_height (run app s ms)
  unfolding run
  run-InRange_from s [] k = k
  run-InRange_from s (m ∷ ms) k = run-InRange_from (wndproc app s m) ms (wndproc-InRange s m k)

  -- After any sequence of messages to a fresh window, the scroll offset is at least 0 and at most the
  -- height that does not fit, and it is the position last sent to the scroll bar, if a click that
  -- returns 0 and a paint leave the content's height alone.
  pub run-InRange :
      (chrome_h : ℤ) (user : U) (ms : List Message)
      → InRange app.content_height (run app (start chrome_h user) ms)
  run-InRange chrome_h user ms = run-InRange_from (start chrome_h user) ms (
      unfold start in
      record { low = omega arith; high = max_scroll-low app.content_height _; shown = refl })
