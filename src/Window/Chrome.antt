-- ===== src/Window/Chrome.antt =====
-- The chrome's height of a window of pal/pal_win32.c, which no message changes.
use instagram_on_nt.Prelude.{
  ◌≡◌, refl, ◌∙◌, Bool, true, false, List, [], ◌∷◌, Option, none, some, if_elim,
}
use instagram_on_nt.Prelude.Int.{ℤ, eqb_ℤ}
use instagram_on_nt.Raster.{Surface}
use instagram_on_nt.Window.{
  App, PalWindow, State, Key, Message, wndproc, run, start, max_scroll, clamp, sync_scrollbar,
  move_to, scroll_by, on_key, on_click, paint, paint_on, create_backbuffer, destroy_backbuffer,
  create, size, vscroll, key_press, mouse_wheel, button_down, erase_background, paint_message,
  destroy, other_message, key_up, key_down, key_prior, key_next, key_home, key_end, other_key,
}

module _ {ℓ} {U : Type ℓ} where
  abbrev SameChrome : State U → State U → Type 0
  SameChrome s t = t.pw.chrome_h ≡ s.pw.chrome_h

  create_backbuffer-chrome_h :
      (pw : PalWindow U) (w h : ℤ) (a b : Bool)
      → (create_backbuffer pw w h a b).chrome_h ≡ pw.chrome_h
  unfolding create_backbuffer destroy_backbuffer
  create_backbuffer-chrome_h pw w h false b = refl
  create_backbuffer-chrome_h pw w h true false = refl
  create_backbuffer-chrome_h pw w h true true = refl

  sync_scrollbar-SameChrome :
      (c : Option (ℤ → U → ℤ)) (s : State U) → SameChrome s (sync_scrollbar c s)
  unfolding sync_scrollbar
  sync_scrollbar-SameChrome none s = refl
  sync_scrollbar-SameChrome (some f) s = refl

  move_to-SameChrome : (c : Option (ℤ → U → ℤ)) (s : State U) (y : ℤ) → SameChrome s (move_to c s y)
  unfolding move_to
  move_to-SameChrome c s y =
      if_elim (SameChrome s) (eqb_ℤ (clamp (max_scroll c s.pw) y) s.pw.scroll_y) (λ _. refl)
        (λ _. refl)

  on_key-SameChrome : (c : Option (ℤ → U → ℤ)) (s : State U) (k : Key) → SameChrome s (on_key c s k)
  unfolding on_key scroll_by
  on_key-SameChrome c s key_up = move_to-SameChrome c s _
  on_key-SameChrome c s key_down = move_to-SameChrome c s _
  on_key-SameChrome c s key_prior = move_to-SameChrome c s _
  on_key-SameChrome c s key_next = move_to-SameChrome c s _
  on_key-SameChrome c s key_home = move_to-SameChrome c s _
  on_key-SameChrome c s key_end = move_to-SameChrome c s _
  on_key-SameChrome c s other_key = refl

  on_click-SameChrome :
      (c : Option (ℤ → U → ℤ)) (o : Option (ℤ → ℤ → ℤ → ℤ → U → Bool × U)) (s : State U) (x y : ℤ)
      → SameChrome s (on_click c o s x y)
  unfolding on_click
  on_click-SameChrome c none s x y = refl
  on_click-SameChrome c (some f) s x y =
      let r = f x y s.pw.scroll_y s.pw.w s.pw.user in
      if_elim (SameChrome s) r.0
        (λ _. sync_scrollbar-SameChrome c (record s { pw = record s.pw { user = r.1 } }))
        (λ _. refl)

  paint_on-SameChrome :
      (o : Option (Surface → ℤ → U → Surface × U)) (fb : Option Surface) (s : State U)
      → SameChrome s (paint_on o fb s)
  paint_on-SameChrome o none s = refl
  paint_on-SameChrome none (some fb) s = refl
  paint_on-SameChrome (some f) (some fb) s = refl

  paint-SameChrome :
      (o : Option (Surface → ℤ → U → Surface × U)) (s : State U) → SameChrome s (paint o s)
  unfolding paint
  paint-SameChrome o s = paint_on-SameChrome o s.pw.fb s

module _ {ℓ} {U : Type ℓ} (app : App U) where
  wndproc-SameChrome : (s : State U) (m : Message) → SameChrome s (wndproc app s m)
  unfolding wndproc scroll_by destroy_backbuffer
  wndproc-SameChrome s (create w h a b) =
      sync_scrollbar-SameChrome app.content_height
        (record s { attached = true; pw = create_backbuffer s.pw w h a b })
      ∙ create_backbuffer-chrome_h s.pw w h a b
  wndproc-SameChrome s (size w h a b) =
      if_elim (SameChrome s) s.attached
        (λ _.
          sync_scrollbar-SameChrome app.content_height
            (record s { pw = create_backbuffer s.pw w h a b })
          ∙ create_backbuffer-chrome_h s.pw w h a b)
        (λ _. refl)
  wndproc-SameChrome s (vscroll code) =
      if_elim (SameChrome s) s.attached (λ _. move_to-SameChrome app.content_height s _) (λ _. refl)
  wndproc-SameChrome s (key_press k) =
      if_elim (SameChrome s) s.attached (λ _. on_key-SameChrome app.content_height s k) (λ _. refl)
  wndproc-SameChrome s (mouse_wheel hi) =
      if_elim (SameChrome s) s.attached (λ _. move_to-SameChrome app.content_height s _) (λ _. refl)
  wndproc-SameChrome s (button_down x y) =
      if_elim (SameChrome s) s.attached
        (λ _. on_click-SameChrome app.content_height app.click s x y) (λ _. refl)
  wndproc-SameChrome s erase_background = refl
  wndproc-SameChrome s paint_message =
      if_elim (SameChrome s) s.attached (λ _. paint-SameChrome app.render s) (λ _. refl)
  wndproc-SameChrome s destroy = if_elim (SameChrome s) s.attached (λ _. refl) (λ _. refl)
  wndproc-SameChrome s other_message = refl

  run-SameChrome : (s : State U) (ms : List Message) → SameChrome s (run app s ms)
  unfolding run
  run-SameChrome s [] = refl
  run-SameChrome s (m ∷ ms) = run-SameChrome (wndproc app s m) ms ∙ wndproc-SameChrome s m

  pub run-chrome_h :
      (chrome_h : ℤ) (user : U) (ms : List Message)
      → (run app (start chrome_h user) ms).pw.chrome_h ≡ chrome_h
  unfolding start
  run-chrome_h chrome_h user ms = run-SameChrome (start chrome_h user) ms
