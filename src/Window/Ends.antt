-- ===== src/Window/Ends.antt =====
-- Where the scroll messages of pal/pal_win32.c lead, and what they repaint.
use instagram_on_nt.Prelude.{
  ◌^◌, ◌<◌, ◌≡◌, refl, sym, ◌∙◌, arith, Bool, true, Option, none, some, if_elim, if◌then◌else◌, ◌≢◌,
  ◌⊎◌, inl, inr, ==_iff,
}
use instagram_on_nt.Prelude.Int.{
  ℤ, pos, pos_part, neg, ◌+ℤ◌, ◌≤ℤ◌, eqb_ℤ, int32, uint32, eq_of_parts,
}
use instagram_on_nt.Raster.{Surface}
use instagram_on_nt.Window.{
  paint_on, App, State, Key, Message, key_press, wndproc, max_scroll, clamp, move_to, scroll_by,
  on_key, vscroll, mouse_wheel, key_home, key_end, key_up, key_down, key_prior, key_next, other_key,
  on_click, paint, destroy_backbuffer, create, size, button_down, erase_background, paint_message,
  destroy, other_message, to_top, to_bottom, scroll_target,
}
use instagram_on_nt.Window.Scrolling.{InRange, max_scroll-low}

eqb_ℤ_eq : (a b : ℤ) → eqb_ℤ a b ≡ true → a ≡ b
eqb_ℤ_eq a b h = eq_of_parts a b ((==_iff _ _).0 h)

clamp-above : (m y : ℤ) → pos 0 ≤ℤ m → m ≤ℤ y → clamp m y ≡ m
unfolding clamp
clamp-above m y h k = ground arith

clamp-below : (m y : ℤ) → pos 0 ≤ℤ m → y ≤ℤ pos 0 → clamp m y ≡ pos 0
unfolding clamp
clamp-below m y h k = ground arith

-- A jump by 2^30 from within a range of less than 2^30 leaves the range.
home_jump :
    (y m : ℤ) → pos 0 ≤ℤ y → y ≤ℤ m → pos_part m < 2 ^ 30 → int32 (y +ℤ neg (2 ^ 30)) ≤ℤ pos 0
unfolding int32 uint32 ◌+ℤ◌
home_jump y m a b h = ground arith

end_jump : (y m : ℤ) → pos 0 ≤ℤ y → y ≤ℤ m → pos_part m < 2 ^ 30 → m ≤ℤ int32 (y +ℤ pos (2 ^ 30))
unfolding int32 uint32 ◌+ℤ◌
end_jump y m a b h = ground arith

module _ {ℓ} {U : Type ℓ} where
  move_to-scroll_y :
      (c : Option (ℤ → U → ℤ)) (s : State U) (y : ℤ)
      → (move_to c s y).pw.scroll_y ≡ clamp (max_scroll c s.pw) y
  unfolding move_to
  move_to-scroll_y c s y =
      if_elim (λ (t : State U). t.pw.scroll_y ≡ clamp (max_scroll c s.pw) y)
        (eqb_ℤ (clamp (max_scroll c s.pw) y) s.pw.scroll_y) (λ e. sym (eqb_ℤ_eq _ _ e)) (λ _. refl)

  if_attached :
      (b : Bool) (t s : State U) → b ≡ true → (if b then t else s).pw.scroll_y ≡ t.pw.scroll_y
  if_attached b t s e = rw e

  -- The offset is kept, or a paint has been asked for.
  move_to-repaints :
      (c : Option (ℤ → U → ℤ)) (s : State U) (y : ℤ)
      → ((move_to c s y).pw.scroll_y ≡ s.pw.scroll_y) ⊎ ((move_to c s y).invalid ≡ true)
  unfolding move_to
  move_to-repaints c s y =
      if_elim (λ (t : State U). (t.pw.scroll_y ≡ s.pw.scroll_y) ⊎ (t.invalid ≡ true))
        (eqb_ℤ (clamp (max_scroll c s.pw) y) s.pw.scroll_y) (λ _. inl refl) (λ _. inr refl)

module _ {ℓ} {U : Type ℓ} (app : App U) (s : State U) (attached : s.attached ≡ true) where
  -- When the window is attached, its offset is in range and less than 2^30 can be scrolled, the Home
  -- key and the scroll bar's top lead to offset 0, and the End key and the scroll bar's bottom to the
  -- largest one.
  pub wndproc-ends :
      InRange app.content_height s
      → pos_part (max_scroll app.content_height s.pw) < 2 ^ 30
      → ((wndproc app s (key_press key_home)).pw.scroll_y ≡ pos 0)
        × ((wndproc app s (vscroll to_top)).pw.scroll_y ≡ pos 0)
        × ((wndproc app s (key_press key_end)).pw.scroll_y ≡ max_scroll app.content_height s.pw)
        × ((wndproc app s (vscroll to_bottom)).pw.scroll_y ≡ max_scroll app.content_height s.pw)
  unfolding wndproc on_key scroll_by scroll_target
  wndproc-ends r h =
      let c = app.content_height in
      let m = max_scroll c s.pw in
      let y = s.pw.scroll_y in
      let low = max_scroll-low c s.pw in
      let up = int32 (y +ℤ neg (2 ^ 30)) in
      let down = int32 (y +ℤ pos (2 ^ 30)) in
      let home = clamp-below m up low (home_jump y m r.low r.high h) in
      let last = clamp-above m down low (end_jump y m r.low r.high h) in
      (
        if_attached s.attached _ s attached ∙ move_to-scroll_y c s up ∙ home,
        if_attached s.attached _ s attached
            ∙ move_to-scroll_y c s (pos 0)
            ∙ clamp-below m (pos 0) low (omega arith),
        if_attached s.attached _ s attached ∙ move_to-scroll_y c s down ∙ last,
        if_attached s.attached _ s attached
            ∙ move_to-scroll_y c s m
            ∙ clamp-above m m low (omega arith),
      )

-- The offset is kept, or a paint has been asked for.
abbrev pub Repainted {ℓ} : {U : Type ℓ} → State U → State U → Type 0
Repainted s t = (t.pw.scroll_y ≡ s.pw.scroll_y) ⊎ (t.invalid ≡ true)

module _ {ℓ} {U : Type ℓ} where
  on_key-Repainted : (c : Option (ℤ → U → ℤ)) (s : State U) (k : Key) → Repainted s (on_key c s k)
  unfolding on_key scroll_by
  on_key-Repainted c s key_up = move_to-repaints c s _
  on_key-Repainted c s key_down = move_to-repaints c s _
  on_key-Repainted c s key_prior = move_to-repaints c s _
  on_key-Repainted c s key_next = move_to-repaints c s _
  on_key-Repainted c s key_home = move_to-repaints c s _
  on_key-Repainted c s key_end = move_to-repaints c s _
  on_key-Repainted c s other_key = inl refl

  on_click-Repainted :
      (c : Option (ℤ → U → ℤ)) (o : Option (ℤ → ℤ → ℤ → ℤ → U → Bool × U)) (s : State U) (x y : ℤ)
      → Repainted s (on_click c o s x y)
  unfolding on_click
  on_click-Repainted c none s x y = inl refl
  on_click-Repainted c (some f) s x y =
      if_elim (Repainted s) (f x y s.pw.scroll_y s.pw.w s.pw.user).0 (λ _. inr refl) (λ _. inl refl)

  paint_on-scroll_y :
      (o : Option (Surface → ℤ → U → Surface × U)) (fb : Option Surface) (s : State U)
      → (paint_on o fb s).pw.scroll_y ≡ s.pw.scroll_y
  paint_on-scroll_y o none s = refl
  paint_on-scroll_y none (some fb) s = refl
  paint_on-scroll_y (some f) (some fb) s = refl

  paint-scroll_y :
      (o : Option (Surface → ℤ → U → Surface × U)) (s : State U)
      → (paint o s).pw.scroll_y ≡ s.pw.scroll_y
  unfolding paint
  paint-scroll_y o s = paint_on-scroll_y o s.pw.fb s

-- A message other than WM_CREATE that changes the scroll offset leaves the window marked for a
-- repaint.
pub wndproc-Repainted {ℓ} :
    {U : Type ℓ} (app : App U) (s : State U) (m : Message)
    → ((w h : ℤ) (a b : Bool) → m ≢ create w h a b)
    → Repainted s (wndproc app s m)
unfolding wndproc
wndproc-Repainted app s (create w h a b) k = absurd (k w h a b refl)
wndproc-Repainted app s (size w h a b) k =
    if_elim (Repainted s) s.attached (λ _. inr refl) (λ _. inl refl)
wndproc-Repainted app s (vscroll code) k =
    if_elim (Repainted s) s.attached (λ _. move_to-repaints app.content_height s _) (λ _. inl refl)
wndproc-Repainted app s (key_press key) k =
    if_elim (Repainted s) s.attached (λ _. on_key-Repainted app.content_height s key)
      (λ _. inl refl)
wndproc-Repainted app s (mouse_wheel hi) k =
    if_elim (Repainted s) s.attached
      (λ _. unfold scroll_by in move_to-repaints app.content_height s _) (λ _. inl refl)
wndproc-Repainted app s (button_down x y) k =
    if_elim (Repainted s) s.attached (λ _. on_click-Repainted app.content_height app.click s x y)
      (λ _. inl refl)
wndproc-Repainted app s erase_background k = inl refl
wndproc-Repainted app s paint_message k =
    if_elim (Repainted s) s.attached (λ _. inl (paint-scroll_y app.render s)) (λ _. inl refl)
wndproc-Repainted app s destroy k =
    if_elim (λ (t : State _). Repainted s (record t { quit = true })) s.attached
      (λ _. unfold destroy_backbuffer in inl refl) (λ _. inl refl)
wndproc-Repainted app s other_message k = inl refl
