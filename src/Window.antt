-- ===== src/Window.antt =====
-- pal/pal_win32.c: the window's state, its message handler, and the calls that it makes on the
-- scroll bar. The application's callbacks are parameters; a drawing call is kept as what it shows.
pub mod Scrolling
pub mod Ends
pub mod Chrome
use instagram_on_nt.Prelude.{
  ℕ, ◌+◌, ◌*◌, ◌/◌, ◌^◌, ◌≡◌, arith, replicate, Bool, true, false, ◌&&◌, not, List, [], ◌∷◌, Option,
  none, some, if◌then◌else◌,
}
use instagram_on_nt.Prelude.Int.{
  ℤ, pos, negsuc, pos_part, neg_part, neg, ◌+ℤ◌, ◌-ℤ◌, ◌*ℤ◌, ltb_ℤ, eqb_ℤ, int32,
}
use instagram_on_nt.Raster.{Surface}

-- pal_height_fn, pal_click_fn and pal_render_fn; `none` is NULL. `U` is what `user` points to. A render
-- callback gives the frame buffer that it has drawn in, and what `user` points to afterwards.
pub record App {ℓ} (U : Type ℓ) : Type ℓ where
  pub content_height : Option (ℤ → U → ℤ)
  pub click : Option (ℤ → ℤ → ℤ → ℤ → U → Bool × U)
  pub render : Option (Surface → ℤ → U → Surface × U)

-- `fb` is none where fb.pixels is NULL.
pub record PalWindow {ℓ} (U : Type ℓ) : Type ℓ where
  pub user : U
  pub dib : Bool
  pub mem_dc : Bool
  pub fb : Option Surface
  pub w : ℤ
  pub h : ℤ
  pub chrome_h : ℤ
  pub scroll_y : ℤ

-- What SetScrollInfo and SetScrollPos were last told.
pub record ScrollBar : Type 0 where
  pub n_max : ℤ
  pub n_page : ℤ
  pub n_pos : ℤ

-- `attached` is that GWLP_USERDATA holds the window; `invalid` that InvalidateRect asked for a paint.
pub record State {ℓ} (U : Type ℓ) : Type ℓ where
  pub attached : Bool
  pub pw : PalWindow U
  pub bar : ScrollBar
  pub invalid : Bool
  pub quit : Bool

pub data ScrollCode : Type 0 where
  line_up line_down page_up page_down to_top to_bottom other_code : ScrollCode
  thumb_track thumb_position : ℤ → ScrollCode

pub data Key : Type 0 where
  key_up key_down key_prior key_next key_home key_end other_key : Key

-- The messages, with what the calls of a handler return: the client size, whether CreateCompatibleDC
-- and CreateDIBSection succeed, and nTrackPos.
pub data Message : Type 0 where
  create : ℤ → ℤ → Bool → Bool → Message
  size : ℤ → ℤ → Bool → Bool → Message
  vscroll : ScrollCode → Message
  key_press : Key → Message
  mouse_wheel : ℤ → Message
  button_down : ℤ → ℤ → Message
  erase_background paint_message destroy other_message : Message

-- `m > 0 ? m : 0`
abbrev pub positive_part : ℤ → ℤ
positive_part m = if ltb_ℤ (pos 0) m then m else pos 0

abbrev pub at_least : ℤ → ℤ → ℤ
at_least low v = if ltb_ℤ v low then low else v

-- `if (y > m) y = m; if (y < 0) y = 0;`
unfoldable pub clamp : ℤ → ℤ → ℤ
clamp m y = let y = if ltb_ℤ m y then m else y in if ltb_ℤ y (pos 0) then pos 0 else y

-- `-(hi / WHEEL_DELTA) * 48`, where the quotient is rounded to 0.
unfoldable pub wheel_delta : ℤ → ℤ
wheel_delta hi = (pos (neg_part hi / 120) -ℤ pos (pos_part hi / 120)) *ℤ pos 48

-- surface_wrap around the bits of a new section, which are 0.
abbrev pub new_section : ℕ → ℕ → Surface
new_section w h = record { pixels = replicate (w * h) 0; w = w; h = h; stride = w; owns = 0 }

module _ {ℓ} {U : Type ℓ} where
  unfoldable pub destroy_backbuffer : PalWindow U → PalWindow U
  destroy_backbuffer pw = record pw { mem_dc = false; dib = false; fb = none }

  unfoldable pub create_backbuffer : PalWindow U → ℤ → ℤ → Bool → Bool → PalWindow U
  unfolding destroy_backbuffer
  create_backbuffer pw w h dc_made dib_made =
      let pw = destroy_backbuffer pw in
      let w = if ltb_ℤ w (pos 1) then pos 1 else w in
      let h = if ltb_ℤ h (pos 1) then pos 1 else h in
      if not dc_made then pw else if not dib_made then destroy_backbuffer pw else record pw {
        mem_dc = true;
        dib = true;
        fb = some (new_section (pos_part w) (pos_part h));
        w = w;
        h = h;
      }

module _ {ℓ} {U : Type ℓ} where
  -- `render` on the frame buffer, if there is one; BitBlt shows it.
  abbrev pub paint_on : Option (Surface → ℤ → U → Surface × U) → Option Surface → State U → State U
  paint_on render none s = s
  paint_on none (some fb) s = record s { invalid = false }
  paint_on (some render) (some fb) s =
      let r = render fb s.pw.scroll_y s.pw.user in
      record s { pw = record s.pw { fb = some r.0; user = r.1 }; invalid = false }

  unfoldable pub paint : Option (Surface → ℤ → U → Surface × U) → State U → State U
  paint render s = paint_on render s.pw.fb s

  unfoldable pub max_scroll : Option (ℤ → U → ℤ) → PalWindow U → ℤ
  max_scroll none pw = pos 0
  max_scroll (some content_height) pw =
      let view = at_least (pos 0) (int32 (pw.h -ℤ pw.chrome_h)) in
      positive_part (int32 (content_height pw.w pw.user -ℤ view))

  unfoldable pub sync_scrollbar : Option (ℤ → U → ℤ) → State U → State U
  unfolding max_scroll clamp
  sync_scrollbar none s = s
  sync_scrollbar (some content_height) s =
      let content = content_height s.pw.w s.pw.user in
      let view = at_least (pos 1) (int32 (s.pw.h -ℤ s.pw.chrome_h)) in
      let y = clamp (max_scroll (some content_height) s.pw) s.pw.scroll_y in
      record s {
        pw = record s.pw { scroll_y = y };
        bar = record {
          n_max = if ltb_ℤ (pos 0) content then content -ℤ pos 1 else pos 0;
          n_page = view;
          n_pos = y;
        };
      }

  -- The end of scroll_by and of WM_VSCROLL: `ny` is clamped and shown if it is new.
  unfoldable pub move_to : Option (ℤ → U → ℤ) → State U → ℤ → State U
  unfolding max_scroll clamp
  move_to c s y =
      let ny = clamp (max_scroll c s.pw) y in
      if eqb_ℤ ny s.pw.scroll_y then s else record s {
        pw = record s.pw { scroll_y = ny };
        bar = record s.bar { n_pos = ny };
        invalid = true;
      }

  unfoldable pub scroll_by : Option (ℤ → U → ℤ) → State U → ℤ → State U
  unfolding move_to
  scroll_by c s delta = move_to c s (int32 (s.pw.scroll_y +ℤ delta))

  unfoldable pub page_of : PalWindow U → ℤ
  page_of pw =
      let page = int32 (int32 (pw.h -ℤ pw.chrome_h) -ℤ pos 20) in
      if ltb_ℤ page (pos 40) then pos 40 else page

  -- The target of WM_VSCROLL before it is clamped.
  unfoldable pub scroll_target : Option (ℤ → U → ℤ) → PalWindow U → ScrollCode → ℤ
  unfolding max_scroll page_of
  scroll_target c pw line_up = int32 (pw.scroll_y -ℤ pos 40)
  scroll_target c pw line_down = int32 (pw.scroll_y +ℤ pos 40)
  scroll_target c pw page_up = int32 (pw.scroll_y -ℤ page_of pw)
  scroll_target c pw page_down = int32 (pw.scroll_y +ℤ page_of pw)
  scroll_target c pw to_top = pos 0
  scroll_target c pw to_bottom = max_scroll c pw
  scroll_target c pw (thumb_track y) = y
  scroll_target c pw (thumb_position y) = y
  scroll_target c pw other_code = pw.scroll_y

  unfoldable pub on_key : Option (ℤ → U → ℤ) → State U → Key → State U
  unfolding scroll_by page_of
  on_key c s key_up = scroll_by c s (neg 40)
  on_key c s key_down = scroll_by c s (pos 40)
  on_key c s key_prior = scroll_by c s (pos 0 -ℤ page_of s.pw)
  on_key c s key_next = scroll_by c s (page_of s.pw)
  on_key c s key_home = scroll_by c s (neg (2 ^ 30))
  on_key c s key_end = scroll_by c s (pos (2 ^ 30))
  on_key c s other_key = s

  unfoldable pub on_click :
      Option (ℤ → U → ℤ) → Option (ℤ → ℤ → ℤ → ℤ → U → Bool × U) → State U → ℤ → ℤ → State U
  unfolding sync_scrollbar
  on_click c none s x y = s
  on_click c (some click) s x y =
      let r = click x y s.pw.scroll_y s.pw.w s.pw.user in
      let clicked : State U = record s { pw = record s.pw { user = r.1 } } in
      if r.0 then record (sync_scrollbar c clicked) { invalid = true } else clicked

  -- `pw` as pal_run_window sets it up.
  unfoldable pub start : ℤ → U → State U
  start chrome_h user = record {
    attached = false;
    pw = record {
      user = user;
      dib = false;
      mem_dc = false;
      fb = none;
      w = pos 0;
      h = pos 0;
      chrome_h = chrome_h;
      scroll_y = pos 0;
    };
    bar = record { n_max = pos 0; n_page = pos 0; n_pos = pos 0 };
    invalid = false;
    quit = false;
  }

module _ {ℓ} {U : Type ℓ} (app : App U) where
  unfoldable pub wndproc : State U → Message → State U
  unfolding create_backbuffer sync_scrollbar move_to scroll_by scroll_target on_key wheel_delta
      on_click paint destroy_backbuffer
  wndproc s (create w h dc_made dib_made) =
      sync_scrollbar app.content_height
        (record s { attached = true; pw = create_backbuffer s.pw w h dc_made dib_made })
  wndproc s (size w h dc_made dib_made) =
      if s.attached
      then record (sync_scrollbar app.content_height
          (record s { pw = create_backbuffer s.pw w h dc_made dib_made })) { invalid = true }
      else s
  wndproc s (vscroll code) =
      if s.attached
      then move_to app.content_height s (scroll_target app.content_height s.pw code)
      else s
  wndproc s (key_press k) = if s.attached then on_key app.content_height s k else s
  wndproc s (mouse_wheel hi) =
      if s.attached then scroll_by app.content_height s (wheel_delta hi) else s
  wndproc s (button_down x y) =
      if s.attached then on_click app.content_height app.click s x y else s
  wndproc s erase_background = s
  wndproc s paint_message = if s.attached then paint app.render s else s
  wndproc s destroy =
      let s : State U = if s.attached then record s { pw = destroy_backbuffer s.pw } else s in
      record s { quit = true }
  wndproc s other_message = s

  -- The messages of a run, in the order in which they arrive.
  unfoldable pub run : State U → List Message → State U
  unfolding wndproc
  run s [] = s
  run s (m ∷ ms) = run (wndproc s m) ms
