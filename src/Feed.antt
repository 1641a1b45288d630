-- ===== src/Feed.antt =====
-- ui/feed.c: captions, their lines, and the small routines of a post card.
pub mod Wrap
pub mod Panels
pub mod Card
pub mod Post
pub mod View
pub mod Render
pub mod Heights
pub mod Clicks
use instagram_on_nt.Prelude.{
  ℕ, zero, suc, ◌+◌, ◌-◌, ◌*◌, ◌/◌, ◌%◌, ◌^◌, ◌==◌, ◌||◌, Bool, true, false, List, [], ◌∷◌, ◌++◌,
  Option, none, some, ltb, leb, if◌then◌else◌, length, take, drop, bit_and, codes,
}
use instagram_on_nt.Prelude.Int.{ℤ, pos, pos_part, leb_ℤ}
use instagram_on_nt.Raster.{ras_rgb}
use instagram_on_nt.Font.{HangulFont, font_fit_width}

-- `digits` from its last entry to its first, in front of `done`; the array holds 24.
unfoldable pub likes_digits : ℕ → ℕ → List ℕ → List ℕ
likes_digits zero n done = done
likes_digits (suc room) n done =
    if n == 0 then done else likes_digits room (n / 10) ((b'0' + n % 10) ∷ done)

-- What `buf` holds in front of its NUL, for a `cap` of at least 1.
unfoldable pub format_likes : ℕ → ℤ → List ℕ
unfolding likes_digits
format_likes cap n =
    let digits = if leb_ℤ n (pos 0) then b'0' ∷ [] else likes_digits 24 (pos_part n) [] in
    take (cap - 1) (digits ++ codes " likes")

-- `h = h * 33 + *p`
unfoldable pub name_hash : ℕ → List ℕ → ℕ
name_hash h [] = h
name_hash h (c ∷ s) = name_hash ((h * 33 + c) % 2 ^ 32) s

-- The colours at the top and at the bottom.
unfoldable pub gradient_from_name : List ℕ → ℕ × ℕ
unfolding name_hash ras_rgb
gradient_from_name name =
    let h = name_hash 5381 name in
    let r = (80 + bit_and h 0x7F) % 256 in
    let g = (80 + bit_and (h / 2 ^ 7) 0x7F) % 256 in
    let b = (80 + bit_and (h / 2 ^ 14) 0x7F) % 256 in
    (ras_rgb r g b, ras_rgb (r / 2) (g / 2) (b / 2))

pub record CapLine : Type 0 where
  pub off : ℕ
  pub len : ℕ

-- CAPTION_LINES_COLLAPSED and CAPTION_LINES_HARD_CAP
abbrev pub lines_collapsed : ℕ
lines_collapsed = 2

abbrev pub lines_hard_cap : ℕ
lines_hard_cap = 60

-- `if (*p == '\n') p++`: how far.
abbrev pub break_length : List ℕ → ℕ
break_length [] = 0
break_length (c ∷ s) = if c == 10 then 1 else 0

-- `room` lines may follow; `p` stands at offset `off`.
unfoldable pub wrap_loop : ℕ → HangulFont → ℤ → ℕ → List ℕ → List CapLine
unfolding font_fit_width
wrap_loop zero font max_w off p = []
wrap_loop (suc room) font max_w off [] = []
wrap_loop (suc room) font max_w off (c ∷ s) =
    let len = (font_fit_width font (c ∷ s) max_w).1 in
    let rest = drop len (c ∷ s) in
    let skip = break_length rest in
    record { off = off; len = len } ∷ wrap_loop room font max_w (off + len + skip) (drop skip rest)

unfoldable pub wrap_caption : HangulFont → List ℕ → ℤ → List CapLine
unfolding wrap_loop
wrap_caption font caption max_w = wrap_loop lines_hard_cap font max_w 0 caption
