-- ===== src/Feed/Wrap.antt =====
-- The lines that wrap_caption of ui/feed.c cuts a caption into.
use instagram_on_nt.Prelude.{
  ℕ, zero, suc, ◌+◌, ◌≤◌, arith, List, [], ◌∷◌, length, drop, length-drop,
}
use instagram_on_nt.Prelude.Int.{ℤ}
use instagram_on_nt.Font.{HangulFont, font_fit_width}
use instagram_on_nt.Font.Measure.{font_fit_width-bound}
use instagram_on_nt.Feed.{CapLine, break_length, wrap_loop, wrap_caption, lines_hard_cap}

-- The lines follow one another from `start` on and end within `end`.
abbrev pub InOrder : ℕ → ℕ → List CapLine → Type 0
InOrder start end [] = Unit {0}
InOrder start end (l ∷ ls) =
    (start ≤ l.off) × (l.off + l.len ≤ end) × InOrder (l.off + l.len) end ls

InOrder-earlier : (a b end : ℕ) (ls : List CapLine) → a ≤ b → InOrder b end ls → InOrder a end ls
InOrder-earlier a b end [] h k = tt
InOrder-earlier a b end (l ∷ ls) h k = let q = k.0 in (omega arith, k.1, k.2)

break_length-fits : (p : List ℕ) → break_length p ≤ length p
break_length-fits [] = omega arith
break_length-fits (c ∷ s) = ground arith

wrap_loop-InOrder :
    (room : ℕ) (font : HangulFont) (max_w : ℤ) (off end : ℕ) (p : List ℕ)
    → off + length p ≤ end
    → InOrder off end (wrap_loop room font max_w off p)
unfolding wrap_loop
wrap_loop-InOrder zero font max_w off end p h = tt
wrap_loop-InOrder (suc room) font max_w off end [] h = tt
wrap_loop-InOrder (suc room) font max_w off end (c ∷ s) h =
    let p = c ∷ s in
    let len = (font_fit_width font p max_w).1 in
    let rest = drop len p in
    let skip = break_length rest in
    let a = font_fit_width-bound font p max_w in
    let b = length-drop len p in
    let d = break_length-fits rest in
    let e = length-drop skip rest in
    (
      omega arith,
      omega arith,
      InOrder-earlier (off + len) (off + len + skip) end
          (wrap_loop room font max_w (off + len + skip) (drop skip rest)) (omega arith)
          (wrap_loop-InOrder room font max_w (off + len + skip) end (drop skip rest) (omega arith)),
    )

wrap_loop-length :
    (room : ℕ) (font : HangulFont) (max_w : ℤ) (off : ℕ) (p : List ℕ)
    → length (wrap_loop room font max_w off p) ≤ room
unfolding wrap_loop
wrap_loop-length zero font max_w off p = omega arith
wrap_loop-length (suc room) font max_w off [] = omega arith
wrap_loop-length (suc room) font max_w off (c ∷ s) =
    let len = (font_fit_width font (c ∷ s) max_w).1 in
    let skip = break_length (drop len (c ∷ s)) in
    omega
      (arith, wrap_loop-length room font max_w (off + len + skip) (drop skip (drop len (c ∷ s))))

-- The lines of a caption fit the array of CAPTION_LINES_HARD_CAP lines, lie within the caption, and
-- follow one another without overlap.
pub wrap_caption-InOrder :
    (font : HangulFont) (caption : List ℕ) (max_w : ℤ)
    → (length (wrap_caption font caption max_w) ≤ lines_hard_cap)
      × InOrder 0 (length caption) (wrap_caption font caption max_w)
unfolding wrap_caption
wrap_caption-InOrder font caption max_w = (
  wrap_loop-length lines_hard_cap font max_w 0 caption,
  wrap_loop-InOrder lines_hard_cap font max_w 0 (length caption) caption (omega arith),
)
