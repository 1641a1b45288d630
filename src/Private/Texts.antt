-- ===== src/Private/Texts.antt =====
-- The body of a timeline request of net/ig_private.c is the text of its pieces, or NULL.
use instagram_on_nt.Prelude.{
  ℕ, zero, suc, ◌+◌, ◌/◌, ◌%◌, ◌^◌, ◌<◌, ◌≡◌, refl, sym, ap, ◌∙◌, arith, true, false, List, [], ◌∷◌,
  ◌++◌, append_assoc, append-nil, Option, none, some, ltb, leb, if◌then◌else◌, if_elim, length,
  length-append, take, drop, length-take, length-drop, codes,
}
use mathlib.Core.Path.{subst}
use instagram_on_nt.Private.{ig_rand_range}
use instagram_on_nt.Platform.{word}
use instagram_on_nt.Platform.Numbers.{printed-llu}
use instagram_on_nt.Private.Body.{
  Buffer, Session, append, append_all, copied, body_pieces, time_text, body_room,
  ig_build_timeline_body,
}

-- The text of the pieces, one behind the other.
abbrev pub joined : List (List ℕ) → List ℕ
joined [] = []
joined (s ∷ ss) = s ++ joined ss

-- What the buffer holds while there is room.
record Holds (room : ℕ) (full : List ℕ) (b : Buffer) : Type 0 where
  counted : b.p ≡ length full
  sized : length b.buf ≡ room
  front : b.p < room → take b.p b.buf ≡ full

take-exact : (n : ℕ) (xs ys : List ℕ) → length xs ≡ n → take n (xs ++ ys) ≡ xs
take-exact zero [] ys h = refl
take-exact zero (x ∷ xs) ys h = absurd (omega arith)
take-exact (suc n) [] ys h = absurd (omega arith)
take-exact (suc n) (x ∷ xs) ys h = ap (◌∷◌ x) (take-exact n xs ys (omega arith))

length-copied :
    (buf : List ℕ) (p : ℕ) (s : List ℕ)
    → p + length s < length buf
    → length (copied buf p s) ≡ length buf
length-copied buf p s h = omega (
  arith,
  length-append (take p buf) (s ++ drop (p + length s) buf),
  length-append s (drop (p + length s) buf),
  length-take p buf,
  length-drop (p + length s) buf,
)

take-copied :
    (buf : List ℕ) (p : ℕ) (s : List ℕ)
    → p + length s < length buf
    → take (p + length s) (copied buf p s) ≡ take p buf ++ s
take-copied buf p s h =
    ap (take (p + length s)) (sym (append_assoc (take p buf) s (drop (p + length s) buf)))
    ∙ take-exact (p + length s) (take p buf ++ s) (drop (p + length s) buf)
        (omega (arith, length-append (take p buf) s, length-take p buf))

append-Holds :
    (room : ℕ) (full : List ℕ) (b : Buffer) (s : List ℕ)
    → Holds room full b
    → Holds room (full ++ s) (append room b s)
unfolding append
append-Holds room full b s h = record {
  counted = omega (arith, h.counted, length-append full s);
  sized =
      if_elim (λ (t : List ℕ). length t ≡ room) (ltb (b.p + length s) room)
        (λ e. length-copied b.buf b.p s (ground (arith, h.sized)) ∙ h.sized) (λ e. h.sized);
  front = λ k.
      if_elim (λ (t : List ℕ). take (b.p + length s) t ≡ full ++ s) (ltb (b.p + length s) room)
        (λ e.
          take-copied b.buf b.p s (omega (arith, h.sized))
          ∙ ap (λ t. t ++ s) (h.front (omega arith)))
        (λ e. absurd (ground arith));
}

append_all-Holds :
    (room : ℕ) (full : List ℕ) (b : Buffer) (ss : List (List ℕ))
    → Holds room full b
    → Holds room (full ++ joined ss) (append_all room b ss)
unfolding append_all
append_all-Holds room full b [] h = rw (append-nil) h
append_all-Holds room full b (s ∷ ss) h =
    subst (λ t. Holds room t (append_all room (append room b s) ss))
      (append_assoc full s (joined ss))
      (append_all-Holds room (full ++ s) (append room b s) ss (append-Holds room full b s h))

finished :
    (b : Buffer) (full : List ℕ)
    → Holds body_room full b
    → (if leb body_room b.p then none else some (take b.p b.buf))
      ≡ (if leb body_room (length full) then none else some full)
finished b full h =
    if_elim (λ t. t ≡ (if leb body_room (length full) then none else some full)) (leb body_room b.p)
      (λ e. let l : leb body_room (length full) ≡ true = ground (arith, h.counted) in rw l)
      (λ e.
        let l : leb body_room (length full) ≡ false = ground (arith, h.counted) in
        rw l (ap some (h.front (ground arith))))

-- Whatever the buffer of 4096 bytes held before, the body of a request is the text of all its pieces
-- if that is shorter than the buffer, and NULL otherwise.
pub ig_build_timeline_body-joined :
    (start : List ℕ) (s : Session) (now_ms : ℕ) (sound : Option (List ℕ))
    → length start ≡ body_room
    → let text = joined (body_pieces s (time_text now_ms) (ig_rand_range sound 0 1)) in
      ig_build_timeline_body start s now_ms sound
      ≡ (if leb body_room (length text) then none else some text)
unfolding ig_build_timeline_body
ig_build_timeline_body-joined start s now_ms sound h =
    let pieces = body_pieces s (time_text now_ms) (ig_rand_range sound 0 1) in
    let b = append_all body_room (record { buf = start; p = 0 }) pieces in
    let k =
      append_all-Holds body_room [] (record { buf = start; p = 0 }) pieces
        (record { counted = refl; sized = h; front = λ _. refl }) in
    finished b (joined pieces) k

pub time_text-lu : (now_ms : ℕ) → time_text now_ms ≡ codes "%lu"
unfolding time_text
time_text-lu now_ms =
    ap (λ (r : List ℕ × ℕ). r.0)
      (printed-llu 24 (word (now_ms % 2 ^ 32) ∷ word (now_ms / 2 ^ 32) ∷ []) (omega arith))

-- The body of a request does not depend on the clock: whatever the time is, its three time fields
-- hold the text "%lu".
pub ig_build_timeline_body-clock :
    (start : List ℕ) (s : Session) (now_ms : ℕ) (sound : Option (List ℕ))
    → length start ≡ body_room
    → let text = joined (body_pieces s (codes "%lu") (ig_rand_range sound 0 1)) in
      ig_build_timeline_body start s now_ms sound
      ≡ (if leb body_room (length text) then none else some text)
ig_build_timeline_body-clock start s now_ms sound h =
    ig_build_timeline_body-joined start s now_ms sound h
    ∙ ap
        (λ ts.
          let text = joined (body_pieces s ts (ig_rand_range sound 0 1)) in
          if leb body_room (length text) then none else some text)
        (time_text-lu now_ms)
