-- ===== src/Platform/Printed.antt =====
-- The loop of mbedtls_nt4_vsnprintf of net/mbedtls_platform_nt4.c against the text of a format.
use instagram_on_nt.Prelude.{
  ℕ, zero, suc, ◌+◌, ◌-◌, ◌*◌, ◌^◌, ◌<◌, ◌≤◌, ◌≡◌, refl, ap, ◌∙◌, arith, ◌==◌, List, [], ◌∷◌, ◌++◌,
  append_assoc, append-nil, length, length-append, take, ltb, if_elim,
}
use instagram_on_nt.Prelude.Int.{pos, pos_part, int32, uint32, sub_int, ◌-ℤ◌}
use mathlib.Core.Path.{subst}
use instagram_on_nt.Platform.{
  Arg, Out, Conversion, Piece, emit_byte, emit, read_width, skip_byte, read_conversion, at_letter,
  next_piece, format_loop, content_cap, printed,
}

-- The text that a format stands for, with no bound on its length.
unfoldable pub formatted : ℕ → List ℕ → List Arg → List ℕ
unfolding next_piece
formatted zero p args = []
formatted (suc fuel) [] args = []
formatted (suc fuel) (c ∷ p) args =
    let s = next_piece c p args in s.output ++ formatted fuel s.rest s.args

take-none : (n : ℕ) → ◌≡◌ {A = List ℕ} [] (take n [])
take-none zero = refl
take-none (suc n) = refl

-- What a buffer with room for `cap` bytes holds of a text that has been emitted.
pub record Holds (cap : ℕ) (full : List ℕ) (o : Out) : Type 0 where
  pub front : o.written ≡ take cap full
  pub counted : o.pos ≡ length full

take-snoc_room :
    (cap : ℕ) (full : List ℕ) (c : ℕ)
    → length full < cap
    → take cap full ++ (c ∷ []) ≡ take cap (full ++ (c ∷ []))
take-snoc_room zero full c h = absurd (omega arith)
take-snoc_room (suc zero) [] c h = refl
take-snoc_room (suc (suc cap)) [] c h = refl
take-snoc_room (suc cap) (x ∷ full) c h = ap (◌∷◌ x) (take-snoc_room cap full c (omega arith))

take-snoc_full :
    (cap : ℕ) (full : List ℕ) (c : ℕ)
    → cap ≤ length full
    → take cap full ≡ take cap (full ++ (c ∷ []))
take-snoc_full zero full c h = refl
take-snoc_full (suc cap) [] c h = absurd (omega arith)
take-snoc_full (suc cap) (x ∷ full) c h = ap (◌∷◌ x) (take-snoc_full cap full c (omega arith))

emit_byte-Holds :
    (cap : ℕ) (full : List ℕ) (o : Out) (c : ℕ)
    → Holds cap full o
    → Holds cap (full ++ (c ∷ [])) (emit_byte cap o c)
unfolding emit_byte
emit_byte-Holds cap full o c h = record {
  front =
      if_elim (λ w. w ≡ take cap (full ++ (c ∷ []))) (ltb o.pos cap)
        (λ e.
          ap (λ w. w ++ (c ∷ [])) h.front ∙ take-snoc_room cap full c (ground (arith, h.counted)))
        (λ e. h.front ∙ take-snoc_full cap full c (ground (arith, h.counted)));
  counted = omega (arith, h.counted, length-append full (c ∷ []));
}

emit-Holds :
    (cap : ℕ) (full s : List ℕ) (o : Out) → Holds cap full o → Holds cap (full ++ s) (emit cap o s)
unfolding emit
emit-Holds cap full [] o h = rw (append-nil) h
emit-Holds cap full (c ∷ s) o h =
    subst (λ t. Holds cap t (emit cap (emit_byte cap o c) s)) (append_assoc full (c ∷ []) s)
      (emit-Holds cap (full ++ (c ∷ [])) s (emit_byte cap o c) (emit_byte-Holds cap full o c h))

format_loop-Holds :
    (fuel cap : ℕ) (p : List ℕ) (args : List Arg) (full : List ℕ) (o : Out)
    → Holds cap full o
    → Holds cap (full ++ formatted fuel p args) (format_loop fuel cap p args o)
unfolding format_loop formatted
format_loop-Holds zero cap p args full o h = rw (append-nil) h
format_loop-Holds (suc fuel) cap [] args full o h = rw (append-nil) h
format_loop-Holds (suc fuel) cap (c ∷ p) args full o h =
    let s = next_piece c p args in
    subst (λ t. Holds cap t (format_loop fuel cap s.rest s.args (emit cap o s.output)))
      (append_assoc full s.output (formatted fuel s.rest s.args))
      (format_loop-Holds fuel cap s.rest s.args (full ++ s.output) (emit cap o s.output)
        (emit-Holds cap full s.output o h))

skip_byte-length : (m : ℕ) (p : List ℕ) → length (skip_byte m p) ≤ length p
skip_byte-length m [] = omega arith
skip_byte-length m (c ∷ p) = ground arith

read_width-length : (w : ℕ) (p : List ℕ) → length (read_width w p).1 ≤ length p
unfolding read_width
read_width-length w [] = omega arith
read_width-length w (c ∷ p) = ground (arith, read_width-length (w * 10 + (c - b'0')) p)

read_conversion-length : (p : List ℕ) → length (read_conversion p).from ≤ length p
unfolding read_conversion
read_conversion-length p =
    let w = read_width 0 (skip_byte b'0' p) in
    omega (
      arith,
      skip_byte-length b'z' (skip_byte b'l' w.1),
      skip_byte-length b'l' w.1,
      read_width-length 0 (skip_byte b'0' p),
      skip_byte-length b'0' p,
    )

at_letter-length :
    (v : Conversion) (p : List ℕ) (args : List Arg) → length (at_letter v p args).rest ≤ length p
unfolding at_letter
at_letter-length v [] args = omega arith
at_letter-length v (c ∷ p) args = omega arith

next_piece-length :
    (c : ℕ) (p : List ℕ) (args : List Arg) → length (next_piece c p args).rest ≤ length p
unfolding next_piece
next_piece-length c p args =
    let v = read_conversion p in
    if_elim (λ (s : Piece). length s.rest ≤ length p) (c == b'%')
      (λ _. omega (arith, at_letter-length v v.from args, read_conversion-length p))
      (λ _. omega arith)

-- A round for each byte of the format is enough.
formatted_fuel :
    (fuel more : ℕ) (p : List ℕ) (args : List Arg)
    → length p ≤ fuel
    → length p ≤ more
    → formatted fuel p args ≡ formatted more p args
unfolding formatted
formatted_fuel zero zero p args h k = refl
formatted_fuel zero (suc more) [] args h k = refl
formatted_fuel (suc fuel) zero [] args h k = refl
formatted_fuel (suc fuel) (suc more) [] args h k = refl
formatted_fuel zero more (c ∷ p) args h k = absurd (omega arith)
formatted_fuel (suc fuel) zero (c ∷ p) args h k = absurd (omega arith)
formatted_fuel (suc fuel) (suc more) (c ∷ p) args h k =
    let s = next_piece c p args in
    let l = next_piece-length c p args in
    ap (λ t. s.output ++ t) (formatted_fuel fuel more s.rest s.args (omega arith) (omega arith))

pub content_cap_small : (n : ℕ) → n < 2 ^ 31 → content_cap n ≡ pos (n - 1)
unfolding content_cap sub_int int32 uint32 ◌-ℤ◌
content_cap_small n h = ground arith

-- What is stored, and the length, of a buffer that an `int` counts. The text is complete after a
-- round for each byte of the format: more rounds add nothing.
pub printed-formatted :
    (n : ℕ) (fmt : List ℕ) (args : List Arg) (rounds : ℕ)
    → n < 2 ^ 31
    → length fmt ≤ rounds
    → printed n fmt args
      ≡ (take (n - 1) (formatted rounds fmt args), length (formatted rounds fmt args))
unfolding printed
printed-formatted n fmt args rounds small h =
    let o : Out = record { written = []; pos = 0 } in
    let k =
      format_loop-Holds (length fmt) (n - 1) fmt args [] o
        (record { front = take-none (n - 1); counted = refl }) in
    let e = formatted_fuel (length fmt) rounds fmt args (omega arith) h in
    ap (λ cap. let r = format_loop (length fmt) (pos_part cap) fmt args o in (r.written, r.pos))
      (content_cap_small n small)
    ∙ (λ i. (k.front i, k.counted i))
    ∙ ap (λ t. (take (n - 1) t, length t)) e
