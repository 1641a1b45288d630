-- ===== src/Http/Chunks/Encoding.antt =====
-- The chunked encoding of a body, as the specification writes it, and dechunk of core/http.c on it.
use instagram_on_nt.Prelude.{
  ℕ, zero, suc, ◌+◌, ◌-◌, ◌*◌, ◌/◌, ◌%◌, ◌^◌, ◌≤◌, ◌<◌, ◌≡◌, refl, ap, ◌∙◌, arith, ◌==◌, false,
  List, [], ◌∷◌, ◌++◌, some, ltb, if◌then◌else◌, if_elim, length, take, drop, length-append,
}
use instagram_on_nt.Prelude.Int.{pos, leb_ℤ, int32, uint32, int32_small}
use instagram_on_nt.Prelude.Result.{ok, ◌>>=◌}
use instagram_on_nt.Http.{crlf}
use instagram_on_nt.Http.Chunks.{
  chunk_digit, chunk_length, skip_line, skip_breaks, bytes_from, dechunk_loop, dechunk,
}
use instagram_on_nt.Http.Chunks.Bounds.{digit_round, chunk_length-cons}

unfoldable pub hex_char : ℕ → ℕ
hex_char d = if ltb d 10 then b'0' + d else b'a' + (d - 10)

-- The hexadecimal digits of `v`, none for 0, in front of `done`.
unfoldable pub hex_digits : ℕ → ℕ → List ℕ → List ℕ
unfolding hex_char
hex_digits zero v done = done
hex_digits (suc fuel) v done =
    if v == 0 then done else hex_digits fuel (v / 16) (hex_char (v % 16) ∷ done)

-- The chunks, each after its length, and the last chunk.
unfoldable pub chunked : List (List ℕ) → List ℕ
unfolding hex_digits
chunked [] = b'0' ∷ (crlf ++ crlf)
chunked (c ∷ cs) = hex_digits (length c) (length c) (crlf ++ (c ++ (crlf ++ chunked cs)))

unfoldable pub concat : List (List ℕ) → List ℕ
concat [] = []
concat (c ∷ cs) = c ++ concat cs

-- Every chunk has a length that a positive `long` holds.
abbrev pub Sized : List (List ℕ) → Type 0
Sized [] = Unit {0}
Sized (c ∷ cs) = (0 < length c) × (length c < 2 ^ 31) × Sized cs

chunk_digit-hex_char : (d : ℕ) → d < 16 → chunk_digit (hex_char d) ≡ some d
unfolding chunk_digit hex_char
chunk_digit-hex_char d h = ground arith

chunk_length-hex_char :
    (n d : ℕ) (s : List ℕ)
    → d < 16
    → chunk_length n (hex_char d ∷ s) ≡ chunk_length ((n * 16 + d) % 2 ^ 32) s
chunk_length-hex_char n d s h =
    chunk_length-cons n (hex_char d) s
    ∙ ap (digit_round n (hex_char d) s) (chunk_digit-hex_char d h)

chunk_length-hex_digits :
    (fuel v : ℕ) (s : List ℕ)
    → v ≤ fuel
    → v < 2 ^ 32
    → chunk_length 0 (hex_digits fuel v s) ≡ chunk_length v s
unfolding hex_digits
chunk_length-hex_digits zero v s h k = let e : 0 ≡ v = omega arith in ap (λ n. chunk_length n s) e
chunk_length-hex_digits (suc fuel) v s h k =
    if_elim (λ t. chunk_length 0 t ≡ chunk_length v s) (v == 0)
      (λ e. let z : 0 ≡ v = ground arith in ap (λ n. chunk_length n s) z)
      (λ e.
        let m : (v / 16 * 16 + v % 16) % 2 ^ 32 ≡ v = omega arith in
        chunk_length-hex_digits fuel (v / 16) (hex_char (v % 16) ∷ s) (ground arith) (omega arith)
        ∙ chunk_length-hex_char (v / 16) (v % 16) s (omega arith)
        ∙ ap (λ n. chunk_length n s) m)

pub take-append_lem : (c s : List ℕ) → take (length c) (c ++ s) ≡ c
take-append_lem [] s = refl
take-append_lem (x ∷ c) s = ap (◌∷◌ x) (take-append_lem c s)

pub drop-append_lem : (c s : List ℕ) → drop (length c) (c ++ s) ≡ s
drop-append_lem [] s = refl
drop-append_lem (x ∷ c) s = drop-append_lem c s

-- What follows a chunk's data is no line break.
hex_char-Solid : (d : ℕ) (s : List ℕ) → d < 16 → skip_breaks (hex_char d ∷ s) ≡ hex_char d ∷ s
unfolding skip_breaks hex_char
hex_char-Solid d s h = ground arith

hex_digits-Solid :
    (fuel v : ℕ) (s : List ℕ)
    → (v ≡ 0 → skip_breaks s ≡ s)
    → v ≤ fuel
    → skip_breaks (hex_digits fuel v s) ≡ hex_digits fuel v s
unfolding hex_digits
hex_digits-Solid zero v s o h = o (omega arith)
hex_digits-Solid (suc fuel) v s o h =
    if_elim (λ t. skip_breaks t ≡ t) (v == 0) (λ e. o (ground arith))
      (λ e.
        hex_digits-Solid fuel (v / 16) (hex_char (v % 16) ∷ s)
          (λ _. hex_char-Solid (v % 16) s (omega arith)) (ground arith))

chunked-Solid : (cs : List (List ℕ)) → Sized cs → skip_breaks (chunked cs) ≡ chunked cs
unfolding chunked skip_breaks
chunked-Solid [] h = refl
chunked-Solid (c ∷ cs) h =
    hex_digits-Solid (length c) (length c) _ (λ e. absurd (omega (arith, h.0))) (omega arith)

hex_digits-length : (fuel v : ℕ) (s : List ℕ) → length s ≤ length (hex_digits fuel v s)
unfolding hex_digits
hex_digits-length zero v s = omega arith
hex_digits-length (suc fuel) v s =
    if_elim (λ (t : List ℕ). length s ≤ length t) (v == 0) {x = s} (λ e. omega arith)
      (λ e. omega (arith, hex_digits-length fuel (v / 16) (hex_char (v % 16) ∷ s)))

pub clamp_all :
    (c r : List ℕ)
    → (if ltb (length (c ++ r)) (length c) then length (c ++ r) else length c) ≡ length c
clamp_all c r = let l = length-append c r in ground arith

-- The bytes of a text, whatever follows it.
pub bytes_from-append : (c r : List ℕ) → bytes_from (length c) (c ++ r) ≡ ok c
unfolding bytes_from
bytes_from-append c r =
    let l = length-append c r in
    let b : ltb (length (c ++ r)) (length c) ≡ false = ground arith in rw (b, take-append_lem c r)

-- A round at a chunk of positive length.
dechunk_loop-chunk :
    (fuel : ℕ) (t c r : List ℕ)
    → chunk_length 0 t ≡ (length c, 13 ∷ 10 ∷ (c ++ r))
    → 0 < length t
    → 0 < length c
    → length c < 2 ^ 31
    → dechunk_loop (suc fuel) t ≡ (dechunk_loop fuel (skip_breaks r) >>= λ out. ok (c ++ out))
unfolding dechunk_loop skip_line
dechunk_loop-chunk fuel [] c r e p q h = absurd (omega arith)
dechunk_loop-chunk fuel (x ∷ t) c r e p q h =
    let i = int32_small (pos (length c)) (omega arith) (omega arith) in
    let b : leb_ℤ (pos (length c)) (pos 0) ≡ false = ground arith in
    rw (e, i, b, clamp_all c r, bytes_from-append c r, drop-append_lem c r)

chunked-length :
    (c : List ℕ) (cs : List (List ℕ))
    → length c + length (chunked cs) + 4 ≤ length (chunked (c ∷ cs))
unfolding chunked
chunked-length c cs = omega (
  arith,
  hex_digits-length (length c) (length c) (13 ∷ 10 ∷ (c ++ (13 ∷ 10 ∷ chunked cs))),
  length-append c (13 ∷ 10 ∷ chunked cs),
)

dechunk_loop-chunked :
    (fuel : ℕ) (cs : List (List ℕ))
    → Sized cs
    → length (chunked cs) < fuel
    → dechunk_loop fuel (chunked cs) ≡ ok (concat cs)
dechunk_loop-chunked zero cs h k = absurd (omega arith)
dechunk_loop-chunked (suc fuel) [] h k =
    unfold dechunk_loop chunked concat chunk_length chunk_digit skip_line int32 uint32 in refl
dechunk_loop-chunked (suc fuel) (c ∷ cs) h k =
    let r = 13 ∷ 10 ∷ chunked cs in
    let l = chunked-length c cs in
    let digits : chunk_length 0 (chunked (c ∷ cs)) ≡ (length c, 13 ∷ 10 ∷ (c ++ r)) =
      unfold chunked chunk_length chunk_digit in
      chunk_length-hex_digits (length c) (length c) (13 ∷ 10 ∷ (c ++ r)) (omega arith)
        (omega (arith, h.1)) in
    let solid : skip_breaks r ≡ chunked cs = unfold skip_breaks in chunked-Solid cs h.2 in
    let rest = dechunk_loop-chunked fuel cs h.2 (omega (arith, l)) in
    dechunk_loop-chunk fuel (chunked (c ∷ cs)) c r digits (omega (arith, l)) h.0 h.1
    ∙ ap (λ s. dechunk_loop fuel s >>= λ out. ok (c ++ out)) solid
    ∙ ap (λ o. o >>= λ out. ok (c ++ out)) rest
    ∙ unfold concat in refl

-- A body in the chunked encoding, whose chunks have between 1 and 2^31 - 1 bytes, is decoded to its
-- chunks, one after the other.
pub dechunk-chunked : (cs : List (List ℕ)) → Sized cs → dechunk (chunked cs) ≡ ok (concat cs)
unfolding dechunk
dechunk-chunked cs h = dechunk_loop-chunked (length (chunked cs) + 1) cs h (omega arith)
