-- ===== src/Http/Chunks/Bounds.antt =====
-- The loop of dechunk in core/http.c ends, and what it writes fits its buffer.
use instagram_on_nt.Prelude.{
  ℕ, zero, suc, ◌+◌, ◌*◌, ◌%◌, ◌^◌, ◌≤◌, ◌<◌, ◌≡◌, ◌≢◌, refl, arith, false, List, [], ◌∷◌, Option,
  none, some, length, drop, ltb, if◌then◌else◌, length-append, length-take, length-drop,
}
use instagram_on_nt.Prelude.Int.{pos, pos_part, leb_ℤ, int32, uint32}
use instagram_on_nt.Prelude.Result.{Ensures, Ensures-bind, Ensures-if}
use instagram_on_nt.Http.Chunks.{
  chunk_digit, chunk_length, skip_line, skip_breaks, bytes_from, dechunk_loop, dechunk,
}

-- One round of the loop over digits.
abbrev pub digit_round : ℕ → ℕ → List ℕ → Option ℕ → ℕ × List ℕ
digit_round n c s none = (n, c ∷ s)
digit_round n c s (some d) = chunk_length ((n * 16 + d) % 2 ^ 32) s

pub chunk_length-cons :
    (n c : ℕ) (s : List ℕ) → chunk_length n (c ∷ s) ≡ digit_round n c s (chunk_digit c)
unfolding chunk_length
chunk_length-cons n c s = refl

chunk_length-length : (n : ℕ) (s : List ℕ) → length (chunk_length n s).1 ≤ length s
unfolding chunk_length
chunk_length-length n [] = omega arith
chunk_length-length n (c ∷ s) =
    elim (chunk_digit c) as (λ o. length (digit_round n c s o).1 ≤ suc (length s)) [
      | none ↦ omega arith
      | some d ↦ omega (arith, chunk_length-length ((n * 16 + d) % 2 ^ 32) s)
    ]

round-shorter :
    (c : ℕ) (s : List ℕ) (o : Option ℕ)
    → (digit_round 0 c s o).0 ≢ 0
    → length (digit_round 0 c s o).1 ≤ length s
round-shorter c s none h = absurd (h refl)
round-shorter c s (some d) h = chunk_length-length ((0 * 16 + d) % 2 ^ 32) s

skip_line-length : (s : List ℕ) → length (skip_line s) ≤ length s
unfolding skip_line
skip_line-length [] = omega arith
skip_line-length (c ∷ s) = ground (arith, skip_line-length s)

skip_breaks-length : (s : List ℕ) → length (skip_breaks s) ≤ length s
unfolding skip_breaks
skip_breaks-length [] = omega arith
skip_breaks-length (c ∷ s) = ground (arith, skip_breaks-length s)

-- A chunk that is not the last has a length other than 0.
nonzero : (n : ℕ) → leb_ℤ (int32 (pos n)) (pos 0) ≡ false → n ≢ 0
unfolding int32 uint32
nonzero n h e = ground arith

-- A copy within the buffer is made, and has the length that was asked for.
pub bytes_from-Ensures :
    (n : ℕ) (p : List ℕ) → n ≤ length p → Ensures (λ s. length s ≡ n) (bytes_from n p)
unfolding bytes_from
bytes_from-Ensures n p h =
    Ensures-if (λ s. length s ≡ n) (ltb (length p) n) _ _ (λ e. absurd (ground arith))
      (λ _. omega (arith, length-take n p))

pub clamped : (m n : ℕ) → (if ltb m n then m else n) ≤ m
clamped m n = ground arith

dechunk_loop-Ensures :
    (fuel : ℕ) (p : List ℕ)
    → length p < fuel
    → Ensures (λ out. length out ≤ length p) (dechunk_loop fuel p)
unfolding dechunk_loop
dechunk_loop-Ensures zero p h = absurd (omega arith)
dechunk_loop-Ensures (suc fuel) [] h = omega arith
dechunk_loop-Ensures (suc fuel) (c ∷ s) h =
    let q = chunk_length 0 (c ∷ s) in
    let p = skip_line q.1 in
    let clen = int32 (pos q.0) in
    let n = if ltb (length p) (pos_part clen) then length p else pos_part clen in
    let r = skip_breaks (drop n p) in
    let within : n ≤ length p = clamped (length p) (pos_part clen) in
    Ensures-if (λ out. length out ≤ suc (length s)) (leb_ℤ clen (pos 0)) _ _ (λ _. omega arith)
      (λ e.
        let a : length q.1 ≤ length s = round-shorter c s (chunk_digit c) (nonzero q.0 e) in
        let b = skip_line-length q.1 in
        let d = length-drop n p in
        let f = skip_breaks-length (drop n p) in
        Ensures-bind (λ chunk. length chunk ≡ n) (λ out. length out ≤ suc (length s))
          (bytes_from n p) _ (bytes_from-Ensures n p within)
          (λ chunk m.
            Ensures-bind (λ out. length out ≤ length r) (λ out. length out ≤ suc (length s))
              (dechunk_loop fuel r) _ (dechunk_loop-Ensures fuel r (omega arith))
              (λ out k. omega (arith, length-append chunk out, within, m, a, b, d, f, k))))

-- On any body, dechunk ends and writes at most as many bytes as the body has, so that they and the
-- final NUL fit the buffer that it allocates.
pub dechunk-Ensures : (p : List ℕ) → Ensures (λ out. length out ≤ length p) (dechunk p)
unfolding dechunk
dechunk-Ensures p = dechunk_loop-Ensures (length p + 1) p (omega arith)
