-- ===== src/Qoi/RoundTrip.antt =====
-- What qoi_encode of img/qoi.c writes, qoi_decode reads back.
use instagram_on_nt.Prelude.{
  ℕ, zero, suc, ◌+◌, ◌^◌, ◌<◌, ◌≡◌, refl, sym, ap, ◌∙◌, arith, ◌==◌, ◌||◌, Bool, true, false, List,
  [], ◌∷◌, ◌++◌, if◌then◌else◌, bit_or, set, length, replicate, append_assoc, Bool-cases, inl, inr,
  length-set, bit_or_index, ltb,
}
use mathlib.Core.Path.{ap₂}
use instagram_on_nt.Raster.{ras_a, ras_r, ras_g, ras_b, argb_unpack}
use instagram_on_nt.Qoi.{
  Pixel, Index, decode_loop, pack, unpack, qoi_hash, run_chunk, new_chunk, encode_step, encode_loop,
  is_nil, same,
}
use instagram_on_nt.Qoi.Literal.{Reads, new_chunk-Reads, read_chunk-index}
use instagram_on_nt.Qoi.Signed.{IsPixel, qoi_hash-lt}
use instagram_on_nt.Qoi.Runs.{decode_run, decode_chunk}
use instagram_on_nt.Qoi.Agreement.{
  Agree, Agree-run, Agree-chunk, slot, same→eq, slot-set_self, slot-set_ne,
}

unpack-IsPixel : (w : ℕ) → IsPixel (unpack w)
unfolding unpack ras_a ras_r ras_g ras_b
unpack-IsPixel w = omega arith

pack-unpack : (w : ℕ) → w < 2 ^ 32 → pack (unpack w) ≡ w
unfolding pack unpack
pack-unpack w h = argb_unpack w h

abbrev pub AllWords : List ℕ → Type 0
AllWords [] = Unit
AllWords (w ∷ ws) = (w < 2 ^ 32) × AllWords ws

-- A step that only counts: the pixel repeats and no run chunk is written.
-- The chunk for a pixel that differs from the one before.
pub record Written (enc dec : Index) (prev px : Pixel) (bytes : List ℕ) (enc' : Index)
    : Type 0 where
  pub chunk : Reads dec prev bytes px
  pub agree : Agree enc' (set dec (qoi_hash px) px) px

index-Written :
    (enc dec : Index) (prev px : Pixel)
    → IsPixel px
    → Agree enc dec prev
    → slot enc px ≡ px
    → Written enc dec prev px (bit_or 0x00 (qoi_hash px) ∷ []) enc
index-Written enc dec prev px hx a e = record {
  chunk = record {
    op = qoi_hash px;
    args = [];
    bytes_lem = ap (λ o. o ∷ []) (bit_or_index (qoi_hash px) (qoi_hash-lt px hx));
    reads = λ rest.
        read_chunk-index (qoi_hash px) dec prev rest (qoi_hash-lt px hx) ∙ (rw (a.found px e));
  };
  agree = Agree-chunk px hx a enc a.enc_size e (λ q ne. refl);
}

new-Written :
    (enc dec : Index) (prev px : Pixel)
    → IsPixel prev
    → IsPixel px
    → Agree enc dec prev
    → Written enc dec prev px (new_chunk prev px) (set enc (qoi_hash px) px)
new-Written enc dec prev px hp hx a = record {
  chunk = new_chunk-Reads dec prev px hp hx;
  agree =
      Agree-chunk px hx a (set enc (qoi_hash px) px) (length-set enc (qoi_hash px) px ∙ a.enc_size)
        (slot-set_self enc px px hx a.enc_size refl) (λ q ne. slot-set_ne enc px q ne);
}

abbrev pending : ℕ → List ℕ
pending run = if ltb 0 run then run_chunk run else []

-- The decoder's table once a pending run is read.
abbrev after_run : Index → Pixel → ℕ → Index
after_run dec prev zero = dec
after_run dec prev (suc run) = set dec (qoi_hash prev) prev

after_run-Agree :
    (enc dec : Index) (prev : Pixel) (run : ℕ)
    → IsPixel prev
    → Agree enc dec prev
    → Agree enc (after_run dec prev run) prev
after_run-Agree enc dec prev zero hp a = a
after_run-Agree enc dec prev (suc run) hp a = Agree-run hp a

decode_pending :
    (run n : ℕ) (dec : Index) (prev : Pixel) (input : List ℕ)
    → run < 62
    → decode_loop (run + n) dec prev 0 (pending run ++ input)
      ≡ replicate run (pack prev) ++ decode_loop n (after_run dec prev run) prev 0 input
decode_pending zero n dec prev input h = let e : 0 + n ≡ n = omega arith in rw e
decode_pending (suc run) n dec prev input h =
    let t : ltb 0 (suc run) ≡ true = ground arith in
    rw t (decode_run run n dec prev input (omega arith))

-- The three outcomes of the encoder's step.
module _ (enc : Index) (prev : Pixel) (run : ℕ) (px : Pixel) (last : Bool) where
  step_close :
      same px prev ≡ true
      → (run + 1 == 62 || last) ≡ true
      → encode_step enc prev run px last
        ≡ record { bytes = run_chunk (run + 1); index = enc; run = 0 }
  unfolding encode_step
  step_close s t = rw (s, t)

  step_count :
      same px prev ≡ true
      → (run + 1 == 62 || last) ≡ false
      → encode_step enc prev run px last ≡ record { bytes = []; index = enc; run = run + 1 }
  unfolding encode_step
  step_count s t = rw (s, t)

  step_write :
      (dec : Index)
      → IsPixel prev
      → IsPixel px
      → Agree enc dec prev
      → same px prev ≡ false
      → (bytes : List ℕ) × (enc' : Index) × (encode_step enc prev run px last
          ≡ record { bytes = pending run ++ bytes; index = enc'; run = 0 })
        × Written enc dec prev px bytes enc'
  unfolding encode_step
  step_write dec hp hx a s = elim (Bool-cases (same (slot enc px) px)) [
    | inl t ↦ (_, enc, rw (s, t), index-Written enc dec prev px hx a (same→eq _ _ t))
    | inr t ↦ (_, _, rw (s, t), new-Written enc dec prev px hp hx a)
  ]

replicate-snoc {ℓ} :
    {A : Type ℓ} (k : ℕ) (x : A) (ys : List A) → replicate (suc k) x ++ ys ≡ replicate k x ++ x ∷ ys
replicate-snoc zero x ys = refl
replicate-snoc (suc k) x ys = ap (λ t. x ∷ t) (replicate-snoc k x ys)

-- One turn of both loops, given what the turns behind it do.
module _ (w : ℕ) (rest : List ℕ) (enc dec : Index) (prev : Pixel) (run : ℕ) (tail : List ℕ)
    (hp : IsPixel prev) (a : Agree enc dec prev) (hw : w < 2 ^ 32) (hr : run < 62) where
  word : same (unpack w) prev ≡ true → pack prev ≡ w
  word s = ap pack (sym (same→eq _ _ s)) ∙ pack-unpack w hw

  turn_close :
      same (unpack w) prev ≡ true
      → decode_loop
          (length rest)
          (set dec (qoi_hash prev) prev)
          prev
          0
          (encode_loop enc prev 0 rest ++ tail)
        ≡ rest
      → decode_loop
          (run + suc (length rest))
          dec
          prev
          0
          ((run_chunk (run + 1) ++ encode_loop enc (unpack w) 0 rest) ++ tail)
        ≡ replicate run (pack prev) ++ w ∷ rest
  turn_close s ih =
      let e1 : run + 1 ≡ suc run = omega arith in
      let e2 : run + suc (length rest) ≡ suc run + length rest = omega arith in
      rw (e1, e2, same→eq _ _ s, append_assoc)
        (decode_run run (length rest) dec prev _ hr
          ∙ ap (λ t. replicate (suc run) (pack prev) ++ t) ih
          ∙ replicate-snoc run (pack prev) rest
          ∙ ap (λ x. replicate run (pack prev) ++ x ∷ rest) (word s))

  turn_count :
      same (unpack w) prev ≡ true
      → decode_loop (run + 1 + length rest) dec prev 0 (encode_loop enc prev (run + 1) rest ++ tail)
        ≡ replicate (run + 1) (pack prev) ++ rest
      → decode_loop
          (run + suc (length rest))
          dec
          prev
          0
          (encode_loop enc (unpack w) (run + 1) rest ++ tail)
        ≡ replicate run (pack prev) ++ w ∷ rest
  turn_count s ih =
      let e1 : run + 1 ≡ suc run = omega arith in
      let e2 : run + suc (length rest) ≡ run + 1 + length rest = omega arith in
      rw (e2, same→eq _ _ s)
        (ih
          ∙ ap (λ k. replicate k (pack prev) ++ rest) e1
          ∙ replicate-snoc run (pack prev) rest
          ∙ ap (λ x. replicate run (pack prev) ++ x ∷ rest) (word s))

  turn_write :
      (bytes : List ℕ) (enc' : Index)
      → Reads (after_run dec prev run) prev bytes (unpack w)
      → decode_loop
          (length rest)
          (set (after_run dec prev run) (qoi_hash (unpack w)) (unpack w))
          (unpack w)
          0
          (encode_loop enc' (unpack w) 0 rest ++ tail)
        ≡ rest
      → decode_loop
          (run + suc (length rest))
          dec
          prev
          0
          (((pending run ++ bytes) ++ encode_loop enc' (unpack w) 0 rest) ++ tail)
        ≡ replicate run (pack prev) ++ w ∷ rest
  turn_write bytes enc' r ih =
      let more = encode_loop enc' (unpack w) 0 rest ++ tail in
      ap (decode_loop (run + suc (length rest)) dec prev 0)
        (append_assoc (pending run ++ bytes) _ tail ∙ append_assoc (pending run) bytes more)
      ∙ decode_pending run (suc (length rest)) dec prev (bytes ++ more) hr
      ∙ ap (λ t. replicate run (pack prev) ++ t)
          (decode_chunk (length rest) _ prev (unpack w) bytes more r
            ∙ ap₂ (λ x xs. x ∷ xs) (pack-unpack w hw) ih)

-- From tables that agree, the decoder reads back the pixels of the pending run and those behind it.
pub decode_loop-encode_loop :
    (ws : List ℕ) (enc dec : Index) (prev : Pixel) (run : ℕ) (tail : List ℕ)
    → IsPixel prev
    → Agree enc dec prev
    → AllWords ws
    → run < 62
    → (is_nil ws ≡ true → run ≡ 0)
    → decode_loop (run + length ws) dec prev 0 (encode_loop enc prev run ws ++ tail)
      ≡ replicate run (pack prev) ++ ws
unfolding encode_loop
decode_loop-encode_loop [] enc dec prev run tail hp a hw hr z =
    rw (z refl) (unfold decode_loop in refl)
decode_loop-encode_loop (w ∷ rest) enc dec prev run tail hp a hw hr z =
    let zero_add : 0 + length rest ≡ length rest = omega arith in
    elim (Bool-cases (same (unpack w) prev)) [
      | inl s ↦ elim (Bool-cases (run + 1 == 62 || is_nil rest)) [
        | inl t ↦
            let ih =
              decode_loop-encode_loop rest enc _ prev 0 tail hp (Agree-run hp a) hw.1 (omega arith)
                (λ _. refl) in
            rw (step_close enc prev run (unpack w) (is_nil rest) s t)
              (turn_close w rest enc dec prev run tail hp a hw.0 hr s (rw zero_add at ih))
        | inr t ↦
            let ih =
              decode_loop-encode_loop rest enc dec prev (run + 1) tail hp a hw.1 (ground arith)
                (ground arith) in
            rw (step_count enc prev run (unpack w) (is_nil rest) s t)
              (turn_count w rest enc dec prev run tail hp a hw.0 hr s ih)
      ]
      | inr s ↦
          let hx = unpack-IsPixel w in
          let dec' = after_run dec prev run in
          let (bytes, enc', e, c) =
            step_write enc prev run (unpack w) (is_nil rest) dec' hp hx
              (after_run-Agree enc dec prev run hp a) s in
          let ih =
            decode_loop-encode_loop rest enc' _ (unpack w) 0 tail hx c.agree hw.1 (omega arith)
              (λ _. refl) in
          rw e (
            turn_write w rest enc dec prev run tail hp a hw.0 hr bytes enc' c.chunk
              (rw zero_add at ih))
    ]
