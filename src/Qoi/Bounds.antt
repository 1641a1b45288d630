-- ===== src/Qoi/Bounds.antt =====
-- Sizes in img/qoi.c: the output buffer of qoi_encode is large enough, and qoi_decode fills exactly
-- the surface that it allocates.
use instagram_on_nt.Prelude.{
  ℕ, zero, suc, ◌+◌, ◌*◌, ◌^◌, ◌≤◌, ◌<◌, ◌≡◌, refl, ap, arith, ◌==◌, Bool, true, false, List, [],
  ◌∷◌, ◌++◌, some, none, if◌then◌else◌, length, drop, length-append, length-replicate, Option,
}
use instagram_on_nt.Raster.{Surface, surface_alloc}
use instagram_on_nt.Qoi.{
  Pixel, Index, Chunk, decode_loop, read_chunk, unpack, be32, encode_capacity, qoi_encode,
  qoi_decode, first_pixel, empty_index, end_marker, encode_loop, encode_step, visited, new_chunk,
  small_chunk, run_chunk, is_nil,
}
use instagram_on_nt.Qoi.Literal.{small_diff, small_luma}
use instagram_on_nt.Qoi.Buffers.{length-visited, length-header}

length-if :
    (n : ℕ) (b : Bool) (x y : List ℕ)
    → length x ≤ n
    → length y ≤ n
    → length (if b then x else y) ≤ n
length-if n true x y p q = p
length-if n false x y p q = q

length-small_chunk : (prev px : Pixel) → length (small_chunk prev px) ≤ 5
unfolding small_chunk
length-small_chunk prev px = length-if 5 (small_diff prev px) (_ ∷ []) _ (omega arith) (
    length-if 5 (small_luma prev px) (_ ∷ _ ∷ []) (0xFE ∷ px.r ∷ px.g ∷ px.b ∷ []) (omega arith)
      (omega arith))

length-new_chunk : (prev px : Pixel) → length (new_chunk prev px) ≤ 5
unfolding new_chunk
length-new_chunk prev px =
    length-if 5 (px.a == prev.a) (small_chunk prev px) (0xFF ∷ px.r ∷ px.g ∷ px.b ∷ px.a ∷ [])
      (length-small_chunk prev px) (omega arith)

-- A pending run has saved the byte that its chunk will take.
abbrev owed : ℕ → ℕ
owed zero = 0
owed (suc _) = 1

length-encode_step :
    (enc : Index) (prev : Pixel) (run : ℕ) (px : Pixel) (last : Bool)
    → let s = encode_step enc prev run px last in length s.bytes + owed s.run ≤ 5 + owed run
unfolding encode_step run_chunk
length-encode_step enc prev zero px last = ground (arith, length-new_chunk prev px)
length-encode_step enc prev (suc run) px last = ground (arith, length-new_chunk prev px)

length-encode_loop :
    (ws : List ℕ) (enc : Index) (prev : Pixel) (run : ℕ)
    → length (encode_loop enc prev run ws) ≤ 5 * length ws + owed run
unfolding encode_loop
length-encode_loop [] enc prev run = omega arith
length-encode_loop (w ∷ ws) enc prev run =
    let s = encode_step enc prev run (unpack w) (is_nil ws) in
    omega (
      arith,
      length-append s.bytes (encode_loop s.index (unpack w) s.run ws),
      length-encode_step enc prev run (unpack w) (is_nil ws),
      length-encode_loop ws s.index (unpack w) s.run,
    )

-- The bytes that qoi_encode writes for a surface of at most 2^28 pixels fit the buffer whose size it
-- has computed.
pub length-qoi_encode :
    (s : Surface) (bytes : List ℕ)
    → s.w * s.h ≤ 2 ^ 28
    → qoi_encode s ≡ some bytes
    → length bytes ≤ encode_capacity s
unfolding qoi_encode encode_capacity
length-qoi_encode s bytes small e =
    let enc = encode_loop empty_index first_pixel 0 (visited s) in
    ground (
      arith,
      length-header s.w s.h (enc ++ end_marker),
      length-append enc end_marker,
      length-encode_loop (visited s) empty_index first_pixel 0,
      length-visited s,
    )

length-decode_loop :
    (n : ℕ) (index : Index) (px : Pixel) (run : ℕ) (input : List ℕ)
    → length (decode_loop n index px run input) ≡ n
unfolding decode_loop
length-decode_loop zero index px run input = refl
length-decode_loop (suc n) index px (suc run) input =
    ap suc (length-decode_loop n index px run input)
length-decode_loop (suc n) index px zero [] = ap suc (length-decode_loop n index px zero [])
length-decode_loop (suc n) index px zero (op ∷ rest) =
    go (read_chunk op index px rest) refl (length-decode_loop n)
  where
    go :
        (c : Option Chunk)
        → read_chunk op index px rest ≡ c
        → ((index : Index) (px : Pixel) (run : ℕ) (input : List ℕ)
            → length (decode_loop n index px run input) ≡ n)
        → length (decode_loop (suc n) index px zero (op ∷ rest)) ≡ suc n
    go none e ih = rw (e, decode_loop) (length-replicate (suc n) 0)
    go (some c) e ih = rw (e, decode_loop) (ap suc (ih _ c.px c.run c.rest))

-- The dimensions and the pixel buffer that the decoder's result has, whatever the bytes.
pub record IsDecoded (s : Surface) : Type 0 where
  pub size : length s.pixels ≡ s.w * s.h
  pub wide : 0 < s.w
  pub high : 0 < s.h
  pub narrow : s.w ≤ 20000
  pub low : s.h ≤ 20000
  pub area : s.w * s.h ≤ 2 ^ 28
  pub packed : s.stride ≡ s.w

-- A surface that qoi_decode returns has one pixel for each position, rows without a gap, sides from 1
-- to 20000, and at most 2^28 pixels.
pub qoi_decode-IsDecoded : (p : List ℕ) (s : Surface) → qoi_decode p ≡ some s → IsDecoded s
unfolding qoi_decode surface_alloc
qoi_decode-IsDecoded p s e =
    ground (arith, length-decode_loop (be32 p 4 * be32 p 8) empty_index first_pixel 0 (drop 14 p))
