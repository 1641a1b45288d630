-- ===== src/Qoi/Runs.antt =====
-- How the decoder's loop of img/qoi.c goes through a run, and through one other chunk.
use instagram_on_nt.Prelude.{
  ℕ, zero, suc, ◌+◌, ◌-◌, ◌<◌, ◌≡◌, ap, arith, List, ◌∷◌, ◌++◌, set, replicate, bit_or_run, bit_or,
}
use instagram_on_nt.Qoi.{Pixel, Index, decode_loop, pack, qoi_hash, run_chunk}
use instagram_on_nt.Qoi.Literal.{Reads, read_chunk-run}

decode_repeat :
    (k n : ℕ) (index : Index) (px : Pixel) (input : List ℕ)
    → decode_loop (k + n) index px k input ≡ replicate k (pack px) ++ decode_loop n index px 0 input
unfolding decode_loop
decode_repeat zero n index px input = let e : 0 + n ≡ n = omega arith in rw e
decode_repeat (suc k) n index px input =
    let e : suc k + n ≡ suc (k + n) = omega arith in
    rw e (ap (λ t. pack px ∷ t) (decode_repeat k n index px input))

-- A run chunk yields its pixels, and puts the pixel into the index.
pub decode_run :
    (k n : ℕ) (index : Index) (px : Pixel) (input : List ℕ)
    → k < 62
    → decode_loop (suc k + n) index px 0 (run_chunk (suc k) ++ input)
      ≡ replicate (suc k) (pack px) ++ decode_loop n (set index (qoi_hash px) px) px 0 input
unfolding decode_loop run_chunk
decode_run k n index px input h =
    let e : suc k + n ≡ suc (k + n) = omega arith in
    let op : bit_or 0xC0 (suc k - 1) ≡ 192 + k =
      (let e' : suc k - 1 ≡ k = omega arith in rw e' (bit_or_run k (omega arith))) in
    rw e (
      rw op (
        rw (read_chunk-run k index px input h, decode_loop)
          (ap (λ t. pack px ∷ t) (decode_repeat k n _ px input))))

pub decode_chunk :
    (n : ℕ) (index : Index) (prev px : Pixel) (bytes input : List ℕ)
    → Reads index prev bytes px
    → decode_loop (suc n) index prev 0 (bytes ++ input)
      ≡ pack px ∷ decode_loop n (set index (qoi_hash px) px) px 0 input
unfolding decode_loop
decode_chunk n index prev px bytes input r = rw (r.bytes_lem) (rw (r.reads input, decode_loop))
