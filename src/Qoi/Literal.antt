-- ===== src/Qoi/Literal.antt =====
-- One chunk of the encoder, read by the decoder's tests (img/qoi.c).
use instagram_on_nt.Prelude.{
  ℕ, ◌+◌, ◌*◌, ◌/◌, ◌^◌, ◌≤◌, ◌<◌, ◌≡◌, refl, sym, ap, ◌∙◌, arith, ◌==◌, ◌&&◌, Bool, true, List, [],
  ◌∷◌, ◌++◌, some, bit_and, bit_or, get_or, bit_and_top2, bit_and_63, bit_and_3, bit_and_15,
  bit_or_luma, bit_or_nibbles, bit_or_diff, if_elim, and_true, ==_iff,
}
use mathlib.Core.Path.{ap₂}
use instagram_on_nt.Prelude.Int.{ℤ, pos, negsuc, neg_part, ◌+ℤ◌, ◌-ℤ◌, schar, ◌<ℤ◌}
use instagram_on_nt.Qoi.{
  Pixel, Chunk, Index, bump, diff_pixel, luma_pixel, read_chunk, small_chunk, new_chunk, no_pixel,
  biased, between,
}
use instagram_on_nt.Qoi.Signed.{IsPixel, bump-schar, bump-schar_via, biased_lem, unbias, unbias_via}

abbrev chunk : Pixel → List ℕ → Chunk
chunk px rest = record { px = px; run = 0; rest = rest }

-- The classes of the first byte.
pub read_chunk-index :
    (op : ℕ) (index : Index) (px : Pixel) (rest : List ℕ)
    → op < 64
    → read_chunk op index px rest ≡ some (chunk (get_or index op no_pixel) rest)
unfolding read_chunk
read_chunk-index op index px rest h = ground (arith, bit_and_top2 op, bit_and_63 op)

read_chunk-diff :
    (op : ℕ) (index : Index) (px : Pixel) (rest : List ℕ)
    → 64 ≤ op
    → op < 128
    → read_chunk op index px rest ≡ some (chunk (diff_pixel op px) rest)
unfolding read_chunk
read_chunk-diff op index px rest h k = ground (arith, bit_and_top2 op)

read_chunk-luma :
    (op b2 : ℕ) (index : Index) (px : Pixel) (rest : List ℕ)
    → 128 ≤ op
    → op < 192
    → read_chunk op index px (b2 ∷ rest) ≡ some (chunk (luma_pixel op b2 px) rest)
unfolding read_chunk
read_chunk-luma op b2 index px rest h k = ground (arith, bit_and_top2 op)

pub read_chunk-run :
    (run : ℕ) (index : Index) (px : Pixel) (rest : List ℕ)
    → run < 62
    → read_chunk (192 + run) index px rest ≡ some (record { px = px; run = run; rest = rest })
unfolding read_chunk
read_chunk-run run index px rest h =
    ground (arith, bit_and_top2 (192 + run), bit_and_63 (192 + run))

diff_pixel-fields :
    (x y z : ℕ) (p : Pixel)
    → x < 4
    → y < 4
    → z < 4
    → diff_pixel (64 + x * 16 + y * 4 + z) p ≡ record {
      r = bump p.r (pos x -ℤ pos 2);
      g = bump p.g (pos y -ℤ pos 2);
      b = bump p.b (pos z -ℤ pos 2);
      a = p.a;
    }
unfolding diff_pixel
diff_pixel-fields x y z p hx hy hz =
    let op = 64 + x * 16 + y * 4 + z in
    let ex : bit_and (op / 2 ^ 4) 3 ≡ x = omega (arith, bit_and_3 (op / 16) (omega arith)) in
    let ey : bit_and (op / 2 ^ 2) 3 ≡ y = omega (arith, bit_and_3 (op / 4) (omega arith)) in
    let ez : bit_and op 3 ≡ z = omega (arith, bit_and_3 op (omega arith)) in rw (ex, ey, ez)

luma_pixel-fields :
    (x y z : ℕ) (p : Pixel)
    → x < 64
    → y < 16
    → z < 16
    → luma_pixel (128 + x) (y * 16 + z) p ≡ record {
      r = bump p.r (pos x -ℤ pos 32 +ℤ pos y -ℤ pos 8);
      g = bump p.g (pos x -ℤ pos 32);
      b = bump p.b (pos x -ℤ pos 32 +ℤ pos z -ℤ pos 8);
      a = p.a;
    }
unfolding luma_pixel
luma_pixel-fields x y z p hx hy hz =
    let ex : bit_and (128 + x) 63 ≡ x = omega (arith, bit_and_63 (128 + x) (omega arith)) in
    let ey : bit_and ((y * 16 + z) / 2 ^ 4) 15 ≡ y =
      omega (arith, bit_and_15 ((y * 16 + z) / 16) (omega arith)) in
    let ez : bit_and (y * 16 + z) 15 ≡ z = omega (arith, bit_and_15 (y * 16 + z) (omega arith)) in
    rw (ex, ey, ez)

-- `bytes` is a chunk that the decoder reads as `px` after `prev`.
pub record Reads (index : Index) (prev : Pixel) (bytes : List ℕ) (px : Pixel) : Type 0 where
  pub op : ℕ
  pub args : List ℕ
  pub bytes_lem : bytes ≡ op ∷ args
  pub reads : (rest : List ℕ) → read_chunk op index prev (args ++ rest) ≡ some (chunk px rest)

-- A byte's change, as the encoder computes it.
abbrev pub delta : ℕ → ℕ → ℤ
delta x y = schar (pos x -ℤ pos y)

between_lem :
    (k n : ℕ) (v : ℤ) → between (negsuc k) v (pos n) ≡ true → (neg_part v ≤ k) × (v <ℤ pos n)
between_lem k n (pos m) h = ground arith
between_lem k n (negsuc m) h = ground arith

biased-between : (k n : ℕ) (v : ℤ) → between (negsuc k) v (pos n) ≡ true → biased v k < n + k
biased-between k n v h = let b = between_lem k n v h in omega (arith, biased_lem v k b.0, b.1)

Pixel_eq : (p q : Pixel) → p.r ≡ q.r → p.g ≡ q.g → p.b ≡ q.b → p.a ≡ q.a → p ≡ q
Pixel_eq p q er eg eb ea = ground arith

-- The tests for the two short chunks.
abbrev pub small_diff : Pixel → Pixel → Bool
small_diff prev px =
    between (negsuc 2) (delta px.r prev.r) (pos 2)
    && (between (negsuc 2) (delta px.g prev.g) (pos 2)
        && between (negsuc 2) (delta px.b prev.b) (pos 2))

abbrev pub small_luma : Pixel → Pixel → Bool
small_luma prev px =
    let v = delta px.g prev.g in
    between (negsuc 8) (schar (delta px.r prev.r -ℤ v)) (pos 8)
    && (between (negsuc 32) v (pos 32)
        && between (negsuc 8) (schar (delta px.b prev.b -ℤ v)) (pos 8))

module _ (index : Index) (prev px : Pixel) (hp : IsPixel prev) (hx : IsPixel px)
    (ea : px.a ≡ prev.a) where
  small_chunk-diff :
      between (negsuc 2) (delta px.r prev.r) (pos 2) ≡ true
      → between (negsuc 2) (delta px.g prev.g) (pos 2) ≡ true
      → between (negsuc 2) (delta px.b prev.b) (pos 2) ≡ true
      → Reads index prev
          (bit_or
              (bit_or
                (bit_or 0x40 (biased (delta px.r prev.r) 2 * 2 ^ 4))
                (biased (delta px.g prev.g) 2 * 2 ^ 2))
              (biased (delta px.b prev.b) 2)
            ∷ [])
          px
  small_chunk-diff tr tg tb =
      let x = biased (delta px.r prev.r) 2 in
      let y = biased (delta px.g prev.g) 2 in
      let z = biased (delta px.b prev.b) 2 in
      let hr = biased-between 2 2 _ tr in
      let hg = biased-between 2 2 _ tg in
      let hb = biased-between 2 2 _ tb in
      let op = 64 + x * 16 + y * 4 + z in
      let e : diff_pixel op prev ≡ px =
        diff_pixel-fields x y z prev hr hg hb
        ∙ Pixel_eq _ px
            (ap (bump prev.r) (unbias _ 2 (between_lem 2 2 _ tr).0)
              ∙ bump-schar _ _ hx.r_byte hp.r_byte)
            (ap (bump prev.g) (unbias _ 2 (between_lem 2 2 _ tg).0)
              ∙ bump-schar _ _ hx.g_byte hp.g_byte)
            (ap (bump prev.b) (unbias _ 2 (between_lem 2 2 _ tb).0)
              ∙ bump-schar _ _ hx.b_byte hp.b_byte)
            (sym ea) in
      record {
        op = op;
        args = [];
        bytes_lem = ap (λ o. o ∷ []) (bit_or_diff x y z hr hg hb);
        reads = λ rest.
            read_chunk-diff op index prev rest (omega arith) (omega arith)
            ∙ ap (λ p. some (chunk p rest)) e;
      }

  small_chunk-luma :
      let v = delta px.g prev.g in
      let vgr = schar (delta px.r prev.r -ℤ v) in
      let vgb = schar (delta px.b prev.b -ℤ v) in
      between (negsuc 8) vgr (pos 8) ≡ true
      → between (negsuc 32) v (pos 32) ≡ true
      → between (negsuc 8) vgb (pos 8) ≡ true
      → Reads index prev
          (bit_or 0x80 (biased v 32) ∷ bit_or (biased vgr 8 * 2 ^ 4) (biased vgb 8) ∷ [])
          px
  small_chunk-luma tr tg tb =
      let v = delta px.g prev.g in
      let vgr = schar (delta px.r prev.r -ℤ v) in
      let vgb = schar (delta px.b prev.b -ℤ v) in
      let x = biased v 32 in
      let y = biased vgr 8 in
      let z = biased vgb 8 in
      let hr = biased-between 8 8 _ tr in
      let hg = biased-between 32 32 _ tg in
      let hb = biased-between 8 8 _ tb in
      let ev : pos x -ℤ pos 32 ≡ v = unbias _ 32 (between_lem 32 32 _ tg).0 in
      let e : luma_pixel (128 + x) (y * 16 + z) prev ≡ px =
        luma_pixel-fields x y z prev hg hr hb
        ∙ Pixel_eq _ px
            (ap (λ u. bump prev.r (u +ℤ pos y -ℤ pos 8)) ev
              ∙ ap (bump prev.r) (unbias_via v _ 8 (between_lem 8 8 _ tr).0)
              ∙ bump-schar_via px.r prev.r v hx.r_byte)
            (ap (bump prev.g) ev ∙ bump-schar _ _ hx.g_byte hp.g_byte)
            (ap (λ u. bump prev.b (u +ℤ pos z -ℤ pos 8)) ev
              ∙ ap (bump prev.b) (unbias_via v _ 8 (between_lem 8 8 _ tb).0)
              ∙ bump-schar_via px.b prev.b v hx.b_byte)
            (sym ea) in
      record {
        op = 128 + x;
        args = (y * 16 + z) ∷ [];
        bytes_lem = ap₂ (λ o b. o ∷ b ∷ []) (bit_or_luma x hg) (bit_or_nibbles y z hr hb);
        reads = λ rest.
            read_chunk-luma (128 + x) _ index prev rest (omega arith) (omega arith)
            ∙ ap (λ p. some (chunk p rest)) e;
      }

  small_chunk-rgb : Reads index prev (0xFE ∷ px.r ∷ px.g ∷ px.b ∷ []) px
  unfolding read_chunk
  small_chunk-rgb = record {
    op = 0xFE;
    args = px.r ∷ px.g ∷ px.b ∷ [];
    bytes_lem = refl;
    reads = λ rest. ap (λ p. some (chunk p rest)) (Pixel_eq _ px refl refl refl (sym ea));
  }

  small_chunk-Reads : Reads index prev (small_chunk prev px) px
  unfolding small_chunk
  small_chunk-Reads =
      let R = λ (bytes : List ℕ). Reads index prev bytes px in
      if_elim R (small_diff prev px)
        (λ t. let a = and_true _ _ t in let b = and_true _ _ a.1 in small_chunk-diff a.0 b.0 b.1)
        (λ _.
          if_elim R (small_luma prev px)
            (λ t.
              let a = and_true _ _ t in let b = and_true _ _ a.1 in small_chunk-luma a.0 b.0 b.1)
            (λ _. small_chunk-rgb))

new_chunk-rgba :
    (index : Index) (prev px : Pixel) → Reads index prev (0xFF ∷ px.r ∷ px.g ∷ px.b ∷ px.a ∷ []) px
unfolding read_chunk
new_chunk-rgba index prev px = record {
  op = 0xFF;
  args = px.r ∷ px.g ∷ px.b ∷ px.a ∷ [];
  bytes_lem = refl;
  reads = λ rest. refl;
}

-- A pixel that is not in the index is written as a chunk that reads as that pixel.
pub new_chunk-Reads :
    (index : Index) (prev px : Pixel)
    → IsPixel prev
    → IsPixel px
    → Reads index prev (new_chunk prev px) px
unfolding new_chunk
new_chunk-Reads index prev px hp hx =
    if_elim (λ bytes. Reads index prev bytes px) (px.a == prev.a)
      (λ t. small_chunk-Reads index prev px hp hx ((==_iff _ _).0 t))
      (λ _. new_chunk-rgba index prev px)
