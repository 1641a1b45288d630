-- ===== src/Jpeg/Pixels.antt =====
-- The pixels of the surface that jpeg_decode of img/jpeg.c fills.
use instagram_on_nt.Prelude.{
  drop-drop, ℕ, zero, suc, ◌+◌, ◌*◌, ◌^◌, ◌<◌, ◌≤◌, ◌≡◌, refl, sym, ap, ◌∙◌, arith, Bool, true,
  false, ◌&&◌, List, [], ◌∷◌, Option, some, get_or, get_elem?, set, drop, length, ltb, length-set,
  get_elem?-set_self, get_elem?-set_ne, replicate, length-replicate,
}
use instagram_on_nt.Prelude.Int.{pos, leb_ℤ}
use instagram_on_nt.Raster.{Surface, surface_alloc, ras_argb, ras_a, ras_r, ras_g, ras_b}
use instagram_on_nt.Jpeg.{
  Decoded, Stb, packed, repack_row, repack_rows, repack, decoded, jpeg_decode,
}

get_or-drop : (k : ℕ) (xs : List ℕ) (i : ℕ) → get_or (drop k xs) i 0 ≡ get_or xs (k + i) 0
get_or-drop zero xs i = let e : i ≡ 0 + i = omega arith in ap (λ k. get_or xs k 0) e
get_or-drop (suc k) [] i = refl
get_or-drop (suc k) (x ∷ xs) i =
    let e : suc (k + i) ≡ suc k + i = omega arith in
    get_or-drop k xs i ∙ ap (λ n. get_or (x ∷ xs) n 0) e

-- A run over m + n pixels is a run over m of them and then one over n.
repack_row-add :
    (m n : ℕ) (src : List ℕ) (at : ℕ) (px : List ℕ)
    → repack_row (m + n) src at px
      ≡ (let r = repack_row m src at px in repack_row n r.0 (at + m) r.1)
unfolding repack_row
repack_row-add zero n src at px =
    let e : 0 + n ≡ n = omega arith in
    let f : at ≡ at + 0 = omega arith in
    ap (λ k. repack_row k src at px) e ∙ ap (λ i. repack_row n src i px) f
repack_row-add (suc m) n src at px =
    let px' = set px at (packed src) in
    let r = repack_row m (drop 4 src) (at + 1) px' in
    let e : suc m + n ≡ suc (m + n) = omega arith in
    let f : at + 1 + m ≡ at + suc m = omega arith in
    ap (λ k. repack_row k src at px) e
    ∙ repack_row-add m n (drop 4 src) (at + 1) px'
    ∙ ap (λ i. repack_row n r.0 i r.1) f

repack_rows-row :
    (n w y : ℕ) (src px : List ℕ)
    → repack_rows n w w y src px ≡ (repack_row (n * w) src (y * w) px).1
unfolding repack_rows repack_row
repack_rows-row zero w y src px =
    let e : 0 ≡ 0 * w = omega arith in ap (λ k. (repack_row k src (y * w) px).1) e
repack_rows-row (suc n) w y src px =
    let r = repack_row w src (y * w) px in
    let e : (y + 1) * w ≡ y * w + w = grind arith in
    let f : w + n * w ≡ suc n * w = grind arith in
    repack_rows-row n w (y + 1) r.0 r.1
    ∙ ap (λ i. (repack_row (n * w) r.0 i r.1).1) e
    ∙ ap (λ p. p.1) (sym (repack_row-add w (n * w) src (y * w) px))
    ∙ ap (λ k. (repack_row k src (y * w) px).1) f

repack_row-before :
    (n : ℕ) (src : List ℕ) (at : ℕ) (px : List ℕ) (i : ℕ)
    → i < at
    → get_elem? (repack_row n src at px).1 i ≡ get_elem? px i
unfolding repack_row
repack_row-before zero src at px i h = refl
repack_row-before (suc n) src at px i h =
    repack_row-before n (drop 4 src) (at + 1) (set px at (packed src)) i (omega arith)
    ∙ get_elem?-set_ne px (packed src) (λ e. omega arith)

-- The pixel j of a run is made of the bytes from 4 * j on.
repack_row-at :
    (n : ℕ) (src : List ℕ) (at : ℕ) (px : List ℕ) (j : ℕ)
    → j < n
    → at + n ≤ length px
    → get_elem? (repack_row n src at px).1 (at + j) ≡ some (packed (drop (4 * j) src))
unfolding repack_row
repack_row-at zero src at px j h k = absurd (omega arith)
repack_row-at (suc n) src at px zero h k =
    let e : at + 0 ≡ at = omega arith in
    ap (get_elem? (repack_row (suc n) src at px).1) e
    ∙ repack_row-before n (drop 4 src) (at + 1) (set px at (packed src)) at (omega arith)
    ∙ get_elem?-set_self px at (packed src) (omega arith)
repack_row-at (suc n) src at px (suc j) h k =
    let e : 4 + 4 * j ≡ 4 * suc j = omega arith in
    let f : at + suc j ≡ at + 1 + j = omega arith in
    ap (get_elem? (repack_row (suc n) src at px).1) f
    ∙ repack_row-at n (drop 4 src) (at + 1) (set px at (packed src)) j (omega arith)
        (omega (arith, length-set px at (packed src)))
    ∙ ap (λ s. some (packed s)) (drop-drop (4 * j) 4 src ∙ ap (λ i. drop i src) e)

-- Every entry is a byte.
unfoldable pub bytes : List ℕ → Bool
bytes [] = true
bytes (c ∷ s) = ltb c 256 && bytes s

get_or-bytes : (s : List ℕ) (i : ℕ) → bytes s ≡ true → get_or s i 0 < 256
unfolding bytes
get_or-bytes [] i h = omega arith
get_or-bytes (c ∷ s) zero h = ground arith
get_or-bytes (c ∷ s) (suc i) h = get_or-bytes s i (ground arith)

-- The channels of the word are the four bytes from the index `i` on.
pub record HasBytes (p : ℕ) (s : List ℕ) (i : ℕ) : Type 0 where
  pub red : ras_r p ≡ get_or s i 0
  pub green : ras_g p ≡ get_or s (i + 1) 0
  pub blue : ras_b p ≡ get_or s (i + 2) 0
  pub alpha : ras_a p ≡ get_or s (i + 3) 0

packed-HasBytes : (s : List ℕ) (i : ℕ) → bytes s ≡ true → HasBytes (packed (drop i s)) s i
unfolding ras_argb ras_a ras_r ras_g ras_b
packed-HasBytes s i h =
    let r = get_or-drop i s 0 in
    let g = get_or-drop i s 1 in
    let b = get_or-drop i s 2 in
    let a = get_or-drop i s 3 in
    let e : i + 0 ≡ i = omega arith in
    let r' = r ∙ ap (λ k. get_or s k 0) e in
    let lr = get_or-bytes s i h in
    let lg = get_or-bytes s (i + 1) h in
    let lb = get_or-bytes s (i + 2) h in
    let la = get_or-bytes s (i + 3) h in
    record {
      red = omega (arith, r', g, b, a, lr, lg, lb, la);
      green = omega (arith, r', g, b, a, lr, lg, lb, la);
      blue = omega (arith, r', g, b, a, lr, lg, lb, la);
      alpha = omega (arith, r', g, b, a, lr, lg, lb, la);
    }

-- The pixel in the column x and the row y.
abbrev pub pixel_at : Surface → ℕ → ℕ → Option ℕ
pixel_at s x y = get_elem? s.pixels (y * s.stride + x)

-- A surface of w by h pixels that shows the bytes.
pub record Shows (s : Surface) (w h : ℕ) (image : List ℕ) : Type 0 where
  pub width : s.w ≡ w
  pub height : s.h ≡ h
  pub pixels :
      (x y : ℕ)
      → x < w
      → y < h
      → (p : ℕ) × (pixel_at s x y ≡ some p) × HasBytes p image (4 * (y * w + x))

row_end : (x y w h : ℕ) → x < w → y < h → y * w + x < h * w
row_end x y w zero p q = absurd (omega arith)
row_end x zero w (suc h) p q = omega arith
row_end x (suc y) w (suc h) p q = omega (arith, row_end x y w h p (omega arith))

surface_alloc-made :
    (w h : ℕ)
    → 0 < w
    → 0 < h
    → w * h ≤ 2 ^ 28
    → surface_alloc (pos w) (pos h)
      ≡ some (record { pixels = replicate (w * h) 0; w = w; h = h; stride = w; owns = 1 })
unfolding surface_alloc
surface_alloc-made w h pw ph small =
    let a : leb_ℤ (pos w) (pos 0) ≡ false = ground arith in
    let b : leb_ℤ (pos h) (pos 0) ≡ false = ground arith in
    let c : ltb (2 ^ 28) (w * h) ≡ false = ground arith in rw (a, b, c)

-- The rows, repacked into a surface of their size.
repack_rows-at :
    (w h x y : ℕ) (image : List ℕ)
    → x < w
    → y < h
    → get_elem? (repack_rows h w w 0 image (replicate (w * h) 0)) (y * w + x)
      ≡ some (packed (drop (4 * (y * w + x)) image))
repack_rows-at w h x y image p q =
    let px : List ℕ = replicate (w * h) 0 in
    let start : 0 * w ≡ 0 = omega arith in
    let i : y * w + x ≡ 0 + (y * w + x) = omega arith in
    let swap : w * h ≡ h * w = grind arith in
    ap (λ l. get_elem? l (y * w + x))
      (repack_rows-row h w 0 image px ∙ ap (λ k. (repack_row (h * w) image k px).1) start)
    ∙ ap (get_elem? (repack_row (h * w) image 0 px).1) i
    ∙ repack_row-at (h * w) image 0 px (y * w + x) (row_end x y w h p q)
        (omega (arith, length-replicate {A = ℕ} (w * h) 0, swap))

-- If stb_image decodes the data to an image of w by h pixels, none of them 0 and of at most 2^28
-- pixels, whose entries are bytes, then jpeg_decode succeeds, and its surface has that size and shows
-- the image: the channels of the pixel in the column x and the row y are the image's bytes from
-- 4 * (y * w + x) on, in the order red, green, blue and alpha.
pub jpeg_decode-Shows :
    (stb : Stb) (jpeg : List ℕ) (w h : ℕ) (image : List ℕ)
    → stb jpeg ≡ some (record { w = pos w; h = pos h; bytes = image })
    → 0 < w
    → 0 < h
    → w * h ≤ 2 ^ 28
    → bytes image ≡ true
    → (s : Surface) × (jpeg_decode stb jpeg ≡ some s) × Shows s w h image
unfolding jpeg_decode decoded repack surface_alloc
jpeg_decode-Shows stb jpeg w h image e pw ph small b =
    let px = repack_rows h w w 0 image (replicate (w * h) 0) in
    let s : Surface = record { pixels = px; w = w; h = h; stride = w; owns = 1 } in
    let d : Decoded = record { w = pos w; h = pos h; bytes = image } in
    (
      s,
      ap decoded e ∙ ap (repack d) (surface_alloc-made w h pw ph small),
      record {
        width = refl;
        height = refl;
        pixels = λ x y p q. (
          packed (drop (4 * (y * w + x)) image),
          repack_rows-at w h x y image p q,
          packed-HasBytes image (4 * (y * w + x)) b,
        );
      },
    )
