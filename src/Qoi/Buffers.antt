-- ===== src/Qoi/Buffers.antt =====
-- The whole buffers of img/qoi.c: header, chunks and end marker, and the sizes of what is written.
use instagram_on_nt.Prelude.{
  ℕ, zero, suc, ◌+◌, ◌*◌, ◌^◌, ◌≤◌, ◌<◌, ◌≡◌, refl, sym, ap, ◌∙◌, arith, true, List, [], ◌∷◌, ◌++◌,
  some, get_or, length, replicate, drop, length-append,
}
use instagram_on_nt.Raster.{Surface, surface_alloc}
use instagram_on_nt.Qoi.{
  decode_loop, qoi_hash, be32, has_magic, put32, header, qoi_encode, qoi_decode, no_pixel,
  first_pixel, empty_index, end_marker, encode_loop, visited, words_at, rows_from,
}
use instagram_on_nt.Qoi.Agreement.{Agree}
use instagram_on_nt.Qoi.RoundTrip.{AllWords, decode_loop-encode_loop}

get_or-replicate {ℓ} : {A : Type ℓ} (n i : ℕ) (d : A) → get_or (replicate n d) i d ≡ d
get_or-replicate zero i d = refl
get_or-replicate (suc n) zero d = refl
get_or-replicate (suc n) (suc i) d = get_or-replicate n i d

hash_apart : qoi_hash no_pixel ≡ qoi_hash first_pixel → ⊥
unfolding qoi_hash
hash_apart e = omega arith

-- Both tables start empty, and the slot of the first pixel is empty in a way that no pixel matches.
start-Agree : Agree empty_index empty_index first_pixel
unfolding empty_index
start-Agree = record {
  enc_size = refl;
  dec_size = refl;
  found = λ q f. f;
  held = λ q e f.
      let z : q ≡ no_pixel = sym f ∙ get_or-replicate 64 (qoi_hash q) no_pixel in
      absurd (hash_apart (ap qoi_hash (sym z) ∙ e));
}

AllWords-get : (ws : List ℕ) (i : ℕ) → AllWords ws → get_or ws i 0 < 2 ^ 32
AllWords-get [] i h = omega arith
AllWords-get (w ∷ ws) zero h = h.0
AllWords-get (w ∷ ws) (suc i) h = AllWords-get ws i h.1

AllWords-append : (xs ys : List ℕ) → AllWords xs → AllWords ys → AllWords (xs ++ ys)
AllWords-append [] ys hx hy = hy
AllWords-append (x ∷ xs) ys hx hy = (hx.0, AllWords-append xs ys hx.1 hy)

words_at-AllWords : (p : List ℕ) (i n : ℕ) → AllWords p → AllWords (words_at p i n)
unfolding words_at
words_at-AllWords p i zero h = tt
words_at-AllWords p i (suc n) h = (AllWords-get p i h, words_at-AllWords p (i + 1) n h)

rows_from-AllWords :
    (p : List ℕ) (stride w y h : ℕ) → AllWords p → AllWords (rows_from p stride w y h)
unfolding rows_from
rows_from-AllWords p stride w y zero a = tt
rows_from-AllWords p stride w y (suc h) a =
    AllWords-append _ _ (words_at-AllWords p (y * stride) w a)
      (rows_from-AllWords p stride w (y + 1) h a)

length-words_at : (p : List ℕ) (i n : ℕ) → length (words_at p i n) ≡ n
unfolding words_at
length-words_at p i zero = refl
length-words_at p i (suc n) = ap suc (length-words_at p (i + 1) n)

length-rows_from : (p : List ℕ) (stride w y h : ℕ) → length (rows_from p stride w y h) ≡ w * h
unfolding rows_from
length-rows_from p stride w y zero = omega arith
length-rows_from p stride w y (suc h) =
    length-append (words_at p (y * stride) w) _
    ∙ grind (arith, length-words_at p (y * stride) w, length-rows_from p stride w (y + 1) h)

pub length-visited : (s : Surface) → length (visited s) ≡ s.w * s.h
unfolding visited
length-visited s = length-rows_from s.pixels s.stride s.w 0 s.h

-- The header's fields.
module _ (w h : ℕ) (rest : List ℕ) where
  be32-width : w < 2 ^ 32 → be32 (header w h ++ rest) 4 ≡ w
  unfolding be32 header put32
  be32-width p = omega arith

  be32-height : h < 2 ^ 32 → be32 (header w h ++ rest) 8 ≡ h
  unfolding be32 header put32
  be32-height p = omega arith

  has_magic-header : has_magic (header w h ++ rest) ≡ true
  unfolding has_magic header put32
  has_magic-header = refl

  drop-header : drop 14 (header w h ++ rest) ≡ rest
  unfolding header put32
  drop-header = refl

  pub length-header : length (header w h ++ rest) ≡ 14 + length rest
  unfolding header put32
  length-header = omega arith

-- What the checks of the decoder let through.
pub qoi_decode-accepts :
    (p : List ℕ) (w h : ℕ)
    → be32 p 4 ≡ w
    → be32 p 8 ≡ h
    → has_magic p ≡ true
    → 22 ≤ length p
    → 0 < w
    → 0 < h
    → w ≤ 20000
    → h ≤ 20000
    → w * h ≤ 2 ^ 28
    → qoi_decode p
      ≡ some (record {
        pixels = decode_loop (w * h) empty_index first_pixel 0 (drop 14 p);
        w = w;
        h = h;
        stride = w;
        owns = 1;
      })
unfolding qoi_decode surface_alloc
qoi_decode-accepts p w h ew eh em l pw ph mw mh area = rw (ew, eh, em) (ground arith)

abbrev body : Surface → List ℕ
body s = encode_loop empty_index first_pixel 0 (visited s) ++ end_marker

decode_body :
    (s : Surface)
    → AllWords s.pixels
    → decode_loop (s.w * s.h) empty_index first_pixel 0 (body s) ≡ visited s
unfolding visited
decode_body s aw =
    let n : 0 + length (visited s) ≡ s.w * s.h = omega (arith, length-visited s) in
    rw (← n) (
      decode_loop-encode_loop (visited s) empty_index empty_index first_pixel 0 end_marker
        (omega arith) start-Agree (rows_from-AllWords s.pixels s.stride s.w 0 s.h aw) (omega arith)
        (λ _. refl))

-- A surface with a width and a height from 1 to 20000, at most 2^28 pixels and words of 32 bits as
-- pixels is written by qoi_encode, and qoi_decode reads from those bytes a surface of the same size
-- with the same visible pixels, in a buffer of its own.
pub qoi_decode-qoi_encode :
    (s : Surface)
    → 0 < s.w
    → 0 < s.h
    → s.w ≤ 20000
    → s.h ≤ 20000
    → s.w * s.h ≤ 2 ^ 28
    → AllWords s.pixels
    → (bytes : List ℕ) × (qoi_encode s ≡ some bytes)
      × (qoi_decode bytes
          ≡ some (record { pixels = visited s; w = s.w; h = s.h; stride = s.w; owns = 1 }))
qoi_decode-qoi_encode s pw ph mw mh area aw = (header s.w s.h ++ body s, written, read)
  where
    written : qoi_encode s ≡ some (header s.w s.h ++ body s)
    written = unfold qoi_encode in ground arith

    long : 22 ≤ length (header s.w s.h ++ body s)
    long = omega (
      arith,
      length-header s.w s.h (body s),
      length-append (encode_loop empty_index first_pixel 0 (visited s)) end_marker,
    )

    read :
        qoi_decode (header s.w s.h ++ body s)
        ≡ some (record { pixels = visited s; w = s.w; h = s.h; stride = s.w; owns = 1 })
    read =
        qoi_decode-accepts (header s.w s.h ++ body s) s.w s.h
          (be32-width s.w s.h (body s) (omega arith)) (be32-height s.w s.h (body s) (omega arith))
          (has_magic-header s.w s.h (body s)) long pw ph mw mh area
        ∙ ap (λ px. some (record { pixels = px; w = s.w; h = s.h; stride = s.w; owns = 1 }))
            (ap (decode_loop (s.w * s.h) empty_index first_pixel 0) (drop-header s.w s.h (body s))
              ∙ decode_body s aw)
