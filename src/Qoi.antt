-- ===== src/Qoi.antt =====
-- img/qoi.c: the QOI encoder and decoder, over lists of bytes. A position in a buffer is the list
-- of the bytes from there on, so `pos < len` asks whether that list is empty.
mod Signed
mod Literal
mod Runs
mod Agreement
pub mod RoundTrip
pub mod Buffers
pub mod Bounds
use instagram_on_nt.Prelude.{
  ℕ, zero, suc, ◌+◌, ◌-◌, ◌*◌, ◌/◌, ◌%◌, ◌^◌, ◌<◌, ◌==◌, ◌&&◌, ◌||◌, not, Bool, true, false, List,
  [], ◌∷◌, ◌++◌, Option, none, some, ltb, if◌then◌else◌, bit_and, bit_or, get_or, set, length, drop,
  replicate,
}
use instagram_on_nt.Prelude.Int.{ℤ, pos, pos_part, ◌+ℤ◌, ◌-ℤ◌, ltb_ℤ, negsuc, uchar, schar}
use instagram_on_nt.Raster.{Surface, surface_alloc, ras_argb, ras_a, ras_r, ras_g, ras_b}

-- The four bytes `r g b a` of both loops, and an entry of `index`.
pub record Pixel : Type 0 where
  pub r : ℕ
  pub g : ℕ
  pub b : ℕ
  pub a : ℕ

unfoldable pub unpack : ℕ → Pixel
unfolding ras_r ras_g ras_b ras_a
unpack w = record { r = ras_r w; g = ras_g w; b = ras_b w; a = ras_a w }

unfoldable pub pack : Pixel → ℕ
unfolding ras_argb
pack p = ras_argb p.a p.r p.g p.b

unfoldable pub same : Pixel → Pixel → Bool
same p q = p.r == q.r && (p.g == q.g && (p.b == q.b && p.a == q.a))

-- QOI_HASH
unfoldable pub qoi_hash : Pixel → ℕ
qoi_hash p = bit_and (p.r * 3 + p.g * 5 + p.b * 7 + p.a * 11) 63

abbrev pub no_pixel : Pixel
no_pixel = record { r = 0; g = 0; b = 0; a = 0 }

abbrev pub first_pixel : Pixel
first_pixel = record { r = 0; g = 0; b = 0; a = 255 }

abbrev pub Index : Type 0
Index = List Pixel

-- memset(index, 0, sizeof(index))
unfoldable pub empty_index : Index
empty_index = replicate 64 no_pixel

-- What one chunk leaves: the pixel, the pixels still to repeat, and the bytes behind the chunk.
pub record Chunk : Type 0 where
  pub px : Pixel
  pub run : ℕ
  pub rest : List ℕ

unfoldable pub read_rgb : Pixel → List ℕ → Option Chunk
read_rgb px (r ∷ g ∷ b ∷ rest) =
    some (record { px = record { r = r; g = g; b = b; a = px.a }; run = 0; rest = rest })
read_rgb px _ = none

unfoldable pub read_rgba : List ℕ → Option Chunk
read_rgba (r ∷ g ∷ b ∷ a ∷ rest) =
    some (record { px = record { r = r; g = g; b = b; a = a }; run = 0; rest = rest })
read_rgba _ = none

-- `c += d` on an unsigned char.
unfoldable pub bump : ℕ → ℤ → ℕ
bump c d = uchar (pos c +ℤ d)

unfoldable pub diff_pixel : ℕ → Pixel → Pixel
diff_pixel op p = record {
  r = bump p.r (pos (bit_and (op / 2 ^ 4) 3) -ℤ pos 2);
  g = bump p.g (pos (bit_and (op / 2 ^ 2) 3) -ℤ pos 2);
  b = bump p.b (pos (bit_and op 3) -ℤ pos 2);
  a = p.a;
}

unfoldable pub luma_pixel : ℕ → ℕ → Pixel → Pixel
luma_pixel op b2 p =
    let vg = pos (bit_and op 63) -ℤ pos 32 in
    record {
      r = bump p.r (vg +ℤ pos (bit_and (b2 / 2 ^ 4) 15) -ℤ pos 8);
      g = bump p.g vg;
      b = bump p.b (vg +ℤ pos (bit_and b2 15) -ℤ pos 8);
      a = p.a;
    }

unfoldable pub read_luma : ℕ → Pixel → List ℕ → Option Chunk
read_luma op px [] = none
read_luma op px (b2 ∷ rest) = some (record { px = luma_pixel op b2 px; run = 0; rest = rest })

-- The chain of tests on `op`; `none` is the `break` of a chunk that is cut short.
unfoldable pub read_chunk : ℕ → Index → Pixel → List ℕ → Option Chunk
unfolding read_rgb read_rgba read_luma
read_chunk op index px rest =
    if op == 0xFE
    then read_rgb px rest
    else if op == 0xFF
    then read_rgba rest
    else if bit_and op 0xC0 == 0x00
    then some (record { px = get_or index (bit_and op 63) no_pixel; run = 0; rest = rest })
    else if bit_and op 0xC0 == 0x40
    then some (record { px = diff_pixel op px; run = 0; rest = rest })
    else if bit_and op 0xC0 == 0x80
    then read_luma op px rest
    else some (record { px = px; run = bit_and op 63; rest = rest })

-- The loop over the `n` pixels left. A `break` leaves the rest as calloc made it.
unfoldable pub decode_loop : ℕ → Index → Pixel → ℕ → List ℕ → List ℕ
decode_loop zero index px run input = []
decode_loop (suc n) index px (suc run) input = pack px ∷ decode_loop n index px run input
decode_loop (suc n) index px zero [] = pack px ∷ decode_loop n index px zero []
decode_loop (suc n) index px zero (op ∷ rest) = elim (read_chunk op index px rest) [
  | none ↦ replicate (suc n) 0
  | some c ↦ pack c.px ∷ decode_loop n (set index (qoi_hash c.px) c.px) c.px c.run c.rest
]

-- The big-endian word at position `i`.
unfoldable pub be32 : List ℕ → ℕ → ℕ
be32 p i =
    get_or p i 0 * 2 ^ 24
    + get_or p (i + 1) 0 * 2 ^ 16
    + get_or p (i + 2) 0 * 2 ^ 8
    + get_or p (i + 3) 0

unfoldable pub has_magic : List ℕ → Bool
has_magic p =
    get_or p 0 0 == b'q' && (get_or p 1 0 == b'o' && (get_or p 2 0 == b'i' && get_or p 3 0 == b'f'))

-- `none` is the result -1.
unfoldable pub qoi_decode : List ℕ → Option Surface
qoi_decode p =
    let w = be32 p 4 in
    let h = be32 p 8 in
    if ltb (length p) (14 + 8)
    then none
    else if not (has_magic p)
    then none
    else if w == 0 || (h == 0 || (ltb 20000 w || ltb 20000 h))
    then none
    else elim (surface_alloc (pos w) (pos h)) [
      | none ↦ none
      | some s ↦
          some (record s { pixels = decode_loop (w * h) empty_index first_pixel 0 (drop 14 p) })
    ]

unfoldable pub put32 : ℕ → List ℕ
put32 v = (v / 2 ^ 24 % 256) ∷ (v / 2 ^ 16 % 256) ∷ (v / 2 ^ 8 % 256) ∷ (v % 256) ∷ []

-- `lo < v && v < hi` on a signed char.
abbrev pub between : ℤ → ℤ → ℤ → Bool
between lo v hi = ltb_ℤ lo v && ltb_ℤ v hi

-- (v + k), which the tests before have found to be at least 0.
abbrev pub biased : ℤ → ℕ → ℕ
biased v k = pos_part (v +ℤ pos k)

unfoldable pub small_chunk : Pixel → Pixel → List ℕ
small_chunk prev px =
    let vr = schar (pos px.r -ℤ pos prev.r) in
    let vg = schar (pos px.g -ℤ pos prev.g) in
    let vb = schar (pos px.b -ℤ pos prev.b) in
    let vgr = schar (vr -ℤ vg) in
    let vgb = schar (vb -ℤ vg) in
    if between (negsuc 2) vr (pos 2)
      && (between (negsuc 2) vg (pos 2) && between (negsuc 2) vb (pos 2))
    then bit_or (bit_or (bit_or 0x40 (biased vr 2 * 2 ^ 4)) (biased vg 2 * 2 ^ 2)) (biased vb 2)
      ∷ []
    else if between (negsuc 8) vgr (pos 8)
        && (between (negsuc 32) vg (pos 32) && between (negsuc 8) vgb (pos 8))
    then bit_or 0x80 (biased vg 32) ∷ bit_or (biased vgr 8 * 2 ^ 4) (biased vgb 8) ∷ []
    else 0xFE ∷ px.r ∷ px.g ∷ px.b ∷ []

unfoldable pub new_chunk : Pixel → Pixel → List ℕ
new_chunk prev px =
    if px.a == prev.a then small_chunk prev px else 0xFF ∷ px.r ∷ px.g ∷ px.b ∷ px.a ∷ []

unfoldable pub run_chunk : ℕ → List ℕ
run_chunk run = bit_or 0xC0 (run - 1) ∷ []

pub record Step : Type 0 where
  pub bytes : List ℕ
  pub index : Index
  pub run : ℕ

-- The body of the encoder's loop; `last` is `y == s->h - 1 && x == s->w - 1`.
unfoldable pub encode_step : Index → Pixel → ℕ → Pixel → Bool → Step
encode_step index prev run px last =
    if same px prev
    then if run + 1 == 62 || last
      then record { bytes = run_chunk (run + 1); index = index; run = 0 }
      else record { bytes = []; index = index; run = run + 1 }
    else let pending = if ltb 0 run then run_chunk run else [] in
      if same (get_or index (qoi_hash px) no_pixel) px
      then record { bytes = pending ++ bit_or 0x00 (qoi_hash px) ∷ []; index = index; run = 0 }
      else record {
        bytes = pending ++ new_chunk prev px;
        index = set index (qoi_hash px) px;
        run = 0;
      }

abbrev pub is_nil : List ℕ → Bool
is_nil [] = true
is_nil (_ ∷ _) = false

-- Over the pixels in the order in which the two loops visit them; the last one has none behind it.
unfoldable pub encode_loop : Index → Pixel → ℕ → List ℕ → List ℕ
encode_loop index prev run [] = []
encode_loop index prev run (w ∷ rest) =
    let s = encode_step index prev run (unpack w) (is_nil rest) in
    s.bytes ++ encode_loop s.index (unpack w) s.run rest

-- The `n` words from position `i` on.
unfoldable pub words_at : List ℕ → ℕ → ℕ → List ℕ
words_at pixels i zero = []
words_at pixels i (suc n) = get_or pixels i 0 ∷ words_at pixels (i + 1) n

-- The pixels of `h` rows from row `y` on, as `for (y) for (x) row[x]` visits them.
unfoldable pub rows_from : List ℕ → ℕ → ℕ → ℕ → ℕ → List ℕ
unfolding words_at
rows_from pixels stride w y zero = []
rows_from pixels stride w y (suc h) =
    words_at pixels (y * stride) w ++ rows_from pixels stride w (y + 1) h

unfoldable pub visited : Surface → List ℕ
unfolding rows_from
visited s = rows_from s.pixels s.stride s.w 0 s.h

abbrev pub end_marker : List ℕ
end_marker = replicate 7 0 ++ 1 ∷ []

-- The 14 bytes of the header.
unfoldable pub header : ℕ → ℕ → List ℕ
unfolding put32
header w h = (b'q' ∷ b'o' ∷ b'i' ∷ b'f' ∷ []) ++ (put32 w ++ (put32 h ++ 4 ∷ 0 ∷ []))

-- The size of the buffer that qoi_encode allocates, as `long`s of 32 bits compute it.
unfoldable pub encode_capacity : Surface → ℕ
encode_capacity s = let n = s.w * s.h % 2 ^ 32 in (n * 5 + 14 + 8) % 2 ^ 32

-- The bytes that it writes to that buffer; the heap is taken to have room.
unfoldable pub qoi_encode : Surface → Option (List ℕ)
unfolding header encode_loop encode_step same small_chunk new_chunk run_chunk qoi_hash schar ◌+ℤ◌
    ◌-ℤ◌ unpack visited
qoi_encode s =
    if s.w == 0 || s.h == 0
    then none
    else some (header s.w s.h ++ (encode_loop empty_index first_pixel 0 (visited s) ++ end_marker))
