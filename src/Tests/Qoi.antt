-- ===== src/Tests/Qoi.antt =====
-- Runs of img/qoi.c, and its properties at concrete pictures.
use instagram_on_nt.Prelude.{ℕ, ◌≤◌, ◌≡◌, refl, arith, List, [], ◌∷◌, some, length}
use instagram_on_nt.Raster.{Surface}
use instagram_on_nt.Qoi.{qoi_encode, encode_capacity, qoi_decode, visited}
use instagram_on_nt.Qoi.Buffers.{qoi_decode-qoi_encode}
use instagram_on_nt.Qoi.Bounds.{length-qoi_encode, qoi_decode-IsDecoded, IsDecoded}

-- Two rows of two pixels, of which the second repeats and the third is new.
abbrev picture : Surface
picture = record {
  pixels = 0xFF102030 ∷ 0xFF102030 ∷ 0 ∷ 0xFF112131 ∷ 0x80FFFFFF ∷ 0 ∷ [];
  w = 2;
  h = 2;
  stride = 3;
  owns = 0;
}

visited_lem : visited picture ≡ 0xFF102030 ∷ 0xFF102030 ∷ 0xFF112131 ∷ 0x80FFFFFF ∷ []
unfolding visited
visited_lem = refl

written :
    (bytes : List ℕ) × (qoi_encode picture ≡ some bytes)
    × (qoi_decode bytes
        ≡ some (record { pixels = visited picture; w = 2; h = 2; stride = 2; owns = 1 }))
written =
    qoi_decode-qoi_encode picture (omega arith) (omega arith) (omega arith) (omega arith)
      (omega arith) (omega arith)

qoi_decode-qoi_encode_example :
    (bytes : List ℕ) × (qoi_encode picture ≡ some bytes)
    × (qoi_decode bytes
        ≡ some (record { pixels = visited picture; w = 2; h = 2; stride = 2; owns = 1 }))
qoi_decode-qoi_encode_example =
    qoi_decode-qoi_encode picture (omega arith) (omega arith) (omega arith) (omega arith)
      (omega arith) (omega arith)

length-qoi_encode_example : length written.0 ≤ encode_capacity picture
length-qoi_encode_example = length-qoi_encode picture written.0 (omega arith) written.1

qoi_decode-IsDecoded_example :
    IsDecoded (record { pixels = visited picture; w = 2; h = 2; stride = 2; owns = 1 })
qoi_decode-IsDecoded_example =
    qoi_decode-IsDecoded written.0
      (record { pixels = visited picture; w = 2; h = 2; stride = 2; owns = 1 }) written.2
