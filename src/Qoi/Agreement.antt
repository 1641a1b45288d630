-- ===== src/Qoi/Agreement.antt =====
-- The two index tables of img/qoi.c. The decoder writes its table after every chunk, the encoder
-- only when it writes a pixel that the table lacks, so the tables differ; they agree where it counts.
use instagram_on_nt.Prelude.{
  ◌≡◌, arith, sym, ◌∙◌, true, length, get_or, set, get_or-set_self, get_or-set_ne, length-set,
}
use native.Mathlib.Decide.{ℕ_discrete}
use instagram_on_nt.Qoi.{Pixel, Index, qoi_hash, no_pixel, same}
use instagram_on_nt.Qoi.Signed.{IsPixel, qoi_hash-lt}

abbrev pub slot : Index → Pixel → Pixel
slot index p = get_or index (qoi_hash p) no_pixel

-- `enc` and `dec` are the tables of the encoder and the decoder, `prev` the pixel before.
pub record Agree (enc dec : Index) (prev : Pixel) : Type 0 where
  pub enc_size : length enc ≡ 64
  pub dec_size : length dec ≡ 64
  -- What the encoder finds in its own table is in the decoder's.
  pub found : (q : Pixel) → slot enc q ≡ q → slot dec q ≡ q
  -- The slot of the pixel before holds no other pixel of that hash.
  pub held : (q : Pixel) → qoi_hash q ≡ qoi_hash prev → slot enc q ≡ q → q ≡ prev

pub same→eq : (p q : Pixel) → same p q ≡ true → p ≡ q
unfolding same
same→eq p q h = ground arith

pub slot-set_self :
    (t : Index) (p q : Pixel)
    → IsPixel p
    → length t ≡ 64
    → qoi_hash q ≡ qoi_hash p
    → slot (set t (qoi_hash p) p) q ≡ p
slot-set_self t p q hp l e =
    rw e (get_or-set_self t (qoi_hash p) p no_pixel (omega (arith, qoi_hash-lt p hp)))

pub slot-set_ne :
    (t : Index) (p q : Pixel)
    → (qoi_hash q ≡ qoi_hash p → ⊥)
    → slot (set t (qoi_hash p) p) q ≡ slot t q
slot-set_ne t p q ne = get_or-set_ne t (qoi_hash p) (qoi_hash q) p no_pixel (λ e. ne (sym e))

-- The decoder's write of the pixel before, at the end of a run.
pub Agree-run :
    {enc dec : Index} {prev : Pixel}
    → IsPixel prev
    → Agree enc dec prev
    → Agree enc (set dec (qoi_hash prev) prev) prev
Agree-run {enc} {dec} {prev} hp a = record {
  enc_size = a.enc_size;
  dec_size = length-set dec (qoi_hash prev) prev ∙ a.dec_size;
  found = λ q f. elim (ℕ_discrete (qoi_hash q) (qoi_hash prev)) [
    | yes e ↦ slot-set_self dec prev q hp a.dec_size e ∙ sym (a.held q e f)
    | no ne ↦ slot-set_ne dec prev q ne ∙ a.found q f
  ];
  held = a.held;
}

-- Both tables after a chunk for `px`, if the encoder's has `px` in its slot.
pub Agree-chunk :
    {enc dec : Index} {prev : Pixel} (px : Pixel)
    → IsPixel px
    → Agree enc dec prev
    → (enc' : Index) → length enc' ≡ 64
    → slot enc' px ≡ px
    → ((q : Pixel) → (qoi_hash q ≡ qoi_hash px → ⊥) → slot enc' q ≡ slot enc q)
    → Agree enc' (set dec (qoi_hash px) px) px
Agree-chunk {enc} {dec} {prev} px hx a enc' l e keep = record {
  enc_size = l;
  dec_size = length-set dec (qoi_hash px) px ∙ a.dec_size;
  found = λ q f. elim (ℕ_discrete (qoi_hash q) (qoi_hash px)) [
    | yes h ↦ slot-set_self dec px q hx a.dec_size h ∙ sym (only q h f)
    | no ne ↦ slot-set_ne dec px q ne ∙ a.found q (sym (keep q ne) ∙ f)
  ];
  held = only;
}
  where
    only : (q : Pixel) → qoi_hash q ≡ qoi_hash px → slot enc' q ≡ q → q ≡ px
    only q h f = sym f ∙ (rw h e)
