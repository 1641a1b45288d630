-- ===== src/Platform/Numbers.antt =====
-- Numbers that printed of net/mbedtls_platform_nt4.c prints, against core/http.c.
use instagram_on_nt.Prelude.{
  ℕ, zero, suc, ◌+◌, ◌-◌, ◌/◌, ◌%◌, ◌^◌, ◌<◌, ◌≤◌, ◌≡◌, refl, sym, ap, ◌∙◌, arith, ◌==◌, Bool, true,
  false, List, [], ◌∷◌, ◌++◌, length, take, if◌then◌else◌, codes, get_or, replicate, append-nil,
  ltb, Bool-cases, inl, inr,
}
use mathlib.Core.Path.{subst}
use instagram_on_nt.Http.{put_digits, put_uint}
use instagram_on_nt.Platform.{
  Arg, word, hex_table, uint_digits, emit_uint, emit_int, printed, next_piece,
}
use instagram_on_nt.Platform.Printed.{formatted, printed-formatted}

digit_char : (d : ℕ) → d < 10 → get_or (hex_table false) d 0 ≡ b'0' + d
digit_char zero h = refl
digit_char (suc zero) h = refl
digit_char (suc (suc zero)) h = refl
digit_char (suc (suc (suc zero))) h = refl
digit_char (suc (suc (suc (suc zero)))) h = refl
digit_char (suc (suc (suc (suc (suc zero))))) h = refl
digit_char (suc (suc (suc (suc (suc (suc zero)))))) h = refl
digit_char (suc (suc (suc (suc (suc (suc (suc zero))))))) h = refl
digit_char (suc (suc (suc (suc (suc (suc (suc (suc zero)))))))) h = refl
digit_char (suc (suc (suc (suc (suc (suc (suc (suc (suc zero))))))))) h = refl
digit_char (suc (suc (suc (suc (suc (suc (suc (suc (suc (suc d)))))))))) h = absurd (omega arith)

-- `v` has at most `room` decimal digits.
abbrev Fits : ℕ → ℕ → Type 0
Fits zero v = v ≡ 0
Fits (suc room) v = Fits room (v / 10)

Fits-zero : (room : ℕ) → Fits room 0
Fits-zero zero = refl
Fits-zero (suc room) = Fits-zero room

word-Fits : (v : ℕ) → v < 2 ^ 32 → Fits 32 v
word-Fits v h = subst (Fits 22) (sym (tenth v h)) (Fits-zero 22)
  where
    tenth : (v : ℕ) → v < 2 ^ 32 → v / 10 / 10 / 10 / 10 / 10 / 10 / 10 / 10 / 10 / 10 ≡ 0
    tenth v h = omega arith

put_digits-zero : (fuel : ℕ) (done : List ℕ) → put_digits fuel 0 done ≡ done
unfolding put_digits
put_digits-zero zero done = refl
put_digits-zero (suc fuel) done = refl

uint_digits-put_digits :
    (room fuel v : ℕ) (done : List ℕ)
    → 0 < v
    → v ≤ fuel
    → Fits room v
    → uint_digits room 10 false v done ≡ put_digits fuel v done
unfolding uint_digits put_digits
uint_digits-put_digits zero fuel v done p h fits = absurd (omega arith)
uint_digits-put_digits (suc room) zero v done p h fits = absurd (omega arith)
uint_digits-put_digits (suc room) (suc fuel) v done p h fits =
    let d = digit_char (v % 10) (omega arith) in
    let some_left : (v == 0) ≡ false = ground arith in
    rw (some_left, d)
      (elim (Bool-cases (v / 10 == 0)) [
        | inl last ↦
            let z : v / 10 ≡ 0 = ground arith in
            rw (last, z) (sym (put_digits-zero fuel ((b'0' + v % 10) ∷ done)))
        | inr more ↦ rw more (
            uint_digits-put_digits room fuel (v / 10) ((b'0' + v % 10) ∷ done) (ground arith)
              (omega arith) fits)
      ])

uint_digits-put_uint : (v : ℕ) → v < 2 ^ 32 → uint_digits 32 10 false v [] ≡ put_uint v
unfolding put_uint
uint_digits-put_uint zero h = unfold uint_digits in refl
uint_digits-put_uint (suc v) h =
    uint_digits-put_digits 32 (suc v) (suc v) [] (omega arith) (omega arith) (word-Fits (suc v) h)
    ∙ sym (not_zero v)
  where
    not_zero :
        (v : ℕ)
        → (if suc v == 0 then b'0' ∷ [] else put_digits (suc v) (suc v) [])
          ≡ put_digits (suc v) (suc v) []
    not_zero v = rw (some_left v)
      where
        some_left : (v : ℕ) → (suc v == 0) ≡ false
        some_left v = ground arith

unpadded : (digits : List ℕ) (c : ℕ) → replicate (0 - length digits) c ++ digits ≡ digits
unpadded digits c = let e : 0 - length digits ≡ 0 = omega arith in rw e

emit_uint-put_uint :
    (v : ℕ) (zero_pad : Bool) → v < 2 ^ 32 → emit_uint v 10 false 0 zero_pad ≡ put_uint v
unfolding emit_uint
emit_uint-put_uint v zero_pad h =
    unpadded (uint_digits 32 10 false v []) (if zero_pad then b'0' else b' ')
    ∙ uint_digits-put_uint v h

-- "%lu" with a word prints the decimal digits that put_uint of core/http.c writes, as far as the
-- buffer of `n` bytes has room, and returns how many digits there are.
pub printed-lu :
    (n v : ℕ)
    → n < 2 ^ 31
    → v < 2 ^ 32
    → printed n (codes "%lu") (word v ∷ []) ≡ (take (n - 1) (put_uint v), length (put_uint v))
unfolding formatted next_piece
printed-lu n v small h =
    printed-formatted n (codes "%lu") (word v ∷ []) 3 small (omega arith)
    ∙ ap (λ t. (take (n - 1) t, length t)) (append-nil _ ∙ emit_uint-put_uint v false h)

-- A second `l` is no part of a conversion: "%llu" prints "%lu", whatever the arguments are.
pub printed-llu :
    (n : ℕ) (args : List Arg)
    → n < 2 ^ 31
    → printed n (codes "%llu") args ≡ (take (n - 1) (codes "%lu"), 3)
unfolding formatted next_piece
printed-llu n args small = printed-formatted n (codes "%llu") args 5 small (omega arith)

positive_int : (v : ℕ) → v < 2 ^ 31 → emit_int v 0 false ≡ put_uint v
unfolding emit_int
positive_int v h =
    let e : ltb v (2 ^ 31) ≡ true = ground arith in rw e (emit_uint-put_uint v false (omega arith))

-- "%d" with an `int` that is not negative does the same.
pub printed-d :
    (n v : ℕ)
    → n < 2 ^ 31
    → v < 2 ^ 31
    → printed n (codes "%d") (word v ∷ []) ≡ (take (n - 1) (put_uint v), length (put_uint v))
unfolding formatted next_piece
printed-d n v small h =
    printed-formatted n (codes "%d") (word v ∷ []) 2 small (omega arith)
    ∙ ap (λ t. (take (n - 1) t, length t)) (append-nil _ ∙ positive_int v h)
