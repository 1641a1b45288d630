-- ===== src/Platform/Printing.antt =====
-- What mbedtls_nt4_snprintf of net/mbedtls_platform_nt4.c leaves in its buffer.
use instagram_on_nt.Prelude.{
  ℕ, suc, ◌-◌, ◌^◌, ◌<◌, ◌≤◌, ◌≡◌, refl, ap, ◌∙◌, arith, List, [], ◌∷◌, length, take, ltb, if_elim,
  if◌then◌else◌, true, Option, some, none, take_all,
}
use mathlib.Core.Option
use instagram_on_nt.Prelude.Int.{pos, ltb_ℤ}
use instagram_on_nt.Platform.{
  Arg, overwrite, put_byte, nul_at, mbedtls_nt4_vsnprintf, mbedtls_nt4_snprintf,
}
use instagram_on_nt.Platform.Printed.{formatted, content_cap_small, printed-formatted}

-- `buf` with `t` at its start, cut where the last byte is left, and a NUL behind.
unfoldable pub terminated : List ℕ → List ℕ → List ℕ
terminated [] t = []
terminated (b ∷ []) t = 0 ∷ []
terminated (b ∷ c ∷ buf) [] = 0 ∷ c ∷ buf
terminated (b ∷ c ∷ buf) (x ∷ t) = x ∷ terminated (c ∷ buf) t

nul_at-map :
    (x i : ℕ) (m : Option (List ℕ))
    → nul_at (Option.map (◌∷◌ x) m) (pos (suc i)) ≡ Option.map (◌∷◌ x) (nul_at m (pos i))
unfolding put_byte
nul_at-map x i none = refl
nul_at-map x i (some s) = refl

-- The whole text and the NUL have room.
terminated_short :
    (buf t : List ℕ)
    → length t < length buf
    → nul_at (overwrite t buf) (pos (length t)) ≡ some (terminated buf t)
unfolding overwrite put_byte terminated
terminated_short [] t h = absurd (omega arith)
terminated_short (b ∷ []) [] h = refl
terminated_short (b ∷ c ∷ buf) [] h = refl
terminated_short (b ∷ []) (x ∷ t) h = absurd (omega arith)
terminated_short (b ∷ c ∷ buf) (x ∷ t) h =
    nul_at-map x (length t) (overwrite t (c ∷ buf))
    ∙ ap (Option.map (◌∷◌ x)) (terminated_short (c ∷ buf) t (omega arith))

-- The text is cut so that the NUL is the last byte.
terminated_cut :
    (b : ℕ) (buf t : List ℕ)
    → length buf ≤ length t
    → nul_at (overwrite (take (length buf) t) (b ∷ buf)) (pos (length buf))
      ≡ some (terminated (b ∷ buf) t)
unfolding overwrite put_byte terminated
terminated_cut b [] t h = refl
terminated_cut b (c ∷ buf) [] h = absurd (omega arith)
terminated_cut b (c ∷ buf) (x ∷ t) h =
    nul_at-map x (length buf) (overwrite (take (length buf) t) (c ∷ buf))
    ∙ ap (Option.map (◌∷◌ x)) (terminated_cut c buf t (omega arith))

nul_at-terminated :
    (b : ℕ) (buf t : List ℕ)
    → nul_at
        (overwrite (take (length buf) t) (b ∷ buf))
        (if ltb_ℤ (pos (length t)) (pos (length buf)) then pos (length t) else pos (length buf))
      ≡ some (terminated (b ∷ buf) t)
nul_at-terminated b buf t =
    let stored = overwrite (take (length buf) t) (b ∷ buf) in
    if_elim (λ i. nul_at stored i ≡ some (terminated (b ∷ buf) t))
      (ltb_ℤ (pos (length t)) (pos (length buf)))
      (λ e.
        ap (λ s. nul_at (overwrite s (b ∷ buf)) (pos (length t)))
          (take_all (length buf) t (ground arith))
        ∙ terminated_short (b ∷ buf) t (ground arith))
      (λ e. terminated_cut b buf t (ground arith))

-- For a buffer of less than 2^31 bytes, called with its length, and a text of less than 2^31 bytes:
-- mbedtls_nt4_snprintf stores nothing outside the buffer, which afterwards holds the text that the
-- format stands for, cut so that its NUL fits, that NUL, and behind it the bytes that were there; and
-- the result is the length of the whole text. An empty buffer is left alone. The text is complete
-- after a round for each byte of the format: more rounds add nothing.
pub mbedtls_nt4_snprintf-formatted :
    (buf fmt : List ℕ) (args : List Arg) (rounds : ℕ)
    → length buf < 2 ^ 31
    → length fmt ≤ rounds
    → length (formatted rounds fmt args) < 2 ^ 31
    → mbedtls_nt4_snprintf buf (length buf) fmt args
      ≡ (some (terminated buf (formatted rounds fmt args)), length (formatted rounds fmt args))
unfolding mbedtls_nt4_snprintf mbedtls_nt4_vsnprintf overwrite terminated
mbedtls_nt4_snprintf-formatted [] fmt args rounds small h k =
    ap (λ (r : List ℕ × ℕ). (overwrite r.0 [], r.1)) (printed-formatted 0 fmt args rounds small h)
mbedtls_nt4_snprintf-formatted (b ∷ buf) fmt args rounds small h k =
    let t = formatted rounds fmt args in
    let less : length (b ∷ buf) - 1 ≡ length buf = omega arith in
    let positive : ltb 0 (length (b ∷ buf)) ≡ true = ground arith in
    (λ i.
      let cap = content_cap_small (length (b ∷ buf)) small i in
      let r = printed-formatted (length (b ∷ buf)) fmt args rounds small h i in
      let stored = overwrite r.0 (b ∷ buf) in
      (
        if positive i then nul_at stored (if ltb_ℤ (pos r.1) cap then pos r.1 else cap) else stored,
        r.1,
      ))
    ∙ (λ i.
        let cap : ℕ = less i in
        let stored = overwrite (take cap t) (b ∷ buf) in
        (
          nul_at stored (if ltb_ℤ (pos (length t)) (pos cap) then pos (length t) else pos cap),
          length t,
        ))
    ∙ (λ i. (nul_at-terminated b buf t i, length t))
