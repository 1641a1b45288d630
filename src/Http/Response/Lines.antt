-- ===== src/Http/Response/Lines.antt =====
-- Searches for a line break and for a byte in core/http.c, in a text that has none in front.
use instagram_on_nt.Prelude.{
  ℕ, zero, suc, ◌+◌, ◌/◌, ◌%◌, ◌<◌, ◌≡◌, refl, arith, ◌==◌, ◌&&◌, not, Bool, true, false, List, [],
  ◌∷◌, ◌++◌, some, if_elim,
}
use instagram_on_nt.Http.{put_digits, put_uint}
use instagram_on_nt.Http.Response.{find_crlf, find_char}

-- No byte of the text is `b`.
unfoldable pub lacks : ℕ → List ℕ → Bool
lacks b [] = true
lacks b (c ∷ s) = not (c == b) && lacks b s

pub find_crlf-line :
    (line rest : List ℕ)
    → lacks 0 line ≡ true
    → lacks 13 line ≡ true
    → find_crlf (line ++ (13 ∷ 10 ∷ rest)) ≡ some (line, rest)
unfolding find_crlf lacks
find_crlf-line [] rest p q = refl
find_crlf-line (c ∷ line) rest p q =
    let ih = find_crlf-line line rest (ground arith) (ground arith) in
    let a : (c == 0) ≡ false = ground arith in
    let b : (c == 13) ≡ false = ground arith in rw (a, b, ih)

pub find_char-first :
    (b : ℕ) (s rest : List ℕ) → lacks b s ≡ true → find_char b (s ++ (b ∷ rest)) ≡ some (s, rest)
unfolding find_char lacks
find_char-first b [] rest h = let e : (b == b) ≡ true = ground arith in rw e
find_char-first b (c ∷ s) rest h =
    let ih = find_char-first b s rest (ground arith) in
    let a : (c == b) ≡ false = ground arith in rw (a, ih)

pub lacks-append :
    (b : ℕ) (s t : List ℕ) → lacks b s ≡ true → lacks b t ≡ true → lacks b (s ++ t) ≡ true
unfolding lacks
lacks-append b [] t h k = k
lacks-append b (c ∷ s) t h k =
    let ih = lacks-append b s t (ground arith) k in
    let a : (c == b) ≡ false = ground arith in rw (a, ih)

-- Digits are no spaces and no line breaks.
lacks-put_digits :
    (b fuel v : ℕ) (s : List ℕ) → b < 48 → lacks b s ≡ true → lacks b (put_digits fuel v s) ≡ true
unfolding put_digits
lacks-put_digits b zero v s h k = k
lacks-put_digits b (suc fuel) v s h k =
    if_elim (λ t. lacks b t ≡ true) (v == 0) (λ _. k)
      (λ _.
        lacks-put_digits b fuel (v / 10) ((48 + v % 10) ∷ s) h
          (unfold lacks in let a : (48 + v % 10 == b) ≡ false = ground arith in rw (a, k)))

pub lacks-put_uint : (b v : ℕ) → b < 48 → lacks b (put_uint v) ≡ true
unfolding put_uint
lacks-put_uint b v h =
    if_elim (λ t. lacks b t ≡ true) (v == 0)
      (λ _. unfold lacks in let a : (48 == b) ≡ false = ground arith in rw a)
      (λ _. lacks-put_digits b v v [] h (unfold lacks in refl))
