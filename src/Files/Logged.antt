-- ===== src/Files/Logged.antt =====
-- The line that pal_log of pal/pal_common_win32.c writes.
use instagram_on_nt.Prelude.{
  ℕ, zero, suc, ◌+◌, ◌-◌, ◌<◌, ◌≤◌, ◌≡◌, refl, sym, ap, ◌∙◌, arith, true, List, [], ◌∷◌, ◌++◌, set,
  take, drop, length, min, length-append, ltb, ltb→lt, Bool-cases, inl, inr,
}
use instagram_on_nt.Prelude.Int.{pos}
use instagram_on_nt.Http.Response.Lines.{lacks}
use instagram_on_nt.Files.{log_size, Formatted, log_length, log_buffer, log_written}

-- What wvsprintfA leaves: a text that ends within the buffer, and then what stood there.
pub record Holds (f : Formatted) (text rest : List ℕ) : Type 0 where
  pub n : f.n ≡ pos (length text)
  pub buf : f.buf ≡ text ++ (0 ∷ rest)
  pub full : length f.buf ≡ log_size

set_pair :
    (m : ℕ) (buf : List ℕ)
    → m + 2 ≤ length buf
    → set (set buf m 13) (suc m) 10 ≡ take m buf ++ (13 ∷ 10 ∷ drop (suc (suc m)) buf)
set_pair m [] h = absurd (omega arith)
set_pair zero (x ∷ []) h = absurd (omega arith)
set_pair zero (x ∷ y ∷ buf) h = refl
set_pair (suc m) (x ∷ buf) h = ap (◌∷◌ x) (set_pair m buf (omega arith))

take_line :
    (m : ℕ) (buf tail : List ℕ)
    → m ≤ length buf
    → take (suc (suc m)) (take m buf ++ (13 ∷ 10 ∷ tail)) ≡ take m buf ++ (13 ∷ 10 ∷ [])
take_line zero buf tail h = refl
take_line (suc m) [] tail h = absurd (omega arith)
take_line (suc m) (x ∷ buf) tail h = ap (◌∷◌ x) (take_line m buf tail (omega arith))

take-text : (m : ℕ) (text tail : List ℕ) → m ≤ length text → take m (text ++ tail) ≡ take m text
take-text zero text tail h = refl
take-text (suc m) [] tail h = absurd (omega arith)
take-text (suc m) (x ∷ text) tail h = ap (◌∷◌ x) (take-text m text tail (omega arith))

take-min : (k : ℕ) (text : List ℕ) → take (min (length text) k) text ≡ take k text
take-min zero text = let e : min (length text) zero ≡ 0 = omega arith in ap (λ i. take i text) e
take-min (suc k) [] = let e : min 0 (suc k) ≡ 0 = omega arith in ap (λ i. take {A = ℕ} i []) e
take-min (suc k) (x ∷ text) =
    let e : min (suc (length text)) (suc k) ≡ suc (min (length text) k) = omega arith in
    ap (λ i. take i (x ∷ text)) e ∙ ap (◌∷◌ x) (take-min k text)

log_length-min : (n : ℕ) → log_length (pos n) ≡ min n (log_size - 2)
unfolding log_length
log_length-min n = ground arith

-- The bytes at and behind the end of a text.
drop-text : (text tail : List ℕ) (k : ℕ) → drop (length text + k) (text ++ tail) ≡ drop k tail
drop-text [] tail k = ap (λ i. drop i tail) (omega arith)
drop-text (x ∷ text) tail k =
    let e : suc (length text) + k ≡ suc (length text + k) = omega arith in
    ap (λ i. drop i (x ∷ (text ++ tail))) e ∙ drop-text text tail k

drop_all : (k : ℕ) (xs : List ℕ) → length xs ≤ k → drop k xs ≡ []
drop_all zero [] h = refl
drop_all zero (x ∷ xs) h = absurd (omega arith)
drop_all (suc k) [] h = refl
drop_all (suc k) (x ∷ xs) h = drop_all k xs (omega arith)

lacks-append :
    (b : ℕ) (s t : List ℕ) → lacks b s ≡ true → lacks b t ≡ true → lacks b (s ++ t) ≡ true
unfolding lacks
lacks-append b [] t h k = k
lacks-append b (c ∷ s) t h k = let ih = lacks-append b s t (ground arith) k in ground arith

lacks-take : (b n : ℕ) (s : List ℕ) → lacks b s ≡ true → lacks b (take n s) ≡ true
unfolding lacks
lacks-take b zero s h = refl
lacks-take b (suc n) [] h = refl
lacks-take b (suc n) (c ∷ s) h = let ih = lacks-take b n s (ground arith) in ground arith

module _ (f : Formatted) (text rest : List ℕ) (holds : Holds f text rest) where
  text_fits : length text + (length rest + 1) ≡ log_size
  text_fits =
      let e : length f.buf ≡ length (text ++ (0 ∷ rest)) = ap length holds.buf in
      let full : length f.buf ≡ log_size = holds.full in
      omega (arith, length-append text (0 ∷ rest), e, full)

  log_length-text : log_length f.n ≡ min (length text) (log_size - 2)
  log_length-text = ap log_length holds.n ∙ log_length-min (length text)

  log_buffer-line :
      log_buffer f ≡ take (log_size - 2) text ++ (13 ∷ 10 ∷ drop (suc (suc (log_length f.n))) f.buf)
  unfolding log_buffer
  log_buffer-line =
      let n = log_length f.n in
      let full : length f.buf ≡ log_size = holds.full in
      let e : n ≡ min (length text) (log_size - 2) = log_length-text in
      let next : n + 1 ≡ suc n = omega arith in
      let front : take n f.buf ≡ take (log_size - 2) text =
        ap (take n) holds.buf
        ∙ take-text n text (0 ∷ rest) (omega arith)
        ∙ ap (λ i. take i text) e
        ∙ take-min (log_size - 2) text in
      ap (λ i. set (set f.buf n 13) i 10) next
      ∙ set_pair n f.buf (omega arith)
      ∙ ap (λ s. s ++ (13 ∷ 10 ∷ drop (suc (suc n)) f.buf)) front

  -- If wvsprintfA leaves a text that ends within the buffer, then pal_log writes the first 1022 bytes of
  -- the text, then a carriage return and a line feed.
  pub log_written-line : log_written f ≡ take (log_size - 2) text ++ (13 ∷ 10 ∷ [])
  unfolding log_written
  log_written-line =
      let n = log_length f.n in
      let e : n ≡ min (length text) (log_size - 2) = log_length-text in
      let two : n + 2 ≡ suc (suc (min (length text) (log_size - 2))) = omega arith in
      let tail = drop (suc (suc n)) f.buf in
      let k = min (length text) (log_size - 2) in
      let short : take (log_size - 2) text ≡ take k text = sym (take-min (log_size - 2) text) in
      ap (take (n + 2)) (log_buffer-line ∙ ap (λ s. s ++ (13 ∷ 10 ∷ tail)) short)
      ∙ ap (λ i. take i (take k text ++ (13 ∷ 10 ∷ tail))) two
      ∙ take_line k text tail (omega arith)
      ∙ ap (λ s. s ++ (13 ∷ 10 ∷ [])) (sym short)

  tail-lacks :
      lacks 0 (drop 1 rest) ≡ true → lacks 0 (drop (suc (suc (log_length f.n))) f.buf) ≡ true
  unfolding lacks
  tail-lacks h =
      let n = log_length f.n in
      let e : n ≡ min (length text) (log_size - 2) = log_length-text in
      let fits : length text + (length rest + 1) ≡ log_size = text_fits in
      let full : length f.buf ≡ log_size = holds.full in
      elim (Bool-cases (ltb (length text) (log_size - 1))) [
        | inl short ↦
            let le : length text < log_size - 1 = ltb→lt (length text) (log_size - 1) short in
            let k : suc (suc n) ≡ length text + 2 = omega arith in
            let d : drop (suc (suc n)) f.buf ≡ drop 1 rest =
              ap (λ i. drop i f.buf) k
              ∙ ap (drop (length text + 2)) holds.buf
              ∙ drop-text text (0 ∷ rest) 2 in
            rw d h
        | inr long ↦
            let d : drop (suc (suc n)) f.buf ≡ [] = drop_all (suc (suc n)) f.buf (ground arith) in
            rw d refl
      ]

  -- If neither the text nor what stood behind the byte after its end has a NUL, then the string that
  -- OutputDebugStringA is given has none: pal_log has overwritten the one that wvsprintfA had put there.
  pub log_buffer-open :
      lacks 0 text ≡ true → lacks 0 (drop 1 rest) ≡ true → lacks 0 (log_buffer f) ≡ true
  unfolding lacks
  log_buffer-open h k =
      let tail = drop (suc (suc (log_length f.n))) f.buf in
      let behind : lacks 0 (13 ∷ 10 ∷ tail) ≡ true = tail-lacks k in
      ap (lacks 0) log_buffer-line
      ∙ lacks-append 0 (take (log_size - 2) text) (13 ∷ 10 ∷ tail)
          (lacks-take 0 (log_size - 2) text h) behind
