-- ===== src/Https/Reading.antt =====
-- The read loop of net/https_get.c, whose buffer grows, against the bytes that the connection gives.
use instagram_on_nt.Prelude.{
  ℕ, zero, suc, ◌-◌, ◌<◌, ◌≤◌, ◌≡◌, refl, sym, ap, ◌∙◌, arith, ◌==◌, true, false, List, [], ◌∷◌,
  ◌++◌, append_assoc, take-append-drop, take, drop, length, length-take, length-drop, length-append,
  ltb, if_elim, Bool-cases, inl, inr,
}
use instagram_on_nt.Prelude.Result.{Result, ok, out_of_fuel}
use instagram_on_nt.Https.Exchange.{Read, got, stopped, kept, read_loop, read_rounds, grown}

-- All bytes up to the first answer that ends the loop.
abbrev pub drain : List Read → List ℕ → Result (List ℕ)
drain [] buf = out_of_fuel
drain (stopped code ∷ rs) buf = ok buf
drain (got [] ∷ rs) buf = ok buf
drain (got (c ∷ chunk) ∷ rs) buf = drain rs (buf ++ (c ∷ chunk))

take_short : (n : ℕ) (s : List ℕ) → length s ≤ n → take n s ≡ s
take_short zero [] h = refl
take_short zero (c ∷ s) h = absurd (omega arith)
take_short (suc n) [] h = refl
take_short (suc n) (c ∷ s) h = ap (◌∷◌ c) (take_short n s (omega arith))

drain-got :
    (s : List ℕ) (rs : List Read) (buf : List ℕ)
    → 0 < length s
    → drain (got s ∷ rs) buf ≡ drain rs (buf ++ s)
drain-got [] rs buf h = absurd (omega arith)
drain-got (c ∷ s) rs buf h = refl

-- The buffer has room for a byte at least, and twice its size is enough for that.
grown_room :
    (cap total : ℕ) → 0 < cap → total ≤ cap → (total < grown cap total) × (cap ≤ grown cap total)
unfolding grown
grown_room cap total h k = ground arith

-- What is read in part now and in part with the next calls.
drain-kept :
    (room : ℕ) (s : List ℕ) (rs : List Read) (buf : List ℕ)
    → 0 < length s
    → drain (kept room s rs) (buf ++ take room s) ≡ drain (got s ∷ rs) buf
drain-kept room s rs buf h = elim (Bool-cases (ltb room (length s))) [
  | inl more ↦ rw more (
      drain-got (drop room s) rs (buf ++ take room s) (ground (arith, length-drop room s))
      ∙ ap (drain rs) (
          append_assoc buf (take room s) (drop room s)
          ∙ ap (λ t. buf ++ t) (take-append-drop room s))
      ∙ sym (drain-got s rs buf h))
  | inr all ↦ rw all (
      ap (λ t. drain rs (buf ++ t)) (take_short room s (ground arith)) ∙ sym (drain-got s rs buf h))
]

kept-rounds :
    (room : ℕ) (s : List ℕ) (rs : List Read)
    → 0 < room
    → 0 < length s
    → read_rounds (kept room s rs) < read_rounds (got s ∷ rs)
unfolding read_rounds
kept-rounds room s rs h k =
    if_elim (λ (q : List Read). read_rounds q < read_rounds (got s ∷ rs)) (ltb room (length s))
      (λ e. omega (arith, length-drop room s)) (λ e. omega arith)

-- With a buffer that is not empty and holds what has been read, and rounds enough, the loop stores
-- all bytes that the connection gives, whatever the size of its buffer.
pub read_loop-drain :
    (fuel : ℕ) (rs : List Read) (cap : ℕ) (buf : List ℕ)
    → read_rounds rs ≤ fuel
    → 0 < cap
    → length buf ≤ cap
    → read_loop fuel rs cap buf ≡ drain rs buf
unfolding read_loop read_rounds
read_loop-drain zero [] cap buf h k l = absurd (omega arith)
read_loop-drain zero (stopped code ∷ rs) cap buf h k l = absurd (omega arith)
read_loop-drain zero (got s ∷ rs) cap buf h k l = absurd (omega arith)
read_loop-drain (suc fuel) [] cap buf h k l = refl
read_loop-drain (suc fuel) (stopped code ∷ rs) cap buf h k l = refl
read_loop-drain (suc fuel) (got [] ∷ rs) cap buf h k l =
    let room = grown cap (length buf) - length buf in
    let none : length (take {A = ℕ} room []) ≡ 0 = omega (arith, length-take {A = ℕ} room []) in
    let e : (length (take {A = ℕ} room []) == 0) ≡ true = ground arith in rw e refl
read_loop-drain (suc fuel) (got (c ∷ s) ∷ rs) cap buf h k l =
    let cap' = grown cap (length buf) in
    let room = cap' - length buf in
    let g = grown_room cap (length buf) k l in
    let t = length-take room (c ∷ s) in
    let e : (length (take room (c ∷ s)) == 0) ≡ false = ground arith in
    let rounds = kept-rounds room (c ∷ s) rs (omega arith) (omega arith) in
    rw e (
      read_loop-drain fuel (kept room (c ∷ s) rs) cap' (buf ++ take room (c ∷ s)) (omega arith)
        (omega arith) (omega (arith, length-append buf (take room (c ∷ s))))
      ∙ drain-kept room (c ∷ s) rs buf (omega arith))
