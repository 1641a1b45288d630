-- ===== src/Http/Chunks.antt =====
-- dechunk of core/http.c, and bodies in the chunked encoding.
pub mod Bounds
pub mod Encoding
use instagram_on_nt.Prelude.{
  ℕ, zero, suc, ◌+◌, ◌-◌, ◌*◌, ◌/◌, ◌%◌, ◌^◌, ◌≤◌, ◌<◌, ◌≡◌, ◌≢◌, refl, sym, ap, ◌∙◌, arith, ◌==◌,
  ◌&&◌, ◌||◌, Bool, true, false, List, [], ◌∷◌, ◌++◌, Option, none, some, ltb, leb, if◌then◌else◌,
  length, take, drop, min, if_elim, length-append, length-take, length-drop, take-append-drop,
}
use instagram_on_nt.Prelude.Int.{ℤ, pos, neg, pos_part, ltb_ℤ, leb_ℤ, int32}
use instagram_on_nt.Prelude.Result.{
  Result, ok, failed, out_of_fuel, ◌>>=◌, Ensures, Ensures-bind, Ensures-if,
}
use instagram_on_nt.Http.{crlf}

-- The value of a hexadecimal digit.
unfoldable pub chunk_digit : ℕ → Option ℕ
chunk_digit c =
    if leb b'0' c && leb c b'9'
    then some (c - b'0')
    else if leb b'a' c && leb c b'f'
    then some (c - b'a' + 10)
    else if leb b'A' c && leb c b'F'
    then some (c - b'A' + 10)
    else none

-- `clen`, as its residue by 2^32, and the bytes from the first that is no digit.
unfoldable pub chunk_length : ℕ → List ℕ → ℕ × List ℕ
unfolding chunk_digit
chunk_length clen [] = (clen, [])
chunk_length clen (c ∷ s) = elim (chunk_digit c) [
  | none ↦ (clen, c ∷ s)
  | some d ↦ chunk_length ((clen * 16 + d) % 2 ^ 32) s
]

-- The bytes behind the first line feed.
unfoldable pub skip_line : List ℕ → List ℕ
skip_line [] = []
skip_line (c ∷ s) = if c == 10 then s else skip_line s

unfoldable pub skip_breaks : List ℕ → List ℕ
skip_breaks [] = []
skip_breaks (c ∷ s) = if c == 13 || c == 10 then skip_breaks s else c ∷ s

-- The `n` bytes from `p` on. What stands behind the end of the buffer is undefined: there the run has
-- no outcome.
unfoldable pub bytes_from : ℕ → List ℕ → Result (List ℕ)
bytes_from n p = if ltb (length p) n then out_of_fuel else ok (take n p)

-- The loop, of which each round takes a byte at least.
unfoldable pub dechunk_loop : ℕ → List ℕ → Result (List ℕ)
unfolding chunk_length skip_line skip_breaks bytes_from
dechunk_loop zero p = out_of_fuel
dechunk_loop (suc fuel) [] = ok []
dechunk_loop (suc fuel) (c ∷ s) =
    let q = chunk_length 0 (c ∷ s) in
    let p = skip_line q.1 in
    let clen = int32 (pos q.0) in
    let n = if ltb (length p) (pos_part clen) then length p else pos_part clen in
    let rest = dechunk_loop fuel (skip_breaks (drop n p)) in
    if leb_ℤ clen (pos 0)
    then ok []
    else bytes_from n p >>= λ chunk. rest >>= λ out. ok (chunk ++ out)

unfoldable pub dechunk : List ℕ → Result (List ℕ)
unfolding dechunk_loop
dechunk p = dechunk_loop (length p + 1) p
