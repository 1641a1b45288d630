-- ===== src/Http/Response/Total.antt =====
-- http_parse_response of core/http.c ends on every input, with a body within the input.
use instagram_on_nt.Prelude.{
  ℕ, zero, suc, ◌+◌, ◌<◌, ◌≤◌, ◌≡◌, arith, ◌==◌, ◌&&◌, Bool, true, List, [], ◌∷◌, Option, none,
  some, ltb, if_elim, length, drop, if◌then◌else◌,
}
use instagram_on_nt.Prelude.Int.{pos, pos_part, ltb_ℤ}
use instagram_on_nt.Prelude.Result.{
  Result, from_option, Ensures, Ensures-bind, Ensures-if, Ensures-map,
}
use instagram_on_nt.Http.{HttpHeader, HttpResponse, parse_long}
use instagram_on_nt.Http.Chunks.{bytes_from, dechunk}
use instagram_on_nt.Http.Chunks.Bounds.{dechunk-Ensures, bytes_from-Ensures, clamped}
use instagram_on_nt.Http.Response.{
  Split, before, starts_lf, find_crlf, find_char, read_line, read_headers, http_header,
  transfer_encoding, content_length, is_chunked, counted_body, frame, read_body,
  http_parse_response,
}

-- What stands behind the line break is shorter by two bytes.
abbrev Later : ℕ → Option Split → Type 0
Later n none = Unit {0}
Later n (some s) = length s.1 + 2 ≤ n

before-Later : (n c : ℕ) (o : Option Split) → Later n o → Later (suc n) (before c o)
unfolding before
before-Later n c none h = tt
before-Later n c (some s) h = omega arith

lf-Later : (s : List ℕ) → starts_lf s ≡ true → length (drop 1 s) + 2 ≤ suc (length s)
lf-Later [] h = ground arith
lf-Later (c ∷ s) h = omega arith

and_right : (a b : Bool) → (a && b) ≡ true → b ≡ true
and_right a b h = ground arith

find_crlf-Later : (p : List ℕ) → Later (length p) (find_crlf p)
unfolding find_crlf
find_crlf-Later [] = tt
find_crlf-Later (c ∷ s) =
    if_elim (Later (suc (length s))) (c == 0) (λ _. tt)
      (λ _.
        if_elim (Later (suc (length s))) (c == 13 && starts_lf s)
          (λ e. lf-Later s (and_right (c == 13) (starts_lf s) e))
          (λ _. before-Later (length s) c (find_crlf s) (find_crlf-Later s)))

abbrev Within : ℕ → Result (List HttpHeader × List ℕ) → Type 0
Within n = Ensures (λ r. length r.1 ≤ n)

read_line-Within :
    (n : ℕ) (o : Option Split) (next : List ℕ → Result (List HttpHeader × List ℕ))
    → Later (suc n) o
    → ((p : List ℕ) → length p ≤ n → Within (length p) (next p))
    → Within (suc n) (read_line o next)
unfolding read_line
read_line-Within n none next h k = tt
read_line-Within n (some ([], rest)) next h k = omega arith
read_line-Within n (some (c ∷ line, rest)) next h k =
    Ensures-bind (λ r. length r.1 ≤ length rest) (λ r. length r.1 ≤ suc n) (next rest) _
      (k rest (omega arith)) (λ r l. omega arith)

read_headers-Within :
    (fuel : ℕ) (p : List ℕ) → length p < fuel → Within (length p) (read_headers fuel p)
unfolding read_headers
read_headers-Within zero p h = absurd (omega arith)
read_headers-Within (suc fuel) [] h = tt
read_headers-Within (suc fuel) (c ∷ s) h =
    read_line-Within (length s) (find_crlf (c ∷ s)) (read_headers fuel) (find_crlf-Later (c ∷ s))
      (λ p l. read_headers-Within fuel p (omega arith))

counted_body-Ensures :
    (o : Option (List ℕ)) (p : List ℕ) → Ensures (λ s. length s ≤ length p) (counted_body o p)
unfolding counted_body
counted_body-Ensures none p = omega arith
counted_body-Ensures (some cl) p =
    let n = if ltb_ℤ (parse_long cl) (pos 0) then 0 else pos_part (parse_long cl) in
    let within = clamped (length p) n in
    Ensures-map (bytes_from (if ltb (length p) n then length p else n) p)
      (bytes_from-Ensures _ p within) (λ s e. omega (arith, within, e))

frame-Ensures :
    (hs : List HttpHeader) (p : List ℕ) → Ensures (λ b. length b.0 ≤ length p) (frame hs p)
unfolding frame
frame-Ensures hs p =
    Ensures-if (λ b. length b.0 ≤ length p) (is_chunked (http_header hs transfer_encoding)) _ _
      (λ _.
        Ensures-bind (λ out. length out ≤ length p) (λ b. length b.0 ≤ length p) (dechunk p) _
          (dechunk-Ensures p) (λ out l. l))
      (λ _.
        Ensures-bind (λ out. length out ≤ length p) (λ b. length b.0 ≤ length p)
          (counted_body (http_header hs content_length) p) _
          (counted_body-Ensures (http_header hs content_length) p) (λ out l. l))

Later-Ensures :
    (n : ℕ) (o : Option Split) → Later n o → Ensures (λ s. length s.1 ≤ n) (from_option o)
Later-Ensures n none h = tt
Later-Ensures n (some s) h = omega arith

any-Ensures : (o : Option Split) → Ensures (λ _. Unit {0}) (from_option o)
any-Ensures none = tt
any-Ensures (some s) = tt

-- On any bytes, http_parse_response ends and takes no body byte from behind the end of the buffer, and
-- a response that it returns has a body no longer than the bytes.
pub http_parse_response-Ensures :
    (raw : List ℕ) → Ensures (λ r. length r.body ≤ length raw) (http_parse_response raw)
unfolding http_parse_response read_body
http_parse_response-Ensures raw =
    let Q : HttpResponse → Type 0 = λ r. length r.body ≤ length raw in
    Ensures-if Q (ltb (length raw) 12) _ _ (λ _. tt)
      (λ _.
        Ensures-bind (λ line. length line.1 ≤ length raw) Q (from_option (find_crlf raw)) _
          (Later-Ensures (length raw) (find_crlf raw) (find_crlf-Later raw))
          (λ line l.
            Ensures-bind (λ _. Unit {0}) Q (from_option (find_char b' ' line.0)) _
              (any-Ensures (find_char b' ' line.0))
              (λ sp1 _.
                Ensures-bind (λ r. length r.1 ≤ length line.1) Q
                  (read_headers (length line.1 + 1) line.1) _
                  (read_headers-Within (length line.1 + 1) line.1 (omega arith))
                  (λ r k.
                    Ensures-bind (λ b. length b.0 ≤ length r.1) Q (frame r.0 r.1) _
                      (frame-Ensures r.0 r.1) (λ b m. omega arith)))))
