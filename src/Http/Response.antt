-- ===== src/Http/Response.antt =====
-- http_parse_response and http_header of core/http.c. The copy `raw` is the list of the bytes, and a
-- search in it stops at a NUL.
pub mod Lines
pub mod Reading
pub mod Framing
pub mod Total
use instagram_on_nt.Prelude.{
  ℕ, zero, suc, ◌+◌, ◌-◌, ◌==◌, ◌&&◌, Bool, true, false, List, [], ◌∷◌, ◌++◌, Option, none, some,
  ltb, if◌then◌else◌, length, take, drop, min,
}
use instagram_on_nt.Prelude.Int.{ℤ, pos, pos_part, ltb_ℤ}
use instagram_on_nt.Prelude.Result.{Result, ok, failed, out_of_fuel, ◌>>=◌, from_option}
use instagram_on_nt.Http.{HttpHeader, HttpResponse, ci_eq, skip_blanks, parse_long}
use instagram_on_nt.Http.Chunks.{bytes_from, dechunk}

-- A text and what stands behind the place that was found in it.
abbrev pub Split : Type 0
Split = List ℕ × List ℕ

unfoldable pub before : ℕ → Option Split → Option Split
before c none = none
before c (some s) = some (c ∷ s.0, s.1)

abbrev pub starts_lf : List ℕ → Bool
starts_lf [] = false
starts_lf (c ∷ s) = c == 10

-- strstr(p, "\r\n"): the line, and what stands behind the line break.
unfoldable pub find_crlf : List ℕ → Option Split
unfolding before
find_crlf [] = none
find_crlf (c ∷ s) =
    let later = find_crlf s in
    if c == 0 then none else if c == 13 && starts_lf s then some ([], drop 1 s) else before c later

-- strchr(p, b) within a line: what stands before and behind the byte.
unfoldable pub find_char : ℕ → List ℕ → Option Split
unfolding before
find_char b [] = none
find_char b (c ∷ s) = let later = find_char b s in if c == b then some ([], s) else before c later

-- A header line around its colon, or none if it has no colon.
unfoldable pub header_of : Option Split → Option HttpHeader
unfolding skip_blanks
header_of none = none
header_of (some s) = some (record { name = s.0; value = skip_blanks s.1 })

unfoldable pub read_header : List ℕ → Option HttpHeader
unfolding find_char header_of
read_header line = header_of (find_char b':' line)

unfoldable pub push_header : Option HttpHeader → List HttpHeader → List HttpHeader
push_header none hs = hs
push_header (some h) hs = h ∷ hs

-- One round, up to the blank line; `next` is the loop behind the line.
unfoldable pub read_line :
    Option Split → (List ℕ → Result (List HttpHeader × List ℕ)) → Result (List HttpHeader × List ℕ)
unfolding read_header push_header
read_line none next = failed
read_line (some ([], rest)) next = ok ([], rest)
read_line (some (c ∷ line, rest)) next =
    next rest >>= λ r. ok (push_header (read_header (c ∷ line)) r.0, r.1)

-- The loop over lines, each of which takes two bytes at least.
unfoldable pub read_headers : ℕ → List ℕ → Result (List HttpHeader × List ℕ)
unfolding find_crlf read_line
read_headers zero p = out_of_fuel
read_headers (suc fuel) p = read_line (find_crlf p) (read_headers fuel)

unfoldable pub http_header : List HttpHeader → List ℕ → Option (List ℕ)
unfolding ci_eq
http_header [] name = none
http_header (h ∷ hs) name = if ci_eq h.name name then some h.value else http_header hs name

abbrev pub transfer_encoding : List ℕ
transfer_encoding =
    b't' ∷ b'r' ∷ b'a' ∷ b'n' ∷ b's' ∷ b'f' ∷ b'e' ∷ b'r' ∷ b'-' ∷ b'e' ∷ b'n' ∷ b'c' ∷ b'o' ∷ b'd'
    ∷ b'i' ∷ b'n' ∷ b'g' ∷ []

abbrev pub content_length : List ℕ
content_length =
    b'c' ∷ b'o' ∷ b'n' ∷ b't' ∷ b'e' ∷ b'n' ∷ b't' ∷ b'-' ∷ b'l' ∷ b'e' ∷ b'n' ∷ b'g' ∷ b't' ∷ b'h'
    ∷ []

abbrev pub chunked_text : List ℕ
chunked_text = b'c' ∷ b'h' ∷ b'u' ∷ b'n' ∷ b'k' ∷ b'e' ∷ b'd' ∷ []

abbrev pub is_chunked : Option (List ℕ) → Bool
is_chunked none = false
is_chunked (some te) = ci_eq te chunked_text

-- The body behind the headers, for a Content-Length with that value.
unfoldable pub counted_body : Option (List ℕ) → List ℕ → Result (List ℕ)
unfolding parse_long bytes_from
counted_body none p = ok p
counted_body (some cl) p =
    let n = parse_long cl in
    let n = if ltb_ℤ n (pos 0) then 0 else pos_part n in
    let n = if ltb (length p) n then length p else n in bytes_from n p

-- The body framing: the body, and whether it is a decoded copy.
unfoldable pub frame : List HttpHeader → List ℕ → Result (List ℕ × Bool)
unfolding http_header dechunk counted_body
frame hs p =
    if is_chunked (http_header hs transfer_encoding)
    then (dechunk p >>= λ body. ok (body, true))
    else (counted_body (http_header hs content_length) p >>= λ body. ok (body, false))

-- The status line behind `sp1`: the reason is empty if no second space follows.
unfoldable pub reason_of : Option Split → List ℕ
reason_of none = []
reason_of (some s) = s.1

unfoldable pub read_body : ℤ → List ℕ → List HttpHeader × List ℕ → Result HttpResponse
unfolding frame
read_body status reason (hs, p) = frame hs p >>= λ b.
    ok (record { status = status; reason = reason; headers = hs; body = b.0; owned = b.1 })

unfoldable pub http_parse_response : List ℕ → Result HttpResponse
unfolding find_crlf find_char parse_long reason_of read_headers read_body
http_parse_response raw =
    if ltb (length raw) 12
    then failed
    else from_option (find_crlf raw) >>= λ line. from_option (find_char b' ' line.0) >>= λ sp1.
        read_headers (length line.1 + 1) line.1 >>= λ r.
        read_body (parse_long sp1.1) (reason_of (find_char b' ' sp1.1)) r
