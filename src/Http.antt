-- ===== src/Http.antt =====
-- core/http.c: the request builder and the response parser. A C string is the list of its bytes in
-- front of the NUL; `p`, with `remaining`, is the list of the bytes left, and `long` has 32 bits.
pub mod Decimal
pub mod Request
pub mod Chunks
pub mod Response
use instagram_on_nt.Prelude.{
  ℕ, zero, suc, ◌+◌, ◌-◌, ◌*◌, ◌/◌, ◌%◌, ◌^◌, ◌==◌, ◌&&◌, ◌||◌, Bool, true, false, List, [], ◌∷◌,
  ◌++◌, Option, none, some, ltb, leb, if◌then◌else◌, length, take, drop, min,
}
use instagram_on_nt.Prelude.Int.{ℤ, pos, neg, pos_part, ltb_ℤ, leb_ℤ, int32}
use instagram_on_nt.Prelude.Result.{Result, ok, failed, out_of_fuel, ◌>>=◌}

pub record HttpHeader : Type 0 where
  pub name : List ℕ
  pub value : List ℕ

-- `body` has `body_len` bytes; `owned` is that it is decoded into body_owned.
pub record HttpResponse : Type 0 where
  pub status : ℤ
  pub reason : List ℕ
  pub headers : List HttpHeader
  pub body : List ℕ
  pub owned : Bool

unfoldable pub lower : ℕ → ℕ
lower c = if leb b'A' c && leb c b'Z' then c + 32 else c

unfoldable pub ci_eq : List ℕ → List ℕ → Bool
unfolding lower
ci_eq [] [] = true
ci_eq (a ∷ s) (b ∷ t) = lower a == lower b && ci_eq s t
ci_eq _ _ = false

unfoldable pub is_blank : ℕ → Bool
is_blank c = c == b' ' || c == 9

unfoldable pub skip_blanks : List ℕ → List ℕ
unfolding is_blank
skip_blanks [] = []
skip_blanks (c ∷ s) = if is_blank c then skip_blanks s else c ∷ s

unfoldable pub is_decimal : ℕ → Bool
is_decimal c = leb b'0' c && leb c b'9'

-- `n = n * 10 + (*s - '0')` up to the first byte that is no digit.
unfoldable pub long_loop : ℕ → List ℕ → ℕ
unfolding is_decimal
long_loop n [] = n
long_loop n (c ∷ s) = if is_decimal c then long_loop ((n * 10 + (c - b'0')) % 2 ^ 32) s else n

unfoldable pub signed_long : List ℕ → ℤ
unfolding long_loop
signed_long [] = pos 0
signed_long (c ∷ s) =
    if c == b'-'
    then int32 (neg (long_loop 0 s))
    else if c == b'+'
    then int32 (pos (long_loop 0 s))
    else int32 (pos (long_loop 0 (c ∷ s)))

unfoldable pub parse_long : List ℕ → ℤ
unfolding signed_long skip_blanks
parse_long s = signed_long (skip_blanks s)

-- The digits of `v`, lowest first into `t` and read from its end, in front of `done`.
unfoldable pub put_digits : ℕ → ℕ → List ℕ → List ℕ
put_digits zero v done = done
put_digits (suc fuel) v done =
    if v == 0 then done else put_digits fuel (v / 10) ((b'0' + v % 10) ∷ done)

unfoldable pub put_uint : ℕ → List ℕ
unfolding put_digits
put_uint v = if v == 0 then b'0' ∷ [] else put_digits v v []

abbrev pub crlf : List ℕ
crlf = 13 ∷ 10 ∷ []

unfoldable pub put_headers : List HttpHeader → List ℕ
put_headers [] = []
put_headers (h ∷ hs) = h.name ++ (b':' ∷ b' ' ∷ (h.value ++ (13 ∷ 10 ∷ put_headers hs)))

-- "HTTP/1.1\r\n", "Host: " and "Content-Length: "
abbrev pub version_text : List ℕ
version_text = b'H' ∷ b'T' ∷ b'T' ∷ b'P' ∷ b'/' ∷ b'1' ∷ b'.' ∷ b'1' ∷ crlf

abbrev pub host_text : List ℕ
host_text = b'H' ∷ b'o' ∷ b's' ∷ b't' ∷ b':' ∷ b' ' ∷ []

abbrev pub length_text : List ℕ
length_text =
    b'C' ∷ b'o' ∷ b'n' ∷ b't' ∷ b'e' ∷ b'n' ∷ b't' ∷ b'-' ∷ b'L' ∷ b'e' ∷ b'n' ∷ b'g' ∷ b't' ∷ b'h'
    ∷ b':' ∷ b' ' ∷ []

-- The Content-Length line, the blank line and the body.
unfoldable pub put_body : List ℕ → List ℕ
unfolding put_uint
put_body [] = crlf
put_body (c ∷ body) =
    length_text ++ (put_uint (length (c ∷ body)) ++ (crlf ++ (crlf ++ (c ∷ body))))

unfoldable pub http_build_request : List ℕ → List ℕ → List ℕ → List HttpHeader → List ℕ → List ℕ
unfolding put_headers put_body
http_build_request method host path headers body =
    method
    ++ (b' '
        ∷ (path
            ++ (b' '
                ∷ (version_text
                    ++ (host_text ++ (host ++ (crlf ++ (put_headers headers ++ put_body body))))))))

-- `cap`, the size of the buffer that http_build_request allocates.
unfoldable pub headers_capacity : List HttpHeader → ℕ
headers_capacity [] = 0
headers_capacity (h ∷ hs) = length h.name + 2 + length h.value + 2 + headers_capacity hs

unfoldable pub request_capacity : List ℕ → List ℕ → List ℕ → List HttpHeader → List ℕ → ℕ
unfolding headers_capacity
request_capacity method host path headers body =
    length method
    + 1
    + length path
    + 16
    + 6
    + length host
    + 2
    + 32
    + length body
    + 4
    + headers_capacity headers
