-- ===== src/Http/Response/Reading.antt =====
-- Responses as the specification writes them, and http_parse_response of core/http.c on them.
use instagram_on_nt.Prelude.{
  ℕ, zero, suc, ◌+◌, ◌^◌, ◌<◌, ◌≤◌, ◌≡◌, refl, sym, ap, ◌∙◌, arith, ◌==◌, true, false, List, [],
  ◌∷◌, ◌++◌, some, ltb, length, append_assoc, length-append,
}
use instagram_on_nt.Prelude.Int.{pos}
use instagram_on_nt.Prelude.Result.{ok, ◌>>=◌}
use instagram_on_nt.Http.{
  HttpHeader, put_uint, put_headers, skip_blanks, is_blank, is_decimal, parse_long,
}
use instagram_on_nt.Http.Decimal.{EndsDigits, at_byte, parse_long-put_uint}
use instagram_on_nt.Http.Response.{
  find_crlf, find_char, read_header, header_of, read_line, push_header, read_headers, read_body,
  reason_of, http_parse_response,
}
use instagram_on_nt.Http.Response.Lines.{
  lacks, find_crlf-line, find_char-first, lacks-append, lacks-put_uint,
}

-- A header that stands on a line of its own: no NUL or carriage return, no colon in the name, and no
-- blank at the front of the value.
pub record IsPlain (h : HttpHeader) : Type 0 where
  pub name_nul : lacks 0 h.name ≡ true
  pub name_cr : lacks 13 h.name ≡ true
  pub name_colon : lacks b':' h.name ≡ true
  pub value_nul : lacks 0 h.value ≡ true
  pub value_cr : lacks 13 h.value ≡ true
  pub value_front : skip_blanks h.value ≡ h.value

abbrev pub ArePlain : List HttpHeader → Type 0
ArePlain [] = Unit {0}
ArePlain (h ∷ hs) = IsPlain h × ArePlain hs

abbrev header_line : HttpHeader → List ℕ
header_line h = h.name ++ (b':' ∷ b' ' ∷ h.value)

read_header-line : (h : HttpHeader) → IsPlain h → read_header (header_line h) ≡ some h
unfolding read_header header_of skip_blanks is_blank
read_header-line h p =
    ap header_of (find_char-first b':' h.name (b' ' ∷ h.value) p.name_colon)
    ∙ ap (λ v. some (record { name = h.name; value = v })) p.value_front

header_line-lacks :
    (b : ℕ) (h : HttpHeader)
    → b < 32
    → lacks b h.name ≡ true
    → lacks b h.value ≡ true
    → lacks b (header_line h) ≡ true
header_line-lacks b h l p q = lacks-append b h.name (b':' ∷ b' ' ∷ h.value) p (
    unfold lacks in
    let x : (58 == b) ≡ false = ground arith in
    let y : (32 == b) ≡ false = ground arith in rw (x, y, q))

-- A round of the loop over lines.
read_headers-line :
    (fuel : ℕ) (p line rest : List ℕ)
    → find_crlf p ≡ some (line, rest)
    → 0 < length line
    → read_headers (suc fuel) p
      ≡ (read_headers fuel rest >>= λ r. ok (push_header (read_header line) r.0, r.1))
unfolding read_headers read_line
read_headers-line fuel p [] rest e h = absurd (omega arith)
read_headers-line fuel p (c ∷ line) rest e h = ap (λ o. read_line o (read_headers fuel)) e

put_headers-cons :
    (h : HttpHeader) (hs : List HttpHeader) (t : List ℕ)
    → put_headers (h ∷ hs) ++ t ≡ header_line h ++ (13 ∷ 10 ∷ (put_headers hs ++ t))
unfolding put_headers
put_headers-cons h hs t =
    append_assoc h.name _ t
    ∙ ap (λ x. h.name ++ (58 ∷ 32 ∷ x)) (append_assoc h.value _ t)
    ∙ sym (append_assoc h.name (58 ∷ 32 ∷ h.value) _)

put_headers-longer :
    (h : HttpHeader) (hs : List HttpHeader)
    → suc (length (put_headers hs)) ≤ length (put_headers (h ∷ hs))
unfolding put_headers
put_headers-longer h hs = omega (
  arith,
  length-append h.name (b':' ∷ b' ' ∷ (h.value ++ (13 ∷ 10 ∷ put_headers hs))),
  length-append h.value (13 ∷ 10 ∷ put_headers hs),
)

header_line-length : (h : HttpHeader) → 0 < length (header_line h)
header_line-length h = omega (arith, length-append h.name (b':' ∷ b' ' ∷ h.value))

read_headers-put_headers :
    (fuel : ℕ) (hs : List HttpHeader) (rest : List ℕ)
    → ArePlain hs
    → length (put_headers hs) < fuel
    → read_headers fuel (put_headers hs ++ (13 ∷ 10 ∷ rest)) ≡ ok (hs, rest)
read_headers-put_headers zero hs rest p k = absurd (omega arith)
read_headers-put_headers (suc fuel) [] rest p k =
    unfold read_headers read_line find_crlf put_headers in refl
read_headers-put_headers (suc fuel) (h ∷ hs) rest p k =
    let more = put_headers hs ++ (13 ∷ 10 ∷ rest) in
    let q = p.0 in
    let found : find_crlf (header_line h ++ (13 ∷ 10 ∷ more)) ≡ some (header_line h, more) =
      find_crlf-line (header_line h) more
        (header_line-lacks 0 h (omega arith) q.name_nul q.value_nul)
        (header_line-lacks 13 h (omega arith) q.name_cr q.value_cr) in
    ap (read_headers (suc fuel)) (put_headers-cons h hs (13 ∷ 10 ∷ rest))
    ∙ read_headers-line fuel _ (header_line h) more found (header_line-length h)
    ∙ ap (λ r. r >>= λ r. ok (push_header (read_header (header_line h)) r.0, r.1))
        (read_headers-put_headers fuel hs rest p.1 (omega (arith, put_headers-longer h hs)))
    ∙ ap (λ o. ok (push_header o hs, rest)) (read_header-line h q)
    ∙ unfold push_header in refl

abbrev http_version : List ℕ
http_version = b'H' ∷ b'T' ∷ b'T' ∷ b'P' ∷ b'/' ∷ b'1' ∷ b'.' ∷ b'1' ∷ []

abbrev status_line : ℕ → List ℕ → List ℕ
status_line status reason = http_version ++ (b' ' ∷ (put_uint status ++ (b' ' ∷ reason)))

-- A response of the specification: the status line, the headers, the blank line, and the body.
abbrev pub respond : ℕ → List ℕ → List HttpHeader → List ℕ → List ℕ
respond status reason hs body =
    status_line status reason ++ (13 ∷ 10 ∷ (put_headers hs ++ (13 ∷ 10 ∷ body)))

-- The steps of http_parse_response, one after the other.
parse_steps :
    (raw line rest front after : List ℕ) (r : List HttpHeader × List ℕ)
    → ltb (length raw) 12 ≡ false
    → find_crlf raw ≡ some (line, rest)
    → find_char b' ' line ≡ some (front, after)
    → read_headers (length rest + 1) rest ≡ ok r
    → http_parse_response raw ≡ read_body (parse_long after) (reason_of (find_char b' ' after)) r
unfolding http_parse_response
parse_steps raw line rest front after r b e₁ e₂ e₃ = rw (b, e₁, e₂, e₃)

lacks-cons : (b c : ℕ) (s : List ℕ) → b < c → lacks b s ≡ true → lacks b (c ∷ s) ≡ true
unfolding lacks
lacks-cons b c s h p = let e : (c == b) ≡ false = ground arith in rw (e, p)

not_short : (n : ℕ) → 12 ≤ n → ltb n 12 ≡ false
not_short n h = ground arith

blank-EndsDigits : (s : List ℕ) → EndsDigits (b' ' ∷ s)
unfolding is_decimal
blank-EndsDigits s = at_byte refl

status_line-lacks :
    (b status : ℕ) (reason : List ℕ)
    → b < 32
    → lacks b reason ≡ true
    → lacks b (status_line status reason) ≡ true
unfolding lacks
status_line-lacks b status reason h p =
    let e =
      lacks-append b (put_uint status) (b' ' ∷ reason) (lacks-put_uint b status (omega arith))
        (lacks-cons b 32 reason (omega arith) p) in
    ground (arith, e)

-- A response with a status below 2^31, a reason without NUL and carriage return, and plain headers is
-- parsed to its status, its reason and its headers in order; the body is framed by those headers.
pub http_parse_response-respond :
    (status : ℕ) (reason : List ℕ) (hs : List HttpHeader) (body : List ℕ)
    → status < 2 ^ 31
    → lacks 0 reason ≡ true
    → lacks 13 reason ≡ true
    → ArePlain hs
    → http_parse_response (respond status reason hs body) ≡ read_body (pos status) reason (hs, body)
http_parse_response-respond status reason hs body h z c p =
    let rest = put_headers hs ++ (13 ∷ 10 ∷ body) in
    let after = put_uint status ++ (b' ' ∷ reason) in
    let number = parse_long-put_uint status (b' ' ∷ reason) h (blank-EndsDigits reason) in
    let space =
      find_char-first b' ' (put_uint status) reason (lacks-put_uint b' ' status (omega arith)) in
    let long : 12 ≤ length (respond status reason hs body) = omega (
      arith,
      length-append (status_line status reason) (13 ∷ 10 ∷ rest),
      length-append (put_uint status) (b' ' ∷ reason),
    ) in
    parse_steps (respond status reason hs body) (status_line status reason) rest http_version after
      (hs, body) (not_short (length (respond status reason hs body)) long)
      (find_crlf-line (status_line status reason) rest
        (status_line-lacks 0 status reason (omega arith) z)
        (status_line-lacks 13 status reason (omega arith) c))
      (find_char-first b' ' http_version after (unfold lacks in refl))
      (read_headers-put_headers (length rest + 1) hs body p
        (omega (arith, length-append (put_headers hs) (13 ∷ 10 ∷ body))))
    ∙ ap (λ n. read_body n (reason_of (find_char b' ' after)) (hs, body)) number
    ∙ ap (λ o. read_body (pos status) (reason_of o) (hs, body)) space
    ∙ unfold reason_of in refl
