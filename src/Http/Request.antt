-- ===== src/Http/Request.antt =====
-- http_build_request of core/http.c writes no more than it allocates.
use instagram_on_nt.Prelude.{
  ℕ, ◌+◌, ◌^◌, ◌≤◌, ◌<◌, ◌≡◌, refl, arith, List, [], ◌∷◌, ◌++◌, length, length-append,
}
use instagram_on_nt.Http.{
  HttpHeader, put_headers, put_body, put_uint, version_text, host_text, crlf, http_build_request,
  headers_capacity, request_capacity,
}
use instagram_on_nt.Http.Decimal.{put_uint-length}

length-put_headers : (hs : List HttpHeader) → length (put_headers hs) ≡ headers_capacity hs
unfolding put_headers headers_capacity
length-put_headers [] = refl
length-put_headers (h ∷ hs) = omega (
  arith,
  length-append h.name (b':' ∷ b' ' ∷ (h.value ++ (13 ∷ 10 ∷ put_headers hs))),
  length-append h.value (13 ∷ 10 ∷ put_headers hs),
  length-put_headers hs,
)

length-put_body : (body : List ℕ) → length body < 2 ^ 31 → length (put_body body) ≤ 32 + length body
unfolding put_body
length-put_body [] h = omega arith
length-put_body (c ∷ body) h = omega (
  arith,
  length-append (put_uint (length (c ∷ body))) (crlf ++ (crlf ++ (c ∷ body))),
  put_uint-length (length (c ∷ body)) (omega arith),
)

-- The request that http_build_request writes, for a body of fewer than 2^31 bytes, fits the buffer
-- whose size it has computed from its arguments.
pub length-http_build_request :
    (method host path : List ℕ) (headers : List HttpHeader) (body : List ℕ)
    → length body < 2 ^ 31
    → length (http_build_request method host path headers body)
      ≤ request_capacity method host path headers body
unfolding http_build_request request_capacity
length-http_build_request method host path headers body h =
    let tail = put_headers headers ++ put_body body in
    omega (
      arith,
      length-append method _,
      length-append path (b' ' ∷ (version_text ++ (host_text ++ (host ++ (crlf ++ tail))))),
      length-append host (crlf ++ tail),
      length-append (put_headers headers) (put_body body),
      length-put_headers headers,
      length-put_body body h,
    )
