-- ===== src/Http/Response/Framing.antt =====
-- The two body framings of core/http.c, through whole responses.
use instagram_on_nt.Prelude.{
  ℕ, ◌^◌, ◌<◌, ◌≡◌, arith, sym, ap, ◌∙◌, Bool, true, false, List, [], ◌++◌, some, length,
  append-nil,
}
use instagram_on_nt.Prelude.Int.{pos, ltb_ℤ}
use instagram_on_nt.Prelude.Result.{ok, ◌>>=◌}
use instagram_on_nt.Http.{HttpHeader, HttpResponse, put_uint, parse_long}
use instagram_on_nt.Http.Decimal.{at_end, parse_long-put_uint}
use instagram_on_nt.Http.Chunks.Encoding.{
  chunked, concat, Sized, dechunk-chunked, clamp_all, bytes_from-append,
}
use instagram_on_nt.Http.Response.{
  http_header, transfer_encoding, content_length, is_chunked, counted_body, frame, read_body,
  http_parse_response,
}
use instagram_on_nt.Http.Response.Lines.{lacks}
use instagram_on_nt.Http.Response.Reading.{ArePlain, respond, http_parse_response-respond}

-- The response that a parse returns.
abbrev pub response : ℕ → List ℕ → List HttpHeader → List ℕ → Bool → HttpResponse
response status reason hs body owned = record {
  status = pos status;
  reason = reason;
  headers = hs;
  body = body;
  owned = owned;
}

frame-chunked :
    (hs : List HttpHeader) (cs : List (List ℕ))
    → is_chunked (http_header hs transfer_encoding) ≡ true
    → Sized cs
    → frame hs (chunked cs) ≡ ok (concat cs, true)
unfolding frame
frame-chunked hs cs h s = let e = dechunk-chunked cs s in rw (h, e)

counted_body-put_uint :
    (body extra : List ℕ)
    → length body < 2 ^ 31
    → counted_body (some (put_uint (length body))) (body ++ extra) ≡ ok body
unfolding counted_body
counted_body-put_uint body extra h =
    let e : parse_long (put_uint (length body)) ≡ pos (length body) =
      ap parse_long (sym (append-nil (put_uint (length body))))
      ∙ parse_long-put_uint (length body) [] h at_end in
    let k : ltb_ℤ (pos (length body)) (pos 0) ≡ false = ground arith in
    rw (e, k, clamp_all body extra, bytes_from-append body extra)

frame-counted :
    (hs : List HttpHeader) (body extra : List ℕ)
    → is_chunked (http_header hs transfer_encoding) ≡ false
    → http_header hs content_length ≡ some (put_uint (length body))
    → length body < 2 ^ 31
    → frame hs (body ++ extra) ≡ ok (body, false)
unfolding frame
frame-counted hs body extra h k l = let e = counted_body-put_uint body extra l in rw (h, k, e)

module _ (status : ℕ) (reason : List ℕ) (hs : List HttpHeader) (small : status < 2 ^ 31)
    (no_nul : lacks 0 reason ≡ true) (no_cr : lacks 13 reason ≡ true) (plain : ArePlain hs) where
  -- A response with a status below 2^31, a reason without NUL and carriage return, and plain headers,
  -- whose first Transfer-Encoding header is `chunked`, in any case of letters, and whose body is the
  -- chunked encoding of chunks with 1 to 2^31 - 1 bytes, is parsed to its status, reason and headers
  -- and the chunks' bytes as body.
  pub http_parse_response-chunked :
      (cs : List (List ℕ))
      → is_chunked (http_header hs transfer_encoding) ≡ true
      → Sized cs
      → http_parse_response (respond status reason hs (chunked cs))
        ≡ ok (response status reason hs (concat cs) true)
  unfolding read_body
  http_parse_response-chunked cs h s =
      http_parse_response-respond status reason hs (chunked cs) small no_nul no_cr plain
      ∙ ap (λ f. f >>= λ b. ok (response status reason hs b.0 b.1)) (frame-chunked hs cs h s)

  -- A response with a status below 2^31, a reason without NUL and carriage return, and plain headers,
  -- that is not chunked, and whose first Content-Length header is the length of a body of fewer than
  -- 2^31 bytes, is parsed to its status, reason, headers and that body, whatever follows the body.
  pub http_parse_response-counted :
      (body extra : List ℕ)
      → is_chunked (http_header hs transfer_encoding) ≡ false
      → http_header hs content_length ≡ some (put_uint (length body))
      → length body < 2 ^ 31
      → http_parse_response (respond status reason hs (body ++ extra))
        ≡ ok (response status reason hs body false)
  unfolding read_body
  http_parse_response-counted body extra h k l =
      http_parse_response-respond status reason hs (body ++ extra) small no_nul no_cr plain
      ∙ ap (λ f. f >>= λ b. ok (response status reason hs b.0 b.1))
          (frame-counted hs body extra h k l)
