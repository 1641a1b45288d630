-- ===== src/Tests/Http.antt =====
-- Runs of core/http.c, and its properties at concrete messages.
use instagram_on_nt.Prelude.{ℕ, ◌≤◌, ◌≡◌, refl, arith, true, List, [], ◌∷◌, length}
use instagram_on_nt.Prelude.Result.{ok, Ensures}
use instagram_on_nt.Http.{
  HttpHeader, ci_eq, lower, skip_blanks, is_blank, http_build_request, request_capacity,
}
use instagram_on_nt.Http.Request.{length-http_build_request}
use instagram_on_nt.Http.Chunks.Encoding.{chunked, concat, hex_digits, hex_char}
use instagram_on_nt.Http.Response.{http_parse_response, http_header}
use instagram_on_nt.Http.Response.Lines.{lacks}
use instagram_on_nt.Http.Response.Reading.{IsPlain, respond}
use instagram_on_nt.Http.Response.Framing.{response, http_parse_response-chunked}
use instagram_on_nt.Http.Response.Total.{http_parse_response-Ensures}

abbrev chunks : List (List ℕ)
chunks = (b'a' ∷ 13 ∷ 10 ∷ []) ∷ (b'b' ∷ []) ∷ []

-- "3\r\na\r\n\r\n1\r\nb\r\n0\r\n\r\n"
chunked_lem :
    chunked chunks
    ≡ b'3' ∷ 13 ∷ 10 ∷ b'a' ∷ 13 ∷ 10 ∷ 13 ∷ 10 ∷ b'1' ∷ 13 ∷ 10 ∷ b'b' ∷ 13 ∷ 10 ∷ b'0' ∷ 13 ∷ 10
      ∷ 13 ∷ 10 ∷ []
unfolding chunked hex_digits hex_char
chunked_lem = refl

abbrev get_text : List ℕ
get_text = b'G' ∷ b'E' ∷ b'T' ∷ []

abbrev encoding_header : HttpHeader
encoding_header = record {
  name =
      b'T' ∷ b'r' ∷ b'a' ∷ b'n' ∷ b's' ∷ b'f' ∷ b'e' ∷ b'r' ∷ b'-' ∷ b'E' ∷ b'n' ∷ b'c' ∷ b'o'
      ∷ b'd' ∷ b'i' ∷ b'n' ∷ b'g' ∷ [];
  value = b'C' ∷ b'h' ∷ b'u' ∷ b'n' ∷ b'k' ∷ b'e' ∷ b'd' ∷ [];
}

abbrev length_header : HttpHeader
length_header = record {
  name =
      b'C' ∷ b'o' ∷ b'n' ∷ b't' ∷ b'e' ∷ b'n' ∷ b't' ∷ b'-' ∷ b'l' ∷ b'e' ∷ b'n' ∷ b'g' ∷ b't'
      ∷ b'h' ∷ [];
  value = b'2' ∷ [];
}

length-http_build_request_example :
    length (http_build_request get_text (b'h' ∷ []) (b'/' ∷ []) (encoding_header ∷ []) (b'x' ∷ []))
    ≤ request_capacity get_text (b'h' ∷ []) (b'/' ∷ []) (encoding_header ∷ []) (b'x' ∷ [])
length-http_build_request_example =
    length-http_build_request get_text (b'h' ∷ []) (b'/' ∷ []) (encoding_header ∷ []) (b'x' ∷ [])
      (omega arith)

encoding_header-IsPlain : IsPlain encoding_header
unfolding lacks skip_blanks is_blank
encoding_header-IsPlain = record {
  name_nul = refl;
  name_cr = refl;
  name_colon = refl;
  value_nul = refl;
  value_cr = refl;
  value_front = refl;
}

length_header-IsPlain : IsPlain length_header
unfolding lacks skip_blanks is_blank
length_header-IsPlain = record {
  name_nul = refl;
  name_cr = refl;
  name_colon = refl;
  value_nul = refl;
  value_cr = refl;
  value_front = refl;
}

abbrev ok_text : List ℕ
ok_text = b'O' ∷ b'K' ∷ []

http_parse_response-chunked_example :
    http_parse_response (respond 200 ok_text (encoding_header ∷ []) (chunked chunks))
    ≡ ok (response 200 ok_text (encoding_header ∷ []) (concat chunks) true)
unfolding lacks http_header ci_eq lower
http_parse_response-chunked_example =
    http_parse_response-chunked 200 ok_text (encoding_header ∷ []) (omega arith) refl refl
      (encoding_header-IsPlain, tt) chunks refl
      (omega arith, omega arith, (omega arith, omega arith, tt))

http_parse_response-Ensures_example :
    Ensures
      (λ r. length r.body ≤ length (respond 200 ok_text (encoding_header ∷ []) (chunked chunks)))
      (http_parse_response (respond 200 ok_text (encoding_header ∷ []) (chunked chunks)))
http_parse_response-Ensures_example =
    http_parse_response-Ensures (respond 200 ok_text (encoding_header ∷ []) (chunked chunks))
