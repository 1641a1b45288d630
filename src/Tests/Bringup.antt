-- ===== src/Tests/Bringup.antt =====
-- The program of net/graphtest_main.c against a server that sends four bytes.
use instagram_on_nt.Prelude.{
  ℕ, ◌<◌, ◌≡◌, refl, ap, ◌∙◌, arith, false, List, [], ◌∷◌, ◌++◌, length, codes,
}
use instagram_on_nt.Prelude.Int.{pos}
use instagram_on_nt.Prelude.Result.{ok}
use instagram_on_nt.Http.{
  HttpHeader, HttpResponse, put_uint, put_digits, put_headers, ci_eq, lower, skip_blanks, is_blank,
}
use instagram_on_nt.Http.Response.{http_header}
use instagram_on_nt.Http.Response.Lines.{lacks}
use instagram_on_nt.Http.Response.Reading.{IsPlain, respond}
use instagram_on_nt.Http.Response.Framing.{response, http_parse_response-counted}
use instagram_on_nt.Https.Answers.{Serves, pieced}
use instagram_on_nt.Bringup.{parsed, recv_cap, graphtest_main}
use instagram_on_nt.Bringup.Logged.{AreLines, graph_request, graphtest_main-pieced}
use instagram_on_nt.Tests.Session.{
  winsock, socket_5, tls_of, tls_of-Serves, pieces_of, pieces_of-pieced,
}

abbrev body : List ℕ
body = codes "{}{}"

abbrev length_header : HttpHeader
length_header = record { name = codes "Content-Length"; value = codes "4" }

abbrev answer : List ℕ
answer = respond 200 (codes "OK") (length_header ∷ []) (body ++ [])

answer-Serves : Serves (tls_of graph_request answer) graph_request (pieces_of answer)
unfolding put_uint put_digits
answer-Serves = tls_of-Serves graph_request answer (refl, (refl, tt))

length_header-IsPlain : IsPlain length_header
unfolding lacks skip_blanks is_blank
length_header-IsPlain = record {
  name_nul = refl;
  name_cr = refl;
  name_colon = refl;
  value_nul = refl;
  value_cr = refl;
  value_front = refl;
}

abbrev answered : HttpResponse
answered = response 200 (codes "OK") (length_header ∷ []) body false

answer-parsed : parsed (pieced (pieces_of answer)) ≡ ok answered
unfolding parsed lacks http_header ci_eq lower put_uint put_digits
answer-parsed =
    ap parsed (pieces_of-pieced answer)
    ∙ http_parse_response-counted 200 (codes "OK") (length_header ∷ []) (omega arith) refl refl
        (length_header-IsPlain, tt) body [] refl refl (omega arith)

answer_short : length (pieced (pieces_of answer)) < recv_cap
unfolding put_uint put_digits put_headers
answer_short = omega arith

graphtest_main-pieced_example :
    (lines : List (List ℕ)) × (graphtest_main (pos 0) winsock (tls_of graph_request answer)
      ≡ ok lines)
    × (pieced lines ≡ body)
    × AreLines lines
graphtest_main-pieced_example =
    graphtest_main-pieced winsock (tls_of graph_request answer) 5 (pieces_of answer) answered
      socket_5 answer-Serves answer_short answer-parsed
