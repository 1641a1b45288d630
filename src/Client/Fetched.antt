-- ===== src/Client/Fetched.antt =====
-- What ig_fetch_timeline of net/ig_client.c returns: the feed that the server has sent, through TLS,
-- HTTP, JSON and the model.
use instagram_on_nt.Prelude.{ℕ, ◌≤◌, ◌≡◌, ap, ◌∙◌, arith, true, List, some, codes}
use instagram_on_nt.Prelude.Int.{pos}
use instagram_on_nt.Prelude.Result.{ok, ◌>>=◌}
use instagram_on_nt.Http.{HttpHeader, HttpResponse, http_build_request}
use instagram_on_nt.Http.Chunks.Encoding.{chunked, concat, Sized}
use instagram_on_nt.Http.Response.{http_header, transfer_encoding, is_chunked}
use instagram_on_nt.Http.Response.Lines.{lacks}
use instagram_on_nt.Http.Response.Reading.{ArePlain, respond}
use instagram_on_nt.Http.Response.Framing.{http_parse_response-chunked}
use instagram_on_nt.Json.{Value, json_parse}
use instagram_on_nt.Json.Depth.{depth_of}
use instagram_on_nt.Json.Print.{print, Integers}
use instagram_on_nt.Json.Print.RoundTrip.{json_parse-print}
use instagram_on_nt.Model.Timeline.{private_feed_of, feed_from_private_json}
use instagram_on_nt.Net.{Winsock, pal_tcp_connect}
use instagram_on_nt.Https.Exchange.{Tls, response_of}
use instagram_on_nt.Https.Answers.{Serves, pieced, https_request-Serves}
use instagram_on_nt.Private.{Fresh}
use instagram_on_nt.Private.Body.{ig_build_timeline_body}
use instagram_on_nt.Client.{Baked, timeline_headers, feed_of_answer, fetch_with, ig_fetch_timeline}

feed_of_answer-print :
    (v : Value) (body : List ℕ)
    → Integers v
    → depth_of v ≤ 128
    → body ≡ print v
    → feed_of_answer (pos 200, body) ≡ ok (private_feed_of (some v))
unfolding feed_of_answer feed_from_private_json
feed_of_answer-print v body i d e =
    ap (λ t. json_parse t >>= λ root. ok (private_feed_of (some root))) e
    ∙ ap (λ r. r >>= λ root. ok (private_feed_of (some root))) (json_parse-print v i d)

-- A response of the specification with status 200 and the chunks of a JSON text.
pub record Answers (text : List ℕ) (v : Value) : Type 0 where
  pub reason : List ℕ
  pub headers : List HttpHeader
  pub chunks : List (List ℕ)
  pub sent : text ≡ respond 200 reason headers (chunked chunks)
  pub no_nul : lacks 0 reason ≡ true
  pub no_cr : lacks 13 reason ≡ true
  pub plain : ArePlain headers
  pub encoding : is_chunked (http_header headers transfer_encoding) ≡ true
  pub sized : Sized chunks
  pub json : concat chunks ≡ print v

response_of-Answers :
    (text : List ℕ) (v : Value) (a : Answers text v)
    → response_of text ≡ ok (pos 200, concat a.chunks)
unfolding response_of
response_of-Answers text v a =
    ap response_of a.sent
    ∙ ap (λ r. r >>= λ (h : HttpResponse). ok (h.status, h.body))
        (http_parse_response-chunked 200 a.reason a.headers (omega arith) a.no_nul a.no_cr a.plain
          a.chunks a.encoding a.sized)

module _ (w : Winsock) (t : Tls) (k : Baked) (f : Fresh) (buf : List ℕ) where
  -- If the body of the request fits its buffer, the connection is made, and the peer takes the request
  -- and answers it, in whatever pieces, by a response with status 200 and a chunked body whose text is
  -- the JSON of a value, then ig_fetch_timeline returns the feed of that value.
  pub ig_fetch_timeline-feed :
      (s : ℕ) (body : List ℕ) (pieces : List (List ℕ)) (v : Value)
      → ig_build_timeline_body buf k.session f.now_ms f.sound ≡ some body
      → (pal_tcp_connect w).socket ≡ some s
      → Serves t
          (http_build_request (codes "POST") k.host k.path (timeline_headers k f) body)
          pieces
      → Answers (pieced pieces) v
      → Integers v
      → depth_of v ≤ 128
      → ig_fetch_timeline w t k f buf ≡ ok (private_feed_of (some v))
  unfolding ig_fetch_timeline
  ig_fetch_timeline-feed s body pieces v e c serves a i d =
      let served =
        https_request-Serves w t k.host (codes "POST") k.path (timeline_headers k f) body s pieces c
          serves in
      ap (fetch_with w t k f) e
      ∙ ap (λ r. r >>= feed_of_answer) (served.1 ∙ response_of-Answers (pieced pieces) v a)
      ∙ feed_of_answer-print v (concat a.chunks) i d a.json
