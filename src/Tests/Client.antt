-- ===== src/Tests/Client.antt =====
-- A fetch of the timeline through every layer, at a concrete session and a concrete server.
use instagram_on_nt.Prelude.{
  inl, inr, ℕ, ◌≤◌, ◌≡◌, ◌≢◌, refl, arith, false, List, [], ◌∷◌, none, some, length, codes, leb,
  if◌then◌else◌,
}
use instagram_on_nt.Prelude.Int.{pos, neg}
use instagram_on_nt.Prelude.Result.{ok, out_of_fuel, ◌>>=◌}
use instagram_on_nt.Http.{put_uint, put_digits, ci_eq, lower}
use instagram_on_nt.Http.Chunks.Encoding.{chunked, concat}
use instagram_on_nt.Http.Response.{http_header}
use instagram_on_nt.Http.Response.Lines.{lacks}
use instagram_on_nt.Http.Response.Reading.{respond}
use instagram_on_nt.Json.{obj, no_fields, json_parse}
use instagram_on_nt.Json.Depth.{depth_of}
use instagram_on_nt.Json.Print.{print}
use instagram_on_nt.Model.Timeline.{private_feed_of}
use instagram_on_nt.Net.{
  Winsock, refused, pal_tcp_connect, resolve_host, connect_socket, connect_with_timeout,
  pal_tcp_send_all,
}
use instagram_on_nt.Net.Sending.{Sends, pal_tcp_send_all-Sends}
use instagram_on_nt.Https.Exchange.{Tls, https_request}
use instagram_on_nt.Https.Answers.{Serves, pieced, https_request-closes}
use instagram_on_nt.Private.{ig_rand_range}
use instagram_on_nt.Private.Body.{body_pieces, time_text, body_room, ig_build_timeline_body}
use instagram_on_nt.Private.Texts.{joined, ig_build_timeline_body-clock}
use instagram_on_nt.Private.Members.{body_object}
use instagram_on_nt.Private.Parsed.{ig_build_timeline_body-parsed}
use instagram_on_nt.Client.{ig_fetch_timeline}
use instagram_on_nt.Client.Fetched.{Answers, ig_fetch_timeline-feed}
use instagram_on_nt.Client.Program.{post_lines, ig_feed_main}
use instagram_on_nt.Client.Agreement.{ig_feed_main-ig_fetch_timeline}
use instagram_on_nt.Tests.Session.{
  session, session-IsPlain, empty_buffer, dice, request_body, buffer_length, request_body_built,
  fresh, baked, winsock, socket_5, request, encoding, tls_of, tls_of-Serves, pieces_of,
  pieces_of-pieced, encoding-IsPlain,
}

ig_build_timeline_body-clock_example :
    let text = joined (body_pieces session (codes "%lu") (ig_rand_range dice 0 1)) in
    ig_build_timeline_body empty_buffer session 1000 dice
    ≡ (if leb body_room (length text) then none else some text)
ig_build_timeline_body-clock_example =
    ig_build_timeline_body-clock empty_buffer session 1000 dice buffer_length

ig_build_timeline_body-parsed_example :
    json_parse request_body ≡ ok (body_object session (time_text 1000) (ig_rand_range dice 0 1))
ig_build_timeline_body-parsed_example =
    ig_build_timeline_body-parsed empty_buffer session 1000 dice request_body buffer_length
      session-IsPlain request_body_built

-- The response carries the text "{}" in one chunk, and TLS gives it in two pieces.
abbrev chunks : List (List ℕ)
chunks = codes "{}" ∷ []

abbrev answer : List ℕ
answer = respond 200 (codes "OK") (encoding ∷ []) (chunked chunks)

abbrev tls : Tls
tls = tls_of request answer

tls-Serves : Serves tls request (pieces_of answer)
unfolding put_uint put_digits
tls-Serves = tls_of-Serves request answer (refl, (refl, tt))

answer-Answers : Answers (pieced (pieces_of answer)) (obj no_fields)
unfolding lacks http_header ci_eq lower print concat
answer-Answers = record {
  reason = codes "OK";
  headers = encoding ∷ [];
  chunks = chunks;
  sent = pieces_of-pieced answer;
  no_nul = refl;
  no_cr = refl;
  plain = (encoding-IsPlain, tt);
  encoding = refl;
  sized = (omega arith, omega arith, tt);
  json = refl;
}

ig_fetch_timeline-feed_example :
    ig_fetch_timeline winsock tls baked fresh empty_buffer
    ≡ ok (private_feed_of (some (obj no_fields)))
unfolding depth_of
ig_fetch_timeline-feed_example =
    ig_fetch_timeline-feed winsock tls baked fresh empty_buffer 5 request_body (pieces_of answer)
      (obj no_fields) request_body_built socket_5 tls-Serves answer-Answers tt (omega arith)

-- A socket whose connection is refused.
abbrev refusing : Winsock
refusing = record {
  inet_addr = 16777343;
  gethostbyname = none;
  created = some 5;
  connect = refused;
  selected = (pos 0, false);
}

refused_outcome :
    (https_request refusing tls baked.host (codes "GET") baked.path [] []).outcome ≢ out_of_fuel
unfolding https_request pal_tcp_connect resolve_host connect_socket connect_with_timeout
refused_outcome e = ground arith

https_request-closes_example :
    (https_request refusing tls baked.host (codes "GET") baked.path [] []).closed
    ≡ (https_request refusing tls baked.host (codes "GET") baked.path [] []).opened
https_request-closes_example =
    https_request-closes refusing tls baked.host (codes "GET") baked.path [] [] refused_outcome

pal_tcp_send_all-Sends_example :
    Sends (codes "abcde") (pal_tcp_send_all (pos 2 ∷ neg 1 ∷ []) (codes "abcde"))
    × (5 ≤ 2 → (pal_tcp_send_all (pos 2 ∷ neg 1 ∷ []) (codes "abcde")).outcome ≢ out_of_fuel)
pal_tcp_send_all-Sends_example =
    pal_tcp_send_all-Sends (pos 2 ∷ neg 1 ∷ []) (codes "abcde") (omega arith)
      (inr (refl, omega arith, inl refl))

ig_feed_main-ig_fetch_timeline_example :
    ig_feed_main (pos 0) winsock tls baked fresh empty_buffer ≡ (
      ig_fetch_timeline winsock tls baked fresh empty_buffer >>= λ feed.
      ok (post_lines 0 feed.posts))
ig_feed_main-ig_fetch_timeline_example =
    ig_feed_main-ig_fetch_timeline winsock tls baked fresh empty_buffer request_body
      request_body_built
