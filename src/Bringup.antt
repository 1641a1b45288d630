-- ===== src/Bringup.antt =====
-- net/tlstest_main.c and net/graphtest_main.c: two programs that make one request and log what has
-- come. They share all but the host, the path and what they log.
pub mod Logged
use instagram_on_nt.Prelude.{
  ℕ, zero, suc, List, [], ◌∷◌, ◌++◌, Option, none, some, if◌then◌else◌, leb, length, take, drop,
  codes,
}
use instagram_on_nt.Prelude.Int.{ℤ, pos, eqb_ℤ}
use instagram_on_nt.Prelude.Result.{Result, ok, failed, out_of_fuel, ◌>>=◌}
use instagram_on_nt.Http.{HttpHeader, HttpResponse, http_build_request}
use instagram_on_nt.Http.Response.{http_parse_response}
use instagram_on_nt.Model.{Feed, feed_from_graph_json}
use instagram_on_nt.Net.{Winsock, pal_net_init, pal_tcp_connect}
use instagram_on_nt.Https.Exchange.{Tls, Read, got, stopped, write_loop}
use instagram_on_nt.Client.Program.{feed_handshake}

-- RECV_CAP
abbrev pub recv_cap : ℕ
recv_cap = 16384

-- `buf` at the end of the loop, which stops when the buffer is full.
unfoldable pub capped_loop : List Read → ℕ → List ℕ → Result (List ℕ)
capped_loop [] cap buf = out_of_fuel
capped_loop (stopped code ∷ rs) cap buf = ok buf
capped_loop (got [] ∷ rs) cap buf = ok buf
capped_loop (got (c ∷ chunk) ∷ rs) cap buf =
    let more = buf ++ (c ∷ chunk) in
    let rest = capped_loop rs cap more in if leb cap (length more) then ok more else rest

-- `if (buf && total > 0)`
unfoldable pub parsed : List ℕ → Result HttpResponse
unfolding http_parse_response
parsed [] = failed
parsed (c ∷ buf) = http_parse_response (c ∷ buf)

abbrev pub close_header : HttpHeader
close_header = record { name = codes "Connection"; value = codes "close" }

abbrev pub request_of : List ℕ → List ℕ → List ℕ
request_of host path = http_build_request (codes "GET") host path (close_header ∷ []) []

-- From the handshake to the parsed response.
unfoldable pub response_over : Option ℕ → Tls → List ℕ → Result HttpResponse
unfolding feed_handshake write_loop capped_loop parsed
response_over none t req = failed
response_over (some s) t req = feed_handshake t >>= λ _.
    (write_loop t.writes req).outcome >>= λ _. capped_loop t.reads recv_cap [] >>= parsed

unfoldable pub response_to : ℤ → Winsock → Tls → List ℕ → Result HttpResponse
unfolding pal_net_init pal_tcp_connect response_over
response_to wsa w t req =
    let response = response_over (pal_tcp_connect w).socket t req in
    if eqb_ℤ (pal_net_init wsa) (pos 0) then response else failed

-- The feed whose posts net/tlstest_main.c logs; `failed` is that it logs none.
unfoldable pub tlstest_main : ℤ → Winsock → Tls → Result Feed
unfolding response_to feed_from_graph_json
tlstest_main wsa w t =
    response_to wsa w t
      (request_of (codes "10.0.2.2") (codes "/me/media?fields=id,caption,media_url"))
    >>= λ (r : HttpResponse). feed_from_graph_json r.body

-- The lines of the loop over the body, of which `n` bytes at most are left.
unfoldable pub body_lines : ℕ → List ℕ → List (List ℕ)
body_lines zero body = []
body_lines (suc n) [] = []
body_lines (suc n) (c ∷ body) = take 200 (c ∷ body) ∷ body_lines n (drop 200 (c ∷ body))

-- The parts of the body that net/graphtest_main.c logs.
unfoldable pub graphtest_main : ℤ → Winsock → Tls → Result (List (List ℕ))
unfolding response_to body_lines
graphtest_main wsa w t =
    response_to wsa w t (request_of (codes "graph.instagram.com") (codes "/me?fields=id"))
    >>= λ (r : HttpResponse). ok (body_lines (length r.body) r.body)
