-- ===== src/Bringup/Logged.antt =====
-- What net/graphtest_main.c logs of the body that has come.
use instagram_on_nt.Prelude.{
  ℕ, zero, suc, ◌+◌, ◌<◌, ◌≤◌, ◌≡◌, refl, sym, ap, ◌∙◌, arith, false, List, [], ◌∷◌, ◌++◌, some,
  append_assoc, append-nil, length, take, drop, length-take, length-drop, length-append,
  take-append-drop, leb, codes,
}
use instagram_on_nt.Prelude.Int.{pos}
use instagram_on_nt.Prelude.Result.{ok, ◌>>=◌}
use instagram_on_nt.Http.{HttpResponse}
use instagram_on_nt.Net.{Winsock, pal_net_init, pal_tcp_connect}
use instagram_on_nt.Https.Exchange.{Tls, Read, got, stopped}
use instagram_on_nt.Https.Answers.{Gives, Serves, pieced, handshake_loop-Shakes, write_loop-Takes}
use instagram_on_nt.Client.Program.{feed_handshake}
use instagram_on_nt.Client.Agreement.{feed_handshake_loop-same}
use instagram_on_nt.Bringup.{
  recv_cap, capped_loop, parsed, request_of, response_over, response_to, body_lines, graphtest_main,
}

capped_loop-Gives :
    (rs : List Read) (pieces : List (List ℕ)) (cap : ℕ) (buf : List ℕ)
    → Gives rs pieces
    → length buf + length (pieced pieces) < cap
    → capped_loop rs cap buf ≡ ok (buf ++ pieced pieces)
unfolding capped_loop
capped_loop-Gives [] pieces cap buf h k = absurd h
capped_loop-Gives (stopped code ∷ rs) [] cap buf h k = ap ok (sym (append-nil buf))
capped_loop-Gives (stopped code ∷ rs) (s ∷ ss) cap buf h k = absurd h
capped_loop-Gives (got [] ∷ rs) [] cap buf h k = ap ok (sym (append-nil buf))
capped_loop-Gives (got [] ∷ rs) (s ∷ ss) cap buf h k = absurd h
capped_loop-Gives (got (c ∷ chunk) ∷ rs) [] cap buf h k = absurd h
capped_loop-Gives (got (c ∷ chunk) ∷ rs) (s ∷ ss) cap buf (e, h) k =
    let l : length (c ∷ chunk) ≡ length s = ap length e in
    let whole = length-append s (pieced ss) in
    let grown = length-append buf (c ∷ chunk) in
    let small : length (buf ++ (c ∷ chunk)) + length (pieced ss) < cap = omega arith in
    let room : leb cap (length (buf ++ (c ∷ chunk))) ≡ false = ground arith in
    rw room (
      capped_loop-Gives rs ss cap (buf ++ (c ∷ chunk)) h small
      ∙ ap ok (append_assoc buf (c ∷ chunk) (pieced ss) ∙ ap (λ t. buf ++ (t ++ pieced ss)) e))

-- Each line has 1 to 200 bytes.
abbrev pub AreLines : List (List ℕ) → Type 0
AreLines [] = Unit {0}
AreLines (s ∷ ss) = (0 < length s) × (length s ≤ 200) × AreLines ss

body_lines-AreLines : (n : ℕ) (body : List ℕ) → AreLines (body_lines n body)
unfolding body_lines
body_lines-AreLines zero body = tt
body_lines-AreLines (suc n) [] = tt
body_lines-AreLines (suc n) (c ∷ body) =
    let l = length-take 200 (c ∷ body) in
    (omega arith, omega arith, body_lines-AreLines n (drop 200 (c ∷ body)))

body_lines-pieced : (n : ℕ) (body : List ℕ) → length body ≤ n → pieced (body_lines n body) ≡ body
unfolding body_lines
body_lines-pieced zero [] h = refl
body_lines-pieced zero (c ∷ body) h = absurd (omega arith)
body_lines-pieced (suc n) [] h = refl
body_lines-pieced (suc n) (c ∷ body) h =
    ap (λ t. take 200 (c ∷ body) ++ t)
      (body_lines-pieced n (drop 200 (c ∷ body)) (omega (arith, length-drop 200 (c ∷ body))))
    ∙ take-append-drop 200 (c ∷ body)

abbrev pub graph_request : List ℕ
graph_request = request_of (codes "graph.instagram.com") (codes "/me?fields=id")

response_over-Serves :
    (s : ℕ) (t : Tls) (req : List ℕ) (pieces : List (List ℕ))
    → Serves t req pieces
    → length (pieced pieces) < recv_cap
    → response_over (some s) t req ≡ parsed (pieced pieces)
unfolding response_over feed_handshake
response_over-Serves s t req pieces h small = rw (
  h.seed,
  h.crt_parse,
  h.config_defaults,
  h.setup,
  h.set_hostname,
  feed_handshake_loop-same t.handshake ∙ handshake_loop-Shakes t.handshake h.shakes,
  write_loop-Takes t.writes req (length req) refl h.takes,
  capped_loop-Gives t.reads pieces recv_cap [] h.gives (omega arith),
)

-- If the sockets start, the connection is made, and the peer takes the request and answers it, in
-- whatever pieces, by a response of fewer than 16384 bytes that http_parse_response can read, then
-- net/graphtest_main.c hands the whole body of that response to its log: the parts have 1 to 200
-- bytes each, and put together they are the body.
pub graphtest_main-pieced :
    (w : Winsock) (t : Tls) (s : ℕ) (pieces : List (List ℕ)) (r : HttpResponse)
    → (pal_tcp_connect w).socket ≡ some s
    → Serves t graph_request pieces
    → length (pieced pieces) < recv_cap
    → parsed (pieced pieces) ≡ ok r
    → (lines : List (List ℕ)) × (graphtest_main (pos 0) w t ≡ ok lines)
      × (pieced lines ≡ r.body)
      × AreLines lines
unfolding graphtest_main response_to pal_net_init
graphtest_main-pieced w t s pieces r c h small p =
    let lines = body_lines (length r.body) r.body in
    let came =
      ap (λ o. response_over o t graph_request) c
      ∙ response_over-Serves s t graph_request pieces h small
      ∙ p in
    (
      lines,
      ap (λ q. q >>= λ (a : HttpResponse). ok (body_lines (length a.body) a.body)) came,
      body_lines-pieced (length r.body) r.body (omega arith),
      body_lines-AreLines (length r.body) r.body,
    )
