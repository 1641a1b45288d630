-- ===== src/Client/Agreement.antt =====
-- The bring-up program of net/ig_feed_main.c against ig_fetch_timeline of net/ig_client.c.
use instagram_on_nt.Prelude.{
  ℕ, zero, suc, ◌-◌, ◌*◌, ◌≡◌, refl, sym, ap, ◌∙◌, arith, leb, if◌then◌else◌, length, take, drop,
  List, [], ◌∷◌, ◌++◌, Option, none, some, codes,
}
use instagram_on_nt.Prelude.Int.{ℤ, pos, pos_part}
use instagram_on_nt.Prelude.Result.{Result, ok, failed, out_of_fuel, ◌>>=◌, from_option}
use instagram_on_nt.Http.{HttpResponse, http_build_request}
use instagram_on_nt.Http.Response.{http_parse_response}
use instagram_on_nt.Model.Timeline.{PrivateFeed}
use instagram_on_nt.Net.{Winsock, Connection, Sent, pal_net_init, pal_tcp_connect}
use instagram_on_nt.Https.Exchange.{
  Tls, Read, got, stopped, kept, grown, check, handshake_loop, read_loop, read_rounds,
  recv_initial_cap, response_of, write_loop, converse, exchange, after_setup, request_on,
  https_request,
}
use instagram_on_nt.Https.Reading.{read_loop-drain}
use instagram_on_nt.Private.{Fresh}
use instagram_on_nt.Private.Body.{ig_build_timeline_body}
use instagram_on_nt.Client.{Baked, timeline_headers, feed_of_answer, fetch_with, ig_fetch_timeline}
use instagram_on_nt.Client.Program.{
  feed_initial_cap, feed_handshake_loop, feed_write_loop, feed_read_loop, feed_handshake,
  feed_of_response, feed_answer, feed_received, feed_connected, post_lines, ig_feed_main,
}

pub feed_handshake_loop-same : (rcs : List ℤ) → feed_handshake_loop rcs ≡ handshake_loop rcs
unfolding feed_handshake_loop handshake_loop
feed_handshake_loop-same [] = refl
feed_handshake_loop-same (rc ∷ rcs) = rw (feed_handshake_loop-same rcs) refl

feed_write_loop-same : (ns : List ℤ) (p : List ℕ) → feed_write_loop ns p ≡ write_loop ns p
unfolding feed_write_loop write_loop
feed_write_loop-same ns [] = refl
feed_write_loop-same [] (c ∷ p) = refl
feed_write_loop-same (n ∷ ns) (c ∷ p) =
    rw (feed_write_loop-same ns (drop (pos_part n) (c ∷ p))) refl

feed_read_loop-same :
    (fuel : ℕ) (rs : List Read) (cap : ℕ) (buf : List ℕ)
    → feed_read_loop fuel rs cap buf ≡ read_loop fuel rs cap buf
unfolding feed_read_loop read_loop grown
feed_read_loop-same zero rs cap buf = refl
feed_read_loop-same (suc fuel) [] cap buf = refl
feed_read_loop-same (suc fuel) (stopped code ∷ rs) cap buf = refl
feed_read_loop-same (suc fuel) (got s ∷ rs) cap buf =
    let cap' = if leb cap (length buf) then cap * 2 else cap in
    let room = cap' - length buf in
    rw (feed_read_loop-same fuel (kept room s rs) cap' (buf ++ take room s)) refl

-- The two programs read the same bytes, though their buffers differ in size.
feed_read_loop-read_loop :
    (rs : List Read)
    → feed_read_loop (read_rounds rs) rs feed_initial_cap []
      ≡ read_loop (read_rounds rs) rs recv_initial_cap []
feed_read_loop-read_loop rs =
    feed_read_loop-same (read_rounds rs) rs feed_initial_cap []
    ∙ read_loop-drain (read_rounds rs) rs feed_initial_cap [] (omega arith) (omega arith)
        (omega arith)
    ∙ sym (
        read_loop-drain (read_rounds rs) rs recv_initial_cap [] (omega arith) (omega arith)
          (omega arith))

bind_assoc :
    {A B C : Type 0} (r : Result A) (g : A → Result B) (h : B → Result C)
    → (r >>= g >>= h) ≡ (r >>= λ a. g a >>= h)
bind_assoc (ok a) g h = refl
bind_assoc failed g h = refl
bind_assoc out_of_fuel g h = refl

response_of-feed_answer : (buf : List ℕ) → (response_of buf >>= feed_of_answer) ≡ feed_answer buf
unfolding response_of feed_answer feed_of_answer feed_of_response
response_of-feed_answer [] = refl
response_of-feed_answer (c ∷ buf) =
    bind_assoc (http_parse_response (c ∷ buf)) (λ (r : HttpResponse). ok (r.status, r.body))
      feed_of_answer

converse-received :
    (t : Tls) (req : List ℕ) → ((converse t req).outcome >>= feed_of_answer) ≡ feed_received t req
unfolding converse feed_received
converse-received t req =
    let sent = (write_loop t.writes req).outcome in
    let received = read_loop (read_rounds t.reads) t.reads recv_initial_cap [] in
    bind_assoc sent (λ _. received >>= response_of) feed_of_answer
    ∙ ap (λ r. sent >>= λ _. r) (bind_assoc received response_of feed_of_answer)
    ∙ (λ i. sent >>= λ _. received >>= λ buf. response_of-feed_answer buf i)
    ∙ ap (λ r. sent >>= λ _. r >>= feed_answer) (sym (feed_read_loop-read_loop t.reads))
    ∙ ap
        (λ (w : Sent). w.outcome >>= λ _.
          feed_read_loop (read_rounds t.reads) t.reads feed_initial_cap [] >>= feed_answer)
        (sym (feed_write_loop-same t.writes req))

after_setup-received :
    (t : Tls) (req : List ℕ) (r : Result (Unit {0}))
    → ((after_setup r (converse t req)).outcome >>= feed_of_answer)
      ≡ (r >>= λ _. feed_received t req)
after_setup-received t req (ok u) = converse-received t req
after_setup-received t req failed = refl
after_setup-received t req out_of_fuel = refl

-- The same with the loop of https_request.
abbrev set_up : Tls → Result (Unit {0})
set_up t = check t.seed >>= λ _. check t.crt_parse >>= λ _. check t.config_defaults >>= λ _.
    check t.setup >>= λ _. check t.set_hostname >>= λ _. handshake_loop t.handshake

feed_handshake-set_up : (t : Tls) → feed_handshake t ≡ set_up t
unfolding feed_handshake
feed_handshake-set_up t =
    ap
      (λ h. check t.seed >>= λ _. check t.crt_parse >>= λ _.
        check t.config_defaults >>= λ _. check t.setup >>= λ _. check t.set_hostname >>= λ _. h)
      (feed_handshake_loop-same t.handshake)

connected-received :
    (c : Connection) (o : Option ℕ) (t : Tls) (k : Baked) (f : Fresh) (buf body : List ℕ)
    → ig_build_timeline_body buf k.session f.now_ms f.sound ≡ some body
    → feed_connected o t k f buf ≡ (
        (request_on c o t
          (http_build_request (codes "POST") k.host k.path (timeline_headers k f) body)).outcome
        >>= feed_of_answer)
unfolding feed_connected request_on exchange
connected-received c none t k f buf body e = refl
connected-received c (some s) t k f buf body e =
    let request = λ (text : List ℕ).
      http_build_request (codes "POST") k.host k.path (timeline_headers k f) text in
    ap
      (λ (o : Option (List ℕ)).
        feed_handshake t >>= λ _. from_option o >>= λ text. feed_received t (request text))
      e
    ∙ ap (λ h. h >>= λ _. feed_received t (request body)) (feed_handshake-set_up t)
    ∙ sym (after_setup-received t (request body) (set_up t))

-- If the sockets start and the body of the request fits its buffer, the bring-up program, with loops
-- and a buffer of its own, logs for the same answers the line of each post, in order, of the feed that
-- ig_fetch_timeline returns, and no feed where it returns none; it ends where ig_fetch_timeline ends.
pub ig_feed_main-ig_fetch_timeline :
    (w : Winsock) (t : Tls) (k : Baked) (f : Fresh) (buf body : List ℕ)
    → ig_build_timeline_body buf k.session f.now_ms f.sound ≡ some body
    → ig_feed_main (pos 0) w t k f buf
      ≡ (ig_fetch_timeline w t k f buf >>= λ feed. ok (post_lines 0 feed.posts))
unfolding ig_feed_main ig_fetch_timeline pal_net_init https_request
ig_feed_main-ig_fetch_timeline w t k f buf body e =
    let c = pal_tcp_connect w in
    ap (λ (r : Result PrivateFeed). r >>= λ feed. ok (post_lines 0 feed.posts))
      (connected-received c c.socket t k f buf body e ∙ sym (ap (fetch_with w t k f) e))
