-- ===== src/Client/Program.antt =====
-- net/ig_feed_main.c: the bring-up program that fetches the timeline with loops of its own. Of its log
-- the lines about the posts are modelled.
use instagram_on_nt.Prelude.{
  ℕ, zero, suc, ◌+◌, ◌-◌, ◌*◌, ◌==◌, ◌||◌, Bool, true, false, leb, length, take, drop, List, [],
  ◌∷◌, ◌++◌, Option, none, some, if◌then◌else◌, codes,
}
use instagram_on_nt.Prelude.Int.{ℤ, pos, pos_part, ltb_ℤ, eqb_ℤ}
use instagram_on_nt.Prelude.Result.{Result, ok, failed, out_of_fuel, ◌>>=◌, from_option}
use instagram_on_nt.Http.{HttpResponse, http_build_request}
use instagram_on_nt.Http.Response.{http_parse_response}
use instagram_on_nt.Model.Timeline.{PrivatePost, PrivateFeed, feed_from_private_json}
use instagram_on_nt.Net.{Winsock, Sent, after_bytes, pal_net_init, pal_tcp_connect}
use instagram_on_nt.Https.Exchange.{
  Tls, Read, got, stopped, kept, read_rounds, want_read, want_write, check,
}
use instagram_on_nt.Private.{Fresh}
use instagram_on_nt.Private.Body.{ig_build_timeline_body}
use instagram_on_nt.Client.{Baked, timeline_headers}

-- RECV_INITIAL_CAP of this program
abbrev pub feed_initial_cap : ℕ
feed_initial_cap = 128 * 1024

unfoldable pub feed_handshake_loop : List ℤ → Result (Unit {0})
feed_handshake_loop [] = out_of_fuel
feed_handshake_loop (rc ∷ rcs) =
    let rest = feed_handshake_loop rcs in
    if eqb_ℤ rc (pos 0)
    then ok tt
    else if eqb_ℤ rc want_read || eqb_ℤ rc want_write
    then rest
    else failed

-- From the seed to the end of the handshake.
unfoldable pub feed_handshake : Tls → Result (Unit {0})
unfolding feed_handshake_loop
feed_handshake t = check t.seed >>= λ _. check t.crt_parse >>= λ _. check t.config_defaults >>= λ _.
    check t.setup >>= λ _. check t.set_hostname >>= λ _. feed_handshake_loop t.handshake

unfoldable pub feed_write_loop : List ℤ → List ℕ → Sent
feed_write_loop ns [] = record { wire = []; outcome = ok tt }
feed_write_loop [] (c ∷ p) = record { wire = []; outcome = out_of_fuel }
feed_write_loop (n ∷ ns) (c ∷ p) =
    let k = pos_part n in
    let rest = after_bytes (take k (c ∷ p)) (feed_write_loop ns (drop k (c ∷ p))) in
    if ltb_ℤ n (pos 0) then record { wire = []; outcome = failed } else rest

-- The read loop, with the growth of the buffer at the head of a round.
unfoldable pub feed_read_loop : ℕ → List Read → ℕ → List ℕ → Result (List ℕ)
feed_read_loop zero rs cap buf = out_of_fuel
feed_read_loop (suc fuel) [] cap buf = out_of_fuel
feed_read_loop (suc fuel) (stopped code ∷ rs) cap buf = ok buf
feed_read_loop (suc fuel) (got s ∷ rs) cap buf =
    let cap' = if leb cap (length buf) then cap * 2 else cap in
    let room = cap' - length buf in
    let rest = feed_read_loop fuel (kept room s rs) cap' (buf ++ take room s) in
    if length (take room s) == 0 then ok buf else rest

-- `if (resp.status == 200)`
unfoldable pub feed_of_response : HttpResponse → Result PrivateFeed
unfolding feed_from_private_json
feed_of_response resp =
    let feed = feed_from_private_json resp.body in
    if eqb_ℤ resp.status (pos 200) then feed else failed

-- `if (buf && total > 0)`
unfoldable pub feed_answer : List ℕ → Result PrivateFeed
unfolding http_parse_response feed_of_response
feed_answer [] = failed
feed_answer (c ∷ buf) = http_parse_response (c ∷ buf) >>= feed_of_response

-- From the writing of the request on.
unfoldable pub feed_received : Tls → List ℕ → Result PrivateFeed
unfolding feed_write_loop feed_read_loop read_rounds feed_answer
feed_received t req = (feed_write_loop t.writes req).outcome >>= λ _.
    feed_read_loop (read_rounds t.reads) t.reads feed_initial_cap [] >>= feed_answer

-- From the connection on.
unfoldable pub feed_connected : Option ℕ → Tls → Baked → Fresh → List ℕ → Result PrivateFeed
unfolding feed_handshake feed_received ig_build_timeline_body http_build_request
feed_connected none t k f buf = failed
feed_connected (some s) t k f buf = feed_handshake t >>= λ _.
    from_option (ig_build_timeline_body buf k.session f.now_ms f.sound) >>= λ body.
    feed_received t (http_build_request (codes "POST") k.host k.path (timeline_headers k f) body)

-- What is logged of a post: its line, and the caption if there is one.
pub record PostLine : Type 0 where
  pub index : ℕ
  pub name : List ℕ
  pub media_type : ℤ
  pub slides : ℕ
  pub likes : ℤ
  pub has_image : Bool
  pub caption : Option (List ℕ)

abbrev pub name_or_mark : Option (List ℕ) → List ℕ
name_or_mark none = codes "?"
name_or_mark (some username) = username

abbrev pub is_given : Option (List ℕ) → Bool
is_given none = false
is_given (some url) = true

-- The lines of the posts from the index `i` on.
unfoldable pub post_lines : ℕ → List PrivatePost → List PostLine
post_lines i [] = []
post_lines i (p ∷ ps) =
    record {
      index = i;
      name = name_or_mark p.username;
      media_type = p.media_type;
      slides = p.num_slides;
      likes = p.like_count;
      has_image = is_given p.image_url;
      caption = p.caption;
    }
    ∷ post_lines (i + 1) ps

-- `failed` is that no feed is logged.
unfoldable pub ig_feed_main : ℤ → Winsock → Tls → Baked → Fresh → List ℕ → Result (List PostLine)
unfolding pal_net_init pal_tcp_connect feed_connected post_lines
ig_feed_main wsa w t k f buf =
    let logged = feed_connected (pal_tcp_connect w).socket t k f buf >>= λ feed.
    ok (post_lines 0 feed.posts) in
    if eqb_ℤ (pal_net_init wsa) (pos 0) then logged else failed
