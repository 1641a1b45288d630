-- ===== src/Client.antt =====
-- net/ig_client.c: the fetch of the private timeline. The host and the path, which
-- vm/ig_session_private.h defines, are parameters.
pub mod Fetched
pub mod Program
pub mod Agreement
use instagram_on_nt.Prelude.{
  ℕ, ◌+◌, ◌==◌, List, [], ◌∷◌, Option, none, some, if◌then◌else◌, length, codes,
}
use instagram_on_nt.Prelude.Int.{ℤ, pos, eqb_ℤ}
use instagram_on_nt.Prelude.Result.{Result, ok, failed, out_of_fuel, ◌>>=◌}
use instagram_on_nt.Http.{HttpHeader}
use instagram_on_nt.Model.Timeline.{PrivateFeed, feed_from_private_json}
use instagram_on_nt.Net.{Winsock}
use instagram_on_nt.Https.Exchange.{Tls, https_request}
use instagram_on_nt.Private.{Fresh, ig_build_headers, ig_fresh_headers_count}
use instagram_on_nt.Private.Body.{Session, ig_build_timeline_body}

-- What vm/ig_session_private.h defines.
pub record Baked : Type 0 where
  pub host : List ℕ
  pub path : List ℕ
  pub headers : List HttpHeader
  pub session : Session

-- IG_FRESH_SCRATCH_BYTES
abbrev pub ig_fresh_scratch_bytes : ℕ
ig_fresh_scratch_bytes = 256

abbrev pub timeline_headers : Baked → Fresh → List HttpHeader
timeline_headers k f =
    ig_build_headers k.headers f (length k.headers + ig_fresh_headers_count) ig_fresh_scratch_bytes

-- `if (status == 200)`
unfoldable pub feed_of_answer : ℤ × List ℕ → Result PrivateFeed
unfolding feed_from_private_json
feed_of_answer (status, resp) =
    let feed = feed_from_private_json resp in if eqb_ℤ status (pos 200) then feed else failed

-- `if (!body)`
unfoldable pub fetch_with : Winsock → Tls → Baked → Fresh → Option (List ℕ) → Result PrivateFeed
unfolding https_request feed_of_answer ig_build_headers
fetch_with w t k f none = failed
fetch_with w t k f (some body) =
    (https_request w t k.host (codes "POST") k.path (timeline_headers k f) body).outcome
    >>= feed_of_answer

-- `failed` is NULL; `buf` is what the buffer of the body held before.
unfoldable pub ig_fetch_timeline : Winsock → Tls → Baked → Fresh → List ℕ → Result PrivateFeed
unfolding fetch_with ig_build_timeline_body
ig_fetch_timeline w t k f buf =
    fetch_with w t k f (ig_build_timeline_body buf k.session f.now_ms f.sound)
