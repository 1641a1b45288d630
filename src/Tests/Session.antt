-- ===== src/Tests/Session.antt =====
-- A session, a request for its timeline, and a server that answers requests.
use instagram_on_nt.Prelude.{
  ℕ, zero, suc, ◌-◌, ◌≡◌, refl, ap, ◌∙◌, arith, false, Bool, List, [], ◌∷◌, ◌++◌, Option, none,
  some, length, codes, replicate, length-replicate, append-nil, take-append-drop, drop, leb,
  if◌then◌else◌, take, inl, inr,
}
use mathlib.Core.Path.{subst}
use instagram_on_nt.Prelude.Int.{pos, neg}
use instagram_on_nt.Http.{HttpHeader, http_build_request, skip_blanks, is_blank}
use instagram_on_nt.Http.Response.Lines.{lacks}
use instagram_on_nt.Http.Response.Reading.{IsPlain as IsPlainHeader}
use instagram_on_nt.Platform.{printed, content_cap}
use instagram_on_nt.Net.{
  Winsock, connected, pal_tcp_connect, resolve_host, connect_socket, connect_with_timeout,
}
use instagram_on_nt.Https.Exchange.{Tls, got, stopped, want_read, want_write}
use instagram_on_nt.Https.Answers.{Serves, Takes, Gives, pieced}
use instagram_on_nt.Private.{Fresh, ig_rand_range}
use instagram_on_nt.Private.Body.{
  Session, body_pieces, body_entries, entries_pieces, entry_pieces, time_text, printed_int,
  body_room, ig_build_timeline_body,
}
use instagram_on_nt.Private.Texts.{joined, ig_build_timeline_body-joined}
use instagram_on_nt.Private.Members.{is_plain}
use instagram_on_nt.Private.Parsed.{IsPlain}
use instagram_on_nt.Client.{Baked, timeline_headers}

abbrev pub session : Session
session = record {
  has_camera_permission = codes "1";
  feed_view_info = [];
  client_seen_store_media_list = [];
  client_view_state_media_list = [];
  device_timezone_name = codes "Asia/Seoul";
  feed_reshare_info = [];
  phone_id = codes "p";
  reason = codes "cold_start_fetch";
  battery_level = 100;
  timezone_offset = codes "32400";
  device_id = [];
  include_attribution_ui_data = [];
  push_disabled = [];
  request_id = [];
  uuid = [];
  is_charging = 1;
  is_dark_mode = 0;
  session_id = [];
  session_level_signals = [];
  bloks_versioning_id = [];
  is_pull_to_refresh = codes "0";
}

pub session-IsPlain : IsPlain session
unfolding is_plain
session-IsPlain = record {
  has_camera_permission = refl;
  feed_view_info = refl;
  client_seen_store_media_list = refl;
  client_view_state_media_list = refl;
  device_timezone_name = refl;
  feed_reshare_info = refl;
  phone_id = refl;
  reason = refl;
  battery_level = omega arith;
  timezone_offset = refl;
  device_id = refl;
  include_attribution_ui_data = refl;
  push_disabled = refl;
  request_id = refl;
  uuid = refl;
  is_charging = omega arith;
  is_dark_mode = omega arith;
  session_id = refl;
  session_level_signals = refl;
  bloks_versioning_id = refl;
  is_pull_to_refresh = refl;
}

abbrev pub empty_buffer : List ℕ
empty_buffer = replicate body_room 0

abbrev pub dice : Option (List ℕ)
dice = some (7 ∷ 0 ∷ 0 ∷ 0 ∷ [])

abbrev pub request_body : List ℕ
request_body = joined (body_pieces session (time_text 1000) (ig_rand_range dice 0 1))

short_body : leb body_room (length request_body) ≡ false
unfolding body_pieces body_entries entries_pieces entry_pieces time_text printed_int ig_rand_range
    printed content_cap
short_body = refl

pub buffer_length : length empty_buffer ≡ body_room
buffer_length = length-replicate {A = ℕ} body_room 0

pub request_body_built : ig_build_timeline_body empty_buffer session 1000 dice ≡ some request_body
request_body_built =
    ig_build_timeline_body-joined empty_buffer session 1000 dice buffer_length
    ∙ ap (λ (b : Bool). if b then none else some request_body) short_body

abbrev pub fresh : Fresh
fresh = record {
  uuid = none;
  speed = dice;
  speed_part = dice;
  total_bytes = dice;
  total_time = dice;
  salt = dice;
  latency = dice;
  sound = dice;
  now_ms = 1000;
}

abbrev pub baked : Baked
baked = record {
  host = codes "i.instagram.com";
  path = codes "/feed";
  headers = record { name = codes "Accept-Encoding"; value = codes "gzip" } ∷ [];
  session = session;
}

abbrev pub winsock : Winsock
winsock = record {
  inet_addr = 16777343;
  gethostbyname = none;
  created = some 5;
  connect = connected;
  selected = (pos 0, false);
}

pub socket_5 : (pal_tcp_connect winsock).socket ≡ some 5
unfolding pal_tcp_connect resolve_host connect_socket connect_with_timeout
socket_5 = refl

abbrev pub request : List ℕ
request =
    http_build_request (codes "POST") baked.host baked.path (timeline_headers baked fresh)
      request_body

abbrev pub encoding : HttpHeader
encoding = record { name = codes "Transfer-Encoding"; value = codes "chunked" }

abbrev pub pieces_of : List ℕ → List (List ℕ)
pieces_of answer = take 9 answer ∷ drop 9 answer ∷ []

-- A peer that takes a request in one write and gives an answer in two pieces.
abbrev pub tls_of : List ℕ → List ℕ → Tls
tls_of req answer = record {
  seed = pos 0;
  crt_parse = pos 0;
  config_defaults = pos 0;
  setup = pos 0;
  set_hostname = pos 0;
  handshake = want_read ∷ want_write ∷ pos 0 ∷ [];
  writes = pos (length req) ∷ [];
  reads = got (take 9 answer) ∷ got (drop 9 answer) ∷ stopped (neg 0x7880) ∷ [];
}

pub Takes-all : (n : ℕ) → Takes (pos n ∷ []) n
Takes-all zero = tt
Takes-all (suc n) =
    let e : 0 ≡ suc n - suc n = omega arith in (refl, omega arith, subst (Takes []) e tt)

pub tls_of-Serves :
    (req answer : List ℕ)
    → Gives (tls_of req answer).reads (pieces_of answer)
    → Serves (tls_of req answer) req (pieces_of answer)
tls_of-Serves req answer gives = record {
  seed = refl;
  crt_parse = refl;
  config_defaults = refl;
  setup = refl;
  set_hostname = refl;
  shakes = inr (inl refl, inr (inr refl, inl refl));
  takes = Takes-all (length req);
  gives = gives;
}

pub pieces_of-pieced : (answer : List ℕ) → pieced (pieces_of answer) ≡ answer
pieces_of-pieced answer =
    ap (λ t. take 9 answer ++ t) (append-nil (drop 9 answer)) ∙ take-append-drop 9 answer

pub encoding-IsPlain : IsPlainHeader encoding
unfolding lacks skip_blanks is_blank
encoding-IsPlain = record {
  name_nul = refl;
  name_cr = refl;
  name_colon = refl;
  value_nul = refl;
  value_cr = refl;
  value_front = refl;
}
