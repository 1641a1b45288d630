-- ===== src/Tests/Boot.antt =====
-- The start of the program against a server that sends one post and its photo.
use instagram_on_nt.Prelude.{
  ℕ, ◌≡◌, ◌≢◌, refl, ap, ◌∙◌, arith, false, append-nil, List, [], ◌∷◌, ◌++◌, none, some, codes,
}
use instagram_on_nt.Prelude.Int.{pos}
use instagram_on_nt.Prelude.Result.{ok, failed, out_of_fuel}
use instagram_on_nt.Raster.{Surface}
use instagram_on_nt.Http.{HttpHeader, put_uint, put_digits, ci_eq, lower, skip_blanks, is_blank}
use instagram_on_nt.Http.Response.{http_header}
use instagram_on_nt.Http.Response.Lines.{lacks}
use instagram_on_nt.Http.Response.Reading.{IsPlain, respond}
use instagram_on_nt.Http.Chunks.Encoding.{chunked, concat}
use instagram_on_nt.Json.{Value, arr, obj, str, no_items, item, no_fields, field}
use instagram_on_nt.Json.Access.{
  json_get, get_field, str_eq, bytes_eq, c_string, json_at, nth_item, items_count, json_count,
  json_get_str, json_get_int, json_string, json_int,
}
use instagram_on_nt.Json.Depth.{depth_of}
use instagram_on_nt.Json.Print.{print}
use instagram_on_nt.Json.Print.Strings.{quote, escaped}
use instagram_on_nt.Model.{dup_str}
use instagram_on_nt.Model.Timeline.{
  PrivateFeed, private_feed_of, private_loop, private_post_of, media_of, first_image_url,
}
use instagram_on_nt.Feed.View.{FeedData}
use instagram_on_nt.Net.{
  refused, pal_tcp_connect, resolve_host, connect_socket, connect_with_timeout,
}
use instagram_on_nt.Https.Exchange.{https_request}
use instagram_on_nt.Client.{ig_fetch_timeline, fetch_with}
use instagram_on_nt.Client.Fetched.{Answers, ig_fetch_timeline-feed}
use instagram_on_nt.Jpeg.{Stb, jpeg_decode}
use instagram_on_nt.Jpeg.Pixels.{bytes, Shows, jpeg_decode-Shows}
use instagram_on_nt.Https.Urls.{no_slash}
use instagram_on_nt.Https.Answers.{pieced, Serves}
use instagram_on_nt.Main.Photos.{Peer, fetch_photo}
use instagram_on_nt.Main.Photos.Fetched.{Delivers, IsImage, End, get_request, fetch_photo-Shows}
use instagram_on_nt.Main.Boot.{Machine, real, boot}
use instagram_on_nt.Main.Boot.Feeds.{
  timeline_of, first_posts, ShowsFeed, ShowsSome, boot-feed, boot-ShowsSome,
}
use instagram_on_nt.Tests.Session.{
  baked, fresh, empty_buffer, request, request_body, request_body_built, encoding, encoding-IsPlain,
  winsock, socket_5, tls_of, tls_of-Serves, pieces_of, pieces_of-pieced,
}

-- An image of one row with two pixels, whatever the data.
abbrev image : List ℕ
image = 1 ∷ 2 ∷ 3 ∷ 255 ∷ 40 ∷ 50 ∷ 60 ∷ 255 ∷ []

abbrev stb : Stb
stb jpeg = some (record { w = pos 2; h = pos 1; bytes = image })

abbrev jpeg : List ℕ
jpeg = codes "JFIF"

jpeg_decode-Shows_example : (s : Surface) × (jpeg_decode stb jpeg ≡ some s) × Shows s 2 1 image
unfolding bytes
jpeg_decode-Shows_example =
    jpeg_decode-Shows stb jpeg 2 1 image refl (omega arith) (omega arith) (omega arith) refl

abbrev host : List ℕ
host = codes "cdn.example"

abbrev path : List ℕ
path = codes "p.jpg"

abbrev url : List ℕ
url = codes "https://" ++ (host ++ b'/' ∷ path)

abbrev length_header : HttpHeader
length_header = record { name = codes "Content-Length"; value = codes "4" }

abbrev answer : List ℕ
answer = respond 200 (codes "OK") (length_header ∷ []) (jpeg ++ [])

abbrev photo_request : List ℕ
photo_request = get_request host (b'/' ∷ path)

abbrev photo_peer : Peer
photo_peer = record { winsock = winsock; tls = tls_of photo_request answer }

photo_peer-Serves : Serves photo_peer.tls photo_request (pieces_of answer)
unfolding put_uint put_digits
photo_peer-Serves = tls_of-Serves photo_request answer (refl, (refl, tt))

length_header-IsPlain : IsPlain length_header
unfolding lacks skip_blanks is_blank
length_header-IsPlain = record {
  name_nul = refl;
  name_cr = refl;
  name_colon = refl;
  value_nul = refl;
  value_cr = refl;
  value_front = refl;
}

answer-Delivers : Delivers (pieced (pieces_of answer)) jpeg
unfolding lacks http_header ci_eq lower put_uint put_digits
answer-Delivers = record {
  reason = codes "OK";
  headers = length_header ∷ [];
  extra = [];
  sent = pieces_of-pieced answer;
  no_nul = refl;
  no_cr = refl;
  plain = (length_header-IsPlain, tt);
  encoding = refl;
  counted = refl;
  small = omega arith;
}

jpeg-IsImage : IsImage stb jpeg 2 1 image
unfolding bytes
jpeg-IsImage = record {
  decodes = refl;
  wide = omega arith;
  high = omega arith;
  small = omega arith;
  entries = refl;
}

fetch_photo-Shows_example :
    (s : Surface) × (fetch_photo stb photo_peer (some url) ≡ ok s) × Shows s 2 1 image
unfolding no_slash
fetch_photo-Shows_example =
    fetch_photo-Shows stb photo_peer host path 5 (pieces_of answer) jpeg 2 1 image refl
      (omega arith) (omega arith) socket_5 photo_peer-Serves answer-Delivers jpeg-IsImage

-- The feed: one post, whose photo stands at the URL.
abbrev post : Value
post = obj (
    field (codes "user") (obj (field (codes "username") (str (codes "ann")) no_fields)) (
      field (codes "image_versions2")
        (obj (
          field (codes "candidates")
            (arr (item (obj (field (codes "url") (str url) no_fields)) no_items)) no_fields))
        no_fields))

abbrev timeline : Value
timeline = obj (
    field (codes "feed_items")
      (arr (item (obj (field (codes "media_or_ad") post no_fields)) no_items)) no_fields)

abbrev feed : PrivateFeed
feed = record {
  posts =
      record {
        username = some (codes "ann");
        caption = none;
        like_count = pos 0;
        media_type = pos 0;
        image_url = some url;
        num_slides = 0;
      }
      ∷ [];
  next_max_id = none;
}

feed_lem : private_feed_of (some timeline) ≡ feed
unfolding private_feed_of private_loop private_post_of media_of first_image_url dup_str json_get
    get_field str_eq bytes_eq c_string json_at nth_item items_count json_count json_get_str
    json_get_int json_string json_int
feed_lem = refl

abbrev timeline_answer : List ℕ
timeline_answer = respond 200 (codes "OK") (encoding ∷ []) (chunked (print timeline ∷ []))

abbrev machine : Machine
machine = record {
  wsa_startup = pos 0;
  timeline = record { winsock = winsock; tls = tls_of request timeline_answer };
  photos = λ i. photo_peer;
  baked = baked;
  fresh = fresh;
  buf = empty_buffer;
  stb = stb;
  disk = λ name. record { opened = false; size = 0; read = false; got = [] };
}

timeline_answer-Serves : Serves machine.timeline.tls request (pieces_of timeline_answer)
unfolding put_uint put_digits
timeline_answer-Serves = tls_of-Serves request timeline_answer (refl, (refl, tt))

timeline_answer-Answers : Answers (pieced (pieces_of timeline_answer)) timeline
unfolding lacks http_header ci_eq lower print concat quote escaped
timeline_answer-Answers = record {
  reason = codes "OK";
  headers = encoding ∷ [];
  chunks = print timeline ∷ [];
  sent = pieces_of-pieced timeline_answer;
  no_nul = refl;
  no_cr = refl;
  plain = (encoding-IsPlain, tt);
  encoding = refl;
  sized = (omega arith, omega arith, tt);
  json = append-nil (print timeline);
}

machine_timeline : timeline_of machine ≡ ok feed
unfolding depth_of
machine_timeline =
    ig_fetch_timeline-feed winsock machine.timeline.tls baked fresh empty_buffer 5 request_body
      (pieces_of timeline_answer) timeline request_body_built socket_5 timeline_answer-Serves
      timeline_answer-Answers (((((tt, tt), ((((tt, tt), tt), tt), tt)), tt), tt), tt) (omega arith)
    ∙ ap ok feed_lem

fetched_ends : fetch_photo stb photo_peer (some url) ≢ out_of_fuel
unfolding no_slash
fetched_ends e =
    let shown =
      fetch_photo-Shows stb photo_peer host path 5 (pieces_of answer) jpeg 2 1 image refl
        (omega arith) (omega arith) socket_5 photo_peer-Serves answer-Delivers jpeg-IsImage in
    let found = shown.1 in ground arith

machine-End : End stb machine.photos 0 (first_posts feed)
machine-End = (fetched_ends, tt)

boot-feed_example :
    (posts : FeedData) × (boot machine ≡ ok (real posts)) × ShowsFeed machine feed posts
boot-feed_example = boot-feed machine feed refl machine_timeline (omega arith) machine-End

-- A server that refuses the connection.
abbrev offline : Machine
offline = record machine {
  timeline = record {
    winsock = record winsock { connect = refused };
    tls = tls_of request timeline_answer;
  };
}

offline_timeline : timeline_of offline ≡ failed
unfolding https_request pal_tcp_connect resolve_host connect_socket connect_with_timeout
    ig_fetch_timeline fetch_with
offline_timeline = refl

boot-ShowsSome_example : ShowsSome offline
boot-ShowsSome_example =
    boot-ShowsSome offline (λ e. let t = offline_timeline in ground arith)
      (λ f e. let t = offline_timeline in ground arith)
