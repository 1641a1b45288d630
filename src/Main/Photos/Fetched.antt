-- ===== src/Main/Photos/Fetched.antt =====
-- ui/main.c: the photo that fetch_photo decodes, and the posts that the program shows.
use instagram_on_nt.Prelude.{
  ℕ, zero, suc, ◌+◌, ◌*◌, ◌^◌, ◌<◌, ◌≤◌, ◌≡◌, ◌≢◌, refl, ap, ◌∙◌, arith, true, false, List, [], ◌∷◌,
  ◌++◌, Option, none, some, length, get_elem?, codes,
}
use instagram_on_nt.Prelude.Int.{pos}
use instagram_on_nt.Prelude.Result.{Result, ok, failed, out_of_fuel, ◌>>=◌, from_option}
use instagram_on_nt.Raster.{Surface}
use instagram_on_nt.Http.{HttpHeader, HttpResponse, http_build_request, put_uint}
use instagram_on_nt.Http.Response.{http_header, transfer_encoding, content_length, is_chunked}
use instagram_on_nt.Http.Response.Lines.{lacks}
use instagram_on_nt.Http.Response.Reading.{ArePlain, respond}
use instagram_on_nt.Http.Response.Framing.{http_parse_response-counted}
use instagram_on_nt.Jpeg.{Stb}
use instagram_on_nt.Jpeg.Pixels.{bytes, Shows, jpeg_decode-Shows}
use instagram_on_nt.Model.Timeline.{PrivatePost}
use instagram_on_nt.Feed.View.{FeedPost}
use instagram_on_nt.Net.{pal_tcp_connect}
use instagram_on_nt.Https.Urls.{no_slash, https_split_url-split}
use instagram_on_nt.Https.Exchange.{response_of}
use instagram_on_nt.Https.Answers.{Serves, pieced, https_request-Serves}
use instagram_on_nt.Main.Photos.{
  Peer, host_size, photo_of_answer, photo_at, fetch_photo, photo_or_null, real_post, photo_loop,
}

-- A response of the specification with status 200 and a body that its Content-Length counts.
pub record Delivers (text body : List ℕ) : Type 0 where
  pub reason : List ℕ
  pub headers : List HttpHeader
  pub extra : List ℕ
  pub sent : text ≡ respond 200 reason headers (body ++ extra)
  pub no_nul : lacks 0 reason ≡ true
  pub no_cr : lacks 13 reason ≡ true
  pub plain : ArePlain headers
  pub encoding : is_chunked (http_header headers transfer_encoding) ≡ false
  pub counted : http_header headers content_length ≡ some (put_uint (length body))
  pub small : length body < 2 ^ 31

response_of-Delivers :
    (text body : List ℕ) → Delivers text body → response_of text ≡ ok (pos 200, body)
unfolding response_of
response_of-Delivers text body d =
    ap response_of d.sent
    ∙ ap (λ r. r >>= λ (h : HttpResponse). ok (h.status, h.body))
        (http_parse_response-counted 200 d.reason d.headers (omega arith) d.no_nul d.no_cr d.plain
          body d.extra d.encoding d.counted d.small)

-- An image that stb_image makes of the data, of a size that a surface can have.
pub record IsImage (stb : Stb) (jpeg : List ℕ) (w h : ℕ) (image : List ℕ) : Type 0 where
  pub decodes : stb jpeg ≡ some (record { w = pos w; h = pos h; bytes = image })
  pub wide : 0 < w
  pub high : 0 < h
  pub small : w * h ≤ 2 ^ 28
  pub entries : bytes image ≡ true

photo_of_answer-Shows :
    (stb : Stb) (jpeg : List ℕ) (w h : ℕ) (image : List ℕ)
    → IsImage stb jpeg w h image
    → (s : Surface) × (photo_of_answer stb (pos 200, jpeg) ≡ ok s) × Shows s w h image
unfolding photo_of_answer
photo_of_answer-Shows stb jpeg w h image i =
    let d = jpeg_decode-Shows stb jpeg w h image i.decodes i.wide i.high i.small i.entries in
    (d.0, ap from_option d.1, d.2)

abbrev pub get_request : List ℕ → List ℕ → List ℕ
get_request host path = http_build_request (codes "GET") host path [] []

-- If a URL is `https://`, a host of 1 to 127 bytes without a slash and a path from a slash on, the
-- connection is made, and the peer takes a GET request for that host and path and answers it, in
-- whatever pieces, by a response with status 200 and a counted body, of which stb_image makes an
-- image of w by h pixels, none of them 0 and of at most 2^28 pixels, then fetch_photo succeeds and
-- its surface shows that image.
pub fetch_photo-Shows :
    (stb : Stb) (peer : Peer) (host path : List ℕ) (socket : ℕ) (pieces : List (List ℕ))
    (jpeg : List ℕ) (w h : ℕ) (image : List ℕ)
    → no_slash host ≡ true
    → 0 < length host
    → length host < host_size
    → (pal_tcp_connect peer.winsock).socket ≡ some socket
    → Serves peer.tls (get_request host (b'/' ∷ path)) pieces
    → Delivers (pieced pieces) jpeg
    → IsImage stb jpeg w h image
    → (s : Surface) × (fetch_photo stb peer (some (codes "https://" ++ (host ++ b'/' ∷ path)))
        ≡ ok s)
      × Shows s w h image
unfolding fetch_photo photo_at
fetch_photo-Shows stb peer host path socket pieces jpeg w h image ns long short c serves d i =
    let split = https_split_url-split host path host_size ns long short in
    let served =
      https_request-Serves peer.winsock peer.tls host (codes "GET") (b'/' ∷ path) [] [] socket
        pieces c serves in
    let shown = photo_of_answer-Shows stb jpeg w h image i in
    (
      shown.0,
      ap (photo_at stb peer) split.0
          ∙ ap (λ r. r >>= photo_of_answer stb)
              (served.1 ∙ response_of-Delivers (pieced pieces) jpeg d)
          ∙ shown.1,
      shown.2,
    )

-- The photo that is shown with a post: none where the download or its decoding has failed.
abbrev pub shown_photo : Result Surface → Option Surface
shown_photo (ok s) = some s
shown_photo failed = none
shown_photo out_of_fuel = none

photo_or_null-shown : (r : Result Surface) → r ≢ out_of_fuel → photo_or_null r ≡ ok (shown_photo r)
photo_or_null-shown (ok s) h = refl
photo_or_null-shown failed h = refl
photo_or_null-shown out_of_fuel h = absurd (h refl)

module _ (stb : Stb) (peers : ℕ → Peer) where
  -- The requests for the photos of the posts from `i` on come to an end.
  abbrev pub End : ℕ → List PrivatePost → Type 0
  End i [] = Unit {0}
  End i (p ∷ ps) = (fetch_photo stb (peers i) p.image_url ≢ out_of_fuel) × End (i + 1) ps

  -- What the posts are shown as.
  abbrev pub shown_posts : ℕ → List PrivatePost → List FeedPost
  shown_posts i [] = []
  shown_posts i (p ∷ ps) =
      real_post p (shown_photo (fetch_photo stb (peers i) p.image_url)) ∷ shown_posts (i + 1) ps

  pub photo_loop-End :
      (i : ℕ) (ps : List PrivatePost) → End i ps → photo_loop stb peers i ps ≡ ok (shown_posts i ps)
  unfolding photo_loop
  photo_loop-End i [] h = refl
  photo_loop-End i (p ∷ ps) (h, hs) =
      let photo = photo_or_null-shown (fetch_photo stb (peers i) p.image_url) h in
      let ih = photo_loop-End (i + 1) ps hs in rw (photo, ih)

  pub length-shown_posts : (i : ℕ) (ps : List PrivatePost) → length (shown_posts i ps) ≡ length ps
  length-shown_posts i [] = refl
  length-shown_posts i (p ∷ ps) = ap suc (length-shown_posts (i + 1) ps)

  pub shown_posts-at :
      (i : ℕ) (ps : List PrivatePost) (j : ℕ) (p : PrivatePost)
      → get_elem? ps j ≡ some p
      → get_elem? (shown_posts i ps) j
        ≡ some (real_post p (shown_photo (fetch_photo stb (peers (i + j)) p.image_url)))
  shown_posts-at i [] j p e = ground arith
  shown_posts-at i (q ∷ ps) zero p e =
      let k : i ≡ i + 0 = omega arith in
      let same : q ≡ p = cc in
      ap (λ r. some (real_post r (shown_photo (fetch_photo stb (peers i) r.image_url)))) same
      ∙ ap (λ n. some (real_post p (shown_photo (fetch_photo stb (peers n) p.image_url)))) k
  shown_posts-at i (q ∷ ps) (suc j) p e =
      let k : i + 1 + j ≡ i + suc j = omega arith in
      shown_posts-at (i + 1) ps j p e
      ∙ ap (λ n. some (real_post p (shown_photo (fetch_photo stb (peers n) p.image_url)))) k
