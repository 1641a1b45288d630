-- ===== src/Main/Photos.antt =====
-- ui/main.c: the download of the photos, and the two feeds that the program shows.
pub mod Fetched
use instagram_on_nt.Prelude.{
  ℕ, ◌+◌, ◌==◌, false, List, [], ◌∷◌, ◌++◌, Option, none, some, if◌then◌else◌, length, map, take,
  replicate, codes,
}
use instagram_on_nt.Prelude.Int.{ℤ, pos, eqb_ℤ}
use instagram_on_nt.Prelude.Result.{Result, ok, failed, out_of_fuel, ◌>>=◌, from_option}
use instagram_on_nt.Raster.{Surface}
use instagram_on_nt.Qoi.{qoi_decode}
use instagram_on_nt.Jpeg.{Stb, jpeg_decode}
use instagram_on_nt.Files.{Disk, pal_read_file}
use instagram_on_nt.Model.Timeline.{PrivatePost, PrivateFeed}
use instagram_on_nt.Feed.View.{FeedPost, FeedData, FeedImages}
use instagram_on_nt.Net.{Winsock}
use instagram_on_nt.Https.{https_split_url}
use instagram_on_nt.Https.Exchange.{Tls, https_request}

-- What the sockets and mbedTLS answer during one request.
pub record Peer : Type 0 where
  pub winsock : Winsock
  pub tls : Tls

abbrev pub max_real_posts : ℕ
max_real_posts = 8

-- sizeof(host)
abbrev pub host_size : ℕ
host_size = 128

-- `if (status == 200)`
unfoldable pub photo_of_answer : Stb → ℤ × List ℕ → Result Surface
unfolding jpeg_decode
photo_of_answer stb (status, body) =
    let photo = from_option (jpeg_decode stb body) in
    if eqb_ℤ status (pos 200) then photo else failed

unfoldable pub photo_at : Stb → Peer → Option (List ℕ × List ℕ) → Result Surface
unfolding https_request photo_of_answer
photo_at stb peer none = failed
photo_at stb peer (some (host, path)) =
    (https_request peer.winsock peer.tls host (codes "GET") path [] []).outcome
    >>= photo_of_answer stb

-- `failed` is the result -1.
unfoldable pub fetch_photo : Stb → Peer → Option (List ℕ) → Result Surface
unfolding photo_at https_split_url
fetch_photo stb peer none = failed
fetch_photo stb peer (some url) = photo_at stb peer (https_split_url url host_size)

-- `g_real_posts[i].photo`
abbrev pub photo_or_null : Result Surface → Result (Option Surface)
photo_or_null (ok s) = ok (some s)
photo_or_null failed = ok none
photo_or_null out_of_fuel = out_of_fuel

abbrev pub name_of : Option (List ℕ) → List ℕ
name_of none = codes "?"
name_of (some username) = username

-- `g_real_posts[i]`, whose `expanded` static storage has set to 0.
abbrev pub real_post : PrivatePost → Option Surface → FeedPost
real_post p photo = record {
  username = name_of p.username;
  caption = p.caption;
  like_count = p.like_count;
  photo = photo;
  expanded = false;
}

-- The loop from the post `i` on; `peers i` answers the request for its photo.
unfoldable pub photo_loop : Stb → (ℕ → Peer) → ℕ → List PrivatePost → Result FeedData
unfolding fetch_photo
photo_loop stb peers i [] = ok []
photo_loop stb peers i (p ∷ ps) =
    let rest = photo_loop stb peers (i + 1) ps in
    photo_or_null (fetch_photo stb (peers i) p.image_url) >>= λ photo.
    rest >>= λ posts. ok (real_post p photo ∷ posts)

-- What load_real_feed makes of a feed; `failed` is the result 0.
unfoldable pub real_feed_of : Stb → (ℕ → Peer) → PrivateFeed → Result FeedData
unfolding photo_loop
real_feed_of stb peers feed =
    let posts = photo_loop stb peers 0 (take max_real_posts feed.posts) in
    if length feed.posts == 0 then failed else posts

-- `names`
abbrev pub photo_names : List (List ℕ)
photo_names =
    codes "D:\\sunset.qoi"
    ∷ codes "D:\\ocean.qoi"
    ∷ codes "D:\\forest.qoi"
    ∷ codes "D:\\city.qoi"
    ∷ []

abbrev pub decoded_file : Option (List ℕ) → Option Surface
decoded_file none = none
decoded_file (some buf) = qoi_decode buf

-- g_mock_imgs.photos, of which static storage has set all to NULL.
unfoldable pub load_mock_photos : (List ℕ → Disk) → FeedImages
unfolding pal_read_file qoi_decode
load_mock_photos disk =
    map (λ name. decoded_file (pal_read_file disk name)) photo_names ++ replicate 4 none
