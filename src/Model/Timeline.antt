-- ===== src/Model/Timeline.antt =====
-- core/model_private.c: a timeline of the private interface as a feed.
use instagram_on_nt.Prelude.{
  ℕ, zero, suc, ◌+◌, List, [], ◌∷◌, Option, some, ltb, if◌then◌else◌, codes,
}
use instagram_on_nt.Prelude.Int.{ℤ, pos}
use instagram_on_nt.Prelude.Result.{Result, ok, ◌>>=◌}
use instagram_on_nt.Json.{Value, json_parse}
use instagram_on_nt.Json.Access.{json_get, json_at, json_count, json_get_str, json_get_int}
use instagram_on_nt.Model.{dup_str, copy_of, is_object}

pub record PrivatePost : Type 0 where
  pub username : Option (List ℕ)
  pub caption : Option (List ℕ)
  pub like_count : ℤ
  pub media_type : ℤ
  pub image_url : Option (List ℕ)
  pub num_slides : ℕ

pub record PrivateFeed : Type 0 where
  pub posts : List PrivatePost
  pub next_max_id : Option (List ℕ)

unfoldable pub first_image_url : Option Value → Option (List ℕ)
unfolding json_get json_at json_get_str
first_image_url node =
    let cands = json_get (json_get node (codes "image_versions2")) (codes "candidates") in
    json_get_str (json_at cands (pos 0)) (codes "url")

-- What the loop's body writes for the object `m`.
unfoldable pub private_post_of : Option Value → PrivatePost
unfolding first_image_url dup_str json_get json_at json_count json_get_str json_get_int
private_post_of m =
    let carousel = json_get m (codes "carousel_media") in
    let nslides = json_count carousel in
    let cover = if ltb 0 nslides then json_at carousel (pos 0) else m in
    record {
      username = copy_of (json_get m (codes "user")) (codes "username");
      caption = copy_of (json_get m (codes "caption")) (codes "text");
      like_count = json_get_int m (codes "like_count") (pos 0);
      media_type = json_get_int m (codes "media_type") (pos 0);
      image_url = dup_str (first_image_url cover);
      num_slides = nslides;
    }

unfoldable pub media_of : Option Value → Option Value
unfolding json_get
media_of item = json_get item (codes "media_or_ad")

unfoldable pub private_loop : Option Value → ℕ → ℕ → List PrivatePost
unfolding private_post_of media_of json_at
private_loop items i zero = []
private_loop items i (suc n) =
    let rest = private_loop items (i + 1) n in
    let m = media_of (json_at items (pos i)) in
    if is_object m then private_post_of m ∷ rest else rest

unfoldable pub private_feed_of : Option Value → PrivateFeed
unfolding private_loop dup_str json_get json_get_str json_count
private_feed_of root =
    let items = json_get root (codes "feed_items") in
    record {
      posts = private_loop items 0 (json_count items);
      next_max_id = copy_of root (codes "next_max_id");
    }

unfoldable pub feed_from_private_json : List ℕ → Result PrivateFeed
unfolding json_parse private_feed_of
feed_from_private_json json = json_parse json >>= λ root. ok (private_feed_of (some root))
