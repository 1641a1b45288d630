-- ===== src/Tests/Model.antt =====
-- Runs of core/model.c and core/model_private.c, and their properties at concrete responses.
use instagram_on_nt.Prelude.{◌≡◌, refl, [], ◌∷◌, Option, none, some, codes}
use instagram_on_nt.Prelude.Int.{pos, int32, uint32}
use instagram_on_nt.Json.{Value, Items, arr, obj, str, num, null, no_items, item, no_fields, field}
use instagram_on_nt.Json.Access.{
  json_get, get_field, str_eq, bytes_eq, c_string, json_at, nth_item, items_count, json_count,
  json_get_str, json_get_int, json_string, json_int,
}
use instagram_on_nt.Json.Number.{int_text, int_loop, is_digit}
use instagram_on_nt.Model.{post_of, feed_of, posts_loop, dup_str}
use instagram_on_nt.Model.Posts.{collect, feed_of-posts}

abbrev media : Items
media =
    item
      (obj (
        field (codes "id") (str (codes "7"))
          (field (codes "like_count") (num (codes "12")) no_fields)))
      (item null no_items)

abbrev response : Option Value
response = some (obj (field (codes "data") (arr media) no_fields))

feed_lem :
    (feed_of response).posts
    ≡ record {
      id = some (codes "7");
      username = none;
      caption = none;
      media_url = none;
      media_type = none;
      permalink = none;
      timestamp = none;
      like_count = pos 12;
    }
      ∷ []
unfolding feed_of posts_loop post_of dup_str json_get get_field str_eq bytes_eq c_string json_at
    nth_item items_count json_count json_get_str json_get_int json_string json_int int_text int_loop
    is_digit int32 uint32
feed_lem = refl

feed_of-posts_example : (feed_of response).posts ≡ collect (λ o. o) post_of media
unfolding json_get get_field str_eq bytes_eq c_string
feed_of-posts_example = feed_of-posts response media refl
