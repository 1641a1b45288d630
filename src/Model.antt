-- ===== src/Model.antt =====
-- core/model.c: a Graph API response as a feed. A string that is not there is none, as NULL.
pub mod Timeline
pub mod Posts
use instagram_on_nt.Prelude.{
  ℕ, zero, suc, ◌+◌, ◌≡◌, Bool, true, false, List, [], ◌∷◌, Option, none, some, if◌then◌else◌,
  codes,
}
use instagram_on_nt.Prelude.Int.{ℤ, pos}
use instagram_on_nt.Prelude.Result.{Result, ok, ◌>>=◌}
use instagram_on_nt.Json.{Value, obj, json_parse}
use instagram_on_nt.Json.Access.{
  c_string, json_get, json_at, json_count, json_get_str, json_get_int,
}

pub record Post : Type 0 where
  pub id : Option (List ℕ)
  pub username : Option (List ℕ)
  pub caption : Option (List ℕ)
  pub media_url : Option (List ℕ)
  pub media_type : Option (List ℕ)
  pub permalink : Option (List ℕ)
  pub timestamp : Option (List ℕ)
  pub like_count : ℤ

pub record Feed : Type 0 where
  pub posts : List Post
  pub next_cursor : Option (List ℕ)

-- A copy of a C string ends at the first NUL.
unfoldable pub dup_str : Option (List ℕ) → Option (List ℕ)
unfolding c_string
dup_str none = none
dup_str (some s) = some (c_string s)

-- json_get_str of a literal key, copied.
abbrev pub copy_of : Option Value → List ℕ → Option (List ℕ)
copy_of o key = dup_str (json_get_str o key)

-- `if (!p->media_url) p->media_url = ...`
abbrev pub or_else : Option (List ℕ) → Option (List ℕ) → Option (List ℕ)
or_else none b = b
or_else (some a) b = some a

abbrev pub is_object : Option Value → Bool
is_object (some (obj fs)) = true
is_object _ = false

-- What the loop's body writes to a post.
unfoldable pub post_of : Option Value → Post
unfolding dup_str json_get_str json_get_int
post_of o = record {
  id = copy_of o (codes "id");
  username = copy_of o (codes "username");
  caption = copy_of o (codes "caption");
  media_type = copy_of o (codes "media_type");
  media_url = or_else (copy_of o (codes "media_url")) (copy_of o (codes "thumbnail_url"));
  permalink = copy_of o (codes "permalink");
  timestamp = copy_of o (codes "timestamp");
  like_count = json_get_int o (codes "like_count") (pos 0);
}

-- The `n` elements from index `i` on; an element that is no object is passed over.
unfoldable pub posts_loop : Option Value → ℕ → ℕ → List Post
unfolding post_of json_at
posts_loop media i zero = []
posts_loop media i (suc n) =
    let rest = posts_loop media (i + 1) n in
    let o = json_at media (pos i) in if is_object o then post_of o ∷ rest else rest

unfoldable pub feed_of : Option Value → Feed
unfolding posts_loop dup_str json_get json_get_str json_count
feed_of root =
    let media = json_get root (codes "data") in
    let cursors = json_get (json_get root (codes "paging")) (codes "cursors") in
    record {
      posts = posts_loop media 0 (json_count media);
      next_cursor = copy_of cursors (codes "after");
    }

-- `failed` is the result NULL.
unfoldable pub feed_from_graph_json : List ℕ → Result Feed
unfolding json_parse feed_of
feed_from_graph_json json = json_parse json >>= λ root. ok (feed_of (some root))
