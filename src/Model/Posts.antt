-- ===== src/Model/Posts.antt =====
-- The feeds of core/model.c and core/model_private.c, by the elements of the arrays they read.
use instagram_on_nt.Prelude.{
  ℕ, suc, ◌+◌, ◌<◌, ◌≡◌, refl, ap, ◌∙◌, arith, List, [], ◌∷◌, Option, some, if◌then◌else◌, lt→ltb,
  codes,
}
use instagram_on_nt.Prelude.Int.{pos}
use instagram_on_nt.Json.{Value, Items, arr, no_items, item}
use instagram_on_nt.Json.Access.{json_get, json_at, json_count, items_count, nth_item}
use instagram_on_nt.Model.{is_object, post_of, posts_loop, feed_of}
use instagram_on_nt.Model.Timeline.{private_post_of, private_loop, media_of, private_feed_of}

-- The elements of an array for which `f` gives an object, with what `g` makes of that object.
unfoldable pub collect {ℓ} :
    {A : Type ℓ} → (Option Value → Option Value) → (Option Value → A) → Items → List A
collect f g no_items = []
collect f g (item v xs) =
    let rest = collect f g xs in if is_object (f (some v)) then g (f (some v)) ∷ rest else rest

-- `xs` is what stands in `ys` from position `i` on.
Suffix : Items → ℕ → Items → Type 0
Suffix ys i xs =
    (k : ℕ) → k < items_count xs → json_at (some (arr ys)) (pos (i + k)) ≡ nth_item xs k

suffix_head :
    (ys : Items) (i : ℕ) (v : Value) (xs : Items)
    → Suffix ys i (item v xs)
    → json_at (some (arr ys)) (pos i) ≡ some v
unfolding nth_item items_count Suffix
suffix_head ys i v xs h =
    let e : i ≡ i + 0 = omega arith in
    ap (λ n. json_at (some (arr ys)) (pos n)) e ∙ h 0 (omega arith)

suffix_tail :
    (ys : Items) (i : ℕ) (v : Value) (xs : Items) → Suffix ys i (item v xs) → Suffix ys (i + 1) xs
unfolding nth_item items_count Suffix
suffix_tail ys i v xs h k l =
    let e : i + 1 + k ≡ i + suc k = omega arith in
    ap (λ n. json_at (some (arr ys)) (pos n)) e ∙ h (suc k) (omega arith)

suffix_all : (ys : Items) → Suffix ys 0 ys
unfolding json_at items_count Suffix
suffix_all ys k l =
    let e : 0 + k ≡ k = omega arith in let t = lt→ltb k (items_count ys) l in rw (e, t)

count_suc : (v : Value) (xs : Items) → items_count (item v xs) ≡ suc (items_count xs)
unfolding items_count
count_suc v xs = omega arith

-- A round of each loop, by the element that json_at returns.
posts_round :
    (a : Option Value) (i n : ℕ) (o : Option Value)
    → json_at a (pos i) ≡ o
    → posts_loop a i (suc n)
      ≡ (if is_object o then post_of o ∷ posts_loop a (i + 1) n else posts_loop a (i + 1) n)
unfolding posts_loop
posts_round a i n o e =
    ap
      (λ (o : Option Value).
        if is_object o then post_of o ∷ posts_loop a (i + 1) n else posts_loop a (i + 1) n)
      e

private_round :
    (a : Option Value) (i n : ℕ) (o : Option Value)
    → json_at a (pos i) ≡ o
    → private_loop a i (suc n) ≡ (
        if is_object (media_of o)
        then private_post_of (media_of o) ∷ private_loop a (i + 1) n
        else private_loop a (i + 1) n)
unfolding private_loop
private_round a i n o e =
    ap
      (λ (o : Option Value).
        if is_object (media_of o)
        then private_post_of (media_of o) ∷ private_loop a (i + 1) n
        else private_loop a (i + 1) n)
      e

posts_loop-collect :
    (ys xs : Items) (i : ℕ)
    → Suffix ys i xs
    → posts_loop (some (arr ys)) i (items_count xs) ≡ collect (λ o. o) post_of xs
posts_loop-collect ys no_items i h = unfold posts_loop items_count collect in refl
posts_loop-collect ys (item v xs) i h =
    let a = some (arr ys) in
    ap (posts_loop a i) (count_suc v xs)
    ∙ posts_round a i (items_count xs) (some v) (suffix_head ys i v xs h)
    ∙ ap (λ r. if is_object (some v) then post_of (some v) ∷ r else r)
        (posts_loop-collect ys xs (i + 1) (suffix_tail ys i v xs h))
    ∙ unfold collect in refl

private_loop-collect :
    (ys xs : Items) (i : ℕ)
    → Suffix ys i xs
    → private_loop (some (arr ys)) i (items_count xs) ≡ collect media_of private_post_of xs
private_loop-collect ys no_items i h = unfold private_loop items_count collect in refl
private_loop-collect ys (item v xs) i h =
    let a = some (arr ys) in
    ap (private_loop a i) (count_suc v xs)
    ∙ private_round a i (items_count xs) (some v) (suffix_head ys i v xs h)
    ∙ ap (λ r. if is_object (media_of (some v)) then private_post_of (media_of (some v)) ∷ r else r)
        (private_loop-collect ys xs (i + 1) (suffix_tail ys i v xs h))
    ∙ unfold collect in refl

-- If the member `data` of a parsed response is an array, the feed made of it has one post for each
-- element that is an object, in order, and none for any other element.
pub feed_of-posts :
    (root : Option Value) (xs : Items)
    → json_get root (codes "data") ≡ some (arr xs)
    → (feed_of root).posts ≡ collect (λ o. o) post_of xs
unfolding feed_of
feed_of-posts root xs e =
    ap (λ media. posts_loop media 0 (json_count media)) e
    ∙ unfold json_count in posts_loop-collect xs xs 0 (suffix_all xs)

-- If the member `feed_items` of a parsed response is an array, the feed made of it has one post for
-- the object `media_or_ad` of each element that has one, in order, and none for any other element.
pub private_feed_of-posts :
    (root : Option Value) (xs : Items)
    → json_get root (codes "feed_items") ≡ some (arr xs)
    → (private_feed_of root).posts ≡ collect media_of private_post_of xs
unfolding private_feed_of
private_feed_of-posts root xs e =
    ap (λ items. private_loop items 0 (json_count items)) e
    ∙ unfold json_count in private_loop-collect xs xs 0 (suffix_all xs)
