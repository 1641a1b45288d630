-- ===== src/Main/Boot/Feeds.antt =====
-- WinMain of ui/main.c: the program always shows a feed, and which one.
use instagram_on_nt.Prelude.{
  ℕ, ◌+◌, ◌<◌, ◌≤◌, ◌≡◌, ◌≢◌, ◌⊎◌, inl, inr, refl, ap, ◌∙◌, arith, Bool, true, false, Bool-cases,
  List, some, length, get_elem?, take, min, length-take, ◌==◌, ==_iff, if◌then◌else◌,
}
use instagram_on_nt.Prelude.Int.{pos, eqb_ℤ}
use instagram_on_nt.Prelude.Result.{Result, ok, failed, out_of_fuel, ◌>>=◌}
use instagram_on_nt.Model.Timeline.{PrivatePost, PrivateFeed}
use instagram_on_nt.Feed.View.{FeedData, FeedImages}
use instagram_on_nt.Net.{pal_net_init}
use instagram_on_nt.Client.{ig_fetch_timeline}
use instagram_on_nt.Main.Photos.{
  fetch_photo, real_post, real_feed_of, load_mock_photos, max_real_posts,
}
use instagram_on_nt.Main.Photos.Fetched.{
  End, shown_posts, shown_photo, photo_loop-End, length-shown_posts, shown_posts-at,
}
use instagram_on_nt.Main.Boot.{Machine, real, mock, load_real_feed, choose, boot}

-- What the request for the timeline returns.
abbrev pub timeline_of : Machine → Result PrivateFeed
timeline_of m = ig_fetch_timeline m.timeline.winsock m.timeline.tls m.baked m.fresh m.buf

-- The posts of which the program fetches the photos.
abbrev pub first_posts : PrivateFeed → List PrivatePost
first_posts feed = take max_real_posts feed.posts

-- The posts that are shown for a feed.
pub record ShowsFeed (m : Machine) (feed : PrivateFeed) (posts : FeedData) : Type 0 where
  pub count : length posts ≡ min max_real_posts (length feed.posts)
  pub at :
      (j : ℕ) (p : PrivatePost)
      → get_elem? (first_posts feed) j ≡ some p
      → get_elem? posts j
        ≡ some (real_post p (shown_photo (fetch_photo m.stb (m.photos j) p.image_url)))

real_feed_of-End :
    (m : Machine) (feed : PrivateFeed)
    → 0 < length feed.posts
    → End m.stb m.photos 0 (first_posts feed)
    → real_feed_of m.stb m.photos feed ≡ ok (shown_posts m.stb m.photos 0 (first_posts feed))
unfolding real_feed_of
real_feed_of-End m feed h e =
    let a : (length feed.posts == 0) ≡ false = ground arith in
    rw a (photo_loop-End m.stb m.photos 0 (first_posts feed) e)

shown_posts-ShowsFeed :
    (m : Machine) (feed : PrivateFeed)
    → ShowsFeed m feed (shown_posts m.stb m.photos 0 (first_posts feed))
shown_posts-ShowsFeed m feed = record {
  count =
      length-shown_posts m.stb m.photos 0 (first_posts feed)
      ∙ length-take max_real_posts feed.posts;
  at = λ j p e.
      let k : 0 + j ≡ j = omega arith in
      shown_posts-at m.stb m.photos 0 (first_posts feed) j p e
      ∙ ap (λ n. some (real_post p (shown_photo (fetch_photo m.stb (m.photos n) p.image_url)))) k;
}

-- If the sockets start, the request for the timeline gives a feed that is not empty, and the requests
-- for the photos of its first eight posts come to an end, then the program shows these posts, in their
-- order: each with its name, caption and likes, and with the photo that fetch_photo has decoded, or
-- without one where fetch_photo has failed.
pub boot-feed :
    (m : Machine) (feed : PrivateFeed)
    → m.wsa_startup ≡ pos 0
    → timeline_of m ≡ ok feed
    → 0 < length feed.posts
    → End m.stb m.photos 0 (first_posts feed)
    → (posts : FeedData) × (boot m ≡ ok (real posts)) × ShowsFeed m feed posts
unfolding boot load_real_feed pal_net_init
boot-feed m feed w t h e =
    let posts = shown_posts m.stb m.photos 0 (first_posts feed) in
    let loaded : load_real_feed m ≡ ok posts =
      ap (λ r. r >>= real_feed_of m.stb m.photos) t ∙ real_feed_of-End m feed h e in
    (posts, rw (w, loaded) refl, shown_posts-ShowsFeed m feed)

-- The program shows a feed: between one and eight posts of the timeline, or the demo feed.
abbrev pub ShowsSome : Machine → Type 0
ShowsSome m =
    ((posts : FeedData) × (boot m ≡ ok (real posts))
      × (0 < length posts)
      × (length posts ≤ max_real_posts))
    ⊎ (boot m ≡ ok (mock (load_mock_photos m.disk)))

choose_failed :
    (b : Bool) (r : Result FeedData) (images : FeedImages)
    → r ≡ failed
    → choose (if b then r else failed) images ≡ ok (mock images)
choose_failed true r images e = ap (λ q. choose q images) e
choose_failed false r images e = refl

choose_ok :
    (b : Bool) (r : Result FeedData) (posts : FeedData) (images : FeedImages)
    → r ≡ ok posts
    → (choose (if b then r else failed) images ≡ ok (real posts))
      ⊎ (choose (if b then r else failed) images ≡ ok (mock images))
choose_ok true r posts images e = inl (ap (λ q. choose q images) e)
choose_ok false r posts images e = inr refl

ShowsSome-failed : (m : Machine) → load_real_feed m ≡ failed → ShowsSome m
unfolding boot
ShowsSome-failed m e = inr (
    choose_failed (eqb_ℤ (pal_net_init m.wsa_startup) (pos 0)) (load_real_feed m)
      (load_mock_photos m.disk) e)

ShowsSome-ok :
    (m : Machine) (posts : FeedData)
    → load_real_feed m ≡ ok posts
    → 0 < length posts
    → length posts ≤ max_real_posts
    → ShowsSome m
unfolding boot
ShowsSome-ok m posts e h k =
    elim (choose_ok (eqb_ℤ (pal_net_init m.wsa_startup) (pos 0)) (load_real_feed m) posts
      (load_mock_photos m.disk) e) [ inl shown ↦ inl (posts, shown, h, k) | inr shown ↦ inr shown ]

not_empty : (n : ℕ) → (n == 0) ≡ false → 0 < n
not_empty n e = ground arith

real_feed_of-empty :
    (m : Machine) (feed : PrivateFeed)
    → length feed.posts ≡ 0
    → real_feed_of m.stb m.photos feed ≡ failed
unfolding real_feed_of
real_feed_of-empty m feed h = let a : (length feed.posts == 0) ≡ true = ground arith in rw a refl

ShowsSome-feed :
    (m : Machine) (feed : PrivateFeed)
    → timeline_of m ≡ ok feed
    → End m.stb m.photos 0 (first_posts feed)
    → ShowsSome m
unfolding load_real_feed
ShowsSome-feed m feed t e =
    let given : load_real_feed m ≡ real_feed_of m.stb m.photos feed =
      ap (λ r. r >>= real_feed_of m.stb m.photos) t in
    let posts = shown_posts m.stb m.photos 0 (first_posts feed) in
    let count : length posts ≡ min max_real_posts (length feed.posts) =
      (shown_posts-ShowsFeed m feed).count in
    elim (Bool-cases (length feed.posts == 0)) [
      | inl empty ↦
          ShowsSome-failed m
            (given ∙ real_feed_of-empty m feed ((==_iff (length feed.posts) 0).0 empty))
      | inr more ↦
          let h = not_empty (length feed.posts) more in
          ShowsSome-ok m posts (given ∙ real_feed_of-End m feed h e) (omega arith) (omega arith)
    ]

ShowsSome-timeline :
    (m : Machine) (r : Result PrivateFeed)
    → timeline_of m ≡ r
    → r ≢ out_of_fuel
    → ((feed : PrivateFeed) → r ≡ ok feed → End m.stb m.photos 0 (first_posts feed))
    → ShowsSome m
unfolding load_real_feed
ShowsSome-timeline m (ok feed) t n e = ShowsSome-feed m feed t (e feed refl)
ShowsSome-timeline m failed t n e =
    ShowsSome-failed m (ap (λ r. r >>= real_feed_of m.stb m.photos) t)
ShowsSome-timeline m out_of_fuel t n e = absurd (n refl)

-- Whatever fails, the program shows a feed: if the request for the timeline comes to an end, and, where
-- it gives a feed, so do the requests for the photos of its first eight posts, then boot ends, with
-- between one and eight posts of the timeline or with the demo feed.
pub boot-ShowsSome :
    (m : Machine)
    → timeline_of m ≢ out_of_fuel
    → ((feed : PrivateFeed) → timeline_of m ≡ ok feed → End m.stb m.photos 0 (first_posts feed))
    → ShowsSome m
boot-ShowsSome m t e = ShowsSome-timeline m (timeline_of m) refl t e
