-- ===== src/Main/Boot.antt =====
-- WinMain of ui/main.c: which feed the program shows, and the window that shows it. The exit code is
-- not modelled.
pub mod Feeds
use instagram_on_nt.Prelude.{ℕ, List, Option, none, some, if◌then◌else◌, length, take, ◌==◌}
use instagram_on_nt.Prelude.Int.{ℤ, pos, eqb_ℤ}
use instagram_on_nt.Prelude.Result.{Result, ok, failed, out_of_fuel, ◌>>=◌}
use instagram_on_nt.Font.{HangulFont}
use instagram_on_nt.Feed.View.{FeedData, FeedImages, ui_feed_chrome_height}
use instagram_on_nt.Files.{Disk}
use instagram_on_nt.Jpeg.{Stb}
use instagram_on_nt.Net.{pal_net_init}
use instagram_on_nt.Private.{Fresh}
use instagram_on_nt.Client.{Baked, ig_fetch_timeline}
use instagram_on_nt.Window.{State, Message, start, run}
use instagram_on_nt.Main.{real_app, mock_app}
use instagram_on_nt.Main.Photos.{Peer, real_feed_of, load_mock_photos}

-- All that the program asks of what is around it until the window is open: what WSAStartup returns,
-- the answers to the request for the timeline and to those for the photos, the session and its fresh
-- values, what the buffer of the request's body holds, stb_image, and the disks.
pub record Machine : Type 0 where
  pub wsa_startup : ℤ
  pub timeline : Peer
  pub photos : ℕ → Peer
  pub baked : Baked
  pub fresh : Fresh
  pub buf : List ℕ
  pub stb : Stb
  pub disk : List ℕ → Disk

-- `failed` is the result 0.
unfoldable pub load_real_feed : Machine → Result FeedData
unfolding ig_fetch_timeline real_feed_of
load_real_feed m =
    ig_fetch_timeline m.timeline.winsock m.timeline.tls m.baked m.fresh m.buf
    >>= real_feed_of m.stb m.photos

pub data Shown : Type 0 where
  real : FeedData → Shown
  mock : FeedImages → Shown

-- `if (have_real)`
abbrev pub choose : Result FeedData → FeedImages → Result Shown
choose (ok posts) images = ok (real posts)
choose failed images = ok (mock images)
choose out_of_fuel images = out_of_fuel

unfoldable pub boot : Machine → Result Shown
unfolding pal_net_init load_real_feed load_mock_photos
boot m =
    let posts = load_real_feed m in
    choose (if eqb_ℤ (pal_net_init m.wsa_startup) (pos 0) then posts else failed)
      (load_mock_photos m.disk)

pub data Opened : Type 1 where
  real_window : State (Option FeedData) → Opened
  mock_window : State (Option FeedImages) → Opened

-- The call of pal_run_window, whose messages are `ms`.
unfoldable pub show : HangulFont → List Message → Shown → Opened
unfolding run start ui_feed_chrome_height
show font ms (real posts) =
    real_window (run (real_app font) (start ui_feed_chrome_height (some posts)) ms)
show font ms (mock images) =
    mock_window (run (mock_app font) (start ui_feed_chrome_height (some images)) ms)
