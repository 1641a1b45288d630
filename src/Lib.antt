-- ===== src/Lib.antt =====
-- Verification of instagram-on-nt, an Instagram client for Windows NT 4.0 written in C. The program
-- fetches a feed as JSON over HTTPS, maps it to a model, decodes images, and draws a scrollable feed
-- in software.
--
-- Files, with the source that each one models:
--   * Prelude: numbers, lists and bit operations over the native ℕ; Prelude/Int has the signed
--     integers and characters, Prelude/Result the results of recursion on fuel.
--   * Raster: the surface and the colours of core/raster.h, and surface_alloc of core/raster.c.
--     Raster/Draw has clip_rect, blend_over and the fills, Raster/Blit the blits and the box filter;
--     Raster/Cover, Raster/Clip and Raster/Blend say which pixels change, and to what.
--   * Qoi: qoi_decode and qoi_encode of img/qoi.c. A buffer is the list of its bytes from the
--     position on. Qoi/Literal and Qoi/Signed are about one chunk, Qoi/Runs about pending runs,
--     Qoi/Agreement about the two copies of the index, Qoi/RoundTrip about the loops, Qoi/Buffers
--     and Qoi/Bounds about whole files.
--   * Json: the parser of core/json.c. Json/Text has skip_ws and parse_string_raw, Json/Number has
--     parse_number, Json/Access the functions that read a parsed value, from json_type to
--     json_get_int. Json/Print is a printer for the specification only.
--   * Http: http_build_request of core/http.c; Http/Chunks has dechunk, Http/Response has
--     http_parse_response and http_header. Http/Decimal, Http/Request, Http/Chunks/Bounds,
--     Http/Chunks/Encoding, Http/Response/Lines, Reading, Framing and Total are about them.
--   * Model: feed_from_graph_json of core/model.c; Model/Timeline has feed_from_private_json of
--     core/model_private.c, and Model/Posts says which posts the two return.
--   * Font: core/font.c, with the Latin glyphs in Font/Latin; the generated Hangul table is the
--     parameter HangulFont. Font/Lookup is about its binary search, Font/Measure about measuring.
--   * Feed: format_likes, gradient_from_name and wrap_caption of ui/feed.c; Feed/Wrap is about the
--     lines of a caption. Feed/Panels has the palette and the panels, Feed/Card the caption block and
--     the height of a card, Feed/Post the drawing of a post, Feed/View the content heights and the
--     click, Feed/Render the two feeds under their chrome. Feed/Heights says that what is measured is
--     what is drawn, Feed/Clicks which post a click toggles. An `int` wraps as add_int and sub_int do.
--   * Main: the callbacks that ui/main.c hands to the window; Main/Scrolling is about the feed in
--     its window. Main/Photos has the download of the photos and the demo photos, Main/Boot the choice
--     of the feed in WinMain; Main/Photos/Fetched and Main/Boot/Feeds are about them.
--   * Jpeg: jpeg_decode of img/jpeg.c over stb_image, with Jpeg/Pixels about its pixels.
--   * Files: pal_log and pal_read_file of pal/pal_common_win32.c; Files/Logged is about the log.
--   * Crt: the memory and string routines of pal/nt4_crt.c, in Crt/Move memmove and in Crt/Compare
--     strcmp.
--   * Platform: the formatted printing of net/mbedtls_platform_nt4.c, and in Platform/Calendar its
--     mbedtls_platform_gmtime_r. Its callers take from a buffer the text in front of the NUL, which
--     is `printed`. Platform/Printed, Platform/Printing and Platform/Numbers are about what is
--     printed, Platform/Years, Platform/Dates and Platform/Days about dates.
--   * Net: the connections of pal/net_win32.c; Net/Sending is about pal_tcp_send_all.
--   * Https: https_split_url of net/https_get.c, with Https/Urls about it; Https/Exchange has
--     https_request; Https/Reading says what its read loop gathers, and Https/Answers what it returns
--     and closes.
--   * Private: the headers of net/ig_private.c, and in Private/Body the body of a request.
--     Private/Headers, Private/Texts, Private/Integers, Private/Members and Private/Parsed are about
--     them.
--   * Client: ig_fetch_timeline of net/ig_client.c, over all of these; Client/Fetched is about it.
--     Client/Program has the program of net/ig_feed_main.c, and Client/Agreement compares the two.
--   * Bringup: net/tlstest_main.c and net/graphtest_main.c; Bringup/Logged is about the latter.
--   * Window: the state and the message handler of pal/pal_win32.c, in Window/Scrolling, Window/Ends
--     and Window/Chrome through its runs. The callbacks of pal/pal.h are the parameter App; the frame
--     buffer is a surface, and a render callback returns what it has drawn in it.
--   * Tests: runs at concrete inputs.
--
-- Fuel: json_parse gives parse_value twice the length of the text plus one. Each call that takes a
-- byte, and each round of a loop, uses one unit of it. The loops of dechunk and of
-- http_parse_response have as much fuel as there are bytes, plus one, and take a byte in each round.
-- hangul_lookup has as much as the table is long, plus one, and measure as the string is long.
--
-- The answers of the calls of a loop, as of mbedtls_ssl_read, are a list; a loop that has read all of
-- them waits, which is the result out_of_fuel. The read loops keep for the next call what the buffer had
-- no room for, and have a round for each byte and each answer; the send loop has one for each answer.
-- The loop of mbedtls_nt4_vsnprintf has as much fuel as the format is long.
--
-- A read behind the end of a response has no outcome, which is out_of_fuel too.
--
-- Not modelled: the Win32, Winsock, mbedTLS and stb_image calls, whose results are parameters where the
-- code around them is modelled; net/nettest_main.c, the tools and the tests, generated
-- glyphs, failing allocations, and receive buffers of 2^30 bytes or more.
pub mod Bringup
pub mod Client
pub mod Crt
pub mod Feed
pub mod Files
pub mod Font
pub mod Http
pub mod Https
pub mod Jpeg
pub mod Json
pub mod Main
pub mod Model
pub mod Net
pub mod Platform
pub mod Prelude
pub mod Private
pub mod Qoi
pub mod Raster
pub mod Tests
pub mod Window
