-- ===== src/Private/Body.antt =====
-- net/ig_private.c: the body of a timeline request, piece by piece as it is appended.
use instagram_on_nt.Prelude.{
  ℕ, ◌+◌, ◌/◌, ◌%◌, ◌^◌, List, [], ◌∷◌, ◌++◌, Option, none, some, ltb, leb, if◌then◌else◌, length,
  take, drop, codes,
}
use instagram_on_nt.Platform.{word, printed}
use instagram_on_nt.Private.{ig_rand_range}

-- The buffer that append writes to, and `p`.
pub record Buffer : Type 0 where
  pub buf : List ℕ
  pub p : ℕ

-- `buf` after memcpy of `s` to position `p`.
abbrev pub copied : List ℕ → ℕ → List ℕ → List ℕ
copied buf p s = take p buf ++ (s ++ drop (p + length s) buf)

unfoldable pub append : ℕ → Buffer → List ℕ → Buffer
append room b s =
    let len = length s in
    record { buf = if ltb (b.p + len) room then copied b.buf b.p s else b.buf; p = b.p + len }

unfoldable pub append_all : ℕ → Buffer → List (List ℕ) → Buffer
unfolding append
append_all room b [] = b
append_all room b (s ∷ ss) = append_all room (append room b s) ss

-- "\"key\":\"" and "\"key\":"
abbrev pub text_key : List ℕ → List ℕ
text_key key = b'"' ∷ (key ++ (b'"' ∷ b':' ∷ b'"' ∷ []))

abbrev pub number_key : List ℕ → List ℕ
number_key key = b'"' ∷ (key ++ (b'"' ∷ b':' ∷ []))

-- The values that the session header defines for the body. A number is a 32-bit pattern.
pub record Session : Type 0 where
  pub has_camera_permission : List ℕ
  pub feed_view_info : List ℕ
  pub client_seen_store_media_list : List ℕ
  pub client_view_state_media_list : List ℕ
  pub device_timezone_name : List ℕ
  pub feed_reshare_info : List ℕ
  pub phone_id : List ℕ
  pub reason : List ℕ
  pub battery_level : ℕ
  pub timezone_offset : List ℕ
  pub device_id : List ℕ
  pub include_attribution_ui_data : List ℕ
  pub push_disabled : List ℕ
  pub request_id : List ℕ
  pub uuid : List ℕ
  pub is_charging : ℕ
  pub is_dark_mode : ℕ
  pub session_id : List ℕ
  pub session_level_signals : List ℕ
  pub bloks_versioning_id : List ℕ
  pub is_pull_to_refresh : List ℕ

-- A field of the body, as STRFIELD, NUMFIELD and the lines for a time append it; the comma is part of
-- it.
pub data Entry : Type 0 where
  str_field : List ℕ → List ℕ → Entry
  num_field : List ℕ → List ℕ → Entry
  time_field : List ℕ → List ℕ → Entry

unfoldable pub entry_pieces : Entry → List (List ℕ)
entry_pieces (str_field key value) = (text_key key ++ (value ++ (b'"' ∷ b',' ∷ []))) ∷ []
entry_pieces (num_field key number) = number_key key ∷ number ∷ (b',' ∷ []) ∷ []
entry_pieces (time_field key ts) = text_key key ∷ ts ∷ (b'"' ∷ b',' ∷ []) ∷ []

unfoldable pub entries_pieces : List Entry → List (List ℕ)
unfolding entry_pieces
entries_pieces [] = []
entries_pieces (e ∷ es) = entry_pieces e ++ entries_pieces es

-- `numbuf`, or `nb`, of `size` bytes.
unfoldable pub printed_int : ℕ → ℕ → List ℕ
unfolding printed
printed_int size v = (printed size (codes "%d") (word v ∷ [])).0

-- `ts`. The format takes no argument of the 64 bits that it is given.
unfoldable pub time_text : ℕ → List ℕ
unfolding printed
time_text now_ms =
    (printed 24 (codes "%llu") (word (now_ms % 2 ^ 32) ∷ word (now_ms / 2 ^ 32) ∷ [])).0

-- The fields in front of the last one.
unfoldable pub body_entries : Session → List ℕ → ℕ → List Entry
unfolding printed_int
body_entries s ts will_sound_on =
    time_field (codes "app_start_time") ts
    ∷ str_field (codes "has_camera_permission") s.has_camera_permission
    ∷ str_field (codes "feed_view_info") s.feed_view_info
    ∷ time_field (codes "client_recorded_request_time_ms") ts
    ∷ str_field (codes "client_seen_store_media_list") s.client_seen_store_media_list
    ∷ str_field (codes "client_view_state_media_list") s.client_view_state_media_list
    ∷ str_field (codes "device_timezone_name") s.device_timezone_name
    ∷ str_field (codes "feed_reshare_info") s.feed_reshare_info
    ∷ str_field (codes "phone_id") s.phone_id
    ∷ str_field (codes "reason") s.reason
    ∷ num_field (codes "battery_level") (printed_int 16 s.battery_level)
    ∷ str_field (codes "timezone_offset") s.timezone_offset
    ∷ str_field (codes "device_id") s.device_id
    ∷ str_field (codes "include_attribution_ui_data") s.include_attribution_ui_data
    ∷ str_field (codes "push_disabled") s.push_disabled
    ∷ str_field (codes "request_id") s.request_id
    ∷ time_field (codes "request_build_time") ts
    ∷ str_field (codes "_uuid") s.uuid
    ∷ num_field (codes "is_charging") (printed_int 16 s.is_charging)
    ∷ num_field (codes "is_dark_mode") (printed_int 16 s.is_dark_mode)
    ∷ num_field (codes "will_sound_on") (printed_int 4 will_sound_on)
    ∷ str_field (codes "session_id") s.session_id
    ∷ str_field (codes "session_level_signals") s.session_level_signals
    ∷ str_field (codes "bloks_versioning_id") s.bloks_versioning_id
    ∷ []

unfoldable pub body_pieces : Session → List ℕ → ℕ → List (List ℕ)
unfolding body_entries entries_pieces
body_pieces s ts will_sound_on =
    (b'{' ∷ [])
    ∷ (entries_pieces (body_entries s ts will_sound_on)
        ++ (text_key (codes "is_pull_to_refresh")
            ∷ s.is_pull_to_refresh
            ∷ (b'"' ∷ [])
            ∷ (b'}' ∷ [])
            ∷ []))

abbrev pub body_room : ℕ
body_room = 4096

-- `none` is NULL. `start` is what the buffer held before.
unfoldable pub ig_build_timeline_body : List ℕ → Session → ℕ → Option (List ℕ) → Option (List ℕ)
unfolding append_all body_pieces time_text ig_rand_range
ig_build_timeline_body start s now_ms sound =
    let pieces = body_pieces s (time_text now_ms) (ig_rand_range sound 0 1) in
    let b = append_all body_room (record { buf = start; p = 0 }) pieces in
    if leb body_room b.p then none else some (take b.p b.buf)
