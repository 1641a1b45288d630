-- ===== src/Private/Parsed.antt =====
-- The body of a timeline request of net/ig_private.c, read by the program's own parser.
use instagram_on_nt.Prelude.{
  ℕ, ◌^◌, ◌<◌, ◌≡◌, refl, sym, ap, ◌∙◌, arith, Bool, true, false, List, Option, none, some, leb,
  if◌then◌else◌, length, codes,
}
use instagram_on_nt.Prelude.Result.{ok}
use instagram_on_nt.Json.{str, no_fields, field, json_parse}
use instagram_on_nt.Json.Print.RoundTrip.{json_parse-print}
use instagram_on_nt.Private.Body.{
  Session, body_entries, body_pieces, time_text, body_room, ig_build_timeline_body,
}
use instagram_on_nt.Private.{ig_rand_range}
use instagram_on_nt.Private.Integers.{printed_int-IsInteger, sound_text-IsInteger}
use instagram_on_nt.Private.Texts.{joined, time_text-lu, ig_build_timeline_body-joined}
use instagram_on_nt.Private.Members.{
  is_plain, AreClean, body_object, joined-body_pieces, fields_of-Integers, body_object-depth,
}

-- The session's values may stand between quotes, and its numbers are not negative.
pub record IsPlain (s : Session) : Type 0 where
  pub has_camera_permission : is_plain s.has_camera_permission ≡ true
  pub feed_view_info : is_plain s.feed_view_info ≡ true
  pub client_seen_store_media_list : is_plain s.client_seen_store_media_list ≡ true
  pub client_view_state_media_list : is_plain s.client_view_state_media_list ≡ true
  pub device_timezone_name : is_plain s.device_timezone_name ≡ true
  pub feed_reshare_info : is_plain s.feed_reshare_info ≡ true
  pub phone_id : is_plain s.phone_id ≡ true
  pub reason : is_plain s.reason ≡ true
  pub battery_level : s.battery_level < 2 ^ 31
  pub timezone_offset : is_plain s.timezone_offset ≡ true
  pub device_id : is_plain s.device_id ≡ true
  pub include_attribution_ui_data : is_plain s.include_attribution_ui_data ≡ true
  pub push_disabled : is_plain s.push_disabled ≡ true
  pub request_id : is_plain s.request_id ≡ true
  pub uuid : is_plain s.uuid ≡ true
  pub is_charging : s.is_charging < 2 ^ 31
  pub is_dark_mode : s.is_dark_mode < 2 ^ 31
  pub session_id : is_plain s.session_id ≡ true
  pub session_level_signals : is_plain s.session_level_signals ≡ true
  pub bloks_versioning_id : is_plain s.bloks_versioning_id ≡ true
  pub is_pull_to_refresh : is_plain s.is_pull_to_refresh ≡ true

body_entries-AreClean :
    (s : Session) (ts : List ℕ) (sound : Option (List ℕ))
    → IsPlain s
    → is_plain ts ≡ true
    → AreClean (body_entries s ts (ig_rand_range sound 0 1))
unfolding body_entries is_plain
body_entries-AreClean s ts sound h t = (
  (refl, t),
  (
    (refl, h.has_camera_permission),
    (
      (refl, h.feed_view_info),
      (
        (refl, t),
        (
          (refl, h.client_seen_store_media_list),
          (
            (refl, h.client_view_state_media_list),
            (
              (refl, h.device_timezone_name),
              (
                (refl, h.feed_reshare_info),
                (
                  (refl, h.phone_id),
                  (
                    (refl, h.reason),
                    (
                      (refl, printed_int-IsInteger s.battery_level h.battery_level),
                      (
                        (refl, h.timezone_offset),
                        (
                          (refl, h.device_id),
                          (
                            (refl, h.include_attribution_ui_data),
                            (
                              (refl, h.push_disabled),
                              (
                                (refl, h.request_id),
                                (
                                  (refl, t),
                                  (
                                    (refl, h.uuid),
                                    (
                                      (refl, printed_int-IsInteger s.is_charging h.is_charging),
                                      (
                                        (refl, printed_int-IsInteger s.is_dark_mode h.is_dark_mode),
                                        (
                                          (refl, sound_text-IsInteger sound),
                                          (
                                            (refl, h.session_id),
                                            (
                                              (refl, h.session_level_signals),
                                              ((refl, h.bloks_versioning_id), tt),
                                            ),
                                          ),
                                        ),
                                      ),
                                    ),
                                  ),
                                ),
                              ),
                            ),
                          ),
                        ),
                      ),
                    ),
                  ),
                ),
              ),
            ),
          ),
        ),
      ),
    ),
  ),
)

some_or_null : (b : Bool) (x t : List ℕ) → (if b then none else some x) ≡ some t → x ≡ t
some_or_null true x t e = cc
some_or_null false x t e = cc

time_text-plain : (now_ms : ℕ) → is_plain (time_text now_ms) ≡ true
unfolding is_plain
time_text-plain now_ms = rw (time_text-lu now_ms)

-- The body of a request that is not NULL is read by json_parse as the object with a member for each
-- field, if the session's texts have no quote and no backslash and its numbers are not negative.
pub ig_build_timeline_body-parsed :
    (start : List ℕ) (s : Session) (now_ms : ℕ) (sound : Option (List ℕ)) (text : List ℕ)
    → length start ≡ body_room
    → IsPlain s
    → ig_build_timeline_body start s now_ms sound ≡ some text
    → json_parse text ≡ ok (body_object s (time_text now_ms) (ig_rand_range sound 0 1))
ig_build_timeline_body-parsed start s now_ms sound text h plain e =
    let ts = time_text now_ms in
    let will = ig_rand_range sound 0 1 in
    let full = joined (body_pieces s ts will) in
    let clean = body_entries-AreClean s ts sound plain (time_text-plain now_ms) in
    let same : full ≡ text =
      some_or_null (leb body_room (length full)) full text
        (sym (ig_build_timeline_body-joined start s now_ms sound h) ∙ e) in
    let printed = joined-body_pieces s ts will clean plain.is_pull_to_refresh in
    ap json_parse (sym same ∙ printed)
    ∙ json_parse-print (body_object s ts will)
        (fields_of-Integers (body_entries s ts will)
          (field (codes "is_pull_to_refresh") (str s.is_pull_to_refresh) no_fields) clean (tt, tt))
        (omega (arith, body_object-depth s ts will))
