-- ===== src/Private.antt =====
-- net/ig_private.c: the headers and the body of a timeline request. The session's own values, which
-- vm/ig_session_private.h defines, the random bytes and the clock are parameters. `unsigned long` has
-- 32 bits.
pub mod Body
pub mod Texts
pub mod Integers
pub mod Members
pub mod Parsed
pub mod Headers
use instagram_on_nt.Prelude.{
  ℕ, zero, suc, ◌+◌, ◌-◌, ◌*◌, ◌/◌, ◌%◌, ◌^◌, ◌==◌, ◌&&◌, ◌||◌, Bool, true, false, List, [], ◌∷◌,
  ◌++◌, Option, none, some, ltb, leb, if◌then◌else◌, length, take, drop, replicate, get_or, set,
  bit_and, bit_or, map, codes, min,
}
use instagram_on_nt.Http.{HttpHeader}
use instagram_on_nt.Platform.{word, text, hex_table, printed}

-- The loop's bytes 0, 1, 2, … where no random bytes are to be had.
unfoldable pub counted_bytes : ℕ → ℕ → List ℕ
counted_bytes i zero = []
counted_bytes i (suc n) = (i % 256) ∷ counted_bytes (i + 1) n

-- `random` is what CryptGenRandom stores, or none where there is no context.
unfoldable pub ig_random_bytes : Option (List ℕ) → ℕ → List ℕ
unfolding counted_bytes
ig_random_bytes none len = counted_bytes 0 len
ig_random_bytes (some random) len = take len random

-- `v`, read from its four bytes.
unfoldable pub word_of : List ℕ → ℕ
word_of b = get_or b 0 0 + get_or b 1 0 * 2 ^ 8 + get_or b 2 0 * 2 ^ 16 + get_or b 3 0 * 2 ^ 24

unfoldable pub ig_rand_range : Option (List ℕ) → ℕ → ℕ → ℕ
unfolding ig_random_bytes word_of
ig_rand_range random lo hi =
    let v = word_of (ig_random_bytes random 4) in
    (lo + v % ((hi + 2 ^ 32 - lo + 1) % 2 ^ 32)) % 2 ^ 32

-- The bytes from index `i` on, in hexadecimal, with the hyphens.
unfoldable pub uuid_text : ℕ → List ℕ → List ℕ
uuid_text i [] = []
uuid_text i (b ∷ bs) =
    let pair =
      get_or (hex_table false) (b / 16) 0
      ∷ get_or (hex_table false) (b % 16) 0
      ∷ uuid_text (i + 1) bs in
    if i == 4 || (i == 6 || (i == 8 || i == 10)) then b'-' ∷ pair else pair

unfoldable pub ig_uuid4 : Option (List ℕ) → List ℕ
unfolding ig_random_bytes uuid_text
ig_uuid4 random =
    let b = ig_random_bytes random 16 in
    let b = set b 6 (bit_or (bit_and (get_or b 6 0) 0x0F) 0x40) in
    let b = set b 8 (bit_or (bit_and (get_or b 8 0) 0x3F) 0x80) in uuid_text 0 b

-- The milliseconds since 1970, from the two words of a FILETIME.
unfoldable pub ig_now_ms : ℕ → ℕ → ℕ
ig_now_ms high low =
    let t100ns = high * 2 ^ 32 + low in (t100ns + 2 ^ 64 - 116444736000000000) % 2 ^ 64 / 10000

abbrev pub lower_ascii : ℕ → ℕ
lower_ascii c = if leb b'A' c && leb c b'Z' then c + 32 else c

-- ci_eq of this file.
unfoldable pub same_name : List ℕ → List ℕ → Bool
same_name [] [] = true
same_name (a ∷ s) (b ∷ t) = lower_ascii a == lower_ascii b && same_name s t
same_name _ _ = false

-- A header of the session, without the compression that the program cannot read.
unfoldable pub static_header : HttpHeader → HttpHeader
unfolding same_name
static_header h =
    if same_name h.name (codes "Accept-Encoding") then record h { value = codes "identity" } else h

-- What the random sources of one request give, and the clock.
pub record Fresh : Type 0 where
  pub uuid : Option (List ℕ)
  pub speed : Option (List ℕ)
  pub speed_part : Option (List ℕ)
  pub total_bytes : Option (List ℕ)
  pub total_time : Option (List ℕ)
  pub salt : Option (List ℕ)
  pub latency : Option (List ℕ)
  pub sound : Option (List ℕ)
  pub now_ms : ℕ

-- The text that a number of its own is printed as.
abbrev pub lu_text : ℕ → ℕ → List ℕ
lu_text cap v = (printed cap (codes "%lu") (word v ∷ [])).0

abbrev pub lu_lu_text : ℕ → ℕ → ℕ → List ℕ
lu_lu_text cap v w = (printed cap (codes "%lu.%03lu") (word v ∷ word w ∷ [])).0

abbrev pub named : List ℕ → List ℕ → HttpHeader
named name value = record { name = name; value = value }

unfoldable pub fresh_headers : Fresh → List HttpHeader
unfolding ig_uuid4 ig_rand_range printed
fresh_headers f =
    named (codes "X-Pigeon-Session-Id")
      (printed 64 (codes "UFS-%s-1") (text (some (ig_uuid4 f.uuid)) ∷ [])).0
    ∷ named (codes "X-Pigeon-Rawclienttime")
        (lu_lu_text 32 (f.now_ms / 1000 % 2 ^ 32) (f.now_ms % 1000))
    ∷ named (codes "X-IG-Bandwidth-Speed-KBPS")
        (lu_lu_text 16 (ig_rand_range f.speed 2500 3000) (ig_rand_range f.speed_part 0 999))
    ∷ named (codes "X-IG-Bandwidth-TotalBytes-B")
        (lu_text 16 (ig_rand_range f.total_bytes 5000000 90000000))
    ∷ named (codes "X-IG-Bandwidth-TotalTime-MS")
        (lu_text 16 (ig_rand_range f.total_time 2000 9000))
    ∷ named (codes "X-IG-SALT-IDS") (lu_text 16 (ig_rand_range f.salt 1061162222 1061262222))
    ∷ named (codes "X-CM-Latency") (lu_text 8 (ig_rand_range f.latency 1 5))
    ∷ []

abbrev pub ig_fresh_headers_count : ℕ
ig_fresh_headers_count = 7

-- The headers that are written; the seven slices of `scratch` are the values of the last seven.
unfoldable pub ig_build_headers : List HttpHeader → Fresh → ℕ → ℕ → List HttpHeader
unfolding static_header fresh_headers
ig_build_headers session f out_cap scratch_cap =
    let static = map static_header (take out_cap session) in
    let need = ig_fresh_headers_count * 32 in
    if ltb scratch_cap need || ltb out_cap (length static + ig_fresh_headers_count)
    then static
    else static ++ fresh_headers f
