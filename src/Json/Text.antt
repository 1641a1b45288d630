-- ===== src/Json/Text.antt =====
-- core/json.c: white space and strings.
use instagram_on_nt.Prelude.{
  ℕ, zero, suc, ◌+◌, ◌-◌, ◌*◌, ◌/◌, ◌%◌, ◌^◌, ◌==◌, ◌||◌, ◌&&◌, Bool, false, List, [], ◌∷◌, ◌++◌,
  ltb, leb, if◌then◌else◌, length, Option, none, some,
}
use instagram_on_nt.Prelude.Result.{Result, ok, failed, out_of_fuel, ◌>>=◌, from_option}
use mathlib.Core.Option

unfoldable pub is_ws : ℕ → Bool
is_ws c = c == b' ' || (c == 9 || (c == 10 || c == 13))

unfoldable pub skip_ws : List ℕ → List ℕ
unfolding is_ws
skip_ws [] = []
skip_ws (c ∷ rest) = if is_ws c then skip_ws rest else c ∷ rest

unfoldable pub starts : ℕ → List ℕ → Bool
starts p [] = false
starts p (c ∷ rest) = c == p

-- The first pass: how many bytes stand before the closing quote. A backslash hides the byte behind it.
unfoldable pub scan : List ℕ → Option ℕ
scan [] = none
scan (c ∷ []) = if c == b'"' then some 0 else none
scan (c ∷ d ∷ rest) =
    let escaped = Option.map (λ (n : ℕ). n + 2) (scan rest) in
    let plain = Option.map (λ (n : ℕ). n + 1) (scan (d ∷ rest)) in
    if c == b'"' then some 0 else if c == 92 then escaped else plain

unfoldable pub hex_digit : ℕ → Option ℕ
hex_digit h =
    if leb b'0' h && leb h b'9'
    then some (h - b'0')
    else if leb b'a' h && leb h b'f'
    then some (h - b'a' + 10)
    else if leb b'A' h && leb h b'F'
    then some (h - b'A' + 10)
    else none

-- `for (i = 0; i < 4; i++)` with `n` rounds left: `cp <<= 4; cp |= digit` on a clear nibble.
unfoldable pub hex_loop : ℕ → ℕ → List ℕ → Option (ℕ × List ℕ)
unfolding hex_digit
hex_loop zero cp ts = some (cp, ts)
hex_loop (suc n) cp [] = none
hex_loop (suc n) cp (h ∷ rest) = elim (hex_digit h) [
  | none ↦ none
  | some d ↦ hex_loop n (cp * 16 + d) rest
]

-- `unsigned` arithmetic, modulo 2 ^ 32.
unfoldable pub astral : ℕ → ℕ → ℕ
astral cp lo = (0x10000 + (cp - 0xD800) * 2 ^ 10 + (lo + 2 ^ 32 - 0xDC00)) % 2 ^ 32

abbrev pub is_high : ℕ → Bool
is_high cp = leb 0xD800 cp && leb cp 0xDBFF

-- A high surrogate followed by `\u` takes four digits more.
unfoldable pub read_low : ℕ → List ℕ → Option (ℕ × List ℕ)
unfolding hex_loop astral
read_low cp (b ∷ u ∷ rest) =
    if b == 92 && u == b'u'
    then elim (hex_loop 4 0 rest) [ none ↦ none | some (lo, rest') ↦ some (astral cp lo, rest') ]
    else some (cp, b ∷ u ∷ rest)
read_low cp ts = some (cp, ts)

unfoldable pub read_unicode : List ℕ → Option (ℕ × List ℕ)
unfolding hex_loop read_low
read_unicode ts = elim (hex_loop 4 0 ts) [
  | none ↦ none
  | some (cp, rest) ↦ if is_high cp then read_low cp rest else some (cp, rest)
]

-- UTF-8; the fields joined by `|` do not overlap, and the masks are remainders.
unfoldable pub utf8 : ℕ → List ℕ
utf8 cp =
    if ltb cp 0x80
    then cp ∷ []
    else if ltb cp 0x800
    then (0xC0 + cp / 2 ^ 6) % 256 ∷ (0x80 + cp % 64) ∷ []
    else if ltb cp 0x10000
    then (0xE0 + cp / 2 ^ 12) % 256 ∷ (0x80 + cp / 2 ^ 6 % 64) ∷ (0x80 + cp % 64) ∷ []
    else (0xF0 + cp / 2 ^ 18) % 256
      ∷ (0x80 + cp / 2 ^ 12 % 64)
      ∷ (0x80 + cp / 2 ^ 6 % 64)
      ∷ (0x80 + cp % 64)
      ∷ []

-- The escapes of one letter.
unfoldable pub short_escape : ℕ → Option ℕ
short_escape e =
    if e == b'"'
    then some b'"'
    else if e == 92
    then some 92
    else if e == b'/'
    then some b'/'
    else if e == b'b'
    then some 8
    else if e == b'f'
    then some 12
    else if e == b'n'
    then some 10
    else if e == b'r'
    then some 13
    else if e == b't'
    then some 9
    else none

-- What a backslash and the bytes behind it stand for, and what is left.
unfoldable pub escape : List ℕ → Option (List ℕ × List ℕ)
unfolding short_escape read_unicode utf8
escape [] = none
escape (e ∷ rest) =
    if e == b'u'
    then elim (read_unicode rest) [ none ↦ none | some (cp, rest') ↦ some (utf8 cp, rest') ]
    else elim (short_escape e) [ none ↦ none | some c ↦ some (c ∷ [], rest) ]

-- The second pass, from behind the opening quote: the decoded bytes, and the text behind the closing
-- quote. A round takes a byte at least.
unfoldable pub decode : ℕ → List ℕ → Result (List ℕ × List ℕ)
unfolding escape
decode zero ts = out_of_fuel
decode (suc f) [] = failed
decode (suc f) (c ∷ rest) =
    let plain = decode f rest >>= λ (out, r). ok (c ∷ out, r) in
    let escaped = from_option (escape rest) >>= λ (bytes, rest').
    (decode f rest' >>= λ (out, r). ok (bytes ++ out, r)) in
    if c == b'"' then ok ([], rest) else if c == 92 then escaped else plain

-- `failed` is NULL: no quote, an unterminated string or a bad escape.
unfoldable pub parse_string_raw : List ℕ → Result (List ℕ × List ℕ)
unfolding scan decode
parse_string_raw [] = failed
parse_string_raw (c ∷ rest) =
    if c == b'"'
    then elim (scan rest) [ none ↦ failed | some n ↦ decode (length rest + 1) rest ]
    else failed
