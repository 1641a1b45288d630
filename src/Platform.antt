-- ===== src/Platform.antt =====
-- net/mbedtls_platform_nt4.c: the formatted printing that the network code uses. A word is the bit
-- pattern of an argument of 32 bits, and a format is taken to have its arguments.
pub mod Calendar
pub mod Printed
pub mod Printing
pub mod Numbers
pub mod Years
pub mod Dates
pub mod Days
use instagram_on_nt.Prelude.{
  ℕ, zero, suc, ◌+◌, ◌-◌, ◌*◌, ◌/◌, ◌%◌, ◌^◌, ◌==◌, ◌&&◌, ◌||◌, Bool, true, false, List, [], ◌∷◌,
  ◌++◌, Option, none, some, ltb, leb, if◌then◌else◌, codes, length, get_or, replicate,
}
use mathlib.Core.Option
use instagram_on_nt.Prelude.Int.{ℤ, pos, negsuc, pos_part, int32, sub_int, ltb_ℤ}

pub data Arg : Type 0 where
  word : ℕ → Arg
  text : Option (List ℕ) → Arg

-- `buf` up to the position or the capacity, and `*pos`.
pub record Out : Type 0 where
  pub written : List ℕ
  pub pos : ℕ

unfoldable pub emit_byte : ℕ → Out → ℕ → Out
emit_byte cap o c = record {
  written = if ltb o.pos cap then o.written ++ (c ∷ []) else o.written;
  pos = o.pos + 1;
}

unfoldable pub emit : ℕ → Out → List ℕ → Out
unfolding emit_byte
emit cap o [] = o
emit cap o (c ∷ s) = emit cap (emit_byte cap o c) s

abbrev pub hex_table : Bool → List ℕ
hex_table true = codes "0123456789ABCDEF"
hex_table false = codes "0123456789abcdef"

-- The digits of `v` in front of `done`; the array has room for 32.
unfoldable pub uint_digits : ℕ → ℕ → Bool → ℕ → List ℕ → List ℕ
uint_digits zero base upper v done = done
uint_digits (suc room) base upper v done =
    let d = get_or (hex_table upper) (v % base) 0 ∷ done in
    let rest = uint_digits room base upper (v / base) d in if v / base == 0 then d else rest

-- What emit_uint emits.
unfoldable pub emit_uint : ℕ → ℕ → Bool → ℕ → Bool → List ℕ
unfolding uint_digits
emit_uint v base upper width zero_pad =
    let digits = uint_digits 32 base upper v [] in
    replicate (width - length digits) (if zero_pad then b'0' else b' ') ++ digits

abbrev pub next_word : List Arg → ℕ
next_word (word v ∷ args) = v
next_word _ = 0

abbrev pub or_null : Option (List ℕ) → List ℕ
or_null none = codes "(null)"
or_null (some s) = s

abbrev pub next_text : List Arg → List ℕ
next_text (text s ∷ args) = or_null s
next_text _ = []

abbrev pub tail : List Arg → List Arg
tail [] = []
tail (a ∷ args) = args

-- `v < 0` is that the bit pattern is 2^31 or more.
unfoldable pub emit_int : ℕ → ℕ → Bool → List ℕ
unfolding emit_uint
emit_int v width zero_pad =
    if ltb v (2 ^ 31)
    then emit_uint v 10 false width zero_pad
    else b'-' ∷ emit_uint (2 ^ 32 - v) 10 false width zero_pad

-- The flags and the width in front of a conversion, and the format from its letter on.
pub record Conversion : Type 0 where
  pub zero_pad : Bool
  pub width : ℕ
  pub from : List ℕ

unfoldable pub read_width : ℕ → List ℕ → ℕ × List ℕ
read_width width [] = (width, [])
read_width width (c ∷ p) =
    if leb b'0' c && leb c b'9' then read_width (width * 10 + (c - b'0')) p else (width, c ∷ p)

-- `if (*p == m) p++`
abbrev pub skip_byte : ℕ → List ℕ → List ℕ
skip_byte m [] = []
skip_byte m (c ∷ p) = if c == m then p else c ∷ p

abbrev pub starts_with_zero : List ℕ → Bool
starts_with_zero [] = false
starts_with_zero (c ∷ p) = c == b'0'

unfoldable pub read_conversion : List ℕ → Conversion
unfolding read_width
read_conversion p =
    let w = read_width 0 (skip_byte b'0' p) in
    record {
      zero_pad = starts_with_zero p;
      width = w.0;
      from = skip_byte b'z' (skip_byte b'l' w.1);
    }

-- What a conversion emits, and the arguments that it leaves.
unfoldable pub convert : Conversion → ℕ → List Arg → List ℕ × List Arg
unfolding emit_int emit_uint
convert v c args =
    let x = next_word args in
    if c == b'%'
    then (b'%' ∷ [], args)
    else if c == b'c'
    then ((x % 256) ∷ [], tail args)
    else if c == b's'
    then (next_text args, tail args)
    else if c == b'd' || c == b'i'
    then (emit_int x v.width v.zero_pad, tail args)
    else if c == b'u'
    then (emit_uint x 10 false v.width v.zero_pad, tail args)
    else if c == b'x'
    then (emit_uint x 16 false v.width v.zero_pad, tail args)
    else if c == b'X'
    then (emit_uint x 16 true v.width v.zero_pad, tail args)
    else (b'%' ∷ c ∷ [], args)

-- What one round of the loop over the format emits, and the format and the arguments that it leaves.
pub record Piece : Type 0 where
  pub output : List ℕ
  pub rest : List ℕ
  pub args : List Arg

unfoldable pub at_letter : Conversion → List ℕ → List Arg → Piece
unfolding convert
at_letter v [] args = record { output = b'%' ∷ []; rest = []; args = args }
at_letter v (c ∷ p) args = let r = convert v c args in record { output = r.0; rest = p; args = r.1 }

unfoldable pub next_piece : ℕ → List ℕ → List Arg → Piece
unfolding at_letter read_conversion
next_piece c p args =
    let v = read_conversion p in
    let conversion = at_letter v v.from args in
    if c == b'%' then conversion else record { output = c ∷ []; rest = p; args = args }

-- The loop, which takes a byte of the format at least in each round. emit goes byte by byte, so the
-- parts of a conversion can be emitted as one text.
unfoldable pub format_loop : ℕ → ℕ → List ℕ → List Arg → Out → Out
unfolding next_piece emit
format_loop zero cap p args o = o
format_loop (suc fuel) cap [] args o = o
format_loop (suc fuel) cap (c ∷ p) args o =
    let s = next_piece c p args in format_loop fuel cap s.rest s.args (emit cap o s.output)

-- `(n > 0) ? (int)n - 1 : 0`
unfoldable pub content_cap : ℕ → ℤ
unfolding int32 sub_int
content_cap n = if ltb 0 n then sub_int (int32 (pos n)) (pos 1) else pos 0

-- What the loop has stored of a buffer of `n` bytes when it ends, and the result. Callers read the
-- buffer as a string, which is this text: the NUL is written behind it. emit stores nothing with a
-- negative capacity.
unfoldable pub printed : ℕ → List ℕ → List Arg → List ℕ × ℕ
unfolding format_loop content_cap
printed n fmt args =
    let o =
      format_loop (length fmt) (pos_part (content_cap n)) fmt args
        (record { written = []; pos = 0 }) in
    (o.written, o.pos)

-- `buf` with the bytes stored from its start on; nothing if they run past its end.
unfoldable pub overwrite : List ℕ → List ℕ → Option (List ℕ)
overwrite [] buf = some buf
overwrite (c ∷ s) [] = none
overwrite (c ∷ s) (b ∷ buf) = Option.map (◌∷◌ c) (overwrite s buf)

-- `buf[i] = c`; nothing outside the buffer.
unfoldable pub put_byte : List ℕ → ℕ → ℕ → Option (List ℕ)
put_byte [] i c = none
put_byte (b ∷ buf) zero c = some (c ∷ buf)
put_byte (b ∷ buf) (suc i) c = Option.map (◌∷◌ b) (put_byte buf i c)

abbrev pub nul_at : Option (List ℕ) → ℤ → Option (List ℕ)
nul_at none i = none
nul_at (some buf) (pos i) = put_byte buf i 0
nul_at (some buf) (negsuc i) = none

-- What `buf` holds afterwards, which is nothing if a byte is stored outside it, and the result.
unfoldable pub mbedtls_nt4_vsnprintf : List ℕ → ℕ → List ℕ → List Arg → Option (List ℕ) × ℕ
unfolding printed overwrite put_byte content_cap
mbedtls_nt4_vsnprintf buf n fmt args =
    let cap = content_cap n in
    let r = printed n fmt args in
    let stored = overwrite r.0 buf in
    (if ltb 0 n then nul_at stored (if ltb_ℤ (pos r.1) cap then pos r.1 else cap) else stored, r.1)

unfoldable pub mbedtls_nt4_snprintf : List ℕ → ℕ → List ℕ → List Arg → Option (List ℕ) × ℕ
unfolding mbedtls_nt4_vsnprintf
mbedtls_nt4_snprintf buf n fmt args = mbedtls_nt4_vsnprintf buf n fmt args
