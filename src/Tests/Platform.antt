-- ===== src/Tests/Platform.antt =====
-- Runs of net/mbedtls_platform_nt4.c, and its properties at concrete formats and times.
use instagram_on_nt.Prelude.{
  ℕ, ◌+◌, ◌*◌, ◌%◌, ◌≡◌, refl, arith, List, [], ◌∷◌, some, codes, length, ◌++◌,
}
use instagram_on_nt.Prelude.Int.{pos, neg, int32, uint32, sub_int, ◌+ℤ◌, ◌-ℤ◌, ◌*ℤ◌}
use instagram_on_nt.Platform.{
  Arg, word, text, mbedtls_nt4_snprintf, mbedtls_nt4_vsnprintf, printed, content_cap, overwrite,
  put_byte, format_loop, emit, emit_byte, next_piece, at_letter, convert, read_conversion,
  read_width, emit_int, emit_uint, uint_digits,
}
use instagram_on_nt.Platform.Calendar.{
  mbedtls_platform_gmtime_r, tm_of, year_day, month_day, div_int, mod_int,
}
use instagram_on_nt.Platform.Printed.{formatted}
use instagram_on_nt.Platform.Printing.{terminated, mbedtls_nt4_snprintf-formatted}
use instagram_on_nt.Platform.Years.{date_after}
use instagram_on_nt.Platform.Days.{tm_for, mbedtls_platform_gmtime_r-date}

abbrev serial : List ℕ
serial = codes "%lu.%03lu|%s|%X"

abbrev serial_args : List Arg
serial_args = word 12 ∷ word 7 ∷ text (some (codes "ab")) ∷ word 255 ∷ []

abbrev old_bytes : List ℕ
old_bytes = codes "#########"

abbrev long_bytes : List ℕ
long_bytes = codes "###############"

serial_lem :
    mbedtls_nt4_snprintf old_bytes 9 serial serial_args ≡ (some (codes "12.007|a" ++ (0 ∷ [])), 12)
unfolding mbedtls_nt4_snprintf mbedtls_nt4_vsnprintf printed content_cap overwrite put_byte
    format_loop emit emit_byte next_piece at_letter convert read_conversion read_width emit_int
    emit_uint uint_digits int32 sub_int uint32 ◌-ℤ◌
serial_lem = refl

mbedtls_nt4_snprintf-formatted_example : mbedtls_nt4_snprintf long_bytes 15 serial serial_args ≡ (
  some (terminated long_bytes (formatted 20 serial serial_args)),
  length (formatted 20 serial serial_args),
)
unfolding formatted next_piece at_letter convert read_conversion read_width emit_int emit_uint
    uint_digits
mbedtls_nt4_snprintf-formatted_example =
    mbedtls_nt4_snprintf-formatted long_bytes serial serial_args 20 (omega arith) (omega arith)
      (omega arith)

-- 2000-02-29 12:34:56, a Tuesday, and the last second of 1969, a Wednesday.
leap_day : mbedtls_platform_gmtime_r (pos 951827696) ≡ record {
  tm_sec = 56;
  tm_min = 34;
  tm_hour = 12;
  tm_mday = 29;
  tm_mon = 1;
  tm_year = pos 100;
  tm_wday = pos 2;
}
unfolding mbedtls_platform_gmtime_r tm_of year_day month_day div_int mod_int ◌+ℤ◌ ◌-ℤ◌ ◌*ℤ◌
leap_day = refl

before_epoch : mbedtls_platform_gmtime_r (neg 1) ≡ record {
  tm_sec = 59;
  tm_min = 59;
  tm_hour = 23;
  tm_mday = 31;
  tm_mon = 11;
  tm_year = pos 69;
  tm_wday = pos 3;
}
unfolding mbedtls_platform_gmtime_r tm_of year_day month_day div_int mod_int ◌+ℤ◌ ◌-ℤ◌ ◌*ℤ◌
before_epoch = refl

mbedtls_platform_gmtime_r-date_example :
    mbedtls_platform_gmtime_r (pos (365 * 86400 + 59)) ≡ tm_for (date_after 365) (369 % 7) 59
mbedtls_platform_gmtime_r-date_example = mbedtls_platform_gmtime_r-date 365 59 (omega arith)
