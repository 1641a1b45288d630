-- ===== src/Platform/Calendar.antt =====
-- mbedtls_platform_gmtime_r of net/mbedtls_platform_nt4.c. The seconds are so few that 64 bits hold
-- every intermediate value.
use instagram_on_nt.Prelude.{ℕ, ◌+◌, ◌-◌, ◌*◌, ◌/◌, ◌%◌, ◌^◌, ltb, leb, if◌then◌else◌}
use instagram_on_nt.Prelude.Int.{ℤ, pos, pos_part, neg_part, ◌+ℤ◌, ◌-ℤ◌, ◌*ℤ◌, ltb_ℤ, leb_ℤ}

-- `a / n` and `a % n` round to 0.
unfoldable pub div_int : ℤ → ℕ → ℤ
div_int a n = pos (pos_part a / n) -ℤ pos (neg_part a / n)

unfoldable pub mod_int : ℤ → ℕ → ℤ
mod_int a n = pos (pos_part a % n) -ℤ pos (neg_part a % n)

-- A year of the 400 years of an era that begin in March, and the day of it.
pub record YearDay : Type 0 where
  pub yoe : ℕ
  pub doy : ℕ

unfoldable pub year_day : ℕ → YearDay
year_day doe =
    let yoe = (doe - doe / 1460 + doe / 36524 - doe / 146096) / 365 in
    record { yoe = yoe; doy = doe - (365 * yoe + yoe / 4 - yoe / 100) }

-- The month, with March as 3 and February as 2, and the day of it.
pub record MonthDay : Type 0 where
  pub mon : ℕ
  pub day : ℕ

unfoldable pub month_day : ℕ → MonthDay
month_day doy =
    let mp = (5 * doy + 2) / 153 in
    record { mon = if ltb mp 10 then mp + 3 else mp - 9; day = doy - (153 * mp + 2) / 5 + 1 }

-- `struct tm`, with the fields that are always 0 left out.
pub record Tm : Type 0 where
  pub tm_sec : ℕ
  pub tm_min : ℕ
  pub tm_hour : ℕ
  pub tm_mday : ℕ
  pub tm_mon : ℕ
  pub tm_year : ℤ
  pub tm_wday : ℤ

-- `(z >= 0 ? z : z - 146096) / 146097`
abbrev pub era_of : ℤ → ℤ
era_of z = div_int (if leb_ℤ (pos 0) z then z else z -ℤ pos 146096) 146097

-- The fields from the days and the seconds of the day. What is cast to an unsigned type is not
-- negative.
unfoldable pub tm_of : ℤ → ℕ → Tm
unfolding year_day month_day div_int mod_int ◌+ℤ◌ ◌-ℤ◌ ◌*ℤ◌
tm_of days rem =
    let z = days +ℤ pos 719468 in
    let era = era_of z in
    let yd = year_day (pos_part (z -ℤ era *ℤ pos 146097)) in
    let md = month_day yd.doy in
    let year = pos yd.yoe +ℤ era *ℤ pos 400 in
    let year = if leb md.mon 2 then year +ℤ pos 1 else year in
    record {
      tm_sec = rem % 60;
      tm_min = rem / 60 % 60;
      tm_hour = rem / 60 / 60;
      tm_mday = md.day;
      tm_mon = md.mon - 1;
      tm_year = year -ℤ pos 1900;
      tm_wday = mod_int (mod_int days 7 +ℤ pos 7 +ℤ pos 4) 7;
    }

unfoldable pub mbedtls_platform_gmtime_r : ℤ → Tm
unfolding tm_of div_int mod_int ◌+ℤ◌ ◌-ℤ◌
mbedtls_platform_gmtime_r secs =
    let days = div_int secs 86400 in
    let rem = mod_int secs 86400 in
    if ltb_ℤ rem (pos 0)
    then tm_of (days -ℤ pos 1) (pos_part (rem +ℤ pos 86400))
    else tm_of days (pos_part rem)

-- The seconds since 1970, from the two words of a FILETIME; `time_t` is taken to have room for them.
unfoldable pub time : ℕ → ℕ → ℕ
time high low =
    let t100ns = high * 2 ^ 32 + low in (t100ns + 2 ^ 64 - 116444736000000000) % 2 ^ 64 / 10000000
