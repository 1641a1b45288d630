-- ===== src/Platform/Days.antt =====
-- mbedtls_platform_gmtime_r of net/mbedtls_platform_nt4.c against the calendar, a day at a time.
use instagram_on_nt.Prelude.{
  ℕ, ◌+◌, ◌-◌, ◌*◌, ◌/◌, ◌%◌, ◌<◌, ◌≡◌, sym, ap, ◌∙◌, arith, leb, false, if◌then◌else◌,
}
use instagram_on_nt.Prelude.Int.{int_laws, pos, pos_part, ◌+ℤ◌, ◌-ℤ◌, ◌*ℤ◌, ltb_ℤ}
use instagram_on_nt.Platform.Calendar.{
  year_day, month_day, Tm, tm_of, div_int, mod_int, era_of, mbedtls_platform_gmtime_r,
}
use instagram_on_nt.Platform.Years.{Date, date_after}
use instagram_on_nt.Platform.Dates.{later_part, date_at, date_after-eq}

-- `struct tm` of a date, a weekday and the second of the day.
abbrev pub tm_for : Date → ℕ → ℕ → Tm
tm_for d wday s = record {
  tm_sec = s % 60;
  tm_min = s / 60 % 60;
  tm_hour = s / 60 / 60;
  tm_mday = d.day;
  tm_mon = d.mon - 1;
  tm_year = pos d.year -ℤ pos 1900;
  tm_wday = pos wday;
}

pos_sum : (a b : ℕ) → pos a +ℤ pos b ≡ pos (a + b)
pos_sum a b = omega int_laws

era_of-pos : (z : ℕ) → era_of (pos z) ≡ pos (z / 146097)
unfolding div_int ◌-ℤ◌
era_of-pos z = ground arith

doe_of-pos : (z : ℕ) → pos_part (pos z -ℤ pos (z / 146097) *ℤ pos 146097) ≡ z % 146097
unfolding ◌*ℤ◌ ◌-ℤ◌
doe_of-pos z = ground arith

weekday : (n : ℕ) → mod_int (mod_int (pos n) 7 +ℤ pos 7 +ℤ pos 4) 7 ≡ pos ((n + 4) % 7)
unfolding mod_int ◌+ℤ◌ ◌-ℤ◌
weekday n = ground arith

year_of-pos :
    (yoe era m : ℕ)
    → (let year = pos yoe +ℤ pos era *ℤ pos 400 in if leb m 2 then year +ℤ pos 1 else year)
      ≡ pos (yoe + era * 400 + later_part m)
unfolding ◌*ℤ◌ ◌+ℤ◌
year_of-pos yoe era m = ground arith

tm_of-date : (n s : ℕ) → tm_of (pos n) s ≡ tm_for (date_at (n + 719468)) ((n + 4) % 7) s
unfolding tm_of
tm_of-date n s =
    let z = n + 719468 in
    let yd = year_day (z % 146097) in
    rw (
      pos_sum n 719468,
      era_of-pos z,
      doe_of-pos z,
      weekday n,
      year_of-pos yd.yoe (z / 146097) (month_day yd.doy).mon,
    )

day_of-pos : (n s : ℕ) → s < 86400 → div_int (pos (n * 86400 + s)) 86400 ≡ pos n
unfolding div_int ◌-ℤ◌
day_of-pos n s h = ground arith

second_of-pos : (n s : ℕ) → s < 86400 → mod_int (pos (n * 86400 + s)) 86400 ≡ pos s
unfolding mod_int ◌-ℤ◌
second_of-pos n s h = ground arith

not_negative : (s : ℕ) (a b : Tm) → (if ltb_ℤ (pos s) (pos 0) then a else b) ≡ b
not_negative s a b = let e : ltb_ℤ (pos s) (pos 0) ≡ false = ground arith in rw e

gmtime_days :
    (n s : ℕ) → s < 86400 → mbedtls_platform_gmtime_r (pos (n * 86400 + s)) ≡ tm_of (pos n) s
unfolding mbedtls_platform_gmtime_r
gmtime_days n s h = rw (day_of-pos n s h, second_of-pos n s h) (not_negative s _ (tm_of (pos n) s))

-- At second `s` of the `n`-th day after 1970-01-01 mbedtls_platform_gmtime_r gives the date that
-- the calendar's rules reach in `n` steps from that day, the weekday that follows a Thursday by `n`,
-- and the hour, the minute and the second of `s`.
pub mbedtls_platform_gmtime_r-date :
    (n s : ℕ)
    → s < 86400
    → mbedtls_platform_gmtime_r (pos (n * 86400 + s)) ≡ tm_for (date_after n) ((n + 4) % 7) s
mbedtls_platform_gmtime_r-date n s h =
    gmtime_days n s h ∙ tm_of-date n s ∙ ap (λ d. tm_for d ((n + 4) % 7) s) (sym (date_after-eq n))
