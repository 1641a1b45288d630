-- ===== src/Platform/Years.antt =====
-- The rules of the calendar, and the years and months of net/mbedtls_platform_nt4.c.
use instagram_on_nt.Prelude.{
  ℕ, zero, suc, ◌+◌, ◌-◌, ◌*◌, ◌/◌, ◌%◌, ◌<◌, ◌≤◌, ◌≡◌, ◌≢◌, ap, arith, ltb, ◌==◌, ◌&&◌, ◌||◌, not,
  Bool, if◌then◌else◌,
}
use instagram_on_nt.Platform.Calendar.{year_day, month_day}

-- The rules of the Gregorian calendar.
unfoldable pub is_leap : ℕ → Bool
is_leap y = (y % 4 == 0 && not (y % 100 == 0)) || y % 400 == 0

unfoldable pub month_length : Bool → ℕ → ℕ
month_length leap m =
    if m == 2
    then (if leap then 29 else 28)
    else if m == 4 || (m == 6 || (m == 9 || m == 11))
    then 30
    else 31

pub record Date : Type 0 where
  pub year : ℕ
  pub mon : ℕ
  pub day : ℕ

unfoldable pub next_date : Date → Date
unfolding month_length is_leap
next_date d =
    if ltb d.day (month_length (is_leap d.year) d.mon)
    then record d { day = d.day + 1 }
    else if ltb d.mon 12
    then record d { mon = d.mon + 1; day = 1 }
    else record { year = d.year + 1; mon = 1; day = 1 }

-- The date `n` days after 1970-01-01.
unfoldable pub date_after : ℕ → Date
unfolding next_date
date_after zero = record { year = 1970; mon = 1; day = 1 }
date_after (suc n) = next_date (date_after n)

-- The day of its era on which year `k` begins.
abbrev year_start : ℕ → ℕ
year_start k = 365 * k + k / 4 - k / 100 + k / 400

abbrev pub year_length : ℕ → ℕ → ℕ
year_length era k = if is_leap (k + era * 400 + 1) then 366 else 365

pub year_start-suc : (era k : ℕ) → year_start (k + 1) ≡ year_start k + year_length era k
unfolding is_leap
year_start-suc era k = ground arith

pub year_start_mono : (a b : ℕ) → a < b → year_start (a + 1) ≤ year_start b
year_start_mono a b h = omega arith

-- Day `doe` of an era is day `doy` of the era's year `yoe`.
pub year_day-start :
    (doe : ℕ)
    → doe < 146097
    → (year_start (year_day doe).yoe + (year_day doe).doy ≡ doe)
      × (doe < year_start ((year_day doe).yoe + 1))
      × ((year_day doe).yoe < 400)
unfolding year_day
year_day-start doe h = (omega arith, omega arith, omega arith)

pub year_day_unique :
    (doe k : ℕ)
    → doe < 146097
    → year_start k ≤ doe
    → doe < year_start (k + 1)
    → ((year_day doe).yoe ≡ k) × ((year_day doe).doy ≡ doe - year_start k)
year_day_unique doe k h low high =
    let s = year_day-start doe h in
    let y = (year_day doe).yoe in
    let e : y ≡ k = omega (arith, year_start_mono y k, year_start_mono k y) in
    (e, omega (arith, ap year_start e))

pub month_day-same :
    (leap : Bool) (doy : ℕ)
    → doy + 1 < (if leap then 366 else 365)
    → (month_day doy).day < month_length leap (month_day doy).mon
    → ((month_day (doy + 1)).mon ≡ (month_day doy).mon)
      × ((month_day (doy + 1)).day ≡ (month_day doy).day + 1)
unfolding month_day month_length
month_day-same leap doy h k = (ground arith, ground arith)

pub month_day-next :
    (leap : Bool) (doy : ℕ)
    → doy + 1 < (if leap then 366 else 365)
    → month_length leap (month_day doy).mon ≤ (month_day doy).day
    → ((month_day doy).mon ≢ 2)
      × ((month_day (doy + 1)).mon
          ≡ (if ltb (month_day doy).mon 12 then (month_day doy).mon + 1 else 1))
      × ((month_day (doy + 1)).day ≡ 1)
unfolding month_day month_length
month_day-next leap doy h k = (ground arith, ground arith, ground arith)

-- The last day of February.
pub month_day-last :
    (leap : Bool) (doy : ℕ)
    → doy + 1 ≡ (if leap then 366 else 365)
    → ((month_day doy).mon ≡ 2) × ((month_day doy).day ≡ month_length leap 2)
unfolding month_day month_length
month_day-last leap doy h = (ground arith, ground arith)
