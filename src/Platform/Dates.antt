-- ===== src/Platform/Dates.antt =====
-- The date that net/mbedtls_platform_nt4.c finds for a day, against the calendar, a day at a time.
use instagram_on_nt.Prelude.{
  ℕ, zero, suc, ◌+◌, ◌*◌, ◌/◌, ◌%◌, ◌<◌, ◌≡◌, refl, sym, ap, ◌∙◌, arith, ltb, leb, if◌then◌else◌,
  if_elim, Bool-cases, inl, inr,
}
use instagram_on_nt.Platform.Calendar.{year_day, month_day}
use instagram_on_nt.Platform.Years.{
  is_leap, month_length, Date, next_date, date_after, year_length, year_start-suc, year_start_mono,
  year_day-start, year_day_unique, month_day-same, month_day-next, month_day-last,
}

date_eq : (a b : Date) → a.year ≡ b.year → a.mon ≡ b.mon → a.day ≡ b.day → a ≡ b
date_eq a b p q r = λ i. record { year = p i; mon = q i; day = r i }

abbrev pub later_part : ℕ → ℕ
later_part m = if leb m 2 then 1 else 0

-- The date of a day of the year that begins in March of `year`.
abbrev date_of : ℕ → ℕ → Date
date_of year doy =
    let md = month_day doy in record { year = year + later_part md.mon; mon = md.mon; day = md.day }

-- Only a February asks for the next year's leap day.
month_length-year :
    (year m : ℕ)
    → month_length (is_leap (year + later_part m)) m ≡ month_length (is_leap (year + 1)) m
unfolding month_length
month_length-year year m = ground arith

next_date-within :
    (year doy : ℕ)
    → doy + 1 < (if is_leap (year + 1) then 366 else 365)
    → next_date (date_of year doy) ≡ date_of year (doy + 1)
unfolding next_date
next_date-within year doy h =
    let a = month_day doy in
    let b = month_day (doy + 1) in
    let leap = is_leap (year + 1) in
    let y = year + later_part a.mon in
    let l = month_length-year year a.mon in
    let done = date_of year (doy + 1) in
    if_elim (λ t. t ≡ done) (ltb a.day (month_length (is_leap y) a.mon))
      (λ e.
        let s = month_day-same leap doy h (ground (arith, l)) in
        date_eq _ done (ap (λ m. year + later_part m) (sym s.0)) (sym s.0) (sym s.1))
      (λ e.
        let s = month_day-next leap doy h (ground (arith, l)) in
        if_elim (λ t. t ≡ done) (ltb a.mon 12)
          (λ k. date_eq _ done (ground (arith, s)) (ground (arith, s)) (ground (arith, s)))
          (λ k. date_eq _ done (ground (arith, s)) (ground (arith, s)) (ground (arith, s))))

march_first : ((month_day 0).mon ≡ 3) × ((month_day 0).day ≡ 1)
unfolding month_day
march_first = (refl, refl)

next_date-last :
    (year doy : ℕ)
    → doy + 1 ≡ (if is_leap (year + 1) then 366 else 365)
    → next_date (date_of year doy) ≡ date_of (year + 1) 0
unfolding next_date
next_date-last year doy h =
    let a = month_day doy in
    let leap = is_leap (year + 1) in
    let y = year + later_part a.mon in
    let l = month_length-year year a.mon in
    let s = month_day-last leap doy h in
    let full : a.day ≡ month_length (is_leap y) a.mon =
      s.1 ∙ ap (month_length leap) (sym s.0) ∙ sym l in
    let f = march_first in
    let done = date_of (year + 1) 0 in
    if_elim (λ t. t ≡ done) (ltb a.day (month_length (is_leap y) a.mon))
      (λ e. absurd (ground (arith, full)))
      (λ e.
        if_elim (λ t. t ≡ done) (ltb a.mon 12)
          (λ k. date_eq _ done (ground (arith, s, f)) (ground (arith, s, f)) (ground (arith, s, f)))
          (λ k. absurd (ground (arith, s))))

-- The date of the day `z` after the March that begins era 0.
abbrev pub date_at : ℕ → Date
date_at z = let yd = year_day (z % 146097) in date_of (yd.yoe + z / 146097 * 400) yd.doy

date_at-within :
    (era doe : ℕ)
    → doe + 1 < 146097
    → let a = year_day doe in
      let b = year_day (doe + 1) in
      next_date (date_of (a.yoe + era * 400) a.doy) ≡ date_of (b.yoe + era * 400) b.doy
date_at-within era doe h =
    let a = year_day doe in
    let b = year_day (doe + 1) in
    let s = year_day-start doe (omega arith) in
    let l = year_start-suc era a.yoe in
    let n = year_length era a.yoe in
    elim (Bool-cases (ltb (a.doy + 1) n)) [
      | inl more ↦
          let u = year_day_unique (doe + 1) a.yoe h (omega (arith, s)) (ground (arith, s, l)) in
          let d : b.doy ≡ a.doy + 1 = omega (arith, s, u.1) in
          next_date-within (a.yoe + era * 400) a.doy (ground arith)
          ∙ (λ i. date_of (sym u.0 i + era * 400) (sym d i))
      | inr last ↦
          let e : a.doy + 1 ≡ n = ground (arith, s, l) in
          let u =
            year_day_unique (doe + 1) (a.yoe + 1) h (omega (arith, s, l, e))
              (omega (arith, s, l, e, year_start_mono a.yoe (a.yoe + 1))) in
          let d : b.doy ≡ 0 = omega (arith, s, u.1, l, e) in
          let y : a.yoe + era * 400 + 1 ≡ b.yoe + era * 400 = omega (arith, u.0) in
          next_date-last (a.yoe + era * 400) a.doy e ∙ (λ i. date_of (y i) (sym d i))
    ]

era_last :
    (era : ℕ)
    → let a = year_day 146096 in
      let b = year_day 0 in
      next_date (date_of (a.yoe + era * 400) a.doy) ≡ date_of (b.yoe + (era + 1) * 400) b.doy
unfolding year_day
era_last era =
    next_date-last (399 + era * 400) 365 (ground (arith, year_start-suc era 399))
    ∙ ap (λ y. date_of y 0) (omega arith)

date_at-suc : (z : ℕ) → next_date (date_at z) ≡ date_at (suc z)
date_at-suc z =
    let era = z / 146097 in
    let doe = z % 146097 in
    elim (Bool-cases (ltb (doe + 1) 146097)) [
      | inl more ↦
          let e : suc z / 146097 ≡ era = ground arith in
          let d : suc z % 146097 ≡ doe + 1 = ground arith in
          date_at-within era doe (ground arith)
          ∙ (λ i. let yd = year_day (sym d i) in date_of (yd.yoe + sym e i * 400) yd.doy)
      | inr last ↦
          let e : suc z / 146097 ≡ era + 1 = ground arith in
          let d : suc z % 146097 ≡ 0 = ground arith in
          let l : doe ≡ 146096 = ground arith in
          (λ i. let yd = year_day (l i) in next_date (date_of (yd.yoe + era * 400) yd.doy))
          ∙ era_last era
          ∙ (λ i. let yd = year_day (sym d i) in date_of (yd.yoe + sym e i * 400) yd.doy)
    ]

pub date_after-eq : (n : ℕ) → date_after n ≡ date_at (n + 719468)
unfolding date_after
date_after-eq zero = unfold year_day month_day in refl
date_after-eq (suc n) =
    ap next_date (date_after-eq n) ∙ date_at-suc (n + 719468) ∙ ap date_at (omega arith)
