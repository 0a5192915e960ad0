-- ===== src/Dates/Calendar.antt =====
-- src/util.cc: the days that `parse_http_date` counts.
use harmony_http.Prelude.{
  ℕ, zero, suc, ◌+◌, ◌-◌, ◌*◌, ◌≤◌, ◌<◌, ◌≡◌, ap, ◌∙◌, arith, [], ◌∷◌, Bytes, true, false, ◌&&◌,
  Option, some, ltb, leb, if◌then◌else◌, get_or,
}
use harmony_http.Dates.{
  Tm, pos, count_leap_year, is_leap_year, daysum, days_counted, days_to_epoch, to_time, time_of,
  parse_http_date,
}

-- The calendar, year by year and month by month.
abbrev pub leap_day : ℕ → ℕ
leap_day y = if is_leap_year y then 1 else 0

abbrev pub days_to_year : ℕ → ℕ
days_to_year zero = 0
days_to_year (suc n) = days_to_year n + (365 + leap_day (1970 + n))

-- Month 0 is January.
abbrev pub month_length : ℕ → ℕ → ℕ
month_length y zero = 31
month_length y (suc zero) = 28 + leap_day y
month_length y (suc (suc m)) = get_or (31 ∷ 30 ∷ 31 ∷ 30 ∷ 31 ∷ 31 ∷ 30 ∷ 31 ∷ 30 ∷ 31 ∷ []) m 0

abbrev pub days_to_month : ℕ → ℕ → ℕ
days_to_month y zero = 0
days_to_month y (suc m) = days_to_month y m + month_length y m

-- A day of the calendar, from 1970 on.
pub record IsDate (tm : Tm) : Type 0 where
  pub since_1970 : 1970 ≤ tm.year
  pub month_of_year : tm.mon < 12
  pub first_day : 1 ≤ tm.mday

abbrev pub seconds : Tm → ℕ
seconds tm =
    (days_to_year (tm.year - 1970) + days_to_month tm.year tm.mon + (tm.mday - 1)) * 86400
    + tm.hour * 3600
    + tm.min * 60
    + tm.sec

-- A year brings a leap day exactly if it is a leap year.
count_leap_year-suc : (y : ℕ) → 1 ≤ y → count_leap_year (suc y) ≡ count_leap_year y + leap_day y
unfolding count_leap_year is_leap_year
count_leap_year-suc y h = ground arith

days_to_year_lem :
    (n : ℕ) → days_to_year n + count_leap_year 1970 ≡ n * 365 + count_leap_year (1970 + n)
days_to_year_lem zero = omega arith
days_to_year_lem (suc n) =
    let next : 1970 + suc n ≡ suc (1970 + n) = omega arith in
    let step = ap count_leap_year next ∙ count_leap_year-suc (1970 + n) (omega arith) in
    omega (arith, days_to_year_lem n, step)

days_to_month_lem :
    (y m : ℕ)
    → m < 12
    → days_to_month y m ≡ get_or daysum m 0 + (if leb 2 m && is_leap_year y then 1 else 0)
days_to_month_lem y zero h = omega arith
days_to_month_lem y (suc zero) h = omega arith
days_to_month_lem y (suc (suc zero)) h = omega arith
days_to_month_lem y (suc (suc (suc zero))) h = omega arith
days_to_month_lem y (suc (suc (suc (suc zero)))) h = omega arith
days_to_month_lem y (suc (suc (suc (suc (suc zero))))) h = omega arith
days_to_month_lem y (suc (suc (suc (suc (suc (suc zero)))))) h = omega arith
days_to_month_lem y (suc (suc (suc (suc (suc (suc (suc zero))))))) h = omega arith
days_to_month_lem y (suc (suc (suc (suc (suc (suc (suc (suc zero)))))))) h = omega arith
days_to_month_lem y (suc (suc (suc (suc (suc (suc (suc (suc (suc zero))))))))) h = omega arith
days_to_month_lem y (suc (suc (suc (suc (suc (suc (suc (suc (suc (suc zero)))))))))) h = omega arith
days_to_month_lem y (suc (suc (suc (suc (suc (suc (suc (suc (suc (suc (suc zero))))))))))) h =
    omega arith
days_to_month_lem y (suc (suc (suc (suc (suc (suc (suc (suc (suc (suc (suc (suc m)))))))))))) h =
    absurd (omega arith)

days_counted_lem :
    (tm : Tm)
    → IsDate tm
    → days_counted tm
      ≡ days_to_epoch
        + (days_to_year (tm.year - 1970) + days_to_month tm.year tm.mon + (tm.mday - 1))
unfolding days_counted days_to_epoch
days_counted_lem tm d =
    let year : 1970 + (tm.year - 1970) ≡ tm.year = omega arith in
    let years = days_to_year_lem (tm.year - 1970) in
    let leaps = ap count_leap_year year in
    omega (arith, years, leaps, days_to_month_lem tm.year tm.mon d.month_of_year)

-- For a date from 1970 on that strptime read, `parse_http_date` returns the seconds since 1970-01-01
-- by the calendar, years and months counted one by one with their lengths.
pub parse_http_date_lem :
    (strptime : Bytes → Option Tm) (str : Bytes) (tm : Tm)
    → strptime str ≡ some tm
    → IsDate tm
    → parse_http_date strptime str ≡ pos (seconds tm)
unfolding parse_http_date to_time
parse_http_date_lem strptime str tm e d =
    let early : ltb 11 tm.mon ≡ false = ground arith in
    let days = days_counted_lem tm d in
    let late : leb (days_to_epoch * 24 * 3600)
          ((days_counted tm * 24 + tm.hour) * 3600 + tm.min * 60 + tm.sec)
        ≡ true =
      ground (arith, days) in
    ap time_of e ∙ rw (early, late) (ap pos (omega (arith, days)))
