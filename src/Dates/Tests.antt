-- ===== src/Dates/Tests.antt =====
-- src/util.cc: the date of the comment in src/util.h, written and read.
use harmony_http.Prelude.{◌≡◌, refl, arith, Bytes, Option, some, codes, length, replicate}
use harmony_http.Dates.{is_leap_year, Tm, pos, http_date, date_text, write_uint, parse_http_date}
use harmony_http.Dates.Calendar.{seconds, parse_http_date_lem}
use harmony_http.Dates.Format.{IsTime, parse_http_date-http_date}

abbrev sample : Tm
sample = record { year = 2014; mon = 8; mday = 27; wday = 6; hour = 6; min = 31; sec = 15 }

abbrev sample_text : Bytes
sample_text = codes "Sat, 27 Sep 2014 06:31:15 GMT"

abbrev always : {A : Type 0} → A → Option Tm
always x = some sample

sample-IsTime : IsTime sample
sample-IsTime = omega arith

parse_http_date_lem_example : parse_http_date always sample_text ≡ pos (seconds sample)
parse_http_date_lem_example = parse_http_date_lem always sample_text sample refl sample-IsTime.date

parse_http_date-http_date_example :
    (parse_http_date always (http_date always 1411799475 (replicate 29 0)) ≡ pos 1411799475)
    × (length (http_date always 1411799475 (replicate 29 0)) ≡ 29)
unfolding is_leap_year
parse_http_date-http_date_example =
    parse_http_date-http_date always always 1411799475 sample (replicate 29 0) refl sample-IsTime
      refl refl refl

sample_written : date_text sample ≡ sample_text
unfolding date_text write_uint
sample_written = refl
