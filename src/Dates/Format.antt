-- ===== src/Dates/Format.antt =====
-- src/util.cc: the date that `http_date` writes, and reading it back.
use harmony_http.Prelude.{
  ℕ, zero, suc, ◌+◌, ◌/◌, ◌%◌, ◌<◌, ◌≡◌, refl, ap, ap₂, ◌∙◌, arith, List, [], ◌∷◌, ◌++◌, append-nil,
  Bytes, Bool, true, ◌&&◌, ◌==◌, Option, some, get_or, codes, length, length-append, drop, drop_all,
}
use harmony_http.Dates.{
  Tm, pos, write_uint, months, days_of_week, date_text, written, http_date, parse_http_date,
}
use harmony_http.Dates.Calendar.{IsDate, seconds, parse_http_date_lem}

-- The fields of a time as RFC 9110 writes them.
abbrev pub two_digits : ℕ → Bytes
two_digits n = (n / 10 + b'0') ∷ (n % 10 + b'0') ∷ []

abbrev pub four_digits : ℕ → Bytes
four_digits n =
    (n / 1000 + b'0') ∷ (n / 100 % 10 + b'0') ∷ (n / 10 % 10 + b'0') ∷ (n % 10 + b'0') ∷ []

abbrev pub fixtime : Tm → Bytes
fixtime tm =
    codes " "
    ++ (four_digits tm.year
        ++ (codes " "
            ++ (two_digits tm.hour
                ++ (codes ":"
                    ++ (two_digits tm.min ++ (codes ":" ++ (two_digits tm.sec ++ codes " GMT")))))))

abbrev pub fixdate : Tm → Bytes
fixdate tm =
    get_or days_of_week tm.wday []
    ++ (codes ", "
        ++ (two_digits tm.mday ++ (codes " " ++ (get_or months tm.mon [] ++ fixtime tm))))

-- A time that the format can hold.
pub record IsTime (tm : Tm) : Type 0 where
  pub date : IsDate tm
  pub four_digit_year : tm.year < 10000
  pub day_of_month : tm.mday < 32
  pub day_of_week : tm.wday < 7
  pub hours : tm.hour < 24
  pub minutes : tm.min < 60
  pub leap_seconds : tm.sec < 61

write_uint_two : (n : ℕ) → n < 100 → write_uint n 2 ≡ two_digits n
unfolding write_uint
write_uint_two n h = let tens : n / 10 % 10 ≡ n / 10 = omega arith in rw tens refl

write_uint_four : (n : ℕ) → n < 10000 → write_uint n 4 ≡ four_digits n
unfolding write_uint
write_uint_four n h =
    let thousands : n / 10 / 10 / 10 % 10 ≡ n / 1000 = omega arith in
    let hundreds : n / 10 / 10 % 10 ≡ n / 100 % 10 = omega arith in rw (thousands, hundreds) refl

date_text_lem : (tm : Tm) → IsTime tm → date_text tm ≡ fixdate tm
unfolding date_text
date_text_lem tm h =
    rw
      (
        write_uint_two tm.mday (omega arith),
        write_uint_four tm.year (omega arith),
        write_uint_two tm.hour (omega arith),
        write_uint_two tm.min (omega arith),
        write_uint_two tm.sec (omega arith),
      )
      refl

-- The names of days and months have three letters.
abbrev all_three : List Bytes → Bool
all_three [] = true
all_three (name ∷ names) = (length name == 3) && all_three names

length-name :
    (names : List Bytes) (i : ℕ)
    → all_three names ≡ true
    → i < length names
    → length (get_or names i []) ≡ 3
length-name [] i h k = absurd (omega arith)
length-name (name ∷ names) zero h k = ground arith
length-name (name ∷ names) (suc i) h k = length-name names i (ground arith) (omega arith)

length-fixdate : (tm : Tm) → IsTime tm → length (fixdate tm) ≡ 29
length-fixdate tm h =
    let day = get_or days_of_week tm.wday [] in
    let month = get_or months tm.mon [] in
    omega (
      arith,
      length-append day
          (codes ", " ++ (two_digits tm.mday ++ (codes " " ++ (month ++ fixtime tm)))),
      length-append month (fixtime tm),
      length-name days_of_week tm.wday refl (omega arith),
      length-name months tm.mon refl (omega arith),
    )

-- For a time with a four-digit year that gmtime_r makes, and 29 bytes of memory, `http_date` fills
-- exactly these bytes with the date as RFC 9110 writes it.
http_date_lem :
    (gmtime_r : ℕ → Option Tm) (t : ℕ) (tm : Tm) (res : Bytes)
    → gmtime_r t ≡ some tm
    → IsTime tm
    → length res ≡ 29
    → (http_date gmtime_r t res ≡ fixdate tm) × (length (http_date gmtime_r t res) ≡ 29)
unfolding http_date
http_date_lem gmtime_r t tm res e h size =
    let long = length-fixdate tm h in
    let rest : drop 29 res ≡ [] = drop_all 29 res (omega (arith, size)) in
    let text : written (gmtime_r t) res ≡ fixdate tm =
      ap (λ got. written got res) e
      ∙ ap₂ (λ x y. x ++ y) (date_text_lem tm h) rest
      ∙ append-nil (fixdate tm) in
    (text, ap length text ∙ long)

-- If moreover the seconds of the calendar are `t`, and strptime reads this date back, then
-- `parse_http_date` of what `http_date` wrote is `t`.
pub parse_http_date-http_date :
    (gmtime_r : ℕ → Option Tm) (strptime : Bytes → Option Tm) (t : ℕ) (tm : Tm) (res : Bytes)
    → gmtime_r t ≡ some tm
    → IsTime tm
    → seconds tm ≡ t
    → length res ≡ 29
    → strptime (fixdate tm) ≡ some tm
    → (parse_http_date strptime (http_date gmtime_r t res) ≡ pos t)
      × (length (http_date gmtime_r t res) ≡ 29)
parse_http_date-http_date gmtime_r strptime t tm res e h same size reads =
    let (text, long) = http_date_lem gmtime_r t tm res e h size in
    (
      ap (parse_http_date strptime) text
          ∙ parse_http_date_lem strptime (fixdate tm) tm reads h.date
          ∙ ap pos same,
      long,
    )
