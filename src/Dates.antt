-- ===== src/Dates.antt =====
-- src/util.cc: `parse_http_date` and `http_date`. strptime and gmtime_r are parameters.
pub mod Calendar
pub mod Format
mod Tests
use harmony_http.Prelude.{
  ℕ, zero, suc, ◌+◌, ◌-◌, ◌*◌, ◌/◌, ◌%◌, List, [], ◌∷◌, ◌++◌, Bytes, Bool, true, false, ◌&&◌, ◌||◌,
  not, Option, some, none, ltb, leb, ◌==◌, if◌then◌else◌, drop, codes, get_or,
}

-- `struct tm`; `year` is tm_year + 1900.
pub record Tm : Type 0 where
  pub year : ℕ
  pub mon : ℕ
  pub mday : ℕ
  pub wday : ℕ
  pub hour : ℕ
  pub min : ℕ
  pub sec : ℕ

-- A time_t, and a difference of two natural numbers as one.
pub data ℤ : Type 0 where
  pos negsuc : ℕ → ℤ

abbrev pub difference : ℕ → ℕ → ℤ
difference a b = if leb b a then pos (a - b) else negsuc (b - a - 1)

unfoldable pub count_leap_year : ℕ → ℕ
count_leap_year y = (y - 1) / 4 - (y - 1) / 100 + (y - 1) / 400

unfoldable pub is_leap_year : ℕ → Bool
is_leap_year y = (y % 4 == 0) && (not (y % 100 == 0) || (y % 400 == 0))

abbrev pub daysum : List ℕ
daysum = 0 ∷ 31 ∷ 59 ∷ 90 ∷ 120 ∷ 151 ∷ 181 ∷ 212 ∷ 243 ∷ 273 ∷ 304 ∷ 334 ∷ []

-- `days` of the source is the difference of these two.
unfoldable pub days_counted : Tm → ℕ
unfolding count_leap_year is_leap_year
days_counted tm =
    tm.year * 365
    + count_leap_year tm.year
    + get_or daysum tm.mon 0
    + tm.mday
    + (if leb 2 tm.mon && is_leap_year tm.year then 1 else 0)

unfoldable pub days_to_epoch : ℕ
unfolding count_leap_year
days_to_epoch = 1970 * 365 + count_leap_year 1970 + 1

unfoldable pub to_time : Tm → ℤ
unfolding days_counted days_to_epoch
to_time tm =
    if ltb 11 tm.mon
    then negsuc 0
    else difference ((days_counted tm * 24 + tm.hour) * 3600 + tm.min * 60 + tm.sec)
        (days_to_epoch * 24 * 3600)

abbrev pub time_of : Option Tm → ℤ
time_of none = pos 0
time_of (some tm) = to_time tm

unfoldable pub parse_http_date : (Bytes → Option Tm) → Bytes → ℤ
parse_http_date strptime str = time_of (strptime str)

-- `len` digits, the last of the number last.
unfoldable pub write_uint : ℕ → ℕ → Bytes
write_uint n zero = []
write_uint n (suc len) = write_uint (n / 10) len ++ (n % 10 + b'0') ∷ []

abbrev pub months : List Bytes
months =
    codes "Jan"
    ∷ codes "Feb"
    ∷ codes "Mar"
    ∷ codes "Apr"
    ∷ codes "May"
    ∷ codes "Jun"
    ∷ codes "Jul"
    ∷ codes "Aug"
    ∷ codes "Sep"
    ∷ codes "Oct"
    ∷ codes "Nov"
    ∷ codes "Dec"
    ∷ []

abbrev pub days_of_week : List Bytes
days_of_week =
    codes "Sun"
    ∷ codes "Mon"
    ∷ codes "Tue"
    ∷ codes "Wed"
    ∷ codes "Thu"
    ∷ codes "Fri"
    ∷ codes "Sat"
    ∷ []

-- What is written for the fields.
unfoldable pub date_text : Tm → Bytes
date_text tm =
    get_or days_of_week tm.wday []
    ++ (b','
        ∷ b' '
        ∷ (write_uint tm.mday 2
            ++ (b' '
                ∷ (get_or months tm.mon []
                    ++ (b' '
                        ∷ (write_uint tm.year 4
                            ++ (b' '
                                ∷ (write_uint tm.hour 2
                                    ++ (b':'
                                        ∷ (write_uint tm.min 2
                                            ++ (b':'
                                                ∷ (write_uint tm.sec 2 ++ codes " GMT"))))))))))))

-- `res` is the memory that the text goes to.
abbrev pub written : Option Tm → Bytes → Bytes
written none res = res
written (some tm) res = date_text tm ++ drop 29 res

unfoldable pub http_date : (ℕ → Option Tm) → ℕ → Bytes → Bytes
http_date gmtime_r t res = written (gmtime_r t) res
