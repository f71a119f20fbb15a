-- ===== src/Tests/Dates.antt =====
-- Source/CBLParseDate.c: dates at concrete inputs, in integer arithmetic.
use couchbase_lite_ios.Base.{◌≡◌, ◌⊎◌, refl, true, false, some, arith}
use couchbase_lite_ios.Base.Bytes.{codes}
use couchbase_lite_ios.Base.Int.{ℤ, pos, negsuc, ◌+ℤ◌, ◌-ℤ◌, ◌*ℤ◌, quot_ℤ, pos_part}
use couchbase_lite_ios.ParseDate.{
  Doubles, DateTime, julian_day_twice, parse_iso8601_date, seconds_since_1970, skip_space,
  skip_space_or_t, read_digits, rejects, get_digits, zulu_time, zone_offset, parse_timezone,
  fraction, parse_fraction, finish_time, parse_seconds, parse_hh_mm_ss, time_of_day, compute_jd,
  finish_date, parse_rest, parse_yyyy_mm_dd,
}
use couchbase_lite_ios.ParseDate.Calendar.{
  Date, IsDate, is_leap, next_day, days_in_month, julian_day_twice-next_day,
}
use couchbase_lite_ios.ParseDate.Accepted.{
  Reading, IsReading, denotes, since_midnight, parse_iso8601_date-Reading,
}
use couchbase_lite_ios.ParseDate.Days.{nth_day}
use couchbase_lite_ios.ParseDate.Digits.{offset}
use couchbase_lite_ios.ParseDate.Printed.{
  Stamp, IsStamp, print, date_of, time_of, midnight_of, parse_iso8601_date-print,
}

-- Integers for doubles; a quotient is cut off.
abbrev integers : Doubles
integers = record {
  Double = ℤ;
  of_int = λ z. z;
  add = ◌+ℤ◌;
  sub = ◌-ℤ◌;
  mul = λ a b. pos_part b *ℤ a;
  div = λ a b. quot_ℤ a (pos_part b);
  to_int = λ z. z;
  nan = negsuc 0;
}

abbrev memory : DateTime integers
memory = record {
  jd = pos 7;
  year = negsuc 7;
  month = 7;
  day = 7;
  hours = 7;
  minutes = 7;
  tz = pos 7;
  seconds = pos 7;
  valid_ymd = true;
  valid_hms = true;
  valid_jd = true;
  valid_tz = true;
}

epoch : julian_day_twice (pos 1970) 1 1 ≡ pos 4881175
unfolding julian_day_twice
epoch = refl

-- A leap day, with an offset, and texts that are no dates.
leap_day :
    (parse_iso8601_date integers memory (codes "2016-02-29T12:30:15+01:00") ≡ pos 1456745415)
    × (parse_iso8601_date integers memory (codes "2016-02-29") ≡ pos 1456704000)
    × (parse_iso8601_date integers memory (codes "2016-13-01") ≡ negsuc 0)
    × (parse_iso8601_date integers memory (codes "2016-02-29T1") ≡ negsuc 0)
unfolding parse_iso8601_date parse_yyyy_mm_dd parse_rest finish_date compute_jd time_of_day
    parse_hh_mm_ss parse_seconds finish_time parse_fraction fraction parse_timezone zone_offset
    zulu_time get_digits rejects read_digits skip_space_or_t skip_space julian_day_twice
    seconds_since_1970
leap_day = (refl, refl, refl, refl)

abbrev new_year : Date
new_year = record { year = 1999; month = 12; day = 31 }

new_year-IsDate : IsDate new_year
unfolding days_in_month
new_year-IsDate = record { year_in = omega arith; month_in = omega arith; day_in = omega arith }

julian_day_twice-next_day_example :
    julian_day_twice
      (pos (next_day new_year).year)
      (next_day new_year).month
      (next_day new_year).day
    ≡ julian_day_twice (pos 1999) 12 31 +ℤ pos 2
julian_day_twice-next_day_example = julian_day_twice-next_day new_year new_year-IsDate

parse_iso8601_date-Reading_example :
    ((x : DateTime integers)
      → parse_iso8601_date integers x (codes "2016-02-29T12:30:15+01:00") ≡ integers.nan)
    ⊎ ((r : Reading integers) × IsReading integers r
        × ((x : DateTime integers)
            → parse_iso8601_date integers x (codes "2016-02-29T12:30:15+01:00")
              ≡ seconds_since_1970 integers (denotes integers r)))
parse_iso8601_date-Reading_example =
    parse_iso8601_date-Reading integers (codes "2016-02-29T12:30:15+01:00")

abbrev stamp : Stamp integers
stamp = record {
  year = 2016;
  month = 2;
  day = 29;
  hours = 12;
  minutes = 30;
  seconds = 15;
  zone = some (false, 1, 0);
}

stamp-IsStamp : IsStamp integers stamp
stamp-IsStamp = record {
  year_in = omega arith;
  month_in = omega arith;
  day_in = omega arith;
  hours_in = omega arith;
  minutes_in = omega arith;
  seconds_in = omega arith;
  zone_in = (omega arith, omega arith);
}

printed : print integers stamp ≡ codes "2016-02-29T12:30:15+01:00"
printed = refl

-- The 59th day after the first is the leap day of the year 0.
abbrev leap_stamp : Stamp integers
leap_stamp = record stamp { year = 0 }

leap_stamp-IsStamp : IsStamp integers leap_stamp
leap_stamp-IsStamp = record {
  year_in = omega arith;
  month_in = omega arith;
  day_in = omega arith;
  hours_in = omega arith;
  minutes_in = omega arith;
  seconds_in = omega arith;
  zone_in = (omega arith, omega arith);
}

leap_stamp-day : date_of integers leap_stamp ≡ nth_day 59
unfolding nth_day next_day days_in_month is_leap
leap_stamp-day = refl

parse_iso8601_date-print_example :
    parse_iso8601_date integers memory (print integers leap_stamp)
    ≡ seconds_since_1970 integers (
        midnight_of integers 59
        +ℤ since_midnight integers (time_of integers leap_stamp)
        -ℤ 60000 *ℤ offset leap_stamp.zone)
parse_iso8601_date-print_example =
    parse_iso8601_date-print integers leap_stamp 59 memory leap_stamp-IsStamp leap_stamp-day
