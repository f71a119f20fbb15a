-- ===== src/ParseDate/Printed.antt =====
-- Source/CBLParseDate.c: the parser on the texts of the form `YYYY-MM-DDTHH:MM:SS`, with a zone.
use couchbase_lite_ios.Base.{
  ℕ, ◌+◌, ◌*◌, ◌/◌, ◌≡◌, ◌≤◌, refl, ap, ◌∙◌, Bool, true, false, none, some, [], ◌∷◌, ◌==◌,
  if◌then◌else◌, drop, arith,
}
use couchbase_lite_ios.Base.Bytes.{Bytes}
use couchbase_lite_ios.Base.Int.{ℤ, pos, ◌+ℤ◌, ◌-ℤ◌, ◌*ℤ◌}
use couchbase_lite_ios.ParseDate.Calendar.{Date}
use couchbase_lite_ios.ParseDate.Days.{nth_day, julian_day_twice-nth_day}
use couchbase_lite_ios.ParseDate.{
  Doubles, peek, skip_space, skip_space_or_t, group, get_digits, two, three, DateTime,
  parse_timezone, zone_offset, zulu_time, parse_fraction, finish_time, parse_seconds,
  parse_hh_mm_ss, negate_if, finish_date, parse_rest, parse_yyyy_mm_dd, seconds_since_1970,
  parse_iso8601_date, julian_day_twice,
}
use couchbase_lite_ios.ParseDate.Parsed.{Time, with_time}
use couchbase_lite_ios.ParseDate.Accepted.{Reading, denotes, since_midnight, rest_of, timed}
use couchbase_lite_ios.ParseDate.Digits.{
  two_digits, four_digits, read_digits-two_digits, read_digits-four_digits, get_digits-last,
  get_digits-more, Zone, print_zone, IsZone, offset, skip_space_or_t-digit,
}

module _ (doubles : Doubles) where
  open doubles use {Double, of_int}

  zone_offset-print_zone :
      (negative : Bool) (h m : ℕ) (p : DateTime doubles)
      → h ≤ 14
      → m ≤ 59
      → zone_offset doubles negative (two_digits h (b':' ∷ two_digits m [])) p
        ≡ (false, record p { tz = negate_if negative (m + h * 60) })
  unfolding zone_offset zulu_time skip_space
  zone_offset-print_zone negative h m p h14 m59 =
      rw
        (
          get_digits-last 2 0 14 h (two_digits h (b':' ∷ two_digits m [])) _
              (read_digits-two_digits h _ (omega arith)) (omega arith) h14,
          get_digits-last 2 0 59 m (two_digits m []) _ (read_digits-two_digits m _ (omega arith))
              (omega arith) m59,
          zone_offset,
        )
        refl

  parse_timezone-print_zone :
      (zone : Zone) (p : DateTime doubles)
      → IsZone zone
      → parse_timezone doubles (print_zone zone) p ≡ (false, record p { tz = offset zone })
  unfolding parse_timezone zulu_time skip_space
  parse_timezone-print_zone none p _ = refl
  parse_timezone-print_zone (some (true, h, m)) p (h14, m59) =
      zone_offset-print_zone true h m _ h14 m59
  parse_timezone-print_zone (some (false, h, m)) p (h14, m59) =
      zone_offset-print_zone false h m _ h14 m59

  -- A date, a time in whole seconds and a zone.
  pub record Stamp : Type 0 where
    pub year : ℕ
    pub month : ℕ
    pub day : ℕ
    pub hours : ℕ
    pub minutes : ℕ
    pub seconds : ℕ
    pub zone : Zone

  pub record IsStamp (s : Stamp) : Type 0 where
    pub year_in : s.year ≤ 9999
    pub month_in : (1 ≤ s.month) × (s.month ≤ 12)
    pub day_in : (1 ≤ s.day) × (s.day ≤ 31)
    pub hours_in : s.hours ≤ 24
    pub minutes_in : s.minutes ≤ 59
    pub seconds_in : s.seconds ≤ 59
    pub zone_in : IsZone s.zone

  abbrev pub print_seconds : Stamp → Bytes
  print_seconds s = two_digits s.seconds (print_zone s.zone)

  abbrev pub print_minutes : Stamp → Bytes
  print_minutes s = two_digits s.minutes (b':' ∷ print_seconds s)

  abbrev pub print_time : Stamp → Bytes
  print_time s = two_digits s.hours (b':' ∷ print_minutes s)

  abbrev pub print_day : Stamp → Bytes
  print_day s = two_digits s.day (b'T' ∷ print_time s)

  abbrev pub print_month : Stamp → Bytes
  print_month s = two_digits s.month (b'-' ∷ print_day s)

  abbrev pub print_year : Stamp → Bytes
  print_year s = four_digits s.year (b'-' ∷ print_month s)

  abbrev pub print : Stamp → Bytes
  print = print_year

  abbrev pub time_of : Stamp → Time doubles
  time_of s = record {
    hours = s.hours;
    minutes = s.minutes;
    seconds = s.seconds;
    fraction = of_int (pos 0);
    tz = offset s.zone;
  }

  abbrev pub date_of : Stamp → Date
  date_of s = record { day = s.day; month = s.month; year = s.year }

  abbrev pub reading_of : Stamp → Reading doubles
  reading_of s = record {
    negative = false;
    year = s.year;
    month = s.month;
    day = s.day;
    time = some (time_of s);
  }

  -- No fraction: the text goes on with a zone.
  parse_fraction-print_zone :
      (zone : Zone) → parse_fraction doubles (print_zone zone) ≡ (of_int (pos 0), print_zone zone)
  unfolding parse_fraction
  parse_fraction-print_zone none = refl
  parse_fraction-print_zone (some (true, h, m)) = refl
  parse_fraction-print_zone (some (false, h, m)) = refl

  finish_time-print_zone :
      (s : Stamp) (p : DateTime doubles)
      → IsZone s.zone
      → finish_time doubles s.hours s.minutes s.seconds (of_int (pos 0), print_zone s.zone) p
        ≡ (false, with_time doubles (time_of s) p)
  unfolding finish_time with_time
  finish_time-print_zone s p h = rw (parse_timezone-print_zone s.zone _ h, finish_time) refl

  parse_seconds-print_seconds :
      (s : Stamp) (p : DateTime doubles)
      → IsStamp s
      → parse_seconds doubles s.hours s.minutes (b':' ∷ print_seconds s) p
        ≡ (false, with_time doubles (time_of s) p)
  unfolding parse_seconds
  parse_seconds-print_seconds s p h =
      rw
        (
          get_digits-last 2 0 59 s.seconds (print_seconds s) _
              (read_digits-two_digits s.seconds _ (let i = h.seconds_in in omega arith))
              (omega arith) h.seconds_in,
          parse_fraction-print_zone s.zone,
          parse_seconds,
        )
        (finish_time-print_zone s p h.zone_in)

  get_digits-print_time :
      (s : Stamp)
      → IsStamp s
      → two (get_digits (print_time s) (group 2 0 24 b':' ∷ group 2 0 59 0 ∷ []))
        ≡ some (s.hours, s.minutes)
  get_digits-print_time s h = ap two (
      get_digits-more 2 0 24 b':' s.hours (print_time s) (print_minutes s) _
        (read_digits-two_digits s.hours _ (omega arith)) (omega arith) h.hours_in refl
      ∙ ap (λ ns. s.hours ∷ ns)
          (get_digits-last 2 0 59 s.minutes (print_minutes s) _
            (read_digits-two_digits s.minutes _ (omega arith)) (omega arith) h.minutes_in))

  parse_hh_mm_ss-print_time :
      (s : Stamp) (p : DateTime doubles)
      → IsStamp s
      → parse_hh_mm_ss doubles (print_time s) p ≡ (false, with_time doubles (time_of s) p)
  unfolding parse_hh_mm_ss
  parse_hh_mm_ss-print_time s p h =
      rw (get_digits-print_time s h, parse_hh_mm_ss) (parse_seconds-print_seconds s p h)

  get_digits-print_year :
      (s : Stamp)
      → IsStamp s
      → three (
          get_digits (print_year s) (group 4 0 9999 b'-' ∷ group 2 1 12 b'-' ∷ group 2 1 31 0 ∷ []))
        ≡ some (s.year, s.month, s.day)
  get_digits-print_year s h = ap three (
      get_digits-more 4 0 9999 b'-' s.year (print_year s) (print_month s) _
        (read_digits-four_digits s.year _ h.year_in) (omega arith) h.year_in refl
      ∙ ap (λ ns. s.year ∷ ns)
          (get_digits-more 2 1 12 b'-' s.month (print_month s) (print_day s) _
              (read_digits-two_digits s.month _ (omega arith)) (omega arith) (omega arith) refl
            ∙ ap (λ ns. s.month ∷ ns)
                (get_digits-last 2 1 31 s.day (print_day s) _
                  (read_digits-two_digits s.day _ (omega arith)) (omega arith) (omega arith))))

  parse_rest-print_time :
      (s : Stamp) (p : DateTime doubles)
      → IsStamp s
      → parse_rest doubles false s.year s.month s.day (print_time s) p
        ≡ finish_date doubles false s.year s.month s.day (with_time doubles (time_of s) p)
  unfolding parse_rest
  parse_rest-print_time s p h =
      ap (rest_of doubles false s.year s.month s.day (peek (print_time s) == 0))
        (parse_hh_mm_ss-print_time s p h)

  no_minus : (s : Stamp) → (peek (print s) == b'-') ≡ false
  no_minus s = ground arith

  unsigned :
      (s : Stamp) → (if peek (print s) == b'-' then drop 1 (print s) else print s) ≡ print_year s
  unsigned s = rw (no_minus s) refl

  parse_date : Bool → Bytes → DateTime doubles → Bool × DateTime doubles
  parse_date negative z p =
      elim (three (get_digits z (group 4 0 9999 b'-' ∷ group 2 1 12 b'-' ∷ group 2 1 31 0 ∷ []))) [
        | none ↦ (true, p)
        | some (year, month, day) ↦
            parse_rest doubles negative year month day (skip_space_or_t (drop 10 z)) p
      ]

  parse_date-print_year :
      (s : Stamp) (p : DateTime doubles)
      → IsStamp s
      → parse_date false (print_year s) p
        ≡ finish_date doubles false s.year s.month s.day (with_time doubles (time_of s) p)
  unfolding parse_date skip_space_or_t
  parse_date-print_year s p h =
      rw (get_digits-print_year s h, parse_date)
        (ap (λ z. parse_rest doubles false s.year s.month s.day z p)
            (skip_space_or_t-digit (s.hours / 10) _)
          ∙ parse_rest-print_time s p h)

  parse_yyyy_mm_dd-print :
      (s : Stamp) (p : DateTime doubles)
      → IsStamp s
      → parse_yyyy_mm_dd doubles (print s) p
        ≡ finish_date doubles false s.year s.month s.day (with_time doubles (time_of s) p)
  unfolding parse_yyyy_mm_dd parse_date
  parse_yyyy_mm_dd-print s p h =
      ap (λ b. parse_date b (if peek (print s) == b'-' then drop 1 (print s) else print s) p)
        (no_minus s)
      ∙ ap (λ z. parse_date false z p) (unsigned s)
      ∙ parse_date-print_year s p h

  -- Midnight of the day so many days after January 1st of the year 0, in milliseconds since noon of the first
  -- Julian day.
  abbrev pub midnight_of : ℕ → ℤ
  midnight_of n = 43200000 *ℤ pos (3442119 + 2 * n)

  reading_of-nth_day :
      (s : Stamp) (n : ℕ)
      → IsStamp s
      → date_of s ≡ nth_day n
      → denotes doubles (reading_of s)
        ≡ midnight_of n +ℤ since_midnight doubles (time_of s) -ℤ 60000 *ℤ offset s.zone
  reading_of-nth_day s n h e =
      let in_range : (nth_day n).year ≤ 9999 =
        omega (arith, h.year_in, ap (λ (t : Date). t.year) e) in
      let same : julian_day_twice (pos s.year) s.month s.day ≡ pos (3442119 + 2 * n) =
        ap (λ (t : Date). julian_day_twice (pos t.year) t.month t.day) e
        ∙ julian_day_twice-nth_day n in_range in
      ap (λ j. 43200000 *ℤ j +ℤ since_midnight doubles (time_of s) -ℤ 60000 *ℤ offset s.zone) same

  -- For a date of the Gregorian calendar from 0000-01-01 to 9999-12-31, which is the n-th day after the first of
  -- these, a time in whole seconds and a zone, `Z` or an offset with a sign, with each number within the
  -- parser's bounds, the parser accepts the text `YYYY-MM-DDTHH:MM:SS` with the zone and returns,
  -- whatever its uninitialized variable holds, the seconds since 1970 of the instant that is n days and that
  -- time after midnight of 0000-01-01, less the offset.
  pub parse_iso8601_date-print :
      (s : Stamp) (n : ℕ) (x : DateTime doubles)
      → IsStamp s
      → date_of s ≡ nth_day n
      → parse_iso8601_date doubles x (print s)
        ≡ seconds_since_1970 doubles
            (midnight_of n +ℤ since_midnight doubles (time_of s) -ℤ 60000 *ℤ offset s.zone)
  unfolding parse_iso8601_date finish_date
  parse_iso8601_date-print s n x h e = rw (parse_yyyy_mm_dd-print s x h) (
      ap (seconds_since_1970 doubles)
        (timed doubles false s.year s.month s.day (time_of s) x ∙ reading_of-nth_day s n h e))
