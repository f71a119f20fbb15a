-- ===== src/ParseDate/Accepted.antt =====
-- Source/CBLParseDate.c: the whole of a text that is accepted, and the number that it denotes.
use couchbase_lite_ios.Base.{
  ℕ, ◌*◌, ◌≡◌, ◌≤◌, refl, sym, ap, ◌∙◌, ◌⊎◌, inl, inr, Bool, true, false, not, Option, none, some,
  [], ◌∷◌, ◌==◌, if◌then◌else◌, drop, arith, Bool-cases,
}
use couchbase_lite_ios.Base.Bytes.{Bytes}
use couchbase_lite_ios.Base.Int.{ℤ, pos, ◌+ℤ◌, ◌-ℤ◌, ◌*ℤ◌, eq_ℤ}
use couchbase_lite_ios.ParseDate.{
  Doubles, peek, skip_space_or_t, group, get_digits, three, DateTime, time_of_day, parse_hh_mm_ss,
  julian_day_twice, compute_jd, negate_if, finish_date, parse_rest, parse_yyyy_mm_dd,
  seconds_since_1970, parse_iso8601_date,
}
use couchbase_lite_ios.ParseDate.Parsed.{
  Time, IsTime, with_time, TimeOf, parse_hh_mm_ss-TimeOf, Fits, three-Within,
}

module _ (doubles : Doubles) where
  open doubles use {Double, of_int, add, mul, to_int, nan}

  pub record Reading : Type 0 where
    pub negative : Bool
    pub year : ℕ
    pub month : ℕ
    pub day : ℕ
    pub time : Option (Time doubles)

  abbrev pub IsTimeIf : Option (Time doubles) → Type 0
  IsTimeIf none = Unit
  IsTimeIf (some t) = IsTime doubles t

  pub record IsReading (r : Reading) : Type 0 where
    pub year_in : r.year ≤ 9999
    pub month_in : (1 ≤ r.month) × (r.month ≤ 12)
    pub day_in : (1 ≤ r.day) × (r.day ≤ 31)
    pub time_in : IsTimeIf r.time

  -- The milliseconds since the midnight before, less the offset.
  abbrev pub since_midnight : Time doubles → ℤ
  since_midnight t =
      pos (t.hours * 3600000)
      +ℤ pos (t.minutes * 60000)
      +ℤ to_int (mul (add (of_int (pos t.seconds)) t.fraction) (of_int (pos 1000)))

  abbrev pub add_time : ℤ → Option (Time doubles) → ℤ
  add_time midnight none = midnight
  add_time midnight (some t) = midnight +ℤ since_midnight t -ℤ 60000 *ℤ t.tz

  -- The milliseconds since noon of the first Julian day.
  abbrev pub denotes : Reading → ℤ
  denotes r =
      add_time (43200000 *ℤ julian_day_twice (negate_if r.negative r.year) r.month r.day) r.time

  sub_zero : (z : ℤ) → z -ℤ 60000 *ℤ pos 0 ≡ z
  sub_zero z = ground arith

  eq_zero : (z : ℤ) → eq_ℤ z (pos 0) ≡ true → z ≡ pos 0
  eq_zero z h = ground arith

  -- A result of the parser, error or not.
  abbrev ResultOf : (DateTime doubles → Bool × DateTime doubles) → Type 0
  ResultOf parse =
      ((p : DateTime doubles) → (parse p).0 ≡ true)
      ⊎ ((r : Reading) × IsReading r
          × ((p : DateTime doubles)
              → ((parse p).0 ≡ false) × ((compute_jd doubles (parse p).1).jd ≡ denotes r)))

  tz_flag : (z : ℤ) → not (eq_ℤ z (pos 0)) ≡ false → z ≡ pos 0
  tz_flag z h = elim (Bool-cases (eq_ℤ z (pos 0))) [
    | inl zero_given ↦ eq_zero z zero_given
    | inr given ↦ cc
  ]

  pub timed :
      (negative : Bool) (year month day : ℕ) (t : Time doubles) (p : DateTime doubles)
      → (compute_jd doubles
          (finish_date doubles negative year month day (with_time doubles t p)).1).jd
        ≡ denotes
            (record { negative = negative; year = year; month = month; day = day; time = some t })
  unfolding compute_jd finish_date with_time time_of_day
  timed negative year month day t p = at (not (eq_ℤ t.tz (pos 0))) (tz_flag t.tz)
    where
      flagged : Bool → DateTime doubles
      flagged b = record (with_time doubles t p) {
        valid_jd = false;
        valid_ymd = true;
        year = negate_if negative year;
        month = month;
        day = day;
        valid_tz = b;
      }

      untimed : ℤ
      untimed = 43200000 *ℤ julian_day_twice (negate_if negative year) month day +ℤ since_midnight t

      at :
          (b : Bool)
          → (b ≡ false → t.tz ≡ pos 0)
          → (compute_jd doubles (if b then compute_jd doubles (flagged b) else flagged b)).jd
            ≡ untimed -ℤ 60000 *ℤ t.tz
      at true h = refl
      at false h = sym (ap (λ tz. untimed -ℤ 60000 *ℤ tz) (h refl) ∙ sub_zero untimed)

  -- What `parse_rest` makes of a time.
  abbrev pub rest_of : Bool → ℕ → ℕ → ℕ → Bool → Bool × DateTime doubles → Bool × DateTime doubles
  rest_of negative year month day at_end (failed, p') =
      if not failed
      then finish_date doubles negative year month day p'
      else if at_end
      then finish_date doubles negative year month day
          (record p' { valid_hms = false; valid_tz = false })
      else (true, p')

  rest_of-ResultOf :
      (negative : Bool) (year month day : ℕ) (at_end : Bool)
      (parse : DateTime doubles → Bool × DateTime doubles)
      → year ≤ 9999
      → (1 ≤ month) × (month ≤ 12)
      → (1 ≤ day) × (day ≤ 31)
      → TimeOf doubles parse
      → ResultOf (λ p. rest_of negative year month day at_end (parse p))
  unfolding compute_jd finish_date
  rest_of-ResultOf negative year month day at_end parse y m d (inr (t, t_in, e)) = inr (
    record { negative = negative; year = year; month = month; day = day; time = some t },
    record { year_in = y; month_in = m; day_in = d; time_in = t_in },
    λ p. (
      ap (λ (r : Bool × DateTime doubles). (rest_of negative year month day at_end r).0) (e p)
          ∙ refl,
      ap
            (λ (r : Bool × DateTime doubles).
              (compute_jd doubles (rest_of negative year month day at_end r).1).jd)
            (e p)
          ∙ timed negative year month day t p,
    ),
  )
  rest_of-ResultOf negative year month day false parse y m d (inl fails) =
      inl (λ p. failed_there (parse p) (fails p))
    where
      failed_there :
          (r : Bool × DateTime doubles)
          → r.0 ≡ true
          → (rest_of negative year month day false r).0 ≡ true
      failed_there (true, p') h = refl
      failed_there (false, p') h = cc
  rest_of-ResultOf negative year month day true parse y m d (inl fails) = inr (
    record { negative = negative; year = year; month = month; day = day; time = none },
    record { year_in = y; month_in = m; day_in = d; time_in = tt },
    λ p. untimed (parse p) (fails p),
  )
    where
      untimed :
          (r : Bool × DateTime doubles)
          → r.0 ≡ true
          → ((rest_of negative year month day true r).0 ≡ false)
            × ((compute_jd doubles (rest_of negative year month day true r).1).jd
                ≡ 43200000 *ℤ julian_day_twice (negate_if negative year) month day)
      untimed (true, p') h = (refl, refl)
      untimed (false, p') h = cc

  read_date-ResultOf :
      (negative : Bool) (z : Bytes) (read : Option (ℕ × ℕ × ℕ))
      → ((y m d : ℕ)
          → read ≡ some (y, m, d)
          → Fits (group 4 0 9999 b'-') y × Fits (group 2 1 12 b'-') m × Fits (group 2 1 31 0) d)
      → ResultOf (λ p. elim read [
        | none ↦ (true, p)
        | some (year, month, day) ↦ parse_rest doubles negative year month day z p
      ])
  unfolding parse_rest
  read_date-ResultOf negative z none bounds = inl (λ p. refl)
  read_date-ResultOf negative z (some (y, m, d)) bounds =
      let (y_in, m_in, d_in) = bounds y m d refl in
      rest_of-ResultOf negative y m d (peek z == 0) (parse_hh_mm_ss doubles z) y_in.1 m_in d_in
        (parse_hh_mm_ss-TimeOf doubles z)

  parse_yyyy_mm_dd-ResultOf : (z : Bytes) → ResultOf (parse_yyyy_mm_dd doubles z)
  unfolding parse_yyyy_mm_dd
  parse_yyyy_mm_dd-ResultOf z =
      let negative = peek z == b'-' in
      let z' = if negative then drop 1 z else z in
      read_date-ResultOf negative (skip_space_or_t (drop 10 z'))
        (three (get_digits z' (group 4 0 9999 b'-' ∷ group 2 1 12 b'-' ∷ group 2 1 31 0 ∷ [])))
        (λ y m d e. three-Within z' _ _ _ y m d e)

  -- For every text, either the parser returns NaN whatever its uninitialized local variable holds, or
  -- there is a reading, with the year at most 9999, the month from 1 to 12, the day from 1 to 31,
  -- and, if it has a time, the hours at most 24, the minutes and seconds at most 59 and an offset of
  -- less than 15 hours, such that the parser returns, whatever that variable holds, the seconds
  -- since 1970 of the milliseconds that the reading denotes: those of its date's Julian day, and, with a time,
  -- those since its midnight less its offset.
  pub parse_iso8601_date-Reading :
      (z : Bytes)
      → ((x : DateTime doubles) → parse_iso8601_date doubles x z ≡ nan)
        ⊎ ((r : Reading) × IsReading r
            × ((x : DateTime doubles)
                → parse_iso8601_date doubles x z ≡ seconds_since_1970 doubles (denotes r)))
  unfolding parse_iso8601_date
  parse_iso8601_date-Reading z = from_result (parse_yyyy_mm_dd-ResultOf z)
    where
      finish : Bool × DateTime doubles → Double
      finish (failed, p) =
          if failed then nan else seconds_since_1970 doubles (compute_jd doubles p).jd

      when_failed : (r : Bool × DateTime doubles) → r.0 ≡ true → finish r ≡ nan
      when_failed (failed, p) h = rw h refl

      when_read :
          (r : Bool × DateTime doubles)
          → r.0 ≡ false
          → finish r ≡ seconds_since_1970 doubles (compute_jd doubles r.1).jd
      when_read (failed, p) h = rw h refl

      from_result :
          ResultOf (parse_yyyy_mm_dd doubles z)
          → ((x : DateTime doubles) → parse_iso8601_date doubles x z ≡ nan)
            ⊎ ((r : Reading) × IsReading r
                × ((x : DateTime doubles)
                    → parse_iso8601_date doubles x z ≡ seconds_since_1970 doubles (denotes r)))
      from_result (inl fails) = inl (λ x. when_failed (parse_yyyy_mm_dd doubles z x) (fails x))
      from_result (inr (r, r_in, e)) = inr (
        r,
        r_in,
        λ x.
            when_read (parse_yyyy_mm_dd doubles z x) (e x).0
            ∙ ap (seconds_since_1970 doubles) (e x).1,
      )
