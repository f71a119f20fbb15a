-- ===== src/ParseDate.antt =====
-- Source/CBLParseDate.c. A C string is the list of the bytes before its terminating zero, a pointer
-- into it the rest of the list, `*p` at the end 0. The numbers of type `int` are at most four
-- digits long, and nothing overflows. Characters are classified as in the C locale.
--
-- The Julian day of a date is a half-integer below 2 ^ 23 in size, so that the product of
-- `computeJD` is exact in a `double`: it is an integer here. Fractions of a second are in the
-- arithmetic of the parameter `Doubles`.
pub mod Calendar
pub mod Days
pub mod Parsed
pub mod Accepted
pub mod Digits
pub mod Printed
use couchbase_lite_ios.Base.{
  ℕ, zero, suc, ◌+◌, ◌-◌, ◌*◌, ◌≡◌, ◌≤◌, ◌<◌, Bool, true, false, not, ◌&&◌, ◌||◌, Option, none,
  some, List, [], ◌∷◌, ltb, leb, ◌==◌, if◌then◌else◌, drop,
}
use couchbase_lite_ios.Base.Bytes.{Bytes, is_digit}
use couchbase_lite_ios.Base.Int.{
  ℤ, pos, negsuc, sub_ℕ, ◌+ℤ◌, ◌-ℤ◌, ◌*ℤ◌, quot_ℤ, eq_ℤ, pos_part, neg_part,
}

-- The processor's `double`.
pub record Doubles : Type 1 where
  pub Double : Type 0
  pub of_int : ℤ → Double
  pub add : Double → Double → Double
  pub sub : Double → Double → Double
  pub mul : Double → Double → Double
  pub div : Double → Double → Double
  pub to_int : Double → ℤ
  pub nan : Double

-- `*p`
abbrev pub peek : Bytes → ℕ
peek [] = 0
peek (c ∷ _) = c

abbrev pub is_space : ℕ → Bool
is_space c = (c == 32) || (leb 9 c && leb c 13)

unfoldable pub skip_space : Bytes → Bytes
skip_space [] = []
skip_space (c ∷ cs) = let rest = skip_space cs in if is_space c then rest else c ∷ cs

unfoldable pub skip_space_or_t : Bytes → Bytes
skip_space_or_t [] = []
skip_space_or_t (c ∷ cs) =
    let rest = skip_space_or_t cs in if is_space c || (c == b'T') then rest else c ∷ cs

-- A group of arguments of `getDigits`; a `next` of 0 is the last.
pub record Group : Type 0 where
  pub count : ℕ
  pub least : ℕ
  pub most : ℕ
  pub next : ℕ

abbrev pub group : ℕ → ℕ → ℕ → ℕ → Group
group count least most next = record { count = count; least = least; most = most; next = next }

-- The inner loop: `none` for the `goto`.
unfoldable pub read_digits : ℕ → ℕ → Bytes → Option (ℕ × Bytes)
read_digits zero val z = some (val, z)
read_digits (suc n) val [] = none
read_digits (suc n) val (c ∷ cs) =
    let rest = read_digits n (val * 10 + c - b'0') cs in if is_digit c then rest else none

unfoldable pub rejects : Group → ℕ → Bytes → Bool
rejects g val z = ltb val g.least || ltb g.most val || (not (g.next == 0) && not (g.next == peek z))

-- The integers that were written, in the order of the groups.
unfoldable pub get_digits : Bytes → List Group → List ℕ
unfolding read_digits rejects
get_digits z [] = []
get_digits z (g ∷ gs) = elim (read_digits g.count 0 z) [
  | none ↦ []
  | some (val, rest) ↦ elim (rejects g val rest) [
    | true ↦ []
    | false ↦ elim (g.next == 0) [ true ↦ val ∷ [] | false ↦ val ∷ get_digits (drop 1 rest) gs ]
  ]
]

-- The written integers, if the call returns the number of its groups.
abbrev pub one : List ℕ → Option ℕ
one (a ∷ []) = some a
one _ = none

abbrev pub two : List ℕ → Option (ℕ × ℕ)
two (a ∷ b ∷ []) = some (a, b)
two _ = none

abbrev pub three : List ℕ → Option (ℕ × ℕ × ℕ)
three (a ∷ b ∷ c ∷ []) = some (a, b, c)
three _ = none

abbrev pub skip_colon : Bytes → Bytes
skip_colon z = if peek z == b':' then drop 1 z else z

abbrev pub negate_if : Bool → ℕ → ℤ
negate_if negative n = if negative then sub_ℕ 0 n else pos n

-- Twice the Julian day of the noon or midnight that a date begins with, less than 2 ^ 24 in size.
unfoldable pub julian_day_twice : ℤ → ℕ → ℕ → ℤ
julian_day_twice year month day =
    let y = if leb month 2 then year -ℤ pos 1 else year in
    let m = if leb month 2 then month + 12 else month in
    let a = quot_ℤ y 100 in
    let b = pos 2 -ℤ a +ℤ quot_ℤ a 4 in
    let x1 = quot_ℤ (36525 *ℤ (y +ℤ pos 4716)) 100 in
    let x2 = quot_ℤ (306001 *ℤ pos (m + 1)) 10000 in 2 *ℤ (x1 +ℤ x2 +ℤ pos day +ℤ b) -ℤ pos 3049

module _ (doubles : Doubles) where
  open doubles use {Double, of_int, add, sub, mul, div, to_int, nan}

  -- The `double` of a small constant.
  abbrev pub literal : ℕ → Double
  literal n = of_int (pos n)

  pub record DateTime : Type 0 where
    pub jd : ℤ
    pub year : ℤ
    pub month : ℕ
    pub day : ℕ
    pub hours : ℕ
    pub minutes : ℕ
    pub tz : ℤ
    pub seconds : Double
    pub valid_ymd : Bool
    pub valid_hms : Bool
    pub valid_jd : Bool
    pub valid_tz : Bool

  -- The label `zulu_time`.
  unfoldable pub zulu_time : Bytes → DateTime → Bool × DateTime
  zulu_time z p = (not (peek (skip_space z) == 0), p)

  -- Hours and minutes behind a sign.
  unfoldable pub zone_offset : Bool → Bytes → DateTime → Bool × DateTime
  unfolding zulu_time
  zone_offset negative z p = elim (one (get_digits z (group 2 0 14 0 ∷ []))) [
    | none ↦ (true, p)
    | some hours ↦
        let z' = skip_colon (drop 2 z) in
        elim (one (get_digits z' (group 2 0 59 0 ∷ []))) [
          | none ↦ (true, p)
          | some minutes ↦
              zulu_time (drop 2 z') (record p { tz = negate_if negative (minutes + hours * 60) })
        ]
  ]

  -- The result is true for an error, as C has it.
  unfoldable pub parse_timezone : Bytes → DateTime → Bool × DateTime
  unfolding skip_space zone_offset zulu_time
  parse_timezone z p =
      let z1 = skip_space z in
      let p1 = record p { tz = pos 0 } in
      let c = peek z1 in
      if c == b'-'
      then zone_offset true (drop 1 z1) p1
      else if c == b'+'
      then zone_offset false (drop 1 z1) p1
      else if (c == b'Z') || (c == b'z')
      then zulu_time (drop 1 z1) p1
      else (not (c == 0), p1)

  -- The loop over the digits of a fraction, with `ms` and `rScale`.
  unfoldable pub fraction : Double → Double → Bytes → Double × Bytes
  fraction ms scale [] = (div ms scale, [])
  fraction ms scale (c ∷ cs) =
      let rest =
        fraction (sub (add (mul ms (literal 10)) (literal c)) (literal b'0'))
          (mul scale (literal 10)) cs in
      if is_digit c then rest else (div ms scale, c ∷ cs)

  unfoldable pub parse_fraction : Bytes → Double × Bytes
  unfolding fraction
  parse_fraction z =
      if (peek z == b'.') && is_digit (peek (drop 1 z))
      then fraction (literal 0) (literal 1) (drop 1 z)
      else (literal 0, z)

  -- From `p->validJD = 0` on.
  unfoldable pub finish_time : ℕ → ℕ → ℕ → Double × Bytes → DateTime → Bool × DateTime
  finish_time hours minutes seconds (ms, z) p =
      let (failed, p') = parse_timezone z (record p {
        valid_jd = false;
        valid_hms = true;
        hours = hours;
        minutes = minutes;
        seconds = add (literal seconds) ms;
      }) in
      if failed then (true, p') else (false, record p' { valid_tz = not (eq_ℤ p'.tz (pos 0)) })

  -- Seconds, if there are any.
  unfoldable pub parse_seconds : ℕ → ℕ → Bytes → DateTime → Bool × DateTime
  unfolding finish_time
  parse_seconds hours minutes z p =
      if peek z == b':'
      then elim (one (get_digits (drop 1 z) (group 2 0 59 0 ∷ []))) [
        | none ↦ (true, p)
        | some seconds ↦ finish_time hours minutes seconds (parse_fraction (drop 3 z)) p
      ]
      else finish_time hours minutes 0 (literal 0, z) p

  unfoldable pub parse_hh_mm_ss : Bytes → DateTime → Bool × DateTime
  unfolding parse_seconds finish_time
  parse_hh_mm_ss z p = elim (two (get_digits z (group 2 0 24 b':' ∷ group 2 0 59 0 ∷ []))) [
    | none ↦ (true, p)
    | some (hours, minutes) ↦ parse_seconds hours minutes (drop 5 z) p
  ]

  -- The milliseconds of the time of day.
  unfoldable pub time_of_day : DateTime → ℤ
  time_of_day p =
      pos (p.hours * 3600000) +ℤ pos (p.minutes * 60000) +ℤ to_int (mul p.seconds (literal 1000))

  unfoldable pub compute_jd : DateTime → DateTime
  unfolding julian_day_twice time_of_day
  compute_jd p =
      let twice =
        if p.valid_ymd
        then julian_day_twice p.year p.month p.day
        else julian_day_twice (pos 2000) 1 1 in
      let jd = 43200000 *ℤ twice in
      if p.valid_jd
      then p
      else if not p.valid_hms
      then record p { jd = jd; valid_jd = true }
      else if p.valid_tz
      then record p {
        jd = jd +ℤ time_of_day p -ℤ 60000 *ℤ p.tz;
        valid_jd = true;
        valid_ymd = false;
        valid_hms = false;
        valid_tz = false;
      }
      else record p { jd = jd +ℤ time_of_day p; valid_jd = true }

  -- From the last `p->validJD = 0` on.
  unfoldable pub finish_date : Bool → ℕ → ℕ → ℕ → DateTime → Bool × DateTime
  finish_date negative year month day p =
      let p' = record p {
        valid_jd = false;
        valid_ymd = true;
        year = negate_if negative year;
        month = month;
        day = day;
      } in
      (false, if p'.valid_tz then compute_jd p' else p')

  -- Behind the date: a time, or nothing.
  unfoldable pub parse_rest : Bool → ℕ → ℕ → ℕ → Bytes → DateTime → Bool × DateTime
  unfolding finish_date
  parse_rest negative year month day z p =
      let (failed, p') = parse_hh_mm_ss z p in
      if not failed
      then finish_date negative year month day p'
      else if peek z == 0
      then finish_date negative year month day (record p' { valid_hms = false; valid_tz = false })
      else (true, p')

  unfoldable pub parse_yyyy_mm_dd : Bytes → DateTime → Bool × DateTime
  unfolding skip_space_or_t parse_rest finish_date
  parse_yyyy_mm_dd z p =
      let negative = peek z == b'-' in
      let z' = if negative then drop 1 z else z in
      elim (three (get_digits z' (group 4 0 9999 b'-' ∷ group 2 1 12 b'-' ∷ group 2 1 31 0 ∷ []))) [
        | none ↦ (true, p)
        | some (year, month, day) ↦
            parse_rest negative year month day (skip_space_or_t (drop 10 z')) p
      ]

  -- Milliseconds to seconds since 1970.
  unfoldable pub seconds_since_1970 : ℤ → Double
  seconds_since_1970 jd = sub (div (of_int jd) (literal 1000)) (literal 210866760000)

  -- The local variable `x` is not initialized: its contents are an argument.
  unfoldable pub parse_iso8601_date : DateTime → Bytes → Double
  unfolding seconds_since_1970
  parse_iso8601_date x z =
      let (failed, p) = parse_yyyy_mm_dd z x in
      if failed then nan else seconds_since_1970 (compute_jd p).jd
