-- ===== src/ParseDate/Calendar.antt =====
-- Source/CBLParseDate.c, `computeJD`: its formula counts the days of the Gregorian calendar.
use couchbase_lite_ios.Base.{
  ℕ, zero, suc, ◌+◌, ◌*◌, ◌/◌, ◌%◌, ◌≡◌, ◌≢◌, ◌≤◌, ◌<◌, refl, ap, ◌∙◌, inl, inr, Bool, true, false,
  not, ◌&&◌, ◌||◌, leb, ltb, ◌==◌, if◌then◌else◌, arith, Bool-cases,
}
use couchbase_lite_ios.Base.Int.{ℤ, pos, negsuc, sub_ℕ, ◌+ℤ◌, ◌-ℤ◌, ◌*ℤ◌, quot_ℤ}
use native.Mathlib.Numerals.{add-one}
use couchbase_lite_ios.ParseDate.{julian_day_twice}

-- Years that 400 divides, and those that 4 divides and 100 does not.
unfoldable pub is_leap : ℕ → Bool
is_leap year = (year % 400 == 0) || ((year % 4 == 0) && not (year % 100 == 0))

-- From March on the months have 31 and 30 days in turn, but for July and August.
unfoldable pub days_in_month : ℕ → ℕ → ℕ
days_in_month year month =
    let february = if is_leap year then 29 else 28 in
    if month == 2 then february else 30 + (month + month / 8) % 2

pub record Date : Type 0 where
  pub day : ℕ
  pub month : ℕ
  pub year : ℕ

pub record IsDate (t : Date) : Type 0 where
  pub day_in : (1 ≤ t.day) × (t.day ≤ days_in_month t.year t.month)
  pub month_in : (1 ≤ t.month) × (t.month ≤ 12)
  pub year_in : t.year ≤ 9999

-- The day after: the next of the month, the first of the next month or New Year.
unfoldable pub next_day : Date → Date
unfolding days_in_month is_leap
next_day t =
    let next_month : Date = record { day = 1; month = t.month + 1; year = t.year } in
    let next_year : Date = record { day = 1; month = 1; year = t.year + 1 } in
    let next = if ltb t.month 12 then next_month else next_year in
    if ltb t.day (days_in_month t.year t.month) then record t { day = t.day + 1 } else next

pos-add : (a b : ℕ) → pos a +ℤ pos b ≡ pos (a + b)
pos-add a b = ground arith

pos-mul : (k a : ℕ) → k *ℤ pos a ≡ pos (k * a)
pos-mul k a = ground arith

quot_hundred : (a : ℕ) → quot_ℤ (pos a) 100 ≡ pos (a / 100)
quot_hundred a = ground arith

quot_four : (a : ℕ) → quot_ℤ (pos a) 4 ≡ pos (a / 4)
quot_four a = ground arith

quot_months : (a : ℕ) → quot_ℤ (pos a) 10000 ≡ pos (a / 10000)
quot_months a = ground arith

pos-sub : (a b : ℕ) → pos a -ℤ pos b ≡ sub_ℕ a b
pos-sub a b = ground arith

sub-add : (u v c : ℕ) → sub_ℕ u v +ℤ pos c ≡ sub_ℕ (u + c) v
sub-add u v c = ground arith

add-sub : (x u v : ℕ) → pos x +ℤ sub_ℕ u v ≡ sub_ℕ (x + u) v
add-sub x u v = ground arith

twice-sub : (u v : ℕ) → 2 *ℤ sub_ℕ u v ≡ sub_ℕ (2 * u) (2 * v)
twice-sub u v = ground arith

sub-pos : (u v w : ℕ) → sub_ℕ u v -ℤ pos w ≡ sub_ℕ u (v + w)
sub-pos u v w = ground arith

pub sub_eq : (u v u' v' : ℕ) → u + v' ≡ u' + v → sub_ℕ u v ≡ sub_ℕ u' v'
sub_eq u v u' v' h = ground arith

-- The formula for a year and a month after the shift of January and February.
abbrev shifted : ℤ → ℕ → ℕ → ℤ
shifted y m d =
    2
      *ℤ (quot_ℤ (36525 *ℤ (y +ℤ pos 4716)) 100
          +ℤ quot_ℤ (306001 *ℤ pos (m + 1)) 10000
          +ℤ pos d
          +ℤ (pos 2 -ℤ quot_ℤ y 100 +ℤ quot_ℤ (quot_ℤ y 100) 4))
    -ℤ pos 3049

-- What is added and what is subtracted in it.
abbrev gained : ℕ → ℕ → ℕ → ℕ
gained y m d = 2 * (36525 * (y + 4716) / 100 + 306001 * (m + 1) / 10000 + d + (2 + y / 100 / 4))

abbrev lost : ℕ → ℕ
lost y = 2 * (y / 100) + 3049

shifted_pos : (y m d : ℕ) → shifted (pos y) m d ≡ sub_ℕ (gained y m d) (lost y)
shifted_pos y m d = simp (
  pos-add, pos-mul, quot_hundred, quot_four, quot_months, pos-sub, sub-add, add-sub, twice-sub,
  sub-pos,
)

late_month : (y : ℤ) (m d : ℕ) → 2 < m → julian_day_twice y m d ≡ shifted y m d
unfolding julian_day_twice
late_month y m d h = rw (the_test m h) refl
  where
    the_test : (m : ℕ) → 2 < m → leb m 2 ≡ false
    the_test m h = ground arith

early_month : (y : ℤ) (m d : ℕ) → m ≤ 2 → julian_day_twice y m d ≡ shifted (y -ℤ pos 1) (m + 12) d
unfolding julian_day_twice
early_month y m d h = rw (the_test m h) refl
  where
    the_test : (m : ℕ) → m ≤ 2 → leb m 2 ≡ true
    the_test m h = ground arith

late_pos : (y m d : ℕ) → 2 < m → julian_day_twice (pos y) m d ≡ sub_ℕ (gained y m d) (lost y)
late_pos y m d h = late_month (pos y) m d h ∙ shifted_pos y m d

early_pos :
    (y m d : ℕ) → m ≤ 2 → julian_day_twice (pos (suc y)) m d ≡ sub_ℕ (gained y (m + 12) d) (lost y)
early_pos y m d h =
    early_month (pos (suc y)) m d h
    ∙ ap (λ z. shifted z (m + 12) d) (pred y)
    ∙ shifted_pos y (m + 12) d
  where
    pred : (y : ℕ) → pos (suc y) -ℤ pos 1 ≡ pos y
    pred y = ground arith

early_zero :
    (m d : ℕ)
    → m ≤ 2
    → julian_day_twice (pos 0) m d ≡ sub_ℕ (2 * (1722153 + 306001 * (m + 13) / 10000 + d + 2)) 3049
early_zero m d h =
    early_month (pos 0) m d h ∙ simp (pos-add, pos-mul, quot_months, pos-sub) (ground arith)

abbrev day_count : ℕ → ℕ → ℕ → ℤ
day_count y m d = julian_day_twice (pos y) m d

same_month : (y m d : ℕ) → day_count y m (d + 1) ≡ day_count y m d +ℤ pos 2
same_month y m d = elim (Bool-cases (leb m 2)) [
  | inr late ↦
      rw (late_pos y m (d + 1) (ground arith), late_pos y m d (ground arith), sub-add)
        (sub_eq _ _ _ _ (omega arith))
  | inl early ↦ of_year (ground arith) y
]
  where
    of_year : m ≤ 2 → (y : ℕ) → day_count y m (d + 1) ≡ day_count y m d +ℤ pos 2
    of_year h zero =
        rw (early_zero m (d + 1) h, early_zero m d h, sub-add) (sub_eq _ _ _ _ (omega arith))
    of_year h (suc y) =
        rw (early_pos y m (d + 1) h, early_pos y m d h, sub-add) (sub_eq _ _ _ _ (omega arith))

new_year : (y : ℕ) → day_count (suc y) 1 1 ≡ day_count y 12 31 +ℤ pos 2
new_year y =
    rw (early_pos y 1 1 (omega arith), late_pos y 12 31 (omega arith), sub-add)
      (sub_eq _ _ _ _ (omega arith))

january : (y : ℕ) → day_count y 2 1 ≡ day_count y 1 31 +ℤ pos 2
january zero = rw (early_zero 2 1 (omega arith), early_zero 1 31 (omega arith)) refl
january (suc y) =
    rw (early_pos y 2 1 (omega arith), early_pos y 1 31 (omega arith), sub-add)
      (sub_eq _ _ _ _ (omega arith))

february : (y : ℕ) → day_count y 3 1 ≡ day_count y 2 (if is_leap y then 29 else 28) +ℤ pos 2
unfolding is_leap
february zero = rw (late_pos 0 3 1 (omega arith), early_zero 2 29 (omega arith)) refl
february (suc y) =
    rw (late_pos (suc y) 3 1 (omega arith), early_pos y 2 _ (omega arith), sub-add)
      (sub_eq _ _ _ _ (ground arith))

spring :
    (y m d : ℕ)
    → 3 ≤ m
    → m ≤ 11
    → d ≡ days_in_month y m
    → day_count y (m + 1) 1 ≡ day_count y m d +ℤ pos 2
unfolding days_in_month
spring y m d h k e =
    rw (late_pos y (m + 1) 1 (omega arith), late_pos y m d (omega arith), sub-add)
      (sub_eq _ _ _ _ (ground arith))

abbrev julian_of : Date → ℤ
julian_of t = day_count t.year t.month t.day

january_of : (y m d : ℕ) → m ≡ 1 → d ≡ 31 → day_count y (m + 1) 1 ≡ day_count y m d +ℤ pos 2
january_of y m d h k = rw (h, k) (january y)

february_of :
    (y m d : ℕ)
    → m ≡ 2
    → d ≡ (if is_leap y then 29 else 28)
    → day_count y (m + 1) 1 ≡ day_count y m d +ℤ pos 2
february_of y m d h k = rw (h, k) (february y)

december_of : (y m d : ℕ) → m ≡ 12 → d ≡ 31 → day_count (y + 1) 1 1 ≡ day_count y m d +ℤ pos 2
december_of y m d h k = rw (add-one, h, k) (new_year y)

next_month :
    (y m d : ℕ)
    → 1 ≤ m
    → m ≤ 11
    → d ≡ days_in_month y m
    → day_count y (m + 1) 1 ≡ day_count y m d +ℤ pos 2
unfolding days_in_month
next_month y m d h k e = elim (Bool-cases (leb 3 m)) [
  | inl late ↦ spring y m d (ground arith) k e
  | inr early ↦ elim (Bool-cases (m == 1)) [
    | inl one ↦ january_of y m d (ground arith) (ground arith)
    | inr two ↦ february_of y m d (ground arith) (ground arith)
  ]
]

-- Over the years 0 to 9999 the formula gives each day of the Gregorian calendar the Julian day
-- after that of the day before, twice one more.
pub julian_day_twice-next_day :
    (t : Date)
    → IsDate t
    → julian_day_twice (pos (next_day t).year) (next_day t).month (next_day t).day
      ≡ julian_day_twice (pos t.year) t.month t.day +ℤ pos 2
unfolding next_day days_in_month
julian_day_twice-next_day t v = elim (Bool-cases (ltb t.day (days_in_month t.year t.month))) [
  | inl within ↦ rw within (same_month t.year t.month t.day)
  | inr at_end ↦ elim (Bool-cases (ltb t.month 12)) [
    | inl month ↦
        rw (at_end, month)
          (next_month t.year t.month t.day v.month_in.0 (ground arith) (ground (arith, v.day_in)))
    | inr december ↦
        rw (at_end, december)
          (december_of t.year t.month t.day (ground (arith, v.month_in))
            (ground (arith, v.month_in, v.day_in)))
  ]
]

-- A year before 0 with a sign is accepted too, but there the quotients, which C rounds towards 0,
-- let the count stand still: March 1st does not always follow February 28th of a year.
pub not-julian_day_twice-negative :
    ¬ ((year : ℤ) → julian_day_twice year 2 28 ≢ julian_day_twice year 3 1)
unfolding julian_day_twice
not-julian_day_twice-negative all = all (negsuc 98) refl
