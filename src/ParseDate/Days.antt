-- ===== src/ParseDate/Days.antt =====
-- Source/CBLParseDate.c, `computeJD`: its day numbers against a count of days from January 1st of the year 0.
use couchbase_lite_ios.Base.{
  ℕ, zero, suc, ◌+◌, ◌*◌, ◌≡◌, ◌≤◌, refl, ap, ◌∙◌, inl, inr, ltb, arith, Bool-cases,
}
use couchbase_lite_ios.Base.Int.{pos, ◌+ℤ◌}
use couchbase_lite_ios.ParseDate.{julian_day_twice}
use couchbase_lite_ios.ParseDate.Calendar.{
  is_leap, days_in_month, Date, IsDate, next_day, julian_day_twice-next_day,
}
use couchbase_lite_ios.Differ.Steps.{pick-lem}

-- The day so many days after January 1st of the year 0.
unfoldable pub nth_day : ℕ → Date
unfolding next_day
nth_day zero = record { day = 1; month = 1; year = 0 }
nth_day (suc n) = next_day (nth_day n)

year_grows : (t : Date) → t.year ≤ (next_day t).year
unfolding next_day
year_grows t =
    pick-lem (λ (u : Date). t.year ≤ u.year) (ltb t.day (days_in_month t.year t.month)) _ _
      (λ e. omega arith)
      (λ e.
        pick-lem (λ (u : Date). t.year ≤ u.year) (ltb t.month 12) _ _ (λ e'. omega arith)
          (λ e'. omega arith))

days_in_month_pos : (y m : ℕ) → 1 ≤ days_in_month y m
unfolding days_in_month is_leap
days_in_month_pos y m = ground arith

next_day-IsDate : (t : Date) → IsDate t → (next_day t).year ≤ 9999 → IsDate (next_day t)
unfolding next_day
next_day-IsDate t d h = elim (Bool-cases (ltb t.day (days_in_month t.year t.month))) [
  | inl within ↦ rw within (record {
    day_in = (omega arith, ground (arith, within));
    month_in = d.month_in;
    year_in = d.year_in;
  })
  | inr at_end ↦ elim (Bool-cases (ltb t.month 12)) [
    | inl month ↦
        rw (at_end, month)
          (record {
            day_in = (omega arith, days_in_month_pos t.year (t.month + 1));
            month_in = (omega arith, ground (arith, month));
            year_in = d.year_in;
          })
    | inr december ↦
        rw (at_end, december)
          (record {
            day_in = (omega arith, days_in_month_pos (t.year + 1) 1);
            month_in = (omega arith, omega arith);
            year_in = rw (at_end, december) at h;
          })
  ]
]

nth_day-IsDate : (n : ℕ) → (nth_day n).year ≤ 9999 → IsDate (nth_day n)
unfolding nth_day
nth_day-IsDate zero h = record {
  day_in = (omega arith, days_in_month_pos 0 1);
  month_in = (omega arith, omega arith);
  year_in = h;
}
nth_day-IsDate (suc n) h =
    next_day-IsDate (nth_day n) (nth_day-IsDate n (omega (arith, h, year_grows (nth_day n)))) h

add_two : (a n : ℕ) → pos (a + 2 * n) +ℤ pos 2 ≡ pos (a + 2 * suc n)
add_two a n = ground arith

-- Up to the end of the year 9999, twice the Julian day of the n-th day is 2 n more than that of the first.
pub julian_day_twice-nth_day :
    (n : ℕ)
    → (nth_day n).year ≤ 9999
    → julian_day_twice (pos (nth_day n).year) (nth_day n).month (nth_day n).day
      ≡ pos (3442119 + 2 * n)
unfolding nth_day julian_day_twice
julian_day_twice-nth_day zero h = refl
julian_day_twice-nth_day (suc n) h =
    let before : (nth_day n).year ≤ 9999 = omega (arith, h, year_grows (nth_day n)) in
    julian_day_twice-next_day (nth_day n) (nth_day-IsDate n before)
    ∙ ap (λ z. z +ℤ pos 2) (julian_day_twice-nth_day n before)
    ∙ add_two 3442119 n
