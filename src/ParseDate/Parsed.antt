-- ===== src/ParseDate/Parsed.antt =====
-- Source/CBLParseDate.c: what the parser accepts, and what it makes of it, whatever the memory of
-- its local variable held before.
use couchbase_lite_ios.Base.{
  ℕ, ◌+◌, ◌*◌, ◌≡◌, ◌≤◌, refl, ap, ◌⊎◌, inl, inr, Bool, true, false, not, ◌||◌, Option, none, some,
  List, [], ◌∷◌, ◌==◌, if◌then◌else◌, drop, arith, Bool-cases, Option-cases,
}
use couchbase_lite_ios.Base.Bytes.{Bytes}
use couchbase_lite_ios.Base.Int.{ℤ, pos, eq_ℤ, pos_part, neg_part}
use couchbase_lite_ios.ParseDate.{
  Doubles, peek, skip_space, Group, group, read_digits, rejects, get_digits, one, two, three,
  DateTime, skip_colon, parse_timezone, zone_offset, zulu_time, parse_fraction, finish_time,
  parse_seconds, parse_hh_mm_ss, negate_if,
}

-- A list of numbers, one for each group, each within its bounds.
abbrev pub Within : List Group → List ℕ → Type 0
Within (g ∷ gs) (n ∷ ns) = (g.least ≤ n) × (n ≤ g.most) × Within gs ns
Within [] (n ∷ ns) = ⊥
Within gs [] = Unit

get_digits-Within : (z : Bytes) (gs : List Group) → Within gs (get_digits z gs)
unfolding get_digits
get_digits-Within z [] = tt
get_digits-Within z (g ∷ gs) = elim (Option-cases (read_digits g.count 0 z)) [
  | inl failed ↦ rw (get_digits, failed) tt
  | inr ((val, rest), read) ↦ elim (Bool-cases (rejects g val rest)) [
    | inl out ↦ rw (get_digits, read, out) tt
    | inr within ↦ elim (Bool-cases (g.next == 0)) [
      | inl last ↦
          rw (get_digits, read, within, last)
            (accepted g val rest within, accepted' g val rest within, nothing gs)
      | inr more ↦
          rw (get_digits, read, within, more)
            (
              accepted g val rest within,
              accepted' g val rest within,
              get_digits-Within (drop 1 rest) gs,
            )
    ]
  ]
]
  where
    accepted : (g : Group) (val : ℕ) (rest : Bytes) → rejects g val rest ≡ false → g.least ≤ val
    accepted g val rest h = unfold rejects in ground arith

    accepted' : (g : Group) (val : ℕ) (rest : Bytes) → rejects g val rest ≡ false → val ≤ g.most
    accepted' g val rest h = unfold rejects in ground arith

    nothing : (gs : List Group) → Within gs []
    nothing [] = tt
    nothing (g ∷ gs) = tt

one-Within :
    (z : Bytes) (g : Group) (n : ℕ)
    → one (get_digits z (g ∷ [])) ≡ some n
    → (g.least ≤ n) × (n ≤ g.most)
one-Within z g n e = of_list (get_digits z (g ∷ [])) (get_digits-Within z (g ∷ [])) e
  where
    of_list : (ns : List ℕ) → Within (g ∷ []) ns → one ns ≡ some n → (g.least ≤ n) × (n ≤ g.most)
    of_list [] w e = cc
    of_list (m ∷ []) w e = ground (arith, w)
    of_list (m ∷ k ∷ ns) w e = cc

two-Within :
    (z : Bytes) (g g' : Group) (m n : ℕ)
    → two (get_digits z (g ∷ g' ∷ [])) ≡ some (m, n)
    → (m ≤ g.most) × (n ≤ g'.most)
two-Within z g g' m n e = of_list (get_digits z (g ∷ g' ∷ [])) (get_digits-Within z (g ∷ g' ∷ [])) e
  where
    of_list :
        (ns : List ℕ)
        → Within (g ∷ g' ∷ []) ns
        → two ns ≡ some (m, n)
        → (m ≤ g.most) × (n ≤ g'.most)
    of_list [] w e = cc
    of_list (a ∷ []) w e = cc
    of_list (a ∷ b ∷ []) w e = ground (arith, w)
    of_list (a ∷ b ∷ c ∷ ns) w e = cc

abbrev pub Fits : Group → ℕ → Type 0
Fits g n = (g.least ≤ n) × (n ≤ g.most)

pub three-Within :
    (z : Bytes) (g g' g'' : Group) (l m n : ℕ)
    → three (get_digits z (g ∷ g' ∷ g'' ∷ [])) ≡ some (l, m, n)
    → Fits g l × Fits g' m × Fits g'' n
three-Within z g g' g'' l m n e =
    of_list (get_digits z (g ∷ g' ∷ g'' ∷ [])) (get_digits-Within z (g ∷ g' ∷ g'' ∷ [])) e
  where
    of_list :
        (ns : List ℕ)
        → Within (g ∷ g' ∷ g'' ∷ []) ns
        → three ns ≡ some (l, m, n)
        → Fits g l × Fits g' m × Fits g'' n
    of_list [] w e = cc
    of_list (a ∷ []) w e = cc
    of_list (a ∷ b ∷ []) w e = cc
    of_list (a ∷ b ∷ c ∷ []) w e = ground (arith, w)
    of_list (a ∷ b ∷ c ∷ d ∷ ns) w e = cc

-- An offset of minutes that `HH:MM` with a sign can denote.
abbrev pub IsOffset : ℤ → Type 0
IsOffset tz = (pos_part tz ≤ 14 * 60 + 59) × (neg_part tz ≤ 14 * 60 + 59)

IsOffset-negate_if :
    (negative : Bool) (h m : ℕ) → h ≤ 14 → m ≤ 59 → IsOffset (negate_if negative (m + h * 60))
IsOffset-negate_if negative h m a b = ground arith

module _ (doubles : Doubles) where
  open doubles use {Double, of_int, add, mul, to_int}

  -- The text alone decides on success and on the offset.
  abbrev ZoneOf : (DateTime doubles → Bool × DateTime doubles) → Type 0
  ZoneOf parse =
      (failed : Bool) × (tz : ℤ) × IsOffset tz
      × ((p : DateTime doubles) → parse p ≡ (failed, record p { tz = tz }))

  zone_offset-ZoneOf :
      (negative : Bool) (z : Bytes)
      → ZoneOf (λ p. zone_offset doubles negative z (record p { tz = pos 0 }))
  unfolding zone_offset zulu_time
  zone_offset-ZoneOf negative z = elim (Option-cases (one (get_digits z (group 2 0 14 0 ∷ [])))) [
    | inl none_there ↦ (true, pos 0, omega arith, λ p. rw (none_there, zone_offset) refl)
    | inr (hours, h) ↦
        elim (Option-cases (one (get_digits (skip_colon (drop 2 z)) (group 2 0 59 0 ∷ [])))) [
          | inl none_there ↦ (true, pos 0, omega arith, λ p. rw (h, none_there, zone_offset) refl)
          | inr (minutes, m) ↦ (
            not (peek (skip_space (drop 2 (skip_colon (drop 2 z)))) == 0),
            negate_if negative (minutes + hours * 60),
            IsOffset-negate_if negative hours minutes (one-Within z _ hours h).1
                (one-Within _ _ minutes m).1,
            λ p. rw (h, m, zone_offset) refl,
          )
        ]
  ]

  if-ZoneOf :
      (b : Bool) (f g : DateTime doubles → Bool × DateTime doubles)
      → ZoneOf f
      → ZoneOf g
      → ZoneOf (λ p. if b then f p else g p)
  if-ZoneOf true f g h k = h
  if-ZoneOf false f g h k = k

  parse_timezone-ZoneOf : (z : Bytes) → ZoneOf (parse_timezone doubles z)
  unfolding parse_timezone zulu_time
  parse_timezone-ZoneOf z =
      let z1 = skip_space z in
      let rest = drop 1 z1 in
      let c = peek z1 in
      if-ZoneOf (c == b'-') _ _ (zone_offset-ZoneOf true rest) (
        if-ZoneOf (c == b'+') _ _ (zone_offset-ZoneOf false rest) (
          if-ZoneOf ((c == b'Z') || (c == b'z')) _ _
            (not (peek (skip_space rest) == 0), pos 0, omega arith, λ p. refl)
            (not (c == 0), pos 0, omega arith, λ p. refl)))

  -- A time of day as it is written: the fraction of a second apart, the offset in minutes.
  pub record Time : Type 0 where
    pub hours : ℕ
    pub minutes : ℕ
    pub seconds : ℕ
    pub fraction : Double
    pub tz : ℤ

  pub record IsTime (t : Time) : Type 0 where
    pub hours_in : t.hours ≤ 24
    pub minutes_in : t.minutes ≤ 59
    pub seconds_in : t.seconds ≤ 59
    pub tz_in : IsOffset t.tz

  unfoldable pub with_time : Time → DateTime doubles → DateTime doubles
  with_time t p = record p {
    valid_jd = false;
    valid_hms = true;
    hours = t.hours;
    minutes = t.minutes;
    seconds = add (of_int (pos t.seconds)) t.fraction;
    tz = t.tz;
    valid_tz = not (eq_ℤ t.tz (pos 0));
  }

  -- The text alone decides on success and on the time.
  abbrev pub TimeOf : (DateTime doubles → Bool × DateTime doubles) → Type 0
  TimeOf parse =
      ((p : DateTime doubles) → (parse p).0 ≡ true)
      ⊎ ((t : Time) × IsTime t × ((p : DateTime doubles) → parse p ≡ (false, with_time t p)))

  finish_time-TimeOf :
      (hours minutes seconds : ℕ) (read : Double × Bytes)
      → hours ≤ 24
      → minutes ≤ 59
      → seconds ≤ 59
      → TimeOf (finish_time doubles hours minutes seconds read)
  unfolding finish_time with_time
  finish_time-TimeOf hours minutes seconds (ms, z) h m s = from_zone (parse_timezone-ZoneOf z)
    where
      finish : Bool × DateTime doubles → Bool × DateTime doubles
      finish (failed, p') =
          if failed then (true, p') else (false, record p' { valid_tz = not (eq_ℤ p'.tz (pos 0)) })

      from_zone :
          ZoneOf (parse_timezone doubles z)
          → TimeOf (finish_time doubles hours minutes seconds (ms, z))
      from_zone (true, tz, in_range, e) =
          inl (λ p. ap (λ (r : Bool × DateTime doubles). (finish r).0) (e _))
      from_zone (false, tz, in_range, e) = inr (
        record { hours = hours; minutes = minutes; seconds = seconds; fraction = ms; tz = tz },
        record { hours_in = h; minutes_in = m; seconds_in = s; tz_in = in_range },
        λ p. ap finish (e _),
      )

  if-TimeOf :
      (b : Bool) (f g : DateTime doubles → Bool × DateTime doubles)
      → TimeOf f
      → TimeOf g
      → TimeOf (λ p. if b then f p else g p)
  if-TimeOf true f g h k = h
  if-TimeOf false f g h k = k

  read_seconds-TimeOf :
      (hours minutes : ℕ) (read : Double × Bytes) (seconds : Option ℕ)
      → hours ≤ 24
      → minutes ≤ 59
      → ((s : ℕ) → seconds ≡ some s → s ≤ 59)
      → TimeOf (λ p. elim seconds [
        | none ↦ (true, p)
        | some s ↦ finish_time doubles hours minutes s read p
      ])
  read_seconds-TimeOf hours minutes read none h m bound = inl (λ p. refl)
  read_seconds-TimeOf hours minutes read (some s) h m bound =
      finish_time-TimeOf hours minutes s read h m (bound s refl)

  parse_seconds-TimeOf :
      (hours minutes : ℕ) (z : Bytes)
      → hours ≤ 24
      → minutes ≤ 59
      → TimeOf (parse_seconds doubles hours minutes z)
  unfolding parse_seconds
  parse_seconds-TimeOf hours minutes z h m =
      if-TimeOf (peek z == b':') _ _
        (read_seconds-TimeOf hours minutes (parse_fraction doubles (drop 3 z))
          (one (get_digits (drop 1 z) (group 2 0 59 0 ∷ []))) h m
          (λ s e. (one-Within (drop 1 z) _ s e).1))
        (finish_time-TimeOf hours minutes 0 (of_int (pos 0), z) h m (omega arith))

  read_time-TimeOf :
      (z : Bytes) (read : Option (ℕ × ℕ))
      → ((h m : ℕ) → read ≡ some (h, m) → (h ≤ 24) × (m ≤ 59))
      → TimeOf (λ p. elim read [ none ↦ (true, p) | some (h, m) ↦ parse_seconds doubles h m z p ])
  read_time-TimeOf z none bounds = inl (λ p. refl)
  read_time-TimeOf z (some (h, m)) bounds =
      parse_seconds-TimeOf h m z (bounds h m refl).0 (bounds h m refl).1

  pub parse_hh_mm_ss-TimeOf : (z : Bytes) → TimeOf (parse_hh_mm_ss doubles z)
  unfolding parse_hh_mm_ss
  parse_hh_mm_ss-TimeOf z =
      read_time-TimeOf (drop 5 z) (two (get_digits z (group 2 0 24 b':' ∷ group 2 0 59 0 ∷ [])))
        (λ h m e. two-Within z _ _ h m e)
