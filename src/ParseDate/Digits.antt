-- ===== src/ParseDate/Digits.antt =====
-- Source/CBLParseDate.c, `getDigits`: what it reads of numbers of two and four digits.
use couchbase_lite_ios.Base.{
  ℕ, ◌+◌, ◌-◌, ◌*◌, ◌/◌, ◌%◌, ◌≡◌, ◌≤◌, refl, ap, Bool, true, false, ◌||◌, Option, none, some, List,
  [], ◌∷◌, ◌==◌, if◌then◌else◌, arith,
}
use couchbase_lite_ios.Base.Bytes.{Bytes, is_digit}
use couchbase_lite_ios.Base.Int.{ℤ, pos}
use couchbase_lite_ios.ParseDate.{
  is_space, skip_space_or_t, Group, group, read_digits, rejects, get_digits, negate_if,
}

-- The last digit of a number, and two and four digits in front of a text.
abbrev pub digit : ℕ → ℕ
digit n = b'0' + n % 10

abbrev pub two_digits : ℕ → Bytes → Bytes
two_digits n rest = digit (n / 10) ∷ digit n ∷ rest

abbrev pub four_digits : ℕ → Bytes → Bytes
four_digits n rest = digit (n / 1000) ∷ digit (n / 100) ∷ digit (n / 10) ∷ digit n ∷ rest

digit-is_digit : (n : ℕ) → is_digit (digit n) ≡ true
digit-is_digit n = ground arith

pub read_digits-two_digits :
    (n : ℕ) (rest : Bytes) → n ≤ 99 → read_digits 2 0 (two_digits n rest) ≡ some (n, rest)
unfolding read_digits
read_digits-two_digits n rest h =
    rw (digit-is_digit (n / 10), digit-is_digit n) (ap (λ v. some (v, rest)) places)
  where
    places : (0 + digit (n / 10) - 48) * 10 + digit n - 48 ≡ n
    places = omega arith

pub read_digits-four_digits :
    (n : ℕ) (rest : Bytes) → n ≤ 9999 → read_digits 4 0 (four_digits n rest) ≡ some (n, rest)
unfolding read_digits
read_digits-four_digits n rest h =
    rw
      (
        digit-is_digit (n / 1000),
        digit-is_digit (n / 100),
        digit-is_digit (n / 10),
        digit-is_digit n,
      )
      (ap (λ v. some (v, rest)) places)
  where
    places :
        (((0 + digit (n / 1000) - 48) * 10 + digit (n / 100) - 48) * 10 + digit (n / 10) - 48) * 10
          + digit n
          - 48
        ≡ n
    places = omega arith

accepts_last :
    (count least most n : ℕ) (rest : Bytes)
    → least ≤ n
    → n ≤ most
    → rejects (group count least most 0) n rest ≡ false
unfolding rejects
accepts_last count least most n rest l m = ground arith

accepts_more :
    (count least most next n : ℕ) (rest : Bytes)
    → least ≤ n
    → n ≤ most
    → rejects (group count least most next) n (next ∷ rest) ≡ false
unfolding rejects
accepts_more count least most next n rest l m = ground arith

pub get_digits-last :
    (count least most n : ℕ) (z rest : Bytes)
    → read_digits count 0 z ≡ some (n, rest)
    → least ≤ n
    → n ≤ most
    → get_digits z (group count least most 0 ∷ []) ≡ n ∷ []
unfolding get_digits
get_digits-last count least most n z rest read l m =
    rw (read, accepts_last count least most n rest l m) refl

pub get_digits-more :
    (count least most next n : ℕ) (z rest : Bytes) (gs : List Group)
    → read_digits count 0 z ≡ some (n, next ∷ rest)
    → least ≤ n
    → n ≤ most
    → (next == 0) ≡ false
    → get_digits z (group count least most next ∷ gs) ≡ n ∷ get_digits rest gs
unfolding get_digits
get_digits-more count least most next n z rest gs read l m e =
    rw (read, accepts_more count least most next n rest l m, e) refl

-- `Z`, or an offset with a sign.
abbrev pub Zone : Type 0
Zone = Option (Bool × ℕ × ℕ)

abbrev pub print_zone : Zone → Bytes
print_zone none = b'Z' ∷ []
print_zone (some (negative, h, m)) =
    (if negative then b'-' else b'+') ∷ two_digits h (b':' ∷ two_digits m [])

abbrev pub IsZone : Zone → Type 0
IsZone none = Unit
IsZone (some (negative, h, m)) = (h ≤ 14) × (m ≤ 59)

abbrev pub offset : Zone → ℤ
offset none = pos 0
offset (some (negative, h, m)) = negate_if negative (m + h * 60)

pub skip_space_or_t-digit : (n : ℕ) (z : Bytes) → skip_space_or_t (digit n ∷ z) ≡ digit n ∷ z
unfolding skip_space_or_t
skip_space_or_t-digit n z = rw not_space refl
  where
    not_space : (is_space (digit n) || (digit n == b'T')) ≡ false
    not_space = ground arith
