-- ===== src/RevId/Digits.antt =====
-- Source/CBL_RevID.m, `parseDigits`, against the decimal digits that Source/CBLMisc.m writes.
use couchbase_lite_ios.Base.{
  ℕ, zero, suc, ◌+◌, ◌*◌, ◌/◌, ◌%◌, ◌^◌, ◌≤◌, ◌<◌, ◌≡◌, refl, ◌∙◌, inl, inr, true, some, [], ◌∷◌,
  ◌++◌, ltb, ◌==◌, length, take, drop, take-length-append, All, arith, Bool-cases,
}
use couchbase_lite_ios.Base.Bytes.{Bytes, memchr, is_digit, digit_to_int}
use couchbase_lite_ios.RevId.{parse_from, parse_digits, decimal_from, append_decimal}
use native.Mathlib.Nat.{pow-suc}

-- The number that digits denote after a prefix that denotes `acc`.
abbrev pub value : ℕ → Bytes → ℕ
value acc [] = acc
value acc (c ∷ cs) = value (10 * acc + digit_to_int c) cs

abbrev pub AreDigits : Bytes → Type 0
AreDigits = All (λ c. is_digit c ≡ true)

pub le-value : (ds : Bytes) (acc : ℕ) → acc ≤ value acc ds
le-value [] acc = omega arith
le-value (c ∷ cs) acc = omega (arith, le-value cs (10 * acc + digit_to_int c))

mul_mono : (a b p : ℕ) → a ≤ b → a * p ≤ b * p
mul_mono a b p h = grind arith

pub value-lt : (ds : Bytes) (acc : ℕ) → AreDigits ds → value acc ds < (acc + 1) * 10 ^ length ds
value-lt [] acc h = omega arith
value-lt (c ∷ cs) acc h = rw pow-suc (
    omega (
      arith,
      value-lt cs (10 * acc + digit_to_int c) h.1,
      mul_mono (10 * acc + digit_to_int c + 1) (10 * acc + 10) (10 ^ length cs) (ground arith),
    ))

parse_from-value :
    (ds : Bytes) (acc : ℕ) → AreDigits ds → value acc ds < 2 ^ 32 → parse_from acc ds ≡ value acc ds
unfolding parse_from
parse_from-value [] acc h b = refl
parse_from-value (c ∷ cs) acc h b = ground (
  arith,
  le-value cs (10 * acc + digit_to_int c),
  parse_from-value cs (10 * acc + digit_to_int c),
)

-- A string of digits for `n`.
pub record IsDecimal (n : ℕ) (ds : Bytes) : Type 0 where
  pub digits : AreDigits ds
  pub value_is : value 0 ds ≡ n

decimal_from-IsDecimal :
    (room n : ℕ) (dst : Bytes) {r : Bytes}
    → AreDigits dst
    → decimal_from room n dst ≡ some r
    → IsDecimal (value n dst) r
unfolding decimal_from
decimal_from-IsDecimal zero n dst h e = cc
decimal_from-IsDecimal (suc room) n dst {r} h e =
    ground (arith, decimal_from-IsDecimal room (n / 10) ((b'0' + n % 10) ∷ dst) {r = r})

-- `k` digits of room are enough below 10 ^ k.
decimal_from_total :
    (room k n : ℕ) (dst : Bytes)
    → n < 10 ^ suc k
    → k < room
    → (r : Bytes) × (decimal_from room n dst ≡ some r) × (length r ≤ length dst + suc k)
unfolding decimal_from
decimal_from_total zero k n dst h lt = absurd (omega arith)
decimal_from_total (suc room) zero n dst h lt = ((b'0' + n % 10) ∷ dst, ground arith, omega arith)
decimal_from_total (suc room) (suc k) n dst h lt = elim (Bool-cases (n / 10 == 0)) [
  | inl done ↦ ((b'0' + n % 10) ∷ dst, rw done refl, omega arith)
  | inr more ↦
      let (r, e, l) =
        decimal_from_total room k (n / 10) ((b'0' + n % 10) ∷ dst) (omega (arith, rw pow-suc at h))
          (omega arith) in
      (r, rw more e, omega arith)
]

-- What `CBLAppendDecimal` writes for `n`.
pub append_decimal-IsDecimal : (n : ℕ) {r : Bytes} → append_decimal n ≡ some r → IsDecimal n r
unfolding append_decimal
append_decimal-IsDecimal n {r} e = ground (arith, decimal_from-IsDecimal 20 n [] {r = r} tt)

pub append_decimal_total :
    (k n : ℕ)
    → n < 10 ^ suc k
    → k < 20
    → (r : Bytes) × (append_decimal n ≡ some r) × (length r ≤ suc k)
unfolding append_decimal
append_decimal_total k n h lt = elim (Bool-cases (ltb n 10)) [
  | inl small ↦ ((b'0' + n) ∷ [], rw small refl, omega arith)
  | inr large ↦ let (r, e, l) = decimal_from_total 20 k n [] h lt in (r, rw large e, omega arith)
]

pub parse_digits-value :
    (ds : Bytes) → AreDigits ds → value 0 ds < 2 ^ 32 → parse_digits ds ≡ value 0 ds
unfolding parse_digits
parse_digits-value ds h b = parse_from-value ds 0 h b

pub parse_digits-IsDecimal :
    {n : ℕ} {ds : Bytes} → IsDecimal n ds → n < 2 ^ 32 → parse_digits ds ≡ n
parse_digits-IsDecimal {n} {ds} d h =
    parse_digits-value ds d.digits (omega (arith, d.value_is)) ∙ d.value_is

-- The dash behind digits is the first one.
pub memchr_digits :
    (ds s : Bytes) → AreDigits ds → memchr (ds ++ (b'-' ∷ s)) b'-' ≡ some (length ds)
unfolding memchr
memchr_digits [] s h = refl
memchr_digits (c ∷ cs) s h = ground (arith, memchr_digits cs s h.1)

pub take_dash : (ds s : Bytes) → take (length ds) (ds ++ (b'-' ∷ s)) ≡ ds
take_dash ds s = take-length-append ds (b'-' ∷ s)

pub drop_dash : (ds s : Bytes) → drop (length ds + 1) (ds ++ (b'-' ∷ s)) ≡ s
drop_dash [] s = refl
drop_dash (c ∷ cs) s =
    let e : suc (length cs) + 1 ≡ suc (length cs + 1) = omega arith in rw e (drop_dash cs s)
