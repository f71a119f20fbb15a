-- ===== src/RevId/Canonical.antt =====
-- Source/CBL_RevID.m: the revision IDs that the program itself writes, and what `generation`,
-- `suffix` and `asString` make of them.
use couchbase_lite_ios.Base.{
  ℕ, ◌+◌, ◌^◌, ◌≤◌, ◌<◌, ◌≡◌, refl, ◌≢◌, some, [], ◌∷◌, ◌++◌, length, drop, arith,
}
use couchbase_lite_ios.Base.Bytes.{Bytes, memchr}
use couchbase_lite_ios.Base.Int.{pos}
use couchbase_lite_ios.RevId.{
  TreeRevId, generation, suffix, all_ascii, ascii_string, as_string, append_decimal, format_int,
}
use couchbase_lite_ios.RevId.Digits.{
  AreDigits, IsDecimal, append_decimal-IsDecimal, append_decimal_total, parse_digits-IsDecimal,
  memchr_digits, take_dash, drop_dash,
}

-- A generation number as `CBLAppendDecimal` writes it, of nine digits at most, a hyphen, and a
-- suffix of ASCII characters that is not empty.
pub record IsCanonical (r : TreeRevId) (gen : ℕ) (rest : Bytes) : Type 0 where
  pub number : Bytes
  pub printed : append_decimal gen ≡ some number
  pub gen_pos : 0 < gen
  pub gen_lt : gen < 10 ^ 9
  pub rest_ne_nil : rest ≢ []
  pub rest_ascii : ascii_string rest ≡ some rest
  pub shape : r ≡ number ++ (b'-' ∷ rest)

all_ascii-append :
    (number rest : Bytes) → AreDigits number → all_ascii (number ++ (b'-' ∷ rest)) ≡ all_ascii rest
unfolding all_ascii
all_ascii-append [] rest d = refl
all_ascii-append (c ∷ cs) rest d = ground (arith, all_ascii-append cs rest d.1)

nil-of-length : (xs : Bytes) → length xs ≡ 0 → xs ≡ []
nil-of-length [] h = refl
nil-of-length (x ∷ xs) h = absurd (omega arith)

pub append_decimal_short :
    (n : ℕ) {number : Bytes} → n < 10 ^ 9 → append_decimal n ≡ some number → length number ≤ 9
append_decimal_short n h e =
    let (r, e', l) = append_decimal_total 8 n h (omega arith) in ground (arith, e, e', l)

module _ {r : TreeRevId} {gen : ℕ} {rest : Bytes} (c : IsCanonical r gen rest) where
  decimal : IsDecimal gen c.number
  decimal = append_decimal-IsDecimal gen c.printed

  pub generation-IsCanonical : generation r ≡ gen
  unfolding generation
  generation-IsCanonical =
      rw (c.shape, memchr_digits c.number rest decimal.digits, generation)
        (ground (
          arith,
          take_dash c.number rest,
          append_decimal_short gen c.gen_lt c.printed,
          parse_digits-IsDecimal decimal (omega (arith, c.gen_lt)),
        ))

  memchr-IsCanonical : memchr r b'-' ≡ some (length c.number)
  memchr-IsCanonical = rw c.shape (memchr_digits c.number rest decimal.digits)

  drop-IsCanonical : drop (length c.number + 1) r ≡ rest
  drop-IsCanonical = rw c.shape (drop_dash c.number rest)

  pub suffix-IsCanonical : suffix r ≡ some rest
  unfolding suffix
  suffix-IsCanonical =
      rw (memchr-IsCanonical, suffix)
        (ground (arith, drop-IsCanonical, c.rest_ascii, c.rest_ne_nil, nil-of-length rest))

  pub as_string-IsCanonical : as_string r ≡ some r
  unfolding as_string ascii_string
  as_string-IsCanonical =
      rw (c.shape, all_ascii-append c.number rest decimal.digits) (ground (arith, c.rest_ascii))

  pub format_int-IsCanonical : format_int (pos gen) ++ (b'-' ∷ rest) ≡ r
  unfolding format_int
  format_int-IsCanonical = rw (c.printed, c.shape)
