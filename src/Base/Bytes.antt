-- ===== src/Base/Bytes.antt =====
-- Byte strings, and the functions of the C library that the program calls on them. A pointer into a
-- string is an offset, NULL is `none`.
use couchbase_lite_ios.Base.Tests.{if◌then◌else◌, leb, ◌==◌}
use couchbase_lite_ios.Base.Int.{ℤ, pos, sub_ℕ}
use Prim.Native.Nat.{ℕ, suc, ◌-◌, compare, Ordering}
use Prim.Native.Char.{code}
use Prim.Native.String.{String}
use mathlib.Core.Path.{◌≡◌, refl}
use mathlib.Core.Bool.{Bool, true, false, ◌&&◌}
use mathlib.Core.Option.{Option, none, some}
use mathlib.Core.Option
use mathlib.Core.List.{List, [], ◌∷◌}
use native.Mathlib.Omega.{arith}

abbrev pub Bytes : Type 0
Bytes = List ℕ

abbrev pub codes : String → Bytes
codes String.[] = []
codes (String.◌∷◌ c s) = code c ∷ codes s

-- `memchr(s, c, length of s) - s`
unfoldable pub memchr : Bytes → ℕ → Option ℕ
memchr [] c = none
memchr (x ∷ xs) c = if x == c then some 0 else Option.map suc (memchr xs c)

-- `memcmp(s, t, n)`: the difference of the first two bytes that differ.
unfoldable pub memcmp : Bytes → Bytes → ℕ → ℤ
memcmp (x ∷ xs) (y ∷ ys) (suc n) = if x == y then memcmp xs ys n else sub_ℕ x y
memcmp _ _ _ = pos 0

abbrev pub is_digit : ℕ → Bool
is_digit c = leb b'0' c && leb c b'9'

-- `digittoint` of a decimal digit.
abbrev pub digit_to_int : ℕ → ℕ
digit_to_int c = c - b'0'

-- `[NSData isEqual:]`
unfoldable pub equal : Bytes → Bytes → Bool
equal [] [] = true
equal (x ∷ xs) (y ∷ ys) = x == y && equal xs ys
equal _ _ = false

pub equal_sound : (a b : Bytes) → equal a b ≡ true → a ≡ b
unfolding equal
equal_sound [] [] h = refl
equal_sound [] (y ∷ ys) h = cc
equal_sound (x ∷ xs) [] h = cc
equal_sound (x ∷ xs) (y ∷ ys) h = ground (arith, equal_sound xs ys)

pub equal_refl : (a : Bytes) → equal a a ≡ true
unfolding equal
equal_refl [] = refl
equal_refl (x ∷ xs) = ground (arith, equal_refl xs)

-- Lexicographic order, a prefix first.
abbrev pub lex : Bytes → Bytes → Ordering
lex [] [] = Ordering.eq
lex [] (y ∷ ys) = Ordering.lt
lex (x ∷ xs) [] = Ordering.gt
lex (x ∷ xs) (y ∷ ys) = elim (compare x y) [
  | Ordering.lt ↦ Ordering.lt
  | Ordering.gt ↦ Ordering.gt
  | Ordering.eq ↦ lex xs ys
]
