-- ===== src/Base/Int.antt =====
-- Signed integers over the native numbers, as the program's `int` and `SInt64` differences need.
use couchbase_lite_ios.Base.Tests.{if◌then◌else◌, leb, ◌==◌}
use mathlib.Core.Bool.{Bool, false}
use Prim.Native.Nat.{ℕ, zero, suc, ◌+◌, ◌-◌, ◌*◌, ◌/◌}

-- `negsuc n` is -(n + 1).
pub data ℤ : Type 0 where
  pos : ℕ → ℤ
  negsuc : ℕ → ℤ

-- a - b, as an integer.
abbrev pub sub_ℕ : ℕ → ℕ → ℤ
sub_ℕ a b = if leb b a then pos (a - b) else negsuc (b - a - 1)

-- `z - 1`
abbrev pub pred_ℤ : ℤ → ℤ
pred_ℤ (pos zero) = negsuc 0
pred_ℤ (pos (suc n)) = pos n
pred_ℤ (negsuc n) = negsuc (suc n)

-- `a ?: b`: the first value if it is not zero.
infixr 30 ◌elvis◌
abbrev pub ◌elvis◌ : ℤ → ℤ → ℤ
pos zero elvis b = b
pos (suc n) elvis b = pos (suc n)
negsuc n elvis b = negsuc n

-- `a == b` on the program's `int`s.
abbrev pub eq_ℤ : ℤ → ℤ → Bool
eq_ℤ (pos m) (pos n) = m == n
eq_ℤ (negsuc m) (negsuc n) = m == n
eq_ℤ _ _ = false

abbrev pub pos_part : ℤ → ℕ
pos_part (pos n) = n
pos_part (negsuc n) = 0

abbrev pub neg_part : ℤ → ℕ
neg_part (pos n) = 0
neg_part (negsuc n) = suc n

infixl 65 ◌+ℤ◌ ◌-ℤ◌
infixl 70 ◌*ℤ◌
abbrev pub ◌+ℤ◌ : ℤ → ℤ → ℤ
a +ℤ b = sub_ℕ (pos_part a + pos_part b) (neg_part a + neg_part b)

abbrev pub ◌-ℤ◌ : ℤ → ℤ → ℤ
a -ℤ b = sub_ℕ (pos_part a + neg_part b) (neg_part a + pos_part b)

-- A natural factor.
abbrev pub ◌*ℤ◌ : ℕ → ℤ → ℤ
k *ℤ z = sub_ℕ (k * pos_part z) (k * neg_part z)

-- `a / k` of C, which drops the fraction.
abbrev pub quot_ℤ : ℤ → ℕ → ℤ
quot_ℤ z k = sub_ℕ (pos_part z / k) (neg_part z / k)
