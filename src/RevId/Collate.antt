-- ===== src/RevId/Collate.antt =====
-- Source/CBL_RevID.m, `CBLCollateRevIDs`, against the order of generations and suffixes.
use couchbase_lite_ios.Base.{
  ℕ, zero, suc, ◌+◌, ◌^◌, ◌≤◌, ◌<◌, ◌≡◌, refl, ◌∙◌, inl, inr, true, min, some, [], ◌∷◌, ◌++◌,
  length, take, drop, arith, Bool-cases, compare, Ordering, flip, ◌or_else◌,
}
use couchbase_lite_ios.Base.Bytes.{Bytes, memchr, memcmp, lex}
use couchbase_lite_ios.Base.Int.{sub_ℕ, ◌elvis◌}
use couchbase_lite_ios.RevId.{
  TreeRevId, parse_digits, sgn, default_collate, compare_as_text, collate_generations,
  collate_rev_ids,
}
use couchbase_lite_ios.RevId.Digits.{
  value, AreDigits, value-lt, parse_digits-value, memchr_digits, take_dash, drop_dash,
}
use native.Mathlib.Nat.{pow-le-pow_right}

pub lex-flip : (a b : Bytes) → lex b a ≡ flip (lex a b)
lex-flip [] [] = refl
lex-flip [] (y ∷ ys) = refl
lex-flip (x ∷ xs) [] = refl
lex-flip (x ∷ xs) (y ∷ ys) = ground (arith, lex-flip xs ys)

pub lex-eq : (a b : Bytes) → lex a b ≡ Ordering.eq → a ≡ b
lex-eq [] [] h = refl
lex-eq [] (y ∷ ys) h = cc
lex-eq (x ∷ xs) [] h = cc
lex-eq (x ∷ xs) (y ∷ ys) h = ground (arith, lex-eq xs ys)

pub lex_refl : (a : Bytes) → lex a a ≡ Ordering.eq
lex_refl [] = refl
lex_refl (x ∷ xs) = ground (arith, lex_refl xs)

pub lex_trans :
    (a b c : Bytes) → lex a b ≡ Ordering.lt → lex b c ≡ Ordering.lt → lex a c ≡ Ordering.lt
lex_trans [] [] [] h k = cc
lex_trans [] (y ∷ ys) [] h k = cc
lex_trans [] b (z ∷ zs) h k = refl
lex_trans (x ∷ xs) [] c h k = cc
lex_trans (x ∷ xs) (y ∷ ys) [] h k = cc
lex_trans (x ∷ xs) (y ∷ ys) (z ∷ zs) h k = ground (arith, lex_trans xs ys zs)

memcmp-lex :
    (a b : Bytes) (n : ℕ)
    → n ≡ min (length a) (length b)
    → sgn (memcmp a b n elvis sub_ℕ (length a) (length b)) ≡ lex a b
unfolding memcmp sgn
memcmp-lex [] [] n h = ground arith
memcmp-lex [] (y ∷ ys) n h = ground arith
memcmp-lex (x ∷ xs) [] n h = ground arith
memcmp-lex (x ∷ xs) (y ∷ ys) zero h = absurd (omega arith)
memcmp-lex (x ∷ xs) (y ∷ ys) (suc n) h = ground (arith, memcmp-lex xs ys n (omega arith))

pub default_collate-lex : (a b : Bytes) → default_collate a b ≡ lex a b
unfolding default_collate
default_collate-lex a b = memcmp-lex a b _ refl

pub sgn-sub_ℕ : (m n : ℕ) → sgn (sub_ℕ m n) ≡ compare m n
unfolding sgn
sgn-sub_ℕ m n = ground arith

-- A rev ID of the form that the comment on `CBLCollateRevIDs` describes, a generation number, a hyphen and an
-- arbitrary suffix, whose generation number is positive and, which the comment does not ask for, has at most
-- eight digits.
pub record IsProper (r : TreeRevId) (gen : ℕ) (rest : Bytes) : Type 0 where
  pub number : Bytes
  pub digits : AreDigits number
  pub short : length number ≤ 8
  pub value_is : value 0 number ≡ gen
  pub gen_pos : 0 < gen
  pub shape : r ≡ number ++ (b'-' ∷ rest)

module _ {r : TreeRevId} {gen : ℕ} {rest : Bytes} (p : IsProper r gen rest) where
  pub IsProper-memchr : memchr r b'-' ≡ some (length p.number)
  IsProper-memchr = rw p.shape (memchr_digits p.number rest p.digits)

  pub IsProper-gen_lt : gen < 10 ^ 8
  IsProper-gen_lt = omega (
    arith,
    value-lt p.number 0 p.digits,
    p.value_is,
    pow-le-pow_right {n = 10} (omega arith) p.short,
  )

  pub IsProper-parse_digits : parse_digits (take (length p.number) r) ≡ gen
  IsProper-parse_digits =
      rw (p.shape, take_dash p.number rest)
        (parse_digits-value p.number p.digits (omega (arith, IsProper-gen_lt, p.value_is))
          ∙ p.value_is)

  IsProper-drop : drop (length p.number + 1) r ≡ rest
  IsProper-drop = rw p.shape (drop_dash p.number rest)

-- Generations of one digit are compared as text, with the same result.
lex_single_digits :
    (m n s t : Bytes)
    → AreDigits m
    → AreDigits n
    → length m ≡ 1
    → length n ≡ 1
    → lex (m ++ (b'-' ∷ s)) (n ++ (b'-' ∷ t)) ≡ compare (value 0 m) (value 0 n) or_else lex s t
lex_single_digits [] n s t dm dn hm hn = absurd (omega arith)
lex_single_digits (c ∷ []) [] s t dm dn hm hn = absurd (omega arith)
lex_single_digits (c ∷ []) (d ∷ []) s t dm dn hm hn = ground arith
lex_single_digits (c ∷ []) (d ∷ e ∷ n) s t dm dn hm hn = absurd (omega arith)
lex_single_digits (c ∷ b ∷ m) n s t dm dn hm hn = absurd (omega arith)

module _ {a b : TreeRevId} {gen_a gen_b : ℕ} {rest_a rest_b : Bytes} (p : IsProper a gen_a rest_a)
    (q : IsProper b gen_b rest_b) where
  collate-as_text :
      compare_as_text (length p.number) (length q.number) ≡ true
      → default_collate a b ≡ compare gen_a gen_b or_else lex rest_a rest_b
  unfolding compare_as_text
  collate-as_text h =
      rw (default_collate-lex, p.shape, q.shape, ← p.value_is, ← q.value_is)
        (lex_single_digits p.number q.number rest_a rest_b p.digits q.digits
          (ground (arith, p.short, q.short)) (ground (arith, p.short, q.short)))

  collate-generations :
      collate_generations (length p.number) (length q.number) a b
      ≡ compare gen_a gen_b or_else lex rest_a rest_b
  unfolding collate_generations
  collate-generations =
      simp
        (
          IsProper-parse_digits p,
          IsProper-parse_digits q,
          IsProper-drop p,
          IsProper-drop q,
          default_collate-lex,
          sgn-sub_ℕ,
        )
        (ground (arith, p.gen_pos, q.gen_pos))

  -- Two revision IDs that consist of a positive generation number of at most eight digits, a hyphen and a suffix
  -- compare by generation, as numbers, and then by suffix, as text.
  pub collate-proper : collate_rev_ids a b ≡ compare gen_a gen_b or_else lex rest_a rest_b
  unfolding collate_rev_ids
  collate-proper =
      rw (IsProper-memchr p, IsProper-memchr q)
        (elim (Bool-cases (compare_as_text (length p.number) (length q.number))) [
          | inl text ↦ rw text (collate-as_text text)
          | inr numbers ↦ rw numbers collate-generations
        ])
