-- ===== src/RevId/Order.antt =====
-- Source/CBL_RevID.m, `CBLCollateRevIDs`: what kind of order it is, as the REVID collation of the
-- SQLite tables relies on it.
use couchbase_lite_ios.Base.{
  ℕ, ◌+◌, ◌^◌, ◌<◌, ◌≡◌, ap, ◌∙◌, ◌↔◌, Option, none, some, ◌∷◌, ◌++◌, length, drop, arith, Ordering,
  flip,
}
use couchbase_lite_ios.Base.Bytes.{Bytes, memchr, lex}
use couchbase_lite_ios.RevId.{
  TreeRevId, generation, compare_as_text, collate_generations, collate_dashes, collate_rev_ids,
}
use couchbase_lite_ios.RevId.Digits.{
  value, AreDigits, value-lt, parse_digits-value, memchr_digits, take_dash,
}
use couchbase_lite_ios.RevId.Collate.{
  IsProper, IsProper-memchr, IsProper-parse_digits, collate-proper, lex-flip, lex-eq, lex_refl,
  lex_trans, default_collate-lex, sgn-sub_ℕ,
}

collate_generations-flip :
    (m n : ℕ) (a b : Bytes) → collate_generations n m b a ≡ flip (collate_generations m n a b)
unfolding collate_generations
collate_generations-flip m n a b =
    simp (default_collate-lex, sgn-sub_ℕ)
      (ground (arith, lex-flip a b, lex-flip (drop (m + 1) a) (drop (n + 1) b)))

collate_dashes-flip :
    (m n : Option ℕ) (a b : Bytes) → collate_dashes n m b a ≡ flip (collate_dashes m n a b)
unfolding collate_dashes compare_as_text
collate_dashes-flip (some m) (some n) a b =
    simp default_collate-lex (ground (arith, lex-flip a b, collate_generations-flip m n a b))
collate_dashes-flip (some m) none a b = simp default_collate-lex (lex-flip a b)
collate_dashes-flip none (some n) a b = simp default_collate-lex (lex-flip a b)
collate_dashes-flip none none a b = simp default_collate-lex (lex-flip a b)

-- Swapping any two byte strings, proper revision IDs or not, swaps the result.
pub collate_rev_ids-flip : (a b : Bytes) → collate_rev_ids b a ≡ flip (collate_rev_ids a b)
unfolding collate_rev_ids
collate_rev_ids-flip a b = collate_dashes-flip (memchr a b'-') (memchr b b'-') a b

-- A tie between an ID and itself.
pub collate_rev_ids_refl : (a : Bytes) → collate_rev_ids a a ≡ Ordering.eq
collate_rev_ids_refl a = ground (arith, collate_rev_ids-flip a a)

module _ {a b c : TreeRevId} {gen_a gen_b gen_c : ℕ} {rest_a rest_b rest_c : Bytes}
    (p : IsProper a gen_a rest_a) (q : IsProper b gen_b rest_b) (r : IsProper c gen_c rest_c) where
  -- Among proper revision IDs the order is transitive.
  pub collate_rev_ids_trans :
      collate_rev_ids a b ≡ Ordering.lt
      → collate_rev_ids b c ≡ Ordering.lt
      → collate_rev_ids a c ≡ Ordering.lt
  collate_rev_ids_trans h k = rw (collate-proper p r) (
      ground (
        arith,
        collate-proper p q,
        collate-proper q r,
        lex_trans rest_a rest_b rest_c,
        lex-eq rest_a rest_b,
      ))

module _ {a b : TreeRevId} {gen_a gen_b : ℕ} {rest_a rest_b : Bytes} (p : IsProper a gen_a rest_a)
    (q : IsProper b gen_b rest_b) where
  -- Two proper revision IDs tie exactly when their generation numbers and their suffixes are equal.
  pub collate_rev_ids-eq :
      (collate_rev_ids a b ≡ Ordering.eq) ↔ ((gen_a ≡ gen_b) × (rest_a ≡ rest_b))
  collate_rev_ids-eq = rw (collate-proper p q) (
    (λ h. (ground arith, lex-eq rest_a rest_b (ground arith))),
    (λ h. rw h.1 (ground (arith, lex_refl rest_b))),
  )

  -- Two proper revision IDs of which the first has the smaller generation, and a text with no
  -- hyphen that lies between them as a text, form a cycle.
  pub collate_rev_ids_cycle :
      (text : Bytes)
      → gen_a < gen_b
      → memchr text b'-' ≡ none
      → lex b text ≡ Ordering.lt
      → lex text a ≡ Ordering.lt
      → (collate_rev_ids a b ≡ Ordering.lt)
        × (collate_rev_ids b text ≡ Ordering.lt)
        × (collate_rev_ids text a ≡ Ordering.lt)
  unfolding collate_rev_ids
  collate_rev_ids_cycle text lt no_dash h k = (
    collate-proper p q ∙ ground arith,
    rw (no_dash, IsProper-memchr q, default_collate-lex) h,
    rw (no_dash, default_collate-lex) k,
  )

-- The method `generation` reads the number that `CBLCollateRevIDs` compares.
pub generation-proper :
    {r : TreeRevId} {gen : ℕ} {rest : Bytes} → IsProper r gen rest → generation r ≡ gen
unfolding generation
generation-proper {r} p =
    rw (IsProper-memchr p, generation) (ground (arith, p.short, IsProper-parse_digits p))

collate_dashes-nine : (m : Option ℕ) (a b : Bytes) → collate_dashes m (some 9) a b ≡ lex a b
unfolding collate_dashes compare_as_text
collate_dashes-nine (some m) a b = ground (arith, default_collate-lex a b)
collate_dashes-nine none a b = default_collate-lex a b

generation_nine :
    (number rest : Bytes)
    → AreDigits number
    → length number ≡ 9
    → generation (number ++ (b'-' ∷ rest)) ≡ value 0 number
unfolding generation
generation_nine number rest d nine =
    rw (memchr_digits number rest d, generation)
      (ground (
        arith,
        take_dash number rest,
        parse_digits-value number d,
        value-lt number 0 d,
        ap (λ (k : ℕ). 10 ^ k) nine,
      ))

-- A generation number of nine digits is a valid one for `generation`, but `CBLCollateRevIDs`
-- compares such an ID as a text with any other.
pub collate_nine_digits :
    (a number rest : Bytes)
    → AreDigits number
    → length number ≡ 9
    → (generation (number ++ (b'-' ∷ rest)) ≡ value 0 number)
      × (collate_rev_ids a (number ++ (b'-' ∷ rest)) ≡ lex a (number ++ (b'-' ∷ rest)))
unfolding collate_rev_ids
collate_nine_digits a number rest d nine = (
  generation_nine number rest d nine,
  rw (memchr_digits number rest d, nine) (collate_dashes-nine (memchr a b'-') a _),
)
