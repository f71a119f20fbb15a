-- ===== src/RevId/Next.antt =====
-- Source/CBL_RevID.m, `revIDForJSON:deleted:prevRevID:`: the ID of the next revision.
use couchbase_lite_ios.Base.{
  ℕ, zero, suc, ◌+◌, ◌*◌, ◌^◌, ◌≤◌, ◌<◌, ◌≡◌, refl, ap, ◌∙◌, inl, inr, ◌⊎◌, Bool, true, ◌↔◌, ◌≢◌,
  Option, none, some, [], ◌∷◌, ◌++◌, ◌==◌, if◌then◌else◌, length, length-append, take, All, arith,
  Bool-cases, ==_iff, Option-cases, length-take,
}
use couchbase_lite_ios.Base.Bytes.{Bytes, codes, memchr, is_digit, digit_to_int}
use couchbase_lite_ios.RevId.{
  TreeRevId, unsigned, generation, parse_from, parse_digits, all_ascii, ascii_string,
  append_decimal, append_hex, digest_input, prev_generation, rev_id_for_json,
}
use couchbase_lite_ios.RevId.Digits.{
  IsDecimal, append_decimal-IsDecimal, append_decimal_total, memchr_digits,
}
use couchbase_lite_ios.RevId.Canonical.{IsCanonical}
use native.Mathlib.Nat.{pow-suc, pow-le-pow_right}

mul_mono : (a b p : ℕ) → a ≤ b → a * p ≤ b * p
mul_mono a b p h = grind arith

one-le-pow : (k : ℕ) → 1 ≤ 10 ^ k
one-le-pow zero = omega arith
one-le-pow (suc k) = rw pow-suc (omega (arith, one-le-pow k))

parse_from-cons :
    (c : ℕ) (cs : Bytes) (acc : ℕ)
    → parse_from acc (c ∷ cs)
      ≡ (if is_digit c then parse_from (unsigned (10 * acc + digit_to_int c)) cs else 0)
unfolding parse_from
parse_from-cons c cs acc = refl

parse_from-lt : (ds : Bytes) (acc : ℕ) → parse_from acc ds < (acc + 1) * 10 ^ length ds
parse_from-lt [] acc = unfold parse_from in omega arith
parse_from-lt (c ∷ cs) acc = elim (Bool-cases (is_digit c)) [
  | inl digit ↦
      let next = unsigned (10 * acc + digit_to_int c) in
      rw (parse_from-cons, digit, pow-suc 10 (length cs))
        (omega (
          arith,
          parse_from-lt cs next,
          mul_mono (next + 1) (10 * acc + 10) (10 ^ length cs) (ground arith),
        ))
  | inr no_digit ↦
      rw (parse_from-cons, no_digit, pow-suc 10 (length cs))
        (omega (arith, one-le-pow (length cs), mul_mono 1 (10 * acc + 10) (10 ^ length cs)))
]

take_short : (n : ℕ) (r : Bytes) → n ≤ 9 → 10 ^ length (take n r) ≤ 10 ^ 9
take_short n r h = pow-le-pow_right {n = 10} (omega arith) {j = 9} (omega (arith, length-take n r))

-- `generation` never gives more than nine digits.
pub generation_bounds : (r : TreeRevId) → generation r < 10 ^ 9
unfolding generation parse_digits
generation_bounds r = elim (Option-cases (memchr r b'-')) [
  | inl e ↦ rw (e, generation) (omega arith)
  | inr (dash, e) ↦
      rw (e, generation) (ground (arith, parse_from-lt (take dash r) 0, take_short dash r))
]

append_hex_ascii : (bytes : Bytes) → All (λ c. c < 256) bytes → all_ascii (append_hex bytes) ≡ true
unfolding all_ascii append_hex
append_hex_ascii [] h = refl
append_hex_ascii (c ∷ cs) h = ground (arith, append_hex_ascii cs h.1)

length-append_hex : (bytes : Bytes) → length (append_hex bytes) ≡ 2 * length bytes
unfolding append_hex
length-append_hex [] = omega arith
length-append_hex (c ∷ cs) = omega (arith, length-append_hex cs)

append_hex-ne-nil : (bytes : Bytes) → length bytes ≡ 16 → append_hex bytes ≢ []
append_hex-ne-nil bytes h e = omega (arith, h, ap length e, length-append_hex bytes)

prev_generation-cases :
    (prev : Option TreeRevId)
    → ((prev_generation prev ≡ none) × ((p : TreeRevId) × (prev ≡ some p) × (generation p ≡ 0)))
      ⊎ ((gen : ℕ) × (prev_generation prev ≡ some gen) × (gen < 10 ^ 9))
prev_generation-cases none = inr (0, refl, omega arith)
prev_generation-cases (some p) = elim (Bool-cases (generation p == 0)) [
  | inl zero_gen ↦ inl (rw zero_gen refl, (p, refl, (==_iff _ _).0 zero_gen))
  | inr some_gen ↦ inr (generation p, rw some_gen refl, generation_bounds p)
]

-- What the code relies on in the system's MD5: a digest of 16 bytes.
pub record IsDigest (md5 : Bytes → Bytes) : Type 0 where
  pub length_is : (input : Bytes) → length (md5 input) ≡ 16
  pub are_bytes : (input : Bytes) → All (λ c. c < 256) (md5 input)

module _ {md5 : Bytes → Bytes} (digest : IsDigest md5) (json : Bytes) (deleted : Bool)
    (prev : Option TreeRevId) where
  abbrev hex : Bytes
  hex = append_hex (md5 (digest_input json deleted prev))

  hex_ascii : ascii_string hex ≡ some hex
  unfolding ascii_string
  hex_ascii = rw (append_hex_ascii _ (digest.are_bytes _))

  rev_id_for_json-eq :
      {gen : ℕ} {number : Bytes}
      → prev_generation prev ≡ some gen
      → append_decimal (unsigned (gen + 1)) ≡ some number
      → rev_id_for_json md5 json deleted prev ≡ some (number ++ (b'-' ∷ hex))
  unfolding rev_id_for_json
  rev_id_for_json-eq e p = rw (e, rev_id_for_json, p)

  -- Below the largest generation the next revision's ID is again one that the program reads back:
  -- its generation is one higher, and it has the digest in hexadecimal for its suffix.
  pub rev_id_for_json-IsCanonical :
      {gen : ℕ}
      → prev_generation prev ≡ some gen
      → gen + 1 < 10 ^ 9
      → (r : TreeRevId) × (rev_id_for_json md5 json deleted prev ≡ some r)
        × IsCanonical r (gen + 1) hex
  rev_id_for_json-IsCanonical {gen} e h =
      let wrap : unsigned (gen + 1) ≡ gen + 1 = omega arith in
      let (number, printed, _) = append_decimal_total 8 (gen + 1) h (omega arith) in
      (
        number ++ (b'-' ∷ hex),
        rev_id_for_json-eq e (ap append_decimal wrap ∙ printed),
        record {
          number = number;
          printed = printed;
          gen_pos = omega arith;
          gen_lt = h;
          rest_ne_nil = append_hex-ne-nil _ (digest.length_is _);
          rest_ascii = hex_ascii;
          shape = refl;
        },
      )

  rev_id_for_json-eq_none :
      prev_generation prev ≡ none → rev_id_for_json md5 json deleted prev ≡ none
  unfolding rev_id_for_json
  rev_id_for_json-eq_none e = rw (e, rev_id_for_json)

  -- Any generation that `generation` returns is printed, in ten digits at most.
  rev_id_for_json_total :
      (gen : ℕ)
      → prev_generation prev ≡ some gen
      → gen < 10 ^ 9
      → (number : Bytes) × (append_decimal (gen + 1) ≡ some number)
        × (rev_id_for_json md5 json deleted prev ≡ some (number ++ (b'-' ∷ hex)))
        × (length number ≤ 10)
  rev_id_for_json_total gen e h =
      let wrap : unsigned (gen + 1) ≡ gen + 1 = omega arith in
      let (number, printed, short) = append_decimal_total 9 (gen + 1) (omega arith) (omega arith) in
      (number, printed, rev_id_for_json-eq e (ap append_decimal wrap ∙ printed), short)

  -- A previous ID with no generation is the only failure.
  pub rev_id_for_json-none :
      (rev_id_for_json md5 json deleted prev ≡ none)
      ↔ ((p : TreeRevId) × (prev ≡ some p) × (generation p ≡ 0))
  rev_id_for_json-none = elim (prev_generation-cases prev) [
    | inl (e, failed) ↦ ((λ _. failed), (λ _. rev_id_for_json-eq_none e))
    | inr (gen, e, h) ↦
        let (number, _, made, _) = rev_id_for_json_total gen e h in
        (
          (λ f. cc),
          (λ (p, is_prev, no_gen). rev_id_for_json-eq_none (rw is_prev (ground (arith, no_gen)))),
        )
  ]

  -- The ID with its terminating zero fits the buffer `char hex[11 + 2*MD5_DIGEST_LENGTH + 1]`.
  pub rev_id_for_json_bounds :
      {r : TreeRevId}
      → rev_id_for_json md5 json deleted prev ≡ some r
      → length r + 1 ≤ 11 + 2 * 16 + 1
  rev_id_for_json_bounds {r} made = elim (prev_generation-cases prev) [
    | inl (e, _) ↦ cc (rev_id_for_json-eq_none e)
    | inr (gen, e, h) ↦
        let (number, _, made', short) = rev_id_for_json_total gen e h in
        let same : r ≡ number ++ (b'-' ∷ hex) = cc in
        omega (
          arith,
          ap length same,
          length-append number (b'-' ∷ hex),
          length-append_hex (md5 (digest_input json deleted prev)),
          digest.length_is (digest_input json deleted prev),
        )
  ]

abbrev ten_digits : Bytes
ten_digits = codes "1000000000"

ten_digits-IsDecimal : IsDecimal 1000000000 ten_digits
unfolding append_decimal
ten_digits-IsDecimal = append_decimal-IsDecimal 1000000000 refl

ten_digits_printed : append_decimal (unsigned (999999999 + 1)) ≡ some ten_digits
unfolding append_decimal
ten_digits_printed = refl

generation_ten : (rest : Bytes) → generation (ten_digits ++ (b'-' ∷ rest)) ≡ 0
unfolding generation
generation_ten rest =
    rw (memchr_digits ten_digits rest ten_digits-IsDecimal.digits, generation) refl

-- The child of a revision of generation 999999999 gets a number of ten digits, which `generation`
-- does not accept: the new ID has generation 0, and no further revision can follow it.
pub generation_exhausted :
    {md5 : Bytes → Bytes}
    → IsDigest md5
    → (json : Bytes) (deleted : Bool) (prev : TreeRevId) → generation prev ≡ 999999999
    → (r : TreeRevId) × (rev_id_for_json md5 json deleted (some prev) ≡ some r)
      × (generation r ≡ 0)
      × ((json' : Bytes) (deleted' : Bool) → rev_id_for_json md5 json' deleted' (some r) ≡ none)
generation_exhausted {md5} digest json deleted prev h =
    let hex' = append_hex (md5 (digest_input json deleted (some prev))) in
    (
      ten_digits ++ (b'-' ∷ hex'),
      rev_id_for_json-eq digest json deleted (some prev) {gen = 999999999} (rw h refl)
          ten_digits_printed,
      generation_ten hex',
      λ json' deleted'.
          (rev_id_for_json-none digest json' deleted' (some (ten_digits ++ (b'-' ∷ hex')))).1
            (ten_digits ++ (b'-' ∷ hex'), refl, generation_ten hex'),
    )
