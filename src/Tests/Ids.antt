-- ===== src/Tests/Ids.antt =====
-- Source/CBL_RevID.m: revision IDs at concrete inputs.
use couchbase_lite_ios.Base.{
  ℕ, ◌+◌, ◌≡◌, refl, false, none, some, List, [], ◌∷◌, arith, Ordering, All,
}
use couchbase_lite_ios.Base.Bytes.{Bytes, codes, memchr, memcmp}
use couchbase_lite_ios.Base.Collections.{in_order}
use couchbase_lite_ios.Base.Int.{pos}
use couchbase_lite_ios.RevId.{
  TreeRevId, string, parse_digits, generation, ascii_string, suffix, append_decimal, append_hex,
  digest_input, rev_id_for_json, make_revision_history_dict, parse_revision_history_dict,
  collate_rev_ids,
}
use couchbase_lite_ios.RevId.Digits.{AreDigits}
use couchbase_lite_ios.RevId.Collate.{IsProper, collate-proper}
use couchbase_lite_ios.RevId.Order.{collate_rev_ids_refl, generation-proper}
use couchbase_lite_ios.RevId.Canonical.{IsCanonical}
use couchbase_lite_ios.RevId.History.{IsTreeId, parse-make}
use couchbase_lite_ios.RevId.Next.{IsDigest, rev_id_for_json-IsCanonical}

abbrev rev_2a : TreeRevId
rev_2a = codes "2-aa"

abbrev rev_2b : TreeRevId
rev_2b = codes "2-bb"

abbrev rev_10 : TreeRevId
rev_10 = codes "10-aa"

IsProper-2a : IsProper rev_2a 2 (codes "aa")
IsProper-2a = record {
  number = codes "2";
  digits = (refl, tt);
  short = omega arith;
  value_is = refl;
  gen_pos = omega arith;
  shape = refl;
}

IsProper-2b : IsProper rev_2b 2 (codes "bb")
IsProper-2b = record {
  number = codes "2";
  digits = (refl, tt);
  short = omega arith;
  value_is = refl;
  gen_pos = omega arith;
  shape = refl;
}

IsProper-10 : IsProper rev_10 10 (codes "aa")
IsProper-10 = record {
  number = codes "10";
  digits = (refl, (refl, tt));
  short = omega arith;
  value_is = refl;
  gen_pos = omega arith;
  shape = refl;
}

-- The examples of the comment on `CBLCollateRevIDs`.
collate_runs :
    (collate_rev_ids rev_2a rev_10 ≡ Ordering.lt)
    × (collate_rev_ids rev_2b rev_2a ≡ Ordering.gt)
    × (collate_rev_ids (codes "foo") (codes "bar") ≡ Ordering.gt)
unfolding collate_rev_ids parse_digits memchr memcmp
collate_runs = (refl, refl, refl)

accessor_runs :
    (generation (codes "123-abc") ≡ 123)
    × (suffix (codes "123-abc") ≡ some (codes "abc"))
    × (suffix (codes "123-") ≡ none)
    × (generation (codes "12x-abc") ≡ 0)
    × (generation (codes "4294967297-abc") ≡ 0)
unfolding generation suffix parse_digits ascii_string memchr
accessor_runs = (refl, refl, refl, refl, refl)

collate-proper_example : collate_rev_ids rev_2b rev_10 ≡ Ordering.lt
collate-proper_example = collate-proper IsProper-2b IsProper-10

collate_rev_ids_refl_example : collate_rev_ids rev_10 rev_10 ≡ Ordering.eq
collate_rev_ids_refl_example = collate_rev_ids_refl rev_10

abbrev two : ℕ
two = 2

nine_digits : AreDigits (codes "123456789")
nine_digits = (refl, (refl, (refl, (refl, (refl, (refl, (refl, (refl, (refl, tt)))))))))

IsCanonical-2 : IsCanonical rev_2a 2 (codes "aa")
unfolding append_decimal ascii_string
IsCanonical-2 = record {
  number = codes "2";
  printed = refl;
  gen_pos = omega arith;
  gen_lt = omega arith;
  rest_ne_nil = λ e. cc;
  rest_ascii = refl;
  shape = refl;
}

IsCanonical-10 : IsCanonical rev_10 10 (codes "aa")
unfolding append_decimal ascii_string
IsCanonical-10 = record {
  number = codes "10";
  printed = refl;
  gen_pos = omega arith;
  gen_lt = omega arith;
  rest_ne_nil = λ e. cc;
  rest_ascii = refl;
  shape = refl;
}

abbrev history : List TreeRevId
history = rev_10 ∷ rev_2a ∷ []

history_ids : All IsTreeId history
history_ids = (
  record { gen = 10; rest = codes "aa"; canonical = IsCanonical-10 },
  (record { gen = 2; rest = codes "aa"; canonical = IsCanonical-2 }, tt),
)

parse-make_example :
    parse_revision_history_dict in_order (make_revision_history_dict in_order (some history))
    ≡ some history
parse-make_example = parse-make in_order history history_ids

-- The dictionary of a history of successive generations.
make_run :
    make_revision_history_dict in_order (some (codes "3-cc" ∷ rev_2b ∷ []))
    ≡ some (record {
      start = some (pos 3);
      ids = some (string (codes "cc") ∷ string (codes "bb") ∷ []);
    })
unfolding make_revision_history_dict generation suffix parse_digits ascii_string memchr
make_run = refl

abbrev zeros : Bytes
zeros = 0 ∷ 0 ∷ 0 ∷ 0 ∷ 0 ∷ 0 ∷ 0 ∷ 0 ∷ 0 ∷ 0 ∷ 0 ∷ 0 ∷ 0 ∷ 0 ∷ 0 ∷ 0 ∷ []

-- A digest that does not depend on its input.
abbrev constant_digest : Bytes → Bytes
constant_digest _ = zeros

constant_digest-IsDigest : IsDigest constant_digest
constant_digest-IsDigest = record { length_is = λ _. refl; are_bytes = λ _. ground arith }

abbrev json : Bytes
json = codes "{\"a\":1}"

generation-2a : generation rev_2a ≡ 2
generation-2a = generation-proper IsProper-2a

rev_id_for_json-IsCanonical_example :
    (r : TreeRevId) × (rev_id_for_json constant_digest json false (some rev_2a) ≡ some r)
    × IsCanonical r (2 + 1) (append_hex (constant_digest (digest_input json false (some rev_2a))))
rev_id_for_json-IsCanonical_example =
    rev_id_for_json-IsCanonical constant_digest-IsDigest json false (some rev_2a) {gen = 2}
      (rw generation-2a refl) (omega arith)

abbrev first_id : TreeRevId
first_id = codes "1-00000000000000000000000000000000"

first_id-made : rev_id_for_json constant_digest json false none ≡ some first_id
unfolding rev_id_for_json append_decimal append_hex
first_id-made = refl
