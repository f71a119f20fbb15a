-- ===== src/Storage/Ancestors.antt =====
-- Source/CBL_SQLiteStorage.m, `getPossibleAncestorRevisionIDs:limit:haveBodies:` and
-- `findCommonAncestorOf:withRevIDs:`, against what Source/CBL_Storage.h says of them.
use couchbase_lite_ios.Base.{
  ℕ, zero, suc, ◌^◌, ◌<◌, ◌≡◌, refl, sym, ◌∙◌, ◌⊎◌, inl, inr, Bool, true, false, not, ◌&&◌, List,
  [], ◌∷◌, leb, ◌==◌, if◌then◌else◌, length, take, arith, Bool-cases, compare, Ordering, ◌or_else◌,
}
use couchbase_lite_ios.Base.Bytes.{Bytes, lex}
use couchbase_lite_ios.RevId.{TreeRevId, generation, format_int, collate_rev_ids}
use couchbase_lite_ios.RevId.Digits.{append_decimal-IsDecimal, append_decimal_total}
use couchbase_lite_ios.RevId.Collate.{IsProper, collate-proper}
use couchbase_lite_ios.Storage.Table.{Row, Store, revid_lt, is_doc}
use couchbase_lite_ios.Storage.Docs.{get_doc_numeric_id}
use couchbase_lite_ios.Storage.Documents.{
  ancestors_of_kind, ancestors_in, generation_bound, get_possible_ancestors,
}
use mathlib.Core.Path.{subst}
use couchbase_lite_ios.Storage.Rows.{
  In, In-where_rows, where_rows-In, In-order_by, order_by-In, In-map,
}

In-take : {A : Type 0} (n : ℕ) (x : A) (xs : List A) → In x (take n xs) → In x xs
In-take zero x xs h = absurd h
In-take (suc n) x [] h = absurd h
In-take (suc n) x (y ∷ ys) (inl e) = inl e
In-take (suc n) x (y ∷ ys) (inr h) = inr (In-take n x ys h)

not-In-empty : {A : Type 0} (x : A) (xs : List A) → length xs ≡ 0 → ¬ In x xs
not-In-empty x [] e h = h
not-In-empty x (y ∷ ys) e h = omega (arith, e)

take-empty :
    {A : Type 0} (n : ℕ) (xs : List A) → (n == 0) ≡ false → length (take n xs) ≡ 0 → length xs ≡ 0
take-empty zero xs n h = cc
take-empty (suc k) [] n h = refl
take-empty (suc k) (x ∷ xs) n h = absurd (omega (arith, h))

module _ (rows : List Row) (doc : ℕ) (current : Bool) (bound : TreeRevId) (limit : ℕ) where
  test : Row → Bool
  test r = is_doc doc r && (if current then r.current else not r.current) && revid_lt r.revid bound

  In-ancestors_of_kind :
      (r : Row)
      → In r (ancestors_of_kind rows doc current bound limit)
      → In r rows × (test r ≡ true)
  unfolding ancestors_of_kind test
  In-ancestors_of_kind r h = elim (Bool-cases (limit == 0)) [
    | inl unlimited ↦ In-where_rows _ r rows (In-order_by _ r _ (rw unlimited at h))
    | inr limited ↦ In-where_rows _ r rows (In-order_by _ r _ (In-take limit r _ (rw limited at h)))
  ]

  ancestors_of_kind_empty :
      length (ancestors_of_kind rows doc current bound limit) ≡ 0
      → (r : Row) → In r rows
      → test r ≡ false
  unfolding ancestors_of_kind test
  ancestors_of_kind_empty h r place = elim (Bool-cases (test r)) [
    | inr fails ↦ fails
    | inl passes ↦
        let found =
          order_by-In (λ (x : Row) (y : Row). revid_lt y.revid x.revid) r _
            (where_rows-In _ r rows place passes) in
        elim (Bool-cases (limit == 0)) [
          | inl unlimited ↦ absurd (not-In-empty r _ (rw unlimited at h) found)
          | inr limited ↦
              absurd (not-In-empty r _ (take-empty limit _ limited (rw limited at h)) found)
        ]
  ]

-- A revision of the document below the bound, and a leaf unless no leaf is below the bound.
pub record IsCandidate (rows : List Row) (doc : ℕ) (bound a : TreeRevId) : Type 0 where
  pub row : Row
  pub place : In row rows
  pub doc_is : row.doc_id ≡ doc
  pub revid_is : row.revid ≡ a
  pub below : revid_lt row.revid bound ≡ true
  pub leaves_first :
      (row.current ≡ true)
      ⊎ ((s : Row) → In s rows → s.doc_id ≡ doc → s.current ≡ true → revid_lt s.revid bound ≡ false)

test-true :
    (doc : ℕ) (c : Bool) (b : TreeRevId) (r : Row)
    → ((r.doc_id == doc) && c && revid_lt r.revid b) ≡ true
    → (r.doc_id ≡ doc) × (c ≡ true) × (revid_lt r.revid b ≡ true)
test-true doc c b r h = ground arith

test-false :
    (doc : ℕ) (b : TreeRevId) (r : Row)
    → ((r.doc_id == doc) && r.current && revid_lt r.revid b) ≡ false
    → r.doc_id ≡ doc
    → r.current ≡ true
    → revid_lt r.revid b ≡ false
test-false doc b r h e c = ground arith

In-ancestors_in :
    (rows : List Row) (doc : ℕ) (bound : TreeRevId) (limit : ℕ) (r : Row)
    → In r (ancestors_in rows doc bound limit)
    → IsCandidate rows doc bound r.revid
unfolding ancestors_in test
In-ancestors_in rows doc bound limit r h =
    elim (Bool-cases (length (ancestors_of_kind rows doc true bound limit) == 0)) [
      | inl empty ↦
          let (place, passes) = In-ancestors_of_kind rows doc false bound limit r (rw empty at h) in
          let (doc_is, c, below) = test-true doc (not r.current) bound r passes in
          record {
            row = r;
            place = place;
            doc_is = doc_is;
            revid_is = refl;
            below = below;
            leaves_first = inr (λ s at_s e leaf.
                test-false doc bound s
                  (ancestors_of_kind_empty rows doc true bound limit (ground arith) s at_s) e leaf);
          }
      | inr leaves ↦
          let (place, passes) = In-ancestors_of_kind rows doc true bound limit r (rw leaves at h) in
          let (doc_is, c, below) = test-true doc r.current bound r passes in
          record {
            row = r;
            place = place;
            doc_is = doc_is;
            revid_is = refl;
            below = below;
            leaves_first = inl c;
          }
    ]

generation_bound-IsProper :
    (gen : ℕ) → 0 < gen → gen < 10 ^ 8 → IsProper (generation_bound gen) gen []
unfolding format_int
generation_bound-IsProper gen h lt =
    let (number, printed, short) = append_decimal_total 7 gen lt (omega arith) in
    let decimal = append_decimal-IsDecimal gen printed in
    record {
      number = number;
      digits = decimal.digits;
      short = short;
      value_is = decimal.value_is;
      gen_pos = h;
      shape = rw printed refl;
    }

lt-of-revid_lt : (a b : TreeRevId) → revid_lt a b ≡ true → collate_rev_ids a b ≡ Ordering.lt
unfolding revid_lt
lt-of-revid_lt a b h = ground arith

nothing_before_nil :
    (m n : ℕ) (rest : Bytes) → (compare m n or_else lex rest []) ≡ Ordering.lt → m < n
nothing_before_nil m n [] h = ground arith
nothing_before_nil m n (x ∷ rest) h = ground arith

below-generation :
    (a : TreeRevId) (gen gen_a : ℕ) (rest : Bytes)
    → 0 < gen
    → gen < 10 ^ 8
    → IsProper a gen_a rest
    → revid_lt a (generation_bound gen) ≡ true
    → gen_a < gen
below-generation a gen gen_a rest h lt p below =
    nothing_before_nil gen_a gen rest
      (sym (collate-proper p (generation_bound-IsProper gen h lt)) ∙ lt-of-revid_lt a _ below)

-- A revision ID that `getPossibleAncestorRevisionIDs:` returns for a revision of a generation below
-- 10 ^ 8, if it is proper, is of a lower generation; and it is of a revision of the same document,
-- which is a leaf unless no leaf of the document has such an ID.
pub get_possible_ancestors-IsCandidate :
    (docid : Bytes) (revid : TreeRevId) (limit : ℕ) (st : Store) (a : TreeRevId) {gen : ℕ}
    {rest : Bytes}
    → generation revid < 10 ^ 8
    → IsProper a gen rest
    → In a (get_possible_ancestors docid revid limit st).0.0
    → IsCandidate st.rows (get_doc_numeric_id docid st).0 (generation_bound (generation revid)) a
      × (gen < generation revid)
unfolding get_possible_ancestors
get_possible_ancestors-IsCandidate docid revid limit st a {gen} {rest} lt p h =
    elim (Bool-cases (leb (generation revid) 1)) [
      | inl first ↦ absurd (rw first at h)
      | inr later ↦ elim (Bool-cases ((get_doc_numeric_id docid st).0 == 0)) [
        | inl unknown ↦ absurd (rw (later, unknown) at h)
        | inr known ↦
            let (r, place, e) = In-map (λ (x : Row). x.revid) a _ (rw (later, known) at h) in
            let candidate =
              In-ancestors_in st.rows (get_doc_numeric_id docid st).0
                (generation_bound (generation revid)) limit r place in
            let its : IsCandidate st.rows (get_doc_numeric_id docid st).0
                (generation_bound (generation revid)) a =
              subst
                (IsCandidate st.rows (get_doc_numeric_id docid st).0
                  (generation_bound (generation revid)))
                (sym e) candidate in
            (
              its,
              below-generation a (generation revid) gen rest (ground arith) lt p (
                  subst (λ x. revid_lt x (generation_bound (generation revid)) ≡ true) its.revid_is
                    its.below),
            )
      ]
    ]
