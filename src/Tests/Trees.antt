-- ===== src/Tests/Trees.antt =====
-- Source/CBL_SQLiteStorage.m: revision trees at concrete inputs.
use couchbase_lite_ios.Base.{
  ℕ, ◌≡◌, refl, ap, inl, inr, Bool, true, false, Option, none, some, List, [], ◌∷◌, ◌++◌, arith,
  Ordering,
}
use couchbase_lite_ios.Base.Bytes.{Bytes, codes, memchr, memcmp}
use couchbase_lite_ios.RevId.{TreeRevId, parse_digits, collate_rev_ids, format_int, append_decimal}
use couchbase_lite_ios.RevId.Collate.{IsProper}
use couchbase_lite_ios.Storage.Table.{
  Row, Store, insert_row, delete_where, where_rows, any_row, revid_eq, revid_lt, forget_parent,
  member,
}
use couchbase_lite_ios.Storage.Queries.{leaves_of, winning_rev_id, winner_with}
use couchbase_lite_ios.Storage.Prune.{prune_trunk, prune_document}
use couchbase_lite_ios.Storage.Rows.{In}
use couchbase_lite_ios.Storage.Winning.{
  HasProperId, AllProper, IsWinnerOf, winning_rev_id-IsWinnerOf,
}
use couchbase_lite_ios.Storage.NewWinner.{Grows, AreDistinct, or_old, winner_with-winning_rev_id}
use couchbase_lite_ios.Storage.Pruning.{SameRow, Enumerates, leaf-prune_document}
use couchbase_lite_ios.Storage.WellFormed.{IsWellFormed, Links}

abbrev revision : ℕ → TreeRevId → Option ℕ → Bool → Bool → Row
revision seq revid parent current deleted = record {
  sequence = seq;
  doc_id = 1;
  revid = revid;
  parent = parent;
  current = current;
  deleted = deleted;
  json = none;
  no_attachments = true;
  doc_type = none;
}

abbrev first : Row
first = revision 1 (codes "1-aa") none true false

abbrev first_replaced : Row
first_replaced = revision 1 (codes "1-aa") none false false

abbrev second : Row
second = revision 2 (codes "2-bb") (some 1) true false

abbrev before : List Row
before = first ∷ []

abbrev after : List Row
after = first_replaced ∷ second ∷ []

first-IsProper : IsProper (codes "1-aa") 1 (codes "aa")
first-IsProper = record {
  number = codes "1";
  digits = (refl, tt);
  short = omega arith;
  value_is = refl;
  gen_pos = omega arith;
  shape = refl;
}

second-IsProper : IsProper (codes "2-bb") 2 (codes "bb")
second-IsProper = record {
  number = codes "2";
  digits = (refl, tt);
  short = omega arith;
  value_is = refl;
  gen_pos = omega arith;
  shape = refl;
}

abbrev Proper : Row → Type 0
Proper r = (gen : ℕ) × (rest : Bytes) × IsProper r.revid gen rest

has_proper_id :
    (r s : Row) → r ≡ s → (gen : ℕ) × (rest : Bytes) × IsProper s.revid gen rest → HasProperId r
has_proper_id r s e (gen, rest, p) = rw e (record { gen = gen; rest = rest; proper = p })

before-AllProper : AllProper 1 before
before-AllProper r (inl e) d = has_proper_id r first e (1, codes "aa", first-IsProper)
before-AllProper r (inr nowhere) d = absurd nowhere

after-AllProper : AllProper 1 after
after-AllProper r (inl e) d = has_proper_id r first_replaced e (1, codes "aa", first-IsProper)
after-AllProper r (inr (inl e)) d = has_proper_id r second e (2, codes "bb", second-IsProper)
after-AllProper r (inr (inr nowhere)) d = absurd nowhere

winning_rev_id-IsWinnerOf_example : IsWinnerOf (winning_rev_id after 1) (leaves_of 1 after)
winning_rev_id-IsWinnerOf_example = winning_rev_id-IsWinnerOf 1 after after-AllProper

leaves-before : leaves_of 1 before ≡ first ∷ []
unfolding where_rows
leaves-before = refl

leaves-after : leaves_of 1 after ≡ second ∷ []
unfolding where_rows
leaves-after = refl

second_replaces : collate_rev_ids (codes "2-bb") (codes "1-aa") ≡ Ordering.gt
unfolding collate_rev_ids memchr memcmp
second_replaces = refl

replacement : Grows (first ∷ []) (second ∷ []) second
replacement = record {
  new_in = inl refl;
  others = λ r h. elim h [ inl e ↦ inl (rw e (refl, refl)) | inr nowhere ↦ absurd nowhere ];
  kept = λ s h. elim h [ inl e ↦ inl (rw e second_replaces) | inr nowhere ↦ absurd nowhere ];
}

replacement-Grows : Grows (leaves_of 1 before) (leaves_of 1 after) second
replacement-Grows = rw (leaves-before, leaves-after) replacement

one-AreDistinct : AreDistinct (second ∷ [])
one-AreDistinct r s (inl e) (inl e') h = rw (e, e')
one-AreDistinct r s (inr nowhere) k h = absurd nowhere
one-AreDistinct r s h (inr nowhere) k = absurd nowhere

after-AreDistinct : AreDistinct (leaves_of 1 after)
after-AreDistinct = rw leaves-after one-AreDistinct

winner_with-winning_rev_id_example :
    or_old
      (winner_with after 1
        (winning_rev_id before 1).revid
        (winning_rev_id before 1).is_deleted
        second.revid
        second.deleted)
      (winning_rev_id before 1).revid
    ≡ (winning_rev_id after 1).revid
winner_with-winning_rev_id_example =
    winner_with-winning_rev_id before after 1 second before-AllProper after-AllProper
      replacement-Grows after-AreDistinct

-- The identity is an order in which a set may be enumerated.
in_turn : Enumerates (λ xs. xs)
in_turn = record { complete = λ n xs h. h }

second-leaf : In second (leaves_of 1 after)
second-leaf = rw leaves-after (inl refl)

leaf-prune_document_example :
    (y : Row) × In y (prune_document (λ xs. xs) 20 1 2 after) × SameRow y second
leaf-prune_document_example = leaf-prune_document 19 1 2 in_turn after second second-leaf

abbrev orphan : Row
orphan = revision 2 (codes "2-bb") none true false

pruned : prune_document (λ xs. xs) 20 1 2 after ≡ orphan ∷ []
unfolding prune_document prune_trunk where_rows delete_where forget_parent member revid_lt
    collate_rev_ids memchr memcmp parse_digits format_int append_decimal
pruned = refl

orphan-In : In orphan (prune_document (λ xs. xs) 20 1 2 after)
orphan-In = rw pruned (inl refl)

abbrev one_row : Store
one_row = record {
  docs = [];
  rows = before;
  last_sequence = 1;
  cached_ids = [];
  max_rev_tree_depth = 20;
}

first-Links' :
    (exempt : ℕ) (r : Row) (p : ℕ) → r ≡ first → r.parent ≡ some p → Links exempt before r p
first-Links' exempt r p e is_some = absurd (cc (ap (λ (x : Row). x.parent) e))

one_row-IsWellFormed : (exempt : ℕ) → IsWellFormed exempt before 1
one_row-IsWellFormed exempt = record {
  counted =
      λ r h. elim h [ inl e ↦ rw e ((omega arith), omega arith) | inr nowhere ↦ absurd nowhere ];
  one_sequence = λ r s h k e. same r s h k;
  one_revid = λ r s h k d e. same r s h k;
  linked = λ r p h e. elim h [
    | inl is_first ↦ first-Links' exempt r p is_first e
    | inr nowhere ↦ absurd nowhere
  ];
}
  where
    same : (r s : Row) → In r before → In s before → r ≡ s
    same r s (inl e) (inl e') = rw (e, e')
    same r s (inr nowhere) k = absurd nowhere
    same r s h (inr nowhere) = absurd nowhere

first-Links : (p : ℕ) → some 1 ≡ some p → Links 1 before second p
first-Links p e = record {
  row = first;
  place = inl refl;
  sequence_is = ground arith;
  doc_is = refl;
  replaced = inr (ground arith);
}

abbrev two_rows : Store
two_rows = record one_row { rows = before ++ (second ∷ []); last_sequence = 2 }

inserted : insert_row second one_row ≡ some two_rows
unfolding insert_row any_row revid_eq collate_rev_ids memchr memcmp parse_digits
inserted = refl
