-- ===== src/Storage/Queries.antt =====
-- Source/CBL_SQLiteStorage.m: the methods that read the revision tree of one document.
use couchbase_lite_ios.Base.{
  ℕ, Bool, true, false, not, ◌&&◌, ◌||◌, Option, none, some, List, [], ◌∷◌, ltb, ◌==◌,
  if◌then◌else◌, take, Ordering,
}
use couchbase_lite_ios.Base.Bytes.{equal}
use couchbase_lite_ios.RevId.{TreeRevId, collate_rev_ids}
use couchbase_lite_ios.Storage.Table.{
  Row, where_rows, first_row, order_by, revid_eq, revid_lt, is_doc,
}
use couchbase_lite_ios.Storage.Docs.{or_zero}

abbrev pub sequence_or_zero : Option Row → ℕ
sequence_or_zero none = 0
sequence_or_zero (some r) = r.sequence

-- `getSequenceOfDocument:revision:onlyCurrent:`
unfoldable pub get_sequence_of_document : List Row → ℕ → TreeRevId → Bool → ℕ
unfolding where_rows revid_eq
get_sequence_of_document rows doc revid only_current = sequence_or_zero (
    first_row (
      where_rows (λ r. is_doc doc r && revid_eq r.revid revid && (not only_current || r.current))
        rows))

same_flag : Bool → Bool → Bool
same_flag true b = b
same_flag false b = not b

-- ORDER BY deleted ASC, revid DESC
unfoldable pub wins : Row → Row → Bool
unfolding same_flag revid_lt
wins r s = if same_flag r.deleted s.deleted then revid_lt s.revid r.revid else s.deleted

-- The out parameters of `winningRevIDOfDocNumericID:`.
pub record Winner : Type 0 where
  pub revid : Option TreeRevId
  pub is_deleted : Bool
  pub is_conflict : Bool

abbrev pub read_winner : List Row → Winner
read_winner [] = record { revid = none; is_deleted = false; is_conflict = false }
read_winner (r ∷ []) = record { revid = some r.revid; is_deleted = r.deleted; is_conflict = false }
read_winner (r ∷ s ∷ _) = record {
  revid = some r.revid;
  is_deleted = r.deleted;
  is_conflict = not r.deleted && not s.deleted;
}

abbrev pub leaves_of : ℕ → List Row → List Row
leaves_of doc rows = where_rows (λ r. is_doc doc r && r.current) rows

unfoldable pub winning_rev_id : List Row → ℕ → Winner
unfolding where_rows order_by wins
winning_rev_id rows doc = read_winner (take 2 (order_by wins (leaves_of doc rows)))

-- The winning row itself, as `getDocumentWithID:` without a revision ID selects it.
unfoldable pub winning_row : List Row → ℕ → Option Row
unfolding where_rows order_by wins
winning_row rows doc = first_row (order_by wins (leaves_of doc rows))

-- `existsDocumentWithID:revisionID:` with no revision ID: the winner is there and not deleted.
unfoldable pub exists_document : List Row → ℕ → Bool
unfolding winning_row
exists_document rows doc = elim (winning_row rows doc) [ none ↦ false | some r ↦ not r.deleted ]

unfoldable pub newest_first : Row → Row → Bool
newest_first r s = ltb s.sequence r.sequence

unfoldable pub contains_id : TreeRevId → List TreeRevId → Bool
contains_id a [] = false
contains_id a (x ∷ xs) = equal a x || contains_id a xs

-- The loop of `getRevisionHistory:backToRevIDs:` with `lastSequence` so far.
unfoldable pub history_from : TreeRevId → List TreeRevId → ℕ → List Row → List TreeRevId
unfolding contains_id
history_from revid ancestors last [] = []
history_from revid ancestors last (r ∷ rs) =
    let matches = if last == 0 then equal revid r.revid else r.sequence == last in
    let rest = history_from revid ancestors (if matches then or_zero r.parent else last) rs in
    if not matches
    then rest
    else if or_zero r.parent == 0 || contains_id r.revid ancestors
    then r.revid ∷ []
    else r.revid ∷ rest

unfoldable pub get_revision_history : List Row → ℕ → TreeRevId → List TreeRevId → List TreeRevId
unfolding where_rows order_by newest_first history_from
get_revision_history rows doc revid ancestors =
    history_from revid ancestors 0 (order_by newest_first (where_rows (is_doc doc) rows))

-- `getAllRevisionsOfDocumentID:numericID:onlyCurrent:includeDeleted:`
unfoldable pub get_all_revisions : List Row → ℕ → Bool → Bool → List Row
unfolding where_rows order_by newest_first
get_all_revisions rows doc only_current include_deleted = order_by newest_first (
    where_rows
      (λ r. is_doc doc r && (not only_current || r.current) && (include_deleted || not r.deleted))
      rows)

-- `getParentRevision:` of the row with the given sequence.
unfoldable pub get_parent_revision : List Row → ℕ → Option Row
unfolding where_rows
get_parent_revision rows seq = elim (first_row (where_rows (λ r. r.sequence == seq) rows)) [
  | none ↦ none
  | some r ↦ elim r.parent [
    | none ↦ none
    | some p ↦ first_row (where_rows (λ (s : Row). s.sequence == p) rows)
  ]
]

-- `[a compare: b] > 0`
unfoldable pub compares_greater : TreeRevId → TreeRevId → Bool
compares_greater a b = elim (collate_rev_ids a b) [ Ordering.gt ↦ true | _ ↦ false ]

-- `winnerWithDocID:oldWinner:oldDeleted:newRev:`; `none` is nil, no change.
unfoldable pub winner_with :
    List Row → ℕ → Option TreeRevId → Bool → TreeRevId → Bool → Option TreeRevId
unfolding compares_greater winning_rev_id
winner_with rows doc none old_deleted new_revid new_deleted = some new_revid
winner_with rows doc (some old) old_deleted new_revid new_deleted =
    if not new_deleted
    then (if old_deleted || compares_greater new_revid old then some new_revid else none)
    else if old_deleted
    then (if compares_greater new_revid old then some new_revid else none)
    else elim (winning_rev_id rows doc).revid [
      | none ↦ none
      | some winner ↦ if equal winner old then none else some winner
    ]
