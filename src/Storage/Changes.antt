-- ===== src/Storage/Changes.antt =====
-- Source/CBL_SQLiteStorage.m: `changesSinceSequence:options:filter:status:` and
-- `findMissingRevisions:status:`, with the options of Source/CBL_StorageTypes.h. A query does not fail.
use couchbase_lite_ios.Base.{
  ℕ, ◌^◌, ◌-◌, Bool, true, false, not, ◌&&◌, ◌||◌, Option, none, some, List, [], ◌∷◌, ◌++◌, ltb,
  ◌==◌, if◌then◌else◌,
}
use couchbase_lite_ios.Base.Bytes.{Bytes, equal}
use couchbase_lite_ios.RevId.{TreeRevId}
use couchbase_lite_ios.Revision.{Revision, RevisionList, rev_with_ids, remove_rev, is_given, limit}
use couchbase_lite_ios.Storage.Table.{Row, DocRow, Store, where_rows, order_by}
use couchbase_lite_ios.Storage.Queries.{wins}
use couchbase_lite_ios.Storage.Documents.{revision_with_doc_id, listed}

pub record ChangesOptions : Type 0 where
  pub limit : ℕ
  pub include_docs : Bool
  pub include_conflicts : Bool
  pub sort_by_sequence : Bool
  pub descending : Bool

abbrev pub default_changes_options : ChangesOptions
default_changes_options = record {
  limit = 2 ^ 32 - 1;
  include_docs = false;
  include_conflicts = false;
  sort_by_sequence = true;
  descending = false;
}

-- A row of `revs JOIN docs ON docs.doc_id = revs.doc_id`.
abbrev pub Joined : Type 0
Joined = DocRow × Row

-- The rows of `docs` that match a row.
unfoldable pub join_row : Row → List DocRow → List Joined
join_row r [] = []
join_row r (d ∷ ds) =
    let rest = join_row r ds in if d.doc_id == r.doc_id then (d, r) ∷ rest else rest

unfoldable pub join : List DocRow → List Row → List Joined
unfolding join_row
join docs [] = []
join docs (r ∷ rs) = join_row r docs ++ join docs rs

-- ORDER BY revs.doc_id, deleted, revid DESC
unfoldable pub changes_before : Joined → Joined → Bool
unfolding wins
changes_before (d, r) (e, s) = ltb r.doc_id s.doc_id || (r.doc_id == s.doc_id && wins r s)

-- The loop with `lastDocID` so far, without its filter: the first row of each document.
unfoldable pub first_of_doc : ℕ → List Joined → List Joined
first_of_doc last [] = []
first_of_doc last ((d, r) ∷ rest) =
    let others = first_of_doc r.doc_id rest in
    if r.doc_id == last then first_of_doc last rest else (d, r) ∷ others

unfoldable pub current_since : ℕ → Store → List Joined
unfolding where_rows order_by changes_before join
current_since last st =
    order_by changes_before
      (join st.docs (where_rows (λ (r : Row). ltb last r.sequence && r.current) st.rows))

unfoldable pub change_of : Bool → Joined → Revision Bytes
unfolding revision_with_doc_id
change_of with_json (d, r) =
    let rev = revision_with_doc_id d.docid r.revid r.deleted r.sequence r.json in
    if with_json then rev else record rev { body = none; missing = false }

unfoldable pub changes_of : Bool → Option (Revision Bytes → Bool) → List Joined → RevisionList Bytes
unfolding change_of
changes_of with_json accept [] = []
changes_of with_json accept (j ∷ js) =
    let rest = changes_of with_json accept js in
    let rev = change_of with_json j in
    elim accept [ none ↦ rev ∷ rest | some f ↦ if f rev then rev ∷ rest else rest ]

-- `sortBySequenceAscending:`
unfoldable pub sort_by_sequence : Bool → RevisionList Bytes → RevisionList Bytes
unfolding order_by
sort_by_sequence ascending revs =
    order_by
      (λ (r : Revision Bytes) (s : Revision Bytes).
        if ascending then ltb r.sequence s.sequence else ltb s.sequence r.sequence)
      revs

unfoldable pub changes_since_sequence :
    ℕ → ChangesOptions → Option (Revision Bytes → Bool) → Store → RevisionList Bytes
unfolding current_since first_of_doc changes_of sort_by_sequence limit
changes_since_sequence last options accept st =
    let rows = current_since last st in
    let counted = if options.include_conflicts then rows else first_of_doc 0 rows in
    let changes = changes_of (options.include_docs || is_given accept) accept counted in
    if options.sort_by_sequence
    then limit Bytes options.limit (sort_by_sequence (not options.descending) changes)
    else changes

-- `docid IN (…)` of `allDocIDs`, `revid in (…)` of `allRevIDs`.
unfoldable pub doc_listed : Bytes → RevisionList Bytes → Bool
doc_listed docid [] = false
doc_listed docid (rev ∷ revs) =
    elim rev.doc_id [ none ↦ false | some d ↦ equal docid d ] || doc_listed docid revs

abbrev pub all_rev_ids : RevisionList Bytes → List TreeRevId
all_rev_ids [] = []
all_rev_ids (rev ∷ revs) = elim rev.rev_id [
  | none ↦ all_rev_ids revs
  | some id ↦ id ∷ all_rev_ids revs
]

unfoldable pub stored_among : RevisionList Bytes → Store → List Joined
unfolding where_rows join listed doc_listed
stored_among revs st =
    where_rows (λ (j : Joined). listed j.1.revid (all_rev_ids revs) && doc_listed j.0.docid revs)
      (join st.docs st.rows)

unfoldable pub remove_found : List Joined → RevisionList Bytes → RevisionList Bytes
unfolding rev_with_ids remove_rev
remove_found [] revs = revs
remove_found ((d, r) ∷ found) revs =
    remove_found found (elim (rev_with_ids Bytes (some d.docid) (some r.revid) revs) [
      | none ↦ revs
      | some rev ↦ remove_rev Bytes rev revs
    ])

-- `findMissingRevisions:status:`; an empty list is not looked up.
unfoldable pub find_missing_revisions : RevisionList Bytes → Store → RevisionList Bytes
unfolding stored_among remove_found
find_missing_revisions [] st = []
find_missing_revisions (rev ∷ revs) st = remove_found (stored_among (rev ∷ revs) st) (rev ∷ revs)
