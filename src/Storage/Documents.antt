-- ===== src/Storage/Documents.antt =====
-- Source/CBL_SQLiteStorage.m: the methods that read documents and revisions through their string IDs,
-- and Source/CBL_StorageTypes.h, the options of the changes feed. A query does not fail. A nil list is
-- `none`. The body of a revision is its JSON.
use couchbase_lite_ios.Base.{
  ℕ, suc, Bool, true, false, not, ◌&&◌, ◌||◌, Option, none, some, List, [], ◌∷◌, ◌++◌, map, leb,
  ◌==◌, if◌then◌else◌, length, take,
}
use couchbase_lite_ios.Base.Int.{pos}
use couchbase_lite_ios.Base.Bytes.{Bytes}
use couchbase_lite_ios.RevId.{TreeRevId, generation, format_int}
use couchbase_lite_ios.Revision.{Revision, is_given, set_sequence}
use couchbase_lite_ios.Storage.Table.{
  Row, Store, where_rows, first_row, any_row, order_by, revid_eq, revid_lt, is_doc, member,
}
use couchbase_lite_ios.Storage.Docs.{get_doc_numeric_id}
use couchbase_lite_ios.Storage.Queries.{get_sequence_of_document, winning_row}
use couchbase_lite_ios.Storage.Insert.{status_ok, status_not_found}
use mathlib.Core.Option

abbrev pub status_deleted : ℕ
status_deleted = 496

-- A query on the rows of a document, or `missing` if the document has no numeric ID.
abbrev pub look_up : {A : Type 0} → Bytes → A → (ℕ → A) → Store → A × Store
look_up docid missing query st =
    let found = get_doc_numeric_id docid st in
    (if found.0 == 0 then missing else query found.0, found.1)

-- `revisionWithDocID:revID:deleted:sequence:json:`; without JSON the revision is marked as missing.
unfoldable pub revision_with_doc_id : Bytes → TreeRevId → Bool → ℕ → Option Bytes → Revision Bytes
revision_with_doc_id docid revid deleted sequence json = record {
  body = json;
  doc_id = some docid;
  rev_id = some revid;
  sequence = sequence;
  deleted = deleted;
  missing = not (is_given json);
}

-- The row that `getDocumentWithID:revisionID:…` selects: the given revision, else the winner.
unfoldable pub select_document : List Row → ℕ → Option TreeRevId → Option Row
select_document rows doc none = winning_row rows doc
select_document rows doc (some revid) =
    first_row (where_rows (λ r. is_doc doc r && revid_eq r.revid revid) rows)

unfoldable pub read_document :
    Bytes → Option TreeRevId → Bool → Option Row → Option (Revision Bytes) × ℕ
unfolding revision_with_doc_id
read_document docid revid with_body none = (none, status_not_found)
read_document docid revid with_body (some r) =
    let found =
      revision_with_doc_id docid (Option.get_or revid r.revid) r.deleted r.sequence r.json in
    (
      if is_given revid || not r.deleted
          then some (if with_body then found else record found { body = none })
          else none,
      if r.deleted then status_deleted else status_ok,
    )

-- `getDocumentWithID:revisionID:withBody:status:`
unfoldable pub get_document :
    Bytes → Option TreeRevId → Bool → Store → (Option (Revision Bytes) × ℕ) × Store
unfolding select_document read_document
get_document docid revid with_body st =
    look_up docid (none, status_not_found)
      (λ doc. read_document docid revid with_body (select_document st.rows doc revid)) st

-- `loadRevisionBody:` of a revision with these IDs, as the properties `sequence` and `asJSON` are set
-- on it; `none` is the failed assertion that a sequence never changes.
unfoldable pub load_body : Revision Bytes → Row → Option (Revision Bytes)
load_body rev r =
    Option.map (λ (s : Revision Bytes). record s { body = r.json; missing = not (is_given r.json) })
      (set_sequence Bytes r.sequence rev)

unfoldable pub load_revision_body :
    Bytes → TreeRevId → Revision Bytes → Store → (Option (Revision Bytes) × ℕ) × Store
unfolding select_document load_body
load_revision_body docid revid rev st =
    look_up docid (some rev, status_not_found)
      (λ doc. elim (select_document st.rows doc (some revid)) [
        | none ↦ (some rev, status_not_found)
        | some r ↦ (load_body rev r, if is_given r.json then status_ok else status_not_found)
      ])
      st

unfoldable pub get_revision_sequence : Bytes → TreeRevId → Store → ℕ × Store
get_revision_sequence docid revid st =
    look_up docid 0 (λ doc. get_sequence_of_document st.rows doc revid false) st

-- `SELECT COUNT(DISTINCT doc_id) FROM revs WHERE current=1 AND deleted=0`
unfoldable pub count_distinct : List ℕ → ℕ
unfolding member
count_distinct [] = 0
count_distinct (x ∷ xs) = let rest = count_distinct xs in if member x xs then rest else suc rest

unfoldable pub document_count : Store → ℕ
unfolding count_distinct where_rows
document_count st =
    count_distinct
      (map (λ (r : Row). r.doc_id) (where_rows (λ (r : Row). r.current && not r.deleted) st.rows))

-- `SELECT … WHERE doc_id=? and current=? and revid < ? ORDER BY revid DESC LIMIT ?`, where a limit of
-- 0 stands for none.
unfoldable pub ancestors_of_kind : List Row → ℕ → Bool → TreeRevId → ℕ → List Row
unfolding where_rows order_by revid_lt
ancestors_of_kind rows doc current bound limit =
    let found =
      order_by (λ (r : Row) (s : Row). revid_lt s.revid r.revid)
        (where_rows
          (λ (r : Row).
            is_doc doc r
            && (if current then r.current else not r.current)
            && revid_lt r.revid bound)
          rows) in
    if limit == 0 then found else take limit found

-- The loop over `current`: the leaves, or if there are none the other revisions.
unfoldable pub ancestors_in : List Row → ℕ → TreeRevId → ℕ → List Row
unfolding ancestors_of_kind
ancestors_in rows doc bound limit =
    let leaves = ancestors_of_kind rows doc true bound limit in
    if length leaves == 0 then ancestors_of_kind rows doc false bound limit else leaves

abbrev pub generation_bound : ℕ → TreeRevId
generation_bound gen = format_int (pos gen) ++ (b'-' ∷ [])

-- `getPossibleAncestorRevisionIDs:limit:haveBodies:`; the second result is `*outHaveBodies`, which is
-- not set when the revision is of generation 0 or 1, or its document is not known.
unfoldable pub get_possible_ancestors :
    Bytes → TreeRevId → ℕ → Store → (List TreeRevId × Option Bool) × Store
unfolding ancestors_in any_row
get_possible_ancestors docid revid limit st =
    let gen = generation revid in
    if leb gen 1
    then (([], none), st)
    else look_up docid ([], none)
        (λ doc.
          let found = ancestors_in st.rows doc (generation_bound gen) limit in
          (
            map (λ (r : Row). r.revid) found,
            some (not (any_row (λ (r : Row). not (is_given r.json)) found)),
          ))
        st

-- `revid in (…)` under the collation of the column.
unfoldable pub listed : TreeRevId → List TreeRevId → Bool
unfolding revid_eq
listed revid [] = false
listed revid (x ∷ xs) = revid_eq revid x || listed revid xs

-- `findCommonAncestorOf:withRevIDs:`
unfoldable pub find_common_ancestor :
    Bytes → TreeRevId → List TreeRevId → Store → Option TreeRevId × Store
unfolding where_rows order_by revid_lt listed
find_common_ancestor docid revid revids st =
    if length revids == 0
    then (none, st)
    else look_up docid none
        (λ doc.
          Option.map (λ (r : Row). r.revid)
            (first_row (
              order_by (λ (r : Row) (s : Row). revid_lt s.revid r.revid)
                (where_rows
                  (λ r. is_doc doc r && listed r.revid revids && not (revid_lt revid r.revid))
                  st.rows))))
        st
