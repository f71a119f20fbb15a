-- ===== src/Storage/Purge.antt =====
-- Source/CBL_SQLiteStorage.m: `purgeRevisions:result:`. The dictionary `docsToRevs` is the list of
-- its entries in the order of its enumeration, a value that is no array is `none`.
use couchbase_lite_ios.Base.{
  ℕ, not, ◌&&◌, ◌||◌, Option, none, some, List, [], ◌∷◌, ◌++◌, ltb, ◌==◌, if◌then◌else◌, length,
}
use couchbase_lite_ios.Base.Bytes.{Bytes, codes, equal}
use couchbase_lite_ios.Base.Results.{Result, ok, err, ◌>>=◌}
use couchbase_lite_ios.RevId.{TreeRevId}
use couchbase_lite_ios.Storage.Table.{
  Row, DocRow, Store, where_rows, order_by, is_doc, member, delete_where,
}
use couchbase_lite_ios.Storage.Docs.{or_zero, get_doc_numeric_id, invalidate_doc_numeric_ids}
use couchbase_lite_ios.Storage.Queries.{contains_id, newest_first}
use couchbase_lite_ios.Storage.Prune.{purge_sequences}
use couchbase_lite_ios.Storage.Insert.{is_error, status_ok}

abbrev pub status_bad_param : ℕ
status_bad_param = 495

-- The three sets of the walk over a document's revisions.
pub record Scan : Type 0 where
  pub seqs_to_purge : List ℕ
  pub seqs_to_keep : List ℕ
  pub revs_to_purge : List TreeRevId

abbrev pub no_rows : Scan
no_rows = record { seqs_to_purge = []; seqs_to_keep = []; revs_to_purge = [] }

unfoldable pub remove_sequence : ℕ → List ℕ → List ℕ
remove_sequence n [] = []
remove_sequence n (x ∷ xs) = if n == x then remove_sequence n xs else x ∷ remove_sequence n xs

remove_id : TreeRevId → List TreeRevId → List TreeRevId
remove_id a [] = []
remove_id a (x ∷ xs) = if equal a x then remove_id a xs else x ∷ remove_id a xs

-- The parent, if there is one, is to be purged too.
abbrev pub add_parent : ℕ → List ℕ → List ℕ
add_parent parent seqs = if ltb 0 parent then parent ∷ seqs else seqs

unfoldable pub scan_row : List TreeRevId → Row → Scan → Scan
unfolding member contains_id remove_sequence remove_id
scan_row rev_ids r s =
    if (member r.sequence s.seqs_to_purge || contains_id r.revid rev_ids)
      && not (member r.sequence s.seqs_to_keep)
    then record {
      seqs_to_purge = add_parent (or_zero r.parent) (r.sequence ∷ s.seqs_to_purge);
      seqs_to_keep = s.seqs_to_keep;
      revs_to_purge = r.revid ∷ s.revs_to_purge;
    }
    else record {
      seqs_to_purge = remove_sequence r.sequence s.seqs_to_purge;
      seqs_to_keep = or_zero r.parent ∷ s.seqs_to_keep;
      revs_to_purge = remove_id r.revid s.revs_to_purge;
    }

unfoldable pub scan_rows : List TreeRevId → List Row → Scan → Scan
unfolding scan_row
scan_rows rev_ids [] s = s
scan_rows rev_ids (r ∷ rs) s = scan_rows rev_ids rs (scan_row rev_ids r s)

-- `minusSet:`
unfoldable pub minus : List ℕ → List ℕ → List ℕ
unfolding member
minus [] ys = []
minus (x ∷ xs) ys = if member x ys then minus xs ys else x ∷ minus xs ys

abbrev pub scan_doc : List TreeRevId → ℕ → List Row → Scan
scan_doc rev_ids doc rows =
    scan_rows rev_ids (order_by newest_first (where_rows (is_doc doc) rows)) no_rows

unfoldable pub purge_ids : List TreeRevId → ℕ → List Row → List Row
unfolding scan_rows minus purge_sequences where_rows order_by newest_first
purge_ids rev_ids doc rows =
    let s = scan_doc rev_ids doc rows in purge_sequences (minus s.seqs_to_purge s.seqs_to_keep) rows

-- DELETE FROM docs, with ON DELETE CASCADE, and `invalidateDocNumericID:`
unfoldable pub delete_doc : Bytes → ℕ → Store → Store
unfolding delete_where where_rows
delete_doc docid doc st = record st {
  docs = where_rows (λ (d : DocRow). not (d.doc_id == doc)) st.docs;
  rows = delete_where (is_doc doc) st.rows;
  cached_ids = where_rows (λ (d : DocRow). not (equal d.docid docid)) st.cached_ids;
}

abbrev star : Bytes
star = codes "*"

-- The revisions purged of one document, and the database.
unfoldable pub purge_doc :
    Bytes → Option (List TreeRevId) → ℕ → Store → Result (List TreeRevId × Store)
unfolding contains_id purge_ids delete_doc
purge_doc docid none doc st = err status_bad_param
purge_doc docid (some []) doc st = ok ([], st)
purge_doc docid (some (id ∷ ids)) doc st =
    if contains_id star (id ∷ ids)
    then ok (star ∷ [], delete_doc docid doc st)
    else ok (
      (scan_doc (id ∷ ids) doc st.rows).revs_to_purge,
      record st { rows = purge_ids (id ∷ ids) doc st.rows },
    )

-- The given revisions that were purged.
purged_of : Option (List TreeRevId) → List TreeRevId → List TreeRevId
purged_of none purged = []
purged_of (some ids) purged = where_rows (λ id. contains_id id purged) ids

pub record Purged : Type 0 where
  pub status : ℕ
  pub store : Store
  pub result : List (Bytes × List TreeRevId)

-- One entry: `none` for a document that is not there.
unfoldable pub purge_entry :
    Bytes → Option (List TreeRevId) → ℕ × Store → Result (Option (List TreeRevId) × Store)
unfolding purge_doc purged_of
purge_entry docid ids (doc, st) =
    if doc == 0
    then ok (none, st)
    else do (purged, st') ← purge_doc docid ids doc st; ok (some (purged_of ids purged), st')

abbrev pub add_result :
    Bytes → Option (List TreeRevId) → List (Bytes × List TreeRevId) → List (Bytes × List TreeRevId)
add_result docid none result = result
add_result docid (some purged) result = result ++ ((docid, purged) ∷ [])

unfoldable pub purge_docs :
    List (Bytes × Option (List TreeRevId)) → Store → List (Bytes × List TreeRevId) → Purged
unfolding get_doc_numeric_id purge_entry
purge_docs [] st result = record { status = status_ok; store = st; result = result }
purge_docs ((docid, ids) ∷ rest) st result =
    elim (purge_entry docid ids (get_doc_numeric_id docid st)) [
      | err status ↦ record {
        status = status;
        store = (get_doc_numeric_id docid st).1;
        result = result;
      }
      | ok (purged, st') ↦ purge_docs rest st' (add_result docid purged result)
    ]

unfoldable pub purge_revisions : List (Bytes × Option (List TreeRevId)) → Store → Purged
unfolding purge_docs
purge_revisions docs_to_revs st =
    let p = purge_docs docs_to_revs st [] in
    if length docs_to_revs == 0
    then record { status = status_ok; store = st; result = [] }
    else if is_error p.status
    then record p { store = invalidate_doc_numeric_ids st }
    else p
