-- ===== src/Storage/Divergences.antt =====
-- Source/CBL_Storage.h against Source/CBL_SQLiteStorage.m: where a method does not do what the protocol's
-- comment says.
use couchbase_lite_ios.Base.{
  ℕ, ◌≡◌, refl, inl, Bool, true, false, Option, none, some, List, [], ◌∷◌,
}
use couchbase_lite_ios.Base.Bytes.{Bytes, codes, equal, memchr, memcmp}
use couchbase_lite_ios.RevId.{TreeRevId, parse_digits, collate_rev_ids}
use couchbase_lite_ios.Revision.{Revision, limit}
use couchbase_lite_ios.Storage.Table.{
  Row, DocRow, Store, where_rows, order_by, insert_by, any_row, revid_eq, revid_lt,
}
use couchbase_lite_ios.Storage.Docs.{find_doc, read_doc_numeric_id, get_doc_numeric_id}
use couchbase_lite_ios.Storage.Queries.{
  wins, winning_rev_id, newest_first, contains_id, history_from, get_revision_history,
}
use couchbase_lite_ios.Storage.Insert.{is_error}
use couchbase_lite_ios.Storage.Documents.{revision_with_doc_id, listed, find_common_ancestor}
use couchbase_lite_ios.Storage.Changes.{
  default_changes_options, join_row, join, changes_before, first_of_doc, current_since, change_of,
  changes_of, sort_by_sequence, changes_since_sequence,
}
use couchbase_lite_ios.Storage.Local.{
  Database, JsonTypes, Properties, has_local_prefix, local_row, read_local, get_local_document,
  not_deleted, delete_local_document, put_local_deleted, put_local_mvcc, put_local_revision,
}
use couchbase_lite_ios.Storage.Rows.{In}

abbrev pub row : ℕ → TreeRevId → Option ℕ → Bool → Row
row seq revid parent current = record {
  sequence = seq;
  doc_id = 1;
  revid = revid;
  parent = parent;
  current = current;
  deleted = false;
  json = some (codes "{}");
  no_attachments = true;
  doc_type = none;
}

-- A document with the branches 2-aa and 2-bb of 1-aa.
abbrev pub branched : Store
branched = record {
  docs = record { doc_id = 1; docid = codes "doc" } ∷ [];
  rows =
      row 1 (codes "1-aa") none false
      ∷ row 2 (codes "2-bb") (some 1) true
      ∷ row 3 (codes "2-aa") (some 1) true
      ∷ [];
  last_sequence = 3;
  cached_ids = [];
  max_rev_tree_depth = 20;
}

-- `findCommonAncestorOf:withRevIDs:` can return a revision ID that is not in the ancestry of the
-- revision: any listed one of the document that does not come after it in the order of IDs will do.
pub not-find_common_ancestor-ancestor : ¬ (
    (docid : Bytes) (revid a : TreeRevId) (revids : List TreeRevId) (st : Store)
    → (find_common_ancestor docid revid revids st).0 ≡ some a
    → contains_id a (get_revision_history st.rows (get_doc_numeric_id docid st).0 revid []) ≡ true)
unfolding find_common_ancestor get_revision_history history_from contains_id get_doc_numeric_id
    read_doc_numeric_id find_doc listed revid_eq revid_lt collate_rev_ids parse_digits memchr memcmp
    equal where_rows order_by insert_by newest_first
not-find_common_ancestor-ancestor always = cc (
    always (codes "doc") (codes "2-bb") (codes "2-aa") (codes "2-aa" ∷ codes "1-aa" ∷ []) branched
      refl)

-- The changes feed without conflicts can show a revision of a document that is not its winner: the
-- best of those newer than the given sequence.
pub not-changes_since_sequence-winner : ¬ (
    (last : ℕ) (st : Store) (d : DocRow) (x : Revision Bytes)
    → In d st.docs
    → In x (changes_since_sequence last default_changes_options none st)
    → x.doc_id ≡ some d.docid
    → x.rev_id ≡ (winning_rev_id st.rows d.doc_id).revid)
unfolding changes_since_sequence current_since first_of_doc changes_of change_of sort_by_sequence
    limit revision_with_doc_id join join_row changes_before winning_rev_id wins revid_lt
    collate_rev_ids parse_digits memchr memcmp where_rows order_by insert_by
not-changes_since_sequence-winner always = cc (
    always 2 branched (record { doc_id = 1; docid = codes "doc" })
      (record {
        body = none;
        doc_id = some (codes "doc");
        rev_id = some (codes "2-aa");
        sequence = 3;
        deleted = false;
        missing = false;
      })
      (inl refl) (inl refl) refl)

abbrev no_json : JsonTypes
no_json = record {
  Value = Bytes;
  string = λ s. s;
  canonical_encoding = λ d. none;
  parse = λ json. none;
}

abbrev tombstone : Revision (Properties no_json)
tombstone = record {
  body = none;
  doc_id = some (codes "_local/a");
  rev_id = none;
  sequence = 0;
  deleted = true;
  missing = false;
}

-- Without `obeyMVCC`, to put a local document does not always succeed: a deletion of a document that
-- is not there ends with an error.
pub not-put_local_revision-succeeds : ¬ (
    (types : JsonTypes) (rev : Revision (Properties types)) (docid : Bytes)
    (prev : Option TreeRevId) (db : Database)
    → has_local_prefix docid ≡ true
    → is_error (put_local_revision types false rev docid prev db).status ≡ false)
unfolding put_local_revision put_local_mvcc put_local_deleted delete_local_document not_deleted
    has_local_prefix get_local_document read_local local_row where_rows any_row equal
not-put_local_revision-succeeds always = cc (
    always no_json tombstone (codes "_local/a") none
      (record { store = branched; localdocs = []; info = [] }) refl)
