-- ===== src/Storage/Contract.antt =====
-- Source/CBL_Storage.h: laws on the operations of the protocol, and that the SQLite storage keeps them.
use couchbase_lite_ios.Base.{
  ℕ, ◌≡◌, ◌≢◌, ◌↔◌, refl, sym, ap, ◌∙◌, inl, inr, Bool, true, false, not, Option, none, some, List,
  [], ◌∷◌, ◌++◌, ◌==◌, arith, Bool-cases,
}
use couchbase_lite_ios.Base.Bytes.{Bytes, equal, equal_sound, equal_refl}
use couchbase_lite_ios.RevId.{TreeRevId}
use couchbase_lite_ios.Revision.{Revision, RevisionList}
use couchbase_lite_ios.Storage.Table.{Row, Store, where_rows, first_row}
use couchbase_lite_ios.Storage.Docs.{get_doc_numeric_id, invalidate_doc_numeric_ids}
use couchbase_lite_ios.Storage.Queries.{get_sequence_of_document, sequence_or_zero}
use couchbase_lite_ios.Storage.Insert.{Incoming, is_error}
use couchbase_lite_ios.Storage.Put.{Environment, Request}
use couchbase_lite_ios.Storage.Conflicts.{add_doc_id_error, force_insert_error}
use couchbase_lite_ios.Storage.Documents.{
  revision_with_doc_id, select_document, read_document, get_document, get_revision_sequence,
  document_count,
}
use couchbase_lite_ios.Storage.Changes.{stored_among, find_missing_revisions}
use couchbase_lite_ios.Storage.Rows.{In}
use couchbase_lite_ios.Storage.Missing.{HasIds, find_missing_revisions_iff}
use couchbase_lite_ios.Storage.Local.{Database, InfoRow, JsonTypes, set_info, info_for_key}
use couchbase_lite_ios.Storage.Protocol.{StorageApi}
use couchbase_lite_ios.Storage.Sqlite.{sqlite_storage}

-- What a failed insertion leaves: the number of documents, the last sequence and the answers about missing
-- revisions are as before.
pub record IsUnchanged {P S : Type 0} (api : StorageApi P S) (s t : S) : Type 0 where
  pub same_count : api.attributes.document_count t ≡ api.attributes.document_count s
  pub same_last : api.attributes.last_sequence t ≡ api.attributes.last_sequence s
  pub same_missing :
      (revs : RevisionList Bytes)
      → api.documents.find_missing_revisions revs t ≡ api.documents.find_missing_revisions revs s

pub record IsStorage {P S : Type 0} (api : StorageApi P S) : Type 0 where
  -- An info string is stored under its key, and no other changes.
  pub info_set :
      (key value : Bytes) (s : S)
      → api.attributes.info_for_key key (api.attributes.set_info value key s).1 ≡ some value
  pub info_kept :
      (key other value : Bytes) (s : S)
      → other ≢ key
      → api.attributes.info_for_key other (api.attributes.set_info value key s).1
        ≡ api.attributes.info_for_key other s
  -- A revision that is returned belongs to the document, has the given ID, and is not deleted if the
  -- current one was asked for.
  pub document_is :
      (docid : Bytes) (revid : Option TreeRevId) (with_body : Bool) (s : S) (r : Revision Bytes)
      → (api.documents.get_document docid revid with_body s).0.0 ≡ some r
      → (r.doc_id ≡ some docid)
        × ((v : TreeRevId) → revid ≡ some v → r.rev_id ≡ some v)
        × (revid ≡ none → r.deleted ≡ false)
  -- Its sequence, when a revision ID was given, is what the sequence method returns for this ID.
  pub sequence_is :
      (docid : Bytes) (v : TreeRevId) (with_body : Bool) (s : S) (r : Revision Bytes)
      → (api.documents.get_document docid (some v) with_body s).0.0 ≡ some r
      → (api.documents.get_revision_sequence docid v s).0 ≡ r.sequence
  -- Whether a revision is missing does not depend on the others in the list.
  pub missing_each :
      (docid : Bytes) (revid : TreeRevId) (x : Revision Bytes) (revs : RevisionList Bytes) (s : S)
      → x.doc_id ≡ some docid
      → x.rev_id ≡ some revid
      → In x (api.documents.find_missing_revisions revs s)
        ↔ (In x revs × In x (api.documents.find_missing_revisions (x ∷ []) s))
  -- An insertion, outside an open transaction, that ends with an error status.
  pub add_failed :
      (q : Request) (s : S)
      → is_error (api.insertion.add_doc_id q s).0.status ≡ true
      → IsUnchanged api s (api.insertion.add_doc_id q s).1
  pub insert_failed :
      (docid : Bytes) (rev : Incoming) (history : List TreeRevId)
      (validation : Option (Option Row → Option TreeRevId → ℕ)) (s : S)
      → is_error (api.insertion.force_insert docid rev history validation s).0.status ≡ true
      → IsUnchanged api s (api.insertion.force_insert docid rev history validation s).1

abbrev has_key : Bytes → InfoRow → Bool
has_key key r = equal r.key key

module _ (key value : Bytes) where
  abbrev replaced : List InfoRow → List InfoRow
  replaced rows =
      where_rows (λ r. not (has_key key r)) rows ++ (record { key = key; value = value } ∷ [])

  replaced-key :
      (rows : List InfoRow)
      → where_rows (has_key key) (replaced rows) ≡ record { key = key; value = value } ∷ []
  unfolding where_rows
  replaced-key [] = rw (equal_refl key) refl
  replaced-key (r ∷ rows) = elim (Bool-cases (equal r.key key)) [
    | inl same ↦ rw same (replaced-key rows)
    | inr other ↦ rw (other, other) (replaced-key rows)
  ]

  replaced-other :
      (other : Bytes) (rows : List InfoRow)
      → other ≢ key
      → where_rows (has_key other) (replaced rows) ≡ where_rows (has_key other) rows
  unfolding where_rows
  replaced-other other [] n = elim (Bool-cases (equal key other)) [
    | inl same ↦ absurd (n (sym (equal_sound key other same)))
    | inr differs ↦ rw differs refl
  ]
  replaced-other other (r ∷ rows) n = elim (Bool-cases (equal r.key key)) [
    | inl same ↦ elim (Bool-cases (equal r.key other)) [
      | inl it ↦ absurd (n (sym (equal_sound r.key other it) ∙ equal_sound r.key key same))
      | inr differs ↦ rw (same, differs) (replaced-other other rows n)
    ]
    | inr keeps ↦ elim (Bool-cases (equal r.key other)) [
      | inl it ↦ rw (keeps, it) (ap (◌∷◌ r) (replaced-other other rows n))
      | inr differs ↦ rw (keeps, differs) (replaced-other other rows n)
    ]
  ]

where_rows-cong :
    {A : Type 0} (f g : A → Bool) (xs : List A)
    → ((x : A) → f x ≡ g x)
    → where_rows f xs ≡ where_rows g xs
unfolding where_rows
where_rows-cong f g [] h = refl
where_rows-cong f g (x ∷ xs) h = rw (h x, where_rows-cong f g xs h) refl

selected-sequence :
    (rows : List Row) (doc : ℕ) (v : TreeRevId)
    → get_sequence_of_document rows doc v false
      ≡ sequence_or_zero (select_document rows doc (some v))
unfolding get_sequence_of_document select_document
selected-sequence rows doc v =
    ap (λ xs. sequence_or_zero (first_row xs)) (where_rows-cong _ _ rows (λ r. ground arith))

abbrev first_value : List InfoRow → Option Bytes
first_value rows = elim (first_row rows) [ none ↦ none | some r ↦ some r.value ]

info_set_key :
    (key value : Bytes) (db : Database) → info_for_key key (set_info value key db).1 ≡ some value
unfolding info_for_key set_info
info_set_key key value db = ap first_value (replaced-key key value db.info)

info_set_other :
    (key other value : Bytes) (db : Database)
    → other ≢ key
    → info_for_key other (set_info value key db).1 ≡ info_for_key other db
unfolding info_for_key set_info
info_set_other key other value db n = ap first_value (replaced-other key value other db.info n)

-- What `getDocumentWithID:` returns comes from the selected row.
record IsRead (docid : Bytes) (revid : Option TreeRevId) (selected : Option Row)
    (r : Revision Bytes) : Type 0 where
  row : Row
  selected_is : selected ≡ some row
  doc_is : r.doc_id ≡ some docid
  rev_is : (v : TreeRevId) → revid ≡ some v → r.rev_id ≡ some v
  live : revid ≡ none → r.deleted ≡ false
  sequence_is : r.sequence ≡ row.sequence

read_document-IsRead :
    (docid : Bytes) (revid : Option TreeRevId) (with_body : Bool) (selected : Option Row)
    (r : Revision Bytes)
    → (read_document docid revid with_body selected).0 ≡ some r
    → IsRead docid revid selected r
unfolding read_document revision_with_doc_id
read_document-IsRead docid revid with_body none r h = cc
read_document-IsRead docid (some v) true (some row) r h = ground arith
read_document-IsRead docid (some v) false (some row) r h = ground arith
read_document-IsRead docid none true (some row) r h = ground arith
read_document-IsRead docid none false (some row) r h = ground arith

-- A query through the document's numeric ID that returns something has been run.
get_document-IsRead :
    (docid : Bytes) (revid : Option TreeRevId) (with_body : Bool) (st : Store) (r : Revision Bytes)
    → (get_document docid revid with_body st).0.0 ≡ some r
    → IsRead docid revid (select_document st.rows (get_doc_numeric_id docid st).0 revid) r
      × (((get_doc_numeric_id docid st).0 == 0) ≡ false)
unfolding get_document
get_document-IsRead docid revid with_body st r h =
    elim (Bool-cases ((get_doc_numeric_id docid st).0 == 0)) [
      | inl unknown ↦ cc (rw unknown at h)
      | inr known ↦ (read_document-IsRead docid revid with_body _ r (rw known at h), known)
    ]

sequence_is_read :
    (docid : Bytes) (v : TreeRevId) (with_body : Bool) (st : Store) (r : Revision Bytes)
    → (get_document docid (some v) with_body st).0.0 ≡ some r
    → (get_revision_sequence docid v st).0 ≡ r.sequence
unfolding get_revision_sequence
sequence_is_read docid v with_body st r h =
    let (read, known) = get_document-IsRead docid (some v) with_body st r h in
    rw known (
      selected-sequence st.rows (get_doc_numeric_id docid st).0 v
      ∙ ap sequence_or_zero read.selected_is
      ∙ sym read.sequence_is)

missing_without_cache :
    (revs : RevisionList Bytes) (st : Store)
    → find_missing_revisions revs (invalidate_doc_numeric_ids st) ≡ find_missing_revisions revs st
unfolding find_missing_revisions stored_among
missing_without_cache [] st = refl
missing_without_cache (rev ∷ revs) st = refl

module _ (env : Environment) (types : JsonTypes) where
  -- The two tables of revision trees, with another cache, give the same answers.
  same_tables-IsUnchanged :
      (s t : Database)
      → t.store ≡ invalidate_doc_numeric_ids s.store
      → IsUnchanged (sqlite_storage env types) s t
  unfolding document_count
  same_tables-IsUnchanged s t e = rw e (record {
    same_count = refl;
    same_last = refl;
    same_missing = λ revs. missing_without_cache revs s.store;
  })

  -- The SQLite storage fills the record `IsStorage`: an info string is found under its key, and storing it
  -- changes no other; a revision that is returned has the document ID and the revision ID that were asked for,
  -- and without a revision ID it is not a deleted one; the sequence of one that is returned for a revision ID is
  -- what the sequence method returns for this ID; a revision with both IDs is in the list of missing ones exactly
  -- if it is in the list that is given and is missing when it is asked for alone; and an insertion outside an open transaction whose status is
  -- an error changes neither the number of documents, the last sequence nor the answers about missing revisions.
  pub sqlite_storage-IsStorage : IsStorage (sqlite_storage env types)
  sqlite_storage-IsStorage = record {
    info_set = info_set_key;
    info_kept = info_set_other;
    document_is = λ docid revid with_body s r h.
        let (read, known) = get_document-IsRead docid revid with_body s.store r h in
        (read.doc_is, read.rev_is, read.live);
    sequence_is = λ docid v with_body s r h. sequence_is_read docid v with_body s.store r h;
    missing_each = λ docid revid x revs s d v.
        let ids : HasIds docid revid x = record { doc_is = d; rev_is = v } in
        let all = find_missing_revisions_iff docid revid x revs s.store ids in
        let alone = find_missing_revisions_iff docid revid x (x ∷ []) s.store ids in
        (λ h. ((all.0 h).0, alone.1 (inl refl, (all.0 h).1)), λ h. all.1 (h.0, (alone.0 h.1).1));
    add_failed = λ q s h. same_tables-IsUnchanged s _ (add_doc_id_error env q s.store h);
    insert_failed = λ docid rev history validation s h.
        same_tables-IsUnchanged s _
          (force_insert_error env.enumerate docid rev history validation s.store h);
  }
