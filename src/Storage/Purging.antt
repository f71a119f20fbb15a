-- ===== src/Storage/Purging.antt =====
-- Source/CBL_SQLiteStorage.m, `purgeRevisions:result:`: the invariant of the table `revs`.
use couchbase_lite_ios.Base.{
  ℕ, ◌≡◌, inl, inr, Option, none, some, List, [], ◌∷◌, ◌==◌, arith, Bool-cases, length,
}
use couchbase_lite_ios.Base.Bytes.{Bytes}
use couchbase_lite_ios.Base.Results.{Result, ok, err}
use couchbase_lite_ios.RevId.{TreeRevId}
use couchbase_lite_ios.Storage.Table.{Store, is_doc}
use couchbase_lite_ios.Storage.Docs.{get_doc_numeric_id}
use couchbase_lite_ios.Storage.Prune.{purge_sequences}
use couchbase_lite_ios.Storage.Insert.{is_error}
use couchbase_lite_ios.Storage.Purge.{
  purge_ids, delete_doc, purge_doc, purge_entry, add_result, Purged, purge_docs, purge_revisions,
}
use couchbase_lite_ios.Storage.WellFormed.{IsWellFormed, delete_where-IsWellFormed}
use couchbase_lite_ios.Storage.Steps.{WellFormed, Holds, held, returned, Holds->>=}
use couchbase_lite_ios.Storage.Preserved.{if-Holds}

abbrev SecondWellFormed : List TreeRevId × Store → Type 0
SecondWellFormed (_, st) = WellFormed 0 st

purge_doc-WellFormed :
    (docid : Bytes) (ids : Option (List TreeRevId)) (doc : ℕ) (st : Store)
    → WellFormed 0 st
    → Holds SecondWellFormed (purge_doc docid ids doc st)
unfolding purge_doc purge_ids purge_sequences delete_doc
purge_doc-WellFormed docid none doc st w = returned
purge_doc-WellFormed docid (some []) doc st w = held w
purge_doc-WellFormed docid (some (id ∷ ids)) doc st w =
    if-Holds _ (held (delete_where-IsWellFormed st.rows st.last_sequence (is_doc doc) w))
      (held (delete_where-IsWellFormed st.rows st.last_sequence _ w))

get_doc_numeric_id-rows :
    (docid : Bytes) (st : Store)
    → ((get_doc_numeric_id docid st).1.rows ≡ st.rows)
      × ((get_doc_numeric_id docid st).1.last_sequence ≡ st.last_sequence)
unfolding get_doc_numeric_id
get_doc_numeric_id-rows docid st = ground arith

abbrev EntryWellFormed : Option (List TreeRevId) × Store → Type 0
EntryWellFormed (_, st) = WellFormed 0 st

purge_entry-WellFormed :
    (docid : Bytes) (ids : Option (List TreeRevId)) (doc : ℕ) (st : Store)
    → WellFormed 0 st
    → Holds EntryWellFormed (purge_entry docid ids (doc, st))
unfolding purge_entry
purge_entry-WellFormed docid ids doc st w = if-Holds (doc == 0) (held w) (
    Holds->>= SecondWellFormed EntryWellFormed (purge_doc docid ids doc st) _
      (purge_doc-WellFormed docid ids doc st w) (λ (purged, st') w'. held w'))

purge_docs-WellFormed :
    (docs : List (Bytes × Option (List TreeRevId))) (st : Store)
    (result : List (Bytes × List TreeRevId))
    → WellFormed 0 st
    → WellFormed 0 (purge_docs docs st result).store
unfolding purge_docs
purge_docs-WellFormed [] st result w = w
purge_docs-WellFormed ((docid, ids) ∷ rest) st result w =
    after (purge_entry docid ids (get_doc_numeric_id docid st))
      (purge_entry-WellFormed docid ids _ _ numbered)
      (λ st' result' w'. purge_docs-WellFormed rest st' result' w')
  where
    numbered : WellFormed 0 (get_doc_numeric_id docid st).1
    numbered =
        let (rows_are, last_is) = get_doc_numeric_id-rows docid st in rw (rows_are, last_is) w

    after :
        (entry : Result (Option (List TreeRevId) × Store))
        → Holds EntryWellFormed entry
        → ((st' : Store) (result' : List (Bytes × List TreeRevId))
            → WellFormed 0 st'
            → WellFormed 0 (purge_docs rest st' result').store)
        → (let p : Purged = elim entry [
          | err status ↦ record {
            status = status;
            store = (get_doc_numeric_id docid st).1;
            result = result;
          }
          | ok (purged, st') ↦ purge_docs rest st' (add_result docid purged result)
        ] in
            WellFormed 0 p.store)
    after (err status) returned next = numbered
    after (ok (purged, st')) (held w') next = next st' (add_result docid purged result) w'

-- `purgeRevisions:` keeps the table `revs` well formed, whatever documents and revisions it is
-- given, and whether it succeeds or is aborted.
pub purge_revisions-IsWellFormed :
    (docs : List (Bytes × Option (List TreeRevId))) (st : Store)
    → IsWellFormed 0 st.rows st.last_sequence
    → IsWellFormed 0
        (purge_revisions docs st).store.rows
        (purge_revisions docs st).store.last_sequence
unfolding purge_revisions
purge_revisions-IsWellFormed docs st w = elim (Bool-cases (length docs == 0)) [
  | inl nothing ↦ rw (nothing, purge_revisions) w
  | inr given ↦ elim (Bool-cases (is_error (purge_docs docs st []).status)) [
    | inl failed ↦ rw (given, failed, purge_revisions) w
    | inr done ↦ rw (given, done, purge_revisions) (purge_docs-WellFormed docs st [] w)
  ]
]
