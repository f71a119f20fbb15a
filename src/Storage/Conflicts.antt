-- ===== src/Storage/Conflicts.antt =====
-- Source/CBL_SQLiteStorage.m, `addDocID:`: when a new revision may be inserted, and what an error
-- leaves.
use couchbase_lite_ios.Base.{
  ℕ, ◌≡◌, refl, ◌⊎◌, inl, inr, Bool, true, false, not, Option, some, List, ◌==◌, if◌then◌else◌,
  arith, Bool-cases,
}
use couchbase_lite_ios.Base.Bytes.{Bytes}
use couchbase_lite_ios.Base.Results.{Result, ok, err, ◌>>=◌}
use couchbase_lite_ios.RevId.{TreeRevId}
use couchbase_lite_ios.Storage.Table.{Row, Store, revid_eq}
use couchbase_lite_ios.Storage.Docs.{
  Numbered, create_or_get_doc_numeric_id, invalidate_doc_numeric_ids,
}
use couchbase_lite_ios.Storage.Queries.{Winner, winning_rev_id, get_sequence_of_document}
use couchbase_lite_ios.Storage.Insert.{
  Outcome, in_transaction, is_error, no_winner, NewRow, Incoming, force_insert_block, force_insert,
}
use couchbase_lite_ios.Storage.Put.{
  Environment, Request, Found, number_doc, find_prev, find_parent, lookups, prepare, insert_new,
  put_steps, add_doc_id, is_none,
}
use couchbase_lite_ios.Storage.Rows.{In}
use couchbase_lite_ios.Storage.Steps.{Holds, held, returned, Holds->>=, create_or_get-rows}
use couchbase_lite_ios.Storage.Preserved.{if-Holds}
use couchbase_lite_ios.Storage.PutPreserved.{SequenceOf, get_sequence-cases}
use mathlib.Core.Path.{subst}

in_transaction_error :
    (st : Store) (block : Result Outcome)
    → is_error (in_transaction st block).status ≡ true
    → (in_transaction st block).store ≡ invalidate_doc_numeric_ids st
unfolding in_transaction
in_transaction_error st (ok o) e = elim (Bool-cases (is_error o.status)) [
  | inl failed ↦ rw (in_transaction, failed) refl
  | inr made ↦ cc (made, e)
]
in_transaction_error st (err status) e = elim (Bool-cases (is_error status)) [
  | inl failed ↦ rw (in_transaction, failed) refl
  | inr made ↦ cc (made, e)
]

-- An insertion outside an open transaction that ends with an error status leaves both tables and the
-- sequence counter as they were, and the cache of document IDs empty, at whatever step it failed.
pub add_doc_id_error :
    (env : Environment) (q : Request) (st : Store)
    → is_error (add_doc_id env q st).status ≡ true
    → (add_doc_id env q st).store ≡ invalidate_doc_numeric_ids st
unfolding add_doc_id
add_doc_id_error env q st e = in_transaction_error st (put_steps env q st) e

-- A replication's insertion outside an open transaction that ends with an error status leaves both
-- tables and the sequence counter as they were, and the cache of document IDs empty, at whatever step it failed.
pub force_insert_error :
    (enumerate : List ℕ → List ℕ) (docid : Bytes) (rev : Incoming) (full : List TreeRevId)
    (validation : Option (Option Row → Option TreeRevId → ℕ)) (st : Store)
    → is_error (force_insert enumerate docid rev full validation st).status ≡ true
    → (force_insert enumerate docid rev full validation st).store ≡ invalidate_doc_numeric_ids st
unfolding force_insert
force_insert_error enumerate docid rev full validation st e =
    in_transaction_error st (force_insert_block enumerate docid rev full validation st) e

in_transaction-some :
    {P : Type 0} (st : Store) (block : Result Outcome) (r : TreeRevId)
    → Holds (λ _. P) block
    → (in_transaction st block).new_revid ≡ some r
    → P
unfolding in_transaction
in_transaction-some st (ok o) r (held p) e = p
in_transaction-some st (err status) r returned e = elim (Bool-cases (is_error status)) [
  | inl failed ↦ cc (rw (in_transaction, failed) at e)
  | inr made ↦ cc (rw (in_transaction, made) at e)
]

-- A row of the document for the revision `prev`, and a current one unless conflicts are allowed.
abbrev pub Replaces : Store → ℕ → TreeRevId → Bool → Type 0
Replaces st doc prev allow_conflict =
    (row : Row) × In row st.rows
    × (row.doc_id ≡ doc)
    × (revid_eq row.revid prev ≡ true)
    × ((allow_conflict ≡ true) ⊎ (row.current ≡ true))

Replaces-SequenceOf :
    (st : Store) (n : Numbered) (prev : TreeRevId) (allow : Bool) (seq : ℕ)
    → n.store.rows ≡ st.rows
    → SequenceOf n.store.rows n.row prev (not allow) seq
    → Replaces st n.row prev allow
Replaces-SequenceOf st n prev allow seq same (row, place, _, d, e, c) = (
  row,
  subst (In row) same place,
  d,
  e,
  elim c [ inl all ↦ inl (ground arith) | inr leaf ↦ inr leaf ],
)

find_prev-Replaces :
    (q : Request) (n : Numbered) (old : Winner) (prev : TreeRevId) (st : Store)
    → n.store.rows ≡ st.rows
    → Holds (λ _. Replaces st n.row prev q.allow_conflict) (find_prev q n old prev)
unfolding find_prev
find_prev-Replaces q n old prev st same =
    let seq = get_sequence_of_document n.store.rows n.row prev (not q.allow_conflict) in
    if-Holds n.is_new returned
      (elim (get_sequence-cases n.store.rows n.row prev (not q.allow_conflict)) [
        | inl nothing ↦ rw nothing returned
        | inr found ↦
            if-Holds (seq == 0) returned
              (held (Replaces-SequenceOf st n prev q.allow_conflict seq same found))
      ])

find_parent-Replaces :
    (env : Environment) (q : Request) (n : Numbered) (old : Winner) (prev : TreeRevId) (st : Store)
    → q.prev_revid ≡ some prev
    → n.store.rows ≡ st.rows
    → Holds (λ _. Replaces st n.row prev q.allow_conflict) (find_parent env q n old)
unfolding find_parent
find_parent-Replaces env q n old prev st given same =
    rw (find_parent, given) (find_prev-Replaces q n old prev st same)

-- The numeric ID of the document.
abbrev pub doc_of : Bytes → Store → ℕ
doc_of docid st = (create_or_get_doc_numeric_id docid false st).row

abbrev IsDocOf : Bytes → Store → Numbered → Type 0
IsDocOf docid st n = (n.row ≡ doc_of docid st) × (n.store.rows ≡ st.rows)

number_doc-IsDocOf :
    (docid : Bytes) (st : Store) → Holds (IsDocOf docid st) (number_doc (some docid) false st)
number_doc-IsDocOf docid st =
    if-Holds _ returned (held (refl, (create_or_get-rows docid false st).0))

named_doc :
    (docid : Bytes) (st : Store) (named : Option Bytes) (prev : TreeRevId)
    (given : Option TreeRevId)
    → named ≡ some docid
    → given ≡ some prev
    → Holds (IsDocOf docid st) (number_doc named (is_none given) st)
named_doc docid st named prev given e e' = rw (e, e') (number_doc-IsDocOf docid st)

lookups-Replaces :
    (env : Environment) (q : Request) (docid : Bytes) (prev : TreeRevId) (st : Store)
    → q.docid ≡ some docid
    → q.prev_revid ≡ some prev
    → Holds (λ _. Replaces st (doc_of docid st) prev q.allow_conflict) (lookups env q st)
unfolding lookups
lookups-Replaces env q docid prev st named given =
    Holds->>= (IsDocOf docid st) (λ _. Replaces st (doc_of docid st) prev q.allow_conflict)
      (number_doc q.docid (is_none q.prev_revid) st) _
      (named_doc docid st q.docid prev q.prev_revid named given)
      (λ n (is_doc_of, same).
        let old = if n.is_new then no_winner else winning_rev_id n.store.rows n.row in
        subst (λ doc. Holds (λ _. Replaces st doc prev q.allow_conflict) (find_parent env q n old))
          is_doc_of (find_parent-Replaces env q n old prev st given same))

put_steps-Replaces :
    (env : Environment) (q : Request) (docid : Bytes) (prev : TreeRevId) (st : Store)
    → q.docid ≡ some docid
    → q.prev_revid ≡ some prev
    → Holds (λ _. Replaces st (doc_of docid st) prev q.allow_conflict) (put_steps env q st)
unfolding put_steps
put_steps-Replaces env q docid prev st named given =
    Holds->>= (λ _. Replaces st (doc_of docid st) prev q.allow_conflict)
      (λ _. Replaces st (doc_of docid st) prev q.allow_conflict) (lookups env q st) _
      (lookups-Replaces env q docid prev st named given)
      (λ found replaces. prepared found replaces (prepare env q found))
  where
    prepared :
        (found : Found)
        → Replaces st (doc_of docid st) prev q.allow_conflict
        → (m : Result NewRow)
        → Holds
            (λ _. Replaces st (doc_of docid st) prev q.allow_conflict)
            (m >>= (λ r. ok (insert_new env q found r)))
    prepared found replaces (ok r) = held replaces
    prepared found replaces (err status) = returned

-- If `addDocID:` answers a revision of a named document for a given previous revision ID, a
-- revision of this ID was in the document before, and it was a current one unless conflicts were
-- allowed.
pub add_doc_id-Replaces :
    (env : Environment) (q : Request) (st : Store) (docid : Bytes) (prev r : TreeRevId)
    → q.docid ≡ some docid
    → q.prev_revid ≡ some prev
    → (add_doc_id env q st).new_revid ≡ some r
    → Replaces st (doc_of docid st) prev q.allow_conflict
unfolding add_doc_id
add_doc_id-Replaces env q st docid prev r named given e =
    in_transaction-some st (put_steps env q st) r
      (put_steps-Replaces env q docid prev st named given) e
