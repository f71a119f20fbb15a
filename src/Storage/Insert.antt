-- ===== src/Storage/Insert.antt =====
-- Source/CBL_SQLiteStorage.m: `insertRevision:…`, `inTransaction:` and
-- `forceInsert:revisionHistory:…`.
use couchbase_lite_ios.Base.{
  ℕ, ◌+◌, ◌-◌, Bool, true, false, not, ◌&&◌, ◌||◌, Option, none, some, List, [], ◌∷◌, ltb, ◌==◌,
  if◌then◌else◌, length, take, min, max,
}
use couchbase_lite_ios.Base.Bytes.{Bytes, equal}
use couchbase_lite_ios.Base.Results.{Result, ok, err, ◌>>=◌, ◌>>◌, return_if}
use couchbase_lite_ios.RevId.{TreeRevId, generation}
pub use couchbase_lite_ios.Status.{is_error}
use couchbase_lite_ios.Storage.Table.{Row, Store, insert_row, update_where, any_row}
use couchbase_lite_ios.Storage.Docs.{create_or_get_doc_numeric_id, invalidate_doc_numeric_ids}
use couchbase_lite_ios.Storage.Queries.{Winner, winning_rev_id, get_all_revisions, winner_with}
use couchbase_lite_ios.Storage.Prune.{prune_document}

-- Source/CBLStatus.h
abbrev pub status_ok : ℕ
status_ok = 200

abbrev pub status_created : ℕ
status_created = 201

abbrev pub status_not_found : ℕ
status_not_found = 404

abbrev pub status_conflict : ℕ
status_conflict = 409

abbrev pub status_bad_json : ℕ
status_bad_json = 493

abbrev pub status_bad_id : ℕ
status_bad_id = 494

abbrev pub status_db_error : ℕ
status_db_error = 590

-- What the two insertion methods leave: the status, the database, and the variables that the change
-- notification is made of. `sequence` is that of the new revision, 0 if it got none.
pub record Outcome : Type 0 where
  pub status : ℕ
  pub store : Store
  pub new_revid : Option TreeRevId
  pub sequence : ℕ
  pub winning_revid : Option TreeRevId
  pub in_conflict : Bool

abbrev pub stopped : Store → ℕ → Outcome
stopped st status = record {
  status = status;
  store = st;
  new_revid = none;
  sequence = 0;
  winning_revid = none;
  in_conflict = false;
}

-- A block under `inTransaction:`, begun in `st`: an error status aborts the transaction.
unfoldable pub in_transaction : Store → Result Outcome → Outcome
in_transaction st (err status) =
    if is_error status then stopped (invalidate_doc_numeric_ids st) status else stopped st status
in_transaction st (ok o) =
    if is_error o.status then record o { store = invalidate_doc_numeric_ids st } else o

-- A revision as it goes into a row.
pub record NewRow : Type 0 where
  pub revid : TreeRevId
  pub deleted : Bool
  pub current : Bool
  pub has_attachments : Bool
  pub json : Option Bytes
  pub doc_type : Option Bytes

abbrev pub sequence_or_null : ℕ → Option ℕ
sequence_or_null seq = if seq == 0 then none else some seq

-- `insertRevision:…`, `none` for 0: the constraint was violated.
unfoldable pub insert_revision : NewRow → ℕ → ℕ → Store → Option (ℕ × Store)
insert_revision r doc parent st =
    elim (insert_row
      (record {
        sequence = 0;
        doc_id = doc;
        revid = r.revid;
        parent = sequence_or_null parent;
        current = r.current;
        deleted = r.deleted;
        json = r.json;
        no_attachments = not r.has_attachments;
        doc_type = r.doc_type;
      })
      st) [ none ↦ none | some st' ↦ some (st'.last_sequence, st') ]

-- UPDATE revs SET current=0, doc_type=null WHERE …
abbrev pub clear_current : Row → Row
clear_current r = record r { current = false; doc_type = none }

-- `localRevs[revID]`. Two rows of a document with the same revision ID would violate the constraint
-- UNIQUE, so that the first one found is the one in the dictionary.
unfoldable pub find_revid : TreeRevId → List Row → Option Row
find_revid revid [] = none
find_revid revid (r ∷ rs) = if equal r.revid revid then some r else find_revid revid rs

-- The first ID of the history that is in the local database, and its index.
unfoldable pub common_ancestor : ℕ → List TreeRevId → List Row → ℕ × Option Row
unfolding find_revid
common_ancestor index [] local = (index, none)
common_ancestor index (revid ∷ history) local = elim (find_revid revid local) [
  | some r ↦ (index, some r)
  | none ↦ common_ancestor (index + 1) history local
]

abbrev pub trim_history : ℕ → ℕ → List TreeRevId → List TreeRevId
trim_history index depth full =
    if ltb index (length full)
    then take index full
    else if ltb depth (length full)
    then take depth full
    else full

abbrev pub stub : TreeRevId → NewRow
stub revid = record {
  revid = revid;
  deleted = false;
  current = false;
  has_attachments = false;
  json = none;
  doc_type = none;
}

-- The stubs of the older revisions, the oldest first, each the parent of the next.
unfoldable pub insert_stubs : ℕ → ℕ → List TreeRevId → Store → Option (ℕ × Store)
insert_stubs doc parent [] st = some (parent, st)
insert_stubs doc parent (revid ∷ older) st = elim (insert_stubs doc parent older st) [
  | none ↦ none
  | some (seq, st') ↦ insert_revision (stub revid) doc seq st'
]

-- The revision that `forceInsert:` is given. `json` is what `encodeDocumentJSON:` makes of it.
pub record Incoming : Type 0 where
  pub revid : TreeRevId
  pub deleted : Bool
  pub has_attachments : Bool
  pub json : Option Bytes
  pub doc_type : Option Bytes

pub leaf_row : Incoming → Bytes → NewRow
leaf_row rev json = record {
  revid = rev.revid;
  deleted = rev.deleted;
  current = true;
  has_attachments = rev.has_attachments;
  json = some json;
  doc_type = rev.doc_type;
}

pub insert_leaf : Incoming → ℕ → Option (ℕ × Store) → Result (ℕ × Store)
insert_leaf rev doc none = err status_db_error
insert_leaf rev doc (some (seq, st)) = elim rev.json [
  | none ↦ err status_bad_json
  | some json ↦ elim (insert_revision (leaf_row rev json) doc seq st) [
    | none ↦ err status_db_error
    | some inserted ↦ ok inserted
  ]
]

-- The walk through the history, in chronological order. The result's sequence is the last one.
unfoldable pub insert_history : Incoming → ℕ → ℕ → List TreeRevId → Store → Result (ℕ × Store)
unfolding leaf_row insert_leaf
insert_history rev doc parent [] st = ok (parent, st)
insert_history rev doc parent (_ ∷ older) st =
    insert_leaf rev doc (insert_stubs doc parent older st)

abbrev pub has_sequence : ℕ → Row → Bool
has_sequence seq r = r.sequence == seq

-- Marks the common ancestor as no longer current; the flag is `inConflict`.
unfoldable pub replace_ancestor : Option Row → Bool → Store → Bool × Store
unfolding any_row update_where
replace_ancestor none in_conflict st = (in_conflict, st)
replace_ancestor (some a) in_conflict st =
    let test = λ (r : Row). has_sequence a.sequence r && r.current in
    (
      in_conflict || not (any_row test st.rows),
      record st { rows = update_where test clear_current st.rows },
    )

last_generation : List TreeRevId → ℕ
last_generation [] = 0
last_generation (r ∷ []) = generation r
last_generation (r ∷ s ∷ rs) = last_generation (s ∷ rs)

min_generation : ℕ → List Row → ℕ
min_generation g [] = g
min_generation g (r ∷ rs) = min_generation (min g (generation r.revid)) rs

max_generation : ℕ → List Row → ℕ
max_generation g [] = g
max_generation g (r ∷ rs) = max_generation (max g (generation r.revid)) rs

-- Enforces the maximum depth. `maxGen` exceeds the depth, so that `int` and ℕ subtraction agree.
unfoldable pub limit_depth :
    (List ℕ → List ℕ) → ℕ → TreeRevId → List TreeRevId → List Row → Store → Store
unfolding last_generation min_generation max_generation
limit_depth enumerate doc revid history local st =
    let min_gen = min_generation (last_generation history) local in
    let max_gen = max_generation (generation revid) local in
    let keep = max_gen - st.max_rev_tree_depth + 1 in
    if ltb st.max_rev_tree_depth (generation revid) && ltb min_gen keep
    then record st { rows = prune_document enumerate st.max_rev_tree_depth doc keep st.rows }
    else st

abbrev pub second : List TreeRevId → Option TreeRevId
second (_ ∷ r ∷ _) = some r
second _ = none

abbrev pub validate :
    Option (Option Row → Option TreeRevId → ℕ) → Option Row → Option TreeRevId → Result (Unit {0})
validate none ancestor parent = ok tt
validate (some block) ancestor parent =
    return_if (is_error (block ancestor parent)) (block ancestor parent)

-- What follows the walk: the ancestor, the depth, the winner.
unfoldable pub finish_insert :
    (List ℕ → List ℕ)
    → Incoming
    → List TreeRevId
    → Option Row
    → List Row
    → Winner
    → ℕ
    → ℕ × Store
    → Outcome
finish_insert enumerate rev history ancestor local old doc (seq, st) =
    let (in_conflict, st') = replace_ancestor ancestor old.is_conflict st in
    let limited = limit_depth enumerate doc rev.revid history local st' in
    record {
      status = status_created;
      store = limited;
      new_revid = some rev.revid;
      sequence = seq;
      winning_revid = winner_with limited.rows doc old.revid old.is_deleted rev.revid rev.deleted;
      in_conflict = in_conflict;
    }

abbrev pub sequence_of : Option Row → ℕ
sequence_of none = 0
sequence_of (some a) = a.sequence

-- Everything behind the look-up of the document.
unfoldable pub force_insert_at :
    (List ℕ → List ℕ)
    → Incoming
    → List TreeRevId
    → Option (Option Row → Option TreeRevId → ℕ)
    → ℕ × Option Row
    → List Row
    → Winner
    → ℕ
    → Store
    → Result Outcome
unfolding finish_insert
force_insert_at enumerate rev full validation (index, ancestor) local old doc st = do
  let history = trim_history index st.max_rev_tree_depth full
  validate validation ancestor (second full)
  inserted ← insert_history rev doc (sequence_of ancestor) history st
  ok (finish_insert enumerate rev history ancestor local old doc inserted)

abbrev pub no_winner : Winner
no_winner = record { revid = none; is_deleted = false; is_conflict = false }

-- The block of the transaction.
unfoldable pub force_insert_block :
    (List ℕ → List ℕ)
    → Bytes
    → Incoming
    → List TreeRevId
    → Option (Option Row → Option TreeRevId → ℕ)
    → Store
    → Result Outcome
unfolding force_insert_at
force_insert_block enumerate docid rev full validation st =
    let n = create_or_get_doc_numeric_id docid (length full == 1) st in
    let local = get_all_revisions n.store.rows n.row false true in
    let (index, ancestor) = common_ancestor 0 full local in
    if n.row == 0
    then err status_db_error
    else if n.is_new
    then force_insert_at enumerate rev full validation (length full, none) [] no_winner n.row
        n.store
    else if index == 0
    then ok (stopped n.store status_ok)
    else force_insert_at enumerate rev full validation (index, ancestor) local
        (winning_rev_id n.store.rows n.row) n.row n.store

unfoldable pub force_insert :
    (List ℕ → List ℕ)
    → Bytes
    → Incoming
    → List TreeRevId
    → Option (Option Row → Option TreeRevId → ℕ)
    → Store
    → Outcome
unfolding in_transaction force_insert_block
force_insert enumerate docid rev full validation st =
    in_transaction st (force_insert_block enumerate docid rev full validation st)
