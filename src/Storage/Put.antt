-- ===== src/Storage/Put.antt =====
-- Source/CBL_SQLiteStorage.m: `addDocID:prevRevID:properties:deleting:allowConflict:…`, begun
-- outside a transaction, so that `inOuterTransaction:` is `inTransaction:`.
use couchbase_lite_ios.Base.{
  ℕ, ◌+◌, ◌-◌, Bool, true, false, not, ◌&&◌, ◌||◌, Option, none, some, List, [], ◌∷◌, ltb, ◌==◌,
  if◌then◌else◌,
}
use couchbase_lite_ios.Base.Bytes.{Bytes, codes, equal}
use couchbase_lite_ios.Base.Results.{Result, ok, err, ◌>>=◌, ◌>>◌, return_if}
use couchbase_lite_ios.RevId.{TreeRevId, generation, rev_id_for_json}
use couchbase_lite_ios.Storage.Table.{Row, Store, update_where, is_doc, revid_eq}
use couchbase_lite_ios.Storage.Docs.{Numbered, create_or_get_doc_numeric_id}
use couchbase_lite_ios.Storage.Queries.{
  Winner, winning_rev_id, get_sequence_of_document, exists_document, winner_with,
}
use couchbase_lite_ios.Storage.Prune.{prune_document}
use couchbase_lite_ios.Storage.Insert.{
  status_ok, status_created, status_not_found, status_conflict, status_bad_json, status_bad_id,
  status_db_error, is_error, Outcome, in_transaction, NewRow, insert_revision, clear_current,
  has_sequence, no_winner,
}
use mathlib.Core.Option

-- The metadata of one attachment; `others` are its other entries.
pub record Metadata : Type 0 where
  pub revpos : Option ℕ
  pub others : Bytes

-- A document's properties, as far as the method looks into them.
pub record Properties : Type 0 where
  pub attachments : Option (List (Bytes × Metadata))
  pub type : Option Bytes
  pub others : Bytes

-- What the method calls of the rest of the program and of the system: the canonical JSON encoder,
-- the digest, the order of an NSSet, and the unique ID that CBLCreateUUID returns.
pub record Environment : Type 0 where
  pub canonical_json : Properties → Option Bytes
  pub md5 : Bytes → Bytes
  pub enumerate : List ℕ → List ℕ
  pub uuid : Bytes

pub record Request : Type 0 where
  pub docid : Option Bytes
  pub prev_revid : Option TreeRevId
  pub properties : Option Properties
  pub deleting : Bool
  pub allow_conflict : Bool
  pub validation : Option (TreeRevId → Option TreeRevId → ℕ)

-- The variables that Part I leaves.
pub record Found : Type 0 where
  pub doc : ℕ
  pub prev_revid : Option TreeRevId
  pub parent_sequence : ℕ
  pub old : Winner
  pub store : Store

abbrev pub is_none {ℓ} : {A : Type ℓ} → Option A → Bool
is_none none = true
is_none (some _) = false

abbrev pub number_doc : Option Bytes → Bool → Store → Result Numbered
number_doc none is_new st = ok (record { row = 0; is_new = true; store = st })
number_doc (some docid) is_new st =
    let n = create_or_get_doc_numeric_id docid is_new st in
    if n.row == 0 then err status_db_error else ok n

-- With a previous revision ID.
unfoldable pub find_prev : Request → Numbered → Winner → TreeRevId → Result Found
find_prev q n old prev =
    let parent = get_sequence_of_document n.store.rows n.row prev (not q.allow_conflict) in
    if n.is_new
    then err status_not_found
    else if parent == 0
    then err (
        if not q.allow_conflict && exists_document n.store.rows n.row
        then status_conflict
        else status_not_found)
    else ok (record {
      doc = n.row;
      prev_revid = some prev;
      parent_sequence = parent;
      old = old;
      store = n.store;
    })

-- The first revision of a document, or the next one of a deleted document.
unfoldable pub find_deleted : Numbered → Winner → Option TreeRevId → Result Found
find_deleted n old none =
    ok (record { doc = n.row; prev_revid = none; parent_sequence = 0; old = old; store = n.store })
find_deleted n old (some w) =
    if old.is_deleted
    then ok (record {
      doc = n.row;
      prev_revid = some w;
      parent_sequence = get_sequence_of_document n.store.rows n.row w false;
      old = old;
      store = n.store;
    })
    else err status_conflict

-- With no previous revision ID, and a document ID.
unfoldable pub find_first : Request → Numbered → Winner → Result Found
unfolding find_deleted
find_first q n old =
    if q.deleting
    then err (if exists_document n.store.rows n.row then status_conflict else status_not_found)
    else find_deleted n old old.revid

-- With neither.
unfoldable pub find_new : Bytes → Numbered → Result Found
find_new uuid n = do
  n' ← number_doc (some uuid) n.is_new n.store
  ok (record {
    doc = n'.row;
    prev_revid = none;
    parent_sequence = 0;
    old = no_winner;
    store = n'.store;
  })

unfoldable pub find_parent : Environment → Request → Numbered → Winner → Result Found
find_parent env q n old = elim q.prev_revid [
  | some prev ↦ find_prev q n old prev
  | none ↦ elim q.docid [ some _ ↦ find_first q n old | none ↦ find_new env.uuid n ]
]

-- Part I: lookups prior to the insert.
unfoldable pub lookups : Environment → Request → Store → Result Found
unfolding find_prev find_first find_new find_parent
lookups env q st = do
  n ← number_doc q.docid (is_none q.prev_revid) st
  find_parent env q n (if n.is_new then no_winner else winning_rev_id n.store.rows n.row)

-- `$equal` on objects that may be nil
equal_option : Option TreeRevId → Option TreeRevId → Bool
equal_option none none = true
equal_option (some a) (some b) = equal a b
equal_option _ _ = false

unfoldable pub conflicts : Request → Found → Bool
unfolding equal_option
conflicts q f = f.old.is_conflict || (not q.deleting && not (equal_option f.prev_revid f.old.revid))

abbrev generation_or_zero : Option TreeRevId → ℕ
generation_or_zero none = 0
generation_or_zero (some r) = generation r

set_revpos : ℕ → List (Bytes × Metadata) → List (Bytes × Metadata)
set_revpos pos [] = []
set_revpos pos ((name, m) ∷ rest) = (name, record m { revpos = some pos }) ∷ set_revpos pos rest

unfoldable pub edit_revpos : Found → Properties → Properties
unfolding set_revpos
edit_revpos f p =
    if f.old.is_deleted
    then record p {
      attachments = Option.map (set_revpos (generation_or_zero f.prev_revid + 1)) p.attachments;
    }
    else p

abbrev encode : Environment → Option Properties → Result Bytes
encode env none = ok (codes "{}")
encode env (some p) = elim (env.canonical_json p) [
  | none ↦ err status_bad_json
  | some json ↦ ok json
]

abbrev validate :
    Option (TreeRevId → Option TreeRevId → ℕ) → TreeRevId → Option TreeRevId → Result (Unit {0})
validate none new prev = ok tt
validate (some block) new prev = return_if (is_error (block new prev)) (block new prev)

abbrev or_bad_id : Option TreeRevId → Result TreeRevId
or_bad_id none = err status_bad_id
or_bad_id (some r) = ok r

-- Part II: the new row.
unfoldable pub prepare : Environment → Request → Found → Result NewRow
unfolding edit_revpos
prepare env q f = do
  let properties = Option.map (edit_revpos f) q.properties
  json ← encode env properties
  revid ← or_bad_id (rev_id_for_json env.md5 json q.deleting f.prev_revid)
  validate q.validation revid f.prev_revid
  ok (record {
    revid = revid;
    deleted = q.deleting;
    current = true;
    has_attachments = not (is_none (Option.bind properties (λ (p : Properties). p.attachments)));
    json = some json;
    doc_type = Option.bind properties (λ (p : Properties). p.type);
  })

-- UPDATE revs SET parent=? WHERE doc_id=? and revid=? and parent isnull
unfoldable pub fix_parent : ℕ → ℕ → TreeRevId → Store → Store
unfolding update_where revid_eq
fix_parent parent doc revid st = if parent == 0 then st else record st {
  rows =
      update_where (λ r. is_doc doc r && revid_eq r.revid revid && is_none r.parent)
        (λ (r : Row). record r { parent = some parent }) st.rows;
}

-- Make the replaced revision non-current.
unfoldable pub replace_parent : ℕ → Store → Store
unfolding update_where
replace_parent parent st =
    if parent == 0
    then st
    else record st { rows = update_where (has_sequence parent) clear_current st.rows }

unfoldable pub limit_tree : Environment → ℕ → TreeRevId → Store → Store
limit_tree env doc revid st =
    if ltb st.max_rev_tree_depth (generation revid)
    then record st {
      rows =
          prune_document env.enumerate st.max_rev_tree_depth doc
            (generation revid - st.max_rev_tree_depth + 1) st.rows;
    }
    else st

-- Part III: the insertion takes place. A duplicate has a status of its own and no sequence.
unfoldable pub insert_new : Environment → Request → Found → NewRow → Outcome
unfolding fix_parent replace_parent limit_tree conflicts
insert_new env q f r = elim (insert_revision r f.doc f.parent_sequence f.store) [
  | none ↦ record {
    status = status_ok;
    store = replace_parent f.parent_sequence (fix_parent f.parent_sequence f.doc r.revid f.store);
    new_revid = some r.revid;
    sequence = 0;
    winning_revid = none;
    in_conflict = conflicts q f;
  }
  | some (seq, st1) ↦
      let st2 = limit_tree env f.doc r.revid (replace_parent f.parent_sequence st1) in
      record {
        status = if q.deleting then status_ok else status_created;
        store = st2;
        new_revid = some r.revid;
        sequence = seq;
        winning_revid = winner_with st2.rows f.doc f.old.revid f.old.is_deleted r.revid r.deleted;
        in_conflict = conflicts q f;
      }
]

unfoldable pub put_steps : Environment → Request → Store → Result Outcome
put_steps env q st = do f ← lookups env q st; r ← prepare env q f; ok (insert_new env q f r)

unfoldable pub add_doc_id : Environment → Request → Store → Outcome
unfolding in_transaction lookups prepare insert_new put_steps
add_doc_id env q st = in_transaction st (put_steps env q st)
