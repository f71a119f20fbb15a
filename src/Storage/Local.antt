-- ===== src/Storage/Local.antt =====
-- Source/CBL_SQLiteStorage.m, "LOCAL DOCS / DB INFO": the tables `localdocs` and `info` beside the
-- revision trees. Properties of a document and their JSON are of types that only the JSON classes look
-- into. A statement does not fail.
use couchbase_lite_ios.Base.{
  ℕ, ◌+◌, Bool, true, false, not, ◌&&◌, ◌||◌, Option, none, some, List, [], ◌∷◌, ◌++◌, ◌==◌,
  if◌then◌else◌, length, take,
}
use couchbase_lite_ios.Base.Int.{pos}
use couchbase_lite_ios.Base.Bytes.{Bytes, equal, codes}
use couchbase_lite_ios.RevId.{TreeRevId, generation, as_string, format_int}
use couchbase_lite_ios.Revision.{Revision}
use couchbase_lite_ios.Storage.Table.{Store, where_rows, first_row, any_row, update_where, revid_eq}
use couchbase_lite_ios.Storage.Docs.{invalidate_doc_numeric_ids}
use couchbase_lite_ios.Storage.Insert.{
  status_ok, status_created, status_not_found, status_conflict, status_bad_json, status_bad_id,
  is_error,
}
use mathlib.Core.Option

pub record LocalRow : Type 0 where
  pub docid : Bytes
  pub revid : TreeRevId
  pub json : Bytes

pub record InfoRow : Type 0 where
  pub key : Bytes
  pub value : Bytes

-- The whole database.
pub record Database : Type 0 where
  pub store : Store
  pub localdocs : List LocalRow
  pub info : List InfoRow

-- What the program uses of the JSON classes. A dictionary is the list of its entries.
pub record JsonTypes : Type 1 where
  pub Value : Type 0
  pub string : Bytes → Value
  pub canonical_encoding : List (Bytes × Value) → Option Bytes
  pub parse : Bytes → Option (List (Bytes × Value))

unfoldable pub info_for_key : Bytes → Database → Option Bytes
unfolding where_rows
info_for_key key db = elim (first_row (where_rows (λ (r : InfoRow). equal r.key key) db.info)) [
  | none ↦ none
  | some r ↦ some r.value
]

-- INSERT OR REPLACE INTO info
unfoldable pub set_info : Bytes → Bytes → Database → ℕ × Database
unfolding where_rows
set_info value key db = (
  status_ok,
  record db {
    info =
        where_rows (λ (r : InfoRow). not (equal r.key key)) db.info
        ++ (record { key = key; value = value } ∷ []);
  },
)

abbrev pub is_local : Bytes → LocalRow → Bool
is_local docid r = equal r.docid docid

abbrev pub local_revid : Option LocalRow → Option TreeRevId
local_revid none = none
local_revid (some r) = some r.revid

unfoldable pub local_row : Bytes → Database → Option LocalRow
unfolding where_rows
local_row docid db = first_row (where_rows (is_local docid) db.localdocs)

-- WHERE docid=? AND revid=?
unfoldable pub is_local_revision : Bytes → TreeRevId → LocalRow → Bool
unfolding revid_eq
is_local_revision docid revid r = is_local docid r && revid_eq r.revid revid

-- `none` in the second place is nil.
pub record LocalOutcome (P : Type 0) : Type 0 where
  pub status : ℕ
  pub revision : Option (Revision P)
  pub database : Database

-- `hasPrefix: @"_local/"`
unfoldable pub has_local_prefix : Bytes → Bool
has_local_prefix docid = equal (take 7 docid) (codes "_local/")

-- UPDATE localdocs, and the number of rows that it changed.
unfoldable pub update_local : Bytes → TreeRevId → TreeRevId → Bytes → Database → ℕ × Database
unfolding where_rows update_where is_local_revision
update_local docid prev revid json db = (
  length (where_rows (is_local_revision docid prev) db.localdocs),
  record db {
    localdocs =
        update_where (is_local_revision docid prev)
          (λ (r : LocalRow). record r { revid = revid; json = json }) db.localdocs;
  },
)

-- INSERT OR IGNORE INTO localdocs
unfoldable pub insert_local : Bytes → TreeRevId → Bytes → Database → ℕ × Database
unfolding any_row
insert_local docid revid json db = if any_row (is_local docid) db.localdocs then (0, db) else (
  1,
  record db {
    localdocs = db.localdocs ++ (record { docid = docid; revid = revid; json = json } ∷ []);
  },
)

-- DELETE FROM localdocs WHERE docid=? AND revid=?
unfoldable pub delete_local : Bytes → TreeRevId → Database → ℕ × Database
unfolding where_rows is_local_revision
delete_local docid revid db = (
  length (where_rows (is_local_revision docid revid) db.localdocs),
  record db { localdocs = where_rows (λ r. not (is_local_revision docid revid r)) db.localdocs },
)

-- The statuses of `deleteLocalDocumentWithID:revisionID:` when nothing was deleted.
unfoldable pub not_deleted : Bytes → Database → ℕ
unfolding any_row
not_deleted docid db =
    if any_row (is_local docid) db.localdocs then status_conflict else status_not_found

unfoldable pub delete_local_document : Bytes → Option TreeRevId → Database → ℕ × Database
unfolding not_deleted delete_local
delete_local_document docid none db = (not_deleted docid db, db)
delete_local_document docid (some revid) db =
    let deleted = delete_local docid revid db in
    if deleted.0 == 0 then (not_deleted docid db, db) else (status_ok, deleted.1)

-- The parent's generation and one more, or nil for a parent without generation.
unfoldable pub next_local_revid : Option TreeRevId → Option TreeRevId
next_local_revid none = some (codes "1-local")
next_local_revid (some prev) =
    if generation prev == 0
    then none
    else some (format_int (pos (generation prev + 1)) ++ codes "-local")

-- The statement of a PUT: with a parent it updates, without one it inserts.
unfoldable pub write_local : Bytes → Option TreeRevId → TreeRevId → Bytes → Database → ℕ × Database
unfolding update_local insert_local
write_local docid none revid json db = insert_local docid revid json db
write_local docid (some prev) revid json db = update_local docid prev revid json db

unfoldable pub member_of : Bytes → List Bytes → Bool
member_of key [] = false
member_of key (k ∷ keys) = equal k key || member_of key keys

abbrev pub special_keys_to_remove : List Bytes
special_keys_to_remove =
    codes "_id"
    ∷ codes "_rev"
    ∷ codes "_deleted"
    ∷ codes "_revisions"
    ∷ codes "_revs_info"
    ∷ codes "_conflicts"
    ∷ codes "_deleted_conflicts"
    ∷ codes "_local_seq"
    ∷ []

abbrev pub special_keys_to_leave : List Bytes
special_keys_to_leave = codes "_removed" ∷ codes "_attachments" ∷ []

-- `hasPrefix: @"_"`
abbrev pub is_reserved : Bytes → Bool
is_reserved key = equal (take 1 key) (codes "_")

module _ (types : JsonTypes) where
  open types use {Value, string, canonical_encoding, parse}

  abbrev pub Properties : Type 0
  Properties = List (Bytes × Value)

  unfoldable pub lookup : Bytes → Properties → Option Value
  lookup key [] = none
  lookup key ((k, v) ∷ rest) = let later = lookup key rest in if equal k key then some v else later

  -- `properties[key] = value`
  abbrev pub set_entry : Bytes → Value → Properties → Properties
  set_entry key value properties =
      (key, value) ∷ where_rows (λ (e : Bytes × Value). not (equal e.0 key)) properties

  -- The same with a value that may be nil, which takes the entry out.
  abbrev pub set_or_remove : Bytes → Option Value → Properties → Properties
  set_or_remove key none properties =
      where_rows (λ (e : Bytes × Value). not (equal e.0 key)) properties
  set_or_remove key (some value) properties = set_entry key value properties

  -- `cbl_setID:rev:`
  unfoldable pub set_id_rev : Bytes → TreeRevId → Properties → Properties
  unfolding where_rows
  set_id_rev docid revid properties =
      set_or_remove (codes "_rev") (Option.map string (as_string revid))
        (set_entry (codes "_id") (string docid) properties)

  -- The loop of `encodeDocumentJSON:`; an unknown reserved key is an error.
  unfoldable pub kept_entries : Properties → Option Properties
  unfolding member_of
  kept_entries [] = some []
  kept_entries ((k, v) ∷ rest) =
      let others = kept_entries rest in
      if not (is_reserved k) || member_of k special_keys_to_leave
      then Option.map (◌∷◌ (k, v)) others
      else if member_of k special_keys_to_remove
      then others
      else none

  -- `encodeDocumentJSON:`; the properties may be nil.
  unfoldable pub encode_document_json : Option Properties → Option Bytes
  unfolding kept_entries
  encode_document_json none = none
  encode_document_json (some properties) = elim (kept_entries properties) [
    | none ↦ none
    | some kept ↦ canonical_encoding kept
  ]

  unfoldable pub local_revision : LocalRow → Properties → Revision Properties
  local_revision r properties = record {
    body = some (set_id_rev r.docid r.revid properties);
    doc_id = some r.docid;
    rev_id = some r.revid;
    sequence = 0;
    deleted = false;
    missing = false;
  }

  -- Empty JSON, and `{}`, stand for no properties.
  unfoldable pub parse_local : Bytes → Option Properties
  parse_local json =
      if length json == 0 then some [] else if equal json (codes "{}") then some [] else parse json

  unfoldable pub read_local : Option TreeRevId → Option LocalRow → Option (Revision Properties)
  unfolding local_revision parse_local
  read_local revid none = none
  read_local revid (some r) =
      let found = Option.map (local_revision r) (parse_local r.json) in
      elim revid [ none ↦ found | some id ↦ if equal id r.revid then found else none ]

  -- `getLocalDocumentWithID:revisionID:`
  unfoldable pub get_local_document :
      Bytes → Option TreeRevId → Database → Option (Revision Properties)
  unfolding read_local local_row
  get_local_document docid revid db = read_local revid (local_row docid db)

  abbrev pub refused : ℕ → Database → LocalOutcome Properties
  refused status db = record { status = status; revision = none; database = db }

  -- How the PUT ends, by the number of rows changed.
  abbrev pub put_done :
      Revision Properties → Bytes → TreeRevId → Database → ℕ × Database → LocalOutcome Properties
  put_done rev docid revid db written =
      if written.0 == 0 then refused status_conflict db else record {
        status = status_created;
        revision = some (record rev { doc_id = some docid; rev_id = some revid });
        database = written.1;
      }

  unfoldable pub put_local_live :
      Revision Properties → Bytes → Option TreeRevId → Database → LocalOutcome Properties
  unfolding next_local_revid write_local encode_document_json
  put_local_live rev docid prev db = elim (encode_document_json rev.body) [
    | none ↦ refused status_bad_json db
    | some json ↦ elim (next_local_revid prev) [
      | none ↦ refused status_bad_id db
      | some revid ↦ put_done rev docid revid db (write_local docid prev revid json db)
    ]
  ]

  unfoldable pub put_local_deleted :
      Revision Properties → Bytes → Option TreeRevId → Database → LocalOutcome Properties
  unfolding delete_local_document
  put_local_deleted rev docid prev db =
      let deleted = delete_local_document docid prev db in
      record {
        status = deleted.0;
        revision = if is_error deleted.0 then none else some rev;
        database = deleted.1;
      }

  -- `putLocalRevision:prevRevisionID:obeyMVCC:status:` with `obeyMVCC`.
  unfoldable pub put_local_mvcc :
      Revision Properties → Bytes → Option TreeRevId → Database → LocalOutcome Properties
  unfolding has_local_prefix put_local_live put_local_deleted
  put_local_mvcc rev docid prev db =
      if not (has_local_prefix docid)
      then refused status_bad_id db
      else if rev.deleted
      then put_local_deleted rev docid prev db
      else put_local_live rev docid prev db

  -- A transaction around `putLocalRevisionNoMVCC:`: an error status rolls the database back.
  abbrev pub in_local_transaction : Database → LocalOutcome Properties → LocalOutcome Properties
  in_local_transaction db o =
      if is_error o.status
      then record o { database = record db { store = invalidate_doc_numeric_ids db.store } }
      else o

  abbrev pub rev_id_of : Option (Revision Properties) → Option TreeRevId
  rev_id_of none = none
  rev_id_of (some rev) = rev.rev_id

  unfoldable pub put_local_revision :
      Bool → Revision Properties → Bytes → Option TreeRevId → Database → LocalOutcome Properties
  unfolding get_local_document put_local_mvcc
  put_local_revision true rev docid prev db = put_local_mvcc rev docid prev db
  put_local_revision false rev docid prev db =
      if not (has_local_prefix docid)
      then refused status_bad_id db
      else in_local_transaction db
          (put_local_mvcc rev docid (rev_id_of (get_local_document docid none db)) db)
