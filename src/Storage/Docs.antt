-- ===== src/Storage/Docs.antt =====
-- Source/CBL_SQLiteStorage.m, "DOCUMENT ID CACHE". A numeric ID of 0 or less stands for none: 0.
use couchbase_lite_ios.Base.{
  ℕ, ◌+◌, Bool, true, false, not, Option, none, some, List, [], ◌∷◌, ◌++◌, ◌==◌, if◌then◌else◌, max,
}
use couchbase_lite_ios.Base.Bytes.{Bytes, equal}
use couchbase_lite_ios.Storage.Table.{DocRow, Store}

unfoldable pub find_doc : Bytes → List DocRow → Option ℕ
find_doc docid [] = none
find_doc docid (d ∷ ds) = if equal d.docid docid then some d.doc_id else find_doc docid ds

-- The largest rowid, after which an INTEGER PRIMARY KEY goes on.
unfoldable pub max_doc_id : List DocRow → ℕ
max_doc_id [] = 0
max_doc_id (d ∷ ds) = max d.doc_id (max_doc_id ds)

abbrev pub or_zero : Option ℕ → ℕ
or_zero none = 0
or_zero (some n) = n

unfoldable pub read_doc_numeric_id : Bytes → Store → ℕ
unfolding find_doc
read_doc_numeric_id docid st = or_zero (find_doc docid st.docs)

abbrev pub remember : Bytes → ℕ → Store → Store
remember docid row st = record st {
  cached_ids = record { doc_id = row; docid = docid } ∷ st.cached_ids;
}

unfoldable pub get_doc_numeric_id : Bytes → Store → ℕ × Store
unfolding find_doc read_doc_numeric_id
get_doc_numeric_id docid st = elim (find_doc docid st.cached_ids) [
  | some cached ↦ (cached, st)
  | none ↦
      let result = read_doc_numeric_id docid st in
      if result == 0 then (result, st) else (result, remember docid result st)
]

-- INSERT OR IGNORE INTO docs
unfoldable pub create_doc_numeric_id : Bytes → Store → ℕ × Store
unfolding find_doc max_doc_id
create_doc_numeric_id docid st = elim (find_doc docid st.docs) [
  | some _ ↦ (0, st)
  | none ↦
      let row = max_doc_id st.docs + 1 in
      (row, record st { docs = st.docs ++ (record { doc_id = row; docid = docid } ∷ []) })
]

abbrev create_or_read : Bool → Bytes → Store → ℕ × Store
create_or_read true docid st = create_doc_numeric_id docid st
create_or_read false docid st = (read_doc_numeric_id docid st, st)

pub record Numbered : Type 0 where
  pub row : ℕ
  pub is_new : Bool
  pub store : Store

abbrev numbered : Bytes → Bool → ℕ × Store → Numbered
numbered docid is_new (row, st) = record {
  row = row;
  is_new = is_new;
  store = if row == 0 then st else remember docid row st;
}

-- `is_new` goes in as a guess, and comes out as the answer.
unfoldable pub create_or_get_doc_numeric_id : Bytes → Bool → Store → Numbered
unfolding find_doc read_doc_numeric_id create_doc_numeric_id
create_or_get_doc_numeric_id docid is_new st = elim (find_doc docid st.cached_ids) [
  | some cached ↦ record { row = cached; is_new = false; store = st }
  | none ↦
      let (row, st') = create_or_read is_new docid st in
      if row == 0
      then numbered docid (not is_new) (create_or_read (not is_new) docid st')
      else numbered docid is_new (row, st')
]

abbrev pub invalidate_doc_numeric_ids : Store → Store
invalidate_doc_numeric_ids st = record st { cached_ids = [] }
