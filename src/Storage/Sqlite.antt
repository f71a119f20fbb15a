-- ===== src/Storage/Sqlite.antt =====
-- Source/CBL_SQLiteStorage.m: the class `CBL_SQLiteStorage` as an implementation of the protocol
-- `CBL_Storage`. Revision trees, local documents and the table `info` do not touch each other.
use couchbase_lite_ios.Base.{ℕ, Bool, false, Option, none, some, List, [], map}
use couchbase_lite_ios.Base.Bytes.{Bytes}
use couchbase_lite_ios.RevId.{TreeRevId}
use couchbase_lite_ios.Revision.{Revision, RevisionList}
use couchbase_lite_ios.Storage.Table.{Row, Store}
use couchbase_lite_ios.Storage.Queries.{
  get_revision_history, get_all_revisions, get_parent_revision,
}
use couchbase_lite_ios.Storage.Insert.{Outcome, force_insert}
use couchbase_lite_ios.Storage.Put.{Environment, add_doc_id}
use couchbase_lite_ios.Storage.Purge.{purge_revisions}
use couchbase_lite_ios.Storage.Documents.{
  look_up, select_document, get_document, load_revision_body, get_revision_sequence, document_count,
  get_possible_ancestors, find_common_ancestor,
}
use couchbase_lite_ios.Storage.Changes.{changes_since_sequence, find_missing_revisions}
use couchbase_lite_ios.Storage.Local.{
  Database, JsonTypes, Properties, set_info, info_for_key, get_local_document, put_local_revision,
}
use couchbase_lite_ios.Storage.Protocol.{
  Attributes, Documents, Inserted, Insertion, LocalDocuments, StorageApi,
}
use mathlib.Core.Option

-- A revision that only has its IDs, its deletion mark and its sequence.
abbrev pub plain_revision : Bytes → Row → Revision Bytes
plain_revision docid r = record {
  body = none;
  doc_id = some docid;
  rev_id = some r.revid;
  sequence = r.sequence;
  deleted = r.deleted;
  missing = false;
}

abbrev pub parent_of_row : List Row → Option Row → Option Row
parent_of_row rows none = none
parent_of_row rows (some r) = get_parent_revision rows r.sequence

-- `getParentRevision:` of a revision with these IDs, and its sequence if it is known.
unfoldable pub get_parent : Bytes → TreeRevId → Option ℕ → Store → Option (Revision Bytes) × Store
unfolding get_parent_revision select_document
get_parent docid revid (some seq) st =
    (Option.map (plain_revision docid) (get_parent_revision st.rows seq), st)
get_parent docid revid none st =
    look_up docid none
      (λ doc.
        Option.map (plain_revision docid)
          (parent_of_row st.rows (select_document st.rows doc (some revid))))
      st

unfoldable pub get_history :
    Bytes → TreeRevId → List TreeRevId → Store → Option (List TreeRevId) × Store
unfolding get_revision_history
get_history docid revid ancestors st =
    look_up docid none (λ doc. some (get_revision_history st.rows doc revid ancestors)) st

-- `getAllRevisionsOfDocumentID:onlyCurrent:includeDeleted:`
unfoldable pub get_all_revisions_of : Bytes → Bool → Bool → Store → RevisionList Bytes × Store
unfolding get_all_revisions
get_all_revisions_of docid only_current include_deleted st =
    look_up docid []
      (λ doc.
        map (plain_revision docid) (get_all_revisions st.rows doc only_current include_deleted))
      st

-- A method on the revision trees as one on the whole database.
abbrev pub on_store : {A : Type 0} → (Store → A × Store) → Database → A × Database
on_store method db = ((method db.store).0, record db { store = (method db.store).1 })

abbrev pub inserted : Outcome → Inserted × Store
inserted o = (record { status = o.status; revid = o.new_revid; sequence = o.sequence }, o.store)

module _ (env : Environment) (types : JsonTypes) where
  abbrev attributes : Attributes Database
  attributes = record {
    set_info = set_info;
    info_for_key = info_for_key;
    document_count = λ db. document_count db.store;
    last_sequence = λ db. db.store.last_sequence;
  }

  abbrev documents : Documents Database
  documents = record {
    get_document = λ docid revid with_body. on_store (get_document docid revid with_body);
    load_revision_body = λ docid revid rev. on_store (load_revision_body docid revid rev);
    get_revision_sequence = λ docid revid. on_store (get_revision_sequence docid revid);
    get_parent_revision = λ docid revid known. on_store (get_parent docid revid known);
    get_revision_history = λ docid revid ancestors. on_store (get_history docid revid ancestors);
    get_all_revisions = λ docid only_current include_deleted.
        on_store (get_all_revisions_of docid only_current include_deleted);
    get_possible_ancestors =
        λ docid revid limit. on_store (get_possible_ancestors docid revid limit);
    find_common_ancestor = λ docid revid revids. on_store (find_common_ancestor docid revid revids);
    find_missing_revisions = λ revs db. find_missing_revisions revs db.store;
  }

  abbrev insertion : Insertion Database
  insertion = record {
    add_doc_id = λ request. on_store (λ st. inserted (add_doc_id env request st));
    force_insert = λ docid rev history validation.
        on_store (λ st. inserted (force_insert env.enumerate docid rev history validation st));
    purge_revisions = λ docs_to_revs.
        on_store (λ st. let p = purge_revisions docs_to_revs st in ((p.status, p.result), p.store));
  }

  abbrev local_documents : LocalDocuments (Properties types) Database
  local_documents = record {
    get_local_document = get_local_document types;
    put_local_revision = λ obey_mvcc rev docid prev db.
        let o = put_local_revision types obey_mvcc rev docid prev db in
        ((o.status, o.revision), o.database);
  }

  abbrev pub sqlite_storage : StorageApi (Properties types) Database
  sqlite_storage = record {
    attributes = attributes;
    documents = documents;
    changes = record {
      changes_since_sequence =
          λ last options accept db. changes_since_sequence last options accept db.store;
    };
    insertion = insertion;
    local_documents = local_documents;
  }
