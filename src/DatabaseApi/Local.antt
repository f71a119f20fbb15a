-- ===== src/DatabaseApi/Local.antt =====
-- Source/API/CBLDatabase.h and CBLDatabase.m, "LOCAL DOCUMENTS": the local documents of a database, above those of
-- its storage (Source/CBL_SQLiteStorage.m). `none` is nil; the second result is what the method returns.
use couchbase_lite_ios.Base.{Bool, false, not, Option, none, some, ◌++◌}
use couchbase_lite_ios.Base.Bytes.{Bytes, codes}
use couchbase_lite_ios.Revision.{Revision, is_given}
use couchbase_lite_ios.Storage.Local.{
  Database, JsonTypes, Properties, LocalOutcome, get_local_document, put_local_revision,
}
use mathlib.Core.Option

abbrev pub make_local_doc_id : Bytes → Bytes
make_local_doc_id doc_id = codes "_local/" ++ doc_id

module _ (types : JsonTypes) where
  unfoldable pub existing_local_document_with_id : Bytes → Database → Option (Properties types)
  existing_local_document_with_id local_doc_id db =
      Option.bind (get_local_document types (make_local_doc_id local_doc_id) none db)
        (λ (rev : Revision (Properties types)). rev.body)

  abbrev pub local_revision_of : Option (Properties types) → Bytes → Revision (Properties types)
  local_revision_of properties doc_id = record {
    body = properties;
    doc_id = some doc_id;
    rev_id = none;
    sequence = 0;
    deleted = not (is_given properties);
    missing = false;
  }

  -- The outcome of the storage's method, for properties or for a deletion.
  unfoldable pub put_local :
      Option (Properties types) → Bytes → Database → LocalOutcome (Properties types)
  put_local properties local_doc_id db =
      put_local_revision types false (local_revision_of properties (make_local_doc_id local_doc_id))
        (make_local_doc_id local_doc_id) none db

  unfoldable pub put_local_document : Option (Properties types) → Bytes → Database → Database × Bool
  unfolding put_local
  put_local_document properties local_doc_id db =
      let o = put_local properties local_doc_id db in (o.database, is_given o.revision)

  unfoldable pub delete_local_document_with_id : Bytes → Database → Database × Bool
  unfolding put_local_document
  delete_local_document_with_id = put_local_document none

  -- The methods of the header.
  pub record LocalDocumentMethods (D : Type 0) : Type 0 where
    pub existing_local_document_with_id : Bytes → D → Option (Properties types)
    pub put_local_document : Option (Properties types) → Bytes → D → D × Bool
    pub delete_local_document_with_id : Bytes → D → D × Bool

  unfoldable pub local_document_methods : LocalDocumentMethods Database
  local_document_methods = record {
    existing_local_document_with_id = existing_local_document_with_id;
    put_local_document = put_local_document;
    delete_local_document_with_id = delete_local_document_with_id;
  }
