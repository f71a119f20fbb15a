-- ===== src/Document/Internal.antt =====
-- Source/CBLInternal.h: the methods of documents and changes that the other parts of the library call, as records.
use couchbase_lite_ios.Base.{Bool, Option}
use couchbase_lite_ios.Base.Bytes.{Bytes}
use couchbase_lite_ios.RevId.{TreeRevId}
use couchbase_lite_ios.Revision.{Revision}
use couchbase_lite_ios.Document.Properties.{PropertyTypes, Properties}
use couchbase_lite_ios.Document.Change.{
  DatabaseChange, init_with_added_revision, init_with_purged_document, winning_revision_if_known,
}
use couchbase_lite_ios.Document.Access.{
  Document, SavedRevision, init_with_database, revision_from_rev, revision_added,
  forget_current_revision, load_current_revision_from,
}

module _ (types : PropertyTypes) (Url S : Type 0) where
  -- `CBLDocument ()`, the cache key of `CBLCacheable` included. A row is its revision ID and its revision.
  pub record DocumentInternal (D : Type 0) : Type 0 where
    pub cache_key : D → Bytes
    pub init_with_database : Bytes → Bool → D
    pub revision_from_rev :
        D → Option (Revision (Properties types)) → Option (SavedRevision types Url S)
    pub revision_added : DatabaseChange (Properties types) Url → D → D
    pub forget_current_revision : D → D
    pub load_current_revision_from : Option TreeRevId → Option (Revision (Properties types)) → D → D

  unfoldable pub document_internal : DocumentInternal (Document types Url S)
  document_internal = record {
    cache_key = λ doc. doc.doc_id;
    init_with_database = init_with_database types Url S;
    revision_from_rev = revision_from_rev types Url S;
    revision_added = revision_added types Url S;
    forget_current_revision = forget_current_revision types Url S;
    load_current_revision_from = load_current_revision_from types Url S;
  }

-- `CBLDatabaseChange ()`
module _ (Body Url : Type 0) where
  pub record ChangeInternal (C : Type 0) : Type 0 where
    pub init_with_added_revision : Revision Body → Option TreeRevId → Bool → Option Url → Option C
    pub init_with_purged_document : Bytes → C
    pub added_revision : C → Option (Revision Body)
    pub winning_revision_if_known : C → Option (Revision Body)

  unfoldable pub change_internal : ChangeInternal (DatabaseChange Body Url)
  change_internal = record {
    init_with_added_revision = init_with_added_revision Body Url;
    init_with_purged_document = init_with_purged_document Body Url;
    added_revision = λ change. change.added_revision;
    winning_revision_if_known = winning_revision_if_known Body Url;
  }
