-- ===== src/Storage/Protocol.antt =====
-- Source/CBL_Storage.h: the methods of the protocol `CBL_Storage` that read and change documents, as
-- records of operations on a state `S`; a method that returns through out parameters returns a product.
-- A revision that a method only takes the IDs of is given by its IDs. The methods that open, close,
-- compact, encrypt and expire, `getAllDocs:` and `findAllAttachmentKeys:`, and those on views are not
-- among them, and transactions are those of the methods themselves.
use couchbase_lite_ios.Base.{ℕ, Bool, Option, List}
use couchbase_lite_ios.Base.Bytes.{Bytes}
use couchbase_lite_ios.RevId.{TreeRevId}
use couchbase_lite_ios.Revision.{Revision, RevisionList}
use couchbase_lite_ios.Storage.Table.{Row}
use couchbase_lite_ios.Storage.Changes.{ChangesOptions}
use couchbase_lite_ios.Storage.Insert.{Incoming}
use couchbase_lite_ios.Storage.Put.{Request}

-- "DATABASE ATTRIBUTES & OPERATIONS"
pub record Attributes (S : Type 0) : Type 0 where
  pub set_info : Bytes → Bytes → S → ℕ × S
  pub info_for_key : Bytes → S → Option Bytes
  pub document_count : S → ℕ
  pub last_sequence : S → ℕ

-- "DOCUMENTS", for one document at a time
pub record Documents (S : Type 0) : Type 0 where
  pub get_document : Bytes → Option TreeRevId → Bool → S → (Option (Revision Bytes) × ℕ) × S
  pub load_revision_body :
      Bytes → TreeRevId → Revision Bytes → S → (Option (Revision Bytes) × ℕ) × S
  pub get_revision_sequence : Bytes → TreeRevId → S → ℕ × S
  pub get_parent_revision : Bytes → TreeRevId → Option ℕ → S → Option (Revision Bytes) × S
  pub get_revision_history : Bytes → TreeRevId → List TreeRevId → S → Option (List TreeRevId) × S
  pub get_all_revisions : Bytes → Bool → Bool → S → RevisionList Bytes × S
  pub get_possible_ancestors : Bytes → TreeRevId → ℕ → S → (List TreeRevId × Option Bool) × S
  pub find_common_ancestor : Bytes → TreeRevId → List TreeRevId → S → Option TreeRevId × S
  pub find_missing_revisions : RevisionList Bytes → S → RevisionList Bytes

-- The changes feed.
pub record Changes (S : Type 0) : Type 0 where
  pub changes_since_sequence :
      ℕ → ChangesOptions → Option (Revision Bytes → Bool) → S → RevisionList Bytes

-- What an insertion returns: its status, and the ID and the sequence of the new revision.
pub record Inserted : Type 0 where
  pub status : ℕ
  pub revid : Option TreeRevId
  pub sequence : ℕ

-- "INSERTION / DELETION / PURGING"
pub record Insertion (S : Type 0) : Type 0 where
  pub add_doc_id : Request → S → Inserted × S
  pub force_insert :
      Bytes
      → Incoming
      → List TreeRevId
      → Option (Option Row → Option TreeRevId → ℕ)
      → S
      → Inserted × S
  pub purge_revisions :
      List (Bytes × Option (List TreeRevId)) → S → (ℕ × List (Bytes × List TreeRevId)) × S

-- "LOCAL DOCS", with properties of type `P`
pub record LocalDocuments (P S : Type 0) : Type 0 where
  pub get_local_document : Bytes → Option TreeRevId → S → Option (Revision P)
  pub put_local_revision :
      Bool → Revision P → Bytes → Option TreeRevId → S → (ℕ × Option (Revision P)) × S

pub record StorageApi (P S : Type 0) : Type 0 where
  pub attributes : Attributes S
  pub documents : Documents S
  pub changes : Changes S
  pub insertion : Insertion S
  pub local_documents : LocalDocuments P S
