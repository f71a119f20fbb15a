-- ===== src/Document/Access.antt =====
-- Source/API/CBLDocument.m, CBLRevision.m and Source/CBLInternal.h: the objects of documents and of saved and
-- unsaved revisions, and the methods of the database that they call (Source/API/CBLDatabase.m and
-- Source/CBLDatabase+Insertion.m), which are parameters. A method that only reads the database does not change
-- its state `S`. An NSError is the status that `CBLStatusFromNSError` reads from it, and `none` is nil.
use couchbase_lite_ios.Base.{
  ℕ, Bool, true, false, not, ◌&&◌, ◌||◌, Option, none, some, List, [], ◌∷◌, ◌==◌, if◌then◌else◌,
  Ordering,
}
use couchbase_lite_ios.Base.Bytes.{Bytes}
use couchbase_lite_ios.RevId.{TreeRevId, collate_rev_ids}
use couchbase_lite_ios.Revision.{Revision, equal_or_nil}
use couchbase_lite_ios.Status.{is_error}
use couchbase_lite_ios.Document.Properties.{PropertyTypes, Properties}
use couchbase_lite_ios.Document.Change.{
  DatabaseChange, change_revision_id, winning_revision_if_known,
}
use mathlib.Core.Option

module _ (types : PropertyTypes) (Url S : Type 0) where
  open types use {Attachment}

  abbrev pub Rev : Type 0
  Rev = Revision (Properties types)

  -- What `putDocID:` returns: the new revision, or nil with an error.
  pub record Put : Type 0 where
    pub revision : Option Rev
    pub error : Option ℕ

  pub record DocumentDatabase : Type 0 where
    pub get_document : Bytes → Option TreeRevId → Bool → S → Option Rev × ℕ
    pub load_body : Rev → S → Option Rev × ℕ
    pub add_basic_metadata : Rev → Rev
    pub get_parent_revision : Rev → S → Option Rev
    pub get_revision_history : Rev → Option (List TreeRevId) → S → List TreeRevId
    pub get_all_revisions : Bytes → Bool → Bool → S → List Rev
    pub put_doc_id : Bytes → Properties types → Option TreeRevId → Bool → S → Put × S
    pub force_insert : Rev → List TreeRevId → Option Url → S → ℕ × S
    pub register_attachments : Properties types → Rev → S → Option ℕ × S
    pub save_attachment : Attachment → S → Option ℕ × S
    pub purge_revisions : Bytes → S → ℕ × S
    pub expiration_of_document : Bytes → S → ℕ
    pub set_expiration : ℕ → Bytes → S → S

  -- `parent_rev_id` is only given during validation.
  pub record SavedRevision : Type 0 where
    pub rev : Rev
    pub checked_properties : Bool
    pub parent_rev_id : Option Bytes

  pub record UnsavedRevision : Type 0 where
    pub unsaved_parent_rev_id : Option Bytes
    pub unsaved_properties : Properties types

  -- The instance variables of a document; `known` is `_currentRevisionKnown`.
  pub record Document : Type 0 where
    pub doc_id : Bytes
    pub current : Option SavedRevision
    pub known : Bool

  unfoldable pub init_with_database : Bytes → Bool → Document
  init_with_database doc_id exists = record { doc_id = doc_id; current = none; known = not exists }

  abbrev pub saved_of : Rev → SavedRevision
  saved_of rev = record { rev = rev; checked_properties = false; parent_rev_id = none }

  abbrev pub current_id : Document → Option TreeRevId
  current_id doc = Option.bind doc.current (λ (saved : SavedRevision). saved.rev.rev_id)

  -- `revisionFromRev:`
  unfoldable pub revision_from_rev : Document → Option Rev → Option SavedRevision
  revision_from_rev doc none = none
  revision_from_rev doc (some rev) =
      if equal_or_nil rev.rev_id (current_id doc) then doc.current else some (saved_of rev)

  unfoldable pub forget_current_revision : Document → Document
  forget_current_revision doc = record doc { current = none; known = false }

  -- `kCBLStatusNotFound`, and an error that is none.
  abbrev pub is_answer : Option SavedRevision → ℕ → Bool
  is_answer (some saved) status = true
  is_answer none status = status == 404 || not (is_error status)

  unfoldable pub fetched : Document → Option Rev × ℕ → Document
  unfolding revision_from_rev
  fetched doc (rev, status) =
      let found = revision_from_rev doc rev in
      record doc { current = found; known = doc.known || is_answer found status }

  module _ (database : DocumentDatabase) where
    -- `currentRevision`: the revision is `current` of the result.
    unfoldable pub current_revision : Document → S → Document
    unfolding fetched
    current_revision doc st =
        if doc.known then doc else fetched doc (database.get_document doc.doc_id none true st)

    unfoldable pub revision_with_rev_id :
        Option TreeRevId → Bool → Document → S → Option SavedRevision
    unfolding revision_from_rev
    revision_with_rev_id none with_body doc st = none
    revision_with_rev_id (some revid) with_body doc st =
        if equal_or_nil (some revid) (current_id doc)
        then doc.current
        else revision_from_rev doc (database.get_document doc.doc_id (some revid) with_body st).0

    unfoldable pub leaf_revisions : Bool → Document → S → List SavedRevision
    leaf_revisions include_deleted doc st =
        from_revs (database.get_all_revisions doc.doc_id true include_deleted st)
      where
        from_revs : List Rev → List SavedRevision
        from_revs [] = []
        from_revs (rev ∷ revs) = elim (revision_from_rev doc (some rev)) [
          | none ↦ from_revs revs
          | some saved ↦ saved ∷ from_revs revs
        ]

  -- `revisionAdded:notify:`, without the notifications.
  abbrev pub new_current : Document → Option Rev → Document
  new_current doc none = forget_current_revision doc
  new_current doc (some rev) = record doc {
    current = if rev.deleted then none else some (saved_of rev);
  }

  unfoldable pub revision_added : DatabaseChange (Properties types) Url → Document → Document
  unfolding forget_current_revision
  revision_added change doc = elim (change_revision_id (Properties types) Url change) [
    | none ↦ record doc { current = none }
    | some added ↦ elim change.winning_revision_id [
      | none ↦ doc
      | some winning ↦
          if doc.known && not (equal_or_nil (some winning) (current_id doc))
          then new_current doc (winning_revision_if_known (Properties types) Url change)
          else doc
    ]
  ]

  abbrev pub is_descending : Ordering → Bool
  is_descending Ordering.gt = true
  is_descending _ = false

  abbrev pub is_after : TreeRevId → Option TreeRevId → Bool
  is_after revid none = true
  is_after revid (some other) = is_descending (collate_rev_ids revid other)

  -- `loadCurrentRevisionFrom:` a row with this revision ID and, perhaps, this revision.
  unfoldable pub load_current_revision_from : Option TreeRevId → Option Rev → Document → Document
  unfolding forget_current_revision
  load_current_revision_from none rev doc = doc
  load_current_revision_from (some revid) rev doc =
      if is_after revid (current_id doc)
      then elim rev [
        | none ↦ forget_current_revision doc
        | some loaded ↦ record doc { current = some (saved_of loaded); known = true }
      ]
      else doc
