-- ===== src/Document/Methods.antt =====
-- Source/API/CBLDocument.h: the public methods of a document as records, and their implementation by
-- Source/API/CBLDocument.m. A method that reads the current revision leaves it in the document, which it returns.
-- Notifications and the model object are left out; dates are seconds since 1970.
use couchbase_lite_ios.Base.{
  ℕ, ◌-◌, Bool, true, false, Option, none, some, List, ◌++◌, ltb, ◌==◌, if◌then◌else◌, length, take,
  drop,
}
use couchbase_lite_ios.Base.Bytes.{Bytes, codes}
use couchbase_lite_ios.RevId.{TreeRevId}
use couchbase_lite_ios.Document.Properties.{PropertyTypes, Properties, object_for, user_properties}
use couchbase_lite_ios.Document.Access.{
  DocumentDatabase, Document, SavedRevision, UnsavedRevision, current_revision,
  revision_with_rev_id, leaf_revisions,
}
use couchbase_lite_ios.Document.Revisions.{
  revision_id, saved_properties, is_gone, get_revision_history, new_revision,
}
use couchbase_lite_ios.Document.Saving.{
  Saved, Updated, put, delete_document, purge_document, put_existing_revision, update,
}
use mathlib.Core.Option

module _ (types : PropertyTypes) (Url S : Type 0) (database : DocumentDatabase types Url S) where
  open types use {Object}

  -- `abbreviatedID`, of an ID whose characters have one code each.
  unfoldable pub abbreviated_id : Bytes → Bytes
  abbreviated_id id =
      if ltb 10 (length id) then take 4 id ++ codes ".." ++ drop (length id - 4) id else id

  unfoldable pub is_deleted : Document types Url S → S → Bool
  unfolding current_revision leaf_revisions
  is_deleted doc st =
      let doc' = current_revision types Url S database doc st in
      elim doc'.current [
        | some saved ↦ saved.rev.deleted
        | none ↦ ltb 0 (length (leaf_revisions types Url S database true doc' st))
      ]

  unfoldable pub expiration_date : Document types Url S → S → Option ℕ
  expiration_date doc st =
      if database.expiration_of_document doc.doc_id st == 0
      then none
      else some (database.expiration_of_document doc.doc_id st)

  abbrev pub current : Document types Url S → S → Option (SavedRevision types Url S)
  unfolding current_revision
  current doc st = (current_revision types Url S database doc st).current

  abbrev pub current_properties : Document types Url S → S → Option (Properties types)
  unfolding current saved_properties
  current_properties doc st = Option.bind (current doc st) (λ (saved : SavedRevision types Url S).
      (saved_properties types Url S database saved st).rev.body)

  -- The document itself.
  pub record DocumentClass (D : Type 0) : Type 0 where
    pub document_id : D → Bytes
    pub abbreviated_id : D → Bytes
    pub is_deleted : D → S → Bool
    pub is_gone : D → S → Bool
    pub delete_document : D → S → (Bool × Option ℕ) × S
    pub purge_document : D → S → (Bool × Option ℕ) × S
    pub expiration_date : D → S → Option ℕ
    pub set_expiration_date : ℕ → D → S → S

  -- "REVISIONS"
  pub record DocumentRevisions (D : Type 0) : Type 0 where
    pub current_revision_id : D → S → Option Bytes
    pub current_revision : D → S → D × Option (SavedRevision types Url S)
    pub revision_with_id : Bytes → D → S → Option (SavedRevision types Url S)
    pub get_revision_history : D → S → Option (List (SavedRevision types Url S))
    pub get_conflicting_revisions : D → S → List (SavedRevision types Url S)
    pub get_leaf_revisions : D → S → List (SavedRevision types Url S)
    pub new_revision : D → S → UnsavedRevision types Url S

  -- "PROPERTIES"
  pub record DocumentProperties (D : Type 0) : Type 0 where
    pub properties : D → S → Option (Properties types)
    pub user_properties : D → S → Option (Properties types)
    pub property_for_key : Bytes → D → S → Option Object
    pub put_properties : Properties types → D → S → Saved types Url S database × S
    pub update :
        ℕ
        → (UnsavedRevision types Url S → Option (Properties types))
        → D
        → S
        → (Updated types Url S database × D) × S
    pub put_existing_revision :
        Properties types
        → Properties types
        → TreeRevId
        → List TreeRevId
        → Option Url
        → D
        → S
        → Bool × S

  unfoldable pub document : DocumentClass (Document types Url S)
  document = record {
    document_id = λ doc. doc.doc_id;
    abbreviated_id = λ doc. abbreviated_id doc.doc_id;
    is_deleted = is_deleted;
    is_gone = λ doc st. elim (current doc st) [
      | none ↦ false
      | some saved ↦ is_gone types Url S database saved st
    ];
    delete_document = delete_document types Url S database;
    purge_document = purge_document types Url S database;
    expiration_date = expiration_date;
    set_expiration_date = λ seconds doc st. database.set_expiration seconds doc.doc_id st;
  }

  unfoldable pub document_revisions : DocumentRevisions (Document types Url S)
  document_revisions = record {
    current_revision_id = λ doc st. Option.bind (current doc st) (revision_id types Url S database);
    current_revision = λ doc st. (current_revision types Url S database doc st, current doc st);
    revision_with_id =
        λ revid doc st. revision_with_rev_id types Url S database (some revid) true doc st;
    get_revision_history = λ doc st. elim (current doc st) [
      | none ↦ none
      | some saved ↦
          get_revision_history types Url S database (current_revision types Url S database doc st)
            saved st
    ];
    get_conflicting_revisions = leaf_revisions types Url S database false;
    get_leaf_revisions = leaf_revisions types Url S database true;
    new_revision = new_revision types Url S database;
  }

  unfoldable pub document_properties : DocumentProperties (Document types Url S)
  document_properties = record {
    properties = current_properties;
    user_properties = λ doc st. Option.map (user_properties types) (current_properties doc st);
    property_for_key = λ key doc st. Option.bind (current_properties doc st) (object_for types key);
    put_properties = put types Url S database;
    update = update types Url S database;
    put_existing_revision = put_existing_revision types Url S database;
  }
