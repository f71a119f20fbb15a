-- ===== src/Document/Revisions.antt =====
-- Source/API/CBLRevision.m: the methods of saved and unsaved revisions that read the database. A weak reference to
-- a document that is gone is left out. A saved revision that loads its properties is returned anew.
use couchbase_lite_ios.Base.{
  ℕ, ltb, Bool, true, false, not, ◌||◌, Option, none, some, List, [], ◌∷◌, ◌++◌, if◌then◌else◌,
}
use couchbase_lite_ios.Base.Bytes.{Bytes, codes}
use couchbase_lite_ios.RevId.{TreeRevId, as_string}
use couchbase_lite_ios.Revision.{Revision, is_given, equal_or_nil}
use couchbase_lite_ios.Document.Properties.{
  PropertyTypes, Properties, object_for, set_object, cbl_id, cbl_deleted, is_removed,
  cbl_attachments,
}
use couchbase_lite_ios.Document.Access.{
  DocumentDatabase, Document, SavedRevision, UnsavedRevision, current_revision, revision_from_rev,
  revision_with_rev_id,
}
use mathlib.Core.Option

module _ (types : PropertyTypes) (Url S : Type 0) (database : DocumentDatabase types Url S) where
  open types use {
    Object, Attachment, string_object, dictionary_object, attachment_object, dictionary_of,
    attachment_of, metadata,
  }

  unfoldable pub revision_id : SavedRevision types Url S → Option Bytes
  revision_id saved = Option.bind saved.rev.rev_id as_string

  -- `loadProperties`; the second result is what it returns.
  unfoldable pub load_properties : SavedRevision types Url S → S → SavedRevision types Url S × Bool
  load_properties saved st = elim ((database.load_body saved.rev st).0) [
    | none ↦ (saved, false)
    | some rev ↦ (record saved { rev = rev }, true)
  ]

  abbrev pub with_properties : SavedRevision types Url S → S → SavedRevision types Url S
  unfolding load_properties
  with_properties saved st = elim saved.rev.body [
    | none ↦ (load_properties saved st).0
    | some body ↦
        if is_given (cbl_id types body)
        then saved
        else record saved { rev = database.add_basic_metadata saved.rev }
  ]

  -- `properties`: they are those of the `rev` of the result.
  unfoldable pub saved_properties : SavedRevision types Url S → S → SavedRevision types Url S
  unfolding with_properties
  saved_properties saved st =
      if saved.checked_properties
      then saved
      else record (with_properties saved st) { checked_properties = true }

  unfoldable pub saved_sequence : SavedRevision types Url S → S → ℕ
  unfolding load_properties
  saved_sequence saved st =
      if ltb 0 saved.rev.sequence
      then saved.rev.sequence
      else (let loaded = load_properties saved st in if loaded.1 then loaded.0.rev.sequence else 0)

  unfoldable pub properties_available : SavedRevision types Url S → Bool
  properties_available saved = not saved.rev.missing

  unfoldable pub is_gone : SavedRevision types Url S → S → Bool
  unfolding saved_properties
  is_gone saved st = elim (saved_properties saved st).rev.body [
    | none ↦ false
    | some body ↦ cbl_deleted types body || is_removed types body
  ]

  unfoldable pub parent_revision :
      Document types Url S → SavedRevision types Url S → S → Option (SavedRevision types Url S)
  unfolding revision_with_rev_id revision_from_rev
  parent_revision doc saved st = elim saved.parent_rev_id [
    | some parent ↦ revision_with_rev_id types Url S database (some parent) true doc st
    | none ↦ revision_from_rev types Url S doc (database.get_parent_revision saved.rev st)
  ]

  unfoldable pub parent_revision_id : SavedRevision types Url S → S → Option Bytes
  parent_revision_id saved st = elim saved.parent_rev_id [
    | some parent ↦ some parent
    | none ↦
        Option.bind (database.get_parent_revision saved.rev st)
          (λ (rev : Revision (Properties types)). Option.bind rev.rev_id as_string)
  ]

  -- The loop of `getRevisionHistory:`; a nil that is inserted into an array is an exception, here `none`.
  unfoldable pub history_from :
      Document types Url S
      → SavedRevision types Url S
      → List TreeRevId
      → S
      → Option (List (SavedRevision types Url S))
  unfolding revision_with_rev_id
  history_from doc saved [] st = some []
  history_from doc saved (revid ∷ revids) st =
      let rest = history_from doc saved revids st in
      elim (if equal_or_nil (some revid) saved.rev.rev_id
        then some saved
        else revision_with_rev_id types Url S database (some revid) false doc st) [
          | none ↦ none
          | some found ↦ Option.map (λ older. older ++ (found ∷ [])) rest
        ]

  unfoldable pub get_revision_history :
      Document types Url S
      → SavedRevision types Url S
      → S
      → Option (List (SavedRevision types Url S))
  unfolding history_from
  get_revision_history doc saved st =
      history_from doc saved (database.get_revision_history saved.rev none st) st

  abbrev pub first_properties : Bytes → Option Bytes → Properties types
  first_properties doc_id none = (codes "_id", string_object doc_id) ∷ []
  first_properties doc_id (some parent) =
      (codes "_id", string_object doc_id) ∷ (codes "_rev", string_object parent) ∷ []

  -- `initWithDocument:parent:` of an unsaved revision
  unfoldable pub init_with_parent :
      Bytes → Option (SavedRevision types Url S) → S → UnsavedRevision types Url S
  unfolding revision_id saved_properties
  init_with_parent doc_id none st = record {
    unsaved_parent_rev_id = none;
    unsaved_properties = first_properties doc_id none;
  }
  init_with_parent doc_id (some parent) st = record {
    unsaved_parent_rev_id = revision_id parent;
    unsaved_properties =
        Option.get_or (saved_properties parent st).rev.body
          (first_properties doc_id (revision_id parent));
  }

  unfoldable pub new_revision : Document types Url S → S → UnsavedRevision types Url S
  unfolding init_with_parent
  new_revision doc st =
      init_with_parent doc.doc_id (current_revision types Url S database doc st).current st

  unfoldable pub unsaved_parent :
      Document types Url S → UnsavedRevision types Url S → S → Option (SavedRevision types Url S)
  unfolding revision_with_rev_id
  unsaved_parent doc unsaved st =
      revision_with_rev_id types Url S database unsaved.unsaved_parent_rev_id true doc st

  -- `_addAttachment:named:`, where nil removes the attachment.
  unfoldable pub add_attachment :
      Option Attachment → Bytes → UnsavedRevision types Url S → UnsavedRevision types Url S
  unfolding set_object
  add_attachment attachment name unsaved =
      let given = Option.get_or (cbl_attachments types unsaved.unsaved_properties) [] in
      record unsaved {
        unsaved_properties =
            set_object types (codes "_attachments")
              (some (
                dictionary_object
                  (set_object types name (Option.map attachment_object attachment) given)))
              unsaved.unsaved_properties;
      }

  abbrev pub keys_of : Properties types → List Bytes
  keys_of [] = []
  keys_of ((k, v) ∷ rest) = k ∷ keys_of rest

  unfoldable pub attachment_names : Properties types → Option (List Bytes)
  attachment_names properties = Option.map keys_of (cbl_attachments types properties)

  -- `attachmentNamed:`; `from_metadata` makes an attachment of a revision from its dictionary.
  unfoldable pub attachment_named :
      (Bytes → List (Bytes × Object) → Attachment) → Bytes → Properties types → Option Attachment
  unfolding object_for
  attachment_named from_metadata name properties =
      elim (Option.bind (cbl_attachments types properties) (object_for types name)) [
        | none ↦ none
        | some v ↦ elim (attachment_of v) [
          | some attachment ↦ some attachment
          | none ↦ Option.map (from_metadata name) (dictionary_of v)
        ]
      ]
