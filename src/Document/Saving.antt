-- ===== src/Document/Saving.antt =====
-- Source/API/CBLDocument.m and CBLRevision.m: the methods that write to the database. An error is its status, and
-- `none` is nil.
pub mod Quiet
pub mod Update
use couchbase_lite_ios.Base.{
  ℕ, zero, suc, Bool, true, false, not, ◌&&◌, ◌||◌, Option, none, some, List, [], ◌∷◌, ◌==◌,
  if◌then◌else◌,
}
use couchbase_lite_ios.Base.Bytes.{Bytes, codes, equal}
use couchbase_lite_ios.RevId.{TreeRevId}
use couchbase_lite_ios.Revision.{Revision}
use couchbase_lite_ios.Status.{is_error}
use couchbase_lite_ios.Document.Properties.{
  PropertyTypes, Properties, set_object, object_for, cbl_id, cbl_rev, cbl_deleted, cbl_attachments,
}
use couchbase_lite_ios.Document.Access.{
  Put, DocumentDatabase, Document, SavedRevision, UnsavedRevision, current_revision,
  revision_from_rev, forget_current_revision,
}
use couchbase_lite_ios.Document.Revisions.{new_revision}
use mathlib.Core.Option

-- The statuses of a conflict, and of an error that is nil.
abbrev pub status_conflict : ℕ
status_conflict = 409

abbrev pub status_from_error : Option ℕ → ℕ
status_from_error none = 500
status_from_error (some status) = status

module _ (types : PropertyTypes) (Url S : Type 0) (database : DocumentDatabase types Url S) where
  open types use {
    Object, Attachment, true_object, dictionary_object, attachment_of, metadata, string_of,
  }

  -- Properties, or nil with an error.
  abbrev pub Prepared : Type 0
  Prepared = Option (Properties types) × Option ℕ

  -- New entries, an error if there was one, and the database.
  abbrev pub Expansion : Type 0
  Expansion = (Properties types × Option ℕ) × S

  abbrev pub with_entry : Bytes → Object → Expansion → Expansion
  with_entry name v ((entries, error), st) = (((name, v) ∷ entries, error), st)

  abbrev pub after_attachment :
      Bytes → Object → Properties types → (S → Expansion) → Option ℕ × S → Expansion
  after_attachment name v rest others (some error, st) = (((name, v) ∷ rest, some error), st)
  after_attachment name v rest others (none, st) = with_entry name v (others st)

  abbrev pub expand_entry :
      Bytes → Object → Properties types → S → (S → Expansion) → Option Attachment → Expansion
  expand_entry name v rest st others none = with_entry name v (others st)
  expand_entry name v rest st others (some attachment) =
      after_attachment name (metadata attachment) rest others
        (database.save_attachment attachment st)

  -- The values of `_attachments`, where attachments are saved and replaced by their metadata; after an error
  -- the others are left alone.
  unfoldable pub expand : Properties types → S → Expansion
  expand [] st = (([], none), st)
  expand ((name, v) ∷ rest) st = expand_entry name v rest st (expand rest) (attachment_of v)

  unfoldable pub expanded : Properties types → Expansion → Prepared × S
  unfolding set_object
  expanded properties ((attachments, some error), st) = ((none, some error), st)
  expanded properties ((attachments, none), st) = (
    (
      some (
          set_object types (codes "_attachments") (some (dictionary_object attachments))
            properties),
      none,
    ),
    st,
  )

  -- The string under "_id" is missing or is the document's ID.
  abbrev pub is_id_of : Bytes → Option Bytes → Bool
  is_id_of doc_id none = true
  is_id_of doc_id (some given) = equal given doc_id

  unfoldable pub with_attachments : Properties types → S → Option (Properties types) → Prepared × S
  unfolding expand
  with_attachments properties st none = ((some properties, none), st)
  with_attachments properties st (some []) = ((some properties, none), st)
  with_attachments properties st (some (a ∷ attachments)) =
      expanded properties (expand (a ∷ attachments) st)

  unfoldable pub properties_to_insert : Bytes → Option (Properties types) → S → Prepared × S
  unfolding with_attachments
  properties_to_insert doc_id none st = ((some ((codes "_deleted", true_object) ∷ []), none), st)
  properties_to_insert doc_id (some properties) st =
      if not (is_id_of doc_id (cbl_id types properties))
      then ((none, some 400), st)
      else with_attachments properties st (cbl_attachments types properties)

  -- The saved revision, or nil with an error.
  abbrev pub Saved : Type 0
  Saved = Option (SavedRevision types Url S) × Option ℕ

  unfoldable pub put_prepared :
      Option TreeRevId → Bool → Document types Url S → Prepared × S → Saved × S
  unfolding revision_from_rev
  put_prepared prev allow_conflict doc ((none, error), st) = ((none, error), st)
  put_prepared prev allow_conflict doc ((some properties, error), st) =
      let put = database.put_doc_id doc.doc_id properties prev allow_conflict st in
      ((revision_from_rev types Url S doc put.0.revision, put.0.error), put.1)

  -- `putProperties:prevRevID:allowConflict:error:`
  unfoldable pub put_properties :
      Option (Properties types) → Option TreeRevId → Bool → Document types Url S → S → Saved × S
  unfolding properties_to_insert put_prepared
  put_properties properties prev allow_conflict doc st =
      put_prepared prev allow_conflict doc (properties_to_insert doc.doc_id properties st)

  -- `putProperties:error:`
  unfoldable pub put : Properties types → Document types Url S → S → Saved × S
  unfolding put_properties
  put properties doc st = put_properties (some properties) (cbl_rev types properties) false doc st

  unfoldable pub save : UnsavedRevision types Url S → Document types Url S → S → Saved × S
  unfolding put_properties
  save unsaved doc st =
      put_properties (some unsaved.unsaved_properties) unsaved.unsaved_parent_rev_id false doc st

  unfoldable pub save_allowing_conflict :
      UnsavedRevision types Url S → Document types Url S → S → Saved × S
  unfolding put_properties
  save_allowing_conflict unsaved doc st =
      put_properties (some unsaved.unsaved_properties) unsaved.unsaved_parent_rev_id true doc st

  -- `createRevisionWithProperties:error:` of a saved revision
  unfoldable pub create_revision_with_properties :
      Option (Properties types) → SavedRevision types Url S → Document types Url S → S → Saved × S
  unfolding put_properties
  create_revision_with_properties properties saved doc st =
      put_properties properties saved.rev.rev_id false doc st

  -- `deleteDocument:`, which does nothing without a current revision.
  unfoldable pub delete_document : Document types Url S → S → (Bool × Option ℕ) × S
  unfolding create_revision_with_properties current_revision
  delete_document doc st =
      let doc' = current_revision types Url S database doc st in
      elim doc'.current [
        | none ↦ ((false, none), st)
        | some saved ↦
            let done = create_revision_with_properties none saved doc' st in
            ((elim done.0.0 [ none ↦ false | some deleted ↦ true ], done.0.1), done.1)
      ]

  -- `purgeDocument:`, where the database forgets its object too.
  unfoldable pub purge_document : Document types Url S → S → (Bool × Option ℕ) × S
  purge_document doc st =
      let purged = database.purge_revisions doc.doc_id st in
      if is_error purged.0 then ((false, some purged.0), purged.1) else ((true, none), purged.1)

  abbrev pub inserted_existing : ℕ × S → Bool × S
  inserted_existing (status, st) = (not (is_error status), st)

  abbrev pub registered :
      Revision (Properties types) → List TreeRevId → Option Url → Option ℕ × S → Bool × S
  registered rev history source (some error, st) = (false, st)
  registered rev history source (none, st) =
      inserted_existing (database.force_insert rev history source st)

  abbrev pub existing_revision :
      Bytes → TreeRevId → Bool → Properties types → Revision (Properties types)
  existing_revision doc_id revid deleted properties = record {
    body = some properties;
    doc_id = some doc_id;
    rev_id = some revid;
    sequence = 0;
    deleted = deleted;
    missing = false;
  }

  abbrev pub put_existing :
      Bool
      → Properties types
      → TreeRevId
      → List TreeRevId
      → Option Url
      → Document types Url S
      → Prepared × S
      → Bool × S
  put_existing deleted attachments revid history source doc ((none, error), st) = (false, st)
  put_existing deleted attachments revid history source doc ((some properties, error), st) =
      let rev = existing_revision doc.doc_id revid deleted properties in
      registered rev (revid ∷ history) source (database.register_attachments attachments rev st)

  -- `putExistingRevisionWithProperties:…`, with a history that is not empty.
  unfoldable pub put_existing_revision :
      Properties types
      → Properties types
      → TreeRevId
      → List TreeRevId
      → Option Url
      → Document types Url S
      → S
      → Bool × S
  unfolding properties_to_insert
  put_existing_revision properties attachments revid history source doc st =
      put_existing (cbl_deleted types properties) attachments revid history source doc
        (properties_to_insert doc.doc_id (some properties) st)

  -- How the loop of `update:` ends, if the fuel is enough.
  pub data Updated : Type 0 where
    saved : SavedRevision types Url S → Updated
    failed : Option ℕ → Updated
    out_of_fuel : Updated

  -- What follows a call of `save:`; `rest` is the loop that goes on after a conflict.
  abbrev pub after_save :
      Document types Url S
      → (Updated × Document types Url S) × S
      → Saved × S
      → (Updated × Document types Url S) × S
  after_save doc rest ((some done, error), st) = ((saved done, doc), st)
  after_save doc rest ((none, error), st) =
      if status_from_error error == status_conflict then rest else ((failed error, doc), st)

  -- The document after the cached revision is dropped, if there was a conflict, and the current one is read.
  unfoldable pub refreshed : Bool → Document types Url S → S → Document types Url S
  unfolding current_revision forget_current_revision
  refreshed conflicted doc st =
      current_revision types Url S database
        (if conflicted then forget_current_revision types Url S doc else doc) st

  -- What follows the block, which returned new properties, or cancelled; `next` is the loop that goes on.
  unfoldable pub after_block :
      (Document types Url S → S → (Updated × Document types Url S) × S)
      → Document types Url S
      → UnsavedRevision types Url S
      → S
      → Option (Properties types)
      → (Updated × Document types Url S) × S
  unfolding save
  after_block next doc unsaved st none = ((failed none, doc), st)
  after_block next doc unsaved st (some properties) =
      let attempt = save (record unsaved { unsaved_properties = properties }) doc st in
      after_save doc (next doc attempt.1) attempt

  -- The loop of `update:error:`, whose body runs as often as the fuel allows.
  unfoldable pub update_loop :
      ℕ
      → (UnsavedRevision types Url S → Option (Properties types))
      → Bool
      → Document types Url S
      → S
      → (Updated × Document types Url S) × S
  unfolding after_block new_revision refreshed
  update_loop zero block conflicted doc st = ((out_of_fuel, doc), st)
  update_loop (suc fuel) block conflicted doc st =
      let doc' = refreshed conflicted doc st in
      let unsaved = new_revision types Url S database doc' st in
      after_block (update_loop fuel block true) doc' unsaved st (block unsaved)

  unfoldable pub update :
      ℕ
      → (UnsavedRevision types Url S → Option (Properties types))
      → Document types Url S
      → S
      → (Updated × Document types Url S) × S
  unfolding update_loop
  update fuel block doc st = update_loop fuel block false doc st
