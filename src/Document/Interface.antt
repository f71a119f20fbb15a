-- ===== src/Document/Interface.antt =====
-- Source/API/CBLDocument.h and CBLRevision.h: the public methods as records, and their implementation by
-- Source/API/CBLDocument.m and CBLRevision.m. A method whose result depends on the database takes its state. The
-- references to the database, the document and the model object are left out.
use couchbase_lite_ios.Base.{Bool, ◌||◌, Option, none, some, List, [], ◌∷◌}
use couchbase_lite_ios.Base.Bytes.{Bytes}
use couchbase_lite_ios.Document.Properties.{
  PropertyTypes, Properties, object_for, set_object, user_properties, set_user_properties,
  set_is_deletion, cbl_deleted, is_removed,
}
use couchbase_lite_ios.Document.Access.{DocumentDatabase, Document, SavedRevision, UnsavedRevision}
use couchbase_lite_ios.Document.Revisions.{
  revision_id, saved_properties, properties_available, is_gone, parent_revision, parent_revision_id,
  get_revision_history, init_with_parent, unsaved_parent, add_attachment, attachment_names,
  attachment_named,
}
use couchbase_lite_ios.Document.Saving.{
  Saved, save, save_allowing_conflict, create_revision_with_properties,
}
use mathlib.Core.Option

module _ (types : PropertyTypes) (Url S : Type 0) (database : DocumentDatabase types Url S)
    (from_metadata : Bytes → List (Bytes × types.Object) → types.Attachment) where
  open types use {Object, Attachment}

  -- `CBLRevision`, of a document
  pub record RevisionClass (R : Type 0) : Type 0 where
    pub is_deletion : R → S → Bool
    pub is_gone : R → S → Bool
    pub revision_id : R → Option Bytes
    pub parent_revision : Document types Url S → R → S → Option (SavedRevision types Url S)
    pub parent_revision_id : R → S → Option Bytes
    pub get_revision_history :
        Document types Url S → R → S → Option (List (SavedRevision types Url S))
    pub properties : R → S → Option (Properties types)
    pub user_properties : R → S → Option (Properties types)
    pub property_for_key : Bytes → R → S → Option Object
    pub attachment_names : R → S → Option (List Bytes)
    pub attachment_named : Bytes → R → S → Option Attachment
    pub attachments : R → S → Option (List Attachment)

  -- What `CBLSavedRevision` adds.
  pub record SavedRevisionClass (R U : Type 0) : Type 0 where
    pub properties_available : R → Bool
    pub create_revision : Document types Url S → R → S → U
    pub create_revision_with_properties :
        Option (Properties types) → R → Document types Url S → S → Saved types Url S database × S
    pub delete_document : R → Document types Url S → S → Saved types Url S database × S

  -- What `CBLUnsavedRevision` adds. Of an attachment with contents, it is the attachment that is given.
  pub record UnsavedRevisionClass (U : Type 0) : Type 0 where
    pub set_is_deletion : Bool → U → U
    pub set_properties : Properties types → U → U
    pub set_user_properties : Option (Properties types) → U → U
    pub set_object : Option Object → Bytes → U → U
    pub save : U → Document types Url S → S → Saved types Url S database × S
    pub save_allowing_conflict : U → Document types Url S → S → Saved types Url S database × S
    pub set_attachment_named : Bytes → Attachment → U → U
    pub remove_attachment_named : Bytes → U → U

  -- The properties of a saved revision, loaded if need be.
  abbrev pub loaded : SavedRevision types Url S → S → Option (Properties types)
  unfolding saved_properties
  loaded saved st = (saved_properties types Url S database saved st).rev.body

  abbrev pub properties_user : Option (Properties types) → Option (Properties types)
  unfolding user_properties
  properties_user properties = Option.map (user_properties types) properties

  abbrev pub object_of : Bytes → Option (Properties types) → Option Object
  unfolding object_for
  object_of key properties = Option.bind properties (object_for types key)

  abbrev pub names_of : Option (Properties types) → Option (List Bytes)
  unfolding attachment_names
  names_of properties = Option.bind properties (attachment_names types Url S database)

  abbrev pub named_of : Bytes → Option (Properties types) → Option Attachment
  unfolding attachment_named
  named_of name properties =
      Option.bind properties (attachment_named types Url S database from_metadata name)

  -- `my_map`, which leaves nil out.
  unfoldable pub all_named : List Bytes → Option (Properties types) → List Attachment
  unfolding named_of
  all_named [] properties = []
  all_named (name ∷ names) properties = elim (named_of name properties) [
    | none ↦ all_named names properties
    | some attachment ↦ attachment ∷ all_named names properties
  ]

  abbrev pub attachments_of : Option (Properties types) → Option (List Attachment)
  unfolding all_named names_of
  attachments_of properties = Option.map (λ names. all_named names properties) (names_of properties)

  unfoldable pub saved_revision : RevisionClass (SavedRevision types Url S)
  saved_revision = record {
    is_deletion = λ saved st. saved.rev.deleted;
    is_gone = is_gone types Url S database;
    revision_id = revision_id types Url S database;
    parent_revision = parent_revision types Url S database;
    parent_revision_id = parent_revision_id types Url S database;
    get_revision_history = get_revision_history types Url S database;
    properties = loaded;
    user_properties = λ saved st. properties_user (loaded saved st);
    property_for_key = λ key saved st. object_of key (loaded saved st);
    attachment_names = λ saved st. names_of (loaded saved st);
    attachment_named = λ name saved st. named_of name (loaded saved st);
    attachments = λ saved st. attachments_of (loaded saved st);
  }

  unfoldable pub saved_revision_methods :
      SavedRevisionClass (SavedRevision types Url S) (UnsavedRevision types Url S)
  saved_revision_methods = record {
    properties_available = properties_available types Url S database;
    create_revision =
        λ doc saved st. init_with_parent types Url S database doc.doc_id (some saved) st;
    create_revision_with_properties = create_revision_with_properties types Url S database;
    delete_document = create_revision_with_properties types Url S database none;
  }

  -- The history of the parent, or an empty one.
  abbrev pub history_of_unsaved :
      Document types Url S
      → UnsavedRevision types Url S
      → S
      → Option (List (SavedRevision types Url S))
  unfolding unsaved_parent get_revision_history
  history_of_unsaved doc unsaved st = elim (unsaved_parent types Url S database doc unsaved st) [
    | none ↦ some []
    | some parent ↦ get_revision_history types Url S database doc parent st
  ]

  unfoldable pub unsaved_revision : RevisionClass (UnsavedRevision types Url S)
  unsaved_revision = record {
    is_deletion = λ unsaved st. cbl_deleted types unsaved.unsaved_properties;
    is_gone = λ unsaved st.
        cbl_deleted types unsaved.unsaved_properties || is_removed types unsaved.unsaved_properties;
    revision_id = λ unsaved. none;
    parent_revision = unsaved_parent types Url S database;
    parent_revision_id = λ unsaved st. unsaved.unsaved_parent_rev_id;
    get_revision_history = history_of_unsaved;
    properties = λ unsaved st. some unsaved.unsaved_properties;
    user_properties = λ unsaved st. properties_user (some unsaved.unsaved_properties);
    property_for_key = λ key unsaved st. object_of key (some unsaved.unsaved_properties);
    attachment_names = λ unsaved st. names_of (some unsaved.unsaved_properties);
    attachment_named = λ name unsaved st. named_of name (some unsaved.unsaved_properties);
    attachments = λ unsaved st. attachments_of (some unsaved.unsaved_properties);
  }

  abbrev pub with_unsaved :
      (Properties types → Properties types)
      → UnsavedRevision types Url S
      → UnsavedRevision types Url S
  with_unsaved change unsaved = record unsaved {
    unsaved_properties = change unsaved.unsaved_properties;
  }

  unfoldable pub unsaved_revision_methods : UnsavedRevisionClass (UnsavedRevision types Url S)
  unsaved_revision_methods = record {
    set_is_deletion = λ deleted. with_unsaved (set_is_deletion types deleted);
    set_properties = λ properties. with_unsaved (λ old. properties);
    set_user_properties = λ given. with_unsaved (set_user_properties types given);
    set_object = λ v key. with_unsaved (set_object types key v);
    save = save types Url S database;
    save_allowing_conflict = save_allowing_conflict types Url S database;
    set_attachment_named =
        λ name attachment. add_attachment types Url S database (some attachment) name;
    remove_attachment_named = add_attachment types Url S database none;
  }
