-- ===== src/Document/Change.antt =====
-- Source/API/CBLDatabaseChange.h and Source/CBLDatabaseChange.m: a change of a database. `none` is nil.
use couchbase_lite_ios.Base.{ltb, Bool, true, false, Option, none, some, if◌then◌else◌}
use couchbase_lite_ios.Base.Bytes.{Bytes}
use couchbase_lite_ios.RevId.{TreeRevId, as_string}
use couchbase_lite_ios.Revision.{Revision, equal_or_nil}
use mathlib.Core.Option

module _ (Body Url : Type 0) where
  pub record DatabaseChange : Type 0 where
    pub document_id : Option Bytes
    pub added_revision : Option (Revision Body)
    pub winning_revision_id : Option TreeRevId
    pub in_conflict : Bool
    pub source : Option Url
    pub echoed : Bool

  -- A revision that has no sequence fails an assertion.
  unfoldable pub init_with_added_revision :
      Revision Body → Option TreeRevId → Bool → Option Url → Option DatabaseChange
  init_with_added_revision added winning maybe_conflict source =
      if ltb 0 added.sequence
      then some (record {
        document_id = added.doc_id;
        added_revision = some added;
        winning_revision_id = winning;
        in_conflict = maybe_conflict;
        source = source;
        echoed = false;
      })
      else none

  unfoldable pub init_with_purged_document : Bytes → DatabaseChange
  init_with_purged_document doc_id = record {
    document_id = some doc_id;
    added_revision = none;
    winning_revision_id = none;
    in_conflict = false;
    source = none;
    echoed = false;
  }

  unfoldable pub copy_change : DatabaseChange → DatabaseChange
  copy_change change = record change { echoed = true }

  unfoldable pub change_revision_id : DatabaseChange → Option TreeRevId
  change_revision_id change =
      Option.bind change.added_revision
        (λ (added : Revision Body). Option.bind added.rev_id as_string)

  unfoldable pub change_is_deletion : DatabaseChange → Bool
  change_is_deletion change = elim change.added_revision [
    | none ↦ false
    | some added ↦ added.deleted
  ]

  unfoldable pub is_current_revision : DatabaseChange → Bool
  is_current_revision change = elim change.winning_revision_id [
    | none ↦ false
    | some winning ↦
        equal_or_nil (Option.bind change.added_revision (λ (added : Revision Body). added.rev_id))
          (some winning)
  ]

  unfoldable pub winning_revision_if_known : DatabaseChange → Option (Revision Body)
  unfolding is_current_revision
  winning_revision_if_known change =
      if is_current_revision change then change.added_revision else none

  -- The properties of the header.
  pub record ChangeProperties (C : Type 0) : Type 0 where
    pub document_id : C → Option Bytes
    pub revision_id : C → Option TreeRevId
    pub is_current_revision : C → Bool
    pub in_conflict : C → Bool
    pub is_deletion : C → Bool
    pub source : C → Option Url

  unfoldable pub change_properties : ChangeProperties DatabaseChange
  change_properties = record {
    document_id = λ change. change.document_id;
    revision_id = change_revision_id;
    is_current_revision = is_current_revision;
    in_conflict = λ change. change.in_conflict;
    is_deletion = change_is_deletion;
    source = λ change. change.source;
  }
