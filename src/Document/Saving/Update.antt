-- ===== src/Document/Saving/Update.antt =====
-- Source/API/CBLDocument.m, `update:error:`: the loop ends.
use couchbase_lite_ios.Base.{
  ℕ, suc, ◌≡◌, ◌≢◌, refl, sym, ap, ◌∙◌, Bool, true, false, not, ◌||◌, Option, none, some, ◌==◌,
  if◌then◌else◌, arith,
}
use couchbase_lite_ios.Base.Bytes.{Bytes}
use couchbase_lite_ios.RevId.{TreeRevId, as_string}
use couchbase_lite_ios.Revision.{Revision}
use couchbase_lite_ios.Status.{is_error}
use couchbase_lite_ios.Document.Properties.{PropertyTypes, Properties}
use couchbase_lite_ios.Document.Access.{
  DocumentDatabase, Document, SavedRevision, UnsavedRevision, current_revision, revision_from_rev,
  fetched, forget_current_revision,
}
use couchbase_lite_ios.Document.Revisions.{new_revision, init_with_parent, revision_id}
use couchbase_lite_ios.Document.Saving.{
  status_conflict, status_from_error, save, Updated, out_of_fuel, after_save, after_block,
  refreshed, update_loop, update,
}
use couchbase_lite_ios.Differ.Steps.{pick-lem}
use mathlib.Core.Option
use couchbase_lite_ios.Document.Saving.Quiet.{current_rev_id, IsQuiet, save-no_conflict}

module _ (types : PropertyTypes) (Url S : Type 0) (database : DocumentDatabase types Url S) where
  abbrev Fetched : Type 0
  Fetched = Option (Revision (Properties types)) × ℕ

  -- The parent of a new revision of a document that has read `g`, and reads it again if it has to.
  abbrev parent_id : Document types Url S → S → Fetched → Option Bytes
  unfolding fetched forget_current_revision
  parent_id doc st g =
      let d = fetched types Url S (forget_current_revision types Url S doc) g in
      (init_with_parent types Url S database doc.doc_id
        (if d.known then d else fetched types Url S d g).current st).unsaved_parent_rev_id

  parent_id-none :
      (doc : Document types Url S) (st : S) (status : ℕ) → parent_id doc st (none, status) ≡ none
  unfolding parent_id fetched forget_current_revision revision_from_rev init_with_parent
  parent_id-none doc st status =
      pick-lem
        (λ (d : Document types Url S).
          (init_with_parent types Url S database doc.doc_id d.current st).unsaved_parent_rev_id
          ≡ none)
        (status == 404 || not (is_error status)) _ _ (λ e. refl) (λ e. refl)

  parent_id-some :
      (doc : Document types Url S) (st : S) (status : ℕ) (rev : Revision (Properties types))
      (revid : Option TreeRevId)
      → parent_id doc st (some (record rev { rev_id = revid }), status)
        ≡ Option.bind revid as_string
  unfolding parent_id fetched forget_current_revision revision_from_rev init_with_parent revision_id
      Option.bind
  parent_id-some doc st status rev none =
      pick-lem
        (λ (d : Document types Url S).
          (init_with_parent types Url S database doc.doc_id d.current st).unsaved_parent_rev_id
          ≡ none)
        (status == 404 || not (is_error status)) _ _ (λ e. refl) (λ e. refl)
  parent_id-some doc st status rev (some revid) = refl

  parent_id_lem :
      (doc : Document types Url S) (st : S) (g : Fetched)
      → parent_id doc st g
        ≡ Option.bind
            (Option.bind g.0 (λ (rev : Revision (Properties types)). rev.rev_id))
            as_string
  unfolding Option.bind
  parent_id_lem doc st (none, status) = parent_id-none doc st status
  parent_id_lem doc st (some rev, status) = parent_id-some doc st status rev rev.rev_id

  new_revision-parent :
      IsQuiet types Url S database
      → (doc : Document types Url S) (st : S)
      → (new_revision types Url S database
          (refreshed types Url S database true doc st)
          st).unsaved_parent_rev_id
        ≡ current_rev_id types Url S database doc.doc_id st
  unfolding new_revision refreshed current_revision parent_id fetched forget_current_revision
  new_revision-parent quiet doc st =
      parent_id_lem doc st (database.get_document doc.doc_id none true st)
      ∙ quiet.ids_are_texts doc.doc_id st

  -- The loop has come to an end.
  abbrev pub HasEnded : (Updated types Url S database × Document types Url S) × S → Type 0
  HasEnded r = r.0.0 ≢ out_of_fuel

  after_save-HasEnded :
      (doc : Document types Url S)
      (rest : (Updated types Url S database × Document types Url S) × S)
      (o : Option (SavedRevision types Url S)) (error : Option ℕ) (st : S)
      → (status_from_error error ≡ status_conflict → HasEnded rest)
      → HasEnded (after_save types Url S database doc rest ((o, error), st))
  after_save-HasEnded doc rest (some done) error st h = λ e. cc e
  after_save-HasEnded doc rest none error st h =
      pick-lem HasEnded (status_from_error error == status_conflict) _ _
        (λ e. h (ground (arith, e))) (λ e e'. cc e')

  after_block-HasEnded :
      (next : Document types Url S → S → (Updated types Url S database × Document types Url S) × S)
      (doc : Document types Url S) (unsaved : UnsavedRevision types Url S) (st : S)
      (o : Option (Properties types))
      → ((properties : Properties types)
          → status_from_error
              (save types Url S database
                (record unsaved { unsaved_properties = properties })
                doc
                st).0.1
            ≡ status_conflict
          → (st' : S) → HasEnded (next doc st'))
      → HasEnded (after_block types Url S database next doc unsaved st o)
  unfolding after_block
  after_block-HasEnded next doc unsaved st none h = λ e. cc e
  after_block-HasEnded next doc unsaved st (some properties) h =
      let attempt =
        save types Url S database (record unsaved { unsaved_properties = properties }) doc st in
      after_save-HasEnded doc (next doc attempt.1) attempt.0.0 attempt.0.1 attempt.1
        (λ conflict. h properties conflict attempt.1)

  refreshed-doc_id :
      (conflicted : Bool) (doc : Document types Url S) (st : S)
      → (refreshed types Url S database conflicted doc st).doc_id ≡ doc.doc_id
  unfolding refreshed current_revision fetched forget_current_revision
  refreshed-doc_id true doc st = refl
  refreshed-doc_id false doc st =
      pick-lem (λ (d : Document types Url S). d.doc_id ≡ doc.doc_id) doc.known _ _ (λ e. refl)
        (λ e. refl)

  -- After a conflict, one more pass of the loop is enough.
  update_loop-HasEnded :
      IsQuiet types Url S database
      → (block : UnsavedRevision types Url S → Option (Properties types)) (fuel : ℕ)
        (doc : Document types Url S) (st : S)
      → HasEnded (update_loop types Url S database (suc fuel) block true doc st)
  unfolding update_loop
  update_loop-HasEnded quiet block fuel doc st =
      after_block-HasEnded (update_loop types Url S database fuel block true)
        (refreshed types Url S database true doc st)
        (new_revision types Url S database (refreshed types Url S database true doc st) st) st _
        (λ properties conflict st'. absurd (
          save-no_conflict types Url S database quiet (refreshed types Url S database true doc st)
            (record (new_revision types Url S database (refreshed types Url S database true doc st)
              st) { unsaved_properties = properties })
            st
            (new_revision-parent quiet doc st
              ∙ ap (λ doc_id. current_rev_id types Url S database doc_id st)
                  (sym (refreshed-doc_id true doc st)))
            conflict))

  -- `update:error:` ends after two passes of its loop at most, whatever revision the document has cached: its
  -- fuel does not run out when nobody else writes to the database and a revision ID is a text.
  pub update-HasEnded :
      IsQuiet types Url S database
      → (block : UnsavedRevision types Url S → Option (Properties types)) (fuel : ℕ)
        (doc : Document types Url S) (st : S)
      → (update types Url S database (suc (suc fuel)) block doc st).0.0 ≢ out_of_fuel
  unfolding update update_loop
  update-HasEnded quiet block fuel doc st =
      after_block-HasEnded (update_loop types Url S database (suc fuel) block true)
        (refreshed types Url S database false doc st)
        (new_revision types Url S database (refreshed types Url S database false doc st) st) st _
        (λ properties conflict st'.
          update_loop-HasEnded quiet block fuel (refreshed types Url S database false doc st) st')
