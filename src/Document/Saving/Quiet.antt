-- ===== src/Document/Saving/Quiet.antt =====
-- Source/API/CBLDocument.m: what is saved below the current revision of a database that nobody else changes is no
-- conflict.
use couchbase_lite_ios.Base.{
  ℕ, ◌≡◌, ◌≢◌, refl, sym, ◌∙◌, true, false, not, Option, none, some, [], ◌∷◌, arith,
}
use couchbase_lite_ios.Base.Bytes.{Bytes}
use couchbase_lite_ios.RevId.{TreeRevId, as_string}
use couchbase_lite_ios.Revision.{Revision}
use couchbase_lite_ios.Document.Properties.{PropertyTypes, Properties, cbl_id, cbl_attachments}
use couchbase_lite_ios.Document.Access.{DocumentDatabase, Document, UnsavedRevision}
use couchbase_lite_ios.Document.Saving.{
  status_conflict, status_from_error, expand, after_attachment, expand_entry, with_attachments,
  expanded, is_id_of, properties_to_insert, put_prepared, put_properties, save,
}
use couchbase_lite_ios.Differ.Steps.{pick-lem}
use mathlib.Core.Option
use mathlib.Core.Path.{subst}

module _ (types : PropertyTypes) (Url S : Type 0) (database : DocumentDatabase types Url S) where
  abbrev pub current_rev_id : Bytes → S → Option TreeRevId
  current_rev_id doc_id st =
      Option.bind (database.get_document doc_id none true st).0
        (λ (rev : Revision (Properties types)). rev.rev_id)

  -- A database whose revision IDs are texts, and in which nobody else writes: a new revision whose parent is the
  -- revision that is read as the current one is no conflict, and to save an attachment changes no revision.
  pub record IsQuiet : Type 0 where
    pub put_current :
        (doc_id : Bytes) (properties : Properties types) (st : S)
        → status_from_error
            (database.put_doc_id doc_id properties (current_rev_id doc_id st) false st).0.error
          ≢ status_conflict
    pub attachment_error :
        (attachment : types.Attachment) (st : S)
        → status_from_error (database.save_attachment attachment st).0 ≢ status_conflict
    pub attachment_kept :
        (attachment : types.Attachment) (doc_id : Bytes) (st : S)
        → current_rev_id doc_id (database.save_attachment attachment st).1
          ≡ current_rev_id doc_id st
    pub ids_are_texts :
        (doc_id : Bytes) (st : S)
        → Option.bind (current_rev_id doc_id st) as_string ≡ current_rev_id doc_id st

  module _ (quiet : IsQuiet) (doc_id : Bytes) where
    -- An error is no conflict, and the current revision is the same.
    record IsHarmless (st : S) (error : Option ℕ) (st' : S) : Type 0 where
      no_conflict : status_from_error error ≢ status_conflict
      kept : current_rev_id doc_id st' ≡ current_rev_id doc_id st

    nothing-IsHarmless : (st : S) → IsHarmless st none st
    nothing-IsHarmless st = record { no_conflict = λ e. absurd (omega (arith, e)); kept = refl }

    IsHarmless-trans :
        {st st' st'' : S} {error error' : Option ℕ}
        → IsHarmless st error st'
        → IsHarmless st' error' st''
        → IsHarmless st error' st''
    IsHarmless-trans h k = record { no_conflict = k.no_conflict; kept = k.kept ∙ h.kept }

    after_attachment-IsHarmless :
        (name : Bytes) (v : types.Object) (rest : Properties types)
        (others : S → (Properties types × Option ℕ) × S) (st : S) (error : Option ℕ) (st' : S)
        → ((st'' : S) → IsHarmless st'' (others st'').0.1 (others st'').1)
        → IsHarmless st error st'
        → IsHarmless st
            (after_attachment types Url S database name v rest others (error, st')).0.1
            (after_attachment types Url S database name v rest others (error, st')).1
    after_attachment-IsHarmless name v rest others st none st' h k = IsHarmless-trans k (h st')
    after_attachment-IsHarmless name v rest others st (some error) st' h k = k

    expand_entry-IsHarmless :
        (name : Bytes) (v : types.Object) (rest : Properties types)
        (others : S → (Properties types × Option ℕ) × S) (st : S) (o : Option types.Attachment)
        → ((st'' : S) → IsHarmless st'' (others st'').0.1 (others st'').1)
        → IsHarmless st
            (expand_entry types Url S database name v rest st others o).0.1
            (expand_entry types Url S database name v rest st others o).1
    expand_entry-IsHarmless name v rest others st none h = h st
    expand_entry-IsHarmless name v rest others st (some attachment) h =
        after_attachment-IsHarmless name (types.metadata attachment) rest others st _ _ h (record {
          no_conflict = quiet.attachment_error attachment st;
          kept = quiet.attachment_kept attachment doc_id st;
        })

    expand-IsHarmless :
        (attachments : Properties types) (st : S)
        → IsHarmless st
            (expand types Url S database attachments st).0.1
            (expand types Url S database attachments st).1
    unfolding expand
    expand-IsHarmless [] st = nothing-IsHarmless st
    expand-IsHarmless ((name, v) ∷ rest) st =
        expand_entry-IsHarmless name v rest (expand types Url S database rest) st
          (types.attachment_of v) (expand-IsHarmless rest)

    expanded-IsHarmless :
        (properties attachments : Properties types) (st st' : S) (error : Option ℕ)
        → IsHarmless st error st'
        → IsHarmless st
            (expanded types Url S database properties ((attachments, error), st')).0.1
            (expanded types Url S database properties ((attachments, error), st')).1
    unfolding expanded
    expanded-IsHarmless properties attachments st st' none h = h
    expanded-IsHarmless properties attachments st st' (some error) h = h

    with_attachments-IsHarmless :
        (properties : Properties types) (st : S) (o : Option (Properties types))
        → IsHarmless st
            (with_attachments types Url S database properties st o).0.1
            (with_attachments types Url S database properties st o).1
    unfolding with_attachments
    with_attachments-IsHarmless properties st none = nothing-IsHarmless st
    with_attachments-IsHarmless properties st (some []) = nothing-IsHarmless st
    with_attachments-IsHarmless properties st (some (a ∷ attachments)) =
        expanded-IsHarmless properties _ st _ _ (expand-IsHarmless (a ∷ attachments) st)

    properties_to_insert-IsHarmless :
        (properties : Properties types) (st : S)
        → IsHarmless st
            (properties_to_insert types Url S database doc_id (some properties) st).0.1
            (properties_to_insert types Url S database doc_id (some properties) st).1
    unfolding properties_to_insert
    properties_to_insert-IsHarmless properties st =
        pick-lem (λ (r : (Option (Properties types) × Option ℕ) × S). IsHarmless st r.0.1 r.1)
          (not (is_id_of types Url S database doc_id (cbl_id types properties))) _ _
          (λ e. record { no_conflict = λ c. absurd (omega (arith, c)); kept = refl })
          (λ e. with_attachments-IsHarmless properties st (cbl_attachments types properties))

  -- A revision that is saved below the current one of the database is no conflict.
  put_prepared-no_conflict :
      IsQuiet
      → (doc : Document types Url S) (st : S) (prev : Option TreeRevId)
      → prev ≡ current_rev_id doc.doc_id st
      → (o : Option (Properties types)) (error : Option ℕ) (st' : S)
      → (status_from_error error ≢ status_conflict)
      → current_rev_id doc.doc_id st' ≡ current_rev_id doc.doc_id st
      → status_from_error (put_prepared types Url S database prev false doc ((o, error), st')).0.1
        ≢ status_conflict
  unfolding put_prepared
  put_prepared-no_conflict quiet doc st prev at none error st' h k = h
  put_prepared-no_conflict quiet doc st prev at (some properties) error st' h k =
      subst
        (λ revid.
          status_from_error (database.put_doc_id doc.doc_id properties revid false st').0.error
          ≢ status_conflict)
        (k ∙ sym at) (quiet.put_current doc.doc_id properties st')

  pub save-no_conflict :
      IsQuiet
      → (doc : Document types Url S) (unsaved : UnsavedRevision types Url S) (st : S)
      → unsaved.unsaved_parent_rev_id ≡ current_rev_id doc.doc_id st
      → status_from_error (save types Url S database unsaved doc st).0.1 ≢ status_conflict
  unfolding save put_properties
  save-no_conflict quiet doc unsaved st at =
      let harmless =
        properties_to_insert-IsHarmless quiet doc.doc_id unsaved.unsaved_properties st in
      put_prepared-no_conflict quiet doc st unsaved.unsaved_parent_rev_id at
        (properties_to_insert types Url S database doc.doc_id (some unsaved.unsaved_properties)
          st).0.0
        (properties_to_insert types Url S database doc.doc_id (some unsaved.unsaved_properties)
          st).0.1
        _ harmless.no_conflict harmless.kept
