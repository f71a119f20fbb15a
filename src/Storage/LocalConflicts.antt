-- ===== src/Storage/LocalConflicts.antt =====
-- Source/CBL_SQLiteStorage.m: a local document is only replaced or deleted through its current
-- revision ID.
use couchbase_lite_ios.Base.{
  ◌≡◌, refl, ap, inl, inr, Bool, true, false, not, ◌&&◌, Option, none, some, List, [], ◌∷◌, length,
  arith, Bool-cases, Option-cases,
}
use couchbase_lite_ios.Base.Bytes.{Bytes, equal_sound}
use couchbase_lite_ios.RevId.{TreeRevId}
use couchbase_lite_ios.Revision.{Revision}
use couchbase_lite_ios.Storage.Table.{where_rows, any_row, revid_eq}
use couchbase_lite_ios.Storage.Insert.{is_error}
use couchbase_lite_ios.Storage.Local.{
  Database, LocalRow, JsonTypes, Properties, LocalOutcome, is_local, is_local_revision, local_row,
  update_local, insert_local, delete_local, not_deleted, delete_local_document, next_local_revid,
  encode_document_json, write_local, put_local_live, put_local_deleted, put_local_mvcc,
  has_local_prefix,
}
use couchbase_lite_ios.Storage.LocalRows.{IsOneEach, local_row-In}
use couchbase_lite_ios.Storage.Rows.{In, In-where_rows, first_row-In, not-any_row}
use couchbase_lite_ios.Differ.Steps.{pick-lem}

-- Does the given parent match the row of the document, or are there neither?
unfoldable pub is_current : Option LocalRow → Option TreeRevId → Bool
unfolding revid_eq
is_current none none = true
is_current (some r) (some prev) = revid_eq r.revid prev
is_current _ _ = false

-- An error status, and nothing changed.
pub record IsRefused {P : Type 0} (db : Database) (o : LocalOutcome P) : Type 0 where
  pub failed : is_error o.status ≡ true
  pub unchanged : o.database ≡ db

both : (a b : Bool) → (a && b) ≡ true → (a ≡ true) × (b ≡ true)
both a b h = ground arith

no_row-length : {A : Type 0} (xs : List A) → ((x : A) → ¬ In x xs) → length xs ≡ 0
no_row-length [] n = refl
no_row-length (x ∷ xs) n = absurd (n x (inl refl))

module _ (docid : Bytes) (db : Database) (w : IsOneEach db.localdocs) where
  no_matching_row :
      (prev : TreeRevId)
      → is_current (local_row docid db) (some prev) ≡ false
      → length (where_rows (is_local_revision docid prev) db.localdocs) ≡ 0
  unfolding is_current is_local_revision
  no_matching_row prev h = no_row-length _ λ r place.
      let (at_r, passes) = In-where_rows (is_local_revision docid prev) r db.localdocs place in
      let (same_doc, same_rev) = both _ _ passes in
      let row = local_row-In docid db r w at_r (equal_sound r.docid docid same_doc) in
      cc (ap (λ o. is_current o (some prev)) row, h, same_rev)

  row-In :
      (r : LocalRow) → local_row docid db ≡ some r → In r db.localdocs × (is_local docid r ≡ true)
  unfolding local_row
  row-In r found = In-where_rows (is_local docid) r db.localdocs (first_row-In r _ found)

  row-there :
      is_current (local_row docid db) none ≡ false → any_row (is_local docid) db.localdocs ≡ true
  unfolding is_current
  row-there h = elim (Bool-cases (any_row (is_local docid) db.localdocs)) [
    | inl there ↦ there
    | inr missing ↦ elim (Option-cases (local_row docid db)) [
      | inl nothing ↦ cc (ap (λ o. is_current o none) nothing, h)
      | inr (r, found) ↦
          let (place, passes) = row-In r found in
          cc (not-any_row (is_local docid) r db.localdocs missing place, passes)
    ]
  ]

  write_local_none :
      (prev : Option TreeRevId) (revid : TreeRevId) (json : Bytes)
      → is_current (local_row docid db) prev ≡ false
      → (write_local docid prev revid json db).0 ≡ 0
  unfolding write_local update_local insert_local
  write_local_none none revid json h = rw (row-there h) refl
  write_local_none (some prev) revid json h = no_matching_row prev h

  module _ (types : JsonTypes) where
    delete-IsRefused :
        (rev : Revision (Properties types)) (prev : Option TreeRevId)
        → is_current (local_row docid db) prev ≡ false
        → IsRefused db (put_local_deleted types rev docid prev db)
    unfolding put_local_deleted delete_local_document delete_local not_deleted
    delete-IsRefused rev none h = record { failed = ground arith; unchanged = refl }
    delete-IsRefused rev (some prev) h =
        rw (no_matching_row prev h) (record { failed = ground arith; unchanged = refl })

    live-IsRefused :
        (rev : Revision (Properties types)) (prev : Option TreeRevId)
        → is_current (local_row docid db) prev ≡ false
        → IsRefused db (put_local_live types rev docid prev db)
    unfolding put_local_live
    live-IsRefused rev prev h = elim (Option-cases (encode_document_json types rev.body)) [
      | inl bad ↦ rw (put_local_live, bad) (record { failed = refl; unchanged = refl })
      | inr (json, encoded) ↦ elim (Option-cases (next_local_revid prev)) [
        | inl bad ↦ rw (put_local_live, encoded, bad) (record { failed = refl; unchanged = refl })
        | inr (revid, next) ↦
            rw (put_local_live, encoded, next, write_local_none prev revid json h)
              (record { failed = refl; unchanged = refl })
      ]
    ]

    -- With `obeyMVCC`, and one row for each document ID in the table, a local document is neither put
    -- nor deleted when the given revision ID does not match the current one, or one of them is missing:
    -- the status is an error, and the database is as it was.
    pub put_local_mvcc-IsRefused :
        (rev : Revision (Properties types)) (prev : Option TreeRevId)
        → is_current (local_row docid db) prev ≡ false
        → IsRefused db (put_local_mvcc types rev docid prev db)
    unfolding put_local_mvcc
    put_local_mvcc-IsRefused rev prev h =
        pick-lem (IsRefused db) (not (has_local_prefix docid)) _ _
          (λ bad. record { failed = refl; unchanged = refl })
          λ good.
            pick-lem (IsRefused db) rev.deleted _ _ (λ deletes. delete-IsRefused rev prev h)
              (λ live. live-IsRefused rev prev h)
