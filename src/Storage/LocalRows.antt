-- ===== src/Storage/LocalRows.antt =====
-- Source/CBL_SQLiteStorage.m: the table `localdocs` keeps one row for each document ID.
use couchbase_lite_ios.Base.{
  ℕ, ◌≡◌, ◌≢◌, refl, sym, ap, ◌∙◌, inl, inr, Bool, true, false, not, Option, none, some, List, [],
  ◌∷◌, ◌++◌, ◌==◌, if◌then◌else◌, length, Bool-cases, Option-cases,
}
use couchbase_lite_ios.Base.Bytes.{Bytes, equal, equal_sound, equal_refl}
use couchbase_lite_ios.RevId.{TreeRevId}
use couchbase_lite_ios.Revision.{Revision}
use couchbase_lite_ios.Storage.Table.{where_rows, first_row, any_row, update_where}
use couchbase_lite_ios.Storage.Local.{
  Database, LocalRow, JsonTypes, Properties, LocalOutcome, is_local, is_local_revision, local_row,
  update_local, insert_local, delete_local, has_local_prefix, delete_local_document,
  next_local_revid, encode_document_json, write_local, put_done, put_local_live, put_local_deleted,
  put_local_mvcc,
}
use couchbase_lite_ios.Storage.Rows.{
  In, In-where_rows, In-update_where, In-append, first_row-In, not-any_row, where_rows-In,
}
use couchbase_lite_ios.Differ.Steps.{pick-lem}
use mathlib.Core.Path.{subst}

pub record IsOneEach (rows : List LocalRow) : Type 0 where
  pub one : (r s : LocalRow) → In r rows → In s rows → r.docid ≡ s.docid → r ≡ s

pub local_row-In :
    (docid : Bytes) (db : Database) (r : LocalRow)
    → IsOneEach db.localdocs
    → In r db.localdocs
    → r.docid ≡ docid
    → local_row docid db ≡ some r
unfolding local_row
local_row-In docid db r w place e =
    elim (Option-cases (first_row (where_rows (is_local docid) db.localdocs))) [
      | inl nothing ↦ absurd (
          no_rows _ nothing
            (where_rows-In (is_local docid) r db.localdocs place (rw e (equal_refl docid))))
      | inr (s, found) ↦
          let (at_s, passes) =
            In-where_rows (is_local docid) s db.localdocs (first_row-In s _ found) in
          found ∙ ap some (w.one s r at_s place (equal_sound s.docid docid passes ∙ sym e))
    ]
  where
    no_rows : (xs : List LocalRow) → first_row xs ≡ none → ¬ In r xs
    no_rows [] h = λ k. k
    no_rows (x ∷ xs) h = absurd (cc h)

pub where_rows-IsOneEach :
    (test : LocalRow → Bool) (rows : List LocalRow)
    → IsOneEach rows
    → IsOneEach (where_rows test rows)
where_rows-IsOneEach test rows w = record {
  one = λ r s h k e. w.one r s (In-where_rows test r rows h).0 (In-where_rows test s rows k).0 e;
}

module _ (revid : TreeRevId) (json : Bytes) where
  abbrev pub rewrite_row : LocalRow → LocalRow
  rewrite_row r = record r { revid = revid; json = json }

  if-docid : (b : Bool) (x : LocalRow) → (if b then rewrite_row x else x).docid ≡ x.docid
  if-docid true x = refl
  if-docid false x = refl

  pub update_where-IsOneEach :
      (test : LocalRow → Bool) (rows : List LocalRow)
      → IsOneEach rows
      → IsOneEach (update_where test rewrite_row rows)
  update_where-IsOneEach test rows w = record { one = one }
    where
      one :
          (r s : LocalRow)
          → In r (update_where test rewrite_row rows)
          → In s (update_where test rewrite_row rows)
          → r.docid ≡ s.docid
          → r ≡ s
      one r s h k e =
          let (x, at_x, rx) = In-update_where test rewrite_row r rows h in
          let (y, at_y, sy) = In-update_where test rewrite_row s rows k in
          let same : x ≡ y = w.one x y at_x at_y (
            sym (if-docid (test x) x)
            ∙ sym (ap (λ (z : LocalRow). z.docid) rx)
            ∙ e
            ∙ ap (λ (z : LocalRow). z.docid) sy
            ∙ if-docid (test y) y) in
          rx ∙ ap (λ (z : LocalRow). if test z then rewrite_row z else z) same ∙ sym sy

pub append-IsOneEach :
    (new : LocalRow) (rows : List LocalRow)
    → IsOneEach rows
    → any_row (is_local new.docid) rows ≡ false
    → IsOneEach (rows ++ (new ∷ []))
append-IsOneEach new rows w fresh = record { one = one }
  where
    other : (r : LocalRow) → In r rows → r.docid ≢ new.docid
    other r place e = cc (
      not-any_row (is_local new.docid) r rows fresh place,
      subst (λ d. equal d new.docid ≡ true) (sym e) (equal_refl new.docid),
    )

    one :
        (r s : LocalRow)
        → In r (rows ++ (new ∷ []))
        → In s (rows ++ (new ∷ []))
        → r.docid ≡ s.docid
        → r ≡ s
    one r s h k e = elim (In-append r rows (new ∷ []) h) [
      | inl old ↦ elim (In-append s rows (new ∷ []) k) [
        | inl old' ↦ w.one r s old old' e
        | inr (inl it) ↦ absurd (other r old (e ∙ ap (λ (z : LocalRow). z.docid) it))
        | inr (inr nothing) ↦ absurd nothing
      ]
      | inr (inl it) ↦ elim (In-append s rows (new ∷ []) k) [
        | inl old' ↦ absurd (other s old' (sym e ∙ ap (λ (z : LocalRow). z.docid) it))
        | inr (inl it') ↦ it ∙ sym it'
        | inr (inr nothing) ↦ absurd nothing
      ]
      | inr (inr nothing) ↦ absurd nothing
    ]

abbrev LocalWellFormed : {P : Type 0} → LocalOutcome P → Type 0
LocalWellFormed o = IsOneEach o.database.localdocs

pub write_local-IsOneEach :
    (docid : Bytes) (prev : Option TreeRevId) (revid : TreeRevId) (json : Bytes) (db : Database)
    → IsOneEach db.localdocs
    → IsOneEach (write_local docid prev revid json db).1.localdocs
unfolding write_local update_local insert_local
write_local-IsOneEach docid (some prev) revid json db w =
    update_where-IsOneEach revid json (is_local_revision docid prev) db.localdocs w
write_local-IsOneEach docid none revid json db w =
    elim (Bool-cases (any_row (is_local docid) db.localdocs)) [
      | inl there ↦ rw there w
      | inr fresh ↦ rw fresh (append-IsOneEach _ db.localdocs w fresh)
    ]

delete_local_document-IsOneEach :
    (docid : Bytes) (prev : Option TreeRevId) (db : Database)
    → IsOneEach db.localdocs
    → IsOneEach (delete_local_document docid prev db).1.localdocs
unfolding delete_local_document delete_local
delete_local_document-IsOneEach docid none db w = w
delete_local_document-IsOneEach docid (some prev) db w =
    elim (Bool-cases (length (where_rows (is_local_revision docid prev) db.localdocs) == 0)) [
      | inl nothing ↦ rw nothing w
      | inr deleted ↦ rw deleted (where_rows-IsOneEach _ db.localdocs w)
    ]

module _ (types : JsonTypes) where
  put_done-IsOneEach :
      (rev : Revision (Properties types)) (docid : Bytes) (revid : TreeRevId) (db : Database)
      (written : ℕ × Database)
      → IsOneEach db.localdocs
      → IsOneEach written.1.localdocs
      → LocalWellFormed (put_done types rev docid revid db written)
  put_done-IsOneEach rev docid revid db written w k = elim (Bool-cases (written.0 == 0)) [
    | inl nothing ↦ rw nothing w
    | inr some_row ↦ rw some_row k
  ]

  put_local_live-IsOneEach :
      (rev : Revision (Properties types)) (docid : Bytes) (prev : Option TreeRevId) (db : Database)
      → IsOneEach db.localdocs
      → LocalWellFormed (put_local_live types rev docid prev db)
  unfolding put_local_live
  put_local_live-IsOneEach rev docid prev db w =
      elim (Option-cases (encode_document_json types rev.body)) [
        | inl bad ↦ rw (put_local_live, bad) w
        | inr (json, encoded) ↦ elim (Option-cases (next_local_revid prev)) [
          | inl bad ↦ rw (put_local_live, encoded, bad) w
          | inr (revid, next) ↦
              rw (put_local_live, encoded, next)
                (put_done-IsOneEach rev docid revid db (write_local docid prev revid json db) w
                  (write_local-IsOneEach docid prev revid json db w))
        ]
      ]

  pub put_local_mvcc-IsOneEach :
      (rev : Revision (Properties types)) (docid : Bytes) (prev : Option TreeRevId) (db : Database)
      → IsOneEach db.localdocs
      → LocalWellFormed (put_local_mvcc types rev docid prev db)
  unfolding put_local_mvcc put_local_deleted
  put_local_mvcc-IsOneEach rev docid prev db w =
      pick-lem LocalWellFormed (not (has_local_prefix docid)) _ _ (λ bad. w)
        λ good.
          pick-lem LocalWellFormed rev.deleted _ _
            (λ deletes. delete_local_document-IsOneEach docid prev db w)
            (λ live. put_local_live-IsOneEach rev docid prev db w)
