-- ===== src/Storage/WellFormed.antt =====
-- Source/CBL_SQLiteStorage.m: the invariant of the table `revs`, and the statements that keep it.
use mathlib.Core.Path.{subst, ap₂}
use couchbase_lite_ios.Base.{
  ℕ, ◌+◌, ◌≤◌, ◌<◌, ◌≡◌, ◌≢◌, refl, sym, ap, ◌∙◌, ◌⊎◌, inl, inr, Bool, true, false, ◌&&◌, some,
  List, [], ◌∷◌, ◌++◌, map, if◌then◌else◌, arith, Bool-cases,
}
use couchbase_lite_ios.RevId.{TreeRevId}
use couchbase_lite_ios.RevId.Order.{collate_rev_ids-flip}
use couchbase_lite_ios.Storage.Table.{
  Row, Store, is_doc, revid_eq, any_row, insert_row, update_where, where_rows, delete_where,
  forget_parent, member,
}
use couchbase_lite_ios.Storage.Insert.{clear_current}
use couchbase_lite_ios.Storage.Pruning.{SameRow, forget_parent-SameRow}
use couchbase_lite_ios.Storage.Rows.{
  In, where_rows-In, In-update_where, update_where-In, In-append, append-In_left, map-In,
  In-delete_where, delete_where-In, not-any_row,
}

-- The row that a link leads to: of the same document, and no current one, but for the row of
-- sequence `exempt`, which a new child is about to replace.
pub record Links (exempt : ℕ) (rows : List Row) (r : Row) (p : ℕ) : Type 0 where
  pub row : Row
  pub place : In row rows
  pub sequence_is : row.sequence ≡ p
  pub doc_is : row.doc_id ≡ r.doc_id
  pub replaced : (row.current ≡ false) ⊎ (p ≡ exempt)

-- Sequences and revision IDs are unique, and a parent is a row of the same document that is not
-- current.
pub record IsWellFormed (exempt : ℕ) (rows : List Row) (last : ℕ) : Type 0 where
  pub counted : (r : Row) → In r rows → (0 < r.sequence) × (r.sequence ≤ last)
  pub one_sequence : (r s : Row) → In r rows → In s rows → r.sequence ≡ s.sequence → r ≡ s
  pub one_revid :
      (r s : Row)
      → In r rows
      → In s rows
      → r.doc_id ≡ s.doc_id
      → revid_eq r.revid s.revid ≡ true
      → r ≡ s
  pub linked : (r : Row) (p : ℕ) → In r rows → r.parent ≡ some p → Links exempt rows r p

revid_eq_comm : (a b : TreeRevId) → revid_eq a b ≡ revid_eq b a
unfolding revid_eq
revid_eq_comm a b = ground (arith, collate_rev_ids-flip a b)

Links-more :
    (exempt : ℕ) (rows more : List Row) (r : Row) (p : ℕ)
    → Links exempt rows r p
    → Links exempt (rows ++ more) r p
Links-more exempt rows more r p l = record {
  row = l.row;
  place = append-In_left l.row rows more l.place;
  sequence_is = l.sequence_is;
  doc_is = l.doc_is;
  replaced = l.replaced;
}

-- INSERT
module _ (exempt : ℕ) (st : Store) (new : Row)
    (forest : IsWellFormed exempt st.rows st.last_sequence) where
  abbrev added : Row
  added = record new { sequence = st.last_sequence + 1 }

  abbrev rows' : List Row
  rows' = st.rows ++ (added ∷ [])

  -- A row of the table or the new one.
  In-rows' : (r : Row) → In r rows' → In r st.rows ⊎ (r ≡ added)
  In-rows' r h = elim (In-append r st.rows (added ∷ []) h) [
    | inl old ↦ inl old
    | inr (inl e) ↦ inr e
    | inr (inr nowhere) ↦ absurd nowhere
  ]

  module _
      (fresh : any_row (λ s. is_doc new.doc_id s && revid_eq s.revid new.revid) st.rows ≡ false)
      (parent_ok : (p : ℕ) → new.parent ≡ some p → Links exempt st.rows new p) where
    fresh-In : (s : Row) → In s st.rows → s.doc_id ≡ new.doc_id → revid_eq s.revid new.revid ≡ false
    fresh-In s h d = ground (
      arith,
      not-any_row (λ s. is_doc new.doc_id s && revid_eq s.revid new.revid) s st.rows fresh h,
    )

    added-sequence : (r : Row) → In r st.rows → r.sequence ≢ added.sequence
    added-sequence r h e = omega (arith, forest.counted r h)

    one_sequence' :
        (r s : Row)
        → In r st.rows ⊎ (r ≡ added)
        → In s st.rows ⊎ (s ≡ added)
        → r.sequence ≡ s.sequence
        → r ≡ s
    one_sequence' r s (inl h) (inl k) e = forest.one_sequence r s h k e
    one_sequence' r s (inl h) (inr k) e =
        absurd (added-sequence r h (e ∙ ap (λ (x : Row). x.sequence) k))
    one_sequence' r s (inr h) (inl k) e =
        absurd (added-sequence s k (sym e ∙ ap (λ (x : Row). x.sequence) h))
    one_sequence' r s (inr h) (inr k) e = h ∙ sym k

    one_revid' :
        (r s : Row)
        → In r st.rows ⊎ (r ≡ added)
        → In s st.rows ⊎ (s ≡ added)
        → r.doc_id ≡ s.doc_id
        → revid_eq r.revid s.revid ≡ true
        → r ≡ s
    one_revid' r s (inl h) (inl k) d e = forest.one_revid r s h k d e
    one_revid' r s (inl h) (inr k) d e = cc (
      fresh-In r h (d ∙ ap (λ (x : Row). x.doc_id) k),
      subst (λ (x : Row). revid_eq r.revid x.revid ≡ true) k e,
    )
    one_revid' r s (inr h) (inl k) d e = cc (
      fresh-In s k (sym d ∙ ap (λ (x : Row). x.doc_id) h),
      revid_eq_comm added.revid s.revid,
      subst (λ (x : Row). revid_eq x.revid s.revid ≡ true) h e,
    )
    one_revid' r s (inr h) (inr k) d e = h ∙ sym k

    linked' :
        (r : Row) (p : ℕ) → In r st.rows ⊎ (r ≡ added) → r.parent ≡ some p → Links exempt rows' r p
    linked' r p (inl h) e = Links-more exempt st.rows (added ∷ []) r p (forest.linked r p h e)
    linked' r p (inr h) e =
        let l = parent_ok p (sym (ap (λ (x : Row). x.parent) h) ∙ e) in
        record {
          row = l.row;
          place = append-In_left l.row st.rows (added ∷ []) l.place;
          sequence_is = l.sequence_is;
          doc_is = l.doc_is ∙ sym (ap (λ (x : Row). x.doc_id) h);
          replaced = l.replaced;
        }

    insert-IsWellFormed : IsWellFormed exempt rows' (st.last_sequence + 1)
    insert-IsWellFormed = record {
      counted = λ r h. elim (In-rows' r h) [
        | inl old ↦ omega (arith, forest.counted r old)
        | inr e ↦ omega (arith, ap (λ (x : Row). x.sequence) e)
      ];
      one_sequence = λ r s h k e. one_sequence' r s (In-rows' r h) (In-rows' s k) e;
      one_revid = λ r s h k d e. one_revid' r s (In-rows' r h) (In-rows' s k) d e;
      linked = λ r p h e. linked' r p (In-rows' r h) e;
    }

pub insert_row-eq :
    (new : Row) (st : Store) {st' : Store}
    → insert_row new st ≡ some st'
    → (any_row (λ s. is_doc new.doc_id s && revid_eq s.revid new.revid) st.rows ≡ false)
      × (st'.rows ≡ st.rows ++ (record new { sequence = st.last_sequence + 1 } ∷ []))
      × (st'.last_sequence ≡ st.last_sequence + 1)
unfolding insert_row
insert_row-eq new st e =
    elim (Bool-cases (any_row (λ s. is_doc new.doc_id s && revid_eq s.revid new.revid) st.rows)) [
      | inl taken ↦ cc (rw taken at e)
      | inr fresh ↦ let e' = rw fresh at e in (fresh, cc e', cc e')
    ]

-- An insertion keeps the invariant, if the new row's parent is a row of its document.
pub insert_row-IsWellFormed :
    (exempt : ℕ) (new : Row) (st : Store) {st' : Store}
    → IsWellFormed exempt st.rows st.last_sequence
    → ((p : ℕ) → new.parent ≡ some p → Links exempt st.rows new p)
    → insert_row new st ≡ some st'
    → IsWellFormed exempt st'.rows st'.last_sequence
insert_row-IsWellFormed exempt new st forest parent_ok e =
    let (fresh, rows_is, last_is) = insert_row-eq new st e in
    rw (rows_is, last_is) (insert-IsWellFormed exempt st new forest fresh parent_ok)

-- A change of a row that is none of its sequence, document or revision ID.
pub record KeepsKeys (change : Row → Row) : Type 0 where
  pub sequence_is : (r : Row) → (change r).sequence ≡ r.sequence
  pub doc_is : (r : Row) → (change r).doc_id ≡ r.doc_id
  pub revid_is : (r : Row) → (change r).revid ≡ r.revid

-- UPDATE
module _ (exempt exempt' : ℕ) (rows : List Row) (last : ℕ) (test : Row → Bool) (change : Row → Row)
    (keys : KeepsKeys change) (forest : IsWellFormed exempt rows last) where
  abbrev changed : Row → Row
  changed x = if test x then change x else x

  changed_sequence : (x : Row) → (changed x).sequence ≡ x.sequence
  changed_sequence x = ground (arith, keys.sequence_is x)

  changed_doc : (x : Row) → (changed x).doc_id ≡ x.doc_id
  changed_doc x = ground (arith, keys.doc_is x)

  changed_revid : (x : Row) → (changed x).revid ≡ x.revid
  changed_revid x = ground (arith, keys.revid_is x)

  origin_doc : (r x : Row) → r ≡ changed x → r.doc_id ≡ x.doc_id
  origin_doc r x e = ap (λ (z : Row). z.doc_id) e ∙ changed_doc x

  origin_revid : (r x : Row) → r ≡ changed x → r.revid ≡ x.revid
  origin_revid r x e = ap (λ (z : Row). z.revid) e ∙ changed_revid x

  -- What the links of the changed rows lead to, among the rows before the change.
  abbrev LinksBefore : Row → ℕ → Type 0
  LinksBefore x p =
      (row : Row) × In row rows
      × (row.sequence ≡ p)
      × (row.doc_id ≡ x.doc_id)
      × (((changed row).current ≡ false) ⊎ (p ≡ exempt'))

  module _
      (parent_ok : (x : Row) (p : ℕ)
        → In x rows
        → (changed x).parent ≡ some p
        → LinksBefore x p) where
    pub update_where-IsWellFormed : IsWellFormed exempt' (update_where test change rows) last
    update_where-IsWellFormed = record {
      counted = λ r h.
          let (x, place, e) = In-update_where test change r rows h in
          omega (arith, forest.counted x place, changed_sequence x, ap (λ (y : Row). y.sequence) e);
      one_sequence = λ r s h k e.
          let (x, place, is_x) = In-update_where test change r rows h in
          let (y, place', is_y) = In-update_where test change s rows k in
          is_x
          ∙ ap changed (
              forest.one_sequence x y place place' (
                omega (
                  arith,
                  e,
                  changed_sequence x,
                  changed_sequence y,
                  ap (λ (z : Row). z.sequence) is_x,
                  ap (λ (z : Row). z.sequence) is_y,
                )))
          ∙ sym is_y;
      one_revid = λ r s h k d e.
          let (x, place, is_x) = In-update_where test change r rows h in
          let (y, place', is_y) = In-update_where test change s rows k in
          is_x
          ∙ ap changed (
              forest.one_revid x y place place'
                (sym (origin_doc r x is_x) ∙ d ∙ origin_doc s y is_y)
                (ap₂ revid_eq (sym (origin_revid r x is_x)) (sym (origin_revid s y is_y)) ∙ e))
          ∙ sym is_y;
      linked = λ r p h e.
          let (x, place, is_x) = In-update_where test change r rows h in
          let (row, place', at_p, d, replaced) =
            parent_ok x p place (sym (ap (λ (z : Row). z.parent) is_x) ∙ e) in
          record {
            row = changed row;
            place = update_where-In test change row rows place';
            sequence_is = changed_sequence row ∙ at_p;
            doc_is =
                changed_doc row ∙ d ∙ sym (changed_doc x) ∙ sym (ap (λ (z : Row). z.doc_id) is_x);
            replaced = replaced;
          };
    }

clear_current-KeepsKeys : KeepsKeys clear_current
clear_current-KeepsKeys = record {
  sequence_is = λ r. refl;
  doc_is = λ r. refl;
  revid_is = λ r. refl;
}

-- Making the replaced revision non-current restores the invariant. The update may leave out rows
-- that are not current.
pub clear_current-IsWellFormed :
    (exempt : ℕ) (rows : List Row) (last : ℕ) (test : Row → Bool)
    → ((r : Row) → In r rows → r.sequence ≡ exempt → (test r ≡ true) ⊎ (r.current ≡ false))
    → IsWellFormed exempt rows last
    → IsWellFormed 0 (update_where test clear_current rows) last
clear_current-IsWellFormed exempt rows last test clears forest =
    update_where-IsWellFormed exempt 0 rows last test clear_current clear_current-KeepsKeys forest
      (λ x p place e.
        let l = forest.linked x p place (ground arith) in
        (l.row, l.place, l.sequence_is, l.doc_is, inl (gone l)))
  where
    gone :
        {x : Row} {p : ℕ} (l : Links exempt rows x p)
        → (if test l.row then clear_current l.row else l.row).current ≡ false
    gone l = ground (arith, clears l.row l.place)

In-member : (n : ℕ) (xs : List ℕ) → In n xs → member n xs ≡ true
unfolding member
In-member n [] h = absurd h
In-member n (x ∷ xs) (inl e) = ground arith
In-member n (x ∷ xs) (inr h) = ground (arith, In-member n xs h)

forget_parent-some :
    (gone : List ℕ) (x : Row) (p : ℕ)
    → (forget_parent gone x).parent ≡ some p
    → (x.parent ≡ some p) × (member p gone ≡ false)
unfolding forget_parent
forget_parent-some gone x p e = ground arith

-- DELETE
module _ (rows : List Row) (last : ℕ) (test : Row → Bool) (forest : IsWellFormed 0 rows last) where
  abbrev deleted : List ℕ
  deleted = map (λ (r : Row). r.sequence) (where_rows test rows)

  abbrev remains : Row → Row
  remains = forget_parent deleted

  same : (x : Row) → SameRow (remains x) x
  same x = forget_parent-SameRow deleted x

  -- A link that remains leads to a row that remains.
  row_remains : (row : Row) → In row rows → member row.sequence deleted ≡ false → test row ≡ false
  row_remains row h m = elim (Bool-cases (test row)) [
    | inl gone ↦ cc (
        In-member row.sequence deleted (
          map-In (λ (r : Row). r.sequence) row (where_rows test rows)
            (where_rows-In test row rows h gone)))
    | inr stays ↦ stays
  ]

  link_remains :
      (x : Row) (p : ℕ)
      → In x rows
      → (remains x).parent ≡ some p
      → Links 0 (delete_where test rows) (remains x) p
  link_remains x p h e =
      let (e', m) = forget_parent-some deleted x p e in
      let l = forest.linked x p h e' in
      record {
        row = remains l.row;
        place =
            delete_where-In test l.row rows l.place
              (row_remains l.row l.place (ap (λ (s : ℕ). member s deleted) l.sequence_is ∙ m));
        sequence_is = (same l.row).sequence_is ∙ l.sequence_is;
        doc_is = (same l.row).doc_is ∙ l.doc_is ∙ sym (same x).doc_is;
        replaced = elim l.replaced [ inl c ↦ inl ((same l.row).current_is ∙ c) | inr z ↦ inr z ];
      }

  -- Deleting any rows keeps the invariant.
  pub delete_where-IsWellFormed : IsWellFormed 0 (delete_where test rows) last
  delete_where-IsWellFormed = record {
    counted = λ r h.
        let (x, place, _, e) = In-delete_where test r rows h in
        omega (arith, forest.counted x place, (same x).sequence_is, ap (λ (y : Row). y.sequence) e);
    one_sequence = λ r s h k e.
        let (x, place, _, is_x) = In-delete_where test r rows h in
        let (y, place', _, is_y) = In-delete_where test s rows k in
        is_x
        ∙ ap remains (
            forest.one_sequence x y place place' (
              omega (
                arith,
                e,
                (same x).sequence_is,
                (same y).sequence_is,
                ap (λ (z : Row). z.sequence) is_x,
                ap (λ (z : Row). z.sequence) is_y,
              )))
        ∙ sym is_y;
    one_revid = λ r s h k d e.
        let (x, place, _, is_x) = In-delete_where test r rows h in
        let (y, place', _, is_y) = In-delete_where test s rows k in
        let rev_x = ap (λ (z : Row). z.revid) is_x ∙ (same x).revid_is in
        let rev_y = ap (λ (z : Row). z.revid) is_y ∙ (same y).revid_is in
        let doc_x = ap (λ (z : Row). z.doc_id) is_x ∙ (same x).doc_is in
        let doc_y = ap (λ (z : Row). z.doc_id) is_y ∙ (same y).doc_is in
        is_x
        ∙ ap remains (
            forest.one_revid x y place place' (sym doc_x ∙ d ∙ doc_y)
              (ap₂ revid_eq (sym rev_x) (sym rev_y) ∙ e))
        ∙ sym is_y;
    linked = λ r p h e.
        let (x, place, _, is_x) = In-delete_where test r rows h in
        subst (λ z. Links 0 (delete_where test rows) z p) (sym is_x)
          (link_remains x p place (sym (ap (λ (z : Row). z.parent) is_x) ∙ e));
  }
