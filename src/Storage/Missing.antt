-- ===== src/Storage/Missing.antt =====
-- Source/CBL_SQLiteStorage.m, `findMissingRevisions:status:`: which revisions stay in the list.
use couchbase_lite_ios.Base.{
  ◌≡◌, ◌≢◌, refl, sym, ap, ◌↔◌, inl, inr, Bool, true, false, ◌&&◌, Option, none, some, List, [],
  ◌∷◌, ◌==◌, arith, Bool-cases, Option-cases,
}
use couchbase_lite_ios.Base.Bytes.{Bytes, equal_sound, equal_refl}
use couchbase_lite_ios.RevId.{TreeRevId}
use couchbase_lite_ios.RevId.Order.{collate_rev_ids_refl}
use couchbase_lite_ios.Revision.{
  Revision, RevisionList, equal_or_nil, is_equal_id, is_equal, rev_with_ids, remove_rev,
}
use couchbase_lite_ios.Storage.Table.{Row, DocRow, Store, revid_eq}
use couchbase_lite_ios.Storage.Documents.{listed}
use couchbase_lite_ios.Storage.Changes.{
  Joined, join_row, join, doc_listed, all_rev_ids, stored_among, remove_found,
  find_missing_revisions,
}
use couchbase_lite_ios.Storage.Rows.{
  In, In-where_rows, where_rows-In, In-append, append-In_left, append-In_right,
}
use mathlib.Core.Path.{subst}

-- The revision has these IDs.
pub record HasIds (docid : Bytes) (revid : TreeRevId) (x : Revision Bytes) : Type 0 where
  pub doc_is : x.doc_id ≡ some docid
  pub rev_is : x.rev_id ≡ some revid

-- The database has a revision with these IDs.
pub record IsStored (docid : Bytes) (revid : TreeRevId) (st : Store) : Type 0 where
  pub doc : DocRow
  pub row : Row
  pub doc_place : In doc st.docs
  pub row_place : In row st.rows
  pub docid_is : doc.docid ≡ docid
  pub joined : row.doc_id ≡ doc.doc_id
  pub revid_is : row.revid ≡ revid

equal_or_nil_sound : (o : Option Bytes) (a : Bytes) → equal_or_nil o (some a) ≡ true → o ≡ some a
equal_or_nil_sound none a h = cc
equal_or_nil_sound (some b) a h = rw (equal_sound b a h) refl

is_equal_id_sound : (a : Bytes) (o : Option Bytes) → is_equal_id (some a) o ≡ true → o ≡ some a
is_equal_id_sound a none h = cc
is_equal_id_sound a (some b) h = rw (equal_sound a b h) refl

both : (a b : Bool) → (a && b) ≡ true → (a ≡ true) × (b ≡ true)
both a b h = ground arith

module _ {docid : Bytes} {revid : TreeRevId} where
  found-HasIds :
      (revs : RevisionList Bytes) (rev : Revision Bytes)
      → rev_with_ids Bytes (some docid) (some revid) revs ≡ some rev
      → HasIds docid revid rev
  unfolding rev_with_ids
  found-HasIds [] rev h = cc
  found-HasIds (x ∷ revs) rev h =
      elim (Bool-cases (equal_or_nil x.doc_id (some docid) && equal_or_nil x.rev_id (some revid))) [
        | inl matched ↦
            let e : x ≡ rev = cc (rw matched at h) in
            let (d, v) = both _ _ matched in
            rw (← e) (record {
              doc_is = equal_or_nil_sound x.doc_id docid d;
              rev_is = equal_or_nil_sound x.rev_id revid v;
            })
        | inr differs ↦ found-HasIds revs rev (rw differs at h)
      ]

  HasIds-found :
      (x : Revision Bytes) (revs : RevisionList Bytes)
      → In x revs
      → HasIds docid revid x
      → rev_with_ids Bytes (some docid) (some revid) revs ≢ none
  unfolding rev_with_ids
  HasIds-found x [] h ids = absurd h
  HasIds-found x (y ∷ revs) (inl e) ids =
      rw (← e, ids.doc_is, ids.rev_is, equal_refl docid, equal_refl revid) (λ h. cc h)
  HasIds-found x (y ∷ revs) (inr h) ids =
      elim (Bool-cases (equal_or_nil y.doc_id (some docid) && equal_or_nil y.rev_id (some revid))) [
        | inl matched ↦ rw matched (λ h. cc h)
        | inr differs ↦ rw differs (HasIds-found x revs h ids)
      ]

  is_equal-HasIds :
      (rev x : Revision Bytes)
      → HasIds docid revid rev
      → is_equal Bytes rev x ≡ true
      → HasIds docid revid x
  unfolding is_equal
  is_equal-HasIds rev x ids h =
      let (d, v) = both _ _ (rw (ids.doc_is, ids.rev_is) at h) in
      record {
        doc_is = is_equal_id_sound docid x.doc_id d;
        rev_is = is_equal_id_sound revid x.rev_id v;
      }

  HasIds-is_equal :
      (rev x : Revision Bytes)
      → HasIds docid revid rev
      → HasIds docid revid x
      → is_equal Bytes rev x ≡ true
  unfolding is_equal
  HasIds-is_equal rev x ids its =
      rw (ids.doc_is, ids.rev_is, its.doc_is, its.rev_is, equal_refl docid, equal_refl revid) refl

module _ (rev x : Revision Bytes) where
  In-remove_rev :
      (revs : RevisionList Bytes)
      → In x (remove_rev Bytes rev revs)
      → In x revs × (is_equal Bytes rev x ≡ false)
  unfolding remove_rev
  In-remove_rev [] h = absurd h
  In-remove_rev (y ∷ revs) h = elim (Bool-cases (is_equal Bytes rev y)) [
    | inl same ↦ let (place, differs) = In-remove_rev revs (rw same at h) in (inr place, differs)
    | inr other ↦ elim (rw other at h) [
      | inl e ↦ (inl e, rw e other)
      | inr later ↦ let (place, differs) = In-remove_rev revs later in (inr place, differs)
    ]
  ]

  remove_rev-In :
      (revs : RevisionList Bytes)
      → In x revs
      → is_equal Bytes rev x ≡ false
      → In x (remove_rev Bytes rev revs)
  unfolding remove_rev
  remove_rev-In [] h n = absurd h
  remove_rev-In (y ∷ revs) h n = elim (Bool-cases (is_equal Bytes rev y)) [
    | inl same ↦ elim h [
      | inl e ↦ absurd (cc (e, same, n))
      | inr later ↦ rw same (remove_rev-In revs later n)
    ]
    | inr other ↦ elim h [
      | inl e ↦ rw other (inl e)
      | inr later ↦ rw other (inr (remove_rev-In revs later n))
    ]
  ]

-- One turn of the loop of `findMissingRevisions:`.
abbrev remove_given : RevisionList Bytes → Option (Revision Bytes) → RevisionList Bytes
remove_given revs found = elim found [ none ↦ revs | some rev ↦ remove_rev Bytes rev revs ]

abbrev remove_one : Bytes → TreeRevId → RevisionList Bytes → RevisionList Bytes
remove_one docid revid revs = remove_given revs (rev_with_ids Bytes (some docid) (some revid) revs)

module _ (docid : Bytes) (revid : TreeRevId) (x : Revision Bytes) (revs : RevisionList Bytes) where
  In-remove_one : In x (remove_one docid revid revs) → In x revs × (¬ HasIds docid revid x)
  In-remove_one h = elim (Option-cases (rev_with_ids Bytes (some docid) (some revid) revs)) [
    | inl nothing ↦
        let place : In x revs = rw nothing at h in
        (place, λ ids. HasIds-found x revs place ids nothing)
    | inr (rev, found) ↦
        let (place, differs) = In-remove_rev rev x revs (rw found at h) in
        (place, λ ids. cc (HasIds-is_equal rev x (found-HasIds revs rev found) ids, differs))
  ]

  remove_one-In : In x revs → (¬ HasIds docid revid x) → In x (remove_one docid revid revs)
  remove_one-In h n = elim (Option-cases (rev_with_ids Bytes (some docid) (some revid) revs)) [
    | inl nothing ↦ subst (λ o. In x (remove_given revs o)) (sym nothing) h
    | inr (rev, found) ↦
        let differs : is_equal Bytes rev x ≡ false = elim (Bool-cases (is_equal Bytes rev x)) [
          | inl same ↦ absurd (n (is_equal-HasIds rev x (found-HasIds revs rev found) same))
          | inr other ↦ other
        ] in
        subst (λ o. In x (remove_given revs o)) (sym found) (remove_rev-In rev x revs h differs)
  ]

module _ (x : Revision Bytes) where
  In-remove_found :
      (found : List Joined) (revs : RevisionList Bytes)
      → In x (remove_found found revs)
      → In x revs × ((j : Joined) → In j found → ¬ HasIds j.0.docid j.1.revid x)
  unfolding remove_found
  In-remove_found [] revs h = (h, λ j place. absurd place)
  In-remove_found ((d, r) ∷ found) revs h =
      let (kept, others) = In-remove_found found (remove_one d.docid r.revid revs) h in
      let (place, differs) = In-remove_one d.docid r.revid x revs kept in
      (place, λ j at_j. elim at_j [ inl e ↦ rw e differs | inr later ↦ others j later ])

  remove_found-In :
      (found : List Joined) (revs : RevisionList Bytes)
      → In x revs
      → ((j : Joined) → In j found → ¬ HasIds j.0.docid j.1.revid x)
      → In x (remove_found found revs)
  unfolding remove_found
  remove_found-In [] revs h n = h
  remove_found-In ((d, r) ∷ found) revs h n =
      remove_found-In found (remove_one d.docid r.revid revs)
        (remove_one-In d.docid r.revid x revs h (n (d, r) (inl refl))) (λ j later. n j (inr later))

In-join_row :
    (j : Joined) (r : Row) (docs : List DocRow)
    → In j (join_row r docs)
    → In j.0 docs × (j.1 ≡ r) × (j.1.doc_id ≡ j.0.doc_id)
unfolding join_row
In-join_row j r [] h = absurd h
In-join_row j r (d ∷ docs) h = elim (Bool-cases (d.doc_id == r.doc_id)) [
  | inl same ↦ elim (rw same at h) [
    | inl e ↦ (inl (ap (λ (k : Joined). k.0) e), ap (λ (k : Joined). k.1) e, rw e (ground arith))
    | inr later ↦ let (place, row, id) = In-join_row j r docs later in (inr place, row, id)
  ]
  | inr other ↦ let (place, row, id) = In-join_row j r docs (rw other at h) in (inr place, row, id)
]

join_row-In :
    (d : DocRow) (r : Row) (docs : List DocRow)
    → In d docs
    → r.doc_id ≡ d.doc_id
    → In (d, r) (join_row r docs)
unfolding join_row
join_row-In d r [] h e = absurd h
join_row-In d r (x ∷ docs) h e = elim (Bool-cases (x.doc_id == r.doc_id)) [
  | inl same ↦ elim h [
    | inl here ↦ rw same (inl (rw here refl))
    | inr later ↦ rw same (inr (join_row-In d r docs later e))
  ]
  | inr other ↦ elim h [
    | inl here ↦ absurd (ground (arith, ap (λ (y : DocRow). y.doc_id) here))
    | inr later ↦ rw other (join_row-In d r docs later e)
  ]
]

-- A row of the join is a row of each table, with the same numeric ID.
pub In-join :
    (j : Joined) (docs : List DocRow) (rows : List Row)
    → In j (join docs rows)
    → In j.0 docs × In j.1 rows × (j.1.doc_id ≡ j.0.doc_id)
unfolding join
In-join j docs [] h = absurd h
In-join j docs (r ∷ rows) h = elim (In-append j (join_row r docs) (join docs rows) h) [
  | inl here ↦ let (place, e, id) = In-join_row j r docs here in (place, inl e, id)
  | inr later ↦ let (place, row, id) = In-join j docs rows later in (place, inr row, id)
]

pub join-In :
    (d : DocRow) (r : Row) (docs : List DocRow) (rows : List Row)
    → In d docs
    → In r rows
    → r.doc_id ≡ d.doc_id
    → In (d, r) (join docs rows)
unfolding join
join-In d r docs [] h k e = absurd k
join-In d r docs (x ∷ rows) h (inl here) e =
    append-In_left (d, r) (join_row x docs) (join docs rows)
      (subst (λ y. In (d, r) (join_row y docs)) here (join_row-In d r docs h e))
join-In d r docs (x ∷ rows) h (inr later) e =
    append-In_right (d, r) (join_row x docs) (join docs rows) (join-In d r docs rows h later e)

revid_eq_refl : (revid : TreeRevId) → revid_eq revid revid ≡ true
unfolding revid_eq
revid_eq_refl revid = rw (revid_eq, collate_rev_ids_refl revid) refl

and_true : (a b : Bool) → a ≡ true → b ≡ true → (a && b) ≡ true
and_true a b h k = ground arith

module _ {docid : Bytes} {revid : TreeRevId} (x : Revision Bytes) (ids : HasIds docid revid x) where
  HasIds-doc_listed : (revs : RevisionList Bytes) → In x revs → doc_listed docid revs ≡ true
  unfolding doc_listed
  HasIds-doc_listed [] h = absurd h
  HasIds-doc_listed (y ∷ revs) (inl e) = rw (← e, ids.doc_is, equal_refl docid) refl
  HasIds-doc_listed (y ∷ revs) (inr h) = rw (HasIds-doc_listed revs h) (ground arith)

  HasIds-listed : (revs : RevisionList Bytes) → In x revs → listed revid (all_rev_ids revs) ≡ true
  unfolding listed
  HasIds-listed [] h = absurd h
  HasIds-listed (y ∷ revs) (inl e) = rw (← e, ids.rev_is, revid_eq_refl revid) refl
  HasIds-listed (y ∷ revs) (inr h) = elim (Option-cases y.rev_id) [
    | inl nothing ↦ rw nothing (HasIds-listed revs h)
    | inr (id, given) ↦ rw (given, HasIds-listed revs h) (ground arith)
  ]

-- Of a revision with both IDs, `findMissingRevisions:` keeps every copy in the list exactly if the
-- database has no revision of that document with that revision ID.
pub find_missing_revisions_iff :
    (docid : Bytes) (revid : TreeRevId) (x : Revision Bytes) (revs : RevisionList Bytes)
    (st : Store)
    → HasIds docid revid x
    → In x (find_missing_revisions revs st) ↔ (In x revs × (¬ IsStored docid revid st))
unfolding find_missing_revisions stored_among
find_missing_revisions_iff docid revid x [] st ids = (λ h. absurd h, λ h. absurd h.0)
find_missing_revisions_iff docid revid x (y ∷ ys) st ids = (kept, keeps)
  where
    revs : RevisionList Bytes
    revs = y ∷ ys

    found : List Joined
    found = stored_among revs st

    stored-found : In x revs → (s : IsStored docid revid st) → In (s.doc, s.row) found
    stored-found h s =
        where_rows-In _ (s.doc, s.row) (join st.docs st.rows)
          (join-In s.doc s.row st.docs st.rows s.doc_place s.row_place s.joined)
          (and_true _ _
            (subst (λ v. listed v (all_rev_ids revs) ≡ true) (sym s.revid_is)
              (HasIds-listed x ids revs h))
            (subst (λ d. doc_listed d revs ≡ true) (sym s.docid_is)
              (HasIds-doc_listed x ids revs h)))

    kept : In x (remove_found found revs) → In x revs × (¬ IsStored docid revid st)
    kept h =
        let (place, others) = In-remove_found x found revs h in
        (
          place,
          λ s.
              others (s.doc, s.row) (stored-found place s)
                (record { doc_is = rw s.docid_is ids.doc_is; rev_is = rw s.revid_is ids.rev_is }),
        )

    keeps : In x revs × (¬ IsStored docid revid st) → In x (remove_found found revs)
    keeps (h, n) = remove_found-In x found revs h λ j place its.
        let (at_j, passes) = In-where_rows _ j (join st.docs st.rows) place in
        let (doc, row, id) = In-join j st.docs st.rows at_j in
        n (record {
          doc = j.0;
          row = j.1;
          doc_place = doc;
          row_place = row;
          docid_is = cc (its.doc_is, ids.doc_is);
          joined = id;
          revid_is = cc (its.rev_is, ids.rev_is);
        })
