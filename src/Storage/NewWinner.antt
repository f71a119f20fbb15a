-- ===== src/Storage/NewWinner.antt =====
-- Source/CBL_SQLiteStorage.m, `winnerWithDocID:…`: the winner after an insertion is found without
-- a query in most cases, and agrees with the query.
use mathlib.Core.Path.{subst}
use couchbase_lite_ios.Base.{
  ℕ, ◌≡◌, ◌≢◌, refl, sym, ap, ◌∙◌, ◌⊎◌, inl, inr, Bool, true, false, Option, none, some, List,
  if◌then◌else◌, arith, Bool-cases, Ordering,
}
use couchbase_lite_ios.Base.Bytes.{equal, equal_sound}
use couchbase_lite_ios.RevId.{TreeRevId, collate_rev_ids}
use couchbase_lite_ios.RevId.Order.{collate_rev_ids-flip}
use couchbase_lite_ios.Storage.Table.{Row, revid_lt}
use couchbase_lite_ios.Storage.Queries.{
  leaves_of, wins, compares_greater, Winner, winning_rev_id, winner_with,
}
use couchbase_lite_ios.Storage.Rows.{In}
use couchbase_lite_ios.Storage.Winning.{
  HasProperId, AllProper, IsBest, winning_rev_id-IsWinnerOf, leaf-HasProperId, wins_trans,
}

-- Two rows that the order of the query does not tell apart.
record Alike (r s : Row) : Type 0 where
  revid_is : r.revid ≡ s.revid
  deleted_is : r.deleted ≡ s.deleted

wins_left : (r s t : Row) → Alike r s → wins r t ≡ wins s t
unfolding wins
wins_left r s t a = rw (a.revid_is, a.deleted_is)

wins_right : (r s t : Row) → Alike r s → wins t r ≡ wins t s
unfolding wins
wins_right r s t a = rw (a.revid_is, a.deleted_is)

-- What an insertion does to the current rows of a document: `new` is among them, the revision that
-- it replaces, of a smaller ID, is not, and the others stay.
pub record Grows (leaves leaves' : List Row) (new : Row) : Type 0 where
  pub new_in : In new leaves'
  pub others :
      (r : Row)
      → In r leaves'
      → (r.revid ≡ new.revid) × (r.deleted ≡ new.deleted)
        ⊎ ((s : Row) × In s leaves × (r.revid ≡ s.revid) × (r.deleted ≡ s.deleted))
  pub kept :
      (s : Row)
      → In s leaves
      → (collate_rev_ids new.revid s.revid ≡ Ordering.gt)
        ⊎ ((r : Row) × In r leaves' × (r.revid ≡ s.revid) × (r.deleted ≡ s.deleted))

-- UNIQUE (doc_id, revid), for the current rows.
abbrev pub AreDistinct : List Row → Type 0
AreDistinct rows =
    (r s : Row)
    → In r rows
    → In s rows
    → collate_rev_ids r.revid s.revid ≡ Ordering.eq
    → r.revid ≡ s.revid

tie :
    (r s : Row)
    → wins r s ≡ false
    → wins s r ≡ false
    → collate_rev_ids r.revid s.revid ≡ Ordering.eq
unfolding wins revid_lt
tie r s h k = ground (arith, collate_rev_ids-flip r.revid s.revid)

greater-wins :
    (r s : Row)
    → r.deleted ≡ s.deleted
    → collate_rev_ids r.revid s.revid ≡ Ordering.gt
    → wins r s ≡ true
unfolding wins revid_lt
greater-wins r s d h = ground (arith, collate_rev_ids-flip r.revid s.revid)

module _ (leaves leaves' : List Row) (new w b : Row) (grows : Grows leaves leaves' new)
    (proper : (r : Row) → In r leaves → HasProperId r)
    (proper' : (r : Row) → In r leaves' → HasProperId r) (best : IsBest w leaves)
    (best' : IsBest b leaves') where
  new-is-best : wins new w ≡ true → b.revid ≡ new.revid
  new-is-best h = elim (grows.others b best'.0) [
    | inl (e, _) ↦ e
    | inr (s, place, e, d) ↦
        let a : Alike b s = record { revid_is = e; deleted_is = d } in
        let behind : wins new s ≡ false = sym (wins_right b s new a) ∙ best'.1 new grows.new_in in
        cc (
          wins_trans w s new (proper w best.0) (proper s place) (proper' new grows.new_in)
            (best.1 s place) behind)
  ]

  behind : wins new w ≡ false → wins b w ≡ false
  behind h = elim (grows.others b best'.0) [
    | inl (e, d) ↦ wins_left b new w (record { revid_is = e; deleted_is = d }) ∙ h
    | inr (s, place, e, d) ↦
        wins_left b s w (record { revid_is = e; deleted_is = d }) ∙ best.1 s place
  ]

  old-is-best :
      AreDistinct leaves' → wins new w ≡ false → new.deleted ≡ w.deleted → b.revid ≡ w.revid
  old-is-best distinct h d = elim (grows.kept w best.0) [
    | inl greater ↦ cc (greater-wins new w d greater)
    | inr (w', place', e, d') ↦
        let a : Alike w' w = record { revid_is = e; deleted_is = d' } in
        distinct b w' best'.0 place' (tie b w' (wins_right w' w b a ∙ behind h) (best'.1 w' place'))
        ∙ e
  ]

-- The new winner: what the method returned, or the old one if it returned nil.
abbrev pub or_old : Option TreeRevId → Option TreeRevId → Option TreeRevId
or_old none old = old
or_old (some r) old = some r

compares_greater-wins :
    (r s : Row) → r.deleted ≡ s.deleted → compares_greater r.revid s.revid ≡ wins r s
unfolding wins revid_lt compares_greater
compares_greater-wins r s d = ground (arith, collate_rev_ids-flip r.revid s.revid)

alive-wins : (r s : Row) → r.deleted ≡ false → s.deleted ≡ true → wins r s ≡ true
unfolding wins
alive-wins r s h k = ground arith

or_old-query :
    (query : Option TreeRevId) (old : TreeRevId)
    → query ≢ none
    → or_old
        (elim query [ none ↦ none | some winner ↦ if equal winner old then none else some winner ])
        (some old)
      ≡ query
or_old-query none old h = absurd (h refl)
or_old-query (some winner) old h = ground (arith, equal_sound winner old)

module _ (rows' : List Row) (doc : ℕ) (leaves leaves' : List Row) (new w b : Row)
    (grows : Grows leaves leaves' new) (distinct : AreDistinct leaves')
    (proper : (r : Row) → In r leaves → HasProperId r)
    (proper' : (r : Row) → In r leaves' → HasProperId r) (best : IsBest w leaves)
    (best' : IsBest b leaves') (query : (winning_rev_id rows' doc).revid ≡ some b.revid) where
  same_kind :
      new.deleted ≡ w.deleted
      → or_old (if compares_greater new.revid w.revid then some new.revid else none) (some w.revid)
        ≡ some b.revid
  same_kind e = elim (Bool-cases (compares_greater new.revid w.revid)) [
    | inl greater ↦ rw greater (
        ap some (
          sym (
            new-is-best leaves leaves' new w b grows proper proper' best best'
              (sym (compares_greater-wins new w e) ∙ greater))))
    | inr lesser ↦ rw lesser (
        ap some (
          sym (
            old-is-best leaves leaves' new w b grows proper proper' best best' distinct
              (sym (compares_greater-wins new w e) ∙ lesser) e)))
  ]

  by_kind :
      (nd od : Bool)
      → new.deleted ≡ nd
      → w.deleted ≡ od
      → or_old (winner_with rows' doc (some w.revid) od new.revid nd) (some w.revid) ≡ some b.revid
  unfolding winner_with
  by_kind false true n o = ap some (
      sym
        (new-is-best leaves leaves' new w b grows proper proper' best best' (alive-wins new w n o)))
  by_kind false false n o = same_kind (n ∙ sym o)
  by_kind true true n o = same_kind (n ∙ sym o)
  by_kind true false n o = or_old-query (winning_rev_id rows' doc).revid w.revid (λ e. cc) ∙ query

module _ (rows rows' : List Row) (doc : ℕ) (new : Row) (proper : AllProper doc rows)
    (proper' : AllProper doc rows') (grows : Grows (leaves_of doc rows) (leaves_of doc rows') new)
    (distinct : AreDistinct (leaves_of doc rows')) where
  abbrev old : Winner
  old = winning_rev_id rows doc

  -- If every revision of the document has a proper ID, and the current revisions are the old ones
  -- with the new one in place of one of a smaller ID, or besides them, then the method's answer,
  -- or the old winner where it answers nil, is the winner that the query finds afterwards.
  pub winner_with-winning_rev_id :
      or_old (winner_with rows' doc old.revid old.is_deleted new.revid new.deleted) old.revid
      ≡ (winning_rev_id rows' doc).revid
  winner_with-winning_rev_id = elim ((winning_rev_id-IsWinnerOf doc rows' proper').best) [
    | inl (nothing, _) ↦ absurd (subst (In new) nothing grows.new_in)
    | inr (b, best', found, _) ↦ elim ((winning_rev_id-IsWinnerOf doc rows proper).best) [
      | inl (nothing, no_old) ↦
          rw (no_old, found)
            (unfold winner_with in
              elim (grows.others b best'.0) [
                | inl (e, _) ↦ ap some (sym e)
                | inr (s, place, _, _) ↦ absurd (subst (In s) nothing place)
              ])
      | inr (w, best, is_old, kind) ↦
          rw (is_old, kind, found)
            (by_kind rows' doc (leaves_of doc rows) (leaves_of doc rows') new w b grows distinct
              (leaf-HasProperId doc rows proper) (leaf-HasProperId doc rows' proper') best best'
              found new.deleted w.deleted refl refl)
    ]
  ]
