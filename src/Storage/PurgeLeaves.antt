-- ===== src/Storage/PurgeLeaves.antt =====
-- Source/CBL_SQLiteStorage.m, `purgeRevisions:result:`: it deletes the current revisions that are given.
use mathlib.Core.Path.{subst}
use couchbase_lite_ios.Base.{
  ℕ, ◌≡◌, ◌≢◌, refl, sym, ap, ◌∙◌, inl, inr, ◌&&◌, ◌||◌, not, true, false, List, [], ◌∷◌, ◌==◌,
  ==_iff, arith, Bool-cases,
}
use couchbase_lite_ios.Differ.Steps.{pick-lem}
use couchbase_lite_ios.RevId.{TreeRevId}
use couchbase_lite_ios.Storage.Table.{Row, where_rows, order_by, is_doc, member}
use couchbase_lite_ios.Storage.Docs.{or_zero}
use couchbase_lite_ios.Storage.Queries.{contains_id, newest_first}
use couchbase_lite_ios.Storage.Prune.{purge_sequences}
use couchbase_lite_ios.Storage.Purge.{
  Scan, no_rows, scan_row, scan_rows, minus, scan_doc, purge_ids,
}
use couchbase_lite_ios.Storage.Rows.{
  In, order_by-In, where_rows-In, In-delete_where, In-where_rows, In-order_by,
}
use couchbase_lite_ios.Storage.WellFormed.{IsWellFormed}
use couchbase_lite_ios.Storage.Pruning.{forget_parent-SameRow}
use couchbase_lite_ios.Storage.PurgeLists.{member-purged, member-remove_other, member-add_parent}
use couchbase_lite_ios.Storage.PurgeScan.{not_parent}

module _ (rows : List Row) (last : ℕ) (w : IsWellFormed 0 rows last) where
  -- A leaf that is given
  module _ (rev_ids : List TreeRevId) (r : Row) (place : In r rows) (leaf : r.current ≡ true)
      (given : contains_id r.revid rev_ids ≡ true) where
    never_kept :
        (x : Row) (s : Scan)
        → In x rows
        → member r.sequence s.seqs_to_keep ≡ false
        → member r.sequence (scan_row rev_ids x s).seqs_to_keep ≡ false
    unfolding scan_row member
    never_kept x s h k =
        pick-lem (λ (t : Scan). member r.sequence t.seqs_to_keep ≡ false)
          ((member x.sequence s.seqs_to_purge || contains_id x.revid rev_ids)
            && not (member x.sequence s.seqs_to_keep))
          _ _ (λ e. k) (λ e. ground (arith, k, not_parent rev_ids rows last w r place leaf x h))

    purged_itself :
        (s : Scan)
        → member r.sequence s.seqs_to_keep ≡ false
        → member r.sequence (scan_row rev_ids r s).seqs_to_purge ≡ true
    unfolding scan_row member
    purged_itself s k =
        pick-lem (λ (t : Scan). member r.sequence t.seqs_to_purge ≡ true)
          ((member r.sequence s.seqs_to_purge || contains_id r.revid rev_ids)
            && not (member r.sequence s.seqs_to_keep))
          _ _
          (λ e.
            member-add_parent r.sequence (or_zero r.parent) (r.sequence ∷ s.seqs_to_purge)
              (ground arith))
          (λ e. absurd (ground (arith, e, given, k)))

    stays_purged :
        (x : Row) (s : Scan)
        → In x rows
        → member r.sequence s.seqs_to_keep ≡ false
        → member r.sequence s.seqs_to_purge ≡ true
        → member r.sequence (scan_row rev_ids x s).seqs_to_purge ≡ true
    unfolding scan_row
    stays_purged x s h k m = elim (Bool-cases (r.sequence == x.sequence)) [
      | inl same ↦
          subst (λ z. member r.sequence (scan_row rev_ids z s).seqs_to_purge ≡ true)
            (w.one_sequence r x place h ((==_iff _ _).0 same)) (purged_itself s k)
      | inr other ↦
          pick-lem (λ (t : Scan). member r.sequence t.seqs_to_purge ≡ true)
            ((member x.sequence s.seqs_to_purge || contains_id x.revid rev_ids)
              && not (member x.sequence s.seqs_to_keep))
            _ _
            (λ e.
              member-add_parent r.sequence (or_zero x.parent) (x.sequence ∷ s.seqs_to_purge)
                (unfold member in ground (arith, m)))
            (λ e. member-remove_other r.sequence x.sequence s.seqs_to_purge other m)
    ]

    -- After the scan of a list, the leaf is to be purged if it was before or if it is in the list.
    IsPurged : Scan → Type 0
    IsPurged s =
        (member r.sequence s.seqs_to_keep ≡ false) × (member r.sequence s.seqs_to_purge ≡ true)

    rest-IsPurged :
        (xs : List Row) (s : Scan)
        → ((x : Row) → In x xs → In x rows)
        → IsPurged s
        → IsPurged (scan_rows rev_ids xs s)
    unfolding scan_rows IsPurged
    rest-IsPurged [] s all h = h
    rest-IsPurged (x ∷ xs) s all (k, m) =
        rest-IsPurged xs (scan_row rev_ids x s) (λ q i. all q (inr i))
          (never_kept x s (all x (inl refl)) k, stays_purged x s (all x (inl refl)) k m)

    scan-IsPurged :
        (xs : List Row) (s : Scan)
        → ((x : Row) → In x xs → In x rows)
        → In r xs
        → member r.sequence s.seqs_to_keep ≡ false
        → IsPurged (scan_rows rev_ids xs s)
    unfolding scan_rows IsPurged
    scan-IsPurged [] s all h k = absurd h
    scan-IsPurged (x ∷ xs) s all (inr h) k =
        scan-IsPurged xs (scan_row rev_ids x s) (λ q i. all q (inr i)) h
          (never_kept x s (all x (inl refl)) k)
    scan-IsPurged (x ∷ xs) s all (inl e) k =
        rest-IsPurged xs (scan_row rev_ids x s) (λ q i. all q (inr i))
          (
            never_kept x s (all x (inl refl)) k,
            subst (λ (q : Row). member r.sequence (scan_row rev_ids q s).seqs_to_purge ≡ true) e
                (purged_itself s k),
          )

  -- In a well-formed table, purging given revisions of a document deletes each of its current revisions that
  -- is given: no row has its sequence any more.
  pub purge_ids-deletes :
      (rev_ids : List TreeRevId) (doc : ℕ) (r y : Row)
      → In r rows
      → r.current ≡ true
      → r.doc_id ≡ doc
      → contains_id r.revid rev_ids ≡ true
      → In y (purge_ids rev_ids doc rows)
      → y.sequence ≢ r.sequence
  unfolding purge_ids purge_sequences IsPurged
  purge_ids-deletes rev_ids doc r y place leaf in_doc given h same =
      let s = scan_doc rev_ids doc rows in
      let seqs = minus s.seqs_to_purge s.seqs_to_keep in
      let (x, at, not_gone, is_y) = In-delete_where (λ x. member x.sequence seqs) y rows h in
      let all = λ (q : Row) (i : In q (order_by newest_first (where_rows (is_doc doc) rows))).
        (In-where_rows (is_doc doc) q rows (In-order_by newest_first q _ i)).0 in
      let there =
        order_by-In newest_first r _
          (where_rows-In (is_doc doc) r rows place (ground (arith, in_doc))) in
      let (kept, purged) =
        scan-IsPurged rev_ids r place leaf given _ no_rows all there (unfold member in refl) in
      let x_is : x.sequence ≡ r.sequence =
        sym (forget_parent-SameRow _ x).sequence_is
        ∙ sym (ap (λ (q : Row). q.sequence) is_y)
        ∙ same in
      cc (
        not_gone,
        ap (λ (n : ℕ). member n seqs) x_is,
        member-purged r.sequence s.seqs_to_purge s.seqs_to_keep purged kept,
      )
