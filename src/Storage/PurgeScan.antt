-- ===== src/Storage/PurgeScan.antt =====
-- Source/CBL_SQLiteStorage.m, `purgeRevisions:result:`: which revisions of a document it keeps.
use mathlib.Core.Path.{subst}
use couchbase_lite_ios.Base.{
  ℕ, ◌≡◌, ◌≢◌, refl, sym, ap, ◌∙◌, inl, inr, ◌<◌, ◌&&◌, ◌||◌, not, Bool, true, false, some, List,
  [], ◌∷◌, ◌==◌, ==_iff, if◌then◌else◌, arith, Bool-cases, Option-cases,
}
use couchbase_lite_ios.Differ.Steps.{pick-lem}
use couchbase_lite_ios.RevId.{TreeRevId}
use couchbase_lite_ios.Storage.Table.{Row, where_rows, order_by, is_doc, member, forget_parent}
use couchbase_lite_ios.Storage.Docs.{or_zero}
use couchbase_lite_ios.Storage.Queries.{contains_id, newest_first}
use couchbase_lite_ios.Storage.Prune.{purge_sequences}
use couchbase_lite_ios.Storage.Purge.{
  Scan, no_rows, add_parent, scan_row, scan_rows, minus, purge_ids,
}
use couchbase_lite_ios.Storage.Rows.{
  In, order_by-In, where_rows-In, In-where_rows, In-order_by, delete_where-In,
}
use couchbase_lite_ios.Storage.WellFormed.{IsWellFormed}
use couchbase_lite_ios.Storage.PurgeLists.{
  remove_sequence_itself, member-remove_sequence, member-minus, order_by-IsSorted, member-kept,
  member-selected, IsSorted,
}

-- A current revision is nobody's parent.
module _ (rev_ids : List TreeRevId) (rows : List Row) (last : ℕ) (w : IsWellFormed 0 rows last)
    (r : Row) (place : In r rows) (leaf : r.current ≡ true) where
  pub not_parent : (x : Row) → In x rows → or_zero x.parent ≢ r.sequence
  not_parent x h e = elim (Option-cases x.parent) [
    | inl none_there ↦ omega (arith, w.counted r place, ap or_zero none_there)
    | inr (p, is_p) ↦
        let l = w.linked x p h is_p in
        let same =
          w.one_sequence l.row r l.place place (l.sequence_is ∙ sym (ap or_zero is_p) ∙ e) in
        elim l.replaced [
          | inl c ↦ cc (ap (λ (z : Row). z.current) same)
          | inr z ↦ omega (arith, w.counted r place, ap or_zero is_p)
        ]
  ]

  abbrev Spared : Scan → Type 0
  Spared s = member r.sequence s.seqs_to_purge ≡ false

  if-Spared :
      (condition : Bool) (s t : Scan) → Spared s → Spared t → Spared (if condition then s else t)
  if-Spared true s t h k = h
  if-Spared false s t h k = k

  Spared-add_parent :
      (parent n : ℕ) (seqs : List ℕ)
      → parent ≢ r.sequence
      → (r.sequence == n) ≡ false
      → member r.sequence seqs ≡ false
      → member r.sequence (add_parent parent (n ∷ seqs)) ≡ false
  unfolding member
  Spared-add_parent parent n seqs h k m = ground arith

  module _ (not_given : contains_id r.revid rev_ids ≡ false) where
    scan_row-itself : (s : Scan) → Spared s → Spared (scan_row rev_ids r s)
    unfolding scan_row
    scan_row-itself s spared =
        rw (spared, not_given) (remove_sequence_itself r.sequence s.seqs_to_purge)

    scan_row-Spared : (x : Row) (s : Scan) → In x rows → Spared s → Spared (scan_row rev_ids x s)
    unfolding scan_row
    scan_row-Spared x s h spared = elim (Bool-cases (r.sequence == x.sequence)) [
      | inl same ↦
          subst (λ z. Spared (scan_row rev_ids z s))
            (w.one_sequence r x place h ((==_iff _ _).0 same)) (scan_row-itself s spared)
      | inr other ↦
          if-Spared _ _ _
            (Spared-add_parent (or_zero x.parent) x.sequence s.seqs_to_purge (not_parent x h) other
              spared)
            (member-remove_sequence r.sequence x.sequence s.seqs_to_purge spared)
    ]

    scan_rows-Spared :
        (xs : List Row) (s : Scan)
        → ((x : Row) → In x xs → In x rows)
        → Spared s
        → Spared (scan_rows rev_ids xs s)
    unfolding scan_rows
    scan_rows-Spared [] s all spared = spared
    scan_rows-Spared (x ∷ xs) s all spared =
        scan_rows-Spared xs (scan_row rev_ids x s) (λ y h. all y (inr h))
          (scan_row-Spared x s (all x (inl refl)) spared)

-- A revision that is kept at its turn is not purged, and neither is its parent.
module _ (rev_ids : List TreeRevId) where
  keeps_more :
      (n : ℕ) (x : Row) (s : Scan)
      → member n s.seqs_to_keep ≡ true
      → member n (scan_row rev_ids x s).seqs_to_keep ≡ true
  unfolding scan_row member
  keeps_more n x s h =
      pick-lem (λ (t : Scan). member n t.seqs_to_keep ≡ true)
        ((member x.sequence s.seqs_to_purge || contains_id x.revid rev_ids)
          && not (member x.sequence s.seqs_to_keep))
        _ _ (λ e. h) (λ e. ground (arith, h))

  keeps_rest :
      (n : ℕ) (xs : List Row) (s : Scan)
      → member n s.seqs_to_keep ≡ true
      → member n (scan_rows rev_ids xs s).seqs_to_keep ≡ true
  unfolding scan_rows
  keeps_rest n [] s h = h
  keeps_rest n (x ∷ xs) s h = keeps_rest n xs (scan_row rev_ids x s) (keeps_more n x s h)

  keeps_parent :
      (x : Row) (s : Scan) (p : ℕ)
      → x.parent ≡ some p
      → ((member x.sequence s.seqs_to_purge || contains_id x.revid rev_ids)
          && not (member x.sequence s.seqs_to_keep))
        ≡ false
      → member p (scan_row rev_ids x s).seqs_to_keep ≡ true
  unfolding scan_row member
  keeps_parent x s p e stays = rw (stays, e) (ground arith)

-- The rows that are scanned, in a table in which a parent is older than its child.
module _ (rows : List Row) (last : ℕ) (w : IsWellFormed 0 rows last) where
  -- From a row to itself, its parent, and so on.
  pub data Above : Row → Row → Type 0 where
    itself : {x : Row} → Above x x
    further : {x y z : Row} → x.parent ≡ some y.sequence → In y rows → Above y z → Above x z

  pub record AreOlder : Type 0 where
    pub older : (x : Row) (p : ℕ) → In x rows → x.parent ≡ some p → p < x.sequence

  -- With a row, the list has its parent.
  abbrev IsClosed : List Row → Type 0
  IsClosed xs = (x y : Row) → In x xs → In y rows → x.parent ≡ some y.sequence → In y xs

  AreRows : List Row → Type 0
  AreRows xs = (x : Row) → In x xs → In x rows

  module _ (o : AreOlder) where
    IsClosed-tail :
        (x : Row) (xs : List Row)
        → AreRows (x ∷ xs)
        → IsSorted (x ∷ xs)
        → IsClosed (x ∷ xs)
        → IsClosed xs
    unfolding AreRows
    IsClosed-tail x xs all sorted closed y z k place e = elim (closed y z (inr k) place e) [
      | inl is_head ↦ absurd (
          omega (
            arith,
            o.older y z.sequence (all y (inr k)) e,
            sorted.0 y k,
            ap (λ (q : Row). q.sequence) is_head,
          ))
      | inr later ↦ later
    ]

    parent-In_tail :
        (x y : Row) (xs : List Row)
        → AreRows (x ∷ xs)
        → IsClosed (x ∷ xs)
        → In y rows
        → x.parent ≡ some y.sequence
        → In y xs
    unfolding AreRows
    parent-In_tail x y xs all closed place e = elim (closed x y (inl refl) place e) [
      | inl is_head ↦ absurd (
          omega (
            arith,
            o.older x y.sequence (all x (inl refl)) e,
            ap (λ (q : Row). q.sequence) is_head,
          ))
      | inr later ↦ later
    ]

    -- What is kept when its turn comes, is kept with all that is above it.
    scan-keeps :
        (rev_ids : List TreeRevId) (xs : List Row) (s : Scan) (y z : Row)
        → AreRows xs
        → IsSorted xs
        → IsClosed xs
        → In y xs
        → member y.sequence s.seqs_to_keep ≡ true
        → Above y z
        → member z.sequence (scan_rows rev_ids xs s).seqs_to_keep ≡ true
    unfolding scan_rows AreRows
    scan-keeps rev_ids [] s y z all sorted closed k h a = absurd k
    scan-keeps rev_ids (x ∷ xs) s y z all sorted closed (inr k) h a =
        scan-keeps rev_ids xs (scan_row rev_ids x s) y z (λ q i. all q (inr i)) sorted.1
          (IsClosed-tail x xs all sorted closed) k (keeps_more rev_ids y.sequence x s h) a
    scan-keeps rev_ids (x ∷ xs) s y z all sorted closed (inl e) h itself =
        keeps_rest rev_ids y.sequence (x ∷ xs) s h
    scan-keeps rev_ids (x ∷ xs) s y z all sorted closed (inl e) h (further {y = v} e' place a) =
        let at_x = subst (λ (q : Row). q.parent ≡ some v.sequence) e e' in
        let kept = subst (λ (q : Row). member q.sequence s.seqs_to_keep ≡ true) e h in
        scan-keeps rev_ids xs (scan_row rev_ids x s) v z (λ q i. all q (inr i)) sorted.1
          (IsClosed-tail x xs all sorted closed) (parent-In_tail x v xs all closed place at_x)
          (keeps_parent rev_ids x s v.sequence at_x (ground (arith, kept))) a

    module _ (rev_ids : List TreeRevId) (r : Row) (place : In r rows)
        (leaf : r.current ≡ true) where
      -- The parent of a leaf that is not given is kept, with all that is above it.
      leaf-keeps :
          contains_id r.revid rev_ids ≡ false
          → (xs : List Row) (s : Scan) (y z : Row) → AreRows xs
          → IsSorted xs
          → IsClosed xs
          → In r xs
          → member r.sequence s.seqs_to_purge ≡ false
          → r.parent ≡ some y.sequence
          → In y rows
          → Above y z
          → member z.sequence (scan_rows rev_ids xs s).seqs_to_keep ≡ true
      unfolding scan_rows AreRows
      leaf-keeps not_given [] s y z all sorted closed k spared e at a = absurd k
      leaf-keeps not_given (x ∷ xs) s y z all sorted closed (inr k) spared e at a =
          leaf-keeps not_given xs (scan_row rev_ids x s) y z (λ q i. all q (inr i)) sorted.1
            (IsClosed-tail x xs all sorted closed) k
            (scan_row-Spared rev_ids rows last w r place leaf not_given x s (all x (inl refl))
              spared)
            e at a
      leaf-keeps not_given (x ∷ xs) s y z all sorted closed (inl is_head) spared e at a =
          let at_x = subst (λ (q : Row). q.parent ≡ some y.sequence) is_head e in
          let not_purged =
            subst (λ (q : Row). member q.sequence s.seqs_to_purge ≡ false) is_head spared in
          let not_listed =
            subst (λ (q : Row). contains_id q.revid rev_ids ≡ false) is_head not_given in
          scan-keeps rev_ids xs (scan_row rev_ids x s) y z (λ q i. all q (inr i)) sorted.1
            (IsClosed-tail x xs all sorted closed) (parent-In_tail x y xs all closed at at_x)
            (keeps_parent rev_ids x s y.sequence at_x (ground (arith, not_purged, not_listed))) a

      module _ (doc : ℕ) (in_doc : r.doc_id ≡ doc) where
        abbrev listed : List Row
        listed = order_by newest_first (where_rows (is_doc doc) rows)

        abbrev scanned : Scan
        scanned = scan_rows rev_ids listed no_rows

        abbrev gone : List ℕ
        gone = minus scanned.seqs_to_purge scanned.seqs_to_keep

        listed-In : (x : Row) → In x rows → x.doc_id ≡ doc → In x listed
        listed-In x h d =
            order_by-In newest_first x _ (where_rows-In (is_doc doc) x rows h (ground (arith, d)))

        listed-AreRows : AreRows listed
        unfolding AreRows
        listed-AreRows x h = (In-where_rows (is_doc doc) x rows (In-order_by newest_first x _ h)).0

        listed-IsClosed : IsClosed listed
        listed-IsClosed x y h at e =
            let (place', d) = In-where_rows (is_doc doc) x rows (In-order_by newest_first x _ h) in
            let l = w.linked x y.sequence place' e in
            let same = w.one_sequence l.row y l.place at l.sequence_is in
            listed-In y at (sym (ap (λ (q : Row). q.doc_id) same) ∙ l.doc_is ∙ ground (arith, d))

        -- What is above a leaf that is not given is not gone.
        Above-stays :
            contains_id r.revid rev_ids ≡ false
            → (z : Row) → Above r z
            → member z.sequence gone ≡ false
        Above-stays not_given z itself =
            member-minus r.sequence scanned.seqs_to_purge scanned.seqs_to_keep (
              scan_rows-Spared rev_ids rows last w r place leaf not_given listed no_rows
                (unfold AreRows in listed-AreRows) (unfold member in refl))
        Above-stays not_given z (further {y = v} e at a) =
            member-kept z.sequence scanned.seqs_to_purge scanned.seqs_to_keep (
              leaf-keeps not_given listed no_rows v z listed-AreRows
                (order_by-IsSorted (where_rows (is_doc doc) rows)) listed-IsClosed
                (listed-In r place in_doc) (unfold member in refl) e at a)

    snoc : {x y z : Row} → Above x y → y.parent ≡ some z.sequence → In z rows → Above x z
    snoc itself e at = further e at itself
    snoc (further e' at' a) e at = further e' at' (snoc a e at)

    Above-In : {x y : Row} → In x rows → Above x y → In y rows
    Above-In h itself = h
    Above-In h (further e at a) = Above-In at a

  forget_parent_kept :
      (seqs : List ℕ) (x : Row)
      → ((p : ℕ) → x.parent ≡ some p → member p seqs ≡ false)
      → forget_parent seqs x ≡ x
  unfolding forget_parent
  forget_parent_kept seqs x h = elim (Option-cases x.parent) [
    | inl none_there ↦ rw none_there refl
    | inr (p, is_p) ↦ rw (is_p, h p is_p) refl
  ]

  -- In a well-formed table in which a parent is older than its child, purging given revisions of a document
  -- leaves each of its current revisions that is not given as it is, with its parent, and so on up to the
  -- first one, also when these are given.
  pub purge_ids-keeps :
      AreOlder
      → (rev_ids : List TreeRevId) (doc : ℕ) (r z : Row) → In r rows
      → r.current ≡ true
      → r.doc_id ≡ doc
      → contains_id r.revid rev_ids ≡ false
      → Above r z
      → In z (purge_ids rev_ids doc rows)
  unfolding purge_ids purge_sequences
  purge_ids-keeps o rev_ids doc r z place leaf in_doc not_given a =
      let seqs = gone o rev_ids r place leaf doc in_doc in
      let stays = Above-stays o rev_ids r place leaf doc in_doc not_given in
      let linked_stays = λ (p : ℕ) (e : z.parent ≡ some p).
        let l = w.linked z p (Above-In o place a) e in
        member-selected p seqs rows (
          ap (λ (q : ℕ). member q seqs) (sym l.sequence_is)
          ∙ stays l.row (snoc o a (e ∙ ap some (sym l.sequence_is)) l.place)) in
      subst (λ q. In q (purge_sequences seqs rows)) (forget_parent_kept _ z linked_stays)
        (delete_where-In (λ x. member x.sequence seqs) z rows (Above-In o place a) (stays z a))
