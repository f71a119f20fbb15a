-- ===== src/Tests/Purges.antt =====
-- Source/CBL_SQLiteStorage.m, `purgeRevisions:result:`: purging at concrete inputs.
use couchbase_lite_ios.Base.{
  ℕ, ◌≡◌, ◌≢◌, ◌∙◌, ◌⊎◌, ◌<◌, refl, sym, ap, inl, inr, true, false, some, List, [], ◌∷◌, arith,
}
use couchbase_lite_ios.Base.Bytes.{codes, equal, memchr, memcmp}
use couchbase_lite_ios.RevId.{collate_rev_ids, parse_digits}
use couchbase_lite_ios.Storage.Table.{
  Row, revid_eq, where_rows, order_by, is_doc, member, forget_parent, delete_where, insert_by,
}
use couchbase_lite_ios.Storage.Queries.{contains_id, newest_first}
use couchbase_lite_ios.Storage.Prune.{purge_sequences}
use couchbase_lite_ios.Storage.Purge.{
  purge_ids, scan_doc, scan_rows, scan_row, remove_sequence, minus,
}
use couchbase_lite_ios.Storage.PurgeScan.{AreOlder, further, itself, purge_ids-keeps}
use couchbase_lite_ios.Storage.PurgeLeaves.{purge_ids-deletes}
use couchbase_lite_ios.Storage.Rows.{In}
use couchbase_lite_ios.Storage.WellFormed.{IsWellFormed, Links}
use couchbase_lite_ios.Tests.Puts.{first}

-- The first revision of a document, after another one has replaced it.
abbrev replaced : Row
replaced = record first { current = false }

abbrev second_row : Row
second_row = record first { sequence = 2; revid = codes "2-bb"; parent = some 1 }

abbrev two_rows : List Row
two_rows = replaced ∷ second_row ∷ []

two_rows-Links : (r : Row) (p : ℕ) → In r two_rows → r.parent ≡ some p → Links 0 two_rows r p
two_rows-Links r p (inl e) is_some = absurd (cc (rw e at is_some))
two_rows-Links r p (inr (inl e)) is_some = rw e (record {
  row = replaced;
  place = inl refl;
  sequence_is = cc (ap (λ (q : Row). q.parent) e, is_some);
  doc_is = refl;
  replaced = inl refl;
})
two_rows-Links r p (inr (inr nowhere)) is_some = absurd nowhere

two_rows-differ :
    (revid_eq replaced.revid second_row.revid ≡ false)
    × (revid_eq second_row.revid replaced.revid ≡ false)
unfolding revid_eq collate_rev_ids parse_digits memchr memcmp
two_rows-differ = (refl, refl)

two_rows-IsWellFormed : IsWellFormed 0 two_rows 2
two_rows-IsWellFormed = record {
  counted = λ r h. elim h [
    | inl e ↦ rw e (omega arith, omega arith)
    | inr (inl e) ↦ rw e (omega arith, omega arith)
    | inr (inr nowhere) ↦ absurd nowhere
  ];
  one_sequence = one_sequence;
  one_revid = one_revid;
  linked = two_rows-Links;
}
  where
    one_sequence : (r s : Row) → In r two_rows → In s two_rows → r.sequence ≡ s.sequence → r ≡ s
    one_sequence r s (inl d) (inl e) same = d ∙ sym e
    one_sequence r s (inl d) (inr (inl e)) same = absurd (omega (arith, rw (d, e) at same))
    one_sequence r s (inr (inl d)) (inl e) same = absurd (omega (arith, rw (d, e) at same))
    one_sequence r s (inr (inl d)) (inr (inl e)) same = d ∙ sym e
    one_sequence r s (inr (inr nowhere)) k same = absurd nowhere
    one_sequence r s h (inr (inr nowhere)) same = absurd nowhere

    one_revid :
        (r s : Row)
        → In r two_rows
        → In s two_rows
        → r.doc_id ≡ s.doc_id
        → revid_eq r.revid s.revid ≡ true
        → r ≡ s
    one_revid r s (inl d) (inl e) k same = d ∙ sym e
    one_revid r s (inl d) (inr (inl e)) k same = absurd (cc (two_rows-differ.0, rw (d, e) at same))
    one_revid r s (inr (inl d)) (inl e) k same = absurd (cc (two_rows-differ.1, rw (d, e) at same))
    one_revid r s (inr (inl d)) (inr (inl e)) k same = d ∙ sym e
    one_revid r s (inr (inr nowhere)) l k same = absurd nowhere
    one_revid r s h (inr (inr nowhere)) k same = absurd nowhere

two_rows-AreOlder : AreOlder two_rows 2 two_rows-IsWellFormed
two_rows-AreOlder = record { older = older }
  where
    older : (x : Row) (p : ℕ) → In x two_rows → x.parent ≡ some p → p < x.sequence
    older x p (inl e) is_some = absurd (cc (rw e at is_some))
    older x p (inr (inl e)) is_some =
        let one : 1 ≡ p = cc (ap (λ (q : Row). q.parent) e, is_some) in
        omega (arith, one, ap (λ (q : Row). q.sequence) e)
    older x p (inr (inr nowhere)) is_some = absurd nowhere

not_given : contains_id (codes "2-bb") (codes "1-aa" ∷ []) ≡ false
unfolding contains_id equal
not_given = refl

-- The first revision is named, but the one that replaced it is not.
purge_ids-keeps_example : In replaced (purge_ids (codes "1-aa" ∷ []) 1 two_rows)
purge_ids-keeps_example =
    purge_ids-keeps two_rows 2 two_rows-IsWellFormed two_rows-AreOlder (codes "1-aa" ∷ []) 1
      second_row replaced (inr (inl refl)) refl refl not_given (further refl (inl refl) itself)

-- Revisions of two documents.
abbrev other : Row
other = record first { sequence = 2; doc_id = 2 }

abbrev two_docs : List Row
two_docs = first ∷ other ∷ []

two_docs-IsWellFormed : IsWellFormed 0 two_docs 2
two_docs-IsWellFormed = record {
  counted = λ r h. elim h [
    | inl e ↦ rw e (omega arith, omega arith)
    | inr (inl e) ↦ rw e (omega arith, omega arith)
    | inr (inr nowhere) ↦ absurd nowhere
  ];
  one_sequence = λ r s h k same. apart r s h k (inl same);
  one_revid = λ r s h k same e. apart r s h k (inr same);
  linked = linked;
}
  where
    apart :
        (r s : Row)
        → In r two_docs
        → In s two_docs
        → (r.sequence ≡ s.sequence) ⊎ (r.doc_id ≡ s.doc_id)
        → r ≡ s
    apart r s (inl d) (inl e) same = d ∙ sym e
    apart r s (inl d) (inr (inl e)) (inl same) = absurd (omega (arith, rw (d, e) at same))
    apart r s (inl d) (inr (inl e)) (inr same) = absurd (omega (arith, rw (d, e) at same))
    apart r s (inr (inl d)) (inl e) (inl same) = absurd (omega (arith, rw (d, e) at same))
    apart r s (inr (inl d)) (inl e) (inr same) = absurd (omega (arith, rw (d, e) at same))
    apart r s (inr (inl d)) (inr (inl e)) same = d ∙ sym e
    apart r s (inr (inr nowhere)) k same = absurd nowhere
    apart r s h (inr (inr nowhere)) same = absurd nowhere

    linked : (r : Row) (p : ℕ) → In r two_docs → r.parent ≡ some p → Links 0 two_docs r p
    linked r p (inl e) is_some = absurd (cc (rw e at is_some))
    linked r p (inr (inl e)) is_some = absurd (cc (rw e at is_some))
    linked r p (inr (inr nowhere)) is_some = absurd nowhere

id_given : contains_id (codes "1-aa") (codes "1-aa" ∷ []) ≡ true
unfolding contains_id equal
id_given = refl

other_left : In other (purge_ids (codes "1-aa" ∷ []) 1 two_docs)
unfolding purge_ids purge_sequences scan_doc scan_rows scan_row remove_sequence minus where_rows
    order_by insert_by is_doc member forget_parent delete_where contains_id newest_first equal
other_left = inl refl

purge_ids-deletes_example : other.sequence ≢ first.sequence
purge_ids-deletes_example =
    purge_ids-deletes two_docs 2 two_docs-IsWellFormed (codes "1-aa" ∷ []) 1 first other (inl refl)
      refl refl id_given other_left
