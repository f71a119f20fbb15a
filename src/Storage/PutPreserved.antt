-- ===== src/Storage/PutPreserved.antt =====
-- Source/CBL_SQLiteStorage.m: `addDocID:` keeps the invariant of `revs`.
use mathlib.Core.Path.{subst}
use couchbase_lite_ios.Base.{
  ℕ, ◌≡◌, refl, sym, ◌∙◌, ◌⊎◌, inl, inr, Bool, true, false, not, ◌&&◌, ◌||◌, Option, none, some,
  List, ◌==◌, ==_iff, if◌then◌else◌, arith, Bool-cases, Option-cases,
}
use couchbase_lite_ios.Base.Bytes.{Bytes}
use couchbase_lite_ios.Base.Results.{Result, ok, err, ◌>>=◌}
use couchbase_lite_ios.RevId.{TreeRevId}
use couchbase_lite_ios.Storage.Table.{
  Row, Store, is_doc, revid_eq, where_rows, first_row, update_where,
}
use couchbase_lite_ios.Storage.Docs.{Numbered}
use couchbase_lite_ios.Storage.Queries.{Winner, get_sequence_of_document}
use couchbase_lite_ios.Storage.Insert.{NewRow, insert_revision, has_sequence}
use couchbase_lite_ios.Storage.Put.{
  Environment, Request, Found, number_doc, find_prev, find_deleted, find_first, find_new,
  find_parent, lookups, prepare, fix_parent, replace_parent, limit_tree, insert_new, put_steps,
  add_doc_id, is_none,
}
use couchbase_lite_ios.Storage.Rows.{In, In-where_rows, first_row-In}
use couchbase_lite_ios.Storage.WellFormed.{
  IsWellFormed, update_where-IsWellFormed, clear_current-IsWellFormed,
}
use couchbase_lite_ios.Storage.Steps.{
  WellFormed, ParentOk, Holds, held, returned, Holds->>=, WellFormed-weaken,
  insert_revision-WellFormed, if-WellFormed, prune_document-WellFormed,
}
use couchbase_lite_ios.Storage.Preserved.{
  OutcomeWellFormed, in_transaction-WellFormed, if-Holds, counted-WellFormed,
}

-- A sequence that the query returns is that of a row of the document, a current one on demand.
abbrev pub SequenceOf : List Row → ℕ → TreeRevId → Bool → ℕ → Type 0
SequenceOf rows doc revid only_current seq =
    (row : Row) × In row rows
    × (row.sequence ≡ seq)
    × (row.doc_id ≡ doc)
    × (revid_eq row.revid revid ≡ true)
    × ((only_current ≡ false) ⊎ (row.current ≡ true))

pub get_sequence-cases :
    (rows : List Row) (doc : ℕ) (revid : TreeRevId) (only_current : Bool)
    → (get_sequence_of_document rows doc revid only_current ≡ 0)
      ⊎ SequenceOf rows doc revid only_current
          (get_sequence_of_document rows doc revid only_current)
unfolding get_sequence_of_document
get_sequence-cases rows doc revid only_current =
    let test =
      λ (r : Row). is_doc doc r && revid_eq r.revid revid && (not only_current || r.current) in
    elim (Option-cases (first_row (where_rows test rows))) [
      | inl nothing ↦ inl (rw (get_sequence_of_document, nothing) refl)
      | inr (row, found) ↦
          let (place, passes) = In-where_rows test row rows (first_row-In row _ found) in
          inr (
            rw (get_sequence_of_document, found)
              (
                row,
                place,
                refl,
                ground (arith, passes),
                ground (arith, passes),
                ground (arith, passes),
              ))
    ]

-- What Part I guarantees.
abbrev FoundOk : Found → Type 0
FoundOk f = WellFormed 0 f.store × ParentOk f.parent_sequence f.store f.doc f.parent_sequence

parent_of-SequenceOf :
    (st : Store) (doc seq : ℕ) (revid : TreeRevId) (only_current : Bool)
    → (seq ≡ 0) ⊎ SequenceOf st.rows doc revid only_current seq
    → ParentOk seq st doc seq
parent_of-SequenceOf st doc seq revid only_current (inl is_zero) = inl is_zero
parent_of-SequenceOf st doc seq revid only_current (inr (row, place, at_seq, d, _, _)) =
    inr (row, place, at_seq, d, inr refl)

abbrev NumberedWellFormed : Numbered → Type 0
NumberedWellFormed n = WellFormed 0 n.store

number_doc-WellFormed :
    (docid : Option Bytes) (is_new : Bool) (st : Store)
    → WellFormed 0 st
    → Holds NumberedWellFormed (number_doc docid is_new st)
number_doc-WellFormed none is_new st f = held f
number_doc-WellFormed (some docid) is_new st f =
    if-Holds _ returned (held (counted-WellFormed docid is_new st f))

find_prev-FoundOk :
    (q : Request) (n : Numbered) (old : Winner) (prev : TreeRevId)
    → WellFormed 0 n.store
    → Holds FoundOk (find_prev q n old prev)
unfolding find_prev
find_prev-FoundOk q n old prev f = if-Holds n.is_new returned (
    if-Holds _ returned (
      held (
        f,
        parent_of-SequenceOf n.store n.row _ _ _
            (get_sequence-cases n.store.rows n.row prev (not q.allow_conflict)),
      )))

find_deleted-FoundOk :
    (n : Numbered) (old : Winner) (winner : Option TreeRevId)
    → WellFormed 0 n.store
    → Holds FoundOk (find_deleted n old winner)
unfolding find_deleted
find_deleted-FoundOk n old none f = held (f, inl refl)
find_deleted-FoundOk n old (some r) f =
    if-Holds old.is_deleted
      (held (
        f,
        parent_of-SequenceOf n.store n.row _ _ _ (get_sequence-cases n.store.rows n.row r false),
      ))
      returned

find_first-FoundOk :
    (q : Request) (n : Numbered) (old : Winner)
    → WellFormed 0 n.store
    → Holds FoundOk (find_first q n old)
unfolding find_first
find_first-FoundOk q n old f = if-Holds q.deleting returned (find_deleted-FoundOk n old old.revid f)

find_new-FoundOk :
    (uuid : Bytes) (n : Numbered) → WellFormed 0 n.store → Holds FoundOk (find_new uuid n)
unfolding find_new
find_new-FoundOk uuid n f =
    Holds->>= NumberedWellFormed FoundOk (number_doc (some uuid) n.is_new n.store) _
      (number_doc-WellFormed (some uuid) n.is_new n.store f) (λ n' f'. held (f', inl refl))

find_parent-FoundOk :
    (env : Environment) (q : Request) (n : Numbered) (old : Winner)
    → WellFormed 0 n.store
    → Holds FoundOk (find_parent env q n old)
unfolding find_parent
find_parent-FoundOk env q n old f = elim (Option-cases q.prev_revid) [
  | inr (prev, given) ↦ rw (find_parent, given) (find_prev-FoundOk q n old prev f)
  | inl none_given ↦ elim (Option-cases q.docid) [
    | inr (docid, named) ↦ rw (find_parent, none_given, named) (find_first-FoundOk q n old f)
    | inl unnamed ↦ rw (find_parent, none_given, unnamed) (find_new-FoundOk env.uuid n f)
  ]
]

lookups-FoundOk :
    (env : Environment) (q : Request) (st : Store)
    → WellFormed 0 st
    → Holds FoundOk (lookups env q st)
unfolding lookups
lookups-FoundOk env q st f =
    Holds->>= NumberedWellFormed FoundOk (number_doc q.docid (is_none q.prev_revid) st) _
      (number_doc-WellFormed _ _ st f) (λ n f'. find_parent-FoundOk env q n _ f')

abbrev set_parent : ℕ → Row → Row
set_parent parent r = record r { parent = some parent }

-- The row that a null parent is set in is of the parent's document.
module _ (parent doc : ℕ) (revid : TreeRevId) (st : Store) (f : WellFormed parent st) (row : Row)
    (place : In row st.rows) (at_parent : row.sequence ≡ parent) (of_doc : row.doc_id ≡ doc) where
  abbrev orphaned : Row → Bool
  orphaned r = is_doc doc r && revid_eq r.revid revid && is_none r.parent

  abbrev fixed : Row → Row
  fixed r = if orphaned r then set_parent parent r else r

  fixed_current : (r : Row) → (fixed r).current ≡ r.current
  fixed_current r = ground arith

  fixed_parent :
      (x : Row) (p : ℕ)
      → (fixed x).parent ≡ some p
      → (x.parent ≡ some p) ⊎ ((x.doc_id ≡ doc) × (p ≡ parent))
  fixed_parent x p e = ground arith

  link_before :
      (x : Row) (p : ℕ)
      → In x st.rows
      → (fixed x).parent ≡ some p
      → (r : Row) × In r st.rows
        × (r.sequence ≡ p)
        × (r.doc_id ≡ x.doc_id)
        × (((fixed r).current ≡ false) ⊎ (p ≡ parent))
  link_before x p h e = elim (fixed_parent x p e) [
    | inl kept ↦
        let l = f.linked x p h kept in
        (
          l.row,
          l.place,
          l.sequence_is,
          l.doc_is,
          elim l.replaced [ inl c ↦ inl (fixed_current l.row ∙ c) | inr same ↦ inr same ],
        )
    | inr (d, same) ↦ (row, place, at_parent ∙ sym same, of_doc ∙ sym d, inr same)
  ]

  fixed-WellFormed :
      IsWellFormed parent (update_where orphaned (set_parent parent) st.rows) st.last_sequence
  fixed-WellFormed =
      update_where-IsWellFormed parent parent st.rows st.last_sequence orphaned (set_parent parent)
        (record { sequence_is = λ r. refl; doc_is = λ r. refl; revid_is = λ r. refl }) f link_before

fix_parent-WellFormed :
    (parent doc : ℕ) (revid : TreeRevId) (st : Store)
    → WellFormed parent st
    → ParentOk parent st doc parent
    → WellFormed parent (fix_parent parent doc revid st)
unfolding fix_parent
fix_parent-WellFormed parent doc revid st f (inl none_given) = rw none_given (rw none_given at f)
fix_parent-WellFormed parent doc revid st f (inr (row, place, at_parent, of_doc, _)) =
    elim (Bool-cases (parent == 0)) [
      | inl none_given ↦ rw none_given f
      | inr given ↦ rw given (fixed-WellFormed parent doc revid st f row place at_parent of_doc)
    ]

replace_parent-WellFormed :
    (parent : ℕ) (st : Store) → WellFormed parent st → WellFormed 0 (replace_parent parent st)
unfolding replace_parent
replace_parent-WellFormed parent st f = elim (Bool-cases (parent == 0)) [
  | inl none_given ↦ rw none_given (subst (λ p. WellFormed p st) ((==_iff _ _).0 none_given) f)
  | inr given ↦ rw given (
      clear_current-IsWellFormed parent st.rows st.last_sequence (has_sequence parent)
        (λ r h e. inl (ground arith)) f)
]

limit_tree-WellFormed :
    (env : Environment) (doc : ℕ) (revid : TreeRevId) (st : Store)
    → WellFormed 0 st
    → WellFormed 0 (limit_tree env doc revid st)
unfolding limit_tree
limit_tree-WellFormed env doc revid st f =
    if-WellFormed _ _ st f (
      prune_document-WellFormed env.enumerate st.max_rev_tree_depth doc _ st.rows st.last_sequence
        f)

insert_new-WellFormed :
    (env : Environment) (q : Request) (f : Found) (r : NewRow)
    → FoundOk f
    → OutcomeWellFormed (insert_new env q f r)
unfolding insert_new
insert_new-WellFormed env q f r (forest, parent_ok) =
    let weak = WellFormed-weaken f.parent_sequence f.store forest in
    elim (Option-cases (insert_revision r f.doc f.parent_sequence f.store)) [
      | inl duplicate ↦
          rw (insert_new, duplicate)
            (replace_parent-WellFormed f.parent_sequence _
              (fix_parent-WellFormed f.parent_sequence f.doc r.revid f.store weak parent_ok))
      | inr ((seq, st'), made) ↦
          rw (insert_new, made)
            (limit_tree-WellFormed env f.doc r.revid _ (
              replace_parent-WellFormed f.parent_sequence st'
                (insert_revision-WellFormed f.parent_sequence r f.doc f.parent_sequence f.store weak
                  parent_ok made).0))
    ]

put_steps-WellFormed :
    (env : Environment) (q : Request) (st : Store)
    → WellFormed 0 st
    → Holds OutcomeWellFormed (put_steps env q st)
unfolding put_steps
put_steps-WellFormed env q st f =
    Holds->>= FoundOk OutcomeWellFormed (lookups env q st) _ (lookups-FoundOk env q st f)
      (λ found is_ok. prepared found is_ok (prepare env q found))
  where
    prepared :
        (found : Found)
        → FoundOk found
        → (m : Result NewRow) → Holds OutcomeWellFormed (m >>= (λ r. ok (insert_new env q found r)))
    prepared found is_ok (ok r) = held (insert_new-WellFormed env q found r is_ok)
    prepared found is_ok (err status) = returned

-- If the table `revs` is well formed, it is after `addDocID:` too, whatever it is asked and whatever its environment
-- does, and whether it inserts a revision, finds a duplicate or is aborted.
pub add_doc_id-IsWellFormed :
    (env : Environment) (q : Request) (st : Store)
    → IsWellFormed 0 st.rows st.last_sequence
    → IsWellFormed 0 (add_doc_id env q st).store.rows (add_doc_id env q st).store.last_sequence
unfolding add_doc_id
add_doc_id-IsWellFormed env q st f =
    in_transaction-WellFormed st _ f (put_steps-WellFormed env q st f)
