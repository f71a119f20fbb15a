-- ===== src/Storage/Preserved.antt =====
-- Source/CBL_SQLiteStorage.m: `forceInsert:` keeps the invariant of `revs`.
use couchbase_lite_ios.Base.{
  ℕ, ◌+◌, ◌≡◌, refl, ◌∙◌, inl, inr, Bool, true, false, Option, none, some, List, [], ◌∷◌, ◌==◌,
  if◌then◌else◌, length, arith, Bool-cases, Option-cases,
}
use couchbase_lite_ios.Base.Bytes.{Bytes, equal}
use couchbase_lite_ios.Base.Results.{Result, ok, err, ◌>>=◌, ◌>>◌}
use couchbase_lite_ios.RevId.{TreeRevId}
use couchbase_lite_ios.Storage.Table.{Row, Store}
use couchbase_lite_ios.Storage.Docs.{Numbered, create_or_get_doc_numeric_id}
use couchbase_lite_ios.Storage.Queries.{Winner, get_all_revisions, winning_rev_id}
use couchbase_lite_ios.Storage.Insert.{
  Outcome, stopped, in_transaction, Incoming, common_ancestor, trim_history, finish_insert,
  validate, second, sequence_of, force_insert_at, force_insert_block, force_insert, is_error,
  no_winner, status_ok, status_db_error, find_revid,
}
use couchbase_lite_ios.Storage.Rows.{In, In-where_rows, In-order_by}
use couchbase_lite_ios.Storage.WellFormed.{IsWellFormed}
use couchbase_lite_ios.Storage.Steps.{
  WellFormed, Ready, FirstWellFormed, Holds, held, returned, create_or_get-rows, WellFormed-weaken,
  insert_history-WellFormed, replace_ancestor-WellFormed, limit_depth-WellFormed,
}

abbrev pub OutcomeWellFormed : Outcome → Type 0
OutcomeWellFormed o = WellFormed 0 o.store

-- An aborted transaction leaves the tables as they were.
pub in_transaction-WellFormed :
    (st : Store) (block : Result Outcome)
    → WellFormed 0 st
    → Holds OutcomeWellFormed block
    → OutcomeWellFormed (in_transaction st block)
unfolding in_transaction
in_transaction-WellFormed st (ok o) f (held made_ok) = elim (Bool-cases (is_error o.status)) [
  | inl failed ↦ rw (in_transaction, failed) f
  | inr made ↦ rw (in_transaction, made) made_ok
]
in_transaction-WellFormed st (err status) f returned = elim (Bool-cases (is_error status)) [
  | inl failed ↦ rw (in_transaction, failed) f
  | inr made ↦ rw (in_transaction, made) f
]

-- An ancestor that the look-up finds is a row of the document.
abbrev Local : ℕ → Store → Option Row → Type 0
Local doc st none = Unit
Local doc st (some a) = In a st.rows × (a.doc_id ≡ doc)

find_revid-In :
    (revid : TreeRevId) (local : List Row) (a : Row) → find_revid revid local ≡ some a → In a local
unfolding common_ancestor
find_revid-In revid [] a e = cc
find_revid-In revid (r ∷ rs) a e = elim (Bool-cases (equal r.revid revid)) [
  | inl found ↦ inl (cc (rw (find_revid, found) at e))
  | inr other ↦ inr (find_revid-In revid rs a (rw (find_revid, other) at e))
]

common_ancestor-In :
    (index : ℕ) (history : List TreeRevId) (local : List Row) (a : Row)
    → (common_ancestor index history local).1 ≡ some a
    → In a local
unfolding common_ancestor
common_ancestor-In index [] local a e = cc
common_ancestor-In index (revid ∷ history) local a e =
    elim (Option-cases (find_revid revid local)) [
      | inl missing ↦
          common_ancestor-In (index + 1) history local a (rw (common_ancestor, missing) at e)
      | inr (r, found) ↦ find_revid-In revid local a (found ∙ (rw (common_ancestor, found) at e))
    ]

common_ancestor-Local :
    (doc : ℕ) (st : Store) (history : List TreeRevId) (ancestor : Option Row)
    → (common_ancestor 0 history (get_all_revisions st.rows doc false true)).1 ≡ ancestor
    → Local doc st ancestor
unfolding get_all_revisions
common_ancestor-Local doc st history none e = tt
common_ancestor-Local doc st history (some a) e =
    let listed = In-order_by _ a _ (common_ancestor-In 0 history _ a e) in
    let (place, passes) = In-where_rows _ a st.rows listed in (place, ground (arith, passes))

ancestor-Ready :
    (doc : ℕ) (st : Store) (ancestor : Option Row)
    → WellFormed 0 st
    → Local doc st ancestor
    → Ready (sequence_of ancestor) doc (sequence_of ancestor, st)
ancestor-Ready doc st none f local = (f, inl refl)
ancestor-Ready doc st (some a) f (place, d) =
    (WellFormed-weaken a.sequence st f, inr (a, place, refl, d, inr refl))

pub if-Holds :
    {A : Type 0} {P : A → Type 0} (condition : Bool) {m k : Result A}
    → Holds P m
    → Holds P k
    → Holds P (if condition then m else k)
if-Holds true h h' = h
if-Holds false h h' = h'

finish_insert-WellFormed :
    (enumerate : List ℕ → List ℕ) (rev : Incoming) (history : List TreeRevId)
    (ancestor : Option Row) (local : List Row) (old : Winner) (doc seq : ℕ) (st : Store)
    → WellFormed (sequence_of ancestor) st
    → OutcomeWellFormed (finish_insert enumerate rev history ancestor local old doc (seq, st))
unfolding finish_insert
finish_insert-WellFormed enumerate rev history ancestor local old doc seq st f =
    limit_depth-WellFormed enumerate doc rev.revid history local _
      (replace_ancestor-WellFormed ancestor old.is_conflict st f)

walk-Holds :
    (enumerate : List ℕ → List ℕ) (rev : Incoming) (history : List TreeRevId)
    (ancestor : Option Row) (local : List Row) (old : Winner) (doc : ℕ) (valid : Result Unit)
    (walk : Result (ℕ × Store))
    → Holds (FirstWellFormed (sequence_of ancestor)) walk
    → Holds OutcomeWellFormed (
        valid
        >> (walk >>= (λ inserted.
            ok (finish_insert enumerate rev history ancestor local old doc inserted))))
walk-Holds enumerate rev history ancestor local old doc (err status) walk h = returned
walk-Holds enumerate rev history ancestor local old doc (ok tt) (err status) h = returned
walk-Holds enumerate rev history ancestor local old doc (ok tt) (ok (seq, st)) (held f) =
    held (finish_insert-WellFormed enumerate rev history ancestor local old doc seq st f)

force_insert_at-WellFormed :
    (enumerate : List ℕ → List ℕ) (rev : Incoming) (full : List TreeRevId)
    (validation : Option (Option Row → Option TreeRevId → ℕ)) (index : ℕ) (ancestor : Option Row)
    (local : List Row) (old : Winner) (doc : ℕ) (st : Store)
    → WellFormed 0 st
    → Local doc st ancestor
    → Holds OutcomeWellFormed
        (force_insert_at enumerate rev full validation (index, ancestor) local old doc st)
unfolding force_insert_at
force_insert_at-WellFormed enumerate rev full validation index ancestor local old doc st f
      is_local =
    walk-Holds enumerate rev (trim_history index st.max_rev_tree_depth full) ancestor local old doc
      (validate validation ancestor (second full)) _
      (insert_history-WellFormed (sequence_of ancestor) rev doc (sequence_of ancestor)
        (trim_history index st.max_rev_tree_depth full) st
        (ancestor-Ready doc st ancestor f is_local))

-- No row, and no change of the tables' rows.
pub counted-WellFormed :
    (docid : Bytes) (is_new : Bool) (st : Store)
    → WellFormed 0 st
    → WellFormed 0 (create_or_get_doc_numeric_id docid is_new st).store
counted-WellFormed docid is_new st f =
    let (rows_are, last_is) = create_or_get-rows docid is_new st in rw (rows_are, last_is) f

force_insert_steps :
    (enumerate : List ℕ → List ℕ) (rev : Incoming) (full : List TreeRevId)
    (validation : Option (Option Row → Option TreeRevId → ℕ)) (n : Numbered) (index : ℕ)
    (ancestor : Option Row) (st : Store)
    → WellFormed 0 st
    → WellFormed 0 n.store
    → Local n.row n.store ancestor
    → OutcomeWellFormed (
        in_transaction st (
          if n.row == 0
          then err status_db_error
          else if n.is_new
          then force_insert_at enumerate rev full validation
              (length full, none)
              []
              no_winner
              n.row
              n.store
          else if index == 0
          then ok (stopped n.store status_ok)
          else force_insert_at enumerate rev full validation
              (index, ancestor)
              (get_all_revisions n.store.rows n.row false true)
              (winning_rev_id n.store.rows n.row)
              n.row
              n.store))
force_insert_steps enumerate rev full validation n index ancestor st f g is_local =
    in_transaction-WellFormed st _ f (
      if-Holds (n.row == 0) returned (
        if-Holds n.is_new
          (force_insert_at-WellFormed enumerate rev full validation (length full) none [] no_winner
            n.row n.store g tt)
          (if-Holds (index == 0) (held g) (
            force_insert_at-WellFormed enumerate rev full validation index ancestor _ _ n.row
              n.store g is_local))))

-- `forceInsert:` keeps the table `revs` well formed, whatever revision, history, validation block
-- and enumeration of sets it is given, and whether it succeeds, stops or is aborted.
pub force_insert-IsWellFormed :
    (enumerate : List ℕ → List ℕ) (docid : Bytes) (rev : Incoming) (full : List TreeRevId)
    (validation : Option (Option Row → Option TreeRevId → ℕ)) (st : Store)
    → IsWellFormed 0 st.rows st.last_sequence
    → IsWellFormed 0
        (force_insert enumerate docid rev full validation st).store.rows
        (force_insert enumerate docid rev full validation st).store.last_sequence
unfolding force_insert force_insert_block
force_insert-IsWellFormed enumerate docid rev full validation st f =
    let n = create_or_get_doc_numeric_id docid (length full == 1) st in
    let found = common_ancestor 0 full (get_all_revisions n.store.rows n.row false true) in
    force_insert_steps enumerate rev full validation n found.0 found.1 st f
      (counted-WellFormed docid (length full == 1) st f)
      (common_ancestor-Local n.row n.store full found.1 refl)
