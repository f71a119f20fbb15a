-- ===== src/Storage/Prune.antt =====
-- Source/CBL_SQLiteStorage.m: `pruneDocument:numericID:generationsBelow:` and `purgeSequences:`.
use couchbase_lite_ios.Base.{
  ℕ, zero, suc, true, false, not, ◌&&◌, Option, none, some, List, [], ◌∷◌, ◌++◌, map, leb, ◌==◌,
  if◌then◌else◌, length,
}
use couchbase_lite_ios.Base.Int.{pos}
use couchbase_lite_ios.RevId.{TreeRevId, format_int}
use couchbase_lite_ios.Storage.Table.{Row, where_rows, revid_lt, delete_where, is_doc, member}
use couchbase_lite_ios.Storage.Docs.{or_zero}
use couchbase_lite_ios.Storage.Queries.{leaves_of}

-- An entry of the dictionary `revs`: a sequence and its parent's, 0 for NULL.
pub record Link : Type 0 where
  pub seq : ℕ
  pub parent : ℕ

unfoldable pub find_link : ℕ → List Link → Option ℕ
find_link seq [] = none
find_link seq (l ∷ ls) = if l.seq == seq then some l.parent else find_link seq ls

unfoldable pub remove_link : ℕ → List Link → List Link
remove_link seq [] = []
remove_link seq (l ∷ ls) = if l.seq == seq then remove_link seq ls else l ∷ remove_link seq ls

-- The inner loop: from `seq` upwards, `left` steps at most.
unfoldable pub unlink_ancestors : ℕ → ℕ → List Link → List Link
unfolding find_link remove_link
unlink_ancestors zero seq revs = revs
unlink_ancestors (suc left) seq revs = elim (find_link seq revs) [
  | none ↦ remove_link seq revs
  | some parent ↦ elim (parent == 0) [
    | true ↦ remove_link seq revs
    | false ↦ unlink_ancestors left parent (remove_link seq revs)
  ]
]

unfoldable pub unlink_leaves : ℕ → List ℕ → List Link → List Link
unfolding unlink_ancestors
unlink_leaves depth [] revs = revs
unlink_leaves depth (leaf ∷ leaves) revs =
    unlink_leaves depth leaves (unlink_ancestors depth leaf revs)

unfoldable pub purge_sequences : List ℕ → List Row → List Row
unfolding delete_where member
purge_sequences seqs rows = delete_where (λ r. member r.sequence seqs) rows

abbrev pub tree_links : ℕ → List Row → List Link
tree_links doc rows =
    map (λ (r : Row). let l : Link = record { seq = r.sequence; parent = or_zero r.parent } in l)
      (where_rows (is_doc doc) rows)

abbrev pub min_revid : ℕ → TreeRevId
min_revid min_gen = format_int (pos min_gen) ++ (b'-' ∷ [])

-- A document without branches.
unfoldable pub prune_trunk : ℕ → ℕ → List Row → List Row
unfolding revid_lt delete_where format_int
prune_trunk doc min_gen rows =
    delete_where (λ r. is_doc doc r && revid_lt r.revid (min_revid min_gen) && not r.current) rows

-- A document with branches. The argument `leaves` is an enumeration of the set of its leaves.
unfoldable pub prune_branches : ℕ → ℕ → List ℕ → List Row → List Row
unfolding where_rows unlink_leaves purge_sequences
prune_branches depth doc leaves rows =
    purge_sequences (map (λ (l : Link). l.seq) (unlink_leaves depth leaves (tree_links doc rows)))
      rows

-- `enumerate` is the order in which an NSSet hands out its members.
unfoldable pub prune_document : (List ℕ → List ℕ) → ℕ → ℕ → ℕ → List Row → List Row
unfolding where_rows prune_trunk prune_branches
prune_document enumerate depth doc min_gen rows =
    let leaves = map (λ (r : Row). r.sequence) (leaves_of doc rows) in
    if leb (length leaves) 1
    then prune_trunk doc min_gen rows
    else prune_branches depth doc (enumerate leaves) rows
