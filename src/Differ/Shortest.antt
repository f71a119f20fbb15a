-- ===== src/Differ/Shortest.antt =====
-- Source/Differ.hh, the documentation of `changes`, and Source/Differ.cc, its test on the limit of steps.
use couchbase_lite_ios.Base.{
  ℕ, ◌≡◌, ◌≤◌, refl, false, none, some, List, [], ◌∷◌, ◌==◌, length, arith,
}
use couchbase_lite_ios.Differ.{
  del, ins, BaseDiffer, change, ChangeVector, setup, vector_items_equal, filled, set_elem,
  size_of_stripe,
}
use couchbase_lite_ios.Differ.Changes.{all_changes}
use couchbase_lite_ios.Differ.Script.{apply_from}

-- A new object.
abbrev pub new_differ : BaseDiffer
new_differ = record {
  comparisons = 0;
  old_len = 0;
  nuu_len = 0;
  prefix_len = 0;
  stripes = [];
  changes = [];
  detects_moves = false;
}

-- The changes between two vectors, none where `changes` does not return.
unfoldable pub changes_between : List ℕ → List ℕ → ChangeVector
unfolding all_changes
changes_between old nuu =
    let items_equal = vector_items_equal ◌==◌ old nuu in
    elim (all_changes items_equal (setup items_equal (length old) (length nuu) new_differ)) [
      | none ↦ []
      | some (d, cs) ↦ cs
    ]

abbrev shorter : ChangeVector
shorter = change ins 0 0 ∷ change ins 1 2 ∷ change del 2 4 ∷ []

shorter_applied :
    apply_from {A = ℕ} (1 ∷ 2 ∷ 1 ∷ []) (3 ∷ 1 ∷ 1 ∷ 2 ∷ []) 0 shorter ≡ 3 ∷ 1 ∷ 1 ∷ 2 ∷ []
shorter_applied = refl

four_found : length (changes_between (1 ∷ 2 ∷ 1 ∷ []) (3 ∷ 1 ∷ 1 ∷ 2 ∷ [])) ≡ 4
unfolding changes_between setup filled set_elem size_of_stripe
four_found = refl

-- It is not so that, for all old and new vectors, every list of changes that makes the new vector
-- of the old one is at least as long as the list that `changes` returns.
not-changes_between-shortest : ¬ (
    (old nuu : List ℕ) (cs : ChangeVector)
    → apply_from old nuu 0 cs ≡ nuu
    → length (changes_between old nuu) ≤ length cs)
not-changes_between-shortest shortest =
    let h = shortest (1 ∷ 2 ∷ 1 ∷ []) (3 ∷ 1 ∷ 1 ∷ 2 ∷ []) shorter shorter_applied in
    let e = four_found in omega arith
