-- ===== src/SequenceMap.antt =====
-- Source/CBLSequenceMap.m. An NSMutableIndexSet is the list of its members, NSNotFound is `none`.
pub mod Checkpoints
use couchbase_lite_ios.Base.{
  ℕ, zero, suc, ◌+◌, ◌-◌, Bool, true, false, ◌||◌, Option, none, some, List, [], ◌∷◌, ◌++◌, ltb,
  leb, ◌==◌, if◌then◌else◌, length, drop, get_elem?, min,
}

unfoldable pub has_index : ℕ → List ℕ → Bool
has_index n [] = false
has_index n (x ∷ xs) = n == x || has_index n xs

unfoldable pub add_index : ℕ → List ℕ → List ℕ
unfolding has_index
add_index n xs = if has_index n xs then xs else n ∷ xs

unfoldable pub remove_index : ℕ → List ℕ → List ℕ
remove_index n [] = []
remove_index n (x ∷ xs) = if n == x then remove_index n xs else x ∷ remove_index n xs

unfoldable pub first_index : List ℕ → Option ℕ
first_index [] = none
first_index (x ∷ xs) = elim (first_index xs) [ none ↦ some x | some y ↦ some (min x y) ]

pub record SequenceMap (A : Type 0) : Type 0 where
  pub sequences : List ℕ
  pub last_sequence : ℕ
  pub values : List A
  pub first_value_sequence : ℕ

module _ {A : Type 0} where
  unfoldable pub init : SequenceMap A
  init = record { sequences = []; last_sequence = 0; values = []; first_value_sequence = 1 }

  pub count : SequenceMap A → ℕ
  count m = length m.sequences

  unfoldable pub add_value : A → SequenceMap A → ℕ × SequenceMap A
  unfolding add_index
  add_value value m =
      let last = m.last_sequence + 1 in
      (
        last,
        record m {
          sequences = add_index last m.sequences;
          last_sequence = last;
          values = m.values ++ (value ∷ []);
        },
      )

  -- Without the assertion that the sequence is one of the map.
  unfoldable pub remove_sequence : ℕ → SequenceMap A → SequenceMap A
  unfolding remove_index
  remove_sequence sequence m = record m { sequences = remove_index sequence m.sequences }

  unfoldable pub is_empty : SequenceMap A → Bool
  unfolding first_index
  is_empty m = elim (first_index m.sequences) [ none ↦ true | some _ ↦ false ]

  abbrev pub checkpoint : SequenceMap A → ℕ
  checkpoint m = elim (first_index m.sequences) [ none ↦ m.last_sequence | some first ↦ first - 1 ]

  unfoldable pub checkpointed_sequence : SequenceMap A → ℕ × SequenceMap A
  unfolding first_index
  checkpointed_sequence m =
      let sequence = checkpoint m in
      (
        sequence,
        if ltb m.first_value_sequence sequence
            then record m {
              values = drop (sequence - m.first_value_sequence) m.values;
              first_value_sequence = m.first_value_sequence + (sequence - m.first_value_sequence);
            }
            else m,
      )

  unfoldable pub checkpointed_value : SequenceMap A → Option A × SequenceMap A
  unfolding checkpointed_sequence
  checkpointed_value m =
      let (sequence, m') = checkpointed_sequence m in
      (
        if leb m'.first_value_sequence sequence
            then get_elem? m'.values (sequence - m'.first_value_sequence)
            else none,
        m',
      )
