-- ===== src/Tests/Sequences.antt =====
-- Source/CBLSequenceMap.m: checkpoints at concrete inputs.
use couchbase_lite_ios.Base.{ℕ, ◌≡◌, refl, some, List, [], ◌∷◌, ◌++◌}
use couchbase_lite_ios.SequenceMap.{
  SequenceMap, init, add_value, remove_sequence, checkpointed_sequence, checkpointed_value,
  first_index, add_index, remove_index,
}
use couchbase_lite_ios.SequenceMap.Checkpoints.{
  IsMapOf, logged, Reached, started, added, removed, Reached-IsMapOf, checkpointed_value-logged,
}

-- Two values, of which the first is processed.
abbrev half_done : SequenceMap ℕ
half_done = remove_sequence 1 (add_value 20 (add_value 10 init).1).1

abbrev log : List ℕ
log = ([] ++ (10 ∷ [])) ++ (20 ∷ [])

half_done-Reached : Reached half_done log
half_done-Reached = removed 1 (added 20 (added 10 started))

checkpoint_run :
    ((checkpointed_sequence half_done).0 ≡ 1) × ((checkpointed_value half_done).0 ≡ some 10)
unfolding checkpointed_value checkpointed_sequence init add_value remove_sequence add_index
    remove_index first_index
checkpoint_run = (refl, refl)

Reached-IsMapOf_example : IsMapOf half_done log
Reached-IsMapOf_example = Reached-IsMapOf half_done-Reached

checkpointed_value-logged_example :
    ((checkpointed_value half_done).0 ≡ logged log (checkpointed_sequence half_done).0)
    × IsMapOf (checkpointed_value half_done).1 log
checkpointed_value-logged_example =
    checkpointed_value-logged half_done log (Reached-IsMapOf half_done-Reached)
