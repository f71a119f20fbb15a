-- ===== src/Tests/Diffs.antt =====
-- Source/Differ.cc: differences at concrete inputs.
use couchbase_lite_ios.Base.{
  ℕ, ◌≡◌, ◌<◌, refl, ap, Bool, true, Option, none, some, List, [], ◌∷◌, ◌==◌, get_elem?, All, arith,
}
use couchbase_lite_ios.Differ.{
  del, ins, change, ChangeVector, BaseDiffer, setup, both_equal, vector_items_equal, filled,
  set_elem, size_of_stripe,
}
use couchbase_lite_ios.Differ.Changes.{all_changes, distance}
use couchbase_lite_ios.Differ.Table.{IsTable, InTable}
use couchbase_lite_ios.Differ.Steps.{Between}
use couchbase_lite_ios.Differ.Setup.{setup-IsSetup}
use couchbase_lite_ios.Differ.Script.{apply_from}
use couchbase_lite_ios.Differ.Walk.{all_changes-apply_from}
use couchbase_lite_ios.Differ.Moves.{IsMoved, all_changes-IsMoved}
use couchbase_lite_ios.Differ.Distance.{distance-Between}
use couchbase_lite_ios.Differ.Shortest.{new_differ, changes_between}

abbrev before : List ℕ
before = 1 ∷ 2 ∷ 3 ∷ 4 ∷ []

abbrev after : List ℕ
after = 1 ∷ 3 ∷ 5 ∷ 4 ∷ []

abbrev same : ℕ → ℕ → Bool
same = vector_items_equal ◌==◌ before after

abbrev ready : BaseDiffer
ready = setup same 4 4 new_differ

changes_run : changes_between before after ≡ change del 1 1 ∷ change ins 3 2 ∷ []
unfolding changes_between setup filled set_elem size_of_stripe
changes_run = refl

both_equal_sound : (a b : Option ℕ) → both_equal ◌==◌ a b ≡ true → a ≡ b
both_equal_sound none b h = cc
both_equal_sound (some a) none h = cc
both_equal_sound (some a) (some b) h = ap some (ground arith)

same_sound : (i j : ℕ) → same i j ≡ true → get_elem? before i ≡ get_elem? after j
same_sound i j h = both_equal_sound (get_elem? before i) (get_elem? after j) h

all_changes-apply_from_example :
    (d' : BaseDiffer) × (cs : ChangeVector) × (all_changes same ready ≡ some (d', cs))
    × (apply_from before after 0 cs ≡ after)
all_changes-apply_from_example =
    all_changes-apply_from same before after same_sound new_differ refl (omega arith) (omega arith)

abbrev moving : BaseDiffer
moving = record new_differ { detects_moves = true }

all_changes-IsMoved_example :
    (d' : BaseDiffer) × (cs : ChangeVector) × (all_changes same (setup same 4 4 moving)
      ≡ some (d', cs))
    × All (IsMoved same) cs
all_changes-IsMoved_example = all_changes-IsMoved same 4 4 moving (omega arith) (omega arith)

distance-Between_example : Between 4 4 (distance same ready).1
distance-Between_example = distance-Between same 4 4 new_differ (omega arith) (omega arith)

ready-IsTable : IsTable ready
unfolding setup
ready-IsTable = (setup-IsSetup same 4 4 new_differ).1.is_state.table_in (omega arith) (omega arith)

ready-InTable : (x y : ℕ) → x < 2 → y < 2 → InTable ready x y
unfolding setup
ready-InTable x y a b = record { x_in = omega arith; y_in = omega arith }
