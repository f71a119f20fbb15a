-- ===== src/Differ/Distance.antt =====
-- Source/Differ.cc: `distance` on an object just set up.
use couchbase_lite_ios.Base.{ℕ, ◌^◌, ◌<◌, Bool, arith}
use couchbase_lite_ios.Differ.{BaseDiffer, uint_max, setup}
use couchbase_lite_ios.Differ.Changes.{distance}
use couchbase_lite_ios.Differ.Compute.{compute-Returns}
use couchbase_lite_ios.Differ.Steps.{Between}
use couchbase_lite_ios.Differ.Setup.{setup-IsSetup}
use couchbase_lite_ios.Differ.Loop.{setup-IsRunning}

-- The distance of two arrays of less than 2 ^ 24 items, whatever the test of items, is at least the
-- difference of their lengths and at most the greater one.
pub distance-Between :
    (items_equal : ℕ → ℕ → Bool) (old_len new_len : ℕ) (d : BaseDiffer)
    → old_len < 2 ^ 24
    → new_len < 2 ^ 24
    → Between new_len old_len (distance items_equal (setup items_equal old_len new_len d)).1
unfolding distance
distance-Between items_equal old_len new_len d old_in new_in =
    let e = setup items_equal old_len new_len d in
    let h = setup-IsRunning items_equal old_len new_len d e.changes old_in new_in in
    let (suffix, is_setup) = setup-IsSetup items_equal old_len new_len d in
    let a = is_setup.old_len_in in
    let b = is_setup.nuu_len_in in
    let (_, r) =
      compute-Returns items_equal e e e.nuu_len e.old_len uint_max h.nuu_in h.old_in h.is_state
        h.n_in h.o_in in
    let between = r.distance_in in (omega arith, omega arith)
