-- ===== src/Differ.antt =====
-- Source/Differ.cc with the types of Source/Differ.hh, as they are compiled with `STRIPES` and
-- without `DEBUG`. A C++ object is a record that the methods take and return; the pure virtual
-- `itemsEqual` is a parameter. Lengths stay below 2 ^ 31, as the casts to `int` in `compute` want.
-- `UINT_MAX` is 2 ^ 32 - 1, a `size_t` has 64 bits and a distance in the table 24.
pub mod Changes
pub mod Table
pub mod Steps
pub mod Compute
pub mod Setup
pub mod Script
pub mod Loop
pub mod Walk
pub mod Moves
pub mod Distance
pub mod Shortest
use couchbase_lite_ios.Base.{
  ℕ, zero, suc, ◌+◌, ◌-◌, ◌*◌, ◌%◌, ◌^◌, ◌≡◌, ◌≤◌, ◌<◌, min, Bool, true, false, not, ◌&&◌, ◌||◌,
  Option, none, some, List, [], ◌∷◌, ◌++◌, ltb, leb, ◌==◌, if◌then◌else◌, get_elem?,
}

pub data Op : Type 0 where
  uninitialized nop del sub ins mov : Op

abbrev pub op_index : Op → ℕ
op_index uninitialized = 0
op_index nop = 1
op_index del = 2
op_index sub = 3
op_index ins = 4
op_index mov = 5

-- `==` on operations.
infix 50 ◌is◌
abbrev pub ◌is◌ : Op → Op → Bool
a is b = op_index a == op_index b

pub record Change : Type 0 where
  pub op : Op
  pub old_pos : ℕ
  pub new_pos : ℕ

abbrev pub change : Op → ℕ → ℕ → Change
change op old_pos new_pos = record { op = op; old_pos = old_pos; new_pos = new_pos }

abbrev pub ChangeVector : Type 0
ChangeVector = List Change

pub record Cell : Type 0 where
  pub distance : ℕ
  pub op : Op

-- `{distance, op}`: what fits into the bit-field.
abbrev pub cell : ℕ → Op → Cell
cell distance op = record { distance = distance % 2 ^ 24; op = op }

-- `n - 1` and `n + 1` in 32 and 64 bits.
abbrev pub uint_max : ℕ
uint_max = 2 ^ 32 - 1

abbrev pub pred_32 : ℕ → ℕ
pred_32 n = (n + uint_max) % 2 ^ 32

abbrev pub pred_64 : ℕ → ℕ
pred_64 n = (n + (2 ^ 64 - 1)) % 2 ^ 64

abbrev pub succ_64 : ℕ → ℕ
succ_64 n = (n + 1) % 2 ^ 64

-- `abs(x - y)`
abbrev pub abs_diff : ℕ → ℕ → ℕ
abs_diff x y = (x - y) + (y - x)

unfoldable pub set_elem : {A : Type 0} → List A → ℕ → A → List A
set_elem [] i a = []
set_elem (x ∷ xs) zero a = a ∷ xs
set_elem (x ∷ xs) (suc i) a = x ∷ set_elem xs i a

-- A new array of equal items.
unfoldable pub filled : {A : Type 0} → ℕ → A → List A
filled zero a = []
filled (suc n) a = a ∷ filled n a

-- `p ?: q` on a pointer.
abbrev pub value_or : {A : Type 0} → Option A → A → A
value_or none b = b
value_or (some a) b = a

-- The empty `stripes` is the NULL pointer.
pub record BaseDiffer : Type 0 where
  pub comparisons : ℕ
  pub old_len : ℕ
  pub nuu_len : ℕ
  pub prefix_len : ℕ
  pub stripes : List (Option (List Cell))
  pub changes : ChangeVector
  pub detects_moves : Bool

unfoldable pub size_of_stripe : BaseDiffer → ℕ → ℕ
size_of_stripe d stripe =
    let size = min (stripe + 1) (d.nuu_len + d.old_len - 1 - stripe) in
    min size (min d.nuu_len d.old_len)

-- The stripe of a cell, and the cell's index along it.
abbrev pub stripe_of : BaseDiffer → ℕ → ℕ → ℕ
stripe_of d x y = d.old_len - 1 + x - y

abbrev pub dist_of : ℕ → ℕ → ℕ
dist_of x y = min x y

abbrev pub get_stripe : BaseDiffer → ℕ → ℕ → Option (List Cell)
get_stripe d x y = value_or (get_elem? d.stripes (stripe_of d x y)) none

abbrev pub new_stripe : BaseDiffer → ℕ → ℕ → List Cell
new_stripe d x y = filled (size_of_stripe d (stripe_of d x y)) (cell 0 uninitialized)

-- `s ? s[dist] : cell{0, uninitialized}`
abbrev pub cell_at : Option (List Cell) → ℕ → Cell
cell_at none dist = cell 0 uninitialized
cell_at (some cells) dist = value_or (get_elem? cells dist) (cell 0 uninitialized)

unfoldable pub get_cell : BaseDiffer → ℕ → ℕ → Cell
get_cell d x y = cell_at (get_stripe d x y) (dist_of x y)

unfoldable pub set_cell : BaseDiffer → ℕ → ℕ → Cell → BaseDiffer × Cell
set_cell d x y c =
    let cells = set_elem (value_or (get_stripe d x y) (new_stripe d x y)) (dist_of x y) c in
    (record d { stripes = set_elem d.stripes (stripe_of d x y) (some cells) }, c)

-- The first minimum, one step further.
abbrev pub least : Cell → Cell → Cell → Cell
least upleft left up =
    if ltb upleft.distance up.distance && ltb upleft.distance left.distance
    then cell (upleft.distance + 1) sub
    else if ltb up.distance left.distance
    then cell (up.distance + 1) del
    else cell (left.distance + 1) ins

-- The test before the last return.
abbrev pub unless_stopped : Cell → ℕ → Cell → Cell
unless_stopped c max_distance result =
    if ltb max_distance c.distance then record result { op = uninitialized } else result

-- A call, and what follows it.
abbrev pub then_with :
    BaseDiffer × Cell → (BaseDiffer → Cell → BaseDiffer × Cell) → BaseDiffer × Cell
then_with (d, c) k = k d c

-- `itemsEqual` of `Differ<T>`: `_old[oldPos] == _nuu[newPos]`. Outside the vectors it is undefined, and false here.
abbrev pub both_equal : {A : Type 0} → (A → A → Bool) → Option A → Option A → Bool
both_equal eq (some a) (some b) = eq a b
both_equal eq _ _ = false

abbrev pub vector_items_equal : {A : Type 0} → (A → A → Bool) → List A → List A → ℕ → ℕ → Bool
vector_items_equal eq old nuu old_pos new_pos =
    both_equal eq (get_elem? old old_pos) (get_elem? nuu new_pos)

module _ (items_equal : ℕ → ℕ → Bool) where
  -- The loops of `setup`, with the passes that are left.
  unfoldable pub common_prefix : ℕ → ℕ → ℕ
  common_prefix zero prefix = prefix
  common_prefix (suc n) prefix =
      let rest = common_prefix n (suc prefix) in if items_equal prefix prefix then rest else prefix

  unfoldable pub common_suffix : ℕ → ℕ → ℕ → ℕ → ℕ
  common_suffix old_len new_len zero suffix = suffix
  common_suffix old_len new_len (suc n) suffix =
      let rest = common_suffix old_len new_len n (suc suffix) in
      if items_equal (old_len - 1 - suffix) (new_len - 1 - suffix) then rest else suffix

  unfoldable pub setup : ℕ → ℕ → BaseDiffer → BaseDiffer
  unfolding common_prefix common_suffix
  setup old_len new_len d =
      let prefix = common_prefix (min old_len new_len) 0 in
      let suffix = common_suffix old_len new_len (min old_len new_len - prefix) 0 in
      let old_left = old_len - prefix - suffix in
      let new_left = new_len - prefix - suffix in
      record d {
        prefix_len = prefix;
        old_len = old_left;
        nuu_len = new_left;
        stripes =
            if ltb 0 old_left && ltb 0 new_left
            then filled (new_left + old_left - 1) none
            else d.stripes;
      }

  unfoldable pub compute : BaseDiffer → ℕ → ℕ → ℕ → BaseDiffer × Cell
  unfolding get_cell set_cell
  compute d x zero max_distance = (d, cell x (if x == 0 then nop else ins))
  compute d zero (suc y) max_distance = (d, cell (suc y) del)
  compute d (suc x) (suc y) max_distance =
      let c = get_cell d x y in
      elim (not (c.op is uninitialized) || ltb max_distance c.distance) [
        | true ↦ (d, c)
        | false ↦
            let from_diagonal = abs_diff (suc x) (suc y) in
            elim (ltb max_distance from_diagonal) [
              | true ↦ (d, cell from_diagonal uninitialized)
              | false ↦
                  let d1 = record d { comparisons = suc d.comparisons } in
                  elim (items_equal (d.prefix_len + y) (d.prefix_len + x)) [
                    | true ↦
                        then_with (compute d1 x y max_distance)
                          (λ d2 r. set_cell d2 x y (cell r.distance nop))
                    | false ↦ elim (ltb max_distance (from_diagonal + 1)) [
                      | true ↦ set_cell d1 x y (cell (from_diagonal + 1) uninitialized)
                      | false ↦
                          let maxd = pred_32 max_distance in
                          then_with (compute d1 x y maxd) (λ d2 upleft.
                            let maxd = min maxd upleft.distance in
                            then_with (compute d2 x (suc y) maxd) (λ d3 left.
                              let maxd = min maxd (pred_32 left.distance) in
                              then_with (compute d3 (suc x) y maxd) (λ d4 up.
                                set_cell d4 x y
                                  (unless_stopped c max_distance (least upleft left up)))))
                    ]
                  ]
            ]
      ]
