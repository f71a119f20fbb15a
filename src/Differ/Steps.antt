-- ===== src/Differ/Steps.antt =====
-- Source/Differ.cc, `compute`: bounds on the number of steps, and results of tests and calls.
use couchbase_lite_ios.Base.{
  ℕ, suc, ◌+◌, ◌≡◌, ◌≤◌, refl, max, Bool, true, false, ◌&&◌, ltb, if◌then◌else◌, arith,
}
use couchbase_lite_ios.Differ.{
  Op, del, sub, ins, op_index, Cell, cell, BaseDiffer, abs_diff, least, then_with,
}

-- A number of steps between the difference of the lengths and the greater one.
abbrev pub Between : ℕ → ℕ → ℕ → Type 0
Between x y n = (abs_diff x y ≤ n) × (n ≤ max x y)

-- A test decides between two results.
pub if-lem {κ} :
    {A : Type 0} (P : A → Type κ) (b : Bool) (r r' : A)
    → (b ≡ true → P r)
    → (b ≡ false → P r')
    → P (elim b [ true ↦ r | false ↦ r' ])
if-lem P true r r' h h' = h refl
if-lem P false r r' h h' = h' refl

-- Likewise for the conditional.
pub pick-lem {κ} :
    {A : Type 0} (P : A → Type κ) (b : Bool) (r r' : A)
    → (b ≡ true → P r)
    → (b ≡ false → P r')
    → P (if b then r else r')
pick-lem P true r r' h h' = h refl
pick-lem P false r r' h h' = h' refl

pub then_with-lem :
    (P Q : BaseDiffer × Cell → Type 0) (r : BaseDiffer × Cell)
    (k : BaseDiffer → Cell → BaseDiffer × Cell)
    → P r
    → ((d : BaseDiffer) (c : Cell) → P (d, c) → Q (k d c))
    → Q (then_with r k)
then_with-lem P Q (d, c) k p h = h d c p

-- A substitution, a deletion or an insertion.
abbrev pub IsEdit : Op → Type 0
IsEdit op = (2 ≤ op_index op) × (op_index op ≤ 4)

-- A cell of that many steps, the last of them an edit.
abbrev pub Steps : (ℕ → Type 0) → Cell → Type 0
Steps P c = (n : ℕ) × (op : Op) × (c ≡ cell n op) × P n × IsEdit op

pub least-Between :
    (x y : ℕ) (upleft left up : Cell)
    → Between x y upleft.distance
    → Between x (suc y) left.distance
    → Between (suc x) y up.distance
    → Steps (Between (suc x) (suc y)) (least upleft left up)
least-Between x y upleft left up h h' h'' =
    pick-lem (Steps (Between (suc x) (suc y)))
      (ltb upleft.distance up.distance && ltb upleft.distance left.distance) _ _
      (λ best. (upleft.distance + 1, sub, refl, omega arith, omega arith))
      (λ other.
        pick-lem (Steps (Between (suc x) (suc y))) (ltb up.distance left.distance) _ _
          (λ best. (up.distance + 1, del, refl, ground arith, omega arith))
          (λ last. (left.distance + 1, ins, refl, ground arith, omega arith)))
