-- ===== src/Base/Collections.antt =====
-- `my_map` of MYUtilities/CollectionUtils, which the repository takes in as a git submodule. A
-- block with a `__block` variable is a function from the variable's value to its next value and a
-- result.
use mathlib.Core.Path.{◌≡◌, refl}
use mathlib.Core.Option.{Option, none, some}
use mathlib.Core.List.{List, [], ◌∷◌}

-- The results of the block on the items in order, those that are nil left out.
abbrev pub keep : {B : Type 0} → Option B → List B → List B
keep none ys = ys
keep (some y) ys = y ∷ ys

abbrev pub map_block : {S A B : Type 0} → (S → A → S × Option B) → S → List A → List B
map_block f s [] = []
map_block f s (x ∷ xs) = let (s', y) = f s x in keep y (map_block f s' xs)

pub record CollectionUtils : Type 1 where
  pub my_map : (S A B : Type 0) → (S → A → S × Option B) → S → List A → List B
  pub my_map_lem :
      (S A B : Type 0) (f : S → A → S × Option B) (s : S) (xs : List A)
      → my_map S A B f s xs ≡ map_block f s xs

-- The documented behaviour itself is one such utility.
abbrev pub in_order : CollectionUtils
in_order = record { my_map = λ S A B f s xs. map_block f s xs; my_map_lem = λ S A B f s xs. refl }
