-- ===== src/Differ/Table.antt =====
-- Source/Differ.cc: the table of partial results, kept in stripes, is addressed without collision.
use couchbase_lite_ios.Base.{
  ℕ, zero, suc, ◌+◌, ◌-◌, ◌≡◌, ◌<◌, ◌≢◌, ◌⊎◌, inl, inr, refl, ap, sym, ◌∙◌, true, false, ◌&&◌,
  Option, none, some, List, [], ◌∷◌, ◌==◌, if◌then◌else◌, length, get_elem?, arith, Option-cases,
}
use couchbase_lite_ios.Differ.{
  uninitialized, Cell, cell, BaseDiffer, set_elem, filled, value_or, size_of_stripe, stripe_of,
  dist_of, get_stripe, new_stripe, cell_at, get_cell, set_cell,
}

module _ {A : Type 0} where
  pub length-set_elem : (xs : List A) (i : ℕ) (a : A) → length (set_elem xs i a) ≡ length xs
  unfolding set_elem
  length-set_elem [] i a = refl
  length-set_elem (x ∷ xs) zero a = refl
  length-set_elem (x ∷ xs) (suc i) a = ap suc (length-set_elem xs i a)

  pub get_elem?-set_elem :
      (xs : List A) (i : ℕ) (a : A) → i < length xs → get_elem? (set_elem xs i a) i ≡ some a
  unfolding set_elem
  get_elem?-set_elem [] i a h = ground arith
  get_elem?-set_elem (x ∷ xs) zero a h = refl
  get_elem?-set_elem (x ∷ xs) (suc i) a h = get_elem?-set_elem xs i a (omega arith)

  pub get_elem?-set_elem_ne :
      (xs : List A) (i j : ℕ) (a : A) → i ≢ j → get_elem? (set_elem xs i a) j ≡ get_elem? xs j
  unfolding set_elem
  get_elem?-set_elem_ne [] i j a h = refl
  get_elem?-set_elem_ne (x ∷ xs) zero zero a h = ground arith
  get_elem?-set_elem_ne (x ∷ xs) zero (suc j) a h = refl
  get_elem?-set_elem_ne (x ∷ xs) (suc i) zero a h = refl
  get_elem?-set_elem_ne (x ∷ xs) (suc i) (suc j) a h = get_elem?-set_elem_ne xs i j a (omega arith)

  pub length-filled : (n : ℕ) (a : A) → length (filled n a) ≡ n
  unfolding filled
  length-filled zero a = refl
  length-filled (suc n) a = ap suc (length-filled n a)

  -- A filled array holds the same value everywhere, like one that is not there.
  pub get_elem?-filled : (n i : ℕ) (a : A) → value_or (get_elem? (filled n a) i) a ≡ a
  unfolding filled
  get_elem?-filled zero i a = refl
  get_elem?-filled (suc n) zero a = refl
  get_elem?-filled (suc n) (suc i) a = get_elem?-filled n i a

eq_cases : (a b : ℕ) → (a ≡ b) ⊎ (a ≢ b)
eq_cases a b = ground arith

-- There are as many stripes as diagonals, and those in use have the size of their diagonal.
pub record IsTable (d : BaseDiffer) : Type 0 where
  pub stripes_in : length d.stripes ≡ d.nuu_len + d.old_len - 1
  pub sizes_in :
      (i : ℕ) (cells : List Cell)
      → get_elem? d.stripes i ≡ some (some cells)
      → length cells ≡ size_of_stripe d i

pub record InTable (d : BaseDiffer) (x y : ℕ) : Type 0 where
  pub x_in : x < d.nuu_len
  pub y_in : y < d.old_len

stripe_of-in :
    (d : BaseDiffer) (x y : ℕ) → InTable d x y → stripe_of d x y < d.nuu_len + d.old_len - 1
stripe_of-in d x y h = let a = h.x_in in let b = h.y_in in omega arith

dist_of-in :
    (d : BaseDiffer) (x y : ℕ) → InTable d x y → dist_of x y < size_of_stripe d (stripe_of d x y)
unfolding size_of_stripe
dist_of-in d x y h = let a = h.x_in in let b = h.y_in in omega arith

dist_of-injective :
    (d : BaseDiffer) (x y x' y' : ℕ)
    → InTable d x y
    → InTable d x' y'
    → stripe_of d x y ≡ stripe_of d x' y'
    → dist_of x y ≡ dist_of x' y'
    → (x ≡ x') × (y ≡ y')
dist_of-injective d x y x' y' h h' s e =
    let a = h.y_in in let b = h'.y_in in (omega arith, omega arith)

-- The stripe that is written to: an old one or a new one.
abbrev written : BaseDiffer → ℕ → ℕ → List Cell
written d x y = value_or (get_stripe d x y) (new_stripe d x y)

length-written :
    (d : BaseDiffer) (x y : ℕ)
    → IsTable d
    → length (written d x y) ≡ size_of_stripe d (stripe_of d x y)
length-written d x y h = elim (Option-cases (get_elem? d.stripes (stripe_of d x y))) [
  | inl absent ↦
      rw absent (length-filled (size_of_stripe d (stripe_of d x y)) (cell 0 uninitialized))
  | inr (none, absent) ↦
      rw absent (length-filled (size_of_stripe d (stripe_of d x y)) (cell 0 uninitialized))
  | inr (some cells, present) ↦ rw present (h.sizes_in (stripe_of d x y) cells present)
]

cell_at-written :
    (d : BaseDiffer) (x y i : ℕ) → cell_at (some (written d x y)) i ≡ cell_at (get_stripe d x y) i
cell_at-written d x y i = elim (Option-cases (get_stripe d x y)) [
  | inl absent ↦
      rw absent (get_elem?-filled (size_of_stripe d (stripe_of d x y)) i (cell 0 uninitialized))
  | inr (cells, present) ↦ rw present refl
]

set_cell-same :
    (d : BaseDiffer) (x y : ℕ) (c : Cell)
    → IsTable d
    → InTable d x y
    → get_cell (set_cell d x y c).0 x y ≡ c
unfolding get_cell set_cell
set_cell-same d x y c t h =
    ap (λ o. cell_at (value_or o none) (dist_of x y))
      (get_elem?-set_elem d.stripes (stripe_of d x y)
        (some (set_elem (written d x y) (dist_of x y) c))
        (let i = stripe_of-in d x y h in let s = t.stripes_in in omega arith))
    ∙ ap (λ o. value_or o (cell 0 uninitialized))
        (get_elem?-set_elem (written d x y) (dist_of x y) c
          (let i = dist_of-in d x y h in let s = length-written d x y t in omega arith))

set_cell-other :
    (d : BaseDiffer) (x y x' y' : ℕ) (c : Cell)
    → IsTable d
    → InTable d x y
    → InTable d x' y'
    → ¬ ((x ≡ x') × (y ≡ y'))
    → get_cell (set_cell d x y c).0 x' y' ≡ get_cell d x' y'
unfolding get_cell set_cell
set_cell-other d x y x' y' c t h h' differ =
    let cells = set_elem (written d x y) (dist_of x y) c in
    elim (eq_cases (stripe_of d x y) (stripe_of d x' y')) [
      | inr apart ↦
          ap (λ o. cell_at (value_or o none) (dist_of x' y'))
            (get_elem?-set_elem_ne d.stripes (stripe_of d x y) (stripe_of d x' y') (some cells)
              apart)
      | inl same ↦
          ap
            (λ i.
              cell_at
                (value_or (get_elem? (set_elem d.stripes (stripe_of d x y) (some cells)) i) none)
                (dist_of x' y'))
            (sym same)
          ∙ ap (λ o. cell_at (value_or o none) (dist_of x' y'))
              (get_elem?-set_elem d.stripes (stripe_of d x y) (some cells)
                (let i = stripe_of-in d x y h in let s = t.stripes_in in omega arith))
          ∙ ap (λ o. value_or o (cell 0 uninitialized))
              (get_elem?-set_elem_ne (written d x y) (dist_of x y) (dist_of x' y') c
                (λ e. differ (dist_of-injective d x y x' y' h h' same e)))
          ∙ cell_at-written d x y (dist_of x' y')
          ∙ ap (λ i. cell_at (value_or (get_elem? d.stripes i) none) (dist_of x' y')) same
    ]

-- In a table with as many stripes as diagonals, each stripe in use as long as its diagonal, writing
-- a cell of the table changes what is read of that cell, to the cell written, and of no other cell
-- of the table.
pub get_cell-set_cell :
    (d : BaseDiffer) (x y x' y' : ℕ) (c : Cell)
    → IsTable d
    → InTable d x y
    → InTable d x' y'
    → get_cell (set_cell d x y c).0 x' y' ≡ (if (x == x') && (y == y') then c else get_cell d x' y')
get_cell-set_cell d x y x' y' c t h h' = elim (eq_cases x x') [
  | inl same_x ↦ elim (eq_cases y y') [
    | inl same_y ↦
        ap (get_cell (set_cell d x y c).0 x') (sym same_y)
        ∙ ap (λ i. get_cell (set_cell d x y c).0 i y) (sym same_x)
        ∙ set_cell-same d x y c t h
        ∙ ap (λ b. if b then c else get_cell d x' y') (hit same_x same_y)
    | inr apart ↦
        set_cell-other d x y x' y' c t h h' (λ e. apart e.1)
        ∙ ap (λ b. if b then c else get_cell d x' y') (miss (λ e. apart e.1))
  ]
  | inr apart ↦
      set_cell-other d x y x' y' c t h h' (λ e. apart e.0)
      ∙ ap (λ b. if b then c else get_cell d x' y') (miss (λ e. apart e.0))
]
  where
    hit : x ≡ x' → y ≡ y' → true ≡ ((x == x') && (y == y'))
    hit e f = ground arith

    miss : ¬ ((x ≡ x') × (y ≡ y')) → false ≡ ((x == x') && (y == y'))
    miss e = ground arith

pub set_cell-IsTable :
    (d : BaseDiffer) (x y : ℕ) (c : Cell) → IsTable d → InTable d x y → IsTable (set_cell d x y c).0
unfolding set_cell size_of_stripe
set_cell-IsTable d x y c t h = record {
  stripes_in = length-set_elem d.stripes (stripe_of d x y) (some cells) ∙ t.stripes_in;
  sizes_in = λ i cs e. elim (eq_cases (stripe_of d x y) i) [
    | inl same ↦
        sym (
          ap size (
            sym (
              get_elem?-set_elem d.stripes (stripe_of d x y) (some cells)
                (let i = stripe_of-in d x y h in let s = t.stripes_in in omega arith))
            ∙ ap (get_elem? (set_elem d.stripes (stripe_of d x y) (some cells))) same
            ∙ e))
        ∙ length-set_elem (written d x y) (dist_of x y) c
        ∙ length-written d x y t
        ∙ ap (size_of_stripe d) same
    | inr apart ↦
        t.sizes_in i cs
          (sym (get_elem?-set_elem_ne d.stripes (stripe_of d x y) i (some cells) apart) ∙ e)
  ];
}
  where
    cells : List Cell
    cells = set_elem (written d x y) (dist_of x y) c

    size : Option (Option (List Cell)) → ℕ
    size o = length (value_or (value_or o none) [])
