-- ===== src/Differ/Setup.antt =====
-- Source/Differ.cc: `setup` leaves out a common prefix and suffix, and makes an empty table.
use couchbase_lite_ios.Base.{
  ℕ, zero, suc, ◌+◌, ◌-◌, ◌≡◌, ◌≤◌, ◌<◌, ◌⊎◌, inl, inr, refl, ap, sym, ◌∙◌, min, Bool, true, false,
  ◌&&◌, Option, none, some, List, ltb, if◌then◌else◌, get_elem?, length, arith,
}
use mathlib.Core.Path.{subst}
use couchbase_lite_ios.Differ.{
  Cell, BaseDiffer, filled, value_or, stripe_of, size_of_stripe, cell_at, get_cell, common_prefix,
  common_suffix, setup,
}
use couchbase_lite_ios.Differ.Table.{length-filled, get_elem?-filled}
use couchbase_lite_ios.Differ.Compute.{IsCell, IsOp-uninitialized, IsState}
use couchbase_lite_ios.Differ.Steps.{pick-lem}

-- How far a loop gets: to where a test fails, or as far as it may.
abbrev Counts : (ℕ → Bool) → ℕ → ℕ → ℕ → Type 0
Counts test first n last =
    (first ≤ last)
    × (last ≤ first + n)
    × ((i : ℕ) → first ≤ i → i < last → test i ≡ true)
    × (last < first + n → test last ≡ false)

Counts-stop : (test : ℕ → Bool) (first n : ℕ) → test first ≡ false → Counts test first n first
Counts-stop test first n h = (omega arith, omega arith, (λ i a b. ground arith), λ _. h)

Counts-next :
    (test : ℕ → Bool) (first n last : ℕ)
    → test first ≡ true
    → Counts test (suc first) n last
    → Counts test first (suc n) last
Counts-next test first n last h (a, b, c, d) = (
  omega arith,
  omega arith,
  (λ i l m. elim (same_or_more i l) [ inl e ↦ subst (λ i. test i ≡ true) e h | inr k ↦ c i k m ]),
  λ l. d (omega arith),
)
  where
    same_or_more : (i : ℕ) → first ≤ i → (first ≡ i) ⊎ (suc first ≤ i)
    same_or_more i l = ground arith

module _ (items_equal : ℕ → ℕ → Bool) where
  common_prefix-Counts :
      (n prefix : ℕ) → Counts (λ i. items_equal i i) prefix n (common_prefix items_equal n prefix)
  unfolding common_prefix
  common_prefix-Counts zero prefix =
      (omega arith, omega arith, (λ i a b. ground arith), λ l. ground arith)
  common_prefix-Counts (suc n) prefix =
      pick-lem (Counts (λ i. items_equal i i) prefix (suc n)) (items_equal prefix prefix) _ _
        (λ same.
          Counts-next (λ i. items_equal i i) prefix n _ same (common_prefix-Counts n (suc prefix)))
        (λ differ. Counts-stop (λ i. items_equal i i) prefix (suc n) differ)

  common_suffix-Counts :
      (old_len new_len n suffix : ℕ)
      → Counts
          (λ i. items_equal (old_len - 1 - i) (new_len - 1 - i))
          suffix
          n
          (common_suffix items_equal old_len new_len n suffix)
  unfolding common_suffix
  common_suffix-Counts old_len new_len zero suffix =
      (omega arith, omega arith, (λ i a b. ground arith), λ l. ground arith)
  common_suffix-Counts old_len new_len (suc n) suffix =
      let test = λ (i : ℕ). items_equal (old_len - 1 - i) (new_len - 1 - i) in
      pick-lem (Counts test suffix (suc n)) (test suffix) _ _
        (λ same.
          Counts-next test suffix n _ same (common_suffix-Counts old_len new_len n (suc suffix)))
        (λ differ. Counts-stop test suffix (suc n) differ)

  -- A table of no stripes.
  fresh-IsState :
      (d : BaseDiffer)
      → (0 < d.nuu_len → 0 < d.old_len → d.stripes ≡ filled (d.nuu_len + d.old_len - 1) none)
      → IsState items_equal d d
  unfolding get_cell
  fresh-IsState d fresh = record {
    old_len_same = refl;
    nuu_len_same = refl;
    prefix_len_same = refl;
    changes_same = refl;
    detects_moves_same = refl;
    table_in = λ a b. record {
      stripes_in = ap length (fresh a b) ∙ length-filled (d.nuu_len + d.old_len - 1) none;
      sizes_in = λ i cells e. absurd_at i cells (
          sym (ap (λ ss. value_or (get_elem? ss i) none) (fresh a b))
          ∙ ap (λ o. value_or o none) e);
    };
    cells_in = λ x y a b.
        subst (IsCell items_equal d (suc x) (suc y))
          (sym (
            ap (λ ss. cell_at (value_or (get_elem? ss (stripe_of d x y)) none) (min x y))
              (fresh (omega arith) (omega arith))
            ∙ ap (λ s. cell_at s (min x y))
                (get_elem?-filled (d.nuu_len + d.old_len - 1) (stripe_of d x y) none)))
          (record {
            op_in = IsOp-uninitialized items_equal d (suc x) (suc y);
            distance_in = inl (refl, refl);
          });
  }
    where
      absurd_at :
          (i : ℕ) (cells : List Cell)
          → value_or (get_elem? (filled (d.nuu_len + d.old_len - 1) none) i) none ≡ some cells
          → length cells ≡ size_of_stripe d i
      absurd_at i cells e =
          let n = get_elem?-filled {A = Option (List Cell)} (d.nuu_len + d.old_len - 1) i none in cc

  made :
      {A : Type 0} (x y : A) (new_left old_left : ℕ)
      → 0 < new_left
      → 0 < old_left
      → (if ltb 0 old_left && ltb 0 new_left then x else y) ≡ x
  made x y new_left old_left a b = ap (λ t. if t then x else y) (both new_left old_left a b)
    where
      both :
          (new_left old_left : ℕ)
          → 0 < new_left
          → 0 < old_left
          → (ltb 0 old_left && ltb 0 new_left) ≡ true
      both new_left old_left a b = ground arith

  -- The lengths of a common prefix and suffix that are left out.
  pub record IsSetup (old_len new_len suffix : ℕ) (d : BaseDiffer) : Type 0 where
    pub old_len_in : d.prefix_len + d.old_len + suffix ≡ old_len
    pub nuu_len_in : d.prefix_len + d.nuu_len + suffix ≡ new_len
    pub prefix_equal : (i : ℕ) → i < d.prefix_len → items_equal i i ≡ true
    pub suffix_equal : (i : ℕ) → i < suffix → items_equal (old_len - 1 - i) (new_len - 1 - i) ≡ true
    pub first_differs :
        0 < d.old_len → 0 < d.nuu_len → items_equal d.prefix_len d.prefix_len ≡ false
    pub last_differs :
        0 < d.old_len
        → 0 < d.nuu_len
        → items_equal (old_len - 1 - suffix) (new_len - 1 - suffix) ≡ false
    pub is_state : IsState items_equal d d

  -- `setup` splits both lengths into a prefix of pairwise equal items, a rest, and a suffix of
  -- pairwise equal items. If neither rest is empty, their first items differ, and so do their last
  -- ones. The table has the right size, and no cell of it is known.
  pub setup-IsSetup :
      (old_len new_len : ℕ) (d : BaseDiffer)
      → (suffix : ℕ) × IsSetup old_len new_len suffix (setup items_equal old_len new_len d)
  unfolding setup
  setup-IsSetup old_len new_len d =
      let prefix = common_prefix items_equal (min old_len new_len) 0 in
      let suffix = common_suffix items_equal old_len new_len (min old_len new_len - prefix) 0 in
      let (p0, p1, p2, p3) = common_prefix-Counts (min old_len new_len) 0 in
      let (s0, s1, s2, s3) =
        common_suffix-Counts old_len new_len (min old_len new_len - prefix) 0 in
      (
        suffix,
        record {
          old_len_in = omega arith;
          nuu_len_in = omega arith;
          prefix_equal = λ i h. p2 i (omega arith) h;
          suffix_equal = λ i h. s2 i (omega arith) h;
          first_differs = λ a b. p3 (omega arith);
          last_differs = λ a b. s3 (omega arith);
          is_state = fresh-IsState _ (λ a b. made _ _ _ _ a b);
        },
      )
