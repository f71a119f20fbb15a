-- ===== src/Revision/Removal.antt =====
-- Source/CBL_Revision.m, `removeAndReturnRev:`.
use couchbase_lite_ios.Base.{
  ℕ, suc, ◌≡◌, refl, ap, ◌⊎◌, inl, inr, Bool, true, false, Option, none, some, [], ◌∷◌, ◌++◌,
  if◌then◌else◌, All, get_elem?,
}
use couchbase_lite_ios.Revision.{
  Revision, RevisionList, is_equal, index_of, remove_object_at_index, remove_and_return_rev,
}

module _ (Body : Type 0) where
  -- The list taken apart at its first revision equal to `rev`.
  pub record SplitsAt (rev : Revision Body) (revs : RevisionList Body) (i : ℕ) : Type 0 where
    pub before : RevisionList Body
    pub found : Revision Body
    pub after : RevisionList Body
    pub parts : revs ≡ before ++ (found ∷ after)
    pub is_found : is_equal Body rev found ≡ true
    pub first : All (λ r. is_equal Body rev r ≡ false) before
    pub returned : get_elem? revs i ≡ some found
    pub left : remove_object_at_index Body i revs ≡ before ++ after

  abbrev Indexed : Revision Body → RevisionList Body → Option ℕ → Type 0
  Indexed rev revs none = All (λ r. is_equal Body rev r ≡ false) revs
  Indexed rev revs (some i) = SplitsAt rev revs i

  Indexed-next :
      (rev r : Revision Body) (revs : RevisionList Body) (o : Option ℕ)
      → is_equal Body rev r ≡ false
      → Indexed rev revs o
      → Indexed rev (r ∷ revs) (elim o [ none ↦ none | some i ↦ some (suc i) ])
  unfolding remove_object_at_index
  Indexed-next rev r revs none h k = (h, k)
  Indexed-next rev r revs (some i) h k = record {
    before = r ∷ k.before;
    found = k.found;
    after = k.after;
    parts = ap (◌∷◌ r) k.parts;
    is_found = k.is_found;
    first = (h, k.first);
    returned = k.returned;
    left = ap (◌∷◌ r) k.left;
  }

  index_of-Indexed :
      (rev : Revision Body) (revs : RevisionList Body) → Indexed rev revs (index_of Body rev revs)
  unfolding index_of remove_object_at_index
  index_of-Indexed rev [] = tt
  index_of-Indexed rev (r ∷ revs) = by_test (is_equal Body rev r) refl (index_of-Indexed rev revs)
    where
      by_test :
          (b : Bool)
          → is_equal Body rev r ≡ b
          → Indexed rev revs (index_of Body rev revs)
          → Indexed rev (r ∷ revs) (
              if b
              then some 0
              else elim (index_of Body rev revs) [ none ↦ none | some i ↦ some (suc i) ])
      by_test true h k = record {
        before = [];
        found = r;
        after = revs;
        parts = refl;
        is_found = h;
        first = tt;
        returned = refl;
        left = refl;
      }
      by_test false h k = Indexed-next rev r revs (index_of Body rev revs) h k

  -- The first revision that is equal to `rev` is returned and taken out, or there is none.
  abbrev pub TakesFirst :
      Revision Body → RevisionList Body → Option (Revision Body) × RevisionList Body → Type 0
  TakesFirst rev revs (returned, left) =
      ((before : RevisionList Body) × (found : Revision Body) × (after : RevisionList Body) × (revs
          ≡ before ++ (found ∷ after))
        × (is_equal Body rev found ≡ true)
        × All (λ r. is_equal Body rev r ≡ false) before
        × (returned ≡ some found)
        × (left ≡ before ++ after))
      ⊎ (All (λ r. is_equal Body rev r ≡ false) revs × (returned ≡ none) × (left ≡ revs))

  -- The list has a first revision equal to the argument, in the sense that both have the same two IDs,
  -- which the call returns and which is all that it takes out of the list; or it has none, and the call
  -- returns nil and leaves the list as it is.
  pub remove_and_return_rev-TakesFirst :
      (rev : Revision Body) (revs : RevisionList Body)
      → TakesFirst rev revs (remove_and_return_rev Body rev revs)
  unfolding remove_and_return_rev
  remove_and_return_rev-TakesFirst rev revs =
      at (index_of Body rev revs) (index_of-Indexed rev revs)
    where
      at :
          (o : Option ℕ)
          → Indexed rev revs o
          → TakesFirst rev revs (elim o [
            | none ↦ (none, revs)
            | some i ↦ (get_elem? revs i, remove_object_at_index Body i revs)
          ])
      at none k = inr (k, refl, refl)
      at (some i) k =
          inl (k.before, k.found, k.after, k.parts, k.is_found, k.first, k.returned, k.left)
