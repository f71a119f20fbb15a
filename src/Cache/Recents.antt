-- ===== src/Cache/Recents.antt =====
-- Source/CBLCache.m: how many objects a cache retains, and which object a key leads to.
use couchbase_lite_ios.Base.{
  ℕ, zero, suc, ◌-◌, ◌≤◌, ◌<◌, ◌≡◌, refl, ap, Bool, not, Option, none, some, List, [], ◌∷◌, ◌++◌,
  ltb, ◌==◌, if◌then◌else◌, length, drop, length-append, length-drop, arith,
}
use couchbase_lite_ios.Base.Bytes.{Bytes}
use couchbase_lite_ios.Cache.{
  Resource, Cache, init_with_retain_limit, object_for_key, add_recent, add_resource,
  index_identical, remove_at, move_index, recache, put_resource, access, resource_with_cache_key,
  collect, forget_resource, forget_all_resources, unretain_resources, removed_all,
}
use couchbase_lite_ios.Differ.Steps.{pick-lem}
use mathlib.Core.Option
use mathlib.Core.Path.{subst}

-- The number of retained objects is within the limit, which is not zero if there is an array of them.
abbrev pub IsWithin : ℕ → Option (List Resource) → Type 0
IsWithin limit none = Unit
IsWithin limit (some rs) = (0 < limit) × (length rs ≤ limit)

length-remove_at :
    (i : ℕ) (rs : List Resource) → i < length rs → suc (length (remove_at i rs)) ≡ length rs
unfolding remove_at
length-remove_at i [] h = absurd (omega (arith, h))
length-remove_at zero (r ∷ rs) h = refl
length-remove_at (suc i) (r ∷ rs) h = ap suc (length-remove_at i rs (omega (arith, h)))

abbrev IsIndexOf : List Resource → Option ℕ → Type 0
IsIndexOf rs none = Unit
IsIndexOf rs (some i) = i < length rs

index_identical-IsIndexOf :
    (r : Resource) (rs : List Resource) → IsIndexOf rs (index_identical r rs)
unfolding index_identical
index_identical-IsIndexOf r [] = tt
index_identical-IsIndexOf r (s ∷ rs) =
    pick-lem (IsIndexOf (s ∷ rs)) (s.object == r.object) _ _ (λ e. omega arith)
      (λ e. later (index_identical r rs) (index_identical-IsIndexOf r rs))
  where
    later : (o : Option ℕ) → IsIndexOf rs o → IsIndexOf (s ∷ rs) (Option.map suc o)
    later none h = tt
    later (some i) h = omega (arith, h)

move_index-length :
    (r : Resource) (rs : List Resource) (o : Option ℕ)
    → IsIndexOf rs o
    → length (move_index r rs o) ≡ length rs
unfolding move_index
move_index-length r rs none h = refl
move_index-length r rs (some i) h =
    pick-lem (λ (x : List Resource). length x ≡ length rs) (not (i == length rs - 1)) _ _
      (λ e. omega (arith, length-append (remove_at i rs) (r ∷ []), length-remove_at i rs h))
      (λ e. refl)

recache-IsWithin :
    (limit : ℕ) (r : Resource) (o : Option (List Resource))
    → IsWithin limit o
    → IsWithin limit (recache r o)
unfolding recache
recache-IsWithin limit r none h = tt
recache-IsWithin limit r (some rs) h = (
  h.0,
  pick-lem (λ (x : List Resource). length x ≤ limit) (ltb 1 (length rs)) _ _
      (λ e. omega (arith, h.1, move_index-length r rs _ (index_identical-IsIndexOf r rs)))
      (λ e. h.1),
)

add_recent-IsWithin :
    (limit : ℕ) (r : Resource) (o : Option (List Resource))
    → IsWithin limit o
    → IsWithin limit (add_recent limit r o)
add_recent-IsWithin limit r none h = tt
add_recent-IsWithin limit r (some rs) h = (
  h.0,
  pick-lem (λ (x : List Resource). length (x ++ (r ∷ [])) ≤ limit) (length rs == limit) _ _
      (λ e. omega (arith, length-append (drop 1 rs) (r ∷ []), length-drop 1 rs, h.0, h.1))
      (λ e. ground (arith, e, length-append rs (r ∷ []), h.1)),
)

removed_all-IsWithin :
    (limit : ℕ) (o : Option (List Resource)) → IsWithin limit o → IsWithin limit (removed_all o)
removed_all-IsWithin limit none h = tt
removed_all-IsWithin limit (some rs) h = (h.0, omega arith)

init-IsWithin : (limit : ℕ) → IsWithin limit (if ltb 0 limit then some [] else none)
init-IsWithin limit =
    pick-lem (IsWithin limit) (ltb 0 limit) _ _ (λ e. (ground (arith, e), omega arith)) (λ e. tt)

-- A call, or a collection of objects without references.
pub data Step : Cache → Cache → Type 0 where
  adds : {c c' : Cache} (r : Resource) → add_resource r c ≡ some c' → Step c c'
  finds : {c : Cache} (key : Bytes) → Step c (resource_with_cache_key key c).1
  forgets : {c : Cache} (r : Resource) → Step c (forget_resource r c)
  forgets_all : {c : Cache} → Step c (forget_all_resources c)
  unretains : {c : Cache} → Step c (unretain_resources c)
  collects : {c : Cache} (retained : Resource → Bool) → Step c (collect retained c)

pub data Reached : Cache → Type 0 where
  begins : (limit : ℕ) → Reached (init_with_retain_limit limit)
  steps : {c c' : Cache} → Reached c → Step c c' → Reached c'

added :
    (r : Resource) (c c' : Cache) (o : Option Resource)
    → IsWithin c.retain_limit c.recents
    → put_resource r c o ≡ some c'
    → IsWithin c'.retain_limit c'.recents
added r c c' none h e =
    subst (λ (d : Cache). IsWithin d.retain_limit d.recents) (some_injective e)
      (add_recent-IsWithin c.retain_limit r c.recents h)
  where
    some_injective : {d d' : Cache} → some d ≡ some d' → d ≡ d'
    some_injective k = cc k
added r c c' (some found) h e = cc e

access-IsWithin :
    (c : Cache) (o : Option Resource)
    → IsWithin c.retain_limit c.recents
    → IsWithin (access c o).1.retain_limit (access c o).1.recents
unfolding access
access-IsWithin c none h = h
access-IsWithin c (some r) h = recache-IsWithin c.retain_limit r c.recents h

-- A cache never retains more objects than its limit, whatever is added, looked up, forgotten or collected.
pub Reached-IsWithin : {c : Cache} → Reached c → IsWithin c.retain_limit c.recents
unfolding init_with_retain_limit add_resource resource_with_cache_key forget_resource
    forget_all_resources unretain_resources collect
Reached-IsWithin (begins limit) = init-IsWithin limit
Reached-IsWithin (steps {c} {c'} r (adds s e)) = added s c c' _ (Reached-IsWithin r) e
Reached-IsWithin (steps {c} r (finds key)) =
    access-IsWithin c (object_for_key key c.map) (Reached-IsWithin r)
Reached-IsWithin (steps r (forgets s)) = Reached-IsWithin r
Reached-IsWithin (steps {c} r forgets_all) =
    removed_all-IsWithin c.retain_limit c.recents (Reached-IsWithin r)
Reached-IsWithin (steps {c} r unretains) =
    removed_all-IsWithin c.retain_limit c.recents (Reached-IsWithin r)
Reached-IsWithin (steps r (collects retained)) = Reached-IsWithin r
