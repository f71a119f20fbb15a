-- ===== src/Tests/Caches.antt =====
-- Source/CBLCache.m and the documents of Source/API/CBLDatabase.m at concrete inputs.
use couchbase_lite_ios.Base.{ℕ, ◌≡◌, refl, some, [], ◌∷◌}
use couchbase_lite_ios.Base.Bytes.{Bytes, codes, equal}
use couchbase_lite_ios.Cache.{Resource, Cache, init_with_retain_limit, add_resource, object_for_key}
use couchbase_lite_ios.Cache.Recents.{IsWithin, adds, begins, steps, Reached-IsWithin}

abbrev resource : Bytes → ℕ → Resource
resource key i = record { cache_key = key; object = i }

-- A cache with limit 1 to which two objects are added.
abbrev one_added : Cache
one_added = record {
  map = resource (codes "a") 1 ∷ [];
  recents = some (resource (codes "a") 1 ∷ []);
  retain_limit = 1;
}

abbrev two_added : Cache
two_added = record {
  map = resource (codes "b") 2 ∷ resource (codes "a") 1 ∷ [];
  recents = some (resource (codes "b") 2 ∷ []);
  retain_limit = 1;
}

first_added : add_resource (resource (codes "a") 1) (init_with_retain_limit 1) ≡ some one_added
unfolding add_resource init_with_retain_limit object_for_key
first_added = refl

second_added : add_resource (resource (codes "b") 2) one_added ≡ some two_added
unfolding add_resource object_for_key equal
second_added = refl

Reached-IsWithin_example : IsWithin two_added.retain_limit two_added.recents
Reached-IsWithin_example = Reached-IsWithin (
    steps (steps (begins 1) (adds (resource (codes "a") 1) first_added))
      (adds (resource (codes "b") 2) second_added))
