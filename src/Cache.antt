-- ===== src/Cache.antt =====
-- Source/CBLCache.h and CBLCache.m: a cache of objects that are kept as long as anything else retains them,
-- and of a number of recent ones. A resource is its key and its identity. The table has weak references:
-- `collect` is what the runtime does when objects lose their last reference. A failed assertion is `none`, and
-- so is a nil array.
pub mod Recents
use couchbase_lite_ios.Base.{
  ℕ, zero, suc, ◌-◌, Bool, true, false, not, ◌&&◌, ◌||◌, Option, none, some, List, [], ◌∷◌, ◌++◌,
  ltb, ◌==◌, if◌then◌else◌, length, drop,
}
use couchbase_lite_ios.Base.Bytes.{Bytes, equal}
use mathlib.Core.Option

pub record Resource : Type 0 where
  pub cache_key : Bytes
  pub object : ℕ

-- `recents` has the least recently used one first.
pub record Cache : Type 0 where
  pub map : List Resource
  pub recents : Option (List Resource)
  pub retain_limit : ℕ

abbrev pub default_retain_limit : ℕ
default_retain_limit = 50

unfoldable pub init_with_retain_limit : ℕ → Cache
init_with_retain_limit limit = record {
  map = [];
  recents = if ltb 0 limit then some [] else none;
  retain_limit = limit;
}

-- `[_map objectForKey:]`
unfoldable pub object_for_key : Bytes → List Resource → Option Resource
object_for_key key [] = none
object_for_key key (r ∷ rs) =
    let later = object_for_key key rs in if equal r.cache_key key then some r else later

abbrev pub add_recent : ℕ → Resource → Option (List Resource) → Option (List Resource)
add_recent limit r none = none
add_recent limit r (some rs) = some ((if length rs == limit then drop 1 rs else rs) ++ (r ∷ []))

abbrev pub put_resource : Resource → Cache → Option Resource → Option Cache
put_resource r c (some found) = none
put_resource r c none =
    some (record c { map = r ∷ c.map; recents = add_recent c.retain_limit r c.recents })

unfoldable pub add_resource : Resource → Cache → Option Cache
unfolding object_for_key
add_resource r c = put_resource r c (object_for_key r.cache_key c.map)

-- `indexOfObjectIdenticalTo:`
unfoldable pub index_identical : Resource → List Resource → Option ℕ
index_identical r [] = none
index_identical r (s ∷ rs) =
    let later = index_identical r rs in
    if s.object == r.object then some 0 else Option.map suc later

unfoldable pub remove_at : ℕ → List Resource → List Resource
remove_at i [] = []
remove_at zero (r ∷ rs) = rs
remove_at (suc i) (r ∷ rs) = r ∷ remove_at i rs

unfoldable pub move_index : Resource → List Resource → Option ℕ → List Resource
unfolding remove_at
move_index r rs none = rs
move_index r rs (some i) = if not (i == length rs - 1) then remove_at i rs ++ (r ∷ []) else rs

unfoldable pub recache : Resource → Option (List Resource) → Option (List Resource)
unfolding index_identical move_index
recache r none = none
recache r (some rs) =
    some (if ltb 1 (length rs) then move_index r rs (index_identical r rs) else rs)

unfoldable pub access : Cache → Option Resource → Option Resource × Cache
unfolding recache
access c none = (none, c)
access c (some r) = (some r, record c { recents = recache r c.recents })

unfoldable pub resource_with_cache_key : Bytes → Cache → Option Resource × Cache
unfolding object_for_key access
resource_with_cache_key key c = access c (object_for_key key c.map)

unfoldable pub resource_dont_recache : Bytes → Cache → Option Resource
unfolding object_for_key
resource_dont_recache key c = object_for_key key c.map

unfoldable pub remove_key : Bytes → List Resource → List Resource
remove_key key [] = []
remove_key key (r ∷ rs) =
    let rest = remove_key key rs in if equal r.cache_key key then rest else r ∷ rest

unfoldable pub forget_resource : Resource → Cache → Cache
unfolding remove_key
forget_resource r c = record c { map = remove_key r.cache_key c.map }

abbrev pub removed_all : Option (List Resource) → Option (List Resource)
removed_all none = none
removed_all (some rs) = some []

unfoldable pub unretain_resources : Cache → Cache
unretain_resources c = record c { recents = removed_all c.recents }

unfoldable pub forget_all_resources : Cache → Cache
forget_all_resources c = record c { map = []; recents = removed_all c.recents }

-- The objects that the application retains, or that are recent, stay in the table.
unfoldable pub kept_of : (Resource → Bool) → List Resource → List Resource → List Resource
unfolding index_identical
kept_of retained recents [] = []
kept_of retained recents (r ∷ rs) =
    let rest = kept_of retained recents rs in
    elim (index_identical r recents) [
      | none ↦ if retained r then r ∷ rest else rest
      | some i ↦ r ∷ rest
    ]

unfoldable pub collect : (Resource → Bool) → Cache → Cache
unfolding kept_of
collect retained c = record c { map = kept_of retained (Option.get_or c.recents []) c.map }

-- The methods of the header.
pub record CacheClass (C : Type 0) : Type 0 where
  pub init : C
  pub init_with_retain_limit : ℕ → C
  pub add_resource : Resource → C → Option C
  pub resource_with_cache_key : Bytes → C → Option Resource × C
  pub resource_dont_recache : Bytes → C → Option Resource
  pub forget_resource : Resource → C → C
  pub forget_all_resources : C → C
  pub unretain_resources : C → C

unfoldable pub object_cache : CacheClass Cache
object_cache = record {
  init = init_with_retain_limit default_retain_limit;
  init_with_retain_limit = init_with_retain_limit;
  add_resource = add_resource;
  resource_with_cache_key = resource_with_cache_key;
  resource_dont_recache = resource_dont_recache;
  forget_resource = forget_resource;
  forget_all_resources = forget_all_resources;
  unretain_resources = unretain_resources;
}
