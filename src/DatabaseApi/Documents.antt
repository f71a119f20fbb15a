-- ===== src/DatabaseApi/Documents.antt =====
-- Source/API/CBLDatabase.m, "DOCUMENT ACCESS": the objects of documents, of which a cache keeps one for each ID. The
-- objects are numbered; `objects` are their instance variables. `none` is nil, or a failed assertion of the cache.
use couchbase_lite_ios.Base.{
  ℕ, ◌+◌, Bool, true, false, not, ◌&&◌, Option, none, some, ◌==◌, if◌then◌else◌, length,
}
use couchbase_lite_ios.Base.Bytes.{Bytes}
use couchbase_lite_ios.Revision.{is_given}
use couchbase_lite_ios.Cache.{
  Resource, Cache, init_with_retain_limit, resource_with_cache_key, resource_dont_recache,
  add_resource, forget_resource, forget_all_resources, unretain_resources,
}
use couchbase_lite_ios.Document.Properties.{PropertyTypes}
use couchbase_lite_ios.Document.Access.{
  DocumentDatabase, Document, init_with_database, current_revision,
}
use mathlib.Core.Option

abbrev pub doc_retain_limit : ℕ
doc_retain_limit = 50

module _ (types : PropertyTypes) (Url S : Type 0) (database : DocumentDatabase types Url S) where
  pub record DocumentCache : Type 0 where
    pub cache : Option Cache
    pub objects : ℕ → Document types Url S
    pub next_object : ℕ

  abbrev pub set_object_at : ℕ → Document types Url S → DocumentCache → DocumentCache
  set_object_at i doc s = record s { objects = λ j. if j == i then doc else s.objects j }

  unfoldable pub cached : Bytes → Option Cache → Option Resource × Option Cache
  unfolding resource_with_cache_key
  cached doc_id none = (none, none)
  cached doc_id (some c) = let found = resource_with_cache_key doc_id c in (found.0, some found.1)

  -- The object after its current revision is loaded, and whether it has one.
  unfoldable pub loaded : Document types Url S → S → Document types Url S
  unfolding current_revision
  loaded doc st = current_revision types Url S database doc st

  unfoldable pub found_document :
      Bool → Resource → Option Cache → DocumentCache → S → Option Resource × DocumentCache
  unfolding loaded
  found_document must_exist r c s st =
      let doc = loaded (s.objects r.object) st in
      if must_exist
      then (
        if is_given doc.current then some r else none,
        set_object_at r.object doc (record s { cache = c }),
      )
      else (some r, record s { cache = c })

  abbrev pub added : Resource → Option Cache → DocumentCache → Option Resource × DocumentCache
  added r none s = (none, s)
  added r (some c) s = (some r, record s { cache = some c })

  abbrev pub new_resource : Bytes → DocumentCache → Resource
  new_resource doc_id s = record { cache_key = doc_id; object = s.next_object }

  unfoldable pub new_object : Bool → Bool → Bytes → S → Document types Url S
  unfolding init_with_database loaded
  new_object must_exist is_new doc_id st =
      let doc = init_with_database types Url S doc_id (not is_new) in
      if must_exist then loaded doc st else doc

  unfoldable pub new_document :
      Bytes → Bool → Bool → Option Cache → DocumentCache → S → Option Resource × DocumentCache
  unfolding new_object add_resource init_with_retain_limit
  new_document doc_id must_exist is_new c s st =
      let doc = new_object must_exist is_new doc_id st in
      let s' =
        set_object_at s.next_object doc (record s { cache = c; next_object = s.next_object + 1 }) in
      if length doc_id == 0
      then (none, record s { cache = c })
      else if must_exist && not (is_given doc.current)
      then (none, record s { cache = c })
      else added (new_resource doc_id s)
          (add_resource (new_resource doc_id s)
            (Option.get_or c (init_with_retain_limit doc_retain_limit)))
          s'

  unfoldable pub with_cached :
      Bytes
      → Bool
      → Bool
      → Option Resource × Option Cache
      → DocumentCache
      → S
      → Option Resource × DocumentCache
  unfolding found_document new_document
  with_cached doc_id must_exist is_new (some r, c) s st = found_document must_exist r c s st
  with_cached doc_id must_exist is_new (none, c) s st = new_document doc_id must_exist is_new c s st

  -- `documentWithID:mustExist:isNew:`
  unfoldable pub get_document :
      Bytes → Bool → Bool → DocumentCache → S → Option Resource × DocumentCache
  unfolding with_cached cached
  get_document doc_id must_exist is_new s st =
      with_cached doc_id must_exist is_new (cached doc_id s.cache) s st

  -- The methods of the header.
  pub record DocumentAccess (D : Type 0) : Type 0 where
    pub document_with_id : Bytes → D → S → Option Resource × D
    pub existing_document_with_id : Bytes → D → S → Option Resource × D
    pub object_for_keyed_subscript : Bytes → D → S → Option Resource × D
    pub create_document : Bytes → D → S → Option Resource × D

  -- `create_document` takes the new random ID.
  unfoldable pub document_access : DocumentAccess DocumentCache
  document_access = record {
    document_with_id = λ doc_id. get_document doc_id false false;
    existing_document_with_id = λ doc_id. get_document doc_id true false;
    object_for_keyed_subscript = λ key. get_document key false false;
    create_document = λ doc_id. get_document doc_id false true;
  }

  abbrev pub in_cache : (Cache → Cache) → DocumentCache → DocumentCache
  in_cache change s = record s { cache = Option.map change s.cache }

  unfoldable pub cached_document_with_id : Bytes → DocumentCache → Option Resource
  cached_document_with_id doc_id s = Option.bind s.cache (resource_dont_recache doc_id)

  unfoldable pub clear_document_cache : DocumentCache → DocumentCache
  clear_document_cache = in_cache forget_all_resources

  unfoldable pub prune_document_cache : DocumentCache → DocumentCache
  prune_document_cache = in_cache unretain_resources

  unfoldable pub remove_document_from_cache : Resource → DocumentCache → DocumentCache
  remove_document_from_cache r = in_cache (forget_resource r)
