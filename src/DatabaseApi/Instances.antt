-- ===== src/DatabaseApi/Instances.antt =====
-- Source/API/CBLDatabase.m: one object for each ID of a document.
use couchbase_lite_ios.Base.{
  ◌≡◌, refl, sym, ap, ◌∙◌, Bool, true, false, not, ◌&&◌, Option, none, some, ◌==◌, length,
}
use couchbase_lite_ios.Base.Bytes.{Bytes, equal_refl}
use couchbase_lite_ios.Revision.{is_given}
use couchbase_lite_ios.Cache.{
  Resource, Cache, init_with_retain_limit, object_for_key, access, put_resource,
  resource_with_cache_key, add_resource,
}
use couchbase_lite_ios.Document.Properties.{PropertyTypes}
use couchbase_lite_ios.Document.Access.{DocumentDatabase}
use couchbase_lite_ios.DatabaseApi.Documents.{
  DocumentCache, cached, loaded, found_document, added, new_resource, new_object, new_document,
  with_cached, get_document, doc_retain_limit,
}
use couchbase_lite_ios.Differ.Steps.{pick-lem}
use mathlib.Core.Option
use mathlib.Core.Path.{subst}

-- The cache leads from the ID to this object.
record IsCached (doc_id : Bytes) (r : Resource) (o : Option Cache) : Type 0 where
  cache : Cache
  is_there : o ≡ some cache
  leads : object_for_key doc_id cache.map ≡ some r

some_injective : {A : Type 0} {x y : A} → some x ≡ some y → x ≡ y
some_injective h = cc h

-- A lookup finds what is in the table, and leaves the table as it is.
access-lem : (c : Cache) (o : Option Resource) → ((access c o).0 ≡ o) × ((access c o).1.map ≡ c.map)
unfolding access
access-lem c none = (refl, refl)
access-lem c (some r) = (refl, refl)

put_resource-IsCached :
    (r : Resource) (c : Cache) (o : Option Resource) (c' : Cache)
    → put_resource r c o ≡ some c'
    → object_for_key r.cache_key c'.map ≡ some r
unfolding object_for_key
put_resource-IsCached r c (some found) c' h = cc h
put_resource-IsCached r c none c' h =
    subst (λ (d : Cache). object_for_key r.cache_key d.map ≡ some r) (some_injective h)
      (rw (equal_refl r.cache_key) refl)

module _ (types : PropertyTypes) (Url S : Type 0) (database : DocumentDatabase types Url S) where
  abbrev pub Result : Type 0
  Result = Option Resource × DocumentCache types Url S database

  cached-lem :
      (doc_id : Bytes) (o : Option Cache) (r : Resource)
      → (cached types Url S database doc_id o).0 ≡ some r
      → IsCached doc_id r (cached types Url S database doc_id o).1
  unfolding cached resource_with_cache_key
  cached-lem doc_id none r h = cc h
  cached-lem doc_id (some c) r h =
      let (found, same) = access-lem c (object_for_key doc_id c.map) in
      record {
        cache = (access c (object_for_key doc_id c.map)).1;
        is_there = refl;
        leads = rw same (sym found ∙ h);
      }

  -- The returned object is the one in the cache.
  Keeps : Bytes → Result → Type 0
  Keeps doc_id (o, s) = (r : Resource) → o ≡ some r → IsCached doc_id r s.cache

  found_document-Keeps :
      (doc_id : Bytes) (must_exist : Bool) (r : Resource) (c : Option Cache)
      (s : DocumentCache types Url S database) (st : S)
      → IsCached doc_id r c
      → Keeps doc_id (found_document types Url S database must_exist r c s st)
  unfolding found_document Keeps
  found_document-Keeps doc_id false r c s st w =
      λ q h. subst (λ x. IsCached doc_id x c) (some_injective h) w
  found_document-Keeps doc_id true r c s st w =
      pick-lem (λ (o : Option Resource). (q : Resource) → o ≡ some q → IsCached doc_id q c)
        (is_given (loaded types Url S database (s.objects r.object) st).current) _ _
        (λ e q h. subst (λ x. IsCached doc_id x c) (some_injective h) w) (λ e q h. cc h)

  added-Keeps :
      (doc_id : Bytes) (o : Option Cache) (s s' : DocumentCache types Url S database) (c : Cache)
      → add_resource (new_resource types Url S database doc_id s) c ≡ o
      → Keeps doc_id (added types Url S database (new_resource types Url S database doc_id s) o s')
  unfolding Keeps add_resource
  added-Keeps doc_id none s s' c e q h = cc h
  added-Keeps doc_id (some c') s s' c e q h = record {
    cache = c';
    is_there = refl;
    leads = put_resource-IsCached (new_resource types Url S database doc_id s) c _ c' e ∙ h;
  }

  new_document-Keeps :
      (doc_id : Bytes) (must_exist is_new : Bool) (c : Option Cache)
      (s : DocumentCache types Url S database) (st : S)
      → Keeps doc_id (new_document types Url S database doc_id must_exist is_new c s st)
  unfolding new_document Keeps
  new_document-Keeps doc_id must_exist is_new c s st =
      pick-lem (Keeps doc_id) (length doc_id == 0) _ _ (λ e q h. cc h)
        (λ e.
          pick-lem (Keeps doc_id)
            (must_exist
              && not
                  (is_given (new_object types Url S database must_exist is_new doc_id st).current))
            _ _ (λ e' q h. cc h)
            (λ e'.
              added-Keeps doc_id _ s _ (Option.get_or c (init_with_retain_limit doc_retain_limit))
                refl))

  with_cached-Keeps :
      (doc_id : Bytes) (must_exist is_new : Bool) (o : Option Resource) (c : Option Cache)
      (s : DocumentCache types Url S database) (st : S)
      → ((r : Resource) → o ≡ some r → IsCached doc_id r c)
      → Keeps doc_id (with_cached types Url S database doc_id must_exist is_new (o, c) s st)
  unfolding with_cached
  with_cached-Keeps doc_id must_exist is_new none c s st h =
      new_document-Keeps doc_id must_exist is_new c s st
  with_cached-Keeps doc_id must_exist is_new (some r) c s st h =
      found_document-Keeps doc_id must_exist r c s st (h r refl)

  with_cached-found :
      (doc_id : Bytes) (is_new : Bool) (o : Option Resource) (c : Option Cache)
      (s : DocumentCache types Url S database) (st : S) (r : Resource)
      → o ≡ some r
      → (with_cached types Url S database doc_id false is_new (o, c) s st).0 ≡ some r
  unfolding with_cached found_document
  with_cached-found doc_id is_new none c s st r h = cc h
  with_cached-found doc_id is_new (some q) c s st r h = h

  cached-found :
      (doc_id : Bytes) (o : Option Cache) (r : Resource)
      → IsCached doc_id r o
      → (cached types Url S database doc_id o).0 ≡ some r
  unfolding cached resource_with_cache_key
  cached-found doc_id none r w = cc (w.is_there)
  cached-found doc_id (some c) r w =
      let (found, same) = access-lem c (object_for_key doc_id c.map) in
      found ∙ ap (λ (d : Cache). object_for_key doc_id d.map) (some_injective w.is_there) ∙ w.leads

  -- When a call has returned an object for an ID, a call of `documentWithID:` that follows returns the same
  -- object, also when the database has changed in the meantime.
  pub get_document_again :
      (doc_id : Bytes) (must_exist is_new is_new' : Bool) (s : DocumentCache types Url S database)
      (st st' : S) (r : Resource)
      → (get_document types Url S database doc_id must_exist is_new s st).0 ≡ some r
      → (get_document types Url S database doc_id false is_new'
          (get_document types Url S database doc_id must_exist is_new s st).1
          st').0
        ≡ some r
  unfolding get_document Keeps
  get_document_again doc_id must_exist is_new is_new' s st st' r h =
      let kept =
        with_cached-Keeps doc_id must_exist is_new (cached types Url S database doc_id s.cache).0
          (cached types Url S database doc_id s.cache).1 s st (λ q e. cached-lem doc_id s.cache q e)
          r h in
      with_cached-found doc_id is_new' _ _ _ st' r (cached-found doc_id _ r kept)
