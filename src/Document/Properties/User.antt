-- ===== src/Document/Properties/User.antt =====
-- Source/API/CBLRevision.m: what remains and what changes when the user's properties are set.
use couchbase_lite_ios.Base.{
  ◌≡◌, refl, sym, ap, ◌∙◌, inl, inr, Bool, true, false, Option, none, some, [], ◌∷◌, if◌then◌else◌,
  Bool-cases,
}
use couchbase_lite_ios.Base.Bytes.{Bytes, equal, equal_sound}
use couchbase_lite_ios.Document.Properties.{
  PropertyTypes, Properties, object_for, remove_object, set_object, is_reserved_key, keep_metadata,
  set_user_properties,
}
use couchbase_lite_ios.Differ.Steps.{pick-lem}
use mathlib.Core.Option
use mathlib.Core.Path.{subst}

module _ (types : PropertyTypes) where
  open types use {Object}

  remove_object-other :
      (key k : Bytes) (ps : Properties types)
      → equal k key ≡ false
      → object_for types key (remove_object types k ps) ≡ object_for types key ps
  unfolding object_for remove_object
  remove_object-other key k [] h = refl
  remove_object-other key k ((x, v) ∷ ps) h =
      pick-lem
        (λ (r : Properties types).
          object_for types key r ≡ (if equal x key then some v else object_for types key ps))
        (equal x k) _ _
        (λ e.
          let other : equal x key ≡ false =
            subst (λ y. equal y key ≡ false) (sym (equal_sound x k e)) h in
          rw other (remove_object-other key k ps h))
        (λ e. ap (λ o. if equal x key then some v else o) (remove_object-other key k ps h))

  -- The value of a reserved key is the old one if there is one; another key has the given value.
  abbrev pub merged : Bool → Option Object → Option Object → Option Object
  merged false given old = given
  merged true given none = given
  merged true given (some v) = some v

  -- A key that is not the first does not matter, and neither does one that is not reserved.
  merged-skip :
      (reserved same : Bool) (v : Object) (given old : Option Object)
      → (same ≡ true → reserved ≡ false)
      → merged reserved given old ≡ merged reserved given (if same then some v else old)
  merged-skip false same v given old h = refl
  merged-skip true false v given old h = refl
  merged-skip true true v given old h = cc (h refl)

  keep_metadata-merged :
      (given ps : Properties types) (key : Bytes)
      → object_for types key (keep_metadata types given ps)
        ≡ merged (is_reserved_key types key) (object_for types key given) (object_for types key ps)
  unfolding keep_metadata set_object object_for
  keep_metadata-merged given [] key = none_old (is_reserved_key types key)
    where
      none_old :
          (b : Bool) → object_for types key given ≡ merged b (object_for types key given) none
      none_old false = refl
      none_old true = refl
  keep_metadata-merged given ((k, v) ∷ ps) key =
      pick-lem
        (λ (r : Properties types).
          object_for types key r
          ≡ merged (is_reserved_key types key) (object_for types key given)
              (if equal k key then some v else object_for types key ps))
        (is_reserved_key types k) _ _
        (λ reserved. elim (Bool-cases (equal k key)) [
          | inl same ↦
              let also : is_reserved_key types key ≡ true =
                subst (λ y. is_reserved_key types y ≡ true) (equal_sound k key same) reserved in
              rw (same, also) refl
          | inr other ↦ rw other (
              remove_object-other key k (keep_metadata types given ps) other
              ∙ keep_metadata-merged given ps key)
        ])
        (λ free.
          keep_metadata-merged given ps key
          ∙ merged-skip (is_reserved_key types key) (equal k key) v _ _
              (λ same. subst (λ y. is_reserved_key types y ≡ false) (equal_sound k key same) free))

  -- After `setUserProperties:` a key of the user has the value that was given, and a key that begins with "_"
  -- has the value that it had before, or else the given one.
  pub set_user_properties-object_for :
      (given : Option (Properties types)) (ps : Properties types) (key : Bytes)
      → object_for types key (set_user_properties types given ps)
        ≡ merged
            (is_reserved_key types key)
            (object_for types key (Option.get_or given []))
            (object_for types key ps)
  unfolding set_user_properties
  set_user_properties-object_for given ps key = keep_metadata-merged (Option.get_or given []) ps key
