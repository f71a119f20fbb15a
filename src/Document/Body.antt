-- ===== src/Document/Body.antt =====
-- Source/CBL_Body.h and CBL_Body.m: a body, which is kept as JSON, as an object, or as both; each is made from the
-- other when it is asked for. CBLJSON, the generator of YAJL and the casts are parameters. A method that caches
-- what it finds returns the body anew.
use couchbase_lite_ios.Base.{
  ◌≡◌, refl, Bool, true, false, ◌||◌, Option, none, some, [], ◌∷◌, ◌++◌, ltb, if◌then◌else◌, length,
}
use couchbase_lite_ios.Base.Bytes.{Bytes}
use couchbase_lite_ios.Revision.{is_given}
use mathlib.Core.Option

-- `generate` makes the JSON of the ID, the revision ID and the flag, `metadata` an object of them, and
-- `append` is `appendJSONDictionaryData:toJSONDictionaryData:`.
pub record BodyTypes : Type 1 where
  pub Object : Type 0
  pub Dictionary : Type 0
  pub encode : Object → Option Bytes
  pub encode_pretty : Object → Option Bytes
  pub decode : Bytes → Option Object
  pub dictionary_of : Object → Option Dictionary
  pub entry_of : Bytes → Dictionary → Option Object
  pub text_of : Bytes → Option Bytes
  pub metadata : Bytes → Bytes → Bool → Object
  pub generate : Bytes → Bytes → Bool → Bytes
  pub append : Bytes → Bytes → Bytes

module _ (types : BodyTypes) where
  open types use {
    Object, Dictionary, encode, encode_pretty, decode, dictionary_of, entry_of, text_of, metadata,
    generate, append,
  }

  pub record Body : Type 0 where
    pub json : Option Bytes
    pub object : Option Object
    pub error : Bool

  unfoldable pub init_with_properties : Object → Body
  init_with_properties properties = record { json = none; object = some properties; error = false }

  unfoldable pub init_with_json : Option Bytes → Body
  init_with_json json = record { json = some (Option.get_or json []); object = none; error = false }

  -- `initWithJSON:addingDocID:revID:deleted:`
  unfoldable pub init_adding : Bytes → Bytes → Bytes → Bool → Body
  unfolding init_with_properties init_with_json
  init_adding json doc_id revid deleted =
      if ltb (length json) 2
      then init_with_properties (metadata doc_id revid deleted)
      else init_with_json (some (append (generate doc_id revid deleted) json))

  abbrev pub found_json : Body → Option Bytes → Body
  found_json b none = record b { error = true }
  found_json b (some json) = record b { json = some json }

  abbrev pub found_object : Body → Option Object → Body
  found_object b none = record b { error = true }
  found_object b (some object) = record b { object = some object }

  -- `asJSON`: the text is `json` of the result.
  unfoldable pub as_json : Body → Body
  as_json b = if is_given b.json || b.error then b else found_json b (Option.bind b.object encode)

  -- `asObject`: the object is `object` of the result.
  unfoldable pub as_object : Body → Body
  as_object b =
      if is_given b.object || b.error then b else found_object b (Option.bind b.json decode)

  unfoldable pub is_valid_json : Body → Bool × Body
  unfolding as_object
  is_valid_json b = let b' = as_object b in (is_given b'.object, b')

  abbrev pub or_json : Body → Option Bytes → Option Bytes × Body
  unfolding as_json
  or_json b (some pretty) = (some (pretty ++ (b'\n' ∷ [])), b)
  or_json b none = let b' = as_json b in (b'.json, b')

  unfoldable pub as_pretty_json : Body → Option Bytes × Body
  unfolding as_object or_json
  as_pretty_json b = let b' = as_object b in or_json b' (Option.bind b'.object encode_pretty)

  unfoldable pub as_json_string : Body → Option Bytes × Body
  unfolding as_json
  as_json_string b = let b' = as_json b in (Option.bind b'.json text_of, b')

  unfoldable pub body_dictionary : Body → Option Dictionary × Body
  unfolding as_object
  body_dictionary b = let b' = as_object b in (Option.bind b'.object dictionary_of, b')

  unfoldable pub body_entry : Bytes → Body → Option Object × Body
  unfolding body_dictionary
  body_entry key b = let found = body_dictionary b in (Option.bind found.0 (entry_of key), found.1)

  abbrev pub dropped : Body → Bool × Body
  dropped b = if b.error then (false, b) else (true, record b { object = none })

  unfoldable pub compact_body : Body → Bool × Body
  unfolding as_json
  compact_body b = dropped (as_json b)

  -- The methods of the header.
  pub record BodyClass (B : Type 0) : Type 0 where
    pub init_with_properties : Object → B
    pub init_with_json : Option Bytes → B
    pub init_adding : Bytes → Bytes → Bytes → Bool → B
    pub is_valid_json : B → Bool × B
    pub as_json : B → B
    pub as_pretty_json : B → Option Bytes × B
    pub as_json_string : B → Option Bytes × B
    pub as_object : B → B
    pub error : B → Bool
    pub properties : B → Option Dictionary × B
    pub object_for_keyed_subscript : Bytes → B → Option Object × B
    pub compact : B → Bool × B

  unfoldable pub body_class : BodyClass Body
  body_class = record {
    init_with_properties = init_with_properties;
    init_with_json = init_with_json;
    init_adding = init_adding;
    is_valid_json = is_valid_json;
    as_json = as_json;
    as_pretty_json = as_pretty_json;
    as_json_string = as_json_string;
    as_object = as_object;
    error = λ b. b.error;
    properties = body_dictionary;
    object_for_keyed_subscript = body_entry;
    compact = compact_body;
  }

  -- An object that is kept beside a text is what the text means.
  abbrev pub IsConsistent : Option Bytes → Option Object → Type 0
  IsConsistent (some json) (some object) = decode json ≡ some object
  IsConsistent _ _ = Unit

  compact-object :
      ((object : Object) (json : Bytes) → encode object ≡ some json → decode json ≡ some object)
      → (json : Option Bytes) (object : Option Object) (error : Bool) (encoded : Option Bytes)
      → Option.bind object encode ≡ encoded
      → IsConsistent json object
      → (as_object
          (dropped (
            if is_given json || error
            then record { json = json; object = object; error = error }
            else found_json
                (record { json = json; object = object; error = error })
                encoded)).1).object
        ≡ (as_object (record { json = json; object = object; error = error })).object
  unfolding as_object Option.bind
  compact-object codec none object true encoded e h = refl
  compact-object codec (some json) object true encoded e h = refl
  compact-object codec (some json) none false encoded e h = refl
  compact-object codec (some json) (some object) false encoded e h = rw h refl
  compact-object codec none none false none e h = refl
  compact-object codec none none false (some text) e h = cc e
  compact-object codec none (some object) false none e h = refl
  compact-object codec none (some object) false (some text) e h = rw (codec object text e) refl

  -- `compact` has no effect on the object of a body, whether it returns YES or NO, when an object is read from the
  -- JSON that it is written as, and when the object that is kept beside a text is what the text means.
  pub compact_body-as_object :
      ((object : Object) (json : Bytes) → encode object ≡ some json → decode json ≡ some object)
      → (b : Body) → IsConsistent b.json b.object
      → (as_object (compact_body b).1).object ≡ (as_object b).object
  unfolding compact_body as_json
  compact_body-as_object codec b h = compact-object codec b.json b.object b.error _ refl h
