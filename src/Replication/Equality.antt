-- ===== src/Replication/Equality.antt =====
-- Source/CBL_ReplicatorSettings.m: what equal settings, and equal checkpoint IDs, have in common.
use couchbase_lite_ios.Base.{
  ◌<◌, ◌≡◌, refl, sym, ap, ◌∙◌, ◌↔◌, inl, inr, Bool, true, false, ◌&&◌, Option, none, some, List,
  [], ◌∷◌, if◌then◌else◌, All, arith, Bool-cases,
}
use couchbase_lite_ios.Base.Bytes.{Bytes, codes, equal, equal_sound, equal_refl}
use couchbase_lite_ios.RevId.{append_hex}
use couchbase_lite_ios.Replication.Settings.{
  string, boolean, strings, dictionary, SettingsTypes, Value, ReplicatorSettings, lookup,
  keep_given, remote_uuid, remote_url, checkpoint_fields, remote_checkpoint_doc_id, same_flag,
  is_equal,
}
use mathlib.Core.Option
use mathlib.Core.Path.{subst}

-- The digits of two bytes are different if the bytes are.
append_hex_injective :
    (a b : Bytes)
    → All (λ c. c < 256) a
    → All (λ c. c < 256) b
    → append_hex a ≡ append_hex b
    → a ≡ b
unfolding append_hex
append_hex_injective [] [] p q h = refl
append_hex_injective [] (d ∷ b) p q h = cc
append_hex_injective (c ∷ a) [] p q h = cc
append_hex_injective (c ∷ a) (d ∷ b) p q h = ground (arith, append_hex_injective a b p.1 q.1)

module _ (types : SettingsTypes) where
  open types use {Number, Dictionary, absolute_string, canonical_encoding, sha1}

  abbrev or_value : Option (Value types) → Option (Value types) → Option (Value types)
  or_value none o = o
  or_value (some v) o = some v

  find : Bytes → List (Bytes × Option (Value types)) → Option (Value types)
  find key [] = none
  find key ((k, o) ∷ rest) =
      let later = find key rest in if equal k key then or_value o later else later

  lookup-keep_given :
      (key : Bytes) (fields : List (Bytes × Option (Value types)))
      → lookup types key (keep_given types fields) ≡ find key fields
  unfolding lookup keep_given find
  lookup-keep_given key [] = refl
  lookup-keep_given key ((k, none) ∷ rest) = elim (Bool-cases (equal k key)) [
    | inl same ↦ rw same (lookup-keep_given key rest)
    | inr other ↦ rw other (lookup-keep_given key rest)
  ]
  lookup-keep_given key ((k, some v) ∷ rest) = elim (Bool-cases (equal k key)) [
    | inl same ↦ rw same refl
    | inr other ↦ rw other (lookup-keep_given key rest)
  ]

  abbrev pub checkpoint : ReplicatorSettings types → List (Bytes × Value types)
  checkpoint s = keep_given types (checkpoint_fields types [] s)

  -- What is assumed of the encoder and of the digest for two settings: checkpoints of one text have the same
  -- entries, texts of one digest are the same, and a digest is of bytes.
  pub record IsCollisionFree (a b : ReplicatorSettings types) : Type 0 where
    pub text :
        canonical_encoding (checkpoint a) ≡ canonical_encoding (checkpoint b)
        → (key : Bytes) → lookup types key (checkpoint a) ≡ lookup types key (checkpoint b)
    pub digest :
        sha1 (canonical_encoding (checkpoint a)) ≡ sha1 (canonical_encoding (checkpoint b))
        → canonical_encoding (checkpoint a) ≡ canonical_encoding (checkpoint b)
    pub are_bytes : All (λ c. c < 256) (sha1 (canonical_encoding (checkpoint a)))
    pub are_bytes' : All (λ c. c < 256) (sha1 (canonical_encoding (checkpoint b)))

  -- The settings that decide what is replicated. Of the remote it is the UUID if given, else the URL.
  pub record IsSame (a b : ReplicatorSettings types) : Type 0 where
    pub push : a.is_push ≡ b.is_push
    pub continuous : a.continuous ≡ b.continuous
    pub filter : a.filter_name ≡ b.filter_name
    pub params : a.filter_parameters ≡ b.filter_parameters
    pub docids : a.doc_ids ≡ b.doc_ids
    pub uuid : remote_uuid types a ≡ remote_uuid types b
    pub url : remote_url types a (remote_uuid types a) ≡ remote_url types b (remote_uuid types b)

  abbrev as_string : Bytes → Value types
  as_string = string

  abbrev as_dictionary : Dictionary → Value types
  as_dictionary = dictionary

  abbrev as_strings : List Bytes → Value types
  as_strings = strings

  abbrev unless_continuous : Bool → Option (Value types)
  unless_continuous continuous = if continuous then none else some (boolean false)

  or_value-none : (o : Option (Value types)) → or_value o none ≡ o
  or_value-none none = refl
  or_value-none (some v) = refl

  field-push :
      (s : ReplicatorSettings types)
      → find (codes "push") (checkpoint_fields types [] s) ≡ some (boolean s.is_push)
  unfolding find checkpoint_fields equal
  field-push s = refl

  field-continuous :
      (s : ReplicatorSettings types)
      → find (codes "continuous") (checkpoint_fields types [] s) ≡ unless_continuous s.continuous
  unfolding find checkpoint_fields equal
  field-continuous s = or_value-none _

  field-filter :
      (s : ReplicatorSettings types)
      → find (codes "filter") (checkpoint_fields types [] s) ≡ Option.map as_string s.filter_name
  unfolding find checkpoint_fields equal
  field-filter s = or_value-none _

  field-params :
      (s : ReplicatorSettings types)
      → find (codes "filterParams") (checkpoint_fields types [] s)
        ≡ Option.map as_dictionary s.filter_parameters
  unfolding find checkpoint_fields equal
  field-params s = or_value-none _

  field-docids :
      (s : ReplicatorSettings types)
      → find (codes "docids") (checkpoint_fields types [] s) ≡ Option.map as_strings s.doc_ids
  unfolding find checkpoint_fields equal
  field-docids s = or_value-none _

  field-uuid :
      (s : ReplicatorSettings types)
      → find (codes "remoteUUID") (checkpoint_fields types [] s) ≡ remote_uuid types s
  unfolding find checkpoint_fields equal
  field-uuid s = or_value-none _

  field-url :
      (s : ReplicatorSettings types)
      → find (codes "remoteURL") (checkpoint_fields types [] s)
        ≡ remote_url types s (remote_uuid types s)
  unfolding find checkpoint_fields equal
  field-url s = or_value-none _

  continuous_injective : (a b : Bool) → unless_continuous a ≡ unless_continuous b → a ≡ b
  continuous_injective true true h = refl
  continuous_injective true false h = cc
  continuous_injective false true h = cc
  continuous_injective false false h = refl

  string_injective : (a b : Option Bytes) → Option.map as_string a ≡ Option.map as_string b → a ≡ b
  string_injective none none h = refl
  string_injective none (some y) h = cc
  string_injective (some x) none h = cc
  string_injective (some x) (some y) h = cc

  dictionary_injective :
      (a b : Option Dictionary) → Option.map as_dictionary a ≡ Option.map as_dictionary b → a ≡ b
  dictionary_injective none none h = refl
  dictionary_injective none (some y) h = cc
  dictionary_injective (some x) none h = cc
  dictionary_injective (some x) (some y) h = cc

  strings_injective :
      (a b : Option (List Bytes)) → Option.map as_strings a ≡ Option.map as_strings b → a ≡ b
  strings_injective none none h = refl
  strings_injective none (some y) h = cc
  strings_injective (some x) none h = cc
  strings_injective (some x) (some y) h = cc

  same_flag_sound : (a b : Bool) → same_flag types a b ≡ true → a ≡ b
  same_flag_sound a b h = ground arith

  same_flag_refl : (a : Bool) → same_flag types a a ≡ true
  same_flag_refl a = ground arith

  module _ (a b : ReplicatorSettings types) (c : IsCollisionFree a b) where
    same_fields :
        remote_checkpoint_doc_id types [] a ≡ remote_checkpoint_doc_id types [] b
        → (key : Bytes)
        → find key (checkpoint_fields types [] a) ≡ find key (checkpoint_fields types [] b)
    unfolding remote_checkpoint_doc_id
    same_fields h key =
        sym (lookup-keep_given key (checkpoint_fields types [] a))
        ∙ c.text (c.digest (append_hex_injective _ _ c.are_bytes c.are_bytes' h)) key
        ∙ lookup-keep_given key (checkpoint_fields types [] b)

    checkpoint-IsSame :
        remote_checkpoint_doc_id types [] a ≡ remote_checkpoint_doc_id types [] b → IsSame a b
    checkpoint-IsSame h =
        let same = same_fields h in
        record {
          push =
              let e : some (boolean a.is_push) ≡ some (boolean b.is_push) =
                sym (field-push a) ∙ same (codes "push") ∙ field-push b in
              cc e;
          continuous =
              continuous_injective a.continuous b.continuous
                (sym (field-continuous a) ∙ same (codes "continuous") ∙ field-continuous b);
          filter =
              string_injective a.filter_name b.filter_name
                (sym (field-filter a) ∙ same (codes "filter") ∙ field-filter b);
          params =
              dictionary_injective a.filter_parameters b.filter_parameters
                (sym (field-params a) ∙ same (codes "filterParams") ∙ field-params b);
          docids =
              strings_injective a.doc_ids b.doc_ids
                (sym (field-docids a) ∙ same (codes "docids") ∙ field-docids b);
          uuid = sym (field-uuid a) ∙ same (codes "remoteUUID") ∙ field-uuid b;
          url = sym (field-url a) ∙ same (codes "remoteURL") ∙ field-url b;
        }

    IsSame-fields : IsSame a b → checkpoint_fields types [] a ≡ checkpoint_fields types [] b
    unfolding checkpoint_fields
    IsSame-fields s = cc (s.push, s.continuous, s.filter, s.params, s.docids, s.uuid, s.url)

    same_id : IsSame a b → remote_checkpoint_doc_id types [] a ≡ remote_checkpoint_doc_id types [] b
    unfolding remote_checkpoint_doc_id
    same_id s =
        ap (λ fields. append_hex (sha1 (canonical_encoding (keep_given types fields))))
          (IsSame-fields s)

    -- Two settings are equal exactly if they agree on the direction, on being continuous, on the filter,
    -- its parameters and the document IDs, and on the remote: by its UUID if one is given, else by its
    -- URL; as far as the encoder and the digest tell different checkpoints apart.
    pub is_equal-IsSame : (is_equal types a b ≡ true) ↔ IsSame a b
    unfolding is_equal
    is_equal-IsSame = (
      λ h. checkpoint-IsSame (equal_sound _ _ (both _ _ h).1),
      λ s. both_true _ _ (rw s.push (same_flag_refl b.is_push)) (
          subst (λ id. equal (remote_checkpoint_doc_id types [] a) id ≡ true) (same_id s)
            (equal_refl (remote_checkpoint_doc_id types [] a))),
    )
      where
        both : (x y : Bool) → (x && y) ≡ true → (x ≡ true) × (y ≡ true)
        both x y h = ground arith

        both_true : (x y : Bool) → x ≡ true → y ≡ true → (x && y) ≡ true
        both_true x y h k = ground arith
