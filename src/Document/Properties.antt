-- ===== src/Document/Properties.antt =====
-- Source/CBL_Body.h and CBL_Body.m: the properties of a revision, with the methods that read the metadata; and
-- Source/API/CBLRevision.m: the user's properties. A dictionary is the list of its entries; its objects are of a
-- type that is looked into by the casts of the parameter.
pub mod User
use couchbase_lite_ios.Base.{
  ℕ, Bool, true, false, not, Option, none, some, List, [], ◌∷◌, ◌==◌, if◌then◌else◌,
}
use couchbase_lite_ios.Base.Bytes.{Bytes, codes, equal}
use couchbase_lite_ios.RevId.{TreeRevId, as_string}
use mathlib.Core.Option

-- The casts `$castIf(NSString, …)`, `$castIf(NSNumber, …).boolValue`, `$castIf(NSDictionary, …)` and to an
-- attachment, and the objects that the code makes.
pub record PropertyTypes : Type 1 where
  pub Object : Type 0
  pub Attachment : Type 0
  pub string_of : Object → Option Bytes
  pub bool_of : Object → Bool
  pub dictionary_of : Object → Option (List (Bytes × Object))
  pub attachment_of : Object → Option Attachment
  pub string_object : Bytes → Object
  pub true_object : Object
  pub dictionary_object : List (Bytes × Object) → Object
  pub attachment_object : Attachment → Object
  pub metadata : Attachment → Object

module _ (types : PropertyTypes) where
  open types use {Object, string_of, bool_of, dictionary_of, string_object, true_object}

  abbrev pub Properties : Type 0
  Properties = List (Bytes × Object)

  unfoldable pub object_for : Bytes → Properties → Option Object
  object_for key [] = none
  object_for key ((k, v) ∷ rest) =
      let later = object_for key rest in if equal k key then some v else later

  unfoldable pub remove_object : Bytes → Properties → Properties
  remove_object key [] = []
  remove_object key ((k, v) ∷ rest) =
      let others = remove_object key rest in if equal k key then others else (k, v) ∷ others

  -- `setValue:forKey:`, where nil removes the entry.
  unfoldable pub set_object : Bytes → Option Object → Properties → Properties
  unfolding remove_object
  set_object key none properties = remove_object key properties
  set_object key (some v) properties = (key, v) ∷ remove_object key properties

  abbrev pub cast_string : Option Object → Option Bytes
  cast_string none = none
  cast_string (some v) = string_of v

  unfoldable pub cbl_id : Properties → Option Bytes
  unfolding object_for
  cbl_id properties = cast_string (object_for (codes "_id") properties)

  unfoldable pub cbl_rev_str : Properties → Option Bytes
  unfolding object_for
  cbl_rev_str properties = cast_string (object_for (codes "_rev") properties)

  unfoldable pub cbl_rev : Properties → Option TreeRevId
  unfolding cbl_rev_str
  cbl_rev properties = cbl_rev_str properties

  abbrev pub is_true : Option Object → Bool
  is_true none = false
  is_true (some v) = bool_of v

  unfoldable pub cbl_deleted : Properties → Bool
  unfolding object_for
  cbl_deleted properties = is_true (object_for (codes "_deleted") properties)

  unfoldable pub is_removed : Properties → Bool
  unfolding object_for
  is_removed properties = is_true (object_for (codes "_removed") properties)

  abbrev pub cast_dictionary : Option Object → Option Properties
  cast_dictionary none = none
  cast_dictionary (some v) = dictionary_of v

  unfoldable pub cbl_attachments : Properties → Option Properties
  unfolding object_for
  cbl_attachments properties = cast_dictionary (object_for (codes "_attachments") properties)

  -- The methods of `NSDictionary (CBL_Body)`.
  pub record BodyProperties (P : Type 0) : Type 0 where
    pub cbl_id : P → Option Bytes
    pub cbl_rev : P → Option TreeRevId
    pub cbl_rev_str : P → Option Bytes
    pub cbl_deleted : P → Bool
    pub cbl_attachments : P → Option P

  unfoldable pub body_properties : BodyProperties Properties
  body_properties = record {
    cbl_id = cbl_id;
    cbl_rev = cbl_rev;
    cbl_rev_str = cbl_rev_str;
    cbl_deleted = cbl_deleted;
    cbl_attachments = cbl_attachments;
  }

  -- `hasPrefix: @"_"`
  unfoldable pub is_reserved_key : Bytes → Bool
  is_reserved_key [] = false
  is_reserved_key (c ∷ cs) = c == b'_'

  unfoldable pub user_properties : Properties → Properties
  unfolding is_reserved_key
  user_properties [] = []
  user_properties ((k, v) ∷ rest) =
      let others = user_properties rest in if is_reserved_key k then others else (k, v) ∷ others

  -- The entries of the old properties whose keys are reserved replace those of the given ones.
  unfoldable pub keep_metadata : Properties → Properties → Properties
  unfolding set_object is_reserved_key
  keep_metadata given [] = given
  keep_metadata given ((k, v) ∷ rest) =
      let others = keep_metadata given rest in
      if is_reserved_key k then set_object k (some v) others else others

  -- `setUserProperties:`
  unfoldable pub set_user_properties : Option Properties → Properties → Properties
  unfolding keep_metadata
  set_user_properties given properties = keep_metadata (Option.get_or given []) properties

  -- `setIsDeletion:`
  unfoldable pub set_is_deletion : Bool → Properties → Properties
  unfolding set_object remove_object
  set_is_deletion deleted properties =
      if deleted
      then set_object (codes "_deleted") (some true_object) properties
      else remove_object (codes "_deleted") properties
