-- ===== src/Document/Attachment.antt =====
-- Source/CBL_Attachment.h and CBL_Attachment.m: the metadata of an attachment, which is read from the entry of
-- "_attachments" and written as a stub. An entry is the list of its fields, whose objects are of a type that the
-- casts of the parameter look into. CBLBase64 is a parameter.
pub mod Stub
pub mod Content
use couchbase_lite_ios.Base.{
  ℕ, zero, suc, Bool, true, false, not, ◌&&◌, Option, none, some, List, [], ◌∷◌, ◌++◌, ◌==◌, ltb,
  if◌then◌else◌, length, take, drop,
}
use couchbase_lite_ios.Base.Int.{ℤ, pos, negsuc}
use couchbase_lite_ios.Base.Bytes.{Bytes, codes, equal}
use couchbase_lite_ios.Revision.{is_given}
use mathlib.Core.Option

-- `$castIf(NSString, …)`, `$castIf(NSNumber, …)` with `unsignedLongLongValue` and with `intValue`,
-- `$castIf(NSData, …)`, `isEqual: $true`, and the objects of a stub.
pub record EntryTypes : Type 1 where
  pub Object : Type 0
  pub string_of : Object → Option Bytes
  pub unsigned_of : Object → Option ℕ
  pub int_of : Object → Option ℤ
  pub data_of : Object → Option Bytes
  pub is_true_object : Object → Bool
  pub string_object : Bytes → Object
  pub number_object : ℕ → Object
  pub true_object : Object
  pub encode_base64 : Bytes → Bytes
  pub decode_base64 : Bytes → Option Bytes

pub data Encoding : Type 0 where
  no_encoding gzip : Encoding

pub record Attachment : Type 0 where
  pub name : Bytes
  pub content_type : Option Bytes
  pub plain_length : ℕ
  pub encoded_length : ℕ
  pub encoding : Encoding
  pub revpos : ℕ
  pub blob_key : Bytes
  pub given_digest : Option Bytes
  pub inline_data : Option Bytes

-- `sizeof(CBLBlobKey)`
abbrev pub blob_key_length : ℕ
blob_key_length = 20

abbrev pub status_bad_encoding : ℕ
status_bad_encoding = 490

abbrev pub status_bad_attachment : ℕ
status_bad_attachment = 491

abbrev pub zeros : ℕ → Bytes
zeros zero = []
zeros (suc n) = 0 ∷ zeros n

unfoldable pub init_with_name : Bytes → Option Bytes → Attachment
init_with_name name content_type = record {
  name = name;
  content_type = content_type;
  plain_length = 0;
  encoded_length = 0;
  encoding = no_encoding;
  revpos = 0;
  blob_key = zeros blob_key_length;
  given_digest = none;
  inline_data = none;
}

abbrev pub is_encoded : Encoding → Bool
is_encoded no_encoding = false
is_encoded gzip = true

unfoldable pub possibly_encoded_length : Attachment → ℕ
possibly_encoded_length a = if is_encoded a.encoding then a.encoded_length else a.plain_length

unfoldable pub set_possibly_encoded_length : ℕ → Attachment → Attachment
set_possibly_encoded_length len a =
    if is_encoded a.encoding
    then record a { encoded_length = len }
    else record a { plain_length = len }

abbrev pub any_byte : Bytes → Bool
any_byte [] = false
any_byte (zero ∷ bytes) = any_byte bytes
any_byte (suc n ∷ bytes) = true

unfoldable pub has_blob_key : Attachment → Bool
has_blob_key a = any_byte a.blob_key

unfoldable pub set_blob_key : Bytes → Attachment → Attachment
set_blob_key key a = record a { blob_key = key; given_digest = none }

-- The test without that of a debugging build.
unfoldable pub is_valid : Attachment → Bool
is_valid a =
    if is_encoded a.encoding
    then not (a.encoded_length == 0 && ltb 0 a.plain_length)
    else not (ltb 0 a.encoded_length) && not (a.revpos == 0)

unfoldable pub encoding_name : Attachment → Option Bytes
encoding_name a = if is_encoded a.encoding then some (codes "gzip") else none

module _ (types : EntryTypes) where
  open types use {
    Object, string_of, unsigned_of, int_of, data_of, is_true_object, string_object, number_object,
    true_object, encode_base64, decode_base64,
  }

  abbrev pub Entry : Type 0
  Entry = List (Bytes × Object)

  unfoldable pub field_of : Bytes → Entry → Option Object
  field_of key [] = none
  field_of key ((k, v) ∷ rest) =
      let later = field_of key rest in if equal k key then some v else later

  unfoldable pub blob_key_to_digest : Bytes → Bytes
  blob_key_to_digest key = codes "sha1-" ++ encode_base64 key

  abbrev pub key_of_length : Option Bytes → Option Bytes
  key_of_length none = none
  key_of_length (some key) = if length key == blob_key_length then some key else none

  -- `digest:toBlobKey:`
  unfoldable pub digest_to_blob_key : Bytes → Option Bytes
  digest_to_blob_key digest =
      if equal (take 5 digest) (codes "sha1-")
      then key_of_length (decode_base64 (drop 5 digest))
      else none

  unfoldable pub digest : Attachment → Option Bytes
  unfolding has_blob_key
  digest a = elim a.given_digest [
    | some given ↦ some given
    | none ↦ if has_blob_key a then some (blob_key_to_digest a.blob_key) else none
  ]

  -- The attachment, or a status.
  pub data Read : Type 0 where
    read : Attachment → Read
    refused : ℕ → Read

  unfoldable pub unsigned_field : Bytes → Entry → ℕ
  unfolding field_of
  unsigned_field key entry = Option.get_or (Option.bind (field_of key entry) unsigned_of) 0

  unfoldable pub string_field : Bytes → Entry → Option Bytes
  unfolding field_of
  string_field key entry = Option.bind (field_of key entry) string_of

  unfoldable pub with_digest : Option Bytes → Attachment → Attachment
  unfolding digest_to_blob_key
  with_digest none a = a
  with_digest (some given) a = record a {
    given_digest = some given;
    blob_key = Option.get_or (digest_to_blob_key given) a.blob_key;
  }

  -- Up to the encoding
  unfoldable pub read_header : Bytes → Entry → Attachment
  unfolding unsigned_field string_field with_digest init_with_name
  read_header name entry =
      with_digest (string_field (codes "digest") entry)
        (record (init_with_name name (string_field (codes "content_type") entry)) {
          plain_length = unsigned_field (codes "length") entry;
          encoded_length = unsigned_field (codes "encoded_length") entry;
        })

  abbrev pub read_encoding : Option Bytes → Attachment → Read
  read_encoding none a = read a
  read_encoding (some encoding) a =
      if equal encoding (codes "gzip")
      then read (record a { encoding = gzip })
      else refused status_bad_encoding

  -- Inline data, as Base64 or as bytes
  abbrev pub decoded : Object → Option Bytes → Option Bytes
  decoded v (some text) = decode_base64 text
  decoded v none = data_of v

  unfoldable pub with_data : Option Bytes → Attachment → Read
  unfolding set_possibly_encoded_length
  with_data none a = refused status_bad_encoding
  with_data (some bytes) a =
      read (set_possibly_encoded_length (length bytes) (record a { inline_data = some bytes }))

  abbrev pub is_true_field : Option Object → Bool
  is_true_field none = false
  is_true_field (some v) = is_true_object v

  -- What says that the body is elsewhere
  unfoldable pub read_stub : Entry → Attachment → Read
  unfolding field_of
  read_stub entry a =
      if is_true_field (field_of (codes "stub") entry)
      then read a
      else if is_true_field (field_of (codes "follows") entry) && is_given a.given_digest
      then read a
      else refused status_bad_attachment

  unfoldable pub with_revpos : Entry → Attachment → Option ℤ → Read
  unfolding read_stub
  with_revpos entry a none = refused status_bad_attachment
  with_revpos entry a (some (negsuc n)) = refused status_bad_attachment
  with_revpos entry a (some (pos n)) = read_stub entry (record a { revpos = n })

  unfoldable pub read_revpos : Entry → Attachment → Option Object → Read
  unfolding read_stub with_revpos
  read_revpos entry a none = read_stub entry a
  read_revpos entry a (some v) = with_revpos entry a (int_of v)

  unfoldable pub read_body : Entry → Attachment → Option Object → Read
  unfolding field_of read_revpos with_data
  read_body entry a (some v) = with_data (decoded v (string_of v)) a
  read_body entry a none = read_revpos entry a (field_of (codes "revpos") entry)

  unfoldable pub after_encoding : Entry → Read → Read
  unfolding field_of read_body
  after_encoding entry (refused status) = refused status
  after_encoding entry (read a) = read_body entry a (field_of (codes "data") entry)

  -- `initWithName:info:status:`
  unfoldable pub init_with_info : Bytes → Entry → Read
  unfolding read_header after_encoding string_field
  init_with_info name entry =
      after_encoding entry
        (read_encoding (string_field (codes "encoding") entry) (read_header name entry))

  -- An entry that is left out for nil
  abbrev pub optional_entry : Bytes → Option Object → Entry
  optional_entry key none = []
  optional_entry key (some v) = (key, v) ∷ []

  abbrev pub nonzero : ℕ → Option ℕ
  nonzero zero = none
  nonzero (suc n) = some (suc n)

  unfoldable pub as_stub_dictionary : Attachment → Entry
  unfolding encoding_name blob_key_to_digest
  as_stub_dictionary a =
      (codes "stub", true_object)
      ∷ (codes "digest", string_object (blob_key_to_digest a.blob_key))
      ∷ (codes "revpos", number_object a.revpos)
      ∷ (codes "length", number_object a.plain_length)
      ∷ (optional_entry (codes "content_type") (Option.map string_object a.content_type)
          ++ (optional_entry (codes "encoding") (Option.map string_object (encoding_name a))
              ++ optional_entry (codes "encoded_length")
                  (Option.map number_object (nonzero a.encoded_length))))
