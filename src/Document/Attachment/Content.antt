-- ===== src/Document/Attachment/Content.antt =====
-- Source/CBL_Attachment.h and CBL_Attachment.m: the content of an attachment, and the methods of the class as a
-- record. The store of blobs, CBLGZip, streams and files are parameters.
use couchbase_lite_ios.Base.{ℕ, Bool, ◌&&◌, Option, none, some, if◌then◌else◌, length}
use couchbase_lite_ios.Base.Bytes.{Bytes}
use couchbase_lite_ios.Document.Attachment.{
  EntryTypes, Attachment, init_with_name, is_encoded, possibly_encoded_length,
  set_possibly_encoded_length, has_blob_key, set_blob_key, is_valid, encoding_name, Entry,
  digest_to_blob_key, digest, Read, init_with_info, as_stub_dictionary,
}
use mathlib.Core.Option

-- The store of blobs of a database, the decompression of data, and the streams and files of the system.
pub record Blobs : Type 1 where
  pub Stream : Type 0
  pub has_blob : Bytes → Bool
  pub blob_for_key : Bytes → Option Bytes
  pub blob_path : Bytes → Option Bytes
  pub blob_stream : Bytes → Option (Stream × ℕ)
  pub decompress : Bytes → Option Bytes
  pub stream_of : Bytes → Stream
  pub file_exists : Bytes → Bool

module _ (blobs : Blobs) where
  open blobs use {
    Stream, has_blob, blob_for_key, blob_path, blob_stream, decompress, stream_of, file_exists,
  }

  unfoldable pub has_content : Attachment → Bool
  has_content a = has_blob a.blob_key

  unfoldable pub encoded_content : Attachment → Option Bytes
  encoded_content a = elim a.inline_data [
    | some bytes ↦ some bytes
    | none ↦ blob_for_key a.blob_key
  ]

  unfoldable pub content : Attachment → Option Bytes
  unfolding encoded_content
  content a =
      if is_encoded a.encoding
      then Option.bind (encoded_content a) decompress
      else encoded_content a

  unfoldable pub get_content_stream : Bool → Attachment → Option (Stream × ℕ)
  unfolding content
  get_content_stream want_decoded a =
      if want_decoded && is_encoded a.encoding
      then Option.map (λ bytes. (stream_of bytes, length bytes)) (content a)
      else blob_stream a.blob_key

  -- The path of the URL
  unfoldable pub content_url : Attachment → Option Bytes
  content_url a = elim (blob_path a.blob_key) [
    | none ↦ none
    | some path ↦ if file_exists path then some path else none
  ]

-- The methods of the header.
pub record AttachmentClass (types : EntryTypes) (blobs : Blobs) (A : Type 0) : Type 0 where
  pub digest_to_blob_key : Bytes → Option Bytes
  pub init_with_name : Bytes → Option Bytes → A
  pub init_with_info : Bytes → Entry types → Read types
  pub name : A → Bytes
  pub content_type : A → Option Bytes
  pub blob_key : A → Bytes
  pub set_blob_key : Bytes → A → A
  pub digest : A → Option Bytes
  pub encoding_name : A → Option Bytes
  pub has_content : A → Bool
  pub encoded_content : A → Option Bytes
  pub content : A → Option Bytes
  pub content_url : A → Option Bytes
  pub has_blob_key : A → Bool
  pub is_valid : A → Bool
  pub as_stub_dictionary : A → Entry types
  pub possibly_encoded_length : A → ℕ
  pub set_possibly_encoded_length : ℕ → A → A
  pub get_content_stream : Bool → A → Option (blobs.Stream × ℕ)

unfoldable pub attachment_class :
    (types : EntryTypes) (blobs : Blobs) → AttachmentClass types blobs Attachment
attachment_class types blobs = record {
  digest_to_blob_key = digest_to_blob_key types;
  init_with_name = init_with_name;
  init_with_info = init_with_info types;
  name = λ a. a.name;
  content_type = λ a. a.content_type;
  blob_key = λ a. a.blob_key;
  set_blob_key = set_blob_key;
  digest = digest types;
  encoding_name = encoding_name;
  has_content = has_content blobs;
  encoded_content = encoded_content blobs;
  content = content blobs;
  content_url = content_url blobs;
  has_blob_key = has_blob_key;
  is_valid = is_valid;
  as_stub_dictionary = as_stub_dictionary types;
  possibly_encoded_length = possibly_encoded_length;
  set_possibly_encoded_length = set_possibly_encoded_length;
  get_content_stream = get_content_stream blobs;
}
