-- ===== src/Document/Attachment/Stub.antt =====
-- Source/CBL_Attachment.m: a stub is read back as the attachment that it was made of.
use couchbase_lite_ios.Base.{
  ℕ, zero, suc, ◌<◌, ◌^◌, ◌≡◌, refl, ap, ◌∙◌, true, false, Option, none, some, ◌++◌, length,
}
use couchbase_lite_ios.Base.Int.{pos}
use couchbase_lite_ios.Base.Bytes.{Bytes, codes, equal, equal_refl}
use couchbase_lite_ios.Document.Attachment.{
  EntryTypes, Attachment, Encoding, no_encoding, gzip, encoding_name, Entry, field_of,
  blob_key_to_digest, digest_to_blob_key, read, string_field, unsigned_field, read_header,
  init_with_name, read_encoding, read_stub, read_body, init_with_info, optional_entry, nonzero,
  as_stub_dictionary, with_digest, with_revpos, read_revpos, after_encoding,
}
use mathlib.Core.Option

module _ (types : EntryTypes) where
  open types use {
    Object, string_of, unsigned_of, int_of, is_true_object, string_object, number_object,
    true_object, encode_base64, decode_base64,
  }

  -- The casts read what the program writes, and Base64 is read back.
  pub record ReadsBack : Type 0 where
    pub strings : (s : Bytes) → string_of (string_object s) ≡ some s
    pub unsigneds : (n : ℕ) → n < 2 ^ 64 → unsigned_of (number_object n) ≡ some n
    pub ints : (n : ℕ) → n < 2 ^ 31 → int_of (number_object n) ≡ some (pos n)
    pub truth : is_true_object true_object ≡ true
    pub base64 : (bytes : Bytes) → decode_base64 (encode_base64 bytes) ≡ some bytes

  -- The numbers of the attachment are machine integers, and its key has the length of a SHA-1 digest.
  pub record IsSized (a : Attachment) : Type 0 where
    pub plain_lt : a.plain_length < 2 ^ 64
    pub encoded_lt : a.encoded_length < 2 ^ 64
    pub revpos_lt : a.revpos < 2 ^ 31
    pub key_length : length a.blob_key ≡ 20

  skip :
      (key k : Bytes) (o : Option Object) (rest : Entry types)
      → equal k key ≡ false
      → field_of types key (optional_entry types k o ++ rest) ≡ field_of types key rest
  unfolding field_of
  skip key k none rest h = refl
  skip key k (some v) rest h = rw h refl

  hit :
      (key : Bytes) (o : Option Object) (rest : Entry types)
      → field_of types key rest ≡ none
      → field_of types key (optional_entry types key o ++ rest) ≡ o
  unfolding field_of
  hit key none rest h = h
  hit key (some v) rest h = rw (equal_refl key) refl

  skip_last :
      (key k : Bytes) (o : Option Object)
      → equal k key ≡ false
      → field_of types key (optional_entry types k o) ≡ none
  unfolding field_of
  skip_last key k none h = refl
  skip_last key k (some v) h = rw h refl

  hit_last : (key : Bytes) (o : Option Object) → field_of types key (optional_entry types key o) ≡ o
  unfolding field_of
  hit_last key none = refl
  hit_last key (some v) = rw (equal_refl key) refl

  -- The fields of a stub that may be left out.
  record HasFields (a : Attachment) : Type 0 where
    content_type :
        field_of types (codes "content_type") (as_stub_dictionary types a)
        ≡ Option.map string_object a.content_type
    encoding :
        field_of types (codes "encoding") (as_stub_dictionary types a)
        ≡ Option.map string_object (encoding_name a)
    encoded_length :
        field_of types (codes "encoded_length") (as_stub_dictionary types a)
        ≡ Option.map number_object (nonzero types a.encoded_length)
    no_data : field_of types (codes "data") (as_stub_dictionary types a) ≡ none

  abbrev content_key : Bytes
  content_key = codes "content_type"

  abbrev encoding_key : Bytes
  encoding_key = codes "encoding"

  abbrev length_key : Bytes
  length_key = codes "encoded_length"

  -- The end of a stub
  abbrev options : Option Object → Option Object → Option Object → Entry types
  options c e l =
      optional_entry types content_key c
      ++ (optional_entry types encoding_key e ++ optional_entry types length_key l)

  options-content_type : (c e l : Option Object) → field_of types content_key (options c e l) ≡ c
  unfolding equal
  options-content_type c e l =
      hit content_key c (optional_entry types encoding_key e ++ optional_entry types length_key l) (
        skip content_key encoding_key e (optional_entry types length_key l) refl
        ∙ skip_last content_key length_key l refl)

  options-encoding : (c e l : Option Object) → field_of types encoding_key (options c e l) ≡ e
  unfolding equal
  options-encoding c e l =
      skip encoding_key content_key c
        (optional_entry types encoding_key e ++ optional_entry types length_key l) refl
      ∙ hit encoding_key e (optional_entry types length_key l)
          (skip_last encoding_key length_key l refl)

  options-other :
      (key : Bytes) (c e l : Option Object)
      → equal content_key key ≡ false
      → equal encoding_key key ≡ false
      → field_of types key (options c e l) ≡ field_of types key (optional_entry types length_key l)
  options-other key c e l h k =
      skip key content_key c
        (optional_entry types encoding_key e ++ optional_entry types length_key l) h
      ∙ skip key encoding_key e (optional_entry types length_key l) k

  as_stub_dictionary-HasFields : (a : Attachment) → HasFields a
  unfolding as_stub_dictionary field_of equal
  as_stub_dictionary-HasFields a =
      let c = Option.map string_object a.content_type in
      let e = Option.map string_object (encoding_name a) in
      let l = Option.map number_object (nonzero types a.encoded_length) in
      record {
        content_type = options-content_type c e l;
        encoding = options-encoding c e l;
        encoded_length = options-other length_key c e l refl refl ∙ hit_last length_key l;
        no_data =
            options-other (codes "data") c e l refl refl
            ∙ skip_last (codes "data") length_key l refl;
      }

  -- A string or a number that was put into a stub is read from it.
  string-back :
      ReadsBack → (o : Option Bytes) → Option.bind (Option.map string_object o) string_of ≡ o
  unfolding Option.bind
  string-back reads none = refl
  string-back reads (some s) = reads.strings s

  unsigned-back :
      ReadsBack
      → (n : ℕ) → n < 2 ^ 64
      → Option.get_or (Option.bind (Option.map number_object (nonzero types n)) unsigned_of) 0 ≡ n
  unfolding Option.bind
  unsigned-back reads zero h = refl
  unsigned-back reads (suc n) h = rw (reads.unsigneds (suc n) h) refl

  digest_to_blob_key-blob_key_to_digest :
      ReadsBack
      → (key : Bytes) → length key ≡ 20
      → digest_to_blob_key types (blob_key_to_digest types key) ≡ some key
  unfolding digest_to_blob_key blob_key_to_digest equal
  digest_to_blob_key-blob_key_to_digest reads key h = rw (reads.base64 key, h) refl

  -- The fields that the initializer reads
  record HasValues (a : Attachment) : Type 0 where
    content_type :
        string_field types (codes "content_type") (as_stub_dictionary types a) ≡ a.content_type
    encoding : string_field types (codes "encoding") (as_stub_dictionary types a) ≡ encoding_name a
    digest :
        string_field types (codes "digest") (as_stub_dictionary types a)
        ≡ some (blob_key_to_digest types a.blob_key)
    plain : unsigned_field types (codes "length") (as_stub_dictionary types a) ≡ a.plain_length
    encoded :
        unsigned_field types (codes "encoded_length") (as_stub_dictionary types a)
        ≡ a.encoded_length

  as_stub_dictionary-HasValues : ReadsBack → (a : Attachment) → IsSized a → HasValues a
  unfolding string_field unsigned_field as_stub_dictionary field_of equal Option.bind
  as_stub_dictionary-HasValues reads a w =
      let f = as_stub_dictionary-HasFields a in
      record {
        content_type =
            ap (λ o. Option.bind o string_of) f.content_type ∙ string-back reads a.content_type;
        encoding =
            ap (λ o. Option.bind o string_of) f.encoding ∙ string-back reads (encoding_name a);
        digest = reads.strings (blob_key_to_digest types a.blob_key);
        plain = ap (λ o. Option.get_or o 0) (reads.unsigneds a.plain_length w.plain_lt);
        encoded =
            ap (λ o. Option.get_or (Option.bind o unsigned_of) 0) f.encoded_length
            ∙ unsigned-back reads a.encoded_length w.encoded_lt;
      }

  -- What is read of an attachment, but for its encoding and the number of its revision.
  abbrev header_of : Bytes → Attachment → Attachment
  header_of name a = record a {
    name = name;
    encoding = no_encoding;
    revpos = 0;
    given_digest = some (blob_key_to_digest types a.blob_key);
    inline_data = none;
  }

  read_header-header_of :
      ReadsBack
      → (name : Bytes) (a : Attachment) → IsSized a
      → read_header types name (as_stub_dictionary types a) ≡ header_of name a
  unfolding read_header with_digest init_with_name
  read_header-header_of reads name a w =
      let v = as_stub_dictionary-HasValues reads a w in
      rw
        (
          v.digest,
          v.content_type,
          v.plain,
          v.encoded,
          digest_to_blob_key-blob_key_to_digest reads a.blob_key w.key_length,
        )
        refl

  read_encoding-encoding_name :
      (a b : Attachment)
      → read_encoding types (encoding_name a) (record b { encoding = no_encoding })
        ≡ read (record b { encoding = a.encoding })
  unfolding encoding_name equal
  read_encoding-encoding_name a b = by_encoding a.encoding
    where
      by_encoding :
          (e : Encoding)
          → read_encoding types
              (encoding_name (record a { encoding = e }))
              (record b { encoding = no_encoding })
            ≡ read (record b { encoding = e })
      by_encoding no_encoding = refl
      by_encoding gzip = refl

  read_body-stub :
      ReadsBack
      → (a b : Attachment) → IsSized a
      → after_encoding types (as_stub_dictionary types a) (read b)
        ≡ read (record b { revpos = a.revpos })
  unfolding after_encoding read_body read_revpos with_revpos read_stub as_stub_dictionary field_of
      equal
  read_body-stub reads a b w =
      rw ((as_stub_dictionary-HasFields a).no_data, reads.ints a.revpos w.revpos_lt, reads.truth)
        refl

  -- The attachment that is read from the stub of an attachment has its content type, length, encoded length,
  -- encoding, revpos and blob key; it has the name that is given, the digest of the key as text, and no inline
  -- data, also when the first one had some; given that the numbers of the attachment fit into their types,
  -- that its key has 20 bytes, and that the program reads back the objects that it writes.
  pub init_with_info-as_stub_dictionary :
      ReadsBack
      → (name : Bytes) (a : Attachment) → IsSized a
      → init_with_info types name (as_stub_dictionary types a)
        ≡ read (record a {
          name = name;
          given_digest = some (blob_key_to_digest types a.blob_key);
          inline_data = none;
        })
  unfolding init_with_info
  init_with_info-as_stub_dictionary reads name a w =
      rw ((as_stub_dictionary-HasValues reads a w).encoding, read_header-header_of reads name a w)
        (ap (after_encoding types (as_stub_dictionary types a))
            (read_encoding-encoding_name a (header_of name a))
          ∙ read_body-stub reads a (record (header_of name a) { encoding = a.encoding }) w)
