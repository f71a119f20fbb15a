-- ===== src/Tests/Attachments.antt =====
-- Source/CBL_Attachment.m at concrete inputs.
use couchbase_lite_ios.Base.{ℕ, ◌≡◌, refl, Bool, true, false, Option, none, some, [], ◌∷◌, arith}
use couchbase_lite_ios.Base.Int.{pos}
use couchbase_lite_ios.Base.Bytes.{Bytes, codes}
use couchbase_lite_ios.Document.Attachment.{
  EntryTypes, Attachment, gzip, read, refused, blob_key_to_digest, init_with_info,
  as_stub_dictionary, field_of, read_header, after_encoding, string_field, unsigned_field,
  with_digest, init_with_name, read_body, read_revpos, read_stub, status_bad_attachment, zeros,
}
use couchbase_lite_ios.Document.Attachment.Stub.{
  ReadsBack, IsSized, init_with_info-as_stub_dictionary,
}
use mathlib.Core.Option

pub data JsonValue : Type 0 where
  text : Bytes → JsonValue
  number : ℕ → JsonValue
  yes : JsonValue

abbrev text_of : JsonValue → Option Bytes
text_of (text s) = some s
text_of _ = none

abbrev number_of : JsonValue → Option ℕ
number_of (number n) = some n
number_of _ = none

abbrev is_yes : JsonValue → Bool
is_yes yes = true
is_yes _ = false

-- JSON, with keys that stand for themselves in place of Base64.
abbrev json_entries : EntryTypes
json_entries = record {
  Object = JsonValue;
  string_of = text_of;
  unsigned_of = number_of;
  int_of = λ v. Option.map pos (number_of v);
  data_of = λ v. none;
  is_true_object = is_yes;
  string_object = text;
  number_object = number;
  true_object = yes;
  encode_base64 = λ bytes. bytes;
  decode_base64 = λ bytes. some bytes;
}

abbrev zipped : Attachment
zipped = record {
  name = codes "photo";
  content_type = some (codes "image/png");
  plain_length = 900;
  encoded_length = 700;
  encoding = gzip;
  revpos = 3;
  blob_key = 7 ∷ zeros 19;
  given_digest = none;
  inline_data = none;
}

json_entries-ReadsBack : ReadsBack json_entries
json_entries-ReadsBack = record {
  strings = λ s. refl;
  unsigneds = λ n h. refl;
  ints = λ n h. refl;
  truth = refl;
  base64 = λ bytes. refl;
}

zipped-IsSized : IsSized json_entries zipped
zipped-IsSized = record {
  plain_lt = omega arith;
  encoded_lt = omega arith;
  revpos_lt = omega arith;
  key_length = refl;
}

-- An entry that is no stub and has no data
no_stub_run : init_with_info json_entries (codes "a") [] ≡ refused status_bad_attachment
unfolding init_with_info read_header after_encoding string_field unsigned_field with_digest
    init_with_name read_body read_revpos read_stub field_of Option.bind
no_stub_run = refl

init_with_info-as_stub_dictionary_example :
    init_with_info json_entries (codes "copy") (as_stub_dictionary json_entries zipped)
    ≡ read (record zipped {
      name = codes "copy";
      given_digest = some (blob_key_to_digest json_entries zipped.blob_key);
      inline_data = none;
    })
init_with_info-as_stub_dictionary_example =
    init_with_info-as_stub_dictionary json_entries json_entries-ReadsBack (codes "copy") zipped
      zipped-IsSized
