-- ===== src/Query/SameRow.antt =====
-- Source/API/CBLQueryRow.m: rows that `compareForArrayDiff:` takes for the same.
use couchbase_lite_ios.Base.{◌≡◌, refl, true, none, some}
use couchbase_lite_ios.Base.Bytes.{Bytes, codes, equal}
use couchbase_lite_ios.Query.Row.{
  RowTypes, unparsed, QueryRow, same_raw, same_revision, is_non_magic_value, is_value_equal,
  is_equal_row, items_equal, compare_for_array_diff,
}

abbrev pub byte_json : RowTypes
byte_json = record {
  Json = Bytes;
  parse = λ json. some json;
  same_json = equal;
  as_array = λ v. none;
  text = λ v. some v;
  entry = λ key v. none;
}

-- A row that a map function emitted for the document "doc" at sequence 1.
abbrev pub emitted_row : Bytes → QueryRow byte_json
emitted_row key = record {
  raw_key = some (unparsed key);
  raw_value = none;
  sequence = 1;
  source_doc_id = some (codes "doc");
  document_revision = none;
  database = some 1;
  load = none;
}

-- `compareForArrayDiff:` can call rows equal that `isEqual:` tells apart: two rows that one document emitted.
pub not-compare_for_array_diff-is_equal : ¬ (
    (types : RowTypes) (r s : QueryRow types)
    → compare_for_array_diff types r s ≡ items_equal
    → is_equal_row types r s ≡ true)
unfolding compare_for_array_diff is_equal_row is_value_equal same_raw same_revision
    is_non_magic_value equal
not-compare_for_array_diff-is_equal always =
    cc (always byte_json (emitted_row (codes "1")) (emitted_row (codes "2")) refl)
