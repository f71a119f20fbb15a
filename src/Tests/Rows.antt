-- ===== src/Tests/Rows.antt =====
-- Source/API/CBLQueryRow.m and CBLQueryEnumerator.m at concrete inputs.
use couchbase_lite_ios.Base.{◌≡◌, refl, true, false, none, some, [], ◌∷◌}
use couchbase_lite_ios.Base.Bytes.{codes, equal}
use mathlib.Core.Option
use couchbase_lite_ios.Query.Row.{
  row_key, row_value, document_id, key_at_index, count, stale, next_row, QueryEnumerator,
}
use couchbase_lite_ios.Query.SameRow.{byte_json, emitted_row}

abbrev one_row : QueryEnumerator byte_json
one_row = record {
  rows = emitted_row (codes "1") ∷ [];
  next_row_index = 0;
  sequence_number = 1;
  view = some (2, 1);
}

row_run :
    (key_at_index byte_json (emitted_row (codes "1")) 0 ≡ some (codes "1"))
    × (key_at_index byte_json (emitted_row (codes "1")) 1 ≡ none)
    × (document_id byte_json (emitted_row (codes "1")) ≡ some (codes "doc"))
    × (count byte_json one_row ≡ 1)
    × (stale byte_json 2 one_row ≡ false)
    × (stale byte_json 3 one_row ≡ true)
    × ((next_row byte_json one_row).0 ≡ some (emitted_row (codes "1")))
    × ((next_row byte_json (next_row byte_json one_row).1).0 ≡ none)
unfolding key_at_index row_key document_id row_value count stale next_row equal Option.bind
row_run = (refl, refl, refl, refl, refl, refl, refl, refl)
