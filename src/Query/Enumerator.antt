-- ===== src/Query/Enumerator.antt =====
-- Source/API/CBLQuery.h: the public methods of an enumerator, and Source/API/CBLQueryEnumerator.m as their
-- implementation, for an enumerator that has its rows in an array. The sorting is done by the system.
use couchbase_lite_ios.Base.{
  ℕ, ◌-◌, min, Bool, ◌||◌, Option, List, [], ltb, leb, if◌then◌else◌, length, get_elem?, take, drop,
}
use couchbase_lite_ios.Query.Row.{RowTypes, QueryRow, QueryEnumerator, count, stale, next_row}

-- `stale` takes the last sequence of the database; `none` of a row is nil, or an index out of range.
pub record QueryEnumeratorClass (Enumerator EnumeratedRow : Type 0) : Type 0 where
  pub count : Enumerator → ℕ
  pub sequence_number : Enumerator → ℕ
  pub stale : ℕ → Enumerator → Bool
  pub next_object : Enumerator → Option EnumeratedRow × Enumerator
  pub next_row : Enumerator → Option EnumeratedRow × Enumerator
  pub row_at_index : ℕ → Enumerator → Option EnumeratedRow

module _ (types : RowTypes) where
  unfoldable pub query_enumerator : QueryEnumeratorClass (QueryEnumerator types) (QueryRow types)
  query_enumerator = record {
    count = count types;
    sequence_number = λ e. e.sequence_number;
    stale = stale types;
    next_object = next_row types;
    next_row = next_row types;
    row_at_index = λ index e. get_elem? e.rows index;
  }

  -- `sortUsingDescriptors:skip:limit:`
  unfoldable pub sort_using_descriptors :
      (List (QueryRow types) → List (QueryRow types))
      → ℕ
      → ℕ
      → QueryEnumerator types
      → QueryEnumerator types
  sort_using_descriptors sorted skip limit e =
      let rows = sorted e.rows in
      let n = length rows in
      record e {
        rows =
            if leb n skip
            then []
            else if ltb 0 skip || ltb limit n
            then take (min limit (n - skip)) (drop skip rows)
            else rows;
      }
