-- ===== src/Tests/Queries.antt =====
-- Source/API/CBLQuery.m: the options of a query.
use couchbase_lite_ios.Base.{◌≡◌, refl, true, false, some}
use couchbase_lite_ios.Query.{
  CblQuery, init_with_view, query_options, is_empty, min_key, is_aggregate,
}
use couchbase_lite_ios.Query.Copies.{numbers}

abbrev newest : CblQuery numbers
newest = record (init_with_view numbers (some 4)) {
  descending = true;
  start_key = some 9;
  end_key = some 1;
  limit = 0;
  filter_block = some 7;
}

newest_run :
    (is_empty numbers (query_options numbers newest) ≡ true)
    × (min_key numbers (query_options numbers newest) ≡ some 1)
    × (is_aggregate numbers newest ≡ false)
unfolding is_empty min_key query_options init_with_view is_aggregate
newest_run = (refl, refl, refl)
