-- ===== src/Query/Copies.antt =====
-- Source/API/CBLQuery.m: a live query made of a query.
use couchbase_lite_ios.Base.{ℕ, ◌≡◌, refl, ap, inl, inr, Bool-cases, true, false, none, some}
use couchbase_lite_ios.Query.{
  QueryTypes, CblQuery, QueryOptions, filter_of, init_with_query, init_with_view, query_options,
}

module _ (types : QueryTypes) where
  -- The parameters of a query that a copy does not get.
  abbrev pub with_lost : CblQuery types → QueryOptions types
  with_lost q = record (query_options types q) {
    full_text_snippets = false;
    full_text_ranking = true;
    filter = filter_of types none q.post_filter;
  }

  -- The options of a copy are those of the query itself but for the snippets and the ranking of a
  -- full-text query, which have their default values again, and for the filter, which is that of a
  -- query without a filter block.
  pub query_options-init_with_query :
      (q : CblQuery types) → query_options types (init_with_query types q) ≡ with_lost q
  unfolding query_options init_with_query init_with_view
  query_options-init_with_query q = elim (Bool-cases q.is_geo_query) [
    | inl geo ↦ rw geo refl
    | inr plain ↦ rw plain refl
  ]

-- Numbers for all that a query does not look into.
abbrev pub numbers : QueryTypes
numbers = record {
  Key = ℕ;
  Filter = ℕ;
  Predicate = ℕ;
  SortDescriptor = ℕ;
  View = ℕ;
  Rect = ℕ;
  reduces = λ view. false;
  evaluate = λ predicate. predicate;
  zero_rect = 0;
}

-- It is not so that, for all queries, a copy has the options of its query.
not-init_with_query-same : ¬ (
    (types : QueryTypes) (q : CblQuery types)
    → query_options types (init_with_query types q) ≡ query_options types q)
unfolding query_options init_with_query init_with_view
not-init_with_query-same same =
    let filtered = record (init_with_view numbers none) { filter_block = some 1 } in
    let e = ap (λ (o : QueryOptions numbers). o.filter) (same numbers filtered) in cc
