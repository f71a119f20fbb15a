-- ===== src/Query.antt =====
-- Source/API/CBLQuery.h and CBLQuery.m, the parameters of a query and how they are copied, and
-- Source/CBL_StorageTypes.h, the options that the storage gets, with `CBLQueryOptions` of
-- Source/API/CBLView.m. A `nil` is `none`. Keys, blocks, predicates, sort descriptors, views and
-- rectangles are of types that only Foundation or the application looks into. The instance variables
-- for full-text and geo queries (Source/CBLInternal.h) and the filter block (Source/API/CouchbaseLitePrivate.h)
-- are fields of a query too; its database, which is only passed on, is left out.
pub mod Copies
pub mod Row
pub mod SameRow
pub mod Enumerator
use couchbase_lite_ios.Base.{
  ℕ, zero, suc, ◌%◌, ◌^◌, ◌-◌, ◌≡◌, Bool, true, false, not, ◌&&◌, ◌||◌, Option, none, some, List,
  [], ◌∷◌, ltb, ◌==◌, if◌then◌else◌,
}
use couchbase_lite_ios.Base.Bytes.{Bytes}

pub record QueryTypes : Type 1 where
  pub Key : Type 0
  pub Filter : Type 0
  pub Predicate : Type 0
  pub SortDescriptor : Type 0
  pub View : Type 0
  pub Rect : Type 0
  pub reduces : View → Bool
  pub evaluate : Predicate → Filter
  pub zero_rect : Rect

pub data AllDocsMode : Type 0 where
  all_docs include_deleted show_conflicts only_conflicts by_sequence : AllDocsMode

pub data IndexUpdateMode : Type 0 where
  update_index_before update_index_never update_index_after : IndexUpdateMode

-- A cast to `unsigned`.
abbrev pub to_unsigned : ℕ → ℕ
to_unsigned n = n % 2 ^ 32

abbrev pub default_limit : ℕ
default_limit = 2 ^ 32 - 1

-- `count == 0`, also of nil.
abbrev pub is_empty_list : {A : Type 0} → Option (List A) → Bool
is_empty_list none = true
is_empty_list (some []) = true
is_empty_list (some (x ∷ xs)) = false

module _ (types : QueryTypes) where
  open types use {Key, Filter, Predicate, SortDescriptor, View, Rect, reduces, evaluate, zero_rect}

  pub record CblQuery : Type 0 where
    pub view : Option View
    pub limit : ℕ
    pub skip : ℕ
    pub descending : Bool
    pub start_key : Option Key
    pub end_key : Option Key
    pub start_key_doc_id : Option Bytes
    pub end_key_doc_id : Option Bytes
    pub inclusive_start : Bool
    pub inclusive_end : Bool
    pub prefix_match_level : ℕ
    pub sort_descriptors : Option (List SortDescriptor)
    pub post_filter : Option Predicate
    pub filter_block : Option Filter
    pub index_update_mode : IndexUpdateMode
    pub keys : Option (List Key)
    pub map_only : Bool
    pub group_level : ℕ
    pub prefetch : Bool
    pub all_docs_mode : AllDocsMode
    pub full_text_query : Option Bytes
    pub full_text_snippets : Bool
    pub full_text_ranking : Bool
    pub is_geo_query : Bool
    pub bounding_box : Rect

  pub record QueryOptions : Type 0 where
    pub bbox : Option Rect
    pub prefix_match_level : ℕ
    pub skip : ℕ
    pub limit : ℕ
    pub group_level : ℕ
    pub descending : Bool
    pub include_docs : Bool
    pub update_seq : Bool
    pub local_seq : Bool
    pub inclusive_start : Bool
    pub inclusive_end : Bool
    pub reduce_specified : Bool
    pub reduce : Bool
    pub group : Bool
    pub full_text_snippets : Bool
    pub full_text_ranking : Bool
    pub index_update_mode : IndexUpdateMode
    pub all_docs_mode : AllDocsMode
    pub start_key : Option Key
    pub end_key : Option Key
    pub start_key_doc_id : Option Bytes
    pub end_key_doc_id : Option Bytes
    pub keys : Option (List Key)
    pub filter : Option Filter
    pub full_text_query : Option Bytes

  -- `[CBLQueryOptions new]`
  abbrev pub new_options : QueryOptions
  new_options = record {
    bbox = none;
    prefix_match_level = 0;
    skip = 0;
    limit = default_limit;
    group_level = 0;
    descending = false;
    include_docs = false;
    update_seq = false;
    local_seq = false;
    inclusive_start = true;
    inclusive_end = true;
    reduce_specified = false;
    reduce = false;
    group = false;
    full_text_snippets = false;
    full_text_ranking = true;
    index_update_mode = update_index_before;
    all_docs_mode = all_docs;
    start_key = none;
    end_key = none;
    start_key_doc_id = none;
    end_key_doc_id = none;
    keys = none;
    filter = none;
    full_text_query = none;
  }

  -- `isEmpty` and `minKey` of the options.
  unfoldable pub is_empty : QueryOptions → Bool
  is_empty o = (o.limit == 0) || elim o.keys [ none ↦ false | some ks ↦ is_empty_list (some ks) ]

  unfoldable pub min_key : QueryOptions → Option Key
  min_key o = if o.descending then o.end_key else o.start_key

  -- `view.reduceBlock != nil`
  abbrev pub has_reduce : Option View → Bool
  has_reduce none = false
  has_reduce (some view) = reduces view

  -- `initWithDatabase:view:`
  unfoldable pub init_with_view : Option View → CblQuery
  init_with_view view = record {
    view = view;
    limit = default_limit;
    skip = 0;
    descending = false;
    start_key = none;
    end_key = none;
    start_key_doc_id = none;
    end_key_doc_id = none;
    inclusive_start = true;
    inclusive_end = true;
    prefix_match_level = 0;
    sort_descriptors = none;
    post_filter = none;
    filter_block = none;
    index_update_mode = update_index_before;
    keys = none;
    map_only = not (has_reduce view);
    group_level = 0;
    prefetch = false;
    all_docs_mode = all_docs;
    full_text_query = none;
    full_text_snippets = false;
    full_text_ranking = true;
    is_geo_query = false;
    bounding_box = zero_rect;
  }

  -- `initWithQuery:`, as `asLiveQuery` calls it.
  unfoldable pub init_with_query : CblQuery → CblQuery
  unfolding init_with_view
  init_with_query query =
      let self = init_with_view query.view in
      let copied = record self {
        limit = query.limit;
        skip = query.skip;
        start_key = query.start_key;
        end_key = query.end_key;
        inclusive_start = query.inclusive_start;
        inclusive_end = query.inclusive_end;
        prefix_match_level = query.prefix_match_level;
        descending = query.descending;
        prefetch = query.prefetch;
        keys = query.keys;
        sort_descriptors = query.sort_descriptors;
        post_filter = query.post_filter;
        group_level = query.group_level;
        map_only = query.map_only;
        start_key_doc_id = query.start_key_doc_id;
        end_key_doc_id = query.end_key_doc_id;
        index_update_mode = query.index_update_mode;
        full_text_query = query.full_text_query;
        all_docs_mode = query.all_docs_mode;
      } in
      if query.is_geo_query
      then record copied { is_geo_query = true; bounding_box = query.bounding_box }
      else copied

  unfoldable pub is_aggregate : CblQuery → Bool
  is_aggregate q = elim q.full_text_query [
    | some text ↦ false
    | none ↦ ltb 0 q.group_level || (not q.map_only && has_reduce q.view)
  ]

  -- The filter of the options: a block, or else a predicate.
  abbrev pub filter_of : Option Filter → Option Predicate → Option Filter
  filter_of (some block) predicate = some block
  filter_of none (some predicate) = some (evaluate predicate)
  filter_of none none = none

  unfoldable pub query_options : CblQuery → QueryOptions
  query_options q = record new_options {
    start_key = q.start_key;
    end_key = q.end_key;
    start_key_doc_id = q.start_key_doc_id;
    end_key_doc_id = q.end_key_doc_id;
    inclusive_start = q.inclusive_start;
    inclusive_end = q.inclusive_end;
    prefix_match_level = to_unsigned q.prefix_match_level;
    keys = q.keys;
    full_text_query = q.full_text_query;
    full_text_snippets = q.full_text_snippets;
    full_text_ranking = q.full_text_ranking;
    bbox = if q.is_geo_query then some q.bounding_box else none;
    reduce = not q.map_only;
    reduce_specified = true;
    group_level = to_unsigned q.group_level;
    descending = q.descending;
    include_docs = q.prefetch;
    update_seq = true;
    all_docs_mode = q.all_docs_mode;
    index_update_mode = q.index_update_mode;
    skip = if is_empty_list q.sort_descriptors then to_unsigned q.skip else 0;
    limit = if is_empty_list q.sort_descriptors then to_unsigned q.limit else default_limit;
    filter = filter_of q.filter_block q.post_filter;
  }
