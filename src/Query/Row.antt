-- ===== src/Query/Row.antt =====
-- Source/API/CBLQuery.h, CBLQueryRow.m and CBLQueryEnumerator.m: a row of a query's result, its public
-- properties, when two rows are the same, and the enumerator. A `nil` is `none`; JSON values are of a type
-- that only the JSON classes look into. The caches of parsed values are left out.
use couchbase_lite_ios.Base.{
  ℕ, ◌+◌, Bool, true, false, not, ◌&&◌, ◌||◌, Option, none, some, List, ltb, ◌==◌, if◌then◌else◌,
  length, get_elem?,
}
use couchbase_lite_ios.Base.Bytes.{Bytes, codes, equal}
use couchbase_lite_ios.RevId.{TreeRevId, as_string}
use couchbase_lite_ios.Revision.{equal_or_nil, is_given}
use mathlib.Core.Option

pub record RowTypes : Type 1 where
  pub Json : Type 0
  pub parse : Bytes → Option Json
  pub same_json : Json → Json → Bool
  pub as_array : Json → Option (List Json)
  pub text : Json → Option Bytes
  pub entry : Bytes → Json → Option Json

-- `CBLDiffItemComparison`
pub data ItemComparison : Type 0 where
  items_equal items_modified items_different : ItemComparison

module _ (types : RowTypes) where
  open types use {Json, parse, same_json, as_array, text, entry}

  -- A key or a value: JSON data that is not parsed yet, or an object.
  pub data Raw : Type 0 where
    unparsed : Bytes → Raw
    object : Json → Raw

  -- The document revision that comes with a row.
  pub record DocRevision : Type 0 where
    pub doc_id : Bytes
    pub rev_id : TreeRevId
    pub properties : Option Json

  -- The instance variables; `load` is the storage's `documentPropertiesWithID:sequence:status:`, or nil if
  -- the database is gone.
  pub record QueryRow : Type 0 where
    pub raw_key : Option Raw
    pub raw_value : Option Raw
    pub sequence : ℕ
    pub source_doc_id : Option Bytes
    pub document_revision : Option DocRevision
    pub database : Option ℕ
    pub load : Option (Option Bytes → ℕ → Option Json)

  -- The public properties.
  pub record RowProperties : Type 0 where
    pub key : Option Json
    pub value : Option Json
    pub document_id : Option Bytes
    pub source_document_id : Option Bytes
    pub document_revision_id : Option Bytes
    pub document_properties : Option Json
    pub key_at_index : ℕ → Option Json
    pub sequence_number : ℕ

  abbrev pub entire_doc : Bytes
  entire_doc = codes "*"

  unfoldable pub row_key : QueryRow → Option Json
  row_key r = elim r.raw_key [
    | none ↦ none
    | some (unparsed json) ↦ parse json
    | some (object v) ↦ some v
  ]

  -- The body of the row's document.
  unfoldable pub whole_document : QueryRow → Option Json
  whole_document r = elim r.document_revision [
    | some rev ↦ rev.properties
    | none ↦ elim r.load [ none ↦ none | some f ↦ f r.source_doc_id r.sequence ]
  ]

  unfoldable pub row_value : QueryRow → Option Json
  unfolding whole_document
  row_value r = elim r.raw_value [
    | none ↦ none
    | some (object v) ↦ some v
    | some (unparsed json) ↦ if equal json entire_doc then whole_document r else parse json
  ]

  -- A key of the value, if that is a dictionary, and if it is a string there.
  abbrev pub value_text : Bytes → QueryRow → Option Bytes
  value_text k r = Option.bind (row_value r) (λ v. Option.bind (entry k v) text)

  abbrev pub or_else_text : Option Bytes → Option Bytes → Option Bytes
  or_else_text none o = o
  or_else_text (some t) o = some t

  unfoldable pub document_id : QueryRow → Option Bytes
  unfolding row_value
  document_id r = elim r.document_revision [
    | some rev ↦ some rev.doc_id
    | none ↦ or_else_text (value_text (codes "_id") r) r.source_doc_id
  ]

  unfoldable pub document_revision_id : QueryRow → Option Bytes
  unfolding row_value
  document_revision_id r = elim r.document_revision [
    | some rev ↦ as_string rev.rev_id
    | none ↦
        Option.bind (or_else_text (value_text (codes "_rev") r) (value_text (codes "rev") r))
          as_string
  ]

  -- An item of an array; a key that is no array is its own first item.
  unfoldable pub key_at_index : QueryRow → ℕ → Option Json
  unfolding row_key
  key_at_index r index = elim (Option.bind (row_key r) as_array) [
    | some items ↦ get_elem? items index
    | none ↦ if index == 0 then row_key r else none
  ]

  unfoldable pub row_properties : QueryRow → RowProperties
  unfolding row_key row_value document_id document_revision_id key_at_index
  row_properties r = record {
    key = row_key r;
    value = row_value r;
    document_id = document_id r;
    source_document_id = r.source_doc_id;
    document_revision_id = document_revision_id r;
    document_properties = Option.bind r.document_revision (λ rev. rev.properties);
    key_at_index = key_at_index r;
    sequence_number = r.sequence;
  }

  -- `isEqual:` of keys and values, and `$equal`.
  unfoldable pub same_raw : Option Raw → Option Raw → Bool
  same_raw none none = true
  same_raw (some (unparsed a)) (some (unparsed b)) = equal a b
  same_raw (some (object a)) (some (object b)) = same_json a b
  same_raw _ _ = false

  unfoldable pub same_revision : Option DocRevision → Option DocRevision → Bool
  same_revision none none = true
  same_revision (some a) (some b) = equal a.doc_id b.doc_id && equal a.rev_id b.rev_id
  same_revision _ _ = false

  abbrev pub same_database : Option ℕ → Option ℕ → Bool
  same_database none none = true
  same_database (some a) (some b) = a == b
  same_database _ _ = false

  unfoldable pub is_non_magic_value : QueryRow → Bool
  is_non_magic_value r = elim r.raw_value [
    | none ↦ false
    | some (object v) ↦ true
    | some (unparsed json) ↦ not (equal json entire_doc)
  ]

  unfoldable pub is_value_equal : QueryRow → QueryRow → Bool
  unfolding is_non_magic_value same_raw
  is_value_equal r s =
      if is_non_magic_value r || is_non_magic_value s
      then same_raw r.raw_value s.raw_value
      else r.sequence == s.sequence

  -- `isEqual:` of two different objects.
  unfoldable pub is_equal_row : QueryRow → QueryRow → Bool
  unfolding is_value_equal same_revision
  is_equal_row r s =
      same_database r.database s.database
      && same_raw r.raw_key s.raw_key
      && equal_or_nil r.source_doc_id s.source_doc_id
      && same_revision r.document_revision s.document_revision
      && is_value_equal r s

  unfoldable pub compare_for_array_diff : QueryRow → QueryRow → ItemComparison
  unfolding is_value_equal
  compare_for_array_diff r s =
      if is_given r.source_doc_id
      then if not (equal_or_nil r.source_doc_id s.source_doc_id)
        then items_different
        else if r.sequence == s.sequence
        then items_equal
        else items_modified
      else if not (same_raw r.raw_key s.raw_key)
      then items_different
      else if is_value_equal r s
      then items_equal
      else items_modified

  -- The enumerator over an array of rows, with the view's `lastSequenceIndexed` and
  -- `lastSequenceChangedAt`, if it is of a view.
  pub record QueryEnumerator : Type 0 where
    pub rows : List QueryRow
    pub next_row_index : ℕ
    pub sequence_number : ℕ
    pub view : Option (ℕ × ℕ)

  unfoldable pub count : QueryEnumerator → ℕ
  count e = length e.rows

  unfoldable pub stale : ℕ → QueryEnumerator → Bool
  stale last_sequence e = if e.sequence_number == last_sequence then false else elim e.view [
    | none ↦ true
    | some (indexed, changed_at) ↦ not (indexed == last_sequence && changed_at == e.sequence_number)
  ]

  unfoldable pub next_row : QueryEnumerator → Option QueryRow × QueryEnumerator
  next_row e =
      if ltb e.next_row_index (length e.rows)
      then (get_elem? e.rows e.next_row_index, record e { next_row_index = e.next_row_index + 1 })
      else (none, e)
