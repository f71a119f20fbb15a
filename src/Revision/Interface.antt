-- ===== src/Revision/Interface.antt =====
-- Source/CBL_Revision.h: the sequence of a revision and the methods of `CBL_RevisionList` as records, and
-- Source/CBL_Revision.m as their implementation. `none` is nil, an index out of range or a failed
-- assertion. `removeRevIdenticalTo:`, `sortByDocID` and the enumeration are left out. Sequences are
-- less than 2 ^ 63.
use couchbase_lite_ios.Base.{
  ℕ, Bool, Option, none, some, List, [], ◌∷◌, length, get_elem?, flip, Ordering,
}
use couchbase_lite_ios.Base.Int.{sub_ℕ}
use couchbase_lite_ios.Base.Bytes.{Bytes}
use couchbase_lite_ios.RevId.{TreeRevId, sgn}
use couchbase_lite_ios.Revision.{
  Revision, RevisionList, known_sequence, set_sequence, forget_sequence, revision_generation,
  rev_with_doc_id, rev_with_ids, add_rev, remove_rev, remove_and_return_rev, remove_object_at_index,
  limit,
}
use couchbase_lite_ios.Storage.Changes.{all_rev_ids, sort_by_sequence}

pub record Sequenced (Rev : Type 0) : Type 0 where
  pub sequence : Rev → Option ℕ
  pub set_sequence : ℕ → Rev → Option Rev
  pub sequence_if_known : Rev → ℕ
  pub forget_sequence : Rev → Rev
  pub compare_sequences : Rev → Rev → Ordering
  pub compare_sequences_descending : Rev → Rev → Ordering
  pub generation : Rev → ℕ

-- The methods that read a list.
pub record ListReading (Revs Rev : Type 0) : Type 0 where
  pub init : Revs
  pub init_with_array : List Rev → Revs
  pub count : Revs → ℕ
  pub rev_with_doc_id : Option Bytes → Revs → Option Rev
  pub rev_with_ids : Option Bytes → Option TreeRevId → Revs → Option Rev
  pub all_revisions : Revs → List Rev
  pub all_doc_ids : Revs → List Bytes
  pub all_rev_ids : Revs → List TreeRevId
  pub object_at_index : ℕ → Revs → Option Rev

-- The methods that change a list.
pub record ListChanging (Revs Rev : Type 0) : Type 0 where
  pub add_rev : Rev → Revs → Revs
  pub remove_rev : Rev → Revs → Revs
  pub remove_and_return_rev : Rev → Revs → Option Rev × Revs
  pub remove_object_at_index : ℕ → Revs → Revs
  pub limit : ℕ → Revs → Revs
  pub sort_by_sequence : Bool → Revs → Revs

-- `CBLSequenceCompare`
unfoldable pub sequence_compare : ℕ → ℕ → Ordering
sequence_compare a b = sgn (sub_ℕ a b)

unfoldable pub all_doc_ids : RevisionList Bytes → List Bytes
all_doc_ids [] = []
all_doc_ids (rev ∷ revs) =
    let rest = all_doc_ids revs in elim rev.doc_id [ none ↦ rest | some id ↦ id ∷ rest ]

unfoldable pub sequenced : Sequenced (Revision Bytes)
unfolding sequence_compare
sequenced = record {
  sequence = known_sequence Bytes;
  set_sequence = set_sequence Bytes;
  sequence_if_known = λ rev. rev.sequence;
  forget_sequence = forget_sequence Bytes;
  compare_sequences = λ r s. sequence_compare r.sequence s.sequence;
  compare_sequences_descending = λ r s. flip (sequence_compare r.sequence s.sequence);
  generation = revision_generation Bytes;
}

unfoldable pub list_reading : ListReading (RevisionList Bytes) (Revision Bytes)
unfolding all_doc_ids
list_reading = record {
  init = [];
  init_with_array = λ revs. revs;
  count = λ revs. length revs;
  rev_with_doc_id = rev_with_doc_id Bytes;
  rev_with_ids = rev_with_ids Bytes;
  all_revisions = λ revs. revs;
  all_doc_ids = all_doc_ids;
  all_rev_ids = all_rev_ids;
  object_at_index = λ i revs. get_elem? revs i;
}

unfoldable pub list_changing : ListChanging (RevisionList Bytes) (Revision Bytes)
list_changing = record {
  add_rev = add_rev Bytes;
  remove_rev = remove_rev Bytes;
  remove_and_return_rev = remove_and_return_rev Bytes;
  remove_object_at_index = remove_object_at_index Bytes;
  limit = limit Bytes;
  sort_by_sequence = sort_by_sequence;
}
