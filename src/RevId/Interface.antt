-- ===== src/RevId/Interface.antt =====
-- Source/CBL_RevID.h: the abstract class `CBL_RevID`, what `CBL_TreeRevID` adds, and the methods that make
-- IDs of strings; and Source/CBL_RevID.m as the one implementation. A string and its UTF-8 data are the same
-- bytes; an object of a JSON array that is not a string is `other`.
use couchbase_lite_ios.Base.{
  ℕ, ◌≡◌, refl, Ordering, Bool, Option, none, some, List, ◌or_else◌, compare, flip,
}
use couchbase_lite_ios.Base.Bytes.{Bytes, lex}
use couchbase_lite_ios.Base.Collections.{CollectionUtils}
use couchbase_lite_ios.RevId.{
  TreeRevId, Item, string, other, HistoryDict, generation, suffix, as_string, rev_id_for_json,
  make_revision_history_dict, parse_revision_history_dict, collate_rev_ids,
}
use couchbase_lite_ios.RevId.Collate.{IsProper, collate-proper}
use couchbase_lite_ios.RevId.Order.{collate_rev_ids-flip, generation-proper}

-- `CBL_RevID`
pub record RevIdClass (Rev : Type 0) : Type 0 where
  pub from_string : Bytes → Rev
  pub from_data : Bytes → Rev
  pub as_string : Rev → Option Bytes
  pub as_data : Rev → Bytes
  pub generation : Rev → ℕ
  pub suffix : Rev → Option Bytes
  pub compare : Rev → Rev → Ordering

-- `CBL_TreeRevID`
pub record TreeRevIdClass (Rev : Type 0) : Type 0 where
  pub init_with_data : Bytes → Rev
  pub rev_id_for_json : Bytes → Bool → Option Rev → Option Rev
  pub make_revision_history_dict : Option (List Rev) → Option HistoryDict
  pub parse_revision_history_dict : Option HistoryDict → Option (List Rev)

-- The methods of strings and arrays.
pub record AsRevIds (Rev : Type 0) : Type 0 where
  pub as_rev_id : Bytes → Rev
  pub as_rev_ids : List Bytes → List Rev
  pub as_maybe_rev_ids : List Item → List Rev

unfoldable pub tree_rev_id : RevIdClass TreeRevId
tree_rev_id = record {
  from_string = λ text. text;
  from_data = λ data_given. data_given;
  as_string = as_string;
  as_data = λ r. r;
  generation = generation;
  suffix = suffix;
  compare = collate_rev_ids;
}

pub maybe_rev_id : Item → Option TreeRevId
maybe_rev_id (string s) = some s
maybe_rev_id other = none

module _ (u : CollectionUtils) where
  open u use {my_map}

  unfoldable pub tree_rev_id_methods : (md5 : Bytes → Bytes) → TreeRevIdClass TreeRevId
  tree_rev_id_methods md5 = record {
    init_with_data = λ data_given. data_given;
    rev_id_for_json = rev_id_for_json md5;
    make_revision_history_dict = make_revision_history_dict u;
    parse_revision_history_dict = parse_revision_history_dict u;
  }

  unfoldable pub tree_rev_ids : AsRevIds TreeRevId
  unfolding maybe_rev_id
  tree_rev_ids = record {
    as_rev_id = λ s. s;
    as_rev_ids = my_map (Unit {0}) Bytes TreeRevId (λ t s. (t, some s)) tt;
    as_maybe_rev_ids = my_map (Unit {0}) Item TreeRevId (λ t item. (t, maybe_rev_id item)) tt;
  }

-- What the header says of the class, for IDs of the shape that it describes: data are kept as they are, and
-- IDs compare by generation and then by suffix.
pub record IsRevIdClass (Rev : Type 0) (class : RevIdClass Rev) : Type 0 where
  pub as_data-from_data :
      (data_given : Bytes) → class.as_data (class.from_data data_given) ≡ data_given
  pub from_data-as_data : (r : Rev) → class.from_data (class.as_data r) ≡ r
  pub compare-flip : (a b : Rev) → class.compare b a ≡ flip (class.compare a b)
  pub generation_lem :
      (r : Rev) (gen : ℕ) (rest : Bytes)
      → IsProper (class.as_data r) gen rest
      → class.generation r ≡ gen
  pub compare_lem :
      (a b : Rev) (gen_a gen_b : ℕ) (rest_a rest_b : Bytes)
      → IsProper (class.as_data a) gen_a rest_a
      → IsProper (class.as_data b) gen_b rest_b
      → class.compare a b ≡ compare gen_a gen_b or_else lex rest_a rest_b

tree_rev_id-IsRevIdClass : IsRevIdClass TreeRevId tree_rev_id
unfolding tree_rev_id
tree_rev_id-IsRevIdClass = record {
  as_data-from_data = λ d. refl;
  from_data-as_data = λ r. refl;
  compare-flip = collate_rev_ids-flip;
  generation_lem = λ r gen rest p. generation-proper p;
  compare_lem = λ a b gen_a gen_b rest_a rest_b p q. collate-proper p q;
}
