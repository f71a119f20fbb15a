-- ===== src/Revision.antt =====
-- Source/CBL_Revision.h and Source/CBL_Revision.m: a revision with its IDs, and the list of revisions.
-- A failed assertion is `none`. The body is of a class that is not looked into; an array of Foundation is a list.
pub mod Removal
pub mod Interface
use couchbase_lite_ios.Base.{
  ℕ, zero, suc, ◌+◌, ◌-◌, Bool, true, false, not, ◌&&◌, ◌||◌, Option, none, some, List, [], ◌∷◌,
  ◌++◌, ltb, ◌==◌, if◌then◌else◌, length, take, get_elem?,
}
use couchbase_lite_ios.Base.Bytes.{Bytes, equal}
use couchbase_lite_ios.RevId.{TreeRevId, generation}

-- `$equal`, and `isEqual:`, which nil answers with NO.
abbrev pub equal_or_nil : Option Bytes → Option Bytes → Bool
equal_or_nil none none = true
equal_or_nil (some a) (some b) = equal a b
equal_or_nil _ _ = false

abbrev pub is_equal_id : Option Bytes → Option Bytes → Bool
is_equal_id (some a) (some b) = equal a b
is_equal_id _ _ = false

abbrev pub is_given : {A : Type 0} → Option A → Bool
is_given none = false
is_given (some a) = true

module _ (Body : Type 0) where
  pub record Revision : Type 0 where
    pub body : Option Body
    pub doc_id : Option Bytes
    pub rev_id : Option TreeRevId
    pub sequence : ℕ
    pub deleted : Bool
    pub missing : Bool

  -- Nil for an illegal revision.
  unfoldable pub init_with_doc_id :
      Option Bytes → Option TreeRevId → Bool → Option Body → Option Revision
  init_with_doc_id doc_id rev_id deleted body =
      if not (is_given doc_id) && (is_given rev_id || deleted)
      then none
      else some (record {
        body = body;
        doc_id = doc_id;
        rev_id = rev_id;
        sequence = 0;
        deleted = deleted;
        missing = false;
      })

  unfoldable pub known_sequence : Revision → Option ℕ
  known_sequence r = if r.sequence == 0 then none else some r.sequence

  unfoldable pub set_sequence : ℕ → Revision → Option Revision
  set_sequence sequence r =
      if sequence == r.sequence
      then some r
      else if r.sequence == 0
      then some (record r { sequence = sequence })
      else none

  unfoldable pub forget_sequence : Revision → Revision
  forget_sequence r = record r { sequence = 0 }

  unfoldable pub revision_generation : Revision → ℕ
  revision_generation r = elim r.rev_id [ none ↦ 0 | some id ↦ generation id ]

  unfoldable pub is_equal : Revision → Revision → Bool
  is_equal r s = is_equal_id r.doc_id s.doc_id && is_equal_id r.rev_id s.rev_id

  -- The methods of `CBL_RevisionList`.
  abbrev pub RevisionList : Type 0
  RevisionList = List Revision

  unfoldable pub rev_with_doc_id : Option Bytes → RevisionList → Option Revision
  rev_with_doc_id doc_id [] = none
  rev_with_doc_id doc_id (rev ∷ revs) =
      let later = rev_with_doc_id doc_id revs in
      if equal_or_nil rev.doc_id doc_id then some rev else later

  unfoldable pub rev_with_ids : Option Bytes → Option TreeRevId → RevisionList → Option Revision
  rev_with_ids doc_id rev_id [] = none
  rev_with_ids doc_id rev_id (rev ∷ revs) =
      let later = rev_with_ids doc_id rev_id revs in
      if equal_or_nil rev.doc_id doc_id && equal_or_nil rev.rev_id rev_id then some rev else later

  unfoldable pub add_rev : Revision → RevisionList → RevisionList
  add_rev rev revs = revs ++ (rev ∷ [])

  -- `removeObject:` takes every equal object out.
  unfoldable pub remove_rev : Revision → RevisionList → RevisionList
  unfolding is_equal
  remove_rev rev [] = []
  remove_rev rev (r ∷ revs) =
      let rest = remove_rev rev revs in if is_equal rev r then rest else r ∷ rest

  -- `indexOfObject:`
  unfoldable pub index_of : Revision → RevisionList → Option ℕ
  unfolding is_equal
  index_of rev [] = none
  index_of rev (r ∷ revs) =
      let later = index_of rev revs in
      if is_equal rev r then some 0 else elim later [ none ↦ none | some i ↦ some (suc i) ]

  unfoldable pub remove_object_at_index : ℕ → RevisionList → RevisionList
  remove_object_at_index i [] = []
  remove_object_at_index zero (r ∷ revs) = revs
  remove_object_at_index (suc i) (r ∷ revs) = r ∷ remove_object_at_index i revs

  unfoldable pub remove_and_return_rev : Revision → RevisionList → Option Revision × RevisionList
  unfolding index_of remove_object_at_index
  remove_and_return_rev rev revs = elim (index_of rev revs) [
    | none ↦ (none, revs)
    | some i ↦ (get_elem? revs i, remove_object_at_index i revs)
  ]

  unfoldable pub limit : ℕ → RevisionList → RevisionList
  limit n revs = if ltb n (length revs) then take n revs else revs
