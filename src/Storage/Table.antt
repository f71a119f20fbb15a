-- ===== src/Storage/Table.antt =====
-- Source/CBL_SQLiteStorage.m: the tables `docs` and `revs` of the schema, and the forms of SQL
-- statement that the methods run on them. `doc_type`, `no_attachments` and `json` are the columns'
-- values; a Boolean column is a `Bool`, NULL in another column is `none`. A statement does not fail
-- but for the constraint UNIQUE (doc_id, revid).
use couchbase_lite_ios.Base.{
  ℕ, ◌+◌, Bool, true, false, not, ◌&&◌, ◌||◌, Option, none, some, List, [], ◌∷◌, ◌++◌, map, ◌==◌,
  if◌then◌else◌, Ordering,
}
use couchbase_lite_ios.Base.Bytes.{Bytes}
use couchbase_lite_ios.RevId.{TreeRevId, collate_rev_ids}

-- A row of `revs`.
pub record Row : Type 0 where
  pub sequence : ℕ
  pub doc_id : ℕ
  pub revid : TreeRevId
  pub parent : Option ℕ
  pub current : Bool
  pub deleted : Bool
  pub json : Option Bytes
  pub no_attachments : Bool
  pub doc_type : Option Bytes

-- A row of `docs`.
pub record DocRow : Type 0 where
  pub doc_id : ℕ
  pub docid : Bytes

-- The database: both tables, the AUTOINCREMENT counter of `revs`, and the instance variables
-- `_docIDs` (a cache) and `_maxRevTreeDepth`.
pub record Store : Type 0 where
  pub docs : List DocRow
  pub rows : List Row
  pub last_sequence : ℕ
  pub cached_ids : List DocRow
  pub max_rev_tree_depth : ℕ

module _ {ℓ} {A : Type ℓ} where
  -- SELECT … WHERE test
  unfoldable pub where_rows : (A → Bool) → List A → List A
  where_rows test [] = []
  where_rows test (x ∷ xs) = if test x then x ∷ where_rows test xs else where_rows test xs

  -- The first row of a result.
  abbrev pub first_row : List A → Option A
  first_row [] = none
  first_row (x ∷ xs) = some x

  unfoldable pub any_row : (A → Bool) → List A → Bool
  any_row test [] = false
  any_row test (x ∷ xs) = test x || any_row test xs

  -- UPDATE … SET change WHERE test
  unfoldable pub update_where : (A → Bool) → (A → A) → List A → List A
  update_where test change [] = []
  update_where test change (x ∷ xs) = (if test x then change x else x) ∷ update_where test change xs

  -- ORDER BY: `before x y` if x comes strictly first.
  unfoldable pub insert_by : (A → A → Bool) → A → List A → List A
  insert_by before x [] = x ∷ []
  insert_by before x (y ∷ ys) = if before y x then y ∷ insert_by before x ys else x ∷ y ∷ ys

  unfoldable pub order_by : (A → A → Bool) → List A → List A
  unfolding insert_by
  order_by before [] = []
  order_by before (x ∷ xs) = insert_by before x (order_by before xs)

-- `a = b`, `a < b` on values of the collation REVID.
unfoldable pub revid_eq : TreeRevId → TreeRevId → Bool
revid_eq a b = elim (collate_rev_ids a b) [ Ordering.eq ↦ true | _ ↦ false ]

unfoldable pub revid_lt : TreeRevId → TreeRevId → Bool
revid_lt a b = elim (collate_rev_ids a b) [ Ordering.lt ↦ true | _ ↦ false ]

unfoldable pub member : ℕ → List ℕ → Bool
member n [] = false
member n (x ∷ xs) = n == x || member n xs

-- ON DELETE SET NULL of the column `parent`.
unfoldable pub forget_parent : List ℕ → Row → Row
unfolding member
forget_parent gone r = elim r.parent [
  | none ↦ r
  | some p ↦ if member p gone then record r { parent = none } else r
]

-- DELETE FROM revs WHERE test
unfoldable pub delete_where : (Row → Bool) → List Row → List Row
unfolding where_rows forget_parent
delete_where test rows =
    map (forget_parent (map (λ (r : Row). r.sequence) (where_rows test rows)))
      (where_rows (λ r. not (test r)) rows)

abbrev pub is_doc : ℕ → Row → Bool
is_doc doc r = r.doc_id == doc

-- INSERT INTO revs, or `none` for SQLITE_CONSTRAINT. The new row has the next sequence.
unfoldable pub insert_row : Row → Store → Option Store
unfolding any_row revid_eq
insert_row r st =
    if any_row (λ s. is_doc r.doc_id s && revid_eq s.revid r.revid) st.rows
    then none
    else some (record st {
      rows = st.rows ++ (record r { sequence = st.last_sequence + 1 } ∷ []);
      last_sequence = st.last_sequence + 1;
    })
