-- ===== src/Storage/PurgeLists.antt =====
-- Source/CBL_SQLiteStorage.m, `purgeRevisions:result:`: its lists of sequences, and rows from the newest.
use mathlib.Core.Path.{subst}
use couchbase_lite_ios.Base.{
  ℕ, ◌≡◌, refl, ap, inl, inr, ◌≤◌, ltb, ltb→lt, map, true, false, List, [], ◌∷◌, ◌==◌, ==_iff,
  arith, Bool-cases,
}
use couchbase_lite_ios.Differ.Steps.{pick-lem}
use couchbase_lite_ios.Storage.Table.{Row, insert_by, where_rows, order_by, member}
use couchbase_lite_ios.Storage.Queries.{newest_first}
use couchbase_lite_ios.Storage.Purge.{remove_sequence, add_parent, minus}
use couchbase_lite_ios.Storage.Rows.{In, In-insert_by}

pub remove_sequence_itself : (n : ℕ) (xs : List ℕ) → member n (remove_sequence n xs) ≡ false
unfolding remove_sequence member
remove_sequence_itself n [] = refl
remove_sequence_itself n (x ∷ xs) = ground (arith, remove_sequence_itself n xs)

pub member-remove_sequence :
    (n m : ℕ) (xs : List ℕ) → member n xs ≡ false → member n (remove_sequence m xs) ≡ false
unfolding remove_sequence member
member-remove_sequence n m [] h = refl
member-remove_sequence n m (x ∷ xs) h = ground (arith, member-remove_sequence n m xs)

pub member-minus : (n : ℕ) (xs ys : List ℕ) → member n xs ≡ false → member n (minus xs ys) ≡ false
unfolding minus member
member-minus n [] ys h = refl
member-minus n (x ∷ xs) ys h = ground (arith, member-minus n xs ys)

-- A list of rows, the newest first.
abbrev pub IsSorted : List Row → Type 0
IsSorted [] = Unit
IsSorted (r ∷ rs) = ((y : Row) → In y rs → y.sequence ≤ r.sequence) × IsSorted rs

insert_by-IsSorted :
    (x : Row) (xs : List Row) → IsSorted xs → IsSorted (insert_by newest_first x xs)
unfolding insert_by newest_first
insert_by-IsSorted x [] h = (λ y k. absurd k, tt)
insert_by-IsSorted x (z ∷ zs) h =
    pick-lem IsSorted (ltb x.sequence z.sequence) _ _
      (λ older. (
        λ y k. elim (In-insert_by newest_first y x zs k) [
          | inl e ↦
              omega (arith, (ltb→lt x.sequence z.sequence) older, ap (λ (q : Row). q.sequence) e)
          | inr later ↦ h.0 y later
        ],
        insert_by-IsSorted x zs h.1,
      ))
      (λ newer. (
        λ y k. elim k [
          | inl e ↦ ground (arith, newer, ap (λ (q : Row). q.sequence) e)
          | inr later ↦ ground (arith, newer, h.0 y later)
        ],
        h,
      ))

pub order_by-IsSorted : (xs : List Row) → IsSorted (order_by newest_first xs)
unfolding order_by
order_by-IsSorted [] = tt
order_by-IsSorted (x ∷ xs) = insert_by-IsSorted x (order_by newest_first xs) (order_by-IsSorted xs)

pub member-kept : (n : ℕ) (xs ys : List ℕ) → member n ys ≡ true → member n (minus xs ys) ≡ false
unfolding minus member
member-kept n [] ys h = refl
member-kept n (x ∷ xs) ys h = ground (arith, h, member-kept n xs ys h)

pub member-purged :
    (n : ℕ) (xs ys : List ℕ)
    → member n xs ≡ true
    → member n ys ≡ false
    → member n (minus xs ys) ≡ true
unfolding minus member
member-purged n [] ys h k = cc h
member-purged n (x ∷ xs) ys h k = elim (Bool-cases (n == x)) [
  | inl same ↦
      let kept : member x ys ≡ false = subst (λ m. member m ys ≡ false) ((==_iff _ _).0 same) k in
      rw (kept, same) refl
  | inr other ↦
      let rest = member-purged n xs ys (rw other at h) k in
      pick-lem (λ (zs : List ℕ). member n zs ≡ true) (member x ys) _ _ (λ e. rest)
        (λ e. ground (arith, rest))
]

-- The rows that a list of sequences selects have no other sequence.
pub member-selected :
    (n : ℕ) (seqs : List ℕ) (rows : List Row)
    → member n seqs ≡ false
    → member n (map (λ (x : Row). x.sequence) (where_rows (λ x. member x.sequence seqs) rows))
      ≡ false
unfolding where_rows member
member-selected n seqs [] h = refl
member-selected n seqs (x ∷ rows) h =
    pick-lem (λ (zs : List Row). member n (map (λ (z : Row). z.sequence) zs) ≡ false)
      (member x.sequence seqs) _ _
      (λ listed. elim (Bool-cases (n == x.sequence)) [
        | inl same ↦ cc (subst (λ m. member m seqs ≡ false) ((==_iff _ _).0 same) h, listed)
        | inr other ↦ ground (arith, other, member-selected n seqs rows h)
      ])
      (λ other. member-selected n seqs rows h)

pub member-remove_other :
    (n m : ℕ) (xs : List ℕ)
    → (n == m) ≡ false
    → member n xs ≡ true
    → member n (remove_sequence m xs) ≡ true
unfolding remove_sequence member
member-remove_other n m [] h k = cc k
member-remove_other n m (x ∷ xs) h k = elim (Bool-cases (n == x)) [
  | inl same ↦ let stays : (m == x) ≡ false = ground (arith, h, same) in rw (stays, same) refl
  | inr other ↦
      let rest = member-remove_other n m xs h (rw other at k) in
      pick-lem (λ (zs : List ℕ). member n zs ≡ true) (m == x) _ _ (λ e. rest)
        (λ e. ground (arith, rest))
]

pub member-add_parent :
    (n parent : ℕ) (xs : List ℕ) → member n xs ≡ true → member n (add_parent parent xs) ≡ true
unfolding member
member-add_parent n parent xs h =
    pick-lem (λ (zs : List ℕ). member n zs ≡ true) (ltb 0 parent) _ _ (λ e. ground (arith, h))
      (λ e. h)
