-- ===== src/Storage/Winning.antt =====
-- Source/CBL_SQLiteStorage.m, `winningRevIDOfDocNumericID:…`: the winner is the best current row.
use couchbase_lite_ios.Base.{
  ℕ, ◌+◌, ◌≡◌, ◌≢◌, refl, ap, ◌∙◌, ◌⊎◌, inl, inr, Bool, true, false, ◌&&◌, none, some, List, [],
  ◌∷◌, leb, if◌then◌else◌, take, arith, Bool-cases, Ordering,
}
use couchbase_lite_ios.Base.Bytes.{Bytes, lex}
use couchbase_lite_ios.RevId.{TreeRevId}
use couchbase_lite_ios.RevId.Collate.{IsProper, collate-proper, lex-eq, lex-flip, lex_trans}
use couchbase_lite_ios.RevId.Order.{collate_rev_ids-flip, collate_rev_ids_refl}
use couchbase_lite_ios.Storage.Table.{Row, insert_by, order_by, is_doc, revid_lt}
use couchbase_lite_ios.Storage.Queries.{leaves_of, wins, Winner, read_winner, winning_rev_id}
use couchbase_lite_ios.Storage.Rows.{In, In-where_rows, In-insert_by, In-order_by, order_by-In}

-- ORDER BY sorts, where the test orders the rows that satisfy P.
module _ {A : Type 0} (before : A → A → Bool) (P : A → Type 0)
    (asym : (x y : A) → P x → P y → before x y ≡ true → before y x ≡ false)
    (trans : (x y z : A)
      → P x
      → P y
      → P z
      → before y x ≡ false
      → before z y ≡ false
      → before z x ≡ false) where
  abbrev Sorted : List A → Type 0
  Sorted [] = Unit
  Sorted (x ∷ xs) = ((y : A) → In y xs → before y x ≡ false) × Sorted xs

  insert_by-Sorted :
      (x : A) (ys : List A)
      → P x
      → ((y : A) → In y ys → P y)
      → Sorted ys
      → Sorted (insert_by before x ys)
  unfolding insert_by
  insert_by-Sorted x [] px all s = ((λ y h. absurd h), tt)
  insert_by-Sorted x (y ∷ ys) px all (least, s) = elim (Bool-cases (before y x)) [
    | inl first ↦ rw first (
      (λ z h. elim (In-insert_by before z x ys h) [
        | inl e ↦ rw e (asym y x (all y (inl refl)) px first)
        | inr place ↦ least z place
      ]),
      insert_by-Sorted x ys px (λ z h. all z (inr h)) s,
    )
    | inr here ↦ rw here (
      (λ z h. elim h [
        | inl e ↦ rw e here
        | inr place ↦ trans x y z px (all y (inl refl)) (all z (inr place)) here (least z place)
      ]),
      (least, s),
    )
  ]

  order_by-Sorted : (xs : List A) → ((x : A) → In x xs → P x) → Sorted (order_by before xs)
  unfolding order_by
  order_by-Sorted [] all = tt
  order_by-Sorted (x ∷ xs) all =
      insert_by-Sorted x (order_by before xs) (all x (inl refl))
        (λ y h. all y (inr (In-order_by before y xs h))) (order_by-Sorted xs (λ y h. all y (inr h)))

-- The row's revision ID is a proper one.
pub record HasProperId (r : Row) : Type 0 where
  pub gen : ℕ
  pub rest : Bytes
  pub proper : IsProper r.revid gen rest

pub revid_lt_asym : (a b : TreeRevId) → revid_lt a b ≡ true → revid_lt b a ≡ false
unfolding revid_lt
revid_lt_asym a b h = ground (arith, collate_rev_ids-flip a b)

lex_eq_left : (a b c : Bytes) → lex a b ≡ Ordering.eq → lex c a ≡ lex c b
lex_eq_left a b c h = ap (lex c) (lex-eq a b h)

lex_neg_trans :
    (a b c : Bytes) → lex b a ≢ Ordering.lt → lex c b ≢ Ordering.lt → lex c a ≢ Ordering.lt
lex_neg_trans a b c h k e = ground (arith, lex-flip a b, lex_eq_left b a c, lex_trans c a b e, h, k)

pub revid_lt_neg_trans :
    (r s t : Row)
    → HasProperId r
    → HasProperId s
    → HasProperId t
    → revid_lt s.revid r.revid ≡ false
    → revid_lt t.revid s.revid ≡ false
    → revid_lt t.revid r.revid ≡ false
unfolding revid_lt
revid_lt_neg_trans r s t p q u h k = ground (
  arith,
  collate-proper u.proper p.proper,
  collate-proper q.proper p.proper,
  collate-proper u.proper q.proper,
  lex_neg_trans p.rest q.rest u.rest,
)

pub wins_asym : (r s : Row) → HasProperId r → HasProperId s → wins r s ≡ true → wins s r ≡ false
unfolding wins
wins_asym r s p q h = ground (arith, revid_lt_asym s.revid r.revid)

pub wins_trans :
    (r s t : Row)
    → HasProperId r
    → HasProperId s
    → HasProperId t
    → wins s r ≡ false
    → wins t s ≡ false
    → wins t r ≡ false
unfolding wins
wins_trans r s t p q u h k = ground (arith, revid_lt_neg_trans t s r u q p)

-- The first row of a sorted result is one that no row comes before.
abbrev pub IsBest : Row → List Row → Type 0
IsBest w rows = In w rows × ((r : Row) → In r rows → wins r w ≡ false)

abbrev pub AllProper : ℕ → List Row → Type 0
AllProper doc rows = (r : Row) → In r rows → is_doc doc r ≡ true → HasProperId r

-- The number of current revisions that are not deletions.
abbrev pub live : List Row → ℕ
live [] = 0
live (r ∷ rs) = (if r.deleted then 0 else 1) + live rs

live-insert_by : (r : Row) (rs : List Row) → live (insert_by wins r rs) ≡ live (r ∷ rs)
unfolding insert_by
live-insert_by r [] = refl
live-insert_by r (s ∷ rs) = elim (Bool-cases (wins s r)) [
  | inl first ↦ rw first (omega (arith, live-insert_by r rs))
  | inr here ↦ rw here refl
]

live-order_by : (rs : List Row) → live (order_by wins rs) ≡ live rs
unfolding order_by
live-order_by [] = refl
live-order_by (r ∷ rs) = omega (arith, live-insert_by r (order_by wins rs), live-order_by rs)

-- `Sorted` for the order of the query.
abbrev InOrder : List Row → Type 0
InOrder = Sorted wins HasProperId wins_asym wins_trans

pub wins-deleted : (r s : Row) → r.deleted ≡ true → wins s r ≡ false → s.deleted ≡ true
unfolding wins
wins-deleted r s d h = ground arith

live-deleted :
    (r : Row) (rs : List Row)
    → r.deleted ≡ true
    → ((s : Row) → In s rs → wins s r ≡ false)
    → live rs ≡ 0
live-deleted r [] d h = refl
live-deleted r (s ∷ rs) d h =
    rw (wins-deleted r s d (h s (inl refl)))
      (omega (arith, live-deleted r rs d (λ s' place. h s' (inr place))))

conflict-live :
    (rs : List Row) → InOrder rs → (read_winner (take 2 rs)).is_conflict ≡ leb 2 (live rs)
conflict-live [] s = refl
conflict-live (r ∷ []) s = ground arith
conflict-live (r ∷ r' ∷ rs) (least, (least', s)) = ground (
  arith,
  λ (d : r.deleted ≡ true). live-deleted r (r' ∷ rs) d least,
  λ (d : r'.deleted ≡ true). live-deleted r' rs d least',
)

pub wins_irrefl : (r : Row) → wins r r ≡ false
unfolding wins revid_lt
wins_irrefl r = ground (arith, collate_rev_ids_refl r.revid)

-- What the query's out parameters say of the current rows of the document.
pub record IsWinnerOf (w : Winner) (leaves : List Row) : Type 0 where
  pub best :
      (leaves ≡ []) × (w.revid ≡ none)
      ⊎ ((r : Row) × IsBest r leaves × (w.revid ≡ some r.revid) × (w.is_deleted ≡ r.deleted))
  pub conflict : w.is_conflict ≡ leb 2 (live leaves)

nil-of-none : (leaves : List Row) → ((r : Row) → In r leaves → ⊥) → leaves ≡ []
nil-of-none [] h = refl
nil-of-none (r ∷ rs) h = absurd (h r (inl refl))

read-IsBest :
    (sorted leaves : List Row)
    → InOrder sorted
    → ((r : Row) → In r sorted → In r leaves)
    → ((r : Row) → In r leaves → In r sorted)
    → (leaves ≡ []) × ((read_winner (take 2 sorted)).revid ≡ none)
      ⊎ ((r : Row) × IsBest r leaves
          × ((read_winner (take 2 sorted)).revid ≡ some r.revid)
          × ((read_winner (take 2 sorted)).is_deleted ≡ r.deleted))
read-IsBest [] leaves s there back = inl (nil-of-none leaves (λ r h. back r h), refl)
read-IsBest (r ∷ []) leaves (least, s) there back = inr (r, best, refl, refl)
  where
    best : IsBest r leaves
    best = (
      there r (inl refl),
      λ r' h. elim (back r' h) [ inl e ↦ rw e (wins_irrefl r) | inr place ↦ least r' place ],
    )
read-IsBest (r ∷ q ∷ rs) leaves (least, s) there back = inr (r, best, refl, refl)
  where
    best : IsBest r leaves
    best = (
      there r (inl refl),
      λ r' h. elim (back r' h) [ inl e ↦ rw e (wins_irrefl r) | inr place ↦ least r' place ],
    )

module _ (doc : ℕ) (rows : List Row) (proper : AllProper doc rows) where
  pub leaf-HasProperId : (r : Row) → In r (leaves_of doc rows) → HasProperId r
  leaf-HasProperId r h =
      let (place, passes) = In-where_rows (λ r. is_doc doc r && r.current) r rows h in
      proper r place (ground arith)

  leaves-InOrder : InOrder (order_by wins (leaves_of doc rows))
  leaves-InOrder =
      order_by-Sorted wins HasProperId wins_asym wins_trans (leaves_of doc rows) leaf-HasProperId

  -- If every revision of the document has a proper ID, the winner is a current revision that no
  -- other current one comes before, none if there is no current one, and the document is in
  -- conflict exactly if two current revisions or more are not deletions.
  pub winning_rev_id-IsWinnerOf : IsWinnerOf (winning_rev_id rows doc) (leaves_of doc rows)
  unfolding winning_rev_id
  winning_rev_id-IsWinnerOf = record {
    best =
        read-IsBest (order_by wins (leaves_of doc rows)) (leaves_of doc rows) leaves-InOrder
          (λ r h. In-order_by wins r (leaves_of doc rows) h)
          (λ r h. order_by-In wins r (leaves_of doc rows) h);
    conflict =
        conflict-live (order_by wins (leaves_of doc rows)) leaves-InOrder
        ∙ ap (leb 2) (live-order_by (leaves_of doc rows));
  }
