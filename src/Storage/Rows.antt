-- ===== src/Storage/Rows.antt =====
-- Source/CBL_SQLiteStorage.m: which rows the forms of SQL statement leave or return.
use couchbase_lite_ios.Base.{
  ◌≡◌, refl, ap, ◌⊎◌, inl, inr, Bool, true, false, not, some, List, [], ◌∷◌, ◌++◌, map,
  if◌then◌else◌, arith, Bool-cases,
}
use couchbase_lite_ios.Storage.Table.{
  Row, where_rows, first_row, any_row, update_where, insert_by, order_by, delete_where,
  forget_parent,
}

-- Membership in a result, with the place.
abbrev pub In : {A : Type 0} → A → List A → Type 0
In x [] = ⊥
In x (y ∷ ys) = (x ≡ y) ⊎ In x ys

module _ {A : Type 0} where
  pub In-where_rows :
      (test : A → Bool) (x : A) (xs : List A)
      → In x (where_rows test xs)
      → In x xs × (test x ≡ true)
  unfolding where_rows
  In-where_rows test x [] h = absurd h
  In-where_rows test x (y ∷ ys) h = elim (Bool-cases (test y)) [
    | inl kept ↦ elim (rw kept at h) [
      | inl e ↦ (inl e, rw e kept)
      | inr later ↦ let (place, passes) = In-where_rows test x ys later in (inr place, passes)
    ]
    | inr dropped ↦
        let (place, passes) = In-where_rows test x ys (rw dropped at h) in (inr place, passes)
  ]

  pub where_rows-In :
      (test : A → Bool) (x : A) (xs : List A) → In x xs → test x ≡ true → In x (where_rows test xs)
  unfolding where_rows
  where_rows-In test x [] h p = absurd h
  where_rows-In test x (y ∷ ys) (inl e) p = rw (rw e at p) (inl e)
  where_rows-In test x (y ∷ ys) (inr h) p = elim (Bool-cases (test y)) [
    | inl kept ↦ rw kept (inr (where_rows-In test x ys h p))
    | inr dropped ↦ rw dropped (where_rows-In test x ys h p)
  ]

  pub In-update_where :
      (test : A → Bool) (change : A → A) (y : A) (xs : List A)
      → In y (update_where test change xs)
      → (x : A) × In x xs × (y ≡ (if test x then change x else x))
  unfolding update_where
  In-update_where test change y [] h = absurd h
  In-update_where test change y (x ∷ xs) (inl e) = (x, inl refl, e)
  In-update_where test change y (x ∷ xs) (inr h) =
      let (z, place, e) = In-update_where test change y xs h in (z, inr place, e)

  pub update_where-In :
      (test : A → Bool) (change : A → A) (x : A) (xs : List A)
      → In x xs
      → In (if test x then change x else x) (update_where test change xs)
  unfolding update_where
  update_where-In test change x [] h = absurd h
  update_where-In test change x (y ∷ ys) (inl e) = inl (rw e)
  update_where-In test change x (y ∷ ys) (inr h) = inr (update_where-In test change x ys h)

  pub In-append : (x : A) (xs ys : List A) → In x (xs ++ ys) → In x xs ⊎ In x ys
  In-append x [] ys h = inr h
  In-append x (z ∷ zs) ys (inl e) = inl (inl e)
  In-append x (z ∷ zs) ys (inr h) = elim (In-append x zs ys h) [
    | inl a ↦ inl (inr a)
    | inr b ↦ inr b
  ]

  pub append-In_left : (x : A) (xs ys : List A) → In x xs → In x (xs ++ ys)
  append-In_left x [] ys h = absurd h
  append-In_left x (z ∷ zs) ys (inl e) = inl e
  append-In_left x (z ∷ zs) ys (inr h) = inr (append-In_left x zs ys h)

  pub append-In_right : (x : A) (xs ys : List A) → In x ys → In x (xs ++ ys)
  append-In_right x [] ys h = h
  append-In_right x (z ∷ zs) ys h = inr (append-In_right x zs ys h)

  pub In-map :
      {B : Type 0} (f : A → B) (y : B) (xs : List A)
      → In y (map f xs)
      → (x : A) × In x xs × (y ≡ f x)
  In-map f y [] h = absurd h
  In-map f y (x ∷ xs) (inl e) = (x, inl refl, e)
  In-map f y (x ∷ xs) (inr h) = let (z, place, e) = In-map f y xs h in (z, inr place, e)

  pub map-In : {B : Type 0} (f : A → B) (x : A) (xs : List A) → In x xs → In (f x) (map f xs)
  map-In f x [] h = absurd h
  map-In f x (y ∷ ys) (inl e) = inl (ap f e)
  map-In f x (y ∷ ys) (inr h) = inr (map-In f x ys h)

  pub In-insert_by :
      (before : A → A → Bool) (x y : A) (ys : List A)
      → In x (insert_by before y ys)
      → (x ≡ y) ⊎ In x ys
  unfolding insert_by
  In-insert_by before x y [] h = h
  In-insert_by before x y (z ∷ zs) h = elim (Bool-cases (before z y)) [
    | inl first ↦ elim (rw first at h) [
      | inl e ↦ inr (inl e)
      | inr later ↦ elim (In-insert_by before x y zs later) [
        | inl e ↦ inl e
        | inr place ↦ inr (inr place)
      ]
    ]
    | inr here ↦ rw here at h
  ]

  insert_by-In :
      (before : A → A → Bool) (x y : A) (ys : List A)
      → (x ≡ y) ⊎ In x ys
      → In x (insert_by before y ys)
  unfolding insert_by
  insert_by-In before x y [] h = h
  insert_by-In before x y (z ∷ zs) h = elim (Bool-cases (before z y)) [
    | inl first ↦ rw first (elim h [
      | inl e ↦ inr (insert_by-In before x y zs (inl e))
      | inr (inl e) ↦ inl e
      | inr (inr place) ↦ inr (insert_by-In before x y zs (inr place))
    ])
    | inr here ↦ rw here h
  ]

  pub In-order_by :
      (before : A → A → Bool) (x : A) (xs : List A) → In x (order_by before xs) → In x xs
  unfolding order_by
  In-order_by before x [] h = h
  In-order_by before x (y ∷ ys) h = elim (In-insert_by before x y (order_by before ys) h) [
    | inl e ↦ inl e
    | inr later ↦ inr (In-order_by before x ys later)
  ]

  pub order_by-In :
      (before : A → A → Bool) (x : A) (xs : List A) → In x xs → In x (order_by before xs)
  unfolding order_by
  order_by-In before x [] h = h
  order_by-In before x (y ∷ ys) (inl e) = insert_by-In before x y (order_by before ys) (inl e)
  order_by-In before x (y ∷ ys) (inr h) =
      insert_by-In before x y (order_by before ys) (inr (order_by-In before x ys h))

  pub first_row-In : (x : A) (xs : List A) → first_row xs ≡ some x → In x xs
  first_row-In x [] h = cc
  first_row-In x (y ∷ ys) h = inl (cc)

  pub not-any_row :
      (test : A → Bool) (x : A) (xs : List A) → any_row test xs ≡ false → In x xs → test x ≡ false
  unfolding any_row
  not-any_row test x [] n h = absurd h
  not-any_row test x (y ∷ ys) n (inl e) = rw e (ground arith)
  not-any_row test x (y ∷ ys) n (inr h) = not-any_row test x ys (ground arith) h

-- A deletion leaves the other rows, with the links to deleted rows set to NULL.
pub In-delete_where :
    (test : Row → Bool) (y : Row) (rows : List Row)
    → In y (delete_where test rows)
    → (x : Row) × In x rows
      × (test x ≡ false)
      × (y ≡ forget_parent (map (λ (r : Row). r.sequence) (where_rows test rows)) x)
unfolding delete_where
In-delete_where test y rows h =
    let (x, place, e) =
      In-map (forget_parent (map (λ (r : Row). r.sequence) (where_rows test rows))) y
        (where_rows (λ r. not (test r)) rows) h in
    let (place', passes) = In-where_rows (λ r. not (test r)) x rows place in
    (x, place', ground arith, e)

pub delete_where-In :
    (test : Row → Bool) (x : Row) (rows : List Row)
    → In x rows
    → test x ≡ false
    → In
        (forget_parent (map (λ (r : Row). r.sequence) (where_rows test rows)) x)
        (delete_where test rows)
unfolding delete_where
delete_where-In test x rows h p =
    map-In (forget_parent (map (λ (r : Row). r.sequence) (where_rows test rows))) x _
      (where_rows-In (λ r. not (test r)) x rows h (rw p))
