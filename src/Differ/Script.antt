-- ===== src/Differ/Script.antt =====
-- Source/Differ.cc: what a list of changes does to an array, read from the front: the items before a change
-- stay, a deletion drops the item at its old position, an insertion puts in the new array's item
-- at its new position, and a substitution does both.
use couchbase_lite_ios.Base.{
  ℕ, zero, suc, ◌+◌, ◌-◌, ◌≡◌, ◌≤◌, ◌<◌, refl, ap, sym, ◌∙◌, Option, none, some, List, [], ◌∷◌,
  ◌++◌, get_elem?, drop, length, arith,
}
use couchbase_lite_ios.Differ.{del, sub, ins, change, ChangeVector}
use mathlib.Core.List.{append_assoc}
use mathlib.Core.Path.{subst}

-- The first change, if there is one, is at this old position or later.
abbrev pub StartsAt : ℕ → ChangeVector → Type 0
StartsAt i [] = Unit
StartsAt i (ch ∷ rest) = i ≤ ch.old_pos

module _ {A : Type 0} where
  -- The item, if there is one.
  abbrev pub to_list : Option A → List A
  to_list none = []
  to_list (some a) = a ∷ []

  abbrev pub item : List A → ℕ → List A
  item xs i = to_list (get_elem? xs i)

  abbrev pub copy : List A → ℕ → ℕ → List A
  copy xs i zero = []
  copy xs i (suc n) = item xs i ++ copy xs (suc i) n

  -- The rest of the array from an old position on, with the changes made.
  abbrev pub apply_from : List A → List A → ℕ → ChangeVector → List A
  apply_from old nuu i [] = drop i old
  apply_from old nuu i (ch ∷ rest) = copy old i (ch.old_pos - i) ++ elim ch.op [
    | del ↦ apply_from old nuu (suc ch.old_pos) rest
    | ins ↦ item nuu ch.new_pos ++ apply_from old nuu ch.old_pos rest
    | sub ↦ item nuu ch.new_pos ++ apply_from old nuu (suc ch.old_pos) rest
    | _ ↦ apply_from old nuu ch.old_pos rest
  ]

  pub drop-item : (xs : List A) (i : ℕ) → drop i xs ≡ item xs i ++ drop (suc i) xs
  drop-item [] zero = refl
  drop-item [] (suc i) = refl
  drop-item (x ∷ xs) zero = refl
  drop-item (x ∷ xs) (suc i) = drop-item xs i

  -- An item in front of all changes stays.
  pub apply_from-item :
      (old nuu : List A) (i : ℕ) (chs : ChangeVector)
      → StartsAt (suc i) chs
      → apply_from old nuu i chs ≡ item old i ++ apply_from old nuu (suc i) chs
  apply_from-item old nuu i [] h = drop-item old i
  apply_from-item old nuu i (ch ∷ rest) h =
      ap (λ n. copy old i n ++ changed) (counts ch.old_pos h)
      ∙ append_assoc (item old i) (copy old (suc i) (ch.old_pos - suc i)) changed
    where
      changed : List A
      changed = elim ch.op [
        | del ↦ apply_from old nuu (suc ch.old_pos) rest
        | ins ↦ item nuu ch.new_pos ++ apply_from old nuu ch.old_pos rest
        | sub ↦ item nuu ch.new_pos ++ apply_from old nuu (suc ch.old_pos) rest
        | _ ↦ apply_from old nuu ch.old_pos rest
      ]

      counts : (p : ℕ) → suc i ≤ p → p - i ≡ suc (p - suc i)
      counts p h = omega arith

  no_copy : (old : List A) (i : ℕ) (r : List A) → copy old i (i - i) ++ r ≡ r
  no_copy old i r = ap (λ n. copy old i n ++ r) none_left
    where
      none_left : i - i ≡ 0
      none_left = omega arith

  pub apply_from-del :
      (old nuu : List A) (i j : ℕ) (rest : ChangeVector)
      → apply_from old nuu i (change del i j ∷ rest) ≡ apply_from old nuu (suc i) rest
  apply_from-del old nuu i j rest = no_copy old i _

  pub apply_from-ins :
      (old nuu : List A) (i j : ℕ) (rest : ChangeVector)
      → apply_from old nuu i (change ins i j ∷ rest) ≡ item nuu j ++ apply_from old nuu i rest
  apply_from-ins old nuu i j rest = no_copy old i _

  pub apply_from-sub :
      (old nuu : List A) (i j : ℕ) (rest : ChangeVector)
      → apply_from old nuu i (change sub i j ∷ rest) ≡ item nuu j ++ apply_from old nuu (suc i) rest
  apply_from-sub old nuu i j rest = no_copy old i _

  -- Equal items at the front of both arrays stay.
  pub apply_from-prefix :
      (old nuu : List A) (n i : ℕ) (chs : ChangeVector)
      → StartsAt (i + n) chs
      → ((k : ℕ) → i ≤ k → k < i + n → get_elem? old k ≡ get_elem? nuu k)
      → apply_from old nuu (i + n) chs ≡ drop (i + n) nuu
      → apply_from old nuu i chs ≡ drop i nuu
  apply_from-prefix old nuu zero i chs h same e =
      ap (λ k. apply_from old nuu k chs) here ∙ e ∙ ap (λ k. drop k nuu) (sym here)
    where
      here : i ≡ i + 0
      here = omega arith
  apply_from-prefix old nuu (suc n) i chs h same e =
      apply_from-item old nuu i chs (later chs h)
      ∙ ap (λ r. item old i ++ r)
          (apply_from-prefix old nuu n (suc i) chs (subst (λ k. StartsAt k chs) next h)
            (λ k a b. same k (omega arith) (omega arith))
            (sym (ap (λ k. apply_from old nuu k chs) next) ∙ e ∙ ap (λ k. drop k nuu) next))
      ∙ ap (λ o. to_list o ++ drop (suc i) nuu) (same i (omega arith) (omega arith))
      ∙ sym (drop-item nuu i)
    where
      later : (chs : ChangeVector) → StartsAt (i + suc n) chs → StartsAt (suc i) chs
      later [] h = tt
      later (ch ∷ rest) h = omega arith

      next : i + suc n ≡ suc i + n
      next = omega arith

  drop-none : (xs : List A) (i : ℕ) → i ≡ length xs → drop i xs ≡ []
  drop-none [] zero e = refl
  drop-none [] (suc i) e = refl
  drop-none (x ∷ xs) zero e = ground arith
  drop-none (x ∷ xs) (suc i) e = drop-none xs i (omega arith)

  -- Equal items at the end of both arrays: the rests have the same length and agree.
  pub drop-suffix :
      (old nuu : List A) (n i j : ℕ)
      → i + n ≡ length old
      → j + n ≡ length nuu
      → ((k : ℕ) → k < n → get_elem? old (length old - 1 - k) ≡ get_elem? nuu (length nuu - 1 - k))
      → drop i old ≡ drop j nuu
  drop-suffix old nuu zero i j e f same =
      drop-none old i (omega arith) ∙ sym (drop-none nuu j (omega arith))
  drop-suffix old nuu (suc n) i j e f same =
      drop-item old i
      ∙ ap (λ o. to_list o ++ drop (suc i) old)
          (ap (get_elem? old) at_old ∙ same n (omega arith) ∙ ap (get_elem? nuu) at_new)
      ∙ ap (λ r. item nuu j ++ r)
          (drop-suffix old nuu n (suc i) (suc j) (omega arith) (omega arith)
            (λ k h. same k (omega arith)))
      ∙ sym (drop-item nuu j)
    where
      at_old : i ≡ length old - 1 - n
      at_old = omega arith

      at_new : length nuu - 1 - n ≡ j
      at_new = omega arith
