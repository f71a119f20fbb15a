-- ===== src/SequenceMap/Checkpoints.antt =====
-- Source/CBLSequenceMap.m: the map against the list of all values ever added.
use mathlib.Core.Path.{subst}
use couchbase_lite_ios.Base.{
  ℕ, zero, suc, ◌+◌, ◌-◌, ◌≤◌, ◌<◌, ◌≡◌, refl, sym, ap, ◌∙◌, ◌⊎◌, inl, inr, false, Option, none,
  some, List, [], ◌∷◌, ◌++◌, ltb, leb, ◌==◌, if◌then◌else◌, length, length-append, drop, get_elem?,
  arith, Bool-cases, Option-cases,
}
use couchbase_lite_ios.SequenceMap.{
  has_index, add_index, remove_index, first_index, SequenceMap, init, add_value, remove_sequence,
  checkpoint, checkpointed_sequence, checkpointed_value,
}
use couchbase_lite_ios.Storage.Rows.{In}

add_index-In : (n k : ℕ) (xs : List ℕ) → In k (add_index n xs) → (k ≡ n) ⊎ In k xs
unfolding add_index
add_index-In n k xs h = elim (Bool-cases (has_index n xs)) [
  | inl there ↦ inr (rw (add_index, there) at h)
  | inr added ↦ rw (add_index, added) at h
]

remove_index-In : (n k : ℕ) (xs : List ℕ) → In k (remove_index n xs) → In k xs
unfolding remove_index
remove_index-In n k [] h = h
remove_index-In n k (x ∷ xs) h = elim (Bool-cases (n == x)) [
  | inl same ↦ inr (remove_index-In n k xs (rw same at h))
  | inr other ↦ elim (rw other at h) [
    | inl e ↦ inl e
    | inr later ↦ inr (remove_index-In n k xs later)
  ]
]

first_index-In : (xs : List ℕ) (k : ℕ) → first_index xs ≡ some k → In k xs
unfolding first_index
first_index-In [] k e = cc
first_index-In (x ∷ xs) k e = elim (Option-cases (first_index xs)) [
  | inl nothing ↦ inl (cc (rw (first_index, nothing) at e))
  | inr (y, found) ↦ elim (Bool-cases (leb x y)) [
    | inl le ↦ inl (ground (arith, rw (first_index, found) at e))
    | inr gt ↦ inr (first_index-In xs k (found ∙ ground (arith, rw (first_index, found) at e)))
  ]
]

suc-add : (n m : ℕ) → suc (n + m) ≡ suc n + m
suc-add n m = omega arith

drop-nil : {A : Type 0} (n : ℕ) → drop {A = A} n [] ≡ []
drop-nil zero = refl
drop-nil (suc n) = refl

drop-drop : {A : Type 0} (m n : ℕ) (xs : List A) → drop m (drop n xs) ≡ drop (n + m) xs
drop-drop m zero xs = ap (λ k. drop k xs) (omega arith)
drop-drop m (suc n) [] = drop-nil m ∙ sym (drop-nil (suc n + m))
drop-drop m (suc n) (x ∷ xs) = drop-drop m n xs ∙ ap (λ k. drop k (x ∷ xs)) (suc-add n m)

drop-append :
    {A : Type 0} (n : ℕ) (xs ys : List A) → n ≤ length xs → drop n (xs ++ ys) ≡ drop n xs ++ ys
drop-append zero xs ys h = refl
drop-append (suc n) [] ys h = absurd (omega arith)
drop-append (suc n) (x ∷ xs) ys h = drop-append n xs ys (omega arith)

get_elem?-drop :
    {A : Type 0} (n k : ℕ) (xs : List A) → get_elem? (drop n xs) k ≡ get_elem? xs (n + k)
get_elem?-drop zero k xs = ap (get_elem? xs) (omega arith)
get_elem?-drop (suc n) k [] = refl
get_elem?-drop (suc n) k (x ∷ xs) = get_elem?-drop n k xs ∙ ap (get_elem? (x ∷ xs)) (suc-add n k)

-- `log` is the list of all values added so far: the map has the last of them, from that of the
-- checkpoint on at least.
pub record IsMapOf {A : Type 0} (m : SequenceMap A) (log : List A) : Type 0 where
  pub last_is : m.last_sequence ≡ length log
  pub first_pos : 0 < m.first_value_sequence
  pub values_are : m.values ≡ drop (m.first_value_sequence - 1) log
  pub pending : (n : ℕ) → In n m.sequences → (0 < n) × (n ≤ m.last_sequence)
  pub behind :
      (m.first_value_sequence ≡ 1)
      ⊎ (m.first_value_sequence ≤ m.last_sequence)
        × ((n : ℕ) → In n m.sequences → m.first_value_sequence < n)

first-le :
    {A : Type 0} {m : SequenceMap A} {log : List A}
    → IsMapOf m log
    → m.first_value_sequence - 1 ≤ length log
first-le i = elim i.behind [
  | inl one ↦ omega (arith, one)
  | inr (le, _) ↦ omega (arith, le, i.last_is)
]

-- Every value added is in the map's log, under the sequence that `addValue:` returns.
pub add_value-IsMapOf :
    {A : Type 0} (value : A) (m : SequenceMap A) (log : List A)
    → IsMapOf m log
    → IsMapOf (add_value value m).1 (log ++ (value ∷ [])) × ((add_value value m).0 ≡ length log + 1)
unfolding add_value
add_value-IsMapOf value m log i = (
  record {
    last_is = omega (arith, i.last_is, length-append log (value ∷ []));
    first_pos = i.first_pos;
    values_are =
        ap (λ vs. vs ++ (value ∷ [])) i.values_are
        ∙ sym (drop-append (m.first_value_sequence - 1) log (value ∷ []) (first-le i));
    pending = λ n h. elim (add_index-In (m.last_sequence + 1) n m.sequences h) [
      | inl e ↦ omega (arith, e)
      | inr old ↦ omega (arith, i.pending n old)
    ];
    behind = elim i.behind [
      | inl one ↦ inl one
      | inr (le, all) ↦ inr (
        omega (arith, le),
        λ n h. elim (add_index-In (m.last_sequence + 1) n m.sequences h) [
          | inl e ↦ omega (arith, e, le)
          | inr old ↦ all n old
        ],
      )
    ];
  },
  omega (arith, i.last_is),
)

pub remove_sequence-IsMapOf :
    {A : Type 0} (sequence : ℕ) (m : SequenceMap A) (log : List A)
    → IsMapOf m log
    → IsMapOf (remove_sequence sequence m) log
unfolding remove_sequence
remove_sequence-IsMapOf sequence m log i = record {
  last_is = i.last_is;
  first_pos = i.first_pos;
  values_are = i.values_are;
  pending = λ n h. i.pending n (remove_index-In sequence n m.sequences h);
  behind = elim i.behind [
    | inl one ↦ inl one
    | inr (le, all) ↦ inr (le, λ n h. all n (remove_index-In sequence n m.sequences h))
  ];
}

first_index-none : (xs : List ℕ) (n : ℕ) → first_index xs ≡ none → In n xs → ⊥
unfolding first_index
first_index-none [] n e h = h
first_index-none (x ∷ xs) n e h = elim (Option-cases (first_index xs)) [
  | inl nothing ↦ cc (rw (first_index, nothing) at e)
  | inr (y, found) ↦ cc (rw (first_index, found) at e)
]

first_is :
    (x : ℕ) (xs : List ℕ) (k : ℕ) → first_index xs ≡ none → first_index (x ∷ xs) ≡ some k → x ≡ k
unfolding first_index
first_is x xs k nothing e = cc (rw (first_index, nothing) at e)

first_index-le : (xs : List ℕ) (k n : ℕ) → first_index xs ≡ some k → In n xs → k ≤ n
unfolding first_index
first_index-le [] k n e h = absurd h
first_index-le (x ∷ xs) k n e h = elim (Option-cases (first_index xs)) [
  | inl nothing ↦ elim h [
    | inl same ↦ omega (arith, same, first_is x xs k nothing e)
    | inr later ↦ absurd (first_index-none xs n nothing later)
  ]
  | inr (y, found) ↦ elim h [
    | inl same ↦ ground (arith, rw (first_index, found) at e)
    | inr later ↦ ground (arith, rw (first_index, found) at e, first_index-le xs y n found later)
  ]
]

-- What the checkpoint is: all added sequences up to it were removed, and the next one, if there is
-- one, was not.
module _ {A : Type 0} (m : SequenceMap A) (log : List A) (i : IsMapOf m log) where
  checkpoint-lt : (n : ℕ) → In n m.sequences → checkpoint m < n
  checkpoint-lt n h = elim (Option-cases (first_index m.sequences)) [
    | inl nothing ↦ absurd (first_index-none m.sequences n nothing h)
    | inr (k, found) ↦
        rw (checkpoint, found)
          (omega (
            arith,
            first_index-le m.sequences k n found h,
            i.pending k (first_index-In m.sequences k found),
          ))
  ]

  checkpoint-le : checkpoint m ≤ m.last_sequence
  checkpoint-le = elim (Option-cases (first_index m.sequences)) [
    | inl nothing ↦ rw (checkpoint, nothing) (omega arith)
    | inr (k, found) ↦
        rw (checkpoint, found) (omega (arith, i.pending k (first_index-In m.sequences k found)))
  ]

  checkpoint_next : (checkpoint m ≡ m.last_sequence) ⊎ In (checkpoint m + 1) m.sequences
  checkpoint_next = elim (Option-cases (first_index m.sequences)) [
    | inl nothing ↦ inl (rw (checkpoint, nothing) refl)
    | inr (k, found) ↦ inr (
        rw (checkpoint, found)
          (subst (λ n. In n m.sequences)
            (omega (arith, i.pending k (first_index-In m.sequences k found)))
            (first_index-In m.sequences k found)))
  ]

  checkpoint_reached : (m.first_value_sequence ≡ 1) ⊎ (m.first_value_sequence ≤ checkpoint m)
  checkpoint_reached = elim i.behind [
    | inl one ↦ inl one
    | inr (le, all) ↦ elim checkpoint_next [
      | inl at_end ↦ inr (omega (arith, le, at_end))
      | inr next ↦ inr (omega (arith, all (checkpoint m + 1) next))
    ]
  ]

  -- The map after values up to the checkpoint's were dropped.
  collected :
      m.first_value_sequence < checkpoint m
      → IsMapOf
          (record m {
            values = drop (checkpoint m - m.first_value_sequence) m.values;
            first_value_sequence = m.first_value_sequence + (checkpoint m - m.first_value_sequence);
          })
          log
  collected lt = record {
    last_is = i.last_is;
    first_pos = omega (arith, i.first_pos);
    values_are =
        ap (drop (checkpoint m - m.first_value_sequence)) i.values_are
        ∙ drop-drop (checkpoint m - m.first_value_sequence) (m.first_value_sequence - 1) log
        ∙ ap (λ k. drop k log) (omega (arith, i.first_pos, lt));
    pending = i.pending;
    behind = inr (omega (arith, lt, checkpoint-le), λ n h. omega (arith, lt, checkpoint-lt n h));
  }

  pub checkpointed_sequence-IsMapOf : IsMapOf (checkpointed_sequence m).1 log
  unfolding checkpointed_sequence
  checkpointed_sequence-IsMapOf = elim (Bool-cases (ltb m.first_value_sequence (checkpoint m))) [
    | inl more ↦ rw more (collected (ground arith))
    | inr same ↦ rw same i
  ]

  -- In a map of some log, the checkpointed sequence is one that all pending sequences exceed, and
  -- either the last one or the predecessor of a pending one.
  pub checkpointed_sequence_bounds :
      ((n : ℕ) → In n m.sequences → (checkpointed_sequence m).0 < n)
      × (((checkpointed_sequence m).0 ≡ m.last_sequence)
          ⊎ In ((checkpointed_sequence m).0 + 1) m.sequences)
  unfolding checkpointed_sequence
  checkpointed_sequence_bounds = (checkpoint-lt, checkpoint_next)

read-log :
    {A : Type 0} (m : SequenceMap A) (log : List A) (c : ℕ)
    → IsMapOf m log
    → m.first_value_sequence ≤ c
    → get_elem? m.values (c - m.first_value_sequence) ≡ get_elem? log (c - 1)
read-log m log c i le =
    ap (λ vs. get_elem? vs (c - m.first_value_sequence)) i.values_are
    ∙ get_elem?-drop (m.first_value_sequence - 1) (c - m.first_value_sequence) log
    ∙ ap (get_elem? log) (omega (arith, i.first_pos, le))

-- The value of the sequence n of a log, none for n = 0.
abbrev pub logged : {A : Type 0} → List A → ℕ → Option A
logged log zero = none
logged log (suc n) = get_elem? log n

logged_pos : {A : Type 0} (log : List A) (n : ℕ) → 0 < n → get_elem? log (n - 1) ≡ logged log n
logged_pos log zero h = absurd (omega arith)
logged_pos log (suc n) h = ap (get_elem? log) (omega arith)

module _ {A : Type 0} (m : SequenceMap A) (log : List A) (i : IsMapOf m log) where
  read_or_nil :
      (m' : SequenceMap A)
      → IsMapOf m' log
      → (m'.first_value_sequence ≡ 1) ⊎ (m'.first_value_sequence ≤ checkpoint m)
      → (if leb m'.first_value_sequence (checkpoint m)
          then get_elem? m'.values (checkpoint m - m'.first_value_sequence)
          else none)
        ≡ logged log (checkpoint m)
  read_or_nil m' i' reached = elim (Bool-cases (leb m'.first_value_sequence (checkpoint m))) [
    | inl le ↦ rw le (
        read-log m' log (checkpoint m) i' (ground arith)
        ∙ logged_pos log (checkpoint m) (ground (arith, i'.first_pos)))
    | inr gt ↦ rw gt (ap (logged log) (zero_is reached gt))
  ]
    where
      zero_is :
          (m'.first_value_sequence ≡ 1) ⊎ (m'.first_value_sequence ≤ checkpoint m)
          → leb m'.first_value_sequence (checkpoint m) ≡ false
          → 0 ≡ checkpoint m
      zero_is (inl one) gt = ground arith
      zero_is (inr le) gt = ground arith

  -- In a map of a log, the checkpointed value is the one that was added under the checkpointed
  -- sequence, nil if that is 0, and the map is still one of the same log afterwards.
  pub checkpointed_value-logged :
      ((checkpointed_value m).0 ≡ logged log (checkpointed_sequence m).0)
      × IsMapOf (checkpointed_value m).1 log
  unfolding checkpointed_value checkpointed_sequence
  checkpointed_value-logged = (
    elim (Bool-cases (ltb m.first_value_sequence (checkpoint m))) [
      | inl more ↦ rw more (read_or_nil _ (collected m log i (ground arith)) (inr (ground arith)))
      | inr same ↦ rw same (read_or_nil m i (checkpoint_reached m log i))
    ],
    checkpointed_sequence-IsMapOf m log i,
  )

init-IsMapOf : {A : Type 0} → IsMapOf {A = A} init []
unfolding init
init-IsMapOf = record {
  last_is = refl;
  first_pos = omega arith;
  values_are = refl;
  pending = λ n h. absurd h;
  behind = inl refl;
}

-- The maps that the operations reach, each with the list of the values added.
pub data Reached {A : Type 0} : SequenceMap A → List A → Type 0 where
  started : Reached init []
  added :
      {m : SequenceMap A} {log : List A} (value : A)
      → Reached m log
      → Reached (add_value value m).1 (log ++ (value ∷ []))
  removed :
      {m : SequenceMap A} {log : List A} (n : ℕ) → Reached m log → Reached (remove_sequence n m) log
  asked : {m : SequenceMap A} {log : List A} → Reached m log → Reached (checkpointed_value m).1 log

-- Every sequence of operations leaves a map whose values are the log from the first value's
-- sequence on and whose pending sequences are between 1 and the last one. If it collected values,
-- its first value's sequence is at most the last one and below all pending ones.
pub Reached-IsMapOf :
    {A : Type 0} {m : SequenceMap A} {log : List A} → Reached m log → IsMapOf m log
Reached-IsMapOf started = init-IsMapOf
Reached-IsMapOf (added {m} {log} value r) = (add_value-IsMapOf value m log (Reached-IsMapOf r)).0
Reached-IsMapOf (removed {m} {log} n r) = remove_sequence-IsMapOf n m log (Reached-IsMapOf r)
Reached-IsMapOf (asked {m} {log} r) = (checkpointed_value-logged m log (Reached-IsMapOf r)).1
