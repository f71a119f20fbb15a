-- ===== src/RevId/History.antt =====
-- Source/CBL_RevID.m: `makeRevisionHistoryDict:` and `parseRevisionHistoryDict:`.
use couchbase_lite_ios.Base.{
  ℕ, zero, suc, ◌-◌, ◌≡◌, refl, ap, ◌∙◌, inl, inr, ◌⊎◌, Option, none, some, List, [], ◌∷◌, ◌++◌,
  map, ◌==◌, if◌then◌else◌, All, arith, Bool-cases, ==_iff,
}
use couchbase_lite_ios.Base.Bytes.{Bytes}
use couchbase_lite_ios.Base.Collections.{CollectionUtils, map_block}
use couchbase_lite_ios.Base.Int.{pos, negsuc}
use couchbase_lite_ios.RevId.{
  TreeRevId, string, as_string, make_from, history_dict, make_revision_history_dict, parse_item,
  parse_revision_history_dict,
}
use couchbase_lite_ios.RevId.Canonical.{
  IsCanonical, generation-IsCanonical, suffix-IsCanonical, as_string-IsCanonical,
  format_int-IsCanonical,
}
use mathlib.Core.Option
use mathlib.Core.Path.{subst}
use mathlib.Core.List.{append_assoc, append-nil}

pub record IsTreeId (r : TreeRevId) : Type 0 where
  pub gen : ℕ
  pub rest : Bytes
  pub canonical : IsCanonical r gen rest

-- Revision IDs of the generations n, n - 1 and so on, with their suffixes.
data Run : ℕ → List TreeRevId → List Bytes → Type 0 where
  done : {n : ℕ} → Run n [] []
  more :
      {n : ℕ} {r : TreeRevId} {s : Bytes} {rs : List TreeRevId} {ss : List Bytes}
      → IsCanonical r (suc n) s
      → Run n rs ss
      → Run (suc n) (r ∷ rs) (s ∷ ss)

parse_item-IsCanonical :
    {n : ℕ} {r : TreeRevId} {s : Bytes}
    → IsCanonical r (suc n) s
    → parse_item (pos (suc n)) (string s) ≡ (pos n, some r)
unfolding parse_item
parse_item-IsCanonical c = rw (format_int-IsCanonical c) (ground arith)

map_block-Run :
    {n : ℕ} {rs : List TreeRevId} {ss : List Bytes}
    → Run n rs ss
    → map_block parse_item (pos n) (map string ss) ≡ rs
map_block-Run done = refl
map_block-Run (more {r} c run) = rw (parse_item-IsCanonical c) (ap (◌∷◌ r) (map_block-Run run))

map_block-full : (rs : List TreeRevId) → map_block parse_item (pos 0) (map string rs) ≡ rs
unfolding parse_item
map_block-full [] = refl
map_block-full (r ∷ rs) = ap (◌∷◌ r) (map_block-full rs)

map_block-as_string :
    (rs : List TreeRevId)
    → All IsTreeId rs
    → map_block (λ (t : Unit {0}) r. (t, Option.map string (as_string r))) tt rs ≡ map string rs
map_block-as_string [] h = refl
map_block-as_string (r ∷ rs) h =
    rw (as_string-IsCanonical h.0.canonical) (ap (◌∷◌ (string r)) (map_block-as_string rs h.1))

module _ {r : TreeRevId} {gen : ℕ} {s : Bytes} (c : IsCanonical r gen s) where
  make_from-first :
      (rs : List TreeRevId)
      → make_from [] none (negsuc 0) (r ∷ rs) ≡ make_from (s ∷ []) (some gen) (pos gen) rs
  unfolding make_from
  make_from-first rs = ground (arith, suffix-IsCanonical c, generation-IsCanonical c, c.gen_pos)

  make_from-next :
      (rs : List TreeRevId) (suffixes : List Bytes) (start n : ℕ)
      → make_from suffixes (some start) (pos (suc n)) (r ∷ rs) ≡ (
          if gen == n
          then make_from (suffixes ++ s ∷ []) (some start) (pos gen) rs
          else (none, suffixes))
  unfolding make_from
  make_from-next rs suffixes start n =
      rw (suffix-IsCanonical c, make_from, generation-IsCanonical c) (ground (arith, c.gen_pos))

step :
    {r : TreeRevId} {n : ℕ} {s : Bytes} (rs : List TreeRevId) (suffixes : List Bytes) (start : ℕ)
    → IsCanonical r (suc n) s
    → make_from suffixes (some start) (pos (suc (suc n))) (r ∷ rs)
      ≡ make_from (suffixes ++ s ∷ []) (some start) (pos (suc n)) rs
step {n} rs suffixes start c = ground (arith, make_from-next c rs suffixes start (suc n))

-- What the loop leaves, once `start` is set and the last generation was n + 1.
abbrev Outcome : ℕ → ℕ → List Bytes → List TreeRevId → Option ℕ × List Bytes → Type 0
Outcome start n suffixes rs result =
    (result.0 ≡ none) ⊎ ((ss : List Bytes) × (result ≡ (some start, suffixes ++ ss)) × Run n rs ss)

make_from-same :
    {r : TreeRevId} {n : ℕ} {s : Bytes} (rs : List TreeRevId) (suffixes : List Bytes) (start : ℕ)
    → IsCanonical r (suc n) s
    → Outcome start n
        (suffixes ++ s ∷ [])
        rs
        (make_from (suffixes ++ s ∷ []) (some start) (pos (suc n)) rs)
    → Outcome start
        (suc n)
        suffixes
        (r ∷ rs)
        (make_from suffixes (some start) (pos (suc (suc n))) (r ∷ rs))
make_from-same {r} {n} {s} rs suffixes start c (inl e) =
    inl (ap (λ t. t.0) (step rs suffixes start c) ∙ e)
make_from-same {r} {n} {s} rs suffixes start c (inr (ss, e, run)) =
    inr (s ∷ ss, step rs suffixes start c ∙ e ∙ rw append_assoc, more c run)

make_from-Outcome :
    (rs : List TreeRevId) (suffixes : List Bytes) (start n : ℕ)
    → All IsTreeId rs
    → Outcome start n suffixes rs (make_from suffixes (some start) (pos (suc n)) rs)
make_from-Outcome [] suffixes start n h = inr ([], unfold make_from in rw append-nil, done)
make_from-Outcome (r ∷ rs) suffixes start zero h =
    inl (
      rw (make_from-next h.0.canonical rs suffixes start 0) (ground (arith, h.0.canonical.gen_pos)))
make_from-Outcome (r ∷ rs) suffixes start (suc n) h = elim (Bool-cases (h.0.gen == suc n)) [
  | inl same ↦
      make_from-same rs suffixes start
        (subst (λ g. IsCanonical r g h.0.rest) ((==_iff _ _).0 same) h.0.canonical)
        (make_from-Outcome rs (suffixes ++ h.0.rest ∷ []) start n h.1)
  | inr differ ↦ inl (rw (make_from-next h.0.canonical rs suffixes start (suc n), differ) refl)
]

module _ (u : CollectionUtils) where
  open u use {my_map, my_map_lem}

  read-full :
      (history : List TreeRevId) (suffixes : List Bytes)
      → All IsTreeId history
      → parse_revision_history_dict u (some (history_dict u history (none, suffixes)))
        ≡ some history
  unfolding parse_revision_history_dict history_dict
  read-full history suffixes h =
      ap some (simp (my_map_lem, map_block-as_string history h) (map_block-full history))

  read-Run :
      {n : ℕ} (history : List TreeRevId) (ss : List Bytes)
      → Run n history ss
      → parse_revision_history_dict u (some (history_dict u history (some n, ss))) ≡ some history
  unfolding parse_revision_history_dict history_dict
  read-Run history ss run = ap some (my_map_lem _ _ _ _ _ _ ∙ map_block-Run run)

  read-Outcome :
      {r : TreeRevId} {n : ℕ} {s : Bytes} (rs : List TreeRevId) (result : Option ℕ × List Bytes)
      → IsCanonical r (suc n) s
      → All IsTreeId (r ∷ rs)
      → Outcome (suc n) n (s ∷ []) rs result
      → parse_revision_history_dict u (some (history_dict u (r ∷ rs) result)) ≡ some (r ∷ rs)
  read-Outcome {r} rs (start, suffixes) c h (inl e) = rw e (read-full (r ∷ rs) suffixes h)
  read-Outcome {r} {n} {s} rs result c h (inr (ss, e, run)) =
      rw e (read-Run (r ∷ rs) (s ∷ ss) (more c run))

  read-cons :
      {r : TreeRevId} {n : ℕ} {s : Bytes} (rs : List TreeRevId)
      → IsCanonical r (suc n) s
      → All IsTreeId (r ∷ rs)
      → parse_revision_history_dict u (make_revision_history_dict u (some (r ∷ rs))) ≡ some (r ∷ rs)
  unfolding make_revision_history_dict
  read-cons {n} {s} rs c h =
      rw (make_from-first c rs)
        (read-Outcome rs _ c h (make_from-Outcome rs (s ∷ []) (suc n) n h.1))

  -- A history of revision IDs that the program writes comes back unchanged from its `_revisions`
  -- dictionary, whether or not its generations descend one by one.
  pub parse-make :
      (history : List TreeRevId)
      → All IsTreeId history
      → parse_revision_history_dict u (make_revision_history_dict u (some history)) ≡ some history
  parse-make [] h = unfold make_revision_history_dict make_from in read-full [] [] h
  parse-make (r ∷ rs) h =
      read-cons {n = h.0.gen - 1} rs
        (subst (λ g. IsCanonical r g h.0.rest) (omega (arith, h.0.canonical.gen_pos)) h.0.canonical)
        h
