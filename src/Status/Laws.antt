-- ===== src/Status/Laws.antt =====
-- Source/CBLStatus.m: what becomes of a status that is reported over HTTP or as an error.
use couchbase_lite_ios.Base.{
  ℕ, ◌≡◌, refl, ap, sym, ◌∙◌, inl, inr, Bool, true, false, none, some, List, [], ◌∷◌, ◌&&◌, ◌==◌,
  leb, ltb, not, if◌then◌else◌, arith, Bool-cases,
}
use mathlib.Core.Path.{subst}
use couchbase_lite_ios.Base.Bytes.{Bytes, equal}
use couchbase_lite_ios.Base.Int.{ℤ, pos}
use couchbase_lite_ios.Status.{
  StatusMapEntry, status_map, is_error, find_status, Foundation, to_http_status, to_ns_error,
  to_out_ns_error, from_ns_error,
}

-- All entries pass a test.
abbrev all : (StatusMapEntry → Bool) → List StatusMapEntry → Bool
all test [] = true
all test (e ∷ rest) = test e && all test rest

-- An entry for an error, with an HTTP status that stands for itself.
abbrev is_final : StatusMapEntry → Bool
is_final e =
    ((find_status status_map e.http_status []).0 == e.http_status)
    && (leb 400 e.status && leb 400 e.http_status)

all_final : all is_final status_map ≡ true
unfolding find_status
all_final = refl

-- The message does not matter.
find_status_message :
    (es : List StatusMapEntry) (status : ℕ) (m m' : Bytes)
    → (find_status es status m).0 ≡ (find_status es status m').0
unfolding find_status
find_status_message [] status m m' = refl
find_status_message (e ∷ rest) status m m' = elim (Bool-cases (e.status == status)) [
  | inl hit ↦ rw hit refl
  | inr miss ↦ rw miss (find_status_message rest status m m')
]

abbrev IsFinal : ℕ → ℕ → Type 0
IsFinal status http =
    ((find_status status_map http []).0 ≡ http) × (is_error http ≡ is_error status)

and_split : (a b : Bool) → (a && b) ≡ true → (a ≡ true) × (b ≡ true)
and_split true b h = (refl, h)
and_split false b h = cc

entry-IsFinal :
    (e : StatusMapEntry) (status : ℕ)
    → is_final e ≡ true
    → (e.status == status) ≡ true
    → IsFinal status e.http_status
entry-IsFinal e status h hit =
    let (itself, bounds) = and_split _ _ h in
    (
      same (find_status status_map e.http_status []).0 e.http_status itself,
      errors e.status e.http_status bounds hit,
    )
  where
    same : (a b : ℕ) → (a == b) ≡ true → a ≡ b
    same a b h = ground arith

    errors :
        (s http : ℕ)
        → (leb 400 s && leb 400 http) ≡ true
        → (s == status) ≡ true
        → is_error http ≡ is_error status
    errors s http h hit = ground arith

find_status-IsFinal :
    (es : List StatusMapEntry) (status : ℕ) (m : Bytes)
    → all is_final es ≡ true
    → (find_status status_map status []).0 ≡ (find_status es status m).0
    → IsFinal status (find_status es status m).0
unfolding find_status
find_status-IsFinal [] status m h own = (own, refl)
find_status-IsFinal (e ∷ rest) status m h own =
    let (final, later) = and_split (is_final e) (all is_final rest) h in
    elim (Bool-cases (e.status == status)) [
      | inl hit ↦
          subst
            (λ b.
              IsFinal status
                (if b then (e.http_status, e.message) else find_status rest status m).0)
            (sym hit) (entry-IsFinal e status final hit)
      | inr miss ↦
          subst
            (λ b.
              IsFinal status
                (if b then (e.http_status, e.message) else find_status rest status m).0)
            (sym miss)
            (find_status-IsFinal rest status m later (
              own
              ∙ ap (λ b. (if b then (e.http_status, e.message) else find_status rest status m).0)
                  miss))
    ]

module _ (foundation : Foundation) where
  -- For every number, named as a status or not: its HTTP status is its own HTTP status, and is an
  -- error if and only if the number is one.
  pub to_http_status-final :
      (status : ℕ)
      → let http = (to_http_status foundation status).0 in
        ((to_http_status foundation http).0 ≡ http) × (is_error http ≡ is_error status)
  unfolding to_http_status
  to_http_status-final status =
      let message = foundation.localized_string status in
      let (own, errors) =
        find_status-IsFinal status_map status message all_final
          (find_status_message status_map status [] message) in
      (find_status_message status_map (find_status status_map status message).0 _ [] ∙ own, errors)

  -- The status read back from what CBLStatusToOutNSError stores is the HTTP status, or 200 for a
  -- number below 300, and the call returns true if and only if that status is no error. A default
  -- is not used.
  pub from_ns_error-to_out_ns_error :
      (status : ℕ) (default_status : ℤ)
      → let (succeeded, error) = to_out_ns_error foundation status in
        let http = (to_http_status foundation status).0 in
        (from_ns_error foundation error default_status ≡ pos (if ltb status 300 then 200 else http))
        × (succeeded ≡ not (is_error http))
  unfolding to_out_ns_error from_ns_error to_ns_error equal
  from_ns_error-to_out_ns_error status default_status =
      (stored (ltb status 300), ap not (sym (to_http_status-final status).1))
    where
      stored :
          (below : Bool)
          → from_ns_error foundation
              (if below then none else some (to_ns_error foundation status))
              default_status
            ≡ pos (if below then 200 else (to_http_status foundation status).0)
      stored true = refl
      stored false = refl
