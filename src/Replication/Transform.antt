-- ===== src/Replication/Transform.antt =====
-- Source/CBL_ReplicatorSettings.m: what the hook on revisions can change, and how the network option is
-- read.
use couchbase_lite_ios.Base.{
  ℕ, ◌≡◌, refl, sym, ap, ◌⊎◌, inl, inr, Bool, true, false, not, ◌&&◌, ◌||◌, Option, none, some,
  List, [], ◌∷◌, if◌then◌else◌, All, arith, Bool-cases, Option-cases,
}
use couchbase_lite_ios.Base.Bytes.{Bytes, codes, equal, equal_sound}
use couchbase_lite_ios.RevId.{generation}
use couchbase_lite_ios.Revision.{equal_or_nil, is_given}
use couchbase_lite_ios.Replication.Settings.{
  SettingsTypes, ReplicatorSettings, Attachment, Transformable, Transformed, raised, dropped, same,
  changed, set_revpos, set_all_revpos, accept, transformed, transform_revision, network,
  can_use_cell_network, is_host_reachable,
}
use mathlib.Core.Path.{subst}
use Prim.Native.String.{String}

abbrev pub HaveRevpos : Option (List Attachment) → Type 0
HaveRevpos none = Unit {0}
HaveRevpos (some list) = All (λ (a : Attachment). is_given a.revpos ≡ true) list

-- The same revision, or another body of it whose attachments all have a `revpos`.
pub record IsBodyOf (rev x : Transformable) : Type 0 where
  pub doc_is : x.doc_id ≡ rev.doc_id
  pub rev_is : x.rev_id ≡ rev.rev_id
  pub revisions_are : x.revisions ≡ rev.revisions
  pub revpos_given : (x ≡ rev) ⊎ HaveRevpos x.attachments

IsBodyOf-refl : (rev : Transformable) → IsBodyOf rev rev
IsBodyOf-refl rev = record {
  doc_is = refl;
  rev_is = refl;
  revisions_are = refl;
  revpos_given = inl refl;
}

both : (a b : Bool) → (a && b) ≡ true → (a ≡ true) × (b ≡ true)
both a b h = ground arith

some_injective : {A : Type 0} (x y : A) → some x ≡ some y → x ≡ y
some_injective x y h = cc

equal_or_nil_sound : (o p : Option Bytes) → equal_or_nil o p ≡ true → o ≡ p
equal_or_nil_sound none none h = refl
equal_or_nil_sound none (some b) h = cc
equal_or_nil_sound (some a) none h = cc
equal_or_nil_sound (some a) (some b) h = ap some (equal_sound a b h)

module _ (types : SettingsTypes) where
  set_revpos-given :
      (gen : ℕ) (a b : Attachment) → set_revpos types gen a ≡ some b → is_given b.revpos ≡ true
  set_revpos-given gen a b h = ground arith

  set_all_revpos-given :
      (gen : ℕ) (given list : List Attachment)
      → set_all_revpos types gen given ≡ some list
      → HaveRevpos (some list)
  unfolding set_all_revpos
  set_all_revpos-given gen [] list h = rw (← some_injective [] list h) tt
  set_all_revpos-given gen (a ∷ given) list h = elim (Option-cases (set_revpos types gen a)) [
    | inl nothing ↦ cc (rw (set_all_revpos, nothing) at h)
    | inr (b, set) ↦ elim (Option-cases (set_all_revpos types gen given)) [
      | inl nothing ↦ cc (rw (set_all_revpos, set, nothing) at h)
      | inr (bs, rest) ↦
          rw (← some_injective (b ∷ bs) list (rw (set_all_revpos, set, rest) at h))
            (set_revpos-given gen a b set, set_all_revpos-given gen given bs rest)
    ]
  ]

  accept-IsBodyOf : (rev x y : Transformable) → accept types rev x ≡ some y → IsBodyOf rev y
  unfolding accept
  accept-IsBodyOf rev x y h =
      elim (Bool-cases (
        equal x.doc_id rev.doc_id
        && equal x.rev_id rev.rev_id
        && equal_or_nil x.revisions rev.revisions)) [
          | inr fails ↦ cc (rw (accept, fails) at h)
          | inl passes ↦
              let (ids, revisions) = both _ _ passes in
              let (doc, id) = both _ _ ids in
              elim (Option-cases x.attachments) [
                | inl nothing ↦
                    rw (← some_injective x y (rw (accept, passes, nothing) at h)) (record {
                      doc_is = equal_sound x.doc_id rev.doc_id doc;
                      rev_is = equal_sound x.rev_id rev.rev_id id;
                      revisions_are = equal_or_nil_sound x.revisions rev.revisions revisions;
                      revpos_given = inr (rw nothing tt);
                    })
                | inr (given, some_given) ↦
                    elim (Option-cases (set_all_revpos types (generation rev.rev_id) given)) [
                      | inl fails ↦ cc (rw (accept, passes, some_given, fails) at h)
                      | inr (list, set) ↦
                          let shape : record x { attachments = some list } ≡ y =
                            some_injective _ _ (rw (accept, passes, some_given, set) at h) in
                          rw (← shape) (record {
                            doc_is = equal_sound x.doc_id rev.doc_id doc;
                            rev_is = equal_sound x.rev_id rev.rev_id id;
                            revisions_are = equal_or_nil_sound x.revisions rev.revisions revisions;
                            revpos_given =
                                inr (set_all_revpos-given (generation rev.rev_id) given list set);
                          })
                    ]
              ]
        ]

  transformed-IsBodyOf :
      (rev x : Transformable) (t : Transformed) → transformed types rev t ≡ some x → IsBodyOf rev x
  transformed-IsBodyOf rev x raised h = rw (← some_injective rev x h) (IsBodyOf-refl rev)
  transformed-IsBodyOf rev x dropped h = cc
  transformed-IsBodyOf rev x same h = rw (← some_injective rev x h) (IsBodyOf-refl rev)
  transformed-IsBodyOf rev x (changed y) h = elim (Option-cases (accept types rev y)) [
    | inl fails ↦ rw (← some_injective rev x (rw fails at h)) (IsBodyOf-refl rev)
    | inr (z, accepted) ↦
        rw (← some_injective z x (rw accepted at h)) (accept-IsBodyOf rev y z accepted)
  ]

  -- Whatever the transformation block does, a revision that comes out of it has the IDs and the revision
  -- history of the one that went in; and if it is another one, each of its attachments has a `revpos`.
  pub transform_revision-IsBodyOf :
      (s : ReplicatorSettings types) (rev x : Transformable)
      → transform_revision types s rev ≡ some x
      → IsBodyOf rev x
  unfolding transform_revision
  transform_revision-IsBodyOf s rev x h = elim (Option-cases s.transformation) [
    | inl nothing ↦
        rw (← some_injective rev x (rw (transform_revision, nothing) at h)) (IsBodyOf-refl rev)
    | inr (block, given) ↦
        transformed-IsBodyOf rev x (block rev) (rw (transform_revision, given) at h)
  ]

  -- The values of the network option that the header names, in lower case; none is for all networks.
  pub data IsNetwork : Option Bytes → Type 0 where
    any_network : IsNetwork none
    wifi : IsNetwork (some (codes "wifi"))
    not_cell : IsNetwork (some (codes "!cell"))
    cell : IsNetwork (some (codes "cell"))
    not_wifi : IsNetwork (some (codes "!wifi"))

  reachable_by_cell : Bool → Option Bytes → Bool
  reachable_by_cell reachable o = if not reachable then false else elim o [
    | none ↦ reachable
    | some n ↦
        if equal n (codes "wifi") || equal n (codes "!cell")
        then false
        else if equal n (codes "cell") || equal n (codes "!wifi")
        then not false
        else reachable
  ]

  may_use_cell : Option Bytes → Bool
  may_use_cell o = elim o [
    | none ↦ true
    | some n ↦ equal n (codes "cell") || equal n (codes "!wifi")
  ]

  reachable-may_use :
      (reachable : Bool) (o : Option Bytes)
      → IsNetwork o
      → reachable_by_cell reachable o ≡ (reachable && may_use_cell o)
  unfolding reachable_by_cell may_use_cell equal
  reachable-may_use false o k = refl
  reachable-may_use true _ any_network = refl
  reachable-may_use true _ wifi = refl
  reachable-may_use true _ not_cell = refl
  reachable-may_use true _ cell = refl
  reachable-may_use true _ not_wifi = refl

  -- With no network option, or one of the four values that the header names, a host that is not reached by
  -- WiFi counts as reachable exactly if it is reached and the cell network may be used.
  pub is_host_reachable-can_use_cell_network :
      (s : ReplicatorSettings types) (reachable : Bool)
      → IsNetwork (network types s)
      → is_host_reachable types (record { reachable = reachable; reachable_by_wifi = false }) s
        ≡ (reachable && can_use_cell_network types s)
  unfolding is_host_reachable can_use_cell_network reachable_by_cell may_use_cell
  is_host_reachable-can_use_cell_network s reachable k =
      reachable-may_use reachable (network types s) k

  -- With another value they disagree: the host counts as reachable, and the cell network as forbidden.
  pub is_host_reachable_unknown :
      (s : ReplicatorSettings types) (n : Bytes)
      → network types s ≡ some n
      → (IsNetwork (some n) → ⊥)
      → (is_host_reachable types (record { reachable = true; reachable_by_wifi = false }) s ≡ true)
        × (can_use_cell_network types s ≡ false)
  unfolding is_host_reachable can_use_cell_network
  is_host_reachable_unknown s n e other =
      rw
        (
          is_host_reachable,
          can_use_cell_network,
          e,
          unlike "wifi" (λ h. other (subst (λ m. IsNetwork (some m)) (sym h) wifi)),
          unlike "!cell" (λ h. other (subst (λ m. IsNetwork (some m)) (sym h) not_cell)),
          unlike "cell" (λ h. other (subst (λ m. IsNetwork (some m)) (sym h) cell)),
          unlike "!wifi" (λ h. other (subst (λ m. IsNetwork (some m)) (sym h) not_wifi)),
        )
        (refl, refl)
    where
      unlike : (w : String) → (n ≡ codes w → ⊥) → equal n (codes w) ≡ false
      unlike w differs = elim (Bool-cases (equal n (codes w))) [
        | inl it ↦ absurd (differs (equal_sound n (codes w) it))
        | inr fails ↦ fails
      ]
