-- ===== src/DatabaseApi/Verdict.antt =====
-- Source/CBLDatabase+Insertion.m: when a revision is valid.
use couchbase_lite_ios.Base.{
  ℕ, ◌≡◌, ◌↔◌, refl, sym, ap, ◌∙◌, Bool, true, false, Option, none, some, List, [], ◌∷◌, arith, All,
}
use couchbase_lite_ios.Base.Bytes.{Bytes}
use couchbase_lite_ios.Revision.{Revision, is_given}
use couchbase_lite_ios.Document.Properties.{PropertyTypes, Properties, object_for}
use couchbase_lite_ios.DatabaseApi.Validation.{
  ValidationContext, ValidationBlock, init_with_database, current_properties, changed_keys,
  validate_keys, validate_changes, after_block, run_blocks, validate_revision,
}
use couchbase_lite_ios.Differ.Steps.{pick-lem}
use mathlib.Core.Option
use mathlib.Core.Path.{subst}

module _ (types : PropertyTypes) (Url : Type 0)
    (equal_objects : types.Object → types.Object → Bool) where
  -- Every validation function, run on the context that the ones before it left, returns and does not reject.
  abbrev pub AllAccept :
      List (Bytes × ValidationBlock types Url equal_objects)
      → Revision (Properties types)
      → ValidationContext types Url equal_objects
      → Type 0
  AllAccept [] rev context = Unit
  AllAccept ((name, block) ∷ blocks) rev context =
      (context' : ValidationContext types Url equal_objects) × (block rev context ≡ some context')
      × (context'.rejection_message ≡ none)
      × AllAccept blocks rev context'

  -- Allowed changes: the enumerator accepts the values of the key.
  abbrev pub Allowed :
      (Bytes → Option types.Object → Option types.Object → Bool)
      → ValidationContext types Url equal_objects
      → Bytes
      → Type 0
  Allowed enumerator context key =
      enumerator key (object_for types key (current_properties types Url equal_objects context))
        (object_for types key context.new_properties)
      ≡ true

  validate_keys-Allowed :
      (enumerator : Bytes → Option types.Object → Option types.Object → Bool) (keys : List Bytes)
      (context : ValidationContext types Url equal_objects)
      → ((validate_keys types Url equal_objects enumerator keys context).0 ≡ true)
        ↔ All (Allowed enumerator context) keys
  unfolding validate_keys
  validate_keys-Allowed enumerator [] context = (λ h. tt, λ h. refl)
  validate_keys-Allowed enumerator (key ∷ keys) context =
      pick-lem
        (λ (r : Bool × ValidationContext types Url equal_objects).
          (r.0 ≡ true) ↔ (Allowed enumerator context key × All (Allowed enumerator context) keys))
        (enumerator key (object_for types key (current_properties types Url equal_objects context))
          (object_for types key context.new_properties))
        _ _
        (λ e. (
          λ h. (e, (validate_keys-Allowed enumerator keys context).0 h),
          λ k. (validate_keys-Allowed enumerator keys context).1 k.1,
        ))
        (λ e. (λ h. cc h, λ k. cc (k.0, e)))

  -- `validateChanges:` returns YES exactly when the block accepts the old and the new value of every changed key.
  pub validate_changes-Allowed :
      (enumerator : Bytes → Option types.Object → Option types.Object → Bool)
      (context : ValidationContext types Url equal_objects)
      → ((validate_changes types Url equal_objects enumerator context).0 ≡ true)
        ↔ All (Allowed enumerator context) (changed_keys types Url equal_objects context)
  unfolding validate_changes
  validate_changes-Allowed enumerator context = validate_keys-Allowed enumerator _ context

  -- The rest of the loop, after a block that returned `o`.
  abbrev Accepts :
      Option (ValidationContext types Url equal_objects)
      → List (Bytes × ValidationBlock types Url equal_objects)
      → Revision (Properties types)
      → Type 0
  Accepts o blocks rev =
      (context' : ValidationContext types Url equal_objects) × (o ≡ some context')
      × (context'.rejection_message ≡ none)
      × AllAccept blocks rev context'

  some_injective : {A : Type 0} {x y : A} → some x ≡ some y → x ≡ y
  some_injective h = cc h

  given-none : {A : Type 0} (o : Option A) → is_given o ≡ false → o ≡ none
  given-none none h = refl
  given-none (some a) h = cc h

  after_block-Accepts :
      (blocks : List (Bytes × ValidationBlock types Url equal_objects))
      (rev : Revision (Properties types)) (o : Option (ValidationContext types Url equal_objects))
      → ((context : ValidationContext types Url equal_objects)
          → ((run_blocks types Url equal_objects blocks rev context).0 ≡ 200)
            ↔ AllAccept blocks rev context)
      → ((after_block types Url equal_objects (run_blocks types Url equal_objects blocks rev) o).0
          ≡ 200)
        ↔ Accepts o blocks rev
  after_block-Accepts blocks rev none rest =
      (λ h. absurd (omega (arith, h)), λ k. let (context', e, none_given, more) = k in cc e)
  after_block-Accepts blocks rev (some context) rest =
      pick-lem (λ (r : ℕ × Option Bytes). (r.0 ≡ 200) ↔ Accepts (some context) blocks rev)
        (is_given context.rejection_message) _ _
        (λ rejected. (
          λ h. absurd (omega (arith, h)),
          λ k.
              let (context', e, none_given, more) = k in
              let same : context.rejection_message ≡ none =
                ap (λ (c : ValidationContext types Url equal_objects). c.rejection_message)
                  (some_injective e)
                ∙ none_given in
              let clash : is_given context.rejection_message ≡ false = ap (λ o. is_given o) same in
              cc (rejected, clash),
        ))
        (λ accepted. (
          λ h. (context, refl, given-none context.rejection_message accepted, (rest context).0 h),
          λ k.
              let (context', e, none_given, more) = k in
              (rest context).1 (subst (λ c. AllAccept blocks rev c) (sym (some_injective e)) more),
        ))

  run_blocks-AllAccept :
      (blocks : List (Bytes × ValidationBlock types Url equal_objects))
      (rev : Revision (Properties types)) (context : ValidationContext types Url equal_objects)
      → ((run_blocks types Url equal_objects blocks rev context).0 ≡ 200)
        ↔ AllAccept blocks rev context
  unfolding run_blocks
  run_blocks-AllAccept [] rev context = (λ h. tt, λ k. refl)
  run_blocks-AllAccept ((name, block) ∷ blocks) rev context =
      after_block-Accepts blocks rev (block rev context)
        (λ context'. run_blocks-AllAccept blocks rev context')

  -- A revision is valid, with status 200, exactly when every validation function, one after the other, returns
  -- without raising an exception and leaves no rejection.
  pub validate_revision-AllAccept :
      (blocks : List (Bytes × ValidationBlock types Url equal_objects))
      (rev : Revision (Properties types)) (old : Option (Revision (Properties types)))
      (source : Option Url)
      → ((validate_revision types Url equal_objects blocks rev old source).0 ≡ 200)
        ↔ AllAccept blocks rev
            (init_with_database types Url equal_objects old (Option.get_or rev.body []) source)
  unfolding validate_revision
  validate_revision-AllAccept blocks rev old source = run_blocks-AllAccept blocks rev _
