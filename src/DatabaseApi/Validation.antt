-- ===== src/DatabaseApi/Validation.antt =====
-- Source/API/CBLDatabase.h and Source/CBLDatabase+Insertion.m: the named validation functions of a database and
-- the context that they are given. Objects are compared by `equal_objects`. A validation function may raise an
-- exception; `none` is nil. The current revision is what `revisionByLoadingBody:` loads.
use couchbase_lite_ios.Base.{
  ℕ, Bool, true, false, not, ◌&&◌, Option, none, some, List, [], ◌∷◌, ◌++◌, if◌then◌else◌,
}
use couchbase_lite_ios.Base.Bytes.{Bytes, codes, equal}
use couchbase_lite_ios.Revision.{Revision, is_given}
use couchbase_lite_ios.Document.Properties.{PropertyTypes, Properties, object_for}
use mathlib.Core.Option

module _ (types : PropertyTypes) (Url : Type 0)
    (equal_objects : types.Object → types.Object → Bool) where
  open types use {Object}

  -- `rejection_message` is the one variable that the methods change.
  pub record ValidationContext : Type 0 where
    pub current_revision : Option (Revision (Properties types))
    pub new_properties : Properties types
    pub source : Option Url
    pub rejection_message : Option Bytes

  unfoldable pub init_with_database :
      Option (Revision (Properties types)) → Properties types → Option Url → ValidationContext
  init_with_database current new_properties source = record {
    current_revision = current;
    new_properties = new_properties;
    source = source;
    rejection_message = none;
  }

  abbrev pub current_properties : ValidationContext → Properties types
  current_properties context =
      Option.get_or
        (Option.bind context.current_revision (λ (rev : Revision (Properties types)). rev.body)) []

  unfoldable pub reject_with_message : Bytes → ValidationContext → ValidationContext
  reject_with_message message context =
      if is_given context.rejection_message
      then context
      else record context { rejection_message = some message }

  unfoldable pub reject : ValidationContext → ValidationContext
  unfolding reject_with_message
  reject = reject_with_message (codes "invalid document")

  -- `$equal`
  abbrev pub same_object : Option Object → Option Object → Bool
  same_object none none = true
  same_object (some a) (some b) = equal_objects a b
  same_object _ _ = false

  -- The keys of the current revision whose values differ.
  unfoldable pub changed_from : Properties types → Properties types → Properties types → List Bytes
  unfolding object_for
  changed_from cur new [] = []
  changed_from cur new ((k, v) ∷ rest) =
      let others = changed_from cur new rest in
      if not (same_object (object_for types k cur) (object_for types k new))
        && not (equal k (codes "_rev"))
      then k ∷ others
      else others

  -- The keys that are new.
  unfoldable pub added_from : Properties types → Properties types → List Bytes
  unfolding object_for
  added_from cur [] = []
  added_from cur ((k, v) ∷ rest) =
      let others = added_from cur rest in
      if not (is_given (object_for types k cur))
        && not (equal k (codes "_rev"))
        && not (equal k (codes "_id"))
      then k ∷ others
      else others

  unfoldable pub changed_keys : ValidationContext → List Bytes
  unfolding changed_from added_from
  changed_keys context =
      changed_from (current_properties context) context.new_properties (current_properties context)
      ++ added_from (current_properties context) context.new_properties

  abbrev pub illegal_change : Bytes → Bytes
  illegal_change key = codes "Illegal change to '" ++ key ++ codes "' property"

  -- The loop of `validateChanges:` over these keys.
  unfoldable pub validate_keys :
      (Bytes → Option Object → Option Object → Bool)
      → List Bytes
      → ValidationContext
      → Bool × ValidationContext
  unfolding object_for reject_with_message
  validate_keys enumerator [] context = (true, context)
  validate_keys enumerator (key ∷ keys) context =
      let rest = validate_keys enumerator keys context in
      if enumerator key (object_for types key (current_properties context))
        (object_for types key context.new_properties)
      then rest
      else (false, reject_with_message (illegal_change key) context)

  unfoldable pub validate_changes :
      (Bytes → Option Object → Option Object → Bool) → ValidationContext → Bool × ValidationContext
  unfolding validate_keys changed_keys
  validate_changes enumerator context = validate_keys enumerator (changed_keys context) context

  -- The methods of the protocol.
  pub record ValidationClass (C : Type 0) : Type 0 where
    pub current_revision : C → Option (Revision (Properties types))
    pub source : C → Option Url
    pub reject : C → C
    pub reject_with_message : Bytes → C → C
    pub changed_keys : C → List Bytes
    pub validate_changes : (Bytes → Option Object → Option Object → Bool) → C → Bool × C

  unfoldable pub validation_context : ValidationClass ValidationContext
  validation_context = record {
    current_revision = λ context. context.current_revision;
    source = λ context. context.source;
    reject = reject;
    reject_with_message = reject_with_message;
    changed_keys = changed_keys;
    validate_changes = validate_changes;
  }

  -- A validation function: the context after it, or an exception.
  abbrev pub ValidationBlock : Type 0
  ValidationBlock = Revision (Properties types) → ValidationContext → Option ValidationContext

  abbrev pub after_block :
      (ValidationContext → ℕ × Option Bytes) → Option ValidationContext → ℕ × Option Bytes
  after_block next none = (593, none)
  after_block next (some context) =
      if is_given context.rejection_message then (403, context.rejection_message) else next context

  -- The loop of `validateRevision:`: its status, and the message of a rejection.
  unfoldable pub run_blocks :
      List (Bytes × ValidationBlock)
      → Revision (Properties types)
      → ValidationContext
      → ℕ × Option Bytes
  run_blocks [] rev context = (200, none)
  run_blocks ((name, block) ∷ blocks) rev context =
      after_block (run_blocks blocks rev) (block rev context)

  unfoldable pub validate_revision :
      List (Bytes × ValidationBlock)
      → Revision (Properties types)
      → Option (Revision (Properties types))
      → Option Url
      → ℕ × Option Bytes
  unfolding run_blocks init_with_database
  validate_revision blocks rev old source =
      run_blocks blocks rev (init_with_database old (Option.get_or rev.body []) source)

-- The blocks of a kind that are registered under a name, in `CBL_Shared`.
module _ (Block : Type 0) where
  abbrev pub Blocks : Type 0
  Blocks = List (Bytes × Block)

  unfoldable pub block_named : Bytes → Blocks → Option Block
  block_named name [] = none
  block_named name ((n, b) ∷ blocks) =
      let later = block_named name blocks in if equal n name then some b else later

  unfoldable pub without : Bytes → Blocks → Blocks
  without name [] = []
  without name ((n, b) ∷ blocks) =
      let others = without name blocks in if equal n name then others else (n, b) ∷ others

  -- `setValidationNamed:asBlock:` and `setFilterNamed:asBlock:`, where nil clears the name.
  unfoldable pub set_block_named : Bytes → Option Block → Blocks → Blocks
  unfolding without
  set_block_named name none blocks = without name blocks
  set_block_named name (some block) blocks = (name, block) ∷ without name blocks

  -- The methods of the header on validations or filters.
  pub record BlockRegistry (R : Type 0) : Type 0 where
    pub set_named : Bytes → Option Block → R → R
    pub named : Bytes → R → Option Block

  unfoldable pub block_registry : BlockRegistry Blocks
  block_registry = record { set_named = set_block_named; named = block_named }
