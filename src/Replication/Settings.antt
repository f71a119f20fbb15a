-- ===== src/Replication/Settings.antt =====
-- Source/CBL_ReplicatorSettings.h and CBL_ReplicatorSettings.m: the settings of a replicator. A `nil` is
-- `none`; a dictionary is the list of its entries. URLs, numbers, blocks and authorizers are of types
-- that only the system's frameworks or the application look into; a block that raises an exception
-- returns `raised`.
use couchbase_lite_ios.Base.{
  ℕ, Bool, true, false, not, ◌&&◌, ◌||◌, Option, none, some, List, [], ◌∷◌, if◌then◌else◌,
}
use couchbase_lite_ios.Base.Bytes.{Bytes, codes, equal}
use couchbase_lite_ios.RevId.{TreeRevId, append_hex, generation}
use couchbase_lite_ios.Revision.{equal_or_nil, is_given}
use mathlib.Core.Option

-- A value of the dictionaries that Foundation reads from JSON, as far as the settings tell them apart.
pub data Json (Number Dictionary : Type 0) : Type 0 where
  string : Bytes → Json Number Dictionary
  boolean : Bool → Json Number Dictionary
  number : Number → Json Number Dictionary
  strings : List Bytes → Json Number Dictionary
  dictionary : Dictionary → Json Number Dictionary

pub record SettingsTypes : Type 1 where
  pub Number : Type 0
  pub Dictionary : Type 0
  pub Url : Type 0
  pub FilterBlock : Type 0
  pub Authorizer : Type 0
  pub absolute_string : Url → Bytes
  pub lowercase_string : Bytes → Bytes
  pub canonical_encoding : List (Bytes × Json Number Dictionary) → Bytes
  pub sha1 : Bytes → Bytes
  pub double_value : Json Number Dictionary → Number
  pub bool_value : Json Number Dictionary → Bool
  pub thousandth : Number → Number
  pub of_ℕ : ℕ → Number
  pub less : Number → Number → Bool
  pub id_filter : List Bytes → FilterBlock

-- An attachment's metadata, and a revision as the transformation block sees it.
pub record Attachment : Type 0 where
  pub name : Bytes
  pub revpos : Option ℕ
  pub has_data : Bool
  pub others : Bytes

pub record Transformable : Type 0 where
  pub doc_id : Bytes
  pub rev_id : TreeRevId
  pub revisions : Option Bytes
  pub attachments : Option (List Attachment)
  pub others : Bytes

-- What a `RevisionBodyTransformationBlock` does: it raises an exception, returns nil, the revision it
-- was given, or another one.
pub data Transformed : Type 0 where
  raised dropped same : Transformed
  changed : Transformable → Transformed

pub record Reachability : Type 0 where
  pub reachable : Bool
  pub reachable_by_wifi : Bool

module _ (types : SettingsTypes) where
  open types use {
    Number, Dictionary, Url, FilterBlock, Authorizer, absolute_string, lowercase_string,
    canonical_encoding, sha1, double_value, bool_value, thousandth, of_ℕ, less, id_filter,
  }

  abbrev pub Value : Type 0
  Value = Json Number Dictionary

  pub record ReplicatorSettings : Type 0 where
    pub remote : Url
    pub is_push : Bool
    pub continuous : Bool
    pub create_target : Bool
    pub filter_name : Option Bytes
    pub filter_block : Option FilterBlock
    pub filter_parameters : Option Dictionary
    pub doc_ids : Option (List Bytes)
    pub download_attachments : Bool
    pub options : List (Bytes × Value)
    pub request_headers : Option Dictionary
    pub authorizer : Option Authorizer
    pub transformation : Option (Transformable → Transformed)

  -- `initWithRemote:push:`
  unfoldable pub init_with_remote : Url → Bool → ReplicatorSettings
  init_with_remote remote push = record {
    remote = remote;
    is_push = push;
    continuous = false;
    create_target = false;
    filter_name = none;
    filter_block = none;
    filter_parameters = none;
    doc_ids = none;
    download_attachments = true;
    options = [];
    request_headers = none;
    authorizer = none;
    transformation = none;
  }

  -- `dictionary[key]`
  unfoldable pub lookup : Bytes → List (Bytes × Value) → Option Value
  lookup key [] = none
  lookup key ((k, v) ∷ rest) = let later = lookup key rest in if equal k key then some v else later

  -- `$mdict`: entries with nil are left out.
  unfoldable pub keep_given : List (Bytes × Option Value) → List (Bytes × Value)
  keep_given [] = []
  keep_given ((k, none) ∷ rest) = keep_given rest
  keep_given ((k, some v) ∷ rest) = (k, v) ∷ keep_given rest

  abbrev pub string_value : Bytes → Value
  string_value = string

  abbrev pub remote_uuid : ReplicatorSettings → Option Value
  remote_uuid s = lookup (codes "remoteUUID") s.options

  -- The URL counts only without a `remoteUUID`.
  abbrev pub remote_url : ReplicatorSettings → Option Value → Option Value
  remote_url s (some uuid) = none
  remote_url s none = some (string (absolute_string s.remote))

  unfoldable pub checkpoint_fields : Bytes → ReplicatorSettings → List (Bytes × Option Value)
  checkpoint_fields local_uuid s =
      (codes "localUUID", some (string local_uuid))
      ∷ (codes "push", some (boolean s.is_push))
      ∷ (codes "continuous", if s.continuous then none else some (boolean false))
      ∷ (codes "filter", Option.map string_value s.filter_name)
      ∷ (codes "filterParams", Option.map (λ d. dictionary d) s.filter_parameters)
      ∷ (codes "docids", Option.map (λ ids. strings ids) s.doc_ids)
      ∷ (codes "remoteUUID", remote_uuid s)
      ∷ (codes "remoteURL", remote_url s (remote_uuid s))
      ∷ []

  -- `remoteCheckpointDocIDForLocalUUID:`
  unfoldable pub remote_checkpoint_doc_id : Bytes → ReplicatorSettings → Bytes
  unfolding checkpoint_fields keep_given
  remote_checkpoint_doc_id local_uuid s =
      append_hex (sha1 (canonical_encoding (keep_given (checkpoint_fields local_uuid s))))

  abbrev pub same_flag : Bool → Bool → Bool
  same_flag a b = if a then b else not b

  -- `isEqual:` of two settings
  unfoldable pub is_equal : ReplicatorSettings → ReplicatorSettings → Bool
  unfolding remote_checkpoint_doc_id
  is_equal a b =
      same_flag a.is_push b.is_push
      && equal (remote_checkpoint_doc_id [] a) (remote_checkpoint_doc_id [] b)

  abbrev pub default_request_timeout : Number
  default_request_timeout = of_ℕ 60

  unfoldable pub request_timeout : ReplicatorSettings → Number
  request_timeout s = elim (lookup (codes "connection_timeout") s.options) [
    | none ↦ default_request_timeout
    | some v ↦
        if less (of_ℕ 0) (thousandth (double_value v))
        then thousandth (double_value v)
        else default_request_timeout
  ]

  -- `$castIf(NSNumber, …)`; a Boolean is a number too.
  abbrev pub is_number : Value → Bool
  is_number (number n) = true
  is_number (boolean b) = true
  is_number _ = false

  abbrev pub poll_seconds : Value → Number
  poll_seconds v =
      if is_number v
      then (if less (thousandth (double_value v)) (of_ℕ 30)
          then of_ℕ 0
          else thousandth (double_value v))
      else of_ℕ 0

  unfoldable pub poll_interval : ReplicatorSettings → Number
  poll_interval s =
      if s.continuous
      then elim (lookup (codes "poll") s.options) [ none ↦ of_ℕ 0 | some v ↦ poll_seconds v ]
      else of_ℕ 0

  abbrev pub lowercase_of : Option Value → Option Bytes
  lowercase_of (some (string s)) = some (lowercase_string s)
  lowercase_of _ = none

  -- The option "network" in lower case, if it is a string.
  unfoldable pub network : ReplicatorSettings → Option Bytes
  network s = lowercase_of (lookup (codes "network") s.options)

  unfoldable pub can_use_cell_network : ReplicatorSettings → Bool
  can_use_cell_network s = elim (network s) [
    | none ↦ true
    | some n ↦ equal n (codes "cell") || equal n (codes "!wifi")
  ]

  unfoldable pub is_host_reachable : Reachability → ReplicatorSettings → Bool
  is_host_reachable r s = if not r.reachable then false else elim (network s) [
    | none ↦ r.reachable
    | some n ↦
        if equal n (codes "wifi") || equal n (codes "!cell")
        then r.reachable_by_wifi
        else if equal n (codes "cell") || equal n (codes "!wifi")
        then not r.reachable_by_wifi
        else r.reachable
  ]

  unfoldable pub trust_reachability : ReplicatorSettings → Bool
  trust_reachability s =
      if is_given (lookup (codes "network") s.options)
      then true
      else elim (lookup (codes "trust_reachability") s.options) [
        | none ↦ true
        | some v ↦ bool_value v
      ]

  -- The block of `mutateAttachments:`; `none` is a failed assertion.
  abbrev pub set_revpos : ℕ → Attachment → Option Attachment
  set_revpos gen a = elim a.revpos [
    | some pos ↦ some a
    | none ↦ if a.has_data then some (record a { revpos = some gen }) else none
  ]

  unfoldable pub set_all_revpos : ℕ → List Attachment → Option (List Attachment)
  set_all_revpos gen [] = some []
  set_all_revpos gen (a ∷ rest) =
      let others = set_all_revpos gen rest in
      elim (set_revpos gen a) [ none ↦ none | some b ↦ Option.map (◌∷◌ b) others ]

  -- The checks on a revision that the block made, and its attachments; `none` is an exception.
  unfoldable pub accept : Transformable → Transformable → Option Transformable
  unfolding set_all_revpos
  accept rev x =
      if equal x.doc_id rev.doc_id
        && equal x.rev_id rev.rev_id
        && equal_or_nil x.revisions rev.revisions
      then elim x.attachments [
        | none ↦ some x
        | some given ↦
            Option.map (λ (bs : List Attachment). record x { attachments = some bs })
              (set_all_revpos (generation rev.rev_id) given)
      ]
      else none

  abbrev pub transformed : Transformable → Transformed → Option Transformable
  transformed rev raised = some rev
  transformed rev dropped = none
  transformed rev same = some rev
  transformed rev (changed x) = some (Option.get_or (accept rev x) rev)

  -- `transformRevision:`; an exception leaves the revision as it was.
  unfoldable pub transform_revision : ReplicatorSettings → Transformable → Option Transformable
  unfolding accept
  transform_revision s rev = elim s.transformation [
    | none ↦ some rev
    | some block ↦ transformed rev (block rev)
  ]

  -- `compilePushFilterForDatabase:status:`, where `load_filter` is the database's `loadFilterNamed:`;
  -- `none` is a failure.
  unfoldable pub compile_push_filter :
      (Bytes → Option FilterBlock) → ReplicatorSettings → Bool × ReplicatorSettings
  compile_push_filter load_filter s = if not s.is_push then (true, s) else elim s.filter_name [
    | some name ↦ (is_given (load_filter name), record s { filter_block = load_filter name })
    | none ↦ elim s.doc_ids [
      | none ↦ (true, s)
      | some ids ↦ (true, record s { filter_block = some (id_filter ids) })
    ]
  ]
