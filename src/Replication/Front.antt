-- ===== src/Replication/Front.antt =====
-- Source/API/CBLReplication.h and CBLReplication.m: the replication object of the main thread. A `nil` is
-- `none`. URLs, errors, dictionaries and authenticators are of types that only the system's frameworks and
-- the application look into. Cookies, credentials and the server's certificate are left out.
use couchbase_lite_ios.Base.{
  ℕ, ◌+◌, ◌%◌, ◌^◌, Bool, true, false, not, ◌||◌, Option, none, some, List, [], ◌∷◌, ◌==◌,
  if◌then◌else◌,
}
use couchbase_lite_ios.Base.Int.{ℤ, pos, negsuc, eq_ℤ}
use couchbase_lite_ios.Base.Bytes.{Bytes, codes, equal}
use couchbase_lite_ios.Revision.{equal_or_nil, is_equal_id}

pub data ReplicationStatus : Type 0 where
  stopped offline idle active : ReplicationStatus

-- `status > kCBLReplicationStopped`
abbrev pub is_running : ReplicationStatus → Bool
is_running stopped = false
is_running offline = true
is_running idle = true
is_running active = true

unfoldable pub same_status : ReplicationStatus → ReplicationStatus → Bool
same_status stopped stopped = true
same_status offline offline = true
same_status idle idle = true
same_status active active = true
same_status _ _ = false

pub record FrontTypes : Type 1 where
  pub Url : Type 0
  pub Dictionary : Type 0
  pub Error : Type 0
  pub Authenticator : Type 0
  pub same_error : Error → Error → Bool
  pub same_dictionary : Dictionary → Dictionary → Bool
  pub user : Url → Option Bytes
  pub username_of : Authenticator → Option (Option Bytes)
  pub components_separated : Bytes → List Bytes
  pub components_joined : List Bytes → Bytes

abbrev pub by_channel_filter : Bytes
by_channel_filter = codes "sync_gateway/bychannel"

abbrev pub channels_param : Bytes
channels_param = codes "channels"

-- `$equal` of two optional values.
abbrev pub same_given : {A : Type 0} → (A → A → Bool) → Option A → Option A → Bool
same_given test none none = true
same_given test (some a) (some b) = test a b
same_given test _ _ = false

-- `dictionary[key]` of a dictionary of strings that may be nil.
unfoldable pub param : Bytes → Option (List (Bytes × Bytes)) → Option Bytes
param key none = none
param key (some []) = none
param key (some ((k, v) ∷ rest)) =
    let later = param key (some rest) in if equal k key then some v else later

module _ (types : FrontTypes) where
  open types use {
    Url, Dictionary, Error, Authenticator, same_error, same_dictionary, user, username_of,
    components_separated, components_joined,
  }

  -- The section "OPTIONS" of the header.
  pub record Options : Type 0 where
    pub create_target : Bool
    pub continuous : Bool
    pub filter : Option Bytes
    pub filter_params : Option (List (Bytes × Bytes))
    pub document_ids : Option (List Bytes)
    pub downloads_attachments : Bool
    pub headers : Option Dictionary
    pub network : Option Bytes
    pub custom_properties : Option Dictionary

  -- The section "STATUS" of the header.
  pub record Progress : Type 0 where
    pub status : ReplicationStatus
    pub running : Bool
    pub last_error : Option Error
    pub completed_changes_count : ℕ
    pub changes_count : ℕ

  -- The replication, with its instance variables; `registered` is its place in the list of the database's
  -- replications, `notifications` counts the change notifications that were posted.
  pub record Replication : Type 0 where
    pub remote_url : Url
    pub pull : Bool
    pub options : Options
    pub authenticator : Option Authenticator
    pub username : Option Bytes
    pub progress : Progress
    pub started : Bool
    pub last_sequence_pushed : ℤ
    pub pending_doc_ids : Option (List Bytes)
    pub registered : Bool
    pub notifications : ℕ

  -- The arguments of `updateStatus:error:processed:ofTotal:lastSeqPushed:serverCert:`.
  pub record Update : Type 0 where
    pub status : ReplicationStatus
    pub error : Option Error
    pub processed : ℕ
    pub total : ℕ
    pub last_seq_pushed : ℤ

  -- `initWithDatabase:remote:pull:`
  unfoldable pub init_with_database : Url → Bool → Replication
  init_with_database remote pull = record {
    remote_url = remote;
    pull = pull;
    options = record {
      create_target = false;
      continuous = false;
      filter = none;
      filter_params = none;
      document_ids = none;
      downloads_attachments = true;
      headers = none;
      network = none;
      custom_properties = none;
    };
    authenticator = none;
    username = user remote;
    progress = record {
      status = stopped;
      running = false;
      last_error = none;
      completed_changes_count = 0;
      changes_count = 0;
    };
    started = false;
    last_sequence_pushed = pos 0;
    pending_doc_ids = none;
    registered = false;
    notifications = 0;
  }

  -- A replication that stops is not started any more, and is forgotten by its database.
  abbrev pub stop_if : ReplicationStatus → Replication → Replication
  stop_if stopped r = record r { started = false; registered = false }
  stop_if offline r = r
  stop_if idle r = r
  stop_if active r = r

  -- A new last sequence makes the cached document IDs invalid; a negative one is none.
  unfoldable pub set_last_sequence : ℤ → Replication → Replication
  set_last_sequence (negsuc n) r = r
  set_last_sequence (pos n) r =
      if eq_ℤ (pos n) r.last_sequence_pushed
      then r
      else record r { last_sequence_pushed = pos n; pending_doc_ids = none }

  abbrev pub to_unsigned : ℕ → ℕ
  to_unsigned n = n % 2 ^ 32

  unfoldable pub set_progress : Update → Progress → Progress
  set_progress u p = record {
    status = u.status;
    running = is_running u.status;
    last_error = if same_given same_error u.error p.last_error then p.last_error else u.error;
    completed_changes_count = to_unsigned u.processed;
    changes_count = to_unsigned u.total;
  }

  abbrev pub same_flag : Bool → Bool → Bool
  same_flag a b = if a then b else not b

  unfoldable pub progress_changed : Update → Progress → Bool
  unfolding same_status
  progress_changed u p =
      not (same_given same_error u.error p.last_error)
      || not (u.processed == p.completed_changes_count)
      || not (u.total == p.changes_count)
      || not (same_status u.status p.status)
      || not (same_flag (is_running u.status) p.running)

  -- The authenticator's user name, if it has that property.
  abbrev pub new_username : Replication → Option Bytes
  new_username r = elim r.authenticator [
    | none ↦ r.username
    | some a ↦ elim (username_of a) [ none ↦ r.username | some name ↦ name ]
  ]

  -- What an update does to a started replication.
  unfoldable pub updated : Update → Replication → Replication
  unfolding set_last_sequence set_progress progress_changed
  updated u r =
      let s = set_last_sequence u.last_seq_pushed (stop_if u.status r) in
      let changed =
        progress_changed u r.progress || not (equal_or_nil (new_username r) r.username) in
      record s {
        progress = set_progress u r.progress;
        username = new_username r;
        notifications = if changed then r.notifications + 1 else r.notifications;
      }

  unfoldable pub update_status : Update → Replication → Replication
  unfolding updated
  update_status u r = if not r.started then r else updated u r

  -- `channels`; the list of a length of 0 is nil.
  unfoldable pub channels : Replication → Option (List Bytes)
  unfolding param
  channels r =
      if not r.pull || not (is_equal_id r.options.filter (some by_channel_filter))
      then none
      else elim (param channels_param r.options.filter_params) [
        | none ↦ none
        | some [] ↦ none
        | some (c ∷ cs) ↦ some (components_separated (c ∷ cs))
      ]

  -- `setChannels:`, without the restart that the change of the filter entails; `none` is a failed
  -- assertion.
  unfoldable pub set_channels : Option (List Bytes) → Replication → Option Replication
  set_channels (some channels) r =
      if r.pull
      then some (record r {
        options = record r.options {
          filter = some by_channel_filter;
          filter_params = some ((channels_param, components_joined channels) ∷ []);
        };
      })
      else none
  set_channels none r =
      if is_equal_id r.options.filter (some by_channel_filter)
      then some (record r { options = record r.options { filter = none; filter_params = none } })
      else some r
