-- ===== src/Replication/Restart.antt =====
-- Source/API/CBLReplication.m: what becomes of a restart, and of a list of channels.
use couchbase_lite_ios.Base.{
  ◌≡◌, ◌≢◌, refl, ap, ◌∙◌, inl, inr, true, false, Option, none, some, List, [], ◌∷◌, ◌++◌, All,
  Bool-cases,
}
use couchbase_lite_ios.Base.Bytes.{Bytes, equal}
use couchbase_lite_ios.Base.Int.{pos, negsuc}
use couchbase_lite_ios.Replication.Front.{
  stopped, FrontTypes, Replication, Update, updated, update_status, by_channel_filter,
  channels_param, param, channels, set_channels,
}
use couchbase_lite_ios.Replication.Machine.{
  starts_replicator, System, start, bg_update_progress, run_main, reported, report, stop, restart,
}
use couchbase_lite_ios.Replication.Reached.{set_last_sequence-started}
use couchbase_lite_ios.Differ.Steps.{pick-lem}
use mathlib.Core.Path.{subst}

module _ (types : FrontTypes) (Action : Type 0) where
  -- A started replication with a running replicator, all of whose queues are empty.
  pub record IsQuiet (s : System types Action) : Type 0 where
    pub front : Replication types
    pub last : Update types
    pub waiting : List Action
    pub done : List Action
    pub told : List Action
    pub state_is : s ≡ record {
      front = record front { started = true };
      database_open = true;
      replicator = some last;
      pending_actions = waiting;
      server_queue = [];
      main_queue = [];
      performed = done;
      asked = told;
    }

  start-started :
      (s : System types Action)
      → s.database_open ≡ true
      → s.front.started ≡ false
      → ((start types Action s).front.started ≡ true)
        × ((start types Action s).server_queue ≡ s.server_queue ++ (starts_replicator ∷ []))
  unfolding start update_status updated
  start-started s opened off =
      rw (start, opened, off)
        (set_last_sequence-started types (pos 0) (record s.front { started = true }), refl)

  stop_update : Update types → Replication types → Update types
  stop_update u r = reported types Action r (record u { status = stopped })

  stopped-update :
      (u : Update types) (r : Replication types)
      → (update_status types (stop_update u r) (record r { started = true })).started ≡ false
  unfolding update_status updated stop_update
  stopped-update u r =
      pick-lem
        (λ (v : Update types).
          (update_status types v (record r { started = true })).started ≡ false)
        r.pull _ _
        (λ pulls.
          set_last_sequence-started types (negsuc 0)
            (record r { started = false; registered = false }))
        (λ pushes.
          set_last_sequence-started types u.last_seq_pushed
            (record r { started = false; registered = false }))

  -- A restart in which the old replicator reports in time that it has stopped: after the two tasks that are
  -- then in the main queue, the replication is started, and a new replicator is about to be.
  pub restart-starts :
      (s : System types Action) (u : Update types)
      → IsQuiet s
      → ((run_main types Action
            (run_main types Action (restart types Action true u s))).front.started
          ≡ true)
        × ((run_main types Action
              (run_main types Action (restart types Action true u s))).server_queue
            ≡ starts_replicator ∷ [])
  unfolding restart stop report bg_update_progress run_main stop_update
  restart-starts s u q = rw q.state_is (start-started middle refl (stopped-update u q.front))
    where
      middle : System types Action
      middle = record {
        front = update_status types (stop_update u q.front) (record q.front { started = true });
        database_open = true;
        replicator = none;
        pending_actions = q.waiting;
        server_queue = [];
        main_queue = [];
        performed = q.done;
        asked = q.told;
      }

  -- A restart in which the old replicator reports later that it has stopped is lost: the scheduled start
  -- finds the replication started, and the late report then stops it.
  pub restart_late :
      (s : System types Action) (u : Update types)
      → IsQuiet s
      → (run_main types Action (
          report types Action
            (record u { status = stopped })
            (run_main types Action (restart types Action false u s)))).front.started
        ≡ false
  unfolding restart stop report bg_update_progress run_main start stop_update
  restart_late s u q = rw q.state_is (stopped-update u q.front)

module _ (types : FrontTypes) where
  open types use {components_separated, components_joined}

  abbrev pub HasNoComma : Bytes → Type 0
  HasNoComma channel = All (λ c. c ≢ b',') channel

  -- What is documented of `componentsJoinedByString:` and `componentsSeparatedByString:` with a comma: names
  -- without one are separated again; and only the empty name is joined to the empty text.
  pub record IsSeparator : Type 0 where
    pub separates :
        (c : Bytes) (cs : List Bytes)
        → All HasNoComma (c ∷ cs)
        → components_separated (components_joined (c ∷ cs)) ≡ c ∷ cs
    pub not_empty :
        (c : Bytes) (cs : List Bytes) → c ∷ cs ≢ [] ∷ [] → components_joined (c ∷ cs) ≢ []
    pub nothing : components_joined [] ≡ []

  abbrev with_channels : List Bytes → Replication types → Replication types
  with_channels cs r = record r {
    options = record r.options {
      filter = some by_channel_filter;
      filter_params = some ((channels_param, components_joined cs) ∷ []);
    };
  }

  set_channels-some :
      (cs : List Bytes) (r t : Replication types)
      → set_channels types (some cs) r ≡ some t
      → (r.pull ≡ true) × (with_channels cs r ≡ t)
  unfolding set_channels
  set_channels-some cs r t h = elim (Bool-cases r.pull) [
    | inl pulls ↦ (pulls, cc (rw (set_channels, pulls) at h))
    | inr pushes ↦ cc (rw (set_channels, pushes) at h)
  ]

  -- A text of no characters is nil.
  abbrev separated : Bytes → Option (List Bytes)
  separated text = elim text [ [] ↦ none | c ∷ cs ↦ some (components_separated (c ∷ cs)) ]

  channels-with_channels :
      (cs : List Bytes) (r : Replication types)
      → r.pull ≡ true
      → channels types (with_channels cs r) ≡ separated (components_joined cs)
  unfolding channels param equal
  channels-with_channels cs r pulls = rw (channels, pulls) refl

  separated-given : (text : Bytes) → text ≢ [] → separated text ≡ some (components_separated text)
  separated-given [] n = absurd (n refl)
  separated-given (c ∷ cs) n = refl

  -- The channels that were set on a pull replication are the ones that are read, unless there is none of
  -- them or only the empty name, as long as no name has a comma.
  pub channels-set_channels :
      IsSeparator
      → (c : Bytes) (cs : List Bytes) (r t : Replication types) → All HasNoComma (c ∷ cs)
      → c ∷ cs ≢ [] ∷ []
      → set_channels types (some (c ∷ cs)) r ≡ some t
      → channels types t ≡ some (c ∷ cs)
  channels-set_channels sep c cs r t commas names h =
      let (pulls, e) = set_channels-some (c ∷ cs) r t h in
      subst (λ x. channels types x ≡ some (c ∷ cs)) e
        (channels-with_channels (c ∷ cs) r pulls
          ∙ separated-given (components_joined (c ∷ cs)) (sep.not_empty c cs names)
          ∙ ap some (sep.separates c cs commas))

  -- An empty list of channels is read as nil, which stands for no filtering, but sets the filter.
  pub channels-set_channels_empty :
      IsSeparator
      → (r t : Replication types) → set_channels types (some []) r ≡ some t
      → (channels types t ≡ none) × (t.options.filter ≡ some by_channel_filter)
  channels-set_channels_empty sep r t h =
      let (pulls, e) = set_channels-some [] r t h in
      subst
        (λ (x : Replication types).
          (channels types x ≡ none) × (x.options.filter ≡ some by_channel_filter))
        e (channels-with_channels [] r pulls ∙ ap separated sep.nothing, refl)
