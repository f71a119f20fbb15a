-- ===== src/Replication/Machine.antt =====
-- Source/API/CBLReplication.m: a replication object on the main thread, its replicator on the server's
-- thread, and the queues between the two. A step is a call on the main thread, the next task of one of the
-- queues, or a change that the replicator reports.
use couchbase_lite_ios.Base.{
  ◌≡◌, Bool, true, false, not, ◌&&◌, Option, none, some, List, [], ◌∷◌, ◌++◌, if◌then◌else◌,
}
use couchbase_lite_ios.Base.Int.{pos, negsuc}
use couchbase_lite_ios.Replication.Front.{
  stopped, offline, is_running, FrontTypes, Options, Replication, Update, update_status,
  init_with_database,
}

module _ (types : FrontTypes) (Action : Type 0) where
  open types use {Error}

  -- What a task of the server's queue does: start a replicator, or an action on one that runs.
  pub data ServerTask : Type 0 where
    starts_replicator : ServerTask
    tells : Action → ServerTask

  -- A task of the main thread. One that the database passes on, as `fails` and `starts`, is dropped when the
  -- database is closed (CBLDatabase.m, `doAsync:`).
  pub data MainTask : Type 0 where
    updates : Update types → MainTask
    fails : Update types → MainTask
    starts : MainTask

  -- `replicator` is the update that the current replicator last reported; `performed` are the actions that
  -- replicators got, `asked` those that `tellReplicatorWhileRunning:` was called with.
  pub record System : Type 0 where
    pub front : Replication types
    pub database_open : Bool
    pub replicator : Option (Update types)
    pub pending_actions : List Action
    pub server_queue : List ServerTask
    pub main_queue : List MainTask
    pub performed : List Action
    pub asked : List Action

  abbrev pub first_status : Update types
  first_status = record {
    status = offline;
    error = none;
    processed = 0;
    total = 0;
    last_seq_pushed = pos 0;
  }

  unfoldable pub start : System → System
  start s =
      if not s.database_open
      then s
      else if s.front.started
      then s
      else let front = update_status types first_status (record s.front { started = true }) in
        record s {
          front = record front { registered = true };
          server_queue = s.server_queue ++ (starts_replicator ∷ []);
        }

  -- The replicator's own sequence counts only for a push.
  abbrev pub reported : Replication types → Update types → Update types
  reported r u = if r.pull then record u { last_seq_pushed = negsuc 0 } else u

  -- `bg_updateProgress` of a replicator with this state.
  unfoldable pub bg_update_progress : Update types → System → System
  bg_update_progress u s = record s {
    replicator = if is_running u.status then some u else none;
    main_queue = s.main_queue ++ (updates (reported s.front u) ∷ []);
  }

  abbrev pub failed_start : Option Error → Update types
  failed_start error = record {
    status = stopped;
    error = error;
    processed = 0;
    total = 0;
    last_seq_pushed = negsuc 0;
  }

  -- What comes of the manager's `replicatorWithProperties:`: an error, or the state of a started replicator.
  pub data Creation : Type 0 where
    failed : Option Error → Creation
    created : Update types → Creation

  -- `bg_startReplicator:properties:auth:`
  unfoldable pub bg_start_replicator : Creation → System → System
  unfolding bg_update_progress
  bg_start_replicator (failed error) s = record s {
    main_queue = s.main_queue ++ (fails (failed_start error) ∷ []);
  }
  bg_start_replicator (created u) s = record (bg_update_progress u s) {
    pending_actions = [];
    performed = s.performed ++ s.pending_actions;
  }

  -- The block of `tellReplicatorWhileRunning:`.
  unfoldable pub bg_tell : Action → System → System
  bg_tell action s = elim s.replicator [
    | none ↦ record s { pending_actions = s.pending_actions ++ (action ∷ []) }
    | some u ↦
        if is_running u.status
        then record s { performed = s.performed ++ (action ∷ []) }
        else record s { pending_actions = s.pending_actions ++ (action ∷ []) }
  ]

  unfoldable pub tell_replicator_while_running : Action → System → System
  tell_replicator_while_running action s = record s {
    server_queue = s.server_queue ++ (tells action ∷ []);
    asked = s.asked ++ (action ∷ []);
  }

  abbrev pub server_task : Creation → ServerTask → System → System
  server_task c starts_replicator s = bg_start_replicator c s
  server_task c (tells action) s = bg_tell action s

  abbrev pub main_task : MainTask → System → System
  main_task (updates u) s = record s { front = update_status types u s.front }
  main_task (fails u) s =
      if s.database_open then record s { front = update_status types u s.front } else s
  main_task starts s = start s

  -- The next task of the server's queue.
  unfoldable pub run_server : Creation → System → System
  unfolding bg_start_replicator bg_tell
  run_server c s = elim s.server_queue [
    | [] ↦ s
    | t ∷ rest ↦ server_task c t (record s { server_queue = rest })
  ]

  unfoldable pub run_main : System → System
  unfolding start
  run_main s = elim s.main_queue [
    | [] ↦ s
    | t ∷ rest ↦ main_task t (record s { main_queue = rest })
  ]

  -- The replicator reports a change; without one nothing is observed.
  unfoldable pub report : Update types → System → System
  report u s = elim s.replicator [ none ↦ s | some _ ↦ bg_update_progress u s ]

  -- `stop` once the server's queue is empty: the replicator reports that it has stopped within two seconds
  -- or, with `in_time` false, later.
  unfoldable pub stop : Bool → Update types → System → System
  unfolding report
  stop in_time u s =
      if s.front.started && in_time then report (record u { status = stopped }) s else s

  -- `doAsync:` of a call of `start`
  abbrev pub schedule_start : System → System
  schedule_start s = record s { main_queue = s.main_queue ++ (starts ∷ []) }

  unfoldable pub restart : Bool → Update types → System → System
  unfolding stop
  restart in_time u s = if s.front.started then schedule_start (stop in_time u s) else s

  -- A step of either thread. A call of `stop` or `restart` comes after the tasks of the server's queue; the
  -- application sets options at any time, and may close the database.
  pub data Step : System → System → Type 0 where
    calls_start : {s : System} → Step s (start s)
    calls_tell : {s : System} (action : Action) → Step s (tell_replicator_while_running action s)
    calls_stop :
        {s : System} (in_time : Bool) (u : Update types)
        → s.server_queue ≡ []
        → Step s (stop in_time u s)
    calls_restart :
        {s : System} (in_time : Bool) (u : Update types)
        → s.server_queue ≡ []
        → Step s (restart in_time u s)
    sets_options :
        {s : System} (options : Options types)
        → Step s (record s { front = record s.front { options = options } })
    closes : {s : System} → Step s (record s { database_open = false })
    server_runs : {s : System} (c : Creation) → Step s (run_server c s)
    main_runs : {s : System} → Step s (run_main s)
    reports : {s : System} (u : Update types) → Step s (report u s)

  abbrev pub initial : types.Url → Bool → System
  initial remote pull = record {
    front = init_with_database types remote pull;
    database_open = true;
    replicator = none;
    pending_actions = [];
    server_queue = [];
    main_queue = [];
    performed = [];
    asked = [];
  }

  pub data Reached : System → Type 0 where
    begins : (remote : types.Url) (pull : Bool) → Reached (initial remote pull)
    steps : {s t : System} → Reached s → Step s t → Reached t
