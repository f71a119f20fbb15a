-- ===== src/Replication/Reached.antt =====
-- Source/API/CBLReplication.m: what holds in every state that the two threads can reach, in whatever order
-- their tasks run.
use couchbase_lite_ios.Base.{
  ◌≡◌, refl, sym, ap, ◌∙◌, Bool, true, false, not, ◌&&◌, Option, none, some, List, [], ◌∷◌, ◌++◌,
  if◌then◌else◌, arith,
}
use couchbase_lite_ios.Base.Int.{ℤ, pos, negsuc}
use couchbase_lite_ios.Replication.Front.{
  ReplicationStatus, stopped, offline, idle, active, is_running, FrontTypes, Replication, Update,
  stop_if, set_last_sequence, set_progress, updated, update_status, init_with_database,
}
use couchbase_lite_ios.Replication.Machine.{
  ServerTask, starts_replicator, tells, MainTask, updates, fails, starts, System, start,
  bg_update_progress, Creation, failed, created, bg_start_replicator, bg_tell,
  tell_replicator_while_running, server_task, main_task, run_server, run_main, report, stop,
  restart, Step, calls_start, calls_tell, calls_stop, calls_restart, sets_options, closes,
  server_runs, main_runs, reports, Reached, begins, steps,
}
use mathlib.Core.List.{append_assoc}
use couchbase_lite_ios.Differ.Steps.{pick-lem}
use mathlib.Core.Path.{subst}

-- A predicate of the result of a match on an optional value, or on a list.
option-lem :
    {A B : Type 0} (P : B → Type 0) (o : Option A) (x : B) (f : A → B)
    → (o ≡ none → P x)
    → ((a : A) → o ≡ some a → P (f a))
    → P (elim o [ none ↦ x | some a ↦ f a ])
option-lem P none x f h k = h refl
option-lem P (some a) x f h k = k a refl

list-lem :
    {A B : Type 0} (P : B → Type 0) (xs : List A) (x : B) (f : A → List A → B)
    → (xs ≡ [] → P x)
    → ((a : A) (rest : List A) → xs ≡ a ∷ rest → P (f a rest))
    → P (elim xs [ [] ↦ x | a ∷ rest ↦ f a rest ])
list-lem P [] x f h k = h refl
list-lem P (a ∷ rest) x f h k = k a rest refl

module _ (types : FrontTypes) where
  -- Being started, running, in a status other than stopped, and in the database's list are the same.
  pub record IsConsistent (r : Replication types) : Type 0 where
    pub running_is : r.progress.running ≡ r.started
    pub status_is : is_running r.progress.status ≡ r.started
    pub registered_is : r.registered ≡ r.started

  pub set_last_sequence-started :
      (n : ℤ) (r : Replication types) → (set_last_sequence types n r).started ≡ r.started
  unfolding set_last_sequence
  set_last_sequence-started (pos n) r = ground arith
  set_last_sequence-started (negsuc n) r = refl

  set_last_sequence-registered :
      (n : ℤ) (r : Replication types) → (set_last_sequence types n r).registered ≡ r.registered
  unfolding set_last_sequence
  set_last_sequence-registered (pos n) r = ground arith
  set_last_sequence-registered (negsuc n) r = refl

  stop_if-started :
      (status : ReplicationStatus) (r : Replication types)
      → r.started ≡ true
      → (stop_if types status r).started ≡ is_running status
  stop_if-started stopped r h = refl
  stop_if-started offline r h = h
  stop_if-started idle r h = h
  stop_if-started active r h = h

  stop_if-registered :
      (status : ReplicationStatus) (r : Replication types)
      → r.registered ≡ true
      → (stop_if types status r).registered ≡ is_running status
  stop_if-registered stopped r h = refl
  stop_if-registered offline r h = h
  stop_if-registered idle r h = h
  stop_if-registered active r h = h

  updated-IsConsistent :
      (u : Update types) (r : Replication types)
      → r.started ≡ true
      → r.registered ≡ true
      → IsConsistent (updated types u r)
  unfolding updated set_progress
  updated-IsConsistent u r on listed =
      let started =
        set_last_sequence-started u.last_seq_pushed (stop_if types u.status r)
        ∙ stop_if-started u.status r on in
      record {
        running_is = sym started;
        status_is = sym started;
        registered_is =
            set_last_sequence-registered u.last_seq_pushed (stop_if types u.status r)
            ∙ stop_if-registered u.status r listed
            ∙ sym started;
      }

  pub update_status-IsConsistent :
      (u : Update types) (r : Replication types)
      → IsConsistent r
      → IsConsistent (update_status types u r)
  unfolding update_status
  update_status-IsConsistent u r c =
      pick-lem IsConsistent (not r.started) _ _ (λ off. c)
        λ on. updated-IsConsistent u r (ground arith) (c.registered_is ∙ ground arith)

  -- A start: the first update leaves the replication running, and registration follows.
  started-IsConsistent :
      (r : Replication types)
      → IsConsistent
          (record (update_status types
            (record {
              status = offline;
              error = none;
              processed = 0;
              total = 0;
              last_seq_pushed = pos 0;
            })
            (record r { started = true })) { registered = true })
  unfolding update_status updated set_progress
  started-IsConsistent r = record {
    running_is = sym (set_last_sequence-started (pos 0) (record r { started = true }));
    status_is = sym (set_last_sequence-started (pos 0) (record r { started = true }));
    registered_is = sym (set_last_sequence-started (pos 0) (record r { started = true }));
  }

module _ (types : FrontTypes) (Action : Type 0) where
  -- The actions that wait in the server's queue.
  abbrev pub told : List (ServerTask types Action) → List Action
  told [] = []
  told (starts_replicator ∷ tasks) = told tasks
  told (tells action ∷ tasks) = action ∷ told tasks

  told-append_tells :
      (tasks : List (ServerTask types Action)) (action : Action)
      → told (tasks ++ (tells action ∷ [])) ≡ told tasks ++ (action ∷ [])
  told-append_tells [] action = refl
  told-append_tells (starts_replicator ∷ tasks) action = told-append_tells tasks action
  told-append_tells (tells a ∷ tasks) action = ap (◌∷◌ a) (told-append_tells tasks action)

  told-append_start :
      (tasks : List (ServerTask types Action))
      → told (tasks ++ (starts_replicator ∷ [])) ≡ told tasks
  told-append_start [] = refl
  told-append_start (starts_replicator ∷ tasks) = told-append_start tasks
  told-append_start (tells a ∷ tasks) = ap (◌∷◌ a) (told-append_start tasks)

  pub record IsSound (s : System types Action) : Type 0 where
    pub consistent : IsConsistent types s.front
    pub runs : (u : Update types) → s.replicator ≡ some u → is_running u.status ≡ true
    pub flushed : (u : Update types) → s.replicator ≡ some u → s.pending_actions ≡ []
    pub in_order : s.performed ++ (s.pending_actions ++ told s.server_queue) ≡ s.asked

  start-IsSound : (s : System types Action) → IsSound s → IsSound (start types Action s)
  unfolding start
  start-IsSound s w =
      pick-lem IsSound (not s.database_open) _ _ (λ closed. w)
        λ opened.
          pick-lem IsSound s.front.started _ _ (λ on. w)
            λ off. record {
              consistent = started-IsConsistent types s.front;
              runs = w.runs;
              flushed = w.flushed;
              in_order =
                  ap (λ tasks. s.performed ++ (s.pending_actions ++ tasks))
                    (told-append_start s.server_queue)
                  ∙ w.in_order;
            }

  tell-IsSound :
      (action : Action) (s : System types Action)
      → IsSound s
      → IsSound (tell_replicator_while_running types Action action s)
  unfolding tell_replicator_while_running
  tell-IsSound action s w = record {
    consistent = w.consistent;
    runs = w.runs;
    flushed = w.flushed;
    in_order =
        ap (λ tasks. s.performed ++ (s.pending_actions ++ tasks))
          (told-append_tells s.server_queue action)
        ∙ ap (λ tasks. s.performed ++ tasks)
            (sym (append_assoc s.pending_actions (told s.server_queue) (action ∷ [])))
        ∙ sym (append_assoc s.performed (s.pending_actions ++ told s.server_queue) (action ∷ []))
        ∙ ap (λ actions. actions ++ (action ∷ [])) w.in_order;
  }

  if_running :
      (b : Bool) (u v : Update types)
      → is_running u.status ≡ b
      → (if b then some u else none) ≡ some v
      → is_running v.status ≡ true
  if_running true u v h e =
      let same : u ≡ v = cc e in subst (λ (x : Update types). is_running x.status ≡ true) same h
  if_running false u v h e = cc

  bg_update_progress-IsSound :
      (u : Update types) (s : System types Action)
      → IsSound s
      → s.pending_actions ≡ []
      → IsSound (bg_update_progress types Action u s)
  unfolding bg_update_progress
  bg_update_progress-IsSound u s w none_pending = record {
    consistent = w.consistent;
    runs = λ v e. if_running (is_running u.status) u v refl e;
    flushed = λ v e. none_pending;
    in_order = w.in_order;
  }

  report-IsSound :
      (u : Update types) (s : System types Action) → IsSound s → IsSound (report types Action u s)
  unfolding report
  report-IsSound u s w =
      option-lem IsSound s.replicator s (λ v. bg_update_progress types Action u s) (λ nothing. w)
        λ v given. bg_update_progress-IsSound u s w (w.flushed v given)

  bg_start_replicator-IsSound :
      (c : Creation types Action) (s : System types Action)
      → IsSound s
      → IsSound (bg_start_replicator types Action c s)
  unfolding bg_start_replicator bg_update_progress
  bg_start_replicator-IsSound (failed error) s w = record {
    consistent = w.consistent;
    runs = w.runs;
    flushed = w.flushed;
    in_order = w.in_order;
  }
  bg_start_replicator-IsSound (created u) s w = record {
    consistent = w.consistent;
    runs = λ v e. if_running (is_running u.status) u v refl e;
    flushed = λ v e. refl;
    in_order = append_assoc s.performed s.pending_actions (told s.server_queue) ∙ w.in_order;
  }

  -- The task `tells` taken out of the queue: performed if a replicator runs, else it waits.
  bg_tell-IsSound :
      (action : Action) (rest : List (ServerTask types Action)) (s : System types Action)
      → IsSound s
      → s.server_queue ≡ tells action ∷ rest
      → IsSound (bg_tell types Action action (record s { server_queue = rest }))
  unfolding bg_tell
  bg_tell-IsSound action rest s w e =
      option-lem IsSound s.replicator waiting
        (λ u. if is_running u.status then at_once else waiting)
        (λ nothing. record {
          consistent = w.consistent;
          runs = λ u given. cc (nothing, given);
          flushed = λ u given. cc (nothing, given);
          in_order = waits;
        })
        λ u given. rw (w.runs u given) (record {
          consistent = w.consistent;
          runs = w.runs;
          flushed = w.flushed;
          in_order = acts (w.flushed u given);
        })
    where
      waiting : System types Action
      waiting = record s {
        server_queue = rest;
        pending_actions = s.pending_actions ++ (action ∷ []);
      }

      at_once : System types Action
      at_once = record s { server_queue = rest; performed = s.performed ++ (action ∷ []) }

      before : s.performed ++ (s.pending_actions ++ (action ∷ told rest)) ≡ s.asked
      before = ap (λ tasks. s.performed ++ (s.pending_actions ++ told tasks)) (sym e) ∙ w.in_order

      waits : s.performed ++ ((s.pending_actions ++ (action ∷ [])) ++ told rest) ≡ s.asked
      waits =
          ap (λ tasks. s.performed ++ tasks)
            (append_assoc s.pending_actions (action ∷ []) (told rest))
          ∙ before

      acts :
          s.pending_actions ≡ []
          → (s.performed ++ (action ∷ [])) ++ (s.pending_actions ++ told rest) ≡ s.asked
      acts empty =
          ap (λ pending. (s.performed ++ (action ∷ [])) ++ (pending ++ told rest)) empty
          ∙ append_assoc s.performed (action ∷ []) (told rest)
          ∙ ap (λ pending. s.performed ++ (pending ++ (action ∷ told rest))) (sym empty)
          ∙ before

  run_server-IsSound :
      (c : Creation types Action) (s : System types Action)
      → IsSound s
      → IsSound (run_server types Action c s)
  unfolding run_server
  run_server-IsSound c s w =
      list-lem IsSound s.server_queue s
        (λ t rest. server_task types Action c t (record s { server_queue = rest })) (λ empty. w)
        by_task
    where
      by_task :
          (t : ServerTask types Action) (rest : List (ServerTask types Action))
          → s.server_queue ≡ t ∷ rest
          → IsSound (server_task types Action c t (record s { server_queue = rest }))
      by_task (tells action) rest e = bg_tell-IsSound action rest s w e
      by_task starts_replicator rest e =
          bg_start_replicator-IsSound c (record s { server_queue = rest })
            (record {
              consistent = w.consistent;
              runs = w.runs;
              flushed = w.flushed;
              in_order =
                  ap (λ tasks. s.performed ++ (s.pending_actions ++ told tasks)) (sym e)
                  ∙ w.in_order;
            })

  run_main-IsSound : (s : System types Action) → IsSound s → IsSound (run_main types Action s)
  unfolding run_main
  run_main-IsSound s w =
      list-lem IsSound s.main_queue s
        (λ t rest. main_task types Action t (record s { main_queue = rest })) (λ empty. w) by_task
    where
      by_task :
          (t : MainTask types Action) (rest : List (MainTask types Action))
          → s.main_queue ≡ t ∷ rest
          → IsSound (main_task types Action t (record s { main_queue = rest }))
      by_task (updates u) rest e = record {
        consistent = update_status-IsConsistent types u s.front w.consistent;
        runs = w.runs;
        flushed = w.flushed;
        in_order = w.in_order;
      }
      by_task (fails u) rest e =
          pick-lem IsSound s.database_open _ _
            (λ opened. record {
              consistent = update_status-IsConsistent types u s.front w.consistent;
              runs = w.runs;
              flushed = w.flushed;
              in_order = w.in_order;
            })
            (λ closed. record {
              consistent = w.consistent;
              runs = w.runs;
              flushed = w.flushed;
              in_order = w.in_order;
            })
      by_task starts rest e =
          start-IsSound (record s { main_queue = rest })
            (record {
              consistent = w.consistent;
              runs = w.runs;
              flushed = w.flushed;
              in_order = w.in_order;
            })

  stop-IsSound :
      (in_time : Bool) (u : Update types) (s : System types Action)
      → IsSound s
      → IsSound (stop types Action in_time u s)
  unfolding stop
  stop-IsSound in_time u s w =
      pick-lem IsSound (s.front.started && in_time) _ _
        (λ now. report-IsSound (record u { status = stopped }) s w) (λ not_now. w)

  restart-IsSound :
      (in_time : Bool) (u : Update types) (s : System types Action)
      → IsSound s
      → IsSound (restart types Action in_time u s)
  unfolding restart
  restart-IsSound in_time u s w =
      pick-lem IsSound s.front.started _ _
        (λ on.
          let k = stop-IsSound in_time u s w in
          record {
            consistent = k.consistent;
            runs = k.runs;
            flushed = k.flushed;
            in_order = k.in_order;
          })
        (λ off. w)

  Step-IsSound : {s t : System types Action} → Step types Action s t → IsSound s → IsSound t
  Step-IsSound {s} calls_start w = start-IsSound s w
  Step-IsSound {s} (calls_tell action) w = tell-IsSound action s w
  Step-IsSound {s} (calls_stop in_time u e) w = stop-IsSound in_time u s w
  Step-IsSound {s} (calls_restart in_time u e) w = restart-IsSound in_time u s w
  Step-IsSound {s} (sets_options options) w = record {
    consistent = record {
      running_is = w.consistent.running_is;
      status_is = w.consistent.status_is;
      registered_is = w.consistent.registered_is;
    };
    runs = w.runs;
    flushed = w.flushed;
    in_order = w.in_order;
  }
  Step-IsSound {s} closes w = record {
    consistent = w.consistent;
    runs = w.runs;
    flushed = w.flushed;
    in_order = w.in_order;
  }
  Step-IsSound {s} (server_runs c) w = run_server-IsSound c s w
  Step-IsSound {s} main_runs w = run_main-IsSound s w
  Step-IsSound {s} (reports u) w = report-IsSound u s w

  -- In every state that the two threads reach, the replication is started exactly if it is running, if its
  -- status is not stopped, and if it is in the database's list; and the actions asked for are those that
  -- replicators have got, then those that wait for one, then those in the server's queue, in order.
  pub Reached-IsSound : {s : System types Action} → Reached types Action s → IsSound s
  unfolding init_with_database
  Reached-IsSound (begins remote pull) = record {
    consistent = record { running_is = refl; status_is = refl; registered_is = refl };
    runs = λ u e. cc e;
    flushed = λ u e. refl;
    in_order = refl;
  }
  Reached-IsSound (steps before step) = Step-IsSound step (Reached-IsSound before)
