-- ===== src/Supervisor/Step.antt =====
-- The events of the supervisor, each a step of the state: what the goroutines of
-- cmd/go-overlay/service.go, restart.go, health.go, ipc.go and main.go do between two waits. What
-- the operating system decides (whether a process starts, and how it ends) comes with the event.
use go_overlay.Base.{
  Bool, Text, ◌==◌, lookup, false, ◌||◌, List, [], ◌∷◌, Option, none, some, if◌then◌else◌, ℕ,
}
use go_overlay.Config.{Service, Config}
use go_overlay.Dependencies.Check.{is_service_enabled}
use go_overlay.Tracker.{Kind, new_dependency_tracker}
use go_overlay.Supervisor.{
  Process, State, Caller, Waiting, Launching, Phase, fresh, boot, restart, stopping, shutdown,
  set_state, request_stop, update, mark_dep, graceful_shutdown, ◌>>=◌,
}
use go_overlay.Supervisor.Prepare.{
  Launch, Signal, start_service, register_service, on_abort, on_enter, on_script, on_signal,
  on_launch,
}
use go_overlay.Supervisor.Restart.{finish_service}
use go_overlay.Supervisor.Control.{
  handle_unhealthy_service, handle_unhealthy_ended, handle_restart_service,
}

-- the `switch` of `processService` where the service has run
unfoldable pub after_exit : Caller → Service → Option Text → State → Option State
after_exit restart service returned s = some s
after_exit boot service returned s =
    if service.oneshot
    then elim returned [
      | none ↦ mark_dep Kind.ready service.name s
      | some _ ↦ mark_dep Kind.failed service.name s
    ]
    else some s

-- The first element with a name, and the others.
unfoldable pub take {ℓ} : {A : Type ℓ} → (A → Text) → Text → List A → Option (A × List A)
take name n [] = none
take name n (x ∷ xs) =
    let rest = take name n xs in
    if name x == n
    then some (x, xs)
    else elim rest [ none ↦ none | some (y, ys) ↦ some (y, x ∷ ys) ]

pub data Event : Type 0 where
  -- `processService` of a service begins, its pre-script ends, a wait goes round, it starts
  enters : Text → Event
  scripted : Text → Bool → Event
  hears : Text → Signal → Event
  launches : Text → Launch → Event
  -- a `startService` under way has its process, which becomes an active service, or cannot start it
  registers : Text → Event
  aborts : Text → Text → Event
  -- a process ends, with its error
  exits : Text → Option Text → Event
  -- `startService` sees that the context of its service is done
  observes : Text → Event
  -- the timer of a restart runs out
  fires : Text → Launch → Event
  -- the health monitor gives up; the operator asks for a restart; a signal arrives
  sickens : Text → Event
  restarts : Text → Event
  signals : Event
  -- the last check of a process that has ended fails, the final one of its monitor
  lapses : Service → Event

abbrev pub timer_name : Service × ℕ → Text
timer_name t = t.0.name

abbrev pub launching_name : Launching → Text
launching_name l = l.service.name

abbrev pub waiting_name : Waiting → Text
waiting_name w = w.service.name

unfoldable pub on_exit : Process → Option Text → State → Option State
on_exit p exit_err s = do
  (t, returned) ← finish_service p exit_err s
  after_exit p.caller p.config returned t

unfoldable pub on_fire : Launch → Service → State → Option State
on_fire launch service s = some (start_service launch restart service s).0

-- An event of `processService`, where the service has one that waits.
unfoldable pub on_waiting : Text → (Phase → Service → State → Option State) → State → Option State
on_waiting n go s = elim (take waiting_name n s.waiting) [
  | none ↦ some s
  | some (w, rest) ↦ go w.phase w.service (record s { waiting = rest })
]

unfoldable pub step : Event → State → Option State
step (enters n) s = on_waiting n on_enter s
step (scripted n succeeds) s = on_waiting n (on_script succeeds) s
step (hears n signal) s = on_waiting n (on_signal signal) s
step (launches n launch) s = on_waiting n (on_launch launch) s
step (registers n) s = elim (take launching_name n s.launching) [
  | none ↦ some s
  | some (l, rest) ↦ register_service l.caller l.service (record s { launching = rest })
]
step (aborts n e) s = elim (take launching_name n s.launching) [
  | none ↦ some s
  | some (l, rest) ↦ on_abort e l.caller l.service (record s { launching = rest })
]
step (exits n e) s = elim (lookup n s.active) [ none ↦ some s | some p ↦ on_exit p e s ]
step (observes n) s = elim (lookup n s.active) [
  | none ↦ some s
  | some p ↦
      if p.canceled || s.shut_down
      then some (update n (λ q. set_state stopping (request_stop shutdown q).0) s)
      else some s
]
step (fires n launch) s = elim (take timer_name n s.timers) [
  | none ↦ some s
  | some ((service, _), rest) ↦ on_fire launch service (record s { timers = rest })
]
step (sickens n) s = some (handle_unhealthy_service n s)
step (restarts n) s = some (handle_restart_service n s).0
step signals s = some (graceful_shutdown s)
step (lapses service) s = some (handle_unhealthy_ended service s)

unfoldable pub run : List Event → State → Option State
run [] s = some s
run (e ∷ es) s = do t ← step e s; run es t

-- the services that the loop of `startAllServices` does not skip, at the start of `processService`
unfoldable pub enabled_services : List Service → List Waiting
enabled_services [] = []
enabled_services (service ∷ services) =
    let rest = enabled_services services in
    if is_service_enabled service then record { service = service; phase = fresh } ∷ rest else rest

-- The state when `startAllServices` has set up the tracker and started a goroutine for each service
-- that is enabled.
unfoldable pub start_all_services : Config → State
start_all_services config = record {
  waiting = enabled_services config.services;
  launching = [];
  active = [];
  shutdown_wg = 0;
  timers = [];
  restart_counts = [];
  deps = new_dependency_tracker;
  exit_code = 0;
  once_done = false;
  shut_down = false;
}
