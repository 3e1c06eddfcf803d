-- ===== src/Tests/Runs.antt =====
-- Runs of the supervisor on the accepted configuration.
use go_overlay.Base.{
  Text, ◌↔◌, All, lit, ◌==◌, lookup, true, List, [], ◌∷◌, Option, none, some, ◌≡◌, refl, arith, map,
  keys, contains,
}
use go_overlay.Ascii
use go_overlay.Environ.Override
use go_overlay.Environ.Token
use go_overlay.Dependencies.Check.{is_service_enabled}
use go_overlay.Validation.Config.{validated, default_enabled}
use go_overlay.Validation.Config.Laws.{validate_config_iff}
use go_overlay.Supervisor.Operator.{handle_restart_service-success}
use go_overlay.Supervisor.Control.{handle_restart_service}
use go_overlay.Supervisor.{Process, none_yet, State, graceful_shutdown}
use go_overlay.Supervisor.Step.{
  Event, run, start_all_services, enters, scripted, hears, launches, registers, exits, fires,
}
use go_overlay.Supervisor.Prepare.{starts, ticks, hears_ready, times_out}
use go_overlay.Supervisor.Invariant.{IsValid, graceful_shutdown-IsValid}
use go_overlay.Supervisor.Shutdown.{IsDown, run-stays_down}
use go_overlay.Base.{◌++◌, ==_iff}
use go_overlay.Supervisor.{boot, restart_operator}
use go_overlay.Base.{insert}
use go_overlay.Supervisor.Counts.{count}
use go_overlay.Supervisor.Prepare.{new_process}
use go_overlay.Tracker.{new_dependency_tracker}
use go_overlay.Tracker.Marks.{new-IsValid}
use go_overlay.Tests.{database}
use go_overlay.Base.{Memᴰ, false}
use go_overlay.Config.{Service}
use go_overlay.Supervisor.Start.All.{IsUp}
use go_overlay.Supervisor.Start.Accepted.{run-starts_all}
use go_overlay.Supervisor.Apart.Runs.{OneAnswer, run-OneAnswer}
use go_overlay.Supervisor.Drain.{run-drains}
use go_overlay.Supervisor.Settled.{run-settles}
use go_overlay.Supervisor.Boot.{run-in_order, run-accepted, start_all_services-IsValid}
use go_overlay.Supervisor.Bound.{Fits, IsBounded}
use go_overlay.Supervisor.Bound.Runs.{run-IsBounded}
use go_overlay.Supervisor.Ordered.{IsDue}
use go_overlay.Supervisor.Restart.{restart_count}
use go_overlay.Supervisor.Step.{enabled_services}
use go_overlay.Tests.{host, no_env, config, accepted}

-- The API waits for the database, both start, the database dies and is restarted.
abbrev pub events : List Event
events =
    enters (lit "db")
    ∷ enters (lit "api")
    ∷ scripted (lit "api") true
    ∷ hears (lit "api") ticks
    ∷ scripted (lit "db") true
    ∷ launches (lit "db") starts
    ∷ registers (lit "db")
    ∷ hears (lit "api") hears_ready
    ∷ hears (lit "api") times_out
    ∷ launches (lit "api") starts
    ∷ registers (lit "api")
    ∷ exits (lit "db") (some (lit "exit status 1"))
    ∷ fires (lit "db") starts
    ∷ registers (lit "db")
    ∷ []

abbrev started : State
started = start_all_services (validated host no_env config)

run-accepted_example : (t : State) × (run events started ≡ some t) × IsValid t
run-accepted_example = run-accepted host no_env config events accepted

abbrev state_or : State → Option State → State
state_or s none = s
state_or s (some t) = t

-- after these events
abbrev pub busy : State
busy = state_or started (run events started)

state_or-IsValid :
    (s : State) (o : Option State)
    → ((t : State) × (o ≡ some t) × IsValid t)
    → IsValid (state_or s o)
state_or-IsValid s o (t, e, v) = rw e v

pub busy-IsValid : IsValid busy
busy-IsValid = state_or-IsValid started (run events started) run-accepted_example

run-drains_example :
    (t : State) × (run (map (λ n. exits n none) (keys busy.active)) busy ≡ some t)
    × IsValid t
    × (t.active ≡ [])
    × (t.shutdown_wg ≡ 0)
run-drains_example = run-drains (λ n. none) busy busy-IsValid

graceful_shutdown-down : (s : State) → IsValid s → (graceful_shutdown s).shut_down ≡ true
unfolding graceful_shutdown
graceful_shutdown-down s v = ground (arith, v.canceled)

run-stays_down_example :
    (t : State) × (run events (graceful_shutdown busy) ≡ some t)
    × IsValid t
    × IsDown (graceful_shutdown busy) t
run-stays_down_example =
    run-stays_down events (graceful_shutdown busy) (graceful_shutdown-IsValid busy busy-IsValid)
      (graceful_shutdown-down busy busy-IsValid)

-- both services may be restarted three times
started_waiting : All (λ w. Fits (λ n. 3) w.service) started.waiting
unfolding validated default_enabled Override.apply_service_env_overrides Override.apply_overrides
    Override.resolve_enabled is_service_enabled Token.service_env_token Token.squash
    Token.is_alpha_num Override.parse_bool_env Override.parse_service_list_env Ascii.to_upper
    Ascii.to_lower Ascii.upper_byte Ascii.lower_byte Ascii.trim Ascii.trim_left Ascii.trim_right
    Ascii.fields Ascii.fields_from lit ◌==◌ contains enabled_services start_all_services
started_waiting = (refl, (refl, tt))

started-IsBounded : IsBounded (λ n. 3) started
unfolding start_all_services lookup restart_count
started-IsBounded = record {
  waiting = started_waiting;
  active = λ n p h. ground arith;
  timers = tt;
  launching = tt;
  counts = λ n l. omega arith;
}

started-IsValid : IsValid started
started-IsValid =
    start_all_services-IsValid host no_env config
      ((validate_config_iff host no_env config).0 accepted)

run-IsBounded_example :
    (t : State) × (run events started ≡ some t) × IsValid t × IsBounded (λ n. 3) t
run-IsBounded_example = run-IsBounded (λ n. 3) events started started-IsValid started-IsBounded

handle_restart_service-success_example :
    (((handle_restart_service (lit "db") busy).1.success ≡ true)
      ↔ ((p : Process) × (lookup (lit "db") busy.active ≡ some p) × (p.intent ≡ none_yet)))
    × ((p : Process)
        → lookup (lit "db") busy.active ≡ some p
        → p.intent ≡ none_yet
        → (handle_restart_service (lit "db") busy).0 ≡ record busy {
          active =
              insert
                (lit "db")
                (record p { intent = restart_operator; canceled = true })
                busy.active;
        })
    × ((handle_restart_service (lit "db") busy).1.success ≡ false
        → (handle_restart_service (lit "db") busy).0 ≡ busy)
handle_restart_service-success_example = handle_restart_service-success (lit "db") busy

run-in_order_example :
    (t : State) × (run events started ≡ some t)
    × ((n : Text) (p : Process) → lookup n t.active ≡ some p → IsDue p.config t.deps)
run-in_order_example = run-in_order host no_env config events accepted

-- The shutdown has begun while the database runs.
abbrev pub serving : State
serving = record {
  waiting = [];
  launching = [];
  active = (lit "db", new_process boot database) ∷ [];
  shutdown_wg = 1;
  timers = [];
  restart_counts = [];
  deps = new_dependency_tracker;
  exit_code = 0;
  once_done = true;
  shut_down = true;
}

serving-IsValid : IsValid serving
unfolding lookup count lit ◌==◌ new_dependency_tracker
serving-IsValid = record {
  once = λ n. ground arith;
  counted = refl;
  named = λ n p. ground (arith, ==_iff (lit "db") n);
  tracked = new-IsValid;
  exit_code = ground arith;
  failing = λ h. refl;
  canceled = λ h. refl;
}

run-settles_example :
    (t : State) × (run (map (λ n. exits n none) (keys serving.active) ++ events) serving ≡ some t)
    × IsValid t
    × (t.active ≡ [])
    × (t.shutdown_wg ≡ 0)
run-settles_example = run-settles (λ n. none) events serving serving-IsValid refl refl

run-starts_all_example :
    (es : List Event) × (t : State) × (run es started ≡ some t)
    × (t.shut_down ≡ false)
    × ((s : Service)
        → Memᴰ s (validated host no_env config).services
        → is_service_enabled s ≡ true
        → IsUp s t)
run-starts_all_example = run-starts_all host no_env config accepted

run-OneAnswer_example : (t : State) × (run events started ≡ some t) × ((n : Text) → OneAnswer n t)
run-OneAnswer_example = run-OneAnswer host no_env config events accepted
