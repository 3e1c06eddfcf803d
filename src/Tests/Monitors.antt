-- ===== src/Tests/Monitors.antt =====
-- A run of the supervisor with the health monitor of a service.
use Prim.{tt}
use go_overlay.Base.{
  lit, ◌==◌, ==_iff, ◌≢◌, lookup, insert, delete, true, false, List, [], ◌∷◌, some, ◌≡◌, ◌↔◌, refl,
  arith, Memᴰ,
}
use go_overlay.Base.Int.{pos}
use go_overlay.Config.{Service, HealthCheckConfig}
use go_overlay.Health.{apply_health_check_defaults, HasRun}
use go_overlay.Supervisor.{boot, graceful_shutdown}
use go_overlay.Supervisor.Control.{handle_unhealthy_service}
use go_overlay.Supervisor.Prepare.{new_process}
use go_overlay.Supervisor.Step.{Event, step, run}
use go_overlay.Supervisor.Monitor.{
  Monitored, Move, does, checks, cancels, start_monitor, on_check, on_event, monitors_after, move,
  run_monitored, events_of,
}
use go_overlay.Supervisor.Monitor.Checks.{checks_of}
use go_overlay.Supervisor.Monitor.Counted.{run_monitored_iff}
use go_overlay.Tests.{database}
use go_overlay.Tests.Runs.{serving}

abbrev health : HealthCheckConfig
health = record {
  endpoint = [];
  command = lit "pg_isready";
  interval = pos 5;
  retries = pos 2;
  timeout = pos 0;
  start_delay = pos 0;
}

abbrev checked : Service
checked = record database { health_check = some health }

abbrev watched : Monitored
watched = record {
  supervisor = record serving {
    active = (lit "db", new_process boot checked) ∷ [];
    once_done = false;
    shut_down = false;
  };
  monitors = start_monitor checked [];
}

-- A check fails, another succeeds, and two fail in a row.
abbrev moves : List Move
moves =
    checks (lit "db") false
    ∷ cancels (lit "api")
    ∷ checks (lit "db") true
    ∷ checks (lit "db") false
    ∷ does Event.signals
    ∷ checks (lit "db") false
    ∷ []

abbrev ended : Monitored
ended = record {
  supervisor = handle_unhealthy_service (lit "db") (graceful_shutdown watched.supervisor);
  monitors = [];
}

moves-ended : run_monitored moves watched ≡ some ended
unfolding run_monitored move on_event on_check monitors_after step lookup insert delete lit ◌==◌
    start_monitor apply_health_check_defaults graceful_shutdown handle_unhealthy_service
moves-ended = refl

api-not-db : lit "api" ≢ lit "db"
unfolding lit ◌==◌
api-not-db e = absurd (ground (arith, (==_iff (lit "api") (lit "db")).1 e))

run_monitored_iff_example :
    (run (events_of moves watched) watched.supervisor ≡ some ended.supervisor)
    × (Memᴰ (Event.sickens (lit "db")) (events_of moves watched)
        ↔ HasRun 2 (checks_of (lit "db") moves))
run_monitored_iff_example =
    run_monitored_iff checked health 2 [] moves watched ended refl refl refl
      (tt, (api-not-db, (tt, (tt, (tt, (tt, tt)))))) moves-ended
