-- ===== src/Entry.antt =====
-- The entry point of cmd/go-overlay/main.go: the command without a subcommand, and the exit status of
-- the program. The command line is read by a library; what it finds is the command.
use Prim.{Unit, tt}
use go_overlay.Base.{ℕ, Text, List, Option, some, Result, ok, err, if◌then◌else◌, ◌≡◌, ◌⊎◌}
use go_overlay.Config.{Config}
use go_overlay.Config.Decode.{ConfigRaw}
use go_overlay.Validation.Host.{Host}
use go_overlay.Supervisor.{State, ◌>>=◌}
use go_overlay.Supervisor.Step.{Event, run}
use go_overlay.Supervisor.Load.{load_services, Loads}
use go_overlay.Supervisor.Fatal.Runs.{FailsIn}

-- `exitCodeServiceFailure`
abbrev pub exit_code_service_failure : ℕ
exit_code_service_failure = 1

-- the end of `run`: the status for what the command returned, with the exit code of the supervisor
unfoldable pub exit_status : Result (Unit {0}) → ℕ → ℕ
exit_status (err e) exit_code = exit_code_service_failure
exit_status (ok _) exit_code = exit_code

-- The program supervises until its shutdown, and exits with a status.
pub data Progress : Type 0 where
  supervising : Progress
  exited : ℕ → Progress

-- Once the shutdown has begun, `startAllServices` returns at some time or the signal handler ends the
-- program. This is the status then, where the state is the one after the last event before it.
unfoldable pub progress : State → Progress
unfolding exit_status
progress t = if t.shut_down then exited (exit_status (ok tt) t.exit_code) else supervising

module _ {Reader : Type 0} (decode : Reader → Result ConfigRaw) (host : Host)
    (lookup_env : Text → Option Text) where
  -- `main` with the command that has no subcommand, which returns the error of `loadServices`, or
  -- supervises the services through these events
  unfoldable pub main : Text → Result Reader → List Event → Option Progress
  main config_file opened es = elim (load_services decode host lookup_env config_file opened) [
    | err e ↦ some (exited (exit_status (err e) 0))
    | ok s ↦ do t ← run es s; some (progress t)
  ]

  -- The configuration cannot be loaded, or a required service fails in the run.
  abbrev pub Fails : Text → Result Reader → List Event → Type 0
  Fails config_file opened es =
      (¬ ((config : Config) × Loads decode host lookup_env opened config))
      ⊎ ((s : State) × (load_services decode host lookup_env config_file opened ≡ ok s)
          × FailsIn es s)
