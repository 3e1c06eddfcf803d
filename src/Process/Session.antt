-- ===== src/Process/Session.antt =====
-- What a service that runs holds: `attachServiceOutput`, `closeServiceOutput`, and the parts of
-- `startService` around them that build the command and track the child, in
-- cmd/go-overlay/service.go. What the system answers is a parameter.
pub mod Laws
use go_overlay.Base.{
  ℕ, Text, lit, ◌==◌, ==_iff, Bool, true, false, ◌&&◌, ◌||◌, not, List, [], ◌∷◌, ◌++◌, Option, none,
  some, Result, ok, err, Result-cases, nat_eq, nat_eq_iff, if◌then◌else◌, if_elim, ◌≡◌, ◌∙◌, refl,
  sym, ap, arith, inl, inr, Bool-cases, Option-cases,
}
use go_overlay.Base.Int.{ℤ, above, int_eq, int_eq_iff}
use go_overlay.Config.{Service}
use go_overlay.Process.Command.{ServiceCommand}
use go_overlay.Process.Children.{
  Children, is_tracked_child, track_child, untrack_child, is_tracked_child-track,
  is_tracked_child-untrack,
}

-- The files that the supervisor has opened for services, by their numbers, and its children
pub record Held : Type 0 where
  pub files : List ℕ
  pub children : Children

unfoldable pub is_open : ℕ → List ℕ → Bool
is_open f [] = false
is_open f (g ∷ files) = nat_eq g f || is_open f files

-- `Close` of a file
unfoldable pub close_file : ℕ → List ℕ → List ℕ
close_file f [] = []
close_file f (g ∷ files) = let rest = close_file f files in if nat_eq g f then rest else g ∷ rest

abbrev pub close_if : Option ℕ → List ℕ → List ℕ
close_if none files = files
close_if (some f) files = close_file f files

-- The command with its output to a file, in a session of its own
pub record Redirected : Type 0 where
  pub command : ServiceCommand
  pub stdout : ℕ
  pub stderr : ℕ
  pub setsid : Bool

-- What starts a command at a new terminal (the process and the terminal), opens a log file to append
-- to it, and starts a command whose output is redirected.
pub record Launcher : Type 0 where
  pub start_pty : ServiceCommand → Result (ℤ × ℕ)
  pub open_log : Text → Result ℕ
  pub start : Redirected → Result ℤ

-- What `startService` keeps of a process that runs: its number, and `ptmx` and `logFile`.
pub record Session : Type 0 where
  pub pid : ℤ
  pub ptmx : Option ℕ
  pub log_file : Option ℕ

module _ (launcher : Launcher) where
  -- `attachServiceOutput` with a log file that is open
  unfoldable pub start_logged : ServiceCommand → Service → ℕ → Held → Held × Result Session
  start_logged command service log_file held =
      elim (launcher.start
        (record { command = command; stdout = log_file; stderr = log_file; setsid = true })) [
          | err e ↦ (
            record held { files = close_file log_file held.files },
            err (lit "error starting service " ++ service.name ++ lit ": " ++ e),
          )
          | ok pid ↦ (held, ok (record { pid = pid; ptmx = none; log_file = some log_file }))
        ]

  -- `attachServiceOutput` of a service without a log file
  unfoldable pub start_at_terminal : ServiceCommand → Service → Held → Held × Result Session
  start_at_terminal command service held = elim (launcher.start_pty command) [
    | err e ↦ (held, err (lit "error starting PTY for service " ++ service.name ++ lit ": " ++ e))
    | ok (pid, ptmx) ↦ (
      record held { files = ptmx ∷ held.files },
      ok (record { pid = pid; ptmx = some ptmx; log_file = none }),
    )
  ]

  unfoldable pub attach_service_output : ServiceCommand → Service → Held → Held × Result Session
  unfolding start_logged start_at_terminal
  attach_service_output command service held =
      if service.log_file == []
      then start_at_terminal command service held
      else elim (launcher.open_log service.log_file) [
        | err e ↦ (
          held,
          err (
              lit "error opening log file "
              ++ service.log_file
              ++ lit " for service "
              ++ service.name
              ++ lit ": "
              ++ e),
        )
        | ok log_file ↦
            start_logged command service log_file (record held { files = log_file ∷ held.files })
      ]

  -- `trackChild` of the process that was started
  unfoldable pub track_session : Held × Result Session → Held × Result Session
  track_session (held, err e) = (held, err e)
  track_session (held, ok x) = (record held { children = track_child x.pid held.children }, ok x)

  -- `startService` from `buildServiceCommand`, with what that returns, to `trackChild`
  unfoldable pub start_session : Result ServiceCommand → Service → Held → Held × Result Session
  unfolding track_session attach_service_output
  start_session (err e) service held = (held, err e)
  start_session (ok command) service held =
      track_session (attach_service_output command service held)

-- `startService` once the process has ended: `untrackChild` and `closeServiceOutput`
unfoldable pub end_session : Session → Held → Held
end_session x held = record {
  files = close_if x.log_file (close_if x.ptmx held.files);
  children = untrack_child x.pid held.children;
}

abbrev pub has_file : Option ℕ → ℕ → Bool
has_file none f = false
has_file (some g) f = nat_eq g f

-- The file is one of the session.
abbrev pub owns : Session → ℕ → Bool
owns x f = has_file x.ptmx f || has_file x.log_file f
