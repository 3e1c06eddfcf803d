-- ===== src/Supervisor/Monitor.antt =====
-- The supervisor with the health monitors of its services: `startHealthMonitor` of
-- cmd/go-overlay/health.go, whose goroutine is started by `startService` and ends with the process.
pub mod Laws
pub mod Checks
pub mod Counted
use go_overlay.Base.{
  ℕ, suc, Text, Map, lookup, insert, delete, Bool, true, false, List, [], ◌∷◌, ◌++◌, Option, none,
  some, if◌then◌else◌,
}
use go_overlay.Base.Int.{ℤ}
use go_overlay.Config.{Service}
use go_overlay.Health.{apply_health_check_defaults, reaches}
use go_overlay.Supervisor.{State, ◌>>=◌}
use go_overlay.Supervisor.Control.{handle_unhealthy_service}
use go_overlay.Supervisor.Step.{Event, take, launching_name, step}

-- A monitor has its retries, with the default, and its `failureCount`.
pub record Monitored : Type 0 where
  pub supervisor : State
  pub monitors : Map (ℤ × ℕ)

-- An event of the supervisor, a check at a tick with its result, or a monitor that sees the end of
-- its context
pub data Move : Type 0 where
  does : Event → Move
  checks : Text → Bool → Move
  cancels : Text → Move

unfoldable pub start_monitor : Service → Map (ℤ × ℕ) → Map (ℤ × ℕ)
start_monitor service monitors = elim service.health_check [
  | none ↦ monitors
  | some hc ↦ insert service.name ((apply_health_check_defaults hc).retries, 0) monitors
]

-- The monitors after an event: one starts with the process of its service, and counts until its end.
-- Where a check is under way then and is the last of the failed ones, that is the event `lapses`.
unfoldable pub monitors_after : Event → State → Map (ℤ × ℕ) → Map (ℤ × ℕ)
monitors_after (Event.registers n) s monitors = elim (take launching_name n s.launching) [
  | none ↦ monitors
  | some (l, _) ↦ start_monitor l.service monitors
]
monitors_after (Event.exits n e) s monitors = elim (lookup n s.active) [
  | none ↦ monitors
  | some _ ↦ delete n monitors
]
monitors_after _ s monitors = monitors

-- a round of the loop after a tick
unfoldable pub on_check : Text → ℤ → ℕ → Bool → Monitored → Monitored
on_check n retries failures true m = record m { monitors = insert n (retries, 0) m.monitors }
on_check n retries failures false m =
    if reaches (suc failures) retries
    then record {
      supervisor = handle_unhealthy_service n m.supervisor;
      monitors = delete n m.monitors;
    }
    else record m { monitors = insert n (retries, suc failures) m.monitors }

-- The event of `handleUnhealthyService`, which is the monitor's
abbrev pub is_sickens : Event → Bool
is_sickens (Event.sickens n) = true
is_sickens _ = false

-- An event of the supervisor itself
unfoldable pub on_event : Event → Monitored → Option Monitored
on_event e m = do
  t ← step e m.supervisor
  some (record { supervisor = t; monitors = monitors_after e m.supervisor m.monitors })

-- Only a monitor makes a service unhealthy.
unfoldable pub move : Move → Monitored → Option Monitored
move (does e) m = if is_sickens e then some m else on_event e m
move (checks n healthy) m = elim (lookup n m.monitors) [
  | none ↦ some m
  | some (retries, failures) ↦ some (on_check n retries failures healthy m)
]
move (cancels n) m =
    if m.supervisor.shut_down then some (record m { monitors = delete n m.monitors }) else some m

unfoldable pub run_monitored : List Move → Monitored → Option Monitored
run_monitored [] m = some m
run_monitored (x ∷ moves) m = do m' ← move x m; run_monitored moves m'

-- the event of a check, where it is the last of the failed ones
abbrev pub check_events : Text → Bool → Option (ℤ × ℕ) → List Event
check_events n healthy none = []
check_events n true (some (retries, failures)) = []
check_events n false (some (retries, failures)) =
    if reaches (suc failures) retries then Event.sickens n ∷ [] else []

-- What a move is for the supervisor
unfoldable pub events_at : Move → Monitored → List Event
events_at (does e) m = if is_sickens e then [] else e ∷ []
events_at (checks n healthy) m = check_events n healthy (lookup n m.monitors)
events_at (cancels n) m = []

unfoldable pub events_of : List Move → Monitored → List Event
events_of [] m = []
events_of (x ∷ moves) m = elim (move x m) [
  | none ↦ events_at x m
  | some m' ↦ events_at x m ++ events_of moves m'
]
