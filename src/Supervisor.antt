-- ===== src/Supervisor.antt =====
-- The supervisor's shared state and the operations on it: cmd/go-overlay/service.go, restart.go,
-- health.go and main.go. An operation that a lock makes atomic is one function of the state. A Go
-- panic (a channel closed twice, a wait group below zero) is `none`.
pub mod Restart
pub mod Control
pub mod Prepare
pub mod Step
pub mod Counts
pub mod Kept
pub mod Invariant
pub mod Safety
pub mod Shutdown
pub mod Drain
pub mod Reach
pub mod Settled
pub mod Start
pub mod Fatal
pub mod Apart
pub mod Monitor
pub mod Stop
pub mod Bound
pub mod Ordered
pub mod Boot
pub mod Load
pub mod Operator
use go_overlay.Base.{
  ℕ, zero, suc, Text, Map, lookup, insert, delete, Bool, true, false, List, Option, none, some,
  if◌then◌else◌, nat_eq, length, ◌∷◌,
}
use go_overlay.Config.{Service}
use go_overlay.Tracker.{Kind, Tracker, mark, poll}

pub data ServiceState : Type 0 where
  pending starting running stopping stopped failed : ServiceState

pub data StopIntent : Type 0 where
  none_yet shutdown restart_policy restart_operator : StopIntent

-- Who called `startService`: `processService`, which goes on when it returns, or a restart.
pub data Caller : Type 0 where
  boot restart : Caller

-- `ServiceProcess`: its name is that of its configuration. `canceled` is the state of the context
-- that `Cancel` cancels.
pub record Process : Type 0 where
  pub config : Service
  pub caller : Caller
  pub state : ServiceState
  pub last_error : Option Text
  pub intent : StopIntent
  pub canceled : Bool

abbrev pub name_of : Process → Text
name_of p = p.config.name

-- Where `processService` of a service is: at its start, in the pre-script, in the loop over the
-- dependencies, of which these are left, or in the wait after a dependency is ready.
pub data Phase : Type 0 where
  fresh scripting : Phase
  awaits lingers : List Text → Phase

pub record Waiting : Type 0 where
  pub service : Service
  pub phase : Phase

-- A `startService` that has seen no shutdown, up to `addActiveService`: its process starts some time
-- in between, or fails to.
pub record Launching : Type 0 where
  pub caller : Caller
  pub service : Service

-- The globals of main.go and restart.go. `waiting` holds the services whose `processService` has not
-- reached `startService`, `launching` those that are in `startService` after its look at
-- the shutdown and before `addActiveService`, and `timers` what `scheduleRestart` has put off, with the seconds.
pub record State : Type 0 where
  pub waiting : List Waiting
  pub launching : List Launching
  pub active : Map Process
  pub shutdown_wg : ℕ
  pub timers : List (Service × ℕ)
  pub restart_counts : Map ℕ
  pub deps : Tracker
  pub exit_code : ℕ
  pub once_done : Bool
  pub shut_down : Bool

infixl 5 ◌>>=◌
abbrev pub ◌>>=◌ {ℓ κ} : {A : Type ℓ} {B : Type κ} → Option A → (A → Option B) → Option B
none >>= f = none
some a >>= f = f a

-- `SetState`
abbrev pub set_state : ServiceState → Process → Process
set_state st p = record p { state = st }

-- `SetError`
unfoldable pub set_error : Option Text → Process → Process
set_error none p = record p { last_error = none }
set_error (some e) p = record p { last_error = some e; state = failed }

-- `RequestStop`: the first intent wins, and cancels the context of the service
unfoldable pub request_stop : StopIntent → Process → Process × Bool
request_stop intent p = elim p.intent [
  | none_yet ↦ (record p { intent = intent; canceled = true }, true)
  | _ ↦ (p, false)
]

-- `addActiveService`
unfoldable pub add_active_service : Process → State → State
add_active_service p s = record s {
  active = insert (name_of p) (set_state starting p) s.active;
  shutdown_wg = suc s.shutdown_wg;
}

-- a change of the process that the map has under a name
unfoldable pub update : Text → (Process → Process) → State → State
update name f s = elim (lookup name s.active) [
  | none ↦ s
  | some p ↦ record s { active = insert name (f p) s.active }
]

-- `shutdownWg.Done()`, with its panic below zero
abbrev pub done : ℕ → Option ℕ
done zero = none
done (suc n) = some n

-- `removeActiveService`. The process is set to STOPPED and then nobody reads it.
unfoldable pub remove_active_service : Text → State → Option State
remove_active_service name s = elim (lookup name s.active) [
  | none ↦ some s
  | some _ ↦ do
    n ← done s.shutdown_wg
    some (record s { active = delete name s.active; shutdown_wg = n })
]

unfoldable pub active_service_count : State → ℕ
active_service_count s = length s.active

-- `gracefulShutdown`: the first call cancels the shutdown context
unfoldable pub graceful_shutdown : State → State
graceful_shutdown s = if s.once_done then s else record s { once_done = true; shut_down = true }

-- `triggerServiceFailureShutdown`
unfoldable pub trigger_service_failure_shutdown : State → State
unfolding graceful_shutdown
trigger_service_failure_shutdown s =
    graceful_shutdown (record s { exit_code = if nat_eq s.exit_code 0 then 1 else s.exit_code })

-- `serviceDeps.MarkReady` and `deps.MarkFailed`
unfoldable pub mark_dep : Kind → Text → State → Option State
mark_dep kind name s = do deps ← mark kind name s.deps; some (record s { deps = deps })

-- a receive from `deps.Ready(name)` or `deps.Failed(name)` that does not block
unfoldable pub poll_dep : Kind → Text → State → State × Bool
poll_dep kind name s =
    let (deps, closed) = poll kind name s.deps in (record s { deps = deps }, closed)

-- `processService` goes on waiting
unfoldable pub wait_in : Phase → Service → State → State
wait_in phase service s = record s {
  waiting = record { service = service; phase = phase } ∷ s.waiting;
}

-- `startService` has started the process.
unfoldable pub launch_in : Caller → Service → State → State
launch_in caller service s = record s {
  launching = record { caller = caller; service = service } ∷ s.launching;
}
