-- ===== src/Supervisor/Control.antt =====
-- What the health monitor of cmd/go-overlay/health.go and the operator through
-- cmd/go-overlay/ipc.go ask of a running service.
use go_overlay.Base.{
  ℕ, suc, Text, lit, ◌==◌, Map, lookup, Bool, true, false, ◌||◌, List, [], ◌∷◌, Option, map, ◌++◌,
  none, some, if◌then◌else◌, length,
}
use go_overlay.Base.Decimal.{decimal}
use go_overlay.Base.Int.{ℤ}
use go_overlay.Config.{Service, restart_always, restart_on_failure}
use go_overlay.Supervisor.{
  Process, State, ServiceState, running, failed, restart_policy, restart_operator, request_stop,
  update, trigger_service_failure_shutdown,
}

-- `handleUnhealthyService` of the process that is active under a name
unfoldable pub handle_unhealthy_service : Text → State → State
handle_unhealthy_service name s = elim (lookup name s.active) [
  | none ↦ s
  | some p ↦
      if p.config.restart == restart_always || p.config.restart == restart_on_failure
      then update name (λ q. (request_stop restart_policy q).0) s
      else if p.config.required
      then trigger_service_failure_shutdown s
      else s
]

-- `handleUnhealthyService` of a process that has ended: the last check, under way when it ended, fails.
-- A request to stop it comes too late.
unfoldable pub handle_unhealthy_ended : Service → State → State
handle_unhealthy_ended service s =
    if service.restart == restart_always || service.restart == restart_on_failure
    then s
    else if service.required
    then trigger_service_failure_shutdown s
    else s

pub record ServiceInfo : Type 0 where
  pub name : Text
  pub last_error : Text
  pub uptime : ℤ
  pub state : ServiceState
  pub pid : ℤ
  pub required : Bool

-- `IPCResponse`
pub record Response : Type 0 where
  pub message : Text
  pub services : List ServiceInfo
  pub success : Bool

-- a response without services
abbrev pub reply : Bool → Text → Response
reply success message = record { message = message; services = []; success = success }

unfoldable pub handle_restart_service : Text → State → State × Response
handle_restart_service name s = elim (lookup name s.active) [
  | none ↦ (s, reply false (lit "Service '" ++ name ++ lit "' not found"))
  | some p ↦
      if (request_stop restart_operator p).1
      then (
        update name (λ q. (request_stop restart_operator q).0) s,
        reply true (lit "Service '" ++ name ++ lit "' restart initiated"),
      )
      else (s, reply false (lit "Service '" ++ name ++ lit "' is already stopping or restarting"))
]

abbrev pub is_running : ServiceState → Bool
is_running running = true
is_running _ = false

abbrev pub is_failed : ServiceState → Bool
is_failed failed = true
is_failed _ = false

-- the counters of `handleGetStatus`
unfoldable pub count_state : (ServiceState → Bool) → Map Process → ℕ
count_state test [] = 0
count_state test ((_, p) ∷ m) =
    let rest = count_state test m in if test p.state then suc rest else rest

unfoldable pub handle_get_status : State → Response
handle_get_status s = reply true (
    lit "Total: "
    ++ decimal (length s.active)
    ++ lit ", Running: "
    ++ decimal (count_state is_running s.active)
    ++ lit ", Failed: "
    ++ decimal (count_state is_failed s.active))

-- The text of an `error` that may be nil, as the list shows it
abbrev pub error_or_empty : Option Text → Text
error_or_empty none = []
error_or_empty (some e) = e

-- `handleListServices`, where the process id and the time since the start of a service come from the
-- system
unfoldable pub handle_list_services : (Text → ℤ) → (Text → ℤ) → State → Response
handle_list_services pid uptime s = record {
  message = [];
  services =
      map
        (λ e. record {
          name = e.0;
          last_error = error_or_empty e.1.last_error;
          uptime = uptime e.0;
          state = e.1.state;
          pid = pid e.0;
          required = e.1.config.required;
        })
        s.active;
  success = true;
}
