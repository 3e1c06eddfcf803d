-- ===== src/Supervisor/Prepare.antt =====
-- `processService` of cmd/go-overlay/service.go from its first line to the start of the service: the
-- pre-script, the wait for the dependencies, and `startService`. What ends a wait comes with the
-- event: a signal is a case of the `select` that the runtime may take.
use go_overlay.Base.{
  Text, ◌==◌, Bool, true, false, List, [], ◌∷◌, Option, none, some, if◌then◌else◌,
}
use go_overlay.Base.Int.{ℤ, pos, above}
use go_overlay.Config.{Service, get_wait_time}
use go_overlay.Tracker.{Kind}
use go_overlay.Supervisor.{
  launch_in, Process, State, Caller, boot, restart, pending, running, none_yet, Phase, fresh,
  scripting, awaits, lingers, set_state, add_active_service, update, mark_dep,
  trigger_service_failure_shutdown, poll_dep, wait_in, ◌>>=◌,
}

-- Whether the command of a service could be started.
pub data Launch : Type 0 where
  fails : Text → Launch
  starts : Launch

-- How `startService` came back before the service ran, or that it runs.
pub data Started : Type 0 where
  skipped : Started
  refused : Text → Started
  up : Started

abbrev pub new_process : Caller → Service → Process
new_process caller service = record {
  config = service;
  caller = caller;
  state = pending;
  last_error = none;
  intent = none_yet;
  canceled = false;
}

-- `startService` up to its look at the shutdown, the only one, where it fails right after it, or goes on
-- to start its process at any later time.
unfoldable pub start_service : Launch → Caller → Service → State → State × Started
start_service launch caller service s =
    if s.shut_down
    then (s, skipped)
    else elim launch [ fails e ↦ (s, refused e) | starts ↦ (launch_in caller service s, up) ]

-- `startService` from `addActiveService` up to where it waits for the process, whether the shutdown has
-- begun meanwhile or not
unfoldable pub register_service : Caller → Service → State → Option State
register_service caller service s =
    let t =
      update service.name (set_state running) (add_active_service (new_process caller service) s) in
    if service.oneshot then some t else mark_dep Kind.ready service.name t

abbrev pub fail_required : Service → State → State
fail_required service s = if service.required then trigger_service_failure_shutdown s else s

-- the `switch` of `processService` where `startService` came back at once
unfoldable pub after_start : Started → Service → State → Option State
after_start skipped service s =
    if service.oneshot then mark_dep Kind.ready service.name s else some s
after_start (refused e) service s = do
  t ← mark_dep Kind.failed service.name s
  some (fail_required service t)
after_start up service s = some s

-- A `startService` that has passed its look at the shutdown cannot start its process: for its caller
-- `processService`, or `restartServiceInternal`, which only logs the error.
unfoldable pub on_abort : Text → Caller → Service → State → Option State
on_abort e restart service s = some s
on_abort e boot service s = after_start (refused e) service s

-- `runPreScript`, where the script, if there is one, succeeds or fails
unfoldable pub run_pre_script : Bool → Service → State → State × Bool
run_pre_script succeeds service s =
    if service.pre_script == []
    then (s, true)
    else if succeeds
    then (s, true)
    else (fail_required service s, false)

-- the rounds of a `select`: what it takes
pub data Signal : Type 0 where
  hears_ready hears_failed times_out shuts_down ticks : Signal

-- the time that `waitForServiceDependencies` passes on
unfoldable pub wait_time : Service → Text → ℤ
wait_time service dep = elim service.wait_after [ none ↦ pos 0 | some w ↦ get_wait_time w dep ]

-- `waitAfterDependency` up to its `select`, with the loop that goes on after it
unfoldable pub wait_after_dependency : Service → Text → List Text → Phase
wait_after_dependency service dep left =
    if above 0 (wait_time service dep) then lingers left else awaits left

-- One round of `waitForDependency`. A case whose channel is open is not taken, nor is the shutdown
-- before it happens; the loop goes round.
unfoldable pub wait_for_dependency : Signal → Text → List Text → Service → State → Option State
wait_for_dependency signal dep left service s =
    let (s1, ready) = poll_dep Kind.ready dep s in
    let (s2, failed) = poll_dep Kind.failed dep s1 in
    let again = wait_in (awaits (dep ∷ left)) service s2 in
    elim signal [
      | hears_ready ↦
          some
            (if ready then wait_in (wait_after_dependency service dep left) service s2 else again)
      | hears_failed ↦ if failed then mark_dep Kind.failed service.name s2 else some again
      | times_out ↦ mark_dep Kind.failed service.name s2
      | shuts_down ↦ if s.shut_down then mark_dep Kind.failed service.name s2 else some again
      | ticks ↦ some again
    ]

-- the `select` of `waitAfterDependency`
unfoldable pub linger : Signal → List Text → Service → State → Option State
linger signal left service s = elim signal [
  | times_out ↦ some (wait_in (awaits left) service s)
  | shuts_down ↦
      if s.shut_down
      then mark_dep Kind.failed service.name s
      else some (wait_in (lingers left) service s)
  | _ ↦ some (wait_in (lingers left) service s)
]

-- `processService` begins: it sees the shutdown, or runs the pre-script.
unfoldable pub on_enter : Phase → Service → State → Option State
on_enter fresh service s = some (if s.shut_down then s else wait_in scripting service s)
on_enter phase service s = some (wait_in phase service s)

-- The pre-script has ended.
unfoldable pub on_script : Bool → Phase → Service → State → Option State
on_script succeeds scripting service s =
    let (t, ran) = run_pre_script succeeds service s in
    if ran
    then some (wait_in (awaits service.depends_on) service t)
    else mark_dep Kind.failed service.name t
on_script succeeds phase service s = some (wait_in phase service s)

-- A round of one of the waits.
unfoldable pub on_signal : Signal → Phase → Service → State → Option State
on_signal signal (awaits (dep ∷ left)) service s = wait_for_dependency signal dep left service s
on_signal signal (lingers left) service s = linger signal left service s
on_signal signal phase service s = some (wait_in phase service s)

-- The loop over the dependencies is done: `startService`, and the `switch` after it.
unfoldable pub on_launch : Launch → Phase → Service → State → Option State
on_launch launch (awaits []) service s =
    let (t, r) = start_service launch boot service s in after_start r service t
on_launch launch phase service s = some (wait_in phase service s)
