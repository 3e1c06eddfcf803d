-- ===== src/Supervisor/Restart.antt =====
-- cmd/go-overlay/restart.go: restart counts, the restart policy and scheduled restarts; and
-- `finishService` of cmd/go-overlay/service.go, which calls them.
use go_overlay.Base.{
  ℕ, suc, Text, lit, ◌==◌, lookup, insert, delete, Bool, true, false, ◌&&◌, [], ◌∷◌, ◌++◌, Option,
  none, some, if◌then◌else◌, leb,
}
use go_overlay.Base.Int.{ℤ, pos, above, to_ℕ}
use go_overlay.Config.{Service, restart_always, restart_on_failure}
use go_overlay.Supervisor.{
  Process, State, name_of, none_yet, shutdown, restart_policy, restart_operator, set_error, update,
  remove_active_service, trigger_service_failure_shutdown, ◌>>=◌, StopIntent,
}

abbrev pub count_or_zero : Option ℕ → ℕ
count_or_zero none = 0
count_or_zero (some n) = n

-- `restartCounts[name]`
unfoldable pub restart_count : Text → State → ℕ
restart_count name s = count_or_zero (lookup name s.restart_counts)

unfoldable pub increment_restart_count : Text → State → State
unfolding restart_count
increment_restart_count name s = record s {
  restart_counts = insert name (suc (restart_count name s)) s.restart_counts;
}

unfoldable pub reset_restart_count : Text → State → State
reset_restart_count name s = record s { restart_counts = delete name s.restart_counts }

-- `scheduleRestart`; a delay below zero is zero
unfoldable pub schedule_restart : Service → ℤ → State → State
schedule_restart service delay s = record s { timers = s.timers ++ (service, to_ℕ delay) ∷ [] }

abbrev pub is_error : Option Text → Bool
is_error none = false
is_error (some _) = true

-- the `switch` on the policy
unfoldable pub should_restart : Service → Option Text → Bool
should_restart service exit_err =
    if service.restart == restart_always
    then true
    else if service.restart == restart_on_failure
    then is_error exit_err
    else false

-- `if delay <= 0 { delay = 1 }`
unfoldable pub restart_delay_of : Service → ℤ
restart_delay_of service = if above 0 service.restart_delay then service.restart_delay else pos 1

-- `maxRestarts > 0 && restartCount(name) >= maxRestarts`
unfoldable pub is_exhausted : Service → State → Bool
is_exhausted service s =
    above 0 service.max_restarts && leb (to_ℕ service.max_restarts) (restart_count service.name s)

unfoldable pub handle_service_exit : Service → Option Text → State → State
handle_service_exit service exit_err s =
    if should_restart service exit_err && is_exhausted service s
    then (if service.required then trigger_service_failure_shutdown s else s)
    else if should_restart service exit_err
    then schedule_restart service (restart_delay_of service)
        (increment_restart_count service.name s)
    else if service.required && is_error exit_err
    then trigger_service_failure_shutdown s
    else s

abbrev pub unhealthy_error : Text
unhealthy_error = lit "service reported unhealthy"

-- The `switch` of `finishService` on the intent: the state, and the error that is returned.
unfoldable pub finish_intent : StopIntent → Service → Option Text → State → State × Option Text
finish_intent shutdown service exit_err s = (s, none)
finish_intent restart_operator service exit_err s =
    (schedule_restart service (pos 1) (reset_restart_count service.name s), none)
finish_intent restart_policy service exit_err s =
    (handle_service_exit service (some unhealthy_error) s, none)
finish_intent none_yet service exit_err s = (handle_service_exit service exit_err s, exit_err)

abbrev pub record_error : StopIntent → Option Text → Process → Process
record_error none_yet (some e) p = set_error (some e) p
record_error _ _ p = p

unfoldable pub finish_service : Process → Option Text → State → Option (State × Option Text)
finish_service p exit_err s = do
  let s' = update (name_of p) (record_error p.intent exit_err) s
  t ← remove_active_service (name_of p) s'
  some (finish_intent p.intent p.config exit_err t)
