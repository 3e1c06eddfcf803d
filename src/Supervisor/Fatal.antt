-- ===== src/Supervisor/Fatal.antt =====
-- When a required service counts as failed, so that the program exits with a status other than zero. The
-- calls of `triggerServiceFailureShutdown` of cmd/go-overlay/main.go are in service.go,
-- restart.go and health.go.
pub mod Steps
pub mod Handlers
pub mod Runs
use go_overlay.Base.{
  ℕ, zero, suc, Text, ◌==◌, ==_iff, lookup, Bool, true, false, List, [], ◌∷◌, Option, none, some,
  ◌≡◌, ◌≢◌, ◌↔◌, ◌⊎◌, inl, inr, refl, sym, ◌∙◌, subst, arith, ◌≤◌, ◌<◌, if_elim, Option-cases,
  nat_eq, delete, ◌&&◌, leb, if◌then◌else◌, Bool-cases,
}
use go_overlay.Base.Int.{ℤ, pos, negsuc, above, to_ℕ}
use go_overlay.Config.{Service, restart_always, restart_on_failure}
use go_overlay.Tracker.{Kind, mark}
use go_overlay.Supervisor.{
  Process, State, Caller, boot, restart, Launching, Phase, StopIntent, none_yet, shutdown,
  restart_policy, restart_operator, Waiting, scripting, awaits, update, mark_dep, graceful_shutdown,
  trigger_service_failure_shutdown, remove_active_service, ◌>>=◌, done,
}
use go_overlay.Supervisor.Restart.{
  restart_count, should_restart, is_exhausted, is_error, handle_service_exit, schedule_restart,
  increment_restart_count, reset_restart_count, unhealthy_error, finish_intent,
}
use go_overlay.Supervisor.Prepare.{Launch, fails, Signal}
use go_overlay.Supervisor.Step.{Event, take, waiting_name, launching_name}
use go_overlay.Supervisor.Kept.{Holds}

-- The policy of a service asks for a restart after this error, or none.
abbrev pub WantsRestart : Service → Option Text → Type 0
WantsRestart service e =
    (service.restart ≡ restart_always) ⊎ ((service.restart ≡ restart_on_failure) × (e ≢ none))

-- The service has a limit of restarts, and was restarted as often.
abbrev pub HasExhausted : Service → ℕ → Type 0
HasExhausted service count = (to_ℕ service.max_restarts ≢ 0) × (to_ℕ service.max_restarts ≤ count)

-- A required service that was restarted so often has ended and does not come back.
abbrev pub FailsAtExit : Service → Option Text → ℕ → Type 0
FailsAtExit service e count =
    (service.required ≡ true)
    × ((WantsRestart service e × HasExhausted service count)
        ⊎ ((¬ WantsRestart service e) × (e ≢ none)))

-- The end of a process is the failure of a service, by what it was told before.
abbrev pub FailsAfter : StopIntent → Service → Option Text → ℕ → Type 0
FailsAfter none_yet service e count = FailsAtExit service e count
FailsAfter restart_policy service e count = FailsAtExit service (some unhealthy_error) count
FailsAfter _ service e count = ⊥

-- A required service has a pre-script, and it failed.
abbrev pub FailsInScript : Bool → Phase → Service → Type 0
FailsInScript succeeds phase service =
    (succeeds ≡ false) × (phase ≡ scripting) × (service.pre_script ≢ []) × (service.required ≡ true)

-- A required service could not be started before the shutdown.
abbrev pub FailsAtStart : Launch → Phase → Service → State → Type 0
FailsAtStart launch phase service s =
    ((e : Text) × (launch ≡ fails e))
    × (phase ≡ awaits [])
    × (s.shut_down ≡ false)
    × (service.required ≡ true)

-- A required service that is not restarted for it is unhealthy.
abbrev pub FailsInHealth : Service → Type 0
FailsInHealth service =
    (service.required ≡ true)
    × (service.restart ≢ restart_always)
    × (service.restart ≢ restart_on_failure)

-- A required service cannot be started in its first run, where the shutdown may have begun meanwhile.
abbrev pub FailsUnderWay : Caller → Service → Type 0
FailsUnderWay boot service = service.required ≡ true
FailsUnderWay restart service = ⊥

-- A required service fails in this event.
abbrev pub Fatal : Event → State → Type 0
Fatal (Event.scripted n succeeds) s =
    (w : Waiting) × (rest : List Waiting) × (take waiting_name n s.waiting ≡ some (w, rest))
    × FailsInScript succeeds w.phase w.service
Fatal (Event.launches n launch) s =
    (w : Waiting) × (rest : List Waiting) × (take waiting_name n s.waiting ≡ some (w, rest))
    × FailsAtStart launch w.phase w.service s
Fatal (Event.exits n e) s =
    (p : Process) × (lookup n s.active ≡ some p)
    × FailsAfter p.intent p.config e (restart_count p.config.name s)
Fatal (Event.sickens n) s = (p : Process) × (lookup n s.active ≡ some p) × FailsInHealth p.config
Fatal (Event.aborts n e) s =
    (l : Launching × List Launching) × (take launching_name n s.launching ≡ some l)
    × FailsUnderWay l.0.caller l.0.service
Fatal (Event.lapses service) s = FailsInHealth service
Fatal _ s = ⊥

-- The exit code goes from `a` to `b`, and is 1 then exactly where it was, or `F`.
abbrev pub Sets : Type 0 → ℕ → ℕ → Type 0
Sets F a b = (b ≡ 1) ↔ ((a ≡ 1) ⊎ F)

pub Sets-same : (F : Type 0) (a b : ℕ) → b ≡ a → ¬ F → Sets F a b
Sets-same F a b e n = (λ h. inl (sym e ∙ h), λ h. elim h [ inl k ↦ e ∙ k | inr f ↦ absurd (n f) ])

pub Sets-one : (F : Type 0) (a b : ℕ) → b ≡ 1 → F → Sets F a b
Sets-one F a b e f = (λ h. inr f, λ h. e)

pub graceful_shutdown-exit_code : (s : State) → (graceful_shutdown s).exit_code ≡ s.exit_code
unfolding graceful_shutdown
graceful_shutdown-exit_code s = ground arith

pub trigger-exit_code :
    (s : State) → s.exit_code ≤ 1 → (trigger_service_failure_shutdown s).exit_code ≡ 1
unfolding trigger_service_failure_shutdown
trigger-exit_code s h = ground (
  arith,
  graceful_shutdown-exit_code
      (record s { exit_code = if nat_eq s.exit_code 0 then 1 else s.exit_code }),
)

-- An operation that leaves the exit code alone.
abbrev pub SameCode : State → Option State → Type 0
SameCode s o = Holds Unit (λ t. t.exit_code ≡ s.exit_code) o

pub mark_dep-SameCode : (k : Kind) (n : Text) (s : State) → SameCode s (mark_dep k n s)
unfolding mark_dep
mark_dep-SameCode k n s = elim (Option-cases (mark k n s.deps)) [
  | inl e ↦ rw (e, mark_dep) tt
  | inr (d, e) ↦ rw (e, mark_dep) refl
]

-- An operation that leaves the exit code and the counts of restarts alone.
abbrev pub SameCounts : State → State → Type 0
SameCounts s t = (t.exit_code ≡ s.exit_code) × (t.restart_counts ≡ s.restart_counts)

pub update-SameCounts : (n : Text) (f : Process → Process) (s : State) → SameCounts s (update n f s)
unfolding update
update-SameCounts n f s = ground arith

pub remove_active_service-SameCounts :
    (n : Text) (s : State) → Holds Unit (SameCounts s) (remove_active_service n s)
unfolding remove_active_service
remove_active_service-SameCounts n s = elim (Option-cases (lookup n s.active)) [
  | inl e ↦ rw (e, remove_active_service) (refl, refl)
  | inr (p, e) ↦ rw (e, remove_active_service) (go s.shutdown_wg)
]
  where
    go :
        (w : ℕ)
        → Holds Unit
            (SameCounts s)
            (do k ← done w; some (record s { active = delete n s.active; shutdown_wg = k }))
    go zero = tt
    go (suc w) = (refl, refl)

should_restart_iff :
    (service : Service) (e : Option Text)
    → (should_restart service e ≡ true) ↔ WantsRestart service e
unfolding should_restart
should_restart_iff service none =
    ground (arith, ==_iff service.restart restart_always, ==_iff service.restart restart_on_failure)
should_restart_iff service (some e) =
    ground (arith, ==_iff service.restart restart_always, ==_iff service.restart restart_on_failure)

reaches_limit :
    (m : ℤ) (c : ℕ) → ((above 0 m && leb (to_ℕ m) c) ≡ true) ↔ ((to_ℕ m ≢ 0) × (to_ℕ m ≤ c))
reaches_limit (pos m) c = ground arith
reaches_limit (negsuc m) c = ground arith

pub is_exhausted_iff :
    (service : Service) (s : State)
    → (is_exhausted service s ≡ true) ↔ HasExhausted service (restart_count service.name s)
unfolding is_exhausted
is_exhausted_iff service s = reaches_limit service.max_restarts (restart_count service.name s)

is_error_iff : (e : Option Text) → (is_error e ≡ true) ↔ (e ≢ none)
is_error_iff none = ground arith
is_error_iff (some e) = ground arith

pub handle_service_exit-Sets :
    (service : Service) (e : Option Text) (s : State)
    → s.exit_code ≤ 1
    → Sets
        (FailsAtExit service e (restart_count service.name s))
        s.exit_code
        (handle_service_exit service e s).exit_code
unfolding handle_service_exit schedule_restart increment_restart_count
handle_service_exit-Sets service e s h = ground (
  arith,
  should_restart_iff service e,
  is_exhausted_iff service s,
  is_error_iff e,
  trigger-exit_code s h,
)
