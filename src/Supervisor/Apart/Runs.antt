-- ===== src/Supervisor/Apart/Runs.antt =====
-- The marks of the services through every event, and through whole runs.
use go_overlay.Base.{
  Text, ◌==◌, lookup, true, false, List, [], ◌∷◌, Option, none, some, if_elim, ◌≡◌, ◌∙◌, refl, sym,
  ap, subst, arith, inl, inr, Option-cases, ◌||◌,
}
use mathlib.Core.Option.{some-injective}
use go_overlay.Config.{Service, restart_always, restart_on_failure}
use go_overlay.Tracker.{ready, failed, is_marked}
use go_overlay.Supervisor.{
  State, restart, Waiting, Phase, set_state, stopping, shutdown, restart_policy, restart_operator,
  StopIntent, request_stop, ◌>>=◌,
}
use go_overlay.Supervisor.Prepare.{
  Launch, Started, fails, starts, start_service, on_enter, on_script, on_signal, on_launch,
}
use go_overlay.Supervisor.Control.{Response, handle_unhealthy_service, handle_restart_service}
use go_overlay.Supervisor.Control.{handle_unhealthy_ended}
use go_overlay.Supervisor.Apart.{Pending}
use go_overlay.Supervisor.Apart.Events.{on_abort-IsApart}
use go_overlay.Supervisor.Step.{
  Event, take, waiting_name, launching_name, timer_name, on_fire, on_waiting, step, run,
}
use go_overlay.Supervisor.Kept.{Holds}
use go_overlay.Supervisor.Counts.{All-take}
use go_overlay.Config.{Config}
use go_overlay.Base.{All-intro}
use go_overlay.Validation.Host.{Host}
use go_overlay.Validation.Config.{validated, validate_config}
use go_overlay.Validation.Config.Laws.{validate_config_iff}
use go_overlay.Tracker.{new_dependency_tracker, poll}
use go_overlay.Tracker.Marks.{new-IsValid, poll-PollOf}
use go_overlay.Supervisor.{poll_dep}
use go_overlay.Supervisor.Step.{enabled_services, start_all_services}
use go_overlay.Supervisor.Boot.{start_all_services-IsValid}
use go_overlay.Supervisor.Safety.{run-IsValid}
use go_overlay.Supervisor.Invariant.{IsValid}
use go_overlay.Supervisor.Safety.{step-IsValid, take_waiting, take_launching}
use go_overlay.Supervisor.Apart.{
  Unmarked, Going, IsApart, graceful-IsApart, trigger-IsApart, SameRole, update-IsApart,
}
use go_overlay.Supervisor.Apart.Events.{
  Idle, launch_in-IsApart, on_enter-IsApart, on_script-IsApart, on_signal-IsApart,
  on_launch-IsApart,
}
use go_overlay.Supervisor.Apart.Registers.{register_service-IsApart}
use go_overlay.Supervisor.Apart.Ends.{on_exit-IsApart}

-- An event that concerns what is found, and nothing where nothing is
found-IsApart :
    {A : Type 0} (o : Option A) (s : State) (go : A → Option State)
    → IsApart s
    → ((a : A) → o ≡ some a → Holds Unit IsApart (go a))
    → Holds Unit IsApart (elim o [ none ↦ some s | some a ↦ go a ])
found-IsApart none s go h f = h
found-IsApart (some a) s go h f = f a refl

taken-Idle :
    (n : Text) (s : State) (w : Waiting) (rest : List Waiting)
    → take waiting_name n s.waiting ≡ some (w, rest)
    → IsValid s
    → IsApart s
    → Idle w.service.name (record s { waiting = rest })
taken-Idle n s w rest e v h =
    let (absent, valid) = take_waiting n s w rest e v in
    let (u, left) =
      All-take (λ x. Unmarked x.service.name s.deps) waiting_name n s.waiting rest w e h.waiting in
    record {
      valid = valid;
      absent = absent;
      unmarked = u;
      marks = record {
        tracked = h.tracked;
        apart = h.apart;
        waiting = left;
        launching = h.launching;
        active = h.active;
        timers = h.timers;
      };
    }

on_waiting-IsApart :
    (n : Text) (go : Phase → Service → State → Option State) (s : State)
    → IsValid s
    → IsApart s
    → ((phase : Phase) (service : Service) (t : State)
        → Idle service.name t
        → Holds Unit IsApart (go phase service t))
    → Holds Unit IsApart (on_waiting n go s)
unfolding on_waiting
on_waiting-IsApart n go s v h f =
    found-IsApart (take waiting_name n s.waiting) s
      (λ x. go x.0.phase x.0.service (record s { waiting = x.1 })) h
      (λ (w, rest) e.
        f w.phase w.service (record s { waiting = rest }) (taken-Idle n s w rest e v h))

start_service-IsApart :
    (launch : Launch) (service : Service) (s : State)
    → Going restart service s.deps
    → IsApart s
    → IsApart (start_service launch restart service s).0
unfolding start_service
start_service-IsApart (fails e) service s g h =
    if_elim (λ (r : State × Started). IsApart r.0) s.shut_down _ _ (λ _. h) (λ _. h)
start_service-IsApart starts service s g h =
    if_elim (λ (r : State × Started). IsApart r.0) s.shut_down _ _ (λ _. h)
      (λ _. launch_in-IsApart restart service s (g, λ x. cc) h)

request_stop-SameRole : (i : StopIntent) → SameRole (λ q. (request_stop i q).0)
unfolding request_stop
request_stop-SameRole i p = (ground arith, ground arith)

unhealthy-IsApart : (n : Text) (s : State) → IsApart s → IsApart (handle_unhealthy_service n s)
unfolding handle_unhealthy_service
unhealthy-IsApart n s h = elim (Option-cases (lookup n s.active)) [
  | inl e ↦ rw (e, handle_unhealthy_service) h
  | inr (p, e) ↦
      rw (e, handle_unhealthy_service)
        (if_elim IsApart
          (p.config.restart == restart_always || p.config.restart == restart_on_failure) _ _
          (λ _.
            update-IsApart n (λ q. (request_stop restart_policy q).0) s
              (request_stop-SameRole restart_policy) h)
          (λ _. if_elim IsApart p.config.required _ _ (λ _. trigger-IsApart s h) (λ _. h)))
]

restart-IsApart : (n : Text) (s : State) → IsApart s → IsApart (handle_restart_service n s).0
unfolding handle_restart_service
restart-IsApart n s h = elim (Option-cases (lookup n s.active)) [
  | inl e ↦ rw (e, handle_restart_service) h
  | inr (p, e) ↦
      rw (e, handle_restart_service)
        (if_elim (λ (r : State × Response). IsApart r.0) (request_stop restart_operator p).1 _ _
          (λ _.
            update-IsApart n (λ q. (request_stop restart_operator q).0) s
              (request_stop-SameRole restart_operator) h)
          (λ _. h))
]

step-IsApart : (e : Event) (s : State) → IsValid s → IsApart s → Holds Unit IsApart (step e s)
unfolding step on_fire handle_unhealthy_ended
step-IsApart (Event.enters n) s v h = on_waiting-IsApart n on_enter s v h on_enter-IsApart
step-IsApart (Event.scripted n b) s v h =
    on_waiting-IsApart n (on_script b) s v h (on_script-IsApart b)
step-IsApart (Event.hears n signal) s v h =
    on_waiting-IsApart n (on_signal signal) s v h (on_signal-IsApart signal)
step-IsApart (Event.launches n launch) s v h =
    on_waiting-IsApart n (on_launch launch) s v h (on_launch-IsApart launch)
step-IsApart (Event.registers n) s v h =
    found-IsApart (take launching_name n s.launching) s _ h (λ (l, rest) e.
      let (absent, valid) = take_launching n s l rest e v in
      let (g, left) =
        All-take (λ x. Pending x.caller x.service s.deps) launching_name n s.launching rest l e
          h.launching in
      register_service-IsApart l.caller l.service (record s { launching = rest }) g.0 absent valid
        (record {
          tracked = h.tracked;
          apart = h.apart;
          waiting = h.waiting;
          launching = left;
          active = h.active;
          timers = h.timers;
        }))
step-IsApart (Event.aborts n x) s v h =
    found-IsApart (take launching_name n s.launching) s _ h (λ (l, rest) e.
      let (absent, valid) = take_launching n s l rest e v in
      let (g, left) =
        All-take (λ x. Pending x.caller x.service s.deps) launching_name n s.launching rest l e
          h.launching in
      on_abort-IsApart x l.caller l.service (record s { launching = rest }) g absent valid
        (record {
          tracked = h.tracked;
          apart = h.apart;
          waiting = h.waiting;
          launching = left;
          active = h.active;
          timers = h.timers;
        }))
step-IsApart (Event.exits n e) s v h =
    found-IsApart (lookup n s.active) s _ h (λ p l. on_exit-IsApart n p e s l v h)
step-IsApart (Event.observes n) s v h = found-IsApart (lookup n s.active) s _ h (λ p l.
    if_elim (Holds Unit IsApart) (p.canceled || s.shut_down) _ _
      (λ _.
        update-IsApart n (λ q. set_state stopping (request_stop shutdown q).0) s
          (request_stop-SameRole shutdown) h)
      (λ _. h))
step-IsApart (Event.fires n launch) s v h =
    found-IsApart (take timer_name n s.timers) s _ h (λ (t, rest) e.
      let (g, left) =
        All-take (λ x. Going restart x.0 s.deps) timer_name n s.timers rest t e h.timers in
      start_service-IsApart launch t.0 (record s { timers = rest }) g
        (record {
          tracked = h.tracked;
          apart = h.apart;
          waiting = h.waiting;
          launching = h.launching;
          active = h.active;
          timers = left;
        }))
step-IsApart (Event.sickens n) s v h = unhealthy-IsApart n s h
step-IsApart (Event.restarts n) s v h = restart-IsApart n s h
step-IsApart Event.signals s v h = graceful-IsApart s h
step-IsApart (Event.lapses service) s v h =
    if_elim IsApart (service.restart == restart_always || service.restart == restart_on_failure) _ _
      (λ _. h) (λ _. if_elim IsApart service.required _ _ (λ _. trigger-IsApart s h) (λ _. h))

pub run-IsApart :
    (es : List Event) (s t : State) → IsValid s → IsApart s → run es s ≡ some t → IsApart t
unfolding run
run-IsApart [] s t v h e = subst IsApart (some-injective s t e) h
run-IsApart (e ∷ es) s t v h r =
    let (u, i, w) = step-IsValid e s v in
    run-IsApart es u t w (subst (Holds Unit IsApart) i (step-IsApart e s v h))
      (sym (ap (λ o. o >>= run es) i) ∙ r)

start_all_services-IsApart : (config : Config) → IsApart (start_all_services config)
unfolding start_all_services new_dependency_tracker lookup is_marked
start_all_services-IsApart config = record {
  tracked = new-IsValid;
  apart = λ n h. refl;
  waiting = All-intro _ (enabled_services config.services) (λ w m. (refl, refl));
  launching = tt;
  active = λ n p e. absurd (ground arith);
  timers = tt;
}

-- The two polls of a round of `waitForDependency` do not both find an open channel.
abbrev pub OneAnswer : Text → State → Type 0
OneAnswer dep s =
    let (s1, is_ready) = poll_dep ready dep s in
    let (s2, has_failed) = poll_dep failed dep s1 in is_ready ≡ true → has_failed ≡ false

polls-OneAnswer : (dep : Text) (s : State) → IsApart s → OneAnswer dep s
unfolding poll_dep
polls-OneAnswer dep s h =
    let first = poll-PollOf ready dep s.deps h.tracked in
    let second = poll-PollOf failed dep (poll ready dep s.deps).0 first.valid in
    λ e. second.answer ∙ first.marks failed dep ∙ h.apart dep (sym first.answer ∙ e)

-- Where `validateConfig` reports nothing, every sequence of events from the start runs without a panic
-- to a state in which no name was marked both ready and failed, so that a wait for a dependency never
-- finds both of its channels closed and Go has no choice between them.
pub run-OneAnswer :
    (host : Host) (lookup_env : Text → Option Text) (config : Config) (es : List Event)
    → (validate_config host lookup_env config).1 ≡ []
    → (t : State) × (run es (start_all_services (validated host lookup_env config)) ≡ some t)
      × ((n : Text) → OneAnswer n t)
run-OneAnswer host lookup_env config es h =
    let v =
      start_all_services-IsValid host lookup_env config
        ((validate_config_iff host lookup_env config).0 h) in
    let (t, e, w) = run-IsValid es _ v in
    let a =
      run-IsApart es _ t v (start_all_services-IsApart (validated host lookup_env config)) e in
    (t, e, λ n. polls-OneAnswer n t a)
