-- ===== src/Supervisor/Kept/Parts.antt =====
-- The property through the parts of an event.
use go_overlay.Base.{
  ◌&&◌, Text, ◌==◌, Bool, List, [], ◌∷◌, Option, none, some, ◌≡◌, refl, if_elim, if◌then◌else◌,
}
use go_overlay.Base.Int.{above}
use go_overlay.Config.{Service}
use go_overlay.Tracker.{Kind}
use go_overlay.Supervisor.{
  State, Caller, boot, restart, Phase, fresh, scripting, awaits, lingers, mark_dep, poll_dep,
  wait_in, set_state, set_error, request_stop, StopIntent, none_yet, shutdown, restart_policy,
  restart_operator, running,
}
use go_overlay.Supervisor.Restart.{
  record_error, handle_service_exit, should_restart, is_exhausted, is_error,
}
use go_overlay.Supervisor.Prepare.{
  Launch, fails, starts, Started, skipped, refused, up, Signal, hears_ready, hears_failed,
  times_out, shuts_down, ticks, start_service, register_service, after_start, fail_required,
  run_pre_script, wait_after_dependency, wait_for_dependency, linger, on_enter, on_script,
  on_signal, on_launch, on_abort, wait_time,
}
use go_overlay.Supervisor.Kept.{Kept, Holds, Holds-bind, SameConfig}

pub record_error-SameConfig : (i : StopIntent) (e : Option Text) → SameConfig (record_error i e)
unfolding set_error
record_error-SameConfig none_yet (some e) p = refl
record_error-SameConfig none_yet none p = refl
record_error-SameConfig shutdown e p = refl
record_error-SameConfig restart_policy e p = refl
record_error-SameConfig restart_operator e p = refl

pub request_stop-SameConfig : (i : StopIntent) → SameConfig (λ q. (request_stop i q).0)
unfolding request_stop
request_stop-SameConfig i p = go p.intent refl
  where
    go : (x : StopIntent) → p.intent ≡ x → (request_stop i p).0.config ≡ p.config
    go none_yet h = rw (h, request_stop) refl
    go shutdown h = rw (h, request_stop) refl
    go restart_policy h = rw (h, request_stop) refl
    go restart_operator h = rw (h, request_stop) refl

module _ {N : Type 0} {P : State → Type 0} {Out : Service → State → Type 0}
    {OutW : Phase → Service → State → Type 0} {OutL : Service → State → Type 0}
    (kept : Kept N P Out OutW OutL) where
  pub fail_required-Kept : (service : Service) (s : State) → P s → P (fail_required service s)
  fail_required-Kept service s p = if_elim P service.required _ _ (λ _. kept.trigger s p) (λ _. p)

  pub handle_service_exit-Kept :
      (service : Service) (e : Option Text) (s : State)
      → Out service s
      → P s
      → P (handle_service_exit service e s)
  unfolding handle_service_exit
  handle_service_exit-Kept service e s out p =
      if_elim P (should_restart service e && is_exhausted service s) _ _
        (λ _. fail_required-Kept service s p)
        (λ x.
          if_elim P (should_restart service e) _ _ (λ y. kept.repeats service e s x y out p)
            (λ _. if_elim P (service.required && is_error e) _ _ (λ _. kept.trigger s p) (λ _. p)))

  pub start_service-Kept :
      (l : Launch) (c : Caller) (service : Service) (s : State)
      → Out service s
      → P s
      → P (start_service l c service s).0
  unfolding start_service
  start_service-Kept (fails e) c service s out p =
      if_elim {A = State × Started} (λ r. P r.0) s.shut_down _ _ (λ _. p) (λ _. p)
  start_service-Kept starts c service s out p =
      if_elim {A = State × Started} (λ r. P r.0) s.shut_down _ _ (λ _. p)
        (λ d. kept.begins c service s d out p)

  pub register_service-Kept :
      (c : Caller) (service : Service) (s : State)
      → OutL service s
      → P s
      → Holds N P (register_service c service s)
  unfolding register_service
  register_service-Kept c service s out p =
      let w =
        kept.updates service.name (set_state running) _ (λ _. refl)
          (kept.starts c service s out p) in
      if_elim (Holds N P) service.oneshot _ _ (λ _. w) (λ _. kept.marks Kind.ready service.name _ w)

  after_start-Kept :
      (r : Started) (service : Service) (s : State) → P s → Holds N P (after_start r service s)
  unfolding after_start
  after_start-Kept skipped service s p =
      if_elim (Holds N P) service.oneshot _ _ (λ _. kept.marks Kind.ready service.name s p) (λ _. p)
  after_start-Kept (refused e) service s p =
      Holds-bind N P P _ _ (kept.marks Kind.failed service.name s p)
        (λ t h. fail_required-Kept service t h)
  after_start-Kept up service s p = p

  pub on_abort-Kept :
      (e : Text) (c : Caller) (service : Service) (s : State)
      → P s
      → Holds N P (on_abort e c service s)
  unfolding on_abort
  on_abort-Kept e restart service s p = p
  on_abort-Kept e boot service s p = after_start-Kept (refused e) service s p

  pub on_enter-Kept :
      (phase : Phase) (service : Service) (s : State)
      → OutW phase service s
      → P s
      → Holds N P (on_enter phase service s)
  unfolding on_enter
  on_enter-Kept fresh service s out p =
      if_elim P s.shut_down _ _ (λ _. p)
        (λ _. kept.waits scripting service s (kept.enters service s out) p)
  on_enter-Kept scripting service s out p = kept.waits scripting service s out p
  on_enter-Kept (awaits ds) service s out p = kept.waits (awaits ds) service s out p
  on_enter-Kept (lingers ds) service s out p = kept.waits (lingers ds) service s out p

  -- The pre-script of the service has run, or it has failed.
  script_ran :
      (b : Bool) (service : Service) (s : State)
      → OutW scripting service s
      → P s
      → Holds N P (on_script b scripting service s)
  unfolding on_script run_pre_script
  script_ran b service s out p =
      if_elim {A = State × Bool} Continues (service.pre_script == []) _ _ (λ _. go_on)
        (λ _.
          if_elim {A = State × Bool} Continues b _ _ (λ _. go_on)
            (λ _. kept.marks Kind.failed service.name _ (fail_required-Kept service s p)))
    where
      Continues : State × Bool → Type 0
      Continues r = Holds N P (
          if r.1
          then some (wait_in (awaits service.depends_on) service r.0)
          else mark_dep Kind.failed service.name r.0)

      go_on : P (wait_in (awaits service.depends_on) service s)
      go_on = kept.waits (awaits service.depends_on) service s (kept.scripted service s out p) p

  pub on_script-Kept :
      (b : Bool) (phase : Phase) (service : Service) (s : State)
      → OutW phase service s
      → P s
      → Holds N P (on_script b phase service s)
  unfolding on_script
  on_script-Kept b fresh service s out p = kept.waits fresh service s out p
  on_script-Kept b scripting service s out p = script_ran b service s out p
  on_script-Kept b (awaits ds) service s out p = kept.waits (awaits ds) service s out p
  on_script-Kept b (lingers ds) service s out p = kept.waits (lingers ds) service s out p

  -- The state after both polls of a dependency.
  both_polled :
      (dep : Text) (phase : Phase) (service : Service) (s : State)
      → OutW phase service s
      → P s
      → let t = (poll_dep Kind.failed dep (poll_dep Kind.ready dep s).0).0 in
        OutW phase service t × P t
  both_polled dep phase service s out p =
      let (o, q) = kept.polls Kind.ready dep phase service s out p in
      kept.polls Kind.failed dep phase service _ o q

  after_ready :
      (dep : Text) (left : List Text) (service : Service) (s : State)
      → OutW (awaits left) service s × OutW (lingers left) service s
      → P s
      → let t = (poll_dep Kind.failed dep (poll_dep Kind.ready dep s).0).0 in
        P (wait_in (wait_after_dependency service dep left) service t)
  unfolding wait_after_dependency
  after_ready dep left service s (a, l) p =
      if_elim
        (λ phase.
          P (wait_in phase service (poll_dep Kind.failed dep (poll_dep Kind.ready dep s).0).0))
        (above 0 (wait_time service dep)) (lingers left) (awaits left)
        (λ _.
          let (o, q) = both_polled dep (lingers left) service s l p in
          kept.waits (lingers left) service _ o q)
        (λ _.
          let (o, q) = both_polled dep (awaits left) service s a p in
          kept.waits (awaits left) service _ o q)

  wait_for_dependency-Kept :
      (signal : Signal) (dep : Text) (left : List Text) (service : Service) (s : State)
      → OutW (awaits (dep ∷ left)) service s
      → P s
      → Holds N P (wait_for_dependency signal dep left service s)
  unfolding wait_for_dependency
  wait_for_dependency-Kept hears_ready dep left service s out p =
      if_elim P (poll_dep Kind.ready dep s).1 _ _
        (λ e. after_ready dep left service s (kept.hears service dep left s out p e) p)
        (λ _. let (o, q) = both_polled dep _ service s out p in kept.waits _ service _ o q)
  wait_for_dependency-Kept hears_failed dep left service s out p =
      let (o, q) = both_polled dep (awaits (dep ∷ left)) service s out p in
      let t = (poll_dep Kind.failed dep (poll_dep Kind.ready dep s).0).0 in
      if_elim (Holds N P) (poll_dep Kind.failed dep (poll_dep Kind.ready dep s).0).1
        (mark_dep Kind.failed service.name t) (some (wait_in (awaits (dep ∷ left)) service t))
        (λ _. kept.marks Kind.failed service.name t q)
        (λ _. kept.waits (awaits (dep ∷ left)) service t o q)
  wait_for_dependency-Kept times_out dep left service s out p =
      let (o, q) = both_polled dep (awaits (dep ∷ left)) service s out p in
      kept.marks Kind.failed service.name _ q
  wait_for_dependency-Kept shuts_down dep left service s out p =
      let (o, q) = both_polled dep (awaits (dep ∷ left)) service s out p in
      if_elim (Holds N P) s.shut_down _ _ (λ _. kept.marks Kind.failed service.name _ q)
        (λ _. kept.waits (awaits (dep ∷ left)) service _ o q)
  wait_for_dependency-Kept ticks dep left service s out p =
      let (o, q) = both_polled dep (awaits (dep ∷ left)) service s out p in
      kept.waits (awaits (dep ∷ left)) service _ o q

  linger-Kept :
      (signal : Signal) (left : List Text) (service : Service) (s : State)
      → OutW (lingers left) service s
      → P s
      → Holds N P (linger signal left service s)
  unfolding linger
  linger-Kept hears_ready left service s out p = kept.waits (lingers left) service s out p
  linger-Kept hears_failed left service s out p = kept.waits (lingers left) service s out p
  linger-Kept times_out left service s out p =
      kept.waits (awaits left) service s (kept.lingered service left s out) p
  linger-Kept shuts_down left service s out p =
      if_elim (Holds N P) s.shut_down _ _ (λ _. kept.marks Kind.failed service.name s p)
        (λ _. kept.waits (lingers left) service s out p)
  linger-Kept ticks left service s out p = kept.waits (lingers left) service s out p

  pub on_signal-Kept :
      (signal : Signal) (phase : Phase) (service : Service) (s : State)
      → OutW phase service s
      → P s
      → Holds N P (on_signal signal phase service s)
  unfolding on_signal
  on_signal-Kept signal fresh service s out p = kept.waits fresh service s out p
  on_signal-Kept signal scripting service s out p = kept.waits scripting service s out p
  on_signal-Kept signal (awaits []) service s out p = kept.waits (awaits []) service s out p
  on_signal-Kept signal (awaits (d ∷ left)) service s out p =
      wait_for_dependency-Kept signal d left service s out p
  on_signal-Kept signal (lingers left) service s out p = linger-Kept signal left service s out p

  pub on_launch-Kept :
      (l : Launch) (phase : Phase) (service : Service) (s : State)
      → OutW phase service s
      → P s
      → Holds N P (on_launch l phase service s)
  unfolding on_launch
  on_launch-Kept l fresh service s out p = kept.waits fresh service s out p
  on_launch-Kept l scripting service s out p = kept.waits scripting service s out p
  on_launch-Kept l (awaits []) service s out p =
      after_start-Kept (start_service l boot service s).1 service _
        (start_service-Kept l boot service s (kept.launches service s out) p)
  on_launch-Kept l (awaits (d ∷ left)) service s out p =
      kept.waits (awaits (d ∷ left)) service s out p
  on_launch-Kept l (lingers left) service s out p = kept.waits (lingers left) service s out p
