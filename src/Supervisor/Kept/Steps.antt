-- ===== src/Supervisor/Kept/Steps.antt =====
-- The property through every event, and through sequences of events.
use go_overlay.Base.{
  Text, ◌==◌, lookup, List, [], ◌∷◌, Option, none, some, ◌≡◌, if_elim, Option-cases, inl, inr, ◌||◌,
}
use go_overlay.Config.{Service, restart_always, restart_on_failure}
use go_overlay.Tracker.{Kind}
use go_overlay.Supervisor.{
  Process, State, Caller, boot, restart, Phase, update, mark_dep, set_state, request_stop,
  StopIntent, none_yet, shutdown, restart_policy, restart_operator, stopping,
}
use go_overlay.Supervisor.Restart.{finish_intent, finish_service, record_error, unhealthy_error}
use go_overlay.Supervisor.Prepare.{Launch, fail_required, on_enter, on_script, on_signal, on_launch}
use go_overlay.Supervisor.Control.{
  Response, handle_unhealthy_service, handle_unhealthy_ended, handle_restart_service,
}
use go_overlay.Supervisor.Step.{
  Event, enters, scripted, hears, launches, registers, aborts, exits, observes, fires, sickens,
  restarts, signals, lapses, take, waiting_name, timer_name, launching_name, after_exit, on_exit,
  on_fire, on_waiting, step, run,
}
use go_overlay.Supervisor.Kept.{Kept, Holds, Holds-bind}
use go_overlay.Supervisor.Kept.Parts.{
  record_error-SameConfig, request_stop-SameConfig, fail_required-Kept, start_service-Kept,
  register_service-Kept, on_abort-Kept, on_enter-Kept, on_script-Kept, on_signal-Kept,
  on_launch-Kept, handle_service_exit-Kept,
}

module _ {N : Type 0} {P : State → Type 0} {Out : Service → State → Type 0}
    {OutW : Phase → Service → State → Type 0} {OutL : Service → State → Type 0}
    (kept : Kept N P Out OutW OutL) where
  finish_intent-Kept :
      (i : StopIntent) (service : Service) (e : Option Text) (s : State)
      → Out service s
      → P s
      → P (finish_intent i service e s).0
  unfolding finish_intent
  finish_intent-Kept shutdown service e s out p = p
  finish_intent-Kept restart_operator service e s out p = kept.requeues service s out p
  finish_intent-Kept restart_policy service e s out p =
      handle_service_exit-Kept kept service (some unhealthy_error) s out p
  finish_intent-Kept none_yet service e s out p = handle_service_exit-Kept kept service e s out p

  after_exit-Kept :
      (c : Caller) (service : Service) (e : Option Text) (s : State)
      → P s
      → Holds N P (after_exit c service e s)
  unfolding after_exit
  after_exit-Kept restart service e s p = p
  after_exit-Kept boot service e s p =
      if_elim (Holds N P) service.oneshot _ _ (λ _. marked e) (λ _. p)
    where
      marked :
          (o : Option Text)
          → Holds N P (elim o [
            | none ↦ mark_dep Kind.ready service.name s
            | some _ ↦ mark_dep Kind.failed service.name s
          ])
      marked none = kept.marks Kind.ready service.name s p
      marked (some _) = kept.marks Kind.failed service.name s p

  on_exit-Kept :
      (n : Text) (p : Process) (e : Option Text) (s : State)
      → lookup n s.active ≡ some p
      → P s
      → Holds N P (on_exit p e s)
  unfolding on_exit finish_service
  on_exit-Kept n p e s found q =
      Holds-bind N (λ (r : State × Option Text). P r.0) P _ _
        (Holds-bind N (λ t. Out p.config t × P t) (λ (r : State × Option Text). P r.0) _ _
          (kept.leaves n p (record_error p.intent e) s found (record_error-SameConfig p.intent e) q)
          (λ t h. finish_intent-Kept p.intent p.config e t h.0 h.1))
        (λ r h. after_exit-Kept p.caller p.config r.1 r.0 h)

  on_fire-Kept :
      (l : Launch) (service : Service) (s : State)
      → Out service s
      → P s
      → Holds N P (on_fire l service s)
  unfolding on_fire
  on_fire-Kept l service s out p = start_service-Kept kept l restart service s out p

  handle_unhealthy_service-Kept : (n : Text) (s : State) → P s → P (handle_unhealthy_service n s)
  unfolding handle_unhealthy_service
  handle_unhealthy_service-Kept n s p = elim (Option-cases (lookup n s.active)) [
    | inl e ↦ rw (e, handle_unhealthy_service) p
    | inr (q, e) ↦
        rw (e, handle_unhealthy_service)
          (if_elim P (q.config.restart == restart_always || q.config.restart == restart_on_failure)
            (update n (λ q. (request_stop restart_policy q).0) s) (fail_required q.config s)
            (λ _.
              kept.updates n (λ q. (request_stop restart_policy q).0) s
                (request_stop-SameConfig restart_policy) p)
            (λ _. fail_required-Kept kept q.config s p))
  ]

  handle_unhealthy_ended-Kept :
      (service : Service) (s : State) → P s → P (handle_unhealthy_ended service s)
  unfolding handle_unhealthy_ended
  handle_unhealthy_ended-Kept service s p =
      if_elim P (service.restart == restart_always || service.restart == restart_on_failure) s
        (fail_required service s) (λ _. p) (λ _. fail_required-Kept kept service s p)

  handle_restart_service-Kept : (n : Text) (s : State) → P s → P (handle_restart_service n s).0
  unfolding handle_restart_service
  handle_restart_service-Kept n s p = elim (Option-cases (lookup n s.active)) [
    | inl e ↦ rw (e, handle_restart_service) p
    | inr (q, e) ↦
        rw (e, handle_restart_service)
          (if_elim {A = State × Response} (λ r. P r.0) (request_stop restart_operator q).1 _ _
            (λ _.
              kept.updates n (λ q. (request_stop restart_operator q).0) s
                (request_stop-SameConfig restart_operator) p)
            (λ _. p))
  ]

  on_waiting-Kept :
      (n : Text) (go : Phase → Service → State → Option State) (s : State)
      → ((phase : Phase) (service : Service) (t : State)
          → OutW phase service t
          → P t
          → Holds N P (go phase service t))
      → P s
      → Holds N P (on_waiting n go s)
  unfolding on_waiting
  on_waiting-Kept n go s h p = elim (Option-cases (take waiting_name n s.waiting)) [
    | inl e ↦ rw (e, on_waiting) p
    | inr ((w, rest), e) ↦
        let (out, q) = kept.takes n s w rest e p in rw (e, on_waiting) (h w.phase w.service _ out q)
  ]

  pub step-Kept : (e : Event) (s : State) → P s → Holds N P (step e s)
  unfolding step
  step-Kept (enters n) s p = on_waiting-Kept n on_enter s (on_enter-Kept kept) p
  step-Kept (scripted n b) s p = on_waiting-Kept n (on_script b) s (on_script-Kept kept b) p
  step-Kept (hears n signal) s p =
      on_waiting-Kept n (on_signal signal) s (on_signal-Kept kept signal) p
  step-Kept (launches n l) s p = on_waiting-Kept n (on_launch l) s (on_launch-Kept kept l) p
  step-Kept (registers n) s p = elim (Option-cases (take launching_name n s.launching)) [
    | inl e ↦ rw (e, step) p
    | inr ((l, rest), e) ↦
        let (out, q) = kept.registers n s l rest e p in
        rw (e, step) (register_service-Kept kept l.caller l.service _ out q)
  ]
  step-Kept (aborts n x) s p = elim (Option-cases (take launching_name n s.launching)) [
    | inl e ↦ rw (e, step) p
    | inr ((l, rest), e) ↦
        let (out, q) = kept.registers n s l rest e p in
        rw (e, step) (on_abort-Kept kept x l.caller l.service _ q)
  ]
  step-Kept (exits n x) s p = elim (Option-cases (lookup n s.active)) [
    | inl e ↦ rw (e, step) p
    | inr (q, e) ↦ rw (e, step) (on_exit-Kept n q x s e p)
  ]
  step-Kept (observes n) s p = elim (Option-cases (lookup n s.active)) [
    | inl e ↦ rw (e, step) p
    | inr (q, e) ↦
        rw (e, step)
          (if_elim (Holds N P) (q.canceled || s.shut_down) _ _
            (λ _.
              kept.updates n (λ q. set_state stopping (request_stop shutdown q).0) s
                (request_stop-SameConfig shutdown) p)
            (λ _. p))
  ]
  step-Kept (fires n l) s p = elim (Option-cases (take timer_name n s.timers)) [
    | inl e ↦ rw (e, step) p
    | inr ((t, rest), e) ↦
        let (out, q) = kept.fires n s t rest e p in rw (e, step) (on_fire-Kept l t.0 _ out q)
  ]
  step-Kept (sickens n) s p = handle_unhealthy_service-Kept n s p
  step-Kept (restarts n) s p = handle_restart_service-Kept n s p
  step-Kept signals s p = kept.graceful s p
  step-Kept (lapses service) s p = handle_unhealthy_ended-Kept service s p

  pub run-Kept : (es : List Event) (s : State) → P s → Holds N P (run es s)
  unfolding run
  run-Kept [] s p = p
  run-Kept (e ∷ es) s p = Holds-bind N P P (step e s) (run es) (step-Kept e s p) (run-Kept es)
