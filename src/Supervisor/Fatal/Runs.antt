-- ===== src/Supervisor/Fatal/Runs.antt =====
-- The exit code through every event, and through whole runs.
use go_overlay.Base.{
  Text, ==_iff, lookup, List, [], ◌∷◌, Option, none, some, ◌≡◌, ◌⊎◌, ◌||◌, inl, inr, refl, sym, ap,
  ◌∙◌, subst, arith, ◌≤◌, Option-cases, if_elim,
}
use mathlib.Core.Option.{some-injective}
use go_overlay.Config.{Service, restart_always, restart_on_failure}
use go_overlay.Tracker.{ready}
use go_overlay.Supervisor.{
  Process, State, Caller, restart, update, ◌>>=◌, add_active_service, launch_in, request_stop,
  shutdown, stopping, set_state, restart_policy, restart_operator, running,
}
use go_overlay.Supervisor.Restart.{restart_count}
use go_overlay.Supervisor.Prepare.{
  Launch, fails, starts, new_process, start_service, on_script, on_launch, register_service,
}
use go_overlay.Supervisor.Control.{
  handle_unhealthy_service, handle_unhealthy_ended, handle_restart_service,
}
use go_overlay.Supervisor.Step.{
  Event, take, waiting_name, launching_name, timer_name, on_waiting, on_fire, step, run,
}
use go_overlay.Supervisor.Invariant.{IsValid}
use go_overlay.Supervisor.Safety.{step-IsValid}
use go_overlay.Supervisor.Fatal.{
  FailsInScript, FailsAtStart, FailsInHealth, FailsUnderWay, Fatal, Sets, Sets-same,
  graceful_shutdown-exit_code, trigger-exit_code, FailsAfter, SameCode, update-SameCounts,
}
use go_overlay.Supervisor.Fatal.Steps.{
  SetsIn, same-SetsIn, iff-SetsIn, on_exit-SetsIn, on_waiting-SetsIn,
}
use go_overlay.Supervisor.Fatal.Handlers.{
  on_enter-SameCode, on_signal-SameCode, on_script-SetsIn, on_launch-SetsIn, on_abort-SetsIn,
  marked,
}

-- An event that concerns what is found, and nothing where nothing is
found-SetsIn :
    {A : Type 0} (o : Option A) (s : State) (F : A → Type 0) (go : A → Option State)
    → ((a : A) → o ≡ some a → SetsIn (F a) s (go a))
    → SetsIn ((a : A) × (o ≡ some a) × F a) s (elim o [ none ↦ some s | some a ↦ go a ])
found-SetsIn none s F go h = Sets-same _ _ _ refl (λ (a, e, f). cc e)
found-SetsIn (some a) s F go h =
    iff-SetsIn (F a) _ s _ (λ x. (a, refl, x), λ (b, e, x). subst F (sym (some-injective a b e)) x)
      (h a refl)

found-SameCode :
    {A : Type 0} (o : Option A) (s : State) (go : A → Option State)
    → ((a : A) → SameCode s (go a))
    → SameCode s (elim o [ none ↦ some s | some a ↦ go a ])
found-SameCode none s go h = refl
found-SameCode (some a) s go h = h a

start_service-exit_code :
    (launch : Launch) (c : Caller) (service : Service) (s : State)
    → (start_service launch c service s).0.exit_code ≡ s.exit_code
unfolding start_service launch_in
start_service-exit_code (fails e) c service s = ground arith
start_service-exit_code starts c service s = ground arith

register_service-SameCode :
    (c : Caller) (service : Service) (s : State) → SameCode s (register_service c service s)
unfolding register_service add_active_service
register_service-SameCode c service s =
    let t = add_active_service (new_process c service) s in
    let u = update service.name (set_state running) t in
    let e = (update-SameCounts service.name (set_state running) t).0 in
    if_elim (SameCode s) service.oneshot _ _ (λ _. e) (λ _. marked ready service.name s u e)

-- What `handleUnhealthyService` does to the process
unhealthy-Sets :
    (n : Text) (p : Process) (s : State)
    → s.exit_code ≤ 1
    → lookup n s.active ≡ some p
    → Sets (FailsInHealth p.config) s.exit_code (handle_unhealthy_service n s).exit_code
unfolding handle_unhealthy_service
unhealthy-Sets n p s h e =
    rw (e, handle_unhealthy_service)
      (ground (
        arith,
        ==_iff p.config.restart restart_always,
        ==_iff p.config.restart restart_on_failure,
        trigger-exit_code s h,
        (update-SameCounts n (λ q. (request_stop restart_policy q).0) s).0,
      ))

handle_restart_service-exit_code :
    (n : Text) (s : State) → (handle_restart_service n s).0.exit_code ≡ s.exit_code
unfolding handle_restart_service
handle_restart_service-exit_code n s =
    ground (arith, (update-SameCounts n (λ q. (request_stop restart_operator q).0) s).0)

sickens-SetsIn :
    (n : Text) (s : State)
    → s.exit_code ≤ 1
    → Sets
        ((p : Process) × (lookup n s.active ≡ some p) × FailsInHealth p.config)
        s.exit_code
        (handle_unhealthy_service n s).exit_code
unfolding handle_unhealthy_service
sickens-SetsIn n s h = elim (Option-cases (lookup n s.active)) [
  | inl e ↦ rw (e, handle_unhealthy_service) (Sets-same _ _ _ refl (λ (p, i, f). cc i))
  | inr (p, e) ↦
      iff-SetsIn (FailsInHealth p.config) _ s (some (handle_unhealthy_service n s))
        (
          λ f. (p, e, f),
          λ (q, i, f). subst (λ r. FailsInHealth r.config) (sym (some-injective p q (sym e ∙ i))) f,
        )
        (unhealthy-Sets n p s h e)
]

ended-Sets :
    (service : Service) (s : State)
    → s.exit_code ≤ 1
    → Sets (FailsInHealth service) s.exit_code (handle_unhealthy_ended service s).exit_code
unfolding handle_unhealthy_ended
ended-Sets service s h = ground (
  arith,
  ==_iff service.restart restart_always,
  ==_iff service.restart restart_on_failure,
  trigger-exit_code s h,
)

-- An event changes the exit code exactly where a required service fails in it.
step-SetsIn : (e : Event) (s : State) → s.exit_code ≤ 1 → SetsIn (Fatal e s) s (step e s)
unfolding step on_fire on_waiting
step-SetsIn (Event.enters n) s h =
    same-SetsIn ⊥ s _
      (found-SameCode (take waiting_name n s.waiting) s _
        (λ (w, rest). on_enter-SameCode w.phase w.service (record s { waiting = rest })))
      (λ x. x)
step-SetsIn (Event.scripted n succeeds) s h =
    on_waiting-SetsIn n (on_script succeeds) s (FailsInScript succeeds) (λ phase service rest.
      on_script-SetsIn succeeds phase service (record s { waiting = rest }) h)
step-SetsIn (Event.hears n signal) s h =
    same-SetsIn ⊥ s _
      (found-SameCode (take waiting_name n s.waiting) s _
        (λ (w, rest). on_signal-SameCode signal w.phase w.service (record s { waiting = rest })))
      (λ x. x)
step-SetsIn (Event.launches n launch) s h =
    on_waiting-SetsIn n (on_launch launch) s (λ phase service. FailsAtStart launch phase service s)
      (λ phase service rest. on_launch-SetsIn launch phase service (record s { waiting = rest }) h)
step-SetsIn (Event.registers n) s h =
    same-SetsIn ⊥ s _
      (found-SameCode (take launching_name n s.launching) s _
        (λ (l, rest). register_service-SameCode l.caller l.service (record s { launching = rest })))
      (λ x. x)
step-SetsIn (Event.aborts n e) s h =
    found-SetsIn (take launching_name n s.launching) s (λ l. FailsUnderWay l.0.caller l.0.service) _
      (λ (l, rest) i. on_abort-SetsIn e l.caller l.service (record s { launching = rest }) h)
step-SetsIn (Event.exits n e) s h =
    found-SetsIn (lookup n s.active) s
      (λ p. FailsAfter p.intent p.config e (restart_count p.config.name s)) _
      (λ p i. on_exit-SetsIn p e s h)
step-SetsIn (Event.observes n) s h =
    same-SetsIn ⊥ s _
      (found-SameCode (lookup n s.active) s _ (λ p.
        if_elim (SameCode s) (p.canceled || s.shut_down) _ _
          (λ _. (update-SameCounts n (λ q. set_state stopping (request_stop shutdown q).0) s).0)
          (λ _. refl)))
      (λ x. x)
step-SetsIn (Event.fires n launch) s h =
    same-SetsIn ⊥ s _
      (found-SameCode (take timer_name n s.timers) s _
        (λ (t, rest). start_service-exit_code launch restart t.0 (record s { timers = rest })))
      (λ x. x)
step-SetsIn (Event.sickens n) s h = sickens-SetsIn n s h
step-SetsIn (Event.restarts n) s h = Sets-same _ _ _ (handle_restart_service-exit_code n s) (λ x. x)
step-SetsIn Event.signals s h = Sets-same _ _ _ (graceful_shutdown-exit_code s) (λ x. x)
step-SetsIn (Event.lapses service) s h = ended-Sets service s h

-- A required service fails somewhere in this run.
abbrev pub FailsIn : List Event → State → Type 0
FailsIn [] s = ⊥
FailsIn (e ∷ es) s = Fatal e s ⊎ ((t : State) × (step e s ≡ some t) × FailsIn es t)

pub run-Sets :
    (es : List Event) (s t : State)
    → IsValid s
    → run es s ≡ some t
    → Sets (FailsIn es s) s.exit_code t.exit_code
unfolding run
run-Sets [] s t v h = Sets-same _ _ _ (sym (ap (λ r. r.exit_code) (some-injective s t h))) (λ x. x)
run-Sets (e ∷ es) s t v h =
    let (u, i, w) = step-IsValid e s v in
    let first = subst (SetsIn (Fatal e s) s) i (step-SetsIn e s v.exit_code) in
    let rest = run-Sets es u t w (sym (ap (λ o. o >>= run es) i) ∙ h) in
    (
      λ k. elim (rest.0 k) [
        | inl a ↦ elim (first.0 a) [ inl b ↦ inl b | inr f ↦ inr (inl f) ]
        | inr f ↦ inr (inr (u, i, f))
      ],
      λ k. rest.1 (elim k [
        | inl a ↦ inl (first.1 (inl a))
        | inr f ↦ elim f [
          | inl x ↦ inl (first.1 (inr x))
          | inr (u', j, x) ↦ inr (subst (FailsIn es) (some-injective u' u (sym j ∙ i)) x)
        ]
      ]),
    )
