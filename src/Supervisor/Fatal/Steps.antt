-- ===== src/Supervisor/Fatal/Steps.antt =====
-- The exit code through the events of the supervisor.
use go_overlay.Base.{
  Text, lookup, true, List, Option, none, some, ◌≡◌, ◌↔◌, inl, inr, refl, sym, ap, ◌∙◌, subst,
  arith, ◌≤◌, Option-cases, Bool-cases, if_elim,
}
use mathlib.Core.Option.{some-injective}
use go_overlay.Config.{Service}
use go_overlay.Tracker.{ready, failed}
use go_overlay.Supervisor.{
  Process, State, Phase, StopIntent, none_yet, shutdown, restart_policy, restart_operator, Waiting,
  Caller, boot, restart, update, remove_active_service,
}
use go_overlay.Supervisor.Restart.{
  count_or_zero, restart_count, handle_service_exit, schedule_restart, reset_restart_count,
  unhealthy_error, finish_intent, finish_service, record_error,
}
use go_overlay.Supervisor.Prepare.{fail_required}
use go_overlay.Supervisor.Step.{take, waiting_name, after_exit, on_exit, on_waiting}
use go_overlay.Supervisor.Kept.{Holds}
use go_overlay.Supervisor.Fatal.{
  FailsAtExit, FailsAfter, Sets, Sets-same, Sets-one, trigger-exit_code, SameCode,
  mark_dep-SameCode, SameCounts, update-SameCounts, remove_active_service-SameCounts,
  handle_service_exit-Sets,
}

-- An operation that changes the exit code exactly where `F`
abbrev pub SetsIn : Type 0 → State → Option State → Type 0
SetsIn F s o = Holds Unit (λ t. Sets F s.exit_code t.exit_code) o

pub same-SetsIn : (F : Type 0) (s : State) (o : Option State) → SameCode s o → ¬ F → SetsIn F s o
same-SetsIn F s none h n = tt
same-SetsIn F s (some t) h n = Sets-same F s.exit_code t.exit_code h n

-- What follows leaves the exit code alone.
pub then-SetsIn :
    (F : Type 0) (s t : State) (o : Option State)
    → Sets F s.exit_code t.exit_code
    → SameCode t o
    → SetsIn F s o
then-SetsIn F s t none h e = tt
then-SetsIn F s t (some u) h e = (λ k. h.0 (sym e ∙ k), λ k. e ∙ h.1 k)

pub iff-SetsIn : (F G : Type 0) (s : State) (o : Option State) → F ↔ G → SetsIn F s o → SetsIn G s o
iff-SetsIn F G s none i h = tt
iff-SetsIn F G s (some t) i h = (
  λ k. elim (h.0 k) [ inl a ↦ inl a | inr f ↦ inr (i.0 f) ],
  λ k. h.1 (elim k [ inl a ↦ inl a | inr g ↦ inr (i.1 g) ]),
)

pub fail_required-Sets :
    (F : Type 0) (service : Service) (s : State)
    → s.exit_code ≤ 1
    → (service.required ≡ true) ↔ F
    → Sets F s.exit_code (fail_required service s).exit_code
fail_required-Sets F service s h i = elim (Bool-cases service.required) [
  | inl e ↦ rw (e, fail_required) (Sets-one F _ _ (trigger-exit_code s h) (i.0 e))
  | inr e ↦ rw (e, fail_required) (Sets-same F _ _ refl (λ f. ground (arith, i.1 f)))
]

exit-Sets :
    (service : Service) (e : Option Text) (s t : State)
    → s.exit_code ≤ 1
    → SameCounts s t
    → Sets
        (FailsAtExit service e (restart_count service.name s))
        s.exit_code
        (handle_service_exit service e t).exit_code
unfolding restart_count
exit-Sets service e s t h c =
    let count : restart_count service.name t ≡ restart_count service.name s =
      ap (λ m. count_or_zero (lookup service.name m)) c.1 in
    subst
      (λ a.
        Sets (FailsAtExit service e (restart_count service.name s)) a
          (handle_service_exit service e t).exit_code)
      c.0
      (subst
        (λ n.
          Sets (FailsAtExit service e n) t.exit_code (handle_service_exit service e t).exit_code)
        count (handle_service_exit-Sets service e t (subst (λ a. a ≤ 1) (sym c.0) h)))

finish_intent-Sets :
    (i : StopIntent) (service : Service) (e : Option Text) (s t : State)
    → s.exit_code ≤ 1
    → SameCounts s t
    → Sets
        (FailsAfter i service e (restart_count service.name s))
        s.exit_code
        (finish_intent i service e t).0.exit_code
unfolding finish_intent schedule_restart reset_restart_count
finish_intent-Sets none_yet service e s t h c = exit-Sets service e s t h c
finish_intent-Sets shutdown service e s t h c = Sets-same ⊥ _ _ c.0 (λ x. x)
finish_intent-Sets restart_policy service e s t h c =
    exit-Sets service (some unhealthy_error) s t h c
finish_intent-Sets restart_operator service e s t h c = Sets-same ⊥ _ _ c.0 (λ x. x)

after_exit-SameCode :
    (c : Caller) (service : Service) (returned : Option Text) (s : State)
    → SameCode s (after_exit c service returned s)
unfolding after_exit
after_exit-SameCode restart service returned s = refl
after_exit-SameCode boot service none s =
    if_elim (SameCode s) service.oneshot _ _ (λ _. mark_dep-SameCode ready service.name s)
      (λ _. refl)
after_exit-SameCode boot service (some e) s =
    if_elim (SameCode s) service.oneshot _ _ (λ _. mark_dep-SameCode failed service.name s)
      (λ _. refl)

pub on_exit-SetsIn :
    (p : Process) (e : Option Text) (s : State)
    → s.exit_code ≤ 1
    → SetsIn (FailsAfter p.intent p.config e (restart_count p.config.name s)) s (on_exit p e s)
unfolding on_exit finish_service
on_exit-SetsIn p e s h =
    let n = p.config.name in
    let s' = update n (record_error p.intent e) s in
    elim (Option-cases (remove_active_service n s')) [
      | inl i ↦ rw i tt
      | inr (t, i) ↦
          let same : SameCounts s t =
            let a = update-SameCounts n (record_error p.intent e) s in
            let b = subst (Holds Unit (SameCounts s')) i (remove_active_service-SameCounts n s') in
            (b.0 ∙ a.0, b.1 ∙ a.1) in
          rw i (
            then-SetsIn _ s (finish_intent p.intent p.config e t).0 _
              (finish_intent-Sets p.intent p.config e s t h same)
              (after_exit-SameCode p.caller p.config (finish_intent p.intent p.config e t).1 _))
    ]

pub on_waiting-SetsIn :
    (n : Text) (go : Phase → Service → State → Option State) (s : State)
    (F : Phase → Service → Type 0)
    → ((phase : Phase) (service : Service) (rest : List Waiting)
        → SetsIn (F phase service) s (go phase service (record s { waiting = rest })))
    → SetsIn
        ((w : Waiting) × (rest : List Waiting) × (take waiting_name n s.waiting ≡ some (w, rest))
          × F w.phase w.service)
        s
        (on_waiting n go s)
unfolding on_waiting
on_waiting-SetsIn n go s F h = elim (Option-cases (take waiting_name n s.waiting)) [
  | inl e ↦ rw (e, on_waiting) (Sets-same _ _ _ refl (λ (w, rest, f, x). cc))
  | inr ((w, rest), e) ↦
      rw (e, on_waiting)
        (iff-SetsIn (F w.phase w.service) _ s _
          (
            λ x. (w, rest, refl, x),
            λ (v, rest', f, x).
                subst (λ (u : Waiting). F u.phase u.service)
                  (sym (ap (λ r. r.0) (some-injective _ _ f))) x,
          )
          (h w.phase w.service rest))
]
