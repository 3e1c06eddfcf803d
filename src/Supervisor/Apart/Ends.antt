-- ===== src/Supervisor/Apart/Ends.antt =====
-- The marks of a service whose process ends: `finishService` of cmd/go-overlay/service.go, with what
-- `processService` and restart.go do after it.
use go_overlay.Base.{
  ℕ, zero, suc, Map, Text, lookup, lookup-delete-some, delete, Bool, true, false, Option, none,
  some, if◌then◌else◌, if_elim, ◌≡◌, ◌∙◌, refl, sym, ap, subst, inl, inr, Option-cases, All-put,
  ◌&&◌, nat_eq,
}
use go_overlay.Base.Int.{ℤ, pos, to_ℕ}
use go_overlay.Config.{Service}
use go_overlay.Tracker.{Kind, ready, failed, Tracker, is_marked}
use go_overlay.Supervisor.{
  Process, State, Caller, boot, restart, name_of, update, done, remove_active_service, none_yet,
  shutdown, restart_policy, restart_operator, StopIntent, trigger_service_failure_shutdown,
  graceful_shutdown, set_error, ◌>>=◌,
}
use go_overlay.Supervisor.Restart.{
  schedule_restart, increment_restart_count, reset_restart_count, restart_delay_of, should_restart,
  is_exhausted, is_error, handle_service_exit, finish_intent, record_error, finish_service,
  unhealthy_error,
}
use go_overlay.Supervisor.Step.{after_exit, on_exit}
use go_overlay.Supervisor.Kept.{Holds}
use go_overlay.Supervisor.Invariant.{IsAbsent, IsValid}
use go_overlay.Supervisor.Safety.{leave-IsValid}
use go_overlay.Supervisor.Start.Oneshot.{update-Leaves, remove-Leaves}
use go_overlay.Supervisor.Apart.{
  Going, Bears, IsApart, MayMark, mark_dep-IsApart, absent-MayMark, same, SameRole, update-IsApart,
}

module _ (c : Caller) (service : Service) (d : Tracker) (g : Going c service d) where
  -- The service has ended: it may be marked, if it is a oneshot in its first run.
  record Ended (u : State) : Type 0 where
    same_deps : u.deps ≡ d
    marks : IsApart u
    may : service.oneshot ≡ true → c ≡ boot → (k : Kind) → MayMark k service.name u

  -- Fields that the marks are not about
  other-Ended :
      (counts : Map ℕ) (code : ℕ) (once down : Bool) (u : State)
      → Ended u
      → Ended (record u {
        restart_counts = counts;
        exit_code = code;
        once_done = once;
        shut_down = down;
      })
  other-Ended counts code once down u h = record {
    same_deps = h.same_deps;
    marks = same u _ refl refl refl refl refl h.marks;
    may = λ o b k.
        let m = h.may o b k in
        record {
          waiting = m.waiting;
          launching = m.launching;
          active = m.active;
          timers = m.timers;
          to_ready = m.to_ready;
          to_failed = m.to_failed;
        };
  }

  trigger-Ended : (u : State) → Ended u → Ended (trigger_service_failure_shutdown u)
  unfolding trigger_service_failure_shutdown graceful_shutdown
  trigger-Ended u h =
      let code = if nat_eq u.exit_code 0 then 1 else u.exit_code in
      if_elim Ended u.once_done _ _
        (λ _. other-Ended u.restart_counts code u.once_done u.shut_down u h)
        (λ _. other-Ended u.restart_counts code true true u h)

  schedule-Ended : (delay : ℤ) (u : State) → Ended u → Ended (schedule_restart service delay u)
  unfolding schedule_restart
  schedule-Ended delay u h =
      let lasts : service.oneshot ≡ false → is_marked failed service.name u.deps ≡ false =
        λ o. ap (is_marked failed service.name) h.same_deps ∙ g.0 o in
      record {
        same_deps = h.same_deps;
        marks = record {
          tracked = h.marks.tracked;
          apart = h.marks.apart;
          waiting = h.marks.waiting;
          launching = h.marks.launching;
          active = h.marks.active;
          timers =
              All-put (λ t. Going restart t.0 u.deps) u.timers (service, to_ℕ delay) h.marks.timers
                (lasts, λ x o. cc);
        };
        may = λ o b k.
            let m = h.may o b k in
            record {
              waiting = m.waiting;
              launching = m.launching;
              active = m.active;
              timers =
                  All-put (λ t. Bears k service.name restart t.0) u.timers (service, to_ℕ delay)
                    m.timers (λ e. (λ x. o, λ x. cc));
              to_ready = m.to_ready;
              to_failed = m.to_failed;
            };
      }

  repeat-Ended :
      (u : State)
      → Ended u
      → Ended (
          schedule_restart service
            (restart_delay_of service)
            (increment_restart_count service.name u))
  unfolding increment_restart_count
  repeat-Ended u h =
      schedule-Ended (restart_delay_of service) _
        (other-Ended _ u.exit_code u.once_done u.shut_down u h)

  exit-Ended : (e : Option Text) (u : State) → Ended u → Ended (handle_service_exit service e u)
  unfolding handle_service_exit
  exit-Ended e u h =
      if_elim Ended (should_restart service e && is_exhausted service u) _ _
        (λ _. if_elim Ended service.required _ _ (λ _. trigger-Ended u h) (λ _. h))
        (λ _.
          if_elim Ended (should_restart service e) _ _ (λ _. repeat-Ended u h)
            (λ _.
              if_elim Ended (service.required && is_error e) _ _ (λ _. trigger-Ended u h) (λ _. h)))

  finish_intent-Ended :
      (i : StopIntent) (e : Option Text) (u : State)
      → Ended u
      → Ended (finish_intent i service e u).0
  unfolding finish_intent reset_restart_count
  finish_intent-Ended none_yet e u h = exit-Ended e u h
  finish_intent-Ended shutdown e u h = h
  finish_intent-Ended restart_policy e u h = exit-Ended (some unhealthy_error) u h
  finish_intent-Ended restart_operator e u h =
      schedule-Ended (pos 1) _ (other-Ended _ u.exit_code u.once_done u.shut_down u h)

after_exit-IsApart :
    (c : Caller) (service : Service) (d : Tracker) (g : Going c service d) (returned : Option Text)
    (u : State)
    → Ended c service d g u
    → Holds Unit IsApart (after_exit c service returned u)
unfolding after_exit
after_exit-IsApart restart service d g returned u h = h.marks
after_exit-IsApart boot service d g none u h =
    if_elim (Holds Unit IsApart) service.oneshot _ _
      (λ o. mark_dep-IsApart ready service.name u (h.may o refl ready) h.marks) (λ _. h.marks)
after_exit-IsApart boot service d g (some e) u h =
    if_elim (Holds Unit IsApart) service.oneshot _ _
      (λ o. mark_dep-IsApart failed service.name u (h.may o refl failed) h.marks) (λ _. h.marks)

record_error-SameRole : (i : StopIntent) (e : Option Text) → SameRole (record_error i e)
unfolding set_error
record_error-SameRole none_yet (some e) p = (refl, refl)
record_error-SameRole none_yet none p = (refl, refl)
record_error-SameRole shutdown e p = (refl, refl)
record_error-SameRole restart_policy e p = (refl, refl)
record_error-SameRole restart_operator e p = (refl, refl)

remove-IsApart : (n : Text) (s : State) → IsApart s → Holds Unit IsApart (remove_active_service n s)
unfolding remove_active_service
remove-IsApart n s h = elim (Option-cases (lookup n s.active)) [
  | inl e ↦ rw (e, remove_active_service) h
  | inr (p, e) ↦ rw (e, remove_active_service) (go s.shutdown_wg)
]
  where
    go :
        (w : ℕ)
        → Holds Unit IsApart
            (do k ← done w; some (record s { active = delete n s.active; shutdown_wg = k }))
    go zero = tt
    go (suc w) = record {
      tracked = h.tracked;
      apart = h.apart;
      waiting = h.waiting;
      launching = h.launching;
      active = λ m q i. h.active m q (lookup-delete-some n m q s.active i);
      timers = h.timers;
    }

pub on_exit-IsApart :
    (n : Text) (p : Process) (e : Option Text) (s : State)
    → lookup n s.active ≡ some p
    → IsValid s
    → IsApart s
    → Holds Unit IsApart (on_exit p e s)
unfolding on_exit finish_service
on_exit-IsApart n p e s l v h =
    let k = name_of p in
    let f = record_error p.intent e in
    let s' = update k f s in
    let role = record_error-SameRole p.intent e in
    elim (Option-cases (remove_active_service k s')) [
      | inl i ↦ rw i tt
      | inr (t, i) ↦
          let (absent, valid) =
            subst (Holds ⊥ (λ u. IsAbsent k u × IsValid u)) i
              (leave-IsValid n p f s l (λ q. (role q).0) v) in
          let marks =
            subst (Holds Unit IsApart) i (remove-IsApart k s' (update-IsApart k f s role h)) in
          let deps : t.deps ≡ s.deps = (remove-Leaves k s' t i).deps ∙ (update-Leaves k f s).deps in
          let g = subst (Going p.caller p.config) (sym deps) (h.active n p l) in
          rw i (
            after_exit-IsApart p.caller p.config t.deps g (finish_intent p.intent p.config e t).1
              (finish_intent p.intent p.config e t).0
              (finish_intent-Ended p.caller p.config t.deps g p.intent e t (record {
                same_deps = refl;
                marks = marks;
                may = λ o b j.
                    absent-MayMark j k t absent valid.tracked valid.named (λ _. (g.1 b o).1)
                      (λ _. (g.1 b o).0);
              })))
    ]
