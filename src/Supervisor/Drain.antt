-- ===== src/Supervisor/Drain.antt =====
-- The end of the shutdown: `runShutdown` of cmd/go-overlay/main.go waits for the wait group that
-- `finishService` counts down.
use go_overlay.Base.{
  ℕ, zero, suc, Text, ==_refl, Map, lookup, insert, delete, keys, [], ◌∷◌, Option, none, some, ◌≡◌,
  refl, sym, ap, subst, ◌∙◌, arith, inl, inr, if_elim, ◌&&◌, Option-cases, length, map,
}
use Prim.{Unit, tt}
use go_overlay.Config.{Service}
use go_overlay.Tracker.{Kind, mark}
use go_overlay.Supervisor.{
  Process, State, Caller, boot, restart, name_of, update, remove_active_service, mark_dep, done,
  graceful_shutdown, trigger_service_failure_shutdown, StopIntent, none_yet, shutdown,
  restart_policy, restart_operator, ◌>>=◌,
}
use go_overlay.Supervisor.Restart.{
  schedule_restart, increment_restart_count, reset_restart_count, handle_service_exit,
  finish_intent, finish_service, record_error, is_error, should_restart, is_exhausted,
}
use go_overlay.Supervisor.Invariant.{IsValid}
use go_overlay.Supervisor.Safety.{step-IsValid}
use go_overlay.Supervisor.Counts.{count, key_of, lookup_of_absent}
use go_overlay.Supervisor.Step.{exits, after_exit, on_exit, step, run}
use go_overlay.Supervisor.Kept.{Holds, Holds-bind}

delete_absent {ℓ} : {V : Type ℓ} (n : Text) (m : Map V) → lookup n m ≡ none → delete n m ≡ m
unfolding lookup delete
delete_absent n [] h = refl
delete_absent n ((k, v) ∷ m) h = ground (arith, delete_absent n m)

trigger-active : (s : State) → (trigger_service_failure_shutdown s).active ≡ s.active
unfolding trigger_service_failure_shutdown graceful_shutdown
trigger-active s = ground arith

handle_service_exit-active :
    (service : Service) (e : Option Text) (s : State)
    → (handle_service_exit service e s).active ≡ s.active
unfolding handle_service_exit increment_restart_count schedule_restart
handle_service_exit-active service e s =
    if_elim {A = State} (λ t. t.active ≡ s.active)
      (should_restart service e && is_exhausted service s) _ _
      (λ _.
        if_elim {A = State} (λ t. t.active ≡ s.active) service.required _ _ (λ _. trigger-active s)
          (λ _. refl))
      (λ _.
        if_elim {A = State} (λ t. t.active ≡ s.active) (should_restart service e) _ _ (λ _. refl)
          (λ _.
            if_elim {A = State} (λ t. t.active ≡ s.active) (service.required && is_error e) _ _
              (λ _. trigger-active s) (λ _. refl)))

finish_intent-active :
    (i : StopIntent) (service : Service) (e : Option Text) (s : State)
    → (finish_intent i service e s).0.active ≡ s.active
unfolding finish_intent schedule_restart reset_restart_count
finish_intent-active shutdown service e s = refl
finish_intent-active restart_operator service e s = refl
finish_intent-active restart_policy service e s = handle_service_exit-active service _ s
finish_intent-active none_yet service e s = handle_service_exit-active service e s

mark_dep-active :
    (k : Kind) (n : Text) (s : State) → Holds Unit (λ t. t.active ≡ s.active) (mark_dep k n s)
unfolding mark_dep
mark_dep-active k n s = elim (Option-cases (mark k n s.deps)) [
  | inl e ↦ rw (e, mark_dep) tt
  | inr (d, e) ↦ rw (e, mark_dep) refl
]

after_exit-active :
    (c : Caller) (service : Service) (e : Option Text) (s : State)
    → Holds Unit (λ t. t.active ≡ s.active) (after_exit c service e s)
unfolding after_exit
after_exit-active restart service e s = refl
after_exit-active boot service e s =
    if_elim (Holds Unit (λ t. t.active ≡ s.active)) service.oneshot _ _ (λ _. marked e) (λ _. refl)
  where
    marked :
        (o : Option Text)
        → Holds Unit
            (λ t. t.active ≡ s.active)
            (elim o [
              | none ↦ mark_dep Kind.ready service.name s
              | some _ ↦ mark_dep Kind.failed service.name s
            ])
    marked none = mark_dep-active Kind.ready service.name s
    marked (some _) = mark_dep-active Kind.failed service.name s

lookup_first {ℓ} : {V : Type ℓ} (n : Text) (p : V) (m : Map V) → lookup n ((n, p) ∷ m) ≡ some p
unfolding lookup
lookup_first n p m = ground (arith, ==_refl n)

delete_first {ℓ} :
    {V : Type ℓ} (n : Text) (p : V) (m : Map V) → lookup n m ≡ none → delete n ((n, p) ∷ m) ≡ m
unfolding delete
delete_first n p m absent = ground (arith, ==_refl n, delete_absent n m absent)

-- The first active service is taken out.
remove_first :
    (n : Text) (p : Process) (m : Map Process) (s : State)
    → s.active ≡ (n, p) ∷ m
    → lookup n m ≡ none
    → Holds Unit (λ t. t.active ≡ m) (remove_active_service n s)
unfolding remove_active_service
remove_first n p m s a absent =
    let h : lookup n s.active ≡ some p = rw a (lookup_first n p m) in
    rw (h, remove_active_service) (go s.shutdown_wg)
  where
    gone : delete n s.active ≡ m
    gone = rw a (delete_first n p m absent)

    go :
        (w : ℕ)
        → Holds Unit
            (λ t. t.active ≡ m)
            (do k ← done w; some (record s { active = delete n s.active; shutdown_wg = k }))
    go zero = tt
    go (suc w) = gone

update_first :
    (n : Text) (p : Process) (m : Map Process) (f : Process → Process) (s : State)
    → s.active ≡ (n, p) ∷ m
    → (update n f s).active ≡ (n, f p) ∷ m
unfolding update insert
update_first n p m f s a =
    let h : lookup n s.active ≡ some p = rw a (lookup_first n p m) in
    rw (h, update, a) (ground (arith, ==_refl n))

on_exit_first :
    (n : Text) (p : Process) (m : Map Process) (x : Option Text) (s : State)
    → s.active ≡ (n, p) ∷ m
    → name_of p ≡ n
    → lookup n m ≡ none
    → Holds Unit (λ t. t.active ≡ m) (on_exit p x s)
unfolding on_exit finish_service
on_exit_first n p m x s a named absent =
    Holds-bind Unit (λ r. r.0.active ≡ m) (λ t. t.active ≡ m) _ _
      (Holds-bind Unit (λ t. t.active ≡ m) (λ r. r.0.active ≡ m) _ _
        (remove_first (name_of p) (record_error p.intent x p) m _
          (update_first (name_of p) p m (record_error p.intent x) s
            (subst (λ k. s.active ≡ (k, p) ∷ m) (sym named) a))
          (subst (λ k. lookup k m ≡ none) (sym named) absent))
        (λ t h. finish_intent-active p.intent p.config x t ∙ h))
      (λ r h.
        subst (λ k. Holds Unit (λ t. t.active ≡ k) (after_exit p.caller p.config r.1 r.0)) h
          (after_exit-active p.caller p.config r.1 r.0))

first_is_last :
    (n : Text) (p : Process) (m : Map Process) (s : State)
    → s.active ≡ (n, p) ∷ m
    → IsValid s
    → count key_of n m ≡ 0
unfolding count
first_is_last n p m s a v = ground (arith, v.once n, ap (count key_of n) a, ==_refl n)

step_exits :
    (n : Text) (p : Process) (x : Option Text) (s : State)
    → lookup n s.active ≡ some p
    → step (exits n x) s ≡ on_exit p x s
unfolding step
step_exits n p x s h = rw (h, step) refl

-- The first active process ends.
exits_first :
    (n : Text) (p : Process) (m : Map Process) (x : Option Text) (s : State)
    → s.active ≡ (n, p) ∷ m
    → IsValid s
    → (t : State) × (step (exits n x) s ≡ some t) × IsValid t × (t.active ≡ m)
exits_first n p m x s a v =
    let h : lookup n s.active ≡ some p = rw a (lookup_first n p m) in
    let absent = lookup_of_absent n m (first_is_last n p m s a v) in
    let (t, e, w) = step-IsValid (exits n x) s v in
    (
      t,
      e,
      w,
      subst (Holds Unit (λ u. u.active ≡ m)) (sym (step_exits n p x s h) ∙ e)
          (on_exit_first n p m x s a (v.named n p h) absent),
    )

drains :
    (x : Text → Option Text) (m : Map Process) (s : State)
    → s.active ≡ m
    → IsValid s
    → (t : State) × (run (map (λ n. exits n (x n)) (keys m)) s ≡ some t)
      × IsValid t
      × (t.active ≡ [])
      × (t.shutdown_wg ≡ 0)
unfolding run
drains x [] s a v = (s, refl, v, a, v.counted ∙ ap length a)
drains x ((n, p) ∷ m) s a v =
    let (t, h, w, b) = exits_first n p m (x n) s a v in
    let (u, g, y, c, k) = drains x m t b w in (u, rw h g, y, c, k)

-- Where each active process of a valid state ends, with any error or none, the supervisor comes
-- without a panic to a valid state with no active service and a wait group of zero, so that the
-- wait of the shutdown ends.
pub run-drains :
    (x : Text → Option Text) (s : State)
    → IsValid s
    → (t : State) × (run (map (λ n. exits n (x n)) (keys s.active)) s ≡ some t)
      × IsValid t
      × (t.active ≡ [])
      × (t.shutdown_wg ≡ 0)
run-drains x s v = drains x s.active s refl v
