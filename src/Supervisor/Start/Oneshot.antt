-- ===== src/Supervisor/Start/Oneshot.antt =====
-- The end of a oneshot: it exits without an error after its start, and is marked ready.
use go_overlay.Base.{
  ℕ, zero, suc, Text, ==_refl, ==_iff, lookup, lookup-insert, lookup-delete, delete, insert, Map,
  Bool, true, false, none, some, if◌then◌else◌, if_elim, ◌≡◌, ◌≢◌, ◌∙◌, refl, sym, ap, subst, arith,
  inl, inr, Option-cases, ◌&&◌,
}
use mathlib.Core.Option.{some-injective}
use go_overlay.Config.{Service}
use go_overlay.Tracker.{Tracker, ready}
use go_overlay.Tracker.Marks.{MarkOf, mark-MarkOf}
use go_overlay.Tracker.Invariant as Tracked
use go_overlay.Supervisor.{
  Process, State, boot, none_yet, update, done, remove_active_service, set_state, starting,
  add_active_service, running, mark_dep, ◌>>=◌,
}
use go_overlay.Supervisor.Restart.{
  count_or_zero, restart_count, schedule_restart, increment_restart_count, restart_delay_of,
  should_restart, is_exhausted, handle_service_exit, record_error, finish_intent, finish_service,
}
use go_overlay.Supervisor.Prepare.{new_process}
use go_overlay.Supervisor.Step.{exits, after_exit, on_exit, step}
use go_overlay.Supervisor.Invariant.{
  IsValid, update-IsValid, lookup-update, remove_active_service-IsValid,
}
use go_overlay.Supervisor.Kept.{Holds}
use go_overlay.Supervisor.Fatal.{
  SameCounts, update-SameCounts, remove_active_service-SameCounts, is_exhausted_iff,
}
use go_overlay.Supervisor.Start.{with_process, mark_ok}

-- The service of the name may have gone, and may be put off for a restart; the rest is the same.
pub record Leaves (n : Text) (s t : State) : Type 0 where
  pub deps : t.deps ≡ s.deps
  pub waiting : t.waiting ≡ s.waiting
  pub calm : t.shut_down ≡ s.shut_down
  pub counts : (m : Text) → m ≢ n → restart_count m t ≡ restart_count m s
  pub active : (m : Text) → m ≢ n → lookup m s.active ≢ none → lookup m t.active ≢ none

Leaves-refl : (n : Text) (s : State) → Leaves n s s
Leaves-refl n s = record {
  deps = refl;
  waiting = refl;
  calm = refl;
  counts = λ m d. refl;
  active = λ m d h. h;
}

Leaves-trans : (n : Text) (s t u : State) → Leaves n s t → Leaves n t u → Leaves n s u
Leaves-trans n s t u l k = record {
  deps = k.deps ∙ l.deps;
  waiting = k.waiting ∙ l.waiting;
  calm = k.calm ∙ l.calm;
  counts = λ m d. k.counts m d ∙ l.counts m d;
  active = λ m d h. k.active m d (l.active m d h);
}

pub update-Leaves : (n : Text) (f : Process → Process) (s : State) → Leaves n s (update n f s)
unfolding update restart_count
update-Leaves n f s = elim (Option-cases (lookup n s.active)) [
  | inl e ↦ rw (e, update) (Leaves-refl n s)
  | inr (p, e) ↦
      rw (e, update)
        (record {
          deps = refl;
          waiting = refl;
          calm = refl;
          counts = λ m d. refl;
          active = λ m d h k. ground (arith, lookup-insert n m (f p) s.active, ==_iff n m, h);
        })
]

pub remove-Leaves : (n : Text) (s t : State) → remove_active_service n s ≡ some t → Leaves n s t
unfolding remove_active_service restart_count
remove-Leaves n s t h = elim (Option-cases (lookup n s.active)) [
  | inl e ↦
      subst (Leaves n s) (some-injective s t (rw (e, remove_active_service) at h)) (Leaves-refl n s)
  | inr (p, e) ↦ go s.shutdown_wg (rw (e, remove_active_service) at h)
]
  where
    go :
        (w : ℕ)
        → (do k ← done w; some (record s { active = delete n s.active; shutdown_wg = k })) ≡ some t
        → Leaves n s t
    go zero i = absurd (ground arith)
    go (suc w) i = subst (Leaves n s) (some-injective _ t i) (record {
      deps = refl;
      waiting = refl;
      calm = refl;
      counts = λ m d. refl;
      active = λ m d a k. ground (arith, lookup-delete n m s.active, ==_iff n m, a);
    })

scheduled-Leaves :
    (service : Service) (s : State)
    → Leaves service.name s (
        schedule_restart service
          (restart_delay_of service)
          (increment_restart_count service.name s))
unfolding schedule_restart increment_restart_count restart_count
scheduled-Leaves service s = record {
  deps = refl;
  waiting = refl;
  calm = refl;
  counts = λ m d.
      ap count_or_zero
        {x = lookup m (insert service.name (suc (restart_count service.name s)) s.restart_counts)}
        {y = lookup m s.restart_counts}
        (ground (
          arith,
          lookup-insert service.name m (suc (restart_count service.name s)) s.restart_counts,
          ==_iff service.name m,
        ));
  active = λ m d h. h;
}

-- Whoever has ended without an error and was not restarted yet does no harm.
exit-Leaves :
    (service : Service) (s : State)
    → restart_count service.name s ≡ 0
    → Leaves service.name s (handle_service_exit service none s)
unfolding handle_service_exit
exit-Leaves service s z =
    if_elim (Leaves service.name s) (should_restart service none && is_exhausted service s) _ _
      (λ e. absurd (ground (arith, e, is_exhausted_iff service s, z)))
      (λ _.
        if_elim (Leaves service.name s) (should_restart service none) _ _
          (λ _. scheduled-Leaves service s)
          (λ _.
            if_elim (Leaves service.name s) (service.required && false) _ _
              (λ e. absurd (ground (arith, e))) (λ _. Leaves-refl service.name s)))

-- The process of the service, as it runs
abbrev pub ran : Service → Process
ran service = set_state running (set_state starting (new_process boot service))

pub with_process-lookup :
    (service : Service) (s : State)
    → lookup service.name (with_process service s).active ≡ some (ran service)
unfolding add_active_service
with_process-lookup service s =
    let p = set_state starting (new_process boot service) in
    lookup-update service.name (set_state running) p
      (add_active_service (new_process boot service) s)
      (ground (arith, lookup-insert service.name service.name p s.active, ==_refl service.name))

-- the count of restarts of a name in `restartCounts`
abbrev of : Text → Map ℕ → ℕ
of n m = count_or_zero (lookup n m)

pub if_true {ℓ} : {A : Type ℓ} (b : Bool) (x y : A) → b ≡ true → (if b then x else y) ≡ x
if_true b x y h = rw h refl

exits_step :
    (service : Service) (s t u : State)
    → lookup service.name s.active ≡ some (ran service)
    → remove_active_service service.name (update service.name (record_error none_yet none) s)
      ≡ some t
    → service.oneshot ≡ true
    → mark_dep ready service.name (handle_service_exit service none t) ≡ some u
    → step (exits service.name none) s ≡ some u
unfolding step on_exit finish_service finish_intent after_exit
exits_step service s t u h e o m = rw (h, step) (rw e (if_true service.oneshot _ _ o ∙ m))

-- A oneshot that exits without an error is marked ready.
pub oneshot_exits :
    (service : Service) (s : State)
    → lookup service.name s.active ≡ some (ran service)
    → service.oneshot ≡ true
    → restart_count service.name s ≡ 0
    → IsValid s
    → (v : State) × (d : Tracker) × (step (exits service.name none) s
        ≡ some (record v { deps = d }))
      × Leaves service.name s v
      × MarkOf ready service.name v.deps d
unfolding restart_count
oneshot_exits service s h o z valid =
    let n = service.name in
    let s' = update n (record_error none_yet none) s in
    let (t, e, w, _) =
      remove_active_service-IsValid n (ran service) s'
        (lookup-update n (record_error none_yet none) (ran service) s h)
        (update-IsValid n (record_error none_yet none) s (λ q. refl) valid) in
    let l =
      Leaves-trans n s s' t (update-Leaves n (record_error none_yet none) s)
        (remove-Leaves n s' t e) in
    let v = handle_service_exit service none t in
    let same : SameCounts s t =
      let a = update-SameCounts n (record_error none_yet none) s in
      let b = subst (Holds Unit (SameCounts s')) e (remove_active_service-SameCounts n s') in
      (b.0 ∙ a.0, b.1 ∙ a.1) in
    let k = Leaves-trans n s t v l (exit-Leaves service t (ap (of n) same.1 ∙ z)) in
    let still : v.deps ≡ s.deps = k.deps in
    let (d, m, marked) =
      mark-MarkOf ready n v.deps (subst Tracked.IsValid (sym still) valid.tracked) in
    (v, d, exits_step service s t (record v { deps = d }) h e o (mark_ok ready n v d m), k, marked)
