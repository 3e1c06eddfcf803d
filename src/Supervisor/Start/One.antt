-- ===== src/Supervisor/Start/One.antt =====
-- One service through the phases of its start.
use go_overlay.Base.{
  Text, if◌then◌else◌, ==_refl, lookup, true, false, List, [], ◌∷◌, Option, none, some, ◌≡◌, ◌≢◌,
  ◌∙◌, refl, sym, ap, subst, arith, inl, inr, Memᴰ, Bool-cases,
}
use go_overlay.Base.Int.{above}
use go_overlay.Config.{Service}
use go_overlay.Tracker.{ready, is_marked}
use go_overlay.Tracker.Invariant as Tracked
use go_overlay.Tracker.Marks.{mark-MarkOf}
use go_overlay.Supervisor.{
  State, Waiting, Phase, fresh, scripting, awaits, boot, lingers, wait_in, launch_in, mark_dep,
  ◌>>=◌,
}
use go_overlay.Supervisor.Prepare.{
  starts, hears_ready, times_out, run_pre_script, wait_time, wait_after_dependency, linger,
  on_enter, on_script, on_signal, on_launch,
}
use go_overlay.Supervisor.Step.{
  Event, enters, scripted, hears, launches, registers, exits, run, take, on_waiting, step,
  waiting_name,
}
use go_overlay.Supervisor.Invariant.{IsValid}
use go_overlay.Supervisor.Reach.{Reach, reach_here, reach_step, reach_then, stepped-IsValid}
use go_overlay.Supervisor.Counts.{count, lookup_of_absent}
use go_overlay.Supervisor.Restart.{count_or_zero, restart_count}
use go_overlay.Supervisor.Start.Oneshot.{oneshot_exits, with_process-lookup, if_true}
use go_overlay.Supervisor.Start.{
  Grows, Grows-trans, At, HasStarted, take_found, take_first, pre_script_ok, polled, polled-Polls,
  hears_it, with_process, with_process-Runs, if_false, launch_ok, register_ok, mark_ok,
}

module _ (service : Service) (rest : List Waiting) (s0 : State) where
  -- An event that lets the first service go on to another phase.
  goes_on :
      (phase next : Phase) (e : Event) (go : Phase → Service → State → Option State) (s t : State)
      → At phase service rest s0 s
      → step e s ≡ on_waiting service.name go s
      → go phase service (record s { waiting = rest }) ≡ some (wait_in next service t)
      → t.waiting ≡ rest
      → t.shut_down ≡ false
      → t.restart_counts ≡ s.restart_counts
      → Grows s t
      → Reach s (At next service rest s0)
  unfolding wait_in
  goes_on phase next e go s t a h g w c n grow =
      let i =
        h
        ∙ take_found service.name go (record { service = service; phase = phase }) rest s
            (take_first phase service rest s.waiting a.waiting)
        ∙ g in
      reach_step (At next service rest s0) e s (wait_in next service t) i (record {
        waiting = ap (λ r. record { service = service; phase = next } ∷ r) w;
        calm = c;
        valid = stepped-IsValid e s _ i a.valid;
        grows = Grows-trans s0 s _ a.grows (record { marks = grow.marks; active = grow.active });
        counts = n ∙ a.counts;
      })

  -- The service begins, wherever it waits.
  entered :
      take waiting_name service.name s0.waiting
        ≡ some (record { service = service; phase = fresh }, rest)
      → s0.shut_down ≡ false
      → IsValid s0
      → Reach s0 (At scripting service rest s0)
  unfolding step on_enter wait_in
  entered h c v =
      let t = wait_in scripting service (record s0 { waiting = rest }) in
      let i =
        take_found service.name on_enter (record { service = service; phase = fresh }) rest s0 h
        ∙ ap some (if_false s0.shut_down _ t c) in
      reach_step (At scripting service rest s0) (enters service.name) s0 t i (record {
        waiting = refl;
        calm = c;
        valid = stepped-IsValid (enters service.name) s0 t i v;
        grows = record { marks = λ n m. m; active = λ n m. m };
        counts = refl;
      })

  script_done :
      (s : State)
      → At scripting service rest s0 s
      → Reach s (At (awaits service.depends_on) service rest s0)
  unfolding step on_script run_pre_script
  script_done s a =
      goes_on scripting (awaits service.depends_on) (scripted service.name true) (on_script true) s
        (record s { waiting = rest }) a refl
        (rw (pre_script_ok service (record s { waiting = rest })) refl) refl a.calm refl
        (record { marks = λ n h. h; active = λ n h. h })

  -- A dependency that is ready is passed.
  heard :
      (dep : Text) (left : List Text) (s : State)
      → is_marked ready dep s.deps ≡ true
      → At (awaits (dep ∷ left)) service rest s0 s
      → Reach s (At (wait_after_dependency service dep left) service rest s0)
  unfolding step on_signal
  heard dep left s h a =
      let s' = record s { waiting = rest } in
      let p = polled-Polls dep s' a.valid.tracked in
      goes_on (awaits (dep ∷ left)) (wait_after_dependency service dep left)
        (hears service.name hears_ready) (on_signal hears_ready) s (polled dep s') a refl
        (hears_it dep left service s' (p.answer ∙ h)) p.waiting (p.calm ∙ a.calm) p.counts
        (record {
          marks = λ n m. p.marks n ∙ m;
          active = λ n m. subst (λ x. lookup n x ≢ none) (sym p.active) m;
        })

  waited :
      (left : List Text) (s : State)
      → At (lingers left) service rest s0 s
      → Reach s (At (awaits left) service rest s0)
  unfolding step on_signal linger
  waited left s a =
      goes_on (lingers left) (awaits left) (hears service.name times_out) (on_signal times_out) s
        (record s { waiting = rest }) a refl refl refl a.calm refl
        (record { marks = λ n h. h; active = λ n h. h })

  passed :
      (dep : Text) (left : List Text) (s : State)
      → At (wait_after_dependency service dep left) service rest s0 s
      → Reach s (At (awaits left) service rest s0)
  unfolding wait_after_dependency
  passed dep left s a = elim (Bool-cases (above 0 (wait_time service dep))) [
    | inl e ↦ waited left s (rw e at a)
    | inr e ↦ reach_here (At (awaits left) service rest s0) s (rw e at a)
  ]

  all_heard :
      (left : List Text) (s : State)
      → ((n : Text) → Memᴰ n left → is_marked ready n s0.deps ≡ true)
      → At (awaits left) service rest s0 s
      → Reach s (At (awaits []) service rest s0)
  all_heard [] s h a = reach_here (At (awaits []) service rest s0) s a
  all_heard (dep ∷ left) s h a =
      reach_then (At (awaits left) service rest s0) (At (awaits []) service rest s0) s
        (reach_then (At (wait_after_dependency service dep left) service rest s0)
          (At (awaits left) service rest s0) s
          (heard dep left s (a.grows.marks dep (h dep (Memᴰ.head refl))) a) (passed dep left))
        (λ t. all_heard left t (λ n m. h n (Memᴰ.tail m)))

  -- The process of the service is started and becomes active.
  registered :
      (s u : State)
      → At (awaits []) service rest s0 s
      → (if service.oneshot
          then some (with_process service (record s { waiting = rest }))
          else mark_dep ready service.name (with_process service (record s { waiting = rest })))
        ≡ some u
      → (run (launches service.name starts ∷ registers service.name ∷ []) s ≡ some u) × IsValid u
  unfolding step run
  registered s u a m =
      let s' = record s { waiting = rest } in
      let begun = launch_in boot service s' in
      let i =
        take_found service.name (on_launch starts) (record { service = service; phase = awaits [] })
          rest s (take_first (awaits []) service rest s.waiting a.waiting)
        ∙ launch_ok service s' a.calm in
      let k = register_ok service s' (some u) m in
      let v = stepped-IsValid (launches service.name starts) s begun i a.valid in
      (
        ap (λ o. o >>= run (registers service.name ∷ [])) i ∙ ap (λ o. o >>= run []) k,
        stepped-IsValid (registers service.name) begun u k v,
      )

  -- A service that lasts is marked ready where its process becomes active.
  launched_lasting :
      (s : State)
      → service.oneshot ≡ false
      → At (awaits []) service rest s0 s
      → Reach s (HasStarted service rest s0)
  unfolding restart_count
  launched_lasting s o a =
      let t = with_process service (record s { waiting = rest }) in
      let r = with_process-Runs service (record s { waiting = rest }) in
      let (d, e, m) =
        mark-MarkOf ready service.name t.deps
          (subst Tracked.IsValid (sym r.deps) a.valid.tracked) in
      let u = record t { deps = d } in
      let (k, valid) =
        registered s u a (if_false service.oneshot _ _ o ∙ mark_ok ready service.name t d e) in
      (
        launches service.name starts ∷ registers service.name ∷ [],
        u,
        k,
        record {
          waiting = r.waiting;
          calm = r.calm ∙ a.calm;
          valid = valid;
          grows = Grows-trans s0 s u a.grows (record {
            marks = λ n h. rw (m.marks ready n, ap (is_marked ready n) r.deps, h) (ground arith);
            active = r.active;
          });
          counts = λ n x. ap (λ c. count_or_zero (lookup n c)) (r.counts ∙ a.counts);
          was_ready = rw (m.marks ready service.name) (ground (arith, ==_refl service.name));
          is_active = λ _. r.is_active;
        },
      )

  -- What waits is not active.
  not_active :
      {phase : Phase} (s : State)
      → IsValid s
      → s.waiting ≡ record { service = service; phase = phase } ∷ rest
      → lookup service.name s.active ≡ none
  unfolding count
  not_active {phase} s v h = lookup_of_absent service.name s.active (
      ground
        (arith, v.once service.name, ap (count waiting_name service.name) h, ==_refl service.name))

  -- A oneshot is marked ready where it has exited without an error.
  launched_oneshot :
      (s : State)
      → service.oneshot ≡ true
      → restart_count service.name s0 ≡ 0
      → At (awaits []) service rest s0 s
      → Reach s (HasStarted service rest s0)
  unfolding restart_count
  launched_oneshot s o z a =
      let t = with_process service (record s { waiting = rest }) in
      let r = with_process-Runs service (record s { waiting = rest }) in
      let (k, valid) = registered s t a (if_true service.oneshot _ _ o) in
      let same : t.restart_counts ≡ s0.restart_counts = r.counts ∙ a.counts in
      let (v, d, e, l, m) =
        oneshot_exits service t (with_process-lookup service (record s { waiting = rest })) o
          (ap (λ c. count_or_zero (lookup service.name c)) same ∙ z) valid in
      let u = record v { deps = d } in
      reach_then (λ x. x ≡ t) (HasStarted service rest s0) s
        (launches service.name starts ∷ registers service.name ∷ [], t, k, refl)
        (λ x p. rw p (
          reach_step (HasStarted service rest s0) (exits service.name none) t u e (record {
            waiting = l.waiting ∙ r.waiting;
            calm = l.calm ∙ r.calm ∙ a.calm;
            valid = stepped-IsValid (exits service.name none) t u e valid;
            grows = Grows-trans s0 s u a.grows (record {
              marks = λ n h.
                  rw (m.marks ready n, ap (is_marked ready n) (l.deps ∙ r.deps), h) (ground arith);
              active = λ n h.
                  let other : n ≢ service.name =
                    λ p. h (ap (λ k. lookup k s.active) p ∙ not_active s a.valid a.waiting) in
                  l.active n other (r.active n h);
            });
            counts = λ n x. l.counts n x ∙ ap (λ c. count_or_zero (lookup n c)) same;
            was_ready = rw (m.marks ready service.name) (ground (arith, ==_refl service.name));
            is_active = λ f. ground (arith, o, f);
          })))

  -- A service that waits at its start comes to run where its dependencies were marked ready.
  pub started :
      take waiting_name service.name s0.waiting
        ≡ some (record { service = service; phase = fresh }, rest)
      → s0.shut_down ≡ false
      → IsValid s0
      → restart_count service.name s0 ≡ 0
      → ((n : Text) → Memᴰ n service.depends_on → is_marked ready n s0.deps ≡ true)
      → Reach s0 (HasStarted service rest s0)
  started w c v z h =
      reach_then (At (awaits []) service rest s0) (HasStarted service rest s0) s0
        (reach_then (At (awaits service.depends_on) service rest s0)
          (At (awaits []) service rest s0) s0
          (reach_then (At scripting service rest s0)
            (At (awaits service.depends_on) service rest s0) s0 (entered w c v) script_done)
          (λ t. all_heard service.depends_on t h))
        (λ t a. elim (Bool-cases service.oneshot) [
          | inl o ↦ launched_oneshot t o z a
          | inr o ↦ launched_lasting t o a
        ])
