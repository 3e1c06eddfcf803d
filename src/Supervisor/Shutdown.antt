-- ===== src/Supervisor/Shutdown.antt =====
-- The graceful shutdown: main.go's `gracefulShutdown` cancels the context that `startService` and
-- the restarts look at.
use Prim.{Unit, tt}
use go_overlay.Base.{
  ℕ, zero, suc, Text, ==_iff, lookup, lookup-insert, lookup-delete, delete, true, List, none, some,
  ◌≡◌, refl, subst, arith, inl, inr, if_elim, if◌then◌else◌, Option-cases, nat_eq,
}
use go_overlay.Base.Int.{pos}
use go_overlay.Config.{Service}
use go_overlay.Tracker.{Kind, mark}
use go_overlay.Base.{Bool-cases, ◌==◌, sym, List}
use go_overlay.Supervisor.Counts.{count, count-take}
use go_overlay.Supervisor.{
  Launching, add_active_service, set_state, starting, Process, State, Phase, name_of, update,
  remove_active_service, mark_dep, poll_dep, wait_in, done, trigger_service_failure_shutdown,
  graceful_shutdown, ◌>>=◌,
}
use go_overlay.Supervisor.Restart.{
  schedule_restart, increment_restart_count, reset_restart_count, restart_delay_of,
}
use go_overlay.Supervisor.Prepare.{new_process}
use go_overlay.Supervisor.Step.{take, launching_name, Event, run}
use go_overlay.Supervisor.Invariant.{IsValid}
use go_overlay.Supervisor.Safety.{run-IsValid}
use go_overlay.Supervisor.Kept.{Kept, Holds}
use go_overlay.Supervisor.Kept.Steps.{run-Kept}

-- A service is not active, and no `startService` of it is past its look at the shutdown.
abbrev pub HasNone : Text → State → Type 0
HasNone n s = (lookup n s.active ≡ none) × (count launching_name n s.launching ≡ 0)

-- The supervisor is shut down, and what had no process in `s` has none.
pub record IsDown (s t : State) : Type 0 where
  pub down : t.shut_down ≡ true
  pub absent : (n : Text) → HasNone n s → HasNone n t
  pub unlaunched :
      (n : Text) → count launching_name n s.launching ≡ 0 → count launching_name n t.launching ≡ 0

module _ (s0 : State) where
  -- A change of other fields.
  same :
      (s t : State)
      → s.shut_down ≡ t.shut_down
      → s.active ≡ t.active
      → s.launching ≡ t.launching
      → IsDown s0 s
      → IsDown s0 t
  same s t d a l h = record {
    down = subst (λ b. b ≡ true) d h.down;
    absent = λ n e. (
      subst (λ m. lookup n m ≡ none) a (h.absent n e).0,
      subst (λ m. count launching_name n m ≡ 0) l (h.absent n e).1,
    );
    unlaunched = λ n e. subst (λ m. count launching_name n m ≡ 0) l (h.unlaunched n e);
  }

  graceful-IsDown : (s : State) → IsDown s0 s → IsDown s0 (graceful_shutdown s)
  unfolding graceful_shutdown
  graceful-IsDown s h =
      if_elim (IsDown s0) s.once_done _ _ (λ _. h)
        (λ _. record { down = refl; absent = h.absent; unlaunched = h.unlaunched })

  trigger-IsDown : (s : State) → IsDown s0 s → IsDown s0 (trigger_service_failure_shutdown s)
  unfolding trigger_service_failure_shutdown
  trigger-IsDown s h =
      let t = record s { exit_code = if nat_eq s.exit_code 0 then 1 else s.exit_code } in
      graceful-IsDown t (same s t refl refl refl h)

  mark_dep-IsDown :
      (k : Kind) (n : Text) (s : State) → IsDown s0 s → Holds Unit (IsDown s0) (mark_dep k n s)
  unfolding mark_dep
  mark_dep-IsDown k n s h = elim (Option-cases (mark k n s.deps)) [
    | inl e ↦ rw (e, mark_dep) tt
    | inr (d, e) ↦ rw (e, mark_dep) (same s _ refl refl refl h)
  ]

  update-IsDown :
      (n : Text) (f : Process → Process) (s : State) → IsDown s0 s → IsDown s0 (update n f s)
  unfolding update
  update-IsDown n f s h = elim (Option-cases (lookup n s.active)) [
    | inl e ↦ rw (e, update) h
    | inr (p, e) ↦
        rw (e, update)
          (record {
            down = h.down;
            absent = λ m a. (
              ground (arith, lookup-insert n m (f p) s.active, ==_iff n m, (h.absent m a).0),
              (h.absent m a).1,
            );
            unlaunched = h.unlaunched;
          })
  ]

  remove-IsDown :
      (n : Text) (s : State)
      → IsDown s0 s
      → Holds Unit (λ t. Unit × IsDown s0 t) (remove_active_service n s)
  unfolding remove_active_service
  remove-IsDown n s h = elim (Option-cases (lookup n s.active)) [
    | inl e ↦ rw (e, remove_active_service) (tt, h)
    | inr (p, e) ↦ rw (e, remove_active_service) (go s.shutdown_wg)
  ]
    where
      go :
          (w : ℕ)
          → Holds Unit
              (λ t. Unit × IsDown s0 t)
              (do k ← done w; some (record s { active = delete n s.active; shutdown_wg = k }))
      go zero = tt
      go (suc w) = (
        tt,
        record {
          down = h.down;
          absent = λ m a.
              (ground (arith, lookup-delete n m s.active, (h.absent m a).0), (h.absent m a).1);
          unlaunched = h.unlaunched;
        },
      )

  repeat-IsDown :
      (service : Service) (s : State)
      → IsDown s0 s
      → IsDown s0 (
          schedule_restart service
            (restart_delay_of service)
            (increment_restart_count service.name s))
  unfolding schedule_restart increment_restart_count
  repeat-IsDown service s h = same s _ refl refl refl h

  requeue-IsDown :
      (service : Service) (s : State)
      → IsDown s0 s
      → IsDown s0 (schedule_restart service (pos 1) (reset_restart_count service.name s))
  unfolding schedule_restart reset_restart_count
  requeue-IsDown service s h = same s _ refl refl refl h

  poll_dep-IsDown : (k : Kind) (n : Text) (s : State) → IsDown s0 s → IsDown s0 (poll_dep k n s).0
  unfolding poll_dep
  poll_dep-IsDown k n s h = same s _ refl refl refl h

  wait_in-IsDown :
      (phase : Phase) (service : Service) (s : State)
      → IsDown s0 s
      → IsDown s0 (wait_in phase service s)
  unfolding wait_in
  wait_in-IsDown phase service s h = same s _ refl refl refl h

  -- A process that was started was so before, or was active.
  take-IsDown :
      (n : Text) (s : State) (l : Launching) (rest : List Launching)
      → take launching_name n s.launching ≡ some (l, rest)
      → IsDown s0 s
      → (¬ HasNone l.service.name s0) × IsDown s0 (record s { launching = rest })
  take-IsDown n s l rest e h =
      let k = l.service.name in
      let (name, one) = count-take launching_name n k s.launching rest l e in
      (
        λ a. ground (arith, name, one, ==_iff n k, (h.absent k a).1),
        record {
          down = h.down;
          absent = λ m a. (
            (h.absent m a).0,
            ground
                (arith, (count-take launching_name n m s.launching rest l e).1, (h.absent m a).1),
          );
          unlaunched = λ m a.
              ground
                (arith, (count-take launching_name n m s.launching rest l e).1, h.unlaunched m a);
        },
      )

  add-IsDown :
      (p : Process) (s : State)
      → ¬ HasNone (name_of p) s0
      → IsDown s0 s
      → IsDown s0 (add_active_service p s)
  unfolding add_active_service
  add-IsDown p s o h = record {
    down = h.down;
    absent = λ m a. elim (Bool-cases (name_of p == m)) [
      | inl e ↦ absurd (o (subst (λ k. HasNone k s0) (sym ((==_iff (name_of p) m).0 e)) a))
      | inr e ↦ (
        ground
            (arith, lookup-insert (name_of p) m (set_state starting p) s.active, (h.absent m a).0),
        (h.absent m a).1,
      )
    ];
    unlaunched = h.unlaunched;
  }

  IsDown-Kept :
      Kept Unit
        (IsDown s0)
        (λ service t. Unit)
        (λ phase service t. Unit)
        (λ service t. ¬ HasNone service.name s0)
  IsDown-Kept = record {
    graceful = graceful-IsDown;
    trigger = trigger-IsDown;
    marks = mark_dep-IsDown;
    polls = λ k n phase service s o h. (tt, poll_dep-IsDown k n s h);
    updates = λ n f s e h. update-IsDown n f s h;
    leaves = λ n p f s e c h. remove-IsDown (name_of p) _ (update-IsDown (name_of p) f s h);
    repeats = λ service e s x y o h. repeat-IsDown service s h;
    requeues = λ service s o h. requeue-IsDown service s h;
    takes = λ n s w rest e h. (tt, same s _ refl refl refl h);
    fires = λ n s t rest e h. (tt, same s _ refl refl refl h);
    waits = λ phase service s o h. wait_in-IsDown phase service s h;
    begins = λ c service s up o h. ground (arith, h.down);
    registers = take-IsDown;
    starts = λ c service s o h. add-IsDown (new_process c service) s o h;
    enters = λ service s o. tt;
    scripted = λ service s o h. tt;
    hears = λ service dep left s o h e. (tt, tt);
    lingered = λ service left s o. tt;
    launches = λ service s o. tt;
  }

-- From a valid state that is shut down, every sequence of events runs to a valid state that is shut
-- down, without a second close of a channel and with the wait group not below zero. A service that was
-- not active, and whose `startService` was not under way past its look at the shutdown, is neither
-- then: it is not started and not restarted.
pub run-stays_down :
    (es : List Event) (s : State)
    → IsValid s
    → s.shut_down ≡ true
    → (t : State) × (run es s ≡ some t) × IsValid t × IsDown s t
run-stays_down es s v d =
    let (t, e, w) = run-IsValid es s v in
    (
      t,
      e,
      w,
      subst (Holds Unit (IsDown s)) e (
          run-Kept (IsDown-Kept s) es s
            (record { down = d; absent = λ n h. h; unlaunched = λ n h. h })),
    )
