-- ===== src/Supervisor/Bound/Runs.antt =====
-- The limits of restarts through the events of the supervisor.
use Prim.{Unit, tt}
use go_overlay.Base.{
  ℕ, zero, suc, Text, lookup, delete, lookup-insert, lookup-delete, List, some, ◌≡◌, subst, arith,
  inl, inr, if_elim, Option-cases, All,
}
use go_overlay.Config.{Service}
use go_overlay.Tracker.{Kind}
use go_overlay.Supervisor.{
  Caller, Launching, launch_in, Process, State, Waiting, Phase, name_of, add_active_service,
  remove_active_service, poll_dep, wait_in, done, graceful_shutdown, set_state, starting, ◌>>=◌,
}
use go_overlay.Supervisor.Restart.{restart_count}
use go_overlay.Supervisor.Step.{Event, run, waiting_name, timer_name, launching_name}
use go_overlay.Supervisor.Counts.{All-take}
use go_overlay.Supervisor.Invariant.{IsValid}
use go_overlay.Supervisor.Safety.{run-IsValid}
use go_overlay.Supervisor.Kept.{Kept, Holds}
use go_overlay.Supervisor.Kept.Steps.{run-Kept}
use go_overlay.Supervisor.Bound.{
  Fits, IsBounded, trigger-IsBounded, mark_dep-IsBounded, update-IsBounded, repeat-IsBounded,
  requeue-IsBounded,
}

module _ (limit : Text → ℕ) where
  graceful_shutdown-IsBounded :
      (s : State) → IsBounded limit s → IsBounded limit (graceful_shutdown s)
  unfolding graceful_shutdown restart_count
  graceful_shutdown-IsBounded s b =
      if_elim (IsBounded limit) s.once_done _ _ (λ _. b)
        (λ _. record {
          waiting = b.waiting;
          launching = b.launching;
          active = b.active;
          timers = b.timers;
          counts = b.counts;
        })

  remove-IsBounded :
      (n : Text) (service : Service) (s : State)
      → Fits limit service
      → IsBounded limit s
      → Holds Unit (λ t. Fits limit service × IsBounded limit t) (remove_active_service n s)
  unfolding remove_active_service restart_count
  remove-IsBounded n service s f b = elim (Option-cases (lookup n s.active)) [
    | inl e ↦ rw (e, remove_active_service) (f, b)
    | inr (p, e) ↦ rw (e, remove_active_service) (go s.shutdown_wg)
  ]
    where
      go :
          (w : ℕ)
          → Holds Unit
              (λ t. Fits limit service × IsBounded limit t)
              (do k ← done w; some (record s { active = delete n s.active; shutdown_wg = k }))
      go zero = tt
      go (suc w) = (
        f,
        record {
          waiting = b.waiting;
          launching = b.launching;
          active = λ m q h. ground (arith, lookup-delete n m s.active, b.active m q);
          timers = b.timers;
          counts = b.counts;
        },
      )

  add-IsBounded :
      (p : Process) (s : State)
      → Fits limit p.config
      → IsBounded limit s
      → IsBounded limit (add_active_service p s)
  unfolding add_active_service restart_count
  add-IsBounded p s f b = record {
    waiting = b.waiting;
    launching = b.launching;
    active = λ n q h.
        ground (arith, lookup-insert (name_of p) n (set_state starting p) s.active, b.active n q);
    timers = b.timers;
    counts = b.counts;
  }

  -- A change of the list of the waiting services and of the tracker.
  waiting-IsBounded :
      (rest : List Waiting) (s : State)
      → All (λ w. Fits limit w.service) rest
      → IsBounded limit s
      → IsBounded limit (record s { waiting = rest })
  unfolding restart_count
  waiting-IsBounded rest s a b = record {
    waiting = a;
    launching = b.launching;
    active = b.active;
    timers = b.timers;
    counts = b.counts;
  }

  timers-IsBounded :
      (rest : List (Service × ℕ)) (s : State)
      → All (λ t. Fits limit t.0) rest
      → IsBounded limit s
      → IsBounded limit (record s { timers = rest })
  unfolding restart_count
  timers-IsBounded rest s a b = record {
    waiting = b.waiting;
    launching = b.launching;
    active = b.active;
    timers = a;
    counts = b.counts;
  }

  launching-IsBounded :
      (rest : List Launching) (s : State)
      → All (λ l. Fits limit l.service) rest
      → IsBounded limit s
      → IsBounded limit (record s { launching = rest })
  unfolding restart_count
  launching-IsBounded rest s a b = record {
    waiting = b.waiting;
    launching = a;
    active = b.active;
    timers = b.timers;
    counts = b.counts;
  }

  launch_in-IsBounded :
      (c : Caller) (service : Service) (s : State)
      → Fits limit service
      → IsBounded limit s
      → IsBounded limit (launch_in c service s)
  unfolding launch_in
  launch_in-IsBounded c service s f b = launching-IsBounded _ s (f, b.launching) b

  poll_dep-IsBounded :
      (k : Kind) (n : Text) (s : State) → IsBounded limit s → IsBounded limit (poll_dep k n s).0
  unfolding poll_dep restart_count
  poll_dep-IsBounded k n s b = record {
    waiting = b.waiting;
    launching = b.launching;
    active = b.active;
    timers = b.timers;
    counts = b.counts;
  }

  wait_in-IsBounded :
      (phase : Phase) (service : Service) (s : State)
      → Fits limit service
      → IsBounded limit s
      → IsBounded limit (wait_in phase service s)
  unfolding wait_in
  wait_in-IsBounded phase service s f b = waiting-IsBounded _ s (f, b.waiting) b

  IsBounded-Kept :
      Kept Unit
        (IsBounded limit)
        (λ service t. Fits limit service)
        (λ phase service t. Fits limit service)
        (λ service t. Fits limit service)
  IsBounded-Kept = record {
    graceful = graceful_shutdown-IsBounded;
    trigger = trigger-IsBounded limit;
    marks = mark_dep-IsBounded limit;
    polls = λ k n phase service s f b. (f, poll_dep-IsBounded k n s b);
    updates = update-IsBounded limit;
    leaves = λ n p f s e same b.
        remove-IsBounded (name_of p) p.config _ (b.active n p e)
          (update-IsBounded limit (name_of p) f s same b);
    repeats = repeat-IsBounded limit;
    requeues = requeue-IsBounded limit;
    takes = λ n s w rest e b.
        let (f, a) =
          All-take (λ v. Fits limit v.service) waiting_name n s.waiting rest w e b.waiting in
        (f, waiting-IsBounded rest s a b);
    fires = λ n s t rest e b.
        let (f, a) = All-take (λ u. Fits limit u.0) timer_name n s.timers rest t e b.timers in
        (f, timers-IsBounded rest s a b);
    waits = wait_in-IsBounded;
    begins = λ c service s d f b. launch_in-IsBounded c service s f b;
    registers = λ n s l rest e b.
        let (f, a) =
          All-take (λ k. Fits limit k.service) launching_name n s.launching rest l e b.launching in
        (f, launching-IsBounded rest s a b);
    starts = λ c service s f b. add-IsBounded _ s f b;
    enters = λ service s f. f;
    scripted = λ service s f b. f;
    hears = λ service dep left s f b e. (f, f);
    lingered = λ service left s f. f;
    launches = λ service s f. f;
  }

  -- Where every service has the limit of restarts of its name, and the counts are within the limits
  -- that are not zero, every sequence of events from a valid state runs without a panic to a valid
  -- state for which the same holds.
  pub run-IsBounded :
      (es : List Event) (s : State)
      → IsValid s
      → IsBounded limit s
      → (t : State) × (run es s ≡ some t) × IsValid t × IsBounded limit t
  run-IsBounded es s v b =
      let (t, e, w) = run-IsValid es s v in
      (t, e, w, subst (Holds Unit (IsBounded limit)) e (run-Kept IsBounded-Kept es s b))
