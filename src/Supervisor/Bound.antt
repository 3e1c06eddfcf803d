-- ===== src/Supervisor/Bound.antt =====
-- How often a service is restarted: `handleServiceExit` of cmd/go-overlay/restart.go counts, and
-- stops at the limit of the configuration.
pub mod Runs
use Prim.{Unit, tt}
use go_overlay.Base.{
  ℕ, zero, suc, ◌+◌, ◌≤◌, Text, ◌==◌, ==_iff, ==_refl, Map, lookup, insert, delete, lookup-insert,
  lookup-delete, Bool, true, false, List, [], ◌∷◌, ◌++◌, Option, none, some, ◌≡◌, refl, sym, ap,
  subst, arith, inl, inr, if_elim, if◌then◌else◌, ◌&&◌, ◌||◌, Bool-cases, Option-cases, All,
  All-put, leb,
}
use go_overlay.Base.Int.{ℤ, pos, to_ℕ, above}
use go_overlay.Config.{Service}
use go_overlay.Tracker.{Kind, mark}
use go_overlay.Supervisor.{
  Process, State, Caller, name_of, update, mark_dep, graceful_shutdown,
  trigger_service_failure_shutdown,
}
use go_overlay.Supervisor.Restart.{
  restart_count, schedule_restart, increment_restart_count, reset_restart_count,
  handle_service_exit, is_error, should_restart, is_exhausted, restart_delay_of,
}
use go_overlay.Supervisor.Kept.{Holds}

module _ (limit : Text → ℕ) where
  -- The service has the limit of its name.
  abbrev pub Fits : Service → Type 0
  Fits s = s.max_restarts ≡ pos (limit s.name)

  -- Every service has the limit of its name, and where that is not zero (which stands for no limit)
  -- its count of restarts is within it.
  pub record IsBounded (s : State) : Type 0 where
    pub waiting : All (λ w. Fits w.service) s.waiting
    pub launching : All (λ l. Fits l.service) s.launching
    pub active : (n : Text) (p : Process) → lookup n s.active ≡ some p → Fits p.config
    pub timers : All (λ t. Fits t.0) s.timers
    pub counts : (n : Text) → 1 ≤ limit n → restart_count n s ≤ limit n

  pub trigger-IsBounded : (s : State) → IsBounded s → IsBounded (trigger_service_failure_shutdown s)
  unfolding trigger_service_failure_shutdown graceful_shutdown restart_count
  trigger-IsBounded s b =
      if_elim IsBounded s.once_done _ _
        (λ _. record {
          waiting = b.waiting;
          launching = b.launching;
          active = b.active;
          timers = b.timers;
          counts = b.counts;
        })
        (λ _. record {
          waiting = b.waiting;
          launching = b.launching;
          active = b.active;
          timers = b.timers;
          counts = b.counts;
        })

  not_exhausted :
      (service : Service) (s : State)
      → Fits service
      → is_exhausted service s ≡ false
      → 1 ≤ limit service.name
      → suc (restart_count service.name s) ≤ limit service.name
  unfolding is_exhausted
  not_exhausted service s f x l =
      below (limit service.name) (restart_count service.name s) l
        (subst (λ m. (above 0 m && leb (to_ℕ m) (restart_count service.name s)) ≡ false) f x)
    where
      below : (k c : ℕ) → 1 ≤ k → (above 0 (pos k) && leb k c) ≡ false → suc c ≤ k
      below k c h g = ground arith

  restart_count-increment :
      (name n : Text) (s : State)
      → restart_count n (increment_restart_count name s)
        ≡ (if name == n then suc (restart_count name s) else restart_count n s)
  unfolding restart_count increment_restart_count
  restart_count-increment name n s =
      ground (arith, lookup-insert name n (suc (restart_count name s)) s.restart_counts)

  counts_within :
      (service : Service) (e : Option Text) (s : State) (n : Text)
      → Fits service
      → IsBounded s
      → (should_restart service e && is_exhausted service s) ≡ false
      → should_restart service e ≡ true
      → 1 ≤ limit n
      → restart_count n (increment_restart_count service.name s) ≤ limit n
  counts_within service e s n f b x y l = elim (Bool-cases (service.name == n)) [
    | inl h ↦
        rw (restart_count-increment service.name n s, h, ← ((==_iff service.name n).0 h))
          (not_exhausted service s f (ground arith)
            (subst (λ k. 1 ≤ limit k) (sym ((==_iff service.name n).0 h)) l))
    | inr h ↦ rw (restart_count-increment service.name n s, h) (b.counts n l)
  ]

  pub repeat-IsBounded :
      (service : Service) (e : Option Text) (s : State)
      → (should_restart service e && is_exhausted service s) ≡ false
      → should_restart service e ≡ true
      → Fits service
      → IsBounded s
      → IsBounded (
          schedule_restart service
            (restart_delay_of service)
            (increment_restart_count service.name s))
  unfolding increment_restart_count schedule_restart restart_count
  repeat-IsBounded service e s x y f b = record {
    waiting = b.waiting;
    launching = b.launching;
    active = b.active;
    timers = All-put (λ u. Fits u.0) s.timers _ b.timers f;
    counts = λ n l. counts_within service e s n f b x y l;
  }

  pub requeue-IsBounded :
      (service : Service) (s : State)
      → Fits service
      → IsBounded s
      → IsBounded (schedule_restart service (pos 1) (reset_restart_count service.name s))
  unfolding schedule_restart reset_restart_count restart_count
  requeue-IsBounded service s f b = record {
    waiting = b.waiting;
    launching = b.launching;
    active = b.active;
    timers = All-put (λ u. Fits u.0) s.timers _ b.timers f;
    counts = λ n l. ground (arith, lookup-delete service.name n s.restart_counts, b.counts n l);
  }

  pub mark_dep-IsBounded :
      (k : Kind) (n : Text) (s : State) → IsBounded s → Holds Unit IsBounded (mark_dep k n s)
  unfolding mark_dep restart_count
  mark_dep-IsBounded k n s b = elim (Option-cases (mark k n s.deps)) [
    | inl e ↦ rw (e, mark_dep) tt
    | inr (d, e) ↦
        rw (e, mark_dep)
          (record {
            waiting = b.waiting;
            launching = b.launching;
            active = b.active;
            timers = b.timers;
            counts = b.counts;
          })
  ]

  pub update-IsBounded :
      (n : Text) (f : Process → Process) (s : State)
      → ((p : Process) → (f p).config ≡ p.config)
      → IsBounded s
      → IsBounded (update n f s)
  unfolding update restart_count
  update-IsBounded n f s same b = elim (Option-cases (lookup n s.active)) [
    | inl e ↦ rw (e, update) b
    | inr (p, e) ↦
        rw (e, update)
          (record {
            waiting = b.waiting;
            launching = b.launching;
            active = λ m q h. ground (
              arith,
              lookup-insert n m (f p) s.active,
              ==_iff n m,
              same p,
              b.active n p e,
              b.active m q,
            );
            timers = b.timers;
            counts = b.counts;
          })
  ]
