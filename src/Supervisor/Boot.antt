-- ===== src/Supervisor/Boot.antt =====
-- The supervisor from its start on an accepted configuration: `loadServices` of
-- cmd/go-overlay/service.go validates the configuration and starts its services.
use go_overlay.Base.{
  ◌≤◌, Text, ◌==◌, ==_iff, List, [], ◌∷◌, Option, some, ◌≡◌, refl, sym, arith, inl, inr, Bool-cases,
  Memᴰ, lookup,
}
use Prim.{tt}
use go_overlay.Base.{All, if_elim}
use go_overlay.Dependencies.Check.{is_service_enabled}
use go_overlay.Supervisor.{Process}
use go_overlay.Supervisor.Ordered.{IsDue, HasReached, IsOrdered}
use go_overlay.Supervisor.Ordered.Runs.{run-IsOrdered}
use go_overlay.Tracker.{Tracker}
use go_overlay.Config.{Service, Config}
use go_overlay.Environ.Override.{apply_overrides, apply_service_env_overrides}
use go_overlay.Tracker.Marks.{new-IsValid}
use go_overlay.Validation.Host.{Host}
use go_overlay.Validation.Config.{default_enabled, validated, validate_config}
use go_overlay.Validation.Config.Laws.{DistinctFrom, IsAcceptable, validate_config_iff}
use go_overlay.Supervisor.{State}
use go_overlay.Supervisor.Step.{Event, run, waiting_name, enabled_services, start_all_services}
use go_overlay.Supervisor.Counts.{count}
use go_overlay.Supervisor.Invariant.{IsValid}
use go_overlay.Supervisor.Safety.{run-IsValid}

abbrev service_name : Service → Text
service_name s = s.name

count-seen :
    (n : Text) (seen : List Text) (services : List Service)
    → Memᴰ n seen
    → DistinctFrom seen services
    → count service_name n services ≡ 0
unfolding count
count-seen n seen [] m d = refl
count-seen n seen (s ∷ services) m d =
    ground (arith, count-seen n (s.name ∷ seen) services (Memᴰ.tail m) d.1, ==_iff s.name n, d.0, m)

count-DistinctFrom :
    (n : Text) (seen : List Text) (services : List Service)
    → DistinctFrom seen services
    → count service_name n services ≤ 1
unfolding count
count-DistinctFrom n seen [] d = omega arith
count-DistinctFrom n seen (s ∷ services) d = elim (Bool-cases (s.name == n)) [
  | inl e ↦ rw e (
      omega (
        arith,
        count-seen n (s.name ∷ seen) services (Memᴰ.head (sym ((==_iff s.name n).0 e))) d.1,
      ))
  | inr e ↦ rw e (omega (arith, count-DistinctFrom n (s.name ∷ seen) services d.1))
]

count-enabled_services :
    (n : Text) (services : List Service)
    → count waiting_name n (enabled_services services) ≤ count service_name n services
unfolding count enabled_services
count-enabled_services n [] = omega arith
count-enabled_services n (s ∷ services) = ground (arith, count-enabled_services n services)

count-default_enabled :
    (n : Text) (services : List Service)
    → count service_name n (default_enabled services) ≡ count service_name n services
unfolding count default_enabled
count-default_enabled n [] = refl
count-default_enabled n (s ∷ services) = ground (arith, count-default_enabled n services)

-- Whatever waits at the start has passed no dependency.
enabled_services-HasReached :
    (services : List Service) (d : Tracker)
    → All (λ w. HasReached w.phase w.service d) (enabled_services services)
unfolding enabled_services
enabled_services-HasReached [] d = tt
enabled_services-HasReached (s ∷ services) d =
    let rest = enabled_services-HasReached services d in
    if_elim (All (λ w. HasReached w.phase w.service d)) (is_service_enabled s) _ _ (λ _. (tt, rest))
      (λ _. rest)

start_all_services-IsOrdered : (config : Config) → IsOrdered (start_all_services config)
unfolding start_all_services lookup
start_all_services-IsOrdered config = record {
  tracked = new-IsValid;
  waiting = enabled_services-HasReached config.services _;
  active = λ n p h. absurd (ground arith);
  timers = tt;
  launching = tt;
}

module _ (host : Host) (lookup_env : Text → Option Text) where
  count-apply_overrides :
      (n : Text) (services : List Service)
      → count service_name n (apply_overrides lookup_env services) ≡ count service_name n services
  unfolding count apply_overrides
  count-apply_overrides n [] = refl
  count-apply_overrides n (s ∷ services) = ground (arith, count-apply_overrides n services)

  pub start_all_services-IsValid :
      (config : Config)
      → IsAcceptable host lookup_env config
      → IsValid (start_all_services (validated host lookup_env config))
  unfolding start_all_services validated apply_service_env_overrides count lookup
  start_all_services-IsValid config a = record {
    once = λ n. omega (
      arith,
      count-enabled_services n (apply_overrides lookup_env (default_enabled config.services)),
      count-apply_overrides n (default_enabled config.services),
      count-default_enabled n config.services,
      count-DistinctFrom n [] config.services a.distinct,
    );
    counted = refl;
    named = λ n p h. ground arith;
    tracked = new-IsValid;
    exit_code = omega arith;
    failing = λ h. ground arith;
    canceled = λ h. ground arith;
  }

  -- Where `validateConfig` reports nothing, the supervisor that is started on the configuration
  -- handles every sequence of events without a panic: no channel is closed twice and the wait group
  -- does not go below zero. The state that is reached is valid.
  pub run-accepted :
      (config : Config) (es : List Event)
      → (validate_config host lookup_env config).1 ≡ []
      → (t : State) × (run es (start_all_services (validated host lookup_env config)) ≡ some t)
        × IsValid t
  run-accepted config es h =
      run-IsValid es _
        (start_all_services-IsValid config ((validate_config_iff host lookup_env config).0 h))

  -- Where `validateConfig` reports nothing, every sequence of events from the start runs without a
  -- panic to a state in which every dependency of an active service was marked ready.
  pub run-in_order :
      (config : Config) (es : List Event)
      → (validate_config host lookup_env config).1 ≡ []
      → (t : State) × (run es (start_all_services (validated host lookup_env config)) ≡ some t)
        × ((n : Text) (p : Process) → lookup n t.active ≡ some p → IsDue p.config t.deps)
  run-in_order config es h =
      let (t, e, v) = run-accepted config es h in
      let o =
        run-IsOrdered es _ t (start_all_services-IsOrdered (validated host lookup_env config)) e in
      (t, e, o.active)
