-- ===== src/Validation/Config/Laws.antt =====
-- What `validateConfig` of cmd/go-overlay/validation.go accepts, and what it leaves.
use go_overlay.Base.{
  Text, true, List, [], ◌∷◌, ◌++◌, Option, none, some, ◌≡◌, ◌↔◌, refl, arith, Memᴰ, Map, lookup,
  contains_iff, collect, collect-eq-nil, append-eq-nil, inl, inr, Bool-cases, Option-cases, ◌==◌,
}
use go_overlay.Config.{Service, Config, WaitAfterField, get_wait_time}
use go_overlay.Dependencies.Check.{is_service_enabled, validate_dependencies}
use go_overlay.Dependencies.Check.Sound.{IsSound, validate_dependencies_iff}
use go_overlay.Validation.Host.{Host}
use go_overlay.Validation.Fields.{ValidationErrors, fail_if}
use go_overlay.Validation.Accepts.{IsWait, WaitFits}
use go_overlay.Validation.Service.{validate_service, IsWellFormed, validate_service_iff}
use go_overlay.Validation.Config.{name_errors, dependency_errors, validated, validate_config}

-- No service has the name of one before it.
abbrev pub DistinctFrom : List Text → List Service → Type 0
DistinctFrom seen [] = Unit
DistinctFrom seen (s ∷ services) = (¬ Memᴰ s.name seen) × DistinctFrom (s.name ∷ seen) services

name_errors_iff :
    (seen : List Text) (services : List Service)
    → (name_errors seen services ≡ []) ↔ DistinctFrom seen services
unfolding name_errors fail_if
name_errors_iff seen [] = ground arith
name_errors_iff seen (s ∷ services) =
    ground (arith, contains_iff s.name seen, name_errors_iff (s.name ∷ seen) services)

dependency_errors_iff : (e : Option Text) → (dependency_errors e ≡ []) ↔ (e ≡ none)
dependency_errors_iff none = ground arith
dependency_errors_iff (some e) = ground arith

lookup-mem :
    {V : Type 0} (k : Text) (m : Map V) (v : V) → lookup k m ≡ some v → (j : Text) × Memᴰ (j, v) m
unfolding lookup
lookup-mem k [] v h = absurd (cc)
lookup-mem k ((j, w) ∷ m) v h = elim (Bool-cases (j == k)) [
  | inl e ↦ (j, Memᴰ.head (ground arith))
  | inr e ↦ let (i, t) = lookup-mem k m v (rw (e, lookup) at h) in (i, Memᴰ.tail t)
]

get_wait_time-fits : (w : WaitAfterField) (dep : Text) → WaitFits w → IsWait (get_wait_time w dep)
unfolding get_wait_time
get_wait_time-fits w dep f = elim (Bool-cases w.is_per_dep) [
  | inl p ↦ elim (Option-cases (lookup dep w.per_dep)) [
    | inl e ↦ rw (p, e, get_wait_time) (0, refl, omega arith)
    | inr (t, e) ↦
        let (j, m) = lookup-mem dep w.per_dep t e in rw (p, e, get_wait_time) (f.per_dep p (j, t) m)
  ]
  | inr p ↦ rw (p, get_wait_time) (f.global p)
]

module _ (host : Host) (lookup_env : Text → Option Text) where
  -- A configuration with distinct names whose services, as the environment enables them, are well
  -- formed and have sound dependencies.
  pub record IsAcceptable (config : Config) : Type 0 where
    pub distinct : DistinctFrom [] config.services
    pub formed :
        (s : Service) → Memᴰ s (validated host lookup_env config).services → IsWellFormed host s
    pub sound : IsSound (validated host lookup_env config).services

  -- `validateConfig` returns nil exactly for the acceptable configurations.
  pub validate_config_iff :
      (config : Config) → ((validate_config host lookup_env config).1 ≡ []) ↔ IsAcceptable config
  unfolding validate_config
  validate_config_iff config = (
    λ h.
        let (front, deps) = (append-eq-nil (names ++ formed) last).0 h in
        let (distinct, each) = (append-eq-nil names formed).0 front in
        record {
          distinct = (name_errors_iff [] config.services).0 distinct;
          formed = λ s m. (validate_service_iff host s).0 ((collect-eq-nil _ services).0 each s m);
          sound = (validate_dependencies_iff services).0 ((dependency_errors_iff _).0 deps);
        },
    λ a. (append-eq-nil (names ++ formed) last).1 (
      (append-eq-nil names formed).1 (
        (name_errors_iff [] config.services).1 a.distinct,
        (collect-eq-nil _ services).1 λ s m. (validate_service_iff host s).1 (a.formed s m),
      ),
      (dependency_errors_iff _).1 ((validate_dependencies_iff services).1 a.sound),
    ),
  )
    where
      services : List Service
      services = (validated host lookup_env config).services

      names : ValidationErrors
      names = name_errors [] config.services

      formed : ValidationErrors
      formed = collect (validate_service host) services

      last : ValidationErrors
      last = dependency_errors (validate_dependencies services)

  -- After an accepted `validateConfig`, every wait that an enabled service asks for after one of
  -- its dependencies is from 0 to 300 seconds.
  pub get_wait_time-IsWait :
      (config : Config) (s : Service) (w : WaitAfterField) (dep : Text)
      → (validate_config host lookup_env config).1 ≡ []
      → Memᴰ s (validated host lookup_env config).services
      → is_service_enabled s ≡ true
      → s.wait_after ≡ some w
      → IsWait (get_wait_time w dep)
  unfolding get_wait_time
  get_wait_time-IsWait config s w dep h m on e =
      get_wait_time-fits w dep
        (((((validate_config_iff config).0 h).formed s m).can_run on).waits w e)
