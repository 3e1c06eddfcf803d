-- ===== src/Validation/Config.antt =====
-- `validateConfig` of cmd/go-overlay/validation.go. It changes the configuration that it is given,
-- so it returns the new one with the errors; no errors stand for nil.
pub mod Laws
use go_overlay.Base.{
  ℕ, Text, lit, Bool, true, List, [], ◌∷◌, ◌++◌, Option, none, some, if◌then◌else◌, contains,
  collect,
}
use go_overlay.Base.Int.{ℤ, pos, is_zero}
use go_overlay.Config.{Service, Timeouts, Config}
use go_overlay.Dependencies.Check.{validate_dependencies}
use go_overlay.Environ.Override.{apply_service_env_overrides}
use go_overlay.Validation.Host.{Host}
use go_overlay.Validation.Fields.{ValidationError, ValidationErrors, fail_if}
use go_overlay.Validation.Service.{validate_service}

-- `if t == 0 { t = d }`
abbrev pub default : ℕ → ℤ → ℤ
default d t = if is_zero t then pos d else t

unfoldable pub default_timeouts : Timeouts → Timeouts
default_timeouts t = record {
  post_script = default 7 t.post_script;
  service_shutdown = default 10 t.service_shutdown;
  global_shutdown = default 30 t.global_shutdown;
  dependency_wait = default 300 t.dependency_wait;
}

-- The first loop: `serviceNames` holds the names seen so far.
unfoldable pub name_errors : List Text → List Service → ValidationErrors
name_errors seen [] = []
name_errors seen (service ∷ services) =
    fail_if (contains service.name seen) service (lit "name") (lit "duplicate service name")
    ++ name_errors (service.name ∷ seen) services

unfoldable pub default_enabled : List Service → List Service
default_enabled [] = []
default_enabled (service ∷ services) =
    record service { enabled = elim service.enabled [ none ↦ some true | some b ↦ some b ] }
    ∷ default_enabled services

abbrev dependency_errors : Option Text → ValidationErrors
dependency_errors none = []
dependency_errors (some e) = record { field = lit "dependencies"; service = []; message = e } ∷ []

module _ (host : Host) (lookup_env : Text → Option Text) where
  -- the configuration that `validateConfig` leaves
  unfoldable pub validated : Config → Config
  validated config = apply_service_env_overrides lookup_env (record {
    services = default_enabled config.services;
    timeouts = default_timeouts config.timeouts;
  })

  unfoldable pub validate_config : Config → Config × ValidationErrors
  validate_config config =
      let config' = validated config in
      (
        config',
        name_errors [] config.services
            ++ collect (validate_service host) config'.services
            ++ dependency_errors (validate_dependencies config'.services),
      )
