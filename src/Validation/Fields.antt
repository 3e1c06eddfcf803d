-- ===== src/Validation/Fields.antt =====
-- The checks of a single field, in cmd/go-overlay/validation.go.
use go_overlay.Base.{
  ℕ, Text, lit, ◌==◌, Bool, true, ◌&&◌, ◌||◌, not, List, [], ◌∷◌, ◌++◌, none, some, if◌then◌else◌,
  nat_eq, leb, has_prefix, has_byte, contains, collect,
}
use go_overlay.Base.Int.{ℤ, is_neg, above}
use go_overlay.Config.{
  Service, HealthCheckConfig, restart_never, restart_on_failure, restart_always,
}
use go_overlay.Process.Credential.{lookup_user_credential}
use go_overlay.Validation.Host.{Host}

pub record ValidationError : Type 0 where
  pub field : Text
  pub service : Text
  pub message : Text

abbrev pub ValidationErrors : Type 0
ValidationErrors = List ValidationError

-- `ValidationError.Error`
pub error_text : ValidationError → Text
error_text e =
    if not (e.service == [])
    then lit "validation error in service '"
      ++ e.service
      ++ lit "', field '"
      ++ e.field
      ++ lit "': "
      ++ e.message
    else lit "validation error in field '" ++ e.field ++ lit "': " ++ e.message

-- `strings.Join(msgs, "; ")`
join_texts : List ValidationError → Text
unfolding error_text
join_texts [] = []
join_texts (e ∷ []) = error_text e
join_texts (e ∷ f ∷ rest) = error_text e ++ lit "; " ++ join_texts (f ∷ rest)

-- `ValidationErrors.Error`
pub errors_text : ValidationErrors → Text
unfolding join_texts
errors_text [] = lit "no validation errors"
errors_text (e ∷ rest) = join_texts (e ∷ rest)

-- `if failed { errors = append(errors, ValidationError{Field: field, Service: service.Name, ...}) }`
unfoldable pub fail_if : Bool → Service → Text → Text → ValidationErrors
fail_if failed service field message =
    if failed then record { field = field; service = service.name; message = message } ∷ [] else []

unfoldable pub validate_required_fields : Service → ValidationErrors
validate_required_fields service =
    fail_if (service.name == []) service (lit "name") (lit "service name is required")
    ++ fail_if (service.command == []) service (lit "command") (lit "command is required")

-- `[a-zA-Z0-9_-]`
unfoldable pub is_name_byte : ℕ → Bool
is_name_byte c =
    leb b'a' c && leb c b'z'
    || leb b'A' c && leb c b'Z'
    || leb b'0' c && leb c b'9'
    || nat_eq c b'_'
    || nat_eq c b'-'

unfoldable pub all_bytes : (ℕ → Bool) → Text → Bool
all_bytes p [] = true
all_bytes p (c ∷ s) = p c && all_bytes p s

-- `^[a-zA-Z0-9_-]+$`
unfoldable pub is_valid_name : Text → Bool
is_valid_name s = not (s == []) && all_bytes is_name_byte s

unfoldable pub validate_service_name : Service → ValidationErrors
validate_service_name service =
    if not (service.name == [])
    then fail_if (not (is_valid_name service.name)) service (lit "name")
        (lit "service name must contain only alphanumeric characters, dashes, and underscores")
    else []

module _ (host : Host) where
  unfoldable pub validate_command : Service → ValidationErrors
  validate_command service =
      if not (service.command == []) && not (has_byte b' ' service.command)
      then (if host.look_path service.command
          then []
          else if not (has_prefix service.command (lit "/"))
          then fail_if true service (lit "command")
              (lit "command '" ++ service.command ++ lit "' not found in PATH")
          else fail_if (host.stat_not_exist service.command) service (lit "command")
              (lit "command file '" ++ service.command ++ lit "' does not exist"))
      else []

  -- `if path != "" { if _, err := os.Stat(path); os.IsNotExist(err) { ... } }`
  abbrev pub missing_file : Text → Bool
  missing_file path = not (path == []) && host.stat_not_exist path

  unfoldable pub validate_scripts : Service → ValidationErrors
  validate_scripts service =
      fail_if (missing_file service.pre_script) service (lit "pre_script")
        (lit "pre-script file '" ++ service.pre_script ++ lit "' does not exist")
      ++ fail_if (missing_file service.pos_script) service (lit "pos_script")
          (lit "post-script file '" ++ service.pos_script ++ lit "' does not exist")

  unfoldable pub validate_log_file : Service → ValidationErrors
  validate_log_file service =
      if not (service.log_file == [])
      then fail_if (host.stat_not_exist (host.dir service.log_file)) service (lit "log_file")
          (lit "log file directory '" ++ host.dir service.log_file ++ lit "' does not exist")
      else []

  unfoldable pub validate_env_file : Service → ValidationErrors
  validate_env_file service =
      fail_if (missing_file service.env_file) service (lit "env_file")
        (lit "env_file '" ++ service.env_file ++ lit "' does not exist")

  unfoldable pub validate_user : Service → ValidationErrors
  validate_user service =
      if not (service.user == [])
      then elim (lookup_user_credential host.lookup_user service.user) [
        | none ↦
            fail_if true service (lit "user")
              (lit "user '" ++ service.user ++ lit "' does not exist")
        | some _ ↦
            fail_if (not (nat_eq host.geteuid 0)) service (lit "user")
              (lit "running services as user '" ++ service.user ++ lit "' requires root privileges")
      ]
      else []

abbrev pub bad_wait : ℤ → Bool
bad_wait t = is_neg t || above 300 t

-- the body of the loop over `service.WaitAfter.PerDep`
unfoldable pub check_wait_time : Service → Text × ℤ → ValidationErrors
check_wait_time service (dep_name, wait_time) =
    fail_if (bad_wait wait_time) service (lit "wait_after")
      (lit "wait_after for dependency '" ++ dep_name ++ lit "' must be between 0 and 300 seconds")

unfoldable pub validate_wait_after : Service → ValidationErrors
validate_wait_after service = elim service.wait_after [
  | none ↦ []
  | some w ↦
      if w.is_per_dep
      then collect (check_wait_time service) w.per_dep
      else fail_if (bad_wait w.global) service (lit "wait_after")
          (lit "wait_after must be between 0 and 300 seconds")
]

abbrev pub bad_endpoint : Text → Bool
bad_endpoint endpoint =
    not (endpoint == [])
    && not (has_prefix endpoint (lit "http://"))
    && not (has_prefix endpoint (lit "https://"))

unfoldable pub check_health : Service → HealthCheckConfig → ValidationErrors
check_health service hc =
    fail_if (bad_endpoint hc.endpoint) service (lit "health_check.endpoint")
      (lit "endpoint must start with http:// or https://")
    ++ fail_if (is_neg hc.interval) service (lit "health_check.interval")
        (lit "interval must be a positive number")
    ++ fail_if (is_neg hc.retries) service (lit "health_check.retries")
        (lit "retries must be a positive number")
    ++ fail_if (is_neg hc.timeout) service (lit "health_check.timeout")
        (lit "timeout must be a positive number")
    ++ fail_if (is_neg hc.start_delay) service (lit "health_check.start_delay")
        (lit "start_delay must be a positive number")

unfoldable pub validate_health_check : Service → ValidationErrors
validate_health_check service = elim service.health_check [
  | none ↦ []
  | some hc ↦ check_health service hc
]

abbrev pub valid_policies : List Text
valid_policies = restart_never ∷ restart_on_failure ∷ restart_always ∷ []

unfoldable pub validate_restart_policy : Service → ValidationErrors
validate_restart_policy service =
    fail_if (not (service.restart == []) && not (contains service.restart valid_policies)) service
      (lit "restart")
      (lit "restart must be one of: never, on-failure, always (got: " ++ service.restart ++ lit ")")
    ++ fail_if (is_neg service.restart_delay) service (lit "restart_delay")
        (lit "restart_delay must be a positive number")
    ++ fail_if (is_neg service.max_restarts) service (lit "max_restarts")
        (lit "max_restarts must be a positive number (0 = unlimited)")
    ++ fail_if
        (service.oneshot
          && (service.restart == restart_always || service.restart == restart_on_failure))
        service (lit "restart") (lit "oneshot services must use restart='never' (or omit restart)")
