-- ===== src/Validation/Service.antt =====
-- `validateService` of cmd/go-overlay/validation.go: a disabled service is only checked for its
-- name and its command.
use go_overlay.Base.{
  true, false, [], ◌++◌, some, ◌≡◌, ◌≢◌, ◌↔◌, if◌then◌else◌, arith, All, append-eq-nil,
}
use go_overlay.Config.{Service, WaitAfterField, HealthCheckConfig}
use go_overlay.Dependencies.Check.{is_service_enabled}
use go_overlay.Validation.Host.{Host}
use go_overlay.Validation.Fields.{
  ValidationErrors, validate_required_fields, validate_service_name, validate_command,
  validate_scripts, validate_log_file, validate_env_file, validate_user, validate_wait_after,
  validate_health_check, validate_restart_policy,
}
use go_overlay.Validation.Accepts.{
  IsNameByte, CommandFound, NotMissing, UserFits, WaitFits, HealthFits, RestartFits,
  validate_required_fields_iff, validate_service_name_iff, validate_command_iff,
  validate_scripts_iff, validate_log_file_iff, validate_env_file_iff, validate_user_iff,
  validate_wait_after_iff, validate_health_check_iff, validate_restart_policy_iff,
}

module _ (host : Host) where
  -- the checks of an enabled service
  unfoldable pub validate_enabled : Service → ValidationErrors
  validate_enabled service =
      validate_command host service
      ++ validate_scripts host service
      ++ validate_log_file host service
      ++ validate_wait_after service
      ++ validate_user host service
      ++ validate_health_check service
      ++ validate_restart_policy service
      ++ validate_env_file host service

  unfoldable pub validate_service : Service → ValidationErrors
  validate_service service =
      let errors = validate_required_fields service ++ validate_service_name service in
      if is_service_enabled service then errors ++ validate_enabled service else errors

  -- What an enabled service must be like to run on this host.
  pub record CanRun (s : Service) : Type 0 where
    pub command : CommandFound host s
    pub pre_script : NotMissing host s.pre_script
    pub pos_script : NotMissing host s.pos_script
    pub log_dir : s.log_file ≢ [] → host.stat_not_exist (host.dir s.log_file) ≡ false
    pub waits : (w : WaitAfterField) → s.wait_after ≡ some w → WaitFits w
    pub user : UserFits host s
    pub health : (hc : HealthCheckConfig) → s.health_check ≡ some hc → HealthFits hc
    pub restart : RestartFits s
    pub env_file : NotMissing host s.env_file

  pub record IsWellFormed (s : Service) : Type 0 where
    pub named : s.name ≢ []
    pub name_bytes : All IsNameByte s.name
    pub has_command : s.command ≢ []
    pub can_run : is_service_enabled s ≡ true → CanRun s

  validate_enabled-eq-nil :
      (s : Service)
      → (validate_enabled s ≡ []) ↔ (
          (validate_command host s ≡ [])
          × (validate_scripts host s ≡ [])
          × (validate_log_file host s ≡ [])
          × (validate_wait_after s ≡ [])
          × (validate_user host s ≡ [])
          × (validate_health_check s ≡ [])
          × (validate_restart_policy s ≡ [])
          × (validate_env_file host s ≡ []))
  unfolding validate_enabled
  validate_enabled-eq-nil s = grind (arith, append-eq-nil)

  validate_enabled_iff : (s : Service) → s.command ≢ [] → (validate_enabled s ≡ []) ↔ CanRun s
  validate_enabled_iff s c = (
    λ h.
        let p = (validate_enabled-eq-nil s).0 h in
        let scripts = (validate_scripts_iff host s).0 p.1 in
        record {
          command = (validate_command_iff host s c).0 p.0;
          pre_script = scripts.0;
          pos_script = scripts.1;
          log_dir = (validate_log_file_iff host s).0 p.2;
          waits = (validate_wait_after_iff s).0 p.3;
          user = (validate_user_iff host s).0 p.4;
          health = (validate_health_check_iff s).0 p.5;
          restart = (validate_restart_policy_iff s).0 p.6;
          env_file = (validate_env_file_iff host s).0 p.7;
        },
    λ r. (validate_enabled-eq-nil s).1 (
      (validate_command_iff host s c).1 r.command,
      (validate_scripts_iff host s).1 (r.pre_script, r.pos_script),
      (validate_log_file_iff host s).1 r.log_dir,
      (validate_wait_after_iff s).1 r.waits,
      (validate_user_iff host s).1 r.user,
      (validate_health_check_iff s).1 r.health,
      (validate_restart_policy_iff s).1 r.restart,
      (validate_env_file_iff host s).1 r.env_file,
    ),
  )

  name_checks_iff :
      (s : Service)
      → (validate_required_fields s ++ validate_service_name s ≡ [])
        ↔ ((s.name ≢ []) × (s.command ≢ []) × All IsNameByte s.name)
  name_checks_iff s =
      grind (arith, append-eq-nil, validate_required_fields_iff s, validate_service_name_iff s)

  validate_service-eq-nil :
      (s : Service)
      → (validate_service s ≡ []) ↔ (
          (validate_required_fields s ++ validate_service_name s ≡ [])
          × (is_service_enabled s ≡ true → validate_enabled s ≡ []))
  unfolding validate_service
  validate_service-eq-nil s = ground (
    arith,
    append-eq-nil (validate_required_fields s ++ validate_service_name s) (validate_enabled s),
  )

  -- `validateService` reports nothing exactly for the services with a name of the allowed
  -- characters and a command which, if they are enabled, can run on this host.
  pub validate_service_iff : (s : Service) → (validate_service s ≡ []) ↔ IsWellFormed s
  validate_service_iff s = (
    λ h.
        let (basic, more) = (validate_service-eq-nil s).0 h in
        let (named, has_command, name_bytes) = (name_checks_iff s).0 basic in
        record {
          named = named;
          name_bytes = name_bytes;
          has_command = has_command;
          can_run = λ on. (validate_enabled_iff s has_command).0 (more on);
        },
    λ r. (validate_service-eq-nil s).1 (
      (name_checks_iff s).1 (r.named, r.has_command, r.name_bytes),
      λ on. (validate_enabled_iff s r.has_command).1 (r.can_run on),
    ),
  )
