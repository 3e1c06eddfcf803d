-- ===== src/Tests/Environ.antt =====
-- Runs of the environment's model: overrides, masks, tokens and credentials.
use go_overlay.Base.{
  ℕ, ◌↔◌, ◌⊎◌, Text, lit, lookup, ◌==◌, has_byte, true, false, List, [], ◌∷◌, Option, none, some,
  ◌≡◌, refl, length, if◌then◌else◌, has_infix, has_prefix,
}
use go_overlay.Ascii
use go_overlay.Base.Int.{pos}
use go_overlay.Config.{Service, Config, restart_never}
use go_overlay.Validation.Host.{User}
use go_overlay.Ascii.{to_lower, cut}
use go_overlay.Environ.Mask.{entry, is_sensitive_env_key, mask_env_entry, mask_env_entry-hides}
use go_overlay.Environ.Token.{service_env_token, IsToken, service_env_token-normal}
use go_overlay.Environ.Override.{apply_service_env_overrides, is_separator}
use go_overlay.Environ.Override.Laws.{Overrides, apply_service_env_overrides-Overrides}
use go_overlay.Environ.Service.{Scan, scanned, override_env}
use go_overlay.Environ.Service.Last.{Last}
use go_overlay.Environ.Service.Keys.{WellKeyed}
use go_overlay.Environ.Service.Laws.{entries_for, overridden, override_env-entries}
use go_overlay.Process.Credential.{
  Credential, parse_uint32, parse_groups, lookup_user_credential, FitsU32,
  lookup_user_credential-FitsU32,
}

abbrev worker : Service
worker = record {
  env = (lit "MODE", lit "fast") ∷ [];
  wait_after = none;
  enabled = none;
  health_check = none;
  name = lit "my-worker";
  command = lit "work";
  log_file = [];
  pre_script = [];
  pos_script = [];
  user = [];
  restart = restart_never;
  env_file = lit "/etc/worker.env";
  args = [];
  depends_on = [];
  restart_delay = pos 0;
  max_restarts = pos 0;
  required = false;
  oneshot = false;
}

-- every file has the two lines
abbrev two_lines : Text → Scan
two_lines path = scanned (lit "# settings" ∷ lit "LEVEL='3'" ∷ []) false

abbrev own : List Text
own = lit "MODE=slow" ∷ lit "LEVEL=1" ∷ lit "HOME=/root" ∷ []

worker-WellKeyed : WellKeyed worker.env
unfolding lookup has_byte lit
worker-WellKeyed = (refl, refl, tt)

override_env-entries_example :
    entries_for (lit "MODE") (override_env own worker.env)
    ≡ overridden own (lit "MODE") (lookup (lit "MODE") worker.env)
override_env-entries_example = override_env-entries own worker.env (lit "MODE") worker-WellKeyed

abbrev disabling : Text → Option Text
disabling k = if k == lit "GO_OVERLAY_DISABLE_MY_WORKER" then some (lit "yes") else none

abbrev worker_config : Config
worker_config = record {
  services = worker ∷ [];
  timeouts = record {
    post_script = pos 7;
    service_shutdown = pos 10;
    global_shutdown = pos 30;
    dependency_wait = pos 300;
  };
}

apply_service_env_overrides-Overrides_example :
    Overrides disabling worker_config.services
      (apply_service_env_overrides disabling worker_config).services
    × ((apply_service_env_overrides disabling worker_config).timeouts ≡ worker_config.timeouts)
    × ((c : ℕ)
        → (is_separator c ≡ true)
          ↔ ((c ≡ b',') ⊎ ((c ≡ b';') ⊎ ((c ≡ b' ') ⊎ ((c ≡ 10) ⊎ (c ≡ 9))))))
apply_service_env_overrides-Overrides_example =
    apply_service_env_overrides-Overrides disabling worker_config

password_key : has_byte b'=' (lit "DB_PASSWORD") ≡ false
unfolding has_byte lit
password_key = refl

password_is_sensitive : is_sensitive_env_key (lit "DB_PASSWORD") ≡ true
unfolding is_sensitive_env_key lit Ascii.to_upper Ascii.upper_byte Ascii.has_suffix has_infix
    has_prefix ◌==◌
password_is_sensitive = refl

same_length : length (lit "hunter2") ≡ length (lit "letmein")
unfolding lit
same_length = refl

mask_env_entry-hides_example :
    mask_env_entry (entry (lit "DB_PASSWORD") (lit "hunter2"))
    ≡ mask_env_entry (entry (lit "DB_PASSWORD") (lit "letmein"))
mask_env_entry-hides_example =
    mask_env_entry-hides (lit "DB_PASSWORD") (lit "hunter2") (lit "letmein") password_key
      password_is_sensitive same_length

service_env_token-normal_example :
    IsToken (service_env_token (lit "A_B"))
    × (service_env_token (to_lower (lit "A_B")) ≡ service_env_token (lit "A_B"))
    × (IsToken (lit "A_B") → service_env_token (lit "A_B") ≡ lit "A_B")
service_env_token-normal_example = service_env_token-normal (lit "A_B")

abbrev users : Text → Option User
users name = some (record {
  uid = lit "1000";
  gid = lit "33";
  home_dir = lit "/home/app";
  group_ids = some (lit "4294967296" ∷ lit "44" ∷ []);
})

abbrev app : Credential
app = record { uid = 1000; gid = 33; groups = 44 ∷ [] }

app_is_found : lookup_user_credential users (lit "app") ≡ some (app, lit "/home/app")
unfolding lookup_user_credential parse_uint32 parse_groups lit
app_is_found = refl

lookup_user_credential-FitsU32_example : FitsU32 app
lookup_user_credential-FitsU32_example =
    lookup_user_credential-FitsU32 users (lit "app") app (lit "/home/app") app_is_found
