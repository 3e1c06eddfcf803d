-- ===== src/Tests.antt =====
-- Runs of the model on small concrete inputs: a configuration with a database and an API that
-- depends on it, a cycle of two services, and the events of their lives.
mod Environ
mod Decode
mod Runs
mod System
mod Install
mod Machine
mod Ports
mod Monitors
mod Sockets
use go_overlay.Base.{
  All, ℕ, Text, lit, ◌==◌, Map, lookup, Bool, true, false, List, [], ◌∷◌, ◌++◌, Option, none, some,
  ◌≡◌, ◌≢◌, ◌↔◌, ◌⊎◌, ◌<◌, refl, sym, subst, arith, inl, inr, Memᴰ, map, keys, insert, contains,
  first_error, collect, has_byte, length,
}
use go_overlay.Base.Int.{ℤ, pos}
use go_overlay.Ascii
use go_overlay.Dependencies.Check
use go_overlay.Dependencies.Cycles
use go_overlay.Environ.Override
use go_overlay.Environ.Token
use go_overlay.Validation.Fields
use go_overlay.Validation.Service
use go_overlay.Config.{Service, Config, Timeouts, WaitAfterField, get_wait_time, restart_always}
use go_overlay.Dependencies.Graph.{IsClosed, Grounded, Edge}
use go_overlay.Dependencies.Cycles.{Marks, cycle, clear}
use go_overlay.Dependencies.Cycles.Found.{CycleFrom}
use go_overlay.Dependencies.Check.{is_service_enabled, find_cycle, validate_dependencies}
use go_overlay.Dependencies.Check.Sound.{IsSound, find_cycle_decides, validate_dependencies_iff}
use go_overlay.Validation.Host.{Host, User}
use go_overlay.Validation.Accepts.{IsWait}
use go_overlay.Validation.Service.{validate_service, IsWellFormed, validate_service_iff}
use go_overlay.Validation.Config.{
  validated, validate_config, default_enabled, default_timeouts, name_errors,
}
use go_overlay.Validation.Config.Laws.{IsAcceptable, validate_config_iff, get_wait_time-IsWait}
use go_overlay.Health.{start_health_monitor, unhealthy, HasRun, start_health_monitor_iff}
use go_overlay.Config.{HealthCheckConfig}
use go_overlay.Tracker.{Kind, Tracker, mark, poll, new_dependency_tracker}
use go_overlay.Tracker.Invariant as Tracked
use go_overlay.Tracker.Marks.{MarkOf, PollOf, mark-MarkOf, poll-PollOf, new-IsValid}
use go_overlay.Dependencies.Cycles.Fuel.{has_cycles_ends}

abbrev pub host : Host
host = record {
  look_path = λ p. true;
  stat_not_exist = λ p. false;
  dir = λ p. lit "/var/log";
  lookup_user = λ n.
      some (record {
        uid = lit "1000";
        gid = lit "1000";
        home_dir = lit "/home/app";
        group_ids = none;
      });
  geteuid = 0;
}

abbrev pub no_env : Text → Option Text
no_env k = none

abbrev service : Text → List Text → Service
service name deps = record {
  env = [];
  wait_after = none;
  enabled = none;
  health_check = none;
  name = name;
  command = lit "run";
  log_file = [];
  pre_script = [];
  pos_script = [];
  user = [];
  restart = restart_always;
  env_file = [];
  args = [];
  depends_on = deps;
  restart_delay = pos 2;
  max_restarts = pos 3;
  required = true;
  oneshot = false;
}

abbrev pub database : Service
database = service (lit "db") []

abbrev api : Service
api = record (service (lit "api") (lit "db" ∷ [])) {
  wait_after = some (record { per_dep = []; global = pos 5; is_per_dep = false });
}

abbrev timeouts : Timeouts
timeouts = record {
  post_script = pos 0;
  service_shutdown = pos 0;
  global_shutdown = pos 0;
  dependency_wait = pos 0;
}

abbrev pub config : Config
config = record { services = database ∷ api ∷ []; timeouts = timeouts }

pub accepted : (validate_config host no_env config).1 ≡ []
unfolding validate_config validated default_enabled default_timeouts name_errors Fields.fail_if
    Override.apply_service_env_overrides Override.apply_overrides Override.resolve_enabled
    validate_service Service.validate_enabled Fields.validate_required_fields
    Fields.validate_service_name Fields.is_valid_name Fields.all_bytes Fields.is_name_byte
    Fields.validate_command Fields.validate_scripts Fields.validate_log_file
    Fields.validate_env_file Fields.validate_user Fields.validate_wait_after Fields.check_wait_time
    Fields.validate_health_check Fields.validate_restart_policy is_service_enabled Check.service_map
    Check.enabled_map Check.enabled_service_map Check.check_ref Check.validate_dependency_refs
    Check.check_wait_ref Check.validate_wait_after_refs Check.check_service find_cycle
    Check.check_cycle validate_dependencies Cycles.mark Cycles.check_dep Cycles.check_deps
    Cycles.has_cycles Token.service_env_token Token.squash Token.is_alpha_num
    Override.parse_bool_env Override.parse_service_list_env Ascii.to_upper Ascii.to_lower
    Ascii.upper_byte Ascii.lower_byte Ascii.trim Ascii.trim_left Ascii.trim_right Ascii.fields
    Ascii.fields_from lookup insert lit ◌==◌ contains first_error collect has_byte
accepted = refl

validate_config_iff_example :
    ((validate_config host no_env config).1 ≡ []) ↔ IsAcceptable host no_env config
validate_config_iff_example = validate_config_iff host no_env config

validate_service_iff_example : (validate_service host api ≡ []) ↔ IsWellFormed host api
validate_service_iff_example = validate_service_iff host api

validate_dependencies_iff_example :
    (validate_dependencies (database ∷ api ∷ []) ≡ none) ↔ IsSound (database ∷ api ∷ [])
validate_dependencies_iff_example = validate_dependencies_iff (database ∷ api ∷ [])

-- two services that wait for each other
abbrev ring : Map Service
ring =
    (lit "a", service (lit "a") (lit "b" ∷ [])) ∷ (lit "b", service (lit "b") (lit "a" ∷ [])) ∷ []

mem_one : (b x : Text) → Memᴰ b (x ∷ []) → b ≡ x
mem_one b x (Memᴰ.head e) = e
mem_one b x (Memᴰ.tail m) = elim m [ ]

ring_deps :
    (a : Text) (s : Service)
    → lookup a ring ≡ some s
    → (s.depends_on ≡ lit "b" ∷ []) ⊎ (s.depends_on ≡ lit "a" ∷ [])
unfolding lookup
ring_deps a s h = ground arith

ring_has_a : lookup (lit "a") ring ≢ none
unfolding lookup ◌==◌ lit
ring_has_a h = ground arith

ring_has_b : lookup (lit "b") ring ≢ none
unfolding lookup ◌==◌ lit
ring_has_b h = ground arith

ring-IsClosed : IsClosed ring
ring-IsClosed a b (s, h, m) = elim (ring_deps a s h) [
  | inl e ↦
      subst (λ k. lookup k ring ≢ none) (sym (mem_one b (lit "b") (subst (λ d. Memᴰ b d) e m)))
        ring_has_b
  | inr e ↦
      subst (λ k. lookup k ring ≢ none) (sym (mem_one b (lit "a") (subst (λ d. Memᴰ b d) e m)))
        ring_has_a
]

find_cycle_decides_example :
    (find_cycle ring (lit "a") ≡ cycle) × CycleFrom ring (lit "a")
    ⊎ ((m : Marks) × (find_cycle ring (lit "a") ≡ clear m) × Grounded ring (lit "a"))
find_cycle_decides_example = find_cycle_decides ring (lit "a") ring-IsClosed ring_has_a

has_cycles_ends_example : Cycles.has_cycles ring 3 (lit "b") Cycles.no_marks ≢ Cycles.out_of_fuel
has_cycles_ends_example = has_cycles_ends ring (lit "b")

mark-MarkOf_example :
    (d : Tracker) × (mark Kind.ready (lit "db") new_dependency_tracker ≡ some d)
    × MarkOf Kind.ready (lit "db") new_dependency_tracker d
mark-MarkOf_example = mark-MarkOf Kind.ready (lit "db") new_dependency_tracker new-IsValid

poll-PollOf_example :
    PollOf Kind.failed
      (lit "db")
      new_dependency_tracker
      (poll Kind.failed (lit "db") new_dependency_tracker)
poll-PollOf_example = poll-PollOf Kind.failed (lit "db") new_dependency_tracker new-IsValid

-- the API as `validateConfig` leaves it
abbrev enabled_api : Service
enabled_api = record api { enabled = some true }

api_is_validated : Memᴰ enabled_api (validated host no_env config).services
unfolding validated default_enabled Override.apply_service_env_overrides Override.apply_overrides
    Override.resolve_enabled is_service_enabled Token.service_env_token Token.squash
    Token.is_alpha_num Override.parse_bool_env Override.parse_service_list_env Ascii.to_upper
    Ascii.to_lower Ascii.upper_byte Ascii.lower_byte Ascii.trim Ascii.trim_left Ascii.trim_right
    Ascii.fields Ascii.fields_from lit ◌==◌ contains
api_is_validated = Memᴰ.tail (Memᴰ.head refl)

api_is_enabled : is_service_enabled enabled_api ≡ true
unfolding is_service_enabled
api_is_enabled = refl

get_wait_time-IsWait_example :
    IsWait (get_wait_time (record { per_dep = []; global = pos 5; is_per_dep = false }) (lit "db"))
get_wait_time-IsWait_example =
    get_wait_time-IsWait host no_env config enabled_api
      (record { per_dep = []; global = pos 5; is_per_dep = false }) (lit "db") accepted
      api_is_validated api_is_enabled refl

abbrev check : HealthCheckConfig
check = record {
  endpoint = lit "http://localhost/health";
  command = [];
  interval = pos 0;
  retries = pos 2;
  timeout = pos 0;
  start_delay = pos 0;
}

start_health_monitor_iff_example :
    (start_health_monitor check (false ∷ true ∷ false ∷ false ∷ []) ≡ unhealthy)
    ↔ HasRun 2 (false ∷ true ∷ false ∷ false ∷ [])
start_health_monitor_iff_example =
    start_health_monitor_iff check 2 (false ∷ true ∷ false ∷ false ∷ []) refl
