-- ===== src/Config.antt =====
-- cmd/go-overlay/config.go: the configuration types and `GetWaitTime`. The children model the
-- conversion of a decoded file and prove what it yields.
pub mod Decode
use go_overlay.Base.{Text, Map, lookup, Bool, List, Option, none, some, if◌then◌else◌, lit}
use go_overlay.Base.Int.{ℤ, pos}

pub record Timeouts : Type 0 where
  pub post_script : ℤ
  pub service_shutdown : ℤ
  pub global_shutdown : ℤ
  pub dependency_wait : ℤ

pub record WaitAfterField : Type 0 where
  pub per_dep : Map ℤ
  pub global : ℤ
  pub is_per_dep : Bool

-- `w.PerDep[depName]`, with 0 where the name is missing
wait_or_zero : Option ℤ → ℤ
wait_or_zero none = pos 0
wait_or_zero (some t) = t

unfoldable pub get_wait_time : WaitAfterField → Text → ℤ
unfolding wait_or_zero
get_wait_time w dep_name =
    if w.is_per_dep then wait_or_zero (lookup dep_name w.per_dep) else w.global

pub record HealthCheckConfig : Type 0 where
  pub endpoint : Text
  pub command : Text
  pub interval : ℤ
  pub retries : ℤ
  pub timeout : ℤ
  pub start_delay : ℤ

-- `RestartPolicy` is a string type: a value outside the three constants can occur.
abbrev pub RestartPolicy : Type 0
RestartPolicy = Text

abbrev pub restart_never : RestartPolicy
restart_never = lit "never"

abbrev pub restart_on_failure : RestartPolicy
restart_on_failure = lit "on-failure"

abbrev pub restart_always : RestartPolicy
restart_always = lit "always"

pub record Service : Type 0 where
  pub env : Map Text
  pub wait_after : Option WaitAfterField
  pub enabled : Option Bool
  pub health_check : Option HealthCheckConfig
  pub name : Text
  pub command : Text
  pub log_file : Text
  pub pre_script : Text
  pub pos_script : Text
  pub user : Text
  pub restart : RestartPolicy
  pub env_file : Text
  pub args : List Text
  pub depends_on : List Text
  pub restart_delay : ℤ
  pub max_restarts : ℤ
  pub required : Bool
  pub oneshot : Bool

pub record Config : Type 0 where
  pub services : List Service
  pub timeouts : Timeouts
