-- ===== src/Validation/Accepts.antt =====
-- What each check of a single field in cmd/go-overlay/validation.go accepts.
use go_overlay.Base.{
  ℕ, ◌≤◌, Text, lit, ==_iff, Bool, true, false, [], ◌∷◌, none, some, ◌≡◌, ◌≢◌, ◌⊎◌, ◌↔◌, inl, inr,
  refl, arith, has_prefix, has_byte, contains, collect-eq-nil, All, Memᴰ, Bool-cases, Option-cases,
}
use go_overlay.Base.Int.{ℤ, pos, negsuc, is_neg}
use go_overlay.Config.{
  Service, WaitAfterField, HealthCheckConfig, restart_never, restart_on_failure, restart_always,
}
use go_overlay.Process.Credential.{lookup_user_credential}
use go_overlay.Validation.Host.{Host}
use go_overlay.Validation.Fields.{
  fail_if, validate_required_fields, is_name_byte, all_bytes, is_valid_name, validate_service_name,
  validate_command, missing_file, validate_scripts, validate_log_file, validate_env_file,
  validate_user, bad_wait, check_wait_time, validate_wait_after, check_health,
  validate_health_check, validate_restart_policy,
}

-- A letter, a digit, a dash or an underscore.
abbrev pub IsNameByte : ℕ → Type 0
IsNameByte c =
    (b'a' ≤ c) × (c ≤ b'z')
    ⊎ (b'A' ≤ c) × (c ≤ b'Z')
    ⊎ (b'0' ≤ c) × (c ≤ b'9')
    ⊎ (c ≡ b'_')
    ⊎ (c ≡ b'-')

is_name_byte_iff : (c : ℕ) → (is_name_byte c ≡ true) ↔ IsNameByte c
unfolding is_name_byte
is_name_byte_iff c = ground arith

all_bytes_iff : (s : Text) → (all_bytes is_name_byte s ≡ true) ↔ All IsNameByte s
unfolding all_bytes
all_bytes_iff [] = ground arith
all_bytes_iff (c ∷ s) = ground (arith, is_name_byte_iff c, all_bytes_iff s)

pub fail_if-eq-nil : (b : Bool) (s : Service) (f m : Text) → (fail_if b s f m ≡ []) ↔ (b ≡ false)
unfolding fail_if
fail_if-eq-nil true s f m = ground arith
fail_if-eq-nil false s f m = ground arith

pub validate_required_fields_iff :
    (s : Service) → (validate_required_fields s ≡ []) ↔ ((s.name ≢ []) × (s.command ≢ []))
unfolding validate_required_fields fail_if
validate_required_fields_iff s = ground (arith, ==_iff s.name [], ==_iff s.command [])

pub validate_service_name_iff :
    (s : Service) → (validate_service_name s ≡ []) ↔ ((s.name ≢ []) → All IsNameByte s.name)
unfolding validate_service_name fail_if is_valid_name
validate_service_name_iff s = ground (arith, ==_iff s.name [], all_bytes_iff s.name)

module _ (host : Host) where
  -- A command with a space in it is not looked up; any other is in PATH or is an absolute path
  -- that is not missing.
  abbrev pub CommandFound : Service → Type 0
  CommandFound s =
      has_byte b' ' s.command ≡ false
      → (host.look_path s.command ≡ true)
        ⊎ (has_prefix s.command (lit "/") ≡ true) × (host.stat_not_exist s.command ≡ false)

  pub validate_command_iff :
      (s : Service) → s.command ≢ [] → (validate_command host s ≡ []) ↔ CommandFound s
  unfolding validate_command fail_if
  validate_command_iff s h = ground (arith, ==_iff s.command [])

  -- A path that is set is not missing.
  abbrev pub NotMissing : Text → Type 0
  NotMissing path = path ≢ [] → host.stat_not_exist path ≡ false

  missing_file_iff : (path : Text) → (missing_file host path ≡ false) ↔ NotMissing path
  missing_file_iff path = ground (arith, ==_iff path [])

  pub validate_scripts_iff :
      (s : Service)
      → (validate_scripts host s ≡ []) ↔ (NotMissing s.pre_script × NotMissing s.pos_script)
  unfolding validate_scripts fail_if
  validate_scripts_iff s = ground (arith, ==_iff s.pre_script [], ==_iff s.pos_script [])

  pub validate_log_file_iff :
      (s : Service)
      → (validate_log_file host s ≡ [])
        ↔ (s.log_file ≢ [] → host.stat_not_exist (host.dir s.log_file) ≡ false)
  unfolding validate_log_file fail_if
  validate_log_file_iff s = ground (arith, ==_iff s.log_file [])

  pub validate_env_file_iff :
      (s : Service) → (validate_env_file host s ≡ []) ↔ NotMissing s.env_file
  unfolding validate_env_file fail_if
  validate_env_file_iff s = ground (arith, ==_iff s.env_file [])

  -- A user that is set can be looked up, and the supervisor runs as root.
  abbrev pub UserFits : Service → Type 0
  UserFits s =
      s.user ≢ [] → (lookup_user_credential host.lookup_user s.user ≢ none) × (host.geteuid ≡ 0)

  pub validate_user_iff : (s : Service) → (validate_user host s ≡ []) ↔ UserFits s
  unfolding validate_user fail_if
  validate_user_iff s = ground (arith, ==_iff s.user [])

-- A number of seconds from 0 to 300.
abbrev pub IsWait : ℤ → Type 0
IsWait t = (n : ℕ) × (t ≡ pos n) × (n ≤ 300)

bad_wait_iff : (t : ℤ) → (bad_wait t ≡ false) ↔ IsWait t
bad_wait_iff (pos n) = (λ h. (n, refl, ground arith), λ h. ground arith)
bad_wait_iff (negsuc n) = (λ h. cc, λ h. ground arith)

pub record WaitFits (w : WaitAfterField) : Type 0 where
  pub per_dep : w.is_per_dep ≡ true → (e : Text × ℤ) → Memᴰ e w.per_dep → IsWait e.1
  pub global : w.is_per_dep ≡ false → IsWait w.global

check_wait_time_iff : (s : Service) (e : Text × ℤ) → (check_wait_time s e ≡ []) ↔ IsWait e.1
unfolding check_wait_time
check_wait_time_iff s (k, t) = (
  λ h. (bad_wait_iff t).0 ((fail_if-eq-nil (bad_wait t) s _ _).0 h),
  λ h. (fail_if-eq-nil (bad_wait t) s _ _).1 ((bad_wait_iff t).1 h),
)

wait_fits :
    (s : Service) (w : WaitAfterField)
    → s.wait_after ≡ some w
    → (validate_wait_after s ≡ []) ↔ WaitFits w
unfolding validate_wait_after
wait_fits s w e = elim (Bool-cases w.is_per_dep) [
  | inl p ↦
      rw (e, validate_wait_after)
        (rw p (
          λ h. record {
            per_dep = λ _ x m.
                (check_wait_time_iff s x).0
                  ((collect-eq-nil (check_wait_time s) w.per_dep).0 h x m);
            global = λ q. cc;
          },
          λ h.
              (collect-eq-nil (check_wait_time s) w.per_dep).1
                (λ x m. (check_wait_time_iff s x).1 (h.per_dep refl x m)),
        ))
  | inr p ↦
      rw (e, validate_wait_after)
        (rw p (
          λ h. record {
            per_dep = λ q x m. cc;
            global = λ _. (bad_wait_iff w.global).0 ((fail_if-eq-nil _ s _ _).0 h);
          },
          λ h. (fail_if-eq-nil _ s _ _).1 ((bad_wait_iff w.global).1 (h.global refl)),
        ))
]

pub validate_wait_after_iff :
    (s : Service)
    → (validate_wait_after s ≡ []) ↔ ((w : WaitAfterField) → s.wait_after ≡ some w → WaitFits w)
unfolding validate_wait_after
validate_wait_after_iff s = (
  λ h w e. (wait_fits s w e).0 h,
  λ h. elim (Option-cases s.wait_after) [
    | inl e ↦ rw (e, validate_wait_after)
    | inr (w, e) ↦ (wait_fits s w e).1 (h w e)
  ],
)

-- A number that is not negative.
abbrev pub IsNat : ℤ → Type 0
IsNat t = (n : ℕ) × (t ≡ pos n)

is_neg_iff : (t : ℤ) → (is_neg t ≡ false) ↔ IsNat t
is_neg_iff (pos n) = (λ h. (n, refl), λ h. refl)
is_neg_iff (negsuc n) = (λ h. cc, λ h. ground arith)

pub record HealthFits (hc : HealthCheckConfig) : Type 0 where
  pub endpoint :
      hc.endpoint ≢ []
      → (has_prefix hc.endpoint (lit "http://") ≡ true)
        ⊎ (has_prefix hc.endpoint (lit "https://") ≡ true)
  pub interval : IsNat hc.interval
  pub retries : IsNat hc.retries
  pub timeout : IsNat hc.timeout
  pub start_delay : IsNat hc.start_delay

check_health_iff : (s : Service) (hc : HealthCheckConfig) → (check_health s hc ≡ []) ↔ HealthFits hc
unfolding check_health fail_if
check_health_iff s hc = ground (
  arith,
  ==_iff hc.endpoint [],
  is_neg_iff hc.interval,
  is_neg_iff hc.retries,
  is_neg_iff hc.timeout,
  is_neg_iff hc.start_delay,
)

pub validate_health_check_iff :
    (s : Service)
    → (validate_health_check s ≡ [])
      ↔ ((hc : HealthCheckConfig) → s.health_check ≡ some hc → HealthFits hc)
unfolding validate_health_check
validate_health_check_iff s = (
  λ h hc e. (check_health_iff s hc).0 (rw (e, validate_health_check) at h),
  λ h. elim (Option-cases s.health_check) [
    | inl e ↦ rw (e, validate_health_check)
    | inr (hc, e) ↦ rw (e, validate_health_check) ((check_health_iff s hc).1 (h hc e))
  ],
)

-- The restart policy is one of the three or is not set, and the numbers are not negative.
-- A oneshot service is not restarted.
pub record RestartFits (s : Service) : Type 0 where
  pub policy :
      (s.restart ≡ [])
      ⊎ (s.restart ≡ restart_never)
      ⊎ (s.restart ≡ restart_on_failure)
      ⊎ (s.restart ≡ restart_always)
  pub delay : IsNat s.restart_delay
  pub max : IsNat s.max_restarts
  pub oneshot : s.oneshot ≡ true → (s.restart ≡ []) ⊎ (s.restart ≡ restart_never)

policies_differ :
    (restart_never ≢ restart_on_failure)
    × (restart_never ≢ restart_always)
    × (restart_on_failure ≢ [])
    × (restart_always ≢ [])
unfolding lit
policies_differ = (λ e. cc, λ e. cc, λ e. cc, λ e. cc)

pub validate_restart_policy_iff : (s : Service) → (validate_restart_policy s ≡ []) ↔ RestartFits s
unfolding validate_restart_policy fail_if contains
validate_restart_policy_iff s = ground (
  arith,
  ==_iff s.restart [],
  ==_iff restart_never s.restart,
  ==_iff restart_on_failure s.restart,
  ==_iff restart_always s.restart,
  ==_iff s.restart restart_always,
  ==_iff s.restart restart_on_failure,
  policies_differ,
  is_neg_iff s.restart_delay,
  is_neg_iff s.max_restarts,
)
