-- ===== src/Environ/Override.antt =====
-- cmd/go-overlay/env.go: which services the environment enables.
pub mod Laws
pub mod Read
use go_overlay.Base.{
  ℕ, Text, lit, ◌==◌, Map, insert, lookup, Bool, true, false, not, ◌||◌, List, [], ◌∷◌, ◌++◌,
  Option, none, some, if◌then◌else◌, nat_eq, contains,
}
use go_overlay.Ascii.{to_lower, trim_space, fields}
use go_overlay.Config.{Service, Config}
use go_overlay.Dependencies.Check.{is_service_enabled}
use go_overlay.Environ.Token.{service_env_token}

abbrev pub env_only_services : Text
env_only_services = lit "GO_OVERLAY_ONLY_SERVICES"

abbrev pub env_enable_prefix : Text
env_enable_prefix = lit "GO_OVERLAY_ENABLE_"

abbrev pub env_disable_prefix : Text
env_disable_prefix = lit "GO_OVERLAY_DISABLE_"

-- `(parsed, valid)` of the source: `none` where it is not valid
unfoldable pub parse_bool_env : Text → Option Bool
parse_bool_env value =
    let s = to_lower (trim_space value) in
    if contains s (lit "1" ∷ lit "true" ∷ lit "yes" ∷ lit "on" ∷ lit "y" ∷ [])
    then some true
    else if contains s (lit "0" ∷ lit "false" ∷ lit "no" ∷ lit "off" ∷ lit "n" ∷ [])
    then some false
    else none

unfoldable pub is_separator : ℕ → Bool
is_separator c = nat_eq c b',' || nat_eq c b';' || nat_eq c b' ' || nat_eq c 10 || nat_eq c 9

-- the loop of `parseServiceListEnv` over the tokens; the `map[string]struct{}` is the list of its keys
unfoldable pub lower_names : List Text → List Text
lower_names [] = []
lower_names (token ∷ tokens) =
    let name = trim_space token in
    let rest = lower_names tokens in if name == [] then rest else to_lower name ∷ rest

unfoldable pub parse_service_list_env : Text → List Text
unfolding lower_names is_separator
parse_service_list_env raw = lower_names (fields is_separator raw)

-- `os.LookupEnv` is a parameter.
module _ (lookup_env : Text → Option Text) where
  -- `os.Getenv`
  abbrev pub getenv : Option Text → Text
  getenv none = []
  getenv (some v) = v

  abbrev pub only_services : List Text
  only_services = parse_service_list_env (getenv (lookup_env env_only_services))

  -- `if parsed, valid := parseBoolEnv(raw); valid { ... }`, where the variable is set
  abbrev pub parsed_env : Text → Option Bool
  parsed_env key = elim (lookup_env key) [ none ↦ none | some raw ↦ parse_bool_env raw ]

  abbrev pub enable_key : Text → Text
  enable_key name = env_enable_prefix ++ service_env_token name

  abbrev pub disable_key : Text → Text
  disable_key name = env_disable_prefix ++ service_env_token name

  abbrev after_enable : Option Bool → Bool → Bool
  after_enable none enabled = enabled
  after_enable (some parsed) enabled = parsed

  abbrev after_disable : Option Bool → Bool → Bool
  after_disable none enabled = enabled
  after_disable (some parsed) enabled = if parsed then false else enabled

  abbrev is_empty : List Text → Bool
  is_empty [] = true
  is_empty (_ ∷ _) = false

  unfoldable pub resolve_enabled : Service → Bool
  resolve_enabled service =
      let listed =
        if not (is_empty only_services)
        then contains (to_lower service.name) only_services
        else is_service_enabled service in
      let enabled = after_enable (parsed_env (enable_key service.name)) listed in
      after_disable (parsed_env (disable_key service.name)) enabled

  -- the loop of `applyServiceEnvOverrides`
  unfoldable pub apply_overrides : List Service → List Service
  apply_overrides [] = []
  apply_overrides (service ∷ services) =
      record service { enabled = some (resolve_enabled service) } ∷ apply_overrides services

  unfoldable pub apply_service_env_overrides : Config → Config
  apply_service_env_overrides config = record config { services = apply_overrides config.services }
