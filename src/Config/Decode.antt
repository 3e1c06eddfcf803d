-- ===== src/Config/Decode.antt =====
-- cmd/go-overlay/config.go: `UnmarshalTOML` of the two flexible fields, and `parseConfig` after the
-- TOML library has decoded the file. An `interface{}` value is a `TomlValue`; of what is nested in
-- it the code reads one level, so anything deeper is `other`.
pub mod Waits
pub mod Laws
use go_overlay.Base.{
  Text, Map, insert, Bool, true, false, List, [], ◌∷◌, Option, none, some, if◌then◌else◌, lit, ◌==◌,
  Result, ok, err, ◌>>=◌,
}
use go_overlay.Base.Int.{ℤ, pos}
use go_overlay.Config.{Timeouts, WaitAfterField, HealthCheckConfig, Service, Config}

pub data TomlItem : Type 0 where
  string : Text → TomlItem
  int64 : ℤ → TomlItem
  other : TomlItem

pub data TomlValue : Type 0 where
  nil : TomlValue
  string : Text → TomlValue
  int64 : ℤ → TomlValue
  array : List TomlItem → TomlValue
  table : Map TomlItem → TomlValue
  other : TomlValue

abbrev pub deps_items_error : Text
deps_items_error = lit "depends_on array must contain only strings"

abbrev pub deps_type_error : Text
deps_type_error = lit "depends_on must be a string or array of strings"

abbrev pub wait_values_error : Text
wait_values_error = lit "wait_after map values must be integers"

abbrev pub wait_type_error : Text
wait_type_error = lit "wait_after must be an integer or a map of dependency names to wait times"

-- `for i, item := range v { str, ok := item.(string); ... }`
unfoldable pub dep_names : List TomlItem → Result (List Text)
dep_names [] = ok []
dep_names (TomlItem.string s ∷ items) = do rest ← dep_names items; ok (s ∷ rest)
dep_names (_ ∷ items) = err deps_items_error

-- `for key, val := range v { intVal, ok := val.(int64); ... }`, into the map built so far
unfoldable pub wait_times : Map TomlItem → Map ℤ → Result (Map ℤ)
wait_times [] mp = ok mp
wait_times ((k, TomlItem.int64 iv) ∷ entries) mp = wait_times entries (insert k iv mp)
wait_times ((k, _) ∷ entries) mp = err wait_values_error

-- `DependsOnField.UnmarshalTOML`: the field is replaced, or the error is returned.
unfoldable pub unmarshal_depends_on : TomlValue → Result (List Text)
unmarshal_depends_on (TomlValue.string v) = ok (v ∷ [])
unmarshal_depends_on (array v) = dep_names v
unmarshal_depends_on _ = err deps_type_error

-- `WaitAfterField.UnmarshalTOML`: the fields that a case does not assign keep their values.
unfoldable pub unmarshal_wait_after : WaitAfterField → TomlValue → Result WaitAfterField
unmarshal_wait_after w (TomlValue.int64 v) = ok (record w { global = v; is_per_dep = false })
unmarshal_wait_after w (table v) = do
  per_dep ← wait_times v []
  ok (record w { per_dep = per_dep; is_per_dep = true })
unmarshal_wait_after w _ = err wait_type_error

pub record ServiceRaw : Type 0 where
  pub depends_on : TomlValue
  pub wait_after : TomlValue
  pub env : Map Text
  pub enabled : Option Bool
  pub health_check : Option HealthCheckConfig
  pub name : Text
  pub command : Text
  pub log_file : Text
  pub pre_script : Text
  pub pos_script : Text
  pub user : Text
  pub restart : Text
  pub env_file : Text
  pub args : List Text
  pub restart_delay : ℤ
  pub max_restarts : ℤ
  pub required : Bool
  pub oneshot : Bool

pub record ConfigRaw : Type 0 where
  pub services : List ServiceRaw
  pub timeouts : Timeouts

-- the first `switch` of `parseConfig`
unfoldable pub parse_wait_after : TomlValue → Result (Option WaitAfterField)
parse_wait_after nil = ok none
parse_wait_after (TomlValue.int64 v) =
    ok (some (record { per_dep = []; global = v; is_per_dep = false }))
parse_wait_after (table v) = do
  mp ← wait_times v []
  ok (some (record { per_dep = mp; global = pos 0; is_per_dep = true }))
parse_wait_after _ = err wait_type_error

-- the second `switch` of `parseConfig`
unfoldable pub parse_depends_on : TomlValue → Result (List Text)
parse_depends_on nil = ok []
parse_depends_on (TomlValue.string dv) = ok (dv ∷ [])
parse_depends_on (array dv) = dep_names dv
parse_depends_on _ = err deps_type_error

unfoldable pub parse_service : ServiceRaw → Result Service
parse_service sr = do
  wa ← parse_wait_after sr.wait_after
  deps ← parse_depends_on sr.depends_on
  ok (record {
    name = sr.name;
    command = sr.command;
    args = sr.args;
    log_file = sr.log_file;
    pre_script = sr.pre_script;
    pos_script = sr.pos_script;
    depends_on = deps;
    wait_after = wa;
    enabled = sr.enabled;
    user = sr.user;
    required = sr.required;
    oneshot = sr.oneshot;
    health_check = sr.health_check;
    restart = sr.restart;
    restart_delay = sr.restart_delay;
    max_restarts = sr.max_restarts;
    env = sr.env;
    env_file = sr.env_file;
  })

-- the loop of `parseConfig`: an entry with no name is passed over
unfoldable pub parse_services : List ServiceRaw → Result (List Service)
parse_services [] = ok []
parse_services (sr ∷ raw) =
    let rest = parse_services raw in
    if sr.name == [] then rest else do svc ← parse_service sr; services ← rest; ok (svc ∷ services)

-- `Decode` is the TOML library's: it turns what the reader `r` gives into the raw types.
module _ {Reader : Type 0} (decode : Reader → Result ConfigRaw) where
  unfoldable pub parse_config : Reader → Result Config
  parse_config r = do
    raw ← decode r
    services ← parse_services raw.services
    ok (record { services = services; timeouts = raw.timeouts })
