-- ===== src/Environ/Service.antt =====
-- The environment of a service, in cmd/go-overlay/env.go. The files and the supervisor's own
-- environment are parameters.
pub mod Keys
pub mod Last
pub mod Laws
use go_overlay.Base.{
  ℕ, Text, lit, ◌==◌, has_prefix, Map, insert, lookup, Bool, true, false, ◌||◌, List, [], ◌∷◌, ◌++◌,
  Option, none, some, if◌then◌else◌, nat_eq,
}
use go_overlay.Ascii.{cut, trim, trim_space}
use go_overlay.Config.{Service}

-- `"` and `'`
abbrev pub is_quote : ℕ → Bool
is_quote c = nat_eq c 34 || nat_eq c 39

-- one line of the file: the variable that it sets
unfoldable pub parse_env_line : Text → Option (Text × Text)
parse_env_line raw =
    let line = trim_space raw in
    if line == [] || has_prefix line (lit "#") then none else elim (cut b'=' line) [
      | none ↦ none
      | some (key, value) ↦ some (trim_space key, trim is_quote (trim_space value))
    ]

-- `env[key] = value`, where the line sets one
abbrev pub set_entry : Option (Text × Text) → Map Text → Map Text
set_entry none env = env
set_entry (some (k, v)) env = insert k v env

-- the scanner's loop
unfoldable pub load_env_lines : List Text → Map Text → Map Text
load_env_lines [] env = env
load_env_lines (line ∷ lines) env = load_env_lines lines (set_entry (parse_env_line line) env)

-- What `os.Open` and the scanner give: no file, or the lines and whether the scan failed.
pub data Scan : Type 0 where
  no_file : Scan
  scanned : List Text → Bool → Scan

-- `loadEnvFile`; `none` where it returns an error
unfoldable pub load_env_file : Scan → Option (Map Text)
load_env_file no_file = none
load_env_file (scanned lines failed) = if failed then none else some (load_env_lines lines [])

-- `key, _, found := strings.Cut(entry, "=")`, and whether the entry is replaced
unfoldable pub is_replaced : Map Text → Text → Bool
is_replaced overrides entry = elim (cut b'=' entry) [
  | none ↦ false
  | some (key, _) ↦ elim (lookup key overrides) [ none ↦ false | some _ ↦ true ]
]

-- the first loop of `overrideEnv`
unfoldable pub keep_entries : Map Text → List Text → List Text
keep_entries overrides [] = []
keep_entries overrides (entry ∷ env) =
    let rest = keep_entries overrides env in
    if is_replaced overrides entry then rest else entry ∷ rest

-- the second loop, over the overrides in the order of the map
unfoldable pub set_entries : Map Text → List Text
set_entries [] = []
set_entries ((key, value) ∷ overrides) =
    let rest = set_entries overrides in if value == [] then rest else (key ++ b'=' ∷ value) ∷ rest

unfoldable pub override_env : List Text → Map Text → List Text
override_env env overrides = keep_entries overrides env ++ set_entries overrides

-- `for k, v := range m { envMap[k] = v }`
unfoldable pub merge : Map Text → Map Text → Map Text
merge [] env = env
merge ((k, v) ∷ m) env = merge m (insert k v env)

-- the loop over `os.Environ()`
unfoldable pub environ_map : List Text → Map Text → Map Text
environ_map [] env = env
environ_map (e ∷ environ) env = environ_map environ (set_entry (cut b'=' e) env)

-- the map that `buildServiceEnv` fills: the environment, then the file, then the inline variables
unfoldable pub service_env_map : (Text → Scan) → List Text → Service → Map Text
service_env_map scan environ service =
    let own = environ_map environ [] in
    let with_file =
      if service.env_file == [] then own else elim (load_env_file (scan service.env_file)) [
        | none ↦ own
        | some file_env ↦ merge file_env own
      ] in
    merge service.env with_file

-- `fmt.Sprintf("%s=%s", k, v)` of each entry
unfoldable pub entries : Map Text → List Text
entries [] = []
entries ((k, v) ∷ m) = (k ++ b'=' ∷ v) ∷ entries m

unfoldable pub build_service_env : (Text → Scan) → List Text → Service → List Text
build_service_env scan environ service = entries (service_env_map scan environ service)
