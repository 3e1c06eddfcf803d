-- ===== src/Dependencies/Check.antt =====
-- `validateDependencies` of cmd/go-overlay/validation.go and the checks that it calls. A nil error
-- is `none`.
pub mod Maps
pub mod Sound
use go_overlay.Base.{
  ℕ, suc, Text, lit, Map, lookup, insert, keys, Bool, true, false, List, [], ◌∷◌, ◌++◌, Option,
  none, some, if◌then◌else◌, length, first_error, or_else, contains,
}
use go_overlay.Config.{Service, WaitAfterField}
use go_overlay.Dependencies.Cycles.{Outcome, cycle, clear, out_of_fuel, no_marks, has_cycles}

unfoldable pub is_service_enabled : Service → Bool
is_service_enabled service = elim service.enabled [ none ↦ true | some b ↦ b ]

-- the loops that fill `serviceMap`, `enabledMap` and `enabledServiceMap`
unfoldable pub service_map : List Service → Map Service → Map Service
service_map [] m = m
service_map (s ∷ services) m = service_map services (insert s.name s m)

unfoldable pub enabled_map : List Service → Map Bool → Map Bool
enabled_map [] m = m
enabled_map (s ∷ services) m = enabled_map services (insert s.name (is_service_enabled s) m)

unfoldable pub enabled_service_map : List Service → Map Service → Map Service
enabled_service_map [] m = m
enabled_service_map (s ∷ services) m =
    enabled_service_map services (if is_service_enabled s then insert s.name s m else m)

-- `enabledMap[dep]`
abbrev pub is_on : Option Bool → Bool
is_on none = false
is_on (some b) = b

-- the body of the loop of `validateDependencyRefs`
unfoldable pub check_ref : Service → Map Service → Map Bool → Text → Option Text
check_ref service sm em dep = elim (lookup dep sm) [
  | none ↦ some (
      lit "service '"
      ++ service.name
      ++ lit "' depends on non-existent service '"
      ++ dep
      ++ lit "'")
  | some _ ↦
      if is_on (lookup dep em)
      then none
      else some (
          lit "service '"
          ++ service.name
          ++ lit "' depends on disabled service '"
          ++ dep
          ++ lit "'")
]

unfoldable pub validate_dependency_refs : Service → Map Service → Map Bool → Option Text
validate_dependency_refs service sm em = first_error (check_ref service sm em) service.depends_on

-- the body of the loop of `validateWaitAfterRefs`
unfoldable pub check_wait_ref : Service → Text → Option Text
check_wait_ref service dep_name =
    if contains dep_name service.depends_on
    then none
    else some (
        lit "service '"
        ++ service.name
        ++ lit "' has wait_after for '"
        ++ dep_name
        ++ lit "' but doesn't depend on it")

unfoldable pub validate_wait_after_refs : Service → Option Text
validate_wait_after_refs service = elim service.wait_after [
  | none ↦ none
  | some w ↦ if w.is_per_dep then first_error (check_wait_ref service) (keys w.per_dep) else none
]

-- the body of the second loop of `validateDependencies`
unfoldable pub check_service : Map Service → Map Bool → Service → Option Text
check_service sm em service =
    if is_service_enabled service
    then or_else (validate_dependency_refs service sm em) (validate_wait_after_refs service)
    else none

-- `hasCycles(name, m, {}, {})`, with fuel above the number of services
unfoldable pub find_cycle : Map Service → Text → Outcome
find_cycle m name = has_cycles m (suc (length (keys m))) name no_marks

-- the body of the last loop
unfoldable pub check_cycle : Map Service → Text → Option Text
check_cycle m name = elim (find_cycle m name) [
  | cycle ↦ some (lit "circular dependency detected involving service '" ++ name ++ lit "'")
  | clear _ ↦ none
  | out_of_fuel ↦ none
]

unfoldable pub validate_dependencies : List Service → Option Text
validate_dependencies services =
    let sm = service_map services [] in
    let em = enabled_map services [] in
    let esm = enabled_service_map services [] in
    or_else (first_error (check_service sm em) services) (first_error (check_cycle esm) (keys esm))
