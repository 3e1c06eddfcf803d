-- ===== src/Dependencies/Cycles.antt =====
-- `hasCycles` of cmd/go-overlay/validation.go: a depth-first search over two marks for each name.
-- A search that finds a cycle returns at once through all its callers, and the marks are dropped.
-- The recursion runs on fuel.
pub mod Clear
pub mod Found
pub mod Fuel
use go_overlay.Base.{
  ℕ, zero, suc, Text, ◌==◌, Map, lookup, Bool, true, false, List, [], ◌∷◌, none, some,
  if◌then◌else◌,
}
use go_overlay.Config.{Service}

-- `visited` and `recursionStack`: a `map[string]bool` reads false where nothing was written.
pub record Marks : Type 0 where
  pub visited : Text → Bool
  pub stack : Text → Bool

-- `m[k] = b`
unfoldable pub mark : Text → Bool → (Text → Bool) → Text → Bool
mark k b m j = if k == j then b else m j

abbrev pub no_marks : Marks
no_marks = record { visited = λ _. false; stack = λ _. false }

pub data Outcome : Type 0 where
  cycle : Outcome
  clear : Marks → Outcome
  out_of_fuel : Outcome

abbrev pub and_then : Outcome → (Marks → Outcome) → Outcome
and_then cycle k = cycle
and_then (clear m) k = k m
and_then out_of_fuel k = out_of_fuel

-- the body of the loop over `service.DependsOn`
unfoldable pub check_dep : (Text → Marks → Outcome) → Text → Marks → Outcome
check_dep search dep m =
    if m.visited dep then (if m.stack dep then cycle else clear m) else search dep m

unfoldable pub check_deps : (Text → Marks → Outcome) → List Text → Marks → Outcome
check_deps search [] m = clear m
check_deps search (dep ∷ deps) m = and_then (check_dep search dep m) (check_deps search deps)

abbrev pub enter : Text → Marks → Marks
enter name m = record { visited = mark name true m.visited; stack = mark name true m.stack }

abbrev pub leave : Text → Marks → Marks
leave name m = record m { stack = mark name false m.stack }

unfoldable pub has_cycles : Map Service → ℕ → Text → Marks → Outcome
has_cycles g zero name m = out_of_fuel
has_cycles g (suc fuel) name m = elim (lookup name g) [
  | none ↦ clear (enter name m)
  | some service ↦
      and_then (check_deps (has_cycles g fuel) service.depends_on (enter name m))
        (λ m'. clear (leave name m'))
]
