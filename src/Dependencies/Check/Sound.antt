-- ===== src/Dependencies/Check/Sound.antt =====
-- What `validateDependencies` of cmd/go-overlay/validation.go accepts.
use go_overlay.Base.{
  ℕ, ◌⊎◌, Text, Map, lookup, keys, lookup_of_mem, mem-keys, Bool, true, List, [], Option, none,
  some, ◌≡◌, ◌≢◌, ◌↔◌, refl, subst, inl, inr, Memᴰ, arith, Bool-cases, Option-cases,
  first_error-eq-none, or_else, contains_iff, suc, length,
}
use go_overlay.Config.{Service, WaitAfterField}
use go_overlay.Dependencies.Graph.{Grounded, Grounded-not-cycle, Grounded-Chain, IsClosed}
use go_overlay.Dependencies.Cycles.{Marks, Outcome, cycle, clear, out_of_fuel, no_marks, has_cycles}
use go_overlay.Dependencies.Cycles.Clear.{Clears, has_cycles-Clears}
use go_overlay.Dependencies.Cycles.Found.{Finds, CycleFrom, has_cycles-Finds}
use go_overlay.Dependencies.Cycles.Fuel.{has_cycles_ends}
use go_overlay.Dependencies.Check.{
  is_service_enabled, service_map, enabled_map, enabled_service_map, check_ref,
  validate_dependency_refs, check_wait_ref, validate_wait_after_refs, check_service, find_cycle,
  check_cycle, validate_dependencies,
}
use go_overlay.Dependencies.Check.Maps.{
  enabled_service_map-source, enabled_service_map-has, enabled_map-Enables,
}

-- The names with a `wait_after` of their own are dependencies.
abbrev pub WaitsOnDeps : Service → Type 0
WaitsOnDeps s =
    (w : WaitAfterField)
    → s.wait_after ≡ some w
    → w.is_per_dep ≡ true
    → (k : Text) → Memᴰ k (keys w.per_dep)
    → Memᴰ k s.depends_on

-- What is asked of a list of services, without the search: every enabled service depends only on
-- enabled ones and waits only on its dependencies, and no chain of dependencies is endless.
pub record IsSound (services : List Service) : Type 0 where
  pub refs :
      (s : Service)
      → Memᴰ s services
      → is_service_enabled s ≡ true
      → (d : Text) → Memᴰ d s.depends_on
      → lookup d (enabled_map services []) ≡ some true
  pub waits : (s : Service) → Memᴰ s services → is_service_enabled s ≡ true → WaitsOnDeps s
  pub ends :
      (s : Service)
      → Memᴰ s services
      → is_service_enabled s ≡ true
      → Grounded (enabled_service_map services []) s.name

module _ (services : List Service) where
  check_ref-eq-none :
      (s : Service) (d : Text)
      → (check_ref s (service_map services []) (enabled_map services []) d ≡ none)
        ↔ (lookup d (enabled_map services []) ≡ some true)
  unfolding check_ref
  check_ref-eq-none s d = ground (arith, enabled_map-Enables services d)

  check_ref-all :
      (s : Service)
      → (validate_dependency_refs s (service_map services []) (enabled_map services []) ≡ none)
        ↔ ((d : Text) → Memᴰ d s.depends_on → lookup d (enabled_map services []) ≡ some true)
  unfolding validate_dependency_refs
  check_ref-all s =
      let rule =
        first_error-eq-none (check_ref s (service_map services []) (enabled_map services []))
          s.depends_on in
      (
        λ h d m. (check_ref-eq-none s d).0 (rule.0 h d m),
        λ h. rule.1 (λ d m. (check_ref-eq-none s d).1 (h d m)),
      )

  check_wait_ref-eq-none :
      (s : Service) (k : Text) → (check_wait_ref s k ≡ none) ↔ Memᴰ k s.depends_on
  unfolding check_wait_ref
  check_wait_ref-eq-none s k = ground (arith, contains_iff k s.depends_on)

  check_wait-all : (s : Service) → (validate_wait_after_refs s ≡ none) ↔ WaitsOnDeps s
  unfolding validate_wait_after_refs
  check_wait-all s = (
    λ h w e p k m.
        (check_wait_ref-eq-none s k).0
          ((first_error-eq-none (check_wait_ref s) (keys w.per_dep)).0 (ground arith) k m),
    λ h. elim (Option-cases s.wait_after) [
      | inl e ↦ rw (e, validate_wait_after_refs)
      | inr (w, e) ↦ elim (Bool-cases w.is_per_dep) [
        | inl p ↦
            rw (e, validate_wait_after_refs)
              (rw p (
                (first_error-eq-none (check_wait_ref s) (keys w.per_dep)).1
                  (λ k m. (check_wait_ref-eq-none s k).1 (h w e p k m))))
        | inr p ↦ rw (e, validate_wait_after_refs) (rw p)
      ]
    ],
  )

  check_service-eq-none :
      (s : Service)
      → (check_service (service_map services []) (enabled_map services []) s ≡ none) ↔ (
          is_service_enabled s ≡ true
          → (validate_dependency_refs s (service_map services []) (enabled_map services []) ≡ none)
            × (validate_wait_after_refs s ≡ none))
  unfolding check_service
  check_service-eq-none s = ground arith

  -- the graph that is searched has an entry for every dependency
  pub IsClosed-enabled :
      ((s : Service)
        → Memᴰ s services
        → is_service_enabled s ≡ true
        → (d : Text) → Memᴰ d s.depends_on
        → lookup d (enabled_map services []) ≡ some true)
      → IsClosed (enabled_service_map services [])
  IsClosed-enabled refs a b (s, e, m) =
      let (q, _, on) = enabled_service_map-source services a s e in
      (enabled_map-Enables services b (refs s q on b m)).enabled

-- On a closed graph `hasCycles` tells apart the names that lead to a cycle and those from which
-- every chain of dependencies ends.
pub find_cycle_decides :
    (g : Map Service) (name : Text)
    → IsClosed g
    → lookup name g ≢ none
    → (find_cycle g name ≡ cycle) × CycleFrom g name
      ⊎ ((m : Marks) × (find_cycle g name ≡ clear m) × Grounded g name)
unfolding find_cycle
find_cycle_decides g name closed there =
    decide _ refl (has_cycles-Clears g fuel name no_marks (λ x v. cc))
      (has_cycles-Finds g closed fuel name no_marks there (λ x v. cc)) (has_cycles_ends g name)
  where
    fuel : ℕ
    fuel = suc (length (keys g))

    decide :
        (r : Outcome)
        → has_cycles g fuel name no_marks ≡ r
        → Clears g name r
        → Finds g name no_marks r
        → r ≢ out_of_fuel
        → (has_cycles g fuel name no_marks ≡ cycle) × CycleFrom g name
          ⊎ ((m : Marks) × (has_cycles g fuel name no_marks ≡ clear m) × Grounded g name)
    decide cycle e c f n = inl (e, f)
    decide (clear m) e c f n = inr (m, e, c.1)
    decide out_of_fuel e c f n = absurd (n refl)

key_of : (g : Map Service) (k : Text) → lookup k g ≢ none → Memᴰ k (keys g)
key_of g k there = elim (Option-cases (lookup k g)) [
  | inl e ↦ absurd (there e)
  | inr (s, e) ↦ mem-keys k g s e
]

-- the loop over the enabled services goes on exactly where the name is grounded
check_cycle-eq-none :
    (g : Map Service) (name : Text)
    → IsClosed g
    → lookup name g ≢ none
    → (check_cycle g name ≡ none) ↔ Grounded g name
unfolding check_cycle
check_cycle-eq-none g name closed there = elim (find_cycle_decides g name closed there) [
  | inl (e, (x, to, loop)) ↦
      rw (e, check_cycle) (λ h. cc, λ h. absurd (Grounded-not-cycle g (Grounded-Chain g h to) loop))
  | inr (m, e, n) ↦ rw (e, check_cycle) (λ _. n, λ _. refl)
]

or_else-eq-none : (a b : Option Text) → (or_else a b ≡ none) ↔ ((a ≡ none) × (b ≡ none))
or_else-eq-none none b = ground arith
or_else-eq-none (some e) b = ground arith

-- `validateDependencies` returns nil exactly for the lists of services in which every enabled
-- service depends only on enabled services, has wait times only for its dependencies, and has no
-- endless chain of dependencies.
pub validate_dependencies_iff :
    (services : List Service) → (validate_dependencies services ≡ none) ↔ IsSound services
unfolding validate_dependencies
validate_dependencies_iff services = (
  λ h.
      let (checks, cycles) = (or_else-eq-none _ _).0 h in
      let each = (first_error-eq-none (check_service sm em) services).0 checks in
      let parts = λ (s : Service) (q : Memᴰ s services) (on : is_service_enabled s ≡ true).
        (check_service-eq-none services s).0 (each s q) on in
      let refs = λ (s : Service) (q : Memᴰ s services) (on : is_service_enabled s ≡ true).
        (check_ref-all services s).0 (parts s q on).0 in
      record {
        refs = refs;
        waits = λ s q on. (check_wait-all services s).0 (parts s q on).1;
        ends = λ s q on.
            let there = enabled_service_map-has services s q on in
            (check_cycle-eq-none esm s.name (IsClosed-enabled services refs) there).0 (
              (first_error-eq-none (check_cycle esm) (keys esm)).0 cycles s.name
                (key_of esm s.name there));
      },
  λ h. (or_else-eq-none _ _).1 (
    (first_error-eq-none (check_service sm em) services).1 λ s q.
        (check_service-eq-none services s).1 λ on. (
          (check_ref-all services s).1 (h.refs s q on),
          (check_wait-all services s).1 (h.waits s q on),
        ),
    (first_error-eq-none (check_cycle esm) (keys esm)).1 λ k m.
        let (s, e) = lookup_of_mem k esm m in
        let (q, n, on) = enabled_service_map-source services k s e in
        (check_cycle-eq-none esm k (IsClosed-enabled services h.refs) (λ x. cc)).1
          (subst (Grounded esm) n (h.ends s q on)),
  ),
)
  where
    sm : Map Service
    sm = service_map services []

    em : Map Bool
    em = enabled_map services []

    esm : Map Service
    esm = enabled_service_map services []
