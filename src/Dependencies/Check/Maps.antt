-- ===== src/Dependencies/Check/Maps.antt =====
-- What the maps of `validateDependencies` hold.
use go_overlay.Base.{
  Text, ◌==◌, ==_iff, ==_refl, Map, lookup, insert, lookup-insert, Bool, true, List, [], ◌∷◌, none,
  some, if◌then◌else◌, ◌≡◌, ◌≢◌, sym, subst, ◌⊎◌, inl, inr, Memᴰ, arith, Bool-cases,
}
use mathlib.Core.List.Memᴰ
use mathlib.Core.Logic.{⊎_elim}
use mathlib.Core.Option.{some-injective}
use go_overlay.Config.{Service}
use go_overlay.Dependencies.Check.{
  is_service_enabled, service_map, enabled_map, enabled_service_map,
}

-- An entry of the map of enabled services is an enabled service of the list, under its name.
abbrev pub IsEnabledIn : List Service → Text → Service → Type 0
IsEnabledIn services k s = Memᴰ s services × (s.name ≡ k) × (is_service_enabled s ≡ true)

insert_enabled-source :
    (services : List Service) (x : Service) (m : Map Service) (k : Text) (s : Service)
    → lookup k (if is_service_enabled x then insert x.name x m else m) ≡ some s
    → IsEnabledIn (x ∷ services) k s ⊎ (lookup k m ≡ some s)
insert_enabled-source services x m k s l = elim (Bool-cases (is_service_enabled x)) [
  | inl on ↦ elim (Bool-cases (x.name == k)) [
    | inl same ↦
        let p : x ≡ s = some-injective x s (rw (on, lookup-insert, same) at l) in
        inl (
          Memᴰ.head (sym p),
          subst (λ t. t.name ≡ k) p ((==_iff x.name k).0 same),
          subst (λ t. is_service_enabled t ≡ true) p on,
        )
    | inr other ↦ inr (rw (on, lookup-insert, other) at l)
  ]
  | inr off ↦ inr (rw off at l)
]

enabled_service_map-source_from :
    (services : List Service) (m : Map Service) (k : Text) (s : Service)
    → lookup k (enabled_service_map services m) ≡ some s
    → IsEnabledIn services k s ⊎ (lookup k m ≡ some s)
unfolding enabled_service_map
enabled_service_map-source_from [] m k s h = inr h
enabled_service_map-source_from (x ∷ services) m k s h =
    ⊎_elim (λ (q, n, e). inl (Memᴰ.tail q, n, e)) (insert_enabled-source services x m k s)
      (enabled_service_map-source_from services _ k s h)

-- What is found in the map of enabled services is an enabled service of the list.
pub enabled_service_map-source :
    (services : List Service) (k : Text) (s : Service)
    → lookup k (enabled_service_map services []) ≡ some s
    → IsEnabledIn services k s
unfolding lookup
enabled_service_map-source services k s h =
    ⊎_elim (λ q. q) (λ l. cc) (enabled_service_map-source_from services [] k s h)

-- A service that `enabledMap` has as enabled is in the map of enabled services.
enabled_map-enabled :
    (services : List Service) (em : Map Bool) (m : Map Service) (k : Text)
    → (lookup k em ≡ some true → lookup k m ≢ none)
    → lookup k (enabled_map services em) ≡ some true
    → lookup k (enabled_service_map services m) ≢ none
unfolding enabled_map enabled_service_map
enabled_map-enabled [] em m k h e = h e
enabled_map-enabled (x ∷ services) em m k h e =
    enabled_map-enabled services _ _ k
      (ground (
        arith,
        lookup-insert x.name k (is_service_enabled x) em,
        lookup-insert x.name k x m,
        ==_iff x.name k,
      ))
      e

enabled_map-found :
    (services : List Service) (em : Map Bool) (m : Map Service) (k : Text)
    → (lookup k em ≡ some true → lookup k m ≢ none)
    → lookup k (enabled_map services em) ≡ some true
    → lookup k (service_map services m) ≢ none
unfolding enabled_map service_map
enabled_map-found [] em m k h e = h e
enabled_map-found (x ∷ services) em m k h e =
    enabled_map-found services _ _ k
      (ground (
        arith,
        lookup-insert x.name k (is_service_enabled x) em,
        lookup-insert x.name k x m,
        ==_iff x.name k,
      ))
      e

-- Where `enabledMap` holds true, the other two maps have an entry.
pub record Enables (services : List Service) (k : Text) : Type 0 where
  pub enabled : lookup k (enabled_service_map services []) ≢ none
  pub found : lookup k (service_map services []) ≢ none

pub enabled_map-Enables :
    (services : List Service) (k : Text)
    → lookup k (enabled_map services []) ≡ some true
    → Enables services k
unfolding lookup
enabled_map-Enables services k h = record {
  enabled = enabled_map-enabled services [] [] k (λ e. cc) h;
  found = enabled_map-found services [] [] k (λ e. cc) h;
}

enabled_service_map-keeps :
    (services : List Service) (m : Map Service) (k : Text)
    → lookup k m ≢ none
    → lookup k (enabled_service_map services m) ≢ none
unfolding enabled_service_map
enabled_service_map-keeps [] m k h = h
enabled_service_map-keeps (x ∷ services) m k h =
    enabled_service_map-keeps services _ k (ground (arith, lookup-insert x.name k x m))

enabled_service_map-has_from :
    (services : List Service) (m : Map Service) (s : Service)
    → Memᴰ s services
    → is_service_enabled s ≡ true
    → lookup s.name (enabled_service_map services m) ≢ none
unfolding enabled_service_map
enabled_service_map-has_from [] m s q on = absurd (Memᴰ.not-nil q)
enabled_service_map-has_from (x ∷ services) m s (Memᴰ.head p) on = rw p (
    enabled_service_map-keeps services _ x.name
      (rw (← p) (rw on (rw (lookup-insert, ==_refl) (λ e. cc)))))
enabled_service_map-has_from (x ∷ services) m s (Memᴰ.tail q) on =
    enabled_service_map-has_from services _ s q on

-- Every enabled service of the list has its name in the map of enabled services.
pub enabled_service_map-has :
    (services : List Service) (s : Service)
    → Memᴰ s services
    → is_service_enabled s ≡ true
    → lookup s.name (enabled_service_map services []) ≢ none
enabled_service_map-has services = enabled_service_map-has_from services []
