-- ===== src/Supervisor/Start/Accepted.antt =====
-- A configuration that `validateConfig` accepts, started by `startAllServices`.
use go_overlay.Base.{
  ◌≤◌, ◌∙◌, ap, Text, Map, lookup, keys, lookup_of_mem, mem-keys, true, false, List, [], ◌∷◌,
  Option, some, if_elim, ◌≡◌, refl, sym, subst, arith, inl, inr, Memᴰ, Option-cases,
}
use mathlib.Core.List.Memᴰ
use go_overlay.Config.{Service, Config}
use go_overlay.Dependencies.Graph.{Grounded}
use go_overlay.Dependencies.Check.{is_service_enabled, enabled_service_map}
use go_overlay.Dependencies.Check.Maps.{enabled_service_map-source, enabled_service_map-has}
use go_overlay.Dependencies.Check.Sound.{IsSound, IsClosed-enabled}
use go_overlay.Validation.Host.{Host}
use go_overlay.Validation.Config.{validated, validate_config}
use go_overlay.Validation.Config.Laws.{validate_config_iff}
use go_overlay.Supervisor.{State, fresh}
use go_overlay.Supervisor.Restart.{restart_count}
use go_overlay.Supervisor.Counts.{count}
use mathlib.Core.Option.{some-injective}
use go_overlay.Supervisor.Step.{waiting_name, Event, run, enabled_services, start_all_services}
use go_overlay.Supervisor.Boot.{start_all_services-IsValid}
use go_overlay.Supervisor.Invariant.{IsValid}
use go_overlay.Supervisor.Start.All.{Boots, CanStart, IsUp, all_start, can_start, take_only}

mem-enabled_services :
    (services : List Service) (s : Service)
    → Memᴰ s services
    → is_service_enabled s ≡ true
    → Memᴰ (record { service = s; phase = fresh }) (enabled_services services)
unfolding enabled_services
mem-enabled_services [] s m on = absurd (Memᴰ.not-nil m)
mem-enabled_services (t ∷ services) s (Memᴰ.head p) on =
    rw p (rw (subst (λ x. is_service_enabled x ≡ true) p on) (Memᴰ.head refl))
mem-enabled_services (t ∷ services) s (Memᴰ.tail m) on =
    let later = mem-enabled_services services s m on in
    if_elim (Memᴰ (record { service = s; phase = fresh })) (is_service_enabled t) _ _
      (λ _. Memᴰ.tail later) (λ _. later)

-- Two enabled services with one name are the same.
only_one :
    (config : Config)
    → IsValid (start_all_services config)
    → (v s : Service) → Memᴰ v config.services
    → Memᴰ s config.services
    → is_service_enabled v ≡ true
    → is_service_enabled s ≡ true
    → v.name ≡ s.name
    → v ≡ s
unfolding start_all_services
only_one config valid v s q m is_on on name =
    let ws = enabled_services config.services in
    let once : count waiting_name s.name ws ≤ 1 = omega (arith, valid.once s.name) in
    let (a, e) =
      take_only waiting_name s.name ws (record { service = v; phase = fresh })
        (mem-enabled_services config.services v q is_on) name once in
    let (b, f) =
      take_only waiting_name s.name ws (record { service = s; phase = fresh })
        (mem-enabled_services config.services s m on) refl once in
    ap (λ r. r.0.service) (some-injective _ _ (sym e ∙ f))

module _ (services : List Service) where
  abbrev graph : Map Service
  graph = enabled_service_map services []

  start-Boots :
      (config : Config)
      → config.services ≡ services
      → IsValid (start_all_services config)
      → Boots graph (start_all_services config)
  unfolding start_all_services restart_count lookup
  start-Boots config e v = record {
    calm = refl;
    valid = v;
    there = λ n service h.
        let (m, _, on) = enabled_service_map-source services n service h in
        inr
          (mem-enabled_services config.services service (subst (Memᴰ service) (sym e) m) on, refl);
  }

  each-CanStart : IsSound services → (n : Text) → Memᴰ n (keys graph) → CanStart graph n
  each-CanStart sound n m =
      let (s, e) = lookup_of_mem n graph m in
      let (q, name, on) = enabled_service_map-source services n s e in
      can_start graph (λ k t h. (enabled_service_map-source services k t h).1)
        (IsClosed-enabled services sound.refs) n (subst (Grounded graph) name (sound.ends s q on))
        (λ x. ground (arith, sym e, x))

module _ (host : Host) (lookup_env : Text → Option Text) where
  -- Where `validateConfig` reports nothing, the services can all start, so the dependencies do not block
  -- each other: some sequence of events leads from the start to a state that is not shut down and in
  -- which every enabled service was marked ready, and is active unless it is a oneshot.
  pub run-starts_all :
      (config : Config)
      → (validate_config host lookup_env config).1 ≡ []
      → (es : List Event) × (t : State) × (run es
            (start_all_services (validated host lookup_env config))
          ≡ some t)
        × (t.shut_down ≡ false)
        × ((s : Service)
            → Memᴰ s (validated host lookup_env config).services
            → is_service_enabled s ≡ true
            → IsUp s t)
  run-starts_all config h =
      let a = (validate_config_iff host lookup_env config).0 h in
      let c = validated host lookup_env config in
      let services = c.services in
      let g = enabled_service_map services [] in
      let (es, t, e, (b, _, up)) =
        all_start g (keys g) (start_all_services c) (each-CanStart services a.sound)
          (start-Boots services c refl (start_all_services-IsValid host lookup_env config a)) in
      (
        es,
        t,
        e,
        b.calm,
        λ s m on. elim (Option-cases (lookup s.name g)) [
          | inl x ↦ absurd (enabled_service_map-has services s m on x)
          | inr (v, x) ↦
              let (q, name, is_on) = enabled_service_map-source services s.name v x in
              subst (λ k. IsUp k t)
                (only_one c (start_all_services-IsValid host lookup_env config a) v s q m is_on on
                  name)
                (up s.name (mem-keys s.name g v x) v x)
        ],
      )
