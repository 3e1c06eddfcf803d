-- ===== src/Environ/Override/Laws.antt =====
-- What the overrides of cmd/go-overlay/env.go decide.
use go_overlay.Base.{
  ℕ, ◌↔◌, ◌⊎◌, sym, ◌∙◌, inl, inr, subst, Memᴰ, Option-cases, List-cases, contains_iff, Text, Bool,
  true, false, List, [], ◌∷◌, Option, none, some, ◌≡◌, ◌≢◌, refl, arith, contains,
}
use mathlib.Core.List.Memᴰ
use go_overlay.Ascii.{to_lower}
use go_overlay.Environ.Override.Read.{
  Says, Lists, parsed_env_iff, only_services_iff, is_separator_iff,
}
use go_overlay.Config.{Service, Config}
use go_overlay.Dependencies.Check.{is_service_enabled}
use go_overlay.Environ.Override.{
  is_separator, parsed_env, enable_key, disable_key, only_services, resolve_enabled,
  apply_overrides, apply_service_env_overrides,
}

module _ (lookup_env : Text → Option Text) where
  -- The variables that decide whether a service is enabled, in their order of precedence: its
  -- disabling variable where it says true, its enabling variable where it says anything, the list of
  -- services where it names any, and the configuration.
  pub record Resolves (s : Service) (enabled : Bool) : Type 0 where
    pub disabled : Says lookup_env (disable_key lookup_env s.name) true → enabled ≡ false
    pub chosen :
        (b : Bool)
        → ¬ Says lookup_env (disable_key lookup_env s.name) true
        → Says lookup_env (enable_key lookup_env s.name) b
        → enabled ≡ b
    pub listed :
        (name : Text)
        → ¬ Says lookup_env (disable_key lookup_env s.name) true
        → ((b : Bool) → ¬ Says lookup_env (enable_key lookup_env s.name) b)
        → Lists lookup_env name
        → (enabled ≡ true) ↔ Lists lookup_env (to_lower s.name)
    pub configured :
        ¬ Says lookup_env (disable_key lookup_env s.name) true
        → ((b : Bool) → ¬ Says lookup_env (enable_key lookup_env s.name) b)
        → ((name : Text) → ¬ Lists lookup_env name)
        → enabled ≡ is_service_enabled s

  unsaid : (key : Text) → ((b : Bool) → ¬ Says lookup_env key b) → parsed_env lookup_env key ≡ none
  unsaid key h = elim (Option-cases (parsed_env lookup_env key)) [
    | inl e ↦ e
    | inr (b, e) ↦ absurd (h b ((parsed_env_iff lookup_env key b).0 e))
  ]

  unlisted : ((name : Text) → ¬ Lists lookup_env name) → only_services lookup_env ≡ []
  unlisted h = elim (List-cases (only_services lookup_env)) [
    | inl e ↦ e
    | inr (x, rest, e) ↦
        absurd (h x ((only_services_iff lookup_env x).0 (subst (Memᴰ x) (sym e) (Memᴰ.head refl))))
  ]

  named : (name : Text) → Lists lookup_env name → only_services lookup_env ≢ []
  named name h e = Memᴰ.not-nil (subst (Memᴰ name) e ((only_services_iff lookup_env name).1 h))

  resolve_enabled-Resolves : (s : Service) → Resolves s (resolve_enabled lookup_env s)
  unfolding resolve_enabled
  resolve_enabled-Resolves s =
      let off = disable_key lookup_env s.name in
      let on = enable_key lookup_env s.name in
      let no : ¬ Says lookup_env off true → parsed_env lookup_env off ≢ some true =
        λ d e. d ((parsed_env_iff lookup_env off true).0 e) in
      let services = only_services lookup_env in
      record {
        disabled = λ d. ground (arith, (parsed_env_iff lookup_env off true).1 d);
        chosen = λ b d e. ground (arith, no d, (parsed_env_iff lookup_env on b).1 e);
        listed = λ name d e o.
            let same : resolve_enabled lookup_env s ≡ contains (to_lower s.name) services =
              ground (arith, no d, unsaid on e, named name o) in
            let has = contains_iff (to_lower s.name) services in
            let lists = only_services_iff lookup_env (to_lower s.name) in
            (λ h. lists.0 (has.0 (sym same ∙ h)), λ h. same ∙ has.1 (lists.1 h));
        configured = λ d e o. ground (arith, no d, unsaid on e, unlisted o);
      }

  -- The services in their order, with nothing changed but `enabled`.
  abbrev pub Overrides : List Service → List Service → Type 0
  Overrides [] [] = Unit
  Overrides [] (_ ∷ _) = ⊥
  Overrides (_ ∷ _) [] = ⊥
  Overrides (s ∷ services) (t ∷ rest) =
      ((b : Bool) × (t ≡ record s { enabled = some b }) × Resolves s b) × Overrides services rest

  apply_overrides-Overrides :
      (services : List Service) → Overrides services (apply_overrides lookup_env services)
  unfolding apply_overrides
  apply_overrides-Overrides [] = tt
  apply_overrides-Overrides (s ∷ services) = (
    (resolve_enabled lookup_env s, refl, resolve_enabled-Resolves s),
    apply_overrides-Overrides services,
  )

  -- `applyServiceEnvOverrides` keeps the services, their order and their other fields, and enables
  -- each as its variables decide: the words for true and false count in any case and with spaces
  -- around them, and the names of the list stand between commas, semicolons, spaces, line feeds and
  -- tabs.
  pub apply_service_env_overrides-Overrides :
      (config : Config)
      → Overrides config.services (apply_service_env_overrides lookup_env config).services
        × ((apply_service_env_overrides lookup_env config).timeouts ≡ config.timeouts)
        × ((c : ℕ)
            → (is_separator c ≡ true)
              ↔ ((c ≡ b',') ⊎ ((c ≡ b';') ⊎ ((c ≡ b' ') ⊎ ((c ≡ 10) ⊎ (c ≡ 9))))))
  unfolding apply_service_env_overrides
  apply_service_env_overrides-Overrides config =
      (apply_overrides-Overrides config.services, refl, is_separator_iff)
