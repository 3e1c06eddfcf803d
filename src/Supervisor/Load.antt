-- ===== src/Supervisor/Load.antt =====
-- `loadServices` of cmd/go-overlay/service.go: the configuration is read, parsed and validated, and its
-- services are started.
use go_overlay.Base.{
  Option, Text, lit, [], ◌∷◌, ◌++◌, Result, ok, err, Result-cases, ◌≡◌, ◌↔◌, ◌∙◌, refl, sym, ap,
  arith, inl, inr,
}
use go_overlay.Config.{Config}
use go_overlay.Config.Decode.{ConfigRaw, parse_config}
use go_overlay.Validation.Host.{Host}
use go_overlay.Validation.Fields.{ValidationErrors, errors_text}
use go_overlay.Validation.Config.{validated, validate_config}
use go_overlay.Validation.Config.Laws.{IsAcceptable, validate_config_iff}
use go_overlay.Supervisor.{State}
use go_overlay.Supervisor.Step.{start_all_services}

-- `if err := validateConfig(&config); err != nil { ... }`
abbrev pub unless_invalid : ValidationErrors → Config → Result Config
unless_invalid [] config = ok config
unless_invalid (e ∷ errors) config =
    err (lit "configuration validation failed: " ++ errors_text (e ∷ errors))

pub ok-injective {ℓ} : {A : Type ℓ} (a b : A) → ok a ≡ ok b → a ≡ b
ok-injective a b h = cc

module _ {Reader : Type 0} (decode : Reader → Result ConfigRaw) (host : Host)
    (lookup_env : Text → Option Text) where
  -- `loadAndValidateConfig`, with what `os.Open` returns
  unfoldable pub load_and_validate_config : Text → Result Reader → Result Config
  load_and_validate_config config_file (err e) =
      err (lit "error opening config file " ++ config_file ++ lit ": " ++ e)
  load_and_validate_config config_file (ok file) = elim (parse_config decode file) [
    | err e ↦ err (lit "error parsing config file " ++ config_file ++ lit ": " ++ e)
    | ok config ↦
        let (config', errors) = validate_config host lookup_env config in
        unless_invalid errors config'
  ]

  -- `loadServices`: the state in which the services are started, or its error
  unfoldable pub load_services : Text → Result Reader → Result State
  load_services config_file opened = elim (load_and_validate_config config_file opened) [
    | err e ↦ err e
    | ok config ↦ ok (start_all_services config)
  ]

  -- What a file has to be for its services to be started.
  abbrev pub Loads : Result Reader → Config → Type 0
  Loads opened config =
      (file : Reader) × (opened ≡ ok file)
      × (parse_config decode file ≡ ok config)
      × IsAcceptable host lookup_env config

  unless_invalid-ok :
      (errors : ValidationErrors) (c d : Config)
      → unless_invalid errors c ≡ ok d
      → (errors ≡ []) × (c ≡ d)
  unless_invalid-ok [] c d h = (refl, ok-injective c d h)
  unless_invalid-ok (e ∷ errors) c d h = absurd (ground arith)

  load_and_validate_config-ok :
      (config_file : Text) (opened : Result Reader) (c : Config)
      → load_and_validate_config config_file opened ≡ ok c
      → (config : Config) × Loads opened config × (c ≡ validated host lookup_env config)
  unfolding load_and_validate_config validate_config
  load_and_validate_config-ok config_file (err e) c h = absurd (ground arith)
  load_and_validate_config-ok config_file (ok file) c h =
      elim (Result-cases (parse_config decode file)) [
        | inl (config, p) ↦
            let k = rw (p, load_and_validate_config) at h in
            let (none_left, same) =
              unless_invalid-ok (validate_config host lookup_env config).1 _ c k in
            (
              config,
              (file, refl, p, (validate_config_iff host lookup_env config).0 none_left),
              sym same,
            )
        | inr (e, p) ↦ let k = rw (p, load_and_validate_config) at h in absurd (ground arith)
      ]

  ok-load_and_validate_config :
      (config_file : Text) (file : Reader) (config : Config)
      → parse_config decode file ≡ ok config
      → IsAcceptable host lookup_env config
      → load_and_validate_config config_file (ok file) ≡ ok (validated host lookup_env config)
  unfolding load_and_validate_config validate_config
  ok-load_and_validate_config config_file file config p a =
      rw (p, load_and_validate_config)
        (ap (λ errors. unless_invalid errors (validated host lookup_env config))
          ((validate_config_iff host lookup_env config).1 a))

  -- `loadServices` starts services exactly where the file can be opened and parses to a configuration
  -- that is acceptable, and it starts those of the configuration as it was validated.
  pub load_services-ok :
      (config_file : Text) (opened : Result Reader) (s : State)
      → (load_services config_file opened ≡ ok s) ↔ (
          (config : Config) × Loads opened config
          × (s ≡ start_all_services (validated host lookup_env config)))
  unfolding load_services
  load_services-ok config_file opened s = (there, back)
    where
      there :
          load_services config_file opened ≡ ok s
          → (config : Config) × Loads opened config
            × (s ≡ start_all_services (validated host lookup_env config))
      there h = elim (Result-cases (load_and_validate_config config_file opened)) [
        | inl (c, p) ↦
            let k = ok-injective (start_all_services c) s (rw (p, load_services) at h) in
            let (config, l, e) = load_and_validate_config-ok config_file opened c p in
            (config, l, sym k ∙ ap start_all_services e)
        | inr (e, p) ↦ let k = rw (p, load_services) at h in absurd (ground arith)
      ]

      back :
          ((config : Config) × Loads opened config
            × (s ≡ start_all_services (validated host lookup_env config)))
          → load_services config_file opened ≡ ok s
      back (config, (file, o, p, a), e) =
          let q =
            ap (load_and_validate_config config_file) o
            ∙ ok-load_and_validate_config config_file file config p a in
          rw (q, load_services) (ap ok (sym e))
