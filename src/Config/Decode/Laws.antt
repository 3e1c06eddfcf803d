-- ===== src/Config/Decode/Laws.antt =====
-- What `parseConfig` and the `UnmarshalTOML` methods of cmd/go-overlay/config.go read.
use Prim.{tt}
use go_overlay.Base.{
  subst, Text, List, [], ◌∷◌, ok, Result-cases, if◌then◌else◌, ◌==◌, ◌≡◌, ◌≢◌, ◌↔◌, refl, ◌∙◌, ap,
  map, arith, inl, inr, Bool-cases,
}
use go_overlay.Config.{Service}
use go_overlay.Config.Decode.Waits.{WaitsFor, parse_wait_after-WaitsFor}
use go_overlay.Config.Decode.{
  TomlItem, TomlValue, nil, array, table, dep_names, parse_wait_after, parse_depends_on,
  unmarshal_depends_on, ServiceRaw, parse_service, parse_services,
}

-- What a value of `depends_on` stands for: nothing, one name, or a list of names.
abbrev pub StandsFor : TomlValue → List Text → Type 0
StandsFor nil names = names ≡ []
StandsFor (TomlValue.string name) names = names ≡ name ∷ []
StandsFor (array items) names = items ≡ map TomlItem.string names
StandsFor _ names = ⊥

ok-injective {ℓ} : {A : Type ℓ} (a b : A) → ok a ≡ ok b → a ≡ b
ok-injective a b h = cc

dep_names-map : (names : List Text) → dep_names (map TomlItem.string names) ≡ ok names
unfolding dep_names
dep_names-map [] = refl
dep_names-map (name ∷ names) = rw (dep_names-map names) refl

dep_names-ok :
    (items : List TomlItem) (names : List Text)
    → dep_names items ≡ ok names
    → items ≡ map TomlItem.string names
unfolding dep_names
dep_names-ok [] names h = ap (map TomlItem.string) (ok-injective [] names h)
dep_names-ok (TomlItem.string s ∷ items) names h = elim (Result-cases (dep_names items)) [
  | inl (rest, e) ↦
      ap (λ x. TomlItem.string s ∷ x) (dep_names-ok items rest e)
      ∙ ap (map TomlItem.string) (ok-injective (s ∷ rest) names (rw (e, dep_names) at h))
  | inr (m, e) ↦ let g = rw (e, dep_names) at h in absurd (cc)
]
dep_names-ok (TomlItem.int64 n ∷ items) names h = absurd (cc)
dep_names-ok (TomlItem.other ∷ items) names h = absurd (cc)

-- `parseConfig` reads `depends_on` exactly where it stands for a list of names, and yields that
-- list. `UnmarshalTOML` does the same for every value but nil, which it refuses.
pub depends_on_iff :
    (v : TomlValue) (names : List Text)
    → ((parse_depends_on v ≡ ok names) ↔ StandsFor v names)
      × ((unmarshal_depends_on v ≡ ok names) ↔ ((v ≢ nil) × StandsFor v names))
unfolding parse_depends_on unmarshal_depends_on
depends_on_iff nil names = ground arith
depends_on_iff (TomlValue.string s) names = ground arith
depends_on_iff (array items) names = (
  (dep_names-ok items names, λ e. rw e (dep_names-map names)),
  (λ h. (λ x. absurd (cc), dep_names-ok items names h), λ e. rw (e.1) (dep_names-map names)),
)
depends_on_iff (TomlValue.int64 n) names = ground arith
depends_on_iff (table m) names = ground arith
depends_on_iff TomlValue.other names = ground arith

-- A service with every field that its entry in the file has. What stands for its dependencies and its
-- waits is read.
pub record Reads (sr : ServiceRaw) (s : Service) : Type 0 where
  pub depends_on : StandsFor sr.depends_on s.depends_on
  pub wait_after : WaitsFor sr.wait_after s.wait_after
  pub env : s.env ≡ sr.env
  pub enabled : s.enabled ≡ sr.enabled
  pub health_check : s.health_check ≡ sr.health_check
  pub name : s.name ≡ sr.name
  pub command : s.command ≡ sr.command
  pub log_file : s.log_file ≡ sr.log_file
  pub pre_script : s.pre_script ≡ sr.pre_script
  pub pos_script : s.pos_script ≡ sr.pos_script
  pub user : s.user ≡ sr.user
  pub restart : s.restart ≡ sr.restart
  pub env_file : s.env_file ≡ sr.env_file
  pub args : s.args ≡ sr.args
  pub restart_delay : s.restart_delay ≡ sr.restart_delay
  pub max_restarts : s.max_restarts ≡ sr.max_restarts
  pub required : s.required ≡ sr.required
  pub oneshot : s.oneshot ≡ sr.oneshot

-- The entries that have a name, in their order.
abbrev pub named : List ServiceRaw → List ServiceRaw
named [] = []
named (sr ∷ raw) = let rest = named raw in if sr.name == [] then rest else sr ∷ rest

-- Each entry is read as the service at its place.
abbrev pub ReadsAll : List ServiceRaw → List Service → Type 0
ReadsAll [] [] = Unit
ReadsAll [] (_ ∷ _) = ⊥
ReadsAll (_ ∷ _) [] = ⊥
ReadsAll (sr ∷ raw) (s ∷ services) = Reads sr s × ReadsAll raw services

parse_service-Reads : (sr : ServiceRaw) (s : Service) → parse_service sr ≡ ok s → Reads sr s
unfolding parse_service
parse_service-Reads sr s h = elim (Result-cases (parse_wait_after sr.wait_after)) [
  | inl (w, e) ↦ elim (Result-cases (parse_depends_on sr.depends_on)) [
    | inl (d, f) ↦ subst (Reads sr) (ok-injective _ s (rw (e, f, parse_service) at h)) (record {
      depends_on = (depends_on_iff sr.depends_on d).0.0 f;
      wait_after = parse_wait_after-WaitsFor sr.wait_after w e;
      env = refl;
      enabled = refl;
      health_check = refl;
      name = refl;
      command = refl;
      log_file = refl;
      pre_script = refl;
      pos_script = refl;
      user = refl;
      restart = refl;
      env_file = refl;
      args = refl;
      restart_delay = refl;
      max_restarts = refl;
      required = refl;
      oneshot = refl;
    })
    | inr (m, f) ↦ let g = rw (e, f, parse_service) at h in absurd (cc)
  ]
  | inr (m, e) ↦ let g = rw (e, parse_service) at h in absurd (cc)
]

-- Where the loop of `parseConfig` succeeds, the services are the entries of the file that have a name,
-- in their order, each with all of its fields: the dependencies and the waits are those that their
-- fields stand for, and the others are the same.
pub parse_services-ReadsAll :
    (raw : List ServiceRaw) (services : List Service)
    → parse_services raw ≡ ok services
    → ReadsAll (named raw) services
unfolding parse_services
parse_services-ReadsAll [] services h = subst (ReadsAll []) (ok-injective [] services h) tt
parse_services-ReadsAll (sr ∷ raw) services h = elim (Bool-cases (sr.name == [])) [
  | inl e ↦ rw e (parse_services-ReadsAll raw services (rw (e, parse_services) at h))
  | inr e ↦ elim (Result-cases (parse_service sr)) [
    | inl (s, f) ↦ elim (Result-cases (parse_services raw)) [
      | inl (rest, g) ↦
          rw (e, ← (ok-injective (s ∷ rest) services (rw (e, f, g, parse_services) at h)))
            (parse_service-Reads sr s f, parse_services-ReadsAll raw rest g)
      | inr (m, g) ↦ let x = rw (e, f, g, parse_services) at h in absurd (cc)
    ]
    | inr (m, f) ↦ let x = rw (e, f, parse_services) at h in absurd (cc)
  ]
]
