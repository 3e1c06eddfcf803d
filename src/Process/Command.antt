-- ===== src/Process/Command.antt =====
-- `buildServiceCommand` of cmd/go-overlay/service.go: the command of a service, the user that it runs
-- as and its environment.
use go_overlay.Base.{
  Text, lit, ◌==◌, ==_iff, has_byte, Map, lookup, false, List, [], ◌∷◌, Option, none, some,
  if◌then◌else◌, ◌≡◌, ◌≢◌, ◌∙◌, refl, ap, arith,
}
use Prim.{tt}
use go_overlay.Config.{Service}
use go_overlay.Environ.Service.{Scan, override_env, build_service_env}
use go_overlay.Environ.Service.Keys.{WellKeyed}
use go_overlay.Environ.Service.Laws.{entries_for, one_entry, overridden, override_env-entries}
use go_overlay.Validation.Host.{User}
use go_overlay.Process.Credential.{Credential, lookup_user_credential}

-- `exec.Cmd`, as far as it is set
pub record ServiceCommand : Type 0 where
  pub path : Text
  pub args : List Text
  pub credential : Option Credential
  pub env : List Text

-- the variables that depend on the user
abbrev pub user_env : Text → Text → Map Text
user_env user home_dir = (lit "USER", user) ∷ (lit "LOGNAME", user) ∷ (lit "HOME", home_dir) ∷ []

module _ (scan : Text → Scan) (environ : List Text) (lookup_user : Text → Option User) where
  -- `none` where the source returns an error
  unfoldable pub build_service_command : Service → Option ServiceCommand
  build_service_command service =
      let env = build_service_env scan environ service in
      let command : ServiceCommand = record {
        path = service.command;
        args = service.args;
        credential = none;
        env = env;
      } in
      if service.user == []
      then some command
      else elim (lookup_user_credential lookup_user service.user) [
        | none ↦ none
        | some (credential, home_dir) ↦ some (record command {
          credential = some credential;
          env = override_env env (user_env service.user home_dir);
        })
      ]

  -- The command of a service runs as this user.
  pub record RunsAs (service : Service) (credential : Credential) (home_dir : Text)
      (c : ServiceCommand) : Type 0 where
    pub is_user : c.credential ≡ some credential
    pub user : entries_for (lit "USER") c.env ≡ one_entry (lit "USER") service.user
    pub logname : entries_for (lit "LOGNAME") c.env ≡ one_entry (lit "LOGNAME") service.user
    pub home : entries_for (lit "HOME") c.env ≡ one_entry (lit "HOME") home_dir
    pub others :
        (k : Text)
        → k ≢ lit "USER"
        → k ≢ lit "LOGNAME"
        → k ≢ lit "HOME"
        → entries_for k c.env ≡ entries_for k (build_service_env scan environ service)

  user_env-WellKeyed : (user home_dir : Text) → WellKeyed (user_env user home_dir)
  unfolding lookup has_byte lit ◌==◌
  user_env-WellKeyed user home_dir = (refl, refl, (refl, refl, (refl, refl, tt)))

  user_env-others :
      (user home_dir k : Text)
      → k ≢ lit "USER"
      → k ≢ lit "LOGNAME"
      → k ≢ lit "HOME"
      → lookup k (user_env user home_dir) ≡ none
  unfolding lookup
  user_env-others user home_dir k a b c =
      ground (arith, ==_iff (lit "USER") k, ==_iff (lit "LOGNAME") k, ==_iff (lit "HOME") k)

  user_env-found :
      (user home_dir : Text)
      → (lookup (lit "USER") (user_env user home_dir) ≡ some user)
        × (lookup (lit "LOGNAME") (user_env user home_dir) ≡ some user)
        × (lookup (lit "HOME") (user_env user home_dir) ≡ some home_dir)
  unfolding lookup lit ◌==◌
  user_env-found user home_dir = (refl, refl, refl)

  -- Where a service names a user whose credential is found, its command has that credential, USER and
  -- LOGNAME are set once to the user and HOME to the home directory (or not at all where that is
  -- empty), and all other variables are those of `buildServiceEnv`.
  pub build_service_command-RunsAs :
      (service : Service) (credential : Credential) (home_dir : Text)
      → service.user ≢ []
      → lookup_user_credential lookup_user service.user ≡ some (credential, home_dir)
      → (c : ServiceCommand) × (build_service_command service ≡ some c)
        × RunsAs service credential home_dir c
  unfolding build_service_command
  build_service_command-RunsAs service credential home_dir n h =
      let env = build_service_env scan environ service in
      let vars = user_env service.user home_dir in
      let keyed = user_env-WellKeyed service.user home_dir in
      let (u, l, d) = user_env-found service.user home_dir in
      let named : (service.user == []) ≡ false = ground (arith, ==_iff service.user []) in
      let entry : (k : Text)
          → entries_for k (override_env env vars) ≡ overridden env k (lookup k vars) =
        λ k. override_env-entries env vars k keyed in
      (
        record {
          path = service.command;
          args = service.args;
          credential = some credential;
          env = override_env env vars;
        },
        rw (named, h, build_service_command) refl,
        record {
          is_user = refl;
          user = entry (lit "USER") ∙ ap (overridden env (lit "USER")) u;
          logname = entry (lit "LOGNAME") ∙ ap (overridden env (lit "LOGNAME")) l;
          home = entry (lit "HOME") ∙ ap (overridden env (lit "HOME")) d;
          others = λ k a b c.
              entry k ∙ ap (overridden env k) (user_env-others service.user home_dir k a b c);
        },
      )
