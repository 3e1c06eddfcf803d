-- ===== src/Tests/Machine.antt =====
-- Runs of a script and of the start of a configuration.
use go_overlay.Base.{
  ℕ, suc, Text, lit, true, false, List, [], ◌∷◌, none, Result, ok, ◌≡◌, ◌↔◌, refl, subst, arith,
}
use go_overlay.Base.Int.{ℤ, pos, above}
use go_overlay.Config.{Config}
use go_overlay.Config.Decode.{ConfigRaw}
use go_overlay.Process.Children.{is_tracked_child}
use go_overlay.Process.Run.{ExecError, Begun, begun, Machine, run_script, run_script-SameChildren}
use go_overlay.Supervisor.Step.{start_all_services}
use go_overlay.Supervisor.Load.{Loads, load_services, load_services-ok}
use go_overlay.Validation.Config.{validated}
use go_overlay.Tests.{host, no_env, config}
use go_overlay.Tests.Decode.{raw}

-- A command of one word is not an executable file, and others run as process 9.
abbrev no_exec : ExecError
no_exec = record {
  text = lit "exec format error";
  is_no_exec = true;
  is_permission = false;
  is_access = false;
}

abbrev begin : List Text → ℕ → ℕ × Begun
begin (a ∷ b ∷ rest) w = (w, begun (pos 9))
begin _ w = (w, Begun.refused no_exec)

abbrev machine : Machine
machine = record {
  World = ℕ;
  start = begin;
  wait = λ pid w. (suc w, none);
  stat = λ path w. none;
  chmod = λ path mode w. w;
  has_bash = λ w. true;
}

begun-injective : (p q : ℤ) → begun p ≡ begun q → p ≡ q
begun-injective p q h = cc

begin-IsFresh :
    (argv : List Text) (w : ℕ) (pid : ℤ)
    → (begin argv w).1 ≡ begun pid
    → (above 0 pid ≡ true) × (is_tracked_child pid (pos 7 ∷ []) ≡ false)
unfolding is_tracked_child
begin-IsFresh [] w pid h = absurd (ground arith)
begin-IsFresh (a ∷ []) w pid h = absurd (ground arith)
begin-IsFresh (a ∷ b ∷ rest) w pid h =
    subst (λ p. (above 0 p ≡ true) × (is_tracked_child p (pos 7 ∷ []) ≡ false))
      (begun-injective (pos 9) pid h) (refl, refl)

run_script-SameChildren_example :
    is_tracked_child (pos 7) (run_script machine (lit "/pre.sh") (pos 7 ∷ []) 0).0.0
    ≡ is_tracked_child (pos 7) (pos 7 ∷ [])
run_script-SameChildren_example =
    run_script-SameChildren machine (lit "/pre.sh") (pos 7 ∷ []) 0 begin-IsFresh (pos 7)

abbrev raw_config : ConfigRaw
raw_config = record { services = raw (lit "db") ∷ []; timeouts = config.timeouts }

abbrev decode : ConfigRaw → Result ConfigRaw
decode r = ok r

load_services-ok_example :
    (load_services decode host no_env (lit "/services.toml") (ok raw_config)
      ≡ ok (start_all_services (validated host no_env config)))
    ↔ ((c : Config) × Loads decode host no_env (ok raw_config) c
        × (start_all_services (validated host no_env config)
            ≡ start_all_services (validated host no_env c)))
load_services-ok_example =
    load_services-ok decode host no_env (lit "/services.toml") (ok raw_config)
      (start_all_services (validated host no_env config))
