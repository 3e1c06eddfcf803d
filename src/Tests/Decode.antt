-- ===== src/Tests/Decode.antt =====
-- Runs of the decoding of a configuration.
use go_overlay.Base.{Text, lit, [], ◌∷◌, none, some, false, ok, ◌==◌, ◌≡◌, ◌≢◌, ◌↔◌, refl}
use go_overlay.Base.Int.{pos}
use go_overlay.Config.{Service}
use go_overlay.Config.Decode.{
  TomlItem, TomlValue, nil, array, parse_depends_on, unmarshal_depends_on, ServiceRaw,
  parse_wait_after, parse_service, parse_services, dep_names,
}
use go_overlay.Config.Decode.Laws.{
  StandsFor, depends_on_iff, parse_services-ReadsAll, ReadsAll, named,
}

abbrev pub on_db : TomlValue
on_db = array (TomlItem.string (lit "db") ∷ [])

depends_on_iff_example :
    ((parse_depends_on on_db ≡ ok (lit "db" ∷ [])) ↔ StandsFor on_db (lit "db" ∷ []))
    × ((unmarshal_depends_on on_db ≡ ok (lit "db" ∷ []))
        ↔ ((on_db ≢ nil) × StandsFor on_db (lit "db" ∷ [])))
depends_on_iff_example = depends_on_iff on_db (lit "db" ∷ [])

abbrev pub raw : Text → ServiceRaw
raw name = record {
  depends_on = on_db;
  wait_after = TomlValue.int64 (pos 5);
  env = [];
  enabled = none;
  health_check = none;
  name = name;
  command = lit "run";
  log_file = [];
  pre_script = [];
  pos_script = [];
  user = [];
  restart = [];
  env_file = [];
  args = [];
  restart_delay = pos 0;
  max_restarts = pos 0;
  required = false;
  oneshot = false;
}

abbrev read : Text → Service
read name = record {
  depends_on = lit "db" ∷ [];
  wait_after = some (record { per_dep = []; global = pos 5; is_per_dep = false });
  env = [];
  enabled = none;
  health_check = none;
  name = name;
  command = lit "run";
  log_file = [];
  pre_script = [];
  pos_script = [];
  user = [];
  restart = [];
  env_file = [];
  args = [];
  restart_delay = pos 0;
  max_restarts = pos 0;
  required = false;
  oneshot = false;
}

two_are_read : parse_services (raw (lit "api") ∷ raw [] ∷ []) ≡ ok (read (lit "api") ∷ [])
unfolding parse_services parse_service parse_wait_after parse_depends_on dep_names lit ◌==◌
two_are_read = refl

parse_services-ReadsAll_example :
    ReadsAll (named (raw (lit "api") ∷ raw [] ∷ [])) (read (lit "api") ∷ [])
parse_services-ReadsAll_example =
    parse_services-ReadsAll (raw (lit "api") ∷ raw [] ∷ []) (read (lit "api") ∷ []) two_are_read
