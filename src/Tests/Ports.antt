-- ===== src/Tests/Ports.antt =====
-- Runs of the operator's commands and of the output on the supervisor that is busy.
use go_overlay.Base.{
  Text, lit, ◌==◌, lookup, false, [], ◌∷◌, ◌++◌, Option, none, some, if◌then◌else◌, nat_eq, Result,
  ok, err, ◌≡◌, ◌↔◌, refl, arith,
}
use go_overlay.Ascii.{cut}
use go_overlay.Base.Int.{pos}
use go_overlay.Supervisor.{Process, State, none_yet, request_stop}
use go_overlay.Supervisor.Control.{Response, reply, handle_restart_service}
use go_overlay.Ipc.{Command, Codec, Observed, cmd_restart_service, restart_service}
use go_overlay.Ipc.Laws.{CarriesCommand, CarriesResponse, restart_service-none}
use go_overlay.Output.{format_service_name, stream_service_logs}
use go_overlay.Output.Laws.{Prints, stream_service_logs-Prints}
use go_overlay.Tests.{database}
use go_overlay.Base.{Bool, List}
use go_overlay.Ipc.Server.{Sentinel, err_closed, Arrival, happens, connects, fails, answers}
use go_overlay.Supervisor.Step.{exits}
use go_overlay.Supervisor.{boot}
use go_overlay.Tracker.{new_dependency_tracker}
use go_overlay.Supervisor.Prepare.{new_process}

-- A codec for messages without a list of services: a line with the kind, and the rest.
abbrev read_command : Option (Text × Text) → Result Command
read_command none = err (lit "EOF")
read_command (some (k, n)) = ok (record { kind = k; service_name = n })

abbrev read_response : Text → Result Response
read_response [] = err (lit "EOF")
read_response (c ∷ s) = ok (reply (nat_eq c 1) s)

abbrev codec : Codec
codec = record {
  encode_command = λ c. c.kind ++ 10 ∷ c.service_name;
  decode_command = λ s. read_command (cut 10 s);
  encode_response = λ r. (if r.success then 1 else 0) ∷ r.message;
  decode_response = read_response;
}

abbrev observed : Observed
observed = record { pid = λ n. pos 7; uptime = λ n. pos 60 }

abbrev restart_db : Command
restart_db = record { kind = cmd_restart_service; service_name = lit "db" }

carries_command : CarriesCommand codec observed restart_db
unfolding cut lit
carries_command = (ground arith, refl)

-- The database is active.
abbrev online : State
online = record {
  waiting = [];
  launching = [];
  active = (lit "db", new_process boot database) ∷ [];
  shutdown_wg = 1;
  timers = [];
  restart_counts = [];
  deps = new_dependency_tracker;
  exit_code = 0;
  once_done = false;
  shut_down = false;
}

carries_response : CarriesResponse codec observed (handle_restart_service (lit "db") online).1
unfolding lit lookup ◌==◌ handle_restart_service request_stop
carries_response = (ground arith, refl)

restart_service-none_example :
    ((restart_service codec observed none (lit "db") online).1 ≡ none
      ↔ ((p : Process) × (lookup (lit "db") online.active ≡ some p) × (p.intent ≡ none_yet)))
    × ((restart_service codec observed none (lit "db") online).0
        ≡ (handle_restart_service (lit "db") online).0)
restart_service-none_example =
    restart_service-none codec observed (lit "db") online carries_command carries_response

stream_service_logs-Prints_example :
    Prints
      (format_service_name (lit "db") 3)
      (lit "ready" ++ 10 ∷ lit "served")
      (stream_service_logs (lit "ready" ++ 10 ∷ lit "served") (lit "db") 3)
stream_service_logs-Prints_example =
    stream_service_logs-Prints (lit "ready" ++ 10 ∷ lit "served") (lit "db") 3

-- `errors.Is` on the text of an error
abbrev names_error : Text → Sentinel → Bool
names_error e err_closed = e == lit "use of closed network connection"
names_error e _ = false

-- Two operators restart a service that dies in between, and a third sends no command.
abbrev arrivals : List Arrival
arrivals =
    connects (lit "restart_service" ++ 10 ∷ lit "db")
    ∷ connects (lit "restart_service" ++ 10 ∷ lit "db")
    ∷ fails (lit "too many open files")
    ∷ answers 1 observed
    ∷ happens (exits (lit "db") none)
    ∷ connects (lit "hello")
    ∷ answers 0 observed
    ∷ answers 0 observed
    ∷ []
