-- ===== src/Ipc.antt =====
-- cmd/go-overlay/ipc.go: the commands that the operator's program sends to the supervisor over a
-- socket, one request and one response on each connection. The JSON codec is a parameter.
pub mod Table
pub mod Laws
pub mod Server
pub mod Socket
use go_overlay.Base.{
  ℕ, zero, suc, Text, lit, ◌==◌, Bool, true, false, List, [], ◌∷◌, ◌++◌, Option, none, some,
  if◌then◌else◌, Result, ok, err, length, leb, ◌≡◌, ◌≤◌,
}
use go_overlay.Base.Int.{ℤ}
use go_overlay.Ascii.{trim_space}
use go_overlay.Supervisor.{State}
use go_overlay.Supervisor.Control.{
  Response, reply, handle_list_services, handle_restart_service, handle_get_status,
}

abbrev pub run_socket_path : Text
run_socket_path = lit "/run/go-overlay.sock"

abbrev pub tmp_socket_path : Text
tmp_socket_path = lit "/tmp/go-overlay.sock"

-- `resolveSocketPath`, with the value of the variable (empty where it is not set) and whether `/run`
-- is a writable directory
unfoldable pub resolve_socket_path : Text → Bool → Text
resolve_socket_path value run_is_writable =
    let custom = trim_space value in
    if custom == [] then (if run_is_writable then run_socket_path else tmp_socket_path) else custom

abbrev pub cmd_list_services : Text
cmd_list_services = lit "list_services"

abbrev pub cmd_restart_service : Text
cmd_restart_service = lit "restart_service"

abbrev pub cmd_get_status : Text
cmd_get_status = lit "get_status"

-- `IPCCommand`
pub record Command : Type 0 where
  pub kind : Text
  pub service_name : Text

abbrev pub ipc_max_request : ℕ
ipc_max_request = 65536

-- `io.LimitReader`: no more than so many bytes
unfoldable pub limited : ℕ → Text → Text
limited zero s = []
limited (suc n) [] = []
limited (suc n) (c ∷ s) = c ∷ limited n s

-- `json.Encoder` and `json.Decoder`: an encoder gives the bytes, and a decoder the first value of what
-- it reads, or its error.
pub record Codec : Type 0 where
  pub encode_command : Command → Text
  pub decode_command : Text → Result Command
  pub encode_response : Response → Text
  pub decode_response : Text → Result Response

-- What the operating system says of a service: its process id and the time since it started.
pub record Observed : Type 0 where
  pub pid : Text → ℤ
  pub uptime : Text → ℤ

-- the `switch` of `handleIPCConnection`
unfoldable pub handle_command : Observed → Command → State → State × Response
handle_command observed cmd s =
    if cmd.kind == cmd_list_services
    then (s, handle_list_services observed.pid observed.uptime s)
    else if cmd.kind == cmd_restart_service
    then handle_restart_service cmd.service_name s
    else if cmd.kind == cmd_get_status
    then (s, handle_get_status s)
    else (s, reply false (lit "Unknown command type"))

-- `if err != nil { return err }; if !response.Success { return ... }`
unfoldable pub response_error : Result Response → Option Text
response_error (err e) = some e
response_error (ok response) = if response.success then none else some response.message

module _ (codec : Codec) (observed : Observed) where
  -- `handleIPCConnection` on the bytes of a request: the bytes of the response, or none where the
  -- connection is closed without one
  unfoldable pub handle_ipc_connection : Text → State → State × Option Text
  handle_ipc_connection request s = elim (codec.decode_command (limited ipc_max_request request)) [
    | err _ ↦ (s, none)
    | ok cmd ↦
        let (t, response) = handle_command observed cmd s in
        (t, some (codec.encode_response response))
  ]

  -- what the client reads from the connection until it is closed
  abbrev pub sent : Option Text → Text
  sent none = []
  sent (some bytes) = bytes

  -- the last part of `sendIPCCommand`
  unfoldable pub receive : Text → Result Response
  receive bytes = elim (codec.decode_response (limited ipc_max_request bytes)) [
    | err e ↦ err (lit "error receiving response: " ++ e)
    | ok response ↦ ok response
  ]

  -- `sendIPCCommand`, with the error of the connection if there is one
  unfoldable pub send_ipc_command : Option Text → Command → State → State × Result Response
  unfolding handle_ipc_connection
  send_ipc_command (some e) cmd s = (s, err (lit "could not connect to Go Overlay daemon: " ++ e))
  send_ipc_command none cmd s =
      let (t, reply) = handle_ipc_connection (codec.encode_command cmd) s in
      (t, receive (sent reply))

  -- `restartService`, `showStatus` and `listServices` up to what they print
  unfoldable pub restart_service : Option Text → Text → State → State × Option Text
  restart_service dial service_name s =
      let (t, r) =
        send_ipc_command dial (record { kind = cmd_restart_service; service_name = service_name })
          s in
      (t, response_error r)

  unfoldable pub show_status : Option Text → State → State × Option Text
  show_status dial s =
      let (t, r) = send_ipc_command dial (record { kind = cmd_get_status; service_name = [] }) s in
      (t, response_error r)

  unfoldable pub list_services : Option Text → State → State × Option Text
  list_services dial s =
      let (t, r) =
        send_ipc_command dial (record { kind = cmd_list_services; service_name = [] }) s in
      (t, response_error r)
