-- ===== src/Ipc/Laws.antt =====
-- The operator's commands through the socket.
use go_overlay.Base.{
  ℕ, zero, suc, ◌≤◌, Text, lit, ◌==◌, lookup, true, [], ◌∷◌, none, some, ok, length, ◌≡◌, ◌↔◌, ◌∙◌,
  refl, sym, ap, subst, arith,
}
use go_overlay.Supervisor.{Process, State, none_yet}
use go_overlay.Supervisor.Control.{Response, handle_restart_service}
use go_overlay.Supervisor.Operator.{handle_restart_service-success}
use go_overlay.Ipc.{
  Command, Codec, Observed, cmd_restart_service, limited, ipc_max_request, handle_command,
  handle_ipc_connection, receive, send_ipc_command, response_error, restart_service,
}

-- Nothing is cut off a text within the limit.
limited_whole : (n : ℕ) (s : Text) → length s ≤ n → limited n s ≡ s
unfolding limited
limited_whole zero [] h = refl
limited_whole zero (c ∷ s) h = absurd (omega arith)
limited_whole (suc n) [] h = refl
limited_whole (suc n) (c ∷ s) h = ap (λ r. c ∷ r) (limited_whole n s (omega arith))

success_iff : (r : Response) → (response_error (ok r) ≡ none) ↔ (r.success ≡ true)
unfolding response_error
success_iff r = (λ h. ground arith, λ h. rw h refl)

module _ (codec : Codec) (observed : Observed) where
  -- A message is carried where it fits into the limit and decodes to itself.
  abbrev pub CarriesCommand : Command → Type 0
  CarriesCommand cmd =
      (length (codec.encode_command cmd) ≤ ipc_max_request)
      × (codec.decode_command (codec.encode_command cmd) ≡ ok cmd)

  abbrev pub CarriesResponse : Response → Type 0
  CarriesResponse r =
      (length (codec.encode_response r) ≤ ipc_max_request)
      × (codec.decode_response (codec.encode_response r) ≡ ok r)

  -- Over a connection that stands, a command and its response that the codec carries make one call of
  -- the handler: the supervisor changes as the handler says, and the caller gets its response.
  pub send_ipc_command-call :
      (cmd : Command) (s : State)
      → CarriesCommand cmd
      → CarriesResponse (handle_command observed cmd s).1
      → send_ipc_command codec observed none cmd s
        ≡ ((handle_command observed cmd s).0, ok (handle_command observed cmd s).1)
  unfolding send_ipc_command handle_ipc_connection receive
  send_ipc_command-call cmd s (a, b) (c, d) =
      let bytes = codec.encode_command cmd in
      let request : codec.decode_command (limited ipc_max_request bytes) ≡ ok cmd =
        ap codec.decode_command (limited_whole ipc_max_request bytes a) ∙ b in
      let answer = codec.encode_response (handle_command observed cmd s).1 in
      let response : codec.decode_response (limited ipc_max_request answer)
          ≡ ok (handle_command observed cmd s).1 =
        ap codec.decode_response (limited_whole ipc_max_request answer c) ∙ d in
      let handled : handle_ipc_connection codec observed bytes s
          ≡ ((handle_command observed cmd s).0, some answer) =
        rw (request, handle_ipc_connection) refl in
      let received : receive codec observed answer ≡ ok (handle_command observed cmd s).1 =
        rw (response, receive) refl in
      rw (handled, received) refl

  restart_command :
      (n : Text) (s : State)
      → handle_command observed (record { kind = cmd_restart_service; service_name = n }) s
        ≡ handle_restart_service n s
  unfolding handle_command ◌==◌ lit
  restart_command n s = refl

  -- Over a connection that stands, and where the codec carries the messages, `restartService` reports
  -- no error exactly where the service is active and has no intent to stop yet, and the supervisor
  -- then is as `handleRestartService` leaves it.
  pub restart_service-none :
      (n : Text) (s : State)
      → CarriesCommand (record { kind = cmd_restart_service; service_name = n })
      → CarriesResponse (handle_restart_service n s).1
      → ((restart_service codec observed none n s).1 ≡ none
          ↔ ((p : Process) × (lookup n s.active ≡ some p) × (p.intent ≡ none_yet)))
        × ((restart_service codec observed none n s).0 ≡ (handle_restart_service n s).0)
  unfolding restart_service response_error
  restart_service-none n s a b =
      let cmd : Command = record { kind = cmd_restart_service; service_name = n } in
      let h = restart_command n s in
      let call =
        send_ipc_command-call cmd s a (subst (λ r. CarriesResponse r.1) (sym h) b)
        ∙ ap (λ r. (r.0, ok r.1)) h in
      let error : (restart_service codec observed none n s).1
          ≡ response_error (ok (handle_restart_service n s).1) =
        ap (λ r. response_error r.1) call in
      let (there, back) = (handle_restart_service-success n s).0 in
      (
        (
          λ e. there ((success_iff (handle_restart_service n s).1).0 (sym error ∙ e)),
          λ f. error ∙ (success_iff (handle_restart_service n s).1).1 (back f),
        ),
        ap (λ r. r.0) call,
      )
