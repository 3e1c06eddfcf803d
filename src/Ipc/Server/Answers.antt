-- ===== src/Ipc/Server/Answers.antt =====
-- An answer to a request is at most one event of the supervisor, as `handleIPCConnection` of
-- cmd/go-overlay/ipc.go has it.
use go_overlay.Base.{
  Option, none, ok, err, Text, ◌==◌, some, ◌≡◌, ◌⊎◌, inl, inr, refl, sym, arith, Bool-cases,
  Result-cases,
}
use go_overlay.Ipc.{
  Codec, Command, Observed, cmd_list_services, cmd_restart_service, limited, ipc_max_request,
  handle_command, handle_ipc_connection,
}
use go_overlay.Supervisor.{State}
use go_overlay.Supervisor.Control.{handle_restart_service}
use go_overlay.Supervisor.Step.{restarts, step}
use go_overlay.Supervisor.Reach.{Reach, reach_here, reach_step, stepped-IsValid}
use go_overlay.Supervisor.Invariant.{IsValid}

-- A command leaves the supervisor as it is, or is a restart.
handle_command-cases :
    (observed : Observed) (cmd : Command) (s : State)
    → ((handle_command observed cmd s).0 ≡ s)
      ⊎ ((handle_command observed cmd s).0 ≡ (handle_restart_service cmd.service_name s).0)
unfolding handle_command
handle_command-cases observed cmd s = elim (Bool-cases (cmd.kind == cmd_list_services)) [
  | inl a ↦ inl (rw (a, handle_command) refl)
  | inr a ↦ elim (Bool-cases (cmd.kind == cmd_restart_service)) [
    | inl b ↦ inr (rw (a, b, handle_command) refl)
    | inr b ↦ inl (ground (arith, a, b))
  ]
]

-- the state that a run comes to
abbrev pub Comes : State → State → Type 0
Comes s t = Reach s (λ u. (u ≡ t) × IsValid u)

-- A command is at most one event of the supervisor.
handle_command-Comes :
    (observed : Observed) (cmd : Command) (s : State)
    → IsValid s
    → Comes s (handle_command observed cmd s).0
unfolding step
handle_command-Comes observed cmd s v =
    let to = (handle_command observed cmd s).0 in
    let after = (handle_restart_service cmd.service_name s).0 in
    let restart = restarts cmd.service_name in
    let stepped : step restart s ≡ some after = refl in
    elim (handle_command-cases observed cmd s) [
      | inl e ↦ reach_here (λ u. (u ≡ to) × IsValid u) s (sym e, v)
      | inr e ↦
          reach_step (λ u. (u ≡ to) × IsValid u) restart s after stepped
            (sym e, stepped-IsValid restart s after stepped v)
    ]

module _ (codec : Codec) where
  -- What was sent for a request: nothing where it is no command, and else the response that the handler
  -- of the command gave in some valid state of the supervisor.
  abbrev pub IsAnswered : Text × Option Text → Type 0
  IsAnswered (request, reply) =
      ((e : Text) × (codec.decode_command (limited ipc_max_request request) ≡ err e)
        × (reply ≡ none))
      ⊎ ((cmd : Command) × (observed : Observed) × (u : State) × (codec.decode_command
              (limited ipc_max_request request)
            ≡ ok cmd)
          × IsValid u
          × (reply ≡ some (codec.encode_response (handle_command observed cmd u).1)))

  pub handle_ipc_connection-IsAnswered :
      (observed : Observed) (request : Text) (s : State)
      → IsValid s
      → IsAnswered (request, (handle_ipc_connection codec observed request s).1)
  unfolding handle_ipc_connection
  handle_ipc_connection-IsAnswered observed request s v =
      elim (Result-cases (codec.decode_command (limited ipc_max_request request))) [
        | inl (cmd, e) ↦ inr (cmd, observed, s, e, v, rw (e, handle_ipc_connection) refl)
        | inr (x, e) ↦ inl (x, e, rw (e, handle_ipc_connection) refl)
      ]

  pub handle_ipc_connection-Comes :
      (observed : Observed) (request : Text) (s : State)
      → IsValid s
      → Comes s (handle_ipc_connection codec observed request s).0
  unfolding handle_ipc_connection
  handle_ipc_connection-Comes observed request s v =
      elim (Result-cases (codec.decode_command (limited ipc_max_request request))) [
        | inl (cmd, e) ↦ rw (e, handle_ipc_connection) (handle_command-Comes observed cmd s v)
        | inr (x, e) ↦
            rw (e, handle_ipc_connection) (reach_here (λ u. (u ≡ s) × IsValid u) s (refl, v))
      ]
