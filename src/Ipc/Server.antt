-- ===== src/Ipc/Server.antt =====
-- The loop of `startIPCServer` of cmd/go-overlay/ipc.go beside the supervisor: each connection has a
-- goroutine of its own, so that the requests are answered in any order, between the events.
pub mod Answers
pub mod Runs
pub mod Loop
use go_overlay.Base.{
  ℕ, zero, suc, Text, Bool, true, false, ◌&&◌, ◌||◌, List, [], ◌∷◌, ◌++◌, Option, none, some,
  if◌then◌else◌,
}
use go_overlay.Ipc.{Codec, Observed, handle_ipc_connection}
use go_overlay.Supervisor.{State, ◌>>=◌}
use go_overlay.Supervisor.Step.{Event, step}

-- the errors that the program asks for with `errors.Is`
pub data Sentinel : Type 0 where
  eof : Sentinel
  err_closed : Sentinel
  eio : Sentinel
  err_not_exist : Sentinel

-- `errors.Is` is a parameter.
unfoldable pub is_stream_closed : (Text → Sentinel → Bool) → Text → Bool
is_stream_closed is e = is e eof || is e err_closed || is e eio

-- What happens next: an event of the supervisor, a connection with its request, an error of `Accept`,
-- or the goroutine of a connection, here the one at a position, that answers.
pub data Arrival : Type 0 where
  happens : Event → Arrival
  connects : Text → Arrival
  fails : Text → Arrival
  answers : ℕ → Observed → Arrival

-- Whether the loop goes on, the requests of the connections whose goroutine has not handled them, and
-- those of the handled ones with what was sent, if anything.
pub record Served : Type 0 where
  pub supervisor : State
  pub accepting : Bool
  pub pending : List Text
  pub responses : List (Text × Option Text)

abbrev pub cons_to {ℓ} : {A : Type ℓ} → A → Option (A × List A) → Option (A × List A)
cons_to x none = none
cons_to x (some (y, rest)) = some (y, x ∷ rest)

abbrev pub take_at {ℓ} : {A : Type ℓ} → ℕ → List A → Option (A × List A)
take_at k [] = none
take_at zero (x ∷ xs) = some (x, xs)
take_at (suc k) (x ∷ xs) = cons_to x (take_at k xs)

module _ (codec : Codec) (is : Text → Sentinel → Bool) where
  -- The loop returns at an error that comes with the shutdown or a closed listener.
  unfoldable pub on_accept_error : Text → Served → Served
  on_accept_error e m =
      if m.supervisor.shut_down || is_stream_closed is e then record m { accepting = false } else m

  unfoldable pub answer_request : Observed → Text → List Text → Served → Served
  answer_request observed request rest m =
      let (t, reply) = handle_ipc_connection codec observed request m.supervisor in
      record m { supervisor = t; pending = rest; responses = m.responses ++ (request, reply) ∷ [] }

  unfoldable pub arrive : Arrival → Served → Option Served
  arrive (happens e) m = do t ← step e m.supervisor; some (record m { supervisor = t })
  arrive (connects request) m =
      if m.accepting then some (record m { pending = m.pending ++ request ∷ [] }) else some m
  arrive (fails e) m = if m.accepting then some (on_accept_error e m) else some m
  arrive (answers k observed) m = elim (take_at k m.pending) [
    | none ↦ some m
    | some (request, rest) ↦ some (answer_request observed request rest m)
  ]

  unfoldable pub run_served : List Arrival → Served → Option Served
  run_served [] m = some m
  run_served (x ∷ xs) m = do m' ← arrive x m; run_served xs m'

-- The server just started, beside a supervisor
unfoldable pub serve : State → Served
serve s = record { supervisor = s; accepting = true; pending = []; responses = [] }
