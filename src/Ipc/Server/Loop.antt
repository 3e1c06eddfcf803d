-- ===== src/Ipc/Server/Loop.antt =====
-- The loop of the server goes on until the shutdown or a closed listener.
use go_overlay.Base.{Text, Bool, false, ◌≡◌}
use go_overlay.Ipc.{Codec}
use go_overlay.Ipc.Server.{Sentinel, is_stream_closed, Arrival, fails}

module _ (codec : Codec) (is : Text → Sentinel → Bool) where
  -- not the error of a closed listener
  abbrev pub IsPassing : Arrival → Type 0
  IsPassing (fails e) = is_stream_closed is e ≡ false
  IsPassing _ = Unit
