-- ===== src/Ipc/Socket.antt =====
-- The socket of cmd/go-overlay/ipc.go from `startIPCServer` to `runShutdown` of main.go. The calls of
-- the operating system are an interface over an unknown world.
pub mod Laws
use go_overlay.Base.{
  ℕ, Text, lit, Bool, true, false, ◌++◌, Option, none, some, Result, ok, err, ◌≡◌, ◌≢◌, ◌⊎◌,
}
use go_overlay.Ipc.Server.{Sentinel, err_not_exist}

-- The calls of `os` and `net`; the permission bits of what is under a path, if something is; and
-- whether a listener is open.
pub record Sockets : Type 1 where
  pub World : Type 0
  pub Listener : Type 0
  pub remove : Text → World → World × Option Text
  pub listen : Text → World → World × Result Listener
  pub chmod : Text → ℕ → World → World × Option Text
  pub close_listener : Listener → World → World × Option Text
  pub mode : Text → World → Option ℕ
  pub listening : Listener → World → Bool
  pub path_of : Listener → Text

-- The paths but one are under the new world as they were.
abbrev pub SameElsewhere : (S : Sockets) → Text → S.World → S.World → Type 0
SameElsewhere S p w w' = (q : Text) → q ≢ p → S.mode q w' ≡ S.mode q w

abbrev pub SameListeners : (S : Sockets) → S.World → S.World → Type 0
SameListeners S w w' = (k : S.Listener) → S.listening k w' ≡ S.listening k w

-- A call that reports an error changes nothing, but `Close` ends the listener in any case, and it may
-- remove its path. `Listen` opens a listener that was not open.
pub record IsSockets (S : Sockets) (is : Text → Sentinel → Bool) : Type 0 where
  pub removed :
      (p : Text) (w : S.World) → (S.remove p w).1 ≡ none → S.mode p (S.remove p w).0 ≡ none
  pub not_removed :
      (p e : Text) (w : S.World)
      → (S.remove p w).1 ≡ some e
      → S.mode p (S.remove p w).0 ≡ S.mode p w
  pub not_there :
      (p e : Text) (w : S.World)
      → (S.remove p w).1 ≡ some e
      → is e err_not_exist ≡ true
      → S.mode p w ≡ none
  pub remove_keeps :
      (p : Text) (w : S.World)
      → SameElsewhere S p w (S.remove p w).0 × SameListeners S w (S.remove p w).0
  pub listens :
      (p : Text) (l : S.Listener) (w : S.World)
      → (S.listen p w).1 ≡ ok l
      → (S.listening l w ≡ false)
        × (S.listening l (S.listen p w).0 ≡ true)
        × (S.path_of l ≡ p)
        × ((k : S.Listener) → k ≢ l → S.listening k (S.listen p w).0 ≡ S.listening k w)
  pub not_listens :
      (p e : Text) (w : S.World) → (S.listen p w).1 ≡ err e → SameListeners S w (S.listen p w).0
  pub listen_keeps : (p : Text) (w : S.World) → SameElsewhere S p w (S.listen p w).0
  pub changed :
      (p : Text) (n : ℕ) (w : S.World)
      → (S.chmod p n w).1 ≡ none
      → S.mode p (S.chmod p n w).0 ≡ some n
  pub chmod_keeps :
      (p : Text) (n : ℕ) (w : S.World)
      → SameElsewhere S p w (S.chmod p n w).0 × SameListeners S w (S.chmod p n w).0
  pub closed :
      (l : S.Listener) (w : S.World)
      → (S.listening l (S.close_listener l w).0 ≡ false)
        × ((k : S.Listener) → k ≢ l → S.listening k (S.close_listener l w).0 ≡ S.listening k w)
        × SameElsewhere S (S.path_of l) w (S.close_listener l w).0

-- 0o600
abbrev pub socket_mode : ℕ
socket_mode = 384

module _ (S : Sockets) (socket_path : Text) where
  -- An error is only a warning.
  unfoldable pub remove_socket_file_if_present : S.World → S.World
  remove_socket_file_if_present w = (S.remove socket_path w).0

  -- `startIPCServer` after `Listen`
  unfoldable pub restrict : S.Listener → S.World → S.World × Result S.Listener
  restrict listener w =
      let (w', r) = S.chmod socket_path socket_mode w in
      elim r [
        | none ↦ (w', ok listener)
        | some e ↦ (
          (S.close_listener listener w').0,
          err (lit "failed to restrict socket permissions: " ++ e),
        )
      ]

  -- `startIPCServer` up to the loop, with the listener where there is no error
  unfoldable pub start_ipc_server : S.World → S.World × Result S.Listener
  start_ipc_server w =
      let (w', r) = S.listen socket_path (remove_socket_file_if_present w) in
      elim r [
        | err e ↦ (w', err (lit "failed to create Unix socket: " ++ e))
        | ok listener ↦ restrict listener w'
      ]

  -- the part of `runShutdown` that ends the server, if there is one
  unfoldable pub stop_ipc_server : Option S.Listener → S.World → S.World
  stop_ipc_server none w = remove_socket_file_if_present w
  stop_ipc_server (some listener) w = remove_socket_file_if_present (S.close_listener listener w).0
