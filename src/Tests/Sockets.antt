-- ===== src/Tests/Sockets.antt =====
-- A start of the server on a system with one path, where an older socket is left.
use Prim.{Unit, tt}
use go_overlay.Base.{
  ℕ, Text, lit, ◌==◌, ==_iff, Bool, true, false, Option, none, some, if◌then◌else◌, ◌≡◌, ◌≢◌, refl,
  sym, ◌∙◌, arith, inl, inr, Bool-cases, Result, ok, err,
}
use go_overlay.Ipc.{run_socket_path}
use go_overlay.Ipc.Server.{Sentinel, err_not_exist}
use go_overlay.Ipc.Socket.{Sockets, IsSockets, start_ipc_server, stop_ipc_server}
use go_overlay.Ipc.Socket.Laws.{Starts, Stops, start_ipc_server-Stops}

-- The mode of the socket, if it is there, and whether the one listener is open.
abbrev World : Type 0
World = Option ℕ × Bool

abbrev enoent : Text
enoent = lit "ENOENT"

abbrev names : Text → Sentinel → Bool
names e err_not_exist = e == enoent
names e _ = false

abbrev unlink : World → World × Option Text
unlink (none, live) = ((none, live), some enoent)
unlink (some m, live) = ((none, live), none)

abbrev bind : World → World × Result (Unit {0})
bind (none, false) = ((some 493, true), ok tt)
bind (none, true) = ((none, true), err (lit "EADDRINUSE"))
bind (some m, live) = ((some m, live), err (lit "EADDRINUSE"))

abbrev set_mode : ℕ → World → World × Option Text
set_mode n (none, live) = ((none, live), some enoent)
set_mode n (some m, live) = ((some n, live), none)

abbrev is_socket : Text → Bool
is_socket p = p == run_socket_path

abbrev sockets : Sockets
sockets = record {
  World = World;
  Listener = Unit {0};
  remove = λ p w. if is_socket p then unlink w else (w, some enoent);
  listen = λ p w. if is_socket p then bind w else (w, err (lit "EACCES"));
  chmod = λ p n w. if is_socket p then set_mode n w else (w, some enoent);
  close_listener = λ l w. ((none, false), none);
  mode = λ p w. if is_socket p then w.0 else none;
  listening = λ l w. w.1;
  path_of = λ l. run_socket_path;
}

unlink-none : (w : World) → (unlink w).1 ≡ none → (unlink w).0.0 ≡ none
unlink-none (none, live) h = refl
unlink-none (some m, live) h = refl

unlink-some : (w : World) (e : Text) → (unlink w).1 ≡ some e → w.0 ≡ none
unlink-some (none, live) e h = refl
unlink-some (some m, live) e h = absurd (ground arith)

unlink-mode : (w : World) (e : Text) → (unlink w).1 ≡ some e → (unlink w).0.0 ≡ w.0
unlink-mode (none, live) e h = refl
unlink-mode (some m, live) e h = absurd (ground arith)

unlink-live : (w : World) → (unlink w).0.1 ≡ w.1
unlink-live (none, live) = refl
unlink-live (some m, live) = refl

bind-ok : (w : World) (l : Unit {0}) → (bind w).1 ≡ ok l → (w.1 ≡ false) × ((bind w).0.1 ≡ true)
bind-ok (none, false) l h = (refl, refl)
bind-ok (none, true) l h = absurd (ground arith)
bind-ok (some m, live) l h = absurd (ground arith)

bind-err : (w : World) (e : Text) → (bind w).1 ≡ err e → (bind w).0.1 ≡ w.1
bind-err (none, false) e h = absurd (ground arith)
bind-err (none, true) e h = refl
bind-err (some m, live) e h = refl

set_mode-none : (n : ℕ) (w : World) → (set_mode n w).1 ≡ none → (set_mode n w).0.0 ≡ some n
set_mode-none n (none, live) h = absurd (ground arith)
set_mode-none n (some m, live) h = refl

set_mode-live : (n : ℕ) (w : World) → (set_mode n w).0.1 ≡ w.1
set_mode-live n (none, live) = refl
set_mode-live n (some m, live) = refl

-- A call changes the world at the one path only.
elsewhere :
    {A : Type 0} (p q : Text) (r : World × A) (a : A) (w : World)
    → q ≢ p
    → sockets.mode q (if is_socket p then r else (w, a)).0 ≡ sockets.mode q w
elsewhere p q r a w d = elim (Bool-cases (is_socket p)) [
  | inl e ↦ elim (Bool-cases (is_socket q)) [
    | inl f ↦ absurd (d ((==_iff q run_socket_path).0 f ∙ sym ((==_iff p run_socket_path).0 e)))
    | inr f ↦ rw (e, f) refl
  ]
  | inr e ↦ rw e refl
]

off_socket : (q : Text) (v w : World) → q ≢ run_socket_path → sockets.mode q v ≡ sockets.mode q w
off_socket q v w d = elim (Bool-cases (is_socket q)) [
  | inl f ↦ absurd (d ((==_iff q run_socket_path).0 f))
  | inr f ↦ rw f refl
]

live_of :
    {A : Type 0} (p : Text) (r : World × A) (a : A) (w : World)
    → r.0.1 ≡ w.1
    → (if is_socket p then r else (w, a)).0.1 ≡ w.1
live_of p r a w h = elim (Bool-cases (is_socket p)) [ inl e ↦ rw e h | inr e ↦ rw e refl ]

sockets-IsSockets : IsSockets sockets names
sockets-IsSockets = record {
  removed = λ p w h. elim (Bool-cases (is_socket p)) [
    | inl e ↦ rw e (unlink-none w (rw e at h))
    | inr e ↦ rw e refl
  ];
  not_removed = λ p x w h. elim (Bool-cases (is_socket p)) [
    | inl e ↦ rw e (unlink-mode w x (rw e at h))
    | inr e ↦ rw e refl
  ];
  not_there = λ p x w h i. elim (Bool-cases (is_socket p)) [
    | inl e ↦ rw e (unlink-some w x (rw e at h))
    | inr e ↦ rw e refl
  ];
  remove_keeps = λ p w. (
    λ q d. elsewhere p q (unlink w) (some enoent) w d,
    λ k. live_of p (unlink w) (some enoent) w (unlink-live w),
  );
  listens = λ p l w h. elim (Bool-cases (is_socket p)) [
    | inl e ↦
        let (was, now) = bind-ok w l (rw e at h) in
        (was, rw e now, sym ((==_iff p run_socket_path).0 e), λ k d. absurd (d refl))
    | inr e ↦ let f = rw e at h in absurd (ground arith)
  ];
  not_listens = λ p x w h k. elim (Bool-cases (is_socket p)) [
    | inl e ↦ rw e (bind-err w x (rw e at h))
    | inr e ↦ rw e refl
  ];
  listen_keeps = λ p w q d. elsewhere p q (bind w) (err (lit "EACCES")) w d;
  changed = λ p n w h. elim (Bool-cases (is_socket p)) [
    | inl e ↦ rw e (set_mode-none n w (rw e at h))
    | inr e ↦ let f = rw e at h in absurd (ground arith)
  ];
  chmod_keeps = λ p n w. (
    λ q d. elsewhere p q (set_mode n w) (some enoent) w d,
    λ k. live_of p (set_mode n w) (some enoent) w (set_mode-live n w),
  );
  closed = λ l w. (refl, λ k d. absurd (d refl), λ q d. off_socket q (none, false) w d);
}

-- An older socket is replaced.
start_ipc_server-Stops_example :
    Starts sockets names sockets-IsSockets run_socket_path
      (some 420, false)
      (start_ipc_server sockets run_socket_path (some 420, false))
    × ((l : Unit {0}) (later : World)
        → (start_ipc_server sockets run_socket_path (some 420, false)).1 ≡ ok l
        → Stops sockets names sockets-IsSockets run_socket_path l later
            (stop_ipc_server sockets run_socket_path (some l) later))
start_ipc_server-Stops_example =
    start_ipc_server-Stops sockets names sockets-IsSockets run_socket_path (some 420, false)
