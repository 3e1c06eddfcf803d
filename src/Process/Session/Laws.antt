-- ===== src/Process/Session/Laws.antt =====
-- What the start and the end of a service open, close, track and forget.
use go_overlay.Base.{
  ℕ, Text, ◌==◌, true, false, ◌&&◌, ◌||◌, not, List, [], ◌∷◌, Option, none, some, Result, ok, err,
  Result-cases, nat_eq, nat_eq_iff, if_elim, ◌≡◌, ◌∙◌, refl, arith, inl, inr,
}
use go_overlay.Base.Int.{ℤ, above, int_eq, int_eq_iff}
use go_overlay.Config.{Service}
use go_overlay.Process.Command.{ServiceCommand}
use go_overlay.Process.Children.{is_tracked_child, is_tracked_child-track, is_tracked_child-untrack}
use go_overlay.Process.Session.{
  Held, is_open, close_file, close_if, Redirected, Launcher, Session, start_logged,
  start_at_terminal, attach_service_output, track_session, start_session, end_session, owns,
  has_file,
}

is_open-close :
    (f g : ℕ) (files : List ℕ)
    → is_open g (close_file f files) ≡ (not (nat_eq f g) && is_open g files)
unfolding is_open close_file
is_open-close f g [] = ground arith
is_open-close f g (h ∷ files) =
    ground (arith, is_open-close f g files, nat_eq_iff f g, nat_eq_iff h f, nat_eq_iff h g)

-- The same files are open and the same children tracked.
pub record SameHeld (h t : Held) : Type 0 where
  pub files : (f : ℕ) → is_open f t.files ≡ is_open f h.files
  pub children : (q : ℤ) → is_tracked_child q t.children ≡ is_tracked_child q h.children

-- The files of the session and its child are there too.
pub record Begins (x : Session) (h t : Held) : Type 0 where
  pub files : (f : ℕ) → is_open f t.files ≡ (owns x f || is_open f h.files)
  pub children :
      (q : ℤ) → is_tracked_child q t.children ≡ (int_eq x.pid q || is_tracked_child q h.children)

-- The files of the session and its child, and nothing else, are gone.
pub record Ends (x : Session) (h t : Held) : Type 0 where
  pub files : (f : ℕ) → is_open f t.files ≡ (not (owns x f) && is_open f h.files)
  pub children :
      (q : ℤ)
      → is_tracked_child q t.children ≡ (not (int_eq x.pid q) && is_tracked_child q h.children)

-- A file that is opened has a number that is not in use, and a process that is started a positive one.
pub record IsFresh (launcher : Launcher) (h : Held) : Type 0 where
  pub terminal :
      (c : ServiceCommand) (pid : ℤ) (f : ℕ)
      → launcher.start_pty c ≡ ok (pid, f)
      → (above 0 pid ≡ true)
        × (is_tracked_child pid h.children ≡ false)
        × (is_open f h.files ≡ false)
  pub log : (path : Text) (f : ℕ) → launcher.open_log path ≡ ok f → is_open f h.files ≡ false
  pub process :
      (r : Redirected) (pid : ℤ)
      → launcher.start r ≡ ok pid
      → (above 0 pid ≡ true) × (is_tracked_child pid h.children ≡ false)

-- The session has a process, and what is its own was not in use.
pub record IsNew (x : Session) (h : Held) : Type 0 where
  pub positive : above 0 x.pid ≡ true
  pub untracked : is_tracked_child x.pid h.children ≡ false
  pub closed : (f : ℕ) → owns x f ≡ true → is_open f h.files ≡ false

-- What the start comes to: nothing is held more where it fails; and else the session, until it ends.
abbrev pub HoldsToEnd : Held → Held × Result Session → Type 0
HoldsToEnd h (t, err e) = SameHeld h t
HoldsToEnd h (t, ok x) =
    Begins x h t × ((u : Held) → Ends x u (end_session x u)) × SameHeld h (end_session x t)

is_open-close_if :
    (o : Option ℕ) (f : ℕ) (files : List ℕ)
    → is_open f (close_if o files) ≡ (not (has_file o f) && is_open f files)
is_open-close_if none f files = refl
is_open-close_if (some g) f files = is_open-close g f files

end_session-Ends : (x : Session) (h : Held) → above 0 x.pid ≡ true → Ends x h (end_session x h)
unfolding end_session
end_session-Ends x h p = record {
  files = λ f. ground (
    arith,
    is_open-close_if x.log_file f (close_if x.ptmx h.files),
    is_open-close_if x.ptmx f h.files,
  );
  children = λ q. ground (arith, is_tracked_child-untrack x.pid q h.children p);
}

-- What is new and begins ends without a trace.
end_session-SameHeld :
    (x : Session) (h t : Held) → IsNew x h → Begins x h t → SameHeld h (end_session x t)
end_session-SameHeld x h t n b =
    let e = end_session-Ends x t n.positive in
    record {
      files = λ f. e.files f ∙ ground (arith, b.files f, n.closed f);
      children = λ q. e.children q ∙ ground (arith, b.children q, int_eq_iff x.pid q, n.untracked);
    }

-- A session that begins with what is new
begun-HoldsToEnd : (x : Session) (h t : Held) → IsNew x h → Begins x h t → HoldsToEnd h (t, ok x)
begun-HoldsToEnd x h t n b =
    (b, λ u. end_session-Ends x u n.positive, end_session-SameHeld x h t n b)

module _ (launcher : Launcher) (command : ServiceCommand) (service : Service) (h : Held)
    (fresh : IsFresh launcher h) where
  -- `start_logged` where the log file was opened
  logged-HoldsToEnd :
      (f : ℕ)
      → launcher.open_log service.log_file ≡ ok f
      → HoldsToEnd h (
          track_session launcher
            (start_logged launcher command service f (record h { files = f ∷ h.files })))
  unfolding start_logged track_session is_open
  logged-HoldsToEnd f o =
      let r : Redirected = record { command = command; stdout = f; stderr = f; setsid = true } in
      let closed = fresh.log service.log_file f o in
      elim (Result-cases (launcher.start r)) [
        | inl (pid, e) ↦
            let (p, q) = fresh.process r pid e in
            rw (e, start_logged)
              (begun-HoldsToEnd (record { pid = pid; ptmx = none; log_file = some f }) h _
                (record {
                  positive = p;
                  untracked = q;
                  closed = λ g i. ground (arith, closed, nat_eq_iff f g, i);
                })
                (record {
                  files = λ g. refl;
                  children = λ c. is_tracked_child-track pid c h.children p;
                }))
        | inr (e, i) ↦
            rw (i, start_logged)
              (record {
                files =
                    λ g. ground (arith, is_open-close f g (f ∷ h.files), closed, nat_eq_iff f g);
                children = λ c. refl;
              })
      ]

  terminal-HoldsToEnd :
      HoldsToEnd h (track_session launcher (start_at_terminal launcher command service h))
  unfolding start_at_terminal track_session is_open
  terminal-HoldsToEnd = elim (Result-cases (launcher.start_pty command)) [
    | inl ((pid, f), e) ↦
        let (p, q, c) = fresh.terminal command pid f e in
        rw (e, start_at_terminal)
          (begun-HoldsToEnd (record { pid = pid; ptmx = some f; log_file = none }) h _
            (record {
              positive = p;
              untracked = q;
              closed = λ g i. ground (arith, c, nat_eq_iff f g, i);
            })
            (record {
              files = λ g. ground arith;
              children = λ d. is_tracked_child-track pid d h.children p;
            }))
    | inr (e, i) ↦ rw (i, start_at_terminal) (record { files = λ g. refl; children = λ d. refl })
  ]

-- Where the system opens files and starts processes under numbers that are not in use, a service that
-- cannot be started leaves the files and the children of the supervisor as they were; and a service
-- that is started holds its terminal or its log file and its child, until its end, which gives up
-- these and nothing else, so that what was held before is held again.
pub start_session-HoldsToEnd :
    (launcher : Launcher) (built : Result ServiceCommand) (service : Service) (h : Held)
    → IsFresh launcher h
    → HoldsToEnd h (start_session launcher built service h)
unfolding start_session attach_service_output track_session
start_session-HoldsToEnd launcher (err e) service h fresh = record {
  files = λ f. refl;
  children = λ q. refl;
}
start_session-HoldsToEnd launcher (ok command) service h fresh =
    if_elim (λ r. HoldsToEnd h (track_session launcher r)) (service.log_file == []) _ _
      (λ _. terminal-HoldsToEnd launcher command service h fresh)
      (λ _. elim (Result-cases (launcher.open_log service.log_file)) [
        | inl (f, e) ↦ rw e (logged-HoldsToEnd launcher command service h fresh f e)
        | inr (e, i) ↦ rw i (record { files = λ f. refl; children = λ q. refl })
      ])
