-- ===== src/Process/Run.antt =====
-- Commands that the supervisor runs and waits for: `runTracked` of cmd/go-overlay/process.go, and
-- `runScript` of service.go with its second try through a shell. What the system does is an interface
-- over an unknown world.
use go_overlay.Base.{
  ℕ, Text, lit, Bool, true, false, ◌||◌, List, [], ◌∷◌, Option, none, some, nat_eq, if◌then◌else◌,
  if_elim, ◌≡◌, ◌∙◌, refl, ap, arith,
}
use Prim.Native.Nat.{bit_and, bit_or}
use go_overlay.Base.Int.{ℤ, above, int_eq, int_eq_iff}
use go_overlay.Process.Children.{
  Children, is_tracked_child, track_child, untrack_child, is_tracked_child-track,
  is_tracked_child-untrack,
}

-- An error of `Start` or `Wait`, and which of the errors that `isNotExecutableError` asks for it is.
pub record ExecError : Type 0 where
  pub text : Text
  pub is_no_exec : Bool
  pub is_permission : Bool
  pub is_access : Bool

pub data Begun : Type 0 where
  refused : ExecError → Begun
  begun : ℤ → Begun

-- `Start` and `Wait` of a command, `os.Stat` of a path (its mode), `os.Chmod`, and whether `bash` is
-- found.
pub record Machine : Type 1 where
  pub World : Type 0
  pub start : List Text → World → World × Begun
  pub wait : ℤ → World → World × Option ExecError
  pub stat : Text → World → Option ℕ
  pub chmod : Text → ℕ → World → World
  pub has_bash : World → Bool

-- A process that starts has a positive number that is not in use for a child.
abbrev pub IsFresh : Machine → Children → Type 0
IsFresh M children =
    (argv : List Text) (w : M.World) (pid : ℤ)
    → (M.start argv w).1 ≡ begun pid
    → (above 0 pid ≡ true) × (is_tracked_child pid children ≡ false)

-- `isNotExecutableError`
unfoldable pub is_not_executable_error : ExecError → Bool
is_not_executable_error e = e.is_no_exec || e.is_permission || e.is_access

module _ (M : Machine) where
  -- `runTracked`: the children and the world after it, and its error
  unfoldable pub run_tracked :
      List Text → Children → M.World → (Children × M.World) × Option ExecError
  run_tracked argv children w =
      let (w1, b) = M.start argv w in
      elim b [
        | refused e ↦ ((children, w1), some e)
        | begun pid ↦
            let tracked = track_child pid children in
            let (w2, r) = M.wait pid w1 in ((untrack_child pid tracked, w2), r)
      ]

  -- `ensureExecutable`, whose error only makes a warning; 0o100 is 64, and 0o700 is 448
  unfoldable pub ensure_executable : Text → M.World → M.World
  ensure_executable path w = elim (M.stat path w) [
    | none ↦ w
    | some mode ↦ if nat_eq (bit_and mode 64) 0 then M.chmod path (bit_or mode 448) w else w
  ]

  -- the shell of the second try
  unfoldable pub shell_of : M.World → Text
  shell_of w = if M.has_bash w then lit "bash" else lit "sh"

  -- `runScript` where the first try has this result
  unfoldable pub fall_back :
      Text → (Children × M.World) × Option ExecError → (Children × M.World) × Option ExecError
  unfolding run_tracked
  fall_back script_path (s, none) = (s, none)
  fall_back script_path ((children, w), some e) =
      let again = run_tracked (shell_of w ∷ script_path ∷ []) children w in
      if is_not_executable_error e then again else ((children, w), some e)

  -- `runScript`
  unfoldable pub run_script : Text → Children → M.World → (Children × M.World) × Option ExecError
  unfolding fall_back ensure_executable
  run_script script_path children w =
      fall_back script_path
        (run_tracked (script_path ∷ []) children (ensure_executable script_path w))

  -- `checkCommandHealth`, where the command ends before the timeout or is killed by it
  unfoldable pub check_command_health : Text → Children → M.World → (Children × M.World) × Bool
  unfolding run_tracked
  check_command_health command children w =
      let (s, r) = run_tracked (shell_of w ∷ lit "-c" ∷ command ∷ []) children w in
      elim r [ none ↦ (s, true) | some _ ↦ (s, false) ]

  -- The same children are tracked.
  abbrev pub SameChildren : Children → Children → Type 0
  SameChildren a b = (q : ℤ) → is_tracked_child q a ≡ is_tracked_child q b

  run_tracked-SameChildren :
      (argv : List Text) (children : Children) (w : M.World)
      → IsFresh M children
      → SameChildren (run_tracked argv children w).0.0 children
  unfolding run_tracked
  run_tracked-SameChildren argv children w fresh q = go (M.start argv w).1 refl
    where
      go :
          (b : Begun)
          → (M.start argv w).1 ≡ b
          → is_tracked_child q
              (elim b as (λ _. (Children × M.World) × Option ExecError) [
                | refused e ↦ ((children, (M.start argv w).0), some e)
                | begun pid ↦
                    let tracked = track_child pid children in
                    let (w2, r) = M.wait pid (M.start argv w).0 in
                    ((untrack_child pid tracked, w2), r)
              ]).0.0
            ≡ is_tracked_child q children
      go (refused e) h = refl
      go (begun pid) h =
          let (p, n) = fresh argv w pid h in
          let one : int_eq pid q ≡ true
              → is_tracked_child pid children ≡ is_tracked_child q children =
            λ e. ap (λ x. is_tracked_child x children) ((int_eq_iff pid q).0 e) in
          is_tracked_child-untrack pid q (track_child pid children) p
          ∙ ground (arith, is_tracked_child-track pid q children p, int_eq_iff pid q, one, n)

  IsFresh-same : (a b : Children) → SameChildren a b → IsFresh M b → IsFresh M a
  IsFresh-same a b same fresh argv w pid h = let (p, n) = fresh argv w pid h in (p, same pid ∙ n)

  fall_back-SameChildren :
      (script_path : Text) (children : Children) (r : (Children × M.World) × Option ExecError)
      → IsFresh M children
      → SameChildren r.0.0 children
      → SameChildren (fall_back script_path r).0.0 children
  unfolding fall_back
  fall_back-SameChildren script_path children (s, none) fresh same = same
  fall_back-SameChildren script_path children ((c, w), some e) fresh same =
      if_elim {A = (Children × M.World) × Option ExecError} (λ r. SameChildren r.0.0 children)
        (is_not_executable_error e) _ _
        (λ _ q.
          run_tracked-SameChildren (shell_of w ∷ script_path ∷ []) c w
            (IsFresh-same c children same fresh) q
          ∙ same q)
        (λ _. same)

  -- Where a process that starts has a positive number that no tracked child has, `runScript` leaves the
  -- same children tracked as before, whether the script runs, fails, or is tried again in a shell.
  pub run_script-SameChildren :
      (script_path : Text) (children : Children) (w : M.World)
      → IsFresh M children
      → SameChildren (run_script script_path children w).0.0 children
  unfolding run_script
  run_script-SameChildren script_path children w fresh =
      fall_back-SameChildren script_path children _ fresh
        (run_tracked-SameChildren (script_path ∷ []) children _ fresh)
