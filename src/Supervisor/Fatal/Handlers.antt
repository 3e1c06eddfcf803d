-- ===== src/Supervisor/Fatal/Handlers.antt =====
-- The exit code through the phases of `processService` of cmd/go-overlay/service.go.
use go_overlay.Base.{
  Text, ◌==◌, ==_iff, Bool, true, false, List, [], ◌∷◌, some, ◌≡◌, ◌↔◌, if◌then◌else◌, inl, inr,
  refl, subst, arith, ◌≤◌, Option-cases, Bool-cases, if_elim,
}
use go_overlay.Config.{Service}
use go_overlay.Tracker.{Kind, mark, ready, failed}
use go_overlay.Supervisor.{
  State, Caller, boot, restart, Phase, fresh, scripting, awaits, lingers, mark_dep, poll_dep,
  wait_in, launch_in,
}
use go_overlay.Supervisor.Prepare.{
  Launch, Started, skipped, refused, fails, starts, Signal, hears_ready, hears_failed, times_out,
  shuts_down, ticks, start_service, after_start, run_pre_script, fail_required, wait_for_dependency,
  linger, on_enter, on_script, on_signal, on_launch, on_abort,
}
use go_overlay.Supervisor.Kept.{Holds}
use go_overlay.Supervisor.Start.{pre_script_ok}
use go_overlay.Supervisor.Fatal.{
  FailsInScript, FailsAtStart, FailsUnderWay, Sets-same, SameCode, mark_dep-SameCode,
}
use go_overlay.Supervisor.Fatal.Steps.{SetsIn, same-SetsIn, then-SetsIn, fail_required-Sets}

pub on_enter-SameCode :
    (phase : Phase) (service : Service) (s : State) → SameCode s (on_enter phase service s)
unfolding on_enter wait_in
on_enter-SameCode fresh service s = ground arith
on_enter-SameCode scripting service s = refl
on_enter-SameCode (awaits l) service s = refl
on_enter-SameCode (lingers l) service s = refl

-- A mark after what leaves the exit code alone
pub marked :
    (k : Kind) (n : Text) (s t : State) → t.exit_code ≡ s.exit_code → SameCode s (mark_dep k n t)
marked k n s t h =
    subst (λ a. Holds Unit (λ u. u.exit_code ≡ a) (mark_dep k n t)) h (mark_dep-SameCode k n t)

-- A mark of a service, or none
if-SameCode :
    (b : Bool) (n : Text) (s t u : State)
    → t.exit_code ≡ s.exit_code
    → u.exit_code ≡ s.exit_code
    → SameCode s (if b then mark_dep failed n t else some u)
if-SameCode b n s t u h k = if_elim (SameCode s) b _ _ (λ _. marked failed n s t h) (λ _. k)

wait_for_dependency-SameCode :
    (signal : Signal) (dep : Text) (left : List Text) (service : Service) (s : State)
    → SameCode s (wait_for_dependency signal dep left service s)
unfolding wait_for_dependency poll_dep wait_in
wait_for_dependency-SameCode hears_ready dep left service s = ground arith
wait_for_dependency-SameCode hears_failed dep left service s = if-SameCode _ _ s _ _ refl refl
wait_for_dependency-SameCode times_out dep left service s = mark_dep-SameCode failed service.name _
wait_for_dependency-SameCode shuts_down dep left service s = if-SameCode _ _ s _ _ refl refl
wait_for_dependency-SameCode ticks dep left service s = refl

linger-SameCode :
    (signal : Signal) (left : List Text) (service : Service) (s : State)
    → SameCode s (linger signal left service s)
unfolding linger wait_in
linger-SameCode times_out left service s = refl
linger-SameCode shuts_down left service s = if-SameCode _ _ s _ _ refl refl
linger-SameCode hears_ready left service s = refl
linger-SameCode hears_failed left service s = refl
linger-SameCode ticks left service s = refl

pub on_signal-SameCode :
    (signal : Signal) (phase : Phase) (service : Service) (s : State)
    → SameCode s (on_signal signal phase service s)
unfolding on_signal wait_in
on_signal-SameCode signal (awaits (dep ∷ left)) service s =
    wait_for_dependency-SameCode signal dep left service s
on_signal-SameCode signal (lingers left) service s = linger-SameCode signal left service s
on_signal-SameCode signal (awaits []) service s = refl
on_signal-SameCode signal fresh service s = refl
on_signal-SameCode signal scripting service s = refl

pub on_script-SetsIn :
    (succeeds : Bool) (phase : Phase) (service : Service) (s : State)
    → s.exit_code ≤ 1
    → SetsIn (FailsInScript succeeds phase service) s (on_script succeeds phase service s)
unfolding on_script run_pre_script wait_in
on_script-SetsIn true scripting service s h =
    rw (pre_script_ok service s) (Sets-same _ _ _ refl (λ f. cc f.0))
on_script-SetsIn false scripting service s h = elim (Bool-cases (service.pre_script == [])) [
  | inl e ↦
      rw (e, run_pre_script) (Sets-same _ _ _ refl (λ f. f.2 ((==_iff service.pre_script []).0 e)))
  | inr e ↦
      rw (e, run_pre_script)
        (then-SetsIn _ s (fail_required service s) _
          (fail_required-Sets _ service s h (
            λ r. (refl, refl, λ n. ground (arith, e, (==_iff service.pre_script []).1 n), r),
            λ f. f.3,
          ))
          (mark_dep-SameCode failed service.name _))
]
on_script-SetsIn succeeds fresh service s h = Sets-same _ _ _ refl (λ f. cc f.1)
on_script-SetsIn succeeds (awaits l) service s h = Sets-same _ _ _ refl (λ f. cc f.1)
on_script-SetsIn succeeds (lingers l) service s h = Sets-same _ _ _ refl (λ f. cc f.1)

skipped_same : (service : Service) (s : State) → SameCode s (after_start skipped service s)
unfolding after_start
skipped_same service s =
    if_elim (SameCode s) service.oneshot _ _ (λ _. mark_dep-SameCode ready service.name s)
      (λ _. refl)

-- A service that could not be started
refused-SetsIn :
    (e : Text) (service : Service) (s : State)
    → s.exit_code ≤ 1
    → (F : Type 0) → (F ↔ (service.required ≡ true))
    → SetsIn F s (after_start (refused e) service s)
unfolding after_start mark_dep
refused-SetsIn e service s h F f = elim (Option-cases (mark failed service.name s.deps)) [
  | inl i ↦ rw (i, mark_dep) tt
  | inr (deps, i) ↦
      rw (i, mark_dep) (fail_required-Sets _ service (record s { deps = deps }) h (f.1, f.0))
]

pub on_launch-SetsIn :
    (launch : Launch) (phase : Phase) (service : Service) (s : State)
    → s.exit_code ≤ 1
    → SetsIn (FailsAtStart launch phase service s) s (on_launch launch phase service s)
unfolding on_launch start_service after_start wait_in launch_in
on_launch-SetsIn launch fresh service s h = Sets-same _ _ _ refl (λ f. cc f.1)
on_launch-SetsIn launch scripting service s h = Sets-same _ _ _ refl (λ f. cc f.1)
on_launch-SetsIn launch (lingers l) service s h = Sets-same _ _ _ refl (λ f. cc f.1)
on_launch-SetsIn launch (awaits (x ∷ l)) service s h = Sets-same _ _ _ refl (λ f. cc f.1)
on_launch-SetsIn (fails e) (awaits []) service s h =
    if_elim
      (λ (r : State × Started).
        SetsIn (FailsAtStart (fails e) (awaits []) service s) s (after_start r.1 service r.0))
      s.shut_down _ _
      (λ d. same-SetsIn _ s _ (skipped_same service s) (λ f. ground (arith, f.2, d)))
      (λ d. refused-SetsIn e service s h _ (λ f. f.3, λ r. ((e, refl), refl, d, r)))
on_launch-SetsIn starts (awaits []) service s h =
    if_elim
      (λ (r : State × Started).
        SetsIn (FailsAtStart starts (awaits []) service s) s (after_start r.1 service r.0))
      s.shut_down _ _ (λ d. same-SetsIn _ s _ (skipped_same service s) (λ f. cc f.0.1))
      (λ d. Sets-same _ _ _ refl (λ f. cc f.0.1))

pub on_abort-SetsIn :
    (e : Text) (c : Caller) (service : Service) (s : State)
    → s.exit_code ≤ 1
    → SetsIn (FailsUnderWay c service) s (on_abort e c service s)
unfolding on_abort
on_abort-SetsIn e restart service s h = Sets-same _ _ _ refl (λ f. f)
on_abort-SetsIn e boot service s h = refused-SetsIn e service s h _ (λ r. r, λ r. r)
