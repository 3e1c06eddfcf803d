-- ===== src/Supervisor/Apart/Events.antt =====
-- The marks of the services through the handlers of the supervisor's events.
use go_overlay.Base.{
  Text, ◌==◌, Bool, true, false, List, [], ◌∷◌, some, if◌then◌else◌, if_elim, ◌≡◌, refl, sym, subst,
  arith,
}
use go_overlay.Config.{Service}
use go_overlay.Tracker.{Kind, ready, failed}
use go_overlay.Supervisor.{
  State, Caller, boot, restart, Phase, fresh, scripting, awaits, lingers, mark_dep, poll_dep,
  wait_in, launch_in, trigger_service_failure_shutdown, graceful_shutdown,
}
use go_overlay.Supervisor.Prepare.{
  Launch, Started, refused, up, fails, starts, Signal, hears_ready, hears_failed, times_out,
  shuts_down, ticks, start_service, after_start, run_pre_script, fail_required, wait_for_dependency,
  wait_after_dependency, linger, on_enter, on_script, on_signal, on_launch, on_abort,
}
use go_overlay.Supervisor.Kept.{Holds, Holds-bind}
use go_overlay.Supervisor.Safety.{polled-IsValid}
use go_overlay.Supervisor.Start.{pre_script_ok}
use go_overlay.Supervisor.Invariant.{IsAbsent, IsValid, trigger-IsValid}
use go_overlay.Supervisor.Apart.{
  Unmarked, Pending, IsApart, mark_dep-IsApart, absent-MayMark, trigger-IsApart, poll_dep-IsApart,
}

-- A service that is nowhere and has no mark: the state keeps its marks apart, and it may get one.
pub record Idle (n : Text) (s : State) : Type 0 where
  pub valid : IsValid s
  pub absent : IsAbsent n s
  pub unmarked : Unmarked n s.deps
  pub marks : IsApart s

Idle-mark : (k : Kind) (n : Text) (s : State) → Idle n s → Holds Unit IsApart (mark_dep k n s)
Idle-mark k n s i =
    mark_dep-IsApart k n s
      (absent-MayMark k n s i.absent i.valid.tracked i.valid.named (λ _. i.unmarked.1)
        (λ _. i.unmarked.0))
      i.marks

Idle-wait :
    (phase : Phase) (service : Service) (s : State)
    → Idle service.name s
    → IsApart (wait_in phase service s)
unfolding wait_in
Idle-wait phase service s i = record {
  tracked = i.marks.tracked;
  apart = i.marks.apart;
  waiting = (i.unmarked, i.marks.waiting);
  launching = i.marks.launching;
  active = i.marks.active;
  timers = i.marks.timers;
}

Idle-poll : (k : Kind) (n m : Text) (s : State) → Idle m s → Idle m (poll_dep k n s).0
Idle-poll k n m s i =
    let (a, v) = polled-IsValid k n m s i.absent i.valid in
    let (u, w) = poll_dep-IsApart k n m s i.unmarked i.marks in
    record { valid = v; absent = a; unmarked = u; marks = w }

pub launch_in-IsApart :
    (c : Caller) (service : Service) (s : State)
    → Pending c service s.deps
    → IsApart s
    → IsApart (launch_in c service s)
unfolding launch_in
launch_in-IsApart c service s g h = record {
  tracked = h.tracked;
  apart = h.apart;
  waiting = h.waiting;
  launching = (g, h.launching);
  active = h.active;
  timers = h.timers;
}

fail_required-IsApart :
    (service : Service) (s : State) → IsApart s → IsApart (fail_required service s)
fail_required-IsApart service s h =
    if_elim IsApart service.required _ _ (λ _. trigger-IsApart s h) (λ _. h)

trigger-deps : (s : State) → (trigger_service_failure_shutdown s).deps ≡ s.deps
unfolding trigger_service_failure_shutdown graceful_shutdown
trigger-deps s = ground arith

trigger-IsAbsent :
    (n : Text) (s : State) → IsAbsent n s → IsAbsent n (trigger_service_failure_shutdown s)
unfolding trigger_service_failure_shutdown graceful_shutdown
trigger-IsAbsent n s a = if_elim (IsAbsent n) s.once_done _ _ (λ _. a) (λ _. a)

Idle-fail : (service : Service) (n : Text) (s : State) → Idle n s → Idle n (fail_required service s)
Idle-fail service n s i =
    if_elim (Idle n) service.required _ _
      (λ _. record {
        valid = trigger-IsValid s i.valid;
        absent = trigger-IsAbsent n s i.absent;
        unmarked = subst (Unmarked n) (sym (trigger-deps s)) i.unmarked;
        marks = trigger-IsApart s i.marks;
      })
      (λ _. i)

pub on_enter-IsApart :
    (phase : Phase) (service : Service) (s : State)
    → Idle service.name s
    → Holds Unit IsApart (on_enter phase service s)
unfolding on_enter
on_enter-IsApart fresh service s i =
    if_elim IsApart s.shut_down _ _ (λ _. i.marks) (λ _. Idle-wait scripting service s i)
on_enter-IsApart scripting service s i = Idle-wait scripting service s i
on_enter-IsApart (awaits l) service s i = Idle-wait (awaits l) service s i
on_enter-IsApart (lingers l) service s i = Idle-wait (lingers l) service s i

pub on_script-IsApart :
    (succeeds : Bool) (phase : Phase) (service : Service) (s : State)
    → Idle service.name s
    → Holds Unit IsApart (on_script succeeds phase service s)
unfolding on_script run_pre_script
on_script-IsApart true scripting service s i =
    rw (pre_script_ok service s) (Idle-wait (awaits service.depends_on) service s i)
on_script-IsApart false scripting service s i =
    if_elim
      (λ (r : State × Bool). Holds Unit IsApart (
        if r.1
        then some (wait_in (awaits service.depends_on) service r.0)
        else mark_dep failed service.name r.0))
      (service.pre_script == []) _ _ (λ _. Idle-wait (awaits service.depends_on) service s i)
      (λ _.
        Idle-mark failed service.name (fail_required service s)
          (Idle-fail service service.name s i))
on_script-IsApart succeeds fresh service s i = Idle-wait fresh service s i
on_script-IsApart succeeds (awaits l) service s i = Idle-wait (awaits l) service s i
on_script-IsApart succeeds (lingers l) service s i = Idle-wait (lingers l) service s i

-- A failed wait marks the service, and any other goes on.
fail_or_wait :
    (b : Bool) (phase : Phase) (service : Service) (s : State)
    → Idle service.name s
    → Holds Unit IsApart
        (if b then mark_dep failed service.name s else some (wait_in phase service s))
fail_or_wait b phase service s i =
    if_elim (Holds Unit IsApart) b _ _ (λ _. Idle-mark failed service.name s i)
      (λ _. Idle-wait phase service s i)

polled_twice :
    (dep n : Text) (s : State) → Idle n s → Idle n (poll_dep failed dep (poll_dep ready dep s).0).0
polled_twice dep n s i = Idle-poll failed dep n (poll_dep ready dep s).0 (Idle-poll ready dep n s i)

wait_for_dependency-IsApart :
    (signal : Signal) (dep : Text) (left : List Text) (service : Service) (s : State)
    → Idle service.name s
    → Holds Unit IsApart (wait_for_dependency signal dep left service s)
unfolding wait_for_dependency
wait_for_dependency-IsApart hears_ready dep left service s i =
    let s2 = (poll_dep failed dep (poll_dep ready dep s).0).0 in
    let j = polled_twice dep service.name s i in
    if_elim IsApart (poll_dep ready dep s).1 _ _
      (λ _. Idle-wait (wait_after_dependency service dep left) service s2 j)
      (λ _. Idle-wait (awaits (dep ∷ left)) service s2 j)
wait_for_dependency-IsApart hears_failed dep left service s i =
    fail_or_wait (poll_dep failed dep (poll_dep ready dep s).0).1 (awaits (dep ∷ left)) service _
      (polled_twice dep service.name s i)
wait_for_dependency-IsApart times_out dep left service s i =
    Idle-mark failed service.name _ (polled_twice dep service.name s i)
wait_for_dependency-IsApart shuts_down dep left service s i =
    fail_or_wait s.shut_down (awaits (dep ∷ left)) service _ (polled_twice dep service.name s i)
wait_for_dependency-IsApart ticks dep left service s i =
    Idle-wait (awaits (dep ∷ left)) service _ (polled_twice dep service.name s i)

linger-IsApart :
    (signal : Signal) (left : List Text) (service : Service) (s : State)
    → Idle service.name s
    → Holds Unit IsApart (linger signal left service s)
unfolding linger
linger-IsApart times_out left service s i = Idle-wait (awaits left) service s i
linger-IsApart shuts_down left service s i = fail_or_wait s.shut_down (lingers left) service s i
linger-IsApart hears_ready left service s i = Idle-wait (lingers left) service s i
linger-IsApart hears_failed left service s i = Idle-wait (lingers left) service s i
linger-IsApart ticks left service s i = Idle-wait (lingers left) service s i

pub on_signal-IsApart :
    (signal : Signal) (phase : Phase) (service : Service) (s : State)
    → Idle service.name s
    → Holds Unit IsApart (on_signal signal phase service s)
unfolding on_signal
on_signal-IsApart signal (awaits (dep ∷ left)) service s i =
    wait_for_dependency-IsApart signal dep left service s i
on_signal-IsApart signal (lingers left) service s i = linger-IsApart signal left service s i
on_signal-IsApart signal (awaits []) service s i = Idle-wait (awaits []) service s i
on_signal-IsApart signal fresh service s i = Idle-wait fresh service s i
on_signal-IsApart signal scripting service s i = Idle-wait scripting service s i

pub on_launch-IsApart :
    (launch : Launch) (phase : Phase) (service : Service) (s : State)
    → Idle service.name s
    → Holds Unit IsApart (on_launch launch phase service s)
unfolding on_launch start_service after_start
on_launch-IsApart launch fresh service s i = Idle-wait fresh service s i
on_launch-IsApart launch scripting service s i = Idle-wait scripting service s i
on_launch-IsApart launch (lingers l) service s i = Idle-wait (lingers l) service s i
on_launch-IsApart launch (awaits (x ∷ l)) service s i = Idle-wait (awaits (x ∷ l)) service s i
on_launch-IsApart launch (awaits []) service s i =
    if_elim (λ (r : State × Started). Holds Unit IsApart (after_start r.1 service r.0)) s.shut_down
      _ _
      (λ _.
        if_elim (Holds Unit IsApart) service.oneshot _ _ (λ _. Idle-mark ready service.name s i)
          (λ _. i.marks))
      (λ _. begun launch)
  where
    begun :
        (l : Launch)
        → Holds Unit IsApart (
            let (t, r) = elim l as (λ _. State × Started) [
              | fails e ↦ (s, refused e)
              | starts ↦ (launch_in boot service s, up)
            ] in
            after_start r service t)
    begun (fails e) =
        Holds-bind Unit IsApart IsApart (mark_dep failed service.name s) _
          (Idle-mark failed service.name s i) (λ t a. fail_required-IsApart service t a)
    begun starts =
        launch_in-IsApart boot service s ((λ _. i.unmarked.1, λ _ _. i.unmarked), λ _. i.unmarked)
          i.marks

-- A start that was under way and fails
pub on_abort-IsApart :
    (e : Text) (c : Caller) (service : Service) (s : State)
    → Pending c service s.deps
    → IsAbsent service.name s
    → IsValid s
    → IsApart s
    → Holds Unit IsApart (on_abort e c service s)
unfolding on_abort after_start
on_abort-IsApart e restart service s g absent v h = h
on_abort-IsApart e boot service s g absent v h =
    let i : Idle service.name s = record {
      valid = v;
      absent = absent;
      unmarked = g.1 refl;
      marks = h;
    } in
    Holds-bind Unit IsApart IsApart (mark_dep failed service.name s) _
      (Idle-mark failed service.name s i) (λ t a. fail_required-IsApart service t a)
