-- ===== src/Supervisor/Kept.antt =====
-- An interface for what the supervisor's events keep: a property of the state with a law for each
-- operation that the events are made of. `Kept/Steps` leads it through every event.
pub mod Parts
pub mod Steps
use go_overlay.Base.{
  ℕ, Text, ◌==◌, lookup, Bool, true, false, List, [], ◌∷◌, Option, none, some, ◌≡◌, refl, ◌&&◌,
}
use go_overlay.Base.Int.{pos}
use go_overlay.Config.{Service}
use go_overlay.Tracker.{Kind, ready}
use go_overlay.Supervisor.{
  Launching, launch_in, Process, State, Caller, Waiting, Phase, fresh, scripting, awaits, lingers,
  name_of, update, add_active_service, remove_active_service, mark_dep, poll_dep, wait_in,
  graceful_shutdown, trigger_service_failure_shutdown, ◌>>=◌,
}
use go_overlay.Supervisor.Restart.{
  schedule_restart, reset_restart_count, increment_restart_count, should_restart, is_exhausted,
  restart_delay_of,
}
use go_overlay.Supervisor.Prepare.{new_process}
use go_overlay.Supervisor.Step.{take, waiting_name, timer_name, launching_name}

-- What holds of a result, and `N` where there is none.
abbrev pub Holds {ℓ} : {A : Type ℓ} → Type 0 → (A → Type 0) → Option A → Type 0
Holds N P none = N
Holds N P (some a) = P a

pub Holds-bind {ℓ κ} :
    {A : Type ℓ} {B : Type κ} (N : Type 0) (P : A → Type 0) (Q : B → Type 0) (o : Option A)
    (f : A → Option B)
    → Holds N P o
    → ((a : A) → P a → Holds N Q (f a))
    → Holds N Q (o >>= f)
Holds-bind N P Q none f h k = h
Holds-bind N P Q (some a) f h k = k a h

-- Whoever is told that there is no result but under a contradiction has the result.
pub Holds-some {ℓ} :
    {A : Type ℓ} (P : A → Type 0) (o : Option A) → Holds ⊥ P o → (a : A) × (o ≡ some a) × P a
Holds-some P none h = absurd h
Holds-some P (some a) h = (a, refl, h)

-- A change of the process that leaves its configuration alone.
abbrev pub SameConfig : (Process → Process) → Type 0
SameConfig f = (p : Process) → (f p).config ≡ p.config

-- `P` holds of the state between two events. `Out` is known of a service that an event has taken out
-- of the state, `OutW` of one whose preparations are at a phase, and `OutL` of one whose `startService`
-- was under way.
pub record Kept (N : Type 0) (P : State → Type 0) (Out : Service → State → Type 0)
    (OutW : Phase → Service → State → Type 0) (OutL : Service → State → Type 0) : Type 0 where
  pub graceful : (s : State) → P s → P (graceful_shutdown s)
  pub trigger : (s : State) → P s → P (trigger_service_failure_shutdown s)
  pub marks : (k : Kind) (n : Text) (s : State) → P s → Holds N P (mark_dep k n s)
  pub polls :
      (k : Kind) (n : Text) (phase : Phase) (service : Service) (s : State)
      → OutW phase service s
      → P s
      → OutW phase service (poll_dep k n s).0 × P (poll_dep k n s).0
  pub updates :
      (n : Text) (f : Process → Process) (s : State) → SameConfig f → P s → P (update n f s)
  pub leaves :
      (n : Text) (p : Process) (f : Process → Process) (s : State)
      → lookup n s.active ≡ some p
      → SameConfig f
      → P s
      → Holds N
          (λ t. Out p.config t × P t)
          (remove_active_service (name_of p) (update (name_of p) f s))
  pub repeats :
      (service : Service) (e : Option Text) (s : State)
      → (should_restart service e && is_exhausted service s) ≡ false
      → should_restart service e ≡ true
      → Out service s
      → P s
      → P (
          schedule_restart service
            (restart_delay_of service)
            (increment_restart_count service.name s))
  pub requeues :
      (service : Service) (s : State)
      → Out service s
      → P s
      → P (schedule_restart service (pos 1) (reset_restart_count service.name s))
  pub takes :
      (n : Text) (s : State) (w : Waiting) (rest : List Waiting)
      → take waiting_name n s.waiting ≡ some (w, rest)
      → P s
      → OutW w.phase w.service (record s { waiting = rest }) × P (record s { waiting = rest })
  pub fires :
      (n : Text) (s : State) (t : Service × ℕ) (rest : List (Service × ℕ))
      → take timer_name n s.timers ≡ some (t, rest)
      → P s
      → Out t.0 (record s { timers = rest }) × P (record s { timers = rest })
  pub waits :
      (phase : Phase) (service : Service) (s : State)
      → OutW phase service s
      → P s
      → P (wait_in phase service s)
  pub begins :
      (c : Caller) (service : Service) (s : State)
      → s.shut_down ≡ false
      → Out service s
      → P s
      → P (launch_in c service s)
  pub registers :
      (n : Text) (s : State) (l : Launching) (rest : List Launching)
      → take launching_name n s.launching ≡ some (l, rest)
      → P s
      → OutL l.service (record s { launching = rest }) × P (record s { launching = rest })
  pub starts :
      (c : Caller) (service : Service) (s : State)
      → OutL service s
      → P s
      → P (add_active_service (new_process c service) s)
  pub enters : (service : Service) (s : State) → OutW fresh service s → OutW scripting service s
  pub scripted :
      (service : Service) (s : State)
      → OutW scripting service s
      → P s
      → OutW (awaits service.depends_on) service s
  pub hears :
      (service : Service) (dep : Text) (left : List Text) (s : State)
      → OutW (awaits (dep ∷ left)) service s
      → P s
      → (poll_dep ready dep s).1 ≡ true
      → OutW (awaits left) service s × OutW (lingers left) service s
  pub lingered :
      (service : Service) (left : List Text) (s : State)
      → OutW (lingers left) service s
      → OutW (awaits left) service s
  pub launches : (service : Service) (s : State) → OutW (awaits []) service s → Out service s
