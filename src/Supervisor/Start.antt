-- ===== src/Supervisor/Start.antt =====
-- The start of one service whose dependencies were marked ready, where its script succeeds and its
-- command starts: the way of `processService` of cmd/go-overlay/service.go through its phases.
pub mod Oneshot
pub mod One
pub mod All
pub mod Accepted
use go_overlay.Base.{
  ℕ, Text, ◌==◌, ==_refl, ==_iff, lookup, lookup-insert, Bool, true, false, List, [], ◌∷◌, Option,
  none, some, if◌then◌else◌, if_elim, ◌≡◌, ◌≢◌, ◌∙◌, refl, sym, ap, subst, arith, inl, inr, Memᴰ,
  Bool-cases, Option-cases,
}
use go_overlay.Base.Int.{above}
use go_overlay.Config.{Service}
use go_overlay.Tracker.{Kind, ready, failed, Tracker, is_marked, mark, poll}
use go_overlay.Tracker.Invariant as Tracked
use go_overlay.Tracker.Marks.{mark-MarkOf, poll-PollOf}
use go_overlay.Supervisor.{
  Process, State, boot, Waiting, Phase, fresh, scripting, awaits, lingers, name_of, update,
  add_active_service, set_state, starting, running, mark_dep, poll_dep, wait_in, launch_in,
}
use go_overlay.Supervisor.Restart.{restart_count}
use go_overlay.Supervisor.Prepare.{
  Started, starts, hears_ready, times_out, new_process, start_service, register_service,
  after_start, run_pre_script, wait_time, wait_after_dependency, wait_for_dependency, linger,
  on_enter, on_script, on_signal, on_launch,
}
use go_overlay.Supervisor.Step.{
  Event, enters, scripted, hears, launches, registers, take, on_waiting, step, waiting_name,
}
use go_overlay.Supervisor.Invariant.{IsValid}
use go_overlay.Supervisor.Reach.{Reach, reach_here, reach_step, reach_then, stepped-IsValid}

-- What is ready or active in `s` is so in `t`.
pub record Grows (s t : State) : Type 0 where
  pub marks : (n : Text) → is_marked ready n s.deps ≡ true → is_marked ready n t.deps ≡ true
  pub active : (n : Text) → lookup n s.active ≢ none → lookup n t.active ≢ none

pub Grows-refl : (s : State) → Grows s s
Grows-refl s = record { marks = λ n h. h; active = λ n h. h }

pub Grows-trans : (s t u : State) → Grows s t → Grows t u → Grows s u
Grows-trans s t u g h = record {
  marks = λ n m. h.marks n (g.marks n m);
  active = λ n m. h.active n (g.active n m);
}

-- The service is the first that waits, at this phase, and the supervisor is valid and not shut down.
pub record At (phase : Phase) (service : Service) (rest : List Waiting) (s0 s : State)
    : Type 0 where
  pub waiting : s.waiting ≡ record { service = service; phase = phase } ∷ rest
  pub calm : s.shut_down ≡ false
  pub valid : IsValid s
  pub grows : Grows s0 s
  pub counts : s.restart_counts ≡ s0.restart_counts

-- The service has started, and it runs, or is a oneshot that has ended.
pub record HasStarted (service : Service) (rest : List Waiting) (s0 t : State) : Type 0 where
  pub waiting : t.waiting ≡ rest
  pub calm : t.shut_down ≡ false
  pub valid : IsValid t
  pub grows : Grows s0 t
  pub counts : (n : Text) → n ≢ service.name → restart_count n t ≡ restart_count n s0
  pub was_ready : is_marked ready service.name t.deps ≡ true
  pub is_active : service.oneshot ≡ false → lookup service.name t.active ≢ none

pub take_found :
    (n : Text) (go : Phase → Service → State → Option State) (w : Waiting) (rest : List Waiting)
    (s : State)
    → take waiting_name n s.waiting ≡ some (w, rest)
    → on_waiting n go s ≡ go w.phase w.service (record s { waiting = rest })
unfolding on_waiting
take_found n go w rest s h = rw (h, on_waiting) refl

pub take_first :
    (phase : Phase) (service : Service) (rest ws : List Waiting)
    → ws ≡ record { service = service; phase = phase } ∷ rest
    → take waiting_name service.name ws ≡ some (record { service = service; phase = phase }, rest)
unfolding take
take_first phase service rest ws h = rw h (ground (arith, ==_refl service.name))

pub pre_script_ok : (service : Service) (s : State) → run_pre_script true service s ≡ (s, true)
unfolding run_pre_script
pre_script_ok service s =
    if_elim {A = State × Bool} (λ r. r ≡ (s, true)) (service.pre_script == []) _ _ (λ _. refl)
      (λ _. refl)

-- The state after both polls of a dependency
abbrev pub polled : Text → State → State
polled dep s = (poll_dep failed dep (poll_dep ready dep s).0).0

pub record Polls (dep : Text) (s : State) : Type 0 where
  pub waiting : (polled dep s).waiting ≡ s.waiting
  pub calm : (polled dep s).shut_down ≡ s.shut_down
  pub marks : (n : Text) → is_marked ready n (polled dep s).deps ≡ is_marked ready n s.deps
  pub active : (polled dep s).active ≡ s.active
  pub counts : (polled dep s).restart_counts ≡ s.restart_counts
  pub answer : (poll_dep ready dep s).1 ≡ is_marked ready dep s.deps

pub polled-Polls : (dep : Text) (s : State) → Tracked.IsValid s.deps → Polls dep s
unfolding poll_dep
polled-Polls dep s v =
    let first = poll-PollOf ready dep s.deps v in
    let second = poll-PollOf failed dep (poll ready dep s.deps).0 first.valid in
    record {
      waiting = refl;
      calm = refl;
      marks = λ n. second.marks ready n ∙ first.marks ready n;
      active = refl;
      counts = refl;
      answer = first.answer;
    }

pub hears_it :
    (dep : Text) (left : List Text) (service : Service) (s : State)
    → (poll_dep ready dep s).1 ≡ true
    → wait_for_dependency hears_ready dep left service s
      ≡ some (wait_in (wait_after_dependency service dep left) service (polled dep s))
unfolding wait_for_dependency
hears_it dep left service s h = rw h refl

-- The state when the process of the service runs
abbrev pub with_process : Service → State → State
with_process service s =
    update service.name (set_state running) (add_active_service (new_process boot service) s)

pub record Runs (service : Service) (s t : State) : Type 0 where
  pub deps : t.deps ≡ s.deps
  pub waiting : t.waiting ≡ s.waiting
  pub calm : t.shut_down ≡ s.shut_down
  pub counts : t.restart_counts ≡ s.restart_counts
  pub active : (n : Text) → lookup n s.active ≢ none → lookup n t.active ≢ none
  pub is_active : lookup service.name t.active ≢ none

pub update-Runs :
    (service : Service) (p : Process) (s : State)
    → lookup service.name s.active ≡ some p
    → Runs service s (update service.name (set_state running) s)
unfolding update
update-Runs service p s h =
    rw (h, update)
      (record {
        deps = refl;
        waiting = refl;
        calm = refl;
        counts = refl;
        active =
            λ n m e. ground (arith, lookup-insert service.name n (set_state running p) s.active, m);
        is_active = λ e. ground (
          arith,
          lookup-insert service.name service.name (set_state running p) s.active,
          ==_refl service.name,
        );
      })

pub with_process-Runs : (service : Service) (s : State) → Runs service s (with_process service s)
unfolding add_active_service
with_process-Runs service s =
    let p = set_state starting (new_process boot service) in
    let t = add_active_service (new_process boot service) s in
    let h : lookup service.name t.active ≡ some p =
      ground (arith, lookup-insert service.name service.name p s.active, ==_refl service.name) in
    let r = update-Runs service p t h in
    record {
      deps = r.deps;
      waiting = r.waiting;
      calm = r.calm;
      counts = r.counts;
      active = λ n m. r.active n (λ e. ground (arith, lookup-insert service.name n p s.active, m));
      is_active = r.is_active;
    }

pub if_false {ℓ} : {A : Type ℓ} (b : Bool) (x y : A) → b ≡ false → (if b then x else y) ≡ y
if_false b x y h = rw h refl

pub launch_ok :
    (service : Service) (s : State)
    → s.shut_down ≡ false
    → on_launch starts (awaits []) service s ≡ some (launch_in boot service s)
unfolding on_launch start_service after_start
launch_ok service s c =
    ap (λ (q : State × Started). after_start q.1 service q.0) (if_false s.shut_down _ _ c)

-- The process that was just started becomes active.
pub register_ok :
    (service : Service) (s : State) (o : Option State)
    → (if service.oneshot
        then some (with_process service s)
        else mark_dep ready service.name (with_process service s))
      ≡ o
    → step (registers service.name) (launch_in boot service s) ≡ o
unfolding step take launch_in register_service
register_ok service s o m = rw (step, take, ==_refl service.name) m

pub mark_ok :
    (k : Kind) (n : Text) (s : State) (d : Tracker)
    → mark k n s.deps ≡ some d
    → mark_dep k n s ≡ some (record s { deps = d })
unfolding mark_dep
mark_ok k n s d h = rw h refl
