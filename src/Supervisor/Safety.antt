-- ===== src/Supervisor/Safety.antt =====
-- The invariant through every event, panics excluded.
use go_overlay.Base.{
  ℕ, Text, ==_iff, ==_refl, Map, lookup, List, [], ◌∷◌, some, ◌≡◌, sym, ap, subst, arith,
}
use go_overlay.Base.Int.{ℤ, pos, to_ℕ}
use go_overlay.Config.{Service}
use go_overlay.Tracker.{Kind}
use go_overlay.Tracker.Marks.{poll-PollOf}
use go_overlay.Supervisor.{
  Caller, Launching, launch_in, Process, State, Waiting, Phase, name_of, update,
  remove_active_service, poll_dep, wait_in,
}
use go_overlay.Supervisor.Restart.{
  schedule_restart, increment_restart_count, reset_restart_count, restart_delay_of,
}
use go_overlay.Supervisor.Prepare.{new_process}
use go_overlay.Supervisor.Step.{take, Event, step, run, waiting_name, launching_name, timer_name}
use go_overlay.Supervisor.Counts.{count, count-append, count-take}
use go_overlay.Supervisor.Invariant.{
  IsValid, IsAbsent, graceful_shutdown-IsValid, trigger-IsValid, mark_dep-IsValid, update-IsValid,
  add_active_service-IsValid, remove_active_service-IsValid, lookup-update,
}
use go_overlay.Supervisor.Kept.{Kept, Holds, Holds-some, SameConfig}
use go_overlay.Supervisor.Kept.Steps.{run-Kept, step-Kept}

counts-IsValid : (c : Map ℕ) (s : State) → IsValid s → IsValid (record s { restart_counts = c })
counts-IsValid c s v = record {
  once = v.once;
  counted = v.counted;
  named = v.named;
  tracked = v.tracked;
  exit_code = v.exit_code;
  failing = v.failing;
  canceled = v.canceled;
}

schedule_restart-IsValid :
    (service : Service) (d : ℤ) (s : State)
    → IsAbsent service.name s
    → IsValid s
    → IsValid (schedule_restart service d s)
unfolding schedule_restart count
schedule_restart-IsValid service d s absent v = record {
  once = λ m. ground (
    arith,
    count-append timer_name m s.timers ((service, to_ℕ d) ∷ []),
    v.once m,
    ==_iff service.name m,
  );
  counted = v.counted;
  named = v.named;
  tracked = v.tracked;
  exit_code = v.exit_code;
  failing = v.failing;
  canceled = v.canceled;
}

repeat-IsValid :
    (service : Service) (s : State)
    → IsAbsent service.name s
    → IsValid s
    → IsValid (
        schedule_restart service
          (restart_delay_of service)
          (increment_restart_count service.name s))
unfolding increment_restart_count
repeat-IsValid service s absent v =
    schedule_restart-IsValid service _ _ absent (counts-IsValid _ s v)

reset-IsValid :
    (service : Service) (s : State)
    → IsAbsent service.name s
    → IsValid s
    → IsValid (schedule_restart service (pos 1) (reset_restart_count service.name s))
unfolding reset_restart_count
reset-IsValid service s absent v =
    schedule_restart-IsValid service _ _ absent (counts-IsValid _ s v)

pub leave-IsValid :
    (n : Text) (p : Process) (f : Process → Process) (s : State)
    → lookup n s.active ≡ some p
    → SameConfig f
    → IsValid s
    → Holds ⊥
        (λ t. IsAbsent (name_of p) t × IsValid t)
        (remove_active_service (name_of p) (update (name_of p) f s))
leave-IsValid n p f s e same v =
    let k = name_of p in
    let found : lookup k s.active ≡ some p =
      subst (λ j. lookup j s.active ≡ some p) (sym (v.named n p e)) e in
    let w = update-IsValid k f s (λ q. ap (λ c. c.name) (same q)) v in
    let (t, h, x, a) = remove_active_service-IsValid k (f p) _ (lookup-update k f p s found) w in
    rw h (a, x)

pub polled-IsValid :
    (k : Kind) (n m : Text) (s : State)
    → IsAbsent m s
    → IsValid s
    → IsAbsent m (poll_dep k n s).0 × IsValid (poll_dep k n s).0
unfolding poll_dep
polled-IsValid k n m s absent v = (
  absent,
  record {
    once = v.once;
    counted = v.counted;
    named = v.named;
    tracked = (poll-PollOf k n s.deps v.tracked).valid;
    exit_code = v.exit_code;
    failing = v.failing;
    canceled = v.canceled;
  },
)

wait_in-IsValid :
    (phase : Phase) (service : Service) (s : State)
    → IsAbsent service.name s
    → IsValid s
    → IsValid (wait_in phase service s)
unfolding wait_in count
wait_in-IsValid phase service s absent v = record {
  once = λ m. ground (arith, v.once m, ==_iff service.name m);
  counted = v.counted;
  named = v.named;
  tracked = v.tracked;
  exit_code = v.exit_code;
  failing = v.failing;
  canceled = v.canceled;
}

-- A service that leaves the list of the waiting ones is nowhere, and the rest is valid.
pub take_waiting :
    (n : Text) (s : State) (w : Waiting) (rest : List Waiting)
    → take waiting_name n s.waiting ≡ some (w, rest)
    → IsValid s
    → IsAbsent w.service.name (record s { waiting = rest }) × IsValid (record s { waiting = rest })
take_waiting n s w rest h v = (
  ground (arith, count-take waiting_name n n s.waiting rest w h, v.once n, ==_refl n),
  record {
    once = λ m. ground (arith, count-take waiting_name n m s.waiting rest w h, v.once m);
    counted = v.counted;
    named = v.named;
    tracked = v.tracked;
    exit_code = v.exit_code;
    failing = v.failing;
    canceled = v.canceled;
  },
)

launch_in-IsValid :
    (c : Caller) (service : Service) (s : State)
    → IsAbsent service.name s
    → IsValid s
    → IsValid (launch_in c service s)
unfolding launch_in count
launch_in-IsValid c service s absent v = record {
  once = λ m. ground (arith, v.once m, ==_iff service.name m);
  counted = v.counted;
  named = v.named;
  tracked = v.tracked;
  exit_code = v.exit_code;
  failing = v.failing;
  canceled = v.canceled;
}

pub take_launching :
    (n : Text) (s : State) (l : Launching) (rest : List Launching)
    → take launching_name n s.launching ≡ some (l, rest)
    → IsValid s
    → IsAbsent l.service.name (record s { launching = rest })
      × IsValid (record s { launching = rest })
take_launching n s l rest h v = (
  ground (arith, count-take launching_name n n s.launching rest l h, v.once n, ==_refl n),
  record {
    once = λ m. ground (arith, count-take launching_name n m s.launching rest l h, v.once m);
    counted = v.counted;
    named = v.named;
    tracked = v.tracked;
    exit_code = v.exit_code;
    failing = v.failing;
    canceled = v.canceled;
  },
)

pub take_timer :
    (n : Text) (s : State) (t : Service × ℕ) (rest : List (Service × ℕ))
    → take timer_name n s.timers ≡ some (t, rest)
    → IsValid s
    → IsAbsent (timer_name t) (record s { timers = rest }) × IsValid (record s { timers = rest })
take_timer n s t rest h v = (
  ground (arith, count-take timer_name n n s.timers rest t h, v.once n, ==_refl n),
  record {
    once = λ m. ground (arith, count-take timer_name n m s.timers rest t h, v.once m);
    counted = v.counted;
    named = v.named;
    tracked = v.tracked;
    exit_code = v.exit_code;
    failing = v.failing;
    canceled = v.canceled;
  },
)

pub IsValid-Kept :
    Kept ⊥ IsValid
      (λ service. IsAbsent service.name)
      (λ phase service. IsAbsent service.name)
      (λ service. IsAbsent service.name)
IsValid-Kept = record {
  graceful = graceful_shutdown-IsValid;
  trigger = trigger-IsValid;
  marks = λ k n s v. let (t, e, w) = mark_dep-IsValid k n s v in rw e w;
  polls = λ k n phase service s a v. polled-IsValid k n service.name s a v;
  updates = λ n f s same v. update-IsValid n f s (λ q. ap (λ c. c.name) (same q)) v;
  leaves = leave-IsValid;
  repeats = λ service e s x y a v. repeat-IsValid service s a v;
  requeues = reset-IsValid;
  takes = take_waiting;
  fires = take_timer;
  waits = wait_in-IsValid;
  begins = λ c service s d a v. launch_in-IsValid c service s a v;
  registers = take_launching;
  starts = λ c service s a v. add_active_service-IsValid (new_process c service) s a v;
  enters = λ service s a. a;
  scripted = λ service s a v. a;
  hears = λ service dep left s a v e. (a, a);
  lingered = λ service left s a. a;
  launches = λ service s a. a;
}

-- From a valid state every event leads to a valid state: no channel is closed twice, and the wait
-- group does not go below zero.
pub step-IsValid :
    (e : Event) (s : State) → IsValid s → (t : State) × (step e s ≡ some t) × IsValid t
step-IsValid e s v = Holds-some IsValid (step e s) (step-Kept IsValid-Kept e s v)

-- Whatever happens, the supervisor does not panic, and its state stays valid.
pub run-IsValid :
    (es : List Event) (s : State) → IsValid s → (t : State) × (run es s ≡ some t) × IsValid t
run-IsValid es s v = Holds-some IsValid (run es s) (run-Kept IsValid-Kept es s v)
