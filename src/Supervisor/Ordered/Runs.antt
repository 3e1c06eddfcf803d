-- ===== src/Supervisor/Ordered/Runs.antt =====
-- The order of the start through the events of the supervisor.
use Prim.{Unit, tt}
use go_overlay.Base.{
  ℕ, Text, lookup-insert_elim, true, List, [], ◌∷◌, some, ◌≡◌, ◌∙◌, refl, sym, subst, inl, inr,
  All-put, Memᴰ-cons,
}
use go_overlay.Config.{Service}
use go_overlay.Base.Int.{ℤ, pos}
use go_overlay.Tracker.{Tracker, ready, is_marked}
use go_overlay.Tracker.Marks.{poll-PollOf}
use go_overlay.Supervisor.{
  Caller, Launching, launch_in, Process, State, Waiting, Phase, name_of, add_active_service,
  poll_dep, wait_in, set_state, starting,
}
use go_overlay.Supervisor.Restart.{
  schedule_restart, increment_restart_count, reset_restart_count, restart_delay_of,
}
use go_overlay.Supervisor.Prepare.{new_process}
use go_overlay.Supervisor.Step.{launching_name, take, Event, run, waiting_name, timer_name}
use go_overlay.Supervisor.Counts.{All-take}
use go_overlay.Supervisor.Kept.{Kept, Holds}
use go_overlay.Supervisor.Kept.Steps.{run-Kept}
use mathlib.Core.List.Memᴰ
use go_overlay.Supervisor.Ordered.{
  IsDue, IsLeft, HasReached, IsOrdered, same, graceful-IsOrdered, trigger-IsOrdered,
  mark_dep-IsOrdered, poll_dep-IsOrdered, update-IsOrdered, remove-IsOrdered, update-deps,
}

schedule_restart-IsOrdered :
    (service : Service) (delay : ℤ) (s : State)
    → IsDue service s.deps
    → IsOrdered s
    → IsOrdered (schedule_restart service delay s)
unfolding schedule_restart
schedule_restart-IsOrdered service delay s due o = record {
  tracked = o.tracked;
  waiting = o.waiting;
  active = o.active;
  timers = All-put (λ t. IsDue t.0 s.deps) s.timers _ o.timers due;
  launching = o.launching;
}

repeat-IsOrdered :
    (service : Service) (s : State)
    → IsDue service s.deps
    → IsOrdered s
    → IsOrdered (
        schedule_restart service
          (restart_delay_of service)
          (increment_restart_count service.name s))
unfolding increment_restart_count
repeat-IsOrdered service s due o =
    schedule_restart-IsOrdered service _ _ due (same s _ refl refl refl refl refl o)

requeue-IsOrdered :
    (service : Service) (s : State)
    → IsDue service s.deps
    → IsOrdered s
    → IsOrdered (schedule_restart service (pos 1) (reset_restart_count service.name s))
unfolding reset_restart_count
requeue-IsOrdered service s due o =
    schedule_restart-IsOrdered service _ _ due (same s _ refl refl refl refl refl o)

take_waiting :
    (n : Text) (s : State) (w : Waiting) (rest : List Waiting)
    → take waiting_name n s.waiting ≡ some (w, rest)
    → IsOrdered s
    → HasReached w.phase w.service s.deps × IsOrdered (record s { waiting = rest })
take_waiting n s w rest e o =
    let (h, a) =
      All-take (λ x. HasReached x.phase x.service s.deps) waiting_name n s.waiting rest w e
        o.waiting in
    (
      h,
      record {
        tracked = o.tracked;
        waiting = a;
        active = o.active;
        timers = o.timers;
        launching = o.launching;
      },
    )

take_timer :
    (n : Text) (s : State) (t : Service × ℕ) (rest : List (Service × ℕ))
    → take timer_name n s.timers ≡ some (t, rest)
    → IsOrdered s
    → IsDue t.0 s.deps × IsOrdered (record s { timers = rest })
take_timer n s t rest e o =
    let (h, a) = All-take (λ x. IsDue x.0 s.deps) timer_name n s.timers rest t e o.timers in
    (
      h,
      record {
        tracked = o.tracked;
        waiting = o.waiting;
        active = o.active;
        timers = a;
        launching = o.launching;
      },
    )

take_launching :
    (n : Text) (s : State) (l : Launching) (rest : List Launching)
    → take launching_name n s.launching ≡ some (l, rest)
    → IsOrdered s
    → IsDue l.service s.deps × IsOrdered (record s { launching = rest })
take_launching n s l rest e o =
    let (h, a) =
      All-take (λ x. IsDue x.service s.deps) launching_name n s.launching rest l e o.launching in
    (
      h,
      record {
        tracked = o.tracked;
        waiting = o.waiting;
        active = o.active;
        timers = o.timers;
        launching = a;
      },
    )

launch_in-IsOrdered :
    (c : Caller) (service : Service) (s : State)
    → IsDue service s.deps
    → IsOrdered s
    → IsOrdered (launch_in c service s)
unfolding launch_in
launch_in-IsOrdered c service s h o = record {
  tracked = o.tracked;
  waiting = o.waiting;
  active = o.active;
  timers = o.timers;
  launching = (h, o.launching);
}

wait_in-IsOrdered :
    (phase : Phase) (service : Service) (s : State)
    → HasReached phase service s.deps
    → IsOrdered s
    → IsOrdered (wait_in phase service s)
unfolding wait_in
wait_in-IsOrdered phase service s h o = record {
  tracked = o.tracked;
  waiting = (h, o.waiting);
  active = o.active;
  timers = o.timers;
  launching = o.launching;
}

add-IsOrdered :
    (p : Process) (s : State)
    → IsDue p.config s.deps
    → IsOrdered s
    → IsOrdered (add_active_service p s)
unfolding add_active_service
add-IsOrdered p s due o = record {
  tracked = o.tracked;
  waiting = o.waiting;
  active = λ m q h.
      lookup-insert_elim (λ r. IsDue r.config s.deps) (name_of p) m (set_state starting p) q
        s.active due (o.active m q) h;
  timers = o.timers;
  launching = o.launching;
}

-- A dependency that is heard to be ready is left behind.
heard :
    (service : Service) (dep : Text) (left : List Text) (s : State)
    → IsLeft (dep ∷ left) service s.deps
    → IsOrdered s
    → (poll_dep ready dep s).1 ≡ true
    → IsLeft left service s.deps
unfolding poll_dep
heard service dep left s h o e n m = elim (h n m) [
  | inl i ↦ elim ((Memᴰ-cons n dep left).0 i) [
    | inl q ↦ inr (
        subst (λ k. is_marked ready k s.deps ≡ true) (sym q)
          (sym (poll-PollOf ready dep s.deps o.tracked).answer ∙ e))
    | inr j ↦ inl j
  ]
  | inr r ↦ inr r
]

none_left : (service : Service) (d : Tracker) → IsLeft [] service d → IsDue service d
none_left service d h n m = elim (h n m) [ inl l ↦ absurd (Memᴰ.not-nil l) | inr r ↦ r ]

IsOrdered-Kept :
    Kept Unit IsOrdered
      (λ service s. IsDue service s.deps)
      (λ phase service s. HasReached phase service s.deps)
      (λ service s. IsDue service s.deps)
IsOrdered-Kept = record {
  graceful = graceful-IsOrdered;
  trigger = trigger-IsOrdered;
  marks = mark_dep-IsOrdered;
  polls = poll_dep-IsOrdered;
  updates = update-IsOrdered;
  leaves = λ n p f s e same_config o.
      remove-IsOrdered (name_of p) p.config _
        (subst (IsDue p.config) (sym (update-deps (name_of p) f s)) (o.active n p e))
        (update-IsOrdered (name_of p) f s same_config o);
  repeats = λ service e s x y due o. repeat-IsOrdered service s due o;
  requeues = requeue-IsOrdered;
  takes = take_waiting;
  fires = take_timer;
  waits = wait_in-IsOrdered;
  begins = λ c service s d due o. launch_in-IsOrdered c service s due o;
  registers = take_launching;
  starts = λ c service s due o. add-IsOrdered (new_process c service) s due o;
  enters = λ service s h. tt;
  scripted = λ service s h o n m. inl m;
  hears =
      λ service dep left s h o e. (heard service dep left s h o e, heard service dep left s h o e);
  lingered = λ service left s h. h;
  launches = λ service s h. none_left service s.deps h;
}

-- From a state in which every active service, and every service that is put off for a restart, has
-- all its dependencies marked ready, and every waiting service has passed only dependencies that
-- were marked ready, every sequence of events that runs leads to such a state.
pub run-IsOrdered : (es : List Event) (s t : State) → IsOrdered s → run es s ≡ some t → IsOrdered t
run-IsOrdered es s t o e = subst (Holds Unit IsOrdered) e (run-Kept IsOrdered-Kept es s o)
