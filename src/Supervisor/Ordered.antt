-- ===== src/Supervisor/Ordered.antt =====
-- The order of the start: `waitForServiceDependencies` of cmd/go-overlay/service.go waits for each
-- name of `depends_on` before `startService` is reached.
pub mod Runs
use Prim.{Unit, tt}
use go_overlay.Base.{
  ℕ, zero, suc, Text, ◌==◌, lookup, delete, lookup-insert_elim, lookup-delete-some, Bool, true,
  false, List, [], ◌∷◌, Option, none, some, ◌≡◌, ◌∙◌, refl, sym, subst, arith, inl, inr, ◌⊎◌, ◌||◌,
  if_elim, Option-cases, All, All-put, All-mono, All-mem, Memᴰ, Memᴰ-cons,
}
use go_overlay.Config.{Service}
use go_overlay.Base.{nat_eq, if◌then◌else◌}
use go_overlay.Base.Int.{ℤ, pos}
use go_overlay.Tracker.{Kind, Tracker, ready, is_marked, mark, poll}
use go_overlay.Tracker.Invariant as Tracked
use go_overlay.Tracker.Marks.{mark-MarkOf, poll-PollOf}
use go_overlay.Supervisor.{
  Process, State, Caller, Waiting, Phase, fresh, scripting, awaits, lingers, name_of, update,
  add_active_service, remove_active_service, mark_dep, poll_dep, wait_in, done, graceful_shutdown,
  trigger_service_failure_shutdown, set_state, starting, ◌>>=◌,
}
use go_overlay.Supervisor.Restart.{
  schedule_restart, increment_restart_count, reset_restart_count, restart_delay_of,
}
use go_overlay.Supervisor.Prepare.{new_process}
use go_overlay.Supervisor.Step.{take, Event, run, waiting_name, timer_name}
use go_overlay.Supervisor.Counts.{All-take}
use go_overlay.Supervisor.Kept.{Kept, Holds, SameConfig}
use go_overlay.Supervisor.Kept.Steps.{run-Kept}

-- Every dependency of the service was marked ready.
abbrev pub IsDue : Service → Tracker → Type 0
IsDue service d = (n : Text) → Memᴰ n service.depends_on → is_marked ready n d ≡ true

-- Every dependency of the service is left, or was marked ready.
abbrev pub IsLeft : List Text → Service → Tracker → Type 0
IsLeft left service d =
    (n : Text) → Memᴰ n service.depends_on → Memᴰ n left ⊎ (is_marked ready n d ≡ true)

abbrev pub HasReached : Phase → Service → Tracker → Type 0
HasReached fresh service d = Unit
HasReached scripting service d = Unit
HasReached (awaits left) service d = IsLeft left service d
HasReached (lingers left) service d = IsLeft left service d

-- What is active or put off for a restart is due, and what waits has passed only ready dependencies.
pub record IsOrdered (s : State) : Type 0 where
  pub tracked : Tracked.IsValid s.deps
  pub waiting : All (λ w. HasReached w.phase w.service s.deps) s.waiting
  pub active : (n : Text) (p : Process) → lookup n s.active ≡ some p → IsDue p.config s.deps
  pub timers : All (λ t. IsDue t.0 s.deps) s.timers
  pub launching : All (λ l. IsDue l.service s.deps) s.launching

-- What was marked ready stays so.
abbrev Grows : Tracker → Tracker → Type 0
Grows d d' = (n : Text) → is_marked ready n d ≡ true → is_marked ready n d' ≡ true

IsLeft-grow :
    (left : List Text) (service : Service) (d d' : Tracker)
    → Grows d d'
    → IsLeft left service d
    → IsLeft left service d'
IsLeft-grow left service d d' g h n m = elim (h n m) [ inl l ↦ inl l | inr r ↦ inr (g n r) ]

HasReached-grow :
    (phase : Phase) (service : Service) (d d' : Tracker)
    → Grows d d'
    → HasReached phase service d
    → HasReached phase service d'
HasReached-grow fresh service d d' g h = tt
HasReached-grow scripting service d d' g h = tt
HasReached-grow (awaits left) service d d' g h = IsLeft-grow left service d d' g h
HasReached-grow (lingers left) service d d' g h = IsLeft-grow left service d d' g h

-- A tracker with more marks
grow-IsOrdered :
    (d : Tracker) (s : State)
    → Tracked.IsValid d
    → Grows s.deps d
    → IsOrdered s
    → IsOrdered (record s { deps = d })
grow-IsOrdered d s v g o = record {
  tracked = v;
  waiting =
      All-mono _ _ s.waiting (λ w h. HasReached-grow w.phase w.service s.deps d g h) o.waiting;
  active = λ n p e m i. g m (o.active n p e m i);
  timers = All-mono _ _ s.timers (λ t h m i. g m (h m i)) o.timers;
  launching = All-mono _ _ s.launching (λ l h m i. g m (h m i)) o.launching;
}

-- A change of the fields that the order is not about
pub same :
    (s t : State)
    → s.deps ≡ t.deps
    → s.waiting ≡ t.waiting
    → s.active ≡ t.active
    → s.timers ≡ t.timers
    → s.launching ≡ t.launching
    → IsOrdered s
    → IsOrdered t
same s t d w a u l o = record {
  tracked = subst Tracked.IsValid d o.tracked;
  waiting =
      subst (λ xs. All (λ x. HasReached x.phase x.service t.deps) xs) w
        (subst (λ k. All (λ x. HasReached x.phase x.service k) s.waiting) d o.waiting);
  active =
      λ n p e. subst (IsDue p.config) d (o.active n p (subst (λ m. lookup n m ≡ some p) (sym a) e));
  timers =
      subst (λ xs. All (λ x. IsDue x.0 t.deps) xs) u
        (subst (λ k. All (λ x. IsDue x.0 k) s.timers) d o.timers);
  launching =
      subst (λ xs. All (λ x. IsDue x.service t.deps) xs) l
        (subst (λ k. All (λ x. IsDue x.service k) s.launching) d o.launching);
}

pub graceful-IsOrdered : (s : State) → IsOrdered s → IsOrdered (graceful_shutdown s)
unfolding graceful_shutdown
graceful-IsOrdered s o =
    if_elim IsOrdered s.once_done _ _ (λ _. o) (λ _. same s _ refl refl refl refl refl o)

pub trigger-IsOrdered : (s : State) → IsOrdered s → IsOrdered (trigger_service_failure_shutdown s)
unfolding trigger_service_failure_shutdown
trigger-IsOrdered s o =
    let t = record s { exit_code = if nat_eq s.exit_code 0 then 1 else s.exit_code } in
    graceful-IsOrdered t (same s t refl refl refl refl refl o)

pub mark_dep-IsOrdered :
    (k : Kind) (n : Text) (s : State) → IsOrdered s → Holds Unit IsOrdered (mark_dep k n s)
unfolding mark_dep
mark_dep-IsOrdered k n s o =
    let (d, e, m) = mark-MarkOf k n s.deps o.tracked in
    rw e (grow-IsOrdered d s m.valid (λ i h. rw (m.marks ready i, h) (ground arith)) o)

pub poll_dep-IsOrdered :
    (k : Kind) (n : Text) (phase : Phase) (service : Service) (s : State)
    → HasReached phase service s.deps
    → IsOrdered s
    → HasReached phase service (poll_dep k n s).0.deps × IsOrdered (poll_dep k n s).0
unfolding poll_dep
poll_dep-IsOrdered k n phase service s h o =
    let m = poll-PollOf k n s.deps o.tracked in
    let g : Grows s.deps (poll k n s.deps).0 = λ i e. m.marks ready i ∙ e in
    (HasReached-grow phase service _ _ g h, grow-IsOrdered _ s m.valid g o)

pub update-IsOrdered :
    (n : Text) (f : Process → Process) (s : State)
    → SameConfig f
    → IsOrdered s
    → IsOrdered (update n f s)
unfolding update
update-IsOrdered n f s same_config o = elim (Option-cases (lookup n s.active)) [
  | inl e ↦ rw (e, update) o
  | inr (p, e) ↦
      rw (e, update)
        (record {
          tracked = o.tracked;
          waiting = o.waiting;
          active = λ m q h.
              lookup-insert_elim (λ r. IsDue r.config s.deps) n m (f p) q s.active
                (subst (λ c. IsDue c s.deps) (sym (same_config p)) (o.active n p e)) (o.active m q)
                h;
          timers = o.timers;
          launching = o.launching;
        })
]

-- Where the service is due, it still is when a process has left.
pub remove-IsOrdered :
    (n : Text) (service : Service) (s : State)
    → IsDue service s.deps
    → IsOrdered s
    → Holds Unit (λ t. IsDue service t.deps × IsOrdered t) (remove_active_service n s)
unfolding remove_active_service
remove-IsOrdered n service s due o = elim (Option-cases (lookup n s.active)) [
  | inl e ↦ rw (e, remove_active_service) (due, o)
  | inr (p, e) ↦ rw (e, remove_active_service) (go s.shutdown_wg)
]
  where
    go :
        (w : ℕ)
        → Holds Unit
            (λ t. IsDue service t.deps × IsOrdered t)
            (do k ← done w; some (record s { active = delete n s.active; shutdown_wg = k }))
    go zero = tt
    go (suc w) = (
      due,
      record {
        tracked = o.tracked;
        waiting = o.waiting;
        active = λ m q h. o.active m q (lookup-delete-some n m q s.active h);
        timers = o.timers;
        launching = o.launching;
      },
    )

pub update-deps : (n : Text) (f : Process → Process) (s : State) → (update n f s).deps ≡ s.deps
unfolding update
update-deps n f s = ground arith
