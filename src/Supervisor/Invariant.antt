-- ===== src/Supervisor/Invariant.antt =====
-- What holds of the supervisor's state between two events: no service is there twice, the wait group
-- counts the active services, and the tracker is valid.
use go_overlay.Base.{
  ℕ, suc, ◌+◌, ◌≤◌, Text, ==_iff, ==_refl, lookup, delete, lookup-insert, lookup-delete, true, some,
  ◌≡◌, refl, arith, inl, inr, if_elim, length, Option-cases,
}
use go_overlay.Tracker.{Kind}
use go_overlay.Tracker.Invariant as Tracked
use go_overlay.Tracker.Marks.{mark-MarkOf}
use go_overlay.Supervisor.{
  Process, State, name_of, update, add_active_service, remove_active_service, mark_dep,
  graceful_shutdown, trigger_service_failure_shutdown, set_state, starting,
}
use go_overlay.Supervisor.Step.{waiting_name, launching_name, timer_name}
use go_overlay.Supervisor.Counts.{
  count, key_of, count-insert_new, count-insert_old, count-delete, lookup_of_absent,
  count_of_lookup-some,
}

-- How often a service is there: about to be started, started, active, or put off for a restart.
abbrev pub presence : Text → State → ℕ
presence n s =
    count waiting_name n s.waiting
    + count launching_name n s.launching
    + count key_of n s.active
    + count timer_name n s.timers

pub record IsValid (s : State) : Type 0 where
  pub once : (n : Text) → presence n s ≤ 1
  pub counted : s.shutdown_wg ≡ length s.active
  pub named : (n : Text) (p : Process) → lookup n s.active ≡ some p → name_of p ≡ n
  pub tracked : Tracked.IsValid s.deps
  pub exit_code : s.exit_code ≤ 1
  pub failing : s.exit_code ≡ 1 → s.once_done ≡ true
  pub canceled : s.once_done ≡ true → s.shut_down ≡ true

-- A service that is nowhere in the state.
abbrev pub IsAbsent : Text → State → Type 0
IsAbsent n s = presence n s ≡ 0

pub graceful_shutdown-IsValid : (s : State) → IsValid s → IsValid (graceful_shutdown s)
unfolding graceful_shutdown
graceful_shutdown-IsValid s v =
    if_elim IsValid s.once_done s (record s { once_done = true; shut_down = true }) (λ d. v)
      (λ d. record {
        once = v.once;
        counted = v.counted;
        named = v.named;
        tracked = v.tracked;
        exit_code = v.exit_code;
        failing = λ f. refl;
        canceled = λ o. refl;
      })

pub trigger-IsValid : (s : State) → IsValid s → IsValid (trigger_service_failure_shutdown s)
unfolding trigger_service_failure_shutdown
trigger-IsValid s v =
    if_elim IsValid s.once_done _ _
      (λ d. record {
        once = v.once;
        counted = v.counted;
        named = v.named;
        tracked = v.tracked;
        exit_code = ground (arith, v.exit_code);
        failing = λ f. d;
        canceled = v.canceled;
      })
      (λ d. record {
        once = v.once;
        counted = v.counted;
        named = v.named;
        tracked = v.tracked;
        exit_code = ground (arith, v.exit_code);
        failing = λ f. refl;
        canceled = λ o. refl;
      })

-- A mark of the tracker is never refused, and changes nothing else.
pub mark_dep-IsValid :
    (k : Kind) (n : Text) (s : State)
    → IsValid s
    → (t : State) × (mark_dep k n s ≡ some t) × IsValid t
unfolding mark_dep
mark_dep-IsValid k n s v =
    let (d, e, m) = mark-MarkOf k n s.deps v.tracked in
    (
      record s { deps = d },
      rw e,
      record {
        once = v.once;
        counted = v.counted;
        named = v.named;
        tracked = m.valid;
        exit_code = v.exit_code;
        failing = v.failing;
        canceled = v.canceled;
      },
    )

-- A change that keeps the name of the process keeps the state valid.
pub update-IsValid :
    (n : Text) (f : Process → Process) (s : State)
    → ((p : Process) → name_of (f p) ≡ name_of p)
    → IsValid s
    → IsValid (update n f s)
unfolding update
update-IsValid n f s same v = elim (Option-cases (lookup n s.active)) [
  | inl e ↦ rw (e, update) v
  | inr (p, e) ↦
      rw (e, update)
        (record {
          once = λ m. omega (arith, (count-insert_old n m (f p) p s.active e).0, v.once m);
          counted = omega (arith, (count-insert_old n n (f p) p s.active e).1, v.counted);
          named = λ m q h. ground (
            arith,
            lookup-insert n m (f p) s.active,
            ==_iff n m,
            same p,
            v.named n p e,
            v.named m q,
          );
          tracked = v.tracked;
          exit_code = v.exit_code;
          failing = v.failing;
          canceled = v.canceled;
        })
]

pub add_active_service-IsValid :
    (p : Process) (s : State)
    → IsAbsent (name_of p) s
    → IsValid s
    → IsValid (add_active_service p s)
unfolding add_active_service
add_active_service-IsValid p s absent v =
    let q = set_state starting p in
    let n = name_of p in
    let new = lookup_of_absent n s.active (omega arith) in
    record {
      once = λ m. ground (arith, count-insert_new n m q s.active new, v.once m, ==_iff n m);
      counted = omega (arith, (count-insert_new n n q s.active new).1, v.counted);
      named = λ m r h. ground (arith, lookup-insert n m q s.active, ==_iff n m, v.named m r);
      tracked = v.tracked;
      exit_code = v.exit_code;
      failing = v.failing;
      canceled = v.canceled;
    }

-- An active service is there once.
is_one :
    (n : Text) (p : Process) (s : State)
    → lookup n s.active ≡ some p
    → IsValid s
    → count key_of n s.active ≡ 1
is_one n p s e v = omega (arith, count_of_lookup-some n s.active p e, v.once n)

-- A service that is active is taken out, and then it is nowhere.
pub remove_active_service-IsValid :
    (n : Text) (p : Process) (s : State)
    → lookup n s.active ≡ some p
    → IsValid s
    → (t : State) × (remove_active_service n s ≡ some t) × IsValid t × IsAbsent n t
unfolding remove_active_service
remove_active_service-IsValid n p s e v =
    let t = record s { active = delete n s.active; shutdown_wg = length (delete n s.active) } in
    let wg : s.shutdown_wg ≡ suc (length (delete n s.active)) =
      omega (arith, v.counted, (count-delete n n s.active).1, is_one n p s e v) in
    (
      t,
      rw (e, wg, remove_active_service),
      record {
        once = λ m. ground (arith, count-delete n m s.active, v.once m);
        counted = refl;
        named = λ m q h. ground (arith, lookup-delete n m s.active, ==_iff n m, v.named m q);
        tracked = v.tracked;
        exit_code = v.exit_code;
        failing = v.failing;
        canceled = v.canceled;
      },
      ground (arith, count-delete n n s.active, v.once n, ==_refl n, is_one n p s e v),
    )

pub lookup-update :
    (n : Text) (f : Process → Process) (p : Process) (s : State)
    → lookup n s.active ≡ some p
    → lookup n (update n f s).active ≡ some (f p)
unfolding update
lookup-update n f p s e =
    rw (e, update) (ground (arith, lookup-insert n n (f p) s.active, ==_refl n))
