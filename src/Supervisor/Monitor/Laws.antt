-- ===== src/Supervisor/Monitor/Laws.antt =====
-- What the monitors come to: the supervisor sees its own events, and a service is unhealthy as the
-- count of its failed checks says.
use go_overlay.Base.{
  ℕ, suc, Text, lookup, delete, Bool, true, false, List, [], ◌∷◌, some, if◌then◌else◌, ◌≡◌, inl,
  inr, refl, sym, ap, ◌∙◌, arith, Option-cases, Bool-cases,
}
use mathlib.Core.Option.{some-injective}
use go_overlay.Base.Int.{ℤ}
use go_overlay.Health.{reaches}
use go_overlay.Supervisor.{◌>>=◌}
use go_overlay.Supervisor.Step.{Event, step, run}
use go_overlay.Supervisor.Reach.{run-append}
use go_overlay.Supervisor.Monitor.{
  Monitored, Move, does, checks, cancels, on_check, is_sickens, on_event, check_events, move,
  run_monitored, events_at, events_of,
}

if_same :
    (b : Bool) (n : Text) (m m' : Monitored)
    → (if b then some (record m { monitors = delete n m.monitors }) else some m) ≡ some m'
    → m.supervisor ≡ m'.supervisor
if_same true n m m' h = ap (λ o. o.supervisor) (some-injective _ m' h)
if_same false n m m' h = ap (λ o. o.supervisor) (some-injective m m' h)

does-run :
    (b : Bool) (e : Event) (m m' : Monitored)
    → (if b then some m else on_event e m) ≡ some m'
    → run (if b then [] else e ∷ []) m.supervisor ≡ some m'.supervisor
unfolding run on_event
does-run true e m m' h = ap (λ o. some o.supervisor) (some-injective m m' h)
does-run false e m m' h = elim (Option-cases (step e m.supervisor)) [
  | inl i ↦ absurd (ground (arith, i))
  | inr (t, i) ↦ rw i (ap (λ o. some o.supervisor) (some-injective _ m' (rw (i, on_event) at h)))
]

check-run :
    (n : Text) (healthy : Bool) (retries : ℤ) (failures : ℕ) (m : Monitored)
    → run (check_events n healthy (some (retries, failures))) m.supervisor
      ≡ some (on_check n retries failures healthy m).supervisor
unfolding run step on_check
check-run n true retries failures m = refl
check-run n false retries failures m = elim (Bool-cases (reaches (suc failures) retries)) [
  | inl e ↦ rw (e, on_check) refl
  | inr e ↦ rw (e, on_check) refl
]

move-run :
    (x : Move) (m m' : Monitored)
    → move x m ≡ some m'
    → run (events_at x m) m.supervisor ≡ some m'.supervisor
unfolding move events_at
move-run (does e) m m' h = does-run (is_sickens e) e m m' h
move-run (checks n healthy) m m' h = elim (Option-cases (lookup n m.monitors)) [
  | inl e ↦
      rw e (unfold run in ap (λ o. some o.supervisor) (some-injective m m' (rw (e, move) at h)))
  | inr ((r, c), e) ↦ rw e (
      check-run n healthy r c m
      ∙ ap (λ o. some o.supervisor) (some-injective _ m' (rw (e, move) at h)))
]
move-run (cancels n) m m' h = unfold run in ap some (if_same m.supervisor.shut_down n m m' h)

pub run_monitored-run :
    (moves : List Move) (m m' : Monitored)
    → run_monitored moves m ≡ some m'
    → run (events_of moves m) m.supervisor ≡ some m'.supervisor
unfolding run_monitored events_of
run_monitored-run [] m m' h = unfold run in ap (λ o. some o.supervisor) (some-injective m m' h)
run_monitored-run (x ∷ moves) m m' h = elim (Option-cases (move x m)) [
  | inl e ↦ absurd (ground (arith, e))
  | inr (t, e) ↦
      rw (e, events_of)
        (run-append (events_at x m) (events_of moves t) m.supervisor
          ∙ ap (λ o. o >>= run (events_of moves t)) (move-run x m t e)
          ∙ run_monitored-run moves t m' (sym (ap (λ o. o >>= run_monitored moves) e) ∙ h))
]
