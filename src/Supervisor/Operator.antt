-- ===== src/Supervisor/Operator.antt =====
-- What the operator is told by `handleRestartService` and `handleGetStatus` of
-- cmd/go-overlay/ipc.go.
use go_overlay.Base.{
  Text, lookup, insert, true, false, some, ◌≡◌, ◌↔◌, refl, sym, ap, ◌∙◌, inl, inr, Bool-cases,
  Option-cases,
}
use mathlib.Core.Option.{some-injective}
use go_overlay.Supervisor.{
  Process, State, StopIntent, none_yet, shutdown, restart_policy, restart_operator, request_stop,
  update,
}
use go_overlay.Supervisor.Control.{handle_restart_service}

-- A first request is granted.
request_stop-granted :
    (i : StopIntent) (p : Process) → ((request_stop i p).1 ≡ true) ↔ (p.intent ≡ none_yet)
unfolding request_stop
request_stop-granted i p = go p.intent refl
  where
    go : (x : StopIntent) → p.intent ≡ x → ((request_stop i p).1 ≡ true) ↔ (p.intent ≡ none_yet)
    go none_yet h = (λ _. h, λ _. rw (h, request_stop) refl)
    go shutdown h = (λ t. let g = rw (h, request_stop) at t in absurd (cc), λ t. absurd (cc))
    go restart_policy h = (λ t. let g = rw (h, request_stop) at t in absurd (cc), λ t. absurd (cc))
    go restart_operator h =
        (λ t. let g = rw (h, request_stop) at t in absurd (cc), λ t. absurd (cc))

handle_restart_service-active :
    (n : Text) (p : Process) (s : State)
    → lookup n s.active ≡ some p
    → (handle_restart_service n s).1.success ≡ (request_stop restart_operator p).1
unfolding handle_restart_service
handle_restart_service-active n p s e = elim (Bool-cases (request_stop restart_operator p).1) [
  | inl g ↦ rw (e, g, handle_restart_service) refl
  | inr g ↦ rw (e, g, handle_restart_service) refl
]

handle_restart_service-granted :
    (n : Text) (s : State)
    → ((handle_restart_service n s).1.success ≡ true)
      ↔ ((p : Process) × (lookup n s.active ≡ some p) × (p.intent ≡ none_yet))
unfolding handle_restart_service
handle_restart_service-granted n s = elim (Option-cases (lookup n s.active)) [
  | inl e ↦
      (λ t. let g = rw (e, handle_restart_service) at t in absurd (cc), λ (p, f, i). absurd (cc))
  | inr (p, e) ↦
      let answer = handle_restart_service-active n p s e in
      let granted = request_stop-granted restart_operator p in
      (
        λ t. (p, e, granted.0 (sym answer ∙ t)),
        λ (q, f, i). answer ∙ granted.1 (ap (λ x. x.intent) (some-injective p q (sym e ∙ f)) ∙ i),
      )
]

-- A request that is granted is recorded with the process, which is canceled.
restarted :
    (n : Text) (p : Process) (s : State)
    → lookup n s.active ≡ some p
    → p.intent ≡ none_yet
    → (handle_restart_service n s).0 ≡ record s {
      active = insert n (record p { intent = restart_operator; canceled = true }) s.active;
    }
unfolding handle_restart_service update request_stop
restarted n p s e i =
    let q : Process = record p { intent = restart_operator; canceled = true } in
    let granted : request_stop restart_operator p ≡ (q, true) = rw (i, request_stop) refl in
    let updated : update n (λ q. (request_stop restart_operator q).0) s
        ≡ record s { active = insert n q s.active } =
      rw (e, update) (ap (λ r. record s { active = insert n r.0 s.active }) granted) in
    rw (e, granted, handle_restart_service) updated

not_restarted :
    (n : Text) (s : State)
    → (handle_restart_service n s).1.success ≡ false
    → (handle_restart_service n s).0 ≡ s
unfolding handle_restart_service
not_restarted n s f = elim (Option-cases (lookup n s.active)) [
  | inl e ↦ rw (e, handle_restart_service) refl
  | inr (p, e) ↦ elim (Bool-cases (request_stop restart_operator p).1) [
    | inl g ↦ let h = rw (e, g, handle_restart_service) at f in absurd (cc)
    | inr g ↦ rw (e, g, handle_restart_service) refl
  ]
]

-- `handleRestartService` reports success exactly for a service that is active and has no intent to
-- stop yet. Then its process gets the intent to be restarted for the operator and is canceled, and
-- nothing else changes; where it reports no success, nothing changes.
pub handle_restart_service-success :
    (n : Text) (s : State)
    → (((handle_restart_service n s).1.success ≡ true)
        ↔ ((p : Process) × (lookup n s.active ≡ some p) × (p.intent ≡ none_yet)))
      × ((p : Process)
          → lookup n s.active ≡ some p
          → p.intent ≡ none_yet
          → (handle_restart_service n s).0 ≡ record s {
            active = insert n (record p { intent = restart_operator; canceled = true }) s.active;
          })
      × ((handle_restart_service n s).1.success ≡ false → (handle_restart_service n s).0 ≡ s)
handle_restart_service-success n s =
    (handle_restart_service-granted n s, λ p. restarted n p s, not_restarted n s)
