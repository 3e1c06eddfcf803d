-- ===== src/Supervisor/Apart/Registers.antt =====
-- The marks of a service whose process becomes active: the end of `startService` before its wait, in
-- cmd/go-overlay/service.go.
use go_overlay.Base.{
  suc, Text, ==_refl, lookup, lookup-insert, lookup-insert_elim, insert, false, some, if◌then◌else◌,
  if_elim, ◌≡◌, refl, sym, subst, arith,
}
use go_overlay.Config.{Service}
use go_overlay.Tracker.{ready}
use go_overlay.Supervisor.{
  Process, State, Caller, update, mark_dep, add_active_service, set_state, starting, running,
}
use go_overlay.Supervisor.Prepare.{new_process, register_service}
use go_overlay.Supervisor.Kept.{Holds}
use go_overlay.Supervisor.Invariant.{IsAbsent, IsValid}
use go_overlay.Supervisor.Apart.{
  Going, Bears, IsApart, MayMark, mark_dep-IsApart, absent-MayMark, same,
}

-- The process of a service that is nowhere else becomes active.
add-IsApart :
    (n : Text) (p : Process) (s : State)
    → Going p.caller p.config s.deps
    → IsApart s
    → IsApart (record s { active = insert n p s.active })
add-IsApart n p s g h = record {
  tracked = h.tracked;
  apart = h.apart;
  waiting = h.waiting;
  launching = h.launching;
  active = λ m q e.
      lookup-insert_elim (λ r. Going r.caller r.config s.deps) n m p q s.active g (h.active m q) e;
  timers = h.timers;
}

update_found :
    (n : Text) (f : Process → Process) (p : Process) (s : State)
    → lookup n s.active ≡ some p
    → update n f s ≡ record s { active = insert n (f p) s.active }
unfolding update
update_found n f p s h = rw (h, update) refl

-- the state with the process of a service that runs
abbrev registered : Caller → Service → State → State
registered c service s =
    let p = set_state starting (new_process c service) in
    record s {
      active = insert service.name (set_state running p) (insert service.name p s.active);
      shutdown_wg = suc s.shutdown_wg;
    }

registered_lem :
    (c : Caller) (service : Service) (s : State)
    → update service.name (set_state running) (add_active_service (new_process c service) s)
      ≡ registered c service s
unfolding add_active_service
registered_lem c service s =
    let p = set_state starting (new_process c service) in
    update_found service.name (set_state running) p (add_active_service (new_process c service) s)
      (ground (arith, lookup-insert service.name service.name p s.active, ==_refl service.name))

registered-MayMark :
    (c : Caller) (service : Service) (s : State)
    → service.oneshot ≡ false
    → MayMark ready service.name s
    → MayMark ready service.name (registered c service s)
registered-MayMark c service s o m =
    let bears : Bears ready service.name c service = λ e. (λ x. cc, λ x. o) in
    let p = set_state starting (new_process c service) in
    record {
      waiting = m.waiting;
      launching = m.launching;
      active = λ n q e.
          lookup-insert_elim (λ r. Bears ready service.name r.caller r.config) service.name n
            (set_state running p) q (insert service.name p s.active) bears
            (λ i.
              lookup-insert_elim (λ r. Bears ready service.name r.caller r.config) service.name n p
                q s.active bears (m.active n q) i)
            e;
      timers = m.timers;
      to_ready = m.to_ready;
      to_failed = m.to_failed;
    }

pub register_service-IsApart :
    (c : Caller) (service : Service) (s : State)
    → Going c service s.deps
    → IsAbsent service.name s
    → IsValid s
    → IsApart s
    → Holds Unit IsApart (register_service c service s)
unfolding register_service
register_service-IsApart c service s g absent v h =
    let p = set_state starting (new_process c service) in
    let u = registered c service s in
    let a : IsApart u = same _ u refl refl refl refl refl (
      add-IsApart service.name (set_state running p)
        (record s { active = insert service.name p s.active }) g
        (add-IsApart service.name p s g h)) in
    subst
      (λ t. Holds Unit IsApart (if service.oneshot then some t else mark_dep ready service.name t))
      (sym (registered_lem c service s))
      (if_elim (Holds Unit IsApart) service.oneshot _ _ (λ _. a)
        (λ o.
          mark_dep-IsApart ready service.name u
            (registered-MayMark c service s o
              (absent-MayMark ready service.name s absent v.tracked v.named (λ _. g.0 o) (λ x. cc)))
            a))
