-- ===== src/Supervisor/Stop.antt =====
-- How processes are stopped: `stopRunningService` of cmd/go-overlay/service.go, and the end of
-- `runShutdown` in main.go, with the timeouts in seconds. Whether a process ends within a timeout is
-- a parameter.
use go_overlay.Base.{
  ℕ, Text, ◌==◌, ==_iff, Map, lookup, keys, Bool, List, [], ◌∷◌, ◌++◌, Option, none, some,
  if◌then◌else◌, nat_eq, ◌≡◌, refl, sym, ap, subst, arith, inl, inr, Memᴰ, Memᴰ-append, All-mem,
  Bool-cases, Option-cases, if_elim, ◌∙◌,
}
use mathlib.Core.List.Memᴰ
use mathlib.Core.Option.{some-injective}
use go_overlay.Base.Int.{ℤ, pos, above}
use go_overlay.Config.{Config, Timeouts}
use go_overlay.Process.Signals.{
  Os, Sent, group, process, foreign_group, signal_process, kill_process, MaySend, deliver-Delivers,
  sigkill,
}
use go_overlay.Supervisor.{Process, State, active_service_count}

abbrev pub sigterm : ℕ
sigterm = 15

unfoldable pub service_shutdown_timeout : Timeouts → ℤ
service_shutdown_timeout timeouts =
    if above 0 timeouts.service_shutdown then timeouts.service_shutdown else pos 10

-- `globalShutdownTimeout`
unfoldable pub global_shutdown_timeout : Option Config → ℤ
global_shutdown_timeout none = pos 30
global_shutdown_timeout (some config) =
    if above 0 config.timeouts.global_shutdown then config.timeouts.global_shutdown else pos 30

module _ (os : Os) (self_pgid : ℤ) where
  -- `stopRunningService`, where a process that has started ends within so many seconds or not
  unfoldable pub stop_running_service : Option ℤ → (ℤ → Bool) → Timeouts → List Sent
  stop_running_service none ends timeouts = []
  stop_running_service (some pid) ends timeouts =
      (signal_process os self_pgid (some pid) sigterm).0
      ++ (if ends (service_shutdown_timeout timeouts)
          then []
          else (kill_process os self_pgid (some pid)).0)

  -- The process of a service, where it has one, is killed.
  unfoldable pub kill_one : Option ℤ → List Sent
  kill_one none = []
  kill_one (some pid) = (kill_process os self_pgid (some pid)).0

  -- `forceKillAllServices`, with the process of each service
  unfoldable pub force_kill_all_services : (Text → Option ℤ) → Map Process → List Sent
  unfolding kill_one
  force_kill_all_services pid [] = []
  force_kill_all_services pid ((name, _) ∷ processes) =
      kill_one (pid name) ++ force_kill_all_services pid processes

  -- `runShutdown` after the cancellation: whom it kills
  unfoldable pub run_shutdown : (Text → Option ℤ) → (ℤ → Bool) → Option Config → State → List Sent
  unfolding force_kill_all_services
  run_shutdown pid ends config s =
      if nat_eq (active_service_count s) 0
      then []
      else if ends (global_shutdown_timeout config)
      then []
      else force_kill_all_services pid s.active

  kill_one-some : (pid : ℤ) → (x : Sent) × Memᴰ x (kill_one (some pid))
  unfolding kill_one kill_process
  kill_one-some pid = elim (Option-cases (foreign_group os self_pgid pid)) [
    | inl e ↦ rw (e, kill_one, kill_process) (process pid, Memᴰ.head refl)
    | inr (g, e) ↦
        rw (e, kill_one, kill_process)
          (if_elim {A = List Sent × Option Text} (λ r. (x : Sent) × Memᴰ x r.0)
            (os.kill_group g sigkill) _ _ (λ _. (group g, Memᴰ.head refl))
            (λ _. (group g, Memᴰ.head refl)))
  ]

  kill_one-MaySend :
      (o : Option ℤ) (x : Sent)
      → Memᴰ x (kill_one o)
      → (pid : ℤ) × (o ≡ some pid) × MaySend os self_pgid pid x
  unfolding kill_one
  kill_one-MaySend none x m = absurd (Memᴰ.not-nil m)
  kill_one-MaySend (some pid) x m =
      (pid, refl, All-mem _ _ x (deliver-Delivers os self_pgid pid sigterm).1.allowed m)

  module _ (pid : Text → Option ℤ) where
    -- A service with a process is sent to.
    killed :
        (m : Map Process) (n : Text) (p : Process) (q : ℤ)
        → lookup n m ≡ some p
        → pid n ≡ some q
        → (x : Sent) × Memᴰ x (force_kill_all_services pid m) × MaySend os self_pgid q x
    unfolding lookup force_kill_all_services
    killed [] n p q h g = absurd (ground arith)
    killed ((k, v) ∷ m) n p q h g = elim (Bool-cases (k == n)) [
      | inl e ↦
          let i : pid k ≡ some q = ap pid ((==_iff k n).0 e) ∙ g in
          let (x, here) = kill_one-some q in
          let there = subst (λ o. Memᴰ x (kill_one o)) (sym i) here in
          let (r, j, may) = kill_one-MaySend (some q) x here in
          (
            x,
            (Memᴰ-append x (kill_one (pid k)) (force_kill_all_services pid m)).1 (inl there),
            subst (λ z. MaySend os self_pgid z x) (sym (some-injective q r j)) may,
          )
      | inr e ↦
          let (x, there, may) = killed m n p q (rw (e, lookup) at h) g in
          (x, (Memᴰ-append x (kill_one (pid k)) (force_kill_all_services pid m)).1 (inr there), may)
    ]

    -- Whoever is sent to is the process or the group of a service.
    services_only :
        (m : Map Process) (x : Sent)
        → Memᴰ x (force_kill_all_services pid m)
        → (n : Text) × (q : ℤ) × Memᴰ n (keys m) × (pid n ≡ some q) × MaySend os self_pgid q x
    unfolding force_kill_all_services
    services_only [] x h = absurd (Memᴰ.not-nil h)
    services_only ((k, v) ∷ m) x h =
        elim ((Memᴰ-append x (kill_one (pid k)) (force_kill_all_services pid m)).0 h) [
          | inl here ↦
              let (q, e, may) = kill_one-MaySend (pid k) x here in (k, q, Memᴰ.head refl, e, may)
          | inr there ↦
              let (n, q, mem, e, may) = services_only m x there in (n, q, Memᴰ.tail mem, e, may)
        ]

  -- Where the shutdown has to kill, it sends to the process or the group of every service that is
  -- active and has a process, and to nothing but the processes and groups of active services, never to
  -- the group of the supervisor.
  pub force_kill_all_services-targets :
      (pid : Text → Option ℤ) (m : Map Process)
      → ((n : Text) (p : Process) (q : ℤ)
          → lookup n m ≡ some p
          → pid n ≡ some q
          → (x : Sent) × Memᴰ x (force_kill_all_services pid m) × MaySend os self_pgid q x)
        × ((x : Sent)
            → Memᴰ x (force_kill_all_services pid m)
            → (n : Text) × (q : ℤ) × Memᴰ n (keys m) × (pid n ≡ some q) × MaySend os self_pgid q x)
  force_kill_all_services-targets pid m = (killed pid m, services_only pid m)
