-- ===== src/Supervisor/Monitor/Counted.antt =====
-- A service is reported unhealthy as the count of its failed checks says, whatever the supervisor and
-- the other monitors do between them.
use go_overlay.Base.{
  ℕ, suc, Text, ==_refl, ◌⊎◌, if◌then◌else◌, Map, lookup, lookup-insert, Bool, true, false, List,
  [], ◌∷◌, ◌++◌, some, ◌≡◌, ◌↔◌, inl, inr, refl, sym, ap, ◌∙◌, arith, All, Option-cases, Bool-cases,
  Memᴰ, Memᴰ-append,
}
use mathlib.Core.List.Memᴰ
use mathlib.Core.Option.{some-injective}
use go_overlay.Base.Int.{ℤ, pos}
use go_overlay.Config.{HealthCheckConfig, Service}
use go_overlay.Health.{
  apply_health_check_defaults, reaches, watch, unhealthy, start_health_monitor, HasRun, retries_of,
  start_health_monitor_iff,
}
use go_overlay.Supervisor.{◌>>=◌}
use go_overlay.Supervisor.Step.{Event, run}
use go_overlay.Supervisor.Monitor.{
  Monitored, Move, checks, start_monitor, on_check, check_events, move, run_monitored, events_at,
  events_of,
}
use go_overlay.Supervisor.Monitor.Laws.{run_monitored-run}
use go_overlay.Supervisor.Monitor.Checks.{
  Spares, checks_of, aside-lookup, aside-events, Move-cases, checks_of-aside,
}

-- The first move of a run and the rest of it
run_monitored-cons :
    (x : Move) (moves : List Move) (m m' : Monitored)
    → run_monitored (x ∷ moves) m ≡ some m'
    → (t : Monitored) × (move x m ≡ some t) × (run_monitored moves t ≡ some m')
unfolding run_monitored
run_monitored-cons x moves m m' h = elim (Option-cases (move x m)) [
  | inl e ↦ absurd (ground (arith, e))
  | inr (t, e) ↦ (t, e, sym (ap (λ o. o >>= run_monitored moves) e) ∙ h)
]

events_of-cons :
    (x : Move) (moves : List Move) (m t : Monitored)
    → move x m ≡ some t
    → events_of (x ∷ moves) m ≡ events_at x m ++ events_of moves t
unfolding events_of
events_of-cons x moves m t e = rw (e, events_of) refl

-- The event of the service is one of the first move or one of the rest.
Mem-cons :
    (n : Text) (x : Move) (moves : List Move) (m t : Monitored)
    → move x m ≡ some t
    → ¬ Memᴰ (Event.sickens n) (events_at x m)
    → Memᴰ (Event.sickens n) (events_of (x ∷ moves) m) ↔ Memᴰ (Event.sickens n) (events_of moves t)
Mem-cons n x moves m t e d =
    let both = Memᴰ-append (Event.sickens n) (events_at x m) (events_of moves t) in
    rw (events_of-cons x moves m t e)
      (λ h. elim (both.0 h) [ inl a ↦ absurd (d a) | inr r ↦ r ], λ r. both.1 (inr r))

checks_of-own :
    (n : Text) (healthy : Bool) (moves : List Move)
    → checks_of n (checks n healthy ∷ moves) ≡ healthy ∷ checks_of n moves
checks_of-own n healthy moves = ground (arith, ==_refl n)

-- The monitor's own move, where its entry is known
move-own :
    (n : Text) (r : ℤ) (c : ℕ) (healthy : Bool) (m : Monitored)
    → lookup n m.monitors ≡ some (r, c)
    → move (checks n healthy) m ≡ some (on_check n r c healthy m)
unfolding move
move-own n r c healthy m l = rw (l, move) refl

Counts : Text → ℤ → ℕ → List Move → Monitored → Type 0
Counts n r c moves m =
    Memᴰ (Event.sickens n) (events_of moves m) ↔ (watch r c (checks_of n moves) ≡ unhealthy)

-- A move that reports nothing leaves the count to the rest.
Counts-pass :
    (n : Text) (r : ℤ) (c d : ℕ) (x : Move) (moves : List Move) (m t : Monitored)
    → move x m ≡ some t
    → ¬ Memᴰ (Event.sickens n) (events_at x m)
    → watch r c (checks_of n (x ∷ moves)) ≡ watch r d (checks_of n moves)
    → Counts n r d moves t
    → Counts n r c (x ∷ moves) m
unfolding Counts
Counts-pass n r c d x moves m t e q w ih =
    let rest = Mem-cons n x moves m t e q in rw w (λ h. ih.0 (rest.0 h), λ h. rest.1 (ih.1 h))

-- what the monitor's own move is for the supervisor
events_at-own :
    (n : Text) (r : ℤ) (c : ℕ) (healthy : Bool) (m : Monitored)
    → lookup n m.monitors ≡ some (r, c)
    → events_at (checks n healthy) m ≡ check_events n healthy (some (r, c))
unfolding events_at
events_at-own n r c healthy m l = ap (check_events n healthy) l

Counts-healthy :
    (n : Text) (r : ℤ) (c : ℕ) (moves : List Move) (m : Monitored)
    → lookup n m.monitors ≡ some (r, c)
    → Counts n r 0 moves (on_check n r c true m)
    → Counts n r c (checks n true ∷ moves) m
unfolding watch
Counts-healthy n r c moves m l ih =
    Counts-pass n r c 0 (checks n true) moves m (on_check n r c true m) (move-own n r c true m l)
      (λ h. Memᴰ.not-nil (rw (events_at-own n r c true m l) at h))
      (ap (watch r c) (checks_of-own n true moves)) ih

Counts-failed :
    (n : Text) (r : ℤ) (c : ℕ) (moves : List Move) (m : Monitored)
    → lookup n m.monitors ≡ some (r, c)
    → reaches (suc c) r ≡ false
    → Counts n r (suc c) moves (on_check n r c false m)
    → Counts n r c (checks n false ∷ moves) m
unfolding watch
Counts-failed n r c moves m l b ih =
    Counts-pass n r c (suc c) (checks n false) moves m (on_check n r c false m)
      (move-own n r c false m l) (λ h. Memᴰ.not-nil (rw (events_at-own n r c false m l, b) at h))
      (ap (watch r c) (checks_of-own n false moves) ∙ rw b refl) ih

-- The last failed check is reported.
Counts-reached :
    (n : Text) (r : ℤ) (c : ℕ) (moves : List Move) (m : Monitored)
    → lookup n m.monitors ≡ some (r, c)
    → reaches (suc c) r ≡ true
    → Counts n r c (checks n false ∷ moves) m
unfolding Counts watch
Counts-reached n r c moves m l b =
    let at_once : events_at (checks n false) m ≡ Event.sickens n ∷ [] =
      events_at-own n r c false m l ∙ rw b refl in
    let first = events_of-cons (checks n false) moves m _ (move-own n r c false m l) in
    (
      λ h. ap (watch r c) (checks_of-own n false moves) ∙ rw b refl,
      λ h. rw (first, at_once) (Memᴰ.head refl),
    )

lookup-own :
    (n : Text) (r : ℤ) (c : ℕ) (healthy : Bool) (m : Monitored)
    → (healthy ≡ true) ⊎ (reaches (suc c) r ≡ false)
    → lookup n (on_check n r c healthy m).monitors ≡ some (r, if healthy then 0 else suc c)
unfolding on_check
lookup-own n r c true m d = ground (arith, lookup-insert n n (r, 0) m.monitors, ==_refl n)
lookup-own n r c false m (inl d) = absurd (ground (arith, d))
lookup-own n r c false m (inr b) =
    rw (b, on_check) (ground (arith, lookup-insert n n (r, suc c) m.monitors, ==_refl n))

-- The rest of a run after the monitor's own move
run_monitored-own :
    (n : Text) (r : ℤ) (c : ℕ) (healthy : Bool) (moves : List Move) (m m' : Monitored)
    → lookup n m.monitors ≡ some (r, c)
    → run_monitored (checks n healthy ∷ moves) m ≡ some m'
    → run_monitored moves (on_check n r c healthy m) ≡ some m'
run_monitored-own n r c healthy moves m m' l h =
    let rest = run_monitored-cons (checks n healthy) moves m m' h in
    let same : on_check n r c healthy m ≡ rest.0 =
      some-injective _ rest.0 (sym (move-own n r c healthy m l) ∙ rest.1) in
    ap (run_monitored moves) same ∙ rest.2

-- Where a monitor has counted some failures, it reports its service exactly when the loop over the
-- checks that come does.
counted :
    (n : Text) (r : ℤ) (c : ℕ) (moves : List Move) (m m' : Monitored)
    → lookup n m.monitors ≡ some (r, c)
    → All (Spares n) moves
    → run_monitored moves m ≡ some m'
    → Counts n r c moves m
unfolding Counts watch events_of
counted n r c [] m m' l a h = (λ p. absurd (Memᴰ.not-nil p), λ p. absurd (cc))
counted n r c (x ∷ moves) m m' l a h =
    let rest = run_monitored-cons x moves m m' h in
    let t = rest.0 in
    let ih = λ (d : ℕ) (u : Monitored). counted n r d moves u m' in
    elim (Move-cases n x) [
      | inl s ↦
          Counts-pass n r c c x moves m t rest.1 (aside-events n x m s)
            (ap (watch r c) (checks_of-aside n x moves s))
            (ih c t (aside-lookup n x m t a.0 s rest.1 ∙ l) a.1 rest.2)
      | inr (true, e) ↦ rw e (
          Counts-healthy n r c moves m l (
            ih 0 _ (lookup-own n r c true m (inl refl)) a.1
              (run_monitored-own n r c true moves m m' l (rw e at h))))
      | inr (false, e) ↦ elim (Bool-cases (reaches (suc c) r)) [
        | inl b ↦ rw e (Counts-reached n r c moves m l b)
        | inr b ↦ rw e (
            Counts-failed n r c moves m l b (
              ih (suc c) _ (lookup-own n r c false m (inr b)) a.1
                (run_monitored-own n r c false moves m m' l (rw e at h))))
      ]
    ]

start_monitor-starts :
    (service : Service) (hc : HealthCheckConfig) (ms : Map (ℤ × ℕ))
    → service.health_check ≡ some hc
    → lookup service.name (start_monitor service ms)
      ≡ some ((apply_health_check_defaults hc).retries, 0)
unfolding start_monitor
start_monitor-starts service hc ms e =
    let first : ℤ × ℕ = ((apply_health_check_defaults hc).retries, 0) in
    rw (e, start_monitor)
      (ground (arith, lookup-insert service.name service.name first ms, ==_refl service.name))

-- Take the monitored supervisor just after it has started the monitor of a service with a health
-- check whose number of retries is not negative, and a run of it in which the process of the service
-- neither starts again nor ends and no cancellation reaches its monitor. Then the supervisor makes
-- the same run of its own on the events of the moves, and in it the service is reported unhealthy
-- exactly where that many of its checks in a row fail, or three where the number is zero, whatever
-- the supervisor and the other monitors do in between.
pub run_monitored_iff :
    (service : Service) (hc : HealthCheckConfig) (r : ℕ) (ms : Map (ℤ × ℕ)) (moves : List Move)
    (m m' : Monitored)
    → service.health_check ≡ some hc
    → hc.retries ≡ pos r
    → m.monitors ≡ start_monitor service ms
    → All (Spares service.name) moves
    → run_monitored moves m ≡ some m'
    → (run (events_of moves m) m.supervisor ≡ some m'.supervisor)
      × (Memᴰ (Event.sickens service.name) (events_of moves m)
          ↔ HasRun (retries_of r) (checks_of service.name moves))
unfolding Counts start_health_monitor
run_monitored_iff service hc r ms moves m m' e q s a h =
    let n = service.name in
    let fresh = (apply_health_check_defaults hc).retries in
    let l : lookup n m.monitors ≡ some (fresh, 0) =
      ap (lookup n) s ∙ start_monitor-starts service hc ms e in
    let one = counted n fresh 0 moves m m' l a h in
    let two = start_health_monitor_iff hc r (checks_of n moves) q in
    (run_monitored-run moves m m' h, (λ x. two.0 (one.0 x), λ x. one.1 (two.1 x)))
