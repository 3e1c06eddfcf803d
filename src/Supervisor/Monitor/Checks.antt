-- ===== src/Supervisor/Monitor/Checks.antt =====
-- The checks of one service, between the start of its process and its end.
use Prim.{Unit, tt}
use go_overlay.Base.{
  ℕ, suc, Text, ◌==◌, ==_iff, Map, lookup, lookup-insert, lookup-delete, insert, delete, Bool, true,
  false, List, [], ◌∷◌, Option, none, some, if◌then◌else◌, ◌≡◌, ◌≢◌, ◌⊎◌, inl, inr, refl, sym, ap,
  ◌∙◌, arith, Option-cases, Bool-cases, Memᴰ, Memᴰ-cons,
}
use mathlib.Core.List.Memᴰ
use mathlib.Core.Option.{some-injective}
use go_overlay.Base.Int.{ℤ}
use go_overlay.Config.{Service}
use go_overlay.Health.{apply_health_check_defaults, reaches}
use go_overlay.Supervisor.{State}
use go_overlay.Supervisor.Counts.{count-take}
use go_overlay.Supervisor.Step.{Event, take, launching_name, step}
use go_overlay.Supervisor.Monitor.{
  Monitored, Move, does, checks, cancels, start_monitor, monitors_after, on_check, is_sickens,
  on_event, check_events, move, events_at,
}

-- The process of the service neither starts nor ends, and its monitor is not canceled.
abbrev pub Spares : Text → Move → Type 0
Spares n (does (Event.registers k)) = k ≢ n
Spares n (does (Event.exits k e)) = k ≢ n
Spares n (cancels k) = k ≢ n
Spares n _ = Unit

-- the results of the checks of the service
abbrev pub checks_of : Text → List Move → List Bool
checks_of n [] = []
checks_of n (checks k healthy ∷ moves) =
    let rest = checks_of n moves in if k == n then healthy ∷ rest else rest
checks_of n (does e ∷ moves) = checks_of n moves
checks_of n (cancels k ∷ moves) = checks_of n moves

start_monitor-other :
    (n : Text) (service : Service) (ms : Map (ℤ × ℕ))
    → service.name ≢ n
    → lookup n (start_monitor service ms) ≡ lookup n ms
unfolding start_monitor
start_monitor-other n service ms d = elim (Option-cases service.health_check) [
  | inl e ↦ rw (e, start_monitor) refl
  | inr (hc, e) ↦
      rw (e, start_monitor)
        (ground (
          arith,
          lookup-insert service.name n ((apply_health_check_defaults hc).retries, 0) ms,
          ==_iff service.name n,
        ))
]

delete-other : {V : Type 0} (k n : Text) (m : Map V) → k ≢ n → lookup n (delete k m) ≡ lookup n m
delete-other k n m d = ground (arith, lookup-delete k n m, ==_iff k n)

insert-other :
    {V : Type 0} (k n : Text) (v : V) (m : Map V) → k ≢ n → lookup n (insert k v m) ≡ lookup n m
insert-other k n v m d = ground (arith, lookup-insert k n v m, ==_iff k n)

-- An event that spares the service leaves its monitor alone.
after-other :
    (n : Text) (e : Event) (s : State) (ms : Map (ℤ × ℕ))
    → Spares n (does e)
    → lookup n (monitors_after e s ms) ≡ lookup n ms
unfolding monitors_after
after-other n (Event.registers k) s ms d = elim (Option-cases (take launching_name k s.launching)) [
  | inl e ↦ rw (e, monitors_after) refl
  | inr ((l, rest), e) ↦
      rw (e, monitors_after)
        (start_monitor-other n l.service ms
          (λ p. d (sym (count-take launching_name k n s.launching rest l e).0 ∙ p)))
]
after-other n (Event.exits k x) s ms d = elim (Option-cases (lookup k s.active)) [
  | inl e ↦ rw (e, monitors_after) refl
  | inr (p, e) ↦ rw (e, monitors_after) (delete-other k n ms d)
]
after-other n (Event.enters k) s ms d = refl
after-other n (Event.scripted k b) s ms d = refl
after-other n (Event.hears k x) s ms d = refl
after-other n (Event.launches k x) s ms d = refl
after-other n (Event.observes k) s ms d = refl
after-other n (Event.fires k x) s ms d = refl
after-other n (Event.sickens k) s ms d = refl
after-other n (Event.restarts k) s ms d = refl
after-other n Event.signals s ms d = refl
after-other n (Event.aborts k x) s ms d = refl
after-other n (Event.lapses service) s ms d = refl

-- A move that spares the service and is none of its checks
abbrev pub IsAside : Text → Move → Type 0
IsAside n (checks k healthy) = k ≢ n
IsAside n (does e) = Unit
IsAside n (cancels k) = Unit

check-other :
    (k n : Text) (r : ℤ) (c : ℕ) (healthy : Bool) (m : Monitored)
    → k ≢ n
    → lookup n (on_check k r c healthy m).monitors ≡ lookup n m.monitors
unfolding on_check
check-other k n r c true m d = insert-other k n (r, 0) m.monitors d
check-other k n r c false m d = elim (Bool-cases (reaches (suc c) r)) [
  | inl b ↦ rw (b, on_check) (delete-other k n m.monitors d)
  | inr b ↦ rw (b, on_check) (insert-other k n (r, suc c) m.monitors d)
]

cancel-lookup :
    (b : Bool) (k n : Text) (m m' : Monitored)
    → k ≢ n
    → (if b then some (record m { monitors = delete k m.monitors }) else some m) ≡ some m'
    → lookup n m'.monitors ≡ lookup n m.monitors
cancel-lookup true k n m m' d h =
    ap (λ o. lookup n o.monitors) (sym (some-injective _ m' h)) ∙ delete-other k n m.monitors d
cancel-lookup false k n m m' d h = ap (λ o. lookup n o.monitors) (sym (some-injective m m' h))

pub aside-lookup :
    (n : Text) (x : Move) (m m' : Monitored)
    → Spares n x
    → IsAside n x
    → move x m ≡ some m'
    → lookup n m'.monitors ≡ lookup n m.monitors
unfolding move on_event on_check
aside-lookup n (does e) m m' d a h = elim (Bool-cases (is_sickens e)) [
  | inl b ↦ ap (λ o. lookup n o.monitors) (sym (some-injective m m' (rw (b, move) at h)))
  | inr b ↦ elim (Option-cases (step e m.supervisor)) [
    | inl i ↦ absurd (ground (arith, b, i))
    | inr (t, i) ↦
        ap (λ o. lookup n o.monitors) (sym (some-injective _ m' (rw (b, i, move, on_event) at h)))
        ∙ after-other n e m.supervisor m.monitors d
  ]
]
aside-lookup n (checks k healthy) m m' d a h = elim (Option-cases (lookup k m.monitors)) [
  | inl e ↦ ap (λ o. lookup n o.monitors) (sym (some-injective m m' (rw (e, move) at h)))
  | inr ((r, c), e) ↦
      ap (λ o. lookup n o.monitors) (sym (some-injective _ m' (rw (e, move) at h)))
      ∙ check-other k n r c healthy m a
]
aside-lookup n (cancels k) m m' d a h = cancel-lookup m.supervisor.shut_down k n m m' d h

-- The event of another monitor
named_by : Event → Text
named_by (Event.sickens k) = k
named_by _ = []

not-alone : (k n : Text) → k ≢ n → ¬ Memᴰ (Event.sickens n) (Event.sickens k ∷ [])
unfolding named_by
not-alone k n d h = elim ((Memᴰ-cons (Event.sickens n) (Event.sickens k) []).0 h) [
  | inl e ↦ d (sym (ap named_by e))
  | inr r ↦ Memᴰ.not-nil r
]

check-spares :
    (k n : Text) (healthy : Bool) (o : Option (ℤ × ℕ))
    → k ≢ n
    → ¬ Memᴰ (Event.sickens n) (check_events k healthy o)
check-spares k n healthy none d h = Memᴰ.not-nil h
check-spares k n true (some (r, c)) d h = Memᴰ.not-nil h
check-spares k n false (some (r, c)) d h = elim (Bool-cases (reaches (suc c) r)) [
  | inl b ↦ not-alone k n d (rw b at h)
  | inr b ↦ Memᴰ.not-nil (rw b at h)
]

-- An event that is none of a monitor is not the one of a service that is unhealthy.
is_sickens-sickens : (e : Event) (n : Text) → is_sickens e ≡ false → e ≢ Event.sickens n
is_sickens-sickens e n b h = absurd (ground (arith, b, ap is_sickens h))

pub aside-events :
    (n : Text) (x : Move) (m : Monitored) → IsAside n x → ¬ Memᴰ (Event.sickens n) (events_at x m)
unfolding events_at
aside-events n (does e) m a h = elim (Bool-cases (is_sickens e)) [
  | inl b ↦ Memᴰ.not-nil (rw (b, events_at) at h)
  | inr b ↦ elim ((Memᴰ-cons (Event.sickens n) e []).0 (rw (b, events_at) at h)) [
    | inl i ↦ is_sickens-sickens e n b (sym i)
    | inr r ↦ Memᴰ.not-nil r
  ]
]
aside-events n (checks k healthy) m a h = check-spares k n healthy (lookup k m.monitors) a h
aside-events n (cancels k) m a h = Memᴰ.not-nil h

-- A move is a check of the service, or it is none.
pub Move-cases : (n : Text) (x : Move) → IsAside n x ⊎ ((healthy : Bool) × (x ≡ checks n healthy))
Move-cases n (does e) = inl tt
Move-cases n (cancels k) = inl tt
Move-cases n (checks k healthy) = elim (Bool-cases (k == n)) [
  | inl b ↦ inr (healthy, ap (λ t. checks t healthy) ((==_iff k n).0 b))
  | inr b ↦ inl (λ e. absurd (ground (arith, b, (==_iff k n).1 e)))
]

pub checks_of-aside :
    (n : Text) (x : Move) (moves : List Move)
    → IsAside n x
    → checks_of n (x ∷ moves) ≡ checks_of n moves
checks_of-aside n (does e) moves a = refl
checks_of-aside n (cancels k) moves a = refl
checks_of-aside n (checks k healthy) moves a = ground (arith, ==_iff k n)
