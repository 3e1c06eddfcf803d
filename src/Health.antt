-- ===== src/Health.antt =====
-- cmd/go-overlay/health.go: the defaults of a health check, and the monitor's count of failed
-- checks. The outcomes of `performHealthCheck`, one at each tick, are a list.
pub mod Check
use Prim.{Unit, tt}
use go_overlay.Base.{
  ℕ, zero, suc, ◌+◌, Bool, true, false, List, [], ◌∷◌, ◌≡◌, ◌↔◌, ◌⊎◌, inl, inr, refl, subst, arith,
  leb, if◌then◌else◌,
}
use go_overlay.Base.Int.{ℤ, pos, negsuc, is_zero}
use go_overlay.Config.{HealthCheckConfig}

-- `if v == 0 { v = d }`
abbrev or_default : ℕ → ℤ → ℤ
or_default d v = if is_zero v then pos d else v

unfoldable pub apply_health_check_defaults : HealthCheckConfig → HealthCheckConfig
apply_health_check_defaults hc = record hc {
  interval = or_default 30 hc.interval;
  retries = or_default 3 hc.retries;
  timeout = or_default 5 hc.timeout;
  start_delay = or_default 10 hc.start_delay;
}

-- The monitor calls `handleUnhealthyService` and ends, or it goes on with its count of failures.
pub data Watch : Type 0 where
  unhealthy : Watch
  watching : ℕ → Watch

-- `failureCount >= config.Retries`
abbrev pub reaches : ℕ → ℤ → Bool
reaches n (pos k) = leb k n
reaches n (negsuc k) = true

-- the loop over the ticks
unfoldable pub watch : ℤ → ℕ → List Bool → Watch
watch retries failures [] = watching failures
watch retries failures (true ∷ checks) = watch retries 0 checks
watch retries failures (false ∷ checks) =
    let rest = watch retries (suc failures) checks in
    if reaches (suc failures) retries then unhealthy else rest

unfoldable pub start_health_monitor : HealthCheckConfig → List Bool → Watch
start_health_monitor hc checks = watch (apply_health_check_defaults hc).retries 0 checks

-- The first `k` checks fail.
abbrev pub Starts : ℕ → List Bool → Type 0
Starts zero checks = Unit
Starts (suc k) [] = ⊥
Starts (suc k) (true ∷ checks) = ⊥
Starts (suc k) (false ∷ checks) = Starts k checks

-- Somewhere `k` checks in a row fail.
abbrev pub HasRun : ℕ → List Bool → Type 0
HasRun k [] = Starts k []
HasRun k (c ∷ checks) = Starts k (c ∷ checks) ⊎ HasRun k checks

HasRun-Starts : (k : ℕ) (checks : List Bool) → Starts k checks → HasRun k checks
HasRun-Starts k [] h = h
HasRun-Starts k (c ∷ checks) h = inl h

-- Where more checks fail at the start, fewer do.
Starts-suc : (k : ℕ) (checks : List Bool) → Starts (suc k) checks → Starts k checks
Starts-suc zero checks h = tt
Starts-suc (suc k) [] h = elim h [ ]
Starts-suc (suc k) (true ∷ checks) h = elim h [ ]
Starts-suc (suc k) (false ∷ checks) h = Starts-suc k checks h

Starts-less : (c k j : ℕ) (checks : List Bool) → k ≡ c + j → Starts k checks → Starts j checks
Starts-less zero k j checks e h = subst (λ i. Starts i checks) (omega (arith, e)) h
Starts-less (suc c) k j checks e h =
    let e' : k ≡ suc (c + j) = omega (arith, e) in
    Starts-less c (c + j) j checks refl
      (Starts-suc (c + j) checks (subst (λ i. Starts i checks) e' h))

watch_iff :
    (k c j : ℕ) (checks : List Bool)
    → k ≡ c + j
    → (watch (pos (suc k)) c checks ≡ unhealthy) ↔ (Starts (suc j) checks ⊎ HasRun (suc k) checks)
unfolding watch
watch_iff k c j [] e = (λ h. absurd (cc), λ h. elim h [ inl x ↦ elim x [ ] | inr x ↦ elim x [ ] ])
watch_iff k c j (true ∷ checks) e =
    let ih = watch_iff k 0 k checks (omega arith) in
    (
      λ h. elim (ih.0 h) [
        | inl s ↦ inr (inr (HasRun-Starts (suc k) checks s))
        | inr r ↦ inr (inr r)
      ],
      λ h. elim h [
        | inl x ↦ elim x [ ]
        | inr y ↦ elim y [ inl x ↦ elim x [ ] | inr r ↦ ih.1 (inr r) ]
      ],
    )
watch_iff k c zero (false ∷ checks) e = (λ h. inl tt, λ h. ground (arith, e))
watch_iff k c (suc j) (false ∷ checks) e =
    let ih = watch_iff k (suc c) j checks (omega (arith, e)) in
    let short : leb (suc k) (suc c) ≡ false = ground (arith, e) in
    rw short (
      λ h. elim (ih.0 h) [ inl s ↦ inl s | inr r ↦ inr (inr r) ],
      λ h. elim h [
        | inl s ↦ ih.1 (inl s)
        | inr y ↦ elim y [
          | inl s ↦ ih.1 (inl (Starts-less c k (suc j) checks e s))
          | inr r ↦ ih.1 (inr r)
        ]
      ],
    )

from_fresh :
    (k : ℕ) (checks : List Bool)
    → (watch (pos (suc k)) 0 checks ≡ unhealthy) ↔ HasRun (suc k) checks
from_fresh k checks =
    let w = watch_iff k 0 k checks (omega arith) in
    (λ h. elim (w.0 h) [ inl s ↦ HasRun-Starts (suc k) checks s | inr r ↦ r ], λ h. w.1 (inr h))

-- 3 where the configuration says nothing
abbrev pub retries_of : ℕ → ℕ
retries_of zero = 3
retries_of (suc k) = suc k

-- Where the configured number of retries is not negative, the monitor reports the service unhealthy
-- exactly when that many checks in a row have failed, or three where the number is zero.
pub start_health_monitor_iff :
    (hc : HealthCheckConfig) (r : ℕ) (checks : List Bool)
    → hc.retries ≡ pos r
    → (start_health_monitor hc checks ≡ unhealthy) ↔ HasRun (retries_of r) checks
unfolding start_health_monitor apply_health_check_defaults
start_health_monitor_iff hc zero checks e = rw e (from_fresh 2 checks)
start_health_monitor_iff hc (suc k) checks e =
    let set : is_zero (pos (suc k)) ≡ false = ground arith in rw (e, set) (from_fresh k checks)
