-- ===== src/Supervisor/Settled.antt =====
-- What the shutdown of cmd/go-overlay/main.go comes to.
use go_overlay.Base.{
  Text, ==_refl, Map, lookup, keys, List, [], ◌∷◌, ◌++◌, Option, none, some, ◌≡◌, ◌∙◌, true, refl,
  sym, ap, arith, length, map, subst,
}
use mathlib.Core.Option.{some-injective}
use go_overlay.Supervisor.{State, Launching, ◌>>=◌}
use go_overlay.Supervisor.Invariant.{IsValid}
use go_overlay.Supervisor.Step.{Event, exits, launching_name, run}
use go_overlay.Supervisor.Shutdown.{run-stays_down}
use go_overlay.Supervisor.Counts.{count}
use go_overlay.Supervisor.Drain.{run-drains}
use go_overlay.Supervisor.Reach.{run-append}

all_absent {ℓ} : {V : Type ℓ} (m : Map V) → ((n : Text) → lookup n m ≡ none) → m ≡ []
unfolding lookup
all_absent [] h = refl
all_absent ((k, v) ∷ m) h = absurd (ground (arith, h k, ==_refl k))

lookup_of_empty {ℓ} : {V : Type ℓ} (m : Map V) (n : Text) → m ≡ [] → lookup n m ≡ none
unfolding lookup
lookup_of_empty m n h = rw h refl

count_of_empty : (ls : List Launching) (n : Text) → ls ≡ [] → count launching_name n ls ≡ 0
unfolding count
count_of_empty ls n h = rw h refl

-- Where a supervisor in a valid state is shut down, no `startService` is under way past its look at the
-- shutdown, and each of its active processes ends, with any error or none, then whatever events
-- follow, it runs to a valid state in which no service is active and the wait group is zero, without
-- a second close of a channel and with the wait group never below zero.
pub run-settles :
    (x : Text → Option Text) (es : List Event) (s : State)
    → IsValid s
    → s.shut_down ≡ true
    → s.launching ≡ []
    → (t : State) × (run (map (λ n. exits n (x n)) (keys s.active) ++ es) s ≡ some t)
      × IsValid t
      × (t.active ≡ [])
      × (t.shutdown_wg ≡ 0)
run-settles x es s v d l =
    let ends = map (λ n. exits n (x n)) (keys s.active) in
    let (u, e, w, empty, zero) = run-drains x s v in
    let (u', e', w', down) = run-stays_down ends s v d in
    let still : u.shut_down ≡ true =
      ap (λ r. r.shut_down) (some-injective u u' (sym e ∙ e')) ∙ down.down in
    let none_starts : (n : Text) → count launching_name n u.launching ≡ 0 = λ n.
      subst (λ r. count launching_name n r.launching ≡ 0) (some-injective u' u (sym e' ∙ e))
        (down.unlaunched n (count_of_empty s.launching n l)) in
    let (t, f, y, after) = run-stays_down es u w still in
    let gone : t.active ≡ [] =
      all_absent t.active
        (λ n. (after.absent n (lookup_of_empty u.active n empty, none_starts n)).0) in
    (t, run-append ends es s ∙ ap (λ o. o >>= run es) e ∙ f, y, gone, y.counted ∙ ap length gone)
