-- ===== src/Supervisor/Reach.antt =====
-- States that some sequence of events leads to.
use go_overlay.Base.{
  List, [], ◌∷◌, ◌++◌, some, ◌≡◌, ◌∙◌, refl, sym, ap, subst, inl, inr, Option-cases,
}
use mathlib.Core.Option.{some-injective}
use go_overlay.Supervisor.{State, ◌>>=◌}
use go_overlay.Supervisor.Invariant.{IsValid}
use go_overlay.Supervisor.Safety.{step-IsValid}
use go_overlay.Supervisor.Step.{Event, step, run}

pub run-append : (es fs : List Event) (s : State) → run (es ++ fs) s ≡ (run es s >>= run fs)
unfolding run
run-append [] fs s = refl
run-append (e ∷ es) fs s = elim (Option-cases (step e s)) [
  | inl h ↦ rw h refl
  | inr (t, h) ↦ rw h (run-append es fs t)
]

-- Some sequence of events leads from `s` to a state with this property.
abbrev pub Reach : State → (State → Type 0) → Type 0
Reach s Q = (es : List Event) × (t : State) × (run es s ≡ some t) × Q t

pub reach_here : (Q : State → Type 0) (s : State) → Q s → Reach s Q
unfolding run
reach_here Q s q = ([], s, refl, q)

pub reach_step :
    (Q : State → Type 0) (e : Event) (s t : State) → step e s ≡ some t → Q t → Reach s Q
unfolding run
reach_step Q e s t h q = (e ∷ [], t, rw h refl, q)

pub reach_then :
    (Q R : State → Type 0) (s : State) → Reach s Q → ((t : State) → Q t → Reach t R) → Reach s R
reach_then Q R s (es, t, h, q) f =
    let (fs, u, g, r) = f t q in (es ++ fs, u, run-append es fs s ∙ ap (λ o. o >>= run fs) h ∙ g, r)

-- An event leads from a valid state to a valid state.
pub stepped-IsValid : (e : Event) (s t : State) → step e s ≡ some t → IsValid s → IsValid t
stepped-IsValid e s t h v =
    let (u, g, w) = step-IsValid e s v in subst IsValid (some-injective u t (sym g ∙ h)) w
