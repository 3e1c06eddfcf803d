-- ===== src/Dependencies/Cycles/Found.antt =====
-- The search of `hasCycles` that returns true. A name that is no service stays on the recursion
-- stack.
use mathlib.Core.Logic.{⊎_elim}
use go_overlay.Base.{
  ℕ, zero, suc, Text, ==_iff, Map, lookup, ◌≡◌, refl, true, List, [], ◌∷◌, none, Memᴰ, inl, inr,
  arith, Option-cases, sym, ◌⊎◌, ◌≢◌, subst, Bool-cases,
}
use go_overlay.Config.{Service}
use go_overlay.Dependencies.Graph.{Edge, Chain, one, more, Chain-front, IsClosed}
use go_overlay.Dependencies.Cycles.{
  Marks, Outcome, cycle, clear, out_of_fuel, and_then, mark, enter, leave, check_dep, check_deps,
  has_cycles,
}

module _ (g : Map Service) where
  -- A chain of dependencies leads from `name` to a cycle.
  abbrev pub CycleFrom : Text → Type 0
  CycleFrom name = (x : Text) × Chain g name x × Chain g x x

  -- The recursion stack is a trail of dependencies to `name`.
  abbrev pub IsTrail : Text → Marks → Type 0
  IsTrail name m = (x : Text) → m.stack x ≡ true → Chain g x name

  -- The trail with its end.
  abbrev IsTrailTo : Text → Marks → Type 0
  IsTrailTo name m = (x : Text) → m.stack x ≡ true → (x ≡ name) ⊎ Chain g x name

  abbrev Within : Marks → Marks → Type 0
  Within m' m = (x : Text) → m'.stack x ≡ true → m.stack x ≡ true

  -- What a search of `name` from the marks `m` promises.
  abbrev pub Finds : Text → Marks → Outcome → Type 0
  Finds name m cycle = CycleFrom name
  Finds name m (clear m') = Within m' m
  Finds name m out_of_fuel = Unit

  IsTrailTo-enter : (name : Text) (m : Marks) → IsTrail name m → IsTrailTo name (enter name m)
  unfolding mark
  IsTrailTo-enter name m h x s = ground (arith, ==_iff name x, h x)

  Within-leave : (name : Text) (m m' : Marks) → Within m' (enter name m) → Within (leave name m') m
  unfolding mark
  Within-leave name m m' h x s = ground (arith, h x)

  Finds-and_then :
      (name : Text) (m : Marks) (r : Outcome) (k : Marks → Outcome)
      → Finds name m r
      → ((m' : Marks) → Within m' m → Finds name m' (k m'))
      → Finds name m (and_then r k)
  Finds-and_then name m cycle k h rest = h
  Finds-and_then name m (clear m') k h rest = widen (k m') (rest m' h)
    where
      widen : (r : Outcome) → Finds name m' r → Finds name m r
      widen cycle f = f
      widen (clear m2) f = λ x s. h x (f x s)
      widen out_of_fuel f = tt
  Finds-and_then name m out_of_fuel k h rest = tt

  module _ (search : Text → Marks → Outcome)
      (finds : (d : Text) (m : Marks) → lookup d g ≢ none → IsTrail d m → Finds d m (search d m))
      (closed : IsClosed g) (name : Text) where
    back-Edge :
        {d : Text} (m : Marks)
        → IsTrailTo name m
        → Edge g name d
        → m.stack d ≡ true
        → CycleFrom name
    back-Edge {d} m h e s =
        (d, one e, ⊎_elim (λ p. subst (λ x. Chain g x d) (sym p) (one e)) (λ c. more c e) (h d s))

    deeper : {d : Text} (m : Marks) (r : Outcome) → Edge g name d → Finds d m r → Finds name m r
    deeper m cycle e (x, to, loop) = (x, Chain-front g e to, loop)
    deeper m (clear m') e f = f
    deeper m out_of_fuel e f = tt

    check_dep-Finds :
        (d : Text) (m : Marks)
        → IsTrailTo name m
        → Edge g name d
        → Finds name m (check_dep search d m)
    unfolding check_dep
    check_dep-Finds d m h e = elim (Bool-cases (m.visited d)) [
      | inl seen ↦ elim (Bool-cases (m.stack d)) [
        | inl on ↦ rw (seen, on) (back-Edge m h e on)
        | inr off ↦ rw (seen, off) (λ x s. s)
      ]
      | inr new ↦ rw new (
          deeper m (search d m) e (
            finds d m (closed name d e) (λ x s.
              ⊎_elim (λ p. subst (λ y. Chain g y d) (sym p) (one e)) (λ c. more c e) (h x s))))
    ]

    check_deps-Finds :
        (deps : List Text) (m : Marks)
        → IsTrailTo name m
        → ((d : Text) → Memᴰ d deps → Edge g name d)
        → Finds name m (check_deps search deps m)
    unfolding check_deps
    check_deps-Finds [] m h es = λ x s. s
    check_deps-Finds (d ∷ deps) m h es =
        Finds-and_then name m (check_dep search d m) (check_deps search deps)
          (check_dep-Finds d m h (es d (Memᴰ.head refl)))
          (λ m' w. check_deps-Finds deps m' (λ x s. h x (w x s)) (λ x q. es x (Memᴰ.tail q)))

  Finds-leave :
      (name : Text) (m : Marks) (r : Outcome)
      → Finds name (enter name m) r
      → Finds name m (and_then r (λ m'. clear (leave name m')))
  Finds-leave name m cycle h = h
  Finds-leave name m (clear m') h = Within-leave name m m' h
  Finds-leave name m out_of_fuel h = tt

  -- Where `hasCycles` returns true there is a cycle, and where it returns false the stack is as
  -- it was.
  pub has_cycles-Finds :
      (closed : IsClosed g) (fuel : ℕ) (name : Text) (m : Marks)
      → lookup name g ≢ none
      → IsTrail name m
      → Finds name m (has_cycles g fuel name m)
  unfolding has_cycles
  has_cycles-Finds closed zero name m there h = tt
  has_cycles-Finds closed (suc fuel) name m there h = elim (Option-cases (lookup name g)) [
    | inl e ↦ absurd (there e)
    | inr (s, e) ↦
        rw (e, has_cycles)
          (Finds-leave name m _ (
            check_deps-Finds (has_cycles g fuel) (has_cycles-Finds closed fuel) closed name
              s.depends_on (enter name m) (IsTrailTo-enter name m h) (λ d q. (s, e, q))))
  ]
