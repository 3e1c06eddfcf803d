-- ===== src/Dependencies/Cycles/Clear.antt =====
-- The search of `hasCycles` that returns false.
use go_overlay.Base.{
  ℕ, zero, suc, Text, ==_iff, Map, lookup, ◌≡◌, true, false, List, [], ◌∷◌, some, Memᴰ, inl, inr,
  arith, Option-cases, sym, ◌∙◌,
}
use mathlib.Core.List.Memᴰ
use mathlib.Core.Logic.{⊎_elim}
use mathlib.Core.Option.{some-injective, some-ne-none}
use go_overlay.Config.{Service}
use go_overlay.Dependencies.Graph.{Grounded, grounded}
use go_overlay.Dependencies.Cycles.{
  Marks, Outcome, clear, and_then, mark, enter, leave, check_dep, check_deps, has_cycles,
}

module _ (g : Map Service) where
  -- Every name that the search has left is grounded.
  abbrev pub IsSettled : Marks → Type 0
  IsSettled m = (x : Text) → m.visited x ≡ true → m.stack x ≡ false → Grounded g x

  -- What a search of `name` from settled marks promises if it returns false.
  abbrev pub Clears : Text → Outcome → Type 0
  Clears name (clear m) = IsSettled m × Grounded g name
  Clears name _ = Unit

  abbrev ClearsAll : List Text → Outcome → Type 0
  ClearsAll deps (clear m) = IsSettled m × ((d : Text) → Memᴰ d deps → Grounded g d)
  ClearsAll deps _ = Unit

  IsSettled-enter : (name : Text) (m : Marks) → IsSettled m → IsSettled (enter name m)
  unfolding mark
  IsSettled-enter name m h x v s = h x (ground arith) (ground arith)

  IsSettled-leave :
      (name : Text) (m : Marks) → IsSettled m → Grounded g name → IsSettled (leave name m)
  unfolding mark
  IsSettled-leave name m h n x v s = ground (arith, ==_iff name x, h x)

  ClearsAll-cons :
      (d : Text) (deps : List Text) (r : Outcome)
      → Grounded g d
      → ClearsAll deps r
      → ClearsAll (d ∷ deps) r
  ClearsAll-cons d deps (clear m) n h =
      (h.0, λ x q. ⊎_elim (λ p. rw p n) (h.1 x) (Memᴰ.cases_cons q))
  ClearsAll-cons d deps _ n h = tt

  ClearsAll-and_then :
      (d : Text) (deps : List Text) (r : Outcome) (k : Marks → Outcome)
      → Clears d r
      → ((m : Marks) → IsSettled m → ClearsAll deps (k m))
      → ClearsAll (d ∷ deps) (and_then r k)
  ClearsAll-and_then d deps (clear m) k h rest = ClearsAll-cons d deps (k m) h.1 (rest m h.0)
  ClearsAll-and_then d deps _ k h rest = tt

  module _ (search : Text → Marks → Outcome)
      (clears : (d : Text) (m : Marks) → IsSettled m → Clears d (search d m)) where
    check_dep-Clears : (d : Text) (m : Marks) → IsSettled m → Clears d (check_dep search d m)
    unfolding check_dep
    check_dep-Clears d m h = ground (arith, clears d m h, h d)

    check_deps-Clears :
        (deps : List Text) (m : Marks) → IsSettled m → ClearsAll deps (check_deps search deps m)
    unfolding check_deps
    check_deps-Clears [] m h = (h, λ d q. absurd (Memᴰ.not-nil q))
    check_deps-Clears (d ∷ deps) m h =
        ClearsAll-and_then d deps (check_dep search d m) (check_deps search deps)
          (check_dep-Clears d m h) (check_deps-Clears deps)

  Clears-leave :
      (name : Text) (s : Service) (r : Outcome)
      → lookup name g ≡ some s
      → ClearsAll s.depends_on r
      → Clears name (and_then r (λ m. clear (leave name m)))
  Clears-leave name s (clear m) e h =
      let n = grounded (λ b (t, f, q). h.1 b (rw (← some-injective s t (sym e ∙ f)) at q)) in
      (IsSettled-leave name m h.0 n, n)
  Clears-leave name s _ e h = tt

  -- Where `hasCycles` returns false, the marks that it leaves are settled and the name is grounded.
  pub has_cycles-Clears :
      (fuel : ℕ) (name : Text) (m : Marks) → IsSettled m → Clears name (has_cycles g fuel name m)
  unfolding has_cycles
  has_cycles-Clears zero name m h = tt
  has_cycles-Clears (suc fuel) name m h = elim (Option-cases (lookup name g)) [
    | inl e ↦
        rw (e, has_cycles)
          (IsSettled-enter name m h, grounded (λ b (t, f, _). absurd (some-ne-none t (sym f ∙ e))))
    | inr (s, e) ↦
        rw (e, has_cycles)
          (Clears-leave name s _ e (
            check_deps-Clears (has_cycles g fuel) (has_cycles-Clears fuel) s.depends_on
              (enter name m) (IsSettled-enter name m h)))
  ]
