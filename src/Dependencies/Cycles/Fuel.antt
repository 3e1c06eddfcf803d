-- ===== src/Dependencies/Cycles/Fuel.antt =====
-- The fuel of `hasCycles`: each call marks one more service.
use mathlib.Core.List.Memᴰ
use go_overlay.Base.{
  ℕ, zero, suc, Text, ==_iff, Map, lookup, ◌≡◌, refl, Bool, true, false, List, [], ◌∷◌, Memᴰ, inl,
  inr, arith, Option-cases, ◌≢◌, ◌≤◌, ◌<◌, keys, mem-keys, length, if◌then◌else◌,
}
use go_overlay.Config.{Service}
use go_overlay.Dependencies.Cycles.{
  Marks, Outcome, cycle, clear, out_of_fuel, and_then, mark, enter, leave, check_dep, check_deps,
  has_cycles, no_marks,
}

-- how many of the names are not visited
unvisited : (Text → Bool) → List Text → ℕ
unvisited v [] = 0
unvisited v (k ∷ ks) = if v k then unvisited v ks else suc (unvisited v ks)

abbrev Grows : (Text → Bool) → (Text → Bool) → Type 0
Grows v w = (x : Text) → v x ≡ true → w x ≡ true

unvisited_mono : (v w : Text → Bool) (ks : List Text) → Grows v w → unvisited w ks ≤ unvisited v ks
unfolding unvisited
unvisited_mono v w [] h = omega arith
unvisited_mono v w (k ∷ ks) h = ground (arith, unvisited_mono v w ks h, h k)

Grows-mark : (v : Text → Bool) (name : Text) → Grows v (mark name true v)
unfolding mark
Grows-mark v name x h = ground arith

-- marking a new name of the list leaves fewer
unvisited-mark :
    (v : Text → Bool) (name : Text) (ks : List Text)
    → v name ≡ false
    → Memᴰ name ks
    → unvisited (mark name true v) ks < unvisited v ks
unfolding unvisited mark
unvisited-mark v name [] new m = absurd (Memᴰ.not-nil m)
unvisited-mark v name (k ∷ ks) new (Memᴰ.head p) =
    ground (arith, ==_iff name k, unvisited_mono v (mark name true v) ks (Grows-mark v name))
unvisited-mark v name (k ∷ ks) new (Memᴰ.tail m) =
    ground (arith, unvisited-mark v name ks new m, ==_iff name k)

unvisited-le-length : (v : Text → Bool) (ks : List Text) → unvisited v ks ≤ length ks
unfolding unvisited
unvisited-le-length v [] = omega arith
unvisited-le-length v (k ∷ ks) = ground (arith, unvisited-le-length v ks)

-- The search ended, and what was visited still is.
abbrev Ends : Marks → Outcome → Type 0
Ends m cycle = Unit
Ends m (clear m') = Grows m.visited m'.visited
Ends m out_of_fuel = ⊥

Ends-and_then :
    (m : Marks) (r : Outcome) (k : Marks → Outcome)
    → Ends m r
    → ((m' : Marks) → Grows m.visited m'.visited → Ends m' (k m'))
    → Ends m (and_then r k)
Ends-and_then m cycle k h rest = tt
Ends-and_then m (clear m') k h rest = widen (k m') (rest m' h)
  where
    widen : (r : Outcome) → Ends m' r → Ends m r
    widen cycle f = tt
    widen (clear m2) f = λ x s. f x (h x s)
    widen out_of_fuel f = f
Ends-and_then m out_of_fuel k h rest = h

module _ (g : Map Service) where
  module _ (search : Text → Marks → Outcome) (fuel : ℕ)
      (ends : (d : Text) (m : Marks)
        → m.visited d ≡ false
        → unvisited m.visited (keys g) < fuel
        → Ends m (search d m)) where
    check_deps-Ends :
        (deps : List Text) (m : Marks)
        → unvisited m.visited (keys g) < fuel
        → Ends m (check_deps search deps m)
    unfolding check_deps check_dep
    check_deps-Ends [] m h = λ x s. s
    check_deps-Ends (d ∷ deps) m h =
        Ends-and_then m (check_dep search d m) (check_deps search deps) (ground (arith, ends d m))
          (λ m' w.
            check_deps-Ends deps m' (omega (arith, unvisited_mono m.visited m'.visited (keys g) w)))

  Ends-enter :
      (name : Text) (m : Marks) (r : Outcome)
      → Ends (enter name m) r
      → Ends m (and_then r (λ m'. clear (leave name m')))
  Ends-enter name m cycle h = tt
  Ends-enter name m (clear m') h = λ x s. h x (Grows-mark m.visited name x s)
  Ends-enter name m out_of_fuel h = h

  has_cycles-Ends :
      (fuel : ℕ) (name : Text) (m : Marks)
      → m.visited name ≡ false
      → unvisited m.visited (keys g) < fuel
      → Ends m (has_cycles g fuel name m)
  unfolding has_cycles
  has_cycles-Ends zero name m new h = absurd (omega arith)
  has_cycles-Ends (suc fuel) name m new h = elim (Option-cases (lookup name g)) [
    | inl e ↦ rw (e, has_cycles) (Grows-mark m.visited name)
    | inr (s, e) ↦
        rw (e, has_cycles)
          (Ends-enter name m _ (
            check_deps-Ends (has_cycles g fuel) fuel (has_cycles-Ends fuel) s.depends_on
              (enter name m)
              (omega (arith, unvisited-mark m.visited name (keys g) new (mem-keys name g s e)))))
  ]

  -- From fresh marks, fuel above the number of services is never used up.
  pub has_cycles_ends :
      (name : Text) → has_cycles g (suc (length (keys g))) name no_marks ≢ out_of_fuel
  has_cycles_ends name e = rw e at (
      has_cycles-Ends (suc (length (keys g))) name no_marks refl
        (omega (arith, unvisited-le-length no_marks.visited (keys g))))
