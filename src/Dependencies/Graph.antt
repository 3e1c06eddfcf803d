-- ===== src/Dependencies/Graph.antt =====
-- The dependency graph of a `map[string]Service`: who depends on whom, cycles, and names from which
-- no chain of dependencies goes on for ever.
use go_overlay.Base.{Text, Map, lookup, ◌≡◌, refl, sym, subst, ◌≢◌, ◌⊎◌, inl, inr, none, some, Memᴰ}
use mathlib.Core.Logic.{⊎_elim}
use go_overlay.Config.{Service}

module _ (g : Map Service) where
  -- `a` lists `b` in its `depends_on`.
  abbrev pub Edge : Text → Text → Type 0
  Edge a b = (s : Service) × (lookup a g ≡ some s) × Memᴰ b s.depends_on

  -- A chain of one or more dependencies.
  pub data Chain : Text → Text → Type 0 where
    one : {a b : Text} → Edge a b → Chain a b
    more : {a b c : Text} → Chain a b → Edge b c → Chain a c

  -- Every chain of dependencies from this name ends.
  pub data Grounded : Text → Type 0 where
    grounded : {a : Text} → ((b : Text) → Edge a b → Grounded b) → Grounded a

  -- Every name that a service of the map depends on is a service of the map.
  abbrev pub IsClosed : Type 0
  IsClosed = (a b : Text) → Edge a b → lookup b g ≢ none

  pub Grounded-Edge : {a b : Text} → Grounded a → Edge a b → Grounded b
  Grounded-Edge (grounded f) e = f _ e

  pub Grounded-Chain : {a b : Text} → Grounded a → Chain a b → Grounded b
  Grounded-Chain h (one e) = Grounded-Edge h e
  Grounded-Chain h (more c e) = Grounded-Edge (Grounded-Chain h c) e

  pub Chain-front : {a b c : Text} → Edge a b → Chain b c → Chain a c
  Chain-front e (one f) = more (one e) f
  Chain-front e (more c f) = more (Chain-front e c) f

  -- The first step of a chain, and what is left of it.
  Chain-first : {a c : Text} → Chain a c → (b : Text) × Edge a b × ((b ≡ c) ⊎ Chain b c)
  Chain-first (one {b = b} e) = (b, e, inl refl)
  Chain-first (more c e) =
      let (b, first, rest) = Chain-first c in
      (b, first, inr (⊎_elim (λ p. one (rw p e)) (λ r. more r e) rest))

  -- A name that lies on a cycle is not grounded.
  pub Grounded-not-cycle : {a : Text} → Grounded a → ¬ Chain a a
  Grounded-not-cycle (grounded f) c =
      let (b, first, rest) = Chain-first c in
      Grounded-not-cycle (f b first)
        (⊎_elim (λ p. subst (λ x. Chain x x) (sym p) c) (λ r. more r first) rest)
