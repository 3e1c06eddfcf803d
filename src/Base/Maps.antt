-- ===== src/Base/Maps.antt =====
-- A Go map with string keys, as the list of its entries in the order of insertion.
-- The order in which Go ranges over a map is not specified; no theorem rests on this one.
use mathlib.Core.Path.{◌≡◌, refl, subst}
use mathlib.Core.Logic.{inl, inr}
use mathlib.Core.Option.{Option, none, some, some-injective}
use mathlib.Core.List.{List, [], ◌∷◌, map, Memᴰ}
use mathlib.Core.List.Memᴰ
use native.Mathlib.Omega.{arith}
use go_overlay.Base.Tests.{if◌then◌else◌, Bool-cases}
use go_overlay.Base.Strings.{Text, ◌==◌, ==_iff}

abbrev pub Map {ℓ} : Type ℓ → Type ℓ
Map V = List (Text × V)

module _ {ℓ} {V : Type ℓ} where
  -- `v, ok := m[k]`
  unfoldable pub lookup : Text → Map V → Option V
  lookup k [] = none
  lookup k ((j, v) ∷ m) = if j == k then some v else lookup k m

  -- `m[k] = v`
  unfoldable pub insert : Text → V → Map V → Map V
  insert k v [] = (k, v) ∷ []
  insert k v ((j, w) ∷ m) = if j == k then (k, v) ∷ m else (j, w) ∷ insert k v m

  -- `delete(m, k)`
  unfoldable pub delete : Text → Map V → Map V
  delete k [] = []
  delete k ((j, w) ∷ m) = let rest = delete k m in if j == k then rest else (j, w) ∷ rest

  abbrev pub keys : Map V → List Text
  keys = map (λ e. e.0)

  pub lookup-insert :
      (k j : Text) (v : V) (m : Map V)
      → lookup j (insert k v m) ≡ (if k == j then some v else lookup j m)
  unfolding lookup insert
  lookup-insert k j v [] = refl
  lookup-insert k j v ((i, w) ∷ rest) =
      ground (arith, lookup-insert k j v rest, ==_iff i j, ==_iff i k, ==_iff k j)

  pub lookup-delete :
      (k j : Text) (m : Map V) → lookup j (delete k m) ≡ (if k == j then none else lookup j m)
  unfolding lookup delete
  lookup-delete k j [] = ground arith
  lookup-delete k j ((i, w) ∷ m) =
      ground (arith, ==_iff k j, ==_iff i k, ==_iff i j, lookup-delete k j m)

  -- A key is listed exactly when it is found.
  pub mem-keys : (k : Text) (m : Map V) (v : V) → lookup k m ≡ some v → Memᴰ k (keys m)
  unfolding lookup
  mem-keys k [] v h = cc
  mem-keys k ((j, w) ∷ m) v h = elim (Bool-cases (j == k)) [
    | inl e ↦ Memᴰ.head (ground (arith, ==_iff j k))
    | inr e ↦ Memᴰ.tail (mem-keys k m v (rw (e, lookup) at h))
  ]

  pub lookup_of_mem : (k : Text) (m : Map V) → Memᴰ k (keys m) → (v : V) × (lookup k m ≡ some v)
  unfolding lookup
  lookup_of_mem k [] h = absurd (Memᴰ.not-nil h)
  lookup_of_mem k ((j, w) ∷ m) (Memᴰ.head p) = (w, ground (arith, ==_iff j k))
  lookup_of_mem k ((j, w) ∷ m) (Memᴰ.tail t) = elim (Bool-cases (j == k)) [
    | inl e ↦ (w, rw e)
    | inr e ↦ rw e (lookup_of_mem k m t)
  ]

  -- What holds of a new value and of every value before holds of every value after.
  pub lookup-insert_elim {κ} :
      (P : V → Type κ) (k j : Text) (v w : V) (m : Map V)
      → P v
      → (lookup j m ≡ some w → P w)
      → lookup j (insert k v m) ≡ some w
      → P w
  lookup-insert_elim P k j v w m new old h = elim (Bool-cases (k == j)) [
    | inl e ↦ subst P (some-injective v w (rw (lookup-insert k j v m, e) at h)) new
    | inr e ↦ old (rw (lookup-insert k j v m, e) at h)
  ]

  pub lookup-delete-some :
      (k j : Text) (w : V) (m : Map V) → lookup j (delete k m) ≡ some w → lookup j m ≡ some w
  lookup-delete-some k j w m h = ground (arith, lookup-delete k j m)
