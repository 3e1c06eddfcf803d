-- ===== src/Supervisor/Counts.antt =====
-- How often a name stands in a list, and what the map operations do to that number.
use go_overlay.Base.{
  ℕ, suc, ◌+◌, ◌≤◌, Text, ◌==◌, ==_iff, Map, lookup, insert, delete, Bool, true, false, List, [],
  ◌∷◌, ◌++◌, none, some, ◌≡◌, arith, if◌then◌else◌, length,
}
use go_overlay.Base.{inl, inr, Bool-cases, Option-cases, All, ap, subst}
use mathlib.Core.Option.{some-injective}
use go_overlay.Supervisor.Step.{take}

-- 1 where the test holds
abbrev pub one_if : Bool → ℕ
one_if true = 1
one_if false = 0

module _ {ℓ} {A : Type ℓ} (name : A → Text) where
  unfoldable pub count : Text → List A → ℕ
  count n [] = 0
  count n (x ∷ xs) = one_if (name x == n) + count n xs

  pub count-append : (n : Text) (xs ys : List A) → count n (xs ++ ys) ≡ count n xs + count n ys
  unfolding count
  count-append n [] ys = omega arith
  count-append n (x ∷ xs) ys = omega (arith, count-append n xs ys)

  pub count-take :
      (n m : Text) (xs rest : List A) (x : A)
      → take name n xs ≡ some (x, rest)
      → (name x ≡ n) × (count m xs ≡ one_if (n == m) + count m rest)
  unfolding count take
  count-take n m [] rest x h = ground arith
  count-take n m (y ∷ ys) rest x h = elim (Bool-cases (name y == n)) [
    | inl e ↦ ground (arith, ==_iff (name y) n)
    | inr e ↦ elim (Option-cases (take name n ys)) [
      | inl t ↦ ground arith
      | inr ((z, zs), t) ↦ ground (arith, count-take n m ys zs z t)
    ]
  ]

module _ {ℓ} {V : Type ℓ} where
  abbrev pub key_of : Text × V → Text
  key_of e = e.0

  pub count_of_lookup-none : (k : Text) (m : Map V) → lookup k m ≡ none → count key_of k m ≡ 0
  unfolding count lookup
  count_of_lookup-none k [] h = omega arith
  count_of_lookup-none k ((j, v) ∷ m) h = ground (arith, count_of_lookup-none k m)

  pub count_of_lookup-some :
      (k : Text) (m : Map V) (v : V) → lookup k m ≡ some v → 1 ≤ count key_of k m
  unfolding count lookup
  count_of_lookup-some k [] v h = ground arith
  count_of_lookup-some k ((j, w) ∷ m) v h = ground (arith, count_of_lookup-some k m v)

  pub lookup_of_absent : (k : Text) (m : Map V) → count key_of k m ≡ 0 → lookup k m ≡ none
  lookup_of_absent k m h = elim (Option-cases (lookup k m)) [
    | inl e ↦ e
    | inr (v, e) ↦ absurd (omega (arith, count_of_lookup-some k m v e))
  ]

  -- a new key
  pub count-insert_new :
      (k n : Text) (v : V) (m : Map V)
      → lookup k m ≡ none
      → (count key_of n (insert k v m) ≡ one_if (k == n) + count key_of n m)
        × (length (insert k v m) ≡ suc (length m))
  unfolding count lookup insert
  count-insert_new k n v [] h = ground arith
  count-insert_new k n v ((j, w) ∷ m) h = ground (arith, count-insert_new k n v m)

  -- a key that is there
  pub count-insert_old :
      (k n : Text) (v w : V) (m : Map V)
      → lookup k m ≡ some w
      → (count key_of n (insert k v m) ≡ count key_of n m) × (length (insert k v m) ≡ length m)
  unfolding count lookup insert
  count-insert_old k n v w [] h = ground arith
  count-insert_old k n v w ((j, u) ∷ m) h = ground (arith, count-insert_old k n v w m, ==_iff j k)

  pub count-delete :
      (k n : Text) (m : Map V)
      → (count key_of n (delete k m) ≡ (if k == n then 0 else count key_of n m))
        × (length (delete k m) + count key_of k m ≡ length m)
  unfolding count delete
  count-delete k n [] = ground arith
  count-delete k n ((j, u) ∷ m) =
      ground (arith, count-delete k n m, ==_iff j k, ==_iff k n, ==_iff j n)

pub All-take {ℓ} :
    {A : Type ℓ} (P : A → Type 0) (name : A → Text) (n : Text) (xs rest : List A) (x : A)
    → take name n xs ≡ some (x, rest)
    → All P xs
    → P x × All P rest
unfolding take
All-take P name n [] rest x h a = ground arith
All-take P name n (y ∷ ys) rest x h a = elim (Bool-cases (name y == n)) [
  | inl e ↦
      let g = some-injective _ _ (rw (e, take) at h) in
      (subst P (ap (λ r. r.0) g) a.0, subst (All P) (ap (λ r. r.1) g) a.1)
  | inr e ↦ elim (Option-cases (take name n ys)) [
    | inl t ↦ ground arith
    | inr ((z, zs), t) ↦
        let g = some-injective _ _ (rw (e, t, take) at h) in
        let (pz, rest_a) = All-take P name n ys zs z t a.1 in
        (subst P (ap (λ r. r.0) g) pz, subst (All P) (ap (λ r. r.1) g) (a.0, rest_a))
  ]
]
