-- ===== src/Base/Loops.antt =====
-- Loops that return early, and their rules.
use mathlib.Core.Path.{◌≡◌, refl}
use mathlib.Core.Logic.{◌↔◌, inl, inr}
use mathlib.Core.Bool.{Bool, true, false, ◌||◌}
use mathlib.Core.Option.{Option, none, some}
use mathlib.Core.List.{List, [], ◌∷◌, ◌++◌, Memᴰ}
use mathlib.Core.List.Memᴰ
use native.Mathlib.Omega.{arith}
use go_overlay.Base.Tests.{Bool-cases}
use go_overlay.Base.Lists.{append-eq-nil}
use go_overlay.Base.Strings.{Text, ◌==◌, ==_iff}

-- `if err := first; err != nil { return err }`, and then the rest
abbrev pub or_else : Option Text → Option Text → Option Text
or_else none rest = rest
or_else (some e) rest = some e

module _ {ℓ} {A : Type ℓ} where
  -- `for _, x := range xs { if err := f(x); err != nil { return err } }; return nil`
  unfoldable pub first_error : (A → Option Text) → List A → Option Text
  first_error f [] = none
  first_error f (x ∷ xs) = or_else (f x) (first_error f xs)

  first_error-none :
      (f : A → Option Text) (xs : List A) (x : A) → first_error f xs ≡ none → Memᴰ x xs → f x ≡ none
  unfolding first_error
  first_error-none f [] x h m = absurd (Memᴰ.not-nil m)
  first_error-none f (y ∷ xs) x h (Memᴰ.head p) = rw p (ground arith)
  first_error-none f (y ∷ xs) x h (Memᴰ.tail m) = first_error-none f xs x (ground arith) m

  none-first_error :
      (f : A → Option Text) (xs : List A)
      → ((x : A) → Memᴰ x xs → f x ≡ none)
      → first_error f xs ≡ none
  unfolding first_error
  none-first_error f [] h = refl
  none-first_error f (x ∷ xs) h =
      rw (h x (Memᴰ.head refl)) (none-first_error f xs (λ y m. h y (Memᴰ.tail m)))

  -- The loop returns no error exactly when no element has one.
  pub first_error-eq-none :
      (f : A → Option Text) (xs : List A)
      → (first_error f xs ≡ none) ↔ ((x : A) → Memᴰ x xs → f x ≡ none)
  first_error-eq-none f xs = (λ h x m. first_error-none f xs x h m, none-first_error f xs)

  -- `for _, x := range xs { errs = append(errs, f(x)...) }`
  unfoldable pub collect {κ} : {B : Type κ} → (A → List B) → List A → List B
  collect f [] = []
  collect f (x ∷ xs) = f x ++ collect f xs

  collect-nil {κ} :
      {B : Type κ} (f : A → List B) (xs : List A) (x : A) → collect f xs ≡ [] → Memᴰ x xs → f x ≡ []
  unfolding collect
  collect-nil f [] x h m = absurd (Memᴰ.not-nil m)
  collect-nil f (y ∷ xs) x h (Memᴰ.head p) = rw p ((append-eq-nil (f y) (collect f xs)).0 h).0
  collect-nil f (y ∷ xs) x h (Memᴰ.tail m) =
      collect-nil f xs x ((append-eq-nil (f y) (collect f xs)).0 h).1 m

  nil-collect {κ} :
      {B : Type κ} (f : A → List B) (xs : List A)
      → ((x : A) → Memᴰ x xs → f x ≡ [])
      → collect f xs ≡ []
  unfolding collect
  nil-collect f [] h = refl
  nil-collect f (x ∷ xs) h =
      (append-eq-nil (f x) (collect f xs)).1
        (h x (Memᴰ.head refl), nil-collect f xs (λ y m. h y (Memᴰ.tail m)))

  -- Nothing is collected exactly when no element yields anything.
  pub collect-eq-nil {κ} :
      {B : Type κ} (f : A → List B) (xs : List A)
      → (collect f xs ≡ []) ↔ ((x : A) → Memᴰ x xs → f x ≡ [])
  collect-eq-nil f xs = (λ h x m. collect-nil f xs x h m, nil-collect f xs)

-- `for _, x := range xs { if x == s { found = true; break } }`
unfoldable pub contains : Text → List Text → Bool
contains s [] = false
contains s (x ∷ xs) = x == s || contains s xs

contains-mem : (s : Text) (xs : List Text) → contains s xs ≡ true → Memᴰ s xs
unfolding contains
contains-mem s [] h = cc
contains-mem s (x ∷ xs) h = elim (Bool-cases (x == s)) [
  | inl e ↦ Memᴰ.head (ground (arith, ==_iff x s))
  | inr e ↦ Memᴰ.tail (contains-mem s xs (ground arith))
]

mem-contains : (s : Text) (xs : List Text) → Memᴰ s xs → contains s xs ≡ true
unfolding contains
mem-contains s [] m = absurd (Memᴰ.not-nil m)
mem-contains s (x ∷ xs) (Memᴰ.head p) = ground (arith, ==_iff x s)
mem-contains s (x ∷ xs) (Memᴰ.tail m) = ground (arith, mem-contains s xs m)

pub contains_iff : (s : Text) (xs : List Text) → (contains s xs ≡ true) ↔ Memᴰ s xs
contains_iff s xs = (contains-mem s xs, mem-contains s xs)
