-- ===== src/Ascii/Laws.antt =====
-- Laws of the text functions.
use go_overlay.Base.{
  ℕ, Text, false, [], ◌∷◌, ◌++◌, some, ◌≡◌, refl, arith, has_byte, nat_eq, nat_eq_iff, Bool-cases,
  inl, inr, Option-cases,
}
use go_overlay.Ascii.{to_lower, to_upper, cut}

-- A text is cut at the first `c`: `k` has none.
pub cut-append : (c : ℕ) (k v : Text) → has_byte c k ≡ false → cut c (k ++ c ∷ v) ≡ some (k, v)
unfolding cut has_byte
cut-append c [] v h = ground (arith, nat_eq_iff c c)
cut-append c (a ∷ k) v h = ground (arith, cut-append c k v)

-- What is cut is the text, and the first part has no `c`.
pub cut_inverse :
    (c : ℕ) (s k v : Text) → cut c s ≡ some (k, v) → (s ≡ k ++ c ∷ v) × (has_byte c k ≡ false)
unfolding cut has_byte
cut_inverse c [] k v h = ground arith
cut_inverse c (a ∷ s) k v h = elim (Bool-cases (nat_eq a c)) [
  | inl e ↦ ground (arith, nat_eq_iff a c)
  | inr e ↦ elim (Option-cases (cut c s)) [
    | inl none_left ↦ ground arith
    | inr ((j, w), left) ↦ ground (arith, cut_inverse c s j w left)
  ]
]

pub to_upper-to_lower : (s : Text) → to_upper (to_lower s) ≡ to_upper s
unfolding to_upper to_lower
to_upper-to_lower [] = refl
to_upper-to_lower (c ∷ s) = ground (arith, to_upper-to_lower s)
