-- ===== src/Environ/Token.antt =====
-- `serviceEnvToken` of cmd/go-overlay/env.go: the name of a service in the name of a variable.
use go_overlay.Base.{
  ℕ, ◌≤◌, Text, Bool, true, false, ◌&&◌, ◌||◌, [], ◌∷◌, nat_eq, leb, if◌then◌else◌, ◌≡◌, refl, ◌⊎◌,
  inl, inr, arith, Bool-cases,
}
use mathlib.Core.Logic.{◌↔◌}
use go_overlay.Ascii.{to_upper, to_lower, trim, trim_left, trim_right, cons_unless}
use go_overlay.Ascii.Laws.{to_upper-to_lower}

unfoldable pub is_alpha_num : ℕ → Bool
is_alpha_num r = leb b'A' r && leb r b'Z' || leb b'0' r && leb r b'9'

-- the loop over the upper-case name, from `lastUnderscore`
unfoldable pub squash : Bool → Text → Text
squash last_underscore [] = []
squash last_underscore (r ∷ s) =
    let word = r ∷ squash false s in
    let gap = squash true s in
    if is_alpha_num r then word else if last_underscore then gap else b'_' ∷ gap

abbrev pub is_underscore : ℕ → Bool
is_underscore c = nat_eq c b'_'

unfoldable pub service_env_token : Text → Text
service_env_token service_name = trim is_underscore (squash false (to_upper service_name))

-- An upper-case letter or a digit.
abbrev pub IsAlphaNum : ℕ → Type 0
IsAlphaNum c = (b'A' ≤ c) × (c ≤ b'Z') ⊎ (b'0' ≤ c) × (c ≤ b'9')

-- Words of letters and digits with one underscore between two of them: `true` where a word has to
-- begin, `false` where a word may go on or end.
abbrev pub Words : Bool → Text → Type 0
Words true [] = ⊥
Words true (c ∷ s) = IsAlphaNum c × Words false s
Words false [] = Unit
Words false (c ∷ s) = (IsAlphaNum c × Words false s) ⊎ ((c ≡ b'_') × Words true s)

abbrev pub IsToken : Text → Type 0
IsToken s = (s ≡ []) ⊎ Words true s

-- No two underscores in a row, and none at the front after one.
abbrev Squashed : Bool → Text → Type 0
Squashed last [] = Unit
Squashed last (c ∷ s) =
    (IsAlphaNum c × Squashed false s) ⊎ ((c ≡ b'_') × (last ≡ false) × Squashed true s)

is_alpha_num_iff : (c : ℕ) → (is_alpha_num c ≡ true) ↔ IsAlphaNum c
unfolding is_alpha_num
is_alpha_num_iff c = ground arith

squash-Squashed : (last : Bool) (s : Text) → Squashed last (squash last s)
unfolding squash
squash-Squashed last [] = tt
squash-Squashed last (r ∷ s) = elim (Bool-cases (is_alpha_num r)) [
  | inl e ↦ rw e (inl ((is_alpha_num_iff r).0 e, squash-Squashed false s))
  | inr e ↦ elim (Bool-cases last) [
    | inl l ↦ rw (e, l) (squash-Squashed true s)
    | inr l ↦ rw (e, l) (inr (refl, refl, squash-Squashed true s))
  ]
]

alpha_num_not_underscore : (c : ℕ) → IsAlphaNum c → is_underscore c ≡ false
alpha_num_not_underscore c a = ground arith

trim_left-Squashed :
    (last : Bool) (s : Text) → Squashed last s → Squashed true (trim_left is_underscore s)
unfolding trim_left
trim_left-Squashed last [] h = tt
trim_left-Squashed last (c ∷ s) (inl (a, h)) = rw (alpha_num_not_underscore c a) (inl (a, h))
trim_left-Squashed last (c ∷ s) (inr (u, l, h)) = rw u (trim_left-Squashed true s h)

-- what is left after the underscores at the end are cut
abbrev Trimmed : Bool → Text → Type 0
Trimmed true s = IsToken s
Trimmed false s = Words false s

add_word :
    (last : Bool) (c : ℕ) (s : Text)
    → IsAlphaNum c
    → Words false s
    → Trimmed last (cons_unless (is_underscore c) c s)
add_word true c [] a h = ground arith
add_word true c (d ∷ s) a h = ground arith
add_word false c [] a h = ground arith
add_word false c (d ∷ s) a h = inl (a, h)

add_underscore :
    (c : ℕ) (s : Text) → c ≡ b'_' → IsToken s → Words false (cons_unless (is_underscore c) c s)
add_underscore c [] u h = ground arith
add_underscore c (d ∷ s) u (inl e) = absurd (cc)
add_underscore c (d ∷ s) u (inr h) = inr (u, h)

trim_right-Trimmed :
    (last : Bool) (s : Text) → Squashed last s → Trimmed last (trim_right is_underscore s)
unfolding trim_right
trim_right-Trimmed true [] h = inl refl
trim_right-Trimmed false [] h = tt
trim_right-Trimmed last (c ∷ s) (inl (a, h)) =
    add_word last c (trim_right is_underscore s) a (trim_right-Trimmed false s h)
trim_right-Trimmed true (c ∷ s) (inr (u, l, h)) = absurd (cc)
trim_right-Trimmed false (c ∷ s) (inr (u, l, h)) =
    add_underscore c (trim_right is_underscore s) u (trim_right-Trimmed true s h)

-- The token of any name is empty or is words of upper-case letters and digits joined by single
-- underscores, so that it can stand in the name of a variable.
service_env_token-IsToken : (name : Text) → IsToken (service_env_token name)
unfolding service_env_token trim
service_env_token-IsToken name =
    trim_right-Trimmed true _ (trim_left-Squashed false _ (squash-Squashed false (to_upper name)))

to_upper-Words : (must : Bool) (s : Text) → Words must s → to_upper s ≡ s
unfolding to_upper
to_upper-Words must [] h = refl
to_upper-Words true (c ∷ s) h = ground (arith, to_upper-Words false s h.1)
to_upper-Words false (c ∷ s) (inl h) = ground (arith, to_upper-Words false s h.1)
to_upper-Words false (c ∷ s) (inr h) = ground (arith, to_upper-Words true s h.1)

underscore_not_alpha_num : (c : ℕ) → c ≡ b'_' → is_alpha_num c ≡ false
unfolding is_alpha_num
underscore_not_alpha_num c u = ground arith

squash-Words : (last : Bool) (s : Text) → Words last s → squash last s ≡ s
unfolding squash
squash-Words last [] h = refl
squash-Words true (c ∷ s) (a, h) = rw ((is_alpha_num_iff c).1 a) (rw (squash-Words false s h))
squash-Words false (c ∷ s) (inl (a, h)) =
    rw ((is_alpha_num_iff c).1 a) (rw (squash-Words false s h))
squash-Words false (c ∷ s) (inr (u, h)) =
    rw (underscore_not_alpha_num c u) (rw (squash-Words true s h) (rw u))

keep_word : (c : ℕ) (s : Text) → IsAlphaNum c → cons_unless (is_underscore c) c s ≡ c ∷ s
keep_word c [] a = ground arith
keep_word c (d ∷ s) a = refl

keep_gap : (b : Bool) (c : ℕ) (s : Text) → Words true s → cons_unless b c s ≡ c ∷ s
keep_gap b c [] h = absurd h
keep_gap b c (d ∷ s) h = refl

trim_right-Words : (must : Bool) (s : Text) → Words must s → trim_right is_underscore s ≡ s
unfolding trim_right
trim_right-Words must [] h = refl
trim_right-Words true (c ∷ s) (a, h) = rw (trim_right-Words false s h) (keep_word c s a)
trim_right-Words false (c ∷ s) (inl (a, h)) = rw (trim_right-Words false s h) (keep_word c s a)
trim_right-Words false (c ∷ s) (inr (u, h)) =
    rw (trim_right-Words true s h) (keep_gap (is_underscore c) c s h)

trim_left-Words : (s : Text) → Words true s → trim_left is_underscore s ≡ s
unfolding trim_left
trim_left-Words [] h = absurd h
trim_left-Words (c ∷ s) (a, h) = rw (alpha_num_not_underscore c a)

Words-weaken : (s : Text) → Words true s → Words false s
Words-weaken [] h = absurd h
Words-weaken (c ∷ s) h = inl h

-- A token is its own token.
service_env_token_of_IsToken : (s : Text) → IsToken s → service_env_token s ≡ s
unfolding service_env_token trim
service_env_token_of_IsToken s (inl e) = rw e (unfold trim_left trim_right squash to_upper in refl)
service_env_token_of_IsToken s (inr h) = rw (to_upper-Words true s h) (
    rw (squash-Words false s (Words-weaken s h))
      (rw (trim_left-Words s h) (trim_right-Words true s h)))

-- Names that differ in case only have the same token.
service_env_token-to_lower :
    (name : Text) → service_env_token (to_lower name) ≡ service_env_token name
unfolding service_env_token
service_env_token-to_lower name = rw to_upper-to_lower

-- The token of any name is empty or is words of upper-case letters and digits joined by single
-- underscores, so that it can stand in the name of a variable; it is the token of the name in lower
-- case too; and a name that has this form already is its own token.
pub service_env_token-normal :
    (name : Text)
    → IsToken (service_env_token name)
      × (service_env_token (to_lower name) ≡ service_env_token name)
      × (IsToken name → service_env_token name ≡ name)
service_env_token-normal name = (
  service_env_token-IsToken name,
  service_env_token-to_lower name,
  service_env_token_of_IsToken name,
)
