-- ===== src/Ascii.antt =====
-- What cmd/go-overlay/env.go uses of Go's `strings` package, at ASCII bytes. On a text with bytes
-- above 127 Go also maps and trims letters and spaces of Unicode, which is not modelled.
pub mod Laws
use Prim.Native.Nat.{◌-◌}
use go_overlay.Base.{
  ℕ, ◌+◌, Text, ◌==◌, has_prefix, Bool, true, false, ◌&&◌, ◌||◌, List, [], ◌∷◌, ◌++◌, Option, none,
  some, if◌then◌else◌, nat_eq, leb, map,
}

unfoldable pub lower_byte : ℕ → ℕ
lower_byte c = if leb b'A' c && leb c b'Z' then c + 32 else c

unfoldable pub upper_byte : ℕ → ℕ
upper_byte c = if leb b'a' c && leb c b'z' then c - 32 else c

-- `strings.ToLower` and `strings.ToUpper`
unfoldable pub to_lower : Text → Text
unfolding lower_byte
to_lower = map lower_byte

unfoldable pub to_upper : Text → Text
unfolding upper_byte
to_upper = map upper_byte

unfoldable pub is_space : ℕ → Bool
is_space c = leb 9 c && leb c 13 || nat_eq c b' '

unfoldable pub trim_left : (ℕ → Bool) → Text → Text
trim_left p [] = []
trim_left p (c ∷ s) = let rest = trim_left p s in if p c then rest else c ∷ s

abbrev pub cons_unless : Bool → ℕ → Text → Text
cons_unless drop c [] = if drop then [] else c ∷ []
cons_unless drop c (d ∷ s) = c ∷ d ∷ s

unfoldable pub trim_right : (ℕ → Bool) → Text → Text
trim_right p [] = []
trim_right p (c ∷ s) = cons_unless (p c) c (trim_right p s)

-- `strings.TrimFunc`, and by it `strings.TrimSpace` and `strings.Trim`
unfoldable pub trim : (ℕ → Bool) → Text → Text
unfolding trim_left trim_right
trim p s = trim_right p (trim_left p s)

unfoldable pub trim_space : Text → Text
unfolding trim is_space
trim_space = trim is_space

-- `strings.Cut(s, string(c))`; `strings.SplitN(s, string(c), 2)` has two parts where it is found
unfoldable pub cut : ℕ → Text → Option (Text × Text)
cut c [] = none
cut c (a ∷ s) =
    let rest = cut c s in
    if nat_eq a c then some ([], s) else elim rest [ none ↦ none | some (k, v) ↦ some (a ∷ k, v) ]

abbrev pub flush : Text → List Text → List Text
flush [] words = words
flush (c ∷ word) words = (c ∷ word) ∷ words

-- `strings.FieldsFunc`, with the bytes of the word that is being read
unfoldable pub fields_from : (ℕ → Bool) → Text → Text → List Text
fields_from p word [] = flush word []
fields_from p word (c ∷ s) =
    let next = flush word (fields_from p [] s) in
    let same = fields_from p (word ++ c ∷ []) s in if p c then next else same

unfoldable pub fields : (ℕ → Bool) → Text → List Text
unfolding fields_from
fields p = fields_from p []

-- `strings.HasSuffix(s, suffix)`
unfoldable pub has_suffix : Text → Text → Bool
has_suffix [] suffix = [] == suffix
has_suffix (c ∷ s) suffix = (c ∷ s) == suffix || has_suffix s suffix
