-- ===== src/Environ/Service/Last.antt =====
-- The value that a list of lines or entries leaves a variable with: the one that is set last. This is
-- what the loops of `loadEnvFile` and `buildServiceEnv` of cmd/go-overlay/env.go are held against.
use go_overlay.Base.{
  Text, lit, ◌==◌, ==_iff, has_byte, has_prefix, Map, lookup, lookup-insert, Bool, true, false,
  List, [], ◌∷◌, ◌++◌, Option, none, some, ◌≡◌, ◌≢◌, ◌↔◌, ◌⊎◌, refl, arith, inl, inr, ◌∙◌, ap,
  subst, sym, Bool-cases, Option-cases, ◌||◌,
}
use mathlib.Core.Option.{some-injective}
use go_overlay.Ascii.{cut, trim, trim_space}
use go_overlay.Ascii.Laws.{cut-append, cut_inverse}
use go_overlay.Environ.Service.{
  is_quote, parse_env_line, set_entry, load_env_lines, Scan, no_file, scanned, environ_map,
}

-- The last item that gives the variable `k` a value gives it this one, or none does.
abbrev pub Last : (Text → Text → Text → Type 0) → Text → List Text → Option Text → Type 0
Last R k [] none = Unit
Last R k [] (some v) = ⊥
Last R k (x ∷ xs) none = ((v : Text) → ¬ R x k v) × Last R k xs none
Last R k (x ∷ xs) (some v) = Last R k xs (some v) ⊎ (R x k v × Last R k xs none)

-- `key=value`, cut at the first `=`
abbrev pub SetsEntry : Text → Text → Text → Type 0
SetsEntry e k v = (e ≡ k ++ b'=' ∷ v) × (has_byte b'=' k ≡ false)

-- A line that is not empty and no comment, with the spaces around the key and the value and then the
-- quotes around the value taken off
abbrev pub SetsLine : Text → Text → Text → Type 0
SetsLine raw k v =
    (trim_space raw ≢ [])
    × (has_prefix (trim_space raw) (lit "#") ≡ false)
    × (key : Text) × (value : Text) × SetsEntry (trim_space raw) key value
    × (k ≡ trim_space key)
    × (v ≡ trim is_quote (trim_space value))

abbrev pub or_else : Option Text → Option Text → Option Text
or_else none b = b
or_else (some v) b = some v

-- A loop that puts what each item sets into the map
set_all : (Text → Option (Text × Text)) → List Text → Map Text → Map Text
set_all read [] env = env
set_all read (x ∷ xs) env = set_all read xs (set_entry (read x) env)

cut_iff : (e k v : Text) → (cut b'=' e ≡ some (k, v)) ↔ SetsEntry e k v
cut_iff e k v = (cut_inverse b'=' e k v, λ h. ap (cut b'=') h.0 ∙ cut-append b'=' k v h.1)

abbrev Pair : Type 0
Pair = Text × Text

abbrev first : Pair → Text
first p = p.0

abbrev second : Pair → Text
second p = p.1

same_key : (p q : Pair) → some p ≡ some q → p.0 ≡ q.0
same_key p q h = ap first (some-injective p q h)

same_value : (p q : Pair) → some p ≡ some q → p.1 ≡ q.1
same_value p q h = ap second (some-injective p q h)

module _ (read : Text → Option (Text × Text)) (R : Text → Text → Text → Type 0)
    (reads : (x k v : Text) → (read x ≡ some (k, v)) ↔ R x k v) where
  abbrev Leaves : Text → List Text → Map Text → Type 0
  Leaves k xs m =
      (o : Option Text) × Last R k xs o × (lookup k (set_all read xs m) ≡ or_else o (lookup k m))

  silent : (x k j v : Text) → read x ≡ some (j, v) → (j == k) ≡ false → (w : Text) → ¬ R x k w
  silent x k j v e d w r =
      absurd
        (ground (arith, d, (==_iff j k).1 (same_key (j, v) (k, w) (sym e ∙ (reads x k w).1 r))))

  set_all-Last : (k : Text) (xs : List Text) (m : Map Text) → Leaves k xs m
  unfolding set_all
  set_all-Last k [] m = (none, tt, refl)
  set_all-Last k (x ∷ xs) m = settled (set_all-Last k xs (set_entry (read x) m))
    where
      quiet :
          Last R k xs none
          → lookup k (set_all read xs (set_entry (read x) m)) ≡ lookup k (set_entry (read x) m)
          → Leaves k (x ∷ xs) m
      quiet l e = elim (Option-cases (read x)) [
        | inl r ↦ (none, ((λ v q. absurd (ground (arith, r, (reads x k v).1 q))), l), e ∙ rw r refl)
        | inr ((j, v), r) ↦ elim (Bool-cases (j == k)) [
          | inl d ↦
              let same = (==_iff j k).0 d in
              (
                some v,
                inr ((reads x k v).0 (r ∙ ap (λ i. some (i, v)) same), l),
                e ∙ rw r (ground (arith, lookup-insert j k v m, d)),
              )
          | inr d ↦
              (none, (silent x k j v r d, l), e ∙ rw r (ground (arith, lookup-insert j k v m, d)))
        ]
      ]

      settled : Leaves k xs (set_entry (read x) m) → Leaves k (x ∷ xs) m
      settled (none, l, e) = quiet l e
      settled (some v, l, e) = (some v, inl l, e)

environ_map-set_all : (xs : List Text) (m : Map Text) → environ_map xs m ≡ set_all (cut b'=') xs m
unfolding environ_map set_all
environ_map-set_all [] m = refl
environ_map-set_all (x ∷ xs) m = environ_map-set_all xs (set_entry (cut b'=' x) m)

load_env_lines-set_all :
    (xs : List Text) (m : Map Text) → load_env_lines xs m ≡ set_all parse_env_line xs m
unfolding load_env_lines set_all
load_env_lines-set_all [] m = refl
load_env_lines-set_all (x ∷ xs) m = load_env_lines-set_all xs (set_entry (parse_env_line x) m)

read_line : (x k v : Text) → parse_env_line x ≡ some (k, v) → SetsLine x k v
unfolding parse_env_line
read_line x k v h =
    let line = trim_space x in
    elim (Bool-cases ((line == []) || has_prefix line (lit "#"))) [
      | inl b ↦ let g = rw (b, parse_env_line) at h in absurd (ground (arith, g))
      | inr b ↦ elim (Option-cases (cut b'=' line)) [
        | inl c ↦ let g = rw (b, c, parse_env_line) at h in absurd (ground (arith, g))
        | inr ((key, value), c) ↦
            let g = rw (b, c, parse_env_line) at h in
            (
              λ z. absurd (ground (arith, b, (==_iff line []).1 z)),
              ground (arith, b),
              key,
              value,
              cut_inverse b'=' line key value c,
              sym (same_key (trim_space key, trim is_quote (trim_space value)) (k, v) g),
              sym (same_value (trim_space key, trim is_quote (trim_space value)) (k, v) g),
            )
      ]
    ]

line_read : (x k v : Text) → SetsLine x k v → parse_env_line x ≡ some (k, v)
unfolding parse_env_line
line_read x k v (a, p, key, value, e, i, j) =
    let line = trim_space x in
    let b : ((line == []) || has_prefix line (lit "#")) ≡ false =
      ground (arith, a, p, ==_iff line []) in
    rw (b, (cut_iff line key value).1 e, i, j, parse_env_line) refl

parse_env_line_iff : (x k v : Text) → (parse_env_line x ≡ some (k, v)) ↔ SetsLine x k v
unfolding parse_env_line
parse_env_line_iff x k v = (read_line x k v, λ h. line_read x k v h)

or_else-none : (o : Option Text) → or_else o none ≡ o
or_else-none none = refl
or_else-none (some v) = refl

pub environ_map-Last :
    (k : Text) (environ : List Text) → Last SetsEntry k environ (lookup k (environ_map environ []))
unfolding lookup
environ_map-Last k environ =
    let (o, l, e) = set_all-Last (cut b'=') SetsEntry cut_iff k environ [] in
    subst (Last SetsEntry k environ)
      (sym (ap (lookup k) (environ_map-set_all environ []) ∙ e ∙ or_else-none o)) l

pub load_env_lines-Last :
    (k : Text) (lines : List Text) → Last SetsLine k lines (lookup k (load_env_lines lines []))
unfolding lookup
load_env_lines-Last k lines =
    let (o, l, e) = set_all-Last parse_env_line SetsLine parse_env_line_iff k lines [] in
    subst (Last SetsLine k lines)
      (sym (ap (lookup k) (load_env_lines-set_all lines []) ∙ e ∙ or_else-none o)) l

-- What a service's file says of a variable: nothing where it has no file (the flag), or the file is not
-- there or cannot be read to its end.
abbrev pub FileSays : Bool → Scan → Text → Option Text → Type 0
FileSays true scan k o = o ≡ none
FileSays false no_file k o = o ≡ none
FileSays false (scanned lines true) k o = o ≡ none
FileSays false (scanned lines false) k o = Last SetsLine k lines o
