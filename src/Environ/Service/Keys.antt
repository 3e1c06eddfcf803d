-- ===== src/Environ/Service/Keys.antt =====
-- The keys of the maps that cmd/go-overlay/env.go builds.
use go_overlay.Base.{
  ℕ, Text, ◌==◌, ==_iff, has_byte, Map, insert, lookup, lookup-insert, Bool, false, List, [], ◌∷◌,
  Option, none, some, ◌≡◌, refl, arith, inl, inr, Bool-cases, Option-cases, nat_eq,
}
use go_overlay.Ascii.{cut, trim, trim_space, trim_left, trim_right, cons_unless, is_space}
use go_overlay.Ascii.Laws.{cut_inverse}
use go_overlay.Environ.Service.{parse_env_line, set_entry, load_env_lines, merge, environ_map}

-- The keys of a map differ, and none has an equals sign in it.
abbrev pub WellKeyed : Map Text → Type 0
WellKeyed [] = Unit
WellKeyed ((k, v) ∷ m) = (has_byte b'=' k ≡ false) × (lookup k m ≡ none) × WellKeyed m

WellKeyed-insert :
    (k v : Text) (m : Map Text) → has_byte b'=' k ≡ false → WellKeyed m → WellKeyed (insert k v m)
unfolding insert
WellKeyed-insert k v [] h w = (h, unfold lookup in refl, tt)
WellKeyed-insert k v ((j, u) ∷ m) h w = elim (Bool-cases (j == k)) [
  | inl e ↦ rw e (h, rw (← (==_iff j k).0 e) w.1, w.2)
  | inr e ↦
      rw e (
        w.0,
        rw lookup-insert (ground (arith, ==_iff k j, ==_iff j k)),
        WellKeyed-insert k v m h w.2,
      )
]

pub WellKeyed-merge : (m env : Map Text) → WellKeyed m → WellKeyed env → WellKeyed (merge m env)
unfolding merge
WellKeyed-merge [] env w h = h
WellKeyed-merge ((k, v) ∷ m) env w h =
    WellKeyed-merge m (insert k v env) w.2 (WellKeyed-insert k v env w.0 h)

module _ (p : ℕ → Bool) where
  has_byte-trim_left :
      (c : ℕ) (s : Text) → has_byte c s ≡ false → has_byte c (trim_left p s) ≡ false
  unfolding has_byte trim_left
  has_byte-trim_left c [] h = refl
  has_byte-trim_left c (a ∷ s) h = ground (arith, has_byte-trim_left c s)

  has_byte-cons_unless :
      (b : Bool) (c a : ℕ) (s : Text)
      → has_byte c s ≡ false
      → nat_eq a c ≡ false
      → has_byte c (cons_unless b a s) ≡ false
  unfolding has_byte
  has_byte-cons_unless b c a [] h n = ground arith
  has_byte-cons_unless b c a (d ∷ s) h n = ground arith

  has_byte-trim_right :
      (c : ℕ) (s : Text) → has_byte c s ≡ false → has_byte c (trim_right p s) ≡ false
  unfolding has_byte trim_right
  has_byte-trim_right c [] h = refl
  has_byte-trim_right c (a ∷ s) h =
      has_byte-cons_unless (p a) c a (trim_right p s) (has_byte-trim_right c s (ground arith))
        (ground arith)

has_byte-trim_space : (c : ℕ) (s : Text) → has_byte c s ≡ false → has_byte c (trim_space s) ≡ false
unfolding trim_space trim
has_byte-trim_space c s h = has_byte-trim_right is_space c _ (has_byte-trim_left is_space c s h)

-- a line of the file sets a variable whose name has no equals sign
parse_env_line-key : (raw k v : Text) → parse_env_line raw ≡ some (k, v) → has_byte b'=' k ≡ false
unfolding parse_env_line
parse_env_line-key raw k v h = elim (Option-cases (cut b'=' (trim_space raw))) [
  | inl e ↦ ground arith
  | inr ((j, u), e) ↦
      ground (arith, cut_inverse b'=' (trim_space raw) j u e, has_byte-trim_space b'=' j)
]

WellKeyed-set_entry :
    (o : Option (Text × Text)) (env : Map Text)
    → ((k v : Text) → o ≡ some (k, v) → has_byte b'=' k ≡ false)
    → WellKeyed env
    → WellKeyed (set_entry o env)
WellKeyed-set_entry none env h w = w
WellKeyed-set_entry (some (k, v)) env h w = WellKeyed-insert k v env (h k v refl) w

pub WellKeyed-load_env_lines :
    (lines : List Text) (env : Map Text) → WellKeyed env → WellKeyed (load_env_lines lines env)
unfolding load_env_lines
WellKeyed-load_env_lines [] env w = w
WellKeyed-load_env_lines (line ∷ lines) env w =
    WellKeyed-load_env_lines lines _
      (WellKeyed-set_entry (parse_env_line line) env (parse_env_line-key line) w)

pub WellKeyed-environ_map :
    (environ : List Text) (env : Map Text) → WellKeyed env → WellKeyed (environ_map environ env)
unfolding environ_map
WellKeyed-environ_map [] env w = w
WellKeyed-environ_map (e ∷ environ) env w =
    WellKeyed-environ_map environ _
      (WellKeyed-set_entry (cut b'=' e) env (λ k v c. (cut_inverse b'=' e k v c).1) w)
