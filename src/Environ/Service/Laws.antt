-- ===== src/Environ/Service/Laws.antt =====
-- Which variables a service of cmd/go-overlay/env.go starts with.
use go_overlay.Base.{
  Text, ◌==◌, ==_iff, has_byte, Map, lookup, Bool, true, false, List, [], ◌∷◌, ◌++◌, Option, none,
  some, if◌then◌else◌, ◌≡◌, refl, arith, inl, inr, ◌∙◌, Option-cases,
}
use mathlib.Core.List.{append-nil}
use go_overlay.Ascii.{cut}
use go_overlay.Ascii.Laws.{cut-append}
use go_overlay.Config.{Service}
use go_overlay.Environ.Service.{
  Scan, load_env_file, is_replaced, keep_entries, set_entries, override_env,
}
use go_overlay.Environ.Service.Last.{Last}
use go_overlay.Environ.Service.Keys.{WellKeyed}

-- The entry sets the variable `k`.
unfoldable pub sets : Text → Text → Bool
sets k e = elim (cut b'=' e) [ none ↦ false | some (j, _) ↦ j == k ]

-- The entries that set `k`, in their order.
unfoldable pub entries_for : Text → List Text → List Text
entries_for k [] = []
entries_for k (e ∷ es) = let rest = entries_for k es in if sets k e then e ∷ rest else rest

entries_for-append :
    (k : Text) (xs ys : List Text) → entries_for k (xs ++ ys) ≡ entries_for k xs ++ entries_for k ys
unfolding entries_for
entries_for-append k [] ys = refl
entries_for-append k (e ∷ xs) ys = ground (arith, entries_for-append k xs ys)

sets-entry : (k j v : Text) → has_byte b'=' j ≡ false → sets k (j ++ b'=' ∷ v) ≡ (j == k)
unfolding sets
sets-entry k j v h = rw (cut-append b'=' j v h, sets)

-- the one entry of a variable that has a value, and none where it is removed
abbrev pub one_entry : Text → Text → List Text
one_entry k v = if v == [] then [] else (k ++ b'=' ∷ v) ∷ []

-- an entry for a key that is not in the map stays
replaced_other :
    (k : Text) (m : Map Text) (e : Text)
    → lookup k m ≡ none
    → is_replaced m e ≡ true
    → sets k e ≡ false
unfolding is_replaced sets
replaced_other k m e h r = elim (Option-cases (cut b'=' e)) [
  | inl c ↦ ground arith
  | inr ((j, w), c) ↦ ground (arith, ==_iff j k)
]

-- an entry for a key of the map goes
replaced_self :
    (k v : Text) (m : Map Text) (e : Text)
    → lookup k m ≡ some v
    → is_replaced m e ≡ false
    → sets k e ≡ false
unfolding is_replaced sets
replaced_self k v m e h r = elim (Option-cases (cut b'=' e)) [
  | inl c ↦ ground arith
  | inr ((j, w), c) ↦ ground (arith, ==_iff j k)
]

entries_for-keep_none :
    (k : Text) (m : Map Text) (env : List Text)
    → lookup k m ≡ none
    → entries_for k (keep_entries m env) ≡ entries_for k env
unfolding entries_for keep_entries
entries_for-keep_none k m [] h = refl
entries_for-keep_none k m (e ∷ env) h =
    ground (arith, entries_for-keep_none k m env h, replaced_other k m e h)

entries_for-keep_some :
    (k v : Text) (m : Map Text) (env : List Text)
    → lookup k m ≡ some v
    → entries_for k (keep_entries m env) ≡ []
unfolding entries_for keep_entries
entries_for-keep_some k v m [] h = refl
entries_for-keep_some k v m (e ∷ env) h =
    ground (arith, entries_for-keep_some k v m env h, replaced_self k v m e h)

entries_for-set_none :
    (k : Text) (m : Map Text) → WellKeyed m → lookup k m ≡ none → entries_for k (set_entries m) ≡ []
unfolding entries_for set_entries lookup
entries_for-set_none k [] w h = refl
entries_for-set_none k ((j, v) ∷ m) w h =
    ground (arith, entries_for-set_none k m w.2, sets-entry k j v w.0)

entries_for-set_some :
    (k v : Text) (m : Map Text)
    → WellKeyed m
    → lookup k m ≡ some v
    → entries_for k (set_entries m) ≡ one_entry k v
unfolding entries_for set_entries lookup
entries_for-set_some k v [] w h = ground arith
entries_for-set_some k v ((j, u) ∷ m) w h = ground (
  arith,
  entries_for-set_some k v m w.2,
  entries_for-set_none k m w.2,
  sets-entry k j u w.0,
  ==_iff j k,
)

-- what `overrideEnv` leaves of a variable
abbrev pub overridden : List Text → Text → Option Text → List Text
overridden env k none = entries_for k env
overridden env k (some v) = one_entry k v

-- In the result of `overrideEnv` a variable of the overrides has one entry with its new value, or
-- none where that value is empty, and any other variable has the entries that it had.
pub override_env-entries :
    (env : List Text) (overrides : Map Text) (k : Text)
    → WellKeyed overrides
    → entries_for k (override_env env overrides) ≡ overridden env k (lookup k overrides)
unfolding override_env
override_env-entries env overrides k w =
    entries_for-append k (keep_entries overrides env) (set_entries overrides)
    ∙ elim (Option-cases (lookup k overrides)) [
      | inl e ↦
          rw (e, entries_for-keep_none k overrides env e, entries_for-set_none k overrides w e)
            (append-nil _)
      | inr (v, e) ↦
          rw (e, entries_for-keep_some k v overrides env e, entries_for-set_some k v overrides w e)
            refl
    ]

abbrev pub entry_of : Text → Option Text → List Text
entry_of k none = []
entry_of k (some v) = (k ++ b'=' ∷ v) ∷ []

abbrev pub file_map : Option (Map Text) → Map Text
file_map none = []
file_map (some m) = m

-- The variables of the service's file: none where it has no file or the file does not load.
abbrev pub file_env : (Text → Scan) → Service → Map Text
file_env scan s = if s.env_file == [] then [] else file_map (load_env_file (scan s.env_file))
