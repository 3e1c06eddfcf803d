-- ===== src/Config/Decode/Waits.antt =====
-- What a value of `wait_after` stands for, and that the first `switch` of `parseConfig` of
-- cmd/go-overlay/config.go reads it so.
use Prim.{tt}
use go_overlay.Base.{
  Text, Map, insert, lookup, lookup-insert, ◌==◌, ==_iff, [], ◌∷◌, Option, none, some, ok, ◌≡◌, ◌≢◌,
  ◌⊎◌, refl, sym, ◌∙◌, ap, arith, inl, inr, All, Bool-cases, Result-cases, subst, false, true,
}
use go_overlay.Base.Int.{ℤ, pos}
use go_overlay.Config.{WaitAfterField}
use go_overlay.Config.Decode.{TomlItem, TomlValue, nil, table, wait_times, parse_wait_after}

abbrev pub IsInteger : Text × TomlItem → Type 0
IsInteger (key, item) = (v : ℤ) × (item ≡ TomlItem.int64 v)

-- The time of a dependency is that of its entry, the last one if there were more.
abbrev pub TimeOf : Text → Map TomlItem → Option ℤ → Type 0
TimeOf k [] none = Unit
TimeOf k [] (some v) = ⊥
TimeOf k ((j, item) ∷ entries) none = (j ≢ k) × TimeOf k entries none
TimeOf k ((j, item) ∷ entries) (some v) =
    TimeOf k entries (some v) ⊎ ((j ≡ k) × (item ≡ TomlItem.int64 v) × TimeOf k entries none)

-- Nothing, one time for all, or a table of times
abbrev pub WaitsFor : TomlValue → Option WaitAfterField → Type 0
WaitsFor nil o = o ≡ none
WaitsFor (TomlValue.int64 v) o = o ≡ some (record { per_dep = []; global = v; is_per_dep = false })
WaitsFor (table m) o =
    (times : Map ℤ) × (o ≡ some (record { per_dep = times; global = pos 0; is_per_dep = true }))
    × All IsInteger m
    × ((k : Text) → TimeOf k m (lookup k times))
WaitsFor _ o = ⊥

or_else : Option ℤ → Option ℤ → Option ℤ
or_else none b = b
or_else (some v) b = some v

or_else-none : (o : Option ℤ) → or_else o none ≡ o
unfolding or_else
or_else-none none = refl
or_else-none (some v) = refl

ok-injective : {A : Type 0} (a b : A) → ok a ≡ ok b → a ≡ b
ok-injective a b h = cc

Sets : Text → Map TomlItem → Map ℤ → Map ℤ → Type 0
Sets k entries mp times =
    (o : Option ℤ) × TimeOf k entries o × (lookup k times ≡ or_else o (lookup k mp))

-- One more entry in front
Sets-cons :
    (k j : Text) (v : ℤ) (entries : Map TomlItem) (mp times : Map ℤ)
    → Sets k entries (insert j v mp) times
    → Sets k ((j, TomlItem.int64 v) ∷ entries) mp times
unfolding Sets or_else
Sets-cons k j v entries mp times (some w, t, e) = (some w, inl t, e)
Sets-cons k j v entries mp times (none, t, e) = elim (Bool-cases (j == k)) [
  | inl d ↦ (some v, inr ((==_iff j k).0 d, refl, t), e ∙ ground (arith, lookup-insert j k v mp, d))
  | inr d ↦ (
    none,
    ((λ i. absurd (ground (arith, d, (==_iff j k).1 i))), t),
    e ∙ ground (arith, lookup-insert j k v mp, d),
  )
]

wait_times-Sets :
    (entries : Map TomlItem) (mp times : Map ℤ)
    → wait_times entries mp ≡ ok times
    → All IsInteger entries × ((k : Text) → Sets k entries mp times)
unfolding wait_times Sets or_else
wait_times-Sets [] mp times h = (tt, λ k. (none, tt, ap (lookup k) (sym (ok-injective mp times h))))
wait_times-Sets ((j, TomlItem.int64 v) ∷ entries) mp times h =
    let (ints, sets) = wait_times-Sets entries (insert j v mp) times h in
    (((v, refl), ints), λ k. Sets-cons k j v entries mp times (sets k))
wait_times-Sets ((j, TomlItem.string s) ∷ entries) mp times h = absurd (cc)
wait_times-Sets ((j, TomlItem.other) ∷ entries) mp times h = absurd (cc)

pub parse_wait_after-WaitsFor :
    (v : TomlValue) (o : Option WaitAfterField) → parse_wait_after v ≡ ok o → WaitsFor v o
unfolding parse_wait_after Sets lookup
parse_wait_after-WaitsFor nil o h = sym (ok-injective none o h)
parse_wait_after-WaitsFor (TomlValue.int64 v) o h = sym (ok-injective _ o h)
parse_wait_after-WaitsFor (table m) o h = elim (Result-cases (wait_times m [])) [
  | inl (times, e) ↦
      let (ints, sets) = wait_times-Sets m [] times e in
      (
        times,
        sym (ok-injective _ o (rw (e, parse_wait_after) at h)),
        ints,
        λ k. let (w, t, i) = sets k in subst (TimeOf k m) (sym (i ∙ or_else-none w)) t,
      )
  | inr (x, e) ↦ let g = rw (e, parse_wait_after) at h in absurd (cc)
]
parse_wait_after-WaitsFor (TomlValue.string s) o h = absurd (cc)
parse_wait_after-WaitsFor (TomlValue.array s) o h = absurd (cc)
parse_wait_after-WaitsFor TomlValue.other o h = absurd (cc)
