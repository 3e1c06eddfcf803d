-- ===== src/Environ/Override/Read.antt =====
-- What the variables of cmd/go-overlay/env.go say: the values that `parseBoolEnv` and
-- `parseServiceListEnv` read.
use Prim.{tt}
use go_overlay.Base.{
  All, All-mem, contains_iff, nat_eq_iff, subst, ℕ, Text, lit, ◌==◌, ==_iff, Bool, true, false,
  List, [], ◌∷◌, Option, none, some, ◌≡◌, ◌≢◌, ◌↔◌, ◌⊎◌, refl, sym, arith, inl, inr, ◌∙◌, ap,
  contains, Memᴰ, Memᴰ-cons, Bool-cases, Option-cases,
}
use mathlib.Core.List.Memᴰ
use mathlib.Core.Option.{some-injective}
use go_overlay.Ascii.{to_lower, trim_space, fields, fields_from}
use go_overlay.Environ.Override.{
  parse_bool_env, is_separator, lower_names, parse_service_list_env, env_only_services, parsed_env,
  only_services, getenv,
}

-- the words for a value, in any case and with spaces around them
abbrev pub words : Bool → List Text
words true = lit "1" ∷ lit "true" ∷ lit "yes" ∷ lit "on" ∷ lit "y" ∷ []
words false = lit "0" ∷ lit "false" ∷ lit "no" ∷ lit "off" ∷ lit "n" ∷ []

abbrev pub ReadsBool : Text → Bool → Type 0
ReadsBool raw b = Memᴰ (to_lower (trim_space raw)) (words b)

-- A name of the list, in lower case: one of the texts between the separators, with the spaces around
-- it taken off
abbrev pub ReadsName : Text → Text → Type 0
ReadsName raw name =
    (token : Text) × Memᴰ token (fields is_separator raw)
    × (trim_space token ≢ [])
    × (name ≡ to_lower (trim_space token))

not_false : All (λ w. contains w (words false) ≡ false) (words true)
unfolding contains lit ◌==◌
not_false = (refl, (refl, (refl, (refl, (refl, tt)))))

words_apart : (x : Text) → Memᴰ x (words true) → ¬ Memᴰ x (words false)
words_apart x a b =
    let no = All-mem (λ w. contains w (words false) ≡ false) (words true) x not_false a in
    absurd (ground (arith, no, (contains_iff x (words false)).1 b))

parse_bool_env_iff : (raw : Text) (b : Bool) → (parse_bool_env raw ≡ some b) ↔ ReadsBool raw b
unfolding parse_bool_env
parse_bool_env_iff raw true =
    let x = to_lower (trim_space raw) in ground (arith, contains_iff x (words true))
parse_bool_env_iff raw false =
    let x = to_lower (trim_space raw) in
    ground (arith, contains_iff x (words true), contains_iff x (words false), words_apart x)

Names : Text → List Text → Type 0
Names name tokens =
    (token : Text) × Memᴰ token tokens
    × (trim_space token ≢ [])
    × (name ≡ to_lower (trim_space token))

lower_names-Names :
    (name : Text) (tokens : List Text) → Memᴰ name (lower_names tokens) → Names name tokens
unfolding lower_names Names
lower_names-Names name [] h = absurd (Memᴰ.not-nil h)
lower_names-Names name (t ∷ tokens) h =
    let later : Memᴰ name (lower_names tokens) → Names name (t ∷ tokens) =
      λ m. let (token, i, a, q) = lower_names-Names name tokens m in (token, Memᴰ.tail i, a, q) in
    elim (Bool-cases (trim_space t == [])) [
      | inl e ↦ later (rw (e, lower_names) at h)
      | inr e ↦
          elim ((Memᴰ-cons name (to_lower (trim_space t)) (lower_names tokens)).0
            (rw (e, lower_names) at h)) [
              | inl q ↦ (
                t,
                Memᴰ.head refl,
                λ z. absurd (ground (arith, e, (==_iff (trim_space t) []).1 z)),
                q,
              )
              | inr m ↦ later m
            ]
    ]

Names-lower_names :
    (name token : Text) (tokens : List Text)
    → Memᴰ token tokens
    → trim_space token ≢ []
    → name ≡ to_lower (trim_space token)
    → Memᴰ name (lower_names tokens)
unfolding lower_names
Names-lower_names name token [] m a q = absurd (Memᴰ.not-nil m)
Names-lower_names name token (t ∷ tokens) m a q = elim (Bool-cases (trim_space t == [])) [
  | inl e ↦ elim ((Memᴰ-cons token t tokens).0 m) [
    | inl i ↦ absurd (a (ap trim_space i ∙ (==_iff (trim_space t) []).0 e))
    | inr i ↦ rw (e, lower_names) (Names-lower_names name token tokens i a q)
  ]
  | inr e ↦ elim ((Memᴰ-cons token t tokens).0 m) [
    | inl i ↦ rw (e, lower_names) (Memᴰ.head (q ∙ ap (λ r. to_lower (trim_space r)) i))
    | inr i ↦ rw (e, lower_names) (Memᴰ.tail (Names-lower_names name token tokens i a q))
  ]
]

-- a separator of the list: a comma, a semicolon, a space, a line feed or a tab
pub is_separator_iff :
    (c : ℕ)
    → (is_separator c ≡ true) ↔ ((c ≡ b',') ⊎ ((c ≡ b';') ⊎ ((c ≡ b' ') ⊎ ((c ≡ 10) ⊎ (c ≡ 9)))))
unfolding is_separator
is_separator_iff c = ground (
  arith,
  nat_eq_iff c b',',
  nat_eq_iff c b';',
  nat_eq_iff c b' ',
  nat_eq_iff c 10,
  nat_eq_iff c 9,
)

abbrev read_bool : Option Text → Option Bool
read_bool none = none
read_bool (some raw) = parse_bool_env raw

module _ (lookup_env : Text → Option Text) where
  -- The variable is set to a word for this value.
  abbrev pub Says : Text → Bool → Type 0
  Says key b = (raw : Text) × (lookup_env key ≡ some raw) × ReadsBool raw b

  -- The list of services is set and has this name.
  abbrev pub Lists : Text → Type 0
  Lists name = (raw : Text) × (lookup_env env_only_services ≡ some raw) × ReadsName raw name

  read_cases :
      (o : Option Text) → (elim o [ none ↦ none | some raw ↦ parse_bool_env raw ]) ≡ read_bool o
  read_cases none = refl
  read_cases (some raw) = refl

  parsed : (key : Text) → parsed_env lookup_env key ≡ read_bool (lookup_env key)
  parsed key = read_cases (lookup_env key)

  pub parsed_env_iff : (key : Text) (b : Bool) → (parsed_env lookup_env key ≡ some b) ↔ Says key b
  parsed_env_iff key b = elim (Option-cases (lookup_env key)) [
    | inl e ↦
        let n : parsed_env lookup_env key ≡ none = parsed key ∙ ap read_bool e in
        (λ h. absurd (ground (arith, n, h)), λ (raw, i, r). absurd (ground (arith, e, i)))
    | inr (raw, e) ↦
        let n : parsed_env lookup_env key ≡ parse_bool_env raw = parsed key ∙ ap read_bool e in
        (
          λ h. (raw, e, (parse_bool_env_iff raw b).0 (sym n ∙ h)),
          λ (t, i, r).
              n
              ∙ (parse_bool_env_iff raw b).1
                  (subst (λ u. ReadsBool u b) (sym (some-injective raw t (sym e ∙ i))) r),
        )
  ]

  listed : Option Text → List Text
  listed o = parse_service_list_env (getenv lookup_env o)

  none_listed : (name : Text) → ¬ Memᴰ name (listed none)
  unfolding listed parse_service_list_env fields fields_from lower_names
  none_listed name m = Memᴰ.not-nil m

  some_listed : (raw name : Text) → Memᴰ name (listed (some raw)) ↔ ReadsName raw name
  unfolding listed parse_service_list_env Names
  some_listed raw name = (
    lower_names-Names name (fields is_separator raw),
    λ (token, m, a, q). Names-lower_names name token (fields is_separator raw) m a q,
  )

  pub only_services_iff : (name : Text) → Memᴰ name (only_services lookup_env) ↔ Lists name
  unfolding listed
  only_services_iff name = elim (Option-cases (lookup_env env_only_services)) [
    | inl e ↦
        let n : only_services lookup_env ≡ listed none = ap listed e in
        (
          λ m. absurd (none_listed name (subst (Memᴰ name) n m)),
          λ (raw, i, r). absurd (ground (arith, e, i)),
        )
    | inr (raw, e) ↦
        let n : only_services lookup_env ≡ listed (some raw) = ap listed e in
        (
          λ m. (raw, e, (some_listed raw name).0 (subst (Memᴰ name) n m)),
          λ (t, i, r).
              let same = some-injective raw t (sym e ∙ i) in
              subst (Memᴰ name) (sym n)
                ((some_listed raw name).1 (subst (λ u. ReadsName u name) (sym same) r)),
        )
  ]
