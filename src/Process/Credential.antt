-- ===== src/Process/Credential.antt =====
-- `lookupUserCredential` of cmd/go-overlay/process.go. The user database is a parameter.
use Prim.Native.Nat.{◌^◌}
use go_overlay.Base.{
  ℕ, ◌<◌, Text, List, [], ◌∷◌, Option, none, some, if◌then◌else◌, ltb, ◌≡◌, arith, All, inl, inr,
  Option-cases,
}
use go_overlay.Base.Decimal.{digits}
use go_overlay.Validation.Host.{User}

abbrev pub u32_mod : ℕ
u32_mod = 2 ^ 32

abbrev below_u32 : Option ℕ → Option ℕ
below_u32 none = none
below_u32 (some n) = if ltb n u32_mod then some n else none

-- `strconv.ParseUint(raw, 10, 32)`: decimal digits only, at least one, and a value of 32 bits
unfoldable pub parse_uint32 : Text → Option ℕ
unfolding digits
parse_uint32 [] = none
parse_uint32 (c ∷ rest) = below_u32 (digits 0 (c ∷ rest))

pub record Credential : Type 0 where
  pub uid : ℕ
  pub gid : ℕ
  pub groups : List ℕ

-- the loop over the group ids: one that does not parse is passed over
unfoldable pub parse_groups : List Text → List ℕ
parse_groups [] = []
parse_groups (raw ∷ rest) =
    let groups = parse_groups rest in
    elim (parse_uint32 raw) [ none ↦ groups | some g ↦ g ∷ groups ]

abbrev groups_of : Option (List Text) → List ℕ
groups_of none = []
groups_of (some ids) = parse_groups ids

infixl 5 ◌>>=◌
abbrev ◌>>=◌ {ℓ κ} : {A : Type ℓ} {B : Type κ} → Option A → (A → Option B) → Option B
none >>= f = none
some a >>= f = f a

-- `none` where the source returns an error
unfoldable pub lookup_user_credential : (Text → Option User) → Text → Option (Credential × Text)
lookup_user_credential lookup_user name = do
  usr ← lookup_user name
  uid ← parse_uint32 usr.uid
  gid ← parse_uint32 usr.gid
  some (record { uid = uid; gid = gid; groups = groups_of usr.group_ids }, usr.home_dir)

parse_uint32-lt : (raw : Text) (n : ℕ) → parse_uint32 raw ≡ some n → n < u32_mod
unfolding parse_uint32
parse_uint32-lt [] n h = ground arith
parse_uint32-lt (c ∷ rest) n h = ground arith

abbrev AllFit : List ℕ → Type 0
AllFit = All (λ g. g < u32_mod)

parse_groups-AllFit : (raw : List Text) → AllFit (parse_groups raw)
unfolding parse_groups
parse_groups-AllFit [] = tt
parse_groups-AllFit (raw ∷ rest) = elim (Option-cases (parse_uint32 raw)) [
  | inl e ↦ rw (e, parse_groups) (parse_groups-AllFit rest)
  | inr (g, e) ↦ rw (e, parse_groups) (parse_uint32-lt raw g e, parse_groups-AllFit rest)
]

groups_of-AllFit : (ids : Option (List Text)) → AllFit (groups_of ids)
groups_of-AllFit none = tt
groups_of-AllFit (some ids) = parse_groups-AllFit ids

pub record FitsU32 (c : Credential) : Type 0 where
  pub uid : c.uid < u32_mod
  pub gid : c.gid < u32_mod
  pub groups : All (λ g. g < u32_mod) c.groups

-- A credential that is found holds numbers of 32 bits: the conversions of the source lose nothing.
pub lookup_user_credential-FitsU32 :
    (lookup_user : Text → Option User) (name : Text) (c : Credential) (home : Text)
    → lookup_user_credential lookup_user name ≡ some (c, home)
    → FitsU32 c
unfolding lookup_user_credential
lookup_user_credential-FitsU32 lookup_user name c home h = elim (Option-cases (lookup_user name)) [
  | inl e ↦ ground arith
  | inr (usr, e) ↦ ground (
    arith,
    parse_uint32-lt usr.uid c.uid,
    parse_uint32-lt usr.gid c.gid,
    groups_of-AllFit usr.group_ids,
  )
]
