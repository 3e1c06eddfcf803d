-- ===== src/Environ/Mask.antt =====
-- `isSensitiveEnvKey` and `maskEnvEntry` of cmd/go-overlay/env.go.
use go_overlay.Base.{
  Text, lit, ◌==◌, has_infix, Bool, true, false, ◌||◌, not, List, [], ◌∷◌, ◌++◌, none, some, length,
  if◌then◌else◌, ◌≡◌, arith, has_byte, refl, sym, ◌∙◌, inl, inr, Option-cases,
}
use go_overlay.Base.Decimal.{decimal}
use go_overlay.Ascii.{to_lower, to_upper, cut, has_suffix}
use go_overlay.Ascii.Laws.{cut-append, cut_inverse, to_upper-to_lower}

abbrev pub sensitive_env_markers : List Text
sensitive_env_markers =
    lit "PASSWORD"
    ∷ lit "PASSWD"
    ∷ lit "SECRET"
    ∷ lit "TOKEN"
    ∷ lit "APIKEY"
    ∷ lit "API_KEY"
    ∷ lit "PRIVATE"
    ∷ lit "CREDENTIAL"
    ∷ lit "SESSION"
    ∷ lit "AUTH"
    ∷ lit "SIGNATURE"
    ∷ lit "CERT"
    ∷ []

-- `for _, marker := range markers { if strings.Contains(upper, marker) { return true } }`
has_marker : Text → List Text → Bool
has_marker upper [] = false
has_marker upper (marker ∷ markers) = has_infix upper marker || has_marker upper markers

unfoldable pub is_sensitive_env_key : Text → Bool
unfolding has_marker
is_sensitive_env_key key =
    let upper = to_upper key in
    has_marker upper sensitive_env_markers || has_suffix upper (lit "_KEY") || upper == lit "KEY"

unfoldable pub mask_env_entry : Text → Text
mask_env_entry entry = elim (cut b'=' entry) [
  | none ↦ entry
  | some (key, value) ↦
      if not (is_sensitive_env_key key)
      then entry
      else if value == []
      then key ++ lit "="
      else key ++ lit "=<redacted:" ++ decimal (length value) ++ lit " chars>"
]

-- `key=value`
abbrev pub entry : Text → Text → Text
entry key value = key ++ b'=' ∷ value

-- what is shown of a value
abbrev shown : Text → Text → Text
shown key value =
    if value == []
    then key ++ lit "="
    else key ++ lit "=<redacted:" ++ decimal (length value) ++ lit " chars>"

mask_env_entry-sensitive :
    (key v : Text)
    → has_byte b'=' key ≡ false
    → is_sensitive_env_key key ≡ true
    → mask_env_entry (entry key v) ≡ shown key v
unfolding mask_env_entry
mask_env_entry-sensitive key v h s = rw (cut-append b'=' key v h, mask_env_entry) (rw s refl)

shown_eq : (key v w : Text) → length v ≡ length w → shown key v ≡ shown key w
unfolding ◌==◌
shown_eq key [] [] l = refl
shown_eq key [] (d ∷ w) l = absurd (omega arith)
shown_eq key (c ∷ v) [] l = absurd (omega arith)
shown_eq key (c ∷ v) (d ∷ w) l = rw l

-- Of a sensitive variable the output shows the key and the length of the value, and nothing else of
-- the value: two values of one length give the same output.
pub mask_env_entry-hides :
    (key v w : Text)
    → has_byte b'=' key ≡ false
    → is_sensitive_env_key key ≡ true
    → length v ≡ length w
    → mask_env_entry (entry key v) ≡ mask_env_entry (entry key w)
mask_env_entry-hides key v w h s l =
    mask_env_entry-sensitive key v h s
    ∙ shown_eq key v w l
    ∙ sym (mask_env_entry-sensitive key w h s)

-- An entry that is not `key=value` with a sensitive key is printed as it is.
mask_env_entry-keeps :
    (e : Text)
    → ((key v : Text) → e ≡ entry key v → is_sensitive_env_key key ≡ false)
    → mask_env_entry e ≡ e
unfolding mask_env_entry
mask_env_entry-keeps e plain = elim (Option-cases (cut b'=' e)) [
  | inl none_found ↦ rw (none_found, mask_env_entry)
  | inr ((key, v), found) ↦
      rw (found, mask_env_entry) (rw (plain key v (cut_inverse b'=' e key v found).0))
]

-- Whether a key is sensitive does not depend on its case.
pub is_sensitive_env_key-to_lower :
    (key : Text) → is_sensitive_env_key (to_lower key) ≡ is_sensitive_env_key key
unfolding is_sensitive_env_key
is_sensitive_env_key-to_lower key = rw to_upper-to_lower
