-- ===== src/Ipc/Table.antt =====
-- The table that `listServices` of cmd/go-overlay/ipc.go prints, one line for each service.
use go_overlay.Base.{
  ℕ, zero, suc, ◌≤◌, Text, lit, ◌==◌, Bool, [], ◌∷◌, ◌++◌, if◌then◌else◌, if_elim, length,
  length-append, ltb, ◌≡◌, refl, arith,
}
use go_overlay.Base.Decimal.{decimal}
use go_overlay.Base.Int.{ℤ, pos, negsuc}
use go_overlay.Output.{
  state_text, get_state_color, colorize, pad_right, color_reset, color_red, color_yellow,
  color_cyan, color_white, color_gray,
}
use go_overlay.Supervisor.Control.{ServiceInfo}
use go_overlay.Ipc.{limited}

-- `if len(lastError) > 30 { lastError = lastError[:27] + "..." }`
unfoldable pub shorten : Text → Text
unfolding limited
shorten last_error =
    if ltb 30 (length last_error) then limited 27 last_error ++ lit "..." else last_error

unfoldable pub last_error_cell : Text → Text
unfolding shorten
last_error_cell last_error =
    let short = shorten last_error in
    if short == [] then colorize color_gray (lit "-") else colorize color_red short

abbrev pub required_cell : Bool → Text
required_cell required =
    if required then colorize color_yellow (lit "Yes") else colorize color_gray (lit "No")

-- `%d`
abbrev pub int_text : ℤ → Text
int_text (pos n) = decimal n
int_text (negsuc n) = b'-' ∷ decimal (suc n)

-- a cell in its color and width, and the gap after it
abbrev pub cell : Text → ℕ → Text → Text
cell color width text = color ++ pad_right width text ++ color_reset ++ lit " "

-- The line of a service. How a duration prints, rounded to seconds, is a parameter.
unfoldable pub list_row : (ℤ → Text) → ServiceInfo → Text
unfolding last_error_cell
list_row show_uptime service =
    cell color_cyan 15 service.name
    ++ cell (get_state_color service.state) 10 (state_text service.state)
    ++ cell color_white 8 (int_text service.pid)
    ++ cell color_white 12 (show_uptime service.uptime)
    ++ cell color_white 8 (required_cell service.required)
    ++ last_error_cell service.last_error
    ++ 10 ∷ []

limited-length : (n : ℕ) (s : Text) → length (limited n s) ≤ n
unfolding limited
limited-length zero s = omega arith
limited-length (suc n) [] = omega arith
limited-length (suc n) (c ∷ s) = omega (arith, limited-length n s)

-- The error of a service is shown in at most 30 bytes, and as it is where it has no more.
pub length-shorten : (e : Text) → (length (shorten e) ≤ 30) × (length e ≤ 30 → shorten e ≡ e)
unfolding shorten lit
length-shorten e =
    if_elim (λ s. (length s ≤ 30) × (length e ≤ 30 → s ≡ e)) (ltb 30 (length e)) _ _
      (λ h. (
        omega (arith, length-append (limited 27 e) (lit "..."), limited-length 27 e),
        λ k. absurd (ground arith),
      ))
      (λ h. (ground arith, λ k. refl))
