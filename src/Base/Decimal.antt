-- ===== src/Base/Decimal.antt =====
-- Decimal numbers: `%d` of Go's `fmt` at a number that is not negative, and reading it back.
use Prim.Native.Nat.{ℕ, zero, suc, ◌+◌, ◌-◌, ◌*◌, ◌/◌, ◌%◌, ◌<◌}
use mathlib.Core.Path.{◌≡◌}
use mathlib.Core.Logic.{inl, inr}
use mathlib.Core.Bool.{◌&&◌}
use mathlib.Core.Option.{Option, none, some}
use mathlib.Core.List.{[], ◌∷◌, ◌++◌}
use native.Mathlib.Omega.{arith}
use go_overlay.Base.Tests.{if◌then◌else◌, ltb, leb, Bool-cases}
use go_overlay.Base.Strings.{Text}

-- The value of a run of decimal digits after those that make `n`; `none` at any other byte.
unfoldable pub digits : ℕ → Text → Option ℕ
digits n [] = some n
digits n (c ∷ rest) =
    let tail = digits (n * 10 + (c - 48)) rest in if leb 48 c && leb c 57 then tail else none

decimal_from : ℕ → ℕ → Text
decimal_from zero n = []
decimal_from (suc fuel) n =
    let front = decimal_from fuel (n / 10) ++ (48 + n % 10) ∷ [] in
    if ltb n 10 then (48 + n) ∷ [] else front

-- Each round divides by ten, so one more than `n` rounds are enough.
unfoldable pub decimal : ℕ → Text
unfolding decimal_from
decimal n = decimal_from (suc n) n

digits-snoc :
    (n m d : ℕ) (s : Text)
    → digits n s ≡ some m
    → d < 10
    → digits n (s ++ (48 + d) ∷ []) ≡ some (m * 10 + d)
unfolding digits
digits-snoc n m d [] h b = ground arith
digits-snoc n m d (c ∷ s) h b = ground (arith, digits-snoc (n * 10 + (c - 48)) m d s)

digits-decimal_from : (fuel n : ℕ) → n < fuel → digits 0 (decimal_from fuel n) ≡ some n
unfolding decimal_from
digits-decimal_from zero n h = absurd (omega arith)
digits-decimal_from (suc fuel) n h = elim (Bool-cases (ltb n 10)) [
  | inl e ↦ rw e (unfold digits in ground arith)
  | inr e ↦ rw e (
      rw
        (digits-snoc 0 (n / 10) (n % 10) (decimal_from fuel (n / 10))
          (digits-decimal_from fuel (n / 10) (ground arith)) (omega arith))
        (ground arith))
]

-- What is printed reads back as the number.
pub digits-decimal : (n : ℕ) → digits 0 (decimal n) ≡ some n
unfolding decimal
digits-decimal n = digits-decimal_from (suc n) n (omega arith)
