-- ===== src/Base/Decimal.antt =====
-- Python's `str` of a natural number.
use Prim.Native.String.{String, [], ◌∷◌, ◌++◌}
use Prim.Native.Nat.{ℕ, zero, suc, ◌/◌, ◌%◌, ◌<◌}
use mathlib.Core.Path.{◌≡◌, refl, ap}
use mathlib.Core.Logic.{inl, inr}
use native.Mathlib.Omega.{arith}
use temis_sso_lab.Base.Tests.{ltb, if◌then◌else◌, Bool-cases}

abbrev text_at : String → ℕ → String
text_at [] n = ""
text_at (c ∷ s) zero = c ∷ []
text_at (c ∷ s) (suc n) = text_at s n

-- The digit of a number below ten.
abbrev digit : ℕ → String
digit n = text_at "0123456789" n

-- The digits of `n`, the last of them first: at most as many as the fuel.
unfoldable pub decimal_of : ℕ → ℕ → String
decimal_of zero n = ""
decimal_of (suc fuel) n =
    let rest = decimal_of fuel (n / 10) in if ltb n 10 then digit n else rest ++ digit (n % 10)

unfoldable pub decimal : ℕ → String
decimal n = decimal_of (suc n) n

-- More fuel than the number gives all its digits, however much it is.
pub decimal_of_enough :
    (fuel fuel' n : ℕ) → n < fuel → n < fuel' → decimal_of fuel n ≡ decimal_of fuel' n
unfolding decimal_of
decimal_of_enough zero fuel' n h h' = absurd (omega (arith, h))
decimal_of_enough (suc fuel) zero n h h' = absurd (omega (arith, h'))
decimal_of_enough (suc fuel) (suc fuel') n h h' = elim (Bool-cases (ltb n 10)) [
  | inl small ↦ rw small refl
  | inr large ↦
      let shorter : n / 10 < n = ground (arith, large) in
      rw large (
        ap (λ s. s ++ digit (n % 10))
          (decimal_of_enough fuel fuel' (n / 10) (omega (arith, shorter, h))
            (omega (arith, shorter, h'))))
]

decimal_test : decimal 1970 ≡ "1970"
unfolding decimal decimal_of
decimal_test = refl
