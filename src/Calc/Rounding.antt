-- ===== src/Calc/Rounding.antt =====
-- `roundHalfUp` and the guards of src/modules/loan-products/calculations/rounding.util.ts.
-- Amounts are non-negative integers here, so `assertNonNegativeInteger` holds by type.
use bckashbackend.Common.{ℕ, zero, suc, ◌+◌, ◌*◌, ◌/◌, ◌≤◌, ◌<◌, Result, ok, err, internal, arith}

-- `Math.round(a / b)`: the integer nearest to the quotient, halves upwards. The quotient is exact
-- while a stays below 2^53: a float quotient that is not a half never rounds to one.
unfoldable pub round_half_up : ℕ → ℕ → ℕ
round_half_up a b = (2 * a + b) / (2 * b)

unfoldable pub assert_positive_integer : ℕ → Result (Unit {0})
assert_positive_integer zero = err internal
assert_positive_integer (suc n) = ok tt

-- `round((base * value) / 10_000)`: a share in basis points
unfoldable pub basis_points : ℕ → ℕ → ℕ
unfolding round_half_up
basis_points base value = round_half_up (base * value) 10000

-- The exact quotient is below the rounded one and half a unit, and the rounded one is at most half a
-- unit above it, so a half goes up.
pub basis_points_nearest :
    (base value : ℕ)
    → (2 * (base * value) < 2 * (basis_points base value * 10000) + 10000)
      × (2 * (basis_points base value * 10000) ≤ 2 * (base * value) + 10000)
unfolding basis_points
basis_points_nearest base value = omega arith

pub basis_points_mono :
    (base base' value : ℕ) → base ≤ base' → basis_points base value ≤ basis_points base' value
unfolding basis_points
basis_points_mono base base' value h =
    let m : base * value ≤ base' * value = grind arith in omega arith

pub basis_points-le : (base value : ℕ) → value ≤ 10000 → basis_points base value ≤ base
unfolding basis_points
basis_points-le base value h = let m : base * value ≤ base * 10000 = grind arith in omega arith
