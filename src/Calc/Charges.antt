-- ===== src/Calc/Charges.antt =====
-- `calculateFeeAmount`, `calculateEarlyLiquidationFee` and `calculatePenaltyAmount`
-- (src/modules/loan-products/calculations/fee-calculation.ts, penalty-calculation.ts).
-- FeePercentageBasis and PenaltyPercentageBasis have the same members, and are one type here.
use bckashbackend.Common.{
  ℕ, ◌*◌, ◌+◌, ◌≤◌, ◌<◌, ◌≡◌, Option, none, some, if◌then◌else◌, leb, Result, ok, err, internal,
  or_throw, arith, ◌>>=◌, Bool-cases, inl, inr,
}
use bckashbackend.Calc.Rounding.{basis_points_nearest, basis_points, basis_points-le}

pub data CalcType : Type 0 where
  fixed percentage : CalcType

pub data Basis : Type 0 where
  principal outstanding overdue_amount : Basis

-- kobo if FIXED, basis points if PERCENTAGE
pub record Fee : Type 0 where
  pub calc_type : CalcType
  pub value : ℕ
  pub percentage_of : Option Basis

pub record Amounts : Type 0 where
  pub principal : Option ℕ
  pub outstanding : Option ℕ
  pub overdue_amount : Option ℕ

-- `CONTEXT_FIELD_FOR_BASIS`
abbrev field_for : Basis → Amounts → Option ℕ
field_for Basis.principal c = c.principal
field_for Basis.outstanding c = c.outstanding
field_for Basis.overdue_amount c = c.overdue_amount

unfoldable pub context_value_for : Basis → Amounts → Result ℕ
context_value_for basis context = or_throw (field_for basis context) internal

unfoldable pub calculate_fee_amount : Fee → Amounts → Result ℕ
unfolding context_value_for
calculate_fee_amount fee context = elim fee.calc_type [
  | fixed ↦ ok fee.value
  | percentage ↦ elim fee.percentage_of [
    | none ↦ err internal
    | some basis ↦ context_value_for basis context >>= λ base. ok (basis_points base fee.value)
  ]
]

abbrev only_outstanding : ℕ → Amounts
only_outstanding n = record { principal = none; outstanding = some n; overdue_amount = none }

unfoldable pub calculate_early_liquidation_fee : Fee → ℕ → Result ℕ
unfolding calculate_fee_amount
calculate_early_liquidation_fee fee balance = calculate_fee_amount fee (only_outstanding balance)

pub record PenaltyTerms : Type 0 where
  pub calc_type : CalcType
  pub value : ℕ
  pub percentage_of : Option Basis
  pub grace_period_days : ℕ

unfoldable pub calculate_penalty_amount : PenaltyTerms → Amounts → ℕ → Result ℕ
unfolding context_value_for
calculate_penalty_amount rule context days_late =
    if leb days_late rule.grace_period_days then ok 0 else elim rule.calc_type [
      | fixed ↦ ok rule.value
      | percentage ↦ elim rule.percentage_of [
        | none ↦ err internal
        | some basis ↦ context_value_for basis context >>= λ base. ok (basis_points base rule.value)
      ]
    ]

-- A penalty is nothing up to and including the last day of grace, and the fee of the same terms
-- on the same amounts from the day after.
pub penalty_amount-fee_amount :
    (rule : PenaltyTerms) (context : Amounts) (days_late : ℕ)
    → calculate_penalty_amount rule context days_late ≡ (
        if leb days_late rule.grace_period_days
        then ok 0
        else calculate_fee_amount
            (record {
              calc_type = rule.calc_type;
              value = rule.value;
              percentage_of = rule.percentage_of;
            })
            context)
unfolding calculate_penalty_amount calculate_fee_amount
penalty_amount-fee_amount rule context days_late =
    elim (Bool-cases (leb days_late rule.grace_period_days)) [
      | inl in_grace ↦ rw in_grace
      | inr late ↦ rw late
    ]

-- The fee of an early liquidation that is a share of the outstanding balance, of up to 10000 basis
-- points, is the share rounded to the nearest kobo, a half up, and never exceeds the balance: it is at most
-- half a kobo above the exact share, and less than half a kobo below it.
pub liquidation_fee_share :
    (fee : Fee) (balance : ℕ)
    → fee.calc_type ≡ percentage
    → fee.percentage_of ≡ some Basis.outstanding
    → fee.value ≤ 10000
    → (x : ℕ) × (calculate_early_liquidation_fee fee balance ≡ ok x)
      × (x ≤ balance)
      × (2 * (balance * fee.value) < 2 * (x * 10000) + 10000)
      × (2 * (x * 10000) ≤ 2 * (balance * fee.value) + 10000)
unfolding calculate_early_liquidation_fee calculate_fee_amount
liquidation_fee_share fee balance shared of bounded =
    let (low, high) = basis_points_nearest balance fee.value in
    (
      basis_points balance fee.value,
      ground arith,
      basis_points-le balance fee.value bounded,
      low,
      high,
    )
