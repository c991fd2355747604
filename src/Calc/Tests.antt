-- ===== src/Calc/Tests.antt =====
-- Runs of the calculations (src/modules/loan-products/calculations), with exact fractions in the place
-- of floats.
use bckashbackend.Common.{
  ℕ, zero, suc, ◌+◌, ◌-◌, ◌*◌, ◌/◌, ◌≤◌, ◌<◌, ◌≡◌, refl, ap, none, some, List, length, ok, ◌==◌,
  arith,
}
use bckashbackend.Common.Int.{ℤ, pos, negsuc, ◌+ℤ◌, ◌-ℤ◌, ◌*ℤ◌, pos_part}
use bckashbackend.Calc.Rounding.{basis_points}
use bckashbackend.Calc.Interest.{FlatSchedule, calculate_flat_interest_schedule}
use bckashbackend.Calc.Interest.Flat.{principal_sum, interest_sum, due_sum, flat_schedule_sums}
use bckashbackend.Calc.Reducing.{
  Floats, ReducingInstallment, installment_amount, per_installment_rate,
  calculate_reducing_balance_schedule,
}
use bckashbackend.Calc.Reducing.Payoff.{
  principal_total, IsPayoff, reducing_schedule_pays_off, last_portion, OthersPay,
  zero_rate_last_portion,
}
use bckashbackend.Calc.Charges.{
  Basis, Fee, Amounts, PenaltyTerms, percentage, calculate_early_liquidation_fee,
  liquidation_fee_share,
}

flat_example :
    (result : FlatSchedule) × (calculate_flat_interest_schedule 1000 250 3 ≡ ok result)
    × (length result.schedule ≡ 3)
    × (result.total_interest_kobo ≡ basis_points 1000 250)
    × (principal_sum result.schedule ≡ 1000)
    × (interest_sum result.schedule ≡ result.total_interest_kobo)
    × (due_sum result.schedule ≡ 1000 + result.total_interest_kobo)
flat_example = flat_schedule_sums 1000 250 2

abbrev share : Fee
share = record { calc_type = percentage; value = 150; percentage_of = some Basis.outstanding }

share_example :
    (x : ℕ) × (calculate_early_liquidation_fee share 12345 ≡ ok x)
    × (x ≤ 12345)
    × (2 * (12345 * 150) < 2 * (x * 10000) + 10000)
    × (2 * (x * 10000) ≤ 2 * (12345 * 150) + 10000)
share_example = liquidation_fee_share share 12345 refl refl (omega arith)

abbrev terms : PenaltyTerms
terms = record {
  calc_type = percentage;
  value = 200;
  percentage_of = some Basis.overdue_amount;
  grace_period_days = 3;
}

abbrev overdue : Amounts
overdue = record { principal = some 900; outstanding = none; overdue_amount = some 500 }

-- A numerator and a positive denominator.
abbrev Fraction : Type 0
Fraction = ℤ × ℕ

abbrev pow_ℤ : ℤ → ℕ → ℤ
pow_ℤ a zero = pos 1
pow_ℤ a (suc n) = pow_ℤ a n *ℤ a

abbrev divide : Fraction → Fraction → Fraction
divide (a, b) (pos c, d) = (a *ℤ pos d, b * c)
divide (a, b) (negsuc c, d) = (pos 0 -ℤ a *ℤ pos d, b * suc c)

abbrev power : Fraction → ℕ → Fraction
power (a, b) n = (pow_ℤ a n, pos_part (pow_ℤ (pos b) n))

abbrev nearest : Fraction → ℤ
nearest (pos a, b) = pos ((2 * a + b) / (2 * b))
nearest (negsuc a, b) = pos 0 -ℤ pos ((2 * suc a + b - 1) / (2 * b))

abbrev fractions : Floats
fractions = record {
  F = Fraction;
  of_ℤ = λ a. (a, 1);
  fadd = λ x y. (x.0 *ℤ pos y.1 +ℤ y.0 *ℤ pos x.1, x.1 * y.1);
  fsub = λ x y. (x.0 *ℤ pos y.1 -ℤ y.0 *ℤ pos x.1, x.1 * y.1);
  fmul = λ x y. (x.0 *ℤ y.0, x.1 * y.1);
  fdiv = divide;
  fpow = λ x y. power x (pos_part y.0);
  is_zero = λ x. pos_part x.0 == 0;
  round = nearest;
}

pays_off_example :
    (entries : List ReducingInstallment) × (calculate_reducing_balance_schedule fractions 1000 1200
        3
      ≡ ok entries)
    × (length entries ≡ 3)
    × (principal_total entries ≡ pos 1000)
    × IsPayoff (pos 1000) entries
pays_off_example = reducing_schedule_pays_off fractions 1000 1200 2

times_zero : (a : ℤ) → a *ℤ pos 0 ≡ pos 0
unfolding ◌*ℤ◌
times_zero a = ground arith

no_interest :
    (opening : ℤ)
    → fractions.round (fractions.fmul (fractions.of_ℤ opening) (per_installment_rate fractions 0 5))
      ≡ pos 0
unfolding per_installment_rate ◌*ℤ◌
no_interest (pos n) = ap (λ z. nearest (z, 50000)) (times_zero (pos n))
no_interest (negsuc n) = ap (λ z. nearest (z, 50000)) (times_zero (negsuc n))

even_split : installment_amount fractions 3 0 5 ≡ pos 1
unfolding installment_amount ◌*ℤ◌
even_split = refl

-- Three kobo in five installments: four of one kobo, and a last portion of minus one.
negative_example :
    (entries : List ReducingInstallment) × (calculate_reducing_balance_schedule fractions 3 0 5
      ≡ ok entries)
    × OthersPay 1 entries
    × (last_portion entries +ℤ pos 4 ≡ pos 3)
negative_example = zero_rate_last_portion fractions 3 1 4 even_split no_interest
