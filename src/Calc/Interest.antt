-- ===== src/Calc/Interest.antt =====
-- `calculateFlatInterestSchedule` (src/modules/loan-products/calculations/interest-schedule.ts).
pub mod Flat
use bckashbackend.Common.{
  ℕ, zero, suc, ◌+◌, ◌-◌, ◌*◌, ◌/◌, ◌≤◌, ◌<◌, ◌≡◌, refl, Option, none, some, List, [], ◌∷◌, ◌==◌,
  if◌then◌else◌, Result, ok, err, internal, sum_by, length, arith, ◌>>=◌, ◌>>◌, Bool-cases, inl,
  inr, ◌⊎◌, All,
}
use bckashbackend.Calc.Rounding.{basis_points, assert_positive_integer}

pub record FlatInstallment : Type 0 where
  pub installment_number : ℕ
  pub principal_portion : ℕ
  pub interest_portion : ℕ
  pub total_due : ℕ

pub record FlatSchedule : Type 0 where
  pub installment_amount_kobo : ℕ
  pub total_interest_kobo : ℕ
  pub schedule : List FlatInstallment

-- The loop from an installment number on, with the rounds that are left and what is allocated.
unfoldable pub flat_loop :
    (rounds number count principal interest allocated allocated' : ℕ) → List FlatInstallment
flat_loop zero number count principal interest a a' = []
flat_loop (suc rounds) number count principal interest a a' =
    let p = if number == count then principal - a else principal / count in
    let i = if number == count then interest - a' else interest / count in
    record {
      installment_number = number;
      principal_portion = p;
      interest_portion = i;
      total_due = p + i;
    }
    ∷ flat_loop rounds (number + 1) count principal interest (a + p) (a' + i)

-- `schedule[0]!.totalDue`
abbrev first_due : List FlatInstallment → ℕ
first_due [] = 0
first_due (e ∷ es) = e.total_due

unfoldable pub calculate_flat_interest_schedule : ℕ → ℕ → ℕ → Result FlatSchedule
unfolding flat_loop assert_positive_integer
calculate_flat_interest_schedule principal rate count = do
  assert_positive_integer count
  let interest = basis_points principal rate
  let schedule = flat_loop count 1 count principal interest 0 0
  ok (record {
    installment_amount_kobo = first_due schedule;
    total_interest_kobo = interest;
    schedule = schedule;
  })
