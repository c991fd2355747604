-- ===== src/Loans/Schedule.antt =====
-- The repayment schedule that a disbursement writes: `computeInstallmentDueDate` and
-- `normalizeSchedule` (src/modules/loans/loan-verification.service.ts).
pub mod Rows
pub mod Dates
pub mod Sums
use bckashbackend.Common.{
  ℕ, zero, suc, ◌+◌, ◌-◌, ◌*◌, ◌/◌, Option, List, [], ◌∷◌, map, ◌==◌, ltb, if◌then◌else◌, length,
  Result, ok, ◌>>=◌,
}
use bckashbackend.Common.Int.{ℤ, pos, ◌+ℤ◌, ◌-ℤ◌}
use bckashbackend.Calc.Interest.{FlatInstallment, calculate_flat_interest_schedule}
use bckashbackend.Calc.Reducing.{Floats, ReducingInstallment, calculate_reducing_balance_schedule}
use bckashbackend.Loans.State.{InterestType, Product, Row}

-- `Math.max(1, Math.ceil(tenureDays / repaymentPeriodDays))`. A period of 0 gives an infinite or an
-- undefined count there, which the calculators refuse as they refuse 0.
unfoldable pub installment_count : ℕ → ℕ → ℕ
installment_count tenure zero = 0
installment_count tenure (suc period) =
    let n = (tenure + period) / suc period in if ltb n 1 then 1 else n

unfoldable pub compute_installment_due_date : (anchor number count period tenure : ℕ) → ℕ
compute_installment_due_date anchor number count period tenure =
    anchor + (if number == count then tenure else number * period)

-- The rows of a flat schedule, with the principal that is still outstanding before each.
unfoldable pub flat_rows : (anchor count period tenure : ℕ) → ℤ → List FlatInstallment → List Row
unfolding compute_installment_due_date
flat_rows anchor count period tenure outstanding [] = []
flat_rows anchor count period tenure outstanding (e ∷ es) =
    let after = outstanding -ℤ pos e.principal_portion in
    record {
      installment_number = e.installment_number;
      due_date = compute_installment_due_date anchor e.installment_number count period tenure;
      opening_balance = outstanding;
      principal_portion = pos e.principal_portion;
      interest_portion = pos e.interest_portion;
      total_due = pos e.total_due;
      closing_balance = after;
    }
    ∷ flat_rows anchor count period tenure after es

unfoldable pub reducing_row : (anchor count period tenure : ℕ) → ReducingInstallment → Row
unfolding compute_installment_due_date
reducing_row anchor count period tenure e = record {
  installment_number = e.installment_number;
  due_date = compute_installment_due_date anchor e.installment_number count period tenure;
  opening_balance = e.opening_balance;
  principal_portion = e.principal_portion;
  interest_portion = e.interest_portion;
  total_due = e.total_due;
  closing_balance = e.closing_balance;
}

-- `schedule.reduce((sum, entry) => sum + entry.interestPortion, 0)`, summed from the right
unfoldable pub total_interest : List Row → ℤ
total_interest [] = pos 0
total_interest (r ∷ rs) = r.interest_portion +ℤ total_interest rs

-- The schedule of a principal, from the calculator of the product's interest type to the rows that
-- are stored.
unfoldable pub schedule_of : Floats → Product → (tenure principal anchor : ℕ) → Result (List Row)
unfolding installment_count flat_rows reducing_row
schedule_of fl p tenure principal anchor =
    let count = installment_count tenure p.repayment_period_days in
    elim p.interest_type [
      | InterestType.flat ↦
          calculate_flat_interest_schedule principal p.interest_rate count >>= λ s. ok (
            flat_rows anchor (length s.schedule) p.repayment_period_days tenure (pos principal)
              s.schedule)
      | InterestType.reducing ↦
          calculate_reducing_balance_schedule fl principal p.interest_rate count >>= λ s.
          ok (map (reducing_row anchor (length s) p.repayment_period_days tenure) s)
    ]

-- A schedule anchored again at a later date, as `confirmChequeHandover` does.
unfoldable pub reanchor : (anchor count period tenure : ℕ) → List Row → List Row
unfolding compute_installment_due_date
reanchor anchor count period tenure = map (λ (r : Row). record r {
  due_date = compute_installment_due_date anchor r.installment_number count period tenure;
})
