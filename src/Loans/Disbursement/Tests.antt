-- ===== src/Loans/Disbursement/Tests.antt =====
-- Runs of the disbursement (src/modules/loans/loan-verification.service.ts).
use bckashbackend.Common.{ℕ, ◌+◌, ◌-◌, ◌*◌, ◌≡◌, ◌⊎◌, refl, true, some, List, [], ◌∷◌, ok, arith}
use bckashbackend.Common.Int.{pos, ◌+ℤ◌, ◌-ℤ◌}
use bckashbackend.Common.Store.{find, modify}
use bckashbackend.Calc.Rounding.{basis_points}
use bckashbackend.Lending.State.{LoanStatus, same_loan_status}
use bckashbackend.Loans.State.{Loan, Member, Row, Product, Files, accounts_of}
use bckashbackend.Calc.Interest.{calculate_flat_interest_schedule}
use bckashbackend.Loans.Schedule.{
  flat_rows, compute_installment_due_date, schedule_of, installment_count, total_interest,
}
use bckashbackend.Loans.Disbursement.{
  Terms, set_terms, set_disbursed, terms_of, disburse, check_and_disburse, all_passed, has_passed,
  confirm_cheque_handover,
}
use bckashbackend.Loans.Disbursement.Committed.{IsDisbursed}
use bckashbackend.Loans.Disbursement.Once.{
  check_and_disburse-IsDisbursed, check_and_disburse_once, check_and_disburse_pays,
}
use bckashbackend.Loans.Disbursement.Stale.{disburse_twice}
use bckashbackend.Loans.Disbursement.Handover.{confirm_cheque_handover-schedule}
use bckashbackend.Loans.Samples.{floats, weekly, products, loan, member, files, files-Distinct}

pays_example :
    (let out = check_and_disburse floats products 5 100 files in
      (out.0 ≡ ok (set_disbursed 100 loan)) × IsDisbursed floats weekly 5 loan 100 files out.1)
unfolding all_passed accounts_of has_passed
pays_example =
    check_and_disburse_pays floats products 5 100 29 6 2500 files loan weekly files-Distinct refl
      refl refl refl refl refl refl refl

IsDisbursed-example :
    (let out = check_and_disburse floats products 5 100 files in
      (out.1 ≡ files)
      ⊎ ((l : Loan) × (p : Product) × (find 5 files.loans ≡ some l)
          × (same_loan_status l.status LoanStatus.verification_in_progress ≡ true)
          × (all_passed 5 files ≡ true)
          × (products l.product_id ≡ ok p)
          × (out.0 ≡ ok (set_disbursed 100 l))
          × IsDisbursed floats p 5 l 100 files out.1))
IsDisbursed-example = check_and_disburse-IsDisbursed floats products 5 100 files files-Distinct

once_example :
    (let f' = (check_and_disburse floats products 5 100 files).1 in
      (f' ≡ files) ⊎ ((check_and_disburse floats products 5 101 f').1 ≡ f'))
once_example = check_and_disburse_once floats products products 5 100 101 files files-Distinct

twice_example :
    (let first = disburse floats products 5 loan files.accounts 100 files in
      let second = disburse floats products 5 loan files.accounts 101 first.1 in
      (first.0 ≡ ok (set_disbursed 100 loan))
      × (second.0 ≡ ok (set_disbursed 101 loan))
      × (find 3 (second.1).funds ≡ some (2500 - 2 * 1000)))
twice_example =
    disburse_twice floats products weekly 5 loan files.accounts 29 6 refl refl refl 100 101 2500
      files loan refl refl (omega arith)

abbrev row : (number due opening principal interest closing : ℕ) → Row
row number due opening principal interest closing = record {
  installment_number = number;
  due_date = due;
  opening_balance = pos opening;
  principal_portion = pos principal;
  interest_portion = pos interest;
  total_due = pos (principal + interest);
  closing_balance = pos closing;
}

abbrev rows : List Row
rows =
    row 1 107 1000 200 20 800
    ∷ row 2 114 800 200 20 600
    ∷ row 3 121 600 200 20 400
    ∷ row 4 128 400 200 20 200
    ∷ row 5 130 200 200 20 0
    ∷ []

abbrev terms : Terms
terms = record { schedule = rows; outstanding = pos 1100 }

abbrev handed : Files
handed = record files { accounts = (6, set_terms terms member) ∷ [] }

schedule-example :
    (rs : List Row) × (schedule_of floats weekly 30 1000 103 ≡ ok rs)
    × (confirm_cheque_handover products 6 103 handed ≡ (
        let a : Member = record (set_terms terms member) {
          cheque_handed_over_at = some 103;
          schedule = rs;
        } in
        (ok a, record handed { accounts = modify 6 (λ _. a) handed.accounts })))
unfolding terms_of schedule_of total_interest flat_rows compute_installment_due_date
    installment_count calculate_flat_interest_schedule ◌+ℤ◌ ◌-ℤ◌ basis_points
schedule-example =
    confirm_cheque_handover-schedule floats products weekly weekly loan loan member terms 6 100 103
      29 6 handed refl refl refl refl refl refl refl refl refl refl
