-- ===== src/Loans/Disbursement/Once.antt =====
-- What a call of `checkAndDisburse` does, and the calls after it (src/modules/loans/loan-verification.service.ts).
use bckashbackend.Common.{
  ℕ, suc, ◌-◌, ◌≡◌, ◌⊎◌, refl, true, false, none, some, ok, err, Option-cases, Bool-cases, inl, inr,
  leb, ap, [], ◌∷◌, not_found,
}
use bckashbackend.Common.Int.{pos, ◌+ℤ◌}
use bckashbackend.Common.Store.{Store, find, modify}
use bckashbackend.Branches.Funds.{debit, debit_found}
use bckashbackend.Calc.Reducing.{Floats}
use bckashbackend.Lending.State.{LoanStatus, same_loan_status}
use bckashbackend.Loans.State.{Loan, Member, Product, Products, Files, Distinct, accounts_of}
use bckashbackend.Loans.Disbursement.{
  Terms, terms_of, set_terms, set_disbursed, activate, disbursement_transaction, disburse,
  all_passed, check_and_disburse,
}
use bckashbackend.Loans.Disbursement.Committed.{IsDisbursed, disburse_committed, disburse-Settles}
use bckashbackend.Loans.Schedule.{total_interest}
use bckashbackend.Loans.Schedule.Dates.{installment_count-fits}
use bckashbackend.Loans.Schedule.Rows.{schedule_of-Dated}

module _ (fl : Floats) (products : Products) (loan_id now : ℕ) (f : Files) where
  check_and_disburse_missing :
      find loan_id f.loans ≡ none
      → check_and_disburse fl products loan_id now f ≡ (err not_found, f)
  unfolding check_and_disburse
  check_and_disburse_missing missing = rw (missing, check_and_disburse) refl

  -- A loan that is not in verification is returned as it is.
  pub check_and_disburse_other :
      {l : Loan}
      → find loan_id f.loans ≡ some l
      → same_loan_status l.status LoanStatus.verification_in_progress ≡ false
      → check_and_disburse fl products loan_id now f ≡ (ok l, f)
  unfolding check_and_disburse
  check_and_disburse_other found other = rw (found, check_and_disburse) (rw other refl)

  check_and_disburse_waiting :
      {l : Loan}
      → find loan_id f.loans ≡ some l
      → same_loan_status l.status LoanStatus.verification_in_progress ≡ true
      → all_passed loan_id f ≡ false
      → check_and_disburse fl products loan_id now f ≡ (ok l, f)
  unfolding check_and_disburse
  check_and_disburse_waiting found verifying waiting =
      rw (found, check_and_disburse) (rw verifying (rw waiting refl))

  pub check_and_disburse_ready :
      {l : Loan}
      → find loan_id f.loans ≡ some l
      → same_loan_status l.status LoanStatus.verification_in_progress ≡ true
      → all_passed loan_id f ≡ true
      → check_and_disburse fl products loan_id now f
        ≡ disburse fl products loan_id l (accounts_of loan_id f.accounts) now f
  unfolding check_and_disburse
  check_and_disburse_ready found verifying passed =
      rw (found, check_and_disburse) (rw verifying (rw passed refl))

-- A call of `checkAndDisburse` leaves everything as it was, or has found the loan in verification,
-- with every account verified, and has disbursed it: it returns the loan as DISBURSED, the branch
-- has paid exactly its amount, its accounts have their schedules and are ACTIVE, and nothing else has changed.
-- The accounts have distinct ids.
pub check_and_disburse-IsDisbursed :
    (fl : Floats) (products : Products) (loan_id now : ℕ) (f : Files)
    → Distinct f.accounts
    → (let out = check_and_disburse fl products loan_id now f in
        (out.1 ≡ f)
        ⊎ ((l : Loan) × (p : Product) × (find loan_id f.loans ≡ some l)
            × (same_loan_status l.status LoanStatus.verification_in_progress ≡ true)
            × (all_passed loan_id f ≡ true)
            × (products l.product_id ≡ ok p)
            × (out.0 ≡ ok (set_disbursed now l))
            × IsDisbursed fl p loan_id l now f out.1))
check_and_disburse-IsDisbursed fl products loan_id now f u =
    elim (Option-cases (find loan_id f.loans)) [
      | inl missing ↦ rw (check_and_disburse_missing fl products loan_id now f missing) (inl refl)
      | inr (l, found) ↦
          elim (Bool-cases (same_loan_status l.status LoanStatus.verification_in_progress)) [
            | inr other ↦
                rw (check_and_disburse_other fl products loan_id now f found other) (inl refl)
            | inl verifying ↦ elim (Bool-cases (all_passed loan_id f)) [
              | inr waiting ↦
                  rw (check_and_disburse_waiting fl products loan_id now f found verifying waiting)
                    (inl refl)
              | inl passed ↦
                  rw (check_and_disburse_ready fl products loan_id now f found verifying passed)
                    (elim (disburse-Settles fl products loan_id l now f u found) [
                      | inl same ↦ inl same
                      | inr (p, sold, returned, done) ↦
                          inr (l, p, found, verifying, passed, sold, returned, done)
                    ])
            ]
          ]
    ]

-- Two calls one after the other, at any times and with any products, disburse a loan once at most:
-- where the first has changed anything, the second returns the loan and changes nothing. The accounts have distinct ids.
pub check_and_disburse_once :
    (fl : Floats) (products products' : Products) (loan_id now now' : ℕ) (f : Files)
    → Distinct f.accounts
    → (let f' = (check_and_disburse fl products loan_id now f).1 in
        (f' ≡ f) ⊎ ((check_and_disburse fl products' loan_id now' f').1 ≡ f'))
check_and_disburse_once fl products products' loan_id now now' f u =
    elim (check_and_disburse-IsDisbursed fl products loan_id now f u) [
      | inl same ↦ inl same
      | inr (l, p, found, verifying, passed, sold, returned, done) ↦ inr (
          ap (λ out. out.1)
            (check_and_disburse_other fl products' loan_id now' _ done.loan_after refl))
    ]

module _ (fl : Floats) (p : Product) (l : Loan) (now tenure period : ℕ) where
  terms_of_total :
      l.tenure_days ≡ suc tenure
      → p.repayment_period_days ≡ suc period
      → (a : Member) → (t : Terms) × (terms_of fl p l now a ≡ ok t)
  unfolding terms_of
  terms_of_total ht hp a =
      let (c, counted, fits) = installment_count-fits tenure period in
      let (rows, e, len, dated) =
        schedule_of-Dated fl p l.tenure_days a.principal_amount_kobo now c (rw (ht, hp) counted) in
      let terms : Terms = record {
        schedule = rows;
        outstanding = pos a.principal_amount_kobo +ℤ total_interest rows;
      } in
      (terms, rw e refl)

  pub activate_total :
      l.tenure_days ≡ suc tenure
      → p.repayment_period_days ≡ suc period
      → (rest d : Store Member) → (d' : Store Member) × (activate fl p l now rest d ≡ ok d')
  unfolding activate
  activate_total ht hp [] d = (d, refl)
  activate_total ht hp ((i, a) ∷ rest) d =
      let (t, set) = terms_of_total ht hp a in
      let (d', e) = activate_total ht hp rest (modify i (set_terms t) d) in (d', rw set e)

-- A transaction that the balance covers and whose calculators answer commits.
pub transaction_commits :
    (fl : Floats) (p : Product) (loan_id : ℕ) (l : Loan) (now : ℕ) (f : Files)
    (accounts : Store Member) (available : ℕ) {members : Store Member}
    → find l.branch_id f.funds ≡ some available
    → leb l.cumulative_amount_kobo available ≡ true
    → activate fl p l now accounts f.accounts ≡ ok members
    → disbursement_transaction fl p loan_id l accounts now f
      ≡ ok (record f {
        funds = (debit l.branch_id l.cumulative_amount_kobo f.funds).1;
        accounts = members;
        loans = modify loan_id (set_disbursed now) f.loans;
      })
unfolding disbursement_transaction
transaction_commits fl p loan_id l now f accounts available funds covered set =
    let paid : debit l.branch_id l.cumulative_amount_kobo f.funds
        ≡ (ok (available - l.cumulative_amount_kobo), _) =
      rw covered at (debit_found l.branch_id l.cumulative_amount_kobo available f.funds funds) in
    rw (paid, disbursement_transaction) (rw set refl)

-- Of a loan in verification, with every account verified, a product with a positive period, a
-- positive tenure and a branch whose balance covers its amount, the call disburses: it returns the
-- loan as DISBURSED, and has paid, scheduled and activated.
pub check_and_disburse_pays :
    (fl : Floats) (products : Products) (loan_id now tenure period available : ℕ) (f : Files)
    (l : Loan) (p : Product)
    → Distinct f.accounts
    → find loan_id f.loans ≡ some l
    → same_loan_status l.status LoanStatus.verification_in_progress ≡ true
    → all_passed loan_id f ≡ true
    → products l.product_id ≡ ok p
    → l.tenure_days ≡ suc tenure
    → p.repayment_period_days ≡ suc period
    → find l.branch_id f.funds ≡ some available
    → leb l.cumulative_amount_kobo available ≡ true
    → (let out = check_and_disburse fl products loan_id now f in
        (out.0 ≡ ok (set_disbursed now l)) × IsDisbursed fl p loan_id l now f out.1)
check_and_disburse_pays fl products loan_id now tenure period available f l p u found verifying
      passed sold ht hp funds covered =
    let accounts = accounts_of loan_id f.accounts in
    let (members, set) = activate_total fl p l now tenure period ht hp accounts f.accounts in
    rw (check_and_disburse_ready fl products loan_id now f found verifying passed) (
      disburse_committed fl p loan_id l now f products u found sold
        (transaction_commits fl p loan_id l now f accounts available funds covered set))
