-- ===== src/Loans/Disbursement/Stale.antt =====
-- Two calls of `disburse` that have both read the loan before either wrote
-- (src/modules/loans/loan-verification.service.ts): the transaction tests no status.
use bckashbackend.Common.{ℕ, suc, ◌-◌, ◌*◌, ◌≤◌, ◌≡◌, refl, ap, ◌∙◌, true, some, leb, ok, arith}
use bckashbackend.Common.Store.{Store, find, modify, find-modify_self}
use bckashbackend.Branches.Funds.{debit, debit_found}
use bckashbackend.Calc.Reducing.{Floats}
use bckashbackend.Loans.State.{Loan, Member, Product, Products, Files}
use bckashbackend.Loans.Disbursement.{set_disbursed, hand_over, disburse}
use bckashbackend.Loans.Disbursement.Once.{activate_total, transaction_commits}

module _ (fl : Floats) (products : Products) (p : Product) (loan_id : ℕ) (l : Loan)
    (accounts : Store Member) (tenure period : ℕ) (sold : products l.product_id ≡ ok p)
    (ht : l.tenure_days ≡ suc tenure) (hp : p.repayment_period_days ≡ suc period) where
  -- One call takes the amount, whatever the status of the loan is by then.
  disburse_takes :
      (now available : ℕ) (f : Files) (q : Loan)
      → find loan_id f.loans ≡ some q
      → find l.branch_id f.funds ≡ some available
      → l.cumulative_amount_kobo ≤ available
      → (let out = disburse fl products loan_id l accounts now f in
          (out.0 ≡ ok (set_disbursed now q))
          × (find loan_id (out.1).loans ≡ some (set_disbursed now q))
          × (find l.branch_id (out.1).funds ≡ some (available - l.cumulative_amount_kobo)))
  unfolding hand_over disburse
  disburse_takes now available f q there funds enough =
      let covered : leb l.cumulative_amount_kobo available ≡ true = ground arith in
      let (members, set) = activate_total fl p l now tenure period ht hp accounts f.accounts in
      let committed =
        transaction_commits fl p loan_id l now f accounts available funds covered set in
      let wrote = find-modify_self loan_id (set_disbursed now) f.loans there in
      let paid : debit l.branch_id l.cumulative_amount_kobo f.funds ≡ (
        ok (available - l.cumulative_amount_kobo),
        modify l.branch_id (λ m. m - l.cumulative_amount_kobo) f.funds,
      ) =
        rw covered at (debit_found l.branch_id l.cumulative_amount_kobo available f.funds funds) in
      let left = find-modify_self l.branch_id (λ m. m - l.cumulative_amount_kobo) f.funds funds in
      rw ((sold, disburse)) (rw committed (rw wrote (refl, wrote, rw paid left)))

  -- Two calls of `disburse` with the loan and the accounts that were read before either wrote, where
  -- the balance covers the amount twice: both return the loan as DISBURSED, and the branch has paid the amount twice.
  -- The product has a positive period, the loan a positive tenure, and it is there.
  pub disburse_twice :
      (now now' available : ℕ) (f : Files) (q : Loan)
      → find loan_id f.loans ≡ some q
      → find l.branch_id f.funds ≡ some available
      → 2 * l.cumulative_amount_kobo ≤ available
      → (let first = disburse fl products loan_id l accounts now f in
          let second = disburse fl products loan_id l accounts now' first.1 in
          (first.0 ≡ ok (set_disbursed now q))
          × (second.0 ≡ ok (set_disbursed now' q))
          × (find l.branch_id (second.1).funds ≡ some (available - 2 * l.cumulative_amount_kobo)))
  disburse_twice now now' available f q there funds enough =
      let (returned, there', funds') = disburse_takes now available f q there funds (omega arith) in
      let (returned', there'', funds'') =
        disburse_takes now' (available - l.cumulative_amount_kobo) _ (set_disbursed now q) there'
          funds' (omega arith) in
      (returned, returned', funds'' ∙ ap some (omega arith))
