-- ===== src/Lending/Completion.antt =====
-- `LoansService.syncCompletionStatus` and `rejectLoan` (src/modules/loans/loans.service.ts), and the
-- completion of an early liquidation (src/modules/repayments/early-liquidation.service.ts).
use bckashbackend.Common.{
  ℕ, Bool, true, false, not, ◌&&◌, ◌||◌, none, some, List, [], ◌∷◌, ◌==◌, if◌then◌else◌, ltb, every,
  select, map,
}
use bckashbackend.Common.Store.{Store, find, modify}
use bckashbackend.Lending.State.{
  Loan, LoanStatus, Account, AccountStatus, Repayment, Liquidation, LiquidationStatus, Books,
  same_loan_status, same_account_status, same_liquidation_status,
}

-- `memberLoanAccountModel.find({ loanId })`
abbrev pub accounts_of : ℕ → Store Account → List Account
accounts_of loan_id accounts =
    select (λ (a : Account). a.loan_id == loan_id) (map (λ e. e.1) accounts)

abbrev pub is_nonempty : List AccountStatus → Bool
is_nonempty [] = false
is_nonempty (s ∷ ss) = true

-- `allSettled`, by the statuses of the accounts
unfoldable pub all_settled : List AccountStatus → Bool
all_settled statuses =
    is_nonempty statuses && every (λ s. same_account_status s AccountStatus.closed) statuses

abbrev pub statuses_of : ℕ → Store Account → List AccountStatus
statuses_of loan_id accounts = map (λ (a : Account). a.status) (accounts_of loan_id accounts)

-- The status of a loan after the resync, by whether its accounts are all settled.
unfoldable pub completion_status : Bool → LoanStatus → LoanStatus
completion_status settled s =
    if same_loan_status s LoanStatus.disbursed || same_loan_status s LoanStatus.closed
    then (if settled && not (same_loan_status s LoanStatus.closed)
        then LoanStatus.closed
        else (if not settled && same_loan_status s LoanStatus.closed
            then LoanStatus.disbursed
            else s))
    else s

unfoldable pub sync_completion_status : ℕ → Books → Books
unfolding all_settled completion_status
sync_completion_status loan_id b = record b {
  loans =
      modify loan_id
        (λ (l : Loan). record l {
          status = completion_status (all_settled (statuses_of loan_id b.accounts)) l.status;
        })
        b.loans;
}

-- `checkCompletion`: the request that is linked, its status, the amount, then the transaction that
-- completes the request, empties and closes the account; then the loan is resynced.
unfoldable pub complete_liquidation : ℕ → Repayment → Books → Books
complete_liquidation liquidation_id r b = sync_completion_status r.loan_id (record b {
  liquidations =
      modify liquidation_id (λ (q : Liquidation). record q { status = LiquidationStatus.completed })
        b.liquidations;
  accounts =
      modify r.account_id
        (λ (a : Account). record a {
          outstanding_balance_kobo = some 0;
          status = AccountStatus.closed;
        })
        b.accounts;
})

unfoldable pub check_completion : Repayment → Books → Books
unfolding complete_liquidation
check_completion r b = elim r.linked_liquidation_request_id [
  | none ↦ b
  | some liquidation_id ↦ elim (find liquidation_id b.liquidations) [
    | none ↦ b
    | some q ↦
        if same_liquidation_status q.status LiquidationStatus.completed
          || ltb r.amount_kobo q.total_payable_kobo
        then b
        else complete_liquidation liquidation_id r b
  ]
]

-- `handleRepaymentApplied`
unfoldable pub handle_repayment_applied : ℕ → Books → Books
unfolding check_completion
handle_repayment_applied repayment_id b = elim (find repayment_id b.repayments) [
  | none ↦ b
  | some r ↦ check_completion r b
]
