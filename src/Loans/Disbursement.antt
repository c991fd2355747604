-- ===== src/Loans/Disbursement.antt =====
-- `LoanVerificationService.checkAndDisburse`, `disburse` and `confirmChequeHandover`
-- (src/modules/loans/loan-verification.service.ts).
pub mod Accounts
pub mod Committed
pub mod Once
pub mod Stale
pub mod Handover
pub mod Tests
use bckashbackend.Common.{
  ℕ, Bool, true, false, not, ◌&&◌, Option, none, some, is_some, List, [], ◌∷◌, ◌++◌, map, ◌==◌,
  if◌then◌else◌, any, every, length, Result, ok, err, not_found, bad_request, conflict, internal,
  ◌>>=◌, ◌>>◌, throw_if, or_throw,
}
use bckashbackend.Common.Int.{ℤ, pos, ◌+ℤ◌}
use bckashbackend.Common.Store.{Store, find, modify}
use bckashbackend.Branches.Funds.{Funds, debit}
use bckashbackend.Lending.State.{
  LoanStatus, AccountStatus, Channel, same_loan_status, same_account_status,
}
use bckashbackend.Calc.Reducing.{Floats}
use bckashbackend.Loans.State.{
  Loan, Member, Row, Product, Products, Verification, VerificationStatus, DisbursementPosting,
  Transfer, Files, Outcome, accounts_of, same_channel, same_verification_status,
}
use bckashbackend.Loans.Schedule.{schedule_of, total_interest, reanchor}

-- What is set on an account: its schedule, and the principal with the interest on it.
pub record Terms : Type 0 where
  pub schedule : List Row
  pub outstanding : ℤ

unfoldable pub terms_of : Floats → Product → Loan → (now : ℕ) → Member → Result Terms
terms_of fl p l now a = do
  schedule ← schedule_of fl p l.tenure_days a.principal_amount_kobo now
  ok (record {
    schedule = schedule;
    outstanding = pos a.principal_amount_kobo +ℤ total_interest schedule;
  })

abbrev pub set_terms : Terms → Member → Member
set_terms t m = record m {
  schedule = t.schedule;
  outstanding_balance_kobo = some t.outstanding;
  status = AccountStatus.active;
}

-- The loop over the accounts that were read. A calculator that throws aborts the transaction.
unfoldable pub activate :
    Floats → Product → Loan → (now : ℕ) → Store Member → Store Member → Result (Store Member)
activate fl p l now [] d = ok d
activate fl p l now ((id, a) ∷ rest) d =
    terms_of fl p l now a >>= λ t. activate fl p l now rest (modify id (set_terms t) d)

abbrev pub set_disbursed : ℕ → Loan → Loan
set_disbursed now l = record l { status = LoanStatus.disbursed; disbursed_at = some now }

-- The transaction: the guarded debit, the accounts, and the loan; a part that throws aborts it all.
unfoldable pub disbursement_transaction :
    Floats → Product → (loan_id : ℕ) → Loan → Store Member → (now : ℕ) → Files → Result Files
disbursement_transaction fl p loan_id l accounts now f =
    let (paid, funds) = debit l.branch_id l.cumulative_amount_kobo f.funds in
    do
      _ ← paid
      members ← activate fl p l now accounts f.accounts
      ok (record f {
        funds = funds;
        accounts = members;
        loans = modify loan_id (set_disbursed now) f.loans;
      })

abbrev posting_of : ℕ → Loan → ℕ × Member → DisbursementPosting
posting_of loan_id l (id, a) = record {
  loan_id = loan_id;
  account_id = id;
  amount_kobo = a.principal_amount_kobo;
  branch_id = l.branch_id;
}

-- Only a TRANSFER account is handed to the bank.
abbrev transfers_of : Store Member → List Transfer
transfers_of [] = []
transfers_of ((id, a) ∷ d) =
    let rest = transfers_of d in
    if same_channel a.disbursement_channel Channel.transfer
    then record {
      account_id = id;
      customer_id = a.customer_id;
      amount_kobo = a.principal_amount_kobo;
    }
      ∷ rest
    else rest

-- After the commit: a port that fails is logged, and changes nothing here.
unfoldable pub hand_over : ℕ → Loan → Store Member → Files → Files
hand_over loan_id l accounts f = record f {
  postings = f.postings ++ map (posting_of loan_id l) accounts;
  transfers = f.transfers ++ transfers_of accounts;
}

-- `disburse`, of the loan and the accounts that `checkAndDisburse` has read before.
unfoldable pub disburse :
    Floats → Products → (loan_id : ℕ) → Loan → Store Member → (now : ℕ) → Files → Outcome Loan
disburse fl products loan_id l accounts now f = elim (products l.product_id) [
  | err x ↦ (err x, f)
  | ok p ↦ elim (disbursement_transaction fl p loan_id l accounts now f) [
    | err x ↦ (err x, f)
    | ok f' ↦ elim (find loan_id f'.loans) [
      | none ↦ (err internal, f')
      | some final ↦ (ok final, hand_over loan_id l accounts f')
    ]
  ]
]

-- `passedAccountIds.has`
unfoldable pub has_passed : (loan_id account_id : ℕ) → Store Verification → Bool
has_passed loan_id account_id = any λ (e : ℕ × Verification).
    (e.1).loan_id == loan_id
    && same_verification_status (e.1).status VerificationStatus.passed
    && (e.1).account_id == account_id

unfoldable pub all_passed : (loan_id : ℕ) → Files → Bool
all_passed loan_id f = elim (accounts_of loan_id f.accounts) [
  | [] ↦ false
  | a ∷ rest ↦ every (λ (e : ℕ × Member). has_passed loan_id e.0 f.verifications) (a ∷ rest)
]

-- `checkAndDisburse`, with no other write between its reads and its transaction.
unfoldable pub check_and_disburse : Floats → Products → (loan_id now : ℕ) → Files → Outcome Loan
check_and_disburse fl products loan_id now f = elim (find loan_id f.loans) [
  | none ↦ (err not_found, f)
  | some l ↦
      if same_loan_status l.status LoanStatus.verification_in_progress
      then (if all_passed loan_id f
          then disburse fl products loan_id l (accounts_of loan_id f.accounts) now f
          else (ok l, f))
      else (ok l, f)
]

-- The schedule that a handover leaves: anchored at the handover, unless there is none.
unfoldable pub handover_schedule : Products → Member → (now : ℕ) → Files → Result (List Row)
handover_schedule products a now f = elim a.schedule [
  | [] ↦ ok []
  | r ∷ rs ↦ do
    l ← or_throw (find a.loan_id f.loans) not_found
    p ← products l.product_id
    ok (reanchor now (length (r ∷ rs)) p.repayment_period_days l.tenure_days (r ∷ rs))
]

unfoldable pub handover_check : Products → (account_id now : ℕ) → Files → Result Member
handover_check products account_id now f = do
  a ← or_throw (find account_id f.accounts) not_found
  throw_if (not (same_channel a.disbursement_channel Channel.cheque_pickup)) bad_request
  throw_if (not (same_account_status a.status AccountStatus.active)) conflict
  throw_if (is_some a.cheque_handed_over_at) conflict
  schedule ← handover_schedule products a now f
  ok (record a { cheque_handed_over_at = some now; schedule = schedule })

-- `save` writes the document that was read and changed.
unfoldable pub confirm_cheque_handover : Products → (account_id now : ℕ) → Files → Outcome Member
confirm_cheque_handover products account_id now f =
    elim (handover_check products account_id now f) [
      | err x ↦ (err x, f)
      | ok a ↦ (ok a, record f { accounts = modify account_id (λ _. a) f.accounts })
    ]
