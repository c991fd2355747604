-- ===== src/Lending/State.antt =====
-- The documents of lending: loans, member loan accounts, repayment records, early liquidation
-- requests and penalty charges (src/modules/loans/schemas, src/modules/repayments/schemas;
-- src/common/enums/loan.enums.ts, repayment.enums.ts). Identifiers, references and notes are only
-- compared or stored, so they are numbers; amounts are kobo, and dates days or milliseconds.
use bckashbackend.Common.{ℕ, Bool, Option, List, ◌==◌, or_else}
use bckashbackend.Common.Store.{Store}

pub data LoanStatus : Type 0 where
  pending_approval approved verification_in_progress verification_failed disbursed rejected closed :
      LoanStatus

pub data AccountStatus : Type 0 where
  pending active closed defaulted : AccountStatus

pub data Channel : Type 0 where
  transfer cheque_pickup : Channel

pub data RepaymentStatus : Type 0 where
  pending approved under_dispute rejected : RepaymentStatus

pub data LiquidationStatus : Type 0 where
  pending_approval approved rejected completed : LiquidationStatus

-- `===` on statuses
abbrev loan_code : LoanStatus → ℕ
loan_code LoanStatus.pending_approval = 0
loan_code LoanStatus.approved = 1
loan_code LoanStatus.verification_in_progress = 2
loan_code LoanStatus.verification_failed = 3
loan_code LoanStatus.disbursed = 4
loan_code LoanStatus.rejected = 5
loan_code LoanStatus.closed = 6

abbrev account_code : AccountStatus → ℕ
account_code AccountStatus.pending = 0
account_code AccountStatus.active = 1
account_code AccountStatus.closed = 2
account_code AccountStatus.defaulted = 3

abbrev repayment_code : RepaymentStatus → ℕ
repayment_code RepaymentStatus.pending = 0
repayment_code RepaymentStatus.approved = 1
repayment_code RepaymentStatus.under_dispute = 2
repayment_code RepaymentStatus.rejected = 3

abbrev liquidation_code : LiquidationStatus → ℕ
liquidation_code LiquidationStatus.pending_approval = 0
liquidation_code LiquidationStatus.approved = 1
liquidation_code LiquidationStatus.rejected = 2
liquidation_code LiquidationStatus.completed = 3

abbrev pub same_loan_status : LoanStatus → LoanStatus → Bool
same_loan_status s t = loan_code s == loan_code t

abbrev pub same_account_status : AccountStatus → AccountStatus → Bool
same_account_status s t = account_code s == account_code t

abbrev pub same_repayment_status : RepaymentStatus → RepaymentStatus → Bool
same_repayment_status s t = repayment_code s == repayment_code t

abbrev pub same_liquidation_status : LiquidationStatus → LiquidationStatus → Bool
same_liquidation_status s t = liquidation_code s == liquidation_code t

pub record Loan : Type 0 where
  pub branch_id : ℕ
  pub product_id : ℕ
  pub tenure_days : ℕ
  pub cumulative_amount_kobo : ℕ
  pub status : LoanStatus
  pub raised_by : ℕ

pub record ScheduleEntry : Type 0 where
  pub installment_number : ℕ
  pub due_date : ℕ
  pub total_due : ℕ

pub record Account : Type 0 where
  pub loan_id : ℕ
  pub customer_id : ℕ
  pub principal_amount_kobo : ℕ
  pub disbursement_channel : Channel
  pub schedule : List ScheduleEntry
  pub outstanding_balance_kobo : Option ℕ
  pub status : AccountStatus

-- `outstandingBalanceKobo ?? 0`
abbrev pub balance_kobo : Account → ℕ
balance_kobo a = or_else a.outstanding_balance_kobo 0

pub data Resolution : Type 0 where
  approved rejected : Resolution

pub record Dispute : Type 0 where
  pub raised_by : ℕ
  pub reason : ℕ
  pub raised_at : ℕ
  pub resolution : Option Resolution
  pub resolved_by : Option ℕ
  pub note : Option ℕ

pub record Repayment : Type 0 where
  pub loan_id : ℕ
  pub account_id : ℕ
  pub branch_id : ℕ
  pub branch_bank_account_id : ℕ
  pub transaction_reference : ℕ
  pub amount_kobo : ℕ
  pub recorded_by : ℕ
  pub status : RepaymentStatus
  pub applied_to_balance : Bool
  pub overpayment_amount_kobo : Option ℕ
  pub dispute_details : Option Dispute
  pub linked_liquidation_request_id : Option ℕ

pub record Liquidation : Type 0 where
  pub account_id : ℕ
  pub outstanding_balance_at_request_kobo : ℕ
  pub liquidation_fee_kobo : ℕ
  pub total_payable_kobo : ℕ
  pub status : LiquidationStatus
  pub requested_by : ℕ
  pub approved_at : Option ℕ
  pub linked_repayment_record_id : Option ℕ

pub record PenaltyCharge : Type 0 where
  pub account_id : ℕ
  pub installment_number : ℕ
  pub period_index : ℕ
  pub overdue_amount_kobo : ℕ
  pub days_late : ℕ
  pub penalty_amount_kobo : ℕ

pub record DelayCharge : Type 0 where
  pub liquidation_id : ℕ
  pub period_index : ℕ
  pub charge_amount_kobo : ℕ

-- What the services hand to the ledger port: a repayment by its id, a penalty by the account, the
-- installment and the period of its charge, a delay charge by its liquidation and period; then the
-- amount and the branch.
pub data Posting : Type 0 where
  repayment_posting : ℕ → ℕ → ℕ → Posting
  penalty_posting : ℕ → ℕ → ℕ → ℕ → ℕ → Posting
  delay_posting : ℕ → ℕ → ℕ → ℕ → Posting

-- The collections that the lending services share, and the postings handed over so far.
pub record Books : Type 0 where
  pub loans : Store Loan
  pub accounts : Store Account
  pub repayments : Store Repayment
  pub liquidations : Store Liquidation
  pub penalties : List PenaltyCharge
  pub delay_charges : List DelayCharge
  pub bank_accounts : List ℕ
  pub postings : List Posting
