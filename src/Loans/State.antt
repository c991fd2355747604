-- ===== src/Loans/State.antt =====
-- The documents of raising and disbursing loans: `Loan`, `MemberLoanAccount` with its schedule, and
-- `DisbursementVerification` (src/modules/loans/schemas). A date is a number of days, and a bank
-- account, a purpose, a note or a photo the number of its text.
use bckashbackend.Common.{ℕ, ◌≡◌, Bool, Option, none, List, [], ◌∷◌, ◌==◌, if◌then◌else◌, Result}
use bckashbackend.Common.Int.{ℤ}
use bckashbackend.Common.Store.{Store, find}
use bckashbackend.Branches.Funds.{Funds}
use bckashbackend.Lending.State.{LoanStatus, AccountStatus, Channel}

pub record Loan : Type 0 where
  pub group_id : ℕ
  pub product_id : ℕ
  pub branch_id : ℕ
  pub tenure_days : ℕ
  pub cumulative_amount_kobo : ℕ
  pub purpose : Option ℕ
  pub status : LoanStatus
  pub raised_by : ℕ
  pub raised_at : ℕ
  pub approved_at : Option ℕ
  pub disbursed_at : Option ℕ

pub record Row : Type 0 where
  pub installment_number : ℕ
  pub due_date : ℕ
  pub opening_balance : ℤ
  pub principal_portion : ℤ
  pub interest_portion : ℤ
  pub total_due : ℤ
  pub closing_balance : ℤ

pub record Member : Type 0 where
  pub loan_id : ℕ
  pub customer_id : ℕ
  pub principal_amount_kobo : ℕ
  pub disbursement_channel : Channel
  pub bank_account_details : Option ℕ
  pub schedule : List Row
  pub outstanding_balance_kobo : Option ℤ
  pub status : AccountStatus
  pub cheque_handed_over_at : Option ℕ

pub data VerificationStatus : Type 0 where
  pending passed failed escalated : VerificationStatus

abbrev verification_code : VerificationStatus → ℕ
verification_code VerificationStatus.pending = 0
verification_code VerificationStatus.passed = 1
verification_code VerificationStatus.failed = 2
verification_code VerificationStatus.escalated = 3

abbrev pub same_verification_status : VerificationStatus → VerificationStatus → Bool
same_verification_status s t = verification_code s == verification_code t

-- `===` on channels
abbrev channel_code : Channel → ℕ
channel_code Channel.transfer = 0
channel_code Channel.cheque_pickup = 1

abbrev pub same_channel : Channel → Channel → Bool
same_channel c d = channel_code c == channel_code d

pub record Verification : Type 0 where
  pub loan_id : ℕ
  pub account_id : ℕ
  pub customer_id : ℕ
  pub channel : Channel
  pub office_id : Option ℕ
  pub officer_id : Option ℕ
  pub bvn_passed : Bool
  pub face_passed : Bool
  pub status : VerificationStatus
  pub resolved_by : Option ℕ
  pub resolved_at : Option ℕ
  pub resolution_note : Option ℕ

pub data InterestType : Type 0 where
  flat reducing : InterestType

-- What the loan services read of a `LoanProduct`.
pub record Product : Type 0 where
  pub tenure_options : List ℕ
  pub min_group_size : ℕ
  pub repayment_period_days : ℕ
  pub interest_type : InterestType
  pub interest_rate : ℕ
  pub fee_ids : List ℕ

-- `LoanProductsService.findByIdOrThrow`
abbrev pub Products : Type 0
Products = ℕ → Result Product

-- What is handed to the ledger port after a disbursement: the account, its amount and the branch.
pub record DisbursementPosting : Type 0 where
  pub loan_id : ℕ
  pub account_id : ℕ
  pub amount_kobo : ℕ
  pub branch_id : ℕ

-- What is handed to the bank transfer port.
pub record Transfer : Type 0 where
  pub account_id : ℕ
  pub customer_id : ℕ
  pub amount_kobo : ℕ

-- The collections that the loan services share.
pub record Files : Type 0 where
  pub loans : Store Loan
  pub accounts : Store Member
  pub verifications : Store Verification
  pub funds : Funds
  pub postings : List DisbursementPosting
  pub transfers : List Transfer

abbrev pub Outcome : Type 0 → Type 0
Outcome A = Result A × Files

-- `find({ loanId })` on the accounts
unfoldable pub accounts_of : ℕ → Store Member → Store Member
accounts_of loan_id [] = []
accounts_of loan_id ((i, a) ∷ d) =
    let rest = accounts_of loan_id d in if a.loan_id == loan_id then (i, a) ∷ rest else rest

-- No two documents have one `_id`.
abbrev pub Distinct {ℓ} : {V : Type ℓ} → Store V → Type ℓ
Distinct [] = Unit
Distinct ((k, v) ∷ d) = (find k d ≡ none) × Distinct d
