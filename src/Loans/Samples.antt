-- ===== src/Loans/Samples.antt =====
-- A weekly flat loan of one member, verified and funded, for the runs of the loan services
-- (src/modules/loans).
use bckashbackend.Common.{refl, true, none, some, [], ◌∷◌, ok}
use bckashbackend.Common.Int.{ℤ, ◌+ℤ◌}
use bckashbackend.Calc.Reducing.{Floats}
use bckashbackend.Lending.State.{LoanStatus, AccountStatus, Channel}
use bckashbackend.Loans.State.{
  Loan, Member, Product, Products, InterestType, Verification, VerificationStatus, Files, Distinct,
}

-- Integers for the floats, which a flat product does not use.
abbrev pub floats : Floats
floats = record {
  F = ℤ;
  of_ℤ = λ n. n;
  fadd = λ a b. a +ℤ b;
  fsub = λ a b. a;
  fmul = λ a b. a;
  fdiv = λ a b. a;
  fpow = λ a b. a;
  is_zero = λ a. true;
  round = λ a. a;
}

abbrev pub weekly : Product
weekly = record {
  tenure_options = 30 ∷ 60 ∷ [];
  min_group_size = 1;
  repayment_period_days = 7;
  interest_type = InterestType.flat;
  interest_rate = 1000;
  fee_ids = [];
}

abbrev pub products : Products
products id = ok weekly

abbrev pub loan : Loan
loan = record {
  group_id = 1;
  product_id = 1;
  branch_id = 3;
  tenure_days = 30;
  cumulative_amount_kobo = 1000;
  purpose = none;
  status = LoanStatus.verification_in_progress;
  raised_by = 9;
  raised_at = 0;
  approved_at = some 1;
  disbursed_at = none;
}

abbrev pub member : Member
member = record {
  loan_id = 5;
  customer_id = 7;
  principal_amount_kobo = 1000;
  disbursement_channel = Channel.cheque_pickup;
  bank_account_details = none;
  schedule = [];
  outstanding_balance_kobo = none;
  status = AccountStatus.pending;
  cheque_handed_over_at = none;
}

abbrev pub verification : Verification
verification = record {
  loan_id = 5;
  account_id = 6;
  customer_id = 7;
  channel = Channel.cheque_pickup;
  office_id = none;
  officer_id = none;
  bvn_passed = true;
  face_passed = true;
  status = VerificationStatus.passed;
  resolved_by = none;
  resolved_at = none;
  resolution_note = none;
}

abbrev pub files : Files
files = record {
  loans = (5, loan) ∷ [];
  accounts = (6, member) ∷ [];
  verifications = (8, verification) ∷ [];
  funds = (3, 2500) ∷ [];
  postings = [];
  transfers = [];
}

abbrev pub files-Distinct : Distinct files.accounts
files-Distinct = (refl, tt)
