-- ===== src/Loans/Verification.antt =====
-- `LoanVerificationService.initiateMemberVerification` and `resolveEscalation`
-- (src/modules/loans/loan-verification.service.ts).
use bckashbackend.Common.{
  ℕ, Bool, not, ◌&&◌, Option, none, some, [], ◌∷◌, ◌==◌, if◌then◌else◌, Result, ok, err, not_found,
  bad_request, conflict, ◌>>=◌, ◌>>◌, throw_if, or_throw,
}
use bckashbackend.Common.Store.{Store, find, modify}
use bckashbackend.Calc.Reducing.{Floats}
use bckashbackend.Lending.State.{LoanStatus, AccountStatus, same_loan_status, same_account_status}
use bckashbackend.Loans.State.{
  Loan, Member, Products, Verification, VerificationStatus, Files, Outcome,
  same_verification_status,
}
use bckashbackend.Loans.Decisions.{reject_loan}
use bckashbackend.Loans.Disbursement.{check_and_disburse}

-- What the customer service and the face comparison answer at one call: whether the live BVN check
-- passed, the biometric image on file, and whether the faces match.
pub record Checks : Type 0 where
  pub bvn_passes : Bool
  pub kyc_image : Result (Option ℕ)
  pub faces_match : ℕ → Result Bool

-- `findOne({ loanId, customerId })`
unfoldable pub find_member : (loan_id customer_id : ℕ) → Store Member → Option (ℕ × Member)
find_member loan_id customer_id [] = none
find_member loan_id customer_id ((i, a) ∷ d) =
    let rest = find_member loan_id customer_id d in
    if a.loan_id == loan_id && a.customer_id == customer_id then some (i, a) else rest

-- The guards, with the loan and the account that they find.
unfoldable pub verification_check : (loan_id customer_id : ℕ) → Files → Result (Loan × (ℕ × Member))
unfolding find_member
verification_check loan_id customer_id f = do
  l ← or_throw (find loan_id f.loans) not_found
  throw_if
      (not (same_loan_status l.status LoanStatus.approved)
        && not (same_loan_status l.status LoanStatus.verification_in_progress))
      conflict
  entry ← or_throw (find_member loan_id customer_id f.accounts) not_found
  throw_if (not (same_account_status (entry.1).status AccountStatus.pending)) conflict
  ok (l, entry)

-- `compareFaces` of the image on file
unfoldable pub face_check : Checks → Result Bool
face_check checks = do
  image ← checks.kyc_image
  key ← or_throw image bad_request
  checks.faces_match key

abbrev pub start_verification : (loan_id : ℕ) → Loan → Files → Files
start_verification loan_id l f =
    if same_loan_status l.status LoanStatus.approved
    then record f {
      loans =
          modify loan_id (λ (q : Loan). record q { status = LoanStatus.verification_in_progress })
            f.loans;
    }
    else f

-- `findOneAndUpdate({ loanId, memberLoanAccountId }, { $set }, { upsert: true })`; `id` is the `_id` of a
-- new document.
unfoldable pub upsert_verification :
    (id : ℕ) → Verification → Store Verification → Store Verification
upsert_verification id v [] = (id, v) ∷ []
upsert_verification id v ((i, w) ∷ d) =
    let rest = upsert_verification id v d in
    if w.loan_id == v.loan_id && w.account_id == v.account_id then (i, v) ∷ d else (i, w) ∷ rest

abbrev overall : (bvn face : Bool) → VerificationStatus
overall bvn face = if bvn && face then VerificationStatus.passed else VerificationStatus.escalated

abbrev new_verification :
    (loan_id customer_id : ℕ) (office officer : Option ℕ) (bvn face : Bool)
    → ℕ × Member
    → Verification
new_verification loan_id customer_id office officer bvn face (account_id, a) = record {
  loan_id = loan_id;
  account_id = account_id;
  customer_id = customer_id;
  channel = a.disbursement_channel;
  office_id = office;
  officer_id = officer;
  bvn_passed = bvn;
  face_passed = face;
  status = overall bvn face;
  resolved_by = none;
  resolved_at = none;
  resolution_note = none;
}

-- `tryCheckAndDisburse`: a failure is logged only.
unfoldable pub try_check_and_disburse : Floats → Products → (loan_id now : ℕ) → Files → Files
unfolding check_and_disburse
try_check_and_disburse fl products loan_id now f = (check_and_disburse fl products loan_id now f).1

-- `initiateMemberVerification`. The loan is in verification before the checks are made, and stays so
-- where one of them throws.
unfoldable pub initiate_member_verification :
    Floats
    → Products
    → Checks
    → (id loan_id customer_id now : ℕ) (office officer : Option ℕ) → Files
    → Outcome Verification
unfolding verification_check face_check upsert_verification try_check_and_disburse
initiate_member_verification fl products checks id loan_id customer_id now office officer f =
    elim (verification_check loan_id customer_id f) [
      | err x ↦ (err x, f)
      | ok (l, entry) ↦
          let started = start_verification loan_id l f in
          elim (face_check checks) [
            | err x ↦ (err x, started)
            | ok face ↦
                let v =
                  new_verification loan_id customer_id office officer checks.bvn_passes face
                    entry in
                let recorded : Files = record started {
                  verifications = upsert_verification id v started.verifications;
                } in
                (
                  ok v,
                  if checks.bvn_passes && face
                      then try_check_and_disburse fl products loan_id now recorded
                      else recorded,
                )
          ]
    ]

pub data Override : Type 0 where
  override_pass reject_the_loan : Override

abbrev resolve : (actor note now : ℕ) → Verification → Verification
resolve actor note now v = record v {
  resolved_by = some actor;
  resolved_at = some now;
  resolution_note = some note;
}

abbrev pass_over : (actor note now : ℕ) → Verification → Verification
pass_over actor note now v = record (resolve actor note now v) {
  status = VerificationStatus.passed;
}

unfoldable pub escalation_check :
    (verification_id : ℕ) (note : Option ℕ) → Files → Result (ℕ × Verification)
escalation_check verification_id note f = do
  text ← or_throw note bad_request
  v ← or_throw (find verification_id f.verifications) not_found
  throw_if (not (same_verification_status v.status VerificationStatus.escalated)) conflict
  ok (text, v)

-- `resolveEscalation`. A blank note is no note.
unfoldable pub resolve_escalation :
    Floats
    → Products
    → (verification_id actor now : ℕ) → Override
    → (note : Option ℕ) → Files
    → Outcome Verification
unfolding escalation_check try_check_and_disburse reject_loan
resolve_escalation fl products verification_id actor now resolution note f =
    elim (escalation_check verification_id note f) [
      | err x ↦ (err x, f)
      | ok (text, v) ↦ elim resolution [
        | reject_the_loan ↦
            let (rejected, after) = reject_loan v.loan_id f in
            elim rejected [
              | err x ↦ (err x, after)
              | ok _ ↦ (
                ok (resolve actor text now v),
                record after {
                  verifications =
                      modify verification_id (resolve actor text now) after.verifications;
                },
              )
            ]
        | override_pass ↦ (
          ok (pass_over actor text now v),
          try_check_and_disburse fl products v.loan_id now (record f {
            verifications = modify verification_id (pass_over actor text now) f.verifications;
          }),
        )
      ]
    ]
