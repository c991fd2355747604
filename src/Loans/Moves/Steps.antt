-- ===== src/Loans/Moves/Steps.antt =====
-- The calls that keep every loan (src/modules/loans/loans.service.ts, loan-verification.service.ts): how they move
-- its status.
use bckashbackend.Common.{
  ℕ, ◌≡◌, inl, inr, refl, sym, subst, ap, ◌∙◌, ok-injective, true, Option, some, [], ◌&&◌, or_else,
  Result, ok, err, Result-cases, if_keeps, Option_keeps, Result_keeps, arith,
}
use mathlib.Core.Option.{some-injective}
use bckashbackend.Common.Store.{Store, find, modify}
use bckashbackend.Branches.Funds.{debit}
use bckashbackend.Calc.Reducing.{Floats}
use bckashbackend.Lending.State.{LoanStatus, same_loan_status}
use bckashbackend.Loans.State.{Loan, Member, Product, Products, Files, accounts_of}
use bckashbackend.Loans.Disbursement.{
  disburse, activate, disbursement_transaction, check_and_disburse, all_passed, set_disbursed,
  hand_over, confirm_cheque_handover, handover_check,
}
use bckashbackend.Loans.Decisions.{reject_loan}
use bckashbackend.Loans.Verification.{
  Checks, Override, override_pass, reject_the_loan, initiate_member_verification,
  resolve_escalation, try_check_and_disburse, start_verification, verification_check,
  escalation_check, face_check,
}
use bckashbackend.Loans.Pending.{Changes, update_pending_application, update_check, apply_requests}
use bckashbackend.Loans.Moves.{
  Moves, stays, starts, disburses, Keeps, Keeps-refl, Keeps-trans, modify-Keeps,
  same_loan_status-eq, reject_loan-Keeps,
}

abbrev pub KeepsAfter : {A : Type 0} → Files → Result A × Files → Type 0
KeepsAfter f out = Keeps f.loans (out.1).loans

-- A write to a loan that was found in a status.
from_status :
    (loan_id : ℕ) (g : Loan → Loan) (s t : LoanStatus) (d : Store Loan) (l : Loan)
    → find loan_id d ≡ some l
    → same_loan_status l.status s ≡ true
    → ((v : Loan) → (g v).status ≡ t)
    → Moves s t
    → Keeps d (modify loan_id g d)
from_status loan_id g s t d l found in_s gives m = modify-Keeps loan_id g d λ v there.
    let l_is_v = some-injective l v (sym found ∙ there) in
    subst (λ r. Moves r (g v).status)
      (sym (same_loan_status-eq l.status s in_s) ∙ ap (λ (x : Loan). x.status) l_is_v)
      (subst (λ r. Moves s r) (sym (gives v)) m)

module _ (fl : Floats) (products : Products) (loan_id now : ℕ) where
  transaction_loans :
      (p : Product) (l : Loan) (accounts : Store Member) (f f' : Files)
      → disbursement_transaction fl p loan_id l accounts now f ≡ ok f'
      → f'.loans ≡ modify loan_id (set_disbursed now) f.loans
  unfolding disbursement_transaction
  transaction_loans p l accounts f f' e =
      elim (Result-cases (debit l.branch_id l.cumulative_amount_kobo f.funds).0) [
        | inl (x, short) ↦ let no : err x ≡ ok f' = rw short at e in cc
        | inr (n, paid) ↦ elim (Result-cases (activate fl p l now accounts f.accounts)) [
          | inl (x, failed) ↦ let no : err x ≡ ok f' = rw failed at (rw paid at e) in cc
          | inr (members, set) ↦
              sym (ap (λ (g : Files). g.loans) (ok-injective (rw set at (rw paid at e))))
        ]
      ]

  disburse-Keeps :
      (l : Loan) (accounts : Store Member) (f : Files)
      → find loan_id f.loans ≡ some l
      → same_loan_status l.status LoanStatus.verification_in_progress ≡ true
      → KeepsAfter f (disburse fl products loan_id l accounts now f)
  unfolding disburse hand_over
  disburse-Keeps l accounts f found verifying =
      Result_keeps (KeepsAfter f) (products l.product_id) (λ x _. Keeps-refl f.loans)
        λ p _.
          Result_keeps (KeepsAfter f) (disbursement_transaction fl p loan_id l accounts now f)
            (λ x _. Keeps-refl f.loans)
            λ f' committed.
              let moved =
                from_status loan_id (set_disbursed now) LoanStatus.verification_in_progress
                  LoanStatus.disbursed f.loans l found verifying (λ _. refl) disburses in
              let moved' : Keeps f.loans f'.loans =
                rw (transaction_loans p l accounts f f' committed) moved in
              Option_keeps (KeepsAfter f) (find loan_id f'.loans) (λ _. moved') λ final _. moved'

  pub check_and_disburse-Keeps :
      (f : Files) → KeepsAfter f (check_and_disburse fl products loan_id now f)
  unfolding check_and_disburse
  check_and_disburse-Keeps f =
      Option_keeps (KeepsAfter f) (find loan_id f.loans) (λ _. Keeps-refl f.loans)
        λ l found.
          if_keeps (KeepsAfter f) (same_loan_status l.status LoanStatus.verification_in_progress)
            (λ verifying.
              if_keeps (KeepsAfter f) (all_passed loan_id f)
                (λ _. disburse-Keeps l (accounts_of loan_id f.accounts) f found verifying)
                (λ _. Keeps-refl f.loans))
            (λ _. Keeps-refl f.loans)

module _ (fl : Floats) (products : Products) where
  start_verification-Keeps :
      (loan_id : ℕ) (l : Loan) (f : Files)
      → find loan_id f.loans ≡ some l
      → Keeps f.loans (start_verification loan_id l f).loans
  start_verification-Keeps loan_id l f found =
      if_keeps (λ (g : Files). Keeps f.loans g.loans)
        (same_loan_status l.status LoanStatus.approved)
        (λ approved.
          from_status loan_id _ LoanStatus.approved LoanStatus.verification_in_progress f.loans l
            found approved (λ _. refl) starts)
        (λ _. Keeps-refl f.loans)

  verification_check-found :
      (loan_id customer_id : ℕ) (f : Files) (l : Loan) (entry : ℕ × Member)
      → verification_check loan_id customer_id f ≡ ok (l, entry)
      → find loan_id f.loans ≡ some l
  unfolding verification_check
  verification_check-found loan_id customer_id f l entry e = ground arith

  pub initiate_member_verification-Keeps :
      (checks : Checks) (id loan_id customer_id now : ℕ) (office officer : Option ℕ) (f : Files)
      → KeepsAfter f (
          initiate_member_verification fl products checks id loan_id customer_id now office officer
            f)
  unfolding initiate_member_verification try_check_and_disburse
  initiate_member_verification-Keeps checks id loan_id customer_id now office officer f =
      Result_keeps (KeepsAfter f) (verification_check loan_id customer_id f)
        (λ x _. Keeps-refl f.loans)
        λ (l, entry) found.
          let start =
            start_verification-Keeps loan_id l f
              (verification_check-found loan_id customer_id f l entry found) in
          Result_keeps (KeepsAfter f) (face_check checks) (λ x _. start)
            λ face _.
              if_keeps (λ (g : Files). Keeps f.loans g.loans) (checks.bvn_passes && face)
                (λ _.
                  Keeps-trans f.loans (start_verification loan_id l f).loans _ start
                    (check_and_disburse-Keeps fl products loan_id now _))
                (λ _. start)

  pub resolve_escalation-Keeps :
      (verification_id actor now : ℕ) (resolution : Override) (note : Option ℕ) (f : Files)
      → KeepsAfter f (resolve_escalation fl products verification_id actor now resolution note f)
  unfolding resolve_escalation try_check_and_disburse
  resolve_escalation-Keeps verification_id actor now override_pass note f =
      Result_keeps (KeepsAfter f) (escalation_check verification_id note f)
        (λ x _. Keeps-refl f.loans)
        λ (text, v) _. check_and_disburse-Keeps fl products v.loan_id now _
  resolve_escalation-Keeps verification_id actor now reject_the_loan note f =
      Result_keeps (KeepsAfter f) (escalation_check verification_id note f)
        (λ x _. Keeps-refl f.loans)
        λ (text, v) _.
          let kept = reject_loan-Keeps v.loan_id f in
          Result_keeps (KeepsAfter f) (reject_loan v.loan_id f).0 (λ x _. kept) λ l _. kept

module _ (products : Products) where
  pub confirm_cheque_handover-Keeps :
      (account_id now : ℕ) (f : Files)
      → KeepsAfter f (confirm_cheque_handover products account_id now f)
  unfolding confirm_cheque_handover
  confirm_cheque_handover-Keeps account_id now f =
      Result_keeps (KeepsAfter f) (handover_check products account_id now f)
        (λ x _. Keeps-refl f.loans) λ a _. Keeps-refl f.loans

  update_check-found :
      (loan_id actor : ℕ) (c : Changes) (f : Files) (l : Loan) (tenure : ℕ)
      → update_check products loan_id actor c f ≡ ok (l, tenure)
      → find loan_id f.loans ≡ some l
  unfolding update_check
  update_check-found loan_id actor c f l tenure e = ground arith

  pub update_pending_application-Keeps :
      (loan_id actor : ℕ) (c : Changes) (f : Files)
      → KeepsAfter f (update_pending_application products loan_id actor c f)
  unfolding update_pending_application
  update_pending_application-Keeps loan_id actor c f =
      Result_keeps (KeepsAfter f) (update_check products loan_id actor c f)
        (λ x _. Keeps-refl f.loans)
        λ (l, tenure) checked.
          let found = update_check-found loan_id actor c f l tenure checked in
          Result_keeps (KeepsAfter f)
            (apply_requests (accounts_of loan_id f.accounts) (or_else c.member_requests [])
              f.accounts).0
            (λ x _. Keeps-refl f.loans)
            λ _ _. modify-Keeps loan_id _ f.loans λ v there.
              subst (λ (w : Loan). Moves w.status l.status) (some-injective l v (sym found ∙ there))
                stays
