-- ===== src/Loans/Reach.antt =====
-- Every call that writes a loan (src/modules/loans/loans.service.ts, loan-verification.service.ts), and how it
-- moves their statuses.
use bckashbackend.Common.{
  ℕ, ◌≡◌, ◌⊎◌, inl, inr, refl, sym, subst, ◌∙◌, Option, none, some, [], ◌∷◌, ◌==◌, Result,
  Bool-cases, Result-cases, Option_keeps, Result_keeps, ==→≡, arith,
}
use bckashbackend.Common.Store.{Store, find, erase}
use bckashbackend.Workflow.Types.{EventBase}
use bckashbackend.Workflow.Engine.{Engine}
use bckashbackend.Calc.Reducing.{Floats}
use bckashbackend.Loans.State.{Loan, Member, Products, Files, Distinct}
use bckashbackend.Loans.Completion.{sync_loan_status}
use bckashbackend.Loans.Disbursement.{check_and_disburse, confirm_cheque_handover}
use bckashbackend.Loans.Decisions.{handle_workflow_approved, handle_workflow_rejected}
use bckashbackend.Loans.Verification.{
  Checks, Override, initiate_member_verification, resolve_escalation,
}
use bckashbackend.Loans.Pending.{
  Changes, update_pending_application, delete_loan, delete_check, active_request,
}
use bckashbackend.Workflow.Maker.{cancel}
use bckashbackend.Loans.Consent.{verify_challenge}
use bckashbackend.Loans.Applications.{
  Services, Ids, RaiseInput, Desk, raise_application, create_loan, application_check, new_loan,
}
use bckashbackend.Loans.Moves.Steps.{
  check_and_disburse-Keeps, initiate_member_verification-Keeps, resolve_escalation-Keeps,
  confirm_cheque_handover-Keeps, update_pending_application-Keeps,
}
use bckashbackend.Loans.Moves.{
  sync_loan_status-Keeps, Moves, stays, Follows, Keeps, Keeps-refl, Keeps-Follows,
  handle_workflow_rejected-Keeps, handle_workflow_approved-Keeps,
}

-- One call, by anybody and with any arguments, and the files after it, whether it throws or not. New
-- documents get new ids, and the ids of loans are distinct.
pub data Call (f : Files) : Files → Type 1 where
  raise_call :
      (s : Services) (ids : Ids) (input : RaiseInput) (now : ℕ) (d : Desk)
      → d.files ≡ f
      → find ids.loan f.loans ≡ none
      → Call f (raise_application s ids input now d).1.files
  approved_call : (e : EventBase) (now : ℕ) → Call f (handle_workflow_approved e now f)
  rejected_call : (e : EventBase) → Call f (handle_workflow_rejected e f)
  update_call :
      (products : Products) (loan_id actor : ℕ) (c : Changes)
      → Call f (update_pending_application products loan_id actor c f).1
  delete_call :
      (loan_id actor : ℕ) (e : Engine) → Distinct f.loans → Call f (delete_loan loan_id actor f e).1
  verify_call :
      (fl : Floats) (products : Products) (checks : Checks) (id loan_id customer_id now : ℕ)
      (office officer : Option ℕ)
      → Call f
          (initiate_member_verification fl products checks id loan_id customer_id now office officer
            f).1
  resolve_call :
      (fl : Floats) (products : Products) (verification_id actor now : ℕ) (resolution : Override)
      (note : Option ℕ)
      → Call f (resolve_escalation fl products verification_id actor now resolution note f).1
  disburse_call :
      (fl : Floats) (products : Products) (loan_id now : ℕ)
      → Call f (check_and_disburse fl products loan_id now f).1
  handover_call :
      (products : Products) (account_id now : ℕ)
      → Call f (confirm_cheque_handover products account_id now f).1
  -- After repayments, liquidations and reversals have left the accounts in any state.
  sync_call :
      (loan_id : ℕ) (accounts : Store Member)
      → Call f (sync_loan_status loan_id (record f { accounts = accounts }))

raise_application-loans :
    (s : Services) (ids : Ids) (input : RaiseInput) (now : ℕ) (d : Desk)
    → (let after = (raise_application s ids input now d).1.files.loans in
        (after ≡ d.files.loans) ⊎ ((l : Loan) × (after ≡ (ids.loan, l) ∷ d.files.loans)))
unfolding raise_application create_loan
raise_application-loans s ids input now d =
    let v =
      verify_challenge s.hash input.consent_challenge_id input.consent_code now d.challenges in
    let d' : Desk = record d { challenges = v.1 } in
    elim (Result-cases v.0) [
      | inl (x, refused) ↦ rw (refused, raise_application) (inl refl)
      | inr (consented, agreed) ↦ elim (Result-cases (application_check s consented input d')) [
        | inl (x, failed) ↦ rw (agreed, raise_application) (rw failed (inl refl))
        | inr (t, passed) ↦
            rw (agreed, raise_application) (rw passed (inr (new_loan input t.0 now, refl)))
      ]
    ]

raise_application-Keeps :
    (s : Services) (ids : Ids) (input : RaiseInput) (now : ℕ) (d : Desk)
    → find ids.loan d.files.loans ≡ none
    → Keeps d.files.loans (raise_application s ids input now d).1.files.loans
raise_application-Keeps s ids input now d fresh id l there =
    elim (raise_application-loans s ids input now d) [
      | inl same ↦ (l, rw same there, stays)
      | inr (q, added) ↦ elim (Bool-cases (id == ids.loan)) [
        | inl same ↦ let no : some l ≡ none = sym there ∙ rw (==→≡ id ids.loan same) fresh in cc
        | inr other ↦ (l, rw added (rw other there), stays)
      ]
    ]

erase-none : (k id : ℕ) (d : Store Loan) → find id d ≡ none → find id (erase k d) ≡ none
erase-none k id [] h = refl
erase-none k id ((j, v) ∷ d) h = ground (arith, erase-none k id d)

-- A deletion, where ids are distinct.
erase-Follows : (k : ℕ) (d : Store Loan) → Distinct d → Follows d (erase k d)
erase-Follows k [] u id l there = inl refl
erase-Follows k ((j, v) ∷ d) u id l there = elim (Bool-cases (k == j)) [
  | inl gone ↦ elim (Bool-cases (id == j)) [
    | inl same ↦ rw gone (inl (rw (==→≡ id j same) u.0))
    | inr other ↦ rw gone (inr (l, rw other at there, stays))
  ]
  | inr kept ↦ elim (Bool-cases (id == j)) [
    | inl same ↦ rw kept (rw same (inr (l, rw same at there, stays)))
    | inr other ↦ rw kept (rw other (erase-Follows k d u.1 id l (rw other at there)))
  ]
]

delete_loan-Follows :
    (loan_id actor : ℕ) (f : Files) (e : Engine)
    → Distinct f.loans
    → Follows f.loans ((delete_loan loan_id actor f e).1).loans
unfolding delete_loan
delete_loan-Follows loan_id actor f e u =
    let still = Keeps-Follows f.loans f.loans (Keeps-refl f.loans) in
    let gone = erase-Follows loan_id f.loans u in
    let P = λ (out : Result (Unit {0}) × Files × Engine). Follows f.loans (out.1).loans in
    Result_keeps P (delete_check loan_id actor f) (λ x _. still)
      λ _ _.
        Option_keeps P (active_request loan_id e.requests) (λ _. gone)
          λ request _. Result_keeps P (cancel request actor e).0 (λ x _. still) λ r _. gone

Call-Follows : {f f' : Files} → Call f f' → Follows f.loans f'.loans
Call-Follows {f} (raise_call s ids input now d same fresh) =
    subst (λ (g : Files). Follows g.loans (raise_application s ids input now d).1.files.loans) same
      (Keeps-Follows d.files.loans _ (raise_application-Keeps s ids input now d (rw same fresh)))
Call-Follows {f} (approved_call e now) =
    Keeps-Follows f.loans _ (handle_workflow_approved-Keeps e now f)
Call-Follows {f} (rejected_call e) = Keeps-Follows f.loans _ (handle_workflow_rejected-Keeps e f)
Call-Follows {f} (update_call products loan_id actor c) =
    Keeps-Follows f.loans _ (update_pending_application-Keeps products loan_id actor c f)
Call-Follows {f} (delete_call loan_id actor e u) = delete_loan-Follows loan_id actor f e u
Call-Follows {f} (verify_call fl products checks id loan_id customer_id now office officer) =
    Keeps-Follows f.loans _ (
      initiate_member_verification-Keeps fl products checks id loan_id customer_id now office
        officer f)
Call-Follows {f} (resolve_call fl products verification_id actor now resolution note) =
    Keeps-Follows f.loans _
      (resolve_escalation-Keeps fl products verification_id actor now resolution note f)
Call-Follows {f} (disburse_call fl products loan_id now) =
    Keeps-Follows f.loans _ (check_and_disburse-Keeps fl products loan_id now f)
Call-Follows {f} (handover_call products account_id now) =
    Keeps-Follows f.loans _ (confirm_cheque_handover-Keeps products account_id now f)
Call-Follows {f} (sync_call loan_id accounts) =
    Keeps-Follows f.loans _ (sync_loan_status-Keeps loan_id (record f { accounts = accounts }))

-- Whatever call writes a loan, by anybody and with any arguments, a loan that was there is gone or its
-- status has moved along the arrows: from PENDING_APPROVAL to APPROVED, on to VERIFICATION_IN_PROGRESS and
-- on to DISBURSED, between DISBURSED and CLOSED, and from any to REJECTED. New loans have new ids, and where
-- one is deleted ids are distinct.
pub Call-Moves :
    {f f' : Files} (id : ℕ) (l : Loan)
    → Call f f'
    → find id f.loans ≡ some l
    → (find id f'.loans ≡ none)
      ⊎ ((l' : Loan) × (find id f'.loans ≡ some l') × Moves l.status l'.status)
Call-Moves id l call there = Call-Follows call id l there
