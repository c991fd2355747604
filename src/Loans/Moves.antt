-- ===== src/Loans/Moves.antt =====
-- How the status of a loan moves under each call (src/modules/loans/loans.service.ts,
-- loan-verification.service.ts).
pub mod Steps
use bckashbackend.Common.{
  Bool, ℕ, ◌≡◌, ◌≢◌, ◌⊎◌, inl, inr, refl, sym, subst, ap, ◌∙◌, true, false, Option, none, some,
  List, [], ◌∷◌, ◌==◌, Result, ok, err, Failure, Bool-cases, Option-cases, Result-cases,
  ok-injective, if_keeps, Option_keeps, Result_keeps, ==→≡, ==→≢, arith,
}
use mathlib.Core.Option.{some-injective}
use bckashbackend.Common.Store.{
  Store, find, modify, erase, update_if, find-modify_self, find-modify_ne, update_if-some,
}
use bckashbackend.Workflow.Types.{EventBase}
use bckashbackend.Calc.Reducing.{Floats}
use bckashbackend.Lending.State.{LoanStatus, same_loan_status}
use bckashbackend.Lending.Completion.{completion_status}
use bckashbackend.Loans.Completion.{sync_loan_status}
use bckashbackend.Loans.State.{Loan, Product, Products, Files, accounts_of}
use bckashbackend.Loans.Decisions.{
  loan_event, reject_loan, handle_workflow_approved, handle_workflow_rejected,
}

-- The arrows between statuses, and any number of them one after another.
pub data Moves : LoanStatus → LoanStatus → Type 0 where
  stays : {s : LoanStatus} → Moves s s
  approves : Moves LoanStatus.pending_approval LoanStatus.approved
  starts : Moves LoanStatus.approved LoanStatus.verification_in_progress
  disburses : Moves LoanStatus.verification_in_progress LoanStatus.disbursed
  closes : Moves LoanStatus.disbursed LoanStatus.closed
  reopens : Moves LoanStatus.closed LoanStatus.disbursed
  rejects : {s : LoanStatus} → Moves s LoanStatus.rejected
  moves_on : {r s t : LoanStatus} → Moves r s → Moves s t → Moves r t

-- A loan that was there is gone, or its status has moved along the arrows.
abbrev pub Follows : Store Loan → Store Loan → Type 0
Follows d d' =
    (id : ℕ) (l : Loan)
    → find id d ≡ some l
    → (find id d' ≡ none) ⊎ ((l' : Loan) × (find id d' ≡ some l') × Moves l.status l'.status)

pub Follows-refl : (d : Store Loan) → Follows d d
Follows-refl d id l there = inr (l, there, stays)

-- Where nothing is deleted.
abbrev pub Keeps : Store Loan → Store Loan → Type 0
Keeps d d' =
    (id : ℕ) (l : Loan)
    → find id d ≡ some l
    → (l' : Loan) × (find id d' ≡ some l') × Moves l.status l'.status

pub Keeps-refl : (d : Store Loan) → Keeps d d
Keeps-refl d id l there = (l, there, stays)

pub Keeps-trans : (d d' d'' : Store Loan) → Keeps d d' → Keeps d' d'' → Keeps d d''
Keeps-trans d d' d'' first second id l there =
    let (l', there', m) = first id l there in
    let (l'', there'', m') = second id l' there' in (l'', there'', moves_on m m')

pub Keeps-Follows : (d d' : Store Loan) → Keeps d d' → Follows d d'
Keeps-Follows d d' keeps id l there = inr (keeps id l there)

-- A write moves the loan that it finds.
pub modify-Keeps :
    (k : ℕ) (g : Loan → Loan) (d : Store Loan)
    → ((v : Loan) → find k d ≡ some v → Moves v.status (g v).status)
    → Keeps d (modify k g d)
modify-Keeps k g d m id l there = elim (Bool-cases (id == k)) [
  | inl same ↦
      let here = ==→≡ id k same in
      let there' : find k d ≡ some l = rw here at there in
      (g l, rw here (find-modify_self k g d there'), m l there')
  | inr other ↦ (l, find-modify_ne id k g d (==→≢ id k other) ∙ there, stays)
]

pub same_loan_status-eq : (s t : LoanStatus) → same_loan_status s t ≡ true → s ≡ t
same_loan_status-eq s t h = ground arith

pub reject_loan-Keeps : (loan_id : ℕ) (f : Files) → Keeps f.loans (reject_loan loan_id f).1.loans
unfolding reject_loan
reject_loan-Keeps loan_id f =
    Option_keeps (λ (out : Result Loan × Files). Keeps f.loans (out.1).loans) (find loan_id f.loans)
      (λ _. Keeps-refl f.loans) λ l found. modify-Keeps loan_id _ f.loans (λ v _. rejects)

pub handle_workflow_rejected-Keeps :
    (e : EventBase) (f : Files) → Keeps f.loans (handle_workflow_rejected e f).loans
unfolding handle_workflow_rejected
handle_workflow_rejected-Keeps e f =
    Option_keeps (λ (out : Files). Keeps f.loans out.loans) (loan_event e) (λ _. Keeps-refl f.loans)
      λ id _. reject_loan-Keeps id f

approved-Keeps :
    (id now : ℕ) (d : Store Loan) {r : Loan × Store Loan}
    → update_if id
        (λ (l : Loan). same_loan_status l.status LoanStatus.pending_approval)
        (λ (l : Loan). record l { status = LoanStatus.approved; approved_at = some now })
        d
      ≡ some r
    → Keeps d r.1
approved-Keeps id now d {r} e =
    let (v, found, pending, same) = update_if-some id _ _ d e in
    subst (λ (q : Loan × Store Loan). Keeps d q.1) (sym same)
      (modify-Keeps id _ d λ w there.
        let v_is_w = some-injective v w (sym found ∙ there) in
        subst (λ s. Moves s LoanStatus.approved)
          (sym (same_loan_status-eq v.status LoanStatus.pending_approval pending)
            ∙ ap (λ (x : Loan). x.status) v_is_w)
          approves)

pub handle_workflow_approved-Keeps :
    (e : EventBase) (now : ℕ) (f : Files) → Keeps f.loans (handle_workflow_approved e now f).loans
unfolding handle_workflow_approved
handle_workflow_approved-Keeps e now f =
    Option_keeps (λ (out : Files). Keeps f.loans out.loans) (loan_event e) (λ _. Keeps-refl f.loans)
      λ id _.
        Option_keeps (λ (out : Files). Keeps f.loans out.loans) (update_if id _ _ f.loans)
          (λ _. Keeps-refl f.loans) λ (l, loans) written. approved-Keeps id now f.loans written

completion_status-Moves : (settled : Bool) (s : LoanStatus) → Moves s (completion_status settled s)
unfolding completion_status
completion_status-Moves settled LoanStatus.pending_approval = stays
completion_status-Moves settled LoanStatus.approved = stays
completion_status-Moves settled LoanStatus.verification_in_progress = stays
completion_status-Moves settled LoanStatus.verification_failed = stays
completion_status-Moves settled LoanStatus.rejected = stays
completion_status-Moves true LoanStatus.disbursed = closes
completion_status-Moves false LoanStatus.disbursed = stays
completion_status-Moves true LoanStatus.closed = stays
completion_status-Moves false LoanStatus.closed = reopens

pub sync_loan_status-Keeps :
    (loan_id : ℕ) (f : Files) → Keeps f.loans (sync_loan_status loan_id f).loans
unfolding sync_loan_status
sync_loan_status-Keeps loan_id f =
    modify-Keeps loan_id _ f.loans (λ v _. completion_status-Moves _ v.status)
