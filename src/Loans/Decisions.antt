-- ===== src/Loans/Decisions.antt =====
-- What an approval chain's decision does to a loan: `handleWorkflowApproved`,
-- `handleWorkflowRejected` and `rejectLoan` (src/modules/loans/loans.service.ts).
use bckashbackend.Common.{
  ℕ, ◌+◌, ◌&&◌, Option, none, some, [], ◌∷◌, ◌==◌, leb, if◌then◌else◌, ok, err, not_found,
}
use bckashbackend.Common.Store.{Store, find, update_if, modify}
use bckashbackend.Workflow.Types.{EventBase}
use bckashbackend.Lending.State.{LoanStatus, AccountStatus, same_loan_status}
use bckashbackend.Loans.State.{Loan, Member, Files, Outcome}

-- `WorkflowEntityType.LOAN`
abbrev pub loan_entity : ℕ
loan_entity = 4

-- `loanApprovalActionFor`: the prefix with the product's id is the number 10 + id.
abbrev pub loan_approval_action_for : ℕ → ℕ
loan_approval_action_for product_id = 10 + product_id

-- `isLoanApprovalEvent`, with the loan that the event is about.
unfoldable pub loan_event : EventBase → Option ℕ
loan_event e = if e.entity_type == loan_entity && leb 10 e.action then e.entity_id else none

-- `updateMany({ loanId }, { $set: { status: CLOSED } })`
unfoldable pub close_accounts : ℕ → Store Member → Store Member
close_accounts loan_id [] = []
close_accounts loan_id ((i, a) ∷ d) =
    let rest = close_accounts loan_id d in
    (i, if a.loan_id == loan_id then record a { status = AccountStatus.closed } else a) ∷ rest

-- `rejectLoan`: no status is tested.
unfoldable pub reject_loan : ℕ → Files → Outcome Loan
unfolding close_accounts
reject_loan loan_id f = elim (find loan_id f.loans) [
  | none ↦ (err not_found, f)
  | some l ↦ (
    ok (record l { status = LoanStatus.rejected }),
    record f {
      loans = modify loan_id (λ (q : Loan). record q { status = LoanStatus.rejected }) f.loans;
      accounts = close_accounts loan_id f.accounts;
    },
  )
]

unfoldable pub handle_workflow_approved : EventBase → (now : ℕ) → Files → Files
unfolding loan_event
handle_workflow_approved e now f = elim (loan_event e) [
  | none ↦ f
  | some id ↦
      elim (update_if id (λ (l : Loan). same_loan_status l.status LoanStatus.pending_approval)
        (λ (l : Loan). record l { status = LoanStatus.approved; approved_at = some now }) f.loans) [
          | none ↦ f
          | some (l, loans) ↦ record f { loans = loans }
        ]
]

-- A rejection of a loan that is not there throws NotFound in the event handler, and changes nothing.
unfoldable pub handle_workflow_rejected : EventBase → Files → Files
unfolding loan_event reject_loan
handle_workflow_rejected e f = elim (loan_event e) [ none ↦ f | some id ↦ (reject_loan id f).1 ]
