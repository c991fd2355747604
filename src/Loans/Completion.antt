-- ===== src/Loans/Completion.antt =====
-- `syncCompletionStatus` (src/modules/loans/loans.service.ts) on the documents of the loan services.
use bckashbackend.Common.{ℕ, map}
use bckashbackend.Common.Store.{modify}
use bckashbackend.Lending.Completion.{all_settled, completion_status}
use bckashbackend.Loans.State.{Loan, Member, Files, accounts_of}

unfoldable pub sync_loan_status : (loan_id : ℕ) → Files → Files
sync_loan_status loan_id f =
    let statuses = map (λ (e : ℕ × Member). (e.1).status) (accounts_of loan_id f.accounts) in
    record f {
      loans =
          modify loan_id
            (λ (l : Loan). record l { status = completion_status (all_settled statuses) l.status })
            f.loans;
    }
