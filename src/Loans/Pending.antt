-- ===== src/Loans/Pending.antt =====
-- Editing and deleting an application that is still pending: `updatePendingApplication` and
-- `deleteLoan` (src/modules/loans/loans.service.ts).
use bckashbackend.Common.{
  ℕ, not, ◌&&◌, ◌||◌, Option, none, some, is_some, or_else, List, [], ◌∷◌, ◌==◌, eq_opt, includes,
  sum_by, if◌then◌else◌, Result, ok, err, not_found, bad_request, conflict, forbidden, ◌>>=◌, ◌>>◌,
  throw_if, or_throw,
}
use bckashbackend.Common.Store.{Store, find, modify, erase}
use bckashbackend.Workflow.Types.{Request, Status, same_status}
use bckashbackend.Workflow.Engine.{Engine}
use bckashbackend.Workflow.Maker.{cancel}
use bckashbackend.Lending.State.{LoanStatus, Channel, same_loan_status}
use bckashbackend.Loans.State.{Loan, Member, Products, Files, Outcome, accounts_of, same_channel}
use bckashbackend.Loans.Decisions.{loan_entity}

-- `RaiseApplicationMemberRequest`
pub record MemberRequest : Type 0 where
  pub customer_id : ℕ
  pub requested_amount_kobo : ℕ
  pub disbursement_channel : Channel
  pub bank_account_details : Option ℕ

-- The changes; a purpose that is blank is `some none`.
pub record Changes : Type 0 where
  pub tenure_days : Option ℕ
  pub purpose : Option (Option ℕ)
  pub member_requests : Option (List MemberRequest)

-- `assertIsRaiser` and `assertStillPending`
unfoldable pub pending_check : (actor : ℕ) → Loan → Result (Unit {0})
pending_check actor l = do
  throw_if (not (l.raised_by == actor)) forbidden
  throw_if (not (same_loan_status l.status LoanStatus.pending_approval)) conflict

unfoldable pub new_tenure : Products → Changes → Loan → Result ℕ
new_tenure products c l = elim c.tenure_days [
  | none ↦ ok l.tenure_days
  | some days ↦ do
    p ← products l.product_id
    throw_if (not (includes days p.tenure_options)) bad_request
    ok days
]

-- `accountByCustomerId.get`: a later account of a customer replaces an earlier one in the map.
unfoldable pub account_by_customer : ℕ → Store Member → Option (ℕ × Member)
account_by_customer customer [] = none
account_by_customer customer ((i, a) ∷ d) = elim (account_by_customer customer d) [
  | some entry ↦ some entry
  | none ↦ if a.customer_id == customer then some (i, a) else none
]

-- TRANSFER without bank details
abbrev pub lacks_bank : MemberRequest → Result (Unit {0})
lacks_bank r =
    throw_if
      (same_channel r.disbursement_channel Channel.transfer && not (is_some r.bank_account_details))
      bad_request

unfoldable pub request_check : Store Member → MemberRequest → Result ℕ
unfolding account_by_customer
request_check accounts r = do
  entry ← or_throw (account_by_customer r.customer_id accounts) bad_request
  throw_if (r.requested_amount_kobo == 0) bad_request
  lacks_bank r
  ok entry.0

abbrev pub set_request : MemberRequest → Member → Member
set_request r a = record a {
  principal_amount_kobo = r.requested_amount_kobo;
  disbursement_channel = r.disbursement_channel;
  bank_account_details =
      if same_channel r.disbursement_channel Channel.transfer then r.bank_account_details else none;
}

-- The loop over the requests: each account is saved before the next request is looked at, and a
-- request that throws leaves the saves before it.
unfoldable pub apply_requests :
    (accounts : Store Member) → List MemberRequest → Store Member → Result (Unit {0}) × Store Member
unfolding request_check
apply_requests accounts [] d = (ok tt, d)
apply_requests accounts (r ∷ rs) d = elim (request_check accounts r) [
  | err x ↦ (err x, d)
  | ok id ↦ apply_requests accounts rs (modify id (set_request r) d)
]

abbrev pub principals : Store Member → ℕ
principals = sum_by (λ (e : ℕ × Member). (e.1).principal_amount_kobo)

-- What is saved at the end, with the sum over the accounts as they are then.
abbrev pub edited : (loan_id tenure : ℕ) → Changes → Store Member → Loan → Loan
edited loan_id tenure c d l = record l {
  tenure_days = tenure;
  purpose = or_else c.purpose l.purpose;
  cumulative_amount_kobo = principals (accounts_of loan_id d);
}

unfoldable pub update_check : Products → (loan_id actor : ℕ) → Changes → Files → Result (Loan × ℕ)
unfolding pending_check new_tenure
update_check products loan_id actor c f = do
  l ← or_throw (find loan_id f.loans) not_found
  pending_check actor l
  tenure ← new_tenure products c l
  ok (l, tenure)

-- `updatePendingApplication`
unfoldable pub update_pending_application :
    Products → (loan_id actor : ℕ) → Changes → Files → Outcome Loan
unfolding update_check apply_requests
update_pending_application products loan_id actor c f =
    elim (update_check products loan_id actor c f) [
      | err x ↦ (err x, f)
      | ok (l, tenure) ↦
          let (applied, d) =
            apply_requests (accounts_of loan_id f.accounts) (or_else c.member_requests [])
              f.accounts in
          elim applied [
            | err x ↦ (err x, record f { accounts = d })
            | ok _ ↦ (
              ok (edited loan_id tenure c d l),
              record f {
                accounts = d;
                loans = modify loan_id (λ _. edited loan_id tenure c d l) f.loans;
              },
            )
          ]
    ]

-- `history.find`: the first request of the loan that is not decided yet.
unfoldable pub active_request : (loan_id : ℕ) → Store Request → Option ℕ
active_request loan_id [] = none
active_request loan_id ((i, r) ∷ d) =
    let rest = active_request loan_id d in
    if r.entity_type == loan_entity
      && eq_opt r.entity_id loan_id
      && (same_status r.status Status.pending_review
          || same_status r.status Status.pending_approval
          || same_status r.status Status.returned_to_maker)
    then some i
    else rest

-- `deleteMany({ loanId })`
unfoldable pub drop_accounts : ℕ → Store Member → Store Member
drop_accounts loan_id [] = []
drop_accounts loan_id ((i, a) ∷ d) =
    let rest = drop_accounts loan_id d in if a.loan_id == loan_id then rest else (i, a) ∷ rest

abbrev pub deleted : ℕ → Files → Files
deleted loan_id f = record f {
  accounts = drop_accounts loan_id f.accounts;
  loans = erase loan_id f.loans;
}

unfoldable pub delete_check : (loan_id actor : ℕ) → Files → Result (Unit {0})
unfolding pending_check
delete_check loan_id actor f = do
  l ← or_throw (find loan_id f.loans) not_found
  pending_check actor l

-- `deleteLoan`: the cancellation of the request comes first, and may throw.
unfoldable pub delete_loan :
    (loan_id actor : ℕ) → Files → Engine → Result (Unit {0}) × Files × Engine
unfolding delete_check active_request drop_accounts cancel
delete_loan loan_id actor f e = elim (delete_check loan_id actor f) [
  | err x ↦ (err x, f, e)
  | ok _ ↦ elim (active_request loan_id e.requests) [
    | none ↦ (ok tt, deleted loan_id f, e)
    | some request ↦
        let (cancelled, e') = cancel request actor e in
        elim cancelled [ err x ↦ (err x, f, e') | ok _ ↦ (ok tt, deleted loan_id f, e') ]
  ]
]
