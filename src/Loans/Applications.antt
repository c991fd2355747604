-- ===== src/Loans/Applications.antt =====
-- `LoansService.raiseApplication` (src/modules/loans/loans.service.ts).
pub mod Single
use Prim.Native.String.{String}
use bckashbackend.Common.{
  ℕ, ◌+◌, Bool, true, false, not, ◌&&◌, ◌||◌, Option, none, some, List, [], ◌∷◌, ◌++◌, map, ◌==◌,
  any, includes, leb, ltb, length, sum_by, if◌then◌else◌, Result, ok, err, bad_request, conflict,
  ◌>>=◌, ◌>>◌, throw_if,
}
use bckashbackend.Common.Store.{Store}
use bckashbackend.Workflow.Types.{InitiateInput, Request}
use bckashbackend.Workflow.Engine.{Engine}
use bckashbackend.Workflow.Chains.{initiate}
use bckashbackend.Branches.Funds.{get_balance}
use bckashbackend.Lending.State.{LoanStatus, AccountStatus, same_account_status}
use bckashbackend.Loans.State.{Loan, Member, Product, Products, Files}
use bckashbackend.Loans.Consent.{Challenge, verify_challenge}
use bckashbackend.Loans.Decisions.{loan_entity, loan_approval_action_for}
use bckashbackend.Loans.Fees.{FeeDefinition, Till, get_outstanding_pre_loan_fees}
use bckashbackend.Loans.Pending.{MemberRequest, lacks_bank}

-- What `GroupsService` answers of a group: the group's branch, whether it is eligible, and the customers that
-- are active members.
pub record Groups : Type 0 where
  pub find_by_id : ℕ → Result ℕ
  pub is_eligible : ℕ → Result Bool
  pub active_members : ℕ → Result (List ℕ)

pub record RaiseInput : Type 0 where
  pub group_id : ℕ
  pub product_id : ℕ
  pub tenure_days : ℕ
  pub requests : List MemberRequest
  pub raised_by : ℕ
  pub consent_challenge_id : ℕ
  pub consent_code : ℕ
  pub purpose : Option ℕ

-- What raising an application reads and writes.
pub record Desk : Type 0 where
  pub files : Files
  pub challenges : Store Challenge
  pub till : Till
  pub engine : Engine

-- What the other services answer; the hash of a code, and the text of the payload.
pub record Services : Type 0 where
  pub groups : Groups
  pub products : Products
  pub fee_definition : ℕ → Result FeeDefinition
  pub hash : ℕ → ℕ
  pub payload : ℕ → Loan → String

abbrev pub requested_amount : List MemberRequest → ℕ
requested_amount = sum_by (λ (r : MemberRequest). r.requested_amount_kobo)

-- The first loop: bank details of each TRANSFER.
unfoldable pub banks_check : List MemberRequest → Result (Unit {0})
banks_check [] = ok tt
banks_check (r ∷ rs) = lacks_bank r >> banks_check rs

-- The second loop, with the customers that came before.
unfoldable pub requests_check :
    (active : List ℕ) (seen : List ℕ) → List MemberRequest → Result (Unit {0})
requests_check active seen [] = ok tt
requests_check active seen (r ∷ rs) = do
  throw_if (not (includes r.customer_id active)) bad_request
  throw_if (includes r.customer_id seen) bad_request
  throw_if (r.requested_amount_kobo == 0) bad_request
  requests_check active (r.customer_id ∷ seen) rs

-- An account of one of the customers that is PENDING or ACTIVE
abbrev pub is_blocking : List ℕ → Member → Bool
is_blocking customers a =
    includes a.customer_id customers
    && (same_account_status a.status AccountStatus.pending
        || same_account_status a.status AccountStatus.active)

abbrev pub customers_of : List MemberRequest → List ℕ
customers_of = map (λ (r : MemberRequest). r.customer_id)

unfoldable pub definitions_of : (ℕ → Result FeeDefinition) → List ℕ → Result (List FeeDefinition)
definitions_of fee_definition [] = ok []
definitions_of fee_definition (id ∷ ids) =
    let rest = definitions_of fee_definition ids in
    fee_definition id >>= λ d. rest >>= λ ds. ok (d ∷ ds)

-- The fees that each member owes; a member who owes none is left out.
unfoldable pub outstanding_of :
    (product : ℕ)
    → List FeeDefinition
    → Till
    → List MemberRequest
    → Result (List (ℕ × List (ℕ × Option ℕ)))
unfolding get_outstanding_pre_loan_fees
outstanding_of product ds t [] = ok []
outstanding_of product ds t (r ∷ rs) =
    let rest = outstanding_of product ds t rs in
    get_outstanding_pre_loan_fees r.customer_id product r.requested_amount_kobo ds t.payments
    >>= λ fees. rest >>= λ others.
        ok (elim fees [ [] ↦ others | f ∷ fs ↦ (r.customer_id, f ∷ fs) ∷ others ])

-- What the checks have read: the branch and the outstanding fees.
abbrev pub Terms : Type 0
Terms = ℕ × List (ℕ × List (ℕ × Option ℕ))

-- Everything between the consent and the transaction, in order.
unfoldable pub application_check : Services → (consented : ℕ) → RaiseInput → Desk → Result Terms
unfolding banks_check requests_check definitions_of outstanding_of
application_check s consented input d = do
  throw_if (not (includes consented (customers_of input.requests))) bad_request
  banks_check input.requests
  branch ← s.groups.find_by_id input.group_id
  eligible ← s.groups.is_eligible input.group_id
  throw_if (not eligible) conflict
  product ← s.products input.product_id
  throw_if (not (includes input.tenure_days product.tenure_options)) bad_request
  active ← s.groups.active_members input.group_id
  throw_if (ltb (length active) product.min_group_size) conflict
  throw_if (length input.requests == 0) bad_request
  requests_check active [] input.requests
  throw_if
      (any (λ (e : ℕ × Member). is_blocking (customers_of input.requests) e.1) d.files.accounts)
      conflict
  throw_if (ltb (get_balance branch d.files.funds) (requested_amount input.requests)) conflict
  definitions ← definitions_of s.fee_definition product.fee_ids
  fees ← outstanding_of input.product_id definitions d.till input.requests
  ok (branch, fees)

abbrev pub new_loan : RaiseInput → (branch now : ℕ) → Loan
new_loan input branch now = record {
  group_id = input.group_id;
  product_id = input.product_id;
  branch_id = branch;
  tenure_days = input.tenure_days;
  cumulative_amount_kobo = requested_amount input.requests;
  purpose = input.purpose;
  status = LoanStatus.pending_approval;
  raised_by = input.raised_by;
  raised_at = now;
  approved_at = none;
  disbursed_at = none;
}

abbrev pub new_member : (loan_id : ℕ) → MemberRequest → Member
new_member loan_id r = record {
  loan_id = loan_id;
  customer_id = r.customer_id;
  principal_amount_kobo = r.requested_amount_kobo;
  disbursement_channel = r.disbursement_channel;
  bank_account_details = r.bank_account_details;
  schedule = [];
  outstanding_balance_kobo = none;
  status = AccountStatus.pending;
  cheque_handed_over_at = none;
}

-- The accounts of the requests, under ids from the first one on.
unfoldable pub new_members : (loan_id first : ℕ) → List MemberRequest → Store Member
new_members loan_id first [] = []
new_members loan_id first (r ∷ rs) =
    (first, new_member loan_id r) ∷ new_members loan_id (first + 1) rs

-- The ids that the database gives to the new documents.
pub record Ids : Type 0 where
  pub loan : ℕ
  pub first_account : ℕ
  pub request : ℕ

-- The transaction that creates the loan with its accounts.
unfoldable pub create_loan : Ids → RaiseInput → (branch now : ℕ) → Files → Files
unfolding new_members
create_loan ids input branch now f = record f {
  loans = (ids.loan, new_loan input branch now) ∷ f.loans;
  accounts = new_members ids.loan ids.first_account input.requests ++ f.accounts;
}

abbrev loan_request : Services → Ids → RaiseInput → (branch now : ℕ) → InitiateInput
loan_request s ids input branch now = record {
  entity_type = loan_entity;
  action = loan_approval_action_for input.product_id;
  payload = s.payload ids.loan (new_loan input branch now);
  initiated_by = input.raised_by;
  branch_id = some branch;
  entity_id = some ids.loan;
}

pub record Raised : Type 0 where
  pub loan : Loan
  pub request : Request
  pub outstanding_pre_loan_fees : List (ℕ × List (ℕ × Option ℕ))

-- `raiseApplication`. The consent is spent before anything is checked, and the loan stays where the
-- workflow has no chain for it.
unfoldable pub raise_application :
    Services → Ids → RaiseInput → (now : ℕ) → Desk → Result Raised × Desk
raise_application s ids input now d =
    let (consent, challenges) =
      verify_challenge s.hash input.consent_challenge_id input.consent_code now d.challenges in
    let d' : Desk = record d { challenges = challenges } in
    elim consent [
      | err x ↦ (err x, d')
      | ok consented ↦ elim (application_check s consented input d') [
        | err x ↦ (err x, d')
        | ok (branch, fees) ↦
            let (answer, engine) =
              initiate ids.request (loan_request s ids input branch now) now d'.engine in
            let raised : Desk = record d' {
              files = create_loan ids input branch now d'.files;
              engine = engine;
            } in
            (
              answer >>= λ request. ok (record {
                loan = new_loan input branch now;
                request = request;
                outstanding_pre_loan_fees = fees;
              }),
              raised,
            )
      ]
    ]
