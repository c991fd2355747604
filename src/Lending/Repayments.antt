-- ===== src/Lending/Repayments.antt =====
-- `RepaymentsService` (src/modules/repayments/repayments.service.ts): recording, the workflow
-- events, disputes, and the reads that decide what a viewer sees.
use bckashbackend.Common.{
  ℕ, Bool, false, not, ◌&&◌, Option, none, some, [], ◌∷◌, ◌==◌, if◌then◌else◌, ltb, any, includes,
  or_else, Result, ok, err, not_found, bad_request, conflict, ◌>>=◌, ◌>>◌, throw_if, or_throw,
}
use bckashbackend.Common.Store.{Store, find, modify}
use bckashbackend.Workflow.Types.{EventBase}
use bckashbackend.Lending.State.{
  Loan, Account, AccountStatus, Repayment, RepaymentStatus, Liquidation, LiquidationStatus, Dispute,
  Resolution, Books, same_account_status, same_repayment_status, same_liquidation_status,
}
use bckashbackend.Lending.Balance.{Outcome, apply_to_balance, reverse_balance}

-- `WorkflowEntityType.REPAYMENT_RECORD` and `REPAYMENT_RECORD_ACTION`
abbrev pub repayment_record : ℕ
repayment_record = 7

abbrev pub repayment_record_action : ℕ
repayment_record_action = 1

pub record RecordRepayment : Type 0 where
  pub account_id : ℕ
  pub branch_bank_account_id : ℕ
  pub transaction_reference : ℕ
  pub amount_kobo : ℕ

-- `findOne({ memberLoanAccountId, status: APPROVED })`
unfoldable pub approved_liquidation : ℕ → Store Liquidation → Option Liquidation
approved_liquidation account_id [] = none
approved_liquidation account_id ((_, q) ∷ qs) =
    let rest = approved_liquidation account_id qs in
    if q.account_id == account_id && same_liquidation_status q.status LiquidationStatus.approved
    then some q
    else rest

-- The most that may be recorded: the outstanding balance, or the total of an approved liquidation
-- where that is more.
unfoldable pub max_allowed : ℕ → Account → Books → ℕ
unfolding approved_liquidation
max_allowed account_id a b =
    let outstanding = or_else a.outstanding_balance_kobo 0 in
    elim (approved_liquidation account_id b.liquidations) [
      | none ↦ outstanding
      | some q ↦ if ltb outstanding q.total_payable_kobo then q.total_payable_kobo else outstanding
    ]

-- The unique index on bank account and reference.
unfoldable pub is_duplicate : ℕ → ℕ → Store Repayment → Bool
is_duplicate bank reference = any (λ (e : ℕ × Repayment).
    (e.1).branch_bank_account_id == bank && (e.1).transaction_reference == reference)

-- The guards of `recordRepayment`, in their order, with the account and the loan that they find.
unfoldable pub record_check : RecordRepayment → Books → Result (Account × Loan)
unfolding max_allowed is_duplicate
record_check dto b = do
  a ← or_throw (find dto.account_id b.accounts) not_found
  throw_if (not (same_account_status a.status AccountStatus.active)) conflict
  throw_if (ltb (max_allowed dto.account_id a b) dto.amount_kobo) bad_request
  l ← or_throw (find a.loan_id b.loans) not_found
  throw_if (not (includes dto.branch_bank_account_id b.bank_accounts)) bad_request
  throw_if (is_duplicate dto.branch_bank_account_id dto.transaction_reference b.repayments) conflict
  ok (a, l)

abbrev new_repayment : RecordRepayment → ℕ → Account → Loan → Repayment
new_repayment dto recorded_by a l = record {
  loan_id = a.loan_id;
  account_id = dto.account_id;
  branch_id = l.branch_id;
  branch_bank_account_id = dto.branch_bank_account_id;
  transaction_reference = dto.transaction_reference;
  amount_kobo = dto.amount_kobo;
  recorded_by = recorded_by;
  status = RepaymentStatus.pending;
  applied_to_balance = false;
  overpayment_amount_kobo = none;
  dispute_details = none;
  linked_liquidation_request_id = none;
}

-- `recordRepayment`; `id` is the `_id` of the new document.
unfoldable pub record_repayment : ℕ → RecordRepayment → ℕ → Books → Outcome Repayment
unfolding record_check
record_repayment id dto recorded_by b = elim (record_check dto b) [
  | err x ↦ (err x, b)
  | ok (a, l) ↦
      let r = new_repayment dto recorded_by a l in
      (ok r, record b { repayments = (id, r) ∷ b.repayments })
]

abbrev pub set_status : RepaymentStatus → Repayment → Repayment
set_status s r = record r { status = s }

-- The event is one of this module's own, for an entity that exists.
unfoldable pub repayment_event : EventBase → Option ℕ
repayment_event e =
    if e.entity_type == repayment_record && e.action == repayment_record_action
    then e.entity_id
    else none

unfoldable pub handle_repayment_approved : EventBase → Books → Outcome (Unit {0})
unfolding repayment_event
handle_repayment_approved e b = elim (repayment_event e) [
  | none ↦ (ok tt, b)
  | some id ↦
      apply_to_balance id
        (record b { repayments = modify id (set_status RepaymentStatus.approved) b.repayments })
]

unfoldable pub handle_repayment_rejected : EventBase → Books → Books
unfolding repayment_event
handle_repayment_rejected e b = elim (repayment_event e) [
  | none ↦ b
  | some id ↦ record b { repayments = modify id (set_status RepaymentStatus.rejected) b.repayments }
]

unfoldable pub dispute_check : ℕ → Books → Result Repayment
dispute_check id b = do
  r ← or_throw (find id b.repayments) not_found
  throw_if
      (not (same_repayment_status r.status RepaymentStatus.pending)
        && not (same_repayment_status r.status RepaymentStatus.approved))
      conflict
  ok r

abbrev pub open_dispute : ℕ → ℕ → ℕ → Repayment → Repayment
open_dispute actor reason now r = record r {
  status = RepaymentStatus.under_dispute;
  dispute_details = some (record {
    raised_by = actor;
    reason = reason;
    raised_at = now;
    resolution = none;
    resolved_by = none;
    note = none;
  });
}

-- `raiseDispute`: an applied repayment is reversed first.
unfoldable pub raise_dispute : ℕ → ℕ → ℕ → ℕ → Books → Outcome (Unit {0})
unfolding dispute_check
raise_dispute id actor reason now b = elim (dispute_check id b) [
  | err x ↦ (err x, b)
  | ok r ↦
      let b' =
        if same_repayment_status r.status RepaymentStatus.approved && r.applied_to_balance
        then reverse_balance id b
        else b in
      (ok tt, record b' { repayments = modify id (open_dispute actor reason now) b'.repayments })
]

-- `!note || note.trim().length === 0` is a parameter's absence here: a blank note is `none`.
unfoldable pub resolve_check : ℕ → Option ℕ → Books → Result ℕ
resolve_check id note b = do
  text ← or_throw note bad_request
  r ← or_throw (find id b.repayments) not_found
  throw_if (not (same_repayment_status r.status RepaymentStatus.under_dispute)) conflict
  ok text

abbrev resolved_status : Resolution → RepaymentStatus
resolved_status Resolution.approved = RepaymentStatus.approved
resolved_status Resolution.rejected = RepaymentStatus.rejected

abbrev close_details : Resolution → ℕ → ℕ → Option Dispute → Option Dispute
close_details resolution actor note none = none
close_details resolution actor note (some d) =
    some (record d { resolution = some resolution; resolved_by = some actor; note = some note })

abbrev close_dispute : Resolution → ℕ → ℕ → Repayment → Repayment
close_dispute resolution actor note r = record r {
  status = resolved_status resolution;
  dispute_details = close_details resolution actor note r.dispute_details;
}

-- `resolveDispute`: an approval applies the repayment again.
unfoldable pub resolve_dispute : ℕ → ℕ → Resolution → Option ℕ → Books → Outcome (Unit {0})
unfolding resolve_check
resolve_dispute id actor resolution note b = elim (resolve_check id note b) [
  | err x ↦ (err x, b)
  | ok text ↦
      let b' : Books = record b {
        repayments = modify id (close_dispute resolution actor text) b.repayments;
      } in
      elim resolution [
        | Resolution.approved ↦ apply_to_balance id b'
        | Resolution.rejected ↦ (ok tt, b')
      ]
]
