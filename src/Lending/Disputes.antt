-- ===== src/Lending/Disputes.antt =====
-- A dispute and the workflow approval of the same repayment
-- (src/modules/repayments/repayments.service.ts, `raiseDispute` and `handleWorkflowApproved`).
use bckashbackend.Common.{ℕ, ◌≡◌, refl, ap, ◌∙◌, true, false, none, some, ok}
use bckashbackend.Common.Store.{find, modify, find-modify_self}
use bckashbackend.Workflow.Types.{EventBase}
use bckashbackend.Lending.State.{Account, Repayment, RepaymentStatus, Books, balance_kobo}
use bckashbackend.Lending.Balance.{mark_applied, apply_effect, apply_to_balance}
use bckashbackend.Lending.Repayments.{
  set_status, open_dispute, repayment_event, handle_repayment_approved, dispute_check,
  raise_dispute,
}
use bckashbackend.Lending.Recording.{repayments-after_apply}

apply_to_balance-repayment :
    (id : ℕ) (b : Books) (r : Repayment) (a : Account)
    → find id b.repayments ≡ some r
    → r.applied_to_balance ≡ false
    → find r.account_id b.accounts ≡ some a
    → find id (apply_to_balance id b).1.repayments ≡ some (mark_applied (balance_kobo a) r)
unfolding apply_to_balance apply_effect mark_applied
apply_to_balance-repayment id b r a found idle there =
    let marked = find-modify_self id (mark_applied (balance_kobo a)) b.repayments found in
    let kept = repayments-after_apply id r a (apply_effect id r a b) in
    rw (found, apply_to_balance)
      (rw (idle, apply_to_balance) (rw (there, apply_to_balance) (ap (find id) kept ∙ marked)))

raise_dispute_pending :
    (id actor reason now : ℕ) (b : Books) (r : Repayment)
    → find id b.repayments ≡ some r
    → r.status ≡ RepaymentStatus.pending
    → raise_dispute id actor reason now b
      ≡ (ok tt, record b { repayments = modify id (open_dispute actor reason now) b.repayments })
unfolding raise_dispute dispute_check
raise_dispute_pending id actor reason now b r found pending =
    let check : dispute_check id b ≡ ok r = rw (found, dispute_check) (rw pending refl) in
    rw (check, raise_dispute) (rw pending refl)

-- A dispute of a repayment that still waits for its approval does not hold the approval back: when
-- the workflow then approves, the repayment becomes approved and is applied, and its dispute stays as
-- it was raised, without a resolution. The account is there and the repayment was not applied.
pub approval_over_dispute :
    (id actor reason now : ℕ) (e : EventBase) (b : Books) (r : Repayment) (a : Account)
    → find id b.repayments ≡ some r
    → r.status ≡ RepaymentStatus.pending
    → r.applied_to_balance ≡ false
    → find r.account_id b.accounts ≡ some a
    → repayment_event e ≡ some id
    → (q : Repayment) × (find id
          (handle_repayment_approved e (raise_dispute id actor reason now b).1).1.repayments
        ≡ some q)
      × (q.status ≡ RepaymentStatus.approved)
      × (q.applied_to_balance ≡ true)
      × (q.dispute_details
          ≡ some (record {
            raised_by = actor;
            reason = reason;
            raised_at = now;
            resolution = none;
            resolved_by = none;
            note = none;
          }))
unfolding handle_repayment_approved mark_applied
approval_over_dispute id actor reason now e b r a found pending idle there event =
    let disputed = find-modify_self id (open_dispute actor reason now) b.repayments found in
    let approved = find-modify_self id (set_status RepaymentStatus.approved) _ disputed in
    let q = set_status RepaymentStatus.approved (open_dispute actor reason now r) in
    let b' : Books = record b {
      repayments =
          modify id (set_status RepaymentStatus.approved)
            (modify id (open_dispute actor reason now) b.repayments);
    } in
    (
      mark_applied (balance_kobo a) q,
      rw (raise_dispute_pending id actor reason now b r found pending) (
          rw (event, handle_repayment_approved)
            (apply_to_balance-repayment id b' q a approved idle there)),
      refl,
      refl,
      refl,
    )
