-- ===== src/Lending/Balance.antt =====
-- `applyToBalance` and `reverseBalance` of `RepaymentsService`
-- (src/modules/repayments/repayments.service.ts). Each transaction is one step.
use Prim.Native.Nat.{min}
use bckashbackend.Common.{
  ℕ, ◌+◌, ◌-◌, Bool, true, false, ◌&&◌, Option, none, some, [], ◌∷◌, ◌++◌, ◌==◌, if◌then◌else◌, ltb,
  or_else, Result, ok, err, internal,
}
use bckashbackend.Common.Store.{find, modify}
use bckashbackend.Lending.State.{
  Account, AccountStatus, Repayment, Books, repayment_posting, same_account_status,
}
use bckashbackend.Lending.Completion.{sync_completion_status, handle_repayment_applied}

abbrev pub Outcome : Type 0 → Type 0
Outcome A = Result A × Books

-- `guarded.amountKobo > currentBalance ? guarded.amountKobo - currentBalance : null`
unfoldable pub overpayment : ℕ → ℕ → Option ℕ
overpayment amount balance = if ltb balance amount then some (amount - balance) else none

-- The account after a repayment of this amount.
unfoldable pub pay_account : ℕ → Account → Account
pay_account amount a =
    let balance = or_else a.outstanding_balance_kobo 0 in
    let left = balance - min amount balance in
    record a {
      outstanding_balance_kobo = some left;
      status = if left == 0 then AccountStatus.closed else a.status;
    }

-- The record after it was applied: an overpayment is written, and none is not erased.
unfoldable pub mark_applied : ℕ → Repayment → Repayment
unfolding overpayment
mark_applied balance r = record r {
  applied_to_balance = true;
  overpayment_amount_kobo = elim (overpayment r.amount_kobo balance) [
    | none ↦ r.overpayment_amount_kobo
    | some x ↦ some x
  ];
}

-- The transaction of `applyToBalance` and the posting after it.
unfoldable pub apply_effect : ℕ → Repayment → Account → Books → Books
unfolding pay_account mark_applied
apply_effect id r a b =
    let balance = or_else a.outstanding_balance_kobo 0 in
    record b {
      repayments = modify id (mark_applied balance) b.repayments;
      accounts = modify r.account_id (pay_account r.amount_kobo) b.accounts;
      postings = b.postings ++ repayment_posting id (min r.amount_kobo balance) r.branch_id ∷ [];
    }

-- What follows the commit: the liquidation that the repayment may settle, then the loan, if the
-- account was closed by this repayment.
unfoldable pub after_apply : ℕ → Repayment → Account → Books → Books
after_apply id r a b =
    let b' = handle_repayment_applied id b in
    if or_else a.outstanding_balance_kobo 0
        - min r.amount_kobo (or_else a.outstanding_balance_kobo 0)
      == 0
    then sync_completion_status r.loan_id b'
    else b'

-- A missing account throws, and the transaction is undone.
unfoldable pub apply_to_balance : ℕ → Books → Outcome (Unit {0})
unfolding apply_effect after_apply
apply_to_balance id b = elim (find id b.repayments) [
  | none ↦ (ok tt, b)
  | some r ↦ if r.applied_to_balance then (ok tt, b) else elim (find r.account_id b.accounts) [
    | none ↦ (err internal, b)
    | some a ↦ (ok tt, after_apply id r a (apply_effect id r a b))
  ]
]

-- What was applied of a repayment: its amount less the overpayment that its record holds. The
-- source subtracts numbers; an overpayment never exceeds its amount.
unfoldable pub applied_amount : Repayment → ℕ
applied_amount r = r.amount_kobo - or_else r.overpayment_amount_kobo 0

-- `$add` with a missing balance is missing.
abbrev add_balance : ℕ → Option ℕ → Option ℕ
add_balance x none = none
add_balance x (some n) = some (n + x)

unfoldable pub reopens : ℕ → Account → Bool
reopens x a =
    same_account_status a.status AccountStatus.closed
    && ltb 0 (or_else (add_balance x a.outstanding_balance_kobo) 0)

unfoldable pub refund_account : ℕ → Account → Account
unfolding reopens
refund_account x a = record a {
  outstanding_balance_kobo = add_balance x a.outstanding_balance_kobo;
  status = if reopens x a then AccountStatus.active else a.status;
}

unfoldable pub reverse_effect : ℕ → Repayment → Books → Books
unfolding applied_amount refund_account
reverse_effect id r b = record b {
  repayments = modify id (λ (q : Repayment). record q { applied_to_balance = false }) b.repayments;
  accounts = modify r.account_id (refund_account (applied_amount r)) b.accounts;
}

unfoldable pub reverse_balance : ℕ → Books → Books
unfolding reverse_effect
reverse_balance id b = elim (find id b.repayments) [
  | none ↦ b
  | some r ↦
      if r.applied_to_balance
      then elim (find r.account_id b.accounts) [
        | none ↦ reverse_effect id r b
        | some a ↦
            if reopens (applied_amount r) a
            then sync_completion_status r.loan_id (reverse_effect id r b)
            else reverse_effect id r b
      ]
      else b
]
