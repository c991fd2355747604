-- ===== src/Lending/Settlement.antt =====
-- What applying a repayment and reversing it do to an account
-- (src/modules/repayments/repayments.service.ts, `applyToBalance` and `reverseBalance`).
use Prim.Native.Nat.{min}
use bckashbackend.Common.{
  ℕ, ◌+◌, ◌-◌, ◌<◌, ◌≡◌, refl, ap, ◌∙◌, true, false, none, some, if◌then◌else◌, ltb, ◌==◌, or_else,
  arith, Bool-cases, Option-cases, inl, inr,
}
use bckashbackend.Common.Store.{find, modify, find-modify_self}
use bckashbackend.Lending.State.{balance_kobo, Account, AccountStatus, Repayment, Books}
use bckashbackend.Lending.Completion.{
  sync_completion_status, handle_repayment_applied, check_completion,
}
use bckashbackend.Lending.Balance.{
  overpayment, pay_account, mark_applied, apply_effect, after_apply, apply_to_balance,
  applied_amount, reopens, refund_account, reverse_effect, reverse_balance,
}

-- What is left of the balance and what was paid make up the old balance and the overpayment.
pub pay_account-balance :
    (amount : ℕ) (a : Account)
    → balance_kobo (pay_account amount a) + amount
      ≡ balance_kobo a + or_else (overpayment amount (balance_kobo a)) 0
unfolding pay_account overpayment
pay_account-balance amount a = ground arith

-- A repayment of less than the balance leaves the status as it is; one that covers it closes the
-- account.
pub pay_account-status :
    (amount : ℕ) (a : Account)
    → (pay_account amount a).status
      ≡ (if ltb amount (balance_kobo a) then a.status else AccountStatus.closed)
unfolding pay_account
pay_account-status amount a = ground arith

-- What was applied, of a record that held no overpayment, is what its balance could take.
applied_amount-mark_applied :
    (n : ℕ) (r : Repayment)
    → r.overpayment_amount_kobo ≡ none
    → applied_amount (mark_applied n r) ≡ min r.amount_kobo n
unfolding applied_amount mark_applied overpayment
applied_amount-mark_applied n r fresh = elim (Bool-cases (ltb n r.amount_kobo)) [
  | inl over ↦ rw (over, mark_applied) (ground arith)
  | inr fits ↦ rw (fits, mark_applied) (rw (fresh, mark_applied) (ground arith))
]

refund-pay_balance : (n amount : ℕ) → 0 < n → 0 < amount → (n - min amount n) + min amount n ≡ n
refund-pay_balance n amount p q = ground arith

-- An active account with a balance is what it was after a repayment to it is applied and its
-- applied part refunded.
refund_account-pay_account :
    (amount n : ℕ) (a : Account)
    → a.outstanding_balance_kobo ≡ some n
    → a.status ≡ AccountStatus.active
    → 0 < n
    → 0 < amount
    → refund_account (min amount n) (pay_account amount a) ≡ a
unfolding refund_account reopens pay_account
refund_account-pay_account amount n a owes active p q =
    let whole = refund-pay_balance n amount p q in
    let positive : ltb 0 n ≡ true = ground arith in
    elim (Bool-cases (n - min amount n == 0)) [
      | inl gone ↦ rw owes (rw gone (rw whole (rw positive (rw active refl))))
      | inr left ↦ rw owes (rw left (rw whole (rw active refl)))
    ]

pub mark_applied-applied : (n : ℕ) (r : Repayment) → (mark_applied n r).applied_to_balance ≡ true
unfolding mark_applied
mark_applied-applied n r = refl

handle_repayment_applied_unlinked :
    (id : ℕ) (b : Books) (r : Repayment)
    → find id b.repayments ≡ some r
    → r.linked_liquidation_request_id ≡ none
    → handle_repayment_applied id b ≡ b
unfolding handle_repayment_applied check_completion
handle_repayment_applied_unlinked id b r found alone =
    rw (found, handle_repayment_applied) (rw (alone, check_completion) refl)

-- The documents of lending that a resync of a loan leaves as they are.
after_apply_unlinked :
    (id : ℕ) (r r' : Repayment) (a : Account) (b : Books)
    → find id b.repayments ≡ some r'
    → r'.linked_liquidation_request_id ≡ none
    → ((after_apply id r a b).repayments ≡ b.repayments)
      × ((after_apply id r a b).accounts ≡ b.accounts)
unfolding after_apply sync_completion_status
after_apply_unlinked id r r' a b found alone =
    elim (Bool-cases (balance_kobo a - min r.amount_kobo (balance_kobo a) == 0)) [
      | inl gone ↦ rw gone (rw (handle_repayment_applied_unlinked id b r' found alone) (refl, refl))
      | inr left ↦ rw left (rw (handle_repayment_applied_unlinked id b r' found alone) (refl, refl))
    ]

pub reverse_balance-accounts :
    (id : ℕ) (b : Books) (r : Repayment)
    → find id b.repayments ≡ some r
    → r.applied_to_balance ≡ true
    → (reverse_balance id b).accounts
      ≡ modify r.account_id (refund_account (applied_amount r)) b.accounts
unfolding reverse_balance reverse_effect sync_completion_status
reverse_balance-accounts id b r found applied = elim (Option-cases (find r.account_id b.accounts)) [
  | inl missing ↦ rw (found, reverse_balance) (rw applied (rw missing refl))
  | inr (a, there) ↦ elim (Bool-cases (reopens (applied_amount r) a)) [
    | inl opens ↦ rw (found, reverse_balance) (rw applied (rw there (rw opens refl)))
    | inr shuts ↦ rw (found, reverse_balance) (rw applied (rw there (rw shuts refl)))
  ]
]

-- What `applyToBalance` leaves of an unlinked repayment that was not applied yet, and of its account.
pub apply_to_balance-documents :
    (id : ℕ) (b : Books) (r : Repayment) (a : Account)
    → find id b.repayments ≡ some r
    → r.applied_to_balance ≡ false
    → r.linked_liquidation_request_id ≡ none
    → find r.account_id b.accounts ≡ some a
    → (find id (apply_to_balance id b).1.repayments ≡ some (mark_applied (balance_kobo a) r))
      × (find r.account_id (apply_to_balance id b).1.accounts ≡ some (pay_account r.amount_kobo a))
unfolding apply_to_balance apply_effect mark_applied
apply_to_balance-documents id b r a found idle alone there =
    let marked = find-modify_self id (mark_applied (balance_kobo a)) b.repayments found in
    let paid = find-modify_self r.account_id (pay_account r.amount_kobo) b.accounts there in
    let same =
      after_apply_unlinked id r (mark_applied (balance_kobo a) r) a (apply_effect id r a b) marked
        alone in
    rw (found, apply_to_balance)
      (rw (idle, apply_to_balance)
        (rw (there, apply_to_balance)
          (ap (find id) same.0 ∙ marked, ap (find r.account_id) same.1 ∙ paid)))

-- Applying a repayment and then reversing it, as a dispute does, puts the account back: its balance,
-- its status and all else. The repayment is not applied yet, is linked to no liquidation and holds no
-- overpayment from before; the account is active and owes something, and the amount is positive.
pub reverse_balance-apply_to_balance :
    (id : ℕ) (b : Books) (r : Repayment) (a : Account) (n : ℕ)
    → find id b.repayments ≡ some r
    → r.applied_to_balance ≡ false
    → r.linked_liquidation_request_id ≡ none
    → r.overpayment_amount_kobo ≡ none
    → 0 < r.amount_kobo
    → find r.account_id b.accounts ≡ some a
    → a.status ≡ AccountStatus.active
    → a.outstanding_balance_kobo ≡ some n
    → 0 < n
    → find r.account_id (reverse_balance id (apply_to_balance id b).1).accounts ≡ some a
unfolding mark_applied
reverse_balance-apply_to_balance id b r a n found idle alone fresh q there active owes p =
    let (marked, paid) = apply_to_balance-documents id b r a found idle alone there in
    let r' = mark_applied (balance_kobo a) r in
    let after =
      reverse_balance-accounts id (apply_to_balance id b).1 r' marked
        (mark_applied-applied (balance_kobo a) r) in
    let refund = find-modify_self r.account_id (refund_account (applied_amount r')) _ paid in
    let sum : applied_amount r' ≡ min r.amount_kobo n =
      applied_amount-mark_applied (balance_kobo a) r fresh
      ∙ ap (λ o. min r.amount_kobo (or_else o 0)) owes in
    ap (find r.account_id) after
    ∙ refund
    ∙ ap some (
        ap (λ x. refund_account x (pay_account r.amount_kobo a)) sum
        ∙ refund_account-pay_account r.amount_kobo n a owes active p q)
