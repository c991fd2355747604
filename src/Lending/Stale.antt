-- ===== src/Lending/Stale.antt =====
-- A repayment that is applied, reversed and applied again
-- (src/modules/repayments/repayments.service.ts, `applyToBalance` and `reverseBalance`).
use bckashbackend.Common.{
  ℕ, ◌+◌, ◌-◌, ◌≤◌, ◌<◌, ◌≡◌, refl, ap, ◌∙◌, true, false, none, some, ltb, or_else, arith,
  Bool-cases, Option-cases, inl, inr,
}
use bckashbackend.Common.Store.{find, modify, find-modify_self}
use bckashbackend.Lending.State.{balance_kobo, Account, Repayment, Books}
use bckashbackend.Lending.Completion.{sync_completion_status}
use bckashbackend.Lending.Balance.{
  overpayment, pay_account, mark_applied, apply_to_balance, applied_amount, reopens, refund_account,
  reverse_effect, reverse_balance,
}
use bckashbackend.Lending.Settlement.{
  mark_applied-applied, reverse_balance-accounts, apply_to_balance-documents,
}

mark_applied_over :
    (n : ℕ) (r : Repayment)
    → ltb n r.amount_kobo ≡ true
    → (mark_applied n r).overpayment_amount_kobo ≡ some (r.amount_kobo - n)
unfolding mark_applied overpayment
mark_applied_over n r over = rw (over, mark_applied) refl

mark_applied_fits :
    (n : ℕ) (r : Repayment)
    → ltb n r.amount_kobo ≡ false
    → (mark_applied n r).overpayment_amount_kobo ≡ r.overpayment_amount_kobo
unfolding mark_applied overpayment
mark_applied_fits n r fits = rw (fits, mark_applied) refl

abbrev taken_back : Repayment → Repayment
taken_back r = record r { applied_to_balance = false }

reverse_balance-repayments :
    (id : ℕ) (b : Books) (r : Repayment)
    → find id b.repayments ≡ some r
    → r.applied_to_balance ≡ true
    → (reverse_balance id b).repayments ≡ modify id taken_back b.repayments
unfolding reverse_balance reverse_effect sync_completion_status
reverse_balance-repayments id b r found applied =
    elim (Option-cases (find r.account_id b.accounts)) [
      | inl missing ↦ rw (found, reverse_balance) (rw applied (rw missing refl))
      | inr (a, there) ↦ elim (Bool-cases (reopens (applied_amount r) a)) [
        | inl opens ↦ rw (found, reverse_balance) (rw applied (rw there (rw opens refl)))
        | inr shuts ↦ rw (found, reverse_balance) (rw applied (rw there (rw shuts refl)))
      ]
    ]

-- What is applied of a repayment that an earlier application has left with an overpayment, where the
-- balance now takes all of it.
stale_amount :
    (n m : ℕ) (r : Repayment)
    → n < r.amount_kobo
    → r.amount_kobo ≤ m
    → applied_amount (mark_applied m (taken_back (mark_applied n r))) ≡ n
unfolding applied_amount mark_applied
stale_amount n m r over fits =
    let first : ltb n r.amount_kobo ≡ true = ground arith in
    let second : ltb m r.amount_kobo ≡ false = ground arith in
    let again : Repayment = taken_back (mark_applied n r) in
    ap (λ o. r.amount_kobo - or_else o 0)
      (mark_applied_fits m again second ∙ mark_applied_over n r first)
    ∙ ground arith

refunded_balance :
    (n m amount : ℕ) (a : Account)
    → a.outstanding_balance_kobo ≡ some m
    → amount ≤ m
    → (refund_account n (pay_account amount a)).outstanding_balance_kobo ≡ some (n + (m - amount))
unfolding refund_account pay_account
refunded_balance n m amount a owes fits = rw owes (ap some (ground arith))

-- A repayment of more than the balance is applied and reversed, and applied again when the balance has
-- grown to take all of it, whatever else has happened in between that leaves the repayment. Reversing it
-- again does not put the balance back: what was taken is the whole amount, what comes back is the
-- earlier balance. The repayment is not applied at first and linked to no liquidation.
pub stale_overpayment :
    (id n m : ℕ) (b later : Books) (r : Repayment) (a a' : Account)
    → find id b.repayments ≡ some r
    → r.applied_to_balance ≡ false
    → r.linked_liquidation_request_id ≡ none
    → find r.account_id b.accounts ≡ some a
    → a.outstanding_balance_kobo ≡ some n
    → n < r.amount_kobo
    → find id later.repayments ≡ find id (reverse_balance id (apply_to_balance id b).1).repayments
    → find r.account_id later.accounts ≡ some a'
    → a'.outstanding_balance_kobo ≡ some m
    → r.amount_kobo ≤ m
    → (q : Account) × (find r.account_id (reverse_balance id (apply_to_balance id later).1).accounts
        ≡ some q)
      × (q.outstanding_balance_kobo ≡ some (n + (m - r.amount_kobo)))
      × (n + (m - r.amount_kobo) < m)
unfolding mark_applied
stale_overpayment id n m b later r a a' found idle alone there owes over kept there' owes' fits =
    let first = apply_to_balance-documents id b r a found idle alone there in
    let balance = balance_kobo a in
    let r₁ = mark_applied balance r in
    let reversed =
      reverse_balance-repayments id (apply_to_balance id b).1 r₁ first.0
        (mark_applied-applied balance r) in
    let r₂ = taken_back r₁ in
    let again : find id later.repayments ≡ some r₂ =
      kept ∙ ap (find id) reversed ∙ find-modify_self id taken_back _ first.0 in
    let second = apply_to_balance-documents id later r₂ a' again refl alone there' in
    let balance' = balance_kobo a' in
    let r₃ = mark_applied balance' r₂ in
    let back =
      reverse_balance-accounts id (apply_to_balance id later).1 r₃ second.0
        (mark_applied-applied balance' r₂) in
    let refund = find-modify_self r.account_id (refund_account (applied_amount r₃)) _ second.1 in
    let sum : applied_amount r₃ ≡ n =
      ap (λ x. applied_amount (mark_applied balance' (taken_back (mark_applied x r))))
        (ap (λ o. or_else o 0) owes)
      ∙ ap (λ y. applied_amount (mark_applied y (taken_back (mark_applied n r))))
          (ap (λ o. or_else o 0) owes')
      ∙ stale_amount n m r over fits in
    (
      _,
      ap (find r.account_id) back ∙ refund,
      rw sum (refunded_balance n m r.amount_kobo a' owes' fits),
      omega arith,
    )
