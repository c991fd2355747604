-- ===== src/Lending/Sound.antt =====
-- The keys that the operations of lending keep distinct: the bank account and reference of a
-- repayment, and the keys of charges (src/modules/repayments).
use bckashbackend.Common.{
  ℕ, ◌≡◌, refl, ◌∙◌, false, Option, [], ◌∷◌, ◌==◌, ok, if_keeps, Option_keeps, Result_keeps,
  Bool-cases, inl, inr, arith,
}
use bckashbackend.Common.Store.{Store, find, modify}
use bckashbackend.Workflow.Types.{EventBase}
use bckashbackend.Lending.State.{
  Loan, Account, Repayment, Liquidation, Books, Resolution, balance_kobo,
}
use bckashbackend.Lending.Completion.{
  check_completion, complete_liquidation, handle_repayment_applied, sync_completion_status,
}
use bckashbackend.Lending.Balance.{
  Outcome, apply_effect, after_apply, apply_to_balance, mark_applied, reverse_effect,
  reverse_balance,
}
use bckashbackend.Lending.Repayments.{
  RecordRepayment, record_check, record_repayment, is_duplicate, repayment_event,
  handle_repayment_approved, handle_repayment_rejected, dispute_check, raise_dispute, resolve_check,
  resolve_dispute,
}
use bckashbackend.Lending.Sweep.Charges.{HasUniquePenalties, HasUniqueDelays}

-- No two repayments have one bank account and reference.
abbrev pub HasUniqueReferences : Store Repayment → Type 0
HasUniqueReferences [] = Unit
HasUniqueReferences ((_, r) ∷ rs) =
    (is_duplicate r.branch_bank_account_id r.transaction_reference rs ≡ false)
    × HasUniqueReferences rs

pub record IsSound (b : Books) : Type 0 where
  pub references_unique : HasUniqueReferences b.repayments
  pub penalties_unique : HasUniquePenalties b.penalties
  pub delays_unique : HasUniqueDelays b.delay_charges

-- A write that keeps the key of a repayment.
abbrev pub KeepsReference : (Repayment → Repayment) → Type 0
KeepsReference f =
    (r : Repayment)
    → ((f r).branch_bank_account_id ≡ r.branch_bank_account_id)
      × ((f r).transaction_reference ≡ r.transaction_reference)

is_duplicate-modify :
    (bank reference k : ℕ) (f : Repayment → Repayment) (d : Store Repayment)
    → KeepsReference f
    → is_duplicate bank reference (modify k f d) ≡ is_duplicate bank reference d
unfolding is_duplicate
is_duplicate-modify bank reference k f [] h = refl
is_duplicate-modify bank reference k f ((j, r) ∷ d) h = elim (Bool-cases (k == j)) [
  | inl same ↦ rw same (rw (h r).0 (rw (h r).1 refl))
  | inr other ↦ rw other (rw (is_duplicate-modify bank reference k f d h) refl)
]

pub modify-HasUniqueReferences :
    (k : ℕ) (f : Repayment → Repayment) (d : Store Repayment)
    → KeepsReference f
    → HasUniqueReferences d
    → HasUniqueReferences (modify k f d)
modify-HasUniqueReferences k f [] h u = tt
modify-HasUniqueReferences k f ((j, r) ∷ d) h u = elim (Bool-cases (k == j)) [
  | inl same ↦ rw same (rw (h r).0 (rw (h r).1 u.0), u.1)
  | inr other ↦ rw other (
    is_duplicate-modify r.branch_bank_account_id r.transaction_reference k f d h ∙ u.0,
    modify-HasUniqueReferences k f d h u.1,
  )
]

sync_completion_status-IsSound :
    (id : ℕ) (b : Books) → IsSound b → IsSound (sync_completion_status id b)
unfolding sync_completion_status
sync_completion_status-IsSound id b s = record {
  references_unique = s.references_unique;
  penalties_unique = s.penalties_unique;
  delays_unique = s.delays_unique;
}

complete_liquidation-IsSound :
    (id : ℕ) (r : Repayment) (b : Books) → IsSound b → IsSound (complete_liquidation id r b)
unfolding complete_liquidation
complete_liquidation-IsSound id r b s = sync_completion_status-IsSound r.loan_id _ (record {
  references_unique = s.references_unique;
  penalties_unique = s.penalties_unique;
  delays_unique = s.delays_unique;
})

handle_repayment_applied-IsSound :
    (id : ℕ) (b : Books) → IsSound b → IsSound (handle_repayment_applied id b)
unfolding handle_repayment_applied check_completion
handle_repayment_applied-IsSound id b s =
    Option_keeps IsSound (find id b.repayments) (λ _. s)
      λ r _.
        Option_keeps IsSound r.linked_liquidation_request_id (λ _. s)
          λ i _.
            Option_keeps IsSound (find i b.liquidations) (λ _. s)
              λ q _. if_keeps IsSound _ (λ _. s) λ _. complete_liquidation-IsSound i r b s

apply_effect-IsSound :
    (id : ℕ) (r : Repayment) (a : Account) (b : Books) → IsSound b → IsSound (apply_effect id r a b)
unfolding apply_effect mark_applied
apply_effect-IsSound id r a b s = record {
  references_unique =
      modify-HasUniqueReferences id (mark_applied (balance_kobo a)) b.repayments (λ q. (refl, refl))
        s.references_unique;
  penalties_unique = s.penalties_unique;
  delays_unique = s.delays_unique;
}

after_apply-IsSound :
    (id : ℕ) (r : Repayment) (a : Account) (b : Books) → IsSound b → IsSound (after_apply id r a b)
unfolding after_apply
after_apply-IsSound id r a b s =
    let s' = handle_repayment_applied-IsSound id b s in
    if_keeps IsSound _ (λ _. sync_completion_status-IsSound r.loan_id _ s') (λ _. s')

abbrev pub SoundAfter : {A : Type 0} → Outcome A → Type 0
SoundAfter (res, b) = IsSound b

pub apply_to_balance-IsSound : (id : ℕ) (b : Books) → IsSound b → SoundAfter (apply_to_balance id b)
unfolding apply_to_balance
apply_to_balance-IsSound id b s =
    Option_keeps SoundAfter (find id b.repayments) (λ _. s)
      λ r _.
        if_keeps SoundAfter r.applied_to_balance (λ _. s)
          λ _.
            Option_keeps SoundAfter (find r.account_id b.accounts) (λ _. s)
              λ a _. after_apply-IsSound id r a _ (apply_effect-IsSound id r a b s)

-- A write to the repayments that keeps their keys.
write-IsSound :
    (k : ℕ) (f : Repayment → Repayment) (b : Books)
    → KeepsReference f
    → IsSound b
    → IsSound (record b { repayments = modify k f b.repayments })
write-IsSound k f b h s = record {
  references_unique = modify-HasUniqueReferences k f b.repayments h s.references_unique;
  penalties_unique = s.penalties_unique;
  delays_unique = s.delays_unique;
}

-- A write to the accounts and liquidations alone.
pub rest-IsSound :
    (b : Books) (as' : Store Account) (qs : Store Liquidation)
    → IsSound b
    → IsSound (record b { accounts = as'; liquidations = qs })
rest-IsSound b as' qs s = record {
  references_unique = s.references_unique;
  penalties_unique = s.penalties_unique;
  delays_unique = s.delays_unique;
}

reverse_effect-IsSound :
    (id : ℕ) (r : Repayment) (b : Books) → IsSound b → IsSound (reverse_effect id r b)
unfolding reverse_effect
reverse_effect-IsSound id r b s =
    rest-IsSound _ _ b.liquidations (write-IsSound id _ b (λ q. (refl, refl)) s)

reverse_balance-IsSound : (id : ℕ) (b : Books) → IsSound b → IsSound (reverse_balance id b)
unfolding reverse_balance
reverse_balance-IsSound id b s =
    Option_keeps IsSound (find id b.repayments) (λ _. s)
      λ r _.
        let s' = reverse_effect-IsSound id r b s in
        if_keeps IsSound r.applied_to_balance
          (λ _.
            Option_keeps IsSound (find r.account_id b.accounts) (λ _. s')
              λ a _.
                if_keeps IsSound _ (λ _. sync_completion_status-IsSound r.loan_id _ s') (λ _. s'))
          (λ _. s)

record_check-is_duplicate :
    (dto : RecordRepayment) (b : Books) {found : Account × Loan}
    → record_check dto b ≡ ok found
    → is_duplicate dto.branch_bank_account_id dto.transaction_reference b.repayments ≡ false
unfolding record_check
record_check-is_duplicate dto b e = ground arith

pub record_repayment-IsSound :
    (id : ℕ) (dto : RecordRepayment) (who : ℕ) (b : Books)
    → IsSound b
    → SoundAfter (record_repayment id dto who b)
unfolding record_repayment
record_repayment-IsSound id dto who b s =
    Result_keeps SoundAfter (record_check dto b) (λ x _. s)
      λ (a, l) e. record {
        references_unique = (record_check-is_duplicate dto b e, s.references_unique);
        penalties_unique = s.penalties_unique;
        delays_unique = s.delays_unique;
      }

pub handle_repayment_approved-IsSound :
    (e : EventBase) (b : Books) → IsSound b → SoundAfter (handle_repayment_approved e b)
unfolding handle_repayment_approved
handle_repayment_approved-IsSound e b s =
    Option_keeps SoundAfter (repayment_event e) (λ _. s)
      λ id _. apply_to_balance-IsSound id _ (write-IsSound id _ b (λ q. (refl, refl)) s)

pub handle_repayment_rejected-IsSound :
    (e : EventBase) (b : Books) → IsSound b → IsSound (handle_repayment_rejected e b)
unfolding handle_repayment_rejected
handle_repayment_rejected-IsSound e b s =
    Option_keeps IsSound (repayment_event e) (λ _. s)
      λ id _. write-IsSound id _ b (λ q. (refl, refl)) s

pub raise_dispute-IsSound :
    (id actor reason now : ℕ) (b : Books)
    → IsSound b
    → SoundAfter (raise_dispute id actor reason now b)
unfolding raise_dispute
raise_dispute-IsSound id actor reason now b s =
    Result_keeps SoundAfter (dispute_check id b) (λ x _. s)
      λ r _.
        write-IsSound id _ _ (λ q. (refl, refl))
          (if_keeps IsSound _ (λ _. reverse_balance-IsSound id b s) (λ _. s))

pub resolve_dispute-IsSound :
    (id actor : ℕ) (resolution : Resolution) (note : Option ℕ) (b : Books)
    → IsSound b
    → SoundAfter (resolve_dispute id actor resolution note b)
unfolding resolve_dispute
resolve_dispute-IsSound id actor Resolution.approved note b s =
    Result_keeps SoundAfter (resolve_check id note b) (λ x _. s)
      λ text _. apply_to_balance-IsSound id _ (write-IsSound id _ b (λ q. (refl, refl)) s)
resolve_dispute-IsSound id actor Resolution.rejected note b s =
    Result_keeps SoundAfter (resolve_check id note b) (λ x _. s)
      λ text _. write-IsSound id _ b (λ q. (refl, refl)) s
