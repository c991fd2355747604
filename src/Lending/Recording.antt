-- ===== src/Lending/Recording.antt =====
-- What the guards of lending let through, and that applying is done once
-- (src/modules/repayments/repayments.service.ts, early-liquidation.service.ts).
use mathlib.Core.Option.{some-injective}
use bckashbackend.Common.{
  ◌≢◌, none, [], ◌==◌, ◌&&◌, ◌⊎◌, Result_keeps, ℕ, ◌≤◌, ◌≡◌, refl, sym, ap, ◌∙◌, true, false, some,
  ◌∷◌, ok, err, ltb, includes, Option-cases, Bool-cases, inl, inr, arith, if_keeps, Option_keeps,
}
use bckashbackend.Common.Store.{Store, find, find-modify_self}
use bckashbackend.Lending.State.{
  Loan, Account, AccountStatus, Repayment, RepaymentStatus, Liquidation, LiquidationStatus,
  same_liquidation_status, Books, same_account_status, same_repayment_status, balance_kobo,
}
use bckashbackend.Lending.Completion.{
  sync_completion_status, complete_liquidation, check_completion, handle_repayment_applied,
}
use bckashbackend.Lending.Balance.{
  Outcome, mark_applied, apply_effect, after_apply, apply_to_balance,
}
use bckashbackend.Lending.Repayments.{
  RecordRepayment, max_allowed, approved_liquidation, is_duplicate, record_check, record_repayment,
}

-- What a repayment must meet to be recorded.
pub record IsRecordable (dto : RecordRepayment) (b : Books) (a : Account) : Type 0 where
  pub account_found : find dto.account_id b.accounts ≡ some a
  pub account_active : same_account_status a.status AccountStatus.active ≡ true
  pub within : ltb (max_allowed dto.account_id a b) dto.amount_kobo ≡ false
  pub known_bank : includes dto.branch_bank_account_id b.bank_accounts ≡ true
  pub fresh_reference :
      is_duplicate dto.branch_bank_account_id dto.transaction_reference b.repayments ≡ false

record_check-IsRecordable :
    (dto : RecordRepayment) (b : Books) {a : Account} {l : Loan}
    → record_check dto b ≡ ok (a, l)
    → IsRecordable dto b a
unfolding record_check
record_check-IsRecordable dto b e = ground arith

-- A call of `record_repayment` that returns has met the guards and added one pending record, not
-- applied, of the amount asked; one that throws has changed nothing.
abbrev pub Recorded : ℕ → RecordRepayment → Books → Outcome Repayment → Type 0
Recorded id dto b (ok r, b') =
    ((a : Account) × IsRecordable dto b a)
    × (b' ≡ record b { repayments = (id, r) ∷ b.repayments })
    × (same_repayment_status r.status RepaymentStatus.pending ≡ true)
    × (r.applied_to_balance ≡ false)
    × (r.amount_kobo ≡ dto.amount_kobo)
Recorded id dto b (err x, b') = b' ≡ b

-- Recording a repayment either throws and changes nothing, or finds the account, which is active, an
-- amount within the most that the account may take, a known bank account and a reference that is new
-- there, and adds exactly one pending, unapplied record of that amount.
pub record_repayment-Recorded :
    (id : ℕ) (dto : RecordRepayment) (who : ℕ) (b : Books)
    → Recorded id dto b (record_repayment id dto who b)
unfolding record_repayment
record_repayment-Recorded id dto who b =
    Result_keeps (Recorded id dto b) (record_check dto b) (λ x _. refl)
      λ (a, l) e. ((a, record_check-IsRecordable dto b e), refl, refl, refl, refl)

-- A liquidation of the account that is APPROVED is there, and asks this total.
abbrev pub Asks : (account total : ℕ) → Store Liquidation → Type 0
Asks account total [] = ⊥
Asks account total ((_, q) ∷ qs) =
    ((q.account_id ≡ account)
      × (q.status ≡ LiquidationStatus.approved)
      × (q.total_payable_kobo ≡ total))
    ⊎ Asks account total qs

approved_liquidation-Asks :
    (account : ℕ) (qs : Store Liquidation) {q : Liquidation}
    → approved_liquidation account qs ≡ some q
    → Asks account q.total_payable_kobo qs
unfolding approved_liquidation
approved_liquidation-Asks account [] e = cc
approved_liquidation-Asks account ((i, w) ∷ qs) {q} e =
    elim (Bool-cases
      (w.account_id == account && same_liquidation_status w.status LiquidationStatus.approved)) [
        | inl mine ↦
            let same = some-injective w q (rw mine at e) in
            inl (ground arith, ground arith, ap (λ (x : Liquidation). x.total_payable_kobo) same)
        | inr other ↦ inr (approved_liquidation-Asks account qs (rw other at e))
      ]

-- Where an APPROVED liquidation asks a total, the lookup finds one.
approved_liquidation_found :
    (account total : ℕ) (qs : Store Liquidation)
    → Asks account total qs
    → approved_liquidation account qs ≢ none
unfolding approved_liquidation
approved_liquidation_found account total [] asks e = asks
approved_liquidation_found account total ((i, w) ∷ qs) asks e =
    elim (Bool-cases
      (w.account_id == account && same_liquidation_status w.status LiquidationStatus.approved)) [
        | inl mine ↦ let no : some w ≡ none = rw mine at e in cc
        | inr other ↦ elim asks [
          | inl (at_account, is_approved, sum) ↦ ground arith
          | inr later ↦ approved_liquidation_found account total qs later (rw other at e)
        ]
      ]

-- While liquidations of the account are APPROVED, all for one total, the most that may be recorded covers
-- both the balance and this total, and is one of the two.
pub max_allowed-covers :
    (id total : ℕ) (a : Account) (b : Books)
    → Asks id total b.liquidations
    → ((other : ℕ) → Asks id other b.liquidations → other ≡ total)
    → (balance_kobo a ≤ max_allowed id a b)
      × (total ≤ max_allowed id a b)
      × ((max_allowed id a b ≡ balance_kobo a) ⊎ (max_allowed id a b ≡ total))
unfolding max_allowed
max_allowed-covers id total a b asks alone =
    elim (Option-cases (approved_liquidation id b.liquidations)) [
      | inl missing ↦ absurd (approved_liquidation_found id total b.liquidations asks missing)
      | inr (q, found) ↦
          let one =
            alone q.total_payable_kobo (approved_liquidation-Asks id b.liquidations found) in
          rw (found, max_allowed) (ground arith, ground arith, ground arith)
    ]

pub repayments-after_apply :
    (id : ℕ) (r : Repayment) (a : Account) (b : Books)
    → (after_apply id r a b).repayments ≡ b.repayments
unfolding after_apply handle_repayment_applied check_completion complete_liquidation
    sync_completion_status
repayments-after_apply id r a b =
    let settled : (handle_repayment_applied id b).repayments ≡ b.repayments =
      Option_keeps (λ (b' : Books). b'.repayments ≡ b.repayments) (find id b.repayments) (λ _. refl)
        λ q _.
          Option_keeps (λ (b' : Books). b'.repayments ≡ b.repayments)
            q.linked_liquidation_request_id (λ _. refl)
            λ i _.
              Option_keeps (λ (b' : Books). b'.repayments ≡ b.repayments) (find i b.liquidations)
                (λ _. refl)
                λ l _.
                  if_keeps (λ (b' : Books). b'.repayments ≡ b.repayments) _ (λ _. refl)
                    (λ _. refl) in
    if_keeps (λ (b' : Books). b'.repayments ≡ b.repayments) _ (λ _. settled) (λ _. settled)

apply_to_balance_applied :
    (id : ℕ) (b : Books) (r : Repayment)
    → find id b.repayments ≡ some r
    → r.applied_to_balance ≡ true
    → apply_to_balance id b ≡ (ok tt, b)
unfolding apply_to_balance
apply_to_balance_applied id b r found applied =
    rw (found, apply_to_balance) (rw (applied, apply_to_balance) refl)

apply_to_balance_once :
    (id : ℕ) (b : Books) (r : Repayment) (a : Account)
    → find id b.repayments ≡ some r
    → (let b' = after_apply id r a (apply_effect id r a b) in apply_to_balance id b' ≡ (ok tt, b'))
unfolding apply_effect mark_applied
apply_to_balance_once id b r a found =
    let b' = after_apply id r a (apply_effect id r a b) in
    let marked = find-modify_self id (mark_applied (balance_kobo a)) b.repayments found in
    apply_to_balance_applied id b' (mark_applied (balance_kobo a) r)
      (ap (find id) (repayments-after_apply id r a (apply_effect id r a b)) ∙ marked) refl

-- Applying a repayment a second time changes nothing, whatever the first application did: a repeated
-- approval event neither pays nor posts twice.
pub apply_to_balance_idem :
    (id : ℕ) (b : Books)
    → (apply_to_balance id (apply_to_balance id b).1).1 ≡ (apply_to_balance id b).1
unfolding apply_to_balance
apply_to_balance_idem id b =
    let again : Books → Books = λ b'. (apply_to_balance id b').1 in
    elim (Option-cases (find id b.repayments)) [
      | inl missing ↦ let same : again b ≡ b = rw (missing, apply_to_balance) refl in ap again same
      | inr (r, found) ↦ elim (Bool-cases r.applied_to_balance) [
        | inl applied ↦ ap again (ap (λ o. o.1) (apply_to_balance_applied id b r found applied))
        | inr idle ↦ elim (Option-cases (find r.account_id b.accounts)) [
          | inl missing ↦
              let same : again b ≡ b =
                rw (found, apply_to_balance)
                  (rw (idle, apply_to_balance) (rw (missing, apply_to_balance) refl)) in
              ap again same
          | inr (a, there) ↦
              let same : again b ≡ after_apply id r a (apply_effect id r a b) =
                rw (found, apply_to_balance)
                  (rw (idle, apply_to_balance) (rw (there, apply_to_balance) refl)) in
              ap again same ∙ ap (λ o. o.1) (apply_to_balance_once id b r a found) ∙ sym same
        ]
      ]
    ]
