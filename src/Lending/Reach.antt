-- ===== src/Lending/Reach.antt =====
-- The calls of lending one after another (src/modules/repayments): what every state that they reach
-- keeps distinct.
use bckashbackend.Common.{ℕ, ◌≡◌, refl, Option, List, [], ok, Option_keeps, Result_keeps}
use bckashbackend.Common.Store.{Store}
use bckashbackend.Workflow.Types.{EventBase}
use bckashbackend.Lending.State.{Books, Loan, Account, Resolution, PenaltyCharge, DelayCharge}
use bckashbackend.Lending.Repayments.{
  RecordRepayment, record_repayment, handle_repayment_approved, handle_repayment_rejected,
  raise_dispute, resolve_dispute,
}
use bckashbackend.Lending.Liquidation.{
  Catalogue, liquidation_terms, initiate_early_liquidation, liquidation_event,
  handle_liquidation_approved, handle_liquidation_rejected, link_check,
  link_repayment_to_liquidation,
}
use bckashbackend.Lending.Penalties.{Sweep, apply_penalty_charge}
use bckashbackend.Lending.DelayCharges.{run_daily_sweep, apply_delay_charge}
use bckashbackend.Lending.Sweep.Charges.{
  apply_penalty_charge_unique, apply_delay_charge_unique, apply_penalty_charge-references,
  apply_delay_charge-references, run_daily_sweep_unique, run_daily_sweep-references,
}
use bckashbackend.Lending.Sound.{
  IsSound, SoundAfter, rest-IsSound, modify-HasUniqueReferences, record_repayment-IsSound,
  handle_repayment_approved-IsSound, handle_repayment_rejected-IsSound, raise_dispute-IsSound,
  resolve_dispute-IsSound,
}

-- One call, by any caller and with any arguments, and the books after it, whether it throws or not. A
-- sweep that returns is one call; one that throws or is cut off is the charges it has committed, each a
-- call, of any charge.
pub data Call (b : Books) : Books → Type 0 where
  record_call :
      (id : ℕ) (dto : RecordRepayment) (who : ℕ) → Call b (record_repayment id dto who b).1
  approved_call : (e : EventBase) → Call b (handle_repayment_approved e b).1
  rejected_call : (e : EventBase) → Call b (handle_repayment_rejected e b)
  dispute_call : (id actor reason now : ℕ) → Call b (raise_dispute id actor reason now b).1
  resolve_call :
      (id actor : ℕ) (resolution : Resolution) (note : Option ℕ)
      → Call b (resolve_dispute id actor resolution note b).1
  liquidate_call :
      (c : Catalogue) (id account who : ℕ)
      → Call b (initiate_early_liquidation c id account who b).1
  liquidation_approved_call :
      (e : EventBase) (now : ℕ) → Call b (handle_liquidation_approved e now b)
  liquidation_rejected_call : (e : EventBase) → Call b (handle_liquidation_rejected e b)
  link_call :
      (repayment liquidation : ℕ) → Call b (link_repayment_to_liquidation repayment liquidation b).1
  sweep_call :
      (c : Catalogue) (date : ℕ) (sw : Sweep) (b' : Books)
      → run_daily_sweep c date b ≡ ok (sw, b')
      → Call b b'
  -- One committed charge of a sweep, so that a sweep that throws is the charges that it has committed.
  charge_call : (c : PenaltyCharge) (branch : ℕ) → Call b (apply_penalty_charge c branch b).1
  delay_call : (c : DelayCharge) (branch : ℕ) → Call b (apply_delay_charge c branch b).1
  lend_call :
      (loans : Store Loan) (accounts : Store Account) (banks : List ℕ)
      → Call b (record b { loans = loans; accounts = accounts; bank_accounts = banks })

-- Books that start with no repayment and no charge.
pub data Reachable : Books → Type 0 where
  start : (b : Books) → b.repayments ≡ [] → b.penalties ≡ [] → b.delay_charges ≡ [] → Reachable b
  next : {b b' : Books} → Reachable b → Call b b' → Reachable b'

liquidate-IsSound :
    (c : Catalogue) (id account who : ℕ) (b : Books)
    → IsSound b
    → SoundAfter (initiate_early_liquidation c id account who b)
unfolding initiate_early_liquidation
liquidate-IsSound c id account who b s =
    Result_keeps SoundAfter (liquidation_terms c account b) (λ x _. s)
      λ (balance, fee) _. rest-IsSound b b.accounts _ s

approved-IsSound :
    (e : EventBase) (now : ℕ) (b : Books)
    → IsSound b
    → IsSound (handle_liquidation_approved e now b)
unfolding handle_liquidation_approved
approved-IsSound e now b s =
    Option_keeps IsSound (liquidation_event e) (λ _. s) λ id _. rest-IsSound b b.accounts _ s

rejected-IsSound :
    (e : EventBase) (b : Books) → IsSound b → IsSound (handle_liquidation_rejected e b)
unfolding handle_liquidation_rejected
rejected-IsSound e b s =
    Option_keeps IsSound (liquidation_event e) (λ _. s) λ id _. rest-IsSound b b.accounts _ s

link-IsSound :
    (repayment liquidation : ℕ) (b : Books)
    → IsSound b
    → SoundAfter (link_repayment_to_liquidation repayment liquidation b)
unfolding link_repayment_to_liquidation
link-IsSound repayment liquidation b s =
    Result_keeps SoundAfter (link_check repayment liquidation b) (λ x _. s)
      λ u _. record {
        references_unique =
            modify-HasUniqueReferences repayment _ b.repayments (λ q. (refl, refl))
              s.references_unique;
        penalties_unique = s.penalties_unique;
        delays_unique = s.delays_unique;
      }

sweep-IsSound :
    (c : Catalogue) (date : ℕ) (sw : Sweep) (b b' : Books)
    → run_daily_sweep c date b ≡ ok (sw, b')
    → IsSound b
    → IsSound b'
sweep-IsSound c date sw b b' e s =
    let charges =
      run_daily_sweep_unique c date b b' sw
        (record { penalties_unique = s.penalties_unique; delays_unique = s.delays_unique }) e in
    let same = run_daily_sweep-references c date b b' sw e in
    record {
      references_unique = rw same s.references_unique;
      penalties_unique = charges.penalties_unique;
      delays_unique = charges.delays_unique;
    }

charge-IsSound :
    (c : PenaltyCharge) (branch : ℕ) (b : Books)
    → IsSound b
    → IsSound (apply_penalty_charge c branch b).1
charge-IsSound c branch b s =
    let charges =
      apply_penalty_charge_unique c branch b
        (record { penalties_unique = s.penalties_unique; delays_unique = s.delays_unique }) in
    let same = apply_penalty_charge-references b c branch b refl in
    record {
      references_unique = rw same s.references_unique;
      penalties_unique = charges.penalties_unique;
      delays_unique = charges.delays_unique;
    }

delay-IsSound :
    (c : DelayCharge) (branch : ℕ) (b : Books)
    → IsSound b
    → IsSound (apply_delay_charge c branch b).1
delay-IsSound c branch b s =
    let charges =
      apply_delay_charge_unique c branch b
        (record { penalties_unique = s.penalties_unique; delays_unique = s.delays_unique }) in
    let same = apply_delay_charge-references b c branch b refl in
    record {
      references_unique = rw same s.references_unique;
      penalties_unique = charges.penalties_unique;
      delays_unique = charges.delays_unique;
    }

Call-IsSound : {b b' : Books} → Call b b' → IsSound b → IsSound b'
Call-IsSound {b} (record_call id dto who) s = record_repayment-IsSound id dto who b s
Call-IsSound {b} (approved_call e) s = handle_repayment_approved-IsSound e b s
Call-IsSound {b} (rejected_call e) s = handle_repayment_rejected-IsSound e b s
Call-IsSound {b} (dispute_call id actor reason now) s =
    raise_dispute-IsSound id actor reason now b s
Call-IsSound {b} (resolve_call id actor resolution note) s =
    resolve_dispute-IsSound id actor resolution note b s
Call-IsSound {b} (liquidate_call c id account who) s = liquidate-IsSound c id account who b s
Call-IsSound {b} (liquidation_approved_call e now) s = approved-IsSound e now b s
Call-IsSound {b} (liquidation_rejected_call e) s = rejected-IsSound e b s
Call-IsSound {b} (link_call repayment liquidation) s = link-IsSound repayment liquidation b s
Call-IsSound {b} (sweep_call c date sw b' e) s = sweep-IsSound c date sw b b' e s
Call-IsSound {b} (charge_call c branch) s = charge-IsSound c branch b s
Call-IsSound {b} (delay_call c branch) s = delay-IsSound c branch b s
Call-IsSound {b} (lend_call loans accounts banks) s = record {
  references_unique = s.references_unique;
  penalties_unique = s.penalties_unique;
  delays_unique = s.delays_unique;
}

-- Whatever calls are made and in whatever order, whether they throw or not and wherever a sweep stops, no
-- two repayments share a bank account and reference, no installment is charged a penalty twice in one
-- period, and no early liquidation a delay charge twice in one period. The loans, the accounts and the bank
-- accounts may change in any way in between.
pub Reachable-IsSound : {b : Books} → Reachable b → IsSound b
Reachable-IsSound (start b none_repaid none_charged none_delayed) = record {
  references_unique = rw none_repaid tt;
  penalties_unique = rw none_charged tt;
  delays_unique = rw none_delayed tt;
}
Reachable-IsSound (next before call) = Call-IsSound call (Reachable-IsSound before)
