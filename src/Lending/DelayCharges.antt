-- ===== src/Lending/DelayCharges.antt =====
-- The delay charges of approved early liquidations, and the whole daily sweep
-- (src/modules/repayments/penalty-sweep.service.ts).
use bckashbackend.Common.{
  ℕ, ◌+◌, ◌-◌, ◌/◌, Bool, true, false, ◌&&◌, Option, none, some, [], ◌∷◌, ◌++◌, select, any, ◌==◌,
  if◌then◌else◌, ltb, leb, or_else, Result, ok, ◌>>=◌,
}
use bckashbackend.Common.Store.{Store, find, modify}
use bckashbackend.Calc.Charges.{Amounts, PenaltyTerms, calculate_penalty_amount}
use bckashbackend.Lending.State.{
  Loan, Account, AccountStatus, Liquidation, LiquidationStatus, DelayCharge, delay_posting, Books,
  same_account_status, same_liquidation_status,
}
use bckashbackend.Lending.Liquidation.{
  one_time, recurring, LiquidationFee, Catalogue, find_early_liquidation_fee,
}
use bckashbackend.Lending.Penalties.{Sweep, Swept, ms_per_day, sweep_account}

abbrev pub is_delay : ℕ → ℕ → DelayCharge → Bool
is_delay liquidation period c = c.liquidation_id == liquidation && c.period_index == period

abbrev raise_payable : ℕ → Liquidation → Liquidation
raise_payable amount q = record q { total_payable_kobo = q.total_payable_kobo + amount }

-- `applyLiquidationDelayCharge`
unfoldable pub apply_delay_charge : DelayCharge → ℕ → Books → Bool × Books
apply_delay_charge c branch b =
    if any (is_delay c.liquidation_id c.period_index) b.delay_charges then (false, b) else (
      true,
      record b {
        delay_charges = c ∷ b.delay_charges;
        liquidations = modify c.liquidation_id (raise_payable c.charge_amount_kobo) b.liquidations;
        postings =
            b.postings
            ++ delay_posting c.liquidation_id c.period_index c.charge_amount_kobo branch ∷ [];
      },
    )

-- Period 0 is the days 1 to the interval; the schema makes a recurring fee's interval positive.
unfoldable pub delay_period : LiquidationFee → ℕ → ℕ
delay_period fee days = (days - 1) / fee.recurrence_interval_days

abbrev pub reaches_cap : ℕ → Option ℕ → Bool
reaches_cap period none = false
reaches_cap period (some cap) = leb cap period

abbrev pub delay_terms : LiquidationFee → PenaltyTerms
delay_terms f = record {
  calc_type = f.fee.calc_type;
  value = f.fee.value;
  percentage_of = f.fee.percentage_of;
  grace_period_days = 0;
}

abbrev pub delay_amounts : Liquidation → Account → Amounts
delay_amounts q a = record {
  principal = some a.principal_amount_kobo;
  outstanding = some (or_else a.outstanding_balance_kobo 0);
  overdue_amount = some q.total_payable_kobo;
}

abbrev pub delay_of : ℕ → ℕ → ℕ → DelayCharge
delay_of id period amount = record {
  liquidation_id = id;
  period_index = period;
  charge_amount_kobo = amount;
}

-- The charge of a period that is below the cap and not there yet.
unfoldable pub charge_delay :
    ℕ → Liquidation → Account → Loan → LiquidationFee → ℕ → Swept → Result Swept
unfolding apply_delay_charge
charge_delay id q a l f period (sw, b) =
    if any (is_delay id period) b.delay_charges
    then ok (sw, b)
    else calculate_penalty_amount (delay_terms f) (delay_amounts q a) 1 >>= λ amount.
        if amount == 0
        then ok (sw, b)
        else let (applied, b') = apply_delay_charge (delay_of id period amount) l.branch_id b in
          if applied
          then ok (record sw { delay_charges_applied = sw.delay_charges_applied + 1 }, b')
          else ok (sw, b)

-- What follows the lookups of `sweepLiquidationDelayCharge`, for a recurring fee.
unfoldable pub sweep_delay :
    ℕ → Liquidation → Account → Loan → LiquidationFee → ℕ → Swept → Result Swept
unfolding charge_delay delay_period
sweep_delay id q a l f days (sw, b) =
    let period = delay_period f days in
    if ltb days 1
    then ok (sw, b)
    else if reaches_cap period f.max_recurrences
    then ok (record sw { liquidations_at_cap = sw.liquidations_at_cap ++ (id, period) ∷ [] }, b)
    else charge_delay id q a l f period (sw, b)

-- `sweepLiquidationDelayCharge`: an approval date in the future gives a negative number of days,
-- which is below 1 as 0 is.
unfoldable pub sweep_liquidation : Catalogue → ℕ → ℕ → Liquidation → Swept → Result Swept
unfolding sweep_delay
sweep_liquidation catalogue reference_date id q (sw, b) = elim q.approved_at [
  | none ↦ ok (sw, b)
  | some approved_at ↦ elim (find q.account_id b.accounts) [
    | none ↦ ok (sw, b)
    | some a ↦ elim (find a.loan_id b.loans) [
      | none ↦ ok (sw, b)
      | some l ↦ find_early_liquidation_fee catalogue l.product_id >>= λ f. elim f.frequency [
        | one_time ↦ ok (sw, b)
        | recurring ↦ sweep_delay id q a l f ((reference_date - approved_at) / ms_per_day) (sw, b)
      ]
    ]
  ]
]

unfoldable pub sweep_accounts : Catalogue → ℕ → Store Account → Swept → Result Swept
unfolding sweep_account
sweep_accounts c date [] state = ok state
sweep_accounts c date ((id, a) ∷ rest) state =
    sweep_account c date id a state >>= sweep_accounts c date rest

unfoldable pub sweep_liquidations : Catalogue → ℕ → Store Liquidation → Swept → Result Swept
unfolding sweep_liquidation
sweep_liquidations c date [] state = ok state
sweep_liquidations c date ((id, q) ∷ rest) state =
    sweep_liquidation c date id q state >>= sweep_liquidations c date rest

abbrev pub empty_sweep : Sweep
empty_sweep = record {
  penalty_charges_applied = 0;
  delay_charges_applied = 0;
  accounts_at_cap = [];
  liquidations_at_cap = [];
}

abbrev pub active_accounts : Store Account → Store Account
active_accounts =
    select (λ (e : ℕ × Account). same_account_status (e.1).status AccountStatus.active)

abbrev pub approved_liquidations : Store Liquidation → Store Liquidation
approved_liquidations =
    select
      (λ (e : ℕ × Liquidation). same_liquidation_status (e.1).status LiquidationStatus.approved)

-- `runDailySweep`: the active accounts, then the liquidations that are approved.
unfoldable pub run_daily_sweep : Catalogue → ℕ → Books → Result Swept
unfolding sweep_accounts sweep_liquidations
run_daily_sweep c date b =
    sweep_accounts c date (active_accounts b.accounts) (empty_sweep, b) >>= λ state.
    sweep_liquidations c date (approved_liquidations (state.1).liquidations) state
