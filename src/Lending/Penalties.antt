-- ===== src/Lending/Penalties.antt =====
-- `PenaltySweepService` (src/modules/repayments/penalty-sweep.service.ts). Each transaction is one
-- step, and no other sweep runs in between. Dates are milliseconds.
use bckashbackend.Common.{
  ℕ, ◌+◌, ◌-◌, ◌/◌, Bool, true, false, ◌&&◌, Option, none, some, List, [], ◌∷◌, ◌++◌, select,
  sum_by, any, ◌==◌, if◌then◌else◌, ltb, leb, or_else, Result, ok, ◌>>=◌,
}
use bckashbackend.Common.Store.{find, modify}
use bckashbackend.Calc.Charges.{Amounts, calculate_penalty_amount}
use bckashbackend.Lending.State.{
  Loan, Account, Channel, ScheduleEntry, PenaltyCharge, penalty_posting, Books,
}
use bckashbackend.Lending.Liquidation.{one_time, recurring, PenaltyRule, Catalogue}

abbrev pub ms_per_day : ℕ
ms_per_day = 86400000

abbrev pub cheque_pickup_buffer_days : ℕ
cheque_pickup_buffer_days = 6

pub record Sweep : Type 0 where
  pub penalty_charges_applied : ℕ
  pub delay_charges_applied : ℕ
  -- account, installment, period
  pub accounts_at_cap : List (ℕ × ℕ × ℕ)
  -- liquidation, period
  pub liquidations_at_cap : List (ℕ × ℕ)

abbrev pub Swept : Type 0
Swept = Sweep × Books

unfoldable pub effective_grace : PenaltyRule → Channel → ℕ
effective_grace rule Channel.transfer = rule.terms.grace_period_days + 0
effective_grace rule Channel.cheque_pickup =
    rule.terms.grace_period_days + cheque_pickup_buffer_days

-- The period of a day beyond the grace; the schema makes the interval of a recurring rule positive.
unfoldable pub period_of : PenaltyRule → ℕ → ℕ → ℕ
period_of rule grace days_late = elim rule.frequency [
  | recurring ↦ (days_late - grace) / rule.recurrence_interval_days
  | one_time ↦ 0
]

abbrev reaches : ℕ → Option ℕ → Bool
reaches period none = false
reaches period (some cap) = leb cap period

unfoldable pub at_cap : PenaltyRule → ℕ → Bool
at_cap rule period = elim rule.frequency [
  | recurring ↦ reaches period rule.max_recurrences
  | one_time ↦ false
]

-- The key of the unique index.
abbrev pub is_charge : ℕ → ℕ → ℕ → PenaltyCharge → Bool
is_charge account installment period c =
    c.account_id == account && c.installment_number == installment && c.period_index == period

-- `$inc`. An account with no balance yet is never charged: nothing of its schedule is unpaid.
unfoldable pub raise_balance : ℕ → Account → Account
raise_balance amount a = record a {
  outstanding_balance_kobo = some (or_else a.outstanding_balance_kobo 0 + amount);
}

-- `applyPenaltyCharge`: nothing if the charge exists; else the charge, the raised balance and the
-- posting.
unfoldable pub apply_penalty_charge : PenaltyCharge → ℕ → Books → Bool × Books
unfolding raise_balance
apply_penalty_charge c branch b =
    if any (is_charge c.account_id c.installment_number c.period_index) b.penalties
    then (false, b)
    else (
      true,
      record b {
        penalties = c ∷ b.penalties;
        accounts = modify c.account_id (raise_balance c.penalty_amount_kobo) b.accounts;
        postings =
            b.postings
            ++ penalty_posting c.account_id c.installment_number c.period_index
                c.penalty_amount_kobo branch
              ∷ [];
      },
    )

-- What the loop over the installments of one account reads and does not change.
pub record AccountSweep : Type 0 where
  pub account_id : ℕ
  pub account : Account
  pub branch_id : ℕ
  pub rule : PenaltyRule
  pub grace : ℕ
  pub existing : List PenaltyCharge
  pub reference_date : ℕ

unfoldable pub charged_kobo : List PenaltyCharge → ℕ
charged_kobo = sum_by (λ (c : PenaltyCharge). c.penalty_amount_kobo)

unfoldable pub scheduled_kobo : List ScheduleEntry → ℕ
scheduled_kobo = sum_by (λ (e : ScheduleEntry). e.total_due)

-- `cumulativeDue > totalOriginalScheduledKobo + totalPenaltiesChargedKobo - outstanding`, with the
-- difference, which may be negative, brought to the other side.
unfoldable pub is_unpaid : AccountSweep → ℕ → Bool
unfolding charged_kobo scheduled_kobo
is_unpaid s cumulative_due =
    ltb (scheduled_kobo s.account.schedule + charged_kobo s.existing)
      (cumulative_due + or_else s.account.outstanding_balance_kobo 0)

-- The running values of the loop: the balance as raised so far, the count, and the books.
abbrev pub Running : Type 0
Running = ℕ × Swept

abbrev pub amounts_of : AccountSweep → ScheduleEntry → ℕ → Amounts
amounts_of s e balance = record {
  principal = some s.account.principal_amount_kobo;
  outstanding = some balance;
  overdue_amount = some e.total_due;
}

unfoldable pub charge_of : AccountSweep → ScheduleEntry → ℕ → ℕ → ℕ → PenaltyCharge
charge_of s e period days_late amount = record {
  account_id = s.account_id;
  installment_number = e.installment_number;
  period_index = period;
  overdue_amount_kobo = e.total_due;
  days_late = days_late;
  penalty_amount_kobo = amount;
}

-- The charge of one late installment, if it was not there at the start of this account's sweep.
unfoldable pub charge_installment :
    AccountSweep → ScheduleEntry → (days_late period : ℕ) → Running → Result Running
unfolding apply_penalty_charge charge_of
charge_installment s e days_late period (balance, (sw, b)) =
    if any
      (λ (c : PenaltyCharge).
        c.installment_number == e.installment_number && c.period_index == period)
      s.existing
    then ok (balance, (sw, b))
    else calculate_penalty_amount s.rule.terms (amounts_of s e balance) days_late >>= λ amount.
        if amount == 0
        then ok (balance, (sw, b))
        else let (applied, b') =
            apply_penalty_charge (charge_of s e period days_late amount) s.branch_id b in
          if applied
          then ok (
            balance + amount,
            (record sw { penalty_charges_applied = sw.penalty_charges_applied + 1 }, b'),
          )
          else ok (balance, (sw, b))

-- One unpaid installment that is due.
unfoldable pub sweep_due : AccountSweep → ScheduleEntry → Running → Result Running
unfolding charge_installment period_of at_cap
sweep_due s e (balance, (sw, b)) =
    let days_late = (s.reference_date - e.due_date) / ms_per_day in
    let period = period_of s.rule s.grace days_late in
    if leb days_late s.grace
    then ok (balance, (sw, b))
    else if at_cap s.rule period
    then ok (
      balance,
      (
        record sw {
          accounts_at_cap = sw.accounts_at_cap ++ (s.account_id, e.installment_number, period) ∷ [];
        },
        b,
      ),
    )
    else charge_installment s e days_late period (balance, (sw, b))

-- The loop over the schedule: `continue` on a paid installment, `break` at one not yet due.
unfoldable pub sweep_schedule : AccountSweep → ℕ → List ScheduleEntry → Running → Result Running
unfolding sweep_due is_unpaid
sweep_schedule s cumulative_due [] run = ok run
sweep_schedule s cumulative_due (e ∷ es) run =
    let due = cumulative_due + e.total_due in
    elim (is_unpaid s due) [
      | false ↦ sweep_schedule s due es run
      | true ↦ elim (ltb s.reference_date e.due_date) [
        | true ↦ ok run
        | false ↦ sweep_due s e run >>= sweep_schedule s due es
      ]
    ]

unfoldable pub account_sweep : ℕ → Account → Loan → PenaltyRule → ℕ → Books → AccountSweep
unfolding effective_grace
account_sweep id a l rule reference_date b = record {
  account_id = id;
  account = a;
  branch_id = l.branch_id;
  rule = rule;
  grace = effective_grace rule a.disbursement_channel;
  existing = select (λ (c : PenaltyCharge). c.account_id == id) b.penalties;
  reference_date = reference_date;
}

-- `sweepAccountPenalties`
unfoldable pub sweep_account : Catalogue → ℕ → ℕ → Account → Swept → Result Swept
unfolding sweep_schedule account_sweep
sweep_account catalogue reference_date id a (sw, b) = elim (find a.loan_id b.loans) [
  | none ↦ ok (sw, b)
  | some l ↦ catalogue.penalty_rule l.product_id >>= λ rule.
      sweep_schedule (account_sweep id a l rule reference_date b) 0 a.schedule
        (or_else a.outstanding_balance_kobo 0, (sw, b))
      >>= λ run. ok run.1
]
