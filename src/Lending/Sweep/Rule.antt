-- ===== src/Lending/Sweep/Rule.antt =====
-- The rule for the daily sweep: what each charge keeps, the whole sweep keeps.
use bckashbackend.Common.{
  if_keeps, ℕ, ◌+◌, ◌-◌, ◌/◌, inl, inr, List, [], ◌∷◌, ◌==◌, ltb, leb, or_else, any, Result, ok,
  err, ◌>>=◌, Bool-cases, Option-cases, ◌&&◌,
}
use bckashbackend.Common.Store.{Store, find}
use bckashbackend.Calc.Charges.{calculate_penalty_amount}
use bckashbackend.Lending.State.{
  Loan, Account, ScheduleEntry, Liquidation, PenaltyCharge, DelayCharge, Books,
}
use bckashbackend.Lending.Liquidation.{
  Frequency, one_time, recurring, LiquidationFee, Catalogue, find_early_liquidation_fee,
}
use bckashbackend.Lending.Penalties.{
  Sweep, Swept, Running, AccountSweep, amounts_of, charge_of, apply_penalty_charge,
  charge_installment, sweep_due, is_unpaid, sweep_schedule, sweep_account, account_sweep,
  ms_per_day, period_of, at_cap,
}
use bckashbackend.Lending.DelayCharges.{
  apply_delay_charge, charge_delay, sweep_delay, sweep_liquidation, sweep_accounts,
  sweep_liquidations, run_daily_sweep, is_delay, delay_terms, delay_amounts, delay_of, empty_sweep,
  active_accounts, approved_liquidations, delay_period, reaches_cap,
}
use bckashbackend.Common.Entries.{EachAt, select-EachAt}
use bckashbackend.Lending.Sweep.Traced.{
  IsBranchOf, IsBranchOfLiquidation, HadAccount, HadLiquidation, IsTraced, IsTraced-refl,
  account_branch, liquidation_branch, penalty-IsTraced, delay-IsTraced,
}

-- A postcondition on the result of a sweep; a sweep that throws has none.
abbrev pub Ensures : {A : Type 0} → (A → Type 0) → Result A → Type 0
Ensures P (ok a) = P a
Ensures P (err x) = Unit

pub Ensures-bind :
    {A B : Type 0} (P : A → Type 0) (Q : B → Type 0) (m : Result A) (f : A → Result B)
    → Ensures P m
    → ((a : A) → P a → Ensures Q (f a))
    → Ensures Q (m >>= f)
Ensures-bind P Q (ok a) f h k = k a h
Ensures-bind P Q (err x) f h k = tt

Ensures-weaken :
    {A : Type 0} (P Q : A → Type 0) (m : Result A)
    → ((a : A) → P a → Q a)
    → Ensures P m
    → Ensures Q m
Ensures-weaken P Q (ok a) f h = f a h
Ensures-weaken P Q (err x) f h = tt

-- The same where nothing is known of what is bound.
pub Ensures-each :
    {A B : Type 0} (Q : B → Type 0) (m : Result A) (f : A → Result B)
    → ((a : A) → Ensures Q (f a))
    → Ensures Q (m >>= f)
Ensures-each Q (ok a) f k = k a
Ensures-each Q (err x) f k = tt

module _ (b₀ : Books) (P : Books → Type 0)
    (keep_penalty : (c : PenaltyCharge) (branch : ℕ) (b : Books)
      → IsBranchOf b₀ c.account_id branch
      → P b
      → P (apply_penalty_charge c branch b).1)
    (keep_delay : (c : DelayCharge) (branch : ℕ) (b : Books)
      → IsBranchOfLiquidation b₀ c.liquidation_id branch
      → P b
      → P (apply_delay_charge c branch b).1) where
  abbrev Q : Books → Type 0
  Q b = P b × IsTraced b₀ b

  abbrev Good : Swept → Type 0
  Good (sw, b) = Q b

  abbrev Fine : Running → Type 0
  Fine (balance, (sw, b)) = Q b

  step_penalty :
      (c : PenaltyCharge) (branch : ℕ) (b : Books)
      → IsBranchOf b₀ c.account_id branch
      → Q b
      → Q (apply_penalty_charge c branch b).1
  step_penalty c branch b of h =
      (keep_penalty c branch b of h.0, penalty-IsTraced b₀ c branch b h.1)

  step_delay :
      (c : DelayCharge) (branch : ℕ) (b : Books)
      → IsBranchOfLiquidation b₀ c.liquidation_id branch
      → Q b
      → Q (apply_delay_charge c branch b).1
  step_delay c branch b of h = (keep_delay c branch b of h.0, delay-IsTraced b₀ c branch b h.1)

  charge_installment-keeps :
      (s : AccountSweep) (e : ScheduleEntry) (days period balance : ℕ) (sw : Sweep) (b : Books)
      → IsBranchOf b₀ s.account_id s.branch_id
      → Q b
      → Ensures Fine (charge_installment s e days period (balance, (sw, b)))
  unfolding charge_installment
  charge_installment-keeps s e days period balance sw b of h =
      if_keeps (Ensures Fine)
        (any
          (λ (c : PenaltyCharge).
            c.installment_number == e.installment_number && c.period_index == period)
          s.existing)
        (λ _. h)
        λ _.
          Ensures-each Fine (calculate_penalty_amount s.rule.terms (amounts_of s e balance) days) _
            λ amount.
              if_keeps (Ensures Fine) (amount == 0) (λ _. h)
                λ _.
                  if_keeps (Ensures Fine)
                    (apply_penalty_charge (charge_of s e period days amount) s.branch_id b).0
                    (λ _. step_penalty (charge_of s e period days amount) s.branch_id b of h)
                    (λ _. h)

  sweep_due-keeps :
      (s : AccountSweep) (e : ScheduleEntry) (balance : ℕ) (sw : Sweep) (b : Books)
      → IsBranchOf b₀ s.account_id s.branch_id
      → Q b
      → Ensures Fine (sweep_due s e (balance, (sw, b)))
  unfolding sweep_due
  sweep_due-keeps s e balance sw b of h =
      let days = (s.reference_date - e.due_date) / ms_per_day in
      let period = period_of s.rule s.grace days in
      if_keeps (Ensures Fine) (leb days s.grace) (λ _. h)
        λ _.
          if_keeps (Ensures Fine) (at_cap s.rule period) (λ _. h)
            λ _. charge_installment-keeps s e days period balance sw b of h

  sweep_schedule-keeps :
      (s : AccountSweep) (due : ℕ) (es : List ScheduleEntry) (run : Running)
      → IsBranchOf b₀ s.account_id s.branch_id
      → Fine run
      → Ensures Fine (sweep_schedule s due es run)
  unfolding sweep_schedule
  sweep_schedule-keeps s due [] run of h = h
  sweep_schedule-keeps s due (e ∷ es) (balance, (sw, b)) of h =
      elim (Bool-cases (is_unpaid s (due + e.total_due))) [
        | inl unpaid ↦ elim (Bool-cases (ltb s.reference_date e.due_date)) [
          | inl later ↦ rw (unpaid, sweep_schedule) (rw (later, sweep_schedule) h)
          | inr now ↦
              rw (unpaid, sweep_schedule)
                (rw (now, sweep_schedule)
                  (Ensures-bind Fine Fine (sweep_due s e (balance, (sw, b))) _
                    (sweep_due-keeps s e balance sw b of h)
                    (λ run k. sweep_schedule-keeps s (due + e.total_due) es run of k)))
        ]
        | inr paid ↦
            rw (paid, sweep_schedule)
              (sweep_schedule-keeps s (due + e.total_due) es (balance, (sw, b)) of h)
      ]

  sweep_account-keeps :
      (c : Catalogue) (date id : ℕ) (a : Account) (sw : Sweep) (b : Books)
      → HadAccount b₀ id a
      → Q b
      → Ensures Good (sweep_account c date id a (sw, b))
  unfolding sweep_account account_sweep
  sweep_account-keeps c date id a sw b had h = elim (Option-cases (find a.loan_id b.loans)) [
    | inl missing ↦ rw (missing, sweep_account) h
    | inr (l, found) ↦
        rw (found, sweep_account)
          (Ensures-each Good (c.penalty_rule l.product_id) _ (λ rule.
            let s = account_sweep id a l rule date b in
            let run : Running = (or_else a.outstanding_balance_kobo 0, (sw, b)) in
            Ensures-bind Fine Good (sweep_schedule s 0 a.schedule run) (λ after. ok after.1)
              (sweep_schedule-keeps s 0 a.schedule run (account_branch b₀ b id a l h.1 had found) h)
              (λ after k. k)))
  ]

  charge_delay-keeps :
      (id : ℕ) (q : Liquidation) (a : Account) (l : Loan) (f : LiquidationFee) (period : ℕ)
      (sw : Sweep) (b : Books)
      → IsBranchOfLiquidation b₀ id l.branch_id
      → Q b
      → Ensures Good (charge_delay id q a l f period (sw, b))
  unfolding charge_delay
  charge_delay-keeps id q a l f period sw b of h =
      if_keeps (Ensures Good) (any (is_delay id period) b.delay_charges) (λ _. h)
        λ _.
          Ensures-each Good (calculate_penalty_amount (delay_terms f) (delay_amounts q a) 1) _
            λ amount.
              if_keeps (Ensures Good) (amount == 0) (λ _. h)
                λ _.
                  if_keeps (Ensures Good)
                    (apply_delay_charge (delay_of id period amount) l.branch_id b).0
                    (λ _. step_delay (delay_of id period amount) l.branch_id b of h) (λ _. h)

  sweep_delay-keeps :
      (id : ℕ) (q : Liquidation) (a : Account) (l : Loan) (f : LiquidationFee) (days : ℕ)
      (sw : Sweep) (b : Books)
      → IsBranchOfLiquidation b₀ id l.branch_id
      → Q b
      → Ensures Good (sweep_delay id q a l f days (sw, b))
  unfolding sweep_delay
  sweep_delay-keeps id q a l f days sw b of h =
      if_keeps (Ensures Good) (ltb days 1) (λ _. h)
        λ _.
          if_keeps (Ensures Good) (reaches_cap (delay_period f days) f.max_recurrences) (λ _. h)
            λ _. charge_delay-keeps id q a l f (delay_period f days) sw b of h

  by_frequency :
      (fr : Frequency) (sw : Sweep) (b : Books) (m : Result Swept)
      → Q b
      → Ensures Good m
      → Ensures Good (elim fr [ one_time ↦ ok (sw, b) | recurring ↦ m ])
  by_frequency one_time sw b m h k = h
  by_frequency recurring sw b m h k = k

  sweep_liquidation-keeps :
      (c : Catalogue) (date id : ℕ) (q : Liquidation) (sw : Sweep) (b : Books)
      → HadLiquidation b₀ id q
      → Q b
      → Ensures Good (sweep_liquidation c date id q (sw, b))
  unfolding sweep_liquidation
  sweep_liquidation-keeps c date id q sw b had h = elim (Option-cases q.approved_at) [
    | inl never ↦ rw (never, sweep_liquidation) h
    | inr (at, approved) ↦ elim (Option-cases (find q.account_id b.accounts)) [
      | inl missing ↦ rw (approved, sweep_liquidation) (rw (missing, sweep_liquidation) h)
      | inr (a, found) ↦ elim (Option-cases (find a.loan_id b.loans)) [
        | inl missing ↦
            rw (approved, sweep_liquidation)
              (rw (found, sweep_liquidation) (rw (missing, sweep_liquidation) h))
        | inr (l, found') ↦
            rw (approved, sweep_liquidation)
              (rw (found, sweep_liquidation)
                (rw (found', sweep_liquidation)
                  (Ensures-each Good (find_early_liquidation_fee c l.product_id) _ (λ f.
                    by_frequency f.frequency sw b _ h (
                      sweep_delay-keeps id q a l f ((date - at) / ms_per_day) sw b
                        (liquidation_branch b₀ b id q a l h.1 had found found') h)))))
      ]
    ]
  ]

  sweep_accounts-keeps :
      (c : Catalogue) (date : ℕ) (es : Store Account) (state : Swept)
      → EachAt (HadAccount b₀) es
      → Good state
      → Ensures Good (sweep_accounts c date es state)
  unfolding sweep_accounts
  sweep_accounts-keeps c date [] state hads h = h
  sweep_accounts-keeps c date ((id, a) ∷ es) (sw, b) hads h =
      Ensures-bind Good Good (sweep_account c date id a (sw, b)) _
        (sweep_account-keeps c date id a sw b hads.0 h)
        (λ state k. sweep_accounts-keeps c date es state hads.1 k)

  sweep_liquidations-keeps :
      (c : Catalogue) (date : ℕ) (qs : Store Liquidation) (state : Swept)
      → EachAt (HadLiquidation b₀) qs
      → Good state
      → Ensures Good (sweep_liquidations c date qs state)
  unfolding sweep_liquidations
  sweep_liquidations-keeps c date [] state hads h = h
  sweep_liquidations-keeps c date ((id, q) ∷ qs) (sw, b) hads h =
      Ensures-bind Good Good (sweep_liquidation c date id q (sw, b)) _
        (sweep_liquidation-keeps c date id q sw b hads.0 h)
        (λ state k. sweep_liquidations-keeps c date qs state hads.1 k)

  -- What every charge keeps, the daily sweep of the first books keeps. A charge is of the branch of the loan
  -- that it is for.
  pub run_daily_sweep-keeps :
      (c : Catalogue) (date : ℕ) → P b₀ → Ensures (λ (s : Swept). P s.1) (run_daily_sweep c date b₀)
  unfolding run_daily_sweep
  run_daily_sweep-keeps c date h =
      let actives = active_accounts b₀.accounts in
      let start = IsTraced-refl b₀ in
      let hads = select-EachAt (HadAccount b₀) _ b₀.accounts start.accounts_had in
      Ensures-bind Good (λ (s : Swept). P s.1) (sweep_accounts c date actives (empty_sweep, b₀)) _
        (sweep_accounts-keeps c date actives (empty_sweep, b₀) hads (h, start))
        (λ state k.
          let hads' =
            select-EachAt (HadLiquidation b₀) _ (state.1).liquidations (k.1).liquidations_had in
          Ensures-weaken Good (λ (s : Swept). P s.1) _ (λ s g. g.0)
            (sweep_liquidations-keeps c date (approved_liquidations (state.1).liquidations) state
              hads' k))
