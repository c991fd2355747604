-- ===== src/Lending/Tests.antt =====
-- Runs of the lending services on small books (src/modules/repayments, src/modules/loans).
use bckashbackend.Common.{
  ◌+◌, ◌-◌, ◌<◌, inl, inr, sym, ℕ, ◌*◌, ◌≤◌, ◌≡◌, ◌⊎◌, refl, true, false, none, some, [], ◌∷◌, ok,
  arith,
}
use bckashbackend.Common.Store.{find}
use bckashbackend.Workflow.Types.{EventBase}
use bckashbackend.Calc.Rounding.{basis_points}
use bckashbackend.Calc.Charges.{calculate_penalty_amount, Basis, fixed, percentage}
use bckashbackend.Lending.State.{
  Loan, LoanStatus, Account, AccountStatus, Channel, Repayment, RepaymentStatus, Liquidation,
  LiquidationStatus, penalty_posting, delay_posting, Books,
}
use bckashbackend.Lending.Completion.{sync_completion_status}
use bckashbackend.Lending.Balance.{apply_to_balance, reverse_balance}
use bckashbackend.Lending.Repayments.{
  RecordRepayment, max_allowed, record_repayment, handle_repayment_approved, raise_dispute,
  repayment_record, repayment_record_action, repayment_event,
}
use bckashbackend.Lending.Liquidation.{find_early_liquidation_fee, Catalogue, recurring}
use bckashbackend.Lending.Penalties.{Sweep}
use bckashbackend.Lending.DelayCharges.{run_daily_sweep}
use bckashbackend.Lending.Settlement.{reverse_balance-apply_to_balance}
use bckashbackend.Lending.Stale.{stale_overpayment}
use bckashbackend.Lending.Resync.{Synced, Settled, sync_completion_status-status}
use bckashbackend.Lending.Recording.{
  Asks, Recorded, record_repayment-Recorded, max_allowed-covers, apply_to_balance_idem,
}
use bckashbackend.Lending.Disputes.{approval_over_dispute}
use bckashbackend.Lending.Sound.{IsSound}
use bckashbackend.Lending.Reach.{sweep_call, start, next, Reachable-IsSound}
use bckashbackend.Lending.Sweep.Posted.{HasPosted, run_daily_sweep-posted}
use bckashbackend.Lending.Sweep.Charges.{
  HasUniqueCharges, HasGrown, run_daily_sweep_unique, run_daily_sweep-grown,
}

abbrev day : ℕ → ℕ
day n = n * 86400000

abbrev loan : Loan
loan = record {
  branch_id = 3;
  product_id = 4;
  tenure_days = 14;
  cumulative_amount_kobo = 10000;
  status = LoanStatus.disbursed;
  raised_by = 5;
}

abbrev account : Account
account = record {
  loan_id = 1;
  customer_id = 6;
  principal_amount_kobo = 10000;
  disbursement_channel = Channel.transfer;
  schedule =
      record { installment_number = 1; due_date = day 10; total_due = 5000 }
      ∷ record { installment_number = 2; due_date = day 17; total_due = 5000 }
      ∷ [];
  outstanding_balance_kobo = some 10000;
  status = AccountStatus.active;
}

abbrev liquidation : Liquidation
liquidation = record {
  account_id = 0;
  outstanding_balance_at_request_kobo = 10000;
  liquidation_fee_kobo = 150;
  total_payable_kobo = 10150;
  status = LiquidationStatus.approved;
  requested_by = 5;
  approved_at = some (day 12);
  linked_repayment_record_id = none;
}

abbrev books : Books
books = record {
  loans = (1, loan) ∷ [];
  accounts = (0, account) ∷ [];
  repayments = [];
  liquidations = (0, liquidation) ∷ [];
  penalties = [];
  delay_charges = [];
  bank_accounts = 2 ∷ [];
  postings = [];
}

-- A penalty of 100 kobo a day after two days of grace, and a delay fee of 1 % every two days.
abbrev catalogue : Catalogue
catalogue = record {
  fee_ids = λ product. ok (8 ∷ []);
  penalty_rule = λ product. ok (record {
    terms = record { calc_type = fixed; value = 100; percentage_of = none; grace_period_days = 2 };
    frequency = recurring;
    recurrence_interval_days = 1;
    max_recurrences = none;
  });
  liquidation_fees =
      (
        8,
        record {
          fee = record {
            calc_type = percentage;
            value = 100;
            percentage_of = some Basis.outstanding;
          };
          frequency = recurring;
          recurrence_interval_days = 2;
          max_recurrences = some 3;
        },
      )
      ∷ [];
}

-- The first installment is five days late, and the liquidation three days old.
abbrev swept : Books
swept = record books {
  accounts = (0, record account { outstanding_balance_kobo = some 10100 }) ∷ [];
  liquidations = (0, record liquidation { total_payable_kobo = 10251 }) ∷ [];
  penalties =
      record {
        account_id = 0;
        installment_number = 1;
        period_index = 3;
        overdue_amount_kobo = 5000;
        days_late = 5;
        penalty_amount_kobo = 100;
      }
      ∷ [];
  delay_charges = record { liquidation_id = 0; period_index = 1; charge_amount_kobo = 101 } ∷ [];
  postings = penalty_posting 0 1 3 100 3 ∷ delay_posting 0 1 101 3 ∷ [];
}

abbrev counts : Sweep
counts = record {
  penalty_charges_applied = 1;
  delay_charges_applied = 1;
  accounts_at_cap = [];
  liquidations_at_cap = [];
}

sweep_returns : run_daily_sweep catalogue (day 15) books ≡ ok (counts, swept)
unfolding run_daily_sweep calculate_penalty_amount find_early_liquidation_fee basis_points
sweep_returns = refl

sweep_unique_example : HasUniqueCharges swept
sweep_unique_example =
    run_daily_sweep_unique catalogue (day 15) books swept counts
      (record { penalties_unique = tt; delays_unique = tt }) sweep_returns

sweep_grown_example : HasGrown 0 books account swept
sweep_grown_example =
    run_daily_sweep-grown catalogue (day 15) books swept counts 0 account refl sweep_returns

sweep_posted_example : HasPosted books swept
sweep_posted_example = run_daily_sweep-posted catalogue (day 15) books swept counts sweep_returns

abbrev request : RecordRepayment
request = record {
  account_id = 0;
  branch_bank_account_id = 2;
  transaction_reference = 77;
  amount_kobo = 4000;
}

recorded_example : Recorded 0 request books (record_repayment 0 request 5 books)
recorded_example = record_repayment-Recorded 0 request 5 books

-- Another liquidation of the account is only asked for.
abbrev liquidating : Books
liquidating = record books {
  liquidations =
      (
        5,
        record liquidation {
          status = LiquidationStatus.pending_approval;
          total_payable_kobo = 90000;
        },
      )
      ∷ (0, liquidation)
      ∷ [];
}

only_asked : (other : ℕ) → Asks 0 other liquidating.liquidations → other ≡ 10150
only_asked other (inl (same, approved, total)) = cc
only_asked other (inr (inl (same, approved, total))) = sym total
only_asked other (inr (inr never)) = absurd never

covers_example :
    (10000 ≤ max_allowed 0 account liquidating)
    × (10150 ≤ max_allowed 0 account liquidating)
    × ((max_allowed 0 account liquidating ≡ 10000) ⊎ (max_allowed 0 account liquidating ≡ 10150))
covers_example =
    max_allowed-covers 0 10150 account liquidating (inr (inl (refl, refl, refl))) only_asked

abbrev repayment : Repayment
repayment = record {
  loan_id = 1;
  account_id = 0;
  branch_id = 3;
  branch_bank_account_id = 2;
  transaction_reference = 77;
  amount_kobo = 4000;
  recorded_by = 5;
  status = RepaymentStatus.pending;
  applied_to_balance = false;
  overpayment_amount_kobo = none;
  dispute_details = none;
  linked_liquidation_request_id = none;
}

abbrev recorded : Books
recorded = record books { repayments = (0, repayment) ∷ [] }

idem_example :
    (apply_to_balance 0 (apply_to_balance 0 recorded).1).1 ≡ (apply_to_balance 0 recorded).1
idem_example = apply_to_balance_idem 0 recorded

reverse_example : find 0 (reverse_balance 0 (apply_to_balance 0 recorded).1).accounts ≡ some account
reverse_example =
    reverse_balance-apply_to_balance 0 recorded repayment account 10000 refl refl refl refl
      (omega arith) refl refl refl (omega arith)

-- A repayment of 4000 kobo to a balance of 1000, and again once the balance has grown to 6000.
abbrev small : Books
small = record recorded {
  accounts = (0, record account { outstanding_balance_kobo = some 1000 }) ∷ [];
}

abbrev grown : Books
grown = record (reverse_balance 0 (apply_to_balance 0 small).1) {
  accounts = (0, record account { outstanding_balance_kobo = some 6000 }) ∷ [];
}

stale_example :
    (q : Account) × (find 0 (reverse_balance 0 (apply_to_balance 0 grown).1).accounts ≡ some q)
    × (q.outstanding_balance_kobo ≡ some (1000 + (6000 - 4000)))
    × (1000 + (6000 - 4000) < 6000)
stale_example =
    stale_overpayment 0 1000 6000 small grown repayment
      (record account { outstanding_balance_kobo = some 1000 })
      (record account { outstanding_balance_kobo = some 6000 }) refl refl refl refl refl
      (omega arith) refl refl refl (omega arith)

resync_example :
    (s : LoanStatus) × (find 1 (sync_completion_status 1 books).loans
      ≡ some (record loan { status = s }))
    × Synced (Settled 1 books.accounts) LoanStatus.disbursed s
    × (find 2 (sync_completion_status 1 books).loans ≡ find 2 books.loans)
    × ((sync_completion_status 1 books).accounts ≡ books.accounts)
resync_example = sync_completion_status-status 1 2 books loan refl (omega arith)

abbrev approval_event : EventBase
approval_event = record {
  workflow_request_id = 0;
  entity_type = repayment_record;
  entity_id = some 0;
  action = repayment_record_action;
  branch_id = some 3;
}

dispute_example :
    (q : Repayment) × (find 0
        (handle_repayment_approved approval_event (raise_dispute 0 9 1 500 recorded).1).1.repayments
      ≡ some q)
    × (q.status ≡ RepaymentStatus.approved)
    × (q.applied_to_balance ≡ true)
    × (q.dispute_details
        ≡ some (record {
          raised_by = 9;
          reason = 1;
          raised_at = 500;
          resolution = none;
          resolved_by = none;
          note = none;
        }))
unfolding repayment_event
dispute_example =
    approval_over_dispute 0 9 1 500 approval_event recorded repayment account refl refl refl refl
      refl

IsSound-example : IsSound swept
IsSound-example =
    Reachable-IsSound
      (next (start books refl refl refl) (sweep_call catalogue (day 15) counts swept sweep_returns))
