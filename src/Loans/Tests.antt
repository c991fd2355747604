-- ===== src/Loans/Tests.antt =====
-- Runs of the loan services (src/modules/loans).
use bckashbackend.Common.{
  ◌*◌, ℕ, ◌+◌, ◌≤◌, ◌<◌, ◌≡◌, ◌⊎◌, refl, true, none, some, List, [], ◌∷◌, length, ok, err,
  not_found, arith,
}
use bckashbackend.Common.Int.{pos, ◌+ℤ◌}
use bckashbackend.Common.Store.{find}
use bckashbackend.Calc.Rounding.{basis_points}
use bckashbackend.Lending.State.{Channel}
use bckashbackend.Loans.State.{Loan, Row}
use bckashbackend.Loans.Schedule.{schedule_of, installment_count, total_interest}
use bckashbackend.Loans.Schedule.Dates.{Rising, schedule_of-Rising}
use bckashbackend.Loans.Schedule.Sums.{Chained, total_due, flat_schedule-Chained}
use bckashbackend.Loans.Disbursement.{check_and_disburse}
use bckashbackend.Loans.Consent.{Challenge, attempt, max_attempts}
use bckashbackend.Loans.Consent.Attempts.{wrong, accepted, attempt_limits}
use bckashbackend.Loans.Applications.{Services, Ids, RaiseInput, Desk, raise_application}
use bckashbackend.Loans.Applications.Single.{open_accounts, raise_application_single}
use bckashbackend.Loans.Moves.{Moves}
use bckashbackend.Loans.Reach.{disburse_call, Call-Moves}
use bckashbackend.Loans.Samples.{floats, weekly, products, loan, files}

Rising-example :
    (rows : List Row) × (schedule_of floats weekly 30 1000 100 ≡ ok rows)
    × (30 ≤ length rows * 7)
    × (length rows * 7 < 30 + 7)
    × Rising 100 rows (100 + 30)
Rising-example = schedule_of-Rising floats weekly 29 1000 100 6 refl

Chained-example :
    (rows : List Row) × (schedule_of floats weekly 30 1000 100 ≡ ok rows)
    × Chained (pos 1000) rows (pos 0)
    × (total_interest rows ≡ pos (basis_points 1000 1000))
    × (total_due rows ≡ pos 1000 +ℤ total_interest rows)
unfolding installment_count
Chained-example = flat_schedule-Chained floats weekly 30 1000 100 4 refl refl

abbrev challenge : Challenge
challenge = record {
  customer_id = 7;
  requested_by = 9;
  code_hash = 1234;
  attempt_count = 0;
  expires_at = 600000;
  consumed_at = none;
}

abbrev guesses : List (ℕ × ℕ)
guesses = (1, 10) ∷ (2, 20) ∷ (3, 30) ∷ []

limits_example :
    (wrong (λ n. n) guesses challenge < max_attempts) × (accepted (λ n. n) guesses challenge ≡ 0)
unfolding attempt
limits_example = attempt_limits (λ n. n) guesses 1234 40 7 challenge refl refl

abbrev services : Services
services = record {
  groups = record {
    find_by_id = λ g. ok 3;
    is_eligible = λ g. ok true;
    active_members = λ g. ok (7 ∷ 8 ∷ []);
  };
  products = products;
  fee_definition = λ id. err not_found;
  hash = λ n. n;
  payload = λ id l. "{}";
}

abbrev application : RaiseInput
application = record {
  group_id = 1;
  product_id = 1;
  tenure_days = 30;
  requests =
      record {
        customer_id = 7;
        requested_amount_kobo = 1000;
        disbursement_channel = Channel.cheque_pickup;
        bank_account_details = none;
      }
      ∷ [];
  raised_by = 9;
  consent_challenge_id = 2;
  consent_code = 1234;
  purpose = none;
}

abbrev desk : Desk
desk = record {
  files = record files { loans = []; accounts = [] };
  challenges = (2, challenge) ∷ [];
  till = record { payments = []; postings = [] };
  engine = record { chains = []; requests = []; audit = []; events = [] };
}

abbrev ids : Ids
ids = record { loan = 5; first_account = 6; request = 11 }

single_example :
    open_accounts 7 (raise_application services ids application 50 desk).1.files.accounts ≤ 1
unfolding open_accounts
single_example = raise_application_single services ids application 50 desk (λ c. omega arith) 7

Moves-example :
    (let f' = (check_and_disburse floats products 5 100 files).1 in
      (find 5 f'.loans ≡ none)
      ⊎ ((l' : Loan) × (find 5 f'.loans ≡ some l') × Moves loan.status l'.status))
Moves-example = Call-Moves 5 loan (disburse_call floats products 5 100) refl
