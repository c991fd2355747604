-- ===== src/Accounting/Reports.antt =====
-- The balances that are read off the journal (src/modules/accounting/accounting.service.ts).
use bckashbackend.Common.{
  ℕ, Bool, true, false, ◌&&◌, Option, none, some, List, [], ◌∷◌, ◌++◌, map, ◌==◌, leb, any, select,
  sum_by,
}
use bckashbackend.Common.Int.{ℤ, sub_ℕ}
use bckashbackend.Accounting.Journal.{Line, Entry, debit_of, credit_of}

pub data AccountType : Type 0 where
  asset liability equity income expense : AccountType

pub record LedgerAccount : Type 0 where
  pub id : ℕ
  pub code : ℕ
  pub account_type : AccountType

abbrev pub is_normal_debit_balance : AccountType → Bool
is_normal_debit_balance asset = true
is_normal_debit_balance expense = true
is_normal_debit_balance _ = false

abbrev up_to : Option ℕ → ℕ → Bool
up_to none date = true
up_to (some limit) date = leb date limit

abbrev of_branch : Option ℕ → ℕ → Bool
of_branch none branch = true
of_branch (some b) branch = branch == b

-- The entries up to a date and of a branch, where they are given.
abbrev pub in_scope : Option ℕ → Option ℕ → Entry → Bool
in_scope as_of branch e = up_to as_of e.date && of_branch branch e.branch_id

abbrev pub is_of : ℕ → Line → Bool
is_of account l = l.account_id == account

-- `$unwind`
abbrev pub unwind : List Entry → List Line
unwind [] = []
unwind (e ∷ es) = e.lines ++ unwind es

-- The pipeline of `sumLinesForAccount`, up to its `$group`.
unfoldable pub lines_of : ℕ → Option ℕ → Option ℕ → List Entry → List Line
lines_of account as_of branch journal = select (is_of account) (
    unwind (select (λ (e : Entry). any (is_of account) e.lines && in_scope as_of branch e) journal))

unfoldable pub sum_lines_for_account : ℕ → Option ℕ → Option ℕ → List Entry → ℕ × ℕ
unfolding lines_of
sum_lines_for_account account as_of branch journal = (
  sum_by debit_of (lines_of account as_of branch journal),
  sum_by credit_of (lines_of account as_of branch journal),
)

unfoldable pub signed_balance : AccountType → ℕ × ℕ → ℤ
signed_balance t (debit, credit) = elim (is_normal_debit_balance t) [
  | true ↦ sub_ℕ debit credit
  | false ↦ sub_ℕ credit debit
]

pub record BalanceRow : Type 0 where
  pub account : LedgerAccount
  pub balance_kobo : ℤ

pub record TrialBalance : Type 0 where
  pub rows : List BalanceRow
  pub total_debit_kobo : ℕ
  pub total_credit_kobo : ℕ
  pub balanced : Bool

-- `getTrialBalance` of the chart of accounts, in the order of their codes.
unfoldable pub get_trial_balance :
    List LedgerAccount → Option ℕ → Option ℕ → List Entry → TrialBalance
unfolding sum_lines_for_account signed_balance
get_trial_balance chart as_of branch journal =
    let sums : LedgerAccount → ℕ × ℕ = λ a. sum_lines_for_account a.id as_of branch journal in
    let debit = sum_by (λ (a : LedgerAccount). (sums a).0) chart in
    let credit = sum_by (λ (a : LedgerAccount). (sums a).1) chart in
    record {
      rows =
          map
            (λ (a : LedgerAccount). record {
              account = a;
              balance_kobo = signed_balance a.account_type (sums a);
            })
            chart;
      total_debit_kobo = debit;
      total_credit_kobo = credit;
      balanced = debit == credit;
    }
