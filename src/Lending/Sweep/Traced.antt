-- ===== src/Lending/Sweep/Traced.antt =====
-- Where the charges of a sweep come from: the accounts, loans and liquidations that the sweep found
-- (src/modules/repayments/penalty-sweep.service.ts).
use bckashbackend.Common.{ℕ, ◌≡◌, refl, sym, Bool, some, if_keeps, any}
use bckashbackend.Common.Store.{find}
use bckashbackend.Common.Entries.{weaken_each, At, EachAt, each-At, find-EachAt, modify-EachAt}
use bckashbackend.Lending.State.{Loan, Account, Liquidation, PenaltyCharge, DelayCharge, Books}
use bckashbackend.Lending.Penalties.{apply_penalty_charge, is_charge, raise_balance}
use bckashbackend.Lending.DelayCharges.{apply_delay_charge, is_delay}

-- The branch of the loan of an account.
abbrev pub IsBranchOf : Books → (account branch : ℕ) → Type 0
IsBranchOf b account branch =
    (a : Account) × (l : Loan) × At account a b.accounts
    × (find a.loan_id b.loans ≡ some l)
    × (branch ≡ l.branch_id)

-- The branch of the loan of the account of a liquidation.
abbrev pub IsBranchOfLiquidation : Books → (liquidation branch : ℕ) → Type 0
IsBranchOfLiquidation b liquidation branch =
    (q : Liquidation) × At liquidation q b.liquidations × IsBranchOf b q.account_id branch

abbrev pub HadAccount : Books → ℕ → Account → Type 0
HadAccount b₀ id a = (a₀ : Account) × At id a₀ b₀.accounts × (a₀.loan_id ≡ a.loan_id)

abbrev pub HadLiquidation : Books → ℕ → Liquidation → Type 0
HadLiquidation b₀ id q =
    (q₀ : Liquidation) × At id q₀ b₀.liquidations × (q₀.account_id ≡ q.account_id)

-- The loans are the same, and no account has changed its loan, nor a liquidation its account.
pub record IsTraced (b₀ b : Books) : Type 0 where
  pub loans_same : b.loans ≡ b₀.loans
  pub accounts_had : EachAt (HadAccount b₀) b.accounts
  pub liquidations_had : EachAt (HadLiquidation b₀) b.liquidations

had_accounts : (b : Books) → EachAt (HadAccount b) b.accounts
had_accounts b =
    weaken_each (λ id a. At id a b.accounts) (HadAccount b) b.accounts
      (λ id a there. (a, there, refl)) (each-At b.accounts)

had_liquidations : (b : Books) → EachAt (HadLiquidation b) b.liquidations
had_liquidations b =
    weaken_each (λ id q. At id q b.liquidations) (HadLiquidation b) b.liquidations
      (λ id q there. (q, there, refl)) (each-At b.liquidations)

pub IsTraced-refl : (b : Books) → IsTraced b b
IsTraced-refl b = record {
  loans_same = refl;
  accounts_had = had_accounts b;
  liquidations_had = had_liquidations b;
}

pub account_branch :
    (b₀ b : Books) (id : ℕ) (a : Account) (l : Loan)
    → IsTraced b₀ b
    → HadAccount b₀ id a
    → find a.loan_id b.loans ≡ some l
    → IsBranchOf b₀ id l.branch_id
account_branch b₀ b id a l h (a₀, there, same) found =
    (a₀, l, there, rw same (rw (sym h.loans_same) found), refl)

pub liquidation_branch :
    (b₀ b : Books) (id : ℕ) (q : Liquidation) (a : Account) (l : Loan)
    → IsTraced b₀ b
    → HadLiquidation b₀ id q
    → find q.account_id b.accounts ≡ some a
    → find a.loan_id b.loans ≡ some l
    → IsBranchOfLiquidation b₀ id l.branch_id
liquidation_branch b₀ b id q a l h (q₀, there, same) owed found =
    let had = find-EachAt (HadAccount b₀) q.account_id b.accounts h.accounts_had owed in
    (q₀, there, rw same (account_branch b₀ b q.account_id a l h had found))

pub penalty-IsTraced :
    (b₀ : Books) (c : PenaltyCharge) (branch : ℕ) (b : Books)
    → IsTraced b₀ b
    → IsTraced b₀ (apply_penalty_charge c branch b).1
unfolding apply_penalty_charge raise_balance
penalty-IsTraced b₀ c branch b h =
    if_keeps (λ (r : Bool × Books). IsTraced b₀ r.1)
      (any (is_charge c.account_id c.installment_number c.period_index) b.penalties) (λ _. h)
      λ _. record {
        loans_same = h.loans_same;
        accounts_had =
            modify-EachAt (HadAccount b₀) c.account_id _ b.accounts (λ id a had. had)
              h.accounts_had;
        liquidations_had = h.liquidations_had;
      }

pub delay-IsTraced :
    (b₀ : Books) (c : DelayCharge) (branch : ℕ) (b : Books)
    → IsTraced b₀ b
    → IsTraced b₀ (apply_delay_charge c branch b).1
unfolding apply_delay_charge
delay-IsTraced b₀ c branch b h =
    if_keeps (λ (r : Bool × Books). IsTraced b₀ r.1)
      (any (is_delay c.liquidation_id c.period_index) b.delay_charges) (λ _. h)
      λ _. record {
        loans_same = h.loans_same;
        accounts_had = h.accounts_had;
        liquidations_had =
            modify-EachAt (HadLiquidation b₀) c.liquidation_id _ b.liquidations (λ id q had. had)
              h.liquidations_had;
      }
