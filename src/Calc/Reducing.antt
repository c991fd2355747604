-- ===== src/Calc/Reducing.antt =====
-- `calculateReducingBalanceSchedule` (src/modules/loan-products/calculations/interest-schedule.ts).
-- Its rate and its installment amount are floats, whose arithmetic is a parameter; balances are
-- signed, since an installment amount may exceed what is left.
pub mod Payoff
use bckashbackend.Common.{
  ℕ, zero, suc, ◌+◌, Bool, List, [], ◌∷◌, ◌==◌, if◌then◌else◌, Result, ok, ◌>>=◌, ◌>>◌,
}
use bckashbackend.Common.Int.{ℤ, pos, ◌+ℤ◌, ◌-ℤ◌, ltb_ℤ}
use bckashbackend.Calc.Rounding.{assert_positive_integer}

-- The floating-point numbers of the language, and `Math.round` on them.
pub record Floats : Type 1 where
  pub F : Type 0
  pub of_ℤ : ℤ → F
  pub fadd : F → F → F
  pub fsub : F → F → F
  pub fmul : F → F → F
  pub fdiv : F → F → F
  pub fpow : F → F → F
  pub is_zero : F → Bool
  pub round : F → ℤ

pub record ReducingInstallment : Type 0 where
  pub installment_number : ℕ
  pub opening_balance : ℤ
  pub interest_portion : ℤ
  pub principal_portion : ℤ
  pub closing_balance : ℤ
  pub total_due : ℤ

-- What an installment pays of the principal, before the last one.
unfoldable pub inner_principal : ℤ → ℤ → ℤ
inner_principal amount interest = let p = amount -ℤ interest in if ltb_ℤ p (pos 0) then pos 0 else p

-- The loop from an installment number on, with the rounds left and the opening balance.
unfoldable pub reducing_loop :
    (ℤ → ℤ) → ℤ → (rounds number count : ℕ) → ℤ → List ReducingInstallment
unfolding inner_principal
reducing_loop interest_on amount zero number count opening = []
reducing_loop interest_on amount (suc rounds) number count opening =
    let interest = interest_on opening in
    let p = if number == count then opening else inner_principal amount interest in
    record {
      installment_number = number;
      opening_balance = opening;
      interest_portion = interest;
      principal_portion = p;
      closing_balance = opening -ℤ p;
      total_due = if number == count then opening +ℤ interest else amount;
    }
    ∷ reducing_loop interest_on amount rounds (number + 1) count (opening -ℤ p)

module _ (fl : Floats) where
  open fl use {F, of_ℤ, fadd, fsub, fmul, fdiv, fpow, is_zero, round}

  unfoldable pub per_installment_rate : ℕ → ℕ → F
  per_installment_rate rate count =
      fdiv (fdiv (of_ℤ (pos rate)) (of_ℤ (pos 10000))) (of_ℤ (pos count))

  -- The annuity formula, or an even split at a zero rate.
  unfoldable pub installment_amount : ℕ → ℕ → ℕ → ℤ
  unfolding per_installment_rate
  installment_amount principal rate count =
      let r = per_installment_rate rate count in
      let factor = fpow (fadd (of_ℤ (pos 1)) r) (of_ℤ (pos count)) in
      if is_zero r
      then round (fdiv (of_ℤ (pos principal)) (of_ℤ (pos count)))
      else round (fdiv (fmul (fmul (of_ℤ (pos principal)) r) factor) (fsub factor (of_ℤ (pos 1))))

  unfoldable pub calculate_reducing_balance_schedule : ℕ → ℕ → ℕ → Result (List ReducingInstallment)
  unfolding assert_positive_integer reducing_loop installment_amount
  calculate_reducing_balance_schedule principal rate count = do
    assert_positive_integer count
    ok (
        reducing_loop (λ opening. round (fmul (of_ℤ opening) (per_installment_rate rate count)))
          (installment_amount principal rate count) count 1 count (pos principal))
