-- ===== src/Lending/Sweep/Charges.antt =====
-- What the daily sweep (src/modules/repayments/penalty-sweep.service.ts, `runDailySweep`) leaves in the
-- books: the keys of the charges, the balances they raise and the postings they hand to the ledger.
use bckashbackend.Common.{
  if_keeps, subst, ℕ, ◌+◌, ◌≡◌, refl, Bool, false, some, List, [], ◌∷◌, ◌==◌, if◌then◌else◌, any,
  ok, Bool-cases, arith, inl, inr, ◌∙◌, ==→≡, ==→≢,
}
use bckashbackend.Common.Store.{find, modify, find-modify_self, find-modify_ne}
use bckashbackend.Lending.State.{balance_kobo, Account, PenaltyCharge, DelayCharge, Books}
use bckashbackend.Lending.Liquidation.{Catalogue}
use bckashbackend.Lending.Penalties.{Sweep, Swept, apply_penalty_charge, is_charge, raise_balance}
use bckashbackend.Lending.DelayCharges.{run_daily_sweep, apply_delay_charge, is_delay}
use bckashbackend.Lending.Sweep.Rule.{Ensures, run_daily_sweep-keeps}

-- No two charges have one account, installment and period.
abbrev pub HasUniquePenalties : List PenaltyCharge → Type 0
HasUniquePenalties [] = Unit
HasUniquePenalties (c ∷ cs) =
    (any (is_charge c.account_id c.installment_number c.period_index) cs ≡ false)
    × HasUniquePenalties cs

-- No two delay charges have one liquidation and period.
abbrev pub HasUniqueDelays : List DelayCharge → Type 0
HasUniqueDelays [] = Unit
HasUniqueDelays (c ∷ cs) =
    (any (is_delay c.liquidation_id c.period_index) cs ≡ false) × HasUniqueDelays cs

pub record HasUniqueCharges (b : Books) : Type 0 where
  pub penalties_unique : HasUniquePenalties b.penalties
  pub delays_unique : HasUniqueDelays b.delay_charges

pub apply_penalty_charge_unique :
    (c : PenaltyCharge) (branch : ℕ) (b : Books)
    → HasUniqueCharges b
    → HasUniqueCharges (apply_penalty_charge c branch b).1
unfolding apply_penalty_charge
apply_penalty_charge_unique c branch b h =
    elim (Bool-cases
      (any (is_charge c.account_id c.installment_number c.period_index) b.penalties)) [
        | inl there ↦ rw there h
        | inr fresh ↦ rw fresh (record {
          penalties_unique = (fresh, h.penalties_unique);
          delays_unique = h.delays_unique;
        })
      ]

pub apply_delay_charge_unique :
    (c : DelayCharge) (branch : ℕ) (b : Books)
    → HasUniqueCharges b
    → HasUniqueCharges (apply_delay_charge c branch b).1
unfolding apply_delay_charge
apply_delay_charge_unique c branch b h =
    elim (Bool-cases (any (is_delay c.liquidation_id c.period_index) b.delay_charges)) [
      | inl there ↦ rw there h
      | inr fresh ↦ rw fresh (record {
        penalties_unique = h.penalties_unique;
        delays_unique = (fresh, h.delays_unique);
      })
    ]

-- Where no two charges share their key, none do after a daily sweep that returns: an installment is
-- charged at most once a period, and so is a liquidation.
pub run_daily_sweep_unique :
    (c : Catalogue) (date : ℕ) (b b' : Books) (sw : Sweep)
    → HasUniqueCharges b
    → run_daily_sweep c date b ≡ ok (sw, b')
    → HasUniqueCharges b'
run_daily_sweep_unique c date b b' sw h e =
    subst (Ensures (λ (s : Swept). HasUniqueCharges s.1)) e (
      run_daily_sweep-keeps b HasUniqueCharges
        (λ k branch b' of. apply_penalty_charge_unique k branch b')
        (λ k branch b' of. apply_delay_charge_unique k branch b') c date h)

pub apply_penalty_charge-references :
    (b₀ : Books) (c : PenaltyCharge) (branch : ℕ) (b : Books)
    → b.repayments ≡ b₀.repayments
    → (apply_penalty_charge c branch b).1.repayments ≡ b₀.repayments
unfolding apply_penalty_charge
apply_penalty_charge-references b₀ c branch b h =
    if_keeps (λ (r : Bool × Books). r.1.repayments ≡ b₀.repayments)
      (any (is_charge c.account_id c.installment_number c.period_index) b.penalties) (λ _. h)
      (λ _. h)

pub apply_delay_charge-references :
    (b₀ : Books) (c : DelayCharge) (branch : ℕ) (b : Books)
    → b.repayments ≡ b₀.repayments
    → (apply_delay_charge c branch b).1.repayments ≡ b₀.repayments
unfolding apply_delay_charge
apply_delay_charge-references b₀ c branch b h =
    if_keeps (λ (r : Bool × Books). r.1.repayments ≡ b₀.repayments)
      (any (is_delay c.liquidation_id c.period_index) b.delay_charges) (λ _. h) (λ _. h)

-- The daily sweep writes no repayment.
pub run_daily_sweep-references :
    (c : Catalogue) (date : ℕ) (b b' : Books) (sw : Sweep)
    → run_daily_sweep c date b ≡ ok (sw, b')
    → b'.repayments ≡ b.repayments
run_daily_sweep-references c date b b' sw e =
    subst (Ensures (λ (s : Swept). (s.1).repayments ≡ b.repayments)) e (
      run_daily_sweep-keeps b (λ (b' : Books). b'.repayments ≡ b.repayments)
        (λ k branch b' of. apply_penalty_charge-references b k branch b')
        (λ k branch b' of. apply_delay_charge-references b k branch b') c date refl)

-- What an account was charged.
abbrev pub charged_to : ℕ → List PenaltyCharge → ℕ
charged_to id [] = 0
charged_to id (c ∷ cs) =
    let rest = charged_to id cs in if id == c.account_id then c.penalty_amount_kobo + rest else rest

-- An account is there in both, and its balance has grown by what it was charged in between.
abbrev pub HasGrown : ℕ → Books → Account → Books → Type 0
HasGrown id b₀ a₀ b =
    (a : Account) × (find id b.accounts ≡ some a)
    × (balance_kobo a + charged_to id b₀.penalties ≡ balance_kobo a₀ + charged_to id b.penalties)

grown_step :
    (id : ℕ) (a₀ a : Account) (b₀ b : Books) (c : PenaltyCharge)
    → find id b.accounts ≡ some a
    → balance_kobo a + charged_to id b₀.penalties ≡ balance_kobo a₀ + charged_to id b.penalties
    → (a' : Account) × (find id
          (modify c.account_id (raise_balance c.penalty_amount_kobo) b.accounts)
        ≡ some a')
      × (balance_kobo a' + charged_to id b₀.penalties
          ≡ balance_kobo a₀ + charged_to id (c ∷ b.penalties))
unfolding raise_balance
grown_step id a₀ a b₀ b c found e = elim (Bool-cases (id == c.account_id)) [
  | inl same ↦
      let same' = ==→≡ id c.account_id same in
      (
        raise_balance c.penalty_amount_kobo a,
        rw same' (find-modify_self c.account_id _ b.accounts (rw same' at found)),
        rw same (omega arith),
      )
  | inr other ↦ (
    a,
    find-modify_ne id c.account_id _ b.accounts (==→≢ id c.account_id other) ∙ found,
    rw other e,
  )
]

apply_penalty_charge-grown :
    (id : ℕ) (b₀ : Books) (a₀ : Account) (c : PenaltyCharge) (branch : ℕ) (b : Books)
    → HasGrown id b₀ a₀ b
    → HasGrown id b₀ a₀ (apply_penalty_charge c branch b).1
unfolding apply_penalty_charge
apply_penalty_charge-grown id b₀ a₀ c branch b (a, found, e) =
    elim (Bool-cases
      (any (is_charge c.account_id c.installment_number c.period_index) b.penalties)) [
        | inl there ↦ rw there (a, found, e)
        | inr fresh ↦ rw fresh (grown_step id a₀ a b₀ b c found e)
      ]

apply_delay_charge-grown :
    (id : ℕ) (b₀ : Books) (a₀ : Account) (c : DelayCharge) (branch : ℕ) (b : Books)
    → HasGrown id b₀ a₀ b
    → HasGrown id b₀ a₀ (apply_delay_charge c branch b).1
unfolding apply_delay_charge
apply_delay_charge-grown id b₀ a₀ c branch b h =
    elim (Bool-cases (any (is_delay c.liquidation_id c.period_index) b.delay_charges)) [
      | inl there ↦ rw there h
      | inr fresh ↦ rw fresh h
    ]

-- A daily sweep that returns leaves every account there and has raised its balance by exactly the
-- penalties that it has recorded against it.
pub run_daily_sweep-grown :
    (c : Catalogue) (date : ℕ) (b b' : Books) (sw : Sweep) (id : ℕ) (a : Account)
    → find id b.accounts ≡ some a
    → run_daily_sweep c date b ≡ ok (sw, b')
    → HasGrown id b a b'
run_daily_sweep-grown c date b b' sw id a found e =
    subst (Ensures (λ (s : Swept). HasGrown id b a s.1)) e (
      run_daily_sweep-keeps b (HasGrown id b a)
        (λ k branch b' of. apply_penalty_charge-grown id b a k branch b')
        (λ k branch b' of. apply_delay_charge-grown id b a k branch b') c date (a, found, refl))
