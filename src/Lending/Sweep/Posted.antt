-- ===== src/Lending/Sweep/Posted.antt =====
-- What the daily sweep hands to the ledger (src/modules/repayments/penalty-sweep.service.ts,
-- `runDailySweep`).
use mathlib.Core.List.{append-nil}
use bckashbackend.Common.{
  ℕ, ◌≡◌, refl, sym, ap, ◌∙◌, subst, List, [], ◌∷◌, ◌++◌, map, any, ok, All, Bool-cases, inl, inr,
}
use bckashbackend.Lending.State.{
  PenaltyCharge, DelayCharge, Books, Posting, penalty_posting, delay_posting,
}
use bckashbackend.Lending.Liquidation.{Catalogue}
use bckashbackend.Lending.Penalties.{Sweep, Swept, apply_penalty_charge, is_charge}
use bckashbackend.Lending.DelayCharges.{run_daily_sweep, apply_delay_charge, is_delay}
use bckashbackend.Lending.Sweep.Rule.{Ensures, run_daily_sweep-keeps}
use bckashbackend.Lending.Sweep.Traced.{IsBranchOf, IsBranchOfLiquidation}

-- A charge with the branch that it is posted to.
pub data Bill : Type 0 where
  penalty_bill : PenaltyCharge → (branch : ℕ) → Bill
  delay_bill : DelayCharge → (branch : ℕ) → Bill

abbrev pub posting_of : Bill → Posting
posting_of (penalty_bill c branch) =
    penalty_posting c.account_id c.installment_number c.period_index c.penalty_amount_kobo branch
posting_of (delay_bill c branch) =
    delay_posting c.liquidation_id c.period_index c.charge_amount_kobo branch

-- The charges with those of the bills, the last bill first.
abbrev pub penalties_with : List Bill → List PenaltyCharge → List PenaltyCharge
penalties_with [] cs = cs
penalties_with (penalty_bill c branch ∷ bills) cs = penalties_with bills (c ∷ cs)
penalties_with (delay_bill c branch ∷ bills) cs = penalties_with bills cs

abbrev pub delays_with : List Bill → List DelayCharge → List DelayCharge
delays_with [] cs = cs
delays_with (penalty_bill c branch ∷ bills) cs = delays_with bills cs
delays_with (delay_bill c branch ∷ bills) cs = delays_with bills (c ∷ cs)

-- The branch of a bill is that of the loan that it is for.
abbrev pub IsToBranch : Books → Bill → Type 0
IsToBranch b (penalty_bill c branch) = IsBranchOf b c.account_id branch
IsToBranch b (delay_bill c branch) = IsBranchOfLiquidation b c.liquidation_id branch

-- There are bills that are the charges since the first books, and the postings since, one for one.
pub record HasPosted (b₀ b : Books) : Type 0 where
  pub bills : List Bill
  pub penalties_billed : b.penalties ≡ penalties_with bills b₀.penalties
  pub delays_billed : b.delay_charges ≡ delays_with bills b₀.delay_charges
  pub handed_over : b.postings ≡ b₀.postings ++ map posting_of bills
  pub to_branches : All (IsToBranch b₀) bills

penalties_with-append :
    (bills later : List Bill) (cs : List PenaltyCharge)
    → penalties_with (bills ++ later) cs ≡ penalties_with later (penalties_with bills cs)
penalties_with-append [] later cs = refl
penalties_with-append (penalty_bill c branch ∷ bills) later cs =
    penalties_with-append bills later (c ∷ cs)
penalties_with-append (delay_bill c branch ∷ bills) later cs = penalties_with-append bills later cs

delays_with-append :
    (bills later : List Bill) (cs : List DelayCharge)
    → delays_with (bills ++ later) cs ≡ delays_with later (delays_with bills cs)
delays_with-append [] later cs = refl
delays_with-append (penalty_bill c branch ∷ bills) later cs = delays_with-append bills later cs
delays_with-append (delay_bill c branch ∷ bills) later cs = delays_with-append bills later (c ∷ cs)

postings_with :
    (ps : List Posting) (bills : List Bill) (bill : Bill)
    → (ps ++ map posting_of bills) ++ posting_of bill ∷ []
      ≡ ps ++ map posting_of (bills ++ bill ∷ [])
postings_with [] [] bill = refl
postings_with [] (e ∷ bills) bill = ap (λ ps. posting_of e ∷ ps) (postings_with [] bills bill)
postings_with (p ∷ ps) bills bill = ap (λ ps. p ∷ ps) (postings_with ps bills bill)

added_bill :
    (b : Books) (bills : List Bill) (bill : Bill)
    → All (IsToBranch b) bills
    → IsToBranch b bill
    → All (IsToBranch b) (bills ++ bill ∷ [])
added_bill b [] bill h here = (here, tt)
added_bill b (e ∷ bills) bill h here = (h.0, added_bill b bills bill h.1 here)

apply_penalty_charge-posted :
    (b₀ : Books) (c : PenaltyCharge) (branch : ℕ) (b : Books)
    → IsBranchOf b₀ c.account_id branch
    → HasPosted b₀ b
    → HasPosted b₀ (apply_penalty_charge c branch b).1
unfolding apply_penalty_charge
apply_penalty_charge-posted b₀ c branch b of h =
    let bill = penalty_bill c branch in
    elim (Bool-cases
      (any (is_charge c.account_id c.installment_number c.period_index) b.penalties)) [
        | inl there ↦ rw there h
        | inr fresh ↦ rw fresh (record {
          bills = h.bills ++ bill ∷ [];
          penalties_billed =
              ap (λ cs. c ∷ cs) h.penalties_billed
              ∙ sym (penalties_with-append h.bills (bill ∷ []) b₀.penalties);
          delays_billed =
              h.delays_billed ∙ sym (delays_with-append h.bills (bill ∷ []) b₀.delay_charges);
          handed_over =
              ap (λ ps. ps ++ posting_of bill ∷ []) h.handed_over
              ∙ postings_with b₀.postings h.bills bill;
          to_branches = added_bill b₀ h.bills bill h.to_branches of;
        })
      ]

apply_delay_charge-posted :
    (b₀ : Books) (c : DelayCharge) (branch : ℕ) (b : Books)
    → IsBranchOfLiquidation b₀ c.liquidation_id branch
    → HasPosted b₀ b
    → HasPosted b₀ (apply_delay_charge c branch b).1
unfolding apply_delay_charge
apply_delay_charge-posted b₀ c branch b of h =
    let bill = delay_bill c branch in
    elim (Bool-cases (any (is_delay c.liquidation_id c.period_index) b.delay_charges)) [
      | inl there ↦ rw there h
      | inr fresh ↦ rw fresh (record {
        bills = h.bills ++ bill ∷ [];
        penalties_billed =
            h.penalties_billed ∙ sym (penalties_with-append h.bills (bill ∷ []) b₀.penalties);
        delays_billed =
            ap (λ cs. c ∷ cs) h.delays_billed
            ∙ sym (delays_with-append h.bills (bill ∷ []) b₀.delay_charges);
        handed_over =
            ap (λ ps. ps ++ posting_of bill ∷ []) h.handed_over
            ∙ postings_with b₀.postings h.bills bill;
        to_branches = added_bill b₀ h.bills bill h.to_branches of;
      })
    ]

-- A daily sweep that returns has handed the ledger exactly what it has charged: one posting for each
-- new charge, in the order of the charges, with the account, installment and period of a penalty or the
-- liquidation and period of a delay charge, its amount, and the branch of the loan that it is for.
pub run_daily_sweep-posted :
    (c : Catalogue) (date : ℕ) (b b' : Books) (sw : Sweep)
    → run_daily_sweep c date b ≡ ok (sw, b')
    → HasPosted b b'
run_daily_sweep-posted c date b b' sw e = subst (Ensures (λ (s : Swept). HasPosted b s.1)) e (
    run_daily_sweep-keeps b (HasPosted b) (apply_penalty_charge-posted b)
      (apply_delay_charge-posted b) c date
      (record {
        bills = [];
        penalties_billed = refl;
        delays_billed = refl;
        handed_over = sym (append-nil b.postings);
        to_branches = tt;
      }))
