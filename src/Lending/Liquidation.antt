-- ===== src/Lending/Liquidation.antt =====
-- `EarlyLiquidationService` (src/modules/repayments/early-liquidation.service.ts).
use bckashbackend.Common.{
  ℕ, ◌+◌, not, ◌&&◌, Option, none, some, List, [], ◌∷◌, ◌==◌, if◌then◌else◌, includes, or_else,
  Result, ok, err, not_found, bad_request, conflict, ◌>>=◌, ◌>>◌, throw_if, or_throw,
}
use bckashbackend.Common.Store.{find, modify}
use bckashbackend.Workflow.Types.{EventBase}
use bckashbackend.Calc.Charges.{Fee, PenaltyTerms, calculate_early_liquidation_fee}
use bckashbackend.Lending.State.{
  AccountStatus, Repayment, RepaymentStatus, Liquidation, LiquidationStatus, Books,
  same_account_status, same_repayment_status, same_liquidation_status,
}
use bckashbackend.Lending.Balance.{Outcome}

pub data Frequency : Type 0 where
  one_time recurring : Frequency

-- `LoanProduct.penaltyRule`, and what the sweep reads of a fee definition.
pub record PenaltyRule : Type 0 where
  pub terms : PenaltyTerms
  pub frequency : Frequency
  pub recurrence_interval_days : ℕ
  pub max_recurrences : Option ℕ

pub record LiquidationFee : Type 0 where
  pub fee : Fee
  pub frequency : Frequency
  pub recurrence_interval_days : ℕ
  pub max_recurrences : Option ℕ

-- What `LoanProductsService` and `FeeDefinitionsService` answer: a product's fee ids and penalty
-- rule, or NotFound, and the active EARLY_LIQUIDATION fees by id.
pub record Catalogue : Type 0 where
  pub fee_ids : ℕ → Result (List ℕ)
  pub penalty_rule : ℕ → Result PenaltyRule
  pub liquidation_fees : List (ℕ × LiquidationFee)

unfoldable pub first_of_product : List ℕ → List (ℕ × LiquidationFee) → Option LiquidationFee
first_of_product ids [] = none
first_of_product ids ((id, fee) ∷ fees) =
    let rest = first_of_product ids fees in if includes id ids then some fee else rest

unfoldable pub find_early_liquidation_fee : Catalogue → ℕ → Result LiquidationFee
unfolding first_of_product
find_early_liquidation_fee c product_id = do
  ids ← c.fee_ids product_id
  or_throw (first_of_product ids c.liquidation_fees) bad_request

abbrev pub early_liquidation : ℕ
early_liquidation = 8

abbrev pub early_liquidation_action : ℕ
early_liquidation_action = 2

unfoldable pub liquidation_terms : Catalogue → ℕ → Books → Result (ℕ × ℕ)
unfolding find_early_liquidation_fee
liquidation_terms c account_id b = do
  a ← or_throw (find account_id b.accounts) not_found
  throw_if (not (same_account_status a.status AccountStatus.active)) conflict
  l ← or_throw (find a.loan_id b.loans) not_found
  fee ← find_early_liquidation_fee c l.product_id
  amount ← calculate_early_liquidation_fee fee.fee (or_else a.outstanding_balance_kobo 0)
  ok (or_else a.outstanding_balance_kobo 0, amount)

-- `initiateEarlyLiquidation`: the balance and the fee are a snapshot.
unfoldable pub initiate_early_liquidation : Catalogue → ℕ → ℕ → ℕ → Books → Outcome Liquidation
unfolding liquidation_terms
initiate_early_liquidation c id account_id initiated_by b =
    elim (liquidation_terms c account_id b) [
      | err x ↦ (err x, b)
      | ok (balance, fee) ↦
          let q : Liquidation = record {
            account_id = account_id;
            outstanding_balance_at_request_kobo = balance;
            liquidation_fee_kobo = fee;
            total_payable_kobo = balance + fee;
            status = LiquidationStatus.pending_approval;
            requested_by = initiated_by;
            approved_at = none;
            linked_repayment_record_id = none;
          } in
          (ok q, record b { liquidations = (id, q) ∷ b.liquidations })
    ]

unfoldable pub liquidation_event : EventBase → Option ℕ
liquidation_event e =
    if e.entity_type == early_liquidation && e.action == early_liquidation_action
    then e.entity_id
    else none

unfoldable pub handle_liquidation_approved : EventBase → ℕ → Books → Books
unfolding liquidation_event
handle_liquidation_approved e now b = elim (liquidation_event e) [
  | none ↦ b
  | some id ↦ record b {
    liquidations =
        modify id
          (λ (q : Liquidation). record q {
            status = LiquidationStatus.approved;
            approved_at = some now;
          })
          b.liquidations;
  }
]

unfoldable pub handle_liquidation_rejected : EventBase → Books → Books
unfolding liquidation_event
handle_liquidation_rejected e b = elim (liquidation_event e) [
  | none ↦ b
  | some id ↦ record b {
    liquidations =
        modify id (λ (q : Liquidation). record q { status = LiquidationStatus.rejected })
          b.liquidations;
  }
]

unfoldable pub link_check : ℕ → ℕ → Books → Result (Unit {0})
link_check repayment_id liquidation_id b = do
  q ← or_throw (find liquidation_id b.liquidations) not_found
  throw_if (not (same_liquidation_status q.status LiquidationStatus.approved)) conflict
  r ← or_throw (find repayment_id b.repayments) not_found
  throw_if (not (same_repayment_status r.status RepaymentStatus.pending)) conflict

-- `linkRepaymentToLiquidation`
unfoldable pub link_repayment_to_liquidation : ℕ → ℕ → Books → Outcome (Unit {0})
unfolding link_check
link_repayment_to_liquidation repayment_id liquidation_id b =
    elim (link_check repayment_id liquidation_id b) [
      | err x ↦ (err x, b)
      | ok _ ↦ (
        ok tt,
        record b {
          repayments =
              modify repayment_id
                (λ (r : Repayment). record r {
                  linked_liquidation_request_id = some liquidation_id;
                })
                b.repayments;
          liquidations =
              modify liquidation_id
                (λ (q : Liquidation). record q { linked_repayment_record_id = some repayment_id })
                b.liquidations;
        },
      )
    ]
