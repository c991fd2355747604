-- ===== src/Loans/Fees.antt =====
-- `FeePaymentsService` (src/modules/loans/fee-payments.service.ts): recording a fee, and the fees
-- that a member still owes before a loan.
pub mod Register
pub mod Tests
use bckashbackend.Common.{
  ℕ, Bool, true, false, ◌&&◌, Option, none, some, List, [], ◌∷◌, ◌++◌, ◌==◌, any, if◌then◌else◌,
  Result, ok, err, not_found, ◌>>=◌,
}
use bckashbackend.Common.Store.{Store}
use bckashbackend.Calc.Charges.{Fee, CalcType, Basis, calculate_fee_amount}

pub data FeePaymentStatus : Type 0 where
  pending paid waived : FeePaymentStatus

abbrev pub is_paid : FeePaymentStatus → Bool
is_paid FeePaymentStatus.paid = true
is_paid _ = false

abbrev pub is_settled : FeePaymentStatus → Bool
is_settled FeePaymentStatus.pending = false
is_settled _ = true

pub record FeePayment : Type 0 where
  pub customer_id : ℕ
  pub branch_id : ℕ
  pub product_id : ℕ
  pub fee_definition_id : ℕ
  pub amount_kobo : ℕ
  pub status : FeePaymentStatus
  pub recorded_by : Option ℕ
  pub recorded_at : Option ℕ
  pub account_paid_to : Option ℕ
  pub payment_reference : Option ℕ

pub data Timing : Type 0 where
  pre_loan during_lifecycle : Timing

-- What is read of a `FeeDefinition`, with its id.
pub record FeeDefinition : Type 0 where
  pub fee_id : ℕ
  pub timing : Timing
  pub fee : Fee

-- The unique index, and the filter of the upsert.
abbrev pub is_payment_of : (customer product fee : ℕ) → FeePayment → Bool
is_payment_of customer product fee q =
    q.customer_id == customer && q.product_id == product && q.fee_definition_id == fee

unfoldable pub upsert_payment : (id : ℕ) → FeePayment → Store FeePayment → ℕ × Store FeePayment
upsert_payment id q [] = (id, (id, q) ∷ [])
upsert_payment id q ((i, w) ∷ d) =
    let (found, rest) = upsert_payment id q d in
    if is_payment_of q.customer_id q.product_id q.fee_definition_id w
    then (i, (i, q) ∷ d)
    else (found, (i, w) ∷ rest)

-- What is handed to the ledger port: the payment, its amount and the branch.
pub record FeePosting : Type 0 where
  pub fee_payment_id : ℕ
  pub amount_kobo : ℕ
  pub branch_id : ℕ

pub record Till : Type 0 where
  pub payments : Store FeePayment
  pub postings : List FeePosting

-- `recordPayment`, given the branch of each customer. A waived fee keeps no account and no reference,
-- and is not posted.
unfoldable pub record_payment :
    (branch_of : ℕ → Option ℕ) (id : ℕ) → FeePayment → Till → Result FeePayment × Till
unfolding upsert_payment
record_payment branch_of id dto t = elim (branch_of dto.customer_id) [
  | none ↦ (err not_found, t)
  | some branch ↦
      let q : FeePayment = record dto {
        branch_id = branch;
        account_paid_to = if is_paid dto.status then dto.account_paid_to else none;
        payment_reference = if is_paid dto.status then dto.payment_reference else none;
      } in
      let (payment, payments) = upsert_payment id q t.payments in
      (
        ok q,
        record {
          payments = payments;
          postings =
              if is_paid dto.status
              then t.postings
                ++ record {
                  fee_payment_id = payment;
                  amount_kobo = q.amount_kobo;
                  branch_id = branch;
                }
                  ∷ []
              else t.postings;
        },
      )
]

abbrev is_pre_loan : FeeDefinition → Bool
is_pre_loan d = elim d.timing [ pre_loan ↦ true | during_lifecycle ↦ false ]

-- A PAID or WAIVED payment of the fee
unfoldable pub has_settled : (customer product fee : ℕ) → Store FeePayment → Bool
has_settled customer product fee =
    any λ (e : ℕ × FeePayment). is_payment_of customer product fee e.1 && is_settled (e.1).status

-- The amount where it can be computed before a loan: a FIXED fee, or a share of the principal.
unfoldable pub amount_now : Fee → (requested : ℕ) → Result (Option ℕ)
amount_now fee requested =
    let computed =
      calculate_fee_amount fee
        (record { principal = some requested; outstanding = none; overdue_amount = none }) in
    elim fee.calc_type [
      | CalcType.fixed ↦ computed >>= λ n. ok (some n)
      | CalcType.percentage ↦ elim fee.percentage_of [
        | some Basis.principal ↦ computed >>= λ n. ok (some n)
        | _ ↦ ok none
      ]
    ]

-- `getOutstandingPreLoanFees`: the fee and its amount, if known.
unfoldable pub get_outstanding_pre_loan_fees :
    (customer product requested : ℕ)
    → List FeeDefinition
    → Store FeePayment
    → Result (List (ℕ × Option ℕ))
unfolding has_settled amount_now
get_outstanding_pre_loan_fees customer product requested [] payments = ok []
get_outstanding_pre_loan_fees customer product requested (d ∷ ds) payments =
    let rest = get_outstanding_pre_loan_fees customer product requested ds payments in
    if is_pre_loan d
    then (if has_settled customer product d.fee_id payments
        then rest
        else amount_now d.fee requested >>= λ amount.
            rest >>= λ fees. ok ((d.fee_id, amount) ∷ fees))
    else rest
