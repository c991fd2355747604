-- ===== src/Loans/Fees/Tests.antt =====
-- Fees that are recorded, and recorded again (src/modules/loans/fee-payments.service.ts).
use bckashbackend.Common.{ℕ, ◌≡◌, refl, true, none, some, Option, List, [], ◌∷◌}
use bckashbackend.Loans.Fees.{FeePayment, FeePaymentStatus, record_payment, has_settled, Till}
use bckashbackend.Loans.Fees.Register.{
  payment_of, record_all, enter_all, register_of, record_all-enter_all,
}

abbrev branch_of : ℕ → Option ℕ
branch_of customer = some 3

abbrev payment : (fee : ℕ) → FeePaymentStatus → FeePayment
payment fee status = record {
  customer_id = 7;
  branch_id = 3;
  product_id = 1;
  fee_definition_id = fee;
  amount_kobo = 500;
  status = status;
  recorded_by = some 9;
  recorded_at = some 100;
  account_paid_to = none;
  payment_reference = none;
}

abbrev till : Till
till = record { payments = (1, payment 4 FeePaymentStatus.pending) ∷ []; postings = [] }

-- The fee that was PENDING is paid, another is waived, and the waiver is then taken back.
abbrev recordings : List (ℕ × FeePayment)
recordings =
    (2, payment 4 FeePaymentStatus.paid)
    ∷ (2, payment 5 FeePaymentStatus.waived)
    ∷ (3, payment 5 FeePaymentStatus.pending)
    ∷ []

register_example :
    has_settled 7 1 4 (record_all branch_of recordings till).payments
    ≡ enter_all branch_of recordings (register_of till) 7 1 4
unfolding payment_of
register_example = record_all-enter_all branch_of recordings till 7 1 4 (refl, tt)

settled_example : has_settled 7 1 4 (record_all branch_of recordings till).payments ≡ true
unfolding has_settled record_payment
settled_example = refl
