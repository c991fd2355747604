-- ===== src/Loans/Schedule/Sums.antt =====
-- What a flat schedule adds up to (src/modules/loans/loan-verification.service.ts, `disburse` and
-- `normalizeSchedule`).
use bckashbackend.Common.{ℕ, suc, ◌+◌, ◌≡◌, refl, ap, ◌∙◌, List, [], ◌∷◌, ok, arith}
use native.Mathlib.Nat.{div-mul-le_self}
use bckashbackend.Common.Int.{ℤ, pos, ◌+ℤ◌, ◌-ℤ◌}
use bckashbackend.Calc.Rounding.{basis_points}
use bckashbackend.Calc.Interest.{FlatInstallment, flat_loop}
use bckashbackend.Calc.Interest.Flat.{principal_sum, interest_sum, due_sum, flat_loop-sums}
use bckashbackend.Calc.Reducing.{Floats}
use bckashbackend.Loans.State.{InterestType, Product, Row}
use bckashbackend.Loans.Schedule.{installment_count, flat_rows, schedule_of, total_interest}
use bckashbackend.Loans.Schedule.Rows.{schedule_of_flat}

unfoldable pub total_due : List Row → ℤ
total_due [] = pos 0
total_due (r ∷ rs) = r.total_due +ℤ total_due rs

pos_add : (a b : ℕ) → pos a +ℤ pos b ≡ pos (a + b)
unfolding ◌+ℤ◌
pos_add a b = ground arith

pos_sub : (a b c : ℕ) → a ≡ b + c → pos a -ℤ pos b ≡ pos c
unfolding ◌-ℤ◌
pos_sub a b c h = ground arith

module _ (anchor count period tenure : ℕ) where
  flat_rows-interest :
      (o : ℤ) (es : List FlatInstallment)
      → total_interest (flat_rows anchor count period tenure o es) ≡ pos (interest_sum es)
  unfolding flat_rows total_interest
  flat_rows-interest o [] = refl
  flat_rows-interest o (e ∷ es) =
      rw (flat_rows-interest (o -ℤ pos e.principal_portion) es)
        (pos_add e.interest_portion (interest_sum es))

  flat_rows-due :
      (o : ℤ) (es : List FlatInstallment)
      → total_due (flat_rows anchor count period tenure o es) ≡ pos (due_sum es)
  unfolding flat_rows total_due
  flat_rows-due o [] = refl
  flat_rows-due o (e ∷ es) =
      rw (flat_rows-due (o -ℤ pos e.principal_portion) es) (pos_add e.total_due (due_sum es))

-- The balance before the first row, and after the last: each row starts where the one before ends.
abbrev pub Chained : ℤ → List Row → ℤ → Type 0
Chained opening [] closing = opening ≡ closing
Chained opening (r ∷ rs) closing =
    (r.opening_balance ≡ opening)
    × (r.closing_balance ≡ opening -ℤ r.principal_portion)
    × Chained r.closing_balance rs closing

flat_rows-Chained :
    (anchor count period tenure n : ℕ) (es : List FlatInstallment)
    → n ≡ principal_sum es
    → Chained (pos n) (flat_rows anchor count period tenure (pos n) es) (pos 0)
unfolding flat_rows
flat_rows-Chained anchor count period tenure n [] h = rw h refl
flat_rows-Chained anchor count period tenure n (e ∷ es) h = (
  refl,
  refl,
  rw (pos_sub n e.principal_portion (principal_sum es) h)
      (flat_rows-Chained anchor count period tenure (principal_sum es) es refl),
)

-- A flat schedule of a positive number of installments starts at the principal and ends at nothing, its
-- interest is the principal's share in basis points, charged once whatever the tenure is, and what its rows
-- ask for in all is the principal with that interest.
pub flat_schedule-Chained :
    (fl : Floats) (p : Product) (tenure principal anchor c : ℕ)
    → installment_count tenure p.repayment_period_days ≡ suc c
    → p.interest_type ≡ InterestType.flat
    → (rows : List Row) × (schedule_of fl p tenure principal anchor ≡ ok rows)
      × Chained (pos principal) rows (pos 0)
      × (total_interest rows ≡ pos (basis_points principal p.interest_rate))
      × (total_due rows ≡ pos principal +ℤ total_interest rows)
flat_schedule-Chained fl p tenure principal anchor c counted is_flat =
    let interest = basis_points principal p.interest_rate in
    let (principal_sums, interest_sums, due_sums, _) =
      flat_loop-sums c 1 (suc c) principal interest 0 0 (omega arith)
        (omega (arith, div-mul-le_self principal (suc c)))
        (omega (arith, div-mul-le_self interest (suc c))) in
    let entries = flat_loop (suc c) 1 (suc c) principal interest 0 0 in
    let e =
      flat_rows-interest anchor (suc c) p.repayment_period_days tenure (pos principal) entries in
    let d = flat_rows-due anchor (suc c) p.repayment_period_days tenure (pos principal) entries in
    (
      _,
      schedule_of_flat fl p tenure principal anchor c counted is_flat,
      flat_rows-Chained anchor (suc c) p.repayment_period_days tenure principal entries
          (omega arith),
      e ∙ ap pos (omega arith),
      d ∙ (rw e (rw (pos_add principal (interest_sum entries)) (ap pos (omega arith)))),
    )
