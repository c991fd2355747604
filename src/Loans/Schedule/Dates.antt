-- ===== src/Loans/Schedule/Dates.antt =====
-- The due dates of a schedule (src/modules/loans/loan-verification.service.ts,
-- `computeInstallmentDueDate`): their order, their end, and what a new anchor makes of them.
use bckashbackend.Common.{
  ℕ, zero, suc, ◌+◌, ◌*◌, ◌/◌, ◌≤◌, ◌<◌, ◌≡◌, refl, ◌∙◌, Bool-cases, inl, inr, true, false, List,
  [], ◌∷◌, map, ◌==◌, ltb, length, length-map, ok, arith,
}
use native.Mathlib.Nat.{div-mul-le_self, lt-div-mul-add}
use bckashbackend.Common.Int.{ℤ, pos, ◌-ℤ◌}
use bckashbackend.Calc.Rounding.{basis_points}
use bckashbackend.Calc.Interest.{FlatInstallment, flat_loop}
use bckashbackend.Calc.Reducing.{Floats, ReducingInstallment, reducing_loop}
use bckashbackend.Loans.Schedule.Rows.{
  Dated, InterestType-cases, flat_rows-length, reducing_loop-length, schedule_of_flat,
  schedule_of_reducing, schedule_of-Dated,
}
use bckashbackend.Loans.State.{Product, Row}
use bckashbackend.Loans.Schedule.{
  installment_count, compute_installment_due_date, flat_rows, reducing_row, schedule_of, reanchor,
}

-- Every date is later than the one before, and the last is the given one.
abbrev pub Rising : ℕ → List Row → ℕ → Type 0
Rising before [] last = before ≡ last
Rising before (r ∷ rs) last = (before < r.due_date) × Rising r.due_date rs last

whole_periods :
    (n tenure period : ℕ)
    → n * suc period ≤ suc tenure + period
    → ltb n 1 ≡ false
    → (c : ℕ) × (n ≡ suc c) × (c * suc period < suc tenure)
whole_periods zero tenure period below some = ground arith
whole_periods (suc c) tenure period below some = (c, refl, omega arith)

-- The installments are enough for the whole tenure.
installment_count-covers :
    (tenure period : ℕ) → suc tenure ≤ installment_count (suc tenure) (suc period) * suc period
unfolding installment_count
installment_count-covers tenure period =
    let n = (suc tenure + period) / suc period in
    let above : suc tenure + period < n * suc period + suc period = lt-div-mul-add (omega arith) in
    elim (Bool-cases (ltb n 1)) [
      | inl none_whole ↦ rw none_whole (ground arith)
      | inr some_whole ↦ rw some_whole (omega (arith, above))
    ]

-- All but the last installment are whole periods, and these end before the tenure does.
pub installment_count-fits :
    (tenure period : ℕ)
    → (c : ℕ) × (installment_count (suc tenure) (suc period) ≡ suc c)
      × (c * suc period < suc tenure)
unfolding installment_count
installment_count-fits tenure period =
    let n = (suc tenure + period) / suc period in
    let below = div-mul-le_self (suc tenure + period) (suc period) in
    elim (Bool-cases (ltb n 1)) [
      | inl none_whole ↦ rw none_whole (0, refl, omega arith)
      | inr some_whole ↦ rw some_whole (whole_periods n tenure period below some_whole)
    ]

module _ (anchor c period tenure : ℕ) where
  Dated-Rising :
      (rest k : ℕ) (rs : List Row)
      → k + rest ≡ c
      → c * suc period < tenure
      → length rs ≡ suc rest
      → Dated anchor (suc c) (suc period) tenure (suc k) rs
      → Rising (anchor + k * suc period) rs (anchor + tenure)
  unfolding compute_installment_due_date
  Dated-Rising rest k [] e fits len d = omega arith
  Dated-Rising zero k (r ∷ []) e fits len d =
      let same : (suc k == suc c) ≡ true = ground arith in
      let due : r.due_date ≡ anchor + tenure = rw same at d.0 in
      let here : k ≡ c = omega arith in (rw here (omega arith), due)
  Dated-Rising zero k (r ∷ r' ∷ rs) e fits len d = ground arith
  Dated-Rising (suc rest) k (r ∷ rs) e fits len d =
      let other : (suc k == suc c) ≡ false = ground arith in
      let due : r.due_date ≡ anchor + suc k * suc period = rw other at d.0 in
      let next : suc k + 1 ≡ suc (suc k) = omega arith in
      (
        omega arith,
        rw due (Dated-Rising rest (suc k) rs (omega arith) fits (omega arith) (rw next at (d.1))),
      )

module _ (anchor anchor' count period tenure : ℕ) where
  flat_rows-reanchor :
      (o : ℤ) (es : List FlatInstallment)
      → reanchor anchor' count period tenure (flat_rows anchor count period tenure o es)
        ≡ flat_rows anchor' count period tenure o es
  unfolding flat_rows reanchor
  flat_rows-reanchor o [] = refl
  flat_rows-reanchor o (e ∷ es) = rw (flat_rows-reanchor (o -ℤ pos e.principal_portion) es) refl

  reducing_rows-reanchor :
      (es : List ReducingInstallment)
      → reanchor anchor' count period tenure (map (reducing_row anchor count period tenure) es)
        ≡ map (reducing_row anchor' count period tenure) es
  unfolding reducing_row reanchor
  reducing_rows-reanchor [] = refl
  reducing_rows-reanchor (e ∷ es) = rw (reducing_rows-reanchor es) refl

module _ (fl : Floats) (p : Product) (tenure principal : ℕ) where
  -- A schedule that is anchored again is the one that the new anchor would have given.
  pub schedule_of-reanchor :
      (anchor anchor' c : ℕ)
      → installment_count tenure p.repayment_period_days ≡ suc c
      → (rows : List Row) × (schedule_of fl p tenure principal anchor ≡ ok rows)
        × (length rows ≡ suc c)
        × (schedule_of fl p tenure principal anchor'
            ≡ ok (reanchor anchor' (length rows) p.repayment_period_days tenure rows))
  schedule_of-reanchor anchor anchor' c counted = elim (InterestType-cases p.interest_type) [
    | inl is_flat ↦
        let interest = basis_points principal p.interest_rate in
        let es = flat_loop (suc c) 1 (suc c) principal interest 0 0 in
        let len =
          flat_rows-length anchor (suc c) p.repayment_period_days tenure (suc c) 1 (suc c) principal
            interest 0 0 (pos principal) in
        (
          _,
          schedule_of_flat fl p tenure principal anchor c counted is_flat,
          len,
          rw len (
              rw
                (flat_rows-reanchor anchor anchor' (suc c) p.repayment_period_days tenure
                  (pos principal) es)
                (schedule_of_flat fl p tenure principal anchor' c counted is_flat)),
        )
    | inr is_reducing ↦
        let (interest_on, amount, e) =
          schedule_of_reducing fl p tenure principal c counted is_reducing in
        let es = reducing_loop interest_on amount (suc c) 1 (suc c) (pos principal) in
        let len = reducing_loop-length interest_on amount (suc c) 1 (suc c) (pos principal) in
        let mapped = length-map (reducing_row anchor (suc c) p.repayment_period_days tenure) es in
        let rows_len : length (map (reducing_row anchor (suc c) p.repayment_period_days tenure) es)
            ≡ suc c =
          mapped ∙ len in
        (
          _,
          e anchor,
          rows_len,
          rw rows_len (
              rw (reducing_rows-reanchor anchor anchor' (suc c) p.repayment_period_days tenure es)
                (e anchor')),
        )
  ]

-- A schedule that a disbursement writes over a positive tenure in positive periods exists, of either
-- interest type. It has as many rows as the tenure has periods or parts of one: their periods cover the
-- tenure, and one row less would not. Each is due after the one before, the first after the anchor, and the
-- last when the tenure ends.
pub schedule_of-Rising :
    (fl : Floats) (p : Product) (tenure principal anchor period : ℕ)
    → p.repayment_period_days ≡ suc period
    → (rows : List Row) × (schedule_of fl p (suc tenure) principal anchor ≡ ok rows)
      × (suc tenure ≤ length rows * suc period)
      × (length rows * suc period < suc tenure + suc period)
      × Rising anchor rows (anchor + suc tenure)
schedule_of-Rising fl p tenure principal anchor period h =
    let (c, counted, fits) = installment_count-fits tenure period in
    let (rows, e, len, dated) =
      schedule_of-Dated fl p (suc tenure) principal anchor c (rw h counted) in
    let start : anchor + 0 * suc period ≡ anchor = omega arith in
    (
      rows,
      e,
      rw len (rw counted at (installment_count-covers tenure period)),
      rw len (omega (arith, fits)),
      rw start at (
          Dated-Rising anchor c period (suc tenure) c 0 rows (omega arith) fits len
            (rw h at dated)),
    )
