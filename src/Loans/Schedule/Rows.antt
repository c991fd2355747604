-- ===== src/Loans/Schedule/Rows.antt =====
-- The rows of a schedule and where they come from (src/modules/loans/loan-verification.service.ts,
-- `normalizeSchedule`).
use bckashbackend.Common.{
  ℕ, zero, suc, ◌+◌, ◌≡◌, refl, ◌⊎◌, inl, inr, List, [], ◌∷◌, map, length, length-map, ok, arith,
}
use bckashbackend.Common.Int.{ℤ, pos}
use bckashbackend.Calc.Rounding.{basis_points}
use bckashbackend.Calc.Interest.{FlatSchedule, flat_loop, calculate_flat_interest_schedule}
use bckashbackend.Calc.Reducing.{
  Floats, reducing_loop, calculate_reducing_balance_schedule, per_installment_rate,
  installment_amount,
}
use bckashbackend.Loans.State.{InterestType, Product, Row}
use bckashbackend.Loans.Schedule.{
  installment_count, compute_installment_due_date, flat_rows, reducing_row, schedule_of,
}

-- Rows numbered from a number on, each due when its number says.
abbrev pub Dated : (anchor count period tenure number : ℕ) → List Row → Type 0
Dated anchor count period tenure number [] = Unit
Dated anchor count period tenure number (r ∷ rs) =
    (r.due_date ≡ compute_installment_due_date anchor number count period tenure)
    × Dated anchor count period tenure (number + 1) rs

pub InterestType-cases : (t : InterestType) → (t ≡ InterestType.flat) ⊎ (t ≡ InterestType.reducing)
InterestType-cases InterestType.flat = inl refl
InterestType-cases InterestType.reducing = inr refl

module _ (anchor count period tenure : ℕ) where
  pub flat_rows-Dated :
      (rounds number n principal interest a a' : ℕ) (o : ℤ)
      → Dated anchor count period tenure number (
          flat_rows anchor count period tenure o
            (flat_loop rounds number n principal interest a a'))
  unfolding flat_rows flat_loop
  flat_rows-Dated zero number n principal interest a a' o = tt
  flat_rows-Dated (suc rounds) number n principal interest a a' o =
      (refl, flat_rows-Dated rounds (number + 1) n principal interest _ _ _)

  pub reducing_rows-Dated :
      (interest_on : ℤ → ℤ) (amount : ℤ) (rounds number n : ℕ) (o : ℤ)
      → Dated anchor count period tenure number (
          map
            (reducing_row anchor count period tenure)
            (reducing_loop interest_on amount rounds number n o))
  unfolding reducing_row reducing_loop
  reducing_rows-Dated interest_on amount zero number n o = tt
  reducing_rows-Dated interest_on amount (suc rounds) number n o =
      (refl, reducing_rows-Dated interest_on amount rounds (number + 1) n _)

pub flat_rows-length :
    (anchor count period tenure rounds number n principal interest a a' : ℕ) (o : ℤ)
    → length
        (flat_rows anchor count period tenure o (flat_loop rounds number n principal interest a a'))
      ≡ rounds
unfolding flat_rows flat_loop
flat_rows-length anchor count period tenure zero number n principal interest a a' o = refl
flat_rows-length anchor count period tenure (suc rounds) number n principal interest a a' o =
    omega (
      arith,
      flat_rows-length anchor count period tenure rounds (number + 1) n principal interest _ _ _,
    )

pub flat_loop-length :
    (rounds number n principal interest a a' : ℕ)
    → length (flat_loop rounds number n principal interest a a') ≡ rounds
unfolding flat_loop
flat_loop-length zero number n principal interest a a' = refl
flat_loop-length (suc rounds) number n principal interest a a' =
    omega (arith, flat_loop-length rounds (number + 1) n principal interest _ _)

pub reducing_loop-length :
    (interest_on : ℤ → ℤ) (amount : ℤ) (rounds number n : ℕ) (o : ℤ)
    → length (reducing_loop interest_on amount rounds number n o) ≡ rounds
unfolding reducing_loop
reducing_loop-length interest_on amount zero number n o = refl
reducing_loop-length interest_on amount (suc rounds) number n o =
    omega (arith, reducing_loop-length interest_on amount rounds (number + 1) n _)

pub flat_entries :
    (principal rate c : ℕ)
    → (s : FlatSchedule) × (calculate_flat_interest_schedule principal rate (suc c) ≡ ok s)
      × (s.schedule ≡ flat_loop (suc c) 1 (suc c) principal (basis_points principal rate) 0 0)
unfolding calculate_flat_interest_schedule
flat_entries principal rate c = (_, refl, refl)

reducing_entries :
    (fl : Floats) (principal rate c : ℕ)
    → (interest_on : ℤ → ℤ) × (amount : ℤ) × (calculate_reducing_balance_schedule fl principal rate
          (suc c)
        ≡ ok (reducing_loop interest_on amount (suc c) 1 (suc c) (pos principal)))
unfolding calculate_reducing_balance_schedule
reducing_entries fl principal rate c = (
  λ opening. fl.round (fl.fmul (fl.of_ℤ opening) (per_installment_rate fl rate (suc c))),
  installment_amount fl principal rate (suc c),
  refl,
)

module _ (fl : Floats) (p : Product) (tenure principal : ℕ) where
  abbrev pub period_of : ℕ
  period_of = p.repayment_period_days

  -- The schedule of a flat product.
  pub schedule_of_flat :
      (anchor c : ℕ)
      → installment_count tenure period_of ≡ suc c
      → p.interest_type ≡ InterestType.flat
      → schedule_of fl p tenure principal anchor
        ≡ ok (
            flat_rows anchor
              (suc c)
              period_of
              tenure
              (pos principal)
              (flat_loop (suc c) 1 (suc c) principal (basis_points principal p.interest_rate) 0 0))
  unfolding schedule_of
  schedule_of_flat anchor c counted is_flat =
      let (s, e, entries) = flat_entries principal p.interest_rate c in
      let len =
        flat_loop-length (suc c) 1 (suc c) principal (basis_points principal p.interest_rate) 0 0 in
      rw (is_flat, counted) (rw e (rw entries (rw len refl)))

  -- That of a product of the reducing balance.
  pub schedule_of_reducing :
      (c : ℕ)
      → installment_count tenure period_of ≡ suc c
      → p.interest_type ≡ InterestType.reducing
      → (interest_on : ℤ → ℤ) × (amount : ℤ) × ((anchor : ℕ)
          → schedule_of fl p tenure principal anchor
            ≡ ok (
                map
                  (reducing_row anchor (suc c) period_of tenure)
                  (reducing_loop interest_on amount (suc c) 1 (suc c) (pos principal))))
  unfolding schedule_of
  schedule_of_reducing c counted is_reducing =
      let (interest_on, amount, e) = reducing_entries fl principal p.interest_rate c in
      let len = reducing_loop-length interest_on amount (suc c) 1 (suc c) (pos principal) in
      (interest_on, amount, λ anchor. rw (is_reducing, counted) (rw e (rw len refl)))

  -- Of a positive number of installments there is a schedule, dated from the anchor.
  pub schedule_of-Dated :
      (anchor c : ℕ)
      → installment_count tenure period_of ≡ suc c
      → (rows : List Row) × (schedule_of fl p tenure principal anchor ≡ ok rows)
        × (length rows ≡ suc c)
        × Dated anchor (suc c) period_of tenure 1 rows
  schedule_of-Dated anchor c counted = elim (InterestType-cases p.interest_type) [
    | inl is_flat ↦ (
      _,
      schedule_of_flat anchor c counted is_flat,
      flat_rows-length anchor (suc c) period_of tenure (suc c) 1 (suc c) principal _ 0 0 _,
      flat_rows-Dated anchor (suc c) period_of tenure (suc c) 1 (suc c) principal _ 0 0 _,
    )
    | inr is_reducing ↦
        let (interest_on, amount, e) = schedule_of_reducing c counted is_reducing in
        let len = reducing_loop-length interest_on amount (suc c) 1 (suc c) (pos principal) in
        let rows_len =
          length-map (reducing_row anchor (suc c) period_of tenure)
            (reducing_loop interest_on amount (suc c) 1 (suc c) (pos principal)) in
        (
          _,
          e anchor,
          omega (arith, len, rows_len),
          reducing_rows-Dated anchor (suc c) period_of tenure interest_on amount (suc c) 1 (suc c)
              (pos principal),
        )
  ]
