-- ===== src/Calc/Interest/Flat.antt =====
-- The flat schedule adds up (src/modules/loan-products/calculations/interest-schedule.ts).
use bckashbackend.Common.{
  ℕ, zero, suc, ◌+◌, ◌*◌, ◌/◌, ◌≤◌, ◌≡◌, ◌≢◌, refl, true, false, List, ◌∷◌, ◌==◌, ok, sum_by,
  length, arith,
}
use native.Mathlib.Nat.{div-mul-le_self}
use bckashbackend.Calc.Rounding.{basis_points}
use bckashbackend.Calc.Interest.{
  FlatInstallment, FlatSchedule, flat_loop, calculate_flat_interest_schedule,
}

abbrev pub principal_sum : List FlatInstallment → ℕ
principal_sum = sum_by (λ (e : FlatInstallment). e.principal_portion)

abbrev pub interest_sum : List FlatInstallment → ℕ
interest_sum = sum_by (λ (e : FlatInstallment). e.interest_portion)

abbrev pub due_sum : List FlatInstallment → ℕ
due_sum = sum_by (λ (e : FlatInstallment). e.total_due)

module _ (number count principal interest a a' : ℕ) where
  -- An entry before the last one.
  abbrev inner : FlatInstallment
  inner = record {
    installment_number = number;
    principal_portion = principal / count;
    interest_portion = interest / count;
    total_due = principal / count + interest / count;
  }

  flat_loop-inner :
      (rounds : ℕ)
      → number ≢ count
      → flat_loop (suc rounds) number count principal interest a a'
        ≡ inner
          ∷ flat_loop rounds
              (number + 1)
              count
              principal
              interest
              (a + principal / count)
              (a' + interest / count)
  unfolding flat_loop
  flat_loop-inner rounds n = let t : (number == count) ≡ false = ground arith in rw t

-- The last entry takes what is left.
flat_loop_last :
    (number count principal interest a a' : ℕ)
    → number ≡ count
    → a ≤ principal
    → a' ≤ interest
    → (let entries = flat_loop 1 number count principal interest a a' in
        (a + principal_sum entries ≡ principal)
        × (a' + interest_sum entries ≡ interest)
        × (due_sum entries ≡ principal_sum entries + interest_sum entries)
        × (length entries ≡ 1))
unfolding flat_loop
flat_loop_last number count principal interest a a' n h h' =
    let t : (number == count) ≡ true = ground arith in
    rw t (omega arith, omega arith, omega arith, refl)

-- With the standard portion still fitting once per round, the rounds left pay off the rest.
pub flat_loop-sums :
    (rounds number count principal interest a a' : ℕ)
    → number + rounds ≡ count
    → a + principal / count * suc rounds ≤ principal
    → a' + interest / count * suc rounds ≤ interest
    → (let entries = flat_loop (suc rounds) number count principal interest a a' in
        (a + principal_sum entries ≡ principal)
        × (a' + interest_sum entries ≡ interest)
        × (due_sum entries ≡ principal_sum entries + interest_sum entries)
        × (length entries ≡ suc rounds))
flat_loop-sums zero number count principal interest a a' n h h' =
    flat_loop_last number count principal interest a a' (omega arith) (omega arith) (omega arith)
flat_loop-sums (suc rounds) number count principal interest a a' n h h' =
    let p = principal / count in
    let i = interest / count in
    let (ih, ih', due, len) =
      flat_loop-sums rounds (number + 1) count principal interest (a + p) (a' + i) (omega arith)
        (omega arith) (omega arith) in
    rw (flat_loop-inner number count principal interest a a' (suc rounds) (omega arith))
      (omega arith, omega arith, omega arith, omega arith)

-- For every principal, rate and positive number of installments there is a flat schedule, of
-- exactly that many entries; their principal portions add up to the principal, their interest
-- portions to the total interest, which is the principal's share in basis points, and what is due
-- in all to both.
pub flat_schedule_sums :
    (principal rate rest : ℕ)
    → (result : FlatSchedule) × (calculate_flat_interest_schedule principal rate (suc rest)
        ≡ ok result)
      × (length result.schedule ≡ suc rest)
      × (result.total_interest_kobo ≡ basis_points principal rate)
      × (principal_sum result.schedule ≡ principal)
      × (interest_sum result.schedule ≡ result.total_interest_kobo)
      × (due_sum result.schedule ≡ principal + result.total_interest_kobo)
unfolding calculate_flat_interest_schedule
flat_schedule_sums principal rate rest =
    let interest = basis_points principal rate in
    let (ps, is, due, len) =
      flat_loop-sums rest 1 (suc rest) principal interest 0 0 (omega arith)
        (omega (arith, div-mul-le_self principal (suc rest)))
        (omega (arith, div-mul-le_self interest (suc rest))) in
    (_, refl, len, refl, omega arith, omega arith, omega arith)
