-- ===== src/Calc/Reducing/Payoff.antt =====
-- A reducing-balance schedule pays the loan off (src/modules/loan-products/calculations/interest-schedule.ts).
use bckashbackend.Common.{
  ℕ, zero, suc, ◌+◌, ◌*◌, ◌≤◌, ◌≡◌, ◌≢◌, refl, true, false, List, [], ◌∷◌, ◌==◌, Result, ok, length,
  arith,
}
use bckashbackend.Common.Int.{ℤ, pos, pos_part, neg_part, ◌+ℤ◌, ◌-ℤ◌, ◌≤ℤ◌, int_laws}
use mathlib.Core.Path.{ap, ap₂, fun_ext}
use bckashbackend.Calc.Reducing.{
  Floats, per_installment_rate, installment_amount, ReducingInstallment, inner_principal,
  reducing_loop, calculate_reducing_balance_schedule,
}

abbrev pub principal_total : List ReducingInstallment → ℤ
principal_total [] = pos 0
principal_total (e ∷ es) = e.principal_portion +ℤ principal_total es

-- Each installment opens at the balance that the one before it closed at, closes at its opening
-- balance less its principal portion, and only the last may pay a negative portion; the last
-- closes at 0.
abbrev pub IsPayoff : ℤ → List ReducingInstallment → Type 0
IsPayoff opening [] = opening ≡ pos 0
IsPayoff opening (e ∷ es) =
    (e.opening_balance ≡ opening)
    × (e.closing_balance ≡ opening -ℤ e.principal_portion)
    × ((1 ≤ length es) → pos 0 ≤ℤ e.principal_portion)
    × IsPayoff e.closing_balance es

inner_principal_nonneg : (amount interest : ℤ) → pos 0 ≤ℤ inner_principal amount interest
unfolding inner_principal
inner_principal_nonneg amount interest = ground arith

module _ (interest_on : ℤ → ℤ) (amount : ℤ) where
  IsPayoff-last :
      (number count : ℕ) (opening : ℤ)
      → number ≡ count
      → (let entries = reducing_loop interest_on amount 1 number count opening in
          (length entries ≡ 1) × (principal_total entries ≡ opening) × IsPayoff opening entries)
  unfolding reducing_loop
  IsPayoff-last number count opening n =
      let t : (number == count) ≡ true = ground arith in
      rw t (refl, omega int_laws, (refl, refl, omega arith, omega int_laws))

  abbrev inner : ℕ → ℤ → ReducingInstallment
  inner number opening = record {
    installment_number = number;
    opening_balance = opening;
    interest_portion = interest_on opening;
    principal_portion = inner_principal amount (interest_on opening);
    closing_balance = opening -ℤ inner_principal amount (interest_on opening);
    total_due = amount;
  }

  loop_inner :
      (rounds number count : ℕ) (opening : ℤ)
      → number ≢ count
      → reducing_loop interest_on amount (suc rounds) number count opening
        ≡ inner number opening
          ∷ reducing_loop interest_on amount rounds
              (number + 1)
              count
              (opening -ℤ inner_principal amount (interest_on opening))
  unfolding reducing_loop
  loop_inner rounds number count opening n =
      let t : (number == count) ≡ false = ground arith in rw t

  payoff :
      (rounds number count : ℕ) (opening : ℤ)
      → number + rounds ≡ count
      → (let entries = reducing_loop interest_on amount (suc rounds) number count opening in
          (length entries ≡ suc rounds)
          × (principal_total entries ≡ opening)
          × IsPayoff opening entries)
  payoff zero number count opening n = IsPayoff-last number count opening (omega arith)
  payoff (suc rounds) number count opening n =
      let p = inner_principal amount (interest_on opening) in
      let (len, total, chain) = payoff rounds (number + 1) count (opening -ℤ p) (omega arith) in
      rw (loop_inner (suc rounds) number count opening (omega arith)) (
        omega arith,
        rw total (omega int_laws),
        (refl, refl, λ _. inner_principal_nonneg amount (interest_on opening), chain),
      )

-- Whatever the floating-point arithmetic yields, for a positive number of installments there is a
-- schedule of exactly that many entries, whose principal portions add up to the principal, whose
-- entries open where the one before closed and close at the opening balance less the principal
-- portion, none but the last with a negative portion, the first opening at the principal and the
-- last closing at 0.
pub reducing_schedule_pays_off :
    (fl : Floats) (principal rate rest : ℕ)
    → (entries : List ReducingInstallment) × (calculate_reducing_balance_schedule fl principal rate
          (suc rest)
        ≡ ok entries)
      × (length entries ≡ suc rest)
      × (principal_total entries ≡ pos principal)
      × IsPayoff (pos principal) entries
unfolding calculate_reducing_balance_schedule
reducing_schedule_pays_off fl principal rate rest =
    let (len, total, chain) = payoff _ _ rest 1 (suc rest) (pos principal) (omega arith) in
    (_, refl, len, total, chain)

-- The principal portion of the last entry.
abbrev pub last_portion : List ReducingInstallment → ℤ
last_portion [] = pos 0
last_portion (e ∷ []) = e.principal_portion
last_portion (e ∷ f ∷ es) = last_portion (f ∷ es)

-- Every entry but the last pays k.
abbrev pub OthersPay : ℕ → List ReducingInstallment → Type 0
OthersPay k [] = Unit
OthersPay k (e ∷ []) = Unit
OthersPay k (e ∷ f ∷ es) = (e.principal_portion ≡ pos k) × OthersPay k (f ∷ es)

single_others :
    (k number count : ℕ) (opening : ℤ)
    → OthersPay k (reducing_loop (λ _. pos 0) (pos k) 1 number count opening)
unfolding reducing_loop
single_others k number count opening = tt

cons_others :
    (k : ℕ) (e : ReducingInstallment) (f : ℤ → ℤ) (amount : ℤ) (rounds number count : ℕ)
    (opening : ℤ)
    → e.principal_portion ≡ pos k
    → OthersPay k (reducing_loop f amount (suc rounds) number count opening)
    → OthersPay k (e ∷ reducing_loop f amount (suc rounds) number count opening)
unfolding reducing_loop
cons_others k e f amount rounds number count opening pays others = (pays, others)

inner_principal_free : (k : ℕ) → inner_principal (pos k) (pos 0) ≡ pos k
unfolding inner_principal ◌-ℤ◌
inner_principal_free k = ground arith

loop_others :
    (k rounds number count : ℕ) (opening : ℤ)
    → number + rounds ≡ count
    → OthersPay k (reducing_loop (λ _. pos 0) (pos k) (suc rounds) number count opening)
loop_others k zero number count opening n = single_others k number count opening
loop_others k (suc rounds) number count opening n =
    rw (loop_inner (λ _. pos 0) (pos k) (suc rounds) number count opening (omega arith)) (
      cons_others k (inner (λ _. pos 0) (pos k) number opening) (λ _. pos 0) (pos k) rounds
        (number + 1) count (opening -ℤ inner_principal (pos k) (pos 0)) (inner_principal_free k)
        (loop_others k rounds (number + 1) count _ (omega arith)))

last_portion_at :
    (k number count : ℕ) (opening : ℤ)
    → number ≡ count
    → last_portion (reducing_loop (λ _. pos 0) (pos k) 1 number count opening) ≡ opening
unfolding reducing_loop
last_portion_at k number count opening n = let t : (number == count) ≡ true = ground arith in rw t

last_portion_cons :
    (e : ReducingInstallment) (f : ℤ → ℤ) (amount : ℤ) (rounds number count : ℕ) (opening : ℤ)
    → last_portion (e ∷ reducing_loop f amount (suc rounds) number count opening)
      ≡ last_portion (reducing_loop f amount (suc rounds) number count opening)
unfolding reducing_loop
last_portion_cons e f amount rounds number count opening = refl

last_portion_more :
    (k rounds number count : ℕ) (opening : ℤ)
    → number + rounds ≡ count
    → last_portion (reducing_loop (λ _. pos 0) (pos k) (suc rounds) number count opening)
        +ℤ pos (k * rounds)
      ≡ opening
last_portion_more k zero number count opening n =
    rw (last_portion_at k number count opening (omega arith)) (omega int_laws)
last_portion_more k (suc rounds) number count opening n =
    let ih = last_portion_more k rounds (number + 1) count (opening -ℤ pos k) (omega arith) in
    rw
      (
        loop_inner (λ _. pos 0) (pos k) (suc rounds) number count opening (omega arith),
        last_portion_cons (inner (λ _. pos 0) (pos k) number opening) (λ _. pos 0) (pos k) rounds
            (number + 1) count (opening -ℤ inner_principal (pos k) (pos 0)),
        inner_principal_free k,
      )
      (omega (int_laws, ap pos_part ih, ap neg_part ih))

at_zero_rate :
    (fl : Floats) (principal k rest : ℕ)
    → installment_amount fl principal 0 (suc rest) ≡ pos k
    → ((opening : ℤ)
        → fl.round (fl.fmul (fl.of_ℤ opening) (per_installment_rate fl 0 (suc rest))) ≡ pos 0)
    → calculate_reducing_balance_schedule fl principal 0 (suc rest)
      ≡ ok (reducing_loop (λ _. pos 0) (pos k) (suc rest) 1 (suc rest) (pos principal))
unfolding calculate_reducing_balance_schedule
at_zero_rate fl principal k rest amount free =
    let build : (ℤ → ℤ) → ℤ → Result (List ReducingInstallment) =
      λ f a. ok (reducing_loop f a (suc rest) 1 (suc rest) (pos principal)) in
    ap₂ build (fun_ext free) amount

-- Where the float arithmetic rounds the even split to k and every interest to 0, every installment but
-- the last pays k, so the last one pays what the principal exceeds k times the others by, and a negative
-- portion where it falls short.
pub zero_rate_last_portion :
    (fl : Floats) (principal k rest : ℕ)
    → installment_amount fl principal 0 (suc rest) ≡ pos k
    → ((opening : ℤ)
        → fl.round (fl.fmul (fl.of_ℤ opening) (per_installment_rate fl 0 (suc rest))) ≡ pos 0)
    → (entries : List ReducingInstallment) × (calculate_reducing_balance_schedule fl principal 0
          (suc rest)
        ≡ ok entries)
      × OthersPay k entries
      × (last_portion entries +ℤ pos (k * rest) ≡ pos principal)
zero_rate_last_portion fl principal k rest amount free = (
  reducing_loop (λ _. pos 0) (pos k) (suc rest) 1 (suc rest) (pos principal),
  at_zero_rate fl principal k rest amount free,
  loop_others k rest 1 (suc rest) (pos principal) (omega arith),
  last_portion_more k rest 1 (suc rest) (pos principal) (omega arith),
)
