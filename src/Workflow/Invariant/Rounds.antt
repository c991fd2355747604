-- ===== src/Workflow/Invariant/Rounds.antt =====
-- A new round: the chain's steps sorted by order, all blank.
use bckashbackend.Common.{
  ℕ, suc, ◌<◌, ◌≡◌, refl, inl, inr, true, false, List, [], ◌∷◌, map, ◌==◌, length, arith,
  Bool-cases, ok, length-map, ap, ◌∙◌,
}
use bckashbackend.Workflow.Types.{StepConfig}
use bckashbackend.Workflow.Chains.{
  insert_order, sort_orders, insert_step, sort_steps, is_contiguous, validate_steps, fresh_steps,
  blank_step,
}
use bckashbackend.Workflow.Invariant.Steps.{acted_on, Fit, Distinct}

abbrev orders : List StepConfig → List ℕ
orders = map (λ (c : StepConfig). c.order)

insert_step-orders :
    (x : StepConfig) (ys : List StepConfig)
    → orders (insert_step x ys) ≡ insert_order x.order (orders ys)
unfolding insert_step insert_order
insert_step-orders x [] = refl
insert_step-orders x (y ∷ ys) = ground (arith, insert_step-orders x ys)

-- Sorting the steps by order sorts their orders.
pub sort_steps-orders :
    (steps : List StepConfig) → orders (sort_steps steps) ≡ sort_orders (orders steps)
unfolding sort_steps sort_orders
sort_steps-orders [] = refl
sort_steps-orders (x ∷ xs) =
    insert_step-orders x (sort_steps xs) ∙ ap (insert_order x.order) (sort_steps-orders xs)

length-insert_step :
    (x : StepConfig) (ys : List StepConfig) → length (insert_step x ys) ≡ suc (length ys)
unfolding insert_step
length-insert_step x [] = refl
length-insert_step x (y ∷ ys) = ground (arith, length-insert_step x ys)

length-sort_steps : (xs : List StepConfig) → length (sort_steps xs) ≡ length xs
unfolding sort_steps
length-sort_steps [] = refl
length-sort_steps (x ∷ xs) =
    omega (arith, length-insert_step x (sort_steps xs), length-sort_steps xs)

pub length-fresh : (steps : List StepConfig) → length (fresh_steps steps) ≡ length steps
unfolding fresh_steps
length-fresh steps = omega (arith, length-sort_steps steps, length-map {0, 0})

-- The orders that `validateSteps` admits, once sorted.
abbrev pub IsValidChain : List StepConfig → Type 0
IsValidChain steps = validate_steps steps ≡ ok tt

validate_contiguous :
    (s : StepConfig) (ss : List StepConfig)
    → IsValidChain (s ∷ ss)
    → is_contiguous 0 (sort_orders (orders (s ∷ ss))) ≡ true
unfolding validate_steps
validate_contiguous s ss v = ground arith

valid-contiguous :
    (steps : List StepConfig)
    → IsValidChain steps
    → is_contiguous 0 (orders (sort_steps steps)) ≡ true
unfolding is_contiguous sort_steps
valid-contiguous [] v = refl
valid-contiguous (s ∷ ss) v = rw (sort_steps-orders (s ∷ ss)) (validate_contiguous s ss v)

blank-Fit :
    (i : ℕ) (steps : List StepConfig)
    → is_contiguous i (orders steps) ≡ true
    → Fit i 0 0 (map blank_step steps)
unfolding is_contiguous
blank-Fit i [] h = tt
blank-Fit i (s ∷ ss) h = elim (Bool-cases (s.order == i)) [
  | inl here ↦ (
    record { in_place = ground arith; done = λ l. absurd (omega arith); blank = λ _. refl },
    blank-Fit (suc i) ss (rw here at h),
  )
  | inr past ↦ absurd (ground arith)
]

-- A new round of a validated chain has each step in its place, and blank.
pub fresh-Fit : (steps : List StepConfig) → IsValidChain steps → Fit 0 0 0 (fresh_steps steps)
unfolding fresh_steps
fresh-Fit steps v = blank-Fit 0 (sort_steps steps) (valid-contiguous steps v)

blank-acted_on : (q : ℕ) (steps : List StepConfig) → acted_on q (map blank_step steps) ≡ false
blank-acted_on q [] = refl
blank-acted_on q (s ∷ ss) = blank-acted_on q ss

pub acted_on-fresh : (q : ℕ) (steps : List StepConfig) → acted_on q (fresh_steps steps) ≡ false
unfolding fresh_steps
acted_on-fresh q steps = blank-acted_on q (sort_steps steps)

blank-Distinct : (steps : List StepConfig) → Distinct (map blank_step steps)
blank-Distinct [] = tt
blank-Distinct (s ∷ ss) = (tt, blank-Distinct ss)

pub Distinct-fresh : (steps : List StepConfig) → Distinct (fresh_steps steps)
unfolding fresh_steps
Distinct-fresh steps = blank-Distinct (sort_steps steps)

pub valid_nonempty : (steps : List StepConfig) → IsValidChain steps → 0 < length steps
unfolding validate_steps
valid_nonempty [] v = ground arith
valid_nonempty (s ∷ ss) v = omega arith
