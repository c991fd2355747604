-- ===== src/Workflow/Invariant/Steps.antt =====
-- The steps of a request: each in its place, approved up to one index and blank from another, and
-- no staff member on two of them.
use bckashbackend.Common.{
  ℕ, suc, ◌≤◌, ◌<◌, ◌≡◌, refl, ◌≢◌, inl, inr, Bool, true, false, Option, none, some, List, [], ◌∷◌,
  map, ◌==◌, eq_opt, any, is_some, length, arith, Bool-cases,
}
use bckashbackend.Workflow.Types.{StepAction, StepRecord, ActInput}
use bckashbackend.Workflow.Engine.{mark_step}
use bckashbackend.Workflow.Maker.{clear_step}

-- Has this staff member acted on one of the steps?
abbrev pub acted_on : ℕ → List StepRecord → Bool
acted_on p = any (λ (s : StepRecord). eq_opt s.acted_by p)

-- The step at position i: approved if i < a, blank if b ≤ i.
pub record Fits (i a b : ℕ) (s : StepRecord) : Type 0 where
  pub in_place : s.order ≡ i
  pub done : i < a → (s.action ≡ some StepAction.approved) × (is_some s.acted_by ≡ true)
  pub blank : b ≤ i → s.acted_by ≡ none

abbrev pub Fit : ℕ → ℕ → ℕ → List StepRecord → Type 0
Fit i a b [] = Unit
Fit i a b (s ∷ ss) = Fits i a b s × Fit (suc i) a b ss

abbrev pub Alone : Option ℕ → List StepRecord → Type 0
Alone none ss = Unit
Alone (some p) ss = acted_on p ss ≡ false

-- No staff member stands on two steps.
abbrev pub Distinct : List StepRecord → Type 0
Distinct [] = Unit
Distinct (s ∷ ss) = Alone s.acted_by ss × Distinct ss

module _ (input : ActInput) (now c : ℕ) where
  mark-Fits : (i : ℕ) (s : StepRecord) → Fits i c c s → Fits i c (suc c) (mark_step c input now s)
  unfolding mark_step
  mark-Fits i s h = ground arith

  -- An action at the current step leaves the chain approved up to that step.
  pub mark-Fit :
      (i : ℕ) (ss : List StepRecord)
      → Fit i c c ss
      → Fit i c (suc c) (map (mark_step c input now) ss)
  mark-Fit i [] h = tt
  mark-Fit i (s ∷ ss) h = (mark-Fits i s h.0, mark-Fit (suc i) ss h.1)

  approve-Fits :
      (i : ℕ) (s : StepRecord)
      → input.action ≡ StepAction.approved
      → Fits i c c s
      → Fits i (suc c) (suc c) (mark_step c input now s)
  unfolding mark_step
  approve-Fits i s e h = ground arith

  -- An approval at the current step leaves the chain approved up to the next.
  pub approve-Fit :
      (i : ℕ) (ss : List StepRecord)
      → input.action ≡ StepAction.approved
      → Fit i c c ss
      → Fit i (suc c) (suc c) (map (mark_step c input now) ss)
  approve-Fit i [] e h = tt
  approve-Fit i (s ∷ ss) e h = (approve-Fits i s e h.0, approve-Fit (suc i) ss e h.1)

  pub acted_on-mark :
      (q : ℕ) (ss : List StepRecord)
      → input.actor.staff_id ≢ q
      → acted_on q ss ≡ false
      → acted_on q (map (mark_step c input now) ss) ≡ false
  unfolding mark_step
  acted_on-mark q [] n h = refl
  acted_on-mark q (s ∷ ss) n h = ground (arith, acted_on-mark q ss n)

  -- Later steps are not the current one, so the write passes them by.
  mark_later :
      (i : ℕ) (ss : List StepRecord) → c < i → Fit i c c ss → map (mark_step c input now) ss ≡ ss
  unfolding mark_step
  mark_later i [] l h = refl
  mark_later i (s ∷ ss) l h = ground (arith, mark_later (suc i) ss)

  Alone-mark_same :
      (o : Option ℕ) (ss : List StepRecord)
      → eq_opt o input.actor.staff_id ≡ false
      → Alone o ss
      → Alone o (map (mark_step c input now) ss)
  Alone-mark_same none ss n h = tt
  Alone-mark_same (some q) ss n h = acted_on-mark q ss (ground arith) h

  Alone-mark :
      (i : ℕ) (s : StepRecord) (ss : List StepRecord)
      → Fits i c c s
      → Fit (suc i) c c ss
      → acted_on input.actor.staff_id (s ∷ ss) ≡ false
      → Alone s.acted_by ss
      → Alone (mark_step c input now s).acted_by (map (mark_step c input now) ss)
  unfolding mark_step
  Alone-mark i s ss f fs a d = elim (Bool-cases (s.order == c)) [
    | inl here ↦ rw (here, mark_later (suc i) ss (ground (arith, f.in_place)) fs) (ground arith)
    | inr past ↦ rw past (Alone-mark_same s.acted_by ss (ground arith) d)
  ]

  -- A new actor keeps the actors distinct.
  pub Distinct-mark :
      (i : ℕ) (ss : List StepRecord)
      → Fit i c c ss
      → acted_on input.actor.staff_id ss ≡ false
      → Distinct ss
      → Distinct (map (mark_step c input now) ss)
  Distinct-mark i [] f a d = tt
  Distinct-mark i (s ∷ ss) f a d =
      (Alone-mark i s ss f.0 f.1 a d.0, Distinct-mark (suc i) ss f.1 (ground arith) d.1)

-- Clearing the current step makes it blank again.
pub clear-Fit :
    (i c : ℕ) (ss : List StepRecord) → Fit i c (suc c) ss → Fit i c c (clear_step i c ss)
unfolding clear_step
clear-Fit i c [] h = tt
clear-Fit i c (s ∷ ss) h = elim (Bool-cases (i == c)) [
  | inl here ↦ rw here (
    record { in_place = h.0.in_place; done = λ l. absurd (ground arith); blank = λ _. refl },
    clear-Fit (suc i) c ss h.1,
  )
  | inr past ↦ rw past (ground (arith, h.0), clear-Fit (suc i) c ss h.1)
]

pub acted_on-clear :
    (q i c : ℕ) (ss : List StepRecord)
    → acted_on q ss ≡ false
    → acted_on q (clear_step i c ss) ≡ false
unfolding clear_step
acted_on-clear q i c [] h = refl
acted_on-clear q i c (s ∷ ss) h = ground (arith, acted_on-clear q (suc i) c ss)

Alone-clear :
    (o : Option ℕ) (i c : ℕ) (ss : List StepRecord) → Alone o ss → Alone o (clear_step i c ss)
Alone-clear none i c ss h = tt
Alone-clear (some q) i c ss h = acted_on-clear q i c ss h

pub Distinct-clear : (i c : ℕ) (ss : List StepRecord) → Distinct ss → Distinct (clear_step i c ss)
unfolding clear_step
Distinct-clear i c [] d = tt
Distinct-clear i c (s ∷ ss) d = elim (Bool-cases (i == c)) [
  | inl here ↦ rw here (tt, Distinct-clear (suc i) c ss d.1)
  | inr past ↦ rw past (Alone-clear s.acted_by (suc i) c ss d.0, Distinct-clear (suc i) c ss d.1)
]

pub length-clear : (i c : ℕ) (ss : List StepRecord) → length (clear_step i c ss) ≡ length ss
unfolding clear_step
length-clear i c [] = refl
length-clear i c (s ∷ ss) = omega (arith, length-clear (suc i) c ss)
