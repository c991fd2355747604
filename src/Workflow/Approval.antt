-- ===== src/Workflow/Approval.antt =====
-- A request that enough staff members approve becomes APPROVED
-- (src/platform/workflow-engine/workflow-engine.service.ts, `act`).
use mathlib.Core.Option.{some-injective}
use bckashbackend.Common.{
  ◌∙◌, subst, ℕ, zero, suc, ◌+◌, ◌≡◌, ◌≢◌, refl, ap, true, false, none, some, List, [], ◌∷◌, map,
  ◌==◌, includes, get_elem?, length, length-map, All, ok, arith, Bool-cases, inl, inr,
}
use bckashbackend.Common.Store.{find, update_if_passes, find-modify_self}
use bckashbackend.Workflow.Types.{Status, StepAction, StepRecord, Request, ActInput, Validators}
use bckashbackend.Workflow.Engine.{
  Engine, is_actionable, compute_status, decide_on, run_validator, act_check, act_write, mark_step,
  act_commit, with_request, require, act, is_unchanged, write_if,
}
use bckashbackend.Workflow.Authority.{is_unchanged_self}
use bckashbackend.Workflow.Invariant.Steps.{acted_on, acted_on-mark}

abbrev staff_of : ActInput → ℕ
staff_of a = a.actor.staff_id

-- One approval after another.
abbrev pub act_all : Validators → List ActInput → (now : ℕ) → Engine → Engine
act_all vs [] now e = e
act_all vs (a ∷ rest) now e = act_all vs rest now (act vs a now e).1

-- Approvals for the steps from an index on, each by a staff member who is not the maker, has not acted
-- on the request, holds the capability of the step, and gives none of the later ones.
abbrev pub Able : (id maker : ℕ) → List StepRecord → (index : ℕ) → List ActInput → Type 0
Able id maker steps i [] = Unit
Able id maker steps i (a ∷ rest) =
    (a.workflow_request_id ≡ id)
    × (a.action ≡ StepAction.approved)
    × (a.actor.staff_id == maker ≡ false)
    × (acted_on a.actor.staff_id steps ≡ false)
    × ((s : StepRecord) × (get_elem? steps i ≡ some s)
        × (includes s.required_capability a.actor.capabilities ≡ true))
    × All (λ b. a.actor.staff_id ≢ b.actor.staff_id) rest
    × Able id maker steps (i + 1) rest

capability_kept :
    (c : ℕ) (a : ActInput) (now : ℕ) (t : StepRecord)
    → (mark_step c a now t).required_capability ≡ t.required_capability
unfolding mark_step
capability_kept c a now t = ground arith

get_elem?-mark :
    (c : ℕ) (a : ActInput) (now i : ℕ) (steps : List StepRecord) {s : StepRecord}
    → get_elem? steps i ≡ some s
    → (s' : StepRecord) × (get_elem? (map (mark_step c a now) steps) i ≡ some s')
      × (s'.required_capability ≡ s.required_capability)
unfolding mark_step
get_elem?-mark c a now i [] e = cc
get_elem?-mark c a now zero (t ∷ steps) e = (
  mark_step c a now t,
  refl,
  capability_kept c a now t ∙ ap (λ (x : StepRecord). x.required_capability) (some-injective t _ e),
)
get_elem?-mark c a now (suc i) (t ∷ steps) e = get_elem?-mark c a now i steps e

-- The later approvals stay able after the one at the current step.
Able-mark :
    (id maker c : ℕ) (a : ActInput) (now i : ℕ) (steps : List StepRecord) (rest : List ActInput)
    → All (λ b. a.actor.staff_id ≢ b.actor.staff_id) rest
    → Able id maker steps i rest
    → Able id maker (map (mark_step c a now) steps) i rest
Able-mark id maker c a now i steps [] apart h = tt
Able-mark id maker c a now i steps (b ∷ rest) apart h =
    let (same_id, approves, not_maker, new, (s, there, capable), others, later) = h in
    let (s', there', same) = get_elem?-mark c a now i steps there in
    (
      same_id,
      approves,
      not_maker,
      acted_on-mark a now c b.actor.staff_id steps apart.0 new,
      (s', there', rw same capable),
      others,
      Able-mark id maker c a now (i + 1) steps rest apart.1 later,
    )

module _ (vs : Validators) (a : ActInput) (now id i : ℕ) (e : Engine) (r : Request) where
  passes :
      is_actionable r.status ≡ true
      → vs r.entity_type r.action ≡ none
      → r.current_step_index ≡ i
      → a.action ≡ StepAction.approved
      → a.actor.staff_id == r.initiated_by ≡ false
      → acted_on a.actor.staff_id r.steps ≡ false
      → (s : StepRecord) → get_elem? r.steps i ≡ some s
      → includes s.required_capability a.actor.capabilities ≡ true
      → act_check vs r a ≡ ok (decide_on StepAction.approved i (length r.steps))
  unfolding act_check run_validator
  passes pending free here approves not_maker new s there capable =
      rw (here, approves, pending, not_maker, new, there, capable, free)
        (elim (Bool-cases (i + 1 == length r.steps)) [
          | inl last ↦ rw last refl
          | inr earlier ↦ rw earlier refl
        ])

runs :
    (vs : Validators) (a : ActInput) (now : ℕ) (e : Engine) (r : Request) {verdict : Status × ℕ}
    → find a.workflow_request_id e.requests ≡ some r
    → act_check vs r a ≡ ok verdict
    → act vs a now e ≡ act_commit r verdict a now e
unfolding act
runs vs a now e r found passed = rw (found, with_request) (rw (passed, require) refl)

-- An act that passes its guards, with nothing between its read and its write, takes effect.
act_takes_effect :
    (vs : Validators) (a : ActInput) (now : ℕ) (e : Engine) (r : Request) {verdict : Status × ℕ}
    → find a.workflow_request_id e.requests ≡ some r
    → act_check vs r a ≡ ok verdict
    → find a.workflow_request_id (act vs a now e).1.requests
      ≡ some (act_write verdict r.current_step_index a now r)
unfolding act_commit
act_takes_effect vs a now e r {verdict} found passed =
    let write = act_write verdict r.current_step_index a now in
    let kept =
      update_if_passes a.workflow_request_id (is_unchanged r) write e.requests found
        (is_unchanged_self r) in
    rw (runs vs a now e r found passed, kept, write_if)
      (find-modify_self a.workflow_request_id write e.requests found)

still_pending : (i total : ℕ) → is_actionable (compute_status i total) ≡ true
unfolding compute_status
still_pending i total = ground arith

module _ (vs : Validators) (now id i : ℕ) (a : ActInput) (rest : List ActInput) where
  -- What the approval of a current step leaves.
  approve :
      (e : Engine) (r : Request)
      → find id e.requests ≡ some r
      → is_actionable r.status ≡ true
      → vs r.entity_type r.action ≡ none
      → r.current_step_index ≡ i
      → Able id r.initiated_by r.steps i (a ∷ rest)
      → find id (act vs a now e).1.requests
        ≡ some (act_write (decide_on StepAction.approved i (length r.steps)) i a now r)
  approve e r found pending free here h =
      let (same_id, approves, not_maker, new, (s, there, capable), others, later) = h in
      let passed =
        passes vs a now id i e r pending free here approves not_maker new s there capable in
      let found' : find a.workflow_request_id e.requests ≡ some r = rw same_id found in
      let effect = act_takes_effect vs a now e r found' passed in
      let after = (act vs a now e).1.requests in
      let write =
        λ (j : ℕ). act_write (decide_on StepAction.approved i (length r.steps)) j a now r in
      subst (λ k. find k after ≡ some (write i)) same_id
        (subst (λ j. find a.workflow_request_id after ≡ some (write j)) here effect)

module _ (vs : Validators) (now id : ℕ) where
  -- Of a request that is pending at a step, with a staff member for this step and one for each later one,
  -- and no pre-approval validator, the approvals, one after another, make it APPROVED. Each of these staff
  -- members is not the maker, has not acted on the request, and holds the capability of the step.
  pub act_all_approves :
      (others : List ActInput) (a : ActInput) (i : ℕ) (e : Engine) (r : Request)
      → find id e.requests ≡ some r
      → is_actionable r.status ≡ true
      → vs r.entity_type r.action ≡ none
      → r.current_step_index ≡ i
      → i + suc (length others) ≡ length r.steps
      → Able id r.initiated_by r.steps i (a ∷ others)
      → (q : Request) × (find id (act_all vs (a ∷ others) now e).requests ≡ some q)
        × (q.status ≡ Status.approved)
  unfolding act_write decide_on
  act_all_approves [] a i e r found pending free here enough h =
      let last : i + 1 == length r.steps ≡ true = ground arith in
      let kept = approve vs now id i a [] e r found pending free here h in
      (_, rw last at kept, refl)
  act_all_approves (b ∷ rest) a i e r found pending free here enough h =
      let earlier : i + 1 == length r.steps ≡ false = ground arith in
      let kept = approve vs now id i a (b ∷ rest) e r found pending free here h in
      let total = length-map (mark_step i a now) r.steps in
      act_all_approves rest b (i + 1) (act vs a now e).1
        (act_write (compute_status (i + 1) (length r.steps), i + 1) i a now r) (rw earlier at kept)
        (still_pending (i + 1) (length r.steps)) free refl (ground arith)
        (Able-mark id r.initiated_by i a now (i + 1) r.steps (b ∷ rest) h.5 h.6)
