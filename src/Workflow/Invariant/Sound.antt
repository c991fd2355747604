-- ===== src/Workflow/Invariant/Sound.antt =====
-- The invariant of a workflow request, and that every write of the engine keeps it.
use bckashbackend.Common.{
  ℕ, suc, ◌+◌, ◌<◌, ◌≡◌, refl, sym, ◌≢◌, ◌⊎◌, inl, inr, true, false, List, map, ◌==◌, length, arith,
  Bool-cases, ok, length-map, ◌||◌,
}
use mathlib.Core.Path.{subst}
use native.Mathlib.Numerals.{add-one}
use bckashbackend.Workflow.Types.{
  Status, same_status, StepAction, StepRecord, Request, ActInput, ChainConfig, ResubmitInput,
  InitiateInput, Validators,
}
use bckashbackend.Workflow.Engine.{
  compute_status, decide_on, act_check, act_write, mark_step, is_actionable,
}
use bckashbackend.Workflow.Chains.{new_request, fresh_steps}
use bckashbackend.Workflow.Maker.{next_round, resubmit_write}
use bckashbackend.Workflow.Invariant.Steps.{
  acted_on, Fit, Distinct, mark-Fit, approve-Fit, acted_on-mark, Distinct-mark, clear-Fit,
  acted_on-clear, Distinct-clear, length-clear,
}
use bckashbackend.Workflow.Invariant.Rounds.{
  IsValidChain, fresh-Fit, acted_on-fresh, Distinct-fresh, length-fresh, valid_nonempty,
}

-- How far the chain has got, by the status.
abbrev pub Progress : Status → ℕ → List StepRecord → Type 0
Progress Status.pending_review c ss = Fit 0 c c ss × (suc c ≢ length ss)
Progress Status.pending_approval c ss = Fit 0 c c ss × (suc c ≡ length ss)
Progress Status.approved c ss = Fit 0 (suc c) (suc c) ss × (suc c ≡ length ss)
Progress Status.rejected c ss = Fit 0 c (suc c) ss
Progress Status.returned_to_maker c ss = Fit 0 c (suc c) ss
Progress Status.cancelled c ss = Unit

pub record IsSound (r : Request) : Type 0 where
  pub maker_apart : acted_on r.initiated_by r.steps ≡ false
  pub distinct : Distinct r.steps
  pub in_range : r.current_step_index < length r.steps
  pub progress : Progress r.status r.current_step_index r.steps

compute_status-Progress :
    (c : ℕ) (ss : List StepRecord) → Fit 0 c c ss → Progress (compute_status c (length ss)) c ss
unfolding compute_status
compute_status-Progress c ss f = elim (Bool-cases (c + 1 == length ss)) [
  | inl e ↦ rw e (f, ground arith)
  | inr e ↦ rw e (f, ground arith)
]

-- A request that was just initiated is sound.
pub new_request-IsSound :
    (chain : ChainConfig) (input : InitiateInput) (now : ℕ)
    → IsValidChain chain.steps
    → IsSound (new_request chain input now)
unfolding new_request
new_request-IsSound chain input now v = record {
  maker_apart = acted_on-fresh input.initiated_by chain.steps;
  distinct = Distinct-fresh chain.steps;
  in_range = omega (arith, length-fresh chain.steps, valid_nonempty chain.steps v);
  progress = compute_status-Progress 0 (fresh_steps chain.steps) (fresh-Fit chain.steps v);
}

-- What `act_check` has established when it passes.
pub record Passed (r : Request) (input : ActInput) (verdict : Status × ℕ) : Type 0 where
  pub pending : is_actionable r.status ≡ true
  pub not_maker : input.actor.staff_id ≢ r.initiated_by
  pub not_before : acted_on input.actor.staff_id r.steps ≡ false
  pub decided : verdict ≡ decide_on input.action r.current_step_index (length r.steps)

pub act_check-Passed :
    (validators : Validators) (r : Request) (input : ActInput) {verdict : Status × ℕ}
    → act_check validators r input ≡ ok verdict
    → Passed r input verdict
unfolding act_check
act_check-Passed validators r input e = ground arith

pending-Fit :
    (s : Status) (c : ℕ) (ss : List StepRecord)
    → is_actionable s ≡ true
    → Progress s c ss
    → Fit 0 c c ss
pending-Fit Status.pending_review c ss p h = h.0
pending-Fit Status.pending_approval c ss p h = h.0
pending-Fit Status.approved c ss p h = cc
pending-Fit Status.rejected c ss p h = cc
pending-Fit Status.returned_to_maker c ss p h = cc
pending-Fit Status.cancelled c ss p h = cc

module _ (r : Request) (input : ActInput) (now : ℕ) where
  abbrev marked : List StepRecord
  marked = map (mark_step r.current_step_index input now) r.steps

  length-marked : length marked ≡ length r.steps
  length-marked = length-map (mark_step r.current_step_index input now) r.steps

  -- The new status fits the new steps.
  act_write-Progress :
      (action : StepAction)
      → input.action ≡ action
      → Fit 0 r.current_step_index r.current_step_index r.steps
      → r.current_step_index < length r.steps
      → (let (status, index) = decide_on action r.current_step_index (length r.steps) in
          (index < length marked) × Progress status index marked)
  unfolding decide_on
  act_write-Progress StepAction.rejected e f l =
      (omega (arith, length-marked), mark-Fit input now r.current_step_index 0 r.steps f)
  act_write-Progress StepAction.returned e f l =
      (omega (arith, length-marked), mark-Fit input now r.current_step_index 0 r.steps f)
  act_write-Progress StepAction.approved e f l =
      elim (Bool-cases (r.current_step_index + 1 == length r.steps)) [
        | inl last ↦
            let at_end : suc r.current_step_index ≡ length r.steps = ground arith in
            rw last (
              omega (arith, length-marked),
              (
                approve-Fit input now r.current_step_index 0 r.steps e f,
                omega (arith, length-marked),
              ),
            )
        | inr more ↦
            let before_end : suc r.current_step_index ≢ length r.steps = ground arith in
            rw more (
              omega (arith, length-marked),
              subst
                  (λ n.
                    Progress (compute_status (r.current_step_index + 1) n)
                      (r.current_step_index + 1) marked)
                  length-marked
                  (compute_status-Progress (r.current_step_index + 1) marked (
                    subst (λ k. Fit 0 k k marked) (sym (add-one r.current_step_index))
                      (approve-Fit input now r.current_step_index 0 r.steps e f))),
            )
      ]

-- A write of `act` after its guards keeps a request sound.
pub act_write-IsSound :
    (r : Request) (input : ActInput) (now : ℕ) (verdict : Status × ℕ)
    → Passed r input verdict
    → IsSound r
    → IsSound (act_write verdict r.current_step_index input now r)
unfolding act_write
act_write-IsSound r input now verdict p h =
    let fit = pending-Fit r.status r.current_step_index r.steps p.pending h.progress in
    let (range, progress) = act_write-Progress r input now input.action refl fit h.in_range in
    subst (λ v. IsSound (act_write v r.current_step_index input now r)) (sym p.decided)
      (record {
        maker_apart =
            acted_on-mark input now r.current_step_index r.initiated_by r.steps p.not_maker
              h.maker_apart;
        distinct =
            Distinct-mark input now r.current_step_index 0 r.steps fit p.not_before h.distinct;
        in_range = range;
        progress = progress;
      })

closed-Fit :
    (s : Status) (c : ℕ) (ss : List StepRecord)
    → (s ≡ Status.rejected) ⊎ (s ≡ Status.returned_to_maker)
    → Progress s c ss
    → Fit 0 c (suc c) ss
closed-Fit Status.rejected c ss e h = h
closed-Fit Status.returned_to_maker c ss e h = h
closed-Fit Status.pending_review c ss e h = ground arith
closed-Fit Status.pending_approval c ss e h = ground arith
closed-Fit Status.approved c ss e h = ground arith
closed-Fit Status.cancelled c ss e h = ground arith

-- The round that a resubmission starts: its index is in range, and its steps are blank from there.
next_round-Fit :
    (chain : ChainConfig) (r : Request)
    → IsValidChain chain.steps
    → (r.status ≡ Status.rejected) ⊎ (r.status ≡ Status.returned_to_maker)
    → IsSound r
    → (let (steps, index) = next_round chain r in
        (index < length steps)
        × Fit 0 index index steps
        × (acted_on r.initiated_by steps ≡ false)
        × Distinct steps)
unfolding next_round
next_round-Fit chain r v closed h =
    elim (Bool-cases (same_status r.status Status.rejected || chain.restart_on_return)) [
      | inl restart ↦ rw restart (
        omega (arith, length-fresh chain.steps, valid_nonempty chain.steps v),
        fresh-Fit chain.steps v,
        acted_on-fresh r.initiated_by chain.steps,
        Distinct-fresh chain.steps,
      )
      | inr resume ↦ rw resume (
        omega (arith, length-clear 0 r.current_step_index r.steps),
        clear-Fit 0 r.current_step_index r.steps
            (closed-Fit r.status r.current_step_index r.steps closed h.progress),
        acted_on-clear r.initiated_by 0 r.current_step_index r.steps h.maker_apart,
        Distinct-clear 0 r.current_step_index r.steps h.distinct,
      )
    ]

-- The write of `resubmit` keeps a closed request sound, if its chain is a validated one.
pub resubmit_write-IsSound :
    (chain : ChainConfig) (input : ResubmitInput) (now : ℕ) (r : Request)
    → IsValidChain chain.steps
    → (r.status ≡ Status.rejected) ⊎ (r.status ≡ Status.returned_to_maker)
    → IsSound r
    → IsSound (resubmit_write (next_round chain r) input now r)
unfolding resubmit_write
resubmit_write-IsSound chain input now r v closed h =
    let (range, fit, apart, distinct) = next_round-Fit chain r v closed h in
    let (steps, index) = next_round chain r in
    record {
      maker_apart = apart;
      distinct = distinct;
      in_range = range;
      progress = compute_status-Progress index steps fit;
    }
