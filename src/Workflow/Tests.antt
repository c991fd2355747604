-- ===== src/Workflow/Tests.antt =====
-- Runs of the workflow engine: a chain of two steps, a request that passes both, and one that does not
-- (src/platform/workflow-engine/workflow-engine.service.ts).
use bckashbackend.Common.{
  arith, ◌↔◌, ℕ, ◌<◌, ◌≡◌, refl, true, false, none, some, List, [], ◌∷◌, length, All, ok, err,
  conflict, forbidden,
}
use bckashbackend.Common.Store.{find}
use bckashbackend.Workflow.Types.{
  Status, StepAction, StepRecord, Request, ChainConfig, ActingStaff, ActInput, InitiateInput,
  ResubmitInput,
}
use bckashbackend.Workflow.Engine.{
  register_pre_approval_validator, Engine, act_check, act_commit, act, decide_on,
}
use bckashbackend.Workflow.Chains.{register_chain_config, initiate}
use bckashbackend.Workflow.Maker.{update_pending_payload, resubmit, cancel, delete_request}
use bckashbackend.Workflow.Queries.{
  no_validators, approval, is_pending_for, is_pending_for-act_check,
}
use bckashbackend.Workflow.Races.{act_commit_race}
use bckashbackend.Workflow.Approval.{act_all, act_all_approves}
use bckashbackend.Workflow.Authority.{
  Decided, act-Decided, MakerOnly, maker_operations, is_editable, is_sent_back, is_cancellable,
  is_deletable,
}
use bckashbackend.Workflow.Invariant.Steps.{Distinct}
use bckashbackend.Workflow.Invariant.Keeps.{IsConsistent}
use bckashbackend.Workflow.Invariant.Reach.{
  acts, initiates, registers, Reachable, start, next, empty_engine, ApprovedBy, four_eyes,
  Reachable-IsConsistent,
}

abbrev chain : ChainConfig
chain = record {
  entity_type = 1;
  action = 2;
  restart_on_return = false;
  steps =
      record { order = 0; required_capability = 10 }
      ∷ record { order = 1; required_capability = 11 }
      ∷ [];
  is_active = true;
}

abbrev order_input : InitiateInput
order_input = record {
  entity_type = 1;
  action = 2;
  payload = "{}";
  initiated_by = 5;
  branch_id = none;
  entity_id = some 9;
}

abbrev reviewer : ActingStaff
reviewer = record { staff_id = 6; capabilities = 10 ∷ [] }

abbrev approver : ActingStaff
approver = record { staff_id = 7; capabilities = 11 ∷ [] }

abbrev registered : Engine
registered = (register_chain_config chain empty_engine).1

abbrev begun : Engine
begun = (initiate 0 order_input 100 registered).1

abbrev reviewed : Engine
reviewed = (act no_validators (approval 0 reviewer) 200 begun).1

abbrev finished : Engine
finished = (act no_validators (approval 0 approver) 300 reviewed).1

finished_reached : Reachable finished
finished_reached =
    next
      (next (next (next start (registers chain)) (initiates 0 order_input 100))
        (acts no_validators (approval 0 reviewer) 200))
      (acts no_validators (approval 0 approver) 300)

abbrev new_step : ℕ → ℕ → StepRecord
new_step order capability = record {
  order = order;
  required_capability = capability;
  acted_by = none;
  action = none;
  comment = none;
  acted_at = none;
}

abbrev approved_step : ℕ → ℕ → ℕ → ℕ → StepRecord
approved_step order capability who at = record {
  order = order;
  required_capability = capability;
  acted_by = some who;
  action = some StepAction.approved;
  comment = none;
  acted_at = some at;
}

abbrev request_with : Status → ℕ → List StepRecord → Request
request_with status index steps = record {
  entity_type = 1;
  entity_id = some 9;
  action = 2;
  status = status;
  steps = steps;
  current_step_index = index;
  payload_history = record { payload = "{}"; submitted_by = 5; submitted_at = 100 } ∷ [];
  initiated_by = 5;
  branch_id = none;
}

abbrev begun_request : Request
begun_request = request_with Status.pending_review 0 (new_step 0 10 ∷ new_step 1 11 ∷ [])

abbrev finished_request : Request
finished_request =
    request_with Status.approved 1 (approved_step 0 10 6 200 ∷ approved_step 1 11 7 300 ∷ [])

finished_found : find 0 finished.requests ≡ some finished_request
unfolding act initiate register_chain_config
finished_found = refl

begun_found : find 0 begun.requests ≡ some begun_request
unfolding initiate register_chain_config
begun_found = refl

four_eyes_example :
    (0 < length finished_request.steps)
    × All (ApprovedBy 5) finished_request.steps
    × Distinct finished_request.steps
four_eyes_example = four_eyes 0 finished_request finished_reached finished_found refl

IsConsistent-example : IsConsistent finished
IsConsistent-example = Reachable-IsConsistent finished_reached

decided_example :
    Decided no_validators
      (approval 0 reviewer)
      200
      begun
      (act no_validators (approval 0 reviewer) 200 begun)
decided_example = act-Decided no_validators (approval 0 reviewer) 200 begun

abbrev edit : ResubmitInput
edit = record { workflow_request_id = 0; actor_id = 5; new_payload = "[]" }

abbrev approvals : List ActInput
approvals = approval 0 reviewer ∷ approval 0 approver ∷ []

maker_example :
    MakerOnly 0 5 is_editable begun (update_pending_payload edit 150 begun)
    × MakerOnly 0 5 is_sent_back begun (resubmit edit 150 begun)
    × MakerOnly 0 5 is_cancellable begun (cancel 0 5 begun)
    × MakerOnly 0 5 is_deletable begun (delete_request 0 5 begun)
maker_example = maker_operations begun edit 0 5 150

passed :
    act_check no_validators begun_request (approval 0 reviewer) ≡ ok (Status.pending_approval, 1)
unfolding act_check
passed = refl

-- A rejection of the same step that was read before the approval was written.
abbrev rejection : ActInput
rejection = record {
  workflow_request_id = 0;
  actor = record { staff_id = 8; capabilities = 10 ∷ [] };
  action = StepAction.rejected;
  comment = some "late";
}

race_example :
    (let after =
        (act_commit begun_request (Status.pending_approval, 1) (approval 0 reviewer) 200 begun).1 in
      act_commit begun_request (Status.rejected, 0) rejection 201 after ≡ (err conflict, after))
race_example =
    act_commit_race no_validators begun_request (approval 0 reviewer) rejection (Status.rejected, 0)
      200 201 begun refl begun_found passed

pending_example : (is_pending_for reviewer begun_request ≡ true) ↔ (
    act_check no_validators begun_request (approval 0 reviewer)
    ≡ ok (decide_on StepAction.approved 0 2))
pending_example = is_pending_for-act_check 0 reviewer begun_request

-- A registered validator that refuses blocks the final approval, and only for its own key.
refused :
    (act
      (register_pre_approval_validator 1 2 (λ r actor. err forbidden) no_validators)
      (approval 0 approver)
      300
      reviewed).0
    ≡ err forbidden
unfolding act initiate register_chain_config register_pre_approval_validator
refused = refl

not_refused :
    (act
      (register_pre_approval_validator 1 3 (λ r actor. err forbidden) no_validators)
      (approval 0 approver)
      300
      reviewed).0
    ≡ ok finished_request
unfolding act initiate register_chain_config register_pre_approval_validator
not_refused = refl

all_approved_example :
    (q : Request) × (find 0 (act_all no_validators approvals 200 begun).requests ≡ some q)
    × (q.status ≡ Status.approved)
all_approved_example =
    act_all_approves no_validators 200 0 (approval 0 approver ∷ []) (approval 0 reviewer) 0 begun
      begun_request begun_found refl refl refl refl
      (
        refl,
        refl,
        refl,
        refl,
        (new_step 0 10, refl, refl),
        ((λ same. ground arith), tt),
        (refl, refl, refl, refl, (new_step 1 11, refl, refl), tt, tt),
      )
