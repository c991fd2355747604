-- ===== src/Workflow/Engine.antt =====
-- `WorkflowEngineService` (src/platform/workflow-engine/workflow-engine.service.ts): the decision
-- on a request that was read, the guarded write, and the whole `act`.
use Prim.Native.String.{String}
use bckashbackend.Common.{
  ℕ, ◌+◌, Bool, true, false, not, ◌&&◌, Option, none, some, List, [], ◌∷◌, ◌++◌, map, ◌==◌,
  if◌then◌else◌, eq_opt, any, includes, get_elem?, last?, length, Result, ok, err, not_found,
  bad_request, conflict, forbidden, internal, ◌>>=◌, ◌>>◌, throw_if, or_throw,
}
use bckashbackend.Common.Store.{Store, find, update_if}
use bckashbackend.Workflow.Types.{
  Status, StepAction, same_status, StepRecord, Request, ChainConfig, ActingStaff, ActInput,
  AuditEntry, AuditAction, EventBase, Event, approved_event, rejected_event, returned_event,
  Validators,
}

-- The collections that the service writes, and what it hands to the audit log and the event bus.
pub record Engine : Type 0 where
  pub chains : List ChainConfig
  pub requests : Store Request
  pub audit : List AuditEntry
  pub events : List Event

abbrev pub Outcome : Type 0 → Type 0
Outcome A = Result A × Engine

-- `findById`, and NotFound if there is none.
abbrev pub with_request : {A : Type 0} → ℕ → Engine → (Request → Outcome A) → Outcome A
with_request id e k = elim (find id e.requests) [ none ↦ (err not_found, e) | some r ↦ k r ]

-- Checks that throw before anything is written.
abbrev pub require : {A B : Type 0} → Result B → Engine → (B → Outcome A) → Outcome A
require checks e k = elim checks [ err x ↦ (err x, e) | ok b ↦ k b ]

-- `findOneAndUpdate` with a guard: Conflict if it finds nothing, else what follows the write.
abbrev pub write_if :
    ℕ
    → (Request → Bool)
    → (Request → Request)
    → Engine
    → (Request → Engine → Engine)
    → Outcome Request
write_if id guard f e after = elim (update_if id guard f e.requests) [
  | none ↦ (err conflict, e)
  | some (q, d) ↦ (ok q, after q (record e { requests = d }))
]

-- The audit entry and the events of a write.
abbrev pub log : AuditEntry → List Event → Engine → Engine
log entry events e = record e { audit = e.audit ++ entry ∷ []; events = e.events ++ events }

unfoldable pub compute_status : ℕ → ℕ → Status
compute_status step_index total =
    if step_index + 1 == total then Status.pending_approval else Status.pending_review

-- `ACTIONABLE_STATUSES.includes(status)`
abbrev pub is_actionable : Status → Bool
is_actionable Status.pending_review = true
is_actionable Status.pending_approval = true
is_actionable _ = false

-- `!comment` is false of a missing and of an empty comment.
abbrev pub has_text : Option String → Bool
has_text none = false
has_text (some String.[]) = false
has_text (some (String.◌∷◌ c s)) = true

abbrev pub needs_comment : StepAction → Bool
needs_comment StepAction.approved = false
needs_comment _ = true

-- The new status and step index of an action at a step.
unfoldable pub decide_on : StepAction → ℕ → ℕ → Status × ℕ
unfolding compute_status
decide_on StepAction.approved i total =
    if i + 1 == total then (Status.approved, i) else (compute_status (i + 1) total, i + 1)
decide_on StepAction.rejected i total = (Status.rejected, i)
decide_on StepAction.returned i total = (Status.returned_to_maker, i)

-- `registerPreApprovalValidator`: a later validator of the same key replaces the earlier one.
unfoldable pub register_pre_approval_validator :
    ℕ → ℕ → (Request → ActingStaff → Result (Unit {0})) → Validators → Validators
register_pre_approval_validator entity_type action validator validators e a =
    if e == entity_type && a == action then some validator else validators e a

-- The pre-approval validator runs at the final approval only.
unfoldable pub run_validator : Validators → Request → ActInput → Result (Unit {0})
run_validator validators r input = elim input.action [
  | StepAction.approved ↦
      if r.current_step_index + 1 == length r.steps
      then elim (validators r.entity_type r.action) [
        | none ↦ ok tt
        | some validate ↦ validate r input.actor
      ]
      else ok tt
  | _ ↦ ok tt
]

-- The guards of `act` on the request that it read, in their order.
unfoldable pub act_check : Validators → Request → ActInput → Result (Status × ℕ)
unfolding decide_on run_validator
act_check validators r input = do
  throw_if (not (is_actionable r.status)) conflict
  throw_if (input.actor.staff_id == r.initiated_by) forbidden
  throw_if (any (λ (s : StepRecord). eq_opt s.acted_by input.actor.staff_id) r.steps) forbidden
  step ← or_throw (get_elem? r.steps r.current_step_index) internal
  throw_if (not (includes step.required_capability input.actor.capabilities)) forbidden
  throw_if (needs_comment input.action && not (has_text input.comment)) bad_request
  run_validator validators r input
  ok (decide_on input.action r.current_step_index (length r.steps))

-- `steps.$[elem]` with the filter `elem.order === stepIndex`
unfoldable pub mark_step : ℕ → ActInput → ℕ → StepRecord → StepRecord
mark_step i input now s =
    if s.order == i
    then record s {
      acted_by = some input.actor.staff_id;
      action = some input.action;
      comment = input.comment;
      acted_at = some now;
    }
    else s

-- The `$set` of `act`.
unfoldable pub act_write : Status × ℕ → ℕ → ActInput → ℕ → Request → Request
unfolding mark_step
act_write (status, index) i input now r = record r {
  steps = map (mark_step i input now) r.steps;
  status = status;
  current_step_index = index;
}

unfoldable pub event_base : ℕ → Request → EventBase
event_base id r = record {
  workflow_request_id = id;
  entity_type = r.entity_type;
  entity_id = r.entity_id;
  action = r.action;
  branch_id = r.branch_id;
}

-- `payloadHistory[payloadHistory.length - 1]?.payload ?? {}`
unfoldable pub latest_payload : Request → String
latest_payload r = elim (last? r.payload_history) [ none ↦ "{}" | some v ↦ v.payload ]

-- The event after the write: by the new status if it is APPROVED, else by the action.
unfoldable pub act_events : ActInput → Status → Request → List Event
unfolding event_base latest_payload
act_events input status r =
    let base = event_base input.workflow_request_id r in
    let who = input.actor.staff_id in
    if same_status status Status.approved
    then approved_event base (latest_payload r) r.initiated_by who ∷ []
    else elim input.action [
      | StepAction.rejected ↦ rejected_event base (latest_payload r) who input.comment ∷ []
      | StepAction.returned ↦ returned_event base who input.comment ∷ []
      | StepAction.approved ↦ []
    ]

-- The guard of `act`'s write: the status and the step index are those that were read.
abbrev pub is_unchanged : Request → Request → Bool
is_unchanged seen r =
    same_status r.status seen.status && r.current_step_index == seen.current_step_index

unfoldable pub act_log : Request → Status × ℕ → ActInput → Request → Engine → Engine
unfolding act_events
act_log seen verdict input r =
    log
      (record {
        actor_id = input.actor.staff_id;
        action = AuditAction.acted input.action;
        entity_id = input.workflow_request_id;
        before = some seen.status;
        after = some verdict.0;
      })
      (act_events input verdict.0 r)

-- The write of `act`, with its audit entry and event. Other writes may stand between the read of
-- `seen` and this one.
unfoldable pub act_commit : Request → Status × ℕ → ActInput → ℕ → Engine → Outcome Request
unfolding act_write act_log
act_commit seen verdict input now e =
    write_if input.workflow_request_id (is_unchanged seen)
      (act_write verdict seen.current_step_index input now) e (act_log seen verdict input)

-- `act`, with no other write between its read and its write.
unfoldable pub act : Validators → ActInput → ℕ → Engine → Outcome Request
unfolding act_check act_commit
act validators input now e =
    with_request input.workflow_request_id e
      λ r. require (act_check validators r input) e λ verdict. act_commit r verdict input now e
