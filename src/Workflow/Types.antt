-- ===== src/Workflow/Types.antt =====
-- The documents of the maker-checker engine: `WorkflowRequest`, `WorkflowChainConfig`, the inputs
-- and events (src/platform/workflow-engine/schemas, interfaces, events; src/common/enums/workflow.enums.ts).
-- Entity types, actions, capabilities and staff ids are opaque strings that the engine only
-- compares, so they are numbers; a payload is its JSON text.
use Prim.Native.String.{String}
use bckashbackend.Common.{ℕ, Bool, Option, List, Result, ◌==◌}

pub data Status : Type 0 where
  pending_review pending_approval approved rejected returned_to_maker cancelled : Status

pub data StepAction : Type 0 where
  approved rejected returned : StepAction

-- `===` on statuses
abbrev status_code : Status → ℕ
status_code Status.pending_review = 0
status_code Status.pending_approval = 1
status_code Status.approved = 2
status_code Status.rejected = 3
status_code Status.returned_to_maker = 4
status_code Status.cancelled = 5

abbrev pub same_status : Status → Status → Bool
same_status s t = status_code s == status_code t

pub record StepConfig : Type 0 where
  pub order : ℕ
  pub required_capability : ℕ

pub record StepRecord : Type 0 where
  pub order : ℕ
  pub required_capability : ℕ
  pub acted_by : Option ℕ
  pub action : Option StepAction
  pub comment : Option String
  pub acted_at : Option ℕ

pub record PayloadVersion : Type 0 where
  pub payload : String
  pub submitted_by : ℕ
  pub submitted_at : ℕ

pub record Request : Type 0 where
  pub entity_type : ℕ
  pub entity_id : Option ℕ
  pub action : ℕ
  pub status : Status
  pub steps : List StepRecord
  pub current_step_index : ℕ
  pub payload_history : List PayloadVersion
  pub initiated_by : ℕ
  pub branch_id : Option ℕ

pub record ChainConfig : Type 0 where
  pub entity_type : ℕ
  pub action : ℕ
  pub restart_on_return : Bool
  pub steps : List StepConfig
  pub is_active : Bool

pub record ActingStaff : Type 0 where
  pub staff_id : ℕ
  pub capabilities : List ℕ

pub record ActInput : Type 0 where
  pub workflow_request_id : ℕ
  pub actor : ActingStaff
  pub action : StepAction
  pub comment : Option String

pub record InitiateInput : Type 0 where
  pub entity_type : ℕ
  pub action : ℕ
  pub payload : String
  pub initiated_by : ℕ
  pub branch_id : Option ℕ
  pub entity_id : Option ℕ

pub record ResubmitInput : Type 0 where
  pub workflow_request_id : ℕ
  pub actor_id : ℕ
  pub new_payload : String

-- The audit trail: who did what to which request, and the statuses before and after.
pub data AuditAction : Type 0 where
  initiated payload_edited round_archived resubmitted cancelled deleted : AuditAction
  acted : StepAction → AuditAction

pub record AuditEntry : Type 0 where
  pub actor_id : ℕ
  pub action : AuditAction
  pub entity_id : ℕ
  pub before : Option Status
  pub after : Option Status

pub record EventBase : Type 0 where
  pub workflow_request_id : ℕ
  pub entity_type : ℕ
  pub entity_id : Option ℕ
  pub action : ℕ
  pub branch_id : Option ℕ

pub data Event : Type 0 where
  -- payload, initiated_by, approved_by
  approved_event : EventBase → String → ℕ → ℕ → Event
  -- payload, rejected_by, comment
  rejected_event : EventBase → String → ℕ → Option String → Event
  -- returned_by, comment
  returned_event : EventBase → ℕ → Option String → Event
  resubmitted_event : EventBase → ℕ → Event
  cancelled_event : EventBase → String → ℕ → Event
  deleted_event : EventBase → String → ℕ → Event

-- What a domain module registers to run before the final approval; it blocks by failing. The
-- engine's map is keyed by entity type and action.
abbrev pub Validators : Type 0
Validators = ℕ → ℕ → Option (Request → ActingStaff → Result (Unit {0}))
