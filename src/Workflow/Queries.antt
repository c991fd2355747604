-- ===== src/Workflow/Queries.antt =====
-- The reads of `WorkflowEngineService` (src/platform/workflow-engine/workflow-engine.service.ts).
-- The order of a result, by creation time, is left out.
use bckashbackend.Common.{
  ℕ, ◌≡◌, ◌↔◌, Bool, true, false, not, ◌&&◌, Option, none, some, List, [], ◌∷◌, map, ◌==◌, eq_opt,
  any, includes, select, get_elem?, arith, Result, ok, not_found, or_throw, length,
}
use bckashbackend.Common.Store.{Store, find}
use bckashbackend.Workflow.Types.{
  Status, same_status, StepAction, StepRecord, Request, ActingStaff, ActInput, Validators,
}
use bckashbackend.Workflow.Engine.{is_actionable, act_check, decide_on}

-- `$arrayElemAt` out of range is missing, and a missing value is in no list of capabilities.
abbrev awaits : List ℕ → Option StepRecord → Bool
awaits capabilities none = false
awaits capabilities (some s) = includes s.required_capability capabilities

-- The filter of `getPendingForActor`.
unfoldable pub is_pending_for : ActingStaff → Request → Bool
is_pending_for actor r =
    is_actionable r.status
    && not (r.initiated_by == actor.staff_id)
    && not (any (λ (s : StepRecord). eq_opt s.acted_by actor.staff_id) r.steps)
    && awaits actor.capabilities (get_elem? r.steps r.current_step_index)

abbrev documents : Store Request → List Request
documents = map (λ e. e.1)

unfoldable pub get_pending_for_actor : ActingStaff → Store Request → List Request
unfolding is_pending_for
get_pending_for_actor actor requests = elim actor.capabilities [
  | [] ↦ []
  | c ∷ cs ↦ select (is_pending_for actor) (documents requests)
]

unfoldable pub get_history : ℕ → ℕ → Store Request → List Request
get_history entity_type entity_id requests =
    select (λ (r : Request). r.entity_type == entity_type && eq_opt r.entity_id entity_id)
      (documents requests)

abbrev one_of : List ℕ → Option ℕ → Bool
one_of ids none = false
one_of ids (some i) = includes i ids

unfoldable pub get_history_for_entities : ℕ → List ℕ → Store Request → List Request
get_history_for_entities entity_type [] requests = []
get_history_for_entities entity_type (i ∷ ids) requests =
    select (λ (r : Request). r.entity_type == entity_type && one_of (i ∷ ids) r.entity_id)
      (documents requests)

unfoldable pub get_pending_by_entity_type : ℕ → Store Request → List Request
get_pending_by_entity_type entity_type requests =
    select (λ (r : Request). r.entity_type == entity_type && is_actionable r.status)
      (documents requests)

unfoldable pub get_rejected_by_entity_type : ℕ → Store Request → List Request
get_rejected_by_entity_type entity_type requests =
    select (λ (r : Request). r.entity_type == entity_type && same_status r.status Status.rejected)
      (documents requests)

unfoldable pub get_by_id : ℕ → Store Request → Result Request
get_by_id id requests = or_throw (find id requests) not_found

abbrev pub no_validators : Validators
no_validators _ _ = none

abbrev pub approval : ℕ → ActingStaff → ActInput
approval id actor = record {
  workflow_request_id = id;
  actor = actor;
  action = StepAction.approved;
  comment = none;
}

-- What the pending list of a staff member shows is what `act` lets them approve, and no less: a
-- request passes the list's filter exactly when an approval by that staff member passes every
-- guard of `act`, where no pre-approval validator is registered.
pub is_pending_for-act_check :
    (id : ℕ) (actor : ActingStaff) (r : Request)
    → (is_pending_for actor r ≡ true) ↔ (
        act_check no_validators r (approval id actor)
        ≡ ok (decide_on StepAction.approved r.current_step_index (length r.steps)))
unfolding is_pending_for act_check
is_pending_for-act_check id actor r = ground arith
