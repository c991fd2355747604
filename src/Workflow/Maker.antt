-- ===== src/Workflow/Maker.antt =====
-- The maker's own operations of `WorkflowEngineService`: `updatePendingPayload`, `resubmit`,
-- `cancel`, `deleteRequest`, and `linkEntity` (src/platform/workflow-engine/workflow-engine.service.ts).
use Prim.Native.String.{String}
use bckashbackend.Common.{
  ℕ, suc, true, not, ◌&&◌, ◌||◌, none, some, List, [], ◌∷◌, ◌++◌, ◌==◌, if◌then◌else◌, length,
  Result, ok, err, not_found, bad_request, conflict, forbidden, ◌>>◌, throw_if, or_throw,
}
use bckashbackend.Common.Store.{update_if, erase}
use bckashbackend.Workflow.Types.{
  Status, same_status, StepRecord, Request, ChainConfig, ResubmitInput, AuditAction,
  resubmitted_event, cancelled_event, deleted_event,
}
use bckashbackend.Workflow.Engine.{
  Engine, Outcome, with_request, require, write_if, log, compute_status, event_base, latest_payload,
}
use bckashbackend.Workflow.Chains.{is_for, find_chain, fresh_steps}

abbrev pub push_payload : String → ℕ → ℕ → Request → Request
push_payload payload by now r = record r {
  payload_history =
      r.payload_history ++ record { payload = payload; submitted_by = by; submitted_at = now } ∷ [];
}

unfoldable pub edit_check : ResubmitInput → Request → Result (Unit {0})
edit_check input r = do
  throw_if (not (input.actor_id == r.initiated_by)) forbidden
  throw_if (not (same_status r.status Status.pending_review)) bad_request

unfoldable pub update_pending_payload : ResubmitInput → ℕ → Engine → Outcome Request
unfolding edit_check
update_pending_payload input now e = with_request input.workflow_request_id e λ r.
    require (edit_check input r) e λ _.
      write_if input.workflow_request_id
        (λ (q : Request). same_status q.status Status.pending_review)
        (push_payload input.new_payload input.actor_id now) e
        (λ q.
          log
            (record {
              actor_id = input.actor_id;
              action = AuditAction.payload_edited;
              entity_id = input.workflow_request_id;
              before = none;
              after = none;
            })
            [])

-- The guards of `resubmit`, with the chain that it looks up (active or not).
unfoldable pub resubmit_check : List ChainConfig → ResubmitInput → Request → Result ChainConfig
unfolding find_chain
resubmit_check chains input r = do
  throw_if
      (not (same_status r.status Status.rejected)
        && not (same_status r.status Status.returned_to_maker))
      bad_request
  throw_if (not (input.actor_id == r.initiated_by)) forbidden
  or_throw (find_chain (is_for r.entity_type r.action) chains) not_found

-- The step at the current index loses its action; `index` counts from the head of the list.
unfoldable pub clear_step : ℕ → ℕ → List StepRecord → List StepRecord
clear_step index current [] = []
clear_step index current (s ∷ ss) =
    let cleared = record s { acted_by = none; action = none; comment = none; acted_at = none } in
    (if index == current then cleared else s) ∷ clear_step (suc index) current ss

-- The steps and the index of the next round: a rejection restarts the chain, a return only if the
-- chain says so.
unfoldable pub next_round : ChainConfig → Request → List StepRecord × ℕ
unfolding clear_step
next_round chain r =
    if same_status r.status Status.rejected || chain.restart_on_return
    then (fresh_steps chain.steps, 0)
    else (clear_step 0 r.current_step_index r.steps, r.current_step_index)

unfoldable pub resubmit_write : List StepRecord × ℕ → ResubmitInput → ℕ → Request → Request
resubmit_write (steps, index) input now r =
    record (push_payload input.new_payload input.actor_id now r) {
      steps = steps;
      current_step_index = index;
      status = compute_status index (length steps);
    }

-- The archive entry is written before the guarded write, and stays if that one fails.
abbrev pub archive_round : ResubmitInput → Engine → Engine
archive_round input =
    log
      (record {
        actor_id = input.actor_id;
        action = AuditAction.round_archived;
        entity_id = input.workflow_request_id;
        before = none;
        after = none;
      })
      []

unfoldable pub resubmit : ResubmitInput → ℕ → Engine → Outcome Request
unfolding resubmit_check next_round resubmit_write
resubmit input now e = with_request input.workflow_request_id e λ r.
    require (resubmit_check e.chains input r) e λ chain.
      write_if input.workflow_request_id (λ (q : Request). same_status q.status r.status)
        (resubmit_write (next_round chain r) input now) (archive_round input e)
        (λ q.
          log
            (record {
              actor_id = input.actor_id;
              action = AuditAction.resubmitted;
              entity_id = input.workflow_request_id;
              before = some r.status;
              after = some q.status;
            })
            (resubmitted_event (event_base input.workflow_request_id q) input.actor_id ∷ []))

unfoldable pub cancel_check : ℕ → Request → Result (Unit {0})
cancel_check actor_id r = do
  throw_if (not (actor_id == r.initiated_by)) forbidden
  throw_if (same_status r.status Status.approved) bad_request
  throw_if (same_status r.status Status.cancelled) conflict

unfoldable pub cancel : ℕ → ℕ → Engine → Outcome Request
unfolding cancel_check
cancel id actor_id e = with_request id e λ r. require (cancel_check actor_id r) e λ _.
    write_if id (λ (q : Request). same_status q.status r.status)
      (λ (q : Request). record q { status = Status.cancelled }) e
      (λ q.
        log
          (record {
            actor_id = actor_id;
            action = AuditAction.cancelled;
            entity_id = id;
            before = some r.status;
            after = some Status.cancelled;
          })
          (cancelled_event (event_base id q) (latest_payload q) actor_id ∷ []))

unfoldable pub delete_check : ℕ → Request → Result (Unit {0})
delete_check actor_id r = do
  throw_if (not (actor_id == r.initiated_by)) forbidden
  throw_if
      (not (same_status r.status Status.pending_review)
        && not (same_status r.status Status.rejected))
      bad_request

-- `findOneAndDelete({ _id, status })` finds what was just read, since no write stands between.
unfoldable pub delete_request : ℕ → ℕ → Engine → Outcome (Unit {0})
unfolding delete_check
delete_request id actor_id e = with_request id e λ r. require (delete_check actor_id r) e λ _. (
  ok tt,
  log
      (record {
        actor_id = actor_id;
        action = AuditAction.deleted;
        entity_id = id;
        before = some r.status;
        after = none;
      })
      (deleted_event (event_base id r) (latest_payload r) actor_id ∷ [])
      (record e { requests = erase id e.requests }),
)

-- `linkEntity`
unfoldable pub link_entity : ℕ → ℕ → Engine → Outcome Request
link_entity id entity_id e =
    elim (update_if id (λ (q : Request). true)
      (λ (q : Request). record q { entity_id = some entity_id }) e.requests) [
        | none ↦ (err not_found, e)
        | some (q, requests) ↦ (ok q, record e { requests = requests })
      ]
