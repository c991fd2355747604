-- ===== src/Leave/Applications.antt =====
-- `LeaveApplicationService` (src/modules/hr/leave-application.service.ts).
use Prim.Native.String.{String}
use bckashbackend.Common.{
  ℕ, suc, ◌-◌, Bool, true, false, not, ◌&&◌, Option, none, some, List, ◌∷◌, ◌==◌, eq_opt, includes,
  leb, if◌then◌else◌, Result, ok, err, not_found, bad_request, conflict, forbidden, ◌>>=◌, ◌>>◌,
  throw_if,
}
use bckashbackend.Common.Int.{pos, ◌-ℤ◌, ltb_ℤ}
use bckashbackend.Common.Store.{find, modify, update_if}
use bckashbackend.Workflow.Types.{EventBase, InitiateInput}
use bckashbackend.Workflow.Engine.{Engine}
use bckashbackend.Workflow.Chains.{initiate}
use bckashbackend.Leave.Balance.{
  LeaveStatus, ChainAction, Application, Key, LeaveBalance, Leave, get_or_create_balance,
  remaining_days, apply_usage, reverse_usage,
}

-- `WorkflowEntityType.LEAVE_APPLICATION`
abbrev pub leave_entity : ℕ
leave_entity = 9

abbrev pub chain_code : ChainAction → ℕ
chain_code ChainAction.approve_staff = 20
chain_code ChainAction.approve_manager = 21
chain_code ChainAction.approve_admin = 22

-- `LEAVE_CANCEL_APPROVED_CAPABILITY`
abbrev pub leave_cancel_approved : ℕ
leave_cancel_approved = 90

pub data Role : Type 0 where
  marketer manager approver admin superadmin : Role

-- What the services answer of a staff member.
pub record Staff : Type 0 where
  pub role : Role
  pub is_active : Bool
  pub branch_id : ℕ

pub record Services : Type 0 where
  pub staff : ℕ → Result Staff
  pub current_manager : ℕ → Option ℕ
  pub allocation : ℕ → Option ℕ
  pub year_of : ℕ → ℕ
  pub payload : ℕ → String

-- `computeNumberOfDays` on whole days: both ends count.
unfoldable pub compute_number_of_days : (start_date end_date : ℕ) → Result ℕ
compute_number_of_days start_date end_date =
    if leb start_date end_date then ok (suc (end_date - start_date)) else err bad_request

unfoldable pub select_chain_action : Services → (staff_id : ℕ) → Staff → ChainAction
select_chain_action s staff_id who =
    let by_manager =
      if eq_opt (s.current_manager who.branch_id) staff_id
      then ChainAction.approve_manager
      else ChainAction.approve_staff in
    elim who.role [
      | admin ↦ ChainAction.approve_admin
      | superadmin ↦ ChainAction.approve_admin
      | _ ↦ by_manager
    ]

pub record ApplyInput : Type 0 where
  pub staff_id : ℕ
  pub leave_type_id : ℕ
  pub start_date : ℕ
  pub end_date : ℕ
  pub reason : ℕ
  pub initiated_by : ℕ

unfoldable pub apply_check : Services → ApplyInput → Result (Staff × ℕ)
unfolding compute_number_of_days
apply_check s input = do
  who ← s.staff input.staff_id
  throw_if (not who.is_active) bad_request
  days ← compute_number_of_days input.start_date input.end_date
  ok (who, days)

abbrev pub new_application : ApplyInput → (days now : ℕ) → ChainAction → LeaveBalance → Application
new_application input days now chain b =
    let shortfall = pos days -ℤ remaining_days b in
    record {
      staff_id = input.staff_id;
      leave_type_id = input.leave_type_id;
      start_date = input.start_date;
      end_date = input.end_date;
      number_of_days = days;
      reason = input.reason;
      status = LeaveStatus.pending_review;
      applied_at = now;
      balance_applied = false;
      chain_action = chain;
      balance_shortfall_flagged = ltb_ℤ (pos 0) shortfall;
      balance_shortfall_days = if ltb_ℤ (pos 0) shortfall then some shortfall else none;
    }

abbrev pub input_key : Services → ApplyInput → Key
input_key s input = record {
  staff_id = input.staff_id;
  leave_type_id = input.leave_type_id;
  year = s.year_of input.start_date;
}

abbrev leave_request : Services → (id : ℕ) → ApplyInput → Staff → ChainAction → InitiateInput
leave_request s id input who chain = record {
  entity_type = leave_entity;
  action = chain_code chain;
  payload = s.payload id;
  initiated_by = input.initiated_by;
  branch_id = some who.branch_id;
  entity_id = some id;
}

-- `applyForLeave`: a shortfall is flagged, and stops nothing. The application stays where the workflow has no chain.
unfoldable pub apply_for_leave :
    Services
    → (id request now : ℕ) → ApplyInput
    → Leave
    → Engine
    → Result Application × Leave × Engine
apply_for_leave s id request now input l e = elim (apply_check s input) [
  | err x ↦ (err x, l, e)
  | ok (who, days) ↦
      let (balance, balances) = get_or_create_balance s.allocation (input_key s input) l.balances in
      elim balance [
        | err x ↦ (err x, record l { balances = balances }, e)
        | ok b ↦
            let chain = select_chain_action s input.staff_id who in
            let a = new_application input days now chain b in
            let (answer, e') = initiate request (leave_request s id input who chain) now e in
            (
              answer >>= λ r. ok a,
              record { applications = (id, a) ∷ l.applications; balances = balances },
              e',
            )
      ]
]

abbrev pub set_status : LeaveStatus → Application → Application
set_status t a = record a { status = t }

unfoldable pub leave_event : EventBase → Option ℕ
leave_event e = if e.entity_type == leave_entity then e.entity_id else none

-- No status is tested.
unfoldable pub handle_workflow_approved : (year_of : ℕ → ℕ) → EventBase → Leave → Leave
handle_workflow_approved year_of e l = elim (leave_event e) [
  | none ↦ l
  | some id ↦
      (apply_usage year_of id
        (record l { applications = modify id (set_status LeaveStatus.approved) l.applications })).1
]

unfoldable pub handle_workflow_rejected : EventBase → Leave → Leave
handle_workflow_rejected e l = elim (leave_event e) [
  | none ↦ l
  | some id ↦ record l { applications = modify id (set_status LeaveStatus.rejected) l.applications }
]

abbrev pub is_pending : LeaveStatus → Bool
is_pending LeaveStatus.pending_review = true
is_pending LeaveStatus.pending_approval = true
is_pending _ = false

abbrev pub is_approved : LeaveStatus → Bool
is_approved LeaveStatus.approved = true
is_approved _ = false

-- The guarded write of a cancellation: Conflict if it finds nothing.
unfoldable pub cancel_write : (id : ℕ) → (LeaveStatus → Bool) → Leave → Result Application × Leave
cancel_write id guard l =
    elim (update_if id (λ (a : Application). guard a.status) (set_status LeaveStatus.cancelled)
      l.applications) [
        | none ↦ (err conflict, l)
        | some (a, applications) ↦ (ok a, record l { applications = applications })
      ]

-- `cancelApplication`, with no other write between its read and its writes.
unfoldable pub cancel_application :
    (year_of : ℕ → ℕ) (id actor : ℕ) (capabilities : List ℕ) → Leave → Result Application × Leave
cancel_application year_of id actor capabilities l = elim (find id l.applications) [
  | none ↦ (err not_found, l)
  | some a ↦
      let may = includes leave_cancel_approved capabilities in
      if is_pending a.status
      then (if not (a.staff_id == actor) && not may
          then (err forbidden, l)
          else cancel_write id is_pending l)
      else (if is_approved a.status
          then (if not may
              then (err forbidden, l)
              else (let (answer, cancelled) = cancel_write id is_approved l in
                  elim answer [
                    | err x ↦ (err x, cancelled)
                    | ok q ↦ (ok q, (reverse_usage year_of id cancelled).1)
                  ]))
          else (err conflict, l))
]
