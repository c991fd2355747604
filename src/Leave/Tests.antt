-- ===== src/Leave/Tests.antt =====
-- Runs of leave (src/modules/hr).
use bckashbackend.Common.{◌≡◌, refl, true, none, some, [], ok}
use bckashbackend.Common.Int.{pos, ◌+ℤ◌, ◌-ℤ◌}
use bckashbackend.Workflow.Types.{EventBase}
use bckashbackend.Workflow.Engine.{Engine}
use bckashbackend.Workflow.Chains.{initiate, find_chain}
use bckashbackend.Leave.Balance.{
  Key, Leave, find_balance, inc_used, get_or_create_balance, apply_usage,
}
use bckashbackend.Leave.Applications.{
  Services, Role, ApplyInput, apply_for_leave, apply_check, compute_number_of_days,
  select_chain_action, cancel_application, cancel_write, handle_workflow_approved, leave_event,
}
use bckashbackend.Leave.Usage.{used, applied_days}
use bckashbackend.Leave.Usage.Reach.{
  Reachable, start, next, apply_call, cancel_call, approved_call, Reachable-used,
}

abbrev services : Services
services = record {
  staff = λ id. ok (record { role = Role.marketer; is_active = true; branch_id = 1 });
  current_manager = λ b. none;
  allocation = λ t. some 20;
  year_of = λ d. 2026;
  payload = λ id. "{}";
}

abbrev engine : Engine
engine = record { chains = []; requests = []; audit = []; events = [] }

abbrev input : ApplyInput
input = record {
  staff_id = 7;
  leave_type_id = 2;
  start_date = 10;
  end_date = 14;
  reason = 1;
  initiated_by = 7;
}

abbrev key : Key
key = record { staff_id = 7; leave_type_id = 2; year = 2026 }

abbrev event : EventBase
event = record {
  workflow_request_id = 1;
  entity_type = 9;
  entity_id = some 3;
  action = 20;
  branch_id = some 1;
}

abbrev nothing : Leave
nothing = record { applications = []; balances = [] }

abbrev applied : Leave
applied = (apply_for_leave services 3 1 0 input nothing engine).1

abbrev cancelled : Leave
cancelled = (cancel_application services.year_of 3 7 [] applied).1

-- The approval of the request of an application that was cancelled.
abbrev revived : Leave
revived = handle_workflow_approved services.year_of event cancelled

revived_reached : Reachable services revived
revived_reached =
    next (next (next start (apply_call 3 1 0 input engine)) (cancel_call 3 7 []))
      (approved_call event)

used_example :
    used key revived.balances ≡ pos (applied_days services.year_of key revived.applications)
unfolding find_balance
used_example = Reachable-used services key revived_reached

revived_used : used key revived.balances ≡ pos 5
unfolding find_balance handle_workflow_approved leave_event apply_usage inc_used cancel_application
    cancel_write apply_for_leave apply_check compute_number_of_days get_or_create_balance
    select_chain_action initiate find_chain ◌+ℤ◌ ◌-ℤ◌
revived_used = refl
