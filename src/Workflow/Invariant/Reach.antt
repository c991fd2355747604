-- ===== src/Workflow/Invariant/Reach.antt =====
-- Every sequence of calls on an engine that began with no request, and the four-eyes rule.
use bckashbackend.Common.{
  ℕ, suc, ◌+◌, ◌≤◌, ◌<◌, ◌≡◌, refl, ◌≢◌, true, false, Option, none, some, List, [], ◌∷◌, length,
  arith, All, is_some, eq_opt,
}
use mathlib.Core.Path.{subst}
use bckashbackend.Common.Store.{find, find-Each}
use bckashbackend.Workflow.Types.{
  Status, StepAction, StepRecord, Request, ActInput, ChainConfig, ResubmitInput, InitiateInput,
  Validators,
}
use bckashbackend.Workflow.Engine.{Engine, act}
use bckashbackend.Workflow.Chains.{register_chain_config, replace_chain_config, initiate}
use bckashbackend.Workflow.Maker.{
  update_pending_payload, resubmit, cancel, delete_request, link_entity,
}
use bckashbackend.Workflow.Invariant.Steps.{acted_on, Fit, Distinct}
use bckashbackend.Workflow.Invariant.Sound.{IsSound, Progress}
use bckashbackend.Workflow.Invariant.Keeps.{
  IsConsistent, act-IsConsistent, update_pending_payload-IsConsistent, resubmit-IsConsistent,
  cancel-IsConsistent, delete_request-IsConsistent, link_entity-IsConsistent, initiate-IsConsistent,
  register_chain_config-IsConsistent, replace_chain_config-IsConsistent,
}

-- One call of the service, by anybody, with any input; a call that throws is a step too.
pub data Call (e : Engine) : Engine → Type 0 where
  acts : (vs : Validators) (input : ActInput) (now : ℕ) → Call e (act vs input now e).1
  initiates : (id : ℕ) (input : InitiateInput) (now : ℕ) → Call e (initiate id input now e).1
  edits : (input : ResubmitInput) (now : ℕ) → Call e (update_pending_payload input now e).1
  resubmits : (input : ResubmitInput) (now : ℕ) → Call e (resubmit input now e).1
  cancels : (id actor_id : ℕ) → Call e (cancel id actor_id e).1
  deletes : (id actor_id : ℕ) → Call e (delete_request id actor_id e).1
  links : (id entity_id : ℕ) → Call e (link_entity id entity_id e).1
  registers : (c : ChainConfig) → Call e (register_chain_config c e).1
  replaces : (c : ChainConfig) → Call e (replace_chain_config c e).1

abbrev pub empty_engine : Engine
empty_engine = record { chains = []; requests = []; audit = []; events = [] }

pub data Reachable : Engine → Type 0 where
  start : Reachable empty_engine
  next : {e e' : Engine} → Reachable e → Call e e' → Reachable e'

Call-IsConsistent : {e e' : Engine} → Call e e' → IsConsistent e → IsConsistent e'
Call-IsConsistent {e} (acts vs input now) h = act-IsConsistent vs input now e h
Call-IsConsistent {e} (initiates id input now) h = initiate-IsConsistent id input now e h
Call-IsConsistent {e} (edits input now) h = update_pending_payload-IsConsistent input now e h
Call-IsConsistent {e} (resubmits input now) h = resubmit-IsConsistent input now e h
Call-IsConsistent {e} (cancels id actor_id) h = cancel-IsConsistent id actor_id e h
Call-IsConsistent {e} (deletes id actor_id) h = delete_request-IsConsistent id actor_id e h
Call-IsConsistent {e} (links id entity_id) h = link_entity-IsConsistent id entity_id e h
Call-IsConsistent {e} (registers c) h = register_chain_config-IsConsistent c e h
Call-IsConsistent {e} (replaces c) h = replace_chain_config-IsConsistent c e h

-- In every state that calls of the service can lead to, each chain is a validated one, and each
-- request is sound: its maker has acted on none of its steps, no staff member has acted on two of
-- them, its current step exists, and its steps are approved and blank as its status says.
pub Reachable-IsConsistent : {e : Engine} → Reachable e → IsConsistent e
Reachable-IsConsistent start = record { chains_valid = tt; requests_sound = tt }
Reachable-IsConsistent (next r c) = Call-IsConsistent c (Reachable-IsConsistent r)

-- A step that somebody other than the maker approved.
pub record ApprovedBy (maker : ℕ) (s : StepRecord) : Type 0 where
  pub approved : s.action ≡ some StepAction.approved
  pub actor : ℕ
  pub by_actor : s.acted_by ≡ some actor
  pub not_maker : actor ≢ maker

step-ApprovedBy :
    (maker : ℕ) (s : StepRecord) (o : Option ℕ)
    → s.acted_by ≡ o
    → s.action ≡ some StepAction.approved
    → is_some o ≡ true
    → eq_opt o maker ≡ false
    → ApprovedBy maker s
step-ApprovedBy maker s none e a i n = cc
step-ApprovedBy maker s (some p) e a i n = record {
  approved = a;
  actor = p;
  by_actor = e;
  not_maker = ground arith;
}

Fit-ApprovedBy :
    (maker i c : ℕ) (ss : List StepRecord)
    → i + length ss ≤ c
    → Fit i c c ss
    → acted_on maker ss ≡ false
    → All (ApprovedBy maker) ss
Fit-ApprovedBy maker i c [] l f a = tt
Fit-ApprovedBy maker i c (s ∷ ss) l f a =
    let (approved, acted) = f.0.done (omega arith) in
    (
      step-ApprovedBy maker s s.acted_by refl approved acted (ground arith),
      Fit-ApprovedBy maker (suc i) c ss (omega arith) f.1 (ground arith),
    )

-- The four-eyes rule: whatever calls were made, a request that is APPROVED has at least one step,
-- every step of it was approved by a staff member who is not its maker, and no staff member
-- approved two of its steps.
pub four_eyes :
    {e : Engine} (id : ℕ) (r : Request)
    → Reachable e
    → find id e.requests ≡ some r
    → r.status ≡ Status.approved
    → (0 < length r.steps) × All (ApprovedBy r.initiated_by) r.steps × Distinct r.steps
four_eyes {e} id r reached found approved =
    let sound =
      find-Each IsSound id e.requests (Reachable-IsConsistent reached).requests_sound found in
    let progress = subst (λ s. Progress s r.current_step_index r.steps) approved sound.progress in
    (
      omega (arith, sound.in_range),
      Fit-ApprovedBy r.initiated_by 0 (suc r.current_step_index) r.steps (omega (arith, progress.1))
          progress.0 sound.maker_apart,
      sound.distinct,
    )
