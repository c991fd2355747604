-- ===== src/Workflow/Chains.antt =====
-- Chain configuration and `initiate` of `WorkflowEngineService`
-- (src/platform/workflow-engine/workflow-engine.service.ts).
use bckashbackend.Common.{
  ℕ, suc, Bool, true, false, ◌&&◌, Option, none, some, List, [], ◌∷◌, ◌++◌, map, ◌==◌, leb,
  if◌then◌else◌, length, Result, ok, err, not_found, bad_request,
}
use bckashbackend.Workflow.Types.{
  StepConfig, StepRecord, Request, ChainConfig, InitiateInput, AuditAction,
}
use bckashbackend.Workflow.Engine.{Engine, Outcome, compute_status}

-- `sort((a, b) => a - b)` and `sort((a, b) => a.order - b.order)`, both stable.
unfoldable pub insert_order : ℕ → List ℕ → List ℕ
insert_order x [] = x ∷ []
insert_order x (y ∷ ys) = let rest = insert_order x ys in if leb x y then x ∷ y ∷ ys else y ∷ rest

unfoldable pub sort_orders : List ℕ → List ℕ
unfolding insert_order
sort_orders [] = []
sort_orders (x ∷ xs) = insert_order x (sort_orders xs)

unfoldable pub insert_step : StepConfig → List StepConfig → List StepConfig
insert_step x [] = x ∷ []
insert_step x (y ∷ ys) =
    let rest = insert_step x ys in if leb x.order y.order then x ∷ y ∷ ys else y ∷ rest

unfoldable pub sort_steps : List StepConfig → List StepConfig
unfolding insert_step
sort_steps [] = []
sort_steps (x ∷ xs) = insert_step x (sort_steps xs)

-- `orders.every((order, i) => order === i)`, from position i on
unfoldable pub is_contiguous : ℕ → List ℕ → Bool
is_contiguous i [] = true
is_contiguous i (x ∷ xs) = let rest = is_contiguous (suc i) xs in if x == i then rest else false

unfoldable pub validate_steps : List StepConfig → Result (Unit {0})
unfolding sort_orders is_contiguous
validate_steps [] = err bad_request
validate_steps (s ∷ ss) =
    if is_contiguous 0 (sort_orders (map (λ (c : StepConfig). c.order) (s ∷ ss)))
    then ok tt
    else err bad_request

-- The filter `{ entityType, action }`.
abbrev pub is_for : ℕ → ℕ → ChainConfig → Bool
is_for entity_type action c = c.entity_type == entity_type && c.action == action

unfoldable pub find_chain : (ChainConfig → Bool) → List ChainConfig → Option ChainConfig
find_chain p [] = none
find_chain p (c ∷ cs) = let rest = find_chain p cs in if p c then some c else rest

-- `findOneAndUpdate({ entityType, action }, { $setOnInsert })` with `upsert`
unfoldable pub insert_chain : ChainConfig → List ChainConfig → List ChainConfig
unfolding find_chain
insert_chain c cs = elim (find_chain (is_for c.entity_type c.action) cs) [
  | none ↦ cs ++ c ∷ []
  | some old ↦ cs
]

-- `findOneAndUpdate({ entityType, action }, { $set })` with `upsert`
unfoldable pub replace_chain : ChainConfig → List ChainConfig → List ChainConfig
replace_chain c [] = c ∷ []
replace_chain c (d ∷ cs) =
    let rest = replace_chain c cs in if is_for c.entity_type c.action d then c ∷ cs else d ∷ rest

-- The services build a configuration with `isActive: true`.
unfoldable pub register_chain_config : ChainConfig → Engine → Outcome (Unit {0})
unfolding validate_steps insert_chain
register_chain_config c e = elim (validate_steps c.steps) [
  | err x ↦ (err x, e)
  | ok _ ↦ (ok tt, record e { chains = insert_chain (record c { is_active = true }) e.chains })
]

unfoldable pub replace_chain_config : ChainConfig → Engine → Outcome (Unit {0})
unfolding validate_steps replace_chain
replace_chain_config c e = elim (validate_steps c.steps) [
  | err x ↦ (err x, e)
  | ok _ ↦ (ok tt, record e { chains = replace_chain (record c { is_active = true }) e.chains })
]

abbrev pub blank_step : StepConfig → StepRecord
blank_step c = record {
  order = c.order;
  required_capability = c.required_capability;
  acted_by = none;
  action = none;
  comment = none;
  acted_at = none;
}

-- The steps of a new round: the chain's, by order, with nobody's action on them.
unfoldable pub fresh_steps : List StepConfig → List StepRecord
unfolding sort_steps
fresh_steps steps = map blank_step (sort_steps steps)

unfoldable pub new_request : ChainConfig → InitiateInput → ℕ → Request
unfolding fresh_steps compute_status
new_request chain input now =
    let steps = fresh_steps chain.steps in
    record {
      entity_type = input.entity_type;
      entity_id = input.entity_id;
      action = input.action;
      status = compute_status 0 (length steps);
      steps = steps;
      current_step_index = 0;
      payload_history =
          record { payload = input.payload; submitted_by = input.initiated_by; submitted_at = now }
          ∷ [];
      initiated_by = input.initiated_by;
      branch_id = input.branch_id;
    }

-- `initiate`; `id` is the `_id` that the database gives to the new document.
unfoldable pub initiate : ℕ → InitiateInput → ℕ → Engine → Outcome Request
unfolding find_chain new_request
initiate id input now e =
    elim (find_chain (λ (c : ChainConfig). is_for input.entity_type input.action c && c.is_active)
      e.chains) [
        | none ↦ (err not_found, e)
        | some chain ↦
            let r = new_request chain input now in
            (
              ok r,
              record e {
                requests = (id, r) ∷ e.requests;
                audit =
                    e.audit
                    ++ record {
                      actor_id = input.initiated_by;
                      action = AuditAction.initiated;
                      entity_id = id;
                      before = none;
                      after = some r.status;
                    }
                      ∷ [];
              },
            )
      ]
