-- ===== src/Workflow/Invariant/Keeps.antt =====
-- The invariant of the whole engine, and that every operation keeps it, whether it throws or not.
use bckashbackend.Common.{
  ℕ, ◌≡◌, sym, ◌⊎◌, inl, inr, Bool, true, some, List, [], ◌∷◌, ◌&&◌, arith, Bool-cases,
  Option-cases, Result, ok, All, All-append, Result-cases, ◌∙◌,
}
use Prim.Native.String.{String}
use mathlib.Core.Path.{subst}
use mathlib.Core.Option.{some-injective}
use bckashbackend.Common.Store.{find, update_if, Each, find-Each, update_if-Each, erase-Each}
use bckashbackend.Workflow.Types.{
  Status, Request, ActInput, ChainConfig, StepConfig, ResubmitInput, InitiateInput, Validators,
  AuditEntry, Event,
}
use bckashbackend.Workflow.Engine.{
  Engine, Outcome, with_request, require, write_if, log, act_check, act, act_write,
}
use bckashbackend.Workflow.Chains.{
  is_for, find_chain, insert_chain, replace_chain, validate_steps, register_chain_config,
  replace_chain_config, initiate,
}
use bckashbackend.Workflow.Maker.{
  push_payload, archive_round, edit_check, update_pending_payload, resubmit_check, next_round,
  resubmit_write, resubmit, cancel_check, cancel, delete_check, delete_request, link_entity,
}
use bckashbackend.Workflow.Invariant.Rounds.{IsValidChain}
use bckashbackend.Workflow.Invariant.Sound.{
  IsSound, act_check-Passed, act_write-IsSound, resubmit_write-IsSound, new_request-IsSound,
}

pub record IsConsistent (e : Engine) : Type 0 where
  pub chains_valid : All (λ (c : ChainConfig). IsValidChain c.steps) e.chains
  pub requests_sound : Each IsSound e.requests

-- The rules of the combinators that the operations are built from.
with_request-keeps :
    {A : Type 0} (P : Engine → Type 0) (id : ℕ) (e : Engine) (k : Request → Outcome A)
    → P e
    → ((r : Request) → find id e.requests ≡ some r → P (k r).1)
    → P (with_request id e k).1
with_request-keeps P id e k h step = elim (Option-cases (find id e.requests)) [
  | inl missing ↦ rw (missing, with_request) h
  | inr (r, found) ↦ rw (found, with_request) (step r found)
]

require-keeps :
    {A B : Type 0} (P : Engine → Type 0) (checks : Result B) (e : Engine) (k : B → Outcome A)
    → P e
    → ((b : B) → checks ≡ ok b → P (k b).1)
    → P (require checks e k).1
require-keeps P checks e k h step = elim (Result-cases checks) [
  | inl (x, failed) ↦ rw failed h
  | inr (b, passed) ↦ rw passed (step b passed)
]

write_if-keeps :
    (id : ℕ) (guard : Request → Bool) (f : Request → Request) (e : Engine)
    (entry : Request → AuditEntry) (events : Request → List Event)
    → IsConsistent e
    → ((q : Request) → find id e.requests ≡ some q → guard q ≡ true → IsSound q → IsSound (f q))
    → IsConsistent (write_if id guard f e (λ q. log (entry q) (events q))).1
write_if-keeps id guard f e entry events h keep =
    elim (Option-cases (update_if id guard f e.requests)) [
      | inl lost ↦ rw (lost, write_if) h
      | inr ((q, d), kept) ↦
          rw (kept, write_if)
            (record {
              chains_valid = h.chains_valid;
              requests_sound =
                  update_if-Each IsSound id guard f e.requests kept keep h.requests_sound;
            })
    ]

pub act-IsConsistent :
    (validators : Validators) (input : ActInput) (now : ℕ) (e : Engine)
    → IsConsistent e
    → IsConsistent (act validators input now e).1
unfolding act
act-IsConsistent validators input now e h =
    with_request-keeps IsConsistent input.workflow_request_id e _ h λ r found.
      require-keeps IsConsistent (act_check validators r input) e _ h λ verdict passed.
        write_if-keeps input.workflow_request_id _ _ e _ _ h λ q found' _ s.
          subst (λ x. IsSound (act_write verdict r.current_step_index input now x))
            (some-injective r q (sym found ∙ found'))
            (act_write-IsSound r input now verdict (act_check-Passed validators r input passed)
              (find-Each IsSound input.workflow_request_id e.requests h.requests_sound found))

push_payload-IsSound :
    (payload : String) (by now : ℕ) (r : Request)
    → IsSound r
    → IsSound (push_payload payload by now r)
push_payload-IsSound payload by now r h = record {
  maker_apart = h.maker_apart;
  distinct = h.distinct;
  in_range = h.in_range;
  progress = h.progress;
}

pub update_pending_payload-IsConsistent :
    (input : ResubmitInput) (now : ℕ) (e : Engine)
    → IsConsistent e
    → IsConsistent (update_pending_payload input now e).1
unfolding update_pending_payload
update_pending_payload-IsConsistent input now e h =
    with_request-keeps IsConsistent input.workflow_request_id e _ h λ r found.
      require-keeps IsConsistent (edit_check input r) e _ h λ _ passed.
        write_if-keeps input.workflow_request_id _ _ e _ _ h
          λ q _ _ s. push_payload-IsSound input.new_payload input.actor_id now q s

resubmit_check_closed :
    (chains : List ChainConfig) (input : ResubmitInput) (r : Request) {chain : ChainConfig}
    → resubmit_check chains input r ≡ ok chain
    → (r.status ≡ Status.rejected) ⊎ (r.status ≡ Status.returned_to_maker)
unfolding resubmit_check
resubmit_check_closed chains input r e = ground arith

resubmit_check_found :
    (chains : List ChainConfig) (input : ResubmitInput) (r : Request) {chain : ChainConfig}
    → resubmit_check chains input r ≡ ok chain
    → find_chain (is_for r.entity_type r.action) chains ≡ some chain
unfolding resubmit_check
resubmit_check_found chains input r e = ground arith

find_chain-IsValidChain :
    (p : ChainConfig → Bool) (cs : List ChainConfig) {chain : ChainConfig}
    → All (λ (c : ChainConfig). IsValidChain c.steps) cs
    → find_chain p cs ≡ some chain
    → IsValidChain chain.steps
unfolding find_chain
find_chain-IsValidChain p [] h e = cc
find_chain-IsValidChain p (c ∷ cs) {chain} h e = elim (Bool-cases (p c)) [
  | inl here ↦
      subst (λ (x : ChainConfig). IsValidChain x.steps) (some-injective c chain (rw here at e)) h.0
  | inr past ↦ find_chain-IsValidChain p cs h.1 (rw past at e)
]

pub resubmit-IsConsistent :
    (input : ResubmitInput) (now : ℕ) (e : Engine)
    → IsConsistent e
    → IsConsistent (resubmit input now e).1
unfolding resubmit
resubmit-IsConsistent input now e h =
    with_request-keeps IsConsistent input.workflow_request_id e _ h λ r found.
      require-keeps IsConsistent (resubmit_check e.chains input r) e _ h λ chain passed.
        write_if-keeps input.workflow_request_id _ _ (archive_round input e) _ _
          (record { chains_valid = h.chains_valid; requests_sound = h.requests_sound })
          λ q found' _ s.
            subst (λ x. IsSound (resubmit_write (next_round chain r) input now x))
              (some-injective r q (sym found ∙ found'))
              (resubmit_write-IsSound chain input now r
                (find_chain-IsValidChain _ e.chains h.chains_valid
                  (resubmit_check_found e.chains input r passed))
                (resubmit_check_closed e.chains input r passed)
                (find-Each IsSound input.workflow_request_id e.requests h.requests_sound found))

cancelled-IsSound : (q : Request) → IsSound q → IsSound (record q { status = Status.cancelled })
cancelled-IsSound q h = record {
  maker_apart = h.maker_apart;
  distinct = h.distinct;
  in_range = h.in_range;
  progress = tt;
}

pub cancel-IsConsistent :
    (id actor_id : ℕ) (e : Engine) → IsConsistent e → IsConsistent (cancel id actor_id e).1
unfolding cancel
cancel-IsConsistent id actor_id e h = with_request-keeps IsConsistent id e _ h λ r found.
    require-keeps IsConsistent (cancel_check actor_id r) e _ h
      λ _ passed. write_if-keeps id _ _ e _ _ h λ q _ _ s. cancelled-IsSound q s

pub delete_request-IsConsistent :
    (id actor_id : ℕ) (e : Engine) → IsConsistent e → IsConsistent (delete_request id actor_id e).1
unfolding delete_request
delete_request-IsConsistent id actor_id e h = with_request-keeps IsConsistent id e _ h λ r found.
    require-keeps IsConsistent (delete_check actor_id r) e _ h λ _ passed. record {
      chains_valid = h.chains_valid;
      requests_sound = erase-Each IsSound id e.requests h.requests_sound;
    }

pub link_entity-IsConsistent :
    (id entity_id : ℕ) (e : Engine) → IsConsistent e → IsConsistent (link_entity id entity_id e).1
unfolding link_entity
link_entity-IsConsistent id entity_id e h =
    elim (Option-cases (
      update_if id (λ (q : Request). true)
        (λ (q : Request). record q { entity_id = some entity_id }) e.requests)) [
          | inl lost ↦ rw (lost, link_entity) h
          | inr ((q, d), kept) ↦
              rw (kept, link_entity)
                (record {
                  chains_valid = h.chains_valid;
                  requests_sound =
                      update_if-Each IsSound id (λ (w : Request). true)
                        (λ (w : Request). record w { entity_id = some entity_id }) e.requests kept
                        (λ w _ _ s. record {
                          maker_apart = s.maker_apart;
                          distinct = s.distinct;
                          in_range = s.in_range;
                          progress = s.progress;
                        })
                        h.requests_sound;
                })
        ]

pub initiate-IsConsistent :
    (id : ℕ) (input : InitiateInput) (now : ℕ) (e : Engine)
    → IsConsistent e
    → IsConsistent (initiate id input now e).1
unfolding initiate
initiate-IsConsistent id input now e h =
    elim (Option-cases (
      find_chain (λ (c : ChainConfig). is_for input.entity_type input.action c && c.is_active)
        e.chains)) [
          | inl missing ↦ rw (missing, initiate) h
          | inr (chain, found) ↦
              rw (found, initiate)
                (record {
                  chains_valid = h.chains_valid;
                  requests_sound = (
                    new_request-IsSound chain input now
                        (find_chain-IsValidChain _ e.chains h.chains_valid found),
                    h.requests_sound,
                  );
                })
        ]

insert_chain-valid :
    (c : ChainConfig) (cs : List ChainConfig)
    → IsValidChain c.steps
    → All (λ (d : ChainConfig). IsValidChain d.steps) cs
    → All (λ (d : ChainConfig). IsValidChain d.steps) (insert_chain c cs)
unfolding insert_chain
insert_chain-valid c cs v h = elim (Option-cases (find_chain (is_for c.entity_type c.action) cs)) [
  | inl fresh ↦ rw (fresh, insert_chain) (All-append _ cs (c ∷ []) h (v, tt))
  | inr (old, there) ↦ rw (there, insert_chain) h
]

replace_chain-valid :
    (c : ChainConfig) (cs : List ChainConfig)
    → IsValidChain c.steps
    → All (λ (d : ChainConfig). IsValidChain d.steps) cs
    → All (λ (d : ChainConfig). IsValidChain d.steps) (replace_chain c cs)
unfolding replace_chain
replace_chain-valid c [] v h = (v, tt)
replace_chain-valid c (d ∷ cs) v h = elim (Bool-cases (is_for c.entity_type c.action d)) [
  | inl here ↦ rw here (v, h.1)
  | inr past ↦ rw past (h.0, replace_chain-valid c cs v h.1)
]

unit_ok :
    (steps : List StepConfig) {u : Unit {0}} → validate_steps steps ≡ ok u → IsValidChain steps
unit_ok steps e = e

pub register_chain_config-IsConsistent :
    (c : ChainConfig) (e : Engine) → IsConsistent e → IsConsistent (register_chain_config c e).1
unfolding register_chain_config
register_chain_config-IsConsistent c e h = elim (Result-cases (validate_steps c.steps)) [
  | inl (x, failed) ↦ rw (failed, register_chain_config) h
  | inr (u, valid) ↦
      rw (valid, register_chain_config)
        (record {
          chains_valid =
              insert_chain-valid (record c { is_active = true }) e.chains (unit_ok c.steps valid)
                h.chains_valid;
          requests_sound = h.requests_sound;
        })
]

pub replace_chain_config-IsConsistent :
    (c : ChainConfig) (e : Engine) → IsConsistent e → IsConsistent (replace_chain_config c e).1
unfolding replace_chain_config
replace_chain_config-IsConsistent c e h = elim (Result-cases (validate_steps c.steps)) [
  | inl (x, failed) ↦ rw (failed, replace_chain_config) h
  | inr (u, valid) ↦
      rw (valid, replace_chain_config)
        (record {
          chains_valid =
              replace_chain-valid (record c { is_active = true }) e.chains (unit_ok c.steps valid)
                h.chains_valid;
          requests_sound = h.requests_sound;
        })
]
