-- ===== src/Workflow/Authority.antt =====
-- Who may do what to a request, and what a call leaves
-- (src/platform/workflow-engine/workflow-engine.service.ts).
use mathlib.Core.List.{append-nil}
use bckashbackend.Common.{
  conflict, ℕ, ◌≡◌, refl, ap, Bool, true, false, not, ◌&&◌, some, List, ok, err, any, eq_opt,
  includes, get_elem?, length, arith, Option_keeps, Result_keeps, ◌==◌, ◌||◌,
}
use bckashbackend.Common.Store.{find, update_if, update_if_passes, find-modify_self}
use bckashbackend.Workflow.Types.{
  Status, same_status, StepRecord, Request, ActInput, ResubmitInput, Validators, ChainConfig,
}
use bckashbackend.Workflow.Engine.{
  Engine, Outcome, is_actionable, needs_comment, has_text, decide_on, run_validator, act_check,
  act_write, act_commit, act, is_unchanged, write_if,
}
use bckashbackend.Workflow.Maker.{
  archive_round, push_payload, resubmit_write, next_round, edit_check, update_pending_payload,
  resubmit_check, resubmit, cancel_check, cancel, delete_check, delete_request,
}

-- What an actor must meet to act on a request.
pub record IsAuthorised (validators : Validators) (r : Request) (input : ActInput) : Type 0 where
  pub pending : is_actionable r.status ≡ true
  pub not_maker : input.actor.staff_id == r.initiated_by ≡ false
  pub not_before : any (λ (s : StepRecord). eq_opt s.acted_by input.actor.staff_id) r.steps ≡ false
  pub capable :
      (s : StepRecord) × (get_elem? r.steps r.current_step_index ≡ some s)
      × (includes s.required_capability input.actor.capabilities ≡ true)
  pub commented : (needs_comment input.action && not (has_text input.comment)) ≡ false
  pub validated : run_validator validators r input ≡ ok tt

act_check-IsAuthorised :
    (validators : Validators) (r : Request) (input : ActInput) {verdict : Status × ℕ}
    → act_check validators r input ≡ ok verdict
    → IsAuthorised validators r input
      × (verdict ≡ decide_on input.action r.current_step_index (length r.steps))
unfolding act_check
act_check-IsAuthorised validators r input e = ground arith

-- A call of `act` that returns found the request, by an actor who was authorised, and has put the
-- request that the action decides in its place; one that throws has changed nothing.
abbrev pub Decided : Validators → ActInput → ℕ → Engine → Outcome Request → Type 0
Decided validators input now e (ok q, e') =
    (r : Request) × (find input.workflow_request_id e.requests ≡ some r)
    × IsAuthorised validators r input
    × (q
        ≡ act_write (decide_on input.action r.current_step_index (length r.steps))
            r.current_step_index input now r)
    × (find input.workflow_request_id e'.requests ≡ some q)
Decided validators input now e (err x, e') = e' ≡ e

pub is_unchanged_self : (r : Request) → is_unchanged r r ≡ true
is_unchanged_self r = ground arith

act_commit-Decided :
    (validators : Validators) (input : ActInput) (now : ℕ) (e : Engine) (r : Request)
    (verdict : Status × ℕ)
    → find input.workflow_request_id e.requests ≡ some r
    → act_check validators r input ≡ ok verdict
    → Decided validators input now e (act_commit r verdict input now e)
unfolding act_commit
act_commit-Decided validators input now e r verdict found passed =
    let (authorised, decided) = act_check-IsAuthorised validators r input passed in
    let write = act_write verdict r.current_step_index input now in
    let kept =
      update_if_passes input.workflow_request_id (is_unchanged r) write e.requests found
        (is_unchanged_self r) in
    rw (kept, write_if)
      (
        r,
        found,
        authorised,
        ap (λ v. act_write v r.current_step_index input now r) decided,
        find-modify_self input.workflow_request_id write e.requests found,
      )

-- `act` either throws and changes nothing, or the request is pending, the actor is neither its maker
-- nor someone who acted in this round, holds the capability of the current step, has given the comment
-- that a rejection or return needs, and passes the validator of a final approval; the request is then
-- what the action makes of it.
pub act-Decided :
    (validators : Validators) (input : ActInput) (now : ℕ) (e : Engine)
    → Decided validators input now e (act validators input now e)
unfolding act
act-Decided validators input now e =
    Option_keeps (Decided validators input now e) (find input.workflow_request_id e.requests)
      (λ _. refl)
      λ r found.
        Result_keeps (Decided validators input now e) (act_check validators r input) (λ x _. refl)
          λ verdict passed. act_commit-Decided validators input now e r verdict found passed

-- The operations that are the maker's alone: a call that returns is by the maker of the request that it
-- found, whose status allows it; one that throws has left the requests and the events as they were.
abbrev pub MakerOnly : {A : Type 0} → ℕ → ℕ → (Status → Bool) → Engine → Outcome A → Type 0
MakerOnly id actor allowed e (ok a, e') =
    (r : Request) × (find id e.requests ≡ some r)
    × (actor ≡ r.initiated_by)
    × (allowed r.status ≡ true)
MakerOnly id actor allowed e (err x, e') = (e'.requests ≡ e.requests) × (e'.events ≡ e.events)

abbrev pub is_editable : Status → Bool
is_editable s = same_status s Status.pending_review

abbrev pub is_sent_back : Status → Bool
is_sent_back s = same_status s Status.rejected || same_status s Status.returned_to_maker

abbrev pub is_cancellable : Status → Bool
is_cancellable s = not (same_status s Status.approved) && not (same_status s Status.cancelled)

abbrev pub is_deletable : Status → Bool
is_deletable s = same_status s Status.pending_review || same_status s Status.rejected

edit_check_passed :
    (input : ResubmitInput) (r : Request) {u : Unit {0}}
    → edit_check input r ≡ ok u
    → (input.actor_id ≡ r.initiated_by) × (is_editable r.status ≡ true)
unfolding edit_check
edit_check_passed input r e = ground arith

resubmit_check_passed :
    (chains : List ChainConfig) (input : ResubmitInput) (r : Request) {c : ChainConfig}
    → resubmit_check chains input r ≡ ok c
    → (input.actor_id ≡ r.initiated_by) × (is_sent_back r.status ≡ true)
unfolding resubmit_check
resubmit_check_passed chains input r e = ground arith

cancel_check_passed :
    (actor : ℕ) (r : Request) {u : Unit {0}}
    → cancel_check actor r ≡ ok u
    → (actor ≡ r.initiated_by) × (is_cancellable r.status ≡ true)
unfolding cancel_check
cancel_check_passed actor r e = ground arith

delete_check_passed :
    (actor : ℕ) (r : Request) {u : Unit {0}}
    → delete_check actor r ≡ ok u
    → (actor ≡ r.initiated_by) × (is_deletable r.status ≡ true)
unfolding delete_check
delete_check_passed actor r e = ground arith

update_pending_payload-MakerOnly :
    (input : ResubmitInput) (now : ℕ) (e : Engine)
    → MakerOnly input.workflow_request_id input.actor_id is_editable e
        (update_pending_payload input now e)
unfolding update_pending_payload
update_pending_payload-MakerOnly input now e =
    let Q = MakerOnly {A = Request} input.workflow_request_id input.actor_id is_editable e in
    Option_keeps Q (find input.workflow_request_id e.requests) (λ _. (refl, refl))
      λ r found.
        Result_keeps Q (edit_check input r) (λ x _. (refl, refl))
          λ u passed.
            let (maker, permitted) = edit_check_passed input r passed in
            let same : Q (err conflict, e) = (refl, refl) in
            Option_keeps Q
              (update_if input.workflow_request_id
                (λ (q : Request). same_status q.status Status.pending_review)
                (push_payload input.new_payload input.actor_id now) e.requests)
              (λ _. same) λ w _. (r, found, maker, permitted)

resubmit-MakerOnly :
    (input : ResubmitInput) (now : ℕ) (e : Engine)
    → MakerOnly input.workflow_request_id input.actor_id is_sent_back e (resubmit input now e)
unfolding resubmit
resubmit-MakerOnly input now e =
    let Q = MakerOnly {A = Request} input.workflow_request_id input.actor_id is_sent_back e in
    Option_keeps Q (find input.workflow_request_id e.requests) (λ _. (refl, refl))
      λ r found.
        Result_keeps Q (resubmit_check e.chains input r) (λ x _. (refl, refl))
          λ u passed.
            let (maker, permitted) = resubmit_check_passed e.chains input r passed in
            let same : Q (err conflict, archive_round input e) = (refl, append-nil e.events) in
            Option_keeps Q
              (update_if input.workflow_request_id (λ (q : Request). same_status q.status r.status)
                (resubmit_write (next_round u r) input now) e.requests)
              (λ _. same) λ w _. (r, found, maker, permitted)

cancel-MakerOnly :
    (id actor : ℕ) (e : Engine) → MakerOnly id actor is_cancellable e (cancel id actor e)
unfolding cancel
cancel-MakerOnly id actor e =
    let Q = MakerOnly {A = Request} id actor is_cancellable e in
    Option_keeps Q (find id e.requests) (λ _. (refl, refl))
      λ r found.
        Result_keeps Q (cancel_check actor r) (λ x _. (refl, refl))
          λ u passed.
            let (maker, permitted) = cancel_check_passed actor r passed in
            let same : Q (err conflict, e) = (refl, refl) in
            Option_keeps Q
              (update_if id (λ (q : Request). same_status q.status r.status)
                (λ (q : Request). record q { status = Status.cancelled }) e.requests)
              (λ _. same) λ w _. (r, found, maker, permitted)

delete_request-MakerOnly :
    (id actor : ℕ) (e : Engine) → MakerOnly id actor is_deletable e (delete_request id actor e)
unfolding delete_request
delete_request-MakerOnly id actor e =
    let Q = MakerOnly {A = Unit {0}} id actor is_deletable e in
    Option_keeps Q (find id e.requests) (λ _. (refl, refl))
      λ r found.
        Result_keeps Q (delete_check actor r) (λ x _. (refl, refl))
          λ u passed.
            let (maker, permitted) = delete_check_passed actor r passed in
            (r, found, maker, permitted)

-- Only its maker edits, resubmits, cancels or deletes a request: an edit while it is in review, a
-- resubmission once it is rejected or returned, a cancellation while it is neither approved nor
-- cancelled, a deletion in review or once rejected. A call that throws leaves the requests and the
-- events as they were.
pub maker_operations :
    (e : Engine) (input : ResubmitInput) (id actor now : ℕ)
    → MakerOnly input.workflow_request_id input.actor_id is_editable e
        (update_pending_payload input now e)
      × MakerOnly input.workflow_request_id input.actor_id is_sent_back e (resubmit input now e)
      × MakerOnly id actor is_cancellable e (cancel id actor e)
      × MakerOnly id actor is_deletable e (delete_request id actor e)
maker_operations e input id actor now = (
  update_pending_payload-MakerOnly input now e,
  resubmit-MakerOnly input now e,
  cancel-MakerOnly id actor e,
  delete_request-MakerOnly id actor e,
)
