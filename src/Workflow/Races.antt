-- ===== src/Workflow/Races.antt =====
-- Two calls of `act` whose reads came before either write
-- (src/platform/workflow-engine/workflow-engine.service.ts, `act`).
use bckashbackend.Common.{
  ℕ, ◌≡◌, sym, Bool, true, false, ◌&&◌, some, ◌==◌, arith, ok, err, conflict, length,
}
use mathlib.Core.Path.{subst}
use bckashbackend.Common.Store.{find, modify, find-modify_self, update_if_passes, update_if_fails}
use bckashbackend.Workflow.Types.{Status, same_status, StepAction, Request, ActInput, Validators}
use bckashbackend.Workflow.Engine.{
  Engine, Outcome, write_if, is_unchanged, act_log, act_check, act_commit, act_write, decide_on,
  is_actionable,
}
use bckashbackend.Workflow.Invariant.Sound.{act_check-Passed}

-- A passed check decides on a status or an index that the guard of a stale write no longer meets.
decide_on_moves :
    (s : Status) (action : StepAction) (i total : ℕ)
    → is_actionable s ≡ true
    → (same_status (decide_on action i total).0 s && (decide_on action i total).1 == i) ≡ false
unfolding decide_on
decide_on_moves s action i total h = ground arith

same_status_refl : (s : Status) → same_status s s ≡ true
same_status_refl s = ground arith

module _ (id : ℕ) (guard : Request → Bool) (f : Request → Request) (e : Engine)
    (after : Request → Engine → Engine) {r : Request} (found : find id e.requests ≡ some r) where
  write_if_passes :
      guard r ≡ true
      → write_if id guard f e after
        ≡ (ok (f r), after (f r) (record e { requests = modify id f e.requests }))
  write_if_passes pass = rw (update_if_passes id guard f e.requests found pass, write_if)

  write_if_fails : guard r ≡ false → write_if id guard f e after ≡ (err conflict, e)
  write_if_fails fail = rw (update_if_fails id guard f e.requests found fail, write_if)

-- The state after a write of `act` that found what it had read.
first_write :
    (r : Request) (verdict : Status × ℕ) (input : ActInput) (now : ℕ) (e : Engine)
    → find input.workflow_request_id e.requests ≡ some r
    → find input.workflow_request_id (act_commit r verdict input now e).1.requests
      ≡ some (act_write verdict r.current_step_index input now r)
unfolding act_commit
first_write r verdict input now e found =
    let write = act_write verdict r.current_step_index input now in
    subst (λ (o : Outcome Request). find input.workflow_request_id o.1.requests ≡ some (write r))
      (sym (
        write_if_passes input.workflow_request_id (is_unchanged r) write e (act_log r verdict input)
          found (ground (arith, same_status_refl r.status))))
      (find-modify_self input.workflow_request_id write e.requests found)

stale_write :
    (r q : Request) (verdict : Status × ℕ) (input : ActInput) (now : ℕ) (e : Engine)
    → find input.workflow_request_id e.requests ≡ some q
    → (same_status q.status r.status && q.current_step_index == r.current_step_index) ≡ false
    → act_commit r verdict input now e ≡ (err conflict, e)
unfolding act_commit
stale_write r q verdict input now e found moved =
    write_if_fails input.workflow_request_id (is_unchanged r)
      (act_write verdict r.current_step_index input now) e (act_log r verdict input) found moved

moved :
    (r : Request) (input : ActInput) (now : ℕ) (v : Status × ℕ)
    → is_actionable r.status ≡ true
    → v ≡ decide_on input.action r.current_step_index (length r.steps)
    → (let q = act_write v r.current_step_index input now r in
        (same_status q.status r.status && q.current_step_index == r.current_step_index) ≡ false)
unfolding act_write
moved r input now v pending decided =
    ground
      (arith, decide_on_moves r.status input.action r.current_step_index (length r.steps) pending)

-- Of two calls of `act` that both read a request before either wrote it, the second to write is
-- refused with Conflict and changes nothing, whoever calls and whatever the second one decided.
pub act_commit_race :
    (validators : Validators) (r : Request) (first second : ActInput) {verdict : Status × ℕ}
    (verdict' : Status × ℕ) (now now' : ℕ) (e : Engine)
    → first.workflow_request_id ≡ second.workflow_request_id
    → find first.workflow_request_id e.requests ≡ some r
    → act_check validators r first ≡ ok verdict
    → (let after = (act_commit r verdict first now e).1 in
        act_commit r verdict' second now' after ≡ (err conflict, after))
act_commit_race validators r first second {verdict} verdict' now now' e same found passed =
    let p = act_check-Passed validators r first passed in
    let q = act_write verdict r.current_step_index first now r in
    stale_write r q verdict' second now' (act_commit r verdict first now e).1
      (subst (λ id. find id (act_commit r verdict first now e).1.requests ≡ some q) same
        (first_write r verdict first now e found))
      (moved r first now verdict p.pending p.decided)
