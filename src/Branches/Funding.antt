-- ===== src/Branches/Funding.antt =====
-- `BranchFundingService` (src/modules/branches/branch-funding.service.ts): head office records a funding,
-- the current manager of the branch verifies or rejects it, and may dispute it.
pub mod Verified
pub mod Tests
use bckashbackend.Common.{
  ℕ, Bool, true, false, not, ◌&&◌, Option, none, some, is_some, List, [], ◌∷◌, ◌++◌, ◌==◌, eq_opt,
  if◌then◌else◌, Result, ok, err, not_found, bad_request, conflict, forbidden, ◌>>=◌, ◌>>◌,
  throw_if, or_throw,
}
use bckashbackend.Common.Store.{Store, find, modify, update_if}
use bckashbackend.Branches.Funds.{Funds, credit}

pub data FundingStatus : Type 0 where
  pending_verification verified rejected : FundingStatus

abbrev pub is_pending : FundingStatus → Bool
is_pending FundingStatus.pending_verification = true
is_pending _ = false

pub data Resolution : Type 0 where
  resolved dismissed : Resolution

-- `BranchFundingDisputeDetails`
pub record Dispute : Type 0 where
  pub raised_by : ℕ
  pub reason : ℕ
  pub evidence_image_key : ℕ
  pub raised_at : ℕ
  pub resolution : Option Resolution
  pub resolved_by : Option ℕ
  pub resolved_at : Option ℕ
  pub resolution_note : Option ℕ

-- `BranchFunding`, whose source is always head office.
pub record Funding : Type 0 where
  pub branch_id : ℕ
  pub bank_account_id : ℕ
  pub amount : ℕ
  pub funded_at : ℕ
  pub reference : Option ℕ
  pub status : FundingStatus
  pub recorded_by : ℕ
  pub verified_by : Option ℕ
  pub verified_at : Option ℕ
  pub rejection_reason : Option ℕ
  pub dispute_details : Option Dispute
  pub last_nudged_at : Option ℕ

-- The fields of each event, after the id of the funding and its branch.
pub data FundingEvent : Type 0 where
  recorded_event : (funding branch amount funded_at recorded_by : ℕ) → FundingEvent
  verified_event : (funding branch amount verified_by : ℕ) → FundingEvent
  rejected_event : (funding branch amount rejected_by reason : ℕ) → FundingEvent
  nudge_event : (funding branch amount funded_at nudged_by : ℕ) → FundingEvent
  raised_event : (funding branch raised_by reason : ℕ) → FundingEvent
  resolved_event :
      (funding branch raised_by resolved_by : ℕ) → Resolution → (note : ℕ) → FundingEvent

pub record Treasury : Type 0 where
  pub fundings : Store Funding
  pub funds : Funds
  pub events : List FundingEvent

abbrev pub Outcome : Type 0
Outcome = Result Funding × Treasury

pub record BankAccount : Type 0 where
  pub branch_id : ℕ
  pub active : Bool

-- What the services answer of branches, their managers and their bank accounts.
pub record Directory : Type 0 where
  pub is_active : ℕ → Result Bool
  pub current_manager : ℕ → Option ℕ
  pub bank_account : ℕ → Result BankAccount

pub record RecordInput : Type 0 where
  pub branch_id : ℕ
  pub bank_account_id : ℕ
  pub amount : ℕ
  pub funded_at : ℕ
  pub reference : Option ℕ

-- A write to the funding of an id, with the event after it.
abbrev pub write : ℕ → (Funding → Funding) → Funding → FundingEvent → Treasury → Outcome
write id f q e t =
    (ok (f q), record t { fundings = modify id f t.fundings; events = t.events ++ e ∷ [] })

unfoldable pub record_check : Directory → RecordInput → Result (Unit {0})
record_check dir dto = do
  active ← dir.is_active dto.branch_id
  throw_if (not active) bad_request
  throw_if (not (is_some (dir.current_manager dto.branch_id))) bad_request
  account ← dir.bank_account dto.bank_account_id
  throw_if (not (account.branch_id == dto.branch_id)) bad_request
  throw_if (not account.active) bad_request

abbrev pub new_funding : RecordInput → (recorded_by : ℕ) → Funding
new_funding dto recorded_by = record {
  branch_id = dto.branch_id;
  bank_account_id = dto.bank_account_id;
  amount = dto.amount;
  funded_at = dto.funded_at;
  reference = dto.reference;
  status = FundingStatus.pending_verification;
  recorded_by = recorded_by;
  verified_by = none;
  verified_at = none;
  rejection_reason = none;
  dispute_details = none;
  last_nudged_at = none;
}

-- `recordFunding`
unfoldable pub record_funding : Directory → RecordInput → (recorded_by id : ℕ) → Treasury → Outcome
unfolding record_check
record_funding dir dto by id t = elim (record_check dir dto) [
  | err x ↦ (err x, t)
  | ok u ↦ (
    ok (new_funding dto by),
    record t {
      fundings = (id, new_funding dto by) ∷ t.fundings;
      events = t.events ++ recorded_event id dto.branch_id dto.amount dto.funded_at by ∷ [];
    },
  )
]

-- `assertActorIsCurrentManager`
abbrev pub assert_manager : Directory → (branch actor : ℕ) → Result (Unit {0})
assert_manager dir branch actor =
    throw_if (not (eq_opt (dir.current_manager branch) actor)) forbidden

unfoldable pub verify_check : Directory → (id actor : ℕ) → Treasury → Result Funding
verify_check dir id actor t = do
  q ← or_throw (find id t.fundings) not_found
  throw_if (not (is_pending q.status)) conflict
  assert_manager dir q.branch_id actor
  ok q

abbrev pub set_verified : (actor now : ℕ) → Funding → Funding
set_verified actor now q = record q {
  status = FundingStatus.verified;
  verified_by = some actor;
  verified_at = some now;
}

-- `verifyFunding`: the status and the credit of the branch are one transaction.
unfoldable pub verify_funding : Directory → (id actor now : ℕ) → Treasury → Outcome
unfolding verify_check
verify_funding dir id actor now t = elim (verify_check dir id actor t) [
  | err x ↦ (err x, t)
  | ok seen ↦
      elim (update_if id (λ (q : Funding). is_pending q.status) (set_verified actor now)
        t.fundings) [
          | none ↦ (err conflict, t)
          | some (q, fundings) ↦ (
            ok q,
            record {
              fundings = fundings;
              funds = credit seen.branch_id seen.amount t.funds;
              events = t.events ++ verified_event id seen.branch_id seen.amount actor ∷ [];
            },
          )
        ]
]

unfoldable pub reject_check :
    Directory → (id actor : ℕ) → (reason : Option ℕ) → Treasury → Result (Funding × ℕ)
reject_check dir id actor reason t = do
  q ← or_throw (find id t.fundings) not_found
  throw_if (not (is_pending q.status)) conflict
  why ← or_throw reason bad_request
  assert_manager dir q.branch_id actor
  ok (q, why)

abbrev pub set_rejected : (reason : ℕ) → Funding → Funding
set_rejected reason q = record q { status = FundingStatus.rejected; rejection_reason = some reason }

-- `rejectFunding`
unfoldable pub reject_funding :
    Directory → (id actor : ℕ) → (reason : Option ℕ) → Treasury → Outcome
unfolding reject_check
reject_funding dir id actor reason t = elim (reject_check dir id actor reason t) [
  | err x ↦ (err x, t)
  | ok (seen, why) ↦
      elim (update_if id (λ (q : Funding). is_pending q.status) (set_rejected why) t.fundings) [
        | none ↦ (err conflict, t)
        | some (q, fundings) ↦ (
          ok q,
          record t {
            fundings = fundings;
            events = t.events ++ rejected_event id seen.branch_id seen.amount actor why ∷ [];
          },
        )
      ]
]

unfoldable pub nudge_check : (id : ℕ) → Treasury → Result Funding
nudge_check id t = do
  q ← or_throw (find id t.fundings) not_found
  throw_if (not (is_pending q.status)) conflict
  ok q

-- `nudgeManager`
unfoldable pub nudge_manager : (id nudged_by now : ℕ) → Treasury → Outcome
unfolding nudge_check
nudge_manager id by now t = elim (nudge_check id t) [
  | err x ↦ (err x, t)
  | ok q ↦
      write id (λ (w : Funding). record w { last_nudged_at = some now }) q
        (nudge_event id q.branch_id q.amount q.funded_at by) t
]

abbrev pub is_open : Option Dispute → Bool
is_open none = false
is_open (some d) = not (is_some d.resolution)

unfoldable pub dispute_check :
    Directory → (id actor : ℕ) → (upload : Result ℕ) → Treasury → Result (Funding × ℕ)
dispute_check dir id actor upload t = do
  q ← or_throw (find id t.fundings) not_found
  assert_manager dir q.branch_id actor
  throw_if (not (is_pending q.status)) bad_request
  throw_if (is_open q.dispute_details) conflict
  key ← upload
  ok (q, key)

abbrev pub new_dispute : (actor reason key now : ℕ) → Dispute
new_dispute actor reason key now = record {
  raised_by = actor;
  reason = reason;
  evidence_image_key = key;
  raised_at = now;
  resolution = none;
  resolved_by = none;
  resolved_at = none;
  resolution_note = none;
}

-- `raiseDispute`, given the key under which the evidence was uploaded or what the upload throws.
unfoldable pub raise_dispute :
    Directory → (id actor reason : ℕ) → (upload : Result ℕ) → (now : ℕ) → Treasury → Outcome
unfolding dispute_check
raise_dispute dir id actor reason upload now t = elim (dispute_check dir id actor upload t) [
  | err x ↦ (err x, t)
  | ok (q, key) ↦
      write id
        (λ (w : Funding). record w { dispute_details = some (new_dispute actor reason key now) }) q
        (raised_event id q.branch_id actor reason) t
]

abbrev pub set_resolved : Resolution → (actor note now : ℕ) → Dispute → Dispute
set_resolved resolution actor note now d = record d {
  resolution = some resolution;
  resolved_by = some actor;
  resolved_at = some now;
  resolution_note = some note;
}

unfoldable pub resolve_check : (id : ℕ) → Treasury → Result (Funding × Dispute)
resolve_check id t = do
  q ← or_throw (find id t.fundings) not_found
  d ← or_throw q.dispute_details conflict
  throw_if (is_some d.resolution) conflict
  ok (q, d)

-- `resolveDispute`: neither the status nor the funds change.
unfoldable pub resolve_dispute : (id actor : ℕ) → Resolution → (note now : ℕ) → Treasury → Outcome
unfolding resolve_check
resolve_dispute id actor resolution note now t = elim (resolve_check id t) [
  | err x ↦ (err x, t)
  | ok (q, d) ↦
      write id
        (λ (w : Funding). record w {
          dispute_details = some (set_resolved resolution actor note now d);
        })
        q (resolved_event id q.branch_id d.raised_by actor resolution note) t
]
