-- ===== src/Rbac/Tests.antt =====
-- An officer whose role is edited (src/platform/rbac/rbac.service.ts).
use Prim.Native.String.{String}
use text.Mathlib.Text.{◌==◌ as same_text}
use bckashbackend.Common.{
  ◌≡◌, refl, true, false, none, not, ◌&&◌, ◌||◌, [], ◌∷◌, ◌==◌, if◌then◌else◌,
}
use bckashbackend.Common.Store.{upsert}
use bckashbackend.Rbac.Service.{
  Rbac, Principal, StaffUserType, permits, holds, resolve_context, set_capabilities_for_role,
  add_capability_to_role, remove_capability_from_role,
}
use bckashbackend.Rbac.Edits.{may, has, role_edits}

abbrev officer : Principal
officer = record { staff_id = 7; role = 2; branch_id = none; user_type = StaffUserType.initiator }

abbrev initiate_loan : String
initiate_loan = "workflow:initiate:LOAN"

abbrev review_loan : String
review_loan = "workflow:review:LOAN"

abbrev roles : Rbac
roles = record {
  role_capabilities = (2, initiate_loan ∷ "loan:list" ∷ []) ∷ [];
  module_access = [];
}

edits_example :
    (may officer review_loan (set_capabilities_for_role 2 (review_loan ∷ []) roles) ≡ (
      (if officer.role == 2 then holds review_loan (review_loan ∷ []) else has 2 review_loan roles)
      && permits officer.user_type review_loan))
    × (may officer review_loan (add_capability_to_role 2 review_loan roles) ≡ (
        (if officer.role == 2
          then has 2 review_loan roles || same_text review_loan review_loan
          else has 2 review_loan roles)
        && permits officer.user_type review_loan))
    × (may officer review_loan (remove_capability_from_role 2 review_loan roles) ≡ (
        (if officer.role == 2
          then has 2 review_loan roles && not (same_text review_loan review_loan)
          else has 2 review_loan roles)
        && permits officer.user_type review_loan))
edits_example = role_edits officer review_loan review_loan 2 (review_loan ∷ []) roles

may_initiate : may officer initiate_loan roles ≡ true
unfolding resolve_context
may_initiate = refl

may_not_review : may officer review_loan (add_capability_to_role 2 review_loan roles) ≡ false
unfolding resolve_context add_capability_to_role upsert
may_not_review = refl
