-- ===== src/Rbac/Service.antt =====
-- `RbacService` (src/platform/rbac/rbac.service.ts). Roles, staff members and modules are numbers;
-- a capability is its text.
use Prim.Native.String.{String}
use text.Mathlib.Text.{◌==◌ as same_text, starts_with}
use bckashbackend.Common.{
  ℕ, Bool, true, false, not, ◌||◌, Option, List, [], ◌∷◌, ◌++◌, any, if◌then◌else◌, or_else, select,
}
use bckashbackend.Common.Store.{Store, find, upsert}

pub data StaffUserType : Type 0 where
  initiator reviewer authorizer : StaffUserType

abbrev pub is_initiator : StaffUserType → Bool
is_initiator StaffUserType.initiator = true
is_initiator _ = false

abbrev pub is_authorizer : StaffUserType → Bool
is_authorizer StaffUserType.authorizer = true
is_authorizer _ = false

-- The documents of `RoleCapabilities` by role, and those of `StaffModuleAccess` by staff member.
pub record Rbac : Type 0 where
  pub role_capabilities : Store (List String)
  pub module_access : Store (List ℕ)

-- `AuthenticatedStaffPrincipal`
pub record Principal : Type 0 where
  pub staff_id : ℕ
  pub role : ℕ
  pub branch_id : Option ℕ
  pub user_type : StaffUserType

-- `ResolvedStaffContext`
pub record StaffContext : Type 0 where
  pub principal : Principal
  pub capabilities : List String
  pub modules : List ℕ

abbrev pub get_capabilities_for_role : ℕ → Rbac → List String
get_capabilities_for_role role s = or_else (find role s.role_capabilities) []

abbrev pub get_modules_for_staff : ℕ → Rbac → List ℕ
get_modules_for_staff staff s = or_else (find staff s.module_access) []

-- The test of `filterCapabilitiesByUserType`.
unfoldable pub permits : StaffUserType → String → Bool
permits user_type c =
    if starts_with c "workflow:initiate:"
    then is_initiator user_type
    else (if starts_with c "workflow:review:" || starts_with c "workflow:approve:"
        then is_authorizer user_type
        else true)

unfoldable pub filter_capabilities_by_user_type : List String → StaffUserType → List String
unfolding permits
filter_capabilities_by_user_type cs user_type = select (permits user_type) cs

unfoldable pub resolve_context : Principal → Rbac → StaffContext
unfolding filter_capabilities_by_user_type
resolve_context p s = record {
  principal = p;
  capabilities = filter_capabilities_by_user_type (get_capabilities_for_role p.role s) p.user_type;
  modules = get_modules_for_staff p.staff_id s;
}

-- `updateOne({ role }, …, { upsert: true })`
unfoldable pub edit_role : ℕ → List String → (List String → List String) → Rbac → Rbac
edit_role role v f s = record s { role_capabilities = upsert role v f s.role_capabilities }

-- `onModuleInit`: `$setOnInsert` leaves a document that is there.
unfoldable pub seed_role : (role : ℕ) → List String → Rbac → Rbac
unfolding edit_role
seed_role role cs s = edit_role role cs (λ old. old) s

unfoldable pub on_module_init : List (ℕ × List String) → Rbac → Rbac
unfolding seed_role
on_module_init [] s = s
on_module_init ((role, cs) ∷ seeds) s = on_module_init seeds (seed_role role cs s)

unfoldable pub set_capabilities_for_role : (role : ℕ) → List String → Rbac → Rbac
unfolding edit_role
set_capabilities_for_role role cs s = edit_role role cs (λ old. cs) s

-- `capabilities.includes(capability)`
abbrev pub holds : String → List String → Bool
holds c = any (λ d. same_text d c)

-- `$addToSet`
abbrev pub add_to_set : String → List String → List String
add_to_set c cs = if holds c cs then cs else cs ++ c ∷ []

unfoldable pub add_capability_to_role : (role : ℕ) → String → Rbac → Rbac
unfolding edit_role
add_capability_to_role role c s = edit_role role (c ∷ []) (add_to_set c) s

-- `$pull`
abbrev pub pull : String → List String → List String
pull c = select (λ d. not (same_text d c))

-- A missing document is created without capabilities.
unfoldable pub remove_capability_from_role : (role : ℕ) → String → Rbac → Rbac
unfolding edit_role
remove_capability_from_role role c s = edit_role role [] (pull c) s

unfoldable pub set_modules_for_staff : (staff : ℕ) → List ℕ → Rbac → Rbac
set_modules_for_staff staff modules s = record s {
  module_access = upsert staff modules (λ old. modules) s.module_access;
}
