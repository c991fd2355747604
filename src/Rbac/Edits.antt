-- ===== src/Rbac/Edits.antt =====
-- What an edit of a role lets staff members do (src/platform/rbac/rbac.service.ts).
use Prim.Native.String.{String}
use text.Mathlib.Text.{◌==◌ as same_text}
use text.Mathlib.TextEquality.{eq_iff}
use bckashbackend.Common.{
  ℕ, ◌≡◌, refl, sym, ap, ◌∙◌, Bool, true, false, not, ◌&&◌, ◌||◌, List, [], ◌∷◌, ◌++◌, ◌==◌,
  if◌then◌else◌, select, Bool-cases, inl, inr,
}
use bckashbackend.Common.Store.{or_else-upsert}
use bckashbackend.Rbac.Service.{
  Rbac, Principal, permits, filter_capabilities_by_user_type, resolve_context,
  get_capabilities_for_role, edit_role, holds, add_to_set, pull, set_capabilities_for_role,
  add_capability_to_role, remove_capability_from_role,
}

-- May a staff member use a capability?
abbrev pub may : Principal → String → Rbac → Bool
may p c s = holds c (resolve_context p s).capabilities

abbrev pub has : (role : ℕ) → String → Rbac → Bool
has role c s = holds c (get_capabilities_for_role role s)

and_false : (b : Bool) → (b && false) ≡ false
and_false true = refl
and_false false = refl

or_false : (b : Bool) → (b || false) ≡ b
or_false true = refl
or_false false = refl

or_true : (b : Bool) → (b || true) ≡ true
or_true true = refl
or_true false = refl

holds_append :
    (c d : String) (cs : List String) → holds c (cs ++ d ∷ []) ≡ (holds c cs || same_text d c)
holds_append c d [] = elim (Bool-cases (same_text d c)) [
  | inl same ↦ rw same refl
  | inr other ↦ rw other refl
]
holds_append c d (e ∷ cs) = elim (Bool-cases (same_text e c)) [
  | inl same ↦ rw same refl
  | inr other ↦ rw other (holds_append c d cs)
]

holds-select :
    (p : String → Bool) (c : String) (cs : List String)
    → holds c (select p cs) ≡ (holds c cs && p c)
holds-select p c [] = refl
holds-select p c (d ∷ cs) =
    let rest = holds-select p c cs in
    elim (Bool-cases (same_text d c)) [
      | inl same ↦
          let d_c = (eq_iff d c).0 same in
          elim (Bool-cases (p c)) [
            | inl kept ↦ rw (ap p d_c ∙ kept, same, kept) refl
            | inr cut ↦ rw (ap p d_c ∙ cut, same, cut) (rw cut at rest ∙ and_false (holds c cs))
          ]
      | inr other ↦ elim (Bool-cases (p d)) [
        | inl kept ↦ rw (kept, other) rest
        | inr cut ↦ rw (cut, other) rest
      ]
    ]

pulled :
    (c d : String) (cs : List String) → holds c (pull d cs) ≡ (holds c cs && not (same_text c d))
pulled c d cs = holds-select (λ e. not (same_text e d)) c cs

holds-add_to_set :
    (c d : String) (cs : List String) → holds c (add_to_set d cs) ≡ (holds c cs || same_text d c)
holds-add_to_set c d cs = elim (Bool-cases (holds d cs)) [
  | inr absent ↦ rw absent (holds_append c d cs)
  | inl there ↦ elim (Bool-cases (same_text d c)) [
    | inl same ↦
        let here : holds c cs ≡ true = ap (λ e. holds e cs) (sym ((eq_iff d c).0 same)) ∙ there in
        rw (there, here) refl
    | inr other ↦ rw (there, other) (sym (or_false (holds c cs)))
  ]
]

-- A staff member may use exactly what the role has and the user type permits.
may-has :
    (p : Principal) (c : String) (s : Rbac) → may p c s ≡ (has p.role c s && permits p.user_type c)
unfolding resolve_context filter_capabilities_by_user_type
may-has p c s = holds-select (permits p.user_type) c (get_capabilities_for_role p.role s)

edit_role-capabilities :
    (r role : ℕ) (cs : List String) (f : List String → List String) (s : Rbac)
    → f [] ≡ cs
    → get_capabilities_for_role r (edit_role role cs f s)
      ≡ (if r == role then f (get_capabilities_for_role r s) else get_capabilities_for_role r s)
unfolding edit_role
edit_role-capabilities r role cs f s h = or_else-upsert r role cs [] f s.role_capabilities h

-- What an edit of a role does to a capability of a role.
edited :
    (r role : ℕ) (c : String) (cs : List String) (f : List String → List String) (s : Rbac)
    → f [] ≡ cs
    → has r c (edit_role role cs f s)
      ≡ (if r == role then holds c (f (get_capabilities_for_role r s)) else has r c s)
edited r role c cs f s h = elim (Bool-cases (r == role)) [
  | inl same ↦
      let now = edit_role-capabilities r role cs f s h in rw same (ap (holds c) (rw same at now))
  | inr other ↦
      let now = edit_role-capabilities r role cs f s h in rw other (ap (holds c) (rw other at now))
]

-- After a role was given a list of capabilities, given one more, or lost one, a staff member may use a
-- capability exactly when the role of the staff member then has it and the user type permits it; the
-- other roles keep what they had.
pub role_edits :
    (p : Principal) (c d : String) (role : ℕ) (cs : List String) (s : Rbac)
    → (may p c (set_capabilities_for_role role cs s)
        ≡ ((if p.role == role then holds c cs else has p.role c s) && permits p.user_type c))
      × (may p c (add_capability_to_role role d s) ≡ (
          (if p.role == role then has p.role c s || same_text d c else has p.role c s)
          && permits p.user_type c))
      × (may p c (remove_capability_from_role role d s) ≡ (
          (if p.role == role then has p.role c s && not (same_text c d) else has p.role c s)
          && permits p.user_type c))
unfolding set_capabilities_for_role add_capability_to_role remove_capability_from_role
role_edits p c d role cs s =
    let allowed = permits p.user_type c in
    let caps = get_capabilities_for_role p.role s in
    (
      may-has p c _ ∙ ap (λ b. b && allowed) (edited p.role role c cs (λ old. cs) s refl),
      may-has p c _
          ∙ ap (λ b. b && allowed)
              (edited p.role role c (d ∷ []) (add_to_set d) s refl
                ∙ ap (λ b. if p.role == role then b else has p.role c s)
                    (holds-add_to_set c d caps)),
      may-has p c _
          ∙ ap (λ b. b && allowed)
              (edited p.role role c [] (pull d) s refl
                ∙ ap (λ b. if p.role == role then b else has p.role c s) (pulled c d caps)),
    )
