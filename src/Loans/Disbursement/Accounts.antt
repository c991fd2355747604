-- ===== src/Loans/Disbursement/Accounts.antt =====
-- The loop of a disbursement over the accounts of its loan
-- (src/modules/loans/loan-verification.service.ts, `disburse`).
use bckashbackend.Common.{
  ℕ, ◌≡◌, refl, ◌∙◌, true, false, none, some, [], ◌∷◌, ◌==◌, ok, err, Result-cases, Bool-cases, inl,
  inr, if_keeps, ==→≡, ==→≢,
}
use mathlib.Core.Option.{some-injective}
use bckashbackend.Common.Store.{Store, find, modify, find-modify_self, find-modify_ne}
use bckashbackend.Calc.Reducing.{Floats}
use bckashbackend.Loans.State.{Loan, Member, Product, Distinct, accounts_of}
use bckashbackend.Loans.Disbursement.{Terms, terms_of, set_terms, activate}

module _ (loan_id id : ℕ) where
  accounts_of-missing :
      (d : Store Member) → find id d ≡ none → find id (accounts_of loan_id d) ≡ none
  unfolding accounts_of
  accounts_of-missing [] h = refl
  accounts_of-missing ((i, a) ∷ d) h = elim (Bool-cases (id == i)) [
    | inl same ↦ let no : some a ≡ none = rw same at h in cc
    | inr other ↦
        let rest = accounts_of-missing d (rw other at h) in
        if_keeps (λ (o : Store Member). find id o ≡ none) (a.loan_id == loan_id)
          (λ _. rw other rest) (λ _. rest)
  ]

  -- An account of the loan is among those that are read.
  pub accounts_of-finds :
      (d : Store Member) {a : Member}
      → find id d ≡ some a
      → a.loan_id == loan_id ≡ true
      → find id (accounts_of loan_id d) ≡ some a
  unfolding accounts_of
  accounts_of-finds [] h own = h
  accounts_of-finds ((i, b) ∷ d) {a} h own = elim (Bool-cases (id == i)) [
    | inl same ↦
        let found : some b ≡ some a = rw same at h in
        let is_a : b ≡ a = some-injective b a found in
        let own' : (b.loan_id == loan_id) ≡ true = rw is_a own in rw own' (rw same found)
    | inr other ↦
        let rest = accounts_of-finds d (rw other at h) own in
        if_keeps (λ (o : Store Member). find id o ≡ some a) (b.loan_id == loan_id)
          (λ _. rw other rest) (λ _. rest)
  ]

  -- An account of another loan is not.
  pub accounts_of-skips :
      (d : Store Member) {a : Member}
      → Distinct d
      → find id d ≡ some a
      → a.loan_id == loan_id ≡ false
      → find id (accounts_of loan_id d) ≡ none
  unfolding accounts_of
  accounts_of-skips [] u h other = refl
  accounts_of-skips ((i, b) ∷ d) {a} u h other = elim (Bool-cases (id == i)) [
    | inl same ↦
        let found : some b ≡ some a = rw same at h in
        let is_a : b ≡ a = some-injective b a found in
        let other' : (b.loan_id == loan_id) ≡ false = rw is_a other in
        let absent : find id d ≡ none = rw (==→≡ id i same) u.0 in
        rw other' (accounts_of-missing d absent)
    | inr new ↦
        let rest = accounts_of-skips d u.1 (rw new at h) other in
        if_keeps (λ (o : Store Member). find id o ≡ none) (b.loan_id == loan_id) (λ _. rw new rest)
          (λ _. rest)
  ]

pub accounts_of-Distinct :
    (loan_id : ℕ) (d : Store Member) → Distinct d → Distinct (accounts_of loan_id d)
unfolding accounts_of
accounts_of-Distinct loan_id [] u = tt
accounts_of-Distinct loan_id ((i, a) ∷ d) u = elim (Bool-cases (a.loan_id == loan_id)) [
  | inl own ↦ rw own (accounts_of-missing loan_id i d u.0, accounts_of-Distinct loan_id d u.1)
  | inr other ↦ rw other (accounts_of-Distinct loan_id d u.1)
]

module _ (fl : Floats) (p : Product) (l : Loan) (now : ℕ) where
  activate_step :
      (i : ℕ) (a : Member) (rest d : Store Member) {d' : Store Member}
      → activate fl p l now ((i, a) ∷ rest) d ≡ ok d'
      → (t : Terms) × (terms_of fl p l now a ≡ ok t)
        × (activate fl p l now rest (modify i (set_terms t) d) ≡ ok d')
  unfolding activate
  activate_step i a rest d {d'} e = elim (Result-cases (terms_of fl p l now a)) [
    | inl (x, failed) ↦ let no : err x ≡ ok d' = rw failed at e in cc
    | inr (t, set) ↦ (t, set, rw set at e)
  ]

  -- An account that is not in the loop is left.
  pub activate-skips :
      (id : ℕ) (rest d : Store Member) {d' : Store Member}
      → activate fl p l now rest d ≡ ok d'
      → find id rest ≡ none
      → find id d' ≡ find id d
  unfolding activate
  activate-skips id [] d {d'} e h = cc
  activate-skips id ((i, a) ∷ rest) d e h =
      let (t, set, e') = activate_step i a rest d e in
      elim (Bool-cases (id == i)) [
        | inl same ↦ let no : some a ≡ none = rw same at h in cc
        | inr other ↦
            activate-skips id rest _ e' (rw other at h)
            ∙ find-modify_ne id i (set_terms t) d (==→≢ id i other)
      ]

  -- An account in the loop gets the terms of what was read of it.
  pub activate-sets :
      (id : ℕ) (rest d : Store Member) {d' : Store Member} {a b : Member}
      → Distinct rest
      → activate fl p l now rest d ≡ ok d'
      → find id rest ≡ some a
      → find id d ≡ some b
      → (t : Terms) × (terms_of fl p l now a ≡ ok t) × (find id d' ≡ some (set_terms t b))
  activate-sets id [] d u e h k = cc
  activate-sets id ((i, x) ∷ rest) d {d'} {a} {b} u e h k =
      let (t, set, e') = activate_step i x rest d e in
      elim (Bool-cases (id == i)) [
        | inl same ↦
            let found : some x ≡ some a = rw same at h in
            let is_a = some-injective x a found in
            let here = ==→≡ id i same in
            let absent : find id rest ≡ none = rw here u.0 in
            let wrote : find id (modify i (set_terms t) d) ≡ some (set_terms t b) =
              rw here (find-modify_self i (set_terms t) d (rw here at k)) in
            (t, rw is_a at set, activate-skips id rest _ e' absent ∙ wrote)
        | inr other ↦
            activate-sets id rest (modify i (set_terms t) d) u.1 e' (rw other at h)
              (find-modify_ne id i (set_terms t) d (==→≢ id i other) ∙ k)
      ]
