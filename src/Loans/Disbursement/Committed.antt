-- ===== src/Loans/Disbursement/Committed.antt =====
-- What `checkAndDisburse` leaves behind (src/modules/loans/loan-verification.service.ts).
use bckashbackend.Common.{
  ℕ, ◌+◌, ◌≡◌, ◌≢◌, ◌⊎◌, refl, ◌∙◌, subst, true, false, some, ◌==◌, if◌then◌else◌, ok, err,
  Result-cases, inl, inr, ok-injective, Failure,
}
use bckashbackend.Common.Store.{Store, find, find-modify_self, find-modify_ne}
use bckashbackend.Branches.Funds.{get_balance, debit}
use bckashbackend.Branches.Taken.{debit_taken}
use bckashbackend.Calc.Reducing.{Floats}
use bckashbackend.Loans.State.{Loan, Member, Product, Products, Files, Distinct, accounts_of}
use bckashbackend.Loans.Disbursement.{
  Terms, terms_of, set_terms, set_disbursed, activate, disbursement_transaction, hand_over,
  disburse,
}
use bckashbackend.Loans.Disbursement.Accounts.{
  accounts_of-finds, accounts_of-skips, accounts_of-Distinct, activate-sets, activate-skips,
}

module _ (fl : Floats) (p : Product) (loan_id : ℕ) (l : Loan) (now : ℕ) (f f' : Files) where
  -- The loan is DISBURSED, its branch has paid exactly its amount and no other has paid, each of its
  -- accounts has its schedule and balance and is ACTIVE, and no other loan or account has changed.
  pub record IsDisbursed : Type 0 where
    pub loan_after : find loan_id f'.loans ≡ some (set_disbursed now l)
    pub other_loans : (id : ℕ) → id ≢ loan_id → find id f'.loans ≡ find id f.loans
    pub paid :
        (branch : ℕ)
        → get_balance branch f'.funds
            + (if branch == l.branch_id then l.cumulative_amount_kobo else 0)
          ≡ get_balance branch f.funds
    pub members :
        (id : ℕ) (a : Member)
        → find id f.accounts ≡ some a
        → a.loan_id == loan_id ≡ true
        → (t : Terms) × (terms_of fl p l now a ≡ ok t)
          × (find id f'.accounts ≡ some (set_terms t a))
    pub other_members :
        (id : ℕ) (a : Member)
        → find id f.accounts ≡ some a
        → a.loan_id == loan_id ≡ false
        → find id f'.accounts ≡ some a

module _ (fl : Floats) (p : Product) (loan_id : ℕ) (l : Loan) (now : ℕ) (f : Files) where
  -- A transaction that commits.
  pub transaction-IsDisbursed :
      {f' : Files}
      → Distinct f.accounts
      → find loan_id f.loans ≡ some l
      → disbursement_transaction fl p loan_id l (accounts_of loan_id f.accounts) now f ≡ ok f'
      → IsDisbursed fl p loan_id l now f f'
  unfolding disbursement_transaction
  transaction-IsDisbursed {f'} u found e =
      elim (Result-cases (debit l.branch_id l.cumulative_amount_kobo f.funds).0) [
        | inl (x, short) ↦ let no : err x ≡ ok f' = rw short at e in cc
        | inr (n, paid) ↦
            let accounts = accounts_of loan_id f.accounts in
            elim (Result-cases (activate fl p l now accounts f.accounts)) [
              | inl (x, failed) ↦ let no : err x ≡ ok f' = rw failed at (rw paid at e) in cc
              | inr (members, set) ↦
                  let same = ok-injective (rw set at (rw paid at e)) in
                  subst (IsDisbursed fl p loan_id l now f) same (record {
                    loan_after = find-modify_self loan_id (set_disbursed now) f.loans found;
                    other_loans =
                        λ id new. find-modify_ne id loan_id (set_disbursed now) f.loans new;
                    paid = debit_taken l.branch_id l.cumulative_amount_kobo f.funds paid;
                    members = λ id a there own.
                        activate-sets fl p l now id accounts f.accounts
                          (accounts_of-Distinct loan_id f.accounts u) set
                          (accounts_of-finds loan_id id f.accounts there own) there;
                    other_members = λ id a there other.
                        activate-skips fl p l now id accounts f.accounts set
                          (accounts_of-skips loan_id id f.accounts u there other)
                        ∙ there;
                  })
            ]
      ]

  hand_over-IsDisbursed :
      (accounts : Store Member) (f' : Files)
      → IsDisbursed fl p loan_id l now f f'
      → IsDisbursed fl p loan_id l now f (hand_over loan_id l accounts f')
  unfolding hand_over
  hand_over-IsDisbursed accounts f' s = record {
    loan_after = s.loan_after;
    other_loans = s.other_loans;
    paid = s.paid;
    members = s.members;
    other_members = s.other_members;
  }

  -- After a transaction that committed, `disburse` returns the loan as it is now.
  pub disburse_committed :
      (products : Products) {f' : Files}
      → Distinct f.accounts
      → find loan_id f.loans ≡ some l
      → products l.product_id ≡ ok p
      → disbursement_transaction fl p loan_id l (accounts_of loan_id f.accounts) now f ≡ ok f'
      → (let out = disburse fl products loan_id l (accounts_of loan_id f.accounts) now f in
          (out.0 ≡ ok (set_disbursed now l)) × IsDisbursed fl p loan_id l now f out.1)
  unfolding disburse
  disburse_committed products {f'} u found sold committed =
      let done = transaction-IsDisbursed u found committed in
      let out : disburse fl products loan_id l (accounts_of loan_id f.accounts) now f
          ≡ (ok (set_disbursed now l), hand_over loan_id l (accounts_of loan_id f.accounts) f') =
        rw (sold, disburse) (rw committed (rw done.loan_after refl)) in
      rw out (refl, hand_over-IsDisbursed _ f' done)

  disburse_aborted :
      (products : Products) {x : Failure}
      → products l.product_id ≡ ok p
      → disbursement_transaction fl p loan_id l (accounts_of loan_id f.accounts) now f ≡ err x
      → disburse fl products loan_id l (accounts_of loan_id f.accounts) now f ≡ (err x, f)
  unfolding disburse
  disburse_aborted products sold aborted = rw (sold, disburse) (rw aborted refl)

pub disburse-Settles :
    (fl : Floats) (products : Products) (loan_id : ℕ) (l : Loan) (now : ℕ) (f : Files)
    → Distinct f.accounts
    → find loan_id f.loans ≡ some l
    → (let out = disburse fl products loan_id l (accounts_of loan_id f.accounts) now f in
        (out.1 ≡ f)
        ⊎ ((p : Product) × (products l.product_id ≡ ok p)
            × (out.0 ≡ ok (set_disbursed now l))
            × IsDisbursed fl p loan_id l now f out.1))
unfolding disburse
disburse-Settles fl products loan_id l now f u found = elim (Result-cases (products l.product_id)) [
  | inl (x, unsold) ↦
      let out : disburse fl products loan_id l (accounts_of loan_id f.accounts) now f ≡ (err x, f) =
        rw (unsold, disburse) refl in
      rw out (inl refl)
  | inr (p, sold) ↦
      elim (Result-cases
        (disbursement_transaction fl p loan_id l (accounts_of loan_id f.accounts) now f)) [
          | inl (x, aborted) ↦
              inl (rw (disburse_aborted fl p loan_id l now f products sold aborted) refl)
          | inr (f', committed) ↦
              let (returned, done) =
                disburse_committed fl p loan_id l now f products u found sold committed in
              inr (p, sold, returned, done)
        ]
]
