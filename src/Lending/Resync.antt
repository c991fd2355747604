-- ===== src/Lending/Resync.antt =====
-- What a resync of a loan's status leaves (src/modules/loans/loans.service.ts, `syncCompletionStatus`).
use bckashbackend.Common.{
  ℕ, ◌≡◌, ◌≢◌, ◌⊎◌, ◌↔◌, inl, inr, refl, sym, Bool, true, false, some, [], ◌∷◌, ◌==◌, ◌&&◌, every,
  Bool-cases, ==→≡, ==→≢, arith,
}
use bckashbackend.Common.Store.{Store, find, find-modify_self, find-modify_ne}
use bckashbackend.Lending.State.{
  Loan, LoanStatus, Account, AccountStatus, Books, same_account_status,
}
use bckashbackend.Lending.Completion.{
  completion_status, sync_completion_status, all_settled, statuses_of, is_nonempty,
}

-- The loan has an account.
abbrev pub HasAccount : (loan_id : ℕ) → Store Account → Type 0
HasAccount loan_id [] = ⊥
HasAccount loan_id ((_, a) ∷ d) = (a.loan_id ≡ loan_id) ⊎ HasAccount loan_id d

-- Every account of the loan is CLOSED.
abbrev pub AllClosed : (loan_id : ℕ) → Store Account → Type 0
AllClosed loan_id [] = Unit
AllClosed loan_id ((_, a) ∷ d) =
    ((a.loan_id ≢ loan_id) ⊎ (a.status ≡ AccountStatus.closed)) × AllClosed loan_id d

abbrev is_closed : AccountStatus → Bool
is_closed s = same_account_status s AccountStatus.closed

not_true : false ≢ true
not_true e = cc

every-AllClosed :
    (loan_id : ℕ) (d : Store Account)
    → (every is_closed (statuses_of loan_id d) ≡ true) ↔ AllClosed loan_id d
every-AllClosed loan_id [] = (λ _. tt, λ _. refl)
every-AllClosed loan_id ((i, a) ∷ d) =
    let rest = every-AllClosed loan_id d in
    elim (Bool-cases (a.loan_id == loan_id)) [
      | inl mine ↦
          let same = ==→≡ a.loan_id loan_id mine in
          rw mine (elim (Bool-cases (is_closed a.status)) [
            | inl done ↦ rw done (λ e. (inr (ground arith), rest.0 e), λ h. rest.1 h.1)
            | inr going ↦ rw going (
              λ e. absurd (not_true e),
              λ h. elim h.0 [
                | inl elsewhere ↦ absurd (elsewhere same)
                | inr closed ↦
                    let no : is_closed AccountStatus.closed ≡ false = rw closed at going in
                    absurd (not_true (sym no))
              ],
            )
          ])
      | inr other ↦ rw other (λ e. (inl (==→≢ a.loan_id loan_id other), rest.0 e), λ h. rest.1 h.1)
    ]

nonempty-HasAccount :
    (loan_id : ℕ) (d : Store Account)
    → (is_nonempty (statuses_of loan_id d) ≡ true) ↔ HasAccount loan_id d
nonempty-HasAccount loan_id [] = (λ e. absurd (not_true e), λ h. absurd h)
nonempty-HasAccount loan_id ((i, a) ∷ d) =
    let rest = nonempty-HasAccount loan_id d in
    elim (Bool-cases (a.loan_id == loan_id)) [
      | inl mine ↦ rw mine (λ _. inl (==→≡ a.loan_id loan_id mine), λ _. refl)
      | inr other ↦ rw other (
        λ e. inr (rest.0 e),
        λ h. elim h [
          | inl same ↦ absurd (==→≢ a.loan_id loan_id other same)
          | inr later ↦ rest.1 later
        ],
      )
    ]

abbrev pub Settled : (loan_id : ℕ) → Store Account → Type 0
Settled loan_id d = HasAccount loan_id d × AllClosed loan_id d

and_both : (a b : Bool) → (a && b) ≡ true → (a ≡ true) × (b ≡ true)
and_both true b e = (refl, e)
and_both false b e = absurd (not_true e)

all_settled-Settled :
    (loan_id : ℕ) (d : Store Account)
    → (all_settled (statuses_of loan_id d) ≡ true) ↔ Settled loan_id d
unfolding all_settled
all_settled-Settled loan_id d =
    let some_there = nonempty-HasAccount loan_id d in
    let all_done = every-AllClosed loan_id d in
    (
      λ e. (some_there.0 (and_both _ _ e).0, all_done.0 (and_both _ _ e).1),
      λ h. rw (some_there.1 h.0, all_done.1 h.1) refl,
    )

-- The status of a loan before and after a resync, by whether its accounts are settled.
abbrev pub Synced : Type 0 → LoanStatus → LoanStatus → Type 0
Synced Q LoanStatus.disbursed after =
    ((after ≡ LoanStatus.closed) × Q) ⊎ ((after ≡ LoanStatus.disbursed) × (¬ Q))
Synced Q LoanStatus.closed after =
    ((after ≡ LoanStatus.closed) × Q) ⊎ ((after ≡ LoanStatus.disbursed) × (¬ Q))
Synced Q before after = after ≡ before

completion_status-Synced :
    (Q : Type 0) (settled : Bool) (s : LoanStatus)
    → (settled ≡ true) ↔ Q
    → Synced Q s (completion_status settled s)
unfolding completion_status
completion_status-Synced Q settled LoanStatus.pending_approval h = refl
completion_status-Synced Q settled LoanStatus.approved h = refl
completion_status-Synced Q settled LoanStatus.verification_in_progress h = refl
completion_status-Synced Q settled LoanStatus.verification_failed h = refl
completion_status-Synced Q settled LoanStatus.rejected h = refl
completion_status-Synced Q true LoanStatus.disbursed h = inl (refl, h.0 refl)
completion_status-Synced Q true LoanStatus.closed h = inl (refl, h.0 refl)
completion_status-Synced Q false LoanStatus.disbursed h = inr (refl, λ q. not_true (h.1 q))
completion_status-Synced Q false LoanStatus.closed h = inr (refl, λ q. not_true (h.1 q))

-- After a resync a disbursed or closed loan is closed if it has an account and all its accounts are
-- closed, and disbursed if not; a loan in another status keeps it. Nothing else of the loan changes, nor
-- another loan, nor an account.
pub sync_completion_status-status :
    (id other : ℕ) (b : Books) (l : Loan)
    → find id b.loans ≡ some l
    → other ≢ id
    → (s : LoanStatus) × (find id (sync_completion_status id b).loans
        ≡ some (record l { status = s }))
      × Synced (Settled id b.accounts) l.status s
      × (find other (sync_completion_status id b).loans ≡ find other b.loans)
      × ((sync_completion_status id b).accounts ≡ b.accounts)
unfolding sync_completion_status
sync_completion_status-status id other b l found ne = (
  _,
  find-modify_self id _ b.loans found,
  completion_status-Synced (Settled id b.accounts) _ l.status (all_settled-Settled id b.accounts),
  find-modify_ne other id _ b.loans ne,
  refl,
)
