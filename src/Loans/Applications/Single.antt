-- ===== src/Loans/Applications/Single.antt =====
-- One loan at a time per customer (src/modules/loans/loans.service.ts, `raiseApplication`).
use bckashbackend.Common.{
  ℕ, ◌+◌, ◌≤◌, ◌≡◌, ◌⊎◌, inl, inr, refl, sym, ◌∙◌, ==→≡, Bool, true, false, ◌&&◌, ◌||◌, List, [],
  ◌∷◌, ◌++◌, ◌==◌, any, includes, if◌then◌else◌, ok, arith, Result-cases, Bool-cases,
}
use bckashbackend.Common.Store.{Store}
use bckashbackend.Lending.State.{AccountStatus, same_account_status}
use bckashbackend.Loans.State.{Member}
use bckashbackend.Loans.Pending.{MemberRequest}
use bckashbackend.Loans.Consent.{verify_challenge}
use bckashbackend.Loans.Applications.{
  Services, Ids, Terms, RaiseInput, Desk, requests_check, is_blocking, customers_of, new_members,
  create_loan, application_check, raise_application,
}

abbrev pub is_open : Member → Bool
is_open a =
    same_account_status a.status AccountStatus.pending
    || same_account_status a.status AccountStatus.active

-- The PENDING and ACTIVE accounts of a customer.
unfoldable pub open_accounts : ℕ → Store Member → ℕ
open_accounts customer [] = 0
open_accounts customer ((i, a) ∷ d) =
    (if a.customer_id == customer && is_open a then 1 else 0) + open_accounts customer d

open_accounts-append :
    (customer : ℕ) (d d' : Store Member)
    → open_accounts customer (d ++ d') ≡ open_accounts customer d + open_accounts customer d'
unfolding open_accounts
open_accounts-append customer [] d' = omega arith
open_accounts-append customer ((i, a) ∷ d) d' = omega (arith, open_accounts-append customer d d')

-- A customer of whom the check found no account has none that is open.
unblocked :
    (customers : List ℕ) (customer : ℕ) (d : Store Member)
    → any (λ (e : ℕ × Member). is_blocking customers e.1) d ≡ false
    → includes customer customers ≡ true
    → open_accounts customer d ≡ 0
unfolding open_accounts
unblocked customers customer [] free among = refl
unblocked customers customer ((i, a) ∷ d) free among = elim (Bool-cases (is_blocking customers a)) [
  | inl blocks ↦ let no : true ≡ false = rw blocks at free in cc
  | inr passes ↦
      let rest = unblocked customers customer d (rw passes at free) among in
      elim (Bool-cases (a.customer_id == customer)) [
        | inr other ↦ rw other (omega (arith, rest))
        | inl same ↦
            let there : includes a.customer_id customers ≡ true =
              rw (==→≡ a.customer_id customer same) among in
            let shut : is_open a ≡ false = rw there at passes in
            rw shut (rw same (omega (arith, rest)))
      ]
]

requests_check_rest :
    (active seen : List ℕ) (r : MemberRequest) (rs : List MemberRequest)
    → requests_check active seen (r ∷ rs) ≡ ok tt
    → (includes r.customer_id seen ≡ false)
      × (requests_check active (r.customer_id ∷ seen) rs ≡ ok tt)
unfolding requests_check
requests_check_rest active seen r rs passed = ground arith

-- A customer of an earlier request has no new account.
new_open_seen :
    (active seen : List ℕ) (rs : List MemberRequest) (loan first customer : ℕ)
    → requests_check active seen rs ≡ ok tt
    → includes customer seen ≡ true
    → open_accounts customer (new_members loan first rs) ≡ 0
unfolding open_accounts new_members
new_open_seen active seen [] loan first customer passed among = refl
new_open_seen active seen (r ∷ rs) loan first customer passed among =
    let (unseen, next) = requests_check_rest active seen r rs passed in
    elim (Bool-cases (customer == r.customer_id)) [
      | inl same ↦
          let seen' : includes customer seen ≡ false =
            rw (==→≡ customer r.customer_id same) unseen in
          let no : true ≡ false = sym among ∙ seen' in cc
      | inr other ↦
          let rest =
            new_open_seen active (r.customer_id ∷ seen) rs loan (first + 1) customer next
              (rw other among) in
          let other' : (r.customer_id == customer) ≡ false = ground arith in
          rw other' (omega (arith, rest))
    ]

-- No customer has two new accounts, and one who made no request has none.
new_open :
    (active seen : List ℕ) (rs : List MemberRequest) (loan first customer : ℕ)
    → requests_check active seen rs ≡ ok tt
    → open_accounts customer (new_members loan first rs) ≤ 1
unfolding open_accounts new_members
new_open active seen [] loan first customer passed = omega arith
new_open active seen (r ∷ rs) loan first customer passed =
    let (unseen, next) = requests_check_rest active seen r rs passed in
    elim (Bool-cases (r.customer_id == customer)) [
      | inl same ↦
          let same' : (customer == r.customer_id) ≡ true = ground arith in
          let rest =
            new_open_seen active (r.customer_id ∷ seen) rs loan (first + 1) customer next
              (rw same' refl) in
          rw same (omega (arith, rest))
      | inr other ↦
          let rest = new_open active (r.customer_id ∷ seen) rs loan (first + 1) customer next in
          rw other (omega (arith, rest))
    ]

new_open_other :
    (rs : List MemberRequest) (loan first customer : ℕ)
    → includes customer (customers_of rs) ≡ false
    → open_accounts customer (new_members loan first rs) ≡ 0
unfolding open_accounts new_members
new_open_other [] loan first customer absent = refl
new_open_other (r ∷ rs) loan first customer absent = elim (Bool-cases (customer == r.customer_id)) [
  | inl same ↦ let no : true ≡ false = rw same at absent in cc
  | inr other ↦
      let rest = new_open_other rs loan (first + 1) customer (rw other at absent) in
      let other' : (r.customer_id == customer) ≡ false = ground arith in
      rw other' (omega (arith, rest))
]

-- What an application that passed its checks has shown.
record Passed (s : Services) (input : RaiseInput) (d : Desk) : Type 0 where
  active : List ℕ
  distinct : requests_check active [] input.requests ≡ ok tt
  free :
      any (λ (e : ℕ × Member). is_blocking (customers_of input.requests) e.1) d.files.accounts
      ≡ false

application_check-Passed :
    (s : Services) (consented : ℕ) (input : RaiseInput) (d : Desk) {t : Terms}
    → application_check s consented input d ≡ ok t
    → Passed s input d
unfolding application_check
application_check-Passed s consented input d {t} e =
    elim (Result-cases (s.groups.active_members input.group_id)) [
      | inl (x, failed) ↦ ground arith
      | inr (active, members) ↦ record {
        active = active;
        distinct = ground arith;
        free = ground arith;
      }
    ]

-- The accounts after a call: those there were, or with the new ones.
raise_application-accounts :
    (s : Services) (ids : Ids) (input : RaiseInput) (now : ℕ) (d : Desk)
    → (let after = (raise_application s ids input now d).1.files.accounts in
        (after ≡ d.files.accounts)
        ⊎ (Passed s input d
            × (after ≡ new_members ids.loan ids.first_account input.requests ++ d.files.accounts)))
unfolding raise_application create_loan
raise_application-accounts s ids input now d =
    let v =
      verify_challenge s.hash input.consent_challenge_id input.consent_code now d.challenges in
    let d' : Desk = record d { challenges = v.1 } in
    elim (Result-cases v.0) [
      | inl (x, refused) ↦ rw (refused, raise_application) (inl refl)
      | inr (consented, agreed) ↦ elim (Result-cases (application_check s consented input d')) [
        | inl (x, failed) ↦ rw (agreed, raise_application) (rw failed (inl refl))
        | inr (t, passed) ↦
            let p = application_check-Passed s consented input d' passed in
            rw (agreed, raise_application)
              (rw passed
                (inr (record { active = p.active; distinct = p.distinct; free = p.free }, refl)))
      ]
    ]

-- Where no customer has two accounts that are PENDING or ACTIVE, no customer has after an application
-- is raised, whether the call throws or not, whoever it is for.
pub raise_application_single :
    (s : Services) (ids : Ids) (input : RaiseInput) (now : ℕ) (d : Desk)
    → ((customer : ℕ) → open_accounts customer d.files.accounts ≤ 1)
    → (customer : ℕ)
    → open_accounts customer (raise_application s ids input now d).1.files.accounts ≤ 1
raise_application_single s ids input now d single customer =
    elim (raise_application-accounts s ids input now d) [
      | inl same ↦ rw same (single customer)
      | inr (p, added) ↦
          let new = new_members ids.loan ids.first_account input.requests in
          let sum = open_accounts-append customer new d.files.accounts in
          elim (Bool-cases (includes customer (customers_of input.requests))) [
            | inl among ↦
                let none_old =
                  unblocked (customers_of input.requests) customer d.files.accounts p.free among in
                let few =
                  new_open p.active [] input.requests ids.loan ids.first_account customer
                    p.distinct in
                rw added (omega (arith, sum, none_old, few))
            | inr absent ↦
                let none_new =
                  new_open_other input.requests ids.loan ids.first_account customer absent in
                rw added (omega (arith, sum, none_new, single customer))
          ]
    ]
