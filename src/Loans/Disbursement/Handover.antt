-- ===== src/Loans/Disbursement/Handover.antt =====
-- The schedule after a cheque is handed over (src/modules/loans/loan-verification.service.ts,
-- `confirmChequeHandover`).
use bckashbackend.Common.{
  ℕ, suc, ◌≡◌, refl, sym, ap, ◌∙◌, ok-injective, none, some, List, [], ◌∷◌, length, ok, arith,
}
use bckashbackend.Common.Store.{find, modify}
use bckashbackend.Calc.Reducing.{Floats}
use bckashbackend.Lending.State.{AccountStatus, Channel}
use bckashbackend.Loans.State.{Loan, Member, Product, Products, Row, Files}
use bckashbackend.Loans.Schedule.{schedule_of, reanchor}
use bckashbackend.Loans.Schedule.Dates.{installment_count-fits, schedule_of-reanchor}
use bckashbackend.Loans.Disbursement.{
  Terms, terms_of, set_terms, handover_schedule, handover_check, confirm_cheque_handover,
}

module _ (products : Products) (p : Product) (l : Loan) (m : Member) (now : ℕ) (f : Files)
    (borrowed : find m.loan_id f.loans ≡ some l) (sold : products l.product_id ≡ ok p) where
  handover_reanchors :
      (rest : ℕ) (s : List Row)
      → m.schedule ≡ s
      → length s ≡ suc rest
      → handover_schedule products m now f
        ≡ ok (reanchor now (length s) p.repayment_period_days l.tenure_days s)
  unfolding handover_schedule
  handover_reanchors rest [] same len = ground arith
  handover_reanchors rest (r ∷ rs) same len =
      rw (same, handover_schedule) (rw borrowed (rw sold refl))

  handover_check_passes :
      (account_id : ℕ) {rows : List Row}
      → find account_id f.accounts ≡ some m
      → m.disbursement_channel ≡ Channel.cheque_pickup
      → m.status ≡ AccountStatus.active
      → m.cheque_handed_over_at ≡ none
      → handover_schedule products m now f ≡ ok rows
      → handover_check products account_id now f
        ≡ ok (record m { cheque_handed_over_at = some now; schedule = rows })
  unfolding handover_check
  handover_check_passes account_id there by_cheque active waiting anchored =
      rw (there, handover_check) (rw anchored (rw (by_cheque, active, waiting) refl))

terms_of-schedule :
    (fl : Floats) (p : Product) (l : Loan) (now : ℕ) (a : Member) (t : Terms) {rows : List Row}
    → terms_of fl p l now a ≡ ok t
    → schedule_of fl p l.tenure_days a.principal_amount_kobo now ≡ ok rows
    → t.schedule ≡ rows
unfolding terms_of
terms_of-schedule fl p l now a t terms e =
    sym (ap (λ (u : Terms). u.schedule) (ok-injective (rw e at terms)))

-- The handover of the cheque of an account that was disbursed and not yet handed over, with the
-- terms that a disbursement at any earlier date gave it, of a loan and a product as they were then: where the
-- tenure of the loan and the period of the product are now what they were, the account has the very schedule
-- that a disbursement on the day of the handover would have given it, and cannot be handed over again.
pub confirm_cheque_handover-schedule :
    (fl : Floats) (products : Products) (p p' : Product) (l l' : Loan) (a : Member) (t : Terms)
    (account_id disbursed now tenure period : ℕ) (f : Files)
    → find account_id f.accounts ≡ some (set_terms t a)
    → find a.loan_id f.loans ≡ some l'
    → products l'.product_id ≡ ok p'
    → a.disbursement_channel ≡ Channel.cheque_pickup
    → a.cheque_handed_over_at ≡ none
    → terms_of fl p l disbursed a ≡ ok t
    → l.tenure_days ≡ suc tenure
    → l'.tenure_days ≡ suc tenure
    → p.repayment_period_days ≡ suc period
    → p'.repayment_period_days ≡ suc period
    → (rows : List Row) × (schedule_of fl p l.tenure_days a.principal_amount_kobo now ≡ ok rows)
      × (confirm_cheque_handover products account_id now f ≡ (
          let a' : Member = record (set_terms t a) {
            cheque_handed_over_at = some now;
            schedule = rows;
          } in
          (ok a', record f { accounts = modify account_id (λ _. a') f.accounts })))
unfolding confirm_cheque_handover
confirm_cheque_handover-schedule fl products p p' l l' a t account_id disbursed now tenure period f
      there borrowed sold by_cheque waiting terms ht ht' hp hp' =
    let (c, counted, fits) = installment_count-fits tenure period in
    let (rows, e, len, e') =
      schedule_of-reanchor fl p l.tenure_days a.principal_amount_kobo disbursed now c
        (rw (ht, hp) counted) in
    let same = terms_of-schedule fl p l disbursed a t terms e in
    let anchored =
      handover_reanchors products p' l' (set_terms t a) now f borrowed sold c rows same len in
    let anew : List Row = reanchor now (length rows) p.repayment_period_days l.tenure_days rows in
    let unchanged : reanchor now (length rows) p'.repayment_period_days l'.tenure_days rows ≡ anew =
      ap (λ d. reanchor now (length rows) d l'.tenure_days rows) (hp' ∙ sym hp)
      ∙ ap (λ d. reanchor now (length rows) p.repayment_period_days d rows) (ht' ∙ sym ht) in
    let passed =
      handover_check_passes products p' l' (set_terms t a) now f borrowed sold account_id there
        by_cheque refl waiting (anchored ∙ ap ok unchanged) in
    (anew, e', rw (passed, confirm_cheque_handover) refl)
