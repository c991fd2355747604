-- ===== src/Branches/Funding/Verified.antt =====
-- What a branch is given is what its verified fundings amount to
-- (src/modules/branches/branch-funding.service.ts).
use mathlib.Core.Option.{some-injective}
use bckashbackend.Common.{
  ℕ, ◌+◌, ◌≡◌, refl, sym, ap, ◌∙◌, Bool, true, false, ◌&&◌, Option, some, List, [], ◌∷◌, ◌==◌,
  sum_by, if◌then◌else◌, Bool-cases, inl, inr, arith, Result, ok, Option_keeps, Result_keeps,
}
use bckashbackend.Common.Store.{Store, find, modify, update_if, update_if-some, sum_by-modify}
use bckashbackend.Branches.Funds.{
  handle_branch_created, debit, get_balance, created, credits, debits, debited, move-Balanced,
}
use bckashbackend.Branches.Funding.{
  FundingStatus, is_pending, Resolution, Funding, Treasury, Outcome, Directory, RecordInput,
  record_funding, record_check, verify_funding, verify_check, reject_funding, reject_check,
  nudge_manager, nudge_check, raise_dispute, dispute_check, resolve_dispute, resolve_check,
  set_verified, set_rejected, new_dispute, set_resolved,
}

abbrev is_verified : FundingStatus → Bool
is_verified FundingStatus.verified = true
is_verified _ = false

-- What a funding gives to a branch.
abbrev pub verified_amount : (branch : ℕ) → Funding → ℕ
verified_amount branch q = if is_verified q.status && branch == q.branch_id then q.amount else 0

abbrev pub funded : (branch : ℕ) → Store Funding → ℕ
funded branch = sum_by λ (e : ℕ × Funding). verified_amount branch e.1

-- The calls of the service, and those of the balance service beside it.
pub data FundingCall : Type 0 where
  opens : (branch : ℕ) → FundingCall
  pays : (branch amount : ℕ) → FundingCall
  records : Directory → RecordInput → (by id : ℕ) → FundingCall
  verifies : Directory → (id actor now : ℕ) → FundingCall
  rejects : Directory → (id actor : ℕ) → (reason : Option ℕ) → FundingCall
  nudges : (id by now : ℕ) → FundingCall
  disputes : Directory → (id actor reason : ℕ) → (upload : Result ℕ) → (now : ℕ) → FundingCall
  resolves : (id actor : ℕ) → Resolution → (note now : ℕ) → FundingCall

abbrev pub call : FundingCall → Treasury → Treasury
call (opens b) t = record t { funds = handle_branch_created b t.funds }
call (pays b n) t = record t { funds = (debit b n t.funds).1 }
call (records dir dto by id) t = (record_funding dir dto by id t).1
call (verifies dir id actor now) t = (verify_funding dir id actor now t).1
call (rejects dir id actor reason) t = (reject_funding dir id actor reason t).1
call (nudges id by now) t = (nudge_manager id by now t).1
call (disputes dir id actor reason upload now) t =
    (raise_dispute dir id actor reason upload now t).1
call (resolves id actor resolution note now) t = (resolve_dispute id actor resolution note now t).1

-- What a call takes from a branch.
abbrev pub paid : (branch : ℕ) → FundingCall → Treasury → ℕ
paid branch (pays b n) t = debited branch (debits b n) t.funds
paid branch _ t = 0

abbrev pub run_calls : List FundingCall → Treasury → Treasury
run_calls [] t = t
run_calls (c ∷ cs) t = run_calls cs (call c t)

abbrev pub paid_in : (branch : ℕ) → List FundingCall → Treasury → ℕ
paid_in branch [] t = 0
paid_in branch (c ∷ cs) t = paid branch c t + paid_in branch cs (call c t)

module _ (branch : ℕ) where
  -- Nothing was taken, and what was given was funded.
  abbrev Even : Treasury → Treasury → Type 0
  Even t t' =
      get_balance branch t'.funds + funded branch t.fundings
      ≡ get_balance branch t.funds + funded branch t'.fundings

  abbrev Gives : Treasury → Outcome → Type 0
  Gives t out = Even t out.1

  -- A write that leaves the status, the branch and the amount.
  funded-modify :
      (id : ℕ) (f : Funding → Funding) (d : Store Funding)
      → ((q : Funding) → verified_amount branch (f q) ≡ verified_amount branch q)
      → funded branch (modify id f d) ≡ funded branch d
  funded-modify id f [] h = refl
  funded-modify id f ((j, q) ∷ d) h = elim (Bool-cases (id == j)) [
    | inl same ↦ rw same (ap (λ n. n + funded branch d) (h q))
    | inr other ↦ rw other (ap (λ n. verified_amount branch q + n) (funded-modify id f d h))
  ]

  verify_check-found :
      (dir : Directory) (id actor : ℕ) (t : Treasury) {q : Funding}
      → verify_check dir id actor t ≡ ok q
      → find id t.fundings ≡ some q
  unfolding verify_check
  verify_check-found dir id actor t e = ground arith

  pending_amount : (q : Funding) → is_pending q.status ≡ true → verified_amount branch q ≡ 0
  pending_amount q e = ground arith

  verify_funding-Even :
      (dir : Directory) (id actor now : ℕ) (t : Treasury)
      → Gives t (verify_funding dir id actor now t)
  unfolding verify_funding
  verify_funding-Even dir id actor now t =
      Result_keeps (Gives t) (verify_check dir id actor t) (λ x _. refl)
        λ seen passed.
          Option_keeps (Gives t)
            (update_if id (λ (q : Funding). is_pending q.status) (set_verified actor now)
              t.fundings)
            (λ _. refl)
            λ r e.
              let (v, found, pending, written) =
                update_if-some id _ (set_verified actor now) t.fundings e in
              let seen_v : seen ≡ v =
                some-injective seen v (sym (verify_check-found dir id actor t passed) ∙ found) in
              let given : verified_amount branch (set_verified actor now v)
                  ≡ (if branch == seen.branch_id then seen.amount else 0) =
                rw seen_v refl in
              let none_yet = pending_amount v pending in
              let sums =
                sum_by-modify (verified_amount branch) id (set_verified actor now) t.fundings
                  found in
              let credited = move-Balanced branch (credits seen.branch_id seen.amount) t.funds in
              let kept = ap (λ (x : Funding × Store Funding). funded branch x.1) written in
              omega (arith, given, none_yet, sums, credited, kept)

  reject_funding-Even :
      (dir : Directory) (id actor : ℕ) (reason : Option ℕ) (t : Treasury)
      → Gives t (reject_funding dir id actor reason t)
  unfolding reject_funding
  reject_funding-Even dir id actor reason t =
      Result_keeps (Gives t) (reject_check dir id actor reason t) (λ x _. refl)
        λ seen passed.
          Option_keeps (Gives t)
            (update_if id (λ (q : Funding). is_pending q.status) (set_rejected seen.1) t.fundings)
            (λ _. refl)
            λ r e.
              let (v, found, pending, written) =
                update_if-some id _ (set_rejected seen.1) t.fundings e in
              let none_yet = pending_amount v pending in
              let sums =
                sum_by-modify (verified_amount branch) id (set_rejected seen.1) t.fundings found in
              let kept = ap (λ (x : Funding × Store Funding). funded branch x.1) written in
              omega (arith, none_yet, sums, kept)

  record_funding-Even :
      (dir : Directory) (dto : RecordInput) (by id : ℕ) (t : Treasury)
      → Gives t (record_funding dir dto by id t)
  unfolding record_funding
  record_funding-Even dir dto by id t =
      Result_keeps (Gives t) (record_check dir dto) (λ x _. refl) λ u _. omega arith

  nudge_manager-Even : (id by now : ℕ) (t : Treasury) → Gives t (nudge_manager id by now t)
  unfolding nudge_manager
  nudge_manager-Even id by now t =
      Result_keeps (Gives t) (nudge_check id t) (λ x _. refl)
        λ q _.
          let f = λ (w : Funding). record w { last_nudged_at = some now } in
          let same = funded-modify id f t.fundings (λ w. refl) in omega (arith, same)

  raise_dispute-Even :
      (dir : Directory) (id actor reason : ℕ) (upload : Result ℕ) (now : ℕ) (t : Treasury)
      → Gives t (raise_dispute dir id actor reason upload now t)
  unfolding raise_dispute
  raise_dispute-Even dir id actor reason upload now t =
      Result_keeps (Gives t) (dispute_check dir id actor upload t) (λ x _. refl)
        λ q _.
          let f = λ (w : Funding). record w {
            dispute_details = some (new_dispute actor reason q.1 now);
          } in
          let same = funded-modify id f t.fundings (λ w. refl) in omega (arith, same)

  resolve_dispute-Even :
      (id actor : ℕ) (resolution : Resolution) (note now : ℕ) (t : Treasury)
      → Gives t (resolve_dispute id actor resolution note now t)
  unfolding resolve_dispute
  resolve_dispute-Even id actor resolution note now t =
      Result_keeps (Gives t) (resolve_check id t) (λ x _. refl)
        λ q _.
          let f = λ (w : Funding). record w {
            dispute_details = some (set_resolved resolution actor note now q.1);
          } in
          let same = funded-modify id f t.fundings (λ w. refl) in omega (arith, same)

  call-Even :
      (c : FundingCall) (t : Treasury)
      → get_balance branch (call c t).funds + paid branch c t + funded branch t.fundings
        ≡ get_balance branch t.funds + funded branch (call c t).fundings
  call-Even (opens b) t = let here = move-Balanced branch (created b) t.funds in omega (arith, here)
  call-Even (pays b n) t =
      let here = move-Balanced branch (debits b n) t.funds in omega (arith, here)
  call-Even (records dir dto by id) t =
      let here = record_funding-Even dir dto by id t in omega (arith, here)
  call-Even (verifies dir id actor now) t =
      let here = verify_funding-Even dir id actor now t in omega (arith, here)
  call-Even (rejects dir id actor reason) t =
      let here = reject_funding-Even dir id actor reason t in omega (arith, here)
  call-Even (nudges id by now) t = let here = nudge_manager-Even id by now t in omega (arith, here)
  call-Even (disputes dir id actor reason upload now) t =
      let here = raise_dispute-Even dir id actor reason upload now t in omega (arith, here)
  call-Even (resolves id actor resolution note now) t =
      let here = resolve_dispute-Even id actor resolution note now t in omega (arith, here)

  -- Whatever calls are made, of the service and of disbursements, the balance of a branch and what was
  -- taken from it make up the balance it began with and the amounts of the fundings verified since.
  pub run_calls-funded :
      (cs : List FundingCall) (t : Treasury)
      → get_balance branch (run_calls cs t).funds + paid_in branch cs t + funded branch t.fundings
        ≡ get_balance branch t.funds + funded branch (run_calls cs t).fundings
  run_calls-funded [] t = omega arith
  run_calls-funded (c ∷ cs) t =
      let here = call-Even c t in
      let rest = run_calls-funded cs (call c t) in omega (arith, here, rest)
