-- ===== src/Leave/Usage/Reach.antt =====
-- Every sequence of calls on leave (src/modules/hr) from no application and no balance.
use bckashbackend.Common.{
  ℕ, ◌≡◌, refl, ap, ◌∙◌, true, Option, none, List, [], ◌∷◌, Bool-cases, inl, inr, arith,
  Result_keeps, Result, ok, err, not_found, Option_keeps,
}
use bckashbackend.Common.Int.{pos}
use bckashbackend.Workflow.Types.{EventBase}
use bckashbackend.Workflow.Engine.{Engine}
use bckashbackend.Leave.Balance.{
  Application, Key, same_key, LeaveBalance, Leave, key_of, find_balance, get_or_create_balance,
}
use bckashbackend.Leave.Applications.{
  Services, ApplyInput, input_key, apply_for_leave, apply_check, handle_workflow_approved,
  handle_workflow_rejected, cancel_application,
}
use bckashbackend.Leave.Usage.{same_key-eq, same_key_refl, used, has_row, applied_days, IsSound}
use bckashbackend.Leave.Usage.Calls.{
  Each-map, approved-IsSound, rejected-IsSound, cancel_application-IsSound,
}

-- A balance that is looked up is there, and one that is created has used nothing.
record Looked (k : Key) (bs : List LeaveBalance) (out : Result LeaveBalance × List LeaveBalance)
    : Type 0 where
  same_used : (k' : Key) → used k' out.1 ≡ used k' bs
  more_rows : (k' : Key) → has_row k' bs ≡ true → has_row k' out.1 ≡ true
  found : (b : LeaveBalance) → out.0 ≡ ok b → has_row k out.1 ≡ true

created-Looked :
    (k : Key) (days : ℕ) (bs : List LeaveBalance)
    → find_balance k bs ≡ none
    → (let b : LeaveBalance = record { key = k; allocated_days = days; used_days = pos 0 } in
        Looked k bs (ok b, b ∷ bs))
unfolding find_balance
created-Looked k days bs missing = record {
  same_used = λ k'. elim (Bool-cases (same_key k k')) [
    | inl same ↦
        let absent : find_balance k' bs ≡ none = rw⁻¹ (same_key-eq k k' same) missing in
        rw same (rw absent refl)
    | inr other ↦ rw other refl
  ];
  more_rows = λ k' row. elim (Bool-cases (same_key k k')) [
    | inl same ↦ rw same refl
    | inr other ↦ rw other row
  ];
  found = λ b e. rw (same_key_refl k) refl;
}

get_or_create-Looked :
    (allocation : ℕ → Option ℕ) (k : Key) (bs : List LeaveBalance)
    → Looked k bs (get_or_create_balance allocation k bs)
unfolding get_or_create_balance
get_or_create-Looked allocation k bs =
    Option_keeps (Looked k bs) (find_balance k bs)
      (λ missing.
        Option_keeps (Looked k bs) (allocation k.leave_type_id)
          (λ _. record {
            same_used = λ k'. refl;
            more_rows = λ k' row. row;
            found = λ b e. let no : err not_found ≡ ok b = e in cc;
          })
          (λ days _. created-Looked k days bs missing))
      λ b there. record {
        same_used = λ k'. refl;
        more_rows = λ k' row. row;
        found = λ _ _. rw there refl;
      }

module _ (s : Services) where
  balances-IsSound :
      (k : Key) (l : Leave) (out : Result LeaveBalance × List LeaveBalance)
      → Looked k l.balances out
      → IsSound s.year_of l
      → IsSound s.year_of (record l { balances = out.1 })
  balances-IsSound k l out looked h = record {
    usage = λ k'. looked.same_used k' ∙ h.usage k';
    covered =
        Each-map (λ (a : Application). has_row (key_of s.year_of a) l.balances ≡ true) _
          l.applications (λ a row. looked.more_rows (key_of s.year_of a) row) h.covered;
  }

  apply_for_leave-IsSound :
      (id request now : ℕ) (input : ApplyInput) (l : Leave) (e : Engine)
      → IsSound s.year_of l
      → IsSound s.year_of (apply_for_leave s id request now input l e).1
  unfolding apply_for_leave
  apply_for_leave-IsSound id request now input l e h =
      let P = λ (out : Result Application × Leave × Engine). IsSound s.year_of out.1 in
      let k = input_key s input in
      let looked = get_or_create-Looked s.allocation k l.balances in
      let after = balances-IsSound k l (get_or_create_balance s.allocation k l.balances) looked h in
      Result_keeps P (apply_check s input) (λ x _. h)
        λ (who, days) _.
          Result_keeps P (get_or_create_balance s.allocation k l.balances).0 (λ x _. after)
            λ b got. record {
              usage = λ k'. after.usage k' ∙ ap pos (omega arith);
              covered = (looked.found b got, after.covered);
            }

  -- One call, by anybody and with any arguments, and the state after it, whether it throws or not.
  pub data Call (l : Leave) : Leave → Type 0 where
    apply_call :
        (id request now : ℕ) (input : ApplyInput) (e : Engine)
        → Call l (apply_for_leave s id request now input l e).1
    approved_call : (e : EventBase) → Call l (handle_workflow_approved s.year_of e l)
    rejected_call : (e : EventBase) → Call l (handle_workflow_rejected e l)
    cancel_call :
        (id actor : ℕ) (capabilities : List ℕ)
        → Call l (cancel_application s.year_of id actor capabilities l).1
    summary_call :
        (k : Key)
        → Call l (record l { balances = (get_or_create_balance s.allocation k l.balances).1 })

  pub data Reachable : Leave → Type 0 where
    start : Reachable (record { applications = []; balances = [] })
    next : {l l' : Leave} → Reachable l → Call l l' → Reachable l'

  Call-IsSound : {l l' : Leave} → Call l l' → IsSound s.year_of l → IsSound s.year_of l'
  Call-IsSound {l} (apply_call id request now input e) h =
      apply_for_leave-IsSound id request now input l e h
  Call-IsSound {l} (approved_call e) h = approved-IsSound s.year_of e l h
  Call-IsSound {l} (rejected_call e) h = rejected-IsSound s.year_of e l h
  Call-IsSound {l} (cancel_call id actor capabilities) h =
      cancel_application-IsSound s.year_of id actor capabilities l h
  Call-IsSound {l} (summary_call k) h =
      balances-IsSound k l _ (get_or_create-Looked s.allocation k l.balances) h

  start-IsSound : IsSound s.year_of (record { applications = []; balances = [] })
  unfolding find_balance
  start-IsSound = record { usage = λ k. refl; covered = tt }

  reached-IsSound : {l : Leave} → Reachable l → IsSound s.year_of l
  reached-IsSound start = start-IsSound
  reached-IsSound (next before call) = Call-IsSound call (reached-IsSound before)

  -- Whatever applications, approvals, rejections, cancellations and lookups are made, with any events delivered
  -- again, the days used of a balance are the days of its applications that are marked as applied, of
  -- every staff member, leave type and year.
  pub Reachable-used :
      {l : Leave} (k : Key)
      → Reachable l
      → used k l.balances ≡ pos (applied_days s.year_of k l.applications)
  Reachable-used k reached = (reached-IsSound reached).usage k
