-- ===== src/Leave/Usage/Calls.antt =====
-- What each call on leave (src/modules/hr) keeps of the balances.
use bckashbackend.Common.{
  ℕ, ◌+◌, ◌≡◌, refl, sym, ap, subst, ◌∙◌, Bool, true, false, not, ◌&&◌, some, List, [], ◌∷◌, ◌==◌,
  sum_by, if◌then◌else◌, Bool-cases, inl, inr, arith, if_keeps, Option_keeps, Result_keeps, Result,
  includes,
}
use bckashbackend.Common.Int.{ℤ, pos, ◌+ℤ◌, ◌-ℤ◌, int_laws}
use bckashbackend.Common.Store.{
  Store, find, modify, update_if, Each, find-Each, modify-Each, update_if-some, sum_by-modify,
}
use bckashbackend.Workflow.Types.{EventBase}
use bckashbackend.Leave.Balance.{
  Application, LeaveStatus, same_key, Leave, key_of, inc_used, apply_usage, reverse_usage,
}
use bckashbackend.Leave.Applications.{
  leave_event, handle_workflow_approved, handle_workflow_rejected, cancel_application, cancel_write,
  set_status, is_pending, is_approved, leave_cancel_approved,
}
use bckashbackend.Leave.Usage.{
  same_key-eq, used, has_row, used-inc_self, used-inc_other, inc_used-has_row, takes, applied_days,
  IsSound,
}

pub Each-map :
    {V : Type 0} (P Q : V → Type 0) (d : Store V) → ((v : V) → P v → Q v) → Each P d → Each Q d
Each-map P Q [] g h = tt
Each-map P Q ((j, v) ∷ d) g h = (g v h.0, Each-map P Q d g h.1)

sum_by-same :
    {V : Type 0} (w : V → ℕ) (id : ℕ) (f : V → V) (d : Store V)
    → ((v : V) → w (f v) ≡ w v)
    → sum_by (λ e. w e.1) (modify id f d) ≡ sum_by (λ e. w e.1) d
sum_by-same w id f [] h = refl
sum_by-same w id f ((j, v) ∷ d) h = elim (Bool-cases (id == j)) [
  | inl same ↦ rw same (rw (h v) refl)
  | inr other ↦ rw other (rw (sum_by-same w id f d h) refl)
]

flag_days :
    (flag : Bool) (days n m : ℕ)
    → m + (if not flag && true then days else 0) ≡ n + (if flag && true then days else 0)
    → m + (if flag then 0 else days) ≡ n + (if flag then days else 0)
flag_days true days n m e = e
flag_days false days n m e = e

module _ (year_of : ℕ → ℕ) where
  -- A flag that is set or cleared, with the days that it moves.
  flag-IsSound :
      (id : ℕ) (flag : Bool) (g : ℤ → ℤ) (s : Leave) (v : Application)
      → find id s.applications ≡ some v
      → ((n m : ℕ)
          → m + (if flag then 0 else v.number_of_days) ≡ n + (if flag then v.number_of_days else 0)
          → g (pos n) ≡ pos m)
      → v.balance_applied ≡ not flag
      → IsSound year_of s
      → IsSound year_of (record {
        applications =
            modify id (λ (a : Application). record a { balance_applied = flag }) s.applications;
        balances = inc_used (key_of year_of v) g s.balances;
      })
  flag-IsSound id flag g s v found moves was h =
      let key = key_of year_of v in
      let row : has_row key s.balances ≡ true =
        find-Each (λ (a : Application). has_row (key_of year_of a) s.balances ≡ true) id
          s.applications h.covered found in
      record {
        usage = λ k.
            let f = λ (a : Application). record a { balance_applied = flag } in
            let sums = sum_by-modify (takes year_of k) id f s.applications found in
            elim (Bool-cases (same_key key k)) [
              | inl same ↦
                  let here =
                    subst (λ k'. used k' (inc_used key g s.balances) ≡ g (used k' s.balances))
                      (same_key-eq key k same) (used-inc_self key g s.balances row) in
                  here
                  ∙ ap g (h.usage k)
                  ∙ moves (applied_days year_of k s.applications) _
                      (flag_days flag v.number_of_days _ _ (rw (was, same) at sums))
              | inr other ↦
                  let level : applied_days year_of k (modify id f s.applications)
                      ≡ applied_days year_of k s.applications =
                    ground arith in
                  used-inc_other key k g s.balances other ∙ h.usage k ∙ ap pos (sym level)
            ];
        covered =
            modify-Each
              (λ (a : Application). has_row (key_of year_of a) (inc_used key g s.balances) ≡ true)
              id _ s.applications (λ a _ kept. kept)
              (Each-map (λ (a : Application). has_row (key_of year_of a) s.balances ≡ true) _
                s.applications
                (λ a there. inc_used-has_row key (key_of year_of a) g s.balances there) h.covered);
      }

  pub apply_usage-IsSound :
      (id : ℕ) (s : Leave) → IsSound year_of s → IsSound year_of (apply_usage year_of id s).1
  unfolding apply_usage
  apply_usage-IsSound id s h =
      Option_keeps (λ (out : Bool × Leave). IsSound year_of out.1) (update_if id _ _ s.applications)
        (λ _. h)
        λ r written.
          let (v, found, unset, same) = update_if-some id _ _ s.applications written in
          subst
            (λ (q : Application × Store Application). IsSound year_of (record {
              applications = q.1;
              balances =
                  inc_used (key_of year_of q.0) (λ n. n +ℤ pos q.0.number_of_days) s.balances;
            }))
            (sym same)
            (flag-IsSound id true (λ n. n +ℤ pos v.number_of_days) s v found
              (λ n m e. omega (int_laws, e)) (ground arith) h)

  pub reverse_usage-IsSound :
      (id : ℕ) (s : Leave) → IsSound year_of s → IsSound year_of (reverse_usage year_of id s).1
  unfolding reverse_usage
  reverse_usage-IsSound id s h =
      Option_keeps (λ (out : Bool × Leave). IsSound year_of out.1) (update_if id _ _ s.applications)
        (λ _. h)
        λ r written.
          let (v, found, set, same) = update_if-some id _ _ s.applications written in
          subst
            (λ (q : Application × Store Application). IsSound year_of (record {
              applications = q.1;
              balances =
                  inc_used (key_of year_of q.0) (λ n. n -ℤ pos q.0.number_of_days) s.balances;
            }))
            (sym same)
            (flag-IsSound id false (λ n. n -ℤ pos v.number_of_days) s v found
              (λ n m e. omega (int_laws, e)) set h)

  -- A write to a status.
  status-IsSound :
      (id : ℕ) (t : LeaveStatus) (s : Leave)
      → IsSound year_of s
      → IsSound year_of (record s { applications = modify id (set_status t) s.applications })
  status-IsSound id t s h = record {
    usage = λ k.
        h.usage k
        ∙ ap pos (sym (sum_by-same (takes year_of k) id (set_status t) s.applications (λ v. refl)));
    covered =
        modify-Each (λ (a : Application). has_row (key_of year_of a) s.balances ≡ true) id _
          s.applications (λ a _ kept. kept) h.covered;
  }

  pub approved-IsSound :
      (e : EventBase) (s : Leave)
      → IsSound year_of s
      → IsSound year_of (handle_workflow_approved year_of e s)
  unfolding handle_workflow_approved
  approved-IsSound e s h =
      Option_keeps (IsSound year_of) (leave_event e) (λ _. h)
        λ id _. apply_usage-IsSound id _ (status-IsSound id LeaveStatus.approved s h)

  pub rejected-IsSound :
      (e : EventBase) (s : Leave)
      → IsSound year_of s
      → IsSound year_of (handle_workflow_rejected e s)
  unfolding handle_workflow_rejected
  rejected-IsSound e s h =
      Option_keeps (IsSound year_of) (leave_event e) (λ _. h)
        λ id _. status-IsSound id LeaveStatus.rejected s h

  abbrev SoundAfter : Result Application × Leave → Type 0
  SoundAfter out = IsSound year_of out.1

  cancel_write-IsSound :
      (id : ℕ) (guard : LeaveStatus → Bool) (s : Leave)
      → IsSound year_of s
      → SoundAfter (cancel_write id guard s)
  unfolding cancel_write
  cancel_write-IsSound id guard s h =
      Option_keeps SoundAfter (update_if id _ _ s.applications) (λ _. h)
        λ r written.
          let (v, found, pass, same) = update_if-some id _ _ s.applications written in
          subst
            (λ (q : Application × Store Application).
              IsSound year_of (record s { applications = q.1 }))
            (sym same) (status-IsSound id LeaveStatus.cancelled s h)

  pub cancel_application-IsSound :
      (id actor : ℕ) (capabilities : List ℕ) (s : Leave)
      → IsSound year_of s
      → SoundAfter (cancel_application year_of id actor capabilities s)
  unfolding cancel_application
  cancel_application-IsSound id actor capabilities s h =
      Option_keeps SoundAfter (find id s.applications) (λ _. h)
        λ a _.
          if_keeps SoundAfter (is_pending a.status)
            (λ _.
              if_keeps SoundAfter
                (not (a.staff_id == actor) && not (includes leave_cancel_approved capabilities))
                (λ _. h) (λ _. cancel_write-IsSound id is_pending s h))
            (λ _.
              if_keeps SoundAfter (is_approved a.status)
                (λ _.
                  if_keeps SoundAfter (not (includes leave_cancel_approved capabilities)) (λ _. h)
                    (λ _.
                      let cancelled = cancel_write-IsSound id is_approved s h in
                      Result_keeps SoundAfter (cancel_write id is_approved s).0 (λ x _. cancelled)
                        λ q _. reverse_usage-IsSound id _ cancelled))
                (λ _. h))
