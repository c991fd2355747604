-- ===== src/Leave/Balance.antt =====
-- `LeaveBalanceService` (src/modules/hr/leave-balance.service.ts). A date is a number of days, and the year of
-- a date is a parameter; days used are signed, since the source only adds and subtracts them.
use bckashbackend.Common.{
  ℕ, Bool, true, false, not, ◌&&◌, Option, none, some, List, [], ◌∷◌, ◌==◌, if◌then◌else◌, Result,
  ok, err, not_found,
}
use bckashbackend.Common.Int.{ℤ, pos, ◌+ℤ◌, ◌-ℤ◌}
use bckashbackend.Common.Store.{Store, update_if}

pub data LeaveStatus : Type 0 where
  pending_review pending_approval approved rejected returned_to_maker cancelled : LeaveStatus

pub data ChainAction : Type 0 where
  approve_staff approve_manager approve_admin : ChainAction

pub record Application : Type 0 where
  pub staff_id : ℕ
  pub leave_type_id : ℕ
  pub start_date : ℕ
  pub end_date : ℕ
  pub number_of_days : ℕ
  pub reason : ℕ
  pub status : LeaveStatus
  pub applied_at : ℕ
  pub balance_applied : Bool
  pub chain_action : ChainAction
  pub balance_shortfall_flagged : Bool
  pub balance_shortfall_days : Option ℤ

-- The staff member, the leave type and the year of a balance.
pub record Key : Type 0 where
  pub staff_id : ℕ
  pub leave_type_id : ℕ
  pub year : ℕ

abbrev pub same_key : Key → Key → Bool
same_key k k' =
    k.staff_id == k'.staff_id && k.leave_type_id == k'.leave_type_id && k.year == k'.year

pub record LeaveBalance : Type 0 where
  pub key : Key
  pub allocated_days : ℕ
  pub used_days : ℤ

pub record Leave : Type 0 where
  pub applications : Store Application
  pub balances : List LeaveBalance

abbrev pub key_of : (year_of : ℕ → ℕ) → Application → Key
key_of year_of a = record {
  staff_id = a.staff_id;
  leave_type_id = a.leave_type_id;
  year = year_of a.start_date;
}

-- `findOne({ staffId, leaveTypeId, year })`
unfoldable pub find_balance : Key → List LeaveBalance → Option LeaveBalance
find_balance k [] = none
find_balance k (b ∷ bs) = let rest = find_balance k bs in if same_key b.key k then some b else rest

-- `findOneAndUpdate` with `$inc` on the days used; a missing row is left missing.
unfoldable pub inc_used : Key → (ℤ → ℤ) → List LeaveBalance → List LeaveBalance
inc_used k f [] = []
inc_used k f (b ∷ bs) =
    let rest = inc_used k f bs in
    if same_key b.key k then record b { used_days = f b.used_days } ∷ bs else b ∷ rest

-- `getOrCreateBalance`, given the annual allocation of each leave type.
unfoldable pub get_or_create_balance :
    (allocation : ℕ → Option ℕ) → Key → List LeaveBalance → Result LeaveBalance × List LeaveBalance
unfolding find_balance
get_or_create_balance allocation k bs = elim (find_balance k bs) [
  | some b ↦ (ok b, bs)
  | none ↦ elim (allocation k.leave_type_id) [
    | none ↦ (err not_found, bs)
    | some days ↦
        let b : LeaveBalance = record { key = k; allocated_days = days; used_days = pos 0 } in
        (ok b, b ∷ bs)
  ]
]

-- `remainingDays` of `getSummary`
abbrev pub remaining_days : LeaveBalance → ℤ
remaining_days b = pos b.allocated_days -ℤ b.used_days

module _ (year_of : ℕ → ℕ) where
  -- `applyUsage`: the flag is tested and set in one write, and the days are added in the same transaction.
  unfoldable pub apply_usage : ℕ → Leave → Bool × Leave
  unfolding inc_used
  apply_usage id s =
      elim (update_if id (λ (a : Application). not a.balance_applied)
        (λ (a : Application). record a { balance_applied = true }) s.applications) [
          | none ↦ (false, s)
          | some (a, applications) ↦ (
            true,
            record {
              applications = applications;
              balances = inc_used (key_of year_of a) (λ n. n +ℤ pos a.number_of_days) s.balances;
            },
          )
        ]

  -- `reverseUsage`
  unfoldable pub reverse_usage : ℕ → Leave → Bool × Leave
  unfolding inc_used
  reverse_usage id s =
      elim (update_if id (λ (a : Application). a.balance_applied)
        (λ (a : Application). record a { balance_applied = false }) s.applications) [
          | none ↦ (false, s)
          | some (a, applications) ↦ (
            true,
            record {
              applications = applications;
              balances = inc_used (key_of year_of a) (λ n. n -ℤ pos a.number_of_days) s.balances;
            },
          )
        ]
