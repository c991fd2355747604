-- ===== src/Leave/Usage.antt =====
-- The days used are those of the applications that are applied (src/modules/hr/leave-balance.service.ts).
pub mod Calls
pub mod Reach
use bckashbackend.Common.{
  ℕ, ◌+◌, ◌≡◌, refl, sym, ap, subst, ◌∙◌, Bool, true, false, not, ◌&&◌, Option, none, some, is_some,
  List, [], ◌∷◌, ◌==◌, sum_by, if◌then◌else◌, Bool-cases, inl, inr, arith, ==→≡, ==→≢, if_keeps,
}
use mathlib.Core.Option.{some-injective}
use bckashbackend.Common.Int.{ℤ, pos, ◌+ℤ◌, ◌-ℤ◌, int_laws}
use bckashbackend.Common.Store.{Store, find, modify, Each}
use bckashbackend.Leave.Balance.{
  Application, Key, same_key, LeaveBalance, Leave, key_of, find_balance, inc_used,
}

pub same_key-eq : (k k' : Key) → same_key k k' ≡ true → k ≡ k'
same_key-eq k k' h = ground arith

pub same_key_refl : (k : Key) → same_key k k ≡ true
same_key_refl k = ground arith

-- The days used of a row; none where there is no row.
abbrev pub days_of : Option LeaveBalance → ℤ
days_of none = pos 0
days_of (some b) = b.used_days

abbrev pub used : Key → List LeaveBalance → ℤ
used k bs = days_of (find_balance k bs)

abbrev pub has_row : Key → List LeaveBalance → Bool
has_row k bs = is_some (find_balance k bs)

pub used-inc_self :
    (k : Key) (f : ℤ → ℤ) (bs : List LeaveBalance)
    → has_row k bs ≡ true
    → used k (inc_used k f bs) ≡ f (used k bs)
unfolding find_balance inc_used
used-inc_self k f [] h = cc
used-inc_self k f (b ∷ bs) h = elim (Bool-cases (same_key b.key k)) [
  | inl same ↦ rw same (rw same refl)
  | inr other ↦ rw other (rw other (used-inc_self k f bs (rw other at h)))
]

pub used-inc_other :
    (k k' : Key) (f : ℤ → ℤ) (bs : List LeaveBalance)
    → same_key k k' ≡ false
    → used k' (inc_used k f bs) ≡ used k' bs
unfolding find_balance inc_used
used-inc_other k k' f [] h = refl
used-inc_other k k' f (b ∷ bs) h = elim (Bool-cases (same_key b.key k)) [
  | inl same ↦
      let apart : same_key b.key k' ≡ false = rw (same_key-eq b.key k same) h in
      rw same (rw apart refl)
  | inr other ↦ elim (Bool-cases (same_key b.key k')) [
    | inl same' ↦ rw other (rw same' refl)
    | inr other' ↦ rw other (rw other' (used-inc_other k k' f bs h))
  ]
]

pub inc_used-has_row :
    (k k' : Key) (f : ℤ → ℤ) (bs : List LeaveBalance)
    → has_row k' bs ≡ true
    → has_row k' (inc_used k f bs) ≡ true
unfolding find_balance inc_used
inc_used-has_row k k' f [] h = h
inc_used-has_row k k' f (b ∷ bs) h = elim (Bool-cases (same_key b.key k)) [
  | inl same ↦ rw same (elim (Bool-cases (same_key b.key k')) [
    | inl same' ↦ rw same' refl
    | inr other' ↦ rw other' (rw other' at h)
  ])
  | inr other ↦ rw other (elim (Bool-cases (same_key b.key k')) [
    | inl same' ↦ rw same' refl
    | inr other' ↦ rw other' (inc_used-has_row k k' f bs (rw other' at h))
  ])
]

module _ (year_of : ℕ → ℕ) where
  -- The days that an application takes of a balance while it is applied.
  abbrev pub takes : Key → Application → ℕ
  takes k a = if a.balance_applied && same_key (key_of year_of a) k then a.number_of_days else 0

  abbrev pub applied_days : Key → Store Application → ℕ
  applied_days k = sum_by (λ e. takes k e.1)

  -- Each balance has used the days of its applications that are applied, and each application has its
  -- balance.
  pub record IsSound (l : Leave) : Type 0 where
    pub usage : (k : Key) → used k l.balances ≡ pos (applied_days k l.applications)
    pub covered : Each (λ a. has_row (key_of year_of a) l.balances ≡ true) l.applications
