-- ===== src/Branches/Funds.antt =====
-- `BranchFundBalanceService` (src/modules/branches/branch-fund-balance.service.ts): the balance that a
-- disbursement debits. A call is one atomic update, so calls at once are some sequence of calls.
use bckashbackend.Common.{
  ℕ, ◌+◌, ◌-◌, ◌≡◌, refl, Bool, true, false, none, some, List, [], ◌∷◌, ◌==◌, if◌then◌else◌, leb,
  or_else, Result, ok, err, conflict, arith, Bool-cases, Option-cases, inl, inr, ==→≡, ==→≢, leb→le,
}
use bckashbackend.Common.Store.{
  upsert, or_else-upsert, Store, find, modify, update_if, find-modify_self, find-modify_ne,
  update_if_passes, update_if_fails,
}

-- `availableAmount` by branch
abbrev pub Funds : Type 0
Funds = Store ℕ

-- `handleBranchCreated`: `$setOnInsert` writes nothing to a document that is there.
unfoldable pub handle_branch_created : ℕ → Funds → Funds
unfolding upsert
handle_branch_created branch = upsert branch 0 (λ n. n)

-- `$inc` counts from 0 in a document that is created.
unfoldable pub credit : ℕ → ℕ → Funds → Funds
unfolding upsert
credit branch amount = upsert branch amount (λ n. n + amount)

-- `debit`: the guard and the decrement are one update; InsufficientBranchFunds if nothing matches.
unfoldable pub debit : ℕ → ℕ → Funds → Result ℕ × Funds
debit branch amount d = elim (update_if branch (leb amount) (λ n. n - amount) d) [
  | none ↦ (err conflict, d)
  | some (n, d') ↦ (ok n, d')
]

-- Zero for a branch with no document.
unfoldable pub get_balance : ℕ → Funds → ℕ
get_balance branch d = or_else (find branch d) 0

pub data Move : Type 0 where
  created : ℕ → Move
  credits debits : (branch amount : ℕ) → Move

abbrev pub move : Move → Funds → Funds
move (created b) d = handle_branch_created b d
move (credits b n) d = credit b n d
move (debits b n) d = (debit b n d).1

-- What a move credits to a branch, and what it takes from it where the debit succeeds.
abbrev pub credited : ℕ → Move → ℕ
credited branch (created b) = 0
credited branch (credits b n) = if branch == b then n else 0
credited branch (debits b n) = 0

abbrev succeeded : Result ℕ → Bool
succeeded (ok n) = true
succeeded (err x) = false

abbrev pub debited : ℕ → Move → Funds → ℕ
debited branch (created b) d = 0
debited branch (credits b n) d = 0
debited branch (debits b n) d =
    if branch == b then (if succeeded (debit b n d).0 then n else 0) else 0

abbrev pub run : List Move → Funds → Funds
run [] d = d
run (m ∷ ms) d = run ms (move m d)

abbrev pub credited_in : ℕ → List Move → ℕ
credited_in branch [] = 0
credited_in branch (m ∷ ms) = credited branch m + credited_in branch ms

abbrev pub debited_in : ℕ → List Move → Funds → ℕ
debited_in branch [] d = 0
debited_in branch (m ∷ ms) d = debited branch m d + debited_in branch ms (move m d)

get_balance-upsert :
    (branch b initial : ℕ) (f : ℕ → ℕ) (d : Funds)
    → f 0 ≡ initial
    → get_balance branch (upsert b initial f d)
      ≡ (if branch == b then f (get_balance branch d) else get_balance branch d)
unfolding get_balance
get_balance-upsert branch b initial f d h = or_else-upsert branch b initial 0 f d h

-- Of a branch whose funds are there, a debit that the balance covers takes its amount and returns what
-- is left; one that it does not cover throws and changes nothing.
pub debit_found :
    (branch amount n : ℕ) (d : Funds)
    → find branch d ≡ some n
    → debit branch amount d ≡ (
        if leb amount n
        then (ok (n - amount), modify branch (λ m. m - amount) d)
        else (err conflict, d))
unfolding debit
debit_found branch amount n d there = elim (Bool-cases (leb amount n)) [
  | inl enough ↦
      rw enough
        (rw (update_if_passes branch (leb amount) (λ m. m - amount) d there enough, debit) refl)
  | inr short ↦
      rw short
        (rw (update_if_fails branch (leb amount) (λ m. m - amount) d there short, debit) refl)
]

debit_missing :
    (branch amount : ℕ) (d : Funds)
    → find branch d ≡ none
    → debit branch amount d ≡ (err conflict, d)
unfolding debit
debit_missing branch amount d missing = rw (missing, debit) refl

-- What a move leaves and takes of a branch, and what it had and was given.
abbrev pub Balanced : ℕ → Move → Funds → Type 0
Balanced branch m d =
    get_balance branch (move m d) + debited branch m d ≡ get_balance branch d + credited branch m

debit-Balanced_found :
    (branch b amount n : ℕ) (d : Funds) → find b d ≡ some n → Balanced branch (debits b amount) d
unfolding get_balance
debit-Balanced_found branch b amount n d there = elim (Bool-cases (leb amount n)) [
  | inr short ↦
      let failed : debit b amount d ≡ (err conflict, d) =
        rw short at (debit_found b amount n d there) in
      rw failed (ground arith)
  | inl enough ↦
      let taken : debit b amount d ≡ (ok (n - amount), modify b (λ m. m - amount) d) =
        rw enough at (debit_found b amount n d there) in
      elim (Bool-cases (branch == b)) [
        | inl same ↦
            let there' : find branch d ≡ some n = rw (==→≡ branch b same) there in
            let after : find branch (modify b (λ m. m - amount) d) ≡ some (n - amount) =
              rw (==→≡ branch b same) (find-modify_self b (λ m. m - amount) d there) in
            let bound = leb→le amount n enough in
            let left : get_balance branch (debit b amount d).1 ≡ n - amount =
              rw (taken, get_balance) (rw (after, get_balance) refl) in
            let before : get_balance branch d ≡ n = rw (there', get_balance) refl in
            rw taken (rw same (omega arith))
        | inr other ↦
            let after = find-modify_ne branch b (λ m. m - amount) d (==→≢ branch b other) in
            let left : get_balance branch (debit b amount d).1 ≡ get_balance branch d =
              rw (taken, get_balance) (rw (after, get_balance) refl) in
            rw other (omega arith)
      ]
]

pub move-Balanced : (branch : ℕ) (m : Move) (d : Funds) → Balanced branch m d
unfolding handle_branch_created credit
move-Balanced branch (created b) d =
    let same = get_balance-upsert branch b 0 (λ n. n) d refl in ground arith
move-Balanced branch (credits b amount) d =
    let added = get_balance-upsert branch b amount (λ n. n + amount) d (omega arith) in ground arith
move-Balanced branch (debits b amount) d = elim (Option-cases (find b d)) [
  | inl missing ↦ let failed = debit_missing b amount d missing in rw failed (ground arith)
  | inr (n, there) ↦ debit-Balanced_found branch b amount n d there
]

-- After any sequence of creations, credits and debits, of any branches, the balance of a branch and
-- what was taken from it by the debits that succeeded make up the balance it began with and what was
-- credited to it.
pub run_conserves :
    (branch : ℕ) (ms : List Move) (d : Funds)
    → get_balance branch (run ms d) + debited_in branch ms d
      ≡ get_balance branch d + credited_in branch ms
run_conserves branch [] d = refl
run_conserves branch (m ∷ ms) d =
    let here = move-Balanced branch m d in
    let rest = run_conserves branch ms (move m d) in omega (arith, here, rest)
