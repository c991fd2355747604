-- ===== src/Branches/Taken.antt =====
-- What a debit that succeeds takes (src/modules/branches/branch-fund-balance.service.ts, `debit`).
use bckashbackend.Common.{ℕ, ◌+◌, ◌≡◌, [], ◌∷◌, ◌==◌, if◌then◌else◌, ok, arith}
use bckashbackend.Branches.Funds.{Funds, debits, debit, get_balance, run_conserves}

-- A debit that succeeds takes its amount from its own branch, and nothing from another.
pub debit_taken :
    (b amount : ℕ) (d : Funds) {n : ℕ}
    → (debit b amount d).0 ≡ ok n
    → (branch : ℕ)
    → get_balance branch (debit b amount d).1 + (if branch == b then amount else 0)
      ≡ get_balance branch d
debit_taken b amount d paid branch =
    let kept = run_conserves branch (debits b amount ∷ []) d in
    let kept' : get_balance branch (debit b amount d).1 + ((if branch == b then amount else 0) + 0)
        ≡ get_balance branch d + (0 + 0) =
      rw paid at kept in
    omega (arith, kept')
