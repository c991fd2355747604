-- ===== src/Branches/Tests.antt =====
-- Runs of the branch funds (src/modules/branches/branch-fund-balance.service.ts).
use bckashbackend.Common.{◌+◌, ◌≡◌, List, [], ◌∷◌}
use bckashbackend.Branches.Funds.{
  Funds, Move, created, credits, debits, run, get_balance, credited_in, debited_in, run_conserves,
}

abbrev funds : Funds
funds = (1, 500) ∷ []

abbrev moves : List Move
moves = created 2 ∷ credits 2 300 ∷ debits 1 200 ∷ debits 1 400 ∷ []

conserves_example :
    get_balance 1 (run moves funds) + debited_in 1 moves funds
    ≡ get_balance 1 funds + credited_in 1 moves
conserves_example = run_conserves 1 moves funds
