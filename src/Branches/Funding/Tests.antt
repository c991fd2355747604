-- ===== src/Branches/Funding/Tests.antt =====
-- A funding that is recorded, disputed, nudged and verified, beside one that is rejected
-- (src/modules/branches/branch-funding.service.ts).
use bckashbackend.Common.{◌+◌, ◌≡◌, refl, true, none, some, List, [], ◌∷◌, ok}
use bckashbackend.Branches.Funds.{get_balance, credit, debit}
use bckashbackend.Branches.Funding.{
  Treasury, Directory, RecordInput, Resolution, record_funding, verify_funding, reject_funding,
  nudge_manager, raise_dispute, resolve_dispute,
}
use bckashbackend.Branches.Funding.Verified.{
  FundingCall, pays, records, verifies, rejects, nudges, disputes, resolves, run_calls, paid_in,
  funded, run_calls-funded,
}

abbrev directory : Directory
directory = record {
  is_active = λ b. ok true;
  current_manager = λ b. some 40;
  bank_account = λ a. ok (record { branch_id = 3; active = true });
}

abbrev input : RecordInput
input = record {
  branch_id = 3;
  bank_account_id = 8;
  amount = 5000;
  funded_at = 10;
  reference = none;
}

abbrev treasury : Treasury
treasury = record { fundings = []; funds = (3, 100) ∷ []; events = [] }

-- The second verification of funding 1 is refused; the last payment is not covered.
abbrev calls : List FundingCall
calls =
    records directory input 2 1
    ∷ records directory input 2 9
    ∷ disputes directory 1 40 6 (ok 77) 11
    ∷ resolves 1 4 Resolution.dismissed 5 12
    ∷ nudges 1 2 13
    ∷ verifies directory 1 40 14
    ∷ verifies directory 1 40 15
    ∷ rejects directory 9 40 (some 6)
    ∷ pays 3 4000
    ∷ pays 3 4000
    ∷ []

funded_example :
    get_balance 3 (run_calls calls treasury).funds
      + paid_in 3 calls treasury
      + funded 3 treasury.fundings
    ≡ get_balance 3 treasury.funds + funded 3 (run_calls calls treasury).fundings
funded_example = run_calls-funded 3 calls treasury

left_example : get_balance 3 (run_calls calls treasury).funds ≡ 1100
unfolding record_funding raise_dispute resolve_dispute nudge_manager verify_funding reject_funding
    get_balance debit credit
left_example = refl
