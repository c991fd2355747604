-- ===== src/Accounting/Tests.antt =====
-- Runs of the ledger (src/modules/accounting): a repayment posted twice, and its trial balance.
use bckashbackend.Common.{◌≡◌, refl, true, none, some, List, [], ◌∷◌, ok}
use bckashbackend.Accounting.Journal.{
  Line, SourceRef, repayment, Entry, two_lines, assert_journal_lines_balanced, post_idempotent,
}
use bckashbackend.Accounting.Reports.{LedgerAccount, asset, liability, get_trial_balance}
use bckashbackend.Accounting.Posting.{
  Posted, post_idempotent-Posted, post_idempotent_again, Reachable, start, next_lines,
}
use bckashbackend.Accounting.Trial.{get_trial_balance-balanced}

abbrev ref : SourceRef
ref = record { source = repayment; source_entity_id = 40 }

abbrev lines : List Line
lines = two_lines 1 2 4000

abbrev entry : Entry
entry = record { source_ref = ref; branch_id = 3; date = 500; lines = lines }

posted_once : (post_idempotent ref 3 500 lines []).1 ≡ entry ∷ []
unfolding post_idempotent
posted_once = refl

Posted-example : Posted ref lines [] (post_idempotent ref 3 500 lines [])
Posted-example = post_idempotent-Posted ref 3 500 lines []

two_sided : assert_journal_lines_balanced lines ≡ ok tt
unfolding assert_journal_lines_balanced
two_sided = refl

less_sided : assert_journal_lines_balanced (two_lines 1 2 900) ≡ ok tt
unfolding assert_journal_lines_balanced
less_sided = refl

again_example :
    (let first = post_idempotent ref 3 500 lines [] in
      post_idempotent ref 3 600 (two_lines 1 2 900) first.1 ≡ first)
again_example =
    post_idempotent_again ref 3 3 500 600 lines (two_lines 1 2 900) [] tt two_sided less_sided

journal_reached : Reachable (entry ∷ [])
unfolding post_idempotent
journal_reached = next_lines ref 3 500 lines start

abbrev chart : List LedgerAccount
chart =
    record { id = 1; code = 1000; account_type = asset }
    ∷ record { id = 2; code = 2000; account_type = liability }
    ∷ []

trial_example :
    ((get_trial_balance chart none (some 3) (entry ∷ [])).total_debit_kobo
      ≡ (get_trial_balance chart none (some 3) (entry ∷ [])).total_credit_kobo)
    × ((get_trial_balance chart none (some 3) (entry ∷ [])).balanced ≡ true)
trial_example =
    get_trial_balance-balanced chart none (some 3) (entry ∷ []) journal_reached (refl, (refl, tt))
      ((refl, (refl, tt)), tt)
