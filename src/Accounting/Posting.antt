-- ===== src/Accounting/Posting.antt =====
-- What a posting adds to the journal (src/modules/accounting/ledger-posting.service.ts).
use bckashbackend.Common.{
  ℕ, ◌+◌, ◌≡◌, refl, sym, ap, ◌∙◌, ◌⊎◌, inl, inr, true, false, none, some, List, [], ◌∷◌, Result,
  ok, err, All, sum_by, arith, Bool-cases, Option-cases, Result-cases, Option_keeps, Result_keeps,
  Failure,
}
use bckashbackend.Accounting.Journal.{
  Line, SourceRef, same_ref, Entry, debit_of, credit_of, is_lopsided, tally,
  assert_journal_lines_balanced, find_entry, post_idempotent, Mapping, post, keys_of, two_lines,
  resolve_mapped_account_id,
}

-- Each line sets one side, and the sides are equal in all.
pub record IsBalanced (lines : List Line) : Type 0 where
  pub one_sided : All (λ (l : Line). is_lopsided l ≡ false) lines
  pub equal_sides : sum_by debit_of lines ≡ sum_by credit_of lines

tally_totals :
    (lines : List Line) (debit credit : ℕ) {totals : ℕ × ℕ}
    → tally lines debit credit ≡ ok totals
    → All (λ (l : Line). is_lopsided l ≡ false) lines
      × (totals.0 ≡ debit + sum_by debit_of lines)
      × (totals.1 ≡ credit + sum_by credit_of lines)
unfolding tally
tally_totals [] debit credit {totals} e = (tt, ground arith, ground arith)
tally_totals (l ∷ ls) debit credit {totals} e = elim (Bool-cases (is_lopsided l)) [
  | inl bad ↦ let refused : err Failure.bad_request ≡ ok totals = rw (bad, tally) at e in cc
  | inr good ↦
      let (sides, d, c) =
        tally_totals ls (debit + debit_of l) (credit + credit_of l) (rw (good, tally) at e) in
      ((good, sides), omega arith, omega arith)
]

assert_journal_lines_balanced-IsBalanced :
    (lines : List Line) {u : Unit {0}}
    → assert_journal_lines_balanced lines ≡ ok u
    → IsBalanced lines
unfolding assert_journal_lines_balanced
assert_journal_lines_balanced-IsBalanced lines e = elim (Result-cases (tally lines 0 0)) [
  | inl (x, failed) ↦ ground arith
  | inr (totals, counted) ↦
      let (sides, d, c) = tally_totals lines 0 0 counted in
      let same : totals.0 ≡ totals.1 = ground arith in
      record { one_sided = sides; equal_sides = omega arith }
]

-- A posting that returns gives the entry that was there under its reference, in the same journal, or
-- adds one entry, of these lines, which balance; one that throws changes nothing.
abbrev pub Posted : SourceRef → List Line → List Entry → Result Entry × List Entry → Type 0
Posted ref lines journal (ok e, after) =
    ((find_entry ref journal ≡ some e) × (after ≡ journal))
    ⊎ ((find_entry ref journal ≡ none)
        × (after ≡ e ∷ journal)
        × (e.source_ref ≡ ref)
        × (e.lines ≡ lines)
        × IsBalanced lines)
Posted ref lines journal (err x, after) = after ≡ journal

-- `postIdempotent` either throws and changes nothing, or gives back the entry that was there under the
-- reference and leaves the journal, or, where there was none, adds exactly one entry of these lines under
-- the reference; each of its lines sets one side, and debits equal credits.
pub post_idempotent-Posted :
    (ref : SourceRef) (branch now : ℕ) (lines : List Line) (journal : List Entry)
    → Posted ref lines journal (post_idempotent ref branch now lines journal)
unfolding post_idempotent
post_idempotent-Posted ref branch now lines journal =
    let Q = Posted ref lines journal in
    Result_keeps Q (assert_journal_lines_balanced lines) (λ x _. refl)
      λ u passed.
        Option_keeps Q (find_entry ref journal)
          (λ fresh.
            inr (fresh, refl, refl, refl, assert_journal_lines_balanced-IsBalanced lines passed))
          (λ e there. inl (there, refl))

same_ref_refl : (ref : SourceRef) → same_ref ref ref ≡ true
same_ref_refl ref = ground arith

-- The journals that postings build from an empty one.
pub data Reachable : List Entry → Type 0 where
  start : Reachable []
  next :
      {journal : List Entry} (mapping : Mapping) (ref : SourceRef) (branch now amount : ℕ)
      → Reachable journal
      → Reachable (post mapping ref branch now amount journal).1
  next_lines :
      {journal : List Entry} (ref : SourceRef) (branch now : ℕ) (lines : List Line)
      → Reachable journal
      → Reachable (post_idempotent ref branch now lines journal).1

-- Every entry balances, and no two have one reference.
abbrev pub IsJournal : List Entry → Type 0
IsJournal [] = Unit
IsJournal (e ∷ es) = IsBalanced e.lines × (find_entry e.source_ref es ≡ none) × IsJournal es

post_idempotent-IsJournal :
    (ref : SourceRef) (branch now : ℕ) (lines : List Line) (journal : List Entry)
    → IsJournal journal
    → IsJournal (post_idempotent ref branch now lines journal).1
unfolding post_idempotent
post_idempotent-IsJournal ref branch now lines journal s =
    Result_keeps (λ (r : Result Entry × List Entry). IsJournal r.1)
      (assert_journal_lines_balanced lines) (λ x _. s)
      λ u passed.
        Option_keeps (λ (r : Result Entry × List Entry). IsJournal r.1) (find_entry ref journal)
          (λ fresh. (assert_journal_lines_balanced-IsBalanced lines passed, fresh, s))
          (λ e there. s)

post-IsJournal :
    (mapping : Mapping) (ref : SourceRef) (branch now amount : ℕ) (journal : List Entry)
    → IsJournal journal
    → IsJournal (post mapping ref branch now amount journal).1
unfolding post
post-IsJournal mapping ref branch now amount journal s =
    Result_keeps (λ (r : Result Entry × List Entry). IsJournal r.1)
      (resolve_mapped_account_id mapping (keys_of ref.source).0) (λ x _. s)
      λ debit _.
        Result_keeps (λ (r : Result Entry × List Entry). IsJournal r.1)
          (resolve_mapped_account_id mapping (keys_of ref.source).1) (λ x _. s)
          λ credit _.
            post_idempotent-IsJournal ref branch now (two_lines debit credit amount) journal s

-- In every journal that postings build, each entry balances and no two have one reference: nothing is
-- posted twice.
pub Reachable-IsJournal : {journal : List Entry} → Reachable journal → IsJournal journal
Reachable-IsJournal start = tt
Reachable-IsJournal (next {journal} mapping ref branch now amount r) =
    post-IsJournal mapping ref branch now amount journal (Reachable-IsJournal r)
Reachable-IsJournal (next_lines {journal} ref branch now lines r) =
    post_idempotent-IsJournal ref branch now lines journal (Reachable-IsJournal r)

find_entry_self :
    (ref : SourceRef) (branch now : ℕ) (lines : List Line) (es : List Entry)
    → find_entry ref
        (record { source_ref = ref; branch_id = branch; date = now; lines = lines } ∷ es)
      ≡ some (record { source_ref = ref; branch_id = branch; date = now; lines = lines })
unfolding find_entry
find_entry_self ref branch now lines es = rw (same_ref_refl ref, find_entry) refl

post_idempotent_there :
    (ref : SourceRef) (branch now : ℕ) (lines : List Line) (journal : List Entry) (e : Entry)
    (u : Unit {0})
    → assert_journal_lines_balanced lines ≡ ok u
    → find_entry ref journal ≡ some e
    → post_idempotent ref branch now lines journal ≡ (ok e, journal)
unfolding post_idempotent
post_idempotent_there ref branch now lines journal e u passed there =
    rw (passed, post_idempotent) (rw (there, post_idempotent) refl)

-- A second posting under a reference gives back the entry of the first and adds nothing, whatever the
-- amounts, the branch and the date of the second are; the lines of both pass the balance check.
pub post_idempotent_again :
    (ref : SourceRef) (branch branch' now now' : ℕ) (lines lines' : List Line)
    (journal : List Entry) (u : Unit {0})
    → assert_journal_lines_balanced lines ≡ ok u
    → assert_journal_lines_balanced lines' ≡ ok u
    → (let first = post_idempotent ref branch now lines journal in
        post_idempotent ref branch' now' lines' first.1 ≡ first)
unfolding post_idempotent
post_idempotent_again ref branch branch' now now' lines lines' journal u passed passed' =
    let again : List Entry → Result Entry × List Entry = post_idempotent ref branch' now' lines' in
    elim (Option-cases (find_entry ref journal)) [
      | inr (e, there) ↦
          let first = post_idempotent_there ref branch now lines journal e u passed there in
          ap (λ o. again o.1) first
          ∙ post_idempotent_there ref branch' now' lines' journal e u passed' there
          ∙ sym first
      | inl fresh ↦
          let e : Entry = record {
            source_ref = ref;
            branch_id = branch;
            date = now;
            lines = lines;
          } in
          let first : post_idempotent ref branch now lines journal ≡ (ok e, e ∷ journal) =
            rw (passed, post_idempotent) (rw (fresh, post_idempotent) refl) in
          ap (λ o. again o.1) first
          ∙ post_idempotent_there ref branch' now' lines' (e ∷ journal) e u passed'
              (find_entry_self ref branch now lines journal)
          ∙ sym first
    ]
