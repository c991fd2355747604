-- ===== src/Accounting/Trial.antt =====
-- The trial balance of a journal (src/modules/accounting/accounting.service.ts, `getTrialBalance`).
use bckashbackend.Common.{
  ℕ, ◌+◌, ◌≡◌, refl, sym, ◌∙◌, Bool, true, false, ◌&&◌, Option, List, [], ◌∷◌, ◌++◌, map, ◌==◌,
  if◌then◌else◌, any, select, sum_by, sum_by-append, includes, All, All-append, Bool-cases, inl,
  inr, arith, ==→≡, ≡→==,
}
use bckashbackend.Accounting.Journal.{Line, Entry, debit_of, credit_of}
use bckashbackend.Accounting.Reports.{
  LedgerAccount, in_scope, is_of, unwind, lines_of, sum_lines_for_account, get_trial_balance,
}
use bckashbackend.Accounting.Posting.{IsJournal, Reachable, Reachable-IsJournal}

abbrev ids : List LedgerAccount → List ℕ
ids = map (λ (a : LedgerAccount). a.id)

-- Account ids are distinct.
abbrev pub HasDistinctIds : List LedgerAccount → Type 0
HasDistinctIds [] = Unit
HasDistinctIds (a ∷ as') = (includes a.id (ids as') ≡ false) × HasDistinctIds as'

-- Every line is of an account of the chart.
abbrev pub HasLines : List LedgerAccount → List Line → Type 0
HasLines chart = All (λ (l : Line). includes l.account_id (ids chart) ≡ true)

abbrev pub Covers : List LedgerAccount → List Entry → Type 0
Covers chart = All (λ (e : Entry). HasLines chart e.lines)

module _ (f : Line → ℕ) where
  sum-select_append :
      (p : Line → Bool) (xs ys : List Line)
      → sum_by f (select p (xs ++ ys)) ≡ sum_by f (select p xs) + sum_by f (select p ys)
  sum-select_append p [] ys = omega arith
  sum-select_append p (x ∷ xs) ys =
      let ih = sum-select_append p xs ys in
      elim (Bool-cases (p x)) [ inl hit ↦ rw hit (omega arith) | inr miss ↦ rw miss ih ]

  sum-select_none :
      (p : Line → Bool) (xs : List Line) → any p xs ≡ false → sum_by f (select p xs) ≡ 0
  sum-select_none p [] h = refl
  sum-select_none p (x ∷ xs) h = ground (arith, sum-select_none p xs)

  -- An entry without a line of the account adds nothing, so the first match drops nothing.
  sum-lines_of :
      (account : ℕ) (as_of branch : Option ℕ) (journal : List Entry)
      → sum_by f (lines_of account as_of branch journal)
        ≡ sum_by f (select (is_of account) (unwind (select (in_scope as_of branch) journal)))
  unfolding lines_of
  sum-lines_of account as_of branch [] = refl
  sum-lines_of account as_of branch (e ∷ es) =
      let ih = sum-lines_of account as_of branch es in
      let rest = unwind (select (in_scope as_of branch) es) in
      let rest' =
        unwind
          (select (λ (e : Entry). any (is_of account) e.lines && in_scope as_of branch e) es) in
      elim (Bool-cases (in_scope as_of branch e)) [
        | inr out ↦ elim (Bool-cases (any (is_of account) e.lines)) [
          | inl has ↦ rw (out, lines_of) (rw (has, lines_of) ih)
          | inr lacks ↦ rw (out, lines_of) (rw (lacks, lines_of) ih)
        ]
        | inl inside ↦
            let whole = sum-select_append (is_of account) e.lines rest in
            let matched = sum-select_append (is_of account) e.lines rest' in
            elim (Bool-cases (any (is_of account) e.lines)) [
              | inl has ↦
                  rw (inside, lines_of) (rw (has, lines_of) (omega (arith, whole, matched, ih)))
              | inr lacks ↦
                  let nothing = sum-select_none (is_of account) e.lines lacks in
                  rw (inside, lines_of) (rw (lacks, lines_of) (omega (arith, whole, nothing, ih)))
            ]
      ]

  -- The sum of a line over the accounts of a chart that has it once.
  sum-one :
      (chart : List LedgerAccount) (l : Line)
      → HasDistinctIds chart
      → sum_by (λ (a : LedgerAccount). if l.account_id == a.id then f l else 0) chart
        ≡ (if includes l.account_id (ids chart) then f l else 0)
  sum-one [] l h = refl
  sum-one (a ∷ as') l h =
      let ih = sum-one as' l h.1 in
      elim (Bool-cases (l.account_id == a.id)) [
        | inl same ↦
            let once : includes l.account_id (ids as') ≡ false =
              rw (==→≡ l.account_id a.id same) h.0 in
            let none_left : sum_by (λ (a : LedgerAccount). if l.account_id == a.id then f l else 0)
                  as'
                ≡ 0 =
              rw once at ih in
            rw same (omega (arith, none_left))
        | inr other ↦ rw other (omega (arith, ih))
      ]

  sum-zero : (chart : List LedgerAccount) → sum_by (λ (a : LedgerAccount). 0) chart ≡ 0
  sum-zero [] = refl
  sum-zero (a ∷ as') = omega (arith, sum-zero as')

  -- A line more on top of the sums of its account.
  sum-add :
      (chart : List LedgerAccount) (l : Line) (ls : List Line)
      → sum_by (λ (a : LedgerAccount). sum_by f (select (is_of a.id) (l ∷ ls))) chart
        ≡ sum_by (λ (a : LedgerAccount). if l.account_id == a.id then f l else 0) chart
          + sum_by (λ (a : LedgerAccount). sum_by f (select (is_of a.id) ls)) chart
  sum-add [] l ls = refl
  sum-add (a ∷ as') l ls =
      let ih = sum-add as' l ls in
      elim (Bool-cases (l.account_id == a.id)) [
        | inl same ↦ rw same (omega arith)
        | inr other ↦ rw other (omega arith)
      ]

  -- Over a chart that has the account of every line, the sums by account are the sum of the lines.
  sum-chart :
      (chart : List LedgerAccount) (ls : List Line)
      → HasDistinctIds chart
      → HasLines chart ls
      → sum_by (λ (a : LedgerAccount). sum_by f (select (is_of a.id) ls)) chart ≡ sum_by f ls
  sum-chart chart [] d h = sum-zero chart
  sum-chart chart (l ∷ ls) d h =
      let one = sum-one chart l d in
      let one' : sum_by (λ (a : LedgerAccount). if l.account_id == a.id then f l else 0) chart
          ≡ f l =
        rw h.0 at one in
      let ih = sum-chart chart ls d h.1 in
      let add = sum-add chart l ls in omega (arith, one', ih, add)

  sum-cong :
      (chart : List LedgerAccount) (as_of branch : Option ℕ) (journal : List Entry)
      → sum_by (λ (a : LedgerAccount). sum_by f (lines_of a.id as_of branch journal)) chart
        ≡ sum_by
            (λ (a : LedgerAccount).
              sum_by f (select (is_of a.id) (unwind (select (in_scope as_of branch) journal))))
            chart
  sum-cong [] as_of branch journal = refl
  sum-cong (a ∷ as') as_of branch journal =
      let here = sum-lines_of a.id as_of branch journal in
      let ih = sum-cong as' as_of branch journal in omega (arith, here, ih)

-- The lines in scope: all are of the chart, and their debits and credits are equal.
lines-in_scope :
    (chart : List LedgerAccount) (as_of branch : Option ℕ) (journal : List Entry)
    → Covers chart journal
    → IsJournal journal
    → (let ls = unwind (select (in_scope as_of branch) journal) in
        HasLines chart ls × (sum_by debit_of ls ≡ sum_by credit_of ls))
lines-in_scope chart as_of branch [] c s = (tt, refl)
lines-in_scope chart as_of branch (e ∷ es) c s =
    let (balances, fresh, sound) = s in
    let (has, equal) = lines-in_scope chart as_of branch es c.1 sound in
    let rest = unwind (select (in_scope as_of branch) es) in
    let debits = sum_by-append debit_of e.lines rest in
    let credits = sum_by-append credit_of e.lines rest in
    let sides = balances.equal_sides in
    elim (Bool-cases (in_scope as_of branch e)) [
      | inl inside ↦ rw inside (
        All-append (λ (l : Line). includes l.account_id (ids chart) ≡ true) e.lines rest c.0 has,
        omega arith,
      )
      | inr out ↦ rw out (has, equal)
    ]

-- The trial balance of a journal that postings have built, up to any date and for any branch, is
-- balanced: over a chart of distinct accounts that has the account of every line, the debits and the
-- credits of the accounts add up to the same.
pub get_trial_balance-balanced :
    (chart : List LedgerAccount) (as_of branch : Option ℕ) (journal : List Entry)
    → Reachable journal
    → HasDistinctIds chart
    → Covers chart journal
    → ((get_trial_balance chart as_of branch journal).total_debit_kobo
        ≡ (get_trial_balance chart as_of branch journal).total_credit_kobo)
      × ((get_trial_balance chart as_of branch journal).balanced ≡ true)
unfolding get_trial_balance sum_lines_for_account
get_trial_balance-balanced chart as_of branch journal reached distinct covers =
    let ls = unwind (select (in_scope as_of branch) journal) in
    let (has, equal) =
      lines-in_scope chart as_of branch journal covers (Reachable-IsJournal reached) in
    let debits =
      sum-cong debit_of chart as_of branch journal ∙ sum-chart debit_of chart ls distinct has in
    let credits =
      sum-cong credit_of chart as_of branch journal ∙ sum-chart credit_of chart ls distinct has in
    let same = debits ∙ equal ∙ sym credits in (same, ≡→== _ _ same)
