-- ===== src/Accounting/Journal.antt =====
-- Journal entries and their posting (src/modules/accounting/journal-balance.util.ts,
-- ledger-posting.service.ts). An amount is a number of kobo; a missing one is `none`.
use bckashbackend.Common.{
  ℕ, ◌+◌, Bool, true, false, not, ◌&&◌, Option, none, some, List, [], ◌∷◌, ◌==◌, if◌then◌else◌,
  is_some, or_else, Result, ok, err, bad_request, not_found, ◌>>=◌, ◌>>◌, throw_if,
}

pub record Line : Type 0 where
  pub account_id : ℕ
  pub debit_kobo : Option ℕ
  pub credit_kobo : Option ℕ

-- The prefix of a `sourceRef`: the source event, or the kind of penalty.
pub data Source : Type 0 where
  loan_disbursement fee_collection repayment penalty_charge liquidation_delay_charge : Source

abbrev source_code : Source → ℕ
source_code loan_disbursement = 0
source_code fee_collection = 1
source_code repayment = 2
source_code penalty_charge = 3
source_code liquidation_delay_charge = 4

-- `"{prefix}:{id}"`, as its two parts; an id holds no colon.
pub record SourceRef : Type 0 where
  pub source : Source
  pub source_entity_id : ℕ

abbrev pub same_ref : SourceRef → SourceRef → Bool
same_ref r q =
    source_code r.source == source_code q.source && r.source_entity_id == q.source_entity_id

pub record Entry : Type 0 where
  pub source_ref : SourceRef
  pub branch_id : ℕ
  pub date : ℕ
  pub lines : List Line

abbrev pub debit_of : Line → ℕ
debit_of l = or_else l.debit_kobo 0

abbrev pub credit_of : Line → ℕ
credit_of l = or_else l.credit_kobo 0

-- `hasDebit === hasCredit`
abbrev pub is_lopsided : Line → Bool
is_lopsided l = if is_some l.debit_kobo then is_some l.credit_kobo else not (is_some l.credit_kobo)

-- The loop over the lines, with the totals so far.
unfoldable pub tally : List Line → ℕ → ℕ → Result (ℕ × ℕ)
tally [] debit credit = ok (debit, credit)
tally (l ∷ ls) debit credit =
    let rest = tally ls (debit + debit_of l) (credit + credit_of l) in
    if is_lopsided l then err bad_request else rest

abbrev is_empty : List Line → Bool
is_empty [] = true
is_empty (l ∷ ls) = false

unfoldable pub assert_journal_lines_balanced : List Line → Result (Unit {0})
unfolding tally
assert_journal_lines_balanced lines = do
  throw_if (is_empty lines) bad_request
  totals ← tally lines 0 0
  throw_if (not (totals.0 == totals.1)) bad_request

-- `findOne({ sourceRef })`
unfoldable pub find_entry : SourceRef → List Entry → Option Entry
find_entry ref [] = none
find_entry ref (e ∷ es) =
    let rest = find_entry ref es in if same_ref ref e.source_ref then some e else rest

-- `postIdempotent`: a concurrent insert of the same reference wins, and its entry is the one returned,
-- as an existing one is.
unfoldable pub post_idempotent :
    SourceRef → ℕ → ℕ → List Line → List Entry → Result Entry × List Entry
unfolding assert_journal_lines_balanced find_entry
post_idempotent ref branch now lines journal = elim (assert_journal_lines_balanced lines) [
  | err x ↦ (err x, journal)
  | ok u ↦ elim (find_entry ref journal) [
    | some e ↦ (ok e, journal)
    | none ↦
        let e : Entry = record {
          source_ref = ref;
          branch_id = branch;
          date = now;
          lines = lines;
        } in
        (ok e, e ∷ journal)
  ]
]

pub data MappingKey : Type 0 where
  disbursement_debit disbursement_credit fee_collection_debit fee_collection_credit : MappingKey
  repayment_debit repayment_credit penalty_debit penalty_credit : MappingKey

-- `resolveMappedAccountId`: the account of a key, or NotFound.
abbrev pub Mapping : Type 0
Mapping = MappingKey → Option ℕ

unfoldable pub resolve_mapped_account_id : Mapping → MappingKey → Result ℕ
resolve_mapped_account_id mapping key = elim (mapping key) [ none ↦ err not_found | some a ↦ ok a ]

abbrev pub two_lines : ℕ → ℕ → ℕ → List Line
two_lines debit credit amount =
    record { account_id = debit; debit_kobo = some amount; credit_kobo = none }
    ∷ record { account_id = credit; debit_kobo = none; credit_kobo = some amount }
    ∷ []

-- The accounts of a source's debit and credit lines.
abbrev pub keys_of : Source → MappingKey × MappingKey
keys_of loan_disbursement = (disbursement_debit, disbursement_credit)
keys_of fee_collection = (fee_collection_debit, fee_collection_credit)
keys_of repayment = (repayment_debit, repayment_credit)
keys_of penalty_charge = (penalty_debit, penalty_credit)
keys_of liquidation_delay_charge = (penalty_debit, penalty_credit)

-- `postDisbursement`, `postFeeCollection`, `postRepayment` and `postPenalty`.
unfoldable pub post :
    Mapping → SourceRef → (branch now amount : ℕ) → List Entry → Result Entry × List Entry
unfolding resolve_mapped_account_id post_idempotent
post mapping ref branch now amount journal =
    elim (resolve_mapped_account_id mapping (keys_of ref.source).0) [
      | err x ↦ (err x, journal)
      | ok debit ↦ elim (resolve_mapped_account_id mapping (keys_of ref.source).1) [
        | err x ↦ (err x, journal)
        | ok credit ↦ post_idempotent ref branch now (two_lines debit credit amount) journal
      ]
    ]
