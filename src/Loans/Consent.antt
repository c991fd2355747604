-- ===== src/Loans/Consent.antt =====
-- `LoanConsentService` (src/modules/loans/loan-consent.service.ts): the code that a customer reads
-- back before a loan is raised. The hash is a parameter, and codes, hashes and times are numbers.
pub mod Attempts
use bckashbackend.Common.{
  ℕ, ◌+◌, ◌*◌, Option, none, some, List, ◌∷◌, ◌==◌, includes, leb, ltb, if◌then◌else◌, is_some,
  Result, ok, err, not_found, unauthorized, gone, ◌>>=◌, ◌>>◌, throw_if,
}
use bckashbackend.Common.Store.{Store, find, modify}

-- `TTL_SECONDS * 1000` and `MAX_ATTEMPTS`
abbrev pub ttl_milliseconds : ℕ
ttl_milliseconds = 600 * 1000

abbrev pub max_attempts : ℕ
max_attempts = 5

pub record Challenge : Type 0 where
  pub customer_id : ℕ
  pub requested_by : ℕ
  pub code_hash : ℕ
  pub attempt_count : ℕ
  pub expires_at : ℕ
  pub consumed_at : Option ℕ

-- `issueChallenge`, with the code that was drawn; `id` is the `_id` of the new document.
unfoldable pub issue_challenge :
    (hash : ℕ → ℕ) (customers : List ℕ) (id customer_id requested_by code now : ℕ)
    → Store Challenge
    → Result (ℕ × ℕ) × Store Challenge
issue_challenge hash customers id customer_id requested_by code now d =
    if includes customer_id customers
    then (
      ok (id, now + ttl_milliseconds),
      (
        id,
        record {
          customer_id = customer_id;
          requested_by = requested_by;
          code_hash = hash code;
          attempt_count = 0;
          expires_at = now + ttl_milliseconds;
          consumed_at = none;
        },
      )
          ∷ d,
    )
    else (err not_found, d)

-- The guards of `verifyChallenge` before the code is compared.
unfoldable pub attempt_check : (now : ℕ) → Challenge → Result (Unit {0})
attempt_check now c = do
  throw_if (is_some c.consumed_at) unauthorized
  throw_if (ltb c.expires_at now) gone
  throw_if (leb max_attempts c.attempt_count) gone

-- The rest, on the challenge that was read: the answer, and the document that is saved.
unfoldable pub attempt : (hash : ℕ → ℕ) (code now : ℕ) → Challenge → Result ℕ × Challenge
unfolding attempt_check
attempt hash code now c = elim (attempt_check now c) [
  | err x ↦ (err x, c)
  | ok _ ↦
      if c.code_hash == hash code
      then (ok c.customer_id, record c { consumed_at = some now })
      else (
        (if leb max_attempts (c.attempt_count + 1) then err gone else err unauthorized),
        record c { attempt_count = c.attempt_count + 1 },
      )
]

-- `verifyChallenge`
unfoldable pub verify_challenge :
    (hash : ℕ → ℕ) (id code now : ℕ) → Store Challenge → Result ℕ × Store Challenge
unfolding attempt
verify_challenge hash id code now d = elim (find id d) [
  | none ↦ (err unauthorized, d)
  | some c ↦ let (answer, saved) = attempt hash code now c in (answer, modify id (λ _. saved) d)
]
