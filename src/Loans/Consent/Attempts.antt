-- ===== src/Loans/Consent/Attempts.antt =====
-- Any number of attempts at one consent challenge (src/modules/loans/loan-consent.service.ts).
use bckashbackend.Common.{
  ℕ, ◌+◌, ◌<◌, ◌≡◌, refl, not, ◌&&◌, none, List, [], ◌∷◌, ◌==◌, ltb, if◌then◌else◌, Result, ok, err,
  arith,
}
use bckashbackend.Loans.Consent.{Challenge, attempt, attempt_check, max_attempts}

module _ (hash : ℕ → ℕ) where
  -- The challenge after attempts in order, each a code and a time.
  abbrev pub after : List (ℕ × ℕ) → Challenge → Challenge
  after [] c = c
  after ((code, now) ∷ rest) c = after rest (attempt hash code now c).1

  -- The attempts with a wrong code before the challenge expires, and those that are accepted.
  abbrev pub wrong : List (ℕ × ℕ) → Challenge → ℕ
  wrong [] c = 0
  wrong ((code, now) ∷ rest) c =
      (if not (ltb c.expires_at now) && not (c.code_hash == hash code) then 1 else 0)
      + wrong rest (attempt hash code now c).1

  abbrev accepts : Result ℕ → ℕ
  accepts (ok n) = 1
  accepts (err x) = 0

  abbrev pub accepted : List (ℕ × ℕ) → Challenge → ℕ
  accepted [] c = 0
  accepted ((code, now) ∷ rest) c =
      accepts (attempt hash code now c).0 + accepted rest (attempt hash code now c).1

  -- Of a challenge that may still be used, after w wrong attempts and s accepted ones.
  abbrev Counts : ℕ → ℕ → Challenge → Type 0
  Counts w s c =
      c.consumed_at ≡ none → c.attempt_count < max_attempts → (w ≡ c.attempt_count) × (s ≡ 0)

  attempt-Counts :
      (w s code now : ℕ) (c : Challenge)
      → Counts w s c
      → Counts
          (w + (if not (ltb c.expires_at now) && not (c.code_hash == hash code) then 1 else 0))
          (s + accepts (attempt hash code now c).0)
          (attempt hash code now c).1
  unfolding attempt attempt_check
  attempt-Counts w s code now c h = ground arith

  after-Counts :
      (tries : List (ℕ × ℕ)) (w s : ℕ) (c : Challenge)
      → Counts w s c
      → Counts (w + wrong tries c) (s + accepted tries c) (after tries c)
  after-Counts [] w s c h = λ u k. let (a, b) = h u k in (omega arith, omega arith)
  after-Counts ((code, now) ∷ rest) w s c h = λ u k.
      let (a, b) =
        after-Counts rest _ _ (attempt hash code now c).1 (attempt-Counts w s code now c h) u k in
      (omega arith, omega arith)

  attempt_open :
      (code now customer : ℕ) (c : Challenge)
      → (attempt hash code now c).0 ≡ ok customer
      → (c.consumed_at ≡ none) × (c.attempt_count < max_attempts)
  unfolding attempt attempt_check
  attempt_open code now customer c e = ground arith

  -- Of a challenge as it was issued, an attempt that is accepted, after any others, comes after no
  -- accepted one and after at most four wrong ones made before it expires: a code is used once, and guessed five times at most.
  pub attempt_limits :
      (tries : List (ℕ × ℕ)) (code now customer : ℕ) (c : Challenge)
      → c.attempt_count ≡ 0
      → (attempt hash code now (after tries c)).0 ≡ ok customer
      → (wrong tries c < max_attempts) × (accepted tries c ≡ 0)
  attempt_limits tries code now customer c fresh e =
      let (unused, few) = attempt_open code now customer (after tries c) e in
      let (w, s) = after-Counts tries 0 0 c (λ _ _. (omega arith, refl)) unused few in
      (omega arith, omega arith)
