-- ===== src/Loans/Fees/Register.antt =====
-- The payments as a register of one entry per customer, product and fee
-- (src/modules/loans/fee-payments.service.ts): a recording replaces the entry of its key.
use bckashbackend.Common.{
  ℕ, ◌≡◌, refl, ap, sym, ◌∙◌, Bool, true, false, ◌&&◌, Option, none, some, List, [], ◌∷◌,
  if◌then◌else◌, is_some, Bool-cases, Option-cases, inl, inr, arith,
}
use bckashbackend.Common.Store.{Store}
use bckashbackend.Loans.Fees.{
  FeePayment, is_paid, is_settled, is_payment_of, upsert_payment, Till, record_payment, has_settled,
}

-- The first payment of a key.
unfoldable pub payment_of : (customer product fee : ℕ) → Store FeePayment → Option FeePayment
payment_of c p f [] = none
payment_of c p f ((i, w) ∷ d) =
    let rest = payment_of c p f d in if is_payment_of c p f w then some w else rest

abbrev pub key_payment : FeePayment → Store FeePayment → Option FeePayment
key_payment q = payment_of q.customer_id q.product_id q.fee_definition_id

abbrev pub same_payment_key : FeePayment → FeePayment → Bool
same_payment_key q = is_payment_of q.customer_id q.product_id q.fee_definition_id

-- No key has two payments.
abbrev pub OnePerKey : Store FeePayment → Type 0
OnePerKey [] = Unit
OnePerKey ((i, w) ∷ d) = (key_payment w d ≡ none) × OnePerKey d

-- Two payments of one key are payments of the same keys.
same_test :
    (q w : FeePayment) (c p f : ℕ)
    → same_payment_key q w ≡ true
    → is_payment_of c p f w ≡ is_payment_of c p f q
same_test q w c p f h = ground arith

same_entry :
    (q w : FeePayment) (d : Store FeePayment)
    → same_payment_key q w ≡ true
    → key_payment w d ≡ key_payment q d
unfolding payment_of
same_entry q w d h = ground arith

other_key :
    (q w : FeePayment) (c p f : ℕ)
    → same_payment_key q w ≡ false
    → is_payment_of c p f w ≡ true
    → is_payment_of c p f q ≡ false
other_key q w c p f apart there = ground arith

-- A recording changes the entry of its own key, and no other.
pub payment_of-upsert :
    (id : ℕ) (q : FeePayment) (d : Store FeePayment) (c p f : ℕ)
    → payment_of c p f (upsert_payment id q d).1
      ≡ (if is_payment_of c p f q then some q else payment_of c p f d)
unfolding payment_of upsert_payment
payment_of-upsert id q [] c p f = refl
payment_of-upsert id q ((i, w) ∷ d) c p f = elim (Bool-cases (same_payment_key q w)) [
  | inl same ↦ elim (Bool-cases (is_payment_of c p f q)) [
    | inl mine ↦ rw same (rw mine refl)
    | inr other ↦ rw same (rw other (rw (same_test q w c p f same ∙ other) refl))
  ]
  | inr apart ↦ elim (Bool-cases (is_payment_of c p f w)) [
    | inl there ↦
        let other : is_payment_of c p f q ≡ false = other_key q w c p f apart there in
        rw apart (rw there (rw other refl))
    | inr elsewhere ↦ rw apart (rw elsewhere (payment_of-upsert id q d c p f))
  ]
]

upsert-OnePerKey :
    (id : ℕ) (q : FeePayment) (d : Store FeePayment)
    → OnePerKey d
    → OnePerKey (upsert_payment id q d).1
unfolding payment_of upsert_payment
upsert-OnePerKey id q [] u = (refl, tt)
upsert-OnePerKey id q ((i, w) ∷ d) u = elim (Bool-cases (same_payment_key q w)) [
  | inl same ↦ rw same (sym (same_entry q w d same) ∙ u.0, u.1)
  | inr apart ↦
      let away : same_payment_key w q ≡ false = ground arith in
      let kept = payment_of-upsert id q d w.customer_id w.product_id w.fee_definition_id in
      rw apart (rw away at kept ∙ u.0, upsert-OnePerKey id q d u.1)
]

-- Is the payment of a key, if any, PAID or WAIVED?
abbrev pub settled : Option FeePayment → Bool
settled none = false
settled (some q) = is_settled q.status

no_other :
    (c p f : ℕ) (d : Store FeePayment) → payment_of c p f d ≡ none → has_settled c p f d ≡ false
unfolding payment_of has_settled
no_other c p f [] h = refl
no_other c p f ((i, w) ∷ d) h = elim (Bool-cases (is_payment_of c p f w)) [
  | inl there ↦ let no : some w ≡ none = rw there at h in cc
  | inr elsewhere ↦ rw elsewhere (no_other c p f d (rw elsewhere at h))
]

entry_of :
    (c p f : ℕ) (w : FeePayment) (d : Store FeePayment)
    → is_payment_of c p f w ≡ true
    → payment_of c p f d ≡ key_payment w d
unfolding payment_of
entry_of c p f w d h = ground arith

-- With one payment per key, a fee is settled as its payment says.
has_settled-payment_of :
    (c p f : ℕ) (d : Store FeePayment)
    → OnePerKey d
    → has_settled c p f d ≡ settled (payment_of c p f d)
unfolding payment_of has_settled
has_settled-payment_of c p f [] u = refl
has_settled-payment_of c p f ((i, w) ∷ d) u = elim (Bool-cases (is_payment_of c p f w)) [
  | inr elsewhere ↦ rw elsewhere (has_settled-payment_of c p f d u.1)
  | inl there ↦ elim (Bool-cases (is_settled w.status)) [
    | inl done ↦ rw there (rw done refl)
    | inr owed ↦
        let absent : payment_of c p f d ≡ none = entry_of c p f w d there ∙ u.0 in
        rw there (rw owed (no_other c p f d absent))
  ]
]

settled_if :
    (c p f : ℕ) (q : FeePayment) (d : Store FeePayment) (mine : Bool)
    → OnePerKey d
    → settled (if mine then some q else payment_of c p f d)
      ≡ (if mine then is_settled q.status else has_settled c p f d)
settled_if c p f q d true u = refl
settled_if c p f q d false u = sym (has_settled-payment_of c p f d u)

-- The abstract register: which fees are settled, of which customer for which product.
abbrev pub Register : Type 0
Register = ℕ → ℕ → ℕ → Bool

abbrev pub register_of : Till → Register
register_of t c p f = has_settled c p f t.payments

module _ (branch_of : ℕ → Option ℕ) where
  -- A recording for a known customer replaces the entry of its key; for an unknown one, nothing.
  abbrev pub enter : FeePayment → Register → Register
  enter dto reg c p f =
      if is_some (branch_of dto.customer_id) && is_payment_of c p f dto
      then is_settled dto.status
      else reg c p f

  -- Recordings one after another, each with the id of a new document.
  abbrev pub record_all : List (ℕ × FeePayment) → Till → Till
  record_all [] t = t
  record_all ((id, dto) ∷ rest) t = record_all rest (record_payment branch_of id dto t).1

  abbrev pub enter_all : List (ℕ × FeePayment) → Register → Register
  enter_all [] reg = reg
  enter_all ((id, dto) ∷ rest) reg = enter_all rest (enter dto reg)

  record_payment-enter :
      (id : ℕ) (dto : FeePayment) (t : Till)
      → OnePerKey t.payments
      → OnePerKey (record_payment branch_of id dto t).1.payments
        × ((c p f : ℕ)
            → register_of (record_payment branch_of id dto t).1 c p f
              ≡ enter dto (register_of t) c p f)
  unfolding record_payment
  record_payment-enter id dto t u = elim (Option-cases (branch_of dto.customer_id)) [
    | inl unknown ↦ rw (unknown, record_payment) (u, λ c p f. refl)
    | inr (branch, known) ↦
        let q : FeePayment = record dto {
          branch_id = branch;
          account_paid_to = if is_paid dto.status then dto.account_paid_to else none;
          payment_reference = if is_paid dto.status then dto.payment_reference else none;
        } in
        let one = upsert-OnePerKey id q t.payments u in
        rw (known, record_payment)
          (
            one,
            λ c p f.
                has_settled-payment_of c p f (upsert_payment id q t.payments).1 one
                ∙ ap settled (payment_of-upsert id q t.payments c p f)
                ∙ settled_if c p f q t.payments (is_payment_of c p f q) u,
          )
  ]

  enter_same :
      (dto : FeePayment) (reg reg' : Register)
      → ((c p f : ℕ) → reg c p f ≡ reg' c p f)
      → (c p f : ℕ) → enter dto reg c p f ≡ enter dto reg' c p f
  enter_same dto reg reg' same c p f = rw (same c p f) refl

  enters :
      (dtos : List (ℕ × FeePayment)) (t : Till) (reg : Register)
      → OnePerKey t.payments
      → ((c p f : ℕ) → register_of t c p f ≡ reg c p f)
      → (c p f : ℕ) → register_of (record_all dtos t) c p f ≡ enter_all dtos reg c p f
  enters [] t reg u same c p f = same c p f
  enters ((id, dto) ∷ rest) t reg u same c p f =
      let (one, entered) = record_payment-enter id dto t u in
      enters rest (record_payment branch_of id dto t).1 (enter dto reg) one
        (λ c' p' f'. entered c' p' f' ∙ enter_same dto (register_of t) reg same c' p' f') c p f

  -- Any recordings, one after another, settle exactly the fees that the same entries settle in an abstract
  -- register, which replaces what it has under the customer, the product and the fee of each. The payments
  -- that there are have different keys.
  pub record_all-enter_all :
      (dtos : List (ℕ × FeePayment)) (t : Till) (customer product fee : ℕ)
      → OnePerKey t.payments
      → has_settled customer product fee (record_all dtos t).payments
        ≡ enter_all dtos (register_of t) customer product fee
  record_all-enter_all dtos t customer product fee u =
      enters dtos t (register_of t) u (λ c p f. refl) customer product fee
