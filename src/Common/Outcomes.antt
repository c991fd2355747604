-- ===== src/Common/Outcomes.antt =====
-- Outcomes of a service call: the value, or the exception that the source throws, by its HTTP class.
use mathlib.Core.Path.{◌≡◌, refl, ap}
use mathlib.Core.Logic.{◌⊎◌, inl, inr}
use mathlib.Core.Bool.{Bool, true, false}
use mathlib.Core.Option.{Option, none, some}

-- `internal` is a plain `Error`, which the framework turns into a 500.
pub data Failure : Type 0 where
  not_found bad_request conflict forbidden internal unauthorized gone : Failure

pub data Result {ℓ} (Value : Type ℓ) : Type ℓ where
  err : Failure → Result Value
  ok : Value → Result Value

-- The rest of a call, after a part of it that may throw.
infixl 5 ◌>>=◌
abbrev pub ◌>>=◌ {ℓ κ} :
    {Before : Type ℓ} {After : Type κ} → Result Before → (Before → Result After) → Result After
err failure >>= rest = err failure
ok value >>= rest = rest value

-- The same after a check that returns nothing.
infixl 5 ◌>>◌
abbrev pub ◌>>◌ {κ} : {After : Type κ} → Result (Unit {0}) → Result After → Result After
err failure >> rest = err failure
ok u >> rest = rest

-- `if (test) throw e`
abbrev pub throw_if : Bool → Failure → Result (Unit {0})
throw_if true e = err e
throw_if false e = ok tt

-- `if (!doc) throw e`
abbrev pub or_throw {ℓ} : {A : Type ℓ} → Option A → Failure → Result A
or_throw none e = err e
or_throw (some a) e = ok a

pub Result-cases {ℓ} :
    {A : Type ℓ} (m : Result A) → ((x : Failure) × (m ≡ err x)) ⊎ ((a : A) × (m ≡ ok a))
Result-cases (ok a) = inr (a, refl)
Result-cases (err x) = inl (x, refl)

-- The cases of a result, with their equations.
pub Result_keeps {ℓ κ μ} :
    {A : Type ℓ} {B : Type κ} (Q : B → Type μ) (m : Result A) {f : Failure → B} {g : A → B}
    → ((x : Failure) → m ≡ err x → Q (f x))
    → ((a : A) → m ≡ ok a → Q (g a))
    → Q (elim m [ err x ↦ f x | ok a ↦ g a ])
Result_keeps Q (ok a) h k = k a refl
Result_keeps Q (err x) h k = h x refl

pub ok-injective {ℓ} : {A : Type ℓ} {a b : A} → ok a ≡ ok b → a ≡ b
ok-injective {A = A} {a = a} e = ap {B = A} (λ m. elim m [ ok x ↦ x | err x ↦ a ]) e
