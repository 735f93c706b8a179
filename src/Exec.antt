-- ===== src/Exec.antt =====
-- Methods that change a state and may raise. What was written before a raise stays written in the
-- state that comes back: whether it is kept is decided by the transaction around the call.
pub mod Hoare
pub mod Retry
use document_classifier.Prelude.{
  ℕ, ◌≡◌, refl, ◌⊎◌, inl, inr, Bool, true, false, Option, none, some, ◌||◌, if◌then◌else◌,
}

-- The exception classes that the code raises or tells apart. `lookup_error` is a `LookupError` that
-- is no `KeyError`; `http` is an `HTTPException` with its status code; `data_error` and
-- `integrity_error` are what the database driver raises for a value that does not fit its column
-- and for a broken constraint; `file_validation` is `FileValidationError`, a `ValueError`.
pub data Error : Type 0 where
  value_error lookup_error key_error index_error file_validation : Error
  integrity_error data_error runtime_error : Error
  os_error connection_error timeout_error other_error : Error
  invalid_token vault_unreachable startup_error not_implemented : Error
  http : ℕ → Error

-- How the start of a program ends: it goes on to its work, or has called `sys.exit`, or an exception has
-- ended it.
pub data Outcome : Type 0 where
  working : Outcome
  exited : ℕ → Outcome
  crashed : Error → Outcome

pub data Result {ℓ} (A : Type ℓ) : Type ℓ where
  ok : A → Result A
  err : Error → Result A

abbrev pub Exec {ℓ κ} : Type ℓ → Type κ → Type (ℓ ⊔ κ)
Exec S A = S → Result A × S

module _ {ℓ κ} {S : Type ℓ} {A : Type κ} where
  abbrev pub pure : A → Exec S A
  pure a s = (ok a, s)

  abbrev pub raise : Error → Exec S A
  raise e s = (err e, s)

  abbrev pub lift : Result A → Exec S A
  lift r s = (r, s)

  abbrev pub gets : (S → A) → Exec S A
  gets f s = (ok (f s), s)

  abbrev pub or_raise : Option A → Error → Exec S A
  or_raise none e = raise e
  or_raise (some a) e = pure a

infixl 5 ◌>>=◌ ◌>>◌
abbrev pub ◌>>=◌ {ℓ κ μ} :
    {S : Type ℓ} {A : Type κ} {B : Type μ} → Exec S A → (A → Exec S B) → Exec S B
◌>>=◌ m f s = let (r, s') = m s in elim r [ ok a ↦ f a s' | err e ↦ (err e, s') ]

abbrev pub ◌>>◌ {ℓ κ μ} : {S : Type ℓ} {A : Type κ} {B : Type μ} → Exec S A → Exec S B → Exec S B
m >> k = m >>= λ _. k

abbrev pub raise_if {ℓ} : {S : Type ℓ} → Bool → Error → Exec S (Unit {0})
raise_if true e s = (err e, s)
raise_if false e s = (ok tt, s)

abbrev pub modify {ℓ} : {S : Type ℓ} → (S → S) → Exec S (Unit {0})
modify f s = (ok tt, f s)

-- A result that is no error.
abbrev pub is_ok {ℓ} : {A : Type ℓ} → Result A → Bool
is_ok (ok _) = true
is_ok (err _) = false

pub Result-cases {ℓ} :
    {A : Type ℓ} (r : Result A) → ((a : A) × (r ≡ ok a)) ⊎ ((e : Error) × (r ≡ err e))
Result-cases (ok a) = inl (a, refl)
Result-cases (err e) = inr (e, refl)

pub is_ok-if {ℓ} :
    {A : Type ℓ} (b : Bool) (a : A) (r : Result A) → is_ok (if b then ok a else r) ≡ (b || is_ok r)
is_ok-if true a r = refl
is_ok-if false a r = refl
