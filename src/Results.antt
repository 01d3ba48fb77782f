-- ===== src/Results.antt =====
-- Python's exceptions: a function that may raise returns a `Result`.
use healthgrid.Prelude.{String, Option, none, some, Bool, ◌≡◌, refl, if◌then◌else◌, ◌⊎◌, inl, inr}

-- The exceptions that the program raises or handles.
pub data Exn : Type 0 where
  connection_error : String → Exn
  query_validation : String → Exn
  validation_error : String → Exn
  permission_denied : Exn
  not_found : Exn
  integrity_error : Exn
  database_error : Exn
  multiple_objects : Exn
  key_error : Exn
  columns_without_names : Exn
  type_error : Exn
  value_error : Exn

-- What a call returned, or the exception that it raised.
pub data Result {ℓ} (A : Type ℓ) : Type ℓ where
  raise : Exn → Result A
  ok : A → Result A

-- `except db.ConnectionError as exc`: the text of such an exception
abbrev pub connection_message : Exn → Option String
connection_message (connection_error message) = some message
connection_message e = none

-- `except ValidationError as exc`: the message of such an exception
abbrev pub validation_message : Exn → Option String
validation_message (validation_error message) = some message
validation_message e = none

module _ {ℓ κ} {A : Type ℓ} {B : Type κ} where
  -- The rest of a function, after a call in it.
  abbrev pub and_then : (A → Result B) → Result A → Result B
  and_then rest (ok value) = rest value
  and_then rest (raise e) = raise e

  infixl 5 ◌>>=◌
  abbrev pub ◌>>=◌ : Result A → (A → Result B) → Result B
  step >>= rest = and_then rest step

-- `if not test: raise e`
abbrev pub require : Bool → Exn → Result (Unit {0})
require test e = if test then ok tt else raise e

pub Result-cases {ℓ} :
    {A : Type ℓ} (r : Result A) → ((a : A) × (r ≡ ok a)) ⊎ ((e : Exn) × (r ≡ raise e))
Result-cases (ok a) = inl (a, refl)
Result-cases (raise e) = inr (e, refl)

module _ {ℓ κ} {A : Type ℓ} {B : Type κ} (rest : A → Result B) (answer : B) where
  -- A chain that returned got a value from its first step.
  pub bind-eq-ok :
      (step : Result A)
      → (step >>= rest) ≡ ok answer
      → (value : A) × (step ≡ ok value) × (rest value ≡ ok answer)
  bind-eq-ok (raise e) returned = cc
  bind-eq-ok (ok value) returned = (value, refl, returned)

-- The property of what a call returned.
abbrev pub Post {ℓ} : {A : Type 0} → (A → Type ℓ) → Result A → Type ℓ
Post P (ok a) = P a
Post P (raise e) = Unit

pub bind-Post :
    {A B : Type 0} (Q : B → Type 0) (m : Result A) (f : A → Result B)
    → ((a : A) → m ≡ ok a → Post Q (f a))
    → Post Q (m >>= f)
bind-Post Q (raise e) f h = tt
bind-Post Q (ok a) f h = h a refl
