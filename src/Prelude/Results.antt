-- ===== src/Prelude/Results.antt =====
-- Go's `error` results: the errors that the modelled packages return, and their chaining.
use Prim.Native.String.{String}
use mathlib.Core.Path.{◌≡◌, refl}
use mathlib.Core.Logic.{◌⊎◌, inl, inr}
use native.Mathlib.Omega.{arith}

-- `fuel_spent` is of the model alone.
pub data Error : Type 0 where
  run_not_found task_not_found workflow_not_found task_lease_lost : Error
  unknown_step : String → Error
  unknown_task : String → Error
  unsupported_event : String → Error
  marshal_payload decode_payload invalid_json : Error
  version_conflict : String → Error
  duplicate_key : Error
  missing_run : Error
  already_registered : String → Error
  context_done : Error
  fuel_spent : Error
  name_required no_steps step_id_required : Error
  missing_activity non_positive_delay depends_on_itself cycle_at : String → Error
  unsupported_kind unknown_dependency : String → String → Error
  no_dsn statement_refused : Error
  unsupported_driver : String → Error

pub data Result {ℓ} (A : Type ℓ) : Type ℓ where
  ok : A → Result A
  err : Error → Result A

infixl 5 ◌>>=◌
-- Opened wherever it stands, so that a chain computes as far as its parts do.
abbrev pub ◌>>=◌ {ℓ κ} : {X : Type ℓ} {Y : Type κ} → Result X → (X → Result Y) → Result Y
err failure >>= next = err failure
ok x >>= next = next x

-- The two steps of a chain that succeeds.
pub >>=-eq-ok {ℓ κ} :
    {X : Type ℓ} {Y : Type κ} (step : Result X) (next : X → Result Y) {y : Y}
    → (step >>= next) ≡ ok y
    → (x : X) × (step ≡ ok x) × (next x ≡ ok y)
>>=-eq-ok (err failure) next h = ground arith
>>=-eq-ok (ok x) next h = (x, refl, h)

pub Result-cases {ℓ} :
    {A : Type ℓ} (m : Result A) → ((a : A) × (m ≡ ok a)) ⊎ ((e : Error) × (m ≡ err e))
Result-cases (ok a) = inl (a, refl)
Result-cases (err e) = inr (e, refl)

ok_part {ℓ} : {A : Type ℓ} → A → Result A → A
ok_part d (ok a) = a
ok_part d (err e) = d

pub ok-injective {ℓ} : {A : Type ℓ} {a b : A} → ok a ≡ ok b → a ≡ b
unfolding ok_part
ok-injective {a} h = λ i. ok_part a (h i)

-- What is known of a result, whether it is a value or an error.
abbrev pub Settles {ℓ κ} : {A : Type ℓ} → (A → Type κ) → (Error → Type κ) → Result A → Type κ
Settles P E (ok a) = P a
Settles P E (err e) = E e

pub Settles-bind {ℓ κ ν} :
    {A : Type ℓ} {B : Type ν} (P : A → Type κ) (Q : B → Type κ) (E : Error → Type κ) (m : Result A)
    (f : A → Result B)
    → Settles P E m
    → ((a : A) → P a → Settles Q E (f a))
    → Settles Q E (m >>= f)
Settles-bind P Q E (ok a) f h k = k a h
Settles-bind P Q E (err e) f h k = h

pub Settles-map {ℓ κ} :
    {A : Type ℓ} (P Q : A → Type κ) (E : Error → Type κ) (m : Result A)
    → Settles P E m
    → ((a : A) → P a → Q a)
    → Settles Q E m
Settles-map P Q E (ok a) h k = k a h
Settles-map P Q E (err e) h k = h

pub Settles-errors {ℓ κ} :
    {A : Type ℓ} (P : A → Type κ) (E F : Error → Type κ) (m : Result A)
    → Settles P E m
    → ((e : Error) → E e → F e)
    → Settles P F m
Settles-errors P E F (ok a) h k = h
Settles-errors P E F (err e) h k = k e h
