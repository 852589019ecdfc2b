-- ===== src/Base/Raise.antt =====
-- The exceptions that the modelled code raises, as values.
use mathlib.Core.Path.{◌≡◌, refl}
use mathlib.Core.Logic.{◌⊎◌, inl, inr}
use mathlib.Core.Bool.{Bool, true, false}

pub data Error : Type 0 where
  -- alert_state.OrderingViolationError and a failed assert
  ordering_violation assertion_error : Error
  -- a ValidationError or ValueError of a message model or of a guard
  validation_error value_error : Error
  -- replay.ReplayContractError
  replay_contract_error : Error
  -- RuntimeError, LookupError and worker.SessionFailedError
  runtime_error lookup_error session_failed_error : Error
  -- the two errors of scoring_client.py
  permanent_scoring_error retryable_scoring_error : Error
  -- the errors of lab/store.py
  lab_revision_conflict_error lab_not_found_error lab_not_runnable_error run_not_found_error : Error
  invalid_run_state_error command_revision_conflict_error command_identity_conflict_error : Error
  -- a missing attribute, dictionary key or array column
  attribute_error key_error index_error : Error
  -- psycopg.errors.IntegrityError: a constraint of a table
  integrity_error : Error

-- what a call does: it raises, or returns a value
pub data Result {ℓ} (A : Type ℓ) : Type ℓ where
  err : Error → Result A
  ok : A → Result A

abbrev pub and_then {ℓ κ} : {A : Type ℓ} {B : Type κ} → (A → Result B) → Result A → Result B
and_then next (err raised) = err raised
and_then next (ok value) = next value

infixl 5 ◌>>=◌
abbrev pub ◌>>=◌ {ℓ κ} : {A : Type ℓ} {B : Type κ} → Result A → (A → Result B) → Result B
call >>= next = and_then next call

infixl 5 ◌>>◌
abbrev pub ◌>>◌ {κ} : {B : Type κ} → Result (Unit {0}) → Result B → Result B
check >> after = and_then (λ _. after) check

-- `if not condition: raise error`
abbrev pub require : Bool → Error → Result (Unit {0})
require condition error = elim condition [ false ↦ err error | true ↦ ok tt ]

-- the call returns: no exception is raised
abbrev pub returns {ℓ} : {A : Type ℓ} → Result A → Bool
returns (err raised) = false
returns (ok value) = true

pub Result-cases {ℓ} :
    {A : Type ℓ} (call : Result A) → ((a : A) × (call ≡ ok a)) ⊎ ((e : Error) × (call ≡ err e))
Result-cases (err raised) = inr (raised, refl)
Result-cases (ok value) = inl (value, refl)
