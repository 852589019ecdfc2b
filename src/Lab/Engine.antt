-- ===== src/Lab/Engine.antt =====
-- The commands of `SimulationEngine` of src/industrial_reliability/lab/engine.py.
pub mod Faults
use industrial_reliability_p.Base.{
  ℕ, String, Bool, true, false, ◌&&◌, not, Option, none, some, List, [], ◌∷◌, ◌++◌, ◌==◌, Dict, get,
  put, or_else, if◌then◌else◌, Result, ok, err, assertion_error, key_error, validation_error, any,
  require, ◌>>=◌, ◌>>◌,
}
use text.Mathlib.Text.{◌==◌ as str_eq}
use industrial_reliability_p.Platform.{Uuid, Platform}
use industrial_reliability_p.Lab.Contracts.{Parameter, number, flag, Parameters, as_number}
use industrial_reliability_p.Lab.Tables.{ActiveFault, ControlState}

-- `FaultKind`
abbrev pub is_fault_kind : String → Bool
is_fault_kind kind =
    any (λ name. str_eq kind name)
      ("LEAK" ∷ "VALVE_STUCK" ∷ "SENSOR_BIAS" ∷ "SENSOR_DROPOUT" ∷ "COMPRESSOR_UNAVAILABLE" ∷ [])

-- the parameters that a command may give, as JSON has them
pub record CommandParameters (F : Type 0) : Type 0 where
  pub load : Option (Parameter F)
  pub enabled : Option (Parameter F)
  pub opening : Option (Parameter F)
  pub load_factor : Option (Parameter F)
  pub kind : Option String
  pub port : Option String
  pub values : List (String × F)

-- `assert target_id is not None`
abbrev pub require_target : Option Uuid → Result Uuid
require_target none = err assertion_error
require_target (some target) = ok target

abbrev pub require_kind : Option String → Result String
require_kind none = err key_error
require_kind (some kind) = ok kind

module _ {F : Type 0} where
  -- `sp[name] = value`
  unfoldable pub set_parameter : String → Parameter F → Parameters F → Parameters F
  set_parameter name value [] = (name, value) ∷ []
  set_parameter name value ((key, v) ∷ rest) =
      let after = set_parameter name value rest in
      if str_eq key name then (name, value) ∷ rest else (key, v) ∷ after

  abbrev pub is_fault : Uuid → String → ActiveFault F → Bool
  is_fault target kind fault = fault.target_id == target && str_eq fault.kind kind

  -- the faults that are not of the kind on the target
  unfoldable pub clear_faults : Uuid → String → List (ActiveFault F) → List (ActiveFault F)
  clear_faults target kind [] = []
  clear_faults target kind (fault ∷ faults) =
      let rest = clear_faults target kind faults in
      if not (is_fault target kind fault) then fault ∷ rest else rest

  abbrev pub set_point : Uuid → String → Parameter F → ControlState F → ControlState F
  set_point target name value controls = record controls {
    setpoints =
        put target (set_parameter name value (or_else (get target controls.setpoints) []))
          controls.setpoints;
  }

  abbrev pub inject_fault : Uuid → String → CommandParameters F → ControlState F → ControlState F
  inject_fault target kind params controls = record controls {
    active_faults =
        clear_faults target kind controls.active_faults
        ++ record { target_id = target; kind = kind; port = params.port; values = params.values }
          ∷ [];
  }

  abbrev pub clear_fault : Uuid → String → ControlState F → ControlState F
  clear_fault target kind controls = record controls {
    active_faults = clear_faults target kind controls.active_faults;
  }

module _ (P : Platform) where
  open P use {Float, le, of_nat}

  -- `float(params.get(name, 1.0))`
  abbrev pub number_or_one : Option (Parameter Float) → Parameter Float
  number_or_one none = number (of_nat 1)
  number_or_one (some value) = number (as_number P value)

  -- `bool(params.get("enabled", True))`
  abbrev pub flag_or_true : Option (Parameter Float) → Parameter Float
  flag_or_true none = flag true
  flag_or_true (some (flag b)) = flag b
  flag_or_true (some (number x)) = flag (not (le x (of_nat 0) && le (of_nat 0) x))

  -- `execute_command_in_controls`
  unfoldable pub execute_command_in_controls :
      ControlState Float
      → String
      → Option Uuid
      → CommandParameters Float
      → Result (ControlState Float)
  unfolding set_parameter clear_faults
  execute_command_in_controls controls action target_id params =
      if str_eq action "SET_COMPRESSOR_LOAD"
      then (do
        target ← require_target target_id
        ok (set_point target "load" (number_or_one params.load) controls))
      else if str_eq action "SET_COMPRESSOR_ENABLED"
      then (do
        target ← require_target target_id
        ok (set_point target "enabled" (flag_or_true params.enabled) controls))
      else if str_eq action "SET_VALVE_OPENING"
      then (do
        target ← require_target target_id
        ok (set_point target "opening" (number_or_one params.opening) controls))
      else if str_eq action "SET_LOAD_FACTOR"
      then (do
        target ← require_target target_id
        ok (set_point target "load_factor" (number_or_one params.load_factor) controls))
      else if str_eq action "INJECT_FAULT"
      then (do
        target ← require_target target_id
        kind ← require_kind params.kind
        require (is_fault_kind kind) validation_error
        ok (inject_fault target kind params controls))
      else if str_eq action "CLEAR_FAULT"
      then (do
        target ← require_target target_id
        kind ← require_kind params.kind
        ok (clear_fault target kind controls))
      else ok controls
