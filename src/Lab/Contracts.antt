-- ===== src/Lab/Contracts.antt =====
-- The definition of a lab in src/industrial_reliability/lab/contracts.py, with the validators that the
-- construction of each model runs. A refusal is `validation_error`; that a position keeps 0 for its `y` is left out.
use industrial_reliability_p.Base.{
  ℕ, String, Bool, true, false, ◌&&◌, ◌||◌, not, Option, none, some, List, [], ◌∷◌, ◌++◌, all, any,
  length, leb, ◌==◌, if◌then◌else◌, Result, ok, err, validation_error, key_error, ◌>>=◌, ◌>>◌,
  require,
}
use text.Mathlib.Text.{◌==◌ as str_eq}
use industrial_reliability_p.Platform.{Uuid, Platform}
use industrial_reliability_p.Messages.Validate.{length_in}

pub data AssetType : Type 0 where
  compressor tank isolation_valve control_valve demand : AssetType

pub data PortName : Type 0 where
  port_a port_b port_out port_in : PortName

abbrev pub same_port_name : PortName → PortName → Bool
same_port_name port_a port_a = true
same_port_name port_b port_b = true
same_port_name port_out port_out = true
same_port_name port_in port_in = true
same_port_name p q = false

-- `VALID_PORTS_BY_ASSET_TYPE`
abbrev pub valid_ports : AssetType → List PortName
valid_ports compressor = port_out ∷ []
valid_ports tank = port_a ∷ port_b ∷ []
valid_ports isolation_valve = port_a ∷ port_b ∷ []
valid_ports control_valve = port_a ∷ port_b ∷ []
valid_ports demand = port_in ∷ []

pub record PortRef : Type 0 where
  pub asset_id : Uuid
  pub port : PortName

abbrev pub same_port : PortRef → PortRef → Bool
same_port p q = p.asset_id == q.asset_id && same_port_name p.port q.port

-- `float | bool`
pub data Parameter (F : Type 0) : Type 0 where
  number : F → Parameter F
  flag : Bool → Parameter F

abbrev pub Parameters : Type 0 → Type 0
Parameters F = List (String × Parameter F)

pub record Asset (F : Type 0) : Type 0 where
  pub asset_id : Uuid
  pub kind : AssetType
  pub position_m : F × F × F
  pub rotation_y_rad : F
  pub parameters : Parameters F

pub record Pipe (F : Type 0) : Type 0 where
  pub pipe_id : Uuid
  pub from_port : PortRef
  pub to_port : PortRef
  pub conductance_kg_s_pa : F
  pub waypoints_m : List (F × F × F)

pub data SensorKind : Type 0 where
  pressure flow : SensorKind

-- `PortRef | UUID`
pub data Target : Type 0 where
  at_port : PortRef → Target
  at_pipe : Uuid → Target

-- the target is of the kind's type
abbrev pub matches_kind : SensorKind → Target → Bool
matches_kind pressure (at_port p) = true
matches_kind flow (at_pipe p) = true
matches_kind kind target = false

pub record Sensor (F : Type 0) : Type 0 where
  pub sensor_id : Uuid
  pub kind : SensorKind
  pub target : Target
  pub noise_std : F
  pub alarm_low : Option F
  pub alarm_high : Option F

pub record LabDefinition (F : Type 0) : Type 0 where
  pub lab_id : Uuid
  pub revision : ℕ
  pub name : String
  pub assets : List (Asset F)
  pub pipes : List (Pipe F)
  pub sensors : List (Sensor F)
  pub scene_revision : String

module _ {F : Type 0} where
  -- `merged[name]`, of a dictionary given first by the parameters and then by the defaults
  unfoldable pub find_parameter : String → Parameters F → Result (Parameter F)
  find_parameter name [] = err key_error
  find_parameter name ((key, value) ∷ rest) =
      let found = find_parameter name rest in if str_eq key name then ok value else found

  abbrev pub has_key : String → Parameters F → Bool
  has_key name parameters = any (λ entry. str_eq entry.0 name) parameters

module _ (P : Platform) where
  open P use {Float, is_finite, le, lt, abs, neg, of_nat, decimal, add, sub}

  -- `DEFAULT_PARAMETERS_BY_ASSET_TYPE`
  abbrev pub default_parameters : AssetType → Parameters Float
  default_parameters kind =
      let initial : String × Parameter Float = ("initial_pressure_pa", number (of_nat 400000)) in
      elim kind [
        | tank ↦ ("volume_m3", number (decimal 5 1)) ∷ initial ∷ []
        | compressor ↦
            ("q_nom_kg_s", number (decimal 2 2))
            ∷ ("p_max_pa", number (of_nat 900000))
            ∷ ("load", number (of_nat 1))
            ∷ ("enabled", flag true)
            ∷ initial
            ∷ []
        | isolation_valve ↦
            ("conductance_kg_s_pa", number (decimal 2 7))
            ∷ ("opening", number (of_nat 1))
            ∷ initial
            ∷ []
        | control_valve ↦
            ("conductance_kg_s_pa", number (decimal 2 7))
            ∷ ("opening", number (of_nat 1))
            ∷ initial
            ∷ []
        | demand ↦
            ("conductance_kg_s_pa", number (decimal 1 8))
            ∷ ("load_factor", number (of_nat 1))
            ∷ initial
            ∷ []
      ]

  -- a Boolean is an integer in Python
  abbrev pub as_number : Parameter Float → Float
  as_number (number x) = x
  as_number (flag true) = of_nat 1
  as_number (flag false) = of_nat 0

  abbrev pub within_range : Float → Float → Float → Bool
  within_range lo hi x = le lo x && le x hi

  -- a parameter within its range
  abbrev pub check_range : Parameters Float → String → Float → Float → Result (Unit {0})
  check_range merged name lo hi = do
    value ← find_parameter name merged
    require (within_range lo hi (as_number value)) validation_error

  abbrev pub check_conductance : Parameters Float → Result (Unit {0})
  check_conductance merged = check_range merged "conductance_kg_s_pa" (decimal 1 12) (decimal 1 6)

  abbrev pub is_flag : Parameter Float → Bool
  is_flag (number x) = false
  is_flag (flag b) = true

  -- the branches of `validate_parameters` on the type
  unfoldable pub check_parameters : AssetType → Parameters Float → Result (Unit {0})
  unfolding find_parameter
  check_parameters tank merged = check_range merged "volume_m3" (decimal 1 2) (of_nat 10)
  check_parameters compressor merged = do
    check_range merged "q_nom_kg_s" (decimal 1 3) (decimal 2 1)
    check_range merged "p_max_pa" (of_nat 200000) (of_nat 1500000)
    check_range merged "load" (of_nat 0) (of_nat 1)
    enabled ← find_parameter "enabled" merged
    require (is_flag enabled) validation_error
  check_parameters isolation_valve merged = do
    check_conductance merged
    opening ← find_parameter "opening" merged
    let x : Float = as_number opening
    require (within_range (of_nat 0) (of_nat 0) x || within_range (of_nat 1) (of_nat 1) x)
        validation_error
  check_parameters control_valve merged = do
    check_conductance merged
    check_range merged "opening" (of_nat 0) (of_nat 1)
  check_parameters demand merged = do
    check_conductance merged
    check_range merged "load_factor" (of_nat 0) (of_nat 2)

  -- `Asset.validate_parameters`
  unfoldable pub validate_parameters : Asset Float → Result (Unit {0})
  unfolding check_parameters find_parameter
  validate_parameters asset = do
    let expected : Parameters Float = default_parameters asset.kind
    let merged : Parameters Float = asset.parameters ++ expected
    require (all (λ entry. has_key entry.0 expected) asset.parameters) validation_error
    check_range merged "initial_pressure_pa" (of_nat 101325) (of_nat 1500000)
    check_parameters asset.kind merged

  -- `Asset`, with the field validators of its position and rotation
  unfoldable pub validate_asset : Asset Float → Result (Unit {0})
  unfolding validate_parameters
  validate_asset asset = do
    let (x, y, z) = asset.position_m
    require (is_finite x && is_finite y && is_finite z) validation_error
    require (within_range (neg (of_nat 12)) (of_nat 12) x) validation_error
    require (le (abs y) (decimal 1 6)) validation_error
    require (within_range (neg (of_nat 8)) (of_nat 8) z) validation_error
    require (is_finite asset.rotation_y_rad) validation_error
    validate_parameters asset

  -- `Pipe`
  unfoldable pub validate_pipe : Pipe Float → Result (Unit {0})
  validate_pipe pipe = do
    require (within_range (decimal 1 12) (decimal 1 6) pipe.conductance_kg_s_pa) validation_error
    require (is_finite pipe.conductance_kg_s_pa) validation_error
    require (leb (length pipe.waypoints_m) 16) validation_error
    require (all (λ pt. is_finite pt.0 && is_finite pt.1 && is_finite pt.2) pipe.waypoints_m)
        validation_error
    require (not (same_port pipe.from_port pipe.to_port)) validation_error

  abbrev pub optional_finite : Option Float → Bool
  optional_finite none = true
  optional_finite (some x) = is_finite x

  abbrev pub alarms_apart : Float → Option Float → Option Float → Bool
  alarms_apart hysteresis (some low) (some high) =
      not (le (sub high hysteresis) (add low hysteresis))
  alarms_apart hysteresis low high = true

  abbrev pub noise_limit : SensorKind → Float
  noise_limit pressure = of_nat 10000
  noise_limit flow = decimal 1 2

  abbrev pub hysteresis : SensorKind → Float
  hysteresis pressure = of_nat 10000
  hysteresis flow = decimal 1 3

  -- `Sensor`
  unfoldable pub validate_sensor : Sensor Float → Result (Unit {0})
  validate_sensor sensor = do
    require (is_finite sensor.noise_std && not (lt sensor.noise_std (of_nat 0))) validation_error
    require (matches_kind sensor.kind sensor.target) validation_error
    require (within_range (of_nat 0) (noise_limit sensor.kind) sensor.noise_std) validation_error
    require (optional_finite sensor.alarm_low) validation_error
    require (optional_finite sensor.alarm_high) validation_error
    require (alarms_apart (hysteresis sensor.kind) sensor.alarm_low sensor.alarm_high)
        validation_error

  -- the field constraints of `LabDefinition`
  unfoldable pub validate_definition : LabDefinition Float → Result (Unit {0})
  validate_definition definition = do
    require (leb 1 definition.revision) validation_error
    require (length_in 1 80 definition.name) validation_error
