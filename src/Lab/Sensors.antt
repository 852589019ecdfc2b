-- ===== src/Lab/Sensors.antt =====
-- `observe` of src/industrial_reliability/lab/simulation/sensors.py. Python's square root, logarithm and cosine, and
-- the two numbers that start a SHA-256 digest, are parameters.
pub mod Complete
use Prim.Native.String.{◌++◌ as ◌<>◌}
use industrial_reliability_p.Base.{
  ℕ, String, Bool, true, false, ◌&&◌, not, Option, none, some, List, [], ◌∷◌, ◌++◌, ◌==◌, or_else,
  if◌then◌else◌, Result, ok, err, assertion_error, ◌>>=◌,
}
use text.Mathlib.Text.{◌==◌ as str_eq}
use industrial_reliability_p.Platform.{Uuid, Platform}
use industrial_reliability_p.Lab.Contracts.{
  AssetType, isolation_valve, control_valve, PortName, port_a, port_b, port_out, port_in, PortRef,
  Asset, SensorKind, pressure, flow, Target, at_port, at_pipe, Sensor, LabDefinition,
}
use industrial_reliability_p.Lab.Tables.{PhysicalState, ActiveFault, ControlState}

-- the functions of Python's `math` and `hashlib` that the noise uses
pub record Mathematics (F : Type 0) : Type 0 where
  pub sqrt : F → F
  pub log : F → F
  pub cos : F → F
  pub pi : F
  -- the first two numbers of eight bytes in the SHA-256 digest of a text
  pub digest_words : String → ℕ × ℕ

pub data ObservationQuality : Type 0 where
  good missing invalid : ObservationQuality

pub record Observation (F : Type 0) : Type 0 where
  pub run_id : Uuid
  pub asset_id : Uuid
  pub sensor_id : Uuid
  pub tick : ℕ
  pub unit : String
  pub value : Option F
  pub quality : ObservationQuality
  pub profile_digest : String

-- what `observe` reads of a run
pub record ObservedRun (F : Type 0) : Type 0 where
  pub run_id : Uuid
  pub seed : ℕ
  pub definition : LabDefinition F
  pub profile_digest : String

abbrev pub port_text : PortName → String
port_text port_a = "A"
port_text port_b = "B"
port_text port_out = "OUT"
port_text port_in = "IN"

abbrev pub is_valve : AssetType → Bool
is_valve isolation_valve = true
is_valve control_valve = true
is_valve kind = false

abbrev pub unit_of : SensorKind → String
unit_of pressure = "Pa"
unit_of flow = "kg/s"

-- `sensor.target.asset_id if isinstance(sensor.target, PortRef) else sensor.target`
abbrev pub target_id_of : Target → Uuid
target_id_of (at_port ref) = ref.asset_id
target_id_of (at_pipe pipe_id) = pipe_id

module _ {F : Type 0} where
  unfoldable pub lookup : String → List (String × F) → Option F
  lookup key [] = none
  lookup key ((k, v) ∷ rest) = let found = lookup key rest in if str_eq k key then some v else found

  unfoldable pub find_asset : Uuid → List (Asset F) → Option (Asset F)
  find_asset asset_id [] = none
  find_asset asset_id (a ∷ assets) =
      let rest = find_asset asset_id assets in if a.asset_id == asset_id then some a else rest

  -- `sensor_faults.get(sensor_id)`: the last fault of the target
  unfoldable pub find_fault : Uuid → List (ActiveFault F) → Option (ActiveFault F)
  find_fault target [] = none
  find_fault target (fault ∷ faults) = elim (find_fault target faults) [
    | some later ↦ some later
    | none ↦ if fault.target_id == target then some fault else none
  ]

  abbrev pub has_kind : String → Option (ActiveFault F) → Bool
  has_kind kind none = false
  has_kind kind (some fault) = str_eq fault.kind kind

module _ (P : Platform) (M : Mathematics P.Float) where
  open P use {Float, is_finite, lt, add, mul, div, neg, of_nat, decimal, uuid_str, int_str}
  open M use {sqrt, log, cos, pi, digest_words}

  -- `compute_gaussian_noise`
  unfoldable pub compute_gaussian_noise : ℕ → Uuid → ℕ → Float
  compute_gaussian_noise seed sensor_id tick =
      let (n1, n2) =
        digest_words
          (int_str seed <> ":" <> uuid_str sensor_id <> ":" <> int_str tick <> ":noise") in
      let unit_interval : ℕ → Float =
        λ n. div (add (of_nat n) (decimal 5 1)) (of_nat 18446744073709551616) in
      mul (sqrt (mul (neg (of_nat 2)) (log (unit_interval n1))))
        (cos (mul (mul (of_nat 2) pi) (unit_interval n2)))

  abbrev pub node_key : Asset Float → PortRef → String
  node_key asset ref =
      if is_valve asset.kind
      then uuid_str ref.asset_id <> ":" <> port_text ref.port
      else uuid_str ref.asset_id

  -- what a sensor reads: nothing to observe, or a truth that may be missing
  pub data Reading : Type 0 where
    skipped : Reading
    read_truth : Option Float → Reading

  abbrev pub read_node : PhysicalState Float → PortRef → Option (Asset Float) → Reading
  read_node state ref none = skipped
  read_node state ref (some asset) = read_truth (lookup (node_key asset ref) state.pressures_pa)

  abbrev pub read_sensor :
      LabDefinition Float → PhysicalState Float → SensorKind → Target → Result Reading
  read_sensor definition state pressure (at_port ref) =
      ok (read_node state ref (find_asset ref.asset_id definition.assets))
  read_sensor definition state pressure (at_pipe pipe_id) = err assertion_error
  read_sensor definition state flow (at_port ref) = err assertion_error
  read_sensor definition state flow (at_pipe pipe_id) =
      ok (read_truth (some (or_else (lookup (uuid_str pipe_id) state.flows_kg_s) (of_nat 0))))

  abbrev pub observation_of :
      ObservedRun Float
      → PhysicalState Float
      → Sensor Float
      → Option Float
      → ObservationQuality
      → Observation Float
  observation_of run state sensor value quality = record {
    run_id = run.run_id;
    asset_id = target_id_of sensor.target;
    sensor_id = sensor.sensor_id;
    tick = state.tick;
    unit = unit_of sensor.kind;
    value = value;
    quality = quality;
    profile_digest = run.profile_digest;
  }

  abbrev pub is_pressure : SensorKind → Bool
  is_pressure pressure = true
  is_pressure flow = false

  abbrev pub bias_of : Option (ActiveFault Float) → Float
  bias_of none = of_nat 0
  bias_of (some fault) = or_else (lookup "bias" fault.values) (of_nat 0)

  -- the noise, then the bias of a SENSOR_BIAS fault
  abbrev pub measure : ℕ → Sensor Float → ℕ → Option (ActiveFault Float) → Float → Float
  measure seed sensor tick fault truth =
      let measured =
        add truth (mul sensor.noise_std (compute_gaussian_noise seed sensor.sensor_id tick)) in
      if has_kind "SENSOR_BIAS" fault then add measured (bias_of fault) else measured

  -- the quality check
  unfoldable pub check_quality : SensorKind → Float → Option Float × ObservationQuality
  check_quality kind measured =
      if not (is_finite measured)
      then (none, invalid)
      else if is_pressure kind && lt measured (of_nat 0)
      then (some measured, invalid)
      else (some measured, good)

  -- the observations of one sensor
  unfoldable pub sample :
      ObservedRun Float
      → PhysicalState Float
      → Sensor Float
      → Option (ActiveFault Float)
      → Reading
      → List (Observation Float)
  unfolding check_quality compute_gaussian_noise
  sample run state sensor fault skipped = []
  sample run state sensor fault (read_truth none) =
      observation_of run state sensor none missing ∷ []
  sample run state sensor fault (read_truth (some truth)) =
      if has_kind "SENSOR_DROPOUT" fault
      then observation_of run state sensor none missing ∷ []
      else (let (value, quality) =
            check_quality sensor.kind (measure run.seed sensor state.tick fault truth) in
          observation_of run state sensor value quality ∷ [])

  -- the loop over the sensors
  unfoldable pub observe_sensors :
      ObservedRun Float
      → PhysicalState Float
      → ControlState Float
      → List (Sensor Float)
      → Result (List (Observation Float))
  unfolding sample
  observe_sensors run state controls [] = ok []
  observe_sensors run state controls (sensor ∷ sensors) = do
    reading ← read_sensor run.definition state sensor.kind sensor.target
    let first : List (Observation Float) =
        sample run state sensor (find_fault sensor.sensor_id controls.active_faults) reading
    rest ← observe_sensors run state controls sensors
    ok (first ++ rest)

  -- `observe`
  unfoldable pub observe :
      ObservedRun Float
      → PhysicalState Float
      → ControlState Float
      → Result (List (Observation Float))
  unfolding observe_sensors
  observe run state controls = observe_sensors run state controls run.definition.sensors
