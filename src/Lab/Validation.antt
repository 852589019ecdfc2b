-- ===== src/Lab/Validation.antt =====
-- `validate_lab` of src/industrial_reliability/lab/contracts.py. The digest of a result and the texts of the errors are
-- left out.
pub mod Distinct
pub mod Runnable
pub mod Eligible
use industrial_reliability_p.Base.{
  ℕ, String, Bool, true, false, ◌&&◌, ◌||◌, not, Option, none, some, List, [], ◌∷◌, ◌++◌, any, ◌==◌,
  is_some, Dict, get, put, has, if◌then◌else◌, Result, ok, err, assertion_error, ◌>>=◌,
}
use industrial_reliability_p.Platform.{Uuid}
use industrial_reliability_p.Lab.Contracts.{
  AssetType, PortName, same_port_name, valid_ports, PortRef, same_port, Asset, Pipe, SensorKind,
  pressure, flow, Target, at_port, at_pipe, Sensor, LabDefinition,
}

pub data ErrorCode : Type 0 where
  empty_lab duplicate_asset_id duplicate_pipe_id invalid_port_ref self_loop_pipe : ErrorCode
  duplicate_pipe duplicate_sensor_id invalid_sensor_target : ErrorCode

pub record LabValidationError : Type 0 where
  pub code : ErrorCode
  pub asset_ids : List Uuid
  pub port_refs : List PortRef

pub record LabValidationResult : Type 0 where
  pub run_eligible : Bool
  pub errors : List LabValidationError

-- a list with the error, where there is one
abbrev pub error_if : Bool → LabValidationError → List LabValidationError
error_if true error = error ∷ []
error_if false error = []

abbrev pub plain_error : ErrorCode → LabValidationError
plain_error code = record { code = code; asset_ids = []; port_refs = [] }

abbrev pub port_error : ErrorCode → List PortRef → LabValidationError
port_error code ports = record { code = code; asset_ids = []; port_refs = ports }

-- the ends of a pipe, and the same two ports in either order
abbrev pub Ends : Type 0
Ends = PortRef × PortRef

abbrev pub same_ends : Ends → Ends → Bool
same_ends (a, b) (c, d) = same_port a c && same_port b d || same_port a d && same_port b c

abbrev pub is_connected : Ends → List Ends → Bool
is_connected ends pairs = any (λ pair. same_ends pair ends) pairs

abbrev pub is_empty {ℓ} : {A : Type ℓ} → List A → Bool
is_empty [] = true
is_empty (x ∷ xs) = false

module _ {F : Type 0} where
  -- the loop over the assets: its errors, and `asset_map`
  unfoldable pub check_assets :
      List (Asset F) → Dict (Asset F) → List LabValidationError × Dict (Asset F)
  check_assets [] asset_map = ([], asset_map)
  check_assets (a ∷ assets) asset_map =
      let (errors, all_assets) = check_assets assets (put a.asset_id a asset_map) in
      (
        error_if (is_some (get a.asset_id asset_map))
              (record { code = duplicate_asset_id; asset_ids = a.asset_id ∷ []; port_refs = [] })
            ++ errors,
        all_assets,
      )

  abbrev pub has_port : PortName → Option (Asset F) → Bool
  has_port port none = false
  has_port port (some asset) = any (λ p. same_port_name p port) (valid_ports asset.kind)

  -- the checks of one end
  abbrev pub check_end : ErrorCode → Dict (Asset F) → PortRef → List LabValidationError
  check_end code asset_map ref =
      error_if (not (has_port ref.port (get ref.asset_id asset_map))) (port_error code (ref ∷ []))

  abbrev pub ends_of : Pipe F → Ends
  ends_of pipe = (pipe.from_port, pipe.to_port)

  -- self-loops and duplicate connections
  abbrev pub check_pair : Pipe F → List Ends → List LabValidationError
  check_pair pipe connected_pairs =
      let ports : List PortRef = pipe.from_port ∷ pipe.to_port ∷ [] in
      if same_port pipe.from_port pipe.to_port
      then port_error self_loop_pipe ports ∷ []
      else error_if (is_connected (ends_of pipe) connected_pairs) (port_error duplicate_pipe ports)

  -- the loop over the pipes: its errors, and `pipe_ids`
  unfoldable pub check_pipes :
      Dict (Asset F) → List (Pipe F) → List Uuid → List Ends → List LabValidationError × List Uuid
  check_pipes asset_map [] pipe_ids connected_pairs = ([], pipe_ids)
  check_pipes asset_map (pipe ∷ pipes) pipe_ids connected_pairs =
      let (errors, all_ids) =
        check_pipes asset_map pipes (pipe.pipe_id ∷ pipe_ids) (ends_of pipe ∷ connected_pairs) in
      (
        error_if (has pipe.pipe_id pipe_ids) (plain_error duplicate_pipe_id)
            ++ (check_end invalid_port_ref asset_map pipe.from_port
                ++ (check_end invalid_port_ref asset_map pipe.to_port
                    ++ (check_pair pipe connected_pairs ++ errors))),
        all_ids,
      )

  -- the checks of a target, whose shape the kind asserts
  abbrev pub check_target :
      Dict (Asset F) → List Uuid → SensorKind → Target → Result (List LabValidationError)
  check_target asset_map pipe_ids pressure (at_port ref) =
      ok (check_end invalid_sensor_target asset_map ref)
  check_target asset_map pipe_ids pressure (at_pipe pipe_id) = err assertion_error
  check_target asset_map pipe_ids flow (at_port ref) = err assertion_error
  check_target asset_map pipe_ids flow (at_pipe pipe_id) =
      ok (error_if (not (has pipe_id pipe_ids)) (plain_error invalid_sensor_target))

  -- the loop over the sensors
  unfoldable pub check_sensors :
      Dict (Asset F) → List Uuid → List (Sensor F) → List Uuid → Result (List LabValidationError)
  check_sensors asset_map pipe_ids [] sensor_ids = ok []
  check_sensors asset_map pipe_ids (sensor ∷ sensors) sensor_ids = do
    target_errors ← check_target asset_map pipe_ids sensor.kind sensor.target
    errors ← check_sensors asset_map pipe_ids sensors (sensor.sensor_id ∷ sensor_ids)
    ok (
        error_if (has sensor.sensor_id sensor_ids) (plain_error duplicate_sensor_id)
        ++ (target_errors ++ errors))

  -- `validate_lab`
  unfoldable pub validate_lab : LabDefinition F → Result LabValidationResult
  unfolding check_assets check_pipes check_sensors
  validate_lab definition =
      if is_empty definition.assets
      then ok (record { run_eligible = false; errors = plain_error empty_lab ∷ [] })
      else (do
        let (asset_errors, asset_map) = check_assets definition.assets []
        let (pipe_errors, pipe_ids) = check_pipes asset_map definition.pipes [] []
        sensor_errors ← check_sensors asset_map pipe_ids definition.sensors []
        let errors : List LabValidationError = asset_errors ++ (pipe_errors ++ sensor_errors)
        ok (record { run_eligible = is_empty errors; errors = errors }))
