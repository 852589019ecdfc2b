-- ===== src/Messages.antt =====
-- src/industrial_reliability/runtime_messages.py: the message models, field by field. A field
-- `schema_version` is a constant of its model and is left out.
pub mod Validate
use industrial_reliability_p.Base.{ℕ, Bool, String, Option, List}
use industrial_reliability_p.Platform.{Uuid, Datetime}

pub data AlertAction : Type 0 where
  opened updated resolved reopened : AlertAction

pub record CoverageEvidenceV1 : Type 0 where
  pub observations_by_bin : List ℕ
  pub bin_ends : List Datetime

pub record FeatureVectorV1 (F : Type 0) : Type 0 where
  pub message_id : Uuid
  pub replay_session_id : Uuid
  pub source_dataset_sha256 : String
  pub contract_sha256 : String
  pub source_timestamp : Datetime
  pub emitted_at : Datetime
  pub window_id : Uuid
  pub machine_id : String
  pub window_start : Datetime
  pub window_end : Datetime
  pub feature_names : List String
  pub feature_values : List F
  pub coverage : CoverageEvidenceV1

pub record EvidenceValueV1 (F : Type 0) : Type 0 where
  pub feature_name : String
  pub feature_value : F
  pub robust_deviation : F

pub record ScoreDecisionV1 (F : Type 0) : Type 0 where
  pub message_id : Uuid
  pub replay_session_id : Uuid
  pub source_dataset_sha256 : String
  pub contract_sha256 : String
  pub source_timestamp : Datetime
  pub emitted_at : Datetime
  pub decision_id : Uuid
  pub window_id : Uuid
  pub model_version : String
  pub score : F
  pub threshold : F
  pub is_anomaly : Bool
  pub evidence_vector : List (EvidenceValueV1 F)

pub data Action : Type 0 where
  start pause resume stop : Action

pub record ReplayCommandV1 : Type 0 where
  pub message_id : Uuid
  pub replay_session_id : Uuid
  pub source_dataset_sha256 : String
  pub contract_sha256 : String
  pub source_timestamp : Datetime
  pub emitted_at : Datetime
  pub command_id : Uuid
  pub action : Action
  pub speed : ℕ
  pub range_start : Option Datetime
  pub range_end : Option Datetime

pub data ReplayState : Type 0 where
  created running paused stopped completed failed : ReplayState

pub record ReplayStatusV1 : Type 0 where
  pub message_id : Uuid
  pub replay_session_id : Uuid
  pub source_dataset_sha256 : String
  pub contract_sha256 : String
  pub source_timestamp : Datetime
  pub emitted_at : Datetime
  pub state : ReplayState
  -- a negative number is refused by the model and by no code that writes it
  pub last_sequence : Option ℕ
  pub error_code : Option String

pub record TelemetryEventV1 (F : Type 0) : Type 0 where
  pub message_id : Uuid
  pub replay_session_id : Uuid
  pub source_dataset_sha256 : String
  pub contract_sha256 : String
  pub source_timestamp : Datetime
  pub emitted_at : Datetime
  pub machine_id : String
  pub sequence : ℕ
  -- tp2, tp3, h1, dv_pressure, reservoirs, oil_temperature, motor_current
  pub analog : List F
  -- comp, dv_electric, towers, mpg, lps, pressure_switch, oil_level, caudal_impulses
  pub digital : List ℕ

pub record FeatureDeviationV1 (F : Type 0) : Type 0 where
  pub feature_name : String
  pub observed_value : F
  pub baseline_value : F
  pub absolute_deviation : F

pub record AlertEventV1 : Type 0 where
  pub message_id : Uuid
  pub replay_session_id : Uuid
  pub source_dataset_sha256 : String
  pub contract_sha256 : String
  pub source_timestamp : Datetime
  pub emitted_at : Datetime
  pub alert_id : Uuid
  pub machine_id : String
  pub action : AlertAction
  pub first_detection : Datetime
  pub last_detection : Datetime
  pub decision_ids : List Uuid
  pub policy_sha256 : String

-- `float | int | str | bool`
pub data Scalar (F : Type 0) : Type 0 where
  flt : F → Scalar F
  str : String → Scalar F
  bool : Bool → Scalar F

pub record EvidenceSnapshotV1 (F : Type 0) : Type 0 where
  pub message_id : Uuid
  pub replay_session_id : Uuid
  pub source_dataset_sha256 : String
  pub contract_sha256 : String
  pub source_timestamp : Datetime
  pub emitted_at : Datetime
  pub evidence_id : Uuid
  pub alert_id : Uuid
  pub decision_id : Uuid
  pub window_id : Uuid
  pub model_version : String
  pub feature_deviations : List (FeatureDeviationV1 F)
  pub data_quality : List (String × Scalar F)
  pub model : List (String × Scalar F)
  pub system_health : List (String × Scalar F)

pub record QuarantineRecordV1 : Type 0 where
  pub message_id : Uuid
  pub replay_session_id : Option Uuid
  pub source_dataset_sha256 : String
  pub contract_sha256 : String
  pub source_timestamp : Datetime
  pub emitted_at : Datetime
  pub original_topic : String
  pub partition : ℕ
  pub offset : ℕ
  pub payload_sha256 : String
  pub error_code : String
  pub error_detail : String
