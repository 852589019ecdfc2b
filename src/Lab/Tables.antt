-- ===== src/Lab/Tables.antt =====
-- The run records of src/industrial_reliability/lab/contracts.py and the rows of the tables of
-- db/migrations/006_virtual_lab.sql. A JSON object whose fields the store does not read is its text.
use industrial_reliability_p.Base.{ℕ, String, Option, List, Dict, Bool, true, false}
use industrial_reliability_p.Platform.{Uuid}
use industrial_reliability_p.Lab.Contracts.{Parameters, LabDefinition}

pub data RunStatus : Type 0 where
  created running paused stopped completed failed : RunStatus

-- `status in ("STOPPED", "COMPLETED", "FAILED")`
abbrev pub is_final : RunStatus → Bool
is_final stopped = true
is_final completed = true
is_final failed = true
is_final status = false

pub data CommandStatus : Type 0 where
  accepted applied rejected failed_command : CommandStatus

pub record RunSpec : Type 0 where
  pub lab_id : Uuid
  pub lab_revision : ℕ
  pub seed : ℕ
  pub speed : ℕ
  pub max_ticks : Option ℕ
  pub baseline_id : Option Uuid

pub record PhysicalState (F : Type 0) : Type 0 where
  pub tick : ℕ
  pub pressures_pa : List (String × F)
  pub flows_kg_s : List (String × F)
  pub operating_modes : List (String × String)

pub record ActiveFault (F : Type 0) : Type 0 where
  pub target_id : Uuid
  pub kind : String
  pub port : Option String
  pub values : List (String × F)

pub record ControlState (F : Type 0) : Type 0 where
  pub setpoints : Dict (Parameters F)
  pub active_faults : List (ActiveFault F)

pub record EngineCheckpoint (F : Type 0) : Type 0 where
  pub tick : ℕ
  pub physical : PhysicalState F
  pub controls : ControlState F
  pub accepted_scanned_sequence : ℕ
  pub pending_command_ids : List Uuid
  pub definition_digest : String
  pub profile_digest : String
  pub sampling_digest : String

pub record CommandRequest : Type 0 where
  pub command_id : Uuid
  pub expected_control_revision : ℕ
  pub action : String
  pub target_id : Option Uuid
  pub parameters : String

pub record CommandReceipt : Type 0 where
  pub command_id : Uuid
  pub status : CommandStatus
  pub accepted_sequence : ℕ
  pub effective_tick : Option ℕ
  pub control_revision : ℕ
  pub reason_code : Option String

pub record LabEvent : Type 0 where
  pub event_id : Uuid
  pub run_id : Uuid
  pub sequence : ℕ
  pub kind : String
  pub tick : ℕ
  pub payload : String

-- a row of lab_definitions
pub record LabRow : Type 0 where
  pub name : String
  pub current_revision : ℕ

-- a row of lab_revisions
pub record RevisionRow (F : Type 0) : Type 0 where
  pub lab_id : Uuid
  pub revision : ℕ
  pub definition : LabDefinition F
  pub digest : String

-- a row of lab_runs
pub record RunRow (F : Type 0) : Type 0 where
  pub spec : RunSpec
  pub status : RunStatus
  pub tick : ℕ
  pub control_revision : ℕ
  pub accepted_sequence : ℕ
  pub event_sequence : ℕ
  pub fence : ℕ
  pub definition_digest : String
  pub checkpoint : EngineCheckpoint F

-- a row of lab_commands
pub record CommandRow : Type 0 where
  pub run_id : Uuid
  pub payload_hash : String
  pub action : String
  pub target_id : Option Uuid
  pub parameters : String
  pub receipt : CommandReceipt

-- a message of the engine, and its row of lab_outbox
pub record OutboxMessage : Type 0 where
  pub message_id : Uuid
  pub sensor_id : Uuid
  pub tick : ℕ
  pub topic : String
  pub payload : String

pub record LabOutboxRow : Type 0 where
  pub run_id : Uuid
  pub message : OutboxMessage
  pub published : Bool

-- a row of lab_history
pub record HistoryRow : Type 0 where
  pub run_id : Uuid
  pub tick : ℕ
  pub frame : String

pub record LabDatabase (F : Type 0) : Type 0 where
  pub labs : Dict LabRow
  pub revisions : List (RevisionRow F)
  pub runs : Dict (RunRow F)
  pub commands : List CommandRow
  pub events : List LabEvent
  pub outbox : List LabOutboxRow
  pub history : List HistoryRow
