-- ===== src/Alert/Model.antt =====
-- The records of src/industrial_reliability/alert_state.py, and the policy of alert_policy.py.
use industrial_reliability_p.Base.{ℕ, ◌+◌, ◌*◌, String, Bool, true, Option, none, List, [], leb}
use industrial_reliability_p.Platform.{Uuid, Datetime}
use industrial_reliability_p.Messages.{AlertEventV1, EvidenceSnapshotV1}

-- LockedAlertPolicyV1 of alert_policy.py
pub record LockedAlertPolicyV1 (F : Type 0) : Type 0 where
  pub source_split : String
  pub source_scores_sha256 : String
  pub source_dataset_sha256 : String
  pub contract_sha256 : String
  pub model_id : String
  pub model_version : String
  pub threshold : F
  pub stride_seconds : ℕ
  pub persistence_decisions : ℕ
  pub cooldown_decisions : ℕ
  pub merge_gap_seconds : ℕ
  pub calibration_false_episodes_per_day : F
  pub calibration_time_in_alert : F
  pub policy_sha256 : String

pub record AlertState : Type 0 where
  pub replay_session_id : Uuid
  pub machine_id : String
  pub active_alert_id : Option Uuid
  pub previous_alert_id : Option Uuid
  pub first_detection : Option Datetime
  pub last_detection : Option Datetime
  pub resolved_at : Option Datetime
  pub anomaly_decision_ids : List Uuid
  pub anomaly_streak : ℕ
  pub normal_streak : ℕ
  pub last_decision_id : Option Uuid
  pub last_source_timestamp : Option Datetime

-- `AlertState.empty`
abbrev pub empty : Uuid → String → AlertState
empty replay_session_id machine_id = record {
  replay_session_id = replay_session_id;
  machine_id = machine_id;
  active_alert_id = none;
  previous_alert_id = none;
  first_detection = none;
  last_detection = none;
  resolved_at = none;
  anomaly_decision_ids = [];
  anomaly_streak = 0;
  normal_streak = 0;
  last_decision_id = none;
  last_source_timestamp = none;
}

pub record TransitionResult (F : Type 0) : Type 0 where
  pub state : AlertState
  pub event : Option AlertEventV1
  pub evidence : Option (EvidenceSnapshotV1 F)

-- What a transition draws from outside: `uuid4()` and `datetime.now(UTC)`, for the event and then for
-- the evidence.
pub record Draw : Type 0 where
  pub event_message_id : Uuid
  pub event_emitted_at : ℕ
  pub evidence_message_id : Uuid
  pub evidence_emitted_at : ℕ

-- an aware datetime, as `datetime.now(UTC)` returns it
abbrev pub utc : ℕ → Datetime
utc t = record { tick = t; aware = true }

-- `(later - earlier).total_seconds() <= seconds`; microseconds are kept exact
abbrev pub within_seconds : Datetime → Datetime → ℕ → Bool
within_seconds earlier later seconds = leb later.tick (earlier.tick + seconds * 1000000)
