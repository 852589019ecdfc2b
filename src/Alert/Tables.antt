-- ===== src/Alert/Tables.antt =====
-- The rows of the alert tables of src/industrial_reliability/persistence.py, and the statements on one table. A
-- row's JSON payload is kept as the value that it encodes, and `updated_at` is left out.
use industrial_reliability_p.Base.{
  ℕ, String, Bool, true, false, ◌&&◌, not, Option, none, some, List, [], ◌∷◌, any, ◌==◌, ltb,
  if◌then◌else◌,
}
use text.Mathlib.Text.{◌==◌ as str_eq}
use industrial_reliability_p.Platform.{Uuid, Datetime}
use industrial_reliability_p.Messages.{
  AlertAction, opened, updated, resolved, reopened, ReplayState, ReplayStatusV1, ScoreDecisionV1,
  AlertEventV1, EvidenceSnapshotV1,
}
use industrial_reliability_p.Alert.Model.{AlertState}

-- a row of `replay_sessions`
pub record SessionRow : Type 0 where
  pub replay_session_id : Uuid
  pub source_dataset_sha256 : String
  pub contract_sha256 : String
  pub model_version : String
  pub state : ReplayState
  pub last_sequence : Option ℕ
  pub source_timestamp : Option Datetime
  pub error_code : Option String

-- a row of `alerts`, whose state is OPEN or RESOLVED
pub record AlertRow : Type 0 where
  pub alert_id : Uuid
  pub replay_session_id : Uuid
  pub machine_id : String
  pub is_open : Bool
  pub first_detection : Datetime
  pub last_detection : Datetime
  pub resolved_at : Option Datetime
  pub latest_decision_id : Uuid
  pub policy_sha256 : String

-- a row of `alert_events`: its other columns are in the payload
pub record EventRow : Type 0 where
  pub decision_id : Uuid
  pub payload : AlertEventV1

pub record OutboxRow : Type 0 where
  pub message_id : Uuid
  pub topic : String
  pub message_key : Uuid
  pub payload : AlertEventV1
  pub is_published : Bool

pub record Database (F : Type 0) : Type 0 where
  pub replay_sessions : List SessionRow
  pub score_decisions : List (ScoreDecisionV1 F)
  pub alerts : List AlertRow
  pub alert_events : List EventRow
  pub evidence_snapshots : List (EvidenceSnapshotV1 F)
  pub alert_outbox : List OutboxRow
  pub alert_runtime_states : List AlertState

abbrev pub is_resolved : AlertAction → Bool
is_resolved resolved = true
is_resolved _ = false

abbrev pub same_action : AlertAction → AlertAction → Bool
same_action opened opened = true
same_action updated updated = true
same_action resolved resolved = true
same_action reopened reopened = true
same_action _ _ = false

-- the row that an event gives its alert
abbrev pub alert_row_of : AlertEventV1 → Uuid → Datetime → AlertRow
alert_row_of event decision_id source_timestamp = record {
  alert_id = event.alert_id;
  replay_session_id = event.replay_session_id;
  machine_id = event.machine_id;
  is_open = not (is_resolved event.action);
  first_detection = event.first_detection;
  last_detection = event.last_detection;
  resolved_at = if is_resolved event.action then some source_timestamp else none;
  latest_decision_id = decision_id;
  policy_sha256 = event.policy_sha256;
}

-- `INSERT INTO alerts ... ON CONFLICT (alert_id) DO UPDATE` of four columns
unfoldable pub upsert_alert : AlertRow → List AlertRow → List AlertRow
upsert_alert new [] = new ∷ []
upsert_alert new (row ∷ rows) =
    if row.alert_id == new.alert_id
    then record row {
      is_open = new.is_open;
      last_detection = new.last_detection;
      resolved_at = new.resolved_at;
      latest_decision_id = new.latest_decision_id;
    }
      ∷ rows
    else row ∷ upsert_alert new rows

abbrev pub is_state_of : Uuid → String → AlertState → Bool
is_state_of session machine_id state =
    state.replay_session_id == session && str_eq state.machine_id machine_id

-- `INSERT INTO alert_runtime_states ... ON CONFLICT (replay_session_id, machine_id) DO UPDATE`
unfoldable pub upsert_state : AlertState → List AlertState → List AlertState
upsert_state new [] = new ∷ []
upsert_state new (state ∷ states) =
    if is_state_of new.replay_session_id new.machine_id state
    then new ∷ states
    else state ∷ upsert_state new states

unfoldable pub find_state : Uuid → String → List AlertState → Option AlertState
find_state session machine_id [] = none
find_state session machine_id (state ∷ states) =
    if is_state_of session machine_id state
    then some state
    else find_state session machine_id states

-- `INSERT INTO replay_sessions ... ON CONFLICT DO UPDATE` of `record_replay_status`
unfoldable pub upsert_session : ReplayStatusV1 → List SessionRow → List SessionRow
upsert_session status [] =
    record {
      replay_session_id = status.replay_session_id;
      source_dataset_sha256 = status.source_dataset_sha256;
      contract_sha256 = status.contract_sha256;
      model_version = "champion-statistical-v1";
      state = status.state;
      last_sequence = status.last_sequence;
      source_timestamp = some status.source_timestamp;
      error_code = status.error_code;
    }
    ∷ []
upsert_session status (row ∷ rows) =
    if row.replay_session_id == status.replay_session_id
    then record row {
      state = status.state;
      last_sequence = status.last_sequence;
      source_timestamp = some status.source_timestamp;
      error_code = status.error_code;
    }
      ∷ rows
    else row ∷ upsert_session status rows

-- the unpublished row with the least identifier
unfoldable pub next_unpublished_outbox : List OutboxRow → Option OutboxRow
next_unpublished_outbox [] = none
next_unpublished_outbox (row ∷ rows) =
    let rest = next_unpublished_outbox rows in
    if row.is_published then rest else elim rest [
      | none ↦ some row
      | some other ↦ if ltb other.message_id row.message_id then some other else some row
    ]

-- `UPDATE alert_outbox SET published_at = now() WHERE message_id`
unfoldable pub mark_outbox_published : Uuid → List OutboxRow → List OutboxRow
mark_outbox_published message_id [] = []
mark_outbox_published message_id (row ∷ rows) =
    let rest = mark_outbox_published message_id rows in
    if row.message_id == message_id then record row { is_published = true } ∷ rest else row ∷ rest

abbrev pub has_session : Uuid → List SessionRow → Bool
has_session session = any (λ row. row.replay_session_id == session)
