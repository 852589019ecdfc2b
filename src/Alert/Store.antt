-- ===== src/Alert/Store.antt =====
-- The transactions of src/industrial_reliability/persistence.py on the alert tables, with the constraints of the schema in
-- db/migrations. A row's JSON payload is kept as the value that it encodes, and `updated_at` is left out.
-- A call that raises rolls its transaction back.
pub mod Redelivery
pub mod OpenAlerts
use industrial_reliability_p.Base.{
  ℕ, suc, ◌+◌, String, Bool, true, false, ◌&&◌, ◌||◌, not, Option, none, some, List, [], ◌∷◌, ◌++◌,
  any, length, ◌==◌, ltb, opt_eq, if◌then◌else◌, Result, ok, err, integrity_error, runtime_error,
  ◌>>=◌, ◌>>◌, require,
}
use text.Mathlib.Text.{◌==◌ as str_eq}
use industrial_reliability_p.Platform.{Uuid, Datetime, Platform}
use industrial_reliability_p.Messages.{
  AlertAction, opened, updated, resolved, reopened, ReplayState, running, ReplayStatusV1,
  ScoreDecisionV1, AlertEventV1, EvidenceSnapshotV1,
}
use industrial_reliability_p.Alert.Model.{
  LockedAlertPolicyV1, AlertState, empty, TransitionResult, Draw,
}
use industrial_reliability_p.Alert.State.{transition}
use industrial_reliability_p.Alert.Tables.{
  AlertRow, Database, EventRow, OutboxRow, SessionRow, alert_row_of, find_state, has_session,
  is_resolved, is_state_of, mark_outbox_published, next_unpublished_outbox, same_action,
  upsert_alert, upsert_session, upsert_state,
}

module _ {F : Type 0} where
  unfoldable pub record_replay_status : ReplayStatusV1 → Database F → Database F
  unfolding upsert_session
  record_replay_status status db = record db {
    replay_sessions = upsert_session status db.replay_sessions;
  }

  -- `_ensure_session_exists`
  unfoldable pub ensure_session_exists : ScoreDecisionV1 F → Database F → Database F
  ensure_session_exists decision db =
      if has_session decision.replay_session_id db.replay_sessions then db else record db {
        replay_sessions =
            db.replay_sessions
            ++ record {
              replay_session_id = decision.replay_session_id;
              source_dataset_sha256 = decision.source_dataset_sha256;
              contract_sha256 = decision.contract_sha256;
              model_version = decision.model_version;
              state = running;
              last_sequence = none;
              source_timestamp = some decision.source_timestamp;
              error_code = none;
            }
              ∷ [];
      }

  -- `ON CONFLICT (decision_id) DO NOTHING`; `window_id` is UNIQUE as well
  unfoldable pub insert_decision : ScoreDecisionV1 F → Database F → Result (Database F)
  insert_decision decision db =
      if any (λ d. d.decision_id == decision.decision_id) db.score_decisions
      then ok db
      else if any (λ d. d.window_id == decision.window_id) db.score_decisions
      then err integrity_error
      else ok (record db { score_decisions = db.score_decisions ++ decision ∷ [] })

  -- `ON CONFLICT (alert_id, decision_id, action) DO NOTHING`; `message_id` is the primary key
  unfoldable pub insert_alert_event : EventRow → Database F → Result (Database F)
  insert_alert_event row db =
      if any
        (λ r.
          r.payload.alert_id == row.payload.alert_id
          && r.decision_id == row.decision_id
          && same_action r.payload.action row.payload.action)
        db.alert_events
      then ok db
      else if any (λ r. r.payload.message_id == row.payload.message_id) db.alert_events
      then err integrity_error
      else ok (record db { alert_events = db.alert_events ++ row ∷ [] })

  -- `ON CONFLICT (alert_id, decision_id) DO NOTHING`; `evidence_id` is the primary key
  unfoldable pub insert_evidence : Option (EvidenceSnapshotV1 F) → Database F → Result (Database F)
  insert_evidence none db = ok db
  insert_evidence (some snapshot) db =
      if any (λ r. r.alert_id == snapshot.alert_id && r.decision_id == snapshot.decision_id)
        db.evidence_snapshots
      then ok db
      else if any (λ r. r.evidence_id == snapshot.evidence_id) db.evidence_snapshots
      then err integrity_error
      else ok (record db { evidence_snapshots = db.evidence_snapshots ++ snapshot ∷ [] })

  -- `ON CONFLICT (message_id) DO NOTHING`; `message_id` refers to `alert_events`
  unfoldable pub insert_outbox : AlertEventV1 → Database F → Result (Database F)
  insert_outbox event db =
      if any (λ r. r.message_id == event.message_id) db.alert_outbox
      then ok db
      else if not (any (λ r. r.payload.message_id == event.message_id) db.alert_events)
      then err integrity_error
      else ok (record db {
        alert_outbox =
            db.alert_outbox
            ++ record {
              message_id = event.message_id;
              topic = "irp.alerts.v1";
              message_key = event.alert_id;
              payload = event;
              is_published = false;
            }
              ∷ [];
      })

  -- whether the decision is stored
  abbrev pub has_decision : Uuid → List (ScoreDecisionV1 F) → Bool
  has_decision decision_id = any (λ d. d.decision_id == decision_id)

  -- step 3 of `record_decision_transition`
  unfoldable pub insert_event :
      ScoreDecisionV1 F
      → Option (EvidenceSnapshotV1 F)
      → Option AlertEventV1
      → Database F
      → Result (Database F)
  unfolding upsert_alert insert_alert_event insert_evidence insert_outbox
  insert_event decision evidence none db = ok db
  insert_event decision evidence (some event) db = do
    let row : AlertRow = alert_row_of event decision.decision_id decision.source_timestamp
    let noted : Database F = record db { alerts = upsert_alert row db.alerts }
    with_event ←
        insert_alert_event (record { decision_id = decision.decision_id; payload = event }) noted
    with_evidence ← insert_evidence evidence with_event
    insert_outbox event with_evidence

  unfoldable pub record_decision_transition :
      ScoreDecisionV1 F → TransitionResult F → Database F → Result (Database F)
  unfolding ensure_session_exists insert_decision insert_event upsert_state
  record_decision_transition decision result db = do
    with_decision ← insert_decision decision (ensure_session_exists decision db)
    with_event ← insert_event decision result.evidence result.event with_decision
    ok (record with_event {
      alert_runtime_states = upsert_state result.state with_event.alert_runtime_states;
    })

  -- `ORDER BY source_timestamp ASC, decision_id ASC`
  abbrev pub comes_before : ScoreDecisionV1 F → ScoreDecisionV1 F → Bool
  comes_before a b =
      ltb a.source_timestamp.tick b.source_timestamp.tick
      || (a.source_timestamp.tick == b.source_timestamp.tick && ltb a.decision_id b.decision_id)

  unfoldable pub insert_sorted :
      ScoreDecisionV1 F → List (ScoreDecisionV1 F) → List (ScoreDecisionV1 F)
  insert_sorted d [] = d ∷ []
  insert_sorted d (e ∷ ds) = if comes_before d e then d ∷ e ∷ ds else e ∷ insert_sorted d ds

  -- the decisions of a session, in order
  unfoldable pub decisions_of : Uuid → List (ScoreDecisionV1 F) → List (ScoreDecisionV1 F)
  unfolding insert_sorted
  decisions_of session [] = []
  decisions_of session (d ∷ ds) =
      let rest = decisions_of session ds in
      if d.replay_session_id == session then insert_sorted d rest else rest

module _ (P : Platform) where
  open P use {Float}

  -- the loop of `_reconstruct_alert_state`; the payloads were validated when they were written
  unfoldable pub replay_decisions :
      Draw
      → LockedAlertPolicyV1 Float
      → AlertState
      → List (ScoreDecisionV1 Float)
      → Result AlertState
  replay_decisions draw policy state [] = ok state
  replay_decisions draw policy state (d ∷ ds) = do
    result ← transition P draw state d policy
    replay_decisions draw policy result.state ds

  -- the state of a session without a row, from its decisions in order
  unfoldable pub reconstruct_alert_state :
      Draw
      → Uuid
      → String
      → Option (LockedAlertPolicyV1 Float)
      → List (ScoreDecisionV1 Float)
      → Database Float
      → Result (AlertState × Database Float)
  unfolding replay_decisions
  reconstruct_alert_state draw session machine_id policy [] db = ok (empty session machine_id, db)
  reconstruct_alert_state draw session machine_id none (d ∷ ds) db = err runtime_error
  reconstruct_alert_state draw session machine_id (some policy) (d ∷ ds) db = do
    state ← replay_decisions draw policy (empty session machine_id) (d ∷ ds)
    ok (state, record db { alert_runtime_states = db.alert_runtime_states ++ state ∷ [] })

  unfoldable pub load_alert_state :
      Draw
      → Uuid
      → String
      → Option (LockedAlertPolicyV1 Float)
      → Database Float
      → Result (AlertState × Database Float)
  unfolding find_state
  load_alert_state draw session machine_id policy db =
      elim (find_state session machine_id db.alert_runtime_states) [
        | some state ↦ ok (state, db)
        | none ↦
            reconstruct_alert_state draw session machine_id policy
              (decisions_of session db.score_decisions) db
      ]
