-- ===== src/Alert/State.antt =====
-- src/industrial_reliability/alert_state.py: the alert state machine. A construction of a message is
-- validated as its model validates it, so a transition may raise there as well as on its own guard.
pub mod Emit
pub mod Invariant
pub mod Lifecycle
use Prim.Native.String.{◌++◌ as ◌<>◌}
use industrial_reliability_p.Base.{
  ℕ, ◌+◌, ◌*◌, String, Bool, true, false, ◌&&◌, Option, none, some, List, [], ◌∷◌, ◌++◌, head?, ltb,
  leb, opt_eq, or_else, is_some, if◌then◌else◌, Result, ok, err, ordering_violation,
  assertion_error, ◌>>=◌, ◌>>◌,
}
use industrial_reliability_p.Platform.{Uuid, Datetime, Platform}
use industrial_reliability_p.Messages.{
  AlertAction, opened, updated, resolved, reopened, EvidenceValueV1, ScoreDecisionV1,
  FeatureDeviationV1, AlertEventV1, flt, str, bool, EvidenceSnapshotV1,
}
use industrial_reliability_p.Messages.Validate.{
  validate_alert_event, validate_deviation, validate_evidence_snapshot,
}
use industrial_reliability_p.Alert.Model.{
  AlertState, Draw, LockedAlertPolicyV1, TransitionResult, empty, utc, within_seconds,
}

module _ (P : Platform) where
  open P use {Float, sub, abs, uuid5, namespace_url, uuid_str}

  unfoldable pub alert_id_for : Uuid → Uuid → Uuid
  alert_id_for replay_session_id first_decision_id =
      uuid5 namespace_url
        ("alert:" <> uuid_str replay_session_id <> ":" <> uuid_str first_decision_id)

  unfoldable pub evidence_id_for : Uuid → Uuid → Uuid
  evidence_id_for alert_id decision_id =
      uuid5 namespace_url ("evidence:" <> uuid_str alert_id <> ":" <> uuid_str decision_id)

  abbrev pub deviation_of : EvidenceValueV1 Float → FeatureDeviationV1 Float
  deviation_of ev = record {
    feature_name = ev.feature_name;
    observed_value = ev.feature_value;
    baseline_value = sub ev.feature_value ev.robust_deviation;
    absolute_deviation = abs ev.robust_deviation;
  }

  -- the list comprehension over `decision.evidence_vector`
  unfoldable pub build_deviations :
      List (EvidenceValueV1 Float) → Result (List (FeatureDeviationV1 Float))
  build_deviations [] = ok []
  build_deviations (ev ∷ rest) = do
    validate_deviation P (deviation_of ev)
    deviations ← build_deviations rest
    ok (deviation_of ev ∷ deviations)

  unfoldable pub build_evidence_snapshot :
      Draw → Uuid → ScoreDecisionV1 Float → Result (EvidenceSnapshotV1 Float)
  build_evidence_snapshot draw alert_id decision = do
    deviations ← build_deviations decision.evidence_vector
    let snapshot : EvidenceSnapshotV1 Float = record {
      message_id = draw.evidence_message_id;
      replay_session_id = decision.replay_session_id;
      source_dataset_sha256 = decision.source_dataset_sha256;
      contract_sha256 = decision.contract_sha256;
      source_timestamp = decision.source_timestamp;
      emitted_at = utc draw.evidence_emitted_at;
      evidence_id = evidence_id_for alert_id decision.decision_id;
      alert_id = alert_id;
      decision_id = decision.decision_id;
      window_id = decision.window_id;
      model_version = decision.model_version;
      feature_deviations = deviations;
      data_quality = ("status", str "ok") ∷ [];
      model = ("score", flt decision.score) ∷ ("threshold", flt decision.threshold) ∷ [];
      system_health = ("is_anomaly", bool decision.is_anomaly) ∷ [];
    }
    validate_evidence_snapshot P snapshot
    ok snapshot

  -- the construction of `AlertEventV1`, which validates it
  unfoldable pub build_event :
      Draw
      → AlertState
      → ScoreDecisionV1 Float
      → LockedAlertPolicyV1 Float
      → AlertAction
      → Uuid
      → Datetime
      → Datetime
      → List Uuid
      → Result AlertEventV1
  build_event draw state decision policy action alert_id first_det last_det decision_ids = do
    let event : AlertEventV1 = record {
      message_id = draw.event_message_id;
      replay_session_id = decision.replay_session_id;
      source_dataset_sha256 = decision.source_dataset_sha256;
      contract_sha256 = decision.contract_sha256;
      source_timestamp = decision.source_timestamp;
      emitted_at = utc draw.event_emitted_at;
      alert_id = alert_id;
      machine_id = state.machine_id;
      action = action;
      first_detection = first_det;
      last_detection = last_det;
      decision_ids = decision_ids;
      policy_sha256 = policy.policy_sha256;
    }
    validate_alert_event event
    ok event

  unfoldable pub emit_anomaly_result :
      Draw
      → AlertState
      → ScoreDecisionV1 Float
      → LockedAlertPolicyV1 Float
      → AlertAction
      → Uuid
      → Datetime
      → ℕ
      → List Uuid
      → Result (TransitionResult Float)
  emit_anomaly_result draw state decision policy action alert_id first_det new_anomaly_streak ids =
      do
        let last_det = decision.source_timestamp
        event ← build_event draw state decision policy action alert_id first_det last_det ids
        evidence ← build_evidence_snapshot draw alert_id decision
        ok (record {
          state = record {
            replay_session_id = state.replay_session_id;
            machine_id = state.machine_id;
            active_alert_id = some alert_id;
            previous_alert_id = state.previous_alert_id;
            first_detection = some first_det;
            last_detection = some last_det;
            resolved_at = none;
            anomaly_decision_ids = ids;
            anomaly_streak = new_anomaly_streak;
            normal_streak = 0;
            last_decision_id = some decision.decision_id;
            last_source_timestamp = some decision.source_timestamp;
          };
          event = some event;
          evidence = some evidence;
        })

  -- the alert that a trigger merges into, if the last one was resolved within the merge gap
  unfoldable pub reopened_alert :
      AlertState → ScoreDecisionV1 Float → LockedAlertPolicyV1 Float → Option Uuid
  reopened_alert state decision policy = elim state.previous_alert_id [
    | none ↦ none
    | some previous ↦ elim state.resolved_at [
      | none ↦ none
      | some resolved_at ↦
          if ltb 0 policy.merge_gap_seconds
            && within_seconds resolved_at decision.source_timestamp policy.merge_gap_seconds
          then some previous
          else none
    ]
  ]

  -- `new_anomaly_decision_ids[0]`: the tuple ends with the decision's own id, so it is not empty
  abbrev pub first_id : List Uuid → Uuid → Uuid
  first_id ids own = or_else (head? ids) own

  unfoldable pub handle_anomaly_trigger :
      Draw
      → AlertState
      → ScoreDecisionV1 Float
      → LockedAlertPolicyV1 Float
      → ℕ
      → List Uuid
      → Result (TransitionResult Float)
  handle_anomaly_trigger draw state decision policy new_anomaly_streak ids =
      if ltb new_anomaly_streak policy.persistence_decisions
      then ok (record {
        state = record state {
          active_alert_id = none;
          anomaly_decision_ids = ids;
          anomaly_streak = new_anomaly_streak;
          normal_streak = 0;
          last_decision_id = some decision.decision_id;
          last_source_timestamp = some decision.source_timestamp;
        };
        event = none;
        evidence = none;
      })
      else elim (reopened_alert state decision policy) [
        | some previous ↦
            emit_anomaly_result draw state decision policy reopened previous
              (or_else state.first_detection decision.source_timestamp) new_anomaly_streak ids
        | none ↦
            emit_anomaly_result draw state decision policy opened
              (alert_id_for decision.replay_session_id (first_id ids decision.decision_id))
              decision.source_timestamp new_anomaly_streak ids
      ]

  unfoldable pub handle_anomaly_update :
      Draw
      → AlertState
      → ScoreDecisionV1 Float
      → LockedAlertPolicyV1 Float
      → ℕ
      → List Uuid
      → Result (TransitionResult Float)
  handle_anomaly_update draw state decision policy new_anomaly_streak ids =
      elim state.active_alert_id [
        | none ↦ err assertion_error
        | some alert_id ↦
            emit_anomaly_result draw state decision policy updated alert_id
              (or_else state.first_detection decision.source_timestamp) new_anomaly_streak ids
      ]

  -- the branch of `_handle_normal` that resolves the active alert
  unfoldable pub resolve_alert :
      Draw
      → AlertState
      → ScoreDecisionV1 Float
      → LockedAlertPolicyV1 Float
      → Uuid
      → ℕ
      → Result (TransitionResult Float)
  resolve_alert draw state decision policy alert_id new_normal_streak = do
    let first_det = or_else state.first_detection decision.source_timestamp
    let last_det = or_else state.last_detection decision.source_timestamp
    event ←
        build_event draw state decision policy resolved alert_id first_det last_det
          state.anomaly_decision_ids
    ok (record {
      state = record {
        replay_session_id = state.replay_session_id;
        machine_id = state.machine_id;
        active_alert_id = none;
        previous_alert_id = some alert_id;
        first_detection = some first_det;
        last_detection = some last_det;
        resolved_at = some decision.source_timestamp;
        anomaly_decision_ids = [];
        anomaly_streak = 0;
        normal_streak = new_normal_streak;
        last_decision_id = some decision.decision_id;
        last_source_timestamp = some decision.source_timestamp;
      };
      event = some event;
      evidence = none;
    })

  abbrev quiet : AlertState → ScoreDecisionV1 Float → ℕ → List Uuid → TransitionResult Float
  quiet state decision new_normal_streak ids = record {
    state = record state {
      anomaly_decision_ids = ids;
      anomaly_streak = 0;
      normal_streak = new_normal_streak;
      last_decision_id = some decision.decision_id;
      last_source_timestamp = some decision.source_timestamp;
    };
    event = none;
    evidence = none;
  }

  unfoldable pub handle_normal :
      Draw
      → AlertState
      → ScoreDecisionV1 Float
      → LockedAlertPolicyV1 Float
      → Result (TransitionResult Float)
  handle_normal draw state decision policy =
      let new_normal_streak = state.normal_streak + 1 in
      elim state.active_alert_id [
        | some alert_id ↦
            if leb policy.cooldown_decisions new_normal_streak
            then resolve_alert draw state decision policy alert_id new_normal_streak
            else ok (quiet state decision new_normal_streak state.anomaly_decision_ids)
        | none ↦ ok (quiet state decision new_normal_streak [])
      ]

  -- `decision.source_timestamp <= state.last_source_timestamp`, when there is one
  abbrev pub out_of_order : AlertState → ScoreDecisionV1 Float → Bool
  out_of_order state decision = elim state.last_source_timestamp [
    | none ↦ false
    | some last ↦ leb decision.source_timestamp.tick last.tick
  ]

  unfoldable pub transition :
      Draw
      → AlertState
      → ScoreDecisionV1 Float
      → LockedAlertPolicyV1 Float
      → Result (TransitionResult Float)
  transition draw state decision policy =
      if opt_eq (some decision.decision_id) state.last_decision_id
      then ok (record { state = state; event = none; evidence = none })
      else if out_of_order state decision
      then err ordering_violation
      else if decision.is_anomaly
      then (let new_anomaly_streak = state.anomaly_streak + 1 in
          let ids = state.anomaly_decision_ids ++ decision.decision_id ∷ [] in
          if is_some state.active_alert_id
          then handle_anomaly_update draw state decision policy new_anomaly_streak ids
          else handle_anomaly_trigger draw state decision policy new_anomaly_streak ids)
      else handle_normal draw state decision policy
