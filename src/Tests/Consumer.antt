-- ===== src/Tests/Consumer.antt =====
-- The alert consumer at concrete inputs.
use industrial_reliability_p.Base.{
  ◌≤◌, All, ◌⊎◌, Bool, false, arith, ℕ, ◌≡◌, refl, true, Option, none, some, List, [], ◌∷◌, ok,
  length,
}
use industrial_reliability_p.Messages.{updated, ScoreDecisionV1, AlertEventV1}
use industrial_reliability_p.Messages.Validate.{
  is_hex64, char_count, validate_alert_event, validate_deviation, validate_evidence_snapshot,
}
use industrial_reliability_p.Alert.State.{
  build_deviations, build_evidence_snapshot, build_event, emit_anomaly_result, reopened_alert,
  handle_anomaly_trigger, transition,
}
use industrial_reliability_p.Alert.Tables.{OutboxRow, find_state}
use industrial_reliability_p.Alert.Store.{
  record_decision_transition, reconstruct_alert_state, load_alert_state, decisions_of,
}
use industrial_reliability_p.Alert.Consumer.{
  committed, Fresh, AlertConsumer, commit_decision, process_decision, process, process_all, Record,
}
use industrial_reliability_p.Alert.Consumer.Redelivered.{process_again}
use industrial_reliability_p.Alert.Consumer.Commit.{empty_store, active_of}
use industrial_reliability_p.Alert.Consumer.OpenAlerts.{process_all-open_ids}
use industrial_reliability_p.Alert.Store.OpenAlerts.{open_ids, singleton}
use industrial_reliability_p.Alert.Consumer.Outbox.{
  count_unpublished, Delivered, dispatch_all, dispatch_all-drains,
}
use industrial_reliability_p.Tests.Toy.{toy, hash_a, hash_b}
use industrial_reliability_p.Tests.Alerts.{minute, policy, decision, draw}

-- a raw record is a decision, or nothing where it is malformed
abbrev Raw : Type 0
Raw = Option (ScoreDecisionV1 ℕ)

abbrev decode : Raw → Option (ScoreDecisionV1 ℕ)
decode raw = raw

abbrev fresh : Fresh
fresh = record { status_message_id = 21; now = 3; draw = draw }

abbrev later : Fresh
later = record { status_message_id = 22; now = 4; draw = draw }

abbrev started : AlertConsumer ℕ Raw
started = record {
  failed_sessions = [];
  store = empty_store;
  has_producer = true;
  sent_statuses = [];
  sent_quarantine = [];
}

abbrev one : AlertConsumer ℕ Raw
one = (process toy decode policy "metropt3" fresh (some (decision 1 true)) started).0

-- the second anomalous decision opens an alert
abbrev two : AlertConsumer ℕ Raw
two = (process toy decode policy "metropt3" fresh (some (decision 2 true)) one).0

second_commits :
    process toy decode policy "metropt3" fresh (some (decision 2 true)) one ≡ (two, ok committed)
unfolding process process_decision commit_decision load_alert_state reconstruct_alert_state
    decisions_of transition handle_anomaly_trigger record_decision_transition reopened_alert
    emit_anomaly_result build_event validate_alert_event char_count is_hex64 build_evidence_snapshot
    build_deviations validate_deviation validate_evidence_snapshot
second_commits = refl

process_again_example :
    process toy decode policy "metropt3" later (some (decision 2 true)) two ≡ (two, ok committed)
process_again_example =
    process_again toy decode policy "metropt3" fresh later (some (decision 2 true)) one two
      second_commits

-- a malformed record, two decisions, the second again, and the first, which is now late
abbrev records : List (Fresh × Raw)
records =
    (fresh, none)
    ∷ (fresh, some (decision 1 true))
    ∷ (fresh, some (decision 2 true))
    ∷ (later, some (decision 2 true))
    ∷ (later, some (decision 1 true))
    ∷ []

process_all-open_ids_example :
    open_ids (process_all toy decode policy "metropt3" records started).store.alerts
    ≡ singleton (
        active_of (
          find_state 7 "metropt3"
            (process_all toy decode policy "metropt3" records started).store.alert_runtime_states))
process_all-open_ids_example =
    process_all-open_ids toy decode policy "metropt3" 7 records started refl
      (tt, (refl, (refl, (refl, (refl, tt)))))

-- and one alert is open
one_open :
    length (open_ids (process_all toy decode policy "metropt3" records started).store.alerts) ≡ 1
unfolding process process_decision commit_decision load_alert_state reconstruct_alert_state
    decisions_of transition handle_anomaly_trigger record_decision_transition reopened_alert
    emit_anomaly_result build_event validate_alert_event char_count is_hex64 build_evidence_snapshot
    build_deviations validate_deviation validate_evidence_snapshot
one_open = refl

abbrev foreign : ScoreDecisionV1 ℕ
foreign = record (decision 3 true) { model_version = "other-v1" }

-- the third record belongs to another model, so its session fails and the batch halts before the fourth
abbrev batch : List (Fresh × Record Raw)
batch =
    (fresh, record { partition = 0; offset = 5; value = none })
    ∷ (fresh, record { partition = 0; offset = 6; value = some (decision 1 true) })
    ∷ (fresh, record { partition = 0; offset = 7; value = some foreign })
    ∷ (fresh, record { partition = 0; offset = 8; value = some (decision 2 true) })
    ∷ []

abbrev event_of : ℕ → AlertEventV1
event_of n = record {
  message_id = n;
  replay_session_id = 7;
  source_dataset_sha256 = hash_a;
  contract_sha256 = hash_b;
  source_timestamp = minute n;
  emitted_at = record { tick = 0; aware = true };
  alert_id = 40;
  machine_id = "metropt3";
  action = updated;
  first_detection = minute 1;
  last_detection = minute n;
  decision_ids = 1 ∷ [];
  policy_sha256 = hash_b;
}

abbrev row_of : ℕ → Bool → OutboxRow
row_of n published = record {
  message_id = n;
  topic = "irp.alerts.v1";
  message_key = 40;
  payload = event_of n;
  is_published = published;
}

abbrev outbox : List OutboxRow
outbox = row_of 9 false ∷ row_of 4 true ∷ row_of 6 false ∷ []

dispatch_all-drains_example :
    (count_unpublished (dispatch_all 2 outbox).0 ≡ 0)
    × (length (dispatch_all 2 outbox).1 ≤ count_unpublished outbox)
    × All
        (λ row.
          (row.is_published ≡ true) ⊎ Delivered outbox row.message_id (dispatch_all 2 outbox).1)
        outbox
dispatch_all-drains_example = dispatch_all-drains 2 outbox (omega arith)
