-- ===== src/Tests/Worker.antt =====
-- The scoring client and the worker at concrete inputs.
use industrial_reliability_p.Base.{
  ℕ, String, zero, suc, ◌*◌, ◌≡◌, ◌⊎◌, refl, arith, true, false, Option, none, some, List, [], ◌∷◌,
  length, has, get, if◌then◌else◌, ok,
}
use text.Mathlib.Text.{◌==◌ as str_eq}
use industrial_reliability_p.Platform.{Datetime}
use industrial_reliability_p.Messages.{
  FeatureVectorV1, ScoreDecisionV1, TelemetryEventV1, ReplayStatusV1, completed,
}
use industrial_reliability_p.Messages.Validate.{
  validate_quarantine, validate_status, validate_envelope, is_hex64, char_count,
}
use industrial_reliability_p.Scoring.{
  Reply, response, default_retry_policy, checked_decision, validated_decision, attempt_outcome,
  score_from, score,
}
use industrial_reliability_p.Scoring.Attempts.{Settled, Exhausted, score-Settled}
use industrial_reliability_p.Worker.Model.{WorkerSettings, KafkaRecord, Outside, new_worker}
use industrial_reliability_p.Worker.Session.{publish_quarantine, fail_session}
use industrial_reliability_p.Worker.Records.{
  unreadable, message, Codecs, telemetry_topic, replay_status_topic, handle_event,
  handle_decoded_event, handle_telemetry_record, handle_record, run,
}
use industrial_reliability_p.Worker.Windows.{Sent}
use industrial_reliability_p.Worker.Published.{run-Sent}
use industrial_reliability_p.Worker.Silence.{outputs_of}
use industrial_reliability_p.Worker.Contained.{run-Contained}
use industrial_reliability_p.Tests.Toy.{toy, hash_a, hash_b}

abbrev at : ℕ → Datetime
at n = record { tick = n * 1000000; aware = false }

abbrev feature : FeatureVectorV1 ℕ
feature = record {
  message_id = 4;
  replay_session_id = 7;
  source_dataset_sha256 = hash_a;
  contract_sha256 = hash_b;
  source_timestamp = at 1800;
  emitted_at = record { tick = 9; aware = true };
  window_id = 4;
  machine_id = "metropt-compressor-01";
  window_start = at 0;
  window_end = at 1800;
  feature_names = "tp2_mean" ∷ [];
  feature_values = 3 ∷ [];
  coverage = record { observations_by_bin = []; bin_ends = [] };
}

abbrev decision : ScoreDecisionV1 ℕ
decision = record {
  message_id = 5;
  replay_session_id = 7;
  source_dataset_sha256 = hash_a;
  contract_sha256 = hash_b;
  source_timestamp = at 1800;
  emitted_at = record { tick = 9; aware = true };
  decision_id = 5;
  window_id = 4;
  model_version = "m1";
  score = 2;
  threshold = 3;
  is_anomaly = false;
  evidence_vector = [];
}

abbrev decode_response : String → Option (ScoreDecisionV1 ℕ)
decode_response content = some decision

-- the service is overloaded once and then answers
abbrev reply : ℕ → Reply
reply zero = response 503 "busy"
reply (suc n) = response 200 "{}"

score-Settled_example :
    Settled "m1" decode_response reply feature 0 3
      (score "m1" decode_response default_retry_policy reply feature)
    ⊎ Exhausted "m1" decode_response reply feature 0 3
        (score "m1" decode_response default_retry_policy reply feature)
score-Settled_example =
    score-Settled "m1" decode_response default_retry_policy reply feature (omega arith)
      (omega arith)

scores_at_second : score "m1" decode_response default_retry_policy reply feature ≡ ok decision
unfolding score score_from attempt_outcome validated_decision checked_decision
scores_at_second = refl

abbrev settings : WorkerSettings
settings = record {
  model_version = "m1";
  source_dataset_sha256 = hash_a;
  contract_sha256 = hash_b;
  feature_names = "tp2_mean" ∷ [];
}

-- an event of another contract
abbrev foreign_event : TelemetryEventV1 ℕ
foreign_event = record {
  message_id = 10;
  replay_session_id = 7;
  source_dataset_sha256 = hash_a;
  contract_sha256 = hash_a;
  source_timestamp = at 10;
  emitted_at = record { tick = 1; aware = true };
  machine_id = "metropt-compressor-01";
  sequence = 1;
  analog = 1 ∷ 2 ∷ 3 ∷ 4 ∷ 5 ∷ 60 ∷ 7 ∷ [];
  digital = 0 ∷ 1 ∷ 0 ∷ 1 ∷ 0 ∷ 1 ∷ 0 ∷ 1 ∷ [];
}

abbrev status : ReplayStatusV1
status = record {
  message_id = 20;
  replay_session_id = 7;
  source_dataset_sha256 = hash_a;
  contract_sha256 = hash_b;
  source_timestamp = at 20;
  emitted_at = record { tick = 1; aware = true };
  state = completed;
  last_sequence = some 2;
  error_code = none;
}

abbrev codecs : Codecs ℕ
codecs = record {
  decode_telemetry = λ value.
      if str_eq value "foreign"
      then message foreign_event
      else if str_eq value "own"
      then message (record foreign_event { contract_sha256 = hash_b })
      else unreadable "not JSON";
  decode_status = λ value. message status;
  decode_response = decode_response;
}

abbrev outside : Outside ℕ
outside = record { quarantine_id = 30; status_id = 31; now = 5; reply = λ f n. reply n }

abbrev telemetry : String → ℕ → KafkaRecord
telemetry value offset = record {
  value = value;
  topic = telemetry_topic;
  partition = 0;
  offset = offset;
}

abbrev records : List (Outside ℕ × KafkaRecord)
records =
    (outside, telemetry "own" 0)
    ∷ (outside, record { value = "s"; topic = replay_status_topic; partition = 0; offset = 0 })
    ∷ (outside, telemetry "foreign" 1)
    ∷ (outside, telemetry "broken" 2)
    ∷ []

run-Sent_example : Sent toy settings (run toy settings codecs records new_worker).0.effects
run-Sent_example = run-Sent toy settings codecs records

abbrev refusals : List (Outside ℕ × KafkaRecord)
refusals = (outside, telemetry "foreign" 1) ∷ []

-- the event of another contract fails its session, and two messages are sent
fails_session :
    (has 7 (run toy settings codecs refusals new_worker).0.failed_sessions ≡ true)
    × (length (run toy settings codecs refusals new_worker).0.effects ≡ 2)
unfolding run handle_record handle_telemetry_record handle_decoded_event handle_event
    publish_quarantine fail_session validate_quarantine validate_status validate_envelope is_hex64
    char_count get
fails_session = (refl, refl)

run-Contained_example :
    (outputs_of 7
        (run toy settings codecs records (run toy settings codecs refusals new_worker).0).0.effects
      ≡ outputs_of 7 (run toy settings codecs refusals new_worker).0.effects)
    × (has 7
          (run toy settings codecs records
            (run toy settings codecs refusals new_worker).0).0.failed_sessions
        ≡ true)
run-Contained_example = run-Contained toy settings codecs 7 refusals records fails_session.0
