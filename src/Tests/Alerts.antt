-- ===== src/Tests/Alerts.antt =====
-- The alert lifecycle at concrete inputs.
use industrial_reliability_p.Base.{
  ℕ, ◌*◌, ◌≡◌, refl, Bool, true, false, some, List, [], ◌∷◌, arith, ok,
}
use industrial_reliability_p.Platform.{Datetime}
use industrial_reliability_p.Messages.{ScoreDecisionV1}
use industrial_reliability_p.Messages.Validate.{is_hex64, char_count}
use industrial_reliability_p.Alert.Model.{LockedAlertPolicyV1, AlertState, Draw, empty}
use industrial_reliability_p.Alert.State.{transition}
use industrial_reliability_p.Alert.State.Emit.{IsAccepted}
use industrial_reliability_p.Alert.State.Invariant.{IsWellFormed, Keeps, transition_total}
use industrial_reliability_p.Alert.State.Lifecycle.{Lifecycle, transition-Lifecycle}
use industrial_reliability_p.Alert.Policy.{
  simulate_alert_stream, simulate_rows, simulate_row, ScoreRow, candidates, select_policy,
  only_calibration,
}
use industrial_reliability_p.Alert.Policy.Select.{FirstPass, select_policy-FirstPass}
use industrial_reliability_p.Alert.Agreement.{run_alerts, rows_of, simulation_counts_alerts}
use industrial_reliability_p.Tests.Toy.{toy, hash_a, hash_b}

abbrev pub minute : ℕ → Datetime
minute n = record { tick = n * 60000000; aware = false }

abbrev pub policy : LockedAlertPolicyV1 ℕ
policy = record {
  source_split = "calibration";
  source_scores_sha256 = hash_a;
  source_dataset_sha256 = hash_a;
  contract_sha256 = hash_b;
  model_id = "m";
  model_version = "m-v1";
  threshold = 5;
  stride_seconds = 300;
  persistence_decisions = 2;
  cooldown_decisions = 1;
  merge_gap_seconds = 900;
  calibration_false_episodes_per_day = 0;
  calibration_time_in_alert = 0;
  policy_sha256 = hash_b;
}

abbrev pub decision : ℕ → Bool → ScoreDecisionV1 ℕ
decision n anomaly = record {
  message_id = n;
  replay_session_id = 7;
  source_dataset_sha256 = hash_a;
  contract_sha256 = hash_b;
  source_timestamp = minute (5 * n);
  emitted_at = record { tick = 0; aware = true };
  decision_id = n;
  window_id = n;
  model_version = "m-v1";
  score = n;
  threshold = 5;
  is_anomaly = anomaly;
  evidence_vector =
      record { feature_name = "tp2_mean"; feature_value = 3; robust_deviation = 1 } ∷ [];
}

abbrev pub draw : Draw
draw = record {
  event_message_id = 11;
  event_emitted_at = 1;
  evidence_message_id = 12;
  evidence_emitted_at = 2;
}

decision-IsAccepted : (n : ℕ) (anomaly : Bool) → IsAccepted toy (decision n anomaly)
unfolding is_hex64 char_count
decision-IsAccepted n anomaly = record {
  dataset_hash = refl;
  contract_hash = refl;
  naive = refl;
  version = omega arith;
  deviations = (
    record {
      named = omega arith;
      nonnegative = refl;
      observed = refl;
      baseline = refl;
      absolute = refl;
    },
    tt,
  );
}

abbrev stream : List (Draw × ScoreDecisionV1 ℕ)
stream =
    (draw, decision 1 true)
    ∷ (draw, decision 2 true)
    ∷ (draw, decision 3 false)
    ∷ (draw, decision 4 true)
    ∷ (draw, decision 5 true)
    ∷ (draw, decision 6 false)
    ∷ []

-- one episode (the second trigger is within the merge gap), three windows in alert
stream_counts : simulate_alert_stream 2 1 900 (rows_of toy policy stream) ≡ (1, 2)
unfolding simulate_alert_stream simulate_rows simulate_row
stream_counts = refl

simulation_counts_alerts_example :
    run_alerts toy policy (empty 7 "metropt3") (0, 0) stream
    ≡ ok (simulate_alert_stream 2 1 900 (rows_of toy policy stream))
unfolding is_hex64 char_count
simulation_counts_alerts_example =
    simulation_counts_alerts toy policy 7 "metropt3" stream refl (omega arith) (
      decision-IsAccepted 1 true,
      refl,
      refl,
      (
        decision-IsAccepted 2 true,
        refl,
        refl,
        (
          decision-IsAccepted 3 false,
          refl,
          refl,
          (
            decision-IsAccepted 4 true,
            refl,
            refl,
            (decision-IsAccepted 5 true, refl, refl, (decision-IsAccepted 6 false, refl, refl, tt)),
          ),
        ),
      ),
    )

empty-IsWellFormed : IsWellFormed (empty 7 "metropt3")
unfolding char_count
empty-IsWellFormed = record { machine = omega arith; detections = tt; active = tt }

transition_total_example : Keeps (transition toy draw (empty 7 "metropt3") (decision 1 true) policy)
unfolding is_hex64
transition_total_example =
    transition_total toy draw policy (empty 7 "metropt3") (decision 1 true)
      (decision-IsAccepted 1 true) refl empty-IsWellFormed

-- the second anomalous decision in a row opens an alert
abbrev waiting : AlertState
waiting = record (empty 7 "metropt3") {
  anomaly_streak = 1;
  anomaly_decision_ids = 1 ∷ [];
  first_detection = some (minute 5);
  last_detection = some (minute 5);
  last_decision_id = some 1;
  last_source_timestamp = some (minute 5);
}

transition-Lifecycle_example :
    Lifecycle
      (decision 2 true).source_timestamp
      waiting
      (transition toy draw waiting (decision 2 true) policy)
transition-Lifecycle_example = transition-Lifecycle toy draw policy waiting (decision 2 true)

abbrev calm : List ScoreRow
calm =
    record {
      split = "calibration";
      window_start = minute 0;
      window_end = minute 5;
      is_anomaly = false;
    }
    ∷ []

select_policy-FirstPass_example :
    FirstPass toy (λ rows. rows) calm candidates (select_policy toy (λ rows. rows) calm false)
unfolding only_calibration
select_policy-FirstPass_example = select_policy-FirstPass toy (λ rows. rows) calm
