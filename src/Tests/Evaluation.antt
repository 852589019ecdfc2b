-- ===== src/Tests/Evaluation.antt =====
-- The evaluation at concrete inputs.
use industrial_reliability_p.Base.{
  ℕ, map, ◌*◌, ◌≡◌, ◌↔◌, refl, true, false, none, List, [], ◌∷◌, length, Bool, Result, ok, err,
}
use industrial_reliability_p.Platform.{Datetime}
use industrial_reliability_p.Evaluation.Scores.{
  EvaluationPolicy, Score, validate_contract, validate_threshold, validated_scores, increasing,
  is_anomaly,
}
use industrial_reliability_p.Evaluation.Episodes.{
  Episode, merge_ends, episodes_of, anomalous_ends, build_episodes,
}
use industrial_reliability_p.Evaluation.Episodes.Runs.{AreRuns, episodes_of-AreRuns}
use industrial_reliability_p.Evaluation.Events.{
  Event, in_horizon, in_source, episode_matches_event, check_events, validated_events,
  check_episodes, validated_episodes,
}
use industrial_reliability_p.Evaluation.Evaluate.{
  EvaluationResult, evaluate, evaluate_events, count_if, mark, first_detection,
}
use industrial_reliability_p.Evaluation.Evaluate.Accepted.{build_episodes-validated}
use industrial_reliability_p.Evaluation.Evaluate.Bounds.{InBounds, evaluate-InBounds, detected_none}
use industrial_reliability_p.Tests.Toy.{toy}

abbrev at : ℕ → Datetime
at n = record { tick = n * 1000000; aware = false }

abbrev contract : EvaluationPolicy ℕ
contract = record {
  stride_seconds = 300;
  event_horizon_seconds = 600;
  threshold_quantile = 1;
  threshold_method = "linear";
  anomaly_inclusive = true;
  min_detected_events = 1;
  max_false_episodes_per_day = 1000;
  max_time_in_alert = 1;
}

abbrev row : ℕ → ℕ → Score ℕ
row n score = record { window_start = at n; window_end = at (n * 300); score = score }

abbrev scores : List (Score ℕ)
scores = row 1 9 ∷ row 2 9 ∷ row 3 1 ∷ row 4 9 ∷ row 5 1 ∷ row 6 1 ∷ row 7 1 ∷ []

abbrev episode : ℕ → ℕ → ℕ → Episode
episode first last count = record {
  detection_time = at first;
  last_detection_time = at last;
  decision_count = count;
}

abbrev episodes : List Episode
episodes = episode 300 600 2 ∷ episode 1200 1200 1 ∷ []

abbrev failure : Event
failure = record {
  event_id = "air-leak";
  failure_type = "leak";
  source_start = at 1300;
  source_end = at 1700;
  source_precision = "minute";
  paper_count = 1;
  local_lps_transition = none;
  disagreement = none;
}

abbrev precision : List Bool → List ℕ → ℕ
precision marks values = 0

episodes_of-AreRuns_example :
    AreRuns 300 (at 300 ∷ at 600 ∷ at 1200 ∷ []) (episodes_of 300 (at 300 ∷ at 600 ∷ at 1200 ∷ []))
episodes_of-AreRuns_example = episodes_of-AreRuns 300 (at 300 ∷ at 600 ∷ at 1200 ∷ [])

built : build_episodes toy scores 5 contract ≡ ok episodes
unfolding build_episodes validate_contract validate_threshold validated_scores increasing
    anomalous_ends is_anomaly episodes_of merge_ends
built = refl

build_episodes-validated_example : validated_episodes episodes ≡ ok episodes
build_episodes-validated_example = build_episodes-validated toy scores 5 contract episodes built

abbrev outcome : Result (EvaluationResult ℕ) → EvaluationResult ℕ → EvaluationResult ℕ
outcome (err e) r = r
outcome (ok s) r = s

abbrev nothing : EvaluationResult ℕ
nothing = record {
  threshold = 0;
  valid_holdout_decisions = 0;
  positive_decisions = 0;
  anomalous_decisions = 0;
  normal_valid_decisions = 0;
  normal_exposure_days = 0;
  time_in_alert = 0;
  pr_auc = 0;
  detected_events = 0;
  total_events = 0;
  false_episodes = 0;
  false_episodes_per_day = 0;
  event_results = [];
  feasible = false;
}

unfoldable result : EvaluationResult ℕ
result = outcome (evaluate toy precision scores episodes 5 (failure ∷ []) contract) nothing

evaluated : evaluate toy precision scores episodes 5 (failure ∷ []) contract ≡ ok result
unfolding result evaluate validate_contract validate_threshold validated_scores increasing
    validated_events check_events validated_episodes check_episodes evaluate_events count_if mark
    first_detection in_horizon in_source is_anomaly episode_matches_event
evaluated = refl

evaluate-InBounds_example :
    InBounds toy contract
      (map (λ (row : Score ℕ). row.window_end) scores)
      episodes
      (failure ∷ [])
      result
evaluate-InBounds_example =
    evaluate-InBounds toy precision scores episodes 5 (failure ∷ []) contract result evaluated

detected_none_example : (result.detected_events ≡ 0) ↔ (result.false_episodes ≡ length episodes)
detected_none_example =
    detected_none toy precision scores episodes 5 (failure ∷ []) contract result evaluated

-- one event is detected, by the second episode; the first one is false
detects : result.detected_events ≡ 1
unfolding result evaluate validate_contract validate_threshold validated_scores increasing
    validated_events check_events validated_episodes check_episodes evaluate_events count_if mark
    first_detection in_horizon in_source is_anomaly episode_matches_event
detects = refl
