-- ===== src/Evaluation/Evaluate.antt =====
-- `evaluate` of src/industrial_reliability/evaluation.py. `average_precision_score` of scikit-learn is a
-- parameter.
pub mod Accepted
pub mod Counts
pub mod Outcome
pub mod Bounds
use industrial_reliability_p.Base.{
  ℕ, suc, ◌+◌, ◌-◌, ◌*◌, String, Bool, true, false, ◌&&◌, ◌||◌, not, Option, none, some, List, [],
  ◌∷◌, map, any, length, ltb, leb, ◌==◌, is_some, if◌then◌else◌, Result, ok, err, value_error,
  ◌>>=◌, ◌>>◌, require,
}
use industrial_reliability_p.Platform.{Datetime, Platform}
use industrial_reliability_p.Evaluation.Scores.{
  EvaluationPolicy, Score, validate_contract, validate_threshold, validated_scores, is_anomaly,
}
use industrial_reliability_p.Evaluation.Episodes.{Episode}
use industrial_reliability_p.Evaluation.Events.{
  Event, in_horizon, in_source, episode_matches_event, validated_events, validated_episodes,
}

pub record EventResult (F : Type 0) : Type 0 where
  pub event_id : String
  pub evaluable : Bool
  pub matching_horizon_valid_decisions : ℕ
  pub source_interval_valid_decisions : ℕ
  pub source_interval_coverage_seconds : ℕ
  pub detected : Bool
  pub first_detection_time : Option Datetime
  pub lead_seconds_to_source_start : Option F
  pub lead_seconds_to_local_lps : Option F

pub record EvaluationResult (F : Type 0) : Type 0 where
  pub threshold : F
  pub valid_holdout_decisions : ℕ
  pub positive_decisions : ℕ
  pub anomalous_decisions : ℕ
  pub normal_valid_decisions : ℕ
  pub normal_exposure_days : F
  pub time_in_alert : F
  pub pr_auc : F
  pub detected_events : ℕ
  pub total_events : ℕ
  pub false_episodes : ℕ
  pub false_episodes_per_day : F
  pub event_results : List (EventResult F)
  pub feasible : Bool

module _ {A : Type 0} where
  -- the length of the list of the items that pass, and `sum` of a list of Booleans
  unfoldable pub count_if : (A → Bool) → List A → ℕ
  count_if test [] = 0
  count_if test (x ∷ xs) = let rest = count_if test xs in if test x then rest + 1 else rest

-- `positive |= matching`
unfoldable pub mark : (Datetime → Bool) → List Datetime → List Bool → List Bool
mark test [] marks = []
mark test (end ∷ ends) [] = []
mark test (end ∷ ends) (m ∷ marks) = (m || test end) ∷ mark test ends marks

-- the earliest detection of the episodes that match
unfoldable pub first_detection : (Episode → Bool) → List Episode → Option Datetime
first_detection test [] = none
first_detection test (episode ∷ episodes) =
    let rest = first_detection test episodes in
    if test episode
    then elim rest [
      | none ↦ some episode.detection_time
      | some t ↦
          if ltb t.tick episode.detection_time.tick then some t else some episode.detection_time
    ]
    else rest

module _ (P : Platform) where
  open P use {Float, le, div, of_nat, seconds_between}

  -- `(event_time - first_detection).total_seconds()`, where there are both
  abbrev pub lead_seconds : Option Datetime → Option Datetime → Option Float
  lead_seconds none event_time = none
  lead_seconds (some t) none = none
  lead_seconds (some t) (some event_time) = some (seconds_between t event_time)

  abbrev pub event_result :
      EvaluationPolicy Float → List Datetime → Option Datetime → Event → EventResult Float
  event_result contract ends detection event =
      let source_count = count_if (in_source event) ends in
      record {
        event_id = event.event_id;
        evaluable = true;
        matching_horizon_valid_decisions =
            count_if (in_horizon contract.event_horizon_seconds event) ends;
        source_interval_valid_decisions = source_count;
        source_interval_coverage_seconds = source_count * contract.stride_seconds;
        detected = is_some detection;
        first_detection_time = detection;
        lead_seconds_to_source_start = lead_seconds detection (some event.source_start);
        lead_seconds_to_local_lps = lead_seconds detection event.local_lps_transition;
      }

  -- the loop over the events: the positive decisions, and the results
  unfoldable pub evaluate_events :
      EvaluationPolicy Float
      → List Datetime
      → List Episode
      → List Bool
      → List Event
      → Result (List Bool × List (EventResult Float))
  unfolding count_if mark first_detection
  evaluate_events contract ends episodes positive [] = ok (positive, [])
  evaluate_events contract ends episodes positive (event ∷ events) = do
    let matching : Datetime → Bool = in_horizon contract.event_horizon_seconds event
    require (ltb 0 (count_if matching ends)) value_error
    let detection : Option Datetime =
        first_detection (episode_matches_event contract event) episodes
    (marked, results) ← evaluate_events contract ends episodes (mark matching ends positive) events
    ok (marked, event_result contract ends detection event ∷ results)

  -- an episode that matches no event
  abbrev pub is_false_episode : EvaluationPolicy Float → List Event → Episode → Bool
  is_false_episode contract events episode =
      not (any (λ event. episode_matches_event contract event episode) events)

  -- what follows the loop
  abbrev pub summarise :
      (List Bool → List Float → Float)
      → EvaluationPolicy Float
      → Float
      → List Datetime
      → List Float
      → List Event
      → List Episode
      → List Bool
      → List (EventResult Float)
      → EvaluationResult Float
  summarise average_precision contract threshold ends values events episodes positive results =
      let valid_decisions = length ends in
      let positive_decisions = count_if (λ b. b) positive in
      let normal_decisions = valid_decisions - positive_decisions in
      let anomalous_decisions = count_if (is_anomaly P threshold contract) values in
      let normal_exposure_days =
        div (of_nat (normal_decisions * contract.stride_seconds)) (of_nat 86400) in
      let false_episodes = count_if (is_false_episode contract events) episodes in
      let false_episodes_per_day = div (of_nat false_episodes) normal_exposure_days in
      let time_in_alert = div (of_nat anomalous_decisions) (of_nat valid_decisions) in
      let detected_events = count_if (λ (r : EventResult Float). r.detected) results in
      record {
        threshold = threshold;
        valid_holdout_decisions = valid_decisions;
        positive_decisions = positive_decisions;
        anomalous_decisions = anomalous_decisions;
        normal_valid_decisions = normal_decisions;
        normal_exposure_days = normal_exposure_days;
        time_in_alert = time_in_alert;
        pr_auc = average_precision positive values;
        detected_events = detected_events;
        total_events = length events;
        false_episodes = false_episodes;
        false_episodes_per_day = false_episodes_per_day;
        event_results = results;
        feasible =
            leb contract.min_detected_events detected_events
            && le false_episodes_per_day contract.max_false_episodes_per_day
            && le time_in_alert contract.max_time_in_alert;
      }

  unfoldable pub evaluate :
      (List Bool → List Float → Float)
      → List (Score Float)
      → List Episode
      → Float
      → List Event
      → EvaluationPolicy Float
      → Result (EvaluationResult Float)
  unfolding evaluate_events count_if
  evaluate average_precision holdout_scores episodes threshold events contract = do
    validate_contract P contract
    threshold_value ← validate_threshold P threshold
    (ends, values) ← validated_scores P holdout_scores
    event_values ← validated_events events
    episode_values ← validated_episodes episodes
    (positive, results) ←
        evaluate_events contract ends episode_values (map (λ t. false) ends) event_values
    require (not (length ends - count_if (λ b. b) positive == 0)) value_error
    ok (
        summarise average_precision contract threshold_value ends values event_values episode_values
          positive results)
