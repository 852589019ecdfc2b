-- ===== src/Evaluation/Evaluate/Bounds.antt =====
-- The counts of `evaluate` of src/industrial_reliability/evaluation.py.
use industrial_reliability_p.Base.{
  map, [], ◌∷◌, length-map, ◌+◌, ◌≤◌, ◌<◌, ◌≡◌, ◌↔◌, refl, sym, ap, ◌∙◌, subst, Bool, List, any,
  All, length, arith, ok,
}
use industrial_reliability_p.Platform.{Datetime, Platform}
use industrial_reliability_p.Evaluation.Scores.{EvaluationPolicy, Score, is_anomaly}
use industrial_reliability_p.Evaluation.Episodes.{Episode}
use industrial_reliability_p.Evaluation.Events.{Event, in_horizon, episode_matches_event}
use industrial_reliability_p.Evaluation.Evaluate.{
  EventResult, EvaluationResult, count_if, is_false_episode, evaluate,
}
use industrial_reliability_p.Evaluation.Evaluate.Accepted.{validated_scores-ends}
use industrial_reliability_p.Evaluation.Evaluate.Counts.{
  count_if_le_length, count_if-map, count_if_cong, count_if-any, count_if-not, any_swap,
  first_detection-any,
}
use industrial_reliability_p.Evaluation.Evaluate.Outcome.{
  Counted, in_some_horizon, result_of, evaluate-Evaluated,
}

module _ (P : Platform) where
  open P use {Float}

  -- the results, one for each event in order
  abbrev pub Answered :
      EvaluationPolicy Float
      → List Datetime
      → List Episode
      → List Event
      → List (EventResult Float)
      → Type 0
  Answered contract ends episodes [] results = results ≡ []
  Answered contract ends episodes (event ∷ events) [] = ⊥
  Answered contract ends episodes (event ∷ events) (r ∷ results) =
      ((r.event_id ≡ event.event_id)
        × (r.matching_horizon_valid_decisions
            ≡ count_if (in_horizon contract.event_horizon_seconds event) ends)
        × Counted P (length ends) r
        × (r.detected ≡ any (episode_matches_event contract event) episodes))
      × Answered contract ends episodes events results

  pair_each_outcome :
      (contract : EvaluationPolicy Float) (ends : List Datetime) (episodes : List Episode)
      (events : List Event)
      → All (Counted P (length ends)) (map (result_of P contract ends episodes) events)
      → Answered contract ends episodes events (map (result_of P contract ends episodes) events)
  pair_each_outcome contract ends episodes [] counted = refl
  pair_each_outcome contract ends episodes (event ∷ events) (first, later) = (
    (refl, refl, first, first_detection-any (episode_matches_event contract event) episodes),
    pair_each_outcome contract ends episodes events later,
  )

  -- what a result says of the decisions, the episodes and the events that were evaluated
  abbrev pub InBounds :
      EvaluationPolicy Float
      → List Datetime
      → List Episode
      → List Event
      → EvaluationResult Float
      → Type 0
  InBounds contract ends episodes events r =
      (r.valid_holdout_decisions ≡ length ends)
      × (r.positive_decisions ≡ count_if (in_some_horizon P contract events) ends)
      × (r.positive_decisions + r.normal_valid_decisions ≡ length ends)
      × (0 < r.normal_valid_decisions)
      × (r.anomalous_decisions ≤ length ends)
      × (r.total_events ≡ length events)
      × (r.detected_events ≤ length events)
      × (r.false_episodes ≤ length episodes)
      × Answered contract ends episodes events r.event_results

  module _ (average_precision : List Bool → List Float → Float) (scores : List (Score Float))
      (episodes : List Episode) (threshold : Float) (events : List Event)
      (contract : EvaluationPolicy Float) (r : EvaluationResult Float) where
    -- Where `evaluate` returns, the valid decisions are the rows of the frame; the positive ones are those in the
    -- horizon of some event, and with the normal ones they add up to the valid ones, of which there is a normal
    -- one; the anomalous ones are at most as many as the valid ones; the total is the number of events that were
    -- given, at most as many are detected, and at most as many episodes are false as there are episodes. There is
    -- one result for each event, in the order of the events and with its id: it counts the decisions in the
    -- horizon of the event, of which there is one, at most the valid ones and at least those in its source
    -- interval, and the event is detected exactly if some episode matches it.
    pub evaluate-InBounds :
        evaluate P average_precision scores episodes threshold events contract ≡ ok r
        → InBounds contract (map (λ (row : Score Float). row.window_end) scores) episodes events r
    evaluate-InBounds h =
        let (ends, values, positive, results, valid, marks, (marked, made, counted), normal, same) =
          evaluate-Evaluated P average_precision scores episodes threshold events contract r h in
        let frame = validated_scores-ends P scores ends values valid in
        let size : length scores ≡ length ends =
          sym (ap length frame.0 ∙ length-map (λ (row : Score Float). row.window_end) scores) in
        let size_values : length values ≡ length scores =
          ap length frame.1 ∙ length-map (λ (row : Score Float). row.score) scores in
        let some_results : length results ≡ length events =
          ap length made ∙ length-map (result_of P contract ends episodes) events in
        let positives : count_if (λ b. b) positive
            ≡ count_if (in_some_horizon P contract events) ends =
          ap (count_if (λ b. b)) marks
          ∙ count_if-map (in_some_horizon P contract events) (λ b. b) ends in
        let fewer = count_if_le_length (λ b. b) positive in
        let anomalies = count_if_le_length (is_anomaly P threshold contract) values in
        let detected = count_if_le_length (λ (r : EventResult Float). r.detected) results in
        let false_ones = count_if_le_length (is_false_episode P contract events) episodes in
        subst (λ l. InBounds contract l episodes events r) frame.0
          (subst (InBounds contract ends episodes events) same (
            refl,
            positives,
            omega (arith, fewer, marked),
            normal,
            omega (arith, anomalies, size_values, size),
            refl,
            omega (arith, detected, some_results),
            false_ones,
            subst (Answered contract ends episodes events) (sym made) (
                pair_each_outcome contract ends episodes events
                  (subst (All (Counted P (length ends))) made counted)),
          ))

    -- Where `evaluate` returns, it has detected no event exactly if every episode is false.
    pub detected_none :
        evaluate P average_precision scores episodes threshold events contract ≡ ok r
        → (r.detected_events ≡ 0) ↔ (r.false_episodes ≡ length episodes)
    detected_none h =
        let (ends, values, positive, results, valid, marks, looped, normal, same) =
          evaluate-Evaluated P average_precision scores episodes threshold events contract r h in
        let matches : Event → Episode → Bool =
          λ event episode. episode_matches_event contract event episode in
        let found : Event → Bool = λ event. any (matches event) episodes in
        let detected : count_if (λ (r : EventResult Float). r.detected) results
            ≡ count_if found events =
          ap (count_if (λ (r : EventResult Float). r.detected)) looped.1
          ∙ count_if-map (result_of P contract ends episodes)
              (λ (r : EventResult Float). r.detected) events
          ∙ count_if_cong _ found events (λ event. first_detection-any (matches event) episodes) in
        let swapped : any found events
            ≡ any (λ episode. any (λ event. matches event episode) events) episodes =
          any_swap matches events episodes in
        let undetected = count_if-any found events in
        let all_false =
          count_if-not (λ episode. any (λ event. matches event episode) events) episodes in
        subst
          (λ (s : EvaluationResult Float).
            (s.detected_events ≡ 0) ↔ (s.false_episodes ≡ length episodes))
          same (ground (arith, detected, swapped, undetected, all_false))
