-- ===== src/Evaluation/Evaluate/Outcome.antt =====
-- What `evaluate` of src/industrial_reliability/evaluation.py has computed where it returns.
use industrial_reliability_p.Base.{
  ℕ, any, ◌||◌, sym, ◌∙◌, length-map, ◌-◌, ◌≤◌, ◌<◌, ◌≡◌, refl, ap, subst, Bool, false, Option,
  List, [], ◌∷◌, map, All, length, ltb, arith, Bool-cases, Result-cases, inl, inr, ok,
}
use industrial_reliability_p.Platform.{Datetime, Platform}
use industrial_reliability_p.Evaluation.Scores.{
  EvaluationPolicy, Score, validate_contract, validate_threshold, validated_scores,
}
use industrial_reliability_p.Evaluation.Episodes.{Episode}
use industrial_reliability_p.Evaluation.Events.{
  Event, in_horizon, in_source, episode_matches_event, validated_events, validated_episodes,
}
use industrial_reliability_p.Evaluation.Evaluate.{
  EventResult, EvaluationResult, count_if, mark, first_detection, event_result, evaluate_events,
  summarise, evaluate,
}
use industrial_reliability_p.Evaluation.Evaluate.Counts.{
  count_if_le_length, count_if_mono, length-mark, in_source-in_horizon, map_or_false, map_or_assoc,
  mark-map,
}

module _ (P : Platform) where
  open P use {Float}

  -- the counts of one event, among `valid` decisions
  abbrev pub Counted : ℕ → EventResult Float → Type 0
  Counted valid r =
      (0 < r.matching_horizon_valid_decisions)
      × (r.source_interval_valid_decisions ≤ r.matching_horizon_valid_decisions)
      × (r.matching_horizon_valid_decisions ≤ valid)

  abbrev pub result_of :
      EvaluationPolicy Float → List Datetime → List Episode → Event → EventResult Float
  result_of contract ends episodes event =
      event_result P contract ends (first_detection (episode_matches_event contract event) episodes)
        event

  event_result-Counted :
      (contract : EvaluationPolicy Float) (ends : List Datetime) (detection : Option Datetime)
      (event : Event)
      → 0 < count_if (in_horizon contract.event_horizon_seconds event) ends
      → Counted (length ends) (event_result P contract ends detection event)
  event_result-Counted contract ends detection event h = (
    h,
    count_if_mono (in_source event) (in_horizon contract.event_horizon_seconds event) ends
        (in_source-in_horizon contract.event_horizon_seconds event),
    count_if_le_length (in_horizon contract.event_horizon_seconds event) ends,
  )

  -- what the loop over the events returns
  abbrev Looped :
      EvaluationPolicy Float
      → List Datetime
      → List Episode
      → List Event
      → List Bool × List (EventResult Float)
      → Type 0
  Looped contract ends episodes events (marked, results) =
      (length marked ≡ length ends)
      × (results ≡ map (result_of contract ends episodes) events)
      × All (Counted (length ends)) results

  evaluate_events-Looped :
      (contract : EvaluationPolicy Float) (ends : List Datetime) (episodes : List Episode)
      (positive : List Bool) (events : List Event) (out : List Bool × List (EventResult Float))
      → evaluate_events P contract ends episodes positive events ≡ ok out
      → length positive ≡ length ends
      → Looped contract ends episodes events out
  unfolding evaluate_events
  evaluate_events-Looped contract ends episodes positive [] out h len =
      let same : (positive, []) ≡ out = cc in
      subst (Looped contract ends episodes []) same (len, refl, tt)
  evaluate_events-Looped contract ends episodes positive (event ∷ events) out h len =
      let matching = in_horizon contract.event_horizon_seconds event in
      let rest = evaluate_events P contract ends episodes (mark matching ends positive) events in
      elim (Bool-cases (ltb 0 (count_if matching ends))) [
        | inr none_matches ↦ absurd (ground arith)
        | inl some_match ↦ elim (Result-cases rest) [
          | inr (e, failed) ↦ absurd (ground arith)
          | inl ((marked, results), done) ↦
              let before =
                evaluate_events-Looped contract ends episodes (mark matching ends positive) events
                  (marked, results) done (length-mark matching ends positive len) in
              let first = result_of contract ends episodes event in
              let same : (marked, first ∷ results) ≡ out = ground arith in
              subst (Looped contract ends episodes (event ∷ events)) same (
                before.0,
                ap (λ rs. first ∷ rs) before.1,
                (
                  event_result-Counted contract ends
                      (first_detection (episode_matches_event contract event) episodes) event
                      (ground arith),
                  before.2,
                ),
              )
        ]
      ]

  -- a decision is positive where it is in the horizon of an event
  abbrev pub in_some_horizon : EvaluationPolicy Float → List Event → Datetime → Bool
  in_some_horizon contract events t =
      any (λ event. in_horizon contract.event_horizon_seconds event t) events

  evaluate_events-marks :
      (contract : EvaluationPolicy Float) (ends : List Datetime) (episodes : List Episode)
      (f : Datetime → Bool) (events : List Event) (out : List Bool × List (EventResult Float))
      → evaluate_events P contract ends episodes (map f ends) events ≡ ok out
      → out.0 ≡ map (λ t. f t || in_some_horizon contract events t) ends
  unfolding evaluate_events
  evaluate_events-marks contract ends episodes f [] out h =
      let same : map f ends ≡ out.0 = ground arith in sym same ∙ map_or_false f ends
  evaluate_events-marks contract ends episodes f (event ∷ events) out h =
      let matching = in_horizon contract.event_horizon_seconds event in
      let rest =
        evaluate_events P contract ends episodes (mark matching ends (map f ends)) events in
      elim (Bool-cases (ltb 0 (count_if matching ends))) [
        | inr none_matches ↦ absurd (ground arith)
        | inl some_match ↦ elim (Result-cases rest) [
          | inr (e, failed) ↦ absurd (ground arith)
          | inl ((marked, results), done) ↦
              let same : marked ≡ out.0 = ground arith in
              let behind =
                evaluate_events-marks contract ends episodes (λ t. f t || matching t) events
                  (marked, results)
                  (subst
                    (λ marks.
                      evaluate_events P contract ends episodes marks events ≡ ok (marked, results))
                    (mark-map matching f ends) done) in
              sym same ∙ behind ∙ map_or_assoc f matching (in_some_horizon contract events) ends
        ]
      ]

  validated_events_same :
      (events checked : List Event) → validated_events events ≡ ok checked → checked ≡ events
  unfolding validated_events
  validated_events_same [] checked h = absurd (cc)
  validated_events_same (event ∷ events) checked h = ground arith

  validated_episodes_same :
      (episodes checked : List Episode)
      → validated_episodes episodes ≡ ok checked
      → checked ≡ episodes
  unfolding validated_episodes
  validated_episodes_same episodes checked h = ground arith

  -- what `evaluate` has found where it returns
  abbrev pub Evaluated :
      (List Bool → List Float → Float)
      → List (Score Float)
      → List Episode
      → Float
      → List Event
      → EvaluationPolicy Float
      → EvaluationResult Float
      → Type 0
  Evaluated average_precision scores episodes threshold events contract r =
      (ends : List Datetime) × (values : List Float) × (positive : List Bool) × (results : List
        (EventResult Float))
      × (validated_scores P scores ≡ ok (ends, values))
      × (positive ≡ map (in_some_horizon contract events) ends)
      × Looped contract ends episodes events (positive, results)
      × (0 < length ends - count_if (λ b. b) positive)
      × (summarise P average_precision contract threshold ends values events episodes positive
            results
          ≡ r)

  pub evaluate-Evaluated :
      (average_precision : List Bool → List Float → Float) (scores : List (Score Float))
      (episodes : List Episode) (threshold : Float) (events : List Event)
      (contract : EvaluationPolicy Float) (r : EvaluationResult Float)
      → evaluate P average_precision scores episodes threshold events contract ≡ ok r
      → Evaluated average_precision scores episodes threshold events contract r
  unfolding evaluate validate_contract validate_threshold
  evaluate-Evaluated average_precision scores episodes threshold events contract r h =
      elim (Result-cases (validated_scores P scores)) [
        | inr (e, failed) ↦ absurd (ground arith)
        | inl ((ends, values), valid) ↦ elim (Result-cases (validated_events events)) [
          | inr (e, failed) ↦ absurd (ground arith)
          | inl (checked, events_valid) ↦ elim (Result-cases (validated_episodes episodes)) [
            | inr (e, failed) ↦ absurd (ground arith)
            | inl (ordered, episodes_valid) ↦
                let same_events = validated_events_same events checked events_valid in
                let same_episodes = validated_episodes_same episodes ordered episodes_valid in
                let start : List Bool = map (λ t. false) ends in
                elim (Result-cases (evaluate_events P contract ends episodes start events)) [
                  | inr (e, failed) ↦ absurd (ground arith)
                  | inl ((positive, results), done) ↦ (
                    ends,
                    values,
                    positive,
                    results,
                    valid,
                    evaluate_events-marks contract ends episodes (λ t. false) events
                        (positive, results) done,
                    evaluate_events-Looped contract ends episodes start events (positive, results)
                        done (length-map (λ t. false) ends),
                    ground arith,
                    ground arith,
                  )
                ]
          ]
        ]
      ]
