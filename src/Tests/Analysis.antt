-- ===== src/Tests/Analysis.antt =====
-- The analysis of a sensor at concrete inputs.
use industrial_reliability_p.Base.{
  ℕ, ◌+◌, ◌*◌, ◌≡◌, refl, Option, none, some, List, [], ◌∷◌, map, Result, ok, err,
}
use industrial_reliability_p.Lab.Contracts.{flow, at_pipe, Sensor}
use industrial_reliability_p.Lab.Sensors.{good, missing, Observation}
use industrial_reliability_p.Lab.Analysis.{
  AlertKind, above_limit, missing_data, LabAlertState, opened, resolved, SensorAnalysisState,
  new_analysis, Emission, NewIds, Analysis, evaluate_bad, open_process, evaluate_limits,
  evaluate_value, evaluate_sensor_observation, evaluate_all,
}
use industrial_reliability_p.Lab.Analysis.Register.{follow, register_of, evaluate_all-follow}
use industrial_reliability_p.Tests.Toy.{toy}

abbrev sensor : Sensor ℕ
sensor = record {
  sensor_id = 20;
  kind = flow;
  target = at_pipe 10;
  noise_std = 0;
  alarm_low = none;
  alarm_high = some 100;
}

-- the identifiers and the observation of a tick
abbrev reading : ℕ → Option ℕ → NewIds × Observation ℕ
reading n value = (
  record { alert_id = 100 + n; first_event_id = 200 + n; second_event_id = 300 + n },
  record {
    run_id = 7;
    asset_id = 10;
    sensor_id = 20;
    tick = n * 20;
    unit = "kg/s";
    value = value;
    quality = elim value [ none ↦ missing | some x ↦ good ];
    profile_digest = "p";
  },
)

-- three values above the limit, two that are missing, and five inside
abbrev readings : List (NewIds × Observation ℕ)
readings =
    reading 1 (some 200)
    ∷ reading 2 (some 200)
    ∷ reading 3 (some 200)
    ∷ reading 4 none
    ∷ reading 5 none
    ∷ reading 6 (some 50)
    ∷ reading 7 (some 50)
    ∷ reading 8 (some 50)
    ∷ reading 9 (some 50)
    ∷ reading 10 (some 50)
    ∷ []

abbrev answer : Result (Analysis ℕ)
answer = evaluate_all toy sensor readings (new_analysis 20)

abbrev last_of : Result (Analysis ℕ) → SensorAnalysisState ℕ
last_of (ok (last, emitted)) = last
last_of (err e) = new_analysis 20

abbrev emitted_of : Result (Analysis ℕ) → List Emission
emitted_of (ok (last, emitted)) = emitted
emitted_of (err e) = []

answers : answer ≡ ok (last_of answer, emitted_of answer)
unfolding evaluate_all evaluate_sensor_observation evaluate_bad evaluate_value evaluate_limits
    open_process
answers = refl

evaluate_all-follow_example :
    follow (emitted_of answer) (none, none) ≡ some (register_of (last_of answer))
evaluate_all-follow_example =
    evaluate_all-follow toy sensor readings (last_of answer) (emitted_of answer) answers

abbrev summary : Emission → AlertKind × LabAlertState
summary e = (e.alert.kind, e.alert.state)

-- both alerts open, and close in the order in which enough good values are seen
opens_and_closes :
    map summary (emitted_of answer)
    ≡ (above_limit, opened)
      ∷ (missing_data, opened)
      ∷ (missing_data, resolved)
      ∷ (above_limit, resolved)
      ∷ []
unfolding evaluate_all evaluate_sensor_observation evaluate_bad evaluate_value evaluate_limits
    open_process
opens_and_closes = refl
