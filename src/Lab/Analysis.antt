-- ===== src/Lab/Analysis.antt =====
-- `evaluate_sensor_observation` of src/industrial_reliability/lab/analysis.py. New identifiers are arguments. An alert
-- that is emitted and the event about it are one item of the result.
pub mod Register
use industrial_reliability_p.Base.{
  ℕ, ◌+◌, ◌-◌, String, Bool, true, false, ◌&&◌, ◌||◌, not, Option, none, some, List, [], ◌∷◌, ◌++◌,
  length, ltb, leb, is_some, if◌then◌else◌, Result, ok, err, validation_error, ◌>>=◌, ◌>>◌, require,
}
use industrial_reliability_p.Platform.{Uuid, Platform}
use industrial_reliability_p.Lab.Contracts.{SensorKind, Sensor, hysteresis}
use industrial_reliability_p.Lab.Sensors.{
  ObservationQuality, good, missing, invalid, Observation, target_id_of,
}

pub data AlertOrigin : Type 0 where
  process_limit data_quality ml : AlertOrigin

pub data AlertKind : Type 0 where
  below_limit above_limit missing_data invalid_data anomaly : AlertKind

pub data LabAlertState : Type 0 where
  opened resolved : LabAlertState

pub record LabAlert : Type 0 where
  pub alert_id : Uuid
  pub run_id : Uuid
  pub asset_id : Uuid
  pub sensor_id : Uuid
  pub origin : AlertOrigin
  pub kind : AlertKind
  pub state : LabAlertState
  pub first_tick : ℕ
  pub last_tick : ℕ
  pub resolved_tick : Option ℕ
  pub evidence_ids : List Uuid

pub record SensorAnalysisState (F : Type 0) : Type 0 where
  pub sensor_id : Uuid
  pub high_violations : ℕ
  pub low_violations : ℕ
  pub normal_streak : ℕ
  pub bad_quality_streak : ℕ
  pub good_quality_streak : ℕ
  pub active_process_alert : Option LabAlert
  pub active_quality_alert : Option LabAlert
  pub recent_observations : List (Observation F)

abbrev pub new_analysis : {F : Type 0} → Uuid → SensorAnalysisState F
new_analysis sensor_id = record {
  sensor_id = sensor_id;
  high_violations = 0;
  low_violations = 0;
  normal_streak = 0;
  bad_quality_streak = 0;
  good_quality_streak = 0;
  active_process_alert = none;
  active_quality_alert = none;
  recent_observations = [];
}

-- an alert with the id of the event that carries it
pub record Emission : Type 0 where
  pub event_id : Uuid
  pub alert : LabAlert

-- the identifiers that one call may draw
pub record NewIds : Type 0 where
  pub alert_id : Uuid
  pub first_event_id : Uuid
  pub second_event_id : Uuid

abbrev pub kind_of_quality : ObservationQuality → AlertKind
kind_of_quality missing = missing_data
kind_of_quality quality = invalid_data

abbrev pub is_good : ObservationQuality → Bool
is_good good = true
is_good quality = false

-- the state behind a call, and what it emits
abbrev pub Analysis : Type 0 → Type 0
Analysis F = SensorAnalysisState F × List Emission

abbrev pub resolve_alert_at : ℕ → LabAlert → LabAlert
resolve_alert_at tick alert = record alert {
  state = resolved;
  last_tick = tick;
  resolved_tick = some tick;
}

module _ {F : Type 0} where
  -- the window of the last 20 observations
  abbrev pub remember_observation : Observation F → List (Observation F) → List (Observation F)
  remember_observation obs [] = obs ∷ []
  remember_observation obs (oldest ∷ recent) =
      if ltb 20 (length (oldest ∷ (recent ++ obs ∷ [])))
      then recent ++ obs ∷ []
      else oldest ∷ (recent ++ obs ∷ [])

  abbrev pub open_alert : NewIds → Observation F → Sensor F → AlertOrigin → AlertKind → ℕ → LabAlert
  open_alert ids obs sensor origin kind window = record {
    alert_id = ids.alert_id;
    run_id = obs.run_id;
    asset_id = target_id_of sensor.target;
    sensor_id = sensor.sensor_id;
    origin = origin;
    kind = kind;
    state = opened;
    first_tick = obs.tick - window;
    last_tick = obs.tick;
    resolved_tick = none;
    evidence_ids = [];
  }

  -- a MISSING or INVALID observation; a window that starts before tick 0 is refused by the alert's model
  unfoldable pub evaluate_bad :
      NewIds → Observation F → Sensor F → SensorAnalysisState F → Result (Analysis F)
  evaluate_bad ids obs sensor s =
      let counted : SensorAnalysisState F = record s {
        bad_quality_streak = s.bad_quality_streak + 1;
        good_quality_streak = 0;
        normal_streak = 0;
      } in
      let alert = open_alert ids obs sensor data_quality (kind_of_quality obs.quality) 20 in
      if leb 2 (s.bad_quality_streak + 1) && not (is_some s.active_quality_alert)
      then (do
        require (leb 20 obs.tick) validation_error
        ok (
          record counted { active_quality_alert = some alert },
          record { event_id = ids.first_event_id; alert = alert } ∷ [],
        ))
      else ok (counted, [])

  -- the quality alert is resolved by the third good observation
  abbrev pub resolve_quality : NewIds → ℕ → SensorAnalysisState F → Option LabAlert → Analysis F
  resolve_quality ids tick s none = (s, [])
  resolve_quality ids tick s (some alert) =
      if leb 3 s.good_quality_streak
      then (
        record s { active_quality_alert = none; bad_quality_streak = 0 },
        record { event_id = ids.first_event_id; alert = resolve_alert_at tick alert } ∷ [],
      )
      else (s, [])

  -- a violation of a limit, with the state that counts it: the third one opens an alert
  unfoldable pub open_process :
      NewIds
      → Observation F
      → Sensor F
      → AlertKind
      → ℕ
      → SensorAnalysisState F
      → Result (Analysis F)
  open_process ids obs sensor kind violations s =
      let alert = open_alert ids obs sensor process_limit kind 40 in
      if leb 3 violations && not (is_some s.active_process_alert)
      then (do
        require (leb 40 obs.tick) validation_error
        ok (
          record s { active_process_alert = some alert },
          record { event_id = ids.second_event_id; alert = alert } ∷ [],
        ))
      else ok (s, [])

  -- the process alert is resolved by the fifth observation that is safely inside
  abbrev pub resolve_process : NewIds → ℕ → SensorAnalysisState F → Option LabAlert → Analysis F
  resolve_process ids tick s none = (s, [])
  resolve_process ids tick s (some alert) =
      if leb 5 s.normal_streak
      then (
        record s { active_process_alert = none },
        record { event_id = ids.second_event_id; alert = resolve_alert_at tick alert } ∷ [],
      )
      else (s, [])

module _ (P : Platform) where
  open P use {Float, lt, le, add, sub}

  abbrev pub exceeds : Option Float → Float → Bool
  exceeds none value = false
  exceeds (some high) value = lt high value

  abbrev pub falls_below : Option Float → Float → Bool
  falls_below none value = false
  falls_below (some low) value = lt value low

  abbrev pub near_high : Float → Option Float → Float → Bool
  near_high margin none value = false
  near_high margin (some high) value = le (sub high margin) value

  abbrev pub near_low : Float → Option Float → Float → Bool
  near_low margin none value = false
  near_low margin (some low) value = le value (add low margin)

  abbrev pub is_safely_inside : Sensor Float → Float → Bool
  is_safely_inside sensor value =
      let margin = hysteresis P sensor.kind in
      not (near_high margin sensor.alarm_high value) && not (near_low margin sensor.alarm_low value)

  -- the process limits
  unfoldable pub evaluate_limits :
      NewIds
      → Observation Float
      → Sensor Float
      → SensorAnalysisState Float
      → Float
      → Result (Analysis Float)
  unfolding open_process
  evaluate_limits ids obs sensor s value =
      if exceeds sensor.alarm_high value
      then open_process ids obs sensor above_limit (s.high_violations + 1) (record s {
        high_violations = s.high_violations + 1;
        low_violations = 0;
        normal_streak = 0;
      })
      else if falls_below sensor.alarm_low value
      then open_process ids obs sensor below_limit (s.low_violations + 1) (record s {
        low_violations = s.low_violations + 1;
        high_violations = 0;
        normal_streak = 0;
      })
      else if is_safely_inside sensor value
      then ok (
          let inside : SensorAnalysisState Float = record s {
            normal_streak = s.normal_streak + 1;
            high_violations = 0;
            low_violations = 0;
          } in
          resolve_process ids obs.tick inside inside.active_process_alert)
      else ok (s, [])

  -- behind the resolution of the quality alert, where there is a value
  unfoldable pub evaluate_value :
      NewIds
      → Observation Float
      → Sensor Float
      → Analysis Float
      → Option Float
      → Result (Analysis Float)
  unfolding evaluate_limits
  evaluate_value ids obs sensor (s, emitted) none = ok (s, emitted)
  evaluate_value ids obs sensor (s, emitted) (some value) = do
    (s', more) ← evaluate_limits ids obs sensor s value
    ok (s', emitted ++ more)

  -- a GOOD observation
  abbrev pub evaluate_good :
      NewIds
      → Observation Float
      → Sensor Float
      → SensorAnalysisState Float
      → Result (Analysis Float)
  evaluate_good ids obs sensor s =
      let counted : SensorAnalysisState Float = record s {
        good_quality_streak = s.good_quality_streak + 1;
      } in
      evaluate_value ids obs sensor
        (resolve_quality ids obs.tick counted counted.active_quality_alert) obs.value

  -- `evaluate_sensor_observation`
  unfoldable pub evaluate_sensor_observation :
      NewIds
      → Observation Float
      → Sensor Float
      → SensorAnalysisState Float
      → Result (Analysis Float)
  unfolding evaluate_bad evaluate_value
  evaluate_sensor_observation ids obs sensor s =
      let seen : SensorAnalysisState Float = record s {
        recent_observations = remember_observation obs s.recent_observations;
      } in
      if is_good obs.quality
      then evaluate_good ids obs sensor seen
      else evaluate_bad ids obs sensor seen

  -- a sequence of observations of a sensor
  unfoldable pub evaluate_all :
      Sensor Float
      → List (NewIds × Observation Float)
      → SensorAnalysisState Float
      → Result (Analysis Float)
  unfolding evaluate_sensor_observation
  evaluate_all sensor [] s = ok (s, [])
  evaluate_all sensor ((ids, obs) ∷ rest) s = do
    (s', emitted) ← evaluate_sensor_observation ids obs sensor s
    (last, more) ← evaluate_all sensor rest s'
    ok (last, emitted ++ more)
