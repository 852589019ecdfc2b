-- ===== src/Lab/Sensors/Complete.antt =====
-- A lab that may run is observed completely.
use industrial_reliability_p.Base.{
  ℕ, ◌≡◌, refl, ap, true, ◌&&◌, not, Option, none, some, List, [], ◌∷◌, ◌++◌, map, all, All, ◌==◌,
  arith, if_intro, if◌then◌else◌, Bool-cases, inl, inr, Result, ok,
}
use industrial_reliability_p.Platform.{Platform}
use industrial_reliability_p.Lab.Contracts.{
  PortRef, Asset, SensorKind, pressure, flow, Target, at_port, at_pipe, Sensor, matches_kind,
}
use industrial_reliability_p.Lab.Tables.{PhysicalState, ActiveFault, ControlState}
use industrial_reliability_p.Lab.Validation.{validate_lab}
use industrial_reliability_p.Lab.Validation.Runnable.{port_exists, is_valid_target, is_runnable}
use industrial_reliability_p.Lab.Validation.Eligible.{eligible, validate_lab-eligible}
use industrial_reliability_p.Lab.Sensors.{
  Mathematics, ObservationQuality, good, missing, invalid, Observation, ObservedRun, find_asset,
  find_fault, has_kind, read_truth, read_node, read_sensor, observation_of, measure, is_pressure,
  check_quality, sample, observe_sensors, observe,
}

module _ {F : Type 0} where
  -- an asset whose port exists is found
  find_asset-found :
      (assets : List (Asset F)) (ref : PortRef)
      → port_exists assets ref ≡ true
      → (asset : Asset F) × (find_asset ref.asset_id assets ≡ some asset)
  unfolding find_asset
  find_asset-found [] ref h = absurd (cc)
  find_asset-found (a ∷ assets) ref h = elim (Bool-cases (a.asset_id == ref.asset_id)) [
    | inl same ↦ (a, ground arith)
    | inr other ↦
        let (asset, found) = find_asset-found assets ref (ground arith) in (asset, ground arith)
  ]

module _ (P : Platform) (M : Mathematics P.Float) where
  open P use {Float, is_finite}

  -- a value that a quality allows
  abbrev pub Allowed : ObservationQuality → Option Float → Type 0
  Allowed good value = (x : Float) × (value ≡ some x) × (is_finite x ≡ true)
  Allowed missing value = value ≡ none
  Allowed invalid value = Unit

  abbrev pub Plausible : ℕ → Observation Float → Type 0
  Plausible tick o = (o.tick ≡ tick) × Allowed o.quality o.value

  check_quality-Allowed :
      (kind : SensorKind) (measured : Float)
      → let (value, quality) = check_quality P M kind measured in Allowed quality value
  unfolding check_quality
  check_quality-Allowed kind measured =
      let Q : Option Float × ObservationQuality → Type 0 = λ p. Allowed p.1 p.0 in
      let below = is_pressure P M kind && P.lt measured (P.of_nat 0) in
      if_intro Q (not (is_finite measured)) (none, invalid)
        (if below then (some measured, invalid) else (some measured, good)) (λ wild. tt)
        (λ tame.
          if_intro Q below (some measured, invalid) (some measured, good) (λ negative. tt)
            (λ fine. (measured, refl, ground arith)))

  module _ (run : ObservedRun Float) (state : PhysicalState Float) where
    -- one observation, of the sensor
    record IsSample (sensor : Sensor Float) (observations : List (Observation Float)) : Type 0 where
      observation : Observation Float
      alone : observations ≡ observation ∷ []
      of_sensor : observation.sensor_id ≡ sensor.sensor_id
      plausible : Plausible state.tick observation

    sample-IsSample :
        (sensor : Sensor Float) (fault : Option (ActiveFault Float)) (truth : Option Float)
        → IsSample sensor (sample P M run state sensor fault (read_truth truth))
    unfolding sample
    sample-IsSample sensor fault none = record {
      observation = observation_of P M run state sensor none missing;
      alone = refl;
      of_sensor = refl;
      plausible = (refl, refl);
    }
    sample-IsSample sensor fault (some truth) =
        let (value, quality) =
          check_quality P M sensor.kind (measure P M run.seed sensor state.tick fault truth) in
        let lost = observation_of P M run state sensor none missing in
        let measured = observation_of P M run state sensor value quality in
        if_intro (IsSample sensor) (has_kind "SENSOR_DROPOUT" fault) (lost ∷ []) (measured ∷ [])
          (λ dropped. record {
            observation = lost;
            alone = refl;
            of_sensor = refl;
            plausible = (refl, refl);
          })
          (λ works. record {
            observation = measured;
            alone = refl;
            of_sensor = refl;
            plausible = (
              refl,
              check_quality-Allowed sensor.kind
                  (measure P M run.seed sensor state.tick fault truth),
            );
          })

    -- a sensor with a valid target is read
    read_sensor-truth :
        (kind : SensorKind) (target : Target)
        → matches_kind kind target ≡ true
        → is_valid_target run.definition.assets run.definition.pipes target ≡ true
        → (truth : Option Float) × (read_sensor P M run.definition state kind target
            ≡ ok (read_truth truth))
    read_sensor-truth pressure (at_port ref) m v =
        let (asset, found) = find_asset-found run.definition.assets ref v in
        (_, ap (λ o. ok (read_node P M state ref o)) found)
    read_sensor-truth pressure (at_pipe i) m v = absurd (cc)
    read_sensor-truth flow (at_port ref) m v = absurd (cc)
    read_sensor-truth flow (at_pipe i) m v = (_, refl)

    -- one observation of each sensor, in order
    pub record IsComplete (sensors : List (Sensor Float)) (r : Result (List (Observation Float)))
        : Type 0 where
      pub observations : List (Observation Float)
      pub returned : r ≡ ok observations
      pub of_sensors :
          map (λ (o : Observation Float). o.sensor_id) observations
          ≡ map (λ (s : Sensor Float). s.sensor_id) sensors
      pub plausible : All (Plausible state.tick) observations

    observe_sensors-IsComplete :
        (controls : ControlState Float) (sensors : List (Sensor Float))
        → all (λ (s : Sensor Float). matches_kind s.kind s.target) sensors ≡ true
        → all
            (λ (s : Sensor Float).
              is_valid_target run.definition.assets run.definition.pipes s.target)
            sensors
          ≡ true
        → IsComplete sensors (observe_sensors P M run state controls sensors)
    unfolding observe_sensors
    observe_sensors-IsComplete controls [] m v = record {
      observations = [];
      returned = refl;
      of_sensors = refl;
      plausible = tt;
    }
    observe_sensors-IsComplete controls (sensor ∷ sensors) m v =
        let (truth, reads) =
          read_sensor-truth sensor.kind sensor.target (ground arith) (ground arith) in
        let fault = find_fault sensor.sensor_id controls.active_faults in
        let one = sample-IsSample sensor fault truth in
        let rest = observe_sensors-IsComplete controls sensors (ground arith) (ground arith) in
        record {
          observations = one.observation ∷ rest.observations;
          returned =
              rw (observe_sensors, reads, rest.returned)
                (ap (λ first. ok (first ++ rest.observations)) one.alone);
          of_sensors = cc;
          plausible = (one.plausible, rest.plausible);
        }

    -- Where `validate_lab` finds a lab eligible, and its sensors have targets of their kinds, `observe` returns,
    -- whatever the state and the faults, one observation of each sensor, in order, at the tick of the state; a
    -- GOOD one has a finite value and a MISSING one has none.
    pub observe-IsComplete :
        (controls : ControlState Float)
        → all (λ (s : Sensor Float). matches_kind s.kind s.target) run.definition.sensors ≡ true
        → eligible (validate_lab run.definition) ≡ ok true
        → IsComplete run.definition.sensors (observe P M run state controls)
    unfolding observe
    observe-IsComplete controls m e =
        let runnable : is_runnable run.definition ≡ true =
          let same = validate_lab-eligible run.definition m in ground arith in
        observe_sensors-IsComplete controls run.definition.sensors m (ground arith)
