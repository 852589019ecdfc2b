-- ===== src/Lab/Analysis/Register.antt =====
-- The alerts that a sensor emits open and close in turn, as the analysis remembers them.
use industrial_reliability_p.Base.{
  ℕ, ◌+◌, ◌≡◌, refl, ap, subst, ◌∙◌, Bool, true, false, ◌&&◌, not, Option, none, some, List, [],
  ◌∷◌, ◌++◌, ◌==◌, leb, is_some, arith, if_intro, if◌then◌else◌, Result, ok, err, validation_error,
  require, ◌>>=◌, ◌>>◌,
}
use industrial_reliability_p.Platform.{Uuid, Platform}
use industrial_reliability_p.Lab.Contracts.{Sensor}
use industrial_reliability_p.Lab.Sensors.{Observation}
use industrial_reliability_p.Lab.Analysis.{
  AlertOrigin, process_limit, data_quality, ml, AlertKind, above_limit, below_limit, LabAlertState,
  opened, resolved, LabAlert, SensorAnalysisState, new_analysis, Emission, NewIds, kind_of_quality,
  is_good, Analysis, remember_observation, open_alert, resolve_alert_at, evaluate_bad,
  resolve_quality, open_process, resolve_process, exceeds, falls_below, is_safely_inside,
  evaluate_limits, evaluate_value, evaluate_good, evaluate_sensor_observation, evaluate_all,
}

-- the open alerts of a sensor: the one of data quality, and the one of the process limits
abbrev pub Register : Type 0
Register = Option Uuid × Option Uuid

-- an alert opens only where none of its origin is open, and resolves only the one that is
abbrev pub follow_alert : AlertOrigin → LabAlertState → Uuid → Register → Option Register
follow_alert data_quality opened i (none, process) = some (some i, process)
follow_alert data_quality resolved i (some j, process) =
    if j == i then some (none, process) else none
follow_alert process_limit opened i (quality, none) = some (quality, some i)
follow_alert process_limit resolved i (quality, some j) =
    if j == i then some (quality, none) else none
follow_alert origin state i register = none

unfoldable pub follow : List Emission → Register → Option Register
follow [] register = some register
follow (e ∷ emitted) register =
    elim (follow_alert e.alert.origin e.alert.state e.alert.alert_id register) [
      | none ↦ none
      | some next ↦ follow emitted next
    ]

follow-append :
    (emitted more : List Emission) (a b c : Register)
    → follow emitted a ≡ some b
    → follow more b ≡ some c
    → follow (emitted ++ more) a ≡ some c
unfolding follow
follow-append [] more a b c h k = let same : a ≡ b = ground arith in ap (follow more) same ∙ k
follow-append (e ∷ emitted) more a b c h k =
    bound (follow emitted) (follow (emitted ++ more)) b c
      (λ next p. follow-append emitted more next b c p k)
      (follow_alert e.alert.origin e.alert.state e.alert.alert_id a) h
  where
    bound :
        (f g : Register → Option Register) (b c : Register)
        → ((next : Register) → f next ≡ some b → g next ≡ some c)
        → (o : Option Register) → elim o [ none ↦ none | some next ↦ f next ] ≡ some b
        → elim o [ none ↦ none | some next ↦ g next ] ≡ some c
    bound f g b c step none p = absurd (cc)
    bound f g b c step (some next) p = step next p

follow_one :
    (e : Emission) (a b : Register)
    → follow_alert e.alert.origin e.alert.state e.alert.alert_id a ≡ some b
    → follow (e ∷ []) a ≡ some b
unfolding follow
follow_one e a b h = rw (follow, h) refl

abbrev pub id_of : Option LabAlert → Option Uuid
id_of none = none
id_of (some alert) = some alert.alert_id

abbrev HasOrigin : AlertOrigin → Option LabAlert → Type 0
HasOrigin origin none = Unit
HasOrigin origin (some alert) = alert.origin ≡ origin

opens_quality :
    (i : Uuid) (active : Option LabAlert) (process : Option Uuid)
    → is_some active ≡ false
    → follow_alert data_quality opened i (id_of active, process) ≡ some (some i, process)
opens_quality i none process h = refl
opens_quality i (some alert) process h = absurd (cc)

opens_process :
    (i : Uuid) (active : Option LabAlert) (quality : Option Uuid)
    → is_some active ≡ false
    → follow_alert process_limit opened i (quality, id_of active) ≡ some (quality, some i)
opens_process i none quality h = refl
opens_process i (some alert) quality h = absurd (cc)

resolves_quality :
    (origin : AlertOrigin) (i : Uuid) (process : Option Uuid)
    → origin ≡ data_quality
    → follow_alert origin resolved i (some i, process) ≡ some (none, process)
resolves_quality data_quality i process h = ground arith
resolves_quality process_limit i process h = absurd (cc)
resolves_quality ml i process h = absurd (cc)

resolves_process :
    (origin : AlertOrigin) (i : Uuid) (quality : Option Uuid)
    → origin ≡ process_limit
    → follow_alert origin resolved i (quality, some i) ≡ some (quality, none)
resolves_process process_limit i quality h = ground arith
resolves_process data_quality i quality h = absurd (cc)
resolves_process ml i quality h = absurd (cc)

module _ {F : Type 0} where
  -- the register of a state
  abbrev pub register_of : SensorAnalysisState F → Register
  register_of s = (id_of s.active_quality_alert, id_of s.active_process_alert)

  abbrev pub Labelled : SensorAnalysisState F → Type 0
  Labelled s =
      HasOrigin data_quality s.active_quality_alert × HasOrigin process_limit s.active_process_alert

  -- what was emitted leads from the register of a state to that of the state behind
  abbrev pub Tracked : Register → Analysis F → Type 0
  Tracked register (s, emitted) = Labelled s × (follow emitted register ≡ some (register_of s))

  abbrev pub Tracks : Register → Result (Analysis F) → Type 0
  Tracks register (err e) = Unit
  Tracks register (ok out) = Tracked register out

  required :
      (b : Bool) (register : Register) (out : Analysis F)
      → Tracked register out
      → Tracks register (require b validation_error >> ok out)
  required false register out h = tt
  required true register out h = h

  evaluate_bad-Tracks :
      (ids : NewIds) (obs : Observation F) (sensor : Sensor F) (s : SensorAnalysisState F)
      → Labelled s
      → Tracks (register_of s) (evaluate_bad ids obs sensor s)
  unfolding evaluate_bad follow
  evaluate_bad-Tracks ids obs sensor s (quality, process) =
      let counted : SensorAnalysisState F = record s {
        bad_quality_streak = s.bad_quality_streak + 1;
        good_quality_streak = 0;
        normal_streak = 0;
      } in
      let alert = open_alert ids obs sensor data_quality (kind_of_quality obs.quality) 20 in
      let e : Emission = record { event_id = ids.first_event_id; alert = alert } in
      let out : Analysis F = (record counted { active_quality_alert = some alert }, e ∷ []) in
      let early = leb 20 obs.tick in
      if_intro (Tracks (register_of s))
        (leb 2 (s.bad_quality_streak + 1) && not (is_some s.active_quality_alert))
        (require early validation_error >> ok out) (ok (counted, []))
        (λ opens. required early (register_of s) out (
          (refl, process),
          follow_one e (register_of s) (some ids.alert_id, id_of s.active_process_alert)
              (opens_quality ids.alert_id s.active_quality_alert (id_of s.active_process_alert)
                (ground arith)),
        ))
        (λ stays. ((quality, process), refl))

  resolve_quality-Tracked :
      (ids : NewIds) (tick : ℕ) (s : SensorAnalysisState F) (active : Option LabAlert)
      → s.active_quality_alert ≡ active
      → Labelled s
      → Tracked (register_of s) (resolve_quality ids tick s active)
  unfolding follow
  resolve_quality-Tracked ids tick s none same h = (h, refl)
  resolve_quality-Tracked ids tick s (some alert) same (quality, process) =
      let e : Emission = record {
        event_id = ids.first_event_id;
        alert = resolve_alert_at tick alert;
      } in
      let origin : alert.origin ≡ data_quality = subst (HasOrigin data_quality) same quality in
      if_intro (Tracked (register_of s)) (leb 3 s.good_quality_streak)
        (record s { active_quality_alert = none; bad_quality_streak = 0 }, e ∷ []) (s, [])
        (λ closes. (
          (tt, process),
          follow_one e (register_of s) (none, id_of s.active_process_alert)
              (ap
                  (λ o.
                    follow_alert alert.origin resolved alert.alert_id
                      (id_of o, id_of s.active_process_alert))
                  same
                ∙ resolves_quality alert.origin alert.alert_id (id_of s.active_process_alert)
                    origin),
        ))
        (λ stays. ((quality, process), refl))

  open_process-Tracks :
      (ids : NewIds) (obs : Observation F) (sensor : Sensor F) (kind : AlertKind) (violations : ℕ)
      (s : SensorAnalysisState F)
      → Labelled s
      → Tracks (register_of s) (open_process ids obs sensor kind violations s)
  unfolding open_process follow
  open_process-Tracks ids obs sensor kind violations s (quality, process) =
      let alert = open_alert ids obs sensor process_limit kind 40 in
      let e : Emission = record { event_id = ids.second_event_id; alert = alert } in
      let out : Analysis F = (record s { active_process_alert = some alert }, e ∷ []) in
      let early = leb 40 obs.tick in
      if_intro (Tracks (register_of s)) (leb 3 violations && not (is_some s.active_process_alert))
        (require early validation_error >> ok out) (ok (s, []))
        (λ opens. required early (register_of s) out (
          (quality, refl),
          follow_one e (register_of s) (id_of s.active_quality_alert, some ids.alert_id)
              (opens_process ids.alert_id s.active_process_alert (id_of s.active_quality_alert)
                (ground arith)),
        ))
        (λ stays. ((quality, process), refl))

  resolve_process-Tracked :
      (ids : NewIds) (tick : ℕ) (s : SensorAnalysisState F) (active : Option LabAlert)
      → s.active_process_alert ≡ active
      → Labelled s
      → Tracked (register_of s) (resolve_process ids tick s active)
  unfolding follow
  resolve_process-Tracked ids tick s none same h = (h, refl)
  resolve_process-Tracked ids tick s (some alert) same (quality, process) =
      let e : Emission = record {
        event_id = ids.second_event_id;
        alert = resolve_alert_at tick alert;
      } in
      let origin : alert.origin ≡ process_limit = subst (HasOrigin process_limit) same process in
      if_intro (Tracked (register_of s)) (leb 5 s.normal_streak)
        (record s { active_process_alert = none }, e ∷ []) (s, [])
        (λ closes. (
          (quality, tt),
          follow_one e (register_of s) (id_of s.active_quality_alert, none)
              (ap
                  (λ o.
                    follow_alert alert.origin resolved alert.alert_id
                      (id_of s.active_quality_alert, id_of o))
                  same
                ∙ resolves_process alert.origin alert.alert_id (id_of s.active_quality_alert)
                    origin),
        ))
        (λ stays. ((quality, process), refl))

module _ (P : Platform) where
  open P use {Float}

  evaluate_limits-Tracks :
      (ids : NewIds) (obs : Observation Float) (sensor : Sensor Float)
      (s : SensorAnalysisState Float) (value : Float)
      → Labelled s
      → Tracks (register_of s) (evaluate_limits P ids obs sensor s value)
  unfolding evaluate_limits follow
  evaluate_limits-Tracks ids obs sensor s value h =
      let Q : Result (Analysis Float) → Type 0 = Tracks (register_of s) in
      let above : SensorAnalysisState Float = record s {
        high_violations = s.high_violations + 1;
        low_violations = 0;
        normal_streak = 0;
      } in
      let below : SensorAnalysisState Float = record s {
        low_violations = s.low_violations + 1;
        high_violations = 0;
        normal_streak = 0;
      } in
      let inside : SensorAnalysisState Float = record s {
        normal_streak = s.normal_streak + 1;
        high_violations = 0;
        low_violations = 0;
      } in
      let resolving : Result (Analysis Float) =
        ok (resolve_process ids obs.tick inside inside.active_process_alert) in
      let within_band : Result (Analysis Float) =
        if is_safely_inside P sensor value then resolving else ok (s, []) in
      let falling = open_process ids obs sensor below_limit (s.low_violations + 1) below in
      if_intro Q (exceeds P sensor.alarm_high value)
        (open_process ids obs sensor above_limit (s.high_violations + 1) above)
        (if falls_below P sensor.alarm_low value then falling else within_band)
        (λ a. open_process-Tracks ids obs sensor above_limit (s.high_violations + 1) above h)
        (λ a.
          if_intro Q (falls_below P sensor.alarm_low value) falling within_band
            (λ b. open_process-Tracks ids obs sensor below_limit (s.low_violations + 1) below h)
            (λ b.
              if_intro Q (is_safely_inside P sensor value) resolving (ok (s, []))
                (λ c.
                  resolve_process-Tracked ids obs.tick inside inside.active_process_alert refl h)
                (λ c. (h, refl))))

  -- what comes behind is appended
  appended :
      (register : Register) (s : SensorAnalysisState Float) (emitted : List Emission)
      (m : Result (Analysis Float))
      → follow emitted register ≡ some (register_of s)
      → Tracks (register_of s) m
      → Tracks register (do (s', more) ← m; ok (s', emitted ++ more))
  appended register s emitted (err e) h t = tt
  appended register s emitted (ok (s', more)) h (labelled, t) =
      (labelled, follow-append emitted more register (register_of s) (register_of s') h t)

  evaluate_value-Tracks :
      (ids : NewIds) (obs : Observation Float) (sensor : Sensor Float) (register : Register)
      (first : Analysis Float) (value : Option Float)
      → Tracked register first
      → Tracks register (evaluate_value P ids obs sensor first value)
  unfolding evaluate_value
  evaluate_value-Tracks ids obs sensor register (s, emitted) none h = h
  evaluate_value-Tracks ids obs sensor register (s, emitted) (some value) (labelled, h) =
      appended register s emitted (evaluate_limits P ids obs sensor s value) h
        (evaluate_limits-Tracks ids obs sensor s value labelled)

  evaluate_sensor_observation-Tracks :
      (ids : NewIds) (obs : Observation Float) (sensor : Sensor Float)
      (s : SensorAnalysisState Float)
      → Labelled s
      → Tracks (register_of s) (evaluate_sensor_observation P ids obs sensor s)
  unfolding evaluate_sensor_observation
  evaluate_sensor_observation-Tracks ids obs sensor s h =
      let seen : SensorAnalysisState Float = record s {
        recent_observations = remember_observation obs s.recent_observations;
      } in
      let counted : SensorAnalysisState Float = record seen {
        good_quality_streak = seen.good_quality_streak + 1;
      } in
      let first = resolve_quality ids obs.tick counted counted.active_quality_alert in
      if_intro (Tracks (register_of s)) (is_good obs.quality) (evaluate_good P ids obs sensor seen)
        (evaluate_bad ids obs sensor seen)
        (λ g.
          evaluate_value-Tracks ids obs sensor (register_of s) first obs.value
            (resolve_quality-Tracked ids obs.tick counted counted.active_quality_alert refl h))
        (λ b. evaluate_bad-Tracks ids obs sensor seen h)

  evaluate_all-Tracks :
      (sensor : Sensor Float) (observations : List (NewIds × Observation Float))
      (s : SensorAnalysisState Float)
      → Labelled s
      → Tracks (register_of s) (evaluate_all P sensor observations s)
  unfolding evaluate_all follow
  evaluate_all-Tracks sensor [] s h = (h, refl)
  evaluate_all-Tracks sensor ((ids, obs) ∷ rest) s h =
      onward (evaluate_sensor_observation P ids obs sensor s)
        (evaluate_sensor_observation-Tracks ids obs sensor s h)
        (λ s' labelled. evaluate_all-Tracks sensor rest s' labelled)
    where
      onward :
          (m : Result (Analysis Float))
          → Tracks (register_of s) m
          → ((s' : SensorAnalysisState Float)
              → Labelled s'
              → Tracks (register_of s') (evaluate_all P sensor rest s'))
          → Tracks (register_of s) (do
            (s', emitted) ← m
            (last, more) ← evaluate_all P sensor rest s'
            ok (last, emitted ++ more))
      onward (err e) t next = tt
      onward (ok (s', emitted)) (labelled, t) next =
          appended (register_of s) s' emitted (evaluate_all P sensor rest s') t (next s' labelled)

  -- From a new state of a sensor, whatever the observations, where the analysis returns: of each origin, the
  -- alerts it has emitted open and resolve in turn, each RESOLVED closing the alert that is open, and those that
  -- are left open are the active alerts of the state.
  pub evaluate_all-follow :
      (sensor : Sensor Float) (observations : List (NewIds × Observation Float))
      (last : SensorAnalysisState Float) (emitted : List Emission)
      → evaluate_all P sensor observations (new_analysis sensor.sensor_id) ≡ ok (last, emitted)
      → follow emitted (none, none) ≡ some (register_of last)
  evaluate_all-follow sensor observations last emitted h =
      let s : SensorAnalysisState Float = new_analysis sensor.sensor_id in
      (subst (Tracks (none, none)) h (evaluate_all-Tracks sensor observations s (tt, tt))).1
