-- ===== src/Alert/Policy.antt =====
-- src/industrial_reliability/alert_policy.py: the alert policy is simulated on calibration scores, and
-- the first candidate that passes the gates is selected. Reading and writing files is not modelled.
pub mod Select
use industrial_reliability_p.Base.{
  ℕ, ◌+◌, String, Bool, true, false, ◌&&◌, ◌||◌, not, Option, none, some, List, [], ◌∷◌, ◌++◌,
  length, ltb, leb, all, is_some, if◌then◌else◌, Result, ok, err, value_error, map,
}
use text.Mathlib.Text.{◌==◌ as str_eq}
use industrial_reliability_p.Platform.{Datetime, Platform}
use industrial_reliability_p.Alert.Model.{within_seconds}

abbrev pub persistence_candidates : List ℕ
persistence_candidates = 1 ∷ 2 ∷ 3 ∷ []

abbrev pub cooldown_candidates : List ℕ
cooldown_candidates = 1 ∷ 2 ∷ 3 ∷ 6 ∷ []

abbrev pub merge_gap_seconds_candidates : List ℕ
merge_gap_seconds_candidates = 0 ∷ 300 ∷ 900 ∷ []

pub record PolicyMetrics (F : Type 0) : Type 0 where
  pub false_episodes_per_day : F
  pub time_in_alert : F

pub record PolicySelection (F : Type 0) : Type 0 where
  pub persistence : ℕ
  pub cooldown : ℕ
  pub merge_gap_seconds : ℕ
  pub metrics : PolicyMetrics F

-- the columns of the score frame that the module reads
pub record ScoreRow : Type 0 where
  pub split : String
  pub window_start : Datetime
  pub window_end : Datetime
  pub is_anomaly : Bool

-- the new activity, the new streak, and what is added to the episodes
unfoldable pub step_anomaly : Datetime → Bool → ℕ → Option Datetime → ℕ → ℕ → Bool × ℕ × ℕ
step_anomaly ts is_active anomaly_streak last_resolution persistence merge_gap_seconds =
    let new_anomaly_streak = anomaly_streak + 1 in
    let is_merged : Bool = elim last_resolution [
      | none ↦ false
      | some resolution ↦ ltb 0 merge_gap_seconds && within_seconds resolution ts merge_gap_seconds
    ] in
    if not is_active && leb persistence new_anomaly_streak
    then (true, new_anomaly_streak, if is_merged then 0 else 1)
    else (is_active, new_anomaly_streak, 0)

unfoldable pub step_normal : Datetime → Bool → ℕ → ℕ → Bool × ℕ × Option Datetime
step_normal ts is_active normal_streak cooldown =
    let new_normal_streak = normal_streak + 1 in
    if is_active && leb cooldown new_normal_streak
    then (false, new_normal_streak, some ts)
    else (is_active, new_normal_streak, none)

-- the local variables of `_simulate_alert_stream`
pub record Simulation : Type 0 where
  pub is_active : Bool
  pub anomaly_streak : ℕ
  pub normal_streak : ℕ
  pub last_resolution : Option Datetime
  pub episodes : ℕ
  pub alert_window_count : ℕ

abbrev pub idle : Simulation
idle = record {
  is_active = false;
  anomaly_streak = 0;
  normal_streak = 0;
  last_resolution = none;
  episodes = 0;
  alert_window_count = 0;
}

-- `if is_active: alert_window_count += 1`
abbrev pub count_window : Simulation → Simulation
count_window sim =
    if sim.is_active then record sim { alert_window_count = sim.alert_window_count + 1 } else sim

module _ (persistence cooldown merge_gap_seconds : ℕ) where
  -- one round of the loop over the rows
  unfoldable pub simulate_row : Simulation → ScoreRow → Simulation
  unfolding step_anomaly step_normal
  simulate_row sim row =
      if row.is_anomaly
      then (let (active, streak, ep_inc) =
            step_anomaly row.window_end sim.is_active sim.anomaly_streak sim.last_resolution
              persistence merge_gap_seconds in
          count_window (record sim {
            is_active = active;
            anomaly_streak = streak;
            normal_streak = 0;
            episodes = sim.episodes + ep_inc;
          }))
      else (let (active, streak, res) =
            step_normal row.window_end sim.is_active sim.normal_streak cooldown in
          count_window (record sim {
            is_active = active;
            anomaly_streak = 0;
            normal_streak = streak;
            last_resolution = if is_some res then res else sim.last_resolution;
          }))

  unfoldable pub simulate_rows : Simulation → List ScoreRow → Simulation
  simulate_rows sim [] = sim
  simulate_rows sim (row ∷ rows) = simulate_rows (simulate_row sim row) rows

  -- the episodes, and the windows that end in alert
  unfoldable pub simulate_alert_stream : List ScoreRow → ℕ × ℕ
  simulate_alert_stream sorted_rows =
      let last = simulate_rows idle sorted_rows in (last.episodes, last.alert_window_count)

abbrev pub earlier : Datetime → Datetime → Datetime
earlier a b = if leb a.tick b.tick then a else b

abbrev pub later : Datetime → Datetime → Datetime
later a b = if leb a.tick b.tick then b else a

-- `sorted_df["window_start"].min()` and `sorted_df["window_end"].max()`
unfoldable pub min_start : Datetime → List ScoreRow → Datetime
min_start a [] = a
min_start a (row ∷ rows) = min_start (earlier a row.window_start) rows

unfoldable pub max_end : Datetime → List ScoreRow → Datetime
max_end a [] = a
max_end a (row ∷ rows) = max_end (later a row.window_end) rows

-- (persistence, cooldown, merge_gap)
abbrev pub Candidate : Type 0
Candidate = ℕ × ℕ × ℕ

-- `itertools.product` of the three tuples, the last one fastest
unfoldable pub product₂ : ℕ → List ℕ → List ℕ → List Candidate
product₂ p [] gs = []
product₂ p (c ∷ cs) gs = map (λ g. (p, c, g)) gs ++ product₂ p cs gs

unfoldable pub product₃ : List ℕ → List ℕ → List ℕ → List Candidate
unfolding product₂
product₃ [] cs gs = []
product₃ (p ∷ ps) cs gs = product₂ p cs gs ++ product₃ ps cs gs

abbrev pub candidates : List Candidate
candidates = product₃ persistence_candidates cooldown_candidates merge_gap_seconds_candidates

-- `sort_values` is `frame.sort_values("window_end").reset_index(drop=True)` of pandas.
module _ (P : Platform) (sort_values : List ScoreRow → List ScoreRow) where
  open P use {Float, add, mul, div, max, lt, le, infinity, decimal, of_nat, seconds_between}

  abbrev no_alerts : PolicyMetrics Float
  no_alerts = record { false_episodes_per_day = of_nat 0; time_in_alert = of_nat 0 }

  -- the metrics of the sorted rows, which are not empty where the frame is not
  unfoldable pub metrics_of : ℕ → ℕ → ℕ → List ScoreRow → PolicyMetrics Float
  metrics_of persistence cooldown merge_gap_seconds [] = no_alerts
  metrics_of persistence cooldown merge_gap_seconds (row ∷ rows) =
      let sorted_rows : List ScoreRow = row ∷ rows in
      let (episodes, windows) =
        simulate_alert_stream persistence cooldown merge_gap_seconds sorted_rows in
      let start_time = min_start row.window_start rows in
      let end_time = max_end row.window_end rows in
      let duration_days =
        max (div (seconds_between start_time end_time) (of_nat 86400))
          (div (of_nat 1) (of_nat 288)) in
      record {
        false_episodes_per_day = div (of_nat episodes) duration_days;
        time_in_alert = div (of_nat windows) (of_nat (length sorted_rows));
      }

  unfoldable pub evaluate_candidate : List ScoreRow → Candidate → PolicyMetrics Float
  unfolding metrics_of simulate_alert_stream min_start max_end
  evaluate_candidate [] (persistence, cooldown, merge_gap_seconds) = no_alerts
  evaluate_candidate (row ∷ rows) (persistence, cooldown, merge_gap_seconds) =
      metrics_of persistence cooldown merge_gap_seconds (sort_values (row ∷ rows))

  abbrev pub passes_gates : PolicyMetrics Float → Bool
  passes_gates m = le m.false_episodes_per_day (of_nat 1) && le m.time_in_alert (decimal 5 2)

  abbrev pub cost : PolicyMetrics Float → Float
  cost m = add m.false_episodes_per_day (mul (of_nat 100) m.time_in_alert)

  abbrev pub selection : Candidate → PolicyMetrics Float → PolicySelection Float
  selection (persistence, cooldown, merge_gap) metrics = record {
    persistence = persistence;
    cooldown = cooldown;
    merge_gap_seconds = merge_gap;
    metrics = metrics;
  }

  -- the loop over the candidates, with its two variables, and what follows it
  unfoldable pub select_loop :
      List ScoreRow
      → Bool
      → Option (PolicySelection Float)
      → Float
      → List Candidate
      → Result (PolicySelection Float)
  select_loop frame allow_fallback best best_cost [] = elim best [
    | none ↦ err value_error
    | some b ↦ if allow_fallback then ok b else err value_error
  ]
  select_loop frame allow_fallback best best_cost (c ∷ cs) =
      let metrics = evaluate_candidate frame c in
      let better = lt (cost metrics) best_cost in
      let rest =
        select_loop frame allow_fallback (if better then some (selection c metrics) else best)
          (if better then cost metrics else best_cost) cs in
      if passes_gates metrics then ok (selection c metrics) else rest

  -- `set(frame["split"].unique()) == {"calibration"}`
  unfoldable pub only_calibration : List ScoreRow → Bool
  only_calibration [] = false
  only_calibration (row ∷ []) = str_eq row.split "calibration"
  only_calibration (row ∷ next ∷ rows) =
      str_eq row.split "calibration" && only_calibration (next ∷ rows)

  unfoldable pub select_policy : List ScoreRow → Bool → Result (PolicySelection Float)
  unfolding select_loop only_calibration
  select_policy frame allow_fallback =
      if not (only_calibration frame) && not allow_fallback
      then err value_error
      else select_loop frame allow_fallback none infinity candidates
