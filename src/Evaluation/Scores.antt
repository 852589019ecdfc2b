-- ===== src/Evaluation/Scores.antt =====
-- The score frame and the contract of src/industrial_reliability/evaluation.py. The integers of a contract are
-- natural numbers, so the guard against a negative horizon has no case here.
use industrial_reliability_p.Base.{
  ℕ, ◌*◌, String, Bool, true, ◌&&◌, not, List, [], ◌∷◌, map, all, ltb, leb, if◌then◌else◌, Result,
  ok, err, value_error, ◌>>◌, require,
}
use industrial_reliability_p.Platform.{Datetime, Platform}

pub record EvaluationPolicy (F : Type 0) : Type 0 where
  pub stride_seconds : ℕ
  pub event_horizon_seconds : ℕ
  pub threshold_quantile : F
  pub threshold_method : String
  pub anomaly_inclusive : Bool
  pub min_detected_events : ℕ
  pub max_false_episodes_per_day : F
  pub max_time_in_alert : F

-- a row of the score frame
pub record Score (F : Type 0) : Type 0 where
  pub window_start : Datetime
  pub window_end : Datetime
  pub score : F

-- seconds in ticks
abbrev pub seconds : ℕ → ℕ
seconds n = n * 1000000

-- no `current <= previous` among the pairs of neighbours
unfoldable pub increasing : List Datetime → Bool
increasing [] = true
increasing (a ∷ []) = true
increasing (a ∷ b ∷ rest) = ltb a.tick b.tick && increasing (b ∷ rest)

module _ (P : Platform) where
  open P use {Float, is_finite, lt, le, of_nat}

  unfoldable pub validate_contract : EvaluationPolicy Float → Result (Unit {0})
  validate_contract contract = require (ltb 0 contract.stride_seconds) value_error

  unfoldable pub validate_threshold : Float → Result Float
  validate_threshold threshold = if is_finite threshold then ok threshold else err value_error

  -- `_validated_scores`: the ends and the scores
  unfoldable pub validated_scores : List (Score Float) → Result (List Datetime × List Float)
  unfolding increasing
  validated_scores [] = err value_error
  validated_scores (row ∷ rows) = do
    let frame : List (Score Float) = row ∷ rows
    let values : List Float = map (λ r. r.score) frame
    let ends : List Datetime = map (λ r. r.window_end) frame
    let starts : List Datetime = map (λ r. r.window_start) frame
    require (all is_finite values) value_error
    require (all (λ t. not t.aware) ends) value_error
    require (increasing ends) value_error
    require (all (λ t. not t.aware) starts) value_error
    require (increasing starts) value_error
    require (all (λ r. leb r.window_start.tick r.window_end.tick) frame) value_error
    ok (ends, values)

  -- `_anomalies`, of one score
  unfoldable pub is_anomaly : Float → EvaluationPolicy Float → Float → Bool
  is_anomaly threshold contract score =
      if contract.anomaly_inclusive then le threshold score else lt threshold score

  -- `calibrate_threshold`; `quantile` is `np.quantile`, which refuses an unknown method
  unfoldable pub calibrate_threshold :
      (List Float → Float → String → Result Float)
      → List Float
      → EvaluationPolicy Float
      → Result Float
  calibrate_threshold quantile [] contract = err value_error
  calibrate_threshold quantile (x ∷ xs) contract = do
    require (all is_finite (x ∷ xs)) value_error
    require (le (of_nat 0) contract.threshold_quantile && le contract.threshold_quantile (of_nat 1))
        value_error
    quantile (x ∷ xs) contract.threshold_quantile contract.threshold_method
