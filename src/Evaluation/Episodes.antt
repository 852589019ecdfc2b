-- ===== src/Evaluation/Episodes.antt =====
-- `build_episodes` of src/industrial_reliability/evaluation.py
pub mod Runs
use industrial_reliability_p.Base.{
  ℕ, suc, ◌+◌, ◌-◌, Bool, true, false, List, [], ◌∷◌, ltb, leb, if◌then◌else◌, Result, ok, err,
  ◌>>=◌, ◌>>◌,
}
use industrial_reliability_p.Platform.{Datetime, Platform}
use industrial_reliability_p.Evaluation.Scores.{
  EvaluationPolicy, Score, seconds, validate_contract, validate_threshold, validated_scores,
  is_anomaly,
}

pub record Episode : Type 0 where
  pub detection_time : Datetime
  pub last_detection_time : Datetime
  pub decision_count : ℕ

-- `(current - last).total_seconds() <= stride_seconds`
abbrev pub is_adjacent : ℕ → Datetime → Datetime → Bool
is_adjacent stride_seconds last current = leb current.tick (last.tick + seconds stride_seconds)

-- the loop, with its variables `first`, `last` and `count`
unfoldable pub merge_ends : ℕ → Datetime → Datetime → ℕ → List Datetime → List Episode
merge_ends stride first last count [] =
    record { detection_time = first; last_detection_time = last; decision_count = count } ∷ []
merge_ends stride first last count (current ∷ rest) = elim (is_adjacent stride last current) [
  | true ↦ merge_ends stride first current (count + 1) rest
  | false ↦
      record { detection_time = first; last_detection_time = last; decision_count = count }
      ∷ merge_ends stride current current 1 rest
]

-- the episodes of the anomalous ends
unfoldable pub episodes_of : ℕ → List Datetime → List Episode
unfolding merge_ends
episodes_of stride [] = []
episodes_of stride (first ∷ rest) = merge_ends stride first first 1 rest

module _ (P : Platform) where
  open P use {Float}

  -- the ends whose scores are anomalous
  unfoldable pub anomalous_ends : (Float → Bool) → List Datetime → List Float → List Datetime
  anomalous_ends test [] values = []
  anomalous_ends test (end ∷ ends) [] = []
  anomalous_ends test (end ∷ ends) (value ∷ values) =
      let rest = anomalous_ends test ends values in if test value then end ∷ rest else rest

  unfoldable pub build_episodes :
      List (Score Float) → Float → EvaluationPolicy Float → Result (List Episode)
  unfolding anomalous_ends episodes_of
  build_episodes scores threshold contract = do
    validate_contract P contract
    threshold_value ← validate_threshold P threshold
    (ends, values) ← validated_scores P scores
    ok (
        episodes_of contract.stride_seconds
          (anomalous_ends (is_anomaly P threshold_value contract) ends values))
