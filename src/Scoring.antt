-- ===== src/Scoring.antt =====
-- `ScoringClient` of src/industrial_reliability/scoring_client.py. The replies of the HTTP service and pydantic's
-- reading of a response body are parameters; the pauses between attempts are left out.
pub mod Attempts
use industrial_reliability_p.Base.{
  ℕ, zero, suc, ◌+◌, String, Bool, true, false, ◌||◌, not, Option, none, some, List, [], ◌∷◌, leb,
  ◌==◌, any, if◌then◌else◌, Result, ok, err, permanent_scoring_error, retryable_scoring_error,
  runtime_error, index_error, assertion_error, ◌>>=◌, ◌>>◌, require,
}
use text.Mathlib.Text.{◌==◌ as str_eq}
use industrial_reliability_p.Messages.{FeatureVectorV1, ScoreDecisionV1}

-- the answer to one request: a status code and a body, a timeout or network error, or any other exception of
-- the client, which is not caught
pub data Reply : Type 0 where
  response : ℕ → String → Reply
  network_error : Reply
  other_error : Reply

-- the pauses are in hundredths of a second
pub record RetryPolicy : Type 0 where
  pub attempts : ℕ
  pub delays_seconds : List ℕ

abbrev pub default_retry_policy : RetryPolicy
default_retry_policy = record { attempts = 3; delays_seconds = 25 ∷ 100 ∷ [] }

abbrev pub has_delay : ℕ → List ℕ → Bool
has_delay attempt [] = false
has_delay zero (d ∷ delays) = true
has_delay (suc attempt) (d ∷ delays) = has_delay attempt delays

module _ {F : Type 0} (model_version : String)
    (decode_response : String → Option (ScoreDecisionV1 F)) where
  -- the tests on a decoded decision
  unfoldable pub checked_decision :
      FeatureVectorV1 F → ScoreDecisionV1 F → Result (ScoreDecisionV1 F)
  checked_decision feature decision = do
    require (str_eq decision.model_version model_version) permanent_scoring_error
    require (decision.window_id == feature.window_id) permanent_scoring_error
    require (decision.replay_session_id == feature.replay_session_id) permanent_scoring_error
    require (str_eq decision.source_dataset_sha256 feature.source_dataset_sha256)
        permanent_scoring_error
    require (str_eq decision.contract_sha256 feature.contract_sha256) permanent_scoring_error
    ok decision

  abbrev pub is_transient : ℕ → Bool
  is_transient status_code = any (λ code. code == status_code) (429 ∷ 500 ∷ 502 ∷ 503 ∷ 504 ∷ [])

  -- `_validated_decision`
  unfoldable pub validated_decision : FeatureVectorV1 F → ℕ → String → Result (ScoreDecisionV1 F)
  unfolding checked_decision
  validated_decision feature status_code content =
      if status_code == 200
      then elim (decode_response content) [
        | none ↦ err permanent_scoring_error
        | some decision ↦ checked_decision feature decision
      ]
      else if is_transient status_code
      then err retryable_scoring_error
      else err permanent_scoring_error

  -- one attempt; a network error is caught as a retryable one is
  unfoldable pub attempt_outcome : FeatureVectorV1 F → Reply → Result (ScoreDecisionV1 F)
  unfolding validated_decision
  attempt_outcome feature network_error = err retryable_scoring_error
  attempt_outcome feature other_error = err runtime_error
  attempt_outcome feature (response status_code content) =
      validated_decision feature status_code content

  -- the loop of `score`, at an attempt, with those that are left; `reply` answers each attempt
  unfoldable pub score_from :
      RetryPolicy → (ℕ → Reply) → FeatureVectorV1 F → ℕ → ℕ → Result (ScoreDecisionV1 F)
  unfolding attempt_outcome
  score_from policy reply feature attempt zero = err assertion_error
  score_from policy reply feature attempt (suc left) =
      let rest = score_from policy reply feature (attempt + 1) left in
      elim (attempt_outcome feature (reply attempt)) [
        | ok decision ↦ ok decision
        | err retryable_scoring_error ↦
            if leb policy.attempts (attempt + 1)
            then err retryable_scoring_error
            else if has_delay attempt policy.delays_seconds
            then rest
            else err index_error
        | err raised ↦ err raised
      ]

  -- `score`
  unfoldable pub score : RetryPolicy → (ℕ → Reply) → FeatureVectorV1 F → Result (ScoreDecisionV1 F)
  unfolding score_from
  score policy reply feature = score_from policy reply feature 0 policy.attempts
