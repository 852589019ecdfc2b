-- ===== src/Scoring/Attempts.antt =====
-- `score` returns what the first conclusive reply gives.
use industrial_reliability_p.Base.{
  ℕ, zero, suc, ◌+◌, ◌≤◌, ◌<◌, ◌≡◌, ◌⊎◌, refl, ap, ◌∙◌, subst, String, Error, true, Option, List,
  [], ◌∷◌, length, leb, ◌==◌, Bool-cases, Result-cases, inl, inr, Result, ok, err,
  permanent_scoring_error, retryable_scoring_error, runtime_error, arith,
}
use industrial_reliability_p.Messages.{FeatureVectorV1, ScoreDecisionV1}
use industrial_reliability_p.Scoring.{
  Reply, response, network_error, other_error, RetryPolicy, has_delay, checked_decision,
  validated_decision, attempt_outcome, score_from, score,
}

module _ {F : Type 0} (model_version : String)
    (decode_response : String → Option (ScoreDecisionV1 F)) where
  -- the reply does not settle the score
  abbrev pub Transient : FeatureVectorV1 F → Reply → Type 0
  Transient feature reply =
      attempt_outcome model_version decode_response feature reply ≡ err retryable_scoring_error

  -- the outcome is that of reply `k`, the first of those from `start` that is not transient
  pub record Settled (reply : ℕ → Reply) (feature : FeatureVectorV1 F) (start stop : ℕ)
      (r : Result (ScoreDecisionV1 F)) : Type 0 where
    pub k : ℕ
    pub from : start ≤ k
    pub below : k < stop
    pub before : (j : ℕ) → start ≤ j → j < k → Transient feature (reply j)
    pub outcome : attempt_outcome model_version decode_response feature (reply k) ≡ r
    pub conclusive : r ≡ err retryable_scoring_error → ⊥

  -- every reply is transient
  pub record Exhausted (reply : ℕ → Reply) (feature : FeatureVectorV1 F) (start stop : ℕ)
      (r : Result (ScoreDecisionV1 F)) : Type 0 where
    pub all_transient : (j : ℕ) → start ≤ j → j < stop → Transient feature (reply j)
    pub outcome : r ≡ err retryable_scoring_error

  has_delay_below :
      (attempt : ℕ) (delays : List ℕ) → attempt < length delays → has_delay attempt delays ≡ true
  has_delay_below attempt [] h = absurd (omega arith)
  has_delay_below zero (d ∷ delays) h = refl
  has_delay_below (suc attempt) (d ∷ delays) h = has_delay_below attempt delays (omega arith)

  refused_response :
      (feature : FeatureVectorV1 F) (status_code : ℕ) (content : String) (e : Error)
      → validated_decision model_version decode_response feature status_code content ≡ err e
      → (e ≡ permanent_scoring_error) ⊎ (e ≡ retryable_scoring_error)
  unfolding validated_decision checked_decision
  refused_response feature status_code content e h = ground arith

  -- a refused attempt raises one of the two errors, or what the client raised
  outcome_error :
      (feature : FeatureVectorV1 F) (reply : Reply) (e : Error)
      → attempt_outcome model_version decode_response feature reply ≡ err e
      → (e ≡ permanent_scoring_error) ⊎ ((e ≡ retryable_scoring_error) ⊎ (e ≡ runtime_error))
  unfolding attempt_outcome validated_decision checked_decision
  outcome_error feature network_error e h = inr (inl (ground arith))
  outcome_error feature other_error e h = inr (inr (ground arith))
  outcome_error feature (response status_code content) e h =
      elim (refused_response feature status_code content e h) [
        | inl permanent ↦ inl permanent
        | inr retryable ↦ inr (inl retryable)
      ]

  attempt_outcome-cases :
      (feature : FeatureVectorV1 F) (reply : Reply)
      → let outcome = attempt_outcome model_version decode_response feature reply in
        ((decision : ScoreDecisionV1 F) × (outcome ≡ ok decision))
        ⊎ ((outcome ≡ err permanent_scoring_error)
            ⊎ ((outcome ≡ err retryable_scoring_error) ⊎ (outcome ≡ err runtime_error)))
  attempt_outcome-cases feature reply =
      elim (Result-cases (attempt_outcome model_version decode_response feature reply)) [
        | inl found ↦ inl found
        | inr (e, h) ↦ elim (outcome_error feature reply e h) [
          | inl permanent ↦ inr (inl (h ∙ ap err permanent))
          | inr (inl retryable) ↦ inr (inr (inl (h ∙ ap err retryable)))
          | inr (inr other) ↦ inr (inr (inr (h ∙ ap err other)))
        ]
      ]

  -- from the attempt on
  abbrev Spec :
      RetryPolicy → (ℕ → Reply) → FeatureVectorV1 F → ℕ → Result (ScoreDecisionV1 F) → Type 0
  Spec policy reply feature start r =
      Settled reply feature start policy.attempts r
      ⊎ Exhausted reply feature start policy.attempts r

  only_start :
      (reply : ℕ → Reply) (feature : FeatureVectorV1 F) (start j : ℕ)
      → Transient feature (reply start)
      → start ≤ j
      → j < start + 1
      → Transient feature (reply j)
  only_start reply feature start j h le lt =
      let same : start ≡ j = omega arith in subst (λ i. Transient feature (reply i)) same h

  settled_now :
      (policy : RetryPolicy) (reply : ℕ → Reply) (feature : FeatureVectorV1 F) (start : ℕ)
      (r : Result (ScoreDecisionV1 F))
      → start < policy.attempts
      → attempt_outcome model_version decode_response feature (reply start) ≡ r
      → (r ≡ err retryable_scoring_error → ⊥)
      → Spec policy reply feature start r
  settled_now policy reply feature start r lt h c = inl record {
    k = start;
    from = omega arith;
    below = lt;
    before = λ j le below. absurd (omega arith);
    outcome = h;
    conclusive = c;
  }

  settled_later :
      (policy : RetryPolicy) (reply : ℕ → Reply) (feature : FeatureVectorV1 F) (start : ℕ)
      (r : Result (ScoreDecisionV1 F))
      → Transient feature (reply start)
      → Spec policy reply feature (start + 1) r
      → Spec policy reply feature start r
  settled_later policy reply feature start r h (inl s) = inl record {
    k = s.k;
    from = omega (arith, s.from);
    below = s.below;
    before = λ j le below. elim (Bool-cases (j == start)) [
      | inl same ↦ only_start reply feature start j h le (ground arith)
      | inr other ↦ s.before j (ground arith) below
    ];
    outcome = s.outcome;
    conclusive = s.conclusive;
  }
  settled_later policy reply feature start r h (inr e) = inr record {
    all_transient = λ j le below. elim (Bool-cases (j == start)) [
      | inl same ↦ only_start reply feature start j h le (ground arith)
      | inr other ↦ e.all_transient j (ground arith) below
    ];
    outcome = e.outcome;
  }

  score_from-Spec :
      (policy : RetryPolicy) (reply : ℕ → Reply) (feature : FeatureVectorV1 F) (start left : ℕ)
      → start + left ≡ policy.attempts
      → 0 < left
      → policy.attempts ≤ length policy.delays_seconds + 1
      → Spec policy reply feature start
          (score_from model_version decode_response policy reply feature start left)
  unfolding score_from
  score_from-Spec policy reply feature start zero total pos delays = absurd (omega arith)
  score_from-Spec policy reply feature start (suc left) total pos delays =
      elim (attempt_outcome-cases feature (reply start)) [
        | inl (decision, h) ↦
            rw (score_from, h)
              (settled_now policy reply feature start (ok decision) (omega arith) h (λ e. cc))
        | inr (inl h) ↦
            rw (score_from, h)
              (settled_now policy reply feature start (err permanent_scoring_error) (omega arith) h
                (λ e. cc))
        | inr (inr (inr h)) ↦
            rw (score_from, h)
              (settled_now policy reply feature start (err runtime_error) (omega arith) h (λ e. cc))
        | inr (inr (inl h)) ↦ elim (Bool-cases (leb policy.attempts (start + 1))) [
          | inl last ↦
              rw (score_from, h, last)
                (inr record {
                  all_transient =
                      λ j le below. only_start reply feature start j h le (ground arith);
                  outcome = refl;
                })
          | inr more ↦
              rw (score_from, h, more, has_delay_below start policy.delays_seconds (ground arith))
                (settled_later policy reply feature start
                  (score_from model_version decode_response policy reply feature (start + 1) left) h
                  (score_from-Spec policy reply feature (start + 1) left (omega arith)
                    (ground arith) delays))
        ]
      ]

  -- For a retry policy with an attempt and a pause between any two: the score is the outcome of the first
  -- reply that is not transient, a decision, a permanent error or what else the client raises; where every reply is transient, it is a
  -- retryable error.
  pub score-Settled :
      (policy : RetryPolicy) (reply : ℕ → Reply) (feature : FeatureVectorV1 F)
      → 0 < policy.attempts
      → policy.attempts ≤ length policy.delays_seconds + 1
      → let r = score model_version decode_response policy reply feature in
        Settled reply feature 0 policy.attempts r ⊎ Exhausted reply feature 0 policy.attempts r
  unfolding score
  score-Settled policy reply feature pos delays =
      score_from-Spec policy reply feature 0 policy.attempts (omega arith) pos delays

  -- the outcome of an attempt is of the feature's window and session
  outcome-session :
      (feature : FeatureVectorV1 F) (reply : Reply) (decision : ScoreDecisionV1 F)
      → attempt_outcome model_version decode_response feature reply ≡ ok decision
      → (decision.window_id ≡ feature.window_id)
        × (decision.replay_session_id ≡ feature.replay_session_id)
  unfolding attempt_outcome validated_decision checked_decision
  outcome-session feature network_error decision h = absurd (cc)
  outcome-session feature other_error decision h = absurd (cc)
  outcome-session feature (response status_code content) decision h = (ground arith, ground arith)

  score_from-session :
      (policy : RetryPolicy) (reply : ℕ → Reply) (feature : FeatureVectorV1 F) (start left : ℕ)
      (decision : ScoreDecisionV1 F)
      → score_from model_version decode_response policy reply feature start left ≡ ok decision
      → (decision.window_id ≡ feature.window_id)
        × (decision.replay_session_id ≡ feature.replay_session_id)
  unfolding score_from
  score_from-session policy reply feature start zero decision h = absurd (cc)
  score_from-session policy reply feature start (suc left) decision h =
      elim (attempt_outcome-cases feature (reply start)) [
        | inl (first, found) ↦ outcome-session feature (reply start) decision (ground arith)
        | inr (inl found) ↦ absurd (ground arith)
        | inr (inr (inr found)) ↦ absurd (ground arith)
        | inr (inr (inl found)) ↦
            score_from-session policy reply feature (start + 1) left decision (ground arith)
      ]

  -- A score that is returned is of the feature's window and session.
  pub score-session :
      (policy : RetryPolicy) (reply : ℕ → Reply) (feature : FeatureVectorV1 F)
      (decision : ScoreDecisionV1 F)
      → score model_version decode_response policy reply feature ≡ ok decision
      → (decision.window_id ≡ feature.window_id)
        × (decision.replay_session_id ≡ feature.replay_session_id)
  unfolding score
  score-session policy reply feature decision h =
      score_from-session policy reply feature 0 policy.attempts decision h
