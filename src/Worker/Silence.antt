-- ===== src/Worker/Silence.antt =====
-- A failed session of the worker stays silent.
use industrial_reliability_p.Base.{
  ℕ, ◌≡◌, refl, ap, ◌∙◌, String, Bool, true, false, List, [], ◌∷◌, All, get, has, or_else, if_intro,
  if◌then◌else◌, session_failed_error, Result, ok, err, ◌==◌, arith,
}
use industrial_reliability_p.Platform.{Uuid, Datetime, Platform}
use industrial_reliability_p.Messages.{FeatureVectorV1, ScoreDecisionV1}
use industrial_reliability_p.Features.Buffer.{Config}
use industrial_reliability_p.Features.Builder.Windows.{IsWindow}
use industrial_reliability_p.Scoring.{default_retry_policy, score}
use industrial_reliability_p.Scoring.Attempts.{score-session}
use industrial_reliability_p.Worker.Model.{
  WorkerSettings, Effect, feature_sent, score_sent, status_sent, quarantine_sent, offsets_committed,
  StreamingWorker, KafkaRecord, Outside, Handled, ◌continue◌, emit, emit_valid,
}
use industrial_reliability_p.Worker.Session.{
  publish_quarantine, fail_session, is_scoring_error, failure_code, tracked, scoring_failed,
  publish_score, process_feature, process_features,
}
use industrial_reliability_p.Worker.Records.{Codecs}

module _ {F : Type 0} (sid : Uuid) where
  -- the effect publishes a feature vector or a score of the session, or is a commit made for the session; a commit
  -- made for another session, which Kafka takes to cover all earlier offsets of the partition, is not counted
  abbrev pub is_output : Effect F → Bool
  is_output (feature_sent feature) = feature.replay_session_id == sid
  is_output (score_sent decision) = decision.replay_session_id == sid
  is_output (status_sent status) = false
  is_output (quarantine_sent quarantine) = false
  is_output (offsets_committed session_id offsets) = session_id == sid

  unfoldable pub outputs_of : List (Effect F) → List (Effect F)
  outputs_of [] = []
  outputs_of (effect ∷ before) =
      let rest = outputs_of before in if is_output effect then effect ∷ rest else rest

  -- the session has failed, and `base` is what it has output
  abbrev pub Quiet : List (Effect F) → StreamingWorker F → Type 0
  Quiet base w = (outputs_of w.effects ≡ base) × (has sid w.failed_sessions ≡ true)

  pub emit-Quiet :
      (base : List (Effect F)) (effect : Effect F) (w : StreamingWorker F)
      → is_output effect ≡ false
      → Quiet base w
      → Quiet base (emit effect w)
  unfolding outputs_of
  emit-Quiet base effect w h (same, gone) = (rw (outputs_of, h) same, gone)

  emit_valid-Quiet :
      (base : List (Effect F)) (m : Result (Unit {0})) (effect : Effect F) (w : StreamingWorker F)
      → is_output effect ≡ false
      → Quiet base w
      → Quiet base (emit_valid m effect w).0
  emit_valid-Quiet base (err raised) effect w h q = q
  emit_valid-Quiet base (ok valid) effect w h q = emit-Quiet base effect w h q

  pub continue-Quiet :
      (base : List (Effect F)) (m : Handled F) (next : StreamingWorker F → Handled F)
      → Quiet base m.0
      → ((w : StreamingWorker F) → Quiet base w → Quiet base (next w).0)
      → Quiet base (m continue next).0
  continue-Quiet base (w, err raised) next q h = q
  continue-Quiet base (w, ok done) next q h = h w q

  pub fail_session-Quiet :
      (settings : WorkerSettings) (base : List (Effect F)) (outside : Outside F) (session_id : Uuid)
      (code : String) (last_seq : ℕ) (source_ts : Datetime) (w : StreamingWorker F)
      → Quiet base w
      → Quiet base (fail_session settings outside session_id code last_seq source_ts w).0
  unfolding fail_session
  fail_session-Quiet settings base outside session_id code last_seq source_ts w (same, gone) =
      emit_valid-Quiet base _ _ _ refl (same, ground arith)

module _ (P : Platform) (settings : WorkerSettings) (codecs : Codecs P.Float) (sid : Uuid)
    (base : List (Effect P.Float)) where
  open P use {Float}

  abbrev pub Silent : Handled Float → Type 0
  Silent m = Quiet sid base m.0

  pub publish_quarantine-Silent :
      (outside : Outside Float) (r : KafkaRecord) (code detail : String) (w : StreamingWorker Float)
      → Quiet sid base w
      → Silent (publish_quarantine P outside r code detail w)
  unfolding publish_quarantine
  publish_quarantine-Silent outside r code detail w q = emit_valid-Quiet sid base _ _ w refl q

  publish_score-Silent :
      (outside : Outside Float) (feature : FeatureVectorV1 Float) (w : StreamingWorker Float)
      (m : Result (ScoreDecisionV1 Float))
      → score settings.model_version codecs.decode_response default_retry_policy
          (outside.reply feature)
          feature
        ≡ m
      → (feature.replay_session_id == sid) ≡ false
      → Quiet sid base w
      → Silent (publish_score P settings codecs.decode_response outside feature w m)
  unfolding publish_score scoring_failed
  publish_score-Silent outside feature w (err raised) h other q =
      let code = failure_code raised in
      let last_seq = or_else (get feature.replay_session_id w.last_sequence) 0 in
      let session_id = feature.replay_session_id in
      let failing =
        fail_session settings outside session_id code last_seq feature.source_timestamp w in
      let raise : StreamingWorker Float → Handled Float = λ w'. (w', err session_failed_error) in
      if_intro Silent (is_scoring_error raised) (failing continue raise) (w, err raised)
        (λ scoring.
          continue-Quiet sid base failing raise
            (fail_session-Quiet sid settings base outside session_id code last_seq
              feature.source_timestamp w q)
            (λ w' q'. q'))
        (λ unknown. q)
  publish_score-Silent outside feature w (ok decision) h other q =
      let same =
        score-session settings.model_version codecs.decode_response default_retry_policy
          (outside.reply feature) feature decision h in
      emit-Quiet sid base (score_sent decision) w (ap (λ n. n == sid) same.1 ∙ other) q

  pub process_features-Silent :
      (outside : Outside Float) (features : List (FeatureVectorV1 Float))
      (w : StreamingWorker Float)
      → All (λ feature. (feature.replay_session_id == sid) ≡ false) features
      → Quiet sid base w
      → Silent (process_features P settings codecs.decode_response outside features w)
  unfolding process_features process_feature
  process_features-Silent outside [] w h q = q
  process_features-Silent outside (feature ∷ features) w (h, hs) q =
      continue-Quiet sid base (process_feature P settings codecs.decode_response outside feature w)
        (process_features P settings codecs.decode_response outside features)
        (publish_score-Silent outside feature
          (emit (feature_sent feature) (tracked P settings codecs.decode_response feature w))
          (score settings.model_version codecs.decode_response default_retry_policy
            (outside.reply feature) feature)
          refl h
          (emit-Quiet sid base (feature_sent feature)
            (tracked P settings codecs.decode_response feature w) h q))
        (λ w' q'. process_features-Silent outside features w' hs q')

  -- the windows of a builder are of its session
  pub of_session :
      (cfg : Config) (features : List (FeatureVectorV1 Float))
      → (cfg.replay_session_id == sid) ≡ false
      → All (IsWindow P cfg) features
      → All (λ feature. (feature.replay_session_id == sid) ≡ false) features
  of_session cfg [] other h = tt
  of_session cfg (feature ∷ features) other (h, hs) =
      (ap (λ n. n == sid) h.session ∙ other, of_session cfg features other hs)
