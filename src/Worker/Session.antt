-- ===== src/Worker/Session.antt =====
-- The operations on a session of src/industrial_reliability/worker.py.
use industrial_reliability_p.Base.{
  ℕ, String, Bool, true, false, Option, none, some, List, [], ◌∷◌, get, put, has, or_else,
  if◌then◌else◌, Result, ok, err, Error, session_failed_error, retryable_scoring_error,
  permanent_scoring_error,
}
use industrial_reliability_p.Platform.{Uuid, Datetime, Platform}
use industrial_reliability_p.Messages.{
  FeatureVectorV1, ScoreDecisionV1, ReplayStatusV1, QuarantineRecordV1, failed,
}
use industrial_reliability_p.Messages.Validate.{validate_status, validate_quarantine}
use industrial_reliability_p.Features.Buffer.{Builder, Config, BuilderResult}
use industrial_reliability_p.Features.Builder.{complete}
use industrial_reliability_p.Scoring.{default_retry_policy, score}
use industrial_reliability_p.Worker.Model.{
  WorkerSettings, Offsets, feature_sent, score_sent, status_sent, quarantine_sent,
  offsets_committed, StreamingWorker, KafkaRecord, Outside, track_values, Handled, ◌continue◌, emit,
  emit_valid,
}

module _ (P : Platform) where
  open P use {Float, sha256}

  -- `publish_quarantine`; the detail is given cut to 1000 characters
  unfoldable pub publish_quarantine :
      Outside Float → KafkaRecord → String → String → StreamingWorker Float → Handled Float
  publish_quarantine outside message error_code error_detail w =
      let quarantine : QuarantineRecordV1 = record {
        message_id = outside.quarantine_id;
        replay_session_id = none;
        source_dataset_sha256 = "0000000000000000000000000000000000000000000000000000000000000000";
        contract_sha256 = "0000000000000000000000000000000000000000000000000000000000000000";
        source_timestamp = record { tick = 63713433600000000; aware = false };
        emitted_at = record { tick = outside.now; aware = true };
        original_topic = message.topic;
        partition = message.partition;
        offset = message.offset;
        payload_sha256 = sha256 message.value;
        error_code = error_code;
        error_detail = error_detail;
      } in
      emit_valid (validate_quarantine quarantine) (quarantine_sent quarantine) w

module _ {F : Type 0} (settings : WorkerSettings) where
  -- `_fail_session`
  unfoldable pub fail_session :
      Outside F → Uuid → String → ℕ → Datetime → StreamingWorker F → Handled F
  fail_session outside session_id error_code last_seq source_ts w =
      let marked : StreamingWorker F = record w {
        failed_sessions = session_id ∷ w.failed_sessions;
        self_emitted_status_ids = outside.status_id ∷ w.self_emitted_status_ids;
      } in
      let status : ReplayStatusV1 = record {
        message_id = outside.status_id;
        replay_session_id = session_id;
        source_dataset_sha256 = settings.source_dataset_sha256;
        contract_sha256 = settings.contract_sha256;
        source_timestamp = source_ts;
        emitted_at = record { tick = outside.now; aware = true };
        state = failed;
        last_sequence = some last_seq;
        error_code = some error_code;
      } in
      emit_valid (validate_status status) (status_sent status) marked

abbrev pub is_scoring_error : Error → Bool
is_scoring_error retryable_scoring_error = true
is_scoring_error permanent_scoring_error = true
is_scoring_error raised = false

abbrev pub failure_code : Error → String
failure_code retryable_scoring_error = "SCORING_RETRY_EXHAUSTED"
failure_code raised = "SCORING_CONTRACT_MISMATCH"

module _ (P : Platform) (settings : WorkerSettings)
    (decode_response : String → Option (ScoreDecisionV1 P.Float)) where
  open P use {Float}

  -- the handler of a scoring error; any other error passes
  unfoldable pub scoring_failed :
      Outside Float → FeatureVectorV1 Float → Error → StreamingWorker Float → Handled Float
  unfolding fail_session
  scoring_failed outside feature raised w =
      let failed_worker =
        fail_session settings outside feature.replay_session_id (failure_code raised)
          (or_else (get feature.replay_session_id w.last_sequence) 0) feature.source_timestamp w in
      if is_scoring_error raised
      then failed_worker continue (λ w'. (w', err session_failed_error))
      else (w, err raised)

  -- the rolling features of the session behind a feature vector
  abbrev pub tracked : FeatureVectorV1 Float → StreamingWorker Float → StreamingWorker Float
  tracked feature w = record w {
    rolling_features =
        put feature.replay_session_id
          (track_values feature.feature_names feature.feature_values
            (or_else (get feature.replay_session_id w.rolling_features) []))
          w.rolling_features;
  }

  -- behind the request for a score
  unfoldable pub publish_score :
      Outside Float
      → FeatureVectorV1 Float
      → StreamingWorker Float
      → Result (ScoreDecisionV1 Float)
      → Handled Float
  unfolding scoring_failed
  publish_score outside feature w (err raised) = scoring_failed outside feature raised w
  publish_score outside feature w (ok decision) = (emit (score_sent decision) w, ok tt)

  -- `_process_feature`
  unfoldable pub process_feature :
      Outside Float → FeatureVectorV1 Float → StreamingWorker Float → Handled Float
  unfolding publish_score
  process_feature outside feature w =
      publish_score outside feature (emit (feature_sent feature) (tracked feature w)) (
        score settings.model_version decode_response default_retry_policy (outside.reply feature)
          feature)

  -- the loops over `res.features`
  unfoldable pub process_features :
      Outside Float → List (FeatureVectorV1 Float) → StreamingWorker Float → Handled Float
  unfolding process_feature
  process_features outside [] w = (w, ok tt)
  process_features outside (feature ∷ features) w =
      process_feature outside feature w continue process_features outside features

  abbrev pub commit_nonempty : Uuid → Offsets → StreamingWorker Float → Handled Float
  commit_nonempty session_id [] w = (w, ok tt)
  commit_nonempty session_id (offset ∷ offsets) w =
      (emit (offsets_committed session_id (offset ∷ offsets)) w, ok tt)

  -- the commit at the end of `_complete_session`
  abbrev pub commit_offsets : Uuid → StreamingWorker Float → Handled Float
  commit_offsets session_id w =
      commit_nonempty session_id (or_else (get session_id w.session_offsets) []) w

  -- behind `builder.complete(...)`
  abbrev pub publish_rest :
      Outside Float
      → Uuid
      → Config
      → StreamingWorker Float
      → Result (Builder Float × BuilderResult Float)
      → Handled Float
  publish_rest outside session_id cfg w (err raised) = (w, err raised)
  publish_rest outside session_id cfg w (ok (builder, res)) =
      process_features outside res.features
        (record w { builders = put session_id (cfg, builder) w.builders })

  -- the completion of the builder of the session, where there is one that is not complete
  unfoldable pub flush_builder :
      Outside Float
      → Uuid
      → Datetime
      → StreamingWorker Float
      → Option (Config × Builder Float)
      → Handled Float
  unfolding process_features
  flush_builder outside session_id source_ts w none = (w, ok tt)
  flush_builder outside session_id source_ts w (some (cfg, builder)) =
      if builder.is_complete
      then (w, ok tt)
      else publish_rest outside session_id cfg w (complete P cfg outside.now source_ts builder)

  abbrev pub flush_session : Outside Float → Uuid → Datetime → StreamingWorker Float → Handled Float
  flush_session outside session_id source_ts w =
      flush_builder outside session_id source_ts w (get session_id w.builders)

  -- `_complete_session`
  unfoldable pub complete_session :
      Outside Float → ReplayStatusV1 → StreamingWorker Float → Handled Float
  unfolding flush_builder
  complete_session outside status w =
      let session_id = status.replay_session_id in
      if has session_id w.failed_sessions
      then (w, ok tt)
      else flush_session outside session_id status.source_timestamp w
        continue commit_offsets session_id
