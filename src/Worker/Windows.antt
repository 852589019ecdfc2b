-- ===== src/Worker/Windows.antt =====
-- What the worker publishes: each feature vector is a window, and each score follows its feature vector.
use industrial_reliability_p.Base.{
  ℕ, ◌≡◌, refl, sym, ap, ◌∙◌, subst, String, Option, none, some, List, [], ◌∷◌, All, get, has,
  or_else, put-All, get-All, if_intro, Bool-cases, inl, inr, Error, Result, ok, err,
}
use industrial_reliability_p.Platform.{Uuid, Datetime, Platform}
use industrial_reliability_p.Messages.{
  FeatureVectorV1, ScoreDecisionV1, ReplayStatusV1, TelemetryEventV1,
}
use industrial_reliability_p.Features.Buffer.{Builder, Config, BuilderResult, SegmentCloseReason}
use industrial_reliability_p.Features.Builder.{push, complete}
use industrial_reliability_p.Features.Builder.Windows.{IsWellFormed, IsWindow}
use industrial_reliability_p.Features.Builder.Push.{Pushed, push-Pushed, complete-Pushed}
use industrial_reliability_p.Scoring.{default_retry_policy, score}
use industrial_reliability_p.Scoring.Attempts.{score-session}
use industrial_reliability_p.Worker.Model.{
  WorkerSettings, Offsets, Effect, feature_sent, score_sent, StreamingWorker, KafkaRecord, Outside,
  session_config, Handled, ◌continue◌, emit_valid,
}
use industrial_reliability_p.Worker.Session.{
  publish_quarantine, fail_session, is_scoring_error, scoring_failed, publish_score,
  process_feature, process_features, commit_nonempty, commit_offsets, publish_rest, flush_builder,
  complete_session,
}
use industrial_reliability_p.Worker.Records.{
  Codecs, reaches, clear_rolling, complete_reached, check_barrier, pushed, publish_pushed,
  push_event,
}

module _ (P : Platform) (settings : WorkerSettings) where
  open P use {Float}

  -- the feature vector is a window of a builder that the worker made for its session
  abbrev pub Windowed : FeatureVectorV1 Float → Type 0
  Windowed feature =
      (machine_id : String) × IsWindow P
        (session_config settings feature.replay_session_id machine_id) feature

  -- of the effects, the newest first: each feature vector is a window, and each score comes directly
  -- after the feature vector of its window and session
  abbrev pub Sent : List (Effect Float) → Type 0
  Sent [] = Unit
  Sent (feature_sent feature ∷ before) = Windowed feature × Sent before
  Sent (score_sent decision ∷ feature_sent feature ∷ before) =
      (decision.window_id ≡ feature.window_id)
      × (decision.replay_session_id ≡ feature.replay_session_id)
      × Sent (feature_sent feature ∷ before)
  Sent (score_sent decision ∷ before) = ⊥
  Sent (effect ∷ before) = Sent before

  -- a builder that the worker made for the session
  abbrev pub OwnBuilder : ℕ × (Config × Builder Float) → Type 0
  OwnBuilder (session_id, (cfg, builder)) =
      (machine_id : String) × (session_config settings session_id machine_id ≡ cfg)
      × IsWellFormed cfg builder

  pub record IsSound (w : StreamingWorker Float) : Type 0 where
    pub builders : All OwnBuilder w.builders
    pub sent : Sent w.effects

  -- the worker behind a handler is sound
  abbrev pub Sound : Handled Float → Type 0
  Sound m = IsSound m.0

  pub continue-IsSound :
      (m : Handled Float) (next : StreamingWorker Float → Handled Float)
      → IsSound m.0
      → ((w : StreamingWorker Float) → IsSound w → IsSound (next w).0)
      → IsSound (m continue next).0
  continue-IsSound (w, err raised) next s h = s
  continue-IsSound (w, ok done) next s h = h w s

  emit_valid-IsSound :
      (m : Result (Unit {0})) (effect : Effect Float) (w : StreamingWorker Float)
      → Sent (effect ∷ w.effects)
      → IsSound w
      → IsSound (emit_valid m effect w).0
  emit_valid-IsSound (err raised) effect w h s = s
  emit_valid-IsSound (ok valid) effect w h s = record { builders = s.builders; sent = h }

  pub publish_quarantine-IsSound :
      (outside : Outside Float) (r : KafkaRecord) (code detail : String) (w : StreamingWorker Float)
      → IsSound w
      → IsSound (publish_quarantine P outside r code detail w).0
  unfolding publish_quarantine
  publish_quarantine-IsSound outside r code detail w s = emit_valid-IsSound _ _ w s.sent s

  pub fail_session-IsSound :
      (outside : Outside Float) (session_id : Uuid) (code : String) (last_seq : ℕ)
      (source_ts : Datetime) (w : StreamingWorker Float)
      → IsSound w
      → IsSound (fail_session settings outside session_id code last_seq source_ts w).0
  unfolding fail_session
  fail_session-IsSound outside session_id code last_seq source_ts w s =
      emit_valid-IsSound _ _ _ s.sent (record { builders = s.builders; sent = s.sent })

  module _ (codecs : Codecs Float) where
    scoring_failed-IsSound :
        (outside : Outside Float) (feature : FeatureVectorV1 Float) (raised : Error)
        (w : StreamingWorker Float)
        → IsSound w
        → IsSound (scoring_failed P settings codecs.decode_response outside feature raised w).0
    unfolding scoring_failed
    scoring_failed-IsSound outside feature raised w s =
        elim (Bool-cases (is_scoring_error raised)) [
          | inr other ↦ rw other s
          | inl scoring ↦
              rw scoring
                (continue-IsSound _ _ (fail_session-IsSound outside _ _ _ _ w s) (λ w' s'. s'))
        ]

    publish_score-IsSound :
        (outside : Outside Float) (feature : FeatureVectorV1 Float) (before : List (Effect Float))
        (w : StreamingWorker Float) (m : Result (ScoreDecisionV1 Float))
        → w.effects ≡ feature_sent feature ∷ before
        → score settings.model_version codecs.decode_response default_retry_policy
            (outside.reply feature)
            feature
          ≡ m
        → IsSound w
        → IsSound (publish_score P settings codecs.decode_response outside feature w m).0
    unfolding publish_score
    publish_score-IsSound outside feature before w (err raised) last h s =
        scoring_failed-IsSound outside feature raised w s
    publish_score-IsSound outside feature before w (ok decision) last h s =
        let same =
          score-session settings.model_version codecs.decode_response default_retry_policy
            (outside.reply feature) feature decision h in
        let sent : Sent (feature_sent feature ∷ before) = subst Sent last s.sent in
        record {
          builders = s.builders;
          sent =
              subst (λ effects. Sent (score_sent decision ∷ effects)) (sym last)
                (same.0, same.1, sent);
        }

    pub process_feature-IsSound :
        (outside : Outside Float) (feature : FeatureVectorV1 Float) (w : StreamingWorker Float)
        → Windowed feature
        → IsSound w
        → IsSound (process_feature P settings codecs.decode_response outside feature w).0
    unfolding process_feature
    process_feature-IsSound outside feature w h s =
        publish_score-IsSound outside feature w.effects _ _ refl refl
          (record { builders = s.builders; sent = (h, s.sent) })

    pub process_features-IsSound :
        (outside : Outside Float) (features : List (FeatureVectorV1 Float))
        (w : StreamingWorker Float)
        → All Windowed features
        → IsSound w
        → IsSound (process_features P settings codecs.decode_response outside features w).0
    unfolding process_features
    process_features-IsSound outside [] w h s = s
    process_features-IsSound outside (feature ∷ features) w (h, hs) s =
        continue-IsSound _ _ (process_feature-IsSound outside feature w h s)
          (λ w' s'. process_features-IsSound outside features w' hs s')

    -- windows of a builder of the worker
    pub own_windows :
        (session_id : Uuid) (machine_id : String) (cfg : Config)
        (features : List (FeatureVectorV1 Float))
        → session_config settings session_id machine_id ≡ cfg
        → All (IsWindow P cfg) features
        → All Windowed features
    own_windows session_id machine_id cfg [] own h = tt
    own_windows session_id machine_id cfg (feature ∷ features) own (h, hs) =
        let same : session_id ≡ feature.replay_session_id =
          ap (λ (c : Config). c.replay_session_id) own ∙ sym h.session in
        let own' : cfg ≡ session_config settings feature.replay_session_id machine_id =
          sym own ∙ ap (λ s. session_config settings s machine_id) same in
        (
          (machine_id, subst (λ c. IsWindow P c feature) own' h),
          own_windows session_id machine_id cfg features own hs,
        )

    pub flush_builder-IsSound :
        (outside : Outside Float) (session_id : Uuid) (source_ts : Datetime)
        (w : StreamingWorker Float) (found : Option (Config × Builder Float))
        → get session_id w.builders ≡ found
        → IsSound w
        → IsSound
            (flush_builder P settings codecs.decode_response outside session_id source_ts w found).0
    unfolding flush_builder
    flush_builder-IsSound outside session_id source_ts w none h s = s
    flush_builder-IsSound outside session_id source_ts w (some (cfg, builder)) h s =
        let (machine_id, own, well) =
          get-All OwnBuilder session_id (cfg, builder) w.builders s.builders h in
        let m = complete P cfg outside.now source_ts builder in
        if_intro Sound builder.is_complete (w, ok tt)
          (publish_rest P settings codecs.decode_response outside session_id cfg w m) (λ done. s)
          (λ open_. go machine_id own m (complete-Pushed P cfg outside.now source_ts builder well))
      where
        go :
            (machine_id : String)
            → session_config settings session_id machine_id ≡ cfg
            → (m : Result (Builder Float × BuilderResult Float)) → Pushed P cfg outside.now m
            → IsSound (publish_rest P settings codecs.decode_response outside session_id cfg w m).0
        go machine_id own (err raised) p = s
        go machine_id own (ok (b, res)) p =
            process_features-IsSound outside res.features _
              (own_windows session_id machine_id cfg res.features own p.1)
              (record {
                builders =
                    put-All OwnBuilder session_id (cfg, b) w.builders (machine_id, own, p.0)
                      s.builders;
                sent = s.sent;
              })

    commit_nonempty-IsSound :
        (session_id : Uuid) (offsets : Offsets) (w : StreamingWorker Float)
        → IsSound w
        → IsSound (commit_nonempty P settings codecs.decode_response session_id offsets w).0
    commit_nonempty-IsSound session_id [] w s = s
    commit_nonempty-IsSound session_id (offset ∷ offsets) w s = record {
      builders = s.builders;
      sent = s.sent;
    }

    pub complete_session-IsSound :
        (outside : Outside Float) (status : ReplayStatusV1) (w : StreamingWorker Float)
        → IsSound w
        → IsSound (complete_session P settings codecs.decode_response outside status w).0
    unfolding complete_session
    complete_session-IsSound outside status w s =
        let session_id = status.replay_session_id in
        let flushed =
          flush_builder P settings codecs.decode_response outside session_id status.source_timestamp
            w (get session_id w.builders) in
        let commit = commit_offsets P settings codecs.decode_response session_id in
        if_intro Sound (has session_id w.failed_sessions) (w, ok tt) (flushed continue commit)
          (λ gone. s)
          (λ live.
            continue-IsSound flushed commit
              (flush_builder-IsSound outside session_id status.source_timestamp w
                (get session_id w.builders) refl s)
              (λ w' s'.
                commit_nonempty-IsSound session_id (or_else (get session_id w'.session_offsets) [])
                  w' s'))

    pub check_barrier-IsSound :
        (outside : Outside Float) (event : TelemetryEventV1 Float) (w : StreamingWorker Float)
        → IsSound w
        → IsSound (check_barrier P settings codecs outside event w).0
    unfolding check_barrier
    check_barrier-IsSound outside event w s = go (get event.replay_session_id w.terminal_status)
      where
        go :
            (found : Option ReplayStatusV1)
            → IsSound (complete_reached P settings codecs outside event.sequence w found).0
        go none = s
        go (some status) =
            if_intro Sound (reaches status event.sequence)
              (complete_session P settings codecs.decode_response outside status w) (w, ok tt)
              (λ reached. complete_session-IsSound outside status w s) (λ early. s)

    cleared-IsSound :
        (reason : Option SegmentCloseReason) (session_id : Uuid) (w : StreamingWorker Float)
        → IsSound w
        → IsSound (clear_rolling reason session_id w)
    cleared-IsSound none session_id w s = s
    cleared-IsSound (some reason) session_id w s = record { builders = s.builders; sent = s.sent }

    pub pushed-IsSound :
        (event : TelemetryEventV1 Float) (cfg : Config) (builder : Builder Float)
        (res : BuilderResult Float) (w : StreamingWorker Float)
        → OwnBuilder (event.replay_session_id, (cfg, builder))
        → IsSound w
        → IsSound (pushed P settings codecs event cfg builder res w)
    pushed-IsSound event cfg builder res w own s =
        cleared-IsSound res.segment_closed_reason event.replay_session_id _ (record {
          builders =
              put-All OwnBuilder event.replay_session_id (cfg, builder) w.builders own s.builders;
          sent = s.sent;
        })

    pub push_event-IsSound :
        (outside : Outside Float) (event : TelemetryEventV1 Float) (w : StreamingWorker Float)
        (cfg : Config) (builder : Builder Float)
        → OwnBuilder (event.replay_session_id, (cfg, builder))
        → IsSound w
        → IsSound (push_event P settings codecs outside event (cfg, builder) w).0
    unfolding push_event
    push_event-IsSound outside event w cfg builder (machine_id, own, well) s =
        go (push P cfg outside.now event builder) (push-Pushed P cfg outside.now event builder well)
      where
        session_id : Uuid
        session_id = event.replay_session_id

        go :
            (m : Result (Builder Float × BuilderResult Float))
            → Pushed P cfg outside.now m
            → IsSound (publish_pushed P settings codecs outside event cfg builder w m).0
        go (err raised) p = record {
          builders =
              put-All OwnBuilder session_id (cfg, builder) w.builders (machine_id, own, well)
                s.builders;
          sent = s.sent;
        }
        go (ok (b, res)) p =
            let after = pushed P settings codecs event cfg b res w in
            continue-IsSound
              (process_features P settings codecs.decode_response outside res.features after)
              (check_barrier P settings codecs outside event)
              (process_features-IsSound outside res.features after
                (own_windows session_id machine_id cfg res.features own p.1)
                (pushed-IsSound event cfg b res w (machine_id, own, p.0) s))
              (λ w' s'. check_barrier-IsSound outside event w' s')
