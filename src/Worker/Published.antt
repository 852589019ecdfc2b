-- ===== src/Worker/Published.antt =====
-- Whatever records the worker is given, what it publishes is sound.
use industrial_reliability_p.Base.{
  ℕ, ◌≡◌, refl, String, not, Option, none, some, List, [], ◌∷◌, get, has, or_else, leb, get-All,
  if_intro, if◌then◌else◌, ok,
}
use text.Mathlib.Text.{◌==◌ as str_eq}
use industrial_reliability_p.Platform.{Platform}
use industrial_reliability_p.Messages.{ReplayStatusV1, TelemetryEventV1}
use industrial_reliability_p.Messages.Validate.{is_failed}
use industrial_reliability_p.Features.Buffer.{Builder, Config, new_builder}
use industrial_reliability_p.Features.Builder.Push.{new_builder-IsWellFormed}
use industrial_reliability_p.Worker.Model.{
  WorkerSettings, is_blocked, StreamingWorker, new_worker, KafkaRecord, Outside, session_config,
  Handled, ◌continue◌,
}
use industrial_reliability_p.Worker.Session.{publish_quarantine, fail_session, complete_session}
use industrial_reliability_p.Worker.Records.{
  Decoded, unreadable, message, Codecs, telemetry_topic, replay_status_topic, partition_of,
  track_offset, is_ended, session_builder, push_event, matches_package, handle_event,
  handle_telemetry_record, end_session, handle_status, handle_status_record, handle_record, run,
}
use industrial_reliability_p.Worker.Windows.{
  Sent, OwnBuilder, IsSound, Sound, continue-IsSound, publish_quarantine-IsSound,
  fail_session-IsSound, complete_session-IsSound, push_event-IsSound,
}
use industrial_reliability_p.Worker.Records.{
  block, handle_decoded_event, handle_decoded_status, complete_seen,
}

module _ (P : Platform) (settings : WorkerSettings) (codecs : Codecs P.Float) where
  open P use {Float}

  pub own_builder :
      (event : TelemetryEventV1 Float) (w : StreamingWorker Float)
      → IsSound P settings w
      → OwnBuilder P settings (event.replay_session_id, session_builder P settings codecs event w)
  own_builder event w s = go (get event.replay_session_id w.builders) refl
    where
      fresh : Config × Builder Float
      fresh = (session_config settings event.replay_session_id event.machine_id, new_builder)

      go :
          (found : Option (Config × Builder Float))
          → get event.replay_session_id w.builders ≡ found
          → OwnBuilder P settings (event.replay_session_id, or_else found fresh)
      go none h = (event.machine_id, refl, new_builder-IsWellFormed P fresh.0 0)
      go (some (cfg, builder)) h =
          get-All (OwnBuilder P settings) event.replay_session_id (cfg, builder) w.builders
            s.builders h

  handle_event-IsSound :
      (outside : Outside Float) (r : KafkaRecord) (event : TelemetryEventV1 Float)
      (w : StreamingWorker Float)
      → IsSound P settings w
      → IsSound P settings (handle_event P settings codecs outside r event w).0
  unfolding handle_event
  handle_event-IsSound outside r event w s =
      let Q = Sound P settings in
      let session_id = event.replay_session_id in
      let code : String = "TELEMETRY_IDENTITY_MISMATCH" in
      let quarantined =
        publish_quarantine P outside r code "telemetry identity does not match scoring package" w in
      let fail : StreamingWorker Float → Handled Float = λ w'.
        fail_session settings outside session_id code (or_else (get session_id w'.last_sequence) 0)
          event.source_timestamp w' in
      let refused = quarantined continue fail in
      let tracked = track_offset r session_id w in
      let (cfg, builder) = session_builder P settings codecs event w in
      let accepted = push_event P settings codecs outside event (cfg, builder) tracked in
      if_intro Q (has session_id w.failed_sessions) (w, ok tt)
        (if not (matches_package P settings codecs event) then refused else accepted) (λ gone. s)
        (λ live.
          if_intro Q (not (matches_package P settings codecs event)) refused accepted
            (λ other.
              continue-IsSound P settings quarantined fail
                (publish_quarantine-IsSound P settings outside r code
                  "telemetry identity does not match scoring package" w s)
                (λ w' s'.
                  fail_session-IsSound P settings outside session_id code
                    (or_else (get session_id w'.last_sequence) 0) event.source_timestamp w' s'))
            (λ same.
              push_event-IsSound P settings codecs outside event tracked cfg builder
                (own_builder event w s) (record { builders = s.builders; sent = s.sent })))

  handle_decoded_event-IsSound :
      (outside : Outside Float) (r : KafkaRecord) (w : StreamingWorker Float)
      (m : Decoded (TelemetryEventV1 Float))
      → IsSound P settings w
      → IsSound P settings (handle_decoded_event P settings codecs outside r w m).0
  unfolding handle_decoded_event
  handle_decoded_event-IsSound outside r w (unreadable detail) s =
      publish_quarantine-IsSound P settings outside r "INVALID_TELEMETRY_PAYLOAD" detail (block r w)
        (record { builders = s.builders; sent = s.sent })
  handle_decoded_event-IsSound outside r w (message event) s =
      handle_event-IsSound outside r event w s

  end_session-IsSound :
      (outside : Outside Float) (status : ReplayStatusV1) (w : StreamingWorker Float)
      → IsSound P settings w
      → IsSound P settings (end_session P settings codecs outside status w).0
  unfolding end_session
  end_session-IsSound outside status w s =
      go status.last_sequence _ (record { builders = s.builders; sent = s.sent })
    where
      go :
          (last : Option ℕ) (v : StreamingWorker Float)
          → IsSound P settings v
          → IsSound P settings (complete_seen P settings codecs outside status v last).0
      go none v t = t
      go (some n) v t =
          if_intro (Sound P settings)
            (leb n (or_else (get status.replay_session_id v.last_sequence) 0))
            (complete_session P settings codecs.decode_response outside status v) (v, ok tt)
            (λ seen. complete_session-IsSound P settings codecs outside status v t) (λ early. t)

  handle_status-IsSound :
      (outside : Outside Float) (r : KafkaRecord) (status : ReplayStatusV1)
      (w : StreamingWorker Float)
      → IsSound P settings w
      → IsSound P settings (handle_status P settings codecs outside r status w).0
  unfolding handle_status
  handle_status-IsSound outside r status w s =
      let Q = Sound P settings in
      let seen : StreamingWorker Float = track_offset r status.replay_session_id w in
      let failed_worker : Handled Float = (
        record seen { failed_sessions = status.replay_session_id ∷ seen.failed_sessions },
        ok tt,
      ) in
      let ended = end_session P settings codecs outside status seen in
      if_intro Q (has status.message_id w.self_emitted_status_ids) (w, ok tt)
        (if is_failed status.state
          then failed_worker
          else if is_ended status.state
          then ended
          else (seen, ok tt))
        (λ own. s)
        (λ other.
          if_intro Q (is_failed status.state) failed_worker
            (if is_ended status.state then ended else (seen, ok tt))
            (λ f. record { builders = s.builders; sent = s.sent })
            (λ g.
              if_intro Q (is_ended status.state) ended (seen, ok tt)
                (λ e.
                  end_session-IsSound outside status seen
                    (record { builders = s.builders; sent = s.sent }))
                (λ e. record { builders = s.builders; sent = s.sent })))

  handle_decoded_status-IsSound :
      (outside : Outside Float) (r : KafkaRecord) (w : StreamingWorker Float)
      (m : Decoded ReplayStatusV1)
      → IsSound P settings w
      → IsSound P settings (handle_decoded_status P settings codecs outside r w m).0
  unfolding handle_decoded_status
  handle_decoded_status-IsSound outside r w (unreadable detail) s =
      publish_quarantine-IsSound P settings outside r "INVALID_STATUS_PAYLOAD" detail (block r w)
        (record { builders = s.builders; sent = s.sent })
  handle_decoded_status-IsSound outside r w (message status) s =
      handle_status-IsSound outside r status w s

  pub handle_record-IsSound :
      (outside : Outside Float) (r : KafkaRecord) (w : StreamingWorker Float)
      → IsSound P settings w
      → IsSound P settings (handle_record P settings codecs outside r w).0
  unfolding handle_record handle_telemetry_record handle_status_record
  handle_record-IsSound outside r w s =
      let Q = Sound P settings in
      let event =
        handle_decoded_event P settings codecs outside r w (codecs.decode_telemetry r.value) in
      let status = handle_status_record P settings codecs outside r w in
      if_intro Q (str_eq r.topic telemetry_topic)
        (handle_telemetry_record P settings codecs outside r w)
        (if str_eq r.topic replay_status_topic then status else (w, ok tt))
        (λ t.
          if_intro Q (is_blocked (partition_of r) w.blocked_partitions) (w, ok tt) event
            (λ blocked. s)
            (λ open_. handle_decoded_event-IsSound outside r w (codecs.decode_telemetry r.value) s))
        (λ t.
          if_intro Q (str_eq r.topic replay_status_topic) status (w, ok tt)
            (λ u. handle_decoded_status-IsSound outside r w (codecs.decode_status r.value) s)
            (λ u. s))

  pub run-IsSound :
      (records : List (Outside Float × KafkaRecord)) (w : StreamingWorker Float)
      → IsSound P settings w
      → IsSound P settings (run P settings codecs records w).0
  unfolding run
  run-IsSound [] w s = s
  run-IsSound ((outside, r) ∷ records) w s =
      continue-IsSound P settings (handle_record P settings codecs outside r w)
        (run P settings codecs records) (handle_record-IsSound outside r w s)
        (λ w' s'. run-IsSound records w' s')

  -- A worker that starts fresh is given any records, in any order, also malformed, repeated or of other
  -- sessions and topics, and the replies of the scoring service are any. Then each feature vector that it
  -- has published is a window of six full bins of its session, and each score was published directly after
  -- the feature vector of its window and session.
  pub run-Sent :
      (records : List (Outside Float × KafkaRecord))
      → Sent P settings (run P settings codecs records new_worker).0.effects
  run-Sent records = (run-IsSound records new_worker (record { builders = tt; sent = tt })).sent
