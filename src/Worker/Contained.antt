-- ===== src/Worker/Contained.antt =====
-- Records after the failure of a session add nothing to its outputs.
use industrial_reliability_p.Base.{
  ℕ, ◌≡◌, refl, sym, ap, ◌∙◌, String, true, false, not, Option, none, some, List, [], ◌∷◌, get, put,
  has, or_else, leb, get-All, if_intro, if◌then◌else◌, Bool-cases, inl, inr, Result, ok, err, ◌==◌,
  arith,
}
use text.Mathlib.Text.{◌==◌ as str_eq}
use industrial_reliability_p.Platform.{Uuid, Datetime, Platform}
use industrial_reliability_p.Messages.{ReplayStatusV1, TelemetryEventV1}
use industrial_reliability_p.Messages.Validate.{is_failed}
use industrial_reliability_p.Features.Buffer.{Builder, Config, BuilderResult, SegmentCloseReason}
use industrial_reliability_p.Features.Builder.{push, complete}
use industrial_reliability_p.Features.Builder.Push.{Pushed, push-Pushed, complete-Pushed}
use industrial_reliability_p.Worker.Model.{
  WorkerSettings, Offsets, is_blocked, Effect, offsets_committed, StreamingWorker, new_worker,
  KafkaRecord, Outside, Handled, ◌continue◌,
}
use industrial_reliability_p.Worker.Session.{
  publish_quarantine, fail_session, process_features, commit_nonempty, commit_offsets, publish_rest,
  flush_builder, complete_session,
}
use industrial_reliability_p.Worker.Records.{
  Decoded, unreadable, message, Codecs, telemetry_topic, replay_status_topic, partition_of,
  track_offset, reaches, is_ended, session_builder, clear_rolling, complete_reached, check_barrier,
  pushed, publish_pushed, push_event, matches_package, handle_event, handle_telemetry_record,
  end_session, handle_status, handle_status_record, handle_record, run,
}
use industrial_reliability_p.Worker.Windows.{
  own_windows, process_features-IsSound, pushed-IsSound, OwnBuilder, IsSound,
}
use industrial_reliability_p.Worker.Records.{
  block, handle_decoded_event, handle_decoded_status, complete_seen,
}
use industrial_reliability_p.Worker.Published.{handle_record-IsSound, own_builder}
use industrial_reliability_p.Worker.Silence.{
  outputs_of, Quiet, emit-Quiet, continue-Quiet, fail_session-Quiet, publish_quarantine-Silent,
  process_features-Silent, of_session,
}
use industrial_reliability_p.Worker.Published.{run-IsSound}

module _ (P : Platform) (settings : WorkerSettings) (codecs : Codecs P.Float) (sid : Uuid)
    (base : List (Effect P.Float)) where
  open P use {Float}

  abbrev Keeps : Handled Float → Type 0
  Keeps m = Quiet sid base m.0

  -- a session that has not failed is not the one that has
  other_session :
      (session_id : Uuid) (w : StreamingWorker Float)
      → has session_id w.failed_sessions ≡ false
      → Quiet sid base w
      → (session_id == sid) ≡ false
  other_session session_id w live (same, gone) = elim (Bool-cases (session_id == sid)) [
    | inr other ↦ other
    | inl equal ↦
        let equal' : session_id ≡ sid = ground arith in
        let moved = ap (λ n. has n w.failed_sessions) equal' in absurd (cc)
  ]

  flush_builder-Keeps :
      (outside : Outside Float) (session_id : Uuid) (source_ts : Datetime)
      (w : StreamingWorker Float) (found : Option (Config × Builder Float))
      → get session_id w.builders ≡ found
      → (session_id == sid) ≡ false
      → IsSound P settings w
      → Quiet sid base w
      → Keeps (flush_builder P settings codecs.decode_response outside session_id source_ts w found)
  unfolding flush_builder
  flush_builder-Keeps outside session_id source_ts w none h other s q = q
  flush_builder-Keeps outside session_id source_ts w (some (cfg, builder)) h other s q =
      let (machine_id, own, well) =
        get-All (OwnBuilder P settings) session_id (cfg, builder) w.builders s.builders h in
      let m = complete P cfg outside.now source_ts builder in
      let other' : (cfg.replay_session_id == sid) ≡ false =
        ap (λ (c : Config). c.replay_session_id == sid) (sym own) ∙ other in
      if_intro Keeps builder.is_complete (w, ok tt)
        (publish_rest P settings codecs.decode_response outside session_id cfg w m) (λ done. q)
        (λ open_. go other' m (complete-Pushed P cfg outside.now source_ts builder well))
    where
      go :
          (cfg.replay_session_id == sid) ≡ false
          → (m : Result (Builder Float × BuilderResult Float)) → Pushed P cfg outside.now m
          → Keeps (publish_rest P settings codecs.decode_response outside session_id cfg w m)
      go other' (err raised) p = q
      go other' (ok (b, res)) p =
          process_features-Silent P settings codecs sid base outside res.features
            (record w { builders = put session_id (cfg, b) w.builders })
            (of_session P settings codecs sid base cfg res.features other' p.1) q

  commit_nonempty-Keeps :
      (session_id : Uuid) (offsets : Offsets) (w : StreamingWorker Float)
      → (session_id == sid) ≡ false
      → Quiet sid base w
      → Keeps (commit_nonempty P settings codecs.decode_response session_id offsets w)
  commit_nonempty-Keeps session_id [] w other q = q
  commit_nonempty-Keeps session_id (offset ∷ offsets) w other q =
      emit-Quiet sid base (offsets_committed session_id (offset ∷ offsets)) w other q

  complete_session-Keeps :
      (outside : Outside Float) (status : ReplayStatusV1) (w : StreamingWorker Float)
      → IsSound P settings w
      → Quiet sid base w
      → Keeps (complete_session P settings codecs.decode_response outside status w)
  unfolding complete_session
  complete_session-Keeps outside status w s q =
      let session_id = status.replay_session_id in
      let flushed =
        flush_builder P settings codecs.decode_response outside session_id status.source_timestamp w
          (get session_id w.builders) in
      let commit = commit_offsets P settings codecs.decode_response session_id in
      if_intro Keeps (has session_id w.failed_sessions) (w, ok tt) (flushed continue commit)
        (λ gone. q)
        (λ live.
          let other = other_session session_id w live q in
          continue-Quiet sid base flushed commit
            (flush_builder-Keeps outside session_id status.source_timestamp w
              (get session_id w.builders) refl other s q)
            (λ w' q'.
              commit_nonempty-Keeps session_id (or_else (get session_id w'.session_offsets) []) w'
                other q'))

  check_barrier-Keeps :
      (outside : Outside Float) (event : TelemetryEventV1 Float) (w : StreamingWorker Float)
      → IsSound P settings w
      → Quiet sid base w
      → Keeps (check_barrier P settings codecs outside event w)
  unfolding check_barrier
  check_barrier-Keeps outside event w s q = go (get event.replay_session_id w.terminal_status)
    where
      go :
          (found : Option ReplayStatusV1)
          → Keeps (complete_reached P settings codecs outside event.sequence w found)
      go none = q
      go (some status) =
          if_intro Keeps (reaches status event.sequence)
            (complete_session P settings codecs.decode_response outside status w) (w, ok tt)
            (λ reached. complete_session-Keeps outside status w s q) (λ early. q)

  -- the state of a worker whose handler keeps both invariants
  abbrev Both : StreamingWorker Float → Type 0
  Both w = IsSound P settings w × Quiet sid base w

  continue-Both :
      (m : Handled Float) (next : StreamingWorker Float → Handled Float)
      → Both m.0
      → ((w : StreamingWorker Float) → Both w → Keeps (next w))
      → Keeps (m continue next)
  continue-Both (w, err raised) next b h = b.1
  continue-Both (w, ok done) next b h = h w b

  push_event-Keeps :
      (outside : Outside Float) (event : TelemetryEventV1 Float) (w : StreamingWorker Float)
      (cfg : Config) (builder : Builder Float)
      → OwnBuilder P settings (event.replay_session_id, (cfg, builder))
      → (event.replay_session_id == sid) ≡ false
      → IsSound P settings w
      → Quiet sid base w
      → Keeps (push_event P settings codecs outside event (cfg, builder) w)
  unfolding push_event
  push_event-Keeps outside event w cfg builder (machine_id, own, well) other s q =
      go (push P cfg outside.now event builder) (push-Pushed P cfg outside.now event builder well)
    where
      cleared-Quiet :
          (reason : Option SegmentCloseReason) (v : StreamingWorker Float)
          → Quiet sid base v
          → Quiet sid base (clear_rolling reason event.replay_session_id v)
      cleared-Quiet none v t = t
      cleared-Quiet (some reason) v t = t

      go :
          (m : Result (Builder Float × BuilderResult Float))
          → Pushed P cfg outside.now m
          → Keeps (publish_pushed P settings codecs outside event cfg builder w m)
      go (err raised) p = q
      go (ok (b, res)) p =
          let after = pushed P settings codecs event cfg b res w in
          let other' : (cfg.replay_session_id == sid) ≡ false =
            ap (λ (c : Config). c.replay_session_id == sid) (sym own) ∙ other in
          continue-Both
            (process_features P settings codecs.decode_response outside res.features after)
            (check_barrier P settings codecs outside event)
            (
              process_features-IsSound P settings codecs outside res.features after
                  (own_windows P settings codecs event.replay_session_id machine_id cfg res.features
                    own p.1)
                  (pushed-IsSound P settings codecs event cfg b res w (machine_id, own, p.0) s),
              process_features-Silent P settings codecs sid base outside res.features after
                  (of_session P settings codecs sid base cfg res.features other' p.1)
                  (cleared-Quiet res.segment_closed_reason _ q),
            )
            (λ w' (s', q'). check_barrier-Keeps outside event w' s' q')

  handle_event-Keeps :
      (outside : Outside Float) (r : KafkaRecord) (event : TelemetryEventV1 Float)
      (w : StreamingWorker Float)
      → IsSound P settings w
      → Quiet sid base w
      → Keeps (handle_event P settings codecs outside r event w)
  unfolding handle_event
  handle_event-Keeps outside r event w s q =
      let session_id = event.replay_session_id in
      let code : String = "TELEMETRY_IDENTITY_MISMATCH" in
      let quarantined =
        publish_quarantine P outside r code "telemetry identity does not match scoring package" w in
      let fail : StreamingWorker Float → Handled Float = λ w'.
        fail_session settings outside session_id code (or_else (get session_id w'.last_sequence) 0)
          event.source_timestamp w' in
      let refused = quarantined continue fail in
      let tracked = track_offset r session_id w in
      let (cfg, builder) = session_builder P settings codecs event w in
      let accepted = push_event P settings codecs outside event (cfg, builder) tracked in
      if_intro Keeps (has session_id w.failed_sessions) (w, ok tt)
        (if not (matches_package P settings codecs event) then refused else accepted) (λ gone. q)
        (λ live.
          if_intro Keeps (not (matches_package P settings codecs event)) refused accepted
            (λ mismatch.
              continue-Quiet sid base quarantined fail
                (publish_quarantine-Silent P settings codecs sid base outside r code
                  "telemetry identity does not match scoring package" w q)
                (λ w' q'.
                  fail_session-Quiet sid settings base outside session_id code
                    (or_else (get session_id w'.last_sequence) 0) event.source_timestamp w' q'))
            (λ same.
              push_event-Keeps outside event tracked cfg builder
                (own_builder P settings codecs event w s) (other_session session_id w live q)
                (record { builders = s.builders; sent = s.sent }) q))

  handle_decoded_event-Keeps :
      (outside : Outside Float) (r : KafkaRecord) (w : StreamingWorker Float)
      (m : Decoded (TelemetryEventV1 Float))
      → IsSound P settings w
      → Quiet sid base w
      → Keeps (handle_decoded_event P settings codecs outside r w m)
  unfolding handle_decoded_event
  handle_decoded_event-Keeps outside r w (unreadable detail) s q =
      publish_quarantine-Silent P settings codecs sid base outside r "INVALID_TELEMETRY_PAYLOAD"
        detail (block r w) q
  handle_decoded_event-Keeps outside r w (message event) s q =
      handle_event-Keeps outside r event w s q

  end_session-Keeps :
      (outside : Outside Float) (status : ReplayStatusV1) (w : StreamingWorker Float)
      → IsSound P settings w
      → Quiet sid base w
      → Keeps (end_session P settings codecs outside status w)
  unfolding end_session
  end_session-Keeps outside status w s q =
      go status.last_sequence _ (record { builders = s.builders; sent = s.sent }) q
    where
      go :
          (last : Option ℕ) (v : StreamingWorker Float)
          → IsSound P settings v
          → Quiet sid base v
          → Keeps (complete_seen P settings codecs outside status v last)
      go none v t u = u
      go (some n) v t u =
          if_intro Keeps (leb n (or_else (get status.replay_session_id v.last_sequence) 0))
            (complete_session P settings codecs.decode_response outside status v) (v, ok tt)
            (λ seen. complete_session-Keeps outside status v t u) (λ early. u)

  handle_status-Keeps :
      (outside : Outside Float) (r : KafkaRecord) (status : ReplayStatusV1)
      (w : StreamingWorker Float)
      → IsSound P settings w
      → Quiet sid base w
      → Keeps (handle_status P settings codecs outside r status w)
  unfolding handle_status
  handle_status-Keeps outside r status w s (same, gone) =
      let seen : StreamingWorker Float = track_offset r status.replay_session_id w in
      let failed_worker : Handled Float = (
        record seen { failed_sessions = status.replay_session_id ∷ seen.failed_sessions },
        ok tt,
      ) in
      let ended = end_session P settings codecs outside status seen in
      if_intro Keeps (has status.message_id w.self_emitted_status_ids) (w, ok tt)
        (if is_failed status.state
          then failed_worker
          else if is_ended status.state
          then ended
          else (seen, ok tt))
        (λ own. (same, gone))
        (λ other.
          if_intro Keeps (is_failed status.state) failed_worker
            (if is_ended status.state then ended else (seen, ok tt)) (λ f. (same, ground arith))
            (λ g.
              if_intro Keeps (is_ended status.state) ended (seen, ok tt)
                (λ e.
                  end_session-Keeps outside status seen
                    (record { builders = s.builders; sent = s.sent }) (same, gone))
                (λ e. (same, gone))))

  handle_decoded_status-Keeps :
      (outside : Outside Float) (r : KafkaRecord) (w : StreamingWorker Float)
      (m : Decoded ReplayStatusV1)
      → IsSound P settings w
      → Quiet sid base w
      → Keeps (handle_decoded_status P settings codecs outside r w m)
  unfolding handle_decoded_status
  handle_decoded_status-Keeps outside r w (unreadable detail) s q =
      publish_quarantine-Silent P settings codecs sid base outside r "INVALID_STATUS_PAYLOAD" detail
        (block r w) q
  handle_decoded_status-Keeps outside r w (message status) s q =
      handle_status-Keeps outside r status w s q

  handle_record-Keeps :
      (outside : Outside Float) (r : KafkaRecord) (w : StreamingWorker Float)
      → IsSound P settings w
      → Quiet sid base w
      → Keeps (handle_record P settings codecs outside r w)
  unfolding handle_record handle_telemetry_record handle_status_record
  handle_record-Keeps outside r w s q =
      let event =
        handle_decoded_event P settings codecs outside r w (codecs.decode_telemetry r.value) in
      let status = handle_status_record P settings codecs outside r w in
      if_intro Keeps (str_eq r.topic telemetry_topic)
        (handle_telemetry_record P settings codecs outside r w)
        (if str_eq r.topic replay_status_topic then status else (w, ok tt))
        (λ t.
          if_intro Keeps (is_blocked (partition_of r) w.blocked_partitions) (w, ok tt) event
            (λ blocked. q)
            (λ open_. handle_decoded_event-Keeps outside r w (codecs.decode_telemetry r.value) s q))
        (λ t.
          if_intro Keeps (str_eq r.topic replay_status_topic) status (w, ok tt)
            (λ u. handle_decoded_status-Keeps outside r w (codecs.decode_status r.value) s q)
            (λ u. q))

  run-Keeps :
      (records : List (Outside Float × KafkaRecord)) (w : StreamingWorker Float)
      → IsSound P settings w
      → Quiet sid base w
      → Keeps (run P settings codecs records w)
  unfolding run
  run-Keeps [] w s q = q
  run-Keeps ((outside, r) ∷ records) w s q =
      continue-Both (handle_record P settings codecs outside r w) (run P settings codecs records)
        (handle_record-IsSound P settings codecs outside r w s, handle_record-Keeps outside r w s q)
        (λ w' (s', q'). run-Keeps records w' s' q')

-- A fresh worker is given any records; where a session has then failed, whatever further records come, the
-- worker publishes no feature vector and no score of the session and makes no commit for it, and the session
-- stays failed; what a commit for another session covers is not restricted.
pub run-Contained :
    (P : Platform) (settings : WorkerSettings) (codecs : Codecs P.Float) (session_id : Uuid)
    (records further : List (Outside P.Float × KafkaRecord))
    → let w = (run P settings codecs records new_worker).0 in
      let w' = (run P settings codecs further w).0 in
      has session_id w.failed_sessions ≡ true
      → (outputs_of session_id w'.effects ≡ outputs_of session_id w.effects)
        × (has session_id w'.failed_sessions ≡ true)
run-Contained P settings codecs session_id records further h =
    let w = (run P settings codecs records new_worker).0 in
    run-Keeps P settings codecs session_id (outputs_of session_id w.effects) further w
      (run-IsSound P settings codecs records new_worker (record { builders = tt; sent = tt }))
      (refl, h)
