-- ===== src/Worker/Records.antt =====
-- The handlers of records of src/industrial_reliability/worker.py, and the loop over the records.
use industrial_reliability_p.Base.{
  ℕ, ◌+◌, String, Bool, true, false, ◌&&◌, not, Option, none, some, List, [], ◌∷◌, get, put, has,
  or_else, leb, ◌==◌, if◌then◌else◌, Result, ok, err,
}
use text.Mathlib.Text.{◌==◌ as str_eq}
use industrial_reliability_p.Platform.{Uuid, Platform}
use industrial_reliability_p.Messages.{
  ScoreDecisionV1, ReplayState, stopped, completed, ReplayStatusV1, TelemetryEventV1,
}
use industrial_reliability_p.Messages.Validate.{is_failed}
use industrial_reliability_p.Features.Buffer.{
  Builder, Config, BuilderResult, SegmentCloseReason, new_builder,
}
use industrial_reliability_p.Features.Builder.{push}
use industrial_reliability_p.Worker.Model.{
  WorkerSettings, Partition, set_offset, is_blocked, StreamingWorker, KafkaRecord, Outside,
  session_config, Handled, ◌continue◌,
}
use industrial_reliability_p.Worker.Session.{
  publish_quarantine, fail_session, process_features, complete_session,
}

-- what `decode_message` gives: a message, or the text of its error
pub data Decoded (M : Type 0) : Type 0 where
  unreadable : String → Decoded M
  message : M → Decoded M

abbrev pub telemetry_topic : String
telemetry_topic = "irp.telemetry.v1"

abbrev pub replay_status_topic : String
replay_status_topic = "irp.replay.status.v1"

abbrev pub is_completed : ReplayState → Bool
is_completed completed = true
is_completed state = false

-- `status.state in ("COMPLETED", "STOPPED")`
abbrev pub is_ended : ReplayState → Bool
is_ended completed = true
is_ended stopped = true
is_ended state = false

-- the codecs that the worker uses
pub record Codecs (F : Type 0) : Type 0 where
  pub decode_telemetry : String → Decoded (TelemetryEventV1 F)
  pub decode_status : String → Decoded ReplayStatusV1
  pub decode_response : String → Option (ScoreDecisionV1 F)

abbrev pub partition_of : KafkaRecord → Partition
partition_of r = (r.topic, r.partition)

-- the terminal status is COMPLETED and names this sequence
abbrev pub reaches : ReplayStatusV1 → ℕ → Bool
reaches status sequence =
    is_completed status.state && elim status.last_sequence [ none ↦ false | some n ↦ n == sequence ]

module _ {F : Type 0} where
  -- `session_offsets[session_id][tp] = offset + 1`
  abbrev pub track_offset : KafkaRecord → Uuid → StreamingWorker F → StreamingWorker F
  track_offset r session_id w = record w {
    session_offsets =
        put session_id
          (set_offset (partition_of r) (r.offset + 1)
            (or_else (get session_id w.session_offsets) []))
          w.session_offsets;
  }

  abbrev pub block : KafkaRecord → StreamingWorker F → StreamingWorker F
  block r w = record w { blocked_partitions = partition_of r ∷ w.blocked_partitions }

  -- the rolling features behind a push, cleared where the segment closed
  abbrev pub clear_rolling :
      Option SegmentCloseReason → Uuid → StreamingWorker F → StreamingWorker F
  clear_rolling none session_id w = w
  clear_rolling (some reason) session_id w = record w {
    rolling_features = put session_id [] w.rolling_features;
  }

module _ (P : Platform) (settings : WorkerSettings) (codecs : Codecs P.Float) where
  open P use {Float}

  -- the builder of the session, which is made where there is none
  abbrev pub session_builder :
      TelemetryEventV1 Float → StreamingWorker Float → Config × Builder Float
  session_builder event w =
      or_else (get event.replay_session_id w.builders)
        (session_config settings event.replay_session_id event.machine_id, new_builder)

  abbrev pub complete_reached :
      Outside Float → ℕ → StreamingWorker Float → Option ReplayStatusV1 → Handled Float
  complete_reached outside sequence w none = (w, ok tt)
  complete_reached outside sequence w (some status) =
      if reaches status sequence
      then complete_session P settings codecs.decode_response outside status w
      else (w, ok tt)

  -- the terminal status barrier
  unfoldable pub check_barrier :
      Outside Float → TelemetryEventV1 Float → StreamingWorker Float → Handled Float
  check_barrier outside event w =
      complete_reached outside event.sequence w (get event.replay_session_id w.terminal_status)

  -- the worker behind a push that returned
  abbrev pub pushed :
      TelemetryEventV1 Float
      → Config
      → Builder Float
      → BuilderResult Float
      → StreamingWorker Float
      → StreamingWorker Float
  pushed event cfg builder res w =
      clear_rolling res.segment_closed_reason event.replay_session_id (record w {
        builders = put event.replay_session_id (cfg, builder) w.builders;
        last_sequence = put event.replay_session_id event.sequence w.last_sequence;
      })

  -- behind `builder.push`
  abbrev pub publish_pushed :
      Outside Float
      → TelemetryEventV1 Float
      → Config
      → Builder Float
      → StreamingWorker Float
      → Result (Builder Float × BuilderResult Float)
      → Handled Float
  publish_pushed outside event cfg builder w (err raised) =
      (record w { builders = put event.replay_session_id (cfg, builder) w.builders }, err raised)
  publish_pushed outside event cfg builder w (ok (builder', res)) =
      process_features P settings codecs.decode_response outside res.features
        (pushed event cfg builder' res w)
      continue check_barrier outside event

  -- the end of `_handle_telemetry_record`, from `builder.push`
  unfoldable pub push_event :
      Outside Float
      → TelemetryEventV1 Float
      → Config × Builder Float
      → StreamingWorker Float
      → Handled Float
  unfolding check_barrier
  push_event outside event (cfg, builder) w =
      publish_pushed outside event cfg builder w (push P cfg outside.now event builder)

  abbrev pub matches_package : TelemetryEventV1 Float → Bool
  matches_package event =
      str_eq event.source_dataset_sha256 settings.source_dataset_sha256
      && str_eq event.contract_sha256 settings.contract_sha256

  -- `_handle_telemetry_record`, behind the decoding
  unfoldable pub handle_event :
      Outside Float → KafkaRecord → TelemetryEventV1 Float → StreamingWorker Float → Handled Float
  unfolding push_event
  handle_event outside r event w =
      let session_id = event.replay_session_id in
      if has session_id w.failed_sessions
      then (w, ok tt)
      else if not (matches_package event)
      then publish_quarantine P outside r "TELEMETRY_IDENTITY_MISMATCH"
          "telemetry identity does not match scoring package" w
        continue (λ w'.
            fail_session settings outside session_id "TELEMETRY_IDENTITY_MISMATCH"
              (or_else (get session_id w'.last_sequence) 0) event.source_timestamp w')
      else push_event outside event (session_builder event w) (track_offset r session_id w)

  unfoldable pub handle_decoded_event :
      Outside Float
      → KafkaRecord
      → StreamingWorker Float
      → Decoded (TelemetryEventV1 Float)
      → Handled Float
  unfolding handle_event
  handle_decoded_event outside r w (unreadable detail) =
      publish_quarantine P outside r "INVALID_TELEMETRY_PAYLOAD" detail (block r w)
  handle_decoded_event outside r w (message event) = handle_event outside r event w

  -- `_handle_telemetry_record`
  unfoldable pub handle_telemetry_record :
      Outside Float → KafkaRecord → StreamingWorker Float → Handled Float
  unfolding handle_decoded_event
  handle_telemetry_record outside r w =
      if is_blocked (partition_of r) w.blocked_partitions
      then (w, ok tt)
      else handle_decoded_event outside r w (codecs.decode_telemetry r.value)

  abbrev pub complete_seen :
      Outside Float → ReplayStatusV1 → StreamingWorker Float → Option ℕ → Handled Float
  complete_seen outside status w none = (w, ok tt)
  complete_seen outside status w (some last_sequence) =
      if leb last_sequence (or_else (get status.replay_session_id w.last_sequence) 0)
      then complete_session P settings codecs.decode_response outside status w
      else (w, ok tt)

  -- the worker with the terminal status, completed where it has seen the last sequence
  unfoldable pub end_session :
      Outside Float → ReplayStatusV1 → StreamingWorker Float → Handled Float
  end_session outside status w =
      let ended : StreamingWorker Float = record w {
        terminal_status = put status.replay_session_id status w.terminal_status;
      } in
      complete_seen outside status ended status.last_sequence

  -- `_handle_status_record`, behind the decoding
  unfoldable pub handle_status :
      Outside Float → KafkaRecord → ReplayStatusV1 → StreamingWorker Float → Handled Float
  unfolding end_session
  handle_status outside r status w =
      let session_id = status.replay_session_id in
      let seen : StreamingWorker Float = track_offset r session_id w in
      if has status.message_id w.self_emitted_status_ids
      then (w, ok tt)
      else if is_failed status.state
      then (record seen { failed_sessions = session_id ∷ seen.failed_sessions }, ok tt)
      else if is_ended status.state
      then end_session outside status seen
      else (seen, ok tt)

  unfoldable pub handle_decoded_status :
      Outside Float → KafkaRecord → StreamingWorker Float → Decoded ReplayStatusV1 → Handled Float
  unfolding handle_status
  handle_decoded_status outside r w (unreadable detail) =
      publish_quarantine P outside r "INVALID_STATUS_PAYLOAD" detail (block r w)
  handle_decoded_status outside r w (message status) = handle_status outside r status w

  -- `_handle_status_record`
  unfoldable pub handle_status_record :
      Outside Float → KafkaRecord → StreamingWorker Float → Handled Float
  unfolding handle_decoded_status
  handle_status_record outside r w =
      handle_decoded_status outside r w (codecs.decode_status r.value)

  -- `handle_record`
  unfoldable pub handle_record : Outside Float → KafkaRecord → StreamingWorker Float → Handled Float
  unfolding handle_telemetry_record handle_status_record
  handle_record outside r w =
      if str_eq r.topic telemetry_topic
      then handle_telemetry_record outside r w
      else if str_eq r.topic replay_status_topic
      then handle_status_record outside r w
      else (w, ok tt)

  -- the loop of `run`, which an exception ends
  unfoldable pub run : List (Outside Float × KafkaRecord) → StreamingWorker Float → Handled Float
  unfolding handle_record
  run [] w = (w, ok tt)
  run ((outside, r) ∷ records) w = handle_record outside r w continue run records
