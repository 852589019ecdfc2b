-- ===== src/Features/Builder.antt =====
-- `OnlineFeatureBuilder` of src/industrial_reliability/online_features.py. A call that raises leaves the
-- builder unspecified: its caller ends the run.
pub mod Windows
pub mod Entry
pub mod Push
use Prim.Native.String.{◌++◌ as ◌<>◌}
use industrial_reliability_p.Base.{
  ℕ, suc, ◌+◌, ◌-◌, ◌*◌, String, Bool, true, false, not, ◌&&◌, ◌||◌, Option, none, some, List, [],
  ◌∷◌, ◌++◌, map, ltb, leb, ◌==◌, opt_eq, is_some, length, get_last?, head?, if◌then◌else◌, Result,
  ok, err, value_error, attribute_error, index_error, ◌>>=◌, ◌>>◌,
}
use text.Mathlib.Text.{◌==◌ as str_eq}
use industrial_reliability_p.Platform.{Uuid, Datetime, Platform}
use industrial_reliability_p.Ids.{runtime_id}
use industrial_reliability_p.Messages.{CoverageEvidenceV1, FeatureVectorV1, TelemetryEventV1}
use industrial_reliability_p.Messages.Validate.{validate_feature_vector}
use industrial_reliability_p.Features.Bins.{compute_bin_end}
use industrial_reliability_p.Features.Statistics.{TelemetrySample, compute_feature_values}
use industrial_reliability_p.Features.Buffer.{
  Bin, Builder, BuilderResult, Check, Config, SegmentCloseReason, accepted, all_samples, attribute,
  attributes, conflicting_duplicate, continued_buffer, default_analog_cols, default_digital_cols,
  drop_oldest, ignored, invalid_bin, new_builder, next_buffer, opt_str_eq, reset_segment,
  sequence_gap, stride_ticks, timestamp_regression,
}

module _ (P : Platform) (cfg : Config) where
  open P use {Float, int_str, isoformat, floats_str, ints_str, sha256}

  unfoldable pub extract_sample : TelemetryEventV1 Float → Result (TelemetrySample Float)
  unfolding attributes
  extract_sample event = do
    analog ← attributes default_analog_cols event.analog cfg.analog_cols
    digital ← attributes default_digital_cols event.digital cfg.digital_cols
    ok (record { timestamp = event.source_timestamp; analog = analog; digital = digital })

  unfoldable pub hash_event_payload : TelemetryEventV1 Float → String
  hash_event_payload event = sha256 (
      int_str event.sequence
      <> ":"
      <> isoformat event.source_timestamp
      <> ":"
      <> floats_str event.analog
      <> ":"
      <> ints_str event.digital)

  -- what `_emit_window` builds from a buffer that starts with `first` and ends with `last`
  abbrev pub window_of :
      ℕ → Uuid → List Float → Bin Float → Bin Float → List (Bin Float) → FeatureVectorV1 Float
  window_of now window_id values first last buffer = record {
    message_id = window_id;
    replay_session_id = cfg.replay_session_id;
    source_dataset_sha256 = cfg.source_dataset_sha256;
    contract_sha256 = cfg.contract_sha256;
    source_timestamp = last.0;
    emitted_at = record { tick = now; aware = true };
    window_id = window_id;
    machine_id = cfg.machine_id;
    window_start = record { tick = first.0.tick - stride_ticks cfg; aware = first.0.aware };
    window_end = last.0;
    feature_names = cfg.feature_names;
    feature_values = values;
    coverage = record {
      observations_by_bin = map (λ bin. length bin.1) buffer;
      bin_ends = map (λ bin. bin.0) buffer;
    };
  }

  -- `_emit_window`: `buffer[0]` and `buffer[-1]` raise on an empty buffer
  unfoldable pub emit_window : ℕ → List (Bin Float) → Result (FeatureVectorV1 Float)
  emit_window now buffer = elim (head? buffer) [
    | none ↦ err index_error
    | some first ↦ elim (get_last? buffer) [
      | none ↦ err index_error
      | some last ↦ do
        values ←
            compute_feature_values P (all_samples buffer) cfg.feature_names cfg.analog_cols
              cfg.digital_cols
        window_id ← runtime_id P "window" cfg.replay_session_id (isoformat last.0)
        let vector : FeatureVectorV1 Float = window_of now window_id values first last buffer
        validate_feature_vector P vector
        ok vector
    ]
  ]

  -- the emission at the end of `_finalize_current_bin`
  unfoldable pub emit_full :
      ℕ → List (Bin Float) → Builder Float → Result (Builder Float × List (FeatureVectorV1 Float))
  emit_full now buffer b =
      let b' : Builder Float = record b { valid_bin_buffer = buffer; current_bin_samples = [] } in
      if length buffer == cfg.lookback_bins
      then (do vector ← emit_window now buffer; ok (b', vector ∷ []))
      else ok (b', [])

  -- `_finalize_current_bin`, by the end of the current bin
  unfoldable pub finalize_bin :
      ℕ → Builder Float → Option Datetime → Result (Builder Float × List (FeatureVectorV1 Float))
  finalize_bin now b none = ok (b, [])
  finalize_bin now b (some bin_end) =
      if leb cfg.min_bin_observations (length b.current_bin_samples)
      then emit_full now (next_buffer cfg bin_end b.current_bin_samples b.valid_bin_buffer) b
      else ok (record b { valid_bin_buffer = []; current_bin_samples = [] }, [])

  -- `_finalize_current_bin`
  unfoldable pub finalize_current_bin :
      ℕ → Builder Float → Result (Builder Float × List (FeatureVectorV1 Float))
  finalize_current_bin now b = finalize_bin now b b.current_bin_end

  abbrev pub is_repeat : Builder Float → TelemetryEventV1 Float → Bool
  is_repeat b event = elim b.last_sequence [ none ↦ false | some n ↦ event.sequence == n ]

  abbrev pub is_gap : Builder Float → TelemetryEventV1 Float → Bool
  is_gap b event = elim b.last_sequence [ none ↦ false | some n ↦ not (event.sequence == n + 1) ]

  abbrev pub is_regression : Builder Float → TelemetryEventV1 Float → Bool
  is_regression b event = elim b.last_timestamp [
    | none ↦ false
    | some t ↦ ltb event.source_timestamp.tick t.tick
  ]

  unfoldable pub check_sequence_and_ordering :
      TelemetryEventV1 Float → String → Builder Float → Builder Float × Check
  check_sequence_and_ordering event payload_hash b =
      if is_repeat b event
      then (if opt_eq (some event.message_id) b.last_event_id
            && opt_str_eq b.last_payload_hash payload_hash
          then (b, ignored none)
          else (reset_segment b, ignored (some conflicting_duplicate)))
      else if is_gap b event
      then (reset_segment b, accepted (some sequence_gap))
      else if is_regression b event
      then (reset_segment b, accepted (some timestamp_regression))
      else (b, accepted none)

  -- the state behind the bin checks: the builder, the features, and the reason
  abbrev pub Binned : Type 0
  Binned = Builder Float × List (FeatureVectorV1 Float) × Option SegmentCloseReason

  -- the bin boundary checks of `push`, against the end of the current bin
  unfoldable pub cross_bin :
      ℕ → Datetime → Option SegmentCloseReason → Builder Float → Option Datetime → Result Binned
  cross_bin now event_bin_end close_reason b none =
      ok (record b { current_bin_end = some event_bin_end }, [], close_reason)
  cross_bin now event_bin_end close_reason b (some current) =
      if event_bin_end.tick == current.tick
      then ok (b, [], close_reason)
      else if ltb event_bin_end.tick current.tick
      then ok (
        record (reset_segment b) { current_bin_end = some event_bin_end },
        [],
        some timestamp_regression,
      )
      else if ltb (current.tick + stride_ticks cfg) event_bin_end.tick
      then (do
        (b', dropped) ← finalize_current_bin now b
        ok (
          record b' { valid_bin_buffer = []; current_bin_end = some event_bin_end },
          [],
          some invalid_bin,
        ))
      else (do
        (b', emitted) ← finalize_current_bin now b
        ok (record b' { current_bin_end = some event_bin_end }, emitted, close_reason))

  -- the bin boundary checks of `push`
  unfoldable pub enter_bin :
      ℕ → Datetime → Option SegmentCloseReason → Builder Float → Result Binned
  enter_bin now event_bin_end close_reason b =
      cross_bin now event_bin_end close_reason b b.current_bin_end

  -- the builder with the sample in its bin and the event remembered
  abbrev pub remember :
      TelemetryEventV1 Float → String → TelemetrySample Float → Builder Float → Builder Float
  remember event payload_hash sample b = record b {
    current_bin_samples = b.current_bin_samples ++ sample ∷ [];
    last_sequence = some event.sequence;
    last_timestamp = some event.source_timestamp;
    last_event_id = some event.message_id;
    last_payload_hash = some payload_hash;
  }

  -- the rest of `push`
  unfoldable pub add_sample :
      TelemetryEventV1 Float → String → Binned → Result (Builder Float × BuilderResult Float)
  add_sample event payload_hash (b, emitted, close_reason) = do
    sample ← extract_sample event
    ok (
      remember event payload_hash sample b,
      record { features = emitted; segment_closed_reason = close_reason },
    )

  unfoldable pub push_checked :
      ℕ
      → TelemetryEventV1 Float
      → String
      → Builder Float
      → Check
      → Result (Builder Float × BuilderResult Float)
  push_checked now event payload_hash b (ignored close_reason) =
      ok (b, record { features = []; segment_closed_reason = close_reason })
  push_checked now event payload_hash b (accepted close_reason) = do
    binned ← enter_bin now (compute_bin_end event.source_timestamp) close_reason b
    add_sample event payload_hash binned

  unfoldable pub push :
      ℕ → TelemetryEventV1 Float → Builder Float → Result (Builder Float × BuilderResult Float)
  unfolding check_sequence_and_ordering push_checked
  push now event b =
      let payload_hash = hash_event_payload event in
      let (b', check) = check_sequence_and_ordering event payload_hash b in
      push_checked now event payload_hash b' check

  unfoldable pub complete :
      ℕ → Datetime → Builder Float → Result (Builder Float × BuilderResult Float)
  complete now source_timestamp b =
      if elim b.last_timestamp [ none ↦ false | some t ↦ ltb source_timestamp.tick t.tick ]
      then err value_error
      else (do
        (b', emitted) ← finalize_current_bin now b
        ok (
          record b' { is_complete = true },
          record { features = emitted; segment_closed_reason = none },
        ))
