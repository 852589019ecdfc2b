-- ===== src/Features/Builder/Push.antt =====
-- `push` and `complete` keep the builder well formed and emit only windows.
use industrial_reliability_p.Base.{
  ℕ, ◌≡◌, refl, true, false, ◌&&◌, Option, none, some, List, [], ◌∷◌, ◌++◌, All, All-append, arith,
  ltb, Bool-cases, opt_eq, inl, inr, Result, ok, err, ◌>>=◌, String,
}
use industrial_reliability_p.Platform.{Datetime, Platform}
use industrial_reliability_p.Messages.{FeatureVectorV1, TelemetryEventV1}
use industrial_reliability_p.Features.Bins.{compute_bin_end, compute_bin_end_least}
use industrial_reliability_p.Features.Statistics.{TelemetrySample}
use industrial_reliability_p.Features.Buffer.{
  BuilderResult, Config, Builder, Check, ignored, accepted, reset_segment, opt_str_eq, new_builder,
}
use industrial_reliability_p.Features.Builder.{
  check_sequence_and_ordering, enter_bin, add_sample, push_checked, push, is_repeat, is_gap,
  is_regression, remember, complete, extract_sample, Binned, hash_event_payload,
}
use industrial_reliability_p.Features.Builder.Windows.{InBin, CurrentBin, IsWellFormed, IsWindow}
use industrial_reliability_p.Features.Builder.Entry.{
  Finalized, ClosedEmpty, Fresh, EndsAt, Entered, finalize_current_bin-Finalized,
  reset-IsWellFormed, cross_bin-Entered,
}

module _ (P : Platform) (cfg : Config) (now : ℕ) where
  open P use {Float}

  -- the builder and the result behind a call
  abbrev pub Pushed : Result (Builder Float × BuilderResult Float) → Type 0
  Pushed (err e) = Unit
  Pushed (ok (b, r)) =
      IsWellFormed cfg b
      × All (IsWindow P cfg) r.features
      × ClosedEmpty P cfg now r.segment_closed_reason b.valid_bin_buffer r.features

  add_to_bin :
      (o : Option Datetime) (samples : List (TelemetrySample Float))
      (sample : TelemetrySample Float) (ts : Datetime)
      → sample.timestamp ≡ ts
      → EndsAt P cfg now o (compute_bin_end ts)
      → CurrentBin o samples
      → CurrentBin o (samples ++ sample ∷ [])
  add_to_bin none samples sample ts at e h = absurd e
  add_to_bin (some bin_end) samples sample ts at e h =
      All-append (InBin bin_end) samples (sample ∷ []) h
        (ground (arith, compute_bin_end_least ts), tt)

  extract_sample-timestamp :
      (event : TelemetryEventV1 Float) (sample : TelemetrySample Float)
      → extract_sample P cfg event ≡ ok sample
      → sample.timestamp ≡ event.source_timestamp
  unfolding extract_sample
  extract_sample-timestamp event sample h = ground arith

  add_sample-Pushed :
      (event : TelemetryEventV1 Float) (payload_hash : String) (m : Result (Binned P cfg))
      → Entered P cfg now (compute_bin_end event.source_timestamp) m
      → Pushed (m >>= λ binned. add_sample P cfg event payload_hash binned)
  unfolding add_sample
  add_sample-Pushed event payload_hash (err e) h = tt
  add_sample-Pushed event payload_hash (ok (b, features, reason)) (w, ends, ws, closed) =
      go (extract_sample P cfg event) refl
    where
      go :
          (m : Result (TelemetrySample Float))
          → extract_sample P cfg event ≡ m
          → Pushed (
              m >>= λ sample. ok (
                remember P cfg event payload_hash sample b,
                record { features = features; segment_closed_reason = reason },
              ))
      go (err e) h = tt
      go (ok sample) h = (
        record {
          good = w.good;
          spaced = w.spaced;
          bounded = w.bounded;
          current =
              add_to_bin b.current_bin_end b.current_bin_samples sample event.source_timestamp
                (extract_sample-timestamp event sample h) ends w.current;
        },
        ws,
        closed,
      )

  -- the builder behind the checks of the sequence
  abbrev Checked : Builder Float × Check → Type 0
  Checked (b, ignored reason) =
      IsWellFormed cfg b × ClosedEmpty P cfg now reason b.valid_bin_buffer []
  Checked (b, accepted reason) = IsWellFormed cfg b × Fresh P cfg now reason b

  check_sequence_and_ordering-Checked :
      (event : TelemetryEventV1 Float) (payload_hash : String) (b : Builder Float)
      → IsWellFormed cfg b
      → Checked (check_sequence_and_ordering P cfg event payload_hash b)
  unfolding check_sequence_and_ordering reset_segment
  check_sequence_and_ordering-Checked event payload_hash b w =
      elim (Bool-cases (is_repeat P cfg b event)) [
        | inl repeat ↦
            elim (Bool-cases (
              opt_eq (some event.message_id) b.last_event_id
              && opt_str_eq b.last_payload_hash payload_hash)) [
                | inl same ↦ rw (repeat, same) (w, tt)
                | inr conflict ↦
                    rw (repeat, conflict) (reset-IsWellFormed P cfg now b none, (refl, refl))
              ]
        | inr fresh ↦ elim (Bool-cases (is_gap P cfg b event)) [
          | inl gap ↦ rw (fresh, gap) (reset-IsWellFormed P cfg now b none, (refl, refl))
          | inr next ↦ elim (Bool-cases (is_regression P cfg b event)) [
            | inl back ↦ rw (fresh, next, back) (reset-IsWellFormed P cfg now b none, (refl, refl))
            | inr forward ↦ rw (fresh, next, forward) (w, tt)
          ]
        ]
      ]

  push_checked-Pushed :
      (event : TelemetryEventV1 Float) (payload_hash : String) (b : Builder Float) (check : Check)
      → Checked (b, check)
      → Pushed (push_checked P cfg now event payload_hash b check)
  unfolding push_checked enter_bin
  push_checked-Pushed event payload_hash b (ignored reason) (w, closed) = (w, tt, closed)
  push_checked-Pushed event payload_hash b (accepted reason) (w, f) =
      add_sample-Pushed event payload_hash _ (
        cross_bin-Entered P cfg now (compute_bin_end event.source_timestamp) reason b
          b.current_bin_end w refl w.current f)

  -- From a well-formed builder, whatever `push` returns is well formed; each feature vector it emits is a
  -- window of full, evenly spaced bins; and when it reports that the segment closed, it emits nothing and
  -- keeps no bin.
  pub push-Pushed :
      (event : TelemetryEventV1 Float) (b : Builder Float)
      → IsWellFormed cfg b
      → Pushed (push P cfg now event b)
  unfolding push
  push-Pushed event b w =
      let payload_hash = hash_event_payload P cfg event in
      let checked = check_sequence_and_ordering P cfg event payload_hash b in
      push_checked-Pushed event payload_hash checked.0 checked.1
        (check_sequence_and_ordering-Checked event payload_hash b w)

  -- From a well-formed builder, whatever `complete` returns is well formed, and each feature vector it
  -- emits is a window of full, evenly spaced bins.
  pub complete-Pushed :
      (ts : Datetime) (b : Builder Float) → IsWellFormed cfg b → Pushed (complete P cfg now ts b)
  unfolding complete
  complete-Pushed ts b w =
      elim (Bool-cases (elim b.last_timestamp [ none ↦ false | some t ↦ ltb ts.tick t.tick ])) [
        | inl early ↦ rw early tt
        | inr late ↦ rw late (go _ _ (finalize_current_bin-Finalized P cfg now b w))
      ]
    where
      go :
          (o : Option Datetime) (m : Result (Builder Float × List (FeatureVectorV1 Float)))
          → Finalized P cfg now o m
          → Pushed (
              m >>= λ r. ok (
                record r.0 { is_complete = true },
                record { features = r.1; segment_closed_reason = none },
              ))
      go o (err e) f = tt
      go o (ok (b, features)) (w, empty, at, ws) = (
        record { good = w.good; spaced = w.spaced; bounded = w.bounded; current = w.current },
        ws,
        tt,
      )

  pub new_builder-IsWellFormed : IsWellFormed {F = Float} cfg new_builder
  new_builder-IsWellFormed = record {
    good = tt;
    spaced = tt;
    bounded = omega arith;
    current = refl;
  }
