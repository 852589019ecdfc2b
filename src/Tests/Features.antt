-- ===== src/Tests/Features.antt =====
-- The feature builder at concrete inputs.
use industrial_reliability_p.Base.{
  ℕ, zero, suc, ◌+◌, ◌*◌, ◌%◌, ◌≤◌, ◌<◌, ◌≡◌, refl, true, false, Option, none, some, List, [], ◌∷◌,
  length, All, arith, Result, ok, err,
}
use industrial_reliability_p.Platform.{Datetime}
use industrial_reliability_p.Messages.{TelemetryEventV1}
use industrial_reliability_p.Messages.Validate.{is_hex64, char_count, validate_feature_vector}
use industrial_reliability_p.Ids.{runtime_id}
use industrial_reliability_p.Features.Bins.{compute_bin_end, compute_bin_end_least}
use industrial_reliability_p.Features.Statistics.{TelemetrySample, compute_feature_values}
use industrial_reliability_p.Features.Buffer.{
  BuilderResult, Config, Bin, Builder, default_analog_cols, default_digital_cols, next_buffer,
  attributes, all_samples,
}
use industrial_reliability_p.Features.Builder.{
  push, complete, extract_sample, finalize_current_bin, check_sequence_and_ordering, enter_bin,
  emit_window, cross_bin, finalize_bin, emit_full, add_sample,
}
use industrial_reliability_p.Features.Builder.Windows.{InBin, GoodBin, IsWellFormed}
use industrial_reliability_p.Features.Builder.Push.{Pushed, push-Pushed, complete-Pushed}
use industrial_reliability_p.Tests.Toy.{toy, hash_a, hash_b}

abbrev second : ℕ → Datetime
second n = record { tick = n * 1000000; aware = false }

-- 12:03:07 of some day is in the bin that ends at 12:05
compute_bin_end_least_example :
    (43387000000 ≤ (compute_bin_end (second 43387)).tick)
    × ((compute_bin_end (second 43387)).tick < 43387000000 + 300000000)
    × ((compute_bin_end (second 43387)).tick % 300000000 ≡ 0)
    × ((compute_bin_end (second 43387)).aware ≡ false)
compute_bin_end_least_example = compute_bin_end_least (second 43387)

abbrev config : Config
config = record {
  replay_session_id = 7;
  machine_id = "metropt-compressor-01";
  source_dataset_sha256 = hash_a;
  contract_sha256 = hash_b;
  feature_names = "tp2_last" ∷ "motor_current_delta" ∷ "comp_transition_count" ∷ [];
  stride_seconds = 300;
  lookback_bins = 6;
  min_bin_observations = 24;
  analog_cols = default_analog_cols;
  digital_cols = default_digital_cols;
}

abbrev sample : ℕ → TelemetrySample ℕ
sample n = record {
  timestamp = second (300 * n);
  analog = 1 ∷ 2 ∷ 3 ∷ 4 ∷ 5 ∷ 60 ∷ 7 ∷ [];
  digital = 0 ∷ 1 ∷ 0 ∷ 1 ∷ 0 ∷ 1 ∷ 0 ∷ 1 ∷ [];
}

abbrev copies : ℕ → TelemetrySample ℕ → List (TelemetrySample ℕ)
copies zero s = []
copies (suc n) s = s ∷ copies n s

abbrev bin : ℕ → Bin ℕ
bin n = (second (300 * n), copies 24 (sample n))

copies-InBin : (k n : ℕ) → All (InBin (second (300 * n))) (copies k (sample n))
copies-InBin zero n = tt
copies-InBin (suc k) n = ((omega arith, omega arith), copies-InBin k n)

bin-GoodBin : (n : ℕ) → GoodBin config (bin n)
bin-GoodBin n = (omega arith, copies-InBin 24 n)

-- five bins are full, and so is the current one
abbrev builder : Builder ℕ
builder = record {
  last_sequence = some 144;
  last_timestamp = some (second 1800);
  last_event_id = some 9;
  last_payload_hash = some hash_a;
  current_bin_end = some (second 1800);
  current_bin_samples = copies 24 (sample 6);
  valid_bin_buffer = bin 1 ∷ bin 2 ∷ bin 3 ∷ bin 4 ∷ bin 5 ∷ [];
  is_complete = false;
}

builder-IsWellFormed : IsWellFormed config builder
builder-IsWellFormed = record {
  good = (bin-GoodBin 1, (bin-GoodBin 2, (bin-GoodBin 3, (bin-GoodBin 4, (bin-GoodBin 5, tt)))));
  spaced = (refl, (refl, (refl, (refl, tt))));
  bounded = omega arith;
  current = copies-InBin 24 6;
}

-- the first event of the seventh bin
abbrev event : TelemetryEventV1 ℕ
event = record {
  message_id = 10;
  replay_session_id = 7;
  source_dataset_sha256 = hash_a;
  contract_sha256 = hash_b;
  source_timestamp = second 1810;
  emitted_at = record { tick = 1; aware = true };
  machine_id = "metropt-compressor-01";
  sequence = 145;
  analog = 1 ∷ 2 ∷ 3 ∷ 4 ∷ 5 ∷ 60 ∷ 7 ∷ [];
  digital = 0 ∷ 1 ∷ 0 ∷ 1 ∷ 0 ∷ 1 ∷ 0 ∷ 1 ∷ [];
}

abbrev feature_count : Result (Builder ℕ × BuilderResult ℕ) → Option ℕ
feature_count (err e) = none
feature_count (ok (b, r)) = some (length r.features)

-- it completes a window
event_emits : feature_count (push toy config 3 event builder) ≡ some 1
unfolding push emit_window next_buffer attributes extract_sample finalize_current_bin
    check_sequence_and_ordering enter_bin compute_bin_end compute_feature_values
    validate_feature_vector runtime_id is_hex64 char_count cross_bin finalize_bin emit_full
    all_samples add_sample
event_emits = refl

push-Pushed_example : Pushed toy config 3 (push toy config 3 event builder)
push-Pushed_example = push-Pushed toy config 3 event builder builder-IsWellFormed

complete-Pushed_example : Pushed toy config 3 (complete toy config 3 (second 1800) builder)
complete-Pushed_example = complete-Pushed toy config 3 (second 1800) builder builder-IsWellFormed
