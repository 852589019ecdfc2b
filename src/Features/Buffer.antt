-- ===== src/Features/Buffer.antt =====
-- The state of `OnlineFeatureBuilder` of src/industrial_reliability/online_features.py, and its buffer of bins.
use industrial_reliability_p.Base.{
  ℕ, ◌+◌, ◌*◌, String, Bool, false, Option, none, some, List, [], ◌∷◌, ◌++◌, ltb, ◌==◌, length,
  get_last?, if◌then◌else◌, Result, ok, err, attribute_error, ◌>>=◌,
}
use text.Mathlib.Text.{◌==◌ as str_eq}
use industrial_reliability_p.Platform.{Uuid, Datetime}
use industrial_reliability_p.Messages.{FeatureVectorV1}
use industrial_reliability_p.Features.Statistics.{TelemetrySample}

pub data SegmentCloseReason : Type 0 where
  sequence_gap conflicting_duplicate timestamp_regression invalid_bin : SegmentCloseReason

pub record BuilderResult (F : Type 0) : Type 0 where
  pub features : List (FeatureVectorV1 F)
  pub segment_closed_reason : Option SegmentCloseReason

abbrev pub default_analog_cols : List String
default_analog_cols =
    "tp2" ∷ "tp3" ∷ "h1" ∷ "dv_pressure" ∷ "reservoirs" ∷ "oil_temperature" ∷ "motor_current" ∷ []

abbrev pub default_digital_cols : List String
default_digital_cols =
    "comp" ∷ "dv_electric" ∷ "towers" ∷ "mpg" ∷ "lps" ∷ "pressure_switch" ∷ "oil_level"
    ∷ "caudal_impulses" ∷ []

-- what `_check_sequence_and_ordering` finds: whether the event is ignored, and the reason
pub data Check : Type 0 where
  ignored : Option SegmentCloseReason → Check
  accepted : Option SegmentCloseReason → Check

-- the arguments of the constructor
pub record Config : Type 0 where
  pub replay_session_id : Uuid
  pub machine_id : String
  pub source_dataset_sha256 : String
  pub contract_sha256 : String
  pub feature_names : List String
  pub stride_seconds : ℕ
  pub lookback_bins : ℕ
  pub min_bin_observations : ℕ
  pub analog_cols : List String
  pub digital_cols : List String

-- a bin: its end and its samples
abbrev pub Bin : Type 0 → Type 0
Bin F = Datetime × List (TelemetrySample F)

pub record Builder (F : Type 0) : Type 0 where
  pub last_sequence : Option ℕ
  pub last_timestamp : Option Datetime
  pub last_event_id : Option Uuid
  pub last_payload_hash : Option String
  pub current_bin_end : Option Datetime
  pub current_bin_samples : List (TelemetrySample F)
  pub valid_bin_buffer : List (Bin F)
  pub is_complete : Bool

abbrev pub new_builder : {F : Type 0} → Builder F
new_builder = record {
  last_sequence = none;
  last_timestamp = none;
  last_event_id = none;
  last_payload_hash = none;
  current_bin_end = none;
  current_bin_samples = [];
  valid_bin_buffer = [];
  is_complete = false;
}

-- `getattr(event, col)`, for a column of the model
unfoldable pub attribute {ℓ} : {A : Type ℓ} → List String → List A → String → Result A
attribute (name ∷ names) (v ∷ vs) col = if str_eq name col then ok v else attribute names vs col
attribute _ _ col = err attribute_error

unfoldable pub attributes {ℓ} : {A : Type ℓ} → List String → List A → List String → Result (List A)
unfolding attribute
attributes names vs [] = ok []
attributes names vs (col ∷ cols) = do
  v ← attribute names vs col
  rest ← attributes names vs cols
  ok (v ∷ rest)

abbrev pub opt_str_eq : Option String → String → Bool
opt_str_eq none s = false
opt_str_eq (some t) s = str_eq s t

abbrev pub stride_ticks : Config → ℕ
stride_ticks cfg = cfg.stride_seconds * 1000000

module _ {F : Type 0} where
  -- `_reset_segment`
  unfoldable pub reset_segment : Builder F → Builder F
  reset_segment b = record b {
    current_bin_end = none;
    current_bin_samples = [];
    valid_bin_buffer = [];
  }

  -- `self._valid_bin_buffer.clear()` unless the last bin ends exactly one stride before `bin_end`
  unfoldable pub continued_buffer : Config → Datetime → List (Bin F) → List (Bin F)
  continued_buffer cfg bin_end buffer = elim (get_last? buffer) [
    | none ↦ buffer
    | some (prev_end, samples) ↦
        if bin_end.tick == prev_end.tick + stride_ticks cfg then buffer else []
  ]

  -- `pop(0)` when the buffer is longer than the lookback
  unfoldable pub drop_oldest : Config → List (Bin F) → List (Bin F)
  drop_oldest cfg [] = []
  drop_oldest cfg (bin ∷ bins) =
      if ltb cfg.lookback_bins (length (bin ∷ bins)) then bins else bin ∷ bins

  -- the buffer after the current bin, with enough observations, is appended
  unfoldable pub next_buffer :
      Config → Datetime → List (TelemetrySample F) → List (Bin F) → List (Bin F)
  unfolding continued_buffer drop_oldest
  next_buffer cfg bin_end samples buffer =
      drop_oldest cfg (continued_buffer cfg bin_end buffer ++ (bin_end, samples) ∷ [])

  unfoldable pub all_samples : List (Bin F) → List (TelemetrySample F)
  all_samples [] = []
  all_samples ((bin_end, samples) ∷ bins) = samples ++ all_samples bins
