-- ===== src/Messages/Validate.antt =====
-- The validators of src/industrial_reliability/runtime_messages.py: the field constraints that each
-- model declares, then the body of its `model_validator`. A refusal is `validation_error`.
use Prim.Native.Char.{code}
use industrial_reliability_p.Base.{
  ℕ, zero, suc, String, Bool, true, false, ◌&&◌, ◌||◌, not, Option, none, some, List, [], ◌∷◌, all,
  length, ltb, leb, ◌==◌, is_some, if◌then◌else◌, Result, ok, err, validation_error, ◌>>◌, require,
}
use text.Mathlib.Text.{◌==◌ as str_eq}
use industrial_reliability_p.Platform.{Datetime, Platform}
use industrial_reliability_p.Messages.{
  CoverageEvidenceV1, FeatureVectorV1, EvidenceValueV1, ScoreDecisionV1, Action, start,
  ReplayCommandV1, ReplayState, stopped, completed, failed, ReplayStatusV1, TelemetryEventV1,
  FeatureDeviationV1, AlertEventV1, EvidenceSnapshotV1, QuarantineRecordV1,
}

hex_digit : ℕ → Bool
hex_digit c = leb b'0' c && leb c b'9' || leb b'a' c && leb c b'f'

-- exactly `n` characters of `[0-9a-f]`
hex_text : ℕ → String → Bool
hex_text zero String.[] = true
hex_text zero (String.◌∷◌ c s) = false
hex_text (suc n) String.[] = false
hex_text (suc n) (String.◌∷◌ c s) = hex_digit (code c) && hex_text n s

-- `Field(pattern=HEX_64_PATTERN)`
unfoldable pub is_hex64 : String → Bool
unfolding hex_text hex_digit
is_hex64 s = hex_text 64 s

-- the number of characters, as `len` counts them
unfoldable pub char_count : String → ℕ
char_count String.[] = 0
char_count (String.◌∷◌ c s) = suc (char_count s)

-- `Field(min_length=lo, max_length=hi)`
abbrev pub length_in : ℕ → ℕ → String → Bool
length_in lo hi s = leb lo (char_count s) && leb (char_count s) hi

-- `a < b` on datetimes that are both naive
abbrev pub before : Datetime → Datetime → Bool
before a b = ltb a.tick b.tick

-- the hash fields and the two clock fields that every message has
unfoldable pub validate_envelope : String → String → Datetime → Datetime → Result (Unit {0})
validate_envelope dataset_sha256 contract_sha256 source_timestamp emitted_at = do
  require (is_hex64 dataset_sha256) validation_error
  require (is_hex64 contract_sha256) validation_error
  require (not source_timestamp.aware) validation_error
  require emitted_at.aware validation_error

-- the loop over `range(len(bin_ends) - 1)`, then the test of the last end
check_bin_ends : List Datetime → Bool
check_bin_ends [] = true
check_bin_ends (a ∷ []) = not a.aware
check_bin_ends (a ∷ b ∷ rest) = before a b && not a.aware && check_bin_ends (b ∷ rest)

unfoldable pub validate_coverage : CoverageEvidenceV1 → Result (Unit {0})
unfolding check_bin_ends
validate_coverage c = do
  require (length c.observations_by_bin == 6) validation_error
  require (length c.bin_ends == 6) validation_error
  require (all (λ cnt. leb 24 cnt) c.observations_by_bin) validation_error
  require (check_bin_ends c.bin_ends) validation_error

unfoldable pub text_mem : String → List String → Bool
text_mem a [] = false
text_mem a (b ∷ xs) = str_eq a b || text_mem a xs

-- `len(set(xs)) == len(xs)`
unfoldable pub all_distinct : List String → Bool
unfolding text_mem
all_distinct [] = true
all_distinct (a ∷ xs) = not (text_mem a xs) && all_distinct xs

-- `_validate_start_command`
unfoldable pub validate_start_command : ReplayCommandV1 → Result (Unit {0})
validate_start_command cmd = elim cmd.range_start [
  | none ↦ err validation_error
  | some lo ↦ elim cmd.range_end [
    | none ↦ err validation_error
    | some hi ↦ do
      require (not (lo.aware || hi.aware)) validation_error
      require (before lo hi) validation_error
      require (cmd.source_timestamp.tick == lo.tick) validation_error
  ]
]

-- `_validate_control_command`
unfoldable pub validate_control_command : ReplayCommandV1 → Result (Unit {0})
validate_control_command cmd =
    require (not (is_some cmd.range_start || is_some cmd.range_end)) validation_error

abbrev pub is_start : Action → Bool
is_start start = true
is_start _ = false

unfoldable pub validate_command : ReplayCommandV1 → Result (Unit {0})
unfolding validate_envelope validate_start_command validate_control_command
validate_command cmd = do
  require (cmd.speed == 1 || cmd.speed == 100 || cmd.speed == 1000) validation_error
  validate_envelope cmd.source_dataset_sha256 cmd.contract_sha256 cmd.source_timestamp
      cmd.emitted_at
  if is_start cmd.action then validate_start_command cmd else validate_control_command cmd

abbrev pub is_terminal : ReplayState → Bool
is_terminal stopped = true
is_terminal completed = true
is_terminal failed = true
is_terminal _ = false

abbrev pub is_failed : ReplayState → Bool
is_failed failed = true
is_failed _ = false

-- `bool(error_code)`
abbrev pub is_nonempty : Option String → Bool
is_nonempty none = false
is_nonempty (some s) = not (str_eq s "")

unfoldable pub validate_status : ReplayStatusV1 → Result (Unit {0})
unfolding validate_envelope
validate_status s = do
  validate_envelope s.source_dataset_sha256 s.contract_sha256 s.source_timestamp s.emitted_at
  require (not (is_terminal s.state) || is_some s.last_sequence) validation_error
  require (if is_failed s.state then is_nonempty s.error_code else not (is_some s.error_code))
      validation_error

unfoldable pub validate_alert_event : AlertEventV1 → Result (Unit {0})
unfolding validate_envelope
validate_alert_event e = do
  require (leb 1 (char_count e.machine_id)) validation_error
  require (leb 1 (length e.decision_ids)) validation_error
  require (is_hex64 e.policy_sha256) validation_error
  validate_envelope e.source_dataset_sha256 e.contract_sha256 e.source_timestamp e.emitted_at
  require (not e.first_detection.aware) validation_error
  require (not e.last_detection.aware) validation_error
  require (leb e.first_detection.tick e.last_detection.tick) validation_error

unfoldable pub validate_quarantine : QuarantineRecordV1 → Result (Unit {0})
unfolding validate_envelope
validate_quarantine q = do
  require (length_in 1 256 q.original_topic) validation_error
  require (is_hex64 q.payload_sha256) validation_error
  require (length_in 1 128 q.error_code) validation_error
  require (length_in 1 1024 q.error_detail) validation_error
  validate_envelope q.source_dataset_sha256 q.contract_sha256 q.source_timestamp q.emitted_at

module _ (P : Platform) where
  open P use {Float, is_finite, is_nonneg, neg, of_nat, le}

  -- ANALOG_SIGNAL_CONTRACTS of phase1b_contracts.py: the hard bounds of the seven signals, in order
  abbrev pub analog_bounds : List (Float × Float)
  analog_bounds =
      let bar : Float × Float = (neg (of_nat 1), of_nat 20) in
      bar ∷ bar ∷ bar ∷ bar ∷ bar ∷ (neg (of_nat 40), of_nat 150) ∷ (of_nat 0, of_nat 50) ∷ []

  -- `validate_analog_value`
  unfoldable pub validate_analog_value : Float × Float → Float → Result (Unit {0})
  validate_analog_value (hard_min, hard_max) value =
      require (is_finite value && (le hard_min value && le value hard_max)) validation_error

  -- the loop over the analog names; the model has exactly as many values as there are names
  unfoldable pub check_analog : List (Float × Float) → List Float → Result (Unit {0})
  check_analog [] [] = ok tt
  check_analog [] (v ∷ vs) = err validation_error
  check_analog (b ∷ bs) [] = err validation_error
  check_analog (b ∷ bs) (v ∷ vs) = do validate_analog_value b v; check_analog bs vs

  unfoldable pub validate_telemetry : TelemetryEventV1 Float → Result (Unit {0})
  unfolding validate_envelope validate_analog_value check_analog
  validate_telemetry e = do
    require (length_in 1 128 e.machine_id) validation_error
    require (ltb 0 e.sequence) validation_error
    require (length e.digital == 8 && all (λ bit. bit == 0 || bit == 1) e.digital) validation_error
    validate_envelope e.source_dataset_sha256 e.contract_sha256 e.source_timestamp e.emitted_at
    check_analog analog_bounds e.analog

  unfoldable pub validate_feature_vector : FeatureVectorV1 Float → Result (Unit {0})
  unfolding validate_envelope validate_coverage all_distinct
  validate_feature_vector v = do
    validate_coverage v.coverage
    require (length_in 1 128 v.machine_id) validation_error
    require (leb 1 (length v.feature_names) && leb 1 (length v.feature_values)) validation_error
    validate_envelope v.source_dataset_sha256 v.contract_sha256 v.source_timestamp v.emitted_at
    require (not (v.window_start.aware || v.window_end.aware)) validation_error
    require (before v.window_start v.window_end && v.window_end.tick == v.source_timestamp.tick)
        validation_error
    require (length v.feature_names == length v.feature_values) validation_error
    require (all_distinct v.feature_names) validation_error
    require (all is_finite v.feature_values) validation_error

  abbrev pub evidence_ok : EvidenceValueV1 Float → Bool
  evidence_ok e = is_finite e.feature_value && is_finite e.robust_deviation

  unfoldable pub validate_decision : ScoreDecisionV1 Float → Result (Unit {0})
  unfolding validate_envelope
  validate_decision d = do
    require (all evidence_ok d.evidence_vector) validation_error
    require (length_in 1 200 d.model_version) validation_error
    validate_envelope d.source_dataset_sha256 d.contract_sha256 d.source_timestamp d.emitted_at
    require (is_finite d.score && is_finite d.threshold) validation_error

  unfoldable pub validate_deviation : FeatureDeviationV1 Float → Result (Unit {0})
  validate_deviation d = do
    require (leb 1 (char_count d.feature_name)) validation_error
    require (is_nonneg d.absolute_deviation) validation_error
    require
        (is_finite d.observed_value && is_finite d.baseline_value && is_finite d.absolute_deviation)
        validation_error

  unfoldable pub validate_evidence_snapshot : EvidenceSnapshotV1 Float → Result (Unit {0})
  unfolding validate_envelope
  validate_evidence_snapshot s = do
    require (leb 1 (char_count s.model_version)) validation_error
    validate_envelope s.source_dataset_sha256 s.contract_sha256 s.source_timestamp s.emitted_at
