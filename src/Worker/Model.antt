-- ===== src/Worker/Model.antt =====
-- The state of the worker of src/industrial_reliability/worker.py, and what it sends.
use industrial_reliability_p.Base.{
  ℕ, String, Bool, true, false, ◌&&◌, List, [], ◌∷◌, ◌++◌, ltb, ◌==◌, length, Dict, if◌then◌else◌,
  Result, ok, err,
}
use text.Mathlib.Text.{◌==◌ as str_eq}
use industrial_reliability_p.Platform.{Uuid}
use industrial_reliability_p.Messages.{
  FeatureVectorV1, ScoreDecisionV1, ReplayStatusV1, QuarantineRecordV1,
}
use industrial_reliability_p.Features.Buffer.{Builder, Config, default_analog_cols}
use industrial_reliability_p.Scoring.{Reply}

pub record WorkerSettings : Type 0 where
  pub model_version : String
  pub source_dataset_sha256 : String
  pub contract_sha256 : String
  pub feature_names : List String

-- a `TopicPartition`
abbrev pub Partition : Type 0
Partition = String × ℕ

abbrev pub same_partition : Partition → Partition → Bool
same_partition (topic, n) (other, m) = str_eq topic other && n == m

-- offsets to commit, by partition
abbrev pub Offsets : Type 0
Offsets = List (Partition × ℕ)

abbrev pub set_offset : Partition → ℕ → Offsets → Offsets
set_offset tp offset [] = (tp, offset) ∷ []
set_offset tp offset ((other, n) ∷ rest) =
    let after = set_offset tp offset rest in
    if same_partition other tp then (tp, offset) ∷ rest else (other, n) ∷ after

abbrev pub is_blocked : Partition → List Partition → Bool
is_blocked tp [] = false
is_blocked tp (other ∷ rest) =
    let found = is_blocked tp rest in if same_partition other tp then true else found

-- what leaves the worker: a message on a topic, or a commit, with the session that the log names
pub data Effect (F : Type 0) : Type 0 where
  feature_sent : FeatureVectorV1 F → Effect F
  score_sent : ScoreDecisionV1 F → Effect F
  status_sent : ReplayStatusV1 → Effect F
  quarantine_sent : QuarantineRecordV1 → Effect F
  offsets_committed : Uuid → Offsets → Effect F

-- the features of a session, by name
abbrev pub Rolling : Type 0 → Type 0
Rolling F = List (String × List F)

-- the effects are the newest first
pub record StreamingWorker (F : Type 0) : Type 0 where
  pub builders : Dict (Config × Builder F)
  pub terminal_status : Dict ReplayStatusV1
  pub last_sequence : Dict ℕ
  pub session_offsets : Dict Offsets
  pub rolling_features : Dict (Rolling F)
  pub failed_sessions : List Uuid
  pub blocked_partitions : List Partition
  pub self_emitted_status_ids : List Uuid
  pub effects : List (Effect F)

abbrev pub new_worker : {F : Type 0} → StreamingWorker F
new_worker = record {
  builders = [];
  terminal_status = [];
  last_sequence = [];
  session_offsets = [];
  rolling_features = [];
  failed_sessions = [];
  blocked_partitions = [];
  self_emitted_status_ids = [];
  effects = [];
}

-- a record of a topic
pub record KafkaRecord : Type 0 where
  pub value : String
  pub topic : String
  pub partition : ℕ
  pub offset : ℕ

-- what the handling of one record takes from outside: two new identifiers, the clock, and the replies to
-- each request for a score
pub record Outside (F : Type 0) : Type 0 where
  pub quarantine_id : Uuid
  pub status_id : Uuid
  pub now : ℕ
  pub reply : FeatureVectorV1 F → ℕ → Reply

-- the digital columns that are predictors, of phase1b_contracts.py
abbrev pub predictor_digital_cols : List String
predictor_digital_cols =
    "comp" ∷ "dv_electric" ∷ "towers" ∷ "mpg" ∷ "pressure_switch" ∷ "oil_level" ∷ "caudal_impulses"
    ∷ []

-- the arguments that the worker gives a new builder, with the defaults of the others
abbrev pub session_config : WorkerSettings → Uuid → String → Config
session_config settings session_id machine_id = record {
  replay_session_id = session_id;
  machine_id = machine_id;
  source_dataset_sha256 = settings.source_dataset_sha256;
  contract_sha256 = settings.contract_sha256;
  feature_names = settings.feature_names;
  stride_seconds = 300;
  lookback_bins = 6;
  min_bin_observations = 24;
  analog_cols = default_analog_cols;
  digital_cols = predictor_digital_cols;
}

-- a handler's result: the worker behind it, and whether it raised
abbrev pub Handled : Type 0 → Type 0
Handled F = StreamingWorker F × Result (Unit {0})

module _ {F : Type 0} where
  -- `session_feats[name].append(val)`, then `pop(0)` when there are more than 36
  abbrev pub bounded_append : List F → F → List F
  bounded_append [] value = value ∷ []
  bounded_append (x ∷ xs) value =
      let longer = x ∷ (xs ++ value ∷ []) in
      if ltb 36 (length longer) then xs ++ value ∷ [] else longer

  unfoldable pub track_value : String → F → Rolling F → Rolling F
  track_value name value [] = (name, value ∷ []) ∷ []
  track_value name value ((other, values) ∷ rest) =
      let after = track_value name value rest in
      if str_eq other name
      then (other, bounded_append values value) ∷ rest
      else (other, values) ∷ after

  -- the loop over the names and the values, as far as both go
  unfoldable pub track_values : List String → List F → Rolling F → Rolling F
  unfolding track_value
  track_values [] values series = series
  track_values (name ∷ names) [] series = series
  track_values (name ∷ names) (value ∷ values) series =
      track_values names values (track_value name value series)

  -- the next statement, unless the one before raised
  infixl 5 ◌continue◌
  abbrev pub ◌continue◌ : Handled F → (StreamingWorker F → Handled F) → Handled F
  (w, err raised) continue next = (w, err raised)
  (w, ok done) continue next = next w

  abbrev pub emit : Effect F → StreamingWorker F → StreamingWorker F
  emit effect w = record w { effects = effect ∷ w.effects }

  -- a message is sent where its model accepts it
  abbrev pub emit_valid : Result (Unit {0}) → Effect F → StreamingWorker F → Handled F
  emit_valid (err raised) effect w = (w, err raised)
  emit_valid (ok valid) effect w = (emit effect w, ok tt)
