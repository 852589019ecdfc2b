-- ===== src/Replay/Source.antt =====
-- `ReplaySource.iter_events` and `pace_seconds` of src/industrial_reliability/replay.py. The parquet file
-- is read by pyarrow: its rows are an argument. A generator that yields some events and then raises is
-- the list of those events with the error.
pub mod Resume
use industrial_reliability_p.Base.{
  ℕ, ◌+◌, String, Bool, true, false, ◌&&◌, ◌||◌, not, Option, none, some, List, [], ◌∷◌, ltb, leb,
  ◌==◌, if◌then◌else◌, Error, Result, ok, err, replay_contract_error, ◌>>=◌, ◌>>◌,
}
use industrial_reliability_p.Platform.{Uuid, Datetime, Platform}
use industrial_reliability_p.Ids.{runtime_id}
use industrial_reliability_p.Messages.{ReplayCommandV1, TelemetryEventV1}
use industrial_reliability_p.Messages.Validate.{validate_telemetry}

-- a row of the prepared table
pub record TableRow (F : Type 0) : Type 0 where
  pub timestamp : Datetime
  pub analog : List F
  pub digital : List ℕ

-- what a generator yields, and what it raises in the end, if it raises
pub record Stream (F : Type 0) : Type 0 where
  pub events : List (TelemetryEventV1 F)
  pub failure : Option Error

-- the mask: `ts >= range_start`, or `ts > resume_from_timestamp` when resuming, and `ts < range_end`
unfoldable pub in_range : Datetime → Option Datetime → Datetime → Datetime → Bool
in_range range_start none range_end ts = leb range_start.tick ts.tick && ltb ts.tick range_end.tick
in_range range_start (some t) range_end ts = ltb t.tick ts.tick && ltb ts.tick range_end.tick

module _ {F : Type 0} where
  -- `table.filter(mask)`
  unfoldable pub keep_rows : (Datetime → Bool) → List (TableRow F) → List (TableRow F)
  keep_rows mask [] = []
  keep_rows mask (row ∷ rows) =
      let rest = keep_rows mask rows in if mask row.timestamp then row ∷ rest else rest

  -- the loop over the pairs of neighbours
  unfoldable pub strictly_increasing : List (TableRow F) → Bool
  strictly_increasing [] = true
  strictly_increasing (a ∷ []) = true
  strictly_increasing (a ∷ b ∷ rows) =
      ltb a.timestamp.tick b.timestamp.tick && strictly_increasing (b ∷ rows)

-- The identity of the verified file, and what each reading of `self.clock()` returns: it is of an event, by its
-- sequence number, in a call of `iter_events`, by the arguments of the call.
pub record Origin : Type 0 where
  pub source_dataset_sha256 : String
  pub contract_sha256 : String
  pub clock : ReplayCommandV1 → ℕ → Option Datetime → ℕ → Datetime

module _ (P : Platform) (origin : Origin) where
  open P use {Float, int_str, seconds_between, div, of_nat}

  unfoldable pub pace_seconds : Datetime → Datetime → ℕ → Result Float
  pace_seconds previous current speed =
      if not (speed == 1 || speed == 100 || speed == 1000) || leb current.tick previous.tick
      then err replay_contract_error
      else ok (div (seconds_between previous current) (of_nat speed))

  -- the construction of one event, which validates it
  unfoldable pub build_telemetry :
      (ℕ → Datetime) → ReplayCommandV1 → ℕ → TableRow Float → Result (TelemetryEventV1 Float)
  build_telemetry clock command seq row = do
    msg_id ← runtime_id P "telemetry" command.replay_session_id (int_str seq)
    let event : TelemetryEventV1 Float = record {
      message_id = msg_id;
      replay_session_id = command.replay_session_id;
      source_dataset_sha256 = origin.source_dataset_sha256;
      contract_sha256 = origin.contract_sha256;
      source_timestamp = row.timestamp;
      emitted_at = clock seq;
      machine_id = "metropt-compressor-01";
      sequence = seq;
      analog = row.analog;
      digital = row.digital;
    }
    validate_telemetry P event
    ok event

  abbrev pub stopped_by : Error → Stream Float
  stopped_by e = record { events = []; failure = some e }

  abbrev pub yield : TelemetryEventV1 Float → Stream Float → Stream Float
  yield event rest = record { events = event ∷ rest.events; failure = rest.failure }

  -- the loop over the rows
  unfoldable pub emit_rows :
      (ℕ → Datetime) → ReplayCommandV1 → ℕ → List (TableRow Float) → Stream Float
  emit_rows clock command seq [] = record { events = []; failure = none }
  emit_rows clock command seq (row ∷ rows) = elim (build_telemetry clock command seq row) [
    | err e ↦ stopped_by e
    | ok event ↦ yield event (emit_rows clock command (seq + 1) rows)
  ]

  unfoldable pub iter_events :
      List (TableRow Float) → ReplayCommandV1 → ℕ → Option Datetime → Stream Float
  iter_events table command start_sequence resume_from_timestamp = elim command.range_start [
    | none ↦ stopped_by replay_contract_error
    | some range_start ↦ elim command.range_end [
      | none ↦ stopped_by replay_contract_error
      | some range_end ↦
          let rows = keep_rows (in_range range_start resume_from_timestamp range_end) table in
          if strictly_increasing rows
          then emit_rows (origin.clock command start_sequence resume_from_timestamp) command
              start_sequence rows
          else stopped_by replay_contract_error
    ]
  ]
