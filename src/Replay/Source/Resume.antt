-- ===== src/Replay/Source/Resume.antt =====
-- Resuming a replay after any event yields what was left, at new times of emission.
use industrial_reliability_p.Base.{
  ℕ, ◌+◌, ◌<◌, ◌≡◌, refl, ap, ◌∙◌, map, Result, err, Bool, true, Option, none, some, List, [], ◌∷◌,
  ◌++◌, ltb, arith, Bool-cases, inl, inr, Option-cases, Result-cases, ok,
}
use mathlib.Core.Path.{ap₂}
use industrial_reliability_p.Platform.{Datetime, Platform}
use industrial_reliability_p.Messages.{ReplayCommandV1, TelemetryEventV1}
use industrial_reliability_p.Messages.Validate.{validate_telemetry, validate_envelope}
use industrial_reliability_p.Replay.Source.{
  TableRow, Stream, Origin, in_range, keep_rows, strictly_increasing, build_telemetry, emit_rows,
  stopped_by, yield, iter_events,
}

abbrev after_time : Datetime → Datetime → Bool
after_time t ts = ltb t.tick ts.tick

module _ {F : Type 0} where
  -- cutting the range at a row inside it is cutting what the range keeps
  keep_rows-cut :
      (lo hi u : Datetime) (from : Option Datetime) (rows : List (TableRow F))
      → in_range lo from hi u ≡ true
      → keep_rows (in_range lo (some u) hi) rows
        ≡ keep_rows (after_time u) (keep_rows (in_range lo from hi) rows)
  unfolding keep_rows in_range
  keep_rows-cut lo hi u from [] h = refl
  keep_rows-cut lo hi u none (row ∷ rows) h = ground (arith, keep_rows-cut lo hi u none rows h)
  keep_rows-cut lo hi u (some t) (row ∷ rows) h =
      ground (arith, keep_rows-cut lo hi u (some t) rows h)

  -- a sorted list is kept whole by a bound below its first row
  keep_rows-above :
      (u : Datetime) (row : TableRow F) (rows : List (TableRow F))
      → strictly_increasing (row ∷ rows) ≡ true
      → u.tick < row.timestamp.tick
      → keep_rows (after_time u) (row ∷ rows) ≡ row ∷ rows
  unfolding keep_rows strictly_increasing
  keep_rows-above u row [] s h = ground arith
  keep_rows-above u row (next ∷ rows) s h = ground (arith, keep_rows-above u next rows)

  keep_rows-rest :
      (row : TableRow F) (rows : List (TableRow F))
      → strictly_increasing (row ∷ rows) ≡ true
      → keep_rows (after_time row.timestamp) rows ≡ rows
  unfolding strictly_increasing keep_rows
  keep_rows-rest row [] s = refl
  keep_rows-rest row (next ∷ rows) s =
      keep_rows-above row.timestamp next rows (ground arith) (ground arith)

  -- in a sorted list each row is earlier than the rows behind it
  sorted-lt :
      (first : TableRow F) (between : List (TableRow F)) (row : TableRow F)
      (after : List (TableRow F))
      → strictly_increasing (first ∷ between ++ row ∷ after) ≡ true
      → first.timestamp.tick < row.timestamp.tick
  unfolding strictly_increasing
  sorted-lt first [] row after s = ground arith
  sorted-lt first (next ∷ between) row after s = ground (arith, sorted-lt next between row after)

  sorted-tail :
      (first : TableRow F) (rows : List (TableRow F))
      → strictly_increasing (first ∷ rows) ≡ true
      → strictly_increasing rows ≡ true
  unfolding strictly_increasing
  sorted-tail first [] s = refl
  sorted-tail first (next ∷ rows) s = ground arith

  -- a sorted list, cut at one of its rows, is what follows the row
  keep_rows-split :
      (before : List (TableRow F)) (row : TableRow F) (after : List (TableRow F))
      → strictly_increasing (before ++ row ∷ after) ≡ true
      → (keep_rows (after_time row.timestamp) (before ++ row ∷ after) ≡ after)
        × (strictly_increasing after ≡ true)
  unfolding keep_rows
  keep_rows-split [] row after s =
      let rest = keep_rows-rest row after s in (ground arith, sorted-tail row after s)
  keep_rows-split (first ∷ before) row after s =
      let lt = sorted-lt first before row after s in
      let (kept, sorted) = keep_rows-split before row after (sorted-tail first _ s) in
      (ground arith, sorted)

  -- what a kept row satisfies
  keep_rows-holds :
      (mask : Datetime → Bool) (rows before : List (TableRow F)) (row : TableRow F)
      (after : List (TableRow F))
      → keep_rows mask rows ≡ before ++ row ∷ after
      → mask row.timestamp ≡ true
  unfolding keep_rows
  keep_rows-holds mask [] [] row after h = cc
  keep_rows-holds mask [] (b ∷ before) row after h = cc
  keep_rows-holds mask (r ∷ rows) [] row after h = elim (Bool-cases (mask r.timestamp)) [
    | inl here ↦ ground arith
    | inr skip ↦ keep_rows-holds mask rows [] row after (ground arith)
  ]
  keep_rows-holds mask (r ∷ rows) (b ∷ before) row after h = elim (Bool-cases (mask r.timestamp)) [
    | inl here ↦ keep_rows-holds mask rows before row after (ground arith)
    | inr skip ↦ keep_rows-holds mask rows (b ∷ before) row after (ground arith)
  ]

module _ (P : Platform) (origin : Origin) where
  open P use {Float}

  -- an event carries the time of its row and its number
  build_telemetry_fields :
      (clock : ℕ → Datetime) (command : ReplayCommandV1) (seq : ℕ) (row : TableRow Float)
      (e : TelemetryEventV1 Float)
      → build_telemetry P origin clock command seq row ≡ ok e
      → (e.source_timestamp ≡ row.timestamp) × (e.sequence ≡ seq)
  unfolding build_telemetry
  build_telemetry_fields clock command seq row e h = ground arith

  -- The row that an event stands for, and the rows behind it, which give the rest of the stream.
  record SplitAt (clock : ℕ → Datetime) (command : ReplayCommandV1) (rows : List (TableRow Float))
      (seq : ℕ) (e : TelemetryEventV1 Float) (rest : Stream Float) : Type 0 where
    earlier_rows : List (TableRow Float)
    row : TableRow Float
    later_rows : List (TableRow Float)
    split : rows ≡ earlier_rows ++ row ∷ later_rows
    time : e.source_timestamp ≡ row.timestamp
    stream : emit_rows P origin clock command (e.sequence + 1) later_rows ≡ rest

  emit_rows-split :
      (clock : ℕ → Datetime) (command : ReplayCommandV1) (rows : List (TableRow Float)) (seq : ℕ)
      (before : List (TelemetryEventV1 Float)) (e : TelemetryEventV1 Float)
      (after : List (TelemetryEventV1 Float))
      → (emit_rows P origin clock command seq rows).events ≡ before ++ e ∷ after
      → SplitAt clock command rows seq e
          (record { events = after; failure = (emit_rows P origin clock command seq rows).failure })
  unfolding emit_rows
  emit_rows-split clock command [] seq [] e after h = absurd (cc)
  emit_rows-split clock command [] seq (b ∷ before) e after h = absurd (cc)
  emit_rows-split clock command (row ∷ rows) seq [] e after h =
      elim (Result-cases (build_telemetry P origin clock command seq row)) [
        | inr (x, failed) ↦ absurd (ground arith)
        | inl (built, made) ↦
            let f = build_telemetry_fields clock command seq row built made in
            let same : built ≡ e = ground arith in
            record {
              earlier_rows = [];
              row = row;
              later_rows = rows;
              split = refl;
              time = ground arith;
              stream = ground arith;
            }
      ]
  emit_rows-split clock command (row ∷ rows) seq (b ∷ before) e after h =
      elim (Result-cases (build_telemetry P origin clock command seq row)) [
        | inr (x, failed) ↦ absurd (ground arith)
        | inl (built, made) ↦
            let ih = emit_rows-split clock command rows (seq + 1) before e after (ground arith) in
            record {
              earlier_rows = row ∷ ih.earlier_rows;
              row = ih.row;
              later_rows = ih.later_rows;
              split = ap (λ l. row ∷ l) ih.split;
              time = ih.time;
              stream = ground (arith, ih.stream);
            }
      ]

  split-ne-nil :
      {A : Type 0} (before : List A) (e : A) (after : List A) → [] ≡ before ++ e ∷ after → ⊥
  split-ne-nil [] e after h = cc
  split-ne-nil (b ∷ before) e after h = cc

  -- a stream within its range, over sorted rows
  iter_events-rows :
      (table : List (TableRow Float)) (command : ReplayCommandV1) (seq : ℕ) (from : Option Datetime)
      (lo hi : Datetime)
      → command.range_start ≡ some lo
      → command.range_end ≡ some hi
      → strictly_increasing (keep_rows (in_range lo from hi) table) ≡ true
      → iter_events P origin table command seq from
        ≡ emit_rows P origin
            (origin.clock command seq from)
            command
            seq
            (keep_rows (in_range lo from hi) table)
  unfolding iter_events
  iter_events-rows table command seq from lo hi start end sorted = ground arith

  -- a stream that yields an event has a range, and sorted rows in it
  iter_events-sorted :
      (table : List (TableRow Float)) (command : ReplayCommandV1) (seq : ℕ) (from : Option Datetime)
      (before : List (TelemetryEventV1 Float)) (e : TelemetryEventV1 Float)
      (after : List (TelemetryEventV1 Float))
      → (iter_events P origin table command seq from).events ≡ before ++ e ∷ after
      → (lo : Datetime) × (hi : Datetime) × (command.range_start ≡ some lo)
        × (command.range_end ≡ some hi)
        × (strictly_increasing (keep_rows (in_range lo from hi) table) ≡ true)
  unfolding iter_events
  iter_events-sorted table command seq from before e after h =
      let never = split-ne-nil before e after in
      elim (Option-cases command.range_start) [
        | inl absent ↦ absurd (never (ground arith))
        | inr (lo, start) ↦ elim (Option-cases command.range_end) [
          | inl absent ↦ absurd (never (ground arith))
          | inr (hi, end) ↦
              elim (Bool-cases (strictly_increasing (keep_rows (in_range lo from hi) table))) [
                | inl sorted ↦ (lo, hi, start, end, sorted)
                | inr broken ↦ absurd (never (ground arith))
              ]
        ]
      ]

  -- an event but for the time at which it was emitted, which a stream reads from the clock
  abbrev pub timeless : TelemetryEventV1 Float → TelemetryEventV1 Float
  timeless e = record e { emitted_at = e.source_timestamp }

  abbrev pub timeless_stream : Stream Float → Stream Float
  timeless_stream s = record { events = map timeless s.events; failure = s.failure }

  abbrev timeless_result : Result (TelemetryEventV1 Float) → Result (TelemetryEventV1 Float)
  timeless_result (err e) = err e
  timeless_result (ok event) = ok (timeless event)

  -- one event at two clocks
  build_telemetry-clock :
      (clock clock' : ℕ → Datetime) (command : ReplayCommandV1) (seq : ℕ) (row : TableRow Float)
      → (clock seq).aware ≡ true
      → (clock' seq).aware ≡ true
      → timeless_result (build_telemetry P origin clock command seq row)
        ≡ timeless_result (build_telemetry P origin clock' command seq row)
  unfolding build_telemetry validate_telemetry validate_envelope
  build_telemetry-clock clock clock' command seq row h k = ground (arith, h, k)

  emit_rows-clock :
      (clock clock' : ℕ → Datetime) (command : ReplayCommandV1) (seq : ℕ)
      (rows : List (TableRow Float))
      → ((n : ℕ) → (clock n).aware ≡ true)
      → ((n : ℕ) → (clock' n).aware ≡ true)
      → timeless_stream (emit_rows P origin clock command seq rows)
        ≡ timeless_stream (emit_rows P origin clock' command seq rows)
  unfolding emit_rows
  emit_rows-clock clock clock' command seq [] h k = refl
  emit_rows-clock clock clock' command seq (row ∷ rows) h k =
      let same = build_telemetry-clock clock clock' command seq row (h seq) (k seq) in
      let later = emit_rows-clock clock clock' command (seq + 1) rows h k in
      go (build_telemetry P origin clock command seq row)
        (build_telemetry P origin clock' command seq row) same
        (emit_rows P origin clock command (seq + 1) rows)
        (emit_rows P origin clock' command (seq + 1) rows) later
    where
      go :
          (m m' : Result (TelemetryEventV1 Float))
          → timeless_result m ≡ timeless_result m'
          → (s s' : Stream Float) → timeless_stream s ≡ timeless_stream s'
          → timeless_stream
              (elim m [ err e ↦ stopped_by P origin e | ok event ↦ yield P origin event s ])
            ≡ timeless_stream
                (elim m' [ err e ↦ stopped_by P origin e | ok event ↦ yield P origin event s' ])
      go (err e) (err e') same s s' later =
          let equal : e ≡ e' = cc in ap (λ x. timeless_stream (stopped_by P origin x)) equal
      go (err e) (ok event') same s s' later = absurd (cc)
      go (ok event) (err e') same s s' later = absurd (cc)
      go (ok event) (ok event') same s s' later =
          let equal : timeless event ≡ timeless event' = cc in
          ap₂
            (λ x (rest : Stream Float). record { events = x ∷ rest.events; failure = rest.failure })
            equal later

  -- Resuming is exact but for the clock: for every table, command, first sequence number and earlier resumption
  -- point, and a clock that gives times with a time zone, if the stream yields an event `e` with the events
  -- `after` behind it, then the stream that resumes after `e`, at the next sequence number and from the source
  -- time of `e`, yields the events `after` in all fields but `emitted_at`, which it reads anew, and raises in the
  -- end exactly if and as the first one does.
  pub resume_continues :
      (table : List (TableRow Float)) (command : ReplayCommandV1) (seq : ℕ) (from : Option Datetime)
      (before : List (TelemetryEventV1 Float)) (e : TelemetryEventV1 Float)
      (after : List (TelemetryEventV1 Float))
      → ((call : ReplayCommandV1) (first : ℕ) (point : Option Datetime) (n : ℕ)
          → (origin.clock call first point n).aware ≡ true)
      → (iter_events P origin table command seq from).events ≡ before ++ e ∷ after
      → timeless_stream
          (iter_events P origin table command (e.sequence + 1) (some e.source_timestamp))
        ≡ timeless_stream (record {
          events = after;
          failure = (iter_events P origin table command seq from).failure;
        })
  resume_continues table command seq from before e after utc h =
      let (lo, hi, start, end, sorted) =
        iter_events-sorted table command seq from before e after h in
      let whole = iter_events-rows table command seq from lo hi start end sorted in
      let at =
        emit_rows-split (origin.clock command seq from) command _ seq before e after
          (rw (← whole) h) in
      let inside = keep_rows-holds (in_range lo from hi) table _ _ _ at.split in
      let cut = keep_rows-cut lo hi at.row.timestamp from table inside in
      let (kept, later) =
        keep_rows-split at.earlier_rows at.row at.later_rows (rw (← at.split) sorted) in
      let remains : keep_rows (in_range lo (some e.source_timestamp) hi) table ≡ at.later_rows =
        rw (at.time) (cut ∙ ap (keep_rows (after_time at.row.timestamp)) at.split ∙ kept) in
      let clock = origin.clock command seq from in
      let clock' = origin.clock command (e.sequence + 1) (some e.source_timestamp) in
      ap timeless_stream (
        iter_events-rows table command (e.sequence + 1) (some e.source_timestamp) lo hi start end
          (rw remains later)
        ∙ ap (emit_rows P origin clock' command (e.sequence + 1)) remains)
      ∙ emit_rows-clock clock' clock command (e.sequence + 1) at.later_rows
          (λ n. utc command (e.sequence + 1) (some e.source_timestamp) n)
          (λ n. utc command seq from n)
      ∙ ap timeless_stream (rw whole at.stream)
