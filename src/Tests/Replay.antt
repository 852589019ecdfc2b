-- ===== src/Tests/Replay.antt =====
-- A replay at concrete inputs.
use industrial_reliability_p.Base.{
  ℕ, ◌+◌, ◌*◌, ◌≡◌, refl, true, false, none, some, List, [], ◌∷◌, returns, map,
}
use industrial_reliability_p.Platform.{Datetime}
use industrial_reliability_p.Messages.{
  start, pause, resume, running, Action, ReplayCommandV1, TelemetryEventV1,
}
use industrial_reliability_p.Messages.Validate.{
  is_hex64, char_count, validate_command, validate_telemetry,
}
use industrial_reliability_p.Ids.{runtime_id}
use industrial_reliability_p.Replay.Controller.{
  ReplayController, new_controller, apply, mark_failed, status,
}
use industrial_reliability_p.Replay.Controller.Status.{
  Reaches, fresh, commanded, broken, status_total,
}
use industrial_reliability_p.Replay.Source.{
  TableRow, Stream, Origin, in_range, keep_rows, strictly_increasing, build_telemetry, emit_rows,
  iter_events,
}
use industrial_reliability_p.Replay.Source.Resume.{timeless_stream, resume_continues}
use industrial_reliability_p.Replay.Session.{Service, Input, command, turn}
use industrial_reliability_p.Replay.Service.{new_session, start_cmd_of}
use industrial_reliability_p.Replay.Service.Delivery.{Delivers, run, run-Delivers}
use industrial_reliability_p.Tests.Toy.{toy, hash_a, hash_b}

abbrev second : ℕ → Datetime
second n = record { tick = n * 1000000; aware = false }

abbrev table_row : ℕ → TableRow ℕ
table_row n = record {
  timestamp = second n;
  analog = 1 ∷ 2 ∷ 3 ∷ 4 ∷ 5 ∷ 60 ∷ 7 ∷ [];
  digital = 0 ∷ 1 ∷ 0 ∷ 1 ∷ 0 ∷ 1 ∷ 0 ∷ 1 ∷ [];
}

-- the first and the last row lie outside the range
abbrev table : List (TableRow ℕ)
table = table_row 1 ∷ table_row 10 ∷ table_row 20 ∷ table_row 30 ∷ table_row 90 ∷ []

abbrev command_of : Action → ReplayCommandV1
command_of action = record {
  message_id = 1;
  replay_session_id = 7;
  source_dataset_sha256 = hash_a;
  contract_sha256 = hash_b;
  source_timestamp = second 10;
  emitted_at = record { tick = 0; aware = true };
  command_id = 2;
  action = action;
  speed = 100;
  range_start = some (second 10);
  range_end = some (second 60);
}

abbrev origin : Origin
origin = record {
  source_dataset_sha256 = hash_a;
  contract_sha256 = hash_b;
  clock = λ command first from n. record { tick = 100 * first + n; aware = true };
}

abbrev stream : Stream ℕ
stream = iter_events toy origin table (command_of start) 1 none

stream_numbers : map (λ e. e.sequence) stream.events ≡ 1 ∷ 2 ∷ 3 ∷ []
unfolding iter_events keep_rows in_range strictly_increasing emit_rows build_telemetry runtime_id
    is_hex64 char_count validate_telemetry
stream_numbers = refl

abbrev event_of : ℕ → TelemetryEventV1 ℕ
event_of n = record {
  message_id = 213;
  replay_session_id = 7;
  source_dataset_sha256 = hash_a;
  contract_sha256 = hash_b;
  source_timestamp = second (10 * n);
  emitted_at = record { tick = 100 + n; aware = true };
  machine_id = "metropt-compressor-01";
  sequence = n;
  analog = 1 ∷ 2 ∷ 3 ∷ 4 ∷ 5 ∷ 60 ∷ 7 ∷ [];
  digital = 0 ∷ 1 ∷ 0 ∷ 1 ∷ 0 ∷ 1 ∷ 0 ∷ 1 ∷ [];
}

resume_continues_example :
    timeless_stream toy origin
      (iter_events toy origin table (command_of start) 2 (some (second 10)))
    ≡ timeless_stream toy origin (record { events = event_of 2 ∷ event_of 3 ∷ []; failure = none })
unfolding iter_events keep_rows in_range strictly_increasing emit_rows build_telemetry runtime_id
    is_hex64 char_count validate_telemetry
resume_continues_example =
    resume_continues toy origin table (command_of start) 1 none [] (event_of 1)
      (event_of 2 ∷ event_of 3 ∷ []) (λ call first point n. refl) refl

abbrev created : ReplayController
created = new_controller 7 hash_a hash_b

abbrev started : ReplayController
started = record {
  session_id = 7;
  source_dataset_sha256 = hash_a;
  contract_sha256 = hash_b;
  state = running;
  speed = 100;
  range_start = some (second 10);
  range_end = some (second 60);
  current_source_timestamp = some (second 10);
  last_sequence = some 0;
  error_code = none;
}

started-Reaches : Reaches started
unfolding new_controller apply is_hex64 char_count validate_command
started-Reaches =
    commanded (new_controller 7 hash_a hash_b) started (command_of start)
      (fresh 7 hash_a hash_b refl refl) refl refl

status_total_example :
    returns (status toy (mark_failed started "REPLAY_STREAM_ERROR" 0 (second 10)) 5) ≡ true
unfolding char_count
status_total_example =
    status_total toy (mark_failed started "REPLAY_STREAM_ERROR" 0 (second 10)) 5
      (broken started "REPLAY_STREAM_ERROR" 0 (second 10) started-Reaches refl refl)

abbrev service : Service ℕ
service = record {
  active_session = some (new_session toy origin table 1 2 0 started);
  checkpoints = [];
  telemetry = [];
  statuses = [];
  raised = none;
}

-- an event is sent, the task is paused while the next one waits to be sent, and goes on
abbrev inputs : List Input
inputs =
    turn
    ∷ turn
    ∷ turn
    ∷ turn
    ∷ command (command_of pause)
    ∷ turn
    ∷ turn
    ∷ turn
    ∷ command (command_of resume)
    ∷ turn
    ∷ []

run-Delivers_example :
    Delivers toy origin table 1 2 0
      (iter_events toy origin table (start_cmd_of toy origin table 1 2 0 started) 1 none).events
      (run toy origin table 1 2 0 inputs service)
run-Delivers_example = run-Delivers toy origin table 1 2 0 started service inputs refl refl
