-- ===== src/Replay/Session.antt =====
-- The state of `ReplayService` of src/industrial_reliability/replay_service.py and of its task, and the inputs of
-- its steps.
use industrial_reliability_p.Base.{
  ℕ, Bool, true, false, Option, List, or_else, if◌then◌else◌, Result, Error,
}
use industrial_reliability_p.Platform.{Datetime}
use industrial_reliability_p.Messages.{
  ReplayState, running, paused, stopped, completed, ReplayCommandV1, ReplayStatusV1,
  TelemetryEventV1,
}
use industrial_reliability_p.Replay.Controller.{ReplayController}
use industrial_reliability_p.Replay.Source.{Stream}
use industrial_reliability_p.Replay.Store.{ReplayCheckpoint}

-- Where a task waits: before its next event, before the send of an event that has passed the tests,
-- after that send, and while it sends its last status. `done` is `task.done()`.
pub data Phase (F : Type 0) : Type 0 where
  ready : Phase F
  holding : TelemetryEventV1 F → Phase F
  sent : TelemetryEventV1 F → Phase F
  closing : ReplayController → Phase F
  done : Phase F

-- `RunningSession` with the local variables of its task
pub record Session (F : Type 0) : Type 0 where
  pub controller : ReplayController
  -- `not pause_event.is_set()` and `stop_event.is_set()`
  pub is_paused : Bool
  pub is_stopped : Bool
  pub phase : Phase F
  -- the task's own `ctrl`, its START command, and what is left of its generator
  pub ctrl : ReplayController
  pub start_cmd : ReplayCommandV1
  pub remaining : Stream F
  pub last_seq : ℕ
  pub last_ts : Option Datetime
  -- whether the task is `resume_checkpoint`, which counts an event only when it has been sent
  pub is_recovered : Bool

pub record Service (F : Type 0) : Type 0 where
  pub active_session : Option (Session F)
  pub checkpoints : List ReplayCheckpoint
  pub telemetry : List (TelemetryEventV1 F)
  pub statuses : List (Result ReplayStatusV1)
  -- what has ended `run`, or `start`, if something has
  pub raised : Option Error

pub data Input : Type 0 where
  command : ReplayCommandV1 → Input
  turn : Input
  send_fails : Input
  restart : Input

-- `_checkpoint_state`
unfoldable pub checkpoint_state : Bool → Bool → ReplayState
checkpoint_state is_paused is_stopped =
    if is_stopped then stopped else if is_paused then paused else running

abbrev pub is_running : ReplayState → Bool
is_running running = true
is_running _ = false

abbrev pub is_completed : ReplayState → Bool
is_completed completed = true
is_completed _ = false

abbrev pub is_live : {F : Type 0} → Phase F → Bool
is_live done = false
is_live _ = true

-- the time that a terminal status reports
abbrev pub terminal_timestamp : {F : Type 0} → Session F → Datetime
terminal_timestamp t =
    or_else t.last_ts (or_else t.start_cmd.range_start t.start_cmd.source_timestamp)
