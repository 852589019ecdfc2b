-- ===== src/Replay/Service.antt =====
-- src/industrial_reliability/replay_service.py: the service handles commands, and a task streams the
-- events of the active session. A task runs from one `await` to the next, so the model is a step
-- function over inputs in any order: a command, a turn of the task, a send that fails, and a crash
-- with a restart. Kafka is the list of what was sent, and a status that would raise is kept as such. A command
-- that raises ends `run`: no further one is handled, and the task is stopped.
pub mod Delivery
use industrial_reliability_p.Base.{
  ℕ, ◌+◌, Bool, true, false, ◌&&◌, not, Option, none, some, List, [], ◌∷◌, ◌++◌, ◌==◌, is_some,
  or_else, if◌then◌else◌, Result, ok, err, Error, runtime_error,
}
use text.Mathlib.Text.{◌==◌ as str_eq}
use industrial_reliability_p.Platform.{Uuid, Datetime, Platform}
use industrial_reliability_p.Messages.{
  Action, start, pause, resume, stop, ReplayState, running, paused, stopped, completed, failed,
  ReplayCommandV1, ReplayStatusV1, TelemetryEventV1,
}
use industrial_reliability_p.Replay.Controller.{
  ReplayController, new_controller, apply, mark_completed, mark_failed, status, year_2020,
}
use industrial_reliability_p.Replay.Source.{TableRow, Stream, Origin, iter_events}
use industrial_reliability_p.Replay.Store.{
  ReplayCheckpoint, record_replay_checkpoint, update_replay_checkpoint_state,
  load_incomplete_replays,
}
use industrial_reliability_p.Replay.Session.{
  Input, Phase, Service, Session, checkpoint_state, closing, command, done, holding, is_completed,
  is_live, is_running, ready, restart, send_fails, sent, terminal_timestamp, turn,
}

-- `task_message_id` and `task_command_id` are the `uuid4()` values of the START command that a task
-- builds, `now` is the clock.
module _ (P : Platform) (origin : Origin) (table : List (TableRow P.Float))
    (task_message_id task_command_id : Uuid) (now : ℕ) where
  open P use {Float}

  abbrev publish_status : ReplayController → Service Float → Service Float
  publish_status c s = record s { statuses = s.statuses ++ status P c now ∷ [] }

  abbrev set_session : Session Float → Service Float → Service Float
  set_session t s = record s { active_session = some t }

  -- the task's own START command, built from its controller
  abbrev pub start_cmd_of : ReplayController → ReplayCommandV1
  start_cmd_of ctrl = record {
    message_id = task_message_id;
    replay_session_id = ctrl.session_id;
    source_dataset_sha256 = ctrl.source_dataset_sha256;
    contract_sha256 = ctrl.contract_sha256;
    source_timestamp = or_else ctrl.range_start year_2020;
    emitted_at = record { tick = now; aware = true };
    command_id = task_command_id;
    action = start;
    speed = ctrl.speed;
    range_start = ctrl.range_start;
    range_end = ctrl.range_end;
  }

  -- the task that `_handle_start_command` creates
  abbrev pub new_session : ReplayController → Session Float
  new_session ctrl = record {
    controller = ctrl;
    is_paused = false;
    is_stopped = false;
    phase = ready;
    ctrl = ctrl;
    start_cmd = start_cmd_of ctrl;
    remaining = iter_events P origin table (start_cmd_of ctrl) 1 none;
    last_seq = 0;
    last_ts = some (or_else ctrl.range_start year_2020);
    is_recovered = false;
  }

  -- the active session of the command, if its task is not done
  unfoldable pub session_for : ReplayCommandV1 → Service Float → Option (Session Float)
  session_for cmd s = elim s.active_session [
    | none ↦ none
    | some t ↦
        if t.controller.session_id == cmd.replay_session_id && is_live t.phase then some t else none
  ]

  abbrev pub is_busy : Service Float → Bool
  is_busy s = elim s.active_session [ none ↦ false | some t ↦ is_live t.phase ]

  unfoldable pub handle_start_command : ReplayCommandV1 → Service Float → Service Float
  handle_start_command cmd s =
      if is_busy s
      then publish_status
          (mark_failed
            (new_controller cmd.replay_session_id cmd.source_dataset_sha256 cmd.contract_sha256)
            "REPLAY_ALREADY_ACTIVE" 0 cmd.source_timestamp)
          s
      else if not (
          str_eq cmd.source_dataset_sha256 origin.source_dataset_sha256
          && str_eq cmd.contract_sha256 origin.contract_sha256)
      then publish_status
          (mark_failed
            (new_controller cmd.replay_session_id origin.source_dataset_sha256
              origin.contract_sha256)
            "REPLAY_SOURCE_IDENTITY_MISMATCH" 0 cmd.source_timestamp)
          s
      else (let s' : Service Float = record s {
        checkpoints = record_replay_checkpoint cmd running 0 none s.checkpoints;
      } in
          elim (apply
            (new_controller cmd.replay_session_id cmd.source_dataset_sha256 cmd.contract_sha256)
            cmd) [
              | err e ↦ record s' { raised = some e }
              | ok ctrl ↦ publish_status ctrl (set_session (new_session ctrl) s')
            ])

  abbrev pub set_stop : Session Float → Session Float
  set_stop t = record t { is_stopped = true; is_paused = false }

  -- a command raises: `run` ends, and its `finally` stops the task
  abbrev pub end_run : Error → Session Float → Service Float → Service Float
  end_run e t s = set_session (set_stop t) (record s { raised = some e })

  -- PAUSE, RESUME and STOP: the controller, then the checkpoint, then the two events of the task
  unfoldable pub handle_control_command :
      ReplayCommandV1
      → ReplayState
      → (Session Float → Session Float)
      → Service Float
      → Service Float
  handle_control_command cmd state set_events s = elim (session_for cmd s) [
    | none ↦ s
    | some t ↦ elim (apply t.controller cmd) [
      | err e ↦ end_run e t s
      | ok ctrl ↦ elim (update_replay_checkpoint_state ctrl.session_id state s.checkpoints) [
        | err e ↦ end_run e t s
        | ok rows ↦ publish_status ctrl (
            set_session (set_events (record t { controller = ctrl }))
              (record s { checkpoints = rows }))
      ]
    ]
  ]

  abbrev pub clear_pause : Session Float → Session Float
  clear_pause t = record t { is_paused = true }

  abbrev pub set_pause : Session Float → Session Float
  set_pause t = record t { is_paused = false }

  unfoldable pub handle_action : Action → ReplayCommandV1 → Service Float → Service Float
  unfolding handle_start_command handle_control_command session_for
  handle_action start cmd s = handle_start_command cmd s
  handle_action pause cmd s = handle_control_command cmd paused clear_pause s
  handle_action resume cmd s = handle_control_command cmd running set_pause s
  handle_action stop cmd s = handle_control_command cmd stopped set_stop s

  unfoldable pub handle_command : ReplayCommandV1 → Service Float → Service Float
  unfolding handle_action
  handle_command cmd s = handle_action cmd.action cmd s

  -- the `except` branch, up to the send of its status
  unfoldable pub fail_session : Session Float → Service Float → Service Float
  fail_session t s =
      let at = terminal_timestamp t in
      set_session
        (record t { phase = closing (mark_failed t.ctrl "REPLAY_STREAM_ERROR" t.last_seq at) })
        (record s {
          checkpoints =
              record_replay_checkpoint t.start_cmd failed t.last_seq (some at) s.checkpoints;
        })

  -- the end of the stream, up to the send of its status
  unfoldable pub complete_session : Session Float → Service Float → Service Float
  complete_session t s =
      let at = terminal_timestamp t in
      set_session (record t { phase = closing (mark_completed t.ctrl t.last_seq at) })
        (record s {
          checkpoints =
              record_replay_checkpoint t.start_cmd completed t.last_seq (some at) s.checkpoints;
        })

  -- the task's count of an event
  abbrev pub count_event : TelemetryEventV1 Float → Session Float → Session Float
  count_event event t = record t {
    last_seq = event.sequence;
    last_ts = some event.source_timestamp;
  }

  -- before the next event: the generator yields or raises, then the task looks at its two events
  unfoldable pub next_event :
      Session Float → List (TelemetryEventV1 Float) → Service Float → Service Float
  unfolding fail_session complete_session
  next_event t [] s =
      if is_some t.remaining.failure
      then fail_session t s
      else if t.is_paused
      then s
      else if t.is_stopped
      then set_session (record t { phase = done }) s
      else complete_session t s
  next_event t (event ∷ rest) s =
      if t.is_stopped
      then set_session (record t { phase = done }) s
      else if t.is_paused
      then s
      else (let t' : Session Float = record t {
        phase = holding event;
        remaining = record { events = rest; failure = t.remaining.failure };
      } in
          set_session (if t.is_recovered then t' else count_event event t') s)

  -- one turn of the task: `_run_replay_session`, and `resume_checkpoint` after a restart
  unfoldable pub take_turn : Session Float → Phase Float → Service Float → Service Float
  unfolding next_event checkpoint_state
  take_turn t ready s = next_event t t.remaining.events s
  take_turn t (holding event) s =
      set_session (count_event event (record t { phase = sent event }))
        (record s { telemetry = s.telemetry ++ event ∷ [] })
  take_turn t (sent event) s =
      set_session (record t { phase = ready })
        (record s {
          checkpoints =
              record_replay_checkpoint t.start_cmd (checkpoint_state t.is_paused t.is_stopped)
                t.last_seq t.last_ts s.checkpoints;
        })
  take_turn t (closing ctrl) s = publish_status ctrl (set_session (record t { phase = done }) s)
  take_turn t done s = s

  unfoldable pub fail_send : Session Float → Phase Float → Service Float → Service Float
  unfolding fail_session
  fail_send t (holding event) s = fail_session t s
  fail_send t (closing ctrl) s =
      if is_completed ctrl.state
      then fail_session (record t { ctrl = ctrl }) s
      else set_session (record t { phase = done }) s
  fail_send t _ s = s

  -- the task that `start` creates for an incomplete checkpoint
  abbrev pub resumed_session : ReplayController → ReplayCheckpoint → Session Float
  resumed_session ctrl checkpoint = record {
    controller = record ctrl {
      state = checkpoint.state;
      last_sequence = some checkpoint.last_sequence;
      current_source_timestamp = checkpoint.source_timestamp;
    };
    is_paused = not (is_running checkpoint.state);
    is_stopped = false;
    phase = ready;
    ctrl = ctrl;
    start_cmd = checkpoint.command;
    remaining =
        iter_events P origin table checkpoint.command (checkpoint.last_sequence + 1)
          checkpoint.source_timestamp;
    last_seq = checkpoint.last_sequence;
    last_ts = checkpoint.source_timestamp;
    is_recovered = true;
  }

  abbrev resume_from : ReplayCheckpoint → Service Float → Service Float
  resume_from checkpoint s =
      elim (apply
        (new_controller checkpoint.replay_session_id checkpoint.command.source_dataset_sha256
          checkpoint.command.contract_sha256)
        checkpoint.command) [
          | err e ↦ record s { raised = some e }
          | ok ctrl ↦ set_session (resumed_session ctrl checkpoint) s
        ]

  -- `start` on what the database gives; it raises where two sessions are incomplete
  unfoldable pub resume_incomplete : List ReplayCheckpoint → Service Float → Service Float
  resume_incomplete [] s = s
  resume_incomplete (checkpoint ∷ []) s = resume_from checkpoint s
  resume_incomplete (first ∷ second ∷ rest) s = record s { raised = some runtime_error }

  -- a crash loses the task and keeps the database and the topics; then `start` runs
  unfoldable pub restart_service : Service Float → Service Float
  unfolding resume_incomplete
  restart_service s =
      resume_incomplete (load_incomplete_replays s.checkpoints)
        (record s { active_session = none; raised = none })

  unfoldable pub step : Input → Service Float → Service Float
  unfolding handle_command
  step (command cmd) s = if is_some s.raised then s else handle_command cmd s
  step turn s = elim s.active_session [ none ↦ s | some t ↦ take_turn t t.phase s ]
  step send_fails s = elim s.active_session [ none ↦ s | some t ↦ fail_send t t.phase s ]
  step restart s = restart_service s
